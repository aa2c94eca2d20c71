-- ===== src/Store/Logs.antt =====
-- `addLog` and `clearLogs`.
use vpnhub.Prelude.{ℕ, ◌-◌, zero, suc, String, ◌<>◌, [], ◌∷◌, ◌++◌, length, codes, slice_last, show}
use vpnhub.Types.{LogLevel, LogEntry}
use vpnhub.World.{Platform, LocalTime, Action, set, tick, ◌>>=◌, ◌>>◌}

zeros : ℕ → String
zeros zero = ""
zeros (suc n) = "0" <> zeros n

-- `String(n).padStart(width, "0")`
pad_start : ℕ → ℕ → String
unfolding zeros show
pad_start width n = zeros (width - length (codes (show n))) <> show n

unfoldable pub time_text : LocalTime → String
unfolding pad_start
time_text t =
    pad_start 2 t.hours
    <> (":"
        <> (pad_start 2 t.minutes
            <> (":" <> (pad_start 2 t.seconds <> ("." <> pad_start 3 t.milliseconds)))))

-- One reading gives the time and the id.
unfoldable pub log_entry : Platform → ℕ → LogLevel → String → String → LogEntry
unfolding time_text
log_entry platform n level source message = record {
  id = platform.random_uuid n;
  timestamp = time_text (platform.local_time n);
  level = level;
  source = source;
  message = message;
}

unfoldable pub add_log : Platform → LogLevel → String → String → Action
unfolding log_entry
add_log platform level source message = do
  n ← λ w. w.reads
  tick
  set (λ s. record s {
    logs = slice_last 499 s.logs ++ log_entry platform n level source message ∷ [];
  })

unfoldable pub clear_logs : Action
clear_logs = set (λ s. record s { logs = [] })
