-- ===== src/Machine/Bounds.antt =====
-- What the memory of the store is bounded by, and that its log entries can be told apart.
use vpnhub.Prelude.{
  ℕ, zero, suc, ◌-◌, ◌≤◌, ◌≡◌, refl, ap, ◌∙◌, String, List, [], ◌∷◌, ◌++◌, arith, length,
  length-append, length-drop, slice_last,
}
use vpnhub.Types.{LogEntry, LogLevel, TelemetryPoint}
use vpnhub.World.{Platform, World}
use vpnhub.Store.Initial.{SavedSettings, initial_world, initial_points}
use vpnhub.Store.Logs.{add_log, clear_logs}
use vpnhub.Store.Telemetry.{push_point}
use vpnhub.Machine.{Event, boot, run}
use vpnhub.Machine.Invariant.{IsInvariant}
use vpnhub.Machine.Invariant.Events.{keeps-run, keeps-boot}

abbrev pub IsBounded : World → Type 0
IsBounded w = (length w.store.logs ≤ 500) × (length w.store.telemetry.sparkline ≡ 30)

length-push_point :
    (sparkline : List TelemetryPoint) (p : TelemetryPoint)
    → length sparkline ≡ 30
    → length (push_point sparkline p) ≡ 30
unfolding push_point
length-push_point sparkline p h = omega (
  arith,
  h,
  length-append (slice_last 29 sparkline) (p ∷ []),
  length-drop (length sparkline - 29) sparkline,
)

length-add_log :
    (logs : List LogEntry) (e : LogEntry) → length (slice_last 499 logs ++ e ∷ []) ≤ 500
length-add_log logs e =
    omega
      (arith, length-append (slice_last 499 logs) (e ∷ []), length-drop (length logs - 499) logs)

add_log-IsBounded :
    (platform : Platform) (w : World) (level : LogLevel) (source message : String)
    → IsBounded w
    → IsBounded (add_log platform level source message w)
unfolding add_log
add_log-IsBounded platform w level source message (l, s) = (length-add_log w.store.logs _, s)

clear_logs-IsBounded : (w : World) → IsBounded w → IsBounded (clear_logs w)
unfolding clear_logs
clear_logs-IsBounded w (l, s) = (omega arith, s)

IsBounded-invariant : (platform : Platform) → IsInvariant platform IsBounded
IsBounded-invariant platform = record {
  quiet = λ p l t. (omega (arith, p, ap length l), omega (arith, p, ap length t));
  point = λ {w} q p l t. (
    omega (arith, p, ap length l),
    ap length t ∙ length-push_point w.store.telemetry.sparkline q p.1,
  );
  log = λ level source message p. add_log-IsBounded platform _ level source message p;
  clear = λ p. clear_logs-IsBounded _ p;
  effect = λ p h. p;
  request = λ profile settings password p. p;
  tasks = λ p. p;
  listen = λ l p. p;
  subscribed = λ p. p;
  loading = λ p. p;
  notified = λ p. p;
  reading = λ p. p;
}

length-initial_points : (platform : Platform) (n k : ℕ) → length (initial_points platform n k) ≡ k
unfolding initial_points
length-initial_points platform n zero = refl
length-initial_points platform n (suc k) = ap suc (length-initial_points platform (suc n) k)

initial_world-IsBounded :
    (platform : Platform) (saved : SavedSettings) → IsBounded (initial_world platform saved)
unfolding initial_world
initial_world-IsBounded platform saved = (omega arith, length-initial_points platform 0 30)

-- Whatever happens after the module is loaded, in whatever order, the store keeps at most 500 log
-- entries and exactly 30 points of the sparkline.
pub run-IsBounded :
    (platform : Platform) (saved : SavedSettings) (es : List Event)
    → IsBounded (run platform (boot platform saved) es)
run-IsBounded platform saved es = keeps-run platform (IsBounded-invariant platform) es (
    keeps-boot platform (IsBounded-invariant platform) saved
      (initial_world-IsBounded platform saved))
