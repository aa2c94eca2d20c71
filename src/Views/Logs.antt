-- ===== src/Views/Logs.antt =====
-- components/logs/LogConsoleView.tsx: the filter of the log, the counts on the labels of the filter and
-- the export; and what the dashboard shows of the log.
pub mod Filter
pub mod Counts
use vpnhub.Prelude.{
  ℕ, suc, ◌-◌, String, ◌<>◌, Bool, true, not, ◌&&◌, ◌||◌, List, [], ◌∷◌, str_eq, if◌then◌else◌,
  filter_by, reverse, slice_last, length, codes,
}
use vpnhub.Types.{LogLevel, LogEntry}
use vpnhub.Totp.{all_space}
use vpnhub.Views.Text.{lower, includes}

abbrev pub level_text : LogLevel → String
level_text LogLevel.debug = "DEBUG"
level_text LogLevel.info = "INFO"
level_text LogLevel.warn = "WARN"
level_text LogLevel.error = "ERROR"

-- `logFilterLevel !== "ALL" && log.level !== logFilterLevel` is false.
unfoldable pub matches_level : String → LogEntry → Bool
matches_level filter_level log =
    str_eq filter_level "ALL" || str_eq (level_text log.level) filter_level

unfoldable pub matches_text : String → LogEntry → Bool
matches_text query log =
    includes (lower query) (lower log.message)
    || (includes (lower query) (lower log.source)
        || (includes (lower query) (lower (level_text log.level))
            || includes (lower query) (lower log.timestamp)))

-- The test of the filter. `logSearchQuery.trim()` is empty if there is nothing but space.
unfoldable pub matches_log : String → String → LogEntry → Bool
unfolding matches_level matches_text
matches_log filter_level query log =
    matches_level filter_level log && (all_space (codes query) || matches_text query log)

-- `[...matched].reverse()`
unfoldable pub filtered_logs : List LogEntry → String → String → List LogEntry
unfolding matches_log
filtered_logs logs filter_level query = reverse (filter_by (matches_log filter_level query) logs)

pub record LogStats : Type 0 where
  pub total : ℕ
  pub error : ℕ
  pub warn : ℕ
  pub info : ℕ
  pub debug : ℕ

-- The body of the loop that counts.
unfoldable pub count_log : LogLevel → LogStats → LogStats
count_log LogLevel.error s = record s { error = suc s.error }
count_log LogLevel.warn s = record s { warn = suc s.warn }
count_log LogLevel.info s = record s { info = suc s.info }
count_log LogLevel.debug s = record s { debug = suc s.debug }

unfoldable pub count_logs : LogStats → List LogEntry → LogStats
unfolding count_log
count_logs s [] = s
count_logs s (log ∷ logs) = count_logs (count_log log.level s) logs

unfoldable pub log_stats : List LogEntry → LogStats
unfolding count_logs
log_stats logs =
    let s = count_logs (record { total = 0; error = 0; warn = 0; info = 0; debug = 0 }) logs in
    record s { total = length logs }

-- `level.padEnd(5)`
abbrev padded_level : LogLevel → String
padded_level LogLevel.debug = "DEBUG"
padded_level LogLevel.info = "INFO "
padded_level LogLevel.warn = "WARN "
padded_level LogLevel.error = "ERROR"

unfoldable pub format_log : LogEntry → String
format_log l =
    "["
    <> (l.timestamp
        <> ("] [" <> (padded_level l.level <> ("] [" <> (l.source <> ("]: " <> l.message))))))

-- `lines.join("\n")`, of the lines of the entries.
unfoldable pub join_logs : List LogEntry → String
unfolding format_log
join_logs [] = ""
join_logs (l ∷ []) = format_log l
join_logs (l ∷ m ∷ logs) = format_log l <> ("\n" <> join_logs (m ∷ logs))

-- `getFullFormattedLogs`, which is also what `handleExportLogs` writes to the file.
unfoldable pub full_formatted_logs : List LogEntry → String → String → String
unfolding filtered_logs join_logs
full_formatted_logs logs filter_level query = join_logs (filtered_logs logs filter_level query)

-- `logs.slice(-5).reverse()`, of the dashboard's feed and of its card.
unfoldable pub recent_logs : List LogEntry → List LogEntry
recent_logs logs = reverse (slice_last 5 logs)
