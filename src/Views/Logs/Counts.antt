-- ===== src/Views/Logs/Counts.antt =====
-- The counts on the labels of the log's filter.
use vpnhub.Prelude.{
  ℕ, suc, ◌+◌, ◌≡◌, refl, ap, sym, ◌∙◌, Bool, true, false, List, [], ◌∷◌, length, filter_by, arith,
  str_eq, length-reverse, if◌then◌else◌, ◌||◌, ◌&&◌, filter_by-next, filter_by-all,
}
use vpnhub.Types.{LogLevel, LogEntry}
use vpnhub.Totp.{all_space}
use vpnhub.Views.Logs.{
  level_text, matches_level, matches_log, filtered_logs, LogStats, count_log, count_logs, log_stats,
}

-- The count of a level.
abbrev pub count_of : LogLevel → LogStats → ℕ
count_of LogLevel.error s = s.error
count_of LogLevel.warn s = s.warn
count_of LogLevel.info s = s.info
count_of LogLevel.debug s = s.debug

-- The filter of a level, at an entry of the level `l`.
abbrev passes : LogLevel → LogLevel → Bool
passes level l = str_eq (level_text level) "ALL" || str_eq (level_text l) (level_text level)

count_log_lem :
    (level l : LogLevel) (s : LogStats)
    → count_of level (count_log l s) ≡ count_of level s + (if passes level l then 1 else 0)
unfolding count_log
count_log_lem LogLevel.error LogLevel.error s = omega arith
count_log_lem LogLevel.error _ s = omega arith
count_log_lem LogLevel.warn LogLevel.warn s = omega arith
count_log_lem LogLevel.warn _ s = omega arith
count_log_lem LogLevel.info LogLevel.info s = omega arith
count_log_lem LogLevel.info _ s = omega arith
count_log_lem LogLevel.debug LogLevel.debug s = omega arith
count_log_lem LogLevel.debug _ s = omega arith

and-true : (b : Bool) → b && true ≡ b
and-true true = refl
and-true false = refl

passes_lem :
    (level : LogLevel) (log : LogEntry)
    → matches_log (level_text level) "" log ≡ passes level log.level
unfolding matches_log matches_level all_space
passes_lem level log = and-true (passes level log.level)

count_logs_lem :
    (level : LogLevel) (s : LogStats) (logs : List LogEntry)
    → count_of level (count_logs s logs)
      ≡ count_of level s + length (filter_by (matches_log (level_text level) "") logs)
unfolding count_logs
count_logs_lem level s [] = omega arith
count_logs_lem level s (log ∷ logs) =
    rw (filter_by-next (matches_log (level_text level) "") log logs, passes_lem level log)
      (omega
        (arith, count_logs_lem level (count_log log.level s) logs, count_log_lem level log.level s))

abbrev no_logs : LogStats
no_logs = record { total = 0; error = 0; warn = 0; info = 0; debug = 0 }

-- All counts together.
abbrev sum : LogStats → ℕ
sum s = s.error + s.warn + s.info + s.debug

sum-count_log : (l : LogLevel) (s : LogStats) → sum (count_log l s) ≡ suc (sum s)
unfolding count_log
sum-count_log LogLevel.error s = omega arith
sum-count_log LogLevel.warn s = omega arith
sum-count_log LogLevel.info s = omega arith
sum-count_log LogLevel.debug s = omega arith

sum-count_logs :
    (s : LogStats) (logs : List LogEntry) → sum (count_logs s logs) ≡ sum s + length logs
unfolding count_logs
sum-count_logs s [] = omega arith
sum-count_logs s (log ∷ logs) =
    omega (arith, sum-count_logs (count_log log.level s) logs, sum-count_log log.level s)

all_pass : (log : LogEntry) → matches_log "ALL" "" log ≡ true
unfolding matches_log matches_level all_space
all_pass log = refl

log_stats-level :
    (level : LogLevel) (logs : List LogEntry)
    → (count_of level (log_stats logs) ≡ count_of level (count_logs no_logs logs))
      × (count_of level no_logs ≡ 0)
unfolding log_stats
log_stats-level LogLevel.error logs = (refl, refl)
log_stats-level LogLevel.warn logs = (refl, refl)
log_stats-level LogLevel.info logs = (refl, refl)
log_stats-level LogLevel.debug logs = (refl, refl)

log_stats-count :
    (level : LogLevel) (logs : List LogEntry)
    → count_of level (log_stats logs) ≡ length (filtered_logs logs (level_text level) "")
unfolding log_stats filtered_logs
log_stats-count level logs =
    let (same, none_yet) = log_stats-level level logs in
    omega (
      arith,
      length-reverse (filter_by (matches_log (level_text level) "") logs),
      count_logs_lem level no_logs logs,
      same,
      none_yet,
    )

-- The number on each label of the filter is the number of entries that this filter shows, as long as
-- nothing is searched for; together they are all entries.
pub log_stats-filtered :
    (level : LogLevel) (logs : List LogEntry)
    → let s = log_stats logs in
      (count_of level s ≡ length (filtered_logs logs (level_text level) ""))
      × (s.total ≡ length (filtered_logs logs "ALL" ""))
      × (s.total ≡ s.error + s.warn + s.info + s.debug)
unfolding log_stats filtered_logs
log_stats-filtered level logs = (
  log_stats-count level logs,
  sym (length-reverse _ ∙ ap length (filter_by-all (matches_log "ALL" "") logs all_pass)),
  omega (arith, sum-count_logs no_logs logs),
)
