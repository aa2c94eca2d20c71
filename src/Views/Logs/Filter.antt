-- ===== src/Views/Logs/Filter.antt =====
-- What the filter of the log shows.
use vpnhub.Prelude.{
  ◌≡◌, refl, sym, ◌↔◌, ◌⊎◌, inl, inr, String, Bool, true, false, ◌&&◌, ◌||◌, List, eq_iff, reverse,
  codes, reverse-reverse, Selects, filter_by-Selects, subst,
}
use vpnhub.Types.{LogEntry}
use vpnhub.Totp.{all_space}
use vpnhub.Views.Text.{lower, Occurs, includes_iff}
use vpnhub.Views.Logs.{level_text, matches_level, matches_text, matches_log, filtered_logs}

-- What the user asks for: the level is the chosen one, if one is chosen, and the query, if it is not
-- blank, stands in one of the four texts of the entry, in either case.
abbrev pub IsWanted : String → String → LogEntry → Type 0
IsWanted filter_level query log =
    ((filter_level ≡ "ALL") ⊎ (level_text log.level ≡ filter_level))
    × ((all_space (codes query) ≡ true)
        ⊎ (Occurs (lower query) (lower log.message)
            ⊎ (Occurs (lower query) (lower log.source)
                ⊎ (Occurs (lower query) (lower (level_text log.level))
                    ⊎ Occurs (lower query) (lower log.timestamp)))))

-- A test that decides a statement.
abbrev Decides : Bool → Type 0 → Type 0
Decides b P = (b ≡ true) ↔ P

Decides-or : {P Q : Type 0} (a b : Bool) → Decides a P → Decides b Q → Decides (a || b) (P ⊎ Q)
Decides-or true b p q = (λ h. inl (p.0 refl), λ o. refl)
Decides-or false b p q =
    (λ h. inr (q.0 h), λ o. elim o [ inl x ↦ absurd (let e = p.1 x in cc) | inr y ↦ q.1 y ])

Decides-and : {P Q : Type 0} (a b : Bool) → Decides a P → Decides b Q → Decides (a && b) (P × Q)
Decides-and true b p q = (λ h. (p.0 refl, q.0 h), λ o. q.1 o.1)
Decides-and false b p q = (λ h. cc, λ o. p.1 o.0)

pub matches_log_iff :
    (filter_level query : String) (log : LogEntry)
    → (matches_log filter_level query log ≡ true) ↔ IsWanted filter_level query log
unfolding matches_log matches_level matches_text
matches_log_iff filter_level query log =
    Decides-and _ _
      (Decides-or _ _ (eq_iff filter_level "ALL") (eq_iff (level_text log.level) filter_level))
      (Decides-or _ _ (λ h. h, λ h. h)
        (Decides-or _ _ (includes_iff _ _) (
          Decides-or _ _ (includes_iff _ _)
            (Decides-or _ _ (includes_iff _ _) (includes_iff _ _)))))

-- The log that is shown has exactly the entries that the user asks for, by level and query, with the
-- newest first: backwards, it is a selection of the log in the log's order.
pub filtered_logs-Selects :
    (logs : List LogEntry) (filter_level query : String)
    → Selects (IsWanted filter_level query) logs (reverse (filtered_logs logs filter_level query))
unfolding filtered_logs
filtered_logs-Selects logs filter_level query =
    subst (Selects (IsWanted filter_level query) logs) (sym (reverse-reverse _))
      (filter_by-Selects _ _ logs (matches_log_iff filter_level query))
