-- ===== src/Tests/Runs.antt =====
-- Runs of the whole store.
use vpnhub.Prelude.{ℕ, zero, suc, ◌≡◌, refl, ap, sym, ◌∙◌, none, List, [], ◌∷◌, length, codes}
use vpnhub.Prelude.Decimal.{codes-append}
use vpnhub.Types.{LogLevel}
use vpnhub.Store.Initial.{SavedSettings}
use vpnhub.Machine.{Call, Event, boot, run}
use vpnhub.Machine.Bounds.{IsBounded, run-IsBounded}
use vpnhub.Machine.LogIds.{Distinct, run-Distinct}
use vpnhub.Machine.Requests.{AllCoherent, run-AllCoherent}
use vpnhub.Tests.Data.{desk, office, strokes}

abbrev day : List Event
day =
    Event.call (Call.add_profile office none)
    ∷ Event.call (Call.connect none none)
    ∷ Event.call (Call.add_log LogLevel.info "TEST" "one")
    ∷ Event.call Call.tick_telemetry
    ∷ Event.call Call.disconnect
    ∷ []

run-IsBounded_example : IsBounded (run desk (boot desk SavedSettings.missing) day)
run-IsBounded_example = run-IsBounded desk SavedSettings.missing day

run-AllCoherent_example : AllCoherent (run desk (boot desk SavedSettings.missing) day)
run-AllCoherent_example = run-AllCoherent desk SavedSettings.missing day

length-strokes : (n : ℕ) → length (codes (strokes n)) ≡ n
length-strokes zero = refl
length-strokes (suc n) = ap length (codes-append "x" (strokes n)) ∙ ap suc (length-strokes n)

strokes-injective : (m n : ℕ) → strokes m ≡ strokes n → m ≡ n
strokes-injective m n e = sym (length-strokes m) ∙ ap (λ s. length (codes s)) e ∙ length-strokes n

run-Distinct_example : Distinct (run desk (boot desk SavedSettings.missing) day).store.logs
run-Distinct_example = run-Distinct desk strokes-injective SavedSettings.missing day
