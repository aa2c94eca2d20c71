-- ===== src/Tests/Settling.antt =====
-- Promises that settle, one after the other, and what the connection does meanwhile.
use mathlib.Core.WellFounded.{Acc}
use vpnhub.Prelude.{ℕ, ◌≤◌, ◌≡◌, ◌≢◌, refl, true, false, none, some, List, [], ◌∷◌}
use vpnhub.Bridge.{resolved, rejected}
use vpnhub.World.{World, Task, Listener}
use vpnhub.Store.Initial.{SavedSettings}
use vpnhub.Machine.{Call, Reply, Event, accepts, task_at, step, boot, run}
use vpnhub.Machine.Settling.{Settles}
use vpnhub.Machine.Settling.Drain.{drain, IsChoice, Settles-Acc}
use vpnhub.Machine.Loads.Ends.{drain-loaded}
use vpnhub.Machine.States.{cause, MayMove}
use vpnhub.Machine.States.Actions.{state}
use vpnhub.Machine.States.Events.{run-MayMove}
use vpnhub.Machine.States.Reports.{is_up, boot-unreported}
use vpnhub.Machine.Registered.{count}
use vpnhub.Machine.Registered.Runs.{run-count}
use vpnhub.Tests.Laws.{disk}
use vpnhub.Tests.Data.{desk, office}

-- A reply for each task.
abbrev answer : Task → Reply
answer Task.load_snapshot = Reply.snapshot (rejected "no disk")
answer (Task.subscribed rest id) = Reply.listening (resolved tt)
answer (Task.connect_otp p s otp) = Reply.elapsed
answer (Task.connect_response params) = Reply.daemon (resolved none)
answer Task.disconnect_response = Reply.daemon (resolved none)
answer Task.status_response = Reply.daemon (resolved none)
answer (Task.retry_response was) = Reply.alive (resolved true)
answer Task.mirror_response = Reply.alive (resolved true)
answer (Task.ping_response id) = Reply.round_trip (resolved 20)
answer (Task.auto_connect id) = Reply.elapsed

answer-accepts : (t : Task) → accepts t (answer t) ≡ true
answer-accepts Task.load_snapshot = refl
answer-accepts (Task.subscribed rest id) = refl
answer-accepts (Task.connect_otp p s otp) = refl
answer-accepts (Task.connect_response params) = refl
answer-accepts Task.disconnect_response = refl
answer-accepts Task.status_response = refl
answer-accepts (Task.retry_response was) = refl
answer-accepts Task.mirror_response = refl
answer-accepts (Task.ping_response id) = refl
answer-accepts (Task.auto_connect id) = refl

abbrev answer_first : List Task → Reply
answer_first [] = Reply.elapsed
answer_first (t ∷ ts) = answer t

-- The promises settle in the order in which they were made.
abbrev first_come : World → ℕ × Reply
first_come w = (0, answer_first w.tasks)

first_come-choice :
    (ts : List Task)
    → ts ≢ []
    → (t : Task) × (task_at 0 ts ≡ some t) × (accepts t (answer_first ts) ≡ true)
first_come-choice [] pending = absurd (pending refl)
first_come-choice (t ∷ ts) pending = (t, refl, answer-accepts t)

first_come-IsChoice : (w : World) → w.tasks ≢ [] → IsChoice first_come w
first_come-IsChoice w pending = first_come-choice w.tasks pending

abbrev started : World
started = boot desk SavedSettings.missing

Settles-Acc_example : Acc (Settles desk) started
Settles-Acc_example = Settles-Acc desk started

abbrev morning : List Event
morning =
    Event.call (Call.add_profile office none)
    ∷ Event.call (Call.connect none none)
    ∷ Event.call Call.ping_all_profiles
    ∷ []

drain-loaded_example :
    let w = run desk started morning in
    (n : ℕ) × ((drain desk first_come n w).tasks ≡ [])
    × ((drain desk first_come n w).is_storage_loading ≡ false)
drain-loaded_example =
    drain-loaded desk SavedSettings.missing first_come first_come-IsChoice morning

run-MayMove_example :
    let w = run desk started morning in
    MayMove
      (cause w (Event.call (Call.connect none none)))
      (state w)
      (state (step desk (Event.call (Call.connect none none)) w))
run-MayMove_example =
    run-MayMove desk SavedSettings.missing morning (Event.call (Call.connect none none))

boot-unreported_example : is_up (state (run desk started morning)) ≡ false
boot-unreported_example =
    boot-unreported desk SavedSettings.missing morning (refl, (refl, (refl, tt)))

-- The storage is loaded a second time, and by force, while the listeners are being registered.
abbrev loaded_twice : List Event
loaded_twice =
    Event.settle 0 (Reply.snapshot (resolved disk))
    ∷ Event.call (Call.load_storage true)
    ∷ Event.settle 1 (Reply.listening (resolved tt))
    ∷ Event.settle 1 (Reply.snapshot (resolved disk))
    ∷ Event.settle 1 (Reply.listening (resolved tt))
    ∷ Event.settle 1 (Reply.listening (resolved tt))
    ∷ Event.settle 1 (Reply.listening (resolved tt))
    ∷ Event.settle 1 (Reply.listening (resolved tt))
    ∷ Event.settle 1 (Reply.listening (resolved tt))
    ∷ []

run-count_example : count Listener.metrics (run desk started loaded_twice).listeners ≤ 1
run-count_example = run-count desk SavedSettings.missing loaded_twice Listener.metrics
