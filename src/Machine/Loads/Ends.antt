-- ===== src/Machine/Loads/Ends.antt =====
-- A loading of the storage does not hang.
use vpnhub.Prelude.{ℕ, ◌≡◌, ◌≢◌, ◌<◌, ap, false, Bool-cases, inl, inr, List, [], arith, zero, suc}
use vpnhub.World.{Platform, World, Task}
use vpnhub.Store.Initial.{SavedSettings}
use vpnhub.Machine.{Reply, Event, boot, run}
use vpnhub.Machine.Settling.{total, loading_weight}
use vpnhub.Machine.Settling.Drain.{drain, IsChoice, drain-empties}
use vpnhub.Machine.Loads.{IsAwaited}
use vpnhub.Machine.Loads.Steps.{step-IsAwaited, run-IsAwaited, boot-IsAwaited}

drain-IsAwaited :
    (platform : Platform) (choose : World → ℕ × Reply) (n : ℕ) (w : World)
    → IsAwaited w
    → IsAwaited (drain platform choose n w)
unfolding drain
drain-IsAwaited platform choose zero w a = a
drain-IsAwaited platform choose (suc n) w a =
    drain-IsAwaited platform choose n _
      (step-IsAwaited platform (Event.settle (choose w).0 (choose w).1) w a)

-- After any events, if the environment then settles the pending promises, in any order and with any
-- outcomes that they can have, the loading of the storage ends: after finitely many of these steps,
-- nothing is pending, and the storage does not count as being loaded any more.
pub drain-loaded :
    (platform : Platform) (saved : SavedSettings) (choose : World → ℕ × Reply)
    → ((w : World) → w.tasks ≢ [] → IsChoice choose w)
    → (es : List Event)
    → let w = run platform (boot platform saved) es in
      (n : ℕ) × ((drain platform choose n w).tasks ≡ [])
      × ((drain platform choose n w).is_storage_loading ≡ false)
drain-loaded platform saved choose chosen es =
    let w = run platform (boot platform saved) es in
    let (n, e) = drain-empties platform choose chosen w in
    let awaited =
      drain-IsAwaited platform choose n w
        (run-IsAwaited platform es _ (boot-IsAwaited platform saved)) in
    (
      n,
      e,
      elim (Bool-cases (drain platform choose n w).is_storage_loading) [
        | inl loading ↦ let pending = awaited loading in absurd (nothing_pending _ e pending)
        | inr idle ↦ idle
      ],
    )
  where
    nothing_pending : (ts : List Task) → ts ≡ [] → ¬ (0 < total loading_weight ts)
    nothing_pending ts e h =
        let none_left = ap (total loading_weight) e in omega (arith, none_left, h)
