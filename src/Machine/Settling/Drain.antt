-- ===== src/Machine/Settling/Drain.antt =====
-- Settlements come to an end, and then nothing is pending.
use mathlib.Core.WellFounded.{Acc}
use vpnhub.Prelude.{
  ℕ, zero, suc, ◌<◌, ◌≡◌, ◌≢◌, ◌⊎◌, inl, inr, refl, true, some, List, [], ◌∷◌, arith, ap, ◌∙◌,
}
use vpnhub.World.{Platform, World, Task}
use vpnhub.Machine.{Event, Reply, accepts, task_at, remove_at, step, resume}
use vpnhub.Machine.Settling.{Settles, total, loading_weight, handshake_weight}
use vpnhub.Machine.Settling.Weights.{total-remove_at}
use vpnhub.Machine.Settling.Lowers.{resume-IsLess}

abbrev loading_total : World → ℕ
loading_total w = total loading_weight w.tasks

abbrev handshake_total : World → ℕ
handshake_total w = total handshake_weight w.tasks

step-settle :
    (platform : Platform) (w : World) (index : ℕ) (reply : Reply) (t : Task)
    → task_at index w.tasks ≡ some t
    → accepts t reply ≡ true
    → step platform (Event.settle index reply) w
      ≡ resume platform t reply (record w { tasks = remove_at index w.tasks })
unfolding step
step-settle platform w index reply t at fits = rw (at, fits) refl

-- A settlement leaves fewer subscriptions to wait for, or as many and fewer calls.
Settles-less :
    (platform : Platform) (v w : World)
    → Settles platform v w
    → (loading_total v < loading_total w)
      ⊎ ((loading_total v ≡ loading_total w) × (handshake_total v < handshake_total w))
Settles-less platform v w s =
    let at' = total-remove_at loading_weight s.index w.tasks s.task s.at in
    let at'' = total-remove_at handshake_weight s.index w.tasks s.task s.at in
    let e = s.then ∙ step-settle platform w s.index s.reply s.task s.at s.fits in
    let loads = ap loading_total e in
    let calls = ap handshake_total e in
    elim (resume-IsLess platform s.task s.reply (record w { tasks = remove_at s.index w.tasks })
      s.fits) [
        | inl less ↦ inl (omega (arith, less, at', loads))
        | inr (same, less) ↦ inr (omega (arith, same, at', loads), omega (arith, less, at'', calls))
      ]

Acc-within :
    (platform : Platform) (a b : ℕ) (w : World)
    → loading_total w < a
    → handshake_total w < b
    → Acc (Settles platform) w
Acc-within platform zero b w p q = elim p [ ]
Acc-within platform (suc a) zero w p q = elim q [ ]
Acc-within platform (suc a) (suc b) w p q = Acc.intro w λ v s. elim (Settles-less platform v w s) [
  | inl less ↦ Acc-within platform a (suc (handshake_total v)) v (omega (arith, less)) (omega arith)
  | inr (same, less) ↦ Acc-within platform (suc a) b v (omega (arith, same)) (omega (arith, less))
]

-- No sequence of settlements goes on for ever, whatever the promises bring and in whatever order they
-- settle, as long as nothing else happens: loading the storage, the subscriptions, the pings, and the
-- handshake that a timer starts come to an end.
pub Settles-Acc : (platform : Platform) (w : World) → Acc (Settles platform) w
Settles-Acc platform w =
    Acc-within platform (suc (loading_total w)) (suc (handshake_total w)) w (omega arith)
      (omega arith)

-- The environment settles one promise after the other, as it chooses, until none is pending.
unfoldable pub drain : Platform → (World → ℕ × Reply) → ℕ → World → World
drain platform choose zero w = w
drain platform choose (suc n) w =
    drain platform choose n (step platform (Event.settle (choose w).0 (choose w).1) w)

-- The choice is a promise that is pending, with a reply that it waits for.
abbrev pub IsChoice : (World → ℕ × Reply) → World → Type 0
IsChoice choose w =
    (t : Task) × (task_at (choose w).0 w.tasks ≡ some t) × (accepts t (choose w).1 ≡ true)

drain-Acc :
    (platform : Platform) (choose : World → ℕ × Reply)
    → ((w : World) → w.tasks ≢ [] → IsChoice choose w)
    → (w : World) → Acc (Settles platform) w
    → (n : ℕ) × ((drain platform choose n w).tasks ≡ [])
unfolding drain
drain-Acc platform choose chosen w (Acc.intro _ smaller) = elim (none_or_some w.tasks) [
  | inl e ↦ (0, e)
  | inr pending ↦
      let (t, at, fits) = chosen w pending in
      let next = step platform (Event.settle (choose w).0 (choose w).1) w in
      let (n, done) = drain-Acc platform choose chosen next (
        smaller next (record {
          index = (choose w).0;
          reply = (choose w).1;
          task = t;
          at = at;
          fits = fits;
          then = refl;
        })) in
      (suc n, done)
]
  where
    none_or_some : (ts : List Task) → (ts ≡ []) ⊎ (ts ≢ [])
    none_or_some [] = inl refl
    none_or_some (t ∷ ts) = inr (λ e. cc)

-- If the environment settles pending promises for as long as there are some, in any order and with any
-- outcomes that they can have, then none is pending after finitely many of these steps.
pub drain-empties :
    (platform : Platform) (choose : World → ℕ × Reply)
    → ((w : World) → w.tasks ≢ [] → IsChoice choose w)
    → (w : World) → (n : ℕ) × ((drain platform choose n w).tasks ≡ [])
drain-empties platform choose chosen w = drain-Acc platform choose chosen w (Settles-Acc platform w)
