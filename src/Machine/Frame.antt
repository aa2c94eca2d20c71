-- ===== src/Machine/Frame.antt =====
-- What the actions of the store leave alone: the state of the connection, the loading of the storage,
-- the listeners, and what is pending for these.
pub mod Calls
use vpnhub.Prelude.{◌≡◌, refl, Bool, true, false, Option, none, some, ◌∙◌}
use vpnhub.Bridge.{Command}
use vpnhub.World.{World, Action, branch, invoke_request, defer, Task}
use vpnhub.Prelude.{ℕ}
use vpnhub.Machine.Settling.{total, loading_weight}

abbrev pub loading_total : World → ℕ
loading_total w = total loading_weight w.tasks

-- A weight that only the tasks of a loading have.
abbrev pub IsLight : (Task → ℕ) → Type 0
IsLight g = (t : Task) → loading_weight t ≡ 0 → g t ≡ 0

-- The loading of the storage stands where it stood, and so do the listeners and what is pending for them.
abbrev pub Still : World → World → Type 0
Still w v =
    (v.is_storage_loading ≡ w.is_storage_loading)
    × (v.listeners ≡ w.listeners)
    × (v.ipc_subscribed ≡ w.ipc_subscribed)
    × ((g : Task → ℕ) → IsLight g → total g v.tasks ≡ total g w.tasks)

-- So does the state of the connection.
abbrev pub Frame : World → World → Type 0
Frame w v = (v.store.connection_state ≡ w.store.connection_state) × Still w v

pub invoke_request-Frame : (c : Option Command) (w : World) → Frame w (invoke_request c w)
invoke_request-Frame none w = (refl, (refl, refl, refl, λ g light. refl))
invoke_request-Frame (some c) w = (refl, (refl, refl, refl, λ g light. refl))

pub invoke_twice-Frame :
    (c d : Option Command) (w : World) → Frame w (invoke_request d (invoke_request c w))
invoke_twice-Frame c none w = invoke_request-Frame c w
invoke_twice-Frame c (some d) w = invoke_request-Frame c w

pub branch-Frame :
    (b : Bool) (f g : Action) (u w : World)
    → Frame u (f w)
    → Frame u (g w)
    → Frame u (branch b f g w)
unfolding branch
branch-Frame true f g u w p q = p
branch-Frame false f g u w p q = q
