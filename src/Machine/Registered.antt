-- ===== src/Machine/Registered.antt =====
-- The listeners that are registered, and those that a pending task still has to register.
pub mod Once
pub mod Runs
use vpnhub.Prelude.{ℕ, zero, suc, ◌+◌, ◌≤◌, ◌≡◌, Bool, true, false, List, [], ◌∷◌, if◌then◌else◌}
use vpnhub.World.{World, Task, Listener}
use vpnhub.Machine.Settling.{total}

abbrev pub is_listener : Listener → Listener → Bool
is_listener Listener.health_mirror Listener.health_mirror = true
is_listener Listener.daemon_status Listener.daemon_status = true
is_listener Listener.vpn_status Listener.vpn_status = true
is_listener Listener.metrics Listener.metrics = true
is_listener Listener.tray_toggle Listener.tray_toggle = true
is_listener _ _ = false

abbrev one_if : Bool → ℕ
one_if true = 1
one_if false = 0

-- How often a listener is in a list.
abbrev pub count : Listener → List Listener → ℕ
count l [] = 0
count l (k ∷ ks) = one_if (is_listener l k) + count l ks

-- How often a task has to register it.
abbrev pub awaits : Listener → Task → ℕ
awaits l (Task.subscribed rest id) = count l rest
awaits l _ = 0

abbrev pub placed : Listener → World → ℕ
placed l w = count l w.listeners + total (awaits l) w.tasks

-- The listeners of `setupIpcSubscriptions`.
abbrev pub is_own : Listener → Bool
is_own Listener.health_mirror = false
is_own _ = true

-- Each listener is registered or awaited at most once, and those of `setupIpcSubscriptions` are not before
-- it has run.
pub record IsOnce (w : World) : Type 0 where
  pub once : (l : Listener) → placed l w ≤ 1
  pub later : w.ipc_subscribed ≡ false → (l : Listener) → is_own l ≡ true → placed l w ≡ 0
