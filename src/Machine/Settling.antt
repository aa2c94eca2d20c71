-- ===== src/Machine/Settling.antt =====
-- The settlement of promises: what is left to run, and what a settlement leaves behind.
--
-- A settled promise may leave others: a start of the storage subscribes four listeners one after the
-- other, then pings each profile, and sets a timer that may connect. So the pending tasks are weighed
-- twice: by the subscriptions that a loading still has to make, and by the calls that a handshake still
-- has to make.
pub mod Weights
pub mod Lowers
pub mod Drain
use vpnhub.Prelude.{ℕ, ◌≡◌, true, some, List, [], ◌∷◌, ◌+◌, suc, zero}
use vpnhub.World.{Platform, World, Task, Listener}
use vpnhub.Machine.{Event, Reply, accepts, task_at, step}

-- One step of the machine in which a pending task takes its reply.
pub record Settles (platform : Platform) (v w : World) : Type 0 where
  pub index : ℕ
  pub reply : Reply
  pub task : Task
  pub at : task_at index w.tasks ≡ some task
  pub fits : accepts task reply ≡ true
  pub then : v ≡ step platform (Event.settle index reply) w

abbrev pub count_listeners : List Listener → ℕ
count_listeners [] = 0
count_listeners (l ∷ ls) = suc (count_listeners ls)

-- The subscriptions that a loading still waits for.
abbrev pub loading_weight : Task → ℕ
loading_weight Task.load_snapshot = 5
loading_weight (Task.subscribed rest id) = suc (count_listeners rest)
loading_weight _ = 0

-- The promises that a handshake still waits for.
abbrev pub handshake_weight : Task → ℕ
handshake_weight Task.load_snapshot = 0
handshake_weight (Task.subscribed rest id) = 0
handshake_weight (Task.auto_connect id) = 3
handshake_weight (Task.connect_otp _ _ _) = 2
handshake_weight _ = 1

abbrev pub total : (Task → ℕ) → List Task → ℕ
total f [] = 0
total f (t ∷ ts) = f t + total f ts
