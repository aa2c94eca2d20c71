-- ===== src/Machine/Settling/Lowers.antt =====
-- Each task, when it settles, leaves less to wait for: fewer subscriptions, or as many and fewer calls.
use vpnhub.Prelude.{
  ℕ, ◌+◌, ◌≤◌, ◌<◌, ◌≡◌, ◌⊎◌, inl, inr, refl, true, false, Bool, Option, none, some, List, [], ◌∷◌,
  arith, ap, String, Bool-cases, ◌&&◌, nonempty,
}
use vpnhub.Types.{ConnectionState}
use vpnhub.Types.Equality.{state_eq}
use vpnhub.Bridge.{Outcome, resolved, rejected, DaemonReply, FullStorageSnapshotPayload}
use vpnhub.World.{Platform, Action, World, Task, Listener, branch}
use vpnhub.Machine.{Reply, accepts, resume, resume_mirror, resume_alive}
use vpnhub.Store.Logs.{add_log}
use vpnhub.Store.Settings.{set_daemon_health}
use vpnhub.Store.Connection.{resume_connect, resume_disconnect, resume_retry}
use vpnhub.Store.Subscriptions.{resume_status, set_reported}
use vpnhub.Store.Telemetry.{resume_ping, ping_all_profiles}
use vpnhub.Store.Storage.{
  register, setup_ipc_subscriptions, store_snapshot, resume_load, finish_load, resume_subscribed,
  fire_auto_connect,
}
use vpnhub.Machine.Settling.{total, loading_weight, handshake_weight}
use vpnhub.Machine.Settling.Weights.{
  total-append, resume_otp-Starts, connect-Starts, ping_all_profiles-loading,
}

-- The pending tasks `us` are less to wait for than `t` and `ts` together.
abbrev pub IsLess : Task → List Task → List Task → Type 0
IsLess t ts us =
    (total loading_weight us < loading_weight t + total loading_weight ts)
    ⊎ ((total loading_weight us ≡ loading_weight t + total loading_weight ts)
        × (total handshake_weight us < handshake_weight t + total handshake_weight ts))

tasks-branch :
    (b : Bool) (f g : Action) (w : World) (ts : List Task)
    → (f w).tasks ≡ ts
    → (g w).tasks ≡ ts
    → (branch b f g w).tasks ≡ ts
unfolding branch
tasks-branch true f g w ts p q = p
tasks-branch false f g w ts p q = q

resume_connect-tasks :
    (platform : Platform) (o : Outcome (Option DaemonReply)) (w : World)
    → (resume_connect platform o w).tasks ≡ w.tasks
unfolding resume_connect add_log
resume_connect-tasks platform (resolved none) w = refl
resume_connect-tasks platform (resolved (some r)) w = tasks-branch _ _ _ w w.tasks refl refl
resume_connect-tasks platform (rejected e) w = refl

resume_disconnect-tasks :
    (platform : Platform) (o : Outcome (Option DaemonReply)) (w : World)
    → (resume_disconnect platform o w).tasks ≡ w.tasks
unfolding resume_disconnect add_log
resume_disconnect-tasks platform (resolved r) w = refl
resume_disconnect-tasks platform (rejected e) w = refl

resume_alive-tasks :
    (platform : Platform) (was : ConnectionState) (o : Outcome Bool) (w : World)
    → (resume_alive platform was o w).tasks ≡ w.tasks
unfolding resume_retry add_log
resume_alive-tasks platform was (resolved true) w = tasks-branch _ _ _ _ w.tasks refl refl
resume_alive-tasks platform was (resolved false) w = refl
resume_alive-tasks platform was (rejected e) w = refl

resume_mirror-tasks : (o : Outcome Bool) (w : World) → (resume_mirror o w).tasks ≡ w.tasks
unfolding resume_mirror set_daemon_health
resume_mirror-tasks (resolved true) w = refl
resume_mirror-tasks (resolved false) w = refl
resume_mirror-tasks (rejected e) w = refl

resume_status-tasks :
    (o : Outcome (Option DaemonReply)) (w : World) → (resume_status o w).tasks ≡ w.tasks
unfolding resume_status set_reported
resume_status-tasks (resolved none) w = refl
resume_status-tasks (resolved (some r)) w =
    elim (r.state) as (λ s. (set_reported s w).tasks ≡ w.tasks) [ none ↦ refl | some s ↦ refl ]
resume_status-tasks (rejected e) w = refl

resume_ping-tasks :
    (id : String) (o : Outcome (Option ℕ)) (w : World) → (resume_ping id o w).tasks ≡ w.tasks
unfolding resume_ping
resume_ping-tasks id (resolved none) w = refl
resume_ping-tasks id (resolved (some n)) w = tasks-branch _ _ _ w w.tasks refl refl
resume_ping-tasks id (rejected e) w = refl

-- What leaves no task behind.
IsLess-none :
    (t : Task) (ts us : List Task)
    → loading_weight t ≡ 0
    → 0 < handshake_weight t
    → us ≡ ts
    → IsLess t ts us
IsLess-none t ts us l h e =
    inr (omega (arith, ap (total loading_weight) e), omega (arith, ap (total handshake_weight) e))

register-tasks :
    (platform : Platform) (l : Listener) (f : Task → ℕ) (w : World)
    → total f (register platform l w).tasks ≡ total f w.tasks
unfolding register branch
register-tasks platform l f w = elim (Bool-cases platform.tauri) [
  | inl shell ↦ rw shell refl
  | inr browser ↦ rw browser refl
]

setup_ipc_subscriptions-loading :
    (platform : Platform) (id : String) (w : World)
    → total loading_weight (setup_ipc_subscriptions platform id w).tasks
      ≤ 4 + total loading_weight w.tasks
unfolding setup_ipc_subscriptions register branch
setup_ipc_subscriptions-loading platform id w = elim (Bool-cases w.ipc_subscribed) [
  | inl done ↦
      rw done (omega (arith, total-append loading_weight w.tasks (Task.subscribed [] id ∷ [])))
  | inr fresh ↦ elim (Bool-cases platform.tauri) [
    | inl shell ↦
        rw (fresh, shell)
          (omega (
            arith,
            total-append loading_weight w.tasks (
                Task.subscribed (Listener.vpn_status ∷ Listener.metrics ∷ Listener.tray_toggle ∷ [])
                  id
                ∷ []),
          ))
    | inr browser ↦
        rw (fresh, browser)
          (omega (
            arith,
            total-append loading_weight w.tasks (
                Task.subscribed (Listener.vpn_status ∷ Listener.metrics ∷ Listener.tray_toggle ∷ [])
                  id
                ∷ []),
          ))
  ]
]

resume_load-IsLess :
    (platform : Platform) (o : Outcome (Option FullStorageSnapshotPayload)) (w : World)
    → IsLess Task.load_snapshot w.tasks (resume_load platform o w).tasks
unfolding resume_load store_snapshot add_log
resume_load-IsLess platform (resolved none) w = inl (omega arith)
resume_load-IsLess platform (resolved (some s)) w =
    inl (omega (arith, setup_ipc_subscriptions-loading platform _ _))
resume_load-IsLess platform (rejected e) w = inl (omega arith)

finish_load-loading :
    (platform : Platform) (id : String) (w : World)
    → total loading_weight (finish_load platform id w).tasks ≡ total loading_weight w.tasks
unfolding finish_load branch
finish_load-loading platform id w =
    let v = ping_all_profiles platform w in
    let pings = ping_all_profiles-loading platform w in
    elim (Bool-cases (v.store.app_settings.auto_connect && nonempty id)) [
      | inl auto ↦
          simp auto
            (omega (arith, pings, total-append loading_weight v.tasks (Task.auto_connect id ∷ [])))
      | inr manual ↦ simp manual pings
    ]

resume_subscribed-IsLess :
    (platform : Platform) (rest : List Listener) (id : String) (o : Outcome (Unit {0})) (w : World)
    → IsLess (Task.subscribed rest id) w.tasks (resume_subscribed platform rest id o w).tasks
unfolding resume_subscribed
resume_subscribed-IsLess platform [] id (resolved r) w =
    inl (omega (arith, finish_load-loading platform id w))
resume_subscribed-IsLess platform (l ∷ rest) id (resolved r) w = inl (
    omega (
      arith,
      register-tasks platform l loading_weight w,
      total-append loading_weight (register platform l w).tasks (Task.subscribed rest id ∷ []),
    ))
resume_subscribed-IsLess platform [] id (rejected e) w = inl (omega arith)
resume_subscribed-IsLess platform (l ∷ rest) id (rejected e) w = inl (omega arith)

fire_auto_connect-IsLess :
    (platform : Platform) (id : String) (w : World)
    → IsLess (Task.auto_connect id) w.tasks (fire_auto_connect platform id w).tasks
unfolding fire_auto_connect branch
fire_auto_connect-IsLess platform id w =
    let (same, more) = connect-Starts platform (some id) none w in
    elim (Bool-cases (state_eq w.store.connection_state ConnectionState.disconnected)) [
      | inl free ↦ simp free (inr (omega (arith, same), omega (arith, more)))
      | inr busy ↦ simp busy (inr (omega arith, omega arith))
    ]

-- A task that takes its reply leaves less to wait for.
pub resume-IsLess :
    (platform : Platform) (t : Task) (reply : Reply) (w : World)
    → accepts t reply ≡ true
    → IsLess t w.tasks (resume platform t reply w).tasks
unfolding resume
resume-IsLess platform Task.load_snapshot (Reply.snapshot o) w fits =
    resume_load-IsLess platform _ w
resume-IsLess platform (Task.subscribed rest id) (Reply.listening o) w fits =
    resume_subscribed-IsLess platform rest id _ w
resume-IsLess platform (Task.connect_otp p s otp) Reply.elapsed w fits =
    let (same, more) = resume_otp-Starts platform p s otp w in
    inr (omega (arith, same), omega (arith, more))
resume-IsLess platform (Task.connect_response params) (Reply.daemon o) w fits =
    IsLess-none (Task.connect_response params) _ _ refl (omega arith)
      (resume_connect-tasks platform _ w)
resume-IsLess platform Task.disconnect_response (Reply.daemon o) w fits =
    IsLess-none Task.disconnect_response _ _ refl (omega arith)
      (resume_disconnect-tasks platform _ w)
resume-IsLess platform (Task.retry_response was) (Reply.alive o) w fits =
    IsLess-none (Task.retry_response was) _ _ refl (omega arith)
      (resume_alive-tasks platform was _ w)
resume-IsLess platform Task.status_response (Reply.daemon o) w fits =
    IsLess-none Task.status_response _ _ refl (omega arith) (resume_status-tasks _ w)
resume-IsLess platform (Task.ping_response id) (Reply.round_trip o) w fits =
    IsLess-none (Task.ping_response id) _ _ refl (omega arith) (resume_ping-tasks id _ w)
resume-IsLess platform Task.mirror_response (Reply.alive o) w fits =
    IsLess-none Task.mirror_response _ _ refl (omega arith) (resume_mirror-tasks _ w)
resume-IsLess platform (Task.auto_connect id) Reply.elapsed w fits =
    fire_auto_connect-IsLess platform id w
resume-IsLess platform _ _ w fits = cc
