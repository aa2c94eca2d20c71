-- ===== src/Machine/States/Steps.antt =====
-- A call and a promise that settles make at most one move, which their cause allows.
use vpnhub.Prelude.{
  ◌≡◌, inl, inr, refl, true, false, Bool, Bool-cases, Option, none, some, List, [], ◌∷◌, ℕ, String,
  ◌∙◌, ◌||◌,
}
use vpnhub.Types.{ConnectionState}
use vpnhub.Types.Equality.{state_eq}
use vpnhub.Bridge.{Outcome, resolved, rejected, DaemonReply, FullStorageSnapshotPayload}
use vpnhub.Bridge.Methods.{get_daemon_status}
use vpnhub.World.{Platform, World, Task, Listener}
use vpnhub.Store.Logs.{add_log}
use vpnhub.Store.Settings.{set_daemon_health}
use vpnhub.Store.Connection.{retry_daemon_ipc}
use vpnhub.Store.Storage.{
  load_storage, register, setup_ipc_subscriptions, store_snapshot, resume_load, finish_load,
  resume_subscribed,
}
use vpnhub.Machine.{
  Call, Reply, Event, perform, resume_mirror, resume_alive, accepts, resume, remove_at, settle_task,
}
use vpnhub.Machine.Frame.Calls.{perform-Frame}
use vpnhub.Machine.States.{is_told, Cause, cause, cause_of, told, may_move, MayMove}
use vpnhub.Machine.States.Actions.{
  state, invoke-state, branch-state, connect-state, disconnect-state, resume_otp-state,
  resume_connect-state, resume_disconnect-state, resume_retry-state,
}
use vpnhub.Machine.States.Listeners.{
  fire_auto_connect-state, ping_all_profiles-state, resume_ping-state, resume_status-state,
}

register-state :
    (platform : Platform) (l : Listener) (w : World) → state (register platform l w) ≡ state w
unfolding register
register-state platform l w = branch-state _ _ _ _ _ (invoke-state _ w) (invoke-state _ w)

setup_ipc_subscriptions-state :
    (platform : Platform) (id : String) (w : World)
    → state (setup_ipc_subscriptions platform id w) ≡ state w
unfolding setup_ipc_subscriptions
setup_ipc_subscriptions-state platform id w =
    branch-state _ _ _ w _ refl (register-state platform Listener.daemon_status _)

resume_load-state :
    (platform : Platform) (o : Outcome (Option FullStorageSnapshotPayload)) (w : World)
    → state (resume_load platform o w) ≡ state w
unfolding resume_load store_snapshot add_log
resume_load-state platform (resolved none) w = refl
resume_load-state platform (resolved (some s)) w = setup_ipc_subscriptions-state platform _ _
resume_load-state platform (rejected e) w = refl

finish_load-state :
    (platform : Platform) (id : String) (w : World) → state (finish_load platform id w) ≡ state w
unfolding finish_load
finish_load-state platform id w =
    branch-state _ _ _ _ _ refl refl ∙ ping_all_profiles-state platform w

resume_subscribed-state :
    (platform : Platform) (rest : List Listener) (id : String) (o : Outcome (Unit {0})) (w : World)
    → state (resume_subscribed platform rest id o w) ≡ state w
unfolding resume_subscribed
resume_subscribed-state platform [] id (resolved r) w = finish_load-state platform id w
resume_subscribed-state platform (l ∷ rest) id (resolved r) w = register-state platform l w
resume_subscribed-state platform [] id (rejected e) w = refl
resume_subscribed-state platform (l ∷ rest) id (rejected e) w = refl

load_storage-state :
    (platform : Platform) (force : Bool) (w : World)
    → state (load_storage platform force w) ≡ state w
unfolding load_storage
load_storage-state platform force w = branch-state _ _ _ w _ refl (invoke-state _ _)

retry_daemon_ipc-state :
    (platform : Platform) (w : World) → state (retry_daemon_ipc platform w) ≡ state w
unfolding retry_daemon_ipc
retry_daemon_ipc-state platform w = invoke-state _ w

pub perform-MayMove :
    (platform : Platform) (c : Call) (w : World)
    → MayMove (cause w (Event.call c)) (state w) (state (perform platform c w))
unfolding cause perform may_move
perform-MayMove platform (Call.connect id password) w =
    elim (connect-state platform id password w) [
      | inl same ↦ inl same
      | inr (free, moved) ↦ inr (rw (free, moved) refl)
    ]
perform-MayMove platform Call.disconnect w = disconnect-state platform w
perform-MayMove platform (Call.load_storage force) w = inl (load_storage-state platform force w)
perform-MayMove platform Call.retry_daemon_ipc w = inl (retry_daemon_ipc-state platform w)
perform-MayMove platform Call.ping_all_profiles w = inl (ping_all_profiles-state platform w)
perform-MayMove platform c w = inl ((perform-Frame platform c w refl).0)

or-true : (b : Bool) → b || true ≡ true
or-true true = refl
or-true false = refl

resume_mirror-state : (o : Outcome Bool) (w : World) → state (resume_mirror o w) ≡ state w
unfolding resume_mirror set_daemon_health
resume_mirror-state (resolved true) w = refl
resume_mirror-state (resolved false) w = refl
resume_mirror-state (rejected e) w = refl

resume_alive-MayMove :
    (platform : Platform) (was : ConnectionState) (o : Outcome Bool) (w : World)
    → MayMove (Cause.probe_answered was) (state w) (state (resume_alive platform was o w))
resume_alive-MayMove platform was (resolved b) w = resume_retry-state platform was b w
resume_alive-MayMove platform was (rejected e) w = inl refl

is_told-disconnected :
    (t : ConnectionState)
    → state_eq ConnectionState.disconnected t ≡ true
    → state_eq t ConnectionState.disconnected ≡ true
is_told-disconnected ConnectionState.disconnected h = refl
is_told-disconnected _ h = cc

-- Outside the shell the answer to the question for the state is a fixed one.
status_reply-may_move :
    (tauri : Bool) (o : Outcome (Option DaemonReply)) (r : DaemonReply) (s t : ConnectionState)
    → (get_daemon_status tauri).reply o ≡ resolved (some r)
    → is_told r.state t ≡ true
    → may_move (Cause.status_answered (told (Reply.daemon o))) s t ≡ true
unfolding may_move
status_reply-may_move true o r s t e h = rw (e, h) refl
status_reply-may_move false o r s t e h =
    let same : r.state ≡ some ConnectionState.disconnected = cc in
    let down = is_told-disconnected t (rw same at h) in rw down (or-true _)

resume-MayMove :
    (platform : Platform) (t : Task) (reply : Reply) (w : World)
    → MayMove (cause_of (some t) reply) (state w) (state (resume platform t reply w))
unfolding resume
resume-MayMove platform Task.load_snapshot (Reply.snapshot o) w =
    inl (resume_load-state platform _ w)
resume-MayMove platform (Task.subscribed rest id) (Reply.listening o) w =
    inl (resume_subscribed-state platform rest id _ w)
resume-MayMove platform (Task.connect_otp p s otp) Reply.elapsed w =
    inl (resume_otp-state platform p s otp w)
resume-MayMove platform (Task.connect_response params) (Reply.daemon o) w =
    resume_connect-state platform _ w
resume-MayMove platform Task.disconnect_response (Reply.daemon o) w =
    resume_disconnect-state platform _ w
resume-MayMove platform (Task.retry_response was) (Reply.alive o) w =
    resume_alive-MayMove platform was _ w
resume-MayMove platform Task.status_response (Reply.daemon o) w =
    elim (resume_status-state ((get_daemon_status platform.tauri).reply o) w) [
      | inl same ↦ inl same
      | inr (r, e, moved) ↦ inr (status_reply-may_move platform.tauri o r _ _ e moved)
    ]
resume-MayMove platform (Task.ping_response id) (Reply.round_trip o) w =
    inl (resume_ping-state id _ w)
resume-MayMove platform Task.mirror_response (Reply.alive o) w = inl (resume_mirror-state _ w)
resume-MayMove platform (Task.auto_connect id) Reply.elapsed w =
    fire_auto_connect-state platform id w
resume-MayMove platform _ _ w = inl refl

pub settle_task-MayMove :
    (platform : Platform) (index : ℕ) (reply : Reply) (t : Option Task) (w : World)
    → MayMove (cause_of t reply) (state w) (state (settle_task platform index reply t w))
settle_task-MayMove platform index reply none w = inl refl
settle_task-MayMove platform index reply (some t) w = elim (Bool-cases (accepts t reply)) [
  | inl fits ↦
      simp fits (resume-MayMove platform t reply (record w { tasks = remove_at index w.tasks }))
  | inr misfit ↦ simp misfit (inl refl)
]
