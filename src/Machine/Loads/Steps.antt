-- ===== src/Machine/Loads/Steps.antt =====
-- Each event keeps it that the end of a loading is pending.
use vpnhub.Prelude.{
  ℕ, ◌≡◌, ◌<◌, ◌∙◌, sym, refl, true, Bool, Bool-cases, inl, inr, Option, none, some, List, [], ◌∷◌,
  ◌++◌, arith, String, ◌&&◌, not, ◌||◌,
}
use vpnhub.Bridge.{Outcome, resolved, rejected, FullStorageSnapshotPayload}
use vpnhub.World.{Platform, World, Task, Listener, branch}
use vpnhub.Store.Initial.{SavedSettings, initial_world}
use vpnhub.Store.Storage.{
  load_storage, register, setup_ipc_subscriptions, store_snapshot, resume_load, finish_load,
  resume_subscribed,
}
use vpnhub.Machine.{
  Call, Reply, Event, perform, accepts, resume, task_at, remove_at, settle_task, step, boot, run,
}
use vpnhub.Machine.Settling.{total, loading_weight}
use vpnhub.Machine.Settling.Weights.{total-append, total-remove_at}
use vpnhub.Machine.Frame.{IsLight}
use vpnhub.Machine.Frame.Calls.{perform-Frame}
use vpnhub.Machine.Loads.{IsAwaited}
use vpnhub.Machine.Loads.Still
use vpnhub.Machine.Loads.Channels.{
  status_channel-Still, vpn_channel-Still, metrics_channel-Still, tray_channel-Still,
}

Still-IsAwaited :
    {before after : Bool} {ls ls' : List Listener} {b b' : Bool} {m n : (Task → ℕ) → ℕ}
    → (after ≡ before) × (ls' ≡ ls) × (b' ≡ b) × ((g : Task → ℕ) → IsLight g → n g ≡ m g)
    → (before ≡ true → 0 < m loading_weight)
    → after ≡ true
    → 0 < n loading_weight
Still-IsAwaited (flag, _, _, weights) awaited loading =
    let pending = awaited (sym flag ∙ loading) in
    let weight = weights loading_weight (λ t light. light) in omega (arith, pending, weight)

append-pending :
    (ts : List Task) (t : Task) → 0 < loading_weight t → 0 < total loading_weight (ts ++ t ∷ [])
append-pending ts t h = omega (arith, h, total-append loading_weight ts (t ∷ []))

load_storage-IsAwaited :
    (platform : Platform) (force : Bool) (w : World)
    → IsAwaited w
    → IsAwaited (load_storage platform force w)
unfolding load_storage branch
load_storage-IsAwaited platform force w awaited =
    elim (Bool-cases (not force && (w.store.is_storage_loaded || w.is_storage_loading))) [
      | inl skip ↦ simp skip awaited
      | inr go ↦ simp go (λ loading. append-pending _ Task.load_snapshot (omega arith))
    ]

setup_ipc_subscriptions-IsAwaited :
    (platform : Platform) (id : String) (w : World)
    → IsAwaited (setup_ipc_subscriptions platform id w)
unfolding setup_ipc_subscriptions register branch
setup_ipc_subscriptions-IsAwaited platform id w loading = elim (Bool-cases w.ipc_subscribed) [
  | inl done ↦ simp done (append-pending w.tasks (Task.subscribed [] id) (omega arith))
  | inr fresh ↦ simp fresh (
      append-pending _
        (Task.subscribed (Listener.vpn_status ∷ Listener.metrics ∷ Listener.tray_toggle ∷ []) id)
        (omega arith))
]

resume_load-IsAwaited :
    (platform : Platform) (o : Outcome (Option FullStorageSnapshotPayload)) (w : World)
    → IsAwaited (resume_load platform o w)
unfolding resume_load store_snapshot
resume_load-IsAwaited platform (resolved none) w loading = cc
resume_load-IsAwaited platform (resolved (some s)) w loading =
    setup_ipc_subscriptions-IsAwaited platform _ _ loading
resume_load-IsAwaited platform (rejected e) w loading = cc

resume_subscribed-IsAwaited :
    (platform : Platform) (rest : List Listener) (id : String) (o : Outcome (Unit {0})) (w : World)
    → IsAwaited (resume_subscribed platform rest id o w)
unfolding resume_subscribed finish_load
resume_subscribed-IsAwaited platform [] id (resolved r) w loading = cc
resume_subscribed-IsAwaited platform (l ∷ rest) id (resolved r) w loading =
    append-pending (register platform l w).tasks (Task.subscribed rest id) (omega arith)
resume_subscribed-IsAwaited platform [] id (rejected e) w loading = cc
resume_subscribed-IsAwaited platform (l ∷ rest) id (rejected e) w loading = cc

-- A pending task is taken out, and runs.
resume-IsAwaited :
    (platform : Platform) (t : Task) (reply : Reply) (w : World)
    → (loading_weight t ≡ 0 → IsAwaited w)
    → accepts t reply ≡ true
    → IsAwaited (resume platform t reply w)
unfolding resume
resume-IsAwaited platform Task.load_snapshot (Reply.snapshot o) w a h =
    resume_load-IsAwaited platform _ w
resume-IsAwaited platform (Task.subscribed rest id) (Reply.listening o) w a h =
    resume_subscribed-IsAwaited platform rest id _ w
resume-IsAwaited platform (Task.connect_otp p s otp) Reply.elapsed w a h =
    Still-IsAwaited (Still.resume_otp-Still platform p s otp w) (a refl)
resume-IsAwaited platform (Task.connect_response params) (Reply.daemon o) w a h =
    Still-IsAwaited (Still.resume_connect-Still platform _ w) (a refl)
resume-IsAwaited platform Task.disconnect_response (Reply.daemon o) w a h =
    Still-IsAwaited (Still.resume_disconnect-Still platform _ w) (a refl)
resume-IsAwaited platform (Task.retry_response was) (Reply.alive o) w a h =
    Still-IsAwaited (Still.resume_alive-Still platform was _ w) (a refl)
resume-IsAwaited platform Task.status_response (Reply.daemon o) w a h =
    Still-IsAwaited (Still.resume_status-Still _ w) (a refl)
resume-IsAwaited platform (Task.ping_response id) (Reply.round_trip o) w a h =
    Still-IsAwaited (Still.resume_ping-Still id _ w) (a refl)
resume-IsAwaited platform Task.mirror_response (Reply.alive o) w a h =
    Still-IsAwaited (Still.resume_mirror-Still _ w) (a refl)
resume-IsAwaited platform (Task.auto_connect id) Reply.elapsed w a h =
    Still-IsAwaited (Still.fire_auto_connect-Still platform id w) (a refl)
resume-IsAwaited platform _ _ w a h = cc

settle_task-IsAwaited :
    (platform : Platform) (index : ℕ) (reply : Reply) (t : Option Task) (w : World)
    → task_at index w.tasks ≡ t
    → IsAwaited w
    → IsAwaited (settle_task platform index reply t w)
settle_task-IsAwaited platform index reply none w at awaited = awaited
settle_task-IsAwaited platform index reply (some t) w at awaited =
    elim (Bool-cases (accepts t reply)) [
      | inl fits ↦ simp fits (
          resume-IsAwaited platform t reply (record w { tasks = remove_at index w.tasks })
            (λ light loading.
              omega
                (arith, light, awaited loading, total-remove_at loading_weight index w.tasks t at))
            fits)
      | inr misfit ↦ simp misfit awaited
    ]

perform-IsAwaited :
    (platform : Platform) (c : Call) (w : World) → IsAwaited w → IsAwaited (perform platform c w)
unfolding perform
perform-IsAwaited platform (Call.load_storage force) w a = load_storage-IsAwaited platform force w a
perform-IsAwaited platform (Call.connect id password) w a =
    Still-IsAwaited (Still.connect-Still platform id password w) a
perform-IsAwaited platform Call.disconnect w a =
    Still-IsAwaited (Still.disconnect-Still platform w) a
perform-IsAwaited platform Call.retry_daemon_ipc w a =
    Still-IsAwaited (Still.retry_daemon_ipc-Still platform w) a
perform-IsAwaited platform Call.ping_all_profiles w a =
    Still-IsAwaited (Still.ping_all_profiles-Still platform w) a
perform-IsAwaited platform c w a = Still-IsAwaited ((perform-Frame platform c w refl).1) a

pub step-IsAwaited :
    (platform : Platform) (e : Event) (w : World) → IsAwaited w → IsAwaited (step platform e w)
unfolding step
step-IsAwaited platform (Event.call c) w a = perform-IsAwaited platform c w a
step-IsAwaited platform (Event.settle index reply) w a =
    settle_task-IsAwaited platform index reply (task_at index w.tasks) w refl a
step-IsAwaited platform (Event.daemon_status status) w a =
    Still-IsAwaited (status_channel-Still platform status w) a
step-IsAwaited platform (Event.vpn_status payload) w a =
    Still-IsAwaited (vpn_channel-Still platform payload w) a
step-IsAwaited platform (Event.metrics payload) w a =
    Still-IsAwaited (metrics_channel-Still platform payload w) a
step-IsAwaited platform Event.tray_toggle w a = Still-IsAwaited (tray_channel-Still platform w) a

pub run-IsAwaited :
    (platform : Platform) (es : List Event) (w : World)
    → IsAwaited w
    → IsAwaited (run platform w es)
unfolding run
run-IsAwaited platform [] w a = a
run-IsAwaited platform (e ∷ es) w a =
    run-IsAwaited platform es (step platform e w) (step-IsAwaited platform e w a)

pub boot-IsAwaited : (platform : Platform) (saved : SavedSettings) → IsAwaited (boot platform saved)
unfolding boot load_storage register initial_world branch
boot-IsAwaited platform saved = elim (Bool-cases platform.tauri) [
  | inl shell ↦ simp shell (λ loading. omega arith)
  | inr browser ↦ simp browser (λ loading. omega arith)
]
