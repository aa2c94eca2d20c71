-- ===== src/Machine/Registered/Runs.antt =====
-- No listener is registered twice, whatever happens.
use vpnhub.Prelude.{
  ℕ, ◌+◌, ◌≤◌, ◌≡◌, refl, true, Bool, Bool-cases, inl, inr, Option, none, some, List, [], ◌∷◌,
  arith, not, ◌&&◌, ◌||◌,
}
use vpnhub.Bridge.Methods.{load_all_storage}
use vpnhub.Bridge.{Command}
use vpnhub.World.{Platform, World, Task, Listener, branch, defer, invoke_request}
use vpnhub.Store.Initial.{SavedSettings, initial_world}
use vpnhub.Store.Storage.{load_storage, register}
use vpnhub.Machine.{
  Call, Reply, Event, perform, accepts, resume, task_at, remove_at, settle_task, step, boot, run,
}
use vpnhub.Machine.Settling.Weights.{total-append, total-remove_at}
use vpnhub.Machine.Frame.Calls.{perform-Frame}
use vpnhub.Machine.Loads.Still
use vpnhub.Machine.Loads.Channels.{
  status_channel-Still, vpn_channel-Still, metrics_channel-Still, tray_channel-Still,
}
use vpnhub.Machine.Registered.{count, awaits, placed, is_own, IsOnce}
use vpnhub.Machine.Registered.Once.{
  lower-IsOnce, Still-IsOnce, resume_load-IsOnce, resume_subscribed-IsOnce,
}

load_storage-IsOnce :
    (platform : Platform) (force : Bool) (w : World)
    → IsOnce w
    → IsOnce (load_storage platform force w)
unfolding load_storage branch
load_storage-IsOnce platform force w o =
    elim (Bool-cases (not force && (w.store.is_storage_loaded || w.is_storage_loading))) [
      | inl skip ↦ simp skip o
      | inr go ↦ simp go (awaited (load_all_storage platform.tauri).request)
    ]
  where
    awaited :
        (c : Option Command)
        → IsOnce
            (defer Task.load_snapshot (invoke_request c (record w { is_storage_loading = true })))
    awaited none =
        lower-IsOnce w _
          (λ l.
            let a = total-append (awaits l) w.tasks (Task.load_snapshot ∷ []) in omega (arith, a))
          refl o
    awaited (some c) =
        lower-IsOnce w _
          (λ l.
            let a = total-append (awaits l) w.tasks (Task.load_snapshot ∷ []) in omega (arith, a))
          refl o

perform-IsOnce :
    (platform : Platform) (c : Call) (w : World) → IsOnce w → IsOnce (perform platform c w)
unfolding perform
perform-IsOnce platform (Call.load_storage force) w o = load_storage-IsOnce platform force w o
perform-IsOnce platform (Call.connect id password) w o =
    Still-IsOnce w _ (Still.connect-Still platform id password w) o
perform-IsOnce platform Call.disconnect w o = Still-IsOnce w _ (Still.disconnect-Still platform w) o
perform-IsOnce platform Call.retry_daemon_ipc w o =
    Still-IsOnce w _ (Still.retry_daemon_ipc-Still platform w) o
perform-IsOnce platform Call.ping_all_profiles w o =
    Still-IsOnce w _ (Still.ping_all_profiles-Still platform w) o
perform-IsOnce platform c w o =
    Still-IsOnce w (perform platform c w) ((perform-Frame platform c w refl).1) o

-- `w` is `v` without the task that settles.
resume-IsOnce :
    (platform : Platform) (t : Task) (reply : Reply) (v w : World)
    → ((l : Listener) → placed l v ≡ awaits l t + placed l w)
    → w.ipc_subscribed ≡ v.ipc_subscribed
    → accepts t reply ≡ true
    → IsOnce v
    → IsOnce (resume platform t reply w)
unfolding resume
resume-IsOnce platform (Task.subscribed rest id) (Reply.listening o) v w e same h i =
    resume_subscribed-IsOnce platform rest id _ v w e same i
resume-IsOnce platform Task.load_snapshot (Reply.snapshot o) v w e same h i =
    resume_load-IsOnce platform _ w (lower-IsOnce v w (λ l. omega (arith, e l)) same i)
resume-IsOnce platform (Task.connect_otp p s otp) Reply.elapsed v w e same h i =
    Still-IsOnce w _ (Still.resume_otp-Still platform p s otp w)
      (lower-IsOnce v w (λ l. omega (arith, e l)) same i)
resume-IsOnce platform (Task.connect_response params) (Reply.daemon o) v w e same h i =
    Still-IsOnce w _ (Still.resume_connect-Still platform _ w)
      (lower-IsOnce v w (λ l. omega (arith, e l)) same i)
resume-IsOnce platform Task.disconnect_response (Reply.daemon o) v w e same h i =
    Still-IsOnce w _ (Still.resume_disconnect-Still platform _ w)
      (lower-IsOnce v w (λ l. omega (arith, e l)) same i)
resume-IsOnce platform (Task.retry_response was) (Reply.alive o) v w e same h i =
    Still-IsOnce w _ (Still.resume_alive-Still platform was _ w)
      (lower-IsOnce v w (λ l. omega (arith, e l)) same i)
resume-IsOnce platform Task.status_response (Reply.daemon o) v w e same h i =
    Still-IsOnce w _ (Still.resume_status-Still _ w)
      (lower-IsOnce v w (λ l. omega (arith, e l)) same i)
resume-IsOnce platform (Task.ping_response id) (Reply.round_trip o) v w e same h i =
    Still-IsOnce w _ (Still.resume_ping-Still id _ w)
      (lower-IsOnce v w (λ l. omega (arith, e l)) same i)
resume-IsOnce platform Task.mirror_response (Reply.alive o) v w e same h i =
    Still-IsOnce w _ (Still.resume_mirror-Still _ w)
      (lower-IsOnce v w (λ l. omega (arith, e l)) same i)
resume-IsOnce platform (Task.auto_connect id) Reply.elapsed v w e same h i =
    Still-IsOnce w _ (Still.fire_auto_connect-Still platform id w)
      (lower-IsOnce v w (λ l. omega (arith, e l)) same i)
resume-IsOnce platform _ _ v w e same h i = cc

settle_task-IsOnce :
    (platform : Platform) (index : ℕ) (reply : Reply) (t : Option Task) (w : World)
    → task_at index w.tasks ≡ t
    → IsOnce w
    → IsOnce (settle_task platform index reply t w)
settle_task-IsOnce platform index reply none w at o = o
settle_task-IsOnce platform index reply (some t) w at o = elim (Bool-cases (accepts t reply)) [
  | inl fits ↦ simp fits (
      resume-IsOnce platform t reply w (record w { tasks = remove_at index w.tasks })
        (λ l. let a = total-remove_at (awaits l) index w.tasks t at in omega (arith, a)) refl fits
        o)
  | inr misfit ↦ simp misfit o
]

pub step-IsOnce :
    (platform : Platform) (e : Event) (w : World) → IsOnce w → IsOnce (step platform e w)
unfolding step
step-IsOnce platform (Event.call c) w o = perform-IsOnce platform c w o
step-IsOnce platform (Event.settle index reply) w o =
    settle_task-IsOnce platform index reply (task_at index w.tasks) w refl o
step-IsOnce platform (Event.daemon_status status) w o =
    Still-IsOnce w _ (status_channel-Still platform status w) o
step-IsOnce platform (Event.vpn_status payload) w o =
    Still-IsOnce w _ (vpn_channel-Still platform payload w) o
step-IsOnce platform (Event.metrics payload) w o =
    Still-IsOnce w _ (metrics_channel-Still platform payload w) o
step-IsOnce platform Event.tray_toggle w o = Still-IsOnce w _ (tray_channel-Still platform w) o

pub run-IsOnce :
    (platform : Platform) (es : List Event) (w : World) → IsOnce w → IsOnce (run platform w es)
unfolding run
run-IsOnce platform [] w o = o
run-IsOnce platform (e ∷ es) w o =
    run-IsOnce platform es (step platform e w) (step-IsOnce platform e w o)

-- The mirror of the daemon's health stands alone when the module starts.
mirror_once : (l : Listener) → count l (Listener.health_mirror ∷ []) ≤ 1
mirror_once Listener.health_mirror = omega arith
mirror_once Listener.daemon_status = omega arith
mirror_once Listener.vpn_status = omega arith
mirror_once Listener.metrics = omega arith
mirror_once Listener.tray_toggle = omega arith

mirror_own : (l : Listener) → is_own l ≡ true → count l (Listener.health_mirror ∷ []) ≡ 0
mirror_own Listener.health_mirror own = cc
mirror_own Listener.daemon_status own = refl
mirror_own Listener.vpn_status own = refl
mirror_own Listener.metrics own = refl
mirror_own Listener.tray_toggle own = refl

pub boot-IsOnce : (platform : Platform) (saved : SavedSettings) → IsOnce (boot platform saved)
unfolding boot load_storage register initial_world branch
boot-IsOnce platform saved = elim (Bool-cases platform.tauri) [
  | inl shell ↦ simp shell (record {
    once = λ l. let a = mirror_once l in omega (arith, a);
    later = λ fresh l own. let a = mirror_own l own in omega (arith, a);
  })
  | inr browser ↦
      simp browser (record { once = λ l. omega arith; later = λ fresh l own. omega arith })
]

-- After any events, however often the storage is loaded and in whatever order the promises settle, each
-- listener is registered at most once: no message of a channel is handled twice.
pub run-count :
    (platform : Platform) (saved : SavedSettings) (es : List Event) (l : Listener)
    → count l (run platform (boot platform saved) es).listeners ≤ 1
run-count platform saved es l =
    let o = run-IsOnce platform es _ (boot-IsOnce platform saved) in
    let a = o.once l in omega (arith, a)
