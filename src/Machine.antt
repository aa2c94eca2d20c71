-- ===== src/Machine.antt =====
-- The store as a machine: what may happen to it, and what it does then. `boot` is the end of the
-- module. Each promise settles at a moment, and with an outcome, that the environment chooses.
pub mod Invariant
pub mod Bounds
pub mod LogIds
pub mod Requests
pub mod Mirror
pub mod Settling
pub mod Frame
pub mod States
pub mod Loads
pub mod Registered
use vpnhub.Prelude.{
  ℕ, zero, suc, String, Bool, true, false, Option, none, some, List, [], ◌∷◌, if◌then◌else◌,
}
use vpnhub.Types.{
  ConnectionState, DaemonHealthStatus, VpnProfile, LogLevel, AppRule, IpDomainRule, KillSwitchMode,
}
use vpnhub.Bridge.{
  Outcome, resolved, rejected, Method, Channel, DaemonReply, ProfileSecretPayload,
  FullStorageSnapshotPayload,
}
use vpnhub.Bridge.Methods.{
  load_all_storage, connect_vpn, disconnect_vpn, get_daemon_status, ping_daemon, ping_host,
  subscribe,
}
use vpnhub.World.{
  Platform, Action, World, Task, Listener, NavigationTab, await, start, pass, ◌>>=◌, ◌>>◌,
}
use vpnhub.Store.Initial.{PartialAppSettings, SavedSettings, initial_world}
use vpnhub.Store.Settings.{PartialSecuritySettings}
use vpnhub.Store.Telemetry.{MetricsPayload}
use vpnhub.Store.Subscriptions.{StatusPayload}
use vpnhub.Store.Logs
use vpnhub.Store.Profiles
use vpnhub.Store.Rules
use vpnhub.Store.Settings
use vpnhub.Store.Connection
use vpnhub.Store.Telemetry
use vpnhub.Store.Subscriptions
use vpnhub.Store.Storage

-- The actions that the views and the heartbeat call.
pub data Call : Type 0 where
  load_storage : (force : Bool) → Call
  set_active_tab : NavigationTab → Call
  set_spotlight_open set_compact_widget set_log_auto_scroll : Bool → Call
  set_log_filter_level set_log_search_query : String → Call
  set_daemon_health : DaemonHealthStatus → Call
  set_mfa_prompt_profile : Option VpnProfile → Call
  update_app_settings : PartialAppSettings → Call
  connect : (profile_id override_password : Option String) → Call
  disconnect retry_daemon_ipc clear_logs tick_telemetry ping_all_profiles : Call
  select_profile toggle_favorite delete_profile : String → Call
  add_profile update_profile : VpnProfile → Option ProfileSecretPayload → Call
  set_kill_switch : KillSwitchMode → Call
  update_security_settings : PartialSecuritySettings → Call
  add_app_rule : AppRule → Call
  add_ip_rule : IpDomainRule → Call
  toggle_app_rule delete_app_rule toggle_ip_rule delete_ip_rule : String → Call
  add_log : LogLevel → (source message : String) → Call

-- What a promise that settles brings, as the shell gives it.
pub data Reply : Type 0 where
  snapshot : Outcome FullStorageSnapshotPayload → Reply
  daemon : Outcome (Option DaemonReply) → Reply
  alive : Outcome Bool → Reply
  round_trip : Outcome ℕ → Reply
  listening : Outcome (Unit {0}) → Reply
  -- A timer, or the cryptography of the browser.
  elapsed : Reply

pub data Event : Type 0 where
  call : Call → Event
  -- The pending task at this place settles.
  settle : (index : ℕ) → Reply → Event
  daemon_status : DaemonHealthStatus → Event
  vpn_status : Option StatusPayload → Event
  metrics : Option MetricsPayload → Event
  tray_toggle : Event

unfoldable pub perform : Platform → Call → Action
perform platform (Call.load_storage force) = Storage.load_storage platform force
perform platform (Call.set_active_tab tab) = Settings.set_active_tab tab
perform platform (Call.set_spotlight_open b) = Settings.set_spotlight_open b
perform platform (Call.set_compact_widget b) = Settings.set_compact_widget b
perform platform (Call.set_log_auto_scroll b) = Settings.set_log_auto_scroll b
perform platform (Call.set_log_filter_level level) = Settings.set_log_filter_level level
perform platform (Call.set_log_search_query query) = Settings.set_log_search_query query
perform platform (Call.set_daemon_health health) = Settings.set_daemon_health health
perform platform (Call.set_mfa_prompt_profile p) = Profiles.set_mfa_prompt_profile p
perform platform (Call.update_app_settings changes) = Settings.update_app_settings platform changes
perform platform (Call.connect id password) = Connection.connect platform id password
perform platform Call.disconnect = Connection.disconnect platform
perform platform Call.retry_daemon_ipc = Connection.retry_daemon_ipc platform
perform platform Call.clear_logs = Logs.clear_logs
perform platform Call.tick_telemetry = Telemetry.tick_telemetry platform
perform platform Call.ping_all_profiles = Telemetry.ping_all_profiles platform
perform platform (Call.select_profile id) = Profiles.select_profile platform id
perform platform (Call.toggle_favorite id) = Profiles.toggle_favorite platform id
perform platform (Call.delete_profile id) = Profiles.delete_profile platform id
perform platform (Call.add_profile p secret) = Profiles.add_profile platform p secret
perform platform (Call.update_profile p secret) = Profiles.update_profile platform p secret
perform platform (Call.set_kill_switch mode) = Settings.set_kill_switch platform mode
perform platform (Call.update_security_settings changes) =
    Settings.update_security_settings platform changes
perform platform (Call.add_app_rule r) = Rules.add_app_rule platform r
perform platform (Call.add_ip_rule r) = Rules.add_ip_rule platform r
perform platform (Call.toggle_app_rule id) = Rules.toggle_app_rule platform id
perform platform (Call.delete_app_rule id) = Rules.delete_app_rule platform id
perform platform (Call.toggle_ip_rule id) = Rules.toggle_ip_rule platform id
perform platform (Call.delete_ip_rule id) = Rules.delete_ip_rule platform id
perform platform (Call.add_log level source message) = Logs.add_log platform level source message

-- `setDaemonHealth(alive ? "connected" : "offline")`
unfoldable pub resume_mirror : Outcome Bool → Action
resume_mirror (resolved true) = Settings.set_daemon_health DaemonHealthStatus.connected
resume_mirror (resolved false) = Settings.set_daemon_health DaemonHealthStatus.offline
resume_mirror (rejected e) = pass

abbrev pub resume_alive : Platform → ConnectionState → Outcome Bool → Action
resume_alive platform was (resolved b) = Connection.resume_retry platform was b
resume_alive platform was (rejected e) = pass

-- The reply that a pending task waits for.
abbrev pub accepts : Task → Reply → Bool
accepts Task.load_snapshot (Reply.snapshot _) = true
accepts (Task.subscribed _ _) (Reply.listening _) = true
accepts (Task.connect_otp _ _ _) Reply.elapsed = true
accepts (Task.connect_response _) (Reply.daemon _) = true
accepts Task.disconnect_response (Reply.daemon _) = true
accepts Task.status_response (Reply.daemon _) = true
accepts (Task.retry_response _) (Reply.alive _) = true
accepts Task.mirror_response (Reply.alive _) = true
accepts (Task.ping_response _) (Reply.round_trip _) = true
accepts (Task.auto_connect _) Reply.elapsed = true
accepts _ _ = false

-- The rest of a function, once its promise has settled: the bridge method turns the shell's outcome
-- into its own, in a way that does not depend on the method's other arguments.
unfoldable pub resume : Platform → Task → Reply → Action
unfolding resume_mirror
resume platform Task.load_snapshot (Reply.snapshot o) =
    Storage.resume_load platform ((load_all_storage platform.tauri).reply o)
resume platform (Task.subscribed rest id) (Reply.listening o) =
    Storage.resume_subscribed platform rest id
      ((subscribe platform.tauri Channel.daemon_status).reply o)
resume platform (Task.connect_otp p settings live_otp) Reply.elapsed =
    Connection.resume_otp platform p settings live_otp
resume platform (Task.connect_response params) (Reply.daemon o) =
    Connection.resume_connect platform ((connect_vpn platform.tauri params).reply o)
resume platform Task.disconnect_response (Reply.daemon o) =
    Connection.resume_disconnect platform ((disconnect_vpn platform.tauri false).reply o)
resume platform (Task.retry_response was) (Reply.alive o) =
    resume_alive platform was ((ping_daemon platform.tauri).reply o)
resume platform Task.status_response (Reply.daemon o) =
    Subscriptions.resume_status ((get_daemon_status platform.tauri).reply o)
resume platform (Task.ping_response id) (Reply.round_trip o) =
    Telemetry.resume_ping id ((ping_host platform.tauri "" 0).reply o)
resume platform Task.mirror_response (Reply.alive o) =
    resume_mirror ((ping_daemon platform.tauri).reply o)
resume platform (Task.auto_connect id) Reply.elapsed = Storage.fire_auto_connect platform id
resume platform _ _ = pass

abbrev pub task_at : ℕ → List Task → Option Task
task_at n [] = none
task_at zero (t ∷ ts) = some t
task_at (suc n) (t ∷ ts) = task_at n ts

abbrev pub remove_at : ℕ → List Task → List Task
remove_at n [] = []
remove_at zero (t ∷ ts) = ts
remove_at (suc n) (t ∷ ts) = t ∷ remove_at n ts

abbrev settle_task : Platform → ℕ → Reply → Option Task → Action
settle_task platform index reply none w = w
settle_task platform index reply (some t) w =
    if accepts t reply
    then resume platform t reply (record w { tasks = remove_at index w.tasks })
    else w

abbrev pub run_callback : Option Action → Action
run_callback none w = w
run_callback (some a) w = a w

-- An event of a channel runs the callbacks that are registered for it, in the order of registration.
abbrev pub deliver : (Listener → Option Action) → List Listener → Action
deliver callback [] w = w
deliver callback (l ∷ ls) w = deliver callback ls (run_callback (callback l) w)

abbrev pub on_status_channel : Platform → DaemonHealthStatus → Listener → Option Action
on_status_channel platform status Listener.health_mirror = some (Settings.set_daemon_health status)
on_status_channel platform status Listener.daemon_status =
    some (Subscriptions.on_daemon_status platform status)
on_status_channel platform status _ = none

abbrev pub on_vpn_channel : Platform → Option StatusPayload → Listener → Option Action
on_vpn_channel platform payload Listener.vpn_status =
    some (Subscriptions.on_vpn_status platform payload)
on_vpn_channel platform payload _ = none

abbrev pub on_metrics_channel : Platform → Option MetricsPayload → Listener → Option Action
on_metrics_channel platform payload Listener.metrics =
    some (Telemetry.on_metrics_update platform payload)
on_metrics_channel platform payload _ = none

abbrev pub on_tray_channel : Platform → Listener → Option Action
on_tray_channel platform Listener.tray_toggle = some (Subscriptions.on_tray_toggle platform)
on_tray_channel platform _ = none

unfoldable pub step : Platform → Event → Action
step platform (Event.call c) w = perform platform c w
step platform (Event.settle index reply) w =
    settle_task platform index reply (task_at index w.tasks) w
step platform (Event.daemon_status status) w =
    deliver (on_status_channel platform status) w.listeners w
step platform (Event.vpn_status payload) w = deliver (on_vpn_channel platform payload) w.listeners w
step platform (Event.metrics payload) w =
    deliver (on_metrics_channel platform payload) w.listeners w
step platform Event.tray_toggle w = deliver (on_tray_channel platform) w.listeners w

-- The last lines of the module: the storage is loaded, the mirror of the daemon's health is
-- registered, and the daemon is probed. (The heartbeat is `tick_telemetry`, at any time.)
unfoldable pub boot : Platform → SavedSettings → World
unfolding initial_world
boot platform saved =
    let loading = Storage.load_storage platform false (initial_world platform saved) in
    if platform.tauri
    then (Storage.register platform Listener.health_mirror
          >> await (ping_daemon platform.tauri) Task.mirror_response)
        loading
    else loading

unfoldable pub run : Platform → World → List Event → World
run platform w [] = w
run platform w (e ∷ es) = run platform (step platform e w) es
