-- ===== src/Machine/Invariant/Events.antt =====
-- An invariant that holds when the module is loaded holds after any events.
use vpnhub.Prelude.{ℕ, Bool, true, false, Option, none, some, List, [], ◌∷◌, refl, if◌then◌else◌}
use vpnhub.Types.{ConnectionState, DaemonHealthStatus}
use vpnhub.Bridge.{Outcome, resolved, rejected}
use vpnhub.Bridge.Methods.{ping_daemon}
use vpnhub.World.{Platform, Action, World, Task, Listener, await, ◌>>◌}
use vpnhub.Store.Telemetry.{MetricsPayload}
use vpnhub.Store.Subscriptions.{StatusPayload}
use vpnhub.Store.Storage
use vpnhub.Store.Initial.{SavedSettings, initial_world}
use vpnhub.Store.Settings
use vpnhub.Store.Profiles
use vpnhub.Machine.{
  Call, Reply, Event, perform, resume_mirror, resume_alive, resume, task_at, settle_task,
  run_callback, deliver, on_status_channel, on_vpn_channel, on_metrics_channel, on_tray_channel,
  step, boot, run,
}
use vpnhub.Machine.Invariant.{IsInvariant}
use vpnhub.Machine.Invariant.Actions
use vpnhub.Machine.Invariant.Connecting
use vpnhub.Machine.Invariant.Telemetry
use vpnhub.Machine.Invariant.Listening
use vpnhub.Machine.Invariant.Loading

module _ (platform : Platform) {P : World → Type 0} (I : IsInvariant platform P) where
  keeps-perform : {w : World} (c : Call) → P w → P (perform platform c w)
  unfolding perform Settings.set_active_tab Settings.set_spotlight_open Settings.set_compact_widget
      Settings.set_log_auto_scroll Settings.set_log_filter_level Settings.set_log_search_query
      Settings.set_daemon_health Profiles.set_mfa_prompt_profile
  keeps-perform (Call.load_storage force) p = Loading.keeps-load_storage platform I force p
  keeps-perform (Call.set_active_tab tab) p = I.quiet p refl refl
  keeps-perform (Call.set_spotlight_open b) p = I.quiet p refl refl
  keeps-perform (Call.set_compact_widget b) p = I.quiet p refl refl
  keeps-perform (Call.set_log_auto_scroll b) p = I.quiet p refl refl
  keeps-perform (Call.set_log_filter_level level) p = I.quiet p refl refl
  keeps-perform (Call.set_log_search_query query) p = I.quiet p refl refl
  keeps-perform (Call.set_daemon_health health) p = I.quiet p refl refl
  keeps-perform (Call.set_mfa_prompt_profile profile) p = I.quiet p refl refl
  keeps-perform (Call.update_app_settings changes) p =
      Actions.keeps-update_app_settings platform I changes p
  keeps-perform (Call.connect id password) p = Connecting.keeps-connect platform I id password p
  keeps-perform Call.disconnect p = Connecting.keeps-disconnect platform I p
  keeps-perform Call.retry_daemon_ipc p = Connecting.keeps-retry_daemon_ipc platform I p
  keeps-perform Call.clear_logs p = I.clear p
  keeps-perform Call.tick_telemetry p = Telemetry.keeps-tick_telemetry platform I p
  keeps-perform Call.ping_all_profiles p = Telemetry.keeps-ping_all_profiles platform I p
  keeps-perform (Call.select_profile id) p = Actions.keeps-select_profile platform I id p
  keeps-perform (Call.toggle_favorite id) p = Actions.keeps-toggle_favorite platform I id p
  keeps-perform (Call.delete_profile id) p = Actions.keeps-delete_profile platform I id p
  keeps-perform (Call.add_profile profile secret) p =
      Actions.keeps-add_profile platform I profile secret p
  keeps-perform (Call.update_profile profile secret) p =
      Actions.keeps-update_profile platform I profile secret p
  keeps-perform (Call.set_kill_switch mode) p = Actions.keeps-set_kill_switch platform I mode p
  keeps-perform (Call.update_security_settings changes) p =
      Actions.keeps-update_security_settings platform I changes p
  keeps-perform (Call.add_app_rule r) p = Actions.keeps-add_app_rule platform I r p
  keeps-perform (Call.add_ip_rule r) p = Actions.keeps-add_ip_rule platform I r p
  keeps-perform (Call.toggle_app_rule id) p = Actions.keeps-toggle_app_rule platform I id p
  keeps-perform (Call.delete_app_rule id) p = Actions.keeps-delete_app_rule platform I id p
  keeps-perform (Call.toggle_ip_rule id) p = Actions.keeps-toggle_ip_rule platform I id p
  keeps-perform (Call.delete_ip_rule id) p = Actions.keeps-delete_ip_rule platform I id p
  keeps-perform (Call.add_log level source message) p = I.log level source message p

  keeps-resume_mirror : {w : World} (o : Outcome Bool) → P w → P (resume_mirror o w)
  unfolding resume_mirror Settings.set_daemon_health
  keeps-resume_mirror (resolved true) p = I.quiet p refl refl
  keeps-resume_mirror (resolved false) p = I.quiet p refl refl
  keeps-resume_mirror (rejected e) p = p

  keeps-resume_alive :
      {w : World} (was : ConnectionState) (o : Outcome Bool)
      → P w
      → P (resume_alive platform was o w)
  keeps-resume_alive was (resolved b) p = Connecting.keeps-resume_retry platform I was b p
  keeps-resume_alive was (rejected e) p = p

  keeps-resume : {w : World} (t : Task) (r : Reply) → P w → P (resume platform t r w)
  unfolding resume
  keeps-resume Task.load_snapshot (Reply.snapshot o) p = Loading.keeps-resume_load platform I _ p
  keeps-resume (Task.subscribed rest id) (Reply.listening o) p =
      Loading.keeps-resume_subscribed platform I rest id _ p
  keeps-resume (Task.connect_otp profile settings live_otp) Reply.elapsed p =
      Connecting.keeps-resume_otp platform I profile settings live_otp p
  keeps-resume (Task.connect_response params) (Reply.daemon o) p =
      Connecting.keeps-resume_connect platform I _ p
  keeps-resume Task.disconnect_response (Reply.daemon o) p =
      Connecting.keeps-resume_disconnect platform I _ p
  keeps-resume (Task.retry_response was) (Reply.alive o) p = keeps-resume_alive was _ p
  keeps-resume Task.status_response (Reply.daemon o) p =
      Listening.keeps-resume_status platform I _ p
  keeps-resume (Task.ping_response id) (Reply.round_trip o) p =
      Telemetry.keeps-resume_ping platform I id _ p
  keeps-resume Task.mirror_response (Reply.alive o) p = keeps-resume_mirror _ p
  keeps-resume (Task.auto_connect id) Reply.elapsed p =
      Loading.keeps-fire_auto_connect platform I id p
  keeps-resume _ _ p = p

  settle_if :
      {w : World} (b : Bool) (t : Task) (r : Reply) (ts : List Task)
      → P w
      → P (if b then resume platform t r (record w { tasks = ts }) else w)
  settle_if true t r ts p = keeps-resume t r (I.tasks p)
  settle_if false t r ts p = p

  keeps-settle_task :
      {w : World} (index : ℕ) (r : Reply) (t : Option Task)
      → P w
      → P (settle_task platform index r t w)
  keeps-settle_task index r none p = p
  keeps-settle_task index r (some t) p = settle_if _ t r _ p

  keeps-deliver :
      (callback : Listener → Option Action)
      → ((l : Listener) (w : World) → P w → P (run_callback (callback l) w))
      → (ls : List Listener) {w : World} → P w
      → P (deliver callback ls w)
  keeps-deliver callback h [] p = p
  keeps-deliver callback h (l ∷ ls) p = keeps-deliver callback h ls (h l _ p)

  status-callback :
      (status : DaemonHealthStatus) (l : Listener) (w : World)
      → P w
      → P (run_callback (on_status_channel platform status l) w)
  unfolding Settings.set_daemon_health
  status-callback status Listener.health_mirror w p = I.quiet p refl refl
  status-callback status Listener.daemon_status w p =
      Listening.keeps-on_daemon_status platform I status p
  status-callback status _ w p = p

  vpn-callback :
      (payload : Option StatusPayload) (l : Listener) (w : World)
      → P w
      → P (run_callback (on_vpn_channel platform payload l) w)
  vpn-callback payload Listener.vpn_status w p = Listening.keeps-on_vpn_status platform I payload p
  vpn-callback payload _ w p = p

  metrics-callback :
      (payload : Option MetricsPayload) (l : Listener) (w : World)
      → P w
      → P (run_callback (on_metrics_channel platform payload l) w)
  metrics-callback payload Listener.metrics w p =
      Telemetry.keeps-on_metrics_update platform I payload p
  metrics-callback payload _ w p = p

  tray-callback : (l : Listener) (w : World) → P w → P (run_callback (on_tray_channel platform l) w)
  tray-callback Listener.tray_toggle w p = Listening.keeps-on_tray_toggle platform I p
  tray-callback _ w p = p

  keeps-step : {w : World} (e : Event) → P w → P (step platform e w)
  unfolding step
  keeps-step (Event.call c) p = keeps-perform c p
  keeps-step {w} (Event.settle index r) p = keeps-settle_task index r (task_at index w.tasks) p
  keeps-step {w} (Event.daemon_status status) p =
      keeps-deliver (on_status_channel platform status) (status-callback status) w.listeners p
  keeps-step {w} (Event.vpn_status payload) p =
      keeps-deliver (on_vpn_channel platform payload) (vpn-callback payload) w.listeners p
  keeps-step {w} (Event.metrics payload) p =
      keeps-deliver (on_metrics_channel platform payload) (metrics-callback payload) w.listeners p
  keeps-step {w} Event.tray_toggle p =
      keeps-deliver (on_tray_channel platform) tray-callback w.listeners p

  pub keeps-run : (es : List Event) {w : World} → P w → P (run platform w es)
  unfolding run
  keeps-run [] p = p
  keeps-run (e ∷ es) p = keeps-run es (keeps-step e p)

  boot_in :
      {w : World} (tauri : Bool)
      → P w
      → P (
          if tauri
          then (Storage.register platform Listener.health_mirror
                >> await (ping_daemon platform.tauri) Task.mirror_response)
              w
          else w)
  boot_in true p =
      I.tasks (Actions.keeps-invoke platform I _ refl (Loading.keeps-register platform I _ p))
  boot_in false p = p

  -- After the end of the module.
  pub keeps-boot :
      (saved : SavedSettings) → P (initial_world platform saved) → P (boot platform saved)
  unfolding boot
  keeps-boot saved p = boot_in platform.tauri (Loading.keeps-load_storage platform I false p)
