-- ===== src/Machine/Loads/Listeners.antt =====
-- The listeners leave the loading of the storage where it stands.
use vpnhub.Prelude.{refl, get_or, true, false, Bool, Option, none, some, str_eq}
use vpnhub.Types.{ConnectionState, DaemonHealthStatus}
use vpnhub.Bridge.Methods.{update_tray_status}
use vpnhub.World.{start, Platform, World, VpnStoreState, Effect}
use vpnhub.Store.Logs.{add_log}
use vpnhub.Store.Settings.{set_daemon_health}
use vpnhub.Store.Telemetry
use vpnhub.Store.Telemetry.{Metrics, MetricsPayload}
use vpnhub.Store.Subscriptions
use vpnhub.Store.Subscriptions.{StatusSnapshot, StatusPayload}
use vpnhub.Machine.Frame.{Still}
use vpnhub.Machine.Loads.Still.{
  Still-trans, invoke-Still, call-Still, branch-Still, connect-Still, disconnect-Still,
}

apply_result-Still :
    (platform : Platform) (b : Bool) (m : Option Metrics) (w : World)
    → Still w (Telemetry.apply_result platform b m w)
unfolding Telemetry.apply_result Telemetry.apply_metrics
apply_result-Still platform true none w = (refl, refl, refl, λ g light. refl)
apply_result-Still platform true (some m) w = (refl, refl, refl, λ g light. refl)
apply_result-Still platform false m w = (refl, refl, refl, λ g light. refl)

pub on_metrics_update-Still :
    (platform : Platform) (payload : Option MetricsPayload) (w : World)
    → Still w (Telemetry.on_metrics_update platform payload w)
unfolding Telemetry.on_metrics_update
on_metrics_update-Still platform none w = (refl, refl, refl, λ g light. refl)
on_metrics_update-Still platform (some payload) w =
    apply_result-Still platform (str_eq payload.status "metrics") payload.result w

pub on_daemon_status-Still :
    (platform : Platform) (status : DaemonHealthStatus) (w : World)
    → Still w (Subscriptions.on_daemon_status platform status w)
unfolding Subscriptions.on_daemon_status Subscriptions.lose_daemon Subscriptions.restore_daemon
    set_daemon_health add_log
on_daemon_status-Still platform status w =
    branch-Still _ _ _ w _
      (branch-Still _ _ _ w _ (invoke-Still _ _) (refl, refl, refl, λ g light. refl))
      (branch-Still _ _ _ w _ (call-Still _ _ _ refl) (refl, refl, refl, λ g light. refl))

pub on_tray_toggle-Still :
    (platform : Platform) (w : World) → Still w (Subscriptions.on_tray_toggle platform w)
unfolding Subscriptions.on_tray_toggle
on_tray_toggle-Still platform w =
    branch-Still _ _ _ w w (disconnect-Still platform w) (connect-Still platform _ none w)

notify_once-Still :
    (enabled : Bool) (s : ConnectionState) (toast : Effect) (w : World)
    → Still w (Subscriptions.notify_once enabled s toast w)
unfolding Subscriptions.notify_once
notify_once-Still enabled s toast w =
    branch-Still _ _ _ w w (refl, refl, refl, λ g light. refl) (refl, refl, refl, λ g light. refl)

notify_disconnected-Still :
    (current : VpnStoreState) (w : World) → Still w (Subscriptions.notify_disconnected current w)
unfolding Subscriptions.notify_disconnected
notify_disconnected-Still current w =
    branch-Still _ _ _ w w (refl, refl, refl, λ g light. refl) (refl, refl, refl, λ g light. refl)

report-Still :
    (platform : Platform) (current : VpnStoreState) (snap : StatusSnapshot) (s : ConnectionState)
    (w : World)
    → Still w (Subscriptions.report platform current snap s w)
unfolding Subscriptions.report Subscriptions.report_connected Subscriptions.report_error
    Subscriptions.report_disconnected add_log
report-Still platform current snap ConnectionState.connected w = notify_once-Still _ _ _ _
report-Still platform current snap ConnectionState.error w = notify_once-Still _ _ _ _
report-Still platform current snap ConnectionState.disconnected w =
    branch-Still _ _ _ w w (notify_disconnected-Still current _) (refl, refl, refl, λ g light. refl)
report-Still platform current snap _ w = (refl, refl, refl, λ g light. refl)

apply_snapshot-Still :
    (platform : Platform) (snap : StatusSnapshot) (w : World)
    → Still w (Subscriptions.apply_snapshot platform snap w)
unfolding Subscriptions.apply_snapshot Subscriptions.set_session
apply_snapshot-Still platform snap w =
    let v = Subscriptions.report platform w.store snap snap.state w in
    let u = Subscriptions.set_session platform snap.state (get_or snap.session_duration_secs 0) v in
    branch-Still _ _ _ w w (refl, refl, refl, λ g light. refl)
      (Still-trans w v (start (update_tray_status platform.tauri snap.state) u)
        (report-Still platform w.store snap snap.state w)
        (invoke-Still (update_tray_status platform.tauri snap.state).request u))

apply_status-Still :
    (platform : Platform) (b : Bool) (r : Option StatusSnapshot) (w : World)
    → Still w (Subscriptions.apply_status platform b r w)
unfolding Subscriptions.apply_status
apply_status-Still platform true (some snap) w = apply_snapshot-Still platform snap w
apply_status-Still platform true none w = (refl, refl, refl, λ g light. refl)
apply_status-Still platform false r w = (refl, refl, refl, λ g light. refl)

pub on_vpn_status-Still :
    (platform : Platform) (payload : Option StatusPayload) (w : World)
    → Still w (Subscriptions.on_vpn_status platform payload w)
unfolding Subscriptions.on_vpn_status
on_vpn_status-Still platform none w = (refl, refl, refl, λ g light. refl)
on_vpn_status-Still platform (some payload) w =
    apply_status-Still platform (str_eq payload.status "status") payload.result w
