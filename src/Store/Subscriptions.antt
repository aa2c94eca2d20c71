-- ===== src/Store/Subscriptions.antt =====
-- The listeners that `setupIpcSubscriptions` registers, but that of the metrics.
pub mod Laws
use vpnhub.Prelude.{
  ℕ, ◌*◌, ℤ, pos, sub_ℕ, String, ◌<>◌, Bool, true, false, not, ◌&&◌, ◌||◌, Option, none, some, List,
  str_eq, if◌then◌else◌, nonempty, is_true, or_text, get_or,
}
use vpnhub.Types.{ConnectionState, DaemonHealthStatus, VpnProfile, LogLevel}
use vpnhub.Types.Equality.{state_eq, health_eq}
use vpnhub.Bridge.{Outcome, resolved, rejected, DaemonReply}
use vpnhub.Bridge.Methods.{get_daemon_status, update_tray_status}
use vpnhub.World.{
  VpnStoreState, Platform, Action, World, Task, Effect, ToastColor, get, set, start, await, emit,
  tick, pass, branch, ◌>>=◌, ◌>>◌,
}
use vpnhub.Store.Logs.{add_log}
use vpnhub.Store.Settings.{set_daemon_health}
use vpnhub.Store.Telemetry.{active_profile}
use vpnhub.Store.Connection.{connect, disconnect, is_connecting_or_connected}

-- The daemon is gone while a tunnel was up or coming up.
unfoldable pub lose_daemon : Platform → Action
lose_daemon platform = do
  add_log platform LogLevel.error "DAEMON_IPC"
      "Daemon process terminated unexpectedly or IPC socket unreachable. Tunnel state invalidated."
  set (λ s. record s {
    connection_state = ConnectionState.error;
    uptime_seconds = pos 0;
    connected_at = none;
    telemetry = record (s.telemetry) {
      current_download_kbps = 0;
      current_upload_kbps = 0;
      current_ping_ms = 0;
    };
  })
  start (update_tray_status platform.tauri ConnectionState.disconnected)

unfoldable pub restore_daemon : Platform → Action
restore_daemon platform = do
  add_log platform LogLevel.info "DAEMON_IPC" "Daemon IPC connection restored. System operational."
  await (get_daemon_status platform.tauri) Task.status_response

-- The listener of `onDaemonStatusChange`.
unfoldable pub on_daemon_status : Platform → DaemonHealthStatus → Action
unfolding set_daemon_health
on_daemon_status platform status = do
  current ← get
  set_daemon_health status
  branch (health_eq status DaemonHealthStatus.offline)
      (branch (is_connecting_or_connected current.connection_state) (lose_daemon platform) pass)
      (branch
        (health_eq status DaemonHealthStatus.connected
          && health_eq current.daemon_health DaemonHealthStatus.offline)
        (restore_daemon platform) pass)

unfoldable pub set_reported : Option ConnectionState → Action
set_reported none = pass
set_reported (some state) = set (λ s. record s { connection_state = state })

-- What the listener does with the answer of `getDaemonStatus`.
unfoldable pub resume_status : Outcome (Option DaemonReply) → Action
resume_status (resolved (some r)) = set_reported r.state
resume_status _ = pass

-- What a status event carries.
pub record StatusSnapshot : Type 0 where
  pub state : ConnectionState
  pub virtual_interface : Option String
  pub assigned_ip : Option String
  pub session_duration_secs : Option ℕ

pub record StatusPayload : Type 0 where
  pub status : String
  pub result : Option StatusSnapshot

abbrev pub set_last_notified : ConnectionState → Action
set_last_notified s w = record w { last_notified_state = some s }

abbrev pub was_notified : Option ConnectionState → ConnectionState → Bool
was_notified none s = false
was_notified (some t) s = state_eq t s

-- One toast for each new state.
unfoldable pub notify_once : Bool → ConnectionState → Effect → Action
notify_once enabled state toast = do
  last ← λ w. w.last_notified_state
  branch (enabled && not (was_notified last state)) (set_last_notified state >> emit toast) pass

-- `activeProf?.name || "VPN"`
abbrev profile_name : Option VpnProfile → String
profile_name none = "VPN"
profile_name (some p) = if nonempty p.name then p.name else "VPN"

unfoldable pub report_connected : Platform → VpnStoreState → StatusSnapshot → Action
report_connected platform current snap = do
  add_log platform LogLevel.info "TUNNEL_ENGINE" (
      "Tunnel established. Interface: "
      <> (or_text snap.virtual_interface "tun0"
          <> (", Assigned IP: " <> or_text snap.assigned_ip "DHCP")))
  notify_once (is_true current.app_settings.notifications_enabled) ConnectionState.connected (
      Effect.notify "VPNHub: Connected"
        ("Secure tunnel active with " <> profile_name (active_profile current)) ToastColor.teal)

unfoldable pub report_error : Platform → VpnStoreState → Action
report_error platform current = do
  add_log platform LogLevel.error "TUNNEL_ENGINE"
      "VPN tunnel encountered a fatal error / authentication failure."
  notify_once (is_true current.app_settings.notifications_enabled) ConnectionState.error (
      Effect.notify "VPNHub: Error" "VPN connection failed or handshake was interrupted."
        ToastColor.red)

abbrev was_active : ConnectionState → Bool
was_active s =
    state_eq s ConnectionState.connected
    || (state_eq s ConnectionState.connecting || state_eq s ConnectionState.disconnecting)

unfoldable pub notify_disconnected : VpnStoreState → Action
notify_disconnected current = do
  last ← λ w. w.last_notified_state
  branch
      (is_true current.app_settings.notifications_enabled
        && (state_eq current.connection_state ConnectionState.connected
            || was_notified last ConnectionState.connected))
      (emit (
        Effect.notify "VPNHub: Disconnected" "VPN tunnel disconnected. Protection disabled."
          ToastColor.gray))
      pass

unfoldable pub report_disconnected : Platform → VpnStoreState → Action
report_disconnected platform current = do
  branch (was_active current.connection_state)
      (add_log platform LogLevel.info "TUNNEL_ENGINE" "VPN tunnel disconnected."
        >> notify_disconnected current)
      pass
  set_last_notified ConnectionState.disconnected

unfoldable pub report : Platform → VpnStoreState → StatusSnapshot → ConnectionState → Action
report platform current snap ConnectionState.connected = report_connected platform current snap
report platform current snap ConnectionState.error = report_error platform current
report platform current snap ConnectionState.disconnected = report_disconnected platform current
report platform current snap _ = pass

-- The state that a status event sets, `session` seconds into the session.
unfoldable pub set_session : Platform → ConnectionState → ℕ → Action
set_session platform state session = do
  n ← λ w. w.reads
  tick
  set (λ s. record s {
    connection_state = state;
    connected_at =
        if state_eq state ConnectionState.connected
        then some (sub_ℕ (platform.now n) (session * 1000))
        else none;
    uptime_seconds = pos session;
  })

unfoldable pub apply_snapshot : Platform → StatusSnapshot → Action
apply_snapshot platform snap = do
  current ← get
  branch (state_eq snap.state current.connection_state) pass (
      report platform current snap snap.state
      >> set_session platform snap.state (get_or snap.session_duration_secs 0)
      >> start (update_tray_status platform.tauri snap.state))

unfoldable pub apply_status : Platform → Bool → Option StatusSnapshot → Action
apply_status platform true (some snap) = apply_snapshot platform snap
apply_status platform _ _ = pass

-- The listener of `onVpnStatusUpdate`; `none` is a payload that is no object.
unfoldable pub on_vpn_status : Platform → Option StatusPayload → Action
on_vpn_status platform none = pass
on_vpn_status platform (some payload) =
    apply_status platform (str_eq payload.status "status") payload.result

-- The listener of `onTrayToggle`.
unfoldable pub on_tray_toggle : Platform → Action
on_tray_toggle platform = do
  current ← get
  branch
      (is_connecting_or_connected current.connection_state
        || state_eq current.connection_state ConnectionState.reconnecting)
      (disconnect platform) (connect platform (some current.active_profile_id) none)
