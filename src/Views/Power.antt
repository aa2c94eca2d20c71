-- ===== src/Views/Power.antt =====
-- The power buttons of components/dashboard/HeroCockpitBanner.tsx, HeroCommandBanner.tsx,
-- DashboardProfileDeck.tsx, components/profiles/ProfileCard.tsx and
-- components/tray/MiniTrayWidget.tsx, and the reconnection of components/layout/AppShell.tsx when the
-- network is back.
pub mod Twice
pub mod Uptime
pub mod Down
pub mod Online
pub mod Tooltip
use vpnhub.Prelude.{
  String, str_eq, Bool, true, false, not, ◌&&◌, ◌||◌, Option, none, some, nonempty, is_true,
}
use vpnhub.Types.{ConnectionState, DaemonHealthStatus, LogLevel, VpnProfile}
use vpnhub.Types.Equality.{state_eq}
use vpnhub.World.{VpnStoreState, Platform, World, Action, get, branch, pass, ◌>>=◌, ◌>>◌}
use vpnhub.Store.Logs.{add_log}
use vpnhub.Store.Connection.{choose_profile, connect, disconnect, retry_daemon_ipc}

abbrev id_of : Option VpnProfile → Option String
id_of none = none
id_of (some p) = some p.id

-- `activeProfile?.id`: of the active profile, or else of the first.
unfoldable pub active_profile : VpnStoreState → Option String
active_profile seen = id_of (choose_profile seen.profiles seen.active_profile_id)

abbrev pub is_offline : DaemonHealthStatus → Bool
is_offline DaemonHealthStatus.offline = true
is_offline _ = false

abbrev pub is_up : ConnectionState → Bool
is_up ConnectionState.connected = true
is_up ConnectionState.connecting = true
is_up ConnectionState.reconnecting = true
is_up _ = false

abbrev pub is_idle : ConnectionState → Bool
is_idle ConnectionState.disconnected = true
is_idle ConnectionState.error = true
is_idle _ = false

-- `handleToggle` of HeroCockpitBanner.
unfoldable pub cockpit_toggle : Platform → VpnStoreState → Action
cockpit_toggle platform seen = branch (is_offline seen.daemon_health) (retry_daemon_ipc platform) (
    branch (is_up seen.connection_state) (disconnect platform)
      (branch (is_idle seen.connection_state) (connect platform (active_profile seen) none) pass))

-- `handleToggle` of HeroCommandBanner.
unfoldable pub banner_toggle : Platform → VpnStoreState → Action
banner_toggle platform seen =
    branch (state_eq seen.connection_state ConnectionState.connected) (disconnect platform)
      (branch (is_idle seen.connection_state) (connect platform (active_profile seen) none) pass)

-- `handleToggle` of MiniTrayWidget.
unfoldable pub widget_toggle : Platform → VpnStoreState → Action
widget_toggle platform seen =
    branch
      (state_eq seen.connection_state ConnectionState.connected
        || state_eq seen.connection_state ConnectionState.connecting)
      (disconnect platform) (connect platform (active_profile seen) none)

-- The profile is the active one.
abbrev pub is_active : VpnStoreState → VpnProfile → Bool
is_active seen profile = str_eq profile.id seen.active_profile_id

-- `handleConnectClick` of ProfileCard.
unfoldable pub card_click : Platform → VpnStoreState → VpnProfile → Action
card_click platform seen profile =
    branch (is_active seen profile && is_up seen.connection_state) (disconnect platform)
      (connect platform (some profile.id) none)

-- `handleConnectClick` of DashboardProfileDeck.
unfoldable pub deck_click : Platform → VpnStoreState → VpnProfile → Action
deck_click platform seen profile =
    branch (is_active seen profile && state_eq seen.connection_state ConnectionState.connected)
      (disconnect platform) (connect platform (some profile.id) none)

abbrev pub can_reconnect : VpnStoreState → Bool
can_reconnect state =
    is_true state.app_settings.auto_reconnect
    && (nonempty state.active_profile_id
        && (not (state_eq state.connection_state ConnectionState.connected)
            && not (state_eq state.connection_state ConnectionState.connecting)))

-- `handleOnline` of AppShell.
unfoldable pub handle_online : Platform → Action
handle_online platform = do
  state ← get
  branch (can_reconnect state) (reconnect state.active_profile_id) pass
  where
    reconnect : String → Action
    reconnect id = do
      add_log platform LogLevel.info "NETWORK_ADAPTER"
          "Network connectivity restored. Auto-reconnecting VPN tunnel..."
      connect platform (some id) none
