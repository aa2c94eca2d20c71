-- ===== src/Store/Settings.antt =====
-- Security settings, desktop settings and the plain setters of the views.
pub mod Laws
use vpnhub.Prelude.{String, ◌<>◌, Bool, not, Option, some, List, get_or}
use vpnhub.Types.{
  DaemonHealthStatus, KillSwitchMode, DnsProvider, RoutingMode, SecuritySettings, LogLevel,
}
use vpnhub.Types.Equality.{is_off, upper_mode}
use vpnhub.Bridge.Methods.{save_security_settings, set_kill_switch as daemon_kill_switch}
use vpnhub.World.{Platform, Action, Effect, NavigationTab, get, set, start, emit, ◌>>=◌, ◌>>◌}
use vpnhub.Store.Logs.{add_log}
use vpnhub.Store.Initial.{PartialAppSettings, spread_app_settings}

unfoldable pub set_kill_switch : Platform → KillSwitchMode → Action
set_kill_switch platform mode = do
  state ← get
  let settings = record (state.security_settings) { kill_switch = mode }
  set (λ s. record s { security_settings = settings })
  start (save_security_settings platform.tauri settings)
  start (daemon_kill_switch platform.tauri (not (is_off mode)) (some mode))
  add_log platform LogLevel.info "SECURITY_SHIELD"
      ("Kill switch policy persisted: " <> upper_mode mode)

-- `Partial<SecuritySettings>`.
pub record PartialSecuritySettings : Type 0 where
  pub kill_switch : Option KillSwitchMode
  pub dns_protection : Option Bool
  pub custom_dns_provider : Option DnsProvider
  pub custom_dns_ip : Option (Option String)
  pub custom_dns_servers : Option (Option (List String))
  pub ipv6_leak_protection : Option Bool
  pub web_rtc_protection : Option Bool
  pub lan_bypass : Option Bool
  pub default_use_only_for_network_resources : Option (Option Bool)
  pub default_routing_mode : Option (Option RoutingMode)

unfoldable pub spread_security_settings :
    SecuritySettings → PartialSecuritySettings → SecuritySettings
spread_security_settings s p = record {
  kill_switch = get_or p.kill_switch s.kill_switch;
  dns_protection = get_or p.dns_protection s.dns_protection;
  custom_dns_provider = get_or p.custom_dns_provider s.custom_dns_provider;
  custom_dns_ip = get_or p.custom_dns_ip s.custom_dns_ip;
  custom_dns_servers = get_or p.custom_dns_servers s.custom_dns_servers;
  ipv6_leak_protection = get_or p.ipv6_leak_protection s.ipv6_leak_protection;
  web_rtc_protection = get_or p.web_rtc_protection s.web_rtc_protection;
  lan_bypass = get_or p.lan_bypass s.lan_bypass;
  default_use_only_for_network_resources =
      get_or p.default_use_only_for_network_resources s.default_use_only_for_network_resources;
  default_routing_mode = get_or p.default_routing_mode s.default_routing_mode;
}

unfoldable pub update_security_settings : Platform → PartialSecuritySettings → Action
update_security_settings platform changes = do
  state ← get
  let settings = spread_security_settings state.security_settings changes
  set (λ s. record s { security_settings = settings })
  start (save_security_settings platform.tauri settings)
  add_log platform LogLevel.info "SECURITY_SHIELD" "Security settings persisted to disk"

unfoldable pub update_app_settings : Platform → PartialAppSettings → Action
update_app_settings platform changes = do
  state ← get
  let settings = spread_app_settings state.app_settings changes
  set (λ s. record s { app_settings = settings })
  emit (Effect.save_app_settings settings)
  add_log platform LogLevel.info "DESKTOP_SETTINGS" "Desktop window settings saved"

unfoldable pub set_active_tab : NavigationTab → Action
set_active_tab tab = set (λ s. record s { active_tab = tab })

unfoldable pub set_spotlight_open : Bool → Action
set_spotlight_open opened = set (λ s. record s { is_spotlight_open = opened })

unfoldable pub set_compact_widget : Bool → Action
set_compact_widget compact = set (λ s. record s { is_compact_widget = compact })

unfoldable pub set_log_auto_scroll : Bool → Action
set_log_auto_scroll auto_scroll = set (λ s. record s { is_log_auto_scroll = auto_scroll })

unfoldable pub set_log_filter_level : String → Action
set_log_filter_level level = set (λ s. record s { log_filter_level = level })

unfoldable pub set_log_search_query : String → Action
set_log_search_query query = set (λ s. record s { log_search_query = query })

unfoldable pub set_daemon_health : DaemonHealthStatus → Action
set_daemon_health health = set (λ s. record s { daemon_health = health })
