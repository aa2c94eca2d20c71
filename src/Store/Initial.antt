-- ===== src/Store/Initial.antt =====
-- The initial state of the store, and the settings that the browser has kept.
use vpnhub.Prelude.{
  ℕ, zero, suc, ◌*◌, pos, sub_ℕ, Bool, true, false, Option, none, some, List, [], ◌∷◌, get_or,
}
use vpnhub.Types.{
  ConnectionState, DaemonHealthStatus, KillSwitchMode, DnsProvider, AppLanguage, LiveTelemetry,
  TelemetryPoint, SecuritySettings, AppSettings,
}
use vpnhub.World.{NavigationTab, VpnStoreState, World, Platform}

abbrev pub default_app_settings : AppSettings
default_app_settings = record {
  auto_launch = false;
  start_minimized = true;
  auto_connect = false;
  minimize_to_tray = true;
  notifications_enabled = some true;
  auto_reconnect = some true;
  language = some AppLanguage.en;
}

-- `Partial<AppSettings>`: a property that is given, `undefined` included, replaces the old one.
pub record PartialAppSettings : Type 0 where
  pub auto_launch : Option Bool
  pub start_minimized : Option Bool
  pub auto_connect : Option Bool
  pub minimize_to_tray : Option Bool
  pub notifications_enabled : Option (Option Bool)
  pub auto_reconnect : Option (Option Bool)
  pub language : Option (Option AppLanguage)

-- `{ ...settings, ...changes }`
unfoldable pub spread_app_settings : AppSettings → PartialAppSettings → AppSettings
spread_app_settings s p = record {
  auto_launch = get_or p.auto_launch s.auto_launch;
  start_minimized = get_or p.start_minimized s.start_minimized;
  auto_connect = get_or p.auto_connect s.auto_connect;
  minimize_to_tray = get_or p.minimize_to_tray s.minimize_to_tray;
  notifications_enabled = get_or p.notifications_enabled s.notifications_enabled;
  auto_reconnect = get_or p.auto_reconnect s.auto_reconnect;
  language = get_or p.language s.language;
}

-- What `localStorage` holds under the key: nothing, a text that `JSON.parse` refuses, or settings.
pub data SavedSettings : Type 0 where
  missing malformed : SavedSettings
  parsed : PartialAppSettings → SavedSettings

unfoldable pub get_saved_app_settings : SavedSettings → AppSettings
unfolding spread_app_settings
get_saved_app_settings (SavedSettings.parsed p) = spread_app_settings default_app_settings p
get_saved_app_settings _ = default_app_settings

-- `Array.from({ length: 30 }, (_, i) => …)`, from the index 30 - k on. Each point reads the clock.
unfoldable pub initial_points : Platform → ℕ → ℕ → List TelemetryPoint
initial_points platform n zero = []
initial_points platform n (suc k) =
    record {
      timestamp = sub_ℕ (platform.now n) (suc k * 1000);
      download_speed = 0;
      upload_speed = 0;
      ping = 0;
    }
    ∷ initial_points platform (suc n) k

unfoldable pub initial_telemetry : Platform → LiveTelemetry
unfolding initial_points
initial_telemetry platform = record {
  current_download_kbps = 0;
  current_upload_kbps = 0;
  total_downloaded_bytes = 0;
  total_uploaded_bytes = 0;
  current_ping_ms = 0;
  jitter_ms = 0;
  packet_loss_percent = 0;
  sparkline = initial_points platform 0 30;
}

abbrev pub default_security_settings : SecuritySettings
default_security_settings = record {
  kill_switch = KillSwitchMode.strict;
  dns_protection = true;
  custom_dns_provider = DnsProvider.cloudflare;
  custom_dns_ip = none;
  custom_dns_servers = none;
  ipv6_leak_protection = true;
  web_rtc_protection = true;
  lan_bypass = true;
  default_use_only_for_network_resources = none;
  default_routing_mode = none;
}

unfoldable pub initial_state : Platform → SavedSettings → VpnStoreState
unfolding initial_telemetry get_saved_app_settings
initial_state platform saved = record {
  connection_state = ConnectionState.disconnected;
  daemon_health = DaemonHealthStatus.offline;
  daemon_version = "0.1.2";
  daemon_latency_ms = 42;
  active_profile_id = "";
  active_tab = NavigationTab.dashboard;
  profiles = [];
  telemetry = initial_telemetry platform;
  connected_at = none;
  uptime_seconds = pos 0;
  logs = [];
  security_settings = default_security_settings;
  app_settings = get_saved_app_settings saved;
  app_rules = [];
  ip_rules = [];
  is_spotlight_open = false;
  is_compact_widget = false;
  is_log_auto_scroll = true;
  log_filter_level = "ALL";
  log_search_query = "";
  is_storage_loaded = false;
  mfa_prompt_profile = none;
}

-- The module as it is loaded, before its last lines run.
unfoldable pub initial_world : Platform → SavedSettings → World
unfolding initial_state
initial_world platform saved = record {
  store = initial_state platform saved;
  ipc_subscribed = false;
  is_storage_loading = false;
  last_notified_state = none;
  listeners = [];
  tasks = [];
  effects = [];
  reads = 30;
}
