-- ===== src/I18n/En.antt =====
-- packages/app/src/i18n/locales/en.ts: the texts in English.
pub mod Dialogs
pub mod Options
use vpnhub.I18n.Dictionary.{
  Common, Nav, Titlebar, StatusBar, Dashboard, Profiles, Security, Logs, TranslationDictionary,
}
use vpnhub.I18n.En.Dialogs.{modals}
use vpnhub.I18n.En.Options.{settings, split_tunnel}

unfoldable pub common : Common
common = record {
  save = "Save";
  cancel = "Cancel";
  delete = "Delete";
  edit = "Edit";
  close = "Close";
  copy = "Copy";
  copied = "Copied!";
  open_label = "Open";
  back = "Back";
  search = "Search";
  filter = "Filter";
  reset = "Reset";
  enable = "Enable";
  disable = "Disable";
  active = "Active";
  ready = "Ready";
  offline = "Offline";
  connected = "Connected";
  connecting = "Connecting";
  reconnecting = "Reconnecting";
  disconnecting = "Disconnecting";
  disconnected = "Disconnected";
  error = "Error";
  none = "None";
  loading = "Loading...";
  all = "All";
  success = "Success";
  warning = "Warning";
  username = "Username";
  password = "Password";
  or = "OR";
  coming_soon = "Coming Soon";
  actions = "Actions";
  location = "Location";
  isp = "ISP";
  vpn_profiles = "VPN PROFILES";
  commands = "COMMANDS & VIEWS";
  status_label = "Status";
  type = "Type";
  policy = "Policy";
  target = "Target Destination";
}

unfoldable pub nav : Nav
nav = record {
  menu = "Menu";
  dashboard = "Dashboard";
  profiles = "Profile Library";
  security = "Security & Shield";
  logs = "Live Console";
  settings = "Settings";
  support_and_docs = "Support & Docs";
  collapse_sidebar = "Collapse Sidebar (Ctrl+B)";
  expand_sidebar = "Expand Sidebar (Ctrl+B)";
  core_title = "VPNHub Core";
  daemon_status = "Daemon";
}

unfoldable pub titlebar : Titlebar
titlebar = record {
  search_placeholder = "Search profiles, commands...";
  active = "Active";
  reconnecting = "Reconnecting";
  offline = "Offline";
  search_shortcut = "⌘K";
}

unfoldable pub status_bar : StatusBar
status_bar = record {
  kill_switch_strict = "Kill Switch: STRICT FAIL-CLOSED";
  kill_switch_auto = "Kill Switch: AUTO DROPOUT";
  kill_switch_off = "Kill Switch: DISABLED";
  ipv6_blocked = "BLOCKED";
  ipv6_pass = "PASS";
  dns_secured = "SECURED";
}

unfoldable pub dashboard : Dashboard
dashboard = record {
  hero_title_connected = "Protected & Connected";
  hero_title_disconnected = "Disconnected & Unprotected";
  hero_title_connecting = "Establishing Secure Tunnel...";
  click_to_disconnect = "Click to Disconnect";
  click_to_connect = "Click to Connect";
  select_profile_prompt = "Select a profile from the deck below to connect";
  status_secured = "Secured";
  status_unprotected = "Unprotected";
  public_ip = "Public IP";
  virtual_ip = "Virtual IP";
  gateway = "Gateway";
  latency = "Latency";
  uptime = "Uptime";
  download_speed = "Download";
  upload_speed = "Upload";
  total_traffic = "Total Traffic";
  quick_switch_title = "Quick Switch Profiles";
  manage_all = "Manage All Profiles";
  live_log_stream_title = "Live Activity & Tunnel Telemetry";
  clear_stream = "Clear Stream";
  no_active_tunnel = "No active tunnel connected";
  daemon_offline = "DAEMON OFFLINE";
  retry_ipc = "Retry ↺";
  live_ping = "Ping";
  active_rules = "Active Rules";
}

unfoldable pub profiles : Profiles
profiles = record {
  title = "Profile Library";
  subtitle = "Manage WireGuard and OpenVPN server configurations";
  add_profile = "New Profile";
  import_ovpn = "Import .ovpn";
  search_placeholder = "Search profiles by name, country, or tag...";
  all_protocols = "All Protocols";
  all_tags = "All Tags";
  favorites_only = "Favorites Only";
  no_profiles_found = "No VPN profiles found";
  create_prompt = "Add or import a profile to get started";
  server_host = "Server Host";
  server_port = "Port";
  protocol = "Protocol";
  status = "Status";
  last_connected = "Last Connected";
  never = "Never";
  connect = "Connect";
  disconnect = "Disconnect";
  delete_confirm = "Are you sure you want to delete this profile?";
}

unfoldable pub security : Security
security = record {
  title = "Security & Shield Center";
  subtitle = "Configure firewall leak shields, kill switches, and local network bypass";
  kill_switch_title = "Internet Kill Switch (Firewall Enforcement)";
  kill_switch_desc =
      "Blocks unencrypted traffic if the VPN drops unexpectedly to prevent data leaks";
  kill_switch_enforced = "ENFORCED";
  kill_switch_off = "OFF";
  ipv6_title = "IPv6 Blackhole Shield";
  ipv6_desc = "Null-routes native IPv6 traffic to prevent dual-stack leaks bypassing the tunnel";
  ipv6_protected = "Protected";
  webrtc_title = "WebRTC STUN Shield";
  webrtc_desc = "Prevents browsers from leaking physical IP addresses via outbound STUN requests";
  webrtc_protected = "Protected";
  lan_bypass_title = "Smart LAN Bypass";
  lan_bypass_desc =
      "Allows access to local physical network devices (home/office printers, NAS, router)";
  lan_bypass_active = "Active";
  dns_leak_test_title = "DNS Leak Verification";
  dns_leak_test_desc = "Run automated DNS leak diagnostics against global resolver servers";
  run_dns_test = "Run Leak Test";
}

unfoldable pub logs : Logs
logs = record {
  title = "Live Console & Diagnostic Logs";
  subtitle = "Real-time engine events, protocol handshakes, and diagnostic logs";
  search_placeholder = "Search logs by keyword, target, or error message...";
  clear_logs = "Clear Logs";
  copy_all = "Copy All";
  auto_scroll = "Auto-Scroll";
  filter_all = "ALL";
  filter_info = "INFO";
  filter_warn = "WARN";
  filter_error = "ERROR";
  filter_debug = "DEBUG";
  no_logs_message = "No console events recorded yet";
  export_diagnostics = "Export Logs";
}

abbrev pub en : TranslationDictionary
en = record {
  common = common;
  nav = nav;
  titlebar = titlebar;
  status_bar = status_bar;
  dashboard = dashboard;
  profiles = profiles;
  security = security;
  logs = logs;
  settings = settings;
  split_tunnel = split_tunnel;
  modals = modals;
}
