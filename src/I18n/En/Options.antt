-- ===== src/I18n/En/Options.antt =====
-- packages/app/src/i18n/locales/en.ts: the texts of the settings and of split tunnelling in English.
use vpnhub.I18n.Dictionary.Options.{Settings, SplitTunnel}

unfoldable pub settings : Settings
settings = record {
  title = "Application Settings";
  subtitle =
      "Configure desktop client behavior, startup preferences, language, and system integration";
  language_card_title = "Language & Regional Preferences";
  language_select_label = "Display Language";
  language_select_desc = "Select your preferred user interface language for VPNHub";
  desktop_behavior_title = "Desktop & Window Behavior";
  launch_at_startup = "Launch at System Startup";
  launch_at_startup_desc = "Starts VPNHub automatically when your operating system boots";
  start_minimized = "Start Minimized to System Tray";
  start_minimized_desc = "Launches quietly in the background tray without opening the main window";
  auto_connect_on_launch = "Auto-Connect on Launch";
  auto_connect_on_launch_desc =
      "Automatically establishes secure connection to your favorite or last active profile";
  minimize_to_tray_on_close = "Minimize to System Tray on Close";
  minimize_to_tray_on_close_desc =
      "Closing the window hides it to the system tray so VPN tunnels stay active";
  network_integration_title = "Network & System Integration";
  auto_reconnect = "Auto-Reconnect on Network Switch";
  auto_reconnect_desc = "Automatically restores tunnel when Wi-Fi reconnects or interface changes";
  desktop_notifications = "Desktop System Notifications";
  desktop_notifications_desc =
      "Displays OS desktop notifications on connect, disconnect, and security alerts";
  spotlight_title = "Global Command Spotlight";
  spotlight_desc = "Trigger instant profile switcher and navigation palette with shortcut";
  spotlight_button = "Open (⌘K)";
  diagnostics_title = "Core Diagnostics & Encrypted Vault Storage";
  engine_status = "Engine Status: High Integrity";
  cipher_suite_title = "Cipher Suite";
  cipher_suite_desc = "ChaCha20-Poly1305 / AES-GCM + Post-Quantum ML-KEM";
  ipc_daemon_title = "IPC Daemon";
  ipc_daemon_desc = "Unix Domain Socket • Latency: {latency}ms";
  encrypted_vault_title = "Encrypted Vault";
  encrypted_vault_desc = "AES-256-GCM Zeroized Hardware Storage Key";
  client_version_text = "VPNHub Desktop Client v0.1.2";
  reset_defaults = "Reset Defaults";
  settings_restored_title = "Settings Restored";
  settings_restored_msg = "Application settings have been reset to default values.";
  docs_and_github = "Docs & GitHub";
  core_ready = "v{version} Ready";
  core_offline = "Offline";
  vault_aes = "Vault: AES-256-GCM";
}

unfoldable pub split_tunnel : SplitTunnel
split_tunnel = record {
  title = "Split Tunneling Policy Manager";
  subtitle =
      "Granularly define which applications, CIDR subnets, and domains route through VPN or direct internet";
  tab_apps = "Application Rules";
  tab_ip_domain = "IP Subnets & Domains";
  apps_section_title = "Application-Specific Tunnel Rules";
  apps_section_desc =
      "Packets emitted by specified binaries will follow designated routing table overrides";
  btn_add_app_rule = "Add Application Rule";
  col_status = "Status";
  col_app = "Application";
  col_path = "Executable Path";
  col_policy = "Routing Policy";
  col_actions = "Actions";
  route_vpn_badge = "Route via VPN";
  bypass_badge = "Bypass VPN (Direct)";
  add_ip_section_title = "Add Subnet CIDR or Domain Rule";
  target_label = "Target CIDR / Wildcard Domain";
  target_placeholder = "10.0.0.0/8 or *.corp.domain.com";
  type_label = "Type";
  type_cidr = "IPv4/IPv6 CIDR Subnet";
  type_domain = "Domain Pattern";
  policy_label = "Routing Mode";
  policy_route_vpn = "Route via VPN";
  policy_bypass = "Bypass VPN (Direct)";
  desc_label = "Description / Purpose";
  desc_placeholder = "e.g. AWS VPC Staging";
  btn_add_rule = "Add";
  col_target = "Target Destination";
  col_type = "Type";
  col_desc = "Description";
}
