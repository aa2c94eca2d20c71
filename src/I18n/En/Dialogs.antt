-- ===== src/I18n/En/Dialogs.antt =====
-- packages/app/src/i18n/locales/en.ts: the texts of the dialogs in English.
use vpnhub.I18n.Dictionary.Dialogs.{Modals}

unfoldable pub modals : Modals
modals = record {
  mfa_title = "Two-Factor Authentication";
  mfa_subtitle = "Enter the dynamic 6-digit TOTP / MFA passcode to establish this VPN tunnel.";
  mfa_placeholder = "000000";
  mfa_confirm = "Authenticate & Connect";
  mfa_username = "Username";
  mfa_password = "Password";
  mfa_code_label = "TOTP / MFA Code";
  dns_leak_title = "Automated DNS Leak Test";
  dns_leak_desc =
      "Probing global resolver networks to detect DNS packet leaks bypassing your encrypted tunnel.";
  dns_leak_testing = "Testing DNS resolver leaks...";
  dns_leak_passed =
      "No DNS Leaks Detected • Your traffic is strictly routed through private VPN resolvers.";
  dns_leak_failed =
      "DNS Leak Detected • Unencrypted DNS requests were observed outside the tunnel.";
  dns_servers_found = "Resolvers Detected";
  dns_public_ip = "Resolver IP";
  dns_isp = "ISP";
  dns_location = "Location";
  new_profile_title = "Create VPN Connection Profile";
  new_profile_wireguard_title = "WireGuard Protocol";
  new_profile_wireguard_desc =
      "High-speed modern ChaCha20 encrypted tunnel with lightweight keypairs.";
  new_profile_openvpn_title = "OpenVPN Protocol";
  new_profile_openvpn_desc =
      "Industry-standard SSL/TLS enterprise VPN with multi-factor authentication support.";
  new_profile_import_title = "Import Existing Configuration";
  new_profile_import_desc = "Drag & drop .ovpn, .conf, or client certificate bundles directly.";
  import_dropzone_text = "Drag .ovpn configuration file here or click to browse";
  import_dropzone_subtext =
      "Supports OpenVPN unified format (.ovpn) with inline certificates and keys";
  dropzone_release = "Release File to Import";
  dropzone_drop_now = "Drop file now to import";
  dropzone_analyzing = "Analyzing & Parsing Configuration...";
  dropzone_extracting = "Extracting TLS certificates, keys & tunnel endpoints from";
  invalid_file_type = "Invalid file type. Please upload a valid .ovpn or .conf configuration file.";
  failed_read_file = "Failed to read configuration file. Please try again.";
  failed_parse_file = "Failed to parse VPN configuration file.";
  export_diag_title = "Export Diagnostic Logs";
  export_diag_subtitle =
      "Download or copy encrypted technical diagnostics and tunnel logs for troubleshooting.";
  export_download_json = "Download JSON Bundle";
  export_copy_text = "Copy to Clipboard";
  export_include_logs = "Include last 200 daemon trace logs";
  export_include_routes = "Include active Kernel Routing Table (ip route)";
  export_include_dns = "Include system DNS resolution cache state";
  export_sanitize_private = "Automatically scrub/sanitize private passwords and cryptographic keys";
  export_compiling = "Compiling encrypted archive bundle...";
  qr_title = "Sync Profile with Mobile Client";
  qr_subtitle = "Scan this QR code in VPNHub iOS or Android app to instantly import configuration.";
  qr_copy_base64 = "Copy Base64 Config String";
  proto_select_import_title = "Import Profile - Select Protocol";
  proto_select_add_title = "Add Profile - Select Protocol";
  proto_select_import_desc = "Choose which type of configuration file you want to import:";
  proto_select_add_desc =
      "Choose the VPN protocol engine to configure for this connection profile:";
  proto_wg_title = "WireGuard";
  proto_wg_badge_import = ".conf file";
  proto_wg_badge_add = "UDP Peer-to-Peer";
  proto_wg_desc_import = "Import standard WireGuard configuration (.conf)";
  proto_wg_desc_add = "Ultra-fast throughput, modern cryptography & lowest latency.";
  proto_ovpn_title = "OpenVPN";
  proto_ovpn_badge_import = ".ovpn / .conf";
  proto_ovpn_badge_add = "TCP / UDP + 2FA";
  proto_ovpn_desc_import = "Import OpenVPN client bundle (.ovpn / .conf)";
  proto_ovpn_desc_add = "Enterprise protocol supporting TCP/UDP, 2FA OTP & TLS Certificates.";
  import_wg_title = "Import WireGuard (.conf)";
  import_ovpn_title = "Import OpenVPN (.ovpn)";
  import_wg_dropzone = "Drag & Drop WireGuard .conf file here";
  import_ovpn_dropzone = "Drag & Drop OpenVPN .ovpn or .conf file here";
  import_wg_help = "Supports WireGuard standard config format (.conf) up to 5MB";
  import_ovpn_help = "Supports OpenVPN 2.x/3.x unified format (.ovpn) up to 5MB";
  import_click_browse = "or click to browse from your computer";
  err_expected_wg =
      "The selected file appears to be an OpenVPN configuration. Please select a valid WireGuard (.conf) file containing [Interface] directives.";
  err_expected_ovpn =
      "The selected file appears to be a WireGuard configuration. Please select an OpenVPN (.ovpn) file.";
  add_app_title = "Add Application Routing Rule";
  add_app_detected = "DETECTED INSTALLED APPLICATIONS";
  add_app_name_label = "Application Name";
  add_app_name_placeholder = "e.g. Firefox Developer Edition";
  add_app_path_label = "Executable / Binary Path";
  add_app_path_placeholder = "/usr/bin/... or C:\\Program Files\\...";
  add_app_policy_label = "Routing Policy";
  add_app_bypass_label = "Bypass VPN (Direct Internet Connection)";
  add_app_route_label = "Route via Encrypted VPN Tunnel";
  add_app_submit_btn = "Add Rule";
  cert_manager_title = "TLS & Certificate Security Manager";
  tab_root_ca = "Root CA";
  tab_tls_channel = "TLS Channel";
  tab_client_identity = "Client Identity";
  tab_advanced = "Advanced";
  root_ca_title = "Certificate Authority (<ca>)";
  root_ca_loaded = "Custom Root CA Loaded ({length} characters)";
  root_ca_default_system = "Operating system default Root CA bundle will be used.";
  import_crt_pem = "Import .crt / .pem";
  root_ca_pem_label = "Root CA PEM Content";
  root_ca_pem_placeholder = "-----BEGIN CERTIFICATE-----\n...\n-----END CERTIFICATE-----";
  tls_mode_label = "TLS Channel Protection Mode";
  tls_mode_desc = "Provides an additional HMAC signature or control channel encryption layer.";
  tls_mode_none = "None (Standard OpenVPN TLS Handshake)";
  tls_mode_auth = "TLS-Auth (<tls-auth>) - Static HMAC Signature";
  tls_mode_crypt = "TLS-Crypt (<tls-crypt>) - Full Control Channel Encryption";
  tls_auth_static_key_title = "TLS-Auth Static Key";
  tls_key_loaded = "Static Key Loaded ({length} chars)";
  no_key_loaded = "No key loaded";
  import_key_file = "Import .key file";
  tls_auth_key_content_label = "TLS Auth Key Content (<tls-auth>)";
  key_direction_label = "Key Direction (key-direction)";
  key_direction_desc = "Must match the server configuration.";
  key_dir_none = "None / Bidirectional";
  key_dir0 = "0 (Client / Incoming)";
  key_dir1 = "1 (Server / Outgoing)";
  tls_crypt_key_title = "TLS-Crypt Symmetric Key";
  tls_crypt_key_content_label = "TLS Crypt Key Content (<tls-crypt>)";
  client_identity_desc =
      "Required for Mutual TLS (mTLS) or certificate-based client authentication.";
  client_cert_title = "Client Certificate (<cert>)";
  client_cert_loaded = "Client Certificate Loaded ({length} chars)";
  no_cert_loaded = "No certificate";
  import_crt = "Import .crt";
  client_key_title = "Client Private Key (<key>)";
  client_key_loaded = "Private Key Loaded ({length} chars)";
  no_private_key_loaded = "No private key";
  import_key = "Import .key";
  verify_server_cert_title = "Verify Server Certificate";
  verify_server_cert_desc = "Enforces server certificate validation flag (remote-cert-tls server)";
  reneg_sec_label = "Renegotiation Interval (reneg-sec)";
  reneg_sec_placeholder = "e.g. 0 to disable data channel re-keying";
  reneg_sec_desc =
      "Default: 3600 seconds. Set to 0 if your server or cloud VPN disables renegotiation.";
  apply_cert_settings = "Apply Certificate Settings";
  wireguard_coming_soon_error =
      "WireGuard protocol is currently under development (Coming Soon). Please use OpenVPN (.ovpn) configuration.";
  create_wg_title = "Create WireGuard Profile";
  create_ovpn_title = "Create OpenVPN Profile";
  edit_wg_title = "Edit WireGuard Profile";
  edit_ovpn_title = "Edit OpenVPN Profile";
  server_settings_title = "Server & Connection Settings";
  profile_name_label = "Profile Name";
  profile_name_wg_placeholder = "e.g. WireGuard Frankfurt Tunnel";
  profile_name_ovpn_placeholder = "e.g. OpenVPN Corporate Staging";
  transport_proto_label = "Transport Protocol";
  server_host_label = "Server Host / IP";
  server_host_placeholder = "vpn.example.com or 103.21.244.18";
  port_label = "Port";
  virtual_ip_label = "Assigned Virtual IP (CIDR)";
  virtual_ip_desc = "Assigned static IP for this WireGuard tunnel peer";
  intranet_only_title = "Use this connection only for resources on its network";
  intranet_only_active_desc =
      "Split-Tunnel active: Routes only internal subnets; Internet goes through local connection";
  intranet_only_default_desc =
      "Default: Follows server configuration (Uses VPN default gateway if pushed by server)";
  custom_subnets_label = "Custom Corporate Subnets (CIDR)";
  custom_subnets_placeholder = "e.g. 10.0.0.0/8, 192.168.10.0/24, 172.16.0.0/12";
  custom_subnets_desc =
      "Additional private subnets to route into this VPN tunnel (comma-separated)";
  custom_subnets_hint =
      "💡 Routes pushed by the VPN server & the assigned tunnel IP are automatically included.";
  keys_auth_title = "Keys & Authentication";
  wg_key_exchange_badge = "WireGuard Key Exchange";
  ovpn_auth2fa_badge = "OpenVPN Auth & 2FA";
  wg_priv_key_label = "WireGuard Private Key (Base64)";
  wg_priv_key_placeholder = "Client peer private key (e.g. aGVwaGFlc3R1cy...)";
  wg_priv_key_desc = "Encrypted securely in AES-256-GCM Vault";
  wg_psk_label = "Preshared Key (Optional Post-Quantum Shield)";
  wg_psk_placeholder = "Optional 256-bit symmetric PSK";
  wg_psk_desc = "Additional layer of post-quantum symmetric encryption";
  ovpn_username_label = "Username";
  ovpn_username_placeholder = "Enter VPN account username";
  ovpn_auth_mode_label = "Password & 2FA / TOTP Authentication Mode";
  auth_mode_static = "Static Password";
  auth_mode_totp_auto = "Auto TOTP";
  auth_mode_dynamic_prompt = "Prompt on Connect";
  base_password_label = "Base Password";
  password_label = "Password";
  base_password_placeholder = "Base password (or leave empty to prompt on connect)";
  password_placeholder = "Enter password";
  totp_secret_label = "TOTP Secret Key (Base32)";
  totp_secret_placeholder = "e.g. JBSWY3DPEHPK3PXP";
  totp_secret_desc = "Stored securely in AES-256-GCM Encrypted Vault";
  totp_format_label = "Combination Format";
  totp_format_append = "Base Password + TOTP (e.g. MyPassword123456)";
  totp_format_prefix = "TOTP + Base Password (e.g. 123456MyPassword)";
  totp_format_only = "TOTP Code Only (e.g. 123456)";
  live_totp_label = "Live Authenticator OTP:";
  active_otp_badge = "Active OTP";
  dynamic_prompt_hint =
      "💡 When connecting, VPNHub will display a fast 2FA dialog to enter your dynamic OTP passcode.";
  tls_summary_title = "TLS & Certificate Security";
  tls_summary_desc = "Root CA, TLS Channel Keys, and Client Certificate Authentication";
  btn_config_security = "Configure Security";
  btn_setup_certificates = "Setup Certificates";
  badge_custom_ca = "✓ Custom Root CA";
  badge_system_ca = "System Root CA";
  badge_tls_crypt = "✓ TLS-Crypt Enabled";
  badge_tls_auth = "✓ TLS-Auth (Dir: {direction})";
  badge_standard_tls = "Standard TLS Handshake";
  badge_client_cert_key = "✓ Client Cert & Key";
  badge_user_pass_auth = "User/Pass Auth";
  badge_server_verify = "Server Verify (Active)";
  btn_save_changes = "Save Changes";
  btn_create_profile = "Create Profile";
}
