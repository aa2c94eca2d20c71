-- ===== src/Bridge/Methods.antt =====
-- The methods of `IpcBridge` that the store calls.
use vpnhub.Prelude.{
  ℕ, String, Bool, true, false, ◌||◌, Option, none, some, List, [], map, truthy, nonempty, is_true,
  get_or, if◌then◌else◌,
}
use vpnhub.Types.{
  ConnectionState, KillSwitchMode, PasswordMode, TotpFormat, Credentials, VpnProfile, AppRule,
  IpDomainRule, SecuritySettings,
}
use vpnhub.Bridge.{
  Outcome, resolved, rejected, Command, Method, Channel, StoredCredentials, StoredProfile,
  StoredSecuritySettings, FullStorageSnapshotPayload, ProfileSecretPayload, VpnConnectParams,
  DaemonReply,
}

-- `try { return await … } catch { return fallback }`
abbrev pub recover : {A B : Type 0} → (A → B) → B → Outcome A → Outcome B
recover f b (resolved a) = resolved (f a)
recover f b (rejected e) = resolved b

-- `await …` with no handler: a rejection goes on to the caller.
abbrev pub propagate : {A : Type 0} → Outcome A → Outcome A
propagate o = o

abbrev pass_on : {A : Type 0} → Outcome A → Outcome (Option A)
pass_on (resolved a) = resolved (some a)
pass_on (rejected e) = rejected e

-- In the shell: invoke, then treat the outcome. Elsewhere: no command, and a fixed value.
abbrev pub call : {R A : Type 0} → Bool → Command → (Outcome R → Outcome A) → A → Method R A
call tauri c reply value = record {
  request = if tauri then some c else none;
  reply = if tauri then reply else λ _. resolved value;
}

abbrev pub load_all_storage :
    Bool → Method FullStorageSnapshotPayload (Option FullStorageSnapshotPayload)
load_all_storage tauri = call tauri Command.storage_load_all (recover some none) none

-- `secret && "password" in secret && secret.password`
abbrev secret_password : Option ProfileSecretPayload → Bool
secret_password (some (ProfileSecretPayload.user_password s)) = nonempty s.password
secret_password (some (ProfileSecretPayload.raw_ovpn_config s)) = truthy s.password
secret_password _ = false

abbrev secret_private_key : Option ProfileSecretPayload → Bool
secret_private_key (some (ProfileSecretPayload.wireguard key _)) = nonempty key
secret_private_key _ = false

-- `config_content` or `ovpn_config` of the secret.
abbrev secret_config : Option ProfileSecretPayload → Bool
secret_config (some (ProfileSecretPayload.raw_ovpn_config s)) = nonempty s.config_content
secret_config (some (ProfileSecretPayload.user_password s)) = truthy s.ovpn_config
secret_config _ = false

unfoldable pub stored_credentials :
    VpnProfile → Option ProfileSecretPayload → Credentials → StoredCredentials
stored_credentials profile secret c = record {
  username = c.username;
  password_mode = some (get_or c.password_mode PasswordMode.static);
  totp_format = some (get_or c.totp_format TotpFormat.append);
  has_password = is_true c.has_password || truthy c.password || secret_password secret;
  has_private_key = is_true c.has_private_key || truthy c.private_key || secret_private_key secret;
  has_client_cert = is_true c.has_cert;
  has_ca_cert = none;
  has_tls_auth = none;
  has_tls_crypt = none;
  has_raw_ovpn = truthy profile.raw_config || secret_config secret;
}

abbrev stored_credentials? :
    VpnProfile → Option ProfileSecretPayload → Option Credentials → Option StoredCredentials
stored_credentials? profile secret none = none
stored_credentials? profile secret (some c) = some (stored_credentials profile secret c)

unfoldable pub stored_profile : VpnProfile → Option ProfileSecretPayload → StoredProfile
unfolding stored_credentials
stored_profile profile secret = record {
  id = profile.id;
  name = profile.name;
  server_country = profile.server_country;
  server_flag = profile.server_flag;
  server_host = profile.server_host;
  server_port = profile.server_port;
  protocol = profile.protocol;
  virtual_ip = profile.virtual_ip;
  tags = profile.tags;
  is_favorite = profile.is_favorite;
  ping_ms = some profile.ping_ms;
  last_connected = profile.last_connected;
  credentials = stored_credentials? profile secret profile.credentials;
  intranet_only = some (get_or profile.use_only_for_network_resources false);
  custom_subnets = some (get_or profile.custom_subnets []);
}

abbrev pub save_profile :
    Bool → VpnProfile → Option ProfileSecretPayload → Method (Unit {0}) (Unit {0})
save_profile tauri profile secret =
    call tauri (Command.storage_save_profile (stored_profile profile secret) secret) propagate tt

abbrev pub delete_profile : Bool → String → Method (Unit {0}) (Unit {0})
delete_profile tauri profile_id =
    call tauri (Command.storage_delete_profile profile_id) (recover (λ _. tt) tt) tt

unfoldable pub stored_settings : SecuritySettings → StoredSecuritySettings
stored_settings settings = record {
  kill_switch = settings.kill_switch;
  dns_protection = settings.dns_protection;
  custom_dns_provider = some settings.custom_dns_provider;
  custom_dns_servers = some (get_or settings.custom_dns_servers []);
  ipv6_leak_protection = settings.ipv6_leak_protection;
  webrtc_leak_protection = settings.web_rtc_protection;
  lan_traffic_bypass = settings.lan_bypass;
  default_intranet_only = some (get_or settings.default_use_only_for_network_resources false);
}

abbrev pub save_security_settings : Bool → SecuritySettings → Method (Unit {0}) (Unit {0})
save_security_settings tauri settings =
    call tauri (Command.storage_save_security_settings (stored_settings settings))
      (recover (λ _. tt) tt) tt

abbrev pub app_payload : AppRule → AppRule
app_payload r = record {
  id = r.id;
  name = r.name;
  path = r.path;
  icon = r.icon;
  mode = r.mode;
  enabled = r.enabled;
}

abbrev pub ip_payload : IpDomainRule → IpDomainRule
ip_payload r = record {
  id = r.id;
  target = r.target;
  type = r.type;
  description = r.description;
  mode = r.mode;
  enabled = r.enabled;
}

abbrev pub save_split_rules : Bool → List AppRule → List IpDomainRule → Method (Unit {0}) (Unit {0})
save_split_rules tauri app_rules ip_rules =
    call tauri
      (Command.storage_save_split_rules (map app_payload app_rules) (map ip_payload ip_rules))
      (recover (λ _. tt) tt) tt

abbrev pub success : Option DaemonReply
success = some (record { status = "success"; message = none; state = none })

abbrev pub connect_vpn : Bool → VpnConnectParams → Method (Option DaemonReply) (Option DaemonReply)
connect_vpn tauri params = call tauri (Command.vpn_connect params) propagate success

abbrev pub disconnect_vpn : Bool → Bool → Method (Option DaemonReply) (Option DaemonReply)
disconnect_vpn tauri force = call tauri (Command.vpn_disconnect force) propagate success

abbrev pub get_daemon_status : Bool → Method (Option DaemonReply) (Option DaemonReply)
get_daemon_status tauri =
    call tauri Command.get_daemon_status propagate (
      some
        (record { status = "status"; message = none; state = some ConnectionState.disconnected }))

-- The answer, of any form, is passed on as it is.
abbrev pub get_metrics : {A : Type 0} → Bool → Method A (Option A)
get_metrics tauri = call tauri Command.get_metrics pass_on none

abbrev pub set_kill_switch :
    Bool → Bool → Option KillSwitchMode → Method (Option DaemonReply) (Option DaemonReply)
set_kill_switch tauri enabled mode =
    call tauri (Command.set_kill_switch enabled mode) propagate success

abbrev pub ping_daemon : Bool → Method Bool Bool
ping_daemon tauri = call tauri Command.ping_daemon (recover (λ alive. alive) false) true

abbrev pub update_tray_status : Bool → ConnectionState → Method (Unit {0}) (Unit {0})
update_tray_status tauri state =
    call tauri (Command.tray_set_status state) (recover (λ _. tt) tt) tt

abbrev pub ping_host : Bool → String → ℕ → Method ℕ (Option ℕ)
ping_host tauri host port = call tauri (Command.ping_server host port) (recover some none) none

-- `onDaemonStatusChange`, `onVpnStatusUpdate`, `onMetricsUpdate` and `onTrayToggle`: the callback is
-- the listener that the caller adds to its table.
abbrev pub subscribe : Bool → Channel → Method (Unit {0}) (Unit {0})
subscribe tauri channel = call tauri (Command.listen channel) propagate tt
