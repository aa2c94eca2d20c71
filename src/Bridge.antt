-- ===== src/Bridge.antt =====
-- packages/app/src/services/ipcBridge.ts: what the client says to the daemon, and what it hears.
-- A command is one `invoke` of the desktop shell. The shell itself is not modelled: its answers come
-- from outside, as the `Outcome` of the promise.
pub mod Methods
pub mod Windows
use vpnhub.Prelude.{ℕ, String, Bool, Option, List}
use vpnhub.Types.{
  ConnectionState, DaemonHealthStatus, KillSwitchMode, PasswordMode, TotpFormat, ProtocolType,
  DnsProvider, AppRule, IpDomainRule,
}

-- How a promise ends. The text of a rejection is what `err?.message || err` prints.
pub data Outcome (A : Type 0) : Type 0 where
  resolved : A → Outcome A
  rejected : String → Outcome A

pub data TunnelProtocol : Type 0 where
  wireguard openvpn_udp openvpn_tcp : TunnelProtocol

pub record UserPasswordAuth : Type 0 where
  pub username : String
  pub password : String
  pub ca_cert : Option String
  pub client_cert : Option String
  pub client_key : Option String
  pub tls_auth_key : Option String
  pub tls_crypt_key : Option String
  pub key_direction : Option String
  pub remote_cert_tls_server : Option Bool
  pub reneg_sec : Option ℕ
  pub ovpn_config : Option String

pub data AuthConfig : Type 0 where
  wireguard_key : (private_key : String) (preshared_key : Option String) → AuthConfig
  user_password : UserPasswordAuth → AuthConfig
  raw_ovpn_config : (config_content : String) (username password : Option String) → AuthConfig

pub record SecurityPolicy : Type 0 where
  pub kill_switch_mode : KillSwitchMode
  pub ipv6_leak_protection : Bool
  pub webrtc_protection : Bool
  pub lan_bypass : Bool

pub record RoutingPolicy : Type 0 where
  pub intranet_only : Bool
  pub custom_subnets : List String

pub record VpnConnectParams : Type 0 where
  pub profile_id : String
  pub protocol : TunnelProtocol
  pub server_endpoint : String
  pub server_port : ℕ
  pub auth_config : AuthConfig
  pub enable_kill_switch : Bool
  pub custom_dns : Option (List String)
  pub security_policy : Option SecurityPolicy
  pub routing_policy : Option RoutingPolicy

pub record UserPasswordSecret : Type 0 where
  pub username : String
  pub password : String
  pub totp_secret : Option String
  pub totp_format : Option TotpFormat
  pub ca_cert : Option String
  pub client_cert : Option String
  pub client_key : Option String
  pub tls_auth_key : Option String
  pub tls_crypt_key : Option String
  pub key_direction : Option String
  pub remote_cert_tls_server : Option Bool
  pub reneg_sec : Option ℕ
  pub ovpn_config : Option String

pub record RawOvpnSecret : Type 0 where
  pub config_content : String
  pub username : Option String
  pub password : Option String
  pub totp_secret : Option String
  pub totp_format : Option TotpFormat

pub data ProfileSecretPayload : Type 0 where
  wireguard : (private_key : String) (preshared_key : Option String) → ProfileSecretPayload
  user_password : UserPasswordSecret → ProfileSecretPayload
  raw_ovpn_config : RawOvpnSecret → ProfileSecretPayload

pub record StoredCredentials : Type 0 where
  pub username : Option String
  pub password_mode : Option PasswordMode
  pub totp_format : Option TotpFormat
  pub has_password : Bool
  pub has_private_key : Bool
  pub has_client_cert : Bool
  pub has_ca_cert : Option Bool
  pub has_tls_auth : Option Bool
  pub has_tls_crypt : Option Bool
  pub has_raw_ovpn : Bool

pub record StoredProfile : Type 0 where
  pub id : String
  pub name : String
  pub server_country : String
  pub server_flag : String
  pub server_host : String
  pub server_port : ℕ
  pub protocol : ProtocolType
  pub virtual_ip : String
  pub tags : List String
  pub is_favorite : Bool
  pub ping_ms : Option ℕ
  pub last_connected : Option String
  pub credentials : Option StoredCredentials
  pub intranet_only : Option Bool
  pub custom_subnets : Option (List String)

pub record StoredSecuritySettings : Type 0 where
  pub kill_switch : KillSwitchMode
  pub dns_protection : Bool
  pub custom_dns_provider : Option DnsProvider
  pub custom_dns_servers : Option (List String)
  pub ipv6_leak_protection : Bool
  pub webrtc_leak_protection : Bool
  pub lan_traffic_bypass : Bool
  pub default_intranet_only : Option Bool

-- `secrets` is a record by profile id.
pub record FullStorageSnapshotPayload : Type 0 where
  pub profiles : List StoredProfile
  pub secrets : Option (String → Option ProfileSecretPayload)
  pub security_settings : StoredSecuritySettings
  pub app_rules : List AppRule
  pub ip_rules : List IpDomainRule

pub data Channel : Type 0 where
  daemon_status vpn_status_update vpn_metrics_update tray_toggle : Channel

pub data WindowCommand : Type 0 where
  start_dragging minimize show toggle_maximize get_geometry : WindowCommand
  start_resize_dragging : (direction : String) → WindowCommand
  close : (minimize_to_tray : Bool) → WindowCommand
  set_size set_position : ℕ → ℕ → WindowCommand

pub data Command : Type 0 where
  storage_load_all get_daemon_status get_metrics ping_daemon : Command
  storage_save_profile : StoredProfile → Option ProfileSecretPayload → Command
  storage_delete_profile : String → Command
  storage_save_security_settings : StoredSecuritySettings → Command
  storage_save_split_rules : List AppRule → List IpDomainRule → Command
  vpn_connect : VpnConnectParams → Command
  vpn_disconnect : (force : Bool) → Command
  set_kill_switch : (enabled : Bool) (mode : Option KillSwitchMode) → Command
  tray_set_status : ConnectionState → Command
  ping_server : (host : String) (port : ℕ) → Command
  listen : Channel → Command
  window : WindowCommand → Command

-- One call of a bridge method: the command that it invokes, if any, and how it turns the outcome of
-- that command into its own. Outside the desktop shell there is no command and the outcome is fixed.
pub record Method (R A : Type 0) : Type 0 where
  pub request : Option Command
  pub reply : Outcome R → Outcome A

-- A reply of the daemon, as far as the client reads it.
pub record DaemonReply : Type 0 where
  pub status : String
  pub message : Option String
  pub state : Option ConnectionState
