-- ===== src/Types.antt =====
-- packages/app/src/types/vpn.ts: the data that the store, the bridge and the views share.
-- A property that may be absent is an `Option`. Speeds are kept in tenths of a KB/s, the precision
-- to which the source rounds them.
pub mod Equality
use vpnhub.Prelude.{ℕ, ℤ, String, Bool, Option, List}

pub data ConnectionState : Type 0 where
  disconnected connecting connected reconnecting disconnecting error : ConnectionState

pub data DaemonHealthStatus : Type 0 where
  connected reconnecting offline : DaemonHealthStatus

pub data ProtocolType : Type 0 where
  wireguard openvpn_udp openvpn_tcp ipsec : ProtocolType

pub data KillSwitchMode : Type 0 where
  off standard strict : KillSwitchMode

pub data SplitTunnelMode : Type 0 where
  bypass route_vpn : SplitTunnelMode

pub data RoutingMode : Type 0 where
  auto intranet_only full_tunnel : RoutingMode

pub data PasswordMode : Type 0 where
  static dynamic_prompt totp_auto : PasswordMode

pub data TotpFormat : Type 0 where
  append prefix totp_only : TotpFormat

pub record Credentials : Type 0 where
  pub username : Option String
  pub password : Option String
  pub password_mode : Option PasswordMode
  pub totp_secret : Option String
  pub totp_format : Option TotpFormat
  pub has_password : Option Bool
  pub has_cert : Option Bool
  pub has_private_key : Option Bool
  pub has_ca_cert : Option Bool
  pub has_tls_auth : Option Bool
  pub has_tls_crypt : Option Bool
  pub private_key : Option String
  pub preshared_key : Option String
  pub ca_cert : Option String
  pub client_cert : Option String
  pub client_key : Option String
  pub tls_auth_key : Option String
  pub tls_crypt_key : Option String
  pub key_direction : Option String
  pub remote_cert_tls_server : Option Bool
  pub reneg_sec : Option ℕ

pub record VpnProfile : Type 0 where
  pub id : String
  pub name : String
  pub protocol : ProtocolType
  pub server_host : String
  pub server_port : ℕ
  pub server_country : String
  pub server_city : String
  pub server_flag : String
  pub virtual_ip : String
  pub assigned_ip : Option String
  pub is_favorite : Bool
  pub tags : List String
  pub last_connected : Option String
  pub ping_ms : ℕ
  pub credentials : Option Credentials
  pub raw_config : Option String
  pub routing_mode : Option RoutingMode
  pub use_only_for_network_resources : Option Bool
  pub custom_subnets : Option (List String)

pub record TelemetryPoint : Type 0 where
  pub timestamp : ℤ
  pub download_speed : ℕ
  pub upload_speed : ℕ
  pub ping : ℕ

pub record LiveTelemetry : Type 0 where
  pub current_download_kbps : ℕ
  pub current_upload_kbps : ℕ
  pub total_downloaded_bytes : ℕ
  pub total_uploaded_bytes : ℕ
  pub current_ping_ms : ℕ
  pub jitter_ms : ℕ
  pub packet_loss_percent : ℕ
  pub sparkline : List TelemetryPoint

pub data LogLevel : Type 0 where
  debug info warn error : LogLevel

pub record LogEntry : Type 0 where
  pub id : String
  pub timestamp : String
  pub level : LogLevel
  pub source : String
  pub message : String

pub record AppRule : Type 0 where
  pub id : String
  pub name : String
  pub path : String
  pub icon : Option String
  pub mode : SplitTunnelMode
  pub enabled : Bool

pub data RuleType : Type 0 where
  cidr domain : RuleType

pub record IpDomainRule : Type 0 where
  pub id : String
  pub target : String
  pub type : RuleType
  pub description : String
  pub mode : SplitTunnelMode
  pub enabled : Bool

pub data DnsProvider : Type 0 where
  cloudflare google quad9 custom : DnsProvider

pub record SecuritySettings : Type 0 where
  pub kill_switch : KillSwitchMode
  pub dns_protection : Bool
  pub custom_dns_provider : DnsProvider
  pub custom_dns_ip : Option String
  pub custom_dns_servers : Option (List String)
  pub ipv6_leak_protection : Bool
  pub web_rtc_protection : Bool
  pub lan_bypass : Bool
  pub default_use_only_for_network_resources : Option Bool
  pub default_routing_mode : Option RoutingMode

pub data AppLanguage : Type 0 where
  en vi zh fr : AppLanguage

pub record AppSettings : Type 0 where
  pub auto_launch : Bool
  pub start_minimized : Bool
  pub auto_connect : Bool
  pub minimize_to_tray : Bool
  pub notifications_enabled : Option Bool
  pub auto_reconnect : Option Bool
  pub language : Option AppLanguage
