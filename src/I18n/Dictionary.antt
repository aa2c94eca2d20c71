-- ===== src/I18n/Dictionary.antt =====
-- packages/app/src/i18n/types.ts: the texts of the views.
pub mod Dialogs
pub mod Options
use vpnhub.Prelude.{String}
use vpnhub.I18n.Dictionary.Dialogs.{Modals}
use vpnhub.I18n.Dictionary.Options.{Settings, SplitTunnel}

pub record Common : Type 0 where
  pub save : String
  pub cancel : String
  pub delete : String
  pub edit : String
  pub close : String
  pub copy : String
  pub copied : String
  pub open_label : String
  pub back : String
  pub search : String
  pub filter : String
  pub reset : String
  pub enable : String
  pub disable : String
  pub active : String
  pub ready : String
  pub offline : String
  pub connected : String
  pub connecting : String
  pub reconnecting : String
  pub disconnecting : String
  pub disconnected : String
  pub error : String
  pub none : String
  pub loading : String
  pub all : String
  pub success : String
  pub warning : String
  pub username : String
  pub password : String
  pub or : String
  pub coming_soon : String
  pub actions : String
  pub location : String
  pub isp : String
  pub vpn_profiles : String
  pub commands : String
  pub status_label : String
  pub type : String
  pub policy : String
  pub target : String

pub record Nav : Type 0 where
  pub menu : String
  pub dashboard : String
  pub profiles : String
  pub security : String
  pub logs : String
  pub settings : String
  pub support_and_docs : String
  pub collapse_sidebar : String
  pub expand_sidebar : String
  pub core_title : String
  pub daemon_status : String

pub record Titlebar : Type 0 where
  pub search_placeholder : String
  pub active : String
  pub reconnecting : String
  pub offline : String
  pub search_shortcut : String

pub record StatusBar : Type 0 where
  pub kill_switch_strict : String
  pub kill_switch_auto : String
  pub kill_switch_off : String
  pub ipv6_blocked : String
  pub ipv6_pass : String
  pub dns_secured : String

pub record Dashboard : Type 0 where
  pub hero_title_connected : String
  pub hero_title_disconnected : String
  pub hero_title_connecting : String
  pub click_to_disconnect : String
  pub click_to_connect : String
  pub select_profile_prompt : String
  pub status_secured : String
  pub status_unprotected : String
  pub public_ip : String
  pub virtual_ip : String
  pub gateway : String
  pub latency : String
  pub uptime : String
  pub download_speed : String
  pub upload_speed : String
  pub total_traffic : String
  pub quick_switch_title : String
  pub manage_all : String
  pub live_log_stream_title : String
  pub clear_stream : String
  pub no_active_tunnel : String
  pub daemon_offline : String
  pub retry_ipc : String
  pub live_ping : String
  pub active_rules : String

pub record Profiles : Type 0 where
  pub title : String
  pub subtitle : String
  pub add_profile : String
  pub import_ovpn : String
  pub search_placeholder : String
  pub all_protocols : String
  pub all_tags : String
  pub favorites_only : String
  pub no_profiles_found : String
  pub create_prompt : String
  pub server_host : String
  pub server_port : String
  pub protocol : String
  pub status : String
  pub last_connected : String
  pub never : String
  pub connect : String
  pub disconnect : String
  pub delete_confirm : String

pub record Security : Type 0 where
  pub title : String
  pub subtitle : String
  pub kill_switch_title : String
  pub kill_switch_desc : String
  pub kill_switch_enforced : String
  pub kill_switch_off : String
  pub ipv6_title : String
  pub ipv6_desc : String
  pub ipv6_protected : String
  pub webrtc_title : String
  pub webrtc_desc : String
  pub webrtc_protected : String
  pub lan_bypass_title : String
  pub lan_bypass_desc : String
  pub lan_bypass_active : String
  pub dns_leak_test_title : String
  pub dns_leak_test_desc : String
  pub run_dns_test : String

pub record Logs : Type 0 where
  pub title : String
  pub subtitle : String
  pub search_placeholder : String
  pub clear_logs : String
  pub copy_all : String
  pub auto_scroll : String
  pub filter_all : String
  pub filter_info : String
  pub filter_warn : String
  pub filter_error : String
  pub filter_debug : String
  pub no_logs_message : String
  pub export_diagnostics : String

pub record TranslationDictionary : Type 0 where
  pub common : Common
  pub nav : Nav
  pub titlebar : Titlebar
  pub status_bar : StatusBar
  pub dashboard : Dashboard
  pub profiles : Profiles
  pub security : Security
  pub logs : Logs
  pub settings : Settings
  pub split_tunnel : SplitTunnel
  pub modals : Modals
