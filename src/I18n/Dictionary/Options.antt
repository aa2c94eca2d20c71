-- ===== src/I18n/Dictionary/Options.antt =====
-- packages/app/src/i18n/types.ts: the texts of the settings and of split tunnelling.
use vpnhub.Prelude.{String}

pub record Settings : Type 0 where
  pub title : String
  pub subtitle : String
  pub language_card_title : String
  pub language_select_label : String
  pub language_select_desc : String
  pub desktop_behavior_title : String
  pub launch_at_startup : String
  pub launch_at_startup_desc : String
  pub start_minimized : String
  pub start_minimized_desc : String
  pub auto_connect_on_launch : String
  pub auto_connect_on_launch_desc : String
  pub minimize_to_tray_on_close : String
  pub minimize_to_tray_on_close_desc : String
  pub network_integration_title : String
  pub auto_reconnect : String
  pub auto_reconnect_desc : String
  pub desktop_notifications : String
  pub desktop_notifications_desc : String
  pub spotlight_title : String
  pub spotlight_desc : String
  pub spotlight_button : String
  pub diagnostics_title : String
  pub engine_status : String
  pub cipher_suite_title : String
  pub cipher_suite_desc : String
  pub ipc_daemon_title : String
  pub ipc_daemon_desc : String
  pub encrypted_vault_title : String
  pub encrypted_vault_desc : String
  pub client_version_text : String
  pub reset_defaults : String
  pub settings_restored_title : String
  pub settings_restored_msg : String
  pub docs_and_github : String
  pub core_ready : String
  pub core_offline : String
  pub vault_aes : String

pub record SplitTunnel : Type 0 where
  pub title : String
  pub subtitle : String
  pub tab_apps : String
  pub tab_ip_domain : String
  pub apps_section_title : String
  pub apps_section_desc : String
  pub btn_add_app_rule : String
  pub col_status : String
  pub col_app : String
  pub col_path : String
  pub col_policy : String
  pub col_actions : String
  pub route_vpn_badge : String
  pub bypass_badge : String
  pub add_ip_section_title : String
  pub target_label : String
  pub target_placeholder : String
  pub type_label : String
  pub type_cidr : String
  pub type_domain : String
  pub policy_label : String
  pub policy_route_vpn : String
  pub policy_bypass : String
  pub desc_label : String
  pub desc_placeholder : String
  pub btn_add_rule : String
  pub col_target : String
  pub col_type : String
  pub col_desc : String
