-- ===== src/I18n/Dictionary/Dialogs.antt =====
-- packages/app/src/i18n/types.ts: the texts of the dialogs.
use vpnhub.Prelude.{String}

pub record Modals : Type 0 where
  pub mfa_title : String
  pub mfa_subtitle : String
  pub mfa_placeholder : String
  pub mfa_confirm : String
  pub mfa_username : String
  pub mfa_password : String
  pub mfa_code_label : String
  pub dns_leak_title : String
  pub dns_leak_desc : String
  pub dns_leak_testing : String
  pub dns_leak_passed : String
  pub dns_leak_failed : String
  pub dns_servers_found : String
  pub dns_public_ip : String
  pub dns_isp : String
  pub dns_location : String
  pub new_profile_title : String
  pub new_profile_wireguard_title : String
  pub new_profile_wireguard_desc : String
  pub new_profile_openvpn_title : String
  pub new_profile_openvpn_desc : String
  pub new_profile_import_title : String
  pub new_profile_import_desc : String
  pub import_dropzone_text : String
  pub import_dropzone_subtext : String
  pub dropzone_release : String
  pub dropzone_drop_now : String
  pub dropzone_analyzing : String
  pub dropzone_extracting : String
  pub invalid_file_type : String
  pub failed_read_file : String
  pub failed_parse_file : String
  pub export_diag_title : String
  pub export_diag_subtitle : String
  pub export_download_json : String
  pub export_copy_text : String
  pub export_include_logs : String
  pub export_include_routes : String
  pub export_include_dns : String
  pub export_sanitize_private : String
  pub export_compiling : String
  pub qr_title : String
  pub qr_subtitle : String
  pub qr_copy_base64 : String
  pub proto_select_import_title : String
  pub proto_select_add_title : String
  pub proto_select_import_desc : String
  pub proto_select_add_desc : String
  pub proto_wg_title : String
  pub proto_wg_badge_import : String
  pub proto_wg_badge_add : String
  pub proto_wg_desc_import : String
  pub proto_wg_desc_add : String
  pub proto_ovpn_title : String
  pub proto_ovpn_badge_import : String
  pub proto_ovpn_badge_add : String
  pub proto_ovpn_desc_import : String
  pub proto_ovpn_desc_add : String
  pub import_wg_title : String
  pub import_ovpn_title : String
  pub import_wg_dropzone : String
  pub import_ovpn_dropzone : String
  pub import_wg_help : String
  pub import_ovpn_help : String
  pub import_click_browse : String
  pub err_expected_wg : String
  pub err_expected_ovpn : String
  pub add_app_title : String
  pub add_app_detected : String
  pub add_app_name_label : String
  pub add_app_name_placeholder : String
  pub add_app_path_label : String
  pub add_app_path_placeholder : String
  pub add_app_policy_label : String
  pub add_app_bypass_label : String
  pub add_app_route_label : String
  pub add_app_submit_btn : String
  pub cert_manager_title : String
  pub tab_root_ca : String
  pub tab_tls_channel : String
  pub tab_client_identity : String
  pub tab_advanced : String
  pub root_ca_title : String
  pub root_ca_loaded : String
  pub root_ca_default_system : String
  pub import_crt_pem : String
  pub root_ca_pem_label : String
  pub root_ca_pem_placeholder : String
  pub tls_mode_label : String
  pub tls_mode_desc : String
  pub tls_mode_none : String
  pub tls_mode_auth : String
  pub tls_mode_crypt : String
  pub tls_auth_static_key_title : String
  pub tls_key_loaded : String
  pub no_key_loaded : String
  pub import_key_file : String
  pub tls_auth_key_content_label : String
  pub key_direction_label : String
  pub key_direction_desc : String
  pub key_dir_none : String
  pub key_dir0 : String
  pub key_dir1 : String
  pub tls_crypt_key_title : String
  pub tls_crypt_key_content_label : String
  pub client_identity_desc : String
  pub client_cert_title : String
  pub client_cert_loaded : String
  pub no_cert_loaded : String
  pub import_crt : String
  pub client_key_title : String
  pub client_key_loaded : String
  pub no_private_key_loaded : String
  pub import_key : String
  pub verify_server_cert_title : String
  pub verify_server_cert_desc : String
  pub reneg_sec_label : String
  pub reneg_sec_placeholder : String
  pub reneg_sec_desc : String
  pub apply_cert_settings : String
  pub wireguard_coming_soon_error : String
  pub create_wg_title : String
  pub create_ovpn_title : String
  pub edit_wg_title : String
  pub edit_ovpn_title : String
  pub server_settings_title : String
  pub profile_name_label : String
  pub profile_name_wg_placeholder : String
  pub profile_name_ovpn_placeholder : String
  pub transport_proto_label : String
  pub server_host_label : String
  pub server_host_placeholder : String
  pub port_label : String
  pub virtual_ip_label : String
  pub virtual_ip_desc : String
  pub intranet_only_title : String
  pub intranet_only_active_desc : String
  pub intranet_only_default_desc : String
  pub custom_subnets_label : String
  pub custom_subnets_placeholder : String
  pub custom_subnets_desc : String
  pub custom_subnets_hint : String
  pub keys_auth_title : String
  pub wg_key_exchange_badge : String
  pub ovpn_auth2fa_badge : String
  pub wg_priv_key_label : String
  pub wg_priv_key_placeholder : String
  pub wg_priv_key_desc : String
  pub wg_psk_label : String
  pub wg_psk_placeholder : String
  pub wg_psk_desc : String
  pub ovpn_username_label : String
  pub ovpn_username_placeholder : String
  pub ovpn_auth_mode_label : String
  pub auth_mode_static : String
  pub auth_mode_totp_auto : String
  pub auth_mode_dynamic_prompt : String
  pub base_password_label : String
  pub password_label : String
  pub base_password_placeholder : String
  pub password_placeholder : String
  pub totp_secret_label : String
  pub totp_secret_placeholder : String
  pub totp_secret_desc : String
  pub totp_format_label : String
  pub totp_format_append : String
  pub totp_format_prefix : String
  pub totp_format_only : String
  pub live_totp_label : String
  pub active_otp_badge : String
  pub dynamic_prompt_hint : String
  pub tls_summary_title : String
  pub tls_summary_desc : String
  pub btn_config_security : String
  pub btn_setup_certificates : String
  pub badge_custom_ca : String
  pub badge_system_ca : String
  pub badge_tls_crypt : String
  pub badge_tls_auth : String
  pub badge_standard_tls : String
  pub badge_client_cert_key : String
  pub badge_user_pass_auth : String
  pub badge_server_verify : String
  pub btn_save_changes : String
  pub btn_create_profile : String
