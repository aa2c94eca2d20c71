-- ===== src/I18n/Zh/Dialogs.antt =====
-- packages/app/src/i18n/locales/zh.ts: the texts of the dialogs in Chinese.
use vpnhub.I18n.Dictionary.Dialogs.{Modals}

unfoldable pub modals : Modals
modals = record {
  mfa_title = "双重身份验证 (2FA / TOTP)";
  mfa_subtitle = "输入动态 6 位 TOTP / MFA 验证码以建立 VPN 连接。";
  mfa_placeholder = "000000";
  mfa_confirm = "验证并连接";
  mfa_username = "用户名";
  mfa_password = "密码";
  mfa_code_label = "TOTP / MFA 验证码";
  dns_leak_title = "自动化 DNS 泄漏测试";
  dns_leak_desc = "正在探测全球解析服务器网络，以检测绕过加密隧道的 DNS 泄漏。";
  dns_leak_testing = "正在检测 DNS 解析器泄漏...";
  dns_leak_passed = "未检测到 DNS 泄漏 • 您的所有流量严格通过私有 VPN 解析器加密传输。";
  dns_leak_failed = "检测到 DNS 泄漏 • 观察到隧道外部存在未加密的明文 DNS 请求。";
  dns_servers_found = "检测到的解析器";
  dns_public_ip = "解析器 IP 地址";
  dns_isp = "运营商 (ISP)";
  dns_location = "地理位置";
  new_profile_title = "创建 VPN 连接配置";
  new_profile_wireguard_title = "WireGuard 协议";
  new_profile_wireguard_desc = "基于 ChaCha20 加密的极速现代 VPN 隧道，采用轻量化密钥对。";
  new_profile_openvpn_title = "OpenVPN 协议";
  new_profile_openvpn_desc = "行业标准 SSL/TLS 企业级 VPN，全面支持多因素身份验证。";
  new_profile_import_title = "导入已有配置文件";
  new_profile_import_desc = "直接拖拽导入 .ovpn、.conf 或客户端证书包。";
  import_dropzone_text = "将 .ovpn 配置文件拖至此处，或点击浏览文件";
  import_dropzone_subtext = "支持包含内嵌证书和密钥的标准 OpenVPN 统一格式 (.ovpn)";
  dropzone_release = "释放文件以导入";
  dropzone_drop_now = "立即拖放文件导入";
  dropzone_analyzing = "正在分析并解析配置文件...";
  dropzone_extracting = "正在提取 TLS 证书、密钥及隧道节点：";
  invalid_file_type = "无效的文件类型。请上传有效的 .ovpn 或 .conf 配置文件。";
  failed_read_file = "无法读取配置文件，请重试。";
  failed_parse_file = "解析 VPN 配置文件失败。";
  export_diag_title = "导出诊断日志";
  export_diag_subtitle = "下载或复制加密的技术诊断数据和隧道日志，便于故障排除。";
  export_download_json = "下载 JSON 数据包";
  export_copy_text = "复制到剪贴板";
  export_include_logs = "包含最近 200 条守护进程跟踪日志";
  export_include_routes = "包含内核活动路由表 (`ip route`)";
  export_include_dns = "包含系统 DNS 解析缓存状态";
  export_sanitize_private = "自动脱敏/擦除私有密码及加密密钥";
  export_compiling = "正在打包并加密诊断数据包...";
  qr_title = "与移动设备同步配置";
  qr_subtitle = "在 VPNHub iOS 或 Android 应用中扫描此二维码以即时导入配置。";
  qr_copy_base64 = "复制 Base64 配置字符串";
  proto_select_import_title = "导入配置 - 选择协议";
  proto_select_add_title = "新建配置 - 选择协议";
  proto_select_import_desc = "选择要导入的配置文件类型：";
  proto_select_add_desc = "选择此连接配置使用的 VPN 协议引擎：";
  proto_wg_title = "WireGuard";
  proto_wg_badge_import = ".conf 文件";
  proto_wg_badge_add = "UDP 点对点";
  proto_wg_desc_import = "导入标准 WireGuard 配置文件 (.conf)";
  proto_wg_desc_add = "极速吞吐量、现代密码学与最低网络延迟。";
  proto_ovpn_title = "OpenVPN";
  proto_ovpn_badge_import = ".ovpn / .conf";
  proto_ovpn_badge_add = "TCP / UDP + 2FA";
  proto_ovpn_desc_import = "导入 OpenVPN 客户端包 (.ovpn / .conf)";
  proto_ovpn_desc_add = "支持 TCP/UDP、2FA 动态码及 TLS 证书的企业级协议。";
  import_wg_title = "导入 WireGuard 配置 (.conf)";
  import_ovpn_title = "导入 OpenVPN 配置 (.ovpn)";
  import_wg_dropzone = "将 WireGuard .conf 文件拖放到此处";
  import_ovpn_dropzone = "将 OpenVPN .ovpn 或 .conf 文件拖放到此处";
  import_wg_help = "支持标准 WireGuard 配置格式 (.conf)，最大 5MB";
  import_ovpn_help = "支持 OpenVPN 2.x/3.x 统一配置格式 (.ovpn)，最大 5MB";
  import_click_browse = "或点击从电脑中浏览选择";
  err_expected_wg = "所选文件似乎是 OpenVPN 配置文件。请选择包含 [Interface] 的有效 WireGuard (.conf) 文件。";
  err_expected_ovpn = "所选文件似乎是 WireGuard 配置文件。请选择有效的 OpenVPN (.ovpn) 文件。";
  add_app_title = "添加应用程序分流规则";
  add_app_detected = "系统已安装的应用程序";
  add_app_name_label = "应用程序名称";
  add_app_name_placeholder = "例如：Firefox 浏览器";
  add_app_path_label = "可执行文件 / 二进制路径";
  add_app_path_placeholder = "/usr/bin/... 或 C:\\Program Files\\...";
  add_app_policy_label = "路由策略";
  add_app_bypass_label = "绕过 VPN (直接连接互联网)";
  add_app_route_label = "通过 VPN 加密隧道传输";
  add_app_submit_btn = "添加规则";
  cert_manager_title = "TLS 与证书安全管理器";
  tab_root_ca = "根证书 CA";
  tab_tls_channel = "TLS 控制通道";
  tab_client_identity = "客户端身份";
  tab_advanced = "高级设置";
  root_ca_title = "证书颁发机构 (<ca>)";
  root_ca_loaded = "已加载自定义根证书 CA ({length} 个字符)";
  root_ca_default_system = "将使用操作系统默认的根证书颁发机构包。";
  import_crt_pem = "导入 .crt / .pem";
  root_ca_pem_label = "根证书 CA PEM 内容";
  root_ca_pem_placeholder = "-----BEGIN CERTIFICATE-----\n...\n-----END CERTIFICATE-----";
  tls_mode_label = "TLS 控制通道保护模式";
  tls_mode_desc = "提供额外的 HMAC 签名验证或全控制通道加密层。";
  tls_mode_none = "无 (标准 OpenVPN TLS 握手)";
  tls_mode_auth = "TLS-Auth (<tls-auth>) - 静态 HMAC 签名";
  tls_mode_crypt = "TLS-Crypt (<tls-crypt>) - 全控制通道加密";
  tls_auth_static_key_title = "TLS-Auth 静态密钥";
  tls_key_loaded = "已加载静态密钥 ({length} 字符)";
  no_key_loaded = "未加载密钥";
  import_key_file = "导入 .key 文件";
  tls_auth_key_content_label = "TLS Auth 密钥内容 (<tls-auth>)";
  key_direction_label = "密钥方向 (key-direction)";
  key_direction_desc = "必须与服务器端配置严格匹配。";
  key_dir_none = "无 / 双向";
  key_dir0 = "0 (客户端 / 传入)";
  key_dir1 = "1 (服务器 / 发送)";
  tls_crypt_key_title = "TLS-Crypt 对称密钥";
  tls_crypt_key_content_label = "TLS Crypt 密钥内容 (<tls-crypt>)";
  client_identity_desc = "双向 TLS (mTLS) 或基于证书的客户端身份验证所需。";
  client_cert_title = "客户端证书 (<cert>)";
  client_cert_loaded = "已加载客户端证书 ({length} 字符)";
  no_cert_loaded = "未提供证书";
  import_crt = "导入 .crt";
  client_key_title = "客户端私钥 (<key>)";
  client_key_loaded = "已加载客户端私钥 ({length} 字符)";
  no_private_key_loaded = "未提供私钥";
  import_key = "导入 .key";
  verify_server_cert_title = "验证服务器证书";
  verify_server_cert_desc = "强制执行服务器证书校验标识 (remote-cert-tls server)";
  reneg_sec_label = "重新协商周期 (reneg-sec)";
  reneg_sec_placeholder = "例如：设为 0 以禁用数据通道重协商";
  reneg_sec_desc = "默认值：3600 秒。若您的云 VPN 服务器禁用了重协商请设为 0。";
  apply_cert_settings = "应用证书与安全配置";
  wireguard_coming_soon_error = "WireGuard 协议正在开发中（即将推出），请导入 OpenVPN (.ovpn) 配置文件。";
  create_wg_title = "创建 WireGuard 配置";
  create_ovpn_title = "创建 OpenVPN 配置";
  edit_wg_title = "编辑 WireGuard 配置";
  edit_ovpn_title = "编辑 OpenVPN 配置";
  server_settings_title = "服务器与连接设置";
  profile_name_label = "配置名称";
  profile_name_wg_placeholder = "例如：WireGuard 香港节点";
  profile_name_ovpn_placeholder = "例如：OpenVPN 公司内部环境";
  transport_proto_label = "传输协议";
  server_host_label = "服务器主机 / IP";
  server_host_placeholder = "vpn.example.com 或 103.21.244.18";
  port_label = "端口";
  virtual_ip_label = "分配的虚拟 IP (CIDR)";
  virtual_ip_desc = "为此 WireGuard 隧道节点分配的静态内网 IP";
  intranet_only_title = "仅将此连接用于其网络上的资源 (内网分流)";
  intranet_only_active_desc = "分流已启用：仅路由内部专用子网，常规互联网走本地物理连接";
  intranet_only_default_desc = "默认：遵循服务器推送策略（服务器要求时作为默认网关）";
  custom_subnets_label = "自定义企业内网子网 (CIDR)";
  custom_subnets_placeholder = "例如：10.0.0.0/8, 192.168.10.0/24, 172.16.0.0/12";
  custom_subnets_desc = "需要路由到此 VPN 隧道的附加内部私有网段（逗号分隔）";
  custom_subnets_hint = "💡 服务器推送的网段及分配的隧道虚拟 IP 已自动包含。";
  keys_auth_title = "密钥与身份验证";
  wg_key_exchange_badge = "WireGuard 密钥交换";
  ovpn_auth2fa_badge = "OpenVPN 认证与 2FA";
  wg_priv_key_label = "WireGuard 客户端私钥 (Base64)";
  wg_priv_key_placeholder = "客户端节点私钥 (例如：aGVwaGFlc3R1cy...)";
  wg_priv_key_desc = "已在 AES-256-GCM 硬件保险库中安全加密存储";
  wg_psk_label = "预共享密钥 PSK (后量子防护盾)";
  wg_psk_placeholder = "可选的 256 位对称 PSK 密钥";
  wg_psk_desc = "抵御量子计算攻击的附加对称加密保护层";
  ovpn_username_label = "用户名";
  ovpn_username_placeholder = "输入 VPN 账号用户名";
  ovpn_auth_mode_label = "密码与 2FA / TOTP 验证模式";
  auth_mode_static = "静态密码";
  auth_mode_totp_auto = "自动计算 TOTP";
  auth_mode_dynamic_prompt = "连接时动态弹窗";
  base_password_label = "基础密码";
  password_label = "密码";
  base_password_placeholder = "基础密码（或留空在连接时输入）";
  password_placeholder = "输入密码";
  totp_secret_label = "TOTP 密钥 Secret (Base32)";
  totp_secret_placeholder = "例如：JBSWY3DPEHPK3PXP";
  totp_secret_desc = "安全加密存储在 AES-256-GCM 数据保险库中";
  totp_format_label = "密码组合格式";
  totp_format_append = "基础密码 + TOTP 动态码 (例如：MyPass123456)";
  totp_format_prefix = "TOTP 动态码 + 基础密码 (例如：123456MyPass)";
  totp_format_only = "仅发送 TOTP 动态码 (例如：123456)";
  live_totp_label = "实时验证器动态码：";
  active_otp_badge = "动态验证码有效";
  dynamic_prompt_hint = "💡 连接时，VPNHub 将弹出快捷 2FA 对话框以供输入实时动态验证码。";
  tls_summary_title = "TLS 与证书安全";
  tls_summary_desc = "根证书 CA、TLS 控制通道密钥及客户端证书验证";
  btn_config_security = "配置证书安全";
  btn_setup_certificates = "设置证书";
  badge_custom_ca = "✓ 自定义根证书 CA";
  badge_system_ca = "系统默认根证书";
  badge_tls_crypt = "✓ 已启用 TLS-Crypt";
  badge_tls_auth = "✓ TLS-Auth (方向: {direction})";
  badge_standard_tls = "标准 TLS 握手";
  badge_client_cert_key = "✓ 客户端证书与私钥";
  badge_user_pass_auth = "账号密码认证";
  badge_server_verify = "服务器验证 (已启用)";
  btn_save_changes = "保存更改";
  btn_create_profile = "创建配置";
}
