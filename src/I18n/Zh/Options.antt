-- ===== src/I18n/Zh/Options.antt =====
-- packages/app/src/i18n/locales/zh.ts: the texts of the settings and of split tunnelling in Chinese.
use vpnhub.I18n.Dictionary.Options.{Settings, SplitTunnel}

unfoldable pub settings : Settings
settings = record {
  title = "应用设置";
  subtitle = "配置桌面客户端行为、启动偏好、语言和系统集成";
  language_card_title = "语言与区域设置";
  language_select_label = "界面显示语言";
  language_select_desc = "选择您偏好的 VPNHub 客户端显示语言";
  desktop_behavior_title = "桌面与窗口行为";
  launch_at_startup = "开机自动启动";
  launch_at_startup_desc = "在操作系统启动时自动运行 VPNHub";
  start_minimized = "启动时最小化到系统托盘";
  start_minimized_desc = "开机启动时在托盘后台运行，不显示主窗口";
  auto_connect_on_launch = "启动时自动连接";
  auto_connect_on_launch_desc = "打开应用时自动连接到常用或上次连接的配置";
  minimize_to_tray_on_close = "关闭时最小化到托盘";
  minimize_to_tray_on_close_desc = "点击关闭按钮时隐藏至系统托盘，保持 VPN 隧道稳定在线";
  network_integration_title = "网络与系统集成";
  auto_reconnect = "网络切换时自动重连";
  auto_reconnect_desc = "当 Wi-Fi 重新连接或网卡切换时自动恢复隧道连接";
  desktop_notifications = "桌面系统通知";
  desktop_notifications_desc = "在连接、断开连接及安全警告时发送系统通知";
  spotlight_title = "全局快捷搜索面板 (Spotlight)";
  spotlight_desc = "使用全局快捷键快速切换配置和执行指令";
  spotlight_button = "打开 (⌘K)";
  diagnostics_title = "核心诊断与加密存储库";
  engine_status = "引擎状态：高完整性";
  cipher_suite_title = "加密算法套件";
  cipher_suite_desc = "ChaCha20-Poly1305 / AES-GCM + 后量子 ML-KEM";
  ipc_daemon_title = "IPC 守护进程";
  ipc_daemon_desc = "Unix 域套接字 • 延迟：{latency}ms";
  encrypted_vault_title = "安全加密数据保险库";
  encrypted_vault_desc = "AES-256-GCM 硬件级安全密钥，具备内存自动擦除 (Zeroize)";
  client_version_text = "VPNHub 桌面客户端 v0.1.2";
  reset_defaults = "恢复默认设置";
  settings_restored_title = "已恢复设置";
  settings_restored_msg = "所有应用设置已重置为默认初始值。";
  docs_and_github = "文档与 GitHub";
  core_ready = "v{version} 就绪";
  core_offline = "离线";
  vault_aes = "加密库：AES-256-GCM";
}

unfoldable pub split_tunnel : SplitTunnel
split_tunnel = record {
  title = "分流策略管理器 (Split Tunneling)";
  subtitle = "精细控制哪些应用程序、CIDR 网段和域名走 VPN 或直连网络";
  tab_apps = "应用分流规则";
  tab_ip_domain = "IP 网段与域名";
  apps_section_title = "应用程序特定路由规则";
  apps_section_desc = "指定可执行程序发出的数据包将遵循专门的路由表策略";
  btn_add_app_rule = "添加应用规则";
  col_status = "状态";
  col_app = "应用";
  col_path = "可执行文件路径";
  col_policy = "路由策略";
  col_actions = "操作";
  route_vpn_badge = "走 VPN 加密";
  bypass_badge = "绕过 VPN (直连)";
  add_ip_section_title = "添加子网 CIDR 或域名规则";
  target_label = "目标 CIDR / 通配符域名 (*.domain)";
  target_placeholder = "10.0.0.0/8 或 *.corp.domain.com";
  type_label = "类型";
  type_cidr = "IPv4/IPv6 CIDR 子网";
  type_domain = "域名匹配模式";
  policy_label = "路由模式";
  policy_route_vpn = "走 VPN 加密";
  policy_bypass = "绕过 VPN (直连)";
  desc_label = "描述 / 用途";
  desc_placeholder = "例如：AWS VPC 内部环境";
  btn_add_rule = "添加";
  col_target = "目标地址";
  col_type = "类型";
  col_desc = "描述";
}
