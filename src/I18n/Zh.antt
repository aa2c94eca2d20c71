-- ===== src/I18n/Zh.antt =====
-- packages/app/src/i18n/locales/zh.ts: the texts in Chinese.
pub mod Dialogs
pub mod Options
use vpnhub.I18n.Dictionary.{
  Common, Nav, Titlebar, StatusBar, Dashboard, Profiles, Security, Logs, TranslationDictionary,
}
use vpnhub.I18n.Zh.Dialogs.{modals}
use vpnhub.I18n.Zh.Options.{settings, split_tunnel}

unfoldable pub common : Common
common = record {
  save = "保存";
  cancel = "取消";
  delete = "删除";
  edit = "编辑";
  close = "关闭";
  copy = "复制";
  copied = "已复制！";
  open_label = "打开";
  back = "返回";
  search = "搜索";
  filter = "筛选";
  reset = "重置";
  enable = "启用";
  disable = "禁用";
  active = "活跃";
  ready = "就绪";
  offline = "离线";
  connected = "已连接";
  connecting = "正在连接";
  reconnecting = "正在重新连接";
  disconnecting = "正在断开连接";
  disconnected = "未连接";
  error = "错误";
  none = "无";
  loading = "加载中...";
  all = "全部";
  success = "成功";
  warning = "警告";
  username = "用户名";
  password = "密码";
  or = "或";
  coming_soon = "即将推出";
  actions = "操作";
  location = "位置";
  isp = "运营商 (ISP)";
  vpn_profiles = "VPN 配置文件";
  commands = "快捷命令与视图";
  status_label = "状态";
  type = "类型";
  policy = "策略";
  target = "目标地址";
}

unfoldable pub nav : Nav
nav = record {
  menu = "菜单";
  dashboard = "控制面板";
  profiles = "配置库";
  security = "安全与防护";
  logs = "运行日志";
  settings = "设置";
  support_and_docs = "支持与文档";
  collapse_sidebar = "折叠侧边栏 (Ctrl+B)";
  expand_sidebar = "展开侧边栏 (Ctrl+B)";
  core_title = "VPNHub 核心";
  daemon_status = "守护进程";
}

unfoldable pub titlebar : Titlebar
titlebar = record {
  search_placeholder = "搜索配置、快捷命令...";
  active = "活跃";
  reconnecting = "重连中";
  offline = "离线";
  search_shortcut = "⌘K";
}

unfoldable pub status_bar : StatusBar
status_bar = record {
  kill_switch_strict = "Kill Switch: 严格强制执行";
  kill_switch_auto = "Kill Switch: 自动断开";
  kill_switch_off = "Kill Switch: 已禁用";
  ipv6_blocked = "已拦截";
  ipv6_pass = "直通";
  dns_secured = "安全防护";
}

unfoldable pub dashboard : Dashboard
dashboard = record {
  hero_title_connected = "受保护且已连接";
  hero_title_disconnected = "未连接且无保护";
  hero_title_connecting = "正在建立安全加密隧道...";
  click_to_disconnect = "点击断开连接";
  click_to_connect = "点击建立连接";
  select_profile_prompt = "从下方选择一个配置以开始连接";
  status_secured = "安全加密";
  status_unprotected = "未受保护";
  public_ip = "公网 IP";
  virtual_ip = "VPN 虚拟 IP";
  gateway = "网关";
  latency = "延迟";
  uptime = "运行时间";
  download_speed = "下载速度";
  upload_speed = "上传速度";
  total_traffic = "总流量";
  quick_switch_title = "快速切换配置";
  manage_all = "管理所有配置";
  live_log_stream_title = "实时活动与隧道遥测";
  clear_stream = "清空日志";
  no_active_tunnel = "当前无活跃连接隧道";
  daemon_offline = "守护进程离线";
  retry_ipc = "重试 ↺";
  live_ping = "延迟";
  active_rules = "生效规则";
}

unfoldable pub profiles : Profiles
profiles = record {
  title = "配置库";
  subtitle = "管理 WireGuard 和 OpenVPN 服务器配置文件";
  add_profile = "新建配置";
  import_ovpn = "导入 .ovpn";
  search_placeholder = "按名称、国家或标签搜索...";
  all_protocols = "所有协议";
  all_tags = "所有标签";
  favorites_only = "仅收藏";
  no_profiles_found = "未找到 VPN 配置文件";
  create_prompt = "添加或导入配置以开始使用";
  server_host = "服务器地址";
  server_port = "端口";
  protocol = "协议";
  status = "状态";
  last_connected = "上次连接";
  never = "从不";
  connect = "连接";
  disconnect = "断开";
  delete_confirm = "确定要删除此配置吗？";
}

unfoldable pub security : Security
security = record {
  title = "安全与防护中心";
  subtitle = "配置防火墙防泄漏、应急切断开关及局域网豁免";
  kill_switch_title = "网络切断开关 (Kill Switch 防火墙强制执行)";
  kill_switch_desc = "当 VPN 意外断开时阻止所有未加密流量以防止数据泄漏";
  kill_switch_enforced = "已强制执行";
  kill_switch_off = "已关闭";
  ipv6_title = "IPv6 黑洞防护盾";
  ipv6_desc = "空路由重定向原生 IPv6 流量，杜绝双栈流量绕过隧道泄漏";
  ipv6_protected = "受保护";
  webrtc_title = "WebRTC STUN 防护盾";
  webrtc_desc = "防止浏览器通过外部 STUN 请求泄露物理真实 IP 地址";
  webrtc_protected = "受保护";
  lan_bypass_title = "智能局域网直连 (LAN Bypass)";
  lan_bypass_desc = "允许访问家庭/办公室本地物理设备（打印机、NAS 存储、路由器）";
  lan_bypass_active = "已启用";
  dns_leak_test_title = "DNS 泄漏检测";
  dns_leak_test_desc = "针对全球解析服务器运行自动化 DNS 泄漏诊断";
  run_dns_test = "运行泄漏测试";
}

unfoldable pub logs : Logs
logs = record {
  title = "实时控制台与诊断日志";
  subtitle = "实时引擎事件、协议握手与故障诊断日志";
  search_placeholder = "按关键词、目标或错误信息搜索...";
  clear_logs = "清空日志";
  copy_all = "复制全部";
  auto_scroll = "自动滚动";
  filter_all = "全部";
  filter_info = "信息";
  filter_warn = "警告";
  filter_error = "错误";
  filter_debug = "调试";
  no_logs_message = "暂无记录的控制台事件";
  export_diagnostics = "导出日志";
}

abbrev pub zh : TranslationDictionary
zh = record {
  common = common;
  nav = nav;
  titlebar = titlebar;
  status_bar = status_bar;
  dashboard = dashboard;
  profiles = profiles;
  security = security;
  logs = logs;
  settings = settings;
  split_tunnel = split_tunnel;
  modals = modals;
}
