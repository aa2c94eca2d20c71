-- ===== src/I18n/Vi.antt =====
-- packages/app/src/i18n/locales/vi.ts: the texts in Vietnamese.
pub mod Dialogs
pub mod Options
use vpnhub.I18n.Dictionary.{
  Common, Nav, Titlebar, StatusBar, Dashboard, Profiles, Security, Logs, TranslationDictionary,
}
use vpnhub.I18n.Vi.Dialogs.{modals}
use vpnhub.I18n.Vi.Options.{settings, split_tunnel}

unfoldable pub common : Common
common = record {
  save = "Lưu";
  cancel = "Hủy";
  delete = "Xóa";
  edit = "Chỉnh sửa";
  close = "Đóng";
  copy = "Sao chép";
  copied = "Đã sao chép!";
  open_label = "Mở";
  back = "Quay lại";
  search = "Tìm kiếm";
  filter = "Bộ lọc";
  reset = "Đặt lại";
  enable = "Bật";
  disable = "Tắt";
  active = "Hoạt động";
  ready = "Sẵn sàng";
  offline = "Ngoại tuyến";
  connected = "Đã kết nối";
  connecting = "Đang kết nối";
  reconnecting = "Đang kết nối lại";
  disconnecting = "Đang ngắt kết nối";
  disconnected = "Chưa kết nối";
  error = "Lỗi";
  none = "Không có";
  loading = "Đang tải...";
  all = "Tất cả";
  success = "Thành công";
  warning = "Cảnh báo";
  username = "Tên đăng nhập";
  password = "Mật khẩu";
  or = "HOẶC";
  coming_soon = "Sắp ra mắt";
  actions = "Thao tác";
  location = "Vị trí";
  isp = "Nhà mạng (ISP)";
  vpn_profiles = "CẤU HÌNH VPN";
  commands = "LỆNH & ĐIỀU HƯỚNG";
  status_label = "Trạng thái";
  type = "Loại";
  policy = "Chính sách";
  target = "Đích đến";
}

unfoldable pub nav : Nav
nav = record {
  menu = "Danh mục";
  dashboard = "Bảng điều khiển";
  profiles = "Thư viện cấu hình";
  security = "Bảo mật & Lá chắn";
  logs = "Nhật ký Console";
  settings = "Cài đặt";
  support_and_docs = "Hỗ trợ & Tài liệu";
  collapse_sidebar = "Thu gọn Sidebar (Ctrl+B)";
  expand_sidebar = "Mở rộng Sidebar (Ctrl+B)";
  core_title = "VPNHub Core";
  daemon_status = "Daemon";
}

unfoldable pub titlebar : Titlebar
titlebar = record {
  search_placeholder = "Tìm kiếm cấu hình, lệnh...";
  active = "Hoạt động";
  reconnecting = "Đang kết nối lại";
  offline = "Ngoại tuyến";
  search_shortcut = "⌘K";
}

unfoldable pub status_bar : StatusBar
status_bar = record {
  kill_switch_strict = "Kill Switch: THỰC THI NGHIÊM NGẶT";
  kill_switch_auto = "Kill Switch: TỰ ĐỘNG THẢ NỔI";
  kill_switch_off = "Kill Switch: ĐÃ TẮT";
  ipv6_blocked = "ĐÃ CHẶN";
  ipv6_pass = "BỎ QUA";
  dns_secured = "BẢO MẬT";
}

unfoldable pub dashboard : Dashboard
dashboard = record {
  hero_title_connected = "Đã bảo vệ & Đang kết nối";
  hero_title_disconnected = "Chưa kết nối & Chưa bảo vệ";
  hero_title_connecting = "Đang thiết lập đường hầm bảo mật...";
  click_to_disconnect = "Nhấn để ngắt kết nối";
  click_to_connect = "Nhấn để kết nối";
  select_profile_prompt = "Chọn một cấu hình bên dưới để bắt đầu kết nối";
  status_secured = "Đã bảo vệ";
  status_unprotected = "Chưa bảo vệ";
  public_ip = "IP Công khai";
  virtual_ip = "IP Ảo VPN";
  gateway = "Cổng Gateway";
  latency = "Độ trễ";
  uptime = "Thời gian chạy";
  download_speed = "Tải xuống";
  upload_speed = "Tải lên";
  total_traffic = "Tổng lưu lượng";
  quick_switch_title = "Chuyển nhanh cấu hình";
  manage_all = "Quản lý tất cả";
  live_log_stream_title = "Hoạt động & Đo kiểm thời gian thực";
  clear_stream = "Xóa luồng";
  no_active_tunnel = "Chưa có đường hầm nào kết nối";
  daemon_offline = "DAEMON NGOẠI TUYẾN";
  retry_ipc = "Thử lại ↺";
  live_ping = "Độ trễ";
  active_rules = "Quy tắc hoạt động";
}

unfoldable pub profiles : Profiles
profiles = record {
  title = "Thư viện cấu hình";
  subtitle = "Quản lý các cấu hình máy chủ WireGuard và OpenVPN";
  add_profile = "Thêm cấu hình";
  import_ovpn = "Nhập file .ovpn";
  search_placeholder = "Tìm cấu hình theo tên, quốc gia, thẻ...";
  all_protocols = "Tất cả giao thức";
  all_tags = "Tất cả thẻ";
  favorites_only = "Chỉ mục yêu thích";
  no_profiles_found = "Không tìm thấy cấu hình VPN nào";
  create_prompt = "Thêm mới hoặc nhập file để bắt đầu";
  server_host = "Máy chủ Host";
  server_port = "Cổng";
  protocol = "Giao thức";
  status = "Trạng thái";
  last_connected = "Lần kết nối cuối";
  never = "Chưa từng";
  connect = "Kết nối";
  disconnect = "Ngắt kết nối";
  delete_confirm = "Bạn có chắc chắn muốn xóa cấu hình này không?";
}

unfoldable pub security : Security
security = record {
  title = "Trung tâm Bảo mật & Lá chắn";
  subtitle = "Cấu hình tường lửa chống rò rỉ, ngắt kết nối tự động và ngoại lệ mạng nội bộ";
  kill_switch_title = "Kill Switch (Thực thi tường lửa nghiêm ngặt)";
  kill_switch_desc =
      "Chặn toàn bộ lưu lượng không mã hóa nếu VPN bị ngắt đột ngột để chống lộ dữ liệu";
  kill_switch_enforced = "ĐANG THỰC THI";
  kill_switch_off = "TẮT";
  ipv6_title = "Lá chắn rò rỉ IPv6 (Blackhole)";
  ipv6_desc = "Chuyển hướng vô hiệu hóa IPv6 gốc để đảm bảo không rò rỉ dữ liệu ngoài đường hầm";
  ipv6_protected = "Đã bảo vệ";
  webrtc_title = "Lá chắn WebRTC STUN";
  webrtc_desc = "Ngăn chặn trình duyệt rò rỉ địa chỉ IP thật qua các gói tin STUN ra ngoài";
  webrtc_protected = "Đã bảo vệ";
  lan_bypass_title = "Cho phép mạng cục bộ (LAN Bypass)";
  lan_bypass_desc =
      "Cho phép truy cập máy in, ổ cứng mạng NAS và router trong mạng nội bộ gia đình/văn phòng";
  lan_bypass_active = "Hoạt động";
  dns_leak_test_title = "Kiểm tra rò rỉ DNS";
  dns_leak_test_desc = "Chạy chẩn đoán tự động phát hiện rò rỉ máy chủ DNS toàn cầu";
  run_dns_test = "Kiểm tra rò rỉ";
}

unfoldable pub logs : Logs
logs = record {
  title = "Nhật ký Console & Chẩn đoán";
  subtitle = "Sự kiện engine thời gian thực, bắt tay giao thức và log phân tích";
  search_placeholder = "Tìm nhật ký theo từ khóa, đích đến hoặc thông báo lỗi...";
  clear_logs = "Xóa nhật ký";
  copy_all = "Sao chép tất cả";
  auto_scroll = "Tự động cuộn";
  filter_all = "TẤT CẢ";
  filter_info = "THÔNG TIN";
  filter_warn = "CẢNH BÁO";
  filter_error = "LỖI";
  filter_debug = "GỠ LỖI";
  no_logs_message = "Chưa có sự kiện console nào được ghi lại";
  export_diagnostics = "Xuất nhật ký";
}

abbrev pub vi : TranslationDictionary
vi = record {
  common = common;
  nav = nav;
  titlebar = titlebar;
  status_bar = status_bar;
  dashboard = dashboard;
  profiles = profiles;
  security = security;
  logs = logs;
  settings = settings;
  split_tunnel = split_tunnel;
  modals = modals;
}
