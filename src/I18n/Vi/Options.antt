-- ===== src/I18n/Vi/Options.antt =====
-- packages/app/src/i18n/locales/vi.ts: the texts of the settings and of split tunnelling in Vietnamese.
use vpnhub.I18n.Dictionary.Options.{Settings, SplitTunnel}

unfoldable pub settings : Settings
settings = record {
  title = "Cài đặt ứng dụng";
  subtitle = "Cấu hình hành vi máy khách, tùy chọn khởi động, ngôn ngữ và tích hợp hệ thống";
  language_card_title = "Ngôn ngữ & Tùy chọn khu vực";
  language_select_label = "Ngôn ngữ hiển thị";
  language_select_desc = "Lựa chọn ngôn ngữ hiển thị cho giao diện người dùng VPNHub";
  desktop_behavior_title = "Hành vi Cửa sổ & Desktop";
  launch_at_startup = "Khởi động cùng hệ thống";
  launch_at_startup_desc = "Tự động khởi chạy VPNHub khi hệ điều hành của bạn khởi động";
  start_minimized = "Khởi động thu nhỏ vào khay hệ thống";
  start_minimized_desc = "Khởi chạy ngầm trên thanh Taskbar/Tray mà không hiện cửa sổ chính";
  auto_connect_on_launch = "Tự động kết nối khi khởi chạy";
  auto_connect_on_launch_desc =
      "Tự động kết nối tới cấu hình yêu thích hoặc cấu hình đã dùng gần nhất";
  minimize_to_tray_on_close = "Thu nhỏ vào khay hệ thống khi đóng";
  minimize_to_tray_on_close_desc =
      "Đóng cửa sổ sẽ ẩn vào khay hệ thống để giữ kết nối VPN liên tục";
  network_integration_title = "Mạng & Tích hợp hệ thống";
  auto_reconnect = "Tự động kết nối lại khi đổi mạng";
  auto_reconnect_desc = "Tự động phục hồi đường hầm khi chuyển đổi Wi-Fi hoặc mạng bị gián đoạn";
  desktop_notifications = "Thông báo trên màn hình Desktop";
  desktop_notifications_desc =
      "Hiển thị thông báo hệ thống khi kết nối, ngắt kết nối và cảnh báo bảo mật";
  spotlight_title = "Thanh tìm kiếm lệnh nhanh Spotlight";
  spotlight_desc = "Kích hoạt nhanh bảng chuyển đổi cấu hình và điều hướng bằng phím tắt";
  spotlight_button = "Mở (⌘K)";
  diagnostics_title = "Chẩn đoán lõi & Két lưu trữ mã hóa";
  engine_status = "Trạng thái Engine: Toàn vẹn cao";
  cipher_suite_title = "Bộ thuật toán mã hóa";
  cipher_suite_desc = "ChaCha20-Poly1305 / AES-GCM + Hậu lượng tử ML-KEM";
  ipc_daemon_title = "Daemon IPC";
  ipc_daemon_desc = "Unix Domain Socket • Độ trễ: {latency}ms";
  encrypted_vault_title = "Két lưu trữ bảo mật";
  encrypted_vault_desc = "Khóa phần cứng mã hóa AES-256-GCM với cơ chế tự hủy bộ nhớ (Zeroize)";
  client_version_text = "VPNHub Desktop Client v0.1.2";
  reset_defaults = "Khôi phục mặc định";
  settings_restored_title = "Đã khôi phục cài đặt";
  settings_restored_msg = "Các tùy chọn cài đặt ứng dụng đã được đưa về giá trị mặc định.";
  docs_and_github = "Tài liệu & GitHub";
  core_ready = "v{version} Sẵn sàng";
  core_offline = "Ngoại tuyến";
  vault_aes = "Két bảo mật: AES-256-GCM";
}

unfoldable pub split_tunnel : SplitTunnel
split_tunnel = record {
  title = "Quản lý Chính sách Phân luồng (Split Tunneling)";
  subtitle =
      "Xác định chi tiết ứng dụng, dải mạng CIDR và tên miền nào đi qua VPN hoặc mạng trực tiếp";
  tab_apps = "Quy tắc Ứng dụng";
  tab_ip_domain = "Dải IP & Tên miền";
  apps_section_title = "Quy tắc định tuyến ứng dụng cụ thể";
  apps_section_desc =
      "Các gói tin phát ra từ tệp thực thi chỉ định sẽ tuân theo chính sách định tuyến riêng";
  btn_add_app_rule = "Thêm quy tắc ứng dụng";
  col_status = "Trạng thái";
  col_app = "Ứng dụng";
  col_path = "Đường dẫn thực thi";
  col_policy = "Chính sách";
  col_actions = "Thao tác";
  route_vpn_badge = "Định tuyến qua VPN";
  bypass_badge = "Bỏ qua VPN (Trực tiếp)";
  add_ip_section_title = "Thêm Dải IP Subnet CIDR hoặc Tên miền";
  target_label = "CIDR Đích / Tên miền đại diện (*.domain)";
  target_placeholder = "10.0.0.0/8 hoặc *.corp.domain.com";
  type_label = "Loại";
  type_cidr = "Dải Subnet IPv4/IPv6 CIDR";
  type_domain = "Mẫu tên miền (Domain)";
  policy_label = "Chế độ định tuyến";
  policy_route_vpn = "Định tuyến qua VPN";
  policy_bypass = "Bỏ qua VPN (Trực tiếp)";
  desc_label = "Mô tả / Mục đích";
  desc_placeholder = "Ví dụ: Mạng nội bộ AWS VPC";
  btn_add_rule = "Thêm";
  col_target = "Đích đến";
  col_type = "Loại";
  col_desc = "Mô tả";
}
