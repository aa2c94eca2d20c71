-- ===== src/I18n/Vi/Dialogs.antt =====
-- packages/app/src/i18n/locales/vi.ts: the texts of the dialogs in Vietnamese.
use vpnhub.I18n.Dictionary.Dialogs.{Modals}

unfoldable pub modals : Modals
modals = record {
  mfa_title = "Xác thực hai yếu tố (2FA / TOTP)";
  mfa_subtitle = "Nhập mã số 6 chữ số TOTP / MFA động để bắt đầu kết nối đường hầm VPN.";
  mfa_placeholder = "000000";
  mfa_confirm = "Xác thực & Kết nối";
  mfa_username = "Tên đăng nhập";
  mfa_password = "Mật khẩu";
  mfa_code_label = "Mã TOTP / MFA";
  dns_leak_title = "Kiểm tra rò rỉ DNS tự động";
  dns_leak_desc =
      "Đang truy vấn mạng lưới máy chủ phân giải DNS toàn cầu để phát hiện rò rỉ ngoài đường hầm mã hóa.";
  dns_leak_testing = "Đang kiểm tra rò rỉ máy chủ DNS...";
  dns_leak_passed =
      "Không phát hiện rò rỉ DNS • Lưu lượng mạng của bạn được định tuyến tuyệt đối an toàn.";
  dns_leak_failed =
      "Phát hiện rò rỉ DNS • Một số gói tin DNS đã bị gửi không mã hóa ra ngoài đường hầm.";
  dns_servers_found = "Máy chủ phân giải phát hiện";
  dns_public_ip = "Địa chỉ IP phân giải";
  dns_isp = "Nhà mạng (ISP)";
  dns_location = "Vị trí";
  new_profile_title = "Tạo cấu hình kết nối VPN";
  new_profile_wireguard_title = "Giao thức WireGuard";
  new_profile_wireguard_desc =
      "Đường hầm mã hóa tốc độ cao hiện đại ChaCha20 với cặp khóa gọn nhẹ.";
  new_profile_openvpn_title = "Giao thức OpenVPN";
  new_profile_openvpn_desc = "Chuẩn VPN doanh nghiệp SSL/TLS hỗ trợ đầy đủ xác thực đa yếu tố.";
  new_profile_import_title = "Nhập cấu hình có sẵn";
  new_profile_import_desc = "Kéo thả file .ovpn, .conf hoặc gói chứng chỉ máy khách trực tiếp.";
  import_dropzone_text = "Kéo thả file cấu hình .ovpn vào đây hoặc nhấn để duyệt file";
  import_dropzone_subtext =
      "Hỗ trợ định dạng OpenVPN thống nhất (.ovpn) có nhúng chứng chỉ và khóa";
  dropzone_release = "Thả file để nạp cấu hình";
  dropzone_drop_now = "Thả file ngay để nhập";
  dropzone_analyzing = "Đang phân tích & trích xuất cấu hình...";
  dropzone_extracting = "Đang trích xuất chứng chỉ TLS, khóa bí mật & điểm cuối từ";
  invalid_file_type = "Định dạng file không hợp lệ. Vui lòng tải lên file .ovpn hoặc .conf hợp lệ.";
  failed_read_file = "Không thể đọc file cấu hình. Vui lòng thử lại.";
  failed_parse_file = "Không thể phân tích file cấu hình VPN.";
  export_diag_title = "Xuất nhật ký chẩn đoán";
  export_diag_subtitle =
      "Tải xuống hoặc sao chép báo cáo kỹ thuật và log đường hầm để khắc phục sự cố.";
  export_download_json = "Tải file JSON";
  export_copy_text = "Sao chép vào bộ nhớ tạm";
  export_include_logs = "Bao gồm 200 dòng nhật ký daemon gần nhất";
  export_include_routes = "Bao gồm bảng định tuyến hạt nhân (`ip route`)";
  export_include_dns = "Bao gồm bộ nhớ đệm phân giải DNS hệ thống";
  export_sanitize_private = "Tự động xóa mờ mật khẩu riêng tư và khóa mật mã";
  export_compiling = "Đang đóng gói và mã hóa tệp lưu trữ...";
  qr_title = "Đồng bộ cấu hình với thiết bị di động";
  qr_subtitle = "Quét mã QR này trên ứng dụng VPNHub iOS hoặc Android để nhập cấu hình tức thì.";
  qr_copy_base64 = "Sao chép chuỗi cấu hình Base64";
  proto_select_import_title = "Nhập cấu hình - Chọn giao thức";
  proto_select_add_title = "Tạo cấu hình - Chọn giao thức";
  proto_select_import_desc = "Chọn loại tệp cấu hình bạn muốn nhập:";
  proto_select_add_desc = "Chọn giao thức VPN muốn cấu hình cho kết nối này:";
  proto_wg_title = "WireGuard";
  proto_wg_badge_import = "File .conf";
  proto_wg_badge_add = "UDP Peer-to-Peer";
  proto_wg_desc_import = "Nhập tệp cấu hình WireGuard chuẩn (.conf)";
  proto_wg_desc_add = "Băng thông siêu nhanh, mật mã học hiện đại & độ trễ tối thiểu.";
  proto_ovpn_title = "OpenVPN";
  proto_ovpn_badge_import = ".ovpn / .conf";
  proto_ovpn_badge_add = "TCP / UDP + 2FA";
  proto_ovpn_desc_import = "Nhập gói cấu hình máy khách OpenVPN (.ovpn / .conf)";
  proto_ovpn_desc_add = "Giao thức doanh nghiệp hỗ trợ TCP/UDP, mã OTP 2FA & chứng chỉ TLS.";
  import_wg_title = "Nhập cấu hình WireGuard (.conf)";
  import_ovpn_title = "Nhập cấu hình OpenVPN (.ovpn)";
  import_wg_dropzone = "Kéo & thả file WireGuard .conf vào đây";
  import_ovpn_dropzone = "Kéo & thả file OpenVPN .ovpn hoặc .conf vào đây";
  import_wg_help = "Hỗ trợ định dạng WireGuard chuẩn (.conf) dung lượng tối đa 5MB";
  import_ovpn_help = "Hỗ trợ định dạng OpenVPN 2.x/3.x (.ovpn) dung lượng tối đa 5MB";
  import_click_browse = "hoặc bấm để chọn tệp từ máy tính";
  err_expected_wg =
      "File được chọn có vẻ là cấu hình OpenVPN. Vui lòng chọn file WireGuard (.conf) hợp lệ chứa khối [Interface].";
  err_expected_ovpn =
      "File được chọn có vẻ là cấu hình WireGuard. Vui lòng chọn file OpenVPN (.ovpn) hợp lệ.";
  add_app_title = "Thêm Quy tắc Định tuyến Ứng dụng";
  add_app_detected = "ỨNG DỤNG ĐÃ CÀI ĐẶT TRÊN HỆ THỐNG";
  add_app_name_label = "Tên ứng dụng";
  add_app_name_placeholder = "Ví dụ: Trình duyệt Firefox";
  add_app_path_label = "Đường dẫn tệp thực thi / nhị phân";
  add_app_path_placeholder = "/usr/bin/... hoặc C:\\Program Files\\...";
  add_app_policy_label = "Chính sách định tuyến";
  add_app_bypass_label = "Bỏ qua VPN (Kết nối Internet trực tiếp)";
  add_app_route_label = "Định tuyến qua Đường hầm VPN mã hóa";
  add_app_submit_btn = "Thêm quy tắc";
  cert_manager_title = "Quản lý Chứng chỉ & Bảo mật TLS";
  tab_root_ca = "Root CA";
  tab_tls_channel = "Kênh TLS";
  tab_client_identity = "Danh tính Client";
  tab_advanced = "Nâng cao";
  root_ca_title = "Tổ chức Chứng thực CA (<ca>)";
  root_ca_loaded = "Đã nạp Root CA tùy chỉnh ({length} ký tự)";
  root_ca_default_system = "Sẽ sử dụng chùm chứng chỉ Root CA mặc định của hệ điều hành.";
  import_crt_pem = "Nhập file .crt / .pem";
  root_ca_pem_label = "Nội dung PEM Root CA";
  root_ca_pem_placeholder = "-----BEGIN CERTIFICATE-----\n...\n-----END CERTIFICATE-----";
  tls_mode_label = "Chế độ bảo vệ kênh điều khiển TLS";
  tls_mode_desc = "Cung cấp thêm chữ ký HMAC hoặc lớp mã hóa toàn diện kênh điều khiển.";
  tls_mode_none = "Không dùng (Bắt tay OpenVPN TLS tiêu chuẩn)";
  tls_mode_auth = "TLS-Auth (<tls-auth>) - Chữ ký HMAC tĩnh";
  tls_mode_crypt = "TLS-Crypt (<tls-crypt>) - Mã hóa toàn bộ kênh điều khiển";
  tls_auth_static_key_title = "Khóa tĩnh TLS-Auth";
  tls_key_loaded = "Đã nạp khóa tĩnh ({length} ký tự)";
  no_key_loaded = "Chưa nạp khóa bí mật";
  import_key_file = "Nhập file .key";
  tls_auth_key_content_label = "Nội dung khóa TLS-Auth (<tls-auth>)";
  key_direction_label = "Hướng khóa (key-direction)";
  key_direction_desc = "Phải khớp với cấu hình máy chủ server.";
  key_dir_none = "Không chỉ định / Hai chiều";
  key_dir0 = "0 (Client / Đến)";
  key_dir1 = "1 (Server / Đi)";
  tls_crypt_key_title = "Khóa đối xứng TLS-Crypt";
  tls_crypt_key_content_label = "Nội dung khóa TLS-Crypt (<tls-crypt>)";
  client_identity_desc =
      "Bắt buộc cho xác thực Mutual TLS (mTLS) hoặc xác thực người dùng bằng chứng chỉ.";
  client_cert_title = "Chứng chỉ Client (<cert>)";
  client_cert_loaded = "Đã nạp chứng chỉ Client ({length} ký tự)";
  no_cert_loaded = "Chưa có chứng chỉ";
  import_crt = "Nhập file .crt";
  client_key_title = "Khóa riêng tư Client (<key>)";
  client_key_loaded = "Đã nạp khóa riêng tư ({length} ký tự)";
  no_private_key_loaded = "Chưa có khóa riêng tư";
  import_key = "Nhập file .key";
  verify_server_cert_title = "Xác thực chứng chỉ máy chủ";
  verify_server_cert_desc = "Bắt buộc kiểm tra cờ chứng thực máy chủ (remote-cert-tls server)";
  reneg_sec_label = "Khoảng thời gian tái thương lượng khóa (reneg-sec)";
  reneg_sec_placeholder = "Ví dụ: 0 để tắt tái thương lượng kênh dữ liệu";
  reneg_sec_desc = "Mặc định: 3600 giây. Đặt 0 nếu máy chủ cloud VPN vô hiệu hóa tái bắt tay.";
  apply_cert_settings = "Áp dụng cấu hình chứng chỉ";
  wireguard_coming_soon_error =
      "Giao thức WireGuard đang được phát triển (Sắp ra mắt). Vui lòng sử dụng cấu hình OpenVPN (.ovpn).";
  create_wg_title = "Tạo cấu hình WireGuard";
  create_ovpn_title = "Tạo cấu hình OpenVPN";
  edit_wg_title = "Chỉnh sửa cấu hình WireGuard";
  edit_ovpn_title = "Chỉnh sửa cấu hình OpenVPN";
  server_settings_title = "Cài đặt Máy chủ & Kết nối";
  profile_name_label = "Tên cấu hình";
  profile_name_wg_placeholder = "Ví dụ: WireGuard Tokyo Tunnel";
  profile_name_ovpn_placeholder = "Ví dụ: OpenVPN Công ty Staging";
  transport_proto_label = "Giao thức truyền tải";
  server_host_label = "Máy chủ Host / IP";
  server_host_placeholder = "vpn.example.com hoặc 103.21.244.18";
  port_label = "Cổng Port";
  virtual_ip_label = "IP Ảo được cấp (CIDR)";
  virtual_ip_desc = "Địa chỉ IP tĩnh nội bộ cấp cho peer WireGuard này";
  intranet_only_title = "Chỉ sử dụng kết nối này cho tài nguyên trong mạng nội bộ";
  intranet_only_active_desc =
      "Split-Tunnel đang bật: Chỉ định tuyến dải IP nội bộ; Internet đi qua mạng cục bộ bình thường";
  intranet_only_default_desc =
      "Mặc định: Theo cấu hình máy chủ (Dùng gateway VPN làm mặc định nếu server yêu cầu)";
  custom_subnets_label = "Dải mạng nội bộ doanh nghiệp tùy chỉnh (CIDR)";
  custom_subnets_placeholder = "Ví dụ: 10.0.0.0/8, 192.168.10.0/24, 172.16.0.0/12";
  custom_subnets_desc =
      "Các dải mạng phụ muốn định tuyến vào đường hầm VPN này (phân cách bằng dấu phẩy)";
  custom_subnets_hint = "💡 Các dải mạng do server cấp và IP ảo đường hầm đã được tự động thêm vào.";
  keys_auth_title = "Khóa mật mã & Xác thực";
  wg_key_exchange_badge = "Trao đổi khóa WireGuard";
  ovpn_auth2fa_badge = "Xác thực OpenVPN & 2FA";
  wg_priv_key_label = "Khóa riêng tư WireGuard (Base64)";
  wg_priv_key_placeholder = "Khóa riêng tư máy khách (ví dụ: aGVwaGFlc3R1cy...)";
  wg_priv_key_desc = "Được mã hóa an toàn trong két bảo mật phần cứng AES-256-GCM";
  wg_psk_label = "Khóa chia sẻ trước PSK (Lá chắn Hậu lượng tử)";
  wg_psk_placeholder = "Khóa đối xứng 256-bit tùy chọn";
  wg_psk_desc = "Lớp bảo vệ mã hóa đối xứng tăng cường chống lại điện toán lượng tử";
  ovpn_username_label = "Tên đăng nhập";
  ovpn_username_placeholder = "Nhập tài khoản VPN";
  ovpn_auth_mode_label = "Chế độ xác thực Mật khẩu & 2FA / TOTP";
  auth_mode_static = "Mật khẩu tĩnh";
  auth_mode_totp_auto = "Tự sinh TOTP";
  auth_mode_dynamic_prompt = "Hỏi mã khi kết nối";
  base_password_label = "Mật khẩu gốc";
  password_label = "Mật khẩu";
  base_password_placeholder = "Mật khẩu cơ bản (hoặc để trống để nhập khi kết nối)";
  password_placeholder = "Nhập mật khẩu";
  totp_secret_label = "Khóa bí mật TOTP Secret (Base32)";
  totp_secret_placeholder = "Ví dụ: JBSWY3DPEHPK3PXP";
  totp_secret_desc = "Được lưu trữ an toàn trong Két mã hóa AES-256-GCM";
  totp_format_label = "Định dạng kết hợp mã";
  totp_format_append = "Mật khẩu gốc + TOTP (Ví dụ: MatKhau123456)";
  totp_format_prefix = "TOTP + Mật khẩu gốc (Ví dụ: 123456MatKhau)";
  totp_format_only = "Chỉ gửi mã TOTP (Ví dụ: 123456)";
  live_totp_label = "Mã Authenticator trực tiếp:";
  active_otp_badge = "OTP Đang hoạt động";
  dynamic_prompt_hint =
      "💡 Khi bấm Kết Nối, VPNHub sẽ hiển thị hộp thoại xác thực 2FA nhanh để bạn nhập mã OTP động.";
  tls_summary_title = "Bảo mật Chứng chỉ & TLS";
  tls_summary_desc = "Root CA, Khóa kênh TLS, và Xác thực Chứng chỉ máy khách";
  btn_config_security = "Cấu hình Bảo mật";
  btn_setup_certificates = "Thiết lập Chứng chỉ";
  badge_custom_ca = "✓ Root CA tùy chỉnh";
  badge_system_ca = "Root CA hệ thống";
  badge_tls_crypt = "✓ Đã bật TLS-Crypt";
  badge_tls_auth = "✓ TLS-Auth (Hướng: {direction})";
  badge_standard_tls = "Bắt tay TLS chuẩn";
  badge_client_cert_key = "✓ Chứng chỉ & Khóa Client";
  badge_user_pass_auth = "Xác thực User/Pass";
  badge_server_verify = "Kiểm tra Server (Bật)";
  btn_save_changes = "Lưu thay đổi";
  btn_create_profile = "Tạo cấu hình";
}
