-- ===== src/Views/Import/Single.antt =====
-- The dialog that imports a file of one wanted protocol (components/profiles/ImportProfileModal.tsx).
-- The callbacks of the parent do not fail, so that nothing is caught.
pub mod Agreement
pub mod Refusals
use vpnhub.Prelude.{
  ℕ, String, Bool, true, false, not, ◌&&◌, ◌||◌, Option, none, some, List, [], ◌∷◌, if◌then◌else◌,
  codes, get_or, head?, ◌<>◌, or_text, or_nat, or_opt, truthy,
}
use vpnhub.Types.{ProtocolType, PasswordMode, TotpFormat, VpnProfile}
use vpnhub.Views.Text.{includes, starts_with, lower}
use vpnhub.Views.Trim.{trim}
use vpnhub.Views.Import.Regex.{Regex, find_match, find_in_lines}
use vpnhub.Views.Import.Patterns
use vpnhub.Views.Import.Patterns.{word, some_spaces}
use vpnhub.Views.Import.Config.{
  Parsed, group, trimmed, parsed_or, is_found, ends_with, parse_int, clean_name,
}

-- The message that is shown. All are translated.
pub data ImportError : Type 0 where
  failed_read_file err_expected_wg err_expected_ovpn : ImportError

unfoldable pub is_wire_guard_content : String → Bool
unfolding includes starts_with
is_wire_guard_content content =
    includes (codes "[Interface]") (codes content) || includes (codes "[Peer]") (codes content)

-- `/^remote\s+/im` and `/^proto\s+/im`
unfoldable pub remote_line : Regex
unfolding word
remote_line = word "remote" (some_spaces Regex.finish)

unfoldable pub proto_line : Regex
unfolding word
proto_line = word "proto" (some_spaces Regex.finish)

unfoldable pub is_open_vpn_content : String → String → Bool
unfolding includes starts_with find_in_lines remote_line proto_line
is_open_vpn_content content file_name =
    includes (codes "<ca>") (codes content)
    || includes (codes "<cert>") (codes content)
    || includes (codes "auth-user-pass") (codes content)
    || is_found (find_in_lines remote_line true content)
    || is_found (find_in_lines proto_line true content)
    || ends_with file_name ".ovpn"

abbrev wanted_port : Bool → ℕ
wanted_port expected = if expected then 51820 else 1194

abbrev wanted_ip : Bool → String
wanted_ip expected = if expected then "10.8.0.2/24" else "10.8.0.50/24"

-- The first branch: WireGuard's settings. What the file does not give is that of the wanted protocol.
unfoldable pub parse_wanted : Bool → String → Parsed
unfolding find_match
parse_wanted expected content =
    let endpoint_match = find_match Patterns.endpoint content in
    record {
      protocol = ProtocolType.wireguard;
      server_host = get_or (trimmed (group 0 endpoint_match)) "";
      server_port = parsed_or (group 1 endpoint_match) (wanted_port expected);
      private_key = trimmed (group 0 (find_match Patterns.private_key content));
      preshared_key = trimmed (group 0 (find_match Patterns.preshared_key content));
      virtual_ip =
          get_or (trimmed (group 0 (find_match Patterns.address content))) (wanted_ip expected);
      username = none;
      has_auth_user_pass = false;
      ca_cert = none;
      client_cert = none;
      client_key = none;
      tls_auth_key = none;
      tls_crypt_key = none;
      key_direction = none;
      remote_cert_tls_server = none;
      reneg_sec = none;
    }

-- The protocol that a match names, if there is one.
abbrev pub named_protocol : Option String → ProtocolType → ProtocolType
named_protocol none protocol = protocol
named_protocol (some name) protocol =
    if starts_with (codes "tcp") (lower name)
    then ProtocolType.openvpn_tcp
    else ProtocolType.openvpn_udp

abbrev pub ifconfig_ip : Option String → String → String
ifconfig_ip none ip = ip
ifconfig_ip (some s) ip = trim s <> "/24"

abbrev pub reneg_number : Option String → Option ℕ
reneg_number none = none
reneg_number (some s) = some (parse_int s)

abbrev xml_block : String → String → String → Option String
xml_block opening closing content =
    trimmed (group 0 (find_match (Patterns.block opening closing) content))

-- The second branch. Its patterns are, letter by letter, those of the hub.
unfoldable pub parse_unwanted : Bool → String → Parsed
unfolding find_in_lines find_match starts_with
parse_unwanted expected content =
    let line = λ (r : Regex). find_in_lines r true content in
    let remote_match = line Patterns.remote in
    record {
      protocol =
          named_protocol (group 2 remote_match)
            (named_protocol (group 0 (line Patterns.proto)) ProtocolType.openvpn_udp);
      server_host = get_or (trimmed (group 0 remote_match)) "";
      server_port = parsed_or (group 1 remote_match) (wanted_port expected);
      private_key = none;
      preshared_key = none;
      virtual_ip = ifconfig_ip (group 0 (line Patterns.ifconfig)) (wanted_ip expected);
      username = trimmed (group 0 (line Patterns.user_comment));
      has_auth_user_pass = is_found (line Patterns.auth_user_pass);
      ca_cert = xml_block "<ca>" "</ca>" content;
      client_cert = xml_block "<cert>" "</cert>" content;
      client_key = xml_block "<key>" "</key>" content;
      tls_auth_key = xml_block "<tls-auth>" "</tls-auth>" content;
      tls_crypt_key = xml_block "<tls-crypt>" "</tls-crypt>" content;
      key_direction = trimmed (group 0 (line Patterns.key_direction));
      remote_cert_tls_server = if is_found (line Patterns.remote_cert_tls) then some true else none;
      reneg_sec = reneg_number (group 0 (line Patterns.reneg_sec));
    }

unfoldable pub parse_single : Bool → String → Parsed
unfolding parse_wanted parse_unwanted
parse_single expected content =
    if expected || is_wire_guard_content content
    then parse_wanted expected content
    else parse_unwanted expected content

-- `newProf`, of the variables.
unfoldable pub new_profile : Bool → Parsed → String → String → ℕ → VpnProfile
new_profile expected v name id ping = record {
  id = id;
  name = or_text (some name) (if expected then "WireGuard Profile" else "OpenVPN Profile");
  protocol = v.protocol;
  server_host = or_text (some v.server_host) "127.0.0.1";
  server_port = or_nat (some v.server_port) (wanted_port expected);
  server_country = "Imported Gateway";
  server_city = "Remote DC";
  server_flag = "🌐";
  virtual_ip = v.virtual_ip;
  assigned_ip = none;
  is_favorite = false;
  tags = "Imported" ∷ (if expected then "WireGuard" else "OpenVPN") ∷ [];
  last_connected = none;
  ping_ms = ping;
  credentials = some (record {
    username = or_opt v.username none;
    password = none;
    password_mode = some PasswordMode.static;
    totp_secret = none;
    totp_format = some TotpFormat.append;
    has_password = some v.has_auth_user_pass;
    has_cert = some (truthy v.client_cert);
    has_private_key = some (truthy v.private_key || truthy v.client_key);
    has_ca_cert = some (truthy v.ca_cert);
    has_tls_auth = some (truthy v.tls_auth_key);
    has_tls_crypt = some (truthy v.tls_crypt_key);
    private_key = v.private_key;
    preshared_key = v.preshared_key;
    ca_cert = v.ca_cert;
    client_cert = v.client_cert;
    client_key = v.client_key;
    tls_auth_key = v.tls_auth_key;
    tls_crypt_key = v.tls_crypt_key;
    key_direction = v.key_direction;
    remote_cert_tls_server = v.remote_cert_tls_server;
    reneg_sec = v.reneg_sec;
  });
  raw_config = none;
  routing_mode = none;
  use_only_for_network_resources = none;
  custom_subnets = none;
}

-- The profile of a file.
unfoldable pub single_profile : Bool → String → String → String → ℕ → VpnProfile
unfolding new_profile parse_single clean_name
single_profile expected content file_name id ping =
    new_profile expected (parse_single expected content) (clean_name file_name) id ping

-- The two early returns, for a file with WireGuard's sections or with what OpenVPN files have.
abbrev pub refusal : (expected wireguard openvpn : Bool) → Option ImportError
refusal expected wireguard openvpn =
    if expected && openvpn && not wireguard
    then some ImportError.err_expected_wg
    else if not expected && wireguard && not openvpn
    then some ImportError.err_expected_ovpn
    else none

-- What the parent gets: a profile, if it wants one, and then that the dialog is to be closed.
pub data Told : Type 0 where
  import_parsed : VpnProfile → Told
  close : Told

pub record Single : Type 0 where
  pub error : Option ImportError
  pub told : List Told

-- `handleDrop`, up to `readAsText`, with the file that is then read: the first one.
unfoldable pub handle_drop : List String → Single → Option String × Single
handle_drop files d = (head? files, record d { error = none })

-- `reader.onerror`
unfoldable pub on_error : Single → Single
on_error d = record d { error = some ImportError.failed_read_file }

abbrev pub hand_over : Bool → VpnProfile → Single → Single
hand_over wanted p d = record d {
  told = Told.close ∷ (if wanted then Told.import_parsed p ∷ d.told else d.told);
}

-- The end of `reader.onload`, refused or not.
abbrev pub react : Option ImportError → Bool → VpnProfile → Single → Single
react (some e) wanted p d = record d { error = some e }
react none wanted p d = hand_over wanted p d

-- `reader.onload`; `wanted` says whether the parent has given `onImportParsed`.
unfoldable pub on_load : Bool → Bool → String → String → String → ℕ → Single → Single
on_load expected wanted content file_name id ping d =
    react (refusal expected (is_wire_guard_content content) (is_open_vpn_content content file_name))
      wanted (single_profile expected content file_name id ping) d
