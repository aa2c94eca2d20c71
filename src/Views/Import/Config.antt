-- ===== src/Views/Import/Config.antt =====
-- `parseConfigContent`: the profile of a configuration file.
use vpnhub.Prelude.{
  ℕ, zero, suc, String, ◌<>◌, Bool, true, false, ◌&&◌, ◌||◌, Option, none, some, List, [], ◌∷◌,
  if◌then◌else◌, ◌==◌, codes, length, reverse, truthy, or_opt, or_text, or_nat, get_or,
}
use vpnhub.Prelude.Decimal.{value}
use vpnhub.Types.{ProtocolType, PasswordMode, TotpFormat, VpnProfile}
use vpnhub.Views.Text.{lower, includes, starts_with}
use vpnhub.Views.Trim.{trim}
use vpnhub.Views.Import.Regex.{Regex, Match, find_match, find_in_lines}
use vpnhub.Views.Import.Patterns

-- The groups of a match. There are at most three.
abbrev group_at : ℕ → List (Option String) → Option String
group_at n [] = none
group_at zero (g ∷ gs) = g
group_at (suc n) (g ∷ gs) = group_at n gs

abbrev pub group : ℕ → Option Match → Option String
group n none = none
group n (some (s, groups)) = group_at n groups

abbrev pub trimmed : Option String → Option String
trimmed none = none
trimmed (some s) = some (trim s)

abbrev pub is_found : Option Match → Bool
is_found none = false
is_found (some m) = true

-- `parseInt(s, 10)` of digits.
abbrev pub parse_int : String → ℕ
parse_int s = value 0 (codes s)

abbrev pub parsed_or : Option String → ℕ → ℕ
parsed_or none n = n
parsed_or (some s) n = parse_int s

-- `s.toLowerCase().endsWith(ending)`
abbrev pub ends_with : String → String → Bool
ends_with s ending = starts_with (reverse (codes ending)) (reverse (lower s))

unfoldable pub is_wireguard_file : String → String → Bool
unfolding includes starts_with
is_wireguard_file content file_name =
    ends_with file_name ".conf"
    || includes (codes "[Interface]") (codes content)
    || includes (codes "[Peer]") (codes content)

-- The variables of the function.
pub record Parsed : Type 0 where
  pub protocol : ProtocolType
  pub server_host : String
  pub server_port : ℕ
  pub private_key : Option String
  pub preshared_key : Option String
  pub virtual_ip : String
  pub username : Option String
  pub has_auth_user_pass : Bool
  pub ca_cert : Option String
  pub client_cert : Option String
  pub client_key : Option String
  pub tls_auth_key : Option String
  pub tls_crypt_key : Option String
  pub key_direction : Option String
  pub remote_cert_tls_server : Option Bool
  pub reneg_sec : Option ℕ

-- The first branch: a WireGuard file.
unfoldable pub parse_wireguard : String → Parsed
unfolding find_match
parse_wireguard content =
    let found = find_match Patterns.endpoint content in
    record {
      protocol = ProtocolType.wireguard;
      server_host = get_or (trimmed (group 0 found)) "";
      server_port = parsed_or (group 1 found) 51820;
      private_key = trimmed (group 0 (find_match Patterns.private_key content));
      preshared_key = trimmed (group 0 (find_match Patterns.preshared_key content));
      virtual_ip = get_or (trimmed (group 0 (find_match Patterns.address content))) "10.8.0.2/24";
      username = none;
      has_auth_user_pass = false;
      ca_cert = none;
      client_cert = none;
      client_key = none;
      tls_auth_key = none;
      tls_crypt_key = none;
      key_direction = none;
      remote_cert_tls_server = none;
      reneg_sec = none;
    }

abbrev pub openvpn_protocol : String → ProtocolType
openvpn_protocol p =
    if starts_with (codes "tcp") (lower p)
    then ProtocolType.openvpn_tcp
    else ProtocolType.openvpn_udp

abbrev pub protocol_or : Option String → ProtocolType → ProtocolType
protocol_or none p = p
protocol_or (some s) p = openvpn_protocol s

abbrev pub with_mask : Option String → String
with_mask none = "10.8.0.50/24"
with_mask (some ip) = trim ip <> "/24"

abbrev pub number_of : Option String → Option ℕ
number_of none = none
number_of (some s) = some (parse_int s)

-- `content.match(/<tag>([\s\S]*?)<\/tag>/i)`, trimmed.
unfoldable pub block_of : String → String → String → Option String
unfolding find_match
block_of opening closing content =
    trimmed (group 0 (find_match (Patterns.block opening closing) content))

-- The second branch: an OpenVPN file.
unfoldable pub parse_openvpn : String → Parsed
unfolding find_in_lines block_of starts_with
parse_openvpn content =
    let line = λ (r : Regex). find_in_lines r true content in
    let found = line Patterns.remote in
    record {
      protocol =
          protocol_or (group 2 found)
            (protocol_or (group 0 (line Patterns.proto)) ProtocolType.openvpn_udp);
      server_host = get_or (trimmed (group 0 found)) "";
      server_port = parsed_or (group 1 found) 1194;
      private_key = none;
      preshared_key = none;
      virtual_ip = with_mask (group 0 (line Patterns.ifconfig));
      username = trimmed (group 0 (line Patterns.user_comment));
      has_auth_user_pass = is_found (line Patterns.auth_user_pass);
      ca_cert = block_of "<ca>" "</ca>" content;
      client_cert = block_of "<cert>" "</cert>" content;
      client_key = block_of "<key>" "</key>" content;
      tls_auth_key = block_of "<tls-auth>" "</tls-auth>" content;
      tls_crypt_key = block_of "<tls-crypt>" "</tls-crypt>" content;
      key_direction = trimmed (group 0 (line Patterns.key_direction));
      remote_cert_tls_server = if is_found (line Patterns.remote_cert_tls) then some true else none;
      reneg_sec = number_of (group 0 (line Patterns.reneg_sec));
    }

abbrev is_extension : String → Bool
is_extension s =
    length (codes s) == 5
    && (starts_with (codes ".conf") (lower s) || starts_with (codes ".ovpn") (lower s))

-- `fileName.replace(/\.(conf|ovpn)$/i, "")`
unfoldable pub clean_name : String → String
unfolding starts_with
clean_name String.[] = ""
clean_name (String.◌∷◌ c s) =
    let rest = clean_name s in if is_extension (String.◌∷◌ c s) then "" else String.◌∷◌ c rest

-- The profile of the variables; `ping` is the random ping.
unfoldable pub imported_profile : Bool → Parsed → String → String → ℕ → VpnProfile
imported_profile wireguard v name id ping =
    let kind = if wireguard then "WireGuard" else "OpenVPN" in
    record {
      id = id;
      name = or_text (some name) (kind <> " Profile");
      protocol = v.protocol;
      server_host = or_text (some v.server_host) "127.0.0.1";
      server_port = or_nat (some v.server_port) (if wireguard then 51820 else 1194);
      server_country = "Imported Gateway";
      server_city = "Remote DC";
      server_flag = if wireguard then "⚡" else "🛡\u{fe0f}";
      virtual_ip = v.virtual_ip;
      assigned_ip = none;
      is_favorite = false;
      tags = "Imported" ∷ kind ∷ [];
      last_connected = none;
      ping_ms = ping;
      credentials = some (record {
        username = or_opt v.username none;
        password = none;
        password_mode = some PasswordMode.static;
        totp_secret = none;
        totp_format = some TotpFormat.append;
        has_password = some v.has_auth_user_pass;
        has_cert = some (truthy v.client_cert);
        has_private_key = some (truthy v.private_key || truthy v.client_key);
        has_ca_cert = some (truthy v.ca_cert);
        has_tls_auth = some (truthy v.tls_auth_key);
        has_tls_crypt = some (truthy v.tls_crypt_key);
        private_key = v.private_key;
        preshared_key = v.preshared_key;
        ca_cert = v.ca_cert;
        client_cert = v.client_cert;
        client_key = v.client_key;
        tls_auth_key = v.tls_auth_key;
        tls_crypt_key = v.tls_crypt_key;
        key_direction = v.key_direction;
        remote_cert_tls_server = v.remote_cert_tls_server;
        reneg_sec = v.reneg_sec;
      });
      raw_config = none;
      routing_mode = none;
      use_only_for_network_resources = none;
      custom_subnets = none;
    }

-- `parseConfigContent(content, fileName)`
unfoldable pub parse_config_content : String → String → String → ℕ → VpnProfile
unfolding is_wireguard_file parse_wireguard parse_openvpn clean_name imported_profile
parse_config_content content file_name id ping =
    let wireguard = is_wireguard_file content file_name in
    imported_profile wireguard
      (if wireguard then parse_wireguard content else parse_openvpn content) (clean_name file_name)
      id ping
