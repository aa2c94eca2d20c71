-- ===== src/Views/Form.antt =====
-- components/profiles/ProfileModal.tsx: the form in which a profile is created or edited.
pub mod Again
use vpnhub.Prelude.{
  ℕ, ◌+◌, String, ◌<>◌, Bool, true, false, not, ◌&&◌, ◌||◌, Option, none, some, List, [], ◌∷◌, ◌==◌,
  str_eq, if◌then◌else◌, nonempty, truthy, is_true, or_text, or_nat, get_or,
}
use vpnhub.Types.{ProtocolType, PasswordMode, TotpFormat, Credentials, VpnProfile}
use vpnhub.Bridge.{ProfileSecretPayload, UserPasswordSecret}
use vpnhub.World.{VpnStoreState, Platform, World, Action, tick, ◌>>=◌, ◌>>◌}
use vpnhub.Store.Connection.{credentials_of}
use vpnhub.Store.Profiles.{add_profile, update_profile}
use vpnhub.Views.Subnets.{split_subnets, join_subnets}

pub data DefaultProtocol : Type 0 where
  wireguard openvpn : DefaultProtocol

-- The fields of the form.
pub record Form : Type 0 where
  pub name : String
  pub protocol : ProtocolType
  pub server_host : String
  pub server_port : ℕ
  pub virtual_ip : String
  pub private_key : String
  pub preshared_key : String
  pub use_only_for_network_resources : Bool
  pub custom_subnets_input : String
  pub username : String
  pub password : String
  pub password_mode : PasswordMode
  pub totp_secret : String
  pub totp_format : TotpFormat
  pub ca_cert : String
  pub tls_auth_key : String
  pub tls_crypt_key : String
  pub client_cert : String
  pub client_key : String
  pub key_direction : String
  pub remote_cert_tls_server : Bool
  pub reneg_sec : Option ℕ

abbrev pub is_wireguard : ProtocolType → Bool
is_wireguard ProtocolType.wireguard = true
is_wireguard _ = false

-- `a || ""`
abbrev pub or_empty : Option String → String
or_empty a = or_text a ""

abbrev pub default_port : ProtocolType → ℕ
default_port p = if is_wireguard p then 51820 else 1194

-- The effect that fills the form, for the profile that is edited.
unfoldable pub fill_form : VpnProfile → Form
fill_form p =
    let c = credentials_of p in
    let init_totp = or_empty c.totp_secret in
    record {
      name = p.name;
      protocol = p.protocol;
      server_host = p.server_host;
      server_port = or_nat (some p.server_port) (default_port p.protocol);
      virtual_ip = or_text (some p.virtual_ip) "10.8.0.2/24";
      private_key = or_empty c.private_key;
      preshared_key = or_empty c.preshared_key;
      use_only_for_network_resources = get_or p.use_only_for_network_resources false;
      custom_subnets_input = join_subnets (get_or p.custom_subnets []);
      username = or_empty c.username;
      password = or_empty c.password;
      password_mode =
          get_or c.password_mode
            (if nonempty init_totp then PasswordMode.totp_auto else PasswordMode.static);
      totp_secret = init_totp;
      totp_format = get_or c.totp_format TotpFormat.append;
      ca_cert = or_empty c.ca_cert;
      tls_auth_key = or_empty c.tls_auth_key;
      tls_crypt_key = or_empty c.tls_crypt_key;
      client_cert = or_empty c.client_cert;
      client_key = or_empty c.client_key;
      key_direction = or_text c.key_direction "none";
      remote_cert_tls_server = get_or c.remote_cert_tls_server true;
      reneg_sec = c.reneg_sec;
    }

abbrev initial_protocol : DefaultProtocol → ProtocolType
initial_protocol DefaultProtocol.openvpn = ProtocolType.openvpn_udp
initial_protocol DefaultProtocol.wireguard = ProtocolType.wireguard

-- The same effect, for a new profile.
unfoldable pub empty_form : DefaultProtocol → Form
empty_form default_protocol =
    let protocol = initial_protocol default_protocol in
    record {
      name = "";
      protocol = protocol;
      server_host = "";
      server_port = default_port protocol;
      virtual_ip = if is_wireguard protocol then "10.8.0.2/24" else "10.8.0.50/24";
      private_key = "";
      preshared_key = "";
      use_only_for_network_resources = false;
      custom_subnets_input = "";
      username = "";
      password = "";
      password_mode = PasswordMode.static;
      totp_secret = "";
      totp_format = TotpFormat.append;
      ca_cert = "";
      tls_auth_key = "";
      tls_crypt_key = "";
      client_cert = "";
      client_key = "";
      key_direction = "none";
      remote_cert_tls_server = true;
      reneg_sec = none;
    }

-- `s || undefined`
abbrev pub or_undefined : String → Option String
or_undefined s = if nonempty s then some s else none

-- `keyDirection !== "none" ? keyDirection : undefined`
abbrev pub chosen_direction : String → Option String
chosen_direction d = if str_eq d "none" then none else some d

abbrev pub flag_of : (Credentials → Option Bool) → Option VpnProfile → Bool
flag_of field none = false
flag_of field (some p) = is_true (field (credentials_of p))

unfoldable pub form_credentials : Option VpnProfile → Form → Credentials
form_credentials initial f = record {
  username = or_undefined f.username;
  password = or_undefined f.password;
  password_mode = some f.password_mode;
  totp_secret = or_undefined f.totp_secret;
  totp_format = some f.totp_format;
  has_password = some (nonempty f.password);
  has_cert = some (nonempty f.client_cert || flag_of (λ c. c.has_cert) initial);
  has_private_key = some (nonempty f.private_key || nonempty f.client_key);
  has_ca_cert = some (nonempty f.ca_cert || flag_of (λ c. c.has_ca_cert) initial);
  has_tls_auth = some (nonempty f.tls_auth_key || flag_of (λ c. c.has_tls_auth) initial);
  has_tls_crypt = some (nonempty f.tls_crypt_key || flag_of (λ c. c.has_tls_crypt) initial);
  private_key = or_undefined f.private_key;
  preshared_key = or_undefined f.preshared_key;
  ca_cert = or_undefined f.ca_cert;
  client_cert = or_undefined f.client_cert;
  client_key = or_undefined f.client_key;
  tls_auth_key = or_undefined f.tls_auth_key;
  tls_crypt_key = or_undefined f.tls_crypt_key;
  key_direction = chosen_direction f.key_direction;
  remote_cert_tls_server = some f.remote_cert_tls_server;
  reneg_sec = f.reneg_sec;
}

-- `initialProfile?.x || value`
abbrev or_initial : (VpnProfile → String) → Option VpnProfile → String → String
or_initial field none value = value
or_initial field (some p) value = or_text (some (field p)) value

abbrev initial_tags : Option VpnProfile → List String → List String
initial_tags none tags = tags
initial_tags (some p) tags = p.tags

abbrev initial_favorite : Option VpnProfile → Bool
initial_favorite none = false
initial_favorite (some p) = p.is_favorite

abbrev initial_ping : Option VpnProfile → ℕ → ℕ
initial_ping none ping = ping
initial_ping (some p) ping = or_nat (some p.ping_ms) ping

abbrev pub kind_of : ProtocolType → String
kind_of p = if is_wireguard p then "WireGuard" else "OpenVPN"

abbrev pub default_flag : ProtocolType → String
default_flag p = if is_wireguard p then "⚡" else "🛡\u{fe0f}"

-- `profileData`. A new profile's ping is 20 plus a random number; `nonce` is that number.
unfoldable pub form_profile : Option VpnProfile → Form → String → ℕ → VpnProfile
unfolding form_credentials
form_profile initial f id nonce = record {
  id = id;
  name = if nonempty f.name then f.name else kind_of f.protocol <> " Profile";
  protocol = f.protocol;
  server_host = f.server_host;
  server_port = or_nat (some f.server_port) (default_port f.protocol);
  server_country = or_initial (λ p. p.server_country) initial "Configured Gateway";
  server_city = or_initial (λ p. p.server_city) initial "Remote DC";
  server_flag = or_initial (λ p. p.server_flag) initial (default_flag f.protocol);
  virtual_ip = or_text (some f.virtual_ip) "10.8.0.2/24";
  assigned_ip = none;
  is_favorite = initial_favorite initial;
  tags = initial_tags initial ("Custom" ∷ kind_of f.protocol ∷ []);
  last_connected = none;
  ping_ms = initial_ping initial (20 + nonce);
  credentials = some (form_credentials initial f);
  raw_config = none;
  routing_mode = none;
  use_only_for_network_resources = some f.use_only_for_network_resources;
  custom_subnets = some (split_subnets f.custom_subnets_input);
}

abbrev pub openvpn_secret : Form → UserPasswordSecret
openvpn_secret f = record {
  username = f.username;
  password = f.password;
  totp_secret = or_undefined f.totp_secret;
  totp_format = some f.totp_format;
  ca_cert = or_undefined f.ca_cert;
  client_cert = or_undefined f.client_cert;
  client_key = or_undefined f.client_key;
  tls_auth_key = or_undefined f.tls_auth_key;
  tls_crypt_key = or_undefined f.tls_crypt_key;
  key_direction = chosen_direction f.key_direction;
  remote_cert_tls_server = some f.remote_cert_tls_server;
  reneg_sec = f.reneg_sec;
  ovpn_config = none;
}

-- `secretPayload`
unfoldable pub secret_for : ProtocolType → Form → Option ProfileSecretPayload
secret_for ProtocolType.wireguard f =
    if nonempty f.private_key
    then some (ProfileSecretPayload.wireguard f.private_key (or_undefined f.preshared_key))
    else none
secret_for ProtocolType.ipsec f = none
secret_for _ f = some (ProfileSecretPayload.user_password (openvpn_secret f))

unfoldable pub form_secret : Form → Option ProfileSecretPayload
unfolding secret_for
form_secret f = secret_for f.protocol f

-- `isEdit`: the profile that the form was opened for is in the library.
pub is_edit : List VpnProfile → Option VpnProfile → Bool
is_edit profiles none = false
is_edit [] (some p) = false
is_edit (q ∷ profiles) (some p) = str_eq q.id p.id || is_edit profiles (some p)

unfoldable pub save_edited : Platform → Option VpnProfile → Form → ℕ → Bool → Action
unfolding form_profile form_secret
save_edited platform (some p) f nonce true =
    update_profile platform (form_profile (some p) f p.id nonce) (form_secret f)
save_edited platform initial f nonce _ = do
  n ← λ w. w.reads
  tick
  add_profile platform (form_profile initial f (platform.random_uuid n) nonce) (form_secret f)

-- `handleSubmit`, with the profiles that the form has seen.
unfoldable pub submit_form : Platform → VpnStoreState → Option VpnProfile → Form → ℕ → Action
unfolding save_edited is_edit
submit_form platform seen initial f nonce =
    save_edited platform initial f nonce (is_edit seen.profiles initial)
