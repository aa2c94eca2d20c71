-- ===== src/Store/Storage/Mapping.antt =====
-- What `loadStorage` makes of the stored snapshot.
use vpnhub.Prelude.{
  String, false, ◌||◌, Option, none, some, List, [], ◌∷◌, if◌then◌else◌, find, truthy, is_true,
  or_opt, get_or, nonempty,
}
use vpnhub.Types.{
  DnsProvider, PasswordMode, TotpFormat, Credentials, VpnProfile, SecuritySettings, AppRule,
  IpDomainRule,
}
use vpnhub.Bridge.{
  ProfileSecretPayload, UserPasswordSecret, RawOvpnSecret, StoredCredentials, StoredProfile,
  StoredSecuritySettings, FullStorageSnapshotPayload,
}
use vpnhub.Store.Profiles.{no_credentials, first_id}

abbrev lookup_secret :
    Option (String → Option ProfileSecretPayload) → String → Option ProfileSecretPayload
lookup_secret none id = none
lookup_secret (some secrets) id = secrets id

-- `snapshot.secrets ? snapshot.secrets[p.id] : undefined`
abbrev pub secret_of : FullStorageSnapshotPayload → String → Option ProfileSecretPayload
secret_of snapshot id = lookup_secret snapshot.secrets id

-- `p.credentials?.x` is the field of these.
abbrev pub no_stored_credentials : StoredCredentials
no_stored_credentials = record {
  username = none;
  password_mode = none;
  totp_format = none;
  has_password = false;
  has_private_key = false;
  has_client_cert = false;
  has_ca_cert = none;
  has_tls_auth = none;
  has_tls_crypt = none;
  has_raw_ovpn = false;
}

-- The variables of the mapping, before a secret is read.
unfoldable pub from_stored : StoredCredentials → Credentials
from_stored c = record no_credentials {
  username = c.username;
  password_mode = some (get_or c.password_mode PasswordMode.static);
  totp_format = some (get_or c.totp_format TotpFormat.append);
}

-- `if (totpSecret) passwordMode = p.credentials?.password_mode || "totp_auto"`
abbrev mode_with : Option String → StoredCredentials → Option PasswordMode
mode_with totp_secret c = some (
    get_or c.password_mode
      (if truthy totp_secret then PasswordMode.totp_auto else PasswordMode.static))

abbrev pub or_format : Option TotpFormat → Option TotpFormat → Option TotpFormat
or_format none b = b
or_format (some a) b = some a

unfoldable pub from_user_password : StoredCredentials → UserPasswordSecret → Credentials
unfolding from_stored
from_user_password c s =
    let base = from_stored c in
    record base {
      username = or_opt (some s.username) c.username;
      password = some s.password;
      password_mode = mode_with s.totp_secret c;
      totp_secret = s.totp_secret;
      totp_format = or_format s.totp_format base.totp_format;
      ca_cert = s.ca_cert;
      client_cert = s.client_cert;
      client_key = s.client_key;
      tls_auth_key = s.tls_auth_key;
      tls_crypt_key = s.tls_crypt_key;
      key_direction = s.key_direction;
      remote_cert_tls_server = s.remote_cert_tls_server;
      reneg_sec = s.reneg_sec;
    }

unfoldable pub from_raw_config : StoredCredentials → RawOvpnSecret → Credentials
unfolding from_stored
from_raw_config c s =
    let base = from_stored c in
    record base {
      username = or_opt s.username c.username;
      password = s.password;
      password_mode = mode_with s.totp_secret c;
      totp_secret = s.totp_secret;
      totp_format = or_format s.totp_format base.totp_format;
    }

unfoldable pub from_secret : StoredCredentials → Option ProfileSecretPayload → Credentials
unfolding from_stored from_user_password from_raw_config
from_secret c none = from_stored c
from_secret c (some (ProfileSecretPayload.wireguard private_key preshared_key)) =
    record (from_stored c) { private_key = some private_key; preshared_key = preshared_key }
from_secret c (some (ProfileSecretPayload.user_password s)) = from_user_password c s
from_secret c (some (ProfileSecretPayload.raw_ovpn_config s)) = from_raw_config c s

unfoldable pub raw_config_of : Option ProfileSecretPayload → Option String
raw_config_of (some (ProfileSecretPayload.user_password s)) = s.ovpn_config
raw_config_of (some (ProfileSecretPayload.raw_ovpn_config s)) = some s.config_content
raw_config_of _ = none

-- The `has…` flags: the value is there, or the disk says so.
unfoldable pub with_flags : StoredCredentials → Credentials → Credentials
with_flags stored c = record c {
  has_password = some (truthy c.password || stored.has_password);
  has_private_key = some (truthy c.private_key || stored.has_private_key);
  has_cert = some (truthy c.client_cert || stored.has_client_cert);
  has_ca_cert = some (truthy c.ca_cert || is_true stored.has_ca_cert);
  has_tls_auth = some (truthy c.tls_auth_key || is_true stored.has_tls_auth);
  has_tls_crypt = some (truthy c.tls_crypt_key || is_true stored.has_tls_crypt);
}

unfoldable pub map_profile : StoredProfile → Option ProfileSecretPayload → VpnProfile
unfolding with_flags from_secret raw_config_of
map_profile p secret =
    let stored = get_or p.credentials no_stored_credentials in
    record {
      id = p.id;
      name = p.name;
      protocol = p.protocol;
      server_host = p.server_host;
      server_port = p.server_port;
      server_country = p.server_country;
      server_city = "";
      server_flag = p.server_flag;
      virtual_ip = p.virtual_ip;
      assigned_ip = none;
      is_favorite = p.is_favorite;
      tags = p.tags;
      last_connected = p.last_connected;
      ping_ms = get_or p.ping_ms 20;
      credentials = some (with_flags stored (from_secret stored secret));
      raw_config = raw_config_of secret;
      routing_mode = none;
      use_only_for_network_resources = some (get_or p.intranet_only false);
      custom_subnets = some (get_or p.custom_subnets []);
    }

unfoldable pub map_settings : StoredSecuritySettings → SecuritySettings
map_settings s = record {
  kill_switch = s.kill_switch;
  dns_protection = s.dns_protection;
  custom_dns_provider = get_or s.custom_dns_provider DnsProvider.cloudflare;
  custom_dns_ip = none;
  custom_dns_servers = some (get_or s.custom_dns_servers ("1.1.1.1" ∷ "1.0.0.1" ∷ []));
  ipv6_leak_protection = s.ipv6_leak_protection;
  web_rtc_protection = s.webrtc_leak_protection;
  lan_bypass = s.lan_traffic_bypass;
  default_use_only_for_network_resources = some (get_or s.default_intranet_only false);
  default_routing_mode = none;
}

abbrev pub map_app_rule : AppRule → AppRule
map_app_rule r = record {
  id = r.id;
  name = r.name;
  path = r.path;
  icon = r.icon;
  mode = r.mode;
  enabled = r.enabled;
}

abbrev pub map_ip_rule : IpDomainRule → IpDomainRule
map_ip_rule r = record {
  id = r.id;
  target = r.target;
  type = r.type;
  description = r.description;
  mode = r.mode;
  enabled = r.enabled;
}

abbrev pub favorite_id : Option VpnProfile → String
favorite_id none = ""
favorite_id (some p) = p.id

-- `profiles.find((p) => p.isFavorite)?.id || profiles[0]?.id || ""`
unfoldable pub initial_active_id : List VpnProfile → String
initial_active_id profiles =
    let id = favorite_id (find (λ (p : VpnProfile). p.is_favorite) profiles) in
    if nonempty id then id else first_id profiles
