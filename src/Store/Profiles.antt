-- ===== src/Store/Profiles.antt =====
-- The actions on profiles: `selectProfile`, `toggleFavorite`, `addProfile`, `updateProfile`,
-- `deleteProfile` and `setMfaPromptProfile`.
pub mod Active
use vpnhub.Prelude.{
  ℕ, String, ◌<>◌, Bool, true, not, Option, none, some, List, [], ◌∷◌, map, str_eq, if◌then◌else◌,
  filter_by, find, head?, truthy, or_opt, truthy_nat, get_or,
}
use vpnhub.Types.{TotpFormat, Credentials, VpnProfile, LogLevel}
use vpnhub.Types.Equality.{protocol_text}
use vpnhub.Bridge.{ProfileSecretPayload, UserPasswordSecret, RawOvpnSecret}
use vpnhub.Bridge.Methods.{save_profile, delete_profile as delete_stored}
use vpnhub.World.{Platform, Action, World, get, set, start, pass, ◌>>=◌, ◌>>◌}
use vpnhub.Store.Logs.{add_log}

abbrev pub no_credentials : Credentials
no_credentials = record {
  username = none;
  password = none;
  password_mode = none;
  totp_secret = none;
  totp_format = none;
  has_password = none;
  has_cert = none;
  has_private_key = none;
  has_ca_cert = none;
  has_tls_auth = none;
  has_tls_crypt = none;
  private_key = none;
  preshared_key = none;
  ca_cert = none;
  client_cert = none;
  client_key = none;
  tls_auth_key = none;
  tls_crypt_key = none;
  key_direction = none;
  remote_cert_tls_server = none;
  reneg_sec = none;
}

-- `a ?? b` of two values that may be absent; `a || b`, where no present value is false.
abbrev or_else {ℓ} : {A : Type ℓ} → Option A → Option A → Option A
or_else none b = b
or_else (some a) b = some a

-- `a || b` of numbers that may be absent.
abbrev or_opt_nat : Option ℕ → Option ℕ → Option ℕ
or_opt_nat a b = if truthy_nat a then a else b

with_wireguard : Credentials → String → Option String → Credentials
with_wireguard c private_key preshared_key = record c {
  private_key = some private_key;
  preshared_key = preshared_key;
}

with_user_password : Credentials → UserPasswordSecret → Credentials
with_user_password c s = record c {
  username = or_opt (some s.username) c.username;
  password = or_opt (some s.password) c.password;
  totp_secret = or_opt s.totp_secret c.totp_secret;
  totp_format = some (get_or (or_else s.totp_format c.totp_format) TotpFormat.append);
  ca_cert = or_opt s.ca_cert c.ca_cert;
  client_cert = or_opt s.client_cert c.client_cert;
  client_key = or_opt s.client_key c.client_key;
  tls_auth_key = or_opt s.tls_auth_key c.tls_auth_key;
  tls_crypt_key = or_opt s.tls_crypt_key c.tls_crypt_key;
  key_direction = or_opt s.key_direction c.key_direction;
  remote_cert_tls_server = or_else s.remote_cert_tls_server c.remote_cert_tls_server;
  reneg_sec = or_opt_nat s.reneg_sec c.reneg_sec;
  has_ca_cert = some (truthy (or_opt s.ca_cert c.ca_cert));
  has_tls_auth = some (truthy (or_opt s.tls_auth_key c.tls_auth_key));
  has_tls_crypt = some (truthy (or_opt s.tls_crypt_key c.tls_crypt_key));
  has_cert = some (truthy (or_opt s.client_cert c.client_cert));
}

with_raw_config : Credentials → RawOvpnSecret → Credentials
with_raw_config c s = record c {
  username = or_opt s.username c.username;
  password = or_opt s.password c.password;
  totp_secret = or_opt s.totp_secret c.totp_secret;
  totp_format = some (get_or (or_else s.totp_format c.totp_format) TotpFormat.append);
}

-- `fullProfile`, which `addProfile` and `updateProfile` compute by the same text.
unfoldable pub full_profile : VpnProfile → Option ProfileSecretPayload → VpnProfile
unfolding with_wireguard with_user_password with_raw_config
full_profile profile none = profile
full_profile profile (some (ProfileSecretPayload.wireguard private_key preshared_key)) =
    let c = get_or profile.credentials no_credentials in
    record profile { credentials = some (with_wireguard c private_key preshared_key) }
full_profile profile (some (ProfileSecretPayload.user_password s)) =
    let c = get_or profile.credentials no_credentials in
    record profile { credentials = some (with_user_password c s) }
full_profile profile (some (ProfileSecretPayload.raw_ovpn_config s)) =
    let c = get_or profile.credentials no_credentials in
    record profile {
      credentials = some (with_raw_config c s);
      raw_config = or_opt (some s.config_content) profile.raw_config;
    }

unfoldable pub select_profile : Platform → String → Action
select_profile platform profile_id = do
  set (λ s. record s { active_profile_id = profile_id })
  add_log platform LogLevel.info "GUI_MANAGER" ("Selected active profile: " <> profile_id)

abbrev pub flip_favorite : String → VpnProfile → VpnProfile
flip_favorite profile_id p =
    if str_eq p.id profile_id then record p { is_favorite = not p.is_favorite } else p

unfoldable pub save_found : Platform → Option VpnProfile → Action
save_found platform none = pass
save_found platform (some p) = start (save_profile platform.tauri p none)

unfoldable pub toggle_favorite : Platform → String → Action
toggle_favorite platform profile_id = do
  state ← get
  let updated = map (flip_favorite profile_id) state.profiles
  set (λ s. record s { profiles = updated })
  save_found platform (find (λ (p : VpnProfile). str_eq p.id profile_id) updated)

unfoldable pub add_profile : Platform → VpnProfile → Option ProfileSecretPayload → Action
add_profile platform profile secret = do
  let full = full_profile profile secret
  set (λ s. record s { profiles = full ∷ s.profiles; active_profile_id = full.id })
  start (save_profile platform.tauri full secret)
  add_log platform LogLevel.info "PROFILE_MGR" (
      "Saved and encrypted profile: "
      <> (full.name <> (" (" <> (protocol_text full.protocol <> ")"))))

abbrev pub replace_profile : VpnProfile → VpnProfile → VpnProfile
replace_profile full p = if str_eq p.id full.id then full else p

unfoldable pub update_profile : Platform → VpnProfile → Option ProfileSecretPayload → Action
update_profile platform profile secret = do
  let full = full_profile profile secret
  set (λ s. record s { profiles = map (replace_profile full) s.profiles })
  start (save_profile platform.tauri full secret)
  add_log platform LogLevel.info "PROFILE_MGR" ("Updated profile: " <> full.name)

-- `profiles[0]?.id ?? ""`
abbrev pub first_id : List VpnProfile → String
first_id [] = ""
first_id (p ∷ ps) = p.id

unfoldable pub delete_profile : Platform → String → Action
delete_profile platform profile_id = do
  set (λ s. record s {
    profiles = filter_by (λ p. not (str_eq p.id profile_id)) s.profiles;
    active_profile_id =
        if str_eq s.active_profile_id profile_id then first_id s.profiles else s.active_profile_id;
  })
  start (delete_stored platform.tauri profile_id)
  add_log platform LogLevel.warn "PROFILE_MGR"
      ("Deleted profile and erased secrets: " <> profile_id)

unfoldable pub set_mfa_prompt_profile : Option VpnProfile → Action
set_mfa_prompt_profile profile = set (λ s. record s { mfa_prompt_profile = profile })
