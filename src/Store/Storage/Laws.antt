-- ===== src/Store/Storage/Laws.antt =====
-- What is loaded, saved and loaded again.
use vpnhub.Prelude.{
  ◌≡◌, refl, ap, String, Bool, true, false, ◌||◌, Option, none, some, truthy, is_true, or_opt,
  get_or, nonempty, Bool-cases, inl, inr,
}
use vpnhub.Types.{TotpFormat, Credentials, VpnProfile}
use vpnhub.Bridge.{ProfileSecretPayload, StoredCredentials, StoredProfile, StoredSecuritySettings}
use vpnhub.Bridge.Methods.{stored_settings, stored_profile, stored_credentials}
use vpnhub.Store.Profiles.{no_credentials}
use vpnhub.Store.Storage.Mapping.{
  map_settings, map_profile, no_stored_credentials, or_format, with_flags, from_secret, from_stored,
  from_user_password, from_raw_config,
}

-- The security settings that were loaded are the same after they are saved and loaded again.
pub map_settings-stored :
    (s : StoredSecuritySettings) → map_settings (stored_settings (map_settings s)) ≡ map_settings s
unfolding map_settings stored_settings
map_settings-stored s = refl

-- A flag `has…` of a value that may be absent, once it is saved and loaded again.
flag-again : (b h : Bool) → b || (((b || h) || b) || false) ≡ b || h
flag-again true h = refl
flag-again false true = refl
flag-again false false = refl

cert-again : (b h : Bool) → b || (b || h) ≡ b || h
cert-again true h = refl
cert-again false h = refl

or-false : (b : Bool) → (b || false) || false ≡ b
or-false true = refl
or-false false = refl

format-again :
    (a b : Option TotpFormat)
    → or_format a
        (some (get_or (or_format a (some (get_or b TotpFormat.append))) TotpFormat.append))
      ≡ or_format a (some (get_or b TotpFormat.append))
format-again none b = refl
format-again (some f) b = refl

name-again : (a b : Option String) → or_opt a (or_opt a b) ≡ or_opt a b
name-again a b = elim (Bool-cases (truthy a)) [ inl e ↦ rw e refl | inr e ↦ rw e refl ]

-- What the credentials of a loaded profile are after they are saved and loaded again.
abbrev credentials_again :
    VpnProfile → StoredCredentials → Option ProfileSecretPayload → Credentials
credentials_again p c secret =
    let again = stored_credentials p none (with_flags c (from_secret c secret)) in
    with_flags again (from_secret again secret)

credentials-again :
    (p : VpnProfile) (c : StoredCredentials) (secret : Option ProfileSecretPayload)
    → is_true c.has_ca_cert ≡ false
    → is_true c.has_tls_auth ≡ false
    → is_true c.has_tls_crypt ≡ false
    → credentials_again p c secret ≡ with_flags c (from_secret c secret)
unfolding stored_credentials with_flags from_secret from_stored from_user_password from_raw_config
credentials-again p c none ca ta tc =
    rw (or-false c.has_password, or-false c.has_private_key, ca, ta, tc) refl
credentials-again p c (some (ProfileSecretPayload.wireguard key shared)) ca ta tc =
    rw (or-false c.has_password, flag-again (nonempty key) c.has_private_key, ca, ta, tc) refl
credentials-again p c (some (ProfileSecretPayload.user_password s)) ca ta tc =
    rw
      (
        flag-again (nonempty s.password) c.has_password,
        or-false c.has_private_key,
        cert-again (truthy s.client_cert) c.has_client_cert,
        name-again (some s.username) c.username,
        format-again s.totp_format c.totp_format,
        ca,
        ta,
        tc,
      )
      refl
credentials-again p c (some (ProfileSecretPayload.raw_ovpn_config s)) ca ta tc =
    rw
      (
        flag-again (truthy s.password) c.has_password,
        or-false c.has_private_key,
        name-again s.username c.username,
        format-again s.totp_format c.totp_format,
        ca,
        ta,
        tc,
      )
      refl

-- A profile that was loaded is the same after it is saved and loaded again with the same secret, if none
-- of the three flags for the CA certificate and the TLS keys was set on the disk.
pub map_profile-stored :
    (p : StoredProfile) (secret : Option ProfileSecretPayload)
    → is_true (get_or p.credentials no_stored_credentials).has_ca_cert ≡ false
    → is_true (get_or p.credentials no_stored_credentials).has_tls_auth ≡ false
    → is_true (get_or p.credentials no_stored_credentials).has_tls_crypt ≡ false
    → map_profile (stored_profile (map_profile p secret) none) secret ≡ map_profile p secret
unfolding map_profile stored_profile
map_profile-stored p secret ca ta tc =
    ap (λ c. record (map_profile p secret) { credentials = some c })
      (credentials-again (map_profile p secret) (get_or p.credentials no_stored_credentials) secret
        ca ta tc)

-- Saving a profile never stores the three flags for the CA certificate and the TLS keys: for a profile
-- that is loaded without its secret, they are lost the next time that it is saved and loaded.
pub map_profile-flags :
    (p : VpnProfile) (saved : Option ProfileSecretPayload) (c : Credentials)
    → p.credentials ≡ some c
    → let q = get_or (map_profile (stored_profile p saved) none).credentials no_credentials in
      (q.has_ca_cert ≡ some false)
      × (q.has_tls_auth ≡ some false)
      × (q.has_tls_crypt ≡ some false)
      × (q.has_cert ≡ some (is_true c.has_cert))
unfolding map_profile stored_profile stored_credentials with_flags from_secret from_stored
map_profile-flags p saved c e = rw e (refl, refl, refl, refl)
