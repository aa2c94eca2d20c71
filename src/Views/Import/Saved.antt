-- ===== src/Views/Import/Saved.antt =====
-- An imported OpenVPN file, opened in the profile form and saved.
use vpnhub.Prelude.{
  ℕ, ◌≡◌, refl, sym, ap, ◌∙◌, String, true, false, Option, none, some, nonempty, or_opt, or_text,
  get_or, codes, ◌⊎◌, if◌then◌else◌, ◌&&◌, not, str_eq, Bool-cases, inl, inr,
}
use vpnhub.Types.{ProtocolType, TotpFormat}
use vpnhub.Bridge.{ProfileSecretPayload, UserPasswordSecret}
use vpnhub.Views.Form.{
  Form, or_empty, or_undefined, fill_form, form_profile, form_secret, secret_for, openvpn_secret,
  chosen_direction,
}
use vpnhub.Views.Form.Again.{empty-text}
use vpnhub.Views.Text.{lower, starts_with}
use vpnhub.Views.Import.Regex.{find_in_lines}
use vpnhub.Views.Import.Patterns.{proto, remote, remote_cert_tls}
use vpnhub.Views.Import.Config.{
  Parsed, group, is_found, parse_openvpn, protocol_or, imported_profile,
}

-- A value, unless it is empty.
abbrev pub kept : Option String → Option String
kept none = none
kept (some s) = if nonempty s then some s else none

-- The direction of a key, unless there is none, or it is empty, or it is spelled out as none.
abbrev pub known_direction : Option String → Option String
known_direction none = none
known_direction (some d) = if nonempty d && not (str_eq d "none") then some d else none

chosen_direction-known_direction :
    (a : Option String) → chosen_direction (or_text a "none") ≡ known_direction a
chosen_direction-known_direction none = refl
chosen_direction-known_direction (some d) = elim (Bool-cases (nonempty d)) [
  | inl e ↦ elim (Bool-cases (str_eq d "none")) [ inl f ↦ rw (e, f) refl | inr f ↦ rw (e, f) refl ]
  | inr e ↦ rw e refl
]

or_undefined-empty : (a : Option String) → or_undefined (or_empty a) ≡ kept a
or_undefined-empty none = refl
or_undefined-empty (some s) = elim (Bool-cases (nonempty s)) [
  | inl e ↦ rw (e, e) refl
  | inr e ↦ rw e refl
]

abbrev IsOpenVpn : ProtocolType → Type 0
IsOpenVpn p = (p ≡ ProtocolType.openvpn_udp) ⊎ (p ≡ ProtocolType.openvpn_tcp)

protocol_or-IsOpenVpn :
    (s : Option String) (p : ProtocolType) → IsOpenVpn p → IsOpenVpn (protocol_or s p)
protocol_or-IsOpenVpn none p h = h
protocol_or-IsOpenVpn (some s) p h = elim (Bool-cases (starts_with (codes "tcp") (lower s))) [
  | inl e ↦ rw e (inr refl)
  | inr e ↦ rw e (inl refl)
]

secret_for-openvpn :
    (p : ProtocolType) (f : Form)
    → IsOpenVpn p
    → secret_for p f ≡ some (ProfileSecretPayload.user_password (openvpn_secret f))
unfolding secret_for
secret_for-openvpn p f (inl e) = rw e refl
secret_for-openvpn p f (inr e) = rw e refl

-- The secret of a file's values. The form asks for a server's certificate on the other side, also if the
-- file does not.
abbrev pub file_secret : Parsed → UserPasswordSecret
file_secret v = record {
  username = get_or v.username "";
  password = "";
  totp_secret = none;
  totp_format = some TotpFormat.append;
  ca_cert = kept v.ca_cert;
  client_cert = kept v.client_cert;
  client_key = kept v.client_key;
  tls_auth_key = kept v.tls_auth_key;
  tls_crypt_key = kept v.tls_crypt_key;
  key_direction = known_direction v.key_direction;
  remote_cert_tls_server = some true;
  reneg_sec = v.reneg_sec;
  ovpn_config = none;
}

or_empty-get_or : (a : Option String) → or_empty (or_opt a none) ≡ get_or a ""
or_empty-get_or none = refl
or_empty-get_or (some s) = elim (Bool-cases (nonempty s)) [
  | inl e ↦ rw (e, e) refl
  | inr e ↦ rw e (sym (empty-text s e))
]

remote_cert_tls-again :
    (content : String) → get_or (parse_openvpn content).remote_cert_tls_server true ≡ true
unfolding parse_openvpn
remote_cert_tls-again content =
    elim (Bool-cases (is_found (find_in_lines remote_cert_tls true content))) [
      | inl e ↦ rw e refl
      | inr e ↦ rw e refl
    ]

filled-secret :
    (v : Parsed) (name id : String) (ping : ℕ)
    → get_or v.remote_cert_tls_server true ≡ true
    → openvpn_secret (fill_form (imported_profile false v name id ping)) ≡ file_secret v
unfolding fill_form imported_profile
filled-secret v name id ping cert = λ i. record (file_secret v) {
  username = or_empty-get_or v.username i;
  ca_cert = or_undefined-empty v.ca_cert i;
  client_cert = or_undefined-empty v.client_cert i;
  client_key = or_undefined-empty v.client_key i;
  tls_auth_key = or_undefined-empty v.tls_auth_key i;
  tls_crypt_key = or_undefined-empty v.tls_crypt_key i;
  key_direction = chosen_direction-known_direction v.key_direction i;
  remote_cert_tls_server = some (cert i);
}

parse_openvpn-IsOpenVpn : (content : String) → IsOpenVpn (parse_openvpn content).protocol
unfolding parse_openvpn
parse_openvpn-IsOpenVpn content =
    protocol_or-IsOpenVpn (group 2 (find_in_lines remote true content)) _ (
      protocol_or-IsOpenVpn (group 0 (find_in_lines proto true content)) ProtocolType.openvpn_udp
        (inl refl))

-- The form that is opened on an imported OpenVPN file and saved without a change hands to the platform a
-- secret with no password, and with the user, the certificates, the keys, the direction and the interval
-- of renegotiation that were read from the file; those that are empty, and the direction `none`, are left
-- out. The check of the server's certificate is on, whether the file asks for it or not. The profile that
-- is saved has the file's protocol and host (the local host, if the file has none).
pub imported-form :
    (content name id id' : String) (ping nonce : ℕ)
    → let v = parse_openvpn content in
      let p = imported_profile false v name id ping in
      let f = fill_form p in
      (form_secret f ≡ some (ProfileSecretPayload.user_password (file_secret v)))
      × ((form_profile (some p) f id' nonce).protocol ≡ v.protocol)
      × ((form_profile (some p) f id' nonce).server_host ≡ or_text (some v.server_host) "127.0.0.1")
unfolding form_secret fill_form imported_profile form_profile
imported-form content name id id' ping nonce =
    let v = parse_openvpn content in
    (
      secret_for-openvpn v.protocol _ (parse_openvpn-IsOpenVpn content)
          ∙ ap (λ s. some (ProfileSecretPayload.user_password s))
              (filled-secret v name id ping (remote_cert_tls-again content)),
      refl,
      refl,
    )
