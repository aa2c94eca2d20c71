-- ===== src/Views/Form/Again.antt =====
-- A profile that was saved with the form, opened in it again.
use vpnhub.Prelude.{
  ℕ, ◌+◌, ◌≡◌, ◌≢◌, refl, sym, ap, ◌∙◌, String, ◌<>◌, Bool, true, false, ◌||◌, Option, none, some,
  str_eq, eq_iff, nonempty, or_text, or_nat, Bool-cases, inl, inr, arith,
}
use vpnhub.Types.{ProtocolType, VpnProfile}
use vpnhub.Views.Subnets.{split_subnets, join_subnets, split_subnets-join, split_subnets-IsWord}
use vpnhub.Views.Form.{
  Form, default_port, kind_of, default_flag, flag_of, fill_form, or_empty, or_undefined,
  chosen_direction, form_credentials, form_profile, form_secret, secret_for, or_initial,
  initial_ping,
}

pub empty-text : (s : String) → nonempty s ≡ false → s ≡ ""
empty-text s h = (eq_iff s "").0 (ground (arith, h))

pub or_empty-some : (s : String) → or_empty (some s) ≡ s
or_empty-some s = elim (Bool-cases (nonempty s)) [
  | inl e ↦ rw e refl
  | inr e ↦ rw e (sym (empty-text s e))
]

-- A text that is left out if it is empty, and filled in again.
pub or_empty-undefined : (s : String) → or_empty (or_undefined s) ≡ s
or_empty-undefined s = elim (Bool-cases (nonempty s)) [
  | inl e ↦ rw (e, e) refl
  | inr e ↦ rw e (sym (empty-text s e))
]

direction-again : (d : String) → nonempty d ≡ true → or_text (chosen_direction d) "none" ≡ d
direction-again d h = elim (Bool-cases (str_eq d "none")) [
  | inl e ↦ rw e (sym ((eq_iff d "none").0 e))
  | inr e ↦ rw (e, h) refl
]

-- What the form of such a profile shows.
abbrev shown : Form → String → ℕ → String → Form
shown f name port ip = record f {
  name = name;
  server_port = port;
  virtual_ip = ip;
  custom_subnets_input = join_subnets (split_subnets f.custom_subnets_input);
}

fill_form-profile :
    (initial : Option VpnProfile) (f : Form) (id : String) (nonce : ℕ)
    → nonempty f.key_direction ≡ true
    → let p = form_profile initial f id nonce in
      fill_form p
      ≡ shown f p.name
          (or_nat (some p.server_port) (default_port f.protocol))
          (or_text (some p.virtual_ip) "10.8.0.2/24")
unfolding form_profile form_credentials fill_form
fill_form-profile initial f id nonce h =
    rw
      (
        or_empty-undefined f.username,
        or_empty-undefined f.password,
        or_empty-undefined f.private_key,
        or_empty-undefined f.preshared_key,
        or_empty-undefined f.totp_secret,
        or_empty-undefined f.ca_cert,
        or_empty-undefined f.tls_auth_key,
        or_empty-undefined f.tls_crypt_key,
        or_empty-undefined f.client_cert,
        or_empty-undefined f.client_key,
        direction-again f.key_direction h,
      )
      refl

or_text-again :
    (a d : String) → nonempty d ≡ true → or_text (some (or_text (some a) d)) d ≡ or_text (some a) d
or_text-again a d h = elim (Bool-cases (nonempty a)) [
  | inl e ↦ rw (e, e) refl
  | inr e ↦ rw (e, h) refl
]

port-again : (n d : ℕ) → d ≢ 0 → or_nat (some (or_nat (some n) d)) d ≡ or_nat (some n) d
port-again n d h = ground arith

default_port-positive : (p : ProtocolType) → default_port p ≢ 0
default_port-positive p = ground arith

initial-again :
    (field : VpnProfile → String) (initial : Option VpnProfile) (d : String)
    → nonempty d ≡ true
    → or_text (some (or_initial field initial d)) d ≡ or_initial field initial d
initial-again field none d h = rw h refl
initial-again field (some p) d h = or_text-again (field p) d h

ping-again :
    (initial : Option VpnProfile) (n m : ℕ)
    → or_nat (some (initial_ping initial (20 + n))) (20 + m) ≡ initial_ping initial (20 + n)
ping-again none n m = ground arith
ping-again (some p) n m = ground arith

flag-again : (b h : Bool) → b || (b || h) ≡ b || h
flag-again true h = refl
flag-again false h = refl

subnets-again : (s : String) → split_subnets (join_subnets (split_subnets s)) ≡ split_subnets s
subnets-again s = split_subnets-join (split_subnets s) (split_subnets-IsWord s)

kind-nonempty : (p : ProtocolType) → nonempty (kind_of p <> " Profile") ≡ true
kind-nonempty ProtocolType.wireguard = refl
kind-nonempty ProtocolType.openvpn_udp = refl
kind-nonempty ProtocolType.openvpn_tcp = refl
kind-nonempty ProtocolType.ipsec = refl

flag-nonempty : (p : ProtocolType) → nonempty (default_flag p) ≡ true
flag-nonempty ProtocolType.wireguard = refl
flag-nonempty ProtocolType.openvpn_udp = refl
flag-nonempty ProtocolType.openvpn_tcp = refl
flag-nonempty ProtocolType.ipsec = refl

-- The credentials' flags for what the platform keeps are as before.
credentials-again :
    (initial : Option VpnProfile) (f : Form) (id : String) (nonce : ℕ) (name : String) (port : ℕ)
    (ip : String)
    → form_credentials (some (form_profile initial f id nonce)) (shown f name port ip)
      ≡ form_credentials initial f
unfolding form_credentials form_profile
credentials-again initial f id nonce name port ip = λ i. record (form_credentials initial f) {
  has_cert = some (flag-again (nonempty f.client_cert) (flag_of (λ c. c.has_cert) initial) i);
  has_ca_cert = some (flag-again (nonempty f.ca_cert) (flag_of (λ c. c.has_ca_cert) initial) i);
  has_tls_auth =
      some (flag-again (nonempty f.tls_auth_key) (flag_of (λ c. c.has_tls_auth) initial) i);
  has_tls_crypt =
      some (flag-again (nonempty f.tls_crypt_key) (flag_of (λ c. c.has_tls_crypt) initial) i);
}

-- The profile that the form makes of what it shows is the one it was filled with.
shown-again :
    (initial : Option VpnProfile) (f : Form) (id : String) (nonce nonce' : ℕ)
    → let p = form_profile initial f id nonce in
      form_profile
        (some p)
        (shown f p.name
          (or_nat (some p.server_port) (default_port f.protocol))
          (or_text (some p.virtual_ip) "10.8.0.2/24"))
        p.id
        nonce'
      ≡ p
unfolding form_profile
shown-again initial f id nonce nonce' =
    let p = form_profile initial f id nonce in
    let port = default_port f.protocol in
    let ip : String = "10.8.0.2/24" in
    λ i. record p {
      name = or_text-again f.name (kind_of f.protocol <> " Profile") (kind-nonempty f.protocol) i;
      server_port =
          (port-again (or_nat (some f.server_port) port) port (default_port-positive f.protocol)
              ∙ port-again f.server_port port (default_port-positive f.protocol))
            i;
      server_country = initial-again (λ q. q.server_country) initial "Configured Gateway" refl i;
      server_city = initial-again (λ q. q.server_city) initial "Remote DC" refl i;
      server_flag =
          initial-again (λ q. q.server_flag) initial (default_flag f.protocol)
            (flag-nonempty f.protocol) i;
      virtual_ip =
          (or_text-again (or_text (some f.virtual_ip) ip) ip refl
              ∙ or_text-again f.virtual_ip ip refl)
            i;
      ping_ms = ping-again initial nonce nonce' i;
      credentials = some (
          credentials-again initial f id nonce p.name (or_nat (some p.server_port) port)
            (or_text (some p.virtual_ip) ip) i);
      custom_subnets = some (subnets-again f.custom_subnets_input i);
    }

secret_for-shown :
    (p : ProtocolType) (f : Form) (name : String) (port : ℕ) (ip : String)
    → secret_for p (shown f name port ip) ≡ secret_for p f
unfolding secret_for
secret_for-shown ProtocolType.wireguard f name port ip = refl
secret_for-shown ProtocolType.openvpn_udp f name port ip = refl
secret_for-shown ProtocolType.openvpn_tcp f name port ip = refl
secret_for-shown ProtocolType.ipsec f name port ip = refl

-- A profile that was saved with the form is the same, with the same secret, if the form is opened on it
-- and saved without a change: no field is lost or added, the subnets are split as before, and the random
-- ping is kept. The form's key direction is assumed not to be empty, as its selector sees to.
pub form_profile-again :
    (initial : Option VpnProfile) (f : Form) (id : String) (nonce nonce' : ℕ)
    → nonempty f.key_direction ≡ true
    → let p = form_profile initial f id nonce in
      (form_profile (some p) (fill_form p) p.id nonce' ≡ p)
      × (form_secret (fill_form p) ≡ form_secret f)
unfolding form_secret
form_profile-again initial f id nonce nonce' h =
    let p = form_profile initial f id nonce in
    (
      ap (λ g. form_profile (some p) g p.id nonce') (fill_form-profile initial f id nonce h)
          ∙ shown-again initial f id nonce nonce',
      ap form_secret (fill_form-profile initial f id nonce h)
          ∙ secret_for-shown f.protocol f p.name
              (or_nat (some p.server_port) (default_port f.protocol))
              (or_text (some p.virtual_ip) "10.8.0.2/24"),
    )
