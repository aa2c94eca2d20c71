-- ===== src/Views/Certificates/Laws.antt =====
-- What the dialog for certificates leaves in the profile form.
use vpnhub.Prelude.{
  ◌≡◌, refl, ap, ◌∙◌, ◌⊎◌, inl, inr, String, true, Option, none, some, nonempty, or_text,
  Bool-cases,
}
use vpnhub.Types.{VpnProfile}
use vpnhub.Views.Trim.{trim, trim-twice}
use vpnhub.Views.Form.{Form, or_empty, or_undefined, form_credentials}
use vpnhub.Views.Form.Again.{or_empty-undefined, or_empty-some}
use vpnhub.Views.Certificates.{
  TlsMode, Dialog, mode_of, open_dialog, if_auth, if_crypt, save_dialog, dialog_config,
  apply_config,
}

mode_cases : (m : TlsMode) → (m ≡ TlsMode.tls_auth) ⊎ ((m ≡ TlsMode.tls_crypt) ⊎ (m ≡ TlsMode.off))
mode_cases TlsMode.off = inr (inr refl)
mode_cases TlsMode.tls_auth = inl refl
mode_cases TlsMode.tls_crypt = inr (inl refl)

-- Whatever the dialog holds, the profile that is saved with its values has at most one of the two TLS
-- keys, and a key direction only beside the choice of tls-auth.
pub save_dialog-credentials :
    (d : Dialog) (f : Form) (initial : Option VpnProfile)
    → let c = form_credentials initial (apply_config (save_dialog d) f) in
      ((c.tls_auth_key ≡ none) ⊎ (c.tls_crypt_key ≡ none))
      × ((d.tls_mode ≡ TlsMode.tls_auth) ⊎ (c.key_direction ≡ none))
unfolding form_credentials apply_config save_dialog
save_dialog-credentials d f initial = elim (mode_cases d.tls_mode) [
  | inl e ↦ rw e (inr refl, inl refl)
  | inr (inl e) ↦ rw e (inl refl, inr refl)
  | inr (inr e) ↦ rw e (inl refl, inr refl)
]

-- `s.trim() || undefined`
abbrev kept : String → Option String
kept s = or_undefined (trim s)

-- The same value, once it has been through the form.
abbrev shown : Option String → Option String
shown s = some (or_empty s)

kept-again : (s : String) → kept (or_empty (shown (kept s))) ≡ kept s
kept-again s =
    ap kept (or_empty-some _ ∙ or_empty-undefined (trim s)) ∙ ap or_undefined (trim-twice s)

abbrev CanReopen : TlsMode → String → String → Type 0
CanReopen TlsMode.tls_auth key direction =
    (nonempty (trim key) ≡ true) × (nonempty direction ≡ true)
CanReopen _ key direction = Unit

abbrev Reopens : TlsMode → Option String → Option String → Option String → Type 0
Reopens m a c d =
    (if_auth m (kept (or_empty (shown a))) ≡ a)
    × (if_crypt m (kept (or_empty (shown c))) ≡ c)
    × (if_auth m (some (or_text (some (or_text d "none")) "none")) ≡ d)

mode-again :
    (m : TlsMode) (auth crypt direction : String)
    → CanReopen m auth direction
    → let a = if_auth m (kept auth) in
      let c = if_crypt m (kept crypt) in
      Reopens (mode_of (shown a) (shown c)) a c (if_auth m (some direction))
unfolding mode_of
mode-again TlsMode.off auth crypt direction h = (refl, refl, refl)
mode-again TlsMode.tls_auth auth crypt direction (k, d) =
    rw (or_empty-undefined (trim auth), k, trim-twice auth, k, d, d) (refl, refl, refl)
mode-again TlsMode.tls_crypt auth crypt direction h = elim (Bool-cases (nonempty (trim crypt))) [
  | inl e ↦ rw (or_empty-undefined (trim crypt), e, trim-twice crypt, e) (refl, refl, refl)
  | inr e ↦ rw e (refl, refl, refl)
]

-- The dialog that is opened again on the form in which its values were saved, and saved without a
-- change, gives the same values. Where tls-auth is chosen, a key that is more than space is assumed, and
-- a key direction that is not empty, as the selector sees to.
pub save_dialog-again :
    (d : Dialog) (f : Form)
    → CanReopen d.tls_mode d.tls_auth_key d.key_direction
    → save_dialog (open_dialog (dialog_config (apply_config (save_dialog d) f))) ≡ save_dialog d
unfolding save_dialog open_dialog dialog_config apply_config
save_dialog-again d f h =
    let (a, c, k) = mode-again d.tls_mode d.tls_auth_key d.tls_crypt_key d.key_direction h in
    λ i. record (save_dialog d) {
      ca_cert = kept-again d.ca_cert i;
      tls_auth_key = a i;
      tls_crypt_key = c i;
      key_direction = k i;
      client_cert = kept-again d.client_cert i;
      client_key = kept-again d.client_key i;
    }
