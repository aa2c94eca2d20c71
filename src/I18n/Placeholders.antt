-- ===== src/I18n/Placeholders.antt =====
-- The texts with a placeholder, in each language.
use Prim.Native.Char.{code}
use vpnhub.Prelude.{
  ◌≡◌, refl, ap, String, ◌<>◌, Bool, false, ◌||◌, ◌==◌, some, codes, Bool-cases, inl, inr,
}
use vpnhub.Types.{AppLanguage, DaemonHealthStatus}
use vpnhub.Views.Text.{includes}
use vpnhub.I18n.Dictionary.{TranslationDictionary}
use vpnhub.I18n.{
  dictionaries, cut, expand, replace, core_text, ipc_daemon_text, tls_auth_badge, root_ca_text,
  tls_key_text, client_cert_text, client_key_text,
}
use vpnhub.I18n.En
use vpnhub.I18n.Vi
use vpnhub.I18n.Zh
use vpnhub.I18n.Fr

abbrev pub has_dollar : String → Bool
has_dollar String.[] = false
has_dollar (String.◌∷◌ c s) = (code c == b'$') || has_dollar s

expand-plain :
    (mark before after value : String)
    → has_dollar value ≡ false
    → (expand mark before after value).0 ≡ value
unfolding expand
expand-plain mark before after String.[] plain = refl
expand-plain mark before after (String.◌∷◌ c s) plain = elim (Bool-cases (code c == b'$')) [
  | inl e ↦ let p = simp e at plain in cc
  | inr e ↦ rw (e, expand-plain mark before after s (simp e at plain)) refl
]

-- The text shows the value, between the two parts of the template, and these have no brace.
abbrev pub Shows : (template mark value shown : String) → Type 0
Shows template mark value shown =
    (before : String) × (after : String) × (cut mark template ≡ some (before, after))
    × (shown ≡ before <> (value <> after))
    × (includes (codes "{") (codes before) ≡ false)
    × (includes (codes "{") (codes after) ≡ false)

replace-Shows :
    (template mark value before after : String)
    → has_dollar value ≡ false
    → cut mark template ≡ some (before, after)
    → includes (codes "{") (codes before) ≡ false
    → includes (codes "{") (codes after) ≡ false
    → Shows template mark value (replace template mark value)
unfolding replace
replace-Shows template mark value before after plain e left right = (
  before,
  after,
  e,
  rw (replace, e) (ap (λ v. before <> (v <> after)) (expand-plain mark before after value plain)),
  left,
  right,
)

-- The texts that are filled in with a value, in one language.
abbrev pub ShowsAll : TranslationDictionary → String → Type 0
ShowsAll t value =
    Shows t.settings.core_ready "{version}" value (core_text t DaemonHealthStatus.connected value)
    × Shows t.settings.ipc_daemon_desc "{latency}" value (ipc_daemon_text t value)
    × Shows t.modals.badge_tls_auth "{direction}" value (tls_auth_badge t value)
    × Shows t.modals.root_ca_loaded "{length}" value (root_ca_text t (some value))
    × Shows t.modals.tls_key_loaded "{length}" value (tls_key_text t (some value))
    × Shows t.modals.client_cert_loaded "{length}" value (client_cert_text t (some value))
    × Shows t.modals.client_key_loaded "{length}" value (client_key_text t (some value))

-- In each language, the texts with a placeholder show the value that they are filled with, exactly once,
-- and no brace of their own, if the value has no `$`: the version and the latency of the daemon, the
-- direction of a key, and the lengths of a certificate and of the keys.
pub dictionaries-ShowsAll :
    (lang : AppLanguage) (value : String)
    → has_dollar value ≡ false
    → ShowsAll (dictionaries lang) value
unfolding cut includes En.Options.settings En.Dialogs.modals Vi.Options.settings Vi.Dialogs.modals
    Zh.Options.settings Zh.Dialogs.modals Fr.Options.settings Fr.Dialogs.modals
dictionaries-ShowsAll AppLanguage.en value plain = (
  replace-Shows _ _ value _ _ plain refl refl refl,
  replace-Shows _ _ value _ _ plain refl refl refl,
  replace-Shows _ _ value _ _ plain refl refl refl,
  replace-Shows _ _ value _ _ plain refl refl refl,
  replace-Shows _ _ value _ _ plain refl refl refl,
  replace-Shows _ _ value _ _ plain refl refl refl,
  replace-Shows _ _ value _ _ plain refl refl refl,
)
dictionaries-ShowsAll AppLanguage.vi value plain = (
  replace-Shows _ _ value _ _ plain refl refl refl,
  replace-Shows _ _ value _ _ plain refl refl refl,
  replace-Shows _ _ value _ _ plain refl refl refl,
  replace-Shows _ _ value _ _ plain refl refl refl,
  replace-Shows _ _ value _ _ plain refl refl refl,
  replace-Shows _ _ value _ _ plain refl refl refl,
  replace-Shows _ _ value _ _ plain refl refl refl,
)
dictionaries-ShowsAll AppLanguage.zh value plain = (
  replace-Shows _ _ value _ _ plain refl refl refl,
  replace-Shows _ _ value _ _ plain refl refl refl,
  replace-Shows _ _ value _ _ plain refl refl refl,
  replace-Shows _ _ value _ _ plain refl refl refl,
  replace-Shows _ _ value _ _ plain refl refl refl,
  replace-Shows _ _ value _ _ plain refl refl refl,
  replace-Shows _ _ value _ _ plain refl refl refl,
)
dictionaries-ShowsAll AppLanguage.fr value plain = (
  replace-Shows _ _ value _ _ plain refl refl refl,
  replace-Shows _ _ value _ _ plain refl refl refl,
  replace-Shows _ _ value _ _ plain refl refl refl,
  replace-Shows _ _ value _ _ plain refl refl refl,
  replace-Shows _ _ value _ _ plain refl refl refl,
  replace-Shows _ _ value _ _ plain refl refl refl,
  replace-Shows _ _ value _ _ plain refl refl refl,
)
