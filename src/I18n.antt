-- ===== src/I18n.antt =====
-- packages/app/src/i18n: the languages, their texts, and the one that is shown.
pub mod Dictionary
pub mod En
pub mod Vi
pub mod Zh
pub mod Fr
pub mod Placeholders
pub mod Language
use Prim.Native.Char.{Char, code}
use vpnhub.Prelude.{
  ℕ, zero, suc, String, ◌<>◌, Bool, Option, none, some, List, [], ◌∷◌, get_or, codes, length,
  if◌then◌else◌, show, ◌==◌,
}
use vpnhub.Types.{AppLanguage, DaemonHealthStatus}
use vpnhub.Types.Equality.{health_eq}
use vpnhub.World.{VpnStoreState, Platform, Action}
use vpnhub.Store.Initial.{PartialAppSettings}
use vpnhub.Store.Settings.{update_app_settings}
use vpnhub.Views.Text.{starts_with}
use vpnhub.I18n.Dictionary.{TranslationDictionary}
use vpnhub.I18n.En.{en}
use vpnhub.I18n.Vi.{vi}
use vpnhub.I18n.Zh.{zh}
use vpnhub.I18n.Fr.{fr}

pub record LanguageOption : Type 0 where
  pub code : AppLanguage
  pub name : String
  pub native_name : String
  pub flag : String

abbrev pub supported_languages : List LanguageOption
supported_languages =
    record { code = AppLanguage.en; name = "English"; native_name = "English"; flag = "🇺🇸" }
    ∷ record { code = AppLanguage.vi; name = "Vietnamese"; native_name = "Tiếng Việt"; flag = "🇻🇳" }
    ∷ record { code = AppLanguage.zh; name = "Chinese"; native_name = "简体中文"; flag = "🇨🇳" }
    ∷ record { code = AppLanguage.fr; name = "French"; native_name = "Français"; flag = "🇫🇷" }
    ∷ []

abbrev pub dictionaries : AppLanguage → TranslationDictionary
dictionaries AppLanguage.en = en
dictionaries AppLanguage.vi = vi
dictionaries AppLanguage.zh = zh
dictionaries AppLanguage.fr = fr

abbrev pub get_dictionary : Option AppLanguage → TranslationDictionary
get_dictionary none = en
get_dictionary (some lang) = dictionaries lang

-- What `useTranslation` gives: the language, its texts, and `setLanguage`.
abbrev pub language : VpnStoreState → AppLanguage
language s = get_or s.app_settings.language AppLanguage.en

abbrev pub use_translation : VpnStoreState → TranslationDictionary
use_translation s = dictionaries (language s)

abbrev language_change : AppLanguage → PartialAppSettings
language_change lang = record {
  auto_launch = none;
  start_minimized = none;
  auto_connect = none;
  minimize_to_tray = none;
  notifications_enabled = none;
  auto_reconnect = none;
  language = some (some lang);
}

unfoldable pub set_language : Platform → AppLanguage → Action
set_language platform lang = update_app_settings platform (language_change lang)

drop : ℕ → String → String
drop zero s = s
drop (suc n) String.[] = String.[]
drop (suc n) (String.◌∷◌ c s) = drop n s

abbrev onto_before : Char → Option (String × String) → Option (String × String)
onto_before c none = none
onto_before c (some (before, after)) = some (String.◌∷◌ c before, after)

-- The text before the first occurrence of the mark, and the one behind it.
unfoldable pub cut : String → String → Option (String × String)
unfolding starts_with drop
cut mark String.[] = if starts_with (codes mark) [] then some ("", "") else none
cut mark (String.◌∷◌ c s) =
    let later = cut mark s in
    if starts_with (codes mark) (codes (String.◌∷◌ c s))
    then some ("", drop (length (codes mark)) (String.◌∷◌ c s))
    else onto_before c later

abbrev is_dollar : Char → Bool
is_dollar c = code c == b'$'

-- What a `$` and the character behind it stand for in `replace`, in front of the rest of the text. The
-- mark is no regular expression, so that a number or a name in `<>` stands for itself.
unfoldable pub dollar : (mark before after : String) → Char → String → String
dollar mark before after c rest =
    if code c == b'$'
    then "$" <> rest
    else if code c == b'&'
    then mark <> rest
    else if code c == 0x60
    then before <> rest
    else if code c == 0x27
    then after <> rest
    else "$" <> String.◌∷◌ c rest

-- The text that a value stands for, and what it stands for behind a `$`.
unfoldable pub expand : (mark before after : String) → String → String × String
unfolding dollar
expand mark before after String.[] = ("", "$")
expand mark before after (String.◌∷◌ c s) =
    let rest = expand mark before after s in
    (
      (if is_dollar c then rest.1 else String.◌∷◌ c (rest.0)),
      (if is_dollar c then "$" <> rest.0 else dollar mark before after c (rest.0)),
    )

-- `text.replace(mark, value)`
unfoldable pub replace : String → String → String → String
unfolding cut expand
replace text mark value = elim (cut mark text) [
  | none ↦ text
  | some (before, after) ↦ before <> ((expand mark before after value).0 <> after)
]

-- The texts that the views fill in.
abbrev pub core_text : TranslationDictionary → DaemonHealthStatus → String → String
core_text t health version =
    if health_eq health DaemonHealthStatus.connected
    then replace t.settings.core_ready "{version}" version
    else t.settings.core_offline

-- `latency` is the print of the milliseconds with two decimals.
abbrev pub ipc_daemon_text : TranslationDictionary → String → String
ipc_daemon_text t latency = replace t.settings.ipc_daemon_desc "{latency}" latency

abbrev loaded_text : (loaded missing : String) → Option String → String
loaded_text loaded missing none = missing
loaded_text loaded missing (some n) = replace loaded "{length}" n

-- What the dialog for certificates says of a text that is there, by the print of its length, or missing.
abbrev pub root_ca_text : TranslationDictionary → Option String → String
root_ca_text t = loaded_text t.modals.root_ca_loaded t.modals.root_ca_default_system

abbrev pub tls_key_text : TranslationDictionary → Option String → String
tls_key_text t = loaded_text t.modals.tls_key_loaded t.modals.no_key_loaded

abbrev pub client_cert_text : TranslationDictionary → Option String → String
client_cert_text t = loaded_text t.modals.client_cert_loaded t.modals.no_cert_loaded

abbrev pub client_key_text : TranslationDictionary → Option String → String
client_key_text t = loaded_text t.modals.client_key_loaded t.modals.no_private_key_loaded

abbrev pub tls_auth_badge : TranslationDictionary → String → String
tls_auth_badge t direction = replace t.modals.badge_tls_auth "{direction}" direction
