-- ===== src/I18n/Language.antt =====
-- The language that is chosen stays.
use vpnhub.Prelude.{◌≡◌, refl, Option, none, some, head?}
use vpnhub.Types.{AppLanguage, AppSettings}
use vpnhub.World.{Platform, World, Effect}
use vpnhub.Store.Logs.{add_log}
use vpnhub.Store.Initial.{PartialAppSettings, SavedSettings, initial_world}
use vpnhub.Store.Settings.{update_app_settings}
use vpnhub.I18n.{dictionaries, use_translation, set_language}

abbrev given {ℓ} : {A : Type ℓ} → Option A → Option (Option A)
given none = none
given (some a) = some (some a)

-- What `JSON.parse` makes of the settings that `JSON.stringify` has written: a property that was
-- `undefined` is not there.
abbrev pub written : AppSettings → PartialAppSettings
written s = record {
  auto_launch = some s.auto_launch;
  start_minimized = some s.start_minimized;
  auto_connect = some s.auto_connect;
  minimize_to_tray = some s.minimize_to_tray;
  notifications_enabled = given s.notifications_enabled;
  auto_reconnect = given s.auto_reconnect;
  language = given s.language;
}

-- The language that is set is shown at once, its settings are saved, and it is shown again after the next
-- start with what was saved.
pub set_language-use_translation :
    (platform : Platform) (lang : AppLanguage) (w : World)
    → let v = set_language platform lang w in
      (use_translation v.store ≡ dictionaries lang)
      × (head? v.effects ≡ some (Effect.save_app_settings v.store.app_settings))
      × (use_translation
            (initial_world platform (SavedSettings.parsed (written v.store.app_settings))).store
          ≡ dictionaries lang)
unfolding set_language update_app_settings initial_world add_log
set_language-use_translation platform lang w = (refl, refl, refl)
