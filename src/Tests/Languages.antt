-- ===== src/Tests/Languages.antt =====
-- The languages.
use vpnhub.Prelude.{◌≡◌, refl, some, inr}
use vpnhub.Types.{AppLanguage, ConnectionState}
use vpnhub.Views.Power.{cockpit_toggle}
use vpnhub.Views.Power.Tooltip.{
  Press, text_of, action_of, power_tooltip, power_tooltip-cockpit_toggle,
}
use vpnhub.Store.Initial.{initial_world}
use vpnhub.I18n.{dictionaries, client_key_text, tls_auth_badge, replace, expand}
use vpnhub.I18n.En
use vpnhub.I18n.Fr
use vpnhub.I18n.Placeholders.{ShowsAll, dictionaries-ShowsAll}
use vpnhub.Tests.Data.{desk, with_profiles, in_state}

dictionaries-ShowsAll_example : ShowsAll (dictionaries AppLanguage.fr) "1704"
dictionaries-ShowsAll_example = dictionaries-ShowsAll AppLanguage.fr "1704" refl

power_tooltip-cockpit_toggle_example :
    let w = in_state ConnectionState.error in
    (p : Press) × (power_tooltip (dictionaries AppLanguage.zh) w.store
      ≡ text_of (dictionaries AppLanguage.zh) p)
    × (cockpit_toggle desk w.store w ≡ action_of desk w.store p w)
unfolding in_state with_profiles initial_world
power_tooltip-cockpit_toggle_example =
    let w = in_state ConnectionState.error in
    power_tooltip-cockpit_toggle desk (dictionaries AppLanguage.zh) w.store w (inr refl)

client_key_text_runs :
    client_key_text (dictionaries AppLanguage.fr) (some "1704") ≡ "Clé privée chargée (1704 car.)"
unfolding replace Fr.Dialogs.modals
client_key_text_runs = refl

-- A direction that `replace` reads as the mark itself.
tls_auth_badge_runs :
    tls_auth_badge (dictionaries AppLanguage.en) "$&" ≡ "✓ TLS-Auth (Dir: {direction})"
unfolding replace expand En.Dialogs.modals
tls_auth_badge_runs = refl
