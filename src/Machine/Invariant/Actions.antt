-- ===== src/Machine/Invariant/Actions.antt =====
-- Each action of the store keeps an invariant.
use vpnhub.Prelude.{String, Bool, true, false, Option, none, some, ◌≡◌, refl, if◌then◌else◌}
use vpnhub.Types.{VpnProfile, AppRule, IpDomainRule, KillSwitchMode}
use vpnhub.Store.Initial.{PartialAppSettings}
use vpnhub.Store.Settings.{PartialSecuritySettings}
use vpnhub.Bridge.{Command, ProfileSecretPayload}
use vpnhub.World.{Platform, Action, World, Effect, invoke_request, branch}
use vpnhub.Machine.Invariant.{IsInvariant, is_request}
use vpnhub.Store.Profiles
use vpnhub.Store.Rules
use vpnhub.Store.Settings

module _ (platform : Platform) {P : World → Type 0} (I : IsInvariant platform P) where
  -- A command other than a request, in the shell or out of it.
  invoke_in :
      {w : World} (tauri : Bool) (c : Command)
      → is_request (Effect.invoke c) ≡ false
      → P w
      → P (invoke_request (if tauri then some c else none) w)
  invoke_in true c h p = I.effect p h
  invoke_in false c h p = p

  pub keeps-invoke :
      {w : World} (c : Command)
      → is_request (Effect.invoke c) ≡ false
      → P w
      → P (invoke_request (if platform.tauri then some c else none) w)
  keeps-invoke = invoke_in platform.tauri

  -- One of two actions, whatever the test says.
  pub keeps-if :
      {w : World} (b : Bool) (f g : Action)
      → P w
      → (P w → P (f w))
      → (P w → P (g w))
      → P (branch b f g w)
  unfolding branch
  keeps-if true f g p hf hg = hf p
  keeps-if false f g p hf hg = hg p

  pub keeps-select_profile :
      {w : World} (id : String) → P w → P (Profiles.select_profile platform id w)
  unfolding Profiles.select_profile
  keeps-select_profile id p = I.log _ _ _ (I.quiet p refl refl)

  pub keeps-add_profile :
      {w : World} (profile : VpnProfile) (secret : Option ProfileSecretPayload)
      → P w
      → P (Profiles.add_profile platform profile secret w)
  unfolding Profiles.add_profile
  keeps-add_profile profile secret p = I.log _ _ _ (keeps-invoke _ refl (I.quiet p refl refl))

  pub keeps-update_profile :
      {w : World} (profile : VpnProfile) (secret : Option ProfileSecretPayload)
      → P w
      → P (Profiles.update_profile platform profile secret w)
  unfolding Profiles.update_profile
  keeps-update_profile profile secret p = I.log _ _ _ (keeps-invoke _ refl (I.quiet p refl refl))

  keeps-save_found :
      {w : World} (found : Option VpnProfile) → P w → P (Profiles.save_found platform found w)
  unfolding Profiles.save_found
  keeps-save_found none p = p
  keeps-save_found (some found) p = keeps-invoke _ refl p

  pub keeps-toggle_favorite :
      {w : World} (id : String) → P w → P (Profiles.toggle_favorite platform id w)
  unfolding Profiles.toggle_favorite
  keeps-toggle_favorite id p = keeps-save_found _ (I.quiet p refl refl)

  pub keeps-delete_profile :
      {w : World} (id : String) → P w → P (Profiles.delete_profile platform id w)
  unfolding Profiles.delete_profile
  keeps-delete_profile id p = I.log _ _ _ (keeps-invoke _ refl (I.quiet p refl refl))

  pub keeps-add_app_rule : {w : World} (r : AppRule) → P w → P (Rules.add_app_rule platform r w)
  unfolding Rules.add_app_rule
  keeps-add_app_rule r p = I.log _ _ _ (keeps-invoke _ refl (I.quiet p refl refl))

  pub keeps-toggle_app_rule :
      {w : World} (id : String) → P w → P (Rules.toggle_app_rule platform id w)
  unfolding Rules.toggle_app_rule
  keeps-toggle_app_rule id p = keeps-invoke _ refl (I.quiet p refl refl)

  pub keeps-delete_app_rule :
      {w : World} (id : String) → P w → P (Rules.delete_app_rule platform id w)
  unfolding Rules.delete_app_rule
  keeps-delete_app_rule id p = keeps-invoke _ refl (I.quiet p refl refl)

  pub keeps-add_ip_rule : {w : World} (r : IpDomainRule) → P w → P (Rules.add_ip_rule platform r w)
  unfolding Rules.add_ip_rule
  keeps-add_ip_rule r p = I.log _ _ _ (keeps-invoke _ refl (I.quiet p refl refl))

  pub keeps-toggle_ip_rule :
      {w : World} (id : String) → P w → P (Rules.toggle_ip_rule platform id w)
  unfolding Rules.toggle_ip_rule
  keeps-toggle_ip_rule id p = keeps-invoke _ refl (I.quiet p refl refl)

  pub keeps-delete_ip_rule :
      {w : World} (id : String) → P w → P (Rules.delete_ip_rule platform id w)
  unfolding Rules.delete_ip_rule
  keeps-delete_ip_rule id p = keeps-invoke _ refl (I.quiet p refl refl)

  pub keeps-set_kill_switch :
      {w : World} (mode : KillSwitchMode) → P w → P (Settings.set_kill_switch platform mode w)
  unfolding Settings.set_kill_switch
  keeps-set_kill_switch mode p =
      I.log _ _ _ (keeps-invoke _ refl (keeps-invoke _ refl (I.quiet p refl refl)))

  pub keeps-update_security_settings :
      {w : World} (changes : PartialSecuritySettings)
      → P w
      → P (Settings.update_security_settings platform changes w)
  unfolding Settings.update_security_settings
  keeps-update_security_settings changes p = I.log _ _ _ (keeps-invoke _ refl (I.quiet p refl refl))

  pub keeps-update_app_settings :
      {w : World} (changes : PartialAppSettings)
      → P w
      → P (Settings.update_app_settings platform changes w)
  unfolding Settings.update_app_settings
  keeps-update_app_settings changes p = I.log _ _ _ (I.effect (I.quiet p refl refl) refl)
