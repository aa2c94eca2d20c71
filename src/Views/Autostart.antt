-- ===== src/Views/Autostart.antt =====
-- The start with the desktop (components/settings/SettingsView.tsx). The shell's plugin registers it: what
-- it answers is a value.
use vpnhub.Prelude.{◌≡◌, refl, Bool, true, false, not, none, some, Bool-cases, inl, inr}
use vpnhub.Bridge.{Outcome, resolved, rejected}
use vpnhub.World.{Platform, World, Action, pass, branch}
use vpnhub.Store.Initial.{PartialAppSettings, spread_app_settings}
use vpnhub.Store.Logs.{add_log}
use vpnhub.Store.Settings.{update_app_settings}

abbrev auto_launch_change : Bool → PartialAppSettings
auto_launch_change b = record {
  auto_launch = some b;
  start_minimized = none;
  auto_connect = none;
  minimize_to_tray = none;
  notifications_enabled = none;
  auto_reconnect = none;
  language = none;
}

abbrev same : Bool → Bool → Bool
same true b = b
same false b = not b

-- The effect at the first rendering, once the plugin has answered; `seen` is `appSettings.autoLaunch` of
-- that rendering.
unfoldable pub on_autostart_answer : Platform → (seen : Bool) → Outcome Bool → Action
on_autostart_answer platform seen (resolved enabled) =
    branch (same enabled seen) pass (update_app_settings platform (auto_launch_change enabled))
on_autostart_answer platform seen (rejected e) = pass

pub data AutostartCall : Type 0 where
  enable_autostart disable_autostart : AutostartCall

-- `handleToggleAutoLaunch`: what it does to the store, and the call that follows. What the plugin answers
-- changes nothing.
unfoldable pub handle_toggle_auto_launch : Platform → (checked : Bool) → Action
handle_toggle_auto_launch platform checked =
    update_app_settings platform (auto_launch_change checked)

abbrev pub autostart_call : (checked : Bool) → AutostartCall
autostart_call true = AutostartCall.enable_autostart
autostart_call false = AutostartCall.disable_autostart

-- Whether the desktop starts the program, after a call that it accepts or not.
abbrev pub registered_after : (accepted registered : Bool) → AutostartCall → Bool
registered_after false registered c = registered
registered_after true registered AutostartCall.enable_autostart = true
registered_after true registered AutostartCall.disable_autostart = false

same-eq : (b c : Bool) → same b c ≡ true → c ≡ b
same-eq true true h = refl
same-eq false false h = refl
same-eq true false h = cc
same-eq false true h = cc

on_autostart_answer-auto_launch :
    (platform : Platform) (enabled : Bool) (w : World)
    → let v = on_autostart_answer platform w.store.app_settings.auto_launch (resolved enabled) w in
      v.store.app_settings.auto_launch ≡ enabled
unfolding on_autostart_answer update_app_settings add_log branch spread_app_settings
on_autostart_answer-auto_launch platform enabled w =
    elim (Bool-cases (same enabled w.store.app_settings.auto_launch)) [
      | inl e ↦ simp e (same-eq enabled w.store.app_settings.auto_launch e)
      | inr e ↦ simp e refl
    ]

-- After the switch is set, the setting is what the desktop does if it accepts; and in any case it is again
-- what the desktop does once the view has been opened the next time.
pub handle_toggle_auto_launch-registered :
    (platform : Platform) (checked accepted registered : Bool) (w : World)
    → let v = handle_toggle_auto_launch platform checked w in
      let now = registered_after accepted registered (autostart_call checked) in
      let u = on_autostart_answer platform v.store.app_settings.auto_launch (resolved now) v in
      (accepted ≡ true → v.store.app_settings.auto_launch ≡ now)
      × (u.store.app_settings.auto_launch ≡ now)
unfolding handle_toggle_auto_launch update_app_settings add_log spread_app_settings
handle_toggle_auto_launch-registered platform checked accepted registered w =
    (agrees checked accepted, on_autostart_answer-auto_launch platform _ _)
  where
    agrees : (c a : Bool) → a ≡ true → c ≡ registered_after a registered (autostart_call c)
    agrees true true h = refl
    agrees false true h = refl
    agrees c false h = cc
