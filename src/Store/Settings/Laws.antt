-- ===== src/Store/Settings/Laws.antt =====
-- The kill switch: what the store keeps, what is saved, and what the daemon is told.
use vpnhub.Prelude.{◌≡◌, refl, true, not, some, ◌∷◌, get_or}
use vpnhub.Types.{KillSwitchMode}
use vpnhub.Types.Equality.{is_off}
use vpnhub.Bridge.{Command}
use vpnhub.Bridge.Methods.{stored_settings}
use vpnhub.World.{Platform, World, Effect}
use vpnhub.Store.Logs.{add_log}
use vpnhub.Store.Settings.{
  PartialSecuritySettings, set_kill_switch, update_security_settings, spread_security_settings,
}

-- `setKillSwitch` keeps the mode in the store, saves exactly the settings that the store then holds, and
-- tells the daemon the mode, with the switch enabled exactly if the mode is not `off`.
pub set_kill_switch-daemon :
    (platform : Platform) (mode : KillSwitchMode) (w : World)
    → platform.tauri ≡ true
    → let v = set_kill_switch platform mode w in
      (v.store.security_settings ≡ record (w.store.security_settings) { kill_switch = mode })
      × (v.effects
          ≡ Effect.invoke (Command.set_kill_switch (not (is_off mode)) (some mode))
            ∷ Effect.invoke
                (Command.storage_save_security_settings (stored_settings v.store.security_settings))
            ∷ w.effects)
unfolding set_kill_switch add_log
set_kill_switch-daemon platform mode w shell = rw shell (refl, refl)

-- `updateSecuritySettings` saves exactly the settings that the store then holds, and sends nothing else,
-- even if the kill switch is among the changes.
pub update_security_settings-saved :
    (platform : Platform) (changes : PartialSecuritySettings) (w : World)
    → platform.tauri ≡ true
    → let v = update_security_settings platform changes w in
      (v.store.security_settings.kill_switch
        ≡ get_or changes.kill_switch w.store.security_settings.kill_switch)
      × (v.effects
          ≡ Effect.invoke
              (Command.storage_save_security_settings (stored_settings v.store.security_settings))
            ∷ w.effects)
unfolding update_security_settings spread_security_settings add_log
update_security_settings-saved platform changes w shell = rw shell (refl, refl)
