-- ===== src/Machine/Frame/Calls.antt =====
-- The calls that leave the connection and the loading alone.
use vpnhub.Prelude.{◌≡◌, refl, true, false, Bool, String, Option, none, some}
use vpnhub.Types.{VpnProfile, KillSwitchMode}
use vpnhub.World.{Platform, World}
use vpnhub.Store.Logs.{add_log, clear_logs}
use vpnhub.Store.Profiles
use vpnhub.Store.Rules
use vpnhub.Store.Settings
use vpnhub.Store.Telemetry
use vpnhub.Machine.{Call, perform}
use vpnhub.Machine.Frame.{Frame, invoke_request-Frame, branch-Frame, invoke_twice-Frame}

save_found-Frame :
    (platform : Platform) (p : Option VpnProfile) (w : World)
    → Frame w (Profiles.save_found platform p w)
unfolding Profiles.save_found
save_found-Frame platform none w = (refl, (refl, refl, refl, λ g light. refl))
save_found-Frame platform (some p) w = invoke_request-Frame _ _

toggle_favorite-Frame :
    (platform : Platform) (id : String) (w : World)
    → Frame w (Profiles.toggle_favorite platform id w)
unfolding Profiles.toggle_favorite
toggle_favorite-Frame platform id w = save_found-Frame platform _ _

set_kill_switch-Frame :
    (platform : Platform) (mode : KillSwitchMode) (w : World)
    → Frame w (Settings.set_kill_switch platform mode w)
unfolding Settings.set_kill_switch add_log
set_kill_switch-Frame platform mode w = invoke_twice-Frame _ _ _

tick_telemetry-Frame :
    (platform : Platform) (w : World) → Frame w (Telemetry.tick_telemetry platform w)
unfolding Telemetry.tick_telemetry Telemetry.advance_telemetry Telemetry.reset_telemetry
tick_telemetry-Frame platform w =
    branch-Frame _ _ _ w w
      (branch-Frame _ _ _ w w (refl, (refl, refl, refl, λ g light. refl))
        (refl, (refl, refl, refl, λ g light. refl)))
      (branch-Frame _ _ _ w w (refl, (refl, refl, refl, λ g light. refl))
        (refl, (refl, refl, refl, λ g light. refl)))

-- The calls that neither connect, nor load, nor ping.
abbrev pub is_quiet : Call → Bool
is_quiet (Call.load_storage force) = false
is_quiet (Call.connect id password) = false
is_quiet Call.disconnect = false
is_quiet Call.retry_daemon_ipc = false
is_quiet Call.ping_all_profiles = false
is_quiet _ = true

pub perform-Frame :
    (platform : Platform) (c : Call) (w : World)
    → is_quiet c ≡ true
    → Frame w (perform platform c w)
unfolding perform add_log clear_logs Profiles.select_profile Profiles.add_profile
    Profiles.update_profile Profiles.delete_profile Profiles.set_mfa_prompt_profile
    Settings.set_active_tab Settings.set_spotlight_open Settings.set_compact_widget
    Settings.set_log_auto_scroll Settings.set_log_filter_level Settings.set_log_search_query
    Settings.set_daemon_health Settings.update_app_settings Settings.update_security_settings
    Rules.add_app_rule Rules.toggle_app_rule Rules.delete_app_rule Rules.add_ip_rule
    Rules.toggle_ip_rule Rules.delete_ip_rule
perform-Frame platform (Call.toggle_favorite id) w h = toggle_favorite-Frame platform id w
perform-Frame platform (Call.set_kill_switch mode) w h = set_kill_switch-Frame platform mode w
perform-Frame platform Call.tick_telemetry w h = tick_telemetry-Frame platform w
perform-Frame platform (Call.add_profile p secret) w h = invoke_request-Frame _ _
perform-Frame platform (Call.update_profile p secret) w h = invoke_request-Frame _ _
perform-Frame platform (Call.delete_profile id) w h = invoke_request-Frame _ _
perform-Frame platform (Call.update_security_settings changes) w h = invoke_request-Frame _ _
perform-Frame platform (Call.add_app_rule r) w h = invoke_request-Frame _ _
perform-Frame platform (Call.add_ip_rule r) w h = invoke_request-Frame _ _
perform-Frame platform (Call.toggle_app_rule id) w h = invoke_request-Frame _ _
perform-Frame platform (Call.delete_app_rule id) w h = invoke_request-Frame _ _
perform-Frame platform (Call.toggle_ip_rule id) w h = invoke_request-Frame _ _
perform-Frame platform (Call.delete_ip_rule id) w h = invoke_request-Frame _ _
perform-Frame platform (Call.load_storage force) w h = cc
perform-Frame platform (Call.connect id password) w h = cc
perform-Frame platform Call.disconnect w h = cc
perform-Frame platform Call.retry_daemon_ipc w h = cc
perform-Frame platform Call.ping_all_profiles w h = cc
perform-Frame platform _ w h = (refl, (refl, refl, refl, λ g light. refl))
