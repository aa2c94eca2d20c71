-- ===== src/Tests/Screens.antt =====
-- The views at concrete stores.
use vpnhub.Prelude.{
  ◌≡◌, refl, ◌⊎◌, String, true, Option, none, some, List, [], ◌∷◌, ◌++◌, reverse, Selects, pos,
  false, show, arith,
}
use vpnhub.Types.{ConnectionState, LogLevel, LogEntry, VpnProfile, DaemonHealthStatus}
use vpnhub.Bridge.{Command, Outcome, DaemonReply}
use vpnhub.Totp.{is_space, all_space}
use vpnhub.World.{World, Task, Effect}
use vpnhub.Store.Initial.{initial_world}
use vpnhub.Store.Connection.{choose_profile, connect_params, resume_disconnect}
use vpnhub.Store.Connection.Races.{otp_password}
use vpnhub.Views.Text.{includes}
use vpnhub.Views.Trim.{trim}
use vpnhub.Views.Logs.{filtered_logs}
use vpnhub.Views.Logs.Filter.{IsWanted, filtered_logs-Selects}
use vpnhub.Views.Form.{
  DefaultProtocol, Form, empty_form, fill_form, form_profile, form_secret, form_credentials,
}
use vpnhub.Views.Form.Again.{form_profile-again}
use vpnhub.Views.Certificates.{Dialog, TlsMode, save_dialog, apply_config}
use vpnhub.Views.Certificates.Laws.{save_dialog-credentials}
use vpnhub.Views.Prompt.{open_prompt, submit_prompt, submit_prompt-request}
use vpnhub.Views.Power.{cockpit_toggle, banner_toggle, widget_toggle, card_click, deck_click}
use vpnhub.Views.Power.Twice.{power-twice}
use vpnhub.Views.Power.Down.{IsDisconnected, cockpit_toggle-IsDisconnected}
use vpnhub.Views.Power.Uptime.{format_uptime}
use vpnhub.Views.Pane.{Limits, Storage, Pane, mount_pane, mouse_down, mouse_move, parse_int}
use vpnhub.Views.Pane.Reach.{
  Reachable, mounted, further, grabbed, moved, HoldsOf, Reachable-HoldsOf,
}
use vpnhub.Tests.Data.{desk, office, lab, asked, with_profiles, in_state}

abbrev entry : String → LogLevel → String → LogEntry
entry id level message = record {
  id = id;
  timestamp = "07:05:09.042";
  level = level;
  source = "TUNNEL_ENGINE";
  message = message;
}

abbrev three_logs : List LogEntry
three_logs =
    entry "a" LogLevel.info "Handshake"
    ∷ entry "b" LogLevel.error "Connection failed"
    ∷ entry "c" LogLevel.error "handshake failed"
    ∷ []

filtered_logs-Selects_example :
    Selects (IsWanted "ERROR" "HAND") three_logs (reverse (filtered_logs three_logs "ERROR" "HAND"))
filtered_logs-Selects_example = filtered_logs-Selects three_logs "ERROR" "HAND"

filtered_logs_example :
    filtered_logs three_logs "ERROR" "HAND" ≡ entry "c" LogLevel.error "handshake failed" ∷ []
unfolding filtered_logs all_space includes
filtered_logs_example = refl

abbrev loved : VpnProfile
loved = record lab { is_favorite = true }

abbrev filled : Form
filled = record (empty_form DefaultProtocol.openvpn) {
  server_host = "vpn.example.com";
  username = "ada";
  password = "pw";
  custom_subnets_input = " 10.0.0.0/8,, 192.168.0.0/16";
}

form_profile-again_example :
    let p = form_profile (some office) filled "office" 7 in
    (form_profile (some p) (fill_form p) p.id 9 ≡ p)
    × (form_secret (fill_form p) ≡ form_secret filled)
unfolding empty_form
form_profile-again_example = form_profile-again (some office) filled "office" 7 9 refl

abbrev keys : Dialog
keys = record {
  ca_cert = " CA\n";
  tls_mode = TlsMode.tls_auth;
  tls_auth_key = "K1 ";
  tls_crypt_key = "K2";
  key_direction = "1";
  client_cert = "";
  client_key = "";
  remote_cert_tls_server = true;
  reneg_sec = none;
}

save_dialog-credentials_example :
    let c = form_credentials none (apply_config (save_dialog keys) filled) in
    ((c.tls_auth_key ≡ none) ⊎ (c.tls_crypt_key ≡ none))
    × ((keys.tls_mode ≡ TlsMode.tls_auth) ⊎ (c.key_direction ≡ none))
save_dialog-credentials_example = save_dialog-credentials keys filled none

submit_prompt-request_example :
    let w = with_profiles (office ∷ asked ∷ []) "office" in
    let v = submit_prompt desk asked (record (open_prompt asked) { totp_code = " 123456 " }) w in
    let params =
      connect_params asked w.store.security_settings (otp_password asked (trim " 123456 ")) in
    (v.store.connection_state ≡ ConnectionState.connecting)
    × (v.store.active_profile_id ≡ asked.id)
    × (v.store.mfa_prompt_profile ≡ none)
    × (v.effects ≡ Effect.invoke (Command.vpn_connect params) ∷ w.effects)
    × (v.tasks ≡ w.tasks ++ Task.connect_response params ∷ [])
unfolding with_profiles initial_world choose_profile
submit_prompt-request_example =
    submit_prompt-request desk asked " 123456 " (with_profiles (office ∷ asked ∷ []) "office") refl
      refl refl refl

-- The same, while the daemon answers.
unfoldable online : ConnectionState → World
unfolding in_state
online state =
    let w = in_state state in
    record w { store = record (w.store) { daemon_health = DaemonHealthStatus.connected } }

power-twice_example :
    let w = online ConnectionState.reconnecting in
    let cockpit = cockpit_toggle desk w.store in
    let banner = banner_toggle desk w.store in
    let widget = widget_toggle desk w.store in
    let card = card_click desk w.store lab in
    let deck = deck_click desk w.store lab in
    (cockpit (cockpit w) ≡ cockpit w)
    × (banner (banner w) ≡ banner w)
    × (widget (widget w) ≡ widget w)
    × (card (card w) ≡ card w)
    × (deck (deck w) ≡ deck w)
unfolding online in_state with_profiles initial_world
power-twice_example =
    let w = online ConnectionState.reconnecting in power-twice desk w.store lab w refl

cockpit_toggle-IsDisconnected_example :
    let w = online ConnectionState.reconnecting in
    let v = cockpit_toggle desk w.store w in
    (IsDisconnected v.store × (v.tasks ≡ w.tasks))
    ⊎ ((v.tasks ≡ w.tasks ++ Task.disconnect_response ∷ [])
        × ((answer : Outcome (Option DaemonReply))
            → IsDisconnected (resume_disconnect desk answer v).store))
unfolding online in_state with_profiles initial_world
cockpit_toggle-IsDisconnected_example =
    cockpit_toggle-IsDisconnected desk (online ConnectionState.reconnecting) refl refl refl

format_uptime_example : format_uptime 3661 ≡ "01:01:01"
unfolding format_uptime show
format_uptime_example = refl

abbrev sidebar : Limits
sidebar = record { default_width = 230; min_width = 230; max_width = 380 }

abbrev saved : Storage
saved = Storage.kept (some " 412px") (some "true")

unfoldable resized : Pane
unfolding mouse_move mouse_down mount_pane
resized = mouse_move sidebar (pos 301) "5" (mouse_down false false (mount_pane sidebar saved))

resized-Reachable : Reachable sidebar saved resized
unfolding resized
resized-Reachable = further (further mounted (grabbed false false)) (moved (pos 301) "5")

Reachable-HoldsOf_example : HoldsOf sidebar resized
Reachable-HoldsOf_example =
    Reachable-HoldsOf sidebar saved resized (omega arith, omega arith) resized-Reachable

mount_pane_example : (mount_pane sidebar saved).expanded_width.whole ≡ 380
unfolding mount_pane parse_int is_space
mount_pane_example = refl
