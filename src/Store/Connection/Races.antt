-- ===== src/Store/Connection/Races.antt =====
-- The tasks that `connect` and `disconnect` leave pending, and what happens if they overtake each other.
use vpnhub.Prelude.{
  ◌≡◌, refl, ap, ◌∙◌, ◌⊎◌, inl, inr, String, Bool, true, false, Option, none, some, [], ◌∷◌, ◌++◌,
  get_or, pos, str_eq, Bool-cases,
}
use vpnhub.Types.{ConnectionState, VpnProfile, SecuritySettings}
use vpnhub.Types.Equality.{state_eq}
use vpnhub.Bridge.{Command, Outcome, resolved, rejected, DaemonReply}
use vpnhub.World.{Platform, World, Task, Effect, branch}
use vpnhub.Store.Logs.{add_log}
use vpnhub.Store.Connection.{
  credentials_of, is_down, combine_otp, connect_params, disconnect, abort_connect, tear_down,
  resume_otp, resume_connect, resume_disconnect,
}
use vpnhub.Store.Connection.Guards.{send_request_lem}

-- The password that goes out with a one-time code.
abbrev pub otp_password : VpnProfile → String → String
otp_password p live_otp =
    combine_otp (credentials_of p).totp_format (get_or (credentials_of p).password "") live_otp

-- Once the one-time code is there, `connect` sends one request in the desktop shell, whatever the state
-- is by then: with the settings of the call, and with the password that the profile's format makes of
-- the saved password and the code.
pub resume_otp-request :
    (platform : Platform) (p : VpnProfile) (settings : SecuritySettings) (live_otp : String)
    (w : World)
    → platform.tauri ≡ true
    → let v = resume_otp platform p settings live_otp w in
      let params = connect_params p settings (otp_password p live_otp) in
      (v.store.connection_state ≡ w.store.connection_state)
      × (v.effects ≡ Effect.invoke (Command.vpn_connect params) ∷ w.effects)
      × (v.tasks ≡ w.tasks ++ Task.connect_response params ∷ [])
unfolding resume_otp add_log
resume_otp-request platform p settings live_otp w shell =
    rw (send_request_lem platform p settings (otp_password p live_otp) _ shell) (refl, refl, refl)

-- `disconnect` in the middle of a handshake takes the store to `disconnected` at once, and the daemon is
-- told to abort, with the tray cleared before.
pub disconnect-connecting :
    (platform : Platform) (w : World)
    → platform.tauri ≡ true
    → w.store.connection_state ≡ ConnectionState.connecting
    → let v = disconnect platform w in
      (v.store.connection_state ≡ ConnectionState.disconnected)
      × (v.store.connected_at ≡ none)
      × (v.store.uptime_seconds ≡ pos 0)
      × (v.effects
          ≡ Effect.invoke (Command.vpn_disconnect true)
            ∷ Effect.invoke (Command.tray_set_status ConnectionState.disconnected)
            ∷ w.effects)
      × (v.tasks ≡ w.tasks)
unfolding disconnect abort_connect add_log branch
disconnect-connecting platform w shell e = rw (e, shell, branch) (refl, refl, refl, refl, refl)

-- `disconnect` on a tunnel that is up, in error or coming back, followed by any answer of the daemon,
-- leaves the store disconnected, with no start time and no uptime; before the answer it is
-- `disconnecting`, and the one command that is sent asks the daemon for a tear-down without force.
pub disconnect-resume_disconnect :
    (platform : Platform) (w : World) (answer : Outcome (Option DaemonReply))
    → platform.tauri ≡ true
    → is_down w.store.connection_state ≡ false
    → state_eq w.store.connection_state ConnectionState.connecting ≡ false
    → let v = disconnect platform w in
      let u = resume_disconnect platform answer v in
      (v.store.connection_state ≡ ConnectionState.disconnecting)
      × (v.effects ≡ Effect.invoke (Command.vpn_disconnect false) ∷ w.effects)
      × (v.tasks ≡ w.tasks ++ Task.disconnect_response ∷ [])
      × (u.store.connection_state ≡ ConnectionState.disconnected)
      × (u.store.connected_at ≡ none)
      × (u.store.uptime_seconds ≡ pos 0)
      × (u.effects ≡ v.effects)
unfolding disconnect tear_down resume_disconnect add_log branch
disconnect-resume_disconnect platform w (resolved r) shell up other =
    rw (up, other, shell) (refl, refl, refl, refl, refl, refl, refl)
disconnect-resume_disconnect platform w (rejected m) shell up other =
    rw (up, other, shell) (refl, refl, refl, refl, refl, refl, refl)

-- An abort while the one-time code is computed does not stop the handshake: the request is sent when
-- the code is there, behind the daemon's order to abort, and the store shows `disconnected` all the time.
pub resume_otp-disconnect :
    (platform : Platform) (p : VpnProfile) (settings : SecuritySettings) (live_otp : String)
    (w : World)
    → platform.tauri ≡ true
    → w.store.connection_state ≡ ConnectionState.connecting
    → let v = resume_otp platform p settings live_otp (disconnect platform w) in
      let params = connect_params p settings (otp_password p live_otp) in
      (v.store.connection_state ≡ ConnectionState.disconnected)
      × (v.effects
          ≡ Effect.invoke (Command.vpn_connect params)
            ∷ Effect.invoke (Command.vpn_disconnect true)
            ∷ Effect.invoke (Command.tray_set_status ConnectionState.disconnected)
            ∷ w.effects)
resume_otp-disconnect platform p settings live_otp w shell e =
    let (s, f, t) = resume_otp-request platform p settings live_otp (disconnect platform w) shell in
    let (s', a, u, f', t') = disconnect-connecting platform w shell e in
    (
      s ∙ s',
      f
          ∙ ap
              (λ es.
                Effect.invoke
                  (Command.vpn_connect (connect_params p settings (otp_password p live_otp)))
                ∷ es)
              f',
    )

abbrev pub is_refusal : Outcome (Option DaemonReply) → Bool
is_refusal (resolved none) = false
is_refusal (resolved (some r)) = str_eq r.status "error"
is_refusal (rejected message) = true

-- The answer to a request decides by itself: a rejection or an error of the daemon makes the state
-- `error`, whatever the state is by then, and any other answer changes nothing.
pub resume_connect-answer :
    (platform : Platform) (answer : Outcome (Option DaemonReply)) (w : World)
    → let v = resume_connect platform answer w in
      ((is_refusal answer ≡ true)
        × (v.store.connection_state ≡ ConnectionState.error)
        × (v.effects ≡ w.effects)
        × (v.tasks ≡ w.tasks))
      ⊎ ((is_refusal answer ≡ false) × (v ≡ w))
unfolding resume_connect add_log branch
resume_connect-answer platform (resolved none) w = inr (refl, refl)
resume_connect-answer platform (rejected m) w = inl (refl, refl, refl, refl)
resume_connect-answer platform (resolved (some r)) w = elim (Bool-cases (str_eq r.status "error")) [
  | inl e ↦ rw e (inl (refl, refl, refl, refl))
  | inr e ↦ rw e (inr (refl, refl))
]
