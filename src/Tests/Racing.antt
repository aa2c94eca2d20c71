-- ===== src/Tests/Racing.antt =====
-- Requests, aborts and answers at concrete stores.
use vpnhub.Prelude.{◌≡◌, refl, pos, true, false, none, [], ◌∷◌, ◌++◌, ◌⊎◌}
use vpnhub.Bridge.{Command, rejected}
use vpnhub.Types.{ConnectionState}
use vpnhub.World.{Task, Effect}
use vpnhub.Store.Connection.{
  connect_params, disconnect, resume_otp, resume_connect, resume_disconnect,
}
use vpnhub.Store.Connection.Races.{
  otp_password, is_refusal, disconnect-resume_disconnect, resume_otp-disconnect,
  resume_connect-answer,
}
use vpnhub.Tests.Data.{desk, lab, in_state}

disconnect-resume_disconnect_example :
    let w = in_state ConnectionState.connected in
    let v = disconnect desk w in
    let u = resume_disconnect desk (rejected "gone") v in
    (v.store.connection_state ≡ ConnectionState.disconnecting)
    × (v.effects ≡ Effect.invoke (Command.vpn_disconnect false) ∷ w.effects)
    × (v.tasks ≡ w.tasks ++ Task.disconnect_response ∷ [])
    × (u.store.connection_state ≡ ConnectionState.disconnected)
    × (u.store.connected_at ≡ none)
    × (u.store.uptime_seconds ≡ pos 0)
    × (u.effects ≡ v.effects)
unfolding in_state
disconnect-resume_disconnect_example =
    disconnect-resume_disconnect desk (in_state ConnectionState.connected) (rejected "gone") refl
      refl refl

resume_otp-disconnect_example :
    let w = in_state ConnectionState.connecting in
    let v = resume_otp desk lab w.store.security_settings "123456" (disconnect desk w) in
    let params = connect_params lab w.store.security_settings (otp_password lab "123456") in
    (v.store.connection_state ≡ ConnectionState.disconnected)
    × (v.effects
        ≡ Effect.invoke (Command.vpn_connect params)
          ∷ Effect.invoke (Command.vpn_disconnect true)
          ∷ Effect.invoke (Command.tray_set_status ConnectionState.disconnected)
          ∷ w.effects)
unfolding in_state
resume_otp-disconnect_example =
    resume_otp-disconnect desk lab (in_state ConnectionState.connecting).store.security_settings
      "123456" (in_state ConnectionState.connecting) refl refl

resume_connect-answer_example :
    let w = in_state ConnectionState.connecting in
    let v = resume_connect desk (rejected "gone") w in
    ((is_refusal (rejected "gone") ≡ true)
      × (v.store.connection_state ≡ ConnectionState.error)
      × (v.effects ≡ w.effects)
      × (v.tasks ≡ w.tasks))
    ⊎ ((is_refusal (rejected "gone") ≡ false) × (v ≡ w))
resume_connect-answer_example =
    resume_connect-answer desk (rejected "gone") (in_state ConnectionState.connecting)
