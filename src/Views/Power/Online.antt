-- ===== src/Views/Power/Online.antt =====
-- The network comes back.
use vpnhub.Prelude.{
  ◌≡◌, String, Bool, true, false, not, ◌&&◌, none, some, [], ◌∷◌, ◌++◌, nonempty, is_true, arith,
}
use vpnhub.Types.{ConnectionState, VpnProfile}
use vpnhub.Types.Equality.{state_eq}
use vpnhub.Bridge.{Command}
use vpnhub.World.{Platform, World, Task, Effect, branch-true}
use vpnhub.Store.Logs.{add_log}
use vpnhub.Store.Connection.{is_connecting_or_connected, connect_params}
use vpnhub.Store.Connection.Guards.{chosen, needs_prompt, needs_otp, connect-request}
use vpnhub.Views.Power.{can_reconnect, handle_online}

can_reconnect-idle :
    (s : ConnectionState) (auto : Bool) (id : String)
    → auto ≡ true
    → nonempty id ≡ true
    → is_connecting_or_connected s ≡ false
    → (auto
        && (nonempty id
            && (not (state_eq s ConnectionState.connected)
                && not (state_eq s ConnectionState.connecting))))
      ≡ true
can_reconnect-idle s auto id a n idle = rw (a, n) (ground (arith, idle))

-- When the network is back, a store that is neither connected nor connecting starts a handshake for the
-- active profile, in the desktop shell with automatic reconnection, if the profile is found and neither a
-- password nor a one-time code is wanted. The state may well be `disconnected`, because the user has taken
-- the tunnel down.
pub handle_online-request :
    (platform : Platform) (w : World) {p : VpnProfile}
    → platform.tauri ≡ true
    → is_true w.store.app_settings.auto_reconnect ≡ true
    → nonempty w.store.active_profile_id ≡ true
    → is_connecting_or_connected w.store.connection_state ≡ false
    → chosen w.store (some w.store.active_profile_id) ≡ some p
    → needs_prompt p none ≡ false
    → needs_otp p none ≡ false
    → let v = handle_online platform w in
      let params = connect_params p w.store.security_settings "" in
      (v.store.connection_state ≡ ConnectionState.connecting)
      × (v.store.active_profile_id ≡ p.id)
      × (v.effects ≡ Effect.invoke (Command.vpn_connect params) ∷ w.effects)
      × (v.tasks ≡ w.tasks ++ Task.connect_response params ∷ [])
unfolding handle_online add_log
handle_online-request platform w shell auto active idle found asked plain =
    let can =
      can_reconnect-idle w.store.connection_state _ w.store.active_profile_id auto active idle in
    rw (branch-true (can_reconnect w.store) _ _ w can) (
      connect-request platform (some w.store.active_profile_id) none _ shell idle found asked plain)
