-- ===== src/Views/Power/Down.antt =====
-- The power button of the cockpit on a tunnel that is up or coming up.
use vpnhub.Prelude.{
  ◌≡◌, ◌∙◌, ◌⊎◌, inl, inr, true, false, Option, none, [], ◌∷◌, ◌++◌, pos, Bool-cases, arith,
}
use vpnhub.Types.{ConnectionState}
use vpnhub.Types.Equality.{state_eq}
use vpnhub.Bridge.{Outcome, rejected, DaemonReply}
use vpnhub.World.{VpnStoreState, Platform, World, Task, branch-true, branch-false}
use vpnhub.Store.Connection.{is_down, disconnect, resume_disconnect}
use vpnhub.Store.Connection.Races.{disconnect-connecting, disconnect-resume_disconnect}
use vpnhub.Views.Power.{is_offline, is_up, cockpit_toggle}

-- No tunnel, no start time and no uptime.
abbrev pub IsDisconnected : VpnStoreState → Type 0
IsDisconnected s =
    (s.connection_state ≡ ConnectionState.disconnected)
    × (s.connected_at ≡ none)
    × (s.uptime_seconds ≡ pos 0)

cockpit_toggle-up :
    (platform : Platform) (w : World)
    → is_offline w.store.daemon_health ≡ false
    → is_up w.store.connection_state ≡ true
    → cockpit_toggle platform w.store w ≡ disconnect platform w
unfolding cockpit_toggle
cockpit_toggle-up platform w online up = branch-false _ _ _ w online ∙ branch-true _ _ _ w up

state_eq-connecting :
    (s : ConnectionState)
    → state_eq s ConnectionState.connecting ≡ true
    → s ≡ ConnectionState.connecting
state_eq-connecting s h = ground (arith, h)

up-not_down : (s : ConnectionState) → is_up s ≡ true → is_down s ≡ false
up-not_down s h = ground (arith, h)

-- With the daemon online, one press on the cockpit's button while a tunnel is up, coming up or coming back
-- takes it down: either the store is disconnected at once, or the tear-down has been sent and its answer
-- is awaited, and whatever the daemon answers, the store is disconnected then.
pub cockpit_toggle-IsDisconnected :
    (platform : Platform) (w : World)
    → platform.tauri ≡ true
    → is_offline w.store.daemon_health ≡ false
    → is_up w.store.connection_state ≡ true
    → let v = cockpit_toggle platform w.store w in
      (IsDisconnected v.store × (v.tasks ≡ w.tasks))
      ⊎ ((v.tasks ≡ w.tasks ++ Task.disconnect_response ∷ [])
          × ((answer : Outcome (Option DaemonReply))
              → IsDisconnected (resume_disconnect platform answer v).store))
cockpit_toggle-IsDisconnected platform w shell online up =
    rw (cockpit_toggle-up platform w online up)
      (elim (Bool-cases (state_eq w.store.connection_state ConnectionState.connecting)) [
        | inl e ↦
            let (state, start, uptime, _, tasks) =
              disconnect-connecting platform w shell (state_eq-connecting _ e) in
            inl ((state, start, uptime), tasks)
        | inr e ↦
            let other = up-not_down w.store.connection_state up in
            let (_, _, tasks, _, _, _, _) =
              disconnect-resume_disconnect platform w (rejected "") shell other e in
            inr (
              tasks,
              λ answer.
                  let (_, _, _, state, start, uptime, _) =
                    disconnect-resume_disconnect platform w answer shell other e in
                  (state, start, uptime),
            )
      ])
