-- ===== src/Store/Subscriptions/Laws.antt =====
-- The listeners of the daemon's health and of the tunnel's status.
use vpnhub.Prelude.{
  ◌≡◌, refl, ◌⊎◌, inl, inr, Bool, true, false, none, some, ◌∷◌, get_or, pos, Bool-cases,
  if◌then◌else◌, ◌*◌, sub_ℕ,
}
use vpnhub.Types.{ConnectionState, DaemonHealthStatus}
use vpnhub.Types.Equality.{state_eq}
use vpnhub.Bridge.{Command}
use vpnhub.World.{Platform, World, Effect, branch}
use vpnhub.Store.Logs.{add_log}
use vpnhub.Store.Settings.{set_daemon_health}
use vpnhub.Store.Connection.{is_connecting_or_connected}
use vpnhub.Store.Subscriptions.{
  StatusSnapshot, on_daemon_status, lose_daemon, apply_snapshot, report, notify_once, set_session,
  was_notified,
}

-- When the daemon is reported gone (in the desktop shell), the store says so. A tunnel that was up or
-- coming up becomes `error`, while the tray shows `disconnected`; any other state stays, and nothing is sent. No new
-- promise is pending. A second report of that kind changes nothing.
pub on_daemon_status-offline :
    (platform : Platform) (w : World)
    → platform.tauri ≡ true
    → let v = on_daemon_status platform DaemonHealthStatus.offline w in
      let up = is_connecting_or_connected w.store.connection_state in
      (v.store.daemon_health ≡ DaemonHealthStatus.offline)
      × (is_connecting_or_connected v.store.connection_state ≡ false)
      × (((up ≡ true)
            × (v.store.connection_state ≡ ConnectionState.error)
            × (v.effects
                ≡ Effect.invoke (Command.tray_set_status ConnectionState.disconnected) ∷ w.effects))
          ⊎ ((up ≡ false)
              × (v.store.connection_state ≡ w.store.connection_state)
              × (v.effects ≡ w.effects)))
      × (v.tasks ≡ w.tasks)
      × (on_daemon_status platform DaemonHealthStatus.offline v ≡ v)
unfolding on_daemon_status lose_daemon set_daemon_health add_log branch
on_daemon_status-offline platform w shell =
    elim (Bool-cases (is_connecting_or_connected w.store.connection_state)) [
      | inl up ↦ rw (up, shell) (refl, refl, inl (refl, refl, refl), refl, refl)
      | inr down ↦ rw (down, down) (refl, refl, inr (refl, refl, refl), refl, refl)
    ]

-- What a status event with news sets, where `told` is the world in which it has been reported.
abbrev pub IsApplied : Platform → StatusSnapshot → World → World → Type 0
IsApplied platform snap told v =
    let session = get_or snap.session_duration_secs 0 in
    (v.store.connection_state ≡ snap.state)
    × (v.store.uptime_seconds ≡ pos session)
    × (v.store.connected_at ≡ (
        if state_eq snap.state ConnectionState.connected
        then some (sub_ℕ (platform.now told.reads) (session * 1000))
        else none))
    × (v.effects ≡ Effect.invoke (Command.tray_set_status snap.state) ∷ told.effects)

-- In the desktop shell, a status event that brings no new state changes nothing at all. Any other sets
-- the state and the uptime to what the daemon says, sets the start time back by the uptime if the tunnel
-- is up and clears it otherwise, and shows the state in the tray after it has reported it.
pub apply_snapshot_lem :
    (platform : Platform) (snap : StatusSnapshot) (w : World)
    → platform.tauri ≡ true
    → ((state_eq snap.state w.store.connection_state ≡ true) × (apply_snapshot platform snap w ≡ w))
      ⊎ ((state_eq snap.state w.store.connection_state ≡ false)
          × IsApplied platform snap
              (report platform w.store snap snap.state w)
              (apply_snapshot platform snap w))
unfolding apply_snapshot set_session branch
apply_snapshot_lem platform snap w shell =
    elim (Bool-cases (state_eq snap.state w.store.connection_state)) [
      | inl same ↦ inl (same, rw same refl)
      | inr news ↦ inr (news, rw (news, shell) (refl, refl, refl, refl))
    ]

state_eq_refl : (s : ConnectionState) → state_eq s s ≡ true
state_eq_refl ConnectionState.disconnected = refl
state_eq_refl ConnectionState.connecting = refl
state_eq_refl ConnectionState.connected = refl
state_eq_refl ConnectionState.reconnecting = refl
state_eq_refl ConnectionState.disconnecting = refl
state_eq_refl ConnectionState.error = refl

-- A toast for a state is shown once: a second one for the same state changes nothing, until another
-- state is noted.
pub notify_once-twice :
    (enabled : Bool) (state : ConnectionState) (first second : Effect) (w : World)
    → notify_once enabled state second (notify_once enabled state first w)
      ≡ notify_once enabled state first w
unfolding notify_once branch
notify_once-twice false state first second w = refl
notify_once-twice true state first second w =
    elim (Bool-cases (was_notified w.last_notified_state state)) [
      | inl old ↦ rw (old, old) refl
      | inr new ↦ rw (new, state_eq_refl state) refl
    ]
