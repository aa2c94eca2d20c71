-- ===== src/Machine/States/Listeners.antt =====
-- What the listeners do to the state of the connection.
use vpnhub.Prelude.{
  ◌≡◌, ◌⊎◌, inl, inr, refl, true, false, Bool, Bool-cases, Option, none, some, List, [], ◌∷◌, ℕ,
  String, ◌∙◌, ◌&&◌, ◌||◌, str_eq,
}
use vpnhub.Types.{ConnectionState, DaemonHealthStatus, VpnProfile}
use vpnhub.Types.Equality.{state_eq, health_eq}
use vpnhub.Bridge.{Outcome, resolved, rejected, DaemonReply}
use vpnhub.World.{Platform, World, VpnStoreState, Effect, branch}
use vpnhub.Store.Logs.{add_log}
use vpnhub.Store.Settings.{set_daemon_health}
use vpnhub.Store.Connection.{is_connecting_or_connected}
use vpnhub.Store.Telemetry.{
  ping_one, ping_each, ping_all_profiles, resume_ping, apply_metrics, apply_result,
  on_metrics_update, Metrics, MetricsPayload,
}
use vpnhub.Store.Subscriptions
use vpnhub.Store.Subscriptions.{StatusSnapshot, StatusPayload}
use vpnhub.Store.Storage.{fire_auto_connect}
use vpnhub.Machine.States.{Cause, MayMove, may_move, is_told, state_of, reported_state}
use vpnhub.Machine.States.Actions.{
  state, invoke-state, branch-state, branch-holds, connect-state, disconnect-state,
}

state_eq_refl : (s : ConnectionState) → state_eq s s ≡ true
state_eq_refl ConnectionState.disconnected = refl
state_eq_refl ConnectionState.connecting = refl
state_eq_refl ConnectionState.connected = refl
state_eq_refl ConnectionState.reconnecting = refl
state_eq_refl ConnectionState.disconnecting = refl
state_eq_refl ConnectionState.error = refl

set_reported-state :
    (r : Option ConnectionState) (w : World)
    → (state (Subscriptions.set_reported r w) ≡ state w)
      ⊎ (is_told r (state (Subscriptions.set_reported r w)) ≡ true)
unfolding Subscriptions.set_reported
set_reported-state none w = inl refl
set_reported-state (some s) w = inr (state_eq_refl s)

notify_once-state :
    (enabled : Bool) (s : ConnectionState) (toast : Effect) (w : World)
    → state (Subscriptions.notify_once enabled s toast w) ≡ state w
unfolding Subscriptions.notify_once
notify_once-state enabled s toast w = branch-state _ _ _ w _ refl refl

notify_disconnected-state :
    (current : VpnStoreState) (w : World)
    → state (Subscriptions.notify_disconnected current w) ≡ state w
unfolding Subscriptions.notify_disconnected
notify_disconnected-state current w = branch-state _ _ _ w _ refl refl

report-state :
    (platform : Platform) (current : VpnStoreState) (snap : StatusSnapshot) (s : ConnectionState)
    (w : World)
    → state (Subscriptions.report platform current snap s w) ≡ state w
unfolding Subscriptions.report Subscriptions.report_connected Subscriptions.report_error
    Subscriptions.report_disconnected add_log
report-state platform current snap ConnectionState.connected w = notify_once-state _ _ _ _
report-state platform current snap ConnectionState.error w = notify_once-state _ _ _ _
report-state platform current snap ConnectionState.disconnected w =
    branch-state _ _ _ w _ (notify_disconnected-state current _) refl
report-state platform current snap _ w = refl

apply_snapshot-state :
    (platform : Platform) (snap : StatusSnapshot) (w : World)
    → (state (Subscriptions.apply_snapshot platform snap w) ≡ state w)
      ⊎ (is_told (some snap.state) (state (Subscriptions.apply_snapshot platform snap w)) ≡ true)
unfolding Subscriptions.apply_snapshot Subscriptions.set_session
apply_snapshot-state platform snap w =
    branch-holds (λ t. (t ≡ state w) ⊎ (is_told (some snap.state) t ≡ true)) _ _ _ w (inl refl)
      (inr (rw (invoke-state _ _) (state_eq_refl snap.state)))

apply_status-state :
    (platform : Platform) (b : Bool) (r : Option StatusSnapshot) (w : World)
    → (state (Subscriptions.apply_status platform b r w) ≡ state w)
      ⊎ (is_told (state_of r) (state (Subscriptions.apply_status platform b r w)) ≡ true)
unfolding Subscriptions.apply_status
apply_status-state platform true (some snap) w = apply_snapshot-state platform snap w
apply_status-state platform true none w = inl refl
apply_status-state platform false r w = inl refl

-- A status event moves to the state that it reports.
pub on_vpn_status-state :
    (platform : Platform) (payload : Option StatusPayload) (w : World)
    → MayMove
        (Cause.status_reported (reported_state payload))
        (state w)
        (state (Subscriptions.on_vpn_status platform payload w))
unfolding Subscriptions.on_vpn_status may_move
on_vpn_status-state platform none w = inl refl
on_vpn_status-state platform (some payload) w =
    apply_status-state platform (str_eq payload.status "status") payload.result w

lose_daemon-state :
    (platform : Platform) (w : World)
    → state (Subscriptions.lose_daemon platform w) ≡ ConnectionState.error
unfolding Subscriptions.lose_daemon add_log
lose_daemon-state platform w = invoke-state _ _

restore_daemon-state :
    (platform : Platform) (w : World) → state (Subscriptions.restore_daemon platform w) ≡ state w
unfolding Subscriptions.restore_daemon add_log
restore_daemon-state platform w = invoke-state _ _

-- A lost daemon breaks what is up or coming up.
pub on_daemon_status-state :
    (platform : Platform) (status : DaemonHealthStatus) (w : World)
    → MayMove
        (Cause.health_reported status)
        (state w)
        (state (Subscriptions.on_daemon_status platform status w))
unfolding Subscriptions.on_daemon_status set_daemon_health branch may_move
on_daemon_status-state platform status w =
    elim (Bool-cases (health_eq status DaemonHealthStatus.offline)) [
      | inl lost ↦ elim (Bool-cases (is_connecting_or_connected (state w))) [
        | inl up ↦ simp (lost, up) (inr (rw (lose_daemon-state platform _) refl))
        | inr down ↦ simp (lost, down) (inl refl)
      ]
      | inr there ↦
          elim (Bool-cases (
            health_eq status DaemonHealthStatus.connected
            && health_eq w.store.daemon_health DaemonHealthStatus.offline)) [
              | inl back ↦ simp (there, back) (inl (restore_daemon-state platform _))
              | inr other ↦ simp (there, other) (inl refl)
            ]
    ]

-- The tray's entry disconnects what is up, coming up or coming back, and connects otherwise.
pub on_tray_toggle-state :
    (platform : Platform) (w : World)
    → MayMove Cause.tray_pressed (state w) (state (Subscriptions.on_tray_toggle platform w))
unfolding Subscriptions.on_tray_toggle branch may_move
on_tray_toggle-state platform w =
    elim (Bool-cases
      (is_connecting_or_connected (state w) || state_eq (state w) ConnectionState.reconnecting)) [
        | inl up ↦ simp up (disconnect-state platform w)
        | inr down ↦ elim (connect-state platform (some w.store.active_profile_id) none w) [
          | inl same ↦ simp down (inl same)
          | inr (free, moved) ↦ simp down (inr (rw (free, moved) refl))
        ]
      ]

pub fire_auto_connect-state :
    (platform : Platform) (id : String) (w : World)
    → MayMove Cause.timer_fired (state w) (state (fire_auto_connect platform id w))
unfolding fire_auto_connect branch may_move
fire_auto_connect-state platform id w =
    elim (Bool-cases (state_eq (state w) ConnectionState.disconnected)) [
      | inl free ↦ elim (connect-state platform (some id) none w) [
        | inl same ↦ simp free (inl same)
        | inr (down, moved) ↦ simp free (inr (rw moved refl))
      ]
      | inr busy ↦ simp busy (inl refl)
    ]

apply_result-state :
    (platform : Platform) (b : Bool) (m : Option Metrics) (w : World)
    → state (apply_result platform b m w) ≡ state w
unfolding apply_result apply_metrics
apply_result-state platform true none w = refl
apply_result-state platform true (some m) w = refl
apply_result-state platform false m w = refl

pub on_metrics_update-state :
    (platform : Platform) (payload : Option MetricsPayload) (w : World)
    → state (on_metrics_update platform payload w) ≡ state w
unfolding on_metrics_update
on_metrics_update-state platform none w = refl
on_metrics_update-state platform (some payload) w =
    apply_result-state platform (str_eq payload.status "metrics") payload.result w

ping_one-state :
    (platform : Platform) (p : VpnProfile) (w : World) → state (ping_one platform p w) ≡ state w
unfolding ping_one
ping_one-state platform p w = branch-state _ _ _ w _ (invoke-state _ w) refl

ping_each-state :
    (platform : Platform) (ps : List VpnProfile) (w : World)
    → state (ping_each platform ps w) ≡ state w
unfolding ping_each
ping_each-state platform [] w = refl
ping_each-state platform (p ∷ ps) w = ping_each-state platform ps _ ∙ ping_one-state platform p w

pub ping_all_profiles-state :
    (platform : Platform) (w : World) → state (ping_all_profiles platform w) ≡ state w
unfolding ping_all_profiles
ping_all_profiles-state platform w = ping_each-state platform w.store.profiles w

pub resume_ping-state :
    (id : String) (o : Outcome (Option ℕ)) (w : World) → state (resume_ping id o w) ≡ state w
unfolding resume_ping
resume_ping-state id (resolved none) w = refl
resume_ping-state id (resolved (some n)) w = branch-state _ _ _ w _ refl refl
resume_ping-state id (rejected e) w = refl

pub resume_status-state :
    (o : Outcome (Option DaemonReply)) (w : World)
    → (state (Subscriptions.resume_status o w) ≡ state w)
      ⊎ ((r : DaemonReply) × (o ≡ resolved (some r))
          × (is_told r.state (state (Subscriptions.resume_status o w)) ≡ true))
unfolding Subscriptions.resume_status
resume_status-state (resolved none) w = inl refl
resume_status-state (resolved (some r)) w = elim (set_reported-state r.state w) [
  | inl same ↦ inl same
  | inr moved ↦ inr (r, refl, moved)
]
resume_status-state (rejected e) w = inl refl
