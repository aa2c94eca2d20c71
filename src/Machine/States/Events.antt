-- ===== src/Machine/States/Events.antt =====
-- Each event makes at most one move of the connection, which its cause allows.
use vpnhub.Prelude.{
  ◌≡◌, ◌≤◌, ◌∙◌, subst, inl, inr, refl, false, Bool-cases, Option, List, [], ◌∷◌, arith,
}
use vpnhub.World.{Platform, Action, World, Listener}
use vpnhub.Types.{DaemonHealthStatus}
use vpnhub.Store.Telemetry.{MetricsPayload}
use vpnhub.Store.Subscriptions.{StatusPayload}
use vpnhub.Store.Initial.{SavedSettings}
use vpnhub.Store.Settings.{set_daemon_health}
use vpnhub.Machine.{
  Event, run_callback, deliver, on_status_channel, on_vpn_channel, on_metrics_channel,
  on_tray_channel, step, boot, run, task_at,
}
use vpnhub.Machine.Registered.{count, is_listener, IsOnce}
use vpnhub.Machine.Registered.Runs.{run-IsOnce, boot-IsOnce}
use vpnhub.Machine.States.{reported_state, Cause, cause, MayMove}
use vpnhub.Machine.States.Actions.{state}
use vpnhub.Machine.States.Listeners.{
  on_vpn_status-state, on_daemon_status-state, on_tray_toggle-state, on_metrics_update-state,
}
use vpnhub.Machine.States.Steps.{perform-MayMove, settle_task-MayMove}

-- A callback that makes an allowed move, or none.
abbrev Allowed : Cause → Option Action → Type 0
Allowed c a = (w : World) → MayMove c (state w) (state (run_callback a w))

-- No callback but that of `mover` moves.
abbrev IsStill : Listener → (Listener → Option Action) → Type 0
IsStill mover callback =
    (l : Listener)
    → is_listener mover l ≡ false
    → (w : World) → state (run_callback (callback l) w) ≡ state w

deliver-state :
    (mover : Listener) (callback : Listener → Option Action)
    → IsStill mover callback
    → (ls : List Listener) (w : World) → count mover ls ≡ 0
    → state (deliver callback ls w) ≡ state w
deliver-state mover callback still [] w none_left = refl
deliver-state mover callback still (l ∷ ls) w none_left = elim (Bool-cases (is_listener mover l)) [
  | inl same ↦ let n = simp same at none_left in absurd (omega (arith, n))
  | inr other ↦
      let n = simp other at none_left in
      deliver-state mover callback still ls _ (omega (arith, n)) ∙ still l other w
]

-- A mover that is registered at most once makes at most one move.
deliver-MayMove :
    (c : Cause) (mover : Listener) (callback : Listener → Option Action)
    → ((l : Listener) → Allowed c (callback l))
    → IsStill mover callback
    → (ls : List Listener) (w : World) → count mover ls ≤ 1
    → MayMove c (state w) (state (deliver callback ls w))
deliver-MayMove c mover callback allowed still [] w once = inl refl
deliver-MayMove c mover callback allowed still (l ∷ ls) w once =
    elim (Bool-cases (is_listener mover l)) [
      | inl same ↦
          let o = simp same at once in
          let rest : count mover ls ≡ 0 = omega (arith, o) in
          rw (deliver-state mover callback still ls (run_callback (callback l) w) rest)
            (allowed l w)
      | inr other ↦
          let o = simp other at once in
          subst (λ s. MayMove c s (state (deliver callback ls (run_callback (callback l) w))))
            (still l other w)
            (deliver-MayMove c mover callback allowed still ls _ (omega (arith, o)))
    ]

vpn_channel-MayMove :
    (platform : Platform) (payload : Option StatusPayload) (w : World)
    → IsOnce w
    → MayMove
        (Cause.status_reported (reported_state payload))
        (state w)
        (state (deliver (on_vpn_channel platform payload) w.listeners w))
vpn_channel-MayMove platform payload w o =
    let once = o.once Listener.vpn_status in
    deliver-MayMove _ Listener.vpn_status (on_vpn_channel platform payload) allowed still
      w.listeners w (omega (arith, once))
  where
    allowed :
        (l : Listener)
        → Allowed
            (Cause.status_reported (reported_state payload))
            (on_vpn_channel platform payload l)
    allowed Listener.vpn_status v = on_vpn_status-state platform payload v
    allowed _ v = inl refl

    still : IsStill Listener.vpn_status (on_vpn_channel platform payload)
    still Listener.vpn_status other v = cc
    still _ other v = refl

tray_channel-MayMove :
    (platform : Platform) (w : World)
    → IsOnce w
    → MayMove Cause.tray_pressed
        (state w)
        (state (deliver (on_tray_channel platform) w.listeners w))
tray_channel-MayMove platform w o =
    let once = o.once Listener.tray_toggle in
    deliver-MayMove _ Listener.tray_toggle (on_tray_channel platform) allowed still w.listeners w
      (omega (arith, once))
  where
    allowed : (l : Listener) → Allowed Cause.tray_pressed (on_tray_channel platform l)
    allowed Listener.tray_toggle v = on_tray_toggle-state platform v
    allowed _ v = inl refl

    still : IsStill Listener.tray_toggle (on_tray_channel platform)
    still Listener.tray_toggle other v = cc
    still _ other v = refl

status_channel-MayMove :
    (platform : Platform) (status : DaemonHealthStatus) (w : World)
    → IsOnce w
    → MayMove
        (Cause.health_reported status)
        (state w)
        (state (deliver (on_status_channel platform status) w.listeners w))
unfolding set_daemon_health
status_channel-MayMove platform status w o =
    let once = o.once Listener.daemon_status in
    deliver-MayMove _ Listener.daemon_status (on_status_channel platform status) allowed still
      w.listeners w (omega (arith, once))
  where
    allowed :
        (l : Listener)
        → Allowed (Cause.health_reported status) (on_status_channel platform status l)
    allowed Listener.daemon_status v = on_daemon_status-state platform status v
    allowed _ v = inl refl

    still : IsStill Listener.daemon_status (on_status_channel platform status)
    still Listener.daemon_status other v = cc
    still _ other v = refl

metrics_channel-MayMove :
    (platform : Platform) (payload : Option MetricsPayload) (w : World)
    → IsOnce w
    → MayMove Cause.nothing
        (state w)
        (state (deliver (on_metrics_channel platform payload) w.listeners w))
metrics_channel-MayMove platform payload w o =
    let once = o.once Listener.metrics in
    deliver-MayMove _ Listener.metrics (on_metrics_channel platform payload) allowed still
      w.listeners w (omega (arith, once))
  where
    allowed : (l : Listener) → Allowed Cause.nothing (on_metrics_channel platform payload l)
    allowed Listener.metrics v = inl (on_metrics_update-state platform payload v)
    allowed _ v = inl refl

    still : IsStill Listener.metrics (on_metrics_channel platform payload)
    still Listener.metrics other v = cc
    still _ other v = refl

pub step-MayMove :
    (platform : Platform) (e : Event) (w : World)
    → IsOnce w
    → MayMove (cause w e) (state w) (state (step platform e w))
unfolding step cause
step-MayMove platform (Event.call c) w o = perform-MayMove platform c w
step-MayMove platform (Event.settle index reply) w o =
    settle_task-MayMove platform index reply (task_at index w.tasks) w
step-MayMove platform (Event.daemon_status status) w o = status_channel-MayMove platform status w o
step-MayMove platform (Event.vpn_status payload) w o = vpn_channel-MayMove platform payload w o
step-MayMove platform (Event.metrics payload) w o = metrics_channel-MayMove platform payload w o
step-MayMove platform Event.tray_toggle w o = tray_channel-MayMove platform w o

-- After any events, the next one leaves the state of the connection as it is, or makes it do one move,
-- which the event's cause allows from that state.
pub run-MayMove :
    (platform : Platform) (saved : SavedSettings) (es : List Event) (e : Event)
    → let w = run platform (boot platform saved) es in
      MayMove (cause w e) (state w) (state (step platform e w))
run-MayMove platform saved es e =
    step-MayMove platform e _ (run-IsOnce platform es _ (boot-IsOnce platform saved))
