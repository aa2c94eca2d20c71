-- ===== src/Machine/States.antt =====
-- The state of the connection alone, as a machine: what may move it, and from where to where.
pub mod Actions
pub mod Listeners
pub mod Steps
pub mod Events
pub mod Reports
use vpnhub.Prelude.{
  if◌then◌else◌, ◌≡◌, ◌⊎◌, inl, inr, true, false, Bool, not, ◌&&◌, ◌||◌, Option, none, some, List,
  [], ◌∷◌,
}
use vpnhub.Types.{ConnectionState, DaemonHealthStatus}
use vpnhub.Types.Equality.{state_eq, health_eq}
use vpnhub.Bridge.{resolved, DaemonReply}
use vpnhub.World.{World, Task}
use vpnhub.Store.Connection.{is_connecting_or_connected, is_down}
use vpnhub.Store.Subscriptions.{StatusPayload, StatusSnapshot}
use vpnhub.Machine.{Call, Reply, Event, task_at}

-- What an event is to the connection.
pub data Cause : Type 0 where
  -- The user presses a button, or the tray's entry; the timer of the automatic connection fires.
  connect_called disconnect_called tray_pressed timer_fired : Cause
  -- The daemon answers to a request, to a tear-down, to a probe that was sent in this state, or to
  -- the question for its state.
  request_answered tear_down_answered : Cause
  probe_answered : (was : ConnectionState) → Cause
  status_answered : Option ConnectionState → Cause
  -- The daemon reports a state, or its health.
  status_reported : Option ConnectionState → Cause
  health_reported : DaemonHealthStatus → Cause
  nothing : Cause

-- The state in a daemon's answer.
abbrev pub told : Reply → Option ConnectionState
told (Reply.daemon (resolved (some r))) = r.state
told _ = none

abbrev pub cause_of : Option Task → Reply → Cause
cause_of (some (Task.connect_response _)) reply = request_answered
cause_of (some Task.disconnect_response) reply = tear_down_answered
cause_of (some (Task.retry_response was)) reply = probe_answered was
cause_of (some Task.status_response) reply = status_answered (told reply)
cause_of (some (Task.auto_connect id)) reply = timer_fired
cause_of _ reply = nothing

abbrev pub state_of : Option StatusSnapshot → Option ConnectionState
state_of none = none
state_of (some snap) = some snap.state

abbrev pub reported_state : Option StatusPayload → Option ConnectionState
reported_state none = none
reported_state (some payload) = state_of payload.result

unfoldable pub cause : World → Event → Cause
cause w (Event.call (Call.connect id password)) = connect_called
cause w (Event.call Call.disconnect) = disconnect_called
cause w (Event.settle index reply) = cause_of (task_at index w.tasks) reply
cause w (Event.daemon_status status) = health_reported status
cause w (Event.vpn_status payload) = status_reported (reported_state payload)
cause w Event.tray_toggle = tray_pressed
cause w _ = nothing

abbrev pub is_told : Option ConnectionState → ConnectionState → Bool
is_told none t = false
is_told (some s) t = state_eq s t

abbrev pub may_connect : ConnectionState → ConnectionState → Bool
may_connect s t = not (is_connecting_or_connected s) && state_eq t ConnectionState.connecting

abbrev pub may_disconnect : ConnectionState → ConnectionState → Bool
may_disconnect s t =
    (state_eq s ConnectionState.connecting && state_eq t ConnectionState.disconnected)
    || (not (is_down s || state_eq s ConnectionState.connecting)
        && state_eq t ConnectionState.disconnecting)

-- The moves of the machine: a handshake starts where there is none, is aborted at once, and a tunnel
-- goes down through `disconnecting`; only the daemon says that a tunnel is up or coming back.
unfoldable pub may_move : Cause → ConnectionState → ConnectionState → Bool
may_move connect_called s t = may_connect s t
may_move disconnect_called s t = may_disconnect s t
may_move tray_pressed s t =
    if is_connecting_or_connected s || state_eq s ConnectionState.reconnecting
    then may_disconnect s t
    else may_connect s t
may_move timer_fired s t =
    state_eq s ConnectionState.disconnected && state_eq t ConnectionState.connecting
may_move request_answered s t = state_eq t ConnectionState.error
may_move tear_down_answered s t = state_eq t ConnectionState.disconnected
may_move (probe_answered was) s t =
    state_eq was ConnectionState.error && state_eq t ConnectionState.disconnected
may_move (status_answered r) s t = is_told r t || state_eq t ConnectionState.disconnected
may_move (status_reported r) s t = is_told r t
may_move (health_reported status) s t =
    health_eq status DaemonHealthStatus.offline
    && (is_connecting_or_connected s && state_eq t ConnectionState.error)
may_move nothing s t = false

-- No move, or one.
abbrev pub MayMove : Cause → ConnectionState → ConnectionState → Type 0
MayMove c s t = (t ≡ s) ⊎ (may_move c s t ≡ true)
