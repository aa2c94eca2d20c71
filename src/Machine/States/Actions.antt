-- ===== src/Machine/States/Actions.antt =====
-- What each action does to the state of the connection.
use vpnhub.Prelude.{
  ◌≡◌, ◌⊎◌, inl, inr, refl, true, false, Bool, Bool-cases, Option, none, some, String, ◌∙◌,
}
use vpnhub.Types.{ConnectionState, VpnProfile, SecuritySettings}
use vpnhub.Types.Equality.{state_eq}
use vpnhub.Bridge.{Command, Outcome, resolved, rejected, DaemonReply}
use vpnhub.World.{Platform, Action, World, VpnStoreState, branch, invoke_request}
use vpnhub.Store.Logs.{add_log}
use vpnhub.Store.Connection.{
  is_connecting_or_connected, is_down, start_otp, send_request, begin_connect, connect_chosen,
  connect, resume_otp, resume_connect, abort_connect, tear_down, disconnect, resume_disconnect,
  resume_retry,
}
use vpnhub.Machine.States.{Cause, MayMove, may_move}

abbrev pub state : World → ConnectionState
state w = w.store.connection_state

pub invoke-state : (c : Option Command) (w : World) → state (invoke_request c w) ≡ state w
invoke-state none w = refl
invoke-state (some c) w = refl

pub branch-state :
    (b : Bool) (f g : Action) (w : World) (s : ConnectionState)
    → state (f w) ≡ s
    → state (g w) ≡ s
    → state (branch b f g w) ≡ s
unfolding branch
branch-state true f g w s p q = p
branch-state false f g w s p q = q

pub branch-holds :
    (P : ConnectionState → Type 0) (b : Bool) (f g : Action) (w : World)
    → P (state (f w))
    → P (state (g w))
    → P (state (branch b f g w))
unfolding branch
branch-holds P true f g w p q = p
branch-holds P false f g w p q = q

send_request-state :
    (platform : Platform) (p : VpnProfile) (settings : SecuritySettings) (password : String)
    (w : World)
    → state (send_request platform p settings password w) ≡ state w
unfolding send_request
send_request-state platform p settings password w = invoke-state _ w

pub resume_otp-state :
    (platform : Platform) (p : VpnProfile) (settings : SecuritySettings) (otp : String) (w : World)
    → state (resume_otp platform p settings otp w) ≡ state w
unfolding resume_otp add_log
resume_otp-state platform p settings otp w = send_request-state platform p settings _ _

begin_connect-state :
    (platform : Platform) (s : VpnStoreState) (p : VpnProfile) (password : Option String)
    (w : World)
    → state (begin_connect platform s p password w) ≡ ConnectionState.connecting
unfolding begin_connect start_otp add_log
begin_connect-state platform s p password w =
    branch-state _ _ _ _ _ refl (send_request-state platform p s.security_settings _ _)

connect_chosen-state :
    (platform : Platform) (s : VpnStoreState) (password : Option String) (p : Option VpnProfile)
    (w : World)
    → (state (connect_chosen platform s password p w) ≡ state w)
      ⊎ (state (connect_chosen platform s password p w) ≡ ConnectionState.connecting)
unfolding connect_chosen
connect_chosen-state platform s password none w = inl refl
connect_chosen-state platform s password (some p) w =
    branch-holds (λ t. (t ≡ state w) ⊎ (t ≡ ConnectionState.connecting)) _ _ _ w (inl refl)
      (inr (begin_connect-state platform s p password w))

-- `connect` moves to `connecting`, from where no tunnel is up or coming up.
pub connect-state :
    (platform : Platform) (id password : Option String) (w : World)
    → (state (connect platform id password w) ≡ state w)
      ⊎ ((is_connecting_or_connected (state w) ≡ false)
          × (state (connect platform id password w) ≡ ConnectionState.connecting))
unfolding connect branch
connect-state platform id password w = elim (Bool-cases (is_connecting_or_connected (state w))) [
  | inl busy ↦ simp busy (inl refl)
  | inr free ↦ elim (connect_chosen-state platform w.store password _ w) [
    | inl same ↦ simp free (inl same)
    | inr moved ↦ simp free (inr (refl, moved))
  ]
]

abort_connect-state :
    (platform : Platform) (w : World)
    → state (abort_connect platform w) ≡ ConnectionState.disconnected
unfolding abort_connect add_log
abort_connect-state platform w = invoke-state _ _ ∙ invoke-state _ _

tear_down-state :
    (platform : Platform) (w : World) → state (tear_down platform w) ≡ ConnectionState.disconnecting
unfolding tear_down add_log
tear_down-state platform w = invoke-state _ _

-- `disconnect` aborts a handshake, or starts to take a tunnel down.
pub disconnect-state :
    (platform : Platform) (w : World)
    → MayMove Cause.disconnect_called (state w) (state (disconnect platform w))
unfolding disconnect branch may_move
disconnect-state platform w = elim (Bool-cases (is_down (state w))) [
  | inl down ↦ simp down (inl refl)
  | inr up ↦ elim (Bool-cases (state_eq (state w) ConnectionState.connecting)) [
    | inl handshake ↦ simp (up, handshake) (inr (rw (abort_connect-state platform w) refl))
    | inr other ↦ simp (up, other) (inr (rw (tear_down-state platform w) refl))
  ]
]

pub resume_connect-state :
    (platform : Platform) (o : Outcome (Option DaemonReply)) (w : World)
    → MayMove Cause.request_answered (state w) (state (resume_connect platform o w))
unfolding resume_connect add_log may_move
resume_connect-state platform (resolved none) w = inl refl
resume_connect-state platform (resolved (some r)) w =
    branch-holds (MayMove Cause.request_answered (state w)) _ _ _ w (inr refl) (inl refl)
resume_connect-state platform (rejected e) w = inr refl

pub resume_disconnect-state :
    (platform : Platform) (o : Outcome (Option DaemonReply)) (w : World)
    → MayMove Cause.tear_down_answered (state w) (state (resume_disconnect platform o w))
unfolding resume_disconnect add_log may_move
resume_disconnect-state platform (resolved r) w = inr refl
resume_disconnect-state platform (rejected e) w = inr refl

pub resume_retry-state :
    (platform : Platform) (was : ConnectionState) (b : Bool) (w : World)
    → MayMove (Cause.probe_answered was) (state w) (state (resume_retry platform was b w))
unfolding resume_retry add_log may_move branch
resume_retry-state platform was true w = elim (Bool-cases (state_eq was ConnectionState.error)) [
  | inl failed ↦ simp failed (inr refl)
  | inr fine ↦ simp fine (inl refl)
]
resume_retry-state platform was false w = inl refl
