-- ===== src/Machine/States/Reports.antt =====
-- Only the daemon brings a tunnel up.
use vpnhub.Prelude.{
  ◌≡◌, ◌⊎◌, inl, inr, refl, sym, true, false, Bool, Bool-cases, Option, none, some, List, [], ◌∷◌,
  ◌||◌, ◌&&◌, not, All,
}
use vpnhub.Types.{ConnectionState}
use vpnhub.Types.Equality.{state_eq}
use vpnhub.World.{Platform, World, Task, branch}
use vpnhub.Store.Connection.{is_connecting_or_connected, is_down}
use vpnhub.Store.Initial.{SavedSettings, initial_world}
use vpnhub.Store.Storage.{load_storage, register}
use vpnhub.Machine.{Call, Reply, Event, step, boot, run, task_at}
use vpnhub.Machine.States.{
  Cause, cause, cause_of, told, reported_state, may_move, may_connect, may_disconnect, MayMove,
  is_told,
}
use vpnhub.Machine.States.Actions.{state}
use vpnhub.Machine.States.Events.{step-MayMove}
use vpnhub.Machine.Registered.{IsOnce}
use vpnhub.Machine.Registered.Runs.{step-IsOnce, boot-IsOnce}

abbrev pub is_up : ConnectionState → Bool
is_up ConnectionState.connected = true
is_up ConnectionState.reconnecting = true
is_up _ = false

abbrev pub is_told_up : Option ConnectionState → Bool
is_told_up none = false
is_told_up (some s) = is_up s

-- The daemon says in this event that a tunnel is up, or coming back.
abbrev pub reports_up : Event → Bool
reports_up (Event.settle index reply) = is_told_up (told reply)
reports_up (Event.vpn_status payload) = is_told_up (reported_state payload)
reports_up _ = false

state_eq-up : (t u : ConnectionState) → state_eq t u ≡ true → is_up t ≡ true → is_up u ≡ true
state_eq-up ConnectionState.connected ConnectionState.connected h up = refl
state_eq-up ConnectionState.reconnecting ConnectionState.reconnecting h up = refl
state_eq-up _ _ h up = cc

up-state_eq : (t u : ConnectionState) → state_eq u t ≡ true → is_up t ≡ true → is_up u ≡ true
up-state_eq ConnectionState.connected ConnectionState.connected h up = refl
up-state_eq ConnectionState.reconnecting ConnectionState.reconnecting h up = refl
up-state_eq _ _ h up = cc

told_up :
    (r : Option ConnectionState) (t : ConnectionState)
    → is_told r t ≡ true
    → is_up t ≡ true
    → is_told_up r ≡ true
told_up none t h up = cc
told_up (some s) t h up = up-state_eq t s h up

and-right : (b c : Bool) → b && c ≡ true → c ≡ true
and-right true c h = h
and-right false c h = cc

or-either : (b c : Bool) → b || c ≡ true → (b ≡ true) ⊎ (c ≡ true)
or-either true c h = inl refl
or-either false c h = inr h

-- No state but that of a report is up.
not_up :
    (t u : ConnectionState) (C : Type 0)
    → state_eq t u ≡ true
    → is_up t ≡ true
    → is_up u ≡ false
    → C
not_up t u C h up down = let up' = state_eq-up t u h up in cc

may_connect-up : (s t : ConnectionState) (C : Type 0) → may_connect s t ≡ true → is_up t ≡ true → C
may_connect-up s t C h up = not_up t ConnectionState.connecting C (and-right _ _ h) up refl

may_disconnect-up :
    (s t : ConnectionState) (C : Type 0) → may_disconnect s t ≡ true → is_up t ≡ true → C
may_disconnect-up s t C h up =
    let handshake = state_eq s ConnectionState.connecting in
    let other = not (is_down s || state_eq s ConnectionState.connecting) in
    elim (or-either (handshake && state_eq t ConnectionState.disconnected)
      (other && state_eq t ConnectionState.disconnecting) h) [
        | inl aborted ↦
            not_up t ConnectionState.disconnected C (and-right handshake _ aborted) up refl
        | inr down ↦ not_up t ConnectionState.disconnecting C (and-right other _ down) up refl
      ]

abbrev report_in : Cause → Option ConnectionState
report_in (Cause.status_answered r) = r
report_in (Cause.status_reported r) = r
report_in _ = none

may_move-up :
    (c : Cause) (s t : ConnectionState)
    → may_move c s t ≡ true
    → is_up t ≡ true
    → is_told_up (report_in c) ≡ true
unfolding may_move
may_move-up Cause.connect_called s t h up = may_connect-up s t _ h up
may_move-up Cause.disconnect_called s t h up = may_disconnect-up s t _ h up
may_move-up Cause.tray_pressed s t h up =
    elim (Bool-cases (is_connecting_or_connected s || state_eq s ConnectionState.reconnecting)) [
      | inl active ↦ may_disconnect-up s t _ (simp active at h) up
      | inr idle ↦ may_connect-up s t _ (simp idle at h) up
    ]
may_move-up Cause.timer_fired s t h up =
    not_up t ConnectionState.connecting _ (and-right _ _ h) up refl
may_move-up Cause.request_answered s t h up = not_up t ConnectionState.error _ h up refl
may_move-up Cause.tear_down_answered s t h up = not_up t ConnectionState.disconnected _ h up refl
may_move-up (Cause.probe_answered was) s t h up =
    not_up t ConnectionState.disconnected _ (and-right _ _ h) up refl
may_move-up (Cause.status_answered r) s t h up =
    elim (or-either (is_told r t) (state_eq t ConnectionState.disconnected) h) [
      | inl there ↦ told_up r t there up
      | inr down ↦ not_up t ConnectionState.disconnected _ down up refl
    ]
may_move-up (Cause.status_reported r) s t h up = told_up r t h up
may_move-up (Cause.health_reported status) s t h up =
    not_up t ConnectionState.error _ (and-right _ _ (and-right _ _ h)) up refl
may_move-up Cause.nothing s t h up = cc

cause_of-told :
    (t : Option Task) (reply : Reply)
    → is_told_up (report_in (cause_of t reply)) ≡ true
    → is_told_up (told reply) ≡ true
cause_of-told (some Task.status_response) reply h = h
cause_of-told (some (Task.connect_response p)) reply h = cc
cause_of-told (some Task.disconnect_response) reply h = cc
cause_of-told (some (Task.retry_response was)) reply h = cc
cause_of-told (some (Task.auto_connect id)) reply h = cc
cause_of-told _ reply h = cc

cause-reports_up :
    (w : World) (e : Event) → is_told_up (report_in (cause w e)) ≡ true → reports_up e ≡ true
unfolding cause
cause-reports_up w (Event.settle index reply) h = cause_of-told (task_at index w.tasks) reply h
cause-reports_up w (Event.vpn_status payload) h = h
cause-reports_up w (Event.call (Call.connect id password)) h = cc
cause-reports_up w (Event.call Call.disconnect) h = cc
cause-reports_up w _ h = cc

MayMove-up :
    (c : Cause) (s t : ConnectionState)
    → MayMove c s t
    → is_up t ≡ true
    → (is_up s ≡ true) ⊎ (is_told_up (report_in c) ≡ true)
MayMove-up c s t (inl same) up = inl (rw (sym same) up)
MayMove-up c s t (inr h) up = inr (may_move-up c s t h up)

-- An event that reports no tunnel brings none up.
step-unreported :
    (platform : Platform) (e : Event) (w : World)
    → IsOnce w
    → reports_up e ≡ false
    → is_up (state w) ≡ false
    → is_up (state (step platform e w)) ≡ false
step-unreported platform e w once silent down =
    elim (Bool-cases (is_up (state (step platform e w)))) [
      | inl up ↦ elim (MayMove-up (cause w e) _ _ (step-MayMove platform e w once) up) [
        | inl before ↦ cc
        | inr report ↦ let spoken = cause-reports_up w e report in cc
      ]
      | inr still ↦ still
    ]

run-unreported :
    (platform : Platform) (es : List Event) (w : World)
    → IsOnce w
    → All (λ e. reports_up e ≡ false) es
    → is_up (state w) ≡ false
    → is_up (state (run platform w es)) ≡ false
unfolding run
run-unreported platform [] w once silent down = down
run-unreported platform (e ∷ es) w once (silent, rest) down =
    run-unreported platform es (step platform e w) (step-IsOnce platform e w once) rest
      (step-unreported platform e w once silent down)

boot-state :
    (platform : Platform) (saved : SavedSettings)
    → state (boot platform saved) ≡ ConnectionState.disconnected
unfolding boot load_storage register initial_world branch
boot-state platform saved = elim (Bool-cases platform.tauri) [
  | inl shell ↦ rw shell refl
  | inr browser ↦ rw browser refl
]

-- As long as the daemon has not said, in an event or in an answer, that a tunnel is up or coming back,
-- the store shows none, whatever happens and in whatever order.
pub boot-unreported :
    (platform : Platform) (saved : SavedSettings) (es : List Event)
    → All (λ e. reports_up e ≡ false) es
    → is_up (state (run platform (boot platform saved) es)) ≡ false
boot-unreported platform saved es silent =
    run-unreported platform es (boot platform saved) (boot-IsOnce platform saved) silent
      (rw (boot-state platform saved) refl)
