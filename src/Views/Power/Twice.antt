-- ===== src/Views/Power/Twice.antt =====
-- A button that is pressed twice before the view is rendered again.
use vpnhub.Prelude.{
  ◌≡◌, refl, ap, sym, ◌∙◌, inl, inr, String, str_eq, Bool, true, false, Option, none, some,
  Bool-cases,
}
use vpnhub.Types.{ConnectionState, VpnProfile}
use vpnhub.Types.Equality.{state_eq}
use vpnhub.Bridge.{Command}
use vpnhub.World.{
  VpnStoreState, Platform, World, Action, pass, invoke_request, branch, branch-true, branch-false,
}
use vpnhub.Store.Logs.{add_log}
use vpnhub.Store.Connection.{
  is_connecting_or_connected, is_down, send_request, start_otp, begin_connect, connect_chosen,
  connect, disconnect, abort_connect, tear_down,
}
use vpnhub.Store.Connection.Guards.{connect_idle, connect_begin, chosen, connect-noop, needs_prompt}
use vpnhub.Views.Power.{
  active_profile, is_offline, is_up, is_idle, cockpit_toggle, banner_toggle, widget_toggle,
  card_click, deck_click,
}

-- A request does not touch the store.
store-invoke_request : (c : Option Command) (w : World) → (invoke_request c w).store ≡ w.store
store-invoke_request none w = refl
store-invoke_request (some c) w = refl

-- What holds behind both actions.
branch_both :
    (P : World → Type 0) (b : Bool) (f g : Action) (w : World)
    → P (f w)
    → P (g w)
    → P (branch b f g w)
unfolding branch
branch_both P true f g w h k = h
branch_both P false f g w h k = k

abbrev IsIn : ConnectionState → World → Type 0
IsIn s w = w.store.connection_state ≡ s

begin_connect-busy :
    (platform : Platform) (seen : VpnStoreState) (p : VpnProfile) (password : Option String)
    (w : World)
    → IsIn ConnectionState.connecting (begin_connect platform seen p password w)
unfolding begin_connect add_log send_request start_otp
begin_connect-busy platform seen p password w =
    branch_both (IsIn ConnectionState.connecting) _ _ _ _ refl
      (ap (λ s. s.connection_state) (store-invoke_request _ _))

abort_connect-down :
    (platform : Platform) (w : World) → IsIn ConnectionState.disconnected (abort_connect platform w)
unfolding abort_connect add_log
abort_connect-down platform w =
    ap (λ s. s.connection_state) (store-invoke_request _ _ ∙ store-invoke_request _ _)

tear_down-down :
    (platform : Platform) (w : World) → IsIn ConnectionState.disconnecting (tear_down platform w)
unfolding tear_down add_log
tear_down-down platform w = ap (λ s. s.connection_state) (store-invoke_request _ _)

-- An action that is ignored where it leads to, done twice.
settled : (f : Action) (w v : World) → f w ≡ v → f v ≡ v → f (f w) ≡ f w
settled f w v q h = ap f q ∙ h ∙ sym q

busy-noop :
    (platform : Platform) (target password : Option String) (w : World)
    → IsIn ConnectionState.connecting w
    → connect platform target password w ≡ w
busy-noop platform target password w e =
    connect-noop platform target password w (inl (ap is_connecting_or_connected e))

-- A second `connect` with the same arguments changes nothing and sends nothing, whatever the first has
-- come to.
pub connect-twice :
    (platform : Platform) (target password : Option String) (w : World)
    → let once = connect platform target password w in connect platform target password once ≡ once
unfolding connect_chosen
connect-twice platform target password w =
    elim (Bool-cases (is_connecting_or_connected w.store.connection_state)) [
      | inl busy ↦
          settled (connect platform target password) w w
            (connect-noop platform target password w (inl busy))
            (connect-noop platform target password w (inl busy))
      | inr idle ↦ idle_twice idle _ refl
    ]
  where
    idle_twice :
        is_connecting_or_connected w.store.connection_state ≡ false
        → (c : Option VpnProfile) → chosen w.store target ≡ c
        → connect platform target password (connect platform target password w)
          ≡ connect platform target password w
    idle_twice idle none e =
        let q = connect_idle platform target password w idle e in
        settled (connect platform target password) w w q q
    idle_twice idle (some p) e = elim (Bool-cases (needs_prompt p password)) [
      | inl asked ↦
          let v = record w { store = record (w.store) { mfa_prompt_profile = some p } } in
          settled (connect platform target password) w v
            (connect_idle platform target password w idle e ∙ branch-true _ _ _ w asked)
            (connect_idle platform target password v idle e ∙ branch-true _ _ _ v asked)
      | inr plain ↦
          settled (connect platform target password) w _
            (connect_begin platform target password w idle e plain)
            (busy-noop platform target password _
              (begin_connect-busy platform w.store p password w))
    ]

down-noop :
    (platform : Platform) (w : World)
    → is_down w.store.connection_state ≡ true
    → disconnect platform w ≡ w
unfolding disconnect
down-noop platform w h = branch-true _ _ _ w h

-- A second `disconnect` changes nothing and sends nothing.
pub disconnect-twice :
    (platform : Platform) (w : World)
    → let once = disconnect platform w in disconnect platform once ≡ once
unfolding disconnect
disconnect-twice platform w = elim (Bool-cases (is_down w.store.connection_state)) [
  | inl down ↦
      settled (disconnect platform) w w (down-noop platform w down) (down-noop platform w down)
  | inr up ↦ elim (Bool-cases (state_eq w.store.connection_state ConnectionState.connecting)) [
    | inl e ↦
        settled (disconnect platform) w (abort_connect platform w)
          (branch-false _ _ _ w up ∙ branch-true _ _ _ w e)
          (down-noop platform _ (ap is_down (abort_connect-down platform w)))
    | inr e ↦
        settled (disconnect platform) w (tear_down platform w)
          (branch-false _ _ _ w up ∙ branch-false _ _ _ w e)
          (down-noop platform _ (ap is_down (tear_down-down platform w)))
  ]
]

-- Doing the action twice is doing it once.
abbrev Settles : Action → Type 0
Settles f = (w : World) → f (f w) ≡ f w

branch-Settles : (b : Bool) (f g : Action) → Settles f → Settles g → Settles (branch b f g)
unfolding branch
branch-Settles true f g h k = h
branch-Settles false f g h k = k

-- Every power button, and that of every profile's card, pressed twice before the view is rendered again,
-- does what it does when it is pressed once, whatever state it has seen and whatever the store is in by
-- then. The cockpit's is not the button that probes the daemon, which is the case when the daemon is seen
-- to be offline.
pub power-twice :
    (platform : Platform) (seen : VpnStoreState) (profile : VpnProfile) (w : World)
    → is_offline seen.daemon_health ≡ false
    → let cockpit = cockpit_toggle platform seen in
      let banner = banner_toggle platform seen in
      let widget = widget_toggle platform seen in
      let card = card_click platform seen profile in
      let deck = deck_click platform seen profile in
      (cockpit (cockpit w) ≡ cockpit w)
      × (banner (banner w) ≡ banner w)
      × (widget (widget w) ≡ widget w)
      × (card (card w) ≡ card w)
      × (deck (deck w) ≡ deck w)
unfolding cockpit_toggle banner_toggle widget_toggle card_click deck_click branch
power-twice platform seen profile w online =
    let down : Settles (disconnect platform) = disconnect-twice platform in
    let up : Settles (connect platform (active_profile seen) none) =
      connect-twice platform (active_profile seen) none in
    let this : Settles (connect platform (some profile.id) none) =
      connect-twice platform (some profile.id) none in
    let idle = branch-Settles (is_idle seen.connection_state) _ pass up (λ v. refl) in
    (
      rw online (branch-Settles (is_up seen.connection_state) _ _ down idle w),
      branch-Settles _ _ _ down idle w,
      branch-Settles _ _ _ down up w,
      branch-Settles _ _ _ down this w,
      branch-Settles _ _ _ down this w,
    )

-- The card of a profile that is not the active one does nothing while a tunnel is up or coming up: the
-- tunnel has to be taken down before the other profile can be connected.
pub card_click-other :
    (platform : Platform) (profile : VpnProfile) (w : World)
    → str_eq profile.id w.store.active_profile_id ≡ false
    → is_connecting_or_connected w.store.connection_state ≡ true
    → (card_click platform w.store profile w ≡ w) × (deck_click platform w.store profile w ≡ w)
unfolding card_click deck_click branch
card_click-other platform profile w other busy =
    let stays = connect-noop platform (some profile.id) none w (inl busy) in rw other (stays, stays)
