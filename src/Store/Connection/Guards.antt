-- ===== src/Store/Connection/Guards.antt =====
-- What `connect` and `disconnect` do, branch by branch.
use vpnhub.Prelude.{
  suc, ◌≡◌, refl, ap, ◌∙◌, ◌⊎◌, inl, inr, String, Bool, true, false, not, ◌&&◌, Option, none, some,
  [], ◌∷◌, ◌++◌, arith, or_text, get_or, nonempty, truthy, Bool-cases,
}
use vpnhub.Types.{ConnectionState, LogLevel, PasswordMode, VpnProfile, SecuritySettings}
use vpnhub.Bridge.{Command}
use vpnhub.Totp.{generate_code}
use vpnhub.World.{VpnStoreState, Platform, World, Task, Effect, branch-true, branch-false}
use vpnhub.Store.Logs.{add_log}
use vpnhub.Store.Connection.{
  choose_profile, credentials_of, is_connecting_or_connected, is_totp_auto, is_dynamic_prompt,
  is_undefined, handshake_text, connect_params, send_request, start_otp, begin_connect,
  connect_chosen, connect,
}

-- The profile that `connect` takes: the first with the wanted id, or else the first of all.
abbrev pub chosen : VpnStoreState → Option String → Option VpnProfile
chosen s target = choose_profile s.profiles (or_text target s.active_profile_id)

pub connect_idle :
    (platform : Platform) (target password : Option String) (w : World) {c : Option VpnProfile}
    → is_connecting_or_connected w.store.connection_state ≡ false
    → chosen w.store target ≡ c
    → connect platform target password w ≡ connect_chosen platform w.store password c w
unfolding connect
connect_idle platform target password w idle e =
    branch-false _ _ _ w idle ∙ ap (λ c. connect_chosen platform w.store password c w) e

-- While a tunnel is up or coming up, `connect` changes nothing and sends nothing; nor does it if there
-- is no profile.
pub connect-noop :
    (platform : Platform) (target password : Option String) (w : World)
    → (is_connecting_or_connected w.store.connection_state ≡ true) ⊎ (w.store.profiles ≡ [])
    → connect platform target password w ≡ w
unfolding connect connect_chosen choose_profile
connect-noop platform target password w (inl busy) = branch-true _ _ _ w busy
connect-noop platform target password w (inr missing) =
    elim (Bool-cases (is_connecting_or_connected w.store.connection_state)) [
      | inl busy ↦ branch-true _ _ _ w busy
      | inr idle ↦
          connect_idle platform target password w idle
            (ap (λ ps. choose_profile ps (or_text target w.store.active_profile_id)) missing)
    ]

-- A profile whose password is to be asked for is only handed to the prompt, as long as no password is
-- given: no request is sent, nothing is logged and the connection state stays.
pub connect-prompt :
    (platform : Platform) (target : Option String) (w : World) {p : VpnProfile}
    → is_connecting_or_connected w.store.connection_state ≡ false
    → chosen w.store target ≡ some p
    → (credentials_of p).password_mode ≡ some PasswordMode.dynamic_prompt
    → connect platform target none w
      ≡ record w { store = record (w.store) { mfa_prompt_profile = some p } }
unfolding connect_chosen
connect-prompt platform target w idle e mode =
    connect_idle platform target none w idle e ∙ branch-true _ _ _ w (ground (arith, mode))

-- The user is to be asked for a password, and has not been.
abbrev pub needs_prompt : VpnProfile → Option String → Bool
needs_prompt p password =
    is_dynamic_prompt (credentials_of p).password_mode && is_undefined password

-- A one-time code is to be added, since no password was given.
abbrev pub needs_otp : VpnProfile → Option String → Bool
needs_otp p password =
    not (nonempty (get_or password ""))
    && (is_totp_auto (credentials_of p).password_mode && truthy (credentials_of p).totp_secret)

-- The world in which `connect` has set the new state and logged the handshake.
abbrev announced : Platform → VpnProfile → World → World
announced platform p w =
    add_log platform LogLevel.info "TUNNEL_ENGINE" (handshake_text p) (record w {
      store = record (w.store) {
        connection_state = ConnectionState.connecting;
        active_profile_id = p.id;
      };
    })

pub connect_begin :
    (platform : Platform) (target password : Option String) (w : World) {p : VpnProfile}
    → is_connecting_or_connected w.store.connection_state ≡ false
    → chosen w.store target ≡ some p
    → needs_prompt p password ≡ false
    → connect platform target password w ≡ begin_connect platform w.store p password w
unfolding connect_chosen
connect_begin platform target password w idle e asked =
    connect_idle platform target password w idle e ∙ branch-false _ _ _ w asked

-- The effect and the pending task of a request.
pub send_request_lem :
    (platform : Platform) (p : VpnProfile) (settings : SecuritySettings) (password : String)
    (w : World)
    → platform.tauri ≡ true
    → send_request platform p settings password w ≡ record w {
      effects =
          Effect.invoke (Command.vpn_connect (connect_params p settings password)) ∷ w.effects;
      tasks = w.tasks ++ Task.connect_response (connect_params p settings password) ∷ [];
    }
unfolding send_request
send_request_lem platform p settings password w shell = rw shell

-- In the desktop shell, `connect` on an idle store takes the chosen profile, makes it the active one and
-- the state `connecting`, and sends one request, made from the profile, from the security settings of
-- that moment and from the password that was given; its answer is then awaited.
pub connect-request :
    (platform : Platform) (target password : Option String) (w : World) {p : VpnProfile}
    → platform.tauri ≡ true
    → is_connecting_or_connected w.store.connection_state ≡ false
    → chosen w.store target ≡ some p
    → needs_prompt p password ≡ false
    → needs_otp p password ≡ false
    → let v = connect platform target password w in
      let params = connect_params p w.store.security_settings (get_or password "") in
      (v.store.connection_state ≡ ConnectionState.connecting)
      × (v.store.active_profile_id ≡ p.id)
      × (v.effects ≡ Effect.invoke (Command.vpn_connect params) ∷ w.effects)
      × (v.tasks ≡ w.tasks ++ Task.connect_response params ∷ [])
unfolding begin_connect add_log
connect-request platform target password w {p} shell idle e asked plain =
    rw
      (connect_begin platform target password w idle e asked
        ∙ branch-false _ _ _ (announced platform p w) plain
        ∙ send_request_lem platform p w.store.security_settings (get_or password "")
            (announced platform p w) shell)
      (refl, refl, refl, refl)

-- If the profile wants a one-time code, `connect` sends nothing yet: it computes the code from the
-- profile's secret at the time that it reads, and waits for it with the profile and the settings.
pub connect-otp :
    (platform : Platform) (target password : Option String) (w : World) {p : VpnProfile}
    → is_connecting_or_connected w.store.connection_state ≡ false
    → chosen w.store target ≡ some p
    → needs_prompt p password ≡ false
    → needs_otp p password ≡ true
    → let v = connect platform target password w in
      let secret = get_or (credentials_of p).totp_secret "" in
      let live_otp = generate_code platform.hmac_sha1 secret (platform.now (suc w.reads)) 6 30 in
      (v.store.connection_state ≡ ConnectionState.connecting)
      × (v.store.active_profile_id ≡ p.id)
      × (v.effects ≡ w.effects)
      × (v.tasks ≡ w.tasks ++ Task.connect_otp p w.store.security_settings live_otp ∷ [])
unfolding begin_connect add_log start_otp
connect-otp platform target password w {p} idle e asked wanted =
    rw
      (connect_begin platform target password w idle e asked
        ∙ branch-true _ _ _ (announced platform p w) wanted)
      (refl, refl, refl, refl)
