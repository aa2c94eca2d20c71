-- ===== src/Machine/Invariant/Connecting.antt =====
-- `connect`, `disconnect` and `retryDaemonIpc` keep an invariant.
use vpnhub.Prelude.{String, Bool, true, false, Option, none, some, refl, if◌then◌else◌}
use vpnhub.Types.{ConnectionState, VpnProfile, SecuritySettings}
use vpnhub.Bridge.{Command, Outcome, resolved, rejected, DaemonReply}
use vpnhub.World.{VpnStoreState, Platform, World, invoke_request}
use vpnhub.Machine.Invariant.{IsInvariant}
use vpnhub.Machine.Invariant.Actions.{keeps-invoke, keeps-if}
use vpnhub.Store.Connection

module _ (platform : Platform) {P : World → Type 0} (I : IsInvariant platform P) where
  request_in :
      {w : World} (tauri : Bool) (p : VpnProfile) (settings : SecuritySettings) (password : String)
      → P w
      → P (
          invoke_request
            (if tauri
              then some (Command.vpn_connect (Connection.connect_params p settings password))
              else none)
            w)
  request_in true profile settings password p = I.request profile settings password p
  request_in false profile settings password p = p

  keeps-send_request :
      {w : World} (profile : VpnProfile) (settings : SecuritySettings) (password : String)
      → P w
      → P (Connection.send_request platform profile settings password w)
  unfolding Connection.send_request
  keeps-send_request profile settings password p =
      I.tasks (request_in platform.tauri profile settings password p)

  pub keeps-resume_otp :
      {w : World} (profile : VpnProfile) (settings : SecuritySettings) (live_otp : String)
      → P w
      → P (Connection.resume_otp platform profile settings live_otp w)
  unfolding Connection.resume_otp
  keeps-resume_otp profile settings live_otp p =
      keeps-send_request profile settings _ (I.log _ _ _ p)

  keeps-start_otp :
      {w : World} (profile : VpnProfile) (settings : SecuritySettings) (secret : String)
      → P w
      → P (Connection.start_otp platform profile settings secret w)
  unfolding Connection.start_otp
  keeps-start_otp profile settings secret p = I.tasks (I.reading p)

  keeps-begin_connect :
      {w : World} (state : VpnStoreState) (profile : VpnProfile) (password : Option String)
      → P w
      → P (Connection.begin_connect platform state profile password w)
  unfolding Connection.begin_connect
  keeps-begin_connect state profile password p =
      keeps-if platform I _ _ _ (I.log _ _ _ (I.quiet p refl refl)) (keeps-start_otp _ _ _)
        (keeps-send_request _ _ _)

  keeps-connect_chosen :
      {w : World} (state : VpnStoreState) (password : Option String) (chosen : Option VpnProfile)
      → P w
      → P (Connection.connect_chosen platform state password chosen w)
  unfolding Connection.connect_chosen
  keeps-connect_chosen state password none p = p
  keeps-connect_chosen state password (some profile) p =
      keeps-if platform I _ _ _ p (λ q. I.quiet q refl refl)
        (keeps-begin_connect state profile password)

  pub keeps-connect :
      {w : World} (target password : Option String)
      → P w
      → P (Connection.connect platform target password w)
  unfolding Connection.connect
  keeps-connect target password p =
      keeps-if platform I _ _ _ p (λ q. q) (keeps-connect_chosen _ password _)

  pub keeps-resume_connect :
      {w : World} (o : Outcome (Option DaemonReply))
      → P w
      → P (Connection.resume_connect platform o w)
  unfolding Connection.resume_connect
  keeps-resume_connect (resolved none) p = p
  keeps-resume_connect (resolved (some r)) p =
      keeps-if platform I _ _ _ p (λ q. I.quiet (I.log _ _ _ q) refl refl) (λ q. q)
  keeps-resume_connect (rejected message) p = I.quiet (I.log _ _ _ p) refl refl

  keeps-abort_connect : {w : World} → P w → P (Connection.abort_connect platform w)
  unfolding Connection.abort_connect
  keeps-abort_connect p =
      keeps-invoke platform I _ refl
        (keeps-invoke platform I _ refl (I.log _ _ _ (I.quiet p refl refl)))

  keeps-tear_down : {w : World} → P w → P (Connection.tear_down platform w)
  unfolding Connection.tear_down
  keeps-tear_down p = I.tasks (keeps-invoke platform I _ refl (I.log _ _ _ (I.quiet p refl refl)))

  pub keeps-disconnect : {w : World} → P w → P (Connection.disconnect platform w)
  unfolding Connection.disconnect
  keeps-disconnect p =
      keeps-if platform I _ _ _ p (λ q. q)
        (λ q. keeps-if platform I _ _ _ q keeps-abort_connect keeps-tear_down)

  pub keeps-resume_disconnect :
      {w : World} (o : Outcome (Option DaemonReply))
      → P w
      → P (Connection.resume_disconnect platform o w)
  unfolding Connection.resume_disconnect
  keeps-resume_disconnect (resolved r) p = I.quiet p refl refl
  keeps-resume_disconnect (rejected message) p = I.quiet (I.log _ _ _ p) refl refl

  pub keeps-retry_daemon_ipc : {w : World} → P w → P (Connection.retry_daemon_ipc platform w)
  unfolding Connection.retry_daemon_ipc
  keeps-retry_daemon_ipc p = I.tasks (keeps-invoke platform I _ refl p)

  pub keeps-resume_retry :
      {w : World} (was : ConnectionState) (alive : Bool)
      → P w
      → P (Connection.resume_retry platform was alive w)
  unfolding Connection.resume_retry
  keeps-resume_retry was true p =
      keeps-if platform I _ _ _ (I.log _ _ _ (I.quiet p refl refl)) (λ q. I.quiet q refl refl)
        (λ q. q)
  keeps-resume_retry was false p = I.log _ _ _ (I.quiet p refl refl)
