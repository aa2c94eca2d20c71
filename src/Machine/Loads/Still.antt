-- ===== src/Machine/Loads/Still.antt =====
-- The actions that leave the loading of the storage where it stands.
use vpnhub.Prelude.{
  ◌≡◌, ◌∙◌, refl, true, false, Bool, Option, none, some, List, [], ◌∷◌, arith, String, ℕ,
}
use vpnhub.Types.{VpnProfile, SecuritySettings, ConnectionState}
use vpnhub.Bridge.{Command, Outcome, resolved, rejected, DaemonReply}
use vpnhub.Bridge.Methods.{update_tray_status, disconnect_vpn}
use vpnhub.World.{Platform, Action, World, Task, VpnStoreState, branch, invoke_request, defer}
use vpnhub.Store.Logs.{add_log}
use vpnhub.Store.Settings.{set_daemon_health}
use vpnhub.Store.Connection
use vpnhub.Store.Telemetry
use vpnhub.Store.Telemetry.{Metrics, MetricsPayload}
use vpnhub.Store.Subscriptions
use vpnhub.Store.Subscriptions.{StatusSnapshot, StatusPayload}
use vpnhub.Store.Storage.{fire_auto_connect}
use vpnhub.Machine.{resume_mirror, resume_alive}
use vpnhub.Machine.Settling.{loading_weight}
use vpnhub.Machine.Settling.Weights.{total-append, total-call}
use vpnhub.Machine.Frame.{Still, invoke_request-Frame}

pub invoke-Still : (c : Option Command) (w : World) → Still w (invoke_request c w)
invoke-Still c w = (invoke_request-Frame c w).1

invoke_twice-Still :
    (c d : Option Command) (w : World) → Still w (invoke_request d (invoke_request c w))
invoke_twice-Still c none w = invoke-Still c w
invoke_twice-Still c (some d) w = invoke-Still c w

pub call-Still :
    (c : Option Command) (t : Task) (w : World)
    → loading_weight t ≡ 0
    → Still w (defer t (invoke_request c w))
call-Still c t w light =
    let (flag, listeners, subscribed, _) = invoke-Still c w in
    (
      flag,
      listeners,
      subscribed,
      λ g only. let zero = only t light in omega (arith, zero, total-call g c t w),
    )

pub defer-Still : (t : Task) (w : World) → loading_weight t ≡ 0 → Still w (defer t w)
defer-Still t w light = (
  refl,
  refl,
  refl,
  λ g only. let zero = only t light in omega (arith, zero, total-append g w.tasks (t ∷ [])),
)

pub Still-trans : (u v w : World) → Still u v → Still v w → Still u w
Still-trans u v w (a, b, c, d) (a', b', c', d') =
    (a' ∙ a, b' ∙ b, c' ∙ c, λ g only. d' g only ∙ d g only)

pub branch-Still :
    (b : Bool) (f g : Action) (u w : World)
    → Still u (f w)
    → Still u (g w)
    → Still u (branch b f g w)
unfolding branch
branch-Still true f g u w p q = p
branch-Still false f g u w p q = q

send_request-Still :
    (platform : Platform) (p : VpnProfile) (settings : SecuritySettings) (password : String)
    (w : World)
    → Still w (Connection.send_request platform p settings password w)
unfolding Connection.send_request
send_request-Still platform p settings password w = call-Still _ _ w refl

pub resume_otp-Still :
    (platform : Platform) (p : VpnProfile) (settings : SecuritySettings) (otp : String) (w : World)
    → Still w (Connection.resume_otp platform p settings otp w)
unfolding Connection.resume_otp add_log
resume_otp-Still platform p settings otp w = send_request-Still platform p settings _ _

start_otp-Still :
    (platform : Platform) (p : VpnProfile) (settings : SecuritySettings) (secret : String)
    (w : World)
    → Still w (Connection.start_otp platform p settings secret w)
unfolding Connection.start_otp
start_otp-Still platform p settings secret w = defer-Still _ w refl

begin_connect-Still :
    (platform : Platform) (s : VpnStoreState) (p : VpnProfile) (password : Option String)
    (w : World)
    → Still w (Connection.begin_connect platform s p password w)
unfolding Connection.begin_connect add_log
begin_connect-Still platform s p password w =
    branch-Still _ _ _ w _ (start_otp-Still platform p _ _ _) (send_request-Still platform p _ _ _)

connect_chosen-Still :
    (platform : Platform) (s : VpnStoreState) (password : Option String) (p : Option VpnProfile)
    (w : World)
    → Still w (Connection.connect_chosen platform s password p w)
unfolding Connection.connect_chosen
connect_chosen-Still platform s password none w = (refl, refl, refl, λ g light. refl)
connect_chosen-Still platform s password (some p) w =
    branch-Still _ _ _ w w (refl, refl, refl, λ g light. refl)
      (begin_connect-Still platform s p password w)

pub connect-Still :
    (platform : Platform) (id password : Option String) (w : World)
    → Still w (Connection.connect platform id password w)
unfolding Connection.connect
connect-Still platform id password w =
    branch-Still _ _ _ w w (refl, refl, refl, λ g light. refl)
      (connect_chosen-Still platform _ password _ w)

abort_connect-Still :
    (platform : Platform) (w : World) → Still w (Connection.abort_connect platform w)
unfolding Connection.abort_connect add_log
abort_connect-Still platform w =
    invoke_twice-Still (update_tray_status platform.tauri ConnectionState.disconnected).request
      (disconnect_vpn platform.tauri true).request _

tear_down-Still : (platform : Platform) (w : World) → Still w (Connection.tear_down platform w)
unfolding Connection.tear_down add_log
tear_down-Still platform w = call-Still _ _ _ refl

pub disconnect-Still :
    (platform : Platform) (w : World) → Still w (Connection.disconnect platform w)
unfolding Connection.disconnect
disconnect-Still platform w =
    branch-Still _ _ _ w w (refl, refl, refl, λ g light. refl)
      (branch-Still _ _ _ w w (abort_connect-Still platform w) (tear_down-Still platform w))

pub retry_daemon_ipc-Still :
    (platform : Platform) (w : World) → Still w (Connection.retry_daemon_ipc platform w)
unfolding Connection.retry_daemon_ipc
retry_daemon_ipc-Still platform w = call-Still _ _ w refl

pub resume_connect-Still :
    (platform : Platform) (o : Outcome (Option DaemonReply)) (w : World)
    → Still w (Connection.resume_connect platform o w)
unfolding Connection.resume_connect add_log
resume_connect-Still platform (resolved none) w = (refl, refl, refl, λ g light. refl)
resume_connect-Still platform (resolved (some r)) w =
    branch-Still _ _ _ w w (refl, refl, refl, λ g light. refl) (refl, refl, refl, λ g light. refl)
resume_connect-Still platform (rejected e) w = (refl, refl, refl, λ g light. refl)

pub resume_disconnect-Still :
    (platform : Platform) (o : Outcome (Option DaemonReply)) (w : World)
    → Still w (Connection.resume_disconnect platform o w)
unfolding Connection.resume_disconnect add_log
resume_disconnect-Still platform (resolved r) w = (refl, refl, refl, λ g light. refl)
resume_disconnect-Still platform (rejected e) w = (refl, refl, refl, λ g light. refl)

pub resume_alive-Still :
    (platform : Platform) (was : ConnectionState) (o : Outcome Bool) (w : World)
    → Still w (resume_alive platform was o w)
unfolding Connection.resume_retry add_log
resume_alive-Still platform was (resolved true) w =
    branch-Still _ _ _ w _ (refl, refl, refl, λ g light. refl) (refl, refl, refl, λ g light. refl)
resume_alive-Still platform was (resolved false) w = (refl, refl, refl, λ g light. refl)
resume_alive-Still platform was (rejected e) w = (refl, refl, refl, λ g light. refl)

pub resume_mirror-Still : (o : Outcome Bool) (w : World) → Still w (resume_mirror o w)
unfolding resume_mirror set_daemon_health
resume_mirror-Still (resolved true) w = (refl, refl, refl, λ g light. refl)
resume_mirror-Still (resolved false) w = (refl, refl, refl, λ g light. refl)
resume_mirror-Still (rejected e) w = (refl, refl, refl, λ g light. refl)

set_reported-Still :
    (r : Option ConnectionState) (w : World) → Still w (Subscriptions.set_reported r w)
unfolding Subscriptions.set_reported
set_reported-Still none w = (refl, refl, refl, λ g light. refl)
set_reported-Still (some s) w = (refl, refl, refl, λ g light. refl)

pub resume_status-Still :
    (o : Outcome (Option DaemonReply)) (w : World) → Still w (Subscriptions.resume_status o w)
unfolding Subscriptions.resume_status
resume_status-Still (resolved none) w = (refl, refl, refl, λ g light. refl)
resume_status-Still (resolved (some r)) w = set_reported-Still r.state w
resume_status-Still (rejected e) w = (refl, refl, refl, λ g light. refl)

pub resume_ping-Still :
    (id : String) (o : Outcome (Option ℕ)) (w : World) → Still w (Telemetry.resume_ping id o w)
unfolding Telemetry.resume_ping
resume_ping-Still id (resolved none) w = (refl, refl, refl, λ g light. refl)
resume_ping-Still id (resolved (some n)) w =
    branch-Still _ _ _ w w (refl, refl, refl, λ g light. refl) (refl, refl, refl, λ g light. refl)
resume_ping-Still id (rejected e) w = (refl, refl, refl, λ g light. refl)

pub fire_auto_connect-Still :
    (platform : Platform) (id : String) (w : World) → Still w (fire_auto_connect platform id w)
unfolding fire_auto_connect
fire_auto_connect-Still platform id w =
    branch-Still _ _ _ w w (connect-Still platform (some id) none w)
      (refl, refl, refl, λ g light. refl)

ping_one-Still :
    (platform : Platform) (p : VpnProfile) (w : World) → Still w (Telemetry.ping_one platform p w)
unfolding Telemetry.ping_one
ping_one-Still platform p w =
    branch-Still _ _ _ w w (call-Still _ _ w refl) (refl, refl, refl, λ g light. refl)

ping_each-Still :
    (platform : Platform) (ps : List VpnProfile) (w : World)
    → Still w (Telemetry.ping_each platform ps w)
unfolding Telemetry.ping_each
ping_each-Still platform [] w = (refl, refl, refl, λ g light. refl)
ping_each-Still platform (p ∷ ps) w =
    let v = Telemetry.ping_one platform p w in
    Still-trans w v (Telemetry.ping_each platform ps v) (ping_one-Still platform p w)
      (ping_each-Still platform ps v)

pub ping_all_profiles-Still :
    (platform : Platform) (w : World) → Still w (Telemetry.ping_all_profiles platform w)
unfolding Telemetry.ping_all_profiles
ping_all_profiles-Still platform w = ping_each-Still platform w.store.profiles w
