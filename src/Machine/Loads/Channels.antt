-- ===== src/Machine/Loads/Channels.antt =====
-- A message of a channel leaves the loading of the storage where it stands.
use vpnhub.Prelude.{refl, Option, List, [], ◌∷◌}
use vpnhub.Types.{DaemonHealthStatus}
use vpnhub.World.{Platform, World, Action, Listener}
use vpnhub.Store.Settings.{set_daemon_health}
use vpnhub.Store.Telemetry.{MetricsPayload}
use vpnhub.Store.Subscriptions.{StatusPayload}
use vpnhub.Machine.{
  run_callback, deliver, on_status_channel, on_vpn_channel, on_metrics_channel, on_tray_channel,
}
use vpnhub.Machine.Frame.{Still}
use vpnhub.Machine.Loads.Still.{Still-trans}
use vpnhub.Machine.Loads.Listeners.{
  on_daemon_status-Still, on_vpn_status-Still, on_metrics_update-Still, on_tray_toggle-Still,
}

abbrev AllStill : (Listener → Option Action) → Type 0
AllStill callback = (l : Listener) (w : World) → Still w (run_callback (callback l) w)

deliver-Still :
    (callback : Listener → Option Action)
    → AllStill callback
    → (ls : List Listener) (w : World) → Still w (deliver callback ls w)
deliver-Still callback still [] w = (refl, refl, refl, λ g light. refl)
deliver-Still callback still (l ∷ ls) w =
    let v = run_callback (callback l) w in
    Still-trans w v (deliver callback ls v) (still l w) (deliver-Still callback still ls v)

pub status_channel-Still :
    (platform : Platform) (status : DaemonHealthStatus) (w : World)
    → Still w (deliver (on_status_channel platform status) w.listeners w)
unfolding set_daemon_health
status_channel-Still platform status w =
    deliver-Still (on_status_channel platform status) still w.listeners w
  where
    still : AllStill (on_status_channel platform status)
    still Listener.health_mirror v = (refl, refl, refl, λ g light. refl)
    still Listener.daemon_status v = on_daemon_status-Still platform status v
    still _ v = (refl, refl, refl, λ g light. refl)

pub vpn_channel-Still :
    (platform : Platform) (payload : Option StatusPayload) (w : World)
    → Still w (deliver (on_vpn_channel platform payload) w.listeners w)
vpn_channel-Still platform payload w =
    deliver-Still (on_vpn_channel platform payload) still w.listeners w
  where
    still : AllStill (on_vpn_channel platform payload)
    still Listener.vpn_status v = on_vpn_status-Still platform payload v
    still _ v = (refl, refl, refl, λ g light. refl)

pub metrics_channel-Still :
    (platform : Platform) (payload : Option MetricsPayload) (w : World)
    → Still w (deliver (on_metrics_channel platform payload) w.listeners w)
metrics_channel-Still platform payload w =
    deliver-Still (on_metrics_channel platform payload) still w.listeners w
  where
    still : AllStill (on_metrics_channel platform payload)
    still Listener.metrics v = on_metrics_update-Still platform payload v
    still _ v = (refl, refl, refl, λ g light. refl)

pub tray_channel-Still :
    (platform : Platform) (w : World) → Still w (deliver (on_tray_channel platform) w.listeners w)
tray_channel-Still platform w = deliver-Still (on_tray_channel platform) still w.listeners w
  where
    still : AllStill (on_tray_channel platform)
    still Listener.tray_toggle v = on_tray_toggle-Still platform v
    still _ v = (refl, refl, refl, λ g light. refl)
