-- ===== src/Machine/Mirror.antt =====
-- The two listeners of the daemon's health: the one at the end of the module, and that of
-- `setupIpcSubscriptions`.
use vpnhub.Prelude.{◌≡◌, refl, true, List, [], ◌∷◌}
use vpnhub.Types.{DaemonHealthStatus}
use vpnhub.World.{Platform, World, Listener, branch}
use vpnhub.Store.Settings.{set_daemon_health}
use vpnhub.Store.Subscriptions.{on_daemon_status}
use vpnhub.Store.Initial.{SavedSettings, initial_world}
use vpnhub.Store.Storage.{register, load_storage}
use vpnhub.Machine.{Event, step, boot}

-- The listeners once everything is registered, in the order in which that happens.
abbrev pub all_listeners : List Listener
all_listeners =
    Listener.health_mirror ∷ Listener.daemon_status ∷ Listener.vpn_status ∷ Listener.metrics
    ∷ Listener.tray_toggle ∷ []

-- In the desktop shell, the mirror of the daemon's health is registered while the module is loaded, and
-- nothing else is by then.
pub boot-listeners :
    (platform : Platform) (saved : SavedSettings)
    → platform.tauri ≡ true
    → (boot platform saved).listeners ≡ Listener.health_mirror ∷ []
unfolding boot register load_storage initial_world branch
boot-listeners platform saved shell = rw shell refl

-- If the callbacks run in the order of their registration, a daemon that comes back is only shown as
-- such: the listener that follows the mirror finds the health `connected` already, so that it neither
-- logs the return nor asks the daemon for its state.
pub step-daemon_connected :
    (platform : Platform) (w : World)
    → w.listeners ≡ all_listeners
    → step platform (Event.daemon_status DaemonHealthStatus.connected) w
      ≡ record w { store = record (w.store) { daemon_health = DaemonHealthStatus.connected } }
unfolding step on_daemon_status set_daemon_health branch
step-daemon_connected platform w e = rw e refl
