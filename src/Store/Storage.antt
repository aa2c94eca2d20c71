-- ===== src/Store/Storage.antt =====
-- `loadStorage`, cut at its `await`s, with the `setupIpcSubscriptions` that it waits for.
pub mod Mapping
pub mod Laws
pub mod Selection
pub mod Once
use vpnhub.Prelude.{
  ℕ, String, ◌<>◌, Bool, true, false, not, ◌&&◌, ◌||◌, Option, none, some, List, [], ◌∷◌, ◌++◌, map,
  if◌then◌else◌, find, length, nonempty, show, str_eq,
}
use vpnhub.Types.{ConnectionState, VpnProfile, LogLevel}
use vpnhub.Types.Equality.{state_eq}
use vpnhub.Bridge.{Outcome, resolved, rejected, Channel, FullStorageSnapshotPayload}
use vpnhub.Bridge.Methods.{load_all_storage, subscribe}
use vpnhub.World.{
  VpnStoreState, Platform, Action, World, Task, Listener, get, set, start, await, defer, pass,
  branch, ◌>>=◌, ◌>>◌,
}
use vpnhub.Store.Logs.{add_log}
use vpnhub.Store.Profiles.{first_id}
use vpnhub.Store.Telemetry.{ping_all_profiles}
use vpnhub.Store.Connection.{connect}
use vpnhub.Store.Storage.Mapping.{
  map_profile, secret_of, map_settings, map_app_rule, map_ip_rule, initial_active_id,
}

abbrev pub set_loading : Bool → Action
set_loading loading w = record w { is_storage_loading = loading }

unfoldable pub load_storage : Platform → Bool → Action
load_storage platform force = do
  skip ← λ w. not force && (w.store.is_storage_loaded || w.is_storage_loading)
  branch skip pass (set_loading true >> await (load_all_storage platform.tauri) Task.load_snapshot)

abbrev pub channel_of : Listener → Channel
channel_of Listener.health_mirror = Channel.daemon_status
channel_of Listener.daemon_status = Channel.daemon_status
channel_of Listener.vpn_status = Channel.vpn_status_update
channel_of Listener.metrics = Channel.vpn_metrics_update
channel_of Listener.tray_toggle = Channel.tray_toggle

abbrev pub add_listener : Listener → Action
add_listener l w = record w { listeners = w.listeners ++ l ∷ [] }

abbrev pub set_subscribed : Action
set_subscribed w = record w { ipc_subscribed = true }

-- A call of `listen`. From then on the callback may run; outside the shell it never does.
unfoldable pub register : Platform → Listener → Action
register platform l = do
  start (subscribe platform.tauri (channel_of l))
  branch platform.tauri (add_listener l) pass

-- `setupIpcSubscriptions`, up to its first `await`.
unfoldable pub setup_ipc_subscriptions : Platform → String → Action
setup_ipc_subscriptions platform active_id = do
  done ← λ w. w.ipc_subscribed
  branch done (defer (Task.subscribed [] active_id)) (
      set_subscribed
      >> register platform Listener.daemon_status
      >> defer (
          Task.subscribed (Listener.vpn_status ∷ Listener.metrics ∷ Listener.tray_toggle ∷ [])
            active_id))

unfoldable pub store_snapshot : Platform → FullStorageSnapshotPayload → Action
store_snapshot platform snapshot = do
  let profiles = map (λ p. map_profile p (secret_of snapshot p.id)) snapshot.profiles
  let active_id = initial_active_id profiles
  set (λ s. record s {
    profiles = profiles;
    security_settings = map_settings snapshot.security_settings;
    app_rules = map map_app_rule snapshot.app_rules;
    ip_rules = map map_ip_rule snapshot.ip_rules;
    active_profile_id = active_id;
    is_storage_loaded = true;
  })
  add_log platform LogLevel.info "PERSISTENCE"
      ("Loaded " <> (show (length profiles) <> " profiles and encrypted vault keys from disk"))
  setup_ipc_subscriptions platform active_id

-- `loadStorage` behind the `await` of `loadAllStorage`. The early `return` runs the `finally` block.
unfoldable pub resume_load : Platform → Outcome (Option FullStorageSnapshotPayload) → Action
resume_load platform (resolved (some snapshot)) = store_snapshot platform snapshot
resume_load platform _ = set_loading false

-- The end of `loadStorage`, behind the `await` of `setupIpcSubscriptions`.
unfoldable pub finish_load : Platform → String → Action
finish_load platform active_id = do
  ping_all_profiles platform
  state ← get
  branch (state.app_settings.auto_connect && nonempty active_id)
      (defer (Task.auto_connect active_id)) pass
  set_loading false

-- Behind an `await` of `listen`: the next one, or the end. A rejection ends `loadStorage`.
unfoldable pub resume_subscribed : Platform → List Listener → String → Outcome (Unit {0}) → Action
resume_subscribed platform [] active_id (resolved _) = finish_load platform active_id
resume_subscribed platform (l ∷ rest) active_id (resolved _) =
    register platform l >> defer (Task.subscribed rest active_id)
resume_subscribed platform _ active_id (rejected e) = set_loading false

-- The callback of the timer.
unfoldable pub fire_auto_connect : Platform → String → Action
fire_auto_connect platform id = do
  state ← get
  branch (state_eq state.connection_state ConnectionState.disconnected)
      (connect platform (some id) none) pass
