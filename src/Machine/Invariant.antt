-- ===== src/Machine/Invariant.antt =====
-- What an invariant of the store has to do with: it must survive each elementary change that the
-- actions of useVpnStore.ts are made of. Then it survives every event.
pub mod Actions
pub mod Connecting
pub mod Telemetry
pub mod Listening
pub mod Loading
pub mod Events
use vpnhub.Prelude.{
  ℕ, String, Bool, true, false, Option, none, some, List, [], ◌∷◌, ◌++◌, ◌≡◌, if◌then◌else◌,
}
use vpnhub.Types.{ConnectionState, VpnProfile, LogLevel, SecuritySettings, TelemetryPoint}
use vpnhub.Bridge.{Command}
use vpnhub.World.{
  VpnStoreState, Platform, Action, World, Task, Listener, Effect, set, emit, tick, invoke_request,
}
use vpnhub.Store.Logs.{add_log, clear_logs}
use vpnhub.Store.Telemetry.{push_point}
use vpnhub.Store.Connection.{connect_params}

abbrev pub is_request : Effect → Bool
is_request (Effect.invoke (Command.vpn_connect _)) = true
is_request _ = false

pub record IsInvariant (platform : Platform) (P : World → Type 0) : Type 0 where
  -- A change of the store that leaves the logs and the sparkline alone.
  pub quiet :
      {w : World} {s : VpnStoreState}
      → P w
      → s.logs ≡ w.store.logs
      → s.telemetry.sparkline ≡ w.store.telemetry.sparkline
      → P (record w { store = s })
  -- A change that leaves the logs alone and adds one point to the sparkline.
  pub point :
      {w : World} {s : VpnStoreState} (p : TelemetryPoint)
      → P w
      → s.logs ≡ w.store.logs
      → s.telemetry.sparkline ≡ push_point w.store.telemetry.sparkline p
      → P (record w { store = s })
  pub log :
      {w : World} (level : LogLevel) (source message : String)
      → P w
      → P (add_log platform level source message w)
  pub clear : {w : World} → P w → P (clear_logs w)
  pub effect : {w : World} {e : Effect} → P w → is_request e ≡ false → P (emit e w)
  pub request :
      {w : World} (p : VpnProfile) (settings : SecuritySettings) (password : String)
      → P w
      → P (emit (Effect.invoke (Command.vpn_connect (connect_params p settings password))) w)
  pub tasks : {w : World} {ts : List Task} → P w → P (record w { tasks = ts })
  pub listen : {w : World} (l : Listener) → P w → P (record w { listeners = w.listeners ++ l ∷ [] })
  pub subscribed : {w : World} → P w → P (record w { ipc_subscribed = true })
  pub loading : {w : World} {b : Bool} → P w → P (record w { is_storage_loading = b })
  pub notified :
      {w : World} {s : Option ConnectionState} → P w → P (record w { last_notified_state = s })
  pub reading : {w : World} → P w → P (tick w)
