-- ===== src/World.antt =====
-- packages/app/src/state/useVpnStore.ts: the state of the store and of its module, what it leaves
-- pending, and what it has done to the outside.
--
-- An action is a function on this world. `get` and `set` are the store's own. An `await` ends an
-- action: the rest of the function is a `Task`, with the variables that it has captured, and it runs
-- when the environment settles the promise, in any order.
use vpnhub.Prelude.{
  ◌≡◌, refl, ℕ, ℤ, suc, String, Bool, true, false, Option, none, some, List, [], ◌∷◌, ◌++◌,
}
use vpnhub.Types.{
  ConnectionState, DaemonHealthStatus, VpnProfile, LiveTelemetry, LogEntry, SecuritySettings,
  AppSettings, AppRule, IpDomainRule,
}
use vpnhub.Bridge.{Command, Method, VpnConnectParams}
use vpnhub.Totp.{Hmac}

pub data NavigationTab : Type 0 where
  dashboard profiles security logs settings : NavigationTab

-- The state of the store. `daemon_latency_ms` is in hundredths.
pub record VpnStoreState : Type 0 where
  pub connection_state : ConnectionState
  pub daemon_health : DaemonHealthStatus
  pub daemon_version : String
  pub daemon_latency_ms : ℕ
  pub active_profile_id : String
  pub active_tab : NavigationTab
  pub profiles : List VpnProfile
  pub telemetry : LiveTelemetry
  pub connected_at : Option ℤ
  pub uptime_seconds : ℤ
  pub logs : List LogEntry
  pub security_settings : SecuritySettings
  pub app_settings : AppSettings
  pub app_rules : List AppRule
  pub ip_rules : List IpDomainRule
  pub is_spotlight_open : Bool
  pub is_compact_widget : Bool
  pub is_log_auto_scroll : Bool
  pub log_filter_level : String
  pub log_search_query : String
  pub is_storage_loaded : Bool
  pub mfa_prompt_profile : Option VpnProfile

-- The callbacks that are registered with the desktop shell. `health_mirror` is the one at the end of
-- the module.
pub data Listener : Type 0 where
  health_mirror daemon_status vpn_status metrics tray_toggle : Listener

-- What runs when a promise settles.
pub data Task : Type 0 where
  load_snapshot : Task
  -- `setupIpcSubscriptions` behind one of its `await`s, with the listeners still to subscribe; then
  -- the end of `loadStorage`, for this active profile.
  subscribed : (rest : List Listener) (active_id : String) → Task
  -- `connect`, once the one-time code is there: the profile and the settings that it has read.
  connect_otp : VpnProfile → SecuritySettings → (live_otp : String) → Task
  connect_response : VpnConnectParams → Task
  disconnect_response : Task
  retry_response : (was : ConnectionState) → Task
  status_response : Task
  ping_response : (id : String) → Task
  mirror_response : Task
  auto_connect : (id : String) → Task

pub data ToastColor : Type 0 where
  teal red gray cyan : ToastColor

-- What the store does to the outside.
pub data Effect : Type 0 where
  invoke : Command → Effect
  notify : (title message : String) → ToastColor → Effect
  save_app_settings : AppSettings → Effect

pub record World : Type 0 where
  pub store : VpnStoreState
  -- The variables of the module.
  pub ipc_subscribed : Bool
  pub is_storage_loading : Bool
  pub last_notified_state : Option ConnectionState
  -- What the platform holds: listeners in the order of registration, pending tasks, the effects so
  -- far with the latest first, and how often the clock or the random source was read.
  pub listeners : List Listener
  pub tasks : List Task
  pub effects : List Effect
  pub reads : ℕ

-- The local time of day, as `Date` gives it.
pub record LocalTime : Type 0 where
  pub hours : ℕ
  pub minutes : ℕ
  pub seconds : ℕ
  pub milliseconds : ℕ

-- The platform: whether the program runs in the desktop shell, and what the n-th reading gives.
pub record Platform : Type 0 where
  pub tauri : Bool
  pub now : ℕ → ℕ
  pub local_time : ℕ → LocalTime
  pub random_uuid : ℕ → String
  pub hmac_sha1 : Hmac

abbrev pub Action : Type 0
Action = World → World

-- `x ← get` reads the state that is current there.
infixl 5 ◌>>=◌ ◌>>◌
abbrev pub ◌>>=◌ {ℓ} : {A : Type ℓ} → (World → A) → (A → Action) → Action
◌>>=◌ r f w = f (r w) w

abbrev pub ◌>>◌ : Action → Action → Action
◌>>◌ a b w = b (a w)

abbrev pub pass : Action
pass w = w

-- `if (b) … else …` between actions.
unfoldable pub branch : Bool → Action → Action → Action
branch true a b = a
branch false a b = b

abbrev pub get : World → VpnStoreState
get w = w.store

abbrev pub set : (VpnStoreState → VpnStoreState) → Action
set f w = record w { store = f w.store }

abbrev pub emit : Effect → Action
emit e w = record w { effects = e ∷ w.effects }

abbrev pub invoke_request : Option Command → Action
invoke_request none w = w
invoke_request (some c) w = emit (Effect.invoke c) w

-- A call of a bridge method whose promise nobody waits for.
abbrev pub start : {R A : Type 0} → Method R A → Action
start m = invoke_request m.request

abbrev pub defer : Task → Action
defer t w = record w { tasks = w.tasks ++ t ∷ [] }

-- A call of a bridge method, with what runs behind it.
abbrev pub await : {R A : Type 0} → Method R A → Task → Action
await m t = start m >> defer t

-- One reading of the clock or the random source.
abbrev pub tick : Action
tick w = record w { reads = suc w.reads }

pub branch-true : (b : Bool) (f g : Action) (w : World) → b ≡ true → branch b f g w ≡ f w
unfolding branch
branch-true true f g w h = refl
branch-true false f g w h = cc

pub branch-false : (b : Bool) (f g : Action) (w : World) → b ≡ false → branch b f g w ≡ g w
unfolding branch
branch-false true f g w h = cc
branch-false false f g w h = refl
