-- ===== src/Store/Telemetry.antt =====
-- `tickTelemetry`, the listener of `onMetricsUpdate`, and `pingAllProfiles`.
pub mod Laws
use vpnhub.Prelude.{
  ℕ, ◌+◌, ◌*◌, ◌/◌, ℤ, pos, sub_ℤ, floor_div, nonzero, String, Bool, true, false, not, ◌&&◌, ◌||◌,
  Option, none, some, List, [], ◌∷◌, ◌++◌, map, str_eq, ◌==◌, if◌then◌else◌, find, slice_last,
  nonempty, or_nat, get_or,
}
use vpnhub.Types.{ConnectionState, VpnProfile, TelemetryPoint, LiveTelemetry}
use vpnhub.Types.Equality.{state_eq}
use vpnhub.Bridge.{Outcome, resolved, rejected}
use vpnhub.Bridge.Methods.{ping_host}
use vpnhub.World.{
  VpnStoreState, Platform, Action, World, Task, get, set, await, tick, pass, branch, ◌>>=◌, ◌>>◌,
}

abbrev pub active_profile : VpnStoreState → Option VpnProfile
active_profile s = find (λ (p : VpnProfile). str_eq p.id s.active_profile_id) s.profiles

-- `activeProf?.pingMs`
abbrev pub ping_of : Option VpnProfile → Option ℕ
ping_of none = none
ping_of (some p) = some p.ping_ms

-- `[...sparkline.slice(-29), point]`
unfoldable pub push_point : List TelemetryPoint → TelemetryPoint → List TelemetryPoint
push_point sparkline point = slice_last 29 sparkline ++ point ∷ []

unfoldable pub reset_telemetry : Action
reset_telemetry = set (λ s. record s {
  uptime_seconds = pos 0;
  connected_at = none;
  telemetry = record (s.telemetry) { current_download_kbps = 0; current_upload_kbps = 0 };
})

-- `connectedAt ? Math.floor((now - connectedAt) / 1000) : uptimeSeconds`
abbrev pub real_uptime : Option ℤ → ℤ → ℕ → ℤ
real_uptime none uptime now = uptime
real_uptime (some t) uptime now = if nonzero t then floor_div (sub_ℤ now t) 1000 else uptime

-- The uptime needs the time.
abbrev pub has_start : Option ℤ → Bool
has_start none = false
has_start (some t) = nonzero t

unfoldable pub advance_telemetry : Platform → VpnStoreState → Action
advance_telemetry platform state = do
  let ping =
      or_nat (ping_of (active_profile state)) (or_nat (some state.telemetry.current_ping_ms) 25)
  n ← λ w. w.reads
  let uptime = real_uptime state.connected_at state.uptime_seconds (platform.now n)
  branch (has_start state.connected_at) tick pass
  m ← λ w. w.reads
  tick
  set (λ s. record s {
    uptime_seconds = uptime;
    telemetry = record (s.telemetry) {
      current_ping_ms = ping;
      sparkline = push_point s.telemetry.sparkline (record {
        timestamp = pos (platform.now m);
        download_speed = state.telemetry.current_download_kbps;
        upload_speed = state.telemetry.current_upload_kbps;
        ping = ping;
      });
    };
  })

unfoldable pub tick_telemetry : Platform → Action
tick_telemetry platform = do
  state ← get
  branch (state_eq state.connection_state ConnectionState.connected)
      (advance_telemetry platform state)
      (branch
        (not (state.telemetry.current_download_kbps == 0)
          || (not (state.telemetry.current_upload_kbps == 0) || nonzero state.uptime_seconds))
        reset_telemetry pass)

-- What the metrics event carries. A rate is a whole number of bits per second.
pub record Metrics : Type 0 where
  pub rx_rate_bps : Option ℕ
  pub tx_rate_bps : Option ℕ
  pub latency_rtt_ms : Option ℕ
  pub rx_bytes : Option ℕ
  pub tx_bytes : Option ℕ

pub record MetricsPayload : Type 0 where
  pub status : String
  pub result : Option Metrics

-- `Math.round((bps / 8192) * 10)`: tenths of a KB/s, rounded to the nearest, halves upwards.
unfoldable pub tenths_kbps : ℕ → ℕ
tenths_kbps bps = (bps * 10 + 4096) / 8192

abbrev pub with_ping : String → ℕ → VpnProfile → VpnProfile
with_ping id rtt p = if str_eq p.id id then record p { ping_ms = rtt } else p

unfoldable pub apply_metrics : Platform → Metrics → Action
unfolding tenths_kbps
apply_metrics platform m = do
  let rx = tenths_kbps (get_or m.rx_rate_bps 0)
  let tx = tenths_kbps (get_or m.tx_rate_bps 0)
  state ← get
  let ping = or_nat m.latency_rtt_ms (or_nat (some state.telemetry.current_ping_ms) 24)
  n ← λ w. w.reads
  tick
  set (λ s. record s {
    profiles =
        if nonempty s.active_profile_id
        then map (with_ping s.active_profile_id ping) s.profiles
        else s.profiles;
    telemetry = record (s.telemetry) {
      current_download_kbps = rx;
      current_upload_kbps = tx;
      total_downloaded_bytes = get_or m.rx_bytes s.telemetry.total_downloaded_bytes;
      total_uploaded_bytes = get_or m.tx_bytes s.telemetry.total_uploaded_bytes;
      current_ping_ms = ping;
      sparkline = push_point s.telemetry.sparkline (record {
        timestamp = pos (platform.now n);
        download_speed = rx;
        upload_speed = tx;
        ping = ping;
      });
    };
  })

unfoldable pub apply_result : Platform → Bool → Option Metrics → Action
apply_result platform true (some m) = apply_metrics platform m
apply_result platform _ _ = pass

-- The listener of `onMetricsUpdate`; `none` is a payload that is no object.
unfoldable pub on_metrics_update : Platform → Option MetricsPayload → Action
on_metrics_update platform none = pass
on_metrics_update platform (some payload) =
    apply_result platform (str_eq payload.status "metrics") payload.result

unfoldable pub ping_one : Platform → VpnProfile → Action
ping_one platform p =
    branch (nonempty p.server_host && not (p.server_port == 0))
      (await (ping_host platform.tauri p.server_host p.server_port) (Task.ping_response p.id)) pass

-- The loop of `pingAllProfiles`.
unfoldable pub ping_each : Platform → List VpnProfile → Action
ping_each platform [] w = w
ping_each platform (p ∷ ps) w = ping_each platform ps (ping_one platform p w)

unfoldable pub ping_all_profiles : Platform → Action
unfolding ping_each
ping_all_profiles platform w = ping_each platform w.store.profiles w

-- What `pingAllProfiles` does with the outcome of one ping.
unfoldable pub resume_ping : String → Outcome (Option ℕ) → Action
resume_ping id (resolved (some rtt)) =
    branch (rtt == 0) pass (set (λ s. record s { profiles = map (with_ping id rtt) s.profiles }))
resume_ping id _ = pass
