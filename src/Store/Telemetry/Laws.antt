-- ===== src/Store/Telemetry/Laws.antt =====
-- The heartbeat `tickTelemetry`, and the rounding of a rate.
use vpnhub.Prelude.{
  ℕ, ◌+◌, ◌*◌, ◌≤◌, ◌<◌, ◌≡◌, ℤ, pos, negsuc, ap, false, nonzero, refl, arith, not, ◌||◌, ◌==◌,
  Bool-cases, Bool, inl, inr,
}
use vpnhub.Types.{ConnectionState}
use vpnhub.Types.Equality.{state_eq}
use vpnhub.World.{VpnStoreState, Platform, World, branch}
use vpnhub.Store.Telemetry.{tick_telemetry, reset_telemetry, tenths_kbps}

-- What `tickTelemetry` finds to reset.
abbrev is_running : VpnStoreState → Bool
is_running s =
    not (s.telemetry.current_download_kbps == 0)
    || (not (s.telemetry.current_upload_kbps == 0) || nonzero s.uptime_seconds)

nonzero-false : (z : ℤ) → nonzero z ≡ false → z ≡ pos 0
nonzero-false (pos n) h = ap pos (ground (arith, h))
nonzero-false (negsuc n) h = cc

still-zero :
    (s : VpnStoreState)
    → is_running s ≡ false
    → (s.telemetry.current_download_kbps ≡ 0)
      × (s.telemetry.current_upload_kbps ≡ 0)
      × (s.uptime_seconds ≡ pos 0)
still-zero s h =
    (ground (arith, h), ground (arith, h), nonzero-false s.uptime_seconds (ground (arith, h)))

-- A heartbeat while no tunnel is up leaves no speed and no uptime, and touches neither the state of the
-- connection nor the profiles, the log, the effects or the pending promises.
pub tick_telemetry-idle :
    (platform : Platform) (w : World)
    → state_eq w.store.connection_state ConnectionState.connected ≡ false
    → let v = tick_telemetry platform w in
      (v.store.telemetry.current_download_kbps ≡ 0)
      × (v.store.telemetry.current_upload_kbps ≡ 0)
      × (v.store.uptime_seconds ≡ pos 0)
      × (v.store.connection_state ≡ w.store.connection_state)
      × (v.store.profiles ≡ w.store.profiles)
      × (v.store.logs ≡ w.store.logs)
      × (v.effects ≡ w.effects)
      × (v.tasks ≡ w.tasks)
unfolding tick_telemetry reset_telemetry branch
tick_telemetry-idle platform w idle = elim (Bool-cases (is_running w.store)) [
  | inl running ↦ rw (idle, running) (refl, refl, refl, refl, refl, refl, refl, refl)
  | inr still ↦
      let (d, u, t) = still-zero w.store still in
      rw (idle, still) (d, u, t, refl, refl, refl, refl, refl)
]

-- The speed that is shown is the rate in tenths of 1024 bytes a second, to the nearest, and a larger
-- rate never shows as a smaller speed.
pub tenths_kbps-nearest :
    (bps more : ℕ)
    → bps ≤ more
    → (tenths_kbps bps * 8192 ≤ bps * 10 + 4096)
      × (bps * 10 < tenths_kbps bps * 8192 + 4096)
      × (tenths_kbps bps ≤ tenths_kbps more)
unfolding tenths_kbps
tenths_kbps-nearest bps more h = (omega arith, omega arith, omega arith)
