-- ===== src/Machine/Invariant/Telemetry.antt =====
-- The telemetry and the pings keep an invariant.
use vpnhub.Prelude.{ℕ, String, Bool, true, false, Option, none, some, List, [], ◌∷◌, refl}
use vpnhub.Types.{VpnProfile}
use vpnhub.Bridge.{Outcome, resolved, rejected}
use vpnhub.World.{VpnStoreState, Platform, World}
use vpnhub.Machine.Invariant.{IsInvariant}
use vpnhub.Machine.Invariant.Actions.{keeps-invoke, keeps-if}
use vpnhub.Store.Telemetry
use vpnhub.Store.Telemetry.{Metrics, MetricsPayload}

module _ (platform : Platform) {P : World → Type 0} (I : IsInvariant platform P) where
  keeps-reset_telemetry : {w : World} → P w → P (Telemetry.reset_telemetry w)
  unfolding Telemetry.reset_telemetry
  keeps-reset_telemetry p = I.quiet p refl refl

  keeps-advance_telemetry :
      {w : World} (state : VpnStoreState) → P w → P (Telemetry.advance_telemetry platform state w)
  unfolding Telemetry.advance_telemetry
  keeps-advance_telemetry state p =
      I.point _ (I.reading (keeps-if platform I _ _ _ p I.reading (λ q. q))) refl refl

  pub keeps-tick_telemetry : {w : World} → P w → P (Telemetry.tick_telemetry platform w)
  unfolding Telemetry.tick_telemetry
  keeps-tick_telemetry p =
      keeps-if platform I _ _ _ p (keeps-advance_telemetry _)
        (λ q. keeps-if platform I _ _ _ q keeps-reset_telemetry (λ r. r))

  keeps-apply_metrics : {w : World} (m : Metrics) → P w → P (Telemetry.apply_metrics platform m w)
  unfolding Telemetry.apply_metrics
  keeps-apply_metrics m p = I.point _ (I.reading p) refl refl

  keeps-apply_result :
      {w : World} (b : Bool) (m : Option Metrics) → P w → P (Telemetry.apply_result platform b m w)
  unfolding Telemetry.apply_result
  keeps-apply_result true (some m) p = keeps-apply_metrics m p
  keeps-apply_result true none p = p
  keeps-apply_result false m p = p

  pub keeps-on_metrics_update :
      {w : World} (payload : Option MetricsPayload)
      → P w
      → P (Telemetry.on_metrics_update platform payload w)
  unfolding Telemetry.on_metrics_update
  keeps-on_metrics_update none p = p
  keeps-on_metrics_update (some payload) p = keeps-apply_result _ payload.result p

  keeps-ping_one :
      {w : World} (profile : VpnProfile) → P w → P (Telemetry.ping_one platform profile w)
  unfolding Telemetry.ping_one
  keeps-ping_one profile p =
      keeps-if platform I _ _ _ p (λ q. I.tasks (keeps-invoke platform I _ refl q)) (λ q. q)

  keeps-ping_each :
      (profiles : List VpnProfile) {w : World} → P w → P (Telemetry.ping_each platform profiles w)
  unfolding Telemetry.ping_each
  keeps-ping_each [] p = p
  keeps-ping_each (profile ∷ profiles) p = keeps-ping_each profiles (keeps-ping_one profile p)

  pub keeps-ping_all_profiles : {w : World} → P w → P (Telemetry.ping_all_profiles platform w)
  unfolding Telemetry.ping_all_profiles
  keeps-ping_all_profiles {w} p = keeps-ping_each w.store.profiles p

  pub keeps-resume_ping :
      {w : World} (id : String) (o : Outcome (Option ℕ)) → P w → P (Telemetry.resume_ping id o w)
  unfolding Telemetry.resume_ping
  keeps-resume_ping id (resolved none) p = p
  keeps-resume_ping id (resolved (some rtt)) p =
      keeps-if platform I _ _ _ p (λ q. q) (λ q. I.quiet q refl refl)
  keeps-resume_ping id (rejected e) p = p
