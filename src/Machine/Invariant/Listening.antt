-- ===== src/Machine/Invariant/Listening.antt =====
-- The listeners keep an invariant.
use vpnhub.Prelude.{ℕ, Bool, true, false, Option, none, some, ◌≡◌, refl}
use vpnhub.Types.{ConnectionState, DaemonHealthStatus}
use vpnhub.Bridge.{Outcome, resolved, rejected, DaemonReply}
use vpnhub.World.{VpnStoreState, Platform, World, Effect}
use vpnhub.Machine.Invariant.{IsInvariant, is_request}
use vpnhub.Machine.Invariant.Actions.{keeps-invoke, keeps-if}
use vpnhub.Store.Subscriptions
use vpnhub.Store.Subscriptions.{StatusSnapshot, StatusPayload}
use vpnhub.Store.Settings
use vpnhub.Machine.Invariant.Connecting.{keeps-connect, keeps-disconnect}

module _ (platform : Platform) {P : World → Type 0} (I : IsInvariant platform P) where
  pub keeps-set_daemon_health :
      {w : World} (health : DaemonHealthStatus) → P w → P (Settings.set_daemon_health health w)
  unfolding Settings.set_daemon_health
  keeps-set_daemon_health health p = I.quiet p refl refl

  keeps-lose_daemon : {w : World} → P w → P (Subscriptions.lose_daemon platform w)
  unfolding Subscriptions.lose_daemon
  keeps-lose_daemon p = keeps-invoke platform I _ refl (I.quiet (I.log _ _ _ p) refl refl)

  keeps-restore_daemon : {w : World} → P w → P (Subscriptions.restore_daemon platform w)
  unfolding Subscriptions.restore_daemon
  keeps-restore_daemon p = I.tasks (keeps-invoke platform I _ refl (I.log _ _ _ p))

  pub keeps-on_daemon_status :
      {w : World} (status : DaemonHealthStatus)
      → P w
      → P (Subscriptions.on_daemon_status platform status w)
  unfolding Subscriptions.on_daemon_status
  keeps-on_daemon_status status p =
      keeps-if platform I _ _ _ (I.quiet p refl refl)
        (λ q. keeps-if platform I _ _ _ q keeps-lose_daemon (λ r. r))
        (λ q. keeps-if platform I _ _ _ q keeps-restore_daemon (λ r. r))

  keeps-set_reported :
      {w : World} (state : Option ConnectionState) → P w → P (Subscriptions.set_reported state w)
  unfolding Subscriptions.set_reported
  keeps-set_reported none p = p
  keeps-set_reported (some state) p = I.quiet p refl refl

  pub keeps-resume_status :
      {w : World} (o : Outcome (Option DaemonReply)) → P w → P (Subscriptions.resume_status o w)
  unfolding Subscriptions.resume_status
  keeps-resume_status (resolved none) p = p
  keeps-resume_status (resolved (some r)) p = keeps-set_reported _ p
  keeps-resume_status (rejected e) p = p

  keeps-notify_once :
      {w : World} (enabled : Bool) (state : ConnectionState) (toast : Effect)
      → is_request toast ≡ false
      → P w
      → P (Subscriptions.notify_once enabled state toast w)
  unfolding Subscriptions.notify_once
  keeps-notify_once enabled state toast h p =
      keeps-if platform I _ _ _ p (λ q. I.effect (I.notified q) h) (λ q. q)

  keeps-notify_disconnected :
      {w : World} (current : VpnStoreState) → P w → P (Subscriptions.notify_disconnected current w)
  unfolding Subscriptions.notify_disconnected
  keeps-notify_disconnected current p = keeps-if platform I _ _ _ p (λ q. I.effect q refl) (λ q. q)

  keeps-report_disconnected :
      {w : World} (current : VpnStoreState)
      → P w
      → P (Subscriptions.report_disconnected platform current w)
  unfolding Subscriptions.report_disconnected
  keeps-report_disconnected current p = I.notified (
      keeps-if platform I _ _ _ p (λ q. keeps-notify_disconnected current (I.log _ _ _ q)) (λ q. q))

  keeps-report :
      {w : World} (current : VpnStoreState) (snap : StatusSnapshot) (state : ConnectionState)
      → P w
      → P (Subscriptions.report platform current snap state w)
  unfolding Subscriptions.report Subscriptions.report_connected Subscriptions.report_error
  keeps-report current snap ConnectionState.connected p =
      keeps-notify_once _ _ _ refl (I.log _ _ _ p)
  keeps-report current snap ConnectionState.error p = keeps-notify_once _ _ _ refl (I.log _ _ _ p)
  keeps-report current snap ConnectionState.disconnected p = keeps-report_disconnected current p
  keeps-report current snap _ p = p

  keeps-set_session :
      {w : World} (state : ConnectionState) (session : ℕ)
      → P w
      → P (Subscriptions.set_session platform state session w)
  unfolding Subscriptions.set_session
  keeps-set_session state session p = I.quiet (I.reading p) refl refl

  keeps-apply_snapshot :
      {w : World} (snap : StatusSnapshot) → P w → P (Subscriptions.apply_snapshot platform snap w)
  unfolding Subscriptions.apply_snapshot
  keeps-apply_snapshot snap p =
      keeps-if platform I _ _ _ p (λ q. q)
        (λ q.
          keeps-invoke platform I _ refl
            (keeps-set_session snap.state _ (keeps-report _ snap snap.state q)))

  keeps-apply_status :
      {w : World} (b : Bool) (snap : Option StatusSnapshot)
      → P w
      → P (Subscriptions.apply_status platform b snap w)
  unfolding Subscriptions.apply_status
  keeps-apply_status true (some snap) p = keeps-apply_snapshot snap p
  keeps-apply_status true none p = p
  keeps-apply_status false snap p = p

  pub keeps-on_vpn_status :
      {w : World} (payload : Option StatusPayload)
      → P w
      → P (Subscriptions.on_vpn_status platform payload w)
  unfolding Subscriptions.on_vpn_status
  keeps-on_vpn_status none p = p
  keeps-on_vpn_status (some payload) p = keeps-apply_status _ payload.result p

  pub keeps-on_tray_toggle : {w : World} → P w → P (Subscriptions.on_tray_toggle platform w)
  unfolding Subscriptions.on_tray_toggle
  keeps-on_tray_toggle p =
      keeps-if platform I _ _ _ p (keeps-disconnect platform I) (keeps-connect platform I _ none)
