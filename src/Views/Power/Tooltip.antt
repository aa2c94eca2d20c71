-- ===== src/Views/Power/Tooltip.antt =====
-- What the cockpit's button says that it will do (components/dashboard/HeroCockpitBanner.tsx).
use vpnhub.Prelude.{◌≡◌, refl, String, ◌<>◌, Bool, true, false, none, ◌⊎◌, inl, inr, if◌then◌else◌}
use vpnhub.Types.{ConnectionState}
use vpnhub.Types.Equality.{state_eq}
use vpnhub.World.{VpnStoreState, Platform, World, Action, branch, pass}
use vpnhub.Store.Connection.{connect, disconnect, retry_daemon_ipc}
use vpnhub.I18n.Dictionary.{TranslationDictionary}
use vpnhub.Views.Power.{is_offline, is_up, is_idle, active_profile, cockpit_toggle}

abbrev is_connecting : ConnectionState → Bool
is_connecting ConnectionState.connecting = true
is_connecting ConnectionState.reconnecting = true
is_connecting _ = false

abbrev tooltip : TranslationDictionary → ConnectionState → (offline : Bool) → String
tooltip t s offline =
    if is_connecting s
    then t.common.connecting <> ("... " <> t.common.cancel)
    else if state_eq s ConnectionState.connected
    then t.common.connected <> (" • " <> t.dashboard.click_to_disconnect)
    else if state_eq s ConnectionState.disconnecting
    then t.common.disconnecting
    else if offline
    then t.dashboard.daemon_offline <> (" • " <> t.dashboard.retry_ipc)
    else t.dashboard.click_to_connect

-- `powerTooltip`
unfoldable pub power_tooltip : TranslationDictionary → VpnStoreState → String
power_tooltip t seen = tooltip t seen.connection_state (is_offline seen.daemon_health)

-- What a press may do, with the text for it.
pub data Press : Type 0 where
  cancel click_to_disconnect disconnecting retry_ipc click_to_connect : Press

abbrev pub text_of : TranslationDictionary → Press → String
text_of t Press.cancel = t.common.connecting <> ("... " <> t.common.cancel)
text_of t Press.click_to_disconnect =
    t.common.connected <> (" • " <> t.dashboard.click_to_disconnect)
text_of t Press.disconnecting = t.common.disconnecting
text_of t Press.retry_ipc = t.dashboard.daemon_offline <> (" • " <> t.dashboard.retry_ipc)
text_of t Press.click_to_connect = t.dashboard.click_to_connect

abbrev pub action_of : Platform → VpnStoreState → Press → Action
action_of platform seen Press.cancel = disconnect platform
action_of platform seen Press.click_to_disconnect = disconnect platform
action_of platform seen Press.disconnecting = pass
action_of platform seen Press.retry_ipc = retry_daemon_ipc platform
action_of platform seen Press.click_to_connect = connect platform (active_profile seen) none

-- The press by what it does.
abbrev pub press_of : ConnectionState → (offline : Bool) → Press
press_of _ true = Press.retry_ipc
press_of ConnectionState.connecting false = Press.cancel
press_of ConnectionState.reconnecting false = Press.cancel
press_of ConnectionState.connected false = Press.click_to_disconnect
press_of ConnectionState.disconnecting false = Press.disconnecting
press_of ConnectionState.disconnected false = Press.click_to_connect
press_of ConnectionState.error false = Press.click_to_connect

cockpit_toggle-press :
    (platform : Platform) (seen : VpnStoreState) (w : World) (s : ConnectionState) (offline : Bool)
    → branch offline
        (retry_daemon_ipc platform)
        (branch
          (is_up s)
          (disconnect platform)
          (branch (is_idle s) (connect platform (active_profile seen) none) pass))
        w
      ≡ action_of platform seen (press_of s offline) w
unfolding branch
cockpit_toggle-press platform seen w _ true = refl
cockpit_toggle-press platform seen w ConnectionState.connecting false = refl
cockpit_toggle-press platform seen w ConnectionState.reconnecting false = refl
cockpit_toggle-press platform seen w ConnectionState.connected false = refl
cockpit_toggle-press platform seen w ConnectionState.disconnecting false = refl
cockpit_toggle-press platform seen w ConnectionState.disconnected false = refl
cockpit_toggle-press platform seen w ConnectionState.error false = refl

tooltip-press :
    (t : TranslationDictionary) (s : ConnectionState) (offline : Bool)
    → (offline ≡ false) ⊎ (is_idle s ≡ true)
    → tooltip t s offline ≡ text_of t (press_of s offline)
tooltip-press t ConnectionState.disconnected true h = refl
tooltip-press t ConnectionState.error true h = refl
tooltip-press t ConnectionState.connecting false h = refl
tooltip-press t ConnectionState.reconnecting false h = refl
tooltip-press t ConnectionState.connected false h = refl
tooltip-press t ConnectionState.disconnecting false h = refl
tooltip-press t ConnectionState.disconnected false h = refl
tooltip-press t ConnectionState.error false h = refl
tooltip-press t s true (inl h) = cc
tooltip-press t s true (inr h) = cc

-- With the daemon online, or where no tunnel is up, coming up or going down, the tooltip of the cockpit's
-- button says what a press does: there is one of five things to do, the tooltip is its text, and the press
-- does it.
pub power_tooltip-cockpit_toggle :
    (platform : Platform) (t : TranslationDictionary) (seen : VpnStoreState) (w : World)
    → (is_offline seen.daemon_health ≡ false) ⊎ (is_idle seen.connection_state ≡ true)
    → (p : Press) × (power_tooltip t seen ≡ text_of t p)
      × (cockpit_toggle platform seen w ≡ action_of platform seen p w)
unfolding power_tooltip cockpit_toggle
power_tooltip-cockpit_toggle platform t seen w h = (
  press_of seen.connection_state (is_offline seen.daemon_health),
  tooltip-press t seen.connection_state (is_offline seen.daemon_health) h,
  cockpit_toggle-press platform seen w seen.connection_state (is_offline seen.daemon_health),
)
