-- ===== src/Tests/Laws.antt =====
-- Laws of the store at concrete worlds.
use vpnhub.Prelude.{◌≡◌, ◌≢◌, ◌⊎◌, refl, String, true, false, Option, some, none, [], ◌∷◌, eq_iff}
use vpnhub.Types.{
  ConnectionState, DaemonHealthStatus, KillSwitchMode, SplitTunnelMode, RuleType, AppRule,
  IpDomainRule,
}
use vpnhub.Types.Equality.{state_eq}
use vpnhub.Bridge.{
  Command, FullStorageSnapshotPayload, ProfileSecretPayload, StoredProfile, StoredSecuritySettings,
}
use vpnhub.Bridge.Methods.{stored_profile}
use vpnhub.World.{World, Effect, ToastColor}
use vpnhub.Store.Profiles.{delete_profile}
use vpnhub.Store.Profiles.Active.{has_active, delete_profile-dangling}
use vpnhub.Store.Rules.{
  add_app_rule, toggle_app_rule, delete_app_rule, add_ip_rule, toggle_ip_rule, delete_ip_rule,
}
use vpnhub.Store.Rules.Laws.{IsSaved, rules-IsSaved}
use vpnhub.Store.Settings.{PartialSecuritySettings}
use vpnhub.Store.Storage.Mapping.{map_profile}
use vpnhub.Store.Storage.Laws.{map_profile-stored}
use vpnhub.Store.Subscriptions.{StatusSnapshot, on_daemon_status, apply_snapshot, report}
use vpnhub.Store.Subscriptions.Laws.{IsApplied, on_daemon_status-offline, apply_snapshot_lem}
use vpnhub.Store.Connection.{is_connecting_or_connected}
use vpnhub.Machine.{Event, step}
use vpnhub.Machine.Mirror.{step-daemon_connected}
use vpnhub.Tests.Data.{desk, office, with_profiles, in_state}

abbrev up : World
up = in_state ConnectionState.connected

on_daemon_status-offline_example :
    let v = on_daemon_status desk DaemonHealthStatus.offline up in
    (v.store.daemon_health ≡ DaemonHealthStatus.offline)
    × (is_connecting_or_connected v.store.connection_state ≡ false)
    × (((is_connecting_or_connected up.store.connection_state ≡ true)
          × (v.store.connection_state ≡ ConnectionState.error)
          × (v.effects
              ≡ Effect.invoke (Command.tray_set_status ConnectionState.disconnected) ∷ up.effects))
        ⊎ ((is_connecting_or_connected up.store.connection_state ≡ false)
            × (v.store.connection_state ≡ up.store.connection_state)
            × (v.effects ≡ up.effects)))
    × (v.tasks ≡ up.tasks)
    × (on_daemon_status desk DaemonHealthStatus.offline v ≡ v)
on_daemon_status-offline_example = on_daemon_status-offline desk up refl

abbrev established : StatusSnapshot
established = record {
  state = ConnectionState.connected;
  virtual_interface = some "tun3";
  assigned_ip = none;
  session_duration_secs = some 12;
}

abbrev coming_up : World
coming_up = in_state ConnectionState.connecting

apply_snapshot_lem_example :
    ((state_eq established.state coming_up.store.connection_state ≡ true)
      × (apply_snapshot desk established coming_up ≡ coming_up))
    ⊎ ((state_eq established.state coming_up.store.connection_state ≡ false)
        × IsApplied desk established
            (report desk coming_up.store established established.state coming_up)
            (apply_snapshot desk established coming_up))
apply_snapshot_lem_example = apply_snapshot_lem desk established coming_up refl

abbrev toast : Effect
toast = Effect.notify "VPNHub: Connected" "Secure tunnel active with Office" ToastColor.teal

abbrev browser_rule : AppRule
browser_rule = record {
  id = "browser";
  name = "Browser";
  path = "/usr/bin/browser";
  icon = none;
  mode = SplitTunnelMode.bypass;
  enabled = true;
}

abbrev lan_rule : IpDomainRule
lan_rule = record {
  id = "lan";
  target = "192.168.0.0/16";
  type = RuleType.cidr;
  description = "";
  mode = SplitTunnelMode.bypass;
  enabled = true;
}

abbrev with_rules : World
with_rules = record up {
  store = record (up.store) { app_rules = browser_rule ∷ []; ip_rules = lan_rule ∷ [] };
}

rules-IsSaved_example :
    IsSaved (add_app_rule desk browser_rule with_rules)
    × IsSaved (toggle_app_rule desk "lan" with_rules)
    × IsSaved (delete_app_rule desk "lan" with_rules)
    × IsSaved (add_ip_rule desk lan_rule with_rules)
    × IsSaved (toggle_ip_rule desk "lan" with_rules)
    × IsSaved (delete_ip_rule desk "lan" with_rules)
rules-IsSaved_example = rules-IsSaved desk browser_rule lan_rule "lan" with_rules refl

browser-lan : ◌≢◌ {A = String} "browser" "lan"
browser-lan = λ e. let t = (eq_iff "browser" "lan").1 e in absurd cc

office-lab : ◌≢◌ {A = String} "office" "lab"
office-lab = λ e. let t = (eq_iff "office" "lab").1 e in absurd cc

delete_profile-dangling_example :
    let v = delete_profile desk "office" up in
    (v.store.active_profile_id ≡ "office") × (has_active v.store ≡ false)
unfolding in_state with_profiles
delete_profile-dangling_example = delete_profile-dangling desk "office" up refl refl

abbrev disk_settings : StoredSecuritySettings
disk_settings = record {
  kill_switch = KillSwitchMode.standard;
  dns_protection = true;
  custom_dns_provider = none;
  custom_dns_servers = none;
  ipv6_leak_protection = false;
  webrtc_leak_protection = true;
  lan_traffic_bypass = true;
  default_intranet_only = none;
}

abbrev disk_profile : StoredProfile
disk_profile = stored_profile office none

abbrev key : Option ProfileSecretPayload
key = some (ProfileSecretPayload.wireguard "k" none)

map_profile-stored_example :
    map_profile (stored_profile (map_profile disk_profile key) none) key
    ≡ map_profile disk_profile key
unfolding stored_profile
map_profile-stored_example = map_profile-stored disk_profile key refl refl refl

step-daemon_connected_example :
    step desk (Event.daemon_status DaemonHealthStatus.connected) up
    ≡ record up { store = record (up.store) { daemon_health = DaemonHealthStatus.connected } }
unfolding in_state
step-daemon_connected_example = step-daemon_connected desk up refl

abbrev relaxed : PartialSecuritySettings
relaxed = record {
  kill_switch = some KillSwitchMode.off;
  dns_protection = none;
  custom_dns_provider = none;
  custom_dns_ip = none;
  custom_dns_servers = none;
  ipv6_leak_protection = none;
  web_rtc_protection = none;
  lan_bypass = none;
  default_use_only_for_network_resources = none;
  default_routing_mode = none;
}

abbrev pub disk : FullStorageSnapshotPayload
disk = record {
  profiles = disk_profile ∷ [];
  secrets = none;
  security_settings = disk_settings;
  app_rules = [];
  ip_rules = [];
}

disk-profiles : disk.profiles ≢ []
disk-profiles = λ e. absurd cc
