-- ===== src/Views/Dialogs.antt =====
-- The dialogs that add a split tunnelling rule (components/split_tunnel/SplitTunnelingView.tsx and
-- AddAppRuleModal.tsx), the button that restores the settings (components/settings/SettingsView.tsx) and
-- the diagnostic bundle (components/logs/DiagnosticExportModal.tsx).
use vpnhub.Prelude.{
  ◌≡◌, refl, String, Bool, true, false, ◌&&◌, some, List, [], ◌∷◌, if◌then◌else◌, nonempty, or_text,
  slice_last,
}
use vpnhub.Types.{AppRule, IpDomainRule, RuleType, SplitTunnelMode, AppLanguage, LogEntry}
use vpnhub.World.{
  Platform, World, Action, Effect, ToastColor, tick, emit, pass, branch, branch-true, ◌>>=◌, ◌>>◌,
}
use vpnhub.Store.Initial.{
  PartialAppSettings, SavedSettings, default_app_settings, spread_app_settings,
  get_saved_app_settings,
}
use vpnhub.Store.Logs.{add_log}
use vpnhub.Store.Rules.{add_app_rule, add_ip_rule}
use vpnhub.Store.Rules.Laws.{IsSaved, rules-IsSaved}
use vpnhub.Store.Settings.{update_app_settings}

-- The fields for a route.
pub record RouteFields : Type 0 where
  pub new_target : String
  pub new_type : RuleType
  pub new_desc : String
  pub new_mode : SplitTunnelMode

abbrev default_description : RuleType → String
default_description RuleType.cidr = "Custom Subnet"
default_description RuleType.domain = "Custom Domain Pattern"

abbrev pub route_rule : RouteFields → String → IpDomainRule
route_rule f id = record {
  id = id;
  target = f.new_target;
  type = f.new_type;
  description = or_text (some f.new_desc) (default_description f.new_type);
  mode = f.new_mode;
  enabled = true;
}

-- `handleAddIpRule`, on the store.
unfoldable pub handle_add_ip_rule : Platform → RouteFields → Action
handle_add_ip_rule platform f = branch (nonempty f.new_target) (add_route f) pass
  where
    add_route : RouteFields → Action
    add_route f = do
      n ← λ w. w.reads
      tick
      add_ip_rule platform (route_rule f (platform.random_uuid n))

-- The fields behind it.
unfoldable pub cleared_fields : RouteFields → RouteFields
cleared_fields f = if nonempty f.new_target then record f { new_target = ""; new_desc = "" } else f

-- The fields for an application.
pub record AppFields : Type 0 where
  pub app_name : String
  pub app_path : String
  pub app_icon : String
  pub mode : SplitTunnelMode

-- `handleSelectCommon`
unfoldable pub select_common : (name path icon : String) → AppFields → AppFields
select_common name path icon f = record f { app_name = name; app_path = path; app_icon = icon }

abbrev pub app_rule : AppFields → String → AppRule
app_rule f id = record {
  id = id;
  name = f.app_name;
  path = f.app_path;
  icon = some f.app_icon;
  mode = f.mode;
  enabled = true;
}

-- `handleAdd`, on the store.
unfoldable pub handle_add : Platform → AppFields → Action
handle_add platform f = branch (nonempty f.app_name && nonempty f.app_path) (add_app f) pass
  where
    add_app : AppFields → Action
    add_app f = do
      n ← λ w. w.reads
      tick
      add_app_rule platform (app_rule f (platform.random_uuid n))

abbrev all_defaults : PartialAppSettings
all_defaults = record {
  auto_launch = some false;
  start_minimized = some true;
  auto_connect = some false;
  minimize_to_tray = some true;
  notifications_enabled = some (some true);
  auto_reconnect = some (some true);
  language = some (some AppLanguage.en);
}

-- `handleResetDefaults`, with its two translated texts.
unfoldable pub handle_reset_defaults : Platform → (title message : String) → Action
handle_reset_defaults platform title message = do
  update_app_settings platform all_defaults
  emit (Effect.notify title message ToastColor.cyan)

-- What the bundle says of the log, and whether it is called sanitized.
pub record Bundle : Type 0 where
  pub sanitized : Bool
  pub logs : List LogEntry

unfoldable pub bundle_data : (include_logs sanitize_ips : Bool) → List LogEntry → Bundle
bundle_data include_logs sanitize_ips logs = record {
  sanitized = sanitize_ips;
  logs = if include_logs then slice_last 200 logs else [];
}

-- Restoring the settings brings the store to the settings of a first start, and saves them: what is loaded
-- from them at the next start is the same.
pub handle_reset_defaults-default :
    (platform : Platform) (title message : String) (w : World)
    → let v = handle_reset_defaults platform title message w in
      (v.store.app_settings ≡ default_app_settings)
      × (v.store.app_settings ≡ get_saved_app_settings SavedSettings.missing)
      × (v.effects
          ≡ Effect.notify title message ToastColor.cyan
            ∷ Effect.save_app_settings default_app_settings
            ∷ w.effects)
unfolding handle_reset_defaults update_app_settings spread_app_settings get_saved_app_settings
    add_log
handle_reset_defaults-default platform title message w = (refl, refl, refl)

handle_add-full :
    (platform : Platform) (a : AppFields) (w : World)
    → (nonempty a.app_name && nonempty a.app_path) ≡ true
    → handle_add platform a w
      ≡ add_app_rule platform (app_rule a (platform.random_uuid w.reads)) (tick w)
unfolding handle_add
handle_add-full platform a w full = branch-true _ _ _ w full

handle_add_ip_rule-full :
    (platform : Platform) (r : RouteFields) (w : World)
    → nonempty r.new_target ≡ true
    → handle_add_ip_rule platform r w
      ≡ add_ip_rule platform (route_rule r (platform.random_uuid w.reads)) (tick w)
unfolding handle_add_ip_rule
handle_add_ip_rule-full platform r w target = branch-true _ _ _ w target

add_app_rule-first :
    (platform : Platform) (rule : AppRule) (w : World)
    → platform.tauri ≡ true
    → (add_app_rule platform rule w).store.app_rules ≡ rule ∷ w.store.app_rules
unfolding add_app_rule add_log
add_app_rule-first platform rule w shell = rw shell refl

add_ip_rule-first :
    (platform : Platform) (rule : IpDomainRule) (w : World)
    → platform.tauri ≡ true
    → (add_ip_rule platform rule w).store.ip_rules ≡ rule ∷ w.store.ip_rules
unfolding add_ip_rule add_log
add_ip_rule-first platform rule w shell = rw shell refl

-- In the desktop shell, a route or an application that is added is the first of its kind, enabled, under a
-- fresh id, and what is saved is all the rules that the store then holds. An application needs a name and a
-- path, a route a target.
pub handle_add-IsSaved :
    (platform : Platform) (a : AppFields) (r : RouteFields) (w : World)
    → platform.tauri ≡ true
    → (nonempty a.app_name && nonempty a.app_path) ≡ true
    → nonempty r.new_target ≡ true
    → let id = platform.random_uuid w.reads in
      let v = handle_add platform a w in
      let u = handle_add_ip_rule platform r w in
      (v.store.app_rules ≡ app_rule a id ∷ w.store.app_rules)
      × IsSaved v
      × (u.store.ip_rules ≡ route_rule r id ∷ w.store.ip_rules)
      × IsSaved u
handle_add-IsSaved platform a r w shell full target =
    let id = platform.random_uuid w.reads in
    let (app_saved, _, _, ip_saved, _, _) =
      rules-IsSaved platform (app_rule a id) (route_rule r id) id (tick w) shell in
    rw (handle_add-full platform a w full, handle_add_ip_rule-full platform r w target)
      (
        add_app_rule-first platform (app_rule a id) (tick w) shell,
        app_saved,
        add_ip_rule-first platform (route_rule r id) (tick w) shell,
        ip_saved,
      )
