-- ===== src/Store/Rules.antt =====
-- The split tunnelling rules: `addAppRule`, `toggleAppRule`, `deleteAppRule` and their three
-- counterparts for routes.
pub mod Laws
use vpnhub.Prelude.{String, ◌<>◌, not, List, ◌∷◌, map, str_eq, if◌then◌else◌, filter_by}
use vpnhub.Types.{AppRule, IpDomainRule, LogLevel}
use vpnhub.Bridge.Methods.{save_split_rules}
use vpnhub.World.{Platform, Action, World, get, set, start, ◌>>=◌, ◌>>◌}
use vpnhub.Store.Logs.{add_log}

-- `set({ appRules: newRules })` and the call that saves all rules.
abbrev set_app_rules : Platform → List AppRule → Action
set_app_rules platform new_rules = do
  set (λ s. record s { app_rules = new_rules })
  state ← get
  start (save_split_rules platform.tauri new_rules state.ip_rules)

abbrev set_ip_rules : Platform → List IpDomainRule → Action
set_ip_rules platform new_rules = do
  set (λ s. record s { ip_rules = new_rules })
  state ← get
  start (save_split_rules platform.tauri state.app_rules new_rules)

unfoldable pub add_app_rule : Platform → AppRule → Action
add_app_rule platform rule = do
  state ← get
  set_app_rules platform (rule ∷ state.app_rules)
  add_log platform LogLevel.info "SPLIT_TUNNEL" ("Added split tunneling app rule: " <> rule.name)

abbrev pub flip_app_rule : String → AppRule → AppRule
flip_app_rule id r = if str_eq r.id id then record r { enabled = not r.enabled } else r

unfoldable pub toggle_app_rule : Platform → String → Action
toggle_app_rule platform id = do
  state ← get
  set_app_rules platform (map (flip_app_rule id) state.app_rules)

unfoldable pub delete_app_rule : Platform → String → Action
delete_app_rule platform id = do
  state ← get
  set_app_rules platform (filter_by (λ (r : AppRule). not (str_eq r.id id)) state.app_rules)

unfoldable pub add_ip_rule : Platform → IpDomainRule → Action
add_ip_rule platform rule = do
  state ← get
  set_ip_rules platform (rule ∷ state.ip_rules)
  add_log platform LogLevel.info "SPLIT_TUNNEL" ("Added route rule: " <> rule.target)

abbrev pub flip_ip_rule : String → IpDomainRule → IpDomainRule
flip_ip_rule id r = if str_eq r.id id then record r { enabled = not r.enabled } else r

unfoldable pub toggle_ip_rule : Platform → String → Action
toggle_ip_rule platform id = do
  state ← get
  set_ip_rules platform (map (flip_ip_rule id) state.ip_rules)

unfoldable pub delete_ip_rule : Platform → String → Action
delete_ip_rule platform id = do
  state ← get
  set_ip_rules platform (filter_by (λ (r : IpDomainRule). not (str_eq r.id id)) state.ip_rules)
