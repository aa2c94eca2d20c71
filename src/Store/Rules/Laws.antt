-- ===== src/Store/Rules/Laws.antt =====
-- What the actions on rules leave in the store, and what they save.
use vpnhub.Prelude.{
  ◌≡◌, ◌≢◌, refl, other_id, ap, String, Bool, true, false, not, none, some, List, head?, str_eq,
  map-same, map-twice, Bool-cases, find, find-filter_by, find-filter_by-none, filter_by, inl, inr,
  map,
}
use vpnhub.Types.{AppRule, IpDomainRule}
use vpnhub.Bridge.{Command}
use vpnhub.Bridge.Methods.{app_payload, ip_payload}
use vpnhub.World.{Platform, World, Effect}
use vpnhub.Store.Logs.{add_log}
use vpnhub.Store.Rules.{
  add_app_rule, toggle_app_rule, delete_app_rule, add_ip_rule, toggle_ip_rule, delete_ip_rule,
  flip_app_rule, flip_ip_rule,
}

-- The last command that was sent saves the rules that the store holds.
abbrev pub IsSaved : World → Type 0
IsSaved w =
    head? w.effects
    ≡ some (Effect.invoke (Command.storage_save_split_rules w.store.app_rules w.store.ip_rules))

-- The payload that is saved is the rules themselves.
saved_rules :
    (apps : List AppRule) (ips : List IpDomainRule)
    → some (
        Effect.invoke
          (Command.storage_save_split_rules (map app_payload apps) (map ip_payload ips)))
      ≡ some (Effect.invoke (Command.storage_save_split_rules apps ips))
saved_rules apps ips i = some (
    Effect.invoke (
      Command.storage_save_split_rules (map-same app_payload apps (λ r. refl) i)
        (map-same ip_payload ips (λ r. refl) i)))

-- Each of the six actions on split tunnelling rules saves, in the desktop shell, exactly the rules that
-- the store then holds, those of both kinds.
pub rules-IsSaved :
    (platform : Platform) (app : AppRule) (ip : IpDomainRule) (id : String) (w : World)
    → platform.tauri ≡ true
    → IsSaved (add_app_rule platform app w)
      × IsSaved (toggle_app_rule platform id w)
      × IsSaved (delete_app_rule platform id w)
      × IsSaved (add_ip_rule platform ip w)
      × IsSaved (toggle_ip_rule platform id w)
      × IsSaved (delete_ip_rule platform id w)
unfolding add_app_rule toggle_app_rule delete_app_rule add_ip_rule toggle_ip_rule delete_ip_rule
    add_log
rules-IsSaved platform app ip id w shell = rw shell (
  saved_rules _ _,
  saved_rules _ _,
  saved_rules _ _,
  saved_rules _ _,
  saved_rules _ _,
  saved_rules _ _,
)

not-not : (b : Bool) → not (not b) ≡ b
not-not true = refl
not-not false = refl

flip_app_rule-twice : (id : String) (r : AppRule) → flip_app_rule id (flip_app_rule id r) ≡ r
flip_app_rule-twice id r = elim (Bool-cases (str_eq r.id id)) [
  | inl e ↦ rw (e, e, not-not) refl
  | inr e ↦ rw (e, e) refl
]

flip_ip_rule-twice : (id : String) (r : IpDomainRule) → flip_ip_rule id (flip_ip_rule id r) ≡ r
flip_ip_rule-twice id r = elim (Bool-cases (str_eq r.id id)) [
  | inl e ↦ rw (e, e, not-not) refl
  | inr e ↦ rw (e, e) refl
]

-- A rule that is switched twice is as before, and so are all the others.
pub toggle-twice :
    (platform : Platform) (id : String) (w : World)
    → ((toggle_app_rule platform id (toggle_app_rule platform id w)).store.app_rules
        ≡ w.store.app_rules)
      × ((toggle_ip_rule platform id (toggle_ip_rule platform id w)).store.ip_rules
          ≡ w.store.ip_rules)
unfolding toggle_app_rule toggle_ip_rule
toggle-twice platform id w =
    let apps = map-twice (flip_app_rule id) w.store.app_rules (flip_app_rule-twice id) in
    let ips = map-twice (flip_ip_rule id) w.store.ip_rules (flip_ip_rule-twice id) in
    elim (Bool-cases platform.tauri) [
      | inl shell ↦ rw shell (apps, ips)
      | inr browser ↦ rw browser (apps, ips)
    ]

app_rules-find :
    (rules : List AppRule) (id other : String)
    → other ≢ id
    → let kept = filter_by (λ (r : AppRule). not (str_eq r.id id)) rules in
      (find (λ (r : AppRule). str_eq r.id id) kept ≡ none)
      × (find (λ (r : AppRule). str_eq r.id other) kept
          ≡ find (λ (r : AppRule). str_eq r.id other) rules)
app_rules-find rules id other distinct = (
  find-filter_by-none _ _ rules (λ r h. ap not h),
  find-filter_by _ _ rules (λ r h. other_id r.id id other distinct h),
)

ip_rules-find :
    (rules : List IpDomainRule) (id other : String)
    → other ≢ id
    → let kept = filter_by (λ (r : IpDomainRule). not (str_eq r.id id)) rules in
      (find (λ (r : IpDomainRule). str_eq r.id id) kept ≡ none)
      × (find (λ (r : IpDomainRule). str_eq r.id other) kept
          ≡ find (λ (r : IpDomainRule). str_eq r.id other) rules)
ip_rules-find rules id other distinct = (
  find-filter_by-none _ _ rules (λ r h. ap not h),
  find-filter_by _ _ rules (λ r h. other_id r.id id other distinct h),
)

-- A deleted rule is not found any more, and every other rule is found as before.
pub delete-find :
    (platform : Platform) (id other : String) (w : World)
    → other ≢ id
    → let v = delete_app_rule platform id w in
      let u = delete_ip_rule platform id w in
      (find (λ (r : AppRule). str_eq r.id id) v.store.app_rules ≡ none)
      × (find (λ (r : AppRule). str_eq r.id other) v.store.app_rules
          ≡ find (λ (r : AppRule). str_eq r.id other) w.store.app_rules)
      × (find (λ (r : IpDomainRule). str_eq r.id id) u.store.ip_rules ≡ none)
      × (find (λ (r : IpDomainRule). str_eq r.id other) u.store.ip_rules
          ≡ find (λ (r : IpDomainRule). str_eq r.id other) w.store.ip_rules)
unfolding delete_app_rule delete_ip_rule
delete-find platform id other w distinct =
    let (a, b) = app_rules-find w.store.app_rules id other distinct in
    let (c, d) = ip_rules-find w.store.ip_rules id other distinct in
    elim (Bool-cases platform.tauri) [
      | inl shell ↦ rw shell (a, b, c, d)
      | inr browser ↦ rw browser (a, b, c, d)
    ]
