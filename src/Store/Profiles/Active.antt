-- ===== src/Store/Profiles/Active.antt =====
-- The active profile, and what deletion leaves of the list of profiles.
use vpnhub.Prelude.{
  ◌≡◌, ◌≢◌, refl, ap, ◌∙◌, String, Bool, true, false, not, Option, none, some, List, [], ◌∷◌,
  str_eq, if◌then◌else◌, Bool-cases, find, filter_by, find-filter_by, find-filter_by-none, inl, inr,
  eq_iff, str_eq_refl, other_id,
}
use vpnhub.Types.{VpnProfile}
use vpnhub.World.{VpnStoreState, Platform, World}
use vpnhub.Store.Logs.{add_log}
use vpnhub.Store.Profiles.{delete_profile, first_id}

-- The first profile with an id.
abbrev pub profile_at : List VpnProfile → String → Option VpnProfile
profile_at ps id = find (λ (p : VpnProfile). str_eq p.id id) ps

abbrev pub is_some {ℓ} : {A : Type ℓ} → Option A → Bool
is_some none = false
is_some (some a) = true

-- The active profile exists.
abbrev pub has_active : VpnStoreState → Bool
has_active s = is_some (profile_at s.profiles s.active_profile_id)

-- What `deleteProfile` makes of the active profile's id.
abbrev active_behind : VpnStoreState → String → String
active_behind s id =
    if str_eq s.active_profile_id id then first_id s.profiles else s.active_profile_id

delete_profile-fields :
    (platform : Platform) (id : String) (w : World)
    → let v = delete_profile platform id w in
      (v.store.profiles ≡ filter_by (λ p. not (str_eq p.id id)) w.store.profiles)
      × (v.store.active_profile_id ≡ active_behind w.store id)
unfolding delete_profile add_log
delete_profile-fields platform id w = elim (Bool-cases platform.tauri) [
  | inl shell ↦ rw shell (refl, refl)
  | inr browser ↦ rw browser (refl, refl)
]

-- A deleted profile is not found any more, and every other profile is found as before.
pub delete_profile-find :
    (platform : Platform) (id other : String) (w : World)
    → other ≢ id
    → let v = delete_profile platform id w in
      (profile_at v.store.profiles id ≡ none)
      × (profile_at v.store.profiles other ≡ profile_at w.store.profiles other)
delete_profile-find platform id other w distinct =
    let e = (delete_profile-fields platform id w).0 in
    (
      ap (λ ps. profile_at ps id) e
          ∙ find-filter_by-none (λ (p : VpnProfile). not (str_eq p.id id)) _ w.store.profiles
              (λ p h. ap not h),
      ap (λ ps. profile_at ps other) e
          ∙ find-filter_by (λ (p : VpnProfile). not (str_eq p.id id)) _ w.store.profiles
              (λ p h. other_id p.id id other distinct h),
    )

first-found :
    (ps : List VpnProfile) (id : String)
    → is_some (profile_at ps id) ≡ true
    → is_some (profile_at ps (first_id ps)) ≡ true
first-found [] id h = h
first-found (p ∷ ps) id h = rw (str_eq_refl p.id) refl

kept-found :
    (ps : List VpnProfile) (id other : String)
    → other ≢ id
    → is_some (profile_at ps other) ≡ true
    → is_some (profile_at (filter_by (λ p. not (str_eq p.id id)) ps) other) ≡ true
kept-found ps id other distinct h =
    ap is_some (
      find-filter_by (λ (p : VpnProfile). not (str_eq p.id id)) _ ps
        (λ p k. other_id p.id id other distinct k))
    ∙ h

active_behind-found :
    (s : VpnStoreState) (id : String)
    → has_active s ≡ true
    → first_id s.profiles ≢ id
    → is_some (profile_at (filter_by (λ p. not (str_eq p.id id)) s.profiles) (active_behind s id))
      ≡ true
active_behind-found s id active first = elim (Bool-cases (str_eq s.active_profile_id id)) [
  | inl e ↦ rw e (kept-found s.profiles id _ first (first-found s.profiles _ active))
  | inr n ↦ rw n (
      kept-found s.profiles id _
        (λ same. let e = (eq_iff s.active_profile_id id).1 same in absurd cc) active)
]

-- If the active profile exists, then it does so after the deletion of a profile that is not the first
-- one's id.
pub delete_profile-active :
    (platform : Platform) (id : String) (w : World)
    → has_active w.store ≡ true
    → first_id w.store.profiles ≢ id
    → has_active (delete_profile platform id w).store ≡ true
delete_profile-active platform id w active first =
    let (e, a) = delete_profile-fields platform id w in
    (λ i. is_some (profile_at (e i) (a i))) ∙ active_behind-found w.store id active first

-- Deleting the active profile, if it is the first, leaves its id as that of the active profile, although
-- no profile has this id any more.
pub delete_profile-dangling :
    (platform : Platform) (id : String) (w : World)
    → w.store.active_profile_id ≡ id
    → first_id w.store.profiles ≡ id
    → let v = delete_profile platform id w in
      (v.store.active_profile_id ≡ id) × (has_active v.store ≡ false)
delete_profile-dangling platform id w active first =
    let (e, a) = delete_profile-fields platform id w in
    let same = a ∙ rw (active, str_eq_refl id) first in
    (
      same,
      (λ i. is_some (profile_at (e i) (same i)))
          ∙ ap is_some (
              find-filter_by-none (λ (p : VpnProfile). not (str_eq p.id id)) _ w.store.profiles
                (λ p h. ap not h)),
    )
