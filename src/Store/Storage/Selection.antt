-- ===== src/Store/Storage/Selection.antt =====
-- The profile that is active once the storage is loaded.
use vpnhub.Prelude.{
  ◌≡◌, ◌≢◌, refl, ap, sym, ◌∙◌, String, true, false, List, [], ◌∷◌, map, find, nonempty, str_eq,
  Bool-cases, inl, inr, str_eq_refl, length, length-map,
}
use vpnhub.Types.{VpnProfile}
use vpnhub.Bridge.{FullStorageSnapshotPayload, StoredProfile}
use vpnhub.World.{Platform, World, branch}
use vpnhub.Store.Logs.{add_log}
use vpnhub.Store.Profiles.{first_id}
use vpnhub.Store.Profiles.Active.{profile_at, is_some, has_active}
use vpnhub.Store.Storage.{store_snapshot, setup_ipc_subscriptions, register}
use vpnhub.Store.Storage.Mapping.{initial_active_id, favorite_id, map_profile, secret_of}

abbrev favorite_of : List VpnProfile → String
favorite_of ps = favorite_id (find (λ (p : VpnProfile). p.is_favorite) ps)

-- The ids that are looked up in a longer list.
head-found : (p : VpnProfile) (ps : List VpnProfile) → is_some (profile_at (p ∷ ps) p.id) ≡ true
head-found p ps = rw (str_eq_refl p.id) refl

tail-found :
    (p : VpnProfile) (ps : List VpnProfile) (id : String)
    → is_some (profile_at ps id) ≡ true
    → is_some (profile_at (p ∷ ps) id) ≡ true
tail-found p ps id h = elim (Bool-cases (str_eq p.id id)) [ inl e ↦ rw e refl | inr e ↦ rw e h ]

favorite_of-head :
    (p : VpnProfile) (ps : List VpnProfile) → p.is_favorite ≡ true → favorite_of (p ∷ ps) ≡ p.id
favorite_of-head p ps h = rw h refl

favorite_of-tail :
    (p : VpnProfile) (ps : List VpnProfile)
    → p.is_favorite ≡ false
    → favorite_of (p ∷ ps) ≡ favorite_of ps
favorite_of-tail p ps h = rw h refl

favorite-found :
    (ps : List VpnProfile)
    → nonempty (favorite_of ps) ≡ true
    → is_some (profile_at ps (favorite_of ps)) ≡ true
favorite-found [] h = cc
favorite-found (p ∷ ps) h = elim (Bool-cases p.is_favorite) [
  | inl fav ↦
      ap (λ id. is_some (profile_at (p ∷ ps) id)) (favorite_of-head p ps fav) ∙ head-found p ps
  | inr other ↦
      let e = favorite_of-tail p ps other in
      ap (λ id. is_some (profile_at (p ∷ ps) id)) e
      ∙ tail-found p ps (favorite_of ps) (favorite-found ps (sym (ap nonempty e) ∙ h))
]

initial_active_id-favorite :
    (ps : List VpnProfile)
    → nonempty (favorite_of ps) ≡ true
    → initial_active_id ps ≡ favorite_of ps
unfolding initial_active_id
initial_active_id-favorite ps h = rw h refl

initial_active_id-first :
    (ps : List VpnProfile) → nonempty (favorite_of ps) ≡ false → initial_active_id ps ≡ first_id ps
unfolding initial_active_id
initial_active_id-first ps h = rw h refl

initial_active_id-found :
    (p : VpnProfile) (ps : List VpnProfile)
    → is_some (profile_at (p ∷ ps) (initial_active_id (p ∷ ps))) ≡ true
initial_active_id-found p ps = elim (Bool-cases (nonempty (favorite_of (p ∷ ps)))) [
  | inl fav ↦
      ap (λ id. is_some (profile_at (p ∷ ps) id)) (initial_active_id-favorite (p ∷ ps) fav)
      ∙ favorite-found (p ∷ ps) fav
  | inr none_favorite ↦
      ap (λ id. is_some (profile_at (p ∷ ps) id)) (initial_active_id-first (p ∷ ps) none_favorite)
      ∙ head-found p ps
]

nonempty-found :
    (ps : List VpnProfile) → ps ≢ [] → is_some (profile_at ps (initial_active_id ps)) ≡ true
nonempty-found [] h = absurd (h refl)
nonempty-found (p ∷ ps) h = initial_active_id-found p ps

map-nonempty : (f : StoredProfile → VpnProfile) (xs : List StoredProfile) → xs ≢ [] → map f xs ≢ []
map-nonempty f [] h = absurd (h refl)
map-nonempty f (x ∷ xs) h = λ e. absurd cc

loaded-found :
    (snapshot : FullStorageSnapshotPayload)
    → snapshot.profiles ≢ []
    → let ps =
        map (λ (p : StoredProfile). map_profile p (secret_of snapshot p.id)) snapshot.profiles in
      is_some (profile_at ps (initial_active_id ps)) ≡ true
loaded-found snapshot h =
    nonempty-found
      (map (λ (p : StoredProfile). map_profile p (secret_of snapshot p.id)) snapshot.profiles)
      (map-nonempty _ snapshot.profiles h)

-- After the storage is loaded with some profile in it, the active profile exists, there are as many
-- profiles as were stored, and the storage counts as loaded.
pub store_snapshot-active :
    (platform : Platform) (snapshot : FullStorageSnapshotPayload) (w : World)
    → snapshot.profiles ≢ []
    → let v = store_snapshot platform snapshot w in
      (has_active v.store ≡ true)
      × (length v.store.profiles ≡ length snapshot.profiles)
      × (v.store.is_storage_loaded ≡ true)
unfolding store_snapshot setup_ipc_subscriptions register add_log branch
store_snapshot-active platform snapshot w some_profile =
    let found = loaded-found snapshot some_profile in
    let same = length-map (λ p. map_profile p (secret_of snapshot p.id)) snapshot.profiles in
    elim (Bool-cases w.ipc_subscribed) [
      | inl done ↦ rw done (found, same, refl)
      | inr first ↦ elim (Bool-cases platform.tauri) [
        | inl shell ↦ rw (first, shell) (found, same, refl)
        | inr browser ↦ rw (first, browser) (found, same, refl)
      ]
    ]
