-- ===== src/Views/Deck.antt =====
-- The order of the profiles on the dashboard (components/dashboard/DashboardProfileDeck.tsx and
-- ProfileCarousel.tsx), and the filters of the library (components/profiles/ProfileLibraryView.tsx) and
-- of the search palette (components/layout/SpotlightSearch.tsx).
use vpnhub.Prelude.{
  ℕ, ◌≡◌, refl, ap, ◌∙◌, String, Bool, true, false, not, ◌&&◌, ◌||◌, List, [], ◌∷◌, ◌++◌, arith,
  if◌then◌else◌, filter_by, Bool-cases, inl, inr,
}
use vpnhub.Types.{ProtocolType, VpnProfile}
use vpnhub.Types.Equality.{protocol_text}
use vpnhub.Views.Text.{lower, includes}

-- `(b.isFavorite ? 1 : 0) - (a.isFavorite ? 1 : 0) > 0`: `a` goes behind `b`.
abbrev goes_behind : VpnProfile → VpnProfile → Bool
goes_behind a b = b.is_favorite && not a.is_favorite

-- `sort` is stable: an element goes behind those that must stand before it, and no further.
unfoldable pub insert_profile : VpnProfile → List VpnProfile → List VpnProfile
insert_profile a [] = a ∷ []
insert_profile a (b ∷ ps) =
    let rest = insert_profile a ps in if goes_behind a b then b ∷ rest else a ∷ b ∷ ps

unfoldable pub sorted_profiles : List VpnProfile → List VpnProfile
unfolding insert_profile
sorted_profiles [] = []
sorted_profiles (p ∷ ps) = insert_profile p (sorted_profiles ps)

abbrev pub favorites : List VpnProfile → List VpnProfile
favorites = filter_by (λ (p : VpnProfile). p.is_favorite)

abbrev pub others : List VpnProfile → List VpnProfile
others = filter_by (λ (p : VpnProfile). not p.is_favorite)

-- Before a list of favourites and others, a favourite stays at the head and another goes behind them.
insert_profile-favorite :
    (p : VpnProfile) (ps : List VpnProfile) → p.is_favorite ≡ true → insert_profile p ps ≡ p ∷ ps
unfolding insert_profile
insert_profile-favorite p [] h = refl
insert_profile-favorite p (b ∷ ps) h =
    let e : goes_behind p b ≡ false = ground (arith, h) in rw e refl

insert_profile-others :
    (p : VpnProfile) (qs : List VpnProfile)
    → p.is_favorite ≡ false
    → insert_profile p (others qs) ≡ p ∷ others qs
unfolding insert_profile
insert_profile-others p [] h = refl
insert_profile-others p (q ∷ qs) h = elim (Bool-cases q.is_favorite) [
  | inl e ↦ rw e (insert_profile-others p qs h)
  | inr e ↦ let stays : goes_behind p q ≡ false = ground (arith, e) in rw e refl
]

insert_profile-behind :
    (p b : VpnProfile) (ps : List VpnProfile)
    → p.is_favorite ≡ false
    → b.is_favorite ≡ true
    → insert_profile p (b ∷ ps) ≡ b ∷ insert_profile p ps
unfolding insert_profile
insert_profile-behind p b ps h k =
    let e : goes_behind p b ≡ true = ground (arith, h, k) in rw e refl

insert_profile-other :
    (p : VpnProfile) (ps qs : List VpnProfile)
    → p.is_favorite ≡ false
    → insert_profile p (favorites ps ++ others qs) ≡ favorites ps ++ p ∷ others qs
insert_profile-other p [] qs h = insert_profile-others p qs h
insert_profile-other p (b ∷ ps) qs h = elim (Bool-cases b.is_favorite) [
  | inl e ↦ simp e (
      insert_profile-behind p b (favorites ps ++ others qs) h e
      ∙ ap (λ xs. b ∷ xs) (insert_profile-other p ps qs h))
  | inr e ↦ simp e (insert_profile-other p ps qs h)
]

-- The deck shows the favourites first, then the others, both in the order of the library.
pub sorted_profiles_lem : (ps : List VpnProfile) → sorted_profiles ps ≡ favorites ps ++ others ps
unfolding sorted_profiles
sorted_profiles_lem [] = refl
sorted_profiles_lem (p ∷ ps) =
    let rest = sorted_profiles_lem ps in
    elim (Bool-cases p.is_favorite) [
      | inl e ↦ simp e (insert_profile-favorite p (sorted_profiles ps) e ∙ ap (λ xs. p ∷ xs) rest)
      | inr e ↦ simp e (ap (insert_profile p) rest ∙ insert_profile-other p ps ps e)
    ]

pub data LibraryFilter : Type 0 where
  all favorites_only wireguard_only openvpn_only : LibraryFilter

-- `p.protocol.includes("openvpn")`
abbrev is_openvpn : ProtocolType → Bool
is_openvpn ProtocolType.openvpn_udp = true
is_openvpn ProtocolType.openvpn_tcp = true
is_openvpn _ = false

abbrev is_wireguard : ProtocolType → Bool
is_wireguard ProtocolType.wireguard = true
is_wireguard _ = false

abbrev passes_filter : LibraryFilter → VpnProfile → Bool
passes_filter LibraryFilter.all p = true
passes_filter LibraryFilter.favorites_only p = p.is_favorite
passes_filter LibraryFilter.wireguard_only p = is_wireguard p.protocol
passes_filter LibraryFilter.openvpn_only p = is_openvpn p.protocol

-- `filteredProfiles` of the library.
unfoldable pub library_profiles : String → LibraryFilter → List VpnProfile → List VpnProfile
library_profiles search filter = filter_by (λ (p : VpnProfile).
    (includes (lower search) (lower p.name)
      || includes (lower search) (lower p.server_country)
      || includes (lower search) (lower p.server_host))
    && passes_filter filter p)

any_includes : List ℕ → List String → Bool
any_includes query [] = false
any_includes query (t ∷ tags) = includes query (lower t) || any_includes query tags

-- `filteredProfiles` of the search palette.
unfoldable pub palette_profiles : String → List VpnProfile → List VpnProfile
unfolding any_includes
palette_profiles query = filter_by (λ (p : VpnProfile).
    includes (lower query) (lower p.name)
    || includes (lower query) (lower p.server_country)
    || includes (lower query) (lower (protocol_text p.protocol))
    || any_includes (lower query) p.tags)
