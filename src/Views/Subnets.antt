-- ===== src/Views/Subnets.antt =====
-- The field of the custom subnets in components/profiles/ProfileModal.tsx: a text that is split, and
-- that is made from the list when the form is opened.
use Prim.Native.Char.{Char, code}
use Prim.Native.String.append
use text.Mathlib.TextLemmas.{append-nil}
use vpnhub.Prelude.{
  ℕ, ◌≡◌, refl, sym, ap, ◌∙◌, String, ◌<>◌, Bool, true, false, ◌||◌, List, [], ◌∷◌, ◌==◌,
  if◌then◌else◌, filter_by, nonempty, All, codes, Bool-cases, inl, inr,
}
use vpnhub.Totp.{is_space}

-- `[\s,]`
unfoldable pub is_separator : ℕ → Bool
is_separator c = is_space c || c == b','

onto_first : Char → List String → List String
onto_first c [] = String.◌∷◌ c "" ∷ []
onto_first c (w ∷ ws) = String.◌∷◌ c w ∷ ws

-- The texts between single separators.
unfoldable pub fields : String → List String
unfolding onto_first
fields String.[] = "" ∷ []
fields (String.◌∷◌ c s) =
    let rest = fields s in if is_separator (code c) then "" ∷ rest else onto_first c rest

-- `s.split(/[\s,]+/).map((s) => s.trim()).filter(Boolean)`: a run of separators counts as one, which is
-- to say that the empty texts inside of it are dropped, as are those at both ends. No field has space in
-- it to trim.
unfoldable pub split_subnets : String → List String
unfolding fields
split_subnets s = filter_by nonempty (fields s)

-- `subnets.join(", ")`
pub join_subnets : List String → String
join_subnets [] = ""
join_subnets (w ∷ []) = w
join_subnets (w ∷ v ∷ ws) = w <> (", " <> join_subnets (v ∷ ws))

-- A text without separators.
abbrev pub HasNoSeparator : String → Type 0
HasNoSeparator w = All (λ c. is_separator c ≡ false) (codes w)

abbrev pub IsWord : String → Type 0
IsWord w = (nonempty w ≡ true) × HasNoSeparator w

abbrev onto : String → List String → List String
onto w [] = w ∷ []
onto w (v ∷ ws) = (w <> v) ∷ ws

-- There is always a first field.
fields-cons : (s : String) → (v : String) × (vs : List String) × (fields s ≡ v ∷ vs)
unfolding fields onto_first
fields-cons String.[] = ("", [], refl)
fields-cons (String.◌∷◌ c s) =
    let (v, vs, e) = fields-cons s in
    elim (Bool-cases (is_separator (code c))) [
      | inl sep ↦ ("", fields s, rw sep refl)
      | inr other ↦ (String.◌∷◌ c v, vs, rw (other, e) refl)
    ]

onto-empty : (v : String) (vs : List String) → onto "" (v ∷ vs) ≡ v ∷ vs
onto-empty v vs = ap (λ x. x ∷ vs) (append.nil v)

onto_first-onto :
    (c : Char) (w v : String) (vs : List String)
    → onto_first c (onto w (v ∷ vs)) ≡ onto (String.◌∷◌ c w) (v ∷ vs)
unfolding onto_first
onto_first-onto c w v vs = ap (λ x. x ∷ vs) (sym (append.cons c w v))

fields-word : (w t : String) → HasNoSeparator w → fields (w <> t) ≡ onto w (fields t)
unfolding fields
fields-word String.[] t h =
    let (v, vs, e) = fields-cons t in
    ap fields (append.nil t) ∙ e ∙ sym (onto-empty v vs) ∙ ap (onto "") (sym e)
fields-word (String.◌∷◌ c w) t h =
    let (v, vs, e) = fields-cons t in
    ap fields (append.cons c w t)
    ∙ rw (h.0) (
        ap (onto_first c) (fields-word w t h.1 ∙ ap (onto w) e)
        ∙ onto_first-onto c w v vs
        ∙ ap (onto (String.◌∷◌ c w)) (sym e))

fields-comma : (t : String) → fields (", " <> t) ≡ "" ∷ "" ∷ fields t
unfolding fields is_separator is_space
fields-comma t = ap fields (
    append.cons "," " " t
    ∙ ap (String.◌∷◌ ",") (append.cons " " "" t ∙ ap (String.◌∷◌ " ") (append.nil t)))

-- A word is the first field, whatever comes behind a comma.
fields-one : (w : String) → HasNoSeparator w → fields w ≡ w ∷ []
unfolding fields
fields-one w h =
    ap fields (sym (append-nil w)) ∙ fields-word w "" h ∙ ap (λ v. v ∷ []) (append-nil w)

fields-next : (w t : String) → HasNoSeparator w → fields (w <> (", " <> t)) ≡ w ∷ "" ∷ fields t
fields-next w t h =
    fields-word w (", " <> t) h
    ∙ ap (onto w) (fields-comma t)
    ∙ ap (λ v. v ∷ "" ∷ fields t) (append-nil w)

filter_by-word :
    (w : String) (ws : List String)
    → nonempty w ≡ true
    → filter_by nonempty (w ∷ ws) ≡ w ∷ filter_by nonempty ws
filter_by-word w ws h = rw h refl

-- Splitting what was joined gives the list back, if its elements are not empty and have no separators in
-- them.
pub split_subnets-join : (ws : List String) → All IsWord ws → split_subnets (join_subnets ws) ≡ ws
unfolding split_subnets join_subnets
split_subnets-join [] h = refl
split_subnets-join (w ∷ []) ((full, plain), h) =
    ap (filter_by nonempty) (fields-one w plain) ∙ filter_by-word w [] full
split_subnets-join (w ∷ v ∷ ws) ((full, plain), h) =
    ap (filter_by nonempty) (fields-next w (join_subnets (v ∷ ws)) plain)
    ∙ filter_by-word w ("" ∷ fields (join_subnets (v ∷ ws))) full
    ∙ ap (λ rest. w ∷ rest) (split_subnets-join (v ∷ ws) h)

onto_first-plain :
    (c : Char) (ws : List String)
    → is_separator (code c) ≡ false
    → All HasNoSeparator ws
    → All HasNoSeparator (onto_first c ws)
unfolding onto_first
onto_first-plain c [] e h = ((e, tt), tt)
onto_first-plain c (w ∷ ws) e (p, h) = ((e, p), h)

fields-plain : (s : String) → All HasNoSeparator (fields s)
unfolding fields
fields-plain String.[] = (tt, tt)
fields-plain (String.◌∷◌ c s) = elim (Bool-cases (is_separator (code c))) [
  | inl sep ↦ rw sep (tt, fields-plain s)
  | inr other ↦ rw other (onto_first-plain c (fields s) other (fields-plain s))
]

filter_by-IsWord : (ws : List String) → All HasNoSeparator ws → All IsWord (filter_by nonempty ws)
filter_by-IsWord [] h = tt
filter_by-IsWord (w ∷ ws) (p, h) = elim (Bool-cases (nonempty w)) [
  | inl full ↦ rw full ((full, p), filter_by-IsWord ws h)
  | inr empty ↦ rw empty (filter_by-IsWord ws h)
]

-- What comes out of the split are such elements.
pub split_subnets-IsWord : (s : String) → All IsWord (split_subnets s)
unfolding split_subnets
split_subnets-IsWord s = filter_by-IsWord (fields s) (fields-plain s)
