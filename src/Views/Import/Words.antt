-- ===== src/Views/Import/Words.antt =====
-- Keywords in an expression: where they match, and where a search passes by.
use Prim.Native.Char.{Char, code}
use Prim.Native.String.append
use vpnhub.Prelude.{
  ℕ, ◌≡◌, refl, sym, ap, ◌∙◌, subst, String, ◌<>◌, true, false, Option, none, some, ◌==◌, ==_iff,
  codes, All, Bool-cases, inl, inr, arith,
}
use vpnhub.Views.Text.{to_lower, lower, starts_with, includes}
use vpnhub.Views.Import.Regex.{Regex, Match, consume, onto, match_here, match_one, find_match}
use vpnhub.Views.Import.Patterns.{word, is_letter}

abbrev pub prepend : String → Match → Match
prepend w (s, groups) = (w <> s, groups)

onto-prepend :
    (c : Char) (w : String) (o : Option Match)
    → onto (consume c) (onto (prepend w) o) ≡ onto (prepend (String.◌∷◌ c w)) o
onto-prepend c w none = refl
onto-prepend c w (some (s, groups)) = λ i. some (sym (append.cons c w s) i, groups)

onto-nothing : (o : Option Match) → o ≡ onto (prepend "") o
onto-nothing none = refl
onto-nothing (some (s, groups)) = λ i. some (sym (append.nil s) i, groups)

is_letter_refl : (c : ℕ) → is_letter c c ≡ true
is_letter_refl c = (==_iff (to_lower c) (to_lower c)).1 refl

-- A keyword in front of the text is read, and the rest of the expression goes on behind it.
pub word-here :
    (w : String) (r : Regex) (s : String)
    → match_here (word w r) (w <> s) ≡ onto (prepend w) (match_here r s)
unfolding match_here match_one word
word-here String.[] r s = ap (match_here r) (append.nil s) ∙ onto-nothing (match_here r s)
word-here (String.◌∷◌ c w) r s =
    rw (append.cons c w s, is_letter_refl (code c), word-here w r s)
      (onto-prepend c w (match_here r s))

-- Where the text does not start with the keyword, in any letter case, there is no match.
pub word-none :
    (w : String) (r : Regex) (s : String)
    → starts_with (lower w) (lower s) ≡ false
    → match_here (word w r) s ≡ none
unfolding match_here match_one word starts_with
word-none String.[] r s h = cc
word-none (String.◌∷◌ c w) r String.[] h = refl
word-none (String.◌∷◌ c w) r (String.◌∷◌ d s) h = elim (Bool-cases (is_letter (code c) (code d))) [
  | inl e ↦ rw (e, word-none w r s (ground (arith, h, e))) refl
  | inr e ↦ rw e refl
]

-- No such character in the text, in any letter case.
abbrev pub HasNo : Char → String → Type 0
HasNo sep w = All (λ c. is_letter c (code sep) ≡ false) (codes w)

-- A keyword without the separator that does not start the text does not start it either if the separator
-- and more follows.
pub starts_with-border :
    (sep : Char) (w s t : String)
    → HasNo sep w
    → starts_with (lower w) (lower s) ≡ false
    → starts_with (lower w) (lower (s <> String.◌∷◌ sep t)) ≡ false
unfolding starts_with
starts_with-border sep String.[] s t h k = cc
starts_with-border sep (String.◌∷◌ c w) String.[] t (h, hs) k =
    rw (append.nil (String.◌∷◌ sep t)) (ground (arith, h))
starts_with-border sep (String.◌∷◌ c w) (String.◌∷◌ d s) t (h, hs) k =
    rw (append.cons d s (String.◌∷◌ sep t)) (elim (Bool-cases (starts_with (lower w) (lower s))) [
      | inl e ↦ ground (arith, k, e)
      | inr e ↦ ground (arith, starts_with-border sep w s t hs e)
    ])

-- No `<` in the text.
abbrev pub HasNoTag : String → Type 0
HasNoTag s = All (λ c. (b'<' == c) ≡ false) (codes s)

HasNoTag-HasNo : (w : String) → HasNoTag w → HasNo "<" w
HasNoTag-HasNo String.[] h = tt
HasNoTag-HasNo (String.◌∷◌ c w) (h, hs) = (ground (arith, h), HasNoTag-HasNo w hs)

-- A keyword that starts with `<`, and holds no other.
abbrev pub tagged : String → String
tagged w = String.◌∷◌ "<" w

-- Where the keyword does not start the text, it does not start a longer one whose next tag is behind.
starts_with-tagged :
    (w : String) (c : Char) (s t : String)
    → HasNoTag w
    → starts_with (lower (tagged w)) (lower (String.◌∷◌ c s)) ≡ false
    → starts_with (lower (tagged w)) (lower (String.◌∷◌ c s <> tagged t)) ≡ false
unfolding starts_with
starts_with-tagged w c s t h k =
    rw (append.cons c s (tagged t)) (elim (Bool-cases (starts_with (lower w) (lower s))) [
      | inl e ↦ ground (arith, k, e)
      | inr e ↦ ground (arith, starts_with-border "<" w s t (HasNoTag-HasNo w h) e)
    ])

find_match-next :
    (r : Regex) (c : Char) (s : String)
    → match_here r (String.◌∷◌ c s) ≡ none
    → find_match r (String.◌∷◌ c s) ≡ find_match r s
unfolding find_match
find_match-next r c s h = rw h refl

-- The search for an expression that starts with such a keyword passes by a text without it.
pub find_match-skip :
    (w : String) (r : Regex) (before t : String)
    → HasNoTag w
    → includes (lower (tagged w)) (lower before) ≡ false
    → find_match (word (tagged w) r) (before <> tagged t)
      ≡ find_match (word (tagged w) r) (tagged t)
unfolding find_match includes
find_match-skip w r String.[] t h k = ap (find_match (word (tagged w) r)) (append.nil (tagged t))
find_match-skip w r (String.◌∷◌ c s) t h k =
    let far : includes (lower (tagged w)) (lower s) ≡ false = ground (arith, k) in
    let miss =
      word-none (tagged w) r (String.◌∷◌ c s <> tagged t)
        (starts_with-tagged w c s t h (ground (arith, k))) in
    let here =
      subst (λ x. match_here (word (tagged w) r) x ≡ none) (append.cons c s (tagged t)) miss in
    ap (find_match (word (tagged w) r)) (append.cons c s (tagged t))
    ∙ find_match-next (word (tagged w) r) c (s <> tagged t) here
    ∙ find_match-skip w r s t h far

pub find_match-here :
    (r : Regex) (s : String) (m : Match) → match_here r s ≡ some m → find_match r s ≡ some m
unfolding find_match
find_match-here r String.[] m h = h
find_match-here r (String.◌∷◌ c s) m h = rw h refl
