-- ===== src/Views/Import/Regex.antt =====
-- The regular expressions of `parseConfigContent`, and the way in which they are matched: by going back,
-- with the first way that succeeds.
use Prim.Native.Char.{Char, code}
use vpnhub.Prelude.{ℕ, String, Bool, ◌||◌, Option, none, some, List, [], ◌∷◌, if◌then◌else◌, ◌==◌}

-- An expression and what follows it. All that is repeated is a class of characters. `start` and `stop`
-- are the ends of a group, and `skip` stands for a group in a part that is left out.
pub data Regex : Type 0 where
  finish : Regex
  one many lazy : (ℕ → Bool) → Regex → Regex
  either : Regex → Regex → Regex
  start stop skip : Regex → Regex

-- What is read of the group that is open, or since the last group; and the groups, in order.
abbrev pub Match : Type 0
Match = String × List (Option String)

abbrev pub consume : Char → Match → Match
consume c (s, groups) = (String.◌∷◌ c s, groups)

abbrev pub push : Match → Match
push (s, groups) = ("", some s ∷ groups)

abbrev pub reset : Match → Match
reset (s, groups) = ("", groups)

abbrev pub leave_out : Match → Match
leave_out (s, groups) = (s, none ∷ groups)

abbrev pub onto {ℓ} : {A : Type ℓ} → (A → A) → Option A → Option A
onto f none = none
onto f (some a) = some (f a)

abbrev pub or_else {ℓ} : {A : Type ℓ} → Option A → Option A → Option A
or_else none b = b
or_else (some a) b = some a

-- `c*`, as many as possible at first, and `c*?`, as few as possible at first; `next` is what follows.
unfoldable pub match_many : (ℕ → Bool) → (String → Option Match) → String → Option Match
match_many p next String.[] = next ""
match_many p next (String.◌∷◌ c s) =
    let more = match_many p next s in
    if p (code c)
    then or_else (onto (consume c) more) (next (String.◌∷◌ c s))
    else next (String.◌∷◌ c s)

unfoldable pub match_lazy : (ℕ → Bool) → (String → Option Match) → String → Option Match
match_lazy p next String.[] = next ""
match_lazy p next (String.◌∷◌ c s) =
    let more = match_lazy p next s in
    or_else (next (String.◌∷◌ c s)) (if p (code c) then onto (consume c) more else none)

unfoldable pub match_one : (ℕ → Bool) → (String → Option Match) → String → Option Match
match_one p next String.[] = none
match_one p next (String.◌∷◌ c s) = if p (code c) then onto (consume c) (next s) else none

-- A match at the start of the text.
unfoldable pub match_here : Regex → String → Option Match
unfolding match_one match_many match_lazy
match_here Regex.finish s = some ("", [])
match_here (Regex.one p r) s = match_one p (match_here r) s
match_here (Regex.many p r) s = match_many p (match_here r) s
match_here (Regex.lazy p r) s = match_lazy p (match_here r) s
match_here (Regex.either a b) s = or_else (match_here a s) (match_here b s)
match_here (Regex.start r) s = onto push (match_here r s)
match_here (Regex.stop r) s = onto reset (match_here r s)
match_here (Regex.skip r) s = onto leave_out (match_here r s)

-- The first match in the text.
unfoldable pub find_match : Regex → String → Option Match
unfolding match_here
find_match r String.[] = match_here r ""
find_match r (String.◌∷◌ c s) =
    let later = find_match r s in or_else (match_here r (String.◌∷◌ c s)) later

abbrev pub is_line_end : ℕ → Bool
is_line_end c = c == 10 || c == 13 || c == 0x2028 || c == 0x2029

-- The first match at the start of a line; `fresh` says whether a line starts here.
unfoldable pub find_in_lines : Regex → Bool → String → Option Match
unfolding match_here
find_in_lines r fresh String.[] = if fresh then match_here r "" else none
find_in_lines r fresh (String.◌∷◌ c s) =
    let later = find_in_lines r (is_line_end (code c)) s in
    or_else (if fresh then match_here r (String.◌∷◌ c s) else none) later
