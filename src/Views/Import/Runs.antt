-- ===== src/Views/Import/Runs.antt =====
-- Directives of an OpenVPN file: what a repetition reads, and where a search for a line passes by.
use Prim.Native.Char.{Char, code}
use Prim.Native.String.append
use text.Mathlib.TextLemmas.{append-nil}
use vpnhub.Prelude.{
  ℕ, ◌≡◌, refl, ap, ◌∙◌, subst, String, ◌<>◌, Bool, true, false, Option, none, some, List, ◌∷◌,
  codes, All, Bool-cases, inl, inr, arith,
}
use vpnhub.Views.Text.{lower, includes, starts_with}
use vpnhub.Views.Import.Regex.{
  Regex, Match, reset, onto, match_here, match_one, match_many, find_in_lines, is_line_end,
}
use vpnhub.Views.Import.Patterns.{word, group, is_blank, directive}
use vpnhub.Views.Import.Words.{HasNo, prepend, word-none, starts_with-border}

-- At least one character, all of the class.
abbrev pub IsRun : (ℕ → Bool) → String → Type 0
IsRun p String.[] = ⊥
IsRun p (String.◌∷◌ c s) = All (λ x. p x ≡ true) (codes (String.◌∷◌ c s))

-- A repetition reads a run to its end, if the rest matches there.
match_many-run :
    (p : ℕ → Bool) (next : String → Option Match) (w s : String) (d : Char) (m : Match)
    → All (λ x. p x ≡ true) (codes w)
    → p (code d) ≡ false
    → next (String.◌∷◌ d s) ≡ some m
    → match_many p next (w <> String.◌∷◌ d s) ≡ some (prepend w m)
unfolding match_many
match_many-run p next String.[] s d (x, groups) h k e =
    rw (append.nil (String.◌∷◌ d s), k, e, append.nil x) refl
match_many-run p next (String.◌∷◌ c w) s d (x, groups) (h, hs) k e =
    rw
      (
        append.cons c w (String.◌∷◌ d s),
        h,
        match_many-run p next w s d (x, groups) hs k e,
        append.cons c w x,
      )
      refl

-- A repetition reads nothing where the text goes on with something else.
pub match_many-stop :
    (p : ℕ → Bool) (next : String → Option Match) (c : Char) (w s : String)
    → p (code c) ≡ false
    → match_many p next (String.◌∷◌ c w <> s) ≡ next (String.◌∷◌ c w <> s)
unfolding match_many
match_many-stop p next c w s h = rw (append.cons c w s, h) refl

-- A group of one class reads a run.
pub group-run :
    (p : ℕ → Bool) (r : Regex) (w s : String) (d : Char) (x : String)
    (groups : List (Option String))
    → IsRun p w
    → p (code d) ≡ false
    → match_here r (String.◌∷◌ d s) ≡ some (x, groups)
    → match_here (group p r) (w <> String.◌∷◌ d s) ≡ some ("", some w ∷ groups)
unfolding match_here match_one
group-run p r String.[] s d x groups h k e = elim h [ ]
group-run p r (String.◌∷◌ c w) s d x groups (h, hs) k e =
    let stop : onto reset (match_here r (String.◌∷◌ d s)) ≡ some ("", groups) = ap (onto reset) e in
    rw
      (
        append.cons c w (String.◌∷◌ d s),
        h,
        match_many-run p (match_here (Regex.stop r)) w s d ("", groups) hs k stop,
        append-nil w,
      )
      refl

match_many-none :
    (p : ℕ → Bool) (next : String → Option Match) (c : Char) (s : String)
    → match_many p next s ≡ none
    → next (String.◌∷◌ c s) ≡ none
    → match_many p next (String.◌∷◌ c s) ≡ none
unfolding match_many
match_many-none p next c s h k = elim (Bool-cases (p (code c))) [
  | inl e ↦ rw (e, h, k) refl
  | inr e ↦ rw (e, k) refl
]

-- A keyword that does not stand in the text, nor in the lines behind it.
word-border :
    (w : String) (r : Regex) (b t : String)
    → HasNo "\n" w
    → starts_with (lower w) (lower b) ≡ false
    → match_here (word w r) (b <> String.◌∷◌ "\n" t) ≡ none
word-border w r b t h k = word-none w r (b <> String.◌∷◌ "\n" t) (starts_with-border "\n" w b t h k)

-- Before the end of a line without the keyword there is no match of the directive.
directive-none :
    (w : String) (r : Regex) (b t : String)
    → HasNo "\n" w
    → includes (lower w) (lower b) ≡ false
    → match_here (directive w r) (b <> String.◌∷◌ "\n" t) ≡ none
unfolding match_here match_many includes
directive-none w r String.[] t h k =
    let here = word-border w r "" t h k in
    let there = subst (λ x. match_here (word w r) x ≡ none) (append.nil (String.◌∷◌ "\n" t)) here in
    rw (append.nil (String.◌∷◌ "\n" t)) there
directive-none w r (String.◌∷◌ c b) t h k =
    let here = word-border w r (String.◌∷◌ c b) t h (ground (arith, k)) in
    let there =
      subst (λ x. match_here (word w r) x ≡ none) (append.cons c b (String.◌∷◌ "\n" t)) here in
    rw (append.cons c b (String.◌∷◌ "\n" t)) (
      match_many-none is_blank (match_here (word w r)) c (b <> String.◌∷◌ "\n" t)
        (directive-none w r b t h (ground (arith, k))) there)

find_in_lines-next :
    (r : Regex) (fresh : Bool) (c : Char) (s : String)
    → match_here r (String.◌∷◌ c s) ≡ none
    → find_in_lines r fresh (String.◌∷◌ c s) ≡ find_in_lines r (is_line_end (code c)) s
unfolding find_in_lines
find_in_lines-next r true c s h = rw h refl
find_in_lines-next r false c s h = refl

-- The search for a directive passes by the lines without its keyword.
pub find_in_lines-skip :
    (w : String) (r : Regex) (fresh : Bool) (b t : String)
    → HasNo "\n" w
    → includes (lower w) (lower b) ≡ false
    → find_in_lines (directive w r) fresh (b <> String.◌∷◌ "\n" t)
      ≡ find_in_lines (directive w r) true t
unfolding includes
find_in_lines-skip w r fresh String.[] t h k =
    let miss = directive-none w r "" t h k in
    let there =
      subst (λ x. match_here (directive w r) x ≡ none) (append.nil (String.◌∷◌ "\n" t)) miss in
    ap (find_in_lines (directive w r) fresh) (append.nil (String.◌∷◌ "\n" t))
    ∙ find_in_lines-next (directive w r) fresh "\n" t there
find_in_lines-skip w r fresh (String.◌∷◌ c b) t h k =
    let rest = b <> String.◌∷◌ "\n" t in
    let miss = directive-none w r (String.◌∷◌ c b) t h k in
    let there =
      subst (λ x. match_here (directive w r) x ≡ none) (append.cons c b (String.◌∷◌ "\n" t)) miss in
    ap (find_in_lines (directive w r) fresh) (append.cons c b (String.◌∷◌ "\n" t))
    ∙ find_in_lines-next (directive w r) fresh c rest there
    ∙ find_in_lines-skip w r (is_line_end (code c)) b t h (ground (arith, k))
