-- ===== src/Views/Import/Matches.antt =====
-- What it means that an expression matches, whatever the order in which the ways are tried.
use Prim.Native.Char.{Char, code}
use vpnhub.Prelude.{ℕ, ◌≡◌, subst, inl, inr, String, Bool, true, Option, none, some, [], Bool-cases}
use vpnhub.Views.Import.Regex.{
  Regex, Match, consume, push, reset, leave_out, onto, or_else, match_one, match_many, match_lazy,
  match_here,
}

-- The expression matches at the start of the text, with these groups.
pub data Matches : Regex → String → Match → Type 0 where
  finished : {s : String} → Matches Regex.finish s ("", [])
  one_more :
      {p : ℕ → Bool} {r : Regex} {c : Char} {s : String} {m : Match}
      → p (code c) ≡ true
      → Matches r s m
      → Matches (Regex.one p r) (String.◌∷◌ c s) (consume c m)
  many_more :
      {p : ℕ → Bool} {r : Regex} {c : Char} {s : String} {m : Match}
      → p (code c) ≡ true
      → Matches (Regex.many p r) s m
      → Matches (Regex.many p r) (String.◌∷◌ c s) (consume c m)
  many_end :
      {p : ℕ → Bool} {r : Regex} {s : String} {m : Match}
      → Matches r s m
      → Matches (Regex.many p r) s m
  lazy_more :
      {p : ℕ → Bool} {r : Regex} {c : Char} {s : String} {m : Match}
      → p (code c) ≡ true
      → Matches (Regex.lazy p r) s m
      → Matches (Regex.lazy p r) (String.◌∷◌ c s) (consume c m)
  lazy_end :
      {p : ℕ → Bool} {r : Regex} {s : String} {m : Match}
      → Matches r s m
      → Matches (Regex.lazy p r) s m
  left : {a b : Regex} {s : String} {m : Match} → Matches a s m → Matches (Regex.either a b) s m
  right : {a b : Regex} {s : String} {m : Match} → Matches b s m → Matches (Regex.either a b) s m
  started :
      {r : Regex} {s : String} {m : Match} → Matches r s m → Matches (Regex.start r) s (push m)
  stopped :
      {r : Regex} {s : String} {m : Match} → Matches r s m → Matches (Regex.stop r) s (reset m)
  skipped :
      {r : Regex} {s : String} {m : Match} → Matches r s m → Matches (Regex.skip r) s (leave_out m)

-- What a search gives is so.
abbrev Finds : Option Match → (Match → Type 0) → Type 0
Finds none P = Unit
Finds (some m) P = P m

Finds-onto :
    (f : Match → Match) (o : Option Match) (P Q : Match → Type 0)
    → ((m : Match) → P m → Q (f m))
    → Finds o P
    → Finds (onto f o) Q
Finds-onto f none P Q h k = tt
Finds-onto f (some m) P Q h k = h m k

Finds_mono :
    (o : Option Match) (P Q : Match → Type 0) → ((m : Match) → P m → Q m) → Finds o P → Finds o Q
Finds_mono none P Q h k = tt
Finds_mono (some m) P Q h k = h m k

Finds-or_else :
    (a b : Option Match) (P : Match → Type 0) → Finds a P → Finds b P → Finds (or_else a b) P
Finds-or_else none b P h k = k
Finds-or_else (some m) b P h k = h

abbrev Sound : Regex → (String → Option Match) → Type 0
Sound r search_from = (s : String) → Finds (search_from s) (Matches r s)

match_one-Sound :
    (p : ℕ → Bool) (r : Regex) (next : String → Option Match)
    → Sound r next
    → Sound (Regex.one p r) (match_one p next)
unfolding match_one
match_one-Sound p r next h String.[] = tt
match_one-Sound p r next h (String.◌∷◌ c s) = elim (Bool-cases (p (code c))) [
  | inl e ↦ rw e (Finds-onto (consume c) (next s) _ _ (λ m. one_more e) (h s))
  | inr e ↦ rw e tt
]

match_many-Sound :
    (p : ℕ → Bool) (r : Regex) (next : String → Option Match)
    → Sound r next
    → Sound (Regex.many p r) (match_many p next)
unfolding match_many
match_many-Sound p r next h String.[] = Finds_mono (next "") _ _ (λ m. many_end) (h "")
match_many-Sound p r next h (String.◌∷◌ c s) =
    let stop = Finds_mono (next (String.◌∷◌ c s)) _ _ (λ m. many_end) (h (String.◌∷◌ c s)) in
    elim (Bool-cases (p (code c))) [
      | inl e ↦
          let more =
            Finds-onto (consume c) (match_many p next s) _ _ (λ m. many_more e)
              (match_many-Sound p r next h s) in
          rw e (Finds-or_else (onto (consume c) (match_many p next s)) _ _ more stop)
      | inr e ↦ rw e stop
    ]

match_lazy-Sound :
    (p : ℕ → Bool) (r : Regex) (next : String → Option Match)
    → Sound r next
    → Sound (Regex.lazy p r) (match_lazy p next)
unfolding match_lazy
match_lazy-Sound p r next h String.[] = Finds_mono (next "") _ _ (λ m. lazy_end) (h "")
match_lazy-Sound p r next h (String.◌∷◌ c s) =
    let stop = Finds_mono (next (String.◌∷◌ c s)) _ _ (λ m. lazy_end) (h (String.◌∷◌ c s)) in
    elim (Bool-cases (p (code c))) [
      | inl e ↦
          let more =
            Finds-onto (consume c) (match_lazy p next s) _ _ (λ m. lazy_more e)
              (match_lazy-Sound p r next h s) in
          rw e (Finds-or_else (next (String.◌∷◌ c s)) _ _ stop more)
      | inr e ↦ rw e (Finds-or_else (next (String.◌∷◌ c s)) none _ stop tt)
    ]

match_here-Sound : (r : Regex) → Sound r (match_here r)
unfolding match_here
match_here-Sound Regex.finish s = finished
match_here-Sound (Regex.one p r) s = match_one-Sound p r (match_here r) (match_here-Sound r) s
match_here-Sound (Regex.many p r) s = match_many-Sound p r (match_here r) (match_here-Sound r) s
match_here-Sound (Regex.lazy p r) s = match_lazy-Sound p r (match_here r) (match_here-Sound r) s
match_here-Sound (Regex.either a b) s =
    Finds-or_else (match_here a s) (match_here b s) _
      (Finds_mono (match_here a s) _ _ (λ m. left) (match_here-Sound a s))
      (Finds_mono (match_here b s) _ _ (λ m. right) (match_here-Sound b s))
match_here-Sound (Regex.start r) s =
    Finds-onto push (match_here r s) _ _ (λ m. started) (match_here-Sound r s)
match_here-Sound (Regex.stop r) s =
    Finds-onto reset (match_here r s) _ _ (λ m. stopped) (match_here-Sound r s)
match_here-Sound (Regex.skip r) s =
    Finds-onto leave_out (match_here r s) _ _ (λ m. skipped) (match_here-Sound r s)

-- Something is found.
abbrev IsFound : Option Match → Type 0
IsFound none = ⊥
IsFound (some m) = Unit

onto-IsFound : (f : Match → Match) (o : Option Match) → IsFound o → IsFound (onto f o)
onto-IsFound f none h = elim h [ ]
onto-IsFound f (some m) h = tt

or_else-left : (a b : Option Match) → IsFound a → IsFound (or_else a b)
or_else-left none b h = elim h [ ]
or_else-left (some m) b h = tt

or_else-right : (a b : Option Match) → IsFound b → IsFound (or_else a b)
or_else-right none b h = h
or_else-right (some m) b h = tt

match_many-end :
    (p : ℕ → Bool) (next : String → Option Match) (s : String)
    → IsFound (next s)
    → IsFound (match_many p next s)
unfolding match_many
match_many-end p next String.[] h = h
match_many-end p next (String.◌∷◌ c s) h = elim (Bool-cases (p (code c))) [
  | inl e ↦ rw e (or_else-right (onto (consume c) (match_many p next s)) _ h)
  | inr e ↦ rw e h
]

match_lazy-end :
    (p : ℕ → Bool) (next : String → Option Match) (s : String)
    → IsFound (next s)
    → IsFound (match_lazy p next s)
unfolding match_lazy
match_lazy-end p next String.[] h = h
match_lazy-end p next (String.◌∷◌ c s) h = or_else-left (next (String.◌∷◌ c s)) _ h

Matches-IsFound : {r : Regex} {s : String} {m : Match} → Matches r s m → IsFound (match_here r s)
unfolding match_here match_one match_many match_lazy
Matches-IsFound finished = tt
Matches-IsFound (one_more e d) = rw e (onto-IsFound _ _ (Matches-IsFound d))
Matches-IsFound (many_more e d) = rw e (or_else-left _ _ (onto-IsFound _ _ (Matches-IsFound d)))
Matches-IsFound (many_end {p} {r} {s} d) = match_many-end p (match_here r) s (Matches-IsFound d)
Matches-IsFound (lazy_more e d) = rw e (or_else-right _ _ (onto-IsFound _ _ (Matches-IsFound d)))
Matches-IsFound (lazy_end {p} {r} {s} d) = match_lazy-end p (match_here r) s (Matches-IsFound d)
Matches-IsFound (left d) = or_else-left _ _ (Matches-IsFound d)
Matches-IsFound (right d) = or_else-right _ _ (Matches-IsFound d)
Matches-IsFound (started d) = onto-IsFound _ _ (Matches-IsFound d)
Matches-IsFound (stopped d) = onto-IsFound _ _ (Matches-IsFound d)
Matches-IsFound (skipped d) = onto-IsFound _ _ (Matches-IsFound d)

-- The matcher decides whether an expression matches at the start of a text: what it gives is a match,
-- and it gives nothing only if there is no match.
pub match_here-decides :
    (r : Regex) (s : String)
    → ((m : Match) → match_here r s ≡ some m → Matches r s m)
      × (match_here r s ≡ none → (m : Match) → ¬ Matches r s m)
match_here-decides r s = (
  λ m e. subst (λ o. Finds o (Matches r s)) e (match_here-Sound r s),
  λ e m d. subst IsFound e (Matches-IsFound d),
)
