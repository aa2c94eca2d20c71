-- ===== src/Views/Import/Blocks.antt =====
-- The certificates and keys that stand between tags in an OpenVPN file.
use Prim.Native.Char.{Char, code}
use Prim.Native.String.append
use vpnhub.Prelude.{
  ◌≡◌, refl, sym, ap, ◌∙◌, subst, String, ◌<>◌, true, false, Option, none, some, List, [], ◌∷◌,
  ◌==◌, codes, All, arith,
}
use vpnhub.Prelude.{All-append}
use vpnhub.Prelude.Decimal.{codes-append}
use vpnhub.Views.Text.{lower, includes}
use vpnhub.Views.Trim.{trim}
use vpnhub.Views.Import.Regex.{
  Regex, Match, push, onto, match_here, match_one, match_lazy, find_match,
}
use vpnhub.Views.Import.Patterns.{word, is_letter, block}
use vpnhub.Views.Import.Words.{
  HasNoTag, tagged, prepend, word-here, find_match-skip, find_match-here,
}
use vpnhub.Views.Import.Config.{group, trimmed, block_of}

-- What is read lazily up to the next tag.
match_lazy-body :
    (next : String → Option Match) (body s : String) (groups : List (Option String))
    → HasNoTag body
    → ((c : Char) (u : String) → (b'<' == code c) ≡ false → next (String.◌∷◌ c u) ≡ none)
    → next (tagged s) ≡ some ("", groups)
    → match_lazy (λ c. true) next (body <> tagged s) ≡ some (body, groups)
unfolding match_lazy
match_lazy-body next String.[] s groups h miss hit = rw (append.nil (tagged s), hit) refl
match_lazy-body next (String.◌∷◌ c body) s groups (h, hs) miss hit =
    rw
      (
        append.cons c body (tagged s),
        miss c (body <> tagged s) h,
        match_lazy-body next body s groups hs miss hit,
      )
      refl

abbrev pub opening : String → String
opening tag = tagged (tag <> ">")

abbrev pub closing : String → String
closing tag = tagged ("/" <> (tag <> ">"))

closing-miss :
    (w : String) (c : Char) (u : String)
    → (b'<' == code c) ≡ false
    → match_here (Regex.stop (word (tagged w) Regex.finish)) (String.◌∷◌ c u) ≡ none
unfolding match_here match_one word
closing-miss w c u h = let e : is_letter b'<' (code c) ≡ false = ground (arith, h) in rw e refl

closing-hit :
    (w after : String)
    → match_here (Regex.stop (word (tagged w) Regex.finish)) (tagged w <> after) ≡ some ("", [])
unfolding match_here
closing-hit w after = rw (word-here (tagged w) Regex.finish after) refl

-- The match of a block at its start.
block-here :
    (w v body after : String)
    → HasNoTag body
    → match_here (block (tagged w) (tagged v)) (tagged w <> (body <> (tagged v <> after)))
      ≡ some (tagged w <> "", some body ∷ [])
unfolding match_here block
block-here w v body after h =
    let next = match_here (Regex.stop (word (tagged v) Regex.finish)) in
    let hit : next (tagged (v <> after)) ≡ some ("", []) =
      subst (λ x. next x ≡ some ("", [])) (append.cons "<" v after) (closing-hit v after) in
    let whole : match_lazy (λ c. true) next (body <> (tagged v <> after)) ≡ some (body, []) =
      ap (λ x. match_lazy (λ c. true) next (body <> x)) (append.cons "<" v after)
      ∙ match_lazy-body next body (v <> after) [] h (closing-miss v) hit in
    word-here (tagged w) _ (body <> (tagged v <> after))
    ∙ ap (λ o. onto (prepend (tagged w)) (onto push o)) whole

append-HasNoTag : (tag : String) → HasNoTag tag → HasNoTag (tag <> ">")
append-HasNoTag tag h =
    subst (All (λ c. (b'<' == c) ≡ false)) (sym (codes-append tag ">"))
      (All-append (λ c. (b'<' == c) ≡ false) (codes tag) (codes ">") h (refl, tt))

block-found :
    (w v body before after : String)
    → HasNoTag w
    → HasNoTag body
    → includes (lower (tagged w)) (lower before) ≡ false
    → find_match
        (block (tagged w) (tagged v))
        (before <> (tagged w <> (body <> (tagged v <> after))))
      ≡ some (tagged w <> "", some body ∷ [])
unfolding block
block-found w v body before after h k first =
    let pattern_of = block (tagged w) (tagged v) in
    let rest = body <> (tagged v <> after) in
    ap (λ x. find_match pattern_of (before <> x)) (append.cons "<" w rest)
    ∙ find_match-skip w _ before (w <> rest) h first
    ∙ ap (find_match pattern_of) (sym (append.cons "<" w rest))
    ∙ find_match-here pattern_of (tagged w <> rest) _ (block-here w v body after k)

-- The block between the tags of a name is read whole, but for the space around it: from the first opening
-- tag, of which the text before has none in any letter case, to the closing tag. The name and the block
-- have no `<`, as certificates and keys have none.
pub block_of-tags :
    (tag body before after : String)
    → HasNoTag tag
    → HasNoTag body
    → includes (lower (opening tag)) (lower before) ≡ false
    → block_of
        (opening tag)
        (closing tag)
        (before <> (opening tag <> (body <> (closing tag <> after))))
      ≡ some (trim body)
unfolding block_of
block_of-tags tag body before after h k first =
    let w = tag <> ">" in
    ap (λ m. trimmed (group 0 m))
      (block-found w ("/" <> w) body before after (append-HasNoTag tag h) k first)
