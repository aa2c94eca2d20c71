-- ===== src/Views/Pane/Reach.antt =====
-- What holds of the side bar after any events.
use vpnhub.Prelude.{
  ◌≤◌, ◌<◌, ℤ, ◌≡◌, refl, ◌∙◌, subst, ◌⊎◌, inl, inr, Bool, true, false, not, ◌||◌, str_eq,
  Bool-cases, String,
}
use vpnhub.Views.Pane.{
  Limits, Storage, Pane, Width, set_width, set_collapsed, bool_text, clamp_width, initial_width,
  initial_collapsed, mount_pane, toggle_collapse, is_shortcut, key_down, mouse_down, mouse_move,
  mouse_up,
}
use vpnhub.Views.Pane.Laws.{
  IsSound, clamp-twice, clamp-bounds, clamp_fraction-bound, initial_width-bounds,
  saved_width-print_width,
}

-- One event, on a screen of any size.
pub data Step (l : Limits) : Pane → Pane → Type 0 where
  toggled : {p : Pane} (is_mobile : Bool) → Step l p (toggle_collapse is_mobile p)
  pressed :
      {p : Pane} (ctrl meta : Bool) (key : String) (is_mobile : Bool)
      → Step l p (key_down ctrl meta key is_mobile p)
  grabbed : {p : Pane} (is_mobile is_tablet : Bool) → Step l p (mouse_down is_mobile is_tablet p)
  moved :
      {p : Pane} (raw_width : ℤ) (fraction : String) → Step l p (mouse_move l raw_width fraction p)
  released : {p : Pane} → Step l p (mouse_up p)

-- After the component is mounted with this storage.
pub data Reachable (l : Limits) (s : Storage) : Pane → Type 0 where
  mounted : Reachable l s (mount_pane l s)
  further : {p q : Pane} → Reachable l s p → Step l p q → Reachable l s q

-- The width is within the limits, and if the storage can be used, the component would have the same whole
-- pixels if it was mounted again, and be collapsed as it is.
pub record Holds (l : Limits) (width : Width) (collapsed : Bool) (s : Storage) : Type 0 where
  pub bounds : (l.min_width ≤ width.whole) × (width.whole ≤ l.max_width)
  pub below : (width.fraction ≡ "") ⊎ (width.whole < l.max_width)
  pub again :
      (s ≡ Storage.unavailable)
      ⊎ ((initial_width l s ≡ width.whole) × (initial_collapsed s ≡ collapsed))

abbrev pub HoldsOf : Limits → Pane → Type 0
HoldsOf l p = Holds l p.expanded_width p.is_collapsed p.storage

mount-Holds : (l : Limits) (s : Storage) → IsSound l → HoldsOf l (mount_pane l s)
unfolding mount_pane
mount-Holds l s h = record {
  bounds = initial_width-bounds l s h;
  below = inl refl;
  again = inr (refl, refl);
}

text_again : (b : Bool) → str_eq (bool_text b) "true" ≡ b
text_again true = refl
text_again false = refl

set_collapsed-Holds :
    (l : Limits) (n : Width) (b c : Bool) (s : Storage)
    → Holds l n b s
    → Holds l n c (set_collapsed c s)
unfolding initial_width initial_collapsed
set_collapsed-Holds l n b c Storage.unavailable i = record {
  bounds = i.bounds;
  below = i.below;
  again = inl refl;
}
set_collapsed-Holds l n b c (Storage.kept width collapsed) i = record {
  bounds = i.bounds;
  below = i.below;
  again = elim i.again [ inl e ↦ cc | inr (e, f) ↦ inr (e, text_again c) ];
}

set_width-Holds :
    (l : Limits) (n : Width) (z : ℤ) (f : String) (b : Bool) (s : Storage)
    → IsSound l
    → Holds l n b s
    → Holds l (clamp_width l z f) b (set_width (clamp_width l z f) s)
unfolding initial_width initial_collapsed
set_width-Holds l n z f b Storage.unavailable h i = record {
  bounds = clamp-bounds l z h;
  below = clamp_fraction-bound l z f;
  again = inl refl;
}
set_width-Holds l n z f b (Storage.kept width collapsed) h i = record {
  bounds = clamp-bounds l z h;
  below = clamp_fraction-bound l z f;
  again = elim i.again [
    | inl e ↦ cc
    | inr (e, same) ↦ inr (saved_width-print_width l (clamp_width l z f) ∙ clamp-twice l z h, same)
  ];
}

mouse_down-Holds :
    (l : Limits) (is_mobile is_tablet : Bool) (p : Pane)
    → HoldsOf l p
    → HoldsOf l (mouse_down is_mobile is_tablet p)
unfolding mouse_down
mouse_down-Holds l is_mobile is_tablet p i = elim (Bool-cases (is_mobile || is_tablet)) [
  | inl e ↦ simp e i
  | inr e ↦ elim (Bool-cases p.is_collapsed) [
    | inl f ↦ simp (e, f) (set_collapsed-Holds l p.expanded_width p.is_collapsed false p.storage i)
    | inr f ↦ simp (e, f) (subst (λ b. Holds l p.expanded_width b p.storage) f i)
  ]
]

mouse_move-Holds :
    (l : Limits) (z : ℤ) (f : String) (p : Pane)
    → IsSound l
    → HoldsOf l p
    → HoldsOf l (mouse_move l z f p)
unfolding mouse_move
mouse_move-Holds l z f p h i = elim (Bool-cases p.is_dragging) [
  | inl e ↦ simp e (set_width-Holds l p.expanded_width z f p.is_collapsed p.storage h i)
  | inr e ↦ simp e i
]

toggle_collapse-Holds :
    (l : Limits) (is_mobile : Bool) (p : Pane)
    → HoldsOf l p
    → HoldsOf l (toggle_collapse is_mobile p)
unfolding toggle_collapse
toggle_collapse-Holds l true p i = i
toggle_collapse-Holds l false p i =
    set_collapsed-Holds l p.expanded_width p.is_collapsed (not p.is_collapsed) p.storage i

key_down-Holds :
    (l : Limits) (ctrl meta : Bool) (key : String) (is_mobile : Bool) (p : Pane)
    → HoldsOf l p
    → HoldsOf l (key_down ctrl meta key is_mobile p)
unfolding key_down
key_down-Holds l ctrl meta key is_mobile p i = elim (Bool-cases (is_shortcut ctrl meta key)) [
  | inl e ↦ simp e (toggle_collapse-Holds l is_mobile p i)
  | inr e ↦ simp e i
]

Step-Holds : (l : Limits) {p q : Pane} → IsSound l → Step l p q → HoldsOf l p → HoldsOf l q
unfolding mouse_up
Step-Holds l h (toggled {p} is_mobile) i = toggle_collapse-Holds l is_mobile p i
Step-Holds l h (pressed {p} ctrl meta key is_mobile) i =
    key_down-Holds l ctrl meta key is_mobile p i
Step-Holds l h (grabbed {p} is_mobile is_tablet) i = mouse_down-Holds l is_mobile is_tablet p i
Step-Holds l h (moved {p} raw_width fraction) i = mouse_move-Holds l raw_width fraction p h i
Step-Holds l h released i = i

-- Whatever the storage holds when the side bar is mounted, and after any events, its width is within the
-- limits; and if the storage can be used, a side bar that is mounted again has the same width, rounded down
-- to whole pixels, and is collapsed exactly if this one is. The default width is assumed to be within the limits.
pub Reachable-HoldsOf :
    (l : Limits) (s : Storage) (p : Pane) → IsSound l → Reachable l s p → HoldsOf l p
Reachable-HoldsOf l s p h mounted = mount-Holds l s h
Reachable-HoldsOf l s p h (further r t) = Step-Holds l h t (Reachable-HoldsOf l s _ h r)
