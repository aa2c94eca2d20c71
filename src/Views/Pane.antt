-- ===== src/Views/Pane.antt =====
-- components/layout/SplitPaneLayout.tsx: the width of the side bar, and what the browser keeps of it. A
-- place of the mouse need not be a whole number of pixels.
pub mod Laws
pub mod Reach
use vpnhub.Prelude.{
  ℕ, ◌+◌, ◌-◌, ◌*◌, ◌<>◌, ℤ, pos, negsuc, min, max, String, Bool, true, false, not, ◌&&◌, ◌||◌,
  Option, none, some, List, [], ◌∷◌, ◌==◌, leb, str_eq, codes, show, if◌then◌else◌, nonempty,
}
use vpnhub.Totp.{is_space}
use vpnhub.Views.Text.{lower}

-- The properties of the component.
pub record Limits : Type 0 where
  pub default_width : ℕ
  pub min_width : ℕ
  pub max_width : ℕ

-- `localStorage`, under the two keys, if it can be used.
pub data Storage : Type 0 where
  unavailable : Storage
  kept : (width collapsed : Option String) → Storage

-- A number of pixels: the whole ones, and the digits behind the point, none for a whole number.
pub record Width : Type 0 where
  pub whole : ℕ
  pub fraction : String

abbrev pub whole_width : ℕ → Width
whole_width n = record { whole = n; fraction = "" }

pub record Pane : Type 0 where
  pub expanded_width : Width
  pub is_collapsed : Bool
  pub is_dragging : Bool
  pub storage : Storage

abbrev is_digit : ℕ → Bool
is_digit c = leb b'0' c && leb c b'9'

-- The number that the digits at the start spell behind `acc`.
unfoldable pub parse_digits : ℕ → List ℕ → ℕ
parse_digits acc [] = acc
parse_digits acc (c ∷ s) =
    let rest = parse_digits (acc * 10 + (c - b'0')) s in if is_digit c then rest else acc

-- `none` where there is no digit.
parse_unsigned : List ℕ → Option ℕ
parse_unsigned [] = none
parse_unsigned (c ∷ s) = if is_digit c then some (parse_digits 0 (c ∷ s)) else none

abbrev plus : Option ℕ → Option ℤ
plus none = none
plus (some n) = some (pos n)

abbrev minus : Option ℕ → Option ℤ
minus none = none
minus (some ℕ.zero) = some (pos 0)
minus (some (ℕ.suc n)) = some (negsuc n)

parse_signed : List ℕ → Option ℤ
unfolding parse_unsigned
parse_signed [] = none
parse_signed (c ∷ s) =
    if c == b'-'
    then minus (parse_unsigned s)
    else if c == b'+'
    then plus (parse_unsigned s)
    else plus (parse_unsigned (c ∷ s))

skip_spaces : List ℕ → List ℕ
skip_spaces [] = []
skip_spaces (c ∷ s) = let rest = skip_spaces s in if is_space c then rest else c ∷ s

-- `parseInt(s, 10)`, with `none` for NaN.
unfoldable pub parse_int : String → Option ℤ
unfolding parse_signed parse_digits skip_spaces
parse_int s = parse_signed (skip_spaces (codes s))

-- `Math.min(Math.max(width, minWidth), maxWidth)`
abbrev pub clamp : Limits → ℤ → ℕ
clamp l (pos n) = min (max n l.min_width) l.max_width
clamp l (negsuc n) = min l.min_width l.max_width

-- The digits behind the point that are left, where the width is `whole`, rounded down, and these digits.
abbrev pub clamp_fraction : Limits → (whole : ℤ) → String → String
clamp_fraction l (pos n) fraction =
    if leb l.min_width n && leb (n + 1) l.max_width then fraction else ""
clamp_fraction l (negsuc n) fraction = ""

abbrev pub clamp_width : Limits → (whole : ℤ) → String → Width
clamp_width l whole fraction = record {
  whole = clamp l whole;
  fraction = clamp_fraction l whole fraction;
}

abbrev pub point : String → String
point fraction = if nonempty fraction then "." <> fraction else ""

-- `String(width)`. A width below a millionth of a pixel, which would be printed with an exponent, has no
-- place here.
abbrev pub print_width : Width → String
print_width w = show w.whole <> point w.fraction

abbrev pub parsed_width : Limits → Option ℤ → ℕ
parsed_width l none = l.default_width
parsed_width l (some z) = clamp l z

abbrev pub saved_width : Limits → Option String → ℕ
saved_width l none = l.default_width
saved_width l (some s) = if nonempty s then parsed_width l (parse_int s) else l.default_width

unfoldable pub initial_width : Limits → Storage → ℕ
initial_width l Storage.unavailable = l.default_width
initial_width l (Storage.kept width collapsed) = saved_width l width

abbrev is_text_true : Option String → Bool
is_text_true none = false
is_text_true (some s) = str_eq s "true"

unfoldable pub initial_collapsed : Storage → Bool
initial_collapsed Storage.unavailable = false
initial_collapsed (Storage.kept width collapsed) = is_text_true collapsed

-- The component when it is mounted.
unfoldable pub mount_pane : Limits → Storage → Pane
unfolding initial_width initial_collapsed
mount_pane l s = record {
  expanded_width = whole_width (initial_width l s);
  is_collapsed = initial_collapsed s;
  is_dragging = false;
  storage = s;
}

abbrev pub set_width : Width → Storage → Storage
set_width n Storage.unavailable = Storage.unavailable
set_width n (Storage.kept width collapsed) = Storage.kept (some (print_width n)) collapsed

-- `String(b)`
abbrev pub bool_text : Bool → String
bool_text true = "true"
bool_text false = "false"

abbrev pub set_collapsed : Bool → Storage → Storage
set_collapsed b Storage.unavailable = Storage.unavailable
set_collapsed b (Storage.kept width collapsed) = Storage.kept width (some (bool_text b))

unfoldable pub toggle_collapse : (is_mobile : Bool) → Pane → Pane
toggle_collapse true p = p
toggle_collapse false p = record p {
  is_collapsed = not p.is_collapsed;
  storage = set_collapsed (not p.is_collapsed) p.storage;
}

abbrev is_b : List ℕ → Bool
is_b (c ∷ []) = c == b'b'
is_b _ = false

unfoldable pub is_shortcut : (ctrl meta : Bool) (key : String) → Bool
is_shortcut ctrl meta key = (ctrl || meta) && is_b (lower key)

-- `handleKeyDown`
unfoldable pub key_down : (ctrl meta : Bool) (key : String) (is_mobile : Bool) → Pane → Pane
unfolding toggle_collapse is_shortcut
key_down ctrl meta key is_mobile p =
    let toggled = toggle_collapse is_mobile p in if is_shortcut ctrl meta key then toggled else p

unfoldable pub mouse_down : (is_mobile is_tablet : Bool) → Pane → Pane
mouse_down is_mobile is_tablet p =
    if is_mobile || is_tablet
    then p
    else if p.is_collapsed
    then record p {
      is_dragging = true;
      is_collapsed = false;
      storage = set_collapsed false p.storage;
    }
    else record p { is_dragging = true }

-- The listener is there only during a drag. `rawWidth` is `raw_width` and the digits of `fraction`, so
-- that a negative one is rounded down to `raw_width`.
unfoldable pub mouse_move : Limits → (raw_width : ℤ) → (fraction : String) → Pane → Pane
mouse_move l raw_width fraction p =
    if p.is_dragging
    then record p {
      expanded_width = clamp_width l raw_width fraction;
      storage = set_width (clamp_width l raw_width fraction) p.storage;
    }
    else p

unfoldable pub mouse_up : Pane → Pane
mouse_up p = record p { is_dragging = false }

-- `currentWidth`
abbrev pub current_width : (is_mobile is_tablet : Bool) → (collapsed_width : ℕ) → Pane → Width
current_width true is_tablet collapsed_width p = whole_width 0
current_width false is_tablet collapsed_width p =
    if is_tablet || p.is_collapsed then whole_width collapsed_width else p.expanded_width
