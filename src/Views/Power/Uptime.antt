-- ===== src/Views/Power/Uptime.antt =====
-- `formatUptime` of components/dashboard/HeroCockpitBanner.tsx and of the other banners: the print of
-- the time that a tunnel has been up.
use vpnhub.Prelude.{
  ℕ, ◌+◌, ◌*◌, ◌/◌, ◌%◌, ◌^◌, ◌<◌, ◌≤◌, ◌≡◌, refl, ◌∙◌, String, ◌<>◌, ltb, if◌then◌else◌, show,
  codes, length, All, Bool-cases, inl, inr, arith,
}
use vpnhub.Prelude.Decimal.{value, IsDigit, codes-append, show_lem}

-- `s.padStart(2, "0")`
abbrev pad_start : String → String
pad_start s =
    let n = length (codes s) in if ltb n 1 then "00" <> s else if ltb n 2 then "0" <> s else s

-- For a number of seconds that is not negative.
unfoldable pub format_uptime : ℕ → String
format_uptime seconds =
    pad_start (show (seconds / 3600))
    <> (":" <> (pad_start (show (seconds % 3600 / 60)) <> (":" <> pad_start (show (seconds % 60)))))

-- The number that a field of the print spells.
abbrev pub number : String → ℕ
number s = value 0 (codes s)

-- A field of the print: from two to `d` digits.
abbrev pub IsField : String → ℕ → Type 0
IsField s d = All IsDigit (codes s) × (2 ≤ length (codes s)) × (length (codes s) ≤ d)

pad_start-IsField :
    (s : String) (d : ℕ)
    → 2 ≤ d
    → length (codes s) ≤ d
    → All IsDigit (codes s)
    → IsField (pad_start s) d × (number (pad_start s) ≡ number s)
pad_start-IsField s d wide h digits = elim (Bool-cases (ltb (length (codes s)) 1)) [
  | inl e ↦
      rw (e, codes-append "00" s)
        (((omega arith, (omega arith, digits)), omega arith, ground (arith, e)), refl)
  | inr e ↦ elim (Bool-cases (ltb (length (codes s)) 2)) [
    | inl f ↦
        rw (e, f, codes-append "0" s)
          (((omega arith, digits), ground (arith, e), ground (arith, f)), refl)
    | inr f ↦ rw (e, f) ((digits, ground (arith, f), h), refl)
  ]
]

show-IsField :
    (n d : ℕ)
    → 2 ≤ d
    → n < 10 ^ d
    → IsField (pad_start (show n)) d × (number (pad_start (show n)) ≡ n)
show-IsField n d wide h =
    let (v, l, digits) = show_lem n d (omega arith) h in
    let (field, same) = pad_start-IsField (show n) d wide l digits in (field, same ∙ v)

-- A print of `n` seconds: hours of from two to `d` digits, minutes and seconds of two digits, below 60,
-- and together they are `n`.
pub record Clock (s : String) (n d : ℕ) : Type 0 where
  pub hours : String
  pub minutes : String
  pub seconds : String
  pub whole : s ≡ hours <> (":" <> (minutes <> (":" <> seconds)))
  pub hours_field : IsField hours d
  pub minutes_field : IsField minutes 2
  pub seconds_field : IsField seconds 2
  pub minutes_small : number minutes < 60
  pub seconds_small : number seconds < 60
  pub reads : number hours * 3600 + number minutes * 60 + number seconds ≡ n

-- The print of an uptime, of less than 10^d hours for a d of at least two, reads back as that uptime: it
-- is the hours in from two to d digits, the minutes and the seconds in two digits each and below 60.
pub format_uptime-Clock : (n d : ℕ) → 2 ≤ d → n / 3600 < 10 ^ d → Clock (format_uptime n) n d
unfolding format_uptime
format_uptime-Clock n d wide h =
    let (hf, hv) = show-IsField (n / 3600) d wide h in
    let (mf, mv) = show-IsField (n % 3600 / 60) 2 (omega arith) (omega arith) in
    let (sf, sv) = show-IsField (n % 60) 2 (omega arith) (omega arith) in
    record {
      hours = pad_start (show (n / 3600));
      minutes = pad_start (show (n % 3600 / 60));
      seconds = pad_start (show (n % 60));
      whole = refl;
      hours_field = hf;
      minutes_field = mf;
      seconds_field = sf;
      minutes_small = omega (arith, mv);
      seconds_small = omega (arith, sv);
      reads = omega (arith, hv, mv, sv);
    }
