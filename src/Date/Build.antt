-- ===== src/Date/Build.antt =====
-- From a date of the Gregorian calendar to its day number and back.
use kushdb.Prelude.{
  ℕ, ◌+◌, ◌-◌, ◌*◌, ◌/◌, ◌%◌, ◌≡◌, ◌<◌, ◌≤◌, refl, ap, ◌∙◌, arith, Bool, true, false, ltb, leb,
  le→leb, ◌==◌, ◌&&◌, ◌||◌, not, if◌then◌else◌,
}
use kushdb.Prelude.Tables.{table, table-row}
use kushdb.Date.{Civil, u32, sub32, build_date, split_date, split_centuries, split_quads, build}
use kushdb.Date.Split.{month_days, split_centuries_lem, split_quads-period}

-- The calendar, from its rules.
abbrev pub is_leap : ℕ → Bool
is_leap y = y % 4 == 0 && (not (y % 100 == 0) || y % 400 == 0)

abbrev pub month_length : Bool → ℕ → ℕ
month_length leap m =
    if m == 2
    then (if leap then 29 else 28)
    else if m == 4 || m == 6 || m == 9 || m == 11
    then 30
    else 31

pub record IsDate (c : Civil) : Type 0 where
  pub month_ge : 1 ≤ c.month
  pub month_le : c.month ≤ 12
  pub day_ge : 1 ≤ c.day
  pub day_le : c.day ≤ month_length (is_leap c.year) c.month

abbrev march_year : ℕ → ℕ → ℕ
march_year m y = if ltb 2 m then y else y - 1

-- The place of a date in a calendar where every fourth year is a leap year.
abbrev place : ℕ → ℕ → ℕ → ℕ
place y m d = 365 * march_year m y + march_year m y / 4 + month_days m d - 63

same : Civil → Civil → Bool
same a b = a.year == b.year && a.month == b.month && a.day == b.day

same→eq : (a b : Civil) → same a b ≡ true → a ≡ b
unfolding same
same→eq a b h = ground arith

entry : ℕ → ℕ → ℕ → Bool
entry y m d =
    if leb d (month_length (y % 4 == 0) m)
    then same (split_quads (place y m d)) (record { year = sub32 y 4800; month = m; day = d })
    else true

-- The `i`-th of the 31 * 12 * 4 triples of a day, a month and a year from 5 to 8.
abbrev entry_at : ℕ → Bool
entry_at i = entry (5 + i / 372) (i / 31 % 12 + 1) (i % 31 + 1)

date_table : table entry_at 1488 ≡ true
unfolding table split_quads same entry
date_table = refl

month_length-le : (leap : Bool) (m : ℕ) → month_length leap m ≤ 31
month_length-le leap m = ground arith

entry-holds :
    (y m d : ℕ)
    → entry y m d ≡ true
    → d ≤ month_length (y % 4 == 0) m
    → split_quads (place y m d) ≡ record { year = sub32 y 4800; month = m; day = d }
unfolding entry
entry-holds y m d e h = same→eq _ _ (rw (le→leb _ _ h) at e)

split_quads-place :
    (y m d : ℕ)
    → 5 ≤ y
    → y ≤ 8
    → 1 ≤ m
    → m ≤ 12
    → 1 ≤ d
    → d ≤ month_length (y % 4 == 0) m
    → split_quads (place y m d) ≡ record { year = sub32 y 4800; month = m; day = d }
split_quads-place y m d y_ge y_le m_ge m_le d_ge d_le = entry-holds y m d at d_le
  where
    i : ℕ
    i = (y - 5) * 372 + (m - 1) * 31 + (d - 1)

    d_31 : d ≤ 31
    d_31 = omega (arith, month_length-le (y % 4 == 0) m)

    ey : 5 + i / 372 ≡ y
    ey = omega (arith, d_31)

    em : i / 31 % 12 + 1 ≡ m
    em = omega (arith, d_31)

    ed : i % 31 + 1 ≡ d
    ed = omega (arith, d_31)

    at : entry y m d ≡ true
    at = rw (ey, em, ed) at (table-row entry_at 1488 i date_table (omega (arith, d_31)))

place-period : (y m d q : ℕ) → 5 ≤ y → 1 ≤ d → place (y + 4 * q) m d ≡ place y m d + 1461 * q
place-period y m d q h k = ground arith

build_value :
    (y m d : ℕ)
    → y < 2_000_000
    → m ≤ 12
    → d ≤ 31
    → build_date y m d + 32167 + march_year m (y + 4800) / 100
      ≡ 365 * march_year m (y + 4800)
        + march_year m (y + 4800) / 4
        + march_year m (y + 4800) / 100 / 4
        + month_days m d
unfolding build_date
build_value y m d h p q = ground arith

-- The leap days that SplitDate adds back are those that BuildDate left out.
place-centuries :
    (ys md n : ℕ)
    → 123 ≤ md
    → md ≤ 488
    → (md ≡ 488 → is_leap (ys + 1) ≡ true)
    → n + 123 + ys / 100 ≡ 365 * ys + ys / 4 + ys / 100 / 4 + md
    → n + (60 + n / 146097 * 3 + (n % 146097 * 4 + 3) / 146097) + 63 ≡ 365 * ys + ys / 4 + md
place-centuries ys md n lo hi leap e = ground arith

month_days_bounds :
    (y m d : ℕ)
    → 1 ≤ m
    → m ≤ 12
    → 1 ≤ d
    → d ≤ month_length (is_leap y) m
    → (123 ≤ month_days m d) × (month_days m d ≤ 488)
month_days_bounds y m d a b c e = ground arith

-- Only 29 February is the 366th day from 1 March.
last_day :
    (leap : Bool) (m d : ℕ)
    → 1 ≤ m
    → m ≤ 12
    → d ≤ month_length leap m
    → month_days m d ≡ 488
    → (ltb 2 m ≡ false) × (leap ≡ true)
last_day leap m d a b e h = ground arith

is_leap-later : (y : ℕ) → is_leap (y + 4800) ≡ is_leap y
is_leap-later y = ground arith

module _ (y m d : ℕ) (y_lt : y < 2_000_000) (m_ge : 1 ≤ m) (m_le : m ≤ 12) (d_ge : 1 ≤ d)
    (d_le : d ≤ month_length (is_leap y) m) where
  march_leap : month_days m d ≡ 488 → is_leap (march_year m (y + 4800) + 1) ≡ true
  march_leap h =
      let (first, leap) = last_day (is_leap y) m d m_ge m_le d_le h in
      let back : y + 4800 - 1 + 1 ≡ y + 4800 = omega arith in
      rw first (ap is_leap back ∙ is_leap-later y ∙ leap)

  build_date-lt : build_date y m d < 900_000_000
  build_date-lt =
      ground (arith, build_value y m d, month_length-le (is_leap y) m, month_days_bounds y m d)

  split_centuries-build : split_centuries (build_date y m d) ≡ place (y + 4800) m d
  split_centuries-build = omega (
    arith,
    build_date-lt,
    month_length-le (is_leap y) m,
    split_centuries_lem (build_date y m d),
    build_value y m d,
    month_days_bounds y m d m_ge m_le d_ge d_le,
    place-centuries (march_year m (y + 4800)) (month_days m d) (build_date y m d + 32044)
        (month_days_bounds y m d m_ge m_le d_ge d_le).0
        (month_days_bounds y m d m_ge m_le d_ge d_le).1 march_leap,
  )

quarter_leap :
    (y m : ℕ) → month_length (is_leap y) m ≤ month_length ((5 + (y + 4795) % 4) % 4 == 0) m
quarter_leap y m = ground arith

split_date-build_date :
    (y m d : ℕ)
    → y < 2_000_000
    → 1 ≤ m
    → m ≤ 12
    → 1 ≤ d
    → d ≤ month_length (is_leap y) m
    → split_date (build_date y m d) ≡ record { year = y; month = m; day = d }
unfolding split_date
split_date-build_date y m d y_lt m_ge m_le d_ge d_le =
    ap split_quads (
      split_centuries-build y m d y_lt m_ge m_le d_ge d_le
      ∙ ap (λ k. place k m d) parts
      ∙ place-period y0 m d q (omega arith) d_ge)
    ∙ split_quads-period (place y0 m d) q (ground (arith, month_length-le (is_leap y) m))
        (omega arith)
    ∙ ap (λ (c : Civil). record c { year = u32 (c.year + 4 * q) })
        (split_quads-place y0 m d (omega arith) (omega arith) m_ge m_le d_ge
          (omega (arith, quarter_leap y m)))
    ∙ ap (λ k. record { year = k; month = m; day = d }) (omega arith)
  where
    q : ℕ
    q = (y + 4795) / 4

    y0 : ℕ
    y0 = 5 + (y + 4795) % 4

    parts : y + 4800 ≡ y0 + 4 * q
    parts = omega arith

-- A date of the calendar is found again in its day number.
pub split_date-build : (c : Civil) → IsDate c → c.year < 2_000_000 → split_date (build c) ≡ c
unfolding build
split_date-build c v h =
    split_date-build_date c.year c.month c.day h v.month_ge v.month_le v.day_ge v.day_le
