-- ===== src/Date/Split.antt =====
-- From a day number to a date and back. One period of four years is checked day by day.
use kushdb.Prelude.{
  ℕ, ◌+◌, ◌-◌, ◌*◌, ◌/◌, ◌%◌, ◌≡◌, ◌<◌, ◌≤◌, refl, arith, Bool, true, leb, ◌==◌, ◌&&◌,
}
use kushdb.Prelude.Tables.{table, table-row}
use kushdb.Date.{
  Civil, u32, build_date, split_date, split_centuries, split_quads, build, shift_year, shift_month,
}

-- The days from 1 March of the year `ys` on, with 123 for 1 March.
abbrev pub month_days : ℕ → ℕ → ℕ
month_days m d = 7834 * shift_month m / 256 + d

-- What the four-year tables say of a date: the year `ys` begins in March.
pub record Fits (x : ℕ) (c : Civil) : Type 0 where
  month_le : c.month ≤ 12
  day_le : c.day ≤ 31
  year_ge : 3 ≤ shift_year c.month c.year
  year_le : shift_year c.month c.year ≤ 5_000_000
  from_march : 123 ≤ month_days c.month c.day
  to_march : month_days c.month c.day ≤ 488
  counts :
      365 * shift_year c.month c.year + shift_year c.month c.year / 4 + month_days c.month c.day
      ≡ x + 63

fits : ℕ → Civil → Bool
fits x c =
    let ys = shift_year c.month c.year in
    let md = month_days c.month c.day in
    leb c.month 12
    && leb c.day 31
    && leb 3 ys
    && leb ys 8
    && leb 123 md
    && leb md 488
    && 365 * ys + ys / 4 + md == x + 63

fits-Fits : (x : ℕ) (c : Civil) → fits x c ≡ true → Fits x c × (shift_year c.month c.year ≤ 8)
unfolding fits
fits-Fits x c h = ground arith

day_table : table (λ j. fits (j + 1461) (split_quads (j + 1461))) 1461 ≡ true
unfolding fits table split_quads
day_table = refl

pub split_quads-period :
    (x q : ℕ)
    → x < 4000
    → q < 1_000_000
    → split_quads (x + 1461 * q)
      ≡ record (split_quads x) { year = u32 ((split_quads x).year + 4 * q) }
unfolding split_quads
split_quads-period x q h b = ground arith

later-Fits :
    (x q : ℕ) (c : Civil)
    → q < 1_000_000
    → shift_year c.month c.year ≤ 8
    → Fits x c
    → Fits (x + 1461 * q) (record c { year = u32 (c.year + 4 * q) })
later-Fits x q c b le f = ground arith

-- Every later day of the four-year cycle fits.
pub split_quads-Fits :
    (j q : ℕ)
    → j < 1461
    → q < 1_000_000
    → Fits (j + 1461 + 1461 * q) (split_quads (j + 1461 + 1461 * q))
split_quads-Fits j q h b =
    let (f, le) = fits-Fits (j + 1461) (split_quads (j + 1461)) (table-row _ 1461 j day_table h) in
    rw (split_quads-period (j + 1461) q (omega arith) b) (later-Fits (j + 1461) q _ b le f)

-- The centuries of the March year are those that SplitDate counts.
centuries :
    (ys md j : ℕ)
    → 123 ≤ md
    → md ≤ 488
    → 365 * ys + ys / 4 + md ≡ j + 63 + (60 + j / 146097 * 3 + (j % 146097 * 4 + 3) / 146097)
    → 365 * ys + ys / 4 + ys / 100 / 4 + md ≡ j + 123 + ys / 100
centuries ys md j lo hi e = omega arith

pub split_centuries_lem :
    (jd : ℕ)
    → jd < 1_000_000_000
    → split_centuries jd
      ≡ (jd + 32044) + (60 + (jd + 32044) / 146097 * 3 + ((jd + 32044) % 146097 * 4 + 3) / 146097)
unfolding split_centuries
split_centuries_lem jd h = omega arith

pub shift_month-le : (m : ℕ) → m ≤ 12 → shift_month m ≤ 25
shift_month-le m h = ground arith

build_lem :
    (c : Civil) (n : ℕ)
    → n < 2_000_000_000
    → c.month ≤ 12
    → c.day ≤ 31
    → 3 ≤ shift_year c.month c.year
    → shift_year c.month c.year ≤ 5_000_000
    → 365 * shift_year c.month c.year
        + shift_year c.month c.year / 4
        + shift_year c.month c.year / 100 / 4
        + month_days c.month c.day
      ≡ n + 32167 + shift_year c.month c.year / 100
    → build c ≡ n
unfolding build build_date
build_lem c n b m d lo hi e = omega (arith, shift_month-le c.month m)

build-Fits : (jd : ℕ) (c : Civil) → jd < 1_000_000_000 → Fits (split_centuries jd) c → build c ≡ jd
build-Fits jd c h f = build_lem c jd (omega arith) f.month_le f.day_le f.year_ge f.year_le (
    omega (
      arith,
      split_centuries_lem jd h,
      f.counts,
      f.from_march,
      f.to_march,
      centuries (shift_year c.month c.year) (month_days c.month c.day) (jd + 32044),
    ))

-- Building the date that a day number splits into gives the day number back.
pub build-split_date : (jd : ℕ) → jd < 1_000_000_000 → build (split_date jd) ≡ jd
unfolding split_date
build-split_date jd h =
    build-Fits jd (split_quads (split_centuries jd)) h
      (rw e at (split_quads-Fits (x % 1461) (x / 1461) (omega arith) (omega arith)))
  where
    x : ℕ
    x = split_centuries jd - 1461

    e : x % 1461 + 1461 + 1461 * (x / 1461) ≡ split_centuries jd
    e = omega (arith, split_centuries_lem jd h)
