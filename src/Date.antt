-- ===== src/Date.antt =====
-- runtime/date.cc and runtime/date.h: Julian day numbers and civil dates.
-- A uint32_t or int32_t is a native number below 2 ^ 32; `u32` is the wrap-around of the C++ types.
-- The day numbers of the theorems stay far below 2 ^ 31, where both types hold the same number.
mod Split
mod Build
mod Tests
use kushdb.Prelude.{ℕ, ◌+◌, ◌-◌, ◌*◌, ◌/◌, ◌%◌, ◌^◌, Bool, ltb, ◌==◌, if◌then◌else◌}

pub record Civil : Type 0 where
  pub year : ℕ
  pub month : ℕ
  pub day : ℕ

abbrev pub u32 : ℕ → ℕ
u32 n = n % 2 ^ 32

-- uint32_t subtraction.
abbrev pub sub32 : ℕ → ℕ → ℕ
sub32 a b = (a + 2 ^ 32 - b) % 2 ^ 32

-- `month += 1; year += 4800`, or `month += 13; year += 4799`: March is the first month.
abbrev pub shift_month : ℕ → ℕ
shift_month m = if ltb 2 m then m + 1 else m + 13

abbrev pub shift_year : ℕ → ℕ → ℕ
shift_year m y = if ltb 2 m then u32 (y + 4800) else u32 (y + 4799)

unfoldable pub build_date : ℕ → ℕ → ℕ → ℕ
build_date y m d =
    let year = shift_year m y in
    let month = shift_month m in
    let century = year / 100 in
    let julian = sub32 (u32 (year * 365)) 32167 in
    let julian' = u32 (julian + sub32 (year / 4) century + century / 4) in
    u32 (julian' + (u32 (7834 * month) / 256 + d))

unfoldable pub build : Civil → ℕ
unfolding build_date
build c = build_date c.year c.month c.day

-- `julian` after the first half of SplitDate: 60 days and the lost leap days are added.
unfoldable pub split_centuries : ℕ → ℕ
split_centuries jd =
    let j0 = u32 (jd + 32044) in
    let quad = j0 / 146097 in
    let extra = u32 (u32 (sub32 j0 (u32 (quad * 146097)) * 4) + 3) in
    u32 (j0 + (60 + quad * 3 + extra / 146097))

-- The rest of SplitDate, from `quad = julian / 1461` on.
unfoldable pub split_quads : ℕ → Civil
split_quads j1 =
    let quad = j1 / 1461 in
    let j2 = sub32 j1 (u32 (quad * 1461)) in
    let y = u32 (j2 * 4) / 1461 in
    let j3 = (if y == 0 then (j2 + 306) % 366 else (j2 + 305) % 365) + 123 in
    let quad' = u32 (j3 * 2141) / 65536 in
    record {
      year = sub32 (u32 (y + quad * 4)) 4800;
      month = (quad' + 10) % 12 + 1;
      day = sub32 j3 (u32 (7834 * quad') / 256);
    }

unfoldable pub split_date : ℕ → Civil
unfolding split_centuries split_quads
split_date jd = split_quads (split_centuries jd)

unfoldable pub extract_year : ℕ → ℕ
unfolding split_date
extract_year value = (split_date value).year
