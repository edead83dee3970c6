-- ===== src/Date/Tests.antt =====
-- Runs of the date functions, and each theorem at an input.
use kushdb.Prelude.{◌≡◌, refl, arith}
use kushdb.Date.{Civil, build, build_date, split_date, extract_year}
use kushdb.Date.Split.{build-split_date}
use kushdb.Date.Build.{split_date-build}

-- 1 January 2000 is day 2451545.
build_epoch : build_date 2000 1 1 ≡ 2451545
unfolding build_date
build_epoch = refl

split_epoch : split_date 2451545 ≡ record { year = 2000; month = 1; day = 1 }
unfolding split_date
split_epoch = refl

before_year_one : extract_year 2451544 ≡ 1999
unfolding extract_year
before_year_one = refl

abbrev leap_day : Civil
leap_day = record { year = 1996; month = 2; day = 29 }

build-split_date_example : build (split_date 2451604) ≡ 2451604
build-split_date_example = build-split_date 2451604 (omega arith)

split_date-build_example : split_date (build leap_day) ≡ leap_day
split_date-build_example =
    split_date-build leap_day
      (record {
        month_ge = omega arith;
        month_le = omega arith;
        day_ge = omega arith;
        day_le = omega arith;
      })
      (omega arith)
