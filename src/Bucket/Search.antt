-- ===== src/Bucket/Search.antt =====
-- FastForwardBucket finds the first tuple that is not below the given one.
use kushdb.Prelude.{
  ℕ, zero, suc, ◌^◌, true, leb, le→leb, ◌+◌, ◌-◌, ◌/◌, ◌≡◌, ◌<◌, ◌≤◌, ◌⊎◌, inl, inr, List, get_or,
  arith, Bool-cases, ◌==◌, ==_iff, ltb, ltb→lt, ge_of_not_lt, refl,
}
use kushdb.Bucket.{Bucket, int32_max, search, fast_forward}

infixl 90 ◌!◌
abbrev pub ◌!◌ : List ℕ → ℕ → ℕ
xs ! i = get_or xs i 0

-- The tuples of a bucket ascend strictly, and there are at most 2 ^ 30 of them.
pub record IsAscending (b : Bucket) : Type 0 where
  pub small : b.size ≤ 2 ^ 30
  pub ordered : (i j : ℕ) → i < j → j < b.size → b.cells ! i < b.cells ! j

-- `r` is the first position of a tuple that is at least `prev`, or INT32_MAX where there is none.
pub record IsFirst (b : Bucket) (prev r : ℕ) : Type 0 where
  pub below : (i : ℕ) → i < r → i < b.size → b.cells ! i < prev
  pub found : (b.size ≤ r) ⊎ (prev ≤ b.cells ! r)
  pub absent : b.size ≤ r → r ≡ int32_max

-- What the loop knows of `next`: the last probe that was not below `prev`.
abbrev Probed : Bucket → ℕ → ℕ → ℕ → Type 0
Probed b prev stop next =
    ((next ≡ stop) × (next < b.size) × (prev ≤ b.cells ! next))
    ⊎ ((next ≡ int32_max) × (stop ≡ b.size))

abbrev AllBelow : Bucket → ℕ → ℕ → Type 0
AllBelow b prev start = (i : ℕ) → i < start → i < b.size → b.cells ! i < prev

module _ (b : Bucket) (asc : IsAscending b) (prev : ℕ) where
  AllBelow-mid : (mid : ℕ) → mid < b.size → b.cells ! mid < prev → AllBelow b prev (mid + 1)
  AllBelow-mid mid h k i lt in_size = ground (arith, asc.ordered i mid)

  stopped : (stop next : ℕ) → AllBelow b prev stop → Probed b prev stop next → IsFirst b prev next
  stopped stop next low (inl (e, h, k)) = record {
    below = λ i p q. low i (omega arith) q;
    found = inr k;
    absent = λ p. absurd (omega arith);
  }
  stopped stop next low (inr (e, h)) = record {
    below = λ i p q. low i (omega arith) q;
    found = inl (omega (arith, asc.small));
    absent = λ p. e;
  }

  search-IsFirst :
      (fuel start stop next : ℕ)
      → stop - start < fuel
      → start ≤ stop
      → stop ≤ b.size
      → AllBelow b prev start
      → Probed b prev stop next
      → IsFirst b prev (search fuel b.cells prev start stop next)
  unfolding search
  search-IsFirst zero start stop next m s le low high = absurd (omega arith)
  search-IsFirst (suc fuel) start stop next m s le low high = elim (Bool-cases (ltb start stop)) [
    | inr ended ↦
        rw ended
          (stopped stop next (λ i p q. low i (omega (arith, ge_of_not_lt start stop ended)) q) high)
    | inl more ↦
        rw (more, in_int (ltb→lt start stop more))
          (elim (Bool-cases (ltb (b.cells ! mid) prev)) [
            | inl less ↦ rw less (
                search-IsFirst fuel (mid + 1) stop next (omega (arith, ltb→lt start stop more))
                  (omega (arith, ltb→lt start stop more)) le
                  (AllBelow-mid mid (omega (arith, ltb→lt start stop more)) (ltb→lt _ _ less)) high)
            | inr not_less ↦ rw not_less (
                search-IsFirst fuel start mid mid (omega (arith, ltb→lt start stop more))
                  (omega (arith, ltb→lt start stop more)) (omega (arith, ltb→lt start stop more))
                  low
                  (inl (refl, omega (arith, ltb→lt start stop more), ge_of_not_lt _ _ not_less)))
          ])
  ]
    where
      mid : ℕ
      mid = (start + (stop - 1)) / 2

      in_int : start < stop → leb (start + (stop - 1)) int32_max ≡ true
      in_int h = le→leb (start + (stop - 1)) int32_max (omega (arith, h, le, asc.small))

  -- On an ascending bucket of at most 2 ^ 30 tuples FastForwardBucket returns the first position
  -- of a tuple that is at least the given one, or INT32_MAX where there is none.
  pub fast_forward-IsFirst : IsFirst b prev (fast_forward b prev)
  unfolding fast_forward
  fast_forward-IsFirst = elim (Bool-cases (b.size == 0)) [
    | inl empty ↦ rw empty (record {
      below = λ i p q. absurd (omega (arith, (==_iff b.size 0).0 empty));
      found = inl (omega (arith, asc.small));
      absent = λ _. refl;
    })
    | inr filled ↦ rw filled (
        search-IsFirst (b.size + 1) 0 b.size int32_max (omega arith) (omega arith) (omega arith)
          (λ i p q. absurd (omega arith)) (inr (refl, refl)))
  ]
