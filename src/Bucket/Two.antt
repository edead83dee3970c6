-- ===== src/Bucket/Two.antt =====
-- The intersection of two buckets: sound, complete, in order, and ready to be resumed.
use kushdb.Prelude.{
  ℕ, zero, suc, ◌+◌, ◌-◌, ◌≡◌, ◌<◌, ◌≤◌, ◌⊎◌, inl, inr, [], ◌∷◌, ap, arith, Bool-cases, ltb, ltb→lt,
  ge_of_not_lt, length, ◌&&◌, true, false, sym, ◌∙◌, Elem, Ascending,
}
use kushdb.Bucket.{Bucket, Outcome, fast_forward, populate_two}
use kushdb.Bucket.Search.{◌!◌, IsAscending, IsFirst, fast_forward-IsFirst}

-- `v` stands in the bucket at or behind position `s`.
abbrev pub Holds : Bucket → ℕ → ℕ → Type 0
Holds b s v = (i : ℕ) × (s ≤ i) × (i < b.size) × (b.cells ! i ≡ v)

-- What a call that starts at `s` and `t` with room for `room` values leaves behind.
pub record Intersects (a b : Bucket) (s t room : ℕ) (o : Outcome) : Type 0 where
  pub sound : (v : ℕ) → Elem v o.out → Holds a s v × Holds b t v
  pub complete :
      (i j : ℕ)
      → s ≤ i
      → i < a.size
      → t ≤ j
      → j < b.size
      → a.cells ! i ≡ b.cells ! j
      → Elem (a.cells ! i) o.out ⊎ ((o.left ≤ i) × (o.right ≤ j))
  pub advanced : s ≤ o.left
  pub passed : (v i : ℕ) → Elem v o.out → o.left ≤ i → i < a.size → v < a.cells ! i
  pub ordered : Ascending o.out
  pub fits : length o.out ≤ room
  pub stops : (length o.out ≡ room) ⊎ ((a.size ≤ o.left) ⊎ (b.size ≤ o.right))

pub Holds-weaken : (b : Bucket) {s s' v : ℕ} → s ≤ s' → Holds b s' v → Holds b s v
Holds-weaken b h (i, p, q, e) = (i, omega arith, q, e)

-- The search moves a state that stands before the value on.
pub fast_forward-lt :
    (b : Bucket) (s y : ℕ) → IsAscending b → s < b.size → b.cells ! s < y → s < fast_forward b y
fast_forward-lt b s y asc h less = after (fast_forward-IsFirst b asc y)
  where
    after : IsFirst b y (fast_forward b y) → s < fast_forward b y
    after f = elim f.found [
      | inl past ↦ omega arith
      | inr at ↦ ground (arith, asc.ordered (fast_forward b y) s)
    ]

module _ (a b : Bucket) (asc_a : IsAscending a) (asc_b : IsAscending b) where
  le_ordered :
      (c : Bucket) → IsAscending c → (i j : ℕ) → i ≤ j → j < c.size → c.cells ! i ≤ c.cells ! j
  le_ordered c asc i j h k = ground (arith, asc.ordered i j)

  skip_left :
      (s t room : ℕ) (o : Outcome)
      → s < a.size
      → t < b.size
      → a.cells ! s < b.cells ! t
      → Intersects a b (fast_forward a (b.cells ! t)) t room o
      → Intersects a b s t room o
  skip_left s t room o hs ht less r = record {
    sound = λ v m. (Holds-weaken a (omega (arith, moved)) (r.sound v m).0, (r.sound v m).1);
    complete = λ i j p q p' q' e. elim (Bool-cases (ltb i f)) [
      | inl before ↦ absurd (
          omega (
            arith,
            (fast_forward-IsFirst a asc_a (b.cells ! t)).below i (ltb→lt _ _ before) q,
            le_ordered b asc_b t j p' q',
            e,
          ))
      | inr behind ↦ r.complete i j (ge_of_not_lt _ _ behind) q p' q' e
    ];
    advanced = omega (arith, moved, r.advanced);
    passed = r.passed;
    ordered = r.ordered;
    fits = r.fits;
    stops = r.stops;
  }
    where
      f : ℕ
      f = fast_forward a (b.cells ! t)

      moved : s < f
      moved = fast_forward-lt a s (b.cells ! t) asc_a hs less

  skip_right :
      (s t room : ℕ) (o : Outcome)
      → s < a.size
      → t < b.size
      → b.cells ! t < a.cells ! s
      → Intersects a b s (fast_forward b (a.cells ! s)) room o
      → Intersects a b s t room o
  skip_right s t room o hs ht less r = record {
    sound = λ v m. ((r.sound v m).0, Holds-weaken b (omega (arith, moved)) (r.sound v m).1);
    complete = λ i j p q p' q' e. elim (Bool-cases (ltb j f)) [
      | inl before ↦ absurd (
          omega (
            arith,
            (fast_forward-IsFirst b asc_b (a.cells ! s)).below j (ltb→lt _ _ before) q',
            le_ordered a asc_a s i p q,
            e,
          ))
      | inr behind ↦ r.complete i j p q (ge_of_not_lt _ _ behind) q' e
    ];
    advanced = r.advanced;
    passed = r.passed;
    ordered = r.ordered;
    fits = r.fits;
    stops = r.stops;
  }
    where
      f : ℕ
      f = fast_forward b (a.cells ! s)

      moved : t < f
      moved = fast_forward-lt b t (a.cells ! s) asc_b ht less

  hit :
      (s t room : ℕ) (o : Outcome)
      → s < a.size
      → t < b.size
      → 0 < room
      → a.cells ! s ≡ b.cells ! t
      → Intersects a b (s + 1) (t + 1) (room - 1) o
      → Intersects a b s t room (record o { out = a.cells ! s ∷ o.out })
  hit s t room o hs ht hr e r = record {
    sound = λ v m. elim m [
      | inl here ↦ ((s, omega arith, hs, sym here), (t, omega arith, ht, sym (here ∙ e)))
      | inr rest ↦ (
        Holds-weaken a (omega arith) (r.sound v rest).0,
        Holds-weaken b (omega arith) (r.sound v rest).1,
      )
    ];
    complete = λ i j p q p' q' e'. elim (Bool-cases (ltb s i)) [
      | inl later ↦
          elim (r.complete i j (omega (arith, ltb→lt _ _ later)) q
            (beyond i j (ltb→lt _ _ later) q p' e') q' e') [
              | inl m ↦ inl (inr m)
              | inr left ↦ inr left
            ]
      | inr now ↦ inl (inl (ap (λ k. a.cells ! k) (omega (arith, ge_of_not_lt s i now, p))))
    ];
    advanced = omega (arith, r.advanced);
    passed = λ v i m p q. elim m [
      | inl here ↦ omega (arith, here, asc_a.ordered s i (omega (arith, r.advanced)) q)
      | inr rest ↦ r.passed v i rest p q
    ];
    ordered = (λ v m. above v (r.sound v m).0, r.ordered);
    fits = omega (arith, r.fits);
    stops = elim r.stops [ inl full ↦ inl (omega arith) | inr ended ↦ inr ended ];
  }
    where
      above : (v : ℕ) → Holds a (s + 1) v → a.cells ! s < v
      above v (i, p, q, e') = omega (arith, asc_a.ordered s i (omega arith) q)

      beyond : (i j : ℕ) → s < i → i < a.size → t ≤ j → a.cells ! i ≡ b.cells ! j → t + 1 ≤ j
      beyond i j p q p' e' = elim (Bool-cases (ltb t j)) [
        | inl later ↦ omega (arith, ltb→lt _ _ later)
        | inr now ↦
            absurd (omega (arith, asc_a.ordered s i p q, ap (λ k. b.cells ! k) (same now p')))
      ]
        where
          same : ltb t j ≡ false → t ≤ j → j ≡ t
          same now p' = omega (arith, ge_of_not_lt t j now)

  stay :
      (s t room : ℕ)
      → (ltb s a.size && ltb t b.size && ltb 0 room) ≡ false
      → Intersects a b s t room (record { out = []; left = s; right = t })
  stay s t room h = record {
    sound = λ v m. absurd m;
    complete = λ i j p q p' q' e. inr (p, p');
    advanced = omega arith;
    passed = λ v i m p q. absurd m;
    ordered = tt;
    fits = omega arith;
    stops = ground arith;
  }

  pub populate_two-Intersects :
      (fuel s t room : ℕ)
      → a.size - s + (b.size - t) < fuel
      → Intersects a b s t room (populate_two fuel a b s t room)
  unfolding populate_two
  populate_two-Intersects zero s t room m = absurd (omega arith)
  populate_two-Intersects (suc fuel) s t room m =
      elim (Bool-cases (ltb s a.size && ltb t b.size && ltb 0 room)) [
        | inr ended ↦ rw ended (stay s t room ended)
        | inl more ↦ rw more (elim (Bool-cases (ltb x y)) [
          | inl less ↦ rw less (
              skip_left s t room _ (inside more).0 (inside more).1 (ltb→lt _ _ less) (
                populate_two-Intersects fuel (fast_forward a y) t room (
                  omega (
                    arith,
                    m,
                    fast_forward-lt a s y asc_a (inside more).0 (ltb→lt _ _ less),
                    (inside more).0,
                    (inside more).1,
                  ))))
          | inr not_less ↦ rw not_less (elim (Bool-cases (ltb y x)) [
            | inl more_than ↦ rw more_than (
                skip_right s t room _ (inside more).0 (inside more).1 (ltb→lt _ _ more_than) (
                  populate_two-Intersects fuel s (fast_forward b x) room (
                    omega (
                      arith,
                      m,
                      fast_forward-lt b t x asc_b (inside more).1 (ltb→lt _ _ more_than),
                      (inside more).0,
                      (inside more).1,
                    ))))
            | inr not_more ↦ rw not_more (
                hit s t room _ (inside more).0 (inside more).1 (inside more).2
                  (omega (arith, ge_of_not_lt _ _ not_less, ge_of_not_lt _ _ not_more))
                  (populate_two-Intersects fuel (s + 1) (t + 1) (room - 1)
                    (omega (arith, m, (inside more).0, (inside more).1))))
          ])
        ])
      ]
    where
      x : ℕ
      x = a.cells ! s

      y : ℕ
      y = b.cells ! t

      inside :
          (ltb s a.size && ltb t b.size && ltb 0 room) ≡ true
          → (s < a.size) × (t < b.size) × (0 < room)
      inside h = ground arith
