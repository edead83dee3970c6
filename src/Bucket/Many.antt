-- ===== src/Bucket/Many.antt =====
-- The scan of the least list against all buckets.
use kushdb.Prelude.{
  ℕ, suc, ◌+◌, ◌≡◌, ◌≢◌, ◌<◌, ◌≤◌, inl, inr, List, [], ◌∷◌, arith, sym, ◌∙◌, refl, Bool-cases, ltb,
  leb, ◌==◌, ltb→lt, ge_of_not_lt, leb→le, lt_of_not_leb, ==_iff, length, length-set, set, get_or,
  get_or-set_self, get_or-set_ne, false, All,
}
use kushdb.Bucket.{
  Bucket, nth, fast_forward, Verdict, all_equal, exhausted, differs, Checked, check_lists,
}
use kushdb.Bucket.Search.{◌!◌, IsAscending, fast_forward-IsFirst}
use kushdb.Bucket.Two.{Holds}

-- Every bucket holds the value.
abbrev pub Common : List Bucket → ℕ → Type 0
Common bs v = All (λ b. Holds b 0 v) bs

module _ (least : Bucket) (min_list candidate : ℕ) where
  -- What the outcome of the pass over `bs` says; `before` and `after` are the states.
  abbrev pub Meaning : List Bucket → List ℕ → Verdict → List ℕ → Type 0
  Meaning bs before all_equal after =
      Common bs candidate × (get_or after min_list 0 ≡ get_or before min_list 0)
  Meaning bs before exhausted after =
      ((w : ℕ) → candidate ≤ w → ¬ Common bs w)
      × (get_or after min_list 0 ≡ get_or before min_list 0)
  Meaning bs before differs after =
      (y : ℕ) × (candidate < y)
      × (get_or after min_list 0 ≡ fast_forward least y)
      × ((w : ℕ) → candidate ≤ w → w < y → ¬ Common bs w)

  abbrev pub Says : List Bucket → List ℕ → Checked → Type 0
  Says bs before c = (length c.states ≡ length before) × Meaning bs before c.verdict c.states

  -- A bucket that holds the candidate changes nothing.
  Meaning-cons :
      (b : Bucket) (bs : List Bucket) (before : List ℕ) (v : Verdict) (after : List ℕ)
      → Holds b 0 candidate
      → Meaning bs before v after
      → Meaning (b ∷ bs) before v after
  Meaning-cons b bs before all_equal after h m = ((h, m.0), m.1)
  Meaning-cons b bs before exhausted after h m = ((λ w p c. m.0 w p c.1), m.1)
  Meaning-cons b bs before differs after h m = (m.0, m.1, m.2, λ w p q c. m.3 w p q c.1)

  Meaning-before :
      (bs : List Bucket) (before before' : List ℕ) (v : Verdict) (after : List ℕ)
      → get_or before min_list 0 ≡ get_or before' min_list 0
      → Meaning bs before v after
      → Meaning bs before' v after
  Meaning-before bs before before' all_equal after e m = (m.0, m.1 ∙ e)
  Meaning-before bs before before' exhausted after e m = (m.0, m.1 ∙ e)
  Meaning-before bs before before' differs after e m = m

  module _ (b : Bucket) (asc : IsAscending b) where
    -- No tuple of `b` from the candidate on.
    none_left : b.size ≤ fast_forward b candidate → (w : ℕ) → candidate ≤ w → ¬ Holds b 0 w
    none_left h w p (i, _, q, e) =
        absurd (omega (arith, (fast_forward-IsFirst b asc candidate).below i, e))

    none_between : (w : ℕ) → candidate ≤ w → w < b.cells ! fast_forward b candidate → ¬ Holds b 0 w
    none_between w p lt (i, _, q, e) = elim (Bool-cases (ltb i (fast_forward b candidate))) [
      | inl early ↦
          absurd
            (omega (arith, (fast_forward-IsFirst b asc candidate).below i (ltb→lt _ _ early) q, e))
      | inr late ↦
          ground (arith, e, ge_of_not_lt _ _ late, asc.ordered (fast_forward b candidate) i)
    ]

    holds :
        fast_forward b candidate < b.size
        → b.cells ! fast_forward b candidate ≤ candidate
        → Holds b 0 candidate
    holds h le = elim (fast_forward-IsFirst b asc candidate).found [
      | inl past ↦ absurd (omega arith)
      | inr at ↦ (fast_forward b candidate, omega arith, h, omega arith)
    ]

  pub check_lists-Says :
      (i : ℕ) (bs : List Bucket) (states : List ℕ)
      → Holds least 0 candidate
      → All IsAscending bs
      → min_list < length states
      → ((k : ℕ) → i + k ≡ min_list → k < length bs → nth bs k ≡ least)
      → Says bs states (check_lists least min_list candidate i bs states)
  unfolding check_lists
  check_lists-Says i [] states held asc fits at = (refl, (tt, refl))
  check_lists-Says i (b ∷ bs) states held asc fits at = elim (Bool-cases (i == min_list)) [
    | inl here ↦ rw here (
        let (kept, m) = check_lists-Says (i + 1) bs states held asc.1 fits tail in
        (
          kept,
          Meaning-cons b bs states _ _
              (rw (sym (at 0 (omega (arith, (==_iff i min_list).0 here)) (omega arith))) at held) m,
        ))
    | inr other ↦ rw other (elim (Bool-cases (leb b.size f)) [
      | inl past ↦ rw past (
        length-set states i f,
        (
          (λ w p c. none_left b asc.0 (leb→le _ _ past) w p c.0),
          get_or-set_ne states i min_list f 0 (apart other),
        ),
      )
      | inr present ↦ rw present (elim (Bool-cases (ltb candidate (b.cells ! f))) [
        | inl greater ↦ rw greater (
          length-set (set states i f) min_list _ ∙ length-set states i f,
          (
            b.cells ! f,
            ltb→lt _ _ greater,
            get_or-set_self (set states i f) min_list _ 0 (rw (length-set states i f) fits),
            λ w p q c. none_between b asc.0 w p q c.0,
          ),
        )
        | inr equal ↦ rw equal (
            let (kept, m) =
              check_lists-Says (i + 1) bs (set states i f) held asc.1
                (rw (length-set states i f) fits) tail in
            (
              kept ∙ length-set states i f,
              Meaning-cons b bs states _ _
                  (holds b asc.0 (lt_of_not_leb _ _ present) (ge_of_not_lt _ _ equal))
                  (Meaning-before bs (set states i f) states _ _
                    (get_or-set_ne states i min_list f 0 (apart other)) m),
            ))
      ])
    ])
  ]
    where
      f : ℕ
      f = fast_forward b candidate

      tail : (k : ℕ) → i + 1 + k ≡ min_list → k < length bs → nth bs k ≡ least
      tail k e h = at (suc k) (omega arith) (omega arith)

      apart : (i == min_list) ≡ false → i ≢ min_list
      apart h = ground arith
