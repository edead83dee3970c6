-- ===== src/Join/Completed.antt =====
-- What ComputeLastCompletedTuple returns, in numbers: how many tuples of the order are done with.
use kushdb.Prelude.{
  ℕ, suc, ◌+◌, ◌*◌, ◌<◌, ◌≡◌, refl, sym, ap, ◌∙◌, subst, inl, true, false, List, [], ◌∷◌, ◌++◌,
  reverse, reverse-append, append_assoc, arith, length, drop, replicate, length-replicate, Elem,
  All, Distinct, Elem-append_left, Elem-append_right, Elem-reverse, reverse-Elem, Distinct-reverse,
  Distinct-apart, All-at, All-reverse,
}
use kushdb.Join.Tuple.{
  ◌!◌, fill, last_row, after_ctr, compute_last_completed_tuple, should_decrement,
}
use kushdb.Join.Rank.{
  rank, combinations, Fits, decrement-rank, decrement-zero, rank-cong, rank-append, rank_zeros,
  rank_last,
}
use kushdb.Prelude.Int.{ℤ}
use kushdb.Join.Fill.{fill-in, fill-other, length-fill, after_ctr-split, drop-split}

module _ (cards before later : List ℕ) (c : ℕ) (distinct : Distinct ((before ++ (c ∷ [])) ++ later))
    (idx_arr : List ℕ) where
  abbrev pub through : List ℕ
  through = before ++ (c ∷ [])

  abbrev pub order : List ℕ
  order = through ++ later

  later_of_order : drop (after_ctr c 0 0 order) order ≡ later
  later_of_order =
      ap (λ o. drop (after_ctr c 0 0 o) o) (append_assoc before (c ∷ []) later)
      ∙ ap (λ n. drop n (before ++ (c ∷ later))) {y = suc (length before)}
          (after_ctr-split c 0 0 before later apart ∙ omega arith)
      ∙ drop-split c before later
    where
      apart : ¬ Elem c later
      apart =
          Distinct-apart through later distinct c (Elem-append_right c before (c ∷ []) (inl refl))

  current : List ℕ
  current = fill (λ t. idx_arr ! t) order (replicate (length order) 0)

  length-current : length current ≡ length order
  unfolding current
  length-current = length-fill _ order _ ∙ length-replicate (length order) 0

  module _ (fits : All (Fits cards (length order)) order) where
    Fits-at : (t : ℕ) → Elem t order → Fits cards (length order) t
    Fits-at t m = All-at (Fits cards (length order)) order fits t m

    in_current : (t : ℕ) → Elem t order → t < length current
    in_current t m = rw length-current (Fits-at t m).inside

    current-at : (t : ℕ) → Elem t order → current ! t ≡ idx_arr ! t
    unfolding current
    current-at t m =
        fill-in (λ t. idx_arr ! t) order (replicate (length order) 0) t m
          (rw (length-replicate {A = ℕ} (length order) 0) (Fits-at t m).inside)

    -- Whatever is written to the later tables, the tables up to `table_ctr` keep their rows.
    rank-order :
        (value : ℕ → ℕ)
        → rank cards (reverse order) (fill value later current)
          ≡ rank cards (reverse later) (fill value later current)
            + combinations cards (reverse later) * rank cards (reverse through) idx_arr
    rank-order value =
        ap (λ o. rank cards o w) (reverse-append through later)
        ∙ rank-append cards (reverse later) (reverse through) w
        ∙ ap (λ k. rank cards (reverse later) w + combinations cards (reverse later) * k)
            (rank-cong cards (reverse through) w idx_arr kept)
      where
        w : List ℕ
        w = fill value later current

        kept : (t : ℕ) → Elem t (reverse through) → w ! t ≡ idx_arr ! t
        kept t m =
            fill-other value later current t
              (Distinct-apart through later distinct t (Elem-reverse t through m))
            ∙ current-at t (Elem-append_left t through later (Elem-reverse t through m))

    later-in :
        (value : ℕ → ℕ) (t : ℕ) → Elem t (reverse later) → fill value later current ! t ≡ value t
    later-in value t m =
        fill-in value later current t (Elem-reverse t later m)
          (in_current t (Elem-append_right t through later (Elem-reverse t later m)))

    later_rows : (t : ℕ) → Elem t (reverse later) → 0 < cards ! t
    later_rows t m = (Fits-at t (Elem-append_right t through later (Elem-reverse t later m))).rows

    -- The tuples up to the last completed one: as many as `table_ctr` and the tables before it have
    -- completed rows, times the combinations of the later tables.
    pub completed_through :
        (status : ℤ)
        → should_decrement status ≡ false
        → rank cards (reverse order) (compute_last_completed_tuple order cards status c idx_arr) + 1
          ≡ combinations cards (reverse later) * (rank cards (reverse through) idx_arr + 1)
    unfolding compute_last_completed_tuple current
    completed_through status h =
        rw (h, later_of_order)
          (omega (
            arith,
            rank-order (last_row cards),
            rank_last cards (reverse later) (fill (last_row cards) later current)
                (λ t m. (later-in (last_row cards) t m, later_rows t m)),
          ))

    zeroed :
        rank cards (reverse order) (fill (λ _. 0) later current)
        ≡ combinations cards (reverse later) * rank cards (reverse through) idx_arr
    zeroed = omega (
      arith,
      rank-order (λ _. 0),
      rank_zeros cards (reverse later) (fill (λ _. 0) later current) (later-in (λ _. 0)),
    )

    Fits-reversed : All (Fits cards (length (fill (λ _. 0) later current))) (reverse order)
    Fits-reversed = All-reverse (Fits cards (length (fill (λ _. 0) later current))) order (
        subst (λ n. All (Fits cards n) order)
          (sym (length-fill (λ _. 0) later current ∙ length-current)) fits)

    -- Out of budget the row of `table_ctr` is not done: the count is one row less.
    pub completed_before :
        (status : ℤ)
        → should_decrement status ≡ true
        → 0 < combinations cards (reverse later) * rank cards (reverse through) idx_arr
        → rank cards (reverse order) (compute_last_completed_tuple order cards status c idx_arr) + 1
          ≡ combinations cards (reverse later) * rank cards (reverse through) idx_arr
    unfolding compute_last_completed_tuple current
    completed_before status h p =
        rw (h, later_of_order)
          (decrement-rank cards (reverse order) (fill (λ _. 0) later current)
              (Distinct-reverse order distinct) Fits-reversed (rw zeroed p)
            ∙ zeroed)

    -- Out of budget on the very first tuple, the decrement wraps round to the last one.
    pub completed_wraps :
        (status : ℤ)
        → should_decrement status ≡ true
        → rank cards (reverse through) idx_arr ≡ 0
        → (t : ℕ) → Elem t order
        → compute_last_completed_tuple order cards status c idx_arr ! t ≡ last_row cards t
    unfolding compute_last_completed_tuple current
    completed_wraps status h z t m =
        rw (h, later_of_order)
          (decrement-zero cards (reverse order) (fill (λ _. 0) later current)
            (Distinct-reverse order distinct) Fits-reversed
            (omega (arith, zeroed, ap (λ k. combinations cards (reverse later) * k) z)) t
            (reverse-Elem t order m))
