-- ===== src/Join/Rank.antt =====
-- A tuple as a number: in a join order the last table is the lowest digit, and a table's cardinality
-- its base. The loops that decrement a tuple subtract one.
use kushdb.Prelude.{
  some, ◌⊎◌, none, ◌≢◌, Distinct, ==_ne, subst, ℕ, ◌+◌, ◌-◌, ◌*◌, ◌≡◌, ◌<◌, inl, inr, refl, sym, ap,
  ◌∙◌, arith, true, List, [], ◌∷◌, ◌++◌, set, length, length-set, get_or-set_self, get_or-set_ne,
  ◌==◌, ==_iff, Bool-cases, Elem, All,
}
use kushdb.Join.Tuple.{try_decrement, ◌!◌, decrement, last_row}

positive : (a b : ℕ) → 0 < a * b → 0 < b
positive a b h = grind arith

module _ (cards : List ℕ) where
  -- The tables of the list, lowest digit first.
  unfoldable pub rank : List ℕ → List ℕ → ℕ
  rank [] v = 0
  rank (t ∷ ts) v = v ! t + cards ! t * rank ts v

  -- How many tuples the tables have.
  unfoldable pub combinations : List ℕ → ℕ
  combinations [] = 1
  combinations (t ∷ ts) = cards ! t * combinations ts

  pub rank-cong : (ts v w : List ℕ) → ((t : ℕ) → Elem t ts → v ! t ≡ w ! t) → rank ts v ≡ rank ts w
  unfolding rank
  rank-cong [] v w h = refl
  rank-cong (t ∷ ts) v w h = rw (h t (inl refl), rank-cong ts v w (λ u m. h u (inr m))) refl

  pub rank-append : (ts us v : List ℕ) → rank (ts ++ us) v ≡ rank ts v + combinations ts * rank us v
  unfolding rank combinations
  rank-append [] us v = omega arith
  rank-append (t ∷ ts) us v = rw (rank-append ts us v) (omega arith)

  -- Tables that the order can name: each one a row, and a place in the tuple.
  pub record Fits (size : ℕ) (t : ℕ) : Type 0 where
    pub inside : t < size
    pub rows : 0 < cards ! t

  decrement-other : (ts v : List ℕ) (u : ℕ) → ¬ Elem u ts → decrement cards ts v ! u ≡ v ! u
  unfolding decrement
  decrement-other [] v u h = refl
  decrement-other (t ∷ ts) v u h = elim (Bool-cases (v ! t == 0)) [
    | inl borrow ↦ rw borrow (
        decrement-other ts (set v t (last_row cards t)) u (λ m. h (inr m))
        ∙ get_or-set_ne v t u _ 0 (λ e. h (inl (sym e))))
    | inr plain ↦ rw plain (get_or-set_ne v t u _ 0 (λ e. h (inl (sym e))))
  ]

  rank-set : (ts v : List ℕ) (t x : ℕ) → ¬ Elem t ts → rank ts (set v t x) ≡ rank ts v
  rank-set ts v t x h =
      rank-cong ts (set v t x) v (λ u m. get_or-set_ne v t u x 0 (λ e. h (rw e m)))

  pub decrement-rank :
      (ts v : List ℕ)
      → Distinct ts
      → All (Fits (length v)) ts
      → 0 < rank ts v
      → rank ts (decrement cards ts v) + 1 ≡ rank ts v
  unfolding decrement rank
  decrement-rank [] v d f p = absurd (omega arith)
  decrement-rank (t ∷ ts) v d f p = elim (Bool-cases (v ! t == 0)) [
    | inl borrow ↦ rw borrow (
        let e : v ! t ≡ 0 = (==_iff (v ! t) 0).0 borrow in
        omega (
          arith,
          e,
          f.0.rows,
          borrowed,
          ap (λ k. cards ! t * k)
              (decrement-rank ts w d.1
                (subst (λ n. All (Fits n) ts) (sym (length-set v t (last_row cards t))) f.1)
                (more e)),
          ap (λ k. cards ! t * k) (rank-set ts v t (last_row cards t) d.0),
        ))
    | inr plain ↦ rw plain (
        omega (
          arith,
          ==_ne (v ! t) 0 plain,
          get_or-set_self v t (v ! t - 1) 0 f.0.inside,
          ap (λ k. cards ! t * k) (rank-set ts v t (v ! t - 1) d.0),
        ))
  ]
    where
      w : List ℕ
      w = set v t (last_row cards t)

      borrowed : decrement cards ts w ! t ≡ last_row cards t
      borrowed = decrement-other ts w t d.0 ∙ get_or-set_self v t (last_row cards t) 0 f.0.inside

      more : v ! t ≡ 0 → 0 < rank ts w
      more e =
          positive (cards ! t) (rank ts w)
            (omega (arith, p, e, ap (λ k. cards ! t * k) (rank-set ts v t (last_row cards t) d.0)))

  -- Where nothing is left to subtract from, every table of the order ends at its last row.
  pub decrement-zero :
      (ts v : List ℕ)
      → Distinct ts
      → All (Fits (length v)) ts
      → rank ts v ≡ 0
      → (t : ℕ) → Elem t ts
      → decrement cards ts v ! t ≡ last_row cards t
  unfolding decrement rank
  decrement-zero [] v d f z u m = absurd m
  decrement-zero (t ∷ ts) v d f z u m = rw first (elim m [
    | inl here ↦
        rw here (decrement-other ts w t d.0 ∙ get_or-set_self v t (last_row cards t) 0 f.0.inside)
    | inr later ↦
        decrement-zero ts w d.1
          (subst (λ n. All (Fits n) ts) (sym (length-set v t (last_row cards t))) f.1)
          (rank-set ts v t (last_row cards t) d.0 ∙ rest) u later
  ])
    where
      w : List ℕ
      w = set v t (last_row cards t)

      first : (v ! t == 0) ≡ true
      first = (==_iff (v ! t) 0).1 (omega (arith, z))

      rest : rank ts v ≡ 0
      rest = grind (arith, z, f.0.rows)

  pub rank_zeros : (ts v : List ℕ) → ((t : ℕ) → Elem t ts → v ! t ≡ 0) → rank ts v ≡ 0
  unfolding rank
  rank_zeros [] v h = refl
  rank_zeros (t ∷ ts) v h = rw (h t (inl refl), rank_zeros ts v (λ u m. h u (inr m))) (omega arith)

  pub rank_last :
      (ts v : List ℕ)
      → ((t : ℕ) → Elem t ts → (v ! t ≡ last_row cards t) × (0 < cards ! t))
      → rank ts v + 1 ≡ combinations ts
  unfolding rank combinations
  rank_last [] v h = omega arith
  rank_last (t ∷ ts) v h = omega (
    arith,
    (h t (inl refl)).0,
    (h t (inl refl)).1,
    ap (λ k. cards ! t * k) (rank_last ts v (λ u m. h u (inr m))),
  )

  abbrev wrap : List ℕ → ℕ → List ℕ
  wrap v t = set v t (last_row cards t)

  borrow_zero :
      (v : List ℕ) (t : ℕ) (ts : List ℕ)
      → ¬ Elem t ts
      → v ! t ≡ 0
      → rank ts (wrap v t) ≡ 0
      → v ! t + cards ! t * rank ts v ≡ 0
  borrow_zero v t ts d e z =
      omega (arith, e, ap (λ k. cards ! t * k) (sym (rank-set ts v t (last_row cards t) d) ∙ z))

  borrow_more :
      (v : List ℕ) (t : ℕ) (ts : List ℕ)
      → ¬ Elem t ts
      → 0 < cards ! t
      → 0 < rank ts (wrap v t)
      → 0 < v ! t + cards ! t * rank ts v
  borrow_more v t ts d rows p = grind (arith, rank-set ts v t (last_row cards t) d)

  -- `try_decrement` fails exactly where nothing can be subtracted.
  pub try_decrement-rank :
      (ts v : List ℕ)
      → ts ≢ []
      → Distinct ts
      → All (Fits (length v)) ts
      → ((rank ts v ≡ 0) × (try_decrement cards ts v ≡ none))
        ⊎ ((0 < rank ts v) × (try_decrement cards ts v ≡ some (decrement cards ts v)))
  unfolding rank decrement try_decrement
  try_decrement-rank [] v ne d f = absurd (ne refl)
  try_decrement-rank (t ∷ []) v ne d f = elim (Bool-cases (v ! t == 0)) [
    | inl zero_row ↦ inl (omega (arith, (==_iff (v ! t) 0).0 zero_row), rw zero_row)
    | inr plain ↦ inr (omega (arith, ==_ne (v ! t) 0 plain), rw plain)
  ]
  try_decrement-rank (t ∷ u ∷ ts) v ne d f = elim (Bool-cases (v ! t == 0)) [
    | inr plain ↦ inr (omega (arith, ==_ne (v ! t) 0 plain), rw plain)
    | inl borrow ↦
        rw borrow
          (elim (try_decrement-rank (u ∷ ts) (wrap v t) (λ e. cc) d.1
            (subst (λ n. All (Fits n) (u ∷ ts)) (sym (length-set v t (last_row cards t))) f.1)) [
              | inl (z, e) ↦ inl (borrow_zero v t (u ∷ ts) d.0 ((==_iff (v ! t) 0).0 borrow) z, e)
              | inr (p, e) ↦ inr (borrow_more v t (u ∷ ts) d.0 f.0.rows p, e)
            ])
  ]
