-- ===== src/Vector/Merge.antt =====
-- Merge writes the merge of two neighbouring stretches of the cells over them.
use kushdb.Prelude.{
  ℕ, ◌+◌, ◌-◌, ◌<◌, ◌≡◌, refl, sym, ap, ◌∙◌, subst, ◌⊎◌, inl, inr, Bool, true, false, List, [], ◌∷◌,
  ◌++◌, append_assoc, append-nil, arith, if◌then◌else◌, Bool-cases, length, set, length-append,
  take, drop, Elem,
}
use kushdb.Vector.{copy_rest, merge_halves, merge}
use mathlib.Core.List.Permᴰ
use mathlib.Core.List.{Permᴰ}

module _ {A : Type 0} where
  pub drop_append : (xs ys : List A) → drop (length xs) (xs ++ ys) ≡ ys
  drop_append [] ys = refl
  drop_append (x ∷ xs) ys = drop_append xs ys

  pub take_append : (xs ys : List A) → take (length xs) (xs ++ ys) ≡ xs
  take_append [] ys = refl
  take_append (x ∷ xs) ys = ap (λ l. x ∷ l) (take_append xs ys)

  set_append : (xs ys : List A) (y v : A) → set (xs ++ (y ∷ ys)) (length xs) v ≡ xs ++ (v ∷ ys)
  set_append [] ys y v = refl
  set_append (x ∷ xs) ys y v = ap (λ l. x ∷ l) (set_append xs ys y v)

  pub copy_over :
      (out before old after : List A)
      → length out ≡ length old
      → copy_rest out (length before) (before ++ (old ++ after)) ≡ before ++ (out ++ after)
  unfolding copy_rest
  copy_over [] before [] after e = refl
  copy_over [] before (y ∷ old) after e = absurd (omega arith)
  copy_over (x ∷ out) before [] after e = absurd (omega arith)
  copy_over (x ∷ out) before (y ∷ old) after e =
      ap (copy_rest out (length before + 1))
        (set_append before (old ++ after) y x ∙ sym (append_assoc before (x ∷ []) (old ++ after)))
      ∙ ap (λ n. copy_rest out n ((before ++ (x ∷ [])) ++ (old ++ after)))
          (sym (length-append before (x ∷ [])))
      ∙ copy_over out (before ++ (x ∷ [])) old after (omega arith)
      ∙ append_assoc before (x ∷ []) (out ++ after)

  module _ (comp_fn : A → A → Bool) where
    -- No element of the rest goes before one that stands earlier.
    abbrev pub Sorted : List A → Type 0
    Sorted [] = Unit
    Sorted (x ∷ xs) = ((y : A) → Elem y xs → comp_fn y x ≡ false) × Sorted xs

    -- A strict weak order, as the C++ library asks of a comparison.
    pub record StrictWeak : Type 0 where
      pub asymmetric : (x y : A) → comp_fn x y ≡ true → comp_fn y x ≡ false
      pub transitive : (x y z : A) → comp_fn y x ≡ false → comp_fn z y ≡ false → comp_fn z x ≡ false

    -- The merge as a list of its own.
    unfoldable pub merged : List A → List A → List A
    merged [] ys = ys
    merged (x ∷ xs) [] = x ∷ xs
    merged (x ∷ xs) (y ∷ ys) =
        let left = x ∷ merged xs (y ∷ ys) in
        let right = y ∷ merged (x ∷ xs) ys in if comp_fn x y then left else right

    copies_merged :
        (xs ys : List A) (k : ℕ) (cells : List A)
        → merge_halves comp_fn xs ys k cells ≡ copy_rest (merged xs ys) k cells
    unfolding merge_halves merged copy_rest
    copies_merged [] ys k cells = refl
    copies_merged (x ∷ xs) [] k cells = refl
    copies_merged (x ∷ xs) (y ∷ ys) k cells = elim (Bool-cases (comp_fn x y)) [
      | inl e ↦ rw e (copies_merged xs (y ∷ ys) (k + 1) (set cells k x))
      | inr e ↦ rw e (copies_merged (x ∷ xs) ys (k + 1) (set cells k y))
    ]

    pub length-merged : (xs ys : List A) → length (merged xs ys) ≡ length xs + length ys
    unfolding merged
    length-merged [] ys = omega arith
    length-merged (x ∷ xs) [] = omega arith
    length-merged (x ∷ xs) (y ∷ ys) = elim (Bool-cases (comp_fn x y)) [
      | inl e ↦ rw e (omega (arith, length-merged xs (y ∷ ys)))
      | inr e ↦ rw e (omega (arith, length-merged (x ∷ xs) ys))
    ]

    Elem-merged : (xs ys : List A) (v : A) → Elem v (merged xs ys) → Elem v xs ⊎ Elem v ys
    unfolding merged
    Elem-merged [] ys v m = inr m
    Elem-merged (x ∷ xs) [] v m = inl m
    Elem-merged (x ∷ xs) (y ∷ ys) v m = elim (Bool-cases (comp_fn x y)) [
      | inl e ↦
          elim (subst (λ b. Elem v (if b then x ∷ merged xs (y ∷ ys) else (y ∷ merged (x ∷ xs) ys)))
            e m) [
              | inl h ↦ inl (inl h)
              | inr h ↦ elim (Elem-merged xs (y ∷ ys) v h) [ inl g ↦ inl (inr g) | inr g ↦ inr g ]
            ]
      | inr e ↦
          elim (subst (λ b. Elem v (if b then x ∷ merged xs (y ∷ ys) else (y ∷ merged (x ∷ xs) ys)))
            e m) [
              | inl h ↦ inr (inl h)
              | inr h ↦ elim (Elem-merged (x ∷ xs) ys v h) [ inl g ↦ inl g | inr g ↦ inr (inr g) ]
            ]
    ]

    pub merged-Perm : (xs ys : List A) → Permᴰ (merged xs ys) (xs ++ ys)
    unfolding merged
    merged-Perm [] ys = Permᴰ.refl ys
    merged-Perm (x ∷ xs) [] =
        subst (Permᴰ (x ∷ xs)) (sym (append-nil (x ∷ xs))) (Permᴰ.refl (x ∷ xs))
    merged-Perm (x ∷ xs) (y ∷ ys) = elim (Bool-cases (comp_fn x y)) [
      | inl e ↦ rw e (Permᴰ.cons refl (merged-Perm xs (y ∷ ys)))
      | inr e ↦ rw e (
          Permᴰ.trans (Permᴰ.cons refl (merged-Perm (x ∷ xs) ys))
            (Permᴰ.symm (Permᴰ.middle y (x ∷ xs) ys)))
    ]

    pub merged-Sorted :
        StrictWeak → (xs ys : List A) → Sorted xs → Sorted ys → Sorted (merged xs ys)
    unfolding merged
    merged-Sorted w [] ys p q = q
    merged-Sorted w (x ∷ xs) [] p q = p
    merged-Sorted w (x ∷ xs) (y ∷ ys) p q = elim (Bool-cases (comp_fn x y)) [
      | inl e ↦ rw e (
        (λ v m. elim (Elem-merged xs (y ∷ ys) v m) [
          | inl h ↦ p.0 v h
          | inr (inl here) ↦ rw here (w.asymmetric x y e)
          | inr (inr later) ↦ w.transitive x y v (w.asymmetric x y e) (q.0 v later)
        ]),
        merged-Sorted w xs (y ∷ ys) p.1 q,
      )
      | inr e ↦ rw e (
        (λ v m. elim (Elem-merged (x ∷ xs) ys v m) [
          | inl (inl here) ↦ rw here e
          | inl (inr later) ↦ w.transitive y x v e (p.0 v later)
          | inr h ↦ q.0 v h
        ]),
        merged-Sorted w (x ∷ xs) ys p q.1,
      )
    ]

    -- Merge, where two stretches meet, leaves their merge in their place and the rest as it was.
    pub merge_lem :
        (before xs ys after : List A)
        → 0 < length xs
        → merge comp_fn
            (before ++ ((xs ++ ys) ++ after))
            (length before)
            (length before + length xs - 1)
            (length before + length xs + length ys - 1)
          ≡ before ++ (merged xs ys ++ after)
    unfolding merge
    merge_lem before xs ys after h =
        ap (λ l. merge_halves comp_fn l second_half (length before) cells) left
        ∙ ap (λ l. merge_halves comp_fn xs l (length before) cells) right
        ∙ copies_merged xs ys (length before) cells
        ∙ copy_over (merged xs ys) before (xs ++ ys) after
            (length-merged xs ys ∙ sym (length-append xs ys))
      where
        cells : List A
        cells = before ++ ((xs ++ ys) ++ after)

        m : ℕ
        m = length before + length xs - 1

        second_half : List A
        second_half = take (length before + length xs + length ys - 1 - m) (drop (m + 1) cells)

        left : take (m + 1 - length before) (drop (length before) cells) ≡ xs
        left =
            ap (take (m + 1 - length before)) (drop_append before ((xs ++ ys) ++ after))
            ∙ ap (λ n. take n ((xs ++ ys) ++ after)) {y = length xs} (omega arith)
            ∙ ap (take (length xs)) (append_assoc xs ys after)
            ∙ take_append xs (ys ++ after)

        right : second_half ≡ ys
        right =
            ap (λ n. take n (drop (m + 1) cells)) {y = length ys} (omega arith)
            ∙ ap (λ n. take (length ys) (drop n cells)) {y = length (before ++ xs)}
                (omega (arith, length-append before xs))
            ∙ ap (λ c. take (length ys) (drop (length (before ++ xs)) c))
                (ap (λ l. before ++ l) (append_assoc xs ys after)
                  ∙ sym (append_assoc before xs (ys ++ after)))
            ∙ ap (take (length ys)) (drop_append (before ++ xs) (ys ++ after))
            ∙ take_append ys after
