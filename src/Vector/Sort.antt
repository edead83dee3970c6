-- ===== src/Vector/Sort.antt =====
-- MergeSort and Sort: with as much fuel as there are elements the recursion ends by its own test.
use kushdb.Prelude.{
  take-append-drop, ℕ, zero, suc, ◌+◌, ◌-◌, ◌/◌, ◌≤◌, ◌<◌, ◌≡◌, refl, sym, ap, ◌∙◌, subst, Bool,
  List, [], ◌∷◌, ◌++◌, append_assoc, arith, dec_lt, le→leb, leb_of_lt, length, length-append, take,
  drop, length-take, length-drop,
}
use kushdb.Vector.{contents, Vector, merge, merge_sort, sort}
use kushdb.Vector.Merge.{
  Sorted, StrictWeak, merged, length-merged, merged-Perm, merged-Sorted, merge_lem, take_append,
  drop_append,
}
use mathlib.Core.List.{Permᴰ}
use mathlib.Core.List.Permᴰ

module _ {A : Type 0} (comp_fn : A → A → Bool) where
  -- What sorting makes of a stretch of the cells: the same elements in order.
  pub record Sorts (unsorted out : List A) : Type 0 where
    pub as_long : length out ≡ length unsorted
    pub same : Permᴰ out unsorted
    pub sorted : StrictWeak comp_fn → Sorted comp_fn out

  merged-Sorts :
      (xs ys left right : List A)
      → Sorts xs left
      → Sorts ys right
      → Sorts (xs ++ ys) (merged comp_fn left right)
  merged-Sorts xs ys left right s t = record {
    as_long =
        omega (arith, length-merged comp_fn left right, length-append xs ys, s.as_long, t.as_long);
    same =
        Permᴰ.trans (merged-Perm comp_fn left right)
          (Permᴰ.trans (Permᴰ.append_right right s.same) (Permᴰ.append_left xs t.same));
    sorted = λ w. merged-Sorted comp_fn w left right (s.sorted w) (t.sorted w);
  }

  -- The stretch of the cells between `before` and `after` is sorted in place.
  abbrev InPlace : (List A → List A) → List A → List A → List A → Type 0
  InPlace f before mid after =
      (out : List A) × (f (before ++ (mid ++ after)) ≡ before ++ (out ++ after)) × Sorts mid out

  short : (mid : List A) → length mid < 2 → Sorted comp_fn mid
  short [] h = tt
  short (x ∷ []) h = ((λ y m. absurd m), tt)
  short (x ∷ y ∷ mid) h = absurd (omega arith)

  abbrev half : ℕ → ℕ
  half n = (n - 1) / 2 + 1

  merge_sort_step :
      (fuel : ℕ) (cells : List A) (l m k stop : ℕ)
      → l + 1 < stop
      → m ≡ l + (stop - 1 - l) / 2
      → k ≡ m + 1
      → merge_sort comp_fn (suc fuel) cells l stop
        ≡ merge comp_fn
            (merge_sort comp_fn fuel (merge_sort comp_fn fuel cells l k) k stop)
            l
            m
            (stop - 1)
  unfolding merge_sort
  merge_sort_step fuel cells l m k stop h em ek = rw (ek, em) (rw (leb_of_lt stop (l + 1) h))

  module _ (fuel : ℕ) (before mid after xs ys : List A) where
    -- Both halves are sorted, one after the other, and merged.
    sort_halves :
        xs ++ ys ≡ mid
        → 2 ≤ length mid
        → length xs ≡ half (length mid)
        → InPlace
            (λ c. merge_sort comp_fn fuel c (length before) (length before + length xs))
            before
            xs
            (ys ++ after)
        → ((left : List A)
            → length left ≡ length xs
            → InPlace
                (λ c.
                  merge_sort comp_fn fuel c
                    (length (before ++ left))
                    (length (before ++ left) + length ys))
                (before ++ left)
                ys
                after)
        → InPlace
            (λ c. merge_sort comp_fn (suc fuel) c (length before) (length before + length mid))
            before
            mid
            after
    sort_halves e long split first second =
        let (left, el, sl) = first in
        let (right, er, sr) = second left sl.as_long in
        let l = length before in
        let k = length (before ++ left) in
        let m = l + length left - 1 in
        let ek : k ≡ l + length xs = omega (arith, length-append before left, sl.as_long) in
        let sum : length mid ≡ length xs + length ys = ap length (sym e) ∙ length-append xs ys in
        let stop : l + length mid ≡ k + length ys = omega (arith, ek, sum) in
        (
          merged comp_fn left right,
          merge_sort_step fuel (before ++ (mid ++ after)) l m k (l + length mid) (omega arith)
                (omega (arith, split, sl.as_long, ek)) (omega (arith, ek, split, sl.as_long))
              ∙ ap
                  (λ c.
                    merge comp_fn (merge_sort comp_fn fuel c k (l + length mid)) l m
                      (l + length mid - 1))
                  (ap (λ n. merge_sort comp_fn fuel (before ++ (mid ++ after)) l n) ek
                    ∙ ap (λ c. merge_sort comp_fn fuel (before ++ c) l (l + length xs))
                        (ap (λ c. c ++ after) (sym e) ∙ append_assoc xs ys after)
                    ∙ el
                    ∙ sym (append_assoc before left (ys ++ after)))
              ∙ ap
                  (λ n.
                    merge comp_fn (merge_sort comp_fn fuel ((before ++ left) ++ (ys ++ after)) k n)
                      l m (l + length mid - 1))
                  stop
              ∙ ap (λ c. merge comp_fn c l m (l + length mid - 1))
                  (er
                    ∙ append_assoc before left (right ++ after)
                    ∙ ap (λ c. before ++ c) (sym (append_assoc left right after)))
              ∙ ap (λ n. merge comp_fn (before ++ ((left ++ right) ++ after)) l m n)
                  {y = l + length left + length right - 1}
                  (omega (arith, sum, sl.as_long, sr.as_long))
              ∙ merge_lem comp_fn before left right after (omega (arith, split, sl.as_long)),
          subst (λ t. Sorts t (merged comp_fn left right)) e (merged-Sorts xs ys left right sl sr),
        )

  half_fits : (n : ℕ) → 2 ≤ n → half n ≤ n
  half_fits n h = omega arith

  merge_sort_stop :
      (fuel : ℕ) (cells : List A) (l stop : ℕ)
      → stop ≤ l + 1
      → merge_sort comp_fn fuel cells l stop ≡ cells
  unfolding merge_sort
  merge_sort_stop zero cells l stop h = refl
  merge_sort_stop (suc fuel) cells l stop h = rw (le→leb stop (l + 1) h)

  pub merge_sort-InPlace :
      (fuel : ℕ) (before mid after : List A)
      → length mid ≤ fuel
      → InPlace
          (λ c. merge_sort comp_fn fuel c (length before) (length before + length mid))
          before
          mid
          after
  merge_sort-InPlace zero before mid after h = (
    mid,
    merge_sort_stop zero _ _ _ (omega arith),
    record { as_long = refl; same = Permᴰ.refl mid; sorted = λ w. short mid (omega arith) },
  )
  merge_sort-InPlace (suc fuel) before mid after h = elim (dec_lt (length mid) 2) [
    | yes few ↦ (
      mid,
      merge_sort_stop (suc fuel) _ _ _ (omega arith),
      record { as_long = refl; same = Permᴰ.refl mid; sorted = λ w. short mid few },
    )
    | no more ↦
        let n = half (length mid) in
        let left : length (take n mid) ≡ n =
          omega (arith, length-take n mid, half_fits (length mid) (omega arith)) in
        sort_halves fuel before mid after (take n mid) (drop n mid) (take-append-drop n mid)
          (omega arith) left
          (merge_sort-InPlace fuel before (take n mid) (drop n mid ++ after) (omega (arith, left)))
          (λ l e.
            merge_sort-InPlace fuel (before ++ l) (drop n mid) after
              (omega (arith, length-drop n mid)))
  ]

  sort-Sorts :
      (vec : Vector A)
      → vec.size ≤ length vec.cells
      → Sorts (contents vec) (contents (sort comp_fn vec))
        × (drop vec.size (sort comp_fn vec).cells ≡ drop vec.size vec.cells)
  unfolding sort
  sort-Sorts vec h =
      let mid = take vec.size vec.cells in
      let rest = drop vec.size vec.cells in
      let long : length mid ≡ vec.size = omega (arith, length-take vec.size vec.cells) in
      let (out, run, s) = merge_sort-InPlace vec.size [] mid rest (omega (arith, long)) in
      let done : merge_sort comp_fn vec.size vec.cells 0 vec.size ≡ out ++ rest =
        ap (λ c. merge_sort comp_fn vec.size c 0 vec.size)
          (sym (take-append-drop vec.size vec.cells))
        ∙ ap (λ n. merge_sort comp_fn vec.size (mid ++ rest) 0 n) {y = 0 + length mid}
            (omega (arith, long))
        ∙ run in
      let size : length out ≡ vec.size = s.as_long ∙ long in
      rw done (
        subst (Sorts mid) (sym (ap (λ n. take n (out ++ rest)) (sym size) ∙ take_append out rest))
            s,
        ap (λ n. drop n (out ++ rest)) (sym size) ∙ drop_append out rest,
      )

  -- Sort permutes the elements of a vector, and leaves its size, its capacity and the cells behind
  -- its elements as they were, whatever the comparison says.
  pub sort-Permᴰ :
      (vec : Vector A)
      → vec.size ≤ length vec.cells
      → Permᴰ (contents (sort comp_fn vec)) (contents vec)
        × ((sort comp_fn vec).size ≡ vec.size)
        × ((sort comp_fn vec).capacity ≡ vec.capacity)
        × (drop vec.size (sort comp_fn vec).cells ≡ drop vec.size vec.cells)
  unfolding sort
  sort-Permᴰ vec h = let (s, rest) = sort-Sorts vec h in (s.same, refl, refl, rest)

  -- Where the comparison is a strict weak order, no element of the sorted vector goes before one
  -- that stands earlier.
  pub sort-Sorted :
      StrictWeak comp_fn
      → (vec : Vector A) → vec.size ≤ length vec.cells
      → Sorted comp_fn (contents (sort comp_fn vec))
  sort-Sorted w vec h = (sort-Sorts vec h).0.sorted w
