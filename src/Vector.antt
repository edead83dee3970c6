-- ===== src/Vector.antt =====
-- runtime/vector.cc: a growing array of elements of one size, and its merge sort. `data` is the list
-- of its elements, since every access copies whole elements; an element is of any type `A`. An
-- int32_t that counts elements is a native number.
mod Merge
mod Sort
mod Push
mod Tests
use kushdb.Prelude.{
  ℕ, zero, suc, ◌+◌, ◌-◌, ◌*◌, ◌/◌, ◌%◌, ◌^◌, ◌≤◌, ◌<◌, ◌≡◌, refl, sym, ap, ◌∙◌, subst, ◌≢◌, ◌↔◌,
  ◌⊎◌, inl, inr, Bool, true, false, not, ◌&&◌, ◌||◌, Option, none, some, List, [], ◌∷◌, ◌++◌, map,
  reverse, reverse-append, append_assoc, append-nil, arith, dec_lt, ℕ_discrete, ltb, leb, ◌==◌,
  if◌then◌else◌, ltb→lt, lt→ltb, leb→le, le→leb, lt_of_not_leb, leb_of_lt, ltb_of_le, ge_of_not_lt,
  ==_iff, ==_ne, Bool-cases, Option-cases, length, get_elem?, set, length-append, length-set,
  get_or, take, drop, replicate, length-take, take-set, take-append_take, length-drop,
  length-replicate, length-map, Elem, Ascending, All, get_or-set_self, get_or-set_ne, Distinct,
  Elem-append, Elem-append_left, Elem-append_right, reverse-cons, Elem-reverse, reverse-Elem,
  Distinct-reverse, Distinct-apart, Distinct-right, All-of_Elem, All-at, All-reverse,
}
use kushdb.Prelude.Int.{double_int32}

pub record Vector (A : Type 0) : Type 0 where
  pub cells : List A
  pub size : ℕ
  pub capacity : ℕ

module _ {A : Type 0} where
  abbrev pub contents : Vector A → List A
  contents vec = take vec.size vec.cells

  -- The elements of a fresh piece of memory are whatever the allocator left there.
  module _ (fresh : ℕ → List A) where
    unfoldable pub create : ℕ → Vector A
    create initial_capacity = record {
      cells = fresh initial_capacity;
      size = 0;
      capacity = initial_capacity;
    }

    -- realloc keeps the elements that fit.
    unfoldable pub grow : Vector A → ℕ → Vector A
    grow vec new_capacity = record vec {
      cells = take new_capacity vec.cells ++ drop vec.capacity (fresh new_capacity);
      capacity = new_capacity;
    }

    abbrev pub take_place : Vector A → Vector A × ℕ
    take_place vec = (record vec { size = vec.size + 1 }, vec.size)

    -- The vector, and the index of the element that the caller is to write. None where the doubled
    -- capacity is no int32_t.
    unfoldable pub push_back : Vector A → Option (Vector A × ℕ)
    unfolding grow
    push_back vec =
        if vec.size == vec.capacity
        then elim (double_int32 vec.capacity) [
          | none ↦ none
          | some new_capacity ↦ some (take_place (grow vec new_capacity))
        ]
        else some (take_place vec)

  -- A null pointer is no vector.
  unfoldable pub size : Option (Vector A) → ℕ
  size none = 0
  size (some vec) = vec.size

  -- The loops that copy what is left of one half, to the cells from `k` on.
  unfoldable pub copy_rest : List A → ℕ → List A → List A
  copy_rest [] k cells = cells
  copy_rest (x ∷ xs) k cells = copy_rest xs (k + 1) (set cells k x)

  module _ (comp_fn : A → A → Bool) where
    -- The loop over both halves: the elements of `v1` from `i` on, those of `v2` from `j` on.
    unfoldable pub merge_halves : List A → List A → ℕ → List A → List A
    unfolding copy_rest
    merge_halves [] ys k cells = copy_rest ys k cells
    merge_halves (x ∷ xs) [] k cells = copy_rest (x ∷ xs) k cells
    merge_halves (x ∷ xs) (y ∷ ys) k cells =
        let left = merge_halves xs (y ∷ ys) (k + 1) (set cells k x) in
        let right = merge_halves (x ∷ xs) ys (k + 1) (set cells k y) in
        if comp_fn x y then left else right

    unfoldable pub merge : List A → ℕ → ℕ → ℕ → List A
    unfolding merge_halves
    merge cells l m r =
        merge_halves (take (m + 1 - l) (drop l cells)) (take (r - m) (drop (m + 1) cells)) l cells

    -- `stop` is `r + 1`, since `r` is -1 for an empty vector.
    unfoldable pub merge_sort : ℕ → List A → ℕ → ℕ → List A
    unfolding merge
    merge_sort zero cells l stop = cells
    merge_sort (suc fuel) cells l stop =
        let m = l + (stop - 1 - l) / 2 in
        let left = merge_sort fuel cells l (m + 1) in
        let both = merge_sort fuel left (m + 1) stop in
        let merged = merge both l m (stop - 1) in if leb stop (l + 1) then cells else merged

    unfoldable pub sort : Vector A → Vector A
    unfolding merge_sort
    sort vec = record vec { cells = merge_sort vec.size vec.cells 0 vec.size }
