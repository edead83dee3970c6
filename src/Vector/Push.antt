-- ===== src/Vector/Push.antt =====
-- PushBack makes room for one element more, and keeps those that are there.
use kushdb.Prelude.{
  ℕ, zero, suc, ◌^◌, some, ◌+◌, ◌*◌, ◌≤◌, ◌<◌, ◌≡◌, refl, ap, ◌∙◌, inl, inr, List, [], ◌∷◌, ◌++◌,
  arith, ◌==◌, ==_iff, ==_ne, Bool-cases, length, set, length-append, length-set, take, drop,
  length-take, take-set, length-drop,
}
use kushdb.Prelude.Int.{double_int32-some}
use kushdb.Vector.{contents, Vector, create, grow, push_back}

pub record IsValid {A : Type 0} (vec : Vector A) : Type 0 where
  pub memory : length vec.cells ≡ vec.capacity
  pub within : vec.size ≤ vec.capacity
  pub room : 0 < vec.capacity

-- The vector once the caller has written the element at the place it was given.
abbrev pub written : {A : Type 0} → Vector A → ℕ → A → Vector A
written vec idx x = record vec { cells = set vec.cells idx x }

-- What the allocator hands out has the length asked for.
module _ {A : Type 0} (fresh : ℕ → List A) (exact : (n : ℕ) → length (fresh n) ≡ n) where
  pub create-IsValid : (n : ℕ) → 0 < n → IsValid (create fresh n)
  unfolding create
  create-IsValid n h = record { memory = exact n; within = omega arith; room = h }

  grow-IsValid : (vec : Vector A) → IsValid vec → IsValid (grow fresh vec (2 * vec.capacity))
  unfolding grow
  grow-IsValid vec v = record {
    memory = omega (
      arith,
      length-append (take (2 * vec.capacity) vec.cells)
          (drop vec.capacity (fresh (2 * vec.capacity))),
      length-take (2 * vec.capacity) vec.cells,
      length-drop vec.capacity (fresh (2 * vec.capacity)),
      exact (2 * vec.capacity),
      v.memory,
    );
    within = omega (arith, v.within);
    room = omega (arith, v.room);
  }

  take-within : (n : ℕ) (xs ys : List A) → n ≤ length xs → take n (xs ++ ys) ≡ take n xs
  take-within zero xs ys h = refl
  take-within (suc n) [] ys h = absurd (omega arith)
  take-within (suc n) (x ∷ xs) ys h = ap (λ l. x ∷ l) (take-within n xs ys (omega arith))

  take-all : (n : ℕ) (xs : List A) → length xs ≤ n → take n xs ≡ xs
  take-all zero [] h = refl
  take-all zero (x ∷ xs) h = absurd (omega arith)
  take-all (suc n) [] h = refl
  take-all (suc n) (x ∷ xs) h = ap (λ l. x ∷ l) (take-all n xs (omega arith))

  contents-grow :
      (vec : Vector A) → IsValid vec → contents (grow fresh vec (2 * vec.capacity)) ≡ contents vec
  unfolding grow
  contents-grow vec v =
      ap (λ l. take vec.size (l ++ drop vec.capacity (fresh (2 * vec.capacity))))
        (take-all (2 * vec.capacity) vec.cells (omega (arith, v.memory)))
      ∙ take-within vec.size vec.cells _ (omega (arith, v.memory, v.within))

  write_last :
      (vec : Vector A) (x : A)
      → IsValid vec
      → vec.size < vec.capacity
      → let vec' : Vector A = record vec {
        cells = set vec.cells vec.size x;
        size = vec.size + 1;
      } in
        IsValid vec' × (contents vec' ≡ contents vec ++ (x ∷ []))
  write_last vec x v h = (
    record {
      memory = omega (arith, length-set vec.cells vec.size x, v.memory);
      within = omega arith;
      room = v.room;
    },
    ap (λ n. take n (set vec.cells vec.size x)) {y = suc vec.size} (omega arith)
        ∙ take-set vec.cells vec.size x (omega (arith, v.memory)),
  )

  -- With an allocator that hands out as many elements as asked for, PushBack on a valid vector of
  -- a capacity below 2 ^ 30 gives a vector and a place for an element, and once the caller has
  -- written it there the vector is valid, and its elements are the old ones followed by the new
  -- one.
  pub push_back_lem :
      (vec : Vector A) (x : A)
      → IsValid vec
      → vec.capacity < 2 ^ 30
      → (vec' : Vector A) × (idx : ℕ) × (push_back fresh vec ≡ some (vec', idx))
        × IsValid (written vec' idx x)
        × (contents (written vec' idx x) ≡ contents vec ++ (x ∷ []))
  unfolding push_back grow
  push_back_lem vec x v small = elim (Bool-cases (vec.size == vec.capacity)) [
    | inl full ↦
        let e : vec.size ≡ vec.capacity = (==_iff vec.size vec.capacity).0 full in
        let (valid, same) =
          write_last (grow fresh vec (2 * vec.capacity)) x (grow-IsValid vec v)
            (omega (arith, e, v.room)) in
        (
          record (grow fresh vec (2 * vec.capacity)) { size = vec.size + 1 },
          vec.size,
          rw (full, double_int32-some vec.capacity small) refl,
          valid,
          same ∙ ap (λ l. l ++ (x ∷ [])) (contents-grow vec v),
        )
    | inr free ↦
        let (valid, same) =
          write_last vec x v (omega (arith, v.within, ==_ne vec.size vec.capacity free)) in
        (record vec { size = vec.size + 1 }, vec.size, rw free refl, valid, same)
  ]
