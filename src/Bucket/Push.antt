-- ===== src/Bucket/Push.antt =====
-- BucketPushBack appends to the tuples of the bucket, whether or not its memory has to grow.
use kushdb.Prelude.{
  ℕ, suc, ◌^◌, some, refl, ◌*◌, ◌≤◌, ◌<◌, ◌≡◌, ap, ◌∙◌, inl, inr, true, List, [], ◌∷◌, ◌++◌, arith,
  ◌==◌, ==_iff, Bool-cases, length, set, length-append, length-set, take, drop, length-take,
  take-set, take-append_take, length-drop,
}
use kushdb.Prelude.Int.{double_int32-some}
use kushdb.Bucket.{Bucket, write_last, bucket_init, grow, bucket_push_back}

abbrev pub contents : Bucket → List ℕ
contents v = take v.size v.cells

pub record IsValid (v : Bucket) : Type 0 where
  pub memory : length v.cells ≡ v.capacity
  pub within : v.size ≤ v.capacity
  pub room : 0 < v.capacity

-- What the allocator hands out has the length asked for.
module _ (fresh : ℕ → List ℕ) (exact : (n : ℕ) → length (fresh n) ≡ n) where
  pub bucket_init-IsValid : IsValid (bucket_init fresh)
  unfolding bucket_init
  bucket_init-IsValid = record { memory = exact 4; within = omega arith; room = omega arith }

  grow-IsValid :
      (v : Bucket) → IsValid v → v.capacity ≡ v.size → IsValid (grow fresh v (2 * v.capacity))
  unfolding grow
  grow-IsValid v h e = record {
    memory = omega (
      arith,
      length-append (take v.size v.cells) (drop v.size (fresh (2 * v.capacity))),
      length-take v.size v.cells,
      length-drop v.size (fresh (2 * v.capacity)),
      exact (2 * v.capacity),
      h.memory,
      h.within,
    );
    within = omega (arith, h.within);
    room = omega (arith, h.room);
  }

  contents-grow : (v : Bucket) → IsValid v → contents (grow fresh v (2 * v.capacity)) ≡ contents v
  unfolding grow
  contents-grow v h = take-append_take v.size v.cells _ (omega (arith, h.memory, h.within))

  -- The bucket that BucketPushBack writes to: the old one, or the grown one.
  push_into :
      (v : Bucket) (idx : ℕ)
      → IsValid v
      → v.size < v.capacity
      → IsValid (write_last fresh v idx)
        × (contents (write_last fresh v idx) ≡ contents v ++ (idx ∷ []))
  push_into v idx h room = (
    record {
      memory = omega (arith, length-set v.cells v.size idx, h.memory);
      within = omega arith;
      room = h.room;
    },
    ap (λ n. take n (set v.cells v.size idx)) {y = suc v.size} (omega arith)
        ∙ take-set v.cells v.size idx (omega (arith, h.memory)),
  )

  -- With an allocator that hands out as many words as asked for, BucketPushBack on a valid bucket
  -- of a capacity below 2 ^ 30 gives a valid bucket, and its tuples are the old ones followed by
  -- the new one, whether or not the memory grows.
  pub bucket_push_back_lem :
      (v : Bucket) (idx : ℕ)
      → IsValid v
      → v.capacity < 2 ^ 30
      → (v' : Bucket) × (bucket_push_back fresh v idx ≡ some v')
        × IsValid v'
        × (contents v' ≡ contents v ++ (idx ∷ []))
  unfolding bucket_push_back grow
  bucket_push_back_lem v idx h small = elim (Bool-cases (v.capacity == v.size)) [
    | inl full ↦
        let (valid, e) =
          push_into (grow fresh v (2 * v.capacity)) idx (grow-IsValid v h (equal full))
            (doubled (equal full)) in
        (
          write_last fresh (grow fresh v (2 * v.capacity)) idx,
          rw (full, double_int32-some v.capacity small) refl,
          valid,
          e ∙ ap (λ l. l ++ (idx ∷ [])) (contents-grow v h),
        )
    | inr free ↦
        let (valid, e) = push_into v idx h (ground arith) in
        (write_last fresh v idx, rw free refl, valid, e)
  ]
    where
      equal : (v.capacity == v.size) ≡ true → v.capacity ≡ v.size
      equal e = (==_iff v.capacity v.size).0 e

      doubled : v.capacity ≡ v.size → v.size < 2 * v.capacity
      doubled e = omega (arith, h.room, e)
