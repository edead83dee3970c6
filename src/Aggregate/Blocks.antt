-- ===== src/Aggregate/Blocks.antt =====
-- ComputeBlockIdx and ComputeBlockOffset number the places of the tuples.
use kushdb.Prelude.{ℕ, ◌+◌, ◌-◌, ◌*◌, ◌/◌, ◌%◌, ◌^◌, ◌∙◌, ◌≤◌, ◌<◌, ◌≡◌, ap, arith, dec_lt}
use kushdb.Prelude.Int.{pos, to_int32, to_int32-small}
use kushdb.Aggregate.{AggregateHashTable, block_size, compute_block_idx, compute_block_offset}
use native.Mathlib.Nat.{mod-lt, div-add-mod}

-- A multiple below the end is one whole multiple below it.
room_for : (q n p : ℕ) → q < n → q * p + p ≤ p * n
room_for q n p h = grind arith

some_fit : (p : ℕ) → 0 < p → p ≤ block_size → 0 < block_size / p
some_fit p a b = elim (dec_lt 0 (block_size / p)) [
  | yes h ↦ h
  | no h ↦
      let z : block_size / p ≡ 0 = omega arith in
      let m : block_size % p < p = mod-lt block_size a in
      absurd (omega (arith, m, b, div-add-mod block_size p, ap (λ k. p * k) z))
]

quotient_small : (q n r : ℕ) → 0 < n → q ≤ q * n + r
quotient_small q n r h = grind arith

-- For payloads that fit into a block, the tuple of an index below 2 ^ 31 - 1 lies in a block from 1
-- on, at a multiple of the size of a payload where one fits into the block, and the index is the
-- number of the tuples before it.
pub compute_block_lem :
    (ht : AggregateHashTable)
    → 0 < ht.payload_size
    → ht.payload_size ≤ block_size
    → (idx : ℕ) → idx < 2 ^ 31 - 1
    → (b q : ℕ) × (compute_block_idx ht idx ≡ pos b)
      × (compute_block_offset ht idx ≡ pos (q * ht.payload_size))
      × (1 ≤ b)
      × (q * ht.payload_size + ht.payload_size ≤ block_size)
      × ((b - 1) * (block_size / ht.payload_size) + q ≡ idx)
unfolding compute_block_idx compute_block_offset
compute_block_lem ht a b idx small =
    let p = ht.payload_size in
    let n : ℕ = block_size / p in
    let some : 0 < n = some_fit p a b in
    let less : idx % n < n = mod-lt idx some in
    let fits : idx % n * p + p ≤ block_size =
      omega (arith, room_for (idx % n) n p less, div-add-mod block_size p) in
    let split : idx / n * n + idx % n ≡ idx = omega (arith, div-add-mod idx n) in
    (
      idx / n + 1,
      idx % n,
      ap (λ i. to_int32 (i / n + 1)) uint32
          ∙ to_int32-small (idx / n + 1)
              (omega (arith, small, split, quotient_small (idx / n) n (idx % n) some)),
      ap (λ i. to_int32 (p * (i % n))) uint32
          ∙ ap to_int32 (commute p (idx % n))
          ∙ to_int32-small (idx % n * p) (omega (arith, fits)),
      omega arith,
      fits,
      ap (λ k. k * n + idx % n) (sub_one (idx / n)) ∙ split,
    )
  where
    sub_one : (k : ℕ) → k + 1 - 1 ≡ k
    sub_one k = omega arith

    commute : (k m : ℕ) → k * m ≡ m * k
    commute k m = omega arith

    uint32 : idx % 2 ^ 32 ≡ idx
    uint32 = omega (arith, small)
