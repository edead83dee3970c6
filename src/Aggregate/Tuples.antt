-- ===== src/Aggregate/Tuples.antt =====
-- The places of the tuples in the payload blocks, in the order in which Resize goes through them.
use kushdb.Prelude.{
  ℕ, zero, suc, ◌+◌, ◌-◌, ◌*◌, ◌%◌, ◌^◌, ◌≤◌, ◌<◌, ◌≡◌, ap, subst, inl, inr, Bool, true, false,
  List, [], ◌∷◌, ◌++◌, arith, ℕ_discrete, ltb, leb, ◌==◌, if◌then◌else◌, lt→ltb, le→leb, Elem,
  Elem-append, Elem-append_left, Elem-append_right,
}
use kushdb.Aggregate.{AggregateHashTable, block_size, construct_entry}

-- A place in the payload blocks: the block and the offset in it.
abbrev pub Tuple : Type 0
Tuple = ℕ × ℕ

-- The places that the loops of Resize go through.
abbrev pub block_tuples : ℕ → ℕ → ℕ → ℕ → ℕ → List Tuple
block_tuples zero payload_size block_idx end block_offset = []
block_tuples (suc fuel) payload_size block_idx end block_offset =
    let rest = block_tuples fuel payload_size block_idx end (block_offset + payload_size) in
    if leb (block_offset + payload_size) end then ((block_idx, block_offset) ∷ rest) else []

abbrev pub block_end : AggregateHashTable → ℕ → ℕ
block_end ht block_idx =
    if block_idx == ht.payload_block_size - 1 then ht.last_payload_offset else block_size

-- The places of `n` blocks, from one on.
abbrev pub table_tuples : ℕ → AggregateHashTable → ℕ → List Tuple
table_tuples zero ht block_idx = []
table_tuples (suc n) ht block_idx =
    block_tuples (block_end ht block_idx + 1) ht.payload_size block_idx (block_end ht block_idx) 0
    ++ table_tuples n ht (block_idx + 1)

block_tuples-block : (fuel p b e o : ℕ) (t : Tuple) → Elem t (block_tuples fuel p b e o) → t.0 ≡ b
block_tuples-block zero p b e o t m = absurd m
block_tuples-block (suc fuel) p b e o t m =
    go (leb (o + p) e) m (block_tuples-block fuel p b e (o + p) t)
  where
    go :
        (c : Bool)
        → Elem t (if c then ((b, o) ∷ block_tuples fuel p b e (o + p)) else [])
        → (Elem t (block_tuples fuel p b e (o + p)) → t.0 ≡ b)
        → t.0 ≡ b
    go true (inl k) f = ap (λ (x : Tuple). x.0) k
    go true (inr k) f = f k
    go false k f = absurd k

pub table_tuples-block :
    (n : ℕ) (ht : AggregateHashTable) (b : ℕ) (t : Tuple)
    → Elem t (table_tuples n ht b)
    → (b ≤ t.0) × (t.0 < b + n)
table_tuples-block zero ht b t m = absurd m
table_tuples-block (suc n) ht b t m =
    elim (Elem-append t (block_tuples (block_end ht b + 1) ht.payload_size b (block_end ht b) 0)
      (table_tuples n ht (b + 1)) m) [
        | inl k ↦
            let e =
              block_tuples-block (block_end ht b + 1) ht.payload_size b (block_end ht b) 0 t k in
            (omega (arith, e), omega (arith, e))
        | inr k ↦
            let h = table_tuples-block n ht (b + 1) t k in (omega (arith, h.0), omega (arith, h.1))
      ]

Elem-block_tuples :
    (fuel p b e q o : ℕ)
    → 0 < p
    → e < fuel + o
    → o + q * p + p ≤ e
    → Elem (b, o + q * p) (block_tuples fuel p b e o)
Elem-block_tuples zero p b e q o a h k = absurd (omega (arith, a, h, k))
Elem-block_tuples (suc fuel) p b e zero o a h k =
    rw (le→leb (o + p) e (omega arith)) (inl (ap (λ x. (b, x)) (omega arith)))
Elem-block_tuples (suc fuel) p b e (suc q) o a h k =
    let same : o + p + q * p ≡ o + suc q * p = omega arith in
    rw (le→leb (o + p) e (omega (arith, k))) (
      inr (
        subst (λ x. Elem (b, x) (block_tuples fuel p b e (o + p))) same
          (Elem-block_tuples fuel p b e q (o + p) a (omega (arith, h, a))
            (omega (arith, k, same)))))

pub Elem-table_tuples :
    (n : ℕ) (ht : AggregateHashTable) (start b q : ℕ)
    → 0 < ht.payload_size
    → start ≤ b
    → b < start + n
    → q * ht.payload_size + ht.payload_size ≤ block_end ht b
    → Elem (b, q * ht.payload_size) (table_tuples n ht start)
Elem-table_tuples zero ht start b q p a c k = absurd (omega arith)
Elem-table_tuples (suc n) ht start b q p a c k = elim (ℕ_discrete start b) [
  | yes e ↦ rw e (
      Elem-append_left (b, q * ht.payload_size)
        (block_tuples (block_end ht b + 1) ht.payload_size b (block_end ht b) 0)
        (table_tuples n ht (b + 1))
        (subst
          (λ x.
            Elem (b, x) (block_tuples (block_end ht b + 1) ht.payload_size b (block_end ht b) 0))
          (zero_add (q * ht.payload_size))
          (Elem-block_tuples (block_end ht b + 1) ht.payload_size b (block_end ht b) q 0 p
            (omega arith) (omega (arith, k)))))
  | no e ↦
      Elem-append_right (b, q * ht.payload_size)
        (block_tuples (block_end ht start + 1) ht.payload_size start (block_end ht start) 0)
        (table_tuples n ht (start + 1))
        (Elem-table_tuples n ht (start + 1) b q p (omega arith) (omega arith) k)
]
  where
    zero_add : (x : ℕ) → 0 + x ≡ x
    zero_add x = omega arith

pub entry_taken :
    (salt o b : ℕ) → 0 < b → b < 2 ^ 32 → ltb 0 (construct_entry salt o b % 2 ^ 32) ≡ true
entry_taken salt o b p h = lt→ltb 0 (construct_entry salt o b % 2 ^ 32) (omega arith)
