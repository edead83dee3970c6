-- ===== src/Aggregate/Resize.antt =====
-- Resize gives every tuple of the payload blocks an entry that probing from its hash comes to.
use kushdb.Prelude.{
  ℕ, zero, suc, ◌+◌, ◌-◌, ◌*◌, ◌%◌, ◌^◌, ◌≤◌, ◌<◌, ◌≡◌, refl, sym, ap, ◌∙◌, subst, List, [], ◌∷◌,
  ◌++◌, arith, length, replicate, length-replicate,
}
use kushdb.Aggregate.{AggregateHashTable, resize_blocks, resize}
use kushdb.Aggregate.Probe.{taken}
use kushdb.Aggregate.Tuples.{
  Tuple, block_tuples, block_end, table_tuples, table_tuples-block, Elem-table_tuples, entry_taken,
}
use kushdb.Aggregate.Found.{Found, entry_of, place_all, resize_block-place_all, place_all-FoundAll}

module _ (hash_at : ℕ → ℕ → ℕ) where
  place_all-append :
      (ts us : List Tuple) (es : List ℕ)
      → place_all hash_at (ts ++ us) es ≡ place_all hash_at us (place_all hash_at ts es)
  place_all-append [] us es = refl
  place_all-append (t ∷ ts) us es = place_all-append ts us _

  resize_blocks-place_all :
      (n : ℕ) (ht : AggregateHashTable) (b : ℕ) (es : List ℕ)
      → resize_blocks hash_at n ht b es ≡ place_all hash_at (table_tuples n ht b) es
  unfolding resize_blocks
  resize_blocks-place_all zero ht b es = refl
  resize_blocks-place_all (suc n) ht b es =
      resize_blocks-place_all n ht (b + 1) _
      ∙ ap (place_all hash_at (table_tuples n ht (b + 1))) (
          resize_block-place_all hash_at (block_end ht b + 1) ht.payload_size b (block_end ht b) 0
            es)
      ∙ sym (
          place_all-append (block_tuples (block_end ht b + 1) ht.payload_size b (block_end ht b) 0)
            (table_tuples n ht (b + 1)) es)

taken-empty : (n : ℕ) → taken (replicate n 0) ≡ 0
unfolding taken
taken-empty zero = refl
taken-empty (suc n) = taken-empty n

module _ (hash_at : ℕ → ℕ → ℕ) (ht : AggregateHashTable) where
  -- Every tuple of the table, as Resize goes through the blocks.
  abbrev pub all_tuples : List Tuple
  all_tuples = table_tuples (ht.payload_block_size - 1) ht 1

  -- Where the doubled capacity, modulo 2 ^ 32, exceeds the number of tuples and there are at most
  -- 2 ^ 32 blocks, Resize leaves as many entries as the new capacity says, and each tuple that
  -- fits in the used part of a block, at a multiple of the positive size of a payload, has its
  -- entry where probing from its hash comes to.
  pub resize-Found :
      0 < ht.payload_size
      → ht.payload_block_size ≤ 2 ^ 32
      → length all_tuples < ht.capacity * 2 % 2 ^ 32
      → (block_idx q : ℕ) → 1 ≤ block_idx
      → block_idx < ht.payload_block_size
      → q * ht.payload_size + ht.payload_size ≤ block_end ht block_idx
      → (length (resize hash_at ht).entries ≡ (resize hash_at ht).capacity)
        × Found
            (resize hash_at ht).entries
            (hash_at block_idx (q * ht.payload_size) % (resize hash_at ht).capacity)
            (entry_of hash_at (block_idx, q * ht.payload_size))
  unfolding resize
  resize-Found size few enough block_idx q a b fits =
      let room = ht.capacity * 2 % 2 ^ 32 in
      let empty : List ℕ = replicate room 0 in
      let (l, found) =
        place_all-FoundAll hash_at room all_tuples [] empty (length-replicate room 0)
          (omega (arith, taken-empty room, enough))
          (λ t m.
            entry_taken _ t.1 t.0
              (omega (arith, (table_tuples-block (ht.payload_block_size - 1) ht 1 t m).0))
              (omega (arith, (table_tuples-block (ht.payload_block_size - 1) ht 1 t m).1, few)))
          (λ t m. absurd m) in
      let e = resize_blocks-place_all hash_at (ht.payload_block_size - 1) ht 1 empty in
      rw e (
        l,
        subst
            (λ n.
              Found (place_all hash_at all_tuples empty)
                (hash_at block_idx (q * ht.payload_size) % n)
                (entry_of hash_at (block_idx, q * ht.payload_size)))
            l
            (found (block_idx, q * ht.payload_size)
              (Elem-table_tuples (ht.payload_block_size - 1) ht 1 block_idx q size a
                (omega (arith, a, b)) fits)),
      )
