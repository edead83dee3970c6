-- ===== src/Aggregate/Tests.antt =====
-- A table of three tuples in two blocks.
use kushdb.Prelude.{ℕ, ◌+◌, ◌-◌, ◌*◌, ◌%◌, ◌^◌, ◌≤◌, ◌≡◌, refl, [], ◌∷◌, arith, length, replicate}
use kushdb.Prelude.Int.{negsuc, pos, ◌*ℤ◌, ◌+ℤ◌}
use kushdb.Aggregate.{
  AggregateHashTable, compute_block_idx, compute_block_offset, construct_entry, block_size, resize,
  table_size, init, allocate_new_page,
}
use kushdb.Aggregate.Blocks.{compute_block_lem}
use kushdb.Aggregate.Found.{Found, entry_of}
use kushdb.Aggregate.Resize.{resize-Found}

-- Payloads of 2048 bytes, two to a block. A capacity of 4 keeps the test small.
abbrev three : AggregateHashTable
three = record {
  payload_hash_offset = 0;
  size = 3;
  capacity = 4;
  mask = 3;
  payload_block_capacity = 4;
  entries = replicate 4 0;
  payload_block_size = 3;
  last_payload_offset = 2048;
  payload_size = 2048;
}

-- All hashes meet at place 5.
abbrev hash_at : ℕ → ℕ → ℕ
hash_at b o = 7 * 2 ^ 48 + 13

size_of_three : table_size three ≡ pos 3
unfolding table_size ◌*ℤ◌ ◌+ℤ◌
size_of_three = refl

three_resized :
    (resize hash_at three).entries
    ≡ 0
      ∷ 0
      ∷ 0
      ∷ 0
      ∷ 0
      ∷ construct_entry 7 0 1
      ∷ construct_entry 7 2048 1
      ∷ construct_entry 7 0 2
      ∷ []
unfolding resize
three_resized = refl

resize-Found_example :
    (length (resize hash_at three).entries ≡ (resize hash_at three).capacity)
    × Found
        (resize hash_at three).entries
        (hash_at 1 2048 % (resize hash_at three).capacity)
        (entry_of hash_at (1, 2048))
resize-Found_example =
    resize-Found hash_at three (omega arith) (omega arith) (omega arith) 1 1 (omega arith)
      (omega arith) (omega arith)

compute_block_example :
    (b q : ℕ) × (compute_block_idx three 2 ≡ pos b)
    × (compute_block_offset three 2 ≡ pos (q * 2048))
    × (1 ≤ b)
    × (q * 2048 + 2048 ≤ block_size)
    × ((b - 1) * 2 + q ≡ 2)
compute_block_example = compute_block_lem three (omega arith) (omega arith) 2 (omega arith)

-- One tuple to a block, and an index whose block is no int32_t.
negative_block :
    compute_block_idx (record three { payload_size = 4096 }) (2 ^ 31 - 1) ≡ negsuc (2 ^ 31 - 1)
unfolding compute_block_idx
negative_block = refl

second_page : table_size (allocate_new_page (init 2048 0)) ≡ pos 2
unfolding table_size allocate_new_page init ◌*ℤ◌ ◌+ℤ◌
second_page = refl
