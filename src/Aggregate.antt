-- ===== src/Aggregate.antt =====
-- runtime/aggregate_hash_table.cc: the hash table of an aggregation. Its entries are words of 64
-- bits, as numbers; `hash & mask` is `hash % capacity`, since a capacity is a power of two or, when it
-- has wrapped around, 0, where there is no entry to read. What the
-- payload blocks hold is written by the program that a query compiles to: `hash_at` is the hash that
-- stands `payload_hash_offset` behind a place in a block.
mod Probe
mod Tuples
mod Found
mod Blocks
mod Resize
mod Tests
use kushdb.Prelude.{
  ℕ, zero, suc, ◌+◌, ◌-◌, ◌*◌, ◌/◌, ◌%◌, ◌^◌, ◌≤◌, ◌<◌, ◌≡◌, refl, sym, ap, ◌∙◌, subst, ◌≢◌, ◌↔◌,
  ◌⊎◌, inl, inr, Bool, true, false, not, ◌&&◌, ◌||◌, Option, none, some, List, [], ◌∷◌, ◌++◌, map,
  reverse, reverse-append, append_assoc, append-nil, arith, dec_lt, ℕ_discrete, ltb, leb, ◌==◌,
  if◌then◌else◌, ltb→lt, lt→ltb, leb→le, le→leb, lt_of_not_leb, leb_of_lt, ltb_of_le, ge_of_not_lt,
  ==_iff, ==_ne, Bool-cases, Option-cases, length, get_elem?, set, length-append, length-set,
  get_or, take, drop, replicate, length-take, take-set, take-append_take, length-drop,
  length-replicate, length-map, Elem, Ascending, All, get_or-set_self, get_or-set_ne, Distinct,
  Elem-append, Elem-append_left, Elem-append_right, reverse-cons, Elem-reverse, reverse-Elem,
  Distinct-reverse, Distinct-apart, Distinct-append, Permᴰ-Elem, Permᴰ-Distinct, Permᴰ-length,
  Distinct-right, All-of_Elem, All-at, All-reverse,
}
use kushdb.Prelude.Int.{pos, ltb_ℤ, wrap_int32, ◌*ℤ◌, ◌+ℤ◌, to_int32, ℤ}

abbrev pub block_size : ℕ
block_size = 4096

pub record AggregateHashTable : Type 0 where
  pub payload_hash_offset : ℕ
  pub size : ℕ
  pub capacity : ℕ
  pub mask : ℕ
  pub entries : List ℕ
  pub payload_block_capacity : ℕ
  pub payload_block_size : ℕ
  pub last_payload_offset : ℕ
  pub payload_size : ℕ

unfoldable pub init : ℕ → ℕ → AggregateHashTable
init payload_size payload_hash_offset = record {
  payload_hash_offset = payload_hash_offset;
  size = 0;
  capacity = 1024;
  mask = 1023;
  entries = replicate 1024 0;
  payload_block_capacity = 4;
  payload_block_size = 2;
  last_payload_offset = 0;
  payload_size = payload_size;
}

-- The array of the blocks doubles where it is full, and the blocks stay at their places.
unfoldable pub allocate_new_page : AggregateHashTable → AggregateHashTable
allocate_new_page ht =
    let full = ht.payload_block_size == ht.payload_block_capacity in
    record ht {
      payload_block_capacity =
          if full then ht.payload_block_capacity * 2 % 2 ^ 32 else ht.payload_block_capacity;
      payload_block_size = (ht.payload_block_size + 1) % 2 ^ 32;
      last_payload_offset = 0;
    }

-- The fields do not overlap, so `|` adds them.
abbrev pub construct_entry : ℕ → ℕ → ℕ → ℕ
construct_entry salt block_offset block_idx =
    salt % 2 ^ 16 * 2 ^ 48 + block_offset % 2 ^ 16 * 2 ^ 32 + block_idx % 2 ^ 32

-- `entries[entry_idx] & 0xFFFFFFFF`
abbrev pub is_taken : List ℕ → ℕ → Bool
is_taken entries i = ltb 0 (get_or entries i 0 % 2 ^ 32)

unfoldable pub probe : ℕ → List ℕ → ℕ → ℕ
probe zero entries i = i
probe (suc fuel) entries i =
    let next = probe fuel entries ((i + 1) % length entries) in
    if is_taken entries i then next else i

-- The entry of a tuple goes to the first place that is free, from the place of its hash on.
unfoldable pub place : List ℕ → ℕ → ℕ → List ℕ
unfolding probe
place entries hash entry =
    set entries (probe (length entries) entries (hash % length entries)) entry

module _ (hash_at : ℕ → ℕ → ℕ) where
  -- The loop over the tuples of a block, up to `end`.
  unfoldable pub resize_block : ℕ → ℕ → ℕ → ℕ → ℕ → List ℕ → List ℕ
  unfolding place
  resize_block zero payload_size block_idx end block_offset entries = entries
  resize_block (suc fuel) payload_size block_idx end block_offset entries =
      let hash = hash_at block_idx block_offset in
      let entry = construct_entry (hash / 2 ^ 48) block_offset block_idx in
      let rest =
        resize_block fuel payload_size block_idx end (block_offset + payload_size)
          (place entries hash entry) in
      if leb (block_offset + payload_size) end then rest else entries

  -- The loop over the blocks; `n` is `payload_block_size - block_idx`.
  unfoldable pub resize_blocks : ℕ → AggregateHashTable → ℕ → List ℕ → List ℕ
  unfolding resize_block
  resize_blocks zero ht block_idx entries = entries
  resize_blocks (suc n) ht block_idx entries =
      let end =
        if block_idx == ht.payload_block_size - 1 then ht.last_payload_offset else block_size in
      resize_blocks n ht (block_idx + 1)
        (resize_block (end + 1) ht.payload_size block_idx end 0 entries)

  unfoldable pub resize : AggregateHashTable → AggregateHashTable
  unfolding resize_blocks
  resize ht =
      let capacity = ht.capacity * 2 % 2 ^ 32 in
      record ht {
        entries = resize_blocks (ht.payload_block_size - 1) ht 1 (replicate capacity 0);
        capacity = capacity;
        mask = (capacity + (2 ^ 32 - 1)) % 2 ^ 32;
      }

-- The argument is a uint32_t, and the result an int32_t.
unfoldable pub compute_block_idx : AggregateHashTable → ℕ → ℤ
compute_block_idx ht idx = to_int32 (idx % 2 ^ 32 / (block_size / ht.payload_size) + 1)

unfoldable pub compute_block_offset : AggregateHashTable → ℕ → ℤ
compute_block_offset ht idx =
    to_int32 (ht.payload_size * (idx % 2 ^ 32 % (block_size / ht.payload_size)))

-- `full_blocks` is an int32_t, negative where there is no block. A product or sum of type int that
-- leaves it is undefined in C++, and wraps here.
abbrev pub full_blocks : AggregateHashTable → ℤ
full_blocks ht = to_int32 (ht.payload_block_size + (2 ^ 32 - 2))

unfoldable pub table_size : AggregateHashTable → ℤ
table_size ht =
    let tuples_per_block = pos (block_size / ht.payload_size) in
    let full =
      if ltb_ℤ (pos 0) (full_blocks ht) then full_blocks ht *ℤ tuples_per_block else pos 0 in
    wrap_int32 (full +ℤ pos (ht.last_payload_offset / ht.payload_size))
