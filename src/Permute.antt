-- ===== src/Permute.antt =====
-- util/permute.cc: for each byte, the positions of its bits that are set, as the 8 lanes of a vector.
mod Laws
mod Tests
use kushdb.Prelude.{
  ℕ, zero, suc, ◌+◌, ◌-◌, ◌*◌, ◌/◌, ◌%◌, ◌^◌, ◌≤◌, ◌<◌, ◌≡◌, refl, sym, ap, ◌∙◌, subst, ◌≢◌, ◌↔◌,
  ◌⊎◌, inl, inr, Bool, true, false, not, ◌&&◌, ◌||◌, Option, none, some, List, [], ◌∷◌, ◌++◌, map,
  reverse, reverse-append, append_assoc, append-nil, arith, dec_lt, ℕ_discrete, ltb, leb, ◌==◌,
  if◌then◌else◌, ltb→lt, lt→ltb, leb→le, le→leb, lt_of_not_leb, leb_of_lt, ltb_of_le, ge_of_not_lt,
  ==_iff, ==_ne, Bool-cases, Option-cases, length, get_elem?, set, length-append, length-set,
  get_or, take, drop, replicate, length-take, take-set, take-append_take, length-drop,
  length-replicate, length-map, Elem, Ascending, All, get_or-set_self, get_or-set_ne, Distinct,
  Elem-append, Elem-append_left, Elem-append_right, reverse-cons, Elem-reverse, reverse-Elem,
  Distinct-reverse, Distinct-apart, Distinct-append, Permᴰ-Elem, Permᴰ-Distinct, Permᴰ-length,
  Distinct-right, All-of_Elem, All-at, All-reverse,
}

-- `i & (1 << bit)`
abbrev pub has_bit : ℕ → ℕ → Bool
has_bit i bit = i / 2 ^ bit % 2 == 1

-- The loop over the bits from `bit` on; `n` is how many are left.
unfoldable pub fill_row : ℕ → ℕ → ℕ → ℕ → List ℕ → List ℕ
fill_row zero i bit next row = row
fill_row (suc n) i bit next row =
    let with_bit = fill_row n i (bit + 1) (next + 1) (set row next bit) in
    let without = fill_row n i (bit + 1) next row in if has_bit i bit then with_bit else without

-- The rows from `i` on.
unfoldable pub fill_table : ℕ → ℕ → List (List ℕ)
unfolding fill_row
fill_table zero i = []
fill_table (suc n) i = fill_row 8 i 0 0 (replicate 8 0) ∷ fill_table n (i + 1)

unfoldable pub permutation_table : List (List ℕ)
unfolding fill_table
permutation_table = fill_table 256 0

unfoldable pub get_entry : ℕ → List ℕ
unfolding permutation_table
get_entry i = get_or permutation_table i []
