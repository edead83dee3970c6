-- ===== src/Join/Tuple.antt =====
-- JoinEnvironment::ComputeLastCompletedTuple and the loops that it shares with JoinState: a tuple
-- is a vector of row numbers, one for each table. Every cardinality is positive, since
-- ExecutePermutableSkinnerJoin and ExecuteRecompilingSkinnerJoin return where one is 0, so the
-- int32_t row numbers and `cardinalities[table] - 1` are natural numbers.
use kushdb.Prelude.{
  ℕ, suc, zero, ◌+◌, ◌-◌, Bool, true, false, List, [], ◌∷◌, reverse, Option, none, some, set,
  get_or, length, drop, replicate, ◌==◌, if◌then◌else◌,
}
use kushdb.Prelude.Int.{ℤ, negsuc}

infixl 90 ◌!◌
abbrev pub ◌!◌ : List ℕ → ℕ → ℕ
v ! t = get_or v t 0

-- `last_completed_tuple[table] = value(table)` for the tables given.
unfoldable pub fill : (ℕ → ℕ) → List ℕ → List ℕ → List ℕ
fill value [] v = v
fill value (t ∷ ts) v = fill value ts (set v t (value t))

module _ (cards : List ℕ) where
  abbrev pub last_row : ℕ → ℕ
  last_row t = cards ! t - 1

  -- The decrement by 1, from the last table of the order to the first: the list is the order
  -- reversed.
  unfoldable pub decrement : List ℕ → List ℕ → List ℕ
  decrement [] v = v
  decrement (t ∷ ts) v =
      let borrow = decrement ts (set v t (last_row t)) in
      if v ! t == 0 then borrow else set v t (v ! t - 1)

  -- The decrement of GetLastCompletedTupleIdx, which gives up where the first table would borrow.
  unfoldable pub try_decrement : List ℕ → List ℕ → Option (List ℕ)
  try_decrement [] v = some v
  try_decrement (t ∷ []) v = if v ! t == 0 then none else some (set v t (v ! t - 1))
  try_decrement (t ∷ u ∷ ts) v =
      let borrow = try_decrement (u ∷ ts) (set v t (last_row t)) in
      if v ! t == 0 then borrow else some (set v t (v ! t - 1))

-- `table_ctr_idx + 1`: the number of tables up to the last `table_ctr` of the order, or 0.
unfoldable pub after_ctr : ℕ → ℕ → ℕ → List ℕ → ℕ
after_ctr table_ctr i found [] = found
after_ctr table_ctr i found (t ∷ ts) =
    after_ctr table_ctr (i + 1) (if table_ctr == t then i + 1 else found) ts

-- `status == -2`: the budget ran out in the middle of a row of `table_ctr`.
abbrev pub should_decrement : ℤ → Bool
should_decrement (negsuc (suc zero)) = true
should_decrement _ = false

unfoldable pub compute_last_completed_tuple : List ℕ → List ℕ → ℤ → ℕ → List ℕ → List ℕ
unfolding fill decrement after_ctr
compute_last_completed_tuple order cards status table_ctr idx_arr =
    let current = fill (λ t. idx_arr ! t) order (replicate (length order) 0) in
    let later = drop (after_ctr table_ctr 0 0 order) order in
    if should_decrement status
    then decrement cards (reverse order) (fill (λ _. 0) later current)
    else fill (last_row cards) later current
