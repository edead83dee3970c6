-- ===== src/Permute/Laws.antt =====
-- The rows of the table.
use kushdb.Prelude.{
  ℕ, zero, suc, ◌+◌, ◌-◌, ◌≤◌, ◌<◌, ◌≡◌, refl, sym, ap, ◌∙◌, inl, inr, List, [], ◌∷◌, ◌++◌,
  append_assoc, arith, if◌then◌else◌, Bool-cases, length, set, length-append, get_or, replicate,
}
use kushdb.Permute.{has_bit, fill_row, fill_table, permutation_table, get_entry}

-- The bits of `i` that are set, of the `n` from `bit` on, in ascending order.
abbrev pub bits_of : ℕ → ℕ → ℕ → List ℕ
bits_of zero i bit = []
bits_of (suc n) i bit =
    let rest = bits_of n i (bit + 1) in if has_bit i bit then bit ∷ rest else rest

set_zero :
    (done : List ℕ) (m b : ℕ)
    → set (done ++ replicate (suc m) 0) (length done) b ≡ (done ++ (b ∷ [])) ++ replicate m 0
set_zero [] m b = refl
set_zero (d ∷ done) m b = ap (λ l. d ∷ l) (set_zero done m b)

fill_row_lem :
    (n m i bit : ℕ) (done : List ℕ)
    → n ≤ m
    → fill_row n i bit (length done) (done ++ replicate m 0)
      ≡ done ++ (bits_of n i bit ++ replicate (m - length (bits_of n i bit)) 0)
unfolding fill_row
fill_row_lem zero m i bit done h = ap (λ k. done ++ replicate k 0) {x = m} (omega arith)
fill_row_lem (suc n) zero i bit done h = absurd (omega arith)
fill_row_lem (suc n) (suc m) i bit done h = elim (Bool-cases (has_bit i bit)) [
  | inl b ↦ rw b (
      ap (fill_row n i (bit + 1) (length done + 1)) (set_zero done m bit)
      ∙ ap (λ k. fill_row n i (bit + 1) k ((done ++ (bit ∷ [])) ++ replicate m 0))
          (sym (length-append done (bit ∷ [])))
      ∙ fill_row_lem n m i (bit + 1) (done ++ (bit ∷ [])) (omega arith)
      ∙ append_assoc done (bit ∷ []) _
      ∙ ap (λ k. done ++ (bit ∷ (bits_of n i (bit + 1) ++ replicate k 0)))
          {x = m - length (bits_of n i (bit + 1))} (omega arith))
  | inr b ↦ rw b (fill_row_lem n (suc m) i (bit + 1) done (omega arith))
]

get_or-fill_table :
    (n start k : ℕ)
    → k < n
    → get_or (fill_table n start) k [] ≡ fill_row 8 (start + k) 0 0 (replicate 8 0)
unfolding fill_table
get_or-fill_table zero start k h = absurd (omega arith)
get_or-fill_table (suc n) start zero h =
    ap (λ i. fill_row 8 i 0 0 (replicate 8 0)) {x = start} {y = start + 0} (omega arith)
get_or-fill_table (suc n) start (suc k) h =
    get_or-fill_table n (start + 1) k (omega arith)
    ∙ ap (λ i. fill_row 8 i 0 0 (replicate 8 0)) {x = start + 1 + k} {y = start + suc k}
        (omega arith)

-- The entry of a byte lists its bits that are set, in ascending order, and zeros behind them.
pub get_entry_lem :
    (i : ℕ) → i < 256 → get_entry i ≡ bits_of 8 i 0 ++ replicate (8 - length (bits_of 8 i 0)) 0
unfolding get_entry permutation_table
get_entry_lem i h =
    get_or-fill_table 256 0 i h
    ∙ ap (λ k. fill_row 8 k 0 0 (replicate 8 0)) {x = 0 + i} {y = i} (omega arith)
    ∙ fill_row_lem 8 8 i 0 [] (omega arith)
