-- ===== src/Khir/Value.antt =====
-- khir/value.cc: the operands of instructions, an index and the flag of a global constant.
use kushdb.Prelude.{
  ℕ, zero, suc, ◌+◌, ◌-◌, ◌≤◌, ◌<◌, ◌≡◌, refl, sym, ap, ◌∙◌, ◌≢◌, inl, inr, Bool, true, false, ◌&&◌,
  ◌||◌, Option, none, some, arith, ℕ_discrete, ltb, leb, if◌then◌else◌, ltb→lt, lt→ltb, leb→le,
  ltb_of_le, ge_of_not_lt, Bool-cases,
}
use kushdb.Khir.Word.{Word, ones, narrow, bit_and, bit_or, shift_left}
use kushdb.Khir.Fields.{absorbs_true, absorbs_false}
use mathlib.Core.Path.{fun_ext}
use mathlib.Core.Option.{some-injective}

-- Whether one of the `n` bits from bit `lo` on is set. A word of 32 bits is greater than 0x7FFFFF if
-- one of its 9 bits from bit 23 on is, and is not 0 if one of its 32 bits is.
unfoldable pub any_set : ℕ → ℕ → Word → Bool
any_set lo zero x = false
any_set lo (suc n) x = x lo || any_set (lo + 1) n x

-- `1 << 23`
abbrev pub flag : Word
flag = shift_left (ones 1) 23

-- Value(idx, constant_global); `none` is the exception "Invalid idx".
unfoldable pub value : Word → Bool → Option Word
unfolding any_set
value idx constant_global =
    let idx_ = narrow 32 idx in
    if any_set 23 9 idx_ then none else some (if constant_global then bit_or idx_ flag else idx_)

unfoldable pub get_idx : Word → Word
get_idx idx_ = narrow 32 (bit_and idx_ (ones 23))

unfoldable pub is_constant_global : Word → Bool
unfolding any_set
is_constant_global idx_ = any_set 0 32 (bit_and idx_ flag)

none_set :
    (lo n : ℕ) (x : Word) → any_set lo n x ≡ false → (i : ℕ) → lo ≤ i → i < lo + n → x i ≡ false
unfolding any_set
none_set lo zero x h i a b = absurd (omega arith)
none_set lo (suc n) x h i a b = elim (ℕ_discrete lo i) [
  | yes e ↦ ap x (sym e) ∙ (neither (x lo) (any_set (lo + 1) n x) h).0
  | no e ↦
      none_set (lo + 1) n x (neither (x lo) (any_set (lo + 1) n x) h).1 i (omega arith)
        (omega arith)
]
  where
    neither : (a b : Bool) → (a || b) ≡ false → (a ≡ false) × (b ≡ false)
    neither a b h = ground arith

all_clear : (lo n : ℕ) (x : Word) → ((i : ℕ) → lo ≤ i → x i ≡ false) → any_set lo n x ≡ false
unfolding any_set
all_clear lo zero x h = refl
all_clear lo (suc n) x h =
    rw (h lo (omega arith)) (all_clear (lo + 1) n x (λ i a. h i (omega arith)))

only_set :
    (lo n k : ℕ) (x : Word)
    → lo ≤ k
    → k < lo + n
    → ((i : ℕ) → i ≢ k → x i ≡ false)
    → any_set lo n x ≡ x k
unfolding any_set
only_set lo zero k x a b h = absurd (omega arith)
only_set lo (suc n) k x a b h = elim (ℕ_discrete lo k) [
  | yes e ↦
      rw (all_clear (lo + 1) n x (λ i a. h i (λ q. omega (arith, q, e)))) (or_false (x lo) ∙ ap x e)
  | no e ↦ rw (h lo e) (only_set (lo + 1) n k x (omega arith) (omega arith) h)
]
  where
    or_false : (a : Bool) → (a || false) ≡ a
    or_false a = ground arith

and_flag : (v : Word) (i : ℕ) → i ≢ 23 → bit_and v flag i ≡ false
and_flag v i h = elim (Bool-cases (leb 23 i)) [
  | inl a ↦
      rw (a, ltb_of_le (i - 23) 1 (omega (arith, leb→le 23 i a, h)))
        (ap (λ b. v i && b) (absorbs_false (ltb i 64)) ∙ absorbs_false (v i))
  | inr a ↦ rw a (absorbs_false (v i))
]

is_constant_global-flag : (v : Word) → is_constant_global v ≡ v 23
unfolding is_constant_global
is_constant_global-flag v =
    only_set 0 32 23 (bit_and v flag) (omega arith) (omega arith) (and_flag v) ∙ absorbs_true (v 23)

flag_clear : (i : ℕ) → i ≢ 23 → flag i ≡ false
flag_clear i h = and_flag (λ _. true) i h

-- An index of 23 bits, with the flag above them or without.
module _ (x : Word) (clear : (i : ℕ) → 23 ≤ i → x i ≡ false) where
  abbrev flagged : Bool → Word
  flagged b = if b then bit_or x flag else x

  low_bits : (b : Bool) (i : ℕ) → i < 23 → flagged b i ≡ x i
  low_bits true i h = rw (flag_clear i (λ e. omega (arith, e))) (or_false (x i))
    where
      or_false : (a : Bool) → (a || false) ≡ a
      or_false a = ground arith
  low_bits false i h = refl

  high_bits : (b : Bool) (i : ℕ) → 24 ≤ i → flagged b i ≡ false
  high_bits true i h = rw (clear i (omega arith), flag_clear i (λ e. omega (arith, e)))
  high_bits false i h = clear i (omega arith)

  get_idx-flagged : (b : Bool) → get_idx (flagged b) ≡ x
  unfolding get_idx
  get_idx-flagged b = fun_ext (λ i. elim (Bool-cases (ltb i 23)) [
    | inl h ↦
        rw (low_bits b i (ltb→lt i 23 h), h, lt→ltb i 32 (omega (arith, ltb→lt i 23 h)))
          (absorbs_true (x i))
    | inr h ↦
        rw (h, clear i (ge_of_not_lt i 23 h), absorbs_false (flagged b i))
          (absorbs_false (ltb i 32))
  ])

  is_constant_global-flagged : (b : Bool) → is_constant_global (flagged b) ≡ b
  is_constant_global-flagged b = is_constant_global-flag (flagged b) ∙ bit b
    where
      bit : (b : Bool) → flagged b 23 ≡ b
      bit true = rw (clear 23 (omega arith))
      bit false = clear 23 (omega arith)

  narrow-flagged : (b : Bool) → narrow 24 (flagged b) ≡ flagged b
  narrow-flagged b = fun_ext (λ i. elim (Bool-cases (ltb i 24)) [
    | inl h ↦ rw h
    | inr h ↦ rw (h, high_bits b i (ge_of_not_lt i 24 h))
  ])

clear_index :
    (idx : Word) → any_set 23 9 (narrow 32 idx) ≡ false → (i : ℕ) → 23 ≤ i → narrow 32 idx i ≡ false
clear_index idx h i a = elim (Bool-cases (ltb i 32)) [
  | inl b ↦ none_set 23 9 (narrow 32 idx) h i a (ltb→lt i 32 b)
  | inr b ↦ rw b
]

accepted :
    (bad : Bool) (w v : Word) → (if bad then none else some w) ≡ some v → (bad ≡ false) × (w ≡ v)
accepted true w v h = cc
accepted false w v h = (refl, some-injective w v h)

-- A value that the constructor accepts has the index and the flag that it was given, and passes
-- unchanged through a 24-bit argument of an instruction.
pub value-parts :
    (idx : Word) (b : Bool) (v : Word)
    → value idx b ≡ some v
    → (get_idx v ≡ narrow 32 idx) × (is_constant_global v ≡ b) × (narrow 24 v ≡ v)
unfolding value
value-parts idx b v h =
    let (good, e) = accepted (any_set 23 9 (narrow 32 idx)) _ v h in
    let c = clear_index idx good in
    rw (sym e) (
      get_idx-flagged (narrow 32 idx) c b,
      is_constant_global-flagged (narrow 32 idx) c b,
      narrow-flagged (narrow 32 idx) c b,
    )
