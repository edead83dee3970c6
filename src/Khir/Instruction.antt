-- ===== src/Khir/Instruction.antt =====
-- khir/instruction.cc: what the instruction formats share.
use kushdb.Prelude.{
  ℕ, ◌+◌, ◌-◌, ◌≤◌, ◌≡◌, sym, ap, ◌∙◌, inl, inr, Bool, true, false, ◌&&◌, ◌||◌, arith, ltb, leb,
  ltb→lt, lt→ltb, le→leb, ltb_of_le, ge_of_not_lt, Bool-cases,
}
use kushdb.Khir.Word.{Word, ones, narrow, bit_and, bit_or, bit_not, shift_left, shift_right}
use kushdb.Khir.Fields.{put-high, absorbs_false, absorbs_true, put, field}
use mathlib.Core.Path.{fun_ext}

-- An argument of type uint8_t is narrowed.
unfoldable pub set_metadata_impl : Word → Word → Word
set_metadata_impl value metadata =
    bit_or (bit_and value (bit_not (shift_left (ones 8) 56))) (shift_left (narrow 8 metadata) 56)

unfoldable pub set_opcode_impl : Word → Word → Word
set_opcode_impl value opcode = bit_or (bit_and value (bit_not (ones 8))) (narrow 8 opcode)

-- GenericInstructionReader::Opcode, and that of each format.
unfoldable pub opcode : Word → Word
opcode instr = narrow 8 (bit_and instr (ones 8))

-- Metadata of each format.
unfoldable pub metadata : Word → Word
metadata instr = narrow 8 (shift_right instr 56)

pub set_metadata_impl-put : (v m : Word) → set_metadata_impl v m ≡ put 56 8 v m
unfolding set_metadata_impl
set_metadata_impl-put v m = fun_ext (λ i.
    ap (λ t. bit_and v (bit_not (shift_left (ones 8) 56)) i || t)
      (reorder (leb 56 i) (ltb i 64) (ltb (i - 56) 8) (m (i - 56))))
  where
    reorder : (a b c d : Bool) → (a && (b && (c && d))) ≡ ((a && (b && d)) && (a && (b && c)))
    reorder a b c d = ground arith

low_mask : (i : ℕ) → shift_left (ones 8) 0 i ≡ ltb i 8
low_mask i = elim (Bool-cases (ltb i 8)) [
  | inl h ↦
      rw (le→leb 0 i (omega arith), lt→ltb i 64 (omega (arith, ltb→lt i 8 h)))
        (ap (λ k. ltb k 8) {y = i} (omega arith))
  | inr h ↦
      rw (le→leb 0 i (omega arith), h, ltb_of_le (i - 0) 8 (omega (arith, ge_of_not_lt i 8 h)))
        (absorbs_false (ltb i 64))
]

pub set_opcode_impl-put : (v o : Word) → set_opcode_impl v o ≡ put 0 8 v o
unfolding set_opcode_impl
set_opcode_impl-put v o = fun_ext (λ i. elim (Bool-cases (ltb i 8)) [
  | inl h ↦
      rw (low_mask i, h, le→leb 0 i (omega arith), lt→ltb i 64 (omega (arith, ltb→lt i 8 h)))
        (ap (λ t. v i && false || t) (ap o (omega arith) ∙ sym (absorbs_true (o (i - 0)))))
  | inr h ↦
      rw (low_mask i, h)
        (ap (λ t. v i && (ltb i 64 && true) || t) (sym (absorbs_false (shift_left o 0 i))))
])

pub opcode-field : (v : Word) → opcode v ≡ field 0 8 v
unfolding opcode
opcode-field v =
    fun_ext (λ i. commute (ltb i 8) (v i) ∙ ap (λ k. v k && ltb i 8) {y = i + 0} (omega arith))
  where
    commute : (a b : Bool) → (a && (b && a)) ≡ (b && a)
    commute a b = ground arith

pub metadata-field : (v : Word) → metadata v ≡ field 56 8 v
unfolding metadata
metadata-field v = fun_ext (λ i. commute (ltb i 8) (v (i + 56)))
  where
    commute : (a b : Bool) → (a && b) ≡ (b && a)
    commute a b = ground arith

pub set_opcode_impl-high : (v o : Word) (i : ℕ) → 64 ≤ i → set_opcode_impl v o i ≡ false
set_opcode_impl-high v o i h =
    ap (λ (f : Word). f i) (set_opcode_impl-put v o) ∙ put-high 0 8 v o i h
