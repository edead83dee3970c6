-- ===== src/Khir/Type2.antt =====
-- khir/instruction.cc: Type2InstructionBuilder and Type2InstructionReader. A builder is its `value_`,
-- a reader its `instr_`; metadata and opcode are those of all formats.
use kushdb.Prelude.{ℕ, ◌≤◌, ◌≡◌, refl, sym, ◌∙◌, false, List, [], ◌∷◌, arith}
use kushdb.Khir.Word.{Word, ones, narrow, bit_and, bit_or, bit_not, shift_left, shift_right}
use kushdb.Khir.Instruction.{
  set_metadata_impl, set_opcode_impl, set_metadata_impl-put, set_opcode_impl-put, opcode, metadata,
  opcode-field, metadata-field,
}
use kushdb.Khir.Fields.{put, field, put-narrow, put-high, narrow-field, Agree-step, Agree-whole}
use kushdb.Khir.Layout.{Format, IsLaid, run, last_set, read-run, field-rebuilt}

unfoldable pub set_arg0 : Word → Word → Word
set_arg0 value arg0 =
    let mask = shift_left (ones 24) 32 in
    bit_or (bit_and value (bit_not mask)) (bit_and (shift_left (narrow 32 arg0) 32) mask)

unfoldable pub arg0 : Word → Word
arg0 instr = narrow 32 (bit_and (shift_right instr 32) (ones 24))

unfoldable pub set_arg1 : Word → Word → Word
set_arg1 value arg1 =
    let mask = shift_left (ones 24) 8 in
    bit_or (bit_and value (bit_not mask)) (bit_and (shift_left (narrow 32 arg1) 8) mask)

unfoldable pub arg1 : Word → Word
arg1 instr = narrow 32 (bit_and (shift_right instr 8) (ones 24))

-- The parts of the word.
pub data Part : Type 0 where
  metadata_part arg0_part arg1_part opcode_part : Part

abbrev part_lo : Part → ℕ
part_lo metadata_part = 56
part_lo arg0_part = 32
part_lo arg1_part = 8
part_lo opcode_part = 0

abbrev part_width : Part → ℕ
part_width metadata_part = 8
part_width arg0_part = 24
part_width arg1_part = 24
part_width opcode_part = 8

-- The methods of the builder and of the reader.
abbrev setter : Part → Word → Word → Word
setter metadata_part = set_metadata_impl
setter arg0_part = set_arg0
setter arg1_part = set_arg1
setter opcode_part = set_opcode_impl

abbrev pub reader : Part → Word → Word
reader metadata_part = metadata
reader arg0_part = arg0
reader arg1_part = arg1
reader opcode_part = opcode

abbrev pub format : Format Part
format = record { lo = part_lo; width = part_width; set = setter; read = reader }

abbrev argument_size : Part → ℕ
argument_size metadata_part = 8
argument_size arg0_part = 32
argument_size arg1_part = 32
argument_size opcode_part = 8

setter-put :
    (p : Part) (v x : Word)
    → setter p v x ≡ put (part_lo p) (part_width p) v (narrow (argument_size p) x)
unfolding set_arg0 set_arg1
setter-put metadata_part v x = set_metadata_impl-put v x ∙ sym (put-narrow 56 8 v x)
setter-put arg0_part v x = refl
setter-put arg1_part v x = refl
setter-put opcode_part v x = set_opcode_impl-put v x ∙ sym (put-narrow 0 8 v x)

reader-field : (p : Part) (v : Word) → reader p v ≡ field (part_lo p) (part_width p) v
unfolding arg0 arg1
reader-field metadata_part v = metadata-field v
reader-field arg0_part v = narrow-field 32 32 24 v (omega arith)
reader-field arg1_part v = narrow-field 32 8 24 v (omega arith)
reader-field opcode_part v = opcode-field v

format-IsLaid : IsLaid format
format-IsLaid = record {
  argument = argument_size;
  one_place = λ p q h. ground arith;
  in_order = λ p q h. ground arith;
  inside = λ p. ground arith;
  fits = λ p. ground arith;
  sets = setter-put;
  reads = reader-field;
}

-- In format II, after any calls of the setters, in any order and on any word, each part is read as
-- it was set last, at its width, and a part that was not set is read as before.
pub type2_reads :
    (q : Part) (calls : List (Part × Word)) (v : Word)
    → reader q (run format calls v) ≡ last_set format q calls (reader q v)
type2_reads = read-run format format-IsLaid

-- A word with every part set, the opcode first.
abbrev pub built : Word → Word → Word → Word → Word → Word
built v m a b o = set_arg1 (set_arg0 (set_metadata_impl (set_opcode_impl v o) m) a) b

module _ (v w : Word) where
  abbrev calls : List (Part × Word)
  calls =
      (opcode_part, opcode w)
      ∷ (metadata_part, metadata w)
      ∷ (arg0_part, arg0 w)
      ∷ (arg1_part, arg1 w)
      ∷ []

  again : Word
  again = built v (metadata w) (arg0 w) (arg1 w) (opcode w)

  again-part :
      (p : Part) → field (part_lo p) (part_width p) again ≡ field (part_lo p) (part_width p) w
  unfolding again
  again-part metadata_part = field-rebuilt format format-IsLaid metadata_part calls v w refl
  again-part arg0_part = field-rebuilt format format-IsLaid arg0_part calls v w refl
  again-part arg1_part = field-rebuilt format format-IsLaid arg1_part calls v w refl
  again-part opcode_part = field-rebuilt format format-IsLaid opcode_part calls v w refl

  high_again : (i : ℕ) → 64 ≤ i → again i ≡ false
  unfolding again set_arg1
  high_again i h =
      put-high 8 24
        (set_arg0 (set_metadata_impl (set_opcode_impl v (opcode w)) (metadata w)) (arg0 w))
        (narrow 32 (arg1 w)) i h

  -- Building from the fields that are read gives back the word, all 64 bits of it.
  pub type2_rebuilds : built v (metadata w) (arg0 w) (arg1 w) (opcode w) ≡ narrow 64 w
  unfolding again
  type2_rebuilds =
      Agree-whole again w
        (Agree-step again w 56 8
          (Agree-step again w 32 24
            (Agree-step again w 8 24
              (Agree-step again w 0 8 (λ i h. absurd (omega arith)) (again-part opcode_part))
              (again-part arg1_part))
            (again-part arg0_part))
          (again-part metadata_part))
        high_again
