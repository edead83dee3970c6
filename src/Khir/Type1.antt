-- ===== src/Khir/Type1.antt =====
-- khir/instruction.cc: Type1InstructionBuilder and Type1InstructionReader. A builder is its `value_`,
-- a reader its `instr_`; metadata and opcode are those of all formats.
use kushdb.Prelude.{ℕ, ◌≤◌, ◌≡◌, refl, sym, ◌∙◌, false, List, [], ◌∷◌, arith}
use kushdb.Khir.Word.{Word, ones, narrow, bit_and, bit_or, bit_not, shift_left, shift_right}
use kushdb.Khir.Instruction.{
  set_metadata_impl, set_opcode_impl, set_metadata_impl-put, set_opcode_impl-put, opcode, metadata,
  opcode-field, metadata-field,
}
use kushdb.Khir.Fields.{put, field, put-narrow, put-high, narrow-field, Agree-step, Agree-whole}
use kushdb.Khir.Layout.{Format, IsLaid, run, last_set, read-run, field-rebuilt}

unfoldable pub set_constant : Word → Word → Word
set_constant value constant =
    let mask = shift_left (ones 48) 8 in
    bit_or (bit_and value (bit_not mask)) (bit_and (shift_left (narrow 64 constant) 8) mask)

unfoldable pub constant : Word → Word
constant instr = narrow 64 (bit_and (shift_right instr 8) (ones 48))

-- The parts of the word.
pub data Part : Type 0 where
  metadata_part constant_part opcode_part : Part

abbrev part_lo : Part → ℕ
part_lo metadata_part = 56
part_lo constant_part = 8
part_lo opcode_part = 0

abbrev part_width : Part → ℕ
part_width metadata_part = 8
part_width constant_part = 48
part_width opcode_part = 8

-- The methods of the builder and of the reader.
abbrev setter : Part → Word → Word → Word
setter metadata_part = set_metadata_impl
setter constant_part = set_constant
setter opcode_part = set_opcode_impl

abbrev pub reader : Part → Word → Word
reader metadata_part = metadata
reader constant_part = constant
reader opcode_part = opcode

abbrev pub format : Format Part
format = record { lo = part_lo; width = part_width; set = setter; read = reader }

abbrev argument_size : Part → ℕ
argument_size metadata_part = 8
argument_size constant_part = 64
argument_size opcode_part = 8

setter-put :
    (p : Part) (v x : Word)
    → setter p v x ≡ put (part_lo p) (part_width p) v (narrow (argument_size p) x)
unfolding set_constant
setter-put metadata_part v x = set_metadata_impl-put v x ∙ sym (put-narrow 56 8 v x)
setter-put constant_part v x = refl
setter-put opcode_part v x = set_opcode_impl-put v x ∙ sym (put-narrow 0 8 v x)

reader-field : (p : Part) (v : Word) → reader p v ≡ field (part_lo p) (part_width p) v
unfolding constant
reader-field metadata_part v = metadata-field v
reader-field constant_part v = narrow-field 64 8 48 v (omega arith)
reader-field opcode_part v = opcode-field v

format-IsLaid : IsLaid format
format-IsLaid = record {
  argument = argument_size;
  one_place = λ p q h. ground arith;
  in_order = λ p q h. ground arith;
  inside = λ p. ground arith;
  fits = λ p. ground arith;
  sets = setter-put;
  reads = reader-field;
}

-- In format I, after any calls of the setters, in any order and on any word, each part is read as
-- it was set last, at its width, and a part that was not set is read as before.
pub type1_reads :
    (q : Part) (calls : List (Part × Word)) (v : Word)
    → reader q (run format calls v) ≡ last_set format q calls (reader q v)
type1_reads = read-run format format-IsLaid

-- A word with every part set, the opcode first.
abbrev pub built : Word → Word → Word → Word → Word
built v m c o = set_constant (set_metadata_impl (set_opcode_impl v o) m) c

module _ (v w : Word) where
  abbrev calls : List (Part × Word)
  calls = (opcode_part, opcode w) ∷ (metadata_part, metadata w) ∷ (constant_part, constant w) ∷ []

  again : Word
  again = built v (metadata w) (constant w) (opcode w)

  again-part :
      (p : Part) → field (part_lo p) (part_width p) again ≡ field (part_lo p) (part_width p) w
  unfolding again
  again-part metadata_part = field-rebuilt format format-IsLaid metadata_part calls v w refl
  again-part constant_part = field-rebuilt format format-IsLaid constant_part calls v w refl
  again-part opcode_part = field-rebuilt format format-IsLaid opcode_part calls v w refl

  high_again : (i : ℕ) → 64 ≤ i → again i ≡ false
  unfolding again set_constant
  high_again i h =
      put-high 8 48 (set_metadata_impl (set_opcode_impl v (opcode w)) (metadata w))
        (narrow 64 (constant w)) i h

  -- Building from the fields that are read gives back the word, all 64 bits of it.
  pub type1_rebuilds : built v (metadata w) (constant w) (opcode w) ≡ narrow 64 w
  unfolding again
  type1_rebuilds =
      Agree-whole again w
        (Agree-step again w 56 8
          (Agree-step again w 8 48
            (Agree-step again w 0 8 (λ i h. absurd (omega arith)) (again-part opcode_part))
            (again-part constant_part))
          (again-part metadata_part))
        high_again
