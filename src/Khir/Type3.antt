-- ===== src/Khir/Type3.antt =====
-- khir/instruction.cc: Type3InstructionBuilder and Type3InstructionReader. A builder is its `value_`,
-- a reader its `instr_`; metadata and opcode are those of all formats.
use kushdb.Prelude.{ℕ, ◌≤◌, ◌≡◌, refl, sym, ◌∙◌, false, List, [], ◌∷◌, arith}
use kushdb.Khir.Word.{Word, ones, narrow, bit_and, bit_or, bit_not, shift_left, shift_right}
use kushdb.Khir.Instruction.{
  set_metadata_impl, set_opcode_impl, set_metadata_impl-put, set_opcode_impl-put, opcode, metadata,
  opcode-field, metadata-field,
}
use kushdb.Khir.Fields.{put, field, put-narrow, put-high, narrow-field, Agree-step, Agree-whole}
use kushdb.Khir.Layout.{Format, IsLaid, run, last_set, read-run, field-rebuilt}

unfoldable pub set_type_id : Word → Word → Word
set_type_id value type_id =
    let mask = shift_left (ones 16) 40 in
    bit_or (bit_and value (bit_not mask)) (bit_and (shift_left (narrow 16 type_id) 40) mask)

unfoldable pub type_id : Word → Word
type_id instr = narrow 16 (bit_and (shift_right instr 40) (ones 16))

unfoldable pub set_sarg : Word → Word → Word
set_sarg value sarg =
    let mask = shift_left (ones 8) 32 in
    bit_or (bit_and value (bit_not mask)) (bit_and (shift_left (narrow 8 sarg) 32) mask)

unfoldable pub sarg : Word → Word
sarg instr = narrow 8 (bit_and (shift_right instr 32) (ones 8))

unfoldable pub set_arg : Word → Word → Word
set_arg value arg =
    let mask = shift_left (ones 24) 8 in
    bit_or (bit_and value (bit_not mask)) (bit_and (shift_left (narrow 32 arg) 8) mask)

unfoldable pub arg : Word → Word
arg instr = narrow 32 (bit_and (shift_right instr 8) (ones 24))

-- The parts of the word.
pub data Part : Type 0 where
  metadata_part type_id_part sarg_part arg_part opcode_part : Part

abbrev part_lo : Part → ℕ
part_lo metadata_part = 56
part_lo type_id_part = 40
part_lo sarg_part = 32
part_lo arg_part = 8
part_lo opcode_part = 0

abbrev part_width : Part → ℕ
part_width metadata_part = 8
part_width type_id_part = 16
part_width sarg_part = 8
part_width arg_part = 24
part_width opcode_part = 8

-- The methods of the builder and of the reader.
abbrev setter : Part → Word → Word → Word
setter metadata_part = set_metadata_impl
setter type_id_part = set_type_id
setter sarg_part = set_sarg
setter arg_part = set_arg
setter opcode_part = set_opcode_impl

abbrev pub reader : Part → Word → Word
reader metadata_part = metadata
reader type_id_part = type_id
reader sarg_part = sarg
reader arg_part = arg
reader opcode_part = opcode

abbrev pub format : Format Part
format = record { lo = part_lo; width = part_width; set = setter; read = reader }

abbrev argument_size : Part → ℕ
argument_size metadata_part = 8
argument_size type_id_part = 16
argument_size sarg_part = 8
argument_size arg_part = 32
argument_size opcode_part = 8

setter-put :
    (p : Part) (v x : Word)
    → setter p v x ≡ put (part_lo p) (part_width p) v (narrow (argument_size p) x)
unfolding set_type_id set_sarg set_arg
setter-put metadata_part v x = set_metadata_impl-put v x ∙ sym (put-narrow 56 8 v x)
setter-put type_id_part v x = refl
setter-put sarg_part v x = refl
setter-put arg_part v x = refl
setter-put opcode_part v x = set_opcode_impl-put v x ∙ sym (put-narrow 0 8 v x)

reader-field : (p : Part) (v : Word) → reader p v ≡ field (part_lo p) (part_width p) v
unfolding type_id sarg arg
reader-field metadata_part v = metadata-field v
reader-field type_id_part v = narrow-field 16 40 16 v (omega arith)
reader-field sarg_part v = narrow-field 8 32 8 v (omega arith)
reader-field arg_part v = narrow-field 32 8 24 v (omega arith)
reader-field opcode_part v = opcode-field v

format-IsLaid : IsLaid format
format-IsLaid = record {
  argument = argument_size;
  one_place = λ p q h. ground arith;
  in_order = λ p q h. ground arith;
  inside = λ p. ground arith;
  fits = λ p. ground arith;
  sets = setter-put;
  reads = reader-field;
}

-- In format III, after any calls of the setters, in any order and on any word, each part is read as
-- it was set last, at its width, and a part that was not set is read as before.
pub type3_reads :
    (q : Part) (calls : List (Part × Word)) (v : Word)
    → reader q (run format calls v) ≡ last_set format q calls (reader q v)
type3_reads = read-run format format-IsLaid

-- A word with every part set, the opcode first.
abbrev pub built : Word → Word → Word → Word → Word → Word → Word
built v m t s a o =
    set_arg (set_sarg (set_type_id (set_metadata_impl (set_opcode_impl v o) m) t) s) a

module _ (v w : Word) where
  abbrev calls : List (Part × Word)
  calls =
      (opcode_part, opcode w)
      ∷ (metadata_part, metadata w)
      ∷ (type_id_part, type_id w)
      ∷ (sarg_part, sarg w)
      ∷ (arg_part, arg w)
      ∷ []

  again : Word
  again = built v (metadata w) (type_id w) (sarg w) (arg w) (opcode w)

  again-part :
      (p : Part) → field (part_lo p) (part_width p) again ≡ field (part_lo p) (part_width p) w
  unfolding again
  again-part metadata_part = field-rebuilt format format-IsLaid metadata_part calls v w refl
  again-part type_id_part = field-rebuilt format format-IsLaid type_id_part calls v w refl
  again-part sarg_part = field-rebuilt format format-IsLaid sarg_part calls v w refl
  again-part arg_part = field-rebuilt format format-IsLaid arg_part calls v w refl
  again-part opcode_part = field-rebuilt format format-IsLaid opcode_part calls v w refl

  high_again : (i : ℕ) → 64 ≤ i → again i ≡ false
  unfolding again set_arg
  high_again i h =
      put-high 8 24
        (set_sarg
          (set_type_id (set_metadata_impl (set_opcode_impl v (opcode w)) (metadata w)) (type_id w))
          (sarg w))
        (narrow 32 (arg w)) i h

  -- Building from the fields that are read gives back the word, all 64 bits of it.
  pub type3_rebuilds : built v (metadata w) (type_id w) (sarg w) (arg w) (opcode w) ≡ narrow 64 w
  unfolding again
  type3_rebuilds =
      Agree-whole again w
        (Agree-step again w 56 8
          (Agree-step again w 40 16
            (Agree-step again w 32 8
              (Agree-step again w 8 24
                (Agree-step again w 0 8 (λ i h. absurd (omega arith)) (again-part opcode_part))
                (again-part arg_part))
              (again-part sarg_part))
            (again-part type_id_part))
          (again-part metadata_part))
        high_again
