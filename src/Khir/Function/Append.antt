-- ===== src/Khir/Function/Append.antt =====
-- khir/program_builder.cc: FunctionBuilder::Append, branch by branch.
use kushdb.Prelude.{
  ℕ, ◌≤◌, ◌<◌, ◌≡◌, refl, ap, ◌∙◌, ◌⊎◌, inl, inr, Bool, true, false, none, some, [], ◌∷◌, ◌++◌,
  arith, if◌then◌else◌, Bool-cases, Option-cases, length,
}
use kushdb.Khir.Opcode.{Opcode, is_terminating_instr}
use kushdb.Khir.Result.{err, external_body, ok, terminated_block}
use kushdb.Khir.Instr.{Instr, new_value, opcode}
use kushdb.Khir.Function.{FunctionBuilder, append, append_to, push_instr}
use kushdb.Khir.Function.Appended.{IsAppended, appended, appended-IsAppended, current}

pub append-external :
    (i : Instr Opcode) (f : FunctionBuilder)
    → f.external ≡ true
    → append i f ≡ (err external_body, f)
unfolding append
append-external i f h =
    ap (λ (b : Bool). if b then (err external_body, f) else append_to (current f) i f) h

-- The instruction is there all the same.
pub append-terminated :
    (i : Instr Opcode) (f : FunctionBuilder) {last : ℕ}
    → f.external ≡ false
    → (current f).second ≡ some last
    → append i f ≡ (err terminated_block, push_instr i f)
unfolding append append_to
append-terminated i f h e = rw (h, e) refl

pub new_value-ok :
    (n : ℕ) (c : Bool) → n ≤ 0x7FFFFF → new_value n c ≡ ok (record { idx = n; constant_global = c })
unfolding new_value
new_value-ok n c h = ground arith

-- The same without the room: the value's constructor may throw, the instruction is there.
pub append-there :
    (i : Instr Opcode) (f : FunctionBuilder)
    → f.external ≡ false
    → (current f).second ≡ none
    → append i f ≡ (new_value (length f.instructions) false, appended i f)
unfolding append append_to
append-there i f h e = elim (Bool-cases (is_terminating_instr (opcode i))) [
  | inl t ↦ rw (h, e, t) refl
  | inr t ↦ rw (h, e, t) refl
]

pub append-open :
    (i : Instr Opcode) (f : FunctionBuilder)
    → f.external ≡ false
    → (current f).second ≡ none
    → length f.instructions ≤ 0x7FFFFF
    → append i f
      ≡ (ok (record { idx = length f.instructions; constant_global = false }), appended i f)
append-open i f h e room =
    append-there i f h e
    ∙ ap (λ r. (r, appended i f)) (new_value-ok (length f.instructions) false room)

-- Where the current block is there and the number of instructions is the index of a value, Append
-- throws for an external function, and changes nothing; throws in a block that has ended, and
-- leaves the instruction at the end without touching anything else; and else returns the number of
-- the instructions before. Then the instruction is at the end, the current block starts with it if
-- it was empty, it is the block's last one and enters the block in the order of the blocks if it is
-- terminating, a branch adds the blocks that it names to the successors of the current block, and
-- the other blocks and their successors are as before.
pub append_lem :
    (i : Instr Opcode) (f : FunctionBuilder)
    → f.current_basic_block < length f.basic_blocks
    → f.current_basic_block < length f.basic_block_successors
    → length f.instructions ≤ 0x7FFFFF
    → ((f.external ≡ true) × (append i f ≡ (err external_body, f)))
      ⊎ ((last : ℕ) × (f.external ≡ false)
          × ((current f).second ≡ some last)
          × (append i f
              ≡ (err terminated_block, record f { instructions = f.instructions ++ (i ∷ []) })))
      ⊎ ((g : FunctionBuilder) × (f.external ≡ false)
          × ((current f).second ≡ none)
          × (append i f ≡ (ok (record { idx = length f.instructions; constant_global = false }), g))
          × IsAppended i f g)
append_lem i f there lists room = elim (Bool-cases f.external) [
  | inl x ↦ inl (x, append-external i f x)
  | inr x ↦ elim (Option-cases (current f).second) [
    | inr (last, y) ↦ inr (inl (last, x, y, append-terminated i f x y))
    | inl y ↦
        inr (
          inr (appended i f, x, y, append-open i f x y room, appended-IsAppended i f there lists y))
  ]
]
