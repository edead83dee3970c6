-- ===== src/Khir/Function/Tests.antt =====
-- A function of two blocks, built step by step.
use kushdb.Prelude.{ℕ, ◌≡◌, refl, ◌⊎◌, true, false, none, some, [], ◌∷◌, ◌++◌, arith, length}
use kushdb.Khir.Opcode.{Opcode, br, is_terminating_instr}
use kushdb.Khir.Result.{err, external_body, ok, terminated_block}
use kushdb.Khir.Instr.{Instr, new_value, type5}
use kushdb.Khir.Function.{
  FunctionBuilder, append, append_to, generate_basic_block, is_terminated, new_block,
  set_current_basic_block, update_successors_of,
}
use kushdb.Khir.Function.Append.{append_lem}
use kushdb.Khir.Function.Edges.{IsLinked, Reach-IsLinked}
use kushdb.Khir.Function.Returns.{generated}
use kushdb.Khir.Function.Appended.{IsAppended, current}
use kushdb.Khir.Function.Tiles.{IsTiled, view}
use kushdb.Khir.Function.Reach.{Reach, Reach-IsTiled, appends, entry, generates, moves, start, step}

abbrev first_block : FunctionBuilder
first_block = entry 11 5 []

abbrev two_blocks : FunctionBuilder
two_blocks = generated first_block

abbrev jump : Instr Opcode
jump = type5 br 0 1 0

abbrev branched : FunctionBuilder
branched = record two_blocks {
  basic_blocks = record { first = some 0; second = some 0 } ∷ new_block ∷ [];
  basic_block_successors = (1 ∷ []) ∷ [] ∷ [];
  basic_block_predecessors = [] ∷ (0 ∷ []) ∷ [];
  basic_block_order = 0 ∷ [];
  instructions = jump ∷ [];
}

abbrev second_block : FunctionBuilder
second_block = record branched { current_basic_block = 1 }

branched_test :
    append jump two_blocks ≡ (ok (record { idx = 0; constant_global = false }), branched)
unfolding append append_to new_value is_terminating_instr update_successors_of
branched_test = refl

two_steps : Reach (entry 11 5 []) second_block
unfolding append append_to new_value is_terminating_instr update_successors_of generate_basic_block
    is_terminated set_current_basic_block
two_steps =
    step
      (step (step start (generates 1 refl)) (
        appends jump (record { idx = 0; constant_global = false }) (omega arith) (omega arith)
          refl))
      (moves 1 (omega arith) refl refl)

Reach-IsTiled_example : IsTiled (view second_block)
Reach-IsTiled_example = Reach-IsTiled 11 5 [] second_block two_steps

Reach-IsLinked_example : IsLinked second_block
Reach-IsLinked_example = Reach-IsLinked 11 5 [] second_block two_steps

-- An open block takes the branch.
append_lem_example :
    ((two_blocks.external ≡ true) × (append jump two_blocks ≡ (err external_body, two_blocks)))
    ⊎ ((last : ℕ) × (two_blocks.external ≡ false)
        × ((current two_blocks).second ≡ some last)
        × (append jump two_blocks ≡ (
          err terminated_block,
          record two_blocks { instructions = two_blocks.instructions ++ (jump ∷ []) },
        )))
    ⊎ ((g : FunctionBuilder) × (two_blocks.external ≡ false)
        × ((current two_blocks).second ≡ none)
        × (append jump two_blocks
            ≡ (ok (record { idx = length two_blocks.instructions; constant_global = false }), g))
        × IsAppended jump two_blocks g)
append_lem_example = append_lem jump two_blocks (omega arith) (omega arith) (omega arith)
