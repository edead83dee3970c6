-- ===== src/Khir/Builder/Flow.antt =====
-- khir/program_builder.cc: blocks, branches, phi nodes and returns. A BasicBlockRef is the pair of
-- the function's number and the block's.
use kushdb.Prelude.{ℕ, ◌+◌, ◌*◌, ◌/◌, ◌%◌, ◌^◌, Bool, true, false, ◌==◌, if◌then◌else◌, get_or}
use kushdb.Khir.Opcode.{br, condbr, phi, phi_member, return}
use kushdb.Khir.Result.{M, pure, throw, unterminated_block, ◌>>=◌}
use kushdb.Khir.Instr.{
  Instr, Value, build_type1, build_type2, build_type3, build_type5, serialize, type1, type2, type3,
  type5,
}
use kushdb.Khir.Function.{
  generate_basic_block, get_current_basic_block, is_terminated, no_instr, set_current_basic_block,
  update,
}
use kushdb.Khir.Builder.{
  ProgramBuilder, emit, get_current_function, on_current, on_function, raw_constant,
}

abbrev pub BlockRef : Type 0
BlockRef = ℕ × ℕ

unfoldable pub generate_block : M ProgramBuilder BlockRef
generate_block s = (do b ← on_current generate_basic_block; pure (s.current_function, b)) s

unfoldable pub current_block : M ProgramBuilder BlockRef
current_block s = (do b ← on_current get_current_basic_block; pure (s.current_function, b)) s

unfoldable pub is_block_terminated : BlockRef → M ProgramBuilder Bool
is_block_terminated (f, b) = on_function f (is_terminated b)

abbrev pub move_to : BlockRef → M ProgramBuilder (Unit {0})
move_to (f, b) s = on_function f (set_current_basic_block b) (record s { current_function = f })

-- The guard of SetCurrentBlock within a function.
abbrev pub guard_terminated : BlockRef → Bool → M ProgramBuilder (Unit {0})
guard_terminated b true = move_to b
guard_terminated b false = throw unterminated_block

unfoldable pub set_current_block : BlockRef → M ProgramBuilder (Unit {0})
set_current_block (f, b) s =
    if s.current_function == f
    then (do t ← on_current (is_terminated b); guard_terminated (f, b) t) s
    else move_to (f, b) s

abbrev pub drop_value : M ProgramBuilder Value → M ProgramBuilder (Unit {0})
drop_value m = do v ← m; pure tt

unfoldable pub branch : BlockRef → M ProgramBuilder (Unit {0})
branch (f, b) = drop_value (emit (build_type5 br 0 b 0))

unfoldable pub branch_if : Value → BlockRef → BlockRef → M ProgramBuilder (Unit {0})
branch_if cond (f1, b1) (f2, b2) s =
    if cond.constant_global
    then (if raw_constant cond s == 1 then branch (f1, b1) s else branch (f2, b2) s)
    else drop_value (emit (build_type5 condbr (serialize cond) b1 b2)) s

unfoldable pub make_phi : ℕ → M ProgramBuilder Value
make_phi t = emit (build_type3 phi t 0 0)

unfoldable pub make_phi_member : Value → M ProgramBuilder Value
make_phi_member v = emit (build_type2 phi_member 0 (serialize v))

-- Type2InstructionBuilder(instr).SetArg0(arg0), on the word that is there: bits 32 to 55.
abbrev pub with_arg0 : {O : Type 0} → Instr O → ℕ → Instr O
with_arg0 (type1 o c) a = type1 o (a % 2 ^ 24 * 2 ^ 24 + c % 2 ^ 24)
with_arg0 (type2 o a' b) a = type2 o (a % 2 ^ 24) b
with_arg0 (type3 o t s b) a = type3 o (a % 2 ^ 24 / 2 ^ 8) (a % 2 ^ 8) b
with_arg0 (type5 o a' m n) a = type5 o (a % 2 ^ 24) m n

-- The phi member is an instruction of the function: a constant's word would be written there as it is.
unfoldable pub update_phi_member : Value → Value → M ProgramBuilder (Unit {0})
update_phi_member v member s =
    let f = get_current_function s in
    on_current (update member (with_arg0 (get_or f.instructions member.idx no_instr) (serialize v)))
      s

unfoldable pub return_void : M ProgramBuilder (Unit {0})
return_void = drop_value (emit (build_type1 return 0))
