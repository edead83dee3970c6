-- ===== src/Khir/Builder/Emit.antt =====
-- khir/program_builder.cc: an instruction appended to the current function.
use kushdb.Prelude.{
  ℕ, ◌≤◌, ◌<◌, ◌≡◌, sym, ap, ◌∙◌, subst, Bool, false, none, List, if◌then◌else◌, length, set,
  get_or, get_or-set_self, get_or-append_last,
}
use kushdb.Khir.Opcode.{Opcode, is_terminating_instr}
use kushdb.Khir.Result.{ok}
use kushdb.Khir.Instr.{Instr, Value, opcode}
use kushdb.Khir.Function.{FunctionBuilder, no_instr}
use kushdb.Khir.Builder.{ProgramBuilder, emit, get_current_function, no_function, put_function}
use kushdb.Khir.Function.Append.{append-open}
use kushdb.Khir.Function.Appended.{appended, current, ended, extended}
use kushdb.Khir.Builder.Naming.{Extends}

-- Function `c` has a body, its current block is open, and there is room for an instruction.
pub record IsOpenAt (fs : List FunctionBuilder) (c : ℕ) : Type 0 where
  pub there : c < length fs
  pub has_body : (get_or fs c no_function).external ≡ false
  pub open_block : (current (get_or fs c no_function)).second ≡ none
  pub fits : length (get_or fs c no_function).instructions ≤ 0x7FFFFF

abbrev pub IsOpen : ProgramBuilder → Type 0
IsOpen s = IsOpenAt s.functions s.current_function

abbrev pub instr_at : ProgramBuilder → Value → Instr Opcode
instr_at s v = get_or (get_current_function s).instructions v.idx no_instr

pub IsOpen-Extends : (s t : ProgramBuilder) → Extends s t → IsOpen s → IsOpen t
IsOpen-Extends s t e o =
    subst (λ fs. IsOpenAt fs t.current_function) (sym e.same_functions)
      (subst (IsOpenAt s.functions) (sym e.same_current) o)

-- The value of the next instruction, and the state with it.
abbrev pub register : ProgramBuilder → Value
register s = record { idx = length (get_current_function s).instructions; constant_global = false }

abbrev pub emitted : Instr Opcode → ProgramBuilder → ProgramBuilder
emitted i s = record s {
  functions = set s.functions s.current_function (appended i (get_current_function s));
}

pub emit-lem :
    (i : Instr Opcode) (s : ProgramBuilder) → IsOpen s → emit i s ≡ (ok (register s), emitted i s)
emit-lem i s o =
    ap (put_function s.current_function s)
      (append-open i (get_current_function s) o.has_body o.open_block o.fits)

pub instr_at-emitted :
    (i : Instr Opcode) (s : ProgramBuilder)
    → IsOpen s
    → is_terminating_instr (opcode i) ≡ false
    → instr_at (emitted i s) (register s) ≡ i
instr_at-emitted i s o t =
    ap (λ (f : FunctionBuilder). get_or f.instructions (register s).idx no_instr)
      (get_or-set_self s.functions s.current_function (appended i (get_current_function s))
        no_function o.there)
    ∙ ap
        (λ (b : Bool).
          get_or
            (if b
              then ended i (get_current_function s)
              else extended i (get_current_function s)).instructions
            (register s).idx no_instr)
        t
    ∙ get_or-append_last (get_current_function s).instructions i no_instr
