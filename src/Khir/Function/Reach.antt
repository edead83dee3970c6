-- ===== src/Khir/Function/Reach.antt =====
-- khir/program_builder.cc: functions as calls of a FunctionBuilder leave them. The guard of
-- ProgramBuilder::SetCurrentBlock, that the current block has ended, is part of the step to another
-- block of the function; a call that throws is not a step.
use kushdb.Prelude.{
  ℕ, zero, suc, ◌<◌, ◌≡◌, refl, sym, ap, ◌∙◌, subst, inl, inr, Bool, true, false, Option, none,
  some, List, [], ◌∷◌, ◌++◌, arith, ℕ_discrete, if◌then◌else◌, Bool-cases, length, set, length-set,
  get_or, get_or-set_self, get_or-set_ne,
}
use kushdb.Khir.Opcode.{Opcode, br, condbr, is_terminating_instr}
use kushdb.Khir.Result.{ok}
use kushdb.Khir.Instr.{Instr, Value, opcode}
use kushdb.Khir.Function.{
  FunctionBuilder, append, generate_basic_block, is_terminated, marg0, marg1, new_block,
  new_function, no_instr, or_else, push_instr, set_block, set_current_basic_block, update,
  update_successors_of,
}
use kushdb.Khir.Function.Returns.{append-ok, generate-ok, move-ok, terminated-ok, update-ok}
use kushdb.Khir.Function.Growing.{ended-IsTiled, extended-IsTiled, finish}
use kushdb.Khir.Function.Appended.{appended, current, ended, extended}
use kushdb.Khir.Function.Moving.{generated-IsTiled, moved-IsTiled}
use kushdb.Khir.Function.Tiles.{IsTiled, Open, Rest, Tiles-keep, View, block_at, ends, view}

-- One call that returns. The blocks that an instruction names are there. The current block changes
-- once it has ended, which SetCurrentBlock asks of a move within a function. Update is called with
-- an instruction that ends a block just where the old one does.
pub data Step (f g : FunctionBuilder) : Type 0 where
  appends :
      (i : Instr Opcode) (v : Value)
      → marg0 i < length f.basic_blocks
      → marg1 i < length f.basic_blocks
      → append i f ≡ (ok v, g)
      → Step f g
  generates : (b : ℕ) → generate_basic_block f ≡ (ok b, g) → Step f g
  moves :
      (b : ℕ)
      → b < length f.basic_blocks
      → is_terminated b f ≡ (ok true, f)
      → set_current_basic_block b f ≡ (ok tt, g)
      → Step f g
  updates :
      (v : Value) (i : Instr Opcode)
      → is_terminating_instr (opcode i) ≡ ends (view f) v.idx
      → update v i f ≡ (ok tt, g)
      → Step f g

pub data Reach (f : FunctionBuilder) : FunctionBuilder → Type 0 where
  start : Reach f f
  step : {g h : FunctionBuilder} → Reach f g → Step g h → Reach f h

-- A function before InitBody enters its arguments: its first block is there.
abbrev pub entry : ℕ → ℕ → List ℕ → FunctionBuilder
entry t r args = record (new_function t r args false) {
  basic_blocks = new_block ∷ [];
  basic_block_successors = [] ∷ [];
  basic_block_predecessors = [] ∷ [];
}

entry-IsTiled : (t r : ℕ) (args : List ℕ) → IsTiled (view (entry t r args))
entry-IsTiled t r args = record {
  covered = 0;
  tiles = refl;
  rest = refl;
  current_there = omega arith;
  others = λ b n e. nothing b;
  listed = λ b e m. m;
}
  where
    nothing : (b : ℕ) → (get_or (new_block ∷ []) b new_block).first ≡ none
    nothing zero = refl
    nothing (suc b) = refl

view-update :
    (o : Opcode) (c : ℕ) (i : Instr Opcode) (f : FunctionBuilder)
    → view (update_successors_of o c i f) ≡ view f
unfolding update_successors_of
view-update br c i f = refl
view-update condbr c i f = refl
view-update o c i f = refl

view-ended : (i : Instr Opcode) (f : FunctionBuilder) → view (ended i f) ≡ finish (view f) i
view-ended i f =
    ap (λ (v : View). record v { order = v.order ++ (v.now ∷ []) })
      (view-update (opcode i) f.current_basic_block i (
        set_block (or_else (current f).first (length f.instructions)) (some (length f.instructions))
          (push_instr i f)))

appended-IsTiled :
    (i : Instr Opcode) (f : FunctionBuilder)
    → IsTiled (view f)
    → (current f).second ≡ none
    → IsTiled (view (appended i f))
appended-IsTiled i f h e = elim (Bool-cases (is_terminating_instr (opcode i))) [
  | inl t ↦
      subst (λ (b : Bool). IsTiled (view (if b then ended i f else extended i f))) (sym t)
        (subst IsTiled (sym (view-ended i f)) (ended-IsTiled (view f) i h e t))
  | inr t ↦
      subst (λ (b : Bool). IsTiled (view (if b then ended i f else extended i f))) (sym t)
        (extended-IsTiled (view f) i h e t)
]

updated-IsTiled :
    (v : View) (n : ℕ) (i : Instr Opcode)
    → IsTiled v
    → is_terminating_instr (opcode i) ≡ ends v n
    → IsTiled (record v { code = set v.code n i })
updated-IsTiled v n i h e = record {
  covered = h.covered;
  tiles =
      Tiles-keep v written v.order 0 h.covered (λ b m. refl) same
        (omega (arith, length-set v.code n i)) h.tiles;
  rest = open_still (block_at v v.now).second h.rest;
  current_there = h.current_there;
  others = h.others;
  listed = h.listed;
}
  where
    written : View
    written = record v { code = set v.code n i }

    same : (j : ℕ) → j < length v.code → ends written j ≡ ends v j
    same j p = elim (ℕ_discrete n j) [
      | yes q ↦
          ap (λ k. is_terminating_instr (opcode (get_or (set v.code n i) k no_instr))) (sym q)
          ∙ ap (λ x. is_terminating_instr (opcode x))
              (get_or-set_self v.code n i no_instr (omega (arith, p, q)))
          ∙ e
          ∙ ap (ends v) q
      | no q ↦ ap (λ x. is_terminating_instr (opcode x)) (get_or-set_ne v.code n j i no_instr q)
    ]

    rest_still : (o : Option ℕ) → Rest v o h.covered → Rest written o h.covered
    rest_still none r = r ∙ sym (length-set v.code n i)
    rest_still (some lo) (p, q, s) = (
      p,
      omega (arith, length-set v.code n i, q),
      λ j a b.
          same j (omega (arith, length-set v.code n i, b))
          ∙ s j a (omega (arith, length-set v.code n i, b)),
    )

    open_still : (o : Option ℕ) → Open v o h.covered → Open written o h.covered
    open_still none r = rest_still (block_at v v.now).first r
    open_still (some l) r = r ∙ sym (length-set v.code n i)

Step-IsTiled : (f g : FunctionBuilder) → Step f g → IsTiled (view f) → IsTiled (view g)
Step-IsTiled f g (appends i v p q e) h =
    let (free, made) = append-ok i f g v e in
    subst (λ x. IsTiled (view x)) made (appended-IsTiled i f h free)
Step-IsTiled f g (generates b e) h =
    subst (λ x. IsTiled (view x)) (generate-ok f g b e) (generated-IsTiled (view f) h)
Step-IsTiled f g (moves b p t e) h =
    subst (λ x. IsTiled (view x)) (move-ok f g b e)
      (moved-IsTiled (view f) b h (terminated-ok f b t).1 p)
Step-IsTiled f g (updates v i t e) h =
    subst (λ x. IsTiled (view x)) (update-ok f g v i e) (updated-IsTiled (view f) v.idx i h t)

-- For a function built by calls that return: Append of instructions that name blocks that are
-- there, GenerateBasicBlock, SetCurrentBasicBlock to a block that is there once the current one has
-- ended, and Update with an instruction that ends a block just where the old one does: the ended
-- blocks are runs of instructions that follow each other from the first instruction on in the order
-- in which they ended, each with a terminating instruction at its end and only there; the other
-- instructions are the current block's, and no other block has one.
pub Reach-IsTiled :
    (t r : ℕ) (args : List ℕ) (f : FunctionBuilder) → Reach (entry t r args) f → IsTiled (view f)
Reach-IsTiled t r args f start = entry-IsTiled t r args
Reach-IsTiled t r args f (step {g} reach s) = Step-IsTiled g f s (Reach-IsTiled t r args g reach)
