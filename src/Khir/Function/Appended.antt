-- ===== src/Khir/Function/Appended.antt =====
-- khir/program_builder.cc: what FunctionBuilder::Append leaves behind in an open block.
use kushdb.Prelude.{
  ℕ, ◌<◌, ◌≡◌, refl, sym, ap, ◌∙◌, subst, ◌≢◌, inl, inr, Bool, true, false, none, some, List, [],
  ◌∷◌, ◌++◌, append_assoc, append-nil, arith, if◌then◌else◌, Bool-cases, length, set, length-set,
  get_or, get_or-set_self, get_or-set_ne,
}
use kushdb.Khir.Opcode.{Opcode, br, condbr, is_terminating_instr}
use kushdb.Khir.Instr.{Instr, opcode}
use kushdb.Khir.Function.{
  Block, FunctionBuilder, marg0, marg1, new_block, or_else, push_instr, push_order, set_block,
  update_successors, update_successors_of,
}

abbrev pub current : FunctionBuilder → Block
current f = get_or f.basic_blocks f.current_basic_block new_block

-- What Append leaves behind in an open block, for an instruction that does not end it and for one
-- that does.
abbrev pub extended : Instr Opcode → FunctionBuilder → FunctionBuilder
extended i f = set_block (or_else (current f).first (length f.instructions)) none (push_instr i f)

abbrev pub ended : Instr Opcode → FunctionBuilder → FunctionBuilder
ended i f = push_order (
    update_successors f.current_basic_block i (
      set_block (or_else (current f).first (length f.instructions)) (some (length f.instructions))
        (push_instr i f)))

abbrev pub appended : Instr Opcode → FunctionBuilder → FunctionBuilder
appended i f = if is_terminating_instr (opcode i) then ended i f else extended i f

-- The blocks that a branch names, in the order in which it names them.
abbrev pub targets_of : Opcode → Instr Opcode → List ℕ
targets_of br i = marg0 i ∷ []
targets_of condbr i = marg0 i ∷ marg1 i ∷ []
targets_of o i = []

abbrev pub block_of : FunctionBuilder → ℕ → Block
block_of f b = get_or f.basic_blocks b new_block

abbrev pub successors_of : FunctionBuilder → ℕ → List ℕ
successors_of f b = get_or f.basic_block_successors b []

-- g is f with the instruction i at its end, in the current block.
pub record IsAppended (i : Instr Opcode) (f g : FunctionBuilder) : Type 0 where
  pub instructions : g.instructions ≡ f.instructions ++ (i ∷ [])
  pub first_of_empty :
      (block_of f f.current_basic_block).first ≡ none
      → (block_of g f.current_basic_block).first ≡ some (length f.instructions)
  pub first_kept :
      (first : ℕ)
      → (block_of f f.current_basic_block).first ≡ some first
      → (block_of g f.current_basic_block).first ≡ some first
  pub second :
      (block_of g f.current_basic_block).second
      ≡ (if is_terminating_instr (opcode i) then some (length f.instructions) else none)
  pub other_blocks : (b : ℕ) → b ≢ f.current_basic_block → block_of g b ≡ block_of f b
  pub order :
      g.basic_block_order
      ≡ f.basic_block_order
        ++ (if is_terminating_instr (opcode i) then f.current_basic_block ∷ [] else [])
  pub successors :
      successors_of g f.current_basic_block
      ≡ successors_of f f.current_basic_block ++ targets_of (opcode i) i
  pub other_successors : (b : ℕ) → b ≢ f.current_basic_block → successors_of g b ≡ successors_of f b
  pub same_current : g.current_basic_block ≡ f.current_basic_block

-- What an update of the edges leaves alone, and what it does to the successors.
record IsUpdated (o : Opcode) (curr : ℕ) (i : Instr Opcode) (f g : FunctionBuilder) : Type 0 where
  instructions : g.instructions ≡ f.instructions
  blocks : g.basic_blocks ≡ f.basic_blocks
  order : g.basic_block_order ≡ f.basic_block_order
  same_current : g.current_basic_block ≡ f.current_basic_block
  successors : successors_of g curr ≡ successors_of f curr ++ targets_of o i
  other_successors : (b : ℕ) → b ≢ curr → successors_of g b ≡ successors_of f b

update-IsUpdated :
    (o : Opcode) (curr : ℕ) (i : Instr Opcode) (f : FunctionBuilder)
    → curr < length f.basic_block_successors
    → IsUpdated o curr i f (update_successors_of o curr i f)
unfolding update_successors_of
update-IsUpdated br curr i f h = record {
  instructions = refl;
  blocks = refl;
  order = refl;
  same_current = refl;
  successors = get_or-set_self f.basic_block_successors curr _ [] h;
  other_successors = λ b n. get_or-set_ne f.basic_block_successors curr b _ [] (λ e. n (sym e));
}
update-IsUpdated condbr curr i f h = record {
  instructions = refl;
  blocks = refl;
  order = refl;
  same_current = refl;
  successors =
      get_or-set_self once curr _ []
        (omega (arith, h, length-set f.basic_block_successors curr one))
      ∙ ap (λ l. l ++ (marg1 i ∷ [])) (get_or-set_self f.basic_block_successors curr one [] h)
      ∙ append_assoc (successors_of f curr) (marg0 i ∷ []) (marg1 i ∷ []);
  other_successors = λ b n.
      get_or-set_ne once curr b _ [] (λ e. n (sym e))
      ∙ get_or-set_ne f.basic_block_successors curr b one [] (λ e. n (sym e));
}
  where
    one : List ℕ
    one = successors_of f curr ++ (marg0 i ∷ [])

    once : List (List ℕ)
    once = set f.basic_block_successors curr one
update-IsUpdated o curr i f h = record {
  instructions = refl;
  blocks = refl;
  order = refl;
  same_current = refl;
  successors = sym (append-nil (successors_of f curr));
  other_successors = λ b n. refl;
}

straight-targets :
    (o : Opcode) (i : Instr Opcode) → is_terminating_instr o ≡ false → targets_of o i ≡ []
unfolding is_terminating_instr
straight-targets br i h = ground (arith, h)
straight-targets condbr i h = ground (arith, h)
straight-targets o i h = refl

-- An instruction that does not end the block, and one that does.
extended-IsAppended :
    (i : Instr Opcode) (f : FunctionBuilder)
    → f.current_basic_block < length f.basic_blocks
    → (current f).second ≡ none
    → is_terminating_instr (opcode i) ≡ false
    → IsAppended i f (extended i f)
extended-IsAppended i f there free t = record {
  instructions = refl;
  first_of_empty =
      λ e. ap (λ (b : Block). b.first) now_is ∙ ap (λ o. or_else o (length f.instructions)) e;
  first_kept =
      λ a e. ap (λ (b : Block). b.first) now_is ∙ ap (λ o. or_else o (length f.instructions)) e;
  second = ap (λ (b : Block). b.second) now_is ∙ rw t refl;
  other_blocks =
      λ b n. get_or-set_ne f.basic_blocks f.current_basic_block b _ new_block (λ e. n (sym e));
  order = rw t (sym (append-nil f.basic_block_order));
  successors =
      sym (append-nil (successors_of f f.current_basic_block))
      ∙ ap (λ l. successors_of f f.current_basic_block ++ l)
          (sym (straight-targets (opcode i) i t));
  other_successors = λ b n. refl;
  same_current = refl;
}
  where
    now_is :
        block_of (extended i f) f.current_basic_block
        ≡ record { first = or_else (current f).first (length f.instructions); second = none }
    now_is = get_or-set_self f.basic_blocks f.current_basic_block _ new_block there

ended-IsAppended :
    (i : Instr Opcode) (f : FunctionBuilder)
    → f.current_basic_block < length f.basic_blocks
    → f.current_basic_block < length f.basic_block_successors
    → is_terminating_instr (opcode i) ≡ true
    → IsAppended i f (ended i f)
ended-IsAppended i f there lists t = record {
  instructions = u.instructions;
  first_of_empty =
      λ e. ap (λ (b : Block). b.first) now_is ∙ ap (λ o. or_else o (length f.instructions)) e;
  first_kept =
      λ a e. ap (λ (b : Block). b.first) now_is ∙ ap (λ o. or_else o (length f.instructions)) e;
  second = ap (λ (b : Block). b.second) now_is ∙ rw t refl;
  other_blocks = λ b n.
      ap (λ bs. get_or bs b new_block) u.blocks
      ∙ get_or-set_ne f.basic_blocks f.current_basic_block b _ new_block (λ e. n (sym e));
  order =
      ap (λ c. (update_successors f.current_basic_block i closed).basic_block_order ++ (c ∷ []))
        u.same_current
      ∙ ap (λ l. l ++ (f.current_basic_block ∷ [])) u.order
      ∙ rw t refl;
  successors = u.successors;
  other_successors = u.other_successors;
  same_current = u.same_current;
}
  where
    closed : FunctionBuilder
    closed =
        set_block (or_else (current f).first (length f.instructions)) (some (length f.instructions))
          (push_instr i f)

    u :
        IsUpdated
          (opcode i)
          f.current_basic_block
          i
          closed
          (update_successors f.current_basic_block i closed)
    u = update-IsUpdated (opcode i) f.current_basic_block i closed lists

    now_is : block_of (ended i f) f.current_basic_block ≡ record {
      first = or_else (current f).first (length f.instructions);
      second = some (length f.instructions);
    }
    now_is =
        ap (λ bs. get_or bs f.current_basic_block new_block) u.blocks
        ∙ get_or-set_self f.basic_blocks f.current_basic_block _ new_block there

pub appended-IsAppended :
    (i : Instr Opcode) (f : FunctionBuilder)
    → f.current_basic_block < length f.basic_blocks
    → f.current_basic_block < length f.basic_block_successors
    → (current f).second ≡ none
    → IsAppended i f (appended i f)
appended-IsAppended i f there lists free = elim (Bool-cases (is_terminating_instr (opcode i))) [
  | inl t ↦
      subst (λ (b : Bool). IsAppended i f (if b then ended i f else extended i f)) (sym t)
        (ended-IsAppended i f there lists t)
  | inr t ↦
      subst (λ (b : Bool). IsAppended i f (if b then ended i f else extended i f)) (sym t)
        (extended-IsAppended i f there free t)
]
