-- ===== src/Khir/Function/Edges.antt =====
-- khir/program_builder.cc: the successors and predecessors that UpdateSuccessors enters.
use kushdb.Prelude.{
  ℕ, zero, suc, ◌+◌, ◌<◌, ◌≡◌, refl, sym, ap, ◌∙◌, subst, ◌≢◌, inl, inr, Bool, ◌&&◌, Option, none,
  some, List, [], ◌∷◌, ◌++◌, arith, ℕ_discrete, ◌==◌, if◌then◌else◌, Bool-cases, length,
  length-append, length-set, get_or, get_or-set_self, get_or-set_ne, get_or-default,
}
use kushdb.Khir.Opcode.{Opcode, br, condbr, is_terminating_instr}
use kushdb.Khir.Instr.{Instr, opcode}
use kushdb.Khir.Function.{
  FunctionBuilder, add_edge, marg0, marg1, new_block, or_else, push_at, push_instr, push_order,
  set_block, update_successors_of,
}
use kushdb.Khir.Function.Returns.{append-ok, generate-ok, generated, move-ok, update-ok}
use kushdb.Khir.Function.Appended.{appended, current, ended, extended}
use kushdb.Khir.Function.Reach.{
  updates, Reach, Reach-IsTiled, Step, appends, entry, generates, moves, start, step,
}

abbrev pub count : ℕ → List ℕ → ℕ
count x [] = 0
count x (y ∷ ys) = (if x == y then 1 else 0) + count x ys

-- Block b is as often a successor of a as a is a predecessor of b.
pub record IsLinked (f : FunctionBuilder) : Type 0 where
  pub successors_there : length f.basic_block_successors ≡ length f.basic_blocks
  pub predecessors_there : length f.basic_block_predecessors ≡ length f.basic_blocks
  pub inverse :
      (a b : ℕ)
      → count b (get_or f.basic_block_successors a [])
        ≡ count a (get_or f.basic_block_predecessors b [])

abbrev edge : ℕ → ℕ → ℕ → ℕ → ℕ
edge a b curr next = if a == curr && b == next then 1 else 0

count-snoc :
    (x y : ℕ) (xs : List ℕ) → count x (xs ++ (y ∷ [])) ≡ count x xs + (if x == y then 1 else 0)
count-snoc x y [] = omega arith
count-snoc x y (z ∷ zs) = omega (arith, count-snoc x y zs)

own : (i b x : ℕ) → (if b == x then 1 else 0) ≡ edge i b i x
own i b x = ground arith

apart : (a b i x : ℕ) → i ≢ a → 0 ≡ edge a b i x
apart a b i x h = ground arith

count-push_at :
    (xss : List (List ℕ)) (i x a b : ℕ)
    → i < length xss
    → count b (get_or (push_at xss i x) a []) ≡ count b (get_or xss a []) + edge a b i x
count-push_at xss i x a b h = elim (ℕ_discrete i a) [
  | yes q ↦
      subst
        (λ c. count b (get_or (push_at xss i x) c []) ≡ count b (get_or xss c []) + edge c b i x) q
        (ap (count b) (get_or-set_self xss i (get_or xss i [] ++ (x ∷ [])) [] h)
          ∙ count-snoc b x (get_or xss i [])
          ∙ ap (λ n. count b (get_or xss i []) + n) (own i b x))
  | no q ↦ omega (
    arith,
    ap (count b) (get_or-set_ne xss i a (get_or xss i [] ++ (x ∷ [])) [] q),
    apart a b i x q,
  )
]

edge-flip : (a b curr next : ℕ) → edge a b curr next ≡ edge b a next curr
edge-flip a b curr next = ground arith

add_edge-IsLinked :
    (f : FunctionBuilder) (curr next : ℕ)
    → curr < length f.basic_blocks
    → next < length f.basic_blocks
    → IsLinked f
    → IsLinked (add_edge curr next f)
add_edge-IsLinked f curr next p q h = record {
  successors_there = length-set f.basic_block_successors curr _ ∙ h.successors_there;
  predecessors_there = length-set f.basic_block_predecessors next _ ∙ h.predecessors_there;
  inverse = λ a b.
      count-push_at f.basic_block_successors curr next a b (omega (arith, h.successors_there, p))
      ∙ ap (λ n. n + edge a b curr next) (h.inverse a b)
      ∙ ap (λ n. count a (get_or f.basic_block_predecessors b []) + n) (edge-flip a b curr next)
      ∙ sym (
          count-push_at f.basic_block_predecessors next curr b a
            (omega (arith, h.predecessors_there, q)));
}

update-IsLinked :
    (o : Opcode) (c : ℕ) (i : Instr Opcode) (f : FunctionBuilder)
    → c < length f.basic_blocks
    → marg0 i < length f.basic_blocks
    → marg1 i < length f.basic_blocks
    → IsLinked f
    → IsLinked (update_successors_of o c i f)
unfolding update_successors_of
update-IsLinked br c i f p q r h = add_edge-IsLinked f c (marg0 i) p q h
update-IsLinked condbr c i f p q r h =
    add_edge-IsLinked (add_edge c (marg0 i) f) c (marg1 i) p r
      (add_edge-IsLinked f c (marg0 i) p q h)
update-IsLinked o c i f p q r h = h

set_block-IsLinked :
    (i : Instr Opcode) (f : FunctionBuilder) (first second : Option ℕ)
    → IsLinked f
    → IsLinked (set_block first second (push_instr i f))
set_block-IsLinked i f first second h = record {
  successors_there =
      h.successors_there
      ∙ sym (
          length-set f.basic_blocks f.current_basic_block
            (record { first = first; second = second }));
  predecessors_there =
      h.predecessors_there
      ∙ sym (
          length-set f.basic_blocks f.current_basic_block
            (record { first = first; second = second }));
  inverse = h.inverse;
}

appended-IsLinked :
    (i : Instr Opcode) (f : FunctionBuilder)
    → f.current_basic_block < length f.basic_blocks
    → marg0 i < length f.basic_blocks
    → marg1 i < length f.basic_blocks
    → IsLinked f
    → IsLinked (appended i f)
appended-IsLinked i f p q r h = elim (Bool-cases (is_terminating_instr (opcode i))) [
  | inl t ↦
      subst (λ (b : Bool). IsLinked (if b then ended i f else extended i f)) (sym t)
        (pushed (
          update-IsLinked (opcode i) f.current_basic_block i before (same_length p) (same_length q)
            (same_length r) linked))
  | inr t ↦
      subst (λ (b : Bool). IsLinked (if b then ended i f else extended i f)) (sym t)
        (set_block-IsLinked i f (or_else (current f).first (length f.instructions)) none h)
]
  where
    before : FunctionBuilder
    before =
        set_block (or_else (current f).first (length f.instructions)) (some (length f.instructions))
          (push_instr i f)

    same_length : {n : ℕ} → n < length f.basic_blocks → n < length before.basic_blocks
    same_length {n} e = omega (
      arith,
      e,
      length-set f.basic_blocks f.current_basic_block (record {
        first = or_else (current f).first (length f.instructions);
        second = some (length f.instructions);
      }),
    )

    linked : IsLinked before
    linked =
        set_block-IsLinked i f (or_else (current f).first (length f.instructions))
          (some (length f.instructions)) h

    pushed : {g : FunctionBuilder} → IsLinked g → IsLinked (push_order g)
    pushed k = record {
      successors_there = k.successors_there;
      predecessors_there = k.predecessors_there;
      inverse = k.inverse;
    }

generated-IsLinked : (f : FunctionBuilder) → IsLinked f → IsLinked (generated f)
generated-IsLinked f h = record {
  successors_there = omega (
    arith,
    length-append f.basic_block_successors ([] ∷ []),
    length-append f.basic_blocks (new_block ∷ []),
    h.successors_there,
  );
  predecessors_there = omega (
    arith,
    length-append f.basic_block_predecessors ([] ∷ []),
    length-append f.basic_blocks (new_block ∷ []),
    h.predecessors_there,
  );
  inverse = λ a b.
      ap (count b) (get_or-default f.basic_block_successors a [])
      ∙ h.inverse a b
      ∙ sym (ap (count a) (get_or-default f.basic_block_predecessors b []));
}

Step-IsLinked :
    (f g : FunctionBuilder)
    → Step f g
    → f.current_basic_block < length f.basic_blocks
    → IsLinked f
    → IsLinked g
Step-IsLinked f g (appends i v p q e) c h =
    subst IsLinked (append-ok i f g v e).1 (appended-IsLinked i f c p q h)
Step-IsLinked f g (generates b e) c h =
    subst IsLinked (generate-ok f g b e) (generated-IsLinked f h)
Step-IsLinked f g (moves b p t e) c h = subst IsLinked (move-ok f g b e) (record {
  successors_there = h.successors_there;
  predecessors_there = h.predecessors_there;
  inverse = h.inverse;
})
Step-IsLinked f g (updates v i t e) c h = subst IsLinked (update-ok f g v i e) (record {
  successors_there = h.successors_there;
  predecessors_there = h.predecessors_there;
  inverse = h.inverse;
})

entry-IsLinked : (t r : ℕ) (args : List ℕ) → IsLinked (entry t r args)
entry-IsLinked t r args = record {
  successors_there = refl;
  predecessors_there = refl;
  inverse = λ a b. nothing a b;
}
  where
    nothing : (a b : ℕ) → count b (get_or ([] ∷ []) a []) ≡ count a (get_or ([] ∷ []) b [])
    nothing zero zero = refl
    nothing zero (suc b) = refl
    nothing (suc a) zero = refl
    nothing (suc a) (suc b) = refl

-- For a function built by calls that return: Append of instructions that name blocks that are
-- there, GenerateBasicBlock, SetCurrentBasicBlock to a block that is there once the current one has
-- ended, and Update with an instruction that ends a block just where the old one does: block b is
-- entered as a successor of a exactly as often as a is entered as a predecessor of b.
pub Reach-IsLinked :
    (t r : ℕ) (args : List ℕ) (f : FunctionBuilder) → Reach (entry t r args) f → IsLinked f
Reach-IsLinked t r args f start = entry-IsLinked t r args
Reach-IsLinked t r args f (step {g} reach s) =
    Step-IsLinked g f s (Reach-IsTiled t r args g reach).current_there
      (Reach-IsLinked t r args g reach)
