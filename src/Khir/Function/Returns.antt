-- ===== src/Khir/Function/Returns.antt =====
-- khir/program_builder.cc: what a call that returns has found, and what it leaves.
use kushdb.Prelude.{
  ℕ, ◌≡◌, sym, ap, ◌∙◌, subst, inl, inr, Bool, true, false, none, some, [], ◌∷◌, ◌++◌,
  if◌then◌else◌, Bool-cases, Option-cases, length, set,
}
use kushdb.Khir.Opcode.{Opcode}
use kushdb.Khir.Result.{Error, Result, err, external_body, ok}
use kushdb.Khir.Instr.{Instr, Value}
use kushdb.Khir.Function.{
  FunctionBuilder, append, generate_basic_block, is_terminated, new_block, set_current_basic_block,
  update,
}
use kushdb.Khir.Function.Append.{append-external, append-terminated, append-there}
use kushdb.Khir.Function.Appended.{appended, current}

ok_is_not_err : {A : Type 0} {a : A} {e : Error} → ¬ (err e ≡ ok a)
ok_is_not_err h = subst (λ r. elim r [ ok a ↦ ⊥ | err e ↦ Unit {0} ]) h tt

pub append-ok :
    (i : Instr Opcode) (f g : FunctionBuilder) (v : Value)
    → append i f ≡ (ok v, g)
    → ((current f).second ≡ none) × (appended i f ≡ g)
append-ok i f g v e = elim (Bool-cases f.external) [
  | inl x ↦ absurd (ok_is_not_err (ap (λ r. r.0) (sym (append-external i f x) ∙ e)))
  | inr x ↦ elim (Option-cases (current f).second) [
    | inr (l, y) ↦ absurd (ok_is_not_err (ap (λ r. r.0) (sym (append-terminated i f x y) ∙ e)))
    | inl y ↦ (y, ap (λ r. r.1) (sym (append-there i f x y) ∙ e))
  ]
]

abbrev pub generated : FunctionBuilder → FunctionBuilder
generated f = record f {
  basic_blocks = f.basic_blocks ++ (new_block ∷ []);
  basic_block_successors = f.basic_block_successors ++ ([] ∷ []);
  basic_block_predecessors = f.basic_block_predecessors ++ ([] ∷ []);
}

pub generate-ok :
    (f g : FunctionBuilder) (b : ℕ) → generate_basic_block f ≡ (ok b, g) → generated f ≡ g
unfolding generate_basic_block
generate-ok f g b e = elim (Bool-cases f.external) [
  | inl x ↦ absurd (ok_is_not_err (ap (λ r. r.0) (rw x at e)))
  | inr x ↦
      ap (λ r. r.1)
        (sym (
            ap
              (λ (c : Bool).
                if c then (err external_body, f) else (ok (length f.basic_blocks), generated f))
              x)
          ∙ e)
]

pub move-ok :
    (f g : FunctionBuilder) (b : ℕ)
    → set_current_basic_block b f ≡ (ok tt, g)
    → record f { current_basic_block = b } ≡ g
unfolding set_current_basic_block
move-ok f g b e = elim (Bool-cases f.external) [
  | inl x ↦ absurd (ok_is_not_err (ap (λ r. r.0) (rw x at e)))
  | inr x ↦
      ap (λ r. r.1)
        (sym (
            ap
              (λ (c : Bool).
                if c then (err external_body, f) else (ok tt, record f { current_basic_block = b }))
              x)
          ∙ e)
]

pub update-ok :
    (f g : FunctionBuilder) (v : Value) (i : Instr Opcode)
    → update v i f ≡ (ok tt, g)
    → record f { instructions = set f.instructions v.idx i } ≡ g
unfolding update
update-ok f g v i e = elim (Bool-cases f.external) [
  | inl x ↦ absurd (ok_is_not_err (ap (λ r. r.0) (rw x at e)))
  | inr x ↦
      ap (λ r. r.1)
        (sym (
            ap
              (λ (c : Bool).
                if c
                then (err external_body, f)
                else (ok tt, record f { instructions = set f.instructions v.idx i }))
              x)
          ∙ e)
]

true_is_not_false : ¬ (false ≡ true)
true_is_not_false h = subst (λ b. elim b [ true ↦ ⊥ | false ↦ Unit {0} ]) h tt

answer : Result Bool → Bool
answer (ok b) = b
answer (err e) = true

pub terminated-ok :
    (f : FunctionBuilder) (b : ℕ)
    → is_terminated b f ≡ (ok true, f)
    → (l : ℕ) × ((current f).second ≡ some l)
unfolding is_terminated answer
terminated-ok f b e = elim (Bool-cases f.external) [
  | inl x ↦ absurd (ok_is_not_err (ap (λ r. r.0) (rw x at e)))
  | inr x ↦ elim (Option-cases (current f).second) [
    | inl y ↦ absurd (true_is_not_false (ap (λ r. answer r.0) (rw (x, y) at e)))
    | inr z ↦ z
  ]
]
