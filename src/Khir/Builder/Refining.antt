-- ===== src/Khir/Builder/Refining.antt =====
-- khir/program_builder.cc: what an operation that folds constants promises, and the two ways to fold:
-- with the operands swapped, and without.
use kushdb.Prelude.{
  ℕ, ◌%◌, ◌^◌, ◌≡◌, refl, sym, ap, ◌∙◌, inl, inr, Bool, true, false, ◌&&◌, some, arith,
  if◌then◌else◌, Bool-cases,
}
use kushdb.Khir.Opcode.{Opcode, is_terminating_instr}
use kushdb.Khir.Result.{M, ok}
use kushdb.Khir.Instr.{Instr, Value, build_type2, deserialize, serialize}
use kushdb.Khir.Builder.{Kind, ProgramBuilder, const_, emit1, emit2, read_constant}
use kushdb.Khir.Builder.Emit.{IsOpen, emit-lem, emitted, instr_at-emitted, register}
use kushdb.Khir.Builder.Constants.{const_-Names}
use kushdb.Khir.Builder.Making.{Room, truncated}
use kushdb.Khir.Builder.Naming.{IsCached, Names, Names-Extends}
use kushdb.Khir.Builder.Machine.{
  Computes, IsCached-emitted, IsOperand, Names-emitted, execute, machine, meaning, meaning-emitted,
}
use kushdb.Khir.Builder.Arith.{commutative, unswapped}

-- What an operation promises: it succeeds with a value that computes x, and what was a constant
-- before still is that constant.
abbrev pub Refines : Kind → Kind → ProgramBuilder → (ℕ → ℕ) → ℕ → M ProgramBuilder Value → Type 0
Refines j k s env x m =
    (r : Value) × (t : ProgramBuilder) × (m s ≡ (ok r, t))
    × Computes j k t env r x
    × IsCached t
    × ((i : Kind) (v : Value) (n : ℕ) → Names s i v n → Names t i v n)

module _ (j k : Kind) (s : ProgramBuilder) (env : ℕ → ℕ) where
  pub const_-Refines :
      (n x : ℕ) → IsCached s → Room s → truncated j n ≡ x → Refines j k s env x (const_ j n)
  const_-Refines n x c room e =
      let (r, t, made, names, extends, cached_t, again) = const_-Names j n s c room in
      (
        r,
        t,
        made,
        inl (names.is_constant, names.reads ∙ e),
        cached_t,
        λ i v m. Names-Extends s t i v m extends,
      )

  pub emit2-Refines :
      (o : Opcode) (v1 v2 : Value) (x : ℕ)
      → IsCached s
      → IsOpen s
      → IsOperand v1
      → IsOperand v2
      → is_terminating_instr o ≡ false
      → machine o (meaning k v1 s env) (meaning k v2 s env) ≡ some x
      → Refines j k s env x (emit2 o v1 v2)
  emit2-Refines o v1 v2 x c ready p q t e = (
    register s,
    emitted i s,
    emit-lem i s ready,
    inr (
      refl,
      ap (execute k (emitted i s) env) (instr_at-emitted i s ready t)
          ∙ ap
              (λ a. machine o a (meaning k (deserialize (serialize v2 % 2 ^ 24)) (emitted i s) env))
              (meaning-emitted k v1 env i s p)
          ∙ ap (machine o (meaning k v1 s env)) (meaning-emitted k v2 env i s q)
          ∙ e,
    ),
    IsCached-emitted i s c,
    Names-emitted i s,
  )
    where
      i : Instr Opcode
      i = build_type2 o (serialize v1) (serialize v2)

  -- An instruction of one operand: what stands in the other field does not matter.
  pub emit1-Refines :
      (o : Opcode) (v : Value) (x : ℕ)
      → IsCached s
      → IsOpen s
      → IsOperand v
      → is_terminating_instr o ≡ false
      → ((b : ℕ) → machine o (meaning k v s env) b ≡ some x)
      → Refines j k s env x (emit1 o v)
  emit1-Refines o v x c ready p t e = (
    register s,
    emitted i s,
    emit-lem i s ready,
    inr (
      refl,
      ap (execute k (emitted i s) env) (instr_at-emitted i s ready t)
          ∙ ap (λ a. machine o a (meaning k (deserialize 0) (emitted i s) env))
              (meaning-emitted k v env i s p)
          ∙ e (meaning k (deserialize 0) (emitted i s) env),
    ),
    IsCached-emitted i s c,
    Names-emitted i s,
  )
    where
      i : Instr Opcode
      i = build_type2 o (serialize v) 0

pub Refines-same :
    (j k : Kind) (s : ProgramBuilder) (env : ℕ → ℕ) (x : ℕ) (m m' : M ProgramBuilder Value)
    → m s ≡ m' s
    → Refines j k s env x m'
    → Refines j k s env x m
Refines-same j k s env x m m' e h = (h.0, h.1, e ∙ h.2, h.3, h.4, h.5)

-- The meaning of a constant.
pub meaning-constant :
    (k : Kind) (v : Value) (s : ProgramBuilder) (env : ℕ → ℕ)
    → v.constant_global ≡ true
    → read_constant k v s ≡ meaning k v s env
meaning-constant k v s env h =
    ap (λ (b : Bool). if b then read_constant k v s else env v.idx) (sym h)

-- The operation f on registers, and op as it is folded.
module _ (k : Kind) (s : ProgramBuilder) (env : ℕ → ℕ) (op f : ℕ → ℕ → ℕ) (o : Opcode)
    (v1 v2 : Value) (c : IsCached s) (room : Room s) (ready : IsOpen s) (p : IsOperand v1)
    (q : IsOperand v2) (runs : (a b : ℕ) → machine o a b ≡ some (f a b))
    (straight : is_terminating_instr o ≡ false)
    (folds : truncated k (op (meaning k v1 s env) (meaning k v2 s env))
      ≡ f (meaning k v1 s env) (meaning k v2 s env)) where
  folded :
      v1.constant_global ≡ true
      → v2.constant_global ≡ true
      → Refines k k s env
          (f (meaning k v1 s env) (meaning k v2 s env))
          (const_ k (op (read_constant k v1 s) (read_constant k v2 s)))
  folded h1 h2 =
      const_-Refines k k s env (op (read_constant k v1 s) (read_constant k v2 s))
        (f (meaning k v1 s env) (meaning k v2 s env)) c room
        (ap (λ a. truncated k (op a (read_constant k v2 s))) (meaning-constant k v1 s env h1)
          ∙ ap (λ b. truncated k (op (meaning k v1 s env) b)) (meaning-constant k v2 s env h2)
          ∙ folds)

  straight-Refines : Refines k k s env (f (meaning k v1 s env) (meaning k v2 s env)) (emit2 o v1 v2)
  straight-Refines =
      emit2-Refines k k s env o v1 v2 (f (meaning k v1 s env) (meaning k v2 s env)) c ready p q
        straight (runs (meaning k v1 s env) (meaning k v2 s env))

  pub commutative-Refines :
      ((a b : ℕ) → f a b ≡ f b a)
      → Refines k k s env (f (meaning k v1 s env) (meaning k v2 s env)) (commutative k op o v1 v2)
  unfolding commutative
  commutative-Refines comm = elim (Bool-cases v1.constant_global) [
    | inl h1 ↦ elim (Bool-cases v2.constant_global) [
      | inl h2 ↦
          Refines-same k k s env (f (meaning k v1 s env) (meaning k v2 s env))
            (commutative k op o v1 v2) (const_ k (op (read_constant k v1 s) (read_constant k v2 s)))
            (rw (h1, h2) refl) (folded h1 h2)
      | inr h2 ↦
          Refines-same k k s env (f (meaning k v1 s env) (meaning k v2 s env))
            (commutative k op o v1 v2) (emit2 o v2 v1) (rw (h1, h2) refl)
            (emit2-Refines k k s env o v2 v1 _ c ready q p straight (
              runs (meaning k v2 s env) (meaning k v1 s env)
              ∙ ap some (comm (meaning k v2 s env) (meaning k v1 s env))))
    ]
    | inr h1 ↦
        Refines-same k k s env (f (meaning k v1 s env) (meaning k v2 s env))
          (commutative k op o v1 v2) (emit2 o v1 v2) (rw h1 refl) straight-Refines
  ]

  pub unswapped-Refines :
      Refines k k s env (f (meaning k v1 s env) (meaning k v2 s env)) (unswapped k op o v1 v2)
  unfolding unswapped
  unswapped-Refines = elim (Bool-cases (v1.constant_global && v2.constant_global)) [
    | inl h ↦
        Refines-same k k s env (f (meaning k v1 s env) (meaning k v2 s env))
          (unswapped k op o v1 v2) (const_ k (op (read_constant k v1 s) (read_constant k v2 s)))
          (rw h refl)
          (folded (both v1.constant_global v2.constant_global h).0
            (both v1.constant_global v2.constant_global h).1)
    | inr h ↦
        Refines-same k k s env (f (meaning k v1 s env) (meaning k v2 s env))
          (unswapped k op o v1 v2) (emit2 o v1 v2) (rw h refl) straight-Refines
  ]
    where
      both : (a b : Bool) → (a && b) ≡ true → (a ≡ true) × (b ≡ true)
      both a b h = ground arith
