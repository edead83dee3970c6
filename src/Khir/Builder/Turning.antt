-- ===== src/Khir/Builder/Turning.antt =====
-- khir/program_builder.cc: a comparison of vectors by <= with a constant, as CmpI32Vec8 turns it round.
use kushdb.Prelude.{
  ℕ, ◌+◌, ◌%◌, ◌^◌, ◌<◌, ◌≡◌, refl, ap, ◌∙◌, ◌≢◌, ◌⊎◌, inl, inr, Bool, true, false, arith, ◌==◌,
  if◌then◌else◌, ==_ne, Bool-cases, get_or, get_or-append_last,
}
use kushdb.Khir.Opcode.{Opcode, i32_vec8_cmp_gt, i32_vec8_cmp_le, is_terminating_instr}
use kushdb.Khir.ConstantOpcode.{ConstantOpcode, i32_vec8_const_1}
use kushdb.Khir.Result.{continue, ok, ◌>>=◌}
use kushdb.Khir.Instr.{Instr, Value, build_type1, build_type2, serialize, type1}
use kushdb.Khir.Builder.{ProgramBuilder, emit2, i32, no_constant}
use kushdb.Khir.Builder.Emit.{
  IsOpen, IsOpen-Extends, emit-lem, emitted, instr_at, instr_at-emitted, register,
}
use kushdb.Khir.Builder.Logic.{gt, le}
use kushdb.Khir.Builder.Making.{Room, append-Extends, append_constant_lem, next, with_constant}
use kushdb.Khir.Builder.Machine.{compare_registers}
use kushdb.Khir.Builder.Vec8.{cmp_i32_vec8, cmp_le_constant, const_i32_vec8, int32_max}

turned :
    (c a : ℕ)
    → c < 2 ^ 32
    → a < 2 ^ 32
    → c ≢ int32_max
    → compare_registers le i32 a c ≡ compare_registers gt i32 ((c + 1) % 2 ^ 32 % 2 ^ 48) a
turned c a p q n = ground arith

straight-le : is_terminating_instr i32_vec8_cmp_le ≡ false
unfolding is_terminating_instr
straight-le = refl

straight-gt : is_terminating_instr i32_vec8_cmp_gt ≡ false
unfolding is_terminating_instr
straight-gt = refl

-- The instruction r compares v1 with the constant of all lanes c by <=: as it stands, or by > with a
-- constant of all lanes that decides the same.
abbrev pub ComparesLe : ProgramBuilder → Value → Value → Value → ℕ → Type 0
ComparesLe t r v1 v2 c =
    (instr_at t r ≡ build_type2 i32_vec8_cmp_le (serialize v1) (serialize v2))
    ⊎ ((next : Value) × (d : ℕ) × (next.constant_global ≡ true)
        × (get_or t.constant_instrs next.idx no_constant ≡ type1 i32_vec8_const_1 d)
        × (instr_at t r ≡ build_type2 i32_vec8_cmp_gt (serialize next) (serialize v1))
        × ((a : ℕ) → a < 2 ^ 32 → compare_registers le i32 a c ≡ compare_registers gt i32 d a))

-- The comparison of a vector by <= with a constant of all lanes, built in an open block with room for
-- an instruction and a constant, decides a <= c in every lane as signed numbers, also where c is -1 and
-- where it is the greatest number.
pub cmp_le_constant-ComparesLe :
    (s : ProgramBuilder) (v1 v2 : Value) (c : ℕ)
    → Room s
    → IsOpen s
    → v2.constant_global ≡ true
    → get_or s.constant_instrs v2.idx no_constant ≡ type1 i32_vec8_const_1 c
    → c < 2 ^ 32
    → (r : Value) × (t : ProgramBuilder) × (cmp_i32_vec8 le v1 v2 s ≡ (ok r, t))
      × ComparesLe t r v1 v2 c
unfolding cmp_i32_vec8 cmp_le_constant const_i32_vec8
cmp_le_constant-ComparesLe s v1 v2 c room ready k e p = elim (Bool-cases (c == int32_max)) [
  | inl q ↦ (
    register s,
    emitted (build_type2 i32_vec8_cmp_le (serialize v1) (serialize v2)) s,
    by_code true q ∙ emit-lem (build_type2 i32_vec8_cmp_le (serialize v1) (serialize v2)) s ready,
    inl (instr_at-emitted _ s ready straight-le),
  )
  | inr q ↦ (
    register t1,
    emitted (gt_instr) t1,
    by_code false q
        ∙ (ap (continue (λ n. emit2 i32_vec8_cmp_gt n v1))
              (append_constant_lem s constant_instr room)
            ∙ emit-lem gt_instr t1 ready1),
    inr (
      next s constant_instr,
      (c + 1) % 2 ^ 32 % 2 ^ 48,
      refl,
      get_or-append_last s.constant_instrs constant_instr no_constant,
      instr_at-emitted gt_instr t1 ready1 straight-gt,
      λ a h. turned c a p h (λ x. c_is_max (x) q),
    ),
  )
]
  where
    constant_instr : Instr ConstantOpcode
    constant_instr = build_type1 i32_vec8_const_1 ((c + 1) % 2 ^ 32)

    t1 : ProgramBuilder
    t1 = with_constant s constant_instr

    ready1 : IsOpen t1
    ready1 = IsOpen-Extends s t1 (append-Extends s constant_instr) ready

    gt_instr : Instr Opcode
    gt_instr = build_type2 i32_vec8_cmp_gt (serialize (next s constant_instr)) (serialize v1)

    by_code :
        (b : Bool)
        → (c == int32_max) ≡ b
        → cmp_i32_vec8 le v1 v2 s ≡ (
            if b
            then emit2 i32_vec8_cmp_le v1 v2 s
            else (do n ← const_i32_vec8 (c + 1); emit2 i32_vec8_cmp_gt n v1) s)
    by_code b q =
        ap
          (λ (x : Bool).
            if x
            then cmp_le_constant (get_or s.constant_instrs v2.idx no_constant) v1 v2 s
            else emit2 i32_vec8_cmp_le v1 v2 s)
          k
        ∙ ap (λ i. cmp_le_constant i v1 v2 s) e
        ∙ ap
            (λ (x : Bool).
              if x
              then emit2 i32_vec8_cmp_le v1 v2 s
              else (do n ← const_i32_vec8 (c + 1); emit2 i32_vec8_cmp_gt n v1) s)
            q

    c_is_max : c ≡ int32_max → ¬ ((c == int32_max) ≡ false)
    c_is_max x h = ==_ne c int32_max h x
