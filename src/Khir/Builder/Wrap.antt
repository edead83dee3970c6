-- ===== src/Khir/Builder/Wrap.antt =====
-- Folded arithmetic of khir/program_builder.cc is done on signed variables. What it gives is the sum,
-- the difference or the product of the registers, modulo the register's size.
use kushdb.Prelude.{
  ℕ, ◌+◌, ◌-◌, ◌*◌, ◌%◌, ◌≤◌, ◌<◌, ◌≡◌, refl, sym, ap, ◌∙◌, arith, dec_lt, ltb, lt→ltb, ltb_of_le,
}
use kushdb.Prelude.Int.{ltb_ℤ, neg_part, pos, pos_part, sub_ℕ, ◌*ℤ◌, ◌+ℤ◌, ◌-ℤ◌}
use kushdb.Khir.Builder.{Kind, i1, i16, i32, i64, i8}
use kushdb.Khir.Builder.Arith.{difference, half, product, signed, sum, wrap_to}

abbrev pub modulus : Kind → ℕ
modulus k = half k + half k

pub sum-wraps :
    (k : Kind) (a b : ℕ) → a < modulus k → b < modulus k → sum k a b ≡ (a + b) % modulus k
unfolding signed wrap_to ◌+ℤ◌
sum-wraps i1 a b p q = ground arith
sum-wraps i8 a b p q = ground arith
sum-wraps i16 a b p q = ground arith
sum-wraps i32 a b p q = ground arith
sum-wraps i64 a b p q = ground arith

pub difference-wraps :
    (k : Kind) (a b : ℕ)
    → a < modulus k
    → b < modulus k
    → difference k a b ≡ (a + (modulus k - b)) % modulus k
unfolding signed wrap_to ◌-ℤ◌
difference-wraps i1 a b p q = ground arith
difference-wraps i8 a b p q = ground arith
difference-wraps i16 a b p q = ground arith
difference-wraps i32 a b p q = ground arith
difference-wraps i64 a b p q = ground arith

pub signed-lt :
    (k : Kind) (a b : ℕ)
    → a < modulus k
    → b < modulus k
    → ltb_ℤ (signed k a) (signed k b) ≡ ltb ((a + half k) % modulus k) ((b + half k) % modulus k)
unfolding signed
signed-lt k a b p q = ground arith

-- u - v differs from w by a multiple of the size.
wrap_to-sub :
    (k : Kind) (u v w q : ℕ) → u + modulus k * q ≡ v + w → wrap_to k (sub_ℕ u v) ≡ w % modulus k
unfolding wrap_to
wrap_to-sub k u v w q h = ground arith

-- c and d are the negative parts of a and b, whose sign bits are set.
both_negative : (m a b c d : ℕ) → c + a ≡ m → d + b ≡ m → d ≤ a → c * d + m * (a - d) ≡ a * b
both_negative m a b c d p q h =
    ap (λ t. c * d + t * (a - d)) (omega (arith, p, q))
    ∙ shifted_parts c d (a - d)
    ∙ ap (λ t. t * (c + (a - d))) (omega arith)
    ∙ ap (λ t. a * t) (omega (arith, p, q))
  where
    shifted_parts : (c d e : ℕ) → c * d + (d + (c + e)) * e ≡ (d + e) * (c + e)
    shifted_parts c d e = omega arith

one_negative : (m a b c : ℕ) → c + b ≡ m → m * a ≡ a * c + a * b
one_negative m a b c p = ap (λ t. t * a) (sym p) ∙ omega arith

-- The parts of a register's value, when its sign bit is clear and when it is set.
small : (k : Kind) (a : ℕ) → a < half k → signed k a ≡ pos a
unfolding signed
small k a h = rw (lt→ltb a (half k) h)

big :
    (k : Kind) (a : ℕ)
    → half k ≤ a
    → a < modulus k
    → (pos_part (signed k a) ≡ 0) × (neg_part (signed k a) + a ≡ modulus k)
unfolding signed
big k a h p = rw (ltb_of_le a (half k) h) (refl, omega arith)

pub product-wraps :
    (k : Kind) (a b : ℕ) → a < modulus k → b < modulus k → product k a b ≡ (a * b) % modulus k
unfolding ◌*ℤ◌
product-wraps k a b p q = elim (dec_lt a (half k)) [
  | yes u ↦ elim (dec_lt b (half k)) [
    | yes v ↦
        rw (small k a u, small k b v)
          (wrap_to-sub k (a * b + 0) (a * 0 + 0 * b) (a * b) 0 (omega arith))
    | no v ↦
        let (x, y) = big k b (omega (arith, v)) q in
        rw (small k a u, x)
          (wrap_to-sub k (a * 0 + 0 * neg_part (signed k b)) (a * neg_part (signed k b) + 0 * 0)
            (a * b) a (omega (arith, one_negative (modulus k) a b (neg_part (signed k b)) y)))
  ]
  | no u ↦
      let (x, y) = big k a (omega (arith, u)) p in
      elim (dec_lt b (half k)) [
        | yes v ↦
            rw (small k b v, x)
              (wrap_to-sub k (0 * b + neg_part (signed k a) * 0) (0 * 0 + neg_part (signed k a) * b)
                (a * b) b (omega (arith, one_negative (modulus k) b a (neg_part (signed k a)) y)))
        | no v ↦
            let (z, w) = big k b (omega (arith, v)) q in
            rw (x, z)
              (wrap_to-sub k (0 * 0 + neg_part (signed k a) * neg_part (signed k b))
                (0 * neg_part (signed k b) + neg_part (signed k a) * 0) (a * b)
                (a - neg_part (signed k b))
                (omega (
                  arith,
                  both_negative (modulus k) a b (neg_part (signed k a)) (neg_part (signed k b)) y w
                      (omega (arith, u, v, w)),
                )))
      ]
]
