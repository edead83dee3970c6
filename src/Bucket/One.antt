-- ===== src/Bucket/One.antt =====
-- The branch for one bucket copies its tuples from the state on.
use kushdb.Prelude.{
  ℕ, zero, suc, ◌+◌, ◌-◌, ◌≡◌, ◌<◌, ◌≤◌, ◌⊎◌, inl, inr, List, [], ◌∷◌, arith, ap, sym, Bool-cases,
  ltb, ltb→lt, ge_of_not_lt, length, ◌&&◌, true, false, Elem, Ascending,
}
use kushdb.Bucket.{Bucket, populate_one}
use kushdb.Bucket.Search.{◌!◌, IsAscending}
use kushdb.Bucket.Two.{Holds, Holds-weaken}

-- The branch for one bucket.
pub record Reads (b : Bucket) (s room : ℕ) (out : List ℕ) : Type 0 where
  pub sound : (v : ℕ) → Elem v out → Holds b s v
  pub complete :
      (i : ℕ)
      → s ≤ i
      → i < b.size
      → Elem (b.cells ! i) out ⊎ ((length out ≡ room) × ((w : ℕ) → Elem w out → w < b.cells ! i))
  pub ordered : Ascending out
  pub fits : length out ≤ room

module _ (b : Bucket) (asc : IsAscending b) where
  read_stop : (s room : ℕ) → (ltb s b.size && ltb 0 room) ≡ false → Reads b s room []
  read_stop s room h = record {
    sound = λ v k. absurd k;
    complete = λ i p q. inr (ground arith, λ w k. absurd k);
    ordered = tt;
    fits = omega arith;
  }

  read_next :
      (s room : ℕ) (out : List ℕ)
      → s < b.size
      → 0 < room
      → Reads b (s + 1) (room - 1) out
      → Reads b s room (b.cells ! s ∷ out)
  read_next s room out h hr r = record {
    sound = λ v k. elim k [
      | inl here ↦ (s, omega arith, h, sym here)
      | inr rest ↦ Holds-weaken b (omega arith) (r.sound v rest)
    ];
    complete = λ i p q. elim (Bool-cases (ltb s i)) [
      | inl later ↦ elim (r.complete i (omega (arith, ltb→lt _ _ later)) q) [
        | inl k ↦ inl (inr k)
        | inr (full, below) ↦ inr (
          omega arith,
          λ w k. elim k [
            | inl here ↦ omega (arith, here, asc.ordered s i (ltb→lt _ _ later) q)
            | inr rest ↦ below w rest
          ],
        )
      ]
      | inr now ↦ inl (inl (ap (λ k. b.cells ! k) (omega (arith, ge_of_not_lt s i now, p))))
    ];
    ordered = (λ v k. above v (r.sound v k), r.ordered);
    fits = omega (arith, r.fits);
  }
    where
      above : (v : ℕ) → Holds b (s + 1) v → b.cells ! s < v
      above v (i, p, q, e) = omega (arith, asc.ordered s i (omega arith) q)

  pub populate_one-Reads :
      (fuel s room : ℕ) → b.size - s < fuel → Reads b s room (populate_one fuel b s room).0
  unfolding populate_one
  populate_one-Reads zero s room w = absurd (omega arith)
  populate_one-Reads (suc fuel) s room w = elim (Bool-cases (ltb s b.size && ltb 0 room)) [
    | inr ended ↦ rw ended (read_stop s room ended)
    | inl more ↦ rw more (
        read_next s room _ (inside more).0 (inside more).1
          (populate_one-Reads fuel (s + 1) (room - 1) (omega (arith, w, (inside more).0))))
  ]
    where
      inside : (ltb s b.size && ltb 0 room) ≡ true → (s < b.size) × (0 < room)
      inside h = ground arith
