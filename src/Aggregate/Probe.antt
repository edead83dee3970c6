-- ===== src/Aggregate/Probe.antt =====
-- Linear probing: from the place of a hash on, the first free place is found if there is one.
use kushdb.Prelude.{
  ℕ, zero, suc, ◌+◌, ◌-◌, ◌%◌, ◌^◌, ◌≤◌, ◌<◌, ◌≡◌, refl, ap, ◌∙◌, subst, inl, inr, true, false,
  List, [], ◌∷◌, arith, dec_lt, ltb, if◌then◌else◌, Bool-cases, length, set,
}
use kushdb.Aggregate.{is_taken, probe, place}
use native.Mathlib.Nat.{mod-lt, mod-eq_of_lt, mod_self}

-- The place that the probe comes to after `k` steps.
abbrev pub walk : ℕ → ℕ → ℕ → ℕ
walk room zero i = i
walk room (suc k) i = walk room k ((i + 1) % room)

walk-below : (room k i : ℕ) → i < room → walk room k i < room
walk-below room zero i h = h
walk-below room (suc k) i h = walk-below room k ((i + 1) % room) (mod-lt (i + 1) (omega arith))

walk_up : (room k i : ℕ) → i + k < room → walk room k i ≡ i + k
walk_up room zero i h = omega arith
walk_up room (suc k) i h =
    ap (walk room k) (mod-eq_of_lt {n = i + 1} {m = room} (omega arith))
    ∙ walk_up room k (i + 1) (omega arith)
    ∙ omega arith

walk_round : (room k i f : ℕ) → i + k + 1 ≡ room → f < room → walk room (k + 1 + f) i ≡ f
walk_round room zero i f e h =
    ap (λ n. walk room n i) {x = 0 + 1 + f} {y = suc f} (omega arith)
    ∙ ap (walk room f) (ap (λ n. n % room) {y = room} (omega (arith, e)) ∙ mod_self room)
    ∙ walk_up room f 0 (omega arith)
    ∙ omega arith
walk_round room (suc k) i f e h =
    ap (λ n. walk room n i) {x = suc k + 1 + f} {y = suc (k + 1 + f)} (omega arith)
    ∙ ap (walk room (k + 1 + f)) (mod-eq_of_lt {n = i + 1} {m = room} (omega (arith, e)))
    ∙ walk_round room k (i + 1) f (omega (arith, e)) h

-- Every place is come to, within as many steps as there are places.
walk_reaches : (room i f : ℕ) → i < room → f < room → (k : ℕ) × (k < room) × (walk room k i ≡ f)
walk_reaches room i f a b = elim (dec_lt f i) [
  | yes h ↦
      (room - i - 1 + 1 + f, omega (arith, h), walk_round room (room - i - 1) i f (omega arith) b)
  | no h ↦ (f - i, omega arith, walk_up room (f - i) i (omega arith) ∙ omega arith)
]

module _ (entries : List ℕ) where
  -- Where the probe stops: at a free place, with all places before it taken.
  pub record Stops (i r : ℕ) : Type 0 where
    pub steps : ℕ
    pub there : r ≡ walk (length entries) steps i
    pub passed : (j : ℕ) → j < steps → is_taken entries (walk (length entries) j i) ≡ true
    pub free : is_taken entries r ≡ false

  probe-Stops :
      (fuel i k : ℕ)
      → k < fuel
      → is_taken entries (walk (length entries) k i) ≡ false
      → Stops i (probe fuel entries i)
  unfolding probe
  probe-Stops zero i k h e = absurd (omega arith)
  probe-Stops (suc fuel) i zero h e =
      rw e (record { steps = 0; there = refl; passed = λ j p. absurd (omega arith); free = e })
  probe-Stops (suc fuel) i (suc k) h e = elim (Bool-cases (is_taken entries i)) [
    | inr f ↦
        rw f (record { steps = 0; there = refl; passed = λ j p. absurd (omega arith); free = f })
    | inl t ↦
        let s = probe-Stops fuel ((i + 1) % length entries) k (omega arith) e in
        rw t (record {
          steps = suc s.steps;
          there = s.there;
          passed = λ j p. passed_on i (s.steps) t s.passed j p;
          free = s.free;
        })
  ]
    where
      passed_on :
          (i n : ℕ)
          → is_taken entries i ≡ true
          → ((j : ℕ)
              → j < n
              → is_taken entries (walk (length entries) j ((i + 1) % length entries)) ≡ true)
          → (j : ℕ) → j < suc n
          → is_taken entries (walk (length entries) j i) ≡ true
      passed_on i n t f zero p = t
      passed_on i n t f (suc j) p = f j (omega arith)

-- How many places are taken.
unfoldable pub taken : List ℕ → ℕ
taken [] = 0
taken (e ∷ es) = let rest = taken es in if ltb 0 (e % 2 ^ 32) then suc rest else rest

free_place :
    (es : List ℕ) → taken es < length es → (f : ℕ) × (f < length es) × (is_taken es f ≡ false)
unfolding taken
free_place [] h = absurd (omega arith)
free_place (e ∷ es) h = elim (Bool-cases (ltb 0 (e % 2 ^ 32))) [
  | inr a ↦ (0, omega arith, a)
  | inl a ↦ let (f, b, c) = free_place es (fewer a) in (suc f, omega (arith, b), c)
]
  where
    fewer : ltb 0 (e % 2 ^ 32) ≡ true → taken es < length es
    fewer a =
        omega (arith, subst (λ b. (if b then suc (taken es) else taken es) < suc (length es)) a h)

pub taken-set : (es : List ℕ) (i e : ℕ) → taken (set es i e) ≤ taken es + 1
unfolding taken
taken-set [] i e = omega arith
taken-set (x ∷ es) zero e = ground arith
taken-set (x ∷ es) (suc i) e = ground (arith, taken-set es i e)

pub place-Stops :
    (es : List ℕ) (hash entry : ℕ)
    → taken es < length es
    → (r : ℕ) × (place es hash entry ≡ set es r entry)
      × (r < length es)
      × Stops es (hash % length es) r
unfolding place
place-Stops es hash entry h =
    let (f, b, c) = free_place es h in
    let home : hash % length es < length es = mod-lt hash (omega arith) in
    let (k, less, e) = walk_reaches (length es) (hash % length es) f home b in
    let s = probe-Stops es (length es) (hash % length es) k less (rw e c) in
    (
      probe (length es) es (hash % length es),
      refl,
      rw s.there (walk-below (length es) s.steps (hash % length es) home),
      s,
    )
