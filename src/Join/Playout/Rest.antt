-- ===== src/Join/Playout/Rest.antt =====
-- The tables that a playout starts with: those of the query that are not in the order yet.
use kushdb.Prelude.{
  ℕ, zero, suc, ◌+◌, ◌≤◌, ◌<◌, ◌≡◌, refl, sym, ap, subst, ◌⊎◌, inl, inr, Bool, true, false, ◌||◌,
  List, [], ◌∷◌, arith, ℕ_discrete, ◌==◌, ==_iff, Bool-cases, length, Elem, All, Distinct,
}
use kushdb.Join.Playout.{contains, unjoined_from}
use kushdb.Join.Playout.Picks.{==_no, contains-Elem, left, left-join}

-- The tables from `i` on.
abbrev tables_from : ℕ → ℕ → List ℕ
tables_from zero i = []
tables_from (suc n) i = i ∷ tables_from n (i + 1)

Elem-tables_from : (n i t : ℕ) → i ≤ t → t < i + n → Elem t (tables_from n i)
Elem-tables_from zero i t a b = absurd (omega arith)
Elem-tables_from (suc n) i t a b = elim (ℕ_discrete t i) [
  | yes e ↦ inl e
  | no e ↦ inr (Elem-tables_from n (i + 1) t (omega arith) (omega arith))
]

tables_from-Elem : (n i t : ℕ) → Elem t (tables_from n i) → (i ≤ t) × (t < i + n)
tables_from-Elem zero i t m = absurd m
tables_from-Elem (suc n) i t (inl e) = (omega arith, omega arith)
tables_from-Elem (suc n) i t (inr m) =
    let (a, b) = tables_from-Elem n (i + 1) t m in (omega (arith, a), omega (arith, b))

tables_from-Distinct : (n i : ℕ) → Distinct (tables_from n i)
tables_from-Distinct zero i = tt
tables_from-Distinct (suc n) i =
    (λ m. omega (arith, (tables_from-Elem n (i + 1) i m).0), tables_from-Distinct n (i + 1))

left-nil : (ts : List ℕ) → left [] ts ≡ length ts
unfolding left contains
left-nil [] = refl
left-nil (t ∷ ts) = ap suc (left-nil ts)

length-tables_from : (n i : ℕ) → length (tables_from n i) ≡ n
length-tables_from zero i = refl
length-tables_from (suc n) i = ap suc (length-tables_from n (i + 1))

-- Distinct tables leave the others to join.
pub left-tables :
    (n : ℕ) (joined : List ℕ)
    → Distinct joined
    → All (λ t. t < n) joined
    → left joined (tables_from n 0) + length joined ≡ n
left-tables n [] d f = omega (arith, left-nil (tables_from n 0), length-tables_from n 0)
left-tables n (t ∷ joined) d f = omega (
  arith,
  left-join joined (tables_from n 0) t (tables_from-Distinct n 0)
      (Elem-tables_from n 0 t (omega arith) (omega (arith, f.0))) new,
  left-tables n joined d.1 f.1,
)
  where
    new : contains joined t ≡ false
    new = elim (Bool-cases (contains joined t)) [
      | inl h ↦ absurd (d.0 (contains-Elem joined t h))
      | inr h ↦ h
    ]

pub all_left :
    (joined ts : List ℕ)
    → ((t : ℕ) → Elem t ts → contains joined t ≡ false)
    → left joined ts ≡ length ts
unfolding left
all_left joined [] h = refl
all_left joined (t ∷ ts) h = rw (h t (inl refl)) (ap suc (all_left joined ts (λ u m. h u (inr m))))

-- The tables that are not in the order yet.
pub unjoined-left :
    (n i : ℕ) (joined : List ℕ) (last : ℕ)
    → length (unjoined_from n i joined last) ≡ left (last ∷ joined) (tables_from n i)
unfolding unjoined_from left contains
unjoined-left zero i joined last = refl
unjoined-left (suc n) i joined last = elim (Bool-cases (contains joined i)) [
  | inl a ↦ rw (a, or_true (last == i)) (unjoined-left n (i + 1) joined last)
  | inr a ↦ elim (ℕ_discrete i last) [
    | yes e ↦
        rw (a, (==_iff i last).1 e, (==_iff last i).1 (sym e)) (unjoined-left n (i + 1) joined last)
    | no e ↦
        rw (a, ==_no i last e, ==_no last i (λ h. e (sym h)))
          (ap suc (unjoined-left n (i + 1) joined last))
  ]
]
  where
    or_true : (a : Bool) → (a || true) ≡ true
    or_true a = ground arith

-- A table is passed over or listed, and then it is not in the order.
unjoined_step :
    (n i : ℕ) (joined : List ℕ) (last : ℕ)
    → (unjoined_from (suc n) i joined last ≡ unjoined_from n (i + 1) joined last)
      ⊎ ((unjoined_from (suc n) i joined last ≡ i ∷ unjoined_from n (i + 1) joined last)
          × (contains (last ∷ joined) i ≡ false))
unfolding unjoined_from contains
unjoined_step n i joined last = elim (Bool-cases (contains joined i)) [
  | inl a ↦ inl (rw a)
  | inr a ↦ elim (ℕ_discrete i last) [
    | yes e ↦ inl (rw (a, (==_iff i last).1 e))
    | no e ↦ inr (rw (a, ==_no i last e), rw (a, ==_no last i (λ h. e (sym h))))
  ]
]

unjoined_nil : (i : ℕ) (joined : List ℕ) (last : ℕ) → unjoined_from zero i joined last ≡ []
unfolding unjoined_from
unjoined_nil i joined last = refl

later : (n i t : ℕ) (P : Type 0) → (i + 1 ≤ t) × (t < i + 1 + n) × P → (i ≤ t) × (t < i + suc n) × P
later n i t P h = (omega (arith, h.0), omega (arith, h.1), h.2)

pub unjoined-Elem :
    (n i : ℕ) (joined : List ℕ) (last t : ℕ)
    → Elem t (unjoined_from n i joined last)
    → (i ≤ t) × (t < i + n) × (contains (last ∷ joined) t ≡ false)
unjoined-Elem zero i joined last t m = absurd (subst (Elem t) (unjoined_nil i joined last) m)
unjoined-Elem (suc n) i joined last t m = elim (unjoined_step n i joined last) [
  | inl e ↦ later n i t _ (unjoined-Elem n (i + 1) joined last t (subst (Elem t) e m))
  | inr (e, c) ↦ elim (subst (Elem t) e m) [
    | inl h ↦ (omega (arith, h), omega (arith, h), rw h c)
    | inr k ↦ later n i t _ (unjoined-Elem n (i + 1) joined last t k)
  ]
]

pub unjoined-Distinct :
    (n i : ℕ) (joined : List ℕ) (last : ℕ) → Distinct (unjoined_from n i joined last)
unjoined-Distinct zero i joined last = rw (unjoined_nil i joined last) tt
unjoined-Distinct (suc n) i joined last = elim (unjoined_step n i joined last) [
  | inl e ↦ rw e (unjoined-Distinct n (i + 1) joined last)
  | inr (e, c) ↦ rw e (
    λ m. omega (arith, (unjoined-Elem n (i + 1) joined last i m).0),
    unjoined-Distinct n (i + 1) joined last,
  )
]
