-- ===== src/UnionFind/Roots.antt =====
-- Roots, and what writing a parent does to them.
-- `r` is the root of `i`, at most `n` steps up.
use kushdb.Prelude.{
  ℕ, suc, ◌<◌, ◌≡◌, refl, sym, ◌∙◌, subst, ◌≢◌, false, List, arith, ℕ_discrete, ◌==◌, if◌then◌else◌,
  ==_iff, length, set, length-set, get_or, get_or-set_self, get_or-set_ne,
}

pub data Root (p : List ℕ) : ℕ → ℕ → ℕ → Type 0 where
  here : {n i r : ℕ} → i < length p → get_or p i 0 ≡ i → r ≡ i → Root p n i r
  up :
      {n i r : ℕ} → i < length p → get_or p i 0 ≢ i → Root p n (get_or p i 0) r → Root p (suc n) i r

pub Root-unique : (p : List ℕ) {n m i r s : ℕ} → Root p n i r → Root p m i s → r ≡ s
Root-unique p (here a e h) (here b f k) = h ∙ sym k
Root-unique p (here a e h) (up b f k) = absurd (f e)
Root-unique p (up a e h) (here b f k) = absurd (e f)
Root-unique p (up a e h) (up b f k) = Root-unique p h k

-- A root is its own parent.
pub Root-top : (p : List ℕ) {n i r : ℕ} → Root p n i r → (r < length p) × (get_or p r 0 ≡ r)
Root-top p (here a e h) = rw h (a, e)
Root-top p (up a e h) = Root-top p h

pub differ : (a b : ℕ) → a ≢ b → (a == b) ≡ false
differ a b h = ground arith

module _ (p : List ℕ) (i r : ℕ) where
  at_here : i < length p → get_or (set p i r) i 0 ≡ r
  at_here h = get_or-set_self p i r 0 h

  elsewhere : (j : ℕ) → i ≢ j → get_or (set p i r) j 0 ≡ get_or p j 0
  elsewhere j h = get_or-set_ne p i j r 0 h

  inside : (j : ℕ) → j < length p → j < length (set p i r)
  inside j h = rw (length-set p i r) h

  linked :
      (m : ℕ)
      → i < length p
      → r < length p
      → get_or p r 0 ≡ r
      → i ≢ r
      → Root (set p i r) (suc m) i r
  linked m a b f ne =
      Root.up (inside i a) (λ h. ne (sym h ∙ at_here a))
        (subst (λ t. Root (set p i r) m t r) (sym (at_here a))
          (Root.here (inside r b) (elsewhere r ne ∙ f) refl))

  -- Path compression: where `r` is the root of `i`, making it the parent changes no root.
  pub Root-compressed :
      (k : ℕ) → Root p k i r → i ≢ r → (m j s : ℕ) → Root p m j s → Root (set p i r) m j s
  Root-compressed k q ne m j s (here a e h) = elim (ℕ_discrete i j) [
    | yes same ↦
        absurd (ne (sym (Root-unique p q (Root.here {n = 0} (rw same a) (rw same e) refl))))
    | no other ↦ Root.here (inside j a) (elsewhere j other ∙ e) h
  ]
  Root-compressed k q ne (suc m) j s (up a e h) = elim (ℕ_discrete i j) [
    | yes same ↦
        let e' : r ≡ s =
          Root-unique p q (subst (λ t. Root p (suc m) t s) (sym same) (Root.up a e h)) in
        subst (λ t. Root (set p i r) (suc m) t s) same
          (subst (λ t. Root (set p i r) (suc m) i t) e'
            (linked m (rw same a) (Root-top p q).0 (Root-top p q).1 ne))
    | no other ↦
        Root.up (inside j a) (λ f. e (sym (elsewhere j other) ∙ f))
          (subst (λ t. Root (set p i r) m t s) (sym (elsewhere j other))
            (Root-compressed k q ne m (get_or p j 0) s h))
  ]

  -- A root that gets another root for its parent passes all it stands for on to that.
  pub Root-joined :
      i < length p
      → get_or p i 0 ≡ i
      → r < length p
      → get_or p r 0 ≡ r
      → i ≢ r
      → (m j s : ℕ) → Root p m j s
      → Root (set p i r) (suc m) j (if s == i then r else s)
  Root-joined a e b f ne m j s (here c g h) = elim (ℕ_discrete s i) [
    | yes t ↦
        rw ((==_iff s i).1 t)
          (subst (λ x. Root (set p i r) (suc m) x r) (sym t ∙ h) (linked m a b f ne))
    | no t ↦ rw (differ s i t) (Root.here (inside j c) (elsewhere j (λ x. t (h ∙ sym x)) ∙ g) h)
  ]
  Root-joined a e b f ne (suc m) j s (up c g h) =
      let other : i ≢ j = λ t. g (subst (λ x. get_or p x 0 ≡ x) t e) in
      Root.up (inside j c) (λ x. g (sym (elsewhere j other) ∙ x))
        (subst (λ t. Root (set p i r) (suc m) t (if s == i then r else s)) (sym (elsewhere j other))
          (Root-joined a e b f ne m (get_or p j 0) s h))
