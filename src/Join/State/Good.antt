-- ===== src/Join/State/Good.antt =====
-- Well-formed progress trees: every node has a place for each table and a row that its table has.
use kushdb.Prelude.{
  ℕ, zero, suc, ◌+◌, ◌<◌, ◌≡◌, refl, ◌∙◌, subst, some, List, [], ◌∷◌, arith, length, All,
}
use kushdb.Join.Tuple.{◌!◌}
use kushdb.Join.Tree.{
  Slots, end, null, full, Node, node, no_children, child, set_child, places, places-no_children,
  places-set_child,
}
use mathlib.Core.Option.{some-injective}
use kushdb.Join.State.{chain}

module _ (cards : List ℕ) where
  abbrev mutual
    -- The places from the `i`-th table on.
    pub IsGood : ℕ → Slots → Type 0
    IsGood i end = Unit
    IsGood i (null s) = IsGood (suc i) s
    IsGood i (full m s) = IsGoodNode i m × IsGood (suc i) s

    pub IsGoodNode : ℕ → Node → Type 0
    IsGoodNode i (node last s) = (last < cards ! i) × (places s ≡ length cards) × IsGood 0 s

  pub no_children-IsGood : (i n : ℕ) → IsGood i (no_children n)
  unfolding no_children
  no_children-IsGood i zero = tt
  no_children-IsGood i (suc n) = no_children-IsGood (suc i) n

  pub child-IsGood :
      (s : Slots) (i t k : ℕ) (m : Node)
      → k ≡ i + t
      → IsGood i s
      → child s t ≡ some m
      → IsGoodNode k m
  unfolding child
  child-IsGood end i t k m e g h = cc
  child-IsGood (null s) i zero k m e g h = cc
  child-IsGood (full n s) i zero k m e g h =
      let e' : i ≡ k = omega arith in
      subst (λ x. IsGoodNode x m) e' (subst (IsGoodNode i) (some-injective _ _ h) g.0)
  child-IsGood (null s) i (suc t) k m e g h = child-IsGood s (suc i) t k m (omega arith) g h
  child-IsGood (full n s) i (suc t) k m e g h = child-IsGood s (suc i) t k m (omega arith) g.1 h

  pub set_child-IsGood :
      (s : Slots) (i t k : ℕ) (m : Node)
      → k ≡ i + t
      → IsGood i s
      → IsGoodNode k m
      → IsGood i (set_child s t m)
  unfolding set_child
  set_child-IsGood end i t k m e g h = tt
  set_child-IsGood (null s) i zero k m e g h =
      let e' : k ≡ i = omega arith in (subst (λ x. IsGoodNode x m) e' h, g)
  set_child-IsGood (full n s) i zero k m e g h =
      let e' : k ≡ i = omega arith in (subst (λ x. IsGoodNode x m) e' h, g.1)
  set_child-IsGood (null s) i (suc t) k m e g h = set_child-IsGood s (suc i) t k m (omega arith) g h
  set_child-IsGood (full n s) i (suc t) k m e g h =
      (g.0, set_child-IsGood s (suc i) t k m (omega arith) g.1 h)

  pub places-chain :
      (n : ℕ) (ts tuple : List ℕ) (s : Slots) → places (chain n ts tuple s) ≡ places s
  unfolding chain
  places-chain n [] tuple s = refl
  places-chain n (t ∷ ts) tuple s = places-set_child s t _

  pub chain-IsGood :
      (ts tuple : List ℕ) (s : Slots)
      → All (λ t. tuple ! t < cards ! t) ts
      → IsGood 0 s
      → IsGood 0 (chain (length cards) ts tuple s)
  unfolding chain
  chain-IsGood [] tuple s f g = g
  chain-IsGood (t ∷ ts) tuple s f g = set_child-IsGood s 0 t t _ (omega arith) g (
    f.0,
    (places-chain (length cards) ts tuple _ ∙ places-no_children (length cards)),
    chain-IsGood ts tuple _ f.1 (no_children-IsGood 0 (length cards)),
  )
