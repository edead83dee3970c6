-- ===== src/Join/State/Path.antt =====
-- The tree after an update holds the tuple along the order that was executed.
use kushdb.Prelude.{
  ℕ, ◌+◌, ◌<◌, ◌≡◌, refl, sym, ap, ◌∙◌, subst, ◌⊎◌, inl, inr, some, List, [], ◌∷◌, arith, length,
  set, All,
}
use kushdb.Join.Tuple.{◌!◌, fill}
use kushdb.Join.Tree.{
  Slots, node, no_children, child, set_child, places, places-no_children, places-set_child,
  child-set_child,
}
use kushdb.Join.State.{walk, chain, graft, update_tree, Error, Result, ok, err}
use kushdb.Join.State.Steps.{walk_on, update_new, update_back, update_forward, update_same}
use kushdb.Join.Tree.{child-cases}
use kushdb.Join.State.Good.{
  no_children-IsGood, IsGood, child-IsGood, set_child-IsGood, chain-IsGood, places-chain,
}

-- A walk that reaches the end with the rows of the tuple.
abbrev pub Reaches : List ℕ → List ℕ → Slots → Type 0
Reaches ts tuple s =
    (rows : List ℕ) (depth : ℕ)
    → walk ts s rows depth
      ≡ record { left = []; rows = fill (λ t. tuple ! t) ts rows; depth = depth + length ts }

Reaches-nil : (tuple : List ℕ) (s : Slots) → Reaches [] tuple s
unfolding walk fill
Reaches-nil tuple s rows depth =
    ap (λ d. record { left = []; rows = rows; depth = d }) (omega arith)

Reaches-cons :
    (t : ℕ) (ts tuple : List ℕ) (s children : Slots)
    → t < places s
    → Reaches ts tuple children
    → Reaches (t ∷ ts) tuple (set_child s t (node (tuple ! t) children))
unfolding fill
Reaches-cons t ts tuple s children h r rows depth =
    walk_on t ts (set_child s t (node (tuple ! t) children)) rows depth (tuple ! t) children
      (child-set_child s t (node (tuple ! t) children) h)
    ∙ (r (set rows t (tuple ! t)) (depth + 1)
        ∙ ap
            (λ d. record {
              left = [];
              rows = fill (λ t. tuple ! t) ts (set rows t (tuple ! t));
              depth = d;
            })
            (omega arith))

chain-Reaches :
    (n : ℕ) (ts tuple : List ℕ) (s : Slots)
    → places s ≡ n
    → All (λ t. t < n) ts
    → Reaches ts tuple (chain n ts tuple s)
unfolding chain
chain-Reaches n [] tuple s e f = Reaches-nil tuple s
chain-Reaches n (t ∷ ts) tuple s e f =
    Reaches-cons t ts tuple s _ (omega (arith, e, f.0))
      (chain-Reaches n ts tuple (no_children n) (places-no_children n) f.1)

pub ok-injective : {A : Type 0} {a b : A} → ok a ≡ ok b → a ≡ b
ok-injective h = cc

pub err≢ok : {A : Type 0} {a : A} {e : Error} → err e ≡ ok a → ⊥
err≢ok h = cc

graft-ok :
    (s : Slots) (t last : ℕ) (r : Result Slots) (after : Slots)
    → graft s t last r ≡ ok after
    → (c : Slots) × ((r ≡ ok c) × (set_child s t (node last c) ≡ after))
unfolding graft
graft-ok s t last (ok c) after h = (c, (refl, ok-injective h))
graft-ok s t last (err e) after h = cc

pub trichotomy : (a b : ℕ) → (a < b) ⊎ ((a ≡ b) ⊎ (b < a))
trichotomy a b = omega arith

pub IsGood-child :
    (cards : List ℕ) (t : ℕ) (s : Slots) (last : ℕ) (children : Slots)
    → IsGood cards 0 s
    → child s t ≡ some (node last children)
    → (last < cards ! t) × (places children ≡ length cards) × IsGood cards 0 children
IsGood-child cards t s last children g h =
    child-IsGood cards s 0 t t (node last children) (omega arith) g h

module _ (cards tuple : List ℕ) where
  -- Tables of the query, at rows that they have.
  pub record Row (t : ℕ) : Type 0 where
    pub table : t < length cards
    pub row : tuple ! t < cards ! t

  -- What an accepted update makes of the children of a node.
  pub record Updated (ts : List ℕ) (after : Slots) : Type 0 where
    pub wide : places after ≡ length cards
    pub good : IsGood cards 0 after
    pub reaches : Reaches ts tuple after

  rows_of : (ts : List ℕ) → All Row ts → All (λ t. tuple ! t < cards ! t) ts
  rows_of [] f = tt
  rows_of (t ∷ ts) f = (f.0.row, rows_of ts f.1)

  tables_of : (ts : List ℕ) → All Row ts → All (λ t. t < length cards) ts
  tables_of [] f = tt
  tables_of (t ∷ ts) f = (f.0.table, tables_of ts f.1)

  chain-Updated :
      (ts : List ℕ) (s : Slots)
      → All Row ts
      → places s ≡ length cards
      → IsGood cards 0 s
      → Updated ts (chain (length cards) ts tuple s)
  chain-Updated ts s f e g = record {
    wide = places-chain cards (length cards) ts tuple s ∙ e;
    good = chain-IsGood cards ts tuple s (rows_of ts f) g;
    reaches = chain-Reaches (length cards) ts tuple s e (tables_of ts f);
  }

  deeper-Updated :
      (t last : ℕ) (ts : List ℕ) (s children : Slots)
      → Row t
      → places s ≡ length cards
      → IsGood cards 0 s
      → last ≡ tuple ! t
      → Updated ts children
      → Updated (t ∷ ts) (set_child s t (node last children))
  deeper-Updated t last ts s children f e g same u = rw same (record {
    wide = places-set_child s t _ ∙ e;
    good = set_child-IsGood cards s 0 t t _ (omega arith) g (f.row, u.wide, u.good);
    reaches = Reaches-cons t ts tuple s children (omega (arith, e, f.table)) u.reaches;
  })

  forward-Updated :
      (t : ℕ) (ts : List ℕ) (s : Slots)
      → Row t
      → All Row ts
      → places s ≡ length cards
      → IsGood cards 0 s
      → Updated (t ∷ ts) (
          set_child s t
            (node (tuple ! t) (chain (length cards) ts tuple (no_children (length cards)))))
  forward-Updated t ts s r f e g = deeper-Updated t (tuple ! t) ts s _ r e g refl (
      chain-Updated ts (no_children (length cards)) f (places-no_children (length cards))
        (no_children-IsGood cards 0 (length cards)))

  update_done : (tuple : List ℕ) (s : Slots) → update_tree (length cards) [] tuple s ≡ ok s
  unfolding update_tree
  update_done tuple s = refl

  pub update_tree-Updated :
      (ts : List ℕ) (s after : Slots)
      → All Row ts
      → places s ≡ length cards
      → IsGood cards 0 s
      → update_tree (length cards) ts tuple s ≡ ok after
      → Updated ts after
  update_tree-Updated [] s after f e g h =
      subst (Updated []) (ok-injective (sym (update_done tuple s) ∙ h))
        (record { wide = e; good = g; reaches = Reaches-nil tuple s })
  update_tree-Updated (t ∷ ts) s after f e g h = elim (child-cases s t) [
    | inl lost ↦
        subst (Updated (t ∷ ts))
          (ok-injective (sym (update_new t ts s (length cards) tuple lost) ∙ h))
          (chain-Updated (t ∷ ts) s f e g)
    | inr (last, children, found) ↦ elim (trichotomy (tuple ! t) last) [
      | inl back ↦
          absurd
            (err≢ok (sym (update_back t ts s (length cards) tuple last children found back) ∙ h))
      | inr (inl same) ↦
          let (c, ec) =
            graft-ok s t last (update_tree (length cards) ts tuple children) after
              (sym (update_same t ts s (length cards) tuple last children found (sym same)) ∙ h) in
          subst (Updated (t ∷ ts)) ec.1 (
            deeper-Updated t last ts s c f.0 e g (sym same) (
              update_tree-Updated ts children c f.1 (IsGood-child cards t s last children g found).1
                (IsGood-child cards t s last children g found).2 ec.0))
      | inr (inr forward) ↦
          subst (Updated (t ∷ ts))
            (ok-injective
              (sym (update_forward t ts s (length cards) tuple last children found forward) ∙ h))
            (forward-Updated t ts s f.0 f.1 e g)
    ]
  ]
