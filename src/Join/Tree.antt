-- ===== src/Join/Tree.antt =====
-- JoinState::ProgressTree: for each prefix of an order that was executed, the last completed row of
-- the table that the prefix ends with. `child_nodes` has a place for each table.
use kushdb.Prelude.{ℕ, zero, suc, ◌<◌, ◌≡◌, refl, ap, ◌⊎◌, inl, inr, Option, none, some, arith}

mutual
  -- std::vector<std::unique_ptr<ProgressTree>>: a null pointer or a node at each place.
  pub data Slots : Type 0 where
    end : Slots
    null : Slots → Slots
    full : Node → Slots → Slots

  pub data Node : Type 0 where
    node : ℕ → Slots → Node

-- `child_nodes(num_tables)`.
unfoldable pub no_children : ℕ → Slots
no_children zero = end
no_children (suc n) = null (no_children n)

-- `child_nodes[table]`; past the end there is nothing to read.
unfoldable pub child : Slots → ℕ → Option Node
child end t = none
child (null s) zero = none
child (full n s) zero = some n
child (null s) (suc t) = child s t
child (full n s) (suc t) = child s t

unfoldable pub set_child : Slots → ℕ → Node → Slots
set_child end t n = end
set_child (null s) zero n = full n s
set_child (full m s) zero n = full n s
set_child (null s) (suc t) n = null (set_child s t n)
set_child (full m s) (suc t) n = full m (set_child s t n)

abbrev pub places : Slots → ℕ
places end = 0
places (null s) = suc (places s)
places (full n s) = suc (places s)

pub child-no_children : (n t : ℕ) → child (no_children n) t ≡ none
unfolding child no_children
child-no_children zero t = refl
child-no_children (suc n) zero = refl
child-no_children (suc n) (suc t) = child-no_children n t

pub places-no_children : (n : ℕ) → places (no_children n) ≡ n
unfolding no_children
places-no_children zero = refl
places-no_children (suc n) = ap suc (places-no_children n)

pub places-set_child : (s : Slots) (t : ℕ) (n : Node) → places (set_child s t n) ≡ places s
unfolding set_child
places-set_child end t n = refl
places-set_child (null s) zero n = refl
places-set_child (full m s) zero n = refl
places-set_child (null s) (suc t) n = ap suc (places-set_child s t n)
places-set_child (full m s) (suc t) n = ap suc (places-set_child s t n)

pub child-set_child :
    (s : Slots) (t : ℕ) (n : Node) → t < places s → child (set_child s t n) t ≡ some n
unfolding child set_child
child-set_child end t n h = absurd (omega arith)
child-set_child (null s) zero n h = refl
child-set_child (full m s) zero n h = refl
child-set_child (null s) (suc t) n h = child-set_child s t n (omega arith)
child-set_child (full m s) (suc t) n h = child-set_child s t n (omega arith)

pub child-cases :
    (s : Slots) (t : ℕ)
    → (child s t ≡ none)
      ⊎ ((last : ℕ) × (children : Slots) × (child s t ≡ some (node last children)))
child-cases s t = go (child s t) refl
  where
    go :
        (o : Option Node)
        → child s t ≡ o
        → (child s t ≡ none)
          ⊎ ((last : ℕ) × (children : Slots) × (child s t ≡ some (node last children)))
    go none e = inl e
    go (some (node last children)) e = inr (last, children, e)
