-- ===== src/Join/State/Steps.antt =====
-- One step of a walk or of an update, by what stands in the tree.
use kushdb.Prelude.{ℕ, ◌+◌, ◌<◌, ◌≡◌, none, some, List, ◌∷◌, arith, lt→ltb, ltb_of_le, set}
use kushdb.Join.Tuple.{◌!◌}
use kushdb.Join.Tree.{Slots, node, no_children, child, set_child}
use kushdb.Join.State.{walk, chain, graft, update_tree, ok, err, negative_progress}

module _ (t : ℕ) (ts : List ℕ) (s : Slots) where
  pub walk_stop :
      (rows : List ℕ) (depth : ℕ)
      → child s t ≡ none
      → walk (t ∷ ts) s rows depth ≡ record { left = t ∷ ts; rows = rows; depth = depth }
  unfolding walk
  walk_stop rows depth e = rw (e, walk)

  pub walk_on :
      (rows : List ℕ) (depth last : ℕ) (children : Slots)
      → child s t ≡ some (node last children)
      → walk (t ∷ ts) s rows depth ≡ walk ts children (set rows t last) (depth + 1)
  unfolding walk
  walk_on rows depth last children e = rw (e, walk)

  module _ (n : ℕ) (tuple : List ℕ) where
    pub update_new :
        child s t ≡ none → update_tree n (t ∷ ts) tuple s ≡ ok (chain n (t ∷ ts) tuple s)
    unfolding update_tree
    update_new e = rw (e, update_tree)

    module _ (last : ℕ) (children : Slots) (e : child s t ≡ some (node last children)) where
      pub update_back : tuple ! t < last → update_tree n (t ∷ ts) tuple s ≡ err negative_progress
      unfolding update_tree
      update_back h = rw (e, update_tree) (rw (lt→ltb _ _ h))

      pub update_forward :
          last < tuple ! t
          → update_tree n (t ∷ ts) tuple s
            ≡ ok (set_child s t (node (tuple ! t) (chain n ts tuple (no_children n))))
      unfolding update_tree
      update_forward h =
          rw (e, update_tree) (rw (ltb_of_le (tuple ! t) last (omega arith), lt→ltb _ _ h))

      pub update_same :
          last ≡ tuple ! t
          → update_tree n (t ∷ ts) tuple s ≡ graft s t last (update_tree n ts tuple children)
      unfolding update_tree
      update_same h =
          rw (e, update_tree)
            (rw
              (ltb_of_le (tuple ! t) last (omega arith), ltb_of_le last (tuple ! t) (omega arith)))
