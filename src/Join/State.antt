-- ===== src/Join/State.antt =====
-- JoinState: which tuples each join order has completed, over all the orders tried.
pub mod Good
pub mod Steps
pub mod Path
pub mod Laws
use kushdb.Prelude.{
  ℕ, zero, suc, ◌+◌, ◌-◌, ◌*◌, ◌/◌, ◌%◌, ◌^◌, ◌≤◌, ◌<◌, ◌≡◌, refl, sym, ap, ◌∙◌, subst, ◌≢◌, ◌↔◌,
  ◌⊎◌, inl, inr, Bool, true, false, not, ◌&&◌, ◌||◌, Option, none, some, List, [], ◌∷◌, ◌++◌, map,
  reverse, reverse-append, append_assoc, append-nil, arith, dec_lt, ℕ_discrete, ltb, leb, ◌==◌,
  if◌then◌else◌, ltb→lt, lt→ltb, leb→le, le→leb, lt_of_not_leb, ge_of_not_lt, ==_iff, ==_ne,
  Bool-cases, Option-cases, length, get_elem?, set, length-append, length-set, get_or, take, drop,
  replicate, length-take, length-drop, length-replicate, length-map, Elem, Ascending, All,
  get_or-set_self, get_or-set_ne, Distinct, Elem-append, Elem-append_left, Elem-append_right,
  reverse-cons, Elem-reverse, reverse-Elem, Distinct-reverse, Distinct-apart, Distinct-right,
  All-of_Elem, All-at, All-reverse,
}
use kushdb.Join.Tuple.{◌!◌, fill, try_decrement}
use kushdb.Join.Tree.{Slots, Node, node, no_children, child, set_child}
use kushdb.Prelude.Int.{ℤ, pos, negsuc, ◌-ℤ◌, ltb_ℤ}

pub record JoinState : Type 0 where
  pub finished : Bool
  pub cardinalities : List ℕ
  pub root : Slots
  pub offset : List ℤ

unfoldable pub join_state : List ℕ → JoinState
join_state cardinalities = record {
  finished = false;
  cardinalities = cardinalities;
  root = no_children (length cardinalities);
  offset = replicate (length cardinalities) (negsuc 0);
}

-- How far a walk down the tree along an order came: the tables left, the rows met, and the depth.
pub record Walk : Type 0 where
  pub left : List ℕ
  pub rows : List ℕ
  pub depth : ℕ

unfoldable pub walk : List ℕ → Slots → List ℕ → ℕ → Walk
walk [] slots rows depth = record { left = []; rows = rows; depth = depth }
walk (t ∷ ts) slots rows depth = elim (child slots t) [
  | none ↦ record { left = t ∷ ts; rows = rows; depth = depth }
  | some (node last children) ↦ walk ts children (set rows t last) (depth + 1)
]

-- GetLastCompletedTupleIdx, once the walk is done: an order that was never executed has no tuple;
-- one whose prefix was executed starts at row 0 of the other tables, less one.
unfoldable pub resume : List ℕ → List ℕ → Walk → Option (List ℕ)
unfolding fill try_decrement
resume cards order w = elim w.left [
  | [] ↦ some w.rows
  | t ∷ ts ↦
      if w.depth == 0
      then none
      else try_decrement cards (reverse order) (fill (λ _. 0) (t ∷ ts) w.rows)
]

unfoldable pub get_last_completed_tuple_idx : JoinState → List ℕ → Option (List ℕ)
unfolding walk resume
get_last_completed_tuple_idx s order =
    resume s.cardinalities order (walk order s.root (replicate (length order) 0) 0)

-- std::runtime_error
pub data Error : Type 0 where
  already_done negative_progress : Error

pub data Result {ℓ} (A : Type ℓ) : Type ℓ where
  ok : A → Result A
  err : Error → Result A

-- `last_completed_tuple[i] != cardinalities[i] - 1`, for all tables. Rows are at least 0, and
-- `row + 1 == card` says the same without a subtraction.
unfoldable pub is_join_completed : List ℕ → List ℕ → Bool
is_join_completed [] cards = true
is_join_completed (v ∷ vs) [] = false
is_join_completed (v ∷ vs) (c ∷ cs) = v + 1 == c && is_join_completed vs cs

-- The new nodes along the rest of an order, from the children of the node before.
unfoldable pub chain : ℕ → List ℕ → List ℕ → Slots → Slots
chain n [] tuple slots = slots
chain n (t ∷ ts) tuple slots =
    set_child slots t (node (tuple ! t) (chain n ts tuple (no_children n)))

-- `curr` gets the children that the rest of the update makes.
unfoldable pub graft : Slots → ℕ → ℕ → Result Slots → Result Slots
graft slots t last (ok children) = ok (set_child slots t (node last children))
graft slots t last (err e) = err e

-- The loop of Update over the progress tree; `n` is `order.size()`.
unfoldable pub update_tree : ℕ → List ℕ → List ℕ → Slots → Result Slots
unfolding chain graft
update_tree n [] tuple slots = ok slots
update_tree n (t ∷ ts) tuple slots = elim (child slots t) [
  | none ↦ ok (chain n (t ∷ ts) tuple slots)
  | some (node last children) ↦
      let deeper = update_tree n ts tuple children in
      if ltb (tuple ! t) last
      then err negative_progress
      else if ltb last (tuple ! t)
      then ok (set_child slots t (node (tuple ! t) (chain n ts tuple (no_children n))))
      else graft slots t last deeper
]

-- Whether every table but the first of the order stands at its last row.
unfoldable pub others_completed : List ℕ → List ℕ → List ℕ → Bool
others_completed cards tuple [] = true
others_completed cards tuple (t ∷ ts) =
    tuple ! t + 1 == cards ! t && others_completed cards tuple ts

abbrev pub max_ℤ : ℤ → ℤ → ℤ
max_ℤ a b = if ltb_ℤ a b then b else a

-- Every order has a first table; for the empty one, which the source cannot index, nothing changes.
unfoldable pub update_offset : List ℕ → List ℕ → List ℕ → List ℤ → List ℤ
unfolding others_completed
update_offset cards tuple [] offset = offset
update_offset cards tuple (first ∷ ts) offset =
    let last = pos (tuple ! first) in
    let finished = if others_completed cards tuple ts then last else last -ℤ pos 1 in
    set offset first (max_ℤ finished (get_or offset first (negsuc 0)))

-- An exception leaves the join, so its result has no state.
unfoldable pub update : JoinState → List ℕ → List ℕ → Result JoinState
unfolding is_join_completed update_offset update_tree
update s order tuple =
    let offset = update_offset s.cardinalities tuple order s.offset in
    let grown = update_tree (length order) order tuple s.root in
    if s.finished
    then err already_done
    else if is_join_completed tuple s.cardinalities
    then ok (record s { finished = true })
    else elim grown [ ok root ↦ ok (record s { root = root; offset = offset }) | err e ↦ err e ]
