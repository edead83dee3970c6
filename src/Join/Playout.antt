-- ===== src/Join/Playout.antt =====
-- UctNode::Playout: the rest of a join order, chosen at random but along the connections of the
-- query. A btree_set is the list of its elements in the order they were inserted; only membership
-- and size are asked for. The random generator is the parameter `shuffle`.
mod Picks
mod Rest
pub mod Laws
use kushdb.Prelude.{
  ℕ, zero, suc, ◌+◌, ◌-◌, ◌*◌, ◌/◌, ◌%◌, ◌^◌, ◌≤◌, ◌<◌, ◌≡◌, refl, sym, ap, ◌∙◌, subst, ◌≢◌, ◌↔◌,
  ◌⊎◌, inl, inr, Bool, true, false, not, ◌&&◌, ◌||◌, Option, none, some, List, [], ◌∷◌, ◌++◌, map,
  reverse, reverse-append, append_assoc, append-nil, arith, dec_lt, ℕ_discrete, ltb, leb, ◌==◌,
  if◌then◌else◌, ltb→lt, lt→ltb, leb→le, le→leb, lt_of_not_leb, leb_of_lt, ltb_of_le, ge_of_not_lt,
  ==_iff, ==_ne, Bool-cases, Option-cases, length, get_elem?, set, length-append, length-set,
  get_or, take, drop, replicate, length-take, take-set, take-append_take, length-drop,
  length-replicate, length-map, Elem, Ascending, All, get_or-set_self, get_or-set_ne, Distinct,
  Elem-append, Elem-append_left, Elem-append_right, reverse-cons, Elem-reverse, reverse-Elem,
  Distinct-reverse, Distinct-apart, Distinct-append, Distinct-right, All-of_Elem, All-at,
  All-reverse,
}

unfoldable pub contains : List ℕ → ℕ → Bool
contains [] t = false
contains (u ∷ us) t = u == t || contains us t

-- The second loop, where no table is connected.
unfoldable pub find_unjoined : List ℕ → List ℕ → Option ℕ
unfolding contains
find_unjoined joined [] = none
find_unjoined joined (t ∷ ts) = if not (contains joined t) then some t else find_unjoined joined ts

-- `!joined_tables_.contains(i) && i != last_table`, for the tables from `i` on.
unfoldable pub unjoined_from : ℕ → ℕ → List ℕ → ℕ → List ℕ
unfolding contains
unjoined_from zero i joined last_table = []
unjoined_from (suc n) i joined last_table =
    let rest = unjoined_from n (i + 1) joined last_table in
    if not (contains joined i) && not (i == last_table) then i ∷ rest else rest

module _ (table_connections : ℕ → ℕ → Bool) where
  -- IsConnected of both environments.
  unfoldable pub is_connected : List ℕ → ℕ → Bool
  is_connected [] table = false
  is_connected (table1 ∷ joined) table = table_connections table1 table || is_connected joined table

  -- The first loop over `current_unjoined`.
  unfoldable pub find_connected : List ℕ → List ℕ → Option ℕ
  unfolding contains is_connected
  find_connected joined [] = none
  find_connected joined (t ∷ ts) =
      if not (contains joined t) && is_connected joined t then some t else find_connected joined ts

  unfoldable pub next_table : List ℕ → List ℕ → Option ℕ
  unfolding find_connected find_unjoined
  next_table joined unjoined = elim (find_connected joined unjoined) [
    | some t ↦ some t
    | none ↦ find_unjoined joined unjoined
  ]

  -- The loop over the positions; `n` is `num_tables_ - pos`.
  unfoldable pub fill_order : ℕ → ℕ → List ℕ → List ℕ → List ℕ → List ℕ
  unfolding next_table
  fill_order zero pos unjoined joined order = order
  fill_order (suc n) pos unjoined joined order = elim (next_table joined unjoined) [
    | some t ↦ fill_order n (pos + 1) unjoined (t ∷ joined) (set order pos t)
    | none ↦ fill_order n (pos + 1) unjoined joined order
  ]

  module _ (shuffle : List ℕ → List ℕ) where
    -- The order that is executed.
    unfoldable pub playout : List ℕ → List ℕ → List ℕ
    unfolding unjoined_from fill_order
    playout joined order =
        let last_table = get_or order (length joined) 0 in
        let unjoined = shuffle (unjoined_from (length order) 0 joined last_table) in
        let pos = length joined + 1 in
        fill_order (length order - pos) pos unjoined (last_table ∷ joined) order
