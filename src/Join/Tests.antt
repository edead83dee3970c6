-- ===== src/Join/Tests.antt =====
-- The join loops and the states of a join on a query over three tables.
use kushdb.Prelude.{
  ℕ, ◌+◌, ◌*◌, ◌<◌, ◌≡◌, refl, ◌⊎◌, inl, inr, Bool, true, false, ◌||◌, some, List, [], ◌∷◌, reverse,
  arith, ◌==◌, Elem, All, Distinct,
}
use kushdb.Join.Playout.{playout}
use kushdb.Join.Playout.Laws.{Completes, playout-Completes}
use mathlib.Core.List.Permᴰ
use kushdb.Join.Tuple.{compute_last_completed_tuple, ◌!◌}
use kushdb.Join.Tree.{end, null, full, node, child, set_child, no_children}
use kushdb.Join.State.Laws.{Runs, IsValid, update-IsValid, update-resumes, join_state-IsValid}
use kushdb.Join.Completed.{completed_through, completed_before, completed_wraps}
use kushdb.Join.Rank.{rank, combinations}
use kushdb.Prelude.Int.{◌-ℤ◌, pos, negsuc}
use kushdb.Join.State.{join_state, JoinState, get_last_completed_tuple_idx, is_join_completed}
use kushdb.Join.State.{
  is_join_completed, get_last_completed_tuple_idx, JoinState, join_state, update, ok, err,
  negative_progress,
}
use kushdb.Join.Rank.{rank, combinations, Fits}

-- Tables 0, 1 and 2 have 2, 3 and 4 rows.
abbrev cards : List ℕ
cards = 2 ∷ 3 ∷ 4 ∷ []

abbrev order : List ℕ
order = 1 ∷ 2 ∷ 0 ∷ []

order-Distinct : Distinct order
order-Distinct = (
  λ e. elim e [ inl h ↦ cc | inr h ↦ elim h [ inl g ↦ cc | inr g ↦ absurd g ] ],
  (λ e. elim e [ inl h ↦ cc | inr h ↦ absurd h ], (λ e. absurd e, tt)),
)

order-Fits : All (Fits cards 3) order
order-Fits = (
  record { inside = omega arith; rows = omega arith },
  (
    record { inside = omega arith; rows = omega arith },
    (record { inside = omega arith; rows = omega arith }, tt),
  ),
)

-- Row 2 of table 2 is done, with all rows of table 0.
through_row :
    compute_last_completed_tuple order cards (negsuc 0) 2 (0 ∷ 1 ∷ 2 ∷ []) ≡ 1 ∷ 1 ∷ 2 ∷ []
unfolding compute_last_completed_tuple
through_row = refl

-- Out of budget in row 0 of table 2, the last tuple done is the last one of row 0 of table 1.
before_row : compute_last_completed_tuple order cards (negsuc 1) 2 (0 ∷ 1 ∷ 0 ∷ []) ≡ 1 ∷ 0 ∷ 3 ∷ []
unfolding compute_last_completed_tuple
before_row = refl

completed_through_example :
    rank cards
        (reverse order)
        (compute_last_completed_tuple order cards (negsuc 0) 2 (0 ∷ 1 ∷ 2 ∷ []))
      + 1
    ≡ combinations cards (0 ∷ []) * (rank cards (2 ∷ 1 ∷ []) (0 ∷ 1 ∷ 2 ∷ []) + 1)
completed_through_example =
    completed_through cards (1 ∷ []) (0 ∷ []) 2 order-Distinct (0 ∷ 1 ∷ 2 ∷ []) order-Fits
      (negsuc 0) refl

some_done : 0 < combinations cards (0 ∷ []) * rank cards (2 ∷ 1 ∷ []) (0 ∷ 1 ∷ 0 ∷ [])
unfolding combinations rank
some_done = omega arith

completed_before_example :
    rank cards
        (reverse order)
        (compute_last_completed_tuple order cards (negsuc 1) 2 (0 ∷ 1 ∷ 0 ∷ []))
      + 1
    ≡ combinations cards (0 ∷ []) * rank cards (2 ∷ 1 ∷ []) (0 ∷ 1 ∷ 0 ∷ [])
completed_before_example =
    completed_before cards (1 ∷ []) (0 ∷ []) 2 order-Distinct (0 ∷ 1 ∷ 0 ∷ []) order-Fits (negsuc 1)
      refl some_done

none_done : rank cards (2 ∷ 1 ∷ []) (0 ∷ 0 ∷ 0 ∷ []) ≡ 0
unfolding rank
none_done = refl

completed_wraps_example :
    compute_last_completed_tuple order cards (negsuc 1) 2 (0 ∷ 0 ∷ 0 ∷ []) ! 2 ≡ 3
completed_wraps_example =
    completed_wraps cards (1 ∷ []) (0 ∷ []) 2 order-Distinct (0 ∷ 0 ∷ 0 ∷ []) order-Fits (negsuc 1)
      refl none_done 2 (inr (inl refl))

abbrev tuple : List ℕ
tuple = 1 ∷ 1 ∷ 2 ∷ []

-- The state after the order reported the tuple, and after it reported a later one.
abbrev first : JoinState
first = record {
  finished = false;
  cardinalities = cards;
  root = null (
      full
        (node 1 (
          null
            (null (full (node 2 (full (node 1 (null (null (null end)))) (null (null end)))) end))))
        (null end));
  offset = negsuc 0 ∷ pos 0 ∷ negsuc 0 ∷ [];
}

start-updates : update (join_state cards) order tuple ≡ ok first
unfolding update join_state child set_child no_children ◌-ℤ◌
start-updates = refl

goes_back : update first order (0 ∷ 1 ∷ 2 ∷ []) ≡ err negative_progress
unfolding update child
goes_back = refl

-- An order with the same first table resumes at row 0 of the others, less one.
shares_prefix : get_last_completed_tuple_idx first (1 ∷ 0 ∷ 2 ∷ []) ≡ some (1 ∷ 0 ∷ 3 ∷ [])
unfolding get_last_completed_tuple_idx child
shares_prefix = refl

start-Runs : Runs (join_state cards) order tuple
unfolding join_state
start-Runs = record {
  all_tables = refl;
  rows = (
    record { table = omega arith; row = omega arith },
    (
      record { table = omega arith; row = omega arith },
      (record { table = omega arith; row = omega arith }, tt),
    ),
  );
}

update-IsValid_example : IsValid first
update-IsValid_example =
    update-IsValid (join_state cards) order tuple (join_state-IsValid cards) start-Runs first
      start-updates

update-resumes_example :
    ((first.finished ≡ true) × (is_join_completed tuple cards ≡ true))
    ⊎ ((w : List ℕ) × (get_last_completed_tuple_idx first order ≡ some w)
        × ((t : ℕ) → Elem t order → w ! t ≡ tuple ! t))
unfolding join_state
update-resumes_example =
    update-resumes (join_state cards) order tuple (join_state-IsValid cards) start-Runs first
      start-updates

-- Table 1 is connected to all, the others to no other.
abbrev star : ℕ → ℕ → Bool
star a b = a == 1 || b == 1

playout_runs : playout star reverse [] (2 ∷ 0 ∷ 0 ∷ 0 ∷ []) ≡ 2 ∷ 1 ∷ 3 ∷ 0 ∷ []
unfolding playout
playout_runs = refl

playout-Completes_example :
    Completes star reverse [] 2 (0 ∷ 0 ∷ 0 ∷ []) (playout star reverse [] (2 ∷ 0 ∷ 0 ∷ 0 ∷ []))
playout-Completes_example =
    playout-Completes star reverse Permᴰ.reverse [] 2 (0 ∷ 0 ∷ 0 ∷ []) ((λ m. m), tt)
      (omega arith, tt)
