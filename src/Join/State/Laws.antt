-- ===== src/Join/State/Laws.antt =====
-- JoinState keeps what it is told: the tuple of an accepted update is the one that the same order
-- resumes from, or else the join is finished.
use kushdb.Prelude.{
  ℕ, ◌≡◌, refl, sym, ap, ◌∙◌, subst, ◌⊎◌, inl, inr, Bool, true, false, some, List, [], ◌∷◌,
  if◌then◌else◌, length, length-set, replicate, length-replicate, Elem, All, All-at,
}
use kushdb.Join.Fill.{fill-in}
use kushdb.Join.Tree.{Slots, places, places-no_children}
use kushdb.Join.State.{
  fill, resume, ◌!◌, get_last_completed_tuple_idx, ℤ, JoinState, join_state, Error, already_done,
  Result, ok, err, is_join_completed, update_tree, update_offset, update,
}
use kushdb.Join.State.Good.{IsGood, no_children-IsGood}
use kushdb.Join.State.Path.{update_tree-Updated, ok-injective, Updated, err≢ok, Row}

pub record IsValid (s : JoinState) : Type 0 where
  pub wide : places s.root ≡ length s.cardinalities
  pub good : IsGood s.cardinalities 0 s.root
  pub offsets : length s.offset ≡ length s.cardinalities

pub join_state-IsValid : (cards : List ℕ) → IsValid (join_state cards)
unfolding join_state
join_state-IsValid cards = record {
  wide = places-no_children (length cards);
  good = no_children-IsGood cards 0 (length cards);
  offsets = length-replicate (length cards) _;
}

-- An order of the tables of the query, and a tuple with a row of each.
pub record Runs (s : JoinState) (order tuple : List ℕ) : Type 0 where
  pub all_tables : length order ≡ length s.cardinalities
  pub rows : All (Row s.cardinalities tuple) order

length-update_offset :
    (cards tuple order : List ℕ) (offset : List ℤ)
    → length (update_offset cards tuple order offset) ≡ length offset
unfolding update_offset
length-update_offset cards tuple [] offset = refl
length-update_offset cards tuple (t ∷ ts) offset = length-set offset t _

-- The ways out of Update.
pub data UpdateCase (s : JoinState) (order tuple : List ℕ) : Result JoinState → Type 0 where
  refused : s.finished ≡ true → UpdateCase s order tuple (err already_done)
  completed :
      s.finished ≡ false
      → is_join_completed tuple s.cardinalities ≡ true
      → UpdateCase s order tuple (ok (record s { finished = true }))
  advanced :
      (root : Slots)
      → s.finished ≡ false
      → is_join_completed tuple s.cardinalities ≡ false
      → update_tree (length order) order tuple s.root ≡ ok root
      → UpdateCase s order tuple (
          ok
            (record s { root = root; offset = update_offset s.cardinalities tuple order s.offset }))
  went_back :
      (e : Error)
      → s.finished ≡ false
      → is_join_completed tuple s.cardinalities ≡ false
      → update_tree (length order) order tuple s.root ≡ err e
      → UpdateCase s order tuple (err e)

update-cases :
    (s : JoinState) (order tuple : List ℕ) → UpdateCase s order tuple (update s order tuple)
unfolding update
update-cases s order tuple =
    go s.finished (is_join_completed tuple s.cardinalities)
      (update_tree (length order) order tuple s.root) refl refl refl
  where
    go :
        (b c : Bool) (r : Result Slots)
        → s.finished ≡ b
        → is_join_completed tuple s.cardinalities ≡ c
        → update_tree (length order) order tuple s.root ≡ r
        → UpdateCase s order tuple (
            if b
            then err already_done
            else if c
            then ok (record s { finished = true })
            else elim r [
              | ok root ↦ ok (record s {
                root = root;
                offset = update_offset s.cardinalities tuple order s.offset;
              })
              | err e ↦ err e
            ])
    go true c r p q e = refused p
    go false true r p q e = completed p q
    go false false (ok root) p q e = advanced root p q e
    go false false (err x) p q e = went_back x p q e

module _ (s : JoinState) (order tuple : List ℕ) (valid : IsValid s)
    (runs : Runs s order tuple) where
  updated :
      (root : Slots)
      → update_tree (length order) order tuple s.root ≡ ok root
      → Updated s.cardinalities tuple order root
  updated root e =
      update_tree-Updated s.cardinalities tuple order s.root root runs.rows valid.wide valid.good
        (subst (λ n. update_tree n order tuple s.root ≡ ok root) runs.all_tables e)

  case-IsValid :
      (r : Result JoinState) (s' : JoinState) → UpdateCase s order tuple r → r ≡ ok s' → IsValid s'
  case-IsValid r s' (refused p) e = absurd (err≢ok e)
  case-IsValid r s' (completed p q) e =
      subst IsValid (ok-injective e)
        (record { wide = valid.wide; good = valid.good; offsets = valid.offsets })
  case-IsValid r s' (advanced root p q h) e = subst IsValid (ok-injective e) (record {
    wide = (updated root h).wide;
    good = (updated root h).good;
    offsets = length-update_offset s.cardinalities tuple order s.offset ∙ valid.offsets;
  })
  case-IsValid r s' (went_back x p q h) e = absurd (err≢ok e)

  -- An update of a valid state that is accepted leaves a valid state.
  pub update-IsValid : (s' : JoinState) → update s order tuple ≡ ok s' → IsValid s'
  update-IsValid s' e = case-IsValid (update s order tuple) s' (update-cases s order tuple) e

  -- The same order resumes from the tuple that it reported.
  abbrev pub ResumesFrom : JoinState → Type 0
  ResumesFrom s' =
      (w : List ℕ) × (get_last_completed_tuple_idx s' order ≡ some w)
      × ((t : ℕ) → Elem t order → w ! t ≡ tuple ! t)

  resume-Updated :
      (root : Slots)
      → Updated s.cardinalities tuple order root
      → (offset : List ℤ) → ResumesFrom (record s { root = root; offset = offset })
  unfolding get_last_completed_tuple_idx resume
  resume-Updated root u offset = (
    fill (λ t. tuple ! t) order (replicate (length order) 0),
    rw (u.reaches (replicate (length order) 0) 0),
    λ t m.
        fill-in (λ t. tuple ! t) order (replicate (length order) 0) t m
          (rw (length-replicate {A = ℕ} (length order) 0)
            (rw runs.all_tables (All-at (Row s.cardinalities tuple) order runs.rows t m).table)),
  )

  case-resumes :
      (r : Result JoinState) (s' : JoinState)
      → UpdateCase s order tuple r
      → r ≡ ok s'
      → (s'.finished ≡ true) × (is_join_completed tuple s.cardinalities ≡ true) ⊎ ResumesFrom s'
  case-resumes r s' (refused p) e = absurd (err≢ok e)
  case-resumes r s' (completed p q) e =
      inl (ap (λ (x : JoinState). x.finished) (sym (ok-injective e)), q)
  case-resumes r s' (advanced root p q h) e =
      inr (subst ResumesFrom (ok-injective e) (resume-Updated root (updated root h) _))
  case-resumes r s' (went_back x p q h) e = absurd (err≢ok e)

  -- After an accepted update either the join is finished, and the tuple holds the last row of every
  -- table, or the same order resumes from the rows of the tuple.
  pub update-resumes :
      (s' : JoinState)
      → update s order tuple ≡ ok s'
      → ((s'.finished ≡ true) × (is_join_completed tuple s.cardinalities ≡ true)) ⊎ ResumesFrom s'
  update-resumes s' e = case-resumes (update s order tuple) s' (update-cases s order tuple) e
