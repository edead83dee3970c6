-- ===== src/Join/Fill.antt =====
-- The loops of ComputeLastCompletedTuple that copy rows into a tuple and find `table_ctr`.
use kushdb.Prelude.{
  ℕ, suc, ◌+◌, ◌<◌, ◌≡◌, refl, sym, ap, ◌∙◌, inl, inr, List, [], ◌∷◌, ◌++◌, arith, ℕ_discrete, ◌==◌,
  ==_iff, Bool-cases, length, set, length-set, drop, Elem, get_or-set_self, get_or-set_ne,
}
use kushdb.Join.Tuple.{◌!◌, fill, after_ctr}

module _ (value : ℕ → ℕ) where
  set-kept :
      (v : List ℕ) (u t : ℕ) → t < length v → v ! t ≡ value t → set v u (value u) ! t ≡ value t
  set-kept v u t h e = elim (ℕ_discrete u t) [
    | yes same ↦ rw (ap (λ k. set v k (value k)) same) (get_or-set_self v t (value t) 0 h)
    | no other ↦ get_or-set_ne v u t (value u) 0 other ∙ e
  ]

  fill-kept :
      (ts v : List ℕ) (t : ℕ) → t < length v → v ! t ≡ value t → fill value ts v ! t ≡ value t
  unfolding fill
  fill-kept [] v t h e = e
  fill-kept (u ∷ ts) v t h e =
      fill-kept ts (set v u (value u)) t (rw (length-set v u (value u)) h) (set-kept v u t h e)

  pub fill-in : (ts v : List ℕ) (t : ℕ) → Elem t ts → t < length v → fill value ts v ! t ≡ value t
  unfolding fill
  fill-in [] v t m h = absurd m
  fill-in (u ∷ ts) v t (inl here) h =
      fill-kept ts (set v u (value u)) t (rw (length-set v u (value u)) h)
        (rw here (get_or-set_self v u (value u) 0 (rw (sym here) h)))
  fill-in (u ∷ ts) v t (inr later) h =
      fill-in ts (set v u (value u)) t later (rw (length-set v u (value u)) h)

  pub fill-other : (ts v : List ℕ) (t : ℕ) → ¬ Elem t ts → fill value ts v ! t ≡ v ! t
  unfolding fill
  fill-other [] v t h = refl
  fill-other (u ∷ ts) v t h =
      fill-other ts (set v u (value u)) t (λ m. h (inr m))
      ∙ get_or-set_ne v u t (value u) 0 (λ e. h (inl (sym e)))

  pub length-fill : (ts v : List ℕ) → length (fill value ts v) ≡ length v
  unfolding fill
  length-fill [] v = refl
  length-fill (u ∷ ts) v = length-fill ts (set v u (value u)) ∙ length-set v u (value u)

-- The counter stands behind the tables up to `table_ctr`.
after_ctr-none : (c i found : ℕ) (ts : List ℕ) → ¬ Elem c ts → after_ctr c i found ts ≡ found
unfolding after_ctr
after_ctr-none c i found [] h = refl
after_ctr-none c i found (t ∷ ts) h = elim (Bool-cases (c == t)) [
  | inl same ↦ absurd (h (inl ((==_iff c t).0 same)))
  | inr other ↦ rw other (after_ctr-none c (i + 1) found ts (λ m. h (inr m)))
]

pub after_ctr-split :
    (c i found : ℕ) (before later : List ℕ)
    → ¬ Elem c later
    → after_ctr c i found (before ++ (c ∷ later)) ≡ i + length before + 1
unfolding after_ctr
after_ctr-split c i found [] later h =
    after_ctr-none c (i + 1) _ later h ∙ (rw ((==_iff c c).1 refl) (omega arith))
after_ctr-split c i found (b ∷ before) later h =
    after_ctr-split c (i + 1) _ before later h ∙ omega arith

pub drop-split :
    (c : ℕ) (before later : List ℕ) → drop (suc (length before)) (before ++ (c ∷ later)) ≡ later
drop-split c [] later = refl
drop-split c (b ∷ before) later = drop-split c before later
