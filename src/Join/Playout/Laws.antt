-- ===== src/Join/Playout/Laws.antt =====
-- A playout makes an order of all tables.
use kushdb.Prelude.{
  ℕ, ◌+◌, ◌-◌, ◌<◌, ◌≡◌, refl, sym, ap, ◌∙◌, subst, inl, inr, Bool, true, false, List, [], ◌∷◌,
  ◌++◌, append_assoc, arith, length, length-append, get_or, Elem, All, Distinct, Distinct-append,
  Permᴰ-Elem, Permᴰ-Distinct, Permᴰ-length, All-of_Elem,
}
use kushdb.Join.Playout.{contains, fill_order, unjoined_from, playout}
use kushdb.Join.Playout.Picks.{contains-cons, Elem-contains, left, Follow, fill_order-Follow}
use kushdb.Join.Playout.Rest.{
  left-tables, all_left, unjoined-left, unjoined-Elem, unjoined-Distinct,
}
use mathlib.Core.List.{Permᴰ}
use mathlib.Core.List.Permᴰ

-- Tables that a playout picks are apart from those joined before, and from one another.
Follow-Distinct :
    (table_connections : ℕ → ℕ → Bool) (unjoined joined ps : List ℕ)
    → Follow table_connections unjoined joined ps
    → Distinct ps × ((t : ℕ) → Elem t ps → (contains joined t ≡ false) × Elem t unjoined)
Follow-Distinct c unjoined joined [] f = (tt, λ t m. absurd m)
Follow-Distinct c unjoined joined (p ∷ ps) f =
    let (d, apart) = Follow-Distinct c unjoined (p ∷ joined) ps f.1 in
    (
      ((λ m. (contains-cons p joined p (apart p m).0).0 refl), d),
      λ t m. elim m [
        | inl h ↦ (rw h f.0.new, rw h f.0.waiting)
        | inr k ↦ ((contains-cons p joined t (apart t k).0).1, (apart t k).1)
      ],
    )

get_or-next : (before rest : List ℕ) (r : ℕ) → get_or (before ++ (r ∷ rest)) (length before) 0 ≡ r
get_or-next [] rest r = refl
get_or-next (b ∷ before) rest r = get_or-next before rest r

module _ (table_connections : ℕ → ℕ → Bool) (shuffle : List ℕ → List ℕ) where
  -- What a playout makes of an order whose first tables are `joined` and `last`.
  pub record Completes (joined : List ℕ) (last : ℕ) (rest order : List ℕ) : Type 0 where
    pub picked : List ℕ
    pub same_start : order ≡ joined ++ (last ∷ picked)
    pub as_long : length picked ≡ length rest
    pub each_once : Distinct (joined ++ (last ∷ picked))
    pub tables : All (λ t. t < length (joined ++ (last ∷ rest))) picked
    pub connected_first :
        Follow table_connections
          (shuffle (unjoined_from (length (joined ++ (last ∷ rest))) 0 joined last))
          (last ∷ joined)
          picked

  playout_step :
      (joined : List ℕ) (last : ℕ) (rest : List ℕ)
      → let n = length (joined ++ (last ∷ rest)) in
        playout table_connections shuffle joined (joined ++ (last ∷ rest))
        ≡ fill_order table_connections
            (length rest)
            (length (joined ++ (last ∷ [])))
            (shuffle (unjoined_from n 0 joined last))
            (last ∷ joined)
            ((joined ++ (last ∷ [])) ++ rest)
  unfolding playout
  playout_step joined last rest =
      let order = joined ++ (last ∷ rest) in
      let n = length order in
      let pos = length joined + 1 in
      let some_order = shuffle (unjoined_from n 0 joined last) in
      ap
        (λ l.
          fill_order table_connections (n - pos) pos (shuffle (unjoined_from n 0 joined l))
            (l ∷ joined) order)
        (get_or-next joined rest last)
      ∙ ap (λ k. fill_order table_connections k pos some_order (last ∷ joined) order)
          {y = length rest} (omega (arith, length-append joined (last ∷ rest)))
      ∙ ap (λ p. fill_order table_connections (length rest) p some_order (last ∷ joined) order)
          {y = length (joined ++ (last ∷ []))} (omega (arith, length-append joined (last ∷ [])))
      ∙ ap
          (fill_order table_connections (length rest) (length (joined ++ (last ∷ []))) some_order
            (last ∷ joined))
          (sym (append_assoc joined (last ∷ []) rest))

  -- A playout keeps the tables that the order begins with and lists each other table of the query
  -- once behind them; a table that is not connected to one before it is picked only if none left is.
  pub playout-Completes :
      ((l : List ℕ) → Permᴰ (shuffle l) l)
      → (joined : List ℕ) (last : ℕ) (rest : List ℕ) → Distinct (last ∷ joined)
      → All (λ t. t < length (joined ++ (last ∷ rest))) (last ∷ joined)
      → Completes joined last rest
          (playout table_connections shuffle joined (joined ++ (last ∷ rest)))
  playout-Completes shuffles joined last rest distinct inside =
      let n = length (joined ++ (last ∷ rest)) in
      let all = unjoined_from n 0 joined last in
      let before = joined ++ (last ∷ []) in
      let size : n ≡ length joined + 1 + length rest =
        omega (arith, length-append joined (last ∷ rest)) in
      let waiting = λ (t : ℕ) (m : Elem t (shuffle all)).
        unjoined-Elem n 0 joined last t (Permᴰ-Elem t (shuffles all) m) in
      let remain : left (last ∷ joined) (shuffle all) ≡ length rest = omega (
        arith,
        all_left (last ∷ joined) (shuffle all) (λ t m. (waiting t m).2),
        Permᴰ-length (shuffles all),
        unjoined-left n 0 joined last,
        left-tables n (last ∷ joined) distinct inside,
        size,
      ) in
      let (ps, run, len, follow) =
        fill_order-Follow table_connections (shuffle all)
          (Permᴰ-Distinct (Permᴰ.symm (shuffles all)) (unjoined-Distinct n 0 joined last))
          (length rest) (last ∷ joined) before rest remain refl in
      let (once, apart) =
        Follow-Distinct table_connections (shuffle all) (last ∷ joined) ps follow in
      record {
        picked = ps;
        same_start = playout_step joined last rest ∙ run ∙ append_assoc joined (last ∷ []) ps;
        as_long = len;
        each_once =
            Distinct-append joined (last ∷ ps) distinct.1
              (λ m. (contains-cons last joined last (apart last m).0).0 refl, once)
              (λ t m k. elim k [
                | inl e ↦ distinct.0 (subst (λ x. Elem x joined) e m)
                | inr l ↦
                    true-ne (
                      sym (Elem-contains joined t m)
                      ∙ (contains-cons last joined t (apart t l).0).1)
              ]);
        tables = All-of_Elem (λ t. t < n) ps (λ t m. omega (arith, (waiting t (apart t m).1).1));
        connected_first = follow;
      }
    where
      true-ne : true ≡ false → ⊥
      true-ne h = cc
