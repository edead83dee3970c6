-- ===== src/Khir/Function/Moving.antt =====
-- khir/program_builder.cc: what GenerateBasicBlock and SetCurrentBasicBlock do to the pieces of a
-- function.
use kushdb.Prelude.{
  ℕ, ◌<◌, ◌≡◌, refl, sym, ap, ◌∙◌, subst, Option, none, some, List, [], ◌∷◌, ◌++◌, arith,
  ℕ_discrete, length, length-append, get_or, get_or-default,
}
use kushdb.Khir.Function.{Block, new_block}
use kushdb.Khir.Function.Tiles.{IsTiled, Open, Rest, Tiles-keep, View, block_at}

module _ (v : View) (bs : List Block) (n hi : ℕ)
    (same : get_or bs n new_block ≡ block_at v v.now) where
  other : View
  other = record v { blocks = bs; now = n }

  Rest-same : (o : Option ℕ) → Rest v o hi → Rest other o hi
  unfolding other
  Rest-same none r = r
  Rest-same (some lo) r = r

  Open-same : (o : Option ℕ) → Open v o hi → Open other o hi
  unfolding other
  Open-same none r =
      subst (λ (b : Block). Rest other b.first hi) (sym same) (Rest-same (block_at v v.now).first r)
  Open-same (some last) r = r

-- A block more, with nothing in it.
pub generated-IsTiled :
    (v : View) → IsTiled v → IsTiled (record v { blocks = v.blocks ++ (new_block ∷ []) })
unfolding other
generated-IsTiled v h = record {
  covered = h.covered;
  tiles =
      Tiles-keep v more v.order 0 h.covered (λ b e. get_or-default v.blocks b new_block)
        (λ j p. refl) (omega arith) h.tiles;
  rest =
      subst (λ (b : Block). Open more b.second h.covered)
        (sym (get_or-default v.blocks v.now new_block))
        (Open-same v (v.blocks ++ (new_block ∷ [])) v.now h.covered
          (get_or-default v.blocks v.now new_block) (block_at v v.now).second h.rest);
  current_there = omega (arith, length-append v.blocks (new_block ∷ []), h.current_there);
  others = λ b n e.
      ap (λ (x : Block). x.first) (get_or-default v.blocks b new_block)
      ∙ h.others b n (sym (ap (λ (x : Block). x.second) (get_or-default v.blocks b new_block)) ∙ e);
  listed = λ b e.
      h.listed b (sym (ap (λ (x : Block). x.second) (get_or-default v.blocks b new_block)) ∙ e);
}
  where
    more : View
    more = record v { blocks = v.blocks ++ (new_block ∷ []) }

-- Another block becomes the current one, when this one has ended.
pub moved-IsTiled :
    (v : View) (b : ℕ) {last : ℕ}
    → IsTiled v
    → (block_at v v.now).second ≡ some last
    → b < length v.blocks
    → IsTiled (record v { now = b })
moved-IsTiled v b h e p = record {
  covered = h.covered;
  tiles =
      Tiles-keep v (record v { now = b }) v.order 0 h.covered (λ c m. refl) (λ j p. refl)
        (omega arith) h.tiles;
  rest = at (block_at v b).second refl;
  current_there = p;
  others = λ c n o. elim (ℕ_discrete c v.now) [
    | yes q ↦ absurd (some_is_not_none (sym e ∙ ap (λ x. (block_at v x).second) (sym q) ∙ o))
    | no q ↦ h.others c q o
  ];
  listed = h.listed;
}
  where
    all_covered : h.covered ≡ length v.code
    all_covered = subst (λ o. Open v o h.covered) e h.rest

    some_is_not_none : {l : ℕ} → ¬ (some l ≡ none)
    some_is_not_none q = subst (λ (o : Option ℕ). elim o [ none ↦ ⊥ | some x ↦ Unit {0} ]) q tt

    at : (o : Option ℕ) → (block_at v b).second ≡ o → Open (record v { now = b }) o h.covered
    at none q =
        subst (λ o. Rest (record v { now = b }) o h.covered)
          (sym (
            h.others b (λ r. some_is_not_none (sym e ∙ ap (λ x. (block_at v x).second) (sym r) ∙ q))
              q))
          all_covered
    at (some l) q = all_covered
