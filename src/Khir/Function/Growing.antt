-- ===== src/Khir/Function/Growing.antt =====
-- khir/program_builder.cc: what Append does to the pieces of a function.
use kushdb.Prelude.{
  ℕ, suc, ◌≤◌, ◌<◌, ◌≡◌, refl, sym, ap, ◌∙◌, subst, ◌≢◌, inl, inr, true, false, Option, none, some,
  [], ◌∷◌, ◌++◌, arith, dec_lt, ℕ_discrete, length, set, length-append, length-set, Elem,
  get_or-set_self, get_or-set_ne, get_or-append_left, get_or-append_last, Elem-append,
}
use kushdb.Khir.Opcode.{Opcode, is_terminating_instr}
use kushdb.Khir.Instr.{Instr, opcode}
use kushdb.Khir.Function.{Block, new_block, no_instr, or_else}
use kushdb.Khir.Function.Tiles.{
  IsTiled, Open, Rest, Straight, Tiles, Tiles-keep, Tiles-snoc, View, block_at, ends, instruction,
}

abbrev pub grow : View → Instr Opcode → Option ℕ → Option ℕ → View
grow v i first second = record v {
  blocks = set v.blocks v.now (record { first = first; second = second });
  code = v.code ++ (i ∷ []);
}

abbrev pub next_first : View → Option ℕ
next_first v = or_else (block_at v v.now).first (length v.code)

module _ (v : View) (i : Instr Opcode) (first second : Option ℕ) (h : IsTiled v)
    (free : (block_at v v.now).second ≡ none) where
  next : View
  next = grow v i first second

  block-other : (b : ℕ) → b ≢ v.now → block_at next b ≡ block_at v b
  unfolding next
  block-other b n = get_or-set_ne v.blocks v.now b _ new_block (λ e. n (sym e))

  block-now : block_at next v.now ≡ record { first = first; second = second }
  unfolding next
  block-now = get_or-set_self v.blocks v.now _ new_block h.current_there

  code-old : (j : ℕ) → j < length v.code → instruction next j ≡ instruction v j
  unfolding next
  code-old j p = get_or-append_left v.code (i ∷ []) j no_instr p

  ends-old : (j : ℕ) → j < length v.code → ends next j ≡ ends v j
  ends-old j p = ap (λ x. is_terminating_instr (opcode x)) (code-old j p)

  code-new : instruction next (length v.code) ≡ i
  unfolding next
  code-new = get_or-append_last v.code i no_instr

  code-length : length next.code ≡ suc (length v.code)
  unfolding next
  code-length = omega (arith, length-append v.code (i ∷ []))

  Tiles-kept : Tiles next v.order 0 h.covered
  Tiles-kept =
      Tiles-keep v next v.order 0 h.covered
        (λ b e. block-other b (λ q. h.listed v.now free (subst (λ x. Elem x v.order) q e))) ends-old
        (omega (arith, code-length)) h.tiles

  -- The rest of the instructions, without the new one.
  Straight-kept : (lo : ℕ) → Straight v lo (length v.code) → Straight next lo (length v.code)
  Straight-kept lo s j p q = ends-old j q ∙ s j p q

  others-kept :
      (b : ℕ) → b ≢ v.now → (block_at next b).second ≡ none → (block_at next b).first ≡ none
  others-kept b n e =
      ap (λ (x : Block). x.first) (block-other b n)
      ∙ h.others b n (sym (ap (λ (x : Block). x.second) (block-other b n)) ∙ e)

  there : v.now < length next.blocks
  unfolding next
  there = omega (
    arith,
    length-set v.blocks v.now (record { first = first; second = second }),
    h.current_there,
  )

-- Where the open block starts, and that it is straight up to there.
opened :
    (v : View) (h : IsTiled v)
    → (block_at v v.now).second ≡ none
    → (next_first v ≡ some h.covered)
      × (h.covered ≤ length v.code)
      × Straight v h.covered (length v.code)
opened v h free = at (block_at v v.now).first (subst (λ o. Open v o h.covered) free h.rest)
  where
    at :
        (o : Option ℕ)
        → Rest v o h.covered
        → (or_else o (length v.code) ≡ some h.covered)
          × (h.covered ≤ length v.code)
          × Straight v h.covered (length v.code)
    at none e = (ap some (sym e), omega (arith, e), λ i p q. absurd (omega (arith, e)))
    at (some lo) (e, p, s) = (ap some e, omega (arith, p), s)

-- An instruction that does not end the block.
pub extended-IsTiled :
    (v : View) (i : Instr Opcode)
    → IsTiled v
    → (block_at v v.now).second ≡ none
    → is_terminating_instr (opcode i) ≡ false
    → IsTiled (grow v i (next_first v) none)
unfolding next
extended-IsTiled v i h free t = record {
  covered = h.covered;
  tiles = Tiles-kept v i (next_first v) none h free;
  rest =
      subst (λ o. Open (next v i (next_first v) none h free) o h.covered)
        (sym (ap (λ (b : Block). b.second) now_is))
        (subst (λ o. Rest (next v i (next_first v) none h free) o h.covered)
          (sym (ap (λ (b : Block). b.first) now_is ∙ at.0))
          (refl, omega (arith, at.1, longer), straight_to_end));
  current_there = there v i (next_first v) none h free;
  others = others-kept v i (next_first v) none h free;
  listed = λ b e. elim (ℕ_discrete b v.now) [
    | yes q ↦ h.listed b (ap (λ c. (block_at v c).second) q ∙ free)
    | no q ↦
        h.listed b
          (sym (ap (λ (x : Block). x.second) (block-other v i (next_first v) none h free b q)) ∙ e)
  ];
}
  where
    now_is :
        block_at (next v i (next_first v) none h free) v.now
        ≡ record { first = next_first v; second = none }
    now_is = block-now v i (next_first v) none h free

    at :
        (next_first v ≡ some h.covered)
        × (h.covered ≤ length v.code)
        × Straight v h.covered (length v.code)
    at = opened v h free

    longer : length (next v i (next_first v) none h free).code ≡ suc (length v.code)
    longer = code-length v i (next_first v) none h free

    straight_to_end :
        Straight
          (next v i (next_first v) none h free)
          h.covered
          (length (next v i (next_first v) none h free).code)
    straight_to_end j p q = elim (dec_lt j (length v.code)) [
      | yes r ↦ Straight-kept v i (next_first v) none h free h.covered at.2 j p r
      | no r ↦
          ap (λ k. ends (next v i (next_first v) none h free) k) (omega (arith, q, longer, r))
          ∙ ap (λ x. is_terminating_instr (opcode x)) (code-new v i (next_first v) none h free)
          ∙ t
    ]

-- An instruction that ends it.
abbrev pub finish : View → Instr Opcode → View
finish v i = record (grow v i (next_first v) (some (length v.code))) {
  order = v.order ++ (v.now ∷ []);
}

pub ended-IsTiled :
    (v : View) (i : Instr Opcode)
    → IsTiled v
    → (block_at v v.now).second ≡ none
    → is_terminating_instr (opcode i) ≡ true
    → IsTiled (finish v i)
unfolding next
ended-IsTiled v i h free t = record {
  covered = suc (length v.code);
  tiles =
      Tiles-snoc (finish v i) v.order v.now 0 h.covered (length v.code)
        (Tiles-keep (next v i (next_first v) last h free) (finish v i) v.order 0 h.covered
          (λ b e. refl) (λ j p. refl) (omega arith) (Tiles-kept v i (next_first v) last h free))
        (record {
          starts_at = ap (λ (b : Block). b.first) now_is ∙ at.0;
          ends_at = ap (λ (b : Block). b.second) now_is;
          in_order = at.1;
          inside = omega (arith, longer);
          terminated =
              ap (λ x. is_terminating_instr (opcode x)) (code-new v i (next_first v) last h free)
              ∙ t;
          straight = Straight-kept v i (next_first v) last h free h.covered at.2;
        });
  rest =
      subst (λ o. Open (finish v i) o (suc (length v.code)))
        (sym (ap (λ (b : Block). b.second) now_is)) (sym longer);
  current_there = there v i (next_first v) last h free;
  others = others-kept v i (next_first v) last h free;
  listed = λ b e m. elim (ℕ_discrete b v.now) [
    | yes q ↦
        none_is_not_some (
          sym e
          ∙ ap (λ c. (block_at (finish v i) c).second) q
          ∙ ap (λ (x : Block). x.second) now_is)
    | no q ↦ elim (Elem-append b v.order (v.now ∷ []) m) [
      | inl old ↦
          h.listed b
            (sym (ap (λ (x : Block). x.second) (block-other v i (next_first v) last h free b q))
              ∙ e)
            old
      | inr new ↦ elim new [ inl r ↦ q r | inr r ↦ r ]
    ]
  ];
}
  where
    last : Option ℕ
    last = some (length v.code)

    now_is :
        block_at (next v i (next_first v) last h free) v.now
        ≡ record { first = next_first v; second = last }
    now_is = block-now v i (next_first v) last h free

    at :
        (next_first v ≡ some h.covered)
        × (h.covered ≤ length v.code)
        × Straight v h.covered (length v.code)
    at = opened v h free

    longer : length (next v i (next_first v) last h free).code ≡ suc (length v.code)
    longer = code-length v i (next_first v) last h free

    none_is_not_some : ¬ (none ≡ some (length v.code))
    none_is_not_some e = subst (λ (o : Option ℕ). elim o [ none ↦ Unit {0} | some x ↦ ⊥ ]) e tt
