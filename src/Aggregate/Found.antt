-- ===== src/Aggregate/Found.antt =====
-- Entries that probing comes to stay so while others are placed.
use kushdb.Prelude.{
  ℕ, zero, suc, ◌+◌, ◌/◌, ◌%◌, ◌^◌, ◌<◌, ◌≡◌, refl, sym, ap, ◌∙◌, subst, inl, inr, true, false,
  List, [], ◌∷◌, ◌++◌, append_assoc, append-nil, arith, ltb, leb, Bool-cases, length, set,
  length-set, get_or, Elem, get_or-set_self, get_or-set_ne, Elem-append, Elem-append_left,
}
use kushdb.Aggregate.{construct_entry, is_taken, place, resize_block}
use kushdb.Aggregate.Probe.{walk, Stops, taken, taken-set, place-Stops}
use kushdb.Aggregate.Tuples.{Tuple, block_tuples}

-- An entry that probing from `home` comes to: all places before it are taken.
pub record Found (entries : List ℕ) (home entry : ℕ) : Type 0 where
  pub steps : ℕ
  pub below : walk (length entries) steps home < length entries
  pub here : get_or entries (walk (length entries) steps home) 0 ≡ entry
  pub passed : (j : ℕ) → j < steps → is_taken entries (walk (length entries) j home) ≡ true

true≢false : true ≡ false → ⊥
true≢false h = cc

module _ (es : List ℕ) (r entry : ℕ) (inside : r < length es) (free : is_taken es r ≡ false) where
  still_taken : (i : ℕ) → is_taken es i ≡ true → is_taken (set es r entry) i ≡ true
  still_taken i h =
      rw (get_or-set_ne es r i entry 0 (λ e. true≢false (sym h ∙ ap (is_taken es) (sym e) ∙ free)))
        h

  Found-kept :
      (home old : ℕ)
      → ltb 0 (old % 2 ^ 32) ≡ true
      → Found es home old
      → Found (set es r entry) home old
  Found-kept home old t f = record {
    steps = f.steps;
    below = rw (length-set es r entry) f.below;
    here = rw (length-set es r entry) (
        get_or-set_ne es r (walk (length es) f.steps home) entry 0 (λ e.
          true≢false
            (sym t ∙ ap (λ k. ltb 0 (k % 2 ^ 32)) (sym f.here) ∙ ap (is_taken es) (sym e) ∙ free))
        ∙ f.here);
    passed =
        λ j p. rw (length-set es r entry) (still_taken (walk (length es) j home) (f.passed j p));
  }

  Found-new : (home : ℕ) → Stops es home r → Found (set es r entry) home entry
  Found-new home s = record {
    steps = s.steps;
    below = rw (length-set es r entry, sym s.there) inside;
    here = rw (length-set es r entry, sym s.there) (get_or-set_self es r entry 0 inside);
    passed =
        λ j p. rw (length-set es r entry) (still_taken (walk (length es) j home) (s.passed j p));
  }

module _ (hash_at : ℕ → ℕ → ℕ) where
  abbrev pub entry_of : Tuple → ℕ
  entry_of t = construct_entry (hash_at t.0 t.1 / 2 ^ 48) t.1 t.0

  abbrev pub place_all : List Tuple → List ℕ → List ℕ
  place_all [] es = es
  place_all (t ∷ ts) es = place_all ts (place es (hash_at t.0 t.1) (entry_of t))

  pub resize_block-place_all :
      (fuel payload_size block_idx end block_offset : ℕ) (es : List ℕ)
      → resize_block hash_at fuel payload_size block_idx end block_offset es
        ≡ place_all (block_tuples fuel payload_size block_idx end block_offset) es
  unfolding resize_block
  resize_block-place_all zero p b e o es = refl
  resize_block-place_all (suc fuel) p b e o es = elim (Bool-cases (leb (o + p) e)) [
    | inl h ↦ rw h (resize_block-place_all fuel p b e (o + p) _)
    | inr h ↦ rw h
  ]

  abbrev pub FoundAll : List Tuple → List ℕ → Type 0
  FoundAll ts es = (t : Tuple) → Elem t ts → Found es (hash_at t.0 t.1 % length es) (entry_of t)

  module _ (room : ℕ) where
    pub place_all-FoundAll :
        (ts done : List Tuple) (es : List ℕ)
        → length es ≡ room
        → taken es + length ts < room
        → ((t : Tuple) → Elem t (done ++ ts) → ltb 0 (entry_of t % 2 ^ 32) ≡ true)
        → FoundAll done es
        → (length (place_all ts es) ≡ room) × FoundAll (done ++ ts) (place_all ts es)
    place_all-FoundAll [] done es l h f g = (l, rw (append-nil done) g)
    place_all-FoundAll (t ∷ ts) done es l h f g =
        let (r, e, inside, s) = place-Stops es (hash_at t.0 t.1) (entry_of t) (omega (arith, l)) in
        let es' = set es r (entry_of t) in
        let same : (done ++ (t ∷ [])) ++ ts ≡ done ++ (t ∷ ts) = append_assoc done (t ∷ []) ts in
        rw e (
          subst (λ k. (length (place_all ts es') ≡ room) × FoundAll k (place_all ts es')) same
            (place_all-FoundAll ts (done ++ (t ∷ [])) es' (length-set es r (entry_of t) ∙ l)
              (omega (arith, taken-set es r (entry_of t))) (λ u m. f u (subst (Elem u) same m))
              (λ u m. rw (length-set es r (entry_of t)) (elim (Elem-append u done (t ∷ []) m) [
                | inl k ↦
                    Found-kept es r (entry_of t) inside s.free _ (entry_of u)
                      (f u (Elem-append_left u done (t ∷ ts) k)) (g u k)
                | inr (inl k) ↦ rw k (Found-new es r (entry_of t) inside s.free _ s)
                | inr (inr k) ↦ absurd k
              ]))))
