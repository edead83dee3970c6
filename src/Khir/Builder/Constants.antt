-- ===== src/Khir/Builder/Constants.antt =====
-- khir/program_builder.cc: the constants that ConstI1 to ConstI64 make and remember.
use kushdb.Prelude.{
  ℕ, ◌≡◌, refl, sym, ap, ◌∙◌, subst, inl, inr, Bool, true, ◌&&◌, none, some, [], append-nil, arith,
  ◌==◌, if◌then◌else◌, ==_iff, Bool-cases, Option-cases,
}
use kushdb.Khir.Result.{M, continue, ok}
use kushdb.Khir.Instr.{Value}
use kushdb.Khir.Builder.{
  Kind, ProgramBuilder, cached, cached_from, const_, i1, i16, i32, i64, i8, kind_eq, remember,
}
use kushdb.Khir.Builder.Making.{Room, const_-cached, made-Created, made_constant, truncated}
use kushdb.Khir.Builder.Naming.{
  Extends, Extends-refl, Extends-trans, IsCached, Names, Names-Extends,
}
use mathlib.Core.Option.{some-injective}

kind_eq_refl : (k : Kind) → kind_eq k k ≡ true
kind_eq_refl i1 = refl
kind_eq_refl i8 = refl
kind_eq_refl i16 = refl
kind_eq_refl i32 = refl
kind_eq_refl i64 = refl

kind_eq-eq : (j k : Kind) → kind_eq j k ≡ true → j ≡ k
kind_eq-eq i1 i1 h = refl
kind_eq-eq i8 i8 h = refl
kind_eq-eq i16 i16 h = refl
kind_eq-eq i32 i32 h = refl
kind_eq-eq i64 i64 h = refl
kind_eq-eq j k h = ground arith

remembering : ProgramBuilder → Kind → ℕ → Value → ProgramBuilder
remembering s k n v = (remember k n v s).1

remembering-Extends :
    (s : ProgramBuilder) (k : Kind) (n : ℕ) (v : Value) → Extends s (remembering s k n v)
unfolding remembering
remembering-Extends s k n v = record {
  more_constants = ([], sym (append-nil s.constant_instrs));
  more_pool = ([], sym (append-nil s.i64_constants));
  same_functions = refl;
  same_current = refl;
}

hits : (k j : Kind) (m n : ℕ) → (kind_eq k j && m == n) ≡ true → (k ≡ j) × (n ≡ m)
hits k j m n h = (
  kind_eq-eq k j (both (kind_eq k j) (m == n) h).0,
  sym ((==_iff m n).0 (both (kind_eq k j) (m == n) h).1),
)
  where
    both : (a b : Bool) → (a && b) ≡ true → (a ≡ true) × (b ≡ true)
    both a b h = ground arith

moved :
    (s : ProgramBuilder) {k j : Kind} {v u : Value} {n m : ℕ}
    → k ≡ j
    → v ≡ u
    → n ≡ m
    → Names s k v n
    → Names s j u m
moved s {j = j} {v = v} {u = u} {n = n} p q r h =
    subst (Names s j u) r (subst (λ x. Names s j x n) q (subst (λ x. Names s x v n) p h))

remembering-IsCached :
    (s : ProgramBuilder) (k : Kind) (n : ℕ) (v : Value)
    → IsCached s
    → Names s k v n
    → IsCached (remembering s k n v)
unfolding remembering
remembering-IsCached s k n v c h = record {
  pooled = c.pooled;
  remembered = λ j m u e. elim (Bool-cases (kind_eq k j && m == n)) [
    | inl hit ↦ Names-Extends s (remembering s k n v) j u m (remembering-Extends s k n v) (
        moved s (hits k j m n hit).0
          (some-injective v u
            (sym (ap (λ (b : Bool). if b then some v else s.const_to_value j m) hit) ∙ e))
          (hits k j m n hit).1 h)
    | inr miss ↦ Names-Extends s (remembering s k n v) j u m (remembering-Extends s k n v) (
        c.remembered j m u
          (sym (ap (λ (b : Bool). if b then some v else s.const_to_value j m) miss) ∙ e))
  ];
}

module _ (k : Kind) (n : ℕ) (m : M ProgramBuilder Value) (s : ProgramBuilder) (v : Value) where
  cached-hit : s.const_to_value k n ≡ some v → cached k n m s ≡ (ok v, s)
  unfolding cached
  cached-hit h = ap (λ o. cached_from o k n m s) h

  cached-miss :
      s.const_to_value k n ≡ none
      → (t : ProgramBuilder) → m s ≡ (ok v, t)
      → cached k n m s ≡ (ok v, remembering t k n v)
  unfolding cached remembering
  cached-miss h t e = ap (λ o. cached_from o k n m s) h ∙ ap (λ r. continue (remember k n) r) e

found_again :
    (t : ProgramBuilder) (k : Kind) (n : ℕ) (v : Value)
    → (remembering t k n v).const_to_value k n ≡ some v
unfolding remembering
found_again t k n v =
    ap (λ b. if b && n == n then some v else t.const_to_value k n) (kind_eq_refl k) ∙ ground arith

-- A constant is found or made: it has the number's value, what was known stays known, and asking
-- again gives the same constant and changes nothing.
pub const_-Names :
    (k : Kind) (n : ℕ) (s : ProgramBuilder)
    → IsCached s
    → Room s
    → (v : Value) × (t : ProgramBuilder) × (const_ k n s ≡ (ok v, t))
      × Names t k v (truncated k n)
      × Extends s t
      × IsCached t
      × (const_ k n t ≡ (ok v, t))
const_-Names k n s c room = elim (Option-cases (s.const_to_value k (truncated k n))) [
  | inr (v, e) ↦ (
    v,
    s,
    ap (λ f. f s) (const_-cached k n)
        ∙ cached-hit k (truncated k n) (made_constant k (truncated k n)) s v e,
    c.remembered k (truncated k n) v e,
    Extends-refl s,
    c,
    ap (λ f. f s) (const_-cached k n)
        ∙ cached-hit k (truncated k n) (made_constant k (truncated k n)) s v e,
  )
  | inl e ↦
      let (v, t, made, names, extends, cached_t) = made-Created k n s c room in
      (
        v,
        remembering t k (truncated k n) v,
        ap (λ f. f s) (const_-cached k n)
            ∙ cached-miss k (truncated k n) (made_constant k (truncated k n)) s v e t made,
        Names-Extends t (remembering t k (truncated k n) v) k v (truncated k n)
            (remembering-Extends t k (truncated k n) v) names,
        Extends-trans s t (remembering t k (truncated k n) v) extends
            (remembering-Extends t k (truncated k n) v),
        remembering-IsCached t k (truncated k n) v cached_t names,
        ap (λ f. f (remembering t k (truncated k n) v)) (const_-cached k n)
            ∙ cached-hit k (truncated k n) (made_constant k (truncated k n))
                (remembering t k (truncated k n) v) v (found_again t k (truncated k n) v),
      )
]
