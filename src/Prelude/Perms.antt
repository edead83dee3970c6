-- ===== src/Prelude/Perms.antt =====
-- What a permutation of a list keeps.
use mathlib.Core.Path.{◌≡◌, refl, sym, ap, ◌∙◌, subst}
use mathlib.Core.Logic.{inl, inr}
use mathlib.Core.List.{List, Permᴰ}
use mathlib.Core.List.Permᴰ
use Prim.Native.Nat.{suc}
use kushdb.Prelude.Lists.{Elem, length}
use kushdb.Prelude.Elements.{Distinct}

module _ {A : Type 0} where
  pub Permᴰ-Elem : {xs ys : List A} (t : A) → Permᴰ xs ys → Elem t xs → Elem t ys
  Permᴰ-Elem t Permᴰ.nil m = m
  Permᴰ-Elem t (Permᴰ.cons e p) (inl h) = inl (h ∙ e)
  Permᴰ-Elem t (Permᴰ.cons e p) (inr m) = inr (Permᴰ-Elem t p m)
  Permᴰ-Elem t (Permᴰ.swap e f) (inl h) = inr (inl (h ∙ e))
  Permᴰ-Elem t (Permᴰ.swap e f) (inr (inl h)) = inl (h ∙ f)
  Permᴰ-Elem t (Permᴰ.swap e f) (inr (inr m)) = inr (inr m)
  Permᴰ-Elem t (Permᴰ.trans p q) m = Permᴰ-Elem t q (Permᴰ-Elem t p m)

  Elem-cong : (a b : A) (l : List A) → a ≡ b → Elem b l → Elem a l
  Elem-cong a b l e m = subst (λ t. Elem t l) (sym e) m

  pub Permᴰ-Distinct : {xs ys : List A} → Permᴰ xs ys → Distinct xs → Distinct ys
  Permᴰ-Distinct Permᴰ.nil d = d
  Permᴰ-Distinct (Permᴰ.cons {a = a} {b = b} {l₂ = l} e p) d =
      (λ m. d.0 (Permᴰ-Elem a (Permᴰ.symm p) (Elem-cong a b l e m)), Permᴰ-Distinct p d.1)
  Permᴰ-Distinct (Permᴰ.swap {a = a} {b = b} {a' = c} {b' = k} {l = l} e f) d = (
    λ m. elim m [ inl h ↦ d.0 (inl (e ∙ sym h ∙ sym f)) | inr h ↦ d.1.0 (Elem-cong b c l f h) ],
    (λ m. d.0 (inr (Elem-cong a k l e m)), d.1.1),
  )
  Permᴰ-Distinct (Permᴰ.trans p q) d = Permᴰ-Distinct q (Permᴰ-Distinct p d)

  pub Permᴰ-length : {xs ys : List A} → Permᴰ xs ys → length xs ≡ length ys
  Permᴰ-length Permᴰ.nil = refl
  Permᴰ-length (Permᴰ.cons e p) = ap suc (Permᴰ-length p)
  Permᴰ-length (Permᴰ.swap e f) = refl
  Permᴰ-length (Permᴰ.trans p q) = Permᴰ-length p ∙ Permᴰ-length q
