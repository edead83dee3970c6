-- ===== src/Prelude/Elements.antt =====
-- Elements of lists: joins, reversal and lists without repetition.
use mathlib.Core.Path.{◌≡◌, refl, sym, subst}
use mathlib.Core.Logic.{◌⊎◌, inl, inr}
use mathlib.Core.List.{List, [], ◌∷◌, ◌++◌, reverse, reverse-append}
use kushdb.Prelude.Lists.{Elem, All}

module _ {A : Type 0} where
  abbrev pub Distinct : List A → Type 0
  Distinct [] = Unit
  Distinct (x ∷ xs) = ¬ Elem x xs × Distinct xs

  pub Elem-append : (a : A) (xs ys : List A) → Elem a (xs ++ ys) → Elem a xs ⊎ Elem a ys
  Elem-append a [] ys m = inr m
  Elem-append a (x ∷ xs) ys (inl e) = inl (inl e)
  Elem-append a (x ∷ xs) ys (inr m) = elim (Elem-append a xs ys m) [
    | inl k ↦ inl (inr k)
    | inr k ↦ inr k
  ]

  pub Elem-append_left : (a : A) (xs ys : List A) → Elem a xs → Elem a (xs ++ ys)
  Elem-append_left a [] ys m = absurd m
  Elem-append_left a (x ∷ xs) ys (inl e) = inl e
  Elem-append_left a (x ∷ xs) ys (inr m) = inr (Elem-append_left a xs ys m)

  pub Elem-append_right : (a : A) (xs ys : List A) → Elem a ys → Elem a (xs ++ ys)
  Elem-append_right a [] ys m = m
  Elem-append_right a (x ∷ xs) ys m = inr (Elem-append_right a xs ys m)

  pub reverse-cons : (x : A) (xs : List A) → reverse (x ∷ xs) ≡ reverse xs ++ (x ∷ [])
  reverse-cons x xs = reverse-append (x ∷ []) xs

  pub Elem-reverse : (a : A) (xs : List A) → Elem a (reverse xs) → Elem a xs
  Elem-reverse a [] m = m
  Elem-reverse a (x ∷ xs) m =
      elim (Elem-append a (reverse xs) (x ∷ []) (rw (reverse-cons x xs) at m)) [
        | inl k ↦ inr (Elem-reverse a xs k)
        | inr (inl e) ↦ inl e
        | inr (inr k) ↦ absurd k
      ]

  pub reverse-Elem : (a : A) (xs : List A) → Elem a xs → Elem a (reverse xs)
  reverse-Elem a [] m = m
  reverse-Elem a (x ∷ xs) (inl e) =
      rw (reverse-cons x xs) (Elem-append_right a (reverse xs) (x ∷ []) (inl e))
  reverse-Elem a (x ∷ xs) (inr m) =
      rw (reverse-cons x xs) (Elem-append_left a (reverse xs) (x ∷ []) (reverse-Elem a xs m))

  pub Distinct-append :
      (xs ys : List A)
      → Distinct xs
      → Distinct ys
      → ((a : A) → Elem a xs → ¬ Elem a ys)
      → Distinct (xs ++ ys)
  Distinct-append [] ys d e h = e
  Distinct-append (x ∷ xs) ys d e h = (
    λ m. elim (Elem-append x xs ys m) [ inl k ↦ d.0 k | inr k ↦ h x (inl refl) k ],
    Distinct-append xs ys d.1 e (λ a m. h a (inr m)),
  )

  pub Distinct-reverse : (xs : List A) → Distinct xs → Distinct (reverse xs)
  Distinct-reverse [] d = d
  Distinct-reverse (x ∷ xs) d =
      rw (reverse-cons x xs)
        (Distinct-append (reverse xs) (x ∷ []) (Distinct-reverse xs d.1) ((λ m. m), tt) apart)
    where
      apart : (a : A) → Elem a (reverse xs) → ¬ Elem a (x ∷ [])
      apart a m (inl e) = d.0 (Elem-reverse x xs (subst (λ b. Elem b (reverse xs)) e m))
      apart a m (inr k) = k

  -- The parts of a list without repetition have nothing in common.
  pub Distinct-apart : (xs ys : List A) → Distinct (xs ++ ys) → (a : A) → Elem a xs → ¬ Elem a ys
  Distinct-apart [] ys d a m k = m
  Distinct-apart (x ∷ xs) ys d a (inl e) k =
      d.0 (Elem-append_right x xs ys (subst (λ b. Elem b ys) e k))
  Distinct-apart (x ∷ xs) ys d a (inr m) k = Distinct-apart xs ys d.1 a m k

  pub Distinct-right : (xs ys : List A) → Distinct (xs ++ ys) → Distinct ys
  Distinct-right [] ys d = d
  Distinct-right (x ∷ xs) ys d = Distinct-right xs ys d.1

  pub All-of_Elem : (P : A → Type 0) (xs : List A) → ((a : A) → Elem a xs → P a) → All P xs
  All-of_Elem P [] h = tt
  All-of_Elem P (x ∷ xs) h = (h x (inl refl), All-of_Elem P xs (λ a m. h a (inr m)))

  pub All-at : (P : A → Type 0) (xs : List A) → All P xs → (a : A) → Elem a xs → P a
  All-at P [] h a m = absurd m
  All-at P (x ∷ xs) h a (inl e) = subst P (sym e) h.0
  All-at P (x ∷ xs) h a (inr m) = All-at P xs h.1 a m

  pub All-reverse : (P : A → Type 0) (xs : List A) → All P xs → All P (reverse xs)
  All-reverse P xs h = All-of_Elem P (reverse xs) (λ a m. All-at P xs h a (Elem-reverse a xs m))
