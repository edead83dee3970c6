-- ===== src/Khir/TypeManager/Ids.antt =====
-- khir/type_manager.cc: the numbers of types. An LLVM type has one number, and the map from LLVM types
-- to numbers is the table read backwards.
use kushdb.Prelude.{
  ℕ, suc, ◌^◌, ◌<◌, ◌≡◌, refl, sym, ap, ◌∙◌, subst, inl, inr, Bool, true, false, Option, none, some,
  [], ◌∷◌, arith, ℕ_discrete, ◌==◌, if◌then◌else◌, ==_iff, Bool-cases, Option-cases, length,
  length-append, get_or-append_left, get_or-append_last,
}
use kushdb.Khir.Result.{ok}
use kushdb.Khir.TypeManager.{
  TypeImpl, TypeManager, add_type, add_type_from, find_impl, find_or_add, find_or_add_from,
  get_llvm, get_output_type, impl_of, no_type, with_type,
}
use mathlib.Core.Option.{some-injective}

abbrev pub handle : TypeManager → ℕ → ℕ
handle m t = get_llvm (impl_of m t)

pub record IsTyped (m : TypeManager) : Type 0 where
  pub known :
      (h t : ℕ)
      → find_impl h m.impl_to_type_id ≡ some t
      → (t < length m.type_id_to_impl) × (handle m t ≡ h)
  pub listed :
      (t : ℕ) → t < length m.type_id_to_impl → find_impl (handle m t) m.impl_to_type_id ≡ some t

module _ (mp : TypeImpl) (m : TypeManager) (typed : IsTyped m)
    (room : length m.type_id_to_impl < 2 ^ 16)
    (new : find_impl (get_llvm mp) m.impl_to_type_id ≡ none) where
  after : TypeManager
  after = with_type mp m

  number : ℕ
  number = length m.type_id_to_impl

  number_is : number ≡ length m.type_id_to_impl
  unfolding number
  number_is = refl

  after_is : after ≡ with_type mp m
  unfolding after
  after_is = refl

  none_is_not_some : {t : ℕ} → ¬ (none ≡ some t)
  none_is_not_some e = subst (λ (o : Option ℕ). elim o [ none ↦ Unit {0} | some x ↦ ⊥ ]) e tt

  output : get_output_type m ≡ number
  unfolding number
  output = omega arith

  longer : length after.type_id_to_impl ≡ suc number
  unfolding after number
  longer = omega (arith, length-append m.type_id_to_impl (mp ∷ []))

  handle-old : (t : ℕ) → t < number → impl_of after t ≡ impl_of m t
  unfolding after number
  handle-old t h = get_or-append_left m.type_id_to_impl (mp ∷ []) t no_type h

  handle-new : impl_of after number ≡ mp
  unfolding after number
  handle-new = get_or-append_last m.type_id_to_impl mp no_type

  found_at :
      (h : ℕ) (b : Bool)
      → (get_llvm mp == h) ≡ b
      → find_impl h after.impl_to_type_id
        ≡ (if b then some (get_output_type m) else find_impl h m.impl_to_type_id)
  unfolding after
  found_at h b e =
      ap (λ (c : Bool). if c then some (get_output_type m) else find_impl h m.impl_to_type_id) e

  found_new : find_impl (get_llvm mp) after.impl_to_type_id ≡ some number
  found_new = found_at (get_llvm mp) true ((==_iff _ _).1 refl) ∙ ap some output

  after-IsTyped : IsTyped after
  after-IsTyped = record {
    known = λ h t e. elim (Bool-cases (get_llvm mp == h)) [
      | inl q ↦
          let same = some-injective number t (sym (found_at h true q ∙ ap some output) ∙ e) in
          (
            subst (λ u. u < length after.type_id_to_impl) same (omega (arith, longer)),
            ap (handle after) (sym same) ∙ ap get_llvm handle-new ∙ (==_iff _ _).0 q,
          )
      | inr q ↦
          let old = typed.known h t (sym (found_at h false q) ∙ e) in
          (
            omega (arith, longer, old.0, number_is),
            ap get_llvm (handle-old t (omega (arith, old.0, number_is))) ∙ old.1,
          )
    ];
    listed = λ t h. elim (ℕ_discrete t number) [
      | yes q ↦
          ap (λ u. find_impl (handle after u) after.impl_to_type_id) q
          ∙ ap (λ u. find_impl u after.impl_to_type_id) (ap get_llvm handle-new)
          ∙ found_new
          ∙ ap some (sym q)
      | no q ↦ below t (omega (arith, h, q, longer))
    ];
  }
    where
      below : (t : ℕ) → t < number → find_impl (handle after t) after.impl_to_type_id ≡ some t
      below t h = elim (Bool-cases (get_llvm mp == handle after t)) [
        | inl q ↦ absurd (
            none_is_not_some (
              sym new
              ∙ ap (λ u. find_impl u m.impl_to_type_id)
                  ((==_iff _ _).0 q ∙ ap get_llvm (handle-old t h))
              ∙ typed.listed t (omega (arith, h, number_is))))
        | inr q ↦
            found_at (handle after t) false q
            ∙ ap (λ u. find_impl u m.impl_to_type_id) (ap get_llvm (handle-old t h))
            ∙ typed.listed t (omega (arith, h, number_is))
      ]

-- A type that is asked for by its LLVM type is found, or added as the next number where there are
-- fewer than 2 ^ 16 types: the number has the LLVM type, asking again gives the same number and changes
-- nothing, types keep their numbers, and an LLVM type still has one number.
pub find_or_add_lem :
    (mp : TypeImpl) (m : TypeManager)
    → IsTyped m
    → length m.type_id_to_impl < 2 ^ 16
    → (t : ℕ) × (n : TypeManager) × (find_or_add mp m ≡ (ok t, n))
      × (handle n t ≡ get_llvm mp)
      × (find_or_add mp n ≡ (ok t, n))
      × ((u : ℕ) → u < length m.type_id_to_impl → impl_of n u ≡ impl_of m u)
      × IsTyped n
unfolding find_or_add add_type
find_or_add_lem mp m typed room = elim (Option-cases (find_impl (get_llvm mp) m.impl_to_type_id)) [
  | inr (t, e) ↦ (
    t,
    m,
    ap (λ o. find_or_add_from o mp m) e,
    (typed.known (get_llvm mp) t e).1,
    ap (λ o. find_or_add_from o mp m) e,
    λ u h. refl,
    typed,
  )
  | inl e ↦ (
    number mp m typed room e,
    after mp m typed room e,
    ap (λ o. find_or_add_from o mp m) e
        ∙ ap (λ o. add_type_from o mp m) e
        ∙ ap (λ n. (ok n, with_type mp m)) (output mp m typed room e)
        ∙ ap (λ n. (ok (number mp m typed room e), n)) (sym (after_is mp m typed room e)),
    ap get_llvm (handle-new mp m typed room e),
    ap (λ o. find_or_add_from o mp (after mp m typed room e)) (found_new mp m typed room e),
    λ u h. handle-old mp m typed room e u (omega (arith, h, number_is mp m typed room e)),
    after-IsTyped mp m typed room e,
  )
]
