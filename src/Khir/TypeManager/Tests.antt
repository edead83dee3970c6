-- ===== src/Khir/TypeManager/Tests.antt =====
-- The first types, over an LLVM whose types are numbers chosen here.
use kushdb.Prelude.{ℕ, ◌+◌, ◌*◌, ◌<◌, ◌≡◌, refl, subst, Option, none, some, [], ◌∷◌, arith}
use kushdb.Prelude.Int.{pos_part}
use kushdb.Khir.Result.{ok, ◌>>◌}
use kushdb.Khir.TypeManager.{
  Llvm, TypeManager, add_type, find_or_add, get_pointer_element_type, i1_vec8_type,
  i32_vec8_ptr_type, i32_vec8_type, impl_of, no_types, pointer_type,
}
use kushdb.Khir.TypeManager.Ids.{IsTyped, find_or_add_lem, handle}
use kushdb.Khir.TypeManager.Making.{init_types, pointer_type_of}

abbrev numbered : Llvm
numbered = record {
  base = λ id. id;
  pointer_get = λ t. 100 + t;
  array_get = λ t len. 1000 * (1 + pos_part len) + t;
  function_get = λ t args. 2000000 + t;
  struct_create = λ n. 3000000 + n;
  type_alloc_size = λ t. 8;
  element_offsets = λ t. 0 ∷ 8 ∷ [];
}

-- The pointer to eight truth values is the type that the constructor enters as a pointer to eight
-- numbers, whose element type is the numbers; a pointer to the numbers is a type of its own.
pointer_to_i1_vec8 :
    ((do init_types numbered; pointer_type_of numbered i1_vec8_type) no_types).0
    ≡ ok i32_vec8_ptr_type
unfolding init_types add_type find_or_add pointer_type_of
pointer_to_i1_vec8 = refl

its_element :
    ((do init_types numbered; get_pointer_element_type i32_vec8_ptr_type) no_types).0
    ≡ ok i32_vec8_type
unfolding init_types add_type get_pointer_element_type
its_element = refl

pointer_to_i32_vec8 :
    ((do init_types numbered; pointer_type_of numbered i32_vec8_type) no_types).0 ≡ ok 11
unfolding init_types add_type find_or_add pointer_type_of
pointer_to_i32_vec8 = refl

IsTyped-no_types : IsTyped no_types
IsTyped-no_types = record {
  known = λ h t e. absurd (none_is_not_some e);
  listed = λ t h. absurd (omega arith);
}
  where
    none_is_not_some : {t : ℕ} → ¬ (none ≡ some t)
    none_is_not_some e = subst (λ (o : Option ℕ). elim o [ none ↦ Unit {0} | some x ↦ ⊥ ]) e tt

find_or_add_example :
    (t : ℕ) × (n : TypeManager) × (find_or_add (pointer_type 2 102) no_types ≡ (ok t, n))
    × (handle n t ≡ 102)
    × (find_or_add (pointer_type 2 102) n ≡ (ok t, n))
    × ((u : ℕ) → u < 0 → impl_of n u ≡ impl_of no_types u)
    × IsTyped n
find_or_add_example = find_or_add_lem (pointer_type 2 102) no_types IsTyped-no_types (omega arith)
