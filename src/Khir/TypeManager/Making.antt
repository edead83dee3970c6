-- ===== src/Khir/TypeManager/Making.antt =====
-- khir/type_manager.cc: the types that are made of others, the sizes and the offsets, over the LLVM
-- types.
use kushdb.Prelude.{ℕ, suc, Bool, none, some, List, [], ◌∷◌, map, if◌then◌else◌, get_or, drop}
use kushdb.Prelude.Int.{wrap_int32, pos, pos_part, ℤ, ◌*ℤ◌, ◌+ℤ◌}
use kushdb.Khir.Result.{M, Result, cannot_index, continue, err, name_exists, ok, pure, ◌>>=◌, ◌>>◌}
use kushdb.Khir.TypeManager.{
  Llvm, TypeImpl, TypeManager, add_type, array_type, base_type, find_impl, find_name, find_or_add,
  found, function_type, get_llvm, i32_vec8_type, i8_type, impl_of, opaque_type, pointer_type,
  struct_type,
}
use kushdb.Khir.Builder.Folding.{result}

module _ (llvm : Llvm) where
  abbrev pub llvm_of : TypeManager → ℕ → ℕ
  llvm_of m t = get_llvm (impl_of m t)

  unfoldable pub pointer_type_of : ℕ → M TypeManager ℕ
  pointer_type_of elem m = find_or_add (pointer_type elem (llvm.pointer_get (llvm_of m elem))) m

  unfoldable pub array_type_of : ℕ → ℤ → M TypeManager ℕ
  array_type_of t len m = find_or_add (array_type t len (llvm.array_get (llvm_of m t) len)) m

  unfoldable pub function_type_of : ℕ → List ℕ → M TypeManager ℕ
  function_type_of result args m =
      find_or_add
        (function_type result args (llvm.function_get (llvm_of m result) (map (llvm_of m) args))) m

  -- StructType::create of the context.
  abbrev pub create_struct : M TypeManager ℕ
  create_struct m = (ok (llvm.struct_create m.created), record m { created = suc m.created })

  unfoldable pub struct_type_of : List ℕ → M TypeManager ℕ
  struct_type_of elems = do impl ← create_struct; find_or_add (struct_type elems impl)

  abbrev pub name_opaque : List ℕ → ℕ → M TypeManager ℕ
  name_opaque name t m =
      (ok t, record m { opaque_name_to_type_id = (name, t) ∷ m.opaque_name_to_type_id })

  abbrev pub name_struct : List ℕ → ℕ → M TypeManager ℕ
  name_struct name t m =
      (ok t, record m { struct_name_to_type_id = (name, t) ∷ m.struct_name_to_type_id })

  -- A struct that is in the map already is returned without being named.
  abbrev pub add_opaque : List ℕ → ℕ → M TypeManager ℕ
  add_opaque name impl m = elim (find_impl impl m.impl_to_type_id) [
    | some t ↦ (ok t, m)
    | none ↦ continue (name_opaque name) (add_type (opaque_type name impl) m)
  ]

  unfoldable pub opaque_type_of : List ℕ → M TypeManager ℕ
  opaque_type_of name m =
      if found (find_name name m.opaque_name_to_type_id)
      then (err name_exists, m)
      else (do impl ← create_struct; add_opaque name impl) m

  unfoldable pub named_struct_type_of : List ℕ → List ℕ → M TypeManager ℕ
  named_struct_type_of elems name m =
      if found (find_name name m.struct_name_to_type_id)
      then (err name_exists, m)
      else (do id ← struct_type_of elems; name_struct name id) m

  abbrev pub get_type_size : TypeManager → ℕ → ℕ
  get_type_size m t = llvm.type_alloc_size (llvm_of m t)

  abbrev pub get_struct_field_offsets : TypeManager → ℕ → List ℕ
  get_struct_field_offsets m t = llvm.element_offsets (llvm_of m t)

  -- The loop of GetPointerOffset over the rest of `idx`: the type reached and the offset,
  -- an int32_t: a product or sum that leaves it is undefined in C++, and wraps here.
  unfoldable pub step_into : TypeManager → TypeImpl × ℕ → List ℤ → ℤ → Result (TypeImpl × ℕ × ℤ)
  step_into m (t, n) [] offset = ok (t, n, offset)
  step_into m (pointer_type elem impl, n) (i ∷ idx) offset =
      step_into m (impl_of m elem, elem) idx
        (wrap_int32 (offset +ℤ i *ℤ pos (get_type_size m elem)))
  step_into m (array_type elem len impl, n) (i ∷ idx) offset =
      step_into m (impl_of m elem, elem) idx
        (wrap_int32 (offset +ℤ i *ℤ pos (get_type_size m elem)))
  step_into m (struct_type elems impl, n) (i ∷ idx) offset =
      let elem = get_or elems (pos_part i) 0 in
      step_into m (impl_of m elem, elem) idx
        (wrap_int32 (offset +ℤ pos (get_or (get_struct_field_offsets m n) (pos_part i) 0)))
  step_into m (t, n) (i ∷ idx) offset = err cannot_index

  abbrev pub point_to : TypeManager → Result (TypeImpl × ℕ × ℤ) → Result (ℤ × ℕ) × TypeManager
  point_to m (err e) = (err e, m)
  point_to m (ok (t, n, offset)) = continue (λ result. pure (offset, result)) (pointer_type_of n m)

  unfoldable pub get_pointer_offset : ℕ → List ℤ → Bool → M TypeManager (ℤ × ℕ)
  get_pointer_offset t idx dynamic m =
      if dynamic
      then point_to m (step_into m (impl_of m t, t) idx (pos 0))
      else point_to m (
          step_into m (impl_of m t, t) (drop 1 idx)
            (wrap_int32 (get_or idx 0 (pos 0) *ℤ pos (get_type_size m t))))

  abbrev pub add_base : ℕ → M TypeManager ℕ
  add_base id = add_type (base_type id (llvm.base id))

  -- The constructor, from its first AddType on: the base types in the order of BaseTypeId, whose
  -- last two are vectors of 8, and two pointers.
  unfoldable pub init_types : M TypeManager ℕ
  init_types = do
    add_base 0
    add_base 1
    add_base 2
    add_base 3
    add_base 4
    add_base 5
    add_base 6
    add_base 7
    add_base 8
    add_type (pointer_type i8_type (llvm.pointer_get (llvm.base 2)))
    add_type (pointer_type i32_vec8_type (llvm.pointer_get (llvm.base 8)))
