-- ===== src/Khir/TypeManager.antt =====
-- khir/type_manager.cc: the types of the intermediate language by their numbers. LLVM is a parameter:
-- its types are numbers that stand for their addresses. A struct that it creates is a new address each
-- time; other types are looked up in its context. Its target set up and Translate are left out.
pub mod Making
pub mod Ids
mod Tests
use kushdb.Prelude.{
  ℕ, ◌%◌, ◌^◌, Bool, true, false, ◌&&◌, Option, none, some, List, [], ◌∷◌, ◌++◌, ◌==◌,
  if◌then◌else◌, length, get_or,
}
use kushdb.Prelude.Int.{ℤ}
use kushdb.Khir.Result.{Error, M, bad_cast, check_map_first, err, ok, out_of_range, pure, throw}

pub record Llvm : Type 0 where
  pub base : ℕ → ℕ
  pub pointer_get : ℕ → ℕ
  pub array_get : ℕ → ℤ → ℕ
  pub function_get : ℕ → List ℕ → ℕ
  -- The struct made by the call with this number.
  pub struct_create : ℕ → ℕ
  pub type_alloc_size : ℕ → ℕ
  pub element_offsets : ℕ → List ℕ

-- The subclasses of TypeImpl; the last field is `type_impl_`, the LLVM type.
pub data TypeImpl : Type 0 where
  base_type : ℕ → ℕ → TypeImpl
  opaque_type : List ℕ → ℕ → TypeImpl
  pointer_type : ℕ → ℕ → TypeImpl
  array_type : ℕ → ℤ → ℕ → TypeImpl
  function_type : ℕ → List ℕ → ℕ → TypeImpl
  struct_type : List ℕ → ℕ → TypeImpl

abbrev pub get_llvm : TypeImpl → ℕ
get_llvm (base_type id impl) = impl
get_llvm (opaque_type name impl) = impl
get_llvm (pointer_type elem impl) = impl
get_llvm (array_type elem len impl) = impl
get_llvm (function_type result args impl) = impl
get_llvm (struct_type elems impl) = impl

-- `type_id_to_impl_` by type number, `impl_to_type_id_` with the entry written last in front, and the
-- number of structs that were created.
pub record TypeManager : Type 0 where
  pub type_id_to_impl : List TypeImpl
  pub impl_to_type_id : List (ℕ × ℕ)
  pub opaque_name_to_type_id : List (List ℕ × ℕ)
  pub struct_name_to_type_id : List (List ℕ × ℕ)
  pub created : ℕ

abbrev pub find_impl : ℕ → List (ℕ × ℕ) → Option ℕ
find_impl k [] = none
find_impl k ((j, v) ∷ rest) = if j == k then some v else find_impl k rest

abbrev pub name_eq : List ℕ → List ℕ → Bool
name_eq [] [] = true
name_eq [] (y ∷ ys) = false
name_eq (x ∷ xs) [] = false
name_eq (x ∷ xs) (y ∷ ys) = x == y && name_eq xs ys

abbrev pub find_name {ℓ} : {A : Type ℓ} → List ℕ → List (List ℕ × A) → Option A
find_name k [] = none
find_name k ((j, v) ∷ rest) = if name_eq j k then some v else find_name k rest

abbrev pub void_type : ℕ
void_type = 0

abbrev pub i1_type : ℕ
i1_type = 1

abbrev pub i8_type : ℕ
i8_type = 2

abbrev pub i16_type : ℕ
i16_type = 3

abbrev pub i32_type : ℕ
i32_type = 4

abbrev pub i64_type : ℕ
i64_type = 5

abbrev pub f64_type : ℕ
f64_type = 6

abbrev pub i32_vec8_type : ℕ
i32_vec8_type = 7

abbrev pub i1_vec8_type : ℕ
i1_vec8_type = 8

abbrev pub i8_ptr_type : ℕ
i8_ptr_type = 9

abbrev pub i32_vec8_ptr_type : ℕ
i32_vec8_ptr_type = 10

abbrev pub no_type : TypeImpl
no_type = base_type 0 0

abbrev pub impl_of : TypeManager → ℕ → TypeImpl
impl_of m t = get_or m.type_id_to_impl t no_type

-- static_cast<Type>(type_id_to_impl_.size()), a number of 16 bits.
abbrev pub get_output_type : TypeManager → ℕ
get_output_type m = length m.type_id_to_impl % 2 ^ 16

abbrev pub with_type : TypeImpl → TypeManager → TypeManager
with_type mp m = record m {
  type_id_to_impl = m.type_id_to_impl ++ (mp ∷ []);
  impl_to_type_id = (get_llvm mp, get_output_type m) ∷ m.impl_to_type_id;
}

-- AddType, by what the map has for the LLVM type.
abbrev pub add_type_from : Option ℕ → TypeImpl → M TypeManager ℕ
add_type_from (some t) mp m = (err check_map_first, m)
add_type_from none mp m = (ok (get_output_type m), with_type mp m)

unfoldable pub add_type : TypeImpl → M TypeManager ℕ
add_type mp m = add_type_from (find_impl (get_llvm mp) m.impl_to_type_id) mp m

-- The test that PointerType, ArrayType, FunctionType and StructType make before they add a type.
abbrev pub find_or_add_from : Option ℕ → TypeImpl → M TypeManager ℕ
find_or_add_from (some t) mp m = (ok t, m)
find_or_add_from none mp m = add_type mp m

unfoldable pub find_or_add : TypeImpl → M TypeManager ℕ
find_or_add mp m = find_or_add_from (find_impl (get_llvm mp) m.impl_to_type_id) mp m

-- dynamic_cast to one of the subclasses.
abbrev pub element_of_pointer : TypeImpl → Option ℕ
element_of_pointer (pointer_type elem impl) = some elem
element_of_pointer t = none

abbrev pub element_of_array : TypeImpl → Option ℕ
element_of_array (array_type elem len impl) = some elem
element_of_array t = none

abbrev pub result_of_function : TypeImpl → Option ℕ
result_of_function (function_type result args impl) = some result
result_of_function t = none

abbrev pub elements_of_struct : TypeImpl → Option (List ℕ)
elements_of_struct (struct_type elems impl) = some elems
elements_of_struct t = none

abbrev pub found {ℓ} : {A : Type ℓ} → Option A → Bool
found none = false
found (some x) = true

abbrev pub or_throw : {A : Type 0} → Error → Option A → M TypeManager A
or_throw e none = throw e
or_throw e (some x) = pure x

unfoldable pub get_pointer_element_type : ℕ → M TypeManager ℕ
get_pointer_element_type t m = or_throw bad_cast (element_of_pointer (impl_of m t)) m

unfoldable pub get_array_element_type : ℕ → M TypeManager ℕ
get_array_element_type t m = or_throw bad_cast (element_of_array (impl_of m t)) m

unfoldable pub get_function_return_type : ℕ → M TypeManager ℕ
get_function_return_type t m = or_throw bad_cast (result_of_function (impl_of m t)) m

unfoldable pub get_struct_element_types : ℕ → M TypeManager (List ℕ)
get_struct_element_types t m = or_throw bad_cast (elements_of_struct (impl_of m t)) m

abbrev pub is_ptr_type : TypeManager → ℕ → Bool
is_ptr_type m t = found (element_of_pointer (impl_of m t))

abbrev pub is_array_type : TypeManager → ℕ → Bool
is_array_type m t = found (element_of_array (impl_of m t))

abbrev pub is_struct_type : TypeManager → ℕ → Bool
is_struct_type m t = found (elements_of_struct (impl_of m t))

abbrev pub is_func_type : TypeManager → ℕ → Bool
is_func_type m t = found (result_of_function (impl_of m t))

unfoldable pub get_opaque_type : List ℕ → M TypeManager ℕ
get_opaque_type name m = or_throw out_of_range (find_name name m.opaque_name_to_type_id) m

unfoldable pub get_named_struct_type : List ℕ → M TypeManager ℕ
get_named_struct_type name m = or_throw out_of_range (find_name name m.struct_name_to_type_id) m

abbrev pub no_types : TypeManager
no_types = record {
  type_id_to_impl = [];
  impl_to_type_id = [];
  opaque_name_to_type_id = [];
  struct_name_to_type_id = [];
  created = 0;
}
