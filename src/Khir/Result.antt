-- ===== src/Khir/Result.antt =====
-- The exceptions of khir/program_builder.cc and khir/value.cc as values. What was written to the
-- object before a throw stays written.

pub data Error : Type 0 where
  invalid_idx external_body terminated_block unterminated_block not_constant_global : Error
  invalid_comp_type vec4_type gep_offset extension : Error
  argument_registers_of_external out_of_range not_func_ptr invalid_type_size : Error
  check_map_first name_exists bad_cast cannot_index : Error

pub data Result {ℓ} (A : Type ℓ) : Type ℓ where
  ok : A → Result A
  err : Error → Result A

abbrev pub M : Type 0 → Type 0 → Type 0
M S A = S → Result A × S

abbrev pub pure : {S A : Type 0} → A → M S A
pure a s = (ok a, s)

abbrev pub throw : {S A : Type 0} → Error → M S A
throw e s = (err e, s)

abbrev pub continue : {S A B : Type 0} → (A → M S B) → Result A × S → Result B × S
continue f (ok a, s) = f a s
continue f (err e, s) = (err e, s)

infixl 5 ◌>>=◌ ◌>>◌
abbrev pub ◌>>=◌ : {S A B : Type 0} → M S A → (A → M S B) → M S B
◌>>=◌ m f s = continue f (m s)

abbrev pub ◌>>◌ : {S A B : Type 0} → M S A → M S B → M S B
m >> k = m >>= λ _. k
