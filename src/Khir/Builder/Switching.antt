-- ===== src/Khir/Builder/Switching.antt =====
-- khir/program_builder.cc: SetCurrentBlock within the current function.
use kushdb.Prelude.{
  ℕ, ◌≡◌, ap, ◌∙◌, Bool, true, false, none, some, arith, ◌==◌, if◌then◌else◌, set, set-get_or,
}
use kushdb.Khir.Result.{continue, err, external_body, ok, unterminated_block, ◌>>=◌}
use kushdb.Khir.Function.{FunctionBuilder, is_some, is_terminated, set_current_basic_block}
use kushdb.Khir.Builder.{
  ProgramBuilder, get_current_function, no_function, on_current, put_function,
}
use kushdb.Khir.Function.Appended.{current}
use kushdb.Khir.Builder.Flow.{guard_terminated, move_to, set_current_block}

same_state :
    (s : ProgramBuilder)
    → record s { functions = set s.functions s.current_function (get_current_function s) } ≡ s
same_state s =
    ap (λ fs. record s { functions = fs }) (set-get_or s.functions s.current_function no_function)

same_number : (n : ℕ) → (n == n) ≡ true
same_number n = ground arith

terminated_answer :
    (f : FunctionBuilder) (b : ℕ)
    → f.external ≡ false
    → is_terminated b f ≡ (ok (is_some (current f).second), f)
unfolding is_terminated
terminated_answer f b h =
    ap (λ (c : Bool). if c then (err external_body, f) else (ok (is_some (current f).second), f)) h

module _ (s : ProgramBuilder) (b : ℕ) (body : (get_current_function s).external ≡ false) where
  answered :
      (t : Bool)
      → is_some (current (get_current_function s)).second ≡ t
      → set_current_block (s.current_function, b) s ≡ guard_terminated (s.current_function, b) t s
  unfolding set_current_block
  answered t e =
      ap
        (λ (c : Bool).
          if c
          then (do a ← on_current (is_terminated b); guard_terminated (s.current_function, b) a) s
          else move_to (s.current_function, b) s)
        (same_number s.current_function)
      ∙ ap
          (λ r.
            continue (guard_terminated (s.current_function, b))
              (put_function s.current_function s r))
          (terminated_answer (get_current_function s) b body
            ∙ ap (λ a. (ok a, get_current_function s)) e)
      ∙ ap (guard_terminated (s.current_function, b) t) (same_state s)

  -- Within a function with a body SetCurrentBlock throws and changes nothing while the current block
  -- is open, whichever block it is to; else the block becomes the current one and nothing else changes.
  pub set_current_block_lem :
      (((current (get_current_function s)).second ≡ none)
        → set_current_block (s.current_function, b) s ≡ (err unterminated_block, s))
      × ((last : ℕ)
          → (current (get_current_function s)).second ≡ some last
          → set_current_block (s.current_function, b) s ≡ (
            ok tt,
            record s {
              functions =
                  set s.functions s.current_function
                    (record (get_current_function s) { current_basic_block = b });
            },
          ))
  unfolding set_current_basic_block
  set_current_block_lem = (
    λ e. answered false (ap is_some e),
    λ last e.
        answered true (ap is_some e)
        ∙ ap (put_function s.current_function s) (
            ap
              (λ (c : Bool).
                if c
                then (err external_body, get_current_function s)
                else (ok tt, record (get_current_function s) { current_basic_block = b }))
              body),
  )
