-- ===== src/Permute/Tests.antt =====
-- The entry of 0b10010110.
use kushdb.Prelude.{◌≡◌, refl, [], ◌∷◌, ◌++◌, arith, replicate}
use kushdb.Permute.{get_entry}
use kushdb.Permute.Laws.{bits_of, get_entry_lem}

bits_of_150 : bits_of 8 150 0 ≡ 1 ∷ 2 ∷ 4 ∷ 7 ∷ []
bits_of_150 = refl

get_entry_example : get_entry 150 ≡ bits_of 8 150 0 ++ replicate 4 0
get_entry_example = get_entry_lem 150 (omega arith)
