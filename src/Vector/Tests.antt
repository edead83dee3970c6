-- ===== src/Vector/Tests.antt =====
-- Vectors of numbers.
use kushdb.Prelude.{
  ℕ, ◌≡◌, refl, some, List, [], ◌∷◌, ◌++◌, arith, ltb, length, drop, replicate, length-replicate,
}
use kushdb.Prelude.Int.{double_int32}
use kushdb.Vector.{contents, Vector, push_back, sort}
use kushdb.Vector.Push.{IsValid, written, push_back_lem}
use kushdb.Vector.Sort.{sort-Permᴰ, sort-Sorted}
use mathlib.Core.List.{Permᴰ}
use kushdb.Vector.Merge.{StrictWeak, Sorted}

abbrev fresh : ℕ → List ℕ
fresh n = replicate n 7

exact : (n : ℕ) → length (fresh n) ≡ n
exact n = length-replicate n 7

abbrev full : Vector ℕ
full = record { cells = 5 ∷ 3 ∷ []; size = 2; capacity = 2 }

full-IsValid : IsValid full
full-IsValid = record { memory = refl; within = omega arith; room = omega arith }

abbrev grown : Vector ℕ
grown = record { cells = 5 ∷ 3 ∷ 7 ∷ 7 ∷ []; size = 3; capacity = 4 }

full_grows : push_back fresh full ≡ some (grown, 2)
unfolding push_back double_int32
full_grows = refl

push_back_example :
    (vec' : Vector ℕ) × (idx : ℕ) × (push_back fresh full ≡ some (vec', idx))
    × IsValid (written vec' idx 4)
    × (contents (written vec' idx 4) ≡ contents full ++ (4 ∷ []))
push_back_example = push_back_lem fresh exact full 4 full-IsValid (omega arith)

abbrev mixed : Vector ℕ
mixed = record { cells = 5 ∷ 1 ∷ 4 ∷ 1 ∷ 3 ∷ 0 ∷ []; size = 5; capacity = 6 }

-- The cell behind the elements stays where it is.
sort_runs : (sort ltb mixed).cells ≡ 1 ∷ 1 ∷ 3 ∷ 4 ∷ 5 ∷ 0 ∷ []
unfolding sort
sort_runs = refl

less-StrictWeak : StrictWeak ltb
less-StrictWeak = record {
  asymmetric = λ x y h. ground arith;
  transitive = λ x y z h g. ground arith;
}

sort-Permᴰ_example :
    Permᴰ (contents (sort ltb mixed)) (contents mixed)
    × ((sort ltb mixed).size ≡ 5)
    × ((sort ltb mixed).capacity ≡ 6)
    × (drop 5 (sort ltb mixed).cells ≡ 0 ∷ [])
sort-Permᴰ_example = sort-Permᴰ ltb mixed (omega arith)

sort-Sorted_example : Sorted ltb (contents (sort ltb mixed))
sort-Sorted_example = sort-Sorted ltb less-StrictWeak mixed (omega arith)
