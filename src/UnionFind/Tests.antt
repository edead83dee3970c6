-- ===== src/UnionFind/Tests.antt =====
-- Two sets of five elements.
use kushdb.Prelude.{ℕ, ◌≡◌, refl, List, [], ◌∷◌, arith}
use kushdb.UnionFind.{find, union}
use kushdb.UnionFind.Roots.{Root}
use kushdb.UnionFind.Laws.{Keeps, find-Keeps, union-Root}

-- 0 and 1 are under 2, 3 is under 4.
abbrev sets : List ℕ
sets = 1 ∷ 2 ∷ 2 ∷ 4 ∷ 4 ∷ []

zero-Root : Root sets 2 0 2
zero-Root =
    Root.up (omega arith) (λ e. omega (arith, e))
      (Root.up (omega arith) (λ e. omega (arith, e)) (Root.here (omega arith) refl refl))

three-Root : Root sets 1 3 4
three-Root = Root.up (omega arith) (λ e. omega (arith, e)) (Root.here (omega arith) refl refl)

find_compresses : find 3 sets 0 ≡ (2 ∷ 2 ∷ 2 ∷ 4 ∷ 4 ∷ [], 2)
unfolding find
find_compresses = refl

find-Keeps_example : ((find 3 sets 0).1 ≡ 2) × Keeps sets (find 3 sets 0).0
find-Keeps_example = find-Keeps 3 2 sets 0 2 zero-Root (omega arith)

union-Root_example : Root (union 3 sets 0 3) 3 0 4
union-Root_example =
    union-Root 3 2 1 sets 0 3 2 4 zero-Root three-Root (omega arith) (omega arith) 2 0 2 zero-Root
