-- ===== src/Prelude/Tables.antt =====
-- Tables: a Boolean property of every number under a bound, settled by running it.
use Prim.Native.Nat.{ℕ, zero, suc, ◌<◌}
use mathlib.Core.Path.{◌≡◌}
use mathlib.Core.Bool.{Bool, true, ◌&&◌}
use native.Mathlib.Omega.{arith}

module _ (check : ℕ → Bool) where
  unfoldable pub table : ℕ → Bool
  table zero = true
  table (suc last) = check last && table last

  pub table-row : (rows i : ℕ) → table rows ≡ true → i < rows → check i ≡ true
  unfolding table
  table-row zero i full inside = absurd (omega arith)
  table-row (suc last) i full inside = ground (arith, table-row last i)
