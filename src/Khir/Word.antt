-- ===== src/Khir/Word.antt =====
-- The unsigned integers of khir/instruction.cc and khir/value.cc, by their bits: bit `i` of a word.
-- A word of w bits is false from bit w on.
use kushdb.Prelude.{ℕ, zero, suc, ◌+◌, ◌-◌, ◌/◌, ◌%◌, Bool, not, ◌&&◌, ◌||◌, ltb, leb, ◌==◌}

abbrev pub Word : Type 0
Word = ℕ → Bool

-- The w lowest bits: 0xFF is `ones 8`.
abbrev pub ones : ℕ → Word
ones w i = ltb i w

-- The conversion to an unsigned type of w bits, where an argument is passed or a result returned.
abbrev pub narrow : ℕ → Word → Word
narrow w x i = ltb i w && x i

abbrev pub bit_and : Word → Word → Word
bit_and x y i = x i && y i

abbrev pub bit_or : Word → Word → Word
bit_or x y i = x i || y i

-- `~`, `<<` and `>>` on uint64_t.
abbrev pub bit_not : Word → Word
bit_not x i = ltb i 64 && not (x i)

abbrev pub shift_left : Word → ℕ → Word
shift_left x k i = leb k i && (ltb i 64 && x (i - k))

abbrev pub shift_right : Word → ℕ → Word
shift_right x k i = x (i + k)

-- The bits of a number.
abbrev pub literal : ℕ → Word
literal n zero = n % 2 == 1
literal n (suc i) = literal (n / 2) i
