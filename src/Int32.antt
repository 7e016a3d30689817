-- ===== src/Int32.antt =====
-- The C `int` and `unsigned int` of btree/: 32-bit patterns, as numbers below 2 ^ 32.
-- `++` and `--` wrap, as the machine's do; a pattern below 2 ^ 31 is a non-negative `int`.
use linux_kernel_struct.Common.{ℕ, ◌+◌, ◌-◌, ◌%◌, ◌^◌, ◌<◌, ◌≡◌, Bool, ◌&&◌, ltb, leb, arith}

abbrev pub word : ℕ
word = 2 ^ 32

abbrev pub int_max : ℕ
int_max = 2 ^ 31 - 1

abbrev pub inc : ℕ → ℕ
inc c = (c + 1) % word

abbrev pub dec : ℕ → ℕ
dec c = (c + (word - 1)) % word

-- `c > 0`
abbrev pub is_positive : ℕ → Bool
is_positive c = ltb 0 c && leb c int_max

-- The order of the integers that two patterns stand for: `a >= b` is `signed_ge a b`.
abbrev pub signed_ge : ℕ → ℕ → Bool
signed_ge a b = leb ((b + 2 ^ 31) % word) ((a + 2 ^ 31) % word)

pub signed_ge_lem : (a b : ℕ) → a < 2 ^ 31 → b < 2 ^ 31 → signed_ge a b ≡ leb b a
signed_ge_lem a b ha hb = ground arith
