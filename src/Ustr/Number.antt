-- ===== src/Ustr/Number.antt =====
-- Numbers as strings: uint_to_str, uint_to_str_len and str_to_uint of btree/ustr.c.
pub mod Digits
pub mod Text
use linux_kernel_struct.Common.{
  ℕ, zero, suc, ◌+◌, ◌-◌, ◌*◌, ◌%◌, ◌/◌, Bool, true, false, Option, none, some, List, [], ◌∷◌, ◌==◌,
  ltb, if◌then◌else◌, replicate, drop, ◌++◌,
}
use linux_kernel_struct.Arrays.{◌>>=◌}
use linux_kernel_struct.Int32.{word, is_positive}
use linux_kernel_struct.Ustr.{str_len, str_copy, put, reverse_loop, is_digit}

-- do s[i++] = n - (n / 10 * 10) + '0'; while (n /= 10);  The result has the next index. Ten rounds
-- are enough for an `unsigned int`.
unfoldable pub digits_loop : ℕ → ℕ → ℕ → List ℕ → Option (ℕ × List ℕ)
digits_loop zero n i s = none
digits_loop (suc rounds) n i s = do
  s' ← put s i (n - n / 10 * 10 + 48)
  if n / 10 == 0 then some (i + 1, s') else digits_loop rounds (n / 10) (i + 1) s'

unfoldable pub uint_to_str : ℕ → List ℕ → Option (List ℕ)
uint_to_str n s = do (i, s1) ← digits_loop 10 n 0 s; s2 ← put s1 i 0; reverse_loop i (i - 1) 0 s2

-- while (dst[i++] = *src++);
unfoldable pub copy_to : ℕ → List ℕ → List ℕ → Option (List ℕ)
copy_to i [] dst = none
copy_to i (c ∷ src) dst = do
  dst' ← put dst i c
  if c == 0 then some dst' else copy_to (i + 1) src dst'

-- Ten zeros and the end.
abbrev pub sz : List ℕ
sz = replicate 10 48 ++ 0 ∷ []

-- The difference `gap` is an `int`, positive up to 2 ^ 31 - 1.
unfoldable pub uint_to_str_len : ℕ → List ℕ → ℕ → Option (List ℕ)
uint_to_str_len n s length = do
  s1 ← uint_to_str n s
  k ← str_len s1
  if is_positive ((length + (word - k)) % word)
      then (do z ← copy_to ((length + (word - k)) % word) s1 sz; str_copy s1 z)
      else some s1

-- while (*s) { if a digit, n = 10 * n + (*s - '0'); s++; }  on `unsigned int`.
unfoldable pub digits_value : ℕ → List ℕ → Option ℕ
digits_value n [] = none
digits_value n (c ∷ s) =
    if c == 0 then some n else digits_value (if is_digit c then (10 * n + (c - 48)) % word else n) s

unfoldable pub str_to_uint : List ℕ → Option ℕ
str_to_uint s = digits_value 0 s
