-- ===== src/Ustr/Tests.antt =====
-- Runs of btree/ustr.c, and the theorems at strings and keys.
use linux_kernel_struct.Common.{
  ◌++◌, ℕ, ◌≡◌, ◌<◌, ◌↔◌, refl, none, some, List, [], ◌∷◌, arith, replicate,
}
use mathlib.Core.List.{Sublist}
use linux_kernel_struct.Ustr.{
  str_reverse, hash_value, str_trim, str_len, trim_right, is_whitespace, str_trim_left,
  str_is_eng_kor, eng_kor_loop,
}
use linux_kernel_struct.Ustr.Strings.{hash_value-bounds}
use linux_kernel_struct.Ustr.Reverse.{str_reverse_lem}
use linux_kernel_struct.Ustr.Number.{uint_to_str, str_to_uint}
use linux_kernel_struct.Ustr.Number.Digits.{str_to_uint-uint_to_str}
use linux_kernel_struct.Ustr.Compare.{
  next_uint, all_uints, int_loop, similar_loop, str_cmp, str_cmp_like, str_cmp_int,
  str_cmp_int_like, str_cmp_int_similar, str_ncmp, seek, count_equal,
}
use linux_kernel_struct.Ustr.Compare.Keys.{Tokens, keyed, numbers}
use linux_kernel_struct.Ustr.Compare.Order.{str_cmp_int-lexicographic, sign, lexicographic}
use linux_kernel_struct.Ustr.Compare.Prefix.{str_cmp_int_like-prefix_order, prefix_order}
use linux_kernel_struct.Ustr.Compare.Similar.{str_cmp_int_similar-Sublist}
use linux_kernel_struct.Ustr.Compare.Strings.{str_cmp-zero, str_cmp_like_self}

-- " ab "
trim_runs : str_trim (32 ∷ 97 ∷ 98 ∷ 32 ∷ 0 ∷ []) ≡ some (97 ∷ 98 ∷ 0 ∷ 0 ∷ [])
unfolding str_trim str_len trim_right is_whitespace str_trim_left
trim_runs = refl

-- A string of spaces is read below its start.
trim_of_spaces : str_trim (32 ∷ 0 ∷ []) ≡ none
unfolding str_trim str_len trim_right is_whitespace
trim_of_spaces = refl

-- 0xB0A1 and "a"
korean : str_is_eng_kor (176 ∷ 161 ∷ 97 ∷ 0 ∷ []) ≡ some 1
unfolding str_is_eng_kor eng_kor_loop
korean = refl

-- "b" in "abc"
found : str_ncmp (97 ∷ 98 ∷ 99 ∷ 0 ∷ []) (98 ∷ 0 ∷ []) 1 ≡ some 0
unfolding str_ncmp seek count_equal
found = refl

-- The keys 1_2_, 5_, 1_ and 1_7_2_.
abbrev one_two : List (List ℕ)
one_two = (49 ∷ []) ∷ (50 ∷ []) ∷ []

abbrev five : List (List ℕ)
five = (53 ∷ []) ∷ []

abbrev one_seven_two : List (List ℕ)
one_seven_two = (49 ∷ []) ∷ (55 ∷ []) ∷ (50 ∷ []) ∷ []

str_reverse_lem_example : str_reverse (97 ∷ 98 ∷ 0 ∷ []) ≡ some (98 ∷ 97 ∷ 0 ∷ [])
str_reverse_lem_example =
    str_reverse_lem (97 ∷ 98 ∷ []) [] ((λ q. omega arith), ((λ q. omega arith), tt))

hash_value-bounds_example : (h : ℕ) × (hash_value (200 ∷ 98 ∷ 0 ∷ []) ≡ some h) × (0 < h) × (h < 10)
hash_value-bounds_example =
    hash_value-bounds (200 ∷ 98 ∷ []) [] ((λ q. omega arith), ((λ q. omega arith), tt))

abbrev buffer : List ℕ
buffer = replicate 11 0

str_to_uint-uint_to_str_example :
    (s' : List ℕ) × (uint_to_str 4294967295 buffer ≡ some s') × (str_to_uint s' ≡ some 4294967295)
str_to_uint-uint_to_str_example =
    str_to_uint-uint_to_str 4294967295 buffer (omega arith) (omega arith)

one_two-Tokens : Tokens one_two
one_two-Tokens =
    ((omega arith, omega arith, tt), omega arith, ((omega arith, omega arith, tt), omega arith, tt))

five-Tokens : Tokens five
five-Tokens = ((omega arith, omega arith, tt), omega arith, tt)

one_seven_two-Tokens : Tokens one_seven_two
one_seven_two-Tokens = (
  (omega arith, omega arith, tt),
  omega arith,
  ((omega arith, omega arith, tt), omega arith, ((omega arith, omega arith, tt), omega arith, tt)),
)

str_cmp_int-lexicographic_example :
    (v : ℕ) × (str_cmp_int (keyed one_two []) (keyed five []) ≡ some v)
    × (sign v ≡ lexicographic (numbers one_two) (numbers five))
str_cmp_int-lexicographic_example =
    str_cmp_int-lexicographic one_two five [] [] one_two-Tokens five-Tokens

str_cmp_int_like-prefix_order_example :
    str_cmp_int_like 7 8 (keyed one_two []) (keyed one_seven_two [])
    ≡ some (prefix_order (numbers one_two) (numbers one_seven_two))
str_cmp_int_like-prefix_order_example =
    str_cmp_int_like-prefix_order 7 8 one_two one_seven_two [] [] one_two-Tokens
      one_seven_two-Tokens (λ q. cc)

-- `1_2_` comes before `5_`, and str_cmp_int_like gives 1.
like_of_smaller : str_cmp_int_like 7 8 (keyed one_two []) (keyed five []) ≡ some 1
unfolding str_cmp_int_like int_loop next_uint str_to_uint linux_kernel_struct.Ustr.Compare.token
    linux_kernel_struct.Ustr.Number.digits_value linux_kernel_struct.Ustr.is_digit
like_of_smaller = refl

-- One number in common is enough where the first key has no other.
similar_of_one : str_cmp_int_similar (λ _. 0) (keyed five []) (keyed five []) ≡ some 0
unfolding str_cmp_int_similar similar_loop all_uints next_uint str_to_uint
    linux_kernel_struct.Ustr.Compare.token linux_kernel_struct.Ustr.Number.digits_value
    linux_kernel_struct.Ustr.is_digit
similar_of_one = refl

-- `1_2_5_` and `1_7_2_` have two numbers in common.
similar_of_two :
    str_cmp_int_similar (λ _. 0) (keyed (one_two ++ five) []) (keyed one_seven_two []) ≡ some 1
unfolding str_cmp_int_similar similar_loop all_uints next_uint str_to_uint
    linux_kernel_struct.Ustr.Compare.token linux_kernel_struct.Ustr.Number.digits_value
    linux_kernel_struct.Ustr.is_digit
similar_of_two = refl

str_cmp_int_similar-Sublist_example :
    (v : ℕ) × (str_cmp_int_similar (λ _. 0) (keyed one_two []) (keyed one_seven_two []) ≡ some v)
    × ((v ≡ 0) ↔ Sublist (numbers one_two) (numbers one_seven_two))
str_cmp_int_similar-Sublist_example =
    str_cmp_int_similar-Sublist (λ _. 0) one_two one_seven_two [] [] one_two-Tokens
      one_seven_two-Tokens (λ q. cc) (omega arith) (omega arith)

str_cmp-zero_example :
    (v : ℕ) × (str_cmp (97 ∷ 0 ∷ []) (97 ∷ 200 ∷ 0 ∷ []) ≡ some v)
    × ((v ≡ 0) ↔ ◌≡◌ {A = List ℕ} (97 ∷ []) (97 ∷ 200 ∷ []))
str_cmp-zero_example =
    str_cmp-zero (97 ∷ []) (97 ∷ 200 ∷ []) [] [] (omega arith, omega arith, tt)
      (omega arith, omega arith, (omega arith, omega arith, tt))

str_cmp_like_self_example :
    (str_cmp_like (97 ∷ 0 ∷ 98 ∷ []) (97 ∷ 0 ∷ []) ≡ str_cmp_like (98 ∷ []) [])
    × (str_cmp_like (97 ∷ 0 ∷ []) (97 ∷ 0 ∷ []) ≡ none)
str_cmp_like_self_example = str_cmp_like_self (97 ∷ []) (98 ∷ []) []
