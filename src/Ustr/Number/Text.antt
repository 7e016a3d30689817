-- ===== src/Ustr/Number/Text.antt =====
-- The decimal digits that uint_to_str of btree/ustr.c writes, as a string of the data files.
use linux_kernel_struct.Common.{
  inr, inl, drop, ◌==◌, replicate, ◌/◌, arith, Bool-cases, length-append, length, ℕ, zero, suc, ◌+◌,
  ◌≤◌, ◌<◌, ◌≡◌, refl, sym, ap, ◌∙◌, some, List, [], ◌∷◌, ◌++◌,
}
use mathlib.Core.List.{reverse, reverse-cons}
use linux_kernel_struct.Ustr.Number.{uint_to_str, digits_value, str_to_uint}
use linux_kernel_struct.Ustr.Number.Digits.{
  value_lem, last_digits-NoEnd, uint_to_str_lem, NoEnd-reverse, length-last_digits,
  digits_value-append, last_digits,
}
use linux_kernel_struct.Ustr.Compare.Strings.{IsText}
use linux_kernel_struct.Int32.{word}
use mathlib.Core.Path.{subst}

abbrev pub decimal : ℕ → List ℕ
decimal n = reverse (last_digits 10 n)

IsText-append : (s t : List ℕ) → IsText s → IsText t → IsText (s ++ t)
IsText-append [] t h k = k
IsText-append (c ∷ s) t h k = (h.0, h.1, IsText-append s t h.2 k)

IsText-reverse : (s : List ℕ) → IsText s → IsText (reverse s)
IsText-reverse [] h = tt
IsText-reverse (c ∷ s) h =
    subst IsText (sym (reverse-cons c s))
      (IsText-append (reverse s) (c ∷ []) (IsText-reverse s h.2) (h.0, h.1, tt))

last_digits-IsText : (k n : ℕ) → IsText (last_digits k n)
last_digits-IsText zero n = tt
last_digits-IsText (suc k) n = elim (Bool-cases (n / 10 == 0)) [
  | inl e ↦ rw e (omega arith, omega arith, tt)
  | inr e ↦ rw e (omega arith, omega arith, last_digits-IsText k (n / 10))
]

pub decimal-IsText : (n : ℕ) → IsText (decimal n)
decimal-IsText n = IsText-reverse (last_digits 10 n) (last_digits-IsText 10 n)

pub length-reversed : (s : List ℕ) → length (reverse s) ≡ length s
length-reversed [] = refl
length-reversed (c ∷ s) =
    ap length (reverse-cons c s)
    ∙ length-append (reverse s) (c ∷ [])
    ∙ omega (arith, length-reversed s)

pub length-decimal : (n : ℕ) → length (decimal n) ≤ 10
length-decimal n = omega (arith, length-reversed (last_digits 10 n), length-last_digits 10 n)

pub str_to_uint-decimal :
    (n : ℕ) (r : List ℕ) → n < word → str_to_uint (decimal n ++ 0 ∷ r) ≡ some n
unfolding str_to_uint digits_value
str_to_uint-decimal n r b =
    let ds = last_digits 10 n in
    digits_value-append 0 (reverse ds) (0 ∷ r) (NoEnd-reverse ds (last_digits-NoEnd 10 n))
    ∙ ap some (value_lem 10 n (omega arith) b)

-- uint_to_str in `char akey[ASIZE]`.
pub uint_to_str-decimal :
    (n : ℕ) → n < word → (r : List ℕ) × (uint_to_str n (replicate 80 0) ≡ some (decimal n ++ 0 ∷ r))
uint_to_str-decimal n b = (
  drop (length (last_digits 10 n) + 1) (replicate 80 0),
  uint_to_str_lem n (replicate 80 0) b (omega arith),
)
