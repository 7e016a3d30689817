-- ===== src/Ustr/Number/Digits.antt =====
-- uint_to_str and str_to_uint of btree/ustr.c: the decimal digits, and the way back.
use linux_kernel_struct.Common.{
  ap₂, ◌≢◌, inr, inl, Bool-cases, ℕ, zero, suc, ◌+◌, ◌-◌, ◌*◌, ◌%◌, ◌/◌, ◌^◌, ◌≡◌, ◌<◌, ◌≤◌, refl,
  sym, ap, ◌∙◌, some, List, [], ◌∷◌, ◌++◌, ◌==◌, if◌then◌else◌, length, arith, append_assoc,
  length-append, drop, ne→==,
}
use mathlib.Core.List.{reverse, reverse-cons}
use native.Mathlib.Numerals.{unary_clauses}
use mathlib.Core.Path.{subst}
use linux_kernel_struct.Arrays.{◌>>=◌}
use linux_kernel_struct.Int32.{word}
use linux_kernel_struct.Ustr.{put, is_digit, reverse_loop}
use linux_kernel_struct.Ustr.Strings.{NoEnd}
use linux_kernel_struct.Ustr.Reverse.{put-at, reverse_loop_lem}
use linux_kernel_struct.Ustr.Number.{digits_loop, uint_to_str, digits_value, str_to_uint}

-- The digits of `n`, the last one first, in at most `k` of them.
abbrev pub last_digits : ℕ → ℕ → List ℕ
last_digits zero n = []
last_digits (suc k) n = (n % 10 + 48) ∷ (if n / 10 == 0 then [] else last_digits k (n / 10))

-- The number of digits is at most the number of rounds.
pub length-last_digits : (k n : ℕ) → length (last_digits k n) ≤ k
length-last_digits zero n = omega arith
length-last_digits (suc k) n = ground (arith, length-last_digits k (n / 10))

ten_pow : (k : ℕ) → 10 ^ suc k ≡ 10 * 10 ^ k
ten_pow k = simp unary_clauses omega arith

more_rounds : (k n : ℕ) → n < 10 ^ k → n ≢ 0 → 0 < k
more_rounds zero n b ne = absurd (ne (omega arith))
more_rounds (suc k) n b ne = omega arith

last_digit : (n : ℕ) → n - n / 10 * 10 + 48 ≡ n % 10 + 48
last_digit n = omega arith

digits_loop_lem :
    (k n : ℕ) (pre s : List ℕ)
    → n < 10 ^ k
    → 0 < k
    → k ≤ length s
    → digits_loop k n (length pre) (pre ++ s)
      ≡ some (
        length pre + length (last_digits k n),
        pre ++ (last_digits k n ++ drop (length (last_digits k n)) s),
      )
unfolding digits_loop
digits_loop_lem zero n pre s b pos room = absurd (omega arith)
digits_loop_lem (suc k) n pre [] b pos room = absurd (omega arith)
digits_loop_lem (suc k) n pre (c ∷ s) b pos room = elim (Bool-cases (n / 10 == 0)) [
  | inl e ↦ rw (put-at pre s c (n - n / 10 * 10 + 48), last_digit n, e) refl
  | inr e ↦
      let d = n % 10 + 48 in
      let front = pre ++ d ∷ [] in
      let smaller : n / 10 < 10 ^ k = omega (arith, ten_pow k) in
      let rest =
        digits_loop_lem k (n / 10) front s smaller (more_rounds k (n / 10) smaller (ground arith))
          (omega arith) in
      let lf : length front ≡ length pre + 1 = length-append pre (d ∷ []) in
      let ds = last_digits k (n / 10) in
      let size : length front + length ds ≡ length pre + suc (length ds) = omega (arith, lf) in
      rw (put-at pre s c (n - n / 10 * 10 + 48), last_digit n, e)
        (ap₂ (λ i t. digits_loop k (n / 10) i t) (sym lf) (sym (append_assoc pre (d ∷ []) s))
          ∙ rest
          ∙ ap₂ (λ i t. some (i, t)) size (append_assoc pre (d ∷ []) (ds ++ drop (length ds) s)))
]

-- The value of digits, behind `n`.
abbrev pub value : ℕ → List ℕ → ℕ
value n [] = n
value n (c ∷ s) = value (if is_digit c then (10 * n + (c - 48)) % word else n) s

pub digits_value-append :
    (n : ℕ) (s t : List ℕ) → NoEnd s → digits_value n (s ++ t) ≡ digits_value (value n s) t
unfolding digits_value
digits_value-append n [] t h = refl
digits_value-append n (c ∷ s) t h =
    rw (ne→== c 0 h.0)
      (digits_value-append (if is_digit c then (10 * n + (c - 48)) % word else n) s t h.1)

value-append_one : (n : ℕ) (s : List ℕ) (c : ℕ) → value n (s ++ c ∷ []) ≡ value (value n s) (c ∷ [])
value-append_one n [] c = refl
value-append_one n (d ∷ s) c =
    value-append_one (if is_digit d then (10 * n + (d - 48)) % word else n) s c

pub NoEnd-append : (s t : List ℕ) → NoEnd s → NoEnd t → NoEnd (s ++ t)
NoEnd-append [] t h k = k
NoEnd-append (c ∷ s) t h k = (h.0, NoEnd-append s t h.1 k)

pub NoEnd-reverse : (s : List ℕ) → NoEnd s → NoEnd (reverse s)
NoEnd-reverse [] h = tt
NoEnd-reverse (c ∷ s) h =
    subst NoEnd (sym (reverse-cons c s))
      (NoEnd-append (reverse s) (c ∷ []) (NoEnd-reverse s h.1) (h.0, tt))

pub last_digits-NoEnd : (k n : ℕ) → NoEnd (last_digits k n)
last_digits-NoEnd zero n = tt
last_digits-NoEnd (suc k) n = elim (Bool-cases (n / 10 == 0)) [
  | inl e ↦ rw e ((λ q. omega arith), tt)
  | inr e ↦ rw e ((λ q. omega arith), last_digits-NoEnd k (n / 10))
]

-- A digit behind the value of the others.
value-digit : (m n : ℕ) → m ≡ n / 10 → n < word → value m ((n % 10 + 48) ∷ []) ≡ n
unfolding is_digit
value-digit m n e b = ground arith

pub value_lem : (k n : ℕ) → n < 10 ^ k → n < word → value 0 (reverse (last_digits k n)) ≡ n
value_lem zero n b w = omega arith
value_lem (suc k) n b w = elim (Bool-cases (n / 10 == 0)) [
  | inl e ↦ rw e (value-digit 0 n (ground arith) w)
  | inr e ↦
      let d = n % 10 + 48 in
      let ds = last_digits k (n / 10) in
      rw e (
        ap (value 0) (reverse-cons d ds)
        ∙ value-append_one 0 (reverse ds) d
        ∙ value-digit (value 0 (reverse ds)) n
            (value_lem k (n / 10) (omega (arith, ten_pow k)) (omega arith)) w)
]

digits_loop-start :
    (k n : ℕ) (s : List ℕ)
    → n < 10 ^ k
    → 0 < k
    → k ≤ length s
    → digits_loop k n 0 s
      ≡ some (length (last_digits k n), last_digits k n ++ drop (length (last_digits k n)) s)
digits_loop-start k n s b pos room =
    let ds = last_digits k n in
    digits_loop_lem k n [] s b pos room ∙ ap (λ i. some (i, ds ++ drop (length ds) s)) zero_add
  where
    zero_add : 0 + length (last_digits k n) ≡ length (last_digits k n)
    zero_add = omega arith

pub drop-cons : (n : ℕ) (s : List ℕ) → n < length s → (c : ℕ) × (drop n s ≡ c ∷ drop (n + 1) s)
drop-cons zero [] h = absurd (omega arith)
drop-cons zero (c ∷ s) h = (c, refl)
drop-cons (suc n) [] h = absurd (omega arith)
drop-cons (suc n) (d ∷ s) h =
    let (c, e) = drop-cons n s (omega arith) in
    let next : suc (n + 1) ≡ suc n + 1 = omega arith in (c, e ∙ ap (λ i. c ∷ drop i (d ∷ s)) next)

-- The end behind the digits `ds`, which are turned.
close_digits :
    (ds s s1 : List ℕ)
    → s1 ≡ ds ++ drop (length ds) s
    → length ds < length s
    → (do s2 ← put s1 (length ds) 0; reverse_loop (length ds) (length ds - 1) 0 s2)
      ≡ some (reverse ds ++ 0 ∷ drop (length ds + 1) s)
close_digits ds s s1 e room =
    let (c, e1) = drop-cons (length ds) s room in
    rw (e, e1, put-at ds (drop (length ds + 1) s) c 0)
      (reverse_loop_lem (length ds) (length ds - 1) [] ds (0 ∷ drop (length ds + 1) s) (omega arith)
        (omega arith))

-- uint_to_str writes the decimal digits of an `unsigned int` and the end, and changes nothing
-- behind, in 11 chars or more.
pub uint_to_str_lem :
    (n : ℕ) (s : List ℕ)
    → n < word
    → 11 ≤ length s
    → uint_to_str n s
      ≡ some (reverse (last_digits 10 n) ++ 0 ∷ drop (length (last_digits 10 n) + 1) s)
unfolding uint_to_str
uint_to_str_lem n s b room =
    let most = length-last_digits 10 n in
    rw (digits_loop-start 10 n s (omega arith) (omega arith) (omega arith)) (
      close_digits (last_digits 10 n) s (last_digits 10 n ++ drop (length (last_digits 10 n)) s)
        refl (omega arith))

-- str_to_uint reads back what uint_to_str has written.
pub str_to_uint-uint_to_str :
    (n : ℕ) (s : List ℕ)
    → n < word
    → 11 ≤ length s
    → (s' : List ℕ) × (uint_to_str n s ≡ some s') × (str_to_uint s' ≡ some n)
unfolding str_to_uint digits_value
str_to_uint-uint_to_str n s b room =
    let ds = last_digits 10 n in
    (
      reverse ds ++ 0 ∷ drop (length ds + 1) s,
      uint_to_str_lem n s b room,
      digits_value-append 0 (reverse ds) (0 ∷ drop (length ds + 1) s)
            (NoEnd-reverse ds (last_digits-NoEnd 10 n))
          ∙ ap some (value_lem 10 n (omega arith) b),
    )
