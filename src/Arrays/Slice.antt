-- ===== src/Arrays/Slice.antt =====
-- Slices of an array as lists.
use linux_kernel_struct.Common.{
  if◌then◌else◌, ltb, [], ◌-◌, ◌≤◌, ◌∙◌, ℕ, zero, suc, ◌+◌, ◌<◌, ◌≡◌, refl, ap, ap₂, ◌∷◌, ◌++◌,
  arith, length,
}
use linux_kernel_struct.Arrays.{[], updated, slice}
use linux_kernel_struct.Arrays.Loops.{opened}

pub length-slice : (f : ℕ → ℕ) (i n : ℕ) → length (slice f i n) ≡ n
length-slice f i zero = refl
length-slice f i (suc n) = ap suc (length-slice f (i + 1) n)

-- Two slices with the same entries are one list, also where the second is moved by `d`.
pub slice-congr :
    (f g : ℕ → ℕ) (i j n : ℕ)
    → ((k : ℕ) → k < n → f (i + k) ≡ g (j + k))
    → slice f i n ≡ slice g j n
slice-congr f g i j zero h = refl
slice-congr f g i j (suc n) h =
    ap₂ ◌∷◌ (ground (arith, h 0 (omega arith)))
      (slice-congr f g (i + 1) (j + 1) n (λ k l. ground (arith, h (k + 1) (omega arith))))

pub slice-append : (f : ℕ → ℕ) (i m n : ℕ) → slice f i (m + n) ≡ slice f i m ++ slice f (i + m) n
slice-append f i zero n = ground arith
slice-append f i (suc m) n =
    ap (slice f i) (suc-out m n)
    ∙ ap (λ t. f i ∷ t)
        (slice-append f (i + 1) m n ∙ ap (λ t. slice f (i + 1) m ++ slice f t n) (assoc i m))
  where
    suc-out : (a b : ℕ) → suc a + b ≡ suc (a + b)
    suc-out a b = omega arith

    assoc : (a b : ℕ) → a + 1 + b ≡ a + suc b
    assoc a b = omega arith

-- The slice of an array with an entry put in.
pub slice-opened :
    (f : ℕ → ℕ) (idx n v : ℕ)
    → idx ≤ n
    → slice (opened f idx n v) 0 (n + 1) ≡ slice f 0 idx ++ v ∷ slice f idx (n - idx)
slice-opened f idx n v h =
    let g = opened f idx n v in
    let split : n + 1 ≡ idx + suc (n - idx) = omega arith in
    ap (slice g 0) split
    ∙ slice-append g 0 idx (suc (n - idx))
    ∙ ap₂ ◌++◌ (slice-congr g f 0 0 idx (λ k l. ground arith))
        (ap₂ ◌∷◌ (ground arith) (slice-congr g f (0 + idx + 1) idx (n - idx) (λ k l. ground arith)))

-- An entry written behind the slice.
pub slice-updated : (f : ℕ → ℕ) (n v : ℕ) → slice (updated f n v) 0 (n + 1) ≡ slice f 0 n ++ v ∷ []
slice-updated f n v =
    slice-append (updated f n v) 0 n 1
    ∙ ap₂ ◌++◌ (slice-congr (updated f n v) f 0 0 n (λ k l. ground arith)) (ground arith)

-- A slice with its last entry apart.
pub slice-last : (f : ℕ → ℕ) (i n : ℕ) → slice f i (n + 1) ≡ slice f i n ++ f (i + n) ∷ []
slice-last f i n = slice-append f i n 1

-- Closing up entry `k` of `n + 1`: the slices before and behind it join.
pub slice-closed :
    (f g : ℕ → ℕ) (k n : ℕ)
    → k ≤ n
    → ((j : ℕ) → j < n → g j ≡ (if ltb j k then f j else f (j + 1)))
    → slice g 0 n ≡ slice f 0 k ++ slice f (k + 1) (n - k)
slice-closed f g k n h eq =
    let split : n ≡ k + (n - k) = omega arith in
    ap (slice g 0) split
    ∙ slice-append g 0 k (n - k)
    ∙ ap₂ ◌++◌ (slice-congr g f 0 0 k (λ j l. ground (arith, eq (0 + j))))
        (slice-congr g f (0 + k) (k + 1) (n - k) (λ j l. ground (arith, eq (0 + k + j))))

pub slice-last_zero : (f : ℕ → ℕ) (n : ℕ) → slice f 0 (n + 1) ≡ slice f 0 n ++ f n ∷ []
slice-last_zero f n = slice-last f 0 n ∙ ap (λ t. slice f 0 n ++ f t ∷ []) (omega arith)
