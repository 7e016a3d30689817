-- ===== src/Ustr/Compare/Keys.antt =====
-- The keys that str_cmp_int, str_cmp_int_like and str_cmp_int_similar of btree/ustr.c read: decimal
-- numbers with `_` behind each.
use linux_kernel_struct.Common.{
  ℕ, zero, suc, ◌≡◌, ◌≢◌, ◌<◌, ◌≤◌, refl, some, List, [], ◌∷◌, ◌++◌, ◌==◌, if◌then◌else◌, length,
  arith, length-append, ne→==,
}
use linux_kernel_struct.Ustr.{head}
use linux_kernel_struct.Ustr.Strings.{NoEnd}
use linux_kernel_struct.Ustr.Number.{digits_value, str_to_uint}
use linux_kernel_struct.Ustr.Number.Digits.{value, digits_value-append}
use linux_kernel_struct.Ustr.Compare.{token, next_uint, int_loop}

abbrev pub Digits : List ℕ → Type 0
Digits [] = Unit {0}
Digits (c ∷ t) = (48 ≤ c) × (c ≤ 57) × Digits t

-- Tokens of at most ten digits, which is what `sa` and `ta` have room for.
abbrev pub Tokens : List (List ℕ) → Type 0
Tokens [] = Unit {0}
Tokens (t ∷ ts) = Digits t × (length t ≤ 10) × Tokens ts

-- The string of the tokens, with what stands behind its end.
abbrev pub keyed : List (List ℕ) → List ℕ → List ℕ
keyed [] rest = 0 ∷ rest
keyed (t ∷ ts) rest = t ++ 95 ∷ keyed ts rest

-- The numbers of a key.
abbrev pub numbers : List (List ℕ) → List ℕ
numbers [] = []
numbers (t ∷ ts) = value 0 t ∷ numbers ts

Digits-NoEnd : (t : List ℕ) → Digits t → NoEnd t
Digits-NoEnd [] d = tt
Digits-NoEnd (c ∷ t) d = ((λ q. omega (arith, d.0)), Digits-NoEnd t d.2)

token_lem :
    (room : ℕ) (t s : List ℕ)
    → Digits t
    → length t < room
    → token room (t ++ 95 ∷ s) ≡ some (t ++ 0 ∷ [], s)
unfolding token
token_lem zero t s d h = absurd (omega arith)
token_lem (suc room) [] s d h = refl
token_lem (suc room) (c ∷ t) s d h =
    rw (ne→== c 95 (λ q. omega (arith, d.1)), token_lem room t s d.2 (omega arith)) refl

pub next_uint_lem :
    (t s : List ℕ) → Digits t → length t ≤ 10 → next_uint (t ++ 95 ∷ s) ≡ some (value 0 t, s)
unfolding next_uint str_to_uint digits_value
next_uint_lem t s d h =
    rw (token_lem 11 t s d (omega arith), digits_value-append 0 t (0 ∷ []) (Digits-NoEnd t d)) refl

-- The first char of a key that is not empty.
pub keyed-head :
    (t : List ℕ) (ts : List (List ℕ)) (rest : List ℕ)
    → Digits t
    → (c : ℕ) × (head (keyed (t ∷ ts) rest) ≡ some c) × (c ≢ 0) × (c < 128)
keyed-head [] ts rest d = (95, refl, (λ q. omega arith), omega arith)
keyed-head (c ∷ t) ts rest d = (c, refl, (λ q. omega (arith, d.0)), omega (arith, d.1))

pub length-keyed : (ts : List (List ℕ)) (rest : List ℕ) → length ts < length (keyed ts rest)
length-keyed [] rest = omega arith
length-keyed (t ∷ ts) rest =
    omega (arith, length-append t (95 ∷ keyed ts rest), length-keyed ts rest)

-- One round of the comparisons.
pub int_loop-cons :
    (k su tu : ℕ) (x y : List ℕ) (xs ys : List (List ℕ)) (r q : List ℕ)
    → Tokens (x ∷ xs)
    → Tokens (y ∷ ys)
    → int_loop (suc k) su tu (keyed (x ∷ xs) r) (keyed (y ∷ ys) q) ≡ (
        if value 0 x == value 0 y
        then int_loop k (value 0 x) (value 0 y) (keyed xs r) (keyed ys q)
        else some (value 0 x, value 0 y, keyed xs r, keyed ys q))
unfolding int_loop
int_loop-cons k su tu x y xs ys r q hx hy =
    let (c, ec, nc, _) = keyed-head x xs r hx.0 in
    let (d, ed, nd, _) = keyed-head y ys q hy.0 in
    rw
      (
        ec,
        ed,
        ne→== c 0 nc,
        ne→== d 0 nd,
        next_uint_lem x (keyed xs r) hx.0 hx.1,
        next_uint_lem y (keyed ys q) hy.0 hy.1,
      )
      refl

-- The loop ends with one of the keys.
pub int_loop-nil :
    (k su tu : ℕ) (ys : List (List ℕ)) (r q : List ℕ)
    → Tokens ys
    → (int_loop (suc k) su tu (0 ∷ r) (keyed ys q) ≡ some (su, tu, 0 ∷ r, keyed ys q))
      × (int_loop (suc k) su tu (keyed ys q) (0 ∷ r) ≡ some (su, tu, keyed ys q, 0 ∷ r))
unfolding int_loop
int_loop-nil k su tu [] r q h = (refl, refl)
int_loop-nil k su tu (y ∷ ys) r q h =
    let (d, ed, nd, _) = keyed-head y ys q h.0 in (rw ed refl, rw (ed, ne→== d 0 nd) refl)
