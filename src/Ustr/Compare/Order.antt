-- ===== src/Ustr/Compare/Order.antt =====
-- str_cmp_int and str_cmp_int_like of btree/ustr.c as orders of lists of numbers.
use linux_kernel_struct.Common.{
  ℕ, zero, suc, ◌^◌, ◌≡◌, ◌≢◌, ◌<◌, refl, true, false, some, List, [], ◌∷◌, ◌==◌, if◌then◌else◌,
  length, arith, ltb, Option, Bool-cases, inl, inr,
}
use linux_kernel_struct.Arrays.{◌>>=◌}
use linux_kernel_struct.Ustr.{head}
use linux_kernel_struct.Ustr.Compare.{minus_one, diff, int_loop, str_cmp_int}
use linux_kernel_struct.Ustr.Number.Digits.{value}
use linux_kernel_struct.Ustr.Compare.Keys.{
  Tokens, keyed, numbers, keyed-head, length-keyed, int_loop-cons, int_loop-nil,
}

pub data Sign : Type 0 where
  below : Sign
  same : Sign
  above : Sign

-- The sign of an `int`.
abbrev pub sign : ℕ → Sign
sign r = if r == 0 then same else if ltb r (2 ^ 31) then above else below

-- The lexicographic order, in which a proper prefix comes first.
abbrev pub lexicographic : List ℕ → List ℕ → Sign
lexicographic [] [] = same
lexicographic [] (n ∷ ns) = below
lexicographic (m ∷ ms) [] = above
lexicographic (m ∷ ms) (n ∷ ns) =
    if m == n then lexicographic ms ns else if ltb m n then below else above

-- What str_cmp_int makes of the end of its loop.
abbrev result : ℕ × ℕ × List ℕ × List ℕ → Option ℕ
result (su, tu, s, t) =
    if ltb su tu
    then some minus_one
    else if ltb tu su
    then some 1
    else (do c ← head s; d ← head t; some (diff c d))

Gives : Option ℕ → Sign → Type 0
Gives o w = (r : ℕ) × (o ≡ some r) × (sign r ≡ w)

pub ltb_self : (n : ℕ) → ltb n n ≡ false
ltb_self n = ground arith

sign-diff : (c : ℕ) → c ≢ 0 → c < 128 → (sign (diff 0 c) ≡ below) × (sign (diff c 0) ≡ above)
sign-diff c h b = (ground arith, ground arith)

result-ne :
    (m n : ℕ) (s t : List ℕ)
    → m ≢ n
    → Gives (result (m, n, s, t)) (if ltb m n then below else above)
unfolding Gives
result-ne m n s t ne = elim (Bool-cases (ltb m n)) [
  | inl e ↦ rw e (minus_one, refl, refl)
  | inr e ↦ let e' : ltb n m ≡ true = ground arith in rw (e, e') (1, refl, refl)
]

result-ends :
    (k n : ℕ) (ys : List (List ℕ)) (r q : List ℕ)
    → Tokens ys
    → Gives
        (do e ← int_loop (suc k) n n (0 ∷ r) (keyed ys q); result e)
        (lexicographic [] (numbers ys))
      × Gives
          (do e ← int_loop (suc k) n n (keyed ys q) (0 ∷ r); result e)
          (lexicographic (numbers ys) [])
unfolding Gives
result-ends k n [] r q h =
    let (e1, e2) = int_loop-nil k n n [] r q tt in
    rw (e1, e2, ltb_self n) ((0, refl, refl), (0, refl, refl))
result-ends k n (y ∷ ys) r q h =
    let (e1, e2) = int_loop-nil k n n (y ∷ ys) r q h in
    let (c, ec, nc, lc) = keyed-head y ys q h.0 in
    let (s1, s2) = sign-diff c nc lc in
    rw (e1, e2, ltb_self n, ec) ((diff 0 c, refl, s1), (diff c 0, refl, s2))

str_cmp_int_loop :
    (k n : ℕ) (xs ys : List (List ℕ)) (r q : List ℕ)
    → Tokens xs
    → Tokens ys
    → length xs < k
    → Gives
        (do e ← int_loop k n n (keyed xs r) (keyed ys q); result e)
        (lexicographic (numbers xs) (numbers ys))
str_cmp_int_loop zero n xs ys r q hx hy fuel = absurd (omega arith)
str_cmp_int_loop (suc k) n [] ys r q hx hy fuel = (result-ends k n ys r q hy).0
str_cmp_int_loop (suc k) n (x ∷ xs) [] r q hx hy fuel = (result-ends k n (x ∷ xs) q r hx).1
str_cmp_int_loop (suc k) n (x ∷ xs) (y ∷ ys) r q hx hy fuel =
    let m = value 0 x in
    elim (Bool-cases (m == value 0 y)) [
      | inl e ↦
          let eq : m ≡ value 0 y = ground arith in
          rw (int_loop-cons k n n x y xs ys r q hx hy, e, ← eq)
            (str_cmp_int_loop k m xs ys r q hx.2 hy.2 (omega arith))
      | inr e ↦
          rw (int_loop-cons k n n x y xs ys r q hx hy, e)
            (result-ne m (value 0 y) (keyed xs r) (keyed ys q) (ground arith))
    ]

-- On two keys str_cmp_int returns, and the sign is their lexicographic order as lists of numbers.
pub str_cmp_int-lexicographic :
    (xs ys : List (List ℕ)) (r q : List ℕ)
    → Tokens xs
    → Tokens ys
    → (v : ℕ) × (str_cmp_int (keyed xs r) (keyed ys q) ≡ some v)
      × (sign v ≡ lexicographic (numbers xs) (numbers ys))
unfolding str_cmp_int Gives
str_cmp_int-lexicographic xs ys r q hx hy =
    str_cmp_int_loop (length (keyed xs r)) 0 xs ys r q hx hy (length-keyed xs r)
