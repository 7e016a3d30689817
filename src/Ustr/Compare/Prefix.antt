-- ===== src/Ustr/Compare/Prefix.antt =====
-- str_cmp_int_like of btree/ustr.c: which keys it takes to begin with the first one.
use linux_kernel_struct.Common.{
  ap₂, ℕ, zero, suc, ◌≡◌, ◌≢◌, ◌<◌, refl, ap, ◌∙◌, true, false, some, List, [], ◌∷◌, ◌++◌, ◌==◌,
  if◌then◌else◌, length, arith, ne→==, eq→==, ltb, Option, Bool-cases, inl, inr, ◌&&◌, not, Bool,
  ◌↔◌,
}
use linux_kernel_struct.Arrays.{◌>>=◌}
use linux_kernel_struct.Ustr.{head}
use linux_kernel_struct.Ustr.Compare.{minus_one, int_loop, str_cmp_int_like}
use linux_kernel_struct.Ustr.Compare.Keys.{
  Tokens, keyed, numbers, keyed-head, length-keyed, int_loop-cons, int_loop-nil,
}
use linux_kernel_struct.Ustr.Number.Digits.{value}
use linux_kernel_struct.Ustr.Compare.Order.{ltb_self}

-- Only the first list goes on.
abbrev pub goes_on : List ℕ → List ℕ → Bool
goes_on [] ns = false
goes_on (m ∷ ms) [] = true
goes_on (m ∷ ms) (n ∷ ns) = false

-- 0 where the first list is a prefix of the second. At the first two numbers that differ, 1 if only
-- the first list goes on behind them, and else their order.
abbrev pub prefix_order : List ℕ → List ℕ → ℕ
prefix_order [] ns = 0
prefix_order (m ∷ ms) [] = 1
prefix_order (m ∷ ms) (n ∷ ns) =
    if m == n
    then prefix_order ms ns
    else if goes_on ms ns
    then 1
    else if ltb m n
    then minus_one
    else 1

-- What str_cmp_int_like makes of the end of its loop.
abbrev result : ℕ × ℕ × List ℕ × List ℕ → Option ℕ
result (su, tu, s, t) = do
  c ← head s
  d ← head t
  if not (c == 0) && (d == 0)
      then some 1
      else if ltb su tu
      then some minus_one
      else if ltb tu su
      then some 1
      else some 0

result-ne :
    (m n : ℕ) (xs ys : List (List ℕ)) (r q : List ℕ)
    → Tokens xs
    → Tokens ys
    → m ≢ n
    → result (m, n, keyed xs r, keyed ys q)
      ≡ some (if goes_on (numbers xs) (numbers ys) then 1 else if ltb m n then minus_one else 1)
result-ne m n [] [] r q hx hy ne = ground arith
result-ne m n [] (y ∷ ys) r q hx hy ne =
    let (d, ed, nd, _) = keyed-head y ys q hy.0 in rw ed (ground arith)
result-ne m n (x ∷ xs) [] r q hx hy ne =
    let (c, ec, nc, _) = keyed-head x xs r hx.0 in rw (ec, ne→== c 0 nc) refl
result-ne m n (x ∷ xs) (y ∷ ys) r q hx hy ne =
    let (c, ec, nc, _) = keyed-head x xs r hx.0 in
    let (d, ed, nd, _) = keyed-head y ys q hy.0 in
    rw (ec, ed, ne→== c 0 nc, ne→== d 0 nd) (ground arith)

like_loop :
    (k su tu : ℕ) (xs ys : List (List ℕ)) (r q : List ℕ)
    → Tokens xs
    → Tokens ys
    → length xs < k
    → (xs ≡ [] → su ≡ tu)
    → (do e ← int_loop k su tu (keyed xs r) (keyed ys q); result e)
      ≡ some (prefix_order (numbers xs) (numbers ys))
like_loop zero su tu xs ys r q hx hy fuel e = absurd (omega arith)
like_loop (suc k) su tu [] [] r q hx hy fuel e =
    rw ((int_loop-nil k su tu [] r q tt).0, e refl, ltb_self tu) refl
like_loop (suc k) su tu [] (y ∷ ys) r q hx hy fuel e =
    let (d, ed, nd, _) = keyed-head y ys q hy.0 in
    rw ((int_loop-nil k su tu (y ∷ ys) r q hy).0, ed, e refl, ltb_self tu) refl
like_loop (suc k) su tu (x ∷ xs) [] r q hx hy fuel e =
    let (c, ec, nc, _) = keyed-head x xs r hx.0 in
    rw ((int_loop-nil k su tu (x ∷ xs) q r hx).1, ec, ne→== c 0 nc) refl
like_loop (suc k) su tu (x ∷ xs) (y ∷ ys) r q hx hy fuel e =
    let m = value 0 x in
    elim (Bool-cases (m == value 0 y)) [
      | inl same ↦
          rw (int_loop-cons k su tu x y xs ys r q hx hy, same)
            (like_loop k m (value 0 y) xs ys r q hx.2 hy.2 (omega arith) (λ _. ground arith))
      | inr other ↦
          rw (int_loop-cons k su tu x y xs ys r q hx hy, other)
            (result-ne m (value 0 y) xs ys r q hx.2 hy.2 (ground arith))
    ]

-- For a first key that is not empty str_cmp_int_like returns the prefix order of the lists of
-- numbers, whatever the uninitialised `su` and `tu` hold.
pub str_cmp_int_like-prefix_order :
    (su0 tu0 : ℕ) (xs ys : List (List ℕ)) (r q : List ℕ)
    → Tokens xs
    → Tokens ys
    → xs ≢ []
    → str_cmp_int_like su0 tu0 (keyed xs r) (keyed ys q)
      ≡ some (prefix_order (numbers xs) (numbers ys))
unfolding str_cmp_int_like
str_cmp_int_like-prefix_order su0 tu0 xs ys r q hx hy ne =
    like_loop (length (keyed xs r)) su0 tu0 xs ys r q hx hy (length-keyed xs r) (λ e. absurd (ne e))

prefix_order-zero : (ms ns : List ℕ) → prefix_order ms ns ≡ 0 → (zs : List ℕ) × (ns ≡ ms ++ zs)
prefix_order-zero [] ns e = (ns, refl)
prefix_order-zero (m ∷ ms) [] e = absurd (omega arith)
prefix_order-zero (m ∷ ms) (n ∷ ns) e = elim (Bool-cases (m == n)) [
  | inl same ↦
      let (zs, view) = prefix_order-zero ms ns (ground arith) in
      let eq : n ≡ m = ground arith in (zs, ap₂ ◌∷◌ eq view)
  | inr other ↦ absurd (ground arith)
]

zero-prefix_order : (ms zs : List ℕ) → prefix_order ms (ms ++ zs) ≡ 0
zero-prefix_order [] zs = refl
zero-prefix_order (m ∷ ms) zs = rw (eq→== m m refl) (zero-prefix_order ms zs)

-- For a first key that is not empty the result is 0 just where its numbers are a prefix of those of
-- the second one.
pub str_cmp_int_like-zero :
    (su0 tu0 : ℕ) (xs ys : List (List ℕ)) (r q : List ℕ)
    → Tokens xs
    → Tokens ys
    → xs ≢ []
    → (str_cmp_int_like su0 tu0 (keyed xs r) (keyed ys q) ≡ some 0)
      ↔ ((zs : List ℕ) × (numbers ys ≡ numbers xs ++ zs))
str_cmp_int_like-zero su0 tu0 xs ys r q hx hy ne =
    let value_is = str_cmp_int_like-prefix_order su0 tu0 xs ys r q hx hy ne in
    (
      (λ h. prefix_order-zero (numbers xs) (numbers ys) cc),
      (λ h. value_is ∙ ap some (rw h.1 (zero-prefix_order (numbers xs) h.0))),
    )
