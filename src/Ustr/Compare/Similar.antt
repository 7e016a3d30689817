-- ===== src/Ustr/Compare/Similar.antt =====
-- str_cmp_int_similar of btree/ustr.c: the numbers of one key among those of another.
use linux_kernel_struct.Common.{
  ℕ, zero, suc, ◌+◌, ◌-◌, ◌≡◌, ◌≢◌, ◌<◌, ◌≤◌, refl, sym, ap, true, false, some, List, [], ◌∷◌, ◌++◌,
  ◌==◌, if◌then◌else◌, length, arith, ne→==, eq→==, ltb, Bool-cases, inl, inr, Bool, ◌↔◌, get_elem?,
  append_assoc, length-append,
}
use mathlib.Core.Path.{subst}
use mathlib.Core.List.{Sublist, Sublist-prop, eq-nil_of_sublist-nil, cons-sublist-cons}
use mathlib.Core.Logic.{∥∥₁_elim}
use mathlib.Core.List.Sublist as Sub
use mathlib.Core.List.Sublistᴰ as SubD
use linux_kernel_struct.Ustr.Compare.{all_uints, similar_loop, str_cmp_int_similar}
use linux_kernel_struct.Ustr.Number.Digits.{value}
use linux_kernel_struct.Ustr.Compare.Keys.{
  Tokens, keyed, numbers, keyed-head, length-keyed, next_uint_lem,
}

-- The numbers of `ms` stand in `ns` in their order, with others between them.
abbrev pub is_sublist : List ℕ → List ℕ → Bool
is_sublist [] ns = true
is_sublist (m ∷ ms) [] = false
is_sublist (m ∷ ms) (n ∷ ns) = if n == m then is_sublist ms ns else is_sublist (m ∷ ms) ns

get-at : (pre : List ℕ) (m : ℕ) (ms : List ℕ) → get_elem? (pre ++ m ∷ ms) (length pre) ≡ some m
get-at [] m ms = refl
get-at (x ∷ pre) m ms = get-at pre m ms

-- The round that has found `m`.
similar_loop-kept :
    (old : ℕ → ℕ) (pre : List ℕ) (m : ℕ) (ms ns : List ℕ)
    → ((front : List ℕ) (k : ℕ) (ks : List ℕ)
        → similar_loop old (front ++ k ∷ ks) (length front) ns
          ≡ (if is_sublist (k ∷ ks) ns then 0 else 1))
    → (if length pre + 1 == length (pre ++ m ∷ ms)
        then 0
        else similar_loop old (pre ++ m ∷ ms) (length pre + 1) ns)
      ≡ (if is_sublist ms ns then 0 else 1)
similar_loop-kept old pre m [] ns ih =
    rw (eq→== (length pre + 1) (length (pre ++ m ∷ [])) (sym (length-append pre (m ∷ [])))) refl
similar_loop-kept old pre m (k ∷ ms) ns ih =
    let front = pre ++ m ∷ [] in
    let size = length-append pre (m ∷ k ∷ ms) in
    rw (ne→== (length pre + 1) (length (pre ++ m ∷ k ∷ ms)) (λ q. omega arith)) (
      subst
        (λ j. similar_loop old (pre ++ m ∷ k ∷ ms) j ns ≡ (if is_sublist (k ∷ ms) ns then 0 else 1))
        (length-append pre (m ∷ []))
        (subst
          (λ t. similar_loop old t (length front) ns ≡ (if is_sublist (k ∷ ms) ns then 0 else 1))
          (append_assoc pre (m ∷ []) (k ∷ ms)) (ih front k ms)))

similar_loop_lem :
    (old : ℕ → ℕ) (pre : List ℕ) (m : ℕ) (ms ns : List ℕ)
    → similar_loop old (pre ++ m ∷ ms) (length pre) ns ≡ (if is_sublist (m ∷ ms) ns then 0 else 1)
unfolding similar_loop
similar_loop_lem old pre m ms [] = refl
similar_loop_lem old pre m ms (n ∷ ns) =
    let size = length-append pre (m ∷ ms) in
    elim (Bool-cases (n == m)) [
      | inl e ↦
          rw (get-at pre m ms, e)
            (similar_loop-kept old pre m ms ns (λ front k ks. similar_loop_lem old front k ks ns))
      | inr e ↦
          rw (get-at pre m ms, e, ne→== (length pre) (length (pre ++ m ∷ ms)) (λ q. omega arith))
            (similar_loop_lem old pre m ms ns)
    ]

all_uints_lem :
    (k room : ℕ) (xs : List (List ℕ)) (r : List ℕ)
    → Tokens xs
    → length xs < k
    → length xs ≤ room
    → all_uints k room (keyed xs r) ≡ some (numbers xs)
unfolding all_uints
all_uints_lem zero room xs r h fuel b = absurd (omega arith)
all_uints_lem (suc k) room [] r h fuel b = refl
all_uints_lem (suc k) room (x ∷ xs) r h fuel b =
    let (c, ec, nc, _) = keyed-head x xs r h.0 in
    rw
      (
        ec,
        ne→== c 0 nc,
        next_uint_lem x (keyed xs r) h.0 h.1,
        ne→== room 0 (λ q. omega arith),
        all_uints_lem k (room - 1) xs r h.2 (omega arith) (omega arith),
      )
      refl

length-numbers : (xs : List (List ℕ)) → length (numbers xs) ≡ length xs
length-numbers [] = refl
length-numbers (x ∷ xs) = ap suc (length-numbers xs)

is_sublist-length : (ms ns : List ℕ) → length ns < length ms → is_sublist ms ns ≡ false
is_sublist-length [] ns h = absurd (omega arith)
is_sublist-length (m ∷ ms) [] h = refl
is_sublist-length (m ∷ ms) (n ∷ ns) h =
    ground (arith, is_sublist-length ms ns, is_sublist-length (m ∷ ms) ns)

-- For a first key that is not empty, and keys of at most SSIZE numbers, the result is 0 if the
-- numbers of the first key are a sublist of those of the second one, and else 1.
pub str_cmp_int_similar-is_sublist :
    (old : ℕ → ℕ) (xs ys : List (List ℕ)) (r q : List ℕ)
    → Tokens xs
    → Tokens ys
    → xs ≢ []
    → length xs ≤ 1000
    → length ys ≤ 1000
    → str_cmp_int_similar old (keyed xs r) (keyed ys q)
      ≡ some (if is_sublist (numbers xs) (numbers ys) then 0 else 1)
unfolding str_cmp_int_similar
str_cmp_int_similar-is_sublist old [] ys r q hx hy ne bx by = absurd (ne refl)
str_cmp_int_similar-is_sublist old (x ∷ xs) ys r q hx hy ne bx by =
    let ms = numbers (x ∷ xs) in
    let ns = numbers ys in
    rw
      (
        all_uints_lem (length (keyed ys q)) 1000 ys q hy (length-keyed ys q) by,
        all_uints_lem (length (keyed (x ∷ xs) r)) 1000 (x ∷ xs) r hx (length-keyed (x ∷ xs) r) bx,
      )
      (elim (Bool-cases (ltb (length ns) (length ms))) [
        | inl e ↦ rw (e, is_sublist-length ms ns (ground arith)) refl
        | inr e ↦ rw e (ap some (similar_loop_lem old [] (value 0 x) (numbers xs) ns))
      ])

sublist-skip : (m n : ℕ) (ms ns : List ℕ) → m ≢ n → Sublist (m ∷ ms) (n ∷ ns) → Sublist (m ∷ ms) ns
sublist-skip m n ms ns ne h =
    ∥∥₁_elim h Sublist-prop
      (λ d. elim (SubD.cases_cons-cons d) [ inl s ↦ ∣ s ∣₁ | inr t ↦ absurd (ne t.0) ])

is_sublist→Sublist : (ms ns : List ℕ) → is_sublist ms ns ≡ true → Sublist ms ns
is_sublist→Sublist [] ns h = ∣ SubD.nil-sublist ns ∣₁
is_sublist→Sublist (m ∷ ms) [] h = absurd cc
is_sublist→Sublist (m ∷ ms) (n ∷ ns) h = elim (Bool-cases (n == m)) [
  | inl e ↦
      let same : n ≡ m = ground arith in
      subst (λ k. Sublist (m ∷ ms) (k ∷ ns)) (sym same)
        (Sub.cons-cons m (is_sublist→Sublist ms ns (ground arith)))
  | inr e ↦ Sub.cons n (is_sublist→Sublist (m ∷ ms) ns (ground arith))
]

Sublist→is_sublist : (ms ns : List ℕ) → Sublist ms ns → is_sublist ms ns ≡ true
Sublist→is_sublist [] ns h = refl
Sublist→is_sublist (m ∷ ms) [] h = let e : m ∷ ms ≡ [] = eq-nil_of_sublist-nil h in absurd cc
Sublist→is_sublist (m ∷ ms) (n ∷ ns) h = elim (Bool-cases (n == m)) [
  | inl e ↦
      let same : n ≡ m = ground arith in
      rw e (
        Sublist→is_sublist ms ns
          (cons-sublist-cons.0 (subst (λ k. Sublist (m ∷ ms) (k ∷ ns)) same h)))
  | inr e ↦ rw e (Sublist→is_sublist (m ∷ ms) ns (sublist-skip m n ms ns (ground arith) h))
]

-- For a first key that is not empty, and keys of at most SSIZE numbers, str_cmp_int_similar returns,
-- and the result is 0 just where the numbers of the first key are a sublist of those of the second.
pub str_cmp_int_similar-Sublist :
    (old : ℕ → ℕ) (xs ys : List (List ℕ)) (r q : List ℕ)
    → Tokens xs
    → Tokens ys
    → xs ≢ []
    → length xs ≤ 1000
    → length ys ≤ 1000
    → (v : ℕ) × (str_cmp_int_similar old (keyed xs r) (keyed ys q) ≡ some v)
      × ((v ≡ 0) ↔ Sublist (numbers xs) (numbers ys))
str_cmp_int_similar-Sublist old xs ys r q hx hy ne bx by =
    let ms = numbers xs in
    let ns = numbers ys in
    (
      (if is_sublist ms ns then 0 else 1),
      str_cmp_int_similar-is_sublist old xs ys r q hx hy ne bx by,
      ((λ e. is_sublist→Sublist ms ns (ground arith)), (λ h. rw (Sublist→is_sublist ms ns h) refl)),
    )
