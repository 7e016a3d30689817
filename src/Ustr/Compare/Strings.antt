-- ===== src/Ustr/Compare/Strings.antt =====
-- str_cmp and str_cmp_like of btree/ustr.c on strings.
use linux_kernel_struct.Common.{
  ℕ, ◌≡◌, ◌≢◌, ◌<◌, refl, ap₂, some, none, List, [], ◌∷◌, ◌++◌, ◌==◌, arith, ne→==, eq→==,
  Bool-cases, inl, inr, ◌↔◌,
}
use linux_kernel_struct.Ustr.Strings.{NoEnd}
use linux_kernel_struct.Ustr.Compare.{diff, str_cmp, str_cmp_like}

-- Bytes that do not end a string.
abbrev pub IsText : List ℕ → Type 0
IsText [] = Unit {0}
IsText (c ∷ s) = (0 < c) × (c < 256) × IsText s

diff-ne : (c d : ℕ) → c < 256 → d < 256 → c ≢ d → diff c d ≢ 0
diff-ne c d hc hd ne = ground arith

-- str_cmp returns on two strings, and the result is 0 just where they are equal.
pub str_cmp-zero :
    (s t r q : List ℕ)
    → IsText s
    → IsText t
    → (v : ℕ) × (str_cmp (s ++ 0 ∷ r) (t ++ 0 ∷ q) ≡ some v) × ((v ≡ 0) ↔ (s ≡ t))
unfolding str_cmp
str_cmp-zero [] [] r q hs ht = (0, refl, ((λ _. refl), (λ _. refl)))
str_cmp-zero [] (d ∷ t) r q hs ht = rw (ne→== 0 d (λ e. omega (arith, ht.0))) (
  diff 0 d,
  refl,
  ((λ e. absurd (diff-ne 0 d (omega arith) ht.1 (λ e'. omega (arith, ht.0)) e)), (λ e. absurd cc)),
)
str_cmp-zero (c ∷ s) [] r q hs ht = rw (ne→== c 0 (λ e. omega (arith, hs.0))) (
  diff c 0,
  refl,
  ((λ e. absurd (diff-ne c 0 hs.1 (omega arith) (λ e'. omega (arith, hs.0)) e)), (λ e. absurd cc)),
)
str_cmp-zero (c ∷ s) (d ∷ t) r q hs ht = elim (Bool-cases (c == d)) [
  | inl e ↦
      let (v, run, zero_iff) = str_cmp-zero s t r q hs.2 ht.2 in
      let same : c ≡ d = ground arith in
      rw (e, ne→== c 0 (λ z. omega (arith, hs.0)))
        (v, run, ((λ z. ap₂ ◌∷◌ same (zero_iff.0 z)), (λ z. zero_iff.1 cc)))
  | inr e ↦
      let other : c ≢ d = ground arith in
      rw e
        (diff c d, refl, ((λ z. absurd (diff-ne c d hs.1 ht.1 other z)), (λ z. absurd (other cc))))
]

-- str_cmp_like goes on behind the ends of equal strings: with nothing behind them it reads out of
-- bounds, and what stands behind them decides the result otherwise.
pub str_cmp_like_self :
    (s r q : List ℕ)
    → (str_cmp_like (s ++ 0 ∷ r) (s ++ 0 ∷ q) ≡ str_cmp_like r q)
      × (str_cmp_like (s ++ 0 ∷ []) (s ++ 0 ∷ q) ≡ none)
unfolding str_cmp_like
str_cmp_like_self [] r q = (refl, refl)
str_cmp_like_self (c ∷ s) r q = rw (eq→== c c refl) (str_cmp_like_self s r q)

pub IsText-NoEnd : (s : List ℕ) → IsText s → NoEnd s
IsText-NoEnd [] h = tt
IsText-NoEnd (c ∷ s) h = ((λ e. omega (arith, h.0)), IsText-NoEnd s h.2)
