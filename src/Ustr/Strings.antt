-- ===== src/Ustr/Strings.antt =====
-- str_len, str_copy, str_cat, str_reverse and hash_value of btree/ustr.c on strings.
use linux_kernel_struct.Common.{
  ◌*◌, ℕ, suc, ◌+◌, ◌%◌, ◌≡◌, ◌≢◌, ◌<◌, refl, ◌∙◌, none, some, List, [], ◌∷◌, ◌++◌, ltb, leb,
  if◌then◌else◌, length, drop, arith, ne→==,
}
use linux_kernel_struct.Int32.{word}
use linux_kernel_struct.Ustr.{char_int, str_len, str_copy, str_cat, hash_loop, hash_value}

-- No char ends the string `s`.
abbrev pub NoEnd : List ℕ → Type 0
NoEnd [] = Unit {0}
NoEnd (c ∷ s) = (c ≢ 0) × NoEnd s

pub str_len_lem : (s rest : List ℕ) → NoEnd s → str_len (s ++ 0 ∷ rest) ≡ some (length s)
unfolding str_len
str_len_lem [] rest h = refl
str_len_lem (c ∷ s) rest h = rw (ne→== c 0 h.0, str_len_lem s rest h.1) refl

-- A string is copied with its end, and what stands behind stays, where the target has room; a
-- shorter target is overrun.
pub str_copy_lem :
    (t s rest : List ℕ)
    → NoEnd s
    → str_copy t (s ++ 0 ∷ rest)
      ≡ (if ltb (length s) (length t) then some (s ++ 0 ∷ drop (suc (length s)) t) else none)
unfolding str_copy
str_copy_lem [] [] rest h = ground arith
str_copy_lem [] (c ∷ s) rest h = ground arith
str_copy_lem (d ∷ t) [] rest h = ground arith
str_copy_lem (d ∷ t) (c ∷ s) rest h = ground (arith, str_copy_lem t s rest h.1)

-- After a string of the target, str_cat copies to its end.
pub str_cat_lem :
    (a t s rest : List ℕ)
    → NoEnd a
    → NoEnd s
    → str_cat (a ++ 0 ∷ t) (s ++ 0 ∷ rest)
      ≡ (if leb (length s) (length t) then some (a ++ s ++ 0 ∷ drop (length s) t) else none)
unfolding str_cat
str_cat_lem [] t s rest ha h = str_copy_lem (0 ∷ t) s rest h ∙ ground arith
str_cat_lem (c ∷ a) t s rest ha h = ground (arith, str_cat_lem a t s rest ha.1 h)

hash_loop-some :
    (k : ℕ) (s rest : List ℕ) → NoEnd s → (h : ℕ) × (hash_loop k (s ++ 0 ∷ rest) ≡ some h)
unfolding hash_loop
hash_loop-some k [] rest n = (k, refl)
hash_loop-some k (c ∷ s) rest n =
    rw (ne→== c 0 n.0) (hash_loop-some ((char_int c + 31 * k) % word) s rest n.1)

-- A hash value is an index of the table but 0, whatever the bytes; without an end there is none.
pub hash_value-bounds :
    (s rest : List ℕ)
    → NoEnd s
    → (h : ℕ) × (hash_value (s ++ 0 ∷ rest) ≡ some h) × (0 < h) × (h < 10)
unfolding hash_value
hash_value-bounds s rest n =
    let (h, e) = hash_loop-some 0 s rest n in (h % 9 + 1, rw e refl, omega arith, omega arith)
