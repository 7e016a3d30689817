-- ===== src/Ustr/Compare.antt =====
-- The comparisons of btree/ustr.c. Their `int` results are 32-bit patterns.
pub mod Keys
pub mod Prefix
pub mod Similar
pub mod Strings
pub mod Order
use linux_kernel_struct.Common.{
  ℕ, zero, suc, ◌+◌, ◌-◌, ◌*◌, ◌%◌, Bool, true, false, ◌&&◌, ◌||◌, not, Option, none, some, List,
  [], ◌∷◌, ◌++◌, ◌==◌, ltb, leb, if◌then◌else◌, length, get_elem?,
}
use linux_kernel_struct.Arrays.{◌>>=◌}
use linux_kernel_struct.Int32.{word}
use linux_kernel_struct.Ustr.{char_int, head}
use linux_kernel_struct.Ustr.Number.{str_to_uint}

abbrev pub minus_one : ℕ
minus_one = word - 1

-- `*s - *t`
abbrev pub diff : ℕ → ℕ → ℕ
diff c d = (char_int c + (word - char_int d)) % word

unfoldable pub str_cmp : List ℕ → List ℕ → Option ℕ
str_cmp [] t = none
str_cmp (c ∷ s) [] = none
str_cmp (c ∷ s) (d ∷ t) =
    if c == d then (if c == 0 then some (diff c d) else str_cmp s t) else some (diff c d)

-- The loop has no test for the end of the strings.
unfoldable pub str_cmp_like : List ℕ → List ℕ → Option ℕ
str_cmp_like [] t = none
str_cmp_like (c ∷ s) [] = none
str_cmp_like (c ∷ s) (d ∷ t) =
    if c == d then str_cmp_like s t else (if c == 0 then some 0 else some (diff c d))

-- while (*s != '_') sa[i++] = *s++; sa[i] = '\0'; s++;  with `room` chars of `sa` left. The string
-- `sa`, and the rest of `s`.
unfoldable pub token : ℕ → List ℕ → Option (List ℕ × List ℕ)
token room [] = none
token zero (c ∷ s) = none
token (suc room) (c ∷ s) =
    if c == 95 then some (0 ∷ [], s) else (do (sa, s') ← token room s; some (c ∷ sa, s'))

-- A token of at most ten chars as an `unsigned int`.
unfoldable pub next_uint : List ℕ → Option (ℕ × List ℕ)
next_uint s = do (sa, s') ← token 11 s; n ← str_to_uint sa; some (n, s')

-- while (*s && *t) ...; what su, tu, s and t are in the end.
unfoldable pub int_loop : ℕ → ℕ → ℕ → List ℕ → List ℕ → Option (ℕ × ℕ × List ℕ × List ℕ)
int_loop zero su tu s t = none
int_loop (suc rounds) su tu s t = do
  c ← head s
  d ← head t
  if (c == 0) || (d == 0) then some (su, tu, s, t) else (do
    (su', s') ← next_uint s
    (tu', t') ← next_uint t
    if su' == tu' then int_loop rounds su' tu' s' t' else some (su', tu', s', t'))

-- A round reads at least one char, so that as many rounds as chars are enough.
unfoldable pub str_cmp_int : List ℕ → List ℕ → Option ℕ
str_cmp_int s t = do
  (su, tu, s', t') ← int_loop (length s) 0 0 s t
  if ltb su tu
      then some minus_one
      else if ltb tu su
      then some 1
      else (do c ← head s'; d ← head t'; some (diff c d))

-- `su` and `tu` are not initialised: what they hold is `su0` and `tu0`.
unfoldable pub str_cmp_int_like : ℕ → ℕ → List ℕ → List ℕ → Option ℕ
str_cmp_int_like su0 tu0 s t = do
  (su, tu, s', t') ← int_loop (length s) su0 tu0 s t
  c ← head s'
  d ← head t'
  if not (c == 0) && (d == 0)
      then some 1
      else if ltb su tu
      then some minus_one
      else if ltb tu su
      then some 1
      else some 0

-- for ( ; *s != *t; t++) if (*t == '\0') return 1;  `none` inside is that return.
unfoldable pub seek : List ℕ → List ℕ → Option (Option (List ℕ))
seek [] s = none
seek (d ∷ t) s = do
  c ← head s
  if c == d then some (some (d ∷ t)) else (if d == 0 then some none else seek t s)

-- for ( ; *s == *t; s++, t++) ...
unfoldable pub count_equal : ℕ → ℕ → List ℕ → List ℕ → Option ℕ
count_equal num cnt [] s = none
count_equal num cnt (d ∷ t) [] = none
count_equal num cnt (d ∷ t) (c ∷ s) =
    if c == d
    then (if cnt + 1 == num
        then some 0
        else (if c == 0 then some 1 else count_equal num (cnt + 1) t s))
    else some 1

unfoldable pub str_ncmp : List ℕ → List ℕ → ℕ → Option ℕ
str_ncmp t s num = do
  found ← seek t s
  elim found [ none ↦ some 1 | some t' ↦ count_equal num 0 t' s ]

-- The numbers of a key, at most `room` of them: the arrays `sca` and `tca` of SSIZE entries.
unfoldable pub all_uints : ℕ → ℕ → List ℕ → Option (List ℕ)
all_uints zero room s = none
all_uints (suc rounds) room s = do
  c ← head s
  if c == 0 then some [] else (do
    (n, s') ← next_uint s
    if room == 0 then none else (do ns ← all_uints rounds (room - 1) s'; some (n ∷ ns)))

-- for (i = 0; i < tc; i++) ...; entries of `sca` behind the last number are `old`.
unfoldable pub similar_loop : (ℕ → ℕ) → List ℕ → ℕ → List ℕ → ℕ
similar_loop old sca j [] = 1
similar_loop old sca j (n ∷ tca) =
    let m : ℕ = elim (get_elem? sca j) [ none ↦ old j | some v ↦ v ] in
    let j' : ℕ = if n == m then j + 1 else j in
    if j' == length sca then 0 else similar_loop old sca j' tca

unfoldable pub str_cmp_int_similar : (ℕ → ℕ) → List ℕ → List ℕ → Option ℕ
str_cmp_int_similar old s t = do
  tca ← all_uints (length t) 1000 t
  sca ← all_uints (length s) 1000 s
  some (if ltb (length tca) (length sca) then 1 else similar_loop old sca 0 tca)
