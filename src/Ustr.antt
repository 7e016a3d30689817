-- ===== src/Ustr.antt =====
-- btree/ustr.c: characters and strings. A `char*` is the list of the bytes of its object from there
-- on; an access behind the end is `none`. `char` is signed: a byte from 128 on is a negative `int`.
pub mod Number
pub mod Compare
pub mod Reverse
pub mod Strings
mod Tests
use linux_kernel_struct.Common.{
  ℕ, zero, suc, ◌+◌, ◌-◌, ◌*◌, ◌%◌, Bool, true, false, ◌&&◌, ◌||◌, Option, none, some, List, [],
  ◌∷◌, ◌==◌, ltb, leb, if◌then◌else◌, get_elem?, set,
}
use linux_kernel_struct.Arrays.{◌>>=◌}
use linux_kernel_struct.Int32.{word}

-- What a `char` is as an `int`.
abbrev pub char_int : ℕ → ℕ
char_int c = if ltb c 128 then c else word - 256 + c

-- `*s`; `s++` is the tail.
abbrev pub head : List ℕ → Option ℕ
head [] = none
head (c ∷ s) = some c

-- The char `c` before what a loop leaves of the rest.
abbrev pub after : Option (List ℕ) → ℕ → Option (List ℕ)
after none c = none
after (some s) c = some (c ∷ s)

abbrev pub between : ℕ → ℕ → ℕ → Bool
between low high c = leb low c && leb c high

unfoldable pub str_len : List ℕ → Option ℕ
str_len [] = none
str_len (c ∷ t) = if c == 0 then some 0 else do n ← str_len t; some (suc n)

-- while (*t++ = *s++);
unfoldable pub str_copy : List ℕ → List ℕ → Option (List ℕ)
str_copy t [] = none
str_copy [] (c ∷ s) = none
str_copy (d ∷ t) (c ∷ s) = if c == 0 then some (0 ∷ t) else after (str_copy t s) c

unfoldable pub str_cat : List ℕ → List ℕ → Option (List ℕ)
str_cat [] s = none
str_cat (c ∷ t) s = if c == 0 then str_copy (c ∷ t) s else after (str_cat t s) c

unfoldable pub is_smark : ℕ → Bool
is_smark c = (c == 33) || (c == 34) || (c == 44) || (c == 58) || (c == 59) || (c == 63) || (c == 96)

unfoldable pub is_end : ℕ → Bool
is_end c = (c == 46) || (c == 63) || (c == 33)

-- um_whites of btree/umac.h too.
unfoldable pub is_whitespace : ℕ → Bool
is_whitespace c = between 1 32 c

unfoldable pub is_space_mark : ℕ → Bool
is_space_mark c = if between 1 32 c then true else is_smark c

unfoldable pub is_digit : ℕ → Bool
is_digit c = between 48 57 c

unfoldable pub a_lower : ℕ → ℕ
a_lower c = if between 65 90 c then c + 32 else c

unfoldable pub a_upper : ℕ → ℕ
a_upper c = if between 97 122 c then c - 32 else c

unfoldable pub is_alpha : ℕ → Bool
is_alpha c = between 97 122 (a_lower c)

unfoldable pub str_lower : List ℕ → Option (List ℕ)
str_lower [] = none
str_lower (c ∷ t) =
    if c == 0 then some (c ∷ t) else after (str_lower t) (if between 65 90 c then c + 32 else c)

unfoldable pub str_replace : ℕ → ℕ → List ℕ → Option (List ℕ)
str_replace c1 c2 [] = none
str_replace c1 c2 (c ∷ s) =
    if c == 0 then some (c ∷ s) else after (str_replace c1 c2 s) (if c == c1 then c2 else c)

-- `s[i]` and `s[i] = c`, with `i` from the start of the object.
abbrev pub put : List ℕ → ℕ → ℕ → Option (List ℕ)
put [] i c = none
put (d ∷ s) zero c = some (c ∷ s)
put (d ∷ s) (suc i) c = after (put s i c) d

-- while (i > j): swaps s[i] and s[j]. `rounds` are at most the distance.
unfoldable pub reverse_loop : ℕ → ℕ → ℕ → List ℕ → Option (List ℕ)
reverse_loop zero i j s = some s
reverse_loop (suc rounds) i j s =
    if ltb j i
    then (do
      temp ← get_elem? s i
      c ← get_elem? s j
      s1 ← put s i c
      s2 ← put s1 j temp
      reverse_loop rounds (i - 1) (j + 1) s2)
    else some s

-- For an empty string `i` is -1, and no round is run.
unfoldable pub str_reverse : List ℕ → Option (List ℕ)
str_reverse s = do n ← str_len s; reverse_loop n (n - 1) 0 s

-- while (um_whites (*t)) *t-- = '\0';  at the index below the first argument. Below the start of the
-- object the read is out of bounds.
unfoldable pub trim_right : ℕ → List ℕ → Option (List ℕ)
trim_right zero s = none
trim_right (suc t) s = do
  c ← get_elem? s t
  if is_whitespace c then (do s' ← put s t 0; trim_right t s') else some s

-- The result is the list from the returned pointer on.
unfoldable pub str_trim_left : List ℕ → Option (List ℕ)
str_trim_left [] = none
str_trim_left (c ∷ s) = if is_whitespace c then str_trim_left s else some (c ∷ s)

unfoldable pub str_trim : List ℕ → Option (List ℕ)
str_trim s = do n ← str_len s; s1 ← put s n 0; s2 ← trim_right n s1; str_trim_left s2

-- for (h = 0; *s != '\0'; s++) h = *s + HASH * h;  on `unsigned int`.
unfoldable pub hash_loop : ℕ → List ℕ → Option ℕ
hash_loop h [] = none
hash_loop h (c ∷ s) = if c == 0 then some h else hash_loop ((char_int c + 31 * h) % word) s

-- HASHSIZE is 10.
unfoldable pub hash_value : List ℕ → Option ℕ
hash_value s = do h ← hash_loop 0 s; some (h % 9 + 1)

-- From 0xB0A1 to 0xC8FE, byte by byte: signed bytes from 128 on are ordered as the bytes are.
unfoldable pub is_kor : List ℕ → Option Bool
is_kor [] = none
is_kor (c ∷ s) = if between 176 200 c then (do d ← head s; some (between 161 254 d)) else some false

unfoldable pub is_eng : List ℕ → Option Bool
is_eng [] = none
is_eng (c ∷ s) = some (between 32 126 c)

unfoldable pub str_is_kor : List ℕ → Option Bool
str_is_kor [] = none
str_is_kor (c ∷ s) =
    if c == 0 then some false else do k ← is_kor (c ∷ s); if k then some true else str_is_kor s

unfoldable pub str_is_eng : List ℕ → Option Bool
str_is_eng [] = none
str_is_eng (c ∷ s) =
    if c == 0 then some true else (if between 32 126 c then str_is_eng s else some false)

-- The loop of str_is_eng_kor: a Korean character is two bytes, of which the second is not tested.
unfoldable pub eng_kor_loop : ℕ → List ℕ → Option ℕ
eng_kor_loop cnt [] = none
eng_kor_loop cnt (c ∷ []) =
    if c == 0
    then some (if cnt == 0 then 0 else 1)
    else if between 32 126 c
    then none
    else if between 176 200 c
    then none
    else some (word - 1)
eng_kor_loop cnt (c ∷ d ∷ s) =
    if c == 0
    then some (if cnt == 0 then 0 else 1)
    else if between 32 126 c
    then eng_kor_loop cnt (d ∷ s)
    else if between 176 200 c && between 161 254 d
    then eng_kor_loop (cnt + 1) s
    else some (word - 1)

-- -1, 0 or 1, as an `int`.
unfoldable pub str_is_eng_kor : List ℕ → Option ℕ
str_is_eng_kor s = do c ← head s; if c == 0 then some (word - 1) else eng_kor_loop 0 s
