-- ===== src/MemberKey.antt =====
-- The private keys of members of btree/tw2.c: _tw2_getchar_encode_key and _tw2_get_decode_key, with
-- the random numbers of btree/utime.c. Strings are lists of bytes; a `char` wraps at 256.
mod Tests
pub mod Encode
pub mod RoundTrip
use linux_kernel_struct.Common.{
  ℕ, zero, suc, ◌+◌, ◌-◌, ◌*◌, ◌/◌, ◌%◌, Option, none, some, List, [], ◌∷◌, ◌++◌, ◌==◌, ltb,
  if◌then◌else◌, get_elem?,
}
use linux_kernel_struct.Arrays.{◌>>=◌}
use linux_kernel_struct.Int32.{word}
use linux_kernel_struct.Ustr.{str_len, str_copy, str_reverse, put}
use linux_kernel_struct.Files.{fgetc}

-- const int codec[], of 11 numbers.
abbrev pub codec : List ℕ
codec = 0 ∷ 1 ∷ 0 ∷ 2 ∷ 5 ∷ 2 ∷ 0 ∷ 3 ∷ 3 ∷ 0 ∷ 7 ∷ []

-- const int length.
abbrev pub key_length : ℕ
key_length = 60

-- (k * codec[j % asize]) % 33 with k = j + asize; the index is always in bounds.
abbrev pub shift : ℕ → ℕ
shift j = elim (get_elem? codec (j % 11)) [ none ↦ 0 | some x ↦ ((j + 11) * x) % 33 ]

-- akey[j] -= shift; akey[j] += 20;  and the way back.
abbrev pub encode_char : ℕ → ℕ → ℕ
encode_char j c = (c + (256 - shift j) + 20) % 256

abbrev pub decode_char : ℕ → ℕ → ℕ
decode_char j c = (c + shift j + (256 - 20)) % 256

-- The number, and RandSeed after it. A division by 0 is `none`.
unfoldable pub time_random_between : ℕ → ℕ → ℕ → Option (ℕ × ℕ)
time_random_between seed p r =
    let seed' = (seed * 1103515245 + 12345) % word in
    let range = (r + (word - p)) % word in
    if range == 0 then none else some ((p + (seed' / 65536) % range) % word, seed')

-- while ((c = getchar()) != '\n' && i < length-2) akey[i++] = c;  with `room` chars left: the next
-- index, and the buffer.
unfoldable pub type_loop : ℕ → ℕ → List ℕ → List ℕ → Option (ℕ × List ℕ)
type_loop zero i typed akey = some (i, akey)
type_loop (suc room) i typed akey =
    let (c, rest) = fgetc typed in
    if c == 10
    then some (i, akey)
    else do akey' ← put akey i (c % 256); type_loop room (i + 1) rest akey'

-- for (j=0; j < i; j++) ...;  from `j` on.
unfoldable pub encode_loop : ℕ → ℕ → List ℕ → Option (List ℕ)
encode_loop zero j akey = some akey
encode_loop (suc r) j akey = do
  c ← get_elem? akey j
  akey' ← put akey j (encode_char j c)
  encode_loop r (j + 1) akey'

-- for (j = i+1; j < length; j++) akey[j] = time_random_between (33, 126);
unfoldable pub random_loop : ℕ → ℕ → ℕ → List ℕ → Option (List ℕ × ℕ)
random_loop zero j seed akey = some (akey, seed)
random_loop (suc r) j seed akey = do
  (c, seed') ← time_random_between seed 33 126
  akey' ← put akey j (c % 256)
  random_loop r (j + 1) seed' akey'

-- The key of `i` chars in `akey`, as the buffer that holds it encoded, and RandSeed. `seed` is what
-- time_rand_seed_init makes of the clock.
unfoldable pub encode_key : ℕ → ℕ → List ℕ → Option (List ℕ × ℕ)
encode_key seed i akey = do
  a1 ← encode_loop i 0 akey
  a2 ← str_reverse a1
  a3 ← put a2 i 19
  (a4, seed') ← random_loop (key_length - (i + 1)) (i + 1) seed a3
  a5 ← put a4 (i + 1 + (key_length - (i + 1))) 0
  some (a5, seed')

-- `typed` is what getchar reads, where the flag asks for it; else the key stands in `akey`. The
-- length of the key, and the buffer.
unfoldable pub tw2_getchar_encode_key : ℕ → Option (List ℕ) → List ℕ → Option (ℕ × List ℕ × ℕ)
tw2_getchar_encode_key seed (some typed) akey = do
  (i, a1) ← type_loop (key_length - 2) 0 typed akey
  a2 ← put a1 i 0
  (a3, seed') ← encode_key seed i a2
  some (i, a3, seed')
tw2_getchar_encode_key seed none akey = do
  i ← str_len akey
  (a3, seed') ← encode_key seed i akey
  some (i, a3, seed')

-- while (*skey != 19 && i++ < ASIZE-2) *pkey++ = *skey++;  the chars, and the rest of `skey`.
unfoldable pub take_key : ℕ → List ℕ → Option (List ℕ × List ℕ)
take_key room [] = none
take_key zero (c ∷ s) = some ([], c ∷ s)
take_key (suc room) (c ∷ s) =
    if c == 19 then some ([], c ∷ s) else do (k, s') ← take_key room s; some (c ∷ k, s')

-- for (i=0; i < str_len(akey); i++) ...;  the index in the end, and the string.
unfoldable pub decode_loop : ℕ → ℕ → List ℕ → Option (ℕ × List ℕ)
decode_loop zero i akey = some (i, akey)
decode_loop (suc rounds) i akey = do
  n ← str_len akey
  if ltb i n
      then (do
        c ← get_elem? akey i
        akey' ← put akey i (decode_char i c)
        decode_loop rounds (i + 1) akey')
      else some (i, akey)

-- for (j = i; j < length; j++) *skey++;
unfoldable pub skip_chars : ℕ → List ℕ → Option (List ℕ)
skip_chars zero s = some s
skip_chars (suc r) [] = none
skip_chars (suc r) (c ∷ s) = skip_chars r s

-- One round of _tw2_get_decode_key: the key, and what follows of `skey`. A string of at most 78
-- chars is decoded in 79 rounds.
unfoldable pub decode_record : List ℕ → Option (List ℕ × List ℕ)
decode_record skey = do
  (k, rest) ← take_key 78 skey
  a1 ← str_reverse (k ++ 0 ∷ [])
  (i, akey) ← decode_loop 79 0 a1
  rest' ← skip_chars (key_length - i) rest
  some (akey, rest')

-- The two keys that go out: of the last round, and of the one with `cnt` 3.
unfoldable pub tw2_get_decode_key : ℕ → List ℕ → List ℕ → List ℕ → Option (List ℕ × List ℕ)
tw2_get_decode_key zero skey out_key out_key_time = some (out_key, out_key_time)
tw2_get_decode_key (suc cnt) skey out_key out_key_time = do
  (akey, rest) ← decode_record skey
  out ← if cnt == 0 then str_copy out_key akey else some out_key
  time ← if cnt == 3 then str_copy out_key_time akey else some out_key_time
  tw2_get_decode_key cnt rest out time
