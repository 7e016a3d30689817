-- ===== src/MemberKey/Tests.antt =====
-- Runs of the encoding of btree/tw2.c, and the theorem at the key "k1".
use linux_kernel_struct.Common.{
  arith, ℕ, ◌≡◌, refl, some, none, List, [], ◌∷◌, ◌++◌, length, replicate,
}
use linux_kernel_struct.MemberKey.{encode_char, tw2_getchar_encode_key, decode_record}
use linux_kernel_struct.Ustr.Strings.{NoEnd}
use linux_kernel_struct.MemberKey.RoundTrip.{decode_record-tw2_getchar_encode_key}

abbrev key : List ℕ
key = 107 ∷ 49 ∷ []

abbrev room : List ℕ
room = replicate 77 7

-- The byte 236 at the start of a key is encoded as the end of the string.
lost_byte : encode_char 0 236 ≡ 0
lost_byte = refl

-- The byte 255 is encoded as the end of the key.
false_end : encode_char 0 255 ≡ 19
false_end = refl

decode_record-tw2_getchar_encode_key_example :
    (code tail : List ℕ) × (seed' : ℕ) × (tw2_getchar_encode_key 4711 none (key ++ 0 ∷ room)
      ≡ some (2, code ++ 0 ∷ tail, seed'))
    × (length code ≡ 60)
    × NoEnd code
    × ((rest : List ℕ) → decode_record (code ++ rest) ≡ some (key ++ 0 ∷ [], rest))
decode_record-tw2_getchar_encode_key_example =
    decode_record-tw2_getchar_encode_key 4711 key room
      (omega arith, omega arith, (omega arith, omega arith, tt)) (omega arith) (omega arith)
