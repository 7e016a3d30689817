-- ===== src/MemberKey/RoundTrip.antt =====
-- A key encoded and decoded again by btree/tw2.c.
use linux_kernel_struct.Ustr.{str_reverse, str_len, put}
use linux_kernel_struct.Common.{
  length-take, take-append-drop, drop, take, ◌-◌, none, ap₂, lt→ltb, get_elem?, length-append,
  append_assoc, le→ltb, ne→==, arith, ℕ, zero, suc, ◌+◌, ◌≤◌, ◌<◌, ◌≡◌, refl, sym, ap, ◌∙◌, some,
  List, [], ◌∷◌, ◌++◌, length,
}
use mathlib.Core.List.{reverse-reverse, reverse, reverse-cons}
use linux_kernel_struct.Ustr.Number.Text.{length-reversed}
use mathlib.Core.Path.{subst}
use linux_kernel_struct.MemberKey.{
  random_loop, str_reverse, key_length, tw2_getchar_encode_key, encode_key, decode_record, str_len,
  encode_char, decode_char, take_key, decode_loop, skip_chars,
}
use linux_kernel_struct.Ustr.Strings.{str_len_lem, NoEnd}
use linux_kernel_struct.Ustr.Number.Digits.{drop-cons, NoEnd-append}
use linux_kernel_struct.Ustr.Reverse.{str_reverse_lem, put-at, get-at}
use linux_kernel_struct.MemberKey.Encode.{
  random_loop_lem, encode_loop_lem, length-encoded, IsKey, IsCode, encoded, encoded-IsCode,
  decode_char-encode_char,
}

IsCode-NoEnd : (s : List ℕ) → IsCode s → NoEnd s
IsCode-NoEnd [] h = tt
IsCode-NoEnd (c ∷ s) h = ((λ e. omega (arith, h.0)), IsCode-NoEnd s h.2)

IsKey-NoEnd : (s : List ℕ) → IsKey s → NoEnd s
IsKey-NoEnd [] h = tt
IsKey-NoEnd (c ∷ s) h = ((λ e. omega (arith, h.0)), IsKey-NoEnd s h.2)

IsCode-append : (s t : List ℕ) → IsCode s → IsCode t → IsCode (s ++ t)
IsCode-append [] t h k = k
IsCode-append (c ∷ s) t h k = (h.0, h.1, IsCode-append s t h.2 k)

IsCode-reverse : (s : List ℕ) → IsCode s → IsCode (reverse s)
IsCode-reverse [] h = tt
IsCode-reverse (c ∷ s) h =
    subst IsCode (sym (reverse-cons c s))
      (IsCode-append (reverse s) (c ∷ []) (IsCode-reverse s h.2) (h.0, h.1, tt))

-- The end of the key is found.
take_key_lem :
    (s rest : List ℕ) (room : ℕ)
    → IsCode s
    → length s ≤ room
    → take_key room (s ++ 19 ∷ rest) ≡ some (s, 19 ∷ rest)
unfolding take_key
take_key_lem [] rest zero h fits = refl
take_key_lem [] rest (suc room) h fits = refl
take_key_lem (c ∷ s) rest zero h fits = absurd (omega arith)
take_key_lem (c ∷ s) rest (suc room) h fits =
    rw (ne→== c 19 (λ e. omega (arith, h.0)), take_key_lem s rest room h.2 (omega arith)) refl

skip_chars_lem : (s rest : List ℕ) (r : ℕ) → r ≡ length s → skip_chars r (s ++ rest) ≡ some rest
unfolding skip_chars
skip_chars_lem [] rest zero h = refl
skip_chars_lem [] rest (suc r) h = absurd (omega arith)
skip_chars_lem (c ∷ s) rest zero h = absurd (omega arith)
skip_chars_lem (c ∷ s) rest (suc r) h = skip_chars_lem s rest r (omega arith)

-- Decoding from the index `j` on, behind what is decoded.
decode_loop_lem :
    (pre s : List ℕ) (rounds j : ℕ)
    → j ≡ length pre
    → NoEnd pre
    → IsKey s
    → length s < rounds
    → decode_loop rounds j (pre ++ (encoded j s ++ 0 ∷ []))
      ≡ some (j + length s, pre ++ (s ++ 0 ∷ []))
unfolding decode_loop
decode_loop_lem pre s zero j at_j hp hs h = absurd (omega arith)
decode_loop_lem pre [] (suc rounds) j at_j hp hs h =
    let plus_zero : j ≡ j + 0 = omega arith in
    rw (str_len_lem pre [] hp, le→ltb j (length pre) (omega arith))
      (ap (λ i. some (i, pre ++ 0 ∷ [])) plus_zero)
decode_loop_lem pre (c ∷ s) (suc rounds) j at_j hp hs h =
    let d = encode_char j c in
    let rest : List ℕ = encoded (j + 1) s ++ 0 ∷ [] in
    let code = IsCode-NoEnd (encoded j (c ∷ s)) (encoded-IsCode j (c ∷ s) hs) in
    let whole = NoEnd-append pre (encoded j (c ∷ s)) hp code in
    let view = append_assoc pre (encoded j (c ∷ s)) (0 ∷ []) in
    let measured : str_len (pre ++ d ∷ rest) ≡ some (length (pre ++ encoded j (c ∷ s))) =
      ap str_len (sym view) ∙ str_len_lem (pre ++ encoded j (c ∷ s)) [] whole in
    let longer : j < length (pre ++ encoded j (c ∷ s)) =
      omega (arith, length-append pre (encoded j (c ∷ s))) in
    let g : get_elem? (pre ++ d ∷ rest) j ≡ some d =
      ap (get_elem? (pre ++ d ∷ rest)) at_j ∙ get-at pre rest d in
    let p : put (pre ++ d ∷ rest) j (decode_char j d) ≡ some (pre ++ c ∷ rest) =
      ap (λ i. put (pre ++ d ∷ rest) i (decode_char j d)) at_j
      ∙ put-at pre rest d (decode_char j d)
      ∙ ap (λ x. some (pre ++ x ∷ rest)) (decode_char-encode_char j c (omega (arith, hs.1))) in
    let next : j + 1 ≡ length (pre ++ c ∷ []) = omega (arith, length-append pre (c ∷ [])) in
    let step =
      decode_loop_lem (pre ++ c ∷ []) s rounds (j + 1) next
        (NoEnd-append pre (c ∷ []) hp ((λ e. omega (arith, hs.0)), tt)) hs.2 (omega arith) in
    let count : j + 1 + length s ≡ j + suc (length s) = omega arith in
    rw (measured, lt→ltb j (length (pre ++ encoded j (c ∷ s))) longer, g, p)
      (ap (decode_loop rounds (j + 1)) (sym (append_assoc pre (c ∷ []) rest))
        ∙ step
        ∙ ap₂ (λ i t. some (i, t)) count (append_assoc pre (c ∷ []) (s ++ 0 ∷ [])))

-- The encoded key with its end and what fills it up.
abbrev record_of : List ℕ → List ℕ → List ℕ
record_of s new = reverse (encoded 0 s) ++ 19 ∷ new

encode_key_lem :
    (seed : ℕ) (s old tail : List ℕ) (x : ℕ)
    → IsKey s
    → length s + 1 + length old ≡ key_length
    → (new : List ℕ) × (seed' : ℕ) × (encode_key seed (length s) (s ++ 0 ∷ (old ++ x ∷ tail))
        ≡ some (record_of s new ++ 0 ∷ tail, seed'))
      × (length new ≡ length old)
      × IsCode new
unfolding encode_key
encode_key_lem seed s old tail x hs fits =
    let n = length s in
    let enc = encoded 0 s in
    let rev = reverse enc in
    let same : length rev ≡ n = length-reversed enc ∙ length-encoded 0 s in
    let e1 = encode_loop_lem [] s (0 ∷ (old ++ x ∷ tail)) n 0 refl refl in
    let e2 = str_reverse_lem enc (old ++ x ∷ tail) (IsCode-NoEnd enc (encoded-IsCode 0 s hs)) in
    let e3 : put (rev ++ 0 ∷ (old ++ x ∷ tail)) n 19 ≡ some (rev ++ 19 ∷ (old ++ x ∷ tail)) =
      ap (λ i. put (rev ++ 0 ∷ (old ++ x ∷ tail)) i 19) (sym same)
      ∙ put-at rev (old ++ x ∷ tail) 0 19 in
    let at_old : n + 1 ≡ length (rev ++ 19 ∷ []) =
      omega (arith, same, length-append rev (19 ∷ [])) in
    let (new, seed', drawn, len, code) =
      random_loop_lem (rev ++ 19 ∷ []) old (x ∷ tail) (key_length - (n + 1)) (n + 1) seed at_old
        (omega arith) in
    let front : List ℕ = record_of s new in
    let last : n + 1 + (key_length - (n + 1)) ≡ length front =
      omega (arith, same, length-append rev (19 ∷ new)) in
    let e4 : random_loop (key_length - (n + 1)) (n + 1) seed (rev ++ 19 ∷ (old ++ x ∷ tail))
        ≡ some (front ++ x ∷ tail, seed') =
      ap (random_loop (key_length - (n + 1)) (n + 1) seed)
        (sym (append_assoc rev (19 ∷ []) (old ++ x ∷ tail)))
      ∙ drawn
      ∙ ap (λ t. some (t, seed'))
          (append_assoc rev (19 ∷ []) (new ++ x ∷ tail)
            ∙ sym (append_assoc rev (19 ∷ new) (x ∷ tail))) in
    let e5 : put (front ++ x ∷ tail) (n + 1 + (key_length - (n + 1))) 0 ≡ some (front ++ 0 ∷ tail) =
      ap (λ i. put (front ++ x ∷ tail) i 0) last ∙ put-at front tail x 0 in
    (new, seed', rw (e1, e2, e3, e4, e5) refl, omega arith, code)

decode_record_lem :
    (s new rest : List ℕ)
    → IsKey s
    → length s + 1 + length new ≡ key_length
    → decode_record (record_of s new ++ rest) ≡ some (s ++ 0 ∷ [], rest)
unfolding decode_record
decode_record_lem s new rest hs fits =
    let enc = encoded 0 s in
    let code = encoded-IsCode 0 s hs in
    let same : length (reverse enc) ≡ length s = length-reversed enc ∙ length-encoded 0 s in
    let e1 = take_key_lem (reverse enc) (new ++ rest) 78 (IsCode-reverse enc code) (omega arith) in
    let e2 : str_reverse (reverse enc ++ 0 ∷ []) ≡ some (enc ++ 0 ∷ []) =
      str_reverse_lem (reverse enc) [] (IsCode-NoEnd (reverse enc) (IsCode-reverse enc code))
      ∙ ap (λ t. some (t ++ 0 ∷ [])) (reverse-reverse enc) in
    let e3 = decode_loop_lem [] s 79 0 refl tt hs (omega arith) in
    let e4 = skip_chars_lem (19 ∷ new) rest (key_length - (0 + length s)) (omega arith) in
    rw (append_assoc (reverse enc) (19 ∷ new) rest, e1, e2, e3, e4) refl

-- A key of at most 58 chars from 32 to 235 in a buffer of 61 chars or more: encoding it gives 60
-- bytes, none of which ends a string, and the end; wherever those bytes stand, whatever the random
-- numbers that fill them up were, decoding gives the key again and goes on behind them.
pub decode_record-tw2_getchar_encode_key :
    (seed : ℕ) (s r : List ℕ)
    → IsKey s
    → length s ≤ 58
    → 61 ≤ length s + 1 + length r
    → (code tail : List ℕ) × (seed' : ℕ) × (tw2_getchar_encode_key seed none (s ++ 0 ∷ r)
        ≡ some (length s, code ++ 0 ∷ tail, seed'))
      × (length code ≡ 60)
      × NoEnd code
      × ((rest : List ℕ) → decode_record (code ++ rest) ≡ some (s ++ 0 ∷ [], rest))
unfolding tw2_getchar_encode_key
decode_record-tw2_getchar_encode_key seed s r hs short room =
    let k = 59 - length s in
    let old = take k r in
    let (x, at_x) = drop-cons k r (omega arith) in
    let tail = drop (k + 1) r in
    let parts : r ≡ old ++ x ∷ tail = sym (take-append-drop k r) ∙ ap (λ t. take k r ++ t) at_x in
    let len_old : length old ≡ k = omega (arith, length-take k r) in
    let (new, seed', run, len, code) = encode_key_lem seed s old tail x hs (omega arith) in
    let run' = ap (λ t. encode_key seed (length s) (s ++ 0 ∷ t)) parts ∙ run in
    let enc = encoded 0 s in
    let rev_code = IsCode-reverse enc (encoded-IsCode 0 s hs) in
    let same : length (reverse enc) ≡ length s = length-reversed enc ∙ length-encoded 0 s in
    (
      record_of s new,
      tail,
      seed',
      rw (str_len_lem s r (IsKey-NoEnd s hs), run') refl,
      omega (arith, length-append (reverse enc) (19 ∷ new)),
      NoEnd-append (reverse enc) (19 ∷ new) (IsCode-NoEnd (reverse enc) rev_code)
          ((λ e. omega arith), IsCode-NoEnd new code),
      (λ rest. decode_record_lem s new rest hs (omega arith)),
    )
