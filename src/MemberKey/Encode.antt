-- ===== src/MemberKey/Encode.antt =====
-- What the loops of _tw2_getchar_encode_key of btree/tw2.c leave.
use linux_kernel_struct.Ustr.{put}
use linux_kernel_struct.Common.{
  append_assoc, inr, ◌/◌, inl, get_elem?, length-append, ◌%◌, Option-cases, ◌*◌, arith, ℕ, zero,
  suc, ◌+◌, ◌-◌, ◌≤◌, ◌<◌, ◌≡◌, refl, sym, ap, ◌∙◌, some, List, [], ◌∷◌, ◌++◌, length,
}
use linux_kernel_struct.Ustr.Reverse.{put-at, get-at}
use linux_kernel_struct.Int32.{word}
use linux_kernel_struct.MemberKey.{
  codec, shift, encode_char, decode_char, encode_loop, random_loop, time_random_between,
}

-- Chars that the encoding keeps apart from the end of a string and from the end of a key.
abbrev pub IsKey : List ℕ → Type 0
IsKey [] = Unit {0}
IsKey (c ∷ s) = (32 ≤ c) × (c < 236) × IsKey s

-- Bytes that end neither a string nor a key.
abbrev pub IsCode : List ℕ → Type 0
IsCode [] = Unit {0}
IsCode (c ∷ s) = (19 < c) × (c < 256) × IsCode s

-- The encoded chars, from the index `j` on.
abbrev pub encoded : ℕ → List ℕ → List ℕ
encoded j [] = []
encoded j (c ∷ s) = encode_char j c ∷ encoded (j + 1) s

shift-bound : (j : ℕ) → shift j ≤ 32
shift-bound j = elim (Option-cases (get_elem? codec (j % 11))) [
  | inl e ↦ rw (shift, e) (omega arith)
  | inr (x, e) ↦ rw (shift, e) (omega arith)
]

moved-bounds :
    (x c : ℕ)
    → x ≤ 32
    → 32 ≤ c
    → c < 236
    → (19 < (c + (256 - x) + 20) % 256) × ((c + (256 - x) + 20) % 256 < 256)
moved-bounds x c h low high = (omega arith, omega arith)

moved_back : (x c : ℕ) → x ≤ 32 → c < 256 → ((c + (256 - x) + 20) % 256 + x + (256 - 20)) % 256 ≡ c
moved_back x c h low = omega arith

pub encode_char-IsCode :
    (j c : ℕ) → 32 ≤ c → c < 236 → (19 < encode_char j c) × (encode_char j c < 256)
encode_char-IsCode j c low high = moved-bounds (shift j) c (shift-bound j) low high

pub decode_char-encode_char : (j c : ℕ) → c < 256 → decode_char j (encode_char j c) ≡ c
decode_char-encode_char j c h = moved_back (shift j) c (shift-bound j) h

pub encoded-IsCode : (j : ℕ) (s : List ℕ) → IsKey s → IsCode (encoded j s)
encoded-IsCode j [] h = tt
encoded-IsCode j (c ∷ s) h =
    let (low, high) = encode_char-IsCode j c h.0 h.1 in (low, high, encoded-IsCode (j + 1) s h.2)

pub length-encoded : (j : ℕ) (s : List ℕ) → length (encoded j s) ≡ length s
length-encoded j [] = refl
length-encoded j (c ∷ s) = ap suc (length-encoded (j + 1) s)

pub encode_loop_lem :
    (pre s tail : List ℕ) (r j : ℕ)
    → j ≡ length pre
    → r ≡ length s
    → encode_loop r j (pre ++ (s ++ tail)) ≡ some (pre ++ (encoded j s ++ tail))
unfolding encode_loop
encode_loop_lem pre [] tail zero j at_j count = refl
encode_loop_lem pre [] tail (suc r) j at_j count = absurd (omega arith)
encode_loop_lem pre (c ∷ s) tail zero j at_j count = absurd (omega arith)
encode_loop_lem pre (c ∷ s) tail (suc r) j at_j count =
    let d = encode_char j c in
    let next : j + 1 ≡ length (pre ++ d ∷ []) = omega (arith, length-append pre (d ∷ [])) in
    let step = encode_loop_lem (pre ++ d ∷ []) s tail r (j + 1) next (omega arith) in
    let g : get_elem? (pre ++ c ∷ (s ++ tail)) j ≡ some c = rw at_j (get-at pre (s ++ tail) c) in
    let p : put (pre ++ c ∷ (s ++ tail)) j d ≡ some (pre ++ d ∷ (s ++ tail)) =
      rw (ap (λ i. put (pre ++ c ∷ (s ++ tail)) i d) at_j) (put-at pre (s ++ tail) c d) in
    rw (g, p)
      (ap (encode_loop r (j + 1)) (sym (append_assoc pre (d ∷ []) (s ++ tail)))
        ∙ step
        ∙ ap some (append_assoc pre (d ∷ []) (encoded (j + 1) s ++ tail)))

random-IsCode :
    (seed : ℕ)
    → (c seed' : ℕ) × (time_random_between seed 33 126 ≡ some (c, seed')) × (33 ≤ c) × (c < 126)
unfolding time_random_between
random-IsCode seed =
    let seed' = (seed * 1103515245 + 12345) % word in
    ((33 + (seed' / 65536) % 93) % word, seed', refl, omega arith, omega arith)

pub random_loop_lem :
    (pre old tail : List ℕ) (r j seed : ℕ)
    → j ≡ length pre
    → r ≡ length old
    → (new : List ℕ) × (seed' : ℕ) × (random_loop r j seed (pre ++ (old ++ tail))
        ≡ some (pre ++ (new ++ tail), seed'))
      × (length new ≡ r)
      × IsCode new
unfolding random_loop
random_loop_lem pre [] tail zero j seed at_j count = ([], seed, refl, refl, tt)
random_loop_lem pre [] tail (suc r) j seed at_j count = absurd (omega arith)
random_loop_lem pre (x ∷ old) tail zero j seed at_j count = absurd (omega arith)
random_loop_lem pre (x ∷ old) tail (suc r) j seed at_j count =
    let (c, seed1, drawn, low, high) = random-IsCode seed in
    let byte : c % 256 ≡ c = omega arith in
    let next : j + 1 ≡ length (pre ++ c ∷ []) = omega (arith, length-append pre (c ∷ [])) in
    let (new, seed', step, len, code) =
      random_loop_lem (pre ++ c ∷ []) old tail r (j + 1) seed1 next (omega arith) in
    let p : put (pre ++ x ∷ (old ++ tail)) j c ≡ some (pre ++ c ∷ (old ++ tail)) =
      rw (ap (λ i. put (pre ++ x ∷ (old ++ tail)) i c) at_j) (put-at pre (old ++ tail) x c) in
    (
      c ∷ new,
      seed',
      rw (drawn, byte, p)
          (ap (random_loop r (j + 1) seed1) (sym (append_assoc pre (c ∷ []) (old ++ tail)))
            ∙ step
            ∙ ap (λ t. some (t, seed')) (append_assoc pre (c ∷ []) (new ++ tail))),
      omega arith,
      (omega arith, omega arith, code),
    )
