-- ===== src/Files/Records/RoundTrip.antt =====
-- Records written by put_string are read back by read_record.
use linux_kernel_struct.Files.Records.{fgetc, read_field, put_string}
use linux_kernel_struct.Ustr.Compare.Strings.{IsText}
use linux_kernel_struct.Files.{eof, fgetc}
use linux_kernel_struct.Common.{
  zero, suc, [], ◌∷◌, some, append_assoc, ap, ◌%◌, ne→==, suc, some, arith, replicate, ◌∷◌, ◌≤◌,
  ◌++◌, [], length, List, refl, ℕ, ◌≡◌,
}

pub put_string_lem :
    (out s r : List ℕ) → IsText s → put_string out (s ++ 0 ∷ r) ≡ some (out ++ (s ++ 0 ∷ []))
unfolding put_string
put_string_lem out [] r h = refl
put_string_lem out (c ∷ s) r h =
    rw (ne→== c 0 (λ e. omega (arith, h.0)), put_string_lem (out ++ c ∷ []) s r h.2)
      (ap some (append_assoc out (c ∷ []) (s ++ 0 ∷ [])))

-- The char that a field starts with, and what is left behind it.
abbrev pub begins : List ℕ → List ℕ → ℕ × List ℕ
begins s rest = fgetc (s ++ 0 ∷ rest)

pub read_field_lem :
    (room : ℕ) (s rest : List ℕ)
    → IsText s
    → length s ≤ room
    → read_field room (begins s rest).0 (begins s rest).1 ≡ (s ++ 0 ∷ [], 0, rest)
unfolding read_field
read_field_lem zero [] rest h fits = refl
read_field_lem zero (c ∷ s) rest h fits = absurd (omega arith)
read_field_lem (suc room) [] rest h fits = refl
read_field_lem (suc room) (c ∷ s) rest h fits =
    let low : c % 256 ≡ c = omega (arith, h.1) in
    rw (read_field_lem room s rest h.2 (omega arith), ne→== c 0 (λ e. omega (arith, h.0)), low) refl

-- At the end of the file a field is filled up with the bytes 255 that EOF becomes as a `char`.
pub read_field-eof : (room : ℕ) → read_field room eof [] ≡ (replicate room 255 ++ 0 ∷ [], eof, [])
unfolding read_field
read_field-eof zero = refl
read_field-eof (suc room) = rw (read_field-eof room) refl
