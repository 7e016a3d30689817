-- ===== src/Files/Header.antt =====
-- The header of the data files: _fio_write_header and _fio_read_header of btree/fileio.c.
use linux_kernel_struct.Common.{
  sym, none, not, ◌&&◌, ltb, true, Bool, eq→==, ◌==◌, length-drop, length-append, refl,
  append_assoc, ◌%◌, ap, arith, suc, ne→==, [], drop, append-nil, ◌≢◌, ◌<◌, some, length, ◌∷◌, take,
  ◌++◌, List, ℕ, ◌≡◌,
}
use linux_kernel_struct.Files.{
  minus_one, hash_size_str, cr, tw_version, fio_read_header, put_chars, read_line, fio_write_header,
}
use linux_kernel_struct.Ustr.Compare.{minus_one}
use linux_kernel_struct.Ustr.Compare.Strings.{str_cmp-zero, IsText}

-- A line of a file: no end of a string, and no end of a line.
abbrev pub IsLine : List ℕ → Type 0
IsLine [] = Unit {0}
IsLine (c ∷ s) = (0 < c) × (c < 256) × (c ≢ cr) × IsLine s

pub IsLine-IsText : (s : List ℕ) → IsLine s → IsText s
IsLine-IsText [] h = tt
IsLine-IsText (c ∷ s) h = (h.0, h.1, IsLine-IsText s h.3)

put_chars_lem : (out s r : List ℕ) → IsText s → put_chars out (s ++ 0 ∷ r) ≡ some (out ++ s)
unfolding put_chars
put_chars_lem out [] r h = rw (append-nil out) refl
put_chars_lem out (c ∷ s) r h =
    rw (ne→== c 0 (λ e. omega (arith, h.0)), put_chars_lem (out ++ c ∷ []) s r h.2)
      (ap some (append_assoc out (c ∷ []) s))

read_line_lem :
    (s file buf : List ℕ)
    → IsLine s
    → length s < length buf
    → read_line (s ++ cr ∷ file) buf ≡ some (s ++ 0 ∷ drop (suc (length s)) buf, file)
unfolding read_line
read_line_lem s file [] h room = absurd (omega arith)
read_line_lem [] file (d ∷ buf) h room = refl
read_line_lem (c ∷ s) file (d ∷ buf) h room =
    let low : c % 256 ≡ c = omega (arith, h.1) in
    rw (low, ne→== c cr h.2, read_line_lem s file buf h.3 (omega arith)) refl

abbrev pub is_line : List ℕ → Bool
is_line [] = true
is_line (c ∷ s) = (ltb 0 c && ltb c 256 && not (c == cr)) && is_line s

pub is_line-IsLine : (s : List ℕ) → is_line s ≡ true → IsLine s
is_line-IsLine [] h = tt
is_line-IsLine (c ∷ s) h =
    (ground arith, ground arith, ground arith, is_line-IsLine s (ground arith))

abbrev version : List ℕ
version = take 23 tw_version

abbrev size : List ℕ
size = take 2 hash_size_str

version-IsLine : IsLine version
version-IsLine = is_line-IsLine version refl

size-IsLine : IsLine size
size-IsLine = is_line-IsLine size refl

abbrev pub header : List ℕ → List ℕ
header fname = fname ++ cr ∷ (version ++ cr ∷ (size ++ cr ∷ []))

pub fio_write_header-append :
    (out fname r : List ℕ)
    → IsText fname
    → fio_write_header out (fname ++ 0 ∷ r) ≡ some (out ++ header fname)
unfolding fio_write_header put_chars
fio_write_header-append out fname r h =
    rw (put_chars_lem out fname r h) (ap some (simp append_assoc))

-- What one line leaves of the buffer.
abbrev line_of : List ℕ → List ℕ → List ℕ
line_of s buf = s ++ 0 ∷ drop (suc (length s)) buf

length-line_of : (s buf : List ℕ) → length s < length buf → length (line_of s buf) ≡ length buf
length-line_of s buf h =
    omega (arith, length-append s (0 ∷ drop (suc (length s)) buf), length-drop (suc (length s)) buf)

-- Reading a header of three lines that fit into the buffer: -1 and only the first line is read where
-- that is not the name; else what follows is left to read, and the status is 1 where the third line
-- is "10", and 0 where it is not.
pub fio_read_header_lem :
    (name ver num fname r body buf : List ℕ)
    → IsLine name
    → IsLine ver
    → IsLine num
    → IsText fname
    → length name < length buf
    → length ver < length buf
    → length num < length buf
    → ((name ≢ fname)
        → fio_read_header (name ++ cr ∷ (ver ++ cr ∷ (num ++ cr ∷ body))) (fname ++ 0 ∷ r) buf
          ≡ some (minus_one, ver ++ cr ∷ (num ++ cr ∷ body)))
      × ((name ≡ fname)
          → (num ≡ size)
          → fio_read_header (name ++ cr ∷ (ver ++ cr ∷ (num ++ cr ∷ body))) (fname ++ 0 ∷ r) buf
            ≡ some (1, body))
      × ((name ≡ fname)
          → (num ≢ size)
          → fio_read_header (name ++ cr ∷ (ver ++ cr ∷ (num ++ cr ∷ body))) (fname ++ 0 ∷ r) buf
            ≡ some (0, body))
unfolding fio_read_header
fio_read_header_lem name ver num fname r body buf h1 h2 h3 hf r1 r2 r3 =
    let b1 = line_of name buf in
    let b2 = line_of ver b1 in
    let e1 = length-line_of name buf r1 in
    let e2 = length-line_of ver b1 (omega arith) in
    let l1 = read_line_lem name (ver ++ cr ∷ (num ++ cr ∷ body)) buf h1 r1 in
    let l2 = read_line_lem ver (num ++ cr ∷ body) b1 h2 (omega arith) in
    let l3 = read_line_lem num body b2 h3 (omega arith) in
    let (v, run1, zero1) =
      str_cmp-zero name fname (drop (suc (length name)) buf) r (IsLine-IsText name h1) hf in
    let (w, run3, zero3) =
      str_cmp-zero num size (drop (suc (length num)) b2) [] (IsLine-IsText num h3)
        (IsLine-IsText size size-IsLine) in
    (
      (λ ne. rw (l1, run1, ne→== v 0 (λ z. ne (zero1.0 z))) refl),
      (λ e d. rw (l1, run1, eq→== v 0 (zero1.1 e), l2, l3, run3, eq→== w 0 (zero3.1 d)) refl),
      (λ e ne.
          rw (l1, run1, eq→== v 0 (zero1.1 e), l2, l3, run3, ne→== w 0 (λ z. ne (zero3.0 z))) refl),
    )

joined :
    (fname body : List ℕ)
    → header fname ++ body ≡ fname ++ cr ∷ (version ++ cr ∷ (size ++ cr ∷ body))
joined fname body = append_assoc fname (cr ∷ (version ++ cr ∷ (size ++ cr ∷ []))) body

pub fio_read_header-header :
    (fname q body buf : List ℕ)
    → IsLine fname
    → length fname < length buf
    → 23 < length buf
    → fio_read_header (header fname ++ body) (fname ++ 0 ∷ q) buf ≡ some (1, body)
fio_read_header-header fname q body buf h room1 room2 =
    let (_, right, _) =
      fio_read_header_lem fname version size fname q body buf h version-IsLine size-IsLine
        (IsLine-IsText fname h) room1 room2 (omega arith) in
    rw (joined fname body) (right refl refl)

-- A file that _fio_write_header begins is read back by _fio_read_header: with the same name, a line
-- that fits into the buffer, as the version does, it returns 1 and leaves what follows to read;
-- with another name it returns -1.
pub fio_read_header-fio_write_header :
    (fname other r q body buf : List ℕ)
    → IsLine fname
    → IsText other
    → length fname < length buf
    → 23 < length buf
    → (file rest : List ℕ) × (fio_write_header [] (fname ++ 0 ∷ r) ≡ some file)
      × ((fname ≡ other) → fio_read_header (file ++ body) (other ++ 0 ∷ q) buf ≡ some (1, body))
      × ((fname ≢ other)
          → fio_read_header (file ++ body) (other ++ 0 ∷ q) buf ≡ some (minus_one, rest))
fio_read_header-fio_write_header fname other r q body buf h ho room1 room2 =
    let (wrong, _, _) =
      fio_read_header_lem fname version size other q body buf h version-IsLine size-IsLine ho room1
        room2 (omega arith) in
    (
      header fname,
      version ++ cr ∷ (size ++ cr ∷ body),
      fio_write_header-append [] fname r (IsLine-IsText fname h),
      (λ e. rw (sym e) (fio_read_header-header fname q body buf h room1 room2)),
      (λ ne. rw (joined fname body) (wrong ne)),
    )

-- Bytes without an end of a line.
abbrev pub NoCr : List ℕ → Type 0
NoCr [] = Unit {0}
NoCr (c ∷ s) = (c < 256) × (c ≢ cr) × NoCr s

read_line-none : (file buf : List ℕ) → NoCr file → read_line file buf ≡ none
unfolding read_line
read_line-none file [] h = refl
read_line-none [] (d ∷ buf) h = rw (read_line-none [] buf tt) refl
read_line-none (c ∷ file) (d ∷ buf) h =
    let low : c % 256 ≡ c = omega (arith, h.0) in
    rw (low, ne→== c cr h.1, read_line-none file buf h.2) refl

-- Reading a header runs over the end of the buffer, however long it is, where the file has no end
-- of a line, as an empty file has none.
pub fio_read_header-none :
    (file fname buf : List ℕ) → NoCr file → fio_read_header file fname buf ≡ none
unfolding fio_read_header
fio_read_header-none file fname buf h = rw (read_line-none file buf h) refl
