-- ===== src/Files.antt =====
-- btree/fileio.c: the data files. A file that is read is the list of the bytes that are left, a file
-- that is written the list of the bytes so far; what opens no file and what prints is left out.
-- `fputc` is taken to write.
mod Tests
pub mod Header
pub mod Records
pub mod Write
pub mod Read
pub mod Numbers
use linux_kernel_struct.Common.{
  ℕ, zero, suc, ◌+◌, ◌-◌, ◌%◌, Bool, true, false, Option, none, some, List, [], ◌∷◌, ◌++◌, ◌==◌,
  if◌then◌else◌,
}
use linux_kernel_struct.Arrays.{◌>>=◌}
use linux_kernel_struct.Int32.{word}
use linux_kernel_struct.Ustr.Compare.{str_cmp, minus_one}

-- EOF, as an `int`.
abbrev pub eof : ℕ
eof = word - 1

abbrev pub cr : ℕ
cr = 13

-- "**TransWorks V1.2011.04"
abbrev pub tw_version : List ℕ
tw_version =
    42 ∷ 42 ∷ 84 ∷ 114 ∷ 97 ∷ 110 ∷ 115 ∷ 87 ∷ 111 ∷ 114 ∷ 107 ∷ 115 ∷ 32 ∷ 86 ∷ 49 ∷ 46 ∷ 50 ∷ 48
    ∷ 49 ∷ 49 ∷ 46 ∷ 48 ∷ 52 ∷ 0 ∷ []

-- "10"
abbrev pub hash_size_str : List ℕ
hash_size_str = 49 ∷ 48 ∷ 0 ∷ []

-- What fgetc returns, and what is left of the file.
abbrev pub fgetc : List ℕ → ℕ × List ℕ
fgetc [] = (eof, [])
fgetc (c ∷ file) = (c, file)

-- while ((*buf = fgetc (fp)) != CR) buf++; *buf = '\0';  The buffer and the rest of the file. A
-- `char` keeps the low byte of what fgetc returns, and the loop has no test for EOF.
unfoldable pub read_line : List ℕ → List ℕ → Option (List ℕ × List ℕ)
read_line file [] = none
read_line file (d ∷ buf) =
    let (c, rest) = fgetc file in
    if c % 256 == cr
    then some (0 ∷ buf, rest)
    else (do (b, file') ← read_line rest buf; some (c % 256 ∷ b, file'))

-- The status -1, 0 or 1, and the rest of the file.
unfoldable pub fio_read_header : List ℕ → List ℕ → List ℕ → Option (ℕ × List ℕ)
fio_read_header file fname buf = do
  (b1, file1) ← read_line file buf
  v ← str_cmp b1 fname
  if v == 0
      then (do
        (b2, file2) ← read_line file1 b1
        (b3, file3) ← read_line file2 b2
        w ← str_cmp b3 hash_size_str
        some (if w == 0 then 1 else 0, file3))
      else some (minus_one, file1)

-- while (*s) fputc (*s++, fp);
unfoldable pub put_chars : List ℕ → List ℕ → Option (List ℕ)
put_chars out [] = none
put_chars out (c ∷ s) = if c == 0 then some out else put_chars (out ++ c ∷ []) s

unfoldable pub fio_write_header : List ℕ → List ℕ → Option (List ℕ)
fio_write_header out fname = do
  o1 ← put_chars out fname
  o2 ← put_chars (o1 ++ cr ∷ []) tw_version
  o3 ← put_chars (o2 ++ cr ∷ []) hash_size_str
  some (o3 ++ cr ∷ [])
