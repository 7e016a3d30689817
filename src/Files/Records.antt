-- ===== src/Files/Records.antt =====
-- The records of the data files of btree/fileio.c: two strings, each behind the other with its end.
pub mod RoundTrip
use linux_kernel_struct.Common.{
  ◌++◌, ◌%◌, some, ◌==◌, suc, if◌then◌else◌, none, [], Option, ◌∷◌, ℕ, List,
}
use linux_kernel_struct.Common.{zero, suc, [], ◌∷◌, none, some}
use linux_kernel_struct.Files.{List, ℕ, fgetc}

-- while (ch != '\0' && i < SIZE-2) { s[i++] = ch; ch = fgetc (fp); } s[i] = '\0';  with `room` chars
-- left: the string, the char read last and the rest of the file.
unfoldable pub read_field : ℕ → ℕ → List ℕ → List ℕ × ℕ × List ℕ
read_field zero ch file = (0 ∷ [], ch, file)
read_field (suc room) ch file =
    let (c, rest) = fgetc file in
    let (s, last, file') = read_field room c rest in
    if ch == 0 then (0 ∷ [], ch, file) else (ch % 256 ∷ s, last, file')

-- One round of the reading loops, from the first char on: key, word and the rest of the file. The
-- buffers have `room + 2` chars.
unfoldable pub read_record : ℕ → ℕ → List ℕ → List ℕ × List ℕ × List ℕ
read_record room ch file =
    let (in_key, last, file1) = read_field room ch file in
    let (c, file2) = fgetc file1 in
    let (in_word, last', file3) = read_field room c file2 in (in_key, in_word, file3)

-- while (fputc (s[j++], fp));
unfoldable pub put_string : List ℕ → List ℕ → Option (List ℕ)
put_string out [] = none
put_string out (c ∷ s) = if c == 0 then some (out ++ 0 ∷ []) else put_string (out ++ c ∷ []) s
