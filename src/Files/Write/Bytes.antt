-- ===== src/Files/Write/Bytes.antt =====
-- The bytes that fio_write_to_file and fio_write_to_file_trans of btree/fileio.c write of a tree.
use linux_kernel_struct.Common.{
  some, ne→==, true, ◌<◌, ◌≤◌, append_assoc, length, ℕ, ◌%◌, ◌≡◌, refl, ap, ◌≢◌, List, [], ◌∷◌,
  ◌++◌,
}
use linux_kernel_struct.Memory.{Ptr, null, ok}
use linux_kernel_struct.Bpt.{Btree}
use linux_kernel_struct.Bpt.Tree.{Tree, root, entries, height, Stored}
use linux_kernel_struct.Store.{uint_at, text_at, Store}
use linux_kernel_struct.Files.Write.{
  fio_write_to_file, put_word, fio_write_to_file_trans, put_trans,
}
use linux_kernel_struct.Int32.{word}
use linux_kernel_struct.Ustr.Compare.Strings.{IsText}
use linux_kernel_struct.Files.Header.{header}
use linux_kernel_struct.Files.Records.RoundTrip.{put_string_lem}
use linux_kernel_struct.Ustr.Number.Text.{decimal, decimal-IsText, uint_to_str-decimal}
use linux_kernel_struct.Bpt.Tree.Leaves.{leaves}
use linux_kernel_struct.Files.Write.Entries.{Each, Each-mono, bytes, Puts, write_tree-bytes}

-- A string of the store.
abbrev pub HoldsText : Store → (Ptr → List ℕ) → Ptr → Type 0
HoldsText s chars p = (p ≢ null) × IsText (chars p) × (s.texts p ≡ some (chars p ++ 0 ∷ []))

text_at-ok :
    (s : Store) (chars : Ptr → List ℕ) (p : Ptr)
    → HoldsText s chars p
    → text_at p s ≡ ok (chars p ++ 0 ∷ []) s
unfolding text_at
text_at-ok s chars p h = rw (ne→== p null h.0, h.2) refl

abbrev pub trans_bytes : (Ptr → List ℕ) → Ptr × Ptr → List ℕ
trans_bytes chars (k, d) = (chars k ++ 0 ∷ []) ++ (chars d ++ 0 ∷ [])

put_trans-Puts :
    (s : Store) (chars : Ptr → List ℕ) (x : Ptr × Ptr)
    → HoldsText s chars x.0 × HoldsText s chars x.1
    → Puts put_trans (trans_bytes chars) s x
unfolding put_trans
put_trans-Puts s chars (k, d) h out =
    rw
      (
        text_at-ok s chars k h.0,
        put_string_lem out (chars k) [] h.0.1,
        text_at-ok s chars d h.1,
        put_string_lem (out ++ (chars k ++ 0 ∷ [])) (chars d) [] h.1.1,
      )
      (ap (λ o. ok o s) (append_assoc out (chars k ++ 0 ∷ []) (chars d ++ 0 ∷ [])))

-- fio_write_to_file_trans writes a stored tree of strings that is not empty as the header, and then
-- key and data of every entry in the order of the tree, each string with its end; it returns the
-- number of entries as an `unsigned int` and changes nothing in the store. As many rounds as levels
-- and as leaves are enough.
pub fio_write_to_file_trans-bytes :
    (s : Store) (rounds : ℕ) (fname r : List ℕ) (btree : Btree) (t : Tree) (up : Ptr)
    (chars : Ptr → List ℕ)
    → Stored s.trees btree.order up null t
    → btree.root ≡ root t
    → btree.kcnt ≢ 0
    → height t ≤ rounds
    → length (leaves t) ≤ rounds
    → IsText fname
    → Each (λ x. HoldsText s chars x.0 × HoldsText s chars x.1) (entries t)
    → fio_write_to_file_trans rounds true (fname ++ 0 ∷ r) btree s
      ≡ ok
          (length (entries t) % word, some (header fname ++ bytes (trans_bytes chars) (entries t)))
          s
unfolding fio_write_to_file_trans
fio_write_to_file_trans-bytes s rounds fname r btree t up chars st at_root full deep many is_text
      h =
    write_tree-bytes put_trans (trans_bytes chars) s rounds fname r btree t up st at_root full deep
      many is_text
      (Each-mono (λ x. HoldsText s chars x.0 × HoldsText s chars x.1)
        (Puts put_trans (trans_bytes chars) s) (entries t) (put_trans-Puts s chars) h)

-- A number of the store, and its digits.
abbrev pub HoldsUint : Store → (Ptr → ℕ) → Ptr → Type 0
HoldsUint s number p = (p ≢ null) × (number p < word) × (s.uints p ≡ some (number p))

abbrev pub word_bytes : (Ptr → ℕ) → (Ptr → List ℕ) → Ptr × Ptr → List ℕ
word_bytes number chars (k, d) = (decimal (number k) ++ 0 ∷ []) ++ (chars d ++ 0 ∷ [])

put_word-Puts :
    (s : Store) (number : Ptr → ℕ) (chars : Ptr → List ℕ) (x : Ptr × Ptr)
    → HoldsUint s number x.0 × HoldsText s chars x.1
    → Puts put_word (word_bytes number chars) s x
unfolding put_word uint_at
put_word-Puts s number chars (k, d) h out =
    let n = number k in
    let (r, shown) = uint_to_str-decimal n h.0.1 in
    rw
      (
        ne→== k null h.0.0,
        h.0.2,
        shown,
        put_string_lem out (decimal n) r (decimal-IsText n),
        text_at-ok s chars d h.1,
        put_string_lem (out ++ (decimal n ++ 0 ∷ [])) (chars d) [] h.1.1,
      )
      (ap (λ o. ok o s) (append_assoc out (decimal n ++ 0 ∷ []) (chars d ++ 0 ∷ [])))

-- fio_write_to_file writes a stored tree of numbers and words that is not empty as the header, and
-- then the decimal digits of the number and the word of every entry in the order of the tree, each
-- with its end; it returns the number of entries and changes nothing in the store.
pub fio_write_to_file-bytes :
    (s : Store) (rounds : ℕ) (fname r : List ℕ) (btree : Btree) (t : Tree) (up : Ptr)
    (number : Ptr → ℕ) (chars : Ptr → List ℕ)
    → Stored s.trees btree.order up null t
    → btree.root ≡ root t
    → btree.kcnt ≢ 0
    → height t ≤ rounds
    → length (leaves t) ≤ rounds
    → IsText fname
    → Each (λ x. HoldsUint s number x.0 × HoldsText s chars x.1) (entries t)
    → fio_write_to_file rounds true (fname ++ 0 ∷ r) btree s
      ≡ ok
          (
            length (entries t) % word,
            some (header fname ++ bytes (word_bytes number chars) (entries t)),
          )
          s
unfolding fio_write_to_file
fio_write_to_file-bytes s rounds fname r btree t up number chars st at_root full deep many is_text
      h =
    write_tree-bytes put_word (word_bytes number chars) s rounds fname r btree t up st at_root full
      deep many is_text
      (Each-mono (λ x. HoldsUint s number x.0 × HoldsText s chars x.1)
        (Puts put_word (word_bytes number chars) s) (entries t) (put_word-Puts s number chars) h)
