-- ===== src/Files/Read/RoundTrip.antt =====
-- Round trips of trees through the data files of btree/fileio.c.
use linux_kernel_struct.Common.{
  some, ◌%◌, length-append, append_assoc, arith, length, ℕ, suc, ◌≤◌, ◌<◌, ◌≡◌, refl, ap, ◌∙◌, ◌≢◌,
  Bool, true, List, [], ◌∷◌, ◌++◌,
}
use linux_kernel_struct.Memory.{Ptr, null, ok}
use linux_kernel_struct.Bpt.{Btree, Env}
use linux_kernel_struct.Bpt.Tree.{Entries, Tree, root, entries, height, Stored}
use linux_kernel_struct.Store.{Store, by_key}
use linux_kernel_struct.Files.Write.Entries.{Each-mono, bytes, Each}
use linux_kernel_struct.Files.Write.Bytes.{fio_write_to_file_trans-bytes, trans_bytes, HoldsText}
use linux_kernel_struct.Files.Read.{hash_step, fio_read_trans_hash}
use linux_kernel_struct.Bpt.Tree.Leaves.{leaves}
use linux_kernel_struct.Files.Header.{header, fio_read_header-header, IsLine-IsText, IsLine}
use linux_kernel_struct.Files.Write.{fio_write_to_file_trans}
use linux_kernel_struct.Int32.{word}
use linux_kernel_struct.Files.Read.Loop.{Records, AllFit, encoded, process, read_loop-process}

-- The strings of entries.
abbrev pub records : (Ptr → List ℕ) → Entries → Records
records chars [] = []
records chars ((k, d) ∷ xs) = (chars k, chars d) ∷ records chars xs

encoded-records :
    (chars : Ptr → List ℕ) (xs : Entries)
    → bytes (trans_bytes chars) xs ≡ encoded (records chars xs)
encoded-records chars [] = refl
encoded-records chars ((k, d) ∷ xs) =
    append_assoc (chars k ++ 0 ∷ []) (chars d ++ 0 ∷ []) (bytes (trans_bytes chars) xs)
    ∙ append_assoc (chars k) (0 ∷ []) ((chars d ++ 0 ∷ []) ++ bytes (trans_bytes chars) xs)
    ∙ ap (λ z. chars k ++ 0 ∷ z)
        (append_assoc (chars d) (0 ∷ []) (bytes (trans_bytes chars) xs)
          ∙ ap (λ z. chars d ++ 0 ∷ z) (encoded-records chars xs))

length-encoded : (rs : Records) → length rs ≤ length (encoded rs)
length-encoded [] = omega arith
length-encoded ((k, w) ∷ rs) = omega (
  arith,
  length-append k (0 ∷ (w ++ 0 ∷ encoded rs)),
  length-append w (0 ∷ encoded rs),
  length-encoded rs,
)

-- A string of the store that fits into the buffers of the files.
abbrev pub Fitting : Store → (Ptr → List ℕ) → Ptr → Type 0
Fitting s chars p = HoldsText s chars p × (length (chars p) ≤ 998)

AllFit-records :
    (s : Store) (chars : Ptr → List ℕ) (xs : Entries)
    → Each (λ x. Fitting s chars x.0 × Fitting s chars x.1) xs
    → AllFit 998 (records chars xs)
AllFit-records s chars [] h = tt
AllFit-records s chars ((k, d) ∷ xs) h =
    ((h.0.0.0.1, h.0.0.1), (h.0.1.0.1, h.0.1.1), AllFit-records s chars xs h.1)

-- A tree that fio_write_to_file_trans has written is read by fio_read_trans_hash, from any store, as
-- the records of its entries in order, with nothing lost, added or cut: what fio_read_trans_hash
-- does is what it does with that list of records. The strings have at most 998 chars, and the file's
-- name is a line that fits into the buffer.
pub fio_read_trans_hash-fio_write_to_file_trans :
    (s s' : Store) (rounds rounds' : ℕ) (fname r q buf : List ℕ) (btree : Btree) (t : Tree)
    (up : Ptr) (chars : Ptr → List ℕ) (u : Env) (left right : List Btree) (one_tree : Bool)
    → Stored s.trees btree.order up null t
    → btree.root ≡ root t
    → btree.kcnt ≢ 0
    → height t ≤ rounds
    → length (leaves t) ≤ rounds
    → IsLine fname
    → length fname < length buf
    → 23 < length buf
    → Each (λ x. Fitting s chars x.0 × Fitting s chars x.1) (entries t)
    → (file : List ℕ) × (fio_write_to_file_trans rounds true (fname ++ 0 ∷ r) btree s
        ≡ ok (length (entries t) % word, some file) s)
      × (fio_read_trans_hash u rounds' (some file) (fname ++ 0 ∷ q) buf left right one_tree s'
          ≡ process
              (hash_step (by_key u) rounds' one_tree)
              (records chars (entries t))
              (record { left = left; right = right; sno = 0 })
              s')
unfolding fio_read_trans_hash
fio_read_trans_hash-fio_write_to_file_trans s s' rounds rounds' fname r q buf btree t up chars u
      left right one_tree st at_root full deep many line room1 room2 each =
    let rs = records chars (entries t) in
    let body = bytes (trans_bytes chars) (entries t) in
    let same = encoded-records chars (entries t) in
    let written =
      fio_write_to_file_trans-bytes s rounds fname r btree t up chars st at_root full deep many
        (IsLine-IsText fname line)
        (Each-mono (λ x. Fitting s chars x.0 × Fitting s chars x.1)
          (λ x. HoldsText s chars x.0 × HoldsText s chars x.1) (entries t) (λ x h. (h.0.0, h.1.0))
          each) in
    let head_read = fio_read_header-header fname q body buf line room1 room2 in
    let loop =
      read_loop-process (hash_step (by_key u) rounds' one_tree) (suc (length (encoded rs))) 998 rs
        (record { left = left; right = right; sno = 0 }) s'
        (AllFit-records s chars (entries t) each) (omega (arith, length-encoded rs)) in
    (header fname ++ body, written, rw (head_read, same) loop)
