-- ===== src/Files/Write.antt =====
-- fio_write_to_file and fio_write_to_file_trans of btree/fileio.c: the entries of a tree in the order
-- of its leaves.
pub mod Entries
pub mod Bytes
use linux_kernel_struct.Common.{
  not, ℕ, zero, suc, ◌+◌, ◌-◌, ◌%◌, Bool, Option, none, some, List, [], ◌==◌, if◌then◌else◌,
  replicate,
}
use linux_kernel_struct.Memory.{Ptr, null, out_of_fuel, pure, ◌>>=◌, load}
use linux_kernel_struct.Arrays.{get}
use linux_kernel_struct.Int32.{word}
use linux_kernel_struct.Ustr.Number.{uint_to_str}
use linux_kernel_struct.Bpt.{Node5, Btree}
use linux_kernel_struct.Bpt.Find.{leftmost}
use linux_kernel_struct.Store.{StoreCmd, on_trees, lift, text_at, uint_at}
use linux_kernel_struct.Files.{fio_write_header}
use linux_kernel_struct.Files.Records.{put_string}

-- One entry behind what is written: key and data are strings.
unfoldable pub put_trans : Ptr → Ptr → List ℕ → StoreCmd (List ℕ)
put_trans key item out = do
  s ← text_at key
  o ← lift (put_string out s)
  t ← text_at item
  lift (put_string o t)

-- The key is a number, in `char akey[ASIZE]`.
unfoldable pub put_word : Ptr → Ptr → List ℕ → StoreCmd (List ℕ)
put_word key item out = do
  n ← uint_at key
  akey ← lift (uint_to_str n (replicate 80 0))
  o ← lift (put_string out akey)
  t ← text_at item
  lift (put_string o t)

-- The entries i .. i + r - 1 of a leaf.
unfoldable pub put_entries :
    (Ptr → Ptr → List ℕ → StoreCmd (List ℕ)) → Node5 → ℕ → ℕ → List ℕ → StoreCmd (List ℕ)
put_entries put n zero i out = pure out
put_entries put n (suc r) i out = do
  key ← lift (get n.keys i)
  item ← lift (get n.pointers i)
  o ← put key item out
  put_entries put n r (i + 1) o

-- The loop along the leaves: how many entries, and the file.
unfoldable pub put_leaves :
    (Ptr → Ptr → List ℕ → StoreCmd (List ℕ)) → ℕ → ℕ → Ptr → ℕ → List ℕ → StoreCmd (ℕ × List ℕ)
put_leaves put order zero node cnt out = λ _. out_of_fuel
put_leaves put order (suc rounds) node cnt out = do
  n ← on_trees (load node)
  o ← put_entries put n n.num_keys 0 out
  q ← lift (get n.pointers (order - 1))
  if q == null
      then pure ((cnt + n.num_keys) % word, o)
      else put_leaves put order rounds q ((cnt + n.num_keys) % word) o

-- Both functions but for the entries. `opened` tells whether fopen gave a file; the result has what
-- was written.
unfoldable pub write_tree :
    (Ptr → Ptr → List ℕ → StoreCmd (List ℕ))
    → ℕ
    → Bool
    → List ℕ
    → Btree
    → StoreCmd (ℕ × Option (List ℕ))
write_tree put rounds opened fname btree = if not opened then pure (0, none) else do
  out ← lift (fio_write_header [] fname)
  if btree.root == null then pure (0, some out) else do
    node ← on_trees (leftmost rounds btree.root)
    if btree.kcnt == 0
        then pure (0, some out)
        else do (cnt, o) ← put_leaves put btree.order rounds node 0 out; pure (cnt, some o)

unfoldable pub fio_write_to_file : ℕ → Bool → List ℕ → Btree → StoreCmd (ℕ × Option (List ℕ))
fio_write_to_file rounds = write_tree put_word rounds

unfoldable pub fio_write_to_file_trans : ℕ → Bool → List ℕ → Btree → StoreCmd (ℕ × Option (List ℕ))
fio_write_to_file_trans rounds = write_tree put_trans rounds
