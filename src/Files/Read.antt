-- ===== src/Files/Read.antt =====
-- fio_read_from_file, fio_read_trans_asc and fio_read_trans_hash of btree/fileio.c: trees from files.
pub mod Loop
pub mod RoundTrip
use linux_kernel_struct.Common.{
  ◌||◌, ◌&&◌, ℕ, zero, suc, ◌+◌, ◌-◌, ◌%◌, Bool, true, false, Option, none, some, List, [], ◌∷◌,
  ◌++◌, ◌==◌, ltb, if◌then◌else◌, length, get_elem?, set,
}
use linux_kernel_struct.Memory.{Ptr, null, fault, out_of_fuel, pure, ◌>>=◌, ◌>>◌, load}
use linux_kernel_struct.Arrays.{get}
use linux_kernel_struct.Int32.{inc}
use linux_kernel_struct.Ustr.{str_len, hash_value}
use linux_kernel_struct.Ustr.Number.{str_to_uint}
use linux_kernel_struct.Ustr.Compare.{minus_one}
use linux_kernel_struct.Bpt.{Btree, Env, bpt_half_order}
use linux_kernel_struct.Bpt.Find.{bpt_find_leaf}
use linux_kernel_struct.Bpt.Insert.{bpt_insert, bpt_insert_asc, flag_insert}
use linux_kernel_struct.Store.{
  Store, StoreCmd, on_trees, lift, malloc_text, malloc_uint, copy_text, set_uint, by_uint, by_key,
  with_env,
}
use linux_kernel_struct.Files.{eof, fgetc, fio_read_header}
use linux_kernel_struct.Files.Records.{read_record}

-- while ((ch = fgetc (fp)) != EOF) { a record; what is done with it }, until that breaks off. A
-- round reads at least one char, so that a file of `n` chars is read in `n + 1` rounds.
unfoldable pub read_loop :
    {A : Type 0} → (List ℕ → List ℕ → A → StoreCmd (A × Bool)) → ℕ → ℕ → List ℕ → A → StoreCmd A
read_loop step zero room file a = λ _. out_of_fuel
read_loop step (suc rounds) room file a =
    let (ch, rest) = fgetc file in
    if ch == eof then pure a else do
      let (in_key, in_word, file') = read_record room ch rest
      (a', go_on) ← step in_key in_word a
      if go_on then read_loop step rounds room file' a' else pure a'

-- A new string with the chars of `s`; NULL where malloc fails.
unfoldable pub new_text : List ℕ → StoreCmd Ptr
new_text s = do
  k ← lift (str_len s)
  p ← malloc_text (k + 1)
  if p == null then pure null else do copy_text p s; pure p

-- A new number, from its digits.
unfoldable pub new_uint : List ℕ → StoreCmd Ptr
new_uint s = do
  n ← lift (str_to_uint s)
  p ← malloc_uint
  if p == null then pure null else do set_uint p n; pure p

-- The variables of the loops that fill the leaves from the left: the tree, the leaf, the one to its
-- left, the entries that are held back for that one, and the number of records.
pub record Filling : Type 0 where
  pub btree : Btree
  pub leaf : Ptr
  pub leaf_left : Ptr
  pub held : List (Ptr × Ptr)
  pub sno : ℕ

-- The entries that were held back, at the left leaf.
unfoldable pub fill_left : (Store → Env) → ℕ → List (Ptr × Ptr) → Filling → StoreCmd Filling
fill_left env rounds [] f = pure f
fill_left env rounds ((key, item) ∷ held) f = do
  (b, leaf_left, root) ← with_env env (λ e. bpt_insert_asc e rounds f.btree f.leaf_left key item)
  fill_left env rounds held (record f { btree = record b { root = root }; leaf_left = leaf_left })

-- One record: the left half of a leaf is inserted at the right end of the tree, the right half is
-- held back until the left half of the next leaf is there. The arrays have 80 places.
unfoldable pub fill_step :
    (List ℕ → StoreCmd Ptr)
    → (Store → Env)
    → ℕ
    → List ℕ
    → List ℕ
    → Filling
    → StoreCmd (Filling × Bool)
fill_step new_key env rounds in_key in_word f = do
  key ← new_key in_key
  if key == null then pure (f, false) else do
    item ← new_text in_word
    if item == null then pure (f, false) else do
      imod ← lift (if f.btree.order - 1 == 0 then none else some (f.sno % (f.btree.order - 1)))
      let ihalf = bpt_half_order f.btree.order
      f1 ←
          if ltb imod ihalf
          then (do
            (b, leaf, root) ← with_env env (λ e. bpt_insert_asc e rounds f.btree f.leaf key item)
            pure (record f {
              btree = record b { root = root };
              leaf = leaf;
              leaf_left = if f.sno == 0 then root else f.leaf_left;
            }))
          else if ltb (length f.held) 80
          then pure (record f { held = f.held ++ (key, item) ∷ [] })
          else (λ _. fault)
      f2 ←
          if imod + 1 == ihalf && ltb 0 (length f1.held)
          then (do
            g ← fill_left env rounds f1.held f1
            n ← on_trees (load g.leaf_left)
            q ← lift (get n.pointers (g.btree.order - 1))
            pure (record g { leaf_left = q; held = [] }))
          else pure f1
      pure (record f2 { sno = inc f2.sno }, true)

-- The entries held back at the end, from the rightmost leaf on.
unfoldable pub fill_rest : (Store → Env) → ℕ → List (Ptr × Ptr) → Filling → StoreCmd Filling
fill_rest env rounds [] f = pure f
fill_rest env rounds ((key, item) ∷ held) f = do
  (b, root) ← with_env env (λ e. bpt_insert e rounds f.btree f.leaf key item flag_insert)
  n ← on_trees (load f.leaf)
  q ← lift (get n.pointers (b.order - 1))
  fill_rest env rounds held
      (record f { btree = record b { root = root }; leaf = if q == null then f.leaf else q })

-- `leaf` and `leaf_left` start with what their places hold.
unfoldable pub fill :
    (List ℕ → StoreCmd Ptr) → (Store → Env) → Env → ℕ → ℕ → List ℕ → Btree → StoreCmd (ℕ × Btree)
fill new_key env u rounds room file btree = do
  f ←
      read_loop (fill_step new_key env rounds) (suc (length file)) room file
        (record { btree = btree; leaf = u.uninit 0; leaf_left = u.uninit 1; held = []; sno = 0 })
  g ← fill_rest env rounds f.held f
  pure (g.sno, g.btree)

-- `file` is none where fopen gives NULL; `buf` is the buffer for the header.
unfoldable pub fio_read_from_file :
    Env → ℕ → Option (List ℕ) → List ℕ → List ℕ → Btree → StoreCmd (ℕ × Btree)
fio_read_from_file u rounds none fname buf btree = pure (0, btree)
fio_read_from_file u rounds (some file) fname buf btree = do
  (status, rest) ← lift (fio_read_header file fname buf)
  if status == minus_one then pure (0, btree) else fill new_uint (by_uint u) u rounds 78 rest btree

-- With `flag`, a file for another HASHSIZE is not read.
unfoldable pub fio_read_trans_asc :
    Env → ℕ → Option (List ℕ) → List ℕ → List ℕ → Btree → Bool → StoreCmd (ℕ × Btree)
fio_read_trans_asc u rounds none fname buf btree flag = pure (0, btree)
fio_read_trans_asc u rounds (some file) fname buf btree flag = do
  (status, rest) ← lift (fio_read_header file fname buf)
  if (status == minus_one) || ((status == 0) && flag)
      then pure (0, btree)
      else fill new_text (by_key u) u rounds 998 rest btree

-- The trees of one language by hash value, and the number of records.
pub record Hashed : Type 0 where
  pub left : List Btree
  pub right : List Btree
  pub sno : ℕ

unfoldable pub hash_insert :
    (Store → Env) → ℕ → Bool → List Btree → Ptr → Ptr → List ℕ → StoreCmd (List Btree)
hash_insert env rounds one_tree hb key item text = do
  h ← if one_tree then pure 0 else lift (hash_value text)
  t ← lift (get_elem? hb h)
  leaf ← with_env env (λ e. bpt_find_leaf e rounds t key e.compare)
  (b, root) ← with_env env (λ e. bpt_insert e rounds t leaf key item flag_insert)
  pure (set hb h (record b { root = root }))

unfoldable pub hash_step :
    (Store → Env) → ℕ → Bool → List ℕ → List ℕ → Hashed → StoreCmd (Hashed × Bool)
hash_step env rounds one_tree in_key in_word f = do
  pkey ← new_text in_key
  if pkey == null then pure (f, false) else do
    pword ← new_text in_word
    if pword == null then pure (f, false) else do
      left ← hash_insert env rounds one_tree f.left pkey pword in_key
      right ← hash_insert env rounds one_tree f.right pword pkey in_word
      pure (record { left = left; right = right; sno = inc f.sno }, true)

-- `one_tree` is `sh == 0`: all keys go to the trees at 0.
unfoldable pub fio_read_trans_hash :
    Env → ℕ → Option (List ℕ) → List ℕ → List ℕ → List Btree → List Btree → Bool → StoreCmd Hashed
fio_read_trans_hash u rounds none fname buf left right one_tree =
    pure (record { left = left; right = right; sno = 0 })
fio_read_trans_hash u rounds (some file) fname buf left right one_tree = do
  (status, rest) ← lift (fio_read_header file fname buf)
  if status == minus_one
      then pure (record { left = left; right = right; sno = 0 })
      else read_loop (hash_step (by_key u) rounds one_tree) (suc (length rest)) 998 rest
          (record { left = left; right = right; sno = 0 })
