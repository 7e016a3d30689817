-- ===== src/Bpt/Insert.antt =====
-- The insertion of btree/bpt3.c. The recursion from a split node to its parent runs on `rounds`.
pub mod Leaf
pub mod Full
use Prim.Native.Nat.{Ordering}
use linux_kernel_struct.Common.{
  ℕ, zero, suc, ◌+◌, ◌-◌, ◌%◌, Bool, true, false, Option, none, some, ◌==◌, ltb, if◌then◌else◌,
}
use linux_kernel_struct.Int32.{inc}
use linux_kernel_struct.Memory.{
  Ptr, null, Cmd, ok, fault, out_of_fuel, pure, ◌>>=◌, ◌>>◌, Memory, store, load,
}
use linux_kernel_struct.Arrays.{Arr, get, put, shift_up, copy, copy_skip, fill, find_below}
use linux_kernel_struct.Bpt.Split.{split_leaf, split_node, middle_key}
use linux_kernel_struct.Bpt.{
  Node5, Btree, Env, is_le, BptCmd, lift, new_array, bpt_half_order, bpt_make_node, bpt_make_leaf,
}

-- `flag == FLAG_INSERT`
abbrev pub flag_insert : ℕ
flag_insert = 1

unfoldable pub bpt_make_root : Env → Btree → Ptr → Ptr → BptCmd Ptr
bpt_make_root e btree key item = do
  root ← bpt_make_leaf e btree
  n ← load root
  keys ← lift (put n.keys 0 key)
  pointers ← lift (put n.pointers 0 item)
  pointers ← lift (put pointers (btree.order - 1) null)
  store root (
      some
        (record n { keys = keys; pointers = pointers; parent = null; num_keys = n.num_keys + 1 }))
  pure root

-- while (idx < n && compare (keys[idx], key) <= 0) idx++;  with n = idx + rounds.
unfoldable pub insert_index : Env → Ptr → Arr → ℕ → ℕ → BptCmd ℕ
insert_index e key keys zero idx = pure idx
insert_index e key keys (suc r) idx = do
  x ← lift (get keys idx)
  if is_le (e.compare x key) then insert_index e key keys r (idx + 1) else pure idx

unfoldable pub bpt_insert_into_leaf : Env → Ptr → Ptr → Ptr → BptCmd Ptr
bpt_insert_into_leaf e leaf key item = do
  n ← load leaf
  idx ← insert_index e key n.keys n.num_keys 0
  keys ← lift (shift_up n.num_keys idx n.keys)
  pointers ← lift (shift_up n.num_keys idx n.pointers)
  keys ← lift (put keys idx key)
  pointers ← lift (put pointers idx item)
  store leaf (some (record n { keys = keys; pointers = pointers; num_keys = n.num_keys + 1 }))
  pure leaf

unfoldable pub bpt_insert_into_leaf_asc : Ptr → Ptr → Ptr → BptCmd Ptr
bpt_insert_into_leaf_asc leaf key item = do
  n ← load leaf
  keys ← lift (put n.keys n.num_keys key)
  pointers ← lift (put n.pointers n.num_keys item)
  store leaf (some (record n { keys = keys; pointers = pointers; num_keys = n.num_keys + 1 }))
  pure leaf

unfoldable pub bpt_insert_into_new_root : Env → Btree → Ptr → Ptr → Ptr → BptCmd Ptr
bpt_insert_into_new_root e btree left key right = do
  root ← bpt_make_node e btree
  n ← load root
  keys ← lift (put n.keys 0 key)
  pointers ← lift (put n.pointers 0 left)
  pointers ← lift (put pointers 1 right)
  store root (
      some
        (record n { keys = keys; pointers = pointers; num_keys = n.num_keys + 1; parent = null }))
  l ← load left
  store left (some (record l { parent = root }))
  r ← load right
  store right (some (record r { parent = root }))
  pure root

-- The first child slot that holds `left`, or one past the last.
unfoldable pub bpt_get_left_index : Node5 → Ptr → Option ℕ
bpt_get_left_index parent left = find_below (parent.num_keys + 1) 0 left parent.pointers

-- for (i = num_keys; i > left_index; i--) pointers[i + 1] = pointers[i];
unfoldable pub shift_up_next : ℕ → ℕ → Arr → Option Arr
shift_up_next n left_index pointers = shift_up (n + 1) (left_index + 1) pointers

unfoldable pub bpt_insert_into_parent_node : Ptr → Ptr → ℕ → Ptr → Ptr → BptCmd Ptr
bpt_insert_into_parent_node root node left_index key right = do
  n ← load node
  pointers ← lift (shift_up_next n.num_keys left_index n.pointers)
  keys ← lift (shift_up n.num_keys left_index n.keys)
  pointers ← lift (put pointers (left_index + 1) right)
  keys ← lift (put keys left_index key)
  store node (some (record n { keys = keys; pointers = pointers; num_keys = n.num_keys + 1 }))
  pure root

-- for (i = ...; rounds; i++) pointers[i]->parent = new_node;
unfoldable pub set_parents : ℕ → ℕ → Arr → Ptr → BptCmd (Unit {0})
set_parents zero i pointers new_node = pure tt
set_parents (suc r) i pointers new_node = do
  child ← lift (get pointers i)
  c ← load child
  store child (some (record c { parent = new_node }))
  set_parents r (i + 1) pointers new_node

-- The leaf keeps the lower half. Answers the separator and the new leaf.
unfoldable pub split_full_leaf : Env → Btree → Ptr → Ptr → Ptr → BptCmd (Ptr × Ptr)
split_full_leaf e btree leaf key item = do
  new_leaf ← bpt_make_leaf e btree
  n ← load leaf
  m ← load new_leaf
  idx ← insert_index e key n.keys (btree.order - 1) 0
  h ← lift (split_leaf e btree.order n m new_leaf idx key item)
  store leaf (some h.left)
  store new_leaf (some h.right)
  new_key ← lift (get h.right.keys 0)
  pure (new_key, new_leaf)

-- The node keeps the lower half, and the middle key goes up. Answers that key and the new node.
unfoldable pub split_full_node : Env → Btree → Ptr → ℕ → Ptr → Ptr → BptCmd (Ptr × Ptr)
split_full_node e btree left left_index key right = do
  n ← load left
  new_node ← bpt_make_node e btree
  m ← load new_node
  h ← lift (split_node e btree.order n m left_index key right)
  kp ← lift (middle_key e btree.order n left_index key)
  store left (some h.left)
  store new_node (some h.right)
  set_parents (h.right.num_keys + 1) 0 h.right.pointers new_node
  pure (kp, new_node)

-- _bpt_insert_into_parent, with _bpt_insert_into_parent_after_splitting in its last branch.
unfoldable pub bpt_insert_into_parent : Env → ℕ → Btree → Ptr → Ptr → Ptr → BptCmd Ptr
bpt_insert_into_parent e zero btree left key right = λ _. out_of_fuel
bpt_insert_into_parent e (suc rounds) btree left key right = do
  l ← load left
  if l.parent == null then bpt_insert_into_new_root e btree left key right else do
    p ← load l.parent
    left_index ← lift (bpt_get_left_index p left)
    if ltb p.num_keys (btree.order - 1)
        then bpt_insert_into_parent_node btree.root l.parent left_index key right
        else do
          (kp, new_node) ← split_full_node e btree l.parent left_index key right
          bpt_insert_into_parent e rounds btree l.parent kp new_node

unfoldable pub bpt_insert_into_leaf_after_splitting : Env → ℕ → Btree → Ptr → Ptr → Ptr → BptCmd Ptr
bpt_insert_into_leaf_after_splitting e rounds btree leaf key item = do
  (new_key, new_leaf) ← split_full_leaf e btree leaf key item
  bpt_insert_into_parent e rounds btree leaf new_key new_leaf

-- `kno` and `kcnt` are counted up first. The caller stores the root that is returned; the first
-- insertion stores it itself.
unfoldable pub bpt_insert : Env → ℕ → Btree → Ptr → Ptr → Ptr → ℕ → BptCmd (Btree × Ptr)
bpt_insert e rounds btree leaf key item flag =
    let b : Btree = record btree {
      kno = if flag == flag_insert then inc btree.kno else btree.kno;
      kcnt = inc btree.kcnt;
    } in
    if b.root == null
    then (do root ← bpt_make_root e b key item; pure (record b { root = root }, root))
    else do
      n ← load leaf
      if ltb n.num_keys (b.order - 1)
          then (do bpt_insert_into_leaf e leaf key item; pure (b, b.root))
          else do
            root ← bpt_insert_into_leaf_after_splitting e rounds b leaf key item
            pure (b, root)

-- For keys that come in ascending order: `leaf` is the last leaf, and follows its split.
unfoldable pub bpt_insert_asc : Env → ℕ → Btree → Ptr → Ptr → Ptr → BptCmd (Btree × Ptr × Ptr)
bpt_insert_asc e rounds btree leaf key item =
    let b : Btree = record btree { kno = inc btree.kno; kcnt = inc btree.kcnt } in
    if b.root == null
    then (do root ← bpt_make_root e b key item; pure (record b { root = root }, root, root))
    else do
      n ← load leaf
      if ltb n.num_keys (b.order - 1)
          then (do bpt_insert_into_leaf_asc leaf key item; pure (b, leaf, b.root))
          else do
            root ← bpt_insert_into_leaf_after_splitting e rounds b leaf key item
            n ← load leaf
            next_leaf ← lift (get n.pointers (b.order - 1))
            pure (record b { root = root }, next_leaf, root)
