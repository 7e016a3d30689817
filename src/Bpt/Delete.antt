-- ===== src/Bpt/Delete.antt =====
-- The deletion of btree/bpt3.c. The recursion from a merged node to its parent runs on `rounds`.
use linux_kernel_struct.Common.{
  ℕ, zero, suc, ◌+◌, ◌-◌, Bool, true, false, Option, none, some, ◌==◌, ltb, leb, ◌&&◌,
  if◌then◌else◌,
}
use linux_kernel_struct.Int32.{dec}
use linux_kernel_struct.Memory.{
  Ptr, null, fault, exited, out_of_fuel, pure, ◌>>=◌, ◌>>◌, store, load, free, free_block,
}
use linux_kernel_struct.Arrays.{Arr, get, put, find_from, find_below}
use linux_kernel_struct.Bpt.{Btree, Env, is_eq, BptCmd, lift, bpt_half_order}
use linux_kernel_struct.Bpt.Find.{Found, bpt_find_leaf_key}
use linux_kernel_struct.Bpt.Insert.{set_parents}
use linux_kernel_struct.Bpt.Merge.{remove_entry, merge, borrow_right, borrow_left}

-- while (compare (key, keys[i])) i++;  with `rounds` up to the capacity.
unfoldable pub find_equal : Env → Ptr → Arr → ℕ → ℕ → BptCmd ℕ
find_equal e key keys zero i = λ _. fault
find_equal e key keys (suc r) i = do
  x ← lift (get keys i)
  if is_eq (e.compare key x) then pure i else find_equal e key keys r (i + 1)

-- The separators above that are the removed key become the first key of the leaf.
unfoldable pub replace_above : ℕ → Ptr → Ptr → Ptr → BptCmd (Unit {0})
replace_above zero dkey first_key node_tmp = λ _. out_of_fuel
replace_above (suc rounds) dkey first_key node_tmp = if node_tmp == null then pure tt else do
  n ← load node_tmp
  i ← lift (find_below n.num_keys 0 dkey n.keys)
  if ltb i n.num_keys
      then (do
        keys ← lift (put n.keys i first_key)
        store node_tmp (some (record n { keys = keys })))
      else pure tt
  replace_above rounds dkey first_key n.parent

-- With `by_address` the key is found by its address, else by `compare`.
unfoldable pub bpt_remove_entry_from_node : Env → ℕ → Btree → Ptr → Ptr → Ptr → Bool → BptCmd Ptr
bpt_remove_entry_from_node e rounds btree node key pointer by_address = do
  n ← load node
  k ←
      if by_address
      then lift (find_from n.keys.cap 0 key n.keys)
      else find_equal e key n.keys n.keys.cap 0
  dkey ← lift (get n.keys k)
  n' ← lift (remove_entry btree.order n k pointer)
  store node (some n')
  if (k == 0) && n'.is_leaf
      then (do first_key ← lift (get n'.keys 0); replace_above rounds dkey first_key n'.parent)
      else pure tt
  pure node

unfoldable pub bpt_adjust_root : Ptr → BptCmd Ptr
bpt_adjust_root root = do
  n ← load root
  if ltb 0 n.num_keys then pure root else if n.is_leaf then (do free root; pure null) else do
    new_root ← lift (get n.pointers 0)
    c ← load new_root
    store new_root (some (record c { parent = null }))
    free root
    pure new_root

-- `none` is -1: the node is the leftmost child. A node that its parent does not hold is an exit.
unfoldable pub bpt_get_neighbor_index : Ptr → BptCmd (Option ℕ)
bpt_get_neighbor_index node = do
  n ← load node
  p ← load n.parent
  i ← lift (find_below (p.num_keys + 1) 0 node p.pointers)
  if ltb p.num_keys i then (λ _. exited) else pure (if i == 0 then none else some (i - 1))

-- The node of the smaller keys takes the entries of the other, which the parent then loses:
-- `delete_entry` is bpt_delete_entry on the parent.
unfoldable pub bpt_coalesce_nodes :
    (Btree → Ptr → Ptr → Ptr → BptCmd (Btree × Ptr))
    → Btree
    → Ptr
    → Ptr
    → Option ℕ
    → Ptr
    → BptCmd (Btree × Ptr)
bpt_coalesce_nodes delete_entry btree node neighbor neighbor_index kp = do
  let left : Ptr = elim neighbor_index [ none ↦ node | some _ ↦ neighbor ]
  let right : Ptr = elim neighbor_index [ none ↦ neighbor | some _ ↦ node ]
  l ← load left
  r ← load right
  p ← lift (merge btree.order l r kp)
  store left (some p.left)
  store right (some p.right)
  if r.is_leaf then pure tt else set_parents (p.left.num_keys + 1) 0 p.left.pointers left
  (b, root) ← delete_entry btree r.parent kp right
  free right
  pure (record b { root = root }, root)

unfoldable pub bpt_redistribute_nodes : Ptr → Ptr → Ptr → Option ℕ → ℕ → Ptr → BptCmd Ptr
bpt_redistribute_nodes root node neighbor neighbor_index kp_index kp = do
  n ← load node
  m ← load neighbor
  p ← load n.parent
  h ← lift (elim neighbor_index [ none ↦ borrow_right n m kp | some _ ↦ borrow_left n m kp ])
  store node (some h.left)
  store neighbor (some h.right)
  if n.is_leaf then pure tt else do
    child ← lift (get h.left.pointers (elim neighbor_index [ none ↦ n.num_keys + 1 | some _ ↦ 0 ]))
    c ← load child
    store child (some (record c { parent = node }))
  keys ← lift (put p.keys kp_index h.separator)
  store n.parent (some (record p { keys = keys }))
  pure root

-- _bpt_coalesce_nodes and bpt_delete_entry call one another; a coalesce goes up one level.
unfoldable pub bpt_delete_entry : Env → ℕ → Btree → Ptr → Ptr → Ptr → Bool → BptCmd (Btree × Ptr)
bpt_delete_entry e zero btree node key pointer by_address = λ _. out_of_fuel
bpt_delete_entry e (suc rounds) btree node key pointer by_address = do
  bpt_remove_entry_from_node e (suc rounds) btree node key pointer by_address
  if node == btree.root then (do root ← bpt_adjust_root btree.root; pure (btree, root)) else do
    n ← load node
    let min_keys : ℕ =
        if n.is_leaf then bpt_half_order (btree.order - 1) else bpt_half_order btree.order - 1
    if leb min_keys n.num_keys then pure (btree, btree.root) else do
      neighbor_index ← bpt_get_neighbor_index node
      let kp_index : ℕ = elim neighbor_index [ none ↦ 0 | some i ↦ i ]
      p ← load n.parent
      kp ← lift (get p.keys kp_index)
      neighbor ← lift (get p.pointers (elim neighbor_index [ none ↦ 1 | some i ↦ i ]))
      m ← load neighbor
      let max_keys : ℕ = if n.is_leaf then btree.order else btree.order - 1
      if ltb (m.num_keys + n.num_keys) max_keys
          then bpt_coalesce_nodes (λ b q k r. bpt_delete_entry e rounds b q k r true) btree node
              neighbor neighbor_index kp
          else (do
            root ← bpt_redistribute_nodes btree.root node neighbor neighbor_index kp_index kp
            pure (btree, root))

-- The entry at an index goes, and with it the key and the data that it points to.
unfoldable pub delete_at : Env → ℕ → Btree → Ptr → Found → BptCmd (Btree × Bool)
delete_at e rounds btree leaf Found.no_key = pure (btree, false)
delete_at e rounds btree leaf Found.no_leaf = pure (btree, false)
delete_at e rounds btree leaf (Found.at i) = do
  n ← load leaf
  pkey ← lift (get n.keys i)
  pointer ← lift (get n.pointers i)
  (b, root) ← bpt_delete_entry e rounds btree leaf pkey pointer false
  free_block pkey
  free_block pointer
  pure (record b { root = root; kno = dec b.kno; kcnt = dec b.kcnt }, true)

-- Deletes the first equal key that the lookup finds, with its data: the flag says whether it did.
unfoldable pub bpt_delete : Env → ℕ → Btree → Ptr → BptCmd (Btree × Bool)
bpt_delete e rounds btree key = do
  (idx, leaf) ← bpt_find_leaf_key e rounds btree key
  delete_at e rounds btree leaf idx
