-- ===== src/Bpt/Drop.antt =====
-- bpt_drop_leaves_nodes, bpt_drop_leaves, bpt_drop_nodes, bpt_drop and bpt_drop_all of btree/bpt3.c.
-- The node counters are static: they are passed on. Recursion and walks run on `rounds`.
use linux_kernel_struct.Common.{◌%◌, ℕ, zero, suc, ◌+◌, ◌-◌, Option, none, ◌==◌, if◌then◌else◌}
use linux_kernel_struct.Int32.{word, inc, dec}
use linux_kernel_struct.Memory.{Ptr, null, out_of_fuel, pure, ◌>>=◌, ◌>>◌, load, free, free_block}
use linux_kernel_struct.Arrays.{Arr, get}
use linux_kernel_struct.Bpt.{Btree, BptCmd, lift}
use linux_kernel_struct.Bpt.Find.{leftmost}

-- free (node->pointers[i]); btree->kcnt--;  over a leaf.
unfoldable pub drop_data : Arr → ℕ → ℕ → ℕ → BptCmd ℕ
drop_data pointers zero i kcnt = pure kcnt
drop_data pointers (suc r) i kcnt = do
  d ← lift (get pointers i)
  free_block d
  drop_data pointers r (i + 1) (dec kcnt)

-- The recursive calls over the children, which pass a state on.
unfoldable pub for_children : {S : Type 0} → (Ptr → S → BptCmd S) → Arr → ℕ → ℕ → S → BptCmd S
for_children visit pointers zero i s = pure s
for_children visit pointers (suc r) i s = do
  q ← lift (get pointers i)
  s' ← visit q s
  for_children visit pointers r (i + 1) s'

-- The counter of nodes and `kcnt`; at NULL nothing happens.
unfoldable pub drop_tree : ℕ → Ptr → ℕ × ℕ → BptCmd (ℕ × ℕ)
drop_tree zero node s = λ _. out_of_fuel
drop_tree (suc rounds) node (cnt, kcnt) = if node == null then pure (cnt, kcnt) else do
  n ← load node
  (cnt', kcnt') ←
      if n.is_leaf
      then (do k ← drop_data n.pointers n.num_keys 0 kcnt; pure (cnt, k))
      else for_children (drop_tree rounds) n.pointers (n.num_keys + 1) 0 (cnt, kcnt)
  free node
  pure (inc cnt', kcnt')

-- What is returned, the counter, and the tree.
unfoldable pub bpt_drop_leaves_nodes : ℕ → Btree → Ptr → ℕ → BptCmd (ℕ × ℕ × Btree)
bpt_drop_leaves_nodes rounds btree node cnt = do
  (cnt', kcnt') ← drop_tree rounds node (cnt, btree.kcnt)
  pure (if node == null then 0 else cnt', cnt', record btree { kcnt = kcnt' })

unfoldable pub drop_entries : Arr → Arr → ℕ → ℕ → ℕ → BptCmd ℕ
drop_entries keys pointers zero i kcnt = pure kcnt
drop_entries keys pointers (suc r) i kcnt = do
  x ← lift (get keys i)
  free_block x
  d ← lift (get pointers i)
  free_block d
  drop_entries keys pointers r (i + 1) (dec kcnt)

-- Along the leaves: the number of keys, and `kcnt`.
unfoldable pub drop_leaves_loop : ℕ → ℕ → Ptr → ℕ → ℕ → BptCmd (ℕ × ℕ)
drop_leaves_loop zero order node cnt kcnt = λ _. out_of_fuel
drop_leaves_loop (suc rounds) order node cnt kcnt = do
  n ← load node
  kcnt' ← drop_entries n.keys n.pointers n.num_keys 0 kcnt
  q ← lift (get n.pointers (order - 1))
  if q == null
      then pure ((cnt + n.num_keys) % word, kcnt')
      else drop_leaves_loop rounds order q ((cnt + n.num_keys) % word) kcnt'

unfoldable pub bpt_drop_leaves : ℕ → Btree → Ptr → BptCmd (ℕ × Btree)
bpt_drop_leaves rounds btree node = if node == null then pure (0, btree) else do
  leaf ← leftmost rounds node
  (cnt, kcnt) ← drop_leaves_loop rounds btree.order leaf 0 btree.kcnt
  pure (cnt, record btree { kcnt = kcnt })

-- The counter, which a call at NULL sets to 0.
unfoldable pub bpt_drop_nodes : ℕ → Ptr → ℕ → BptCmd ℕ
bpt_drop_nodes zero node cnt = λ _. out_of_fuel
bpt_drop_nodes (suc rounds) node cnt = if node == null then pure 0 else do
  n ← load node
  cnt' ←
      if n.is_leaf
      then pure cnt
      else for_children (bpt_drop_nodes rounds) n.pointers (n.num_keys + 1) 0 cnt
  free node
  pure (inc cnt')

-- Both trees, empty, and the counter.
unfoldable pub bpt_drop : ℕ → Btree → Btree → ℕ → BptCmd (Btree × Btree × ℕ)
bpt_drop rounds ws wi cnt = do
  (_, cnt, ws) ← bpt_drop_leaves_nodes rounds ws ws.root cnt
  let ws : Btree = record ws { root = null; kno = ws.kcnt }
  (_, cnt, wi) ← bpt_drop_leaves_nodes rounds wi wi.root cnt
  pure (ws, record wi { root = null; kno = wi.kcnt }, cnt)

-- `none`, twice, is NULL: both BTREEs are freed.
unfoldable pub bpt_drop_all : ℕ → Btree → Btree → ℕ → BptCmd (Option Btree × Option Btree)
bpt_drop_all rounds ws wi cnt = do bpt_drop rounds ws wi cnt; pure (none, none)
