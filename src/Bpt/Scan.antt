-- ===== src/Bpt/Scan.antt =====
-- Walks along all leaves: bpt_find_leaf_key_next, bpt_find_leaf_key_similar and bpt_init_key of
-- btree/bpt3.c.
use linux_kernel_struct.Common.{ℕ, zero, suc, ◌+◌, ◌-◌, Bool, ◌==◌, ◌&&◌, ltb, if◌then◌else◌}
use linux_kernel_struct.Memory.{Ptr, null, out_of_fuel, pure, ◌>>=◌, load}
use linux_kernel_struct.Arrays.{Arr, get}
use linux_kernel_struct.Bpt.{Btree, Env, is_eq, BptCmd, lift}
use linux_kernel_struct.Bpt.Find.{Found, at, no_key, no_leaf, bpt_find_leaf, first_key, leftmost}
use linux_kernel_struct.Bpt.Insert.{bpt_insert, flag_insert}

-- The loop over the keys of a leaf, which counts those that pass the test: i, idx and cnt at its end.
unfoldable pub count_keys : (Ptr → Bool) → ℕ → Arr → ℕ → ℕ → ℕ → ℕ → BptCmd (ℕ × ℕ × ℕ)
count_keys test count keys zero i idx cnt = pure (i, idx, cnt)
count_keys test count keys (suc r) i idx cnt = do
  x ← lift (get keys i)
  let hit : Bool = test x
  let idx' : ℕ = if hit then i else idx
  let cnt' : ℕ = if hit then cnt + 1 else cnt
  if cnt' == count then pure (i, idx', cnt') else count_keys test count keys r (i + 1) idx' cnt'

-- while (cnt < count && idx == i - 1): on to the next leaf.
unfoldable pub next_loop : (Ptr → Bool) → ℕ → ℕ → ℕ → Ptr → ℕ → ℕ → ℕ → BptCmd (Found × Ptr)
next_loop test count order zero leaf i idx cnt = λ _. out_of_fuel
next_loop test count order (suc rounds) leaf i idx cnt = do
  n ← load leaf
  if ltb cnt count && (idx + 1 == i)
      then (do
        q ← lift (get n.pointers (order - 1))
        if q == null then pure (no_key, q) else do
          n' ← load q
          (i', idx', cnt') ← count_keys test count n'.keys n'.num_keys 0 idx cnt
          next_loop test count order rounds q i' idx' cnt')
      else pure (if ltb i n.num_keys then at i else no_key, leaf)

-- `count` is not negative.
unfoldable pub bpt_find_leaf_key_next : Env → ℕ → Btree → Ptr → ℕ → BptCmd (Found × Ptr)
bpt_find_leaf_key_next e rounds btree key count = do
  leaf ← bpt_find_leaf e rounds btree key e.compare
  if leaf == null then pure (no_leaf, leaf) else do
    n ← load leaf
    (i, idx, cnt) ← count_keys (λ x. is_eq (e.compare key x)) count n.keys n.num_keys 0 0 0
    next_loop (λ x. is_eq (e.compare key x)) count btree.order rounds leaf i idx cnt

unfoldable pub similar_scan : (Ptr → Bool) → ℕ → ℕ → Ptr → BptCmd (Found × Ptr)
similar_scan test order zero leaf = λ _. out_of_fuel
similar_scan test order (suc rounds) leaf = do
  n ← load leaf
  i ← first_key test n.keys n.num_keys 0
  if i == n.num_keys
      then (do
        q ← lift (get n.pointers (order - 1))
        if q == null then pure (no_key, q) else similar_scan test order rounds q)
      else pure (at i, leaf)

-- `test` is str_cmp_int_similar (key, ·) == 0. The root is read before any test for NULL.
unfoldable pub bpt_find_leaf_key_similar : (Ptr → Bool) → ℕ → Btree → BptCmd (Found × Ptr)
bpt_find_leaf_key_similar test rounds btree = do
  leaf ← leftmost rounds btree.root
  similar_scan test btree.order rounds leaf

-- Inserts the entries of a leaf of `wi`, from `i` on, into `ws`, with key and data exchanged.
unfoldable pub init_leaf : Env → ℕ → Ptr → ℕ → ℕ → Btree → BptCmd Btree
init_leaf e rounds node zero i ws = pure ws
init_leaf e rounds node (suc r) i ws = do
  n ← load node
  key ← lift (get n.pointers i)
  item ← lift (get n.keys i)
  leaf ← bpt_find_leaf e rounds ws key e.compare
  (ws, root) ← bpt_insert e rounds ws leaf key item flag_insert
  init_leaf e rounds node r (i + 1) (record ws { root = root })

unfoldable pub init_leaves : Env → ℕ → ℕ → ℕ → Ptr → Btree → BptCmd Btree
init_leaves e inner order zero node ws = λ _. out_of_fuel
init_leaves e inner order (suc rounds) node ws = do
  n ← load node
  ws ← init_leaf e inner node n.num_keys 0 ws
  n ← load node
  q ← lift (get n.pointers (order - 1))
  if q == null then pure ws else init_leaves e inner order rounds q ws

-- From the tree `wi` by number to the tree `ws` by word: `ws` and what is returned.
unfoldable pub bpt_init_key : Env → ℕ → Btree → Btree → BptCmd (Btree × Ptr)
bpt_init_key e rounds wi ws = if wi.root == null then pure (ws, null) else do
  node ← leftmost rounds wi.root
  ws ← init_leaves e rounds wi.order rounds node ws
  pure (ws, ws.root)
