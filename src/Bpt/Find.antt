-- ===== src/Bpt/Find.antt =====
-- The lookups of btree/bpt3.c. Walks down the tree and along the leaves run on `rounds`.
pub mod Leaf
use Prim.Native.Nat.{Ordering}
use linux_kernel_struct.Common.{
  ℕ, zero, suc, ◌+◌, ◌-◌, Bool, true, false, ◌==◌, ◌&&◌, ltb, if◌then◌else◌,
}
use linux_kernel_struct.Memory.{Ptr, null, out_of_fuel, pure, ◌>>=◌, load}
use linux_kernel_struct.Arrays.{Arr, get}
use linux_kernel_struct.Bpt.{Btree, Env, is_eq, is_lt, is_le, BptCmd, lift}

-- The inner loop of bpt_find_leaf over the keys i .. i + rounds - 1: the child to go to, and the
-- last comparison made (`k` if none was).
unfoldable pub child_index : Env → Bool → Ptr → Arr → ℕ → ℕ → Ordering → BptCmd (ℕ × Ordering)
child_index e samek key keys zero i k = pure (i, k)
child_index e samek key keys (suc r) i k = do
  x ← lift (get keys i)
  let k' : Ordering = e.compare key x
  if (if samek then is_le k' else is_lt k')
      then pure (i, k')
      else child_index e samek key keys r (i + 1) k'

-- The walk down: the leaf, and whether the last comparison in some internal node was equal.
unfoldable pub descend : Env → Bool → Ptr → ℕ → Ptr → Ordering → Bool → BptCmd (Ptr × Bool)
descend e samek key zero node k in_key = λ _. out_of_fuel
descend e samek key (suc rounds) node k in_key = do
  n ← load node
  if n.is_leaf then pure (node, in_key) else do
    (i, k') ← child_index e samek key n.keys n.num_keys 0 k
    child ← lift (get n.pointers i)
    descend e samek key rounds child k' (if is_eq k' then true else in_key)

-- The first of the keys i .. i + rounds - 1 that passes a test, else i + rounds.
unfoldable pub first_key : (Ptr → Bool) → Arr → ℕ → ℕ → BptCmd ℕ
first_key test keys zero i = pure i
first_key test keys (suc r) i = do
  x ← lift (get keys i)
  if test x then pure i else first_key test keys r (i + 1)

-- Along the leaves while all keys are smaller; NULL behind the last leaf.
unfoldable pub along : (Ptr → Bool) → ℕ → ℕ → Ptr → BptCmd Ptr
along test order zero node = λ _. out_of_fuel
along test order (suc rounds) node = do
  n ← load node
  i ← first_key test n.keys n.num_keys 0
  if i == n.num_keys
      then (do
        q ← lift (get n.pointers (order - 1))
        if q == null then pure null else along test order rounds q)
      else pure node

-- The walk down uses `btree->compare`; the walk along the leaves uses the argument `compare`.
unfoldable pub bpt_find_leaf : Env → ℕ → Btree → Ptr → (Ptr → Ptr → Ordering) → BptCmd Ptr
bpt_find_leaf e rounds btree key compare = if btree.root == null then pure null else do
  (node, in_key) ← descend e btree.samek key rounds btree.root Ordering.gt false
  if in_key && btree.samek
      then along (λ x. is_le (compare key x)) btree.order rounds node
      else pure node

unfoldable pub bpt_find_leaf_unique : Env → ℕ → Btree → Ptr → (Ptr → Ptr → Ordering) → BptCmd Ptr
bpt_find_leaf_unique e rounds btree key compare = if btree.root == null then pure null else do
  (node, in_key) ←
      descend (record e { compare = compare }) false key rounds btree.root Ordering.gt false
  pure node

-- What the functions that return an index report: an index, -1 (no such key) or -2 (no leaf).
pub data Found : Type 0 where
  at : ℕ → Found
  no_key : Found
  no_leaf : Found

-- The index, and the leaf that goes out through `leaf`.
unfoldable pub bpt_find_leaf_key : Env → ℕ → Btree → Ptr → BptCmd (Found × Ptr)
bpt_find_leaf_key e rounds btree key = do
  leaf ← bpt_find_leaf e rounds btree key e.compare
  if leaf == null then pure (no_leaf, leaf) else do
    n ← load leaf
    i ← first_key (λ x. is_eq (e.compare key x)) n.keys n.num_keys 0
    pure (if ltb i n.num_keys then at i else no_key, leaf)

-- The loop of bpt_find_leaf_key_trans compares addresses of keys and of data.
unfoldable pub first_entry : Ptr → Ptr → Arr → Arr → ℕ → ℕ → BptCmd ℕ
first_entry key ptr keys pointers zero i = pure i
first_entry key ptr keys pointers (suc r) i = do
  x ← lift (get keys i)
  d ← lift (get pointers i)
  if (x == key) && (d == ptr) then pure i else first_entry key ptr keys pointers r (i + 1)

unfoldable pub bpt_find_leaf_key_trans : Env → ℕ → Btree → Ptr → Ptr → BptCmd (Found × Ptr)
bpt_find_leaf_key_trans e rounds btree key ptr = do
  leaf ← bpt_find_leaf e rounds btree key e.compare
  if leaf == null then pure (no_leaf, leaf) else do
    n ← load leaf
    i ← first_entry key ptr n.keys n.pointers n.num_keys 0
    pure (if ltb i n.num_keys then at i else no_key, leaf)

-- The data of the first equal key in the leaf, NULL if there is none.
unfoldable pub bpt_search : Env → ℕ → Btree → Ptr → BptCmd Ptr
bpt_search e rounds btree key = do
  leaf ← bpt_find_leaf e rounds btree key e.compare
  if leaf == null then pure null else do
    n ← load leaf
    i ← first_key (λ x. is_eq (e.compare key x)) n.keys n.num_keys 0
    if i == n.num_keys then pure null else lift (get n.pointers i)

-- h, counted on the way to the leftmost leaf.
unfoldable pub height_loop : ℕ → Ptr → ℕ → BptCmd ℕ
height_loop zero node h = λ _. out_of_fuel
height_loop (suc rounds) node h = do
  n ← load node
  if n.is_leaf then pure (h + 1) else do q ← lift (get n.pointers 0); height_loop rounds q (h + 1)

unfoldable pub bpt_height : ℕ → Ptr → BptCmd ℕ
bpt_height rounds root = height_loop rounds root 0

unfoldable pub path_loop : ℕ → Ptr → Ptr → ℕ → BptCmd ℕ
path_loop zero root node length = λ _. out_of_fuel
path_loop (suc rounds) root node length =
    if node == root
    then pure length
    else do n ← load node; path_loop rounds root n.parent (length + 1)

unfoldable pub bpt_path_to_root : ℕ → Ptr → Ptr → BptCmd ℕ
bpt_path_to_root rounds root child = path_loop rounds root child 0

-- while (!node->is_leaf) node = node->pointers[0];
unfoldable pub leftmost : ℕ → Ptr → BptCmd Ptr
leftmost zero node = λ _. out_of_fuel
leftmost (suc rounds) node = do
  n ← load node
  if n.is_leaf then pure node else do q ← lift (get n.pointers 0); leftmost rounds q
