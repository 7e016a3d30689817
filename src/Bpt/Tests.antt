-- ===== src/Bpt/Tests.antt =====
-- Runs of btree/bpt3.c with keys compared as numbers, and its theorems at small nodes.
mod Nodes
mod Walks
mod Trees
mod Growth
use Prim.Native.Nat.{compare}
use linux_kernel_struct.Common.{
  arith, length, some, Bool, ℕ, zero, suc, ◌+◌, ◌*◌, ◌≡◌, refl, true, false, none, List, [], ◌∷◌,
}
use linux_kernel_struct.Memory.{
  free_block, free, Ptr, null, Memory, Returns, write, load, malloc, ◌>>=◌, pure,
}
use linux_kernel_struct.Arrays.{shift_down, find_from, shift_up, copy, copy_skip, fill, find_below}
use linux_kernel_struct.Bpt.{
  Bool, fault, some, Env, Node5, Btree, BptCmd, bpt_make_node, bpt_make_leaf, malloc_or_exit,
  bpt_half_order,
}
use linux_kernel_struct.Bpt.Find.{
  bpt_find_leaf, bpt_find_leaf_key, bpt_search, bpt_height, height_loop, descend, child_index,
  first_key,
}
use linux_kernel_struct.Bpt.Insert.{
  bpt_insert, bpt_insert_into_leaf, insert_index, split_full_leaf, split_full_node,
  bpt_insert_into_parent, bpt_insert_into_parent_node, bpt_insert_into_new_root,
  bpt_insert_into_leaf_after_splitting, bpt_get_left_index, set_parents, shift_up_next,
  bpt_make_root,
}
use linux_kernel_struct.Bpt.Order.{Sorted, IsOrder}
use linux_kernel_struct.Bpt.Delete.{
  bpt_redistribute_nodes, bpt_coalesce_nodes, bpt_get_neighbor_index, bpt_adjust_root,
  replace_above, find_equal, bpt_remove_entry_from_node, bpt_delete_entry, delete_at, bpt_delete,
}
use linux_kernel_struct.Bpt.Merge.{borrow_left, borrow_right, merge, remove_entry}
use linux_kernel_struct.Bpt.Split.{split_leaf, split_node, middle_key, with_entry}

-- Keys are their own addresses, compared as numbers; uninitialised memory holds 7777.
abbrev env : Env
env = record { compare = compare; uninit = λ _. 7777 }

abbrev blank : Memory Node5
blank = record { cells = λ _. none; blocks = λ _. true; supply = count_up 60 101 }
  where
    count_up : ℕ → ℕ → List ℕ
    count_up zero i = []
    count_up (suc n) i = i ∷ count_up n (i + 1)

abbrev empty : Btree
empty = record { root = null; order = 4; kno = 0; kcnt = 0; samek = false }

-- Insert the keys of a list, each with a thousand times itself as data.
insert_all : List ℕ → Btree → BptCmd Btree
unfolding bpt_find_leaf_key bpt_find_leaf descend child_index first_key bpt_insert bpt_make_root
    bpt_make_leaf bpt_make_node malloc_or_exit malloc load bpt_insert_into_leaf insert_index
    shift_up bpt_insert_into_leaf_after_splitting split_full_leaf split_leaf with_entry copy_skip
    copy fill bpt_half_order bpt_insert_into_parent bpt_insert_into_new_root bpt_get_left_index
    find_below bpt_insert_into_parent_node shift_up_next split_full_node split_node middle_key
    set_parents
insert_all [] b = pure b
insert_all (k ∷ ks) b = do
  (_, leaf) ← bpt_find_leaf_key env 9 b k
  (b, root) ← bpt_insert env 9 b leaf k (k * 1000) 1
  insert_all ks (record b { root = root })

abbrev sample_keys : List ℕ
sample_keys = 5 ∷ 1 ∷ 9 ∷ 3 ∷ 7 ∷ 2 ∷ 8 ∷ 6 ∷ 4 ∷ 10 ∷ 12 ∷ 11 ∷ []

-- The height of the tree, two lookups, and the number of keys.
report : BptCmd (ℕ × Ptr × Ptr × ℕ)
unfolding insert_all bpt_search bpt_height height_loop first_key bpt_find_leaf descend child_index
report = do
  b ← insert_all sample_keys empty
  h ← bpt_height 9 b.root
  x ← bpt_search env 9 b 8
  y ← bpt_search env 9 b 13
  pure (h, x, y, b.kcnt)

report_runs : Returns (λ r _. r ≡ (3, 8000, 0, 12)) (report blank)
unfolding report write
report_runs = refl

-- Delete the keys of a list.
delete_all : List ℕ → Btree → BptCmd Btree
unfolding bpt_delete delete_at bpt_delete_entry bpt_remove_entry_from_node find_equal replace_above
    bpt_adjust_root bpt_get_neighbor_index bpt_coalesce_nodes bpt_redistribute_nodes remove_entry
    merge borrow_right borrow_left bpt_find_leaf_key bpt_find_leaf descend child_index first_key
    load find_from find_below shift_down shift_up copy fill bpt_half_order set_parents free
    free_block
delete_all [] b = pure b
delete_all (k ∷ ks) b = do (b, deleted) ← bpt_delete env 9 b k; delete_all ks b

-- Two deletions that empty a leaf: it is merged, and the root goes down a level.
merge_run : BptCmd (ℕ × Ptr × Ptr)
unfolding insert_all delete_all bpt_search bpt_height height_loop first_key bpt_find_leaf descend
    child_index
merge_run = do
  b ← insert_all (1 ∷ 2 ∷ 3 ∷ 4 ∷ []) empty
  b ← delete_all (2 ∷ []) b
  h ← bpt_height 9 b.root
  x ← bpt_search env 9 b 1
  pure (h, x, b.kcnt)

merge_runs : Returns (λ r _. r ≡ (1, 1000, 3)) (merge_run blank)
unfolding merge_run write
merge_runs = refl

-- With five keys in order the right leaf is full, and the deletion of the first key borrows from it:
-- the shift of its keys reads past the end of their array.
full_neighbor : BptCmd Btree
unfolding insert_all delete_all
full_neighbor = do b ← insert_all (1 ∷ 2 ∷ 3 ∷ 4 ∷ 5 ∷ []) empty; delete_all (1 ∷ []) b

full_neighbor_faults : full_neighbor blank ≡ fault
unfolding full_neighbor write
full_neighbor_faults = refl

env-IsOrder : IsOrder env
env-IsOrder = record { trans = λ a b c p q. ground arith; total = λ a b p. ground arith }

-- An array with the entries of a list, zeros behind them.
abbrev from_list : List ℕ → ℕ → ℕ
from_list [] i = 0
from_list (x ∷ xs) zero = x
from_list (x ∷ xs) (suc i) = from_list xs i

-- A node of order 4 with the given keys and pointers.
abbrev node_of : Bool → List ℕ → List ℕ → Node5
node_of is_leaf ks ps = record {
  parent = null;
  is_leaf = is_leaf;
  num_keys = length ks;
  pointers = record { cap = 4; at = from_list ps };
  keys = record { cap = 3; at = from_list ks };
  next = null;
}

abbrev room : Node5
room = node_of true (10 ∷ 30 ∷ []) (100 ∷ 300 ∷ 0 ∷ 99 ∷ [])

abbrev full : Node5
full = node_of true (10 ∷ 30 ∷ 50 ∷ []) (100 ∷ 300 ∷ 500 ∷ 99 ∷ [])

abbrev tree : Btree
tree = record { root = 1; order = 4; kno = 3; kcnt = 3; samek = false }

abbrev at_one : Node5 → Memory Node5
at_one n = record {
  cells = write (λ _. none) 1 (some n);
  blocks = λ _. true;
  supply = 2 ∷ 3 ∷ 4 ∷ [];
}

room-Sorted : Sorted env (from_list (10 ∷ 30 ∷ [])) 2
room-Sorted zero zero ij jn = refl
room-Sorted zero (suc zero) ij jn = refl
room-Sorted zero (suc (suc j)) ij jn = absurd (omega arith)
room-Sorted (suc zero) zero ij jn = absurd (omega arith)
room-Sorted (suc zero) (suc zero) ij jn = refl
room-Sorted (suc zero) (suc (suc j)) ij jn = absurd (omega arith)
room-Sorted (suc (suc i)) j ij jn = absurd (omega arith)
