-- ===== src/Bpt/Split.antt =====
-- The two splits of btree/bpt3.c, on the nodes: the temporary arrays, the halves, the links.
pub mod Leaf
pub mod Node
use linux_kernel_struct.Common.{ℕ, ◌+◌, ◌-◌, Bool, Option, none, some}
use linux_kernel_struct.Memory.{Ptr, null}
use linux_kernel_struct.Arrays.{Arr, get, put, copy, copy_skip, fill, ◌>>=◌}
use linux_kernel_struct.Bpt.{Node5, Env, new_array, bpt_half_order}

-- What a split leaves in the two nodes.
pub record Halves : Type 0 where
  pub left : Node5
  pub right : Node5

-- The entries of a full node with a new one at `idx`, in a temporary array.
unfoldable pub with_entry : Env → ℕ → ℕ → ℕ → Arr → ℕ → Option Arr
with_entry e cap n idx src v = do temp ← copy_skip n 0 0 idx src (new_array e cap); put temp idx v

-- _bpt_insert_into_leaf_after_splitting, once the place `idx` of the new entry is known: the arrays
-- of the leaf `n` with the new entry go over the leaf and the fresh leaf `m` at `new_leaf`, the link
-- to the next leaf is passed on, and the unused data slots are set to NULL.
unfoldable pub split_leaf : Env → ℕ → Node5 → Node5 → Ptr → ℕ → Ptr → Ptr → Option Halves
split_leaf e order n m new_leaf idx key item = do
  temp_keys ← with_entry e order n.num_keys idx n.keys key
  temp_pointers ← with_entry e order n.num_keys idx n.pointers item
  let split : ℕ = bpt_half_order (order - 1)
  pointers ← copy split 0 0 temp_pointers n.pointers
  keys ← copy split 0 0 temp_keys n.keys
  new_pointers ← copy (order - split) split 0 temp_pointers m.pointers
  new_keys ← copy (order - split) split 0 temp_keys m.keys
  next_leaf ← get pointers (order - 1)
  new_pointers ← put new_pointers (order - 1) next_leaf
  pointers ← put pointers (order - 1) new_leaf
  pointers ← fill (order - 1 - split) split null pointers
  new_pointers ← fill (order - 1 - (order - split)) (order - split) null new_pointers
  some (record {
    left = record n { num_keys = split; pointers = pointers; keys = keys };
    right = record m {
      num_keys = order - split;
      pointers = new_pointers;
      keys = new_keys;
      parent = n.parent;
    };
  })

-- _bpt_insert_into_parent_after_splitting, on the full internal node `n` and the fresh node `m`.
unfoldable pub split_node : Env → ℕ → Node5 → Node5 → ℕ → Ptr → Ptr → Option Halves
split_node e order n m left_index key right = do
  temp_pointers ← with_entry e (order + 1) (n.num_keys + 1) (left_index + 1) n.pointers right
  temp_keys ← with_entry e order n.num_keys left_index n.keys key
  let split : ℕ = bpt_half_order order
  pointers ← copy (split - 1) 0 0 temp_pointers n.pointers
  keys ← copy (split - 1) 0 0 temp_keys n.keys
  p ← get temp_pointers (split - 1)
  pointers ← put pointers (split - 1) p
  new_pointers ← copy (order - split) split 0 temp_pointers m.pointers
  new_keys ← copy (order - split) split 0 temp_keys m.keys
  q ← get temp_pointers order
  new_pointers ← put new_pointers (order - split) q
  some (record {
    left = record n { num_keys = split - 1; pointers = pointers; keys = keys };
    right = record m {
      num_keys = order - split;
      pointers = new_pointers;
      keys = new_keys;
      parent = n.parent;
    };
  })

-- The key that goes up.
unfoldable pub middle_key : Env → ℕ → Node5 → ℕ → Ptr → Option Ptr
middle_key e order n left_index key = do
  temp_keys ← with_entry e order n.num_keys left_index n.keys key
  get temp_keys (bpt_half_order order - 1)
