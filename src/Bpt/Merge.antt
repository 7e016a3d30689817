-- ===== src/Bpt/Merge.antt =====
-- The moves of entries that a deletion in btree/bpt3.c makes within a node and between neighbours.
pub mod Remove
pub mod Coalesce
pub mod Borrow
use linux_kernel_struct.Common.{
  ◌==◌, ℕ, zero, suc, ◌+◌, ◌-◌, Bool, Option, none, some, if◌then◌else◌,
}
use linux_kernel_struct.Memory.{Ptr, null}
use linux_kernel_struct.Arrays.{Arr, get, put, shift_up, shift_down, copy, fill, find_from, ◌>>=◌}
use linux_kernel_struct.Bpt.{Node5}

-- _bpt_remove_entry_from_node, on the node: key `k` and the slot that holds `pointer` are closed up,
-- and the slots behind are set to NULL, in a leaf up to the link to the next leaf.
unfoldable pub remove_entry : ℕ → Node5 → ℕ → Ptr → Option Node5
remove_entry order n k pointer = do
  keys ← shift_down (n.num_keys - (k + 1)) k n.keys
  let idx_end : ℕ = if n.is_leaf then n.num_keys else n.num_keys + 1
  i ← find_from n.pointers.cap 0 pointer n.pointers
  pointers ← shift_down (idx_end - (i + 1)) i n.pointers
  pointers ← fill (if n.is_leaf then order - 1 - idx_end else order - idx_end) idx_end null pointers
  some (record n { keys = keys; pointers = pointers; num_keys = n.num_keys - 1 })

-- Two neighbours after a move, and the separator that their parent gets.
pub record Pair : Type 0 where
  pub left : Node5
  pub right : Node5

-- _bpt_coalesce_nodes: the entries of `r` go behind those of `l`, at internal nodes behind the
-- separator `kp`; at leaves `l` takes over the link to the next leaf.
unfoldable pub merge : ℕ → Node5 → Node5 → Ptr → Option Pair
merge order l r kp =
    let idx : ℕ = l.num_keys in
    if r.is_leaf
    then (do
      keys ← copy r.num_keys 0 idx r.keys l.keys
      pointers ← copy r.num_keys 0 idx r.pointers l.pointers
      next_leaf ← get r.pointers (order - 1)
      pointers ← put pointers (order - 1) next_leaf
      some (record {
        left = record l { keys = keys; pointers = pointers; num_keys = idx + r.num_keys };
        right = r;
      }))
    else do
      keys ← put l.keys idx kp
      keys ← copy r.num_keys 0 (idx + 1) r.keys keys
      pointers ← copy r.num_keys 0 (idx + 1) r.pointers l.pointers
      last ← get r.pointers r.num_keys
      pointers ← put pointers (idx + 1 + r.num_keys) last
      some (record {
        left = record l { keys = keys; pointers = pointers; num_keys = idx + 1 + r.num_keys };
        right = record r { num_keys = 0 };
      })

-- The node, its neighbour, and the new separator of the two.
pub record Borrowed : Type 0 where
  pub left : Node5
  pub right : Node5
  pub separator : Ptr

-- _bpt_redistribute_nodes, where the neighbour `m` is on the right: its first entry goes to `n`.
unfoldable pub borrow_right : Node5 → Node5 → Ptr → Option Borrowed
borrow_right n m kp = do
  first_key ← get m.keys 0
  first ← get m.pointers 0
  keys ← put n.keys n.num_keys (if n.is_leaf then first_key else kp)
  pointers ← put n.pointers (if n.is_leaf then n.num_keys else n.num_keys + 1) first
  m_keys ← shift_down m.num_keys 0 m.keys
  m_pointers ← shift_down m.num_keys 0 m.pointers
  next_key ← get m_keys 0
  m_pointers ←
      if n.is_leaf
      then some m_pointers
      else (do q ← get m_pointers (m.num_keys + 1); put m_pointers m.num_keys q)
  some (record {
    left = record n { keys = keys; pointers = pointers; num_keys = n.num_keys + 1 };
    right = record m { keys = m_keys; pointers = m_pointers; num_keys = m.num_keys - 1 };
    separator = if n.is_leaf then next_key else first_key;
  })

-- _bpt_redistribute_nodes, where the neighbour `m` is on the left: its last entry goes to `n`.
unfoldable pub borrow_left : Node5 → Node5 → Ptr → Option Borrowed
borrow_left n m kp = do
  pointers ←
      if n.is_leaf
      then some n.pointers
      else (do q ← get n.pointers n.num_keys; put n.pointers (n.num_keys + 1) q)
  keys ← shift_up n.num_keys 0 n.keys
  pointers ← shift_up n.num_keys 0 pointers
  last_key ← if m.num_keys == 0 then none else get m.keys (m.num_keys - 1)
  let slot : ℕ = if n.is_leaf then m.num_keys - 1 else m.num_keys
  last ← get m.pointers slot
  pointers ← put pointers 0 last
  m_pointers ← put m.pointers slot null
  keys ← put keys 0 (if n.is_leaf then last_key else kp)
  some (record {
    left = record n { keys = keys; pointers = pointers; num_keys = n.num_keys + 1 };
    right = record m { pointers = m_pointers; num_keys = m.num_keys - 1 };
    separator = last_key;
  })
