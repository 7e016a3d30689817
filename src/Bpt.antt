-- ===== src/Bpt.antt =====
-- The B+ tree of btree/bpt3.c: NODE5 and BTREE (btree/dtype.h), and the creation of both.
-- A BTREE stands outside the heap; a function that updates one returns the new value.
-- `void*` keys and data are addresses. `compare` reads what two keys point to.
pub mod Alloc
pub mod Find
pub mod Scan
pub mod Tree
pub mod Drop
pub mod Order
pub mod Split
pub mod Insert
pub mod Merge
pub mod Delete
mod Tests
use Prim.Native.Nat.{Ordering}
use linux_kernel_struct.Common.{
  ℕ, zero, suc, ◌+◌, ◌-◌, ◌*◌, ◌/◌, ◌%◌, Bool, true, false, Option, none, some, ◌==◌, if◌then◌else◌,
}
use linux_kernel_struct.Memory.{
  Ptr, null, Cmd, ok, fault, exited, pure, ◌>>=◌, ◌>>◌, Memory, store, load, malloc,
}
use linux_kernel_struct.Arrays.{Arr}

-- The arrays are blocks of their own, which only their node points to: they are kept in the node,
-- and freed with it. `next` links the queue of bpt_print.
pub record Node5 : Type 0 where
  pub parent : Ptr
  pub is_leaf : Bool
  pub num_keys : ℕ
  pub pointers : Arr
  pub keys : Arr
  pub next : Ptr

-- `order` is at least 1: `order - 1` is the capacity of `keys`.
pub record Btree : Type 0 where
  pub root : Ptr
  pub order : ℕ
  pub kno : ℕ
  pub kcnt : ℕ
  pub samek : Bool

-- What the code takes from outside: the comparison of the keys at two addresses (the sign of what
-- `compare` returns), and what malloc'ed memory holds.
pub record Env : Type 0 where
  pub compare : Ptr → Ptr → Ordering
  pub uninit : ℕ → Ptr

abbrev pub is_eq : Ordering → Bool
is_eq Ordering.eq = true
is_eq _ = false

abbrev pub is_lt : Ordering → Bool
is_lt Ordering.lt = true
is_lt _ = false

abbrev pub is_le : Ordering → Bool
is_le Ordering.gt = false
is_le _ = true

abbrev pub BptCmd : Type 0 → Type 0
BptCmd = Cmd (Memory Node5)

-- An array access out of bounds is a fault.
abbrev pub lift : {A : Type 0} → Option A → BptCmd A
lift none = λ _. fault
lift (some a) = pure a

-- An allocation that exits on failure.
unfoldable pub malloc_or_exit : BptCmd Ptr
malloc_or_exit = do p ← malloc; if p == null then (λ _. exited) else pure p

unfoldable pub bpt_half_order : ℕ → ℕ
bpt_half_order length = if length % 2 == 0 then length / 2 else length / 2 + 1

abbrev pub new_array : Env → ℕ → Arr
new_array e cap = record { cap = cap; at = e.uninit }

abbrev pub new_node : Env → ℕ → Bool → Node5
new_node e order is_leaf = record {
  parent = null;
  is_leaf = is_leaf;
  num_keys = 0;
  pointers = new_array e order;
  keys = new_array e (order - 1);
  next = null;
}

-- Three mallocs: the node, its keys, its pointers.
unfoldable pub bpt_make_node : Env → Btree → BptCmd Ptr
bpt_make_node e btree = do
  p ← malloc_or_exit
  malloc_or_exit
  malloc_or_exit
  store p (some (new_node e btree.order false))
  pure p

unfoldable pub bpt_make_leaf : Env → Btree → BptCmd Ptr
bpt_make_leaf e btree = do
  leaf ← bpt_make_node e btree
  n ← load leaf
  store leaf (some (record n { is_leaf = true }))
  pure leaf

-- `none` is NULL: malloc gave no BTREE.
unfoldable pub bpt_create : ℕ → Bool → BptCmd (Option Btree)
bpt_create order samek = do
  p ← malloc
  pure (
      if p == null
      then none
      else some (record { root = null; order = order; kno = 0; kcnt = 0; samek = samek }))
