-- ===== src/Bpt/Tree.antt =====
-- What the nodes of a B+ tree of btree/bpt3.c stand for: a tree with its nodes, as an abstract view
-- of the heap, and the list of entries that it holds.
pub mod Search
pub mod Replace
pub mod Entries
pub mod Insert
pub mod RoundTrip
pub mod Kids
pub mod Rising
pub mod Join
pub mod Reparent
pub mod Grown
pub mod Ready
pub mod PutIn
pub mod SplitLeaf
pub mod Parent
pub mod SplitNode
pub mod GrownNode
pub mod Grow
pub mod NewRoot
pub mod Proper
pub mod Insertion
pub mod Ascending
pub mod Growth
pub mod First
pub mod Leaves
pub mod Index
pub mod InitKey
pub mod InitLeaves
use Prim.Native.Nat.{Ordering}
use linux_kernel_struct.Common.{
  ℕ, zero, suc, ◌+◌, ◌-◌, ◌≤◌, ◌<◌, ◌≡◌, ◌≢◌, Bool, true, false, ◌||◌, Option, none, some, List, [],
  ◌∷◌, ◌++◌, ◌==◌, if◌then◌else◌, max,
}
use linux_kernel_struct.Memory.{Ptr, null, Memory}
use linux_kernel_struct.Bpt.{Node5, Env, is_lt, is_le, is_eq}
use linux_kernel_struct.Bpt.Order.{Le, Sorted}

abbrev pub Entries : Type 0
Entries = List (Ptr × Ptr)

-- Children, with the separating keys between them.
mutual
  pub data Tree : Type 0 where
    leaf : Ptr → Node5 → Tree
    node : Ptr → Node5 → Forest → Tree

  pub data Forest : Type 0 where
    last : Tree → Forest
    more : Tree → Ptr → Forest → Forest

abbrev pub root : Tree → Ptr
root (leaf p n) = p
root (node p n f) = p

-- The pairs i .. i + r - 1.
abbrev pub pairs : (ℕ → Ptr) → (ℕ → Ptr) → ℕ → ℕ → Entries
pairs f g i zero = []
pairs f g i (suc r) = (f i, g i) ∷ pairs f g (i + 1) r

abbrev pub entries_from : Node5 → ℕ → ℕ → Entries
entries_from n = pairs n.keys.at n.pointers.at

abbrev pub leaf_entries : Node5 → Entries
leaf_entries n = entries_from n 0 n.num_keys

abbrev mutual
  pub entries : Tree → Entries
  entries (leaf p n) = leaf_entries n
  entries (node p n f) = forest_entries f

  pub forest_entries : Forest → Entries
  forest_entries (last t) = entries t
  forest_entries (more t k f) = entries t ++ forest_entries f

abbrev mutual
  pub height : Tree → ℕ
  height (leaf p n) = 1
  height (node p n f) = suc (forest_height f)

  pub forest_height : Forest → ℕ
  forest_height (last t) = height t
  forest_height (more t k f) = max (height t) (forest_height f)

abbrev mutual
  pub first_leaf : Tree → Ptr
  first_leaf (leaf p n) = p
  first_leaf (node p n f) = forest_first_leaf f

  pub forest_first_leaf : Forest → Ptr
  forest_first_leaf (last t) = first_leaf t
  forest_first_leaf (more t k f) = first_leaf t

-- The heap holds the tree: the arrays of every node have the capacities for `order`, its parent is
-- the node above, and the last pointer of a leaf is the next leaf, `stop` behind the last one.
abbrev mutual
  pub Stored : Memory Node5 → ℕ → Ptr → Ptr → Tree → Type 0
  Stored m order up stop (leaf p n) =
      (p ≢ null)
      × (m.cells p ≡ some n)
      × (n.is_leaf ≡ true)
      × (n.parent ≡ up)
      × (n.keys.cap + 1 ≡ order)
      × (n.pointers.cap ≡ order)
      × (n.num_keys < order)
      × (n.pointers.at (order - 1) ≡ stop)
  Stored m order up stop (node p n f) =
      (p ≢ null)
      × (m.cells p ≡ some n)
      × (n.is_leaf ≡ false)
      × (n.parent ≡ up)
      × (n.keys.cap + 1 ≡ order)
      × (n.pointers.cap ≡ order)
      × (n.num_keys < order)
      × Children m order p stop n 0 f

  pub Children : Memory Node5 → ℕ → Ptr → Ptr → Node5 → ℕ → Forest → Type 0
  Children m order up stop n i (last t) =
      (i ≡ n.num_keys) × (n.pointers.at i ≡ root t) × Stored m order up stop t
  Children m order up stop n i (more t k f) =
      (i < n.num_keys)
      × (n.keys.at i ≡ k)
      × (n.pointers.at i ≡ root t)
      × Stored m order up (forest_first_leaf f) t
      × Children m order up stop n (i + 1) f

-- What is asked of `compare`: a total order of the keys, up to equality by it.
abbrev pub flipped : Ordering → Ordering
flipped Ordering.lt = Ordering.gt
flipped Ordering.eq = Ordering.eq
flipped Ordering.gt = Ordering.lt

pub record IsTotalOrder (e : Env) : Type 0 where
  pub flip : (a b : Ptr) → e.compare b a ≡ flipped (e.compare a b)
  pub trans : (a b c : Ptr) → Le e a b → Le e b c → Le e a c

abbrev pub Lt : Env → Ptr → Ptr → Type 0
Lt e a b = is_lt (e.compare a b) ≡ true

abbrev pub AllKeys : (Ptr → Type 0) → Entries → Type 0
AllKeys P [] = Unit {0}
AllKeys P (x ∷ xs) = P x.0 × AllKeys P xs

-- The leaves are sorted. The keys left of a separator are before it, the others are not.
abbrev mutual
  pub Ordered : Env → Tree → Type 0
  Ordered e (leaf p n) = Sorted e n.keys.at n.num_keys
  Ordered e (node p n f) = OrderedForest e f

  pub OrderedForest : Env → Forest → Type 0
  OrderedForest e (last t) = Ordered e t
  OrderedForest e (more t k f) =
      AllKeys (λ x. Lt e x k) (entries t)
      × AllKeys (λ x. Le e k x) (forest_entries f)
      × Ordered e t
      × OrderedForest e f

-- The leaf that a key belongs to.
abbrev mutual
  pub leaf_of : Env → Ptr → Tree → Ptr × Node5
  leaf_of e key (leaf p n) = (p, n)
  leaf_of e key (node p n f) = forest_leaf_of e key f

  pub forest_leaf_of : Env → Ptr → Forest → Ptr × Node5
  forest_leaf_of e key (last t) = leaf_of e key t
  forest_leaf_of e key (more t k f) =
      if is_lt (e.compare key k) then leaf_of e key t else forest_leaf_of e key f

-- The tree with `n` in place of the leaf that the key belongs to.
abbrev mutual
  pub with_leaf : Env → Ptr → Node5 → Tree → Tree
  with_leaf e key n' (leaf p n) = leaf p n'
  with_leaf e key n' (node p n f) = node p n (forest_with_leaf e key n' f)

  pub forest_with_leaf : Env → Ptr → Node5 → Forest → Forest
  forest_with_leaf e key n' (last t) = last (with_leaf e key n' t)
  forest_with_leaf e key n' (more t k f) =
      if is_lt (e.compare key k)
      then more (with_leaf e key n' t) k f
      else more t k (forest_with_leaf e key n' f)

-- `a` is the address of a node of the tree.
abbrev mutual
  pub has_node : Ptr → Tree → Bool
  has_node a (leaf p n) = a == p
  has_node a (node p n f) = (a == p) || forest_has_node a f

  pub forest_has_node : Ptr → Forest → Bool
  forest_has_node a (last t) = has_node a t
  forest_has_node a (more t k f) = has_node a t || forest_has_node a f

-- No two nodes have the same address.
abbrev mutual
  pub Apart : Tree → Type 0
  Apart (leaf p n) = Unit {0}
  Apart (node p n f) = (forest_has_node p f ≡ false) × ApartForest f

  pub ApartForest : Forest → Type 0
  ApartForest (last t) = Apart t
  ApartForest (more t k f) =
      ((a : Ptr) → has_node a t ≡ true → forest_has_node a f ≡ false) × Apart t × ApartForest f

-- The new entries are the old ones with one put in.
abbrev pub Inserted : Ptr × Ptr → Entries → Entries → Type 0
Inserted x old new = (xs : Entries) × (ys : Entries) × (old ≡ xs ++ ys) × (new ≡ xs ++ x ∷ ys)

-- The data of the first entry whose key passes the test.
abbrev pub find : (Ptr → Bool) → Entries → Option Ptr
find test [] = none
find test ((x, d) ∷ xs) = if test x then some d else find test xs

abbrev pub or_null : Option Ptr → Ptr
or_null none = null
or_null (some p) = p
