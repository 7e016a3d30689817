-- ===== src/Bpt/Tree/Grow.antt =====
-- The insertion of btree/bpt3.c on its way up from a full leaf: below every node it ends there, or it
-- goes on with a key and a new child for the node.
pub mod Node
pub mod Climb
use linux_kernel_struct.Common.{
  ◌++◌, eq→==, ◌<◌, ltb→lt, ap, true, ne→==, ◌==◌, ◌∷◌, append_assoc, ℕ, suc, ◌+◌, ◌-◌, ◌≤◌, ◌≡◌,
  ◌≢◌, ◌⊎◌, refl, sym, ◌∙◌, false, some, [], arith, Bool-cases, inl, inr, length, if◌then◌else◌,
  ltb,
}
use mathlib.Core.Path.{subst}
use linux_kernel_struct.Memory.{Ptr, null, Memory, Run, ok, and_then}
use linux_kernel_struct.Memory.Laws.{load-ok}
use linux_kernel_struct.Bpt.Tree
use linux_kernel_struct.Bpt.Tree.Join
use linux_kernel_struct.Bpt.{is_lt, Node5, Btree, Env}
use linux_kernel_struct.Bpt.Insert.{
  bpt_insert_into_parent, bpt_insert_into_parent_node, bpt_get_left_index, split_full_node,
}
use linux_kernel_struct.Bpt.Tree.{
  Le, Lt, forest_leaf_of, ApartForest, forest_has_node, more, height, leaf_of, OrderedForest,
  Ordered, forest_first_leaf, Tree, leaf, has_node, last, Apart, node, Forest, Stored, IsTotalOrder,
  forest_height,
}
use linux_kernel_struct.Bpt.Tree.Kids.{
  or_left, Kids, count, Children-Holds, Holds, forest_keys, roots,
}
use linux_kernel_struct.Bpt.Tree.Grown.{Grown-left, Grown-right, Grown}
use linux_kernel_struct.Bpt.Tree.Ready.{Ready-next, Ready}
use linux_kernel_struct.Bpt.Tree.PutIn.{PutIn-left, PutIn-right, PutIn, find_below-among}
use linux_kernel_struct.Bpt.Tree.GrownNode.{inner-Grown, outside, at_node}
use linux_kernel_struct.Bpt.Tree.GrownNode.Parted.{parted, parted-Grown}
use linux_kernel_struct.Bpt.Tree.Replace.{written}
use linux_kernel_struct.Memory.Chain.{write-ne, write_self}
use linux_kernel_struct.Bpt.Tree.SplitNode.{NodeSplit-used, split_full_node-NodeSplit}
use linux_kernel_struct.Bpt.Tree.Rising.{ProperForest, Proper}
use linux_kernel_struct.Bpt.Order.{Le}
use linux_kernel_struct.Bpt.Tree.Search.{le_of_not_lt}
use linux_kernel_struct.Bpt.Tree.Parent.{
  length-forest_keys, bpt_insert_into_parent_node-Holds, IsInner, held_pointers,
}

-- One round: the child and its parent are found, and the parent has room or is split.
pub bpt_insert_into_parent-step :
    (e : Env) (rounds : ℕ) (btree : Btree) (g : Memory Node5) (p : Ptr) (n lc : Node5)
    (f F : Forest) (c k r : Ptr) (put : PutIn f F c k r)
    → Holds n 0 f
    → c ≢ null
    → g.cells c ≡ some lc
    → lc.parent ≡ p
    → p ≢ null
    → g.cells p ≡ some n
    → n.num_keys + 1 ≤ n.pointers.cap
    → bpt_insert_into_parent e (suc rounds) btree c k r g ≡ (
        if ltb n.num_keys (btree.order - 1)
        then bpt_insert_into_parent_node btree.root p (length put.us) k r g
        else and_then
            (split_full_node e btree p (length put.us) k r g)
            (λ (s : Ptr × Ptr). bpt_insert_into_parent e rounds btree p s.0 s.1))
unfolding bpt_insert_into_parent bpt_get_left_index
bpt_insert_into_parent-step e rounds btree g p n lc f F c k r put held nc cell parent np at_p cap =
    let found =
      find_below-among (n.num_keys + 1) 0 c n.pointers put.us put.vs
        (held_pointers f F c k r put n held ∙ append_assoc put.us (c ∷ []) put.vs) put.before
        (omega arith) in
    let place : 0 + length put.us ≡ length put.us = omega arith in
    let top : (lc.parent == null) ≡ false = ne→== lc.parent null (λ z. np (sym parent ∙ z)) in
    elim (Bool-cases (ltb n.num_keys (btree.order - 1))) [
      | inl has_room ↦
          rw (load-ok g c lc nc cell, top, parent, load-ok g p n np at_p, found, place, has_room)
            refl
      | inr full ↦
          rw (load-ok g c lc nc cell, top, parent, load-ok g p n np at_p, found, place, full) refl
    ]

module _ (e : Env) (o : IsTotalOrder e) (btree : Btree) (x : Ptr × Ptr) (m : Memory Node5)
    (run : Run (Memory Node5) Ptr) (rounds supply : ℕ) where
  -- The insertion has ended below the node: the children are as many as before.
  pub record Absorbed (up stop : Ptr) (f : Forest) : Type 0 where
    pub heap : Memory Node5
    pub forest : Forest
    pub grown : Grown e m heap btree.order up stop x f forest
    pub keys : forest_keys forest ≡ forest_keys f
    pub addresses : roots forest ≡ roots f
    pub nodes_left : ℕ
    pub nodes_enough : supply ≤ nodes_left + forest_height f
    pub ready : Ready nodes_left heap
    pub ends : run ≡ ok btree.root heap

  -- It goes on: the child at `child` was split, and `key` and the new child at `right` are to be put
  -- into the node.
  pub record Propagated (up stop : Ptr) (f : Forest) : Type 0 where
    pub heap : Memory Node5
    pub forest : Forest
    pub grown : Grown e m heap btree.order up stop x f forest
    pub child : Ptr
    pub key : Ptr
    pub right : Ptr
    pub put : PutIn f forest child key right
    pub child_node : Node5
    pub not_null : child ≢ null
    pub at_child : heap.cells child ≡ some child_node
    pub parent : child_node.parent ≡ up
    pub rounds_left : ℕ
    pub rounds_enough : rounds + 1 ≤ rounds_left + forest_height f
    pub nodes_left : ℕ
    pub nodes_enough : supply ≤ nodes_left + forest_height f
    pub ready : Ready nodes_left heap
    pub goes_on : run ≡ bpt_insert_into_parent e rounds_left btree child key right heap

  abbrev pub Outcome : Ptr → Ptr → Forest → Type 0
  Outcome up stop f = Absorbed up stop f ⊎ Propagated up stop f
