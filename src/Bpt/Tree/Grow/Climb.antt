-- ===== src/Bpt/Tree/Grow/Climb.antt =====
-- The way up of an insertion of btree/bpt3.c, from the leaf to the root of a whole tree.
use linux_kernel_struct.Common.{◌++◌, ap, ◌∷◌, ℕ, ◌≤◌, ◌≡◌, ◌∙◌, arith, Bool-cases, inl, inr}
use linux_kernel_struct.Memory.{Ptr, Memory, Run}
use linux_kernel_struct.Bpt.Tree
use linux_kernel_struct.Bpt.Tree.Join
use linux_kernel_struct.Bpt.{is_lt, Node5, Btree, Env}
use linux_kernel_struct.Bpt.Tree.{
  Le, Lt, forest_leaf_of, ApartForest, forest_has_node, more, height, leaf_of, OrderedForest,
  Ordered, forest_first_leaf, Tree, leaf, has_node, last, Apart, node, Forest, Stored, IsTotalOrder,
  forest_height,
}
use linux_kernel_struct.Bpt.Tree.Kids.{Kids, Children-Holds, forest_keys, roots}
use linux_kernel_struct.Bpt.Tree.Grown.{Grown-left, Grown-right}
use linux_kernel_struct.Bpt.Tree.PutIn.{PutIn-left, PutIn-right}
use linux_kernel_struct.Bpt.Tree.Rising.{ProperForest, Proper}
use linux_kernel_struct.Bpt.Order.{Le}
use linux_kernel_struct.Bpt.Tree.Search.{le_of_not_lt}
use linux_kernel_struct.Bpt.Tree.Grow.{Propagated, Outcome}
use linux_kernel_struct.Bpt.Tree.Grow.Node.{node-Outcome}

module _ (e : Env) (o : IsTotalOrder e) (btree : Btree) (x : Ptr × Ptr) (m : Memory Node5)
    (run : Run (Memory Node5) Ptr) (rounds supply : ℕ) where
  module _ (t : Tree) (k : Ptr) (f : Forest) (up stop : Ptr)
      (stored : Stored m btree.order up (forest_first_leaf f) t)
      (kids : Kids m btree.order up stop f) (ordered : OrderedForest e (more t k f))
      (proper : ProperForest e (more t k f)) (apart : ApartForest (more t k f)) where
    -- Growth in the first child, or behind it.
    left-Outcome :
        Lt e x.0 k
        → Outcome e o btree x m run rounds supply up (forest_first_leaf f) (last t)
        → Outcome e o btree x m run rounds supply up stop (more t k f)
    left-Outcome before (inl h) = inl (record {
      heap = h.heap;
      forest = Join.forest_join h.forest k f;
      grown =
          Grown-left e o m h.heap btree.order up stop x t k f stored kids ordered proper apart
            h.forest before h.grown;
      keys = Join.keys-join k f h.forest ∙ ap (λ l. l ++ k ∷ forest_keys f) h.keys;
      addresses = Join.roots-join k f h.forest ∙ ap (λ l. l ++ roots f) h.addresses;
      nodes_left = h.nodes_left;
      nodes_enough = omega (arith, h.nodes_enough);
      ready = h.ready;
      ends = h.ends;
    })
    left-Outcome before (inr h) = inr (record {
      heap = h.heap;
      forest = Join.forest_join h.forest k f;
      grown =
          Grown-left e o m h.heap btree.order up stop x t k f stored kids ordered proper apart
            h.forest before h.grown;
      child = h.child;
      key = h.key;
      right = h.right;
      put = PutIn-left t k f h.forest h.child h.key h.right h.put;
      child_node = h.child_node;
      not_null = h.not_null;
      at_child = h.at_child;
      parent = h.parent;
      rounds_left = h.rounds_left;
      rounds_enough = omega (arith, h.rounds_enough);
      nodes_left = h.nodes_left;
      nodes_enough = omega (arith, h.nodes_enough);
      ready = h.ready;
      goes_on = h.goes_on;
    })

    right-Outcome :
        Le e k x.0
        → Outcome e o btree x m run rounds supply up stop f
        → Outcome e o btree x m run rounds supply up stop (more t k f)
    right-Outcome behind (inl h) = inl (record {
      heap = h.heap;
      forest = more t k h.forest;
      grown =
          Grown-right e o m h.heap btree.order up stop x t k f stored kids ordered proper apart
            h.forest behind h.grown;
      keys = ap (λ l. k ∷ l) h.keys;
      addresses = ap (λ l. Tree.root t ∷ l) h.addresses;
      nodes_left = h.nodes_left;
      nodes_enough = omega (arith, h.nodes_enough);
      ready = h.ready;
      ends = h.ends;
    })
    right-Outcome behind (inr h) = inr (record {
      heap = h.heap;
      forest = more t k h.forest;
      grown =
          Grown-right e o m h.heap btree.order up stop x t k f stored kids ordered proper apart
            h.forest behind h.grown;
      child = h.child;
      key = h.key;
      right = h.right;
      put = PutIn-right t k f h.forest h.child h.key h.right apart.0 h.put;
      child_node = h.child_node;
      not_null = h.not_null;
      at_child = h.at_child;
      parent = h.parent;
      rounds_left = h.rounds_left;
      rounds_enough = omega (arith, h.rounds_enough);
      nodes_left = h.nodes_left;
      nodes_enough = omega (arith, h.nodes_enough);
      ready = h.ready;
      goes_on = h.goes_on;
    })

  -- From the leaf up to the root of every tree that has it as the place of the key.
  module _ (o2 : 2 ≤ btree.order) (q : Ptr × Node5)
      (at_leaf : (up stop : Ptr) (p : Ptr) (n : Node5)
        → (p, n) ≡ q
        → Stored m btree.order up stop (leaf p n)
        → Proper e (leaf p n)
        → Propagated e o btree x m run rounds supply up stop (last (leaf p n))) where
    mutual
      pub tree-Outcome :
          (t : Tree) (up stop : Ptr)
          → Stored m btree.order up stop t
          → Ordered e t
          → Proper e t
          → Apart t
          → leaf_of e x.0 t ≡ q
          → height t ≤ rounds
          → height t ≤ supply
          → Outcome e o btree x m run rounds supply up stop (last t)
      tree-Outcome (leaf p n) up stop s ordered proper apart eq fuel stock =
          inr (at_leaf up stop p n eq s proper)
      tree-Outcome (node p n f) up stop s ordered proper apart eq fuel stock =
          node-Outcome e o btree x m run rounds supply up stop p n f o2 s apart (omega arith)
            (omega arith)
            (forest-Outcome f p stop (Children-Holds m btree.order p stop n 0 f s.7).1 ordered
              proper apart.1 eq (omega arith) (omega arith))

      forest-Outcome :
          (f : Forest) (up stop : Ptr)
          → Kids m btree.order up stop f
          → OrderedForest e f
          → ProperForest e f
          → ApartForest f
          → forest_leaf_of e x.0 f ≡ q
          → forest_height f ≤ rounds
          → forest_height f ≤ supply
          → Outcome e o btree x m run rounds supply up stop f
      forest-Outcome (last t) up stop kids ordered proper apart eq fuel stock =
          tree-Outcome t up stop kids ordered proper apart eq fuel stock
      forest-Outcome (more t k f) up stop kids ordered proper apart eq fuel stock =
          elim (Bool-cases (is_lt (e.compare x.0 k))) [
            | inl before ↦ left-Outcome t k f up stop kids.0 kids.1 ordered proper apart before (
                tree-Outcome t up (forest_first_leaf f) kids.0 ordered.2 proper.0 apart.1
                  (rw before at eq) (omega arith) (omega arith))
            | inr behind ↦
                right-Outcome t k f up stop kids.0 kids.1 ordered proper apart
                  (le_of_not_lt e o x.0 k behind)
                  (forest-Outcome f up stop kids.1 ordered.3 proper.1 apart.2 (rw behind at eq)
                    (omega arith) (omega arith))
          ]
