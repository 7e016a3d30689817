-- ===== src/Bpt/Tree/Grow/Node.antt =====
-- The rounds of an insertion of btree/bpt3.c at one node: its children have absorbed the entry, or it
-- has room for a new child, or it is split.
use linux_kernel_struct.Common.{
  eq→==, ◌<◌, ltb→lt, ap, true, ◌==◌, ℕ, suc, ◌-◌, ◌≤◌, ◌≡◌, refl, sym, ◌∙◌, false, some, [], arith,
  Bool-cases, inl, inr, length, if◌then◌else◌, ltb,
}
use mathlib.Core.Path.{subst}
use linux_kernel_struct.Memory.{Ptr, Memory, Run, and_then}
use linux_kernel_struct.Bpt.{Node5, Btree, Env}
use linux_kernel_struct.Bpt.Insert.{
  bpt_insert_into_parent, bpt_insert_into_parent_node, split_full_node,
}
use linux_kernel_struct.Bpt.Tree.{
  forest_has_node, last, Apart, node, Forest, Stored, IsTotalOrder, forest_height,
}
use linux_kernel_struct.Bpt.Tree.Kids.{or_left, count, Children-Holds}
use linux_kernel_struct.Bpt.Tree.Ready.{written-used, Ready-keep, Ready-next, Ready}
use linux_kernel_struct.Bpt.Tree.GrownNode.{inner-Grown, outside, at_node}
use linux_kernel_struct.Bpt.Tree.GrownNode.Parted.{parted, parted-Grown}
use linux_kernel_struct.Bpt.Tree.Replace.{written}
use linux_kernel_struct.Memory.Chain.{write-ne, write_self}
use linux_kernel_struct.Bpt.Tree.SplitNode.{NodeSplit-used, split_full_node-NodeSplit}
use linux_kernel_struct.Bpt.Tree.Parent.{
  length-forest_keys, bpt_insert_into_parent_node-Holds, IsInner,
}
use linux_kernel_struct.Bpt.Tree.Grow.{Absorbed, Propagated, Outcome, bpt_insert_into_parent-step}

Stored-IsInner :
    (m : Memory Node5) (order up stop p : ℕ) (n : Node5) (f : Forest)
    → Stored m order up stop (node p n f)
    → IsInner order up n
Stored-IsInner m order up stop p n f s = record {
  is_leaf = s.2;
  parent = s.3;
  arrays = record { keys_cap = s.4; pointers_cap = s.5 };
  room = s.6;
}

module _ (e : Env) (o : IsTotalOrder e) (btree : Btree) (x : Ptr × Ptr) (m : Memory Node5)
    (run : Run (Memory Node5) Ptr) (rounds supply : ℕ) where
  -- A node whose children have absorbed the entry.
  node-absorbs :
      (up stop p : Ptr) (n : Node5) (f : Forest)
      → Stored m btree.order up stop (node p n f)
      → Apart (node p n f)
      → Absorbed e o btree x m run rounds supply p stop f
      → Absorbed e o btree x m run rounds supply up stop (last (node p n f))
  node-absorbs up stop p n f s apart h =
      let (held, kids) = Children-Holds m btree.order p stop n 0 f s.7 in
      let size : count h.forest ≡ count f =
        sym (length-forest_keys h.forest) ∙ ap length h.keys ∙ length-forest_keys f in
      record {
        heap = h.heap;
        forest = last (node p n h.forest);
        grown =
            inner-Grown e o m h.heap btree.order up stop x p n f h.forest s apart h.grown h.heap n
              (at_node e o m h.heap btree.order up stop x p n f h.forest s apart h.grown)
              (λ q ne. refl)
              (record {
                num_keys = omega (arith, size, held.num_keys);
                keys = rw (size, h.keys) held.keys;
                pointers = rw (size, h.addresses) held.pointers;
              })
              (Stored-IsInner m btree.order up stop p n f s);
        keys = refl;
        addresses = refl;
        nodes_left = h.nodes_left;
        nodes_enough = omega (arith, h.nodes_enough);
        ready = h.ready;
        ends = h.ends;
      }

  -- The round at a node whose child was split.
  node-goes_on :
      (r : ℕ) (up stop p : Ptr) (n : Node5) (f : Forest)
      → Stored m btree.order up stop (node p n f)
      → Apart (node p n f)
      → (h : Propagated e o btree x m run rounds supply p stop f) → h.rounds_left ≡ suc r
      → run ≡ (
          if ltb n.num_keys (btree.order - 1)
          then bpt_insert_into_parent_node btree.root p (length h.put.us) h.key h.right h.heap
          else and_then
              (split_full_node e btree p (length h.put.us) h.key h.right h.heap)
              (λ (s : Ptr × Ptr). bpt_insert_into_parent e r btree p s.0 s.1))
  node-goes_on r up stop p n f s apart h fuel =
      let (held, kids) = Children-Holds m btree.order p stop n 0 f s.7 in
      h.goes_on
      ∙ ap (λ z. bpt_insert_into_parent e z btree h.child h.key h.right h.heap) fuel
      ∙ bpt_insert_into_parent-step e r btree h.heap p n h.child_node f h.forest h.child h.key
          h.right h.put held h.not_null h.at_child h.parent s.0
          (at_node e o m h.heap btree.order up stop x p n f h.forest s apart h.grown)
          (omega (arith, s.5, s.6))

  -- With room it ends there.
  node-has_room :
      (r : ℕ) (up stop p : Ptr) (n : Node5) (f : Forest)
      → Stored m btree.order up stop (node p n f)
      → Apart (node p n f)
      → (h : Propagated e o btree x m run rounds supply p stop f) → h.rounds_left ≡ suc r
      → ltb n.num_keys (btree.order - 1) ≡ true
      → Absorbed e o btree x m run rounds supply up stop (last (node p n f))
  node-has_room r up stop p n f s apart h fuel room =
      let (held, kids) = Children-Holds m btree.order p stop n 0 f s.7 in
      let at_p = at_node e o m h.heap btree.order up stop x p n f h.forest s apart h.grown in
      let goes_on = node-goes_on r up stop p n f s apart h fuel in
      let (n', ends, held', inner) =
        bpt_insert_into_parent_node-Holds f h.forest h.child h.key h.right h.put n held h.heap
          btree.root p btree.order up s.0 at_p (Stored-IsInner m btree.order up stop p n f s)
          (omega (arith, ltb→lt n.num_keys (btree.order - 1) room)) in
      record {
        heap = written h.heap p n';
        forest = last (node p n' h.forest);
        grown =
            inner-Grown e o m h.heap btree.order up stop x p n f h.forest s apart h.grown
              (written h.heap p n') n' (write_self h.heap.cells p (some n'))
              (λ q ne. write-ne h.heap.cells p q (some n') ne) held' inner;
        keys = refl;
        addresses = refl;
        nodes_left = h.nodes_left;
        nodes_enough = omega (arith, h.nodes_enough);
        ready =
            Ready-keep h.nodes_left h.heap (written h.heap p n') h.ready refl
              (written-used h.heap p n n' at_p);
        ends = (rw room at goes_on) ∙ ends;
      }

  -- Without room the node is split, and the insertion goes on at its parent.
  node-is_full :
      (r k : ℕ) (up stop p : Ptr) (n : Node5) (f : Forest)
      → 2 ≤ btree.order
      → Stored m btree.order up stop (node p n f)
      → Apart (node p n f)
      → (h : Propagated e o btree x m run rounds supply p stop f) → h.rounds_left ≡ suc r
      → h.nodes_left ≡ suc k
      → ltb n.num_keys (btree.order - 1) ≡ false
      → Propagated e o btree x m run rounds supply up stop (last (node p n f))
  node-is_full r k up stop p n f o2 s apart h fuel stock full =
      let (held, kids) = Children-Holds m btree.order p stop n 0 f s.7 in
      let at_p = at_node e o m h.heap btree.order up stop x p n f h.forest s apart h.grown in
      let goes_on = node-goes_on r up stop p n f s apart h fuel in
      let (a, b, d, rest, has_supply, next) =
        Ready-next k h.heap (subst (λ z. Ready z h.heap) stock h.ready) in
      let (g, kp, A, B, l, u, splits, split) =
        split_full_node-NodeSplit e btree h.heap p n f h.forest h.child h.key h.right h.put up stop
          a b d rest held has_supply s.0 at_p (Stored-IsInner m btree.order up stop p n f s)
          (omega (arith, full_lem full, s.6)) o2 h.grown.kids h.grown.apart
          (outside e o m h.heap btree.order up stop x p n f h.forest s apart h.grown) in
      let grown =
        parted-Grown e o m h.heap btree.order up stop x p n f h.forest s apart h.grown g a kp rest A
          B l u has_supply.unused has_supply.node split in
      record {
        heap = g;
        forest = parted p a kp A B l u;
        grown = grown;
        child = p;
        key = kp;
        right = a;
        put = record {
          xs = [];
          ys = [];
          us = [];
          vs = [];
          old_keys = refl;
          new_keys = refl;
          old_roots = refl;
          new_roots = refl;
          same_place = refl;
          before = refl;
          inside = or_left (p == p) (forest_has_node p f) (eq→== p p refl);
        };
        child_node = l;
        not_null = s.0;
        at_child = split.lower;
        parent = split.lower_inner.parent;
        rounds_left = r;
        rounds_enough = omega (arith, h.rounds_enough, fuel);
        nodes_left = k;
        nodes_enough = omega (arith, h.nodes_enough, stock);
        ready = next g split.supply (
            NodeSplit-used btree.order h.heap g p a up stop rest h.forest kp A B l u n h.grown.kids
              at_p split);
        goes_on = (rw (full, splits) at goes_on);
      }
    where
      full_lem : ltb n.num_keys (btree.order - 1) ≡ false → btree.order - 1 ≤ n.num_keys
      full_lem q = ground arith

  -- A node of a tree, from its children.
  pub node-Outcome :
      (up stop p : Ptr) (n : Node5) (f : Forest)
      → 2 ≤ btree.order
      → Stored m btree.order up stop (node p n f)
      → Apart (node p n f)
      → forest_height f < rounds
      → forest_height f < supply
      → Outcome e o btree x m run rounds supply p stop f
      → Outcome e o btree x m run rounds supply up stop (last (node p n f))
  node-Outcome up stop p n f o2 s apart fuel stock (inl h) =
      inl (node-absorbs up stop p n f s apart h)
  node-Outcome up stop p n f o2 s apart fuel stock (inr h) =
      let r = h.rounds_left - 1 in
      let k = h.nodes_left - 1 in
      let some_round : h.rounds_left ≡ suc r = omega (arith, h.rounds_enough) in
      let some_node : h.nodes_left ≡ suc k = omega (arith, h.nodes_enough) in
      elim (Bool-cases (ltb n.num_keys (btree.order - 1))) [
        | inl room ↦ inl (node-has_room r up stop p n f s apart h some_round room)
        | inr full ↦ inr (node-is_full r k up stop p n f o2 s apart h some_round some_node full)
      ]
