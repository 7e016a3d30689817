-- ===== src/Bpt/Tree/GrownNode.antt =====
-- From the children of an internal node of btree/bpt3.c that have grown to the node: it has room for
-- the new child, or it becomes two nodes.
pub mod Parted
use linux_kernel_struct.Common.{
  suc, ◌≤◌, ne→==, sym, Bool, ◌||◌, Option-cases, ℕ, ◌≡◌, ◌≢◌, refl, ap, ◌∙◌, true, false, some,
  none, List, ◌==◌, arith, Bool-cases, inl, inr, ==_iff, eq→==,
}
use mathlib.Core.Path.{subst}
use linux_kernel_struct.Memory.{Ptr, null, Memory}
use linux_kernel_struct.Bpt.{suc, Bool, Node5, Env}
use linux_kernel_struct.Bpt.Tree.{
  forest_height, forest_entries, Inserted, forest_first_leaf, OrderedForest, more, ApartForest,
  Forest, last, node, Stored, IsTotalOrder, Apart, forest_has_node,
}
use linux_kernel_struct.Bpt.Tree.Replace.{or_false}
use linux_kernel_struct.Bpt.Tree.Kids.{
  forest_has_node-used, Kids, Holds, Holds-Children, Kids-same, or_right,
}
use linux_kernel_struct.Bpt.Tree.Join
use linux_kernel_struct.Bpt.Tree.Reparent.{reparent_all-Alike, reparent_all}
use linux_kernel_struct.Bpt.Tree.Parent.{IsInner}
use linux_kernel_struct.Bpt.Tree.SplitNode.{NodeSplit, not_used}
use linux_kernel_struct.Bpt.Tree.Rising.{ProperForest}
use linux_kernel_struct.Bpt.Tree.Grown.{Grown, or_cases}

module _ (e : Env) (o : IsTotalOrder e) (m g : Memory Node5) (order up stop : ℕ) (x : Ptr × Ptr)
    (p : Ptr) (n : Node5) (f F : Forest) (stored : Stored m order up stop (node p n f))
    (apart : Apart (node p n f)) (h : Grown e m g order p stop x f F) where
  -- The node itself is none of its descendants, old or new.
  pub outside : forest_has_node p F ≡ false
  outside = elim (Bool-cases (forest_has_node p F)) [
    | inl hit ↦ let gone = h.nodes p hit apart.0 in absurd (cc stored.1)
    | inr miss ↦ miss
  ]

  pub at_node : g.cells p ≡ some n
  at_node = h.same p n apart.0 stored.1

  miss_node : (q : Ptr) → (q == p) ≡ false → q ≢ p
  miss_node q miss same = cc (miss, eq→== q p same)

  pub inner-Grown :
      (g' : Memory Node5) (n' : Node5)
      → g'.cells p ≡ some n'
      → ((q : Ptr) → q ≢ p → g'.cells q ≡ g.cells q)
      → Holds n' 0 F
      → IsInner order up n'
      → Grown e m g' order up stop x (last (node p n f)) (last (node p n' F))
  inner-Grown g' n' cell other held inner =
      let kept : (q : Ptr) → forest_has_node q F ≡ true → g'.cells q ≡ g.cells q =
        λ q i. other q (λ same. cc (outside, i, ap (λ z. forest_has_node z F) same)) in
      record {
        kids = (
          stored.0,
          cell,
          inner.is_leaf,
          inner.parent,
          inner.arrays.keys_cap,
          inner.arrays.pointers_cap,
          inner.room,
          Holds-Children g' order p stop n' 0 F held (Kids-same g g' order p stop F kept h.kids),
        );
        ordered = h.ordered;
        proper = h.proper;
        apart = (outside, h.apart);
        first = h.first;
        entries = h.entries;
        height = omega (arith, h.height);
        nodes = λ q i out.
            let (o1, o2) = or_false (q == p) (forest_has_node q f) out in
            h.nodes q (or_cases (q == p) (forest_has_node q F) i o1) o2;
        same = λ q c out old.
            let (o1, o2) = or_false (q == p) (forest_has_node q f) out in
            other q (miss_node q o1) ∙ h.same q c o2 old;
        used = λ q c old. elim (Bool-cases (q == p)) [
          | inl hit ↦ (n', rw ((==_iff q p).0 hit) cell)
          | inr miss ↦ let (c', now) = h.used q c old in (c', other q (miss_node q miss) ∙ now)
        ];
      }
