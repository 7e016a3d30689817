-- ===== src/Bpt/Insert/Full.antt =====
-- The insertion into a full leaf of btree/bpt3.c: the leaf and a new one, in the heap.
use linux_kernel_struct.Common.{
  false, ℕ, ◌+◌, ◌-◌, ◌≤◌, ◌≡◌, refl, sym, ap, ◌∙◌, ◌≢◌, Bool, true, some, List, ◌∷◌, arith,
}
use mathlib.Core.Path.{subst}
use linux_kernel_struct.Memory.{Ptr, null, Memory, Returns, write}
use linux_kernel_struct.Memory.Laws.{load-ok}
use linux_kernel_struct.Memory.Chain.{write_self, write-ne}
use linux_kernel_struct.Arrays.Loops.{get-ok}
use linux_kernel_struct.Bpt.{false, Env, Node5, Btree, new_node}
use linux_kernel_struct.Bpt.Alloc.{HasSupply, bpt_make_leaf-ok, with_leaf}
use linux_kernel_struct.Bpt.Order.{IsPlace, insert_index_from_zero}
use linux_kernel_struct.Bpt.Split.{Halves}
use linux_kernel_struct.Bpt.Split.Leaf.{HasOrder, IsLeafSplit, split_leaf-IsLeafSplit}
use linux_kernel_struct.Bpt.Insert.{split_full_leaf}

-- What the split of the leaf `n` at `leaf` leaves: two nodes, at `leaf` and at `a`, that share the
-- entries, and every other node as it was.
pub record SplitInto (e : Env) (btree : Btree) (m g : Memory Node5) (leaf a : Ptr) (n : Node5)
    (key item new_key : Ptr) (h : Halves) (idx : ℕ) : Type 0 where
  pub place : IsPlace e n.keys.at key 0 n.num_keys idx
  pub split : IsLeafSplit btree.order n (new_node e btree.order true) a idx key item h
  pub leaf_cell : g.cells leaf ≡ some h.left
  pub new_cell : g.cells a ≡ some h.right
  pub supply : (b c : Ptr) × (m.supply ≡ a ∷ b ∷ c ∷ g.supply)
  pub separator : new_key ≡ h.right.keys.at 0
  pub same : (p : Ptr) → p ≢ leaf → p ≢ a → g.cells p ≡ m.cells p

pub new_node-HasOrder :
    (e : Env) (order : ℕ) (b : Bool) → 1 ≤ order → HasOrder order (new_node e order b)
new_node-HasOrder e order b h = record { keys_cap = omega arith; pointers_cap = refl }

-- A full leaf is split: the new entry stands at its place among the old ones over the two leaves.
pub split_full_leaf-SplitInto :
    (e : Env) (btree : Btree) (m : Memory Node5) (leaf : Ptr) (n : Node5) (key item : Ptr)
    (a b c : Ptr) (rest : List Ptr)
    → HasSupply m a b c rest
    → leaf ≢ null
    → m.cells leaf ≡ some n
    → 2 ≤ btree.order
    → HasOrder btree.order n
    → n.num_keys + 1 ≡ btree.order
    → Returns
        (λ r g.
          (r.1 ≡ a)
          × ((h : Halves) × (idx : ℕ) × SplitInto e btree m g leaf a n key item r.0 h idx))
        (split_full_leaf e btree leaf key item m)
unfolding split_full_leaf
split_full_leaf-SplitInto e btree m leaf n key item a b c rest s ne hl o2 hn full =
    let new = new_node e btree.order true in
    let old_cells = write m.cells a (some (new_node e btree.order false)) in
    let leaf_ne_a : leaf ≢ a = λ q. cc (sym hl ∙ ap m.cells q ∙ s.unused) in
    let m1 = with_leaf e btree m s in
    let at_leaf : m1.cells leaf ≡ some n =
      write-ne old_cells a leaf (some new) leaf_ne_a
      ∙ write-ne m.cells a leaf (some (new_node e btree.order false)) leaf_ne_a
      ∙ hl in
    let at_new : m1.cells a ≡ some new = write_self old_cells a (some new) in
    let cap : n.num_keys ≡ btree.order - 1 = omega arith in
    let (idx, eq, p) =
      insert_index_from_zero e key n.keys (btree.order - 1) m1 (omega (arith, hn.keys_cap)) in
    let (h, eh, sp) =
      split_leaf-IsLeafSplit e btree.order n new a idx key item o2 hn
        (new_node-HasOrder e btree.order true (omega arith)) full (omega (arith, p.within)) in
    rw
      (
        bpt_make_leaf-ok e btree m s,
        load-ok m1 leaf n ne at_leaf,
        load-ok m1 a new s.node at_new,
        eq,
        eh,
        get-ok h.right.keys 0 (omega (arith, sp.right_order.keys_cap)),
      )
      (
        refl,
        (
          h,
          idx,
          record {
            place = subst (λ t. IsPlace e n.keys.at key 0 t idx) (sym cap) p;
            split = sp;
            leaf_cell =
                write-ne (write m1.cells leaf (some h.left)) a leaf (some h.right) leaf_ne_a
                ∙ write_self m1.cells leaf (some h.left);
            new_cell = write_self (write m1.cells leaf (some h.left)) a (some h.right);
            supply = (b, c, s.supply);
            separator = refl;
            same = λ q ql qa.
                write-ne (write m1.cells leaf (some h.left)) a q (some h.right) qa
                ∙ write-ne m1.cells leaf q (some h.left) ql
                ∙ write-ne old_cells a q (some new) qa
                ∙ write-ne m.cells a q (some (new_node e btree.order false)) qa;
          },
        ),
      )
