-- ===== src/Bpt/Tree/SplitNode.antt =====
-- The split of a full internal node of btree/bpt3.c in the heap: two nodes, and the children of the
-- new one with it as their parent.
use linux_kernel_struct.Common.{
  eq→==, ==_iff, ◌==◌, ℕ, suc, ◌+◌, ◌≤◌, ◌≡◌, ◌≢◌, refl, sym, ap, ◌∙◌, true, false, some, none,
  List, arith, length, Bool-cases, inl, inr,
}
use mathlib.Core.Path.{subst}
use linux_kernel_struct.Memory.{write, Ptr, null, Memory, ok}
use linux_kernel_struct.Memory.Laws.{load-ok}
use linux_kernel_struct.Memory.Chain.{write_self, write-ne}
use linux_kernel_struct.Bpt.{Node5, Btree, Env, new_node}
use linux_kernel_struct.Bpt.Alloc.{HasSupply, bpt_make_node-ok}
use linux_kernel_struct.Bpt.Insert.{set_parents, split_full_node}
use linux_kernel_struct.Bpt.Insert.Full.{new_node-HasOrder}
use linux_kernel_struct.Bpt.Split.Node.{split_node-IsNodeSplit}
use linux_kernel_struct.Bpt.Tree.{Forest, forest_has_node, ApartForest}
use linux_kernel_struct.Bpt.Tree.Replace.{written, or_false}
use linux_kernel_struct.Bpt.Tree.Kids.{count, Holds, Kids, Kids-same, forest_has_node-used}
use linux_kernel_struct.Bpt.Tree.Join
use linux_kernel_struct.Bpt.Tree.Reparent.{reparent_all, set_parents_lem}
use linux_kernel_struct.Bpt.Tree.PutIn.{PutIn}
use linux_kernel_struct.Bpt.Tree.Parent.{IsInner, IsNodeSplit-Holds, place_within}

-- The node at `p` with the children `F` has become the nodes at `p` and at `a`.
pub record NodeSplit (order : ℕ) (m g : Memory Node5) (p a up stop : Ptr) (rest : List Ptr)
    (F : Forest) (kp : Ptr) (A B : Forest) (l u : Node5) : Type 0 where
  pub parts : F ≡ Join.forest_join A kp B
  pub supply : g.supply ≡ rest
  pub lower : g.cells p ≡ some l
  pub upper : g.cells a ≡ some u
  pub lower_inner : IsInner order up l
  pub upper_inner : IsInner order up u
  pub lower_holds : Holds l 0 A
  pub upper_holds : Holds u 0 B
  pub kids : Kids g order a stop (reparent_all a B)
  pub same : (q : Ptr) → q ≢ p → q ≢ a → forest_has_node q B ≡ false → g.cells q ≡ m.cells q

pub not_used :
    (m : Memory Node5) (order up stop a : ℕ) (f : Forest)
    → Kids m order up stop f
    → m.cells a ≡ none
    → forest_has_node a f ≡ false
not_used m order up stop a f kids unused = elim (Bool-cases (forest_has_node a f)) [
  | inl hit ↦ let (n, cell) = forest_has_node-used m order up stop f a kids hit in absurd (cc)
  | inr miss ↦ miss
]

-- Both nodes written, and the loop over the children of the new one.
move-NodeSplit :
    (e : Env) (order : ℕ) (m m1 : Memory Node5) (p a up stop : Ptr) (rest : List Ptr) (F : Forest)
    (kp : Ptr) (A B : Forest) (l u : Node5)
    → F ≡ Join.forest_join A kp B
    → m1.supply ≡ rest
    → ((q : Ptr) → q ≢ p → q ≢ a → m1.cells q ≡ m.cells q)
    → m1.cells p ≡ some l
    → m1.cells a ≡ some u
    → IsInner order up l
    → IsInner order up u
    → Holds l 0 A
    → Holds u 0 B
    → Kids m order p stop F
    → ApartForest F
    → forest_has_node p F ≡ false
    → m.cells a ≡ none
    → (g : Memory Node5) × (set_parents (u.num_keys + 1) 0 u.pointers a m1 ≡ ok tt g)
      × NodeSplit order m g p a up stop rest F kp A B l u
move-NodeSplit e order m m1 p a up stop rest F kp A B l u parts supply other at_p at_a il iu hl hu
      kids apart p_out unused =
    let (ka, kb) = Join.Kids-cut kp B m order p stop A (rw parts at kids) in
    let (aa, ab, disjoint) = Join.Apart-cut kp B A (rw parts at apart) in
    let p_out_b : forest_has_node p B ≡ false =
      (or_false (forest_has_node p A) (forest_has_node p B)
        (sym (Join.has_node-join kp B p A) ∙ ap (forest_has_node p) (sym parts) ∙ p_out)).1 in
    let a_out_b = not_used m order p stop a B kb unused in
    let kept : (q : Ptr) → forest_has_node q B ≡ true → m1.cells q ≡ m.cells q = λ q i.
      other q (λ s. cc (ap (λ z. forest_has_node z B) s, p_out_b, i))
        (λ s. cc (ap (λ z. forest_has_node z B) s, a_out_b, i)) in
    let count_eq : suc (count B) ≡ u.num_keys + 1 = omega (arith, hu.num_keys) in
    let (g, run, (sup, kids', same)) =
      set_parents_lem e m1 order p stop a B 0 u.pointers hu.pointers
        (omega (arith, iu.room, iu.arrays.pointers_cap, hu.num_keys))
        (Kids-same m m1 order p stop B kept kb) ab in
    (
      g,
      ap (λ z. set_parents z 0 u.pointers a m1) (sym count_eq) ∙ run,
      record {
        parts = parts;
        supply = sup ∙ supply;
        lower = same p p_out_b ∙ at_p;
        upper = same a a_out_b ∙ at_a;
        lower_inner = il;
        upper_inner = iu;
        lower_holds = hl;
        upper_holds = hu;
        kids = kids';
        same = λ q qp qa out. same q out ∙ other q qp qa;
      },
    )

pub split_full_node-NodeSplit :
    (e : Env) (btree : Btree) (m : Memory Node5) (p : Ptr) (n : Node5) (f F : Forest) (c k r : Ptr)
    (put : PutIn f F c k r) (up stop a b d : Ptr) (rest : List Ptr)
    → Holds n 0 f
    → HasSupply m a b d rest
    → p ≢ null
    → m.cells p ≡ some n
    → IsInner btree.order up n
    → n.num_keys + 1 ≡ btree.order
    → 2 ≤ btree.order
    → Kids m btree.order p stop F
    → ApartForest F
    → forest_has_node p F ≡ false
    → (g : Memory Node5) × (kp : Ptr) × (A B : Forest) × (l u : Node5) × (split_full_node e btree p
          (length put.us)
          k
          r
          m
        ≡ ok (kp, a) g)
      × NodeSplit btree.order m g p a up stop rest F kp A B l u
unfolding split_full_node
split_full_node-NodeSplit e btree m p n f F c k r put up stop a b d rest held s ne cell inner full
      o2 kids apart p_out =
    let order = btree.order in
    let new = new_node e order false in
    let p_ne_a : p ≢ a = λ q. cc (ap m.cells q, cell, s.unused) in
    let m1 : Memory Node5 = record m { supply = rest; cells = write m.cells a (some new) } in
    let (h, kp, eh, ek, sp) =
      split_node-IsNodeSplit e order n new (length put.us) k r o2 inner.arrays
        (new_node-HasOrder e order false (omega arith)) full (place_within f F c k r put n held) in
    let (A, B, parts, hl, hu) = IsNodeSplit-Holds f F c k r put n held order new kp h sp in
    let m2 = written (written m1 p h.left) a h.right in
    let (g, run, split) =
      move-NodeSplit e order m m2 p a up stop rest F kp A B h.left h.right parts refl
        (λ q qp qa.
          write-ne (write m1.cells p (some h.left)) a q (some h.right) qa
          ∙ write-ne m1.cells p q (some h.left) qp
          ∙ write-ne m.cells a q (some new) qa)
        (write-ne (write m1.cells p (some h.left)) a p (some h.right) p_ne_a
          ∙ write_self m1.cells p (some h.left))
        (write_self (write m1.cells p (some h.left)) a (some h.right))
        (record {
          is_leaf = sp.kinds.0 ∙ inner.is_leaf;
          parent = sp.parents.0 ∙ inner.parent;
          arrays = sp.left_order;
          room = omega (arith, sp.right_size);
        })
        (record {
          is_leaf = sp.kinds.1;
          parent = sp.parents.1 ∙ inner.parent;
          arrays = sp.right_order;
          room = omega (arith, sp.right_size);
        })
        hl hu kids apart p_out s.unused in
    rw
      (
        load-ok m p n ne cell,
        bpt_make_node-ok e btree m s,
        load-ok m1 a new s.node (write_self m.cells a (some new)),
        eh,
        ek,
      )
      (g, kp, A, B, h.left, h.right, rw run refl, split)

-- Nothing but the new node has come into use.
pub NodeSplit-used :
    (order : ℕ) (m g : Memory Node5) (p a up stop : Ptr) (rest : List Ptr) (F : Forest) (kp : Ptr)
    (A B : Forest) (l u n : Node5)
    → Kids m order p stop F
    → m.cells p ≡ some n
    → NodeSplit order m g p a up stop rest F kp A B l u
    → (q : Ptr) (c : Node5) → q ≢ a
    → g.cells q ≡ some c
    → (c' : Node5) × (m.cells q ≡ some c')
NodeSplit-used order m g p a up stop rest F kp A B l u n kids cell split q c qa now =
    elim (Bool-cases (q == p)) [
      | inl hit ↦ (n, rw ((==_iff q p).0 hit) cell)
      | inr miss ↦ elim (Bool-cases (forest_has_node q B)) [
        | inl in_b ↦
            forest_has_node-used m order p stop B q
              (Join.Kids-cut kp B m order p stop A (subst (Kids m order p stop) split.parts kids)).1
              in_b
        | inr out ↦ (c, sym (split.same q (λ same. cc (miss, eq→== q p same)) qa out) ∙ now)
      ]
    ]
