-- ===== src/Bpt/Tree/Insertion.antt =====
-- bpt_insert of btree/bpt3.c on a whole tree: a leaf with room, or splits up to a new root.
use linux_kernel_struct.Common.{
  Option-cases, true, none, some, ap₂, ap, ◌-◌, ◌≡◌, ◌≡◌, ◌≡◌, ◌≡◌, ◌≡◌, ◌≡◌, ◌≡◌, ◌≡◌, ◌≡◌, ◌≡◌,
  ◌≡◌, ◌≡◌, ◌≡◌, ◌≡◌, ◌≡◌, ◌≡◌, ◌≡◌, ◌≡◌, ◌≡◌, ◌≡◌, ◌≡◌, ◌≡◌, ◌≡◌, ◌≡◌, ==_iff, eq→==, ◌≡◌, ℕ, suc,
  ◌+◌, ◌≤◌, ◌≡◌, refl, sym, ◌∙◌, false, List, [], ◌∷◌, arith, Bool-cases, inl, inr, ◌==◌,
}
use mathlib.Core.Path.{subst}
use linux_kernel_struct.Memory.{null, Run, Ptr, Memory, Returns-value}
use linux_kernel_struct.Bpt.{none, true, some, null, ok, Node5, Btree, Env, is_eq}
use linux_kernel_struct.Bpt.Insert.{
  bpt_insert_into_new_root, split_full_leaf, bpt_insert_into_parent,
  bpt_insert_into_leaf_after_splitting,
}
use linux_kernel_struct.Bpt.Insert.Full.{SplitInto, split_full_leaf-SplitInto}
use linux_kernel_struct.Bpt.Tree
use linux_kernel_struct.Bpt.Tree.{
  forest_has_node, has_node, Tree, leaf, Forest, last, more, node, Stored, IsTotalOrder, AllKeys,
  leaf_of, leaf_entries, entries, height, Inserted, forest_height,
}
use linux_kernel_struct.Bpt.Tree.Insert.{IsTree}
use linux_kernel_struct.Bpt.Tree.Rising.{Proper}
use linux_kernel_struct.Bpt.Tree.Ready.{Ready, Ready-next}
use linux_kernel_struct.Bpt.Tree.Grow.{Absorbed, Propagated}
use linux_kernel_struct.Bpt.Tree.Grow.Climb.{tree-Outcome}
use linux_kernel_struct.Bpt.Tree.Proper.{leaf_of-AllKeys}
use linux_kernel_struct.Bpt.Tree.Reparent.{reparent_all-Alike, reparent_all}
use linux_kernel_struct.Bpt.Tree.Grown.{or_cases, Grown}
use linux_kernel_struct.Bpt.Tree.Kids.{forest_has_node-used, cons-parts, roots, forest_keys}
use linux_kernel_struct.Bpt.Tree.NewRoot.{new_root-Stored, PutIn-two}
use linux_kernel_struct.Bpt.Split.{Halves}
use linux_kernel_struct.Memory.Laws.{load-ok}
use linux_kernel_struct.Bpt.Tree.SplitLeaf.{split-Grown}

module _ (e : Env) (o : IsTotalOrder e) (btree : Btree) (key item : Ptr) (m : Memory Node5)
    (rounds supply : ℕ) (o2 : 2 ≤ btree.order) where
  -- The split of the leaf, where the insertion begins.
  leaf-Propagated :
      (up stop p : Ptr) (n : Node5)
      → 1 ≤ supply
      → Ready supply m
      → Stored m btree.order up stop (leaf p n)
      → Proper e (leaf p n)
      → n.num_keys + 1 ≡ btree.order
      → AllKeys (λ y. is_eq (e.compare key y) ≡ false) (leaf_entries n)
      → Propagated e o btree
          (key, item)
          m
          (bpt_insert_into_leaf_after_splitting e rounds btree p key item m)
          rounds
          supply
          up
          stop
          (last (leaf p n))
  unfolding bpt_insert_into_leaf_after_splitting
  leaf-Propagated up stop p n some_left stock s proper full fresh =
      let k = supply - 1 in
      let (a, b, d, rest, has_supply, next) =
        Ready-next k m (subst (λ z. Ready z m) (omega arith) stock) in
      let Split : Ptr × Ptr → Memory Node5 → Type 0 = λ r g.
        (r.1 ≡ a) × ((h : Halves) × (idx : ℕ) × SplitInto e btree m g p a n key item r.0 h idx) in
      let ((new_key, a'), g, run, (a_eq, (h, idx, sp))) =
        Returns-value Split (split_full_leaf e btree p key item m) (
          split_full_leaf-SplitInto e btree m p n key item a b d rest has_supply s.0 s.1 o2
            (record { keys_cap = s.4; pointers_cap = s.5 }) full) in
      record {
        heap = g;
        forest = more (leaf p h.left) new_key (last (leaf a h.right));
        grown =
            split-Grown e o btree m g p a n key item new_key h idx up stop o2 s proper.1 fresh
              has_supply.node has_supply.unused sp;
        child = p;
        key = new_key;
        right = a;
        put = record {
          xs = [];
          ys = [];
          us = [];
          vs = [];
          old_keys = refl;
          new_keys = refl;
          old_roots = refl;
          new_roots = refl;
          same_place = refl;
          before = refl;
          inside = eq→== p p refl;
        };
        child_node = h.left;
        not_null = s.0;
        at_child = sp.leaf_cell;
        parent = sp.split.parents.0 ∙ s.3;
        rounds_left = rounds;
        rounds_enough = omega arith;
        nodes_left = k;
        nodes_enough = omega arith;
        ready =
            next g (let (b', c', both) = sp.supply in supplies both has_supply.supply)
              (λ q c qa now. elim (Bool-cases (q == p)) [
                | inl hit ↦ (n, rw ((==_iff q p).0 hit) s.1)
                | inr miss ↦ (c, sym (sp.same q (λ same. cc (miss, eq→== q p same)) qa) ∙ now)
              ]);
        goes_on = rw (run, a_eq) refl;
      }
    where
      supplies :
          {a b c b' c' : Ptr} {l rest rest' : List Ptr}
          → l ≡ a ∷ b' ∷ c' ∷ rest'
          → l ≡ a ∷ b ∷ c ∷ rest
          → rest' ≡ rest
      supplies h h' = cc

  -- A tree with one entry more, at most one level higher.
  pub record Result (t : Tree) (g : Memory Node5) (root' : Ptr) : Type 0 where
    pub tree : Tree
    pub is_tree : IsTree e g (record btree { root = root' }) tree
    pub proper : Proper e tree
    pub entries : Inserted (key, item) (Tree.entries t) (Tree.entries tree)
    pub height : Tree.height tree ≤ Tree.height t + 1
    pub nodes : (q : Ptr) → has_node q tree ≡ true → has_node q t ≡ false → m.cells q ≡ none
    pub same :
        (q : Ptr) (n : Node5) → has_node q t ≡ false → m.cells q ≡ some n → g.cells q ≡ some n
    pub nodes_left : ℕ
    pub nodes_enough : supply ≤ nodes_left + Tree.height t + 1
    pub ready : Ready nodes_left g

  -- The split of the root: a new one above its two parts.
  grow_root :
      (t : Tree) (run : Run (Memory Node5) Ptr)
      → height t ≤ rounds
      → height t + 1 ≤ supply
      → Propagated e o btree (key, item) m run rounds supply null null (last t)
      → (root' : Ptr) × (g : Memory Node5) × (run ≡ ok root' g) × Result t g root'
  unfolding bpt_insert_into_parent
  grow_root t run fuel enough h =
      let r = h.rounds_left - 1 in
      let some_round : h.rounds_left ≡ suc r = omega (arith, h.rounds_enough) in
      let k = h.nodes_left - 1 in
      let some_node : h.nodes_left ≡ suc k = omega (arith, h.nodes_enough) in
      let (b, c, d, rest, has_supply, next) =
        Ready-next k h.heap (subst (λ z. Ready z h.heap) some_node h.ready) in
      let (l, u, two, at_l, at_u) = PutIn-two t h.forest h.child h.key h.right h.put in
      let grown : Grown e m h.heap btree.order null null (key, item) (last t)
          (more l h.key (last u)) =
        subst (Grown e m h.heap btree.order null null (key, item) (last t)) two h.grown in
      let (g, n, made, stored, apart, left_over, same) =
        new_root-Stored e btree h.heap l u h.key b c d rest has_supply o2 grown.kids grown.apart in
      let like = reparent_all-Alike e b (more l h.key (last u)) in
      let step : bpt_insert_into_parent e (suc r) btree h.child h.key h.right h.heap
          ≡ bpt_insert_into_new_root e btree h.child h.key h.right h.heap =
        rw
          (
            load-ok h.heap h.child h.child_node h.not_null h.at_child,
            eq→== h.child_node.parent null h.parent,
          )
          refl in
      (
        b,
        g,
        h.goes_on
            ∙ ap (λ z. bpt_insert_into_parent e z btree h.child h.key h.right h.heap) some_round
            ∙ step
            ∙ ap₂ (λ y z. bpt_insert_into_new_root e btree y h.key z h.heap) (sym at_l) (sym at_u)
            ∙ made,
        record {
          tree = node b n (reparent_all b (more l h.key (last u)));
          is_tree = record {
            stored = stored;
            ordered = like.ordered grown.ordered;
            apart = apart;
            root = refl;
          };
          proper = like.proper grown.proper;
          entries = rw like.entries grown.entries;
          height = grown_height l u b h.key like.height grown.height;
          nodes = λ q i out. elim (Bool-cases (q == b)) [
            | inl hit ↦ rw ((==_iff q b).0 hit) (free_before grown.used b has_supply.unused)
            | inr miss ↦
                grown.nodes q
                  (sym (like.has_node q)
                    ∙ or_cases (q == b) (forest_has_node q (reparent_all b (more l h.key (last u))))
                        i miss)
                  out
          ];
          same = λ q c out old.
              let now = grown.same q c out old in
              same q (λ eq. cc (ap h.heap.cells eq, has_supply.unused, now))
                (untouched q (more l h.key (last u)) (λ i. cc (grown.nodes q i out, old)))
              ∙ now;
          nodes_left = k;
          nodes_enough = omega (arith, h.nodes_enough, some_node);
          ready = next g left_over (λ q c qb now.
              elim (Bool-cases (forest_has_node q (more l h.key (last u)))) [
                | inl hit ↦
                    forest_has_node-used h.heap btree.order null null (more l h.key (last u)) q
                      grown.kids hit
                | inr out ↦ (c, sym (same q qb out) ∙ now)
              ]);
        },
      )
    where
      free_before :
          ((q : Ptr) (n : Node5) → m.cells q ≡ some n → (n' : Node5) × (h.heap.cells q ≡ some n'))
          → (b : Ptr) → h.heap.cells b ≡ none
          → m.cells b ≡ none
      free_before used b free = elim (Option-cases (m.cells b)) [
        | inl unused ↦ unused
        | inr (c, taken) ↦ let (c', now) = used b c taken in absurd (cc free)
      ]

      untouched :
          (q : Ptr) (F : Forest) → ¬ (forest_has_node q F ≡ true) → forest_has_node q F ≡ false
      untouched q F h = elim (Bool-cases (forest_has_node q F)) [
        | inl hit ↦ absurd (h hit)
        | inr out ↦ out
      ]

      grown_height :
          (l u : Tree) (b k : Ptr)
          → forest_height (reparent_all b (more l k (last u))) ≡ forest_height (more l k (last u))
          → forest_height (more l k (last u)) ≤ height t
          → suc (forest_height (reparent_all b (more l k (last u)))) ≤ height t + 1
      grown_height l u b k same le = omega (arith, same)

  -- The insertion ended below the root.
  keep_root :
      (t : Tree) (run : Run (Memory Node5) Ptr)
      → btree.root ≡ Tree.root t
      → Absorbed e o btree (key, item) m run rounds supply null null (last t)
      → (root' : Ptr) × (g : Memory Node5) × (run ≡ ok root' g) × Result t g root'
  keep_root t run at_root h = kept h.forest h.grown h.keys h.addresses
    where
      kept :
          (F : Forest)
          → Grown e m h.heap btree.order null null (key, item) (last t) F
          → forest_keys F ≡ []
          → roots F ≡ Tree.root t ∷ []
          → (root' : Ptr) × (g : Memory Node5) × (run ≡ ok root' g) × Result t g root'
      kept (more l k f) grown ks rs = absurd (cc ks)
      kept (last t') grown ks rs = (
        btree.root,
        h.heap,
        h.ends,
        record {
          tree = t';
          is_tree = record {
            stored = grown.kids;
            ordered = grown.ordered;
            apart = grown.apart;
            root = at_root ∙ sym (cons-parts (Tree.root t') (Tree.root t) [] [] rs).0;
          };
          proper = grown.proper;
          entries = grown.entries;
          height = omega (arith, grown.height);
          nodes = grown.nodes;
          same = grown.same;
          nodes_left = h.nodes_left;
          nodes_enough = omega (arith, h.nodes_enough);
          ready = h.ready;
        },
      )

  -- A full leaf: with enough rounds and memory the insertion ends, with a tree.
  pub bpt_insert_into_leaf_after_splitting-Result :
      (t : Tree)
      → IsTree e m btree t
      → Proper e t
      → AllKeys (λ y. is_eq (e.compare key y) ≡ false) (entries t)
      → (leaf_of e key t).1.num_keys + 1 ≡ btree.order
      → height t ≤ rounds
      → height t + 1 ≤ supply
      → Ready supply m
      → (root' : Ptr) × (g : Memory Node5) × (bpt_insert_into_leaf_after_splitting e rounds btree
            (leaf_of e key t).0
            key
            item
            m
          ≡ ok root' g)
        × Result t g root'
  bpt_insert_into_leaf_after_splitting-Result t v proper fresh full fuel enough stock =
      let q = leaf_of e key t in
      let run = bpt_insert_into_leaf_after_splitting e rounds btree q.0 key item m in
      let fresh_leaf = leaf_of-AllKeys e key (λ y. is_eq (e.compare key y) ≡ false) t fresh in
      elim (tree-Outcome e o btree (key, item) m run rounds supply o2 q
        (λ up stop p n eq s strict.
          let same_p = ap (λ (z : Ptr × Node5). z.0) eq in
          let same_n = ap (λ (z : Ptr × Node5). z.1) eq in
          subst
            (λ z.
              Propagated e o btree (key, item) m
                (bpt_insert_into_leaf_after_splitting e rounds btree z key item m) rounds supply up
                stop (last (leaf p n)))
            same_p
            (leaf-Propagated up stop p n (omega arith) stock s strict
              (ap (λ (z : Node5). z.num_keys + 1) same_n ∙ full)
              (subst
                (λ (z : Node5). AllKeys (λ y. is_eq (e.compare key y) ≡ false) (leaf_entries z))
                (sym same_n) fresh_leaf)))
        t null null v.stored v.ordered proper v.apart refl fuel (omega arith)) [
          | inl h ↦ keep_root t run v.root h
          | inr h ↦ grow_root t run fuel enough h
        ]
