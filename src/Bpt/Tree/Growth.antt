-- ===== src/Bpt/Tree/Growth.antt =====
-- bpt_insert of btree/bpt3.c on any tree without the key, and the search after it.
use linux_kernel_struct.Common.{
  none, true, ℕ, ◌+◌, ◌-◌, ◌≤◌, ◌<◌, ◌≡◌, ◌≢◌, refl, sym, ap, ◌∙◌, Bool, false, Option, some, arith,
  Bool-cases, inl, inr, if◌then◌else◌, ◌==◌, ltb, ne→==, ltb→lt,
}
use mathlib.Core.Path.{subst}
use linux_kernel_struct.Int32.{inc}
use linux_kernel_struct.Memory.{Ptr, null, Memory, Returns, Returns-mono, ok}
use linux_kernel_struct.Memory.Laws.{load-ok}
use linux_kernel_struct.Bpt.{none, true, Node5, Btree, Env, is_eq}
use linux_kernel_struct.Bpt.Find.{bpt_search}
use linux_kernel_struct.Bpt.Insert.{bpt_insert, flag_insert}
use linux_kernel_struct.Bpt.Tree
use linux_kernel_struct.Bpt.Tree.{
  has_node, Tree, Entries, Stored, IsTotalOrder, AllKeys, leaf_of, entries, height, Inserted, find,
  or_null,
}
use linux_kernel_struct.Bpt.Tree.Search.{
  AllKeys-mono, bpt_search-find, leaf_of-LeafAt, root-ne_null,
}
use linux_kernel_struct.Bpt.Tree.Insert.{IsTree, bpt_insert-TreeInserted}
use linux_kernel_struct.Bpt.Tree.Rising.{Proper}
use linux_kernel_struct.Bpt.Tree.Ready.{Ready-keep, Ready}
use linux_kernel_struct.Bpt.Tree.Insertion.{bpt_insert_into_leaf_after_splitting-Result}
use linux_kernel_struct.Bpt.Tree.Ascending.{
  put_sorted-Inserted, entries-Rising, Inserted-put_sorted, put_sorted,
}
use linux_kernel_struct.Bpt.Tree.RoundTrip.{find-Inserted, ne_of_eq_ne}

-- No entry has a key that is equal to `key`.
abbrev pub Absent : Env → Ptr → Entries → Type 0
Absent e key = AllKeys (λ y. is_eq (e.compare key y) ≡ false)

-- The handle after an insertion: both counters, but not yet the root.
abbrev pub counted : Btree → ℕ → Btree
counted btree flag = record btree {
  kno = if flag == flag_insert then inc btree.kno else btree.kno;
  kcnt = inc btree.kcnt;
}

-- The tree `t` with one entry more: the caller puts the root that is returned into the handle.
pub record Grew (e : Env) (m : Memory Node5) (supply : ℕ) (btree : Btree) (t : Tree) (x : Ptr × Ptr)
    (root' : Ptr) (g : Memory Node5) : Type 0 where
  pub tree : Tree
  pub is_tree : IsTree e g (record btree { root = root' }) tree
  pub proper : Proper e tree
  pub entries : Tree.entries tree ≡ put_sorted e x (Tree.entries t)
  pub height : Tree.height tree ≤ Tree.height t + 1
  pub nodes : (q : Ptr) → has_node q tree ≡ true → has_node q t ≡ false → m.cells q ≡ none
  pub same : (q : Ptr) (n : Node5) → has_node q t ≡ false → m.cells q ≡ some n → g.cells q ≡ some n
  pub nodes_left : ℕ
  pub nodes_enough : supply ≤ nodes_left + Tree.height t + 1
  pub ready : Ready nodes_left g

full_of : (n order : ℕ) → n < order → ltb n (order - 1) ≡ false → n + 1 ≡ order
full_of n order h full = ground arith

-- The leaf is full.
bpt_insert-full :
    (e : Env) (o : IsTotalOrder e) (rounds supply : ℕ) (btree : Btree) (key item flag : Ptr)
    (m : Memory Node5) (t : Tree)
    → IsTree e m btree t
    → Proper e t
    → 2 ≤ btree.order
    → Absent e key (entries t)
    → height t ≤ rounds
    → height t + 1 ≤ supply
    → Ready supply m
    → ltb (leaf_of e key t).1.num_keys (btree.order - 1) ≡ false
    → Returns
        (λ r g. (r.0 ≡ counted btree flag) × Grew e m supply btree t (key, item) r.1 g)
        (bpt_insert e rounds btree (leaf_of e key t).0 key item flag m)
unfolding bpt_insert
bpt_insert-full e o rounds supply btree key item flag m t v proper o2 fresh fuel enough stock full =
    let (p, n) = leaf_of e key t in
    let (ne, cell, is_leaf, ck, cp, small) =
      leaf_of-LeafAt e key m btree.order null null t v.stored in
    let root_ne : btree.root ≢ null =
      λ q. root-ne_null m btree.order null null t v.stored (sym v.root ∙ q) in
    let (root', g, run, res) =
      bpt_insert_into_leaf_after_splitting-Result e o (counted btree flag) key item m rounds supply
        o2 t (record { stored = v.stored; ordered = v.ordered; apart = v.apart; root = v.root })
        proper fresh (full_of n.num_keys btree.order small full) fuel enough stock in
    rw (ne→== btree.root null root_ne, load-ok m p n ne cell, full, run)
      (
        refl,
        record {
          tree = res.tree;
          is_tree = record {
            stored = res.is_tree.stored;
            ordered = res.is_tree.ordered;
            apart = res.is_tree.apart;
            root = res.is_tree.root;
          };
          proper = res.proper;
          entries =
              Inserted-put_sorted e o (key, item) (entries t) (entries res.tree) res.entries
                (entries-Rising e o res.tree res.is_tree.ordered res.proper);
          height = res.height;
          nodes = res.nodes;
          same = res.same;
          nodes_left = res.nodes_left;
          nodes_enough = res.nodes_enough;
          ready = res.ready;
        },
      )

-- Given memory for a node per level and one more, an insertion of a key that is not there ends without
-- a fault, whatever room the leaf has: it leaves a tree, stored and ordered, at most one level higher,
-- whose entries are the old ones with the new one put in at its place in the order. Every node
-- outside the tree stays as it was, and the new nodes stand where nothing was.
pub bpt_insert-Grew :
    (e : Env) (o : IsTotalOrder e) (rounds supply : ℕ) (btree : Btree) (key item flag : Ptr)
    (m : Memory Node5) (t : Tree)
    → IsTree e m btree t
    → Proper e t
    → 2 ≤ btree.order
    → Absent e key (entries t)
    → height t ≤ rounds
    → height t + 1 ≤ supply
    → Ready supply m
    → Returns
        (λ r g. (r.0 ≡ counted btree flag) × Grew e m supply btree t (key, item) r.1 g)
        (bpt_insert e rounds btree (leaf_of e key t).0 key item flag m)
bpt_insert-Grew e o rounds supply btree key item flag m t v proper o2 fresh fuel enough stock =
    elim (Bool-cases (ltb (leaf_of e key t).1.num_keys (btree.order - 1))) [
      | inl room ↦
          in_leaf (omega (arith, ltb→lt (leaf_of e key t).1.num_keys (btree.order - 1) room))
      | inr full ↦
          bpt_insert-full e o rounds supply btree key item flag m t v proper o2 fresh fuel enough
            stock full
    ]
  where
    in_leaf :
        (leaf_of e key t).1.num_keys + 1 < btree.order
        → Returns
            (λ r g. (r.0 ≡ counted btree flag) × Grew e m supply btree t (key, item) r.1 g)
            (bpt_insert e rounds btree (leaf_of e key t).0 key item flag m)
    in_leaf room =
        Returns-mono _ _ (bpt_insert e rounds btree (leaf_of e key t).0 key item flag m)
          (bpt_insert-TreeInserted e o rounds btree key item flag m t v room)
          (λ r g (same_root, same, (t', k)). (
            same,
            record {
              tree = t';
              is_tree = record {
                stored = k.stored;
                ordered = k.ordered;
                apart = k.apart;
                root = same_root ∙ v.root ∙ sym k.root;
              };
              proper = k.proper proper fresh;
              entries =
                  Inserted-put_sorted e o (key, item) (entries t) (entries t') k.entries
                    (entries-Rising e o t' k.ordered (k.proper proper fresh));
              height = omega (arith, k.height);
              nodes = λ q i out. absurd (cc (k.nodes q, i, out));
              same = λ q n out old. k.same q out ∙ old;
              nodes_left = supply;
              nodes_enough = omega arith;
              ready = Ready-keep supply m g stock k.supply k.used;
            },
          ))

-- After the insertion a search finds the new item under the new key, and under every other key what
-- it found before.
pub bpt_search-Grew :
    (e : Env) (o : IsTotalOrder e) (rounds supply : ℕ) (btree : Btree) (key item flag : Ptr)
    (m : Memory Node5) (t : Tree)
    → IsTree e m btree t
    → Proper e t
    → 2 ≤ btree.order
    → btree.samek ≡ false
    → Absent e key (entries t)
    → height t ≤ rounds
    → height t + 1 ≤ supply
    → Ready supply m
    → Returns
        (λ r g.
          (q : Ptr)
          → (v : Option Ptr) × (bpt_search e rounds btree q m ≡ ok (or_null v) m)
            × (bpt_search e (rounds + 1) (record r.0 { root = r.1 }) q g
                ≡ ok (or_null (if is_eq (e.compare q key) then some item else v)) g))
        (bpt_insert e rounds btree (leaf_of e key t).0 key item flag m)
bpt_search-Grew e o rounds supply btree key item flag m t v proper o2 unique fresh fuel enough
      stock =
    Returns-mono _ _ (bpt_insert e rounds btree (leaf_of e key t).0 key item flag m)
      (bpt_insert-Grew e o rounds supply btree key item flag m t v proper o2 fresh fuel enough
        stock)
      (λ r g (same, k) q.
        let test : Ptr → Bool = λ x. is_eq (e.compare q x) in
        let order_same : r.0.order ≡ btree.order = ap (λ b. b.order) same in
        let samek_same : r.0.samek ≡ btree.samek = ap (λ b. b.samek) same in
        (
          find test (entries t),
          (bpt_search-find e o rounds btree q m t null null v.stored v.ordered v.root unique
              fuel).1,
          (bpt_search-find e o (rounds + 1) (record r.0 { root = r.1 }) q g k.tree null null
                (subst (λ n. Stored g n null null k.tree) (sym order_same) k.is_tree.stored)
                k.is_tree.ordered k.is_tree.root (samek_same ∙ unique) (omega (arith, k.height))).1
              ∙ ap (λ z. ok (or_null z) g)
                  (find-Inserted test (key, item) (entries t) (entries k.tree)
                    (rw k.entries (put_sorted-Inserted e (key, item) (entries t)))
                    (λ hit.
                      AllKeys-mono (λ x. is_eq (e.compare key x) ≡ false) (λ x. test x ≡ false)
                        (entries t) (λ x miss. ne_of_eq_ne e o q key x hit miss) fresh)),
        ))
