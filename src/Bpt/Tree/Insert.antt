-- ===== src/Bpt/Tree/Insert.antt =====
-- bpt_insert of btree/bpt3.c on a whole tree, where the leaf has room.
use Prim.Native.Nat.{Ordering}
use linux_kernel_struct.Common.{
  ap, some, ℕ, ◌+◌, ◌-◌, ◌<◌, ◌≡◌, ◌≢◌, refl, sym, ◌∙◌, true, false, ◌==◌, if◌then◌else◌, arith,
  Bool-cases, inl, inr, ne→==, lt→ltb,
}
use mathlib.Core.Path.{subst}
use linux_kernel_struct.Int32.{inc}
use linux_kernel_struct.Memory.{Ptr, null, Memory, Returns, Returns-bind}
use linux_kernel_struct.Memory.Laws.{load-ok}
use linux_kernel_struct.Bpt.{some, is_eq, Node5, Btree, Env, is_lt, is_le}
use linux_kernel_struct.Bpt.Order.{Le, IsOrder, Sorted, IsPlace}
use linux_kernel_struct.Bpt.Insert.{bpt_insert, bpt_insert_into_leaf, flag_insert}
use linux_kernel_struct.Bpt.Insert.Leaf.{
  Opened, LeafInserted, bpt_insert_into_leaf_lem, Opened-Sorted,
}
use linux_kernel_struct.Bpt.Tree
use linux_kernel_struct.Bpt.Tree.{
  has_node, Tree, Entries, Forest, last, more, pairs, leaf_entries, entries, forest_entries, height,
  Stored, IsTotalOrder, Lt, AllKeys, Ordered, OrderedForest, leaf_of, forest_leaf_of, find, or_null,
  with_leaf, forest_with_leaf, Apart, Inserted, leaf, node, flipped,
}
use linux_kernel_struct.Bpt.Tree.Search.{le_of_not_lt, leaf_of-LeafAt, root-ne_null}
use linux_kernel_struct.Bpt.Tree.Replace.{
  has_node-leaf_of, has_node-with_leaf, forest_with_leaf-Inserted, written, with_leaf-Stored,
  with_leaf-Apart, with_leaf-Inserted, root-with_leaf, height-with_leaf, SameLeaf,
}
use linux_kernel_struct.Bpt.Tree.Proper.{leaf_of-AllKeys, leaf_of-Rising, with_leaf-Proper}
use linux_kernel_struct.Bpt.Tree.Rising.{place-Rising, Proper}
use linux_kernel_struct.Memory.Chain.{write-ne}
use linux_kernel_struct.Bpt.Tree.Ready.{written-used}
use linux_kernel_struct.Bpt.Tree.Entries.{
  Opened-entries, Opened-Inserted, AllKeys-Inserted, opened-behind,
}

not_le-flipped : (o : Ordering) → is_le o ≡ false → is_le (flipped o) ≡ true
not_le-flipped Ordering.lt h = absurd (cc)
not_le-flipped Ordering.eq h = absurd (cc)
not_le-flipped Ordering.gt h = refl

pub IsTotalOrder-IsOrder : (e : Env) → IsTotalOrder e → IsOrder e
IsTotalOrder-IsOrder e o = record {
  trans = o.trans;
  total = λ a b h. rw (o.flip a b) (not_le-flipped (e.compare a b) h);
}

module _ (e : Env) (o : IsTotalOrder e) (key item : Ptr) (n' : Node5)
    (sorted : Sorted e n'.keys.at n'.num_keys) where
  mutual
    with_leaf-Ordered :
        (t : Tree)
        → Ordered e t
        → Inserted (key, item) (leaf_entries (leaf_of e key t).1) (leaf_entries n')
        → Ordered e (with_leaf e key n' t)
    with_leaf-Ordered (leaf p n) s h = sorted
    with_leaf-Ordered (node p n f) s h = forest_with_leaf-Ordered f s h

    forest_with_leaf-Ordered :
        (f : Forest)
        → OrderedForest e f
        → Inserted (key, item) (leaf_entries (forest_leaf_of e key f).1) (leaf_entries n')
        → OrderedForest e (forest_with_leaf e key n' f)
    forest_with_leaf-Ordered (last t) s h = with_leaf-Ordered t s h
    forest_with_leaf-Ordered (more t k f) s h = elim (Bool-cases (is_lt (e.compare key k))) [
      | inl before ↦
          let h' : Inserted (key, item) (leaf_entries (leaf_of e key t).1) (leaf_entries n') =
            rw before at h in
          rw before (
            AllKeys-Inserted (λ x. Lt e x k) (key, item) (entries t)
                (entries (with_leaf e key n' t)) (with_leaf-Inserted e key n' (key, item) t h') s.0
                before,
            s.1,
            with_leaf-Ordered t s.2 h',
            s.3,
          )
      | inr behind ↦
          let h' : Inserted (key, item) (leaf_entries (forest_leaf_of e key f).1)
              (leaf_entries n') =
            rw behind at h in
          rw behind (
            s.0,
            AllKeys-Inserted (λ x. Le e k x) (key, item) (forest_entries f)
                (forest_entries (forest_with_leaf e key n' f))
                (forest_with_leaf-Inserted e key n' (key, item) f h') s.1
                (le_of_not_lt e o key k behind),
            s.2,
            forest_with_leaf-Ordered f s.3 h',
          )
    ]

mutual
  leaf_of-Sorted :
      (e : Env) (key : Ptr) (t : Tree)
      → Ordered e t
      → (let n = (leaf_of e key t).1 in Sorted e n.keys.at n.num_keys)
  leaf_of-Sorted e key (leaf p n) s = s
  leaf_of-Sorted e key (node p n f) s = forest_leaf_of-Sorted e key f s

  forest_leaf_of-Sorted :
      (e : Env) (key : Ptr) (f : Forest)
      → OrderedForest e f
      → (let n = (forest_leaf_of e key f).1 in Sorted e n.keys.at n.num_keys)
  forest_leaf_of-Sorted e key (last t) s = leaf_of-Sorted e key t s
  forest_leaf_of-Sorted e key (more t k f) s = elim (Bool-cases (is_lt (e.compare key k))) [
    | inl before ↦ rw before (leaf_of-Sorted e key t s.2)
    | inr behind ↦ rw behind (forest_leaf_of-Sorted e key f s.3)
  ]

-- `t'` is the tree in the heap `g` after the insertion into `t`.
pub record TreeInserted (e : Env) (m g : Memory Node5) (order up stop : Ptr) (t : Tree)
    (x : Ptr × Ptr) (t' : Tree) : Type 0 where
  pub stored : Stored g order up stop t'
  pub ordered : Ordered e t'
  pub apart : Apart t'
  pub root : Tree.root t' ≡ Tree.root t
  pub height : height t' ≡ height t
  pub entries : Inserted x (entries t) (entries t')
  pub proper :
      Proper e t → AllKeys (λ y. is_eq (e.compare x.0 y) ≡ false) (Tree.entries t) → Proper e t'
  pub nodes : (q : Ptr) → has_node q t' ≡ has_node q t
  pub same : (q : Ptr) → has_node q t ≡ false → g.cells q ≡ m.cells q
  pub used : (q : Ptr) (c : Node5) → g.cells q ≡ some c → (c' : Node5) × (m.cells q ≡ some c')
  pub supply : g.supply ≡ m.supply

replaced :
    (e : Env) (o : IsTotalOrder e) (m : Memory Node5) (order up stop : ℕ) (t : Tree)
    (key item : Ptr) (n' : Node5) (idx : ℕ)
    → Stored m order up stop t
    → Ordered e t
    → Apart t
    → (leaf_of e key t).1.num_keys + 1 < order
    → Opened (leaf_of e key t).1 n' idx key item
    → IsPlace e (leaf_of e key t).1.keys.at key 0 (leaf_of e key t).1.num_keys idx
    → TreeInserted e m
        (written m (leaf_of e key t).0 n')
        order
        up
        stop
        t
        (key, item)
        (with_leaf e key n' t)
replaced e o m order up stop t key item n' idx s sorted apart room op place =
    let n = (leaf_of e key t).1 in
    let put_in = Opened-Inserted n n' idx key item place.within op in
    let same : SameLeaf order n n' = record {
      is_leaf = op.same.1;
      parent = op.same.0;
      keys_cap = op.keys_cap;
      pointers_cap = op.pointers_cap;
      room = omega (arith, op.num_keys);
      next =
          op.pointers (order - 1)
          ∙ opened-behind n.pointers.at idx n.num_keys item (order - 1) (omega arith) place.within;
    } in
    record {
      stored = with_leaf-Stored e key m order n' up stop t s apart same;
      ordered =
          with_leaf-Ordered e o key item n'
            (Opened-Sorted e n n' idx key item (IsTotalOrder-IsOrder e o)
              (leaf_of-Sorted e key t sorted) place op)
            t sorted put_in;
      apart = with_leaf-Apart e key n' t apart;
      root = root-with_leaf e key n' t;
      height = height-with_leaf e key n' t;
      entries = with_leaf-Inserted e key n' (key, item) t put_in;
      proper = λ strict fresh.
          with_leaf-Proper e key n' t (omega (arith, op.num_keys))
            (rw (Opened-entries n n' idx key item place.within op) (
              place-Rising e o n.keys.at n.pointers.at n.num_keys idx key item
                (leaf_of-Rising e key t strict) place
                (leaf_of-AllKeys e key (λ y. is_eq (e.compare key y) ≡ false) t fresh)))
            strict;
      nodes = λ q. has_node-with_leaf e key n' q t;
      same = λ q out.
          write-ne m.cells (leaf_of e key t).0 q (some n')
            (λ eq. cc (ap (λ z. has_node z t) eq, has_node-leaf_of e key t, out));
      used = written-used m (leaf_of e key t).0 n n' (leaf_of-LeafAt e key m order up stop t s).1;
      supply = refl;
    }

-- The tree that a BTREE holds.
pub record IsTree (e : Env) (m : Memory Node5) (btree : Btree) (t : Tree) : Type 0 where
  pub stored : Stored m btree.order null null t
  pub ordered : Ordered e t
  pub apart : Apart t
  pub root : btree.root ≡ Tree.root t

-- Where the leaf that the key belongs to has room, bpt_insert into that leaf returns the root, counts
-- the key, and leaves a tree, stored and ordered, whose entries are the old ones with the new one put
-- in; its root, its height and its links to what is around it are as before.
pub bpt_insert-TreeInserted :
    (e : Env) (o : IsTotalOrder e) (rounds : ℕ) (btree : Btree) (key item flag : Ptr)
    (m : Memory Node5) (t : Tree)
    → IsTree e m btree t
    → (leaf_of e key t).1.num_keys + 1 < btree.order
    → Returns
        (λ r g.
          (r.1 ≡ btree.root)
          × (r.0 ≡ record btree {
            kno = if flag == flag_insert then inc btree.kno else btree.kno;
            kcnt = inc btree.kcnt;
          })
          × ((t' : Tree) × TreeInserted e m g btree.order null null t (key, item) t'))
        (bpt_insert e rounds btree (leaf_of e key t).0 key item flag m)
unfolding bpt_insert
bpt_insert-TreeInserted e o rounds btree key item flag m t v room =
    let (p, n) = leaf_of e key t in
    let (ne, cell, is_leaf, ck, cp, small) =
      leaf_of-LeafAt e key m btree.order null null t v.stored in
    let root_ne : btree.root ≢ null =
      λ q. root-ne_null m btree.order null null t v.stored (sym v.root ∙ q) in
    rw
      (
        ne→== btree.root null root_ne,
        load-ok m p n ne cell,
        lt→ltb n.num_keys (btree.order - 1) (omega arith),
      )
      (Returns-bind (λ r g. (r ≡ p) × LeafInserted e m p n key item g) _
        (bpt_insert_into_leaf e p key item m) _
        (bpt_insert_into_leaf_lem e m p n key item ne cell (omega (arith, ck))
          (omega (arith, ck, cp)))
        (λ r g (_, (idx, n', eq, op, place)). (
          refl,
          refl,
          (
            with_leaf e key n' t,
            subst
                (λ h. TreeInserted e m h btree.order null null t (key, item) (with_leaf e key n' t))
                (sym eq)
                (replaced e o m btree.order null null t key item n' idx v.stored v.ordered v.apart
                  room op place),
          ),
        )))
