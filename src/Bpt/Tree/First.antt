-- ===== src/Bpt/Tree/First.antt =====
-- The first insertion of btree/bpt3.c, into a handle without a root.
use linux_kernel_struct.Common.{
  ◌∙◌, ne→==, ◌≢◌, ap, false, ℕ, ◌+◌, ◌-◌, ◌≤◌, ◌<◌, ◌≡◌, refl, true, List, [], ◌∷◌, arith, some,
  eq→==,
}
use linux_kernel_struct.Memory.{Ptr, null, Memory, Returns, write}
use linux_kernel_struct.Memory.Laws.{load-ok}
use linux_kernel_struct.Memory.Chain.{write-ne, write_self}
use linux_kernel_struct.Arrays.{Arr, updated}
use linux_kernel_struct.Arrays.Loops.{put-ok}
use linux_kernel_struct.Bpt.{false, Node5, Btree, Env, new_node}
use linux_kernel_struct.Bpt.Alloc.{HasSupply, bpt_make_leaf-ok, with_leaf}
use linux_kernel_struct.Bpt.Order.{Sorted}
use linux_kernel_struct.Bpt.Insert.{bpt_insert, bpt_make_root}
use linux_kernel_struct.Bpt.Insert.Leaf.{Le-refl}
use linux_kernel_struct.Bpt.Tree.{has_node, height, Tree, leaf, IsTotalOrder, entries}
use linux_kernel_struct.Bpt.Tree.Insert.{IsTree, IsTotalOrder-IsOrder}
use linux_kernel_struct.Bpt.Tree.Rising.{Proper}
use linux_kernel_struct.Bpt.Tree.Growth.{counted}

-- The leaf that is the first root.
abbrev first_node : Env → ℕ → Ptr → Ptr → Node5
first_node e order key item = record (new_node e order true) {
  keys = record { cap = order - 1; at = updated e.uninit 0 key };
  pointers = record { cap = order; at = updated (updated e.uninit 0 item) (order - 1) null };
  parent = null;
  num_keys = 0 + 1;
}

one-Sorted : (e : Env) (o : IsTotalOrder e) (f : ℕ → Ptr) → Sorted e f 1
one-Sorted e o f i j ij jn =
    let same_i : i ≡ 0 = omega arith in
    let same_j : j ≡ 0 = omega arith in
    rw (same_i, same_j) (Le-refl e (f 0) (IsTotalOrder-IsOrder e o))

first-link : (f : ℕ → Ptr) (n : ℕ) → updated f n null n ≡ null
first-link f n = ground arith

first-item : (f : ℕ → Ptr) (n item : ℕ) → 0 < n → updated (updated f 0 item) n null 0 ≡ item
first-item f n item h = ground arith

-- The first insertion makes a tree of one leaf, at the address that malloc gives, with the one entry,
-- and puts it into the handle. No other node changes.
pub bpt_insert-First :
    (e : Env) (o : IsTotalOrder e) (rounds : ℕ) (btree : Btree) (leaf' key item flag : Ptr)
    (m : Memory Node5) (a b c : Ptr) (rest : List Ptr)
    → btree.root ≡ null
    → 2 ≤ btree.order
    → HasSupply m a b c rest
    → Returns
        (λ r g.
          (r.1 ≡ a)
          × (r.0 ≡ record (counted btree flag) { root = a })
          × ((t : Tree) × IsTree e g r.0 t
              × Proper e t
              × (entries t ≡ (key, item) ∷ [])
              × (height t ≡ 1)
              × ((q : Ptr) → q ≢ a → has_node q t ≡ false))
          × ((q : Ptr) → q ≢ a → g.cells q ≡ m.cells q)
          × (g.supply ≡ rest))
        (bpt_insert e rounds btree leaf' key item flag m)
unfolding bpt_insert bpt_make_root
bpt_insert-First e o rounds btree leaf' key item flag m a b c rest no_root o2 s =
    let order = btree.order in
    let new = new_node e order true in
    let n = first_node e order key item in
    let m1 = with_leaf e btree m s in
    let ptrs : Arr = record { cap = order; at = updated e.uninit 0 item } in
    let item_at = first-item e.uninit (order - 1) item (omega arith) in
    rw
      (
        eq→== btree.root null no_root,
        bpt_make_leaf-ok e (counted btree flag) m s,
        load-ok m1 a new s.node
            (write_self (write m.cells a (some (new_node e order false))) a (some new)),
        put-ok new.keys 0 key (omega arith),
        put-ok new.pointers 0 item (omega arith),
        put-ok ptrs (order - 1) null (omega arith),
      )
      (
        refl,
        refl,
        (
          leaf a n,
          record {
            stored = (
              s.node,
              write_self m1.cells a (some n),
              refl,
              refl,
              omega arith,
              refl,
              omega arith,
              first-link (updated e.uninit 0 item) (order - 1),
            );
            ordered = one-Sorted e o n.keys.at;
            apart = tt;
            root = refl;
          },
          (omega arith, (tt, tt)),
          ap (λ i. (key, i) ∷ []) item_at,
          refl,
          λ q ne. ne→== q a ne,
        ),
        λ q ne.
            write-ne m1.cells a q (some n) ne
            ∙ write-ne (write m.cells a (some (new_node e order false))) a q (some new) ne
            ∙ write-ne m.cells a q (some (new_node e order false)) ne,
        refl,
      )
