-- ===== src/Bpt/Tests/Growth.antt =====
-- The insertions of btree/bpt3.c that split, on a tree of order 3 whose nodes are all full.
use linux_kernel_struct.Common.{
  ◌≢◌, ℕ, ◌≡◌, refl, Bool, true, false, none, some, Option, List, [], ◌∷◌, arith, length,
  if◌then◌else◌, ltb,
}
use linux_kernel_struct.Memory.{Ptr, null, Memory, Returns, write, ok}
use linux_kernel_struct.Bpt.{Node5, Btree, is_eq}
use linux_kernel_struct.Bpt.Find.{bpt_search}
use linux_kernel_struct.Bpt.Insert.{bpt_insert}
use linux_kernel_struct.Bpt.Split.{Halves, split_node, middle_key}
use linux_kernel_struct.Bpt.Split.Node.{IsNodeSplit, split_node-IsNodeSplit}
use linux_kernel_struct.Bpt.Tree.{
  Stored, has_node, height, Tree, leaf, node, last, more, leaf_of, or_null, entries,
}
use linux_kernel_struct.Bpt.Tree.Insert.{IsTree}
use linux_kernel_struct.Bpt.Tree.Rising.{Proper}
use linux_kernel_struct.Bpt.Tree.Index.{no_tree}
use linux_kernel_struct.Bpt.Tree.Ready.{Fresh, Ready}
use linux_kernel_struct.Bpt.Tree.Growth.{Grew, counted, bpt_insert-Grew, bpt_search-Grew}
use linux_kernel_struct.Bpt.Tree.First.{bpt_insert-First}
use linux_kernel_struct.Bpt.Tests.{env, from_list}
use linux_kernel_struct.Bpt.Scan.{bpt_init_key}
use linux_kernel_struct.Bpt.Tree.InitKey.{put_all, Built}
use linux_kernel_struct.Bpt.Tree.InitLeaves.{bpt_init_key-Built}
use linux_kernel_struct.Bpt.Tests.Trees.{env-IsTotalOrder, two-Sorted}

abbrev node3 : Bool → Ptr → List ℕ → List ℕ → Node5
node3 is_leaf parent ks ps = record {
  parent = parent;
  is_leaf = is_leaf;
  num_keys = length ks;
  pointers = record { cap = 3; at = from_list ps };
  keys = record { cap = 2; at = from_list ks };
  next = null;
}

abbrev top : Node5
top = node3 false 0 (30 ∷ 50 ∷ []) (2 ∷ 3 ∷ 4 ∷ [])

abbrev low : Node5
low = node3 true 1 (10 ∷ 20 ∷ []) (100 ∷ 200 ∷ 3 ∷ [])

abbrev mid : Node5
mid = node3 true 1 (30 ∷ 40 ∷ []) (300 ∷ 400 ∷ 4 ∷ [])

abbrev high : Node5
high = node3 true 1 (50 ∷ 60 ∷ []) (500 ∷ 600 ∷ 0 ∷ [])

abbrev full_tree : Tree
full_tree = node 1 top (more (leaf 2 low) 30 (more (leaf 3 mid) 50 (last (leaf 4 high))))

abbrev heap : Memory Node5
heap = record {
  cells =
      write (write (write (write (λ _. none) 1 (some top)) 2 (some low)) 3 (some mid)) 4
        (some high);
  blocks = λ _. true;
  supply = 10 ∷ 11 ∷ 12 ∷ 13 ∷ 14 ∷ 15 ∷ 16 ∷ 17 ∷ 18 ∷ [];
}

abbrev handle : Btree
handle = record { root = 1; order = 3; kno = 6; kcnt = 6; samek = false }

full_tree-IsTree : IsTree env heap handle full_tree
unfolding write
full_tree-IsTree = record {
  stored = (
    ground arith,
    refl,
    refl,
    refl,
    refl,
    refl,
    omega arith,
    (
      omega arith,
      refl,
      refl,
      (ground arith, refl, refl, refl, refl, refl, omega arith, refl),
      (
        omega arith,
        refl,
        refl,
        (ground arith, refl, refl, refl, refl, refl, omega arith, refl),
        (refl, refl, (ground arith, refl, refl, refl, refl, refl, omega arith, refl)),
      ),
    ),
  );
  ordered = (
    (refl, (refl, tt)),
    (refl, (refl, (refl, (refl, tt)))),
    two-Sorted low.keys.at refl,
    (
      (refl, (refl, tt)),
      (refl, (refl, tt)),
      two-Sorted mid.keys.at refl,
      two-Sorted high.keys.at refl,
    ),
  );
  apart = (refl, ((λ a h. ground arith), tt, ((λ a h. ground arith), tt, tt)));
  root = refl;
}

full_tree-Proper : Proper env full_tree
full_tree-Proper = (
  (omega arith, ((refl, tt), (tt, tt))),
  ((omega arith, ((refl, tt), (tt, tt))), (omega arith, ((refl, tt), (tt, tt)))),
)

heap-covers : (q : Ptr) (n : Node5) → heap.cells q ≡ some n → ltb q 5 ≡ true
unfolding write
heap-covers q n h = ground arith

heap-Fresh : Fresh (λ q. ltb q 5) 3 heap.supply
heap-Fresh = (
  10,
  11,
  12,
  13 ∷ 14 ∷ 15 ∷ 16 ∷ 17 ∷ 18 ∷ [],
  refl,
  ground arith,
  ground arith,
  ground arith,
  refl,
  (
    13,
    14,
    15,
    16 ∷ 17 ∷ 18 ∷ [],
    refl,
    ground arith,
    ground arith,
    ground arith,
    refl,
    (16, 17, 18, [], refl, ground arith, ground arith, ground arith, refl, tt),
  ),
)

heap-Ready : Ready 3 heap
heap-Ready = record { used = λ q. ltb q 5; covers = heap-covers; fresh = heap-Fresh }

bpt_insert-Grew_example :
    Returns
      (λ r g. (r.0 ≡ counted handle 1) × Grew env heap 3 handle full_tree (25, 250) r.1 g)
      (bpt_insert env 2 handle (leaf_of env 25 full_tree).0 25 250 1 heap)
bpt_insert-Grew_example =
    bpt_insert-Grew env env-IsTotalOrder 2 3 handle 25 250 1 heap full_tree full_tree-IsTree
      full_tree-Proper (omega arith) (refl, (refl, (refl, (refl, (refl, (refl, tt))))))
      (omega arith) (omega arith) heap-Ready

bpt_search-Grew_example :
    Returns
      (λ r g.
        (q : Ptr)
        → (v : Option Ptr) × (bpt_search env 2 handle q heap ≡ ok (or_null v) heap)
          × (bpt_search env 3 (record r.0 { root = r.1 }) q g
              ≡ ok (or_null (if is_eq (env.compare q 25) then some 250 else v)) g))
      (bpt_insert env 2 handle (leaf_of env 25 full_tree).0 25 250 1 heap)
bpt_search-Grew_example =
    bpt_search-Grew env env-IsTotalOrder 2 3 handle 25 250 1 heap full_tree full_tree-IsTree
      full_tree-Proper (omega arith) refl (refl, (refl, (refl, (refl, (refl, (refl, tt))))))
      (omega arith) (omega arith) heap-Ready

bpt_insert-First_example :
    Returns
      (λ r g.
        (r.1 ≡ 10)
        × (r.0 ≡ record (counted (record handle { root = 0 }) 1) { root = 10 })
        × ((t : Tree) × IsTree env g r.0 t
            × Proper env t
            × (entries t ≡ (25, 250) ∷ [])
            × (height t ≡ 1)
            × ((q : Ptr) → q ≢ 10 → has_node q t ≡ false))
        × ((q : Ptr) → q ≢ 10 → g.cells q ≡ heap.cells q)
        × (g.supply ≡ 13 ∷ 14 ∷ 15 ∷ 16 ∷ 17 ∷ 18 ∷ []))
      (bpt_insert env 0 (record handle { root = 0 }) 0 25 250 1 heap)
unfolding write
bpt_insert-First_example =
    bpt_insert-First env env-IsTotalOrder 0 (record handle { root = 0 }) 0 25 250 1 heap 10 11 12
      (13 ∷ 14 ∷ 15 ∷ 16 ∷ 17 ∷ 18 ∷ []) refl (omega arith)
      (record {
        supply = refl;
        node = ground arith;
        keys = ground arith;
        pointers = ground arith;
        unused = refl;
      })

split_node-IsNodeSplit_example :
    (h : Halves) × (kp : Ptr) × (split_node env 3 top low 1 40 9 ≡ some h)
    × (middle_key env 3 top 1 40 ≡ some kp)
    × IsNodeSplit 3 top low 1 40 9 kp h
split_node-IsNodeSplit_example =
    split_node-IsNodeSplit env 3 top low 1 40 9 (omega arith)
      (record { keys_cap = refl; pointers_cap = refl })
      (record { keys_cap = refl; pointers_cap = refl }) refl (omega arith)

abbrev alone : Node5
alone = node3 true 0 (50 ∷ 60 ∷ []) (500 ∷ 600 ∷ 0 ∷ [])

abbrev by_number : Memory Node5
by_number = record heap { cells = write (λ _. none) 4 (some alone) }

abbrev wi : Btree
wi = record handle { root = 4 }

abbrev ws : Btree
ws = record handle { root = 0 }

by_number-covers : (q : Ptr) (n : Node5) → by_number.cells q ≡ some n → ltb q 5 ≡ true
unfolding write
by_number-covers q n h = ground arith

by_number-Ready : Ready 3 by_number
by_number-Ready = record { used = λ q. ltb q 5; covers = by_number-covers; fresh = heap-Fresh }

alone-Stored : Stored by_number 3 null null (leaf 4 alone)
unfolding write
alone-Stored = (ground arith, refl, refl, refl, refl, refl, omega arith, refl)

bpt_init_key-Built_example :
    (ws' : Btree) × (g : Memory Node5) × (bpt_init_key env 3 wi ws by_number ≡ ok (ws', ws'.root) g)
    × Built env by_number ws
        (put_all env (entries (leaf 4 alone)) [])
        2
        0
        (λ q. has_node q (leaf 4 alone))
        ws'
        g
bpt_init_key-Built_example =
    bpt_init_key-Built env env-IsTotalOrder 3 wi ws by_number (leaf 4 alone) [] 0 3 (omega arith)
      alone-Stored refl (omega arith) refl (no_tree refl refl) (omega arith) (omega arith)
      (omega arith) (omega arith) by_number-Ready (tt, ((refl, tt), tt))
