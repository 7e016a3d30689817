-- ===== src/Bpt/Tests/Nodes.antt =====
-- The theorems on single operations of btree/bpt3.c at nodes of order 4.
use linux_kernel_struct.Common.{
  zero, suc, ◌≢◌, ◌<◌, ℕ, ◌≡◌, refl, true, false, none, some, [], ◌∷◌, arith,
}
use linux_kernel_struct.Memory.{Returns, write}
use linux_kernel_struct.Bpt.{suc, Node5}
use linux_kernel_struct.Bpt.Insert.{split_full_leaf}
use linux_kernel_struct.Bpt.Insert.Full.{SplitInto, split_full_leaf-SplitInto}
use linux_kernel_struct.Bpt.Split.{Halves}
use linux_kernel_struct.Bpt.Merge.{Pair, Borrowed, remove_entry, merge, borrow_right, borrow_left}
use linux_kernel_struct.Bpt.Merge.Remove.{LeafRemoved, remove_entry-LeafRemoved}
use linux_kernel_struct.Bpt.Merge.Coalesce.{
  LeafMerged, NodeMerged, merge-LeafMerged, merge-NodeMerged,
}
use linux_kernel_struct.Bpt.Merge.Borrow.{
  LeafBorrowed, LeafTaken, borrow_right-LeafBorrowed, borrow_left-LeafTaken, borrow_right-none,
}
use linux_kernel_struct.Bpt.Tests.{env, node_of, room, full, tree, at_one}

split_full_leaf-SplitInto_example :
    Returns
      (λ r g.
        (r.1 ≡ 2)
        × ((h : Halves) × (idx : ℕ) × SplitInto env tree (at_one full) g 1 2 full 20 200 r.0 h idx))
      (split_full_leaf env tree 1 20 200 (at_one full))
unfolding write
split_full_leaf-SplitInto_example =
    split_full_leaf-SplitInto env tree (at_one full) 1 full 20 200 2 3 4 []
      (record {
        supply = refl;
        node = ground arith;
        keys = ground arith;
        pointers = ground arith;
        unused = refl;
      })
      (ground arith) refl (omega arith) (record { keys_cap = refl; pointers_cap = refl }) refl

remove_entry-LeafRemoved_example :
    (n' : Node5) × (remove_entry 4 full 1 300 ≡ some n') × LeafRemoved 4 full n' 1
remove_entry-LeafRemoved_example =
    remove_entry-LeafRemoved 4 full 1 300 refl refl refl (omega arith) (omega arith) refl ne_first
  where
    ne_first : (j : ℕ) → j < 1 → full.pointers.at j ≢ 300
    ne_first zero h = ground arith
    ne_first (suc j) h = absurd (omega arith)

abbrev one : Node5
one = node_of true (5 ∷ []) (50 ∷ 0 ∷ 0 ∷ 1 ∷ [])

merge-LeafMerged_example :
    (p : Pair) × (merge 4 one room 10 ≡ some p)
    × LeafMerged 4 one room p.left
    × (p.right.num_keys ≡ 2)
merge-LeafMerged_example = merge-LeafMerged 4 one room 10 refl refl refl refl refl (omega arith)

abbrev inner_left : Node5
inner_left = node_of false (5 ∷ []) (11 ∷ 12 ∷ [])

abbrev inner_right : Node5
inner_right = node_of false (20 ∷ []) (13 ∷ 14 ∷ [])

merge-NodeMerged_example :
    (p : Pair) × (merge 4 inner_left inner_right 10 ≡ some p)
    × NodeMerged inner_left inner_right 10 p.left
    × (p.right.num_keys ≡ 0)
merge-NodeMerged_example =
    merge-NodeMerged 4 inner_left inner_right 10 refl refl refl refl refl (omega arith)

borrow_right-LeafBorrowed_example :
    (h : Borrowed) × (borrow_right one room 10 ≡ some h) × LeafBorrowed one room h
borrow_right-LeafBorrowed_example =
    borrow_right-LeafBorrowed one room 10 refl (omega arith) (omega arith) (omega arith)
      (omega arith) (omega arith)

borrow_left-LeafTaken_example :
    (h : Borrowed) × (borrow_left one full 10 ≡ some h) × LeafTaken one full h
borrow_left-LeafTaken_example =
    borrow_left-LeafTaken one full 10 refl (omega arith) (omega arith) (omega arith) (omega arith)
      (omega arith)

borrow_right-none_example : borrow_right one full 10 ≡ none
borrow_right-none_example = borrow_right-none one full 10 (omega arith) refl
