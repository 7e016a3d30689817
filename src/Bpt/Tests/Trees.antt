-- ===== src/Bpt/Tests/Trees.antt =====
-- The theorems on whole trees of btree/bpt3.c at a root with two leaves.
use linux_kernel_struct.Common.{ℕ, zero, suc, ◌≡◌, refl, true, false, none, some, [], ◌∷◌, arith}
use linux_kernel_struct.Memory.{Ptr, null, Memory, write, ok}
use linux_kernel_struct.Bpt.{Node5, Btree, is_eq, is_le}
use linux_kernel_struct.Bpt.Order.{Sorted}
use linux_kernel_struct.Bpt.Find.{bpt_find_leaf, bpt_search}
use linux_kernel_struct.Bpt.Tree.{
  Tree, leaf, node, last, more, IsTotalOrder, leaf_of, find, or_null, entries,
}
use linux_kernel_struct.Bpt.Tree.Search.{bpt_search-find}
use linux_kernel_struct.Bpt.Tree.Insert.{IsTree}
use linux_kernel_struct.Bpt.Tests.{env, node_of}

pub env-IsTotalOrder : IsTotalOrder env
env-IsTotalOrder = record { flip = λ a b. ground arith; trans = λ a b c p q. ground arith }

abbrev top : Node5
top = node_of false (30 ∷ []) (2 ∷ 3 ∷ [])

abbrev low : Node5
low = record (node_of true (10 ∷ 20 ∷ []) (100 ∷ 200 ∷ 0 ∷ 3 ∷ [])) { parent = 1 }

abbrev high : Node5
high = record (node_of true (30 ∷ 40 ∷ []) (300 ∷ 400 ∷ 0 ∷ 0 ∷ [])) { parent = 1 }

abbrev two_leaves : Tree
two_leaves = node 1 top (more (leaf 2 low) 30 (last (leaf 3 high)))

abbrev small : Memory Node5
small = record {
  cells = write (write (write (λ _. none) 1 (some top)) 2 (some low)) 3 (some high);
  blocks = λ _. true;
  supply = [];
}

abbrev btree : Btree
btree = record { root = 1; order = 4; kno = 4; kcnt = 4; samek = false }

pub two-Sorted : (f : ℕ → Ptr) → is_le (env.compare (f 0) (f 1)) ≡ true → Sorted env f 2
two-Sorted f h zero zero ij jn = ground arith
two-Sorted f h zero (suc zero) ij jn = h
two-Sorted f h zero (suc (suc j)) ij jn = absurd (omega arith)
two-Sorted f h (suc zero) zero ij jn = absurd (omega arith)
two-Sorted f h (suc zero) (suc zero) ij jn = ground arith
two-Sorted f h (suc zero) (suc (suc j)) ij jn = absurd (omega arith)
two-Sorted f h (suc (suc i)) j ij jn = absurd (omega arith)

two_leaves-IsTree : IsTree env small btree two_leaves
unfolding write
two_leaves-IsTree = record {
  stored = (
    ground arith,
    refl,
    refl,
    refl,
    refl,
    refl,
    omega arith,
    (
      omega arith,
      refl,
      refl,
      (ground arith, refl, refl, refl, refl, refl, omega arith, refl),
      (refl, refl, (ground arith, refl, refl, refl, refl, refl, omega arith, refl)),
    ),
  );
  ordered = (
    (refl, (refl, tt)),
    (refl, (refl, tt)),
    two-Sorted low.keys.at refl,
    two-Sorted high.keys.at refl,
  );
  apart = (refl, ((λ a h. ground arith), tt, tt));
  root = refl;
}

bpt_search-find_example :
    (bpt_find_leaf env 2 btree 30 env.compare small ≡ ok (leaf_of env 30 two_leaves).0 small)
    × (bpt_search env 2 btree 30 small
        ≡ ok (or_null (find (λ x. is_eq (env.compare 30 x)) (entries two_leaves))) small)
bpt_search-find_example =
    bpt_search-find env env-IsTotalOrder 2 btree 30 small two_leaves null null
      two_leaves-IsTree.stored two_leaves-IsTree.ordered refl refl (omega arith)
