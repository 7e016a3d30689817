-- ===== src/Bpt/Merge/Remove.antt =====
-- The removal of an entry from a node of btree/bpt3.c.
use linux_kernel_struct.Common.{
  ℕ, zero, suc, ◌+◌, ◌-◌, ◌≤◌, ◌<◌, ◌≡◌, refl, ap, ◌∙◌, ◌≢◌, true, some, ◌++◌, arith, eq→==, ne→==,
}
use native.Mathlib.Decide.{ℕ_discrete}
use linux_kernel_struct.Memory.{null}
use linux_kernel_struct.Arrays.{Arr, slice, shift_down, find_from}
use linux_kernel_struct.Arrays.Loops.{get-ok, shift_down_lem, fill_lem}
use linux_kernel_struct.Arrays.Slice.{slice-closed, slice-congr}
use linux_kernel_struct.Bpt.{Node5}
use linux_kernel_struct.Bpt.Merge.{remove_entry}

-- The search by address stops at the first slot that holds `p`.
pub find_from_lem :
    (r i k p : ℕ) (a : Arr)
    → i + r ≤ a.cap
    → i ≤ k
    → k < i + r
    → a.at k ≡ p
    → ((j : ℕ) → j < k → a.at j ≢ p)
    → find_from r i p a ≡ some k
unfolding find_from
find_from_lem zero i k p a h ik kr e first = absurd (omega arith)
find_from_lem (suc r) i k p a h ik kr e first = elim (ℕ_discrete i k) [
  | yes q ↦ rw (get-ok a i (omega arith), eq→== (a.at i) p (ap a.at q ∙ e), q)
  | no q ↦
      rw (get-ok a i (omega arith), ne→== (a.at i) p (first i (omega arith)))
        (find_from_lem r (i + 1) k p a (omega arith) (omega arith) (omega arith) e first)
]

-- Closing up entry `k` of `n`.
close_up :
    (n k : ℕ) (a : Arr)
    → k < n
    → n ≤ a.cap
    → (b : Arr) × (shift_down (n - (k + 1)) k a ≡ some b)
      × (b.cap ≡ a.cap)
      × (slice b.at 0 (n - 1) ≡ slice a.at 0 k ++ slice a.at (k + 1) (n - 1 - k))
      × ((j : ℕ) → n ≤ j → b.at j ≡ a.at j)
close_up n k a h c =
    let (b, e, cb, f) = shift_down_lem (n - (k + 1)) k a (omega arith) in
    (
      b,
      e,
      cb,
      slice-closed a.at b.at k (n - 1) (omega arith) (λ j l. ground (arith, f j)),
      λ j l. ground (arith, f j),
    )

-- A leaf less its entry `k`: key and data go together, the others keep their order, and the link to
-- the next leaf stays.
pub record LeafRemoved (order : ℕ) (n n' : Node5) (k : ℕ) : Type 0 where
  pub num_keys : n'.num_keys + 1 ≡ n.num_keys
  pub keys :
      slice n'.keys.at 0 n'.num_keys
      ≡ slice n.keys.at 0 k ++ slice n.keys.at (k + 1) (n.num_keys - 1 - k)
  pub items :
      slice n'.pointers.at 0 n'.num_keys
      ≡ slice n.pointers.at 0 k ++ slice n.pointers.at (k + 1) (n.num_keys - 1 - k)
  pub link : n'.pointers.at (order - 1) ≡ n.pointers.at (order - 1)
  pub same :
      (n'.parent ≡ n.parent)
      × (n'.is_leaf ≡ n.is_leaf)
      × (n'.keys.cap ≡ n.keys.cap)
      × (n'.pointers.cap ≡ n.pointers.cap)

-- In a leaf of `order`, with entry `k` the first whose data is `pointer`, the removal stays within
-- bounds and takes out key and data `k`; the other entries keep their order, and the leaf its links.
pub remove_entry-LeafRemoved :
    (order : ℕ) (n : Node5) (k pointer : ℕ)
    → n.is_leaf ≡ true
    → n.keys.cap + 1 ≡ order
    → n.pointers.cap ≡ order
    → k < n.num_keys
    → n.num_keys < order
    → n.pointers.at k ≡ pointer
    → ((j : ℕ) → j < k → n.pointers.at j ≢ pointer)
    → (n' : Node5) × (remove_entry order n k pointer ≡ some n') × LeafRemoved order n n' k
unfolding remove_entry
remove_entry-LeafRemoved order n k pointer leaf kc pc hk hn hp first =
    let (b, eb, cb, sb, fb) = close_up n.num_keys k n.keys hk (omega arith) in
    let (c, ec, cc', sc, fc) = close_up n.num_keys k n.pointers hk (omega arith) in
    let (d, ed, cd, fd) = fill_lem (order - 1 - n.num_keys) n.num_keys null c (omega arith) in
    rw
      (
        leaf,
        eb,
        find_from_lem n.pointers.cap 0 k pointer n.pointers (omega arith) (omega arith)
            (omega arith) hp first,
        ec,
        ed,
      )
      (
        record n { keys = b; pointers = d; num_keys = n.num_keys - 1; is_leaf = true },
        refl,
        record {
          num_keys = omega arith;
          keys = sb;
          items =
              slice-congr d.at c.at 0 0 (n.num_keys - 1) (λ j l. ground (arith, fd (0 + j))) ∙ sc;
          link = ground (arith, fd (order - 1), fc (order - 1));
          same = (refl, refl, cb, cd ∙ cc');
        },
      )
