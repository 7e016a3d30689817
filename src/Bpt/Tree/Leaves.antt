-- ===== src/Bpt/Tree/Leaves.antt =====
-- The leaves of a whole tree of btree/bpt3.c as the list that their links run through.
use linux_kernel_struct.Common.{
  ◌≢◌, arith, ◌-◌, append_assoc, append-nil, ◌≤◌, ◌+◌, ℕ, zero, suc, ◌≡◌, refl, sym, ap, ◌∙◌, List,
  [], ◌∷◌, ◌++◌,
}
use mathlib.Core.Path.{subst}
use linux_kernel_struct.Memory.{null, Ptr, Memory, ok}
use linux_kernel_struct.Bpt.{null, Node5}
use linux_kernel_struct.Bpt.Find.{leftmost}
use linux_kernel_struct.Bpt.Tree.Search.{LeafAt}
use linux_kernel_struct.Memory.Laws.{load-ok}
use linux_kernel_struct.Arrays.Loops.{get-ok}
use linux_kernel_struct.Bpt.Tree.{
  Entries, Tree, leaf, node, Forest, last, more, root, leaf_entries, entries, forest_entries,
  height, forest_height, first_leaf, forest_first_leaf, Stored, Children,
}

abbrev pub Leaves : Type 0
Leaves = List (Ptr × Node5)

abbrev mutual
  pub leaves : Tree → Leaves
  leaves (leaf p n) = (p, n) ∷ []
  leaves (node p n f) = forest_leaves f

  pub forest_leaves : Forest → Leaves
  forest_leaves (last t) = leaves t
  forest_leaves (more t k f) = leaves t ++ forest_leaves f

abbrev pub first_of : Leaves → Ptr → Ptr
first_of [] stop = stop
first_of ((p, n) ∷ ls) stop = p

abbrev pub all_entries : Leaves → Entries
all_entries [] = []
all_entries ((p, n) ∷ ls) = leaf_entries n ++ all_entries ls

-- The leaves are in the heap, and the last pointer of each is the next one.
abbrev pub Chain : Memory Node5 → ℕ → Ptr → Leaves → Type 0
Chain m order stop [] = Unit {0}
Chain m order stop ((p, n) ∷ ls) =
    LeafAt m order (p, n) × (n.pointers.at (order - 1) ≡ first_of ls stop) × Chain m order stop ls

first_of-append :
    (xs ys : Leaves) (stop : Ptr) → first_of (xs ++ ys) stop ≡ first_of xs (first_of ys stop)
first_of-append [] ys stop = refl
first_of-append (x ∷ xs) ys stop = refl

Chain-append :
    (m : Memory Node5) (order stop : ℕ) (xs ys : Leaves)
    → Chain m order (first_of ys stop) xs
    → Chain m order stop ys
    → Chain m order stop (xs ++ ys)
Chain-append m order stop [] ys cx cy = cy
Chain-append m order stop ((p, n) ∷ xs) ys cx cy =
    (cx.0, cx.1 ∙ sym (first_of-append xs ys stop), Chain-append m order stop xs ys cx.2 cy)

all_entries-append : (xs ys : Leaves) → all_entries (xs ++ ys) ≡ all_entries xs ++ all_entries ys
all_entries-append [] ys = refl
all_entries-append ((p, n) ∷ xs) ys =
    ap (λ t. leaf_entries n ++ t) (all_entries-append xs ys)
    ∙ sym (append_assoc (leaf_entries n) (all_entries xs) (all_entries ys))

mutual
  pub first_of-leaves : (t : Tree) (stop : Ptr) → first_of (leaves t) stop ≡ first_leaf t
  first_of-leaves (leaf p n) stop = refl
  first_of-leaves (node p n f) stop = first_of-forest_leaves f stop

  first_of-forest_leaves :
      (f : Forest) (stop : Ptr) → first_of (forest_leaves f) stop ≡ forest_first_leaf f
  first_of-forest_leaves (last t) stop = first_of-leaves t stop
  first_of-forest_leaves (more t k f) stop =
      first_of-append (leaves t) (forest_leaves f) stop
      ∙ first_of-leaves t (first_of (forest_leaves f) stop)

mutual
  -- The leaves of a stored tree are linked from left to right.
  pub leaves-Chain :
      (m : Memory Node5) (order up stop : ℕ) (t : Tree)
      → Stored m order up stop t
      → Chain m order stop (leaves t)
  leaves-Chain m order up stop (leaf p n) s = ((s.0, s.1, s.2, s.4, s.5, s.6), s.7, tt)
  leaves-Chain m order up stop (node p n f) s = forest_leaves-Chain m order p stop n 0 f s.7

  forest_leaves-Chain :
      (m : Memory Node5) (order up stop : ℕ) (n : Node5) (i : ℕ) (f : Forest)
      → Children m order up stop n i f
      → Chain m order stop (forest_leaves f)
  forest_leaves-Chain m order up stop n i (last t) s = leaves-Chain m order up stop t s.2
  forest_leaves-Chain m order up stop n i (more t k f) s =
      Chain-append m order stop (leaves t) (forest_leaves f)
        (rw (first_of-forest_leaves f stop) (leaves-Chain m order up (forest_first_leaf f) t s.3))
        (forest_leaves-Chain m order up stop n (i + 1) f s.4)

mutual
  pub all_entries-leaves : (t : Tree) → all_entries (leaves t) ≡ entries t
  all_entries-leaves (leaf p n) = append-nil (leaf_entries n)
  all_entries-leaves (node p n f) = all_entries-forest_leaves f

  all_entries-forest_leaves : (f : Forest) → all_entries (forest_leaves f) ≡ forest_entries f
  all_entries-forest_leaves (last t) = all_entries-leaves t
  all_entries-forest_leaves (more t k f) =
      rw
        (
          all_entries-append (leaves t) (forest_leaves f),
          all_entries-leaves t,
          all_entries-forest_leaves f,
        )
        refl

-- The address of the leftmost child.
abbrev first_child : Forest → Ptr
first_child (last t) = root t
first_child (more t k f) = root t

mutual
  unfolding leftmost

  -- The walk to the left ends at the first leaf; as many rounds as levels are enough.
  pub leftmost-first_leaf :
      (m : Memory Node5) (order up stop : ℕ) (t : Tree) (rounds : ℕ)
      → Stored m order up stop t
      → height t ≤ rounds
      → leftmost rounds (root t) m ≡ ok (first_leaf t) m
  leftmost-first_leaf m order up stop (leaf p n) zero s h = absurd (omega arith)
  leftmost-first_leaf m order up stop (leaf p n) (suc rounds) s h =
      rw (load-ok m p n s.0 s.1, s.2) refl
  leftmost-first_leaf m order up stop (node p n f) zero s h = absurd (omega arith)
  leftmost-first_leaf m order up stop (node p n f) (suc rounds) s h =
      let (at_first, run) = leftmost-forest m order p stop n f rounds s.7 (omega arith) in
      rw (load-ok m p n s.0 s.1, s.2, get-ok n.pointers 0 (omega (arith, s.5)), at_first) run

  leftmost-forest :
      (m : Memory Node5) (order up stop : ℕ) (n : Node5) (f : Forest) (rounds : ℕ)
      → Children m order up stop n 0 f
      → forest_height f ≤ rounds
      → (n.pointers.at 0 ≡ first_child f)
        × (leftmost rounds (first_child f) m ≡ ok (forest_first_leaf f) m)
  leftmost-forest m order up stop n (last t) rounds s h =
      (s.1, leftmost-first_leaf m order up stop t rounds s.2 h)
  leftmost-forest m order up stop n (more t k f) rounds s h =
      (s.2, leftmost-first_leaf m order up (forest_first_leaf f) t rounds s.3 (omega arith))

mutual
  -- There is a first leaf.
  pub leaves-cons :
      (t : Tree)
      → (p : Ptr) × (n : Node5) × (ls : Leaves) × (leaves t ≡ (p, n) ∷ ls) × (first_leaf t ≡ p)
  leaves-cons (leaf p n) = (p, n, [], refl, refl)
  leaves-cons (node p n f) = forest_leaves-cons f

  forest_leaves-cons :
      (f : Forest)
      → (p : Ptr) × (n : Node5) × (ls : Leaves) × (forest_leaves f ≡ (p, n) ∷ ls)
        × (forest_first_leaf f ≡ p)
  forest_leaves-cons (last t) = leaves-cons t
  forest_leaves-cons (more t k f) =
      let (p, n, ls, parts, at_first) = leaves-cons t in
      (p, n, ls ++ forest_leaves f, ap (λ x. x ++ forest_leaves f) parts, at_first)

pub first_leaf-ne_null :
    (m : Memory Node5) (order up stop : ℕ) (t : Tree)
    → Stored m order up stop t
    → first_leaf t ≢ null
first_leaf-ne_null m order up stop t s =
    let (p, n, ls, eq, first) = leaves-cons t in
    let chain : Chain m order stop ((p, n) ∷ ls) =
      subst (Chain m order stop) eq (leaves-Chain m order up stop t s) in
    λ q. chain.0.0 (sym first ∙ q)
