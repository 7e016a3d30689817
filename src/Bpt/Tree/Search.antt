-- ===== src/Bpt/Tree/Search.antt =====
-- bpt_find_leaf and bpt_search of btree/bpt3.c on a whole tree without equal keys (`samek` false).
use Prim.Native.Nat.{Ordering}
use linux_kernel_struct.Common.{
  ℕ, zero, suc, ◌+◌, ◌≤◌, ◌<◌, ◌≡◌, ◌≢◌, refl, sym, ap, ◌∙◌, Bool, true, false, some, [], ◌∷◌, ◌++◌,
  ◌&&◌, if◌then◌else◌, arith, Bool-cases, inl, inr, ne→==,
}
use linux_kernel_struct.Memory.{Ptr, null, Memory, ok, ◌>>=◌}
use linux_kernel_struct.Memory.Laws.{load-ok}
use linux_kernel_struct.Arrays.{get, slice}
use linux_kernel_struct.Arrays.Loops.{get-ok}
use linux_kernel_struct.Bpt.{Node5, Btree, Env, is_lt, is_le, is_eq, BptCmd, lift}
use linux_kernel_struct.Bpt.Order.{Le}
use linux_kernel_struct.Bpt.Find.{child_index, descend, bpt_find_leaf, bpt_search}
use linux_kernel_struct.Bpt.Find.Leaf.{lookup, first_key-lookup}
use linux_kernel_struct.Bpt.Tree.{
  Entries, Tree, leaf, node, Forest, last, more, root, entries_from, leaf_entries, entries,
  forest_entries, height, forest_height, Stored, Children, flipped, IsTotalOrder, Lt, AllKeys,
  Ordered, OrderedForest, leaf_of, forest_leaf_of, find, or_null, forest_first_leaf,
}

pub AllKeys-mono :
    (P Q : Ptr → Type 0) (xs : Entries) → ((x : Ptr) → P x → Q x) → AllKeys P xs → AllKeys Q xs
AllKeys-mono P Q [] f h = tt
AllKeys-mono P Q (x ∷ xs) f h = (f x.0 h.0, AllKeys-mono P Q xs f h.1)

find-append_left :
    (test : Ptr → Bool) (xs ys : Entries)
    → AllKeys (λ x. test x ≡ false) ys
    → find test (xs ++ ys) ≡ find test xs
find-append_left test [] [] h = refl
find-append_left test [] ((y, d) ∷ ys) h = rw h.0 (find-append_left test [] ys h.1)
find-append_left test ((x, d) ∷ xs) ys h =
    ap (λ t. if test x then some d else t) (find-append_left test xs ys h)

pub find-append_right :
    (test : Ptr → Bool) (xs ys : Entries)
    → AllKeys (λ x. test x ≡ false) xs
    → find test (xs ++ ys) ≡ find test ys
find-append_right test [] ys h = refl
find-append_right test ((x, d) ∷ xs) ys h = rw h.0 (find-append_right test xs ys h.1)

not_lt-flipped : (o : Ordering) → is_lt o ≡ false → is_le (flipped o) ≡ true
not_lt-flipped Ordering.lt h = cc
not_lt-flipped Ordering.eq h = refl
not_lt-flipped Ordering.gt h = refl

lt-flipped : (o : Ordering) → is_lt o ≡ true → is_le (flipped o) ≡ false
lt-flipped Ordering.lt h = refl
lt-flipped Ordering.eq h = cc
lt-flipped Ordering.gt h = cc

eq-flipped : (o : Ordering) → is_eq o ≡ true → (is_le o ≡ true) × (is_le (flipped o) ≡ true)
eq-flipped Ordering.lt h = absurd (cc)
eq-flipped Ordering.eq h = (refl, refl)
eq-flipped Ordering.gt h = absurd (cc)

module _ (e : Env) (o : IsTotalOrder e) where
  pub le_of_not_lt : (a b : Ptr) → is_lt (e.compare a b) ≡ false → Le e b a
  le_of_not_lt a b h = rw (o.flip a b) (not_lt-flipped (e.compare a b) h)

  pub not_le_of_lt : (a b : Ptr) → Lt e a b → is_le (e.compare b a) ≡ false
  not_le_of_lt a b h = rw (o.flip a b) (lt-flipped (e.compare a b) h)

  pub le_of_eq : (a b : Ptr) → is_eq (e.compare a b) ≡ true → Le e a b × Le e b a
  le_of_eq a b h = let (p, q) = eq-flipped (e.compare a b) h in (p, rw (o.flip a b) q)

  -- A key before `k` is none that is not before it.
  ne_of_lt : (key k x : Ptr) → Lt e key k → Le e k x → is_eq (e.compare key x) ≡ false
  ne_of_lt key k x l h = elim (Bool-cases (is_eq (e.compare key x))) [
    | inl same ↦
        let le = o.trans k x key h (le_of_eq key x same).1 in
        let gt = not_le_of_lt key k l in absurd (cc)
    | inr other ↦ other
  ]

  ne_of_gt : (key k x : Ptr) → Le e k key → Lt e x k → is_eq (e.compare key x) ≡ false
  ne_of_gt key k x h l = elim (Bool-cases (is_eq (e.compare key x))) [
    | inl same ↦
        let le = o.trans k key x h (le_of_eq key x same).0 in
        let gt = not_le_of_lt x k l in absurd (cc)
    | inr other ↦ other
  ]

  mutual
    -- The leaf that a key belongs to has all entries with that key.
    pub find-leaf_of :
        (key : Ptr) (t : Tree)
        → Ordered e t
        → find (λ x. is_eq (e.compare key x)) (entries t)
          ≡ find (λ x. is_eq (e.compare key x)) (leaf_entries (leaf_of e key t).1)
    find-leaf_of key (leaf p n) s = refl
    find-leaf_of key (node p n f) s = find-forest_leaf_of key f s

    find-forest_leaf_of :
        (key : Ptr) (f : Forest)
        → OrderedForest e f
        → find (λ x. is_eq (e.compare key x)) (forest_entries f)
          ≡ find (λ x. is_eq (e.compare key x)) (leaf_entries (forest_leaf_of e key f).1)
    find-forest_leaf_of key (last t) s = find-leaf_of key t s
    find-forest_leaf_of key (more t k f) s =
        let test : Ptr → Bool = λ x. is_eq (e.compare key x) in
        elim (Bool-cases (is_lt (e.compare key k))) [
          | inl before ↦ rw before (
              find-append_left test (entries t) (forest_entries f) (
                AllKeys-mono (λ x. Le e k x) (λ x. test x ≡ false) (forest_entries f)
                  (λ x h. ne_of_lt key k x before h) s.1)
              ∙ find-leaf_of key t s.2)
          | inr behind ↦ rw behind (
              find-append_right test (entries t) (forest_entries f) (
                AllKeys-mono (λ x. Lt e x k) (λ x. test x ≡ false) (entries t)
                  (λ x h. ne_of_gt key k x (le_of_not_lt key k behind) h) s.0)
              ∙ find-forest_leaf_of key f s.3)
        ]

-- The walk down from a node at child `i`, with `r` keys from there on.
abbrev from_child : Env → Ptr → ℕ → Node5 → ℕ → ℕ → Ordering → Bool → BptCmd (Ptr × Bool)
from_child e key rounds n r i k in_key = do
  (j, k') ← child_index e false key n.keys r i k
  child ← lift (get n.pointers j)
  descend e false key rounds child k' (if is_eq k' then true else in_key)

mutual
  unfolding descend child_index

  -- The walk ends at the leaf that the key belongs to; as many rounds as levels are enough.
  descend_tree :
      (e : Env) (key : Ptr) (m : Memory Node5) (order up stop : ℕ) (t : Tree) (rounds : ℕ)
      (k : Ordering) (b : Bool)
      → Stored m order up stop t
      → height t ≤ rounds
      → (b' : Bool) × (descend e false key rounds (root t) k b m ≡ ok ((leaf_of e key t).0, b') m)
  descend_tree e key m order up stop (leaf p n) zero k b s h = absurd (omega arith)
  descend_tree e key m order up stop (leaf p n) (suc rounds) k b s h =
      (b, rw (load-ok m p n s.0 s.1, s.2) refl)
  descend_tree e key m order up stop (node p n f) zero k b s h = absurd (omega arith)
  descend_tree e key m order up stop (node p n f) (suc rounds) k b s h =
      let (b', run) =
        descend_forest e key m order p stop n f rounds n.num_keys 0 k b s.7 (omega (arith, s.4))
          (omega (arith, s.5)) (omega arith) (omega arith) in
      (b', rw (load-ok m p n s.0 s.1, s.2) run)

  descend_forest :
      (e : Env) (key : Ptr) (m : Memory Node5) (order up stop : ℕ) (n : Node5) (f : Forest)
      (rounds r i : ℕ) (k : Ordering) (b : Bool)
      → Children m order up stop n i f
      → n.num_keys ≤ n.keys.cap
      → n.num_keys < n.pointers.cap
      → i + r ≡ n.num_keys
      → forest_height f ≤ rounds
      → (b' : Bool) × (from_child e key rounds n r i k b m ≡ ok ((forest_leaf_of e key f).0, b') m)
  descend_forest e key m order up stop n (last t) rounds zero i k b s ck cp ir h =
      let (b', run) =
        descend_tree e key m order up stop t rounds k (if is_eq k then true else b) s.2 h in
      (b', rw (get-ok n.pointers i (omega arith), s.1) run)
  descend_forest e key m order up stop n (last t) rounds (suc r) i k b s ck cp ir h =
      absurd (omega (arith, s.0))
  descend_forest e key m order up stop n (more t q f) rounds zero i k b s ck cp ir h =
      absurd (omega (arith, s.0))
  descend_forest e key m order up stop n (more t q f) rounds (suc r) i k b s ck cp ir h =
      let k' = e.compare key q in
      elim (Bool-cases (is_lt k')) [
        | inl before ↦
            let (b', run) =
              descend_tree e key m order up (forest_first_leaf f) t rounds k'
                (if is_eq k' then true else b) s.3 (omega arith) in
            (
              b',
              rw
                  (
                    get-ok n.keys i (omega arith),
                    s.1,
                    before,
                    get-ok n.pointers i (omega arith),
                    s.2,
                  )
                  run,
            )
        | inr behind ↦
            let (b', run) =
              descend_forest e key m order up stop n f rounds r (i + 1) k' b s.4 ck cp (omega arith)
                (omega arith) in
            (b', rw (get-ok n.keys i (omega arith), s.1, behind) run)
      ]

-- The node is a leaf of the tree, as stored.
abbrev pub LeafAt : Memory Node5 → ℕ → Ptr × Node5 → Type 0
LeafAt m order (p, n) =
    (p ≢ null)
    × (m.cells p ≡ some n)
    × (n.is_leaf ≡ true)
    × (n.keys.cap + 1 ≡ order)
    × (n.pointers.cap ≡ order)
    × (n.num_keys < order)

mutual
  pub leaf_of-LeafAt :
      (e : Env) (key : Ptr) (m : Memory Node5) (order up stop : ℕ) (t : Tree)
      → Stored m order up stop t
      → LeafAt m order (leaf_of e key t)
  leaf_of-LeafAt e key m order up stop (leaf p n) s = (s.0, s.1, s.2, s.4, s.5, s.6)
  leaf_of-LeafAt e key m order up stop (node p n f) s =
      forest_leaf_of-LeafAt e key m order p stop n 0 f s.7

  forest_leaf_of-LeafAt :
      (e : Env) (key : Ptr) (m : Memory Node5) (order up stop : ℕ) (n : Node5) (i : ℕ) (f : Forest)
      → Children m order up stop n i f
      → LeafAt m order (forest_leaf_of e key f)
  forest_leaf_of-LeafAt e key m order up stop n i (last t) s =
      leaf_of-LeafAt e key m order up stop t s.2
  forest_leaf_of-LeafAt e key m order up stop n i (more t k f) s =
      elim (Bool-cases (is_lt (e.compare key k))) [
        | inl before ↦ rw before (leaf_of-LeafAt e key m order up (forest_first_leaf f) t s.3)
        | inr behind ↦ rw behind (forest_leaf_of-LeafAt e key m order up stop n (i + 1) f s.4)
      ]

pub root-ne_null :
    (m : Memory Node5) (order up stop : ℕ) (t : Tree) → Stored m order up stop t → root t ≢ null
root-ne_null m order up stop (leaf p n) s = s.0
root-ne_null m order up stop (node p n f) s = s.0

lookup-find :
    (test : Ptr → Bool) (n : Node5) (i r : ℕ)
    → lookup test (slice n.keys.at i r) (slice n.pointers.at i r)
      ≡ or_null (find test (entries_from n i r))
lookup-find test n i zero = refl
lookup-find test n i (suc r) = elim (Bool-cases (test (n.keys.at i))) [
  | inl yes_it ↦ rw yes_it refl
  | inr not_it ↦ rw not_it (lookup-find test n (i + 1) r)
]

-- In an ordered tree with `samek` false, bpt_find_leaf ends at the leaf that the key belongs to, and
-- bpt_search is the lookup of the key in the list of all entries of the tree; the memory stays as it
-- is. As many rounds as the tree has levels are enough.
pub bpt_search-find :
    (e : Env) (o : IsTotalOrder e) (rounds : ℕ) (btree : Btree) (key : Ptr) (m : Memory Node5)
    (t : Tree) (up stop : Ptr)
    → Stored m btree.order up stop t
    → Ordered e t
    → btree.root ≡ root t
    → btree.samek ≡ false
    → height t ≤ rounds
    → (bpt_find_leaf e rounds btree key e.compare m ≡ ok (leaf_of e key t).0 m)
      × (bpt_search e rounds btree key m
          ≡ ok (or_null (find (λ x. is_eq (e.compare key x)) (entries t))) m)
unfolding bpt_search bpt_find_leaf
bpt_search-find e o rounds btree key m t up stop s sorted at_root unique h =
    let test : Ptr → Bool = λ x. is_eq (e.compare key x) in
    let (b, run) = descend_tree e key m btree.order up stop t rounds Ordering.gt false s h in
    let (p, n) = leaf_of e key t in
    let (ne, cell, is_leaf, ck, cp, small) = leaf_of-LeafAt e key m btree.order up stop t s in
    let not_both : (b && false) ≡ false = ground arith in
    let view =
      first_key-lookup test n.keys n.pointers n.num_keys n.num_keys 0 m (omega arith)
        (omega (arith, ck)) (omega (arith, cp)) in
    let found =
      view
      ∙ ap (λ v. ok v m)
          (lookup-find test n 0 n.num_keys ∙ ap or_null (sym (find-leaf_of e o key t sorted))) in
    rw
      (at_root, unique, ne→== (root t) null (root-ne_null m btree.order up stop t s), run, not_both)
      (refl, rw (ne→== p null ne, load-ok m p n ne cell) found)
