-- ===== src/Bpt/Tree/Replace.antt =====
-- A leaf of a tree replaced in the heap: what stays, and what of the tree changes.
use linux_kernel_struct.Common.{
  ℕ, suc, ◌+◌, ◌-◌, ◌<◌, ◌≡◌, ◌≢◌, refl, sym, ap, ◌∙◌, Bool, true, false, some, ◌∷◌, ◌++◌, ◌==◌,
  ◌||◌, arith, Bool-cases, inl, inr, eq→==, append_assoc, max,
}
use mathlib.Core.Path.{subst}
use linux_kernel_struct.Memory.{Ptr, Memory, write}
use linux_kernel_struct.Memory.Chain.{write_self, write-ne}
use linux_kernel_struct.Bpt.{Node5, Env, is_lt}
use linux_kernel_struct.Bpt.Tree.{
  Entries, Tree, leaf, node, Forest, last, more, root, leaf_entries, entries, forest_entries,
  height, forest_height, Stored, Children, leaf_of, forest_leaf_of, forest_first_leaf, first_leaf,
  with_leaf, forest_with_leaf, has_node, forest_has_node, Apart, ApartForest, Inserted,
}

abbrev pub written : Memory Node5 → Ptr → Node5 → Memory Node5
written m a n = record m { cells = write m.cells a (some n) }

ne_of_apart : (a p : Ptr) (b : Bool) → ((a == p) || b) ≡ false → (p ≢ a) × (b ≡ false)
ne_of_apart a p b h = elim (Bool-cases (a == p)) [
  | inl same ↦ absurd (ground arith)
  | inr other ↦ ((λ q. ground arith), (ground arith))
]

pub or_false : (a b : Bool) → (a || b) ≡ false → (a ≡ false) × (b ≡ false)
or_false true b h = absurd cc
or_false false b h = (refl, h)

mutual
  -- A tree survives a write outside it.
  pub Stored-write :
      (m : Memory Node5) (order up stop a : ℕ) (c : Node5) (t : Tree)
      → has_node a t ≡ false
      → Stored m order up stop t
      → Stored (written m a c) order up stop t
  Stored-write m order up stop a c (leaf p n) out s =
      let p_ne_a : p ≢ a = λ q. ground arith in
      (s.0, write-ne m.cells a p (some c) p_ne_a ∙ s.1, s.2, s.3, s.4, s.5, s.6, s.7)
  Stored-write m order up stop a c (node p n f) out s =
      let (p_ne_a, below) = ne_of_apart a p (forest_has_node a f) out in
      (
        s.0,
        write-ne m.cells a p (some c) p_ne_a ∙ s.1,
        s.2,
        s.3,
        s.4,
        s.5,
        s.6,
        Children-write m order p stop a c n 0 f below s.7,
      )

  pub Children-write :
      (m : Memory Node5) (order up stop a : ℕ) (c : Node5) (n : Node5) (i : ℕ) (f : Forest)
      → forest_has_node a f ≡ false
      → Children m order up stop n i f
      → Children (written m a c) order up stop n i f
  Children-write m order up stop a c n i (last t) out s =
      (s.0, s.1, Stored-write m order up stop a c t out s.2)
  Children-write m order up stop a c n i (more t k f) out s =
      let (o1, o2) = or_false (has_node a t) (forest_has_node a f) out in
      (
        s.0,
        s.1,
        s.2,
        Stored-write m order up (forest_first_leaf f) a c t o1 s.3,
        Children-write m order up stop a c n (i + 1) f o2 s.4,
      )

pub Inserted-left :
    (x : Ptr × Ptr) (old new ys : Entries) → Inserted x old new → Inserted x (old ++ ys) (new ++ ys)
Inserted-left x old new ys (xs, zs, e1, e2) = (
  xs,
  zs ++ ys,
  ap (λ t. t ++ ys) e1 ∙ append_assoc xs zs ys,
  ap (λ t. t ++ ys) e2 ∙ append_assoc xs (x ∷ zs) ys,
)

pub Inserted-right :
    (x : Ptr × Ptr) (old new ys : Entries) → Inserted x old new → Inserted x (ys ++ old) (ys ++ new)
Inserted-right x old new ys (xs, zs, e1, e2) = (
  ys ++ xs,
  zs,
  ap (λ t. ys ++ t) e1 ∙ sym (append_assoc ys xs zs),
  ap (λ t. ys ++ t) e2 ∙ sym (append_assoc ys xs (x ∷ zs)),
)

module _ (e : Env) (key : Ptr) where
  mutual
    pub has_node-leaf_of : (t : Tree) → has_node (leaf_of e key t).0 t ≡ true
    has_node-leaf_of (leaf p n) = eq→== p p refl
    has_node-leaf_of (node p n f) = ground (arith, forest_has_node-leaf_of f)

    pub forest_has_node-leaf_of : (f : Forest) → forest_has_node (forest_leaf_of e key f).0 f ≡ true
    forest_has_node-leaf_of (last t) = has_node-leaf_of t
    forest_has_node-leaf_of (more t k f) = elim (Bool-cases (is_lt (e.compare key k))) [
      | inl before ↦ rw (before, has_node-leaf_of t) refl
      | inr behind ↦ rw behind (ground (arith, forest_has_node-leaf_of f))
    ]

  module _ (n' : Node5) where
    -- The addresses stay.
    mutual
      pub root-with_leaf : (t : Tree) → root (with_leaf e key n' t) ≡ root t
      root-with_leaf (leaf p n) = refl
      root-with_leaf (node p n f) = refl

      pub first_leaf-with_leaf : (t : Tree) → first_leaf (with_leaf e key n' t) ≡ first_leaf t
      first_leaf-with_leaf (leaf p n) = refl
      first_leaf-with_leaf (node p n f) = forest_first_leaf-with_leaf f

      pub forest_first_leaf-with_leaf :
          (f : Forest) → forest_first_leaf (forest_with_leaf e key n' f) ≡ forest_first_leaf f
      forest_first_leaf-with_leaf (last t) = first_leaf-with_leaf t
      forest_first_leaf-with_leaf (more t k f) = elim (Bool-cases (is_lt (e.compare key k))) [
        | inl before ↦ rw before (first_leaf-with_leaf t)
        | inr behind ↦ rw behind refl
      ]

    mutual
      pub has_node-with_leaf :
          (a : Ptr) (t : Tree) → has_node a (with_leaf e key n' t) ≡ has_node a t
      has_node-with_leaf a (leaf p n) = refl
      has_node-with_leaf a (node p n f) = ap (λ b. (a == p) || b) (forest_has_node-with_leaf a f)

      pub forest_has_node-with_leaf :
          (a : Ptr) (f : Forest)
          → forest_has_node a (forest_with_leaf e key n' f) ≡ forest_has_node a f
      forest_has_node-with_leaf a (last t) = has_node-with_leaf a t
      forest_has_node-with_leaf a (more t k f) = elim (Bool-cases (is_lt (e.compare key k))) [
        | inl before ↦ rw before (ap (λ b. b || forest_has_node a f) (has_node-with_leaf a t))
        | inr behind ↦ rw behind (ap (λ b. has_node a t || b) (forest_has_node-with_leaf a f))
      ]

    mutual
      pub height-with_leaf : (t : Tree) → height (with_leaf e key n' t) ≡ height t
      height-with_leaf (leaf p n) = refl
      height-with_leaf (node p n f) = ap suc (forest_height-with_leaf f)

      forest_height-with_leaf :
          (f : Forest) → forest_height (forest_with_leaf e key n' f) ≡ forest_height f
      forest_height-with_leaf (last t) = height-with_leaf t
      forest_height-with_leaf (more t k f) = elim (Bool-cases (is_lt (e.compare key k))) [
        | inl before ↦ rw before (ap (λ h. max h (forest_height f)) (height-with_leaf t))
        | inr behind ↦ rw behind (ap (λ h. max (height t) h) (forest_height-with_leaf f))
      ]

    mutual
      pub with_leaf-Apart : (t : Tree) → Apart t → Apart (with_leaf e key n' t)
      with_leaf-Apart (leaf p n) a = tt
      with_leaf-Apart (node p n f) a =
          (forest_has_node-with_leaf p f ∙ a.0, forest_with_leaf-Apart f a.1)

      forest_with_leaf-Apart :
          (f : Forest) → ApartForest f → ApartForest (forest_with_leaf e key n' f)
      forest_with_leaf-Apart (last t) a = with_leaf-Apart t a
      forest_with_leaf-Apart (more t k f) a = elim (Bool-cases (is_lt (e.compare key k))) [
        | inl before ↦
            rw before
              ((λ q h. a.0 q (sym (has_node-with_leaf q t) ∙ h)), with_leaf-Apart t a.1, a.2)
        | inr behind ↦
            rw behind
              ((λ q h. forest_has_node-with_leaf q f ∙ a.0 q h), a.1, forest_with_leaf-Apart f a.2)
      ]

    -- One entry more in the leaf is one more in the tree, at its place.
    mutual
      pub with_leaf-Inserted :
          (x : Ptr × Ptr) (t : Tree)
          → Inserted x (leaf_entries (leaf_of e key t).1) (leaf_entries n')
          → Inserted x (entries t) (entries (with_leaf e key n' t))
      with_leaf-Inserted x (leaf p n) h = h
      with_leaf-Inserted x (node p n f) h = forest_with_leaf-Inserted x f h

      pub forest_with_leaf-Inserted :
          (x : Ptr × Ptr) (f : Forest)
          → Inserted x (leaf_entries (forest_leaf_of e key f).1) (leaf_entries n')
          → Inserted x (forest_entries f) (forest_entries (forest_with_leaf e key n' f))
      forest_with_leaf-Inserted x (last t) h = with_leaf-Inserted x t h
      forest_with_leaf-Inserted x (more t k f) h = elim (Bool-cases (is_lt (e.compare key k))) [
        | inl before ↦ rw before (
            Inserted-left x (entries t) (entries (with_leaf e key n' t)) (forest_entries f)
              (with_leaf-Inserted x t (rw before at h)))
        | inr behind ↦ rw behind (
            Inserted-right x (forest_entries f) (forest_entries (forest_with_leaf e key n' f))
              (entries t) (forest_with_leaf-Inserted x f (rw behind at h)))
      ]

not_left : (a b : Bool) → (a ≡ true → b ≡ false) → b ≡ true → a ≡ false
not_left true b h t = absurd (cc (h refl))
not_left false b h t = refl

-- What a leaf keeps when an entry is put in.
pub record SameLeaf (order : ℕ) (n n' : Node5) : Type 0 where
  pub is_leaf : n'.is_leaf ≡ n.is_leaf
  pub parent : n'.parent ≡ n.parent
  pub keys_cap : n'.keys.cap ≡ n.keys.cap
  pub pointers_cap : n'.pointers.cap ≡ n.pointers.cap
  pub room : n'.num_keys < order
  pub next : n'.pointers.at (order - 1) ≡ n.pointers.at (order - 1)

module _ (e : Env) (key : Ptr) (m : Memory Node5) (order : ℕ) (n' : Node5) where
  mutual
    -- The tree with the leaf replaced is stored once the leaf is written.
    pub with_leaf-Stored :
        (up stop : Ptr) (t : Tree)
        → Stored m order up stop t
        → Apart t
        → SameLeaf order (leaf_of e key t).1 n'
        → Stored (written m (leaf_of e key t).0 n') order up stop (with_leaf e key n' t)
    with_leaf-Stored up stop (leaf p n) s a k = (
      s.0,
      write_self m.cells p (some n'),
      k.is_leaf ∙ s.2,
      k.parent ∙ s.3,
      ap (λ c. c + 1) k.keys_cap ∙ s.4,
      k.pointers_cap ∙ s.5,
      k.room,
      k.next ∙ s.7,
    )
    with_leaf-Stored up stop (node p n f) s a k =
        let q = (forest_leaf_of e key f).0 in
        let q_in = forest_has_node-leaf_of e key f in
        let p_ne_q : p ≢ q = λ eq. cc (ap (λ z. forest_has_node z f) eq) in
        (
          s.0,
          write-ne m.cells q p (some n') p_ne_q ∙ s.1,
          s.2,
          s.3,
          s.4,
          s.5,
          s.6,
          forest_with_leaf-Children p stop n 0 f s.7 a.1 k,
        )

    forest_with_leaf-Children :
        (up stop : Ptr) (n : Node5) (i : ℕ) (f : Forest)
        → Children m order up stop n i f
        → ApartForest f
        → SameLeaf order (forest_leaf_of e key f).1 n'
        → Children
            (written m (forest_leaf_of e key f).0 n')
            order
            up
            stop
            n
            i
            (forest_with_leaf e key n' f)
    forest_with_leaf-Children up stop n i (last t) s a k =
        (s.0, s.1 ∙ sym (root-with_leaf e key n' t), with_leaf-Stored up stop t s.2 a k)
    forest_with_leaf-Children up stop n i (more t k f) s a same =
        elim (Bool-cases (is_lt (e.compare key k))) [
          | inl before ↦
              let q = (leaf_of e key t).0 in
              let same' : SameLeaf order (leaf_of e key t).1 n' = rw before at same in
              rw before (
                s.0,
                s.1,
                s.2 ∙ sym (root-with_leaf e key n' t),
                with_leaf-Stored up (forest_first_leaf f) t s.3 a.1 same',
                Children-write m order up stop q n' n (i + 1) f (a.0 q (has_node-leaf_of e key t))
                    s.4,
              )
          | inr behind ↦
              let q = (forest_leaf_of e key f).0 in
              let same' : SameLeaf order (forest_leaf_of e key f).1 n' = rw behind at same in
              let out =
                not_left (has_node q t) (forest_has_node q f) (a.0 q)
                  (forest_has_node-leaf_of e key f) in
              rw behind (
                s.0,
                s.1,
                s.2,
                subst (λ z. Stored (written m q n') order up z t)
                    (sym (forest_first_leaf-with_leaf e key n' f))
                    (Stored-write m order up (forest_first_leaf f) q n' t out s.3),
                forest_with_leaf-Children up stop n (i + 1) f s.4 a.2 same',
              )
        ]
