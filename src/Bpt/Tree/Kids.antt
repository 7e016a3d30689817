-- ===== src/Bpt/Tree/Kids.antt =====
-- The children of a B+ tree node of btree/bpt3.c as lists: the keys between them and their
-- addresses, apart from the arrays of the node that holds them.
use linux_kernel_struct.Common.{
  inr, inl, Bool-cases, ℕ, suc, ◌+◌, ◌≡◌, refl, ap, ap₂, ◌∙◌, Bool, true, false, some, List, [],
  ◌∷◌, ◌==◌, ◌||◌, arith,
}
use linux_kernel_struct.Memory.{Ptr, Memory}
use linux_kernel_struct.Arrays.{slice}
use linux_kernel_struct.Bpt.{Node5}
use linux_kernel_struct.Bpt.Tree.{
  Tree, leaf, node, Forest, last, more, root, Stored, Children, forest_first_leaf, has_node,
  forest_has_node,
}

-- The number of keys between the children.
abbrev pub count : Forest → ℕ
count (last t) = 0
count (more t k f) = suc (count f)

abbrev pub forest_keys : Forest → List Ptr
forest_keys (last t) = []
forest_keys (more t k f) = k ∷ forest_keys f

abbrev pub roots : Forest → List Ptr
roots (last t) = root t ∷ []
roots (more t k f) = root t ∷ roots f

-- The heap holds the children of the node at `up`.
abbrev pub Kids : Memory Node5 → ℕ → Ptr → Ptr → Forest → Type 0
Kids m order up stop (last t) = Stored m order up stop t
Kids m order up stop (more t k f) =
    Stored m order up (forest_first_leaf f) t × Kids m order up stop f

-- The node has the keys and the addresses of these children from `i` on.
pub record Holds (n : Node5) (i : ℕ) (f : Forest) : Type 0 where
  pub num_keys : i + count f ≡ n.num_keys
  pub keys : slice n.keys.at i (count f) ≡ forest_keys f
  pub pointers : slice n.pointers.at i (suc (count f)) ≡ roots f

pub cons-parts : (x y : Ptr) (xs ys : List Ptr) → x ∷ xs ≡ y ∷ ys → (x ≡ y) × (xs ≡ ys)
cons-parts x y xs ys h = (cc, cc)

pub Children-Holds :
    (m : Memory Node5) (order up stop : ℕ) (n : Node5) (i : ℕ) (f : Forest)
    → Children m order up stop n i f
    → Holds n i f × Kids m order up stop f
Children-Holds m order up stop n i (last t) s =
    (record { num_keys = omega arith; keys = refl; pointers = ap (λ p. p ∷ []) s.1 }, s.2)
Children-Holds m order up stop n i (more t k f) s =
    let (h, kids) = Children-Holds m order up stop n (i + 1) f s.4 in
    (
      record {
        num_keys = omega (arith, h.num_keys);
        keys = ap₂ ◌∷◌ s.1 h.keys;
        pointers = ap₂ ◌∷◌ s.2 h.pointers;
      },
      (s.3, kids),
    )

pub Holds-Children :
    (m : Memory Node5) (order up stop : ℕ) (n : Node5) (i : ℕ) (f : Forest)
    → Holds n i f
    → Kids m order up stop f
    → Children m order up stop n i f
Holds-Children m order up stop n i (last t) h kids =
    (omega (arith, h.num_keys), (cons-parts (n.pointers.at i) (root t) [] [] h.pointers).0, kids)
Holds-Children m order up stop n i (more t k f) h kids =
    let (k_eq, ks) =
      cons-parts (n.keys.at i) k (slice n.keys.at (i + 1) (count f)) (forest_keys f) h.keys in
    let (p_eq, ps) =
      cons-parts (n.pointers.at i) (root t) (slice n.pointers.at (i + 1) (suc (count f))) (roots f)
        h.pointers in
    (
      omega (arith, h.num_keys),
      k_eq,
      p_eq,
      kids.0,
      Holds-Children m order up stop n (i + 1) f
          (record { num_keys = omega (arith, h.num_keys); keys = ks; pointers = ps }) kids.1,
    )

pub or_left : (a b : Bool) → a ≡ true → (a || b) ≡ true
or_left a b h = rw h refl

pub or_right : (a b : Bool) → b ≡ true → (a || b) ≡ true
or_right true b h = refl
or_right false b h = h

-- A tree survives a change of the heap outside it.
module _ (m g : Memory Node5) (order : ℕ) where
  mutual
    pub Stored-same :
        (up stop : Ptr) (t : Tree)
        → ((q : Ptr) → has_node q t ≡ true → g.cells q ≡ m.cells q)
        → Stored m order up stop t
        → Stored g order up stop t
    Stored-same up stop (leaf p n) h s =
        (s.0, h p (ground arith) ∙ s.1, s.2, s.3, s.4, s.5, s.6, s.7)
    Stored-same up stop (node p n f) h s = (
      s.0,
      h p (or_left (p == p) (forest_has_node p f) (ground arith)) ∙ s.1,
      s.2,
      s.3,
      s.4,
      s.5,
      s.6,
      Children-same p stop n 0 f (λ q o. h q (or_right (q == p) (forest_has_node q f) o)) s.7,
    )

    Children-same :
        (up stop : Ptr) (n : Node5) (i : ℕ) (f : Forest)
        → ((q : Ptr) → forest_has_node q f ≡ true → g.cells q ≡ m.cells q)
        → Children m order up stop n i f
        → Children g order up stop n i f
    Children-same up stop n i (last t) h s = (s.0, s.1, Stored-same up stop t h s.2)
    Children-same up stop n i (more t k f) h s = (
      s.0,
      s.1,
      s.2,
      Stored-same up (forest_first_leaf f) t
          (λ q o. h q (or_left (has_node q t) (forest_has_node q f) o)) s.3,
      Children-same up stop n (i + 1) f
          (λ q o. h q (or_right (has_node q t) (forest_has_node q f) o)) s.4,
    )

  pub Kids-same :
      (up stop : Ptr) (f : Forest)
      → ((q : Ptr) → forest_has_node q f ≡ true → g.cells q ≡ m.cells q)
      → Kids m order up stop f
      → Kids g order up stop f
  Kids-same up stop (last t) h s = Stored-same up stop t h s
  Kids-same up stop (more t k f) h s = (
    Stored-same up (forest_first_leaf f) t
        (λ q o. h q (or_left (has_node q t) (forest_has_node q f) o)) s.0,
    Kids-same up stop f (λ q o. h q (or_right (has_node q t) (forest_has_node q f) o)) s.1,
  )

-- Every node of a stored tree is in use.
module _ (m : Memory Node5) (order : ℕ) where
  mutual
    pub has_node-used :
        (up stop : Ptr) (t : Tree) (q : Ptr)
        → Stored m order up stop t
        → has_node q t ≡ true
        → (n : Node5) × (m.cells q ≡ some n)
    has_node-used up stop (leaf p n) q s h = let same : q ≡ p = ground arith in (n, rw same s.1)
    has_node-used up stop (node p n f) q s h = elim (Bool-cases (q == p)) [
      | inl hit ↦ let same : q ≡ p = ground arith in (n, rw same s.1)
      | inr miss ↦
          forest_has_node-used p stop f q (Children-Holds m order p stop n 0 f s.7).1 (rw miss at h)
    ]

    pub forest_has_node-used :
        (up stop : Ptr) (f : Forest) (q : Ptr)
        → Kids m order up stop f
        → forest_has_node q f ≡ true
        → (n : Node5) × (m.cells q ≡ some n)
    forest_has_node-used up stop (last t) q s h = has_node-used up stop t q s h
    forest_has_node-used up stop (more t k f) q s h = elim (Bool-cases (has_node q t)) [
      | inl hit ↦ has_node-used up (forest_first_leaf f) t q s.0 hit
      | inr miss ↦ forest_has_node-used up stop f q s.1 (rw miss at h)
    ]
