-- ===== src/Bpt/Tree/Join.antt =====
-- The children of a node in two parts, with a key between them: what an insertion that splits a
-- child of a node of btree/bpt3.c puts together, and what the split of that node takes apart.
use linux_kernel_struct.Common.{
  inr, inl, Bool-cases, ℕ, zero, suc, ◌+◌, ◌≤◌, ◌<◌, ◌≡◌, refl, sym, ap, ap₂, ◌∙◌, Bool, true,
  false, ◌∷◌, ◌++◌, ◌||◌, arith, append_assoc,
}
use linux_kernel_struct.Memory.{Ptr, Memory}
use linux_kernel_struct.Bpt.{Node5, Env}
use linux_kernel_struct.Bpt.Order.{Le}
use linux_kernel_struct.Bpt.Tree.{
  root, Forest, last, more, entries, forest_entries, forest_height, forest_first_leaf, Lt, AllKeys,
  OrderedForest, has_node, forest_has_node, ApartForest, IsTotalOrder,
}
use linux_kernel_struct.Bpt.Tree.Entries.{AllKeys-append, AllKeys-join}
use linux_kernel_struct.Bpt.Tree.Replace.{or_false}
use linux_kernel_struct.Bpt.Tree.Rising.{
  le_of_lt, lt_of_lt_le, lt_through, forest_filled, ProperForest,
}
use linux_kernel_struct.Bpt.Tree.Search.{AllKeys-mono}
use linux_kernel_struct.Bpt.Tree.Kids.{or_right, count, forest_keys, roots, Kids}

abbrev pub forest_join : Forest → Ptr → Forest → Forest
forest_join (last t) k g = more t k g
forest_join (more t k' f) k g = more t k' (forest_join f k g)

-- The first `s` keys go left, the next one is between.
pub cut :
    (s : ℕ) (f : Forest)
    → s < count f
    → (a : Forest) × (k : Ptr) × (b : Forest) × (f ≡ forest_join a k b) × (count a ≡ s)
cut s (last t) h = absurd (omega arith)
cut zero (more t k f) h = (last t, k, f, refl, refl)
cut (suc s) (more t k f) h =
    let (a, k', b, eq, c) = cut s f (omega arith) in (more t k a, k', b, ap (more t k) eq, ap suc c)

module _ (k : Ptr) (g : Forest) where
  pub keys-join :
      (f : Forest) → forest_keys (forest_join f k g) ≡ forest_keys f ++ k ∷ forest_keys g
  keys-join (last t) = refl
  keys-join (more t k' f) = ap (λ l. k' ∷ l) (keys-join f)

  pub roots-join : (f : Forest) → roots (forest_join f k g) ≡ roots f ++ roots g
  roots-join (last t) = refl
  roots-join (more t k' f) = ap (λ l. root t ∷ l) (roots-join f)

  pub count-join : (f : Forest) → count (forest_join f k g) ≡ count f + suc (count g)
  count-join (last t) = omega arith
  count-join (more t k' f) = omega (arith, count-join f)

  pub entries-join :
      (f : Forest) → forest_entries (forest_join f k g) ≡ forest_entries f ++ forest_entries g
  entries-join (last t) = refl
  entries-join (more t k' f) =
      ap (λ l. entries t ++ l) (entries-join f)
      ∙ sym (append_assoc (entries t) (forest_entries f) (forest_entries g))

  pub first_leaf-join : (f : Forest) → forest_first_leaf (forest_join f k g) ≡ forest_first_leaf f
  first_leaf-join (last t) = refl
  first_leaf-join (more t k' f) = refl

  pub has_node-join :
      (q : Ptr) (f : Forest)
      → forest_has_node q (forest_join f k g) ≡ (forest_has_node q f || forest_has_node q g)
  has_node-join q (last t) = refl
  has_node-join q (more t k' f) =
      rw (has_node-join q f) (assoc (has_node q t) (forest_has_node q f))
    where
      assoc : (a b : Bool) → (a || (b || forest_has_node q g)) ≡ ((a || b) || forest_has_node q g)
      assoc true b = refl
      assoc false b = refl

  pub height-join :
      (h : ℕ) (f : Forest)
      → (forest_height (forest_join f k g) ≤ h → (forest_height f ≤ h) × (forest_height g ≤ h))
        × (forest_height f ≤ h → forest_height g ≤ h → forest_height (forest_join f k g) ≤ h)
  height-join h (last t) = ((λ l. (omega arith, omega arith)), (λ l r. omega arith))
  height-join h (more t k' f) =
      let (apart, together) = height-join h f in
      (
        (λ l. let (a, b) = apart (omega arith) in (omega arith, b)),
        (λ l r. let both = together (omega arith) r in omega arith),
      )

  pub Kids-join :
      (m : Memory Node5) (order up stop : ℕ) (f : Forest)
      → Kids m order up (forest_first_leaf g) f
      → Kids m order up stop g
      → Kids m order up stop (forest_join f k g)
  Kids-join m order up stop (last t) a b = (a, b)
  Kids-join m order up stop (more t k' f) a b =
      (rw (first_leaf-join f) a.0, Kids-join m order up stop f a.1 b)

  pub Kids-cut :
      (m : Memory Node5) (order up stop : ℕ) (f : Forest)
      → Kids m order up stop (forest_join f k g)
      → Kids m order up (forest_first_leaf g) f × Kids m order up stop g
  Kids-cut m order up stop (last t) h = h
  Kids-cut m order up stop (more t k' f) h =
      let (a, b) = Kids-cut m order up stop f h.1 in ((rw (first_leaf-join f) at h.0, a), b)

  pub Apart-join :
      (f : Forest)
      → ApartForest f
      → ApartForest g
      → ((q : Ptr) → forest_has_node q f ≡ true → forest_has_node q g ≡ false)
      → ApartForest (forest_join f k g)
  Apart-join (last t) a b c = (c, a, b)
  Apart-join (more t k' f) a b c = (
    λ q h. has_node-join q f ∙ ap₂ ◌||◌ (a.0 q h) (c q (rw h refl)),
    a.1,
    Apart-join f a.2 b (λ q h. c q (or_right (has_node q t) (forest_has_node q f) h)),
  )

  pub Apart-cut :
      (f : Forest)
      → ApartForest (forest_join f k g)
      → ApartForest f
        × ApartForest g
        × ((q : Ptr) → forest_has_node q f ≡ true → forest_has_node q g ≡ false)
  Apart-cut (last t) h = (h.1, h.2, h.0)
  Apart-cut (more t k' f) h =
      let (a, b, c) = Apart-cut f h.2 in
      let out = λ (q : Ptr) (o : has_node q t ≡ true).
        or_false (forest_has_node q f) (forest_has_node q g) (sym (has_node-join q f) ∙ h.0 q o) in
      (
        ((λ q o. (out q o).0), h.1, a),
        b,
        λ q o. elim (Bool-cases (has_node q t)) [
          | inl hit ↦ (out q hit).1
          | inr miss ↦ c q (rw miss at o)
        ],
      )

module _ (e : Env) (o : IsTotalOrder e) (k : Ptr) (g : Forest) where
  pub Proper-join :
      (f : Forest) → ProperForest e f → ProperForest e g → ProperForest e (forest_join f k g)
  Proper-join (last t) a b = (a, b)
  Proper-join (more t k' f) a b = (a.0, Proper-join f a.1 b)

  pub Proper-cut :
      (f : Forest) → ProperForest e (forest_join f k g) → ProperForest e f × ProperForest e g
  Proper-cut (last t) h = h
  Proper-cut (more t k' f) h = let (a, b) = Proper-cut f h.1 in ((h.0, a), b)

  pub Ordered-join :
      (f : Forest)
      → ProperForest e f
      → AllKeys (λ x. Lt e x k) (forest_entries f)
      → AllKeys (λ x. Le e k x) (forest_entries g)
      → OrderedForest e f
      → OrderedForest e g
      → OrderedForest e (forest_join f k g)
  Ordered-join (last t) proper lo hi a b = (lo, hi, a, b)
  Ordered-join (more t k' f) proper lo hi a b =
      let (x, xs, eq) = forest_filled e f proper.1 in
      let (l1, l2) = AllKeys-append (λ y. Lt e y k) (entries t) (forest_entries f) lo in
      let below = lt_through e o k' k (forest_entries f) x xs eq a.1 l2 in
      (
        a.0,
        rw (entries-join k g f) (
            AllKeys-join (λ y. Le e k' y) (forest_entries f) (forest_entries g) a.1
              (AllKeys-mono (λ y. Le e k y) (λ y. Le e k' y) (forest_entries g)
                (λ y h. o.trans k' k y (le_of_lt e o k' k below) h) hi)),
        a.2,
        Ordered-join f proper.1 l2 hi a.3 b,
      )

  -- The two parts, with the keys left of `k` before it and the others not.
  pub Ordered-cut :
      (f : Forest)
      → ProperForest e (forest_join f k g)
      → OrderedForest e (forest_join f k g)
      → AllKeys (λ x. Lt e x k) (forest_entries f)
        × AllKeys (λ x. Le e k x) (forest_entries g)
        × OrderedForest e f
        × OrderedForest e g
  Ordered-cut (last t) proper h = h
  Ordered-cut (more t k' f) proper h =
      let (a, b, c, d) = Ordered-cut f proper.1 h.3 in
      let (l1, l2) =
        AllKeys-append (λ y. Le e k' y) (forest_entries f) (forest_entries g)
          (rw (entries-join k g f) at h.1) in
      let (x, xs, eq) = forest_filled e f (Proper-cut f proper.1).0 in
      let below = lt_through e o k' k (forest_entries f) x xs eq l1 a in
      (
        AllKeys-join (λ y. Lt e y k) (entries t) (forest_entries f)
            (AllKeys-mono (λ y. Lt e y k') (λ y. Lt e y k) (entries t)
              (λ y q. lt_of_lt_le e o y k' k q (le_of_lt e o k' k below)) h.0)
            a,
        b,
        (h.0, l1, h.2, c),
        d,
      )
