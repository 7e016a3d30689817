-- ===== src/Bpt/Tree/Rising.antt =====
-- Leaves of btree/bpt3.c whose keys ascend strictly, as the keys of a tree without equal keys do.
use Prim.Native.Nat.{Ordering}
use linux_kernel_struct.Common.{
  ℕ, zero, suc, ◌+◌, ◌-◌, ◌≤◌, ◌<◌, ◌≡◌, refl, sym, ap, ◌∙◌, true, false, [], ◌∷◌, ◌++◌, arith,
  Bool-cases, inl, inr,
}
use native.Mathlib.Decide.{ℕ_discrete}
use linux_kernel_struct.Memory.{Ptr}
use linux_kernel_struct.Bpt.{Env, is_lt, is_le, is_eq}
use linux_kernel_struct.Bpt.Order.{Le, Sorted, IsPlace}
use linux_kernel_struct.Bpt.Tree.{
  Entries, Tree, leaf, node, Forest, last, more, pairs, leaf_entries, entries, forest_entries,
  flipped, IsTotalOrder, Lt, AllKeys,
}
use linux_kernel_struct.Bpt.Tree.Entries.{pairs-halves, AllKeys-append, AllKeys-join}
use linux_kernel_struct.Bpt.Tree.Search.{not_le_of_lt}

lt_of_not_le-flipped : (o : Ordering) → is_le (flipped o) ≡ false → is_lt o ≡ true
lt_of_not_le-flipped Ordering.lt h = refl
lt_of_not_le-flipped Ordering.eq h = absurd (cc)
lt_of_not_le-flipped Ordering.gt h = absurd (cc)

le_of_lt-raw : (o : Ordering) → is_lt o ≡ true → is_le o ≡ true
le_of_lt-raw Ordering.lt h = refl
le_of_lt-raw Ordering.eq h = absurd (cc)
le_of_lt-raw Ordering.gt h = absurd (cc)

le_ne-lt : (o : Ordering) → is_le o ≡ true → is_eq (flipped o) ≡ false → is_lt o ≡ true
le_ne-lt Ordering.lt h k = refl
le_ne-lt Ordering.eq h k = absurd (cc)
le_ne-lt Ordering.gt h k = absurd (cc)

-- The keys ascend strictly.
abbrev pub Rising : Env → Entries → Type 0
Rising e [] = Unit {0}
Rising e (x ∷ xs) = AllKeys (λ y. Lt e x.0 y) xs × Rising e xs

-- Every leaf has entries, and their keys ascend strictly.
abbrev mutual
  pub Proper : Env → Tree → Type 0
  Proper e (leaf p n) = (1 ≤ n.num_keys) × Rising e (leaf_entries n)
  Proper e (node p n f) = ProperForest e f

  pub ProperForest : Env → Forest → Type 0
  ProperForest e (last t) = Proper e t
  ProperForest e (more t k f) = Proper e t × ProperForest e f

mutual
  pub filled :
      (e : Env) (t : Tree) → Proper e t → (x : Ptr × Ptr) × (xs : Entries) × (entries t ≡ x ∷ xs)
  filled e (leaf p n) h =
      elim n.num_keys
          as (λ (c : ℕ).
            1 ≤ c
            → (x : Ptr × Ptr) × (xs : Entries) × (pairs n.keys.at n.pointers.at 0 c ≡ x ∷ xs)) [
              | zero ↦ λ l. absurd (omega arith)
              | suc c ↦ λ l.
                  ((n.keys.at 0, n.pointers.at 0), pairs n.keys.at n.pointers.at (0 + 1) c, refl)
            ]
        h.0
  filled e (node p n f) h = forest_filled e f h

  pub forest_filled :
      (e : Env) (f : Forest)
      → ProperForest e f
      → (x : Ptr × Ptr) × (xs : Entries) × (forest_entries f ≡ x ∷ xs)
  forest_filled e (last t) h = filled e t h
  forest_filled e (more t k f) h =
      let (x, xs, eq) = filled e t h.0 in
      (x, xs ++ forest_entries f, ap (λ l. l ++ forest_entries f) eq)

module _ (e : Env) (o : IsTotalOrder e) where
  pub lt_of_not_le : (a b : Ptr) → is_le (e.compare b a) ≡ false → Lt e a b
  lt_of_not_le a b h = lt_of_not_le-flipped (e.compare a b) (sym (ap is_le (o.flip a b)) ∙ h)

  pub le_of_lt : (a b : Ptr) → Lt e a b → Le e a b
  le_of_lt a b h = le_of_lt-raw (e.compare a b) h

  pub lt_of_le_lt : (a b c : Ptr) → Le e a b → Lt e b c → Lt e a c
  lt_of_le_lt a b c h l = elim (Bool-cases (is_le (e.compare c a))) [
    | inl back ↦ let gt = not_le_of_lt e o b c l in let le = o.trans c a b back h in absurd (cc)
    | inr no_way ↦ lt_of_not_le a c no_way
  ]

  pub lt_of_lt_le : (a b c : Ptr) → Lt e a b → Le e b c → Lt e a c
  lt_of_lt_le a b c l h = elim (Bool-cases (is_le (e.compare c a))) [
    | inl back ↦ let gt = not_le_of_lt e o a b l in let le = o.trans b c a h back in absurd (cc)
    | inr no_way ↦ lt_of_not_le a c no_way
  ]

  pub lt_of_le_ne : (a b : Ptr) → Le e a b → is_eq (e.compare b a) ≡ false → Lt e a b
  lt_of_le_ne a b h ne = le_ne-lt (e.compare a b) h (sym (ap is_eq (o.flip a b)) ∙ ne)

  -- Around an entry that is not empty: what is not before `a` and before `b`.
  pub lt_through :
      (a b : Ptr) (xs : Entries) (x : Ptr × Ptr) (rest : Entries)
      → xs ≡ x ∷ rest
      → AllKeys (λ y. Le e a y) xs
      → AllKeys (λ y. Lt e y b) xs
      → Lt e a b
  lt_through a b xs x rest eq h l =
      let low : AllKeys (λ y. Le e a y) (x ∷ rest) = rw eq at h in
      let up : AllKeys (λ y. Lt e y b) (x ∷ rest) = rw eq at l in lt_of_le_lt a x.0 b low.0 up.0

  pub Rising-append :
      (xs ys : Entries)
      → Rising e (xs ++ ys)
      → Rising e xs × Rising e ys × AllKeys (λ x. AllKeys (λ y. Lt e x y) ys) xs
  Rising-append [] ys h = (tt, h, tt)
  Rising-append (x ∷ xs) ys h =
      let (a, b, c) = Rising-append xs ys h.1 in
      let (d, f) = AllKeys-append (λ y. Lt e x.0 y) xs ys h.0 in ((d, a), b, (f, c))

  -- An entry put in between smaller and greater ones.
  pub Rising-insert :
      (k d : Ptr) (xs ys : Entries)
      → Rising e (xs ++ ys)
      → AllKeys (λ x. Lt e x k) xs
      → AllKeys (λ y. Lt e k y) ys
      → Rising e (xs ++ (k, d) ∷ ys)
  Rising-insert k d [] ys h a b = (b, h)
  Rising-insert k d (x ∷ xs) ys h a b =
      let (p, q) = AllKeys-append (λ y. Lt e x.0 y) xs ys h.0 in
      (
        AllKeys-join (λ y. Lt e x.0 y) xs ((k, d) ∷ ys) p (a.0, q),
        Rising-insert k d xs ys h.1 a.1 b,
      )

pub pairs-all :
    (P : Ptr → Type 0) (f g : ℕ → Ptr) (i n : ℕ)
    → ((k : ℕ) → k < n → P (f (i + k)))
    → AllKeys P (pairs f g i n)
pairs-all P f g i zero h = tt
pairs-all P f g i (suc n) h =
    let here : i + 0 ≡ i = omega arith in
    (
      rw here at (h 0 (omega arith)),
      pairs-all P f g (i + 1) n (λ k l.
          let next : i + (k + 1) ≡ i + 1 + k = omega arith in rw next at (h (k + 1) (omega arith))),
    )

pub pairs-at :
    (P : Ptr → Type 0) (f g : ℕ → Ptr) (i n : ℕ)
    → AllKeys P (pairs f g i n)
    → (j : ℕ) → i ≤ j
    → j < i + n
    → P (f j)
pairs-at P f g i zero h j l u = absurd (omega arith)
pairs-at P f g i (suc n) h j l u = elim (ℕ_discrete i j) [
  | yes here ↦ rw here at h.0
  | no behind ↦ pairs-at P f g (i + 1) n h.1 j (omega arith) (omega arith)
]

module _ (e : Env) (o : IsTotalOrder e) (f g : ℕ → Ptr) where
  Rising-from :
      (i n : ℕ)
      → Rising e (pairs f g i n)
      → (j k : ℕ) → i ≤ j
      → j < k
      → k < i + n
      → Lt e (f j) (f k)
  Rising-from i zero h j k l m u = absurd (omega arith)
  Rising-from i (suc n) h j k l m u = elim (ℕ_discrete i j) [
    | yes here ↦
        rw here at (pairs-at (λ y. Lt e (f i) y) f g (i + 1) n h.0 k (omega arith) (omega arith))
    | no behind ↦ Rising-from (i + 1) n h.1 j k (omega arith) m (omega arith)
  ]

  -- Strictly ascending is ascending.
  pub Rising-Sorted : (n : ℕ) → Rising e (pairs f g 0 n) → Sorted e f n
  Rising-Sorted n h i j l u = elim (ℕ_discrete i j) [
    | yes same ↦ rw same (self (f j))
    | no before ↦
        le_of_lt e o (f i) (f j) (Rising-from 0 n h i j (omega arith) (omega arith) (omega arith))
  ]
    where
      self : (a : Ptr) → Le e a a
      self a = elim (Bool-cases (is_le (e.compare a a))) [
        | inl le ↦ le
        | inr gt ↦ le_of_lt e o a a (lt_of_not_le e o a a gt)
      ]

  -- A new key stands strictly between the entries around its place.
  pub place-Rising :
      (n idx key item : ℕ)
      → Rising e (pairs f g 0 n)
      → IsPlace e f key 0 n idx
      → AllKeys (λ x. is_eq (e.compare key x) ≡ false) (pairs f g 0 n)
      → Rising e (pairs f g 0 idx ++ (key, item) ∷ pairs f g idx (n - idx))
  place-Rising n idx key item h p fresh =
      let all = pairs-halves f g idx n p.within in
      Rising-insert e o key item (pairs f g 0 idx) (pairs f g idx (n - idx)) (rw all at h)
        (pairs-all (λ x. Lt e x key) f g 0 idx
          (λ k l.
            let here : 0 + k ≡ k = omega arith in
            rw here (
              lt_of_le_ne e o (f k) key (p.before k (omega arith) l) (
                pairs-at (λ x. is_eq (e.compare key x) ≡ false) f g 0 n fresh k (omega arith)
                  (omega (arith, p.within))))))
        (pairs-all (λ y. Lt e key y) f g idx (n - idx)
          (λ k l.
            let first = lt_of_not_le e o key (f idx) (p.behind (omega arith)) in
            elim (ℕ_discrete k 0) [
              | yes at_first ↦ let here : idx + k ≡ idx = omega arith in rw here first
              | no later ↦ lt_of_lt_le e o key (f idx) (f (idx + k)) first (
                  le_of_lt e o (f idx) (f (idx + k))
                    (Rising-from 0 n h idx (idx + k) (omega arith) (omega arith) (omega arith)))
            ]))
