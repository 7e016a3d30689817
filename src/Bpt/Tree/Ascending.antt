-- ===== src/Bpt/Tree/Ascending.antt =====
-- The entries of a B+ tree of btree/bpt3.c without equal keys ascend strictly, and an entry that is
-- put in stands at the place that the order gives it.
use linux_kernel_struct.Common.{
  ◌≡◌, refl, sym, ap, ◌∙◌, false, [], ◌∷◌, ◌++◌, Bool-cases, inl, inr, if◌then◌else◌,
}
use linux_kernel_struct.Memory.{Ptr}
use linux_kernel_struct.Bpt.{Env, is_lt}
use linux_kernel_struct.Bpt.Order.{Le}
use linux_kernel_struct.Bpt.Tree.{
  Entries, Tree, leaf, node, Forest, last, more, entries, forest_entries, IsTotalOrder, Lt, AllKeys,
  Ordered, OrderedForest, Inserted,
}
use linux_kernel_struct.Bpt.Tree.Entries.{AllKeys-append, AllKeys-join}
use linux_kernel_struct.Bpt.Tree.Search.{AllKeys-mono, not_le_of_lt}
use linux_kernel_struct.Bpt.Tree.Rising.{le_of_lt, Rising, Proper, ProperForest, lt_of_lt_le}

-- Insertion into an ascending list.
abbrev pub put_sorted : Env → Ptr × Ptr → Entries → Entries
put_sorted e x [] = x ∷ []
put_sorted e x (y ∷ ys) = if is_lt (e.compare x.0 y.0) then x ∷ (y ∷ ys) else y ∷ put_sorted e x ys

module _ (e : Env) (o : IsTotalOrder e) where
  Rising-join :
      (k : Ptr) (xs ys : Entries)
      → Rising e xs
      → Rising e ys
      → AllKeys (λ x. Lt e x k) xs
      → AllKeys (λ y. Le e k y) ys
      → Rising e (xs ++ ys)
  Rising-join k [] ys a b lo hi = b
  Rising-join k (x ∷ xs) ys a b lo hi = (
    AllKeys-join (λ y. Lt e x.0 y) xs ys a.0
        (AllKeys-mono (λ y. Le e k y) (λ y. Lt e x.0 y) ys (λ y h. lt_of_lt_le e o x.0 k y lo.0 h)
          hi),
    Rising-join k xs ys a.1 b lo.1 hi,
  )

  mutual
    pub entries-Rising : (t : Tree) → Ordered e t → Proper e t → Rising e (entries t)
    entries-Rising (leaf p n) s h = h.1
    entries-Rising (node p n f) s h = forest_entries-Rising f s h

    forest_entries-Rising :
        (f : Forest) → OrderedForest e f → ProperForest e f → Rising e (forest_entries f)
    forest_entries-Rising (last t) s h = entries-Rising t s h
    forest_entries-Rising (more t k f) s h =
        Rising-join k (entries t) (forest_entries f) (entries-Rising t s.2 h.0)
          (forest_entries-Rising f s.3 h.1) s.0 s.1

  not_lt_back : (a b : Ptr) → Lt e a b → is_lt (e.compare b a) ≡ false
  not_lt_back a b h = elim (Bool-cases (is_lt (e.compare b a))) [
    | inl back ↦
        let no_way = not_le_of_lt e o a b h in let le = le_of_lt e o b a back in absurd (cc)
    | inr other ↦ other
  ]

  -- In an ascending list there is one place for an entry.
  place_of :
      (x : Ptr × Ptr) (xs ys : Entries)
      → Rising e (xs ++ x ∷ ys)
      → xs ++ x ∷ ys ≡ put_sorted e x (xs ++ ys)
  place_of x [] [] h = refl
  place_of x [] (y ∷ ys) h = rw h.0.0 refl
  place_of x (z ∷ xs) ys h =
      let (before, at_x) = AllKeys-append (λ y. Lt e z.0 y) xs (x ∷ ys) h.0 in
      rw (not_lt_back z.0 x.0 at_x.0) (ap (λ l. z ∷ l) (place_of x xs ys h.1))

  pub Inserted-put_sorted :
      (x : Ptr × Ptr) (old new : Entries)
      → Inserted x old new
      → Rising e new
      → new ≡ put_sorted e x old
  Inserted-put_sorted x old new (xs, ys, e1, e2) h =
      e2 ∙ place_of x xs ys (rw e2 at h) ∙ sym (ap (put_sorted e x) e1)

pub put_sorted-Inserted :
    (e : Env) (x : Ptr × Ptr) (old : Entries) → Inserted x old (put_sorted e x old)
put_sorted-Inserted e x [] = ([], [], refl, refl)
put_sorted-Inserted e x (y ∷ ys) = elim (Bool-cases (is_lt (e.compare x.0 y.0))) [
  | inl before ↦ rw before ([], y ∷ ys, refl, refl)
  | inr behind ↦
      let (us, vs, e1, e2) = put_sorted-Inserted e x ys in
      rw behind (y ∷ us, vs, ap (λ l. y ∷ l) e1, ap (λ l. y ∷ l) e2)
]
