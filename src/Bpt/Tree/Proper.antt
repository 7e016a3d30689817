-- ===== src/Bpt/Tree/Proper.antt =====
-- The leaf that a key of btree/bpt3.c belongs to, in a tree without equal keys, before and after an
-- entry is put into it.
use linux_kernel_struct.Common.{◌≤◌, Bool-cases, inl, inr}
use linux_kernel_struct.Memory.{Ptr}
use linux_kernel_struct.Bpt.{Node5, Env, is_lt}
use linux_kernel_struct.Bpt.Tree.{
  Tree, leaf, node, Forest, last, more, AllKeys, leaf_entries, entries, forest_entries, leaf_of,
  forest_leaf_of, with_leaf, forest_with_leaf,
}
use linux_kernel_struct.Bpt.Tree.Entries.{AllKeys-append}
use linux_kernel_struct.Bpt.Tree.Rising.{Rising, Proper, ProperForest}

module _ (e : Env) (key : Ptr) where
  mutual
    pub leaf_of-AllKeys :
        (P : Ptr → Type 0) (t : Tree)
        → AllKeys P (entries t)
        → AllKeys P (leaf_entries (leaf_of e key t).1)
    leaf_of-AllKeys P (leaf p n) h = h
    leaf_of-AllKeys P (node p n f) h = forest_leaf_of-AllKeys P f h

    forest_leaf_of-AllKeys :
        (P : Ptr → Type 0) (f : Forest)
        → AllKeys P (forest_entries f)
        → AllKeys P (leaf_entries (forest_leaf_of e key f).1)
    forest_leaf_of-AllKeys P (last t) h = leaf_of-AllKeys P t h
    forest_leaf_of-AllKeys P (more t k f) h =
        let (a, b) = AllKeys-append P (entries t) (forest_entries f) h in
        elim (Bool-cases (is_lt (e.compare key k))) [
          | inl before ↦ rw before (leaf_of-AllKeys P t a)
          | inr behind ↦ rw behind (forest_leaf_of-AllKeys P f b)
        ]

  mutual
    pub leaf_of-Rising : (t : Tree) → Proper e t → Rising e (leaf_entries (leaf_of e key t).1)
    leaf_of-Rising (leaf p n) h = h.1
    leaf_of-Rising (node p n f) h = forest_leaf_of-Rising f h

    forest_leaf_of-Rising :
        (f : Forest) → ProperForest e f → Rising e (leaf_entries (forest_leaf_of e key f).1)
    forest_leaf_of-Rising (last t) h = leaf_of-Rising t h
    forest_leaf_of-Rising (more t k f) h = elim (Bool-cases (is_lt (e.compare key k))) [
      | inl before ↦ rw before (leaf_of-Rising t h.0)
      | inr behind ↦ rw behind (forest_leaf_of-Rising f h.1)
    ]

  mutual
    pub with_leaf-Proper :
        (n' : Node5) (t : Tree)
        → 1 ≤ n'.num_keys
        → Rising e (leaf_entries n')
        → Proper e t
        → Proper e (with_leaf e key n' t)
    with_leaf-Proper n' (leaf p n) l r h = (l, r)
    with_leaf-Proper n' (node p n f) l r h = forest_with_leaf-Proper n' f l r h

    forest_with_leaf-Proper :
        (n' : Node5) (f : Forest)
        → 1 ≤ n'.num_keys
        → Rising e (leaf_entries n')
        → ProperForest e f
        → ProperForest e (forest_with_leaf e key n' f)
    forest_with_leaf-Proper n' (last t) l r h = with_leaf-Proper n' t l r h
    forest_with_leaf-Proper n' (more t k f) l r h = elim (Bool-cases (is_lt (e.compare key k))) [
      | inl before ↦ rw before (with_leaf-Proper n' t l r h.0, h.1)
      | inr behind ↦ rw behind (h.0, forest_with_leaf-Proper n' f l r h.1)
    ]
