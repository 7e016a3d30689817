-- ===== src/Bpt/Tree/RoundTrip.antt =====
-- bpt_insert followed by bpt_search, of btree/bpt3.c.
use Prim.Native.Nat.{Ordering}
use linux_kernel_struct.Common.{
  some, Option, Bool, ℕ, ◌+◌, ◌≤◌, ◌<◌, ◌≡◌, refl, sym, ap, ◌∙◌, true, false, [], ◌∷◌, ◌++◌,
  if◌then◌else◌, Bool-cases, inl, inr,
}
use mathlib.Core.Path.{subst}
use linux_kernel_struct.Memory.{Returns-mono, Ptr, null, Memory, Returns}
use linux_kernel_struct.Bpt.{ok, Option, some, is_eq, Bool, Node5, Btree, Env, is_le}
use linux_kernel_struct.Bpt.Insert.{bpt_insert}
use linux_kernel_struct.Bpt.Tree.{
  Tree, Entries, entries, height, Stored, IsTotalOrder, AllKeys, leaf_of, find, or_null, Inserted,
  flipped,
}
use linux_kernel_struct.Bpt.Tree.Search.{AllKeys-mono, bpt_search-find, find-append_right, le_of_eq}
use linux_kernel_struct.Bpt.Find.{bpt_search}
use linux_kernel_struct.Bpt.Tree.Entries.{AllKeys-append}
use linux_kernel_struct.Bpt.Tree.Insert.{IsTree, bpt_insert-TreeInserted}

le_both-eq : (o : Ordering) → is_le o ≡ true → is_le (flipped o) ≡ true → is_eq o ≡ true
le_both-eq Ordering.lt h k = absurd (cc)
le_both-eq Ordering.eq h k = refl
le_both-eq Ordering.gt h k = absurd (cc)

-- Keys that are equal to one key are equal.
pub eq_trans :
    (e : Env) (o : IsTotalOrder e) (q a b : Ptr)
    → is_eq (e.compare q a) ≡ true
    → is_eq (e.compare q b) ≡ true
    → is_eq (e.compare a b) ≡ true
eq_trans e o q a b ha hb =
    let (qa, aq) = le_of_eq e o q a ha in
    let (qb, bq) = le_of_eq e o q b hb in
    le_both-eq (e.compare a b) (o.trans a q b aq qb) (rw (← o.flip a b) (o.trans b q a bq qa))

pub find-Inserted :
    (test : Ptr → Bool) (x : Ptr × Ptr) (old new : Entries)
    → Inserted x old new
    → (test x.0 ≡ true → AllKeys (λ y. test y ≡ false) old)
    → find test new ≡ (if test x.0 then some x.1 else find test old)
find-Inserted test x old new (xs, ys, e1, e2) fresh = elim (Bool-cases (test x.0)) [
  | inl hit ↦
      let (a, b) = AllKeys-append (λ y. test y ≡ false) xs ys (rw (← e1) (fresh hit)) in
      rw (e2, find-append_right test xs (x ∷ ys) a, hit) refl
  | inr miss ↦ rw (e2, e1, miss) (find-skip test x xs ys miss)
]
  where
    find-skip :
        (t : Ptr → Bool) (z : Ptr × Ptr) (us vs : Entries)
        → t z.0 ≡ false
        → find t (us ++ z ∷ vs) ≡ find t (us ++ vs)
    find-skip t z [] vs h = rw h refl
    find-skip t z (u ∷ us) vs h = ap (λ r. if t u.0 then some u.1 else r) (find-skip t z us vs h)

-- What is equal to `key` is not equal to what `key` is not equal to.
pub ne_of_eq_ne :
    (e : Env) (o : IsTotalOrder e) (q key x : Ptr)
    → is_eq (e.compare q key) ≡ true
    → is_eq (e.compare key x) ≡ false
    → is_eq (e.compare q x) ≡ false
ne_of_eq_ne e o q key x hit miss = elim (Bool-cases (is_eq (e.compare q x))) [
  | inl same ↦ let again = eq_trans e o q key x hit same in absurd (cc)
  | inr other ↦ other
]

-- The insertion of a key that the tree does not hold, in a leaf with room, followed by a search: the
-- new data for the keys equal to the new one, and for all others what was found before.
pub bpt_search-bpt_insert :
    (e : Env) (o : IsTotalOrder e) (rounds : ℕ) (btree : Btree) (key item flag : Ptr)
    (m : Memory Node5) (t : Tree)
    → IsTree e m btree t
    → btree.samek ≡ false
    → height t ≤ rounds
    → (leaf_of e key t).1.num_keys + 1 < btree.order
    → AllKeys (λ x. is_eq (e.compare key x) ≡ false) (entries t)
    → Returns
        (λ r g.
          (q : Ptr)
          → (v : Option Ptr) × (bpt_search e rounds btree q m ≡ ok (or_null v) m)
            × (bpt_search e rounds r.0 q g
                ≡ ok (or_null (if is_eq (e.compare q key) then some item else v)) g))
        (bpt_insert e rounds btree (leaf_of e key t).0 key item flag m)
bpt_search-bpt_insert e o rounds btree key item flag m t v unique h room fresh =
    Returns-mono _ _ (bpt_insert e rounds btree (leaf_of e key t).0 key item flag m)
      (bpt_insert-TreeInserted e o rounds btree key item flag m t v room)
      (λ r g (_, counted, (t', k)) q.
        let test : Ptr → Bool = λ x. is_eq (e.compare q x) in
        let order_same : r.0.order ≡ btree.order = ap (λ b. b.order) counted in
        let root_same : r.0.root ≡ btree.root = ap (λ b. b.root) counted in
        let samek_same : r.0.samek ≡ btree.samek = ap (λ b. b.samek) counted in
        (
          find test (entries t),
          (bpt_search-find e o rounds btree q m t null null v.stored v.ordered v.root unique h).1,
          (bpt_search-find e o rounds r.0 q g t' null null
                (subst (λ n. Stored g n null null t') (sym order_same) k.stored) k.ordered
                (root_same ∙ v.root ∙ sym k.root) (samek_same ∙ unique) (rw k.height h)).1
              ∙ ap (λ z. ok (or_null z) g)
                  (find-Inserted test (key, item) (entries t) (entries t') k.entries
                    (λ hit.
                      AllKeys-mono (λ x. is_eq (e.compare key x) ≡ false) (λ x. test x ≡ false)
                        (entries t) (λ x miss. ne_of_eq_ne e o q key x hit miss) fresh)),
        ))
