-- ===== src/Dictionary/Lookup.antt =====
-- bpt_find_leaf_key of btree/bpt3.c on a whole tree, as btree/tw1.c uses it.
use linux_kernel_struct.Common.{
  lt→ltb, le→ltb, inr, ne→==, inl, Bool-cases, arith, ℕ, zero, suc, ◌+◌, ◌≤◌, ◌<◌, ◌≡◌, refl, sym,
  ◌∙◌, ◌≢◌, Bool, true, false, none, some,
}
use linux_kernel_struct.Memory.{Ptr, null, Memory, ok}
use linux_kernel_struct.Bpt.{Node5, Btree, Env, is_eq}
use linux_kernel_struct.Bpt.Find.{at, no_key, first_key, bpt_find_leaf_key}
use linux_kernel_struct.Bpt.Tree.Search.{find-leaf_of, leaf_of-LeafAt, bpt_search-find}
use linux_kernel_struct.Arrays.Loops.{get-ok}
use linux_kernel_struct.Memory.Laws.{load-ok}
use linux_kernel_struct.Bpt.Tree.{
  Tree, root, entries, entries_from, height, Stored, Ordered, IsTotalOrder, find, leaf_of,
}

-- first_key stops at the entry that the lookup in the list finds, and behind the last one if that
-- finds none.
first_key-find :
    (test : Ptr → Bool) (n : Node5) (m : Memory Node5) (r i : ℕ)
    → i + r ≤ n.keys.cap
    → (j : ℕ) × (first_key test n.keys r i m ≡ ok j m)
      × ((find test (entries_from n i r) ≡ none) → j ≡ i + r)
      × ((d : Ptr)
          → find test (entries_from n i r) ≡ some d
          → (j < i + r) × (n.pointers.at j ≡ d) × (test (n.keys.at j) ≡ true))
unfolding first_key
first_key-find test n m zero i h = (i, refl, (λ e. omega arith), (λ d e. absurd cc))
first_key-find test n m (suc r) i h = elim (Bool-cases (test (n.keys.at i))) [
  | inl yes_it ↦
      rw (get-ok n.keys i (omega arith), yes_it)
        (i, refl, (λ e. absurd cc), (λ d e. (omega arith, cc, yes_it)))
  | inr not_it ↦
      let (j, run, missing, found) = first_key-find test n m r (i + 1) (omega arith) in
      rw (get-ok n.keys i (omega arith), not_it)
        (
          j,
          run,
          (λ e. omega (arith, missing e)),
          (λ d e. let (a, b, c) = found d e in (omega arith, b, c)),
        )
]

-- What a lookup by bpt_find_leaf_key reports: the index of the entry in its leaf, or that the leaf
-- has no such key.
pub record Located (m : Memory Node5) (d : Ptr) (test : Ptr → Bool) (i p : ℕ) : Type 0 where
  pub node : Node5
  pub ne_null : p ≢ null
  pub cell : m.cells p ≡ some node
  pub is_key : test (node.keys.at i) ≡ true
  pub is_data : node.pointers.at i ≡ d
  pub in_keys : i < node.keys.cap
  pub in_pointers : i < node.pointers.cap

-- On an ordered tree with `samek` false, bpt_find_leaf_key finds the index of the entry with the key
-- where the list of all entries has one, and reports that there is none where it has none.
pub bpt_find_leaf_key-find :
    (e : Env) (o : IsTotalOrder e) (rounds : ℕ) (btree : Btree) (key : Ptr) (m : Memory Node5)
    (t : Tree) (up stop : Ptr)
    → Stored m btree.order up stop t
    → Ordered e t
    → btree.root ≡ root t
    → btree.samek ≡ false
    → height t ≤ rounds
    → ((find (λ x. is_eq (e.compare key x)) (entries t) ≡ none)
        → bpt_find_leaf_key e rounds btree key m ≡ ok (no_key, (leaf_of e key t).0) m)
      × ((d : Ptr)
          → find (λ x. is_eq (e.compare key x)) (entries t) ≡ some d
          → (i : ℕ) × (p : Ptr) × (bpt_find_leaf_key e rounds btree key m ≡ ok (at i, p) m)
            × Located m d (λ x. is_eq (e.compare key x)) i p)
unfolding bpt_find_leaf_key
bpt_find_leaf_key-find e o rounds btree key m t up stop s sorted at_root unique h =
    let test : Ptr → Bool = λ x. is_eq (e.compare key x) in
    let (walk, _) = bpt_search-find e o rounds btree key m t up stop s sorted at_root unique h in
    let (p, n) = leaf_of e key t in
    let (ne, cell, is_leaf, ck, cp, small) = leaf_of-LeafAt e key m btree.order up stop t s in
    let (j, run, missing, found) = first_key-find test n m n.num_keys 0 (omega (arith, ck)) in
    let whole = find-leaf_of e o key t sorted in
    (
      (λ none_there.
          let behind = missing (sym whole ∙ none_there) in
          rw (walk, ne→== p null ne, load-ok m p n ne cell, run, le→ltb j n.num_keys (omega arith))
            refl),
      (λ d there.
          let (low, item, hit) = found d (sym whole ∙ there) in
          (
            j,
            p,
            rw
                (
                  walk,
                  ne→== p null ne,
                  load-ok m p n ne cell,
                  run,
                  lt→ltb j n.num_keys (omega arith),
                )
                refl,
            record {
              node = n;
              ne_null = ne;
              cell = cell;
              is_key = hit;
              is_data = item;
              in_keys = omega (arith, ck);
              in_pointers = omega (arith, cp);
            },
          )),
    )
