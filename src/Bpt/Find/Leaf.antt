-- ===== src/Bpt/Find/Leaf.antt =====
-- bpt_find_leaf_key and bpt_search of btree/bpt3.c on a tree of one leaf.
use linux_kernel_struct.Common.{
  ◌∙◌, ap, sym, ◌<◌, false, ℕ, zero, suc, ◌+◌, ◌≡◌, ◌≢◌, ◌≤◌, refl, Bool, true, some, List, ◌∷◌,
  ◌==◌, if◌then◌else◌, arith, ne→==, eq→==, Bool-cases, inl, inr, lt→ltb, ◌++◌, ◌-◌,
}
use linux_kernel_struct.Memory.{Ptr, null, Memory, ok, pure, ◌>>=◌, Returns, Returns-mono, write}
use linux_kernel_struct.Memory.Laws.{load-ok}
use linux_kernel_struct.Arrays.{Arr, get, slice}
use linux_kernel_struct.Bpt.{false, Node5, Btree, Env, is_eq, lift}
use linux_kernel_struct.Bpt.Find.{first_key, descend, bpt_find_leaf, bpt_search}
use mathlib.Core.Path.{subst, ap₂}
use linux_kernel_struct.Memory.Chain.{write_self}
use linux_kernel_struct.Arrays.Slice.{slice-append}
use linux_kernel_struct.Bpt.Insert.{bpt_insert_into_leaf}
use linux_kernel_struct.Bpt.Insert.Leaf.{
  LeafInserted, bpt_insert_into_leaf_lem, Opened-lists, key_list, data_list,
}

-- The data of the first key that passes the test, NULL if none does.
abbrev pub lookup : (Ptr → Bool) → List Ptr → List Ptr → Ptr
lookup test (x ∷ xs) (p ∷ ps) = if test x then p else lookup test xs ps
lookup test _ _ = null

pub first_key-lookup :
    (test : Ptr → Bool) (keys pointers : Arr) (n r i : ℕ) (m : Memory Node5)
    → i + r ≡ n
    → n ≤ keys.cap
    → n ≤ pointers.cap
    → (do j ← first_key test keys r i; if j == n then pure null else lift (get pointers j)) m
      ≡ ok (lookup test (slice keys.at i r) (slice pointers.at i r)) m
unfolding first_key
first_key-lookup test keys pointers n zero i m e hk hp = rw (eq→== i n (omega arith)) refl
first_key-lookup test keys pointers n (suc r) i m e hk hp = elim (Bool-cases (test (keys.at i))) [
  | inl t ↦
      rw
        (
          lt→ltb i keys.cap (omega arith),
          t,
          ne→== i n (λ q. omega arith),
          lt→ltb i pointers.cap (omega arith),
        )
        refl
  | inr f ↦
      rw (lt→ltb i keys.cap (omega arith), f)
        (first_key-lookup test keys pointers n r (i + 1) m (omega arith) hk hp)
]

-- In a tree of one leaf bpt_search is the lookup of the key in the list of the entries, and changes
-- nothing.
pub bpt_search-lookup :
    (e : Env) (rounds : ℕ) (btree : Btree) (key : Ptr) (m : Memory Node5) (n : Node5)
    → btree.root ≢ null
    → m.cells btree.root ≡ some n
    → n.is_leaf ≡ true
    → n.num_keys ≤ n.keys.cap
    → n.num_keys ≤ n.pointers.cap
    → bpt_search e (suc rounds) btree key m
      ≡ ok
          (lookup
            (λ x. is_eq (e.compare key x))
            (slice n.keys.at 0 n.num_keys)
            (slice n.pointers.at 0 n.num_keys))
          m
unfolding bpt_search bpt_find_leaf descend
bpt_search-lookup e rounds btree key m n ne cell leaf hk hp =
    rw
      (
        ne→== btree.root null ne,
        load-ok m btree.root n ne cell,
        leaf,
        ne→== btree.root null ne,
        load-ok m btree.root n ne cell,
      )
      (first_key-lookup (λ x. is_eq (e.compare key x)) n.keys n.pointers n.num_keys n.num_keys 0 m
        (omega arith) hk hp)

lookup-skip :
    (test : Ptr → Bool) (f g : ℕ → Ptr) (i k key item : ℕ) (ys qs : List Ptr)
    → test key ≡ false
    → lookup test (slice f i k ++ key ∷ ys) (slice g i k ++ item ∷ qs)
      ≡ lookup test (slice f i k ++ ys) (slice g i k ++ qs)
lookup-skip test f g i zero key item ys qs h = rw h refl
lookup-skip test f g i (suc k) key item ys qs h =
    ap (λ t. if test (f i) then g i else t) (lookup-skip test f g (i + 1) k key item ys qs h)

lookup-found :
    (test : Ptr → Bool) (f g : ℕ → Ptr) (i k key item : ℕ) (ys qs : List Ptr)
    → test key ≡ true
    → ((j : ℕ) → i ≤ j → j < i + k → test (f j) ≡ false)
    → lookup test (slice f i k ++ key ∷ ys) (slice g i k ++ item ∷ qs) ≡ item
lookup-found test f g i zero key item ys qs h none_before = rw h refl
lookup-found test f g i (suc k) key item ys qs h none_before =
    rw (none_before i (omega arith) (omega arith)) (
      lookup-found test f g (i + 1) k key item ys qs h
        (λ j l u. none_before j (omega arith) (omega arith)))

-- The entries of a node with one put in at `idx`, looked up.
lookup-opened :
    (test : Ptr → Bool) (n : Node5) (idx key item : ℕ)
    → idx ≤ n.num_keys
    → (test key ≡ true → (j : ℕ) → j < n.num_keys → test (n.keys.at j) ≡ false)
    → lookup test
        (slice n.keys.at 0 idx ++ key ∷ slice n.keys.at idx (n.num_keys - idx))
        (slice n.pointers.at 0 idx ++ item ∷ slice n.pointers.at idx (n.num_keys - idx))
      ≡ (if test key then item else lookup test (key_list n) (data_list n))
lookup-opened test n idx key item h fresh = elim (Bool-cases (test key)) [
  | inl t ↦ rw t (
      lookup-found test n.keys.at n.pointers.at 0 idx key item
        (slice n.keys.at idx (n.num_keys - idx)) (slice n.pointers.at idx (n.num_keys - idx)) t
        (λ j l u. fresh t j (omega arith)))
  | inr f ↦ rw f (
      lookup-skip test n.keys.at n.pointers.at 0 idx key item
        (slice n.keys.at idx (n.num_keys - idx)) (slice n.pointers.at idx (n.num_keys - idx)) f
      ∙ ap₂ (lookup test) (joined n.keys.at) (joined n.pointers.at))
]
  where
    whole : idx + (n.num_keys - idx) ≡ n.num_keys
    whole = omega arith

    start : idx ≡ 0 + idx
    start = omega arith

    joined : (f : ℕ → Ptr) → slice f 0 idx ++ slice f idx (n.num_keys - idx) ≡ slice f 0 n.num_keys
    joined f =
        ap (λ j. slice f 0 idx ++ slice f j (n.num_keys - idx)) start
        ∙ sym (slice-append f 0 idx (n.num_keys - idx))
        ∙ ap (slice f 0) whole

-- In a tree of one leaf with room: after the insertion of a key that the leaf does not hold,
-- bpt_search finds the new data for the keys that are equal to the new one, and for all others what
-- it found before.
pub bpt_search-bpt_insert_into_leaf :
    (e : Env) (rounds : ℕ) (btree : Btree) (m : Memory Node5) (n : Node5) (key item : Ptr)
    → btree.root ≢ null
    → m.cells btree.root ≡ some n
    → n.is_leaf ≡ true
    → n.num_keys < n.keys.cap
    → n.keys.cap < n.pointers.cap
    → ((q : Ptr)
        → is_eq (e.compare q key) ≡ true
        → (j : ℕ) → j < n.num_keys
        → is_eq (e.compare q (n.keys.at j)) ≡ false)
    → Returns
        (λ r g.
          (q : Ptr)
          → (v : Ptr) × (bpt_search e (suc rounds) btree q m ≡ ok v m)
            × (bpt_search e (suc rounds) btree q g
                ≡ ok (if is_eq (e.compare q key) then item else v) g))
        (bpt_insert_into_leaf e btree.root key item m)
bpt_search-bpt_insert_into_leaf e rounds btree m n key item ne cell leaf room caps fresh =
    Returns-mono (λ r g. (r ≡ btree.root) × LeafInserted e m btree.root n key item g) _
      (bpt_insert_into_leaf e btree.root key item m)
      (bpt_insert_into_leaf_lem e m btree.root n key item ne cell room caps)
      λ r g (_, (idx, n', eq, op, p)) q.
        let test : Ptr → Bool = λ x. is_eq (e.compare q x) in
        let lists = Opened-lists n n' idx key item p.within op in
        let (_, leaf_same, _) = op.same in
        (
          lookup test (key_list n) (data_list n),
          bpt_search-lookup e rounds btree q m n ne cell leaf (omega arith) (omega arith),
          subst
              (λ t.
                bpt_search e (suc rounds) btree q t
                ≡ ok
                    (if is_eq (e.compare q key)
                      then item
                      else lookup test (key_list n) (data_list n))
                    t)
              (sym eq)
              (bpt_search-lookup e rounds btree q
                  (record m { cells = write m.cells btree.root (some n') }) n' ne
                  (write_self m.cells btree.root (some n')) (leaf_same ∙ leaf)
                  (omega (arith, op.num_keys, op.keys_cap))
                  (omega (arith, op.num_keys, op.pointers_cap))
                ∙ ap (λ v. ok v (record m { cells = write m.cells btree.root (some n') }))
                    (ap₂ (lookup test) lists.0 lists.1
                      ∙ lookup-opened test n idx key item p.within (fresh q))),
        )
