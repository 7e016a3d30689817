-- ===== src/Bpt/Insert/Leaf.antt =====
-- _bpt_insert_into_leaf and _bpt_insert_into_leaf_asc of btree/bpt3.c.
use linux_kernel_struct.Common.{
  [], ℕ, suc, ◌+◌, ◌-◌, ◌≤◌, ◌<◌, ◌≡◌, refl, ◌∙◌, ◌≢◌, some, List, ◌∷◌, ◌++◌, arith, Bool-cases,
  inl, inr,
}
use native.Mathlib.Decide.{ℕ_discrete, dec_lt}
use mathlib.Core.Path.{fun_ext}
use linux_kernel_struct.Memory.{Returns-mono, Ptr, null, Memory, Returns, write}
use linux_kernel_struct.Memory.Laws.{load-ok}
use linux_kernel_struct.Arrays.{updated, slice}
use linux_kernel_struct.Arrays.Loops.{put-ok, opened, open_steps}
use linux_kernel_struct.Arrays.Slice.{slice-updated, slice-opened, slice-congr}
use linux_kernel_struct.Bpt.{Env, Node5, is_le}
use linux_kernel_struct.Bpt.Order.{Le, IsOrder, Sorted, IsPlace, insert_index_from_zero}
use linux_kernel_struct.Bpt.Insert.{bpt_insert_into_leaf, bpt_insert_into_leaf_asc}

pub Le-refl : (e : Env) (a : Ptr) → IsOrder e → Le e a a
Le-refl e a o = elim (Bool-cases (is_le (e.compare a a))) [ inl le ↦ le | inr gt ↦ o.total a a gt ]

module _ (f : ℕ → Ptr) (idx n key : ℕ) where
  opened-below : (j : ℕ) → j < idx → opened f idx n key j ≡ f j
  opened-below j h = ground arith

  opened_self : opened f idx n key idx ≡ key
  opened_self = ground arith

  opened-above : (j : ℕ) → idx ≤ j → j < n → opened f idx n key (suc j) ≡ f j
  opened-above j h l = ground arith

-- An entry put into a sorted array at its place leaves it sorted.
pub opened-Sorted :
    (e : Env) (f : ℕ → Ptr) (key : Ptr) (n idx : ℕ)
    → IsOrder e
    → Sorted e f n
    → IsPlace e f key 0 n idx
    → Sorted e (opened f idx n key) (n + 1)
opened-Sorted e f key n idx o s p i j ij jn = elim (dec_lt j idx) [
  | yes jl ↦
      rw (opened-below f idx n key i (omega arith), opened-below f idx n key j jl)
        (s i j ij (omega arith))
  | no jg ↦ elim (ℕ_discrete j idx) [
    | yes je ↦ rw (je, opened_self f idx n key) (to_key (omega arith))
    | no jne ↦ up (j - 1) (omega arith) (omega arith) (omega arith)
  ]
]
  where
    g : ℕ → Ptr
    g = opened f idx n key

    to_key : i ≤ idx → Le e (g i) key
    to_key l = elim (dec_lt i idx) [
      | yes il ↦ rw (opened-below f idx n key i il) (p.before i (omega arith) il)
      | no ig ↦ let q : i ≡ idx = omega arith in rw (q, opened_self f idx n key) (Le-refl e key o)
    ]

    from_key : (k : ℕ) → idx ≤ k → k < n → Le e key (f k)
    from_key k l u =
        o.trans key (f idx) (f k) (o.total (f idx) key (p.behind (omega arith))) (s idx k l u)

    below : (k : ℕ) → idx ≤ k → k < n → i ≤ suc k → Le e (g i) (f k)
    below k l u h = elim (dec_lt idx i) [
      | yes ig ↦
          let q : i ≡ suc (i - 1) = omega arith in
          rw (q, opened-above f idx n key (i - 1) (omega arith) (omega arith))
            (s (i - 1) k (omega arith) u)
      | no il ↦ o.trans (g i) key (f k) (to_key (omega arith)) (from_key k l u)
    ]

    up : (k : ℕ) → j ≡ suc k → idx ≤ k → k < n → Le e (g i) (g j)
    up k q l u = rw (q, opened-above f idx n key k l u) (below k l u (omega arith))

-- `n'` is `n` with the entry of `key` and `item` put in at `idx`, and nothing else changed.
pub record Opened (n n' : Node5) (idx key item : ℕ) : Type 0 where
  pub num_keys : n'.num_keys ≡ n.num_keys + 1
  pub keys : (j : ℕ) → n'.keys.at j ≡ opened n.keys.at idx n.num_keys key j
  pub pointers : (j : ℕ) → n'.pointers.at j ≡ opened n.pointers.at idx n.num_keys item j
  pub keys_cap : n'.keys.cap ≡ n.keys.cap
  pub pointers_cap : n'.pointers.cap ≡ n.pointers.cap
  pub same : (n'.parent ≡ n.parent) × (n'.is_leaf ≡ n.is_leaf) × (n'.next ≡ n.next)

-- The leaf after the insertion, and the place of the entry.
abbrev pub LeafInserted : Env → Memory Node5 → Ptr → Node5 → Ptr → Ptr → Memory Node5 → Type 0
LeafInserted e m leaf n key item g =
    (idx : ℕ) × (n' : Node5) × (g ≡ record m { cells = write m.cells leaf (some n') })
    × Opened n n' idx key item
    × IsPlace e n.keys.at key 0 n.num_keys idx

-- In a leaf with room the entry goes behind all keys that are not after it and before the others;
-- nothing is read or written out of bounds, and no other node changes.
pub bpt_insert_into_leaf_lem :
    (e : Env) (m : Memory Node5) (leaf : Ptr) (n : Node5) (key item : Ptr)
    → leaf ≢ null
    → m.cells leaf ≡ some n
    → n.num_keys < n.keys.cap
    → n.keys.cap < n.pointers.cap
    → Returns
        (λ r g. (r ≡ leaf) × LeafInserted e m leaf n key item g)
        (bpt_insert_into_leaf e leaf key item m)
unfolding bpt_insert_into_leaf
bpt_insert_into_leaf_lem e m leaf n key item ne h room caps =
    let (idx, eq, p) = insert_index_from_zero e key n.keys n.num_keys m (omega arith) in
    let (k1, k2, ek1, ek2, ck, fk) = open_steps n.num_keys idx key n.keys p.within room in
    let (p1, p2, ep1, ep2, cp, fp) =
      open_steps n.num_keys idx item n.pointers p.within (omega arith) in
    rw (load-ok m leaf n ne h, eq, ek1, ep1, ek2, ep2)
      (
        refl,
        (
          idx,
          record n { keys = k2; pointers = p2; num_keys = n.num_keys + 1 },
          refl,
          record {
            num_keys = refl;
            keys = fk;
            pointers = fp;
            keys_cap = ck;
            pointers_cap = cp;
            same = (refl, refl, refl);
          },
          p,
        ),
      )

-- The entries of a node, in order.
abbrev pub key_list : Node5 → List Ptr
key_list n = slice n.keys.at 0 n.num_keys

abbrev pub data_list : Node5 → List Ptr
data_list n = slice n.pointers.at 0 n.num_keys

-- As lists: the new key and its data stand at the same place among the old ones, in order.
pub Opened-lists :
    (n n' : Node5) (idx key item : ℕ)
    → idx ≤ n.num_keys
    → Opened n n' idx key item
    → (key_list n' ≡ slice n.keys.at 0 idx ++ key ∷ slice n.keys.at idx (n.num_keys - idx))
      × (data_list n'
          ≡ slice n.pointers.at 0 idx ++ item ∷ slice n.pointers.at idx (n.num_keys - idx))
Opened-lists n n' idx key item h o = rw o.num_keys (
  slice-congr n'.keys.at (opened n.keys.at idx n.num_keys key) 0 0 (n.num_keys + 1)
        (λ k l. o.keys (0 + k))
      ∙ slice-opened n.keys.at idx n.num_keys key h,
  slice-congr n'.pointers.at (opened n.pointers.at idx n.num_keys item) 0 0 (n.num_keys + 1)
        (λ k l. o.pointers (0 + k))
      ∙ slice-opened n.pointers.at idx n.num_keys item h,
)

-- A sorted leaf stays sorted.
pub Opened-Sorted :
    (e : Env) (n n' : Node5) (idx key item : ℕ)
    → IsOrder e
    → Sorted e n.keys.at n.num_keys
    → IsPlace e n.keys.at key 0 n.num_keys idx
    → Opened n n' idx key item
    → Sorted e n'.keys.at n'.num_keys
Opened-Sorted e n n' idx key item o s p q =
    rw (q.num_keys, fun_ext q.keys) (opened-Sorted e n.keys.at key n.num_keys idx o s p)

-- A sorted leaf with room is sorted after the insertion, and holds one key more.
pub bpt_insert_into_leaf-Sorted :
    (e : Env) (m : Memory Node5) (leaf : Ptr) (n : Node5) (key item : Ptr)
    → IsOrder e
    → Sorted e n.keys.at n.num_keys
    → leaf ≢ null
    → m.cells leaf ≡ some n
    → n.num_keys < n.keys.cap
    → n.keys.cap < n.pointers.cap
    → Returns
        (λ r g.
          (n' : Node5) × (g ≡ record m { cells = write m.cells leaf (some n') })
          × (n'.num_keys ≡ n.num_keys + 1)
          × Sorted e n'.keys.at n'.num_keys
          × ((idx : ℕ) × (key_list n'
                ≡ slice n.keys.at 0 idx ++ key ∷ slice n.keys.at idx (n.num_keys - idx))
              × (data_list n'
                  ≡ slice n.pointers.at 0 idx
                    ++ item ∷ slice n.pointers.at idx (n.num_keys - idx))))
        (bpt_insert_into_leaf e leaf key item m)
bpt_insert_into_leaf-Sorted e m leaf n key item o s ne h room caps =
    Returns-mono (λ r g. (r ≡ leaf) × LeafInserted e m leaf n key item g) _
      (bpt_insert_into_leaf e leaf key item m)
      (bpt_insert_into_leaf_lem e m leaf n key item ne h room caps)
      λ r g (q, (idx, n', eq, op, p)). (
        n',
        eq,
        op.num_keys,
        Opened-Sorted e n n' idx key item o s p op,
        (let l = Opened-lists n n' idx key item p.within op in (idx, l.0, l.1)),
      )

-- The appending insertion writes behind the last entry.
pub bpt_insert_into_leaf_asc_lem :
    (m : Memory Node5) (leaf : Ptr) (n : Node5) (key item : Ptr)
    → leaf ≢ null
    → m.cells leaf ≡ some n
    → n.num_keys < n.keys.cap
    → n.keys.cap < n.pointers.cap
    → Returns
        (λ r g.
          (n' : Node5) × (g ≡ record m { cells = write m.cells leaf (some n') })
          × (key_list n' ≡ key_list n ++ key ∷ [])
          × (data_list n' ≡ data_list n ++ item ∷ []))
        (bpt_insert_into_leaf_asc leaf key item m)
unfolding bpt_insert_into_leaf_asc
bpt_insert_into_leaf_asc_lem m leaf n key item ne h room caps =
    rw
      (
        load-ok m leaf n ne h,
        put-ok n.keys n.num_keys key room,
        put-ok n.pointers n.num_keys item (omega arith),
      )
      (
        record n {
          keys = record { cap = n.keys.cap; at = updated n.keys.at n.num_keys key };
          pointers = record { cap = n.pointers.cap; at = updated n.pointers.at n.num_keys item };
          num_keys = n.num_keys + 1;
        },
        refl,
        slice-updated n.keys.at n.num_keys key,
        slice-updated n.pointers.at n.num_keys item,
      )
