-- ===== src/Bpt/Split/Leaf.antt =====
-- The split of a full leaf in btree/bpt3.c.
use linux_kernel_struct.Common.{
  ℕ, ◌+◌, ◌-◌, ◌/◌, ◌≤◌, ◌<◌, ◌≡◌, refl, ap, ap₂, sym, some, ◌∙◌, ◌∷◌, ◌++◌, arith,
}
use linux_kernel_struct.Memory.{null}
use linux_kernel_struct.Arrays.{Arr, slice, copy, updated}
use linux_kernel_struct.Arrays.Loops.{put-ok, get-ok}
use linux_kernel_struct.Arrays.Slice.{slice-append}
use linux_kernel_struct.Arrays.Copy.{copy-Copied, gap_lem, fill-Kept, slice-put}
use linux_kernel_struct.Bpt.{Env, Node5, new_array, bpt_half_order}
use linux_kernel_struct.Bpt.Split.{Halves, with_entry, split_leaf}

updated_self : (f : ℕ → ℕ) (i v : ℕ) → updated f i v i ≡ v
updated_self f i v = ground arith

-- Half of `order`, rounded up.
pub bpt_half_order_lem : (k : ℕ) → bpt_half_order k ≡ (k + 1) / 2
unfolding bpt_half_order
bpt_half_order_lem k = ground arith

-- The temporary array holds the old entries with the new one at its place.
pub with_entry_lem :
    (e : Env) (cap n idx v : ℕ) (src : Arr)
    → idx ≤ n
    → n ≤ src.cap
    → n < cap
    → (b : Arr) × (with_entry e cap n idx src v ≡ some b)
      × (b.cap ≡ cap)
      × (slice b.at 0 (n + 1) ≡ slice src.at 0 idx ++ v ∷ slice src.at idx (n - idx))
unfolding with_entry
with_entry_lem e cap n idx v src hi hs ht = gap_lem n idx v src (new_array e cap) hi hs ht

-- A node with arrays for `order` pointers.
pub record HasOrder (order : ℕ) (n : Node5) : Type 0 where
  pub keys_cap : n.keys.cap + 1 ≡ order
  pub pointers_cap : n.pointers.cap ≡ order

-- The two leaves after a split.
pub record IsLeafSplit (order : ℕ) (n m : Node5) (new_leaf idx key item : ℕ) (h : Halves)
    : Type 0 where
  pub keys :
      slice h.left.keys.at 0 h.left.num_keys ++ slice h.right.keys.at 0 h.right.num_keys
      ≡ slice n.keys.at 0 idx ++ key ∷ slice n.keys.at idx (n.num_keys - idx)
  pub items :
      slice h.left.pointers.at 0 h.left.num_keys ++ slice h.right.pointers.at 0 h.right.num_keys
      ≡ slice n.pointers.at 0 idx ++ item ∷ slice n.pointers.at idx (n.num_keys - idx)
  pub left_size : h.left.num_keys ≡ bpt_half_order (order - 1)
  pub right_size : h.left.num_keys + h.right.num_keys ≡ order
  pub left_link : h.left.pointers.at (order - 1) ≡ new_leaf
  pub right_link : h.right.pointers.at (order - 1) ≡ n.pointers.at (order - 1)
  pub parents : (h.left.parent ≡ n.parent) × (h.right.parent ≡ n.parent)
  pub kinds : (h.left.is_leaf ≡ n.is_leaf) × (h.right.is_leaf ≡ m.is_leaf)
  pub left_order : HasOrder order h.left
  pub right_order : HasOrder order h.right

-- One array over two: the lower `split` entries stay, the others move to the new array.
pub halves_lem :
    (split rest : ℕ) (temp a b : Arr)
    → split + rest ≤ temp.cap
    → split ≤ a.cap
    → rest ≤ b.cap
    → (a' b' : Arr) × (copy split 0 0 temp a ≡ some a')
      × (copy rest split 0 temp b ≡ some b')
      × (a'.cap ≡ a.cap)
      × (b'.cap ≡ b.cap)
      × (slice a'.at 0 split ++ slice b'.at 0 rest ≡ slice temp.at 0 (split + rest))
      × ((k : ℕ) → split ≤ k → a'.at k ≡ a.at k)
halves_lem split rest temp a b ht ha hb =
    let (a', ea, ca) = copy-Copied split 0 0 temp a (omega arith) (omega arith) in
    let (b', eb, cb) = copy-Copied rest split 0 temp b (omega arith) (omega arith) in
    (
      a',
      b',
      ea,
      eb,
      ca.cap,
      cb.cap,
      ap₂ ◌++◌ ca.moved cb.moved
          ∙ sym (
              slice-append temp.at 0 split rest
              ∙ ap (λ t. slice temp.at 0 split ++ slice temp.at t rest) (omega arith)),
      λ k l. ca.behind k (omega arith),
    )

-- A full leaf and a new entry at any place give two leaves that share the entries evenly and in
-- order, with the links of the leaves passed on; no access is out of bounds.
pub split_leaf-IsLeafSplit :
    (e : Env) (order : ℕ) (n m : Node5) (new_leaf idx key item : ℕ)
    → 2 ≤ order
    → HasOrder order n
    → HasOrder order m
    → n.num_keys + 1 ≡ order
    → idx ≤ n.num_keys
    → (h : Halves) × (split_leaf e order n m new_leaf idx key item ≡ some h)
      × IsLeafSplit order n m new_leaf idx key item h
unfolding split_leaf
split_leaf-IsLeafSplit e order n m new_leaf idx key item o2 hn hm full hi =
    let half = bpt_half_order_lem (order - 1) in
    let split = bpt_half_order (order - 1) in
    let (tk, etk, ctk, stk) =
      with_entry_lem e order n.num_keys idx key n.keys hi (omega (arith, hn.keys_cap))
        (omega arith) in
    let (tp, etp, ctp, stp) =
      with_entry_lem e order n.num_keys idx item n.pointers hi (omega (arith, hn.pointers_cap))
        (omega arith) in
    let (p1, q1, ep1, eq1, cp1, cq1, sp, kp) =
      halves_lem split (order - split) tp n.pointers m.pointers (omega arith)
        (omega (arith, hn.pointers_cap)) (omega (arith, hm.pointers_cap)) in
    let (k1, r1, ek1, er1, ck1, cr1, sk, kk) =
      halves_lem split (order - split) tk n.keys m.keys (omega arith) (omega (arith, hn.keys_cap))
        (omega (arith, hm.keys_cap)) in
    let next_leaf = p1.at (order - 1) in
    let p2 : Arr = record { cap = p1.cap; at = updated p1.at (order - 1) new_leaf } in
    let q2 : Arr = record { cap = q1.cap; at = updated q1.at (order - 1) next_leaf } in
    let (p3, ep3, cp3, sp3, kp3) =
      fill-Kept (order - 1 - split) split null p2 (omega (arith, hn.pointers_cap)) in
    let (q3, eq3, cq3, sq3, kq3) =
      fill-Kept (order - 1 - (order - split)) (order - split) null q2
        (omega (arith, hm.pointers_cap)) in
    let all : split + (order - split) ≡ n.num_keys + 1 = omega arith in
    rw
      (
        etk,
        etp,
        ep1,
        ek1,
        eq1,
        er1,
        get-ok p1 (order - 1) (omega (arith, hn.pointers_cap)),
        put-ok q1 (order - 1) next_leaf (omega (arith, hm.pointers_cap)),
        put-ok p1 (order - 1) new_leaf (omega (arith, hn.pointers_cap)),
        ep3,
        eq3,
      )
      (
        record {
          left = record n { num_keys = split; pointers = p3; keys = k1 };
          right = record m {
            num_keys = order - split;
            pointers = q3;
            keys = r1;
            parent = n.parent;
          };
        },
        refl,
        record {
          keys = sk ∙ ap (slice tk.at 0) all ∙ stk;
          items =
              ap₂ ◌++◌ (sp3 ∙ slice-put p1.at (order - 1) new_leaf split (omega arith))
                (sq3 ∙ slice-put q1.at (order - 1) next_leaf (order - split) (omega arith))
              ∙ sp
              ∙ ap (slice tp.at 0) all
              ∙ stp;
          left_size = refl;
          right_size = omega arith;
          left_link = kp3 (order - 1) (omega arith) ∙ updated_self p1.at (order - 1) new_leaf;
          right_link =
              kq3 (order - 1) (omega arith)
              ∙ updated_self q1.at (order - 1) next_leaf
              ∙ kp (order - 1) (omega arith);
          parents = (refl, refl);
          kinds = (refl, refl);
          left_order = record {
            keys_cap = omega (arith, hn.keys_cap);
            pointers_cap = omega (arith, hn.pointers_cap);
          };
          right_order = record {
            keys_cap = omega (arith, hm.keys_cap);
            pointers_cap = omega (arith, hm.pointers_cap);
          };
        },
      )
