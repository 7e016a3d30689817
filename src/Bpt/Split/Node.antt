-- ===== src/Bpt/Split/Node.antt =====
-- The split of a full internal node in btree/bpt3.c.
use linux_kernel_struct.Common.{
  ℕ, ◌+◌, ◌-◌, ◌≤◌, ◌<◌, ◌≡◌, refl, ap, ap₂, sym, some, ◌∙◌, [], ◌∷◌, ◌++◌, arith,
}
use linux_kernel_struct.Memory.{Ptr}
use linux_kernel_struct.Arrays.{Arr, slice, copy, updated}
use linux_kernel_struct.Arrays.Loops.{put-ok, get-ok}
use linux_kernel_struct.Arrays.Slice.{slice-append, slice-updated, slice-last_zero}
use linux_kernel_struct.Arrays.Copy.{copy-Copied}
use linux_kernel_struct.Bpt.{Env, Node5, bpt_half_order}
use linux_kernel_struct.Bpt.Split.{with_entry, Halves, split_node, middle_key}
use linux_kernel_struct.Bpt.Split.Leaf.{HasOrder, with_entry_lem, bpt_half_order_lem}

-- The two nodes after a split, and the key `kp` between them.
pub record IsNodeSplit (order : ℕ) (n m : Node5) (idx key right kp : ℕ) (h : Halves) : Type 0 where
  pub keys :
      slice h.left.keys.at 0 h.left.num_keys ++ kp ∷ slice h.right.keys.at 0 h.right.num_keys
      ≡ slice n.keys.at 0 idx ++ key ∷ slice n.keys.at idx (n.num_keys - idx)
  pub pointers :
      slice h.left.pointers.at 0 (h.left.num_keys + 1)
        ++ slice h.right.pointers.at 0 (h.right.num_keys + 1)
      ≡ slice n.pointers.at 0 (idx + 1) ++ right ∷ slice n.pointers.at (idx + 1) (n.num_keys - idx)
  pub left_size : h.left.num_keys + 1 ≡ bpt_half_order order
  pub right_size : h.left.num_keys + h.right.num_keys + 1 ≡ order
  pub parents : (h.left.parent ≡ n.parent) × (h.right.parent ≡ n.parent)
  pub kinds : (h.left.is_leaf ≡ n.is_leaf) × (h.right.is_leaf ≡ m.is_leaf)
  pub left_order : HasOrder order h.left
  pub right_order : HasOrder order h.right

slice-append_zero : (f : ℕ → ℕ) (m n : ℕ) → slice f 0 (m + n) ≡ slice f 0 m ++ slice f m n
slice-append_zero f m n = slice-append f 0 m n ∙ ap (λ t. slice f 0 m ++ slice f t n) (omega arith)

module _ (s r : ℕ) (temp a b : Arr) (ht : s + r + 1 < temp.cap) (ha : s < a.cap)
    (hb : r < b.cap) where
  -- The pointers: each half ends with one that is put in behind the copy.
  pointers_lem :
      (a' b' : Arr) × (copy s 0 0 temp a ≡ some a')
      × (copy r (s + 1) 0 temp b ≡ some b')
      × (a'.cap ≡ a.cap)
      × (b'.cap ≡ b.cap)
      × (slice (updated a'.at s (temp.at s)) 0 (s + 1)
            ++ slice (updated b'.at r (temp.at (s + r + 1))) 0 (r + 1)
          ≡ slice temp.at 0 (s + 1 + (r + 1)))
  pointers_lem =
      let (a', ea, ca) = copy-Copied s 0 0 temp a (omega arith) (omega arith) in
      let (b', eb, cb) = copy-Copied r (s + 1) 0 temp b (omega arith) (omega arith) in
      (
        a',
        b',
        ea,
        eb,
        ca.cap,
        cb.cap,
        ap₂ ◌++◌
              (slice-updated a'.at s (temp.at s)
                ∙ ap (λ t. t ++ temp.at s ∷ []) ca.moved
                ∙ sym (slice-last_zero temp.at s))
              (slice-updated b'.at r (temp.at (s + r + 1))
                ∙ ap (λ t. t ++ temp.at (s + r + 1) ∷ []) cb.moved
                ∙ ap (λ t. slice temp.at (s + 1) r ++ temp.at t ∷ []) (omega arith)
                ∙ sym (slice-append temp.at (s + 1) r 1))
            ∙ sym (slice-append_zero temp.at (s + 1) (r + 1)),
      )

module _ (s r : ℕ) (temp a b : Arr) (ht : s + r < temp.cap) (ha : s ≤ a.cap) (hb : r ≤ b.cap) where
  -- The keys: the one between the halves is in neither.
  keys_lem :
      (a' b' : Arr) × (copy s 0 0 temp a ≡ some a')
      × (copy r (s + 1) 0 temp b ≡ some b')
      × (a'.cap ≡ a.cap)
      × (b'.cap ≡ b.cap)
      × (slice a'.at 0 s ++ temp.at s ∷ slice b'.at 0 r ≡ slice temp.at 0 (s + (1 + r)))
  keys_lem =
      let (a', ea, ca) = copy-Copied s 0 0 temp a (omega arith) (omega arith) in
      let (b', eb, cb) = copy-Copied r (s + 1) 0 temp b (omega arith) (omega arith) in
      (
        a',
        b',
        ea,
        eb,
        ca.cap,
        cb.cap,
        ap₂ (λ u v. u ++ temp.at s ∷ v) ca.moved cb.moved
            ∙ ap (λ t. slice temp.at 0 s ++ t) (sym (slice-append temp.at s 1 r))
            ∙ sym (slice-append_zero temp.at s (1 + r)),
      )

-- The nodes, from their arrays.
abbrev node_halves : Node5 → Node5 → ℕ → ℕ → Arr → Arr → Arr → Arr → Ptr → Ptr → Halves
node_halves n m s r p q k l x y = record {
  left = record n {
    num_keys = s;
    pointers = record { cap = p.cap; at = updated p.at s x };
    keys = k;
  };
  right = record m {
    num_keys = r;
    pointers = record { cap = q.cap; at = updated q.at r y };
    keys = l;
    parent = n.parent;
  };
}

module _ (e : Env) (order : ℕ) (n m : Node5) (idx key right s r : ℕ) (tp tk p q k l : Arr)
    (half : bpt_half_order order ≡ s + 1) (total : order ≡ s + r + 1)
    (etp : with_entry e (order + 1) (n.num_keys + 1) (idx + 1) n.pointers right ≡ some tp)
    (etk : with_entry e order n.num_keys idx n.keys key ≡ some tk)
    (caps : (tp.cap ≡ order + 1) × (tk.cap ≡ order) × (s < p.cap) × (r < q.cap))
    (pointers : (copy s 0 0 tp n.pointers ≡ some p) × (copy r (s + 1) 0 tp m.pointers ≡ some q))
    (keys : (copy s 0 0 tk n.keys ≡ some k) × (copy r (s + 1) 0 tk m.keys ≡ some l)) where
  split_node_steps :
      (split_node e order n m idx key right
        ≡ some (node_halves n m s r p q k l (tp.at s) (tp.at (s + r + 1))))
      × (middle_key e order n idx key ≡ some (tk.at s))
  unfolding split_node middle_key
  split_node_steps =
      let lower : s + 1 - 1 ≡ s = omega arith in
      let upper : s + r + 1 - (s + 1) ≡ r = omega arith in
      rw
        (
          etp,
          etk,
          half,
          total,
          lower,
          upper,
          pointers.0,
          keys.0,
          get-ok tp s (omega (arith, caps)),
          put-ok p s (tp.at s) (omega (arith, caps)),
          pointers.1,
          keys.1,
          get-ok tp (s + r + 1) (omega (arith, caps)),
          put-ok q r (tp.at (s + r + 1)) (omega (arith, caps)),
          get-ok tk s (omega (arith, caps)),
        )
        (refl, refl)

-- A full internal node with a new key and child at any place gives two nodes that share the other
-- keys and all children in order, with the middle key between them; no access is out of bounds.
pub split_node-IsNodeSplit :
    (e : Env) (order : ℕ) (n m : Node5) (idx key right : ℕ)
    → 2 ≤ order
    → HasOrder order n
    → HasOrder order m
    → n.num_keys + 1 ≡ order
    → idx ≤ n.num_keys
    → (h : Halves) × (kp : Ptr) × (split_node e order n m idx key right ≡ some h)
      × (middle_key e order n idx key ≡ some kp)
      × IsNodeSplit order n m idx key right kp h
split_node-IsNodeSplit e order n m idx key right o2 hn hm full hi =
    let half = bpt_half_order_lem order in
    let s = bpt_half_order order - 1 in
    let r = order - bpt_half_order order in
    let s_lem : bpt_half_order order ≡ s + 1 = omega arith in
    let total : s + 1 + (r + 1) ≡ n.num_keys + 1 + 1 = omega arith in
    let total_keys : s + (1 + r) ≡ n.num_keys + 1 = omega arith in
    let last_at : order ≡ s + r + 1 = omega arith in
    let (tp, etp, ctp, stp) =
      with_entry_lem e (order + 1) (n.num_keys + 1) (idx + 1) right n.pointers (omega arith)
        (omega (arith, hn.pointers_cap)) (omega arith) in
    let (tk, etk, ctk, stk) =
      with_entry_lem e order n.num_keys idx key n.keys hi (omega (arith, hn.keys_cap))
        (omega arith) in
    let (p1, q1, ep1, eq1, cp1, cq1, sp) =
      pointers_lem s r tp n.pointers m.pointers (omega (arith, ctp))
        (omega (arith, hn.pointers_cap)) (omega (arith, hm.pointers_cap)) in
    let (k1, r1, ek1, er1, ck1, cr1, sk) =
      keys_lem s r tk n.keys m.keys (omega (arith, ctk)) (omega (arith, hn.keys_cap))
        (omega (arith, hm.keys_cap)) in
    let steps =
      split_node_steps e order n m idx key right s r tp tk p1 q1 k1 r1 s_lem last_at etp etk
        (ctp, ctk, omega (arith, cp1, hn.pointers_cap), omega (arith, cq1, hm.pointers_cap))
        (ep1, eq1) (ek1, er1) in
    (
      node_halves n m s r p1 q1 k1 r1 (tp.at s) (tp.at (s + r + 1)),
      tk.at s,
      steps.0,
      steps.1,
      record {
        keys = sk ∙ ap (slice tk.at 0) total_keys ∙ stk;
        pointers =
            sp
            ∙ ap (slice tp.at 0) total
            ∙ stp
            ∙ ap (λ t. slice n.pointers.at 0 (idx + 1) ++ right ∷ slice n.pointers.at (idx + 1) t)
                (omega arith);
        left_size = sym s_lem;
        right_size = omega arith;
        parents = (refl, refl);
        kinds = (refl, refl);
        left_order = record {
          keys_cap = ap (λ t. t + 1) ck1 ∙ hn.keys_cap;
          pointers_cap = cp1 ∙ hn.pointers_cap;
        };
        right_order = record {
          keys_cap = ap (λ t. t + 1) cr1 ∙ hm.keys_cap;
          pointers_cap = cq1 ∙ hm.pointers_cap;
        };
      },
    )
