-- ===== src/Bpt/Tree/SplitLeaf.antt =====
-- The split of a full leaf of btree/bpt3.c, as a step on the tree: two leaves in place of one.
use linux_kernel_struct.Common.{
  inr, inl, ◌==◌, Bool-cases, eq→==, ==_iff, ne→==, ℕ, zero, suc, ◌+◌, ◌-◌, ◌≤◌, ◌≡◌, ◌≢◌, refl,
  sym, ap, ap₂, ◌∙◌, true, false, none, List, [], ◌∷◌, ◌++◌, arith, length,
}
use linux_kernel_struct.Memory.{null, Ptr, Memory}
use linux_kernel_struct.Arrays.{slice}
use linux_kernel_struct.Bpt.{null, Node5, Btree, Env, is_eq, new_node}
use linux_kernel_struct.Bpt.Order.{Le}
use linux_kernel_struct.Bpt.Split.{Halves}
use linux_kernel_struct.Bpt.Split.Leaf.{IsLeafSplit, bpt_half_order_lem}
use linux_kernel_struct.Bpt.Insert.Full.{SplitInto}
use linux_kernel_struct.Bpt.Tree.{
  Entries, leaf, last, more, pairs, leaf_entries, Stored, IsTotalOrder, Lt, AllKeys,
}
use linux_kernel_struct.Bpt.Tree.Entries.{pairs-halves}
use linux_kernel_struct.Bpt.Tree.Rising.{
  le_of_lt, Rising, Rising-append, Rising-Sorted, place-Rising,
}
use linux_kernel_struct.Arrays.Slice.{length-slice}
use linux_kernel_struct.Bpt.Tree.Search.{AllKeys-mono}
use linux_kernel_struct.Bpt.Insert.Leaf.{Le-refl}
use linux_kernel_struct.Bpt.Tree.Insert.{IsTotalOrder-IsOrder}
use linux_kernel_struct.Bpt.Tree.Grown.{Grown}

abbrev zip : List Ptr → List Ptr → Entries
zip [] us = []
zip (x ∷ xs) [] = []
zip (x ∷ xs) (u ∷ us) = (x, u) ∷ zip xs us

pairs-zip : (f g : ℕ → Ptr) (i n : ℕ) → pairs f g i n ≡ zip (slice f i n) (slice g i n)
pairs-zip f g i zero = refl
pairs-zip f g i (suc n) = ap (λ l. (f i, g i) ∷ l) (pairs-zip f g (i + 1) n)

zip-append :
    (xs us ys vs : List Ptr)
    → length xs ≡ length us
    → zip (xs ++ ys) (us ++ vs) ≡ zip xs us ++ zip ys vs
zip-append [] [] ys vs l = refl
zip-append [] (u ∷ us) ys vs l = absurd (omega (arith, l))
zip-append (x ∷ xs) [] ys vs l = absurd (omega (arith, l))
zip-append (x ∷ xs) (u ∷ us) ys vs l =
    ap (λ z. (x, u) ∷ z) (zip-append xs us ys vs (omega (arith, l)))

slices : (f g : ℕ → Ptr) (i n : ℕ) → length (slice f i n) ≡ length (slice g i n)
slices f g i n = length-slice f i n ∙ sym (length-slice g i n)

-- The entries of the two leaves, one behind the other.
split-entries :
    (order : ℕ) (n m : Node5) (new_leaf idx key item : ℕ) (h : Halves)
    → IsLeafSplit order n m new_leaf idx key item h
    → leaf_entries h.left ++ leaf_entries h.right
      ≡ pairs n.keys.at n.pointers.at 0 idx
        ++ (key, item) ∷ pairs n.keys.at n.pointers.at idx (n.num_keys - idx)
split-entries order n m new_leaf idx key item h s =
    let f = n.keys.at in
    let g = n.pointers.at in
    let r = n.num_keys - idx in
    let lk = slice h.left.keys.at 0 h.left.num_keys in
    let lp = slice h.left.pointers.at 0 h.left.num_keys in
    let rk = slice h.right.keys.at 0 h.right.num_keys in
    let rp = slice h.right.pointers.at 0 h.right.num_keys in
    ap₂ ◌++◌ (pairs-zip h.left.keys.at h.left.pointers.at 0 h.left.num_keys)
      (pairs-zip h.right.keys.at h.right.pointers.at 0 h.right.num_keys)
    ∙ sym (zip-append lk lp rk rp (slices h.left.keys.at h.left.pointers.at 0 h.left.num_keys))
    ∙ ap₂ zip s.keys s.items
    ∙ zip-append (slice f 0 idx) (slice g 0 idx) (key ∷ slice f idx r) (item ∷ slice g idx r)
        (slices f g 0 idx)
    ∙ ap₂ (λ u v. u ++ (key, item) ∷ v) (sym (pairs-zip f g 0 idx)) (sym (pairs-zip f g idx r))

pairs-first :
    (f g : ℕ → Ptr) (n : ℕ) → 1 ≤ n → pairs f g 0 n ≡ (f 0, g 0) ∷ pairs f g (0 + 1) (n - 1)
pairs-first f g zero h = absurd (omega arith)
pairs-first f g (suc n) h = ap (λ k. (f 0, g 0) ∷ pairs f g (0 + 1) k) (omega arith)

-- The first key of the upper half separates the two.
separates :
    (e : Env) (o : IsTotalOrder e) (left : Entries) (f g : ℕ → Ptr) (n : ℕ)
    → 1 ≤ n
    → Rising e (left ++ pairs f g 0 n)
    → AllKeys (λ x. Lt e x (f 0)) left × AllKeys (λ x. Le e (f 0) x) (pairs f g 0 n)
separates e o left f g n h rising =
    let right = pairs f g 0 n in
    let rest = pairs f g (0 + 1) (n - 1) in
    let first : right ≡ (f 0, g 0) ∷ rest = pairs-first f g n h in
    let (a, b, c) = Rising-append e o left right rising in
    let b' : Rising e ((f 0, g 0) ∷ rest) = rw first at b in
    (
      AllKeys-mono (λ x. AllKeys (λ y. Lt e x y) right) (λ x. Lt e x (f 0)) left
          (λ x q. (head_of x q)) c,
      rw first (
        Le-refl e (f 0) (IsTotalOrder-IsOrder e o),
        AllKeys-mono (λ x. Lt e (f 0) x) (λ x. Le e (f 0) x) rest (λ x l. le_of_lt e o (f 0) x l)
            b'.0,
      ),
    )
  where
    head_of : (x : Ptr) → AllKeys (λ y. Lt e x y) (pairs f g 0 n) → Lt e x (f 0)
    head_of x q =
        let q' : AllKeys (λ y. Lt e x y) ((f 0, g 0) ∷ pairs f g (0 + 1) (n - 1)) =
          rw (pairs-first f g n h) at q in
        q'.0

pub split-Grown :
    (e : Env) (o : IsTotalOrder e) (btree : Btree) (m g : Memory Node5) (p a : Ptr) (n : Node5)
    (key item new_key : Ptr) (h : Halves) (idx up stop : ℕ)
    → 2 ≤ btree.order
    → Stored m btree.order up stop (leaf p n)
    → Rising e (leaf_entries n)
    → AllKeys (λ x. is_eq (e.compare key x) ≡ false) (leaf_entries n)
    → a ≢ null
    → m.cells a ≡ none
    → SplitInto e btree m g p a n key item new_key h idx
    → Grown e m g btree.order up stop
        (key, item)
        (last (leaf p n))
        (more (leaf p h.left) new_key (last (leaf a h.right)))
split-Grown e o btree m g p a n key item new_key h idx up stop o2 s rising fresh na unused split =
    let f = n.keys.at in
    let d = n.pointers.at in
    let sp = split.split in
    let half = bpt_half_order_lem (btree.order - 1) in
    let all = split-entries btree.order n (new_node e btree.order true) a idx key item h sp in
    let left_some : 1 ≤ h.left.num_keys = omega (arith, sp.left_size) in
    let right_some : 1 ≤ h.right.num_keys = omega (arith, sp.left_size, sp.right_size) in
    let whole : Rising e (leaf_entries h.left ++ leaf_entries h.right) =
      rw all (place-Rising e o f d n.num_keys idx key item rising split.place fresh) in
    let (rl, rr, cross) = Rising-append e o (leaf_entries h.left) (leaf_entries h.right) whole in
    let sep =
      separates e o (leaf_entries h.left) h.right.keys.at h.right.pointers.at h.right.num_keys
        right_some whole in
    let p_ne_a : p ≢ a = λ q. cc (ap m.cells q, s.1, unused) in
    record {
      kids = (
        (
          s.0,
          split.leaf_cell,
          sp.kinds.0 ∙ s.2,
          sp.parents.0 ∙ s.3,
          sp.left_order.keys_cap,
          sp.left_order.pointers_cap,
          omega (arith, sp.right_size),
          sp.left_link,
        ),
        (
          na,
          split.new_cell,
          sp.kinds.1,
          sp.parents.1 ∙ s.3,
          sp.right_order.keys_cap,
          sp.right_order.pointers_cap,
          omega (arith, sp.right_size),
          sp.right_link ∙ s.7,
        ),
      );
      ordered = rw split.separator (
        sep.0,
        sep.1,
        Rising-Sorted e o h.left.keys.at h.left.pointers.at h.left.num_keys rl,
        Rising-Sorted e o h.right.keys.at h.right.pointers.at h.right.num_keys rr,
      );
      proper = ((left_some, rl), (right_some, rr));
      apart = ((λ q i. ne→== q a (λ same. p_ne_a (sym ((==_iff q p).0 i) ∙ same))), tt, tt);
      first = refl;
      entries = (
        pairs f d 0 idx,
        pairs f d idx (n.num_keys - idx),
        pairs-halves f d idx n.num_keys split.place.within,
        all,
      );
      height = omega arith;
      nodes = λ q i out. rw ((==_iff q a).0 (rw out at i)) unused;
      same = λ q c out cell.
          split.same q (λ same. cc (out, eq→== q p same))
            (λ same. cc (ap m.cells same, unused, cell))
          ∙ cell;
      used = λ q c cell. elim (Bool-cases (q == p)) [
        | inl hit ↦ (h.left, rw ((==_iff q p).0 hit) split.leaf_cell)
        | inr miss ↦ (
          c,
          split.same q (λ same. cc (miss, eq→== q p same))
                (λ same. cc (ap m.cells same, unused, cell))
              ∙ cell,
        )
      ];
    }
