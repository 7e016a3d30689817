-- ===== src/Bpt/Tree/Parent.antt =====
-- The step of an insertion in the parent of a split node in btree/bpt3.c, on the lists of the parent:
-- in a parent with room, and in a full one, which is split.
use linux_kernel_struct.Common.{
  ℕ, suc, ◌+◌, ◌-◌, ◌≤◌, ◌<◌, ◌≡◌, ◌≢◌, refl, sym, ap, ap₂, ◌∙◌, false, some, List, [], ◌∷◌, ◌++◌,
  arith, length, length-append, append_assoc,
}
use linux_kernel_struct.Memory.{Ptr, null, Memory, ok}
use linux_kernel_struct.Memory.Laws.{load-ok}
use linux_kernel_struct.Arrays.{slice}
use linux_kernel_struct.Arrays.Loops.{opened, open_steps}
use linux_kernel_struct.Arrays.Slice.{length-slice, slice-congr, slice-opened}
use linux_kernel_struct.Bpt.{Node5}
use linux_kernel_struct.Bpt.Insert.{bpt_insert_into_parent_node, shift_up_next}
use linux_kernel_struct.Bpt.Split.{Halves}
use linux_kernel_struct.Bpt.Split.Leaf.{HasOrder}
use linux_kernel_struct.Bpt.Split.Node.{IsNodeSplit}
use linux_kernel_struct.Bpt.Tree.{Forest, last, more}
use linux_kernel_struct.Bpt.Tree.Replace.{written}
use linux_kernel_struct.Bpt.Tree.Kids.{count, forest_keys, roots, Holds, cons-parts}
use linux_kernel_struct.Bpt.Tree.Join
use linux_kernel_struct.Bpt.Tree.PutIn.{PutIn, append-parts, slice-parts}

-- An internal node below `up`, whatever its children.
pub record IsInner (order : ℕ) (up : Ptr) (n : Node5) : Type 0 where
  pub is_leaf : n.is_leaf ≡ false
  pub parent : n.parent ≡ up
  pub arrays : HasOrder order n
  pub room : n.num_keys < order

pub length-forest_keys : (f : Forest) → length (forest_keys f) ≡ count f
length-forest_keys (last t) = refl
length-forest_keys (more t k f) = ap suc (length-forest_keys f)

pub length-roots : (f : Forest) → length (roots f) ≡ suc (count f)
length-roots (last t) = refl
length-roots (more t k f) = ap suc (length-roots f)

opened-parts :
    (f f' : ℕ → ℕ) (n v : ℕ) (xs ys : List Ptr)
    → slice f 0 n ≡ xs ++ ys
    → ((j : ℕ) → f' j ≡ opened f (length xs) n v j)
    → slice f' 0 (n + 1) ≡ xs ++ v ∷ ys
opened-parts f f' n v xs ys h o =
    let (within, a, b) = slice-parts f 0 n xs ys h in
    let here : 0 + length xs ≡ length xs = omega arith in
    slice-congr f' (opened f (length xs) n v) 0 0 (n + 1) (λ k l. o (0 + k))
    ∙ slice-opened f (length xs) n v within
    ∙ ap₂ (λ u w. u ++ v ∷ w) a (ap (λ t. slice f t (n - length xs)) (sym here) ∙ b)

-- Two nodes with the lists of two parts.
hold-parts :
    (l u : Node5) (A B : Forest) (kp k' : Ptr)
    → count A ≡ l.num_keys
    → count B ≡ u.num_keys
    → slice l.keys.at 0 l.num_keys ++ kp ∷ slice u.keys.at 0 u.num_keys
      ≡ forest_keys A ++ k' ∷ forest_keys B
    → slice l.pointers.at 0 (l.num_keys + 1) ++ slice u.pointers.at 0 (u.num_keys + 1)
      ≡ roots A ++ roots B
    → (kp ≡ k') × Holds l 0 A × Holds u 0 B
hold-parts l u A B kp k' size upper keys pointers =
    let size' : l.num_keys + 1 ≡ suc (count A) = omega (arith, size) in
    let upper' : suc (count B) ≡ u.num_keys + 1 = omega (arith, upper) in
    let (ka, kb) =
      append-parts (slice l.keys.at 0 l.num_keys) (forest_keys A)
        (kp ∷ slice u.keys.at 0 u.num_keys) (k' ∷ forest_keys B)
        (length-slice l.keys.at 0 l.num_keys ∙ sym size ∙ sym (length-forest_keys A)) keys in
    let (pa, pb) =
      append-parts (slice l.pointers.at 0 (l.num_keys + 1)) (roots A)
        (slice u.pointers.at 0 (u.num_keys + 1)) (roots B)
        (length-slice l.pointers.at 0 (l.num_keys + 1) ∙ size' ∙ sym (length-roots A)) pointers in
    let (kp_eq, kb') = cons-parts kp k' (slice u.keys.at 0 u.num_keys) (forest_keys B) kb in
    (
      kp_eq,
      record {
        num_keys = omega (arith, size);
        keys = ap (slice l.keys.at 0) size ∙ ka;
        pointers = ap (slice l.pointers.at 0) (sym size') ∙ pa;
      },
      record {
        num_keys = omega (arith, upper);
        keys = ap (slice u.keys.at 0) upper ∙ kb';
        pointers = ap (slice u.pointers.at 0) upper' ∙ pb;
      },
    )

module _ (f F : Forest) (c k r : Ptr) (put : PutIn f F c k r) (n : Node5) (held : Holds n 0 f) where
  pub PutIn-count : count F ≡ n.num_keys + 1
  PutIn-count =
      let old = ap length put.old_keys ∙ length-append put.xs put.ys in
      let new = ap length put.new_keys ∙ length-append put.xs (k ∷ put.ys) in
      omega (arith, old, new, length-forest_keys f, length-forest_keys F, held.num_keys)

  pub held_keys : slice n.keys.at 0 n.num_keys ≡ put.xs ++ put.ys
  held_keys = ap (slice n.keys.at 0) (omega (arith, held.num_keys)) ∙ held.keys ∙ put.old_keys

  pub held_pointers : slice n.pointers.at 0 (n.num_keys + 1) ≡ (put.us ++ c ∷ []) ++ put.vs
  held_pointers =
      let size : n.num_keys + 1 ≡ suc (count f) = omega (arith, held.num_keys) in
      ap (slice n.pointers.at 0) size
      ∙ held.pointers
      ∙ put.old_roots
      ∙ sym (append_assoc put.us (c ∷ []) put.vs)

  pub length-behind : length (put.us ++ c ∷ []) ≡ length put.us + 1
  length-behind = length-append put.us (c ∷ [])

  pub place_within : length put.us ≤ n.num_keys
  place_within =
      let (within, a, b) = slice-parts n.keys.at 0 n.num_keys put.xs put.ys held_keys in
      omega (arith, put.same_place)

  -- In a node with room the lists become those of `F`.
  pub bpt_insert_into_parent_node-Holds :
      (m : Memory Node5) (root p order up : Ptr)
      → p ≢ null
      → m.cells p ≡ some n
      → IsInner order up n
      → n.num_keys + 1 < order
      → (n' : Node5) × (bpt_insert_into_parent_node root p (length put.us) k r m
          ≡ ok root (written m p n'))
        × Holds n' 0 F
        × IsInner order up n'
  unfolding bpt_insert_into_parent_node shift_up_next
  bpt_insert_into_parent_node-Holds m root p order up ne cell shape room =
      let idx = length put.us in
      let (k1, k2, ek1, ek2, ck, fk) =
        open_steps n.num_keys idx k n.keys place_within (omega (arith, shape.arrays.keys_cap)) in
      let (p1, p2, ep1, ep2, cp, fp) =
        open_steps (n.num_keys + 1) (idx + 1) r n.pointers (omega (arith, place_within))
          (omega (arith, shape.arrays.pointers_cap)) in
      let size : suc (count F) ≡ n.num_keys + 1 + 1 = omega (arith, PutIn-count) in
      let new_keys =
        opened-parts n.keys.at k2.at n.num_keys k put.xs put.ys held_keys
          (λ j. fk j ∙ ap (λ i. opened n.keys.at i n.num_keys k j) (sym put.same_place)) in
      let new_pointers =
        opened-parts n.pointers.at p2.at (n.num_keys + 1) r (put.us ++ c ∷ []) put.vs held_pointers
          (λ j. fp j ∙ ap (λ i. opened n.pointers.at i (n.num_keys + 1) r j) (sym length-behind)) in
      rw (load-ok m p n ne cell, ep1, ek1, ep2, ek2)
        (
          record n { keys = k2; pointers = p2; num_keys = n.num_keys + 1 },
          refl,
          record {
            num_keys = omega (arith, PutIn-count);
            keys = ap (slice k2.at 0) PutIn-count ∙ new_keys ∙ sym put.new_keys;
            pointers =
                ap (slice p2.at 0) size
                ∙ new_pointers
                ∙ append_assoc put.us (c ∷ []) (r ∷ put.vs)
                ∙ sym put.new_roots;
          },
          record {
            is_leaf = shape.is_leaf;
            parent = shape.parent;
            arrays = record {
              keys_cap = ap (λ t. t + 1) ck ∙ shape.arrays.keys_cap;
              pointers_cap = cp ∙ shape.arrays.pointers_cap;
            };
            room = room;
          },
        )

  -- A full node is split: each half has the lists of a part of `F`, and the key between them goes up.
  pub IsNodeSplit-Holds :
      (order : ℕ) (m : Node5) (kp : Ptr) (h : Halves)
      → IsNodeSplit order n m (length put.us) k r kp h
      → (A B : Forest) × (F ≡ Join.forest_join A kp B) × Holds h.left 0 A × Holds h.right 0 B
  IsNodeSplit-Holds order m kp h s =
      let idx = length put.us in
      let (within, kx, ky) = slice-parts n.keys.at 0 n.num_keys put.xs put.ys held_keys in
      let (within_p, pu, pv) =
        slice-parts n.pointers.at 0 (n.num_keys + 1) (put.us ++ c ∷ []) put.vs held_pointers in
      let all_keys : slice h.left.keys.at 0 h.left.num_keys
            ++ kp ∷ slice h.right.keys.at 0 h.right.num_keys
          ≡ forest_keys F =
        s.keys
        ∙ ap₂ (λ u v. u ++ k ∷ v) (ap (slice n.keys.at 0) (sym put.same_place) ∙ kx)
            (let from : idx ≡ 0 + length put.xs = omega (arith, put.same_place) in
              let rest : n.num_keys - idx ≡ n.num_keys - length put.xs =
                omega (arith, put.same_place) in
              ap₂ (slice n.keys.at) from rest ∙ ky)
        ∙ sym put.new_keys in
      let all_pointers : slice h.left.pointers.at 0 (h.left.num_keys + 1)
            ++ slice h.right.pointers.at 0 (h.right.num_keys + 1)
          ≡ roots F =
        s.pointers
        ∙ ap₂ (λ u v. u ++ r ∷ v) (ap (slice n.pointers.at 0) (sym length-behind) ∙ pu)
            (let from : idx + 1 ≡ 0 + length (put.us ++ c ∷ []) = omega (arith, length-behind) in
              let rest : n.num_keys - idx ≡ n.num_keys + 1 - length (put.us ++ c ∷ []) =
                omega (arith, length-behind) in
              ap₂ (slice n.pointers.at) from rest ∙ pv)
        ∙ append_assoc put.us (c ∷ []) (r ∷ put.vs)
        ∙ sym put.new_roots in
      let sizes = ap length all_keys in
      let total : count F ≡ h.left.num_keys + suc h.right.num_keys =
        sym (length-forest_keys F)
        ∙ sym sizes
        ∙ length-append (slice h.left.keys.at 0 h.left.num_keys)
            (kp ∷ slice h.right.keys.at 0 h.right.num_keys)
        ∙ ap₂ (λ u v. u + suc v) (length-slice h.left.keys.at 0 h.left.num_keys)
            (length-slice h.right.keys.at 0 h.right.num_keys) in
      let (A, k', B, eq, size) = Join.cut h.left.num_keys F (omega (arith, total)) in
      let upper : count B ≡ h.right.num_keys =
        omega (arith, total, size, ap count eq ∙ Join.count-join k' B A) in
      let (kp_eq, lower_holds, upper_holds) =
        hold-parts h.left h.right A B kp k' size upper
          (all_keys ∙ ap forest_keys eq ∙ Join.keys-join k' B A)
          (all_pointers ∙ ap roots eq ∙ Join.roots-join k' B A) in
      (A, B, eq ∙ ap (λ z. Join.forest_join A z B) (sym kp_eq), lower_holds, upper_holds)
