-- ===== src/Bpt/Merge/Coalesce.antt =====
-- The merge of two neighbours in btree/bpt3.c.
use linux_kernel_struct.Common.{
  ℕ, ◌+◌, ◌-◌, ◌≤◌, ◌<◌, ◌≡◌, refl, sym, ap, ap₂, ◌∙◌, true, false, some, [], ◌∷◌, ◌++◌, arith,
  append_assoc,
}
use linux_kernel_struct.Arrays.{Arr, slice, copy, updated}
use linux_kernel_struct.Arrays.Loops.{get-ok, put-ok}
use linux_kernel_struct.Arrays.Slice.{slice-append, slice-congr, slice-last_zero, slice-updated}
use linux_kernel_struct.Arrays.Copy.{copy-Copied, slice-put}
use linux_kernel_struct.Bpt.{Node5}
use linux_kernel_struct.Bpt.Merge.{merge, Pair}

-- A copy of the first `r` entries of `src` behind the first `n` of `dst`.
append_lem :
    (r n : ℕ) (src dst : Arr)
    → r ≤ src.cap
    → n + r ≤ dst.cap
    → (b : Arr) × (copy r 0 n src dst ≡ some b)
      × (b.cap ≡ dst.cap)
      × (slice b.at 0 (n + r) ≡ slice dst.at 0 n ++ slice src.at 0 r)
      × ((k : ℕ) → n + r ≤ k → b.at k ≡ dst.at k)
append_lem r n src dst hs hd =
    let (b, e, c) = copy-Copied r 0 n src dst (omega arith) hd in
    (
      b,
      e,
      c.cap,
      slice-append b.at 0 n r
          ∙ ap₂ ◌++◌ (slice-congr b.at dst.at 0 0 n (λ k l. c.before (0 + k) (omega arith)))
              (ap (λ t. slice b.at t r) (omega arith) ∙ c.moved),
      c.behind,
    )

-- Two leaves as one: the entries of `r` behind those of `l`, and the link of `r`.
pub record LeafMerged (order : ℕ) (l r l' : Node5) : Type 0 where
  pub num_keys : l'.num_keys ≡ l.num_keys + r.num_keys
  pub keys :
      slice l'.keys.at 0 l'.num_keys ≡ slice l.keys.at 0 l.num_keys ++ slice r.keys.at 0 r.num_keys
  pub items :
      slice l'.pointers.at 0 l'.num_keys
      ≡ slice l.pointers.at 0 l.num_keys ++ slice r.pointers.at 0 r.num_keys
  pub link : l'.pointers.at (order - 1) ≡ r.pointers.at (order - 1)

-- Two leaves whose entries fit in one are merged within bounds: the entries of the right leaf follow
-- those of the left one, which takes over the link to the next leaf.
pub merge-LeafMerged :
    (order : ℕ) (l r : Node5) (kp : ℕ)
    → r.is_leaf ≡ true
    → l.keys.cap + 1 ≡ order
    → l.pointers.cap ≡ order
    → r.keys.cap + 1 ≡ order
    → r.pointers.cap ≡ order
    → l.num_keys + r.num_keys < order
    → (p : Pair) × (merge order l r kp ≡ some p)
      × LeafMerged order l r p.left
      × (p.right.num_keys ≡ r.num_keys)
unfolding merge
merge-LeafMerged order l r kp leaf lk lp rk rp fit =
    let (a, ea, ca, sa, ka) =
      append_lem r.num_keys l.num_keys r.keys l.keys (omega arith) (omega arith) in
    let (b, eb, cb, sb, kb) =
      append_lem r.num_keys l.num_keys r.pointers l.pointers (omega arith) (omega arith) in
    let link = r.pointers.at (order - 1) in
    rw
      (
        leaf,
        ea,
        eb,
        get-ok r.pointers (order - 1) (omega arith),
        put-ok b (order - 1) link (omega arith),
      )
      (
        record {
          left = record l {
            keys = a;
            pointers = record { cap = b.cap; at = updated b.at (order - 1) link };
            num_keys = l.num_keys + r.num_keys;
          };
          right = record r { is_leaf = true };
        },
        refl,
        record {
          num_keys = refl;
          keys = sa;
          items = slice-put b.at (order - 1) link (l.num_keys + r.num_keys) (omega arith) ∙ sb;
          link = ground arith;
        },
        refl,
      )

-- Two internal nodes as one: the separator of their parent stands between their keys, and the
-- children follow one another.
pub record NodeMerged (l r : Node5) (kp : ℕ) (l' : Node5) : Type 0 where
  pub num_keys : l'.num_keys ≡ l.num_keys + 1 + r.num_keys
  pub keys :
      slice l'.keys.at 0 l'.num_keys
      ≡ slice l.keys.at 0 l.num_keys ++ kp ∷ slice r.keys.at 0 r.num_keys
  pub children :
      slice l'.pointers.at 0 (l'.num_keys + 1)
      ≡ slice l.pointers.at 0 (l.num_keys + 1) ++ slice r.pointers.at 0 (r.num_keys + 1)

-- Two internal nodes whose keys and separator fit in one are merged within bounds: the separator
-- stands between the keys, and all children follow in order.
pub merge-NodeMerged :
    (order : ℕ) (l r : Node5) (kp : ℕ)
    → r.is_leaf ≡ false
    → l.keys.cap + 1 ≡ order
    → l.pointers.cap ≡ order
    → r.keys.cap + 1 ≡ order
    → r.pointers.cap ≡ order
    → l.num_keys + 1 + r.num_keys < order
    → (p : Pair) × (merge order l r kp ≡ some p) × NodeMerged l r kp p.left × (p.right.num_keys ≡ 0)
unfolding merge
merge-NodeMerged order l r kp inner lk lp rk rp fit =
    let k1 : Arr = record { cap = l.keys.cap; at = updated l.keys.at l.num_keys kp } in
    let (a, ea, ca, sa, ka) =
      append_lem r.num_keys (l.num_keys + 1) r.keys k1 (omega arith) (omega arith) in
    let (b, eb, cb, sb, kb) =
      append_lem r.num_keys (l.num_keys + 1) r.pointers l.pointers (omega arith) (omega arith) in
    let end = r.pointers.at r.num_keys in
    let n = l.num_keys + 1 + r.num_keys in
    rw
      (
        inner,
        put-ok l.keys l.num_keys kp (omega arith),
        ea,
        eb,
        get-ok r.pointers r.num_keys (omega arith),
        put-ok b n end (omega arith),
      )
      (
        record {
          left = record l {
            keys = a;
            pointers = record { cap = b.cap; at = updated b.at n end };
            num_keys = n;
          };
          right = record r { num_keys = 0; is_leaf = false };
        },
        refl,
        record {
          num_keys = refl;
          keys =
              sa
              ∙ ap (λ t. t ++ slice r.keys.at 0 r.num_keys) (slice-updated l.keys.at l.num_keys kp)
              ∙ append_assoc (slice l.keys.at 0 l.num_keys) (kp ∷ [])
                  (slice r.keys.at 0 r.num_keys);
          children =
              slice-updated b.at n end
              ∙ ap (λ t. t ++ end ∷ []) sb
              ∙ append_assoc (slice l.pointers.at 0 (l.num_keys + 1))
                  (slice r.pointers.at 0 r.num_keys) (end ∷ [])
              ∙ ap (λ t. slice l.pointers.at 0 (l.num_keys + 1) ++ t)
                  (sym (slice-last_zero r.pointers.at r.num_keys));
        },
        refl,
      )
