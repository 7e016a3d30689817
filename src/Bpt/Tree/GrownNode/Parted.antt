-- ===== src/Bpt/Tree/GrownNode/Parted.antt =====
-- A full internal node of btree/bpt3.c whose children have grown by one becomes two nodes.
use linux_kernel_struct.Common.{
  suc, ◌≤◌, ne→==, sym, Bool, ◌||◌, Option-cases, ℕ, ◌≡◌, ◌≢◌, refl, ap, ◌∙◌, true, false, some,
  none, List, ◌==◌, arith, Bool-cases, inl, inr, ==_iff, eq→==,
}
use mathlib.Core.Path.{subst}
use linux_kernel_struct.Memory.{Ptr, null, Memory}
use linux_kernel_struct.Bpt.{suc, Bool, Node5, Env}
use linux_kernel_struct.Bpt.Tree.{
  forest_height, forest_entries, Inserted, forest_first_leaf, OrderedForest, more, ApartForest,
  Forest, last, node, Stored, IsTotalOrder, Apart, forest_has_node,
}
use linux_kernel_struct.Bpt.Tree.Replace.{or_false}
use linux_kernel_struct.Bpt.Tree.Kids.{
  forest_has_node-used, Kids, Holds, Holds-Children, Kids-same, or_right,
}
use linux_kernel_struct.Bpt.Tree.Join
use linux_kernel_struct.Bpt.Tree.Reparent.{reparent_all-Alike, reparent_all}
use linux_kernel_struct.Bpt.Tree.SplitNode.{NodeSplit, not_used}
use linux_kernel_struct.Bpt.Tree.Rising.{ProperForest}
use linux_kernel_struct.Bpt.Tree.Grown.{Grown, or_cases}
use linux_kernel_struct.Bpt.Tree.GrownNode.{outside, at_node}

-- The node in two parts.
abbrev pub parted : Ptr → Ptr → Ptr → Forest → Forest → Node5 → Node5 → Forest
parted p a kp A B l u = more (node p l A) kp (last (node a u (reparent_all a B)))

module _ (e : Env) (o : IsTotalOrder e) (m g : Memory Node5) (order up stop : ℕ) (x : Ptr × Ptr)
    (p : Ptr) (n : Node5) (f F : Forest) (stored : Stored m order up stop (node p n f))
    (apart : Apart (node p n f)) (h : Grown e m g order p stop x f F) where
  p_outside : forest_has_node p F ≡ false
  p_outside = outside e o m g order up stop x p n f F stored apart h

  at_p : g.cells p ≡ some n
  at_p = at_node e o m g order up stop x p n f F stored apart h

  not_p : (q : Ptr) → (q == p) ≡ false → q ≢ p
  not_p q miss same = cc (miss, eq→== q p same)

  module _ (g' : Memory Node5) (a kp : Ptr) (rest : List Ptr) (A B : Forest) (l u : Node5)
      (unused : g.cells a ≡ none) (na : a ≢ null)
      (split : NodeSplit order g g' p a up stop rest F kp A B l u) where
    p_ne_a : p ≢ a
    p_ne_a same = cc (ap g.cells same, at_p, unused)

    -- Where a node of the new parts comes from.
    lower_in : (q : Ptr) → forest_has_node q A ≡ true → forest_has_node q F ≡ true
    lower_in q i = rw (split.parts, Join.has_node-join kp B q A, i) refl

    upper_in : (q : Ptr) → forest_has_node q B ≡ true → forest_has_node q F ≡ true
    upper_in q i =
        rw (split.parts, Join.has_node-join kp B q A)
          (or_right (forest_has_node q A) (forest_has_node q B) i)

    out_of :
        (q : Ptr) (G : Forest)
        → ((z : Ptr) → forest_has_node z G ≡ true → forest_has_node z F ≡ true)
        → forest_has_node q F ≡ false
        → forest_has_node q G ≡ false
    out_of q G inside out = elim (Bool-cases (forest_has_node q G)) [
      | inl hit ↦ let bad = inside q hit in absurd (cc)
      | inr miss ↦ miss
    ]

    a_outside : forest_has_node a F ≡ false
    a_outside = not_used g order p stop a F h.kids unused

    upper_nodes : (q : Ptr) → forest_has_node q (reparent_all a B) ≡ forest_has_node q B
    upper_nodes q = (reparent_all-Alike e a B).has_node q

    -- The lower part stays where it was.
    lower-Kids : Kids g' order p (forest_first_leaf (reparent_all a B)) A
    lower-Kids =
        let (ka, kb) =
          Join.Kids-cut kp B g order p stop A (subst (Kids g order p stop) split.parts h.kids) in
        let (aa, ab, disjoint) = Join.Apart-cut kp B A (subst ApartForest split.parts h.apart) in
        rw (reparent_all-Alike e a B).first_leaf (
          Kids-same g g' order p (forest_first_leaf B) A
            (λ q i.
              split.same q
                (λ same. cc (p_outside, lower_in q i, ap (λ z. forest_has_node z F) same))
                (λ same. cc (a_outside, lower_in q i, ap (λ z. forest_has_node z F) same))
                (disjoint q i))
            ka)

    parted-Kids : Kids g' order up stop (parted p a kp A B l u)
    parted-Kids = (
      (
        stored.0,
        split.lower,
        split.lower_inner.is_leaf,
        split.lower_inner.parent,
        split.lower_inner.arrays.keys_cap,
        split.lower_inner.arrays.pointers_cap,
        split.lower_inner.room,
        Holds-Children g' order p (forest_first_leaf (reparent_all a B)) l 0 A split.lower_holds
            lower-Kids,
      ),
      (
        na,
        split.upper,
        split.upper_inner.is_leaf,
        split.upper_inner.parent,
        split.upper_inner.arrays.keys_cap,
        split.upper_inner.arrays.pointers_cap,
        split.upper_inner.room,
        Holds-Children g' order a stop u 0 (reparent_all a B) upper_held split.kids,
      ),
    )
      where
        upper_held : Holds u 0 (reparent_all a B)
        upper_held =
            let like = reparent_all-Alike e a B in
            let old = split.upper_holds in
            record {
              num_keys = omega (arith, old.num_keys, like.size);
              keys = rw (like.size, like.keys) old.keys;
              pointers = rw (like.size, like.addresses) old.pointers;
            }

    parted-ordered : OrderedForest e (parted p a kp A B l u)
    parted-ordered =
        let like = reparent_all-Alike e a B in
        let (lo, hi, oa, ob) =
          Join.Ordered-cut e o kp B A (subst (ProperForest e) split.parts h.proper)
            (subst (OrderedForest e) split.parts h.ordered) in
        (lo, rw like.entries hi, oa, like.ordered ob)

    parted-proper : ProperForest e (parted p a kp A B l u)
    parted-proper =
        let (pa, pb) = Join.Proper-cut e o kp B A (subst (ProperForest e) split.parts h.proper) in
        (pa, (reparent_all-Alike e a B).proper pb)

    parted-apart : ApartForest (parted p a kp A B l u)
    parted-apart =
        let (aa, ab, disjoint) = Join.Apart-cut kp B A (subst ApartForest split.parts h.apart) in
        (
          (λ q i. elim (Bool-cases (q == p)) [
            | inl hit ↦
                let same = (==_iff q p).0 hit in
                rw (same, ne→== p a p_ne_a, upper_nodes p) (out_of p B upper_in p_outside)
            | inr miss ↦
                let in_a = or_cases (q == p) (forest_has_node q A) i miss in
                rw
                  (
                    ne→== q a (λ same.
                        cc (a_outside, lower_in q in_a, ap (λ z. forest_has_node z F) same)),
                    upper_nodes q,
                  )
                  (disjoint q in_a)
          ]),
          (out_of p A lower_in p_outside, aa),
          (upper_nodes a ∙ out_of a B upper_in a_outside, (reparent_all-Alike e a B).apart ab),
        )

    parted-nodes :
        (q : Ptr)
        → forest_has_node q (parted p a kp A B l u) ≡ true
        → forest_has_node q (last (node p n f)) ≡ false
        → m.cells q ≡ none
    parted-nodes q i out =
        let (o1, o2) = or_false (q == p) (forest_has_node q f) out in
        elim (Bool-cases (forest_has_node q A)) [
          | inl in_a ↦ h.nodes q (lower_in q in_a) o2
          | inr not_a ↦ elim (Bool-cases (forest_has_node q B)) [
            | inl in_b ↦ h.nodes q (upper_in q in_b) o2
            | inr not_b ↦
                let is_a : (q == a) ≡ true = new_one q o1 not_a not_b i in
                rw ((==_iff q a).0 is_a) never_used
          ]
        ]
      where
        never_used : m.cells a ≡ none
        never_used = elim (Option-cases (m.cells a)) [
          | inl free ↦ free
          | inr (c, taken) ↦ let (c', now) = h.used a c taken in absurd (cc unused)
        ]

        new_one :
            (q : Ptr)
            → (q == p) ≡ false
            → forest_has_node q A ≡ false
            → forest_has_node q B ≡ false
            → (((q == p) || forest_has_node q A)
                || ((q == a) || forest_has_node q (reparent_all a B)))
              ≡ true
            → (q == a) ≡ true
        new_one q o1 o2 o3 i = first_of (q == a) (rw (o1, o2, upper_nodes q, o3) at i)
          where
            first_of : (b : Bool) → (b || false) ≡ true → b ≡ true
            first_of true t = refl
            first_of false t = absurd (cc)

    parted-same :
        (q : Ptr) (c : Node5)
        → forest_has_node q (last (node p n f)) ≡ false
        → m.cells q ≡ some c
        → g'.cells q ≡ some c
    parted-same q c out old =
        let (o1, o2) = or_false (q == p) (forest_has_node q f) out in
        let now = h.same q c o2 old in
        let not_f : forest_has_node q F ≡ false = elim (Bool-cases (forest_has_node q F)) [
          | inl hit ↦ let gone = h.nodes q hit o2 in absurd (cc)
          | inr miss ↦ miss
        ] in
        split.same q (not_p q o1) (λ same. cc (ap g.cells same, unused, now))
          (out_of q B upper_in not_f)
        ∙ now

    parted-used : (q : Ptr) (c : Node5) → g.cells q ≡ some c → (c' : Node5) × (g'.cells q ≡ some c')
    parted-used q c old = elim (Bool-cases (q == p)) [
      | inl hit ↦ (l, rw ((==_iff q p).0 hit) split.lower)
      | inr miss ↦ elim (Bool-cases (forest_has_node q B)) [
        | inl in_b ↦
            forest_has_node-used g' order a stop (reparent_all a B) q split.kids
              (upper_nodes q ∙ in_b)
        | inr not_b ↦
            (c, split.same q (not_p q miss) (λ same. cc (ap g.cells same, unused, old)) not_b ∙ old)
      ]
    ]

    -- The two nodes in place of the full one.
    pub parted-Grown : Grown e m g' order up stop x (last (node p n f)) (parted p a kp A B l u)
    parted-Grown = record {
      kids = parted-Kids;
      ordered = parted-ordered;
      proper = parted-proper;
      apart = parted-apart;
      first = parted_first;
      entries = parted_entries;
      height = parted_height;
      nodes = parted-nodes;
      same = parted-same;
      used = λ q c old. let (c', now) = h.used q c old in parted-used q c' now;
    }
      where
        parted_first : forest_first_leaf (parted p a kp A B l u) ≡ forest_first_leaf f
        parted_first =
            sym (Join.first_leaf-join kp B A) ∙ sym (ap forest_first_leaf split.parts) ∙ h.first

        parted_entries : Inserted x (forest_entries f) (forest_entries (parted p a kp A B l u))
        parted_entries =
            rw ((reparent_all-Alike e a B).entries, ← Join.entries-join kp B A, ← split.parts)
              h.entries

        parted_height : forest_height (parted p a kp A B l u) ≤ suc (forest_height f)
        parted_height =
            let like = reparent_all-Alike e a B in
            let (la, lb) =
              (Join.height-join kp B (forest_height f) A).0
                (subst (λ z. forest_height z ≤ forest_height f) split.parts h.height) in
            omega (arith, like.height)
