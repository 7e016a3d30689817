-- ===== src/Bpt/Tree/Grown.antt =====
-- The children of a node of btree/bpt3.c before and after an insertion below them: one entry more,
-- and perhaps one child more.
use linux_kernel_struct.Common.{
  ℕ, ◌≤◌, ◌≡◌, refl, sym, ◌∙◌, Bool, true, false, Option, none, some, ◌||◌, arith, Bool-cases, inl,
  inr, max,
}
use linux_kernel_struct.Memory.{Ptr, Memory}
use linux_kernel_struct.Bpt.{Node5, Env}
use linux_kernel_struct.Bpt.Order.{Le}
use linux_kernel_struct.Bpt.Tree.{
  Tree, Forest, last, more, entries, forest_entries, height, forest_height, forest_first_leaf,
  Stored, IsTotalOrder, Lt, OrderedForest, has_node, forest_has_node, ApartForest, Inserted,
}
use linux_kernel_struct.Bpt.Tree.Entries.{AllKeys-Inserted}
use linux_kernel_struct.Bpt.Tree.Replace.{or_false, Inserted-left, Inserted-right}
use linux_kernel_struct.Bpt.Tree.Kids.{
  Kids, Kids-same, Stored-same, has_node-used, forest_has_node-used,
}
use linux_kernel_struct.Bpt.Tree.Rising.{ProperForest}
use linux_kernel_struct.Bpt.Tree.Join

-- From the heap `m` with the children `f` to the heap `g` with the children `F`, which hold the entry
-- `x` besides. New nodes stand where nothing was, and nothing outside the children has changed.
pub record Grown (e : Env) (m g : Memory Node5) (order up stop : ℕ) (x : Ptr × Ptr) (f F : Forest)
    : Type 0 where
  pub kids : Kids g order up stop F
  pub ordered : OrderedForest e F
  pub proper : ProperForest e F
  pub apart : ApartForest F
  pub first : forest_first_leaf F ≡ forest_first_leaf f
  pub entries : Inserted x (forest_entries f) (forest_entries F)
  pub height : forest_height F ≤ forest_height f
  pub nodes :
      (q : Ptr) → forest_has_node q F ≡ true → forest_has_node q f ≡ false → m.cells q ≡ none
  pub same :
      (q : Ptr) (n : Node5) → forest_has_node q f ≡ false → m.cells q ≡ some n → g.cells q ≡ some n
  pub used : (q : Ptr) (n : Node5) → m.cells q ≡ some n → (n' : Node5) × (g.cells q ≡ some n')

pub or_cases : (a b : Bool) → (a || b) ≡ true → (a ≡ false → b ≡ true)
or_cases true b h n = absurd (cc)
or_cases false b h n = h

-- A node that is new is none of those that are in use.
pub apart_new :
    (c : Option Node5) (b : Bool) → c ≡ none → (b ≡ true → (n : Node5) × (c ≡ some n)) → b ≡ false
apart_new c true h u = let (n, eq) = u refl in absurd (cc)
apart_new c false h u = refl

module _ (e : Env) (o : IsTotalOrder e) (m g : Memory Node5) (order up stop : ℕ) (x : Ptr × Ptr)
    (t : Tree) (k : Ptr) (f : Forest) (stored : Stored m order up (forest_first_leaf f) t)
    (kids : Kids m order up stop f) (ordered : OrderedForest e (more t k f))
    (proper : ProperForest e (more t k f)) (apart : ApartForest (more t k f)) where
  -- The growth of the first child, and of the children behind it, is one of them all.
  pub Grown-left :
      (F : Forest)
      → Lt e x.0 k
      → Grown e m g order up (forest_first_leaf f) x (last t) F
      → Grown e m g order up stop x (more t k f) (Join.forest_join F k f)
  Grown-left F before h =
      let kept : (q : Ptr) → forest_has_node q f ≡ true → g.cells q ≡ m.cells q = λ q in_f.
        let (n, cell) = forest_has_node-used m order up stop f q kids in_f in
        let out : has_node q t ≡ false = apart_left q in_f in h.same q n out cell ∙ sym cell in
      record {
        kids =
            Join.Kids-join k f g order up stop F h.kids (Kids-same m g order up stop f kept kids);
        ordered =
            Join.Ordered-join e o k f F h.proper
              (AllKeys-Inserted (λ y. Lt e y k) x (entries t) (forest_entries F) h.entries ordered.0
                before)
              ordered.1 h.ordered ordered.3;
        proper = Join.Proper-join e o k f F h.proper proper.1;
        apart = Join.Apart-join k f F h.apart apart.2 new_apart;
        first = Join.first_leaf-join k f F ∙ h.first;
        entries =
            rw (Join.entries-join k f F)
              (Inserted-left x (entries t) (forest_entries F) (forest_entries f) h.entries);
        height =
            (Join.height-join k f (max (height t) (forest_height f)) F).1 (omega (arith, h.height))
              (omega arith);
        nodes = λ q in_join out.
            let (out_t, out_f) = or_false (has_node q t) (forest_has_node q f) out in
            h.nodes q
              (or_first (forest_has_node q F) (forest_has_node q f)
                (sym (Join.has_node-join k f q F) ∙ in_join) out_f)
              out_t;
        same =
            λ q n out cell. h.same q n (or_false (has_node q t) (forest_has_node q f) out).0 cell;
        used = h.used;
      }
    where
      apart_left : (q : Ptr) → forest_has_node q f ≡ true → has_node q t ≡ false
      apart_left q in_f = elim (Bool-cases (has_node q t)) [
        | inl hit ↦ let out = apart.0 q hit in absurd (cc)
        | inr miss ↦ miss
      ]

      new_apart : (q : Ptr) → forest_has_node q F ≡ true → forest_has_node q f ≡ false
      new_apart q in_new = elim (Bool-cases (has_node q t)) [
        | inl hit ↦ apart.0 q hit
        | inr miss ↦
            apart_new (m.cells q) (forest_has_node q f) (h.nodes q in_new miss)
              (forest_has_node-used m order up stop f q kids)
      ]

      or_first : (a b : Bool) → (a || b) ≡ true → b ≡ false → a ≡ true
      or_first true b s n = refl
      or_first false b s n = absurd (cc)

  pub Grown-right :
      (F : Forest)
      → Le e k x.0
      → Grown e m g order up stop x f F
      → Grown e m g order up stop x (more t k f) (more t k F)
  Grown-right F behind h =
      let kept : (q : Ptr) → has_node q t ≡ true → g.cells q ≡ m.cells q = λ q in_t.
        let (n, cell) = has_node-used m order up (forest_first_leaf f) t q stored in_t in
        h.same q n (apart.0 q in_t) cell ∙ sym cell in
      record {
        kids = (rw h.first (Stored-same m g order up (forest_first_leaf f) t kept stored), h.kids);
        ordered = (
          ordered.0,
          AllKeys-Inserted (λ y. Le e k y) x (forest_entries f) (forest_entries F) h.entries
              ordered.1 behind,
          ordered.2,
          h.ordered,
        );
        proper = (proper.0, h.proper);
        apart = (new_apart, apart.1, h.apart);
        first = refl;
        entries = Inserted-right x (forest_entries f) (forest_entries F) (entries t) h.entries;
        height = omega (arith, h.height);
        nodes = λ q in_all out.
            let (out_t, out_f) = or_false (has_node q t) (forest_has_node q f) out in
            h.nodes q (or_cases (has_node q t) (forest_has_node q F) in_all out_t) out_f;
        same =
            λ q n out cell. h.same q n (or_false (has_node q t) (forest_has_node q f) out).1 cell;
        used = h.used;
      }
    where
      new_apart : (q : Ptr) → has_node q t ≡ true → forest_has_node q F ≡ false
      new_apart q in_t = elim (Bool-cases (forest_has_node q F)) [
        | inl hit ↦
            let (n, cell) = has_node-used m order up (forest_first_leaf f) t q stored in_t in
            let gone = h.nodes q hit (apart.0 q in_t) in absurd (cc)
        | inr miss ↦ miss
      ]
