-- ===== src/Bpt/Tree/Index.antt =====
-- A handle of btree/bpt3.c, empty or with a tree, as the ascending list of its entries, and the search
-- for a leaf followed by the insertion into it, as every caller does it.
use linux_kernel_struct.Common.{
  eq→==, ◌-◌, ℕ, ◌+◌, ◌≤◌, ◌≡◌, ◌≢◌, refl, sym, ap, ◌∙◌, Bool, true, false, some, [], arith,
  Bool-cases, inl, inr,
}
use mathlib.Core.Path.{subst}
use linux_kernel_struct.Memory.{Ptr, null, Memory, Returns-value, ok}
use linux_kernel_struct.Bpt.{Node5, Btree, Env}
use linux_kernel_struct.Bpt.Find.{bpt_find_leaf}
use linux_kernel_struct.Bpt.Insert.{bpt_insert}
use linux_kernel_struct.Bpt.Tree.{Tree, Entries, entries, height, has_node, IsTotalOrder, leaf_of}
use linux_kernel_struct.Bpt.Tree.Search.{bpt_search-find}
use linux_kernel_struct.Bpt.Tree.Insert.{IsTree}
use linux_kernel_struct.Bpt.Tree.Rising.{Proper}
use linux_kernel_struct.Bpt.Tree.Ready.{Ready, Ready-next}
use linux_kernel_struct.Bpt.Tree.Ascending.{put_sorted}
use linux_kernel_struct.Bpt.Tree.Growth.{Absent, Grew, counted, bpt_insert-Grew}
use linux_kernel_struct.Bpt.Tree.First.{bpt_insert-First}

-- The handle holds these entries, in at most `h` levels and in none of the nodes of `kept`.
pub data Index (e : Env) (m : Memory Node5) (b : Btree) (es : Entries) (h : ℕ) (kept : Ptr → Bool)
    : Type 0 where
  no_tree : b.root ≡ null → es ≡ [] → Index e m b es h kept
  a_tree :
      (t : Tree)
      → IsTree e m b t
      → Proper e t
      → entries t ≡ es
      → height t ≤ h
      → ((q : Ptr) → kept q ≡ true → has_node q t ≡ false)
      → Index e m b es h kept

-- What an insertion leaves: the handle `b'`, and the nodes of `kept` as they were.
pub record Stepped (e : Env) (m : Memory Node5) (supply : ℕ) (b : Btree) (es : Entries) (h : ℕ)
    (kept : Ptr → Bool) (b' : Btree) (g : Memory Node5) : Type 0 where
  pub index : Index e g b' es h kept
  pub order : b'.order ≡ b.order
  pub samek : b'.samek ≡ b.samek
  pub same : (q : Ptr) (n : Node5) → kept q ≡ true → m.cells q ≡ some n → g.cells q ≡ some n
  pub nodes_left : ℕ
  pub nodes_enough : supply ≤ nodes_left + h
  pub ready : Ready nodes_left g

module _ (e : Env) (o : IsTotalOrder e) (rounds supply : ℕ) (b : Btree) (key item flag : Ptr)
    (m : Memory Node5) (h : ℕ) (kept : Ptr → Bool)
    (used : (q : Ptr) → kept q ≡ true → (n : Node5) × (m.cells q ≡ some n)) (o2 : 2 ≤ b.order)
    (unique : b.samek ≡ false) (fuel : h ≤ rounds) (enough : h + 1 ≤ supply)
    (stock : Ready supply m) where
  -- The leaf is found, and the insertion returns a handle and its root.
  abbrev pub Ran : Entries → Type 0
  Ran es =
      (leaf' : Ptr) × (r : Btree × Ptr) × (g : Memory Node5) × (bpt_find_leaf e rounds b key
          e.compare m
        ≡ ok leaf' m)
      × (bpt_insert e rounds b leaf' key item flag m ≡ ok r g)
      × Stepped e m supply b (put_sorted e (key, item) es) (h + 1) kept (record r.0 { root = r.1 })
          g

  into_tree :
      (t : Tree)
      → IsTree e m b t
      → Proper e t
      → Absent e key (entries t)
      → height t ≤ h
      → ((q : Ptr) → kept q ≡ true → has_node q t ≡ false)
      → Ran (entries t)
  into_tree t v proper fresh low apart =
      let found =
        (bpt_search-find e o rounds b key m t null null v.stored v.ordered v.root unique
          (omega arith)).0 in
      let (r, g, run, (same, k)) =
        Returns-value (λ r g. (r.0 ≡ counted b flag) × Grew e m supply b t (key, item) r.1 g)
          (bpt_insert e rounds b (leaf_of e key t).0 key item flag m)
          (bpt_insert-Grew e o rounds supply b key item flag m t v proper o2 fresh (omega arith)
            (omega arith) stock) in
      (
        (leaf_of e key t).0,
        r,
        g,
        found,
        run,
        record {
          index =
              a_tree k.tree
                (rw same (record {
                  stored = k.is_tree.stored;
                  ordered = k.is_tree.ordered;
                  apart = k.is_tree.apart;
                  root = k.is_tree.root;
                }))
                k.proper k.entries (omega (arith, k.height)) (still_apart k);
          order = ap (λ z. z.order) same;
          samek = ap (λ z. z.samek) same;
          same = λ q n in_kept old. k.same q n (apart q in_kept) old;
          nodes_left = k.nodes_left;
          nodes_enough = omega (arith, k.nodes_enough);
          ready = k.ready;
        },
      )
    where
      still_apart :
          {root' : Ptr} {g : Memory Node5}
          → (k : Grew e m supply b t (key, item) root' g) → (q : Ptr) → kept q ≡ true
          → has_node q k.tree ≡ false
      still_apart k q in_kept = elim (Bool-cases (has_node q k.tree)) [
        | inl hit ↦
            let free = k.nodes q hit (apart q in_kept) in
            let (n, taken) = used q in_kept in absurd (cc)
        | inr out ↦ out
      ]

  into_empty : b.root ≡ null → Ran []
  unfolding bpt_find_leaf
  into_empty no_root =
      let k = supply - 1 in
      let (a, c, d, rest, has_supply, next) =
        Ready-next k m (subst (λ z. Ready z m) (omega arith) stock) in
      let (r, g, run, (root_eq, same, (t, v, proper, one, low, lone), frame, left)) =
        Returns-value _ (bpt_insert e rounds b null key item flag m)
          (bpt_insert-First e o rounds b null key item flag m a c d rest no_root o2 has_supply) in
      let not_new : (q : Ptr) → kept q ≡ true → q ≢ a = λ q in_kept eq.
        let (n, taken) = used q in_kept in cc (ap m.cells eq, taken, has_supply.unused) in
      (
        null,
        r,
        g,
        rw (eq→== b.root null no_root) refl,
        run,
        record {
          index =
              a_tree t
                (record {
                  stored = v.stored;
                  ordered = v.ordered;
                  apart = v.apart;
                  root = root_eq ∙ sym (ap (λ z. z.root) same) ∙ v.root;
                })
                proper one (omega (arith, low)) (λ q in_kept. lone q (not_new q in_kept));
          order = ap (λ z. z.order) same;
          samek = ap (λ z. z.samek) same;
          same = λ q n in_kept old. frame q (not_new q in_kept) ∙ old;
          nodes_left = k;
          nodes_enough = omega arith;
          ready = next g left (λ q n qa now. (n, sym (frame q qa) ∙ now));
        },
      )

  -- The search and the insertion end, and the entries are those of the sorted insertion.
  pub find_and_insert : (es : Entries) → Index e m b es h kept → Absent e key es → Ran es
  find_and_insert es (no_tree no_root none_yet) fresh =
      subst Ran (sym none_yet) (into_empty no_root)
  find_and_insert es (a_tree t v proper eq low apart) fresh =
      subst Ran eq (into_tree t v proper (subst (Absent e key) (sym eq) fresh) low apart)
