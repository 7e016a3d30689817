-- ===== src/Bpt/Tree/InitLeaves.antt =====
-- bpt_init_key of btree/bpt3.c on whole trees: the index by word built from the index by number.
use linux_kernel_struct.Common.{
  ◌≢◌, inr, inl, Bool-cases, if◌then◌else◌, ℕ, zero, suc, ◌+◌, ◌-◌, ◌≤◌, ◌≡◌, refl, sym, ap, ◌∙◌,
  Bool, true, false, some, [], ◌∷◌, ◌++◌, ◌==◌, arith, length, length-append, eq→==, ne→==,
}
use mathlib.Core.Path.{subst}
use linux_kernel_struct.Memory.{load, Ptr, null, Memory, ok}
use linux_kernel_struct.Memory.Laws.{load-ok}
use linux_kernel_struct.Arrays.{get}
use linux_kernel_struct.Arrays.Loops.{get-ok}
use linux_kernel_struct.Bpt.{load, Node5, Btree, Env}
use linux_kernel_struct.Bpt.Scan.{bpt_init_key, init_leaf, init_leaves}
use linux_kernel_struct.Bpt.Tree.{
  first_leaf, entries, height, root, Stored, Tree, Entries, leaf, node, Forest, last, more, pairs,
  leaf_entries, has_node, forest_has_node, IsTotalOrder,
}
use linux_kernel_struct.Bpt.Tree.Kids.{has_node-used, or_left, or_right}
use linux_kernel_struct.Bpt.Tree.Leaves.{
  leftmost-first_leaf, first_leaf-ne_null, leaves-Chain, first_of-leaves, all_entries-leaves,
  Leaves, leaves, forest_leaves, first_of, all_entries, Chain,
}
use linux_kernel_struct.Bpt.Tree.Ready.{Ready}
use linux_kernel_struct.Bpt.Tree.Ascending.{put_sorted}
use linux_kernel_struct.Bpt.Tree.Index.{Index}
use linux_kernel_struct.Bpt.Tree.Search.{root-ne_null}
use linux_kernel_struct.Bpt.Tree.InitKey.{put_all, AllNew, needed, Built, init_leaf-Built}

abbrev AllKept : (Ptr → Bool) → Leaves → Type 0
AllKept kept [] = Unit {0}
AllKept kept ((p, n) ∷ ls) = (kept p ≡ true) × AllKept kept ls

AllKept-append :
    (kept : Ptr → Bool) (xs ys : Leaves)
    → AllKept kept xs
    → AllKept kept ys
    → AllKept kept (xs ++ ys)
AllKept-append kept [] ys a b = b
AllKept-append kept ((p, n) ∷ xs) ys a b = (a.0, AllKept-append kept xs ys a.1 b)

mutual
  leaves-AllKept :
      (kept : Ptr → Bool) (t : Tree)
      → ((q : Ptr) → has_node q t ≡ true → kept q ≡ true)
      → AllKept kept (leaves t)
  leaves-AllKept kept (leaf p n) h = (h p (eq→== p p refl), tt)
  leaves-AllKept kept (node p n f) h =
      forest_leaves-AllKept kept f (λ q i. h q (or_right (q == p) (forest_has_node q f) i))

  forest_leaves-AllKept :
      (kept : Ptr → Bool) (f : Forest)
      → ((q : Ptr) → forest_has_node q f ≡ true → kept q ≡ true)
      → AllKept kept (forest_leaves f)
  forest_leaves-AllKept kept (last t) h = leaves-AllKept kept t h
  forest_leaves-AllKept kept (more t k f) h =
      AllKept-append kept (leaves t) (forest_leaves f)
        (leaves-AllKept kept t (λ q i. h q (or_left (has_node q t) (forest_has_node q f) i)))
        (forest_leaves-AllKept kept f
          (λ q i. h q (or_right (has_node q t) (forest_has_node q f) i)))

Chain-same :
    (m g : Memory Node5) (order stop : ℕ) (kept : Ptr → Bool) (ls : Leaves)
    → ((q : Ptr) (n : Node5) → kept q ≡ true → m.cells q ≡ some n → g.cells q ≡ some n)
    → AllKept kept ls
    → Chain m order stop ls
    → Chain g order stop ls
Chain-same m g order stop kept [] same k c = tt
Chain-same m g order stop kept ((p, n) ∷ ls) same k ((ne, cell, a, b, d, f), next, c) =
    ((ne, same p n k.0 cell, a, b, d, f), next, Chain-same m g order stop kept ls same k.1 c)

put_all-append :
    (e : Env) (xs ys es : Entries) → put_all e (xs ++ ys) es ≡ put_all e ys (put_all e xs es)
put_all-append e [] ys es = refl
put_all-append e (x ∷ xs) ys es = put_all-append e xs ys (put_sorted e (x.1, x.0) es)

AllNew-append :
    (e : Env) (xs ys es : Entries)
    → AllNew e (xs ++ ys) es
    → AllNew e xs es × AllNew e ys (put_all e xs es)
AllNew-append e [] ys es h = (tt, h)
AllNew-append e (x ∷ xs) ys es h =
    let (a, b) = AllNew-append e xs ys (put_sorted e (x.1, x.0) es) h.1 in ((h.0, a), b)

length-pairs : (f g : ℕ → Ptr) (i n : ℕ) → length (pairs f g i n) ≡ n
length-pairs f g i zero = refl
length-pairs f g i (suc n) = ap suc (length-pairs f g (i + 1) n)

Built-cast :
    (e : Env) (m : Memory Node5) (b : Btree) (es es' : Entries) (h h' c : ℕ) (kept : Ptr → Bool)
    (b' : Btree) (g : Memory Node5)
    → es ≡ es'
    → h ≡ h'
    → Built e m b es h c kept b' g
    → Built e m b es' h' c kept b' g
Built-cast e m b es es' h h' c kept b' g p q x =
    subst (λ z. Built e m b z h' c kept b' g) p (subst (λ z. Built e m b es z c kept b' g) q x)

Built-then :
    (e : Env) (m : Memory Node5) (b : Btree) (es es' : Entries) (h h' c c' : ℕ) (kept : Ptr → Bool)
    (b1 b2 : Btree) (g g' : Memory Node5)
    → Built e m b es h c kept b1 g
    → Built e g b1 es' h' c' kept b2 g'
    → Built e m b es' h' c' kept b2 g'
Built-then e m b es es' h h' c c' kept b1 b2 g g' x y = record {
  index = y.index;
  order = y.order ∙ x.order;
  samek = y.samek ∙ x.samek;
  same = λ q n k old. y.same q n k (x.same q n k old);
  nodes_left = y.nodes_left;
  nodes_enough = y.nodes_enough;
  ready = y.ready;
}

-- One leaf, and on to the next.
init_leaves-step :
    (e : Env) (inner order rounds : ℕ) (p q : Ptr) (n : Node5) (ws ws1 : Btree) (m g : Memory Node5)
    → load p m ≡ ok n m
    → init_leaf e inner p n.num_keys 0 ws m ≡ ok ws1 g
    → load p g ≡ ok n g
    → get n.pointers (order - 1) ≡ some q
    → init_leaves e inner order (suc rounds) p ws m
      ≡ (if q == null then ok ws1 g else init_leaves e inner order rounds q ws1 g)
unfolding init_leaves
init_leaves-step e inner order rounds p q n ws ws1 m g l1 run l2 next =
    elim (Bool-cases (q == null)) [
      | inl ends ↦ rw (l1, run, l2, next, ends) refl
      | inr more_leaves ↦ rw (l1, run, l2, next, more_leaves) refl
    ]

module _ (e : Env) (o : IsTotalOrder e) (inner : ℕ) (kept : Ptr → Bool) (order : ℕ)
    (o1 : 1 ≤ order) where
  -- The loop along the leaves `ls` ends, and all their entries have been put in.
  abbrev Runs : Leaves → Type 0
  Runs ls =
      (rounds : ℕ) (ws : Btree) (es : Entries) (h left : ℕ) (m : Memory Node5)
      → Chain m order null ls
      → AllKept kept ls
      → ((q : Ptr) → kept q ≡ true → (k : Node5) × (m.cells q ≡ some k))
      → 2 ≤ ws.order
      → ws.samek ≡ false
      → length ls ≤ rounds
      → h + length (all_entries ls) ≤ inner
      → needed h (length (all_entries ls)) ≤ left
      → Ready left m
      → Index e m ws es h kept
      → AllNew e (all_entries ls) es
      → (ws' : Btree) × (g : Memory Node5) × ((if first_of ls null == null
            then ok ws m
            else init_leaves e inner order rounds (first_of ls null) ws m)
          ≡ ok ws' g)
        × Built e m ws (put_all e (all_entries ls) es) (h + length (all_entries ls)) 0 kept ws' g

  one_leaf : (p : Ptr) (n : Node5) (ls : Leaves) → Runs ls → Runs ((p, n) ∷ ls)
  one_leaf p n ls behind zero ws es h left m chain in_kept used o2 unique more_rounds fuel enough
        stock index new =
      absurd (omega arith)
  one_leaf p n ls behind (suc rounds) ws es h left m chain in_kept used o2 unique more_rounds fuel
        enough stock index new =
      let ((ne, cell, is_leaf, ck, cp, small), next, rest_chain) = chain in
      let now = leaf_entries n in
      let later = all_entries ls in
      let total : length (now ++ later) ≡ n.num_keys + length later =
        length-append now later
        ∙ ap (λ z. z + length later) (length-pairs n.keys.at n.pointers.at 0 n.num_keys) in
      let (new_now, new_later) = AllNew-append e now later es new in
      let (ws1, g1, run1, b1) =
        init_leaf-Built e o inner kept (length later) n.num_keys 0 p n ws es h left m ne cell
          in_kept.0 (omega (arith, ck)) (omega (arith, cp)) used o2 unique (omega (arith, total))
          (subst (λ z. needed h z ≤ left) total enough) stock index new_now in
      let at_next : get n.pointers (order - 1) ≡ some (first_of ls null) =
        get-ok n.pointers (order - 1) (omega (arith, cp)) ∙ ap some next in
      let cell1 = b1.same p n in_kept.0 cell in
      let used1 : (q : Ptr) → kept q ≡ true → (k : Node5) × (g1.cells q ≡ some k) =
        λ q k. let (x, old) = used q k in (x, b1.same q x k old) in
      let chain1 = Chain-same m g1 order null kept ls b1.same in_kept.1 rest_chain in
      let step : init_leaves e inner order (suc rounds) p ws m ≡ (
          if first_of ls null == null
          then ok ws1 g1
          else init_leaves e inner order rounds (first_of ls null) ws1 g1) =
        init_leaves-step e inner order rounds p (first_of ls null) n ws ws1 m g1
          (load-ok m p n ne cell) run1 (load-ok g1 p n ne cell1) at_next in
      let (ws2, g2, run2, b2) =
        behind rounds ws1 (put_all e now es) (h + n.num_keys) b1.nodes_left g1 chain1 in_kept.1
          used1 (omega (arith, b1.order)) (b1.samek ∙ unique) (omega arith) (omega (arith, total))
          b1.nodes_enough b1.ready b1.index new_later in
      let sum : h + n.num_keys + length later ≡ h + length (now ++ later) = omega (arith, total) in
      (
        ws2,
        g2,
        rw (ne→== p null ne) (step ∙ run2),
        Built-cast e m ws (put_all e later (put_all e now es)) (put_all e (now ++ later) es)
            (h + n.num_keys + length later) (h + length (now ++ later)) 0 kept ws2 g2
            (sym (put_all-append e now later es)) sum
            (Built-then e m ws (put_all e now es) (put_all e later (put_all e now es))
              (h + n.num_keys) (h + n.num_keys + length later) (length later) 0 kept ws1 ws2 g1 g2
              b1 b2),
      )

  no_leaf : Runs []
  no_leaf rounds ws es h left m chain in_kept used o2 unique more_rounds fuel enough stock index
        new =
      (
        ws,
        m,
        refl,
        record {
          index = subst (λ z. Index e m ws es z kept) (omega arith) index;
          order = refl;
          samek = refl;
          same = λ q k i old. old;
          nodes_left = left;
          nodes_enough = omega arith;
          ready = stock;
        },
      )

  init_leaves-Built : (ls : Leaves) → Runs ls
  init_leaves-Built [] = no_leaf
  init_leaves-Built ((p, n) ∷ ls) = one_leaf p n ls (init_leaves-Built ls)

-- From a tree `tw` behind `wi` whose data are all new, bpt_init_key ends without a fault: `ws` holds its
-- old entries and, for every entry of `tw`, one with key and data exchanged, each at its place in the
-- order; the nodes of `tw` stay as they were.
pub bpt_init_key-Built :
    (e : Env) (o : IsTotalOrder e) (rounds : ℕ) (wi ws : Btree) (m : Memory Node5) (tw : Tree)
    (es : Entries) (h left : ℕ)
    → 1 ≤ wi.order
    → Stored m wi.order null null tw
    → wi.root ≡ root tw
    → 2 ≤ ws.order
    → ws.samek ≡ false
    → Index e m ws es h (λ q. has_node q tw)
    → height tw ≤ rounds
    → length (leaves tw) ≤ rounds
    → h + length (entries tw) ≤ rounds
    → needed h (length (entries tw)) ≤ left
    → Ready left m
    → AllNew e (entries tw) es
    → (ws' : Btree) × (g : Memory Node5) × (bpt_init_key e rounds wi ws m ≡ ok (ws', ws'.root) g)
      × Built e m ws
          (put_all e (entries tw) es)
          (h + length (entries tw))
          0
          (λ q. has_node q tw)
          ws'
          g
unfolding bpt_init_key
bpt_init_key-Built e o rounds wi ws m tw es h left o1 stored at_root o2 unique index fuel walk
      enough stock ready new =
    let kept : Ptr → Bool = λ q. has_node q tw in
    let all = all_entries-leaves tw in
    let root_ne = root-ne_null m wi.order null null tw stored in
    let first : first_of (leaves tw) null ≡ first_leaf tw = first_of-leaves tw null in
    let (ws', g, run, b) =
      init_leaves-Built e o rounds kept wi.order o1 (leaves tw) rounds ws es h left m
        (leaves-Chain m wi.order null null tw stored) (leaves-AllKept kept tw (λ q i. i))
        (λ q i. has_node-used m wi.order null null tw q stored i) o2 unique walk (rw all enough)
        (rw all stock) ready index (rw all new) in
    let some_leaf : first_leaf tw ≢ null = first_leaf-ne_null m wi.order null null tw stored in
    let walked : init_leaves e rounds wi.order rounds (first_leaf tw) ws m ≡ ok ws' g =
      rw (first, ne→== (first_leaf tw) null some_leaf) at run in
    rw
      (
        at_root,
        ne→== (root tw) null root_ne,
        leftmost-first_leaf m wi.order null null tw rounds stored fuel,
        walked,
      )
      (ws', g, refl, rw all at b)
