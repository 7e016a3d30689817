-- ===== src/Bpt/Tree/InitKey.antt =====
-- The entries of a leaf put into another B+ tree of btree/bpt3.c with key and data exchanged, by the
-- inner loop of bpt_init_key.
use linux_kernel_struct.Common.{
  ℕ, zero, suc, ◌+◌, ◌≤◌, ◌≡◌, ◌≢◌, refl, ◌∙◌, Bool, true, false, some, [], ◌∷◌, arith,
}
use mathlib.Core.Path.{subst}
use linux_kernel_struct.Memory.{Ptr, null, Memory, ok}
use linux_kernel_struct.Memory.Laws.{load-ok}
use linux_kernel_struct.Arrays.Loops.{get-ok}
use linux_kernel_struct.Bpt.{Node5, Btree, Env}
use linux_kernel_struct.Bpt.Insert.{flag_insert}
use linux_kernel_struct.Bpt.Scan.{init_leaf}
use linux_kernel_struct.Bpt.Tree.{Entries, pairs, IsTotalOrder}
use linux_kernel_struct.Bpt.Tree.Ready.{Ready}
use linux_kernel_struct.Bpt.Tree.Ascending.{put_sorted}
use linux_kernel_struct.Bpt.Tree.Growth.{Absent}
use linux_kernel_struct.Bpt.Tree.Index.{Index, find_and_insert}

-- Every entry put into the ascending list, with key and data exchanged.
abbrev pub put_all : Env → Entries → Entries → Entries
put_all e [] es = es
put_all e (x ∷ xs) es = put_all e xs (put_sorted e (x.1, x.0) es)

-- No data of the entries is there when it is put in.
abbrev pub AllNew : Env → Entries → Entries → Type 0
AllNew e [] es = Unit {0}
AllNew e (x ∷ xs) es = Absent e x.1 es × AllNew e xs (put_sorted e (x.1, x.0) es)

-- Enough nodes for `n` insertions into a tree of height `h`.
abbrev pub needed : ℕ → ℕ → ℕ
needed h zero = 0
needed h (suc n) = h + 1 + needed (h + 1) n

-- The handle after some insertions, with memory for `c` more.
pub record Built (e : Env) (m : Memory Node5) (b : Btree) (es : Entries) (h c : ℕ)
    (kept : Ptr → Bool) (b' : Btree) (g : Memory Node5) : Type 0 where
  pub index : Index e g b' es h kept
  pub order : b'.order ≡ b.order
  pub samek : b'.samek ≡ b.samek
  pub same : (q : Ptr) (n : Node5) → kept q ≡ true → m.cells q ≡ some n → g.cells q ≡ some n
  pub nodes_left : ℕ
  pub nodes_enough : needed h c ≤ nodes_left
  pub ready : Ready nodes_left g

module _ (e : Env) (o : IsTotalOrder e) (rounds : ℕ) (kept : Ptr → Bool) where
  -- The loop over the entries of one leaf.
  pub init_leaf-Built :
      (c r i : ℕ) (p : Ptr) (n : Node5) (ws : Btree) (es : Entries) (h left : ℕ) (m : Memory Node5)
      → p ≢ null
      → m.cells p ≡ some n
      → kept p ≡ true
      → i + r ≤ n.keys.cap
      → i + r ≤ n.pointers.cap
      → ((q : Ptr) → kept q ≡ true → (k : Node5) × (m.cells q ≡ some k))
      → 2 ≤ ws.order
      → ws.samek ≡ false
      → h + r ≤ rounds
      → needed h (r + c) ≤ left
      → Ready left m
      → Index e m ws es h kept
      → AllNew e (pairs n.keys.at n.pointers.at i r) es
      → (ws' : Btree) × (g : Memory Node5) × (init_leaf e rounds p r i ws m ≡ ok ws' g)
        × Built e m ws (put_all e (pairs n.keys.at n.pointers.at i r) es) (h + r) c kept ws' g
  unfolding init_leaf
  init_leaf-Built c zero i p n ws es h left m np cell in_kept ck cp used o2 unique fuel enough stock
        index new =
      (
        ws,
        m,
        refl,
        record {
          index = subst (λ z. Index e m ws es z kept) (omega arith) index;
          order = refl;
          samek = refl;
          same = λ q k i old. old;
          nodes_left = left;
          nodes_enough =
              subst (λ z. needed z c ≤ left) (omega arith)
                (subst (λ z. needed h z ≤ left) (omega arith) enough);
          ready = stock;
        },
      )
  init_leaf-Built c (suc r) i p n ws es h left m np cell in_kept ck cp used o2 unique fuel enough
        stock index new =
      let key = n.pointers.at i in
      let item = n.keys.at i in
      let enough' : h + 1 + needed (h + 1) (r + c) ≤ left =
        subst (λ z. needed h z ≤ left) (suc-out r c) enough in
      let (leaf', ran, g, found, run, s) =
        find_and_insert e o rounds left ws key item flag_insert m h kept used o2 unique
          (omega arith) (omega arith) stock es index new.0 in
      let ws1 : Btree = record ran.0 { root = ran.1 } in
      let (ws', g', runs, b) =
        init_leaf-Built c r (i + 1) p n ws1 (put_sorted e (key, item) es) (h + 1) s.nodes_left g np
          (s.same p n in_kept cell) in_kept (omega arith) (omega arith)
          (λ q k. let (x, old) = used q k in (x, s.same q x k old)) (omega (arith, s.order))
          (s.samek ∙ unique) (omega arith) (omega (arith, s.nodes_enough)) s.ready s.index new.1 in
      rw
        (
          load-ok m p n np cell,
          get-ok n.pointers i (omega arith),
          get-ok n.keys i (omega arith),
          found,
          run,
        )
        (
          ws',
          g',
          runs,
          record {
            index =
                subst
                  (λ z.
                    Index e g' ws'
                      (put_all e (pairs n.keys.at n.pointers.at (i + 1) r)
                        (put_sorted e (key, item) es))
                      z kept)
                  (levels h r) b.index;
            order = b.order ∙ s.order;
            samek = b.samek ∙ s.samek;
            same = λ q k i old. b.same q k i (s.same q k i old);
            nodes_left = b.nodes_left;
            nodes_enough = subst (λ z. needed z c ≤ b.nodes_left) (levels h r) b.nodes_enough;
            ready = b.ready;
          },
        )
    where
      suc-out : (a b : ℕ) → suc a + b ≡ suc (a + b)
      suc-out a b = omega arith

      levels : (a b : ℕ) → a + 1 + b ≡ a + suc b
      levels a b = omega arith
