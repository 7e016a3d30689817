-- ===== src/Stack/Limit.antt =====
-- stack_push_limit and stack_remove_bottom of btree/stack.c.
use linux_kernel_struct.Common.{
  take, drop, length-take, length-drop, take-append-drop, le→leb, le→leb_false, ℕ, zero, suc, ◌+◌,
  ◌-◌, ◌^◌, ◌<◌, ◌≡◌, refl, sym, ◌≢◌, Bool, true, false, none, some, List, [], ◌∷◌, ◌++◌, arith,
  length, ap, ◌∙◌, ne→==, if◌then◌else◌, append_assoc, append-nil,
}
use mathlib.Core.Path.{subst}
use linux_kernel_struct.Int32.{signed_ge_lem, dec}
use linux_kernel_struct.Memory.{Ptr, null, Memory, write, Returns, Returns-mono, Returns-bind}
use linux_kernel_struct.Memory.Laws.{load-ok, malloc-cons, free-ok, free_block-ok, without_block}
use linux_kernel_struct.Memory.Chain.{
  has-append, has, Cells, OwnsBlocks, holds, IsFresh, first, last_ptr, write-ne, ne_of_not_has,
  length-append_one,
}
use linux_kernel_struct.Stack.{Node2, node2, Stack, stack_remove_bottom, stack_push_limit}
use linux_kernel_struct.Stack.Links.{
  last_ptr-append_one, IsStack, Links, Links-write, Links-init, before, before-last_ptr,
}
use linux_kernel_struct.Stack.Push.{Links-pushed, set_prev-ok, pushed}

-- `ks` with the nodes of `rs` below, the first of `rs` at the bottom.
abbrev pub below : Cells → Cells → Cells
below ks [] = ks
below ks (z ∷ rs) = below ks rs ++ z ∷ []

pub length-below : (ks rs : Cells) → length (below ks rs) ≡ length ks + length rs
length-below ks [] = omega arith
length-below ks (z ∷ rs) = omega (arith, length-append_one (below ks rs) z, length-below ks rs)

-- What the removal leaves: of the chain `x ∷ below ks rs` only `x ∷ ks`, and the nodes and the blocks of
-- `rs` freed, no others.
pub record Kept (m g : Memory Node2) (top0 : Ptr) (s' : Stack) (up : Ptr) (x : Ptr × Ptr)
    (ks rs : Cells) : Type 0 where
  pub top : s'.top ≡ top0
  pub count : s'.count ≡ length ks
  pub bottom : s'.bottom ≡ last_ptr (x ∷ ks)
  pub links : (t : Ptr) × Links g.cells up t (x ∷ ks)
  pub supply : g.supply ≡ m.supply
  pub cells : (a : Ptr) → g.cells a ≡ (if has a rs then none else m.cells a)
  pub blocks : (a : Ptr) → g.blocks a ≡ (if holds a rs then false else m.blocks a)

-- The loop counts the nodes below `x`, and stops when `height - 1` of them are left.
stack_remove_bottom-Kept :
    (rounds height : ℕ) (m : Memory Node2) (s : Stack) (up stop : Ptr) (x : Ptr × Ptr)
    (ks rs : Cells)
    → Links m.cells up stop (x ∷ below ks rs)
    → s.bottom ≡ last_ptr (x ∷ below ks rs)
    → s.count ≡ length (below ks rs)
    → length (below ks rs) < 2 ^ 31
    → height < 2 ^ 31
    → length ks < height
    → (rs ≢ [] → length ks + 1 ≡ height)
    → OwnsBlocks m.blocks rs
    → length rs < rounds
    → Returns (λ s' g. Kept m g s.top s' up x ks rs) (stack_remove_bottom rounds s height m)
unfolding stack_remove_bottom write
stack_remove_bottom-Kept zero height m s up stop x ks rs l b c small h2 kh rh own fuel =
    absurd (omega arith)
stack_remove_bottom-Kept (suc rounds) height m s up stop x ks [] l b c small h2 kh rh own fuel =
    rw (signed_ge_lem s.count height (omega arith) h2, le→leb_false height s.count (omega arith))
      (record {
        top = refl;
        count = c;
        bottom = b;
        links = (stop, l);
        supply = refl;
        cells = λ a. refl;
        blocks = λ a. refl;
      })
stack_remove_bottom-Kept (suc rounds) height m s up stop x ks ((p, d) ∷ rs) l b c small h2 kh rh own
      fuel =
    let (l', out, ne, cell) = Links-init m.cells up stop (x ∷ below ks rs) p d l in
    let n = node2 (before up (x ∷ below ks rs)) d stop in
    let at_p : s.bottom ≡ p = b ∙ last_ptr-append_one (x ∷ below ks rs) (p, d) in
    let size = length-append_one (below ks rs) (p, d) in
    let height_eq = rh (λ q. cc) in
    let long = length-below ks rs in
    let m1 : Memory Node2 = record m { blocks = without_block m d } in
    let g1 : Memory Node2 = record m1 { cells = write m.cells p none } in
    let s1 : Stack = record s { bottom = n.prev; count = dec s.count } in
    rw
      (
        signed_ge_lem s.count height (omega arith) h2,
        le→leb height s.count (omega arith),
        at_p,
        load-ok m p n ne cell,
        free_block-ok m d own.0,
        free-ok m1 p n ne cell,
      )
      (Returns-mono (λ s' g. Kept g1 g s1.top s' up x ks rs)
        (λ s' g. Kept m g s.top s' up x ks ((p, d) ∷ rs)) (stack_remove_bottom rounds s1 height g1)
        (stack_remove_bottom-Kept rounds height g1 s1 up p x ks rs
          (Links-write m.cells up p p none (x ∷ below ks rs) out l')
          (before-last_ptr up x (below ks rs)) (omega arith) (omega arith) h2 kh (λ q. height_eq)
          own.1 (omega arith))
        (λ s' g k. record {
          top = k.top;
          count = k.count;
          bottom = k.bottom;
          links = k.links;
          supply = k.supply;
          cells = λ a. ground (arith, k.cells a);
          blocks = λ a. ground (arith, k.blocks a);
        }))

-- The nodes from the bottom up.
abbrev pub from_end : Cells → Cells
from_end [] = []
from_end (x ∷ xs) = from_end xs ++ x ∷ []

below-append_one :
    (ks rs : Cells) (x : Ptr × Ptr) → below ks (rs ++ x ∷ []) ≡ below (ks ++ x ∷ []) rs
below-append_one ks [] x = refl
below-append_one ks (z ∷ rs) x = ap (λ t. t ++ z ∷ []) (below-append_one ks rs x)

below-from_end : (ks gs : Cells) → below ks (from_end gs) ≡ ks ++ gs
below-from_end ks [] = sym (append-nil ks)
below-from_end ks (g ∷ gs) =
    below-append_one ks (from_end gs) g
    ∙ below-from_end (ks ++ g ∷ []) gs
    ∙ append_assoc ks (g ∷ []) gs

holds-append_one : (a p d : Ptr) (xs : Cells) → holds a (xs ++ (p, d) ∷ []) ≡ holds a ((p, d) ∷ xs)
holds-append_one a p d [] = refl
holds-append_one a p d (x ∷ xs) = ground (arith, holds-append_one a p d xs)

holds-from_end : (a : Ptr) (xs : Cells) → holds a (from_end xs) ≡ holds a xs
holds-from_end a [] = refl
holds-from_end a ((p, d) ∷ xs) =
    holds-append_one a p d (from_end xs) ∙ ground (arith, holds-from_end a xs)

has-from_end : (a : Ptr) (xs : Cells) → has a (from_end xs) ≡ has a xs
has-from_end a [] = refl
has-from_end a ((p, d) ∷ xs) =
    ground (arith, has-append a (from_end xs) ((p, d) ∷ []), has-from_end a xs)

length-from_end : (xs : Cells) → length (from_end xs) ≡ length xs
length-from_end [] = refl
length-from_end (x ∷ xs) = omega (arith, length-append_one (from_end xs) x, length-from_end xs)

ne_nil-length : (xs : Cells) → xs ≢ [] → 0 < length xs
ne_nil-length [] ne = absurd (ne refl)
ne_nil-length (x ∷ xs) ne = omega arith

-- A push that is limited to `height` nodes, of the new node and data at an address of malloc: it gives
-- out true, and the stack of the nodes above `height`. The heap is that of a push without a limit
-- less the nodes below, and the blocks are those of before less theirs.
abbrev pub Limited :
    Memory Node2 → Ptr → Ptr × Ptr → Cells → ℕ → List Ptr → Bool × Stack → Memory Node2 → Type 0
Limited m stop new xs height rest r g =
    (r.0 ≡ true)
    × ((t : Ptr) × IsStack g r.1 null t (new ∷ take (height - 1) xs))
    × ((b : Ptr)
        → g.cells b
          ≡ (if has b (drop (height - 1) xs) then none else pushed m.cells stop xs new.0 new.1 b))
    × ((b : Ptr) → g.blocks b ≡ (if holds b (drop (height - 1) xs) then false else m.blocks b))
    × (g.supply ≡ rest)

-- Of a stack that is not empty, a push with a positive `height` keeps the new node and the
-- `height - 1` nodes at the top. It frees the nodes below, and their data, which must be live and
-- distinct, and no other node or block. As many rounds as nodes, and one more, are enough.
pub stack_push_limit-Limited :
    (rounds height : ℕ) (m : Memory Node2) (s : Stack) (up stop p e : Ptr) (xs : Cells) (a d : Ptr)
    (rest : List Ptr)
    → IsStack m s up stop ((p, e) ∷ xs)
    → m.supply ≡ a ∷ rest
    → IsFresh m ((p, e) ∷ xs) a
    → 0 < height
    → height < 2 ^ 31
    → OwnsBlocks m.blocks (from_end (drop (height - 1) ((p, e) ∷ xs)))
    → length ((p, e) ∷ xs) < rounds
    → Returns
        (Limited m stop (a, d) ((p, e) ∷ xs) height rest)
        (stack_push_limit rounds s d height m)
unfolding stack_push_limit
stack_push_limit-Limited rounds height m s up stop p e xs a d rest v sup fr h0 h2 own fuel =
    let all : Cells = (p, e) ∷ xs in
    let ks = take (height - 1) all in
    let gs = drop (height - 1) all in
    let l = v.links in
    let top : s.top ≡ p = v.top (λ q. cc) in
    let p_ne_a : p ≢ a = λ q. ne_of_not_has a p e xs fr.unused (sym q) in
    let h1 = write m.cells a (some (node2 null d p)) in
    let m1 : Memory Node2 = record { cells = h1; blocks = m.blocks; supply = rest } in
    let e1 =
      set_prev-ok m1 p a up e (first xs stop) l.0
        (write-ne m.cells a p (some (node2 null d p)) p_ne_a ∙ l.1) in
    let m2 : Memory Node2 = record m1 { cells = write h1 p (some (node2 a e (first xs stop))) } in
    let s1 : Stack = record s { top = p } in
    let view : below ks (from_end gs) ≡ all =
      below-from_end ks gs ∙ take-append-drop (height - 1) all in
    let lk = length-take (height - 1) all in
    let lg = length-drop (height - 1) all in
    let lr = length-from_end gs in
    let lv = ap (λ t. length t) view in
    rw
      (
        malloc-cons m a rest sup,
        ne→== a null fr.ne_null,
        ne→== s.count 0 (omega (arith, v.count)),
        top,
        e1,
        ne→== height 0 (omega arith),
      )
      (Returns-bind (λ s' g. Kept m2 g p s' null (a, d) ks (from_end gs))
        (Limited m stop (a, d) all height rest) (stack_remove_bottom rounds s1 height m2) _
        (stack_remove_bottom-Kept rounds height m2 s1 null stop (a, d) ks (from_end gs)
          (subst (λ t. Links m2.cells null stop ((a, d) ∷ t)) (sym view)
            (Links-pushed m.cells up stop a d p e xs fr.ne_null fr.unused l))
          (v.bottom (λ q. cc) ∙ ap (λ t. last_ptr ((a, d) ∷ t)) (sym view)) (omega (arith, v.count))
          (omega (arith, v.small)) h2 (omega arith)
          (λ q. omega (arith, ne_nil-length (from_end gs) q)) own (omega arith))
        (λ s' g k. (
          refl,
          (
            k.links.0,
            record {
              links = k.links.1;
              top = λ _. refl;
              bottom = λ _. k.bottom;
              count = omega (arith, k.count);
              small = omega arith;
            },
          ),
          (λ b. rw (← has-from_end b gs) (k.cells b)),
          (λ b. rw (← holds-from_end b gs) (k.blocks b)),
          k.supply,
        )))
