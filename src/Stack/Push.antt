-- ===== src/Stack/Push.antt =====
-- stack_push_top of btree/stack.c.
use linux_kernel_struct.Common.{
  ◌+◌, ◌^◌, ◌<◌, ◌≡◌, refl, sym, ◌≢◌, true, false, Option, some, List, [], ◌∷◌, arith, length, ◌∙◌,
  ne→==, eq→==,
}
use linux_kernel_struct.Memory.{Ptr, null, Memory, write, ok, Returns}
use linux_kernel_struct.Memory.Laws.{load-ok, malloc-cons}
use linux_kernel_struct.Memory.Chain.{
  Cells, IsFresh, has, first, write_self, write-ne, ne_of_not_has, not_has-tail,
}
use linux_kernel_struct.Stack.{Node2, node2, Stack, set_prev, stack_push_top}
use linux_kernel_struct.Stack.Links.{IsStack, Links, Links-write}

-- The writes of a push: the new node above the old top, whose `prev` is set.
abbrev pub pushed : (Ptr → Option Node2) → Ptr → Cells → Ptr → Ptr → Ptr → Option Node2
pushed h stop [] a d = write h a (some (node2 null d stop))
pushed h stop ((p, e) ∷ xs) a d =
    write (write h a (some (node2 null d p))) p (some (node2 a e (first xs stop)))

pub set_prev-ok :
    (m : Memory Node2) (p q r d t : Ptr)
    → p ≢ null
    → m.cells p ≡ some (node2 r d t)
    → set_prev p q m ≡ ok tt (record m { cells = write m.cells p (some (node2 q d t)) })
unfolding set_prev
set_prev-ok m p q r d t ne h = rw (load-ok m p (node2 r d t) ne h)

-- Above a chain, whose first node then points up to it.
pub Links-pushed :
    (h : Ptr → Option Node2) (up stop a d p e : Ptr) (xs : Cells)
    → a ≢ null
    → has a ((p, e) ∷ xs) ≡ false
    → Links h up stop ((p, e) ∷ xs)
    → Links (pushed h stop ((p, e) ∷ xs) a d) null stop ((a, d) ∷ (p, e) ∷ xs)
Links-pushed h up stop a d p e xs ne out s =
    let a_ne_p = ne_of_not_has a p e xs out in
    let h1 = write h a (some (node2 null d p)) in
    (
      ne,
      write-ne h1 p a (some (node2 a e (first xs stop))) a_ne_p
          ∙ write_self h a (some (node2 null d p)),
      out,
      (
        s.0,
        write_self h1 p (some (node2 a e (first xs stop))),
        s.2,
        Links-write h1 p stop p (some (node2 a e (first xs stop))) xs s.2
            (Links-write h p stop a (some (node2 null d p)) xs (not_has-tail a p e xs out) s.3),
      ),
    )

-- A push adds the new node on top of the others. The outer links are those of the new node and of
-- the old bottom.
pub stack_push_top-cons :
    (m : Memory Node2) (s : Stack) (up stop : Ptr) (xs : Cells) (a d : Ptr) (rest : List Ptr)
    → IsStack m s up stop xs
    → m.supply ≡ a ∷ rest
    → IsFresh m xs a
    → length xs + 1 < 2 ^ 31
    → Returns
        (λ r g.
          (r.0 ≡ true)
          × ((t : Ptr) × IsStack g r.1 null t ((a, d) ∷ xs))
          × (g.supply ≡ rest)
          × (g.blocks ≡ m.blocks))
        (stack_push_top s d m)
unfolding stack_push_top
stack_push_top-cons m s up stop [] a d rest v sup fr small =
    rw (malloc-cons m a rest sup, ne→== a null fr.ne_null, eq→== s.count 0 v.count)
      (
        refl,
        (
          s.top,
          record {
            links = (fr.ne_null, write_self m.cells a (some (node2 null d s.top)), refl, tt);
            top = λ _. refl;
            bottom = λ _. refl;
            count = omega arith;
            small = omega arith;
          },
        ),
        refl,
        refl,
      )
stack_push_top-cons m s up stop ((p, e) ∷ xs) a d rest v sup fr small =
    let l = v.links in
    let top : s.top ≡ p = v.top (λ q. cc) in
    let p_ne_a : p ≢ a = λ q. ne_of_not_has a p e xs fr.unused (sym q) in
    let h1 = write m.cells a (some (node2 null d p)) in
    let e1 =
      set_prev-ok (record m { cells = h1; supply = rest }) p a up e (first xs stop) l.0
        (write-ne m.cells a p (some (node2 null d p)) p_ne_a ∙ l.1) in
    rw
      (
        malloc-cons m a rest sup,
        ne→== a null fr.ne_null,
        ne→== s.count 0 (omega (arith, v.count)),
        top,
        e1,
      )
      (
        refl,
        (
          stop,
          record {
            links = Links-pushed m.cells up stop a d p e xs fr.ne_null fr.unused l;
            top = λ _. refl;
            bottom = λ _. v.bottom (λ q. cc);
            count = omega arith;
            small = omega arith;
          },
        ),
        refl,
        refl,
      )
