-- ===== src/Stack/Destroy.antt =====
-- stack_destroy, stack_drop_from_top and stack_drop_from_bottom of btree/stack.c.
use linux_kernel_struct.Common.{
  ℕ, zero, suc, ◌^◌, ◌<◌, ◌≡◌, refl, ◌≢◌, false, none, some, [], ◌∷◌, ◌++◌, arith, length,
  if◌then◌else◌, Bool, true,
}
use linux_kernel_struct.Int32.{is_positive, dec}
use linux_kernel_struct.Memory.{
  Ptr, null, Memory, write, Returns, Returns-mono, Returns-bind, pure, fault,
}
use linux_kernel_struct.Memory.Chain.{Cells, has, holds, first, OwnsBlocks, length-append_one}
use linux_kernel_struct.Memory.Laws.{
  load-ok, load-null, free-ok, without_block, free_block-ok, IsBlock,
}
use linux_kernel_struct.Stack.{
  Node2, node2, Stack, drop_top_loop, drop_bottom_loop, stack_destroy, stack_drop_from_top,
  stack_drop_from_bottom,
}
use linux_kernel_struct.Stack.Links.{
  last_ptr-append_one, ne_nil-append_one, IsStack, Links, Links-write, Links-init, before,
}

-- The heap without the nodes `xs`, and the blocks without theirs.
abbrev pub Freed : Memory Node2 → Cells → Memory Node2 → Type 0
Freed m xs g =
    ((a : Ptr) → g.cells a ≡ (if has a xs then none else m.cells a))
    × ((a : Ptr) → g.blocks a ≡ (if holds a xs then false else m.blocks a))
    × (g.supply ≡ m.supply)

positive_length : (c n : ℕ) → c ≡ suc n → suc n < 2 ^ 31 → is_positive c ≡ true
positive_length c n e small = ground arith

drop_top_loop-Freed :
    (k : ℕ) (m : Memory Node2) (s : Stack) (up stop : Ptr) (xs : Cells)
    → Links m.cells up stop xs
    → (xs ≢ [] → s.top ≡ first xs stop)
    → s.count ≡ length xs
    → length xs < 2 ^ 31
    → OwnsBlocks m.blocks xs
    → length xs < k
    → Returns (λ s' g. (s'.count ≡ 0) × Freed m xs g) (drop_top_loop k s m)
unfolding drop_top_loop write
drop_top_loop-Freed zero m s up stop xs l t c small b fuel = absurd (omega arith)
drop_top_loop-Freed (suc k) m s up stop [] l t c small b fuel =
    rw c (refl, ((λ a. refl), (λ a. refl), refl))
drop_top_loop-Freed (suc k) m s up stop ((p, d) ∷ xs) l t c small b fuel =
    let n = node2 up d (first xs stop) in
    let m1 : Memory Node2 = record m { blocks = without_block m d } in
    let m2 : Memory Node2 = record m1 { cells = write m.cells p none } in
    let s2 : Stack = record s { top = first xs stop; count = dec s.count } in
    rw
      (
        positive_length s.count (length xs) c small,
        t (λ q. cc),
        load-ok m p n l.0 l.1,
        free_block-ok m d b.0,
        free-ok m1 p n l.0 l.1,
      )
      (Returns-mono (λ s' g. (s'.count ≡ 0) × Freed m2 xs g)
        (λ s' g. (s'.count ≡ 0) × Freed m ((p, d) ∷ xs) g) (drop_top_loop k s2 m2)
        (drop_top_loop-Freed k m2 s2 p stop xs (Links-write m.cells p stop p none xs l.2 l.3)
          (λ _. refl) (omega (arith, c)) (omega arith) b.1 (omega arith))
        (λ _ g f. (f.0, ((λ a. ground (arith, f.1.0 a)), (λ a. ground (arith, f.1.1 a)), f.1.2))))

-- stack_destroy frees each node and each block of a node once, and nothing else, and so does
-- stack_drop_from_top, which keeps the STACK, empty, unless `flag` is set. `rounds` above the number
-- of nodes are enough.
pub stack_destroy-Freed :
    (m : Memory Node2) (s : Stack) (up stop : Ptr) (xs : Cells) (rounds : ℕ)
    → IsStack m s up stop xs
    → OwnsBlocks m.blocks xs
    → length xs < rounds
    → Returns (λ r g. (r ≡ (0, none)) × Freed m xs g) (stack_destroy rounds (some s) m)
      × Returns (λ r g. (r ≡ (0, none)) × Freed m xs g) (stack_drop_from_top rounds (some s) true m)
      × Returns
          (λ r g.
            (r.0 ≡ 0) × ((s' : Stack) × (r.1 ≡ some s') × IsStack g s' null null []) × Freed m xs g)
          (stack_drop_from_top rounds (some s) false m)
unfolding stack_destroy stack_drop_from_top
stack_destroy-Freed m s up stop xs rounds v b fuel =
    let fits : 0 < 2 ^ 31 = omega arith in
    let freed = drop_top_loop-Freed rounds m s up stop xs v.links v.top v.count v.small b fuel in
    let P : Stack → Memory Node2 → Type 0 = λ s' g. (s'.count ≡ 0) × Freed m xs g in
    let gone =
      Returns-bind P (λ r g. (r ≡ (0, none)) × Freed m xs g) (drop_top_loop rounds s m)
        (λ s'. pure (s'.count, none)) freed (λ s' g f. (rw f.0 refl, f.1)) in
    (
      gone,
      gone,
      Returns-bind P _ (drop_top_loop rounds s m) (λ s'. pure (s'.count, some s')) freed
          (λ s' g f. (
            f.0,
            (
              s',
              refl,
              record {
                links = tt;
                top = λ ne. absurd (ne refl);
                bottom = λ ne. absurd (ne refl);
                count = f.0;
                small = fits;
              },
            ),
            f.1,
          )),
    )

-- The bottom node's `next`, which the operations that push set to NULL, is followed to the next
-- bottom: with two nodes or more stack_drop_from_bottom then reads NULL, with either `flag`.
pub stack_drop_from_bottom-fault :
    (m : Memory Node2) (s : Stack) (up p d : Ptr) (xs : Cells) (rounds : ℕ) (flag : Bool)
    → IsStack m s up null (xs ++ (p, d) ∷ [])
    → xs ≢ []
    → IsBlock m d
    → stack_drop_from_bottom (suc (suc rounds)) (some s) flag m ≡ fault
unfolding stack_drop_from_bottom drop_bottom_loop
stack_drop_from_bottom-fault m s up p d xs rounds flag v ne b =
    let (l, out, ne_p, c) = Links-init m.cells up null xs p d v.links in
    let n = node2 (before up xs) d null in
    let m1 : Memory Node2 = record m { blocks = without_block m d } in
    let m2 : Memory Node2 = record m1 { cells = write m.cells p none } in
    let size = length-append_one xs (p, d) in
    let pos : 0 < length xs = positive xs ne in
    rw
      (
        is_positive_lem s.count (omega (arith, v.count)) (omega (arith, v.small, v.count)),
        v.bottom (ne_nil-append_one xs (p, d)),
        last_ptr-append_one xs (p, d),
        load-ok m p n ne_p c,
        free_block-ok m d b,
        free-ok m1 p n ne_p c,
        is_positive_lem (dec s.count) (omega (arith, v.count, v.small))
            (omega (arith, v.small, v.count)),
        load-null m2,
      )
      refl
  where
    positive : (ys : Cells) → ys ≢ [] → 0 < length ys
    positive [] q = absurd (q refl)
    positive (y ∷ ys) q = omega arith

    is_positive_lem : (k : ℕ) → 0 < k → k < 2 ^ 31 → is_positive k ≡ true
    is_positive_lem k h0 h1 = ground arith
