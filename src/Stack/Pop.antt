-- ===== src/Stack/Pop.antt =====
-- stack_pop_top and stack_pop_bottom of btree/stack.c.
use linux_kernel_struct.Common.{
  suc, if◌then◌else◌, Bool, ℕ, ◌^◌, ◌<◌, ◌≡◌, refl, ◌≢◌, true, false, none, some, [], ◌∷◌, ◌++◌,
  arith, length, ◌∙◌, ne→==,
}
use linux_kernel_struct.Memory.{◌>>=◌, fault, Ptr, null, Memory, write, ok, Returns}
use linux_kernel_struct.Memory.Laws.{
  free_block-ok, without_block, load-none, IsBlock, load-ok, free-ok,
}
use linux_kernel_struct.Memory.Chain.{
  Cells, last_ptr-cons, first, last_ptr, write_self, length-append_one,
}
use linux_kernel_struct.Stack.{Node2, node2, Stack, stack_pop_top, stack_pop_bottom}
use linux_kernel_struct.Int32.{dec}
use linux_kernel_struct.Stack.Links.{
  last_ptr-append_one, ne_nil-append_one, before-last_ptr, IsStack, Links-write, Links-init, before,
}

first-append :
    (xs : Cells) (x : Ptr × Ptr) (stop p : Ptr) → xs ≢ [] → first (xs ++ x ∷ []) stop ≡ first xs p
first-append [] x stop p q = absurd (q refl)
first-append (y ∷ xs) x stop p q = refl

-- What a pop of the node at `p` with the data `d` does to the memory: the node is freed, and with
-- `flag` its data.
abbrev pub popped : Memory Node2 → Bool → Ptr → Ptr → Memory Node2
popped m flag p d = record m {
  cells = write m.cells p none;
  blocks = if flag then without_block m d else m.blocks;
}

-- What it gives out.
abbrev pub given : Bool → Ptr → Ptr
given flag d = if flag then null else d

-- With `flag` the data must be NULL or a live block.
abbrev pub MayFree : Memory Node2 → Bool → Ptr → Type 0
MayFree m flag d = flag ≡ true → IsBlock m d

dec_length : (c n : ℕ) → c ≡ suc n → suc n < 2 ^ 31 → dec c ≡ n
dec_length c n e small = omega arith

pub stack_pop_top-ok :
    (m : Memory Node2) (s : Stack) (p d r t : Ptr) (n : ℕ) (flag : Bool)
    → p ≢ null
    → m.cells p ≡ some (node2 r d t)
    → s.top ≡ p
    → s.count ≡ suc n
    → suc n < 2 ^ 31
    → MayFree m flag d
    → stack_pop_top s flag m
      ≡ ok (given flag d, record { top = t; bottom = s.bottom; count = n }) (popped m flag p d)
unfolding stack_pop_top
stack_pop_top-ok m s p d r t n true ne c at_top count small block =
    let node = node2 r d t in
    let m1 : Memory Node2 = record m { blocks = without_block m d } in
    rw
      (
        at_top,
        ne→== p null ne,
        load-ok m p node ne c,
        free_block-ok m d (block refl),
        free-ok m1 p node ne c,
        dec_length s.count n count small,
      )
      refl
stack_pop_top-ok m s p d r t n false ne c at_top count small block =
    let node = node2 r d t in
    rw
      (
        at_top,
        ne→== p null ne,
        load-ok m p node ne c,
        free-ok m p node ne c,
        dec_length s.count n count small,
      )
      refl

pub stack_pop_bottom-ok :
    (m : Memory Node2) (s : Stack) (p d r t : Ptr) (n : ℕ) (flag : Bool)
    → p ≢ null
    → m.cells p ≡ some (node2 r d t)
    → s.bottom ≡ p
    → s.count ≡ suc n
    → suc n < 2 ^ 31
    → MayFree m flag d
    → stack_pop_bottom s flag m
      ≡ ok (given flag d, record { top = s.top; bottom = r; count = n }) (popped m flag p d)
unfolding stack_pop_bottom
stack_pop_bottom-ok m s p d r t n true ne c at_bottom count small block =
    let node = node2 r d t in
    let m1 : Memory Node2 = record m { blocks = without_block m d } in
    rw
      (
        at_bottom,
        ne→== p null ne,
        load-ok m p node ne c,
        free_block-ok m d (block refl),
        free-ok m1 p node ne c,
        dec_length s.count n count small,
      )
      refl
stack_pop_bottom-ok m s p d r t n false ne c at_bottom count small block =
    let node = node2 r d t in
    rw
      (
        at_bottom,
        ne→== p null ne,
        load-ok m p node ne c,
        free-ok m p node ne c,
        dec_length s.count n count small,
      )
      refl

-- A pop of the top frees that node alone and leaves the others. Without `flag` it gives out the
-- data; with `flag`, where the data must be NULL or a live block, it frees the data too and gives
-- out NULL. `bottom` stays as it was, also where the freed node was the only one.
pub stack_pop_top-cons :
    (m : Memory Node2) (s : Stack) (up stop p d : Ptr) (xs : Cells) (flag : Bool)
    → IsStack m s up stop ((p, d) ∷ xs)
    → MayFree m flag d
    → Returns
        (λ r g.
          (r ≡ (given flag d, record { top = first xs stop; bottom = s.bottom; count = length xs }))
          × IsStack g r.1 p stop xs
          × (g ≡ popped m flag p d))
        (stack_pop_top s flag m)
stack_pop_top-cons m s up stop p d xs flag v block =
    let l = v.links in
    rw
      (stack_pop_top-ok m s p d up (first xs stop) (length xs) flag l.0 l.1 (v.top (λ q. cc))
        v.count v.small block)
      (
        refl,
        record {
          links = Links-write m.cells p stop p none xs l.2 l.3;
          top = λ _. refl;
          bottom = λ ne. v.bottom (λ q. cc) ∙ last_ptr-cons (p, d) xs ne;
          count = refl;
          small = omega (arith, v.small);
        },
        refl,
      )

-- A pop of the bottom of two nodes or more frees that node alone and leaves the others, whose ends
-- are then the ends of the stack. Without `flag` it gives out the data; with `flag`, where the data
-- must be NULL or a live block, it frees the data too and gives out NULL.
pub stack_pop_bottom-append :
    (m : Memory Node2) (s : Stack) (up stop p d : Ptr) (xs : Cells) (flag : Bool)
    → IsStack m s up stop (xs ++ (p, d) ∷ [])
    → xs ≢ []
    → MayFree m flag d
    → Returns
        (λ r g.
          (r ≡ (given flag d, record { top = s.top; bottom = last_ptr xs; count = length xs }))
          × IsStack g r.1 up p xs
          × (g ≡ popped m flag p d))
        (stack_pop_bottom s flag m)
stack_pop_bottom-append m s up stop p d xs flag v more block =
    let (l, out, ne, c) = Links-init m.cells up stop xs p d v.links in
    let at_bottom = v.bottom (ne_nil-append_one xs (p, d)) ∙ last_ptr-append_one xs (p, d) in
    let size = length-append_one xs (p, d) in
    rw
      (
        stack_pop_bottom-ok m s p d (before up xs) stop (length xs) flag ne c at_bottom
            (omega (arith, v.count)) (omega (arith, v.small)) block,
        before-last xs more,
      )
      (
        refl,
        record {
          links = Links-write m.cells up p p none xs out l;
          top = λ q. v.top (ne_nil-append_one xs (p, d)) ∙ first-append xs (p, d) stop p q;
          bottom = λ _. refl;
          count = refl;
          small = omega (arith, v.small);
        },
        refl,
      )
  where
    before-last : (ys : Cells) → ys ≢ [] → before up ys ≡ last_ptr ys
    before-last [] q = absurd (q refl)
    before-last (y ∷ ys) q = before-last_ptr up y ys

pub stack_pop_top-fault :
    (m : Memory Node2) (s : Stack) (p : Ptr) (flag : Bool)
    → p ≢ null
    → s.top ≡ p
    → stack_pop_top s flag (record m { cells = write m.cells p none }) ≡ fault
unfolding stack_pop_top
stack_pop_top-fault m s p flag ne at_top =
    rw
      (
        at_top,
        ne→== p null ne,
        load-none (record m { cells = write m.cells p none }) p (write_self m.cells p none),
      )
      refl

pub stack_pop_bottom-fault :
    (m : Memory Node2) (s : Stack) (p : Ptr) (flag : Bool)
    → p ≢ null
    → s.bottom ≡ p
    → stack_pop_bottom s flag (record m { cells = write m.cells p none }) ≡ fault
unfolding stack_pop_bottom
stack_pop_bottom-fault m s p flag ne at_bottom =
    rw
      (
        at_bottom,
        ne→== p null ne,
        load-none (record m { cells = write m.cells p none }) p (write_self m.cells p none),
      )
      refl

-- A pop of the only node leaves the other end of the stack at the freed node: a pop of the top after
-- a pop of the bottom reads freed memory, and so does a pop of the bottom after one of the top,
-- whatever the flags. With the first flag the data must be NULL or a live block.
pub stack_pop-emptied :
    (m : Memory Node2) (s : Stack) (up stop p d : Ptr) (flag flag' : Bool)
    → IsStack m s up stop ((p, d) ∷ [])
    → MayFree m flag d
    → ((do (_, s') ← stack_pop_bottom s flag; stack_pop_top s' flag') m ≡ fault)
      × ((do (_, s') ← stack_pop_top s flag; stack_pop_bottom s' flag') m ≡ fault)
stack_pop-emptied m s up stop p d flag flag' v block =
    let l = v.links in
    let at_top : s.top ≡ p = v.top (λ q. cc) in
    let at_bottom : s.bottom ≡ p = v.bottom (λ q. cc) in
    let g : Memory Node2 = record m { blocks = if flag then without_block m d else m.blocks } in
    (
      rw (stack_pop_bottom-ok m s p d up stop 0 flag l.0 l.1 at_bottom v.count v.small block)
          (stack_pop_top-fault g _ p flag' l.0 at_top),
      rw (stack_pop_top-ok m s p d up stop 0 flag l.0 l.1 at_top v.count v.small block)
          (stack_pop_bottom-fault g _ p flag' l.0 at_bottom),
    )
