-- ===== src/Queue/Destroy.antt =====
-- que_destroy of btree/queue.c.
use linux_kernel_struct.Common.{
  ℕ, zero, suc, ◌<◌, ◌≡◌, refl, false, none, some, [], ◌∷◌, if◌then◌else◌, arith, length, ne→==,
}
use linux_kernel_struct.Memory.{Ptr, null, Memory, Returns-mono, Returns-bind, write, Returns, ok}
use linux_kernel_struct.Memory.Chain.{OwnsBlocks, holds, Cells, has, first}
use linux_kernel_struct.Memory.Laws.{load-ok, free-ok, without_block, free_block-ok}
use linux_kernel_struct.Queue.{Node, node, Queue, destroy_loop, que_destroy}
use linux_kernel_struct.Queue.Links.{IsQueue, Links, Links-write}

-- The heap without the nodes `xs`, and the blocks without theirs.
abbrev pub Freed : Memory Node → Cells → Memory Node → Type 0
Freed m xs g =
    ((a : Ptr) → g.cells a ≡ (if has a xs then none else m.cells a))
    × ((a : Ptr) → g.blocks a ≡ (if holds a xs then false else m.blocks a))
    × (g.supply ≡ m.supply)

destroy_loop-Freed :
    (k : ℕ) (m : Memory Node) (xs : Cells)
    → Links m.cells null xs
    → OwnsBlocks m.blocks xs
    → length xs < k
    → Returns (λ _ g. Freed m xs g) (destroy_loop k (first xs null) m)
unfolding destroy_loop write
destroy_loop-Freed zero m xs s b fuel = absurd (omega arith)
destroy_loop-Freed (suc k) m [] s b fuel = ((λ a. refl), (λ a. refl), refl)
destroy_loop-Freed (suc k) m ((p, d) ∷ xs) s b fuel =
    let n = node d (first xs null) in
    let m' : Memory Node = record {
      cells = write m.cells p none;
      blocks = without_block m d;
      supply = m.supply;
    } in
    rw
      (
        ne→== p null s.0,
        load-ok m p n s.0 s.1,
        free_block-ok m d b.0,
        free-ok (record m { blocks = without_block m d }) p n s.0 s.1,
      )
      (Returns-mono (λ _ g. Freed m' xs g) (λ _ g. Freed m ((p, d) ∷ xs) g)
        (destroy_loop k (first xs null) m')
        (destroy_loop-Freed k m' xs (Links-write m.cells null p none xs s.2 s.3) b.1 (omega arith))
        (λ _ g f. ((λ a. ground (arith, f.0 a)), (λ a. ground (arith, f.1 a)), f.2)))

-- que_destroy frees each node and each block of a node once, and nothing else: no leak, no double
-- free. `rounds` above the number of nodes are enough.
pub que_destroy-Freed :
    (m : Memory Node) (q : Queue) (xs : Cells) (rounds : ℕ)
    → IsQueue m q xs
    → OwnsBlocks m.blocks xs
    → length xs < rounds
    → Returns (λ r g. (r ≡ none) × Freed m xs g) (que_destroy rounds (some q) m)
unfolding que_destroy
que_destroy-Freed m q xs rounds v b fuel = rw v.front (
    Returns-bind (λ _ g. Freed m xs g) (λ r g. (r ≡ none) × Freed m xs g)
      (destroy_loop rounds (first xs null) m) (λ _ g. ok none g)
      (destroy_loop-Freed rounds m xs v.links b fuel) (λ _ g f. (refl, f)))
