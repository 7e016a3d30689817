-- ===== src/Queue/Tests.antt =====
-- Runs of btree/queue.c, and the theorems at a queue of two nodes.
use linux_kernel_struct.Common.{
  ℕ, ◌≡◌, refl, true, false, ◌||◌, Option, none, some, [], ◌∷◌, ◌++◌, ◌==◌, arith,
}
use linux_kernel_struct.Memory.{Ptr, null, Memory, Returns, write, load, malloc, free, ◌>>=◌, pure}
use linux_kernel_struct.Memory.Chain.{Cells}
use linux_kernel_struct.Queue.{
  Node, node, Queue, QueueCmd, que_enqueue, que_dequeue, que_destroy, set_link, que_count,
}
use linux_kernel_struct.Queue.Links.{IsQueue}
use linux_kernel_struct.Queue.Enqueue.{linked, que_enqueue-append}
use linux_kernel_struct.Queue.Dequeue.{que_dequeue-cons}
use linux_kernel_struct.Queue.Destroy.{Freed, que_destroy-Freed}

abbrev heap : Ptr → Option Node
heap = write (write (λ _. none) 1 (some (node 10 2))) 2 (some (node 20 null))

abbrev memory : Memory Node
memory = record { cells = heap; blocks = λ a. (a == 10) || (a == 20); supply = 3 ∷ [] }

abbrev queue : Queue
queue = record { front = 1; rear = 2; count = 2 }

abbrev cells : Cells
cells = (1, 10) ∷ (2, 20) ∷ []

queue-IsQueue : IsQueue memory queue cells
unfolding write
queue-IsQueue = record {
  links = (ground arith, refl, refl, (ground arith, refl, refl, tt));
  front = refl;
  rear = refl;
  count = refl;
  small = omega arith;
}

-- First in, first out.
fifo : QueueCmd (Option Ptr × Option Ptr × ℕ)
unfolding que_enqueue que_dequeue malloc set_link load free que_count
fifo = do
  (_, q) ← que_enqueue queue 30
  (a, q) ← que_dequeue q
  (b, q) ← que_dequeue q
  pure (a, b, que_count q)

fifo_runs : Returns (λ r _. r ≡ (some 10, some 20, 1)) (fifo memory)
unfolding fifo write
fifo_runs = refl

-- The third enqueue finds no memory, and says so.
out_of_memory :
    Returns
      (λ r _. r ≡ false)
      ((do (_, q) ← que_enqueue queue 30; (b, _) ← que_enqueue q 40; pure b) memory)
unfolding que_enqueue malloc set_link load write
out_of_memory = refl

que_enqueue-append_example :
    Returns
      (λ r g.
        (r.0 ≡ true)
        × IsQueue g r.1 (cells ++ (3, 30) ∷ [])
        × (g ≡ record memory { cells = linked heap cells 3 30; supply = [] }))
      (que_enqueue queue 30 memory)
que_enqueue-append_example =
    que_enqueue-append memory queue cells 3 30 [] queue-IsQueue refl
      (record { ne_null = ground arith; unused = refl }) (omega arith)

que_dequeue-cons_example :
    Returns
      (λ r g.
        (r.0 ≡ some 10)
        × IsQueue g r.1 ((2, 20) ∷ [])
        × (g ≡ record memory { cells = write heap 1 none }))
      (que_dequeue queue memory)
que_dequeue-cons_example = que_dequeue-cons memory queue 1 10 ((2, 20) ∷ []) queue-IsQueue

que_destroy-Freed_example :
    Returns (λ r g. (r ≡ none) × Freed memory cells g) (que_destroy 3 (some queue) memory)
que_destroy-Freed_example =
    que_destroy-Freed memory queue cells 3 queue-IsQueue (refl, (refl, tt)) (omega arith)
