-- ===== src/Queue/Dequeue.antt =====
-- que_dequeue, que_front, que_rear and the tests of btree/queue.c.
use linux_kernel_struct.Common.{◌≡◌, refl, none, some, [], ◌∷◌, arith, ne→==, eq→==}
use linux_kernel_struct.Memory.{Ptr, null, Memory, write, Returns, ok}
use linux_kernel_struct.Memory.Chain.{Cells, first, last}
use linux_kernel_struct.Memory.Laws.{load-ok, free-ok}
use linux_kernel_struct.Queue.{Node, node, Queue, que_dequeue, que_front, que_rear}
use linux_kernel_struct.Queue.Links.{IsQueue, Links-write, Links-last}

-- An empty queue is left alone, and nothing goes out.
pub que_dequeue-nil :
    (m : Memory Node) (q : Queue) → IsQueue m q [] → que_dequeue q m ≡ ok (none, q) m
unfolding que_dequeue
que_dequeue-nil m q v = rw (eq→== q.count 0 v.count)

-- que_dequeue gives out the data of the first node and frees that node alone.
pub que_dequeue-cons :
    (m : Memory Node) (q : Queue) (p d : Ptr) (xs : Cells)
    → IsQueue m q ((p, d) ∷ xs)
    → Returns
        (λ r g. (r.0 ≡ some d) × IsQueue g r.1 xs × (g ≡ record m { cells = write m.cells p none }))
        (que_dequeue q m)
unfolding que_dequeue
que_dequeue-cons m q p d [] v =
    let s = v.links in
    rw
      (
        ne→== q.count 0 (omega arith),
        eq→== q.count 1 v.count,
        v.front,
        load-ok m p (node d null) s.0 s.1,
        free-ok m p (node d null) s.0 s.1,
      )
      (
        refl,
        record { links = tt; front = refl; rear = refl; count = omega arith; small = omega arith },
        refl,
      )
que_dequeue-cons m q p d (y ∷ xs) v =
    let s = v.links in
    rw
      (
        ne→== q.count 0 (omega arith),
        ne→== q.count 1 (omega arith),
        v.front,
        load-ok m p (node d y.0) s.0 s.1,
        free-ok m p (node d y.0) s.0 s.1,
      )
      (
        refl,
        record {
          links = Links-write m.cells null p none (y ∷ xs) s.2 s.3;
          front = refl;
          rear = v.rear;
          count = omega arith;
          small = omega arith;
        },
        refl,
      )

-- que_front and que_rear read the ends, and change nothing.
pub que_front_lem :
    (m : Memory Node) (q : Queue) (x : Ptr × Ptr) (xs : Cells)
    → IsQueue m q (x ∷ xs)
    → (que_front q m ≡ ok (some x.1) m) × (que_rear q m ≡ ok (some (last x xs).1) m)
unfolding que_front que_rear
que_front_lem m q x xs v =
    let l = Links-last m.cells null x xs v.links in
    let s = v.links in
    (
      rw (ne→== q.count 0 (omega arith), v.front, load-ok m x.0 (node x.1 (first xs null)) s.0 s.1),
      rw (
        ne→== q.count 0 (omega arith),
        v.rear,
        load-ok m (last x xs).0 (node (last x xs).1 null) l.0 l.1,
      ),
    )

pub que_front-nil :
    (m : Memory Node) (q : Queue)
    → IsQueue m q []
    → (que_front q m ≡ ok none m) × (que_rear q m ≡ ok none m)
unfolding que_front que_rear
que_front-nil m q v = (rw (eq→== q.count 0 v.count), rw (eq→== q.count 0 v.count))
