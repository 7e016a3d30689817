-- ===== src/Queue/Enqueue.antt =====
-- que_enqueue of btree/queue.c.
use linux_kernel_struct.Common.{
  ◌+◌, ◌^◌, ◌<◌, ◌≡◌, refl, ap, sym, ◌≢◌, true, Option, some, List, [], ◌∷◌, ◌++◌, arith, length,
  ne→==, eq→==,
}
use linux_kernel_struct.Memory.{Ptr, null, Memory, write, Returns, ok}
use linux_kernel_struct.Memory.Chain.{
  Cells, IsFresh, last, write_self, last-append, length-append_one,
}
use linux_kernel_struct.Memory.Laws.{load-ok, malloc-cons}
use linux_kernel_struct.Queue.{Node, node, Queue, set_link, que_enqueue}
use linux_kernel_struct.Queue.Links.{IsQueue, Links, Links-write, Links-extend, Links-last}

-- The writes of que_enqueue to the heap `h`, with the new node at `a`.
abbrev pub linked : (Ptr → Option Node) → Cells → Ptr → Ptr → Ptr → Option Node
linked h [] a d = write h a (some (node d null))
linked h (x ∷ xs) a d =
    write (write h a (some (node d null))) (last x xs).0 (some (node (last x xs).1 a))

set_link-ok :
    (m : Memory Node) (p q d r : Ptr)
    → p ≢ null
    → m.cells p ≡ some (node d r)
    → set_link p q m ≡ ok tt (record m { cells = write m.cells p (some (node d q)) })
unfolding set_link
set_link-ok m p q d r ne h = rw (load-ok m p (node d r) ne h)

-- que_enqueue puts the new node behind the others, and takes one address of malloc.
pub que_enqueue-append :
    (m : Memory Node) (q : Queue) (xs : Cells) (a d : Ptr) (rest : List Ptr)
    → IsQueue m q xs
    → m.supply ≡ a ∷ rest
    → IsFresh m xs a
    → length xs + 1 < 2 ^ 31
    → Returns
        (λ r g.
          (r.0 ≡ true)
          × IsQueue g r.1 (xs ++ (a, d) ∷ [])
          × (g ≡ record m { cells = linked m.cells xs a d; supply = rest }))
        (que_enqueue q d m)
unfolding que_enqueue
que_enqueue-append m q [] a d rest v sup fr room =
    rw (malloc-cons m a rest sup, ne→== a null fr.ne_null, eq→== q.count 0 v.count)
      (
        refl,
        record {
          links = (fr.ne_null, write_self m.cells a (some (node d null)), refl, tt);
          front = refl;
          rear = refl;
          count = omega arith;
          small = omega arith;
        },
        refl,
      )
que_enqueue-append m q (x ∷ xs) a d rest v sup fr room =
    let h = write m.cells a (some (node d null)) in
    let s : Links h null (x ∷ xs) =
      Links-write m.cells null a (some (node d null)) (x ∷ xs) fr.unused v.links in
    let l = Links-last h null x xs s in
    let e =
      set_link-ok (record m { cells = h; supply = rest }) (last x xs).0 a (last x xs).1 null l.0
        l.1 in
    rw (malloc-cons m a rest sup, ne→== a null fr.ne_null, ne→== q.count 0 (omega arith), v.rear, e)
      (
        refl,
        record {
          links =
              Links-extend h a d x xs fr.ne_null fr.unused
                (write_self m.cells a (some (node d null))) s;
          front = v.front;
          rear = sym (ap (λ y. y.0) (last-append x (a, d) xs));
          count = omega (arith, length-append_one (x ∷ xs) (a, d));
          small = omega (arith, length-append_one (x ∷ xs) (a, d));
        },
        refl,
      )
