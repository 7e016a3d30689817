-- ===== src/Queue/Links.antt =====
-- The representation invariant of QUEUE, and how writes act on a chain of links.
use linux_kernel_struct.Common.{
  ◌^◌, ◌<◌, ◌≡◌, refl, sym, ◌≢◌, false, Option, some, [], ◌∷◌, ◌++◌, arith, length,
}
use linux_kernel_struct.Memory.{Ptr, null, Memory, write}
use linux_kernel_struct.Memory.Chain.{
  Cells, has, first, last, last_ptr, has-last, write-ne, ne_of_has, ne_of_not_has, not_has-tail,
  not_has-append_one,
}
use linux_kernel_struct.Queue.{Node, node, Queue}

-- From `first xs stop` the links lead through the distinct nodes `xs` to `stop`.
abbrev pub Links : (Ptr → Option Node) → Ptr → Cells → Type 0
Links h stop [] = Unit {0}
Links h stop ((p, d) ∷ xs) =
    (p ≢ null) × (h p ≡ some (node d (first xs stop))) × (has p xs ≡ false) × Links h stop xs

pub record IsQueue (m : Memory Node) (q : Queue) (xs : Cells) : Type 0 where
  pub links : Links m.cells null xs
  pub front : q.front ≡ first xs null
  pub rear : q.rear ≡ last_ptr xs
  pub count : q.count ≡ length xs
  pub small : length xs < 2 ^ 31

-- A chain survives a write outside it.
pub Links-write :
    (h : Ptr → Option Node) (stop a : Ptr) (c : Option Node) (xs : Cells)
    → has a xs ≡ false
    → Links h stop xs
    → Links (write h a c) stop xs
unfolding write
Links-write h stop a c [] out s = tt
Links-write h stop a c ((p, d) ∷ xs) out s =
    (s.0, ground arith, s.2, Links-write h stop a c xs (ground arith) s.3)

-- The cell of the last node.
pub Links-last :
    (h : Ptr → Option Node) (stop : Ptr) (x : Ptr × Ptr) (xs : Cells)
    → Links h stop (x ∷ xs)
    → ((last x xs).0 ≢ null) × (h (last x xs).0 ≡ some (node (last x xs).1 stop))
Links-last h stop (p, d) [] s = (s.0, s.1)
Links-last h stop (p, d) (y ∷ xs) s = Links-last h stop y xs s.3

-- Linking the last node to a new one makes the chain longer by it.
pub Links-extend :
    (h : Ptr → Option Node) (a d : Ptr) (x : Ptr × Ptr) (xs : Cells)
    → a ≢ null
    → has a (x ∷ xs) ≡ false
    → h a ≡ some (node d null)
    → Links h null (x ∷ xs)
    → Links (write h (last x xs).0 (some (node (last x xs).1 a))) null (x ∷ (xs ++ (a, d) ∷ []))
unfolding write
Links-extend h a d (p, e) [] ne out ha s =
    (s.0, ground arith, ground arith, (ne, ground arith, refl, tt))
Links-extend h a d (p, e) (y ∷ xs) ne out ha s =
    let a_ne_p : a ≢ p = ne_of_not_has a p e (y ∷ xs) out in
    let p_ne_last : p ≢ (last y xs).0 = ne_of_has p (last y xs).0 (y ∷ xs) s.2 (has-last y xs) in
    (
      s.0,
      rw (write-ne h (last y xs).0 p (some (node (last y xs).1 a)) p_ne_last) s.1,
      not_has-append_one p a d (y ∷ xs) s.2 (λ eq. a_ne_p (sym eq)),
      Links-extend h a d y xs ne (not_has-tail a p e (y ∷ xs) out) ha s.3,
    )
