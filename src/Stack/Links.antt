-- ===== src/Stack/Links.antt =====
-- The representation invariant of STACK. The links between neighbours agree; the outer link of each
-- end is not used, since the operations go by the count.
use linux_kernel_struct.Common.{
  ◌^◌, ◌<◌, ◌≡◌, refl, sym, ◌≢◌, false, Option, some, [], ◌∷◌, ◌++◌, arith, length, ap, ◌∙◌,
}
use linux_kernel_struct.Memory.{Ptr, null, Memory, write}
use linux_kernel_struct.Memory.Chain.{
  last-append, Cells, has, first, last_ptr, has-append, ne_of_not_has, not_has-tail,
  not_has-append_one,
}
use linux_kernel_struct.Stack.{Node2, node2, Stack}

-- From the top down: `up` is the `prev` of the first node, `stop` the `next` of the last one.
abbrev pub Links : (Ptr → Option Node2) → Ptr → Ptr → Cells → Type 0
Links h up stop [] = Unit {0}
Links h up stop ((p, d) ∷ xs) =
    (p ≢ null) × (h p ≡ some (node2 up d (first xs stop))) × (has p xs ≡ false) × Links h p stop xs

-- The stack holds the nodes `xs`, top first. An empty one may have any ends.
pub record IsStack (m : Memory Node2) (s : Stack) (up stop : Ptr) (xs : Cells) : Type 0 where
  pub links : Links m.cells up stop xs
  pub top : xs ≢ [] → s.top ≡ first xs stop
  pub bottom : xs ≢ [] → s.bottom ≡ last_ptr xs
  pub count : s.count ≡ length xs
  pub small : length xs < 2 ^ 31

-- Links survive a write outside them.
pub Links-write :
    (h : Ptr → Option Node2) (up stop a : Ptr) (c : Option Node2) (xs : Cells)
    → has a xs ≡ false
    → Links h up stop xs
    → Links (write h a c) up stop xs
unfolding write
Links-write h up stop a c [] out s = tt
Links-write h up stop a c ((p, d) ∷ xs) out s =
    (s.0, ground arith, s.2, Links-write h p stop a c xs (ground arith) s.3)

-- The address of the node above: of the last of `xs`, or `up` if there is none.
abbrev pub before : Ptr → Cells → Ptr
before up [] = up
before up ((a, e) ∷ xs) = before a xs

pub before-last_ptr :
    (up : Ptr) (x : Ptr × Ptr) (xs : Cells) → before up (x ∷ xs) ≡ last_ptr (x ∷ xs)
before-last_ptr up x [] = refl
before-last_ptr up x (y ∷ xs) = before-last_ptr x.0 y xs

first-append_one : (xs : Cells) (p d stop : Ptr) → first (xs ++ (p, d) ∷ []) stop ≡ first xs p
first-append_one [] p d stop = refl
first-append_one (x ∷ xs) p d stop = refl

-- The links of the nodes but the last, whose address is their new `stop`, and the last node.
pub Links-init :
    (h : Ptr → Option Node2) (up stop : Ptr) (xs : Cells) (p d : Ptr)
    → Links h up stop (xs ++ (p, d) ∷ [])
    → Links h up p xs × (has p xs ≡ false) × (p ≢ null) × (h p ≡ some (node2 (before up xs) d stop))
Links-init h up stop [] p d s = (tt, refl, s.0, s.1)
Links-init h up stop ((a, e) ∷ xs) p d s =
    let (l, out, ne, c) = Links-init h a stop xs p d s.3 in
    let apart : (has a xs ≡ false) × (a ≢ p) = ground (arith, s.2, has-append a xs ((p, d) ∷ [])) in
    (
      (s.0, s.1 ∙ ap (λ t. some (node2 up e t)) (first-append_one xs p d stop), apart.0, l),
      ground (arith, out, apart.1),
      ne,
      c,
    )

-- One more node at the end.
pub Links-snoc :
    (h : Ptr → Option Node2) (up stop : Ptr) (xs : Cells) (p d : Ptr)
    → Links h up p xs
    → has p xs ≡ false
    → p ≢ null
    → h p ≡ some (node2 (before up xs) d stop)
    → Links h up stop (xs ++ (p, d) ∷ [])
Links-snoc h up stop [] p d l out ne c = (ne, c, refl, tt)
Links-snoc h up stop ((a, e) ∷ xs) p d l out ne c = (
  l.0,
  l.1 ∙ ap (λ t. some (node2 up e t)) (sym (first-append_one xs p d stop)),
  not_has-append_one a p d xs l.2 (λ q. ne_of_not_has p a e xs out (sym q)),
  Links-snoc h a stop xs p d l.3 (not_has-tail p a e xs out) ne c,
)

pub ne_nil-append_one : (xs : Cells) (x : Ptr × Ptr) → xs ++ x ∷ [] ≢ []
ne_nil-append_one [] x q = cc
ne_nil-append_one (y ∷ xs) x q = cc

pub last_ptr-append_one : (xs : Cells) (x : Ptr × Ptr) → last_ptr (xs ++ x ∷ []) ≡ x.0
last_ptr-append_one [] x = refl
last_ptr-append_one (y ∷ xs) x = ap (λ t. t.0) (last-append y x xs)
