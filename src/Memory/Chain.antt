-- ===== src/Memory/Chain.antt =====
-- What a linked structure of btree/ stands for: its nodes in order, each with the address of the
-- node and the `void* data` that it holds.
use linux_kernel_struct.Common.{
  if◌then◌else◌, not, ◌&&◌, ◌+◌, ◌≡◌, refl, ap, ◌≢◌, Bool, true, false, Option, ◌||◌, List, [], ◌∷◌,
  ◌++◌, map, ◌==◌, arith, length,
}
use linux_kernel_struct.Memory.{Ptr, null, Memory, write}

abbrev pub Cells : Type 0
Cells = List (Ptr × Ptr)

abbrev pub has : Ptr → Cells → Bool
has a [] = false
has a ((p, d) ∷ xs) = (a == p) || has a xs

-- The address of the first node, `stop` if there is none.
abbrev pub first : Cells → Ptr → Ptr
first [] stop = stop
first ((p, d) ∷ xs) stop = p

-- The address and the data of the last node, from `(p, d)` on.
abbrev pub last : Ptr × Ptr → Cells → Ptr × Ptr
last x [] = x
last x (y ∷ xs) = last y xs

abbrev pub last_ptr : Cells → Ptr
last_ptr [] = null
last_ptr (x ∷ xs) = (last x xs).0

abbrev pub items : Cells → List Ptr
items = map (λ x. x.1)

-- The address `a` may be returned by malloc beside the nodes `xs`.
pub record IsFresh {N : Type 0} (m : Memory N) (xs : Cells) (a : Ptr) : Type 0 where
  pub ne_null : a ≢ null
  pub unused : has a xs ≡ false

pub has-append : (a : Ptr) (xs ys : Cells) → has a (xs ++ ys) ≡ (has a xs || has a ys)
has-append a [] ys = refl
has-append a (x ∷ xs) ys = ground (arith, has-append a xs ys)

pub has-last : (x : Ptr × Ptr) (xs : Cells) → has (last x xs).0 (x ∷ xs) ≡ true
has-last x [] = ground arith
has-last x (y ∷ xs) = ground (arith, has-last y xs)

pub last-append : (x y : Ptr × Ptr) (xs : Cells) → last x (xs ++ y ∷ []) ≡ y
last-append x y [] = refl
last-append x y (z ∷ xs) = last-append z y xs

pub length-append_one : (xs : Cells) (y : Ptr × Ptr) → length (xs ++ y ∷ []) ≡ length xs + 1
length-append_one [] y = omega arith
length-append_one (x ∷ xs) y = omega (arith, length-append_one xs y)

pub write_self : {N : Type 0} (h : Ptr → Option N) (p : Ptr) (c : Option N) → write h p c p ≡ c
unfolding write
write_self h p c = ground arith

pub write-ne :
    {N : Type 0} (h : Ptr → Option N) (p a : Ptr) (c : Option N) → a ≢ p → write h p c a ≡ h a
unfolding write
write-ne h p a c ne = ground arith

-- An address inside a chain is none outside it.
pub ne_of_has : (a b : Ptr) (xs : Cells) → has a xs ≡ false → has b xs ≡ true → a ≢ b
ne_of_has a b xs out inside e = cc (ap (λ z. has z xs) e)

pub ne_of_not_has : (a p d : Ptr) (xs : Cells) → has a ((p, d) ∷ xs) ≡ false → a ≢ p
ne_of_not_has a p d xs out = ground arith

pub not_has-tail : (a p d : Ptr) (xs : Cells) → has a ((p, d) ∷ xs) ≡ false → has a xs ≡ false
not_has-tail a p d xs out = ground arith

pub not_has-append_one :
    (a p d : Ptr) (xs : Cells) → has a xs ≡ false → a ≢ p → has a (xs ++ (p, d) ∷ []) ≡ false
not_has-append_one a p d xs out ne = ground (arith, has-append a xs ((p, d) ∷ []))

-- Every node holds NULL or a live block of its own.
abbrev pub OwnsBlocks : (Ptr → Bool) → Cells → Type 0
OwnsBlocks b [] = Unit {0}
OwnsBlocks b ((p, d) ∷ xs) =
    ((if d == null then true else b d) ≡ true)
    × OwnsBlocks (λ a. if d == null then b a else if a == d then false else b a) xs

-- `a` is a block that one of the nodes holds.
abbrev pub holds : Ptr → Cells → Bool
holds a [] = false
holds a ((p, d) ∷ xs) = ((a == d) && not (d == null)) || holds a xs

pub last_ptr-cons : (x : Ptr × Ptr) (xs : Cells) → xs ≢ [] → last_ptr (x ∷ xs) ≡ last_ptr xs
last_ptr-cons x [] ne = absurd (ne refl)
last_ptr-cons x (y ∷ xs) ne = refl
