-- ===== src/Memory.antt =====
-- The memory that the C code of btree/ works on, and commands that may fault.
-- Nodes of one struct type live at addresses; `void* data` points to blocks that are only freed.
-- `supply` is what the next calls of malloc return, in order: a null address, or no more addresses,
-- is a malloc that fails.
pub mod Chain
pub mod Laws
use linux_kernel_struct.Common.{
  refl, ◌≡◌, ℕ, Bool, false, Option, none, some, List, [], ◌∷◌, ◌==◌, if◌then◌else◌,
}

abbrev pub Ptr : Type 0
Ptr = ℕ

abbrev pub null : Ptr
null = 0

-- How a run ends: with a value and a memory, by an invalid access or free, by exit(EXIT_FAILURE),
-- or not within the rounds that a loop was given.
pub data Run (S A : Type 0) : Type 0 where
  ok : A → S → Run S A
  fault : Run S A
  exited : Run S A
  out_of_fuel : Run S A

abbrev pub Cmd : Type 0 → Type 0 → Type 0
Cmd S A = S → Run S A

abbrev pub pure : {S A : Type 0} → A → Cmd S A
pure = ok

module _ {S A B : Type 0} where
  abbrev pub and_then : Run S A → (A → Cmd S B) → Run S B
  and_then (ok a s) k = k a s
  and_then fault k = fault
  and_then exited k = exited
  and_then out_of_fuel k = out_of_fuel

  infixl 5 ◌>>=◌ ◌>>◌
  abbrev pub ◌>>=◌ : Cmd S A → (A → Cmd S B) → Cmd S B
  m >>= k = λ s. and_then (m s) k

  abbrev pub ◌>>◌ : Cmd S A → Cmd S B → Cmd S B
  m >> n = m >>= λ _. n

-- A run that ends well, with a postcondition: no fault, no exit, enough fuel.
abbrev pub Returns : {S A : Type 0} → (A → S → Type 0) → Run S A → Type 0
Returns P (ok a s) = P a s
Returns P fault = ⊥
Returns P exited = ⊥
Returns P out_of_fuel = ⊥

pub Returns-bind :
    {S A B : Type 0} (P : A → S → Type 0) (Q : B → S → Type 0) (r : Run S A) (k : A → Cmd S B)
    → Returns P r
    → ((a : A) (s : S) → P a s → Returns Q (k a s))
    → Returns Q (and_then r k)
Returns-bind P Q (ok a s) k p next = next a s p
Returns-bind P Q fault k p next = absurd p
Returns-bind P Q exited k p next = absurd p
Returns-bind P Q out_of_fuel k p next = absurd p

pub Returns-mono :
    {S A : Type 0} (P Q : A → S → Type 0) (r : Run S A)
    → Returns P r
    → ((a : A) (s : S) → P a s → Q a s)
    → Returns Q r
Returns-mono P Q (ok a s) p weaken = weaken a s p
Returns-mono P Q fault p weaken = absurd p
Returns-mono P Q exited p weaken = absurd p
Returns-mono P Q out_of_fuel p weaken = absurd p

-- A run that ends well has a value.
pub Returns-value :
    {S A : Type 0} (P : A → S → Type 0) (r : Run S A)
    → Returns P r
    → (a : A) × (s : S) × (r ≡ ok a s) × P a s
Returns-value P (ok a s) p = (a, s, refl, p)
Returns-value P fault p = absurd p
Returns-value P exited p = absurd p
Returns-value P out_of_fuel p = absurd p

pub record Memory (N : Type 0) : Type 0 where
  pub cells : Ptr → Option N
  pub blocks : Ptr → Bool
  pub supply : List Ptr

module _ {N : Type 0} where
  unfoldable pub write : (Ptr → Option N) → Ptr → Option N → Ptr → Option N
  write h p c a = if a == p then c else h a

  abbrev pub store : Ptr → Option N → Cmd (Memory N) (Unit {0})
  store p c m = ok tt (record m { cells = write m.cells p c })

  -- `*p`: a fault at NULL and at an address that holds no node.
  unfoldable pub load : Ptr → Cmd (Memory N) N
  load p m = if p == null then fault else elim (m.cells p) [ none ↦ fault | some n ↦ ok n m ]

  -- The address that malloc returns; NULL where it fails.
  unfoldable pub malloc : Cmd (Memory N) Ptr
  malloc m = elim m.supply [ [] ↦ ok null m | a ∷ rest ↦ ok a (record m { supply = rest }) ]

  -- free(p) of a node: nothing at NULL, a fault where no node is.
  unfoldable pub free : Ptr → Cmd (Memory N) (Unit {0})
  free p = if p == null then pure tt else (load p >> store p none)

  -- free(p) of what a `void*` points to.
  unfoldable pub free_block : Ptr → Cmd (Memory N) (Unit {0})
  free_block p m =
      if p == null
      then ok tt m
      else if m.blocks p
      then ok tt (record m { blocks = λ a. if a == p then false else m.blocks a })
      else fault
