-- ===== src/Memory/Laws.antt =====
-- How the commands of the memory act where they do not fault.
use linux_kernel_struct.Common.{
  ◌≡◌, refl, ◌≢◌, Bool, true, false, none, some, List, [], ◌∷◌, ◌==◌, if◌then◌else◌, arith, ne→==,
}
use linux_kernel_struct.Memory.{Ptr, null, Memory, ok, fault, write, load, malloc, free, free_block}

module _ {N : Type 0} (m : Memory N) where
  pub load-ok : (p : Ptr) (n : N) → p ≢ null → m.cells p ≡ some n → load p m ≡ ok n m
  unfolding load
  load-ok p n ne h = rw (ne→== p null ne, h)

  pub load-null : load null m ≡ fault
  unfolding load
  load-null = refl

  pub load-none : (p : Ptr) → m.cells p ≡ none → load p m ≡ fault
  unfolding load
  load-none p h = ground arith

  pub malloc-cons :
      (a : Ptr) (rest : List Ptr)
      → m.supply ≡ a ∷ rest
      → malloc m ≡ ok a (record m { supply = rest })
  unfolding malloc
  malloc-cons a rest h = rw h

  pub malloc-nil : m.supply ≡ [] → malloc m ≡ ok null m
  unfolding malloc
  malloc-nil h = rw h

  pub free-ok :
      (p : Ptr) (n : N)
      → p ≢ null
      → m.cells p ≡ some n
      → free p m ≡ ok tt (record m { cells = write m.cells p none })
  unfolding free
  free-ok p n ne h = rw (ne→== p null ne, load-ok p n ne h)

  -- Giving back a block, or nothing at NULL.
  abbrev pub without_block : Ptr → Ptr → Bool
  without_block p a = if p == null then m.blocks a else if a == p then false else m.blocks a

  abbrev pub IsBlock : Ptr → Type 0
  IsBlock p = (if p == null then true else m.blocks p) ≡ true

  pub free_block-ok :
      (p : Ptr) → IsBlock p → free_block p m ≡ ok tt (record m { blocks = without_block p })
  unfolding free_block
  free_block-ok p h = ground arith
