-- ===== src/Store/Laws.antt =====
-- How the commands on the numbers of the store act where they do not fault.
use linux_kernel_struct.Common.{none, ne→==, ℕ, ◌≡◌, refl, ◌≢◌, some, List, ◌∷◌}
use linux_kernel_struct.Memory.{Ptr, null, ok, write}
use linux_kernel_struct.Store.{Store, uint_at, set_uint, free_uint, malloc_uint}

module _ (s : Store) where
  pub uint_at-ok : (p n : ℕ) → p ≢ null → s.uints p ≡ some n → uint_at p s ≡ ok n s
  unfolding uint_at
  uint_at-ok p n ne h = rw (ne→== p null ne, h) refl

  pub free_uint-ok :
      (p n : ℕ)
      → p ≢ null
      → s.uints p ≡ some n
      → free_uint p s ≡ ok tt (record s { uints = write s.uints p none })
  unfolding free_uint
  free_uint-ok p n ne h = rw (ne→== p null ne, uint_at-ok p n ne h) refl

  pub set_uint-ok :
      (p old n : ℕ)
      → p ≢ null
      → s.uints p ≡ some old
      → set_uint p n s ≡ ok tt (record s { uints = write s.uints p (some n) })
  unfolding set_uint
  set_uint-ok p old n ne h = rw (uint_at-ok p old ne h) refl

  pub malloc_uint-cons :
      (p : ℕ) (rest : List Ptr)
      → s.supply ≡ p ∷ rest
      → p ≢ null
      → malloc_uint s ≡ ok p (record s { uints = write s.uints p (some 0); supply = rest })
  unfolding malloc_uint
  malloc_uint-cons p rest h ne = rw (h, ne→== p null ne) refl
