-- ===== src/Arrays.antt =====
-- The `void**` arrays of btree/bpt3.c, and its loops over them. An array has a capacity, and an
-- access at or beyond it is `none`. A loop that moves entries of `keys` and of `pointers` together
-- is run once for each: the two are different blocks.
pub mod Loops
pub mod Slice
pub mod Copy
use linux_kernel_struct.Common.{
  ℕ, zero, suc, ◌+◌, ◌-◌, Option, none, some, List, [], ◌∷◌, ◌==◌, ltb, if◌then◌else◌,
}

pub record Arr : Type 0 where
  pub cap : ℕ
  pub at : ℕ → ℕ

infixl 5 ◌>>=◌
abbrev pub ◌>>=◌ : {A B : Type 0} → Option A → (A → Option B) → Option B
none >>= f = none
some a >>= f = f a

abbrev pub get : Arr → ℕ → Option ℕ
get a i = if ltb i a.cap then some (a.at i) else none

abbrev pub updated : (ℕ → ℕ) → ℕ → ℕ → ℕ → ℕ
updated f i v j = if j == i then v else f j

abbrev pub put : Arr → ℕ → ℕ → Option Arr
put a i v = if ltb i a.cap then some (record { cap = a.cap; at = updated a.at i v }) else none

-- for (i = n; i > idx; i--) a[i] = a[i - 1];
unfoldable pub shift_up : ℕ → ℕ → Arr → Option Arr
shift_up zero idx a = some a
shift_up (suc i) idx a =
    if ltb idx (suc i) then (do v ← get a i; a' ← put a (suc i) v; shift_up i idx a') else some a

-- for (...; rounds; i++) a[i] = a[i + 1];
unfoldable pub shift_down : ℕ → ℕ → Arr → Option Arr
shift_down zero i a = some a
shift_down (suc r) i a = do v ← get a (i + 1); a' ← put a i v; shift_down r (i + 1) a'

-- for (...; rounds; i++, j++) dst[j] = src[i];
unfoldable pub copy : ℕ → ℕ → ℕ → Arr → Arr → Option Arr
copy zero i j src dst = some dst
copy (suc r) i j src dst = do v ← get src i; dst' ← put dst j v; copy r (i + 1) (j + 1) src dst'

-- for (...; rounds; i++, j++) { if (j == idx) j++; dst[j] = src[i]; }
unfoldable pub copy_skip : ℕ → ℕ → ℕ → ℕ → Arr → Arr → Option Arr
copy_skip zero i j idx src dst = some dst
copy_skip (suc r) i j idx src dst = do
  v ← get src i
  let k : ℕ = if j == idx then j + 1 else j
  dst' ← put dst k v
  copy_skip r (i + 1) (k + 1) idx src dst'

-- for (...; rounds; i++) a[i] = v;
unfoldable pub fill : ℕ → ℕ → ℕ → Arr → Option Arr
fill zero i v a = some a
fill (suc r) i v a = do a' ← put a i v; fill r (i + 1) v a'

-- while (a[i] != p) i++;  with `rounds` up to the capacity, where the next read is out of bounds.
unfoldable pub find_from : ℕ → ℕ → ℕ → Arr → Option ℕ
find_from zero i p a = none
find_from (suc r) i p a = do v ← get a i; if v == p then some i else find_from r (i + 1) p a

-- while (i < n && a[i] != p) i++;  with n = i + rounds.
unfoldable pub find_below : ℕ → ℕ → ℕ → Arr → Option ℕ
find_below zero i p a = some i
find_below (suc r) i p a = do v ← get a i; if v == p then some i else find_below r (i + 1) p a

-- The entries i .. i + n - 1.
abbrev pub slice : (ℕ → ℕ) → ℕ → ℕ → List ℕ
slice f i zero = []
slice f i (suc n) = f i ∷ slice f (i + 1) n
