-- ===== src/Arrays/Loops.antt =====
-- What each loop leaves in the array, entry by entry, and that it stays within bounds.
use linux_kernel_struct.Common.{
  ℕ, zero, suc, ◌+◌, ◌-◌, ◌≤◌, ◌<◌, ◌≡◌, refl, Option, some, ◌==◌, ltb, leb, ◌&&◌, if◌then◌else◌,
  arith, lt→ltb, Bool-cases, Option-cases, ne→==, inl, inr,
}
use linux_kernel_struct.Arrays.{
  ◌>>=◌, Arr, get, put, updated, shift_up, shift_down, copy, copy_skip, fill,
}

-- A loop that ends with an array of the same capacity and the entries `f`.
abbrev pub Leaves : Arr → (ℕ → ℕ) → Option Arr → Type 0
Leaves a f r = (b : Arr) × (r ≡ some b) × (b.cap ≡ a.cap) × ((j : ℕ) → b.at j ≡ f j)

abbrev pub shifted_up : (ℕ → ℕ) → ℕ → ℕ → ℕ → ℕ
shifted_up f n idx j = if ltb idx j && leb j n then f (j - 1) else f j

pub get-ok : (a : Arr) (i : ℕ) → i < a.cap → get a i ≡ some (a.at i)
get-ok a i h = rw (lt→ltb i a.cap h)

pub put-ok :
    (a : Arr) (i v : ℕ)
    → i < a.cap
    → put a i v ≡ some (record { cap = a.cap; at = updated a.at i v })
put-ok a i v h = rw (lt→ltb i a.cap h)

pub shift_up_lem :
    (n idx : ℕ) (a : Arr) → n < a.cap → Leaves a (shifted_up a.at n idx) (shift_up n idx a)
unfolding shift_up
shift_up_lem zero idx a h = (a, refl, refl, λ j. ground arith)
shift_up_lem (suc n) idx a h = elim (Bool-cases (ltb idx (suc n))) [
  | inl go ↦
      let a' : Arr = record { cap = a.cap; at = updated a.at (suc n) (a.at n) } in
      let (b, e, c, f) = shift_up_lem n idx a' (omega arith) in
      rw (go, get-ok a n (omega arith), put-ok a (suc n) (a.at n) h)
        (b, e, c, λ j. ground (arith, f j))
  | inr stop ↦ rw stop (a, refl, refl, λ j. ground arith)
]

abbrev pub shifted_down : (ℕ → ℕ) → ℕ → ℕ → ℕ → ℕ
shifted_down f i r j = if leb i j && ltb j (i + r) then f (j + 1) else f j

pub shift_down_lem :
    (r i : ℕ) (a : Arr) → i + r < a.cap → Leaves a (shifted_down a.at i r) (shift_down r i a)
unfolding shift_down
shift_down_lem zero i a h = (a, refl, refl, λ j. ground arith)
shift_down_lem (suc r) i a h =
    let a' : Arr = record { cap = a.cap; at = updated a.at i (a.at (i + 1)) } in
    let (b, e, c, f) = shift_down_lem r (i + 1) a' (omega arith) in
    rw (get-ok a (i + 1) (omega arith), put-ok a i (a.at (i + 1)) (omega arith))
      (b, e, c, λ j. ground (arith, f j))

abbrev pub copied : (ℕ → ℕ) → (ℕ → ℕ) → ℕ → ℕ → ℕ → ℕ → ℕ
copied src dst r i j k = if leb j k && ltb k (j + r) then src (i + (k - j)) else dst k

pub copy_lem :
    (r i j : ℕ) (src dst : Arr)
    → i + r ≤ src.cap
    → j + r ≤ dst.cap
    → Leaves dst (copied src.at dst.at r i j) (copy r i j src dst)
unfolding copy
copy_lem zero i j src dst hs hd = (dst, refl, refl, λ k. ground arith)
copy_lem (suc r) i j src dst hs hd =
    let dst' : Arr = record { cap = dst.cap; at = updated dst.at j (src.at i) } in
    let (b, e, c, f) = copy_lem r (i + 1) (j + 1) src dst' (omega arith) (omega arith) in
    rw (get-ok src i (omega arith), put-ok dst j (src.at i) (omega arith))
      (b, e, c, λ k. ground (arith, f k))

abbrev pub filled : (ℕ → ℕ) → ℕ → ℕ → ℕ → ℕ → ℕ
filled f i r v j = if leb i j && ltb j (i + r) then v else f j

pub fill_lem : (r i v : ℕ) (a : Arr) → i + r ≤ a.cap → Leaves a (filled a.at i r v) (fill r i v a)
unfolding fill
fill_lem zero i v a h = (a, refl, refl, λ j. ground arith)
fill_lem (suc r) i v a h =
    let a' : Arr = record { cap = a.cap; at = updated a.at i v } in
    let (b, e, c, f) = fill_lem r (i + 1) v a' (omega arith) in
    rw (put-ok a i v (omega arith)) (b, e, c, λ j. ground (arith, f j))

-- Past the gap, `copy_skip` is `copy`.
copy_skip-copy :
    (r i j idx : ℕ) (src dst : Arr) → idx < j → copy_skip r i j idx src dst ≡ copy r i j src dst
unfolding copy_skip copy
copy_skip-copy zero i j idx src dst h = refl
copy_skip-copy (suc r) i j idx src dst h = elim (Option-cases (get src i)) [
  | inl e ↦ rw e
  | inr (v, e) ↦
      rw (e, ne→== j idx (omega arith))
        (elim (Option-cases (put dst j v)) [
          | inl e' ↦ rw e'
          | inr (d, e') ↦ rw e' (copy_skip-copy r (i + 1) (j + 1) idx src d (omega arith))
        ])
]

-- The entries that `copy_skip` leaves when it starts at `i` in both arrays: a gap at `idx`.
abbrev pub skipped : (ℕ → ℕ) → (ℕ → ℕ) → ℕ → ℕ → ℕ → ℕ → ℕ
skipped src dst r i idx k =
    if leb i k && (ltb k idx && ltb k (i + r))
    then src k
    else if ltb idx k && leb k (i + r)
    then src (k - 1)
    else dst k

pub copy_skip_lem :
    (r i idx : ℕ) (src dst : Arr)
    → i ≤ idx
    → i + r ≤ src.cap
    → i + r < dst.cap
    → Leaves dst (skipped src.at dst.at r i idx) (copy_skip r i i idx src dst)
unfolding copy_skip
copy_skip_lem zero i idx src dst hi hs hd = (dst, refl, refl, λ k. ground arith)
copy_skip_lem (suc r) i idx src dst hi hs hd = elim (Bool-cases (i == idx)) [
  | inl gap ↦
      let dst' : Arr = record { cap = dst.cap; at = updated dst.at (i + 1) (src.at i) } in
      let (b, e, c, f) = copy_lem r (i + 1) (i + 1 + 1) src dst' (omega arith) (omega arith) in
      rw
        (
          get-ok src i (omega arith),
          gap,
          put-ok dst (i + 1) (src.at i) (omega arith),
          copy_skip-copy r (i + 1) (i + 1 + 1) idx src dst' (ground arith),
        )
        (b, e, c, λ k. ground (arith, f k))
  | inr before ↦
      let dst' : Arr = record { cap = dst.cap; at = updated dst.at i (src.at i) } in
      let (b, e, c, f) =
        copy_skip_lem r (i + 1) idx src dst' (ground arith) (omega arith) (omega arith) in
      rw (get-ok src i (omega arith), before, put-ok dst i (src.at i) (omega arith))
        (b, e, c, λ k. ground (arith, f k))
]

-- An entry `v` put in at `idx`, below `n` entries.
abbrev pub opened : (ℕ → ℕ) → ℕ → ℕ → ℕ → ℕ → ℕ
opened f idx n v j =
    if ltb j idx then f j else if j == idx then v else if leb j n then f (j - 1) else f j

-- Shifting up and writing opens a place.
pub open_lem :
    (n idx v : ℕ) (a : Arr)
    → idx ≤ n
    → n < a.cap
    → Leaves a (opened a.at idx n v) (shift_up n idx a >>= λ b. put b idx v)
open_lem n idx v a hi hn =
    let (b, e, c, f) = shift_up_lem n idx a hn in
    rw (e, put-ok b idx v (omega arith))
      (record { cap = b.cap; at = updated b.at idx v }, refl, c, λ j. ground (arith, f j))

-- The same, with the shift and the write apart.
pub open_steps :
    (n idx v : ℕ) (a : Arr)
    → idx ≤ n
    → n < a.cap
    → (b c : Arr) × (shift_up n idx a ≡ some b)
      × (put b idx v ≡ some c)
      × (c.cap ≡ a.cap)
      × ((j : ℕ) → c.at j ≡ opened a.at idx n v j)
open_steps n idx v a hi hn =
    let (b, e, c, f) = shift_up_lem n idx a hn in
    (
      b,
      record { cap = b.cap; at = updated b.at idx v },
      e,
      put-ok b idx v (omega arith),
      c,
      λ j. ground (arith, f j),
    )
