-- ===== src/Arrays/Copy.antt =====
-- Copies between arrays as moves of slices.
use linux_kernel_struct.Common.{◌∷◌, ℕ, ◌+◌, ◌-◌, ◌≤◌, ◌<◌, ◌≡◌, refl, some, ◌∙◌, ◌++◌, arith}
use linux_kernel_struct.Arrays.{Arr, copy, copy_skip, fill, put, updated, slice, ◌>>=◌}
use linux_kernel_struct.Arrays.Loops.{copy_lem, copied, copy_skip_lem, opened, fill_lem, put-ok}
use linux_kernel_struct.Arrays.Slice.{slice-congr, slice-opened}

-- What a copy of `r` entries from `i` on to `j` on leaves in `b`.
pub record Copied (src dst b : Arr) (r i j : ℕ) : Type 0 where
  pub cap : b.cap ≡ dst.cap
  pub moved : slice b.at j r ≡ slice src.at i r
  pub before : (k : ℕ) → k < j → b.at k ≡ dst.at k
  pub behind : (k : ℕ) → j + r ≤ k → b.at k ≡ dst.at k

pub copy-Copied :
    (r i j : ℕ) (src dst : Arr)
    → i + r ≤ src.cap
    → j + r ≤ dst.cap
    → (b : Arr) × (copy r i j src dst ≡ some b) × Copied src dst b r i j
copy-Copied r i j src dst hs hd =
    let (b, e, c, f) = copy_lem r i j src dst hs hd in
    (
      b,
      e,
      record {
        cap = c;
        moved = slice-congr b.at src.at j i r (λ k l. moved_at b.at f k l);
        before = λ k l. ground (arith, f k);
        behind = λ k l. ground (arith, f k);
      },
    )
  where
    moved_at :
        (g : ℕ → ℕ)
        → ((k : ℕ) → g k ≡ copied src.at dst.at r i j k)
        → (k : ℕ) → k < r
        → g (j + k) ≡ src.at (i + k)
    moved_at g f k l = ground (arith, f (j + k))

-- A gap filled with an entry: the array with the entry put in.
pub gap_lem :
    (n idx v : ℕ) (src temp : Arr)
    → idx ≤ n
    → n ≤ src.cap
    → n < temp.cap
    → (b : Arr) × ((copy_skip n 0 0 idx src temp >>= λ t. put t idx v) ≡ some b)
      × (b.cap ≡ temp.cap)
      × (slice b.at 0 (n + 1) ≡ slice src.at 0 idx ++ v ∷ slice src.at idx (n - idx))
gap_lem n idx v src temp hi hs ht =
    let (b, e, c, f) = copy_skip_lem n 0 idx src temp (omega arith) (omega arith) (omega arith) in
    rw (e, put-ok b idx v (omega arith))
      (
        record { cap = b.cap; at = updated b.at idx v },
        refl,
        c,
        slice-congr (updated b.at idx v) (opened src.at idx n v) 0 0 (n + 1)
              (λ k l. ground (arith, f (0 + k)))
            ∙ slice-opened src.at idx n v hi,
      )

-- NULLs behind the slice leave it alone.
pub fill-Kept :
    (r i v : ℕ) (a : Arr)
    → i + r ≤ a.cap
    → (b : Arr) × (fill r i v a ≡ some b)
      × (b.cap ≡ a.cap)
      × (slice b.at 0 i ≡ slice a.at 0 i)
      × ((k : ℕ) → i + r ≤ k → b.at k ≡ a.at k)
fill-Kept r i v a h =
    let (b, e, c, f) = fill_lem r i v a h in
    (
      b,
      e,
      c,
      slice-congr b.at a.at 0 0 i (λ k l. ground (arith, f (0 + k))),
      λ k l. ground (arith, f k),
    )

-- A write behind the slice leaves it alone.
pub slice-put : (f : ℕ → ℕ) (i v n : ℕ) → n ≤ i → slice (updated f i v) 0 n ≡ slice f 0 n
slice-put f i v n h = slice-congr (updated f i v) f 0 0 n (λ k l. ground arith)
