-- ===== src/Bpt/Order.antt =====
-- The order of keys, and the search for the place of a key in btree/bpt3.c.
use linux_kernel_struct.Common.{
  ℕ, zero, suc, ◌+◌, ◌≤◌, ◌<◌, ◌≡◌, refl, true, false, arith, Bool-cases, inl, inr,
}
use native.Mathlib.Decide.{ℕ_discrete}
use native.Mathlib.Nat.{zero-add}
use linux_kernel_struct.Memory.{Ptr, Memory, ok}
use linux_kernel_struct.Arrays.{Arr}
use linux_kernel_struct.Arrays.Loops.{get-ok}
use linux_kernel_struct.Bpt.{Env, Node5, is_le}
use linux_kernel_struct.Bpt.Insert.{insert_index}

-- `a` is not after `b`.
abbrev pub Le : Env → Ptr → Ptr → Type 0
Le e a b = is_le (e.compare a b) ≡ true

-- What is asked of `compare`: a total preorder.
pub record IsOrder (e : Env) : Type 0 where
  pub trans : (a b c : Ptr) → Le e a b → Le e b c → Le e a c
  pub total : (a b : Ptr) → is_le (e.compare a b) ≡ false → Le e b a

-- The first `n` entries ascend.
abbrev pub Sorted : Env → (ℕ → Ptr) → ℕ → Type 0
Sorted e f n = (i j : ℕ) → i ≤ j → j < n → Le e (f i) (f j)

-- `idx` is the place behind all entries that are not after `key`: the first `idx` of the `n` entries
-- are not after it, and the next one is.
pub record IsPlace (e : Env) (f : ℕ → Ptr) (key : Ptr) (from n idx : ℕ) : Type 0 where
  pub above : from ≤ idx
  pub within : idx ≤ n
  pub before : (i : ℕ) → from ≤ i → i < idx → Le e (f i) key
  pub behind : idx < n → is_le (e.compare (f idx) key) ≡ false

-- The search reads within bounds and ends at the place.
pub insert_index_lem :
    (e : Env) (key : Ptr) (a : Arr) (r from : ℕ) (m : Memory Node5)
    → from + r ≤ a.cap
    → (idx : ℕ) × (insert_index e key a r from m ≡ ok idx m)
      × IsPlace e a.at key from (from + r) idx
unfolding insert_index
insert_index_lem e key a zero from m h = (
  from,
  refl,
  record {
    above = omega arith;
    within = omega arith;
    before = λ i l u. absurd (omega arith);
    behind = λ u. absurd (omega arith);
  },
)
insert_index_lem e key a (suc r) from m h = elim (Bool-cases (is_le (e.compare (a.at from) key))) [
  | inl le ↦
      let (idx, eq, p) = insert_index_lem e key a r (from + 1) m (omega arith) in
      rw (get-ok a from (omega arith), le)
        (
          idx,
          eq,
          record {
            above = omega (arith, p.above);
            within = omega (arith, p.within);
            before = λ i l u. elim (ℕ_discrete i from) [
              | yes q ↦ rw q le
              | no q ↦ p.before i (omega arith) u
            ];
            behind = λ u. p.behind (omega arith);
          },
        )
  | inr gt ↦
      rw (get-ok a from (omega arith), gt)
        (
          from,
          refl,
          record {
            above = omega arith;
            within = omega arith;
            before = λ i l u. absurd (omega arith);
            behind = λ u. gt;
          },
        )
]

-- From the first key on.
pub insert_index_from_zero :
    (e : Env) (key : Ptr) (a : Arr) (n : ℕ) (m : Memory Node5)
    → n ≤ a.cap
    → (idx : ℕ) × (insert_index e key a n 0 m ≡ ok idx m) × IsPlace e a.at key 0 n idx
insert_index_from_zero e key a n m h =
    let (idx, eq, p) = insert_index_lem e key a n 0 m (omega arith) in
    (idx, eq, rw (zero-add n) at p)
