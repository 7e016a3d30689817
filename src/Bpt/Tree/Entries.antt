-- ===== src/Bpt/Tree/Entries.antt =====
-- Lists of entries: slices of a leaf, one entry put in, predicates on all keys.
use linux_kernel_struct.Common.{
  ℕ, zero, suc, ◌+◌, ◌-◌, ◌≤◌, ◌<◌, ◌≡◌, refl, ap, ap₂, ◌∙◌, [], ◌∷◌, ◌++◌, arith,
}
use linux_kernel_struct.Memory.{Ptr}
use linux_kernel_struct.Arrays.Loops.{opened}
use linux_kernel_struct.Bpt.{Node5}
use linux_kernel_struct.Bpt.Insert.Leaf.{Opened}
use linux_kernel_struct.Bpt.Tree.{Entries, pairs, leaf_entries, AllKeys, Inserted}

pub pairs-congr :
    (f f' g g' : ℕ → Ptr) (i j n : ℕ)
    → ((k : ℕ) → k < n → (f (i + k) ≡ f' (j + k)) × (g (i + k) ≡ g' (j + k)))
    → pairs f g i n ≡ pairs f' g' j n
pairs-congr f f' g g' i j zero h = refl
pairs-congr f f' g g' i j (suc n) h =
    let now : (f i ≡ f' j) × (g i ≡ g' j) = ground (arith, h 0 (omega arith)) in
    ap₂ ◌∷◌ (ap₂ (λ a b. (a, b)) now.0 now.1)
      (pairs-congr f f' g g' (i + 1) (j + 1) n (λ k l. ground (arith, h (k + 1) (omega arith))))

pub pairs-append :
    (f g : ℕ → Ptr) (i m n : ℕ) → pairs f g i (m + n) ≡ pairs f g i m ++ pairs f g (i + m) n
pairs-append f g i zero n = ground arith
pairs-append f g i (suc m) n =
    ap (pairs f g i) (suc-out m n)
    ∙ ap (λ t. (f i, g i) ∷ t)
        (pairs-append f g (i + 1) m n ∙ ap (λ t. pairs f g (i + 1) m ++ pairs f g t n) (assoc i m))
  where
    suc-out : (a b : ℕ) → suc a + b ≡ suc (a + b)
    suc-out a b = omega arith

    assoc : (a b : ℕ) → a + 1 + b ≡ a + suc b
    assoc a b = omega arith

pub opened-behind : (f : ℕ → Ptr) (idx n v j : ℕ) → n < j → idx ≤ n → opened f idx n v j ≡ f j
opened-behind f idx n v j h l = ground arith

-- An entry put into a leaf.
-- The entries of a leaf with one more put in at `idx`.
pub Opened-entries :
    (n n' : Node5) (idx key item : ℕ)
    → idx ≤ n.num_keys
    → Opened n n' idx key item
    → leaf_entries n'
      ≡ pairs n.keys.at n.pointers.at 0 idx
        ++ (key, item) ∷ pairs n.keys.at n.pointers.at idx (n.num_keys - idx)
Opened-entries n n' idx key item h o =
    let f = n.keys.at in
    let g = n.pointers.at in
    let f' = n'.keys.at in
    let g' = n'.pointers.at in
    let r = n.num_keys - idx in
    let new : n'.num_keys ≡ idx + suc r = omega (arith, o.num_keys) in
    let at_idx : (f' (0 + idx) ≡ key) × (g' (0 + idx) ≡ item) =
      ground (arith, o.keys (0 + idx), o.pointers (0 + idx)) in
    ap (pairs f' g' 0) new
    ∙ pairs-append f' g' 0 idx (suc r)
    ∙ ap₂ ◌++◌
        (pairs-congr f' f g' g 0 0 idx
          (λ k l. (o.keys (0 + k) ∙ ground arith, o.pointers (0 + k) ∙ ground arith)))
        (ap₂ ◌∷◌ (ap₂ (λ a b. (a, b)) at_idx.0 at_idx.1) (
          pairs-congr f' f g' g (0 + idx + 1) idx r (λ k l. (
            o.keys (0 + idx + 1 + k) ∙ ground arith,
            o.pointers (0 + idx + 1 + k) ∙ ground arith,
          ))))

pub pairs-halves :
    (f g : ℕ → Ptr) (idx n : ℕ)
    → idx ≤ n
    → pairs f g 0 n ≡ pairs f g 0 idx ++ pairs f g idx (n - idx)
pairs-halves f g idx n h =
    let all : n ≡ idx + (n - idx) = omega arith in
    let here : 0 + idx ≡ idx = omega arith in
    ap (pairs f g 0) all
    ∙ pairs-append f g 0 idx (n - idx)
    ∙ ap (λ t. pairs f g 0 idx ++ pairs f g t (n - idx)) here

pub Opened-Inserted :
    (n n' : Node5) (idx key item : ℕ)
    → idx ≤ n.num_keys
    → Opened n n' idx key item
    → Inserted (key, item) (leaf_entries n) (leaf_entries n')
Opened-Inserted n n' idx key item h o = (
  pairs n.keys.at n.pointers.at 0 idx,
  pairs n.keys.at n.pointers.at idx (n.num_keys - idx),
  pairs-halves n.keys.at n.pointers.at idx n.num_keys h,
  Opened-entries n n' idx key item h o,
)

pub AllKeys-append :
    (P : Ptr → Type 0) (xs ys : Entries) → AllKeys P (xs ++ ys) → AllKeys P xs × AllKeys P ys
AllKeys-append P [] ys h = (tt, h)
AllKeys-append P (x ∷ xs) ys h = let (a, b) = AllKeys-append P xs ys h.1 in ((h.0, a), b)

pub AllKeys-join :
    (P : Ptr → Type 0) (xs ys : Entries) → AllKeys P xs → AllKeys P ys → AllKeys P (xs ++ ys)
AllKeys-join P [] ys h k = k
AllKeys-join P (x ∷ xs) ys h k = (h.0, AllKeys-join P xs ys h.1 k)

pub AllKeys-Inserted :
    (P : Ptr → Type 0) (x : Ptr × Ptr) (old new : Entries)
    → Inserted x old new
    → AllKeys P old
    → P x.0
    → AllKeys P new
AllKeys-Inserted P x old new (xs, ys, e1, e2) h p =
    let (a, b) = AllKeys-append P xs ys (rw (← e1) h) in rw e2 (AllKeys-join P xs (x ∷ ys) a (p, b))
