-- ===== src/Dictionary/Tests.antt =====
-- The theorems on btree/tw1.c at a dictionary of two words.
use linux_kernel_struct.Common.{
  inl, Bool-cases, inr, arith, ◌⊎◌, ◌+◌, ℕ, zero, suc, ◌≡◌, refl, true, false, none, some, Option,
  List, [], ◌∷◌, if◌then◌else◌, ◌==◌,
}
use linux_kernel_struct.Memory.{Ptr, null, write, ok, fault}
use linux_kernel_struct.Queue.{Queue}
use linux_kernel_struct.Bpt.{Node5, Btree, Env}
use linux_kernel_struct.Bpt.Order.{Sorted}
use linux_kernel_struct.Bpt.Tree.{entries, find, Tree, leaf, IsTotalOrder}
use Prim.Native.Nat.{Ordering, compare}
use linux_kernel_struct.Store.{sign, tw1_compare_str, Store, by_text}
use linux_kernel_struct.Dictionary.{tw1_insert_to_btree}
use linux_kernel_struct.Ustr.Compare.{str_cmp}
use linux_kernel_struct.Ustr.Compare.Strings.{IsText}
use linux_kernel_struct.Dictionary.Words.{
  same_word, IsIndex, tw1_insert_to_btree-found, tw1_insert_to_btree-fault,
}

abbrev env : Env
env = record { compare = compare; uninit = λ _. 0 }

-- The words "a" at 1, "c" at 5 and "b" at the others.
unfoldable letter : Ptr → ℕ
letter p = if p == 1 then 97 else if p == 5 then 99 else 98

abbrev texts : Ptr → Option (List ℕ)
texts p = some (letter p ∷ 0 ∷ [])

abbrev words : Node5
words = record {
  parent = null;
  is_leaf = true;
  num_keys = 2;
  pointers = record { cap = 4; at = λ i. if i == 0 then 7 else if i == 1 then 8 else 0 };
  keys = record { cap = 3; at = λ i. i + 1 };
  next = null;
}

abbrev store : Store
store = record {
  trees = record { cells = write (λ _. none) 3 (some words); blocks = λ _. false; supply = [] };
  queues = record { cells = λ _. none; blocks = λ _. false; supply = [] };
  texts = texts;
  uints = write (write (λ _. none) 7 (some 0)) 8 (some 1);
  supply = [];
}

abbrev ws : Btree
ws = record { root = 3; order = 4; kno = 2; kcnt = 2; samek = false }

abbrev wi : Btree
wi = record { root = null; order = 4; kno = 2; kcnt = 0; samek = false }

abbrev queue : Queue
queue = record { front = null; rear = null; count = 0 }

abbrev tree : Tree
tree = leaf 3 words

letter-cases : (p : Ptr) → (letter p ≡ 97) ⊎ ((letter p ≡ 98) ⊎ (letter p ≡ 99))
unfolding letter
letter-cases p = elim (Bool-cases (p == 1)) [
  | inl e ↦ rw e (inl refl)
  | inr e ↦ elim (Bool-cases (p == 5)) [
    | inl f ↦ rw (e, f) (inr (inr refl))
    | inr f ↦ rw (e, f) (inr (inl refl))
  ]
]

-- The comparison of two words of one letter.
abbrev compare_letters : ℕ → ℕ → Ordering → Ordering
compare_letters x y other = elim (tw1_compare_str (x ∷ 0 ∷ []) (y ∷ 0 ∷ [])) [
  | none ↦ other
  | some v ↦ sign v
]

compare_letters_lem :
    (x y : ℕ) (other : Ordering)
    → (x ≡ 97) ⊎ ((x ≡ 98) ⊎ (x ≡ 99))
    → (y ≡ 97) ⊎ ((y ≡ 98) ⊎ (y ≡ 99))
    → compare_letters x y other ≡ compare x y
unfolding tw1_compare_str str_cmp
compare_letters_lem x y other (inl e) (inl f) = rw (e, f) refl
compare_letters_lem x y other (inl e) (inr (inl f)) = rw (e, f) refl
compare_letters_lem x y other (inl e) (inr (inr f)) = rw (e, f) refl
compare_letters_lem x y other (inr (inl e)) (inl f) = rw (e, f) refl
compare_letters_lem x y other (inr (inl e)) (inr (inl f)) = rw (e, f) refl
compare_letters_lem x y other (inr (inl e)) (inr (inr f)) = rw (e, f) refl
compare_letters_lem x y other (inr (inr e)) (inl f) = rw (e, f) refl
compare_letters_lem x y other (inr (inr e)) (inr (inl f)) = rw (e, f) refl
compare_letters_lem x y other (inr (inr e)) (inr (inr f)) = rw (e, f) refl

compare-letter : (a b : Ptr) → (by_text env store).compare a b ≡ compare (letter a) (letter b)
compare-letter a b =
    compare_letters_lem (letter a) (letter b) (compare a b) (letter-cases a) (letter-cases b)

by_text-IsTotalOrder : IsTotalOrder (by_text env store)
by_text-IsTotalOrder = record {
  flip = λ a b. rw (compare-letter a b, compare-letter b a) (ground arith);
  trans = λ a b c p q.
      let p' = rw (compare-letter a b) at p in
      let q' = rw (compare-letter b c) at q in rw (compare-letter a c) (ground arith);
}

tree-Sorted : Sorted (by_text env store) words.keys.at 2
unfolding letter tw1_compare_str str_cmp
tree-Sorted zero zero ij jn = refl
tree-Sorted zero (suc zero) ij jn = refl
tree-Sorted zero (suc (suc j)) ij jn = absurd (omega arith)
tree-Sorted (suc zero) zero ij jn = absurd (omega arith)
tree-Sorted (suc zero) (suc zero) ij jn = refl
tree-Sorted (suc zero) (suc (suc j)) ij jn = absurd (omega arith)
tree-Sorted (suc (suc i)) j ij jn = absurd (omega arith)

finds_b : find (same_word env store 9) (entries tree) ≡ some 8
unfolding letter tw1_compare_str str_cmp
finds_b = refl

finds_no_c : find (same_word env store 5) (entries tree) ≡ none
unfolding letter tw1_compare_str str_cmp
finds_no_c = refl

number_of_b : store.uints 8 ≡ some 1
unfolding write
number_of_b = refl

letters-IsText : (p : Ptr) → IsText (letter p ∷ [])
letters-IsText p = elim (letter-cases p) [
  | inl e ↦ rw e (omega arith, omega arith, tt)
  | inr (inl e) ↦ rw e (omega arith, omega arith, tt)
  | inr (inr e) ↦ rw e (omega arith, omega arith, tt)
]

tree-IsIndex : IsIndex env store 1 ws tree
unfolding write letter
tree-IsIndex = record {
  order = by_text-IsTotalOrder;
  stored = (ground arith, refl, refl, refl, refl, refl, omega arith, refl);
  ordered = tree-Sorted;
  at_root = refl;
  unique = refl;
  enough = omega arith;
}

-- The word "b" at 9 is the one at 2, with the number 1 at 8.
tw1_insert_to_btree-found_example :
    tw1_insert_to_btree env 1 ws wi 9 queue store ≡ ok (1, ws, wi, queue) store
tw1_insert_to_btree-found_example =
    tw1_insert_to_btree-found env 1 ws wi 9 queue store (letter 9) (0 ∷ []) tree 8 1 tree-IsIndex
      (ground arith) refl (λ e. omega (arith, (letters-IsText 9).0)) refl finds_b (ground arith)
      number_of_b

tw1_insert_to_btree-fault_example : tw1_insert_to_btree env 1 ws wi 5 queue store ≡ fault
tw1_insert_to_btree-fault_example =
    tw1_insert_to_btree-fault env 1 ws wi 5 queue store (letter 5) [] [] tree tree-IsIndex
      (ground arith) (letters-IsText 5) refl refl finds_no_c refl
