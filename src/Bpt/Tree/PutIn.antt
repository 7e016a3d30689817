-- ===== src/Bpt/Tree/PutIn.antt =====
-- A key and an address put into the lists of a node of btree/bpt3.c, behind the child that was split.
use linux_kernel_struct.Common.{
  eq→==, ne→==, length-append, ℕ, zero, suc, ◌+◌, ◌-◌, ◌≤◌, ◌≡◌, refl, sym, ap, ap₂, ◌∙◌, Bool,
  true, false, some, List, [], ◌∷◌, ◌++◌, ◌==◌, ◌||◌, arith, length, append_assoc,
}
use linux_kernel_struct.Memory.{Ptr}
use linux_kernel_struct.Arrays.{Arr, slice, find_below}
use linux_kernel_struct.Arrays.Loops.{get-ok}
use linux_kernel_struct.Arrays.Slice.{length-slice, slice-append}
use linux_kernel_struct.Bpt.Tree
use linux_kernel_struct.Bpt.Tree.{Tree, Forest, last, more, has_node, forest_has_node, ApartForest}
use linux_kernel_struct.Bpt.Tree.Kids.{or_right, forest_keys, roots, cons-parts}
use linux_kernel_struct.Bpt.Tree.Join.{forest_join, keys-join, roots-join}
use linux_kernel_struct.Bpt.Tree.Replace.{or_false}
use linux_kernel_struct.Bpt.Tree.Reparent.{root-has_node}

abbrev among : Ptr → List Ptr → Bool
among c [] = false
among c (u ∷ us) = (u == c) || among c us

-- The lists of `F` are those of `f` with `k` and `r` put in behind the child at `c`.
pub record PutIn (f F : Forest) (c k r : Ptr) : Type 0 where
  pub xs : List Ptr
  pub ys : List Ptr
  pub us : List Ptr
  pub vs : List Ptr
  pub old_keys : forest_keys f ≡ xs ++ ys
  pub new_keys : forest_keys F ≡ xs ++ k ∷ ys
  pub old_roots : roots f ≡ us ++ c ∷ vs
  pub new_roots : roots F ≡ us ++ c ∷ (r ∷ vs)
  pub same_place : length xs ≡ length us
  pub before : among c us ≡ false
  pub inside : forest_has_node c f ≡ true

pub PutIn-left :
    (t : Tree) (k' : Ptr) (f F : Forest) (c k r : Ptr)
    → PutIn (last t) F c k r
    → PutIn (more t k' f) (forest_join F k' f) c k r
PutIn-left t k' f F c k r h = record {
  xs = h.xs;
  ys = h.ys ++ k' ∷ forest_keys f;
  us = h.us;
  vs = h.vs ++ roots f;
  old_keys =
      ap (λ l. l ++ k' ∷ forest_keys f) h.old_keys ∙ append_assoc h.xs h.ys (k' ∷ forest_keys f);
  new_keys =
      keys-join k' f F
      ∙ ap (λ l. l ++ k' ∷ forest_keys f) h.new_keys
      ∙ append_assoc h.xs (k ∷ h.ys) (k' ∷ forest_keys f);
  old_roots = ap (λ l. l ++ roots f) h.old_roots ∙ append_assoc h.us (c ∷ h.vs) (roots f);
  new_roots =
      roots-join k' f F
      ∙ ap (λ l. l ++ roots f) h.new_roots
      ∙ append_assoc h.us (c ∷ (r ∷ h.vs)) (roots f);
  same_place = h.same_place;
  before = h.before;
  inside = rw h.inside refl;
}

pub PutIn-right :
    (t : Tree) (k' : Ptr) (f F : Forest) (c k r : Ptr)
    → ((q : Ptr) → has_node q t ≡ true → forest_has_node q f ≡ false)
    → PutIn f F c k r
    → PutIn (more t k' f) (more t k' F) c k r
PutIn-right t k' f F c k r apart h =
    let other : (Tree.root t == c) ≡ false = ne→== (Tree.root t) c (λ same.
      cc (h.inside, apart (Tree.root t) (root-has_node t), ap (λ q. forest_has_node q f) same)) in
    record {
      xs = k' ∷ h.xs;
      ys = h.ys;
      us = Tree.root t ∷ h.us;
      vs = h.vs;
      old_keys = ap (λ l. k' ∷ l) h.old_keys;
      new_keys = ap (λ l. k' ∷ l) h.new_keys;
      old_roots = ap (λ l. Tree.root t ∷ l) h.old_roots;
      new_roots = ap (λ l. Tree.root t ∷ l) h.new_roots;
      same_place = ap suc h.same_place;
      before = rw other h.before;
      inside = or_right (has_node c t) (forest_has_node c f) h.inside;
    }

pub append-parts :
    (xs xs' ys ys' : List Ptr)
    → length xs ≡ length xs'
    → xs ++ ys ≡ xs' ++ ys'
    → (xs ≡ xs') × (ys ≡ ys')
append-parts [] [] ys ys' l h = (refl, h)
append-parts [] (x' ∷ xs') ys ys' l h = absurd (omega (arith, l))
append-parts (x ∷ xs) [] ys ys' l h = absurd (omega (arith, l))
append-parts (x ∷ xs) (x' ∷ xs') ys ys' l h =
    let (a, b) = cons-parts x x' (xs ++ ys) (xs' ++ ys') h in
    let (c, d) = append-parts xs xs' ys ys' (omega (arith, l)) b in (ap₂ ◌∷◌ a c, d)

-- A slice that is a list in two parts.
pub slice-parts :
    (f : ℕ → ℕ) (i n : ℕ) (xs ys : List Ptr)
    → slice f i n ≡ xs ++ ys
    → (length xs ≤ n)
      × (slice f i (length xs) ≡ xs)
      × (slice f (i + length xs) (n - length xs) ≡ ys)
slice-parts f i n xs ys h =
    let total : n ≡ length xs + length ys =
      sym (length-slice f i n) ∙ ap length h ∙ length-append xs ys in
    let rest : n - length xs ≡ length ys = omega arith in
    let (a, b) =
      append-parts (slice f i (length xs)) xs (slice f (i + length xs) (length ys)) ys
        (length-slice f i (length xs))
        (sym (slice-append f i (length xs) (length ys)) ∙ ap (slice f i) (sym total) ∙ h) in
    (omega arith, a, ap (slice f (i + length xs)) rest ∙ b)

-- The search stops at the first place of `c`.
pub find_below-among :
    (r i : ℕ) (c : Ptr) (a : Arr) (us vs : List Ptr)
    → slice a.at i r ≡ us ++ c ∷ vs
    → among c us ≡ false
    → i + r ≤ a.cap
    → find_below r i c a ≡ some (i + length us)
unfolding find_below
find_below-among zero i c a [] vs h out cap = absurd (cc h)
find_below-among zero i c a (u ∷ us) vs h out cap = absurd (cc h)
find_below-among (suc r) i c a [] vs h out cap =
    let (here, rest) = cons-parts (a.at i) c (slice a.at (i + 1) r) vs h in
    let hit : (a.at i == c) ≡ true = eq→== (a.at i) c here in
    rw (get-ok a i (omega arith), hit) (ap some (omega arith))
find_below-among (suc r) i c a (u ∷ us) vs h out cap =
    let (here, rest) = cons-parts (a.at i) u (slice a.at (i + 1) r) (us ++ c ∷ vs) h in
    let (o1, o2) = or_false (u == c) (among c us) out in
    let miss : (a.at i == c) ≡ false = ap (λ z. z == c) here ∙ o1 in
    rw (get-ok a i (omega arith), miss)
      (find_below-among r (i + 1) c a us vs rest o2 (omega arith) ∙ ap some (omega arith))
