-- ===== src/Files/Write/Entries.antt =====
-- The loops of fio_write_to_file and fio_write_to_file_trans of btree/fileio.c on a whole tree.
use mathlib.Core.Path.{subst}
use linux_kernel_struct.Common.{
  some, ne→==, true, ap₂, length-append, arith, ◌<◌, append-nil, ◌≤◌, append_assoc, length, ℕ, zero,
  suc, ◌+◌, ◌-◌, ◌%◌, ◌≡◌, refl, sym, ap, ◌∙◌, ◌≢◌, List, [], ◌∷◌, ◌++◌,
}
use linux_kernel_struct.Memory.{Ptr, null, ok}
use linux_kernel_struct.Bpt.{Node5, Btree}
use linux_kernel_struct.Bpt.Tree.{
  Entries, Tree, root, leaf_entries, entries_from, entries, height, Stored,
}
use linux_kernel_struct.Store.{Store, StoreCmd}
use linux_kernel_struct.Files.Write.{put_entries, put_leaves, write_tree}
use linux_kernel_struct.Int32.{word}
use linux_kernel_struct.Arrays.Loops.{get-ok}
use linux_kernel_struct.Memory.Laws.{load-ok}
use linux_kernel_struct.Ustr.Compare.Strings.{IsText}
use linux_kernel_struct.Files.Header.{fio_write_header-append, header}
use linux_kernel_struct.Bpt.Tree.Search.{root-ne_null}
use linux_kernel_struct.Bpt.Tree.Leaves.{
  all_entries-leaves, leaves-cons, leftmost-first_leaf, Leaves, leaves, all_entries, Chain,
  leaves-Chain,
}

abbrev pub Each : (Ptr × Ptr → Type 0) → Entries → Type 0
Each P [] = Unit {0}
Each P (x ∷ xs) = P x × Each P xs

pub Each-mono :
    (P Q : Ptr × Ptr → Type 0) (xs : Entries)
    → ((x : Ptr × Ptr) → P x → Q x)
    → Each P xs
    → Each Q xs
Each-mono P Q [] f h = tt
Each-mono P Q (x ∷ xs) f h = (f x h.0, Each-mono P Q xs f h.1)

Each-append : (P : Ptr × Ptr → Type 0) (xs ys : Entries) → Each P (xs ++ ys) → Each P xs × Each P ys
Each-append P [] ys h = (tt, h)
Each-append P (x ∷ xs) ys h = let (l, r) = Each-append P xs ys h.1 in ((h.0, l), r)

-- The bytes of a list of entries, by those of one.
abbrev pub bytes : (Ptr × Ptr → List ℕ) → Entries → List ℕ
bytes shown [] = []
bytes shown (x ∷ xs) = shown x ++ bytes shown xs

bytes-append :
    (shown : Ptr × Ptr → List ℕ) (xs ys : Entries)
    → bytes shown (xs ++ ys) ≡ bytes shown xs ++ bytes shown ys
bytes-append shown [] ys = refl
bytes-append shown (x ∷ xs) ys =
    ap (λ t. shown x ++ t) (bytes-append shown xs ys)
    ∙ sym (append_assoc (shown x) (bytes shown xs) (bytes shown ys))

module _ (put : Ptr → Ptr → List ℕ → StoreCmd (List ℕ)) (shown : Ptr × Ptr → List ℕ)
    (s : Store) where
  -- Of an entry `put` writes its bytes.
  abbrev pub Puts : Ptr × Ptr → Type 0
  Puts (k, d) = (out : List ℕ) → put k d out s ≡ ok (out ++ shown (k, d)) s

  put_entries-bytes :
      (n : Node5) (r i : ℕ) (out : List ℕ)
      → i + r ≤ n.keys.cap
      → i + r ≤ n.pointers.cap
      → Each Puts (entries_from n i r)
      → put_entries put n r i out s ≡ ok (out ++ bytes shown (entries_from n i r)) s
  unfolding put_entries
  put_entries-bytes n zero i out hk hp h = rw (append-nil out) refl
  put_entries-bytes n (suc r) i out hk hp h =
      let x : Ptr × Ptr = (n.keys.at i, n.pointers.at i) in
      rw (get-ok n.keys i (omega arith), get-ok n.pointers i (omega arith), h.0 out)
        (put_entries-bytes n r (i + 1) (out ++ shown x) (omega arith) (omega arith) h.1
          ∙ ap (λ o. ok o s) (append_assoc out (shown x) (bytes shown (entries_from n (i + 1) r))))

  length-pairs : (n : Node5) (i r : ℕ) → length (entries_from n i r) ≡ r
  length-pairs n i zero = refl
  length-pairs n i (suc r) = omega (arith, length-pairs n (i + 1) r)

  -- The count and the file behind one leaf, and then the others.
  leaf_and_rest :
      (cnt : ℕ) (n : Node5) (xs : Entries) (out : List ℕ)
      → (((cnt + n.num_keys) % word + length xs) % word
          ≡ (cnt + length (leaf_entries n ++ xs)) % word)
        × (out ++ bytes shown (leaf_entries n) ++ bytes shown xs
            ≡ out ++ bytes shown (leaf_entries n ++ xs))
  leaf_and_rest cnt n xs out = (
    omega (arith, length-append (leaf_entries n) xs, length-pairs n 0 n.num_keys),
    append_assoc out (bytes shown (leaf_entries n)) (bytes shown xs)
        ∙ ap (λ t. out ++ t) (sym (bytes-append shown (leaf_entries n) xs)),
  )

  put_leaves-bytes :
      (order rounds cnt : ℕ) (p : Ptr) (n : Node5) (ls : Leaves) (out : List ℕ)
      → Chain s.trees order null ((p, n) ∷ ls)
      → length ls < rounds
      → Each Puts (all_entries ((p, n) ∷ ls))
      → put_leaves put order rounds p cnt out s
        ≡ ok
            (
              (cnt + length (all_entries ((p, n) ∷ ls))) % word,
              out ++ bytes shown (all_entries ((p, n) ∷ ls)),
            )
            s
  unfolding put_leaves
  put_leaves-bytes order zero cnt p n ls out c h each = absurd (omega arith)
  put_leaves-bytes order (suc rounds) cnt p n [] out c h each =
      let ((ne, cell, is_leaf, ck, cp, small), to_next, _) = c in
      let (here, later) = Each-append Puts (leaf_entries n) [] each in
      let run = put_entries-bytes n n.num_keys 0 out (omega (arith, ck)) (omega (arith, cp)) here in
      let at_end = get-ok n.pointers (order - 1) (omega (arith, cp, ck)) in
      let (count, file) = leaf_and_rest cnt n [] out in
      let plain : out ++ bytes shown (leaf_entries n) ++ [] ≡ out ++ bytes shown (leaf_entries n) =
        append-nil (out ++ bytes shown (leaf_entries n)) in
      let mod_twice : (cnt + n.num_keys) % word ≡ ((cnt + n.num_keys) % word + 0) % word =
        omega arith in
      rw (load-ok s.trees p n ne cell, run, at_end, to_next)
        (ap₂ (λ a b. ok (a, b) s) (mod_twice ∙ count) (sym plain ∙ file))
  put_leaves-bytes order (suc rounds) cnt p n ((p', n') ∷ ls) out c h each =
      let ((ne, cell, is_leaf, ck, cp, small), to_next, rest) = c in
      let ls' : Leaves = (p', n') ∷ ls in
      let (here, later) = Each-append Puts (leaf_entries n) (all_entries ls') each in
      let run = put_entries-bytes n n.num_keys 0 out (omega (arith, ck)) (omega (arith, cp)) here in
      let at_end = get-ok n.pointers (order - 1) (omega (arith, cp, ck)) in
      let (count, file) = leaf_and_rest cnt n (all_entries ls') out in
      let go_on =
        put_leaves-bytes order rounds ((cnt + n.num_keys) % word) p' n' ls
          (out ++ bytes shown (leaf_entries n)) rest (omega arith) later in
      rw (load-ok s.trees p n ne cell, run, at_end, to_next, ne→== p' null rest.0.0)
        (go_on ∙ ap₂ (λ a b. ok (a, b) s) count file)

  -- A stored tree whose count of keys is not 0 is written as the header and its entries in order;
  -- the number of entries comes back, as an `unsigned int`, and the store stays as it is. As many
  -- rounds as levels and as leaves are enough.
  pub write_tree-bytes :
      (rounds : ℕ) (fname r : List ℕ) (btree : Btree) (t : Tree) (up : Ptr)
      → Stored s.trees btree.order up null t
      → btree.root ≡ root t
      → btree.kcnt ≢ 0
      → height t ≤ rounds
      → length (leaves t) ≤ rounds
      → IsText fname
      → Each Puts (entries t)
      → write_tree put rounds true (fname ++ 0 ∷ r) btree s
        ≡ ok (length (entries t) % word, some (header fname ++ bytes shown (entries t))) s
  unfolding write_tree
  write_tree-bytes rounds fname r btree t up st at_root full deep many is_text each =
      let top = fio_write_header-append [] fname r is_text in
      let walk = leftmost-first_leaf s.trees btree.order up null t rounds st deep in
      let chain = leaves-Chain s.trees btree.order up null t st in
      let (p, n, ls, parts, at_first) = leaves-cons t in
      let chain' : Chain s.trees btree.order null ((p, n) ∷ ls) =
        subst (λ x. Chain s.trees btree.order null x) parts chain in
      let same : all_entries ((p, n) ∷ ls) ≡ entries t =
        ap all_entries (sym parts) ∙ all_entries-leaves t in
      let each' : Each Puts (all_entries ((p, n) ∷ ls)) =
        subst (λ x. Each Puts x) (sym same) each in
      let count = ap length parts in
      let run =
        put_leaves-bytes btree.order rounds 0 p n ls (header fname) chain' (omega (arith, count))
          each' in
      let plus_zero : 0 + length (entries t) ≡ length (entries t) = omega arith in
      rw
        (
          top,
          at_root,
          ne→== (root t) null (root-ne_null s.trees btree.order up null t st),
          walk,
          ne→== btree.kcnt 0 full,
          at_first,
          run,
          same,
          plus_zero,
        )
        refl
