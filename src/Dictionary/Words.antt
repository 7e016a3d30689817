-- ===== src/Dictionary/Words.antt =====
-- What _tw1_insert_to_btree and tw1_drop_word_run of btree/tw1.c do on their branches.
use linux_kernel_struct.Common.{
  arith, ◌==◌, Bool-cases, eq→==, ne→==, ℕ, ◌≤◌, ◌≡◌, refl, ◌≢◌, ◌⊎◌, inl, inr, Bool, false, List,
  [], ◌∷◌, ◌++◌, none, some,
}
use linux_kernel_struct.Memory.{Ptr, null, ok, fault}
use linux_kernel_struct.Queue.{Queue}
use linux_kernel_struct.Bpt.{Btree, Env, is_eq}
use linux_kernel_struct.Bpt.Tree.{
  leaf_of, Tree, root, entries, height, Stored, Ordered, IsTotalOrder, find,
}
use linux_kernel_struct.Store.{copy_text, malloc_text, Store, by_text, text_at, uint_at}
use linux_kernel_struct.Dictionary.Lookup.{bpt_find_leaf_key-find}
use linux_kernel_struct.Memory.Laws.{load-ok}
use linux_kernel_struct.Ustr.Compare.Strings.{IsText-NoEnd, IsText}
use linux_kernel_struct.Arrays.Loops.{get-ok}
use linux_kernel_struct.Ustr.Strings.{str_len_lem}
use linux_kernel_struct.Dictionary.{
  copy_text, malloc_text, insert_word, uifail, tw1_insert_to_btree, tw1_drop_word_run,
}

-- The tree of the store that words are looked up in: it is ordered by the words, and has no equal
-- keys.
pub record IsIndex (u : Env) (s : Store) (rounds : ℕ) (btree : Btree) (t : Tree) : Type 0 where
  pub order : IsTotalOrder (by_text u s)
  pub stored : Stored s.trees btree.order null null t
  pub ordered : Ordered (by_text u s) t
  pub at_root : btree.root ≡ root t
  pub unique : btree.samek ≡ false
  pub enough : height t ≤ rounds

abbrev pub same_word : Env → Store → Ptr → Ptr → Bool
same_word u s key x = is_eq ((by_text u s).compare key x)

-- Inserting a word gives UIFAIL and changes nothing where the word is empty, and where the trees
-- disagree about the next number.
pub tw1_insert_to_btree-uifail :
    (u : Env) (rounds : ℕ) (ws wi : Btree) (in_word : Ptr) (q : Queue) (s : Store) (c : ℕ)
    (w : List ℕ)
    → in_word ≢ null
    → s.texts in_word ≡ some (c ∷ w)
    → (c ≡ 0) ⊎ (ws.kno ≢ wi.kno)
    → tw1_insert_to_btree u rounds ws wi in_word q s ≡ ok (uifail, ws, wi, q) s
unfolding tw1_insert_to_btree text_at
tw1_insert_to_btree-uifail u rounds ws wi in_word q s c w ne text (inl e) =
    rw (ne→== in_word null ne, text, eq→== c 0 e) refl
tw1_insert_to_btree-uifail u rounds ws wi in_word q s c w ne text (inr d) =
    elim (Bool-cases (c == 0)) [
      | inl e ↦ rw (ne→== in_word null ne, text, e) refl
      | inr e ↦ rw (ne→== in_word null ne, text, e, ne→== ws.kno wi.kno d) refl
    ]

-- Inserting a word that is there gives its number, and changes nothing.
pub tw1_insert_to_btree-found :
    (u : Env) (rounds : ℕ) (ws wi : Btree) (in_word : Ptr) (q : Queue) (s : Store) (c : ℕ)
    (w : List ℕ) (t : Tree) (d v : ℕ)
    → IsIndex u s rounds ws t
    → in_word ≢ null
    → s.texts in_word ≡ some (c ∷ w)
    → c ≢ 0
    → ws.kno ≡ wi.kno
    → find (same_word u s in_word) (entries t) ≡ some d
    → d ≢ null
    → s.uints d ≡ some v
    → tw1_insert_to_btree u rounds ws wi in_word q s ≡ ok (v, ws, wi, q) s
unfolding tw1_insert_to_btree text_at uint_at
tw1_insert_to_btree-found u rounds ws wi in_word q s c w t d v is ne text full same there dn
      number =
    let (i, p, run, l) =
      (bpt_find_leaf_key-find (by_text u s) is.order rounds ws in_word s.trees t null null is.stored
          is.ordered is.at_root is.unique is.enough).1
        d there in
    rw
      (
        ne→== in_word null ne,
        text,
        ne→== c 0 full,
        eq→== ws.kno wi.kno same,
        run,
        load-ok s.trees p l.node l.ne_null l.cell,
        get-ok l.node.pointers i l.in_pointers,
        l.is_data,
        ne→== d null dn,
        number,
      )
      refl

-- Deleting a word that is not there gives 0, which is the number of a word too, with `deleted`
-- false, and changes nothing.
pub tw1_drop_word_run-missing :
    (u : Env) (rounds : ℕ) (ws wi : Btree) (key : Ptr) (s : Store) (t : Tree)
    → IsIndex u s rounds ws t
    → find (same_word u s key) (entries t) ≡ none
    → tw1_drop_word_run u rounds ws wi key s ≡ ok (0, false, ws, wi) s
unfolding tw1_drop_word_run
tw1_drop_word_run-missing u rounds ws wi key s t is missing =
    let run =
      (bpt_find_leaf_key-find (by_text u s) is.order rounds ws key s.trees t null null is.stored
          is.ordered is.at_root is.unique is.enough).0
        missing in
    rw run refl

insert_word-fault :
    (u : Env) (rounds : ℕ) (ws wi : Btree) (in_word leaf : Ptr) (q : Queue) (s : Store)
    (w r : List ℕ)
    → in_word ≢ null
    → IsText w
    → s.texts in_word ≡ some (w ++ 0 ∷ r)
    → s.supply ≡ []
    → insert_word u rounds ws wi in_word q leaf s ≡ fault
unfolding insert_word text_at malloc_text copy_text
insert_word-fault u rounds ws wi in_word leaf q s w r ne word_text text empty =
    rw (ne→== in_word null ne, text, str_len_lem w r (IsText-NoEnd w word_text), empty) refl

-- A new word for which malloc gives no memory is copied to NULL: the report of the failure does not
-- leave the function.
pub tw1_insert_to_btree-fault :
    (u : Env) (rounds : ℕ) (ws wi : Btree) (in_word : Ptr) (q : Queue) (s : Store) (c : ℕ)
    (w r : List ℕ) (t : Tree)
    → IsIndex u s rounds ws t
    → in_word ≢ null
    → IsText (c ∷ w)
    → s.texts in_word ≡ some ((c ∷ w) ++ 0 ∷ r)
    → ws.kno ≡ wi.kno
    → find (same_word u s in_word) (entries t) ≡ none
    → s.supply ≡ []
    → tw1_insert_to_btree u rounds ws wi in_word q s ≡ fault
unfolding tw1_insert_to_btree text_at
tw1_insert_to_btree-fault u rounds ws wi in_word q s c w r t is ne word_text text same missing
      empty =
    let run =
      (bpt_find_leaf_key-find (by_text u s) is.order rounds ws in_word s.trees t null null is.stored
          is.ordered is.at_root is.unique is.enough).0
        missing in
    rw
      (
        ne→== in_word null ne,
        text,
        ne→== c 0 (λ e. omega (arith, word_text.0)),
        eq→== ws.kno wi.kno same,
        run,
      )
      (insert_word-fault u rounds ws wi in_word (leaf_of (by_text u s) in_word t).0 q s (c ∷ w) r ne
        word_text text empty)
