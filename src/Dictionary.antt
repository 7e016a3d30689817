-- ===== src/Dictionary.antt =====
-- btree/tw1.c: words and their numbers in two trees, `ws` from words to numbers and `wi` back, and
-- sentences as keys of numbers in two trees of translations. `u` is what the code takes from outside.
mod Tests
mod Runs
pub mod Update
pub mod Sentence
pub mod Lookup
pub mod Words
use linux_kernel_struct.Common.{
  ◌-◌, ℕ, ◌+◌, ◌%◌, Bool, true, false, Option, none, some, ◌==◌, ◌||◌, if◌then◌else◌, not,
}
use linux_kernel_struct.Memory.{Ptr, null, pure, ◌>>=◌, ◌>>◌, load}
use linux_kernel_struct.Arrays.{get}
use linux_kernel_struct.Int32.{word, dec}
use linux_kernel_struct.Ustr.{head, str_len}
use linux_kernel_struct.Queue.{Queue, que_dequeue}
use linux_kernel_struct.Bpt.{Btree, Env}
use linux_kernel_struct.Bpt.Find.{
  Found, at, no_key, no_leaf, bpt_find_leaf, bpt_find_leaf_key, bpt_find_leaf_key_trans,
}
use linux_kernel_struct.Bpt.Insert.{bpt_insert, flag_insert}
use linux_kernel_struct.Bpt.Delete.{bpt_delete_entry}
use linux_kernel_struct.Store.{
  Store, StoreCmd, on_trees, on_queues, lift, text_at, uint_at, malloc_text, malloc_uint, copy_text,
  set_uint, free_text, free_uint, by_text, by_uint, by_key, with_env,
}

-- UIFAIL is ~0.
abbrev pub uifail : ℕ
uifail = word - 1

abbrev pub flag_update : ℕ
flag_update = 3

abbrev pub is_at : Found → Bool
is_at (at i) = true
is_at no_key = false
is_at no_leaf = false

-- The insertion in one tree, whose root the caller sets.
abbrev pub inserted : (Store → Env) → ℕ → Btree → Ptr → Ptr → Ptr → ℕ → StoreCmd Btree
inserted env rounds btree leaf key item flag = do
  (b, root) ← with_env env (λ e. bpt_insert e rounds btree leaf key item flag)
  pure (record b { root = root })

abbrev pub deleted : (Store → Env) → ℕ → Btree → Ptr → Ptr → Ptr → Bool → StoreCmd Btree
deleted env rounds btree leaf key item by_address = do
  (b, root) ← with_env env (λ e. bpt_delete_entry e rounds btree leaf key item by_address)
  pure (record b { root = root; kcnt = dec b.kcnt })

-- The result of the insertion of a word: its number, or UIFAIL, the two trees and the queue.
abbrev pub WordResult : Type 0
WordResult = ℕ × Btree × Btree × Queue

-- The part of _tw1_insert_to_btree for a word that is not there: `leaf_ps` is its leaf.
unfoldable pub insert_word : Env → ℕ → Btree → Btree → Ptr → Queue → Ptr → StoreCmd WordResult
insert_word u rounds ws wi in_word q leaf_ps = do
  w ← text_at in_word
  k ← lift (str_len w)
  pword ← malloc_text (k + 1)
  copy_text pword w
  allocated ← malloc_uint
  (data_out, q') ← on_queues (que_dequeue q)
  let is_qk : Bool = elim data_out [ none ↦ false | some p ↦ true ]
  let pno : Ptr = elim data_out [ none ↦ allocated | some p ↦ p ]
  (if is_qk then pure tt else set_uint pno ws.kno)
  let exceeds : Bool = if is_qk then false else (ws.kno + 1) % word == uifail
  (idx, leaf_pi) ← with_env (by_uint u) (λ e. bpt_find_leaf_key e rounds wi pno)
  if (allocated == null) || exceeds || is_at idx
      then (do free_text pword; free_uint pno; pure (uifail, ws, wi, q'))
      else (do
        let flag : ℕ = if is_qk then flag_update else flag_insert
        ws' ← inserted (by_text u) rounds ws leaf_ps pword pno flag
        wi' ← inserted (by_uint u) rounds wi leaf_pi pno pword flag
        n ← uint_at pno
        pure (n, ws', wi', q'))

unfoldable pub tw1_insert_to_btree : Env → ℕ → Btree → Btree → Ptr → Queue → StoreCmd WordResult
tw1_insert_to_btree u rounds ws wi in_word q = do
  w ← text_at in_word
  c ← lift (head w)
  if (c == 0) || not (ws.kno == wi.kno) then pure (uifail, ws, wi, q) else do
    (idx, leaf_ps) ← with_env (by_text u) (λ e. bpt_find_leaf_key e rounds ws in_word)
    elim idx [
      | at i ↦ do
        leaf ← on_trees (load leaf_ps)
        p ← lift (get leaf.pointers i)
        n ← uint_at p
        pure (n, ws, wi, q)
      | no_key ↦ insert_word u rounds ws wi in_word q leaf_ps
      | no_leaf ↦ insert_word u rounds ws wi in_word q leaf_ps
    ]

-- A new string with the chars of the one at `p`; NULL where malloc fails.
abbrev copied : Ptr → StoreCmd Ptr
copied p = do
  s ← text_at p
  k ← lift (str_len s)
  new ← malloc_text (k + 1)
  if new == null then pure null else do copy_text new s; pure new

unfoldable pub tw1_insert_to_btree_trans :
    Env → ℕ → Btree → Btree → Ptr → Ptr → StoreCmd (Bool × Btree × Btree)
tw1_insert_to_btree_trans u rounds pts1 pts2 keys1 keys2 = do
  (idx, leaf) ← with_env (by_key u) (λ e. bpt_find_leaf_key e rounds pts1 keys1)
  twice ←
      if is_at idx
      then (do
        (idx2, leaf2) ← with_env (by_key u) (λ e. bpt_find_leaf_key e rounds pts2 keys2)
        pure (is_at idx2))
      else pure false
  if twice then pure (false, pts1, pts2) else do
    pw1 ← copied keys1
    if pw1 == null then pure (false, pts1, pts2) else do
      pw2 ← copied keys2
      if pw2 == null then pure (false, pts1, pts2) else do
        pts1' ← inserted (by_key u) rounds pts1 leaf pw1 pw2 flag_insert
        leaf2 ← with_env (by_key u) (λ e. bpt_find_leaf e rounds pts2 pw2 e.compare)
        pts2' ← inserted (by_key u) rounds pts2 leaf2 pw2 pw1 flag_insert
        pure (true, pts1', pts2')

-- The number that comes back, what goes out through `deleted`, and the trees.
unfoldable pub tw1_drop_word_run :
    Env → ℕ → Btree → Btree → Ptr → StoreCmd (ℕ × Bool × Btree × Btree)
tw1_drop_word_run u rounds ws wi key = do
  (idx, leaf1) ← with_env (by_text u) (λ e. bpt_find_leaf_key e rounds ws key)
  elim idx [
    | at i ↦ do
      n ← on_trees (load leaf1)
      ptr1 ← lift (get n.keys i)
      ptr2 ← lift (get n.pointers i)
      pno ← uint_at ptr2
      (idx2, leaf2) ← with_env (by_uint u) (λ e. bpt_find_leaf_key e rounds wi ptr2)
      if is_at idx2
          then (do
            ws' ← deleted (by_text u) rounds ws leaf1 ptr1 ptr2 false
            wi' ← deleted (by_uint u) rounds wi leaf2 ptr2 ptr1 false
            free_text ptr1
            free_uint ptr2
            pure (pno, true, ws', wi'))
          else pure (uifail, false, ws, wi)
    | no_key ↦ pure (0, false, ws, wi)
    | no_leaf ↦ pure (0, false, ws, wi)
  ]

-- The entry `k` of a leaf of `pt1`, and the opposite one in `pt2`: true is 1, false is -1.
unfoldable pub tw1_delete_trans_key_run :
    Env → ℕ → Btree → Btree → Ptr → ℕ → StoreCmd (Bool × Btree × Btree)
tw1_delete_trans_key_run u rounds pt1 pt2 leaf k = do
  n ← on_trees (load leaf)
  ptr1 ← lift (get n.keys k)
  ptr2 ← lift (get n.pointers k)
  (idx, leaf2) ← with_env (by_key u) (λ e. bpt_find_leaf_key_trans e rounds pt2 ptr2 ptr1)
  if is_at idx
      then (do
        b1 ← deleted (by_key u) rounds pt1 leaf ptr1 ptr2 true
        b2 ← deleted (by_key u) rounds pt2 leaf2 ptr2 ptr1 true
        free_text ptr1
        free_text ptr2
        pure (true, record b1 { kno = dec b1.kno }, record b2 { kno = dec b2.kno }))
      else pure (false, pt1, pt2)
