-- ===== src/Dictionary/Update.antt =====
-- Words deleted by their text, changed and corrected: tw1_drop_word and tw1_revision of btree/tw1.c,
-- _tw2_word_update_run of btree/tw2.c.
use linux_kernel_struct.Common.{
  ℕ, zero, suc, ◌+◌, Bool, true, false, Option, none, some, List, [], ◌∷◌, ◌++◌, ◌==◌, ◌||◌,
  if◌then◌else◌, not, length, replicate, get_elem?,
}
use linux_kernel_struct.Memory.{Ptr, null, ok, out_of_fuel, pure, ◌>>=◌, ◌>>◌, write}
use linux_kernel_struct.Ustr.{head, str_len, put, is_whitespace}
use linux_kernel_struct.Queue.{Queue, que_enqueue}
use linux_kernel_struct.Bpt.{Btree, Env}
use linux_kernel_struct.Bpt.Find.{bpt_find_leaf_key, bpt_search}
use linux_kernel_struct.Store.{
  StoreCmd, on_queues, lift, text_at, uint_at, malloc_text, malloc_uint, copy_text, set_uint,
  free_text, free_uint, by_text, by_uint, with_env,
}
use linux_kernel_struct.MemberKey.{type_loop}
use linux_kernel_struct.Dictionary.{uifail, flag_update, is_at, inserted, tw1_drop_word_run}

-- A failed malloc does not reach the test of `err`: its NULL is written to before.
unfoldable pub tw2_word_update_run :
    Env → ℕ → Btree → Btree → Ptr → ℕ → StoreCmd (ℕ × Btree × Btree)
tw2_word_update_run u rounds ws wi in_word kno =
    if not (ws.kno == wi.kno) then pure (uifail, ws, wi) else do
      (idx, leaf_ps) ← with_env (by_text u) (λ e. bpt_find_leaf_key e rounds ws in_word)
      if is_at idx then pure (uifail, ws, wi) else do
        w ← text_at in_word
        k ← lift (str_len w)
        pword ← malloc_text (k + 1)
        copy_text pword w
        pno ← malloc_uint
        set_uint pno kno
        (idx2, leaf_pi) ← with_env (by_uint u) (λ e. bpt_find_leaf_key e rounds wi pno)
        if is_at idx2 then (do free_text pword; free_uint pno; pure (uifail, ws, wi)) else (do
          ws' ← inserted (by_text u) rounds ws leaf_ps pword pno flag_update
          wi' ← inserted (by_uint u) rounds wi leaf_pi pno pword flag_update
          n ← uint_at pno
          pure (n, ws', wi'))

-- Whether `skey` was replaced by its correction.
unfoldable pub tw1_revision : Env → ℕ → Btree → Ptr → StoreCmd Bool
tw1_revision u rounds rs skey = do
  found ← with_env (by_text u) (λ e. bpt_search e rounds rs skey)
  if found == null then pure false else do t ← text_at found; copy_text skey t; pure true

-- while (um_whites (*pstr)) pstr++;
unfoldable pub skip_whites : List ℕ → Option (List ℕ)
skip_whites [] = none
skip_whites (c ∷ s) = if is_whitespace c then skip_whites s else some (c ∷ s)

-- while (!is_whitespace (*pstr) && *pstr && i < ASIZE-2) aword[i++] = *pstr++;  with `room` chars
-- left: the chars, and the rest.
unfoldable pub take_word : ℕ → List ℕ → Option (List ℕ × List ℕ)
take_word room [] = none
take_word zero (c ∷ s) = some ([], c ∷ s)
take_word (suc room) (c ∷ s) =
    if is_whitespace c || (c == 0)
    then some ([], c ∷ s)
    else elim (take_word room s) [ none ↦ none | some (w, s') ↦ some (c ∷ w, s') ]

-- What the loop over the words keeps.
pub record Dropping : Type 0 where
  pub ws : Btree
  pub wi : Btree
  pub queue : Queue
  pub deleted : Bool

-- The loop over the words: `aword` is the address of the buffer on the stack. False, in the first
-- place, where malloc fails.
unfoldable pub drop_words : Env → ℕ → Ptr → ℕ → List ℕ → Dropping → StoreCmd (Bool × Dropping)
drop_words u depth aword zero pstr f = λ _. out_of_fuel
drop_words u depth aword (suc rounds) pstr f = do
  c ← lift (head pstr)
  if c == 0 then pure (true, f) else do
    (w, rest) ← lift (take_word 78 pstr)
    (λ s. ok tt (record s { texts = write s.texts aword (some (w ++ 0 ∷ [])) }))
    (kno, deleted, ws, wi) ← tw1_drop_word_run u depth f.ws f.wi aword
    let f1 : Dropping = record f { ws = ws; wi = wi; deleted = deleted }
    if deleted
        then (do
          pno ← malloc_uint
          if pno == null then pure (false, f1) else do
            set_uint pno kno
            (done, q) ← on_queues (que_enqueue f1.queue pno)
            rest' ← lift (skip_whites rest)
            drop_words u depth aword rounds rest' (record f1 { queue = q }))
        else (do rest' ← lift (skip_whites rest); drop_words u depth aword rounds rest' f1)

-- A full stop at the end of the line is cut off.
unfoldable pub end_line : ℕ → List ℕ → Option (List ℕ)
end_line zero words = some words
end_line (suc i) words = elim (get_elem? words i) [
  | none ↦ none
  | some c ↦ put words (if c == 46 then i else suc i) 0
]

-- `typed` is what getchar reads. The result tells whether the last of the words was deleted.
unfoldable pub tw1_drop_word :
    Env → ℕ → Ptr → List ℕ → Btree → Btree → Queue → StoreCmd (Bool × Dropping)
tw1_drop_word u depth aword typed ws wi queue =
    let start : Dropping = record { ws = ws; wi = wi; queue = queue; deleted = false } in
    if ws.root == null then pure (false, start) else do
      (i, words) ← lift (type_loop 998 0 typed (replicate 1000 0))
      line ← lift (end_line i words)
      pstr ← lift (skip_whites line)
      (done, f) ← drop_words u depth aword (suc (length pstr)) pstr start
      pure (if done then f.deleted else false, f)
