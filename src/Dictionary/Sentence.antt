-- ===== src/Dictionary/Sentence.antt =====
-- Keys of numbers turned into sentences: _tw1_trans_key_data of
-- btree/tw1.c. What they print, and push on the stack of sentences, is the string that comes back.
use linux_kernel_struct.Common.{
  ℕ, zero, suc, ◌+◌, ◌-◌, Option, none, some, List, [], ◌∷◌, ◌==◌, ltb, if◌then◌else◌, length,
  replicate,
}
use linux_kernel_struct.Memory.{write, Ptr, null, ok, out_of_fuel, pure, ◌>>=◌, ◌>>◌}
use linux_kernel_struct.Ustr.{head, a_lower, a_upper, str_cat, put}
use linux_kernel_struct.Ustr.Compare.{token}
use linux_kernel_struct.Ustr.Number.{str_to_uint}
use linux_kernel_struct.Bpt.{Btree, Env}
use linux_kernel_struct.Bpt.Find.{bpt_search}
use linux_kernel_struct.Store.{StoreCmd, lift, text_at, set_uint, by_uint, with_env}

-- *(char*)p = f (*(char*)p);
unfoldable pub change_first : (ℕ → ℕ) → Ptr → StoreCmd (Unit {0})
change_first f p = do
  t ← text_at p
  c ← lift (head t)
  t' ← lift (put t 0 (f c))
  (λ s. ok tt (record s { texts = write s.texts p (some t') }))

-- The word at `p` behind `buf`, the first one with a capital for as long as it is copied.
unfoldable pub cat_word : ℕ → Ptr → List ℕ → StoreCmd (List ℕ)
cat_word cnt p buf =
    if cnt == 1
    then (do
      change_first a_upper p
      t ← text_at p
      b ← lift (str_cat buf t)
      change_first a_lower p
      pure b)
    else (do t ← text_at p; lift (str_cat buf t))

-- The loop over the numbers of a key, of which the first `kcnt` are left out; `pkey` is the address
-- that alloca gives. How many words were found, and the buffer.
unfoldable pub words_loop :
    Env → ℕ → Btree → Ptr → ℕ → List ℕ → ℕ → List ℕ → ℕ → StoreCmd (ℕ × List ℕ)
words_loop u depth wi pkey zero ckeys kcnt buf cnt = λ _. out_of_fuel
words_loop u depth wi pkey (suc rounds) ckeys kcnt buf cnt = do
  c ← lift (head ckeys)
  if c == 0 then pure (cnt, buf) else do
    (adigit, rest) ← lift (token 80 ckeys)
    if ltb 0 kcnt then words_loop u depth wi pkey rounds rest (kcnt - 1) buf cnt else do
      b1 ← lift (str_cat buf (32 ∷ 0 ∷ []))
      n ← lift (str_to_uint adigit)
      set_uint pkey n
      found ← with_env (by_uint u) (λ e. bpt_search e depth wi pkey)
      if found == null
          then (do
            b2 ← lift (str_cat b1 (126 ∷ 0 ∷ []))
            words_loop u depth wi pkey rounds rest 0 b2 cnt)
          else (do
            b2 ← cat_word (cnt + 1) found b1
            words_loop u depth wi pkey rounds rest 0 b2 (cnt + 1))

-- The number of words, and the sentence, if there is one.
unfoldable pub tw1_trans_key_data : Env → ℕ → Btree → Ptr → ℕ → Ptr → StoreCmd (ℕ × Option (List ℕ))
tw1_trans_key_data u depth wi keys kcnt pkey = if pkey == null then pure (0, none) else do
  ckeys ← text_at keys
  (cnt, buf) ← words_loop u depth wi pkey (suc (length ckeys)) ckeys kcnt (replicate 1000 0) 0
  if cnt == 0
      then pure (0, none)
      else do b ← lift (str_cat buf (46 ∷ 10 ∷ 0 ∷ [])); pure (cnt, some b)
