-- ===== src/Dictionary/Runs.antt =====
-- Runs of btree/tw1.c: a key of numbers as a sentence.
use linux_kernel_struct.Common.{
  ◌++◌, replicate, ◌+◌, ◌≡◌, refl, true, false, none, some, [], ◌∷◌, if◌then◌else◌, ◌==◌,
}
use Prim.Native.Nat.{compare}
use linux_kernel_struct.Memory.{load, null, write, Returns}
use linux_kernel_struct.Bpt.{Node5, Btree, Env}
use linux_kernel_struct.Store.{tw1_compare_int, uint_at, set_uint, text_at, Store}
use linux_kernel_struct.Ustr.Compare.{token}
use linux_kernel_struct.Ustr.Number.{digits_value, str_to_uint}
use linux_kernel_struct.Ustr.{a_lower, a_upper, str_copy, str_cat, is_digit}
use linux_kernel_struct.Bpt.Find.{first_key, descend, bpt_find_leaf, bpt_search}
use linux_kernel_struct.Dictionary.Sentence.{change_first, cat_word, words_loop, tw1_trans_key_data}

abbrev env : Env
env = record { compare = compare; uninit = λ _. 0 }

-- The numbers 0 and 1 at 7 and 8, of the words at 1 and 2.
abbrev numbers : Node5
numbers = record {
  parent = null;
  is_leaf = true;
  num_keys = 2;
  pointers = record { cap = 4; at = λ i. if i == 0 then 1 else if i == 1 then 2 else 0 };
  keys = record { cap = 3; at = λ i. i + 7 };
  next = null;
}

-- "ab" and "c", and the key "1_0_5_" at 3; 9 is on the stack.
abbrev store : Store
store = record {
  trees = record { cells = write (λ _. none) 3 (some numbers); blocks = λ _. false; supply = [] };
  queues = record { cells = λ _. none; blocks = λ _. false; supply = [] };
  texts =
      write (write (write (λ _. none) 1 (some (97 ∷ 98 ∷ 0 ∷ []))) 2 (some (99 ∷ 0 ∷ []))) 3
        (some (49 ∷ 95 ∷ 48 ∷ 95 ∷ 53 ∷ 95 ∷ 0 ∷ []));
  uints = write (write (write (λ _. none) 7 (some 0)) 8 (some 1)) 9 (some 0);
  supply = [];
}

abbrev wi : Btree
wi = record { root = 3; order = 4; kno = 2; kcnt = 2; samek = false }

-- " C ab ~.", the line's end and zeros.
sentence_runs :
    Returns
      (λ r s.
        (r.0 ≡ 2)
        × (r.1 ≡ some ((32 ∷ 67 ∷ 32 ∷ 97 ∷ 98 ∷ 32 ∷ 126 ∷ 46 ∷ 10 ∷ []) ++ replicate 991 0)))
      (tw1_trans_key_data env 1 wi 3 0 9 store)
unfolding tw1_trans_key_data words_loop cat_word change_first write text_at set_uint uint_at load
    token str_to_uint digits_value is_digit str_cat str_copy a_upper a_lower bpt_search
    bpt_find_leaf descend first_key tw1_compare_int
sentence_runs = (refl, refl)
