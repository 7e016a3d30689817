-- ===== src/Ustr/Reverse.antt =====
-- str_reverse and the loop that swaps the ends of a string, of btree/ustr.c.
use linux_kernel_struct.Common.{
  ℕ, zero, suc, ◌+◌, ◌-◌, ◌≡◌, ◌≤◌, refl, sym, ap, ◌∙◌, some, List, [], ◌∷◌, ◌++◌, get_elem?,
  length, arith, append_assoc, length-append, lt→ltb, le→ltb,
}
use mathlib.Core.List.{reverse, reverse-cons, reverse-append}
use mathlib.Core.Path.{subst}
use linux_kernel_struct.Ustr.{put, reverse_loop, str_reverse}
use linux_kernel_struct.Ustr.Strings.{NoEnd, str_len_lem}

pub get-at : (pre post : List ℕ) (c : ℕ) → get_elem? (pre ++ c ∷ post) (length pre) ≡ some c
get-at [] post c = refl
get-at (x ∷ pre) post c = get-at pre post c

pub put-at :
    (pre post : List ℕ) (c d : ℕ) → put (pre ++ c ∷ post) (length pre) d ≡ some (pre ++ d ∷ post)
put-at [] post c d = refl
put-at (x ∷ pre) post c d = rw (put-at pre post c d) refl

-- The last entry apart.
last_apart : (x : ℕ) (s : List ℕ) → (mid : List ℕ) × (z : ℕ) × (x ∷ s ≡ mid ++ z ∷ [])
last_apart x [] = ([], x, refl)
last_apart x (y ∷ s) = let (mid, z, e) = last_apart y s in (x ∷ mid, z, ap (λ t. x ∷ t) e)

-- One round swaps the ends.
reverse_loop-suc :
    (k i : ℕ) (pre mid post : List ℕ) (x z : ℕ)
    → i ≡ length pre + length mid + 1
    → reverse_loop (suc k) i (length pre) (pre ++ (x ∷ (mid ++ z ∷ []) ++ post))
      ≡ reverse_loop k (i - 1) (length pre + 1) (pre ++ (z ∷ mid ++ x ∷ post))
unfolding reverse_loop
reverse_loop-suc k i pre mid post x z e =
    let L : List ℕ = pre ++ (x ∷ (mid ++ z ∷ []) ++ post) in
    let front = pre ++ x ∷ mid in
    let view : L ≡ front ++ z ∷ post =
      ap (λ t. pre ++ x ∷ t) (append_assoc mid (z ∷ []) post)
      ∙ sym (append_assoc pre (x ∷ mid) (z ∷ post)) in
    let e' : length front ≡ i = omega (arith, length-append pre (x ∷ mid)) in
    let g1 : get_elem? L i ≡ some z = rw (view, ← e') (get-at front post z) in
    let p1 : put L i x ≡ some (pre ++ (x ∷ mid ++ x ∷ post)) =
      rw (view, ← e') (put-at front post z x ∙ ap some (append_assoc pre (x ∷ mid) (x ∷ post))) in
    let p2 = put-at pre (mid ++ x ∷ post) x z in
    rw (lt→ltb (length pre) i (omega arith), g1, get-at pre (mid ++ z ∷ [] ++ post) x, p1, p2) refl

-- The swaps between `j`, behind `pre`, and `i`, before `post`, reverse what is between.
pub reverse_loop_lem :
    (k i : ℕ) (pre mid post : List ℕ)
    → length mid ≤ k
    → i ≡ length pre + length mid - 1
    → reverse_loop k i (length pre) (pre ++ (mid ++ post)) ≡ some (pre ++ (reverse mid ++ post))
unfolding reverse_loop
reverse_loop_lem zero i pre [] post h e = refl
reverse_loop_lem zero i pre (x ∷ mid) post h e = absurd (omega arith)
reverse_loop_lem (suc k) i pre [] post h e = rw (le→ltb (length pre) i (omega arith)) refl
reverse_loop_lem (suc k) i pre (x ∷ []) post h e = rw (le→ltb (length pre) i (omega arith)) refl
reverse_loop_lem (suc k) i pre (x ∷ y ∷ s) post h e =
    let (mid, z, view) = last_apart y s in
    let size : length (y ∷ s) ≡ length mid + 1 = ap length view ∙ length-append mid (z ∷ []) in
    let front = pre ++ z ∷ [] in
    let lf : length front ≡ length pre + 1 = length-append pre (z ∷ []) in
    let rest = reverse_loop_lem k (i - 1) front mid (x ∷ post) (omega arith) (omega arith) in
    let rev : reverse (x ∷ mid ++ z ∷ []) ≡ z ∷ reverse mid ++ x ∷ [] =
      reverse-append (x ∷ mid) (z ∷ []) ∙ ap (λ t. z ∷ t) (reverse-cons x mid) in
    let goal : List ℕ → Type 0 = λ t.
      reverse_loop (suc k) i (length pre) (pre ++ (x ∷ t ++ post))
      ≡ some (pre ++ (reverse (x ∷ t) ++ post)) in
    subst goal (sym view) (
      reverse_loop-suc k i pre mid post x z (omega arith)
      ∙ subst
          (λ n.
            reverse_loop k (i - 1) n (pre ++ (z ∷ mid ++ x ∷ post))
            ≡ some (front ++ (reverse mid ++ x ∷ post)))
          lf
          (subst
            (λ t.
              reverse_loop k (i - 1) (length front) t ≡ some (front ++ (reverse mid ++ x ∷ post)))
            (append_assoc pre (z ∷ []) (mid ++ x ∷ post)) rest)
      ∙ ap some (
          append_assoc pre (z ∷ []) (reverse mid ++ x ∷ post)
          ∙ ap (λ t. pre ++ z ∷ t) (sym (append_assoc (reverse mid) (x ∷ []) post))
          ∙ ap (λ t. pre ++ (t ++ post)) (sym rev)))

-- str_reverse reverses a string, and nothing behind it.
pub str_reverse_lem :
    (s rest : List ℕ) → NoEnd s → str_reverse (s ++ 0 ∷ rest) ≡ some (reverse s ++ 0 ∷ rest)
unfolding str_reverse
str_reverse_lem s rest h =
    rw (str_len_lem s rest h)
      (reverse_loop_lem (length s) (length s - 1) [] s (0 ∷ rest) (omega arith) (omega arith))
