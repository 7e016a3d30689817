-- ===== src/Bpt/Merge/Borrow.antt =====
-- The move of one entry between neighbours in btree/bpt3.c.
use linux_kernel_struct.Common.{
  ne→==, if◌then◌else◌, le→ltb, ℕ, zero, suc, ◌+◌, ◌-◌, ◌≤◌, ◌<◌, ◌≡◌, refl, sym, ap, ◌∙◌, true,
  Option, none, some, [], ◌∷◌, ◌++◌, arith,
}
use linux_kernel_struct.Arrays.{Arr, slice, shift_down, shift_up, put, get, updated, ◌>>=◌}
use linux_kernel_struct.Arrays.Loops.{open_steps, opened, get-ok, put-ok, shift_down_lem}
use linux_kernel_struct.Arrays.Slice.{slice-opened, slice-congr, slice-last_zero, slice-updated}
use linux_kernel_struct.Arrays.Copy.{slice-put}
use linux_kernel_struct.Bpt.{Node5}
use linux_kernel_struct.Bpt.Merge.{borrow_right, borrow_left, Borrowed}

-- All entries one place down.
down_lem :
    (r : ℕ) (a : Arr)
    → r < a.cap
    → (b : Arr) × (shift_down r 0 a ≡ some b)
      × (b.cap ≡ a.cap)
      × (slice b.at 0 r ≡ slice a.at 1 r)
      × ((k : ℕ) → k < r → b.at k ≡ a.at (k + 1))
down_lem r a h =
    let (b, e, c, f) = shift_down_lem r 0 a (omega arith) in
    (
      b,
      e,
      c,
      slice-congr b.at a.at 0 1 r (λ k l. ground (arith, f (0 + k))),
      λ k l. ground (arith, f k),
    )

-- A leaf takes the first entry of its right neighbour, whose new first key separates the two.
pub record LeafBorrowed (n m : Node5) (h : Borrowed) : Type 0 where
  pub left_keys :
      slice h.left.keys.at 0 h.left.num_keys ≡ slice n.keys.at 0 n.num_keys ++ m.keys.at 0 ∷ []
  pub left_items :
      slice h.left.pointers.at 0 h.left.num_keys
      ≡ slice n.pointers.at 0 n.num_keys ++ m.pointers.at 0 ∷ []
  pub right_keys :
      m.keys.at 0 ∷ slice h.right.keys.at 0 h.right.num_keys ≡ slice m.keys.at 0 m.num_keys
  pub right_items :
      m.pointers.at 0 ∷ slice h.right.pointers.at 0 h.right.num_keys
      ≡ slice m.pointers.at 0 m.num_keys
  pub separator : h.separator ≡ h.right.keys.at 0

-- A slice behind its first entry.
slice-rest :
    (f g : ℕ → ℕ) (n : ℕ)
    → 0 < n
    → ((k : ℕ) → k < n → g k ≡ f (k + 1))
    → f 0 ∷ slice g 0 (n - 1) ≡ slice f 0 n
slice-rest f g zero h e = absurd (omega arith)
slice-rest f g (suc n) h e =
    ap (λ t. f 0 ∷ slice g 0 t) (omega arith)
    ∙ ap (λ t. f 0 ∷ t) (slice-congr g f 0 (0 + 1) n (λ k l. ground (arith, e (0 + k))))

-- A leaf with room takes the first entry of a right neighbour whose array of keys is not full; the
-- neighbour keeps the others in order, and the separator is the neighbour's new first key.
pub borrow_right-LeafBorrowed :
    (n m : Node5) (kp : ℕ)
    → n.is_leaf ≡ true
    → n.num_keys < n.keys.cap
    → n.num_keys < n.pointers.cap
    → 0 < m.num_keys
    → m.num_keys < m.keys.cap
    → m.num_keys < m.pointers.cap
    → (h : Borrowed) × (borrow_right n m kp ≡ some h) × LeafBorrowed n m h
unfolding borrow_right
borrow_right-LeafBorrowed n m kp leaf nk np pos mk mp =
    let k0 = m.keys.at 0 in
    let p0 = m.pointers.at 0 in
    let (a, ea, ca, sa, fa) = down_lem m.num_keys m.keys mk in
    let (b, eb, cb, sb, fb) = down_lem m.num_keys m.pointers mp in
    rw
      (
        get-ok m.keys 0 (omega arith),
        get-ok m.pointers 0 (omega arith),
        leaf,
        put-ok n.keys n.num_keys k0 nk,
        put-ok n.pointers n.num_keys p0 np,
        ea,
        eb,
        get-ok a 0 (omega arith),
      )
      (
        record {
          left = record n {
            is_leaf = true;
            keys = record { cap = n.keys.cap; at = updated n.keys.at n.num_keys k0 };
            pointers = record { cap = n.pointers.cap; at = updated n.pointers.at n.num_keys p0 };
            num_keys = n.num_keys + 1;
          };
          right = record m { keys = a; pointers = b; num_keys = m.num_keys - 1 };
          separator = a.at 0;
        },
        refl,
        record {
          left_keys = slice-updated n.keys.at n.num_keys k0;
          left_items = slice-updated n.pointers.at n.num_keys p0;
          right_keys = slice-rest m.keys.at a.at m.num_keys pos fa;
          right_items = slice-rest m.pointers.at b.at m.num_keys pos fb;
          separator = refl;
        },
      )

bind-none :
    {A B : Type 0} (o : Option A) (f : A → Option B) → ((a : A) → f a ≡ none) → (o >>= f) ≡ none
bind-none none f h = refl
bind-none (some a) f h = h a

-- The last round of a shift reads one entry past those that it moves.
shift_down-none : (r i : ℕ) (a : Arr) → 0 < r → i + r ≡ a.cap → shift_down r i a ≡ none
unfolding shift_down
shift_down-none zero i a h e = absurd (omega arith)
shift_down-none (suc zero) i a h e = rw (le→ltb (i + 1) a.cap (omega arith))
shift_down-none (suc (suc r)) i a h e =
    rw (get-ok a (i + 1) (omega arith), put-ok a i (a.at (i + 1)) (omega arith))
      (shift_down-none (suc r) (i + 1) (record { cap = a.cap; at = updated a.at i (a.at (i + 1)) })
        (omega arith) (omega arith))

-- Where the right neighbour is full, the shift of its keys reads past the end of their array, at
-- leaves and at internal nodes alike.
pub borrow_right-none :
    (n m : Node5) (kp : ℕ) → 0 < m.num_keys → m.num_keys ≡ m.keys.cap → borrow_right n m kp ≡ none
unfolding borrow_right
borrow_right-none n m kp pos full = bind-none (get m.keys 0) _ λ first_key.
    bind-none (get m.pointers 0) _ λ first.
      bind-none (put n.keys n.num_keys (if n.is_leaf then first_key else kp)) _ λ keys.
        bind-none (put n.pointers (if n.is_leaf then n.num_keys else n.num_keys + 1) first) _
          λ pointers. rw (shift_down-none m.num_keys 0 m.keys pos (omega arith))

-- A leaf takes the last entry of its left neighbour, whose key separates the two.
pub record LeafTaken (n m : Node5) (h : Borrowed) : Type 0 where
  pub left_keys :
      slice h.left.keys.at 0 h.left.num_keys
      ≡ m.keys.at (m.num_keys - 1) ∷ slice n.keys.at 0 n.num_keys
  pub left_items :
      slice h.left.pointers.at 0 h.left.num_keys
      ≡ m.pointers.at (m.num_keys - 1) ∷ slice n.pointers.at 0 n.num_keys
  pub right_keys :
      slice h.right.keys.at 0 h.right.num_keys ++ m.keys.at (m.num_keys - 1) ∷ []
      ≡ slice m.keys.at 0 m.num_keys
  pub right_items :
      slice h.right.pointers.at 0 h.right.num_keys ++ m.pointers.at (m.num_keys - 1) ∷ []
      ≡ slice m.pointers.at 0 m.num_keys
  pub separator : h.separator ≡ m.keys.at (m.num_keys - 1)

sub-zero : (r : ℕ) → r - 0 ≡ r
sub-zero r = omega arith

-- All entries one place up, and one in front.
up_lem :
    (r v : ℕ) (a : Arr)
    → r < a.cap
    → (b c : Arr) × (shift_up r 0 a ≡ some b)
      × (put b 0 v ≡ some c)
      × (slice c.at 0 (r + 1) ≡ v ∷ slice a.at 0 r)
up_lem r v a h =
    let (b, c, e, e', cc', f) = open_steps r 0 v a (omega arith) h in (b, c, e, e', whole b c f)
  where
    whole :
        (b c : Arr)
        → ((j : ℕ) → c.at j ≡ opened a.at 0 r v j)
        → slice c.at 0 (r + 1) ≡ v ∷ slice a.at 0 r
    whole b c f =
        slice-congr c.at (opened a.at 0 r v) 0 0 (r + 1) (λ k l. f (0 + k))
        ∙ slice-opened a.at 0 r v (omega arith)
        ∙ ap (λ t. v ∷ slice a.at 0 t) (sub-zero r)

slice-init : (f : ℕ → ℕ) (n : ℕ) → 0 < n → slice f 0 (n - 1) ++ f (n - 1) ∷ [] ≡ slice f 0 n
slice-init f zero h = absurd (omega arith)
slice-init f (suc n) h =
    sym (slice-last_zero f (suc n - 1)) ∙ ap (slice f 0) {y = suc n} (omega arith)

-- A leaf with room takes the last entry of its left neighbour to its front; the neighbour keeps the
-- others in order, and the separator is the key that moved.
pub borrow_left-LeafTaken :
    (n m : Node5) (kp : ℕ)
    → n.is_leaf ≡ true
    → n.num_keys < n.keys.cap
    → n.num_keys < n.pointers.cap
    → 0 < m.num_keys
    → m.num_keys ≤ m.keys.cap
    → m.num_keys ≤ m.pointers.cap
    → (h : Borrowed) × (borrow_left n m kp ≡ some h) × LeafTaken n m h
unfolding borrow_left
borrow_left-LeafTaken n m kp leaf nk np pos mk mp =
    let i = m.num_keys - 1 in
    let (a, a', ea, ea', sa) = up_lem n.num_keys (m.keys.at i) n.keys nk in
    let (b, b', eb, eb', sb) = up_lem n.num_keys (m.pointers.at i) n.pointers np in
    rw
      (
        leaf,
        ea,
        eb,
        ne→== m.num_keys 0 (λ q. omega arith),
        get-ok m.keys i (omega arith),
        get-ok m.pointers i (omega arith),
        eb',
        put-ok m.pointers i 0 (omega arith),
        ea',
      )
      (
        record {
          left = record n { is_leaf = true; keys = a'; pointers = b'; num_keys = n.num_keys + 1 };
          right = record m {
            pointers = record { cap = m.pointers.cap; at = updated m.pointers.at i 0 };
            num_keys = i;
          };
          separator = m.keys.at i;
        },
        refl,
        record {
          left_keys = sa;
          left_items = sb;
          right_keys = slice-init m.keys.at m.num_keys pos;
          right_items =
              ap (λ t. t ++ m.pointers.at i ∷ []) (slice-put m.pointers.at i 0 i (omega arith))
              ∙ slice-init m.pointers.at m.num_keys pos;
          separator = refl;
        },
      )
