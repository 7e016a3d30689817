-- ===== src/Stack.antt =====
-- btree/stack.c over the nodes of `typedef struct node2 NODE2` (btree/dtype.h): a doubly linked
-- stack with two ends. A STACK stands outside the heap; a function that updates one returns the new
-- value. A freed STACK is `none`.
pub mod Links
pub mod Push
pub mod Pop
pub mod Limit
pub mod Destroy
mod Tests
use linux_kernel_struct.Common.{
  ℕ, zero, suc, Bool, true, false, Option, none, some, ◌==◌, if◌then◌else◌,
}
use linux_kernel_struct.Int32.{inc, dec, is_positive, signed_ge}
use linux_kernel_struct.Memory.{
  Ptr, null, Cmd, out_of_fuel, pure, ◌>>=◌, ◌>>◌, Memory, store, load, malloc, free, free_block,
}

pub record Node2 : Type 0 where
  pub prev : Ptr
  pub item : Ptr
  pub next : Ptr

abbrev pub node2 : Ptr → Ptr → Ptr → Node2
node2 p d q = record { prev = p; item = d; next = q }

pub record Stack : Type 0 where
  pub top : Ptr
  pub bottom : Ptr
  pub count : ℕ

abbrev pub StackCmd : Type 0 → Type 0
StackCmd = Cmd (Memory Node2)

-- `none` is NULL: malloc gave no STACK.
unfoldable pub stack_create : StackCmd (Option Stack)
stack_create = do
  p ← malloc
  pure (if p == null then none else some (record { top = null; bottom = null; count = 0 }))

-- while (count > 0): frees the top, and goes on with its `next`.
unfoldable pub drop_top_loop : ℕ → Stack → StackCmd Stack
drop_top_loop zero s = λ _. out_of_fuel
drop_top_loop (suc rounds) s =
    if is_positive s.count
    then (do
      n ← load s.top
      free_block n.item
      free s.top
      drop_top_loop rounds (record s { top = n.next; count = dec s.count }))
    else pure s

-- while (count > 0): frees the bottom, and goes on with its `next`.
unfoldable pub drop_bottom_loop : ℕ → Stack → StackCmd Stack
drop_bottom_loop zero s = λ _. out_of_fuel
drop_bottom_loop (suc rounds) s =
    if is_positive s.count
    then (do
      n ← load s.bottom
      free_block n.item
      free s.bottom
      drop_bottom_loop rounds (record s { bottom = n.next; count = dec s.count }))
    else pure s

-- The count that is left, and the STACK, which is always freed.
unfoldable pub stack_destroy : ℕ → Option Stack → StackCmd (ℕ × Option Stack)
stack_destroy rounds none = pure (0, none)
stack_destroy rounds (some s) = do s' ← drop_top_loop rounds s; pure (s'.count, none)

-- With `flag` the STACK is freed too.
unfoldable pub stack_drop_from_top : ℕ → Option Stack → Bool → StackCmd (ℕ × Option Stack)
stack_drop_from_top rounds none flag = pure (0, none)
stack_drop_from_top rounds (some s) flag = do
  s' ← drop_top_loop rounds s
  pure (s'.count, if flag then none else some s')

unfoldable pub stack_drop_from_bottom : ℕ → Option Stack → Bool → StackCmd (ℕ × Option Stack)
stack_drop_from_bottom rounds none flag = pure (0, none)
stack_drop_from_bottom rounds (some s) flag = do
  s' ← drop_bottom_loop rounds s
  pure (s'.count, if flag then none else some s')

-- `p->prev = q`
unfoldable pub set_prev : Ptr → Ptr → StackCmd (Unit {0})
set_prev p q = do n ← load p; store p (some (record n { prev = q }))

-- `p->next = q`
unfoldable pub set_next : Ptr → Ptr → StackCmd (Unit {0})
set_next p q = do n ← load p; store p (some (record n { next = q }))

unfoldable pub stack_push_top : Stack → Ptr → StackCmd (Bool × Stack)
stack_push_top s data_in = do
  node_new ← malloc
  if node_new == null then pure (false, s) else do
    store node_new (some (node2 null data_in s.top))
    if s.count == 0
        then pure (true, record { top = node_new; bottom = node_new; count = inc s.count })
        else do
          set_prev s.top node_new
          pure (true, record s { top = node_new; count = inc s.count })

unfoldable pub stack_push_bottom : Stack → Ptr → StackCmd (Bool × Stack)
stack_push_bottom s data_in = do
  node_new ← malloc
  if node_new == null then pure (false, s) else do
    store node_new (some (node2 s.bottom data_in null))
    if s.count == 0
        then pure (true, record { top = node_new; bottom = node_new; count = inc s.count })
        else do
          set_next s.bottom node_new
          pure (true, record s { bottom = node_new; count = inc s.count })

-- Frees nodes from the bottom up while count >= height (as `int`).
unfoldable pub stack_remove_bottom : ℕ → Stack → ℕ → StackCmd Stack
stack_remove_bottom zero s height = λ _. out_of_fuel
stack_remove_bottom (suc rounds) s height =
    if signed_ge s.count height
    then (do
      n ← load s.bottom
      free_block n.item
      free s.bottom
      stack_remove_bottom rounds (record s { bottom = n.prev; count = dec s.count }) height)
    else pure s

-- At height 0 nothing is removed.
unfoldable pub stack_push_limit : ℕ → Stack → Ptr → ℕ → StackCmd (Bool × Stack)
stack_push_limit rounds s data_in height = do
  node_new ← malloc
  if node_new == null then pure (false, s) else do
    store node_new (some (node2 null data_in s.top))
    if s.count == 0
        then pure (true, record { top = node_new; bottom = node_new; count = inc s.count })
        else do
          set_prev s.top node_new
          s' ← if height == 0 then pure s else stack_remove_bottom rounds s height
          pure (true, record s' { top = node_new; count = inc s'.count })

-- With `flag` the data is freed, and NULL returned.
unfoldable pub stack_pop_top : Stack → Bool → StackCmd (Ptr × Stack)
stack_pop_top s flag = if s.top == null then pure (null, s) else do
  n ← load s.top
  if flag then free_block n.item else pure tt
  free s.top
  pure (if flag then null else n.item, record s { top = n.next; count = dec s.count })

unfoldable pub stack_pop_bottom : Stack → Bool → StackCmd (Ptr × Stack)
stack_pop_bottom s flag = if s.bottom == null then pure (null, s) else do
  n ← load s.bottom
  if flag then free_block n.item else pure tt
  free s.bottom
  pure (if flag then null else n.item, record s { bottom = n.prev; count = dec s.count })

-- With `flag` the top moves on, and the count stays.
unfoldable pub stack_top : Stack → Bool → StackCmd (Ptr × Stack)
stack_top s flag =
    if s.top == null
    then pure (null, s)
    else do n ← load s.top; pure (n.item, if flag then record s { top = n.next } else s)

unfoldable pub stack_bottom : Stack → Bool → StackCmd (Ptr × Stack)
stack_bottom s flag =
    if s.bottom == null
    then pure (null, s)
    else do n ← load s.bottom; pure (n.item, if flag then record s { bottom = n.prev } else s)

unfoldable pub stack_is_empty : Stack → Bool
stack_is_empty s = s.count == 0

-- A trial malloc, freed at once: full means that malloc fails.
unfoldable pub stack_is_full : StackCmd Bool
stack_is_full = do node_temp ← malloc; pure (if node_temp == null then true else false)

unfoldable pub stack_count : Stack → ℕ
stack_count s = s.count
