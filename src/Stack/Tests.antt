-- ===== src/Stack/Tests.antt =====
-- Runs of btree/stack.c, and the theorems at a stack of two nodes.
use linux_kernel_struct.Common.{
  ℕ, ◌≡◌, refl, true, false, ◌||◌, Option, none, some, [], ◌∷◌, ◌==◌, arith,
}
use linux_kernel_struct.Memory.{
  Ptr, null, Memory, Returns, fault, write, load, malloc, free, ◌>>=◌, pure,
}
use linux_kernel_struct.Memory.Chain.{Cells}
use linux_kernel_struct.Stack.{
  Node2, node2, Stack, StackCmd, set_prev, set_next, stack_push_top, stack_push_bottom,
  stack_pop_top, stack_pop_bottom, stack_push_limit, stack_destroy, stack_drop_from_top,
  stack_drop_from_bottom, stack_count,
}
use linux_kernel_struct.Stack.Links.{IsStack}
use linux_kernel_struct.Stack.Push.{stack_push_top-cons}
use linux_kernel_struct.Stack.Pop.{
  popped, stack_pop_top-cons, stack_pop_bottom-append, stack_pop-emptied,
}
use linux_kernel_struct.Stack.Limit.{Limited, stack_push_limit-Limited}
use linux_kernel_struct.Stack.Destroy.{Freed, stack_destroy-Freed, stack_drop_from_bottom-fault}

abbrev heap : Ptr → Option Node2
heap = write (write (λ _. none) 1 (some (node2 null 10 2))) 2 (some (node2 1 20 null))

abbrev memory : Memory Node2
memory = record { cells = heap; blocks = λ a. (a == 10) || (a == 20); supply = 3 ∷ 4 ∷ [] }

abbrev stack : Stack
stack = record { top = 1; bottom = 2; count = 2 }

abbrev cells : Cells
cells = (1, 10) ∷ (2, 20) ∷ []

stack-IsStack : IsStack memory stack null null cells
unfolding write
stack-IsStack = record {
  links = (ground arith, refl, refl, (ground arith, refl, refl, tt));
  top = λ _. refl;
  bottom = λ _. refl;
  count = refl;
  small = omega arith;
}

-- Both ends.
both_ends : StackCmd (Ptr × Ptr × Ptr × ℕ)
unfolding stack_push_top stack_push_bottom stack_pop_top stack_pop_bottom malloc set_prev set_next
    load free stack_count
both_ends = do
  (_, s) ← stack_push_top stack 30
  (_, s) ← stack_push_bottom s 40
  (a, s) ← stack_pop_top s false
  (b, s) ← stack_pop_bottom s false
  (c, s) ← stack_pop_bottom s false
  pure (a, b, c, stack_count s)

both_ends_runs : Returns (λ r _. r ≡ (30, 40, 20, 1)) (both_ends memory)
unfolding both_ends write
both_ends_runs = refl

stack_push_top-cons_example :
    Returns
      (λ r g.
        (r.0 ≡ true)
        × ((t : Ptr) × IsStack g r.1 null t ((3, 30) ∷ cells))
        × (g.supply ≡ 4 ∷ [])
        × (g.blocks ≡ memory.blocks))
      (stack_push_top stack 30 memory)
stack_push_top-cons_example =
    stack_push_top-cons memory stack null null cells 3 30 (4 ∷ []) stack-IsStack refl
      (record { ne_null = ground arith; unused = refl }) (omega arith)

-- The data is freed too.
stack_pop_top-cons_example :
    Returns
      (λ r g.
        (r ≡ (null, record { top = 2; bottom = 2; count = 1 }))
        × IsStack g r.1 1 null ((2, 20) ∷ [])
        × (g ≡ popped memory true 1 10))
      (stack_pop_top stack true memory)
stack_pop_top-cons_example =
    stack_pop_top-cons memory stack null null 1 10 ((2, 20) ∷ []) true stack-IsStack (λ _. refl)

stack_pop_bottom-append_example :
    Returns
      (λ r g.
        (r ≡ (null, record { top = 1; bottom = 1; count = 1 }))
        × IsStack g r.1 null 2 ((1, 10) ∷ [])
        × (g ≡ popped memory true 2 20))
      (stack_pop_bottom stack true memory)
stack_pop_bottom-append_example =
    stack_pop_bottom-append memory stack null null 2 20 ((1, 10) ∷ []) true stack-IsStack (λ q. cc)
      (λ _. refl)

abbrev one_node : Memory Node2
one_node = record {
  cells = write (λ _. none) 1 (some (node2 null 10 null));
  blocks = λ a. a == 10;
  supply = [];
}

abbrev one_stack : Stack
one_stack = record { top = 1; bottom = 1; count = 1 }

one_stack-IsStack : IsStack one_node one_stack null null ((1, 10) ∷ [])
unfolding write
one_stack-IsStack = record {
  links = (ground arith, refl, refl, tt);
  top = λ _. refl;
  bottom = λ _. refl;
  count = refl;
  small = omega arith;
}

stack_pop-emptied_example :
    ((do (_, s') ← stack_pop_bottom one_stack true; stack_pop_top s' false) one_node ≡ fault)
    × ((do (_, s') ← stack_pop_top one_stack true; stack_pop_bottom s' false) one_node ≡ fault)
stack_pop-emptied_example =
    stack_pop-emptied one_node one_stack null null 1 10 true false one_stack-IsStack (λ _. refl)

stack_push_limit-Limited_example :
    Returns (Limited memory null (3, 30) cells 2 (4 ∷ [])) (stack_push_limit 3 stack 30 2 memory)
stack_push_limit-Limited_example =
    stack_push_limit-Limited 3 2 memory stack null null 1 10 ((2, 20) ∷ []) 3 30 (4 ∷ [])
      stack-IsStack refl (record { ne_null = ground arith; unused = refl }) (omega arith)
      (omega arith) (refl, tt) (omega arith)

stack_destroy-Freed_example :
    Returns (λ r g. (r ≡ (0, none)) × Freed memory cells g) (stack_destroy 3 (some stack) memory)
    × Returns
        (λ r g. (r ≡ (0, none)) × Freed memory cells g)
        (stack_drop_from_top 3 (some stack) true memory)
    × Returns
        (λ r g.
          (r.0 ≡ 0)
          × ((s' : Stack) × (r.1 ≡ some s') × IsStack g s' null null [])
          × Freed memory cells g)
        (stack_drop_from_top 3 (some stack) false memory)
stack_destroy-Freed_example =
    stack_destroy-Freed memory stack null null cells 3 stack-IsStack (refl, (refl, tt))
      (omega arith)

stack_drop_from_bottom-fault_example : stack_drop_from_bottom 2 (some stack) true memory ≡ fault
stack_drop_from_bottom-fault_example =
    stack_drop_from_bottom-fault memory stack null 2 20 ((1, 10) ∷ []) 0 true stack-IsStack
      (λ q. cc) refl
