-- ===== src/Queue.antt =====
-- btree/queue.c over the nodes of `typedef struct node NODE` (btree/dtype.h).
-- A QUEUE stands outside the heap: a function that updates one returns the new value.
pub mod Links
pub mod Enqueue
pub mod Dequeue
pub mod Destroy
mod Tests
use linux_kernel_struct.Common.{
  ℕ, zero, suc, Bool, true, false, Option, none, some, ◌==◌, if◌then◌else◌,
}
use linux_kernel_struct.Int32.{inc, dec}
use linux_kernel_struct.Memory.{
  Ptr, null, Cmd, out_of_fuel, pure, ◌>>=◌, ◌>>◌, Memory, store, load, malloc, free, free_block,
}

pub record Node : Type 0 where
  pub item : Ptr
  pub link : Ptr

abbrev pub node : Ptr → Ptr → Node
node d q = record { item = d; link = q }

pub record Queue : Type 0 where
  pub front : Ptr
  pub rear : Ptr
  pub count : ℕ

abbrev pub QueueCmd : Type 0 → Type 0
QueueCmd = Cmd (Memory Node)

-- `none` is NULL: malloc gave no QUEUE.
unfoldable pub que_create : QueueCmd (Option Queue)
que_create = do
  p ← malloc
  pure (if p == null then none else some (record { front = null; rear = null; count = 0 }))

-- The loop of que_destroy, on rounds.
unfoldable pub destroy_loop : ℕ → Ptr → QueueCmd (Unit {0})
destroy_loop zero p = λ _. out_of_fuel
destroy_loop (suc k) p =
    if p == null then pure tt else do n ← load p; free_block n.item; free p; destroy_loop k n.link

-- `rounds` bounds the nodes; the QUEUE itself is given back at the end.
unfoldable pub que_destroy : ℕ → Option Queue → QueueCmd (Option Queue)
unfolding destroy_loop
que_destroy rounds none = pure none
que_destroy rounds (some q) = do destroy_loop rounds q.front; pure none

-- `queue->rear->link = node_new`
unfoldable pub set_link : Ptr → Ptr → QueueCmd (Unit {0})
set_link p q = do n ← load p; store p (some (record n { link = q }))

unfoldable pub que_enqueue : Queue → Ptr → QueueCmd (Bool × Queue)
que_enqueue q data_in = do
  node_new ← malloc
  if node_new == null then pure (false, q) else do
    store node_new (some (node data_in null))
    if q.count == 0
        then pure (true, record { front = node_new; rear = node_new; count = inc q.count })
        else do
          set_link q.rear node_new
          pure (true, record q { rear = node_new; count = inc q.count })

-- What goes out through `data_out` is `none` where the source does not write it.
unfoldable pub que_dequeue : Queue → QueueCmd (Option Ptr × Queue)
que_dequeue q = if q.count == 0 then pure (none, q) else do
  n ← load q.front
  let node_del = q.front
  let q' : Queue =
      if q.count == 1
      then record { front = null; rear = null; count = dec q.count }
      else record q { front = n.link; count = dec q.count }
  free node_del
  pure (some n.item, q')

unfoldable pub que_front : Queue → QueueCmd (Option Ptr)
que_front q = if q.count == 0 then pure none else do n ← load q.front; pure (some n.item)

unfoldable pub que_rear : Queue → QueueCmd (Option Ptr)
que_rear q = if q.count == 0 then pure none else do n ← load q.rear; pure (some n.item)

unfoldable pub que_is_empty : Queue → Bool
que_is_empty q = q.count == 0

-- A trial malloc, freed at once: full means that malloc fails.
unfoldable pub que_is_full : QueueCmd Bool
que_is_full = do node_temp ← malloc; pure (if node_temp == null then true else false)

unfoldable pub que_count : Queue → ℕ
que_count q = q.count
