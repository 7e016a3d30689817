-- ===== src/Store.antt =====
-- The whole state that the trees, the queue and the data of btree/tw1.c, btree/tw2.c and
-- btree/fileio.c share: the nodes of the B+ trees and of the queues, and the blocks that `void*`
-- keys and data point to, which are strings or numbers. Each kind of object has addresses of its own.
pub mod Laws
use Prim.Native.Nat.{Ordering}
use linux_kernel_struct.Common.{
  ℕ, ◌^◌, Option, none, some, List, [], ◌∷◌, ◌==◌, ltb, if◌then◌else◌, replicate,
}
use linux_kernel_struct.Memory.{
  Ptr, null, Run, ok, fault, exited, out_of_fuel, Cmd, pure, ◌>>=◌, Memory, write,
}
use linux_kernel_struct.Bpt.{Node5, Env, BptCmd}
use linux_kernel_struct.Queue.{Node, QueueCmd}
use linux_kernel_struct.Ustr.{str_copy}
use linux_kernel_struct.Ustr.Compare.{str_cmp, str_cmp_int, minus_one}

-- `supply` is what malloc returns for strings and numbers.
pub record Store : Type 0 where
  pub trees : Memory Node5
  pub queues : Memory Node
  pub texts : Ptr → Option (List ℕ)
  pub uints : Ptr → Option ℕ
  pub supply : List Ptr

abbrev pub StoreCmd : Type 0 → Type 0
StoreCmd = Cmd Store

module _ {A : Type 0} where
  abbrev pub in_trees : Store → Run (Memory Node5) A → Run Store A
  in_trees s (ok a m) = ok a (record s { trees = m })
  in_trees s fault = fault
  in_trees s exited = exited
  in_trees s out_of_fuel = out_of_fuel

  abbrev pub in_queues : Store → Run (Memory Node) A → Run Store A
  in_queues s (ok a m) = ok a (record s { queues = m })
  in_queues s fault = fault
  in_queues s exited = exited
  in_queues s out_of_fuel = out_of_fuel

  abbrev pub on_trees : BptCmd A → StoreCmd A
  on_trees c s = in_trees s (c s.trees)

  abbrev pub on_queues : QueueCmd A → StoreCmd A
  on_queues c s = in_queues s (c s.queues)

  -- A string operation that leaves its objects is a fault.
  abbrev pub lift : Option A → StoreCmd A
  lift none = λ _. fault
  lift (some a) = pure a

-- What a `char*` points to; `*(unsigned int*)p`.
unfoldable pub text_at : Ptr → StoreCmd (List ℕ)
text_at p s = if p == null then fault else lift (s.texts p) s

unfoldable pub uint_at : Ptr → StoreCmd ℕ
uint_at p s = if p == null then fault else lift (s.uints p) s

abbrev next : StoreCmd Ptr
next s = elim s.supply [ [] ↦ ok null s | a ∷ rest ↦ ok a (record s { supply = rest }) ]

-- malloc (n) for a string; its bytes are written before they are read.
unfoldable pub malloc_text : ℕ → StoreCmd Ptr
malloc_text n = do
  p ← next
  if p == null
      then pure null
      else (λ s. ok p (record s { texts = write s.texts p (some (replicate n 0)) }))

-- malloc (sizeof (unsigned int)).
unfoldable pub malloc_uint : StoreCmd Ptr
malloc_uint = do
  p ← next
  if p == null then pure null else (λ s. ok p (record s { uints = write s.uints p (some 0) }))

-- str_copy (p, src);
unfoldable pub copy_text : Ptr → List ℕ → StoreCmd (Unit {0})
copy_text p src = do
  t ← text_at p
  t' ← lift (str_copy t src)
  (λ s. ok tt (record s { texts = write s.texts p (some t') }))

-- *(unsigned int*)p = n;
unfoldable pub set_uint : Ptr → ℕ → StoreCmd (Unit {0})
set_uint p n = do old ← uint_at p; (λ s. ok tt (record s { uints = write s.uints p (some n) }))

unfoldable pub free_text : Ptr → StoreCmd (Unit {0})
free_text p =
    if p == null
    then pure tt
    else (do t ← text_at p; (λ s. ok tt (record s { texts = write s.texts p none })))

unfoldable pub free_uint : Ptr → StoreCmd (Unit {0})
free_uint p =
    if p == null
    then pure tt
    else (do n ← uint_at p; (λ s. ok tt (record s { uints = write s.uints p none })))

-- The sign of an `int`.
abbrev pub sign : ℕ → Ordering
sign v = if v == 0 then Ordering.eq else if ltb v (2 ^ 31) then Ordering.gt else Ordering.lt

unfoldable pub tw1_compare_int : ℕ → ℕ → ℕ
tw1_compare_int a b = if ltb a b then minus_one else if a == b then 0 else 1

unfoldable pub tw1_compare_str : List ℕ → List ℕ → Option ℕ
tw1_compare_str s t = str_cmp s t

unfoldable pub tw1_compare_str_int : List ℕ → List ℕ → Option ℕ
tw1_compare_str_int s t = str_cmp_int s t

-- A comparison of two addresses by what they point to. What it gives for others is not known: `u`.
abbrev pub compared :
    {A : Type 0} → (A → A → Option ℕ) → (Ptr → Option A) → Env → Ptr → Ptr → Ordering
compared f at u p q = elim (at p) [
  | none ↦ u.compare p q
  | some a ↦ elim (at q) [
    | none ↦ u.compare p q
    | some b ↦ elim (f a b) [ none ↦ u.compare p q | some v ↦ sign v ]
  ]
]

-- The trees' `compare`, over what the store holds: of words, of numbers and of keys of numbers.
abbrev pub by_text : Env → Store → Env
by_text u s = record u { compare = compared tw1_compare_str s.texts u }

abbrev pub by_uint : Env → Store → Env
by_uint u s = record u { compare = compared (λ a b. some (tw1_compare_int a b)) s.uints u }

abbrev pub by_key : Env → Store → Env
by_key u s = record u { compare = compared tw1_compare_str_int s.texts u }

-- A tree operation with the comparison of the moment.
abbrev pub with_env : {A : Type 0} → (Store → Env) → (Env → BptCmd A) → StoreCmd A
with_env env c s = on_trees (c (env s)) s
