-- ===== src/Bpt/Alloc.antt =====
-- The allocation of nodes in btree/bpt3.c.
use linux_kernel_struct.Common.{◌≡◌, refl, ◌≢◌, true, false, some, none, List, [], ◌∷◌, ne→==}
use linux_kernel_struct.Memory.{Ptr, null, Memory, ok, exited, write}
use linux_kernel_struct.Memory.Laws.{load-ok, malloc-cons, malloc-nil}
use linux_kernel_struct.Memory.Chain.{write_self}
use linux_kernel_struct.Bpt.{
  Env, Node5, Btree, new_node, malloc_or_exit, bpt_make_node, bpt_make_leaf,
}

-- malloc will give the three blocks of a node, the node itself at a free address `a`.
pub record HasSupply (m : Memory Node5) (a b c : Ptr) (rest : List Ptr) : Type 0 where
  pub supply : m.supply ≡ a ∷ b ∷ c ∷ rest
  pub node : a ≢ null
  pub keys : b ≢ null
  pub pointers : c ≢ null
  pub unused : m.cells a ≡ none

pub malloc_or_exit-ok :
    (m : Memory Node5) (a : Ptr) (rest : List Ptr)
    → m.supply ≡ a ∷ rest
    → a ≢ null
    → malloc_or_exit m ≡ ok a (record m { supply = rest })
unfolding malloc_or_exit
malloc_or_exit-ok m a rest s ne = rw (malloc-cons m a rest s, ne→== a null ne)

-- Without memory the program exits.
pub malloc_or_exit-nil : (m : Memory Node5) → m.supply ≡ [] → malloc_or_exit m ≡ exited
unfolding malloc_or_exit
malloc_or_exit-nil m s = rw (malloc-nil m s)

module _ (e : Env) (btree : Btree) (m : Memory Node5) {a b c : Ptr} {rest : List Ptr}
    (s : HasSupply m a b c rest) where
  pub bpt_make_node-ok :
      bpt_make_node e btree m
      ≡ ok a (record m {
        supply = rest;
        cells = write m.cells a (some (new_node e btree.order false));
      })
  unfolding bpt_make_node
  bpt_make_node-ok = rw (
    malloc_or_exit-ok m a (b ∷ c ∷ rest) s.supply s.node,
    malloc_or_exit-ok (record m { supply = b ∷ c ∷ rest }) b (c ∷ rest) refl s.keys,
    malloc_or_exit-ok (record m { supply = c ∷ rest }) c rest refl s.pointers,
  )

  -- The fresh leaf.
  abbrev pub with_leaf : Memory Node5
  with_leaf = record m {
    supply = rest;
    cells =
        write (write m.cells a (some (new_node e btree.order false))) a
          (some (new_node e btree.order true));
  }

  pub bpt_make_leaf-ok : bpt_make_leaf e btree m ≡ ok a with_leaf
  unfolding bpt_make_leaf
  bpt_make_leaf-ok = rw (
    bpt_make_node-ok,
    load-ok
        (record m { supply = rest; cells = write m.cells a (some (new_node e btree.order false)) })
        a (new_node e btree.order false) s.node
        (write_self m.cells a (some (new_node e btree.order false))),
  )
