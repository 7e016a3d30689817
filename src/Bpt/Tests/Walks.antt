-- ===== src/Bpt/Tests/Walks.antt =====
-- Runs of the walks and of the freeing of trees of btree/bpt3.c, and its lookups in one leaf.
use linux_kernel_struct.Common.{ℕ, ◌≡◌, refl, none, [], ◌∷◌, true}
use linux_kernel_struct.Memory.{
  Ptr, null, Returns, write, load, pure, ◌>>=◌, free, free_block, fault,
}
use linux_kernel_struct.Bpt.{BptCmd}
use linux_kernel_struct.Bpt.Find.{leftmost}
use linux_kernel_struct.Bpt.Scan.{bpt_find_leaf_key_similar}
use linux_kernel_struct.Bpt.Drop.{
  bpt_drop, bpt_drop_leaves_nodes, drop_tree, drop_data, for_children,
}
use linux_kernel_struct.Bpt.Tests.{blank, empty, insert_all}

-- Five keys in two leaves and their parent: three nodes are freed, and the count is 0.
drop_run : BptCmd (Ptr × ℕ × ℕ)
unfolding insert_all bpt_drop bpt_drop_leaves_nodes drop_tree drop_data for_children load free
    free_block
drop_run = do
  b ← insert_all (1 ∷ 2 ∷ 3 ∷ 4 ∷ 5 ∷ []) empty
  (ws, wi, cnt) ← bpt_drop 9 b empty 0
  pure (ws.root, ws.kcnt, cnt)

drop_runs : Returns (λ r g. (r ≡ (null, 0, 3)) × (g.cells 60 ≡ none)) (drop_run blank)
unfolding drop_run write
drop_runs = (refl, refl)

-- The similar search of an empty tree reads NULL.
similar_of_empty : bpt_find_leaf_key_similar (λ x. true) 9 empty blank ≡ fault
unfolding bpt_find_leaf_key_similar leftmost load
similar_of_empty = refl
