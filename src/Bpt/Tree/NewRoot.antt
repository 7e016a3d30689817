-- ===== src/Bpt/Tree/NewRoot.antt =====
-- The new root of btree/bpt3.c above the two parts of the old one.
use linux_kernel_struct.Common.{
  ℕ, ◌+◌, ◌-◌, ◌≤◌, ◌≡◌, ◌≢◌, refl, sym, ap, ◌∙◌, true, false, some, List, [], ◌∷◌, ◌++◌, arith,
}
use linux_kernel_struct.Memory.{Ptr, null, Memory, ok, write, pure, and_then}
use linux_kernel_struct.Memory.Laws.{load-ok}
use linux_kernel_struct.Memory.Chain.{write_self, write-ne}
use linux_kernel_struct.Arrays.{get, Arr, updated}
use linux_kernel_struct.Arrays.Loops.{put-ok, get-ok}
use linux_kernel_struct.Bpt.{Node5, Btree, Env, new_node}
use linux_kernel_struct.Bpt.Alloc.{HasSupply, bpt_make_node-ok}
use linux_kernel_struct.Bpt.Insert.{bpt_insert_into_new_root, set_parents}
use linux_kernel_struct.Bpt.Tree
use linux_kernel_struct.Bpt.Tree.{
  Tree, Forest, last, more, node, forest_has_node, Stored, ApartForest, Apart,
}
use linux_kernel_struct.Bpt.Tree.Search.{root-ne_null}
use linux_kernel_struct.Bpt.Tree.Replace.{written}
use linux_kernel_struct.Bpt.Tree.Kids.{
  Holds-Children, Kids, Kids-same, has_node-used, forest_keys, roots, cons-parts,
}
use linux_kernel_struct.Bpt.Tree.Reparent.{
  reparent_all, reparent_all-Alike, set_parents_lem, root-has_node,
}
use linux_kernel_struct.Bpt.Tree.PutIn.{PutIn}
use linux_kernel_struct.Bpt.Tree.SplitNode.{not_used}

-- The node over `left` and `right`.
abbrev pub root_node : Env → ℕ → Ptr → Ptr → Ptr → Node5
root_node e order left key right = record (new_node e order false) {
  keys = record { cap = order - 1; at = updated e.uninit 0 key };
  pointers = record { cap = order; at = updated (updated e.uninit 0 left) 1 right };
  num_keys = 0 + 1;
  parent = null;
}

abbrev with_root : Env → ℕ → Memory Node5 → Ptr → List Ptr → Ptr → Ptr → Ptr → Memory Node5
with_root e order m b rest left key right = record m {
  supply = rest;
  cells =
      write (write m.cells b (some (new_node e order false))) b
        (some (root_node e order left key right));
}

-- The writes of both parents are the loop over the two pointers.
new_root-set_parents :
    (e : Env) (btree : Btree) (m : Memory Node5) (left key right b c d : Ptr) (rest : List Ptr)
    (lc rc : Node5)
    → HasSupply m b c d rest
    → 2 ≤ btree.order
    → (let m1 = with_root e btree.order m b rest left key right in
        (left ≢ null)
        × (right ≢ null)
        × (m1.cells left ≡ some lc)
        × ((written m1 left (record lc { parent = b })).cells right ≡ some rc))
    → bpt_insert_into_new_root e btree left key right m
      ≡ and_then
          (set_parents 2 0
            (root_node e btree.order left key right).pointers
            b
            (with_root e btree.order m b rest left key right))
          (λ _. pure b)
unfolding bpt_insert_into_new_root set_parents
new_root-set_parents e btree m left key right b c d rest lc rc s o2 (nl, nr, at_left, at_right) =
    let new = new_node e btree.order false in
    let made : Memory Node5 = record m { supply = rest; cells = write m.cells b (some new) } in
    let m1 = with_root e btree.order m b rest left key right in
    let ptrs = (root_node e btree.order left key right).pointers in
    let first : Arr = record { cap = btree.order; at = updated e.uninit 0 left } in
    let first_get : get ptrs 0 ≡ some left = get-ok ptrs 0 (omega arith) in
    let second_get : get ptrs 1 ≡ some right = get-ok ptrs 1 (omega arith) in
    rw
      (
        bpt_make_node-ok e btree m s,
        load-ok made b new s.node (write_self m.cells b (some new)),
        put-ok new.keys 0 key (omega arith),
        put-ok new.pointers 0 left (omega arith),
        put-ok first 1 right (omega arith),
        first_get,
        load-ok m1 left lc nl at_left,
        second_get,
        load-ok (written m1 left (record lc { parent = b })) right rc nr at_right,
      )
      refl

-- The new root with both parts below it, in the heap.
pub new_root-Stored :
    (e : Env) (btree : Btree) (m : Memory Node5) (l u : Tree) (key b c d : Ptr) (rest : List Ptr)
    → HasSupply m b c d rest
    → 2 ≤ btree.order
    → Kids m btree.order null null (more l key (last u))
    → ApartForest (more l key (last u))
    → (g : Memory Node5) × (n : Node5) × (bpt_insert_into_new_root e btree
          (Tree.root l)
          key
          (Tree.root u)
          m
        ≡ ok b g)
      × Stored g btree.order null null (node b n (reparent_all b (more l key (last u))))
      × Apart (node b n (reparent_all b (more l key (last u))))
      × (g.supply ≡ rest)
      × ((q : Ptr)
          → q ≢ b
          → forest_has_node q (more l key (last u)) ≡ false
          → g.cells q ≡ m.cells q)
new_root-Stored e btree m l u key b c d rest s o2 kids apart =
    let order = btree.order in
    let F = more l key (last u) in
    let left = Tree.root l in
    let right = Tree.root u in
    let n = root_node e order left key right in
    let m1 = with_root e order m b rest left key right in
    let b_out = not_used m order null null b F kids s.unused in
    let kept : (q : Ptr) → forest_has_node q F ≡ true → m1.cells q ≡ m.cells q = λ q i.
      let ne : q ≢ b = λ same. cc (ap (λ z. forest_has_node z F) same, b_out, i) in
      write-ne (write m.cells b (some (new_node e order false))) b q (some n) ne
      ∙ write-ne m.cells b q (some (new_node e order false)) ne in
    let kids1 = Kids-same m m1 order null null F kept kids in
    let (lc, at_left) =
      has_node-used m1 order null (Tree.first_leaf u) l left kids1.0 (root-has_node l) in
    let (rc, at_right) = has_node-used m1 order null null u right kids1.1 (root-has_node u) in
    let right_ne_left : right ≢ left = λ same.
      cc (ap (λ z. Tree.has_node z u) same, apart.0 left (root-has_node l), root-has_node u) in
    let (g, run, (supply, kids2, same)) =
      set_parents_lem e m1 order null null b F 0 n.pointers refl (omega arith) kids1 apart in
    let like = reparent_all-Alike e b F in
    (
      g,
      n,
      new_root-set_parents e btree m left key right b c d rest lc rc s o2 (
        root-ne_null m1 order null (Tree.first_leaf u) l kids1.0,
        root-ne_null m1 order null null u kids1.1,
        at_left,
        write-ne m1.cells left right (some (record lc { parent = b })) right_ne_left ∙ at_right,
      )
          ∙ ap (λ z. and_then z (λ _. pure b)) run,
      (
        s.node,
        same b b_out ∙ write_self (write m.cells b (some (new_node e order false))) b (some n),
        refl,
        refl,
        omega arith,
        refl,
        omega arith,
        Holds-Children g order b null n 0 (reparent_all b F)
            (record { num_keys = omega arith; keys = refl; pointers = sym like.addresses }) kids2,
      ),
      (like.has_node b ∙ b_out, like.apart apart),
      supply,
      λ q ne out.
          same q out
          ∙ write-ne (write m.cells b (some (new_node e order false))) b q (some n) ne
          ∙ write-ne m.cells b q (some (new_node e order false)) ne,
    )

-- One tree in two parts is its own address, the key, and the new one.
pub PutIn-two :
    (t : Tree) (F : Forest) (c k r : Ptr)
    → PutIn (last t) F c k r
    → (l u : Tree) × (F ≡ more l k (last u)) × (Tree.root l ≡ c) × (Tree.root u ≡ r)
PutIn-two t F c k r h = two F h.xs h.ys h.us h.vs h.old_keys h.new_keys h.old_roots h.new_roots
  where
    two :
        (G : Forest) (xs ys us vs : List Ptr)
        → [] ≡ xs ++ ys
        → forest_keys G ≡ xs ++ k ∷ ys
        → Tree.root t ∷ [] ≡ us ++ c ∷ vs
        → roots G ≡ us ++ c ∷ (r ∷ vs)
        → (l u : Tree) × (G ≡ more l k (last u)) × (Tree.root l ≡ c) × (Tree.root u ≡ r)
    two G (z ∷ xs) ys us vs a b d f = absurd (cc)
    two G [] (z ∷ ys) us vs a b d f = absurd (cc)
    two G [] [] (z ∷ []) vs a b d f = absurd (cc)
    two G [] [] (z ∷ (z' ∷ us)) vs a b d f = absurd (cc)
    two (last l) [] [] [] vs a b d f = absurd (cc)
    two (more l k' (more l' k'' G)) [] [] [] vs a b d f = absurd (cc)
    two (more l k' (last u)) [] [] [] vs a b d f =
        let keys = cons-parts k' k [] [] b in
        let first = cons-parts (Tree.root l) c (Tree.root u ∷ []) (r ∷ vs) f in
        let second = cons-parts (Tree.root u) r [] vs first.1 in
        (l, u, ap (λ z. more l z (last u)) keys.0, first.0, second.0)
