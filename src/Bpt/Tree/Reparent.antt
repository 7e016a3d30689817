-- ===== src/Bpt/Tree/Reparent.antt =====
-- The children of a B+ tree node of btree/bpt3.c given another parent, in the tree and, by the loop
-- over the pointers of the new node, in the heap.
use linux_kernel_struct.Common.{
  ℕ, suc, ◌+◌, ◌≤◌, ◌≡◌, ◌≢◌, refl, sym, ap, ap₂, ◌∙◌, true, false, some, [], ◌∷◌, ◌++◌, ◌||◌,
  arith, max,
}
use linux_kernel_struct.Memory.{Ptr, null, Memory, ok}
use linux_kernel_struct.Memory.Laws.{load-ok}
use linux_kernel_struct.Memory.Chain.{write_self, write-ne}
use linux_kernel_struct.Arrays.{Arr, slice}
use linux_kernel_struct.Arrays.Loops.{get-ok}
use linux_kernel_struct.Bpt.{Node5, Env}
use linux_kernel_struct.Bpt.Insert.{set_parents}
use linux_kernel_struct.Bpt.Tree
use linux_kernel_struct.Bpt.Tree.{
  Children, Entries, Tree, leaf, node, Forest, last, more, entries, forest_entries, height,
  forest_height, first_leaf, forest_first_leaf, Stored, AllKeys, Lt, Ordered, OrderedForest,
  has_node, forest_has_node, Apart, ApartForest,
}
use linux_kernel_struct.Bpt.Tree.Replace.{or_false, written, Children-write}
use linux_kernel_struct.Bpt.Tree.Kids.{
  Holds-Children, Children-Holds, count, forest_keys, roots, Kids, Kids-same, Stored-same,
  cons-parts,
}
use linux_kernel_struct.Bpt.Tree.Rising.{ProperForest}

abbrev pub reparent : Ptr → Tree → Tree
reparent a (leaf p n) = leaf p (record n { parent = a })
reparent a (node p n f) = node p (record n { parent = a }) f

abbrev pub reparent_all : Ptr → Forest → Forest
reparent_all a (last t) = last (reparent a t)
reparent_all a (more t k f) = more (reparent a t) k (reparent_all a f)

-- Two forests with the same entries, keys, addresses and shape.
pub record Alike (e : Env) (f f' : Forest) : Type 0 where
  pub entries : forest_entries f' ≡ forest_entries f
  pub keys : forest_keys f' ≡ forest_keys f
  pub addresses : roots f' ≡ roots f
  pub size : count f' ≡ count f
  pub first_leaf : forest_first_leaf f' ≡ forest_first_leaf f
  pub height : forest_height f' ≡ forest_height f
  pub has_node : (q : Ptr) → forest_has_node q f' ≡ forest_has_node q f
  pub ordered : OrderedForest e f → OrderedForest e f'
  pub proper : ProperForest e f → ProperForest e f'
  pub apart : ApartForest f → ApartForest f'

reparent-Alike : (e : Env) (a : Ptr) (t : Tree) → Alike e (last t) (last (reparent a t))
reparent-Alike e a (leaf p n) = record {
  entries = refl;
  keys = refl;
  addresses = refl;
  size = refl;
  first_leaf = refl;
  height = refl;
  has_node = λ q. refl;
  ordered = λ h. h;
  proper = λ h. h;
  apart = λ h. h;
}
reparent-Alike e a (node p n f) = record {
  entries = refl;
  keys = refl;
  addresses = refl;
  size = refl;
  first_leaf = refl;
  height = refl;
  has_node = λ q. refl;
  ordered = λ h. h;
  proper = λ h. h;
  apart = λ h. h;
}

pub reparent_all-Alike : (e : Env) (a : Ptr) (f : Forest) → Alike e f (reparent_all a f)
reparent_all-Alike e a (last t) = reparent-Alike e a t
reparent_all-Alike e a (more t k f) =
    let x = reparent-Alike e a t in
    let y = reparent_all-Alike e a f in
    record {
      entries = ap₂ ◌++◌ x.entries y.entries;
      keys = ap (λ l. k ∷ l) y.keys;
      addresses = ap₂ ◌++◌ x.addresses y.addresses;
      size = ap suc y.size;
      first_leaf = x.first_leaf;
      height = ap₂ max x.height y.height;
      has_node = λ q. ap₂ ◌||◌ (x.has_node q) (y.has_node q);
      ordered = λ h. (rw x.entries h.0, rw y.entries h.1, x.ordered h.2, y.ordered h.3);
      proper = λ h. (x.proper h.0, y.proper h.1);
      apart =
          λ h. ((λ q i. y.has_node q ∙ h.0 q (sym (x.has_node q) ∙ i)), x.apart h.1, y.apart h.2);
    }

-- The children do not depend on the parent of their node.
Children-parent :
    (m : Memory Node5) (order up stop a : ℕ) (n : Node5) (i : ℕ) (f : Forest)
    → Children m order up stop n i f
    → Children m order up stop (record n { parent = a }) i f
Children-parent m order up stop a n i f s =
    let (h, kids) = Children-Holds m order up stop n i f s in
    Holds-Children m order up stop (record n { parent = a }) i f
      (record { num_keys = h.num_keys; keys = h.keys; pointers = h.pointers }) kids

-- The write of one parent.
pub reparent-Stored :
    (m : Memory Node5) (order up stop a : ℕ) (t : Tree)
    → Stored m order up stop t
    → Apart t
    → (c : Node5) × (m.cells (Tree.root t) ≡ some c)
      × (Tree.root t ≢ null)
      × Stored (written m (Tree.root t) (record c { parent = a })) order a stop (reparent a t)
reparent-Stored m order up stop a (leaf p n) s apart = (
  n,
  s.1,
  s.0,
  (s.0, write_self m.cells p (some (record n { parent = a })), s.2, refl, s.4, s.5, s.6, s.7),
)
reparent-Stored m order up stop a (node p n f) s apart = (
  n,
  s.1,
  s.0,
  (
    s.0,
    write_self m.cells p (some (record n { parent = a })),
    s.2,
    refl,
    s.4,
    s.5,
    s.6,
    Children-parent (written m p (record n { parent = a })) order p stop a n 0 f
        (Children-write m order p stop p (record n { parent = a }) n 0 f apart.0 s.7),
  ),
)

pub root-has_node : (t : Tree) → has_node (Tree.root t) t ≡ true
root-has_node (leaf p n) = ground arith
root-has_node (node p n f) = ground arith

-- What the loop over the pointers of the new parent `a` leaves.
abbrev pub Reparented : Memory Node5 → ℕ → Ptr → Ptr → Forest → Memory Node5 → Type 0
Reparented m order stop a f g =
    (g.supply ≡ m.supply)
    × Kids g order a stop (reparent_all a f)
    × ((q : Ptr) → forest_has_node q f ≡ false → g.cells q ≡ m.cells q)

pub set_parents_lem :
    (e : Env) (m : Memory Node5) (order up stop a : ℕ) (f : Forest) (i : ℕ) (arr : Arr)
    → slice arr.at i (suc (count f)) ≡ roots f
    → i + suc (count f) ≤ arr.cap
    → Kids m order up stop f
    → ApartForest f
    → (g : Memory Node5) × (set_parents (suc (count f)) i arr a m ≡ ok tt g)
      × Reparented m order stop a f g
unfolding set_parents
set_parents_lem e m order up stop a (last t) i arr h cap kids apart =
    let at_i = (cons-parts (arr.at i) (Tree.root t) [] [] h).0 in
    let (c, cell, ne, stored) = reparent-Stored m order up stop a t kids apart in
    rw (get-ok arr i (omega arith), at_i, load-ok m (Tree.root t) c ne cell)
      (
        written m (Tree.root t) (record c { parent = a }),
        refl,
        (
          refl,
          stored,
          λ q out.
              write-ne m.cells (Tree.root t) q (some (record c { parent = a }))
                (λ same. cc (root-has_node t, ap (λ z. has_node z t) same)),
        ),
      )
set_parents_lem e m order up stop a (more t k f) i arr h cap kids apart =
    let r = Tree.root t in
    let (at_i, behind) =
      cons-parts (arr.at i) r (slice arr.at (i + 1) (suc (count f))) (roots f) h in
    let (c, cell, ne, stored) =
      reparent-Stored m order up (forest_first_leaf f) a t kids.0 apart.1 in
    let m1 = written m r (record c { parent = a }) in
    let r_out = apart.0 r (root-has_node t) in
    let kids1 =
      Kids-same m m1 order up stop f
        (λ q o.
          write-ne m.cells r q (some (record c { parent = a }))
            (λ same. cc (r_out, o, ap (λ z. forest_has_node z f) same)))
        kids.1 in
    let (g, eq, (supply, kids2, same)) =
      set_parents_lem e m1 order up stop a f (i + 1) arr behind (omega arith) kids1 apart.2 in
    let like = reparent-Alike e a t in
    rw (get-ok arr i (omega arith), at_i, load-ok m r c ne cell)
      (
        g,
        eq,
        (
          supply,
          (
            Stored-same m1 g order a (forest_first_leaf (reparent_all a f)) (reparent a t)
                (λ q o. same q (apart.0 q (sym (like.has_node q) ∙ o)))
                (rw (reparent_all-Alike e a f).first_leaf stored),
            kids2,
          ),
          λ q out.
              let (out_t, out_f) = or_false (has_node q t) (forest_has_node q f) out in
              same q out_f
              ∙ write-ne m.cells r q (some (record c { parent = a }))
                  (λ eq_r. cc (root-has_node t, out_t, ap (λ z. has_node z t) eq_r)),
        ),
      )
