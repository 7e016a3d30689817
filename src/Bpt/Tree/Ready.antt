-- ===== src/Bpt/Tree/Ready.antt =====
-- What malloc gives for several nodes of btree/bpt3.c, one after the other.
use linux_kernel_struct.Common.{
  ◌∙◌, sym, ==_iff, eq→==, ℕ, zero, suc, ◌≡◌, ◌≢◌, refl, Bool, true, false, Option, none, some,
  List, ◌∷◌, ◌==◌, ◌||◌, Bool-cases, inl, inr,
}
use linux_kernel_struct.Memory.{Ptr, null, Memory}
use linux_kernel_struct.Bpt.{Node5}
use linux_kernel_struct.Bpt.Tree.Replace.{written}
use linux_kernel_struct.Memory.Chain.{write-ne}
use linux_kernel_struct.Bpt.Alloc.{HasSupply}

-- The supply begins with the blocks of `k` nodes, at addresses that are not in use and differ.
abbrev pub Fresh : (Ptr → Bool) → ℕ → List Ptr → Type 0
Fresh used zero supply = Unit {0}
Fresh used (suc k) supply =
    (a b c : Ptr) × (rest : List Ptr) × (supply ≡ a ∷ b ∷ c ∷ rest)
    × (a ≢ null)
    × (b ≢ null)
    × (c ≢ null)
    × (used a ≡ false)
    × Fresh (λ q. (q == a) || used q) k rest

pub record Ready (k : ℕ) (m : Memory Node5) : Type 0 where
  pub used : Ptr → Bool
  pub covers : (q : Ptr) (n : Node5) → m.cells q ≡ some n → used q ≡ true
  pub fresh : Fresh used k m.supply

unused_cell :
    (c : Option Node5) (b : Bool) → ((n : Node5) → c ≡ some n → b ≡ true) → b ≡ false → c ≡ none
unused_cell none b h out = refl
unused_cell (some n) b h out = absurd (cc (h n refl))

-- The next node, and what is left when nothing else has come into use.
pub Ready-next :
    (k : ℕ) (m : Memory Node5)
    → Ready (suc k) m
    → (a b c : Ptr) × (rest : List Ptr) × HasSupply m a b c rest
      × ((g : Memory Node5)
          → g.supply ≡ rest
          → ((q : Ptr) (n : Node5)
              → q ≢ a
              → g.cells q ≡ some n
              → (n' : Node5) × (m.cells q ≡ some n'))
          → Ready k g)
Ready-next k m r =
    let (a, b, c, rest, eq, na, nb, nc, out, more) = r.fresh in
    (
      a,
      b,
      c,
      rest,
      record {
        supply = eq;
        node = na;
        keys = nb;
        pointers = nc;
        unused = unused_cell (m.cells a) (r.used a) (r.covers a) out;
      },
      λ g s h. record {
        used = λ q. (q == a) || r.used q;
        covers = λ q n cell. elim (Bool-cases (q == a)) [
          | inl hit ↦ rw hit refl
          | inr miss ↦
              let (n', cell') = h q n (λ same. cc (miss, eq→== q a same)) cell in
              rw miss (r.covers q n' cell')
        ];
        fresh = rw s more;
      },
    )

-- What malloc will give stays when nothing comes into use.
pub Ready-keep :
    (k : ℕ) (m g : Memory Node5)
    → Ready k m
    → g.supply ≡ m.supply
    → ((q : Ptr) (n : Node5) → g.cells q ≡ some n → (n' : Node5) × (m.cells q ≡ some n'))
    → Ready k g
Ready-keep k m g r s h = record {
  used = r.used;
  covers = λ q n cell. let (n', cell') = h q n cell in r.covers q n' cell';
  fresh = rw s r.fresh;
}

-- The write of a node that is in use brings nothing into use.
pub written-used :
    (m : Memory Node5) (p : Ptr) (n n' : Node5)
    → m.cells p ≡ some n
    → (q : Ptr) (c : Node5) → (written m p n').cells q ≡ some c
    → (c' : Node5) × (m.cells q ≡ some c')
written-used m p n n' cell q c now = elim (Bool-cases (q == p)) [
  | inl hit ↦ (n, rw ((==_iff q p).0 hit) cell)
  | inr miss ↦ (c, sym (write-ne m.cells p q (some n') (λ same. cc (miss, eq→== q p same))) ∙ now)
]
