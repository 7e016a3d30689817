-- ===== src/Files/Numbers/Read.antt =====
-- fio_read_from_file_kno of btree/fileio.c, and numbers through a file and back.
use mathlib.Core.Path.{subst}
use linux_kernel_struct.Common.{
  append_assoc, length-append, ne→==, append-nil, arith, ◌^◌, length, Option, ℕ, zero, suc, ◌+◌,
  ◌<◌, ◌≡◌, refl, sym, ap, ◌≢◌, true, false, List, [], ◌∷◌, ◌++◌, some,
}
use linux_kernel_struct.Memory.{Ptr, null, Returns, Returns-bind, Returns-mono, write}
use linux_kernel_struct.Memory.Chain.{write_self, Cells, has}
use linux_kernel_struct.Queue.{Queue, que_enqueue}
use linux_kernel_struct.Queue.Links.{IsQueue}
use linux_kernel_struct.Queue.Enqueue.{que_enqueue-append}
use linux_kernel_struct.Store.{Store, in_queues}
use linux_kernel_struct.Files.Numbers.{eof, read_numbers}
use linux_kernel_struct.Int32.{word}
use linux_kernel_struct.Files.Records.RoundTrip.{read_field_lem, begins}
use linux_kernel_struct.Ustr.Number.Text.{
  str_to_uint-decimal, length-decimal, decimal-IsText, decimal,
}
use linux_kernel_struct.Files.{eof}
use linux_kernel_struct.Files.Read.Loop.{begins-ne_eof}
use linux_kernel_struct.Store.Laws.{set_uint-ok, malloc_uint-cons}
use linux_kernel_struct.Files.Numbers.Write.{
  NoItem, Shows, Shows-write, number_bytes, Returns-in_queues,
}

-- The cells of new nodes, with the numbers' addresses.
abbrev pub nodes_of : Cells → List Ptr
nodes_of [] = []
nodes_of ((a, d) ∷ rs) = a ∷ nodes_of rs

abbrev pub items_of : Cells → List Ptr
items_of [] = []
items_of ((a, d) ∷ rs) = d ∷ items_of rs

-- The addresses that malloc returns are new, one after the other.
abbrev pub AllFresh : Cells → Cells → Type 0
AllFresh xs [] = Unit {0}
AllFresh xs ((a, d) ∷ rs) =
    (a ≢ null) × (has a xs ≡ false) × (d ≢ null) × NoItem d xs × AllFresh (xs ++ (a, d) ∷ []) rs

abbrev pub AllBelow : List ℕ → Type 0
AllBelow [] = Unit {0}
AllBelow (n ∷ ns) = (n < word) × AllBelow ns

NoItem-append : (d a x : Ptr) (xs : Cells) → NoItem d xs → x ≢ d → NoItem d (xs ++ (a, x) ∷ [])
NoItem-append d a x [] h ne = (ne, tt)
NoItem-append d a x ((p, y) ∷ xs) h ne = (h.0, NoItem-append d a x xs h.1 ne)

-- A new number behind the others.
Shows-append :
    (uints : Ptr → Option ℕ) (xs : Cells) (ns : List ℕ) (a d n : ℕ)
    → Shows uints xs ns
    → NoItem d xs
    → d ≢ null
    → n < word
    → uints d ≡ some n
    → Shows uints (xs ++ (a, d) ∷ []) (ns ++ n ∷ [])
Shows-append uints [] [] a d n s out ne b e = (ne, b, e, tt, tt)
Shows-append uints [] (m ∷ ns) a d n s out ne b e = absurd s
Shows-append uints (x ∷ xs) [] a d n s out ne b e = absurd s
Shows-append uints ((p, y) ∷ xs) (m ∷ ns) a d n s out ne b e = (
  s.0,
  s.1,
  s.2,
  NoItem-append y a d xs s.3 (λ z. out.0 (sym z)),
  Shows-append uints xs ns a d n s.4 out.1 ne b e,
)

pub read_numbers-append :
    (rounds : ℕ) (q : Queue) (s : Store) (xs news : Cells) (ms ns : List ℕ) (ra rd : List Ptr)
    → IsQueue s.queues q xs
    → Shows s.uints xs ms
    → s.queues.supply ≡ nodes_of news ++ ra
    → s.supply ≡ items_of news ++ rd
    → AllFresh xs news
    → AllBelow ns
    → length news ≡ length ns
    → length xs + length ns < 2 ^ 31
    → length ns < rounds
    → Returns
        (λ r g.
          (r.0 ≡ true) × IsQueue g.queues r.1 (xs ++ news) × Shows g.uints (xs ++ news) (ms ++ ns))
        (read_numbers rounds (number_bytes ns) q s)
unfolding read_numbers
read_numbers-append zero q s xs news ms ns ra rd v sh sa sd fresh below same room h =
    absurd (omega arith)
read_numbers-append (suc rounds) q s xs [] ms [] ra rd v sh sa sd fresh below same room h =
    rw (append-nil xs, append-nil ms) (refl, v, sh)
read_numbers-append (suc rounds) q s xs [] ms (n ∷ ns) ra rd v sh sa sd fresh below same room h =
    absurd (omega arith)
read_numbers-append (suc rounds) q s xs (c ∷ news) ms [] ra rd v sh sa sd fresh below same room h =
    absurd (omega arith)
read_numbers-append (suc rounds) q s xs ((a, d) ∷ news) ms (n ∷ ns) ra rd v sh sa sd
      (ne, out, dn, other, fresh) below same room h =
    let s1 : Store = record s { uints = write s.uints d (some 0); supply = items_of news ++ rd } in
    let s2 : Store = record s1 { uints = write s1.uints d (some n) } in
    let shows2 : Shows s2.uints xs ms =
      Shows-write s1.uints d (some n) xs ms other (Shows-write s.uints d (some 0) xs ms other sh) in
    rw
      (
        ne→== (begins (decimal n) (number_bytes ns)).0 eof
            (begins-ne_eof (decimal n) (number_bytes ns) (decimal-IsText n)),
        read_field_lem 78 (decimal n) (number_bytes ns) (decimal-IsText n)
            (omega (arith, length-decimal n)),
        str_to_uint-decimal n [] below.0,
        malloc_uint-cons s d (items_of news ++ rd) sd dn,
        ne→== d null dn,
        set_uint-ok s1 d 0 n dn (write_self s.uints d (some 0)),
      )
      (Returns-bind
        (λ r g.
          IsQueue g.queues r.1 (xs ++ (a, d) ∷ [])
          × (g.queues.supply ≡ nodes_of news ++ ra)
          × (g.uints ≡ s2.uints)
          × (g.supply ≡ s2.supply))
        _ (in_queues s2 (que_enqueue q d s2.queues)) _
        (Returns-in_queues s2 _ (que_enqueue q d s2.queues) (
          Returns-mono _ _ (que_enqueue q d s2.queues)
            (que_enqueue-append s2.queues q xs a d (nodes_of news ++ ra) v sa
              (record { ne_null = ne; unused = out }) (omega arith))
            (λ r g k. (k.1, ap (λ m. m.supply) k.2, refl, refl))))
        (λ r g k.
          let shows3 : Shows g.uints (xs ++ (a, d) ∷ []) (ms ++ n ∷ []) =
            subst (λ f. Shows f (xs ++ (a, d) ∷ []) (ms ++ n ∷ [])) (sym k.2)
              (Shows-append s2.uints xs ms a d n shows2 other dn below.0
                (write_self s1.uints d (some n))) in
          Returns-mono _ _ (read_numbers rounds (number_bytes ns) r.1 g)
            (read_numbers-append rounds r.1 g (xs ++ (a, d) ∷ []) news (ms ++ n ∷ []) ns ra rd k.0
              shows3 k.1 k.3 fresh below.1 (omega arith)
              (omega (arith, length-append xs ((a, d) ∷ []))) (omega arith))
            (λ r' g' k'. (
              k'.0,
              subst (λ z. IsQueue g'.queues r'.1 z) (append_assoc xs ((a, d) ∷ []) news) k'.1,
              subst (λ z. Shows g'.uints z (ms ++ (n ∷ ns))) (append_assoc xs ((a, d) ∷ []) news)
                  (subst (λ z. Shows g'.uints ((xs ++ (a, d) ∷ []) ++ news) z)
                    (append_assoc ms (n ∷ []) ns) k'.2),
            ))))
