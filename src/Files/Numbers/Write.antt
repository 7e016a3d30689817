-- ===== src/Files/Numbers/Write.antt =====
-- fio_write_to_file_kno of btree/fileio.c on a queue of numbers.
use mathlib.Core.Path.{subst}
use linux_kernel_struct.Common.{
  append_assoc, append-nil, eq→==, arith, ne→==, Option, length, ℕ, zero, suc, ◌+◌, ◌<◌, ◌≡◌, refl,
  sym, ap, ◌∙◌, ◌≢◌, true, List, [], ◌∷◌, ◌++◌, none, some,
}
use linux_kernel_struct.Memory.{
  Ptr, null, Memory, Run, Returns, Returns-bind, Returns-mono, ok, fault, exited, out_of_fuel,
  write,
}
use linux_kernel_struct.Memory.Chain.{Cells}
use linux_kernel_struct.Queue.{Node, Queue, que_dequeue, que_is_empty}
use linux_kernel_struct.Queue.Links.{IsQueue}
use linux_kernel_struct.Queue.Dequeue.{que_dequeue-cons}
use linux_kernel_struct.Store.{Store, in_queues}
use linux_kernel_struct.Ustr.Compare.Strings.{IsText}
use linux_kernel_struct.Ustr.Number.Text.{decimal-IsText, uint_to_str-decimal, decimal}
use linux_kernel_struct.Int32.{inc, word}
use linux_kernel_struct.Files.Header.{fio_write_header-append, header}
use linux_kernel_struct.Files.Records.RoundTrip.{put_string_lem}
use linux_kernel_struct.Store.Laws.{free_uint-ok, uint_at-ok}
use linux_kernel_struct.Files.Numbers.{inc, write_numbers, fio_write_to_file_kno}

pub Returns-in_queues :
    {A : Type 0} (s : Store) (Q : A → Store → Type 0) (r : Run (Memory Node) A)
    → Returns (λ a m. Q a (record s { queues = m })) r
    → Returns Q (in_queues s r)
Returns-in_queues s Q (ok a m) h = h
Returns-in_queues s Q fault h = h
Returns-in_queues s Q exited h = h
Returns-in_queues s Q out_of_fuel h = h

-- No cell has the data `d`.
abbrev pub NoItem : Ptr → Cells → Type 0
NoItem d [] = Unit {0}
NoItem d ((p, x) ∷ xs) = (x ≢ d) × NoItem d xs

-- The data of the cells are different numbers, with these values.
abbrev pub Shows : (Ptr → Option ℕ) → Cells → List ℕ → Type 0
Shows uints [] [] = Unit {0}
Shows uints [] (n ∷ ns) = ⊥
Shows uints (x ∷ xs) [] = ⊥
Shows uints ((p, d) ∷ xs) (n ∷ ns) =
    (d ≢ null) × (n < word) × (uints d ≡ some n) × NoItem d xs × Shows uints xs ns

pub Shows-write :
    (uints : Ptr → Option ℕ) (d : Ptr) (v : Option ℕ) (xs : Cells) (ns : List ℕ)
    → NoItem d xs
    → Shows uints xs ns
    → Shows (write uints d v) xs ns
unfolding write
Shows-write uints d v [] [] h s = tt
Shows-write uints d v [] (n ∷ ns) h s = s
Shows-write uints d v (x ∷ xs) [] h s = s
Shows-write uints d v ((p, x) ∷ xs) (n ∷ ns) h s =
    (s.0, s.1, rw (ne→== x d h.0) s.2, s.3, Shows-write uints d v xs ns h.1 s.4)

-- The numbers in decimal digits, each with its end.
abbrev pub number_bytes : List ℕ → List ℕ
number_bytes [] = []
number_bytes (n ∷ ns) = decimal n ++ 0 ∷ number_bytes ns

write_numbers-bytes :
    (rounds : ℕ) (q : Queue) (cnt : ℕ) (out : List ℕ) (s : Store) (xs : Cells) (ns : List ℕ)
    → IsQueue s.queues q xs
    → Shows s.uints xs ns
    → length xs < rounds
    → cnt + length xs < word
    → Returns
        (λ r g. (r.0 ≡ cnt + length xs) × IsQueue g.queues r.1 [] × (r.2 ≡ out ++ number_bytes ns))
        (write_numbers rounds q cnt out s)
unfolding write_numbers que_is_empty
write_numbers-bytes zero q cnt out s xs ns v sh h small = absurd (omega arith)
write_numbers-bytes (suc rounds) q cnt out s [] [] v sh h small =
    rw (eq→== q.count 0 v.count) (omega arith, v, sym (append-nil out))
write_numbers-bytes (suc rounds) q cnt out s [] (n ∷ ns) v sh h small = absurd sh
write_numbers-bytes (suc rounds) q cnt out s (x ∷ xs) [] v sh h small = absurd sh
write_numbers-bytes (suc rounds) q cnt out s ((p, d) ∷ xs) (n ∷ ns) v sh h small =
    let full : q.count ≢ 0 = λ e. omega (arith, v.count) in
    let (tail, shown) = uint_to_str-decimal n sh.1 in
    let next_cnt : inc cnt ≡ cnt + 1 = omega arith in
    rw (ne→== q.count 0 full) (
      Returns-bind (λ r g. (r.0 ≡ some d) × IsQueue g.queues r.1 xs × (g.uints ≡ s.uints))
        (λ r g.
          (r.0 ≡ cnt + length ((p, d) ∷ xs))
          × IsQueue g.queues r.1 []
          × (r.2 ≡ out ++ number_bytes (n ∷ ns)))
        (in_queues s (que_dequeue q s.queues)) _
        (Returns-in_queues s _ (que_dequeue q s.queues) (
          Returns-mono _ _ (que_dequeue q s.queues) (que_dequeue-cons s.queues q p d xs v)
            (λ r g k. (k.0, k.1, refl))))
        (λ r g k.
          let uints_here : g.uints d ≡ some n = ap (λ f. f d) k.2 ∙ sh.2 in
          let still : Shows g.uints xs ns = subst (λ f. Shows f xs ns) (sym k.2) sh.4 in
          rw
            (
              k.0,
              uint_at-ok g d n sh.0 uints_here,
              shown,
              put_string_lem out (decimal n) tail (decimal-IsText n),
              next_cnt,
              free_uint-ok g d n sh.0 uints_here,
            )
            (Returns-mono _ _
              (write_numbers rounds r.1 (cnt + 1) (out ++ (decimal n ++ 0 ∷ []))
                (record g { uints = write g.uints d none }))
              (write_numbers-bytes rounds r.1 (cnt + 1) (out ++ (decimal n ++ 0 ∷ []))
                (record g { uints = write g.uints d none }) xs ns k.1
                (Shows-write g.uints d none xs ns sh.3 still) (omega arith) (omega arith))
              (λ r' g' k'. (
                k'.0 ∙ omega arith,
                k'.1,
                k'.2
                    ∙ append_assoc out (decimal n ++ 0 ∷ []) (number_bytes ns)
                    ∙ ap (λ z. out ++ z) (append_assoc (decimal n) (0 ∷ []) (number_bytes ns)),
              )))))

-- fio_write_to_file_kno writes the header and the numbers of the queue in order, in decimal digits,
-- and returns how many; the queue is empty then. The queue is not empty, and the rounds are more
-- than its nodes.
pub fio_write_to_file_kno-bytes :
    (rounds : ℕ) (fname r : List ℕ) (q : Queue) (s : Store) (x : Ptr × Ptr) (xs : Cells)
    (ns : List ℕ)
    → IsText fname
    → IsQueue s.queues q (x ∷ xs)
    → Shows s.uints (x ∷ xs) ns
    → length (x ∷ xs) < rounds
    → Returns
        (λ r g.
          (r.0 ≡ length (x ∷ xs))
          × IsQueue g.queues r.1 []
          × (r.2 ≡ some (header fname ++ number_bytes ns)))
        (fio_write_to_file_kno rounds true (fname ++ 0 ∷ r) q s)
unfolding fio_write_to_file_kno
fio_write_to_file_kno-bytes rounds fname r q s x xs ns is_text v sh h =
    rw (fio_write_header-append [] fname r is_text, ne→== q.count 0 (λ e. omega (arith, v.count)))
      (Returns-bind _ _ (write_numbers rounds q 0 (header fname) s) _
        (write_numbers-bytes rounds q 0 (header fname) s (x ∷ xs) ns v sh h
          (omega (arith, v.small)))
        (λ r g k. (k.0 ∙ omega arith, k.1, ap some k.2)))
