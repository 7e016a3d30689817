-- ===== src/Files/Numbers/RoundTrip.antt =====
-- The numbers of deleted words through a file: fio_write_to_file_kno and fio_read_from_file_kno of
-- btree/fileio.c.
use linux_kernel_struct.Common.{
  length-append, arith, ◌^◌, Option, length, ℕ, suc, ◌+◌, ◌≤◌, ◌<◌, ◌≡◌, refl, ap, ◌∙◌, true, List,
  [], ◌∷◌, ◌++◌,
}
use linux_kernel_struct.Memory.{Ptr, Returns, Returns-bind, Returns-mono}
use linux_kernel_struct.Memory.Chain.{Cells}
use linux_kernel_struct.Queue.{Queue}
use linux_kernel_struct.Queue.Links.{IsQueue}
use linux_kernel_struct.Store.{Store}
use linux_kernel_struct.Files.Numbers.{read_numbers, fio_read_from_file_kno, fio_write_to_file_kno}
use linux_kernel_struct.Files.Numbers.Write.{Shows, number_bytes, fio_write_to_file_kno-bytes}
use linux_kernel_struct.Files.Header.{fio_read_header-header, IsLine-IsText, IsLine}
use linux_kernel_struct.Ustr.Number.Text.{decimal}
use linux_kernel_struct.Files.Numbers.Read.{
  nodes_of, items_of, AllFresh, AllBelow, read_numbers-append,
}

Shows-facts :
    (uints : Ptr → Option ℕ) (xs : Cells) (ns : List ℕ)
    → Shows uints xs ns
    → AllBelow ns × (length xs ≡ length ns)
Shows-facts uints [] [] s = (tt, refl)
Shows-facts uints [] (n ∷ ns) s = absurd s
Shows-facts uints (x ∷ xs) [] s = absurd s
Shows-facts uints ((p, d) ∷ xs) (n ∷ ns) s =
    let (below, same) = Shows-facts uints xs ns s.4 in ((s.1, below), ap suc same)

length-number_bytes : (ns : List ℕ) → length ns ≤ length (number_bytes ns)
length-number_bytes [] = omega arith
length-number_bytes (n ∷ ns) =
    omega (arith, length-append (decimal n) (0 ∷ number_bytes ns), length-number_bytes ns)

-- What stands ready for reading: a queue with its numbers, and addresses that malloc returns, a node
-- and a number for each of the cells `news`.
pub record IsReady (s : Store) (q : Queue) (xs news : Cells) (ms : List ℕ) : Type 0 where
  pub more_nodes : List Ptr
  pub more_numbers : List Ptr
  pub is_queue : IsQueue s.queues q xs
  pub shows : Shows s.uints xs ms
  pub nodes : s.queues.supply ≡ nodes_of news ++ more_nodes
  pub numbers : s.supply ≡ items_of news ++ more_numbers
  pub fresh : AllFresh xs news
  pub small : length xs + length news < 2 ^ 31

-- The numbers of a queue that is not empty, written by fio_write_to_file_kno and read by
-- fio_read_from_file_kno under the same name, stand in the same order behind those of the queue that
-- reads them; writing empties its queue and returns how many there were, reading returns the length
-- of its queue. The name is a line that fits into the buffer.
pub fio_read_from_file_kno-fio_write_to_file_kno :
    (rounds : ℕ) (fname r p buf : List ℕ) (q q' : Queue) (s s' : Store) (x : Ptr × Ptr)
    (xs xs' news : Cells) (ns ms : List ℕ)
    → IsLine fname
    → length fname < length buf
    → 23 < length buf
    → IsQueue s.queues q (x ∷ xs)
    → Shows s.uints (x ∷ xs) ns
    → length (x ∷ xs) < rounds
    → IsReady s' q' xs' news ms
    → length news ≡ length ns
    → Returns
        (λ w g.
          (w.0 ≡ length ns)
          × IsQueue g.queues w.1 []
          × Returns
              (λ z g'.
                (z.0 ≡ length ms + length ns)
                × IsQueue g'.queues z.1 (xs' ++ news)
                × Shows g'.uints (xs' ++ news) (ms ++ ns))
              (fio_read_from_file_kno w.2 (fname ++ 0 ∷ p) buf q' s'))
        (fio_write_to_file_kno rounds true (fname ++ 0 ∷ r) q s)
unfolding fio_read_from_file_kno
fio_read_from_file_kno-fio_write_to_file_kno rounds fname r p buf q q' s s' x xs xs' news ns ms line
      room1 room2 v sh h ready same =
    let (below, len) = Shows-facts s.uints (x ∷ xs) ns sh in
    let (_, len') = Shows-facts s'.uints xs' ms ready.shows in
    let body = number_bytes ns in
    Returns-mono _ _ (fio_write_to_file_kno rounds true (fname ++ 0 ∷ r) q s)
      (fio_write_to_file_kno-bytes rounds fname r q s x xs ns (IsLine-IsText fname line) v sh h)
      (λ w g k. (
        k.0 ∙ len,
        k.1,
        rw (k.2, fio_read_header-header fname p body buf line room1 room2)
            (Returns-bind
              (λ z g'.
                (z.0 ≡ true)
                × IsQueue g'.queues z.1 (xs' ++ news)
                × Shows g'.uints (xs' ++ news) (ms ++ ns))
              _ (read_numbers (suc (length body)) body q' s') _
              (read_numbers-append (suc (length body)) q' s' xs' news ms ns ready.more_nodes
                ready.more_numbers ready.is_queue ready.shows ready.nodes ready.numbers ready.fresh
                below same (omega (arith, ready.small)) (omega (arith, length-number_bytes ns)))
              (λ z g' k'.
                rw (k'.0) (k'.1.count ∙ omega (arith, length-append xs' news), k'.1, k'.2))),
      ))
