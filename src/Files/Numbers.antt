-- ===== src/Files/Numbers.antt =====
-- fio_read_from_file_kno and fio_write_to_file_kno of btree/fileio.c: the numbers of deleted words,
-- which a queue keeps.
pub mod Write
pub mod Read
pub mod RoundTrip
use linux_kernel_struct.Common.{
  ℕ, zero, suc, Bool, true, false, Option, none, some, List, [], ◌==◌, if◌then◌else◌, length,
  replicate, not,
}
use linux_kernel_struct.Memory.{null, out_of_fuel, pure, ◌>>=◌, ◌>>◌}
use linux_kernel_struct.Int32.{inc}
use linux_kernel_struct.Ustr.Number.{uint_to_str, str_to_uint}
use linux_kernel_struct.Ustr.Compare.{minus_one}
use linux_kernel_struct.Queue.{Queue, que_enqueue, que_dequeue, que_is_empty}
use linux_kernel_struct.Store.{StoreCmd, on_queues, lift, malloc_uint, set_uint, uint_at, free_uint}
use linux_kernel_struct.Files.{eof, fgetc, fio_read_header, fio_write_header}
use linux_kernel_struct.Files.Records.{read_field, put_string}

-- The loop over the numbers of a file. False where malloc fails.
unfoldable pub read_numbers : ℕ → List ℕ → Queue → StoreCmd (Bool × Queue)
read_numbers zero file q = λ _. out_of_fuel
read_numbers (suc rounds) file q =
    let (ch, rest) = fgetc file in
    if ch == eof then pure (true, q) else do
      let (in_key, last, file') = read_field 78 ch rest
      kno ← lift (str_to_uint in_key)
      pno ← malloc_uint
      if pno == null then pure (false, q) else do
        set_uint pno kno
        (done, q') ← on_queues (que_enqueue q pno)
        read_numbers rounds file' q'

-- The queue's `count` comes back. `file` is none where fopen gives NULL.
unfoldable pub fio_read_from_file_kno :
    Option (List ℕ) → List ℕ → List ℕ → Queue → StoreCmd (ℕ × Queue)
fio_read_from_file_kno none fname buf q = pure (0, q)
fio_read_from_file_kno (some file) fname buf q = do
  (status, rest) ← lift (fio_read_header file fname buf)
  if status == minus_one then pure (0, q) else do
    (done, q') ← read_numbers (suc (length rest)) rest q
    pure (if done then q'.count else 0, q')

-- The loop that empties the queue: how many numbers, the queue and the file.
unfoldable pub write_numbers : ℕ → Queue → ℕ → List ℕ → StoreCmd (ℕ × Queue × List ℕ)
write_numbers zero q cnt out = λ _. out_of_fuel
write_numbers (suc rounds) q cnt out = if que_is_empty q then pure (cnt, q, out) else do
  (data_out, q') ← on_queues (que_dequeue q)
  elim data_out [
    | none ↦ pure (cnt, q', out)
    | some pno ↦ do
      n ← uint_at pno
      akey ← lift (uint_to_str n (replicate 80 0))
      o ← lift (put_string out akey)
      free_uint pno
      write_numbers rounds q' (inc cnt) o
  ]

unfoldable pub fio_write_to_file_kno :
    ℕ → Bool → List ℕ → Queue → StoreCmd (ℕ × Queue × Option (List ℕ))
fio_write_to_file_kno rounds opened fname q = if not opened then pure (0, q, none) else do
  out ← lift (fio_write_header [] fname)
  if q.count == 0
      then pure (0, q, some out)
      else do (cnt, q', o) ← write_numbers rounds q 0 out; pure (cnt, q', some o)
