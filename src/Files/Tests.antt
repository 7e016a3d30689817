-- ===== src/Files/Tests.antt =====
-- The theorems on btree/fileio.c at small files, trees and queues.
use Prim.Native.Nat.{compare}
use linux_kernel_struct.Common.{
  arith, ◌≢◌, ◌%◌, ◌+◌, ℕ, ◌≡◌, refl, true, false, none, some, List, [], ◌∷◌, ◌++◌, if◌then◌else◌,
  ◌==◌, replicate,
}
use linux_kernel_struct.Memory.{Ptr, null, write, ok, Returns}
use linux_kernel_struct.Queue.{node, Queue}
use linux_kernel_struct.Queue.Links.{IsQueue}
use linux_kernel_struct.Bpt.{Node5, Btree, Env}
use linux_kernel_struct.Bpt.Tree.{Stored, Tree, leaf, entries}
use linux_kernel_struct.Store.{by_key, Store}
use linux_kernel_struct.Files.{minus_one, word, fio_read_header, fio_write_header}
use linux_kernel_struct.Files.Header.{
  IsLine-IsText, is_line-IsLine, IsLine, fio_read_header-none, fio_read_header-fio_write_header,
  header,
}
use linux_kernel_struct.Files.Numbers.RoundTrip.{
  fio_read_from_file_kno-fio_write_to_file_kno, IsReady,
}
use linux_kernel_struct.Files.Numbers.Write.{Shows}
use linux_kernel_struct.Files.Write.{fio_write_to_file_trans}
use linux_kernel_struct.Files.Read.Loop.{process}
use linux_kernel_struct.Int32.{word}
use linux_kernel_struct.Ustr.Compare.{minus_one}
use linux_kernel_struct.Files.Read.{Hashed, hash_step, fio_read_trans_hash}
use linux_kernel_struct.Files.Write.Entries.{bytes}
use linux_kernel_struct.Files.Write.Bytes.{fio_write_to_file_trans-bytes, trans_bytes}
use linux_kernel_struct.Files.Read.RoundTrip.{fio_read_trans_hash-fio_write_to_file_trans, records}
use linux_kernel_struct.Files.Numbers.{fio_read_from_file_kno, fio_write_to_file_kno}

-- "w.t"
abbrev fname : List ℕ
fname = 119 ∷ 46 ∷ 116 ∷ []

-- "x"
abbrev other : List ℕ
other = 120 ∷ []

abbrev buffer : List ℕ
buffer = replicate 80 0

fname-IsLine : IsLine fname
fname-IsLine = is_line-IsLine fname refl

fio_read_header-fio_write_header_example :
    (file rest : List ℕ) × (fio_write_header [] (fname ++ 0 ∷ []) ≡ some file)
    × ((fname ≡ other)
        → fio_read_header (file ++ 65 ∷ []) (other ++ 0 ∷ []) buffer ≡ some (1, 65 ∷ []))
    × ((fname ≢ other)
        → fio_read_header (file ++ 65 ∷ []) (other ++ 0 ∷ []) buffer ≡ some (minus_one, rest))
fio_read_header-fio_write_header_example =
    fio_read_header-fio_write_header fname other [] [] (65 ∷ []) buffer fname-IsLine
      (omega arith, omega arith, tt) (omega arith) (omega arith)

-- An empty file.
fio_read_header-none_example : fio_read_header [] (fname ++ 0 ∷ []) buffer ≡ none
fio_read_header-none_example = fio_read_header-none [] (fname ++ 0 ∷ []) buffer tt

-- Strings "1_" at 1 and "2_" elsewhere.
abbrev chars : Ptr → List ℕ
chars p = (if p == 1 then 49 else 50) ∷ 95 ∷ []

abbrev sentences : Node5
sentences = record {
  parent = null;
  is_leaf = true;
  num_keys = 1;
  pointers = record { cap = 4; at = λ i. if i == 0 then 2 else 0 };
  keys = record { cap = 3; at = λ i. i + 1 };
  next = null;
}

abbrev store : Store
store = record {
  trees = record { cells = write (λ _. none) 3 (some sentences); blocks = λ _. false; supply = [] };
  queues = record {
    cells = write (write (λ _. none) 1 (some (node 10 2))) 2 (some (node 20 null));
    blocks = λ _. false;
    supply = 4 ∷ 5 ∷ [];
  };
  texts = λ p. some (chars p ++ 0 ∷ []);
  uints = write (write (λ _. none) 10 (some 7)) 20 (some 42);
  supply = 30 ∷ 31 ∷ [];
}

abbrev btree : Btree
btree = record { root = 3; order = 4; kno = 1; kcnt = 1; samek = true }

abbrev tree : Tree
tree = leaf 3 sentences

abbrev env : Env
env = record { compare = compare; uninit = λ _. 0 }

tree-Stored : Stored store.trees 4 null null tree
unfolding write
tree-Stored = (ground arith, refl, refl, refl, refl, refl, omega arith, refl)

fio_write_to_file_trans-bytes_example :
    fio_write_to_file_trans 1 true (fname ++ 0 ∷ []) btree store
    ≡ ok (1 % word, some (header fname ++ bytes (trans_bytes chars) (entries tree))) store
fio_write_to_file_trans-bytes_example =
    fio_write_to_file_trans-bytes store 1 fname [] btree tree null chars tree-Stored refl
      (ground arith) (omega arith) (omega arith) (IsLine-IsText fname fname-IsLine)
      (
        (
          (ground arith, (omega arith, omega arith, (omega arith, omega arith, tt)), refl),
          (ground arith, (omega arith, omega arith, (omega arith, omega arith, tt)), refl),
        ),
        tt,
      )

fio_read_trans_hash-fio_write_to_file_trans_example :
    (file : List ℕ) × (fio_write_to_file_trans 1 true (fname ++ 0 ∷ []) btree store
      ≡ ok (1 % word, some file) store)
    × (fio_read_trans_hash env 1 (some file) (fname ++ 0 ∷ []) buffer [] [] true store
        ≡ process
            (hash_step (by_key env) 1 true)
            (records chars (entries tree))
            (record { left = []; right = []; sno = 0 })
            store)
fio_read_trans_hash-fio_write_to_file_trans_example =
    fio_read_trans_hash-fio_write_to_file_trans store store 1 1 fname [] [] buffer btree tree null
      chars env [] [] true tree-Stored refl (ground arith) (omega arith) (omega arith) fname-IsLine
      (omega arith) (omega arith)
      (
        (
          (
            (ground arith, (omega arith, omega arith, (omega arith, omega arith, tt)), refl),
            omega arith,
          ),
          (
            (ground arith, (omega arith, omega arith, (omega arith, omega arith, tt)), refl),
            omega arith,
          ),
        ),
        tt,
      )

-- A file of three bytes, which ends inside a record.
abbrev cut_file : List ℕ
cut_file = 49 ∷ 0 ∷ 65 ∷ []

abbrev none_read : Hashed
none_read = record { left = btree ∷ []; right = btree ∷ []; sno = 0 }

abbrev queue : Queue
queue = record { front = 1; rear = 2; count = 2 }

abbrev empty : Queue
empty = record { front = null; rear = null; count = 0 }

queue-IsQueue : IsQueue store.queues queue ((1, 10) ∷ (2, 20) ∷ [])
unfolding write
queue-IsQueue = record {
  links = (ground arith, refl, refl, (ground arith, refl, refl, tt));
  front = refl;
  rear = refl;
  count = refl;
  small = omega arith;
}

queue-Shows : Shows store.uints ((1, 10) ∷ (2, 20) ∷ []) (7 ∷ 42 ∷ [])
unfolding write
queue-Shows = (
  ground arith,
  omega arith,
  refl,
  ((λ e. ground arith), tt),
  (ground arith, omega arith, refl, tt, tt),
)

empty-IsReady : IsReady store empty [] ((4, 30) ∷ (5, 31) ∷ []) []
empty-IsReady = record {
  more_nodes = [];
  more_numbers = [];
  is_queue = record { links = tt; front = refl; rear = refl; count = refl; small = omega arith };
  shows = tt;
  nodes = refl;
  numbers = refl;
  fresh = (
    ground arith,
    refl,
    ground arith,
    tt,
    (ground arith, refl, ground arith, ((λ e. ground arith), tt), tt),
  );
  small = omega arith;
}

fio_read_from_file_kno-fio_write_to_file_kno_example :
    Returns
      (λ w g.
        (w.0 ≡ 2)
        × IsQueue g.queues w.1 []
        × Returns
            (λ z g'.
              (z.0 ≡ 0 + 2)
              × IsQueue g'.queues z.1 ((4, 30) ∷ (5, 31) ∷ [])
              × Shows g'.uints ((4, 30) ∷ (5, 31) ∷ []) (7 ∷ 42 ∷ []))
            (fio_read_from_file_kno w.2 (fname ++ 0 ∷ []) buffer empty store))
      (fio_write_to_file_kno 3 true (fname ++ 0 ∷ []) queue store)
fio_read_from_file_kno-fio_write_to_file_kno_example =
    fio_read_from_file_kno-fio_write_to_file_kno 3 fname [] [] buffer queue empty store store
      (1, 10) ((2, 20) ∷ []) [] ((4, 30) ∷ (5, 31) ∷ []) (7 ∷ 42 ∷ []) [] fname-IsLine (omega arith)
      (omega arith) queue-IsQueue queue-Shows (omega arith) empty-IsReady refl
