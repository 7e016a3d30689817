-- ===== src/Files/Read/Loop.antt =====
-- The loop of btree/fileio.c over the records of a file.
use linux_kernel_struct.Common.{
  inr, inl, ne→==, Bool-cases, arith, if◌then◌else◌, length, ℕ, zero, suc, ◌≤◌, ◌<◌, ◌≡◌, refl, ◌≢◌,
  Bool, List, [], ◌∷◌, ◌++◌,
}
use linux_kernel_struct.Memory.{and_then, Cmd, Run, ok, fault, exited, out_of_fuel, pure, ◌>>=◌}
use linux_kernel_struct.Files.{fgetc, eof}
use linux_kernel_struct.Files.Records.{read_field, read_record}
use linux_kernel_struct.Store.{Store, StoreCmd}
use linux_kernel_struct.Ustr.Compare.Strings.{IsText}
use linux_kernel_struct.Files.Records.RoundTrip.{read_field_lem, begins}
use linux_kernel_struct.Files.Read.{Store, read_loop}

-- Two strings that fit into the buffers.
abbrev pub Fits : ℕ → List ℕ → Type 0
Fits room s = IsText s × (length s ≤ room)

abbrev pub Records : Type 0
Records = List (List ℕ × List ℕ)

abbrev pub AllFit : ℕ → Records → Type 0
AllFit room [] = Unit {0}
AllFit room ((k, w) ∷ rs) = Fits room k × Fits room w × AllFit room rs

-- The bytes of records in a file.
abbrev pub encoded : Records → List ℕ
encoded [] = []
encoded ((k, w) ∷ rs) = k ++ 0 ∷ (w ++ 0 ∷ encoded rs)

pub read_record_lem :
    (room : ℕ) (k w rest : List ℕ)
    → Fits room k
    → Fits room w
    → read_record room (begins k (w ++ 0 ∷ rest)).0 (begins k (w ++ 0 ∷ rest)).1
      ≡ (k ++ 0 ∷ [], w ++ 0 ∷ [], rest)
unfolding read_record
read_record_lem room k w rest hk hw =
    rw (read_field_lem room k (w ++ 0 ∷ rest) hk.0 hk.1, read_field_lem room w rest hw.0 hw.1) refl

-- A field or its end begins with a byte.
pub begins-ne_eof : (s rest : List ℕ) → IsText s → (begins s rest).0 ≢ eof
begins-ne_eof [] rest h e = absurd (omega arith)
begins-ne_eof (c ∷ s) rest h e = omega (arith, h.1)

abbrev rest_of : ℕ → ℕ → List ℕ → List ℕ
rest_of room ch file = (read_field room ch file).2

-- The record at the start of a file, and the bytes behind it.
abbrev taken : ℕ → List ℕ → List ℕ × List ℕ
taken room file = let (k, w, rest) = read_record room (fgetc file).0 (fgetc file).1 in (k, w)

abbrev rest_behind : ℕ → List ℕ → List ℕ
rest_behind room file = (read_record room (fgetc file).0 (fgetc file).1).2

-- The records that the bytes of a file hold, as the buffers take them up: each is read from the first
-- byte behind the one before, up to the end of the file.
pub data Holds (room : ℕ) : List ℕ → Records → Type 0 where
  at_end : {file : List ℕ} → (fgetc file).0 ≡ eof → Holds room file []
  one_more :
      {file : List ℕ} {rs : Records}
      → (fgetc file).0 ≢ eof
      → Holds room (rest_behind room file) rs
      → Holds room file (taken room file ∷ rs)

and_then-same :
    {S A B : Type 0} (r : Run S A) (f g : A → Cmd S B)
    → ((a : A) (s : S) → f a s ≡ g a s)
    → and_then r f ≡ and_then r g
and_then-same (ok a s) f g h = h a s
and_then-same fault f g h = refl
and_then-same exited f g h = refl
and_then-same out_of_fuel f g h = refl

module _ {A : Type 0} (step : List ℕ → List ℕ → A → StoreCmd (A × Bool)) where
  -- What is done with a list of records.
  abbrev pub process : Records → A → StoreCmd A
  process [] a = pure a
  process ((k, w) ∷ rs) a = do
    (a', go_on) ← step (k ++ 0 ∷ []) (w ++ 0 ∷ []) a
    if go_on then process rs a' else pure a'

  -- On a file of records whose strings fit into the buffers, the loop does with every record in
  -- order what is done in a round, until that breaks off.
  pub read_loop-process :
      (rounds room : ℕ) (rs : Records) (a : A) (s : Store)
      → AllFit room rs
      → length rs < rounds
      → read_loop step rounds room (encoded rs) a s ≡ process rs a s
  unfolding read_loop
  read_loop-process zero room rs a s fit h = absurd (omega arith)
  read_loop-process (suc rounds) room [] a s fit h = refl
  read_loop-process (suc rounds) room ((k, w) ∷ rs) a s (hk, hw, fit) h =
      rw
        (
          ne→== (begins k (w ++ 0 ∷ encoded rs)).0 eof (begins-ne_eof k (w ++ 0 ∷ encoded rs) hk.0),
          read_record_lem room k w (encoded rs) hk hw,
        )
        (and_then-same (step (k ++ 0 ∷ []) (w ++ 0 ∷ []) a s)
          (λ x. if x.1 then read_loop step rounds room (encoded rs) x.0 else pure x.0)
          (λ x. if x.1 then process rs x.0 else pure x.0)
          (λ x s'. elim (Bool-cases x.1) [
            | inl e ↦ rw e (read_loop-process rounds room rs x.0 s' fit (omega arith))
            | inr e ↦ rw e refl
          ]))

  -- What is done with a list of records as the buffers hold them.
  abbrev pub run_all : Records → A → StoreCmd A
  run_all [] a = pure a
  run_all ((k, w) ∷ rs) a = do (a', go_on) ← step k w a; if go_on then run_all rs a' else pure a'
