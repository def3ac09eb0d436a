-- ===== src/OpDumper/WholeTrace.antt =====
-- A whole trace file: what was added, one operation after the other, is read back in order.
use mathlib.Core.List.{append-nil, append_assoc, map}
use cmpe220fall.Base.{ℕ, suc, List, [], ◌∷◌, ◌++◌, some, ◌≡◌, refl, length, true}
use cmpe220fall.OpDumper.Outcome.{Outcome, ok, ◌>>=◌, Unspecified}
use cmpe220fall.OpDumper.Operation.{Operation}
use cmpe220fall.OpDumper.Binary.{get_binary}
use cmpe220fall.OpDumper.Trace.{Dumper, add, has_next, check_mode, check_file_state, file_read}
use cmpe220fall.OpDumper.Main.{read_loop}
use cmpe220fall.OpDumper.Logged.{IsOperation, logged}
use cmpe220fall.OpDumper.Values.{Readable}
use cmpe220fall.OpDumper.RoundTrip.{IsBack, operation-IsBack, reading, writing, write_all_lem}

-- Operations added one after the other.
abbrev pub add_all : Unspecified → List Operation → Dumper → Outcome Dumper
add_all u [] d = ok d
add_all u (op ∷ ops) d = add u op d >>= λ d'. add_all u ops d'

-- Operations that a trace can hold.
abbrev pub AllOperations : Unspecified → List Operation → Type 0
AllOperations u [] = Unit
AllOperations u (op ∷ ops) = (IsOperation op × Readable u op) × AllOperations u ops

module _ (u : Unspecified) where
  add_lem :
      (op : Operation) (bytes out rest : List ℕ)
      → get_binary u op ≡ ok bytes
      → add u op (writing out rest) ≡ ok (writing (out ++ bytes) rest)
  unfolding add check_mode check_file_state
  add_lem op bytes out rest e = rw (e, write_all_lem bytes out rest true)

  has_next_lem :
      (b : ℕ) (bs out : List ℕ) → has_next (reading out (b ∷ bs)) ≡ ok (true, reading out (b ∷ bs))
  unfolding has_next check_file_state file_read
  has_next_lem b bs out = refl

  record Kept (ops : List Operation) : Type 0 where
    bytes : List ℕ
    added :
        (out rest : List ℕ) → add_all u ops (writing out rest) ≡ ok (writing (out ++ bytes) rest)
    read :
        (out : List ℕ)
        → read_loop u (suc (length ops)) (reading out bytes) ≡ ok (some (map (logged u) ops))

  Kept-nil : Kept []
  unfolding read_loop has_next check_file_state file_read
  Kept-nil = record { bytes = []; added = λ out rest. rw append-nil; read = λ out. refl }

  Kept-cons : (op : Operation) (ops : List Operation) → IsBack u op → Kept ops → Kept (op ∷ ops)
  unfolding read_loop
  Kept-cons op ops b k = record {
    bytes = b.head ∷ (b.tail ++ k.bytes);
    added = λ out rest. rw (
      add_lem op (b.head ∷ b.tail) out rest b.written,
      k.added (out ++ b.head ∷ b.tail) rest,
      append_assoc,
    );
    read = λ out. rw (has_next_lem b.head (b.tail ++ k.bytes) out, b.got out k.bytes, k.read out);
  }

  kept : (ops : List Operation) → AllOperations u ops → Kept ops
  kept [] h = Kept-nil
  kept (op ∷ ops) h = Kept-cons op ops (operation-IsBack u op h.0.0 h.0.1) (kept ops h.1)

  -- For operations that setters have made, at 64-bit addresses that are multiples of 8, with data
  -- of at most 8 bytes or on a machine whose shifts take their count modulo 64: adding them to an
  -- open trace writes bytes behind those that are there, and the reading loop of main on a trace of
  -- these bytes gives back the operations in order, each with what a trace keeps of it, in one
  -- round more than there are operations.
  pub read_loop-add_all :
      (ops : List Operation)
      → AllOperations u ops
      → (bytes : List ℕ) × ((out rest : List ℕ)
          → add_all u ops (writing out rest) ≡ ok (writing (out ++ bytes) rest))
        × ((out : List ℕ)
            → read_loop u (suc (length ops)) (reading out bytes) ≡ ok (some (map (logged u) ops)))
  read_loop-add_all ops h = let k = kept ops h in (k.bytes, k.added, k.read)
