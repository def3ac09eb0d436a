-- ===== src/OpDumper/Trace.antt =====
-- class Dumper: op_dumper/dumper.hpp and dumper.cpp. A file is what an `fstream` in binary mode
-- shows of it: the bytes written so far, the bytes left to read, and its state bits.
use cmpe220fall.Base.{
  ℕ, zero, suc, ◌+◌, ◌*◌, ◌%◌, ◌==◌, ltb, Bool, true, false, not, ◌&&◌, ◌||◌, List, [], ◌∷◌, ◌++◌,
  Option, none, some, bit_and, bit_or, length, if◌then◌else◌,
}
use cmpe220fall.Base.Word.{shl64}
use cmpe220fall.OpDumper.Outcome.{
  Outcome, ok, exited, ◌>>=◌, ◌>>◌, error_dumper_mode_invalid, error_dumper_file_invalid,
  Unspecified,
}
use cmpe220fall.OpDumper.Operation.{
  Operation, operation, optype_lc, get_op_type_by_op_num, set_live_cache_op, set_addr, set_val,
}
use cmpe220fall.OpDumper.Binary.{ebmask_bin, get_binary, set_from_binary}

abbrev pub mode_uninit : ℕ
mode_uninit = 0

abbrev pub mode_read : ℕ
mode_read = 1

abbrev pub mode_write : ℕ
mode_write = 2

pub record File : Type 0 where
  pub is_open : Bool
  pub eof : Bool
  pub fail : Bool
  pub written : List ℕ
  pub rest : List ℕ

pub record Dumper : Type 0 where
  pub file : File
  pub mode : ℕ

-- `file.write` of a byte.
unfoldable pub file_write : ℕ → File → File
file_write b f = if f.eof || f.fail then f else record f { written = f.written ++ b ∷ [] }

abbrev pub take_byte : List ℕ → ℕ → File → ℕ × File
take_byte [] unit f = (unit, record f { eof = true; fail = true })
take_byte (b ∷ bs) unit f = (b, record f { rest = bs })

-- `file.read` of a byte: at the end, or on a failed stream, the byte that was there stays.
unfoldable pub file_read : ℕ → File → ℕ × File
file_read unit f =
    if f.eof || f.fail then (unit, record f { fail = true }) else take_byte f.rest unit f

unfoldable pub check_mode : ℕ → Dumper → Outcome (Unit {0})
check_mode mode d =
    if not (mode == mode_read) && not (mode == mode_write)
    then exited error_dumper_mode_invalid
    else if not (mode == d.mode)
    then exited error_dumper_mode_invalid
    else ok tt

unfoldable pub check_file_state : Dumper → Outcome (Unit {0})
check_file_state d = if not d.file.is_open then exited error_dumper_file_invalid else ok tt

unfoldable pub write_all : List ℕ → File → File
unfolding file_write
write_all [] f = f
write_all (b ∷ bs) f = write_all bs (file_write b f)

unfoldable pub add : Unspecified → Operation → Dumper → Outcome Dumper
add u op d = do
  check_mode mode_write d
  check_file_state d
  bin ← get_binary u op
  ok (record d { file = write_all bin d.file })

-- The loop of the address of a LiveCache operation: byte `i`, the byte read last, the address.
unfoldable pub read_address : ℕ → ℕ → ℕ → ℕ → File → ℕ × File
unfolding file_read
read_address i zero unit address f = (address, f)
read_address i (suc n) unit address f =
    let (b, g) = file_read unit f in read_address (i + 1) n b (bit_or address (shl64 b (i * 8))) g

-- The loop of the bytes after the first: what was read, and the byte read last.
unfoldable pub read_fixed : ℕ → ℕ → List ℕ → File → List ℕ × ℕ × File
unfolding file_read
read_fixed zero unit binary f = (binary, unit, f)
read_fixed (suc n) unit binary f =
    let (b, g) = file_read unit f in read_fixed n b (binary ++ b ∷ []) g

-- The loop of the data: `dataUnit`, and the units that are done.
unfoldable pub read_data : ℕ → ℕ → ℕ → ℕ → List ℕ → File → List ℕ × ℕ × File
unfolding file_read
read_data i zero unit data_unit units f = (units, data_unit, f)
read_data i (suc n) unit data_unit units f =
    let fresh = if i % 8 == 0 then 0 else data_unit in
    let (b, g) = file_read unit f in
    let joined = bit_or fresh (shl64 (bit_and b ebmask_bin) (i * 8 % 64)) in
    read_data (i + 1) n b joined (if (i + 1) % 8 == 0 then units ++ joined ∷ [] else units) g

-- The last unit, if it is not a whole one.
unfoldable pub read_units : ℕ → ℕ → File → List ℕ × File
read_units size unit f =
    let (units, data_unit, g) = read_data 0 size unit 0 [] f in
    (if ltb (length units * 8) size then units ++ data_unit ∷ [] else units, g)

unfoldable pub get_record : ℕ → File → Outcome (Operation × File)
get_record unit f = do
  let (binary, last, g) = read_fixed 19 unit (unit ∷ []) f
  op ← set_from_binary binary operation
  let (units, h) = read_units op.data_size last g
  ok ((set_val units op).0, h)

unfoldable pub get_live_cache : ℕ → File → Operation × File
get_live_cache unit f =
    let (address, g) = read_address 0 8 unit 0 f in
    ((set_addr address (set_live_cache_op operation).0).0, g)

unfoldable pub get : Unspecified → Dumper → Outcome (Operation × Dumper)
get u d = do
  check_mode mode_read d
  check_file_state d
  let (unit, f) = file_read u.byte d.file
  op_type ← get_op_type_by_op_num unit
  (op, g) ← if op_type == optype_lc then ok (get_live_cache unit f) else get_record unit f
  ok (op, record d { file = g })

-- `get`, `eof` and the `seekg` back: the next byte stays.
unfoldable pub has_next : Dumper → Outcome (Bool × Dumper)
has_next d = do
  check_file_state d
  let (_, f) = file_read 0 d.file
  ok (
      if f.eof
      then (false, record d { file = f })
      else (true, record d { file = record f { rest = d.file.rest } }))

-- What the file system answers to `fstream::open`, if the file can be opened: the bytes to read.
abbrev pub Disk : Type 0
Disk = List ℕ → ℕ → Option (List ℕ)

abbrev pub opened : Option (List ℕ) → File → File
opened none f = record f { fail = true }
opened (some bytes) f = record {
  is_open = true;
  eof = false;
  fail = false;
  written = [];
  rest = bytes;
}

-- `fstream::open`, which fails on a stream that is open.
unfoldable pub file_open : Disk → List ℕ → ℕ → File → File
file_open disk filename mode f =
    if f.is_open then record f { fail = true } else opened (disk filename mode) f

unfoldable pub open_file : Disk → List ℕ → ℕ → Dumper → Outcome Dumper
unfolding file_open check_mode
open_file disk filename mode d =
    if mode == mode_write || mode == mode_read
    then ok (record { file = file_open disk filename mode d.file; mode = mode })
    else (do check_mode mode d; ok (record d { mode = mode }))

unfoldable pub open_to_write : Disk → List ℕ → Dumper → Outcome Dumper
unfolding open_file
open_to_write disk filename d = open_file disk filename mode_write d

unfoldable pub open_to_read : Disk → List ℕ → Dumper → Outcome Dumper
unfolding open_file
open_to_read disk filename d = open_file disk filename mode_read d

-- A close of a stream that is not open sets the fail bit.
unfoldable pub close : Dumper → Dumper
close d = record {
  file =
      if d.file.is_open then record d.file { is_open = false } else record d.file { fail = true };
  mode = mode_uninit;
}
