-- ===== src/Witness/OpDumper.antt =====
-- The trace of op_dumper/main.cpp, and operations on which its setters and readers are tried.
use cmpe220fall.Base.{ℕ, List, [], ◌∷◌, ◌++◌, some, ◌≡◌, refl, true, arith, inl, length}
use mathlib.Core.List.{map}
use cmpe220fall.OpDumper.Outcome.{
  ok, exited, Unspecified, error_dumper_mode_invalid, error_dumper_file_invalid,
}
use cmpe220fall.OpDumper.Codes.{opcode_l08u, opcode_l32u, opnum_l08u, opnum_l32u}
use cmpe220fall.OpDumper.Operation.{
  Operation, operation, set_load_op_code, set_load_need_data, load_data_size, get_load_by_opcode,
  set_pid, set_addr,
}
use cmpe220fall.OpDumper.Binary.{get_binary, set_from_binary}
use cmpe220fall.OpDumper.Trace.{Disk, add, get, has_next, close, open_to_read}
use cmpe220fall.OpDumper.Sync.{memsync, set_memcpy}
use cmpe220fall.OpDumper.Main.{write_loop, read_loop}
use cmpe220fall.OpDumper.Logged.{IsOperation, logged}
use cmpe220fall.OpDumper.RoundTrip.{reading, writing}
use cmpe220fall.OpDumper.WholeTrace.{add_all, AllOperations, read_loop-add_all}
use cmpe220fall.OpDumper.Copies.{copy_ops, read_loop-write_loop}
use cmpe220fall.OpDumper.Setters.{Made, load_code, data_needed, pid_set, addr_set, Made-IsOperation}
use cmpe220fall.OpDumper.Stale.{set_load_op_code-stale}
use cmpe220fall.OpDumper.Closed.{close_lem}

-- A machine whose wide shifts give zero and whose memory holds 7.
abbrev some_machine : Unspecified
some_machine = record { wide_shift = λ v k. 0; byte = 7 }

-- The memcpy of main.
read_loop-write_loop_example :
    (bytes : List ℕ) × (write_loop some_machine 21
        (set_memcpy 0xabcd_ef12_3456_7000 0x1234_5666_6666_6000 10 memsync)
        (writing [] [])
      ≡ ok (some (writing bytes [])))
    × (read_loop some_machine 21 (reading [] bytes)
        ≡ ok (some (copy_ops 0xabcd_ef12_3456_7000 0x1234_5666_6666_6000 0 0 20)))
read_loop-write_loop_example =
    read_loop-write_loop some_machine 0xabcd_ef12_3456_7000 0x1234_5666_6666_6000 10 memsync
      (omega arith) (omega arith)

-- A load of a byte that is coded as such, gets a process and an address, and needs its data.
abbrev made_load : Operation
made_load = record operation {
  op_code = opcode_l08u;
  op_num = opnum_l08u;
  pid = 0x1005;
  addr = 0xabc8;
  data_size = 1;
  ld_data = true;
}

made_load-Made : Made made_load
unfolding set_load_op_code get_load_by_opcode set_pid set_addr set_load_need_data load_data_size
made_load-Made =
    data_needed {done = true}
      (addr_set 0xabcc (omega arith) (pid_set 0x1005 (load_code opcode_l08u refl))) refl

Made-IsOperation_example : IsOperation made_load
Made-IsOperation_example = Made-IsOperation made_load-Made

two_operations-AllOperations : AllOperations some_machine (made_load ∷ made_load ∷ [])
two_operations-AllOperations = (
  (Made-IsOperation made_load-Made, inl (omega arith)),
  ((Made-IsOperation made_load-Made, inl (omega arith)), tt),
)

read_loop-add_all_example :
    (bytes : List ℕ) × ((out rest : List ℕ)
      → add_all some_machine (made_load ∷ made_load ∷ []) (writing out rest)
        ≡ ok (writing (out ++ bytes) rest))
    × ((out : List ℕ)
        → read_loop some_machine 3 (reading out bytes)
          ≡ ok (some (map (logged some_machine) (made_load ∷ made_load ∷ []))))
read_loop-add_all_example =
    read_loop-add_all some_machine (made_load ∷ made_load ∷ []) two_operations-AllOperations

-- The same operation as a load of four bytes.
abbrev recoded_load : Operation
recoded_load = record made_load {
  op_code = opcode_l32u;
  op_num = opnum_l32u;
  op_type = 1;
  data_size = 0;
}

set_load_op_code-stale_example :
    (bytes : List ℕ) × (q : Operation) × (get_binary some_machine recoded_load ≡ ok bytes)
    × (length bytes ≡ 20)
    × (set_from_binary bytes operation ≡ ok q)
    × (load_data_size recoded_load.op_num ≡ some q.data_size)
unfolding set_load_op_code get_load_by_opcode
set_load_op_code-stale_example =
    set_load_op_code-stale some_machine opcode_l32u made_load recoded_load
      (Made-IsOperation made_load-Made) refl refl

-- Every file that is opened has three bytes.
abbrev three_bytes : Disk
three_bytes = λ name mode. some (1 ∷ 2 ∷ 3 ∷ [])

close_lem_example :
    let d = close (writing (4 ∷ []) []) in
    (add some_machine made_load d ≡ exited error_dumper_mode_invalid)
    × (get some_machine d ≡ exited error_dumper_mode_invalid)
    × (has_next d ≡ exited error_dumper_file_invalid)
    × (open_to_read three_bytes [] d ≡ ok (reading [] (1 ∷ 2 ∷ 3 ∷ [])))
close_lem_example =
    close_lem some_machine three_bytes [] (1 ∷ 2 ∷ 3 ∷ []) made_load (writing (4 ∷ []) []) refl
