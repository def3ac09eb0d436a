-- ===== src/OpDumper/Sync.antt =====
-- class memsync: op_dumper/sync.hpp and sync.cpp. The operations of a memset or a memcpy, one by
-- one.
use cmpe220fall.Base.{ℕ, ◌%◌, ◌==◌, ltb, Bool, if◌then◌else◌}
use cmpe220fall.Base.Word.{add64, mul64}
use cmpe220fall.OpDumper.Codes.{opcode_l08u, opcode_l08s, opcode_s08}
use cmpe220fall.OpDumper.Outcome.{Outcome, ok, ◌>>=◌}
use cmpe220fall.OpDumper.Operation.{
  Operation, operation, set_load_op_code, set_store_op_code, set_pid, set_delay, set_pc, set_addr,
  set_val_unit,
}

abbrev pub sync_memset : ℕ
sync_memset = 1

abbrev pub sync_memcpy : ℕ
sync_memcpy = 2

pub record Memsync : Type 0 where
  pub sync_type : ℕ
  pub pc : ℕ
  pub src_address : ℕ
  pub dest_address : ℕ
  pub counter : ℕ
  pub len : ℕ
  pub step : ℕ
  pub op_code : ℕ
  pub value : ℕ

-- The constructor.
abbrev pub memsync : Memsync
memsync = record {
  sync_type = 0;
  pc = 0;
  src_address = 0;
  dest_address = 0;
  counter = 0;
  len = 0;
  step = 1;
  op_code = 0;
  value = 0;
}

unfoldable pub set_memcpy : ℕ → ℕ → ℕ → Memsync → Memsync
set_memcpy src dest num m = record m {
  src_address = src;
  dest_address = dest;
  len = mul64 num 2;
  counter = 0;
  value = 0x66;
  sync_type = sync_memcpy;
  op_code = opcode_l08u;
}

unfoldable pub set_memset : ℕ → ℕ → ℕ → Memsync → Memsync
set_memset address value num m = record m {
  dest_address = address;
  value = value;
  len = num;
  counter = 0;
  sync_type = sync_memset;
  op_code = opcode_s08;
}

-- The setters that every branch of getNext calls: setPid, setDelay, setPC and setAddr.
unfoldable pub placed : ℕ → ℕ → Operation → Operation
unfolding set_pid set_delay set_pc set_addr
placed pc addr o = (set_addr addr (set_pc pc (set_delay 0 (set_pid 0 o).0).0).0).0

unfoldable pub load_next : Memsync → Outcome Operation
unfolding set_load_op_code placed
load_next m = do
  (op, _) ← set_load_op_code opcode_l08s operation
  ok (placed m.pc (add64 m.src_address (mul64 8 m.counter)) op)

unfoldable pub store_next : Memsync → Outcome Operation
unfolding set_store_op_code placed set_val_unit
store_next m = do
  (op, _) ← set_store_op_code opcode_s08 operation
  ok (set_val_unit m.value (placed m.pc (add64 m.dest_address (mul64 8 m.counter)) op)).0

unfoldable pub get_next : Memsync → Outcome (Operation × Memsync)
unfolding load_next store_next
get_next m = do
  op ←
      if m.sync_type == sync_memcpy
      then (if m.counter % 2 == 0 then load_next m else store_next m)
      else store_next m
  ok (op, record m { counter = add64 m.counter 1; pc = add64 m.pc 1 })

unfoldable pub has_next : Memsync → Bool
has_next m = ltb m.counter m.len
