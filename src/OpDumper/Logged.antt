-- ===== src/OpDumper/Logged.antt =====
-- Operations that a setter of an operation code has made, and what a trace keeps of them.
use cmpe220fall.Base.{
  ℕ, true, false, List, [], ◌∷◌, some, ◌≡◌, ◌<◌, ◌%◌, ◌^◌, ◌≤◌, ◌==◌, ◌&&◌, if◌then◌else◌,
}
use cmpe220fall.Base.Word.{shr64}
use cmpe220fall.OpDumper.Codes.{opnum_livecache}
use cmpe220fall.OpDumper.Outcome.{ok, Unspecified}
use cmpe220fall.OpDumper.Operation.{
  Operation, operation, optype_load, optype_store, optype_lc, get_load_by_opcode,
  get_store_by_opcode, load_data_size, store_data_size, get_val,
}

-- A vector of eight 64-bit units.
pub data IsValue : List ℕ → Type 0 where
  units :
      {v0 v1 v2 v3 v4 v5 v6 v7 : ℕ}
      → v0 < 2 ^ 64
      → v1 < 2 ^ 64
      → v2 < 2 ^ 64
      → v3 < 2 ^ 64
      → v4 < 2 ^ 64
      → v5 < 2 ^ 64
      → v6 < 2 ^ 64
      → v7 < 2 ^ 64
      → IsValue (v0 ∷ v1 ∷ v2 ∷ v3 ∷ v4 ∷ v5 ∷ v6 ∷ v7 ∷ [])

-- A load carries data exactly if it is flagged to; a store always; a LiveCache operation never.
pub data IsCoded (o : Operation) : Type 0 where
  bare_load :
      o.op_type ≡ optype_load
      → get_load_by_opcode o.op_code ≡ ok o.op_num
      → o.ld_data ≡ false
      → o.data_size ≡ 0
      → IsCoded o
  data_load :
      o.op_type ≡ optype_load
      → get_load_by_opcode o.op_code ≡ ok o.op_num
      → o.ld_data ≡ true
      → load_data_size o.op_num ≡ some o.data_size
      → IsCoded o
  storing :
      o.op_type ≡ optype_store
      → get_store_by_opcode o.op_code ≡ ok o.op_num
      → store_data_size o.op_num ≡ some o.data_size
      → IsCoded o
  live_cache :
      o.op_type ≡ optype_lc
      → o.op_code ≡ opnum_livecache
      → o.op_num ≡ opnum_livecache
      → o.data_size ≡ 0
      → IsCoded o

pub record IsOperation (o : Operation) : Type 0 where
  pub coded : IsCoded o
  pub pc : o.pc < 2 ^ 64
  pub addr : o.addr < 2 ^ 64
  pub aligned : o.addr % 8 ≡ 0
  pub val : IsValue o.val

-- Shifts by 64 and more take their count modulo 64, as the instruction of x86-64 does.
pub record TakesModulo (u : Unspecified) : Type 0 where
  pub wide : (v k : ℕ) → 64 ≤ k → u.wide_shift v k ≡ shr64 v (k % 64)

-- What comes back from a trace: 12 bits of the process and the delay, the units that count, the
-- flag of a load; of a LiveCache operation the address alone.
abbrev pub logged : Unspecified → Operation → Operation
logged u o =
    if o.op_num == opnum_livecache
    then record operation {
      op_code = opnum_livecache;
      addr = o.addr;
      op_num = opnum_livecache;
      op_type = optype_lc;
    }
    else record o {
      pid = o.pid % 4096;
      delay = o.delay % 4096;
      val = get_val u o;
      ld_data = o.op_type == optype_load && o.ld_data;
    }
