-- ===== src/OpDumper/Binary.antt =====
-- An operation as the bytes of a trace, and back: op_dumper/operation_binary.cpp.
use cmpe220fall.Base.{
  ℕ, zero, suc, ◌+◌, ◌*◌, ◌/◌, ◌%◌, ◌^◌, ◌==◌, Bool, ◌&&◌, List, [], ◌∷◌, ◌++◌, bit_and, bit_or,
  if◌then◌else◌,
}
use cmpe220fall.Base.Word.{shl64, shr64}
use cmpe220fall.OpDumper.Codes.{opnum_livecache}
use cmpe220fall.OpDumper.Outcome.{Outcome, ok, ◌>>=◌, Unspecified, shift_right, vector_at}
use cmpe220fall.OpDumper.Operation.{
  Operation, optype_load, get_by_op_num, get_op_type_by_op_num, set_load_op_code, set_store_op_code,
  set_pid, set_delay, set_pc, set_addr, set_load_need_data, set_load_no_data, get_val,
}

-- EBMASK_PID and EBMASK_DELAY, EBMASK_BIN and EBMASK_OPNUM, EBMASK_ADDRESS, and EBMASK_PC and
-- EBMASK_VALUE.
abbrev pub ebmask_12 : ℕ
ebmask_12 = 0xfff

abbrev pub ebmask_bin : ℕ
ebmask_bin = 0xff

abbrev pub ebmask_address : ℕ
ebmask_address = 0xffff_ffff_ffff_fff8

abbrev pub ebmask_64 : ℕ
ebmask_64 = 0xffff_ffff_ffff_ffff

-- The bytes `i`, `i + 1`, ... of a masked 64-bit value.
unfoldable pub value_bytes : ℕ → ℕ → ℕ → List ℕ
value_bytes v i zero = []
value_bytes v i (suc n) = bit_and (shr64 v (i * 8)) ebmask_bin ∷ value_bytes v (i + 1) n

unfoldable pub flag_first : Bool → List ℕ → List ℕ
flag_first flag [] = []
flag_first flag (b ∷ bs) = (if flag then bit_or b 0x01 else b) ∷ bs

-- The bytes of the data from the byte `i` on.
unfoldable pub data_bytes : Unspecified → List ℕ → ℕ → ℕ → Outcome (List ℕ)
unfolding shift_right vector_at
data_bytes u units i zero = ok []
data_bytes u units i (suc n) = do
  unit ← vector_at units (i / 8)
  bytes ← data_bytes u units (i + 1) n
  ok (bit_and (shift_right u (bit_and unit ebmask_64) (i * 8)) ebmask_bin ∷ bytes)

-- The bytes before the data.
unfoldable pub fixed_bytes : Operation → List ℕ
fixed_bytes o =
    bit_and o.op_num ebmask_bin
    ∷ bit_and (shr64 (bit_and o.pid ebmask_12) 4) ebmask_bin
    ∷ bit_or (bit_and (shl64 (bit_and o.pid ebmask_12) 4) ebmask_bin)
        (bit_and (shr64 (bit_and o.delay ebmask_12) 8) ebmask_bin)
    ∷ bit_and (bit_and o.delay ebmask_12) ebmask_bin
    ∷ (value_bytes (bit_and o.pc ebmask_64) 0 8
        ++ flag_first (o.op_type == optype_load && o.ld_data)
            (value_bytes (bit_and o.addr ebmask_address) 0 8))

unfoldable pub get_lc_binary : Operation → List ℕ
unfolding value_bytes
get_lc_binary o = opnum_livecache ∷ value_bytes (bit_and o.addr ebmask_address) 0 8

unfoldable pub get_binary : Unspecified → Operation → Outcome (List ℕ)
get_binary u o =
    if o.op_num == opnum_livecache
    then ok (get_lc_binary o)
    else (do bytes ← data_bytes u (get_val u o) 0 o.data_size; ok (fixed_bytes o ++ bytes))

-- `n` bytes from the place `at` on, the byte `i` at bit `8 * i` of the value.
unfoldable pub gather : List ℕ → ℕ → ℕ → ℕ → ℕ → Outcome ℕ
unfolding vector_at
gather binary at i zero v = ok v
gather binary at i (suc n) v = do
  bin ← vector_at binary (i + at)
  gather binary at (i + 1) n (bit_or v (shl64 (bit_and bin ebmask_bin) (i * 8)))

unfoldable pub set_by_op_num : ℕ → Operation → Outcome (Operation × Bool)
set_by_op_num op_num o = do
  op_type ← get_op_type_by_op_num op_num
  op_code ← get_by_op_num op_num
  if op_type == optype_load then set_load_op_code op_code o else set_store_op_code op_code o

-- The operation, whose `data_size` is what the source returns.
unfoldable pub set_from_binary : List ℕ → Operation → Outcome Operation
unfolding vector_at
set_from_binary binary o = do
  op_num ← vector_at binary 0
  (coded, _) ← set_by_op_num op_num o
  bin1 ← vector_at binary 1
  let pid_high = shl64 (bit_and bin1 ebmask_bin) 4 % 2 ^ 16
  bin2 ← vector_at binary 2
  let pid = bit_or pid_high (bit_and (shr64 (bit_and bin2 ebmask_bin) 4) ebmask_12)
  let with_pid = (set_pid (bit_and pid ebmask_12) coded).0
  let delay_high = shl64 (bit_and bin2 0xf) 8
  bin3 ← vector_at binary 3
  let delay = bit_or delay_high (bit_and bin3 ebmask_bin)
  let with_delay = (set_delay (bit_and delay ebmask_12) with_pid).0
  pc ← gather binary 4 0 8 0
  let with_pc = (set_pc (bit_and pc ebmask_64) with_delay).0
  addr ← gather binary 12 0 8 0
  (flagged, _) ←
      if bit_and addr 0x0001 == 1 then set_load_need_data with_pc else ok (set_load_no_data with_pc)
  ok (set_addr (bit_and addr ebmask_address) flagged).0
