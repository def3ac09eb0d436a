-- ===== src/OpDumper/Copies.antt =====
-- The operations of a memcpy, and main as a whole: what it prints.
use mathlib.Core.List.{map}
use cmpe220fall.Base.{
  ℕ, zero, suc, ◌+◌, ◌*◌, ◌/◌, ◌%◌, ◌^◌, ◌<◌, ◌==◌, ltb, inl, Bool-cases, true, false, List, [],
  ◌∷◌, some, ◌≡◌, refl, ap, arith, bit_and, if◌then◌else◌, length, inr,
}
use cmpe220fall.Base.Bits.{zero-bit_and}
use cmpe220fall.Base.Word.{add64, mul64}
use cmpe220fall.OpDumper.Codes.{opcode_l08u, opcode_l08s, opcode_s08, opnum_l08s, opnum_s08}
use cmpe220fall.OpDumper.Outcome.{ok, ◌>>=◌, bind_ok, Unspecified, nbitmask, shift_right}
use cmpe220fall.OpDumper.Operation.{
  Operation, operation, optype_store, set_load_op_code, set_store_op_code, get_load_by_opcode,
  get_store_by_opcode, store_data_size, set_pid, set_delay, set_pc, set_addr, set_val_unit, get_val,
}
use cmpe220fall.OpDumper.Trace.{Dumper, add}
use cmpe220fall.OpDumper.Sync.{
  Memsync, sync_memcpy, get_next, has_next, load_next, store_next, placed, set_memcpy,
}
use cmpe220fall.OpDumper.Main.{write_loop, read_loop}
use cmpe220fall.OpDumper.Logged.{IsOperation, bare_load, storing, units, logged}
use cmpe220fall.OpDumper.Fields.{bit_and-address}
use cmpe220fall.OpDumper.Values.{Readable}
use cmpe220fall.OpDumper.RoundTrip.{reading, writing}
use cmpe220fall.OpDumper.WholeTrace.{add_all, AllOperations, read_loop-add_all}

-- A load of a byte, and a store of the byte 0x66, at a place in the program and an address.
abbrev pub load_op : ℕ → ℕ → Operation
load_op pc addr = record operation {
  op_code = opcode_l08s;
  pc = pc;
  addr = addr;
  op_num = opnum_l08s;
}

abbrev pub store_op : ℕ → ℕ → Operation
store_op pc addr = record operation {
  op_code = opcode_s08;
  pc = pc;
  addr = addr;
  val = 0x66 ∷ 0 ∷ 0 ∷ 0 ∷ 0 ∷ 0 ∷ 0 ∷ 0 ∷ [];
  op_num = opnum_s08;
  op_type = optype_store;
  data_size = 1;
}

-- The operation `k` of a copy from `src` to `dest` that starts at `pc`: loads at the even places,
-- stores at the odd ones, each at the multiple of 8 below.
abbrev pub copy_op : ℕ → ℕ → ℕ → ℕ → Operation
copy_op src dest pc k =
    if k % 2 == 0
    then load_op ((pc + k) % 2 ^ 64) ((src + 8 * k) % 2 ^ 64 / 8 * 8)
    else store_op ((pc + k) % 2 ^ 64) ((dest + 8 * k) % 2 ^ 64 / 8 * 8)

abbrev pub copy_ops : ℕ → ℕ → ℕ → ℕ → ℕ → List Operation
copy_ops src dest pc k zero = []
copy_ops src dest pc k (suc n) = copy_op src dest pc k ∷ copy_ops src dest pc (k + 1) n

-- The state after `k` operations.
abbrev copying : ℕ → ℕ → ℕ → ℕ → ℕ → ℕ → ℕ → Memsync
copying src dest pc len step code k = record {
  sync_type = sync_memcpy;
  pc = (pc + k) % 2 ^ 64;
  src_address = src;
  dest_address = dest;
  counter = k;
  len = len;
  step = step;
  op_code = code;
  value = 0x66;
}

place_of :
    (a k : ℕ) → bit_and (add64 a (mul64 8 k)) 0xffff_ffff_ffff_fff8 ≡ (a + 8 * k) % 2 ^ 64 / 8 * 8
place_of a k = omega (arith, bit_and-address (add64 a (mul64 8 k)) (omega arith))

module _ (src dest pc len step code : ℕ) where
  next_load :
      (k : ℕ)
      → (k % 2 == 0) ≡ true
      → load_next (copying src dest pc len step code k) ≡ ok (copy_op src dest pc k)
  unfolding load_next set_load_op_code get_load_by_opcode placed set_pid set_delay set_pc set_addr
  next_load k e = rw (e, place_of src k)

  next_store :
      (k : ℕ)
      → (k % 2 == 0) ≡ false
      → store_next (copying src dest pc len step code k) ≡ ok (copy_op src dest pc k)
  unfolding store_next set_store_op_code get_store_by_opcode store_data_size placed set_pid
      set_delay set_pc set_addr set_val_unit
  next_store k e = rw (e, place_of dest k)

  get_next-copying :
      (k : ℕ)
      → k + 1 < 2 ^ 64
      → get_next (copying src dest pc len step code k)
        ≡ ok (copy_op src dest pc k, copying src dest pc len step code (k + 1))
  unfolding get_next
  get_next-copying k fits =
      let count : add64 k 1 ≡ k + 1 = omega arith in
      let advance : add64 ((pc + k) % 2 ^ 64) 1 ≡ (pc + (k + 1)) % 2 ^ 64 = omega arith in
      elim (Bool-cases (k % 2 == 0)) [
        | inl even ↦ rw (even, next_load k even, count, advance, even)
        | inr odd ↦ rw (odd, next_store k odd, count, advance, odd)
      ]

  -- The loop that writes adds the operations that are left, one by one.
  write_loop-copying :
      (u : Unspecified) (n k : ℕ) (d e : Dumper)
      → k + n ≡ len
      → len < 2 ^ 64
      → add_all u (copy_ops src dest pc k n) d ≡ ok e
      → write_loop u (suc n) (copying src dest pc len step code k) d ≡ ok (some e)
  unfolding write_loop has_next
  write_loop-copying u zero k d e total fits a =
      let done : ltb k len ≡ false = ground arith in
      rw (done, write_loop) (ap (λ r. r >>= λ x. ok (some x)) a)
  write_loop-copying u (suc n) k d e total fits a =
      let more : ltb k len ≡ true = ground arith in
      rw (more, get_next-copying k (omega arith), write_loop)
        (let first_add = bind_ok (add u (copy_op src dest pc k) d) _ a in
          rw first_add.1
            (write_loop-copying u n (k + 1) first_add.0 e (omega arith) fits first_add.2))

-- A copied operation is one that a trace holds, and the trace keeps all of it.
module _ (pc addr : ℕ) (p : pc < 2 ^ 64) (q : addr < 2 ^ 64) (r : addr % 8 ≡ 0) where
  load_op-IsOperation : IsOperation (load_op pc addr)
  unfolding get_load_by_opcode
  load_op-IsOperation = record {
    coded = bare_load refl refl refl refl;
    pc = p;
    addr = q;
    aligned = r;
    val =
        units (omega arith) (omega arith) (omega arith) (omega arith) (omega arith) (omega arith)
          (omega arith) (omega arith);
  }

  store_op-IsOperation : IsOperation (store_op pc addr)
  unfolding get_store_by_opcode store_data_size
  store_op-IsOperation = record {
    coded = storing refl refl refl;
    pc = p;
    addr = q;
    aligned = r;
    val =
        units (omega arith) (omega arith) (omega arith) (omega arith) (omega arith) (omega arith)
          (omega arith) (omega arith);
  }

module _ (u : Unspecified) (pc addr : ℕ) where
  load_op-logged : logged u (load_op pc addr) ≡ load_op pc addr
  unfolding get_val
  load_op-logged = rw (zero-bit_and (nbitmask u 0))

  store_op-logged : logged u (store_op pc addr) ≡ store_op pc addr
  unfolding get_val nbitmask shift_right
  store_op-logged = refl

module _ (u : Unspecified) (src dest pc : ℕ) where
  copy_op-IsOperation :
      (k : ℕ) → IsOperation (copy_op src dest pc k) × Readable u (copy_op src dest pc k)
  copy_op-IsOperation k =
      let a = (pc + k) % 2 ^ 64 in
      let s = (src + 8 * k) % 2 ^ 64 / 8 * 8 in
      let d = (dest + 8 * k) % 2 ^ 64 / 8 * 8 in
      elim (k % 2 == 0)
        as (λ b.
          IsOperation (if b then load_op a s else store_op a d)
          × Readable u (if b then load_op a s else store_op a d)) [
            | true ↦ (
              load_op-IsOperation a s (omega arith) (omega arith) (omega arith),
              inl (omega arith),
            )
            | false ↦ (
              store_op-IsOperation a d (omega arith) (omega arith) (omega arith),
              inl (omega arith),
            )
          ]

  copy_op-logged : (k : ℕ) → logged u (copy_op src dest pc k) ≡ copy_op src dest pc k
  copy_op-logged k =
      let a = (pc + k) % 2 ^ 64 in
      let s = (src + 8 * k) % 2 ^ 64 / 8 * 8 in
      let d = (dest + 8 * k) % 2 ^ 64 / 8 * 8 in
      elim (k % 2 == 0)
        as (λ b.
          logged u (if b then load_op a s else store_op a d)
          ≡ (if b then load_op a s else store_op a d)) [
            | true ↦ load_op-logged u a s
            | false ↦ store_op-logged u a d
          ]

  copy_ops-AllOperations : (k n : ℕ) → AllOperations u (copy_ops src dest pc k n)
  copy_ops-AllOperations k zero = tt
  copy_ops-AllOperations k (suc n) = (copy_op-IsOperation k, copy_ops-AllOperations (k + 1) n)

  map-copy_ops : (k n : ℕ) → map (logged u) (copy_ops src dest pc k n) ≡ copy_ops src dest pc k n
  map-copy_ops k zero = refl
  map-copy_ops k (suc n) = rw (copy_op-logged k, map-copy_ops (k + 1) n)

  length-copy_ops : (k n : ℕ) → length (copy_ops src dest pc k n) ≡ n
  length-copy_ops k zero = refl
  length-copy_ops k (suc n) = omega (arith, length-copy_ops (k + 1) n)

-- The program with its two files: for a memcpy of `num` bytes, where twice `num` is below 2 ^ 64,
-- whatever the synchroniser held before, the first loop ends after 2 * num operations, and the
-- second loop, on the bytes that the first has written, gives back just these operations: the one
-- numbered k is a load of a byte at src + 8 * k for an even k, and a store of 0x66 at dest + 8 * k
-- for an odd one, cut to 64 bits and to multiples of 8.
pub read_loop-write_loop :
    (u : Unspecified) (src dest num : ℕ) (m : Memsync)
    → m.pc < 2 ^ 64
    → 2 * num < 2 ^ 64
    → (bytes : List ℕ) × (write_loop u (suc (2 * num)) (set_memcpy src dest num m) (writing [] [])
        ≡ ok (some (writing bytes [])))
      × (read_loop u (suc (2 * num)) (reading [] bytes)
          ≡ ok (some (copy_ops src dest m.pc 0 (2 * num))))
unfolding set_memcpy
read_loop-write_loop u src dest num m small fits =
    let n = 2 * num in
    let t =
      read_loop-add_all u (copy_ops src dest m.pc 0 n)
        (copy_ops-AllOperations u src dest m.pc 0 n) in
    let start : (m.pc + 0) % 2 ^ 64 ≡ m.pc = omega arith in
    let len : num * 2 % 2 ^ 64 ≡ n = omega arith in
    let written =
      write_loop-copying src dest m.pc n m.step opcode_l08u u n 0 (writing [] []) (writing t.0 [])
        (omega arith) fits (t.1 [] []) in
    let read = t.2 [] in
    let here : suc (length (copy_ops src dest m.pc 0 n)) ≡ suc n =
      ap (λ (k : ℕ). suc k) (length-copy_ops u src dest m.pc 0 n) in
    (t.0, rw len (rw start at written), rw (here, map-copy_ops u src dest m.pc 0 n) at read)
