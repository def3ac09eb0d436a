-- ===== src/OpDumper/Setters.antt =====
-- The setters of class Operation make operations that a trace can hold.
use cmpe220fall.Base.{ℕ, ◌^◌, ◌<◌, Bool, true, false, List, [], ◌∷◌, ◌≡◌, refl}
use cmpe220fall.OpDumper.Outcome.{ok}
use cmpe220fall.OpDumper.Operation.{
  Operation, operation, set_load_op_code, set_store_op_code, set_live_cache_op, set_pid, set_delay,
  set_pc, set_addr, set_val, set_val_unit, set_load_need_data, set_load_no_data, copy_values, put,
}
use cmpe220fall.OpDumper.Logged.{IsOperation, IsValue, units}
use cmpe220fall.OpDumper.Coding.{
  filled, new-IsFilled, set_load_op_code-IsOperation, set_store_op_code-IsOperation,
  live-IsOperation, same_code, set_addr-IsOperation, needed, dropped,
}

abbrev AllWords : List ℕ → Type 0
AllWords [] = Unit
AllWords (v ∷ vs) = (v < 2 ^ 64) × AllWords vs

put-IsValue : {val : List ℕ} (v : ℕ) → v < 2 ^ 64 → IsValue val → IsValue (put val 0 v)
unfolding put
put-IsValue v h (units h0 h1 h2 h3 h4 h5 h6 h7) = units h h1 h2 h3 h4 h5 h6 h7

copy_values-IsValue :
    {val : List ℕ} (vs : List ℕ) → AllWords vs → IsValue val → IsValue (copy_values vs val)
unfolding copy_values
copy_values-IsValue [] h (units p0 p1 p2 p3 p4 p5 p6 p7) = units p0 p1 p2 p3 p4 p5 p6 p7
copy_values-IsValue (a0 ∷ []) h (units p0 p1 p2 p3 p4 p5 p6 p7) = units h.0 p1 p2 p3 p4 p5 p6 p7
copy_values-IsValue (a0 ∷ a1 ∷ []) h (units p0 p1 p2 p3 p4 p5 p6 p7) =
    units h.0 h.1.0 p2 p3 p4 p5 p6 p7
copy_values-IsValue (a0 ∷ a1 ∷ a2 ∷ []) h (units p0 p1 p2 p3 p4 p5 p6 p7) =
    units h.0 h.1.0 h.1.1.0 p3 p4 p5 p6 p7
copy_values-IsValue (a0 ∷ a1 ∷ a2 ∷ a3 ∷ []) h (units p0 p1 p2 p3 p4 p5 p6 p7) =
    units h.0 h.1.0 h.1.1.0 h.1.1.1.0 p4 p5 p6 p7
copy_values-IsValue (a0 ∷ a1 ∷ a2 ∷ a3 ∷ a4 ∷ []) h (units p0 p1 p2 p3 p4 p5 p6 p7) =
    units h.0 h.1.0 h.1.1.0 h.1.1.1.0 h.1.1.1.1.0 p5 p6 p7
copy_values-IsValue (a0 ∷ a1 ∷ a2 ∷ a3 ∷ a4 ∷ a5 ∷ []) h (units p0 p1 p2 p3 p4 p5 p6 p7) =
    units h.0 h.1.0 h.1.1.0 h.1.1.1.0 h.1.1.1.1.0 h.1.1.1.1.1.0 p6 p7
copy_values-IsValue (a0 ∷ a1 ∷ a2 ∷ a3 ∷ a4 ∷ a5 ∷ a6 ∷ []) h (units p0 p1 p2 p3 p4 p5 p6 p7) =
    units h.0 h.1.0 h.1.1.0 h.1.1.1.0 h.1.1.1.1.0 h.1.1.1.1.1.0 h.1.1.1.1.1.1.0 p7
copy_values-IsValue (a0 ∷ a1 ∷ a2 ∷ a3 ∷ a4 ∷ a5 ∷ a6 ∷ a7 ∷ []) h (units p0 p1 p2 p3 p4 p5 p6 p7) =
    units h.0 h.1.0 h.1.1.0 h.1.1.1.0 h.1.1.1.1.0 h.1.1.1.1.1.0 h.1.1.1.1.1.1.0 h.1.1.1.1.1.1.1.0
copy_values-IsValue (a0 ∷ a1 ∷ a2 ∷ a3 ∷ a4 ∷ a5 ∷ a6 ∷ a7 ∷ v ∷ vs) h
      (units p0 p1 p2 p3 p4 p5 p6 p7) =
    units h.0 h.1.0 h.1.1.0 h.1.1.1.0 h.1.1.1.1.0 h.1.1.1.1.1.0 h.1.1.1.1.1.1.0 h.1.1.1.1.1.1.1.0

-- One call of a setter: the three of an operation code on a new operation, or one of the others on
-- an operation so made. A new load code on a made operation needs that the flag of the data is clear.
pub data Made : Operation → Type 0 where
  load_code : {o : Operation} (c : ℕ) → set_load_op_code c operation ≡ ok (o, true) → Made o
  store_code : {o : Operation} (c : ℕ) → set_store_op_code c operation ≡ ok (o, true) → Made o
  live_code : Made (set_live_cache_op operation).0
  next_load_code :
      {o p : Operation} (c : ℕ)
      → Made o
      → o.ld_data ≡ false
      → set_load_op_code c o ≡ ok (p, true)
      → Made p
  next_store_code :
      {o p : Operation} (c : ℕ) → Made o → set_store_op_code c o ≡ ok (p, true) → Made p
  next_live_code : {o : Operation} → Made o → Made (set_live_cache_op o).0
  pid_set : {o : Operation} (pid : ℕ) → Made o → Made (set_pid pid o).0
  delay_set : {o : Operation} (delay : ℕ) → Made o → Made (set_delay delay o).0
  pc_set : {o : Operation} (pc : ℕ) → pc < 2 ^ 64 → Made o → Made (set_pc pc o).0
  addr_set : {o : Operation} (addr : ℕ) → addr < 2 ^ 64 → Made o → Made (set_addr addr o).0
  unit_set : {o : Operation} (v : ℕ) → v < 2 ^ 64 → Made o → Made (set_val_unit v o).0
  val_set : {o : Operation} (vs : List ℕ) → AllWords vs → Made o → Made (set_val vs o).0
  data_needed :
      {o p : Operation} {done : Bool} → Made o → set_load_need_data o ≡ ok (p, done) → Made p
  data_dropped : {o : Operation} → Made o → Made (set_load_no_data o).0

-- Whatever setters have made an operation, its code, number, type, size and flag fit together, its
-- numbers have 64 bits and its address is a multiple of 8.
pub Made-IsOperation : {o : Operation} → Made o → IsOperation o
unfolding set_pid set_delay set_pc set_val set_val_unit
Made-IsOperation (load_code c e) = set_load_op_code-IsOperation c new-IsFilled refl e
Made-IsOperation (store_code c e) = set_store_op_code-IsOperation c new-IsFilled e
Made-IsOperation live_code = live-IsOperation new-IsFilled
Made-IsOperation (next_load_code c m d e) =
    set_load_op_code-IsOperation c (filled (Made-IsOperation m)) d e
Made-IsOperation (next_store_code c m e) =
    set_store_op_code-IsOperation c (filled (Made-IsOperation m)) e
Made-IsOperation (next_live_code m) = live-IsOperation (filled (Made-IsOperation m))
Made-IsOperation (pid_set {o} pid m) =
    let p = Made-IsOperation m in
    same_code o _ p (record { pc = p.pc; addr = p.addr; aligned = p.aligned; val = p.val }) refl
      refl refl refl refl
Made-IsOperation (delay_set {o} delay m) =
    let p = Made-IsOperation m in
    same_code o _ p (record { pc = p.pc; addr = p.addr; aligned = p.aligned; val = p.val }) refl
      refl refl refl refl
Made-IsOperation (pc_set {o} pc h m) =
    let p = Made-IsOperation m in
    same_code o _ p (record { pc = h; addr = p.addr; aligned = p.aligned; val = p.val }) refl refl
      refl refl refl
Made-IsOperation (addr_set addr h m) = set_addr-IsOperation addr h (Made-IsOperation m)
Made-IsOperation (unit_set {o} v h m) =
    let p = Made-IsOperation m in
    same_code o _ p
      (record { pc = p.pc; addr = p.addr; aligned = p.aligned; val = put-IsValue v h p.val }) refl
      refl refl refl refl
Made-IsOperation (val_set {o} vs h m) =
    let p = Made-IsOperation m in
    same_code o _ p
      (record {
        pc = p.pc;
        addr = p.addr;
        aligned = p.aligned;
        val = copy_values-IsValue vs h p.val;
      })
      refl refl refl refl refl
Made-IsOperation (data_needed {o} m e) = needed o (Made-IsOperation m) e
Made-IsOperation (data_dropped {o} m) = let p = Made-IsOperation m in dropped o p p.coded
