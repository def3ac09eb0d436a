-- ===== src/OpDumper/Coding.antt =====
-- What the setters that touch the coding of an operation leave behind.
use mathlib.Core.Path.{subst}
use cmpe220fall.Base.{ℕ, ◌%◌, ◌^◌, ◌<◌, ◌==◌, Bool, true, false, some, ◌≡◌, refl, arith, ◌∙◌}
use cmpe220fall.OpDumper.Outcome.{ok, bind_ok}
use cmpe220fall.OpDumper.Operation.{
  Operation, operation, optype_load, optype_store, set_load_op_code, set_store_op_code,
  set_live_cache_op, set_addr, set_load_need_data, set_load_no_data, get_load_by_opcode,
  get_store_by_opcode, store_data_size,
}
use cmpe220fall.OpDumper.Tables.{load-IsNumbered, store-IsNumbered}
use cmpe220fall.OpDumper.Logged.{
  IsOperation, IsCoded, bare_load, data_load, storing, live_cache, IsValue, units,
}
use cmpe220fall.OpDumper.Fields.{bit_and-address}

-- The parts that no operation code touches.
pub record IsFilled (o : Operation) : Type 0 where
  pub pc : o.pc < 2 ^ 64
  pub addr : o.addr < 2 ^ 64
  pub aligned : o.addr % 8 ≡ 0
  pub val : IsValue o.val

pub filled : {o : Operation} → IsOperation o → IsFilled o
filled p = record { pc = p.pc; addr = p.addr; aligned = p.aligned; val = p.val }

pub new-IsFilled : IsFilled operation
new-IsFilled = record {
  pc = omega arith;
  addr = omega arith;
  aligned = refl;
  val =
      units (omega arith) (omega arith) (omega arith) (omega arith) (omega arith) (omega arith)
        (omega arith) (omega arith);
}

-- The result of a setter of an operation code, and what the maps say of it.
abbrev with_load : ℕ → ℕ → Operation → Operation
with_load c n o = record o { op_code = c; op_num = n; op_type = optype_load; data_size = 0 }

abbrev with_store : ℕ → ℕ → ℕ → Operation → Operation
with_store c n size o = record o {
  op_code = c;
  op_num = n;
  op_type = optype_store;
  data_size = size;
}

with_load-IsOperation :
    (c n : ℕ) (o : Operation)
    → IsFilled o
    → o.ld_data ≡ false
    → get_load_by_opcode c ≡ ok n
    → IsOperation (with_load c n o)
with_load-IsOperation c n o f d e = record {
  coded = bare_load refl e d refl;
  pc = f.pc;
  addr = f.addr;
  aligned = f.aligned;
  val = f.val;
}

with_store-IsOperation :
    (c n size : ℕ) (o : Operation)
    → IsFilled o
    → get_store_by_opcode c ≡ ok n
    → store_data_size n ≡ some size
    → IsOperation (with_store c n size o)
with_store-IsOperation c n size o f e s = record {
  coded = storing refl e s;
  pc = f.pc;
  addr = f.addr;
  aligned = f.aligned;
  val = f.val;
}

pub set_load_op_code-IsOperation :
    {o p : Operation} (c : ℕ)
    → IsFilled o
    → o.ld_data ≡ false
    → set_load_op_code c o ≡ ok (p, true)
    → IsOperation p
unfolding set_load_op_code
set_load_op_code-IsOperation {o} {p} c f d e =
    let n = bind_ok (get_load_by_opcode c) _ e in
    let same : with_load c n.0 o ≡ p = cc n.2 in
    subst IsOperation same (with_load-IsOperation c n.0 o f d n.1)

pub set_store_op_code-IsOperation :
    {o p : Operation} (c : ℕ) → IsFilled o → set_store_op_code c o ≡ ok (p, true) → IsOperation p
unfolding set_store_op_code
set_store_op_code-IsOperation {o} {p} c f e =
    let n = bind_ok (get_store_by_opcode c) _ e in
    let k = store-IsNumbered c n.0 n.1 in
    let same : with_store c n.0 k.bytes o ≡ p = cc (rw k.sized at n.2) in
    subst IsOperation same (with_store-IsOperation c n.0 k.bytes o f n.1 k.sized)

pub live-IsOperation : {o : Operation} → IsFilled o → IsOperation (set_live_cache_op o).0
unfolding set_live_cache_op
live-IsOperation f = record {
  coded = live_cache refl refl refl refl;
  pc = f.pc;
  addr = f.addr;
  aligned = f.aligned;
  val = f.val;
}

-- The coding is about the code, the number, the type, the size and the flag alone.
recoded :
    (o p : Operation)
    → p.op_code ≡ o.op_code
    → p.op_num ≡ o.op_num
    → p.op_type ≡ o.op_type
    → p.data_size ≡ o.data_size
    → p.ld_data ≡ o.ld_data
    → IsCoded o
    → IsCoded p
recoded o p a b c d e (bare_load t k f s) = bare_load (c ∙ t) (rw (a, b) k) (e ∙ f) (d ∙ s)
recoded o p a b c d e (data_load t k f s) = data_load (c ∙ t) (rw (a, b) k) (e ∙ f) (rw (b, d) s)
recoded o p a b c d e (storing t k s) = storing (c ∙ t) (rw (a, b) k) (rw (b, d) s)
recoded o p a b c d e (live_cache t k n s) = live_cache (c ∙ t) (a ∙ k) (b ∙ n) (d ∙ s)

pub same_code :
    (o p : Operation)
    → IsOperation o
    → IsFilled p
    → p.op_code ≡ o.op_code
    → p.op_num ≡ o.op_num
    → p.op_type ≡ o.op_type
    → p.data_size ≡ o.data_size
    → p.ld_data ≡ o.ld_data
    → IsOperation p
same_code o p q f a b c d e = record {
  coded = recoded o p a b c d e q.coded;
  pc = f.pc;
  addr = f.addr;
  aligned = f.aligned;
  val = f.val;
}

pub set_addr-IsOperation :
    {o : Operation} (addr : ℕ) → addr < 2 ^ 64 → IsOperation o → IsOperation (set_addr addr o).0
unfolding set_addr
set_addr-IsOperation {o} addr h p = record {
  coded = recoded o _ refl refl refl refl refl p.coded;
  pc = p.pc;
  addr = omega (arith, bit_and-address addr h);
  aligned = omega (arith, bit_and-address addr h);
  val = p.val;
}

abbrev with_data : ℕ → Operation → Operation
with_data size o = record o { ld_data = true; data_size = size }

module _ (o : Operation) (q : IsOperation o) where
  needed_load :
      o.op_type ≡ optype_load
      → get_load_by_opcode o.op_code ≡ ok o.op_num
      → (p : Operation) × (set_load_need_data o ≡ ok (p, true)) × IsOperation p
  unfolding set_load_need_data
  needed_load t k =
      let n = load-IsNumbered o.op_code o.op_num k in
      let test : (o.op_type == optype_load) ≡ true = ground arith in
      (
        with_data n.bytes o,
        rw (test, n.sized),
        record {
          coded = data_load t k refl n.sized;
          pc = q.pc;
          addr = q.addr;
          aligned = q.aligned;
          val = q.val;
        },
      )

  needed_other :
      (o.op_type == optype_load) ≡ false
      → IsCoded (record o { ld_data = true })
      → (p : Operation) × (set_load_need_data o ≡ ok (p, false)) × IsOperation p
  unfolding set_load_need_data
  needed_other test k = (
    record o { ld_data = true },
    rw test,
    record { coded = k; pc = q.pc; addr = q.addr; aligned = q.aligned; val = q.val },
  )

  -- setLoadNeedData never exits on a made operation.
  needed_cases :
      IsCoded o
      → (p : Operation) × (done : Bool) × (set_load_need_data o ≡ ok (p, done)) × IsOperation p
  needed_cases (bare_load t k f s) = let r = needed_load t k in (r.0, true, r.1, r.2)
  needed_cases (data_load t k f s) = let r = needed_load t k in (r.0, true, r.1, r.2)
  needed_cases (storing t k s) =
      let r = needed_other (ground arith) (storing t k s) in (r.0, false, r.1, r.2)
  needed_cases (live_cache t c n s) =
      let r = needed_other (ground arith) (live_cache t c n s) in (r.0, false, r.1, r.2)

  pub needed : {p : Operation} {done : Bool} → set_load_need_data o ≡ ok (p, done) → IsOperation p
  needed {p} e =
      let r = needed_cases q.coded in let same : r.0 ≡ p = cc (r.2, e) in subst IsOperation same r.3

  dropped_load :
      (o.op_type == optype_load) ≡ true
      → o.op_type ≡ optype_load
      → get_load_by_opcode o.op_code ≡ ok o.op_num
      → IsOperation (set_load_no_data o).0
  unfolding set_load_no_data
  dropped_load test t k = rw test (record {
    coded = bare_load t k refl refl;
    pc = q.pc;
    addr = q.addr;
    aligned = q.aligned;
    val = q.val;
  })

  dropped_other : (o.op_type == optype_load) ≡ false → IsOperation (set_load_no_data o).0
  unfolding set_load_no_data
  dropped_other test = rw test q

  pub dropped : IsCoded o → IsOperation (set_load_no_data o).0
  dropped (bare_load t k f s) = dropped_load (ground arith) t k
  dropped (data_load t k f s) = dropped_load (ground arith) t k
  dropped (storing t k s) = dropped_other (ground arith)
  dropped (live_cache t c n s) = dropped_other (ground arith)
