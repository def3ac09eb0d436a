-- ===== src/OpDumper/Stale.antt =====
-- The flag that setLoadOpCode leaves: op_dumper/operation_set.cpp.
use mathlib.Core.Path.{subst}
use mathlib.Core.List.{append-nil}
use cmpe220fall.Base.{ℕ, ◌<◌, ◌==◌, true, false, List, some, ◌≡◌, refl, ◌∙◌, arith, length}
use cmpe220fall.OpDumper.Codes.{opnum_livecache}
use cmpe220fall.OpDumper.Outcome.{ok, bind_ok, Unspecified}
use cmpe220fall.OpDumper.Operation.{
  Operation, operation, optype_load, set_load_op_code, get_load_by_opcode, load_data_size,
}
use cmpe220fall.OpDumper.Binary.{get_binary, set_from_binary, fixed_bytes, data_bytes}
use cmpe220fall.OpDumper.Tables.{load-IsNumbered}
use cmpe220fall.OpDumper.Logged.{IsOperation, data_load}
use cmpe220fall.OpDumper.Fixed.{fixed_list, without_data, fixed_again}

-- The operation that setLoadOpCode makes, and the one that its bytes tell of.
abbrev renamed : ℕ → ℕ → Operation → Operation
renamed c n o = record o { op_code = c; op_num = n; op_type = optype_load; data_size = 0 }

abbrev told : ℕ → ℕ → ℕ → Operation → Operation
told c n size o = record o { op_code = c; op_num = n; op_type = optype_load; data_size = size }

bare_binary :
    (u : Unspecified) (o : Operation) (bytes : List ℕ)
    → 0 < o.op_num
    → o.data_size ≡ 0
    → fixed_bytes o ≡ bytes
    → get_binary u o ≡ ok bytes
unfolding get_binary data_bytes
bare_binary u o bytes pos s f =
    let other : (o.op_num == opnum_livecache) ≡ false = ground arith in rw (other, f, s, append-nil)

same_fixed :
    (c n size : ℕ) (o : Operation) → fixed_bytes (renamed c n o) ≡ fixed_bytes (told c n size o)
unfolding fixed_bytes
same_fixed c n size o = refl

-- If an operation whose parts fit together, and whose flag of the data is set, is given a load
-- code, its record in a trace is the twenty bytes without data, but set_from_binary of these bytes
-- expects the data of the new code behind them.
pub set_load_op_code-stale :
    (u : Unspecified) (c : ℕ) (o p : Operation)
    → IsOperation o
    → o.ld_data ≡ true
    → set_load_op_code c o ≡ ok (p, true)
    → (bytes : List ℕ) × (q : Operation) × (get_binary u p ≡ ok bytes)
      × (length bytes ≡ 20)
      × (set_from_binary bytes operation ≡ ok q)
      × (load_data_size p.op_num ≡ some q.data_size)
unfolding set_load_op_code
set_load_op_code-stale u c o p h flag e =
    let n = bind_ok (get_load_by_opcode c) _ e in
    let k = load-IsNumbered c n.0 n.1 in
    let same : renamed c n.0 o ≡ p = cc n.2 in
    let t = told c n.0 k.bytes o in
    let back =
      fixed_again true t
        (record {
          coded = data_load refl n.1 flag k.sized;
          pc = h.pc;
          addr = h.addr;
          aligned = h.aligned;
          val = h.val;
        })
        flag k.pos in
    let bare = renamed c n.0 o in
    subst
      (λ x.
        (bytes : List ℕ) × (q : Operation) × (get_binary u x ≡ ok bytes)
        × (length bytes ≡ 20)
        × (set_from_binary bytes operation ≡ ok q)
        × (load_data_size x.op_num ≡ some q.data_size))
      same
      (
        fixed_list true t,
        without_data true t,
        bare_binary u bare (fixed_list true t) k.pos refl (same_fixed c n.0 k.bytes o ∙ back.0),
        refl,
        back.1,
        k.sized,
      )
