-- ===== src/OpDumper/Operation.antt =====
-- class Operation: op_dumper/operation.hpp, operation.cpp, operation_set.cpp and operation_get.cpp.
-- A setter returns the operation it leaves and its `bool`.
use cmpe220fall.Base.{
  ℕ, zero, suc, ◌*◌, ◌==◌, Bool, true, false, not, List, [], ◌∷◌, Option, none, some, bit_and,
  if◌then◌else◌,
}
use cmpe220fall.OpDumper.Codes.{
  opnum_l08u, opnum_l08s, opnum_l16u, opnum_l16s, opnum_l32u, opnum_l32s, opnum_l64u, opnum_l128u,
  opnum_l256u, opnum_l512u, opnum_xl08u, opnum_xl08s, opnum_xl16u, opnum_xl16s, opnum_xl32u,
  opnum_xl32s, opnum_xl64u, opnum_xl128u, opnum_xl256u, opnum_xl512u, opnum_s08, opnum_s16,
  opnum_s32, opnum_s64, opnum_s128, opnum_s256, opnum_s512, opnum_xs00, opnum_xs08, opnum_xs16,
  opnum_xs32, opnum_xs64, opnum_xs128, opnum_xs256, opnum_xs512, opnum_livecache, opcode_map,
  load_opnum_map, store_opnum_map,
}
use cmpe220fall.OpDumper.Outcome.{
  Outcome, ok, exited, ◌>>=◌, error_op_type_invalid, Unspecified, nbitmask, map_at, among,
}

abbrev pub optype_load : ℕ
optype_load = 1

abbrev pub optype_store : ℕ
optype_store = 3

abbrev pub optype_lc : ℕ
optype_lc = 5

-- A size of data is a number of bytes.
pub record Operation : Type 0 where
  pub op_code : ℕ
  pub pid : ℕ
  pub delay : ℕ
  pub pc : ℕ
  pub addr : ℕ
  pub val : List ℕ
  pub op_num : ℕ
  pub op_type : ℕ
  pub data_size : ℕ
  pub ld_data : Bool

-- The constructor.
abbrev pub operation : Operation
operation = record {
  op_code = 0;
  pid = 0;
  delay = 0;
  pc = 0;
  addr = 0;
  val = 0 ∷ 0 ∷ 0 ∷ 0 ∷ 0 ∷ 0 ∷ 0 ∷ 0 ∷ [];
  op_num = 0;
  op_type = optype_load;
  data_size = 0;
  ld_data = false;
}

unfoldable pub get_by_op_num : ℕ → Outcome ℕ
unfolding map_at
get_by_op_num op_num = map_at opcode_map op_num

unfoldable pub get_load_by_opcode : ℕ → Outcome ℕ
unfolding map_at
get_load_by_opcode op_code = map_at load_opnum_map op_code

unfoldable pub get_store_by_opcode : ℕ → Outcome ℕ
unfolding map_at
get_store_by_opcode op_code = map_at store_opnum_map op_code

abbrev pub load_labels : List ℕ
load_labels =
    opnum_l08u ∷ opnum_l08s ∷ opnum_l16u ∷ opnum_l16s ∷ opnum_l32u ∷ opnum_l32s ∷ opnum_l64u
    ∷ opnum_l128u ∷ opnum_l256u ∷ opnum_l512u ∷ opnum_xl08u ∷ opnum_xl08s ∷ opnum_xl16u
    ∷ opnum_xl16s ∷ opnum_xl32u ∷ opnum_xl32s ∷ opnum_xl64u ∷ opnum_xl128u ∷ opnum_xl256u
    ∷ opnum_xl512u ∷ []

abbrev pub store_labels : List ℕ
store_labels =
    opnum_s08 ∷ opnum_s16 ∷ opnum_s32 ∷ opnum_s64 ∷ opnum_s128 ∷ opnum_s256 ∷ opnum_s512
    ∷ opnum_xs00 ∷ opnum_xs08 ∷ opnum_xs16 ∷ opnum_xs32 ∷ opnum_xs64 ∷ opnum_xs128 ∷ opnum_xs256
    ∷ opnum_xs512 ∷ []

unfoldable pub get_op_type_by_op_num : ℕ → Outcome ℕ
unfolding among
get_op_type_by_op_num op_num =
    if among load_labels op_num
    then ok optype_load
    else if among store_labels op_num
    then ok optype_store
    else if op_num == opnum_livecache
    then ok optype_lc
    else exited error_op_type_invalid

abbrev pub set_op_num : ℕ → Operation → Operation
set_op_num op_num o = record o { op_num = op_num }

abbrev pub set_op_type : ℕ → Operation → Operation
set_op_type op_type o = record o { op_type = op_type }

abbrev pub set_data_size : ℕ → Operation → Operation
set_data_size data_size o = record o { data_size = data_size }

unfoldable pub set_load_op_code : ℕ → Operation → Outcome (Operation × Bool)
set_load_op_code op_code o = do
  let coded = record o { op_code = op_code }
  op_num ← get_load_by_opcode op_code
  ok (set_data_size 0 (set_op_type optype_load (set_op_num op_num coded)), true)

-- The switch of setStoreOpCode; no label leaves the size alone.
unfoldable pub store_data_size : ℕ → Option ℕ
unfolding among
store_data_size op_num =
    if op_num == opnum_xs00
    then some 0
    else if among (opnum_s08 ∷ opnum_xs08 ∷ []) op_num
    then some 1
    else if among (opnum_s16 ∷ opnum_xs16 ∷ []) op_num
    then some 2
    else if among (opnum_s32 ∷ opnum_xs32 ∷ []) op_num
    then some 4
    else if among (opnum_s64 ∷ opnum_xs64 ∷ []) op_num
    then some 8
    else if among (opnum_s128 ∷ opnum_xs128 ∷ []) op_num
    then some 16
    else if among (opnum_s256 ∷ opnum_xs256 ∷ []) op_num
    then some 32
    else if among (opnum_s512 ∷ opnum_xs512 ∷ []) op_num
    then some 64
    else none

abbrev pub sized : Option ℕ → Operation → Operation
sized none o = o
sized (some n) o = set_data_size n o

unfoldable pub set_store_op_code : ℕ → Operation → Outcome (Operation × Bool)
set_store_op_code op_code o = do
  let coded = record o { op_code = op_code }
  op_num ← get_store_by_opcode op_code
  let typed = set_op_type optype_store (set_op_num op_num coded)
  ok (sized (store_data_size op_num) typed, true)

unfoldable pub set_live_cache_op : Operation → Operation × Bool
set_live_cache_op o = (
  set_data_size 0
      (set_op_type optype_lc (set_op_num opnum_livecache (record o { op_code = opnum_livecache }))),
  true,
)

-- `return pid` is a test on zero.
unfoldable pub set_pid : ℕ → Operation → Operation × Bool
set_pid pid o = (record o { pid = pid }, not (pid == 0))

unfoldable pub set_delay : ℕ → Operation → Operation × Bool
set_delay delay o = (record o { delay = delay }, true)

unfoldable pub set_pc : ℕ → Operation → Operation × Bool
set_pc pc o = (record o { pc = pc }, true)

unfoldable pub set_addr : ℕ → Operation → Operation × Bool
set_addr addr o = (record o { addr = bit_and addr 0xffff_ffff_ffff_fff8 }, true)

-- The loop of setVal on a vector: it ends with the shorter one.
unfoldable pub copy_values : List ℕ → List ℕ → List ℕ
copy_values [] old = old
copy_values (v ∷ vs) [] = []
copy_values (v ∷ vs) (w ∷ ws) = v ∷ copy_values vs ws

unfoldable pub set_val : List ℕ → Operation → Operation × Bool
unfolding copy_values
set_val val o = (record o { val = copy_values val o.val }, true)

-- `val[i] = v`, within the vector.
unfoldable pub put : List ℕ → ℕ → ℕ → List ℕ
put [] i v = []
put (x ∷ xs) zero v = v ∷ xs
put (x ∷ xs) (suc i) v = x ∷ put xs i v

-- setVal on an integer of any of the four widths.
unfoldable pub set_val_unit : ℕ → Operation → Operation × Bool
unfolding put
set_val_unit val o = (record o { val = put o.val 0 val }, true)

-- The switch of setLoadNeedData.
unfoldable pub load_data_size : ℕ → Option ℕ
unfolding among
load_data_size op_num =
    if among (opnum_l08u ∷ opnum_l08s ∷ opnum_xl08u ∷ opnum_xl08s ∷ []) op_num
    then some 1
    else if among (opnum_l16u ∷ opnum_l16s ∷ opnum_xl16u ∷ opnum_xl16s ∷ []) op_num
    then some 2
    else if among (opnum_l32u ∷ opnum_l32s ∷ opnum_xl32u ∷ opnum_xl32s ∷ []) op_num
    then some 4
    else if among (opnum_l64u ∷ opnum_xl64u ∷ []) op_num
    then some 8
    else if among (opnum_l128u ∷ opnum_xl128u ∷ []) op_num
    then some 16
    else if among (opnum_l256u ∷ opnum_xl256u ∷ []) op_num
    then some 32
    else if among (opnum_l512u ∷ opnum_xl512u ∷ []) op_num
    then some 64
    else none

abbrev pub or_exit : Option ℕ → Operation → Outcome (Operation × Bool)
or_exit none o = exited error_op_type_invalid
or_exit (some n) o = ok (set_data_size n o, true)

unfoldable pub set_load_need_data : Operation → Outcome (Operation × Bool)
set_load_need_data o =
    let flagged = record o { ld_data = true } in
    if o.op_type == optype_load
    then or_exit (load_data_size o.op_num) flagged
    else ok (flagged, false)

unfoldable pub set_load_no_data : Operation → Operation × Bool
set_load_no_data o =
    if o.op_type == optype_load
    then (set_data_size 0 (record o { ld_data = false }), true)
    else (o, false)

-- The first unit of the value.
unfoldable pub first : List ℕ → ℕ
first [] = 0
first (x ∷ xs) = x

-- The labels of the switch of getVal, each of which falls through to the next.
unfoldable pub from_256 : List ℕ → List ℕ
unfolding put
from_256 v = put (put (put (put v 4 0) 5 0) 6 0) 7 0

unfoldable pub from_128 : List ℕ → List ℕ
unfolding put from_256
from_128 v = from_256 (put (put v 2 0) 3 0)

unfoldable pub from_8 : Unspecified → ℕ → List ℕ → List ℕ
unfolding put from_128 first nbitmask
from_8 u size v = from_128 (put (put v 0 (bit_and (first v) (nbitmask u (size * 8)))) 1 0)

unfoldable pub get_val : Unspecified → Operation → List ℕ
unfolding put from_8 from_128 from_256 among
get_val u o =
    let size = o.data_size in
    if size == 0
    then from_8 u size (put o.val 0 0)
    else if among (1 ∷ 2 ∷ 4 ∷ 8 ∷ []) size
    then from_8 u size o.val
    else if size == 16
    then from_128 o.val
    else if size == 32
    then from_256 o.val
    else o.val
