-- ===== src/OpDumper/Fixed.antt =====
-- The twenty bytes before the data give back the operation without its data.
use cmpe220fall.Base.{
  ℕ, ◌+◌, ◌*◌, ◌/◌, ◌%◌, ◌^◌, ◌<◌, ◌==◌, ◌&&◌, Bool, true, false, List, ◌∷◌, ◌++◌, some, ◌≡◌, refl,
  ◌∙◌, ap, arith, bit_and, bit_or, if◌then◌else◌,
}
use cmpe220fall.Base.Word.{shl64, shr64}
use cmpe220fall.Base.Bits.{bit_or_fields}
use cmpe220fall.OpDumper.Outcome.{Outcome, ok, ◌>>=◌, vector_at}
use cmpe220fall.OpDumper.Operation.{
  Operation, operation, optype_load, optype_store, set_load_op_code, set_store_op_code,
  set_load_need_data, set_load_no_data, get_load_by_opcode, get_store_by_opcode, load_data_size,
  store_data_size, set_pid, set_delay, set_pc, set_addr,
}
use cmpe220fall.OpDumper.Binary.{fixed_bytes, flag_first, set_from_binary, set_by_op_num, gather}
use cmpe220fall.OpDumper.Tables.{load-IsNumbered, store-IsNumbered}
use cmpe220fall.OpDumper.Logged.{IsOperation, IsCoded, bare_load, data_load, storing, live_cache}
use cmpe220fall.OpDumper.Fields.{
  bit_and-bin, bit_and-12, bit_and-4, bit_and-1, bit_and-64, bit_and-address, mask_byte, join_word,
  word_bytes, value_bytes-word_bytes,
}

-- The bytes of an operation, in arithmetic.
abbrev pub fixed_list : Bool → Operation → List ℕ
fixed_list flag o =
    o.op_num
    ∷ o.pid % 4096 / 16
    ∷ (o.pid % 16 * 16 + o.delay % 4096 / 256)
    ∷ o.delay % 256
    ∷ (word_bytes o.pc ++ word_bytes (o.addr + (if flag then 1 else 0)))

-- The third byte.
pid_delay :
    (p d : ℕ)
    → bit_or (bit_and (shl64 (bit_and p 0xfff) 4) 0xff) (bit_and (shr64 (bit_and d 0xfff) 8) 0xff)
      ≡ p % 16 * 16 + d % 4096 / 256
pid_delay p d =
    let high : bit_and (shl64 (bit_and p 0xfff) 4) 0xff ≡ p % 16 * 2 ^ 4 =
      omega (arith, bit_and-bin (shl64 (bit_and p 0xfff) 4), bit_and-12 p) in
    let low : bit_and (shr64 (bit_and d 0xfff) 8) 0xff ≡ d % 4096 / 256 =
      omega (arith, bit_and-bin (shr64 (bit_and d 0xfff) 8), bit_and-12 d) in
    rw (high, low) (bit_or_fields 4 (p % 16) (d % 4096 / 256) (omega arith))

or_flag : (x : ℕ) → x % 8 ≡ 0 → bit_or x 1 ≡ x + 1
or_flag x h = ground (arith, bit_or_fields 3 (x / 8) 1)

flag_first-word_bytes :
    (flag : Bool) (a : ℕ)
    → a % 8 ≡ 0
    → flag_first flag (word_bytes a) ≡ word_bytes (a + (if flag then 1 else 0))
unfolding flag_first
flag_first-word_bytes true a h = ground (arith, or_flag (a % 256))
flag_first-word_bytes false a h = ground arith

fixed_bytes-fixed_list :
    (flag : Bool) (o : Operation)
    → o.op_num < 256
    → o.pc < 2 ^ 64
    → o.addr < 2 ^ 64
    → o.addr % 8 ≡ 0
    → (o.op_type == optype_load && o.ld_data) ≡ flag
    → fixed_bytes o ≡ fixed_list flag o
unfolding fixed_bytes
fixed_bytes-fixed_list flag o small pc addr aligned e =
    let number : bit_and o.op_num 0xff ≡ o.op_num = omega (arith, bit_and-bin o.op_num) in
    let high : bit_and (shr64 (bit_and o.pid 0xfff) 4) 0xff ≡ o.pid % 4096 / 16 =
      omega (arith, bit_and-bin (shr64 (bit_and o.pid 0xfff) 4), bit_and-12 o.pid) in
    let low : bit_and (bit_and o.delay 0xfff) 0xff ≡ o.delay % 256 =
      omega (arith, bit_and-bin (bit_and o.delay 0xfff), bit_and-12 o.delay) in
    let whole_pc : bit_and o.pc 0xffff_ffff_ffff_ffff ≡ o.pc = omega (arith, bit_and-64 o.pc) in
    let whole_addr : bit_and o.addr 0xffff_ffff_ffff_fff8 ≡ o.addr =
      omega (arith, bit_and-address o.addr addr) in
    rw (
      number,
      high,
      pid_delay o.pid o.delay,
      low,
      whole_pc,
      whole_addr,
      e,
      value_bytes-word_bytes o.pc,
      value_bytes-word_bytes o.addr,
      flag_first-word_bytes flag o.addr aligned,
    )

-- What `gather` gives at the two places.
gather_word :
    (b0 b1 b2 b3 : ℕ) (p a : ℕ)
    → (gather (b0 ∷ b1 ∷ b2 ∷ b3 ∷ (word_bytes p ++ word_bytes a)) 4 0 8 0 ≡ ok (p % 2 ^ 64))
      × (gather (b0 ∷ b1 ∷ b2 ∷ b3 ∷ (word_bytes p ++ word_bytes a)) 12 0 8 0 ≡ ok (a % 2 ^ 64))
unfolding gather
gather_word b0 b1 b2 b3 p a = (ap ok (join_word p), ap ok (join_word a))

abbrev with_fields : Operation → Operation → Operation
with_fields o c = record c { pid = o.pid % 4096; delay = o.delay % 4096; pc = o.pc }

pid_again :
    (p d : ℕ)
    → bit_and
        (bit_or
          (shl64 (bit_and (p % 4096 / 16) 0xff) 4 % 2 ^ 16)
          (bit_and (shr64 (bit_and (p % 16 * 16 + d % 4096 / 256) 0xff) 4) 0xfff))
        0xfff
      ≡ p % 4096
pid_again p d =
    let high : shl64 (bit_and (p % 4096 / 16) 0xff) 4 % 2 ^ 16 ≡ p % 4096 / 16 * 2 ^ 4 =
      omega (arith, bit_and-bin (p % 4096 / 16)) in
    let low : bit_and (shr64 (bit_and (p % 16 * 16 + d % 4096 / 256) 0xff) 4) 0xfff ≡ p % 16 =
      omega (
        arith,
        bit_and-12 (shr64 (bit_and (p % 16 * 16 + d % 4096 / 256) 0xff) 4),
        bit_and-bin (p % 16 * 16 + d % 4096 / 256),
      ) in
    rw
      (
        high,
        low,
        bit_or_fields 4 (p % 4096 / 16) (p % 16) (omega arith),
        bit_and-12 (p % 4096 / 16 * 2 ^ 4 + p % 16),
      )
      (omega arith)

delay_again :
    (p d : ℕ)
    → bit_and
        (bit_or (shl64 (bit_and (p % 16 * 16 + d % 4096 / 256) 0xf) 8) (bit_and (d % 256) 0xff))
        0xfff
      ≡ d % 4096
delay_again p d =
    let high : shl64 (bit_and (p % 16 * 16 + d % 4096 / 256) 0xf) 8 ≡ d % 4096 / 256 * 2 ^ 8 =
      omega (arith, bit_and-4 (p % 16 * 16 + d % 4096 / 256)) in
    rw
      (
        high,
        mask_byte d,
        bit_or_fields 8 (d % 4096 / 256) (d % 256) (omega arith),
        bit_and-12 (d % 4096 / 256 * 2 ^ 8 + d % 256),
      )
      (omega arith)

abbrev finish : ℕ → Outcome (Operation × Bool) → Outcome Operation
finish addr r = do (flagged, _) ← r; ok (record flagged { addr = addr })

addr_again :
    (a x : ℕ)
    → a < 2 ^ 64
    → a % 8 ≡ 0
    → x < 8
    → bit_and (bit_and ((a + x) % 2 ^ 64) 0xffff_ffff_ffff_fff8) 0xffff_ffff_ffff_fff8 ≡ a
addr_again a x lt aligned small =
    let once : bit_and ((a + x) % 2 ^ 64) 0xffff_ffff_ffff_fff8 ≡ a =
      omega (arith, bit_and-address ((a + x) % 2 ^ 64) (omega arith)) in
    rw once (omega (arith, bit_and-address a lt))

last_bit : (a x : ℕ) → a % 8 ≡ 0 → x < 2 → bit_and ((a + x) % 2 ^ 64) 0x0001 ≡ x
last_bit a x aligned small = omega (arith, bit_and-1 ((a + x) % 2 ^ 64))

flag_test : (flag : Bool) → (◌==◌ (if flag then 1 else 0) 1) ≡ flag
flag_test true = refl
flag_test false = refl

set_from_binary-fixed_list :
    (flag : Bool) (o c : Operation)
    → o.pc < 2 ^ 64
    → o.addr < 2 ^ 64
    → o.addr % 8 ≡ 0
    → set_by_op_num o.op_num operation ≡ ok (c, true)
    → set_from_binary (fixed_list flag o) operation
      ≡ finish o.addr (
          if flag
          then set_load_need_data (with_fields o c)
          else ok (set_load_no_data (with_fields o c)))
unfolding set_from_binary set_pid set_delay set_pc set_addr vector_at
set_from_binary-fixed_list flag o c pc addr aligned e =
    let x : ℕ = if flag then 1 else 0 in
    let b1 = o.pid % 4096 / 16 in
    let b2 = o.pid % 16 * 16 + o.delay % 4096 / 256 in
    let b3 = o.delay % 256 in
    let whole : bit_and (o.pc % 2 ^ 64) 0xffff_ffff_ffff_ffff ≡ o.pc =
      omega (arith, bit_and-64 (o.pc % 2 ^ 64)) in
    let words = gather_word o.op_num b1 b2 b3 o.pc (o.addr + x) in
    let small : x < 2 = ground arith in
    rw (
      e,
      words.0,
      words.1,
      pid_again o.pid o.delay,
      delay_again o.pid o.delay,
      whole,
      addr_again o.addr x addr aligned (omega arith),
      last_bit o.addr x aligned small,
      flag_test flag,
    )

abbrev loaded : Operation → Operation
loaded o = record operation { op_code = o.op_code; op_num = o.op_num; op_type = optype_load }

abbrev stored : Operation → Operation
stored o = record operation {
  op_code = o.op_code;
  op_num = o.op_num;
  op_type = optype_store;
  data_size = o.data_size;
}

set_by_op_num-load :
    (o : Operation)
    → get_load_by_opcode o.op_code ≡ ok o.op_num
    → set_by_op_num o.op_num operation ≡ ok (loaded o, true)
unfolding set_by_op_num set_load_op_code
set_by_op_num-load o e = let n = load-IsNumbered o.op_code o.op_num e in rw (n.typed, n.coded, e)

set_by_op_num-store :
    (o : Operation)
    → get_store_by_opcode o.op_code ≡ ok o.op_num
    → store_data_size o.op_num ≡ some o.data_size
    → set_by_op_num o.op_num operation ≡ ok (stored o, true)
unfolding set_by_op_num set_store_op_code
set_by_op_num-store o e sized =
    let n = store-IsNumbered o.op_code o.op_num e in rw (n.typed, n.coded, e, sized)

-- What the bytes before the data tell.
abbrev pub without_data : Bool → Operation → Operation
without_data flag o = record operation {
  op_code = o.op_code;
  pid = o.pid % 4096;
  delay = o.delay % 4096;
  pc = o.pc;
  addr = o.addr;
  op_num = o.op_num;
  op_type = o.op_type;
  data_size = o.data_size;
  ld_data = flag;
}

-- Whether the record of an operation has the flag.
abbrev pub flagged : Operation → Bool
flagged o = o.op_type == optype_load && o.ld_data

module _ (flag : Bool) (o : Operation) (p : IsOperation o) (e : flagged o ≡ flag) where
  decoded :
      (c : Operation)
      → set_by_op_num o.op_num operation ≡ ok (c, true)
      → set_from_binary (fixed_list flag o) operation
        ≡ finish o.addr (
            if flag
            then set_load_need_data (with_fields o c)
            else ok (set_load_no_data (with_fields o c)))
  decoded c k = set_from_binary-fixed_list flag o c p.pc p.addr p.aligned k

  bare_load_again :
      o.op_type ≡ optype_load
      → get_load_by_opcode o.op_code ≡ ok o.op_num
      → o.ld_data ≡ false
      → o.data_size ≡ 0
      → set_from_binary (fixed_list flag o) operation ≡ ok (without_data flag o)
  unfolding set_load_no_data
  bare_load_again t k f s =
      let off : flag ≡ false = ground arith in
      decoded (loaded o) (set_by_op_num-load o k) ∙ rw off (ground arith)

  data_load_again :
      o.op_type ≡ optype_load
      → get_load_by_opcode o.op_code ≡ ok o.op_num
      → o.ld_data ≡ true
      → load_data_size o.op_num ≡ some o.data_size
      → set_from_binary (fixed_list flag o) operation ≡ ok (without_data flag o)
  unfolding set_load_need_data
  data_load_again t k f s =
      let on : flag ≡ true = ground arith in
      decoded (loaded o) (set_by_op_num-load o k) ∙ rw (on, s) (ground arith)

  storing_again :
      o.op_type ≡ optype_store
      → get_store_by_opcode o.op_code ≡ ok o.op_num
      → store_data_size o.op_num ≡ some o.data_size
      → set_from_binary (fixed_list flag o) operation ≡ ok (without_data flag o)
  unfolding set_load_no_data
  storing_again t k s =
      let off : flag ≡ false = ground arith in
      decoded (stored o) (set_by_op_num-store o k s) ∙ rw off (ground arith)

  coded_again :
      IsCoded o
      → 0 < o.op_num
      → (o.op_num < 256)
        × (set_from_binary (fixed_list flag o) operation ≡ ok (without_data flag o))
  coded_again (bare_load t k f s) pos =
      ((load-IsNumbered o.op_code o.op_num k).small, bare_load_again t k f s)
  coded_again (data_load t k f s) pos =
      ((load-IsNumbered o.op_code o.op_num k).small, data_load_again t k f s)
  coded_again (storing t k s) pos =
      ((store-IsNumbered o.op_code o.op_num k).small, storing_again t k s)
  coded_again (live_cache t c n s) pos = absurd (omega arith)

  -- Every operation but those of LiveCache.
  pub fixed_again :
      0 < o.op_num
      → (fixed_bytes o ≡ fixed_list flag o)
        × (set_from_binary (fixed_list flag o) operation ≡ ok (without_data flag o))
  fixed_again pos =
      let k = coded_again p.coded pos in
      (fixed_bytes-fixed_list flag o k.0 p.pc p.addr p.aligned e, k.1)
