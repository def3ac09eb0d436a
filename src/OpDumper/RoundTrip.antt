-- ===== src/OpDumper/RoundTrip.antt =====
-- What a Dumper in write mode adds to a file, a Dumper in read mode gets back.
use mathlib.Core.List.{append_assoc, append-nil}
use cmpe220fall.Base.{
  ℕ, ◌+◌, ◌*◌, ◌/◌, ◌%◌, ◌^◌, ◌<◌, ◌⊎◌, inl, inr, ◌==◌, Bool, true, false, List, [], ◌∷◌, ◌++◌,
  Option, some, ◌≡◌, refl, ◌∙◌, ap, arith, bit_and, if◌then◌else◌,
}
use cmpe220fall.OpDumper.Codes.{opnum_livecache}
use cmpe220fall.OpDumper.Outcome.{ok, Unspecified, among}
use cmpe220fall.OpDumper.Operation.{
  Operation, operation, optype_load, optype_store, optype_lc, get_val, get_op_type_by_op_num,
  set_live_cache_op, set_addr, set_val, copy_values,
}
use cmpe220fall.OpDumper.Binary.{
  get_binary, get_lc_binary, fixed_bytes, set_from_binary, data_bytes,
}
use cmpe220fall.OpDumper.Trace.{
  Dumper, mode_read, mode_write, file_read, file_write, write_all, get, get_record, get_live_cache,
  read_fixed, read_address, check_mode, check_file_state, read_units,
}
use cmpe220fall.OpDumper.Tables.{IsNumbered, load-IsNumbered, store-IsNumbered, sizes}
use cmpe220fall.OpDumper.Logged.{
  IsOperation, IsCoded, bare_load, data_load, storing, live_cache, logged,
}
use cmpe220fall.OpDumper.Fields.{
  bit_and-address, word_bytes, value_bytes-word_bytes, join_0, join_1, join_2, join_3, join_4,
  join_5, join_6, join_7,
}
use cmpe220fall.OpDumper.Fixed.{fixed_list, without_data, flagged, fixed_again}
use cmpe220fall.OpDumper.Units.{left}
use cmpe220fall.OpDumper.Payload.{zeros}
use cmpe220fall.OpDumper.Values.{Readable, payload_back}

-- The bytes of an operation.
pub write_all_lem :
    (bytes out more : List ℕ) (open_now : Bool)
    → write_all bytes (left open_now out more) ≡ left open_now (out ++ bytes) more
unfolding write_all file_write
write_all_lem [] out more open_now = rw append-nil
write_all_lem (b ∷ bs) out more open_now =
    write_all_lem bs (out ++ b ∷ []) more open_now ∙ rw append_assoc

-- A Dumper in read mode with these bytes left, and one in write mode with these bytes written.
abbrev pub reading : List ℕ → List ℕ → Dumper
reading out bytes = record { file = left true out bytes; mode = mode_read }

abbrev pub writing : List ℕ → List ℕ → Dumper
writing out rest = record { file = left true out rest; mode = mode_write }

-- What is said of an operation that is not one of LiveCache.
record IsPlain (o : Operation) : Type 0 where
  pos : 0 < o.op_num
  typed : get_op_type_by_op_num o.op_num ≡ ok o.op_type
  not_lc : (o.op_type == optype_lc) ≡ false
  size : among sizes o.data_size ≡ true

load-IsPlain :
    (o : Operation) (bytes : Option ℕ)
    → o.op_type ≡ optype_load
    → IsNumbered optype_load o.op_code o.op_num bytes
    → among sizes o.data_size ≡ true
    → IsPlain o
load-IsPlain o bytes t n s = record {
  pos = n.pos;
  typed = n.typed ∙ ap ok (ground arith);
  not_lc = ground arith;
  size = s;
}

store-IsPlain :
    (o : Operation) (bytes : Option ℕ)
    → o.op_type ≡ optype_store
    → IsNumbered optype_store o.op_code o.op_num bytes
    → among sizes o.data_size ≡ true
    → IsPlain o
store-IsPlain o bytes t n s = record {
  pos = n.pos;
  typed = n.typed ∙ ap ok (ground arith);
  not_lc = ground arith;
  size = s;
}

sized-among :
    (op_type k n size : ℕ) (bytes : Option ℕ)
    → IsNumbered op_type k n bytes
    → bytes ≡ some size
    → among sizes size ≡ true
sized-among op_type k n size bytes p e =
    let same : p.bytes ≡ size = ground (arith, p.sized) in rw same at p.among_sizes

IsPlain-or_live : (o : Operation) → IsCoded o → IsPlain o ⊎ (o.op_num ≡ opnum_livecache)
unfolding among
IsPlain-or_live o (bare_load t k f s) = inl (load-IsPlain o _ t (load-IsNumbered _ _ k) (rw s refl))
IsPlain-or_live o (data_load t k f s) =
    let n = load-IsNumbered _ _ k in inl (load-IsPlain o _ t n (sized-among _ _ _ _ _ n s))
IsPlain-or_live o (storing t k s) =
    let n = store-IsNumbered _ _ k in inl (store-IsPlain o _ t n (sized-among _ _ _ _ _ n s))
IsPlain-or_live o (live_cache t c n s) = inr n

-- What comes back from the bytes of one operation, with any bytes behind them.
pub record IsBack (u : Unspecified) (o : Operation) : Type 0 where
  pub head : ℕ
  pub tail : List ℕ
  pub written : get_binary u o ≡ ok (head ∷ tail)
  pub got :
      (out more : List ℕ)
      → get u (reading out (head ∷ (tail ++ more))) ≡ ok (logged u o, reading out more)

abbrev bytes_after : Bool → Operation → List ℕ
bytes_after flag o =
    o.pid % 4096 / 16
    ∷ (o.pid % 16 * 16 + o.delay % 4096 / 256)
    ∷ o.delay % 256
    ∷ (word_bytes o.pc ++ word_bytes (o.addr + (if flag then 1 else 0)))

-- The twenty bytes, whatever they are.
read_fixed_lem :
    (flag : Bool) (o : Operation) (out more : List ℕ)
    → read_fixed 19 o.op_num (o.op_num ∷ []) (left true out (bytes_after flag o ++ more))
      ≡ (fixed_list flag o, (o.addr + (if flag then 1 else 0)) / 2 ^ 56 % 256, left true out more)
unfolding read_fixed file_read
read_fixed_lem flag o out more = refl

get_record_lem :
    (flag : Bool) (o : Operation) (out bytes more values us : List ℕ)
    → set_from_binary (fixed_list flag o) operation ≡ ok (without_data flag o)
    → read_units o.data_size
        ((o.addr + (if flag then 1 else 0)) / 2 ^ 56 % 256)
        (left true out (bytes ++ more))
      ≡ (values, left true out more)
    → copy_values values zeros ≡ us
    → get_record o.op_num (left true out (bytes_after flag o ++ (bytes ++ more)))
      ≡ ok (record (without_data flag o) { val = us }, left true out more)
unfolding get_record set_val
get_record_lem flag o out bytes more values us f r c =
    rw (read_fixed_lem flag o out (bytes ++ more), f, r, c)

get-reading :
    (u : Unspecified) (n op_type : ℕ) (op : Operation) (out bytes more : List ℕ)
    → get_op_type_by_op_num n ≡ ok op_type
    → (op_type == optype_lc) ≡ false
    → get_record n (left true out bytes) ≡ ok (op, left true out more)
    → get u (reading out (n ∷ bytes)) ≡ ok (op, reading out more)
unfolding get check_mode check_file_state file_read
get-reading u n op_type op out bytes more t e r = rw (t, e, r)

get_binary-plain :
    (u : Unspecified) (o : Operation) (fixed bytes : List ℕ)
    → 0 < o.op_num
    → fixed_bytes o ≡ fixed
    → data_bytes u (get_val u o) 0 o.data_size ≡ ok bytes
    → get_binary u o ≡ ok (fixed ++ bytes)
unfolding get_binary
get_binary-plain u o fixed bytes pos f d =
    let other : (o.op_num == opnum_livecache) ≡ false = ground arith in rw (other, d, f)

logged-plain :
    (u : Unspecified) (o : Operation)
    → 0 < o.op_num
    → record (without_data (flagged o) o) { val = get_val u o } ≡ logged u o
logged-plain u o pos = let other : (o.op_num == opnum_livecache) ≡ false = ground arith in rw other

plain-IsBack :
    (u : Unspecified) (o : Operation) → IsOperation o → IsPlain o → Readable u o → IsBack u o
plain-IsBack u o p q r =
    let flag = flagged o in
    let f = fixed_again flag o p refl q.pos in
    let d = payload_back u o o.val p.val refl q.size r in
    record {
      head = o.op_num;
      tail = bytes_after flag o ++ d.bytes;
      written = get_binary-plain u o (fixed_list flag o) d.bytes q.pos f.0 d.write;
      got = λ out more.
          let back = d.read true out ((o.addr + (if flag then 1 else 0)) / 2 ^ 56 % 256) more in
          get-reading u o.op_num o.op_type _ out _ more q.typed q.not_lc
            (get_record_lem flag o out d.bytes more back.0 (get_val u o) f.1 back.1 back.2)
          ∙ ap (λ op. ok (op, reading out more)) (logged-plain u o q.pos);
    }

-- The address of a LiveCache operation, whose bytes are joined without a mask.
address_bytes :
    (a i0 : ℕ) (out more : List ℕ)
    → a < 2 ^ 64
    → read_address 0 8 i0 0 (left true out (word_bytes a ++ more)) ≡ (a, left true out more)
unfolding read_address file_read
address_bytes a i0 out more h =
    let whole : a % 2 ^ 64 ≡ a = omega arith in
    simp (join_0 a, join_1 a, join_2 a, join_3 a, join_4 a, join_5 a, join_6 a, join_7 a) (rw whole)

live_bytes :
    (u : Unspecified) (o : Operation)
    → o.op_num ≡ opnum_livecache
    → o.addr < 2 ^ 64
    → o.addr % 8 ≡ 0
    → get_binary u o ≡ ok (opnum_livecache ∷ word_bytes o.addr)
unfolding get_binary get_lc_binary
live_bytes u o e h aligned =
    let kept : bit_and o.addr 0xffff_ffff_ffff_fff8 ≡ o.addr =
      omega (arith, bit_and-address o.addr h) in
    rw (e, kept, value_bytes-word_bytes o.addr)

get_live_cache_lem :
    (a : ℕ) (out more : List ℕ)
    → a < 2 ^ 64
    → a % 8 ≡ 0
    → get_live_cache opnum_livecache (left true out (word_bytes a ++ more)) ≡ (
      record operation {
        op_code = opnum_livecache;
        addr = a;
        op_num = opnum_livecache;
        op_type = optype_lc;
      },
      left true out more,
    )
unfolding get_live_cache set_live_cache_op set_addr
get_live_cache_lem a out more h aligned =
    let kept : bit_and a 0xffff_ffff_ffff_fff8 ≡ a = omega (arith, bit_and-address a h) in
    rw (address_bytes a opnum_livecache out more h, kept)

live-IsBack :
    (u : Unspecified) (o : Operation) → IsOperation o → o.op_num ≡ opnum_livecache → IsBack u o
unfolding get check_mode check_file_state file_read get_op_type_by_op_num
live-IsBack u o p e = record {
  head = opnum_livecache;
  tail = word_bytes o.addr;
  written = live_bytes u o e p.addr p.aligned;
  got = λ out more. rw (get_live_cache_lem o.addr out more p.addr p.aligned, e);
}

pub operation-IsBack : (u : Unspecified) (o : Operation) → IsOperation o → Readable u o → IsBack u o
operation-IsBack u o p r = elim (IsPlain-or_live o p.coded) [
  | inl q ↦ plain-IsBack u o p q r
  | inr e ↦ live-IsBack u o p e
]
