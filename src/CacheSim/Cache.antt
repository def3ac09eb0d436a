-- ===== src/CacheSim/Cache.antt =====
-- A cache and its accesses: riscv-isa-sim/riscv/cachesim.h and cachesim.cc.
use cmpe220fall.Base.{
  ℕ, zero, suc, ◌+◌, ◌-◌, ◌*◌, ◌/◌, ◌%◌, ◌^◌, Bool, true, false, ◌&&◌, not, List, [], ◌∷◌, ◌++◌,
  Option, none, some, ltb, ◌==◌, if◌then◌else◌, bit_and, bit_or, bit_xor,
}
use cmpe220fall.Base.Word.{u32_mod, add64, shl64, shr64, not64}
use cmpe220fall.Mmu.Memory.{update}

-- `VALID`, `DIRTY`.
abbrev pub valid : ℕ
valid = 2 ^ 63

abbrev pub dirty : ℕ
dirty = 2 ^ 62

-- `lfsr_t::next`.
unfoldable pub lfsr_next : ℕ → ℕ
lfsr_next reg = bit_xor (reg / 2) (bit_and ((u32_mod - bit_and reg 1) % u32_mod) 0xD0000001)

-- The counters of `cache_sim_t`.
pub record Stats : Type 0 where
  pub read_accesses : ℕ
  pub read_misses : ℕ
  pub bytes_read : ℕ
  pub write_accesses : ℕ
  pub write_misses : ℕ
  pub bytes_written : ℕ
  pub writebacks : ℕ

-- `cache_sim_t`. The caches behind it, `miss_handler` and its own, are the rest of the list in
-- `access`.
pub record Cache : Type 0 where
  pub sets : ℕ
  pub ways : ℕ
  pub linesz : ℕ
  pub idx_shift : ℕ
  pub tags : ℕ → ℕ
  pub lfsr : ℕ
  pub stats : Stats

-- The loop of `init`: how often `linesz` is halved until it is 1, on fuel.
unfoldable pub shift_of : ℕ → ℕ → ℕ
shift_of zero x = 0
shift_of (suc fuel) x = let rest = shift_of fuel (shr64 x 1) in if ltb 1 x then suc rest else 0

abbrev pub no_stats : Stats
no_stats = record {
  read_accesses = 0;
  read_misses = 0;
  bytes_read = 0;
  write_accesses = 0;
  write_misses = 0;
  bytes_written = 0;
  writebacks = 0;
}

abbrev pub power_of_two : ℕ → Bool
power_of_two x = bit_and x (x - 1) == 0

-- The two tests of `init`, and the cache that passes them. A `linesz` below 2 ^ 64 is halved at most
-- 64 times.
abbrev pub accepts : ℕ → ℕ → Bool
accepts sets linesz =
    not (sets == 0) && power_of_two sets && not (ltb linesz 8) && power_of_two linesz

abbrev pub fresh : ℕ → ℕ → ℕ → Cache
fresh sets ways linesz = record {
  sets = sets;
  ways = ways;
  linesz = linesz;
  idx_shift = shift_of 64 linesz;
  tags = λ i. 0;
  lfsr = 1;
  stats = no_stats;
}

-- The constructor and `init`; `none` is `help`, which ends the program.
unfoldable pub init : ℕ → ℕ → ℕ → Option Cache
init sets ways linesz = if accepts sets linesz then some (fresh sets ways linesz) else none

module _ (c : Cache) (addr : ℕ) where
  unfoldable pub set_of : ℕ
  set_of = bit_and (shr64 addr c.idx_shift) (c.sets - 1)

  unfoldable pub tag_of : ℕ
  tag_of = bit_or (shr64 addr c.idx_shift) valid

-- The loop of `check_tag` over `k` places of `tags` from `p` on: the place of the tag.
unfoldable pub find_tag : (ℕ → ℕ) → ℕ → ℕ → ℕ → Option ℕ
find_tag tags tag zero p = none
find_tag tags tag (suc k) p =
    let rest = find_tag tags tag k (p + 1) in
    if tag == bit_and (tags p) (not64 dirty) then some p else rest

unfoldable pub check_tag : Cache → ℕ → Option ℕ
unfolding set_of tag_of find_tag
check_tag c addr = find_tag c.tags (tag_of c addr) c.ways (set_of c addr * c.ways)

-- The tag that gives way, and the cache with the line of `addr` in its place.
unfoldable pub victimize : Cache → ℕ → ℕ × Cache
unfolding lfsr_next set_of tag_of update
victimize c addr =
    let next = lfsr_next c.lfsr in
    let place = set_of c addr * c.ways + next % c.ways in
    (c.tags place, record c { lfsr = next; tags = update c.tags place (tag_of c addr) })

-- `*place |= DIRTY`.
unfoldable pub make_dirty : ℕ → Cache → Cache
unfolding update
make_dirty place c = record c { tags = update c.tags place (bit_or (c.tags place) dirty) }

unfoldable pub count_access : Bool → ℕ → Stats → Stats
count_access true bytes s = record s {
  write_accesses = add64 s.write_accesses 1;
  bytes_written = add64 s.bytes_written bytes;
}
count_access false bytes s = record s {
  read_accesses = add64 s.read_accesses 1;
  bytes_read = add64 s.bytes_read bytes;
}

unfoldable pub count_miss : Bool → Stats → Stats
count_miss true s = record s { write_misses = add64 s.write_misses 1 }
count_miss false s = record s { read_misses = add64 s.read_misses 1 }

unfoldable pub count_writeback : Bool → Stats → Stats
count_writeback b s = if b then record s { writebacks = add64 s.writebacks 1 } else s

-- Whether a tag is that of a line to write back, and the line's address.
unfoldable pub is_dirty : ℕ → Bool
is_dirty victim = bit_and victim (bit_or valid dirty) == bit_or valid dirty

unfoldable pub dirty_addr : Cache → ℕ → ℕ
dirty_addr c victim = shl64 (bit_and victim (not64 (bit_or valid dirty))) c.idx_shift

-- A store marks the line that it finds; a pointer that is NULL is not dereferenced here.
unfoldable pub mark : Bool → Option ℕ → Cache → Cache
unfolding make_dirty
mark true (some place) c = make_dirty place c
mark true none c = c
mark false o c = c

-- On a miss: the line is put in, and the counts of the miss and of the writeback go up.
unfoldable pub install : Cache → ℕ → Bool → Cache
unfolding victimize count_miss count_writeback is_dirty
install c addr store =
    let (victim, c1) = victimize c addr in
    record c1 { stats = count_writeback (is_dirty victim) (count_miss store c1.stats) }

-- What `access` does to this cache on a miss.
unfoldable pub fill : Cache → ℕ → Bool → Cache
unfolding install mark check_tag
fill c addr store = let c1 = install c addr store in mark store (check_tag c1 addr) c1

-- A call of `access`.
pub record Request : Type 0 where
  pub addr : ℕ
  pub bytes : ℕ
  pub store : Bool

-- The calls of `miss_handler->access` on a miss.
unfoldable pub handler_calls : Cache → ℕ → List Request
unfolding victimize is_dirty dirty_addr
handler_calls c addr =
    let victim = (victimize c addr).0 in
    let read : Request = record {
      addr = bit_and addr (not64 (c.linesz - 1));
      bytes = c.linesz;
      store = false;
    } in
    let write : Request = record { addr = dirty_addr c victim; bytes = c.linesz; store = true } in
    if is_dirty victim then write ∷ read ∷ [] else read ∷ []

abbrev pub counted : Cache → Request → Cache
counted c r = record c { stats = count_access r.store r.bytes c.stats }

-- The branches on what `check_tag` finds.
abbrev pub hit_or_miss : Cache → Request → Option ℕ → Cache × List Request
hit_or_miss c r (some place) = (mark r.store (some place) c, [])
hit_or_miss c r none = (fill c r.addr r.store, handler_calls c r.addr)

-- An access as far as this cache goes, and the calls of its miss handler in their order.
unfoldable pub access_here : Cache → Request → Cache × List Request
unfolding count_access check_tag fill mark handler_calls
access_here c r = hit_or_miss (counted c r) r (check_tag c r.addr)

-- A cache after some accesses, one after the other, and all the calls of its miss handler.
unfoldable pub run : Cache → List Request → Cache × List Request
unfolding access_here
run c [] = (c, [])
run c (r ∷ rs) =
    let (c1, calls) = access_here c r in let (c2, later) = run c1 rs in (c2, calls ++ later)

-- Accesses of the first cache of a chain, each the miss handler of the one before it. A cache does
-- not see its miss handler, so the handler may answer all the calls at the end.
unfoldable pub access : List Cache → List Request → List Cache
unfolding run
access [] rs = []
access (c ∷ cs) rs = let (c', calls) = run c rs in c' ∷ access cs calls
