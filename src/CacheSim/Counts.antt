-- ===== src/CacheSim/Counts.antt =====
-- The counters of a cache: what they add up to after any accesses.
use cmpe220fall.Base.{
  Bool-cases, inl, inr, ℕ, suc, ◌+◌, ◌^◌, ◌<◌, ◌≤◌, ◌≡◌, refl, arith, Option, none, some, Bool,
  true, false, List, [], ◌∷◌, ◌++◌, length, length-++, if◌then◌else◌,
}
use cmpe220fall.CacheSim.Cache.{
  Cache, Stats, Request, check_tag, victimize, mark, make_dirty, fill, install, handler_calls,
  is_dirty, counted, hit_or_miss, access_here, count_access, count_miss, count_writeback, run,
}

-- Counters that have not wrapped: so many accesses, no more misses than accesses and no more
-- writebacks than misses, and so many calls of the miss handler.
pub record IsCounted (accesses asked : ℕ) (s : Stats) : Type 0 where
  pub total : s.read_accesses + s.write_accesses ≡ accesses
  pub reads : s.read_misses ≤ s.read_accesses
  pub writes : s.write_misses ≤ s.write_accesses
  pub backs : s.writebacks ≤ s.read_misses + s.write_misses
  pub calls : s.read_misses + s.write_misses + s.writebacks ≡ asked

module _ (n m : ℕ) (s : Stats) (k : IsCounted n m s) (p : suc n < 2 ^ 64) where
  hit-IsCounted : (store : Bool) (bytes : ℕ) → IsCounted (suc n) m (count_access store bytes s)
  unfolding count_access
  hit-IsCounted true bytes = record {
    total = omega (arith, k.total);
    reads = k.reads;
    writes = omega (arith, k.total, k.writes);
    backs = k.backs;
    calls = k.calls;
  }
  hit-IsCounted false bytes = record {
    total = omega (arith, k.total);
    reads = omega (arith, k.total, k.reads);
    writes = k.writes;
    backs = k.backs;
    calls = k.calls;
  }

  miss-IsCounted :
      (store back : Bool) (bytes : ℕ)
      → IsCounted
          (suc n)
          (m + (if back then 2 else 1))
          (count_writeback back (count_miss store (count_access store bytes s)))
  unfolding count_access count_miss count_writeback
  miss-IsCounted true true bytes = record {
    total = omega (arith, k.total, k.reads, k.writes, k.backs, k.calls);
    reads = omega (arith, k.total, k.reads, k.writes, k.backs, k.calls);
    writes = omega (arith, k.total, k.reads, k.writes, k.backs, k.calls);
    backs = omega (arith, k.total, k.reads, k.writes, k.backs, k.calls);
    calls = omega (arith, k.total, k.reads, k.writes, k.backs, k.calls);
  }
  miss-IsCounted true false bytes = record {
    total = omega (arith, k.total, k.reads, k.writes, k.backs, k.calls);
    reads = omega (arith, k.total, k.reads, k.writes, k.backs, k.calls);
    writes = omega (arith, k.total, k.reads, k.writes, k.backs, k.calls);
    backs = omega (arith, k.total, k.reads, k.writes, k.backs, k.calls);
    calls = omega (arith, k.total, k.reads, k.writes, k.backs, k.calls);
  }
  miss-IsCounted false true bytes = record {
    total = omega (arith, k.total, k.reads, k.writes, k.backs, k.calls);
    reads = omega (arith, k.total, k.reads, k.writes, k.backs, k.calls);
    writes = omega (arith, k.total, k.reads, k.writes, k.backs, k.calls);
    backs = omega (arith, k.total, k.reads, k.writes, k.backs, k.calls);
    calls = omega (arith, k.total, k.reads, k.writes, k.backs, k.calls);
  }
  miss-IsCounted false false bytes = record {
    total = omega (arith, k.total, k.reads, k.writes, k.backs, k.calls);
    reads = omega (arith, k.total, k.reads, k.writes, k.backs, k.calls);
    writes = omega (arith, k.total, k.reads, k.writes, k.backs, k.calls);
    backs = omega (arith, k.total, k.reads, k.writes, k.backs, k.calls);
    calls = omega (arith, k.total, k.reads, k.writes, k.backs, k.calls);
  }

mark-stats : (store : Bool) (o : Option ℕ) (c : Cache) → (mark store o c).stats ≡ c.stats
unfolding mark make_dirty
mark-stats true (some place) c = refl
mark-stats true none c = refl
mark-stats false o c = refl

handler_calls-length :
    (c : Cache) (addr : ℕ)
    → length (handler_calls c addr) ≡ (if is_dirty (victimize c addr).0 then 2 else 1)
unfolding handler_calls
handler_calls-length c addr = elim (Bool-cases (is_dirty (victimize c addr).0)) [
  | inl e ↦ rw e refl
  | inr e ↦ rw e refl
]

fill-stats :
    (c : Cache) (addr : ℕ) (store : Bool)
    → (fill c addr store).stats
      ≡ count_writeback (is_dirty (victimize c addr).0) (count_miss store c.stats)
unfolding fill install victimize
fill-stats c addr store =
    mark-stats store (check_tag (install c addr store) addr) (install c addr store)

module _ (c : Cache) (r : Request) (n m : ℕ) (k : IsCounted n m c.stats) (p : suc n < 2 ^ 64) where
  hit_or_miss-IsCounted :
      (o : Option ℕ)
      → IsCounted
          (suc n)
          (m + length (hit_or_miss (counted c r) r o).1)
          (hit_or_miss (counted c r) r o).0.stats
  hit_or_miss-IsCounted (some place) =
      let none_more : m + 0 ≡ m = omega arith in
      rw (mark-stats r.store (some place) (counted c r), none_more)
        (hit-IsCounted n m c.stats k p r.store r.bytes)
  hit_or_miss-IsCounted none =
      rw (handler_calls-length (counted c r) r.addr, fill-stats (counted c r) r.addr r.store)
        (miss-IsCounted n m c.stats k p r.store (is_dirty (victimize (counted c r) r.addr).0)
          r.bytes)

  access_here-IsCounted :
      IsCounted (suc n) (m + length (access_here c r).1) (access_here c r).0.stats
  unfolding access_here
  access_here-IsCounted = hit_or_miss-IsCounted (check_tag c r.addr)

-- After any accesses, as long as no counter could have wrapped, the counters add up: each access
-- is counted once, at most as many missed, at most as many of those wrote a line back, and the
-- miss handler was called once for every miss and once more for every writeback.
pub run-IsCounted :
    (rs : List Request) (c : Cache) (n m : ℕ)
    → IsCounted n m c.stats
    → n + length rs < 2 ^ 64
    → IsCounted (n + length rs) (m + length (run c rs).1) (run c rs).0.stats
unfolding run
run-IsCounted [] c n m k p =
    let same : n + 0 ≡ n = omega arith in
    let none_more : m + 0 ≡ m = omega arith in rw (same, none_more) k
run-IsCounted (r ∷ rs) c n m k p =
    let (c1, calls) = access_here c r in
    let first = access_here-IsCounted c r n m k (omega arith) in
    let rest = run-IsCounted rs c1 (suc n) (m + length calls) first (omega arith) in
    let moved : n + suc (length rs) ≡ suc n + length rs = omega arith in
    let joined : m + length (calls ++ (run c1 rs).1) ≡ m + length calls + length (run c1 rs).1 =
      let parts = length-++ calls (run c1 rs).1 in omega arith in
    rw (moved, joined) rest
