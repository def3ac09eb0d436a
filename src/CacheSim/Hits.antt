-- ===== src/CacheSim/Hits.antt =====
-- What an access leaves in a cache: its own line.
use cmpe220fall.Base.{
  ℕ, ◌+◌, ◌-◌, ◌*◌, ◌/◌, ◌%◌, ◌^◌, ◌<◌, ◌≤◌, ◌≡◌, ◌≢◌, refl, sym, ap, ◌∙◌, arith, bit_or, inl, inr,
  Option, none, some, Option-cases, Bool, true, false, Bool-cases, ◌==◌, ==_iff, [],
}
use mathlib.Core.Option.{none-ne-some}
use native.Mathlib.Nat.{div-lt_iff_lt-mul, mod-lt}
use cmpe220fall.Mmu.Memory.{update}
use cmpe220fall.CacheSim.Cache.{
  Cache, Stats, Request, dirty, tag_of, set_of, check_tag, victimize, make_dirty, mark, fill,
  install, counted, hit_or_miss, access_here, lfsr_next, count_access,
}
use cmpe220fall.CacheSim.Tags.{clean, clean-dirty, tag_of-clean, find_tag-found, find_tag-all}

-- The shape of a cache that `init` accepts, with at least one way.
pub record IsCache (c : Cache) : Type 0 where
  pub ways : 0 < c.ways
  pub line : 8 ≤ c.linesz
  pub shift : c.linesz ≡ 2 ^ c.idx_shift

-- `check_tag` finds the line of the address.
abbrev pub Holds : Cache → ℕ → Type 0
Holds c addr = check_tag c addr ≢ none

line_small : (c : Cache) (addr : ℕ) → IsCache c → addr < 2 ^ 64 → addr / 2 ^ c.idx_shift < 2 ^ 61
line_small c addr k p = rw (sym k.shift) (
    (div-lt_iff_lt-mul {k = c.linesz} {x = addr} {y = 2 ^ 61} (omega (arith, k.line))).1
      (omega (arith, k.line)))

update-same : {A : Type 0} (f : ℕ → A) (i : ℕ) (v : A) → update f i v i ≡ v
unfolding update
update-same f i v = rw ((==_iff i i).1 refl) refl

place-Holds :
    (c : Cache) (addr i : ℕ)
    → i < c.ways
    → tag_of c addr ≡ clean (c.tags (set_of c addr * c.ways + i))
    → Holds c addr
unfolding check_tag
place-Holds c addr i lt e =
    find_tag-all c.tags (tag_of c addr) c.ways (set_of c addr * c.ways) i lt e

-- The place at which the line is found.
found-place :
    (c : Cache) (addr : ℕ)
    → Holds c addr
    → (i : ℕ) × (i < c.ways) × (tag_of c addr ≡ clean (c.tags (set_of c addr * c.ways + i)))
unfolding check_tag
found-place c addr h = elim (Option-cases (check_tag c addr)) [
  | inl e ↦ absurd (h e)
  | inr (q, e) ↦
      let base = set_of c addr * c.ways in
      let (le, lt, eq) = find_tag-found c.tags (tag_of c addr) c.ways base q e in
      let whole : q ≡ base + (q - base) = omega arith in
      (q - base, omega arith, eq ∙ ap (λ x. clean (c.tags x)) whole)
]

dirty-clean :
    (tags : ℕ → ℕ) (p q : ℕ) → clean (update tags p (bit_or (tags p) dirty) q) ≡ clean (tags q)
unfolding update
dirty-clean tags p q = elim (Bool-cases (q == p)) [
  | inl e ↦ rw e (clean-dirty (tags p) ∙ ap (λ x. clean (tags x)) (sym ((==_iff q p).0 e)))
  | inr e ↦ rw e refl
]

make_dirty-Holds : (c : Cache) (p addr : ℕ) → Holds c addr → Holds (make_dirty p c) addr
unfolding make_dirty set_of tag_of
make_dirty-Holds c p addr h =
    let (i, lt, e) = found-place c addr h in
    place-Holds (make_dirty p c) addr i lt (e ∙ sym (dirty-clean c.tags p _))

pub mark-Holds :
    (store : Bool) (o : Option ℕ) (c : Cache) (addr : ℕ)
    → Holds c addr
    → Holds (mark store o c) addr
unfolding mark
mark-Holds true (some p) c addr h = make_dirty-Holds c p addr h
mark-Holds true none c addr h = h
mark-Holds false o c addr h = h

-- The line that `victimize` puts in is found, so `*check_tag(addr)` is no NULL.
pub victimize-Holds :
    (c : Cache) (addr : ℕ) → IsCache c → addr < 2 ^ 64 → Holds (victimize c addr).1 addr
unfolding victimize set_of tag_of update
victimize-Holds c addr k p =
    let place = set_of c addr * c.ways + lfsr_next c.lfsr % c.ways in
    place-Holds (victimize c addr).1 addr (lfsr_next c.lfsr % c.ways) (mod-lt _ k.ways) (
      sym (
        ap clean (update-same c.tags place (tag_of c addr))
        ∙ tag_of-clean c addr (line_small c addr k p)))

-- The counters do not matter to the search.
stats-Holds :
    (c : Cache) (addr : ℕ) (s : Stats) → Holds c addr → Holds (record c { stats = s }) addr
unfolding check_tag set_of tag_of
stats-Holds c addr s h = h

counted-IsCache : (c : Cache) (r : Request) → IsCache c → IsCache (counted c r)
counted-IsCache c r k = record { ways = k.ways; line = k.line; shift = k.shift }

install-Holds :
    (c : Cache) (addr : ℕ) (store : Bool)
    → IsCache c
    → addr < 2 ^ 64
    → Holds (install c addr store) addr
unfolding install
install-Holds c addr store k p =
    stats-Holds (victimize c addr).1 addr (install c addr store).stats (victimize-Holds c addr k p)

fill-Holds :
    (c : Cache) (addr : ℕ) (store : Bool)
    → IsCache c
    → addr < 2 ^ 64
    → Holds (fill c addr store) addr
unfolding fill
fill-Holds c addr store k p =
    mark-Holds store (check_tag (install c addr store) addr) (install c addr store) addr
      (install-Holds c addr store k p)

hit_or_miss-Holds :
    (c : Cache) (r : Request) (o : Option ℕ)
    → IsCache c
    → r.addr < 2 ^ 64
    → check_tag c r.addr ≡ o
    → Holds (hit_or_miss (counted c r) r o).0 r.addr
hit_or_miss-Holds c r (some place) k p e =
    mark-Holds r.store (some place) (counted c r) r.addr
      (stats-Holds c r.addr _ λ n. none-ne-some place (sym n ∙ e))
hit_or_miss-Holds c r none k p e = fill-Holds (counted c r) r.addr r.store (counted-IsCache c r k) p

-- However an access of an address below 2 ^ 64 ends, its line is then in the cache.
pub access_here-Holds :
    (c : Cache) (r : Request) → IsCache c → r.addr < 2 ^ 64 → Holds (access_here c r).0 r.addr
unfolding access_here
access_here-Holds c r k p = hit_or_miss-Holds c r (check_tag c r.addr) k p refl

-- Two addresses of one line.
same_line-Holds :
    (c : Cache) (a b : ℕ) → a / 2 ^ c.idx_shift ≡ b / 2 ^ c.idx_shift → Holds c a → Holds c b
unfolding check_tag set_of tag_of
same_line-Holds c a b e h = rw (sym e) h

mark-misses : (store : Bool) (place : ℕ) (c : Cache) → (mark store (some place) c).stats ≡ c.stats
unfolding mark make_dirty
mark-misses true place c = refl
mark-misses false place c = refl

count_access-misses :
    (store : Bool) (bytes : ℕ) (s : Stats)
    → ((count_access store bytes s).read_misses ≡ s.read_misses)
      × ((count_access store bytes s).write_misses ≡ s.write_misses)
      × ((count_access store bytes s).writebacks ≡ s.writebacks)
unfolding count_access
count_access-misses true bytes s = (refl, refl, refl)
count_access-misses false bytes s = (refl, refl, refl)

-- What an access leaves as it was: the counts of misses and writebacks, and the miss handler.
abbrev pub IsHit : Cache → Request → Type 0
IsHit c r =
    ((access_here c r).1 ≡ [])
    × ((access_here c r).0.stats.read_misses ≡ c.stats.read_misses)
    × ((access_here c r).0.stats.write_misses ≡ c.stats.write_misses)
    × ((access_here c r).0.stats.writebacks ≡ c.stats.writebacks)

Holds-IsHit : (c : Cache) (r : Request) → Holds c r.addr → IsHit c r
unfolding access_here
Holds-IsHit c r h = elim (Option-cases (check_tag c r.addr)) [
  | inl e ↦ absurd (h e)
  | inr (place, e) ↦
      let same = mark-misses r.store place (counted c r) in
      let (reads, writes, backs) = count_access-misses r.store r.bytes c.stats in
      rw (e, same) (refl, reads, writes, backs)
]

mark-shift : (store : Bool) (o : Option ℕ) (c : Cache) → (mark store o c).idx_shift ≡ c.idx_shift
unfolding mark make_dirty
mark-shift true (some place) c = refl
mark-shift true none c = refl
mark-shift false o c = refl

fill-shift : (c : Cache) (addr : ℕ) (store : Bool) → (fill c addr store).idx_shift ≡ c.idx_shift
unfolding fill install victimize
fill-shift c addr store =
    mark-shift store (check_tag (install c addr store) addr) (install c addr store)

hit_or_miss-shift :
    (c : Cache) (r : Request) (o : Option ℕ) → (hit_or_miss c r o).0.idx_shift ≡ c.idx_shift
hit_or_miss-shift c r (some place) = mark-shift r.store (some place) c
hit_or_miss-shift c r none = fill-shift c r.addr r.store

access_here-shift : (c : Cache) (r : Request) → (access_here c r).0.idx_shift ≡ c.idx_shift
unfolding access_here
access_here-shift c r = hit_or_miss-shift (counted c r) r (check_tag c r.addr)

-- After an access, an access of any address of the same line is a hit, whatever the two store.
pub access_here-IsHit :
    (c : Cache) (r s : Request)
    → IsCache c
    → r.addr < 2 ^ 64
    → r.addr / c.linesz ≡ s.addr / c.linesz
    → IsHit (access_here c r).0 s
access_here-IsHit c r s k p e =
    let c' = (access_here c r).0 in
    let line : r.addr / 2 ^ c'.idx_shift ≡ s.addr / 2 ^ c'.idx_shift =
      rw (access_here-shift c r, sym k.shift) e in
    Holds-IsHit c' s (same_line-Holds c' r.addr s.addr line (access_here-Holds c r k p))
