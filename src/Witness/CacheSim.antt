-- ===== src/Witness/CacheSim.antt =====
-- A cache of two sets with two ways of 16 bytes, asked for a few addresses.
use cmpe220fall.Base.{
  some, ◌^◌, bit_or, ℕ, ◌≡◌, ◌+◌, refl, true, false, List, [], ◌∷◌, length, arith,
}
use cmpe220fall.CacheSim.Cache.{
  valid, Cache, Request, init, fresh, shift_of, no_stats, victimize, access_here, run, lfsr_next,
}
use cmpe220fall.Base.Word.{shr64}
use cmpe220fall.CacheSim.FullyAssoc.{Assoc, IsAssoc, replace, check_line, replace-IsAssoc}
use cmpe220fall.CacheSim.Lfsr.{IsRegister, lfsr_next_lem}
use cmpe220fall.CacheSim.Hits.{IsCache, Holds, IsHit, victimize-Holds, access_here-IsHit}
use cmpe220fall.CacheSim.Init.{init-IsCache}
use cmpe220fall.CacheSim.Counts.{IsCounted, run-IsCounted}

abbrev small : Cache
small = fresh 2 2 16

abbrev write_at : ℕ → Request
write_at a = record { addr = a; bytes = 8; store = true }

abbrev read_at : ℕ → Request
read_at a = record { addr = a; bytes = 4; store = false }

init-IsCache_example : IsCache small × (small.stats ≡ no_stats)
unfolding init
init-IsCache_example = init-IsCache 2 2 16 small refl (omega arith) (omega arith)

small-IsCache : IsCache small
unfolding shift_of
small-IsCache = record { ways = omega arith; line = omega arith; shift = refl }

lfsr_next_lem_example :
    IsRegister (lfsr_next 0xD0000001)
    × (lfsr_next 0xD0000001 ≡ lfsr_next 6 → ◌≡◌ {A = ℕ} 0xD0000001 6)
lfsr_next_lem_example =
    lfsr_next_lem 0xD0000001 6 (omega arith, omega arith) (omega arith, omega arith)

victimize-Holds_example : Holds (victimize small 0x1238).1 0x1238
victimize-Holds_example = victimize-Holds small 0x1238 small-IsCache (omega arith)

access_here-IsHit_example : IsHit (access_here small (write_at 0x1238)).0 (read_at 0x1234)
access_here-IsHit_example =
    access_here-IsHit small (write_at 0x1238) (read_at 0x1234) small-IsCache (omega arith) refl

no_stats-IsCounted : IsCounted 0 0 small.stats
no_stats-IsCounted = record {
  total = refl;
  reads = omega arith;
  writes = omega arith;
  backs = omega arith;
  calls = refl;
}

abbrev requests : List Request
requests = write_at 0x100 ∷ read_at 0x104 ∷ read_at 0x900 ∷ write_at 0x1100 ∷ []

run-IsCounted_example :
    IsCounted (0 + length requests) (0 + length (run small requests).1) (run small requests).0.stats
run-IsCounted_example = run-IsCounted requests small 0 0 no_stats-IsCounted (omega arith)

-- A fully associative cache of two ways that is full.
abbrev full : Assoc
full = record { ways = 2; idx_shift = 4; lfsr = 1; lines = (3, 2 ^ 63 + 3) ∷ (8, 2 ^ 63 + 8) ∷ [] }

full-IsAssoc : IsAssoc full
full-IsAssoc = record { rising = (omega arith, (omega arith, tt)); fits = omega arith }

replace-IsAssoc_example :
    IsAssoc (replace full 0x58).1
    × (check_line (replace full 0x58).1 0x58 ≡ some (bit_or (shr64 0x58 4) valid))
replace-IsAssoc_example = replace-IsAssoc full 0x58 (omega arith) full-IsAssoc
