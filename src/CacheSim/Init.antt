-- ===== src/CacheSim/Init.antt =====
-- What `init` accepts: riscv-isa-sim/riscv/cachesim.cc.
use cmpe220fall.Base.{
  ℕ, zero, suc, ◌-◌, ◌/◌, ◌%◌, ◌^◌, ◌<◌, ◌≤◌, ◌≡◌, refl, sym, arith, some, true, Bool-cases, inl,
  inr, ◌⊎◌, bit_and, ltb,
}
use mathlib.Core.Option.{some-injective, none-ne-some}
use cmpe220fall.Base.Bits.{bit_and-step, two-pow-suc}
use cmpe220fall.CacheSim.Cache.{Cache, shift_of, init, accepts, fresh, no_stats}
use cmpe220fall.CacheSim.Hits.{IsCache}

bit_and-self_below : (n a : ℕ) → a ≤ n → bit_and a a ≡ a
bit_and-self_below n zero h = refl
bit_and-self_below zero (suc a) h = absurd (omega arith)
bit_and-self_below (suc n) (suc a) h =
    omega (arith, bit_and-step (suc a) (suc a), bit_and-self_below n (suc a / 2) (omega arith))

mod_cases : (x : ℕ) → (x % 2 ≡ 0) ⊎ (x % 2 ≡ 1)
mod_cases x = ground arith

power-even : (x : ℕ) → 1 < x → bit_and x (x - 1) ≡ 0 → x % 2 ≡ 0
power-even x more e = elim (mod_cases x) [
  | inl z ↦ z
  | inr o ↦
      let half : (x - 1) / 2 ≡ x / 2 = omega arith in
      let whole = rw half at (bit_and-step x (x - 1)) in
      let self = bit_and-self_below (x / 2) (x / 2) (omega arith) in absurd (omega arith)
]

power-half : (x : ℕ) → 1 < x → bit_and x (x - 1) ≡ 0 → bit_and (x / 2) (x / 2 - 1) ≡ 0
power-half x more e =
    let even = power-even x more e in
    let half : (x - 1) / 2 ≡ x / 2 - 1 = omega arith in
    let whole = rw half at (bit_and-step x (x - 1)) in omega arith

-- A number that shares no bit with its predecessor is a power of two, and `init`'s loop finds which.
shift_of-power :
    (fuel x : ℕ) → 0 < x → x < 2 ^ fuel → bit_and x (x - 1) ≡ 0 → x ≡ 2 ^ shift_of fuel x
unfolding shift_of
shift_of-power zero x p q e = absurd (omega arith)
shift_of-power (suc fuel) x p q e = elim (Bool-cases (ltb 1 x)) [
  | inl b ↦
      let more : 1 < x = ground (arith, b) in
      let pow = two-pow-suc fuel in
      let even = power-even x more e in
      let rest = shift_of-power fuel (x / 2) (omega arith) (omega arith) (power-half x more e) in
      rw b (omega (arith, two-pow-suc (shift_of fuel (x / 2)), rest, even))
  | inr b ↦ let one : x ≡ 1 = ground (arith, b, p) in rw b (omega arith)
]

-- What passes the tests of `init`, with at least one way, has the shape of a cache.
fresh-IsCache :
    (sets ways linesz : ℕ)
    → accepts sets linesz ≡ true
    → 0 < ways
    → linesz < 2 ^ 64
    → IsCache (fresh sets ways linesz)
fresh-IsCache sets ways linesz e w p =
    let eight : 8 ≤ linesz = ground (arith, e) in
    record {
      ways = w;
      line = eight;
      shift = shift_of-power 64 linesz (omega arith) p (ground (arith, e));
    }

-- A cache that `init` accepts has the shape on which its accesses rely, if it has at least one way,
-- and its counters start at zero.
pub init-IsCache :
    (sets ways linesz : ℕ) (c : Cache)
    → init sets ways linesz ≡ some c
    → 0 < ways
    → linesz < 2 ^ 64
    → IsCache c × (c.stats ≡ no_stats)
unfolding init
init-IsCache sets ways linesz c e w p = elim (Bool-cases (accepts sets linesz)) [
  | inl a ↦
      let same = some-injective _ c (rw a at e) in
      rw (sym same) (fresh-IsCache sets ways linesz a w p, refl)
  | inr a ↦ absurd (none-ne-some c (rw a at e))
]
