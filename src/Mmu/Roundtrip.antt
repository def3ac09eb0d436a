-- ===== src/Mmu/Roundtrip.antt =====
-- Byte memory: what is stored is loaded, and nothing else changes.
use cmpe220fall.Base.{ℕ, zero, suc, ◌+◌, ◌*◌, ◌/◌, ◌%◌, ◌^◌, ◌≤◌, ◌<◌, ◌≡◌, ◌⊎◌, refl, arith}
use native.Mathlib.Nat.{div-div-eq-div-mul, mod-add-div}
use native.Mathlib.Numerals.{towards_suc}
use cmpe220fall.Mmu.Memory.{update, load_le, store_le}

store_le-outside :
    (mem : ℕ → ℕ) (p len v q : ℕ) → (q < p) ⊎ (p + len ≤ q) → store_le mem p len v q ≡ mem q
unfolding store_le
store_le-outside mem p zero v q out = refl
store_le-outside mem p (suc len) v q out =
    ground (arith, store_le-outside (update mem p (v % 256)) (p + 1) len (v / 256) q)

load_le-same :
    (f g : ℕ → ℕ) (p len : ℕ)
    → ((q : ℕ) → p ≤ q → q < p + len → f q ≡ g q)
    → load_le f p len ≡ load_le g p len
unfolding load_le
load_le-same f g p zero same = refl
load_le-same f g p (suc len) same =
    let first = same p (omega arith) (omega arith) in
    let rest = load_le-same f g (p + 1) len (λ q lo hi. same q (omega arith) (omega arith)) in
    rw (first, rest)

digit-split : (v m : ℕ) → v % 256 + 256 * (v / 256 % m) ≡ v % (256 * m)
digit-split v m =
    let whole : v % (256 * m) + 256 * m * (v / 256 / m) ≡ v =
      rw (div-div-eq-div-mul v 256 m) (mod-add-div v (256 * m)) in
    omega (arith, whole, mod-add-div (v / 256) m)

pub byte-pow-suc : (len : ℕ) → 2 ^ (8 * suc len) ≡ 256 * 2 ^ (8 * len)
byte-pow-suc len =
    let e : 8 * suc len ≡ 8 * len + 8 = omega arith in rw e (simp towards_suc (omega arith))

load_le-store_le_self :
    (mem : ℕ → ℕ) (p len v : ℕ) → load_le (store_le mem p len v) p len ≡ v % 2 ^ (8 * len)
unfolding load_le store_le
load_le-store_le_self mem p zero v = omega arith
load_le-store_le_self mem p (suc len) v = ground (
  arith,
  store_le-outside (update mem p (v % 256)) (p + 1) len (v / 256) p,
  load_le-store_le_self (update mem p (v % 256)) (p + 1) len (v / 256),
  byte-pow-suc len,
  digit-split v (2 ^ (8 * len)),
)

-- A load of the bytes just stored gives the value, cut to their number, and a load of bytes apart from
-- them gives what it gave before.
pub load_le-store_le :
    (mem : ℕ → ℕ) (p len v : ℕ)
    → (load_le (store_le mem p len v) p len ≡ v % 2 ^ (8 * len))
      × ((q n : ℕ)
          → (q + n ≤ p) ⊎ (p + len ≤ q)
          → load_le (store_le mem p len v) q n ≡ load_le mem q n)
load_le-store_le mem p len v = (
  load_le-store_le_self mem p len v,
  λ q n apart.
      load_le-same (store_le mem p len v) mem q n
        λ r lo hi. store_le-outside mem p len v r (omega arith),
)
