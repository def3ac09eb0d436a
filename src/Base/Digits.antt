-- ===== src/Base/Digits.antt =====
-- The binary digits of a number, and those of the bitwise operations.
use cmpe220fall.Base.{
  ℕ, zero, suc, ◌*◌, ◌/◌, ◌%◌, ◌^◌, ◌<◌, ◌≡◌, ◌≢◌, ◌∙◌, refl, sym, ap, arith, bit_and, bit_or,
}
use Prim.Native.Nat.{min, max}
use cmpe220fall.Base.Bits.{bit_and-step, bit_or-step, two-pow-suc, two-pow-pos, bit_and-zero}

abbrev pub digit : ℕ → ℕ → ℕ
digit zero a = a % 2
digit (suc k) a = digit k (a / 2)

pub digit-lt : (k a : ℕ) → digit k a < 2
digit-lt zero a = omega arith
digit-lt (suc k) a = digit-lt k (a / 2)

pub digit-bit_and : (k a b : ℕ) → digit k (bit_and a b) ≡ min (digit k a) (digit k b)
digit-bit_and zero a b = omega (arith, bit_and-step a b)
digit-bit_and (suc k) a b =
    let half : bit_and a b / 2 ≡ bit_and (a / 2) (b / 2) = omega (arith, bit_and-step a b) in
    rw half (digit-bit_and k (a / 2) (b / 2))

pub digit-bit_or : (k a b : ℕ) → digit k (bit_or a b) ≡ max (digit k a) (digit k b)
digit-bit_or zero a b = omega (arith, bit_or-step a b)
digit-bit_or (suc k) a b =
    let half : bit_or a b / 2 ≡ bit_or (a / 2) (b / 2) = omega (arith, bit_or-step a b) in
    rw half (digit-bit_or k (a / 2) (b / 2))

-- The mask of one digit.
pub bit_and-digit : (k a : ℕ) → bit_and a (2 ^ k) ≡ digit k a * 2 ^ k
bit_and-digit zero a = omega (arith, bit_and-step a 1, bit_and-zero (a / 2))
bit_and-digit (suc k) a =
    let half : (2 * 2 ^ k) / 2 ≡ 2 ^ k = omega arith in
    let step : bit_and a (2 * 2 ^ k) ≡ bit_and (a / 2) (2 ^ k) * 2 =
      omega (arith, bit_and-step a (2 * 2 ^ k), ap (bit_and (a / 2)) half) in
    rw (two-pow-suc k, step, bit_and-digit k (a / 2)) (omega arith)

digit-two-pow : (k : ℕ) → digit k (2 ^ k) ≡ 1
digit-two-pow zero = refl
digit-two-pow (suc k) =
    let half : (2 * 2 ^ k) / 2 ≡ 2 ^ k = omega arith in rw (two-pow-suc k, half) (digit-two-pow k)

product-zero : (d p : ℕ) → d < 2 → 0 < p → d * p ≡ 0 → d ≡ 0
product-zero zero p l q e = refl
product-zero (suc zero) p l q e = absurd (omega arith)
product-zero (suc (suc d)) p l q e = absurd (omega arith)

digit-zero : (k a : ℕ) → bit_and a (2 ^ k) ≡ 0 → digit k a ≡ 0
digit-zero k a e =
    product-zero (digit k a) (2 ^ k) (digit-lt k a) (two-pow-pos k) (sym (bit_and-digit k a) ∙ e)

masked-zero : (k a : ℕ) → digit k a ≡ 0 → bit_and a (2 ^ k) ≡ 0
masked-zero k a e = bit_and-digit k a ∙ rw e (omega arith)

-- If `a` has a digit, it shares that digit with any number that is given it.
pub bit_and-given :
    (k a b : ℕ) → bit_and a (2 ^ k) ≢ 0 → bit_and (bit_and a (bit_or b (2 ^ k))) (2 ^ k) ≢ 0
bit_and-given k a b n e =
    let both = digit-zero k (bit_and a (bit_or b (2 ^ k))) e in
    n (
      masked-zero k a (
        omega (
          arith,
          both,
          digit-bit_and k a (bit_or b (2 ^ k)),
          digit-bit_or k b (2 ^ k),
          digit-two-pow k,
          digit-lt k a,
          digit-lt k b,
        )))

-- The digit that two numbers do not share is not shared either when one is given another digit.
pub bit_and-not_given :
    (k j a b : ℕ)
    → digit k (2 ^ j) ≡ 0
    → bit_and (bit_and a b) (2 ^ k) ≡ 0
    → bit_and (bit_and a (bit_or b (2 ^ j))) (2 ^ k) ≡ 0
bit_and-not_given k j a b z e = masked-zero k (bit_and a (bit_or b (2 ^ j))) (
    omega (
      arith,
      z,
      digit-zero k (bit_and a b) e,
      digit-bit_and k a b,
      digit-bit_and k a (bit_or b (2 ^ j)),
      digit-bit_or k b (2 ^ j),
    ))
