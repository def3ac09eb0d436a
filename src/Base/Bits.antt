-- ===== src/Base/Bits.antt =====
-- `&`, `|` and `^` at variables: a word is cut at any bit, and the operation works on the two
-- parts apart. The three are instances of one recursion on binary digits.
use Prim.Native.Nat.{ℕ, zero, suc, ◌+◌, ◌-◌, ◌*◌, ◌/◌, ◌%◌, ◌^◌, ◌≤◌, ◌<◌, min, max}
use Prim.Native.Nat.{bit_and, bit_or, bit_xor, digits, differ}
use Prim.Native.Nat.{bit_and-bitwise, bit_or-bitwise, bit_xor-bitwise}
use native.Mathlib.Nat.{pow-suc}
use native.Mathlib.Omega.{arith}
use mathlib.Core.Path.{◌≡◌, refl}

-- One digit is done, and the fuel that is left over does not matter.
module _ (rest : ℕ → ℕ) (op : ℕ → ℕ → ℕ) where
  fuel_irrelevant :
      (y x fuel extra : ℕ)
      → (x ≤ fuel) × (x ≤ extra)
      → digits rest op extra x y ≡ digits rest op fuel x y
  fuel_irrelevant y zero zero zero h = refl
  fuel_irrelevant y zero zero (suc extra) h = refl
  fuel_irrelevant y zero (suc fuel) zero h = refl
  fuel_irrelevant y zero (suc fuel) (suc extra) h = refl
  fuel_irrelevant y (suc x) zero extra h = absurd (omega (arith, h.0))
  fuel_irrelevant y (suc x) (suc fuel) zero h = absurd (omega (arith, h.1))
  fuel_irrelevant y (suc x) (suc fuel) (suc extra) h = omega (
    arith,
    fuel_irrelevant (y / 2) (suc x / 2) fuel extra (omega (arith, h.0), omega (arith, h.1)),
  )

  digits-suc :
      (x y : ℕ)
      → let half = suc x / 2 in
        digits rest op (suc x) (suc x) y
        ≡ op (suc x % 2) (y % 2) + 2 * digits rest op half half (y / 2)
  digits-suc x y =
      omega (arith, fuel_irrelevant (y / 2) (suc x / 2) (suc x / 2) x (omega arith, omega arith))

pub bit_and-step : (a b : ℕ) → bit_and a b ≡ bit_and (a / 2) (b / 2) * 2 + min (a % 2) (b % 2)
bit_and-step zero b = simp bit_and-bitwise (omega arith)
bit_and-step (suc a) b = simp bit_and-bitwise (omega (arith, digits-suc (λ y. 0) min a b))

pub bit_or-step : (a b : ℕ) → bit_or a b ≡ bit_or (a / 2) (b / 2) * 2 + max (a % 2) (b % 2)
bit_or-step zero b = simp bit_or-bitwise (omega arith)
bit_or-step (suc a) b = simp bit_or-bitwise (omega (arith, digits-suc (λ y. y) max a b))

differ_digits : (x y : ℕ) → x < 2 → y < 2 → differ x y ≡ (x + y) % 2
differ_digits zero y p q = omega arith
differ_digits (suc zero) zero p q = omega arith
differ_digits (suc zero) (suc zero) p q = refl
differ_digits (suc zero) (suc (suc y)) p q = absurd (omega arith)
differ_digits (suc (suc x)) y p q = absurd (omega arith)

pub bit_xor-step : (a b : ℕ) → bit_xor a b ≡ bit_xor (a / 2) (b / 2) * 2 + (a + b) % 2
bit_xor-step zero b = simp bit_xor-bitwise (omega arith)
bit_xor-step (suc a) b = simp bit_xor-bitwise (
    omega (
      arith,
      digits-suc (λ y. y) differ a b,
      differ_digits (suc a % 2) (b % 2) (omega arith) (omega arith),
    ))

pub two-pow-suc : (k : ℕ) → 2 ^ suc k ≡ 2 * 2 ^ k
two-pow-suc k = omega (arith, pow-suc 2 k)

mul-two-pow-suc : (a k : ℕ) → a * 2 ^ suc k ≡ a * 2 ^ k + a * 2 ^ k
mul-two-pow-suc a k = rw (pow-suc 2 k) (omega arith)

-- What an operation on binary digits is: zero on zeros, and one digit apart from the rest.
pub record IsDigitwise (op digit : ℕ → ℕ → ℕ) : Type 0 where
  pub at_zero : op 0 0 ≡ 0
  pub step : (a b : ℕ) → op a b ≡ op (a / 2) (b / 2) * 2 + digit (a % 2) (b % 2)
  pub one_digit : (x y : ℕ) → x < 2 → y < 2 → digit x y < 2

pub bit_and-IsDigitwise : IsDigitwise bit_and min
bit_and-IsDigitwise = record {
  at_zero = refl;
  step = bit_and-step;
  one_digit = λ x y p q. omega arith;
}

pub bit_or-IsDigitwise : IsDigitwise bit_or max
bit_or-IsDigitwise = record {
  at_zero = refl;
  step = bit_or-step;
  one_digit = λ x y p q. omega arith;
}

pub bit_xor-IsDigitwise : IsDigitwise bit_xor (λ x y. (x + y) % 2)
bit_xor-IsDigitwise = record {
  at_zero = refl;
  step = λ a b. omega (arith, bit_xor-step a b);
  one_digit = λ x y p q. omega arith;
}

module _ {op digit : ℕ → ℕ → ℕ} (d : IsDigitwise op digit) where
  pub digitwise-lt : (k a b : ℕ) → a < 2 ^ k → b < 2 ^ k → op a b < 2 ^ k
  digitwise-lt zero zero zero p q = omega (arith, d.at_zero)
  digitwise-lt zero zero (suc b) p q = absurd (omega arith)
  digitwise-lt zero (suc a) b p q = absurd (omega arith)
  digitwise-lt (suc k) a b p q = omega (
    arith,
    two-pow-suc k,
    d.step a b,
    d.one_digit (a % 2) (b % 2) (omega arith) (omega arith),
    digitwise-lt k (a / 2) (b / 2) (omega (arith, two-pow-suc k)) (omega (arith, two-pow-suc k)),
  )

  -- The two parts of a word at bit `k` do not mix.
  pub digitwise_split :
      (k ah al bh bl : ℕ)
      → al < 2 ^ k
      → bl < 2 ^ k
      → op (ah * 2 ^ k + al) (bh * 2 ^ k + bl) ≡ op ah bh * 2 ^ k + op al bl
  digitwise_split zero ah zero bh zero p q =
      let whole_a : ah * 2 ^ 0 + 0 ≡ ah = omega arith in
      let whole_b : bh * 2 ^ 0 + 0 ≡ bh = omega arith in
      rw (whole_a, whole_b) (omega (arith, d.at_zero))
  digitwise_split zero ah zero bh (suc bl) p q = absurd (omega arith)
  digitwise_split zero ah (suc al) bh bl p q = absurd (omega arith)
  digitwise_split (suc k) ah al bh bl p q = ground (
    arith,
    two-pow-suc k,
    mul-two-pow-suc ah k,
    mul-two-pow-suc bh k,
    mul-two-pow-suc (op ah bh) k,
    d.step (ah * 2 ^ suc k + al) (bh * 2 ^ suc k + bl),
    d.step al bl,
    digitwise_split k ah (al / 2) bh (bl / 2),
  )

pub zero-bit_and : (b : ℕ) → bit_and 0 b ≡ 0
zero-bit_and b = bit_and-bitwise 0 b

pub zero-bit_or : (b : ℕ) → bit_or 0 b ≡ b
zero-bit_or b = bit_or-bitwise 0 b

pub zero-bit_xor : (b : ℕ) → bit_xor 0 b ≡ b
zero-bit_xor b = bit_xor-bitwise 0 b

-- Below any bound, a recursion on the halves.
bit_and-zero_below : (n a : ℕ) → a ≤ n → bit_and a 0 ≡ 0
bit_and-zero_below n zero h = refl
bit_and-zero_below zero (suc a) h = absurd (omega arith)
bit_and-zero_below (suc n) (suc a) h =
    omega (arith, bit_and-step (suc a) 0, bit_and-zero_below n (suc a / 2) (omega arith))

pub bit_and-zero : (a : ℕ) → bit_and a 0 ≡ 0
bit_and-zero a = bit_and-zero_below a a (omega arith)

bit_or-zero_below : (n a : ℕ) → a ≤ n → bit_or a 0 ≡ a
bit_or-zero_below n zero h = refl
bit_or-zero_below zero (suc a) h = absurd (omega arith)
bit_or-zero_below (suc n) (suc a) h =
    omega (arith, bit_or-step (suc a) 0, bit_or-zero_below n (suc a / 2) (omega arith))

pub bit_or-zero : (a : ℕ) → bit_or a 0 ≡ a
bit_or-zero a = bit_or-zero_below a a (omega arith)

bit_xor-zero_below : (n a : ℕ) → a ≤ n → bit_xor a 0 ≡ a
bit_xor-zero_below n zero h = refl
bit_xor-zero_below zero (suc a) h = absurd (omega arith)
bit_xor-zero_below (suc n) (suc a) h =
    omega (arith, bit_xor-step (suc a) 0, bit_xor-zero_below n (suc a / 2) (omega arith))

pub bit_xor-zero : (a : ℕ) → bit_xor a 0 ≡ a
bit_xor-zero a = bit_xor-zero_below a a (omega arith)

pub two-pow-pos : (k : ℕ) → 0 < 2 ^ k
two-pow-pos zero = omega arith
two-pow-pos (suc k) = omega (arith, two-pow-suc k, two-pow-pos k)

pub bit_and-ones : (k a : ℕ) → a < 2 ^ k → bit_and a (2 ^ k - 1) ≡ a
bit_and-ones zero a h = ground (arith, bit_and-zero a)
bit_and-ones (suc k) a h =
    ground
      (arith, two-pow-suc k, two-pow-pos k, bit_and-step a (2 ^ suc k - 1), bit_and-ones k (a / 2))

-- `a & ((1 << k) - 1)` is a remainder.
pub bit_and_mask : (k a : ℕ) → bit_and a (2 ^ k - 1) ≡ a % 2 ^ k
bit_and_mask k a = ground (
  arith,
  two-pow-pos k,
  digitwise_split bit_and-IsDigitwise k (a / 2 ^ k) (a % 2 ^ k) 0 (2 ^ k - 1),
  bit_and-zero (a / 2 ^ k),
  bit_and-ones k (a % 2 ^ k),
)

-- `(q << k) | r` is a sum when `r` fits in `k` bits.
pub bit_or_fields : (k q r : ℕ) → r < 2 ^ k → bit_or (q * 2 ^ k) r ≡ q * 2 ^ k + r
bit_or_fields k q r h = ground (
  arith,
  two-pow-pos k,
  digitwise_split bit_or-IsDigitwise k q 0 0 r,
  bit_or-zero q,
  zero-bit_or r,
)

bit_and-swap_below : (n a b c : ℕ) → a ≤ n → bit_and (bit_and a b) c ≡ bit_and (bit_and a c) b
bit_and-swap_below n zero b c h = rw (zero-bit_and b, zero-bit_and c, zero-bit_and b) refl
bit_and-swap_below zero (suc a) b c h = absurd (omega arith)
bit_and-swap_below (suc n) (suc a) b c h = ground (
  arith,
  bit_and-step (suc a) b,
  bit_and-step (suc a) c,
  bit_and-step (bit_and (suc a) b) c,
  bit_and-step (bit_and (suc a) c) b,
  bit_and-swap_below n (suc a / 2) (b / 2) (c / 2) (omega arith),
)

pub bit_and-swap : (a b c : ℕ) → bit_and (bit_and a b) c ≡ bit_and (bit_and a c) b
bit_and-swap a b c = bit_and-swap_below a a b c (omega arith)
