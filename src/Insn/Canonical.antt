-- ===== src/Insn/Canonical.antt =====
-- A register of a 32-bit hart holds a sign-extended 32-bit number in its 64 bits, one of a 64-bit
-- hart any 64-bit number: `sext_xlen` leaves both as they are. Which operations give such values.
use cmpe220fall.Base.{
  ℕ, ◌+◌, ◌-◌, ◌*◌, ◌/◌, ◌%◌, ◌^◌, ◌≤◌, ◌<◌, ◌≡◌, refl, ◌⊎◌, inl, inr, ◌∙◌, arith, bit_and, bit_or,
  bit_xor, if◌then◌else◌, Bool, true, false,
}
use mathlib.Core.Path.{ap₂}
use cmpe220fall.Decode
use cmpe220fall.Base.Bits.{
  IsDigitwise, digitwise_split, digitwise-lt, bit_and-IsDigitwise, bit_or-IsDigitwise,
  bit_xor-IsDigitwise,
}
use cmpe220fall.Insn.Context.{sext_xlen, sext32}

abbrev pub IsWidth : ℕ → Type 0
IsWidth xlen = (xlen ≡ 32) ⊎ (xlen ≡ 64)

abbrev pub IsCanonical : ℕ → ℕ → Type 0
IsCanonical xlen x = sext_xlen xlen x ≡ x

-- In numbers: the low and the high end of the 64-bit range.
abbrev pub InRange : ℕ → ℕ → Type 0
InRange xlen x = (x < 2 ^ 64) × (xlen ≡ 32 → (x < 2 ^ 31) ⊎ (2 ^ 64 - 2 ^ 31 ≤ x))

sext_xlen-InRange : (xlen x : ℕ) → IsWidth xlen → InRange xlen (sext_xlen xlen x)
unfolding sext_xlen
sext_xlen-InRange xlen x (inl e) = rw e (ground arith, λ _. ground arith)
sext_xlen-InRange xlen x (inr e) = rw e (ground arith, λ f. absurd (omega arith))

pub InRange-IsCanonical : (xlen x : ℕ) → IsWidth xlen → InRange xlen x → IsCanonical xlen x
unfolding sext_xlen
InRange-IsCanonical xlen x (inl e) r = let s = r.1 e in rw e (ground arith)
InRange-IsCanonical xlen x (inr e) r = rw e (ground arith)

pub IsCanonical-InRange : (xlen x : ℕ) → IsWidth xlen → IsCanonical xlen x → InRange xlen x
IsCanonical-InRange xlen x w e = rw e at (sext_xlen-InRange xlen x w)

pub sext_xlen-IsCanonical : (xlen x : ℕ) → IsWidth xlen → IsCanonical xlen (sext_xlen xlen x)
sext_xlen-IsCanonical xlen x w =
    InRange-IsCanonical xlen (sext_xlen xlen x) w (sext_xlen-InRange xlen x w)

pub sext32-IsCanonical : (xlen x : ℕ) → IsWidth xlen → IsCanonical xlen (sext32 x)
unfolding sext32
sext32-IsCanonical xlen x w =
    InRange-IsCanonical xlen (sext32 x) w (ground arith, λ _. ground arith)

pub small-IsCanonical : (xlen x : ℕ) → IsWidth xlen → x < 2 ^ 31 → IsCanonical xlen x
small-IsCanonical xlen x w h = InRange-IsCanonical xlen x w (omega arith, λ _. inl h)

pub ones-IsCanonical : (xlen : ℕ) → IsWidth xlen → IsCanonical xlen (2 ^ 64 - 1)
ones-IsCanonical xlen w =
    InRange-IsCanonical xlen (2 ^ 64 - 1) w (omega arith, λ _. inr (omega arith))

pub test-IsCanonical : (xlen : ℕ) (b : Bool) → IsWidth xlen → IsCanonical xlen (if b then 1 else 0)
test-IsCanonical xlen true w = small-IsCanonical xlen 1 w (omega arith)
test-IsCanonical xlen false w = small-IsCanonical xlen 0 w (omega arith)

-- The upper 33 bits of a sign-extended number are all zero or all one.
abbrev IsFill : ℕ → Type 0
IsFill h = (h ≡ 0) ⊎ (h ≡ 2 ^ 33 - 1)

InRange-IsFill : (x : ℕ) → InRange 32 x → IsFill (x / 2 ^ 31)
InRange-IsFill x r = let s = r.1 refl in omega arith

module _ {op digit : ℕ → ℕ → ℕ} (d : IsDigitwise op digit)
    (fills : (a b : ℕ) → IsFill a → IsFill b → IsFill (op a b)) where
  op-split :
      (x y : ℕ) → op x y ≡ op (x / 2 ^ 31) (y / 2 ^ 31) * 2 ^ 31 + op (x % 2 ^ 31) (y % 2 ^ 31)
  op-split x y =
      let ex : x ≡ x / 2 ^ 31 * 2 ^ 31 + x % 2 ^ 31 = omega arith in
      let ey : y ≡ y / 2 ^ 31 * 2 ^ 31 + y % 2 ^ 31 = omega arith in
      ap₂ op ex ey
      ∙ digitwise_split d 31 (x / 2 ^ 31) (x % 2 ^ 31) (y / 2 ^ 31) (y % 2 ^ 31) (omega arith)
          (omega arith)

  op-InRange : (xlen x y : ℕ) → InRange xlen x → InRange xlen y → InRange xlen (op x y)
  op-InRange xlen x y rx ry = (
    digitwise-lt d 64 x y rx.0 ry.0,
    λ e. omega (
      arith,
      op-split x y,
      fills (x / 2 ^ 31) (y / 2 ^ 31) (InRange-IsFill x (rw e at rx))
          (InRange-IsFill y (rw e at ry)),
      digitwise-lt d 31 (x % 2 ^ 31) (y % 2 ^ 31) (omega arith) (omega arith),
    ),
  )

  op-IsCanonical :
      (xlen x y : ℕ)
      → IsWidth xlen
      → IsCanonical xlen x
      → IsCanonical xlen y
      → IsCanonical xlen (op x y)
  op-IsCanonical xlen x y w cx cy =
      InRange-IsCanonical xlen (op x y) w
        (op-InRange xlen x y (IsCanonical-InRange xlen x w cx) (IsCanonical-InRange xlen y w cy))

bit_and-IsFill : (a b : ℕ) → IsFill a → IsFill b → IsFill (bit_and a b)
bit_and-IsFill a b (inl p) (inl q) = rw (p, q) (inl refl)
bit_and-IsFill a b (inl p) (inr q) = rw (p, q) (inl refl)
bit_and-IsFill a b (inr p) (inl q) = rw (p, q) (inl refl)
bit_and-IsFill a b (inr p) (inr q) = rw (p, q) (inr refl)

bit_or-IsFill : (a b : ℕ) → IsFill a → IsFill b → IsFill (bit_or a b)
bit_or-IsFill a b (inl p) (inl q) = rw (p, q) (inl refl)
bit_or-IsFill a b (inl p) (inr q) = rw (p, q) (inr refl)
bit_or-IsFill a b (inr p) (inl q) = rw (p, q) (inr refl)
bit_or-IsFill a b (inr p) (inr q) = rw (p, q) (inr refl)

bit_xor-IsFill : (a b : ℕ) → IsFill a → IsFill b → IsFill (bit_xor a b)
bit_xor-IsFill a b (inl p) (inl q) = rw (p, q) (inl refl)
bit_xor-IsFill a b (inl p) (inr q) = rw (p, q) (inr refl)
bit_xor-IsFill a b (inr p) (inl q) = rw (p, q) (inr refl)
bit_xor-IsFill a b (inr p) (inr q) = rw (p, q) (inl refl)

module _ (xlen x y : ℕ) (w : IsWidth xlen) (cx : IsCanonical xlen x) (cy : IsCanonical xlen y) where
  pub bit_and-IsCanonical : IsCanonical xlen (bit_and x y)
  bit_and-IsCanonical = op-IsCanonical bit_and-IsDigitwise bit_and-IsFill xlen x y w cx cy

  pub bit_or-IsCanonical : IsCanonical xlen (bit_or x y)
  bit_or-IsCanonical = op-IsCanonical bit_or-IsDigitwise bit_or-IsFill xlen x y w cx cy

  pub bit_xor-IsCanonical : IsCanonical xlen (bit_xor x y)
  bit_xor-IsCanonical = op-IsCanonical bit_xor-IsDigitwise bit_xor-IsFill xlen x y w cx cy

-- The immediates of a sign-extended 32-bit instruction word.
pub i_imm-IsCanonical :
    (xlen b : ℕ) → IsWidth xlen → IsCanonical 32 b → IsCanonical xlen (Decode.i_imm b)
unfolding Decode.i_imm
i_imm-IsCanonical xlen b w word =
    let r = IsCanonical-InRange 32 b (inl refl) word in
    let s = r.1 refl in
    InRange-IsCanonical xlen (Decode.i_imm b) w (ground arith, λ _. ground arith)

pub u_imm-IsCanonical :
    (xlen b : ℕ) → IsWidth xlen → IsCanonical 32 b → IsCanonical xlen (Decode.u_imm b)
unfolding Decode.u_imm
u_imm-IsCanonical xlen b w word =
    let r = IsCanonical-InRange 32 b (inl refl) word in
    let s = r.1 refl in
    InRange-IsCanonical xlen (Decode.u_imm b) w (ground arith, λ _. ground arith)
