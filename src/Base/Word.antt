-- ===== src/Base/Word.antt =====
-- 64-bit registers as numbers below 2 ^ 64: the operators of C on `reg_t` and `sreg_t`, with the
-- wrap-around written out. A signed value is its two's complement bit pattern.
use cmpe220fall.Base.Tests.{ltb, leb, if◌then◌else◌}
use Prim.Native.Nat.{ℕ, ◌+◌, ◌-◌, ◌*◌, ◌/◌, ◌%◌, ◌^◌}
use mathlib.Core.Bool.{Bool}

abbrev pub u64_mod : ℕ
u64_mod = 2 ^ 64

abbrev pub u32_mod : ℕ
u32_mod = 2 ^ 32

abbrev pub uint64_max : ℕ
uint64_max = 2 ^ 64 - 1

-- INT64_MIN and INT32_MIN as bit patterns.
abbrev pub int64_min : ℕ
int64_min = 2 ^ 63

abbrev pub int32_min : ℕ
int32_min = 2 ^ 31

abbrev pub add64 : ℕ → ℕ → ℕ
add64 a b = (a + b) % u64_mod

abbrev pub sub64 : ℕ → ℕ → ℕ
sub64 a b = (a + u64_mod - b) % u64_mod

abbrev pub mul64 : ℕ → ℕ → ℕ
mul64 a b = a * b % u64_mod

-- `-a` and `~a`.
abbrev pub neg64 : ℕ → ℕ
neg64 a = (u64_mod - a) % u64_mod

abbrev pub not64 : ℕ → ℕ
not64 a = uint64_max - a

-- `a << k`, `a >> k` on `reg_t`, and `a >> k` on `sreg_t`.
abbrev pub shl64 : ℕ → ℕ → ℕ
shl64 a k = a * 2 ^ k % u64_mod

abbrev pub shr64 : ℕ → ℕ → ℕ
shr64 a k = a / 2 ^ k

abbrev pub is_neg : ℕ → Bool
is_neg a = leb int64_min a

abbrev pub sra64 : ℕ → ℕ → ℕ
sra64 a k = if is_neg a then not64 (not64 a / 2 ^ k) else a / 2 ^ k

-- The casts `(uint32_t)x`, and `(sreg_t)(intN_t)x` for an N-bit type.
abbrev pub u32 : ℕ → ℕ
u32 x = x % u32_mod

abbrev pub sext : ℕ → ℕ → ℕ
sext n x = let low = x % 2 ^ n in if ltb low (2 ^ (n - 1)) then low else low + (u64_mod - 2 ^ n)

-- `sreg_t(a) < sreg_t(b)`: the sign bit is flipped, and the patterns compared.
abbrev pub flip_sign : ℕ → ℕ
flip_sign a = add64 a int64_min

abbrev pub slt64 : ℕ → ℕ → Bool
slt64 a b = ltb (flip_sign a) (flip_sign b)
