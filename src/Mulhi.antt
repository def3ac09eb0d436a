-- ===== src/Mulhi.antt =====
-- riscv-isa-sim/riscv/mulhi.h: the upper halves of 64-bit products, by 32-bit partial products.
pub mod Product
use cmpe220fall.Base.{ℕ, ◌+◌, ◌*◌, ◌/◌, ◌^◌, bit_or, ◌==◌, if◌then◌else◌, Bool, xor}
use cmpe220fall.Base.Word.{add64, mul64, neg64, not64, shl64, shr64, u32, is_neg}

unfoldable pub mulhu : ℕ → ℕ → ℕ
mulhu a b =
    let a0 = u32 a in
    let a1 = shr64 a 32 in
    let b0 = u32 b in
    let b1 = shr64 b 32 in
    let t = add64 (mul64 a1 b0) (shr64 (mul64 a0 b0) 32) in
    let y1 = u32 t in
    let y2 = u32 (shr64 t 32) in
    let t' = add64 (mul64 a0 b1) y1 in
    let t'' = add64 (add64 (mul64 a1 b1) y2) (shr64 t' 32) in
    let y2' = u32 t'' in let y3 = u32 (shr64 t'' 32) in bit_or (shl64 y3 32) y2'

-- `a < 0 ? -a : a`.
unfoldable pub magnitude : ℕ → ℕ
magnitude a = if is_neg a then neg64 a else a

-- `negate ? ~res + (a * b == 0) : res`.
unfoldable pub negate_high : Bool → ℕ → ℕ → ℕ → ℕ
negate_high negate res a b =
    if negate then add64 (not64 res) (if mul64 a b == 0 then 1 else 0) else res

unfoldable pub mulh : ℕ → ℕ → ℕ
unfolding xor
mulh a b =
    let res = mulhu (magnitude a) (magnitude b) in negate_high (xor (is_neg a) (is_neg b)) res a b

unfoldable pub mulhsu : ℕ → ℕ → ℕ
mulhsu a b = let res = mulhu (magnitude a) b in negate_high (is_neg a) res a b
