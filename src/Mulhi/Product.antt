-- ===== src/Mulhi/Product.antt =====
-- The routines of mulhi.h give the upper half of the exact 128-bit product.
use mathlib.Core.Path.{ap₂}
use native.Mathlib.Nat.{mod-eq_of_lt, mul_comm}
use cmpe220fall.Base.{
  ℕ, ◌+◌, ◌-◌, ◌*◌, ◌/◌, ◌%◌, ◌^◌, ◌≤◌, ◌<◌, ◌≡◌, refl, sym, ap, ◌∙◌, arith, bit_or, if◌then◌else◌,
  Bool-cases, inl, inr, true, false,
}
use cmpe220fall.Base.Word.{add64, mul64, shl64, shr64, u32, is_neg}
use cmpe220fall.Base.Bits.{bit_or_fields}
use cmpe220fall.Mulhi.{mulhu, mulh, mulhsu, magnitude, negate_high}

-- The product of two 64-bit numbers from the four products of their halves.
halves_product :
    (a0 a1 b0 b1 : ℕ)
    → (a1 * 2 ^ 32 + a0) * (b1 * 2 ^ 32 + b0)
      ≡ a1 * b1 * 2 ^ 64 + (a1 * b0 + a0 * b1) * 2 ^ 32 + a0 * b0
halves_product a0 a1 b0 b1 = omega arith

half_product_le : (x y : ℕ) → x < 2 ^ 32 → y < 2 ^ 32 → x * y ≤ (2 ^ 32 - 1) * (2 ^ 32 - 1)
half_product_le x y p q = grind arith

-- The routine on four given products.
columns :
    (p00 p01 p10 p11 : ℕ)
    → p00 ≤ (2 ^ 32 - 1) * (2 ^ 32 - 1)
    → p01 ≤ (2 ^ 32 - 1) * (2 ^ 32 - 1)
    → p10 ≤ (2 ^ 32 - 1) * (2 ^ 32 - 1)
    → p11 ≤ (2 ^ 32 - 1) * (2 ^ 32 - 1)
    → let t = p10 + p00 / 2 ^ 32 in
      let t' = p01 + t % 2 ^ 32 in
      p11 + t / 2 ^ 32 + t' / 2 ^ 32 ≡ (p11 * 2 ^ 64 + (p10 + p01) * 2 ^ 32 + p00) / 2 ^ 64
columns p00 p01 p10 p11 h00 h01 h10 h11 = omega arith

-- A word is put together from its two halves.
two_halves : (t : ℕ) → t < 2 ^ 64 → bit_or (shl64 (u32 (shr64 t 32)) 32) (u32 t) ≡ t
two_halves t h =
    let upper : shl64 (u32 (shr64 t 32)) 32 ≡ t / 2 ^ 32 * 2 ^ 32 = omega arith in
    rw upper (omega (arith, bit_or_fields 32 (t / 2 ^ 32) (t % 2 ^ 32) (omega arith)))

-- With no carry lost, `mulhu` computes `columns`.
mulhu-columns :
    (a b : ℕ)
    → a < 2 ^ 64
    → b < 2 ^ 64
    → mulhu a b ≡ (
        let a0 = a % 2 ^ 32 in
        let a1 = a / 2 ^ 32 in
        let b0 = b % 2 ^ 32 in
        let b1 = b / 2 ^ 32 in
        let t = a1 * b0 + a0 * b0 / 2 ^ 32 in
        let t' = a0 * b1 + t % 2 ^ 32 in a1 * b1 + t / 2 ^ 32 + t' / 2 ^ 32)
unfolding mulhu
mulhu-columns a b ha hb =
    let a0 = a % 2 ^ 32 in
    let a1 = a / 2 ^ 32 in
    let b0 = b % 2 ^ 32 in
    let b1 = b / 2 ^ 32 in
    let t = a1 * b0 + a0 * b0 / 2 ^ 32 in
    let t' = a0 * b1 + t % 2 ^ 32 in
    let t'' = a1 * b1 + t / 2 ^ 32 + t' / 2 ^ 32 in
    let h00 = half_product_le a0 b0 (omega arith) (omega arith) in
    let h01 = half_product_le a0 b1 (omega arith) (omega arith) in
    let h10 = half_product_le a1 b0 (omega arith) (omega arith) in
    let h11 = half_product_le a1 b1 (omega arith) (omega arith) in
    let wrapped_t = add64 (mul64 a1 b0) (shr64 (mul64 a0 b0) 32) in
    let wrapped_t' = add64 (mul64 a0 b1) (u32 wrapped_t) in
    let wrapped_t'' =
      add64 (add64 (mul64 a1 b1) (u32 (shr64 wrapped_t 32))) (shr64 wrapped_t' 32) in
    let same_t : wrapped_t ≡ t = omega arith in
    let same_t' : wrapped_t' ≡ t' = omega arith in
    let same_t'' : wrapped_t'' ≡ t'' = omega arith in
    two_halves wrapped_t'' (omega arith) ∙ same_t''

-- `mulhu` is the upper half of the product of two unsigned 64-bit numbers.
pub mulhu_lem : (a b : ℕ) → a < 2 ^ 64 → b < 2 ^ 64 → mulhu a b ≡ a * b / 2 ^ 64
mulhu_lem a b ha hb =
    let a0 = a % 2 ^ 32 in
    let a1 = a / 2 ^ 32 in
    let b0 = b % 2 ^ 32 in
    let b1 = b / 2 ^ 32 in
    let h00 = half_product_le a0 b0 (omega arith) (omega arith) in
    let h01 = half_product_le a0 b1 (omega arith) (omega arith) in
    let h10 = half_product_le a1 b0 (omega arith) (omega arith) in
    let h11 = half_product_le a1 b1 (omega arith) (omega arith) in
    let ea : a1 * 2 ^ 32 + a0 ≡ a = omega arith in
    let eb : b1 * 2 ^ 32 + b0 ≡ b = omega arith in
    let product : a * b ≡ a1 * b1 * 2 ^ 64 + (a1 * b0 + a0 * b1) * 2 ^ 32 + a0 * b0 =
      ap₂ ◌*◌ (sym ea) (sym eb) ∙ halves_product a0 a1 b0 b1 in
    mulhu-columns a b ha hb
    ∙ columns (a0 * b0) (a0 * b1) (a1 * b0) (a1 * b1) h00 h01 h10 h11
    ∙ ap (λ (x : ℕ). x / 2 ^ 64) (sym product)

-- A pattern of 64 bits, sign-extended to 128.
abbrev pub sext128 : ℕ → ℕ
sext128 a = if is_neg a then a + (2 ^ 128 - 2 ^ 64) else a

-- `negate_high` on the upper half of `p` gives that of `-p`, where `a * b` has the low half of `-p`.
negate_high_lem :
    (p a b : ℕ)
    → p < 2 ^ 128
    → mul64 a b ≡ (2 ^ 128 - p) % 2 ^ 64
    → negate_high true (p / 2 ^ 64) a b * 2 ^ 64 + mul64 a b ≡ (2 ^ 128 - p) % 2 ^ 128
unfolding negate_high
negate_high_lem p a b hp low = ground arith

keep_high_lem :
    (p a b : ℕ)
    → p < 2 ^ 128
    → mul64 a b ≡ p % 2 ^ 64
    → negate_high false (p / 2 ^ 64) a b * 2 ^ 64 + mul64 a b ≡ p
unfolding negate_high
keep_high_lem p a b hp low = ground arith

magnitude_neg :
    (a : ℕ) → is_neg a ≡ true → a < 2 ^ 64 → (magnitude a ≤ 2 ^ 63) × (a + magnitude a ≡ 2 ^ 64)
unfolding magnitude
magnitude_neg a e h = ground arith

magnitude_nonneg : (a : ℕ) → is_neg a ≡ false → magnitude a ≡ a
unfolding magnitude
magnitude_nonneg a e = ground arith

product-lt : (x y : ℕ) → x < 2 ^ 64 → y < 2 ^ 64 → x * y < 2 ^ 128
product-lt x y p q = grind (arith, word_product_le)
  where
    word_product_le : x * y ≤ (2 ^ 64 - 1) * (2 ^ 64 - 1)
    word_product_le = grind arith

-- Products of patterns whose magnitudes are `x` and `y`.
one_negative :
    (a b x : ℕ)
    → a + x ≡ 2 ^ 64
    → x * b < 2 ^ 128
    → ((a + (2 ^ 128 - 2 ^ 64)) * b % 2 ^ 128 ≡ (2 ^ 128 - x * b) % 2 ^ 128)
      × (mul64 a b ≡ (2 ^ 128 - x * b) % 2 ^ 64)
one_negative a b x e h = omega (arith, ap (λ (t : ℕ). t * b) e)

both_negative :
    (a b x y : ℕ)
    → a + x ≡ 2 ^ 64
    → b + y ≡ 2 ^ 64
    → x * y < 2 ^ 128
    → ((a + (2 ^ 128 - 2 ^ 64)) * (b + (2 ^ 128 - 2 ^ 64)) % 2 ^ 128 ≡ x * y)
      × (mul64 a b ≡ x * y % 2 ^ 64)
both_negative a b x y ea eb h =
    let ab = ap (λ (t : ℕ). t * b) ea in let xy = ap (λ (t : ℕ). x * t) eb in omega (arith, ab, xy)

-- For any two 64-bit patterns, `mulh` with the low half that `mul` gives is the 128-bit product of
-- the two sign-extended operands.
pub mulh_lem :
    (a b : ℕ)
    → a < 2 ^ 64
    → b < 2 ^ 64
    → mulh a b * 2 ^ 64 + mul64 a b ≡ sext128 a * sext128 b % 2 ^ 128
unfolding mulh
mulh_lem a b ha hb = elim (Bool-cases (is_neg a)) [
  | inl na ↦ elim (Bool-cases (is_neg b)) [
    | inl nb ↦
        let ma = magnitude_neg a na ha in
        let mb = magnitude_neg b nb hb in
        let small = product-lt (magnitude a) (magnitude b) (omega arith) (omega arith) in
        let signed = both_negative a b (magnitude a) (magnitude b) ma.1 mb.1 small in
        rw (na, nb, mulhu_lem (magnitude a) (magnitude b) (omega arith) (omega arith))
          (keep_high_lem (magnitude a * magnitude b) a b small signed.1 ∙ sym signed.0)
    | inr pb ↦
        let ma = magnitude_neg a na ha in
        let small = product-lt (magnitude a) b (omega arith) hb in
        let signed = one_negative a b (magnitude a) ma.1 small in
        rw (na, pb, magnitude_nonneg b pb, mulhu_lem (magnitude a) b (omega arith) hb)
          (negate_high_lem (magnitude a * b) a b small signed.1 ∙ sym signed.0)
  ]
  | inr pa ↦ elim (Bool-cases (is_neg b)) [
    | inl nb ↦
        let mb = magnitude_neg b nb hb in
        let small = product-lt (magnitude b) a (omega arith) ha in
        let signed = one_negative b a (magnitude b) mb.1 small in
        let low : mul64 a b ≡ (2 ^ 128 - magnitude b * a) % 2 ^ 64 = omega arith in
        let wide : a * (b + (2 ^ 128 - 2 ^ 64)) % 2 ^ 128 ≡ (2 ^ 128 - magnitude b * a) % 2 ^ 128 =
          omega arith in
        rw
          (
            pa,
            nb,
            magnitude_nonneg a pa,
            mulhu_lem a (magnitude b) ha (omega arith),
            mul_comm a (magnitude b),
          )
          (negate_high_lem (magnitude b * a) a b small low ∙ sym wide)
    | inr pb ↦
        let small = product-lt a b ha hb in
        rw (pa, pb, magnitude_nonneg a pa, magnitude_nonneg b pb, mulhu_lem a b ha hb)
          (keep_high_lem (a * b) a b small refl ∙ sym (mod-eq_of_lt small))
  ]
]

-- For any two 64-bit patterns, `mulhsu` with the low half that `mul` gives is the 128-bit product of
-- the sign-extended first operand and the zero-extended second.
pub mulhsu_lem :
    (a b : ℕ) → a < 2 ^ 64 → b < 2 ^ 64 → mulhsu a b * 2 ^ 64 + mul64 a b ≡ sext128 a * b % 2 ^ 128
unfolding mulhsu
mulhsu_lem a b ha hb = elim (Bool-cases (is_neg a)) [
  | inl na ↦
      let m = magnitude_neg a na ha in
      let small = product-lt (magnitude a) b (omega arith) hb in
      let signed = one_negative a b (magnitude a) m.1 small in
      rw (na, mulhu_lem (magnitude a) b (omega arith) hb)
        (negate_high_lem (magnitude a * b) a b small signed.1 ∙ sym signed.0)
  | inr pa ↦
      let small = product-lt a b ha hb in
      rw (pa, magnitude_nonneg a pa, mulhu_lem a b ha hb)
        (keep_high_lem (a * b) a b small refl ∙ sym (mod-eq_of_lt small))
]
