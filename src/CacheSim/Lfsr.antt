-- ===== src/CacheSim/Lfsr.antt =====
-- The random numbers of the cache simulators: `lfsr_t` of riscv-isa-sim/riscv/cachesim.h.
use cmpe220fall.Base.{
  ℕ, zero, suc, ◌+◌, ◌*◌, ◌/◌, ◌%◌, ◌^◌, ◌<◌, ◌≤◌, ◌≡◌, refl, sym, ap, ◌∙◌, arith, bit_and, bit_xor,
  ◌⊎◌, inl, inr,
}
use cmpe220fall.Base.Bits.{
  bit_and_mask, digitwise-lt, digitwise_split, two-pow-suc, bit_xor-IsDigitwise, bit_xor-step,
  bit_xor-zero,
}
use cmpe220fall.CacheSim.Cache.{lfsr_next}

-- The words that the register can hold: 32 bits, not all of them zero.
abbrev pub IsRegister : ℕ → Type 0
IsRegister r = (0 < r) × (r < 2 ^ 32)

parity : (r : ℕ) → bit_and r 1 ≡ r % 2
parity r = bit_and_mask 1 r

bit_xor-cancel : (k a b : ℕ) → a < 2 ^ k → b < 2 ^ k → bit_xor (bit_xor a b) b ≡ a
bit_xor-cancel zero zero zero p q = refl
bit_xor-cancel zero zero (suc b) p q = absurd (omega arith)
bit_xor-cancel zero (suc a) b p q = absurd (omega arith)
bit_xor-cancel (suc k) a b p q =
    let pow = two-pow-suc k in
    let rest = bit_xor-cancel k (a / 2) (b / 2) (omega arith) (omega arith) in
    let first = bit_xor-step a b in
    let half : bit_xor a b / 2 ≡ bit_xor (a / 2) (b / 2) = omega arith in
    let second = rw half at (bit_xor-step (bit_xor a b) b) in omega arith

-- The constant of `next`.
abbrev feedback : ℕ
feedback = 0xD0000001

next-even : (r : ℕ) → r % 2 ≡ 0 → lfsr_next r ≡ r / 2
unfolding lfsr_next
next-even r e = rw (parity r, e) (bit_xor-zero (r / 2))

next-odd : (r : ℕ) → r % 2 ≡ 1 → lfsr_next r ≡ bit_xor (r / 2) feedback
unfolding lfsr_next
next-odd r e = rw (parity r, e) refl

-- The highest bit of the feedback shows in the result.
next-odd-high : (r : ℕ) → r < 2 ^ 32 → r % 2 ≡ 1 → (2 ^ 31 ≤ lfsr_next r) × (lfsr_next r < 2 ^ 32)
next-odd-high r p e =
    let whole : 0 * 2 ^ 31 + r / 2 ≡ r / 2 = omega arith in
    let split =
      rw whole at (
        digitwise_split bit_xor-IsDigitwise 31 0 (r / 2) 1 0x50000001 (omega arith)
          (omega arith)) in
    let low = digitwise-lt bit_xor-IsDigitwise 31 (r / 2) 0x50000001 (omega arith) (omega arith) in
    let value : lfsr_next r ≡ 1 * 2 ^ 31 + bit_xor (r / 2) 0x50000001 = next-odd r e ∙ split in
    rw value (omega (arith, low), omega (arith, low))

even_or_odd : (r : ℕ) → (r % 2 ≡ 0) ⊎ (r % 2 ≡ 1)
even_or_odd r = ground arith

lfsr_next-IsRegister : (r : ℕ) → IsRegister r → IsRegister (lfsr_next r)
lfsr_next-IsRegister r p = elim (even_or_odd r) [
  | inl e ↦ rw (next-even r e) (omega arith, omega arith)
  | inr e ↦ let (high, low) = next-odd-high r p.1 e in (omega arith, low)
]

-- Different words lead to different words.
lfsr_next-injective : (r s : ℕ) → IsRegister r → IsRegister s → lfsr_next r ≡ lfsr_next s → r ≡ s
lfsr_next-injective r s p q e = elim (even_or_odd r) [
  | inl er ↦ elim (even_or_odd s) [
    | inl es ↦ let a = next-even r er in let b = next-even s es in omega arith
    | inr es ↦ let a = next-even r er in let b = (next-odd-high s q.1 es).0 in absurd (omega arith)
  ]
  | inr er ↦ elim (even_or_odd s) [
    | inl es ↦ let a = next-even s es in let b = (next-odd-high r p.1 er).0 in absurd (omega arith)
    | inr es ↦
        let same : bit_xor (r / 2) feedback ≡ bit_xor (s / 2) feedback =
          sym (next-odd r er) ∙ e ∙ next-odd s es in
        let halves : r / 2 ≡ s / 2 =
          sym (bit_xor-cancel 32 (r / 2) feedback (omega arith) (omega arith))
          ∙ ap (λ x. bit_xor x feedback) same
          ∙ bit_xor-cancel 32 (s / 2) feedback (omega arith) (omega arith) in
        omega arith
  ]
]

-- The register never becomes zero and keeps to 32 bits, and no two words have the same successor:
-- `next` permutes the words other than zero.
pub lfsr_next_lem :
    (r s : ℕ)
    → IsRegister r
    → IsRegister s
    → IsRegister (lfsr_next r) × (lfsr_next r ≡ lfsr_next s → r ≡ s)
lfsr_next_lem r s p q = (lfsr_next-IsRegister r p, lfsr_next-injective r s p q)
