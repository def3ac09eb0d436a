-- ===== src/Privileged/StackMoves.antt =====
-- The moves of the privilege stack by their digits: push_privilege_stack and pop_privilege_stack of
-- riscv-isa-sim/riscv/processor.cc.
use cmpe220fall.Base.{ℕ, ◌+◌, ◌*◌, ◌/◌, ◌≡◌, refl, ◌∙◌, sym, arith}
use cmpe220fall.Base.Word.{not64}
use cmpe220fall.Base.Bits.{bit_and-step, bit_and-zero}
use cmpe220fall.Base.Digits.{digit}
use cmpe220fall.Encoding
use cmpe220fall.Encoding.{get_field, set_field, mask_lsb}
use cmpe220fall.Privileged.Traps.{pushed, popped}
use cmpe220fall.Privileged.Pushed.{outside, within}

-- The fields of the two upper levels of the stack, by their digits.
pub prv-digits : (m : ℕ) → get_field m Encoding.mstatus_prv ≡ digit 1 m + 2 * digit 2 m
unfolding get_field mask_lsb
prv-digits m = omega (
  arith,
  bit_and-step m 6,
  bit_and-step (m / 2) 3,
  bit_and-step (m / 2 / 2) 1,
  bit_and-zero (m / 2 / 2 / 2),
)

pub ie-digit : (m : ℕ) → get_field m Encoding.mstatus_ie ≡ digit 0 m
unfolding get_field mask_lsb
ie-digit m = omega (arith, bit_and-step m 1, bit_and-zero (m / 2))

pub prv1-digits : (m : ℕ) → get_field m Encoding.mstatus_prv1 ≡ digit 4 m + 2 * digit 5 m
unfolding get_field mask_lsb
prv1-digits m = omega (
  arith,
  bit_and-step m 48,
  bit_and-step (m / 2) 24,
  bit_and-step (m / 2 / 2) 12,
  bit_and-step (m / 2 / 2 / 2) 6,
  bit_and-step (m / 2 / 2 / 2 / 2) 3,
  bit_and-step (m / 2 / 2 / 2 / 2 / 2) 1,
  bit_and-zero (m / 2 / 2 / 2 / 2 / 2 / 2),
)

ie1-digit : (m : ℕ) → get_field m Encoding.mstatus_ie1 ≡ digit 3 m
unfolding get_field mask_lsb
ie1-digit m = omega (
  arith,
  bit_and-step m 8,
  bit_and-step (m / 2) 4,
  bit_and-step (m / 2 / 2) 2,
  bit_and-step (m / 2 / 2 / 2) 1,
  bit_and-zero (m / 2 / 2 / 2 / 2),
)

-- The level in use goes up by a push, and comes down by a pop.
pub record Pushes (m n : ℕ) : Type 0 where
  pub prv_low : digit 4 n ≡ digit 1 m
  pub prv_high : digit 5 n ≡ digit 2 m
  pub ie : digit 3 n ≡ digit 0 m

-- The digits above those of the lower level are set last by the moves to PRV1 and IE1.
after_ie1 :
    (k x v : ℕ)
    → (digit k Encoding.mstatus_ie ≡ 0) × (digit k (not64 Encoding.mstatus_ie) ≡ 1)
    → (digit k Encoding.mstatus_mprv ≡ 0) × (digit k (not64 Encoding.mstatus_mprv) ≡ 1)
    → (digit k Encoding.mstatus_prv ≡ 0) × (digit k (not64 Encoding.mstatus_prv) ≡ 1)
    → digit k (
        set_field
          (set_field (set_field x Encoding.mstatus_prv v) Encoding.mstatus_mprv 0)
          Encoding.mstatus_ie
          0)
      ≡ digit k x
after_ie1 k x v (a, a') (b, b') (c, c') =
    outside k _ Encoding.mstatus_ie 0 a a'
    ∙ outside k _ Encoding.mstatus_mprv 0 b b'
    ∙ outside k x Encoding.mstatus_prv v c c'

pub pushed-Pushes : (m : ℕ) → Pushes m (pushed m)
unfolding pushed mask_lsb
pushed-Pushes m = record {
  prv_low =
      after_ie1 4 _ Encoding.prv_m (refl, refl) (refl, refl) (refl, refl)
      ∙ outside 4 _ Encoding.mstatus_ie1 _ refl refl
      ∙ within 4 _ Encoding.mstatus_prv1 _ refl refl
      ∙ omega (arith, prv-digits m);
  prv_high =
      after_ie1 5 _ Encoding.prv_m (refl, refl) (refl, refl) (refl, refl)
      ∙ outside 5 _ Encoding.mstatus_ie1 _ refl refl
      ∙ within 5 _ Encoding.mstatus_prv1 _ refl refl
      ∙ omega (arith, prv-digits m);
  ie =
      after_ie1 3 _ Encoding.prv_m (refl, refl) (refl, refl) (refl, refl)
      ∙ within 3 _ Encoding.mstatus_ie1 _ refl refl
      ∙ omega (arith, ie-digit m);
}

-- What a pop does is the converse.
after_prv1 :
    (k x v w : ℕ)
    → (digit k Encoding.mstatus_ie2 ≡ 0) × (digit k (not64 Encoding.mstatus_ie2) ≡ 1)
    → (digit k Encoding.mstatus_prv2 ≡ 0) × (digit k (not64 Encoding.mstatus_prv2) ≡ 1)
    → (digit k Encoding.mstatus_ie1 ≡ 0) × (digit k (not64 Encoding.mstatus_ie1) ≡ 1)
    → (digit k Encoding.mstatus_prv1 ≡ 0) × (digit k (not64 Encoding.mstatus_prv1) ≡ 1)
    → digit k (
        set_field
          (set_field
            (set_field (set_field x Encoding.mstatus_prv1 v) Encoding.mstatus_ie1 w)
            Encoding.mstatus_prv2
            Encoding.prv_u)
          Encoding.mstatus_ie2
          1)
      ≡ digit k x
after_prv1 k x v w (a, a') (b, b') (c, c') (d, d') =
    outside k _ Encoding.mstatus_ie2 1 a a'
    ∙ outside k _ Encoding.mstatus_prv2 Encoding.prv_u b b'
    ∙ outside k _ Encoding.mstatus_ie1 w c c'
    ∙ outside k x Encoding.mstatus_prv1 v d d'

pub popped-Pushes : (m : ℕ) → Pushes (popped m) m
unfolding popped mask_lsb
popped-Pushes m = record {
  prv_low = sym (
      after_prv1 1 _ _ _ (refl, refl) (refl, refl) (refl, refl) (refl, refl)
      ∙ outside 1 _ Encoding.mstatus_ie _ refl refl
      ∙ within 1 m Encoding.mstatus_prv _ refl refl
      ∙ omega (arith, prv1-digits m));
  prv_high = sym (
      after_prv1 2 _ _ _ (refl, refl) (refl, refl) (refl, refl) (refl, refl)
      ∙ outside 2 _ Encoding.mstatus_ie _ refl refl
      ∙ within 2 m Encoding.mstatus_prv _ refl refl
      ∙ omega (arith, prv1-digits m));
  ie = sym (
      after_prv1 0 _ _ _ (refl, refl) (refl, refl) (refl, refl) (refl, refl)
      ∙ within 0 _ Encoding.mstatus_ie _ refl refl
      ∙ omega (arith, ie1-digit m));
}
