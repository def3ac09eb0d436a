-- ===== src/Privileged/StatusWrites.antt =====
-- What a write to mstatus keeps of the privilege stack: set_csr of riscv-isa-sim/riscv/processor.cc.
use cmpe220fall.Base.{ℕ, Bool, true, false, ◌≡◌, refl, ◌∙◌, arith, bit_and, ◌==◌, if◌then◌else◌}
use cmpe220fall.Base.Word.{not64}
use cmpe220fall.Base.Digits.{digit, digit-lt, digit-bit_and, digit-bit_or}
use cmpe220fall.Encoding
use cmpe220fall.Encoding.{get_field, set_field, mask_lsb}
use cmpe220fall.Privileged.Csr.{next_mstatus, mstatus_mask, merge, validate_priv}
use cmpe220fall.Privileged.Pushed.{outside, or-left, or-right}

merge-kept :
    (k old mask val : ℕ)
    → digit k mask ≡ 1
    → digit k (not64 mask) ≡ 0
    → digit k (merge old mask val) ≡ digit k val
unfolding merge
merge-kept k old mask val i o = omega (
  arith,
  i,
  o,
  digit-bit_or k (bit_and old (not64 mask)) (bit_and val mask),
  digit-bit_and k old (not64 mask),
  digit-bit_and k val mask,
  digit-lt k val,
)

-- A digit apart from SD, at either width.
abbrev ApartFrom : ℕ → ℕ → Type 0
ApartFrom k mask = (digit k mask ≡ 0) × (digit k (not64 mask) ≡ 1)

set_sd-kept :
    (narrow : Bool) (k m val : ℕ)
    → ApartFrom k Encoding.mstatus32_sd
    → ApartFrom k Encoding.mstatus64_sd
    → digit k (set_field m (if narrow then Encoding.mstatus32_sd else Encoding.mstatus64_sd) val)
      ≡ digit k m
set_sd-kept true k m val (a, a') b = outside k m Encoding.mstatus32_sd val a a'
set_sd-kept false k m val a (b, b') = outside k m Encoding.mstatus64_sd val b b'

-- A writable digit of mstatus is written.
next_mstatus-digit :
    (k max_xlen : ℕ) (ext : Bool) (old val : ℕ)
    → ApartFrom k Encoding.mstatus32_sd
    → ApartFrom k Encoding.mstatus64_sd
    → digit k (mstatus_mask max_xlen ext val) ≡ 1
    → digit k (not64 (mstatus_mask max_xlen ext val)) ≡ 0
    → digit k (next_mstatus max_xlen ext old val) ≡ digit k val
unfolding next_mstatus
next_mstatus-digit k max_xlen ext old val a b i o =
    set_sd-kept (max_xlen == 32) k _ _ a b
    ∙ merge-kept k old (mstatus_mask max_xlen ext val) val i o

module _ (max_xlen : ℕ) (ext : Bool) (old val : ℕ) where
  prv-writable :
      (k : ℕ)
      → digit k Encoding.mstatus_prv ≡ 1
      → validate_priv (get_field val Encoding.mstatus_prv) ≡ true
      → digit k (mstatus_mask max_xlen ext val) ≡ 1
  unfolding mstatus_mask
  prv-writable k i e = or-left k _ _ (or-left k _ _ (or-right k _ _ (rw e i)))

  prv1-writable :
      (k : ℕ)
      → digit k Encoding.mstatus_prv1 ≡ 1
      → validate_priv (get_field val Encoding.mstatus_prv1) ≡ true
      → digit k (mstatus_mask max_xlen ext val) ≡ 1
  unfolding mstatus_mask
  prv1-writable k i e = or-left k _ _ (or-right k _ _ (rw e i))

  ie-writable : (k : ℕ) → digit k 0x10049 ≡ 1 → digit k (mstatus_mask max_xlen ext val) ≡ 1
  unfolding mstatus_mask
  ie-writable k i = or-left k _ _ (or-left k _ _ (or-left k _ _ (or-left k _ _ (or-left k _ _ i))))

  -- The lower level of the stack is written where its mode is one that there is, and the upper too.
  pub written-lower :
      validate_priv (get_field val Encoding.mstatus_prv) ≡ true
      → (digit 1 (next_mstatus max_xlen ext old val) ≡ digit 1 val)
        × (digit 2 (next_mstatus max_xlen ext old val) ≡ digit 2 val)
        × (digit 0 (next_mstatus max_xlen ext old val) ≡ digit 0 val)
  written-lower e =
      let low = prv-writable 1 refl e in
      let high = prv-writable 2 refl e in
      let ie = ie-writable 0 refl in
      (
        next_mstatus-digit 1 max_xlen ext old val (refl, refl) (refl, refl) low
            (omega (arith, low)),
        next_mstatus-digit 2 max_xlen ext old val (refl, refl) (refl, refl) high
            (omega (arith, high)),
        next_mstatus-digit 0 max_xlen ext old val (refl, refl) (refl, refl) ie (omega (arith, ie)),
      )

  pub written-upper :
      validate_priv (get_field val Encoding.mstatus_prv1) ≡ true
      → (digit 4 (next_mstatus max_xlen ext old val) ≡ digit 4 val)
        × (digit 5 (next_mstatus max_xlen ext old val) ≡ digit 5 val)
        × (digit 3 (next_mstatus max_xlen ext old val) ≡ digit 3 val)
  written-upper e =
      let low = prv1-writable 4 refl e in
      let high = prv1-writable 5 refl e in
      let ie = ie-writable 3 refl in
      (
        next_mstatus-digit 4 max_xlen ext old val (refl, refl) (refl, refl) low
            (omega (arith, low)),
        next_mstatus-digit 5 max_xlen ext old val (refl, refl) (refl, refl) high
            (omega (arith, high)),
        next_mstatus-digit 3 max_xlen ext old val (refl, refl) (refl, refl) ie (omega (arith, ie)),
      )
