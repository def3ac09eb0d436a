-- ===== src/Privileged/Pushed.antt =====
-- The mode of a hart after `push_privilege_stack`: riscv-isa-sim/riscv/processor.cc.
use cmpe220fall.Base.{
  ℕ, Bool, true, false, ◌≡◌, refl, ◌∙◌, arith, bit_and, bit_or, ◌/◌, ◌==◌, if◌then◌else◌,
}
use Prim.Native.Nat.{min, max}
use cmpe220fall.Base.Word.{not64, mul64}
use cmpe220fall.Base.Digits.{digit, digit-lt, digit-bit_and, digit-bit_or}
use cmpe220fall.Base.Bits.{bit_and-step, bit_and-zero}
use cmpe220fall.Machine.{Hart}
use cmpe220fall.Encoding
use cmpe220fall.Encoding.{get_field, set_field, mask_lsb}
use cmpe220fall.Privileged.Csr.{
  set_csr, set_mstatus, next_mstatus, mstatus_mask, merge, validate_priv,
}
use cmpe220fall.Privileged.Traps.{pushed, push_privilege_stack}

-- A digit outside the field is as it was; one of a field that is set is that of the value.
digit-set_field :
    (k reg mask val : ℕ)
    → digit k (set_field reg mask val)
      ≡ max
          (min (digit k reg) (digit k (not64 mask)))
          (min (digit k (mul64 val (mask_lsb mask))) (digit k mask))
unfolding set_field
digit-set_field k reg mask val = omega (
  arith,
  digit-bit_or k (bit_and reg (not64 mask)) (bit_and (mul64 val (mask_lsb mask)) mask),
  digit-bit_and k reg (not64 mask),
  digit-bit_and k (mul64 val (mask_lsb mask)) mask,
)

pub outside :
    (k reg mask val : ℕ)
    → digit k mask ≡ 0
    → digit k (not64 mask) ≡ 1
    → digit k (set_field reg mask val) ≡ digit k reg
outside k reg mask val z o = omega (arith, z, o, digit-set_field k reg mask val, digit-lt k reg)

pub within :
    (k reg mask val : ℕ)
    → digit k (not64 mask) ≡ 0
    → digit k mask ≡ 1
    → digit k (set_field reg mask val) ≡ digit k (mul64 val (mask_lsb mask))
within k reg mask val o i =
    omega (arith, o, i, digit-set_field k reg mask val, digit-lt k (mul64 val (mask_lsb mask)))

-- The mode that is pushed is machine mode, and interrupts are disabled.
record IsMachine (mstatus : ℕ) : Type 0 where
  prv_low : digit 1 mstatus ≡ 1
  prv_high : digit 2 mstatus ≡ 1
  ie : digit 0 mstatus ≡ 0

pushed-IsMachine : (m : ℕ) → IsMachine (pushed m)
unfolding pushed mask_lsb
pushed-IsMachine m = record {
  prv_low =
      outside 1 _ Encoding.mstatus_ie 0 refl refl
      ∙ outside 1 _ Encoding.mstatus_mprv 0 refl refl
      ∙ within 1 _ Encoding.mstatus_prv Encoding.prv_m refl refl;
  prv_high =
      outside 2 _ Encoding.mstatus_ie 0 refl refl
      ∙ outside 2 _ Encoding.mstatus_mprv 0 refl refl
      ∙ within 2 _ Encoding.mstatus_prv Encoding.prv_m refl refl;
  ie = within 0 _ Encoding.mstatus_ie 0 refl refl;
}

-- The mode that the digits say.
machine-prv : (m : ℕ) → IsMachine m → get_field m Encoding.mstatus_prv ≡ Encoding.prv_m
unfolding get_field mask_lsb
machine-prv m k = omega (
  arith,
  k.prv_low,
  k.prv_high,
  bit_and-step m 6,
  bit_and-step (m / 2) 3,
  bit_and-step (m / 2 / 2) 1,
  bit_and-zero (m / 2 / 2 / 2),
)

machine-ie : (m : ℕ) → IsMachine m → get_field m Encoding.mstatus_ie ≡ 0
unfolding get_field mask_lsb
machine-ie m k = omega (arith, k.ie, bit_and-step m 1, bit_and-zero (m / 2))

pub or-left : (k a b : ℕ) → digit k a ≡ 1 → digit k (bit_or a b) ≡ 1
or-left k a b e = omega (arith, e, digit-bit_or k a b, digit-lt k b)

pub or-right : (k a b : ℕ) → digit k b ≡ 1 → digit k (bit_or a b) ≡ 1
or-right k a b e = omega (arith, e, digit-bit_or k a b, digit-lt k a)

-- Of the mode, both digits are writable where the value has a mode that there is; IE always is.
mask-prv :
    (k max_xlen : ℕ) (ext : Bool) (val : ℕ)
    → digit k Encoding.mstatus_prv ≡ 1
    → get_field val Encoding.mstatus_prv ≡ Encoding.prv_m
    → digit k (mstatus_mask max_xlen ext val) ≡ 1
unfolding mstatus_mask validate_priv
mask-prv k max_xlen ext val i e = or-left k _ _ (or-left k _ _ (or-right k _ _ (rw e i)))

mask-ie : (max_xlen : ℕ) (ext : Bool) (val : ℕ) → digit 0 (mstatus_mask max_xlen ext val) ≡ 1
unfolding mstatus_mask
mask-ie max_xlen ext val =
    or-left 0 _ _ (or-left 0 _ _ (or-left 0 _ _ (or-left 0 _ _ (or-left 0 _ _ refl))))

merge-set :
    (k old mask val : ℕ) → digit k mask ≡ 1 → digit k val ≡ 1 → digit k (merge old mask val) ≡ 1
unfolding merge
merge-set k old mask val i e = or-right k _ _ (omega (arith, i, e, digit-bit_and k val mask))

merge-clear :
    (old mask val : ℕ) → digit 0 mask ≡ 1 → digit 0 val ≡ 0 → digit 0 (merge old mask val) ≡ 0
unfolding merge
merge-clear old mask val i e = omega (
  arith,
  i,
  e,
  digit-bit_or 0 (bit_and old (not64 mask)) (bit_and val mask),
  digit-bit_and 0 old (not64 mask),
  digit-bit_and 0 val mask,
)

merge-IsMachine :
    (max_xlen : ℕ) (ext : Bool) (old val : ℕ)
    → IsMachine val
    → IsMachine (merge old (mstatus_mask max_xlen ext val) val)
merge-IsMachine max_xlen ext old val k =
    let mode = machine-prv val k in
    record {
      prv_low = merge-set 1 old _ val (mask-prv 1 max_xlen ext val refl mode) k.prv_low;
      prv_high = merge-set 2 old _ val (mask-prv 2 max_xlen ext val refl mode) k.prv_high;
      ie = merge-clear old _ val (mask-ie max_xlen ext val) k.ie;
    }

-- SD is elsewhere at either width.
set_sd-IsMachine :
    (narrow : Bool) (m val : ℕ)
    → IsMachine m
    → IsMachine (set_field m (if narrow then Encoding.mstatus32_sd else Encoding.mstatus64_sd) val)
set_sd-IsMachine true m val k = record {
  prv_low = outside 1 m Encoding.mstatus32_sd val refl refl ∙ k.prv_low;
  prv_high = outside 2 m Encoding.mstatus32_sd val refl refl ∙ k.prv_high;
  ie = outside 0 m Encoding.mstatus32_sd val refl refl ∙ k.ie;
}
set_sd-IsMachine false m val k = record {
  prv_low = outside 1 m Encoding.mstatus64_sd val refl refl ∙ k.prv_low;
  prv_high = outside 2 m Encoding.mstatus64_sd val refl refl ∙ k.prv_high;
  ie = outside 0 m Encoding.mstatus64_sd val refl refl ∙ k.ie;
}

-- What `push_privilege_stack` writes to mstatus leaves machine mode and interrupts disabled.
next_mstatus-IsMachine :
    (max_xlen : ℕ) (ext : Bool) (m : ℕ) → IsMachine (next_mstatus max_xlen ext m (pushed m))
unfolding next_mstatus
next_mstatus-IsMachine max_xlen ext m =
    set_sd-IsMachine (max_xlen == 32) _ _
      (merge-IsMachine max_xlen ext m (pushed m) (pushed-IsMachine m))

pub next_mstatus-prv :
    (max_xlen : ℕ) (ext : Bool) (m : ℕ)
    → get_field (next_mstatus max_xlen ext m (pushed m)) Encoding.mstatus_prv ≡ Encoding.prv_m
next_mstatus-prv max_xlen ext m = machine-prv _ (next_mstatus-IsMachine max_xlen ext m)

pub push_privilege_stack-prv :
    (h : Hart)
    → get_field (push_privilege_stack h).state.mstatus Encoding.mstatus_prv ≡ Encoding.prv_m
unfolding push_privilege_stack set_csr set_mstatus
push_privilege_stack-prv h = machine-prv _ (next_mstatus-IsMachine h.max_xlen h.ext h.state.mstatus)

pub push_privilege_stack-ie :
    (h : Hart) → get_field (push_privilege_stack h).state.mstatus Encoding.mstatus_ie ≡ 0
unfolding push_privilege_stack set_csr set_mstatus
push_privilege_stack-ie h = machine-ie _ (next_mstatus-IsMachine h.max_xlen h.ext h.state.mstatus)
