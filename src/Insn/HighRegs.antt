-- ===== src/Insn/HighRegs.antt =====
-- The upper halves of products keep the register file.
use cmpe220fall.Base.{
  ℕ, ◌^◌, ◌<◌, ◌≡◌, ◌==◌, ==_iff, Bool, arith, if◌then◌else◌, Bool-cases, inl, inr,
}
use cmpe220fall.Base.Bits.{digitwise-lt, bit_or-IsDigitwise}
use cmpe220fall.Mulhi.{mulhu, mulh, mulhsu, negate_high}
use cmpe220fall.Insn.Context.{Context, sext32}
use cmpe220fall.Insn.MulDiv
use cmpe220fall.Insn.Canonical.{IsWidth, IsCanonical, sext32-IsCanonical}
use cmpe220fall.Insn.Rules.{word-IsCanonical}
use cmpe220fall.Insn.Registers.{IsContext, KeepsRegs, regs_rules}

mulhu-lt : (a b : ℕ) → mulhu a b < 2 ^ 64
unfolding mulhu
mulhu-lt a b = digitwise-lt bit_or-IsDigitwise 64 _ _ (omega arith) (omega arith)

negate_high-lt : (negate : Bool) (res a b : ℕ) → res < 2 ^ 64 → negate_high negate res a b < 2 ^ 64
unfolding negate_high
negate_high-lt negate res a b h = ground arith

mulh-lt : (a b : ℕ) → mulh a b < 2 ^ 64
unfolding mulh
mulh-lt a b = negate_high-lt _ _ a b (mulhu-lt _ _)

mulhsu-lt : (a b : ℕ) → mulhsu a b < 2 ^ 64
unfolding mulhsu
mulhsu-lt a b = negate_high-lt _ _ a b (mulhu-lt _ _)

-- A product of the width: 64 bits on a 64-bit hart, else a sign-extended word.
high-IsCanonical :
    (xlen high low : ℕ)
    → IsWidth xlen
    → high < 2 ^ 64
    → IsCanonical xlen (if xlen == 64 then high else sext32 low)
high-IsCanonical xlen high low w h = elim (Bool-cases (xlen == 64)) [
  | inl wide ↦
      let e : xlen ≡ 64 = (==_iff xlen 64).0 wide in rw wide (rw e (word-IsCanonical high h))
  | inr narrow ↦ rw narrow (sext32-IsCanonical xlen low w)
]

ruleset high_rules = (regs_rules, high-IsCanonical, mulh-lt, mulhsu-lt, mulhu-lt)

module _ (c : Context) (k : IsContext c) where
  pub mulh-KeepsRegs : KeepsRegs c.xlen (MulDiv.mulh c)
  unfolding MulDiv.mulh
  mulh-KeepsRegs = search high_rules depth 10

  pub mulhsu-KeepsRegs : KeepsRegs c.xlen (MulDiv.mulhsu c)
  unfolding MulDiv.mulhsu
  mulhsu-KeepsRegs = search high_rules depth 10

  pub mulhu-KeepsRegs : KeepsRegs c.xlen (MulDiv.mulhu c)
  unfolding MulDiv.mulhu
  mulhu-KeepsRegs = search high_rules depth 10
