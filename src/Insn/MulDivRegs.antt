-- ===== src/Insn/MulDivRegs.antt =====
-- Multiplication and division keep the register file: each branch writes a number in the form of the
-- width.
use cmpe220fall.Base.{ℕ, Bool, true, false, if◌then◌else◌}
use cmpe220fall.Insn.Context.{Context}
use cmpe220fall.Insn.MulDiv
use cmpe220fall.Insn.MulDiv.{div_value, rem_value, sdiv64, srem64}
use cmpe220fall.Insn.Canonical.{
  IsWidth, IsCanonical, sext_xlen-IsCanonical, ones-IsCanonical, test-IsCanonical,
}
use cmpe220fall.Insn.Registers.{IsContext, KeepsRegs, regs_rules}

pub if-IsCanonical :
    (xlen : ℕ) (b : Bool) (x y : ℕ)
    → IsCanonical xlen x
    → IsCanonical xlen y
    → IsCanonical xlen (if b then x else y)
if-IsCanonical xlen true x y p q = p
if-IsCanonical xlen false x y p q = q

zero-IsCanonical : (xlen : ℕ) → IsWidth xlen → IsCanonical xlen 0
zero-IsCanonical xlen w = test-IsCanonical xlen false w

module _ (xlen lhs rhs : ℕ) (w : IsWidth xlen) (p : IsCanonical xlen lhs) where
  pub div_value-IsCanonical : IsCanonical xlen (div_value xlen lhs rhs)
  unfolding div_value
  div_value-IsCanonical =
      if-IsCanonical xlen _ _ _ (ones-IsCanonical xlen w)
        (if-IsCanonical xlen _ _ _ p (sext_xlen-IsCanonical xlen _ w))

  pub rem_value-IsCanonical : IsCanonical xlen (rem_value xlen lhs rhs)
  unfolding rem_value
  rem_value-IsCanonical =
      if-IsCanonical xlen _ _ _ p
        (if-IsCanonical xlen _ _ _ (zero-IsCanonical xlen w) (sext_xlen-IsCanonical xlen _ w))

module _ (c : Context) (k : IsContext c) where
  ruleset division_rules =
      (regs_rules, if-IsCanonical, div_value-IsCanonical, rem_value-IsCanonical)

  pub mul-KeepsRegs : KeepsRegs c.xlen (MulDiv.mul c)
  unfolding MulDiv.mul
  mul-KeepsRegs = search division_rules depth 10

  pub mulw-KeepsRegs : KeepsRegs c.xlen (MulDiv.mulw c)
  unfolding MulDiv.mulw
  mulw-KeepsRegs = search division_rules depth 10

  pub div-KeepsRegs : KeepsRegs c.xlen (MulDiv.div c)
  unfolding MulDiv.div
  div-KeepsRegs = search division_rules depth 10

  pub divu-KeepsRegs : KeepsRegs c.xlen (MulDiv.divu c)
  unfolding MulDiv.divu
  divu-KeepsRegs = search division_rules depth 10

  pub divw-KeepsRegs : KeepsRegs c.xlen (MulDiv.divw c)
  unfolding MulDiv.divw
  divw-KeepsRegs = search division_rules depth 10

  pub divuw-KeepsRegs : KeepsRegs c.xlen (MulDiv.divuw c)
  unfolding MulDiv.divuw
  divuw-KeepsRegs = search division_rules depth 10

  pub rem-KeepsRegs : KeepsRegs c.xlen (MulDiv.rem c)
  unfolding MulDiv.rem
  rem-KeepsRegs = search division_rules depth 10

  pub remu-KeepsRegs : KeepsRegs c.xlen (MulDiv.remu c)
  unfolding MulDiv.remu
  remu-KeepsRegs = search division_rules depth 10

  pub remw-KeepsRegs : KeepsRegs c.xlen (MulDiv.remw c)
  unfolding MulDiv.remw
  remw-KeepsRegs = search division_rules depth 10

  pub remuw-KeepsRegs : KeepsRegs c.xlen (MulDiv.remuw c)
  unfolding MulDiv.remuw
  remuw-KeepsRegs = search division_rules depth 10
