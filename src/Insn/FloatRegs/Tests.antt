-- ===== src/Insn/FloatRegs/Tests.antt =====
-- The floating-point comparisons, minima, signs and classes keep the register files.
use cmpe220fall.Insn.Context.{Context}
use cmpe220fall.Insn.FloatContext.{SoftFloat, IsSoftFloat}
use cmpe220fall.Insn.FloatTests
use cmpe220fall.Insn.Registers.{IsContext, KeepsRegs}
use cmpe220fall.Insn.FloatRegs.{float_rules, bit_rules}

module _ (sf : SoftFloat) (s : IsSoftFloat sf) (c : Context) (k : IsContext c) where
  pub feq_s-KeepsRegs : KeepsRegs c.xlen (FloatTests.feq_s sf c)
  unfolding FloatTests.feq_s
  feq_s-KeepsRegs = search float_rules depth 14

  pub fle_s-KeepsRegs : KeepsRegs c.xlen (FloatTests.fle_s sf c)
  unfolding FloatTests.fle_s
  fle_s-KeepsRegs = search float_rules depth 14

  pub flt_s-KeepsRegs : KeepsRegs c.xlen (FloatTests.flt_s sf c)
  unfolding FloatTests.flt_s
  flt_s-KeepsRegs = search float_rules depth 14

  pub fmax_s-KeepsRegs : KeepsRegs c.xlen (FloatTests.fmax_s sf c)
  unfolding FloatTests.fmax_s
  fmax_s-KeepsRegs = search float_rules depth 14

  pub fmin_s-KeepsRegs : KeepsRegs c.xlen (FloatTests.fmin_s sf c)
  unfolding FloatTests.fmin_s
  fmin_s-KeepsRegs = search float_rules depth 14

  pub fsgnj_s-KeepsRegs : KeepsRegs c.xlen (FloatTests.fsgnj_s sf c)
  unfolding FloatTests.fsgnj_s
  fsgnj_s-KeepsRegs = search (float_rules, bit_rules) depth 14

  pub fsgnjn_s-KeepsRegs : KeepsRegs c.xlen (FloatTests.fsgnjn_s sf c)
  unfolding FloatTests.fsgnjn_s
  fsgnjn_s-KeepsRegs = search (float_rules, bit_rules) depth 14

  pub fsgnjx_s-KeepsRegs : KeepsRegs c.xlen (FloatTests.fsgnjx_s sf c)
  unfolding FloatTests.fsgnjx_s
  fsgnjx_s-KeepsRegs = search (float_rules, bit_rules) depth 14

  pub fclass_s-KeepsRegs : KeepsRegs c.xlen (FloatTests.fclass_s sf c)
  unfolding FloatTests.fclass_s
  fclass_s-KeepsRegs = search (float_rules, s.f32_classify-lt) depth 14

  pub feq_d-KeepsRegs : KeepsRegs c.xlen (FloatTests.feq_d sf c)
  unfolding FloatTests.feq_d
  feq_d-KeepsRegs = search float_rules depth 14

  pub fle_d-KeepsRegs : KeepsRegs c.xlen (FloatTests.fle_d sf c)
  unfolding FloatTests.fle_d
  fle_d-KeepsRegs = search float_rules depth 14

  pub flt_d-KeepsRegs : KeepsRegs c.xlen (FloatTests.flt_d sf c)
  unfolding FloatTests.flt_d
  flt_d-KeepsRegs = search float_rules depth 14

  pub fmax_d-KeepsRegs : KeepsRegs c.xlen (FloatTests.fmax_d sf c)
  unfolding FloatTests.fmax_d
  fmax_d-KeepsRegs = search float_rules depth 14

  pub fmin_d-KeepsRegs : KeepsRegs c.xlen (FloatTests.fmin_d sf c)
  unfolding FloatTests.fmin_d
  fmin_d-KeepsRegs = search float_rules depth 14

  pub fsgnj_d-KeepsRegs : KeepsRegs c.xlen (FloatTests.fsgnj_d sf c)
  unfolding FloatTests.fsgnj_d
  fsgnj_d-KeepsRegs = search (float_rules, bit_rules) depth 14

  pub fsgnjn_d-KeepsRegs : KeepsRegs c.xlen (FloatTests.fsgnjn_d sf c)
  unfolding FloatTests.fsgnjn_d
  fsgnjn_d-KeepsRegs = search (float_rules, bit_rules) depth 14

  pub fsgnjx_d-KeepsRegs : KeepsRegs c.xlen (FloatTests.fsgnjx_d sf c)
  unfolding FloatTests.fsgnjx_d
  fsgnjx_d-KeepsRegs = search (float_rules, bit_rules) depth 14

  pub fclass_d-KeepsRegs : KeepsRegs c.xlen (FloatTests.fclass_d sf c)
  unfolding FloatTests.fclass_d
  fclass_d-KeepsRegs = search (float_rules, s.f64_classify-lt) depth 14
