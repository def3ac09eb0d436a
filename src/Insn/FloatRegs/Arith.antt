-- ===== src/Insn/FloatRegs/Arith.antt =====
-- The floating-point arithmetic keep the register files.
use cmpe220fall.Insn.Context.{Context}
use cmpe220fall.Insn.FloatContext.{SoftFloat, IsSoftFloat}
use cmpe220fall.Insn.FloatArith
use cmpe220fall.Insn.Registers.{IsContext, KeepsRegs}
use cmpe220fall.Insn.FloatRegs.{float_rules, bit_rules}

module _ (sf : SoftFloat) (s : IsSoftFloat sf) (c : Context) (k : IsContext c) where
  pub fadd_s-KeepsRegs : KeepsRegs c.xlen (FloatArith.fadd_s sf c)
  unfolding FloatArith.fadd_s
  fadd_s-KeepsRegs = search (float_rules, s.f32_add-lt) depth 14

  pub fsub_s-KeepsRegs : KeepsRegs c.xlen (FloatArith.fsub_s sf c)
  unfolding FloatArith.fsub_s
  fsub_s-KeepsRegs = search (float_rules, s.f32_sub-lt) depth 14

  pub fmul_s-KeepsRegs : KeepsRegs c.xlen (FloatArith.fmul_s sf c)
  unfolding FloatArith.fmul_s
  fmul_s-KeepsRegs = search (float_rules, s.f32_mul-lt) depth 14

  pub fdiv_s-KeepsRegs : KeepsRegs c.xlen (FloatArith.fdiv_s sf c)
  unfolding FloatArith.fdiv_s
  fdiv_s-KeepsRegs = search (float_rules, s.f32_div-lt) depth 14

  pub fsqrt_s-KeepsRegs : KeepsRegs c.xlen (FloatArith.fsqrt_s sf c)
  unfolding FloatArith.fsqrt_s
  fsqrt_s-KeepsRegs = search (float_rules, s.f32_sqrt-lt) depth 14

  pub fmadd_s-KeepsRegs : KeepsRegs c.xlen (FloatArith.fmadd_s sf c)
  unfolding FloatArith.fmadd_s
  fmadd_s-KeepsRegs = search (float_rules, s.f32_mul_add-lt) depth 14

  pub fmsub_s-KeepsRegs : KeepsRegs c.xlen (FloatArith.fmsub_s sf c)
  unfolding FloatArith.fmsub_s
  fmsub_s-KeepsRegs = search (float_rules, bit_rules, s.f32_mul_add-lt) depth 14

  pub fnmadd_s-KeepsRegs : KeepsRegs c.xlen (FloatArith.fnmadd_s sf c)
  unfolding FloatArith.fnmadd_s
  fnmadd_s-KeepsRegs = search (float_rules, bit_rules, s.f32_mul_add-lt) depth 14

  pub fnmsub_s-KeepsRegs : KeepsRegs c.xlen (FloatArith.fnmsub_s sf c)
  unfolding FloatArith.fnmsub_s
  fnmsub_s-KeepsRegs = search (float_rules, bit_rules, s.f32_mul_add-lt) depth 14

  pub fadd_d-KeepsRegs : KeepsRegs c.xlen (FloatArith.fadd_d sf c)
  unfolding FloatArith.fadd_d
  fadd_d-KeepsRegs = search (float_rules, s.f64_add-lt) depth 14

  pub fsub_d-KeepsRegs : KeepsRegs c.xlen (FloatArith.fsub_d sf c)
  unfolding FloatArith.fsub_d
  fsub_d-KeepsRegs = search (float_rules, s.f64_sub-lt) depth 14

  pub fmul_d-KeepsRegs : KeepsRegs c.xlen (FloatArith.fmul_d sf c)
  unfolding FloatArith.fmul_d
  fmul_d-KeepsRegs = search (float_rules, s.f64_mul-lt) depth 14

  pub fdiv_d-KeepsRegs : KeepsRegs c.xlen (FloatArith.fdiv_d sf c)
  unfolding FloatArith.fdiv_d
  fdiv_d-KeepsRegs = search (float_rules, s.f64_div-lt) depth 14

  pub fsqrt_d-KeepsRegs : KeepsRegs c.xlen (FloatArith.fsqrt_d sf c)
  unfolding FloatArith.fsqrt_d
  fsqrt_d-KeepsRegs = search (float_rules, s.f64_sqrt-lt) depth 14

  pub fmadd_d-KeepsRegs : KeepsRegs c.xlen (FloatArith.fmadd_d sf c)
  unfolding FloatArith.fmadd_d
  fmadd_d-KeepsRegs = search (float_rules, s.f64_mul_add-lt) depth 14

  pub fmsub_d-KeepsRegs : KeepsRegs c.xlen (FloatArith.fmsub_d sf c)
  unfolding FloatArith.fmsub_d
  fmsub_d-KeepsRegs = search (float_rules, bit_rules, s.f64_mul_add-lt) depth 14

  pub fnmadd_d-KeepsRegs : KeepsRegs c.xlen (FloatArith.fnmadd_d sf c)
  unfolding FloatArith.fnmadd_d
  fnmadd_d-KeepsRegs = search (float_rules, bit_rules, s.f64_mul_add-lt) depth 14

  pub fnmsub_d-KeepsRegs : KeepsRegs c.xlen (FloatArith.fnmsub_d sf c)
  unfolding FloatArith.fnmsub_d
  fnmsub_d-KeepsRegs = search (float_rules, bit_rules, s.f64_mul_add-lt) depth 14
