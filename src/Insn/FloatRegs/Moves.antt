-- ===== src/Insn/FloatRegs/Moves.antt =====
-- The floating-point conversions and moves keep the register files.
use cmpe220fall.Insn.Context.{Context}
use cmpe220fall.Insn.FloatContext.{SoftFloat, IsSoftFloat}
use cmpe220fall.Insn.FloatMoves
use cmpe220fall.Insn.Registers.{IsContext, KeepsRegs}
use cmpe220fall.Insn.FloatRegs.{float_rules}

module _ (sf : SoftFloat) (s : IsSoftFloat sf) (c : Context) (k : IsContext c) where
  pub fcvt_s_w-KeepsRegs : KeepsRegs c.xlen (FloatMoves.fcvt_s_w sf c)
  unfolding FloatMoves.fcvt_s_w
  fcvt_s_w-KeepsRegs = search (float_rules, s.i32_to_f32-lt) depth 14

  pub fcvt_w_s-KeepsRegs : KeepsRegs c.xlen (FloatMoves.fcvt_w_s sf c)
  unfolding FloatMoves.fcvt_w_s
  fcvt_w_s-KeepsRegs = search (float_rules, s.f32_to_i32-lt) depth 14

  pub fcvt_s_wu-KeepsRegs : KeepsRegs c.xlen (FloatMoves.fcvt_s_wu sf c)
  unfolding FloatMoves.fcvt_s_wu
  fcvt_s_wu-KeepsRegs = search (float_rules, s.ui32_to_f32-lt) depth 14

  pub fcvt_wu_s-KeepsRegs : KeepsRegs c.xlen (FloatMoves.fcvt_wu_s sf c)
  unfolding FloatMoves.fcvt_wu_s
  fcvt_wu_s-KeepsRegs = search (float_rules, s.f32_to_ui32-lt) depth 14

  pub fcvt_s_l-KeepsRegs : KeepsRegs c.xlen (FloatMoves.fcvt_s_l sf c)
  unfolding FloatMoves.fcvt_s_l
  fcvt_s_l-KeepsRegs = search (float_rules, s.i64_to_f32-lt) depth 14

  pub fcvt_l_s-KeepsRegs : KeepsRegs c.xlen (FloatMoves.fcvt_l_s sf c)
  unfolding FloatMoves.fcvt_l_s
  fcvt_l_s-KeepsRegs = search (float_rules, s.f32_to_i64-lt) depth 14

  pub fcvt_s_lu-KeepsRegs : KeepsRegs c.xlen (FloatMoves.fcvt_s_lu sf c)
  unfolding FloatMoves.fcvt_s_lu
  fcvt_s_lu-KeepsRegs = search (float_rules, s.ui64_to_f32-lt) depth 14

  pub fcvt_lu_s-KeepsRegs : KeepsRegs c.xlen (FloatMoves.fcvt_lu_s sf c)
  unfolding FloatMoves.fcvt_lu_s
  fcvt_lu_s-KeepsRegs = search (float_rules, s.f32_to_ui64-lt) depth 14

  pub fcvt_d_w-KeepsRegs : KeepsRegs c.xlen (FloatMoves.fcvt_d_w sf c)
  unfolding FloatMoves.fcvt_d_w
  fcvt_d_w-KeepsRegs = search (float_rules, s.i32_to_f64-lt) depth 14

  pub fcvt_w_d-KeepsRegs : KeepsRegs c.xlen (FloatMoves.fcvt_w_d sf c)
  unfolding FloatMoves.fcvt_w_d
  fcvt_w_d-KeepsRegs = search (float_rules, s.f64_to_i32-lt) depth 14

  pub fcvt_d_wu-KeepsRegs : KeepsRegs c.xlen (FloatMoves.fcvt_d_wu sf c)
  unfolding FloatMoves.fcvt_d_wu
  fcvt_d_wu-KeepsRegs = search (float_rules, s.ui32_to_f64-lt) depth 14

  pub fcvt_wu_d-KeepsRegs : KeepsRegs c.xlen (FloatMoves.fcvt_wu_d sf c)
  unfolding FloatMoves.fcvt_wu_d
  fcvt_wu_d-KeepsRegs = search (float_rules, s.f64_to_ui32-lt) depth 14

  pub fcvt_d_l-KeepsRegs : KeepsRegs c.xlen (FloatMoves.fcvt_d_l sf c)
  unfolding FloatMoves.fcvt_d_l
  fcvt_d_l-KeepsRegs = search (float_rules, s.i64_to_f64-lt) depth 14

  pub fcvt_l_d-KeepsRegs : KeepsRegs c.xlen (FloatMoves.fcvt_l_d sf c)
  unfolding FloatMoves.fcvt_l_d
  fcvt_l_d-KeepsRegs = search (float_rules, s.f64_to_i64-lt) depth 14

  pub fcvt_d_lu-KeepsRegs : KeepsRegs c.xlen (FloatMoves.fcvt_d_lu sf c)
  unfolding FloatMoves.fcvt_d_lu
  fcvt_d_lu-KeepsRegs = search (float_rules, s.ui64_to_f64-lt) depth 14

  pub fcvt_lu_d-KeepsRegs : KeepsRegs c.xlen (FloatMoves.fcvt_lu_d sf c)
  unfolding FloatMoves.fcvt_lu_d
  fcvt_lu_d-KeepsRegs = search (float_rules, s.f64_to_ui64-lt) depth 14

  pub fcvt_d_s-KeepsRegs : KeepsRegs c.xlen (FloatMoves.fcvt_d_s sf c)
  unfolding FloatMoves.fcvt_d_s
  fcvt_d_s-KeepsRegs = search (float_rules, s.f32_to_f64-lt) depth 14

  pub fcvt_s_d-KeepsRegs : KeepsRegs c.xlen (FloatMoves.fcvt_s_d sf c)
  unfolding FloatMoves.fcvt_s_d
  fcvt_s_d-KeepsRegs = search (float_rules, s.f64_to_f32-lt) depth 14

  pub fmv_d_x-KeepsRegs : KeepsRegs c.xlen (FloatMoves.fmv_d_x sf c)
  unfolding FloatMoves.fmv_d_x
  fmv_d_x-KeepsRegs = search float_rules depth 14

  pub fmv_s_x-KeepsRegs : KeepsRegs c.xlen (FloatMoves.fmv_s_x sf c)
  unfolding FloatMoves.fmv_s_x
  fmv_s_x-KeepsRegs = search float_rules depth 14

  pub fmv_x_d-KeepsRegs : KeepsRegs c.xlen (FloatMoves.fmv_x_d sf c)
  unfolding FloatMoves.fmv_x_d
  fmv_x_d-KeepsRegs = search float_rules depth 14

  pub fmv_x_s-KeepsRegs : KeepsRegs c.xlen (FloatMoves.fmv_x_s sf c)
  unfolding FloatMoves.fmv_x_s
  fmv_x_s-KeepsRegs = search float_rules depth 14
