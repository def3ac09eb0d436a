-- ===== src/Insn/FloatMoves.antt =====
-- Conversions and moves between the register files: riscv-isa-sim/riscv/insns/.
use cmpe220fall.Base.Word.{u32}
use cmpe220fall.Machine.{Action, ◌>>=◌, ◌>>◌}
use cmpe220fall.Insn.Context.{
  Context, sext32, zext32, get_rs1, write_rd, require_rv64, require_extension, require_fp, ext_d,
  ext_f,
}
use cmpe220fall.Insn.FloatContext.{
  SoftFloat, call, set_fp_exceptions, f32, get_frs1, write_frd, get_rm, set_rounding_mode,
}

module _ (sf : SoftFloat) (c : Context) where
  unfoldable pub fcvt_s_w : Action (Unit {0})
  fcvt_s_w = do
    require_extension ext_f
    require_fp
    rm ← set_rounding_mode c
    a ← get_rs1 c
    write_frd c (← call (sf.i32_to_f32 rm (u32 a)))
    set_fp_exceptions

  unfoldable pub fcvt_w_s : Action (Unit {0})
  fcvt_w_s = do
    require_extension ext_f
    require_fp
    _ ← set_rounding_mode c
    a ← get_frs1 c
    rm ← get_rm c
    value ← call (sf.f32_to_i32 rm (f32 a))
    write_rd c (sext32 value)
    set_fp_exceptions

  unfoldable pub fcvt_s_wu : Action (Unit {0})
  fcvt_s_wu = do
    require_extension ext_f
    require_fp
    rm ← set_rounding_mode c
    a ← get_rs1 c
    write_frd c (← call (sf.ui32_to_f32 rm (u32 a)))
    set_fp_exceptions

  unfoldable pub fcvt_wu_s : Action (Unit {0})
  fcvt_wu_s = do
    require_extension ext_f
    require_fp
    _ ← set_rounding_mode c
    a ← get_frs1 c
    rm ← get_rm c
    value ← call (sf.f32_to_ui32 rm (f32 a))
    write_rd c (sext32 value)
    set_fp_exceptions

  unfoldable pub fcvt_s_l : Action (Unit {0})
  fcvt_s_l = do
    require_extension ext_f
    require_rv64 c
    require_fp
    rm ← set_rounding_mode c
    a ← get_rs1 c
    write_frd c (← call (sf.i64_to_f32 rm (a)))
    set_fp_exceptions

  unfoldable pub fcvt_l_s : Action (Unit {0})
  fcvt_l_s = do
    require_extension ext_f
    require_rv64 c
    require_fp
    _ ← set_rounding_mode c
    a ← get_frs1 c
    rm ← get_rm c
    value ← call (sf.f32_to_i64 rm (f32 a))
    write_rd c value
    set_fp_exceptions

  unfoldable pub fcvt_s_lu : Action (Unit {0})
  fcvt_s_lu = do
    require_extension ext_f
    require_rv64 c
    require_fp
    rm ← set_rounding_mode c
    a ← get_rs1 c
    write_frd c (← call (sf.ui64_to_f32 rm (a)))
    set_fp_exceptions

  unfoldable pub fcvt_lu_s : Action (Unit {0})
  fcvt_lu_s = do
    require_extension ext_f
    require_rv64 c
    require_fp
    _ ← set_rounding_mode c
    a ← get_frs1 c
    rm ← get_rm c
    value ← call (sf.f32_to_ui64 rm (f32 a))
    write_rd c value
    set_fp_exceptions

  unfoldable pub fcvt_d_w : Action (Unit {0})
  fcvt_d_w = do
    require_extension ext_d
    require_fp
    rm ← set_rounding_mode c
    a ← get_rs1 c
    write_frd c (← call (sf.i32_to_f64 rm (u32 a)))
    set_fp_exceptions

  unfoldable pub fcvt_w_d : Action (Unit {0})
  fcvt_w_d = do
    require_extension ext_d
    require_fp
    _ ← set_rounding_mode c
    a ← get_frs1 c
    rm ← get_rm c
    value ← call (sf.f64_to_i32 rm a)
    write_rd c (sext32 value)
    set_fp_exceptions

  unfoldable pub fcvt_d_wu : Action (Unit {0})
  fcvt_d_wu = do
    require_extension ext_d
    require_fp
    rm ← set_rounding_mode c
    a ← get_rs1 c
    write_frd c (← call (sf.ui32_to_f64 rm (u32 a)))
    set_fp_exceptions

  unfoldable pub fcvt_wu_d : Action (Unit {0})
  fcvt_wu_d = do
    require_extension ext_d
    require_fp
    _ ← set_rounding_mode c
    a ← get_frs1 c
    rm ← get_rm c
    value ← call (sf.f64_to_ui32 rm a)
    write_rd c (sext32 value)
    set_fp_exceptions

  unfoldable pub fcvt_d_l : Action (Unit {0})
  fcvt_d_l = do
    require_extension ext_d
    require_rv64 c
    require_fp
    rm ← set_rounding_mode c
    a ← get_rs1 c
    write_frd c (← call (sf.i64_to_f64 rm (a)))
    set_fp_exceptions

  unfoldable pub fcvt_l_d : Action (Unit {0})
  fcvt_l_d = do
    require_extension ext_d
    require_rv64 c
    require_fp
    _ ← set_rounding_mode c
    a ← get_frs1 c
    rm ← get_rm c
    value ← call (sf.f64_to_i64 rm a)
    write_rd c value
    set_fp_exceptions

  unfoldable pub fcvt_d_lu : Action (Unit {0})
  fcvt_d_lu = do
    require_extension ext_d
    require_rv64 c
    require_fp
    rm ← set_rounding_mode c
    a ← get_rs1 c
    write_frd c (← call (sf.ui64_to_f64 rm (a)))
    set_fp_exceptions

  unfoldable pub fcvt_lu_d : Action (Unit {0})
  fcvt_lu_d = do
    require_extension ext_d
    require_rv64 c
    require_fp
    _ ← set_rounding_mode c
    a ← get_frs1 c
    rm ← get_rm c
    value ← call (sf.f64_to_ui64 rm a)
    write_rd c value
    set_fp_exceptions

  unfoldable pub fcvt_d_s : Action (Unit {0})
  fcvt_d_s = do
    require_extension ext_d
    require_fp
    rm ← set_rounding_mode c
    a ← get_frs1 c
    write_frd c (← call (sf.f32_to_f64 rm (f32 a)))
    set_fp_exceptions

  unfoldable pub fcvt_s_d : Action (Unit {0})
  fcvt_s_d = do
    require_extension ext_f
    require_fp
    rm ← set_rounding_mode c
    a ← get_frs1 c
    write_frd c (← call (sf.f64_to_f32 rm a))
    set_fp_exceptions

  unfoldable pub fmv_d_x : Action (Unit {0})
  fmv_d_x = do require_extension ext_d; require_rv64 c; require_fp; write_frd c (← get_rs1 c)

  unfoldable pub fmv_s_x : Action (Unit {0})
  fmv_s_x = do require_extension ext_f; require_fp; write_frd c (zext32 (← get_rs1 c))

  unfoldable pub fmv_x_d : Action (Unit {0})
  fmv_x_d = do require_extension ext_d; require_rv64 c; require_fp; write_rd c (← get_frs1 c)

  unfoldable pub fmv_x_s : Action (Unit {0})
  fmv_x_s = do require_extension ext_f; require_fp; write_rd c (sext32 (← get_frs1 c))
