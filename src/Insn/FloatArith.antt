-- ===== src/Insn/FloatArith.antt =====
-- Rounded floating-point arithmetic: riscv-isa-sim/riscv/insns/.
use cmpe220fall.Base.{bit_xor}
use cmpe220fall.Base.Word.{int64_min, int32_min}
use cmpe220fall.Machine.{Action, ◌>>=◌, ◌>>◌}
use cmpe220fall.Insn.Context.{Context, require_extension, require_fp, ext_d, ext_f}
use cmpe220fall.Insn.FloatContext.{
  SoftFloat, call, set_fp_exceptions, f32, get_frs1, get_frs2, get_frs3, write_frd,
  set_rounding_mode,
}

module _ (sf : SoftFloat) (c : Context) where
  unfoldable pub fadd_s : Action (Unit {0})
  fadd_s = do
    require_extension ext_f
    require_fp
    rm ← set_rounding_mode c
    a ← get_frs1 c
    b ← get_frs2 c
    write_frd c (← call (sf.f32_add rm (f32 a) (f32 b)))
    set_fp_exceptions

  unfoldable pub fsub_s : Action (Unit {0})
  fsub_s = do
    require_extension ext_f
    require_fp
    rm ← set_rounding_mode c
    a ← get_frs1 c
    b ← get_frs2 c
    write_frd c (← call (sf.f32_sub rm (f32 a) (f32 b)))
    set_fp_exceptions

  unfoldable pub fmul_s : Action (Unit {0})
  fmul_s = do
    require_extension ext_f
    require_fp
    rm ← set_rounding_mode c
    a ← get_frs1 c
    b ← get_frs2 c
    write_frd c (← call (sf.f32_mul rm (f32 a) (f32 b)))
    set_fp_exceptions

  unfoldable pub fdiv_s : Action (Unit {0})
  fdiv_s = do
    require_extension ext_f
    require_fp
    rm ← set_rounding_mode c
    a ← get_frs1 c
    b ← get_frs2 c
    write_frd c (← call (sf.f32_div rm (f32 a) (f32 b)))
    set_fp_exceptions

  unfoldable pub fsqrt_s : Action (Unit {0})
  fsqrt_s = do
    require_extension ext_f
    require_fp
    rm ← set_rounding_mode c
    a ← get_frs1 c
    write_frd c (← call (sf.f32_sqrt rm (f32 a)))
    set_fp_exceptions

  unfoldable pub fmadd_s : Action (Unit {0})
  fmadd_s = do
    require_extension ext_f
    require_fp
    rm ← set_rounding_mode c
    a ← get_frs1 c
    b ← get_frs2 c
    d ← get_frs3 c
    write_frd c (← call (sf.f32_mul_add rm (f32 a) (f32 b) (f32 d)))
    set_fp_exceptions

  unfoldable pub fmsub_s : Action (Unit {0})
  fmsub_s = do
    require_extension ext_f
    require_fp
    rm ← set_rounding_mode c
    a ← get_frs1 c
    b ← get_frs2 c
    d ← get_frs3 c
    write_frd c (← call (sf.f32_mul_add rm (f32 a) (f32 b) (f32 (bit_xor d int32_min))))
    set_fp_exceptions

  unfoldable pub fnmadd_s : Action (Unit {0})
  fnmadd_s = do
    require_extension ext_f
    require_fp
    rm ← set_rounding_mode c
    a ← get_frs1 c
    b ← get_frs2 c
    d ← get_frs3 c
    write_frd c
        (← call (sf.f32_mul_add rm (f32 (bit_xor a int32_min)) (f32 b) (f32 (bit_xor d int32_min))))
    set_fp_exceptions

  unfoldable pub fnmsub_s : Action (Unit {0})
  fnmsub_s = do
    require_extension ext_f
    require_fp
    rm ← set_rounding_mode c
    a ← get_frs1 c
    b ← get_frs2 c
    d ← get_frs3 c
    write_frd c (← call (sf.f32_mul_add rm (f32 (bit_xor a int32_min)) (f32 b) (f32 d)))
    set_fp_exceptions

  unfoldable pub fadd_d : Action (Unit {0})
  fadd_d = do
    require_extension ext_d
    require_fp
    rm ← set_rounding_mode c
    a ← get_frs1 c
    b ← get_frs2 c
    write_frd c (← call (sf.f64_add rm a b))
    set_fp_exceptions

  unfoldable pub fsub_d : Action (Unit {0})
  fsub_d = do
    require_extension ext_d
    require_fp
    rm ← set_rounding_mode c
    a ← get_frs1 c
    b ← get_frs2 c
    write_frd c (← call (sf.f64_sub rm a b))
    set_fp_exceptions

  unfoldable pub fmul_d : Action (Unit {0})
  fmul_d = do
    require_extension ext_d
    require_fp
    rm ← set_rounding_mode c
    a ← get_frs1 c
    b ← get_frs2 c
    write_frd c (← call (sf.f64_mul rm a b))
    set_fp_exceptions

  unfoldable pub fdiv_d : Action (Unit {0})
  fdiv_d = do
    require_extension ext_d
    require_fp
    rm ← set_rounding_mode c
    a ← get_frs1 c
    b ← get_frs2 c
    write_frd c (← call (sf.f64_div rm a b))
    set_fp_exceptions

  unfoldable pub fsqrt_d : Action (Unit {0})
  fsqrt_d = do
    require_extension ext_d
    require_fp
    rm ← set_rounding_mode c
    a ← get_frs1 c
    write_frd c (← call (sf.f64_sqrt rm a))
    set_fp_exceptions

  unfoldable pub fmadd_d : Action (Unit {0})
  fmadd_d = do
    require_extension ext_d
    require_fp
    rm ← set_rounding_mode c
    a ← get_frs1 c
    b ← get_frs2 c
    d ← get_frs3 c
    write_frd c (← call (sf.f64_mul_add rm a b d))
    set_fp_exceptions

  unfoldable pub fmsub_d : Action (Unit {0})
  fmsub_d = do
    require_extension ext_d
    require_fp
    rm ← set_rounding_mode c
    a ← get_frs1 c
    b ← get_frs2 c
    d ← get_frs3 c
    write_frd c (← call (sf.f64_mul_add rm a b (bit_xor d int64_min)))
    set_fp_exceptions

  unfoldable pub fnmadd_d : Action (Unit {0})
  fnmadd_d = do
    require_extension ext_d
    require_fp
    rm ← set_rounding_mode c
    a ← get_frs1 c
    b ← get_frs2 c
    d ← get_frs3 c
    write_frd c (← call (sf.f64_mul_add rm (bit_xor a int64_min) b (bit_xor d int64_min)))
    set_fp_exceptions

  unfoldable pub fnmsub_d : Action (Unit {0})
  fnmsub_d = do
    require_extension ext_d
    require_fp
    rm ← set_rounding_mode c
    a ← get_frs1 c
    b ← get_frs2 c
    d ← get_frs3 c
    write_frd c (← call (sf.f64_mul_add rm (bit_xor a int64_min) b d))
    set_fp_exceptions
