-- ===== src/Insn/FloatTests.antt =====
-- Comparisons, minima, signs and classes: riscv-isa-sim/riscv/insns/.
use cmpe220fall.Base.{true, bit_and, bit_or, bit_xor, if◌then◌else◌}
use cmpe220fall.Base.Word.{not64, int64_min, int32_min}
use cmpe220fall.Machine.{Action, ◌>>=◌, ◌>>◌, pure}
use cmpe220fall.Insn.Context.{Context, write_rd, require_extension, require_fp, ext_d, ext_f}
use cmpe220fall.Insn.FloatContext.{
  SoftFloat, call, set_fp_exceptions, f32, get_frs1, get_frs2, write_frd,
}

module _ (sf : SoftFloat) (c : Context) where
  unfoldable pub feq_s : Action (Unit {0})
  feq_s = do
    require_extension ext_f
    require_fp
    a ← get_frs1 c
    b ← get_frs2 c
    holds ← call (sf.f32_eq (f32 a) (f32 b))
    write_rd c (if holds then 1 else 0)
    set_fp_exceptions

  unfoldable pub fle_s : Action (Unit {0})
  fle_s = do
    require_extension ext_f
    require_fp
    a ← get_frs1 c
    b ← get_frs2 c
    holds ← call (sf.f32_le (f32 a) (f32 b))
    write_rd c (if holds then 1 else 0)
    set_fp_exceptions

  unfoldable pub flt_s : Action (Unit {0})
  flt_s = do
    require_extension ext_f
    require_fp
    a ← get_frs1 c
    b ← get_frs2 c
    holds ← call (sf.f32_lt (f32 a) (f32 b))
    write_rd c (if holds then 1 else 0)
    set_fp_exceptions

  unfoldable pub fmax_s : Action (Unit {0})
  fmax_s = do
    require_extension ext_f
    require_fp
    a ← get_frs1 c
    b ← get_frs2 c
    first ← (if sf.f32_is_nan (f32 b) then pure true else call (sf.f32_le_quiet (f32 b) (f32 a)))
    write_frd c (if first then a else b)
    set_fp_exceptions

  unfoldable pub fmin_s : Action (Unit {0})
  fmin_s = do
    require_extension ext_f
    require_fp
    a ← get_frs1 c
    b ← get_frs2 c
    first ← (if sf.f32_is_nan (f32 b) then pure true else call (sf.f32_lt_quiet (f32 a) (f32 b)))
    write_frd c (if first then a else b)
    set_fp_exceptions

  unfoldable pub fsgnj_s : Action (Unit {0})
  fsgnj_s = do
    require_extension ext_f
    require_fp
    a ← get_frs1 c
    b ← get_frs2 c
    write_frd c (bit_or (bit_and a (not64 int32_min)) (bit_and b int32_min))

  unfoldable pub fsgnjn_s : Action (Unit {0})
  fsgnjn_s = do
    require_extension ext_f
    require_fp
    a ← get_frs1 c
    b ← get_frs2 c
    write_frd c (bit_or (bit_and a (not64 int32_min)) (bit_and (not64 b) int32_min))

  unfoldable pub fsgnjx_s : Action (Unit {0})
  fsgnjx_s = do
    require_extension ext_f
    require_fp
    a ← get_frs1 c
    b ← get_frs2 c
    write_frd c (bit_xor a (bit_and b int32_min))

  unfoldable pub fclass_s : Action (Unit {0})
  fclass_s = do
    require_extension ext_f
    require_fp
    a ← get_frs1 c
    write_rd c (sf.f32_classify (f32 a))

  unfoldable pub feq_d : Action (Unit {0})
  feq_d = do
    require_extension ext_d
    require_fp
    a ← get_frs1 c
    b ← get_frs2 c
    holds ← call (sf.f64_eq a b)
    write_rd c (if holds then 1 else 0)
    set_fp_exceptions

  unfoldable pub fle_d : Action (Unit {0})
  fle_d = do
    require_extension ext_d
    require_fp
    a ← get_frs1 c
    b ← get_frs2 c
    holds ← call (sf.f64_le a b)
    write_rd c (if holds then 1 else 0)
    set_fp_exceptions

  unfoldable pub flt_d : Action (Unit {0})
  flt_d = do
    require_extension ext_d
    require_fp
    a ← get_frs1 c
    b ← get_frs2 c
    holds ← call (sf.f64_lt a b)
    write_rd c (if holds then 1 else 0)
    set_fp_exceptions

  unfoldable pub fmax_d : Action (Unit {0})
  fmax_d = do
    require_extension ext_d
    require_fp
    a ← get_frs1 c
    b ← get_frs2 c
    first ← (if sf.f64_is_nan b then pure true else call (sf.f64_le_quiet b a))
    write_frd c (if first then a else b)
    set_fp_exceptions

  unfoldable pub fmin_d : Action (Unit {0})
  fmin_d = do
    require_extension ext_d
    require_fp
    a ← get_frs1 c
    b ← get_frs2 c
    first ← (if sf.f64_is_nan b then pure true else call (sf.f64_lt_quiet a b))
    write_frd c (if first then a else b)
    set_fp_exceptions

  unfoldable pub fsgnj_d : Action (Unit {0})
  fsgnj_d = do
    require_extension ext_d
    require_fp
    a ← get_frs1 c
    b ← get_frs2 c
    write_frd c (bit_or (bit_and a (not64 int64_min)) (bit_and b int64_min))

  unfoldable pub fsgnjn_d : Action (Unit {0})
  fsgnjn_d = do
    require_extension ext_d
    require_fp
    a ← get_frs1 c
    b ← get_frs2 c
    write_frd c (bit_or (bit_and a (not64 int64_min)) (bit_and (not64 b) int64_min))

  unfoldable pub fsgnjx_d : Action (Unit {0})
  fsgnjx_d = do
    require_extension ext_d
    require_fp
    a ← get_frs1 c
    b ← get_frs2 c
    write_frd c (bit_xor a (bit_and b int64_min))

  unfoldable pub fclass_d : Action (Unit {0})
  fclass_d = do require_extension ext_d; require_fp; a ← get_frs1 c; write_rd c (sf.f64_classify a)
