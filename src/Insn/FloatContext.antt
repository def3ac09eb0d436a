-- ===== src/Insn/FloatContext.antt =====
-- The floating-point macros of riscv-isa-sim/riscv/decode.h, over an abstract softfloat.
use cmpe220fall.Base.{ℕ, ◌<◌, ◌^◌, Bool, false, bit_or, leb, ◌==◌, if◌then◌else◌}
use cmpe220fall.Base.Word.{u32}
use cmpe220fall.Decode
use cmpe220fall.Machine.{
  Action, ret, regfile_write, ◌>>=◌, ◌>>◌, pure, modify, gets_state, modify_state, require,
  read_freg,
}
use cmpe220fall.Insn.Context.{Context, dirty_fp_state}

-- What the program uses of softfloat: the result and the flags that a call raises. The calls that
-- round take the rounding mode first; the comparisons and the classification do not round.
pub record SoftFloat : Type 0 where
  pub f32_add : ℕ → ℕ → ℕ → ℕ × ℕ
  pub f32_sub : ℕ → ℕ → ℕ → ℕ × ℕ
  pub f32_mul : ℕ → ℕ → ℕ → ℕ × ℕ
  pub f32_div : ℕ → ℕ → ℕ → ℕ × ℕ
  pub f32_mul_add : ℕ → ℕ → ℕ → ℕ → ℕ × ℕ
  pub f32_sqrt : ℕ → ℕ → ℕ × ℕ
  pub f32_eq : ℕ → ℕ → Bool × ℕ
  pub f32_le : ℕ → ℕ → Bool × ℕ
  pub f32_lt : ℕ → ℕ → Bool × ℕ
  pub f32_le_quiet : ℕ → ℕ → Bool × ℕ
  pub f32_lt_quiet : ℕ → ℕ → Bool × ℕ
  pub f32_classify : ℕ → ℕ
  pub f32_is_nan : ℕ → Bool
  pub f32_to_i32 : ℕ → ℕ → ℕ × ℕ
  pub i32_to_f32 : ℕ → ℕ → ℕ × ℕ
  pub f32_to_ui32 : ℕ → ℕ → ℕ × ℕ
  pub ui32_to_f32 : ℕ → ℕ → ℕ × ℕ
  pub f32_to_i64 : ℕ → ℕ → ℕ × ℕ
  pub i64_to_f32 : ℕ → ℕ → ℕ × ℕ
  pub f32_to_ui64 : ℕ → ℕ → ℕ × ℕ
  pub ui64_to_f32 : ℕ → ℕ → ℕ × ℕ
  pub f64_add : ℕ → ℕ → ℕ → ℕ × ℕ
  pub f64_sub : ℕ → ℕ → ℕ → ℕ × ℕ
  pub f64_mul : ℕ → ℕ → ℕ → ℕ × ℕ
  pub f64_div : ℕ → ℕ → ℕ → ℕ × ℕ
  pub f64_mul_add : ℕ → ℕ → ℕ → ℕ → ℕ × ℕ
  pub f64_sqrt : ℕ → ℕ → ℕ × ℕ
  pub f64_eq : ℕ → ℕ → Bool × ℕ
  pub f64_le : ℕ → ℕ → Bool × ℕ
  pub f64_lt : ℕ → ℕ → Bool × ℕ
  pub f64_le_quiet : ℕ → ℕ → Bool × ℕ
  pub f64_lt_quiet : ℕ → ℕ → Bool × ℕ
  pub f64_classify : ℕ → ℕ
  pub f64_is_nan : ℕ → Bool
  pub f64_to_i32 : ℕ → ℕ → ℕ × ℕ
  pub i32_to_f64 : ℕ → ℕ → ℕ × ℕ
  pub f64_to_ui32 : ℕ → ℕ → ℕ × ℕ
  pub ui32_to_f64 : ℕ → ℕ → ℕ × ℕ
  pub f64_to_i64 : ℕ → ℕ → ℕ × ℕ
  pub i64_to_f64 : ℕ → ℕ → ℕ × ℕ
  pub f64_to_ui64 : ℕ → ℕ → ℕ × ℕ
  pub ui64_to_f64 : ℕ → ℕ → ℕ × ℕ
  pub f32_to_f64 : ℕ → ℕ → ℕ × ℕ
  pub f64_to_f32 : ℕ → ℕ → ℕ × ℕ

-- What the register files need of the results: a class is one of ten bits, and a number has 64 bits.
pub record IsSoftFloat (sf : SoftFloat) : Type 0 where
  pub f32_classify-lt : (a : ℕ) → sf.f32_classify a < 2 ^ 10
  pub f64_classify-lt : (a : ℕ) → sf.f64_classify a < 2 ^ 10
  pub f32_add-lt : (rm a b : ℕ) → (sf.f32_add rm a b).0 < 2 ^ 64
  pub f32_sub-lt : (rm a b : ℕ) → (sf.f32_sub rm a b).0 < 2 ^ 64
  pub f32_mul-lt : (rm a b : ℕ) → (sf.f32_mul rm a b).0 < 2 ^ 64
  pub f32_div-lt : (rm a b : ℕ) → (sf.f32_div rm a b).0 < 2 ^ 64
  pub f32_mul_add-lt : (rm a b d : ℕ) → (sf.f32_mul_add rm a b d).0 < 2 ^ 64
  pub f32_sqrt-lt : (rm a : ℕ) → (sf.f32_sqrt rm a).0 < 2 ^ 64
  pub f32_to_i32-lt : (rm a : ℕ) → (sf.f32_to_i32 rm a).0 < 2 ^ 64
  pub i32_to_f32-lt : (rm a : ℕ) → (sf.i32_to_f32 rm a).0 < 2 ^ 64
  pub f32_to_ui32-lt : (rm a : ℕ) → (sf.f32_to_ui32 rm a).0 < 2 ^ 64
  pub ui32_to_f32-lt : (rm a : ℕ) → (sf.ui32_to_f32 rm a).0 < 2 ^ 64
  pub f32_to_i64-lt : (rm a : ℕ) → (sf.f32_to_i64 rm a).0 < 2 ^ 64
  pub i64_to_f32-lt : (rm a : ℕ) → (sf.i64_to_f32 rm a).0 < 2 ^ 64
  pub f32_to_ui64-lt : (rm a : ℕ) → (sf.f32_to_ui64 rm a).0 < 2 ^ 64
  pub ui64_to_f32-lt : (rm a : ℕ) → (sf.ui64_to_f32 rm a).0 < 2 ^ 64
  pub f64_add-lt : (rm a b : ℕ) → (sf.f64_add rm a b).0 < 2 ^ 64
  pub f64_sub-lt : (rm a b : ℕ) → (sf.f64_sub rm a b).0 < 2 ^ 64
  pub f64_mul-lt : (rm a b : ℕ) → (sf.f64_mul rm a b).0 < 2 ^ 64
  pub f64_div-lt : (rm a b : ℕ) → (sf.f64_div rm a b).0 < 2 ^ 64
  pub f64_mul_add-lt : (rm a b d : ℕ) → (sf.f64_mul_add rm a b d).0 < 2 ^ 64
  pub f64_sqrt-lt : (rm a : ℕ) → (sf.f64_sqrt rm a).0 < 2 ^ 64
  pub f64_to_i32-lt : (rm a : ℕ) → (sf.f64_to_i32 rm a).0 < 2 ^ 64
  pub i32_to_f64-lt : (rm a : ℕ) → (sf.i32_to_f64 rm a).0 < 2 ^ 64
  pub f64_to_ui32-lt : (rm a : ℕ) → (sf.f64_to_ui32 rm a).0 < 2 ^ 64
  pub ui32_to_f64-lt : (rm a : ℕ) → (sf.ui32_to_f64 rm a).0 < 2 ^ 64
  pub f64_to_i64-lt : (rm a : ℕ) → (sf.f64_to_i64 rm a).0 < 2 ^ 64
  pub i64_to_f64-lt : (rm a : ℕ) → (sf.i64_to_f64 rm a).0 < 2 ^ 64
  pub f64_to_ui64-lt : (rm a : ℕ) → (sf.f64_to_ui64 rm a).0 < 2 ^ 64
  pub ui64_to_f64-lt : (rm a : ℕ) → (sf.ui64_to_f64 rm a).0 < 2 ^ 64
  pub f32_to_f64-lt : (rm a : ℕ) → (sf.f32_to_f64 rm a).0 < 2 ^ 64
  pub f64_to_f32-lt : (rm a : ℕ) → (sf.f64_to_f32 rm a).0 < 2 ^ 64

-- A call leaves its flags in `softfloat_exceptionFlags`.
unfoldable pub call : {A : Type 0} → A × ℕ → Action A
call (value, flags) h = (ret value, record h { exception_flags = bit_or h.exception_flags flags })

-- `set_fp_exceptions`.
unfoldable pub set_fp_exceptions : Action (Unit {0})
set_fp_exceptions = modify (λ h. record h {
  state = record h.state { fflags = bit_or h.state.fflags h.exception_flags };
  exception_flags = 0;
})

-- `f32(x)`; a double is taken as it is.
unfoldable pub f32 : ℕ → ℕ
f32 x = u32 x

module _ (c : Context) where
  -- `FRS1`, `FRS2`, `FRS3`.
  unfoldable pub get_frs1 : Action ℕ
  unfolding read_freg
  get_frs1 = read_freg (Decode.rs1 c.insn)

  unfoldable pub get_frs2 : Action ℕ
  unfolding read_freg
  get_frs2 = read_freg (Decode.rs2 c.insn)

  unfoldable pub get_frs3 : Action ℕ
  unfolding read_freg
  get_frs3 = read_freg (Decode.rs3 c.insn)

  -- `WRITE_FREG(reg, value)` and `WRITE_FRD(value)`.
  unfoldable pub write_freg : ℕ → ℕ → Action (Unit {0})
  unfolding regfile_write dirty_fp_state
  write_freg reg value = do
    modify_state (λ s. record s { fpr = regfile_write false s.fpr reg value })
    modify (dirty_fp_state c.xlen)

  unfoldable pub write_frd : ℕ → Action (Unit {0})
  unfolding write_freg
  write_frd value = write_freg (Decode.rd c.insn) value

  -- `RM`.
  unfoldable pub get_rm : Action ℕ
  unfolding require
  get_rm = do
    frm ← gets_state (λ s. s.frm)
    let rm = (if Decode.rm c.insn == 7 then frm else Decode.rm c.insn)
    require (leb rm 4)
    pure rm

  -- `softfloat_roundingMode = RM`.
  unfoldable pub set_rounding_mode : Action ℕ
  unfolding get_rm
  set_rounding_mode = do rm ← get_rm; modify (λ h. record h { rounding_mode = rm }); pure rm
