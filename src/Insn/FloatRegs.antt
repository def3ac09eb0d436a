-- ===== src/Insn/FloatRegs.antt =====
-- Rules for the floating-point instructions: each keeps the register files, whatever softfloat
-- answers within its laws.
pub mod Arith
pub mod Tests
pub mod Moves
use cmpe220fall.Base.{
  ℕ, Bool, true, List, [], ◌∷◌, inr, refl, arith, ◌<◌, ◌^◌, if◌then◌else◌, bit_and, bit_or, bit_xor,
}
use cmpe220fall.Base.Word.{not64, int32_min, int64_min}
use cmpe220fall.Insn.Canonical.{
  IsCanonical, test-IsCanonical, sext32-IsCanonical, bit_and-IsCanonical, bit_or-IsCanonical,
  bit_xor-IsCanonical,
}
use cmpe220fall.Insn.MulDivRegs.{if-IsCanonical}
use cmpe220fall.Insn.Registers.{
  IsContext, KeepsRegs, then-Keeps, require_extension-Keeps, get_rs1-Keeps, write_rd-Keeps,
  reg-bind-Keeps, require_rv64-Keeps,
}
use cmpe220fall.Insn.Rules.{
  pure-KeepsRegs, if-KeepsRegs, any-bind-Keeps, wide-bind-Keeps, word-IsCanonical, f32-IsCanonical,
  u32-IsCanonical, zext32-IsCanonical, call-Keeps, call-wide-Keeps, set_fp_exceptions-Keeps,
  require_fp-Keeps, get_frs1-Keeps, get_frs2-Keeps, get_frs3-Keeps, get_rm-Keeps,
  set_rounding_mode-Keeps, write_frd-Keeps, require_rv64-bind-Keeps, widen-IsCanonical,
  narrow-IsCanonical, class-IsCanonical,
}

pub not64-IsCanonical : (v : ℕ) → IsCanonical 64 (not64 v)
not64-IsCanonical v = word-IsCanonical (not64 v) (omega arith)

pub int32_min-IsCanonical : IsCanonical 64 int32_min
int32_min-IsCanonical = word-IsCanonical int32_min (omega arith)

pub int64_min-IsCanonical : IsCanonical 64 int64_min
int64_min-IsCanonical = word-IsCanonical int64_min (omega arith)

module _ (v w : ℕ) (p : IsCanonical 64 v) (q : IsCanonical 64 w) where
  pub wide_and-IsCanonical : IsCanonical 64 (bit_and v w)
  wide_and-IsCanonical = bit_and-IsCanonical 64 v w (inr refl) p q

  pub wide_or-IsCanonical : IsCanonical 64 (bit_or v w)
  wide_or-IsCanonical = bit_or-IsCanonical 64 v w (inr refl) p q

  pub wide_xor-IsCanonical : IsCanonical 64 (bit_xor v w)
  wide_xor-IsCanonical = bit_xor-IsCanonical 64 v w (inr refl) p q

pub ruleset float_rules = (
  then-Keeps, require_extension-Keeps, require_fp-Keeps, get_frs1-Keeps, get_frs2-Keeps,
  get_frs3-Keeps, get_rs1-Keeps, write_rd-Keeps, write_frd-Keeps, wide-bind-Keeps, any-bind-Keeps,
  reg-bind-Keeps, call-wide-Keeps, call-Keeps, set_fp_exceptions-Keeps, set_rounding_mode-Keeps,
  get_rm-Keeps, f32-IsCanonical, u32-IsCanonical, zext32-IsCanonical, sext32-IsCanonical,
  widen-IsCanonical, narrow-IsCanonical, class-IsCanonical, require_rv64-bind-Keeps,
  test-IsCanonical, if-IsCanonical, if-KeepsRegs, pure-KeepsRegs,
)

pub ruleset bit_rules = (
  wide_and-IsCanonical, wide_or-IsCanonical, wide_xor-IsCanonical, not64-IsCanonical,
  int32_min-IsCanonical, int64_min-IsCanonical,
)
