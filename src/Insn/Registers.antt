-- ===== src/Insn/Registers.antt =====
-- The invariant of the register file, and the rules by which an instruction keeps it.
use cmpe220fall.Base.{ℕ, ◌≡◌, arith, Bool, true, false}
use cmpe220fall.Machine.{Hart, Action, require, read_reg, write_reg, ◌>>=◌}
use cmpe220fall.Machine.Keeps.{Keeps, Anything, Keeps-bind, require-Keeps}
use cmpe220fall.Insn.Context.{Context, get_rs1, get_rs2, write_rd, require_extension, require_rv64}
use cmpe220fall.Insn.Canonical.{
  IsWidth, IsCanonical, sext_xlen-IsCanonical, sext32-IsCanonical, small-IsCanonical,
  ones-IsCanonical, test-IsCanonical, bit_and-IsCanonical, bit_or-IsCanonical, bit_xor-IsCanonical,
  i_imm-IsCanonical, u_imm-IsCanonical,
}

-- A hart of the width `xlen`: register 0 holds zero, every integer register holds a number in the
-- form of the width, and every floating-point register 64 bits.
pub record IsRegfile (xlen : ℕ) (h : Hart) : Type 0 where
  pub zero_reg : h.state.xpr 0 ≡ 0
  pub canonical : (i : ℕ) → IsCanonical xlen (h.state.xpr i)
  pub floats : (i : ℕ) → IsCanonical 64 (h.state.fpr i)
  pub width : h.xlen ≡ xlen
  pub max_width : h.max_xlen ≡ xlen

-- What the frame of an instruction guarantees: one of the two widths, and the sign-extended word
-- that a fetch delivers.
pub record IsContext (c : Context) : Type 0 where
  pub width : IsWidth c.xlen
  pub word : IsCanonical 32 c.insn

-- `m` keeps the register file of a hart of width `xlen`.
abbrev pub KeepsRegs : {A : Type 0} → ℕ → Action A → Type 0
KeepsRegs xlen m = Keeps (IsRegfile xlen) Anything m

pub read_reg-Keeps : (xlen i : ℕ) → Keeps (IsRegfile xlen) (IsCanonical xlen) (read_reg i)
unfolding read_reg
read_reg-Keeps xlen i = record { at = λ h p. (p, p.canonical i) }

pub write_reg-Keeps : (xlen i v : ℕ) → IsCanonical xlen v → KeepsRegs xlen (write_reg i v)
unfolding write_reg
write_reg-Keeps xlen i v q = record {
  at = λ h p. (
    record {
      zero_reg = ground (arith, p.zero_reg);
      canonical = λ j. ground (arith, p.canonical j);
      floats = p.floats;
      width = p.width;
      max_width = p.max_width;
    },
    tt,
  );
}

module _ (c : Context) where
  pub get_rs1-Keeps : Keeps (IsRegfile c.xlen) (IsCanonical c.xlen) (get_rs1 c)
  unfolding get_rs1
  get_rs1-Keeps = read_reg-Keeps c.xlen _

  pub get_rs2-Keeps : Keeps (IsRegfile c.xlen) (IsCanonical c.xlen) (get_rs2 c)
  unfolding get_rs2
  get_rs2-Keeps = read_reg-Keeps c.xlen _

  pub write_rd-Keeps : (v : ℕ) → IsCanonical c.xlen v → KeepsRegs c.xlen (write_rd c v)
  unfolding write_rd
  write_rd-Keeps v q = write_reg-Keeps c.xlen _ v q

pub require-KeepsRegs : (xlen : ℕ) (b : Bool) → KeepsRegs xlen (require b)
unfolding require
require-KeepsRegs xlen true = record { at = λ h p. (p, tt) }
require-KeepsRegs xlen false = record { at = λ h p. (p, tt) }

pub require_rv64-Keeps : (c : Context) → KeepsRegs c.xlen (require_rv64 c)
unfolding require_rv64
require_rv64-Keeps c = record { at = λ h p. ground arith }

pub require_extension-Keeps : (xlen letter : ℕ) → KeepsRegs xlen (require_extension letter)
unfolding require_extension
require_extension-Keeps xlen letter = record { at = λ h p. ground arith }

module _ {A : Type 0} (xlen : ℕ) where
  pub then-Keeps :
      (n : Action (Unit {0})) (f : Unit {0} → Action A)
      → KeepsRegs xlen n
      → ((u : Unit {0}) → KeepsRegs xlen (f u))
      → KeepsRegs xlen (n >>= f)
  then-Keeps n f kn k = Keeps-bind Anything Anything n f kn (λ u _. k u)

  -- After a test the rest may use that it passed.
  pub require-bind-Keeps :
      (b : Bool) (m : Action A)
      → (b ≡ true → KeepsRegs xlen m)
      → KeepsRegs xlen (require b >>= λ _. m)
  require-bind-Keeps b m k =
      Keeps-bind (λ _. b ≡ true) Anything (require b) (λ _. m) (require-Keeps b) (λ _ e. k e)

  pub reg-bind-Keeps :
      (r : Action ℕ) (f : ℕ → Action A)
      → Keeps (IsRegfile xlen) (IsCanonical xlen) r
      → ((v : ℕ) → IsCanonical xlen v → KeepsRegs xlen (f v))
      → KeepsRegs xlen (r >>= f)
  reg-bind-Keeps r f k kf = Keeps-bind (IsCanonical xlen) Anything r f k kf

pub ruleset canonical_rules = (
  sext_xlen-IsCanonical, sext32-IsCanonical, ones-IsCanonical, test-IsCanonical,
  bit_and-IsCanonical, bit_or-IsCanonical, bit_xor-IsCanonical, i_imm-IsCanonical,
  u_imm-IsCanonical,
)

pub ruleset regs_rules = (
  get_rs1-Keeps, get_rs2-Keeps, write_rd-Keeps, then-Keeps, require-KeepsRegs, require_rv64-Keeps,
  require_extension-Keeps, reg-bind-Keeps, canonical_rules,
)
