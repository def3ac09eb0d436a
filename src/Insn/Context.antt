-- ===== src/Insn/Context.antt =====
-- The macros of riscv-isa-sim/riscv/decode.h that the instruction bodies are written in, and the
-- frame of riscv-isa-sim/riscv/insn_template.cc around a body.
use cmpe220fall.Base.{ℕ, ◌-◌, Bool, ◌==◌, not, bit_and, bit_or, leb, ◌&&◌, if◌then◌else◌}
use cmpe220fall.Base.Word.{add64, shl64, shr64, sra64, sext, u32}
use cmpe220fall.Decode
use cmpe220fall.Encoding
use cmpe220fall.Encoding.{get_field}
use cmpe220fall.Machine.{
  Hart, Action, instruction_address_misaligned, gets_state, ◌>>=◌, ◌>>◌, pure, raise, gets, require,
  read_reg, write_reg,
}

-- The arguments of an instruction function: the width that it is compiled for (32 or 64), the
-- instruction word and its address.
pub record Context : Type 0 where
  pub xlen : ℕ
  pub insn : ℕ
  pub pc : ℕ

-- `sext32`, `zext32`, `sext_xlen`, `zext_xlen`.
unfoldable pub sext32 : ℕ → ℕ
sext32 x = sext 32 x

unfoldable pub zext32 : ℕ → ℕ
zext32 x = u32 x

unfoldable pub sext_xlen : ℕ → ℕ → ℕ
sext_xlen xlen x = sra64 (shl64 x (64 - xlen)) (64 - xlen)

unfoldable pub zext_xlen : ℕ → ℕ → ℕ
zext_xlen xlen x = shr64 (shl64 x (64 - xlen)) (64 - xlen)

-- `p->supports_extension(letter)`, of a capital letter given by its place after 'A'.
unfoldable pub supports_extension : ℕ → ℕ → Bool
supports_extension cpuid letter = not (bit_and (shr64 cpuid letter) 1 == 0)

module _ (c : Context) where
  unfoldable pub get_rs1 : Action ℕ
  unfolding read_reg
  get_rs1 = read_reg (Decode.rs1 c.insn)

  unfoldable pub get_rs2 : Action ℕ
  unfolding read_reg
  get_rs2 = read_reg (Decode.rs2 c.insn)

  unfoldable pub write_rd : ℕ → Action (Unit {0})
  unfolding write_reg
  write_rd value = write_reg (Decode.rd c.insn) value

  -- `SHAMT`.
  unfoldable pub shamt : ℕ
  shamt = bit_and (Decode.i_imm c.insn) 0x3F

  unfoldable pub require_rv64 : Action (Unit {0})
  unfolding require
  require_rv64 = require (c.xlen == 64)

unfoldable pub require_extension : ℕ → Action (Unit {0})
unfolding require supports_extension
require_extension letter = do cpuid ← gets (λ h. h.cpuid); require (supports_extension cpuid letter)

-- `dirty_fp_state`; `xlen` is the width in scope where the macro stands.
unfoldable pub dirty_fp_state : ℕ → Hart → Hart
dirty_fp_state xlen h =
    let sd = if xlen == 64 then Encoding.mstatus64_sd else Encoding.mstatus32_sd in
    record h {
      state = record h.state { mstatus = bit_or h.state.mstatus (bit_or Encoding.mstatus_fs sd) };
    }

unfoldable pub require_fp : Action (Unit {0})
unfolding require
require_fp = do
  mstatus ← gets_state (λ s. s.mstatus)
  require (not (bit_and mstatus Encoding.mstatus_fs == 0))

unfoldable pub require_privilege : ℕ → Action (Unit {0})
unfolding require
require_privilege prv = do
  mstatus ← gets_state (λ s. s.mstatus)
  require (leb prv (get_field mstatus Encoding.mstatus_prv))

-- The places of the extensions' letters after 'A'.
abbrev pub ext_a : ℕ
ext_a = 0

abbrev pub ext_c : ℕ
ext_c = 2

abbrev pub ext_d : ℕ
ext_d = 3

abbrev pub ext_f : ℕ
ext_f = 5

abbrev pub ext_m : ℕ
ext_m = 12

module _ (c : Context) where
  -- `set_pc(x)`: the new value of the local variable `npc`.
  unfoldable pub set_pc : ℕ → Action ℕ
  unfolding supports_extension
  set_pc target = do
    cpuid ← gets (λ h. h.cpuid)
    if not (bit_and target 2 == 0) && not (supports_extension cpuid ext_c)
        then raise (instruction_address_misaligned target)
        else pure (sext_xlen c.xlen target)

  -- `BRANCH_TARGET`, `JUMP_TARGET`.
  unfoldable pub branch_target : ℕ
  branch_target = add64 c.pc (Decode.sb_imm c.insn)

  unfoldable pub jump_target : ℕ
  jump_target = add64 c.pc (Decode.uj_imm c.insn)

  -- The frame of an instruction that falls through, and of one that may jump: what the
  -- instruction function returns, the address of the next instruction.
  unfoldable pub next_pc : ℕ
  next_pc = sext_xlen c.xlen (add64 c.pc (Decode.insn_length c.insn))

  unfoldable pub straight : Action (Unit {0}) → Action ℕ
  unfolding next_pc
  straight body = body >> pure next_pc

  unfoldable pub jumping : (ℕ → Action ℕ) → Action ℕ
  unfolding next_pc
  jumping body = body next_pc
