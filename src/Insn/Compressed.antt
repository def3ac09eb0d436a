-- ===== src/Insn/Compressed.antt =====
-- The arithmetic of the compressed extension: riscv-isa-sim/riscv/insns/.
use cmpe220fall.Base.{ℕ, not, bit_and, bit_or, bit_xor, ltb, ◌==◌, if◌then◌else◌}
use cmpe220fall.Base.Word.{add64, sub64, shl64, shr64, sra64}
use cmpe220fall.Decode
use cmpe220fall.Machine.{Action, breakpoint, ◌>>=◌, ◌>>◌, raise, require, read_reg, write_reg}
use cmpe220fall.Insn.Context.{
  Context, sext32, sext_xlen, zext_xlen, write_rd, require_rv64, require_extension, ext_c,
}

-- The register macros of the compressed formats.
module _ (c : Context) where
  unfoldable pub rvc_rs1 : Action ℕ
  unfolding read_reg
  rvc_rs1 = read_reg (Decode.rvc_rs1 c.insn)

  unfoldable pub rvc_rs2 : Action ℕ
  unfolding read_reg
  rvc_rs2 = read_reg (Decode.rvc_rs2 c.insn)

  unfoldable pub rvc_rs1s : Action ℕ
  unfolding read_reg
  rvc_rs1s = read_reg (Decode.rvc_rs1s c.insn)

  unfoldable pub rvc_rs2s : Action ℕ
  unfolding read_reg
  rvc_rs2s = read_reg (Decode.rvc_rs2s c.insn)

  unfoldable pub write_rs1s : ℕ → Action (Unit {0})
  unfolding write_reg
  write_rs1s value = write_reg (Decode.rvc_rs1s c.insn) value

  unfoldable pub write_rs2s : ℕ → Action (Unit {0})
  unfolding write_reg
  write_rs2s value = write_reg (Decode.rvc_rs2s c.insn) value

-- X_RA, X_SP and RVC_SP.
abbrev pub x_ra : ℕ
x_ra = 1

abbrev pub x_sp : ℕ
x_sp = 2

unfoldable pub rvc_sp : Action ℕ
unfolding read_reg
rvc_sp = read_reg x_sp

module _ (c : Context) where
  unfoldable pub c_add : Action (Unit {0})
  c_add = do
    require_extension ext_c
    require (not (Decode.rvc_rs2 c.insn == 0))
    write_rd c (sext_xlen c.xlen (add64 (← rvc_rs1 c) (← rvc_rs2 c)))

  unfoldable pub c_addi : Action (Unit {0})
  c_addi = do
    require_extension ext_c
    write_rd c (sext_xlen c.xlen (add64 (← rvc_rs1 c) (Decode.rvc_imm c.insn)))

  unfoldable pub c_addi4spn : Action (Unit {0})
  c_addi4spn = do
    require_extension ext_c
    require (not (Decode.rvc_addi4spn_imm c.insn == 0))
    write_rs2s c (sext_xlen c.xlen (add64 (← rvc_sp) (Decode.rvc_addi4spn_imm c.insn)))

  unfoldable pub c_addw : Action (Unit {0})
  c_addw = do
    require_extension ext_c
    require_rv64 c
    write_rs1s c (sext32 (add64 (← rvc_rs1s c) (← rvc_rs2s c)))

  unfoldable pub c_and : Action (Unit {0})
  c_and = do require_extension ext_c; write_rs1s c (bit_and (← rvc_rs1s c) (← rvc_rs2s c))

  unfoldable pub c_andi : Action (Unit {0})
  c_andi = do require_extension ext_c; write_rs1s c (bit_and (← rvc_rs1s c) (Decode.rvc_imm c.insn))

  unfoldable pub c_li : Action (Unit {0})
  c_li = do
    require_extension ext_c
    require (not (Decode.rvc_rd c.insn == 0))
    write_rd c (Decode.rvc_imm c.insn)

  -- The branch of c_lui.h for `rd` 2.
  unfoldable pub c_addi16sp : Action (Unit {0})
  c_addi16sp = do
    require (not (Decode.rvc_addi16sp_imm c.insn == 0))
    write_reg x_sp (sext_xlen c.xlen (add64 (← rvc_sp) (Decode.rvc_addi16sp_imm c.insn)))

  -- The other branch.
  unfoldable pub c_lui_rd : Action (Unit {0})
  c_lui_rd = do
    require (not (Decode.rvc_rd c.insn == 0))
    write_rd c (shl64 (Decode.rvc_imm c.insn) 12)

  unfoldable pub c_lui : Action (Unit {0})
  c_lui = do require_extension ext_c; if Decode.rvc_rd c.insn == 2 then c_addi16sp else c_lui_rd

  unfoldable pub c_mv : Action (Unit {0})
  c_mv = do
    require_extension ext_c
    require (not (Decode.rvc_rs2 c.insn == 0))
    write_rd c (← rvc_rs2 c)

  unfoldable pub c_or : Action (Unit {0})
  c_or = do require_extension ext_c; write_rs1s c (bit_or (← rvc_rs1s c) (← rvc_rs2s c))

  unfoldable pub c_slli : Action (Unit {0})
  c_slli = do
    require_extension ext_c
    require (ltb (Decode.rvc_zimm c.insn) c.xlen)
    write_rd c (sext_xlen c.xlen (shl64 (← rvc_rs1 c) (Decode.rvc_zimm c.insn)))

  unfoldable pub c_srai : Action (Unit {0})
  c_srai = do
    require_extension ext_c
    require (ltb (Decode.rvc_zimm c.insn) c.xlen)
    write_rs1s c
        (sext_xlen c.xlen (sra64 (sext_xlen c.xlen (← rvc_rs1s c)) (Decode.rvc_zimm c.insn)))

  unfoldable pub c_srli : Action (Unit {0})
  c_srli = do
    require_extension ext_c
    require (ltb (Decode.rvc_zimm c.insn) c.xlen)
    write_rs1s c
        (sext_xlen c.xlen (shr64 (zext_xlen c.xlen (← rvc_rs1s c)) (Decode.rvc_zimm c.insn)))

  unfoldable pub c_sub : Action (Unit {0})
  c_sub = do
    require_extension ext_c
    write_rs1s c (sext_xlen c.xlen (sub64 (← rvc_rs1s c) (← rvc_rs2s c)))

  unfoldable pub c_subw : Action (Unit {0})
  c_subw = do
    require_extension ext_c
    require_rv64 c
    write_rs1s c (sext32 (sub64 (← rvc_rs1s c) (← rvc_rs2s c)))

  unfoldable pub c_xor : Action (Unit {0})
  c_xor = do require_extension ext_c; write_rs1s c (bit_xor (← rvc_rs1s c) (← rvc_rs2s c))

  unfoldable pub c_ebreak : Action (Unit {0})
  c_ebreak = do require_extension ext_c; raise breakpoint
