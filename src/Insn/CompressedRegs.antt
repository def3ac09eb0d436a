-- ===== src/Insn/CompressedRegs.antt =====
-- The compressed arithmetic instructions keep the register file.
use cmpe220fall.Base.{ℕ, ◌/◌, ◌^◌, arith}
use cmpe220fall.Base.Bits.{bit_and_mask}
use cmpe220fall.Decode
use cmpe220fall.Machine.Keeps.{Keeps}
use cmpe220fall.Insn.Context.{Context}
use cmpe220fall.Insn.Compressed
use cmpe220fall.Insn.Canonical.{IsWidth, IsCanonical, InRange-IsCanonical}
use cmpe220fall.Insn.Registers.{
  IsContext, IsRegfile, KeepsRegs, read_reg-Keeps, write_reg-Keeps, regs_rules,
}

pub rvc_imm-IsCanonical : (xlen b : ℕ) → IsWidth xlen → IsCanonical xlen (Decode.rvc_imm b)
unfolding Decode.rvc_imm Decode.x Decode.xs
rvc_imm-IsCanonical xlen b w =
    let low = bit_and_mask 5 (b / 2 ^ 2) in
    InRange-IsCanonical xlen (Decode.rvc_imm b) w (ground (arith, low), λ _. ground (arith, low))

module _ (c : Context) where
  pub rvc_rs1-Keeps : Keeps (IsRegfile c.xlen) (IsCanonical c.xlen) (Compressed.rvc_rs1 c)
  unfolding Compressed.rvc_rs1
  rvc_rs1-Keeps = read_reg-Keeps c.xlen _

  pub rvc_rs2-Keeps : Keeps (IsRegfile c.xlen) (IsCanonical c.xlen) (Compressed.rvc_rs2 c)
  unfolding Compressed.rvc_rs2
  rvc_rs2-Keeps = read_reg-Keeps c.xlen _

  pub rvc_rs1s-Keeps : Keeps (IsRegfile c.xlen) (IsCanonical c.xlen) (Compressed.rvc_rs1s c)
  unfolding Compressed.rvc_rs1s
  rvc_rs1s-Keeps = read_reg-Keeps c.xlen _

  pub rvc_rs2s-Keeps : Keeps (IsRegfile c.xlen) (IsCanonical c.xlen) (Compressed.rvc_rs2s c)
  unfolding Compressed.rvc_rs2s
  rvc_rs2s-Keeps = read_reg-Keeps c.xlen _

  pub write_rs1s-Keeps :
      (v : ℕ) → IsCanonical c.xlen v → KeepsRegs c.xlen (Compressed.write_rs1s c v)
  unfolding Compressed.write_rs1s
  write_rs1s-Keeps v q = write_reg-Keeps c.xlen _ v q

module _ (c : Context) (k : IsContext c) where
  ruleset compressed_rules = (
    regs_rules, rvc_rs1-Keeps, rvc_rs2-Keeps, rvc_rs1s-Keeps, rvc_rs2s-Keeps, write_rs1s-Keeps,
    rvc_imm-IsCanonical,
  )

  pub c_add-KeepsRegs : KeepsRegs c.xlen (Compressed.c_add c)
  unfolding Compressed.c_add
  c_add-KeepsRegs = search compressed_rules depth 10

  pub c_addi-KeepsRegs : KeepsRegs c.xlen (Compressed.c_addi c)
  unfolding Compressed.c_addi
  c_addi-KeepsRegs = search compressed_rules depth 10

  pub c_addw-KeepsRegs : KeepsRegs c.xlen (Compressed.c_addw c)
  unfolding Compressed.c_addw
  c_addw-KeepsRegs = search compressed_rules depth 10

  pub c_and-KeepsRegs : KeepsRegs c.xlen (Compressed.c_and c)
  unfolding Compressed.c_and
  c_and-KeepsRegs = search compressed_rules depth 10

  pub c_andi-KeepsRegs : KeepsRegs c.xlen (Compressed.c_andi c)
  unfolding Compressed.c_andi
  c_andi-KeepsRegs = search compressed_rules depth 10

  pub c_li-KeepsRegs : KeepsRegs c.xlen (Compressed.c_li c)
  unfolding Compressed.c_li
  c_li-KeepsRegs = search compressed_rules depth 10

  pub c_mv-KeepsRegs : KeepsRegs c.xlen (Compressed.c_mv c)
  unfolding Compressed.c_mv
  c_mv-KeepsRegs = search compressed_rules depth 10

  pub c_or-KeepsRegs : KeepsRegs c.xlen (Compressed.c_or c)
  unfolding Compressed.c_or
  c_or-KeepsRegs = search compressed_rules depth 10

  pub c_slli-KeepsRegs : KeepsRegs c.xlen (Compressed.c_slli c)
  unfolding Compressed.c_slli
  c_slli-KeepsRegs = search compressed_rules depth 10

  pub c_sub-KeepsRegs : KeepsRegs c.xlen (Compressed.c_sub c)
  unfolding Compressed.c_sub
  c_sub-KeepsRegs = search compressed_rules depth 10

  pub c_subw-KeepsRegs : KeepsRegs c.xlen (Compressed.c_subw c)
  unfolding Compressed.c_subw
  c_subw-KeepsRegs = search compressed_rules depth 10

  pub c_xor-KeepsRegs : KeepsRegs c.xlen (Compressed.c_xor c)
  unfolding Compressed.c_xor
  c_xor-KeepsRegs = search compressed_rules depth 10

  pub c_srai-KeepsRegs : KeepsRegs c.xlen (Compressed.c_srai c)
  unfolding Compressed.c_srai
  c_srai-KeepsRegs = search compressed_rules depth 10

  pub c_srli-KeepsRegs : KeepsRegs c.xlen (Compressed.c_srli c)
  unfolding Compressed.c_srli
  c_srli-KeepsRegs = search compressed_rules depth 10
