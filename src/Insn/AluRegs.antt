-- ===== src/Insn/AluRegs.antt =====
-- The arithmetic instructions keep the register file: register 0 stays zero, and every register
-- stays in the form of the width.
use cmpe220fall.Insn.Context.{Context}
use cmpe220fall.Insn.Alu
use cmpe220fall.Insn.Words
use cmpe220fall.Insn.Registers.{IsContext, KeepsRegs, regs_rules}

module _ (c : Context) (k : IsContext c) where
  pub add-KeepsRegs : KeepsRegs c.xlen (Alu.add c)
  unfolding Alu.add
  add-KeepsRegs = search regs_rules depth 8

  pub addi-KeepsRegs : KeepsRegs c.xlen (Alu.addi c)
  unfolding Alu.addi
  addi-KeepsRegs = search regs_rules depth 8

  pub sub-KeepsRegs : KeepsRegs c.xlen (Alu.sub c)
  unfolding Alu.sub
  sub-KeepsRegs = search regs_rules depth 8

  pub and-KeepsRegs : KeepsRegs c.xlen (Alu.and c)
  unfolding Alu.and
  and-KeepsRegs = search regs_rules depth 8

  pub andi-KeepsRegs : KeepsRegs c.xlen (Alu.andi c)
  unfolding Alu.andi
  andi-KeepsRegs = search regs_rules depth 8

  pub or-KeepsRegs : KeepsRegs c.xlen (Alu.or c)
  unfolding Alu.or
  or-KeepsRegs = search regs_rules depth 8

  pub ori-KeepsRegs : KeepsRegs c.xlen (Alu.ori c)
  unfolding Alu.ori
  ori-KeepsRegs = search regs_rules depth 8

  pub xor-KeepsRegs : KeepsRegs c.xlen (Alu.xor c)
  unfolding Alu.xor
  xor-KeepsRegs = search regs_rules depth 8

  pub xori-KeepsRegs : KeepsRegs c.xlen (Alu.xori c)
  unfolding Alu.xori
  xori-KeepsRegs = search regs_rules depth 8

  pub lui-KeepsRegs : KeepsRegs c.xlen (Alu.lui c)
  unfolding Alu.lui
  lui-KeepsRegs = search regs_rules depth 8

  pub auipc-KeepsRegs : KeepsRegs c.xlen (Alu.auipc c)
  unfolding Alu.auipc
  auipc-KeepsRegs = search regs_rules depth 8

  pub sll-KeepsRegs : KeepsRegs c.xlen (Alu.sll c)
  unfolding Alu.sll
  sll-KeepsRegs = search regs_rules depth 8

  pub slli-KeepsRegs : KeepsRegs c.xlen (Alu.slli c)
  unfolding Alu.slli
  slli-KeepsRegs = search regs_rules depth 8

  pub srl-KeepsRegs : KeepsRegs c.xlen (Alu.srl c)
  unfolding Alu.srl
  srl-KeepsRegs = search regs_rules depth 8

  pub srli-KeepsRegs : KeepsRegs c.xlen (Alu.srli c)
  unfolding Alu.srli
  srli-KeepsRegs = search regs_rules depth 8

  pub sra-KeepsRegs : KeepsRegs c.xlen (Alu.sra c)
  unfolding Alu.sra
  sra-KeepsRegs = search regs_rules depth 8

  pub srai-KeepsRegs : KeepsRegs c.xlen (Alu.srai c)
  unfolding Alu.srai
  srai-KeepsRegs = search regs_rules depth 8

  pub slt-KeepsRegs : KeepsRegs c.xlen (Alu.slt c)
  unfolding Alu.slt
  slt-KeepsRegs = search regs_rules depth 8

  pub slti-KeepsRegs : KeepsRegs c.xlen (Alu.slti c)
  unfolding Alu.slti
  slti-KeepsRegs = search regs_rules depth 8

  pub sltu-KeepsRegs : KeepsRegs c.xlen (Alu.sltu c)
  unfolding Alu.sltu
  sltu-KeepsRegs = search regs_rules depth 8

  pub sltiu-KeepsRegs : KeepsRegs c.xlen (Alu.sltiu c)
  unfolding Alu.sltiu
  sltiu-KeepsRegs = search regs_rules depth 8

  pub addiw-KeepsRegs : KeepsRegs c.xlen (Words.addiw c)
  unfolding Words.addiw
  addiw-KeepsRegs = search regs_rules depth 8

  pub addw-KeepsRegs : KeepsRegs c.xlen (Words.addw c)
  unfolding Words.addw
  addw-KeepsRegs = search regs_rules depth 8

  pub subw-KeepsRegs : KeepsRegs c.xlen (Words.subw c)
  unfolding Words.subw
  subw-KeepsRegs = search regs_rules depth 8

  pub slliw-KeepsRegs : KeepsRegs c.xlen (Words.slliw c)
  unfolding Words.slliw
  slliw-KeepsRegs = search regs_rules depth 8

  pub sllw-KeepsRegs : KeepsRegs c.xlen (Words.sllw c)
  unfolding Words.sllw
  sllw-KeepsRegs = search regs_rules depth 8

  pub srliw-KeepsRegs : KeepsRegs c.xlen (Words.srliw c)
  unfolding Words.srliw
  srliw-KeepsRegs = search regs_rules depth 8

  pub srlw-KeepsRegs : KeepsRegs c.xlen (Words.srlw c)
  unfolding Words.srlw
  srlw-KeepsRegs = search regs_rules depth 8

  pub sraiw-KeepsRegs : KeepsRegs c.xlen (Words.sraiw c)
  unfolding Words.sraiw
  sraiw-KeepsRegs = search regs_rules depth 8

  pub sraw-KeepsRegs : KeepsRegs c.xlen (Words.sraw c)
  unfolding Words.sraw
  sraw-KeepsRegs = search regs_rules depth 8
