-- ===== src/Insn/Alu.antt =====
-- Register and immediate arithmetic, shifts and comparisons: riscv-isa-sim/riscv/insns/.
use cmpe220fall.Base.{◌-◌, bit_and, bit_or, bit_xor, ltb, if◌then◌else◌}
use cmpe220fall.Base.Word.{add64, sub64, shl64, shr64, sra64, slt64}
use cmpe220fall.Decode
use cmpe220fall.Machine.{Action, ◌>>=◌, ◌>>◌, require}
use cmpe220fall.Insn.Context.{Context, sext_xlen, zext_xlen, get_rs1, get_rs2, write_rd, shamt}

module _ (c : Context) where
  unfoldable pub add : Action (Unit {0})
  add = do write_rd c (sext_xlen c.xlen (add64 (← get_rs1 c) (← get_rs2 c)))

  unfoldable pub addi : Action (Unit {0})
  addi = do write_rd c (sext_xlen c.xlen (add64 (← get_rs1 c) (Decode.i_imm c.insn)))

  unfoldable pub sub : Action (Unit {0})
  sub = do write_rd c (sext_xlen c.xlen (sub64 (← get_rs1 c) (← get_rs2 c)))

  unfoldable pub and : Action (Unit {0})
  and = do write_rd c (bit_and (← get_rs1 c) (← get_rs2 c))

  unfoldable pub andi : Action (Unit {0})
  andi = do write_rd c (bit_and (Decode.i_imm c.insn) (← get_rs1 c))

  unfoldable pub or : Action (Unit {0})
  or = do write_rd c (bit_or (← get_rs1 c) (← get_rs2 c))

  unfoldable pub ori : Action (Unit {0})
  ori = do write_rd c (bit_or (Decode.i_imm c.insn) (← get_rs1 c))

  unfoldable pub xor : Action (Unit {0})
  xor = do write_rd c (bit_xor (← get_rs1 c) (← get_rs2 c))

  unfoldable pub xori : Action (Unit {0})
  xori = do write_rd c (bit_xor (Decode.i_imm c.insn) (← get_rs1 c))

  unfoldable pub lui : Action (Unit {0})
  lui = write_rd c (Decode.u_imm c.insn)

  unfoldable pub auipc : Action (Unit {0})
  auipc = write_rd c (sext_xlen c.xlen (add64 (Decode.u_imm c.insn) c.pc))

  unfoldable pub sll : Action (Unit {0})
  sll = do write_rd c (sext_xlen c.xlen (shl64 (← get_rs1 c) (bit_and (← get_rs2 c) (c.xlen - 1))))

  unfoldable pub slli : Action (Unit {0})
  slli = do
    require (ltb (shamt c) c.xlen)
    write_rd c (sext_xlen c.xlen (shl64 (← get_rs1 c) (shamt c)))

  unfoldable pub srl : Action (Unit {0})
  srl = do
    write_rd c (
        sext_xlen c.xlen
          (shr64 (zext_xlen c.xlen (← get_rs1 c)) (bit_and (← get_rs2 c) (c.xlen - 1))))

  unfoldable pub srli : Action (Unit {0})
  srli = do
    require (ltb (shamt c) c.xlen)
    write_rd c (sext_xlen c.xlen (shr64 (zext_xlen c.xlen (← get_rs1 c)) (shamt c)))

  unfoldable pub sra : Action (Unit {0})
  sra = do
    write_rd c (
        sext_xlen c.xlen
          (sra64 (sext_xlen c.xlen (← get_rs1 c)) (bit_and (← get_rs2 c) (c.xlen - 1))))

  unfoldable pub srai : Action (Unit {0})
  srai = do
    require (ltb (shamt c) c.xlen)
    write_rd c (sext_xlen c.xlen (sra64 (sext_xlen c.xlen (← get_rs1 c)) (shamt c)))

  unfoldable pub slt : Action (Unit {0})
  slt = do write_rd c (if slt64 (← get_rs1 c) (← get_rs2 c) then 1 else 0)

  unfoldable pub slti : Action (Unit {0})
  slti = do write_rd c (if slt64 (← get_rs1 c) (Decode.i_imm c.insn) then 1 else 0)

  unfoldable pub sltu : Action (Unit {0})
  sltu = do write_rd c (if ltb (← get_rs1 c) (← get_rs2 c) then 1 else 0)

  unfoldable pub sltiu : Action (Unit {0})
  sltiu = do write_rd c (if ltb (← get_rs1 c) (Decode.i_imm c.insn) then 1 else 0)
