-- ===== src/Insn/Words.antt =====
-- The 32-bit arithmetic of 64-bit harts: riscv-isa-sim/riscv/insns/.
use cmpe220fall.Base.{bit_and}
use cmpe220fall.Base.Word.{add64, sub64, shl64, shr64, sra64, u32, sext}
use cmpe220fall.Decode
use cmpe220fall.Machine.{Action, ◌>>=◌, ◌>>◌}
use cmpe220fall.Insn.Context.{Context, sext32, get_rs1, get_rs2, write_rd, shamt, require_rv64}

module _ (c : Context) where
  unfoldable pub addiw : Action (Unit {0})
  addiw = do require_rv64 c; write_rd c (sext32 (add64 (Decode.i_imm c.insn) (← get_rs1 c)))

  unfoldable pub addw : Action (Unit {0})
  addw = do require_rv64 c; write_rd c (sext32 (add64 (← get_rs1 c) (← get_rs2 c)))

  unfoldable pub subw : Action (Unit {0})
  subw = do require_rv64 c; write_rd c (sext32 (sub64 (← get_rs1 c) (← get_rs2 c)))

  unfoldable pub slliw : Action (Unit {0})
  slliw = do require_rv64 c; write_rd c (sext32 (shl64 (← get_rs1 c) (shamt c)))

  unfoldable pub sllw : Action (Unit {0})
  sllw = do require_rv64 c; write_rd c (sext32 (shl64 (← get_rs1 c) (bit_and (← get_rs2 c) 0x1F)))

  unfoldable pub srliw : Action (Unit {0})
  srliw = do require_rv64 c; write_rd c (sext32 (shr64 (u32 (← get_rs1 c)) (shamt c)))

  unfoldable pub srlw : Action (Unit {0})
  srlw = do
    require_rv64 c
    write_rd c (sext32 (shr64 (u32 (← get_rs1 c)) (bit_and (← get_rs2 c) 0x1F)))

  unfoldable pub sraiw : Action (Unit {0})
  sraiw = do require_rv64 c; write_rd c (sext32 (sra64 (sext 32 (← get_rs1 c)) (shamt c)))

  unfoldable pub sraw : Action (Unit {0})
  sraw = do
    require_rv64 c
    write_rd c (sext32 (sra64 (sext 32 (← get_rs1 c)) (bit_and (← get_rs2 c) 0x1F)))
