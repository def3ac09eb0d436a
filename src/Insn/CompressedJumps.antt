-- ===== src/Insn/CompressedJumps.antt =====
-- The jumps of the compressed extension: riscv-isa-sim/riscv/insns/.
use cmpe220fall.Base.{ℕ, not, bit_and, ◌==◌, if◌then◌else◌}
use cmpe220fall.Base.Word.{add64, not64}
use cmpe220fall.Decode
use cmpe220fall.Machine.{Action, ◌>>=◌, ◌>>◌, pure, require, write_reg}
use cmpe220fall.Insn.Context.{Context, sext32, write_rd, require_extension, set_pc, ext_c}
use cmpe220fall.Insn.Compressed.{rvc_rs1, rvc_rs1s, x_ra}

module _ (c : Context) where
  unfoldable pub c_jal_link : ℕ → Action ℕ
  c_jal_link npc = do
    target ← set_pc c (add64 c.pc (Decode.rvc_j_imm c.insn))
    write_reg x_ra npc
    pure target

  unfoldable pub c_addiw : Action (Unit {0})
  c_addiw = do
    require (not (Decode.rvc_rd c.insn == 0))
    write_rd c (sext32 (add64 (← rvc_rs1 c) (Decode.rvc_imm c.insn)))

  unfoldable pub c_j : ℕ → Action ℕ
  c_j npc = do require_extension ext_c; set_pc c (add64 c.pc (Decode.rvc_j_imm c.insn))

  unfoldable pub c_jal : ℕ → Action ℕ
  c_jal npc = do
    require_extension ext_c
    if c.xlen == 32 then c_jal_link npc else (c_addiw >> pure npc)

  unfoldable pub c_jalr : ℕ → Action ℕ
  c_jalr npc = do
    require_extension ext_c
    require (not (Decode.rvc_rs1 c.insn == 0))
    target ← set_pc c (bit_and (← rvc_rs1 c) (not64 1))
    write_reg x_ra npc
    pure target

  unfoldable pub c_jr : ℕ → Action ℕ
  c_jr npc = do
    require_extension ext_c
    require (not (Decode.rvc_rs1 c.insn == 0))
    set_pc c (bit_and (← rvc_rs1 c) (not64 1))

  unfoldable pub c_beqz : ℕ → Action ℕ
  c_beqz npc = do
    require_extension ext_c
    a ← rvc_rs1s c
    if a == 0 then set_pc c (add64 c.pc (Decode.rvc_b_imm c.insn)) else pure npc

  unfoldable pub c_bnez : ℕ → Action ℕ
  c_bnez npc = do
    require_extension ext_c
    a ← rvc_rs1s c
    if not (a == 0) then set_pc c (add64 c.pc (Decode.rvc_b_imm c.insn)) else pure npc
