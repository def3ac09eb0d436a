-- ===== src/Insn/Branch.antt =====
-- Branches and jumps: riscv-isa-sim/riscv/insns/. `npc` is the address of the next instruction, which
-- a body returns or replaces.
use cmpe220fall.Base.{ℕ, not, bit_and, ltb, ◌==◌, if◌then◌else◌}
use cmpe220fall.Base.Word.{add64, not64, slt64}
use cmpe220fall.Decode
use cmpe220fall.Machine.{Action, ◌>>=◌, ◌>>◌, pure}
use cmpe220fall.Insn.Context.{
  Context, get_rs1, get_rs2, write_rd, set_pc, branch_target, jump_target,
}

module _ (c : Context) where
  unfoldable pub beq : ℕ → Action ℕ
  beq npc = do a ← get_rs1 c; b ← get_rs2 c; if a == b then set_pc c (branch_target c) else pure npc

  unfoldable pub bne : ℕ → Action ℕ
  bne npc = do
    a ← get_rs1 c
    b ← get_rs2 c
    if not (a == b) then set_pc c (branch_target c) else pure npc

  unfoldable pub blt : ℕ → Action ℕ
  blt npc = do
    a ← get_rs1 c
    b ← get_rs2 c
    if slt64 a b then set_pc c (branch_target c) else pure npc

  unfoldable pub bge : ℕ → Action ℕ
  bge npc = do
    a ← get_rs1 c
    b ← get_rs2 c
    if not (slt64 a b) then set_pc c (branch_target c) else pure npc

  unfoldable pub bltu : ℕ → Action ℕ
  bltu npc = do
    a ← get_rs1 c
    b ← get_rs2 c
    if ltb a b then set_pc c (branch_target c) else pure npc

  unfoldable pub bgeu : ℕ → Action ℕ
  bgeu npc = do
    a ← get_rs1 c
    b ← get_rs2 c
    if not (ltb a b) then set_pc c (branch_target c) else pure npc

  unfoldable pub jal : ℕ → Action ℕ
  jal npc = do target ← set_pc c (jump_target c); write_rd c npc; pure target

  unfoldable pub jalr : ℕ → Action ℕ
  jalr npc = do
    target ← set_pc c (bit_and (add64 (← get_rs1 c) (Decode.i_imm c.insn)) (not64 1))
    write_rd c npc
    pure target
