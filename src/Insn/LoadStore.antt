-- ===== src/Insn/LoadStore.antt =====
-- Loads and stores: riscv-isa-sim/riscv/insns/.
use cmpe220fall.Base.Word.{add64}
use cmpe220fall.Decode
use cmpe220fall.Machine.{Action, Bus, ◌>>=◌, ◌>>◌}
use cmpe220fall.Insn.Context.{Context, get_rs1, get_rs2, write_rd, require_rv64}
use cmpe220fall.Mmu.Access.{load_uint, load_int, store_uint}

module _ (bus : Bus) (c : Context) where
  unfoldable pub lb : Action (Unit {0})
  lb = do write_rd c (← load_int bus 1 (add64 (← get_rs1 c) (Decode.i_imm c.insn)))

  unfoldable pub lbu : Action (Unit {0})
  lbu = do write_rd c (← load_uint bus 1 (add64 (← get_rs1 c) (Decode.i_imm c.insn)))

  unfoldable pub lh : Action (Unit {0})
  lh = do write_rd c (← load_int bus 2 (add64 (← get_rs1 c) (Decode.i_imm c.insn)))

  unfoldable pub lhu : Action (Unit {0})
  lhu = do write_rd c (← load_uint bus 2 (add64 (← get_rs1 c) (Decode.i_imm c.insn)))

  unfoldable pub lw : Action (Unit {0})
  lw = do write_rd c (← load_int bus 4 (add64 (← get_rs1 c) (Decode.i_imm c.insn)))

  unfoldable pub lwu : Action (Unit {0})
  lwu = do
    require_rv64 c
    write_rd c (← load_uint bus 4 (add64 (← get_rs1 c) (Decode.i_imm c.insn)))

  unfoldable pub ld : Action (Unit {0})
  ld = do require_rv64 c; write_rd c (← load_int bus 8 (add64 (← get_rs1 c) (Decode.i_imm c.insn)))

  unfoldable pub sb : Action (Unit {0})
  sb = do store_uint bus 1 (add64 (← get_rs1 c) (Decode.s_imm c.insn)) (← get_rs2 c)

  unfoldable pub sh : Action (Unit {0})
  sh = do store_uint bus 2 (add64 (← get_rs1 c) (Decode.s_imm c.insn)) (← get_rs2 c)

  unfoldable pub sw : Action (Unit {0})
  sw = do store_uint bus 4 (add64 (← get_rs1 c) (Decode.s_imm c.insn)) (← get_rs2 c)

  unfoldable pub sd : Action (Unit {0})
  sd = do require_rv64 c; store_uint bus 8 (add64 (← get_rs1 c) (Decode.s_imm c.insn)) (← get_rs2 c)
