-- ===== src/Insn/FloatMemory.antt =====
-- Floating-point and compressed loads and stores: riscv-isa-sim/riscv/insns/.
use cmpe220fall.Base.{not, ◌==◌, if◌then◌else◌}
use cmpe220fall.Base.Word.{add64}
use cmpe220fall.Decode
use cmpe220fall.Machine.{Action, Bus, ◌>>=◌, ◌>>◌, require, read_freg}
use cmpe220fall.Insn.Context.{
  Context, get_rs1, write_rd, require_extension, require_fp, ext_c, ext_d, ext_f,
}
use cmpe220fall.Mmu.Access.{load_uint, load_int, store_uint}
use cmpe220fall.Insn.FloatContext.{get_frs2, write_freg, write_frd}
use cmpe220fall.Insn.Compressed.{rvc_rs2, rvc_rs1s, rvc_rs2s, write_rs2s, rvc_sp}

module _ (bus : Bus) (c : Context) where
  unfoldable pub flw : Action (Unit {0})
  flw = do
    require_extension ext_f
    require_fp
    write_frd c (← load_uint bus 4 (add64 (← get_rs1 c) (Decode.i_imm c.insn)))

  unfoldable pub fld : Action (Unit {0})
  fld = do
    require_extension ext_d
    require_fp
    write_frd c (← load_int bus 8 (add64 (← get_rs1 c) (Decode.i_imm c.insn)))

  unfoldable pub fsw : Action (Unit {0})
  fsw = do
    require_extension ext_f
    require_fp
    addr ← get_rs1 c
    store_uint bus 4 (add64 addr (Decode.s_imm c.insn)) (← get_frs2 c)

  unfoldable pub fsd : Action (Unit {0})
  fsd = do
    require_extension ext_d
    require_fp
    addr ← get_rs1 c
    store_uint bus 8 (add64 addr (Decode.s_imm c.insn)) (← get_frs2 c)

  unfoldable pub c_lw : Action (Unit {0})
  c_lw = do
    require_extension ext_c
    write_rs2s c (← load_int bus 4 (add64 (← rvc_rs1s c) (Decode.rvc_lw_imm c.insn)))

  unfoldable pub c_lwsp : Action (Unit {0})
  c_lwsp = do
    require_extension ext_c
    require (not (Decode.rvc_rd c.insn == 0))
    write_rd c (← load_int bus 4 (add64 (← rvc_sp) (Decode.rvc_lwsp_imm c.insn)))

  unfoldable pub c_sw : Action (Unit {0})
  c_sw = do
    require_extension ext_c
    store_uint bus 4 (add64 (← rvc_rs1s c) (Decode.rvc_lw_imm c.insn)) (← rvc_rs2s c)

  unfoldable pub c_swsp : Action (Unit {0})
  c_swsp = do
    require_extension ext_c
    store_uint bus 4 (add64 (← rvc_sp) (Decode.rvc_swsp_imm c.insn)) (← rvc_rs2 c)

  unfoldable pub c_fld : Action (Unit {0})
  c_fld = do
    require_extension ext_c
    require_extension ext_d
    require_fp
    write_freg c (Decode.rvc_rs2s c.insn)
        (← load_int bus 8 (add64 (← rvc_rs1s c) (Decode.rvc_ld_imm c.insn)))

  unfoldable pub c_fldsp : Action (Unit {0})
  c_fldsp = do
    require_extension ext_c
    require_extension ext_d
    require_fp
    write_frd c (← load_int bus 8 (add64 (← rvc_sp) (Decode.rvc_ldsp_imm c.insn)))

  unfoldable pub c_fsd : Action (Unit {0})
  c_fsd = do
    require_extension ext_c
    require_extension ext_d
    require_fp
    store_uint bus 8 (add64 (← rvc_rs1s c) (Decode.rvc_ld_imm c.insn))
        (← read_freg (Decode.rvc_rs2s c.insn))

  unfoldable pub c_fsdsp : Action (Unit {0})
  c_fsdsp = do
    require_extension ext_c
    require_extension ext_d
    require_fp
    store_uint bus 8 (add64 (← rvc_sp) (Decode.rvc_sdsp_imm c.insn))
        (← read_freg (Decode.rvc_rs2 c.insn))

  -- The branch of c_flw.h for 32-bit harts, and the other.
  unfoldable pub c_flw_rv32 : Action (Unit {0})
  c_flw_rv32 = do
    require_extension ext_f
    require_fp
    write_freg c (Decode.rvc_rs2s c.insn)
        (← load_int bus 4 (add64 (← rvc_rs1s c) (Decode.rvc_lw_imm c.insn)))

  unfoldable pub c_flw_rv64 : Action (Unit {0})
  c_flw_rv64 = do write_rs2s c (← load_int bus 8 (add64 (← rvc_rs1s c) (Decode.rvc_ld_imm c.insn)))

  unfoldable pub c_flw : Action (Unit {0})
  c_flw = do require_extension ext_c; if c.xlen == 32 then c_flw_rv32 else c_flw_rv64

  -- The branch of c_flwsp.h for 32-bit harts, and the other.
  unfoldable pub c_flwsp_rv32 : Action (Unit {0})
  c_flwsp_rv32 = do
    require_extension ext_f
    require_fp
    write_frd c (← load_int bus 4 (add64 (← rvc_sp) (Decode.rvc_lwsp_imm c.insn)))

  unfoldable pub c_flwsp_rv64 : Action (Unit {0})
  c_flwsp_rv64 = do
    require (not (Decode.rvc_rd c.insn == 0))
    write_rd c (← load_int bus 8 (add64 (← rvc_sp) (Decode.rvc_ldsp_imm c.insn)))

  unfoldable pub c_flwsp : Action (Unit {0})
  c_flwsp = do require_extension ext_c; if c.xlen == 32 then c_flwsp_rv32 else c_flwsp_rv64

  -- The branch of c_fsw.h for 32-bit harts, and the other.
  unfoldable pub c_fsw_rv32 : Action (Unit {0})
  c_fsw_rv32 = do
    require_extension ext_f
    require_fp
    store_uint bus 4 (add64 (← rvc_rs1s c) (Decode.rvc_lw_imm c.insn))
        (← read_freg (Decode.rvc_rs2s c.insn))

  unfoldable pub c_fsw_rv64 : Action (Unit {0})
  c_fsw_rv64 = do store_uint bus 8 (add64 (← rvc_rs1s c) (Decode.rvc_ld_imm c.insn)) (← rvc_rs2s c)

  unfoldable pub c_fsw : Action (Unit {0})
  c_fsw = do require_extension ext_c; if c.xlen == 32 then c_fsw_rv32 else c_fsw_rv64

  -- The branch of c_fswsp.h for 32-bit harts, and the other.
  unfoldable pub c_fswsp_rv32 : Action (Unit {0})
  c_fswsp_rv32 = do
    require_extension ext_f
    require_fp
    store_uint bus 4 (add64 (← rvc_sp) (Decode.rvc_swsp_imm c.insn))
        (← read_freg (Decode.rvc_rs2 c.insn))

  unfoldable pub c_fswsp_rv64 : Action (Unit {0})
  c_fswsp_rv64 = do store_uint bus 8 (add64 (← rvc_sp) (Decode.rvc_sdsp_imm c.insn)) (← rvc_rs2 c)

  unfoldable pub c_fswsp : Action (Unit {0})
  c_fswsp = do require_extension ext_c; if c.xlen == 32 then c_fswsp_rv32 else c_fswsp_rv64
