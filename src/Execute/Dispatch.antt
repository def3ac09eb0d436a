-- ===== src/Execute/Dispatch.antt =====
-- The instruction functions by name, as riscv-isa-sim/riscv/insn_template.cc builds them: the body
-- of riscv-isa-sim/riscv/insns/NAME.h in the frame of the width.
use cmpe220fall.Base.{ℕ}
use cmpe220fall.Machine.{Hart, Action, Bus, raise}
use cmpe220fall.Machine
use cmpe220fall.Opcode.Names.{
  Opcode, InsnFunc, rv32, rv64, illegal_instruction, add, addi, addiw, addw, amoadd_d, amoadd_w,
  amoand_d, amoand_w, amomax_d, amomax_w, amomaxu_d, amomaxu_w, amomin_d, amomin_w, amominu_d,
  amominu_w, amoor_d, amoor_w, amoswap_d, amoswap_w, amoxor_d, amoxor_w, and, andi, auipc, beq, bge,
  bgeu, blt, bltu, bne, c_add, c_addi, c_addi4spn, c_addw, c_and, c_andi, c_beqz, c_bnez, c_ebreak,
  c_fld, c_fldsp, c_flw, c_flwsp, c_fsd, c_fsdsp, c_fsw, c_fswsp, c_j, c_jal, c_jalr, c_jr, c_li,
  c_lui, c_lw, c_lwsp, c_mv, c_or, c_slli, c_srai, c_srli, c_sub, c_subw, c_sw, c_swsp, c_xor,
  csrrc, csrrci, csrrs, csrrsi, csrrw, csrrwi, div, divu, divuw, divw, fadd_d, fadd_s, fclass_d,
  fclass_s, fcvt_d_l, fcvt_d_lu, fcvt_d_s, fcvt_d_w, fcvt_d_wu, fcvt_l_d, fcvt_l_s, fcvt_lu_d,
  fcvt_lu_s, fcvt_s_d, fcvt_s_l, fcvt_s_lu, fcvt_s_w, fcvt_s_wu, fcvt_w_d, fcvt_w_s, fcvt_wu_d,
  fcvt_wu_s, fdiv_d, fdiv_s, fence, fence_i, feq_d, feq_s, fld, fle_d, fle_s, flt_d, flt_s, flw,
  fmadd_d, fmadd_s, fmax_d, fmax_s, fmin_d, fmin_s, fmsub_d, fmsub_s, fmul_d, fmul_s, fmv_d_x,
  fmv_s_x, fmv_x_d, fmv_x_s, fnmadd_d, fnmadd_s, fnmsub_d, fnmsub_s, fsd, fsgnj_d, fsgnj_s,
  fsgnjn_d, fsgnjn_s, fsgnjx_d, fsgnjx_s, fsqrt_d, fsqrt_s, fsub_d, fsub_s, fsw, hrts, jal, jalr,
  lb, lbu, ld, lh, lhu, lr_d, lr_w, lui, lw, lwu, mrth, mrts, mul, mulh, mulhsu, mulhu, mulw, or,
  ori, rem, remu, remuw, remw, sb, sbreak, sc_d, sc_w, scall, sd, sfence_vm, sh, sll, slli, slliw,
  sllw, slt, slti, sltiu, sltu, sra, srai, sraiw, sraw, sret, srl, srli, srliw, srlw, sub, subw, sw,
  wfi, xor, xori,
}
use cmpe220fall.Insn.Context.{Context, straight, jumping}
use cmpe220fall.Insn.FloatContext.{SoftFloat}
use cmpe220fall.Insn.Alu
use cmpe220fall.Insn.Words
use cmpe220fall.Insn.MulDiv
use cmpe220fall.Insn.Branch
use cmpe220fall.Insn.LoadStore
use cmpe220fall.Insn.Atomic
use cmpe220fall.Insn.System
use cmpe220fall.Insn.Compressed
use cmpe220fall.Insn.CompressedJumps
use cmpe220fall.Insn.FloatArith
use cmpe220fall.Insn.FloatTests
use cmpe220fall.Insn.FloatMoves
use cmpe220fall.Insn.FloatMemory

module _ (bus : Bus) (host : Hart → Hart) (sf : SoftFloat) where
  unfoldable pub execute : Opcode → Context → Action ℕ
  execute add c = straight c (Alu.add c)
  execute addi c = straight c (Alu.addi c)
  execute addiw c = straight c (Words.addiw c)
  execute addw c = straight c (Words.addw c)
  execute amoadd_d c = straight c (Atomic.amoadd_d bus c)
  execute amoadd_w c = straight c (Atomic.amoadd_w bus c)
  execute amoand_d c = straight c (Atomic.amoand_d bus c)
  execute amoand_w c = straight c (Atomic.amoand_w bus c)
  execute amomax_d c = straight c (Atomic.amomax_d bus c)
  execute amomax_w c = straight c (Atomic.amomax_w bus c)
  execute amomaxu_d c = straight c (Atomic.amomaxu_d bus c)
  execute amomaxu_w c = straight c (Atomic.amomaxu_w bus c)
  execute amomin_d c = straight c (Atomic.amomin_d bus c)
  execute amomin_w c = straight c (Atomic.amomin_w bus c)
  execute amominu_d c = straight c (Atomic.amominu_d bus c)
  execute amominu_w c = straight c (Atomic.amominu_w bus c)
  execute amoor_d c = straight c (Atomic.amoor_d bus c)
  execute amoor_w c = straight c (Atomic.amoor_w bus c)
  execute amoswap_d c = straight c (Atomic.amoswap_d bus c)
  execute amoswap_w c = straight c (Atomic.amoswap_w bus c)
  execute amoxor_d c = straight c (Atomic.amoxor_d bus c)
  execute amoxor_w c = straight c (Atomic.amoxor_w bus c)
  execute and c = straight c (Alu.and c)
  execute andi c = straight c (Alu.andi c)
  execute auipc c = straight c (Alu.auipc c)
  execute beq c = jumping c (Branch.beq c)
  execute bge c = jumping c (Branch.bge c)
  execute bgeu c = jumping c (Branch.bgeu c)
  execute blt c = jumping c (Branch.blt c)
  execute bltu c = jumping c (Branch.bltu c)
  execute bne c = jumping c (Branch.bne c)
  execute c_add c = straight c (Compressed.c_add c)
  execute c_addi c = straight c (Compressed.c_addi c)
  execute c_addi4spn c = straight c (Compressed.c_addi4spn c)
  execute c_addw c = straight c (Compressed.c_addw c)
  execute c_and c = straight c (Compressed.c_and c)
  execute c_andi c = straight c (Compressed.c_andi c)
  execute c_beqz c = jumping c (CompressedJumps.c_beqz c)
  execute c_bnez c = jumping c (CompressedJumps.c_bnez c)
  execute c_ebreak c = straight c (Compressed.c_ebreak c)
  execute c_fld c = straight c (FloatMemory.c_fld bus c)
  execute c_fldsp c = straight c (FloatMemory.c_fldsp bus c)
  execute c_flw c = straight c (FloatMemory.c_flw bus c)
  execute c_flwsp c = straight c (FloatMemory.c_flwsp bus c)
  execute c_fsd c = straight c (FloatMemory.c_fsd bus c)
  execute c_fsdsp c = straight c (FloatMemory.c_fsdsp bus c)
  execute c_fsw c = straight c (FloatMemory.c_fsw bus c)
  execute c_fswsp c = straight c (FloatMemory.c_fswsp bus c)
  execute c_j c = jumping c (CompressedJumps.c_j c)
  execute c_jal c = jumping c (CompressedJumps.c_jal c)
  execute c_jalr c = jumping c (CompressedJumps.c_jalr c)
  execute c_jr c = jumping c (CompressedJumps.c_jr c)
  execute c_li c = straight c (Compressed.c_li c)
  execute c_lui c = straight c (Compressed.c_lui c)
  execute c_lw c = straight c (FloatMemory.c_lw bus c)
  execute c_lwsp c = straight c (FloatMemory.c_lwsp bus c)
  execute c_mv c = straight c (Compressed.c_mv c)
  execute c_or c = straight c (Compressed.c_or c)
  execute c_slli c = straight c (Compressed.c_slli c)
  execute c_srai c = straight c (Compressed.c_srai c)
  execute c_srli c = straight c (Compressed.c_srli c)
  execute c_sub c = straight c (Compressed.c_sub c)
  execute c_subw c = straight c (Compressed.c_subw c)
  execute c_sw c = straight c (FloatMemory.c_sw bus c)
  execute c_swsp c = straight c (FloatMemory.c_swsp bus c)
  execute c_xor c = straight c (Compressed.c_xor c)
  execute csrrc c = straight c (System.csrrc host c)
  execute csrrci c = straight c (System.csrrci host c)
  execute csrrs c = straight c (System.csrrs host c)
  execute csrrsi c = straight c (System.csrrsi host c)
  execute csrrw c = straight c (System.csrrw host c)
  execute csrrwi c = straight c (System.csrrwi host c)
  execute div c = straight c (MulDiv.div c)
  execute divu c = straight c (MulDiv.divu c)
  execute divuw c = straight c (MulDiv.divuw c)
  execute divw c = straight c (MulDiv.divw c)
  execute fadd_d c = straight c (FloatArith.fadd_d sf c)
  execute fadd_s c = straight c (FloatArith.fadd_s sf c)
  execute fclass_d c = straight c (FloatTests.fclass_d sf c)
  execute fclass_s c = straight c (FloatTests.fclass_s sf c)
  execute fcvt_d_l c = straight c (FloatMoves.fcvt_d_l sf c)
  execute fcvt_d_lu c = straight c (FloatMoves.fcvt_d_lu sf c)
  execute fcvt_d_s c = straight c (FloatMoves.fcvt_d_s sf c)
  execute fcvt_d_w c = straight c (FloatMoves.fcvt_d_w sf c)
  execute fcvt_d_wu c = straight c (FloatMoves.fcvt_d_wu sf c)
  execute fcvt_l_d c = straight c (FloatMoves.fcvt_l_d sf c)
  execute fcvt_l_s c = straight c (FloatMoves.fcvt_l_s sf c)
  execute fcvt_lu_d c = straight c (FloatMoves.fcvt_lu_d sf c)
  execute fcvt_lu_s c = straight c (FloatMoves.fcvt_lu_s sf c)
  execute fcvt_s_d c = straight c (FloatMoves.fcvt_s_d sf c)
  execute fcvt_s_l c = straight c (FloatMoves.fcvt_s_l sf c)
  execute fcvt_s_lu c = straight c (FloatMoves.fcvt_s_lu sf c)
  execute fcvt_s_w c = straight c (FloatMoves.fcvt_s_w sf c)
  execute fcvt_s_wu c = straight c (FloatMoves.fcvt_s_wu sf c)
  execute fcvt_w_d c = straight c (FloatMoves.fcvt_w_d sf c)
  execute fcvt_w_s c = straight c (FloatMoves.fcvt_w_s sf c)
  execute fcvt_wu_d c = straight c (FloatMoves.fcvt_wu_d sf c)
  execute fcvt_wu_s c = straight c (FloatMoves.fcvt_wu_s sf c)
  execute fdiv_d c = straight c (FloatArith.fdiv_d sf c)
  execute fdiv_s c = straight c (FloatArith.fdiv_s sf c)
  execute fence c = straight c System.fence
  execute fence_i c = straight c System.fence_i
  execute feq_d c = straight c (FloatTests.feq_d sf c)
  execute feq_s c = straight c (FloatTests.feq_s sf c)
  execute fld c = straight c (FloatMemory.fld bus c)
  execute fle_d c = straight c (FloatTests.fle_d sf c)
  execute fle_s c = straight c (FloatTests.fle_s sf c)
  execute flt_d c = straight c (FloatTests.flt_d sf c)
  execute flt_s c = straight c (FloatTests.flt_s sf c)
  execute flw c = straight c (FloatMemory.flw bus c)
  execute fmadd_d c = straight c (FloatArith.fmadd_d sf c)
  execute fmadd_s c = straight c (FloatArith.fmadd_s sf c)
  execute fmax_d c = straight c (FloatTests.fmax_d sf c)
  execute fmax_s c = straight c (FloatTests.fmax_s sf c)
  execute fmin_d c = straight c (FloatTests.fmin_d sf c)
  execute fmin_s c = straight c (FloatTests.fmin_s sf c)
  execute fmsub_d c = straight c (FloatArith.fmsub_d sf c)
  execute fmsub_s c = straight c (FloatArith.fmsub_s sf c)
  execute fmul_d c = straight c (FloatArith.fmul_d sf c)
  execute fmul_s c = straight c (FloatArith.fmul_s sf c)
  execute fmv_d_x c = straight c (FloatMoves.fmv_d_x sf c)
  execute fmv_s_x c = straight c (FloatMoves.fmv_s_x sf c)
  execute fmv_x_d c = straight c (FloatMoves.fmv_x_d sf c)
  execute fmv_x_s c = straight c (FloatMoves.fmv_x_s sf c)
  execute fnmadd_d c = straight c (FloatArith.fnmadd_d sf c)
  execute fnmadd_s c = straight c (FloatArith.fnmadd_s sf c)
  execute fnmsub_d c = straight c (FloatArith.fnmsub_d sf c)
  execute fnmsub_s c = straight c (FloatArith.fnmsub_s sf c)
  execute fsd c = straight c (FloatMemory.fsd bus c)
  execute fsgnj_d c = straight c (FloatTests.fsgnj_d sf c)
  execute fsgnj_s c = straight c (FloatTests.fsgnj_s sf c)
  execute fsgnjn_d c = straight c (FloatTests.fsgnjn_d sf c)
  execute fsgnjn_s c = straight c (FloatTests.fsgnjn_s sf c)
  execute fsgnjx_d c = straight c (FloatTests.fsgnjx_d sf c)
  execute fsgnjx_s c = straight c (FloatTests.fsgnjx_s sf c)
  execute fsqrt_d c = straight c (FloatArith.fsqrt_d sf c)
  execute fsqrt_s c = straight c (FloatArith.fsqrt_s sf c)
  execute fsub_d c = straight c (FloatArith.fsub_d sf c)
  execute fsub_s c = straight c (FloatArith.fsub_s sf c)
  execute fsw c = straight c (FloatMemory.fsw bus c)
  execute hrts c = straight c System.hrts
  execute jal c = jumping c (Branch.jal c)
  execute jalr c = jumping c (Branch.jalr c)
  execute lb c = straight c (LoadStore.lb bus c)
  execute lbu c = straight c (LoadStore.lbu bus c)
  execute ld c = straight c (LoadStore.ld bus c)
  execute lh c = straight c (LoadStore.lh bus c)
  execute lhu c = straight c (LoadStore.lhu bus c)
  execute lr_d c = straight c (Atomic.lr_d bus c)
  execute lr_w c = straight c (Atomic.lr_w bus c)
  execute lui c = straight c (Alu.lui c)
  execute lw c = straight c (LoadStore.lw bus c)
  execute lwu c = straight c (LoadStore.lwu bus c)
  execute mrth c = straight c System.mrth
  execute mrts c = jumping c (System.mrts c)
  execute mul c = straight c (MulDiv.mul c)
  execute mulh c = straight c (MulDiv.mulh c)
  execute mulhsu c = straight c (MulDiv.mulhsu c)
  execute mulhu c = straight c (MulDiv.mulhu c)
  execute mulw c = straight c (MulDiv.mulw c)
  execute or c = straight c (Alu.or c)
  execute ori c = straight c (Alu.ori c)
  execute rem c = straight c (MulDiv.rem c)
  execute remu c = straight c (MulDiv.remu c)
  execute remuw c = straight c (MulDiv.remuw c)
  execute remw c = straight c (MulDiv.remw c)
  execute sb c = straight c (LoadStore.sb bus c)
  execute sbreak c = straight c System.sbreak
  execute sc_d c = straight c (Atomic.sc_d bus c)
  execute sc_w c = straight c (Atomic.sc_w bus c)
  execute scall c = straight c System.scall
  execute sd c = straight c (LoadStore.sd bus c)
  execute sfence_vm c = straight c System.sfence_vm
  execute sh c = straight c (LoadStore.sh bus c)
  execute sll c = straight c (Alu.sll c)
  execute slli c = straight c (Alu.slli c)
  execute slliw c = straight c (Words.slliw c)
  execute sllw c = straight c (Words.sllw c)
  execute slt c = straight c (Alu.slt c)
  execute slti c = straight c (Alu.slti c)
  execute sltiu c = straight c (Alu.sltiu c)
  execute sltu c = straight c (Alu.sltu c)
  execute sra c = straight c (Alu.sra c)
  execute srai c = straight c (Alu.srai c)
  execute sraiw c = straight c (Words.sraiw c)
  execute sraw c = straight c (Words.sraw c)
  execute sret c = jumping c (System.sret c)
  execute srl c = straight c (Alu.srl c)
  execute srli c = straight c (Alu.srli c)
  execute srliw c = straight c (Words.srliw c)
  execute srlw c = straight c (Words.srlw c)
  execute sub c = straight c (Alu.sub c)
  execute subw c = straight c (Words.subw c)
  execute sw c = straight c (LoadStore.sw bus c)
  execute wfi c = straight c System.wfi
  execute xor c = straight c (Alu.xor c)
  execute xori c = straight c (Alu.xori c)

  -- A call through an `insn_func_t`.
  unfoldable pub call_func : InsnFunc → ℕ → ℕ → Action ℕ
  unfolding execute
  call_func (rv32 o) insn pc = execute o (record { xlen = 32; insn = insn; pc = pc })
  call_func (rv64 o) insn pc = execute o (record { xlen = 64; insn = insn; pc = pc })
  call_func illegal_instruction insn pc = raise Machine.illegal_instruction
