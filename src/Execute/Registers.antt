-- ===== src/Execute/Registers.antt =====
-- What the instruction functions of Execute/Dispatch keep.
use cmpe220fall.Machine.{Action, Bus, Hart}
use cmpe220fall.Opcode.Names.{
  Opcode, add, addi, addiw, addw, amoadd_d, amoadd_w, amoand_d, amoand_w, amomax_d, amomax_w,
  amomaxu_d, amomaxu_w, amomin_d, amomin_w, amominu_d, amominu_w, amoor_d, amoor_w, amoswap_d,
  amoswap_w, amoxor_d, amoxor_w, and, andi, auipc, beq, bge, bgeu, blt, bltu, bne, c_add, c_addi,
  c_addi4spn, c_addw, c_and, c_andi, c_beqz, c_bnez, c_ebreak, c_fld, c_fldsp, c_flw, c_flwsp,
  c_fsd, c_fsdsp, c_fsw, c_fswsp, c_j, c_jal, c_jalr, c_jr, c_li, c_lui, c_lw, c_lwsp, c_mv, c_or,
  c_slli, c_srai, c_srli, c_sub, c_subw, c_sw, c_swsp, c_xor, csrrc, csrrci, csrrs, csrrsi, csrrw,
  csrrwi, div, divu, divuw, divw, fadd_d, fadd_s, fclass_d, fclass_s, fcvt_d_l, fcvt_d_lu, fcvt_d_s,
  fcvt_d_w, fcvt_d_wu, fcvt_l_d, fcvt_l_s, fcvt_lu_d, fcvt_lu_s, fcvt_s_d, fcvt_s_l, fcvt_s_lu,
  fcvt_s_w, fcvt_s_wu, fcvt_w_d, fcvt_w_s, fcvt_wu_d, fcvt_wu_s, fdiv_d, fdiv_s, fence, fence_i,
  feq_d, feq_s, fld, fle_d, fle_s, flt_d, flt_s, flw, fmadd_d, fmadd_s, fmax_d, fmax_s, fmin_d,
  fmin_s, fmsub_d, fmsub_s, fmul_d, fmul_s, fmv_d_x, fmv_s_x, fmv_x_d, fmv_x_s, fnmadd_d, fnmadd_s,
  fnmsub_d, fnmsub_s, fsd, fsgnj_d, fsgnj_s, fsgnjn_d, fsgnjn_s, fsgnjx_d, fsgnjx_s, fsqrt_d,
  fsqrt_s, fsub_d, fsub_s, fsw, hrts, jal, jalr, lb, lbu, ld, lh, lhu, lr_d, lr_w, lui, lw, lwu,
  mrth, mrts, mul, mulh, mulhsu, mulhu, mulw, or, ori, rem, remu, remuw, remw, sb, sbreak, sc_d,
  sc_w, scall, sd, sfence_vm, sh, sll, slli, slliw, sllw, slt, slti, sltiu, sltu, sra, srai, sraiw,
  sraw, sret, srl, srli, srliw, srlw, sub, subw, sw, wfi, xor, xori,
}
use cmpe220fall.Insn.Context.{Context, straight, next_pc}
use cmpe220fall.Insn.FloatContext.{SoftFloat, IsSoftFloat}
use cmpe220fall.Insn.Registers.{IsContext, KeepsRegs}
use cmpe220fall.Insn.AluRegs.{
  add-KeepsRegs, addi-KeepsRegs, addiw-KeepsRegs, addw-KeepsRegs, and-KeepsRegs, andi-KeepsRegs,
  auipc-KeepsRegs, lui-KeepsRegs, or-KeepsRegs, ori-KeepsRegs, sll-KeepsRegs, slli-KeepsRegs,
  slliw-KeepsRegs, sllw-KeepsRegs, slt-KeepsRegs, slti-KeepsRegs, sltiu-KeepsRegs, sltu-KeepsRegs,
  sra-KeepsRegs, srai-KeepsRegs, sraiw-KeepsRegs, sraw-KeepsRegs, srl-KeepsRegs, srli-KeepsRegs,
  srliw-KeepsRegs, srlw-KeepsRegs, sub-KeepsRegs, subw-KeepsRegs, xor-KeepsRegs, xori-KeepsRegs,
}
use cmpe220fall.Insn.WideRegs.{
  amoadd_d-KeepsRegs, amoand_d-KeepsRegs, amomax_d-KeepsRegs, amomaxu_d-KeepsRegs,
  amomin_d-KeepsRegs, amominu_d-KeepsRegs, amoor_d-KeepsRegs, amoswap_d-KeepsRegs,
  amoxor_d-KeepsRegs, lbu-KeepsRegs, ld-KeepsRegs, lhu-KeepsRegs, lr_d-KeepsRegs, lr_w-KeepsRegs,
  lwu-KeepsRegs, sc_d-KeepsRegs, sc_w-KeepsRegs,
}
use cmpe220fall.Insn.MemoryRegs.{
  RegsBus, amoadd_w-KeepsRegs, amoand_w-KeepsRegs, amomax_w-KeepsRegs, amomaxu_w-KeepsRegs,
  amomin_w-KeepsRegs, amominu_w-KeepsRegs, amoor_w-KeepsRegs, amoswap_w-KeepsRegs,
  amoxor_w-KeepsRegs, lb-KeepsRegs, lh-KeepsRegs, lw-KeepsRegs, sb-KeepsRegs, sd-KeepsRegs,
  sh-KeepsRegs, sw-KeepsRegs,
}
use cmpe220fall.Insn.JumpRegs.{
  beq-KeepsJump, bge-KeepsJump, bgeu-KeepsJump, blt-KeepsJump, bltu-KeepsJump, bne-KeepsJump,
  jal-KeepsJump, jalr-KeepsJump, KeepsJump, jump-then, jump-pure, next_pc-IsCanonical,
}
use cmpe220fall.Insn.CompressedRegs.{
  c_add-KeepsRegs, c_addi-KeepsRegs, c_addw-KeepsRegs, c_and-KeepsRegs, c_andi-KeepsRegs,
  c_li-KeepsRegs, c_mv-KeepsRegs, c_or-KeepsRegs, c_slli-KeepsRegs, c_srai-KeepsRegs,
  c_srli-KeepsRegs, c_sub-KeepsRegs, c_subw-KeepsRegs, c_xor-KeepsRegs,
}
use cmpe220fall.Insn.FloatMemoryRegs.{
  c_addi4spn-KeepsRegs, c_ebreak-KeepsRegs, c_fld-KeepsRegs, c_fldsp-KeepsRegs, c_flw-KeepsRegs,
  c_flwsp-KeepsRegs, c_fsd-KeepsRegs, c_fsdsp-KeepsRegs, c_fsw-KeepsRegs, c_fswsp-KeepsRegs,
  c_lui-KeepsRegs, c_lw-KeepsRegs, c_lwsp-KeepsRegs, c_sw-KeepsRegs, c_swsp-KeepsRegs,
  fld-KeepsRegs, flw-KeepsRegs, fsd-KeepsRegs, fsw-KeepsRegs,
}
use cmpe220fall.Insn.CompressedJumpRegs.{
  c_beqz-KeepsJump, c_bnez-KeepsJump, c_j-KeepsJump, c_jal-KeepsJump, c_jalr-KeepsJump,
  c_jr-KeepsJump, mrts-KeepsJump, sret-KeepsJump,
}
use cmpe220fall.Insn.SystemRegs.{
  RegsHost, csrrc-KeepsRegs, csrrci-KeepsRegs, csrrs-KeepsRegs, csrrsi-KeepsRegs, csrrw-KeepsRegs,
  csrrwi-KeepsRegs, fence-KeepsRegs, fence_i-KeepsRegs, hrts-KeepsRegs, mrth-KeepsRegs,
  sbreak-KeepsRegs, scall-KeepsRegs, sfence_vm-KeepsRegs, wfi-KeepsRegs,
}
use cmpe220fall.Insn.MulDivRegs.{
  div-KeepsRegs, divu-KeepsRegs, divuw-KeepsRegs, divw-KeepsRegs, mul-KeepsRegs, mulw-KeepsRegs,
  rem-KeepsRegs, remu-KeepsRegs, remuw-KeepsRegs, remw-KeepsRegs,
}
use cmpe220fall.Insn.FloatRegs.Arith.{
  fadd_d-KeepsRegs, fadd_s-KeepsRegs, fdiv_d-KeepsRegs, fdiv_s-KeepsRegs, fmadd_d-KeepsRegs,
  fmadd_s-KeepsRegs, fmsub_d-KeepsRegs, fmsub_s-KeepsRegs, fmul_d-KeepsRegs, fmul_s-KeepsRegs,
  fnmadd_d-KeepsRegs, fnmadd_s-KeepsRegs, fnmsub_d-KeepsRegs, fnmsub_s-KeepsRegs, fsqrt_d-KeepsRegs,
  fsqrt_s-KeepsRegs, fsub_d-KeepsRegs, fsub_s-KeepsRegs,
}
use cmpe220fall.Insn.FloatRegs.Tests.{
  fclass_d-KeepsRegs, fclass_s-KeepsRegs, feq_d-KeepsRegs, feq_s-KeepsRegs, fle_d-KeepsRegs,
  fle_s-KeepsRegs, flt_d-KeepsRegs, flt_s-KeepsRegs, fmax_d-KeepsRegs, fmax_s-KeepsRegs,
  fmin_d-KeepsRegs, fmin_s-KeepsRegs, fsgnj_d-KeepsRegs, fsgnj_s-KeepsRegs, fsgnjn_d-KeepsRegs,
  fsgnjn_s-KeepsRegs, fsgnjx_d-KeepsRegs, fsgnjx_s-KeepsRegs,
}
use cmpe220fall.Insn.FloatRegs.Moves.{
  fcvt_d_l-KeepsRegs, fcvt_d_lu-KeepsRegs, fcvt_d_s-KeepsRegs, fcvt_d_w-KeepsRegs,
  fcvt_d_wu-KeepsRegs, fcvt_l_d-KeepsRegs, fcvt_l_s-KeepsRegs, fcvt_lu_d-KeepsRegs,
  fcvt_lu_s-KeepsRegs, fcvt_s_d-KeepsRegs, fcvt_s_l-KeepsRegs, fcvt_s_lu-KeepsRegs,
  fcvt_s_w-KeepsRegs, fcvt_s_wu-KeepsRegs, fcvt_w_d-KeepsRegs, fcvt_w_s-KeepsRegs,
  fcvt_wu_d-KeepsRegs, fcvt_wu_s-KeepsRegs, fmv_d_x-KeepsRegs, fmv_s_x-KeepsRegs, fmv_x_d-KeepsRegs,
  fmv_x_s-KeepsRegs,
}
use cmpe220fall.Insn.HighRegs.{mulh-KeepsRegs, mulhsu-KeepsRegs, mulhu-KeepsRegs}
use cmpe220fall.Execute.Dispatch.{execute}

straight-KeepsJump :
    (c : Context) (k : IsContext c) (body : Action (Unit {0}))
    → KeepsRegs c.xlen body
    → KeepsJump c.xlen (straight c body)
unfolding straight
straight-KeepsJump c k body kb =
    jump-then c.xlen body _ kb λ u. jump-pure c.xlen (next_pc c) (next_pc-IsCanonical c k)

module _ (bus : Bus) (b : RegsBus bus) (host : Hart → Hart) (tk : RegsHost host) (sf : SoftFloat)
    (s : IsSoftFloat sf) where
  -- On a bus whose devices keep well-formed register files and answer within the bytes asked for,
  -- with a host whose ticks keep them too, and for a softfloat that gives numbers of 64 bits, every
  -- instruction function, in a frame of width 32 or 64 with a sign-extended instruction word and on
  -- a hart of that width, keeps well-formed register files, however it ends, and an address that it
  -- returns is in the form of the width.
  pub execute-KeepsJump :
      (o : Opcode) (c : Context) → IsContext c → KeepsJump c.xlen (execute bus host sf o c)
  unfolding execute
  execute-KeepsJump add c k = straight-KeepsJump c k _ (add-KeepsRegs c k)
  execute-KeepsJump addi c k = straight-KeepsJump c k _ (addi-KeepsRegs c k)
  execute-KeepsJump addiw c k = straight-KeepsJump c k _ (addiw-KeepsRegs c k)
  execute-KeepsJump addw c k = straight-KeepsJump c k _ (addw-KeepsRegs c k)
  execute-KeepsJump amoadd_d c k = straight-KeepsJump c k _ (amoadd_d-KeepsRegs bus b c k)
  execute-KeepsJump amoadd_w c k = straight-KeepsJump c k _ (amoadd_w-KeepsRegs bus b c k)
  execute-KeepsJump amoand_d c k = straight-KeepsJump c k _ (amoand_d-KeepsRegs bus b c k)
  execute-KeepsJump amoand_w c k = straight-KeepsJump c k _ (amoand_w-KeepsRegs bus b c k)
  execute-KeepsJump amomax_d c k = straight-KeepsJump c k _ (amomax_d-KeepsRegs bus b c k)
  execute-KeepsJump amomax_w c k = straight-KeepsJump c k _ (amomax_w-KeepsRegs bus b c k)
  execute-KeepsJump amomaxu_d c k = straight-KeepsJump c k _ (amomaxu_d-KeepsRegs bus b c k)
  execute-KeepsJump amomaxu_w c k = straight-KeepsJump c k _ (amomaxu_w-KeepsRegs bus b c k)
  execute-KeepsJump amomin_d c k = straight-KeepsJump c k _ (amomin_d-KeepsRegs bus b c k)
  execute-KeepsJump amomin_w c k = straight-KeepsJump c k _ (amomin_w-KeepsRegs bus b c k)
  execute-KeepsJump amominu_d c k = straight-KeepsJump c k _ (amominu_d-KeepsRegs bus b c k)
  execute-KeepsJump amominu_w c k = straight-KeepsJump c k _ (amominu_w-KeepsRegs bus b c k)
  execute-KeepsJump amoor_d c k = straight-KeepsJump c k _ (amoor_d-KeepsRegs bus b c k)
  execute-KeepsJump amoor_w c k = straight-KeepsJump c k _ (amoor_w-KeepsRegs bus b c k)
  execute-KeepsJump amoswap_d c k = straight-KeepsJump c k _ (amoswap_d-KeepsRegs bus b c k)
  execute-KeepsJump amoswap_w c k = straight-KeepsJump c k _ (amoswap_w-KeepsRegs bus b c k)
  execute-KeepsJump amoxor_d c k = straight-KeepsJump c k _ (amoxor_d-KeepsRegs bus b c k)
  execute-KeepsJump amoxor_w c k = straight-KeepsJump c k _ (amoxor_w-KeepsRegs bus b c k)
  execute-KeepsJump and c k = straight-KeepsJump c k _ (and-KeepsRegs c k)
  execute-KeepsJump andi c k = straight-KeepsJump c k _ (andi-KeepsRegs c k)
  execute-KeepsJump auipc c k = straight-KeepsJump c k _ (auipc-KeepsRegs c k)
  execute-KeepsJump beq c k = beq-KeepsJump c k
  execute-KeepsJump bge c k = bge-KeepsJump c k
  execute-KeepsJump bgeu c k = bgeu-KeepsJump c k
  execute-KeepsJump blt c k = blt-KeepsJump c k
  execute-KeepsJump bltu c k = bltu-KeepsJump c k
  execute-KeepsJump bne c k = bne-KeepsJump c k
  execute-KeepsJump c_add c k = straight-KeepsJump c k _ (c_add-KeepsRegs c k)
  execute-KeepsJump c_addi c k = straight-KeepsJump c k _ (c_addi-KeepsRegs c k)
  execute-KeepsJump c_addi4spn c k = straight-KeepsJump c k _ (c_addi4spn-KeepsRegs c k)
  execute-KeepsJump c_addw c k = straight-KeepsJump c k _ (c_addw-KeepsRegs c k)
  execute-KeepsJump c_and c k = straight-KeepsJump c k _ (c_and-KeepsRegs c k)
  execute-KeepsJump c_andi c k = straight-KeepsJump c k _ (c_andi-KeepsRegs c k)
  execute-KeepsJump c_beqz c k = c_beqz-KeepsJump c k
  execute-KeepsJump c_bnez c k = c_bnez-KeepsJump c k
  execute-KeepsJump c_ebreak c k = straight-KeepsJump c k _ (c_ebreak-KeepsRegs c k)
  execute-KeepsJump c_fld c k = straight-KeepsJump c k _ (c_fld-KeepsRegs bus b c k)
  execute-KeepsJump c_fldsp c k = straight-KeepsJump c k _ (c_fldsp-KeepsRegs bus b c k)
  execute-KeepsJump c_flw c k = straight-KeepsJump c k _ (c_flw-KeepsRegs bus b c k)
  execute-KeepsJump c_flwsp c k = straight-KeepsJump c k _ (c_flwsp-KeepsRegs bus b c k)
  execute-KeepsJump c_fsd c k = straight-KeepsJump c k _ (c_fsd-KeepsRegs bus b c k)
  execute-KeepsJump c_fsdsp c k = straight-KeepsJump c k _ (c_fsdsp-KeepsRegs bus b c k)
  execute-KeepsJump c_fsw c k = straight-KeepsJump c k _ (c_fsw-KeepsRegs bus b c k)
  execute-KeepsJump c_fswsp c k = straight-KeepsJump c k _ (c_fswsp-KeepsRegs bus b c k)
  execute-KeepsJump c_j c k = c_j-KeepsJump c k
  execute-KeepsJump c_jal c k = c_jal-KeepsJump c k
  execute-KeepsJump c_jalr c k = c_jalr-KeepsJump c k
  execute-KeepsJump c_jr c k = c_jr-KeepsJump c k
  execute-KeepsJump c_li c k = straight-KeepsJump c k _ (c_li-KeepsRegs c k)
  execute-KeepsJump c_lui c k = straight-KeepsJump c k _ (c_lui-KeepsRegs c k)
  execute-KeepsJump c_lw c k = straight-KeepsJump c k _ (c_lw-KeepsRegs bus b c k)
  execute-KeepsJump c_lwsp c k = straight-KeepsJump c k _ (c_lwsp-KeepsRegs bus b c k)
  execute-KeepsJump c_mv c k = straight-KeepsJump c k _ (c_mv-KeepsRegs c k)
  execute-KeepsJump c_or c k = straight-KeepsJump c k _ (c_or-KeepsRegs c k)
  execute-KeepsJump c_slli c k = straight-KeepsJump c k _ (c_slli-KeepsRegs c k)
  execute-KeepsJump c_srai c k = straight-KeepsJump c k _ (c_srai-KeepsRegs c k)
  execute-KeepsJump c_srli c k = straight-KeepsJump c k _ (c_srli-KeepsRegs c k)
  execute-KeepsJump c_sub c k = straight-KeepsJump c k _ (c_sub-KeepsRegs c k)
  execute-KeepsJump c_subw c k = straight-KeepsJump c k _ (c_subw-KeepsRegs c k)
  execute-KeepsJump c_sw c k = straight-KeepsJump c k _ (c_sw-KeepsRegs bus b c k)
  execute-KeepsJump c_swsp c k = straight-KeepsJump c k _ (c_swsp-KeepsRegs bus b c k)
  execute-KeepsJump c_xor c k = straight-KeepsJump c k _ (c_xor-KeepsRegs c k)
  execute-KeepsJump csrrc c k = straight-KeepsJump c k _ (csrrc-KeepsRegs host tk c k)
  execute-KeepsJump csrrci c k = straight-KeepsJump c k _ (csrrci-KeepsRegs host tk c k)
  execute-KeepsJump csrrs c k = straight-KeepsJump c k _ (csrrs-KeepsRegs host tk c k)
  execute-KeepsJump csrrsi c k = straight-KeepsJump c k _ (csrrsi-KeepsRegs host tk c k)
  execute-KeepsJump csrrw c k = straight-KeepsJump c k _ (csrrw-KeepsRegs host tk c k)
  execute-KeepsJump csrrwi c k = straight-KeepsJump c k _ (csrrwi-KeepsRegs host tk c k)
  execute-KeepsJump div c k = straight-KeepsJump c k _ (div-KeepsRegs c k)
  execute-KeepsJump divu c k = straight-KeepsJump c k _ (divu-KeepsRegs c k)
  execute-KeepsJump divuw c k = straight-KeepsJump c k _ (divuw-KeepsRegs c k)
  execute-KeepsJump divw c k = straight-KeepsJump c k _ (divw-KeepsRegs c k)
  execute-KeepsJump fadd_d c k = straight-KeepsJump c k _ (fadd_d-KeepsRegs sf s c k)
  execute-KeepsJump fadd_s c k = straight-KeepsJump c k _ (fadd_s-KeepsRegs sf s c k)
  execute-KeepsJump fclass_d c k = straight-KeepsJump c k _ (fclass_d-KeepsRegs sf s c k)
  execute-KeepsJump fclass_s c k = straight-KeepsJump c k _ (fclass_s-KeepsRegs sf s c k)
  execute-KeepsJump fcvt_d_l c k = straight-KeepsJump c k _ (fcvt_d_l-KeepsRegs sf s c k)
  execute-KeepsJump fcvt_d_lu c k = straight-KeepsJump c k _ (fcvt_d_lu-KeepsRegs sf s c k)
  execute-KeepsJump fcvt_d_s c k = straight-KeepsJump c k _ (fcvt_d_s-KeepsRegs sf s c k)
  execute-KeepsJump fcvt_d_w c k = straight-KeepsJump c k _ (fcvt_d_w-KeepsRegs sf s c k)
  execute-KeepsJump fcvt_d_wu c k = straight-KeepsJump c k _ (fcvt_d_wu-KeepsRegs sf s c k)
  execute-KeepsJump fcvt_l_d c k = straight-KeepsJump c k _ (fcvt_l_d-KeepsRegs sf s c k)
  execute-KeepsJump fcvt_l_s c k = straight-KeepsJump c k _ (fcvt_l_s-KeepsRegs sf s c k)
  execute-KeepsJump fcvt_lu_d c k = straight-KeepsJump c k _ (fcvt_lu_d-KeepsRegs sf s c k)
  execute-KeepsJump fcvt_lu_s c k = straight-KeepsJump c k _ (fcvt_lu_s-KeepsRegs sf s c k)
  execute-KeepsJump fcvt_s_d c k = straight-KeepsJump c k _ (fcvt_s_d-KeepsRegs sf s c k)
  execute-KeepsJump fcvt_s_l c k = straight-KeepsJump c k _ (fcvt_s_l-KeepsRegs sf s c k)
  execute-KeepsJump fcvt_s_lu c k = straight-KeepsJump c k _ (fcvt_s_lu-KeepsRegs sf s c k)
  execute-KeepsJump fcvt_s_w c k = straight-KeepsJump c k _ (fcvt_s_w-KeepsRegs sf s c k)
  execute-KeepsJump fcvt_s_wu c k = straight-KeepsJump c k _ (fcvt_s_wu-KeepsRegs sf s c k)
  execute-KeepsJump fcvt_w_d c k = straight-KeepsJump c k _ (fcvt_w_d-KeepsRegs sf s c k)
  execute-KeepsJump fcvt_w_s c k = straight-KeepsJump c k _ (fcvt_w_s-KeepsRegs sf s c k)
  execute-KeepsJump fcvt_wu_d c k = straight-KeepsJump c k _ (fcvt_wu_d-KeepsRegs sf s c k)
  execute-KeepsJump fcvt_wu_s c k = straight-KeepsJump c k _ (fcvt_wu_s-KeepsRegs sf s c k)
  execute-KeepsJump fdiv_d c k = straight-KeepsJump c k _ (fdiv_d-KeepsRegs sf s c k)
  execute-KeepsJump fdiv_s c k = straight-KeepsJump c k _ (fdiv_s-KeepsRegs sf s c k)
  execute-KeepsJump fence c k = straight-KeepsJump c k _ (fence-KeepsRegs c.xlen)
  execute-KeepsJump fence_i c k = straight-KeepsJump c k _ (fence_i-KeepsRegs c.xlen)
  execute-KeepsJump feq_d c k = straight-KeepsJump c k _ (feq_d-KeepsRegs sf s c k)
  execute-KeepsJump feq_s c k = straight-KeepsJump c k _ (feq_s-KeepsRegs sf s c k)
  execute-KeepsJump fld c k = straight-KeepsJump c k _ (fld-KeepsRegs bus b c k)
  execute-KeepsJump fle_d c k = straight-KeepsJump c k _ (fle_d-KeepsRegs sf s c k)
  execute-KeepsJump fle_s c k = straight-KeepsJump c k _ (fle_s-KeepsRegs sf s c k)
  execute-KeepsJump flt_d c k = straight-KeepsJump c k _ (flt_d-KeepsRegs sf s c k)
  execute-KeepsJump flt_s c k = straight-KeepsJump c k _ (flt_s-KeepsRegs sf s c k)
  execute-KeepsJump flw c k = straight-KeepsJump c k _ (flw-KeepsRegs bus b c k)
  execute-KeepsJump fmadd_d c k = straight-KeepsJump c k _ (fmadd_d-KeepsRegs sf s c k)
  execute-KeepsJump fmadd_s c k = straight-KeepsJump c k _ (fmadd_s-KeepsRegs sf s c k)
  execute-KeepsJump fmax_d c k = straight-KeepsJump c k _ (fmax_d-KeepsRegs sf s c k)
  execute-KeepsJump fmax_s c k = straight-KeepsJump c k _ (fmax_s-KeepsRegs sf s c k)
  execute-KeepsJump fmin_d c k = straight-KeepsJump c k _ (fmin_d-KeepsRegs sf s c k)
  execute-KeepsJump fmin_s c k = straight-KeepsJump c k _ (fmin_s-KeepsRegs sf s c k)
  execute-KeepsJump fmsub_d c k = straight-KeepsJump c k _ (fmsub_d-KeepsRegs sf s c k)
  execute-KeepsJump fmsub_s c k = straight-KeepsJump c k _ (fmsub_s-KeepsRegs sf s c k)
  execute-KeepsJump fmul_d c k = straight-KeepsJump c k _ (fmul_d-KeepsRegs sf s c k)
  execute-KeepsJump fmul_s c k = straight-KeepsJump c k _ (fmul_s-KeepsRegs sf s c k)
  execute-KeepsJump fmv_d_x c k = straight-KeepsJump c k _ (fmv_d_x-KeepsRegs sf s c k)
  execute-KeepsJump fmv_s_x c k = straight-KeepsJump c k _ (fmv_s_x-KeepsRegs sf s c k)
  execute-KeepsJump fmv_x_d c k = straight-KeepsJump c k _ (fmv_x_d-KeepsRegs sf s c k)
  execute-KeepsJump fmv_x_s c k = straight-KeepsJump c k _ (fmv_x_s-KeepsRegs sf s c k)
  execute-KeepsJump fnmadd_d c k = straight-KeepsJump c k _ (fnmadd_d-KeepsRegs sf s c k)
  execute-KeepsJump fnmadd_s c k = straight-KeepsJump c k _ (fnmadd_s-KeepsRegs sf s c k)
  execute-KeepsJump fnmsub_d c k = straight-KeepsJump c k _ (fnmsub_d-KeepsRegs sf s c k)
  execute-KeepsJump fnmsub_s c k = straight-KeepsJump c k _ (fnmsub_s-KeepsRegs sf s c k)
  execute-KeepsJump fsd c k = straight-KeepsJump c k _ (fsd-KeepsRegs bus b c k)
  execute-KeepsJump fsgnj_d c k = straight-KeepsJump c k _ (fsgnj_d-KeepsRegs sf s c k)
  execute-KeepsJump fsgnj_s c k = straight-KeepsJump c k _ (fsgnj_s-KeepsRegs sf s c k)
  execute-KeepsJump fsgnjn_d c k = straight-KeepsJump c k _ (fsgnjn_d-KeepsRegs sf s c k)
  execute-KeepsJump fsgnjn_s c k = straight-KeepsJump c k _ (fsgnjn_s-KeepsRegs sf s c k)
  execute-KeepsJump fsgnjx_d c k = straight-KeepsJump c k _ (fsgnjx_d-KeepsRegs sf s c k)
  execute-KeepsJump fsgnjx_s c k = straight-KeepsJump c k _ (fsgnjx_s-KeepsRegs sf s c k)
  execute-KeepsJump fsqrt_d c k = straight-KeepsJump c k _ (fsqrt_d-KeepsRegs sf s c k)
  execute-KeepsJump fsqrt_s c k = straight-KeepsJump c k _ (fsqrt_s-KeepsRegs sf s c k)
  execute-KeepsJump fsub_d c k = straight-KeepsJump c k _ (fsub_d-KeepsRegs sf s c k)
  execute-KeepsJump fsub_s c k = straight-KeepsJump c k _ (fsub_s-KeepsRegs sf s c k)
  execute-KeepsJump fsw c k = straight-KeepsJump c k _ (fsw-KeepsRegs bus b c k)
  execute-KeepsJump hrts c k = straight-KeepsJump c k _ (hrts-KeepsRegs c.xlen)
  execute-KeepsJump jal c k = jal-KeepsJump c k
  execute-KeepsJump jalr c k = jalr-KeepsJump c k
  execute-KeepsJump lb c k = straight-KeepsJump c k _ (lb-KeepsRegs bus b c k)
  execute-KeepsJump lbu c k = straight-KeepsJump c k _ (lbu-KeepsRegs bus b c k)
  execute-KeepsJump ld c k = straight-KeepsJump c k _ (ld-KeepsRegs bus b c k)
  execute-KeepsJump lh c k = straight-KeepsJump c k _ (lh-KeepsRegs bus b c k)
  execute-KeepsJump lhu c k = straight-KeepsJump c k _ (lhu-KeepsRegs bus b c k)
  execute-KeepsJump lr_d c k = straight-KeepsJump c k _ (lr_d-KeepsRegs bus b c k)
  execute-KeepsJump lr_w c k = straight-KeepsJump c k _ (lr_w-KeepsRegs bus b c k)
  execute-KeepsJump lui c k = straight-KeepsJump c k _ (lui-KeepsRegs c k)
  execute-KeepsJump lw c k = straight-KeepsJump c k _ (lw-KeepsRegs bus b c k)
  execute-KeepsJump lwu c k = straight-KeepsJump c k _ (lwu-KeepsRegs bus b c k)
  execute-KeepsJump mrth c k = straight-KeepsJump c k _ (mrth-KeepsRegs c.xlen)
  execute-KeepsJump mrts c k = mrts-KeepsJump c k
  execute-KeepsJump mul c k = straight-KeepsJump c k _ (mul-KeepsRegs c k)
  execute-KeepsJump mulh c k = straight-KeepsJump c k _ (mulh-KeepsRegs c k)
  execute-KeepsJump mulhsu c k = straight-KeepsJump c k _ (mulhsu-KeepsRegs c k)
  execute-KeepsJump mulhu c k = straight-KeepsJump c k _ (mulhu-KeepsRegs c k)
  execute-KeepsJump mulw c k = straight-KeepsJump c k _ (mulw-KeepsRegs c k)
  execute-KeepsJump or c k = straight-KeepsJump c k _ (or-KeepsRegs c k)
  execute-KeepsJump ori c k = straight-KeepsJump c k _ (ori-KeepsRegs c k)
  execute-KeepsJump rem c k = straight-KeepsJump c k _ (rem-KeepsRegs c k)
  execute-KeepsJump remu c k = straight-KeepsJump c k _ (remu-KeepsRegs c k)
  execute-KeepsJump remuw c k = straight-KeepsJump c k _ (remuw-KeepsRegs c k)
  execute-KeepsJump remw c k = straight-KeepsJump c k _ (remw-KeepsRegs c k)
  execute-KeepsJump sb c k = straight-KeepsJump c k _ (sb-KeepsRegs bus b c k)
  execute-KeepsJump sbreak c k = straight-KeepsJump c k _ (sbreak-KeepsRegs c.xlen)
  execute-KeepsJump sc_d c k = straight-KeepsJump c k _ (sc_d-KeepsRegs bus b c k)
  execute-KeepsJump sc_w c k = straight-KeepsJump c k _ (sc_w-KeepsRegs bus b c k)
  execute-KeepsJump scall c k = straight-KeepsJump c k _ (scall-KeepsRegs c.xlen)
  execute-KeepsJump sd c k = straight-KeepsJump c k _ (sd-KeepsRegs bus b c k)
  execute-KeepsJump sfence_vm c k = straight-KeepsJump c k _ (sfence_vm-KeepsRegs c.xlen)
  execute-KeepsJump sh c k = straight-KeepsJump c k _ (sh-KeepsRegs bus b c k)
  execute-KeepsJump sll c k = straight-KeepsJump c k _ (sll-KeepsRegs c k)
  execute-KeepsJump slli c k = straight-KeepsJump c k _ (slli-KeepsRegs c k)
  execute-KeepsJump slliw c k = straight-KeepsJump c k _ (slliw-KeepsRegs c k)
  execute-KeepsJump sllw c k = straight-KeepsJump c k _ (sllw-KeepsRegs c k)
  execute-KeepsJump slt c k = straight-KeepsJump c k _ (slt-KeepsRegs c k)
  execute-KeepsJump slti c k = straight-KeepsJump c k _ (slti-KeepsRegs c k)
  execute-KeepsJump sltiu c k = straight-KeepsJump c k _ (sltiu-KeepsRegs c k)
  execute-KeepsJump sltu c k = straight-KeepsJump c k _ (sltu-KeepsRegs c k)
  execute-KeepsJump sra c k = straight-KeepsJump c k _ (sra-KeepsRegs c k)
  execute-KeepsJump srai c k = straight-KeepsJump c k _ (srai-KeepsRegs c k)
  execute-KeepsJump sraiw c k = straight-KeepsJump c k _ (sraiw-KeepsRegs c k)
  execute-KeepsJump sraw c k = straight-KeepsJump c k _ (sraw-KeepsRegs c k)
  execute-KeepsJump sret c k = sret-KeepsJump c k
  execute-KeepsJump srl c k = straight-KeepsJump c k _ (srl-KeepsRegs c k)
  execute-KeepsJump srli c k = straight-KeepsJump c k _ (srli-KeepsRegs c k)
  execute-KeepsJump srliw c k = straight-KeepsJump c k _ (srliw-KeepsRegs c k)
  execute-KeepsJump srlw c k = straight-KeepsJump c k _ (srlw-KeepsRegs c k)
  execute-KeepsJump sub c k = straight-KeepsJump c k _ (sub-KeepsRegs c k)
  execute-KeepsJump subw c k = straight-KeepsJump c k _ (subw-KeepsRegs c k)
  execute-KeepsJump sw c k = straight-KeepsJump c k _ (sw-KeepsRegs bus b c k)
  execute-KeepsJump wfi c k = straight-KeepsJump c k _ (wfi-KeepsRegs c.xlen)
  execute-KeepsJump xor c k = straight-KeepsJump c k _ (xor-KeepsRegs c k)
  execute-KeepsJump xori c k = straight-KeepsJump c k _ (xori-KeepsRegs c k)
