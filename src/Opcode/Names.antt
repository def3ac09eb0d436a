-- ===== src/Opcode/Names.antt =====
-- The instructions: the list of riscv-isa-sim/riscv/riscv.mk.in, which are declared in encoding.h.
pub data Opcode : Type 0 where
  add addi addiw addw amoadd_d amoadd_w amoand_d amoand_w amomax_d amomax_w amomaxu_d : Opcode
  amomaxu_w amomin_d amomin_w amominu_d amominu_w amoor_d amoor_w amoswap_d amoswap_w : Opcode
  amoxor_d amoxor_w and andi auipc beq bge bgeu blt bltu bne c_add c_addi c_addi4spn : Opcode
  c_addw c_and c_andi c_beqz c_bnez c_ebreak c_fld c_fldsp c_flw c_flwsp c_fsd c_fsdsp : Opcode
  c_fsw c_fswsp c_j c_jal c_jalr c_jr c_li c_lui c_lw c_lwsp c_mv c_or c_slli c_srai : Opcode
  c_srli c_sub c_subw c_sw c_swsp c_xor csrrc csrrci csrrs csrrsi csrrw csrrwi div divu : Opcode
  divuw divw fadd_d fadd_s fclass_d fclass_s fcvt_d_l fcvt_d_lu fcvt_d_s fcvt_d_w : Opcode
  fcvt_d_wu fcvt_l_d fcvt_l_s fcvt_lu_d fcvt_lu_s fcvt_s_d fcvt_s_l fcvt_s_lu fcvt_s_w : Opcode
  fcvt_s_wu fcvt_w_d fcvt_w_s fcvt_wu_d fcvt_wu_s fdiv_d fdiv_s fence fence_i feq_d : Opcode
  feq_s fld fle_d fle_s flt_d flt_s flw fmadd_d fmadd_s fmax_d fmax_s fmin_d fmin_s : Opcode
  fmsub_d fmsub_s fmul_d fmul_s fmv_d_x fmv_s_x fmv_x_d fmv_x_s fnmadd_d fnmadd_s : Opcode
  fnmsub_d fnmsub_s fsd fsgnj_d fsgnj_s fsgnjn_d fsgnjn_s fsgnjx_d fsgnjx_s fsqrt_d : Opcode
  fsqrt_s fsub_d fsub_s fsw hrts jal jalr lb lbu ld lh lhu lr_d lr_w lui lw lwu mrth : Opcode
  mrts mul mulh mulhsu mulhu mulw or ori rem remu remuw remw sb sbreak sc_d sc_w scall : Opcode
  sd sfence_vm sh sll slli slliw sllw slt slti sltiu sltu sra srai sraiw sraw sret srl : Opcode
  srli srliw srlw sub subw sw wfi xor xori : Opcode

-- What a description points to: `rv32_NAME` or `rv64_NAME`, the two functions made from one body, or
-- `illegal_instruction`.
pub data InsnFunc : Type 0 where
  rv32 rv64 : Opcode → InsnFunc
  illegal_instruction : InsnFunc
