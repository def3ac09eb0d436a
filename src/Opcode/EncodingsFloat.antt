-- ===== src/Opcode/EncodingsFloat.antt =====
-- The match bits and masks of riscv-isa-sim/riscv/encoding.h, in its order: the floating-point and
-- compressed instructions.
use cmpe220fall.Base.{List, [], ◌∷◌}
use cmpe220fall.Opcode.Table.{Desc}
use cmpe220fall.Opcode.Names.{
  InsnFunc, fadd_s, fsub_s, fmul_s, fdiv_s, fsgnj_s, fsgnjn_s, fsgnjx_s, fmin_s, fmax_s, fsqrt_s,
  fadd_d, fsub_d, fmul_d, fdiv_d, fsgnj_d, fsgnjn_d, fsgnjx_d, fmin_d, fmax_d, fcvt_s_d, fcvt_d_s,
  fsqrt_d, fle_s, flt_s, feq_s, fle_d, flt_d, feq_d, fcvt_w_s, fcvt_wu_s, fcvt_l_s, fcvt_lu_s,
  fmv_x_s, fclass_s, fcvt_w_d, fcvt_wu_d, fcvt_l_d, fcvt_lu_d, fmv_x_d, fclass_d, fcvt_s_w,
  fcvt_s_wu, fcvt_s_l, fcvt_s_lu, fmv_s_x, fcvt_d_w, fcvt_d_wu, fcvt_d_l, fcvt_d_lu, fmv_d_x, flw,
  fld, fsw, fsd, fmadd_s, fmsub_s, fnmsub_s, fnmadd_s, fmadd_d, fmsub_d, fnmsub_d, fnmadd_d, c_jr,
  c_jalr, c_ebreak, c_addi4spn, c_fld, c_lw, c_flw, c_fsd, c_sw, c_fsw, c_addi, c_jal, c_li, c_lui,
  c_srli, c_srai, c_andi, c_sub, c_xor, c_or, c_and, c_subw, c_addw, c_j, c_beqz, c_bnez, c_slli,
  c_fldsp, c_lwsp, c_flwsp, c_mv, c_add, c_fsdsp, c_swsp, c_fswsp,
}
use cmpe220fall.Opcode.EncodingsBase.{register}

abbrev pub insns_3 : List (Desc InsnFunc)
insns_3 =
    register 0x53 0xfe00007f fadd_s
    ∷ register 0x8000053 0xfe00007f fsub_s
    ∷ register 0x10000053 0xfe00007f fmul_s
    ∷ register 0x18000053 0xfe00007f fdiv_s
    ∷ register 0x20000053 0xfe00707f fsgnj_s
    ∷ register 0x20001053 0xfe00707f fsgnjn_s
    ∷ register 0x20002053 0xfe00707f fsgnjx_s
    ∷ register 0x28000053 0xfe00707f fmin_s
    ∷ register 0x28001053 0xfe00707f fmax_s
    ∷ register 0x58000053 0xfff0007f fsqrt_s
    ∷ register 0x2000053 0xfe00007f fadd_d
    ∷ register 0xa000053 0xfe00007f fsub_d
    ∷ register 0x12000053 0xfe00007f fmul_d
    ∷ register 0x1a000053 0xfe00007f fdiv_d
    ∷ register 0x22000053 0xfe00707f fsgnj_d
    ∷ register 0x22001053 0xfe00707f fsgnjn_d
    ∷ register 0x22002053 0xfe00707f fsgnjx_d
    ∷ register 0x2a000053 0xfe00707f fmin_d
    ∷ register 0x2a001053 0xfe00707f fmax_d
    ∷ register 0x40100053 0xfff0007f fcvt_s_d
    ∷ register 0x42000053 0xfff0007f fcvt_d_s
    ∷ register 0x5a000053 0xfff0007f fsqrt_d
    ∷ register 0xa0000053 0xfe00707f fle_s
    ∷ register 0xa0001053 0xfe00707f flt_s
    ∷ register 0xa0002053 0xfe00707f feq_s
    ∷ register 0xa2000053 0xfe00707f fle_d
    ∷ register 0xa2001053 0xfe00707f flt_d
    ∷ register 0xa2002053 0xfe00707f feq_d
    ∷ register 0xc0000053 0xfff0007f fcvt_w_s
    ∷ register 0xc0100053 0xfff0007f fcvt_wu_s
    ∷ register 0xc0200053 0xfff0007f fcvt_l_s
    ∷ register 0xc0300053 0xfff0007f fcvt_lu_s
    ∷ register 0xe0000053 0xfff0707f fmv_x_s
    ∷ register 0xe0001053 0xfff0707f fclass_s
    ∷ register 0xc2000053 0xfff0007f fcvt_w_d
    ∷ register 0xc2100053 0xfff0007f fcvt_wu_d
    ∷ register 0xc2200053 0xfff0007f fcvt_l_d
    ∷ register 0xc2300053 0xfff0007f fcvt_lu_d
    ∷ register 0xe2000053 0xfff0707f fmv_x_d
    ∷ register 0xe2001053 0xfff0707f fclass_d
    ∷ register 0xd0000053 0xfff0007f fcvt_s_w
    ∷ register 0xd0100053 0xfff0007f fcvt_s_wu
    ∷ register 0xd0200053 0xfff0007f fcvt_s_l
    ∷ register 0xd0300053 0xfff0007f fcvt_s_lu
    ∷ register 0xf0000053 0xfff0707f fmv_s_x
    ∷ register 0xd2000053 0xfff0007f fcvt_d_w
    ∷ register 0xd2100053 0xfff0007f fcvt_d_wu
    ∷ register 0xd2200053 0xfff0007f fcvt_d_l
    ∷ register 0xd2300053 0xfff0007f fcvt_d_lu
    ∷ register 0xf2000053 0xfff0707f fmv_d_x
    ∷ []

abbrev pub insns_4 : List (Desc InsnFunc)
insns_4 =
    register 0x2007 0x707f flw
    ∷ register 0x3007 0x707f fld
    ∷ register 0x2027 0x707f fsw
    ∷ register 0x3027 0x707f fsd
    ∷ register 0x43 0x600007f fmadd_s
    ∷ register 0x47 0x600007f fmsub_s
    ∷ register 0x4b 0x600007f fnmsub_s
    ∷ register 0x4f 0x600007f fnmadd_s
    ∷ register 0x2000043 0x600007f fmadd_d
    ∷ register 0x2000047 0x600007f fmsub_d
    ∷ register 0x200004b 0x600007f fnmsub_d
    ∷ register 0x200004f 0x600007f fnmadd_d
    ∷ register 0x8002 0xf07f c_jr
    ∷ register 0x9002 0xf07f c_jalr
    ∷ register 0x9002 0xffff c_ebreak
    ∷ register 0x0 0xe003 c_addi4spn
    ∷ register 0x2000 0xe003 c_fld
    ∷ register 0x4000 0xe003 c_lw
    ∷ register 0x6000 0xe003 c_flw
    ∷ register 0xa000 0xe003 c_fsd
    ∷ register 0xc000 0xe003 c_sw
    ∷ register 0xe000 0xe003 c_fsw
    ∷ register 0x1 0xe003 c_addi
    ∷ register 0x2001 0xe003 c_jal
    ∷ register 0x4001 0xe003 c_li
    ∷ register 0x6001 0xe003 c_lui
    ∷ register 0x8001 0xec03 c_srli
    ∷ register 0x8401 0xec03 c_srai
    ∷ register 0x8801 0xec03 c_andi
    ∷ register 0x8c01 0xfc63 c_sub
    ∷ register 0x8c21 0xfc63 c_xor
    ∷ register 0x8c41 0xfc63 c_or
    ∷ register 0x8c61 0xfc63 c_and
    ∷ register 0x9c01 0xfc63 c_subw
    ∷ register 0x9c21 0xfc63 c_addw
    ∷ register 0xa001 0xe003 c_j
    ∷ register 0xc001 0xe003 c_beqz
    ∷ register 0xe001 0xe003 c_bnez
    ∷ register 0x2 0xe003 c_slli
    ∷ register 0x2002 0xe003 c_fldsp
    ∷ register 0x4002 0xe003 c_lwsp
    ∷ register 0x6002 0xe003 c_flwsp
    ∷ register 0x8002 0xf003 c_mv
    ∷ register 0x9002 0xf003 c_add
    ∷ register 0xa002 0xe003 c_fsdsp
    ∷ register 0xc002 0xe003 c_swsp
    ∷ register 0xe002 0xe003 c_fswsp
    ∷ []
