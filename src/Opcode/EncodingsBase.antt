-- ===== src/Opcode/EncodingsBase.antt =====
-- The match bits and masks of riscv-isa-sim/riscv/encoding.h, in its order, and their registration
-- (riscv/processor.h): the integer and atomic instructions.
use cmpe220fall.Base.{List, [], ◌∷◌, ℕ}
use cmpe220fall.Opcode.Table.{Desc}
use cmpe220fall.Opcode.Names.{
  Opcode, InsnFunc, beq, bne, blt, bge, bltu, bgeu, jalr, jal, lui, auipc, addi, slli, slti, sltiu,
  xori, srli, srai, ori, andi, add, sub, sll, slt, sltu, xor, srl, sra, or, and, addiw, slliw,
  srliw, sraiw, addw, subw, sllw, srlw, sraw, lb, lh, lw, ld, lbu, lhu, lwu, sb, sh, sw, sd, fence,
  fence_i, mul, mulh, mulhsu, mulhu, div, divu, rem, remu, mulw, divw, divuw, remw, remuw, amoadd_w,
  amoxor_w, amoor_w, amoand_w, amomin_w, amomax_w, amominu_w, amomaxu_w, amoswap_w, lr_w, sc_w,
  amoadd_d, amoxor_d, amoor_d, amoand_d, amomin_d, amomax_d, amominu_d, amomaxu_d, amoswap_d, lr_d,
  sc_d, scall, sbreak, sret, sfence_vm, wfi, mrth, mrts, hrts, csrrw, csrrs, csrrc, csrrwi, csrrsi,
  csrrci,
}

-- `REGISTER_INSN`.
abbrev pub register : ℕ → ℕ → Opcode → Desc InsnFunc
register match_bits mask name = record {
  match_bits = match_bits;
  mask = mask;
  rv32 = InsnFunc.rv32 name;
  rv64 = InsnFunc.rv64 name;
}

abbrev pub insns_1 : List (Desc InsnFunc)
insns_1 =
    register 0x63 0x707f beq
    ∷ register 0x1063 0x707f bne
    ∷ register 0x4063 0x707f blt
    ∷ register 0x5063 0x707f bge
    ∷ register 0x6063 0x707f bltu
    ∷ register 0x7063 0x707f bgeu
    ∷ register 0x67 0x707f jalr
    ∷ register 0x6f 0x7f jal
    ∷ register 0x37 0x7f lui
    ∷ register 0x17 0x7f auipc
    ∷ register 0x13 0x707f addi
    ∷ register 0x1013 0xfc00707f slli
    ∷ register 0x2013 0x707f slti
    ∷ register 0x3013 0x707f sltiu
    ∷ register 0x4013 0x707f xori
    ∷ register 0x5013 0xfc00707f srli
    ∷ register 0x40005013 0xfc00707f srai
    ∷ register 0x6013 0x707f ori
    ∷ register 0x7013 0x707f andi
    ∷ register 0x33 0xfe00707f add
    ∷ register 0x40000033 0xfe00707f sub
    ∷ register 0x1033 0xfe00707f sll
    ∷ register 0x2033 0xfe00707f slt
    ∷ register 0x3033 0xfe00707f sltu
    ∷ register 0x4033 0xfe00707f xor
    ∷ register 0x5033 0xfe00707f srl
    ∷ register 0x40005033 0xfe00707f sra
    ∷ register 0x6033 0xfe00707f or
    ∷ register 0x7033 0xfe00707f and
    ∷ register 0x1b 0x707f addiw
    ∷ register 0x101b 0xfe00707f slliw
    ∷ register 0x501b 0xfe00707f srliw
    ∷ register 0x4000501b 0xfe00707f sraiw
    ∷ register 0x3b 0xfe00707f addw
    ∷ register 0x4000003b 0xfe00707f subw
    ∷ register 0x103b 0xfe00707f sllw
    ∷ register 0x503b 0xfe00707f srlw
    ∷ register 0x4000503b 0xfe00707f sraw
    ∷ register 0x3 0x707f lb
    ∷ register 0x1003 0x707f lh
    ∷ register 0x2003 0x707f lw
    ∷ register 0x3003 0x707f ld
    ∷ register 0x4003 0x707f lbu
    ∷ register 0x5003 0x707f lhu
    ∷ register 0x6003 0x707f lwu
    ∷ register 0x23 0x707f sb
    ∷ register 0x1023 0x707f sh
    ∷ register 0x2023 0x707f sw
    ∷ register 0x3023 0x707f sd
    ∷ register 0xf 0x707f fence
    ∷ []

abbrev pub insns_2 : List (Desc InsnFunc)
insns_2 =
    register 0x100f 0x707f fence_i
    ∷ register 0x2000033 0xfe00707f mul
    ∷ register 0x2001033 0xfe00707f mulh
    ∷ register 0x2002033 0xfe00707f mulhsu
    ∷ register 0x2003033 0xfe00707f mulhu
    ∷ register 0x2004033 0xfe00707f div
    ∷ register 0x2005033 0xfe00707f divu
    ∷ register 0x2006033 0xfe00707f rem
    ∷ register 0x2007033 0xfe00707f remu
    ∷ register 0x200003b 0xfe00707f mulw
    ∷ register 0x200403b 0xfe00707f divw
    ∷ register 0x200503b 0xfe00707f divuw
    ∷ register 0x200603b 0xfe00707f remw
    ∷ register 0x200703b 0xfe00707f remuw
    ∷ register 0x202f 0xf800707f amoadd_w
    ∷ register 0x2000202f 0xf800707f amoxor_w
    ∷ register 0x4000202f 0xf800707f amoor_w
    ∷ register 0x6000202f 0xf800707f amoand_w
    ∷ register 0x8000202f 0xf800707f amomin_w
    ∷ register 0xa000202f 0xf800707f amomax_w
    ∷ register 0xc000202f 0xf800707f amominu_w
    ∷ register 0xe000202f 0xf800707f amomaxu_w
    ∷ register 0x800202f 0xf800707f amoswap_w
    ∷ register 0x1000202f 0xf9f0707f lr_w
    ∷ register 0x1800202f 0xf800707f sc_w
    ∷ register 0x302f 0xf800707f amoadd_d
    ∷ register 0x2000302f 0xf800707f amoxor_d
    ∷ register 0x4000302f 0xf800707f amoor_d
    ∷ register 0x6000302f 0xf800707f amoand_d
    ∷ register 0x8000302f 0xf800707f amomin_d
    ∷ register 0xa000302f 0xf800707f amomax_d
    ∷ register 0xc000302f 0xf800707f amominu_d
    ∷ register 0xe000302f 0xf800707f amomaxu_d
    ∷ register 0x800302f 0xf800707f amoswap_d
    ∷ register 0x1000302f 0xf9f0707f lr_d
    ∷ register 0x1800302f 0xf800707f sc_d
    ∷ register 0x73 0xffffffff scall
    ∷ register 0x100073 0xffffffff sbreak
    ∷ register 0x10000073 0xffffffff sret
    ∷ register 0x10100073 0xfff07fff sfence_vm
    ∷ register 0x10200073 0xffffffff wfi
    ∷ register 0x30600073 0xffffffff mrth
    ∷ register 0x30500073 0xffffffff mrts
    ∷ register 0x20500073 0xffffffff hrts
    ∷ register 0x1073 0x707f csrrw
    ∷ register 0x2073 0x707f csrrs
    ∷ register 0x3073 0x707f csrrc
    ∷ register 0x5073 0x707f csrrwi
    ∷ register 0x6073 0x707f csrrsi
    ∷ register 0x7073 0x707f csrrci
    ∷ []
