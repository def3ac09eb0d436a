-- ===== src/Insn/FloatMemoryRegs.antt =====
-- Floating-point and compressed loads and stores, and the compressed instructions on the stack
-- pointer and of large immediates, keep the register files.
use cmpe220fall.Base.{ℕ, ◌/◌, ◌^◌, ◌==◌, ◌≡◌, arith, if◌then◌else◌, inl, inr, Bool-cases}
use cmpe220fall.Base.Bits.{bit_and_mask}
use cmpe220fall.Base.Word.{shl64}
use cmpe220fall.Decode
use cmpe220fall.Machine.{Action, Bus}
use cmpe220fall.Machine.Keeps.{Keeps}
use cmpe220fall.Insn.Context.{Context}
use cmpe220fall.Insn.Compressed
use cmpe220fall.Insn.FloatMemory
use cmpe220fall.Insn.Canonical.{IsWidth, IsCanonical, InRange-IsCanonical}
use cmpe220fall.Insn.Rules.{
  wide-bind-Keeps, require_fp-Keeps, get_frs2-Keeps, read_freg-Keeps, write_freg-Keeps,
  write_frd-Keeps, if-KeepsRegs, widen-IsCanonical, narrow-IsCanonical, raise-KeepsRegs,
}
use cmpe220fall.Insn.Registers.{
  IsContext, IsRegfile, KeepsRegs, read_reg-Keeps, write_reg-Keeps, regs_rules,
}
use cmpe220fall.Insn.CompressedRegs.{rvc_rs2-Keeps, rvc_rs1s-Keeps, rvc_rs2s-Keeps}
use cmpe220fall.Insn.MemoryRegs.{RegsBus, word-Keeps, store_uint-Keeps}
use cmpe220fall.Insn.WideRegs.{word_unsigned-Keeps, double-Keeps}

upper-IsCanonical : (xlen b : ℕ) → IsWidth xlen → IsCanonical xlen (shl64 (Decode.rvc_imm b) 12)
unfolding Decode.rvc_imm Decode.x Decode.xs
upper-IsCanonical xlen b w =
    let low = bit_and_mask 5 (b / 2 ^ 2) in
    InRange-IsCanonical xlen (shl64 (Decode.rvc_imm b) 12) w
      (ground (arith, low), λ _. ground (arith, low))

module _ (c : Context) where
  rvc_sp-Keeps : Keeps (IsRegfile c.xlen) (IsCanonical c.xlen) Compressed.rvc_sp
  unfolding Compressed.rvc_sp
  rvc_sp-Keeps = read_reg-Keeps c.xlen _

  write_rs2s-Keeps : (v : ℕ) → IsCanonical c.xlen v → KeepsRegs c.xlen (Compressed.write_rs2s c v)
  unfolding Compressed.write_rs2s
  write_rs2s-Keeps v q = write_reg-Keeps c.xlen _ v q

module _ (c : Context) (k : IsContext c) where
  -- The branch that is not for 32-bit harts is for those of 64.
  by_width-KeepsRegs :
      (m n : Action (Unit {0}))
      → KeepsRegs c.xlen m
      → (c.xlen ≡ 64 → KeepsRegs c.xlen n)
      → KeepsRegs c.xlen (if c.xlen == 32 then m else n)
  by_width-KeepsRegs m n km kn = elim (Bool-cases (c.xlen == 32)) [
    | inl narrow ↦ rw narrow km
    | inr wide ↦ let w = k.width in rw wide (kn (ground arith))
  ]

  ruleset sp_rules = (
    regs_rules, rvc_sp-Keeps, rvc_rs2-Keeps, rvc_rs1s-Keeps, rvc_rs2s-Keeps, write_rs2s-Keeps,
    upper-IsCanonical, write_reg-Keeps, raise-KeepsRegs, if-KeepsRegs,
  )

  c_addi16sp-KeepsRegs : KeepsRegs c.xlen (Compressed.c_addi16sp c)
  unfolding Compressed.c_addi16sp
  c_addi16sp-KeepsRegs = search sp_rules depth 12

  c_lui_rd-KeepsRegs : KeepsRegs c.xlen (Compressed.c_lui_rd c)
  unfolding Compressed.c_lui_rd
  c_lui_rd-KeepsRegs = search sp_rules depth 12

  pub c_addi4spn-KeepsRegs : KeepsRegs c.xlen (Compressed.c_addi4spn c)
  unfolding Compressed.c_addi4spn
  c_addi4spn-KeepsRegs = search sp_rules depth 12

  pub c_lui-KeepsRegs : KeepsRegs c.xlen (Compressed.c_lui c)
  unfolding Compressed.c_lui
  c_lui-KeepsRegs = search (sp_rules, c_addi16sp-KeepsRegs, c_lui_rd-KeepsRegs) depth 12

  pub c_ebreak-KeepsRegs : KeepsRegs c.xlen (Compressed.c_ebreak c)
  unfolding Compressed.c_ebreak
  c_ebreak-KeepsRegs = search sp_rules depth 12

module _ (bus : Bus) (b : RegsBus bus) (c : Context) (k : IsContext c) where
  ruleset float_memory_rules = (
    regs_rules, require_fp-Keeps, get_frs2-Keeps, read_freg-Keeps, write_freg-Keeps,
    write_frd-Keeps, rvc_sp-Keeps, rvc_rs2-Keeps, rvc_rs1s-Keeps, rvc_rs2s-Keeps, write_rs2s-Keeps,
    wide-bind-Keeps, word-Keeps, store_uint-Keeps, word_unsigned-Keeps, double-Keeps,
    widen-IsCanonical, narrow-IsCanonical,
  )

  pub flw-KeepsRegs : KeepsRegs c.xlen (FloatMemory.flw bus c)
  unfolding FloatMemory.flw
  flw-KeepsRegs = search float_memory_rules depth 14

  pub fld-KeepsRegs : KeepsRegs c.xlen (FloatMemory.fld bus c)
  unfolding FloatMemory.fld
  fld-KeepsRegs = search float_memory_rules depth 14

  pub fsw-KeepsRegs : KeepsRegs c.xlen (FloatMemory.fsw bus c)
  unfolding FloatMemory.fsw
  fsw-KeepsRegs = search float_memory_rules depth 14

  pub fsd-KeepsRegs : KeepsRegs c.xlen (FloatMemory.fsd bus c)
  unfolding FloatMemory.fsd
  fsd-KeepsRegs = search float_memory_rules depth 14

  pub c_lw-KeepsRegs : KeepsRegs c.xlen (FloatMemory.c_lw bus c)
  unfolding FloatMemory.c_lw
  c_lw-KeepsRegs = search float_memory_rules depth 14

  pub c_lwsp-KeepsRegs : KeepsRegs c.xlen (FloatMemory.c_lwsp bus c)
  unfolding FloatMemory.c_lwsp
  c_lwsp-KeepsRegs = search float_memory_rules depth 14

  pub c_sw-KeepsRegs : KeepsRegs c.xlen (FloatMemory.c_sw bus c)
  unfolding FloatMemory.c_sw
  c_sw-KeepsRegs = search float_memory_rules depth 14

  pub c_swsp-KeepsRegs : KeepsRegs c.xlen (FloatMemory.c_swsp bus c)
  unfolding FloatMemory.c_swsp
  c_swsp-KeepsRegs = search float_memory_rules depth 14

  pub c_fld-KeepsRegs : KeepsRegs c.xlen (FloatMemory.c_fld bus c)
  unfolding FloatMemory.c_fld
  c_fld-KeepsRegs = search float_memory_rules depth 14

  pub c_fldsp-KeepsRegs : KeepsRegs c.xlen (FloatMemory.c_fldsp bus c)
  unfolding FloatMemory.c_fldsp
  c_fldsp-KeepsRegs = search float_memory_rules depth 14

  pub c_fsd-KeepsRegs : KeepsRegs c.xlen (FloatMemory.c_fsd bus c)
  unfolding FloatMemory.c_fsd
  c_fsd-KeepsRegs = search float_memory_rules depth 14

  pub c_fsdsp-KeepsRegs : KeepsRegs c.xlen (FloatMemory.c_fsdsp bus c)
  unfolding FloatMemory.c_fsdsp
  c_fsdsp-KeepsRegs = search float_memory_rules depth 14

  c_flw_rv32-KeepsRegs : KeepsRegs c.xlen (FloatMemory.c_flw_rv32 bus c)
  unfolding FloatMemory.c_flw_rv32
  c_flw_rv32-KeepsRegs = search float_memory_rules depth 14

  c_flwsp_rv32-KeepsRegs : KeepsRegs c.xlen (FloatMemory.c_flwsp_rv32 bus c)
  unfolding FloatMemory.c_flwsp_rv32
  c_flwsp_rv32-KeepsRegs = search float_memory_rules depth 14

  c_fsw_rv32-KeepsRegs : KeepsRegs c.xlen (FloatMemory.c_fsw_rv32 bus c)
  unfolding FloatMemory.c_fsw_rv32
  c_fsw_rv32-KeepsRegs = search float_memory_rules depth 14

  c_fswsp_rv32-KeepsRegs : KeepsRegs c.xlen (FloatMemory.c_fswsp_rv32 bus c)
  unfolding FloatMemory.c_fswsp_rv32
  c_fswsp_rv32-KeepsRegs = search float_memory_rules depth 14

  c_flw_rv64-KeepsRegs : c.xlen ≡ 64 → KeepsRegs c.xlen (FloatMemory.c_flw_rv64 bus c)
  unfolding FloatMemory.c_flw_rv64
  c_flw_rv64-KeepsRegs e = search float_memory_rules depth 14

  pub c_flw-KeepsRegs : KeepsRegs c.xlen (FloatMemory.c_flw bus c)
  unfolding FloatMemory.c_flw
  c_flw-KeepsRegs =
      search (float_memory_rules, by_width-KeepsRegs, c_flw_rv32-KeepsRegs, c_flw_rv64-KeepsRegs)
        depth 14

  c_flwsp_rv64-KeepsRegs : c.xlen ≡ 64 → KeepsRegs c.xlen (FloatMemory.c_flwsp_rv64 bus c)
  unfolding FloatMemory.c_flwsp_rv64
  c_flwsp_rv64-KeepsRegs e = search float_memory_rules depth 14

  pub c_flwsp-KeepsRegs : KeepsRegs c.xlen (FloatMemory.c_flwsp bus c)
  unfolding FloatMemory.c_flwsp
  c_flwsp-KeepsRegs =
      search
        (float_memory_rules, by_width-KeepsRegs, c_flwsp_rv32-KeepsRegs, c_flwsp_rv64-KeepsRegs)
        depth 14

  c_fsw_rv64-KeepsRegs : c.xlen ≡ 64 → KeepsRegs c.xlen (FloatMemory.c_fsw_rv64 bus c)
  unfolding FloatMemory.c_fsw_rv64
  c_fsw_rv64-KeepsRegs e = search float_memory_rules depth 14

  pub c_fsw-KeepsRegs : KeepsRegs c.xlen (FloatMemory.c_fsw bus c)
  unfolding FloatMemory.c_fsw
  c_fsw-KeepsRegs =
      search (float_memory_rules, by_width-KeepsRegs, c_fsw_rv32-KeepsRegs, c_fsw_rv64-KeepsRegs)
        depth 14

  c_fswsp_rv64-KeepsRegs : c.xlen ≡ 64 → KeepsRegs c.xlen (FloatMemory.c_fswsp_rv64 bus c)
  unfolding FloatMemory.c_fswsp_rv64
  c_fswsp_rv64-KeepsRegs e = search float_memory_rules depth 14

  pub c_fswsp-KeepsRegs : KeepsRegs c.xlen (FloatMemory.c_fswsp bus c)
  unfolding FloatMemory.c_fswsp
  c_fswsp-KeepsRegs =
      search
        (float_memory_rules, by_width-KeepsRegs, c_fswsp_rv32-KeepsRegs, c_fswsp_rv64-KeepsRegs)
        depth 14
