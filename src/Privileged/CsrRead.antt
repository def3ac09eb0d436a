-- ===== src/Privileged/CsrRead.antt =====
-- `processor_t::get_csr` of riscv-isa-sim/riscv/processor.cc, case by case.
use cmpe220fall.Base.{ℕ, ◌-◌, ◌||◌, ◌&&◌, not, bit_and, bit_or, ltb, leb, ◌==◌, if◌then◌else◌}
use cmpe220fall.Base.Word.{add64, shl64, shr64}
use cmpe220fall.Encoding
use cmpe220fall.Encoding.{get_field, set_field}
use cmpe220fall.Machine.{
  Hart, Action, illegal_instruction, pure, raise, gets, modify, ◌>>=◌, ◌>>◌, require,
}
use cmpe220fall.Insn.Context.{supports_extension, ext_f}
use cmpe220fall.Privileged.Csr.{copy_field, fsr_rd_shift}

-- The case of CSR_SSTATUS: the fields of mstatus that the supervisor sees.
unfoldable pub mstatus_to_sstatus : ℕ → ℕ → ℕ
mstatus_to_sstatus xlen mstatus =
    let ss1 = copy_field 0 Encoding.sstatus_ie mstatus Encoding.mstatus_ie in
    let ss2 = copy_field ss1 Encoding.sstatus_pie mstatus Encoding.mstatus_ie1 in
    let ss3 = copy_field ss2 Encoding.sstatus_ps mstatus Encoding.mstatus_prv1 in
    let ss4 = copy_field ss3 Encoding.sstatus_fs mstatus Encoding.mstatus_fs in
    let ss5 = copy_field ss4 Encoding.sstatus_xs mstatus Encoding.mstatus_xs in
    let ss6 = copy_field ss5 Encoding.sstatus_mprv mstatus Encoding.mstatus_mprv in
    let sd = if xlen == 32 then Encoding.sstatus32_sd else Encoding.sstatus64_sd in
    if get_field mstatus Encoding.mstatus64_sd == 0 then ss6 else set_field ss6 sd 1

-- `get_csr`; `host` is what `htif->tick()` makes of the hart: it may change tohost and fromhost, write
-- to memory and reset the processor.
module _ (host : Hart → Hart) where
  -- `require_fp; if (!supports_extension('F')) break; return value;`
  abbrev pub get_fp : ℕ → Action ℕ
  get_fp value = do
    h ← gets (λ h. h)
    require (not (bit_and h.state.mstatus Encoding.mstatus_fs == 0))
    require (supports_extension h.cpuid ext_f)
    pure value

  -- `if (xlen == 64) break; return value;`
  abbrev pub get_high : ℕ → ℕ → Action ℕ
  get_high xlen value = if xlen == 64 then raise illegal_instruction else pure value

  -- The `switch`, of the hart as it is before.
  unfoldable pub csr_case : Hart → ℕ → Action ℕ
  unfolding mstatus_to_sstatus
  csr_case h which =
      let s = h.state in
      let cycles = add64 s.minstret s.suinstret_delta in
      let time = add64 h.rtc s.sutime_delta in
      let scause_high = bit_or s.scause (shl64 (shr64 s.scause (h.max_xlen - 1)) (h.xlen - 1)) in
      (if which == Encoding.csr_fflags
        then get_fp s.fflags
        else if which == Encoding.csr_frm
        then get_fp s.frm
        else if which == Encoding.csr_fcsr
        then get_fp (bit_or s.fflags (shl64 s.frm fsr_rd_shift))
        else if which == Encoding.csr_mtime
            || which == Encoding.csr_stime
            || which == Encoding.csr_stimew
        then pure h.rtc
        else if which == Encoding.csr_mtimeh
            || which == Encoding.csr_stimeh
            || which == Encoding.csr_stimehw
        then pure (shr64 h.rtc 32)
        else if which == Encoding.csr_time || which == Encoding.csr_timew
        then pure time
        else if which == Encoding.csr_cycle
            || which == Encoding.csr_cyclew
            || which == Encoding.csr_instret
            || which == Encoding.csr_instretw
        then pure cycles
        else if which == Encoding.csr_timeh || which == Encoding.csr_timehw
        then get_high h.xlen (shr64 time 32)
        else if which == Encoding.csr_cycleh
            || which == Encoding.csr_instreth
            || which == Encoding.csr_cyclehw
            || which == Encoding.csr_instrethw
        then get_high h.xlen (shr64 cycles 32)
        else if which == Encoding.csr_sstatus
        then pure (mstatus_to_sstatus h.xlen s.mstatus)
        else if which == Encoding.csr_sip
        then pure (bit_and s.mip 0x22)
        else if which == Encoding.csr_sie
        then pure (bit_and s.mie 0x22)
        else if which == Encoding.csr_sepc
        then pure s.sepc
        else if which == Encoding.csr_sbadaddr
        then pure s.sbadaddr
        else if which == Encoding.csr_stvec
        then pure s.stvec
        else if which == Encoding.csr_scause
        then pure (if ltb h.xlen h.max_xlen then scause_high else s.scause)
        else if which == Encoding.csr_sptbr
        then pure s.sptbr
        else if which == Encoding.csr_sasid
        then pure 0
        else if which == Encoding.csr_sscratch
        then pure s.sscratch
        else if which == Encoding.csr_mstatus
        then pure s.mstatus
        else if which == Encoding.csr_mip
        then pure s.mip
        else if which == Encoding.csr_mipi
        then pure 0
        else if which == Encoding.csr_mie
        then pure s.mie
        else if which == Encoding.csr_mepc
        then pure s.mepc
        else if which == Encoding.csr_mscratch
        then pure s.mscratch
        else if which == Encoding.csr_mcause
        then pure s.mcause
        else if which == Encoding.csr_mbadaddr
        then pure s.mbadaddr
        else if which == Encoding.csr_mtimecmp
        then pure s.mtimecmp
        else if which == Encoding.csr_mcpuid
        then pure h.cpuid
        else if which == Encoding.csr_mimpid
        then pure Encoding.impl_rocket
        else if which == Encoding.csr_mhartid
        then pure h.id
        else if which == Encoding.csr_mtvec
        then pure Encoding.default_mtvec
        else if which == Encoding.csr_mtdeleg
        then pure 0
        else if which == Encoding.csr_mtohost
        then (modify host >> gets (λ h. h.state.tohost))
        else if which == Encoding.csr_mfromhost
        then (modify host >> gets (λ h. h.state.fromhost))
        else if which == Encoding.csr_miobase
        then pure h.mmu.memsz
        else if leb Encoding.csr_uarch0 which && leb which Encoding.csr_uarch15
        then pure 0
        else raise illegal_instruction)

  unfoldable pub get_csr : ℕ → Action ℕ
  unfolding csr_case
  get_csr which h = csr_case h which h
