-- ===== src/Privileged/Csr.antt =====
-- `processor_t::set_csr` of riscv-isa-sim/riscv/processor.cc, case by case.
use cmpe220fall.Base.{ℕ, Bool, true, ◌||◌, ◌&&◌, not, bit_and, bit_or, bit_xor, ◌==◌, if◌then◌else◌}
use cmpe220fall.Base.Word.{sub64, shl64, shr64, u32, not64}
use cmpe220fall.Encoding
use cmpe220fall.Encoding.{get_field, set_field}
use cmpe220fall.Machine.{State, Hart}
use cmpe220fall.Mmu.Tlb.{flush_tlb, pgsize}
use cmpe220fall.Insn.Context.{zext_xlen, dirty_fp_state}

-- FSR_AEXC and FSR_RD, with their shifts 0 and 5.
abbrev pub fsr_aexc : ℕ
fsr_aexc = 0x1F

abbrev pub fsr_rd_shift : ℕ
fsr_rd_shift = 5

abbrev pub fsr_rd : ℕ
fsr_rd = 0xE0

unfoldable pub validate_priv : ℕ → Bool
validate_priv priv = priv == Encoding.prv_u || priv == Encoding.prv_s || priv == Encoding.prv_m

unfoldable pub validate_vm : ℕ → ℕ → Bool
validate_vm max_xlen vm =
    if max_xlen == 64 && (vm == Encoding.vm_sv39 || vm == Encoding.vm_sv48)
    then true
    else if max_xlen == 32 && vm == Encoding.vm_sv32
    then true
    else vm == Encoding.vm_mbare

-- `(old & ~mask) | (val & mask)`.
unfoldable pub merge : ℕ → ℕ → ℕ → ℕ
merge old mask val = bit_or (bit_and old (not64 mask)) (bit_and val mask)

abbrev when : Bool → ℕ → ℕ
when b mask = if b then mask else 0

-- The writable bits of mstatus, for the value about to be written.
unfoldable pub mstatus_mask : ℕ → Bool → ℕ → ℕ
unfolding validate_vm validate_priv
mstatus_mask max_xlen ext val =
    let fixed =
      bit_or
        (bit_or (bit_or (bit_or Encoding.mstatus_ie Encoding.mstatus_ie1) Encoding.mstatus_ie2)
          Encoding.mstatus_mprv)
        (bit_or Encoding.mstatus_fs (when ext Encoding.mstatus_xs)) in
    let vm = when (validate_vm max_xlen (get_field val Encoding.mstatus_vm)) Encoding.mstatus_vm in
    let prv = when (validate_priv (get_field val Encoding.mstatus_prv)) Encoding.mstatus_prv in
    let prv1 = when (validate_priv (get_field val Encoding.mstatus_prv1)) Encoding.mstatus_prv1 in
    let prv2 = when (validate_priv (get_field val Encoding.mstatus_prv2)) Encoding.mstatus_prv2 in
    bit_or (bit_or (bit_or (bit_or fixed vm) prv) prv1) prv2

-- The new value of mstatus: the writable bits, and SD by whether FS or XS is dirty.
unfoldable pub next_mstatus : ℕ → Bool → ℕ → ℕ → ℕ
unfolding mstatus_mask merge
next_mstatus max_xlen ext old val =
    let written = merge old (mstatus_mask max_xlen ext val) val in
    let dirty =
      bit_and written Encoding.mstatus_fs == Encoding.mstatus_fs
      || bit_and written Encoding.mstatus_xs == Encoding.mstatus_xs in
    let sd = if max_xlen == 32 then Encoding.mstatus32_sd else Encoding.mstatus64_sd in
    set_field written sd (if dirty then 1 else 0)

-- The case of CSR_MSTATUS.
unfoldable pub set_mstatus : ℕ → Hart → Hart
unfolding next_mstatus
set_mstatus val h =
    let watched =
      bit_or (bit_or (bit_or Encoding.mstatus_vm Encoding.mstatus_prv) Encoding.mstatus_prv1)
        Encoding.mstatus_mprv in
    let flushes = not (bit_and (bit_xor val h.state.mstatus) watched == 0) in
    record h {
      mmu = if flushes then flush_tlb h.mmu else h.mmu;
      state = record h.state { mstatus = next_mstatus h.max_xlen h.ext h.state.mstatus val };
      xlen = h.max_xlen;
    }

abbrev pub copy_field : ℕ → ℕ → ℕ → ℕ → ℕ
copy_field to to_mask from from_mask = set_field to to_mask (get_field from from_mask)

-- The case of CSR_SSTATUS: the fields of `val`, put into mstatus.
unfoldable pub sstatus_to_mstatus : ℕ → ℕ → ℕ
sstatus_to_mstatus mstatus val =
    let ms1 = copy_field mstatus Encoding.mstatus_ie val Encoding.sstatus_ie in
    let ms2 = copy_field ms1 Encoding.mstatus_ie1 val Encoding.sstatus_pie in
    let ms3 = copy_field ms2 Encoding.mstatus_prv1 val Encoding.sstatus_ps in
    let ms4 = copy_field ms3 Encoding.mstatus_fs val Encoding.sstatus_fs in
    let ms5 = copy_field ms4 Encoding.mstatus_xs val Encoding.sstatus_xs in
    copy_field ms5 Encoding.mstatus_mprv val Encoding.sstatus_mprv

abbrev pub with_state : (State → State) → Hart → Hart
with_state f h = record h { state = f h.state }

-- A 64-bit offset of which a 32-bit hart writes the lower half; and the write of the upper half.
unfoldable pub write_low : ℕ → ℕ → ℕ → ℕ
write_low xlen old val = if xlen == 32 then bit_or (u32 val) (shl64 (shr64 old 32) 32) else val

unfoldable pub write_high : ℕ → ℕ → ℕ → ℕ
write_high clock old val =
    let val' = shr64 (sub64 (shl64 val 32) clock) 32 in bit_or (shl64 val' 32) (u32 old)

unfoldable pub set_csr : ℕ → ℕ → Hart → Hart
unfolding dirty_fp_state merge set_mstatus sstatus_to_mstatus write_low write_high
set_csr which val h =
    let s = h.state in
    if which == Encoding.csr_fflags
    then with_state (λ s. record s { fflags = bit_and val fsr_aexc }) (dirty_fp_state h.xlen h)
    else if which == Encoding.csr_frm
    then with_state (λ s. record s { frm = bit_and val (shr64 fsr_rd fsr_rd_shift) })
        (dirty_fp_state h.xlen h)
    else if which == Encoding.csr_fcsr
    then with_state
        (λ s. record s {
          fflags = bit_and val fsr_aexc;
          frm = shr64 (bit_and val fsr_rd) fsr_rd_shift;
        })
        (dirty_fp_state h.xlen h)
    else if which == Encoding.csr_timew
    then with_state
        (λ s. record s { sutime_delta = write_low h.xlen s.sutime_delta (sub64 val h.rtc) }) h
    else if which == Encoding.csr_timehw
    then with_state (λ s. record s { sutime_delta = write_high h.rtc s.sutime_delta val }) h
    else if which == Encoding.csr_cyclew || which == Encoding.csr_instretw
    then with_state
        (λ s. record s {
          suinstret_delta = write_low h.xlen s.suinstret_delta (sub64 val s.minstret);
        })
        h
    else if which == Encoding.csr_cyclehw || which == Encoding.csr_instrethw
    then with_state
        (λ s. record s { suinstret_delta = write_high s.minstret s.suinstret_delta val }) h
    else if which == Encoding.csr_mstatus
    then set_mstatus val h
    else if which == Encoding.csr_mip
    then with_state (λ s. record s { mip = merge s.mip 0x2A val }) h
    else if which == Encoding.csr_mipi
    then with_state (λ s. record s { mip = set_field s.mip Encoding.mip_msip (bit_and val 1) }) h
    else if which == Encoding.csr_mie
    then with_state (λ s. record s { mie = merge s.mie 0xAA val }) h
    else if which == Encoding.csr_sstatus
    then set_mstatus (sstatus_to_mstatus s.mstatus val) h
    else if which == Encoding.csr_sip
    then with_state (λ s. record s { mip = merge s.mip Encoding.mip_ssip val }) h
    else if which == Encoding.csr_sie
    then with_state (λ s. record s { mie = merge s.mie 0x22 val }) h
    else if which == Encoding.csr_sepc
    then with_state (λ s. record s { sepc = val }) h
    else if which == Encoding.csr_stvec
    then with_state (λ s. record s { stvec = shl64 (shr64 val 2) 2 }) h
    else if which == Encoding.csr_sptbr
    then with_state (λ s. record s { sptbr = zext_xlen h.xlen (bit_and val (sub64 0 pgsize)) }) h
    else if which == Encoding.csr_sscratch
    then with_state (λ s. record s { sscratch = val }) h
    else if which == Encoding.csr_mepc
    then with_state (λ s. record s { mepc = val }) h
    else if which == Encoding.csr_mscratch
    then with_state (λ s. record s { mscratch = val }) h
    else if which == Encoding.csr_mcause
    then with_state (λ s. record s { mcause = val }) h
    else if which == Encoding.csr_mbadaddr
    then with_state (λ s. record s { mbadaddr = val }) h
    else if which == Encoding.csr_mtimecmp
    then with_state
        (λ s. record s { mip = bit_and s.mip (not64 Encoding.mip_mtip); mtimecmp = val }) h
    else if which == Encoding.csr_mtohost
    then with_state (λ s. record s { tohost = if s.tohost == 0 then val else s.tohost }) h
    else if which == Encoding.csr_mfromhost
    then with_state (λ s. record s { fromhost = val }) h
    else h
