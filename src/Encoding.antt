-- ===== src/Encoding.antt =====
-- riscv-isa-sim/riscv/encoding.h: the constants of the privileged architecture, and the field
-- macros of riscv-isa-sim/riscv/decode.h.
use cmpe220fall.Base.{ℕ, ◌/◌, Bool, bit_and, bit_or, if◌then◌else◌, ◌==◌, not}
use cmpe220fall.Base.Word.{shl64, shr64, mul64, not64}

-- `mask & ~(mask << 1)`, the lowest bit of a mask.
unfoldable pub mask_lsb : ℕ → ℕ
mask_lsb mask = bit_and mask (not64 (shl64 mask 1))

unfoldable pub get_field : ℕ → ℕ → ℕ
unfolding mask_lsb
get_field reg mask = bit_and reg mask / mask_lsb mask

unfoldable pub set_field : ℕ → ℕ → ℕ → ℕ
unfolding mask_lsb
set_field reg mask val =
    bit_or (bit_and reg (not64 mask)) (bit_and (mul64 val (mask_lsb mask)) mask)

abbrev pub mstatus_ie : ℕ
mstatus_ie = 0x00000001

abbrev pub mstatus_prv : ℕ
mstatus_prv = 0x00000006

abbrev pub mstatus_ie1 : ℕ
mstatus_ie1 = 0x00000008

abbrev pub mstatus_prv1 : ℕ
mstatus_prv1 = 0x00000030

abbrev pub mstatus_ie2 : ℕ
mstatus_ie2 = 0x00000040

abbrev pub mstatus_prv2 : ℕ
mstatus_prv2 = 0x00000180

abbrev pub mstatus_fs : ℕ
mstatus_fs = 0x00003000

abbrev pub mstatus_xs : ℕ
mstatus_xs = 0x0000c000

abbrev pub mstatus_mprv : ℕ
mstatus_mprv = 0x00010000

abbrev pub mstatus_vm : ℕ
mstatus_vm = 0x003e0000

abbrev pub mstatus32_sd : ℕ
mstatus32_sd = 0x80000000

abbrev pub mstatus64_sd : ℕ
mstatus64_sd = 0x8000000000000000

abbrev pub sstatus_ie : ℕ
sstatus_ie = 0x00000001

abbrev pub sstatus_pie : ℕ
sstatus_pie = 0x00000008

abbrev pub sstatus_ps : ℕ
sstatus_ps = 0x00000010

abbrev pub sstatus_fs : ℕ
sstatus_fs = 0x00003000

abbrev pub sstatus_xs : ℕ
sstatus_xs = 0x0000c000

abbrev pub sstatus_mprv : ℕ
sstatus_mprv = 0x00010000

abbrev pub sstatus32_sd : ℕ
sstatus32_sd = 0x80000000

abbrev pub sstatus64_sd : ℕ
sstatus64_sd = 0x8000000000000000

abbrev pub mip_ssip : ℕ
mip_ssip = 0x00000002

abbrev pub mip_msip : ℕ
mip_msip = 0x00000008

abbrev pub mip_stip : ℕ
mip_stip = 0x00000020

abbrev pub mip_mtip : ℕ
mip_mtip = 0x00000080

abbrev pub prv_u : ℕ
prv_u = 0

abbrev pub prv_s : ℕ
prv_s = 1

abbrev pub prv_h : ℕ
prv_h = 2

abbrev pub prv_m : ℕ
prv_m = 3

abbrev pub vm_mbare : ℕ
vm_mbare = 0

abbrev pub vm_sv32 : ℕ
vm_sv32 = 8

abbrev pub vm_sv39 : ℕ
vm_sv39 = 9

abbrev pub vm_sv48 : ℕ
vm_sv48 = 10

abbrev pub irq_soft : ℕ
irq_soft = 0

abbrev pub irq_timer : ℕ
irq_timer = 1

abbrev pub irq_host : ℕ
irq_host = 2

abbrev pub impl_rocket : ℕ
impl_rocket = 1

abbrev pub default_mtvec : ℕ
default_mtvec = 0x100

abbrev pub pte_r : ℕ
pte_r = 0x020

abbrev pub pte_d : ℕ
pte_d = 0x040

abbrev pub pte_ppn_shift : ℕ
pte_ppn_shift = 10

abbrev pub csr_fflags : ℕ
csr_fflags = 0x1

abbrev pub csr_frm : ℕ
csr_frm = 0x2

abbrev pub csr_fcsr : ℕ
csr_fcsr = 0x3

abbrev pub csr_cycle : ℕ
csr_cycle = 0xc00

abbrev pub csr_time : ℕ
csr_time = 0xc01

abbrev pub csr_instret : ℕ
csr_instret = 0xc02

abbrev pub csr_uarch0 : ℕ
csr_uarch0 = 0xcc0

abbrev pub csr_uarch1 : ℕ
csr_uarch1 = 0xcc1

abbrev pub csr_uarch2 : ℕ
csr_uarch2 = 0xcc2

abbrev pub csr_uarch3 : ℕ
csr_uarch3 = 0xcc3

abbrev pub csr_uarch4 : ℕ
csr_uarch4 = 0xcc4

abbrev pub csr_uarch5 : ℕ
csr_uarch5 = 0xcc5

abbrev pub csr_uarch6 : ℕ
csr_uarch6 = 0xcc6

abbrev pub csr_uarch7 : ℕ
csr_uarch7 = 0xcc7

abbrev pub csr_uarch8 : ℕ
csr_uarch8 = 0xcc8

abbrev pub csr_uarch9 : ℕ
csr_uarch9 = 0xcc9

abbrev pub csr_uarch10 : ℕ
csr_uarch10 = 0xcca

abbrev pub csr_uarch11 : ℕ
csr_uarch11 = 0xccb

abbrev pub csr_uarch12 : ℕ
csr_uarch12 = 0xccc

abbrev pub csr_uarch13 : ℕ
csr_uarch13 = 0xccd

abbrev pub csr_uarch14 : ℕ
csr_uarch14 = 0xcce

abbrev pub csr_uarch15 : ℕ
csr_uarch15 = 0xccf

abbrev pub csr_sstatus : ℕ
csr_sstatus = 0x100

abbrev pub csr_stvec : ℕ
csr_stvec = 0x101

abbrev pub csr_sie : ℕ
csr_sie = 0x104

abbrev pub csr_sscratch : ℕ
csr_sscratch = 0x140

abbrev pub csr_sepc : ℕ
csr_sepc = 0x141

abbrev pub csr_sip : ℕ
csr_sip = 0x144

abbrev pub csr_sptbr : ℕ
csr_sptbr = 0x180

abbrev pub csr_sasid : ℕ
csr_sasid = 0x181

abbrev pub csr_cyclew : ℕ
csr_cyclew = 0x900

abbrev pub csr_timew : ℕ
csr_timew = 0x901

abbrev pub csr_instretw : ℕ
csr_instretw = 0x902

abbrev pub csr_stime : ℕ
csr_stime = 0xd01

abbrev pub csr_scause : ℕ
csr_scause = 0xd42

abbrev pub csr_sbadaddr : ℕ
csr_sbadaddr = 0xd43

abbrev pub csr_stimew : ℕ
csr_stimew = 0xa01

abbrev pub csr_mstatus : ℕ
csr_mstatus = 0x300

abbrev pub csr_mtvec : ℕ
csr_mtvec = 0x301

abbrev pub csr_mtdeleg : ℕ
csr_mtdeleg = 0x302

abbrev pub csr_mie : ℕ
csr_mie = 0x304

abbrev pub csr_mtimecmp : ℕ
csr_mtimecmp = 0x321

abbrev pub csr_mscratch : ℕ
csr_mscratch = 0x340

abbrev pub csr_mepc : ℕ
csr_mepc = 0x341

abbrev pub csr_mcause : ℕ
csr_mcause = 0x342

abbrev pub csr_mbadaddr : ℕ
csr_mbadaddr = 0x343

abbrev pub csr_mip : ℕ
csr_mip = 0x344

abbrev pub csr_mtime : ℕ
csr_mtime = 0x701

abbrev pub csr_mcpuid : ℕ
csr_mcpuid = 0xf00

abbrev pub csr_mimpid : ℕ
csr_mimpid = 0xf01

abbrev pub csr_mhartid : ℕ
csr_mhartid = 0xf10

abbrev pub csr_mtohost : ℕ
csr_mtohost = 0x780

abbrev pub csr_mfromhost : ℕ
csr_mfromhost = 0x781

abbrev pub csr_mipi : ℕ
csr_mipi = 0x783

abbrev pub csr_miobase : ℕ
csr_miobase = 0x784

abbrev pub csr_cycleh : ℕ
csr_cycleh = 0xc80

abbrev pub csr_timeh : ℕ
csr_timeh = 0xc81

abbrev pub csr_instreth : ℕ
csr_instreth = 0xc82

abbrev pub csr_cyclehw : ℕ
csr_cyclehw = 0x980

abbrev pub csr_timehw : ℕ
csr_timehw = 0x981

abbrev pub csr_instrethw : ℕ
csr_instrethw = 0x982

abbrev pub csr_stimeh : ℕ
csr_stimeh = 0xd81

abbrev pub csr_stimehw : ℕ
csr_stimehw = 0xa81

abbrev pub csr_mtimeh : ℕ
csr_mtimeh = 0x741

abbrev pub cause_misaligned_fetch : ℕ
cause_misaligned_fetch = 0x0

abbrev pub cause_fault_fetch : ℕ
cause_fault_fetch = 0x1

abbrev pub cause_illegal_instruction : ℕ
cause_illegal_instruction = 0x2

abbrev pub cause_breakpoint : ℕ
cause_breakpoint = 0x3

abbrev pub cause_misaligned_load : ℕ
cause_misaligned_load = 0x4

abbrev pub cause_fault_load : ℕ
cause_fault_load = 0x5

abbrev pub cause_misaligned_store : ℕ
cause_misaligned_store = 0x6

abbrev pub cause_fault_store : ℕ
cause_fault_store = 0x7

abbrev pub cause_user_ecall : ℕ
cause_user_ecall = 0x8

abbrev pub cause_supervisor_ecall : ℕ
cause_supervisor_ecall = 0x9

abbrev pub cause_hypervisor_ecall : ℕ
cause_hypervisor_ecall = 0xa

abbrev pub cause_machine_ecall : ℕ
cause_machine_ecall = 0xb

-- The page table entry tests: bit `pte & 0x1F` of a table.
unfoldable pub type_bit : ℕ → ℕ → Bool
type_bit table pte = not (bit_and (shr64 table (bit_and pte 0x1F)) 1 == 0)

unfoldable pub pte_table : ℕ → Bool
unfolding type_bit
pte_table pte = type_bit 0x0000000A pte

-- `PTE_CHECK_PERM(pte, supervisor, store, fetch)` with the macros that it chooses from.
unfoldable pub pte_check_perm : ℕ → Bool → Bool → Bool → Bool
unfolding type_bit
pte_check_perm pte supervisor store fetch =
    if store
    then (if supervisor then type_bit 0x88888880 pte else type_bit 0x00008880 pte)
    else if fetch
    then (if supervisor then type_bit 0xA0A0A000 pte else type_bit 0x0000A0A0 pte)
    else (if supervisor then type_bit 0xAAAAAAA0 pte else type_bit 0x0000AAA0 pte)
