-- ===== src/Machine/Data.antt =====
-- The data of a hart: `state_t`, the parts of `processor_t` and `mmu_t` that instructions read or
-- change, and `trap_t`.
use cmpe220fall.Base.{ℕ, Bool, ◌&&◌, ◌||◌, not, List, Option, ◌==◌, if◌then◌else◌}

pub data AccessType : Type 0 where
  load store fetch : AccessType

-- A memory trap carries the address at fault.
pub data Trap : Type 0 where
  instruction_address_misaligned : ℕ → Trap
  instruction_access_fault : ℕ → Trap
  illegal_instruction : Trap
  breakpoint : Trap
  load_address_misaligned : ℕ → Trap
  store_address_misaligned : ℕ → Trap
  load_access_fault : ℕ → Trap
  store_access_fault : ℕ → Trap
  user_ecall : Trap
  supervisor_ecall : Trap
  hypervisor_ecall : Trap
  machine_ecall : Trap
  -- `trap_t(which)`, which only `raise_interrupt` builds.
  interrupt : ℕ → Trap

-- `regfile_t::write`; the registers are a function of the index.
unfoldable pub regfile_write : Bool → (ℕ → ℕ) → ℕ → ℕ → ℕ → ℕ
regfile_write zero_reg regs i value j =
    if (not zero_reg || not (i == 0)) && (j == i) then value else regs j

-- `state_t`.
pub record State : Type 0 where
  pub pc : ℕ
  pub xpr : ℕ → ℕ
  pub fpr : ℕ → ℕ
  pub mstatus : ℕ
  pub mepc : ℕ
  pub mbadaddr : ℕ
  pub mtimecmp : ℕ
  pub mscratch : ℕ
  pub mcause : ℕ
  pub minstret : ℕ
  pub mie : ℕ
  pub mip : ℕ
  pub sepc : ℕ
  pub sbadaddr : ℕ
  pub sscratch : ℕ
  pub stvec : ℕ
  pub sptbr : ℕ
  pub scause : ℕ
  pub sutime_delta : ℕ
  pub suinstret_delta : ℕ
  pub tohost : ℕ
  pub fromhost : ℕ
  pub fflags : ℕ
  pub frm : ℕ
  pub serialized : Bool
  pub load_reservation : ℕ

-- One call of `memtracer_t::trace`.
pub record Access : Type 0 where
  pub addr : ℕ
  pub bytes : ℕ
  pub kind : AccessType

-- `mmu_t`. Memory is a function from physical addresses to bytes, meaningful below `memsz`.
-- `tlb_data` holds the host pointer as its distance from `mem`. `tracers` says of each hooked
-- tracer what `interested_in_range` answers; `traced` lists the calls of `trace`, latest first.
-- A line of the instruction cache is its tag and the instruction word; the function that the word
-- decodes to is kept in Execute.Processor.
pub record Mmu : Type 0 where
  pub mem : ℕ → ℕ
  pub memsz : ℕ
  pub tlb_data : ℕ → ℕ
  pub tlb_insn_tag : ℕ → ℕ
  pub tlb_load_tag : ℕ → ℕ
  pub tlb_store_tag : ℕ → ℕ
  pub icache_tag : ℕ → ℕ
  pub icache_insn : ℕ → ℕ
  pub tracers : List (ℕ → ℕ → AccessType → Bool)
  pub traced : List Access

-- A store that the bus has accepted.
pub record MmioStore : Type 0 where
  pub addr : ℕ
  pub bytes : ℕ
  pub value : ℕ

-- `processor_t` with its memory port, the clock `sim->rtc`, and softfloat's two global variables.
pub record Hart : Type 0 where
  pub state : State
  pub mmu : Mmu
  pub ext : Bool
  pub cpuid : ℕ
  pub id : ℕ
  pub max_xlen : ℕ
  pub xlen : ℕ
  pub rtc : ℕ
  pub mmio_log : List MmioStore
  pub rounding_mode : ℕ
  pub exception_flags : ℕ

-- `abstract_device_t`, the interface behind `sim->bus`: what a load or a store of the bus answers, and
-- the hart afterwards, since a processor is a device of the bus too and its CSRs are behind it.
pub record Bus : Type 0 where
  pub load : ℕ → ℕ → Hart → Option ℕ × Hart
  pub store : ℕ → ℕ → ℕ → Hart → Bool × Hart
