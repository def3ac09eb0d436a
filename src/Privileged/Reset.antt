-- ===== src/Privileged/Reset.antt =====
-- `state_t::reset`, `processor_t::reset` and the window of a processor's CSRs on the bus:
-- riscv-isa-sim/riscv/processor.cc.
use cmpe220fall.Base.{
  ℕ, ◌*◌, ◌/◌, ◌%◌, ◌^◌, Bool, true, false, not, Option, none, some, if◌then◌else◌,
}
use cmpe220fall.Base.Word.{add64, u32, uint64_max}
use cmpe220fall.Encoding
use cmpe220fall.Encoding.{get_field, set_field}
use cmpe220fall.Machine.{Hart, State, Outcome, ret, throw, early, aborted}
use cmpe220fall.Privileged.Csr.{set_csr}
use cmpe220fall.Privileged.CsrRead.{get_csr}

abbrev pub reset_mstatus : ℕ
reset_mstatus =
    let m1 = set_field 0 Encoding.mstatus_prv Encoding.prv_m in
    let m2 = set_field m1 Encoding.mstatus_prv1 Encoding.prv_u in
    set_field m2 Encoding.mstatus_prv2 Encoding.prv_u

-- What `state_t::reset` leaves.
unfoldable pub state_reset : State
state_reset = record {
  pc = add64 Encoding.default_mtvec 0x100;
  xpr = λ i. 0;
  fpr = λ i. 0;
  mstatus = reset_mstatus;
  mepc = 0;
  mbadaddr = 0;
  mtimecmp = 0;
  mscratch = 0;
  mcause = 0;
  minstret = 0;
  mie = 0;
  mip = 0;
  sepc = 0;
  sbadaddr = 0;
  sscratch = 0;
  stvec = 0;
  sptbr = 0;
  scause = 0;
  sutime_delta = 0;
  suinstret_delta = 0;
  tohost = 0;
  fromhost = 0;
  fflags = 0;
  frm = 0;
  serialized = false;
  load_reservation = uint64_max;
}

abbrev agree : Bool → Bool → Bool
agree true b = b
agree false b = not b

-- `processor_t::reset(value)`: the run flag and the hart afterwards; `ext_reset` is what the reset of
-- a loaded extension does.
unfoldable pub reset : (Hart → Hart) → Bool → Bool → Hart → Bool × Hart
unfolding state_reset set_csr
reset ext_reset value run h =
    let h1 = record h { state = state_reset } in
    let h2 = set_csr Encoding.csr_mstatus reset_mstatus h1 in
    if agree run (not value) then (run, h) else (not value, if h.ext then ext_reset h2 else h2)

-- The number of the CSR at a place of the window, as an `int`.
abbrev pub csr_of : ℕ → Hart → ℕ
csr_of addr h = u32 (addr / (h.max_xlen / 8))

abbrev pub low_bytes : ℕ → Outcome ℕ × Hart → Option ℕ × Hart
low_bytes len (ret res, h) = (some (res % 2 ^ (8 * len)), h)
low_bytes len (throw t, h) = (none, h)
low_bytes len (early n, h) = (none, h)
low_bytes len (aborted, h) = (none, h)

-- `processor_t::load`; `get_csr` throws nothing but an illegal instruction.
unfoldable pub csr_load : (Hart → Hart) → ℕ → ℕ → Hart → Option ℕ × Hart
unfolding get_csr
csr_load host addr len h = low_bytes len (get_csr host (csr_of addr h) h)

-- `processor_t::store`, which always accepts.
unfoldable pub csr_store : ℕ → ℕ → ℕ → Hart → Bool × Hart
unfolding set_csr
csr_store addr len value h = (true, set_csr (csr_of addr h) (value % 2 ^ (8 * len)) h)
