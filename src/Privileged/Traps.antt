-- ===== src/Privileged/Traps.antt =====
-- The privilege stack, interrupts and traps: riscv-isa-sim/riscv/processor.cc and trap.h.
use cmpe220fall.Base.{ℕ, ◌-◌, ◌*◌, Bool, ◌||◌, ◌&&◌, not, bit_and, bit_or, ltb, ◌==◌, if◌then◌else◌}
use cmpe220fall.Base.Word.{add64, shl64, uint64_max}
use cmpe220fall.Encoding
use cmpe220fall.Encoding.{get_field, set_field}
use cmpe220fall.Machine.{
  Trap, instruction_address_misaligned, instruction_access_fault, illegal_instruction, breakpoint,
  load_address_misaligned, store_address_misaligned, load_access_fault, store_access_fault,
  user_ecall, supervisor_ecall, hypervisor_ecall, machine_ecall, interrupt, State, Hart, Action,
  raise, skip, ◌>>◌,
}
use cmpe220fall.Privileged.Csr.{set_csr}

-- `trap_t::cause`.
unfoldable pub cause : Trap → ℕ
cause (instruction_address_misaligned _) = Encoding.cause_misaligned_fetch
cause (instruction_access_fault _) = Encoding.cause_fault_fetch
cause illegal_instruction = Encoding.cause_illegal_instruction
cause breakpoint = Encoding.cause_breakpoint
cause (load_address_misaligned _) = Encoding.cause_misaligned_load
cause (store_address_misaligned _) = Encoding.cause_misaligned_store
cause (load_access_fault _) = Encoding.cause_fault_load
cause (store_access_fault _) = Encoding.cause_fault_store
cause user_ecall = Encoding.cause_user_ecall
cause supervisor_ecall = Encoding.cause_supervisor_ecall
cause hypervisor_ecall = Encoding.cause_hypervisor_ecall
cause machine_ecall = Encoding.cause_machine_ecall
cause (interrupt which) = which

-- `side_effects`: a memory trap leaves its address in mbadaddr.
unfoldable pub side_effects : Trap → State → State
side_effects (instruction_address_misaligned a) s = record s { mbadaddr = a }
side_effects (instruction_access_fault a) s = record s { mbadaddr = a }
side_effects (load_address_misaligned a) s = record s { mbadaddr = a }
side_effects (store_address_misaligned a) s = record s { mbadaddr = a }
side_effects (load_access_fault a) s = record s { mbadaddr = a }
side_effects (store_access_fault a) s = record s { mbadaddr = a }
side_effects _ s = s

abbrev move_field : ℕ → ℕ → ℕ → ℕ → ℕ
move_field s to_mask from from_mask = set_field s to_mask (get_field from from_mask)

-- What `push_privilege_stack` and `pop_privilege_stack` write to mstatus.
unfoldable pub pushed : ℕ → ℕ
pushed m =
    let s1 = move_field m Encoding.mstatus_prv2 m Encoding.mstatus_prv1 in
    let s2 = move_field s1 Encoding.mstatus_ie2 m Encoding.mstatus_ie1 in
    let s3 = move_field s2 Encoding.mstatus_prv1 m Encoding.mstatus_prv in
    let s4 = move_field s3 Encoding.mstatus_ie1 m Encoding.mstatus_ie in
    let s5 = set_field s4 Encoding.mstatus_prv Encoding.prv_m in
    let s6 = set_field s5 Encoding.mstatus_mprv 0 in set_field s6 Encoding.mstatus_ie 0

unfoldable pub popped : ℕ → ℕ
popped m =
    let s1 = move_field m Encoding.mstatus_prv m Encoding.mstatus_prv1 in
    let s2 = move_field s1 Encoding.mstatus_ie m Encoding.mstatus_ie1 in
    let s3 = move_field s2 Encoding.mstatus_prv1 m Encoding.mstatus_prv2 in
    let s4 = move_field s3 Encoding.mstatus_ie1 m Encoding.mstatus_ie2 in
    let s5 = set_field s4 Encoding.mstatus_prv2 Encoding.prv_u in
    set_field s5 Encoding.mstatus_ie2 1

unfoldable pub push_privilege_stack : Hart → Hart
unfolding pushed
push_privilege_stack h = set_csr Encoding.csr_mstatus (pushed h.state.mstatus) h

unfoldable pub pop_privilege_stack : Hart → Hart
unfolding popped
pop_privilege_stack h = set_csr Encoding.csr_mstatus (popped h.state.mstatus) h

unfoldable pub yield_load_reservation : Hart → Hart
yield_load_reservation h = record h { state = record h.state { load_reservation = uint64_max } }

unfoldable pub take_trap : Trap → ℕ → Hart → Hart
unfolding push_privilege_stack yield_load_reservation cause side_effects
take_trap t epc h =
    let vector =
      add64 Encoding.default_mtvec (0x40 * get_field h.state.mstatus Encoding.mstatus_prv) in
    let h1 = record h { state = record h.state { pc = vector } } in
    let h2 = yield_load_reservation (push_privilege_stack h1) in
    record h2 { state = side_effects t (record h2.state { mcause = cause t; mepc = epc }) }

unfoldable pub raise_interrupt : ℕ → ℕ → Action (Unit {0})
raise_interrupt max_xlen which = raise (interrupt (bit_or (shl64 1 (max_xlen - 1)) which))

abbrev raise_if : Bool → ℕ → ℕ → Action (Unit {0})
raise_if b max_xlen which = if b then raise_interrupt max_xlen which else skip

unfoldable pub take_interrupt : Action (Unit {0})
unfolding raise_interrupt
take_interrupt h =
    let s = h.state in
    let priv = get_field s.mstatus Encoding.mstatus_prv in
    let ie = not (get_field s.mstatus Encoding.mstatus_ie == 0) in
    let interrupts = bit_and s.mie s.mip in
    let machine = ltb priv Encoding.prv_m || (priv == Encoding.prv_m && ie) in
    let supervisor = ltb priv Encoding.prv_s || (priv == Encoding.prv_s && ie) in
    let pending = λ (mask : ℕ). not (bit_and interrupts mask == 0) in
    (do
      raise_if (machine && pending Encoding.mip_msip) h.max_xlen Encoding.irq_soft
      raise_if (machine && pending Encoding.mip_mtip) h.max_xlen Encoding.irq_timer
      raise_if (machine && not (s.fromhost == 0)) h.max_xlen Encoding.irq_host
      raise_if (supervisor && pending Encoding.mip_ssip) h.max_xlen Encoding.irq_soft
      raise_if (supervisor && pending Encoding.mip_stip) h.max_xlen Encoding.irq_timer)
      h
