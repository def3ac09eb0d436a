-- ===== src/Insn/System.antt =====
-- CSR accesses, environment calls and fences: riscv-isa-sim/riscv/insns/.
use cmpe220fall.Base.{
  ℕ, Bool, true, false, not, ◌&&◌, ◌||◌, bit_and, bit_or, ltb, ◌==◌, if◌then◌else◌,
}
use cmpe220fall.Base.Word.{not64}
use cmpe220fall.Decode
use cmpe220fall.Encoding
use cmpe220fall.Encoding.{get_field, set_field}
use cmpe220fall.Machine.{
  Hart, Action, early, aborted, breakpoint, user_ecall, supervisor_ecall, hypervisor_ecall,
  machine_ecall, illegal_instruction, ◌>>=◌, ◌>>◌, pure, raise, modify, gets_state, modify_state,
  skip, require,
}
use cmpe220fall.Insn.Context.{Context, sext_xlen, get_rs1, write_rd, require_privilege, set_pc}
use cmpe220fall.Mmu.Tlb.{flush_tlb, flush_icache}
use cmpe220fall.Privileged.Csr.{set_csr}
use cmpe220fall.Privileged.CsrRead.{get_csr}
use cmpe220fall.Privileged.Traps.{pop_privilege_stack}

-- PC_SERIALIZE, which makes the simulator's loop stop and retry the instruction.
abbrev pub pc_serialize : ℕ
pc_serialize = 3

abbrev pub return_early : Action (Unit {0})
return_early h = (early pc_serialize, h)

abbrev pub abort : {A : Type 0} → Action A
abort h = (aborted, h)

-- `validate_csr(which, write)` once `require_serialized` has passed.
unfoldable pub check_csr : ℕ → Bool → Action ℕ
unfolding require
check_csr which write = do
  modify_state (λ s. record s { serialized = false })
  mstatus ← gets_state (λ s. s.mstatus)
  let my_priv = get_field mstatus Encoding.mstatus_prv
  let csr_priv = get_field which 0x300
  let read_only = get_field which 0xC00 == 3
  require (not ((write && read_only) || ltb my_priv csr_priv))
  pure which

unfoldable pub validate_csr : ℕ → Bool → Action ℕ
unfolding check_csr
validate_csr which write = do
  serialized ← gets_state (λ s. s.serialized)
  if serialized then skip else return_early
  check_csr which write

-- The `switch` of scall.h.
unfoldable pub environment_call : ℕ → Action (Unit {0})
environment_call prv =
    if prv == Encoding.prv_u
    then raise user_ecall
    else if prv == Encoding.prv_s
    then raise supervisor_ecall
    else if prv == Encoding.prv_h
    then raise hypervisor_ecall
    else if prv == Encoding.prv_m
    then raise machine_ecall
    else skip

-- The `switch` of sret.h: where to return to.
unfoldable pub return_target : ℕ → Action ℕ
return_target prv =
    if prv == Encoding.prv_s
    then gets_state (λ s. s.sepc)
    else if prv == Encoding.prv_m
    then gets_state (λ s. s.mepc)
    else abort

module _ (host : Hart → Hart) (c : Context) where
  unfoldable pub csrrw : Action (Unit {0})
  csrrw = do
    which ← validate_csr (Decode.csr c.insn) true
    old ← get_csr host which
    a ← get_rs1 c
    modify (set_csr which (a))
    write_rd c (sext_xlen c.xlen old)

  unfoldable pub csrrs : Action (Unit {0})
  csrrs = do
    which ← validate_csr (Decode.csr c.insn) (not (Decode.rs1 c.insn == 0))
    old ← get_csr host which
    a ← get_rs1 c
    modify (set_csr which (bit_or old a))
    write_rd c (sext_xlen c.xlen old)

  unfoldable pub csrrc : Action (Unit {0})
  csrrc = do
    which ← validate_csr (Decode.csr c.insn) true
    old ← get_csr host which
    a ← get_rs1 c
    modify (set_csr which (bit_and old (not64 a)))
    write_rd c (sext_xlen c.xlen old)

  unfoldable pub csrrwi : Action (Unit {0})
  csrrwi = do
    which ← validate_csr (Decode.csr c.insn) true
    old ← get_csr host which
    modify (set_csr which (Decode.rs1 c.insn))
    write_rd c (sext_xlen c.xlen old)

  unfoldable pub csrrsi : Action (Unit {0})
  csrrsi = do
    which ← validate_csr (Decode.csr c.insn) true
    old ← get_csr host which
    modify (set_csr which (bit_or old (Decode.rs1 c.insn)))
    write_rd c (sext_xlen c.xlen old)

  unfoldable pub csrrci : Action (Unit {0})
  csrrci = do
    which ← validate_csr (Decode.csr c.insn) true
    old ← get_csr host which
    modify (set_csr which (bit_and old (not64 (Decode.rs1 c.insn))))
    write_rd c (sext_xlen c.xlen old)

module _ (c : Context) where
  -- mrts.h: hand a trap of the machine to the supervisor.
  unfoldable pub mrts : ℕ → Action ℕ
  mrts npc = do
    require_privilege Encoding.prv_m
    mstatus ← gets_state (λ s. s.mstatus)
    modify (set_csr Encoding.csr_mstatus (set_field mstatus Encoding.mstatus_prv Encoding.prv_s))
    modify_state (λ s. record s { sbadaddr = s.mbadaddr; scause = s.mcause; sepc = s.mepc })
    set_pc c (← gets_state (λ s. s.stvec))

  unfoldable pub sret : ℕ → Action ℕ
  sret npc = do
    require_privilege Encoding.prv_s
    mstatus ← gets_state (λ s. s.mstatus)
    target ← set_pc c (← return_target (get_field mstatus Encoding.mstatus_prv))
    modify pop_privilege_stack
    pure target

unfoldable pub scall : Action (Unit {0})
scall = do
  mstatus ← gets_state (λ s. s.mstatus)
  environment_call (get_field mstatus Encoding.mstatus_prv)

unfoldable pub sbreak : Action (Unit {0})
sbreak = raise breakpoint

unfoldable pub hrts : Action (Unit {0})
hrts = raise illegal_instruction

unfoldable pub mrth : Action (Unit {0})
mrth = raise illegal_instruction

unfoldable pub wfi : Action (Unit {0})
wfi = skip

unfoldable pub fence : Action (Unit {0})
fence = skip

unfoldable pub fence_i : Action (Unit {0})
fence_i = modify (λ h. record h { mmu = flush_icache h.mmu })

unfoldable pub sfence_vm : Action (Unit {0})
sfence_vm = do require_privilege Encoding.prv_s; modify (λ h. record h { mmu = flush_tlb h.mmu })
