-- ===== src/Privileged/TrapReturn.antt =====
-- A trap and the return from it: riscv-isa-sim/riscv/processor.cc, riscv/insns/sret.h.
use cmpe220fall.Base.{ℕ, Bool, true, ◌≡◌, refl, ◌∙◌, ap, arith, bit_and}
use cmpe220fall.Machine.{
  Trap, instruction_address_misaligned, instruction_access_fault, illegal_instruction, breakpoint,
  load_address_misaligned, store_address_misaligned, load_access_fault, store_access_fault,
  user_ecall, supervisor_ecall, hypervisor_ecall, machine_ecall, interrupt, Hart, State, ret,
  require,
}
use cmpe220fall.Insn.Context.{Context, sext_xlen, set_pc, require_privilege}
use cmpe220fall.Insn.System
use cmpe220fall.Encoding
use cmpe220fall.Encoding.{get_field, set_field, mask_lsb}
use cmpe220fall.Privileged.Csr.{set_csr, set_mstatus, next_mstatus, validate_priv}
use cmpe220fall.Privileged.Traps.{pushed, popped, pop_privilege_stack, take_trap, side_effects}
use cmpe220fall.Privileged.Pushed.{next_mstatus-prv}
use cmpe220fall.Privileged.StackMoves.{
  prv-digits, ie-digit, prv1-digits, pushed-Pushes, popped-Pushes,
}
use cmpe220fall.Privileged.StatusWrites.{written-lower, written-upper}

-- The lower level after a push and a pop, each written to mstatus, is as before.
restored :
    (max_xlen : ℕ) (ext : Bool) (m : ℕ)
    → validate_priv (get_field m Encoding.mstatus_prv) ≡ true
    → let pushes = next_mstatus max_xlen ext m (pushed m) in
      let pops = next_mstatus max_xlen ext pushes (popped pushes) in
      (get_field pops Encoding.mstatus_prv ≡ get_field m Encoding.mstatus_prv)
      × (get_field pops Encoding.mstatus_ie ≡ get_field m Encoding.mstatus_ie)
restored max_xlen ext m e =
    let up = pushed-Pushes m in
    let a = pushed m in
    let a_prv1 : get_field a Encoding.mstatus_prv1 ≡ get_field m Encoding.mstatus_prv =
      omega (arith, prv1-digits a, prv-digits m, up.prv_low, up.prv_high) in
    let b = next_mstatus max_xlen ext m a in
    let (b4, b5, b3) = written-upper max_xlen ext m a (ap validate_priv a_prv1 ∙ e) in
    let down = popped-Pushes b in
    let c = popped b in
    let c_prv : get_field c Encoding.mstatus_prv ≡ get_field m Encoding.mstatus_prv = omega (
      arith,
      prv-digits c,
      prv-digits m,
      up.prv_low,
      up.prv_high,
      b4,
      b5,
      down.prv_low,
      down.prv_high,
    ) in
    let d = next_mstatus max_xlen ext b c in
    let (d1, d2, d0) = written-lower max_xlen ext b c (ap validate_priv c_prv ∙ e) in
    (
      omega (arith, prv-digits d, prv-digits c, d1, d2, c_prv),
      omega (arith, ie-digit d, ie-digit m, d0, down.ie, b3, up.ie),
    )

side_effects-return :
    (t : Trap) (s : State)
    → ((side_effects t s).mstatus ≡ s.mstatus) × ((side_effects t s).mepc ≡ s.mepc)
unfolding side_effects
side_effects-return (instruction_address_misaligned a) s = (refl, refl)
side_effects-return (instruction_access_fault a) s = (refl, refl)
side_effects-return (load_address_misaligned a) s = (refl, refl)
side_effects-return (store_address_misaligned a) s = (refl, refl)
side_effects-return (load_access_fault a) s = (refl, refl)
side_effects-return (store_access_fault a) s = (refl, refl)
side_effects-return (interrupt a) s = (refl, refl)
side_effects-return illegal_instruction s = (refl, refl)
side_effects-return breakpoint s = (refl, refl)
side_effects-return user_ecall s = (refl, refl)
side_effects-return supervisor_ecall s = (refl, refl)
side_effects-return hypervisor_ecall s = (refl, refl)
side_effects-return machine_ecall s = (refl, refl)

take_trap-mstatus :
    (t : Trap) (epc : ℕ) (h : Hart)
    → (take_trap t epc h).state.mstatus
      ≡ next_mstatus h.max_xlen h.ext h.state.mstatus (pushed h.state.mstatus)
unfolding take_trap set_csr set_mstatus
take_trap-mstatus t epc h = (side_effects-return t _).0

take_trap-mepc : (t : Trap) (epc : ℕ) (h : Hart) → (take_trap t epc h).state.mepc ≡ epc
unfolding take_trap
take_trap-mepc t epc h = (side_effects-return t _).1

take_trap-mode :
    (t : Trap) (epc : ℕ) (h : Hart)
    → get_field (take_trap t epc h).state.mstatus Encoding.mstatus_prv ≡ Encoding.prv_m
take_trap-mode t epc h =
    ap (λ m. get_field m Encoding.mstatus_prv) (take_trap-mstatus t epc h)
    ∙ next_mstatus-prv h.max_xlen h.ext h.state.mstatus

pop_mstatus :
    (h : Hart)
    → (pop_privilege_stack h).state.mstatus
      ≡ next_mstatus h.max_xlen h.ext h.state.mstatus (popped h.state.mstatus)
unfolding pop_privilege_stack set_csr set_mstatus
pop_mstatus h = refl

-- The mode and the flag of the interrupts of two harts are the same.
pub record SameMode (h t : Hart) : Type 0 where
  pub prv :
      get_field t.state.mstatus Encoding.mstatus_prv
      ≡ get_field h.state.mstatus Encoding.mstatus_prv
  pub ie :
      get_field t.state.mstatus Encoding.mstatus_ie ≡ get_field h.state.mstatus Encoding.mstatus_ie

pop-SameMode :
    (h t : Hart)
    → validate_priv (get_field h.state.mstatus Encoding.mstatus_prv) ≡ true
    → t.state.mstatus ≡ next_mstatus h.max_xlen h.ext h.state.mstatus (pushed h.state.mstatus)
    → t.max_xlen ≡ h.max_xlen
    → t.ext ≡ h.ext
    → SameMode h (pop_privilege_stack t)
pop-SameMode h t e m w x =
    let (prv, ie) = restored h.max_xlen h.ext h.state.mstatus e in
    record { prv = rw (pop_mstatus t, w, x, m) prv; ie = rw (pop_mstatus t, w, x, m) ie }

take_trap-SameMode :
    (t : Trap) (epc : ℕ) (h : Hart)
    → validate_priv (get_field h.state.mstatus Encoding.mstatus_prv) ≡ true
    → SameMode h (pop_privilege_stack (take_trap t epc h))
unfolding take_trap set_csr
take_trap-SameMode t epc h e =
    pop-SameMode h (take_trap t epc h) e (take_trap-mstatus t epc h) refl refl

sret-machine :
    (c : Context) (npc : ℕ) (h : Hart)
    → get_field h.state.mstatus Encoding.mstatus_prv ≡ Encoding.prv_m
    → bit_and h.state.mepc 2 ≡ 0
    → System.sret c npc h ≡ (ret (sext_xlen c.xlen h.state.mepc), pop_privilege_stack h)
unfolding System.sret System.return_target require_privilege require set_pc
sret-machine c npc h mode aligned = rw mode (rw (mode, aligned) refl)

-- If a hart in user, supervisor or machine mode takes any trap at an address whose bit 1 is clear,
-- then an sret right after it, in any frame, does not trap: it goes back to that address,
-- sign-extended from the width of the frame, and to the mode and the interrupt flag from before the
-- trap.
pub sret-take_trap :
    (c : Context) (npc : ℕ) (t : Trap) (epc : ℕ) (h : Hart)
    → validate_priv (get_field h.state.mstatus Encoding.mstatus_prv) ≡ true
    → bit_and epc 2 ≡ 0
    → (r : Hart) × (System.sret c npc (take_trap t epc h) ≡ (ret (sext_xlen c.xlen epc), r))
      × SameMode h r
sret-take_trap c npc t epc h e aligned =
    let back = take_trap-mepc t epc h in
    (
      pop_privilege_stack (take_trap t epc h),
      sret-machine c npc (take_trap t epc h) (take_trap-mode t epc h)
            (ap (λ a. bit_and a 2) back ∙ aligned)
          ∙ ap (λ a. (ret (sext_xlen c.xlen a), pop_privilege_stack (take_trap t epc h))) back,
      take_trap-SameMode t epc h e,
    )
