-- ===== src/Privileged/Reservation.antt =====
-- A trap gives up the reservation of a load-reserved, so that the next store-conditional fails.
use cmpe220fall.Base.{ℕ, ◌≡◌, ◌≢◌, refl, sym, ap, ◌∙◌, true, false, arith, ◌==◌}
use cmpe220fall.Base.Word.{uint64_max}
use cmpe220fall.Decode
use cmpe220fall.Machine.{
  Trap, instruction_address_misaligned, instruction_access_fault, illegal_instruction, breakpoint,
  load_address_misaligned, store_address_misaligned, load_access_fault, store_access_fault,
  user_ecall, supervisor_ecall, hypervisor_ecall, machine_ecall, interrupt, Hart, State, Bus,
  require,
}
use cmpe220fall.Insn.Context.{
  Context, write_rd, supports_extension, require_extension, get_rs1, get_rs2, ext_a,
}
use cmpe220fall.Insn.Atomic
use cmpe220fall.Privileged.Traps.{take_trap, side_effects}
use cmpe220fall.Privileged.Csr.{set_csr}

-- What a trap does to the parts of the state that a store-conditional reads.
record IsCleared (s t : State) : Type 0 where
  reservation : t.load_reservation ≡ s.load_reservation
  registers : t.xpr ≡ s.xpr

side_effects-IsCleared : (t : Trap) (s : State) → IsCleared s (side_effects t s)
unfolding side_effects
side_effects-IsCleared (instruction_address_misaligned a) s = record {
  reservation = refl;
  registers = refl;
}
side_effects-IsCleared (instruction_access_fault a) s = record {
  reservation = refl;
  registers = refl;
}
side_effects-IsCleared (load_address_misaligned a) s = record {
  reservation = refl;
  registers = refl;
}
side_effects-IsCleared (store_address_misaligned a) s = record {
  reservation = refl;
  registers = refl;
}
side_effects-IsCleared (load_access_fault a) s = record { reservation = refl; registers = refl }
side_effects-IsCleared (store_access_fault a) s = record { reservation = refl; registers = refl }
side_effects-IsCleared (interrupt a) s = record { reservation = refl; registers = refl }
side_effects-IsCleared illegal_instruction s = record { reservation = refl; registers = refl }
side_effects-IsCleared breakpoint s = record { reservation = refl; registers = refl }
side_effects-IsCleared user_ecall s = record { reservation = refl; registers = refl }
side_effects-IsCleared supervisor_ecall s = record { reservation = refl; registers = refl }
side_effects-IsCleared hypervisor_ecall s = record { reservation = refl; registers = refl }
side_effects-IsCleared machine_ecall s = record { reservation = refl; registers = refl }

take_trap-reservation :
    (t : Trap) (epc : ℕ) (h : Hart) → (take_trap t epc h).state.load_reservation ≡ uint64_max
unfolding take_trap
take_trap-reservation t epc h = (side_effects-IsCleared t _).reservation

take_trap-xpr : (t : Trap) (epc : ℕ) (h : Hart) → (take_trap t epc h).state.xpr ≡ h.state.xpr
unfolding take_trap set_csr
take_trap-xpr t epc h = (side_effects-IsCleared t _).registers

take_trap-cpuid : (t : Trap) (epc : ℕ) (h : Hart) → (take_trap t epc h).cpuid ≡ h.cpuid
unfolding take_trap set_csr
take_trap-cpuid t epc h = refl

sc_w-elsewhere :
    (bus : Bus) (c : Context) (h : Hart)
    → supports_extension h.cpuid ext_a ≡ true
    → (h.state.xpr (Decode.rs1 c.insn) == h.state.load_reservation) ≡ false
    → Atomic.sc_w bus c h ≡ write_rd c 1 h
unfolding Atomic.sc_w require_extension get_rs1 get_rs2 require
sc_w-elsewhere bus c h ext e = rw (ext, e) refl

differs : (a b : ℕ) → a ≢ b → (a == b) ≡ false
differs a b n = ground arith

-- After any trap, a store-conditional whose address is not the word of all ones stores nothing: on a
-- hart with the atomic extension it only writes 1 to its destination.
pub sc_w-take_trap :
    (bus : Bus) (c : Context) (t : Trap) (epc : ℕ) (h : Hart)
    → supports_extension h.cpuid ext_a ≡ true
    → h.state.xpr (Decode.rs1 c.insn) ≢ uint64_max
    → Atomic.sc_w bus c (take_trap t epc h) ≡ write_rd c 1 (take_trap t epc h)
sc_w-take_trap bus c t epc h ext other =
    let reg : (take_trap t epc h).state.xpr (Decode.rs1 c.insn) ≡ h.state.xpr (Decode.rs1 c.insn) =
      ap (λ (r : ℕ → ℕ). r (Decode.rs1 c.insn)) (take_trap-xpr t epc h) in
    let supported = ap (λ cpuid. supports_extension cpuid ext_a) (take_trap-cpuid t epc h) ∙ ext in
    sc_w-elsewhere bus c (take_trap t epc h) supported
      (differs _ _ λ e. other (sym reg ∙ e ∙ take_trap-reservation t epc h))
