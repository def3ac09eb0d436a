-- ===== src/Witness/Privileged.antt =====
-- A hart that is reset, one that accesses a CSR, one that misses an alignment, and one that returns
-- from a trap.
use cmpe220fall.Base.{◌≡◌, ◌^◌, refl, true, false, inl, arith}
use cmpe220fall.Machine.{
  Hart, ret, throw, illegal_instruction, load_address_misaligned, store_address_misaligned,
}
use cmpe220fall.Insn.System
use cmpe220fall.Mmu.Access.{load_uint, load_int, store_uint}
use cmpe220fall.Mmu.Misaligned.{misaligned_lem}
use cmpe220fall.Privileged.Reset.{reset}
use cmpe220fall.Privileged.Started.{IsStarted, reset-IsStarted}
use cmpe220fall.Privileged.Serialize.{Retried, csr-Retried}
use cmpe220fall.Privileged.Csr.{validate_priv}
use cmpe220fall.Privileged.Traps.{take_trap}
use cmpe220fall.Privileged.TrapReturn.{SameMode, sret-take_trap}
use cmpe220fall.Insn.Context.{sext_xlen}
use cmpe220fall.Encoding.{get_field}
use cmpe220fall.Witness.{some_hart, no_devices, add_context}
use cmpe220fall.Witness.Execute.{no_host}

abbrev no_extension : Hart → Hart
no_extension h = h

reset-IsStarted_example :
    ((reset no_extension false false some_hart).0 ≡ true)
    × IsStarted (reset no_extension false false some_hart).1
    × ((reset no_extension false false some_hart).1.mmu ≡ some_hart.mmu)
reset-IsStarted_example = reset-IsStarted no_extension false some_hart (inl refl) refl

csr-Retried_example :
    Retried (System.csrrw no_host add_context)
    × Retried (System.csrrs no_host add_context)
    × Retried (System.csrrc no_host add_context)
    × Retried (System.csrrwi no_host add_context)
    × Retried (System.csrrsi no_host add_context)
    × Retried (System.csrrci no_host add_context)
csr-Retried_example = csr-Retried no_host add_context

misaligned_lem_example :
    (load_uint no_devices (2 ^ 2) 0x5022 some_hart
      ≡ (throw (load_address_misaligned 0x5022), some_hart))
    × (load_int no_devices (2 ^ 2) 0x5022 some_hart
        ≡ (throw (load_address_misaligned 0x5022), some_hart))
    × (store_uint no_devices (2 ^ 2) 0x5022 7 some_hart
        ≡ (throw (store_address_misaligned 0x5022), some_hart))
misaligned_lem_example = misaligned_lem no_devices 2 0x5022 (λ e. absurd (omega arith)) some_hart 7

-- The hart in supervisor mode, interrupts enabled.
abbrev supervisor : Hart
supervisor = record some_hart { state = record some_hart.state { mstatus = 3 } }

supervisor-valid : validate_priv (get_field supervisor.state.mstatus 6) ≡ true
unfolding validate_priv get_field
supervisor-valid = refl

sret-take_trap_example :
    (r : Hart) × (System.sret add_context 0x104 (take_trap illegal_instruction 0x5024 supervisor)
      ≡ (ret (sext_xlen add_context.xlen 0x5024), r))
    × SameMode supervisor r
sret-take_trap_example =
    sret-take_trap add_context 0x104 illegal_instruction 0x5024 supervisor supervisor-valid refl
