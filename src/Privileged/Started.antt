-- ===== src/Privileged/Started.antt =====
-- The state in which a processor starts.
use cmpe220fall.Base.{sym, ℕ, ◌≡◌, refl, Bool, true, false, not, if◌then◌else◌, inl, inr, arith}
use mathlib.Core.Bool.{false≢true}
use cmpe220fall.Base.Word.{uint64_max}
use cmpe220fall.Encoding
use cmpe220fall.Encoding.{get_field, set_field}
use cmpe220fall.Machine.{Hart}
use cmpe220fall.Insn.Canonical.{IsWidth, IsCanonical, small-IsCanonical}
use cmpe220fall.Insn.Registers.{IsRegfile}
use cmpe220fall.Privileged.Csr.{
  set_csr, set_mstatus, next_mstatus, mstatus_mask, merge, validate_vm, validate_priv,
}
use cmpe220fall.Privileged.Reset.{reset, state_reset, reset_mstatus}

-- A hart in machine mode with interrupts disabled, at the reset vector, without a reservation.
pub record IsStarted (h : Hart) : Type 0 where
  pub pc : h.state.pc ≡ 0x200
  pub mode : get_field h.state.mstatus Encoding.mstatus_prv ≡ Encoding.prv_m
  pub interrupts : get_field h.state.mstatus Encoding.mstatus_ie ≡ 0
  pub bare : get_field h.state.mstatus Encoding.mstatus_vm ≡ Encoding.vm_mbare
  pub reservation : h.state.load_reservation ≡ uint64_max
  pub registers : IsRegfile h.max_xlen h

-- The hart after the writes of `reset`.
abbrev after_reset : Hart → Hart
after_reset h = set_mstatus reset_mstatus (record h { state = state_reset })

-- What mstatus is then, at either width.
mstatus-after_reset :
    (max_xlen : ℕ)
    → IsWidth max_xlen
    → next_mstatus max_xlen false reset_mstatus reset_mstatus ≡ reset_mstatus
unfolding next_mstatus mstatus_mask get_field set_field merge validate_vm validate_priv
mstatus-after_reset max_xlen (inl e) = rw e refl
mstatus-after_reset max_xlen (inr e) = rw e refl

zero-IsCanonical : (xlen : ℕ) → IsWidth xlen → IsCanonical xlen 0
zero-IsCanonical xlen w = small-IsCanonical xlen 0 w (omega arith)

after_reset-IsStarted : (h : Hart) → IsWidth h.max_xlen → h.ext ≡ false → IsStarted (after_reset h)
unfolding set_mstatus state_reset get_field set_field
after_reset-IsStarted h w e =
    let same = mstatus-after_reset h.max_xlen w in
    record {
      pc = refl;
      mode = rw (e, same) refl;
      interrupts = rw (e, same) refl;
      bare = rw (e, same) refl;
      reservation = refl;
      registers = record {
        zero_reg = refl;
        canonical = λ i. zero-IsCanonical h.max_xlen w;
        floats = λ i. zero-IsCanonical 64 (inr refl);
        width = refl;
        max_width = refl;
      };
    }

-- mstatus does not change in the end, so nothing is flushed.
after_reset-mmu : (h : Hart) → (after_reset h).mmu ≡ h.mmu
unfolding set_mstatus state_reset set_field
after_reset-mmu h = refl

-- The reset of an extension is not called where there is none.
without_ext : (ext : Bool) (h t : Hart) → ext ≡ false → (if ext then h else t) ≡ t
without_ext true h t e = absurd (false≢true (sym e))
without_ext false h t e = refl

-- A processor of width 32 or 64 without an extension whose reset is asserted or released, and was
-- not before, starts at 0x200 in machine mode, interrupts disabled, with the mode Mbare in mstatus and
-- without a reservation, with well-formed register files; but its memory port, the TLB included, is
-- as it was.
pub reset-IsStarted :
    (ext_reset : Hart → Hart) (value : Bool) (h : Hart)
    → IsWidth h.max_xlen
    → h.ext ≡ false
    → ((reset ext_reset value value h).0 ≡ not value)
      × IsStarted (reset ext_reset value value h).1
      × ((reset ext_reset value value h).1.mmu ≡ h.mmu)
unfolding reset set_csr
reset-IsStarted ext_reset true h w e =
    let bare = without_ext h.ext (ext_reset (after_reset h)) (after_reset h) e in
    (refl, rw bare (after_reset-IsStarted h w e), rw bare (after_reset-mmu h))
reset-IsStarted ext_reset false h w e =
    let bare = without_ext h.ext (ext_reset (after_reset h)) (after_reset h) e in
    (refl, rw bare (after_reset-IsStarted h w e), rw bare (after_reset-mmu h))
