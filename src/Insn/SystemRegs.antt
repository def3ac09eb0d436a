-- ===== src/Insn/SystemRegs.antt =====
-- Control and status registers, the privilege stack and the environment instructions keep the
-- register files.
use cmpe220fall.Base.{ℕ, Bool, true, false, refl, inr, ◌≡◌, if◌then◌else◌}
use cmpe220fall.Machine.{Hart, modify, modify_state, gets}
use cmpe220fall.Insn.Context.{dirty_fp_state}
use cmpe220fall.Insn.Context.{Context, require_privilege}
use cmpe220fall.Insn.System
use cmpe220fall.Insn.Rules.{
  SameRegs, same_regs, modify-KeepsRegs, gets-bind-Keeps, any-bind-Keeps, if-KeepsRegs,
  pure-KeepsRegs, raise-KeepsRegs,
}
use cmpe220fall.Insn.Registers.{
  IsContext, IsRegfile, KeepsRegs, require-KeepsRegs, then-Keeps, regs_rules,
}
use cmpe220fall.Privileged.Csr.{set_csr, set_mstatus}
use cmpe220fall.Privileged.CsrRead.{get_csr, csr_case}
use cmpe220fall.Mmu.Tlb.{flush_tlb}

if-SameRegs :
    {h : Hart} (b : Bool) (t u : Hart)
    → SameRegs h t
    → SameRegs h u
    → SameRegs h (if b then t else u)
if-SameRegs true t u p q = p
if-SameRegs false t u p q = q

pub set_mstatus-SameRegs : (val : ℕ) (h : Hart) → SameRegs h (set_mstatus val h)
unfolding set_mstatus
set_mstatus-SameRegs val h = record { xpr = refl; fpr = refl; xlen = inr refl; max_xlen = refl }

leaf-SameRegs :
    {h t : Hart}
    → t.state.xpr ≡ h.state.xpr
    → t.state.fpr ≡ h.state.fpr
    → t.xlen ≡ h.xlen
    → t.max_xlen ≡ h.max_xlen
    → SameRegs h t
leaf-SameRegs a b c d = same_regs a b c d

pub set_csr-SameRegs : (which val : ℕ) (h : Hart) → SameRegs h (set_csr which val h)
unfolding set_csr dirty_fp_state
set_csr-SameRegs which val h =
    search (if-SameRegs, set_mstatus-SameRegs, leaf-SameRegs) depth 40 fits 100000

module _ (xlen : ℕ) where
  pub write_csr-Keeps : (which val : ℕ) → KeepsRegs xlen (modify (set_csr which val))
  write_csr-Keeps which val = modify-KeepsRegs xlen (set_csr which val) (set_csr-SameRegs which val)

  serialized-Keeps : KeepsRegs xlen (modify_state (λ s. record s { serialized = false }))
  serialized-Keeps = modify-KeepsRegs xlen _ λ h. same_regs refl refl refl refl

  early-Keeps : KeepsRegs xlen System.return_early
  early-Keeps = record { at = λ h p. (p, tt) }

  pub require_privilege-Keeps : (prv : ℕ) → KeepsRegs xlen (require_privilege prv)
  unfolding require_privilege
  require_privilege-Keeps prv = search (gets-bind-Keeps, require-KeepsRegs) depth 6

  validate_csr-Keeps : (which : ℕ) (write : Bool) → KeepsRegs xlen (System.validate_csr which write)
  unfolding System.validate_csr System.check_csr
  validate_csr-Keeps which write =
      search
        (
          gets-bind-Keeps, then-Keeps, if-KeepsRegs, pure-KeepsRegs, early-Keeps, serialized-Keeps,
          require-KeepsRegs,
        )
        depth 12

-- A host whose ticks keep well-formed register files: a reset clears them, and nothing else writes
-- to them.
abbrev pub RegsHost : (Hart → Hart) → Type 0
RegsHost host = (xlen : ℕ) (h : Hart) → IsRegfile xlen h → IsRegfile xlen (host h)

module _ (host : Hart → Hart) (tk : RegsHost host) (xlen : ℕ) where
  tick-Keeps : KeepsRegs xlen (modify host)
  tick-Keeps = record { at = λ h p. (tk xlen h p, tt) }

  gets-Keeps : {A : Type 0} (f : Hart → A) → KeepsRegs xlen (gets f)
  gets-Keeps f = record { at = λ h p. (p, tt) }

  csr_case-Keeps : (h : Hart) (which : ℕ) → KeepsRegs xlen (csr_case host h which)
  unfolding csr_case
  csr_case-Keeps h which =
      search
        (
          if-KeepsRegs, pure-KeepsRegs, raise-KeepsRegs, gets-bind-Keeps, then-Keeps,
          require-KeepsRegs, tick-Keeps, gets-Keeps,
        )
        depth 60 fits 100000

  pub get_csr-Keeps : (which : ℕ) → KeepsRegs xlen (get_csr host which)
  unfolding get_csr
  get_csr-Keeps which = record { at = λ h p. (csr_case-Keeps h which).at h p }

module _ (host : Hart → Hart) (tk : RegsHost host) (c : Context) (k : IsContext c) where
  ruleset csr_rules =
      (regs_rules, any-bind-Keeps, validate_csr-Keeps, get_csr-Keeps, write_csr-Keeps)

  pub csrrw-KeepsRegs : KeepsRegs c.xlen (System.csrrw host c)
  unfolding System.csrrw
  csrrw-KeepsRegs = search csr_rules depth 12 fits 20000

  pub csrrs-KeepsRegs : KeepsRegs c.xlen (System.csrrs host c)
  unfolding System.csrrs
  csrrs-KeepsRegs = search csr_rules depth 12 fits 20000

  pub csrrc-KeepsRegs : KeepsRegs c.xlen (System.csrrc host c)
  unfolding System.csrrc
  csrrc-KeepsRegs = search csr_rules depth 12 fits 20000

  pub csrrwi-KeepsRegs : KeepsRegs c.xlen (System.csrrwi host c)
  unfolding System.csrrwi
  csrrwi-KeepsRegs = search csr_rules depth 12 fits 20000

  pub csrrsi-KeepsRegs : KeepsRegs c.xlen (System.csrrsi host c)
  unfolding System.csrrsi
  csrrsi-KeepsRegs = search csr_rules depth 12 fits 20000

  pub csrrci-KeepsRegs : KeepsRegs c.xlen (System.csrrci host c)
  unfolding System.csrrci
  csrrci-KeepsRegs = search csr_rules depth 12 fits 20000

module _ (xlen : ℕ) where
  environment_call-Keeps : (prv : ℕ) → KeepsRegs xlen (System.environment_call prv)
  unfolding System.environment_call
  environment_call-Keeps prv = search (if-KeepsRegs, pure-KeepsRegs, raise-KeepsRegs) depth 8

  pub scall-KeepsRegs : KeepsRegs xlen System.scall
  unfolding System.scall
  scall-KeepsRegs = search (gets-bind-Keeps, environment_call-Keeps)

  pub sbreak-KeepsRegs : KeepsRegs xlen System.sbreak
  unfolding System.sbreak
  sbreak-KeepsRegs = raise-KeepsRegs xlen _

  pub hrts-KeepsRegs : KeepsRegs xlen System.hrts
  unfolding System.hrts
  hrts-KeepsRegs = raise-KeepsRegs xlen _

  pub mrth-KeepsRegs : KeepsRegs xlen System.mrth
  unfolding System.mrth
  mrth-KeepsRegs = raise-KeepsRegs xlen _

  pub wfi-KeepsRegs : KeepsRegs xlen System.wfi
  unfolding System.wfi
  wfi-KeepsRegs = pure-KeepsRegs xlen tt

  pub fence-KeepsRegs : KeepsRegs xlen System.fence
  unfolding System.fence
  fence-KeepsRegs = pure-KeepsRegs xlen tt

  pub fence_i-KeepsRegs : KeepsRegs xlen System.fence_i
  unfolding System.fence_i
  fence_i-KeepsRegs = modify-KeepsRegs xlen _ λ h. same_regs refl refl refl refl

  flush-Keeps : KeepsRegs xlen (modify (λ h. record h { mmu = flush_tlb h.mmu }))
  flush-Keeps = modify-KeepsRegs xlen _ λ h. same_regs refl refl refl refl

  pub sfence_vm-KeepsRegs : KeepsRegs xlen System.sfence_vm
  unfolding System.sfence_vm
  sfence_vm-KeepsRegs = search (then-Keeps, require_privilege-Keeps, flush-Keeps)
