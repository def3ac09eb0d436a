-- ===== src/Insn/CompressedJumpRegs.antt =====
-- The compressed jumps, and the returns of traps, keep the register files, and where they send the
-- program is an address in the form of the width.
use cmpe220fall.Base.{ℕ, refl}
use cmpe220fall.Machine.{Action, Hart, gets, modify, modify_state, ◌>>=◌}
use cmpe220fall.Machine.Keeps.{Anything, Keeps-bind}
use cmpe220fall.Insn.Context.{Context, jumping}
use cmpe220fall.Insn.CompressedJumps
use cmpe220fall.Insn.System
use cmpe220fall.Insn.Canonical.{IsCanonical}
use cmpe220fall.Insn.Rules.{modify-KeepsRegs, same_regs, if-KeepsRegs}
use cmpe220fall.Insn.Registers.{
  IsContext, KeepsRegs, write_reg-Keeps, require-KeepsRegs, require_extension-Keeps, regs_rules,
}
use cmpe220fall.Insn.CompressedRegs.{rvc_rs1-Keeps, rvc_rs1s-Keeps}
use cmpe220fall.Insn.JumpRegs.{
  KeepsJump, jump-bind, jump-then, jump-if, jump-pure, jump-gets, set_pc-KeepsJump,
  next_pc-IsCanonical,
}
use cmpe220fall.Insn.SystemRegs.{set_csr-SameRegs, write_csr-Keeps, require_privilege-Keeps}
use cmpe220fall.Privileged.Traps.{pop_privilege_stack}

module _ (c : Context) (k : IsContext c) where
  ruleset compressed_jump_rules = (
    jump-bind, jump-then, jump-if, jump-pure, set_pc-KeepsJump, next_pc-IsCanonical, rvc_rs1-Keeps,
    rvc_rs1s-Keeps, write_reg-Keeps, require-KeepsRegs, require_extension-Keeps,
  )

  c_addiw-KeepsRegs : KeepsRegs c.xlen (CompressedJumps.c_addiw c)
  unfolding CompressedJumps.c_addiw
  c_addiw-KeepsRegs = search (regs_rules, rvc_rs1-Keeps) depth 10

  c_jal_link-KeepsJump : KeepsJump c.xlen (jumping c (CompressedJumps.c_jal_link c))
  unfolding jumping CompressedJumps.c_jal_link
  c_jal_link-KeepsJump = search compressed_jump_rules depth 9

  pub c_j-KeepsJump : KeepsJump c.xlen (jumping c (CompressedJumps.c_j c))
  unfolding jumping CompressedJumps.c_j
  c_j-KeepsJump = search compressed_jump_rules depth 9

  pub c_jal-KeepsJump : KeepsJump c.xlen (jumping c (CompressedJumps.c_jal c))
  unfolding jumping CompressedJumps.c_jal
  c_jal-KeepsJump = search (compressed_jump_rules, c_jal_link-KeepsJump, c_addiw-KeepsRegs) depth 9

  pub c_jalr-KeepsJump : KeepsJump c.xlen (jumping c (CompressedJumps.c_jalr c))
  unfolding jumping CompressedJumps.c_jalr
  c_jalr-KeepsJump = search compressed_jump_rules depth 9

  pub c_jr-KeepsJump : KeepsJump c.xlen (jumping c (CompressedJumps.c_jr c))
  unfolding jumping CompressedJumps.c_jr
  c_jr-KeepsJump = search compressed_jump_rules depth 9

  pub c_beqz-KeepsJump : KeepsJump c.xlen (jumping c (CompressedJumps.c_beqz c))
  unfolding jumping CompressedJumps.c_beqz
  c_beqz-KeepsJump = search compressed_jump_rules depth 9

  pub c_bnez-KeepsJump : KeepsJump c.xlen (jumping c (CompressedJumps.c_bnez c))
  unfolding jumping CompressedJumps.c_bnez
  c_bnez-KeepsJump = search compressed_jump_rules depth 9

module _ (c : Context) (k : IsContext c) where
  abort-Keeps : KeepsRegs c.xlen (System.abort {A = ℕ})
  abort-Keeps = record { at = λ h p. (p, tt) }

  gets-Keeps : (f : Hart → ℕ) → KeepsRegs c.xlen (gets f)
  gets-Keeps f = record { at = λ h p. (p, tt) }

  -- What is read of the hart, and a jump after it.
  read-KeepsJump :
      (r : Action ℕ) (f : ℕ → Action ℕ)
      → KeepsRegs c.xlen r
      → ((v : ℕ) → KeepsJump c.xlen (f v))
      → KeepsJump c.xlen (r >>= f)
  read-KeepsJump r f kr kf = Keeps-bind Anything (IsCanonical c.xlen) r f kr λ v _. kf v

  handed-Keeps :
      KeepsRegs c.xlen
        (modify_state (λ s. record s { sbadaddr = s.mbadaddr; scause = s.mcause; sepc = s.mepc }))
  handed-Keeps = modify-KeepsRegs c.xlen _ λ h. same_regs refl refl refl refl

  popped-Keeps : KeepsRegs c.xlen (modify pop_privilege_stack)
  unfolding pop_privilege_stack
  popped-Keeps = modify-KeepsRegs c.xlen _ λ h. set_csr-SameRegs _ _ h

  return_target-Keeps : (prv : ℕ) → KeepsRegs c.xlen (System.return_target prv)
  unfolding System.return_target
  return_target-Keeps prv = search (if-KeepsRegs, gets-Keeps, abort-Keeps) depth 6

  pub mrts-KeepsJump : KeepsJump c.xlen (jumping c (System.mrts c))
  unfolding jumping System.mrts
  mrts-KeepsJump =
      search
        (
          jump-then, jump-gets, require_privilege-Keeps, write_csr-Keeps, handed-Keeps,
          set_pc-KeepsJump,
        )
        depth 10

  pub sret-KeepsJump : KeepsJump c.xlen (jumping c (System.sret c))
  unfolding jumping System.sret
  sret-KeepsJump =
      search
        (
          jump-then, jump-gets, jump-bind, jump-pure, read-KeepsJump, set_pc-KeepsJump,
          require_privilege-Keeps, return_target-Keeps, popped-Keeps,
        )
        depth 12
