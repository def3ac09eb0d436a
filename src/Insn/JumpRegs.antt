-- ===== src/Insn/JumpRegs.antt =====
-- The jumps keep the register file, and where they send the program is an address in the form of the
-- width.
use cmpe220fall.Base.{ℕ, Bool, true, false, if◌then◌else◌}
use cmpe220fall.Machine.{Action, Hart, Trap, gets, raise, pure, ◌>>=◌}
use cmpe220fall.Machine.Keeps.{Keeps, Anything, Keeps-bind, Keeps-pure, Keeps-gets, Keeps-raise}
use cmpe220fall.Insn.Context.{Context, set_pc, next_pc, jumping}
use cmpe220fall.Insn.Branch
use cmpe220fall.Insn.Canonical.{IsCanonical, sext_xlen-IsCanonical}
use cmpe220fall.Insn.Registers.{
  IsContext, IsRegfile, KeepsRegs, get_rs1-Keeps, get_rs2-Keeps, write_rd-Keeps,
}

-- Keeps the register file and returns an address in the form of the width.
abbrev pub KeepsJump : ℕ → Action ℕ → Type 0
KeepsJump xlen m = Keeps (IsRegfile xlen) (IsCanonical xlen) m

module _ (xlen : ℕ) where
  pub jump-bind :
      (r : Action ℕ) (f : ℕ → Action ℕ)
      → KeepsJump xlen r
      → ((v : ℕ) → IsCanonical xlen v → KeepsJump xlen (f v))
      → KeepsJump xlen (r >>= f)
  jump-bind r f k kf = Keeps-bind (IsCanonical xlen) (IsCanonical xlen) r f k kf

  pub jump-then :
      (n : Action (Unit {0})) (f : Unit {0} → Action ℕ)
      → KeepsRegs xlen n
      → ((u : Unit {0}) → KeepsJump xlen (f u))
      → KeepsJump xlen (n >>= f)
  jump-then n f kn kf = Keeps-bind Anything (IsCanonical xlen) n f kn (λ u _. kf u)

  pub jump-if :
      (b : Bool) (m n : Action ℕ)
      → KeepsJump xlen m
      → KeepsJump xlen n
      → KeepsJump xlen (if b then m else n)
  jump-if true m n km kn = km
  jump-if false m n km kn = kn

  pub jump-pure : (v : ℕ) → IsCanonical xlen v → KeepsJump xlen (pure v)
  jump-pure v q = Keeps-pure (IsCanonical xlen) v q

  pub jump-raise : (t : Trap) → KeepsJump xlen (raise t)
  jump-raise t = Keeps-raise (IsCanonical xlen) t

  pub jump-gets :
      (f : Hart → ℕ) (g : ℕ → Action ℕ)
      → ((v : ℕ) → KeepsJump xlen (g v))
      → KeepsJump xlen (gets f >>= g)
  jump-gets f g k =
      Keeps-bind Anything (IsCanonical xlen) (gets f) g (Keeps-gets Anything f λ h p. tt)
        (λ v _. k v)

pub set_pc-KeepsJump : (c : Context) (target : ℕ) → IsContext c → KeepsJump c.xlen (set_pc c target)
unfolding set_pc
set_pc-KeepsJump c target k =
    search (jump-gets, jump-if, jump-raise, jump-pure, sext_xlen-IsCanonical) depth 7

module _ (c : Context) (k : IsContext c) where
  pub next_pc-IsCanonical : IsCanonical c.xlen (next_pc c)
  unfolding next_pc
  next_pc-IsCanonical = sext_xlen-IsCanonical c.xlen _ k.width

  ruleset jump_rules = (
    jump-bind, jump-then, jump-if, jump-pure, set_pc-KeepsJump, next_pc-IsCanonical, get_rs1-Keeps,
    get_rs2-Keeps, write_rd-Keeps,
  )

  pub beq-KeepsJump : KeepsJump c.xlen (jumping c (Branch.beq c))
  unfolding jumping Branch.beq
  beq-KeepsJump = search jump_rules depth 9

  pub bne-KeepsJump : KeepsJump c.xlen (jumping c (Branch.bne c))
  unfolding jumping Branch.bne
  bne-KeepsJump = search jump_rules depth 9

  pub blt-KeepsJump : KeepsJump c.xlen (jumping c (Branch.blt c))
  unfolding jumping Branch.blt
  blt-KeepsJump = search jump_rules depth 9

  pub bge-KeepsJump : KeepsJump c.xlen (jumping c (Branch.bge c))
  unfolding jumping Branch.bge
  bge-KeepsJump = search jump_rules depth 9

  pub bltu-KeepsJump : KeepsJump c.xlen (jumping c (Branch.bltu c))
  unfolding jumping Branch.bltu
  bltu-KeepsJump = search jump_rules depth 9

  pub bgeu-KeepsJump : KeepsJump c.xlen (jumping c (Branch.bgeu c))
  unfolding jumping Branch.bgeu
  bgeu-KeepsJump = search jump_rules depth 9

  pub jal-KeepsJump : KeepsJump c.xlen (jumping c (Branch.jal c))
  unfolding jumping Branch.jal
  jal-KeepsJump = search jump_rules depth 9

  pub jalr-KeepsJump : KeepsJump c.xlen (jumping c (Branch.jalr c))
  unfolding jumping Branch.jalr
  jalr-KeepsJump = search jump_rules depth 9
