-- ===== src/Machine/Monad.antt =====
-- Actions on a hart. A C++ exception leaves what was written before it in place, so the hart comes
-- back beside every outcome.
use cmpe220fall.Machine.Data.{Hart, State, Trap, illegal_instruction, regfile_write}
use cmpe220fall.Base.{ℕ, Bool, if◌then◌else◌, true}

-- `early n` is `return n` from the instruction function, before its end; `aborted` is `abort()`.
pub data Outcome (A : Type 0) : Type 0 where
  ret : A → Outcome A
  throw : Trap → Outcome A
  early : ℕ → Outcome A
  aborted : Outcome A

abbrev pub Action : Type 0 → Type 0
Action A = Hart → Outcome A × Hart

abbrev pub pure : {A : Type 0} → A → Action A
pure a h = (ret a, h)

abbrev pub raise : {A : Type 0} → Trap → Action A
raise t h = (throw t, h)

abbrev pub gets : {A : Type 0} → (Hart → A) → Action A
gets f h = (ret (f h), h)

abbrev pub modify : (Hart → Hart) → Action (Unit {0})
modify f h = (ret tt, f h)

abbrev pub continue : {A B : Type 0} → Outcome A → (A → Action B) → Action B
continue (ret a) f h = f a h
continue (throw t) f h = (throw t, h)
continue (early n) f h = (early n, h)
continue aborted f h = (aborted, h)

infixl 5 ◌>>=◌ ◌>>◌
abbrev pub ◌>>=◌ : {A B : Type 0} → Action A → (A → Action B) → Action B
◌>>=◌ m f h = let (r, h') = m h in continue r f h'

abbrev pub ◌>>◌ : {A B : Type 0} → Action A → Action B → Action B
m >> k = m >>= λ _. k

abbrev pub skip : Action (Unit {0})
skip = pure tt

-- `require(x)`.
unfoldable pub require : Bool → Action (Unit {0})
require b = if b then skip else raise illegal_instruction

abbrev pub gets_state : {A : Type 0} → (State → A) → Action A
gets_state f = gets (λ h. f h.state)

abbrev pub modify_state : (State → State) → Action (Unit {0})
modify_state f = modify (λ h. record h { state = f h.state })

-- `STATE.XPR[i]`, `STATE.FPR[i]`, and the writes of both files.
unfoldable pub read_reg : ℕ → Action ℕ
read_reg i = gets_state (λ s. s.xpr i)

unfoldable pub read_freg : ℕ → Action ℕ
read_freg i = gets_state (λ s. s.fpr i)

unfoldable pub write_reg : ℕ → ℕ → Action (Unit {0})
unfolding regfile_write
write_reg i value = modify_state (λ s. record s { xpr = regfile_write true s.xpr i value })
