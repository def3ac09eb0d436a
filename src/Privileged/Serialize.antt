-- ===== src/Privileged/Serialize.antt =====
-- PC_SERIALIZE: a CSR access is retried once, and then goes through.
use cmpe220fall.Base.{ap, ℕ, ◌≡◌, refl, Bool, true, false, if◌then◌else◌}
use cmpe220fall.Machine.{
  Hart, Action, Outcome, ret, throw, early, aborted, pure, raise, gets, modify, ◌>>=◌, ◌>>◌,
  require, read_reg, write_reg, continue,
}
use cmpe220fall.Insn.Context.{Context, get_rs1, write_rd}
use cmpe220fall.Insn.System
use cmpe220fall.Insn.System.{validate_csr, check_csr, pc_serialize}
use cmpe220fall.Privileged.CsrRead.{get_csr, csr_case, get_fp, get_high}

-- The action does not leave its instruction with an early return.
abbrev pub IsWhole : {A : Type 0} → Outcome A → Type 0
IsWhole (ret a) = Unit
IsWhole (throw t) = Unit
IsWhole (early n) = ⊥
IsWhole aborted = Unit

pub record Passes {A : Type 0} (m : Action A) : Type 0 where
  pub at : (h : Hart) → IsWhole (m h).0

module _ {A B : Type 0} (f : A → Action B) where
  continue-IsWhole :
      (r : Outcome A) (h : Hart) → IsWhole r → ((a : A) → Passes (f a)) → IsWhole (continue r f h).0
  continue-IsWhole (ret a) h p k = (k a).at h
  continue-IsWhole (throw t) h p k = tt
  continue-IsWhole (early n) h p k = absurd p
  continue-IsWhole aborted h p k = tt

  bind-Passes : (m : Action A) → Passes m → ((a : A) → Passes (f a)) → Passes (m >>= f)
  bind-Passes m p k = record { at = λ h. continue-IsWhole (m h).0 (m h).1 (p.at h) k }

pure-Passes : {A : Type 0} (a : A) → Passes (pure a)
pure-Passes a = record { at = λ h. tt }

raise-Passes : {A : Type 0} (t : _) → Passes (raise {A = A} t)
raise-Passes t = record { at = λ h. tt }

gets-Passes : {A : Type 0} (g : Hart → A) → Passes (gets g)
gets-Passes g = record { at = λ h. tt }

modify-Passes : (g : Hart → Hart) → Passes (modify g)
modify-Passes g = record { at = λ h. tt }

if-Passes :
    {A : Type 0} (b : Bool) (m n : Action A) → Passes m → Passes n → Passes (if b then m else n)
if-Passes true m n p q = p
if-Passes false m n p q = q

require-Passes : (b : Bool) → Passes (require b)
unfolding require
require-Passes b = search (if-Passes, pure-Passes, raise-Passes)

ruleset pass_rules =
    (bind-Passes, pure-Passes, raise-Passes, gets-Passes, modify-Passes, if-Passes, require-Passes)

module _ (host : Hart → Hart) where
  get_fp-Passes : (value : ℕ) → Passes (get_fp host value)
  get_fp-Passes value = search pass_rules

  get_high-Passes : (xlen value : ℕ) → Passes (get_high host xlen value)
  get_high-Passes xlen value = search pass_rules

  polled-Passes : (g : Hart → ℕ) → Passes (modify host >> gets g)
  polled-Passes g = bind-Passes (λ _. gets g) (modify host) (modify-Passes _) λ _. gets-Passes g

  csr_case-Passes : (h : Hart) (which : ℕ) → Passes (csr_case host h which)
  unfolding csr_case
  csr_case-Passes h which =
      search (if-Passes, pure-Passes, raise-Passes, get_fp-Passes, get_high-Passes, polled-Passes)
        depth 60 fits 4000

  get_csr-Passes : (which : ℕ) → Passes (get_csr host which)
  unfolding get_csr
  get_csr-Passes which = record { at = λ h. (csr_case-Passes h which).at h }

read_reg-Passes : (i : ℕ) → Passes (read_reg i)
unfolding read_reg
read_reg-Passes i = gets-Passes _

write_reg-Passes : (i v : ℕ) → Passes (write_reg i v)
unfolding write_reg
write_reg-Passes i v = modify-Passes _

module _ (c : Context) where
  get_rs1-Passes : Passes (get_rs1 c)
  unfolding get_rs1
  get_rs1-Passes = read_reg-Passes _

  write_rd-Passes : (v : ℕ) → Passes (write_rd c v)
  unfolding write_rd
  write_rd-Passes v = write_reg-Passes _ v

-- What an action does on harts that are serialized, and on the others.
abbrev pub Retried : {A : Type 0} → Action A → Type 0
Retried m =
    (h : Hart)
    → (h.state.serialized ≡ false → m h ≡ (early pc_serialize, h))
      × (h.state.serialized ≡ true → IsWhole (m h).0)

check_csr-Passes : (which : ℕ) (write : Bool) → Passes (check_csr which write)
unfolding check_csr
check_csr-Passes which write = search pass_rules

validate_csr-Retried : (which : ℕ) (write : Bool) → Retried (validate_csr which write)
unfolding validate_csr
validate_csr-Retried which write h =
    (λ e. rw e refl, λ e. rw e ((check_csr-Passes which write).at h))

module _ {A B : Type 0} (m : Action A) (f : A → Action B) where
  bind-Retried : Retried m → ((a : A) → Passes (f a)) → Retried (m >>= f)
  bind-Retried r k h = (
    λ e. ap (λ x. continue x.0 f x.1) ((r h).0 e),
    λ e. continue-IsWhole f (m h).0 (m h).1 ((r h).1 e) k,
  )

ruleset retry_rules = (
  bind-Retried, validate_csr-Retried, pass_rules, get_csr-Passes, get_rs1-Passes, write_rd-Passes,
)

module _ (host : Hart → Hart) (c : Context) where
  csrrw-Retried : Retried (System.csrrw host c)
  unfolding System.csrrw
  csrrw-Retried = search retry_rules

  csrrs-Retried : Retried (System.csrrs host c)
  unfolding System.csrrs
  csrrs-Retried = search retry_rules

  csrrc-Retried : Retried (System.csrrc host c)
  unfolding System.csrrc
  csrrc-Retried = search retry_rules

  csrrwi-Retried : Retried (System.csrrwi host c)
  unfolding System.csrrwi
  csrrwi-Retried = search retry_rules

  csrrsi-Retried : Retried (System.csrrsi host c)
  unfolding System.csrrsi
  csrrsi-Retried = search retry_rules

  csrrci-Retried : Retried (System.csrrci host c)
  unfolding System.csrrci
  csrrci-Retried = search retry_rules

  -- The six CSR instructions, on a hart that is not serialized, leave it as it is and return
  -- PC_SERIALIZE; on one that is, they do not return early.
  pub csr-Retried :
      Retried (System.csrrw host c)
      × Retried (System.csrrs host c)
      × Retried (System.csrrc host c)
      × Retried (System.csrrwi host c)
      × Retried (System.csrrsi host c)
      × Retried (System.csrrci host c)
  csr-Retried =
      (csrrw-Retried, csrrs-Retried, csrrc-Retried, csrrwi-Retried, csrrsi-Retried, csrrci-Retried)
