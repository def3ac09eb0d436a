-- ===== src/Insn/Rules.antt =====
-- Rules for keeping the register file, beyond those of the integer instructions: tests of CSRs,
-- floating-point registers, softfloat calls, and results of 64 bits.
use cmpe220fall.Base.{
  ℕ, ◌^◌, ◌<◌, ◌≡◌, ◌∙◌, refl, ap, ◌⊎◌, ◌==◌, ==_iff, arith, Bool, true, false, inl, inr,
  if◌then◌else◌,
}
use cmpe220fall.Base.Word.{u32}
use cmpe220fall.Machine.{Hart, Trap, Action, pure, raise, gets, modify, ◌>>=◌, read_freg}
use cmpe220fall.Machine.Keeps.{
  Keeps, Anything, Keeps-pure, Keeps-raise, Keeps-gets, Keeps-bind, require-Keeps,
}
use cmpe220fall.Mmu.Frame.{Untouched}
use cmpe220fall.Insn.Context.{Context, zext32, require_rv64, require_fp, require_privilege}
use cmpe220fall.Insn.FloatContext.{
  call, set_fp_exceptions, f32, get_frs1, get_frs2, get_frs3, write_freg, write_frd, get_rm,
  set_rounding_mode,
}
use cmpe220fall.Insn.Canonical.{
  IsCanonical, IsCanonical-InRange, InRange-IsCanonical, small-IsCanonical,
}
use cmpe220fall.Insn.Registers.{IsContext, IsRegfile, KeepsRegs, require-KeepsRegs, then-Keeps}

-- The registers of `t` are those of `h`, and its width is that of `h` or the largest.
pub record SameRegs (h t : Hart) : Type 0 where
  pub xpr : t.state.xpr ≡ h.state.xpr
  pub fpr : t.state.fpr ≡ h.state.fpr
  pub xlen : (t.xlen ≡ h.xlen) ⊎ (t.xlen ≡ h.max_xlen)
  pub max_xlen : t.max_xlen ≡ h.max_xlen

pub same-IsRegfile : (xlen : ℕ) (h t : Hart) → SameRegs h t → IsRegfile xlen h → IsRegfile xlen t
same-IsRegfile xlen h t s p = record {
  zero_reg = rw s.xpr p.zero_reg;
  canonical = λ i. rw s.xpr (p.canonical i);
  floats = λ i. rw s.fpr (p.floats i);
  width = elim s.xlen [ inl e ↦ e ∙ p.width | inr e ↦ e ∙ p.max_width ];
  max_width = s.max_xlen ∙ p.max_width;
}

untouched-SameRegs : (h t : Hart) → Untouched h t → SameRegs h t
untouched-SameRegs h t u = record {
  xpr = ap (λ s. s.xpr) u.state;
  fpr = ap (λ s. s.fpr) u.state;
  xlen = inl u.xlen;
  max_xlen = u.max_xlen;
}

pub Untouched-IsRegfile :
    (xlen : ℕ) (h t : Hart) → Untouched h t → IsRegfile xlen h → IsRegfile xlen t
Untouched-IsRegfile xlen h t u p = same-IsRegfile xlen h t (untouched-SameRegs h t u) p

module _ {A : Type 0} (xlen : ℕ) where
  pub raise-KeepsRegs : (t : Trap) → KeepsRegs xlen (raise {A = A} t)
  raise-KeepsRegs t = Keeps-raise Anything t

  pub pure-KeepsRegs : (a : A) → KeepsRegs xlen (pure a)
  pure-KeepsRegs a = Keeps-pure Anything a tt

  pub if-KeepsRegs :
      (b : Bool) (m n : Action A)
      → KeepsRegs xlen m
      → KeepsRegs xlen n
      → KeepsRegs xlen (if b then m else n)
  if-KeepsRegs true m n km kn = km
  if-KeepsRegs false m n km kn = kn

module _ {A B : Type 0} (xlen : ℕ) where
  -- What is read of the hart is not used.
  pub gets-bind-Keeps :
      (g : Hart → A) (f : A → Action B)
      → ((a : A) → KeepsRegs xlen (f a))
      → KeepsRegs xlen (gets g >>= f)
  gets-bind-Keeps g f k =
      Keeps-bind Anything Anything (gets g) f (Keeps-gets Anything g λ h p. tt) (λ a _. k a)

  pub any-bind-Keeps :
      (r : Action A) (f : A → Action B)
      → KeepsRegs xlen r
      → ((a : A) → KeepsRegs xlen (f a))
      → KeepsRegs xlen (r >>= f)
  any-bind-Keeps r f k kf = Keeps-bind Anything Anything r f k (λ a _. kf a)

module _ {A : Type 0} (xlen : ℕ) where
  -- An action that gives 64 bits.
  pub wide-bind-Keeps :
      (r : Action ℕ) (f : ℕ → Action A)
      → Keeps (IsRegfile xlen) (IsCanonical 64) r
      → ((v : ℕ) → IsCanonical 64 v → KeepsRegs xlen (f v))
      → KeepsRegs xlen (r >>= f)
  wide-bind-Keeps r f k kf = Keeps-bind (IsCanonical 64) Anything r f k kf

-- A change that leaves the registers.
pub modify-KeepsRegs :
    (xlen : ℕ) (f : Hart → Hart) → ((h : Hart) → SameRegs h (f h)) → KeepsRegs xlen (modify f)
modify-KeepsRegs xlen f k = record { at = λ h p. (same-IsRegfile xlen h (f h) (k h) p, tt) }

abbrev pub same_regs :
    {h t : Hart}
    → t.state.xpr ≡ h.state.xpr
    → t.state.fpr ≡ h.state.fpr
    → t.xlen ≡ h.xlen
    → t.max_xlen ≡ h.max_xlen
    → SameRegs h t
same_regs a b c d = record { xpr = a; fpr = b; xlen = inl c; max_xlen = d }

pub word-IsCanonical : (v : ℕ) → v < 2 ^ 64 → IsCanonical 64 v
word-IsCanonical v h = InRange-IsCanonical 64 v (inr refl) (h, λ e. absurd (omega arith))

pub f32-IsCanonical : (a : ℕ) → IsCanonical 64 (f32 a)
unfolding f32
f32-IsCanonical a = word-IsCanonical (u32 a) (omega arith)

pub u32-IsCanonical : (a : ℕ) → IsCanonical 64 (u32 a)
u32-IsCanonical a = word-IsCanonical (u32 a) (omega arith)

pub zext32-IsCanonical : (a : ℕ) → IsCanonical 64 (zext32 a)
unfolding zext32
zext32-IsCanonical a = word-IsCanonical (u32 a) (omega arith)

module _ (xlen : ℕ) where
  pub call-Keeps : {A : Type 0} (x : A × ℕ) → KeepsRegs xlen (call x)
  unfolding call
  call-Keeps x = record {
    at = λ h p. (same-IsRegfile xlen h _ (same_regs refl refl refl refl) p, tt);
  }

  pub call-wide-Keeps :
      (x : ℕ × ℕ) → x.0 < 2 ^ 64 → Keeps (IsRegfile xlen) (IsCanonical 64) (call x)
  unfolding call
  call-wide-Keeps x lt = record {
    at =
        λ h p. (same-IsRegfile xlen h _ (same_regs refl refl refl refl) p, word-IsCanonical x.0 lt);
  }

  pub set_fp_exceptions-Keeps : KeepsRegs xlen set_fp_exceptions
  unfolding set_fp_exceptions
  set_fp_exceptions-Keeps = modify-KeepsRegs xlen _ λ h. same_regs refl refl refl refl

  pub require_fp-Keeps : KeepsRegs xlen require_fp
  unfolding require_fp
  require_fp-Keeps = search (gets-bind-Keeps, require-KeepsRegs)

  pub require_privilege-Keeps : (prv : ℕ) → KeepsRegs xlen (require_privilege prv)
  unfolding require_privilege
  require_privilege-Keeps prv = search (gets-bind-Keeps, require-KeepsRegs)

  pub read_freg-Keeps : (i : ℕ) → Keeps (IsRegfile xlen) (IsCanonical 64) (read_freg i)
  unfolding read_freg
  read_freg-Keeps i = record { at = λ h p. (p, p.floats i) }

module _ (c : Context) where
  pub get_frs1-Keeps : Keeps (IsRegfile c.xlen) (IsCanonical 64) (get_frs1 c)
  unfolding get_frs1
  get_frs1-Keeps = read_freg-Keeps c.xlen _

  pub get_frs2-Keeps : Keeps (IsRegfile c.xlen) (IsCanonical 64) (get_frs2 c)
  unfolding get_frs2
  get_frs2-Keeps = read_freg-Keeps c.xlen _

  pub get_frs3-Keeps : Keeps (IsRegfile c.xlen) (IsCanonical 64) (get_frs3 c)
  unfolding get_frs3
  get_frs3-Keeps = read_freg-Keeps c.xlen _

  pub get_rm-Keeps : KeepsRegs c.xlen (get_rm c)
  unfolding get_rm
  get_rm-Keeps = search (gets-bind-Keeps, then-Keeps, require-KeepsRegs, pure-KeepsRegs)

  pub set_rounding_mode-Keeps : KeepsRegs c.xlen (set_rounding_mode c)
  unfolding set_rounding_mode
  set_rounding_mode-Keeps = any-bind-Keeps c.xlen _ _ get_rm-Keeps λ rm.
      then-Keeps c.xlen _ _ (modify-KeepsRegs c.xlen _ λ h. same_regs refl refl refl refl)
        λ u. pure-KeepsRegs c.xlen rm

  pub write_freg-Keeps : (i v : ℕ) → IsCanonical 64 v → KeepsRegs c.xlen (write_freg c i v)
  unfolding write_freg
  write_freg-Keeps i v q = record {
    at = λ h p. (
      record {
        zero_reg = p.zero_reg;
        canonical = p.canonical;
        floats = λ j. ground (arith, p.floats j);
        width = p.width;
        max_width = p.max_width;
      },
      tt,
    );
  }

  pub write_frd-Keeps : (v : ℕ) → IsCanonical 64 v → KeepsRegs c.xlen (write_frd c v)
  unfolding write_frd
  write_frd-Keeps v q = write_freg-Keeps _ v q

  pub require_rv64-bind-Keeps :
      {A : Type 0} (f : Unit {0} → Action A)
      → (c.xlen ≡ 64 → (u : Unit {0}) → KeepsRegs c.xlen (f u))
      → KeepsRegs c.xlen (require_rv64 c >>= f)
  unfolding require_rv64
  require_rv64-bind-Keeps f k =
      Keeps-bind (λ _. (c.xlen == 64) ≡ true) Anything _ f (require-Keeps (c.xlen == 64))
        (λ u e. k ((==_iff c.xlen 64).0 e) u)

  -- A number in the form of the width has 64 bits, and on a 64-bit hart these are all it needs.
  pub widen-IsCanonical : (v : ℕ) → IsContext c → IsCanonical c.xlen v → IsCanonical 64 v
  widen-IsCanonical v k q = word-IsCanonical v (IsCanonical-InRange c.xlen v k.width q).0

  pub narrow-IsCanonical : (v : ℕ) → c.xlen ≡ 64 → IsCanonical 64 v → IsCanonical c.xlen v
  narrow-IsCanonical v e q = rw e q

  pub class-IsCanonical : (v : ℕ) → IsContext c → v < 2 ^ 10 → IsCanonical c.xlen v
  class-IsCanonical v k lt = small-IsCanonical c.xlen v k.width (omega arith)
