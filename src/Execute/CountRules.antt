-- ===== src/Execute/CountRules.antt =====
-- Rules for the instruction count of `step`.
use cmpe220fall.Base.{Option-cases, inl, inr, ℕ, ◌≤◌, ◌≡◌, refl, Bool, true, false, if◌then◌else◌}
use cmpe220fall.Machine.{Hart, Outcome, ret, throw, early, aborted, Action, Bus}
use cmpe220fall.Machine.Keeps.{Returns}
use cmpe220fall.Insn.FloatContext.{SoftFloat}
use cmpe220fall.Opcode.Decoder.{decode_insn}
use cmpe220fall.Execute.Processor.{
  decode, refill_icache, access_icache, Loop, Task, pure, gets, modify, ◌>>=◌, go_on, on_hart,
  InsnFetch,
}
use cmpe220fall.Execute.Loop.{execute_insn}

-- However a task ends, at most `n` instructions are counted; where it returns, its value and the
-- count are as `Q` says.
pub record Ends {A : Type 0} (n : ℕ) (Q : A → ℕ → Type 0) (x : Outcome A × Loop) : Type 0 where
  pub bound : x.1.instret ≤ n
  pub result : Returns (λ a. Q a x.1.instret) x.0

-- A task that ends so from every count of which `P` holds.
pub record Runs {A : Type 0} (n : ℕ) (P : ℕ → Type 0) (Q : A → ℕ → Type 0) (m : Task A)
    : Type 0 where
  pub at : (l : Loop) → P l.instret → Ends n Q (m l)

anything-Returns : {A : Type 0} {Q : A → Type 0} → ((a : A) → Q a) → (r : Outcome A) → Returns Q r
anything-Returns k (ret a) = k a
anything-Returns k (throw t) = tt
anything-Returns k (early n) = tt
anything-Returns k aborted = tt

module _ {A B : Type 0} (n : ℕ) (P : ℕ → Type 0) (Q : A → ℕ → Type 0) (R : B → ℕ → Type 0) where
  go_on-Ends :
      (r : Outcome A) (f : A → Task B) (l : Loop)
      → Ends n Q (r, l)
      → ((a : A) → Runs n (Q a) R (f a))
      → Ends n R (go_on r f l)
  go_on-Ends (ret a) f l e k = (k a).at l e.result
  go_on-Ends (throw t) f l e k = record { bound = e.bound; result = tt }
  go_on-Ends (early _) f l e k = record { bound = e.bound; result = tt }
  go_on-Ends aborted f l e k = record { bound = e.bound; result = tt }

  pub Runs-bind :
      (m : Task A) (f : A → Task B)
      → Runs n P Q m
      → ((a : A) → Runs n (Q a) R (f a))
      → Runs n P R (m >>= f)
  Runs-bind m f km kf = record { at = λ l p. go_on-Ends (m l).0 f (m l).1 (km.at l p) kf }

module _ {A : Type 0} (n : ℕ) (P : ℕ → Type 0) (Q : A → ℕ → Type 0) where
  pub Runs-pure : (a : A) → ((i : ℕ) → P i → (i ≤ n) × Q a i) → Runs n P Q (pure a)
  Runs-pure a k = record {
    at = λ l p. record { bound = (k l.instret p).0; result = (k l.instret p).1 };
  }

  pub Runs-if :
      (b : Bool) (m k : Task A)
      → (b ≡ true → Runs n P Q m)
      → (b ≡ false → Runs n P Q k)
      → Runs n P Q (if b then m else k)
  Runs-if true m k km kk = km refl
  Runs-if false m k km kk = kk refl

module _ (n : ℕ) (P : ℕ → Type 0) (below : (i : ℕ) → P i → i ≤ n) where
  -- What leaves the count as it is.
  pub Runs-gets : {A : Type 0} (f : Loop → A) → Runs n P (λ _. P) (gets f)
  Runs-gets f = record { at = λ l p. record { bound = below l.instret p; result = p } }

  pub Runs-modify :
      (f : Loop → Loop) → ((l : Loop) → (f l).instret ≡ l.instret) → Runs n P (λ _. P) (modify f)
  Runs-modify f same = record {
    at = λ l p. record { bound = rw (same l) (below l.instret p); result = rw (same l) p };
  }

  pub on_hart-Runs : {A : Type 0} (m : Action A) → Runs n P (λ _. P) (on_hart m)
  on_hart-Runs m = record {
    at = λ l p. record {
      bound = below l.instret p;
      result = anything-Returns (λ _. p) (m l.processor.hart).0;
    };
  }

  pub decode-Runs : (insn : ℕ) → Runs n P (λ _. P) (decode insn)
  decode-Runs insn = record {
    at = λ l p. elim (Option-cases (decode_insn l.processor.hart.xlen insn l.processor.decoder)) [
      | inl e ↦ rw e (record { bound = below l.instret p; result = tt })
      | inr (_, e) ↦ rw e (record { bound = below l.instret p; result = p })
    ];
  }

  pub pure-Runs : {A : Type 0} (a : A) → Runs n P (λ _. P) (pure a)
  pure-Runs a = Runs-pure n P (λ _. P) a λ i p. (below i p, p)

  pub if-Runs :
      {A : Type 0} (b : Bool) (m k : Task A)
      → Runs n P (λ _. P) m
      → Runs n P (λ _. P) k
      → Runs n P (λ _. P) (if b then m else k)
  if-Runs b m k km kk = Runs-if n P (λ _. P) b m k (λ _. km) (λ _. kk)

  pub bind-Runs :
      {A B : Type 0} (m : Task A) (f : A → Task B)
      → Runs n P (λ _. P) m
      → ((a : A) → Runs n P (λ _. P) (f a))
      → Runs n P (λ _. P) (m >>= f)
  bind-Runs m f km kf = Runs-bind n P (λ _. P) (λ _. P) m f km kf

  pub ruleset count_rules =
      (bind-Runs, if-Runs, pure-Runs, decode-Runs, on_hart-Runs, Runs-modify, Runs-gets)

  pub refill_icache-Runs : (addr entry : ℕ) → Runs n P (λ _. P) (refill_icache addr entry)
  unfolding refill_icache
  refill_icache-Runs addr entry = search count_rules

  pub access_icache-Runs : (addr : ℕ) → Runs n P (λ _. P) (access_icache addr)
  unfolding access_icache
  access_icache-Runs addr = search (count_rules, refill_icache-Runs)

  module _ (bus : Bus) (host : Hart → Hart) (sf : SoftFloat) where
    pub execute_insn-Runs : (fetch : InsnFetch) → Runs n P (λ _. P) (execute_insn bus host sf fetch)
    unfolding execute_insn
    execute_insn-Runs (func, insn) = search count_rules

-- What is read of all the variables is what they are.
pub Runs-state :
    {A : Type 0} (n : ℕ) (P : ℕ → Type 0) (Q : A → ℕ → Type 0) (f : Loop → Task A)
    → ((l : Loop) → P l.instret → Ends n Q (f l l))
    → Runs n P Q (gets (λ l. l) >>= f)
Runs-state n P Q f k = record { at = k }

pub Runs-weaken :
    {A : Type 0} (n : ℕ) (P P' : ℕ → Type 0) (Q : A → ℕ → Type 0) (m : Task A)
    → Runs n P' Q m
    → ((i : ℕ) → P i → P' i)
    → Runs n P Q m
Runs-weaken n P P' Q m k w = record { at = λ l p. k.at l (w l.instret p) }
