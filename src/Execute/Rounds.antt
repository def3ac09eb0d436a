-- ===== src/Execute/Rounds.antt =====
-- The rounds of `step`: what one turn of its outer loop retires.
use cmpe220fall.Base.{
  ℕ, zero, suc, ◌+◌, ◌≤◌, ◌<◌, ◌≡◌, refl, arith, Bool, true, false, ltb, Bool-cases, inl, inr,
  if◌then◌else◌,
}
use cmpe220fall.Machine.{Hart, Bus}
use cmpe220fall.Insn.FloatContext.{SoftFloat}
use cmpe220fall.Execute.Processor.{Processor, Task, pure, ◌>>=◌}
use cmpe220fall.Execute.Loop.{
  Ending, counted, serialized, exhausted, debug_turn, cached_turn, while_loop, try_body, start,
}
use cmpe220fall.Execute.CountRules.{
  Runs, Ends, Runs-bind, Runs-pure, Runs-weaken, Runs-gets, on_hart-Runs,
}
use cmpe220fall.Execute.Bounds.{Within, Turned, cached_turn-Runs, debug_turn-Runs}

-- A loop that reaches its count has retired `n`; it is never out of fuel.
abbrev pub Ended : ℕ → Ending → ℕ → Type 0
Ended n counted i = i ≡ n
Ended n serialized i = i ≤ n
Ended n exhausted i = ⊥

-- The fuel is enough for the instructions that are left.
abbrev Fuelled : ℕ → ℕ → ℕ → Type 0
Fuelled n fuel i = (i ≤ n) × (n ≤ i + fuel)

ltb-true : (a b : ℕ) → ltb a b ≡ true → a < b
ltb-true a b e = ground (arith, e)

ltb-false : (a b : ℕ) → ltb a b ≡ false → b ≤ a
ltb-false a b e = ground (arith, e)

module _ (n : ℕ) (turn : Task Bool) (k : (i : ℕ) → Runs n (Within n i) (Turned n i) turn) where
  -- A turn that goes on leaves enough fuel for the next.
  next-Fuelled : (fuel from i : ℕ) → n ≤ from + suc fuel → Turned n from true i → Fuelled n fuel i
  next-Fuelled fuel from i p q = let later = q.1 refl in (q.0, omega arith)

  go_or_stop-Runs :
      (fuel from : ℕ)
      → n ≤ from + suc fuel
      → Runs n (Fuelled n fuel) (Ended n) (while_loop n turn fuel)
      → (going : Bool)
      → Runs n
          (Turned n from going)
          (Ended n)
          (if going then while_loop n turn fuel else pure serialized)
  go_or_stop-Runs fuel from p rest true =
      Runs-weaken n (Turned n from true) (Fuelled n fuel) (Ended n) (while_loop n turn fuel) rest
        (λ i q. next-Fuelled fuel from i p q)
  go_or_stop-Runs fuel from p rest false =
      Runs-pure n (Turned n from false) (Ended n) serialized λ i q. (q.0, q.0)

  turn-Runs :
      (fuel from : ℕ)
      → n ≤ from + suc fuel
      → Runs n (Fuelled n fuel) (Ended n) (while_loop n turn fuel)
      → Runs n
          (Within n from)
          (Ended n)
          (turn >>= λ going. if going then while_loop n turn fuel else pure serialized)
  turn-Runs fuel from p rest =
      Runs-bind n (Within n from) (Turned n from) (Ended n) turn
        (λ going. if going then while_loop n turn fuel else pure serialized) (k from)
        (go_or_stop-Runs fuel from p rest)

  while_loop-Runs : (fuel : ℕ) → Runs n (Fuelled n fuel) (Ended n) (while_loop n turn fuel)
  unfolding while_loop
  while_loop-Runs zero = record {
    at = λ l p. elim (Bool-cases (ltb l.instret n)) [
      | inl e ↦ let lt = ltb-true l.instret n e in absurd (omega arith)
      | inr e ↦
          let le = ltb-false l.instret n e in rw e (record { bound = p.0; result = omega arith })
    ];
  }
  while_loop-Runs (suc fuel) = record {
    at = λ l p. elim (Bool-cases (ltb l.instret n)) [
      | inl e ↦ rw e (
          (turn-Runs fuel l.instret p.1 (while_loop-Runs fuel)).at l
            (omega arith, ltb-true l.instret n e))
      | inr e ↦
          let le = ltb-false l.instret n e in rw e (record { bound = p.0; result = omega arith })
    ];
  }

module _ (bus : Bus) (host : Hart → Hart) (sf : SoftFloat) (n : ℕ) where
  chosen-Runs :
      (debug : Bool) (i : ℕ)
      → Runs n
          (Within n i)
          (Turned n i)
          (if debug then debug_turn bus host sf else cached_turn bus host sf n)
  chosen-Runs true i = debug_turn-Runs n i bus host sf
  chosen-Runs false i = cached_turn-Runs n i bus host sf

  zero-bound : (i : ℕ) → i ≡ 0 → i ≤ n
  zero-bound i e = omega arith

  begin-bind-Runs :
      {A : Type 0} (m : Task A) (f : A → Task Ending)
      → Runs n (λ i. i ≡ 0) (λ _ i. i ≡ 0) m
      → ((a : A) → Runs n (λ i. i ≡ 0) (Ended n) (f a))
      → Runs n (λ i. i ≡ 0) (Ended n) (m >>= f)
  begin-bind-Runs m f km kf = Runs-bind n (λ i. i ≡ 0) (λ _ i. i ≡ 0) (Ended n) m f km kf

  loop-Runs :
      (debug : Bool)
      → Runs n
          (λ i. i ≡ 0)
          (Ended n)
          (while_loop n (if debug then debug_turn bus host sf else cached_turn bus host sf n) n)
  loop-Runs debug =
      Runs-weaken n (λ i. i ≡ 0) (Fuelled n n) (Ended n) _
        (while_loop-Runs n _ (chosen-Runs debug) n) (λ i e. (omega arith, omega arith))

  try_body-Runs : Runs n (λ i. i ≡ 0) (Ended n) (try_body bus host sf n)
  unfolding try_body
  try_body-Runs = search (begin-bind-Runs, on_hart-Runs, Runs-gets, loop-Runs, zero-bound)

  -- However the body of `try` ends, at most `n` instructions are counted; its loop does not run out
  -- of fuel, and where it does not break for a PC_SERIALIZE, exactly `n` are counted.
  pub try_body-Ends : (p : Processor) → Ends n (Ended n) (try_body bus host sf n (start p))
  try_body-Ends p = try_body-Runs.at (start p) refl
