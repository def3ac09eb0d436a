-- ===== src/Execute/Steps.antt =====
-- `step` as a relation, and what it retires in all.
use cmpe220fall.Base.{
  ◌↔◌, ℕ, zero, suc, ◌+◌, ◌-◌, ◌≤◌, ◌≡◌, refl, sym, ap, arith, true, false, ◌&&◌, ltb, Bool-cases,
  Option-cases, inl, inr, ◌⊎◌, some,
}
use mathlib.Core.Option.{some-injective, none-ne-some}
use cmpe220fall.Machine.{Hart, Outcome, ret, throw, early, aborted, Bus}
use cmpe220fall.Insn.FloatContext.{SoftFloat}
use cmpe220fall.Privileged.Traps.{take_trap}
use cmpe220fall.Execute.Processor.{Processor, Loop, with_hart}
use cmpe220fall.Execute.Loop.{
  Ending, counted, serialized, exhausted, try_body, start, caught, retire, round, step,
}
use cmpe220fall.Execute.CountRules.{Ends}
use cmpe220fall.Execute.Rounds.{Ended, try_body-Ends}

module _ (n : ℕ) where
  retired-bound :
      (l : Loop) (k : ℕ) (q : Processor) → l.instret ≤ n → retire (some l) ≡ some (k, q) → k ≤ n
  retired-bound l k q bound eq =
      let same : l.instret ≡ k = ap (λ x. x.0) (some-injective _ _ eq) in omega arith

  -- How many instructions a round retires, from how its `try` ends.
  retire-bound :
      (x : Outcome Ending × Loop) (k : ℕ) (q : Processor)
      → Ends n (Ended n) x
      → retire (caught x) ≡ some (k, q)
      → k ≤ n
  retire-bound (ret counted, l) k q e eq = retired-bound l k q e.bound eq
  retire-bound (ret serialized, l) k q e eq = retired-bound l k q e.bound eq
  retire-bound (ret exhausted, l) k q e eq = absurd e.result
  retire-bound (throw t, l) k q e eq =
      retired-bound (with_hart l (take_trap t l.pc l.processor.hart)) k q e.bound eq
  retire-bound (early m, l) k q e eq = absurd (none-ne-some _ eq)
  retire-bound (aborted, l) k q e eq = absurd (none-ne-some _ eq)

not_going : (n : ℕ) (p : Processor) → p.run && ltb 0 n ≡ false → (0 ≡ n) ⊎ (p.run ≡ false)
not_going n p e = ground (arith, e)

module _ (bus : Bus) (host : Hart → Hart) (sf : SoftFloat) where
  -- A round retires no more instructions than are asked for, so `n -= instret` does not wrap.
  round-bound : (n k : ℕ) (p q : Processor) → round bus host sf n p ≡ some (k, q) → k ≤ n
  unfolding round
  round-bound n k p q e =
      retire-bound n (try_body bus host sf n (start p)) k q (try_body-Ends bus host sf n p) e

  -- The outer loop of `step`: from `n` instructions to retire, `total` are retired in all.
  pub data Steps : ℕ → Processor → ℕ → Processor → Type 0 where
    ended : (n : ℕ) (p : Processor) → p.run && ltb 0 n ≡ false → Steps n p 0 p
    again :
        (n k total : ℕ) (p q r : Processor)
        → p.run && ltb 0 n ≡ true
        → round bus host sf n p ≡ some (k, q)
        → Steps (n - k) q total r
        → Steps n p (k + total) r

  step-Steps :
      (fuel n : ℕ) (p r : Processor)
      → step bus host sf fuel n p ≡ some r
      → (total : ℕ) × Steps n p total r
  unfolding step
  step-Steps zero n p r e = absurd (none-ne-some _ e)
  step-Steps (suc fuel) n p r e = elim (Bool-cases (p.run && ltb 0 n)) [
    | inl b ↦ elim (Option-cases (round bus host sf n p)) [
      | inl f ↦ absurd (none-ne-some _ (rw (b, f) at e))
      | inr ((k, q), f) ↦
          let (total, s) = step-Steps fuel (n - k) q r (rw (b, f) at e) in
          (k + total, again n k total p q r b f s)
    ]
    | inr b ↦ (0, rw (sym (some-injective _ _ (rw b at e))) (ended n p b))
  ]

  Steps-step :
      {n total : ℕ} {p r : Processor}
      → Steps n p total r
      → (fuel : ℕ) × (step bus host sf fuel n p ≡ some r)
  unfolding step
  Steps-step (ended n p b) = (1, rw b refl)
  Steps-step (again n k total p q r b f s) = let (fuel, e) = Steps-step s in (suc fuel, rw (b, f) e)

  -- With enough fuel `step` ends at a processor just when the rounds of the relation lead to it.
  step_lem :
      (n : ℕ) (p r : Processor)
      → ((fuel : ℕ) × (step bus host sf fuel n p ≡ some r)) ↔ ((total : ℕ) × Steps n p total r)
  step_lem n p r = (λ x. step-Steps x.0 n p r x.1, λ y. Steps-step y.1)

  -- A `step` that ends has retired no more than `n` instructions, and all `n` unless the processor
  -- was stopped.
  pub Steps-total :
      {n total : ℕ} {p r : Processor}
      → Steps n p total r
      → (total ≤ n) × ((total ≡ n) ⊎ (r.run ≡ false))
  Steps-total (ended n p b) = (omega arith, not_going n p b)
  Steps-total (again n k total p q r b f s) =
      let le = round-bound n k p q f in
      let (bound, all) = Steps-total s in
      (omega arith, elim all [ inl e ↦ inl (omega arith) | inr e ↦ inr e ])
