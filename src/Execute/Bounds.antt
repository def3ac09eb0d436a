-- ===== src/Execute/Bounds.antt =====
-- `step` retires no more instructions than it is asked for, and its loops end.
use cmpe220fall.Base.{
  inl, inr, ◌==◌, ℕ, zero, suc, ◌-◌, ◌≤◌, ◌<◌, ◌≡◌, arith, Bool, true, false, Bool-cases,
}
use mathlib.Core.Bool.{false≢true}
use cmpe220fall.Machine.{Hart, Bus}
use cmpe220fall.Insn.FloatContext.{SoftFloat}
use cmpe220fall.Insn.System.{pc_serialize}
use cmpe220fall.Execute.Processor.{◌>>◌, entry_tag, refill_icache, Task, pure, ◌>>=◌}
use cmpe220fall.Execute.Loop.{
  looks_straight, run_entry, after_access, refill_next, Left, done, miss, icache_accesses,
  advance_pc,
}
use cmpe220fall.Mmu.Tlb.{icache_entries}
use cmpe220fall.Execute.Loop.{after_accesses, cached_turn, debug_turn}
use cmpe220fall.Execute.CountRules.{
  Runs, Runs-bind, Runs-pure, count_rules, refill_icache-Runs, access_icache-Runs,
  execute_insn-Runs, bind-Runs, Runs-gets,
}

-- From the count `start` of a turn's beginning the count has not fallen, and is below `n`.
abbrev pub Within : ℕ → ℕ → ℕ → Type 0
Within n start i = (start ≤ i) × (i < n)

-- A turn that goes on has counted an instruction.
abbrev pub Turned : ℕ → ℕ → Bool → ℕ → Type 0
Turned n start going i = (i ≤ n) × (going ≡ true → start < i)

below_next : {n i : ℕ} → (suc i == n) ≡ false → i < n → suc i < n
below_next f p = ground (arith, f, p)

module _ (n start : ℕ) where
  advance_pc-Runs : Runs n (Within n start) (Turned n start) advance_pc
  unfolding advance_pc
  advance_pc-Runs = record {
    at = λ l p. elim (Bool-cases (l.pc == pc_serialize)) [
      | inl e ↦
          rw e (record { bound = omega arith; result = (omega arith, λ f. absurd (false≢true f)) })
      | inr e ↦ rw e (record { bound = omega arith; result = (omega arith, λ _. omega arith) })
    ];
  }

  Within-below : (i : ℕ) → Within n start i → i ≤ n
  Within-below i p = omega arith

  after_access-Runs :
      (entry : ℕ) (rest : Task Left)
      → Runs n (Within n start) (λ _. Within n start) rest
      → Runs n (Within n start) (λ _. Within n start) (after_access n entry rest)
  unfolding after_access
  after_access-Runs entry rest k = record {
    at = λ l p. elim (Bool-cases (entry_tag entry l == l.pc)) [
      | inl e ↦ elim (Bool-cases (suc l.instret == n)) [
        | inl f ↦ rw (e, f) (record { bound = omega arith; result = p })
        | inr f ↦ rw (e, f) (k.at _ (omega arith, below_next f p.1))
      ]
      | inr e ↦ rw e (record { bound = omega arith; result = p })
    ];
  }

  turn-bind-Runs :
      {A : Type 0} (m : Task A) (f : A → Task Bool)
      → Runs n (Within n start) (λ _. Within n start) m
      → ((a : A) → Runs n (Within n start) (Turned n start) (f a))
      → Runs n (Within n start) (Turned n start) (m >>= f)
  turn-bind-Runs m f km kf =
      Runs-bind n (Within n start) (λ _. Within n start) (Turned n start) m f km kf

  ruleset turn_rules = (turn-bind-Runs, Runs-gets, access_icache-Runs, Within-below)

  refill_after-Runs :
      (pc entry : ℕ)
      → Runs n (Turned n start true) (Turned n start) (refill_icache pc entry >> pure true)
  refill_after-Runs pc entry =
      Runs-bind n (Turned n start true) (λ _. Turned n start true) (Turned n start)
        (refill_icache pc entry) (λ _. pure true)
        (refill_icache-Runs n (Turned n start true) (λ i p. p.0) pc entry)
        (λ _. Runs-pure n (Turned n start true) (Turned n start) true λ i p. (p.0, p))

  refill_next-Runs :
      (entry : ℕ) (going : Bool)
      → Runs n (Turned n start going) (Turned n start) (refill_next entry going)
  unfolding refill_next
  refill_next-Runs entry false = record { at = λ l p. record { bound = p.0; result = p } }
  refill_next-Runs entry true = record {
    at = λ l p. elim (Bool-cases (looks_straight entry l)) [
      | inl e ↦ rw e ((refill_after-Runs l.pc entry).at l p)
      | inr e ↦ rw e (record { bound = p.0; result = p })
    ];
  }

  after_accesses-Runs :
      (left : Left) → Runs n (Within n start) (Turned n start) (after_accesses left)
  unfolding after_accesses
  after_accesses-Runs done = advance_pc-Runs
  after_accesses-Runs (miss entry) =
      Runs-bind n (Within n start) (Turned n start) (Turned n start) _ _ advance_pc-Runs
        (refill_next-Runs entry)

  module _ (bus : Bus) (host : Hart → Hart) (sf : SoftFloat) where
    run_entry-Runs :
        (i : ℕ) → Runs n (Within n start) (λ _. Within n start) (run_entry bus host sf i)
    unfolding run_entry
    run_entry-Runs i = search (count_rules, execute_insn-Runs, Within-below)

    icache_accesses-Runs :
        (k : ℕ) → Runs n (Within n start) (λ _. Within n start) (icache_accesses bus host sf n k)
    unfolding icache_accesses
    icache_accesses-Runs zero =
        bind-Runs n (Within n start) Within-below (run_entry bus host sf (icache_entries - 1))
          (λ _. pure done) (run_entry-Runs _)
          (λ _.
            Runs-pure n (Within n start) (λ _. Within n start) done λ i p. (Within-below i p, p))
    icache_accesses-Runs (suc k) =
        let entry = icache_entries - 1 - k in
        bind-Runs n (Within n start) Within-below (run_entry bus host sf (entry - 1))
          (λ _. after_access n entry (icache_accesses bus host sf n k)) (run_entry-Runs _)
          (λ _. after_access-Runs entry _ (icache_accesses-Runs k))

    pub cached_turn-Runs : Runs n (Within n start) (Turned n start) (cached_turn bus host sf n)
    unfolding cached_turn
    cached_turn-Runs = search (turn_rules, icache_accesses-Runs, after_accesses-Runs)

    pub debug_turn-Runs : Runs n (Within n start) (Turned n start) (debug_turn bus host sf)
    unfolding debug_turn
    debug_turn-Runs = search (turn_rules, execute_insn-Runs, advance_pc-Runs)
