-- ===== src/Execute/Loop.antt =====
-- `processor_t::step`: riscv-isa-sim/riscv/execute.cc.
use cmpe220fall.Base.{
  ℕ, zero, suc, ◌-◌, Bool, true, false, ◌&&◌, not, Option, none, some, ltb, leb, ◌==◌,
  if◌then◌else◌, bit_or,
}
use cmpe220fall.Base.Word.{add64}
use cmpe220fall.Encoding
use cmpe220fall.Machine.{Hart, Outcome, ret, throw, early, aborted, Action, Bus, Trap}
use cmpe220fall.Machine
use cmpe220fall.Mmu.Tlb.{icache_entries}
use cmpe220fall.Mmu.Fetch.{icache_index}
use cmpe220fall.Insn.FloatContext.{SoftFloat}
use cmpe220fall.Insn.System.{pc_serialize}
use cmpe220fall.Privileged.Traps.{take_trap, take_interrupt}
use cmpe220fall.Execute.Dispatch.{call_func}
use cmpe220fall.Execute.Processor.{
  Processor, Loop, Task, pure, gets, modify, ◌>>=◌, ◌>>◌, on_hart, with_hart, InsnFetch,
  refill_icache, access_icache, entry_data, entry_tag,
}

-- MAX_INSN_LENGTH.
abbrev max_insn_length : ℕ
max_insn_length = 8

-- How one turn through the entries of the instruction cache ends: `done` goes on to `advance_pc`,
-- `miss` found another tag than `pc` in the entry of that number.
pub data Left : Type 0 where
  done : Left
  miss : ℕ → Left

-- How the inner loop ends: at its count, or with the `break` of `advance_pc`. A loop out of fuel is
-- `exhausted`.
pub data Ending : Type 0 where
  counted : Ending
  serialized : Ending
  exhausted : Ending

-- `check_timer`.
unfoldable pub check_timer : Action (Unit {0})
check_timer = Machine.modify (λ h.
    if leb h.state.mtimecmp h.rtc
    then record h { state = record h.state { mip = bit_or h.state.mip Encoding.mip_mtip } }
    else h)

abbrev set_state_pc : ℕ → Hart → Hart
set_state_pc pc h = record h { state = record h.state { pc = pc } }

-- A `return` from inside an instruction function is a value here too.
abbrev returned : Outcome ℕ × Hart → Outcome ℕ × Hart
returned (early n, h) = (ret n, h)
returned (ret n, h) = (ret n, h)
returned (throw t, h) = (throw t, h)
returned (aborted, h) = (aborted, h)

-- The macro `advance_pc`, whether the loop goes on.
unfoldable pub advance_pc : Task Bool
advance_pc = do
  pc ← gets (λ l. l.pc)
  if pc == pc_serialize
      then (modify (λ l.
            let h = l.processor.hart in
            record (with_hart l (record h { state = record h.state { serialized = true } })) {
              pc = h.state.pc;
            })
          >> pure false)
      else (modify (λ l. record (with_hart l (set_state_pc pc l.processor.hart)) {
        instret = suc l.instret;
      })
          >> pure true)

-- "refill I$ if it looks like there wasn't a taken branch".
abbrev pub looks_straight : ℕ → Loop → Bool
looks_straight entry l =
    let last = entry_tag (entry - 1) l in ltb last l.pc && leb l.pc (add64 last max_insn_length)

-- `going` says that `advance_pc` did not break.
unfoldable pub refill_next : ℕ → Bool → Task Bool
unfolding refill_icache entry_tag
refill_next entry going = do
  l ← gets (λ l. l)
  if going && looks_straight entry l then (refill_icache l.pc entry >> pure true) else pure going

-- What follows the `switch`.
unfoldable pub after_accesses : Left → Task Bool
unfolding advance_pc refill_next
after_accesses done = advance_pc
after_accesses (miss entry) = do going ← advance_pc; refill_next entry going

-- `while (instret < n)`, on fuel.
unfoldable pub while_loop : ℕ → Task Bool → ℕ → Task Ending
while_loop n turn zero = do
  instret ← gets (λ l. l.instret)
  pure (if ltb instret n then exhausted else counted)
while_loop n turn (suc fuel) =
    let rest = while_loop n turn fuel in
    (do
      instret ← gets (λ l. l.instret)
      if ltb instret n
          then (do going ← turn; if going then rest else pure serialized)
          else pure counted)

-- The tests of `ICACHE_ACCESS` once its instruction has run, on the next entry; `rest` is the next
-- `ICACHE_ACCESS`.
unfoldable pub after_access : ℕ → ℕ → Task Left → Task Left
unfolding entry_tag
after_access n entry rest = do
  l ← gets (λ l. l)
  if not (entry_tag entry l == l.pc)
      then pure (miss entry)
      else if suc l.instret == n
      then pure done
      else (modify (λ l. record (with_hart l (set_state_pc l.pc l.processor.hart)) {
        instret = suc l.instret;
      })
          >> rest)

module _ (bus : Bus) (host : Hart → Hart) (sf : SoftFloat) where
  -- `pc = execute_insn(this, pc, fetch)`.
  unfoldable pub execute_insn : InsnFetch → Task (Unit {0})
  unfolding call_func
  execute_insn (func, insn) = do
    pc ← gets (λ l. l.pc)
    npc ← on_hart (λ h. returned (call_func bus host sf func insn pc h))
    modify (λ l. record l { pc = npc })

  -- The first half of `ICACHE_ACCESS(i)`: the instruction of the entry runs.
  unfoldable pub run_entry : ℕ → Task (Unit {0})
  unfolding execute_insn entry_data
  run_entry i = do fetch ← gets (entry_data i); execute_insn fetch

  -- `ICACHE_ACCESS(i)` and those that follow it, of the entry with `k` entries after it.
  unfoldable pub icache_accesses : ℕ → ℕ → Task Left
  unfolding run_entry after_access
  icache_accesses n zero = run_entry (icache_entries - 1) >> pure done
  icache_accesses n (suc k) =
      let rest = icache_accesses n k in
      let entry = icache_entries - 1 - k in run_entry (entry - 1) >> after_access n entry rest

  -- One turn of the inner loop.
  unfoldable pub cached_turn : ℕ → Task Bool
  unfolding access_icache icache_accesses after_accesses icache_index
  cached_turn n = do
    pc ← gets (λ l. l.pc)
    access_icache pc
    left ← icache_accesses n (icache_entries - 1 - icache_index pc)
    after_accesses left

  -- One turn of the loop that a debugger runs.
  unfoldable pub debug_turn : Task Bool
  unfolding access_icache execute_insn advance_pc
  debug_turn = do pc ← gets (λ l. l.pc); fetch ← access_icache pc; execute_insn fetch; advance_pc

  -- The body of `try`.
  unfoldable pub try_body : ℕ → Task Ending
  unfolding check_timer take_interrupt cached_turn debug_turn while_loop
  try_body n = do
    on_hart check_timer
    on_hart take_interrupt
    debug ← gets (λ l. l.processor.debug)
    while_loop n (if debug then debug_turn else cached_turn n) n

abbrev pub start : Processor → Loop
start p = record { processor = p; pc = p.hart.state.pc; instret = 0 }

-- The `catch`, and what follows it; `none` where the program is stopped.
abbrev pub caught : Outcome Ending × Loop → Option Loop
caught (ret exhausted, l) = none
caught (ret counted, l) = some l
caught (ret serialized, l) = some l
caught (throw t, l) = some (with_hart l (take_trap t l.pc l.processor.hart))
caught (early n, l) = none
caught (aborted, l) = none

abbrev pub retire : Option Loop → Option (ℕ × Processor)
retire none = none
retire (some l) =
    let h = l.processor.hart in
    let minstret = add64 h.state.minstret l.instret in
    some (
      l.instret,
      record l.processor { hart = record h { state = record h.state { minstret = minstret } } },
    )

module _ (bus : Bus) (host : Hart → Hart) (sf : SoftFloat) where
  -- One turn of the outer loop of `step`: how many instructions retired, and the processor.
  unfoldable pub round : ℕ → Processor → Option (ℕ × Processor)
  unfolding try_body take_trap
  round n p = retire (caught (try_body bus host sf n (start p)))

  abbrev pub next_round :
      (ℕ → Processor → Option Processor) → ℕ → Option (ℕ × Processor) → Option Processor
  next_round rest n none = none
  next_round rest n (some (instret, p)) = rest (n - instret) p

  -- `step(n)`, on fuel: it need not end where traps follow one another.
  unfoldable pub step : ℕ → ℕ → Processor → Option Processor
  unfolding round
  step zero n p = none
  step (suc fuel) n p =
      let rest = next_round (step fuel) n (round n p) in if p.run && ltb 0 n then rest else some p
