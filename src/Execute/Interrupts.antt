-- ===== src/Execute/Interrupts.antt =====
-- Interrupts in `step`: riscv-isa-sim/riscv/execute.cc and processor.cc.
use cmpe220fall.Base.{
  ◌⊎◌, inl, inr, ◌||◌, ◌&&◌, not, ℕ, true, false, ◌*◌, ◌-◌, ◌<◌, ◌≤◌, ◌≡◌, ◌≢◌, ◌==◌, refl, some,
  arith, bit_and, bit_or, leb, ltb, ==_iff,
}
use cmpe220fall.Base.Word.{add64, shl64, uint64_max}
use cmpe220fall.Base.Digits.{bit_and-given, bit_and-not_given}
use cmpe220fall.Encoding
use cmpe220fall.Encoding.{get_field}
use cmpe220fall.Machine.{Hart, Bus, Trap, interrupt, throw}
use cmpe220fall.Insn.FloatContext.{SoftFloat}
use cmpe220fall.Privileged.Csr.{set_csr}
use cmpe220fall.Privileged.Traps.{take_trap, take_interrupt, raise_interrupt}
use cmpe220fall.Privileged.Pushed.{push_privilege_stack-prv, push_privilege_stack-ie}
use cmpe220fall.Execute.Processor.{Processor}
use cmpe220fall.Execute.Loop.{check_timer, try_body, round}

-- The timer has run out, its interrupt is enabled, none of the software goes before it, and the
-- mode lets an interrupt for machine mode through.
pub record IsTimerDue (h : Hart) : Type 0 where
  pub due : h.state.mtimecmp ≤ h.rtc
  pub enabled : bit_and h.state.mie Encoding.mip_mtip ≢ 0
  pub no_soft : bit_and (bit_and h.state.mie h.state.mip) Encoding.mip_msip ≡ 0
  pub lets_through :
      (get_field h.state.mstatus Encoding.mstatus_prv < Encoding.prv_m)
      ⊎ ((get_field h.state.mstatus Encoding.mstatus_prv ≡ Encoding.prv_m)
          × (get_field h.state.mstatus Encoding.mstatus_ie ≢ 0))

-- The processor `r` has taken the timer interrupt where `p` was about to go on.
pub record TakesTimer (p r : Processor) : Type 0 where
  pub pc :
      r.hart.state.pc
      ≡ add64 Encoding.default_mtvec (0x40 * get_field p.hart.state.mstatus Encoding.mstatus_prv)
  pub mode : get_field r.hart.state.mstatus Encoding.mstatus_prv ≡ Encoding.prv_m
  pub disabled : get_field r.hart.state.mstatus Encoding.mstatus_ie ≡ 0
  pub mcause : r.hart.state.mcause ≡ bit_or (shl64 1 (p.hart.max_xlen - 1)) Encoding.irq_timer
  pub mepc : r.hart.state.mepc ≡ p.hart.state.pc
  pub reservation : r.hart.state.load_reservation ≡ uint64_max
  pub registers : r.hart.state.xpr ≡ p.hart.state.xpr
  pub decoder : r.decoder ≡ p.decoder

leb-true : (a b : ℕ) → a ≤ b → leb a b ≡ true
leb-true a b le = ground arith

differs : (a b : ℕ) → a ≢ b → (a == b) ≡ false
differs a b n = ground arith

-- The test of `take_interrupt` for an interrupt to machine mode.
enters :
    (prv ie : ℕ)
    → (prv < 3) ⊎ ((prv ≡ 3) × (ie ≢ 0))
    → (ltb prv 3 || (prv == 3 && not (ie == 0))) ≡ true
enters prv ie (inl lt) = ground arith
enters prv ie (inr (e, n)) = rw (e, differs ie 0 n) refl

timer : Hart → Trap
unfolding raise_interrupt
timer h = interrupt (bit_or (shl64 1 (h.max_xlen - 1)) Encoding.irq_timer)

-- The hart once the timer has been looked at.
abbrev timed : Hart → Hart
timed h = record h { state = record h.state { mip = bit_or h.state.mip Encoding.mip_mtip } }

take_interrupt-timed :
    (h : Hart) → IsTimerDue h → take_interrupt (timed h) ≡ (throw (timer h), timed h)
unfolding take_interrupt raise_interrupt timer
take_interrupt-timed h k =
    let s = h.state in
    let shared = bit_and s.mie (bit_or s.mip Encoding.mip_mtip) in
    let entered =
      enters (get_field s.mstatus Encoding.mstatus_prv) (get_field s.mstatus Encoding.mstatus_ie)
        k.lets_through in
    let soft : (bit_and shared Encoding.mip_msip == 0) ≡ true =
      (==_iff (bit_and shared Encoding.mip_msip) 0).1
        (bit_and-not_given 3 7 s.mie s.mip refl k.no_soft) in
    let timer : (bit_and shared Encoding.mip_mtip == 0) ≡ false =
      differs (bit_and shared Encoding.mip_mtip) 0 (bit_and-given 7 s.mie s.mip k.enabled) in
    rw (entered, soft, timer) refl

-- The processor when it has taken that trap, without an instruction to count.
abbrev trapped : Processor → Processor
trapped p =
    let h = take_trap (timer p.hart) p.hart.state.pc (timed p.hart) in
    record p { hart = record h { state = record h.state { minstret = add64 h.state.minstret 0 } } }

trapped-TakesTimer : (p : Processor) → TakesTimer p (trapped p)
unfolding take_trap set_csr timer
trapped-TakesTimer p = record {
  pc = refl;
  mode = push_privilege_stack-prv (timed p.hart);
  disabled = push_privilege_stack-ie (timed p.hart);
  mcause = refl;
  mepc = refl;
  reservation = refl;
  registers = refl;
  decoder = refl;
}

module _ (bus : Bus) (host : Hart → Hart) (sf : SoftFloat) where
  -- If the timer of the hart has run out, its interrupt is enabled, no enabled software interrupt
  -- for machine mode is pending, and the hart is below machine mode or in it with interrupts enabled,
  -- then a round of any budget retires no instruction and takes the timer interrupt: it goes on at
  -- the vector of the old mode, in machine mode with interrupts disabled, mcause and mepc say so,
  -- the reservation is given up, and the integer registers and the decoder are as they were.
  pub round-timer :
      (n : ℕ) (p : Processor)
      → IsTimerDue p.hart
      → (r : Processor) × (round bus host sf n p ≡ some (0, r)) × TakesTimer p r
  unfolding round try_body check_timer
  round-timer n p k =
      let due = leb-true p.hart.state.mtimecmp p.hart.rtc k.due in
      (trapped p, rw (due, take_interrupt-timed p.hart k) refl, trapped-TakesTimer p)
