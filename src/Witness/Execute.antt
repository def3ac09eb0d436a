-- ===== src/Witness/Execute.antt =====
-- A 64-bit processor whose memory holds `addi x0, x0, 0` from end to end, without a decoded word.
use cmpe220fall.Base.{
  suc, ap, arith, Bool, ◌&&◌, ℕ, ◌≡◌, ◌≤◌, ◌%◌, ◌==◌, if◌then◌else◌, refl, none, some, Option, true,
  false, ◌⊎◌, inl,
}
use cmpe220fall.Opcode.Base.{base_decoder}
use cmpe220fall.Opcode.Names.{illegal_instruction}
use cmpe220fall.Execute.Processor.{Processor}
use cmpe220fall.Execute.Loop.{try_body, round, start}
use cmpe220fall.Execute.CountRules.{Ends}
use cmpe220fall.Execute.Rounds.{Ended, try_body-Ends}
use cmpe220fall.Execute.Steps.{Steps, again, ended, Steps-total}
use cmpe220fall.Encoding
use cmpe220fall.Encoding.{get_field}
use cmpe220fall.Machine.{Hart}
use cmpe220fall.Execute.Interrupts.{IsTimerDue, TakesTimer, round-timer}
use cmpe220fall.Witness.{some_hart, cold, no_devices}
use cmpe220fall.Witness.Floats.{zero_float}

abbrev no_ops : ℕ → ℕ
no_ops i = if i % 4 == 0 then 0x13 else 0

abbrev pub no_host : Hart → Hart
no_host h = h

-- The timer is set to a later time.
abbrev idle : Processor
idle = record {
  hart = record some_hart {
    state = record some_hart.state { pc = 0x200; mtimecmp = 5 };
    mmu = record cold { mem = no_ops };
    max_xlen = 64;
    xlen = 64;
  };
  decoder = base_decoder;
  icache_func = λ i. illegal_instruction;
  debug = false;
  run = true;
}

abbrev left_by : Option (ℕ × Processor) → Processor
left_by none = idle
left_by (some (k, p)) = p

-- The processor after two instructions, the second of them from the next entry of the cache.
abbrev later : Processor
later = left_by (round no_devices no_host zero_float 2 idle)

abbrev count_of : Option (ℕ × Processor) → ℕ
count_of none = 0
count_of (some (k, p)) = k

two-counted : count_of (round no_devices no_host zero_float 2 idle) ≡ 2
unfolding round base_decoder cmpe220fall.Encoding.get_field cmpe220fall.Mmu.Walk.translate
    cmpe220fall.Decode.insn_length cmpe220fall.Mmu.Memory.load_le cmpe220fall.Mmu.Tlb.refill_tlb
    cmpe220fall.Insn.Context.straight cmpe220fall.Insn.Alu.addi cmpe220fall.Insn.Context.get_rs1
    cmpe220fall.Insn.Context.write_rd cmpe220fall.Insn.Context.sext_xlen
two-counted = refl

left_by_lem :
    (k : ℕ) (o : Option (ℕ × Processor)) → count_of o ≡ suc k → o ≡ some (suc k, left_by o)
left_by_lem k none e = absurd (omega arith)
left_by_lem k (some (n, p)) e = ap (λ i. some (i, p)) e

later-round : round no_devices no_host zero_float 2 idle ≡ some (2, later)
later-round = left_by_lem 1 (round no_devices no_host zero_float 2 idle) two-counted

try_body-Ends_example : Ends 2 (Ended 2) (try_body no_devices no_host zero_float 2 (start idle))
try_body-Ends_example = try_body-Ends no_devices no_host zero_float 2 idle

none_left : (b : Bool) → (b && false) ≡ false
none_left true = refl
none_left false = refl

later-Steps : Steps no_devices no_host zero_float 2 idle 2 later
later-Steps = again 2 2 0 idle later later refl later-round (ended 0 later (none_left later.run))

Steps-total_example : (2 ≤ 2) × (◌≡◌ {A = ℕ} 2 2 ⊎ (later.run ≡ false))
Steps-total_example = Steps-total no_devices no_host zero_float later-Steps

-- The same processor in user mode when its timer has run out and is let through.
abbrev rung : Processor
rung = record idle {
  hart = record idle.hart {
    state = record idle.hart.state { mtimecmp = 0; mie = Encoding.mip_mtip };
  };
}

rung-IsTimerDue : IsTimerDue rung.hart
unfolding get_field
rung-IsTimerDue = record {
  due = omega arith;
  enabled = λ e. absurd (omega (arith, e));
  no_soft = refl;
  lets_through = inl (omega arith);
}

round-timer_example :
    (r : Processor) × (round no_devices no_host zero_float 2 rung ≡ some (0, r)) × TakesTimer rung r
round-timer_example = round-timer no_devices no_host zero_float 2 rung rung-IsTimerDue
