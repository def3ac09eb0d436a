-- ===== src/Witness/Floats.antt =====
-- A softfloat that answers zero and raises no flag, with the instructions that call it.
use cmpe220fall.Base.{ℕ, ◌%◌, ◌^◌, ◌*◌, refl, false, arith}
use cmpe220fall.Insn.FloatContext.{SoftFloat, IsSoftFloat}
use cmpe220fall.Insn.JumpRegs.{KeepsJump}
use cmpe220fall.Opcode.Names.{add}
use cmpe220fall.Execute.Dispatch.{execute}
use cmpe220fall.Execute.Registers.{execute-KeepsJump}
use cmpe220fall.Machine.{Hart, Bus, Outcome, ret, throw, early, aborted}
use cmpe220fall.Base.Bits.{two-pow-pos}
use cmpe220fall.Mmu.OnBus.{AnswerFits}
use cmpe220fall.Insn.Registers.{IsRegfile}
use cmpe220fall.Insn.Rules.{same-IsRegfile, same_regs}
use cmpe220fall.Insn.MemoryRegs.{RegsBus}
use cmpe220fall.Insn.SystemRegs.{RegsHost, get_csr-Keeps, set_csr-SameRegs}
use cmpe220fall.Privileged.Reset.{csr_load, csr_store, low_bytes, csr_of}
use cmpe220fall.Privileged.CsrRead.{get_csr}
use cmpe220fall.Witness.{add_context, add_context-IsContext}

abbrev pub zero_float : SoftFloat
zero_float = record {
  f32_add = λ rm a b. (0, 0);
  f32_sub = λ rm a b. (0, 0);
  f32_mul = λ rm a b. (0, 0);
  f32_div = λ rm a b. (0, 0);
  f32_mul_add = λ rm a b d. (0, 0);
  f32_sqrt = λ rm a. (0, 0);
  f32_eq = λ rm a. (false, 0);
  f32_le = λ rm a. (false, 0);
  f32_lt = λ rm a. (false, 0);
  f32_le_quiet = λ rm a. (false, 0);
  f32_lt_quiet = λ rm a. (false, 0);
  f32_classify = λ a. 0;
  f32_is_nan = λ a. false;
  f32_to_i32 = λ rm a. (0, 0);
  i32_to_f32 = λ rm a. (0, 0);
  f32_to_ui32 = λ rm a. (0, 0);
  ui32_to_f32 = λ rm a. (0, 0);
  f32_to_i64 = λ rm a. (0, 0);
  i64_to_f32 = λ rm a. (0, 0);
  f32_to_ui64 = λ rm a. (0, 0);
  ui64_to_f32 = λ rm a. (0, 0);
  f64_add = λ rm a b. (0, 0);
  f64_sub = λ rm a b. (0, 0);
  f64_mul = λ rm a b. (0, 0);
  f64_div = λ rm a b. (0, 0);
  f64_mul_add = λ rm a b d. (0, 0);
  f64_sqrt = λ rm a. (0, 0);
  f64_eq = λ rm a. (false, 0);
  f64_le = λ rm a. (false, 0);
  f64_lt = λ rm a. (false, 0);
  f64_le_quiet = λ rm a. (false, 0);
  f64_lt_quiet = λ rm a. (false, 0);
  f64_classify = λ a. 0;
  f64_is_nan = λ a. false;
  f64_to_i32 = λ rm a. (0, 0);
  i32_to_f64 = λ rm a. (0, 0);
  f64_to_ui32 = λ rm a. (0, 0);
  ui32_to_f64 = λ rm a. (0, 0);
  f64_to_i64 = λ rm a. (0, 0);
  i64_to_f64 = λ rm a. (0, 0);
  f64_to_ui64 = λ rm a. (0, 0);
  ui64_to_f64 = λ rm a. (0, 0);
  f32_to_f64 = λ rm a. (0, 0);
  f64_to_f32 = λ rm a. (0, 0);
}

zero_float-IsSoftFloat : IsSoftFloat zero_float
zero_float-IsSoftFloat = record {
  f32_classify-lt = λ a. omega arith;
  f64_classify-lt = λ a. omega arith;
  f32_add-lt = λ rm a b. omega arith;
  f32_sub-lt = λ rm a b. omega arith;
  f32_mul-lt = λ rm a b. omega arith;
  f32_div-lt = λ rm a b. omega arith;
  f32_mul_add-lt = λ rm a b d. omega arith;
  f32_sqrt-lt = λ rm a. omega arith;
  f32_to_i32-lt = λ rm a. omega arith;
  i32_to_f32-lt = λ rm a. omega arith;
  f32_to_ui32-lt = λ rm a. omega arith;
  ui32_to_f32-lt = λ rm a. omega arith;
  f32_to_i64-lt = λ rm a. omega arith;
  i64_to_f32-lt = λ rm a. omega arith;
  f32_to_ui64-lt = λ rm a. omega arith;
  ui64_to_f32-lt = λ rm a. omega arith;
  f64_add-lt = λ rm a b. omega arith;
  f64_sub-lt = λ rm a b. omega arith;
  f64_mul-lt = λ rm a b. omega arith;
  f64_div-lt = λ rm a b. omega arith;
  f64_mul_add-lt = λ rm a b d. omega arith;
  f64_sqrt-lt = λ rm a. omega arith;
  f64_to_i32-lt = λ rm a. omega arith;
  i32_to_f64-lt = λ rm a. omega arith;
  f64_to_ui32-lt = λ rm a. omega arith;
  ui32_to_f64-lt = λ rm a. omega arith;
  f64_to_i64-lt = λ rm a. omega arith;
  i64_to_f64-lt = λ rm a. omega arith;
  f64_to_ui64-lt = λ rm a. omega arith;
  ui64_to_f64-lt = λ rm a. omega arith;
  f32_to_f64-lt = λ rm a. omega arith;
  f64_to_f32-lt = λ rm a. omega arith;
}

-- A bus on which the processor itself is the only device: its CSRs are behind every address. The
-- host clears tohost.
abbrev ticking : Hart → Hart
ticking h = record h { state = record h.state { tohost = 0 } }

abbrev own_bus : Bus
own_bus = record { load = csr_load ticking; store = csr_store }

ticking-RegsHost : RegsHost ticking
ticking-RegsHost xlen h p = same-IsRegfile xlen h _ (same_regs refl refl refl refl) p

read_csr :
    (xlen len : ℕ) (r : Outcome ℕ × Hart)
    → IsRegfile xlen r.1
    → IsRegfile xlen (low_bytes len r).1 × AnswerFits len (low_bytes len r).0
read_csr xlen len (ret res, h) p = (p, omega (arith, two-pow-pos (8 * len)))
read_csr xlen len (throw t, h) p = (p, tt)
read_csr xlen len (early n, h) p = (p, tt)
read_csr xlen len (aborted, h) p = (p, tt)

own_bus-RegsBus : RegsBus own_bus
unfolding csr_load csr_store
own_bus-RegsBus xlen = record {
  load = λ addr len h p.
      read_csr xlen len (get_csr ticking (csr_of addr h) h)
        ((get_csr-Keeps ticking ticking-RegsHost xlen (csr_of addr h)).at h p).0;
  store = λ addr len value h p.
      same-IsRegfile xlen h _ (set_csr-SameRegs (csr_of addr h) (value % 2 ^ (8 * len)) h) p;
}

execute-KeepsJump_example : KeepsJump 32 (execute own_bus ticking zero_float add add_context)
execute-KeepsJump_example =
    execute-KeepsJump own_bus own_bus-RegsBus ticking ticking-RegsHost zero_float
      zero_float-IsSoftFloat add add_context add_context-IsContext
