-- ===== src/Witness.antt =====
-- The results at concrete inputs: words at the ends of the range, a store across four bytes, and a
-- memory port with an empty TLB.
pub mod Floats
pub mod Execute
pub mod CacheSim
pub mod Devices
pub mod OpDumper
pub mod Privileged
use cmpe220fall.Base.{
  some, none, ◌<◌, List, Option, ◌≢◌, ℕ, ◌+◌, ◌*◌, ◌/◌, ◌%◌, ◌^◌, ◌-◌, ◌≤◌, ◌⊎◌, ◌≡◌, refl, inl,
  inr, arith, true, false, [],
}
use cmpe220fall.Base.Word.{mul64, uint64_max}
use cmpe220fall.Base.Bits.{two-pow-pos}
use cmpe220fall.Mmu.Access.{load_bytes}
use cmpe220fall.Machine.{
  Mmu, Bus, State, Hart, ret, illegal_instruction as illegal_trap, load, store,
}
use cmpe220fall.Insn.Context.{Context, sext_xlen, write_rd, supports_extension}
use cmpe220fall.Insn.Registers.{IsContext, IsRegfile}
use cmpe220fall.Insn.Canonical.{small-IsCanonical}
use cmpe220fall.Insn.Atomic
use cmpe220fall.Privileged.Traps.{take_trap}
use cmpe220fall.Privileged.Reservation.{sc_w-take_trap}
use cmpe220fall.Mmu.Access.{load_uint, load_int, store_uint}
use cmpe220fall.Mmu.FastPath.{load_uint-store_uint}
use cmpe220fall.Mulhi.{mulhu, mulh, mulhsu}
use cmpe220fall.Mulhi.Product.{sext128, mulhu_lem, mulh_lem, mulhsu_lem}
use cmpe220fall.Opcode.Names.{InsnFunc, illegal_instruction, rv64, c_addi}
use cmpe220fall.Opcode.Base.{base_decoder}
use cmpe220fall.Opcode.Decoder.{Decoder, decode_insn}
use cmpe220fall.Opcode.Correct.{Answers, Reached, initially, decoded, reference}
use cmpe220fall.Opcode.Reached.{base_table, decode_insn_lem, decode_insn-total}
use cmpe220fall.Mmu.Memory.{load_le, store_le}
use cmpe220fall.Mmu.Tlb.{refill_tlb, flush_tlb}
use cmpe220fall.Mmu.Access.{tlb_hit, tlb_address}
use cmpe220fall.Mmu.Coherent.{
  IsCoherent, tags_of, refill_tlb-IsCoherent, refill_tlb-hit, flush_tlb_lem,
}

mulhu_lem_example : mulhu (2 ^ 64 - 1) (2 ^ 63) ≡ (2 ^ 64 - 1) * 2 ^ 63 / 2 ^ 64
mulhu_lem_example = mulhu_lem (2 ^ 64 - 1) (2 ^ 63) (omega arith) (omega arith)

mulh_lem_example :
    mulh (2 ^ 64 - 3) 5 * 2 ^ 64 + mul64 (2 ^ 64 - 3) 5 ≡ sext128 (2 ^ 64 - 3) * sext128 5 % 2 ^ 128
mulh_lem_example = mulh_lem (2 ^ 64 - 3) 5 (omega arith) (omega arith)

mulhsu_lem_example :
    mulhsu (2 ^ 64 - 3) 5 * 2 ^ 64 + mul64 (2 ^ 64 - 3) 5 ≡ sext128 (2 ^ 64 - 3) * 5 % 2 ^ 128
mulhsu_lem_example = mulhsu_lem (2 ^ 64 - 3) 5 (omega arith) (omega arith)

abbrev blank_memory : ℕ → ℕ
blank_memory _ = 0

abbrev empty_tags : ℕ → ℕ
empty_tags _ = uint64_max

abbrev cold : Mmu
cold = record {
  mem = blank_memory;
  memsz = 2 ^ 20;
  tlb_data = blank_memory;
  tlb_insn_tag = empty_tags;
  tlb_load_tag = empty_tags;
  tlb_store_tag = empty_tags;
  icache_tag = empty_tags;
  icache_insn = blank_memory;
  tracers = [];
  traced = [];
}

-- The port after a load from page 5 has been translated to page 7.
abbrev warm : Mmu
warm = refill_tlb 0x5010 0x7010 load cold

cold-IsCoherent : IsCoherent cold
cold-IsCoherent i = record { load_store = inl refl; load_insn = inl refl; store_insn = inl refl }

refill_tlb-IsCoherent_example : IsCoherent (refill_tlb 0x105000 0x9000 store cold)
refill_tlb-IsCoherent_example = refill_tlb-IsCoherent 0x105000 0x9000 store cold cold-IsCoherent

refill_tlb-hit_example :
    (tlb_hit (tags_of load warm) 0x5FF8 ≡ true)
    × (tlb_address warm 0x5FF8 ≡ 0x7010 / 2 ^ 12 * 2 ^ 12 + 0x5FF8 % 2 ^ 12)
refill_tlb-hit_example =
    refill_tlb-hit 0x5010 0x7010 0x5FF8 load cold (omega arith) (omega arith) refl refl
      (omega arith)

flush_tlb_lem_example :
    (tlb_hit (flush_tlb warm).tlb_load_tag 0x5FF8 ≡ false)
    × (tlb_hit (flush_tlb warm).tlb_store_tag 0x5FF8 ≡ false)
    × (tlb_hit (flush_tlb warm).tlb_insn_tag 0x5FF8 ≡ false)
    × IsCoherent (flush_tlb warm)
flush_tlb_lem_example = flush_tlb_lem warm 0x5FF8 (omega arith)

-- The decoder after `add x0, x0, x0`, which moves to the front of the list, from then on asked for
-- `sub x0, x0, x0`.
abbrev next_decoder : Option (InsnFunc × Decoder InsnFunc) → Decoder InsnFunc
next_decoder none = base_decoder
next_decoder (some (f, s)) = s

abbrev later_decoder : Decoder InsnFunc
later_decoder = next_decoder (decode_insn 64 0x33 base_decoder)

later-Reached : Reached base_decoder later_decoder
unfolding decode_insn base_decoder
later-Reached = decoded 64 0x33 _ base_decoder later_decoder initially refl

decode_insn_lem_example : Answers base_table 32 0x40000033 (decode_insn 32 0x40000033 later_decoder)
decode_insn_lem_example = decode_insn_lem later_decoder 32 0x40000033 later-Reached

decode_insn-total_example : decode_insn 32 0x40000033 later_decoder ≢ none
decode_insn-total_example = decode_insn-total later_decoder 32 0x40000033 later-Reached

-- `add x5, x6, x7` at 0x200 on a 32-bit hart, and a bus on which no device answers.
abbrev add_context : Context
add_context = record { xlen = 32; insn = 0x7302B3; pc = 0x200 }

add_context-IsContext : IsContext add_context
unfolding sext_xlen
add_context-IsContext = record { width = inl refl; word = refl }

abbrev no_devices : Bus
no_devices = record { load = λ addr len h. (none, h); store = λ addr len value h. (false, h) }

abbrev reset_state : State
reset_state = record {
  pc = 0;
  mstatus = 0;
  mepc = 0;
  mbadaddr = 0;
  mtimecmp = 0;
  mscratch = 0;
  mcause = 0;
  minstret = 0;
  mie = 0;
  mip = 0;
  sepc = 0;
  sbadaddr = 0;
  sscratch = 0;
  stvec = 0;
  sptbr = 0;
  scause = 0;
  sutime_delta = 0;
  suinstret_delta = 0;
  tohost = 0;
  fromhost = 0;
  fflags = 0;
  frm = 0;
  load_reservation = 0;
  xpr = blank_memory;
  fpr = blank_memory;
  serialized = false;
}

-- A 32-bit hart with the atomic extension, after a load and a store to page 5.
abbrev some_hart : Hart
some_hart = record {
  state = reset_state;
  mmu = refill_tlb 0x5020 0x7020 store warm;
  ext = false;
  cpuid = 1;
  id = 0;
  max_xlen = 32;
  xlen = 32;
  rtc = 0;
  mmio_log = [];
  rounding_mode = 0;
  exception_flags = 0;
}

sc_w-take_trap_example :
    Atomic.sc_w no_devices add_context (take_trap illegal_trap 0x200 some_hart)
    ≡ write_rd add_context 1 (take_trap illegal_trap 0x200 some_hart)
unfolding supports_extension
sc_w-take_trap_example =
    sc_w-take_trap no_devices add_context illegal_trap 0x200 some_hart refl
      (λ e. absurd (omega arith))

load_uint-store_uint_example :
    let after = (store_uint no_devices 4 0x5020 0x123456789 some_hart).1 in
    load_uint no_devices 4 0x5020 after ≡ (ret (0x123456789 % 2 ^ (8 * 4)), after)
unfolding tlb_hit refill_tlb
load_uint-store_uint_example =
    load_uint-store_uint no_devices 4 0x5020 0x123456789 some_hart refl refl refl
