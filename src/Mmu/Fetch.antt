-- ===== src/Mmu/Fetch.antt =====
-- Instruction fetches and the instruction cache: riscv-isa-sim/riscv/mmu.h.
use cmpe220fall.Base.{ℕ, ◌+◌, ◌-◌, ◌/◌, ◌%◌, bit_or, ltb, ◌==◌, if◌then◌else◌}
use cmpe220fall.Base.Word.{add64, shl64, sext, uint64_max}
use cmpe220fall.Decode.{insn_length}
use cmpe220fall.Mmu.Memory.{load_le, update}
use cmpe220fall.Mmu.Tlb.{gets_mmu, modify_mmu, refill_tlb, pgsize, icache_entries, pc_align}
use cmpe220fall.Mmu.Access.{interested_in_range, trace, tlb_hit, tlb_address}
use cmpe220fall.Mmu.Walk.{translate}
use cmpe220fall.Machine.{
  fetch, instruction_access_fault, Action, pure, raise, gets, ◌>>=◌, ◌>>◌, skip,
}

-- `fetch_slow_path` and `translate_insn_addr`: the place in memory of the two bytes at `addr`.
unfoldable pub fetch_slow_path : ℕ → Action ℕ
fetch_slow_path addr = do
  paddr ← translate addr fetch
  memsz ← gets_mmu (λ m. m.memsz)
  if ltb paddr memsz
      then (modify_mmu (refill_tlb addr paddr fetch) >> pure paddr)
      else raise (instruction_access_fault addr)

unfoldable pub translate_insn_addr : ℕ → Action ℕ
unfolding tlb_hit tlb_address fetch_slow_path
translate_insn_addr addr = do
  m ← gets (λ h. h.mmu)
  if tlb_hit m.tlb_insn_tag addr then pure (tlb_address m addr) else fetch_slow_path addr

-- Two bytes at a place in memory, zero- and sign-extended.
abbrev half : ℕ → Action ℕ
half iaddr = gets_mmu (λ m. load_le m.mem iaddr 2)

abbrev signed_half : ℕ → Action ℕ
signed_half iaddr = gets_mmu (λ m. sext 16 (load_le m.mem iaddr 2))

unfoldable pub icache_index : ℕ → ℕ
icache_index addr = addr / pc_align % icache_entries

-- The instruction word at `addr`, whose first half is at `iaddr`.
unfoldable pub assemble : ℕ → ℕ → ℕ → Action ℕ
unfolding translate_insn_addr
assemble addr iaddr insn =
    let length = insn_length insn in
    if length == 4
    then (if ltb (addr % pgsize) (pgsize - 2)
        then (do hi ← signed_half (iaddr + 2); pure (bit_or insn (shl64 hi 16)))
        else (do
          p ← translate_insn_addr (add64 addr 2)
          hi ← signed_half p
          pure (bit_or insn (shl64 hi 16))))
    else if length == 2
    then pure (sext 16 insn)
    else if length == 6
    then (do
      p4 ← translate_insn_addr (add64 addr 4)
      h4 ← signed_half p4
      p2 ← translate_insn_addr (add64 addr 2)
      h2 ← half p2
      pure (bit_or (bit_or insn (shl64 h4 32)) (shl64 h2 16)))
    else (do
      p6 ← translate_insn_addr (add64 addr 6)
      h6 ← signed_half p6
      p4 ← translate_insn_addr (add64 addr 4)
      h4 ← half p4
      p2 ← translate_insn_addr (add64 addr 2)
      h2 ← half p2
      pure (bit_or (bit_or (bit_or insn (shl64 h6 48)) (shl64 h4 32)) (shl64 h2 16)))

-- `refill_icache(addr, entry)` but for `decode_insn`, which touches nothing here: the word that it
-- puts into the entry.
unfoldable pub refill_entry : ℕ → ℕ → Action ℕ
unfolding translate_insn_addr assemble interested_in_range trace update
refill_entry addr entry = do
  iaddr ← translate_insn_addr addr
  first ← half iaddr
  insn ← assemble addr iaddr first
  modify_mmu (λ m. record m {
    icache_tag = update m.icache_tag entry addr;
    icache_insn = update m.icache_insn entry insn;
  })
  tracers ← gets_mmu (λ m. m.tracers)
  if interested_in_range tracers iaddr (add64 iaddr 1) fetch
      then (modify_mmu (λ m. record m { icache_tag = update m.icache_tag entry uint64_max })
          >> trace iaddr (insn_length first) fetch)
      else skip
  pure insn
