-- ===== src/Mmu/Tlb.antt =====
-- The TLB and the tags of the instruction cache: riscv-isa-sim/riscv/mmu.h and mmu.cc.
use cmpe220fall.Base.{ℕ, ◌^◌, ◌%◌, Bool, true, false, not, ◌==◌, if◌then◌else◌}
use cmpe220fall.Base.Word.{sub64, shr64, uint64_max}
use cmpe220fall.Mmu.Memory.{update}
use cmpe220fall.Machine.{AccessType, load, store, fetch, Mmu, Action, gets, modify}

abbrev pub pgshift : ℕ
pgshift = 12

abbrev pub pgsize : ℕ
pgsize = 2 ^ 12

abbrev pub tlb_entries : ℕ
tlb_entries = 256

abbrev pub icache_entries : ℕ
icache_entries = 1024

abbrev pub pc_align : ℕ
pc_align = 2

abbrev pub gets_mmu : {A : Type 0} → (Mmu → A) → Action A
gets_mmu f = gets (λ h. f h.mmu)

abbrev pub modify_mmu : (Mmu → Mmu) → Action (Unit {0})
modify_mmu f = modify (λ h. record h { mmu = f h.mmu })

abbrev pub is_store : AccessType → Bool
is_store load = false
is_store store = true
is_store fetch = false

abbrev pub is_fetch : AccessType → Bool
is_fetch load = false
is_fetch store = false
is_fetch fetch = true

unfoldable pub flush_icache : Mmu → Mmu
flush_icache m = record m { icache_tag = λ _. uint64_max }

unfoldable pub flush_tlb : Mmu → Mmu
unfolding flush_icache
flush_tlb m = flush_icache (record m {
  tlb_insn_tag = λ _. uint64_max;
  tlb_load_tag = λ _. uint64_max;
  tlb_store_tag = λ _. uint64_max;
})

abbrev pub keep_tag : (ℕ → ℕ) → ℕ → ℕ → ℕ → ℕ
keep_tag tags idx expected = if not (tags idx == expected) then update tags idx uint64_max else tags

unfoldable pub refill_tlb : ℕ → ℕ → AccessType → Mmu → Mmu
unfolding update
refill_tlb vaddr paddr type m =
    let expected = shr64 vaddr pgshift in
    let idx = shr64 vaddr pgshift % tlb_entries in
    let loads = keep_tag m.tlb_load_tag idx expected in
    let stores = keep_tag m.tlb_store_tag idx expected in
    let insns = keep_tag m.tlb_insn_tag idx expected in
    record m {
      tlb_insn_tag = if is_fetch type then update insns idx expected else insns;
      tlb_store_tag = if is_store type then update stores idx expected else stores;
      tlb_load_tag =
          if is_fetch type
          then loads
          else if is_store type
          then loads
          else update loads idx expected;
      tlb_data = update m.tlb_data idx (sub64 paddr vaddr);
    }
