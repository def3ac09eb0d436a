-- ===== src/Mmu/Coherent.antt =====
-- The three tag arrays of the TLB share one array of translations. That is sound since no entry
-- ever holds the tags of two pages.
use cmpe220fall.Base.{ℕ, ◌+◌, ◌*◌, ◌/◌, ◌%◌, ◌^◌, ◌<◌, ◌≡◌, ◌⊎◌, inl, refl, arith, true, false}
use cmpe220fall.Base.Word.{uint64_max}
use cmpe220fall.Machine.{AccessType, load, store, fetch, Mmu}
use cmpe220fall.Mmu.Tlb.{flush_tlb, refill_tlb, pgsize}
use cmpe220fall.Mmu.Access.{tlb_hit, tlb_address}

-- Of two tags that are not empty, both are of one page.
abbrev Agree : ℕ → ℕ → Type 0
Agree s t = (s ≡ uint64_max) ⊎ (t ≡ uint64_max) ⊎ (s ≡ t)

pub record IsCoherentAt (m : Mmu) (i : ℕ) : Type 0 where
  pub load_store : Agree (m.tlb_load_tag i) (m.tlb_store_tag i)
  pub load_insn : Agree (m.tlb_load_tag i) (m.tlb_insn_tag i)
  pub store_insn : Agree (m.tlb_store_tag i) (m.tlb_insn_tag i)

abbrev pub IsCoherent : Mmu → Type 0
IsCoherent m = (i : ℕ) → IsCoherentAt m i

refill_tlb-at :
    (va pa i : ℕ) (type : AccessType) (m : Mmu)
    → IsCoherentAt m i
    → IsCoherentAt (refill_tlb va pa type m) i
unfolding refill_tlb
refill_tlb-at va pa i load m k = ground (arith, k.load_store, k.load_insn, k.store_insn)
refill_tlb-at va pa i store m k = ground (arith, k.load_store, k.load_insn, k.store_insn)
refill_tlb-at va pa i fetch m k = ground (arith, k.load_store, k.load_insn, k.store_insn)

-- Refilling keeps the entries coherent, whatever the kind of access.
pub refill_tlb-IsCoherent :
    (va pa : ℕ) (type : AccessType) (m : Mmu) → IsCoherent m → IsCoherent (refill_tlb va pa type m)
refill_tlb-IsCoherent va pa type m k i = refill_tlb-at va pa i type m (k i)

-- After a flush no access of any kind hits, at any 64-bit address, and the entries are coherent.
pub flush_tlb_lem :
    (m : Mmu) (addr : ℕ)
    → addr < 2 ^ 64
    → (tlb_hit (flush_tlb m).tlb_load_tag addr ≡ false)
      × (tlb_hit (flush_tlb m).tlb_store_tag addr ≡ false)
      × (tlb_hit (flush_tlb m).tlb_insn_tag addr ≡ false)
      × IsCoherent (flush_tlb m)
unfolding flush_tlb tlb_hit
flush_tlb_lem m addr h = (
  ground arith,
  ground arith,
  ground arith,
  λ i. record { load_store = inl refl; load_insn = inl refl; store_insn = inl refl },
)

-- The tags that an access of a kind is looked up in.
abbrev pub tags_of : AccessType → Mmu → ℕ → ℕ
tags_of load m = m.tlb_load_tag
tags_of store m = m.tlb_store_tag
tags_of fetch m = m.tlb_insn_tag

-- After a refill for `va`, an access of that kind to any address of the same page hits, and goes to the
-- same offset in the physical page.
pub refill_tlb-hit :
    (va pa addr : ℕ) (type : AccessType) (m : Mmu)
    → va < 2 ^ 64
    → addr < 2 ^ 64
    → addr / pgsize ≡ va / pgsize
    → pa % pgsize ≡ va % pgsize
    → pa < 2 ^ 64
    → (tlb_hit (tags_of type (refill_tlb va pa type m)) addr ≡ true)
      × (tlb_address (refill_tlb va pa type m) addr ≡ pa / pgsize * pgsize + addr % pgsize)
unfolding refill_tlb tlb_hit tlb_address
refill_tlb-hit va pa addr load m hv ha same off hp = (ground arith, ground arith)
refill_tlb-hit va pa addr store m hv ha same off hp = (ground arith, ground arith)
refill_tlb-hit va pa addr fetch m hv ha same off hp = (ground arith, ground arith)
