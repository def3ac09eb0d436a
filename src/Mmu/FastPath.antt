-- ===== src/Mmu/FastPath.antt =====
-- A load after a store to the same address, both on the fast path.
use cmpe220fall.Base.{ℕ, ◌-◌, ◌*◌, ◌%◌, ◌^◌, ◌≡◌, ◌∙◌, ap, true, bit_and}
use native.Mathlib.Nat.{mod-mod}
use cmpe220fall.Machine.{Bus, Hart, ret}
use cmpe220fall.Mmu.Memory.{load_le, store_le}
use cmpe220fall.Mmu.Access.{tlb_hit, tlb_address, load_bytes, store_bytes, load_uint, store_uint}
use cmpe220fall.Mmu.Roundtrip.{load_le-store_le}

-- At an aligned address that the TLB holds for stores and for loads, a load after a store returns
-- the stored value, cut to its bytes, and changes nothing.
pub load_uint-store_uint :
    (bus : Bus) (len addr value : ℕ) (h : Hart)
    → bit_and addr (len - 1) ≡ 0
    → tlb_hit h.mmu.tlb_store_tag addr ≡ true
    → tlb_hit h.mmu.tlb_load_tag addr ≡ true
    → let after = (store_uint bus len addr value h).1 in
      load_uint bus len addr after ≡ (ret (value % 2 ^ (8 * len)), after)
unfolding load_uint store_uint load_bytes store_bytes tlb_address
load_uint-store_uint bus len addr value h aligned stores loads =
    let cut = value % 2 ^ (8 * len) in
    let stored = store_le h.mmu.mem (tlb_address h.mmu addr) len cut in
    let loaded : load_le stored (tlb_address h.mmu addr) len ≡ cut =
      (load_le-store_le h.mmu.mem (tlb_address h.mmu addr) len cut).0
      ∙ mod-mod value (2 ^ (8 * len)) in
    rw (aligned, stores, loads)
      (ap (λ (v : ℕ). (ret v, record h { mmu = record h.mmu { mem = stored } })) loaded)
