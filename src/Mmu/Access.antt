-- ===== src/Mmu/Access.antt =====
-- Loads, stores and fetches: riscv-isa-sim/riscv/mmu.h, the slow paths of mmu.cc, and the MMIO entry
-- points of sim.cc.
use cmpe220fall.Base.{
  ℕ, ◌-◌, ◌*◌, ◌%◌, ◌^◌, Bool, false, ◌||◌, not, List, [], ◌∷◌, Option, none, some, bit_and, ltb,
  ◌==◌, if◌then◌else◌,
}
use cmpe220fall.Base.Word.{add64, shr64, sext}
use cmpe220fall.Mmu.Memory.{load_le, store_le}
use cmpe220fall.Mmu.Tlb.{gets_mmu, modify_mmu, refill_tlb, pgshift, pgsize, tlb_entries}
use cmpe220fall.Mmu.Walk.{translate}
use cmpe220fall.Machine.{
  ret, Hart, AccessType, load, store, load_address_misaligned, store_address_misaligned,
  load_access_fault, store_access_fault, Mmu, Bus, Action, pure, raise, gets, modify, ◌>>=◌, ◌>>◌,
  skip,
}

-- `memtracer_list_t::interested_in_range`.
unfoldable pub interested_in_range : List (ℕ → ℕ → AccessType → Bool) → ℕ → ℕ → AccessType → Bool
interested_in_range [] begin end type = false
interested_in_range (t ∷ ts) begin end type =
    t begin end type || interested_in_range ts begin end type

unfoldable pub trace : ℕ → ℕ → AccessType → Action (Unit {0})
trace paddr len type =
    modify_mmu
      (λ m. record m { traced = record { addr = paddr; bytes = len; kind = type } ∷ m.traced })

-- After an access to memory off the fast path: trace it, or remember the translation.
unfoldable pub trace_or_refill : ℕ → ℕ → ℕ → AccessType → Action (Unit {0})
unfolding interested_in_range trace refill_tlb
trace_or_refill addr paddr len type = do
  tracers ← gets_mmu (λ m. m.tracers)
  if interested_in_range tracers paddr (add64 paddr pgsize) type
      then trace paddr len type
      else modify_mmu (refill_tlb addr paddr type)

-- The fast path reads at the host pointer `tlb_data[vpn % TLB_ENTRIES] + addr`.
unfoldable pub tlb_address : Mmu → ℕ → ℕ
tlb_address m addr = add64 (m.tlb_data (shr64 addr pgshift % tlb_entries)) addr

unfoldable pub tlb_hit : (ℕ → ℕ) → ℕ → Bool
tlb_hit tags addr = tags (shr64 addr pgshift % tlb_entries) == shr64 addr pgshift

-- What the bus answers, and the hart that it leaves.
abbrev pub on_bus : {A : Type 0} → (Hart → A × Hart) → Action A
on_bus f h = let (answer, after) = f h in (ret answer, after)

module _ (bus : Bus) where
  -- `sim_t::mmio_load`, `sim_t::mmio_store`.
  unfoldable pub mmio_load : ℕ → ℕ → Action (Option ℕ)
  mmio_load addr len = if ltb (add64 addr len) addr then pure none else on_bus (bus.load addr len)

  unfoldable pub mmio_store : ℕ → ℕ → ℕ → Action Bool
  mmio_store addr len value = do
    accepted ← if ltb (add64 addr len) addr then pure false else on_bus (bus.store addr len value)
    modify (λ h.
        if accepted
        then record h { mmio_log = record { addr = addr; bytes = len; value = value } ∷ h.mmio_log }
        else h)
    pure accepted

  abbrev pub or_load_fault : ℕ → Option ℕ → Action ℕ
  or_load_fault addr none = raise (load_access_fault addr)
  or_load_fault addr (some v) = pure v

  unfoldable pub load_slow_path : ℕ → ℕ → Action ℕ
  load_slow_path addr len = do
    paddr ← translate addr load
    memsz ← gets_mmu (λ m. m.memsz)
    value ← gets_mmu (λ m. load_le m.mem paddr len)
    if ltb paddr memsz
        then (trace_or_refill addr paddr len load >> pure value)
        else (mmio_load paddr len >>= or_load_fault addr)

  unfoldable pub store_slow_path : ℕ → ℕ → ℕ → Action (Unit {0})
  store_slow_path addr len value = do
    paddr ← translate addr store
    memsz ← gets_mmu (λ m. m.memsz)
    if ltb paddr memsz
        then (modify_mmu (λ m. record m { mem = store_le m.mem paddr len value })
            >> trace_or_refill addr paddr len store)
        else (mmio_store paddr len value >>= λ accepted.
            if accepted then skip else raise (store_access_fault addr))

  -- `load_func(type)` for a type of `len` bytes, before the extension to a register.
  unfoldable pub load_bytes : ℕ → ℕ → Action ℕ
  unfolding tlb_hit tlb_address
  load_bytes len addr = do
    m ← gets (λ h. h.mmu)
    if not (bit_and addr (len - 1) == 0)
        then raise (load_address_misaligned addr)
        else if tlb_hit m.tlb_load_tag addr
        then pure (load_le m.mem (tlb_address m addr) len)
        else load_slow_path addr len

  -- `store_func(type)`.
  unfoldable pub store_bytes : ℕ → ℕ → ℕ → Action (Unit {0})
  unfolding tlb_hit tlb_address
  store_bytes len addr value = do
    m ← gets (λ h. h.mmu)
    if not (bit_and addr (len - 1) == 0)
        then raise (store_address_misaligned addr)
        else if tlb_hit m.tlb_store_tag addr
        then modify_mmu (λ m. record m { mem = store_le m.mem (tlb_address m addr) len value })
        else store_slow_path addr len value

  -- The widths: `load_uint8` … `load_int64`.
  unfoldable pub load_uint : ℕ → ℕ → Action ℕ
  unfolding load_bytes
  load_uint len addr = load_bytes len addr

  unfoldable pub load_int : ℕ → ℕ → Action ℕ
  unfolding load_bytes
  load_int len addr = do pure (sext (8 * len) (← load_bytes len addr))

  -- `store_uint8` … `store_uint64`: the argument is cut to the type.
  unfoldable pub store_uint : ℕ → ℕ → ℕ → Action (Unit {0})
  unfolding store_bytes
  store_uint len addr value = store_bytes len addr (value % 2 ^ (8 * len))
