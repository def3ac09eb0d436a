-- ===== src/Mmu/Walk.antt =====
-- Page table walks and address translation: riscv-isa-sim/riscv/mmu.cc.
use cmpe220fall.Base.{
  ℕ, zero, suc, ◌+◌, ◌-◌, ◌*◌, ◌^◌, Bool, not, ◌&&◌, Option, none, some, bit_and, bit_or, ltb, leb,
  ◌==◌, if◌then◌else◌,
}
use cmpe220fall.Base.Word.{add64, sub64, mul64, shl64, shr64, uint64_max}
use cmpe220fall.Encoding.{
  get_field, pte_table, pte_check_perm, mstatus_prv, mstatus_prv1, mstatus_mprv, mstatus_vm,
  vm_mbare, vm_sv32, vm_sv39, vm_sv48, prv_m, prv_u, pte_ppn_shift, pte_r, pte_d,
}
use cmpe220fall.Mmu.Memory.{load_le, store_le}
use cmpe220fall.Mmu.Tlb.{is_store, is_fetch, modify_mmu, pgshift, pgsize}
use cmpe220fall.Machine.{AccessType, aborted, Action, gets, gets_state, pure, ◌>>=◌, ◌>>◌}

-- The loop of `walk` with `levels` rounds to go; `ptshift` is (levels - 1) * ptidxbits.
unfoldable pub walk_levels : ℕ → ℕ → ℕ → Bool → AccessType → ℕ → ℕ → Action ℕ
walk_levels ptidxbits ptesize addr supervisor type zero base = pure uint64_max
walk_levels ptidxbits ptesize addr supervisor type (suc levels) base = do
  m ← gets (λ h. h.mmu)
  let ptshift = levels * ptidxbits
  let idx = bit_and (shr64 addr (pgshift + ptshift)) (2 ^ ptidxbits - 1)
  let pte_addr = add64 base (mul64 idx ptesize)
  let pte = load_le m.mem pte_addr ptesize
  let ppn = shr64 pte pte_ppn_shift
  let next = walk_levels ptidxbits ptesize addr supervisor type levels (shl64 ppn pgshift)
  let flags = bit_or pte_r (if is_store type then pte_d else 0)
  let marked = store_le m.mem pte_addr 4 (bit_or (load_le m.mem pte_addr 4) flags)
  let leaf = shl64 (bit_or ppn (bit_and (shr64 addr pgshift) (2 ^ ptshift - 1))) pgshift
  if leb m.memsz pte_addr
      then pure uint64_max
      else if pte_table pte
      then next
      else if not (pte_check_perm pte supervisor (is_store type) (is_fetch type))
      then pure uint64_max
      else (modify_mmu (λ m. record m { mem = marked }) >> pure leaf)

-- The levels, index bits and entry size of a translation scheme.
unfoldable pub vm_layout : ℕ → Option (ℕ × ℕ × ℕ)
vm_layout vm =
    if vm == vm_sv32
    then some (2, 10, 4)
    else if vm == vm_sv39
    then some (3, 9, 8)
    else if vm == vm_sv48
    then some (4, 9, 8)
    else none

abbrev pub walk_in : ℕ → Bool → AccessType → Option (ℕ × ℕ × ℕ) → Action ℕ
walk_in addr supervisor type none = λ h. (aborted, h)
walk_in addr supervisor type (some (levels, ptidxbits, ptesize)) = do
  h ← gets (λ h. h)
  let va_bits = pgshift + levels * ptidxbits
  let mask = sub64 (shl64 1 (h.xlen - (va_bits - 1))) 1
  let masked_msbs = bit_and (shr64 addr (va_bits - 1)) mask
  if not (masked_msbs == 0) && not (masked_msbs == mask)
      then pure uint64_max
      else walk_levels ptidxbits ptesize addr supervisor type levels h.state.sptbr

unfoldable pub walk : ℕ → Bool → AccessType → Action ℕ
unfolding walk_levels vm_layout
walk addr supervisor type = do
  mstatus ← gets_state (λ s. s.mstatus)
  walk_in addr supervisor type (vm_layout (get_field mstatus mstatus_vm))

-- The privilege at which an access is made.
unfoldable pub access_mode : AccessType → ℕ → ℕ
access_mode type mstatus =
    let mode = get_field mstatus mstatus_prv in
    let prv1 = get_field mstatus mstatus_prv1 in
    let mode' =
      if not (is_fetch type) && not (get_field mstatus mstatus_mprv == 0) then prv1 else mode in
    if get_field mstatus mstatus_vm == vm_mbare then prv_m else mode'

-- `walk(addr, mode > PRV_U, type) | (addr & (PGSIZE-1))`.
unfoldable pub walked_to : ℕ → AccessType → ℕ → Action ℕ
walked_to addr type mode = do
  page ← walk addr (ltb prv_u mode) type
  pure (bit_or page (bit_and addr (pgsize - 1)))

unfoldable pub translate : ℕ → AccessType → Action ℕ
unfolding access_mode walked_to
translate addr type = do
  h ← gets (λ h. h)
  let mode = access_mode type h.state.mstatus
  let msb_mask = sub64 (shl64 2 (h.xlen - 1)) 1
  if mode == prv_m then pure (bit_and addr msb_mask) else walked_to addr type mode
