-- ===== src/Mmu/Misaligned.antt =====
-- Loads and stores whose address is no multiple of their width.
use cmpe220fall.Base.{
  ℕ, ◌-◌, ◌%◌, ◌*◌, ◌^◌, ◌≡◌, ◌≢◌, refl, false, Bool-cases, inl, inr, ◌==◌, ==_iff, bit_and,
}
use cmpe220fall.Base.Bits.{bit_and_mask}
use cmpe220fall.Machine.{Hart, Bus, throw, load_address_misaligned, store_address_misaligned}
use cmpe220fall.Mmu.Access.{load_bytes, store_bytes, load_uint, load_int, store_uint}

-- The test of `load_func` and `store_func`.
misaligned-test : (k addr : ℕ) → addr % 2 ^ k ≢ 0 → (bit_and addr (2 ^ k - 1) == 0) ≡ false
misaligned-test k addr n = elim (Bool-cases (bit_and addr (2 ^ k - 1) == 0)) [
  | inl e ↦ absurd (n (rw (bit_and_mask k addr) at ((==_iff (bit_and addr (2 ^ k - 1)) 0).0 e)))
  | inr e ↦ e
]

module _ (bus : Bus) (k addr : ℕ) (n : addr % 2 ^ k ≢ 0) (h : Hart) where
  load_bytes-throw : load_bytes bus (2 ^ k) addr h ≡ (throw (load_address_misaligned addr), h)
  unfolding load_bytes
  load_bytes-throw = rw (misaligned-test k addr n) refl

  store_bytes-throw :
      (value : ℕ)
      → store_bytes bus (2 ^ k) addr value h ≡ (throw (store_address_misaligned addr), h)
  unfolding store_bytes
  store_bytes-throw value = rw (misaligned-test k addr n) refl

  -- An access of 2 ^ k bytes at an address that is no multiple of 2 ^ k raises the trap for its kind
  -- with that address, and leaves the whole hart, its memory and its TLB included, as it was.
  pub misaligned_lem :
      (value : ℕ)
      → (load_uint bus (2 ^ k) addr h ≡ (throw (load_address_misaligned addr), h))
        × (load_int bus (2 ^ k) addr h ≡ (throw (load_address_misaligned addr), h))
        × (store_uint bus (2 ^ k) addr value h ≡ (throw (store_address_misaligned addr), h))
  unfolding load_uint load_int store_uint
  misaligned_lem value =
      (load_bytes-throw, rw load_bytes-throw refl, store_bytes-throw (value % 2 ^ (8 * 2 ^ k)))
