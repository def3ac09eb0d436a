-- ===== src/Devices/Edges.antt =====
-- The edges of the bus and of a ROM: a device at address zero, and loads at the end of the ROM.
use cmpe220fall.Base.{
  ℕ, zero, suc, ◌+◌, ◌^◌, ◌≤◌, ◌<◌, ◌≡◌, refl, ap, arith, ◌⊎◌, inl, inr, List, [], ◌∷◌, length,
  true, false, Bool-cases, ltb, leb, ◌==◌,
}
use cmpe220fall.Base.Word.{add64, neg64}
use cmpe220fall.Devices.Bus.{
  AbstractDevice, refused, loaded, DeviceMap, add_device, insert, lower_bound, load, copy, prepend,
  rom_device,
}
use cmpe220fall.Devices.Map.{From}
use cmpe220fall.Devices.Routes.{IsDevices}

module _ {A : Type 0} where
  insert-zero :
      (dev : A) (devices : DeviceMap A) → From 1 devices → insert 0 dev devices ≡ (0, dev) ∷ devices
  unfolding insert
  insert-zero dev [] f = refl
  insert-zero dev ((k, d) ∷ ds) f =
      let differs : (0 == k) ≡ false = ground (arith, f.0) in
      let below : ltb 0 k ≡ true = ground (arith, f.0) in rw (differs, below) refl

  -- A device added at address zero changes no load from another address: nothing can be read from
  -- it but at address zero itself.
  pub load-add_zero :
      (ops : AbstractDevice A) (devices : DeviceMap A) (dev : A) (addr len : ℕ)
      → IsDevices devices
      → 0 < addr
      → addr < 2 ^ 64
      → load ops (add_device 0 dev devices) addr len ≡ load ops devices addr len
  unfolding load add_device lower_bound
  load-add_zero ops devices dev addr len k p q =
      let front = insert-zero dev devices k.rising in
      let above : leb (neg64 addr) 0 ≡ false = ground (arith, p, q) in rw (front, above) refl

-- The reference: the first bytes of a list, and the list without them.
abbrev pub take : {A : Type 0} → ℕ → List A → List A
take zero xs = []
take (suc n) [] = []
take (suc n) (x ∷ xs) = x ∷ take n xs

abbrev pub drop : {A : Type 0} → ℕ → List A → List A
drop zero xs = xs
drop (suc n) [] = []
drop (suc n) (x ∷ xs) = drop n xs

copy-inside :
    (contents : List ℕ) (addr len : ℕ)
    → addr + len ≤ length contents
    → copy contents addr len ≡ loaded (take len (drop addr contents))
unfolding copy
copy-inside contents zero zero p = refl
copy-inside [] zero (suc len) p = absurd (omega arith)
copy-inside (b ∷ contents) zero (suc len) p =
    ap (prepend b) (copy-inside contents zero len (omega arith))
copy-inside [] (suc addr) len p = absurd (omega arith)
copy-inside (b ∷ contents) (suc addr) len p = copy-inside contents addr len (omega arith)

-- A load of a ROM whose end does not wrap around is refused if it ends beyond the contents, and
-- otherwise gives the bytes of the contents from its address on.
pub rom_device-load :
    (contents : List ℕ) (addr len : ℕ)
    → addr + len < 2 ^ 64
    → ((length contents < addr + len) × (rom_device.load contents addr len ≡ refused))
      ⊎ ((addr + len ≤ length contents)
          × (rom_device.load contents addr len ≡ loaded (take len (drop addr contents))))
unfolding rom_device
rom_device-load contents addr len p =
    let same : add64 addr len ≡ addr + len = omega arith in
    elim (Bool-cases (ltb (length contents) (addr + len))) [
      | inl e ↦ inl (ground (arith, e), rw (same, e) refl)
      | inr e ↦
          let inside : addr + len ≤ length contents = ground (arith, e) in
          inr (inside, rw (same, e) (copy-inside contents addr len inside))
    ]
