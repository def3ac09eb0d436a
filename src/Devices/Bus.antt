-- ===== src/Devices/Bus.antt =====
-- `bus_t` and `rom_device_t`: riscv-isa-sim/riscv/devices.h and devices.cc.
use cmpe220fall.Base.{
  ℕ, zero, suc, List, [], ◌∷◌, Option, none, some, ltb, leb, ◌==◌, if◌then◌else◌, length,
}
use cmpe220fall.Base.Word.{add64, sub64, neg64}

-- What a load answers; `overrun` stands for bytes from outside of the object, which are undefined.
pub data Answer : Type 0 where
  refused : Answer
  loaded : List ℕ → Answer
  overrun : Answer

-- `abstract_device_t`, of a device with states of the type `A`. A store gives the state after it,
-- or refuses.
pub record AbstractDevice (A : Type 0) : Type 0 where
  pub load : A → ℕ → ℕ → Answer
  pub store : A → ℕ → List ℕ → Option A

-- `std::map<reg_t, abstract_device_t*>`: pairs in the order of their keys.
abbrev pub DeviceMap : Type 0 → Type 0
DeviceMap A = List (ℕ × A)

module _ {A : Type 0} where
  -- `devices[key] = dev`.
  unfoldable pub insert : ℕ → A → DeviceMap A → DeviceMap A
  insert key dev [] = (key, dev) ∷ []
  insert key dev ((k, d) ∷ ds) =
      let rest = insert key dev ds in
      if key == k
      then (key, dev) ∷ ds
      else if ltb key k
      then (key, dev) ∷ (k, d) ∷ ds
      else (k, d) ∷ rest

  -- `devices.lower_bound(key)`; `none` is `end()`.
  unfoldable pub lower_bound : ℕ → DeviceMap A → Option (ℕ × A)
  lower_bound key [] = none
  lower_bound key ((k, d) ∷ ds) =
      let rest = lower_bound key ds in if leb key k then some (k, d) else rest

  -- The map is searched by the opposite of an address.
  unfoldable pub add_device : ℕ → A → DeviceMap A → DeviceMap A
  unfolding insert
  add_device addr dev devices = insert (neg64 addr) dev devices

module _ {A : Type 0} (ops : AbstractDevice A) where
  abbrev pub load_from : ℕ → ℕ → Option (ℕ × A) → Answer
  load_from addr len none = refused
  load_from addr len (some (key, dev)) = ops.load dev (sub64 addr (neg64 key)) len

  -- `bus_t::load`.
  unfoldable pub load : DeviceMap A → ℕ → ℕ → Answer
  unfolding lower_bound
  load devices addr len = load_from addr len (lower_bound (neg64 addr) devices)

  abbrev pub put_back : ℕ → DeviceMap A → Option A → Option (DeviceMap A)
  put_back key devices none = none
  put_back key devices (some dev) = some (insert key dev devices)

  abbrev pub store_to : DeviceMap A → ℕ → List ℕ → Option (ℕ × A) → Option (DeviceMap A)
  store_to devices addr bytes none = none
  store_to devices addr bytes (some (key, dev)) =
      put_back key devices (ops.store dev (sub64 addr (neg64 key)) bytes)

  -- `bus_t::store`: the device has its new state afterwards.
  unfoldable pub store : DeviceMap A → ℕ → List ℕ → Option (DeviceMap A)
  unfolding lower_bound insert
  store devices addr bytes = store_to devices addr bytes (lower_bound (neg64 addr) devices)

abbrev pub prepend : ℕ → Answer → Answer
prepend b refused = refused
prepend b (loaded bytes) = loaded (b ∷ bytes)
prepend b overrun = overrun

-- `memcpy(bytes, &data[addr], len)`.
unfoldable pub copy : List ℕ → ℕ → ℕ → Answer
copy contents zero zero = loaded []
copy [] zero (suc len) = overrun
copy (b ∷ contents) zero (suc len) = prepend b (copy contents zero len)
copy [] (suc addr) len = overrun
copy (b ∷ contents) (suc addr) len = copy contents addr len

-- `rom_device_t`, whose state is its bytes. The sum of `addr` and `len` has 64 bits.
unfoldable pub rom_device : AbstractDevice (List ℕ)
unfolding copy
rom_device = record {
  load = λ contents addr len.
      if ltb (length contents) (add64 addr len) then refused else copy contents addr len;
  store = λ contents addr bytes. none;
}
