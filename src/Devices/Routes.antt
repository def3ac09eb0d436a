-- ===== src/Devices/Routes.antt =====
-- Which device of the bus answers an address: riscv-isa-sim/riscv/devices.cc.
use cmpe220fall.Base.{
  ℕ, ◌-◌, ◌^◌, ◌≤◌, ◌<◌, ◌≡◌, sym, ◌∙◌, arith, inl, inr, List, [], ◌∷◌, ◌≢◌, refl, if◌then◌else◌,
  Option, none, some, Option-cases, Bool-cases, ◌==◌, ==_iff,
}
use mathlib.Core.Bool.{false≢true}
use mathlib.Core.Option.{none-ne-some}
use cmpe220fall.Base.Word.{neg64, sub64}
use cmpe220fall.Devices.Bus.{
  AbstractDevice, Answer, refused, DeviceMap, add_device, lower_bound, load,
}
use cmpe220fall.Devices.Map.{
  From, find, find-From, insert-From, find-insert, find-insert_other, lower_bound-least,
  lower_bound-none,
}

module _ {A : Type 0} where
  -- The device that was added at an address.
  abbrev device_at : ℕ → DeviceMap A → Option A
  device_at base devices = find (neg64 base) devices

  -- The maps that devices added at addresses other than zero make.
  pub record IsDevices (devices : DeviceMap A) : Type 0 where
    pub rising : From 1 devices
    pub words : (key : ℕ) (d : A) → find key devices ≡ some d → key < 2 ^ 64

  pub empty-IsDevices : IsDevices []
  empty-IsDevices = record { rising = tt; words = λ key d e. absurd (none-ne-some d e) }

  pub add_device-IsDevices :
      (base : ℕ) (dev : A) (devices : DeviceMap A)
      → 0 < base
      → base < 2 ^ 64
      → IsDevices devices
      → IsDevices (add_device base dev devices)
  unfolding add_device
  add_device-IsDevices base dev devices p q k = record {
    rising = insert-From 1 (neg64 base) dev devices (omega arith) k.rising;
    words = λ key d e. elim (Bool-cases (key == neg64 base)) [
      | inl b ↦ let same = (==_iff key (neg64 base)).0 b in omega arith
      | inr b ↦
          let other =
            find-insert_other (neg64 base) key dev devices
              (λ s. false≢true (sym b ∙ (==_iff key (neg64 base)).1 s)) in
          k.words key d (sym other ∙ e)
    ];
  }

  -- What the bus promises for a load, where `at` says which device is at a base: the device with the
  -- greatest base from which the address can be reached answers, at the distance from its base, and
  -- if there is none the load is refused.
  pub data Loads (ops : AbstractDevice A) (at : ℕ → Option A) (addr len : ℕ) : Answer → Type 0 where
    nowhere :
        ((base : ℕ) (d : A) → base < 2 ^ 64 → at base ≡ some d → addr < base)
        → Loads ops at addr len refused
    at_base :
        (base : ℕ) (dev : A)
        → base ≤ addr
        → at base ≡ some dev
        → ((other : ℕ) (d : A) → other < 2 ^ 64 → at other ≡ some d → other ≤ addr → other ≤ base)
        → Loads ops at addr len (ops.load dev (addr - base) len)

  module _ (ops : AbstractDevice A) (devices : DeviceMap A) (addr len : ℕ) (k : IsDevices devices)
      (p : 0 < addr) (q : addr < 2 ^ 64) where
    -- The key of a device that was added somewhere.
    key-bounds : (key : ℕ) (d : A) → find key devices ≡ some d → (1 ≤ key) × (key < 2 ^ 64)
    key-bounds key d e = (find-From 1 key devices d k.rising e, k.words key d e)

    nowhere-Loads :
        lower_bound (neg64 addr) devices ≡ none
        → Loads ops (λ base. device_at base devices) addr len refused
    nowhere-Loads e = nowhere λ base d b f.
        let lt = lower_bound-none (neg64 addr) (neg64 base) d devices e f in
        let (pos, word) = key-bounds (neg64 base) d f in omega arith

    at_base-Loads :
        (key : ℕ) (dev : A)
        → lower_bound (neg64 addr) devices ≡ some (key, dev)
        → Loads ops
            (λ base. device_at base devices)
            addr
            len
            (ops.load dev (sub64 addr (neg64 key)) len)
    at_base-Loads key dev e =
        let (le, found, least) = lower_bound-least 1 (neg64 addr) key dev devices k.rising e in
        let (pos, word) = key-bounds key dev found in
        let back : neg64 (neg64 key) ≡ key = omega arith in
        let distance : sub64 addr (neg64 key) ≡ addr - neg64 key = omega arith in
        rw distance (
          at_base (neg64 key) dev (omega arith) (rw back found) (λ other d b f r.
            let (pos', word') = key-bounds (neg64 other) d f in
            let le' = least (neg64 other) d f (omega arith) in omega arith))

    map-Loads : Loads ops (λ base. device_at base devices) addr len (load ops devices addr len)
    unfolding load
    map-Loads = elim (Option-cases (lower_bound (neg64 addr) devices)) [
      | inl e ↦ rw e (nowhere-Loads e)
      | inr ((key, dev), e) ↦ rw e (at_base-Loads key dev e)
    ]

  -- The calls of add_device, latest first: the map that they make, and the device that was added
  -- latest at a base.
  abbrev pub add_all : List (ℕ × A) → DeviceMap A
  add_all [] = []
  add_all ((base, dev) ∷ calls) = add_device base dev (add_all calls)

  abbrev pub latest_at : List (ℕ × A) → ℕ → Option A
  latest_at [] at = none
  latest_at ((base, dev) ∷ calls) at =
      let earlier = latest_at calls at in if at == base then some dev else earlier

  -- None of them at address zero.
  abbrev pub AllPlaced : List (ℕ × A) → Type 0
  AllPlaced [] = Unit
  AllPlaced ((base, dev) ∷ calls) = (0 < base) × (base < 2 ^ 64) × AllPlaced calls

  add_all-IsDevices : (calls : List (ℕ × A)) → AllPlaced calls → IsDevices (add_all calls)
  add_all-IsDevices [] p = empty-IsDevices
  add_all-IsDevices ((base, dev) ∷ calls) (pos, word, p) =
      add_device-IsDevices base dev (add_all calls) pos word (add_all-IsDevices calls p)

  -- Looking a base up in the map is looking for the latest call there.
  device_at-add_all :
      (calls : List (ℕ × A)) (at : ℕ)
      → AllPlaced calls
      → at < 2 ^ 64
      → device_at at (add_all calls) ≡ latest_at calls at
  unfolding add_device
  device_at-add_all [] at p word = refl
  device_at-add_all ((base, dev) ∷ calls) at (pos, below, p) word = elim (Bool-cases (at == base)) [
    | inl b ↦
        let same = (==_iff at base).0 b in
        rw (b, same) (find-insert (neg64 base) dev (add_all calls))
    | inr b ↦
        let differs : neg64 at ≢ neg64 base =
          λ e. false≢true (sym b ∙ (==_iff at base).1 (omega arith)) in
        rw b (
          find-insert_other (neg64 base) (neg64 at) dev (add_all calls) differs
          ∙ device_at-add_all calls at p word)
  ]

  Loads-same :
      (ops : AbstractDevice A) (f g : ℕ → Option A) (addr len : ℕ) (answer : Answer)
      → addr < 2 ^ 64
      → ((at : ℕ) → at < 2 ^ 64 → f at ≡ g at)
      → Loads ops f addr len answer
      → Loads ops g addr len answer
  Loads-same ops f g addr len _ q same (nowhere k) =
      nowhere λ base d word e. k base d word (same base word ∙ e)
  Loads-same ops f g addr len _ q same (at_base base dev le e k) =
      at_base base dev le (sym (same base (omega arith)) ∙ e)
        λ other d word e'. k other d word (same other word ∙ e')

  -- After any calls of add_device at addresses other than zero, a load at an address other than zero
  -- is answered by the device that was added latest at the greatest of their bases which is at most
  -- the address, at the distance from that base, and is refused if there is none.
  pub load-Loads :
      (ops : AbstractDevice A) (calls : List (ℕ × A)) (addr len : ℕ)
      → AllPlaced calls
      → 0 < addr
      → addr < 2 ^ 64
      → Loads ops (latest_at calls) addr len (load ops (add_all calls) addr len)
  load-Loads ops calls addr len p pos word =
      Loads-same ops (λ base. device_at base (add_all calls)) (latest_at calls) addr len _ word
        (λ at w. device_at-add_all calls at p w)
        (map-Loads ops (add_all calls) addr len (add_all-IsDevices calls p) pos word)
