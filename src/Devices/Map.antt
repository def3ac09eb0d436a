-- ===== src/Devices/Map.antt =====
-- The map of devices as a sorted list: what `insert` and `lower_bound` find.
use cmpe220fall.Base.{
  ℕ, suc, ◌≤◌, ◌<◌, ◌≡◌, ◌≢◌, refl, sym, ap, ◌∙◌, arith, true, false, Bool-cases, inl, inr, [], ◌∷◌,
  Option, none, some, ltb, leb, ◌==◌, ==_iff, if◌then◌else◌,
}
use mathlib.Core.Option.{some-injective, none-ne-some}
use cmpe220fall.Devices.Bus.{DeviceMap, insert, lower_bound}

key_self : (key : ℕ) → (key == key) ≡ true
key_self key = (==_iff key key).1 refl

other_key : (a b : ℕ) → a ≢ b → (a == b) ≡ false
other_key a b n = elim (Bool-cases (a == b)) [ inl e ↦ absurd (n ((==_iff a b).0 e)) | inr e ↦ e ]

module _ {A : Type 0} where
  -- The keys rise, from `low` on.
  abbrev pub From : ℕ → DeviceMap A → Type 0
  From low [] = Unit
  From low ((k, d) ∷ ds) = (low ≤ k) × From (suc k) ds

  -- The device of a key.
  abbrev pub find : ℕ → DeviceMap A → Option A
  find key [] = none
  find key ((k, d) ∷ ds) = let rest = find key ds in if key == k then some d else rest

  pub From-weaken : (low lower : ℕ) (ds : DeviceMap A) → lower ≤ low → From low ds → From lower ds
  From-weaken low lower [] p f = tt
  From-weaken low lower ((k, d) ∷ ds) p f = (omega (arith, p, f.0), f.1)

  pub find-From :
      (low key : ℕ) (ds : DeviceMap A) (dev : A) → From low ds → find key ds ≡ some dev → low ≤ key
  find-From low key [] dev f e = absurd (none-ne-some dev e)
  find-From low key ((k, d) ∷ ds) dev f e = elim (Bool-cases (key == k)) [
    | inl b ↦ let same = (==_iff key k).0 b in omega (arith, same, f.0)
    | inr b ↦ let above = find-From (suc k) key ds dev f.1 (rw b at e) in omega (arith, above, f.0)
  ]

  pub insert-From :
      (low key : ℕ) (dev : A) (ds : DeviceMap A)
      → low ≤ key
      → From low ds
      → From low (insert key dev ds)
  unfolding insert
  insert-From low key dev [] p f = (p, tt)
  insert-From low key dev ((k, d) ∷ ds) p f = elim (Bool-cases (key == k)) [
    | inl b ↦ let same = (==_iff key k).0 b in rw b (p, rw same f.1)
    | inr b ↦ elim (Bool-cases (ltb key k)) [
      | inl c ↦ let below : key < k = ground (arith, c) in rw (b, c) (p, (below, f.1))
      | inr c ↦
          let above : suc k ≤ key = ground (arith, b, c) in
          rw (b, c) (f.0, insert-From (suc k) key dev ds above f.1)
    ]
  ]

  -- A key that has been set has its new device; the other keys keep theirs.
  pub find-insert : (key : ℕ) (dev : A) (ds : DeviceMap A) → find key (insert key dev ds) ≡ some dev
  unfolding insert
  find-insert key dev [] = rw ((==_iff key key).1 refl) refl
  find-insert key dev ((k, d) ∷ ds) = elim (Bool-cases (key == k)) [
    | inl b ↦ rw (b, key_self key) refl
    | inr b ↦ elim (Bool-cases (ltb key k)) [
      | inl c ↦ rw (b, c, key_self key) refl
      | inr c ↦ rw (b, c) (rw b (find-insert key dev ds))
    ]
  ]

  pub find-insert_other :
      (key other : ℕ) (dev : A) (ds : DeviceMap A)
      → other ≢ key
      → find other (insert key dev ds) ≡ find other ds
  unfolding insert
  find-insert_other key other dev [] n = rw (other_key other key n) refl
  find-insert_other key other dev ((k, d) ∷ ds) n =
      let ne = other_key other key n in
      elim (Bool-cases (key == k)) [
        | inl b ↦
            let same = (==_iff key k).0 b in
            let ne_k = other_key other k (λ e. n (e ∙ sym same)) in rw (b, ne, ne_k) refl
        | inr b ↦ elim (Bool-cases (ltb key k)) [
          | inl c ↦ rw (b, c, ne) refl
          | inr c ↦ elim (Bool-cases (other == k)) [
            | inl s ↦ rw (b, c, s) refl
            | inr s ↦ rw (b, c, s) (find-insert_other key other dev ds n)
          ]
        ]
      ]

  -- `lower_bound` finds the least key from the one asked for on.
  pub lower_bound-least :
      (low key k : ℕ) (d : A) (ds : DeviceMap A)
      → From low ds
      → lower_bound key ds ≡ some (k, d)
      → (key ≤ k) × (find k ds ≡ some d) × ((j : ℕ) (e : A) → find j ds ≡ some e → key ≤ j → k ≤ j)
  unfolding lower_bound
  lower_bound-least low key k d [] f e = absurd (none-ne-some (k, d) e)
  lower_bound-least low key k d ((m, c) ∷ ds) f e = elim (Bool-cases (leb key m)) [
    | inl b ↦
        let same = some-injective (m, c) (k, d) (rw b at e) in
        let key_same : m ≡ k = ap (λ x. x.0) same in
        let le : key ≤ m = ground (arith, b) in
        (
          omega arith,
          rw ((==_iff k m).1 (sym key_same)) (ap (λ x. some x.1) same),
          λ j e' g p.
              let above = find-From m j ((m, c) ∷ ds) e' (omega arith, f.1) g in omega arith,
        )
    | inr b ↦
        let (le, found, least) = lower_bound-least (suc m) key k d ds f.1 (rw b at e) in
        let lt : m < key = ground (arith, b) in
        (
          le,
          rw (other_key k m (λ s. absurd (omega arith))) found,
          λ j e' g p. least j e' (rw (other_key j m (λ s. absurd (omega arith))) at g) p,
        )
  ]

  pub lower_bound-none :
      (key j : ℕ) (e : A) (ds : DeviceMap A)
      → lower_bound key ds ≡ none
      → find j ds ≡ some e
      → j < key
  unfolding lower_bound
  lower_bound-none key j e [] n f = absurd (none-ne-some e f)
  lower_bound-none key j e ((m, c) ∷ ds) n f = elim (Bool-cases (leb key m)) [
    | inl b ↦ absurd (none-ne-some (m, c) (sym (rw b at n)))
    | inr b ↦ elim (Bool-cases (j == m)) [
      | inl s ↦ ground (arith, b, s)
      | inr s ↦ lower_bound-none key j e ds (rw b at n) (rw s at f)
    ]
  ]
