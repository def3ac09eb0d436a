-- ===== src/CacheSim/FullyAssoc.antt =====
-- `fa_cache_sim_t`: riscv-isa-sim/riscv/cachesim.h and cachesim.cc. Its `std::map` is a list in the
-- order of the keys, as that of the bus.
use cmpe220fall.Base.{
  ℕ, zero, suc, ◌%◌, ◌<◌, ◌≤◌, ◌≡◌, refl, ap, arith, Bool-cases, inl, inr, List, [], ◌∷◌, Option,
  some, length, ltb, ◌==◌, ==_iff, if◌then◌else◌, bit_or,
}
use native.Mathlib.Nat.{mod-lt}
use cmpe220fall.Base.Word.{shr64}
use cmpe220fall.Devices.Bus.{insert}
use cmpe220fall.Devices.Map.{From, find, From-weaken, insert-From, find-insert}
use cmpe220fall.CacheSim.Cache.{lfsr_next, valid}

-- The map from lines to tags, with the geometry and the random numbers that it uses.
pub record Assoc : Type 0 where
  pub ways : ℕ
  pub idx_shift : ℕ
  pub lfsr : ℕ
  pub lines : List (ℕ × ℕ)

-- `tags.find(addr >> idx_shift)`: the tag, or `none` for NULL.
unfoldable pub check_line : Assoc → ℕ → Option ℕ
check_line c addr = find (shr64 addr c.idx_shift) c.lines

-- The element that `std::advance` reaches, and the map without it.
unfoldable pub tag_at : ℕ → List (ℕ × ℕ) → ℕ
tag_at n [] = 0
tag_at zero ((k, t) ∷ ls) = t
tag_at (suc n) ((k, t) ∷ ls) = tag_at n ls

unfoldable pub erase : ℕ → List (ℕ × ℕ) → List (ℕ × ℕ)
erase n [] = []
erase zero ((k, t) ∷ ls) = ls
erase (suc n) ((k, t) ∷ ls) = (k, t) ∷ erase n ls

abbrev put_line : ℕ → List (ℕ × ℕ) → List (ℕ × ℕ)
put_line line ls = insert line (bit_or line valid) ls

-- The old tag, 0 if there was room, and the cache with the line of `addr`.
unfoldable pub replace : Assoc → ℕ → ℕ × Assoc
unfolding lfsr_next tag_at erase insert
replace c addr =
    let line = shr64 addr c.idx_shift in
    let next = lfsr_next c.lfsr in
    if length c.lines == c.ways
    then (
      tag_at (next % c.ways) c.lines,
      record c { lfsr = next; lines = put_line line (erase (next % c.ways) c.lines) },
    )
    else (0, record c { lines = put_line line c.lines })

-- A map in order that holds no more lines than there are ways.
pub record IsAssoc (c : Assoc) : Type 0 where
  pub rising : From 0 c.lines
  pub fits : length c.lines ≤ c.ways

erase-From : (n low : ℕ) (ls : List (ℕ × ℕ)) → From low ls → From low (erase n ls)
unfolding erase
erase-From n low [] f = tt
erase-From zero low ((k, t) ∷ ls) f = From-weaken (suc k) low ls (omega (arith, f.0)) f.1
erase-From (suc n) low ((k, t) ∷ ls) f = (f.0, erase-From n (suc k) ls f.1)

erase-length : (n : ℕ) (ls : List (ℕ × ℕ)) → n < length ls → suc (length (erase n ls)) ≡ length ls
unfolding erase
erase-length n [] p = absurd (omega arith)
erase-length zero ((k, t) ∷ ls) p = refl
erase-length (suc n) ((k, t) ∷ ls) p = ap suc (erase-length n ls (omega arith))

insert-length : (key tag : ℕ) (ls : List (ℕ × ℕ)) → length (insert key tag ls) ≤ suc (length ls)
unfolding insert
insert-length key tag [] = omega arith
insert-length key tag ((k, t) ∷ ls) = elim (Bool-cases (key == k)) [
  | inl b ↦ rw b (omega arith)
  | inr b ↦ elim (Bool-cases (ltb key k)) [
    | inl c ↦ rw (b, c) (omega arith)
    | inr c ↦ let rest = insert-length key tag ls in rw (b, c) (omega arith)
  ]
]

module _ (c : Assoc) (addr : ℕ) (w : 0 < c.ways) (k : IsAssoc c) where
  -- Replacing a line keeps the map in order and within its ways, and the line is found afterwards
  -- under its own tag.
  pub replace-IsAssoc :
      IsAssoc (replace c addr).1
      × (check_line (replace c addr).1 addr ≡ some (bit_or (shr64 addr c.idx_shift) valid))
  unfolding replace check_line
  replace-IsAssoc = elim (Bool-cases (length c.lines == c.ways)) [
    | inl b ↦
        let line = shr64 addr c.idx_shift in
        let place = lfsr_next c.lfsr % c.ways in
        let full = (==_iff (length c.lines) c.ways).0 b in
        let lt = mod-lt (lfsr_next c.lfsr) w in
        let fewer = erase-length place c.lines (omega arith) in
        let most = insert-length line (bit_or line valid) (erase place c.lines) in
        rw b (
          record {
            rising =
                insert-From 0 line (bit_or line valid) (erase place c.lines) (omega arith)
                  (erase-From place 0 c.lines k.rising);
            fits = omega arith;
          },
          find-insert line (bit_or line valid) (erase place c.lines),
        )
    | inr b ↦
        let line = shr64 addr c.idx_shift in
        let most = insert-length line (bit_or line valid) c.lines in
        let room : length c.lines < c.ways = ground (arith, b, k.fits) in
        rw b (
          record {
            rising = insert-From 0 line (bit_or line valid) c.lines (omega arith) k.rising;
            fits = omega arith;
          },
          find-insert line (bit_or line valid) c.lines,
        )
  ]
