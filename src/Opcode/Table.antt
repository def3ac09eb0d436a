-- ===== src/Opcode/Table.antt =====
-- The list of instruction descriptions that decode_insn searches: riscv-isa-sim/riscv/processor.h and
-- processor.cc.
use cmpe220fall.Base.{
  ℕ, Bool, true, false, ◌&&◌, not, List, [], ◌∷◌, ◌++◌, Option, none, some, bit_and, ◌==◌,
  if◌then◌else◌,
}

-- `insn_desc_t`; `rv32` and `rv64` are the instruction functions.
pub record Desc (F : Type 0) : Type 0 where
  pub match_bits : ℕ
  pub mask : ℕ
  pub rv32 : F
  pub rv64 : F

module _ {F : Type 0} where
  -- `(insn.bits() & p->mask) == p->match`.
  unfoldable pub fits : ℕ → Desc F → Bool
  fits bits d = bit_and bits d.mask == d.match_bits

  abbrev pub after :
      Desc F
      → Option (List (Desc F) × Desc F × List (Desc F))
      → Option (List (Desc F) × Desc F × List (Desc F))
  after p none = none
  after p (some (pre, d, post)) = some (p ∷ pre, d, post)

  -- The linear search of `decode_insn`: what stands before the first description that fits, that
  -- description, and what stands after it. The source has no test for the end of the list, which is
  -- `none` here.
  unfoldable pub linear_search : ℕ → List (Desc F) → Option (List (Desc F) × Desc F × List (Desc F))
  unfolding fits
  linear_search bits [] = none
  linear_search bits (p ∷ ps) =
      let rest = linear_search bits ps in if fits bits p then some ([], p, ps) else after p rest

  -- The tests on the neighbours `p - 1` and `p + 1`; the first fails at the front of the list, where
  -- there is no `p - 1`. No description with a mask stands at the end of the list.
  unfoldable pub differs_from_last : List (Desc F) → ℕ → Bool
  differs_from_last [] m = false
  differs_from_last (a ∷ []) m = not (m == a.match_bits)
  differs_from_last (a ∷ b ∷ ds) m = differs_from_last (b ∷ ds) m

  unfoldable pub differs_from_head : List (Desc F) → ℕ → Bool
  differs_from_head [] m = true
  differs_from_head (e ∷ es) m = not (m == e.match_bits)

  -- "move to front of opcode list to reduce miss penalty".
  unfoldable pub move_to_front : List (Desc F) → Desc F → List (Desc F) → List (Desc F)
  unfolding differs_from_last differs_from_head
  move_to_front pre d post =
      if not (d.mask == 0)
        && differs_from_last pre d.match_bits
        && differs_from_head post d.match_bits
      then d ∷ pre ++ post
      else pre ++ d ∷ post

  -- The reference: the first description of a list that fits.
  unfoldable pub lookup : ℕ → List (Desc F) → Option (Desc F)
  unfolding fits
  lookup bits [] = none
  lookup bits (p ∷ ps) = let rest = lookup bits ps in if fits bits p then some p else rest
