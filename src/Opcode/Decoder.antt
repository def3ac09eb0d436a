-- ===== src/Opcode/Decoder.antt =====
-- decode_insn and its opcode cache: riscv-isa-sim/riscv/processor.cc.
use cmpe220fall.Base.{ℕ, ◌%◌, Bool, List, [], ◌∷◌, Option, none, some, ltb, ◌==◌, if◌then◌else◌}
use cmpe220fall.Opcode.Table.{Desc, linear_search, move_to_front}

abbrev pub opcode_cache_size : ℕ
opcode_cache_size = 8191

-- The parts of `processor_t` that `decode_insn` reads and changes.
pub record Decoder (F : Type 0) : Type 0 where
  pub instructions : List (Desc F)
  pub opcode_cache : ℕ → Desc F

module _ {F : Type 0} where
  abbrev pub select : ℕ → Desc F → F
  select xlen d = if xlen == 64 then d.rv64 else d.rv32

  abbrev pub found :
      ℕ → ℕ → Decoder F → Option (List (Desc F) × Desc F × List (Desc F)) → Option (F × Decoder F)
  found xlen bits s none = none
  found xlen bits s (some (pre, d, post)) = some (
    select xlen d,
    record {
      instructions = move_to_front pre d post;
      opcode_cache = λ i.
          if i == bits % opcode_cache_size
          then record d { match_bits = bits }
          else s.opcode_cache i;
    },
  )

  -- The answer, and the decoder afterwards; `none` where the search runs past the list.
  unfoldable pub decode_insn : ℕ → ℕ → Decoder F → Option (F × Decoder F)
  unfolding linear_search move_to_front
  decode_insn xlen bits s =
      let desc = s.opcode_cache (bits % opcode_cache_size) in
      if bits == desc.match_bits
      then some (select xlen desc, s)
      else found xlen bits s (linear_search bits s.instructions)

  -- The order of `build_opcode_map`: by match bits, then by mask, both falling.
  unfoldable pub cmp : Desc F → Desc F → Bool
  cmp lhs rhs =
      if lhs.match_bits == rhs.match_bits
      then ltb rhs.mask lhs.mask
      else ltb rhs.match_bits lhs.match_bits

  -- `std::sort` with that order.
  unfoldable pub insert : Desc F → List (Desc F) → List (Desc F)
  unfolding cmp
  insert d [] = d ∷ []
  insert d (e ∷ es) = let rest = insert d es in if cmp d e then d ∷ e ∷ es else e ∷ rest

  unfoldable pub sort : List (Desc F) → List (Desc F)
  unfolding insert
  sort [] = []
  sort (d ∷ ds) = insert d (sort ds)

  unfoldable pub build_opcode_map : F → List (Desc F) → Decoder F
  unfolding sort
  build_opcode_map illegal_instruction instructions = record {
    instructions = sort instructions;
    opcode_cache = λ i. record {
      match_bits = 1;
      mask = 0;
      rv32 = illegal_instruction;
      rv64 = illegal_instruction;
    };
  }
