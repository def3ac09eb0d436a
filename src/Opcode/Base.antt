-- ===== src/Opcode/Base.antt =====
-- The decoder of a processor without an extension: `register_base_instructions` of
-- riscv-isa-sim/riscv/processor.cc.
use cmpe220fall.Base.{List, [], ◌∷◌, ◌++◌}
use cmpe220fall.Opcode.Table.{Desc}
use cmpe220fall.Opcode.Names.{InsnFunc, illegal_instruction}
use cmpe220fall.Opcode.EncodingsBase.{insns_1, insns_2}
use cmpe220fall.Opcode.EncodingsFloat.{insns_3, insns_4}
use cmpe220fall.Opcode.Decoder.{Decoder, build_opcode_map}

-- The last description fits every word.
abbrev pub catch_all : Desc InsnFunc
catch_all = record {
  match_bits = 0;
  mask = 0;
  rv32 = illegal_instruction;
  rv64 = illegal_instruction;
}

-- The instructions are listed in the order of encoding.h, not of insn_list.h: `build_opcode_map`
-- sorts them.
abbrev pub base_instructions : List (Desc InsnFunc)
base_instructions = insns_1 ++ insns_2 ++ insns_3 ++ insns_4 ++ catch_all ∷ []

unfoldable pub base_decoder : Decoder InsnFunc
unfolding build_opcode_map
base_decoder = build_opcode_map illegal_instruction base_instructions
