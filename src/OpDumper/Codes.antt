-- ===== src/OpDumper/Codes.antt =====
-- Operation codes and operation numbers of a trace: op_dumper/operation_opcodes.hpp, and the maps
-- between them of op_dumper/operation_opcodes.cpp.
use cmpe220fall.Base.{ℕ, List, [], ◌∷◌}

-- Operation codes.
abbrev pub opcode_l08u : ℕ
opcode_l08u = 0x00

abbrev pub opcode_l08s : ℕ
opcode_l08s = 0x01

abbrev pub opcode_l16u : ℕ
opcode_l16u = 0x02

abbrev pub opcode_l16s : ℕ
opcode_l16s = 0x03

abbrev pub opcode_l32u : ℕ
opcode_l32u = 0x04

abbrev pub opcode_l32s : ℕ
opcode_l32s = 0x05

abbrev pub opcode_l64u : ℕ
opcode_l64u = 0x06

abbrev pub opcode_l128u : ℕ
opcode_l128u = 0x08

abbrev pub opcode_l256u : ℕ
opcode_l256u = 0x0a

abbrev pub opcode_l512u : ℕ
opcode_l512u = 0x0c

abbrev pub opcode_xl08u : ℕ
opcode_xl08u = 0x10

abbrev pub opcode_xl08s : ℕ
opcode_xl08s = 0x11

abbrev pub opcode_xl16u : ℕ
opcode_xl16u = 0x12

abbrev pub opcode_xl16s : ℕ
opcode_xl16s = 0x13

abbrev pub opcode_xl32u : ℕ
opcode_xl32u = 0x14

abbrev pub opcode_xl32s : ℕ
opcode_xl32s = 0x15

abbrev pub opcode_xl64u : ℕ
opcode_xl64u = 0x16

abbrev pub opcode_xl128u : ℕ
opcode_xl128u = 0x18

abbrev pub opcode_xl256u : ℕ
opcode_xl256u = 0x1a

abbrev pub opcode_xl512u : ℕ
opcode_xl512u = 0x1c

abbrev pub opcode_s08 : ℕ
opcode_s08 = 0x00

abbrev pub opcode_s16 : ℕ
opcode_s16 = 0x02

abbrev pub opcode_s32 : ℕ
opcode_s32 = 0x04

abbrev pub opcode_s64 : ℕ
opcode_s64 = 0x06

abbrev pub opcode_s128 : ℕ
opcode_s128 = 0x08

abbrev pub opcode_s256 : ℕ
opcode_s256 = 0x0a

abbrev pub opcode_s512 : ℕ
opcode_s512 = 0x0c

abbrev pub opcode_xs00 : ℕ
opcode_xs00 = 0xff

abbrev pub opcode_xs08 : ℕ
opcode_xs08 = 0x80

abbrev pub opcode_xs16 : ℕ
opcode_xs16 = 0x82

abbrev pub opcode_xs32 : ℕ
opcode_xs32 = 0x84

abbrev pub opcode_xs64 : ℕ
opcode_xs64 = 0x86

abbrev pub opcode_xs128 : ℕ
opcode_xs128 = 0x88

abbrev pub opcode_xs256 : ℕ
opcode_xs256 = 0x8a

abbrev pub opcode_xs512 : ℕ
opcode_xs512 = 0x8c

abbrev pub opcode_livecache : ℕ
opcode_livecache = 0x66

-- Operation numbers.
abbrev pub opnum_l08u : ℕ
opnum_l08u = 1

abbrev pub opnum_l08s : ℕ
opnum_l08s = 2

abbrev pub opnum_l16u : ℕ
opnum_l16u = 3

abbrev pub opnum_l16s : ℕ
opnum_l16s = 4

abbrev pub opnum_l32u : ℕ
opnum_l32u = 5

abbrev pub opnum_l32s : ℕ
opnum_l32s = 6

abbrev pub opnum_l64u : ℕ
opnum_l64u = 7

abbrev pub opnum_l128u : ℕ
opnum_l128u = 8

abbrev pub opnum_l256u : ℕ
opnum_l256u = 9

abbrev pub opnum_l512u : ℕ
opnum_l512u = 10

abbrev pub opnum_xl08u : ℕ
opnum_xl08u = 21

abbrev pub opnum_xl08s : ℕ
opnum_xl08s = 22

abbrev pub opnum_xl16u : ℕ
opnum_xl16u = 23

abbrev pub opnum_xl16s : ℕ
opnum_xl16s = 24

abbrev pub opnum_xl32u : ℕ
opnum_xl32u = 25

abbrev pub opnum_xl32s : ℕ
opnum_xl32s = 26

abbrev pub opnum_xl64u : ℕ
opnum_xl64u = 27

abbrev pub opnum_xl128u : ℕ
opnum_xl128u = 28

abbrev pub opnum_xl256u : ℕ
opnum_xl256u = 29

abbrev pub opnum_xl512u : ℕ
opnum_xl512u = 30

abbrev pub opnum_s08 : ℕ
opnum_s08 = 41

abbrev pub opnum_s16 : ℕ
opnum_s16 = 42

abbrev pub opnum_s32 : ℕ
opnum_s32 = 43

abbrev pub opnum_s64 : ℕ
opnum_s64 = 44

abbrev pub opnum_s128 : ℕ
opnum_s128 = 45

abbrev pub opnum_s256 : ℕ
opnum_s256 = 46

abbrev pub opnum_s512 : ℕ
opnum_s512 = 47

abbrev pub opnum_xs00 : ℕ
opnum_xs00 = 61

abbrev pub opnum_xs08 : ℕ
opnum_xs08 = 62

abbrev pub opnum_xs16 : ℕ
opnum_xs16 = 63

abbrev pub opnum_xs32 : ℕ
opnum_xs32 = 64

abbrev pub opnum_xs64 : ℕ
opnum_xs64 = 65

abbrev pub opnum_xs128 : ℕ
opnum_xs128 = 66

abbrev pub opnum_xs256 : ℕ
opnum_xs256 = 67

abbrev pub opnum_xs512 : ℕ
opnum_xs512 = 68

abbrev pub opnum_livecache : ℕ
opnum_livecache = 0

abbrev pub opcode_map : List (ℕ × ℕ)
opcode_map =
    (opnum_l08u, opcode_l08u)
    ∷ (opnum_l08s, opcode_l08s)
    ∷ (opnum_l16u, opcode_l16u)
    ∷ (opnum_l16s, opcode_l16s)
    ∷ (opnum_l32u, opcode_l32u)
    ∷ (opnum_l32s, opcode_l32s)
    ∷ (opnum_l64u, opcode_l64u)
    ∷ (opnum_l128u, opcode_l128u)
    ∷ (opnum_l256u, opcode_l256u)
    ∷ (opnum_l512u, opcode_l512u)
    ∷ (opnum_xl08u, opcode_xl08u)
    ∷ (opnum_xl08s, opcode_xl08s)
    ∷ (opnum_xl16u, opcode_xl16u)
    ∷ (opnum_xl16s, opcode_xl16s)
    ∷ (opnum_xl32u, opcode_xl32u)
    ∷ (opnum_xl32s, opcode_xl32s)
    ∷ (opnum_xl64u, opcode_xl64u)
    ∷ (opnum_xl128u, opcode_xl128u)
    ∷ (opnum_xl256u, opcode_xl256u)
    ∷ (opnum_xl512u, opcode_xl512u)
    ∷ (opnum_s08, opcode_s08)
    ∷ (opnum_s16, opcode_s16)
    ∷ (opnum_s32, opcode_s32)
    ∷ (opnum_s64, opcode_s64)
    ∷ (opnum_s128, opcode_s128)
    ∷ (opnum_s256, opcode_s256)
    ∷ (opnum_s512, opcode_s512)
    ∷ (opnum_xs00, opcode_xs00)
    ∷ (opnum_xs08, opcode_xs08)
    ∷ (opnum_xs16, opcode_xs16)
    ∷ (opnum_xs32, opcode_xs32)
    ∷ (opnum_xs64, opcode_xs64)
    ∷ (opnum_xs128, opcode_xs128)
    ∷ (opnum_xs256, opcode_xs256)
    ∷ (opnum_xs512, opcode_xs512)
    ∷ []

abbrev pub load_opnum_map : List (ℕ × ℕ)
load_opnum_map =
    (opcode_l08u, opnum_l08u)
    ∷ (opcode_l08s, opnum_l08s)
    ∷ (opcode_l16u, opnum_l16u)
    ∷ (opcode_l16s, opnum_l16s)
    ∷ (opcode_l32u, opnum_l32u)
    ∷ (opcode_l32s, opnum_l32s)
    ∷ (opcode_l64u, opnum_l64u)
    ∷ (opcode_l128u, opnum_l128u)
    ∷ (opcode_l256u, opnum_l256u)
    ∷ (opcode_l512u, opnum_l512u)
    ∷ (opcode_xl08u, opnum_xl08u)
    ∷ (opcode_xl08s, opnum_xl08s)
    ∷ (opcode_xl16u, opnum_xl16u)
    ∷ (opcode_xl16s, opnum_xl16s)
    ∷ (opcode_xl32u, opnum_xl32u)
    ∷ (opcode_xl32s, opnum_xl32s)
    ∷ (opcode_xl64u, opnum_xl64u)
    ∷ (opcode_xl128u, opnum_xl128u)
    ∷ (opcode_xl256u, opnum_xl256u)
    ∷ (opcode_xl512u, opnum_xl512u)
    ∷ []

abbrev pub store_opnum_map : List (ℕ × ℕ)
store_opnum_map =
    (opcode_s08, opnum_s08)
    ∷ (opcode_s16, opnum_s16)
    ∷ (opcode_s32, opnum_s32)
    ∷ (opcode_s64, opnum_s64)
    ∷ (opcode_s128, opnum_s128)
    ∷ (opcode_s256, opnum_s256)
    ∷ (opcode_s512, opnum_s512)
    ∷ (opcode_xs00, opnum_xs00)
    ∷ (opcode_xs08, opnum_xs08)
    ∷ (opcode_xs16, opnum_xs16)
    ∷ (opcode_xs32, opnum_xs32)
    ∷ (opcode_xs64, opnum_xs64)
    ∷ (opcode_xs128, opnum_xs128)
    ∷ (opcode_xs256, opnum_xs256)
    ∷ (opcode_xs512, opnum_xs512)
    ∷ []
