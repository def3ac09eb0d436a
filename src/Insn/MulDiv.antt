-- ===== src/Insn/MulDiv.antt =====
-- Multiplication and division: riscv-isa-sim/riscv/insns/.
use cmpe220fall.Base.{ℕ, ◌/◌, ◌%◌, ◌&&◌, ◌==◌, if◌then◌else◌, xor as bool_xor}
use cmpe220fall.Base.Word.{mul64, neg64, shr64, sra64, is_neg, u32, uint64_max, int64_min}
use cmpe220fall.Machine.{Action, ◌>>=◌, ◌>>◌}
use cmpe220fall.Insn.Context.{
  Context, sext32, zext32, sext_xlen, zext_xlen, get_rs1, get_rs2, write_rd, require_rv64,
  require_extension, ext_m,
}
use cmpe220fall.Mulhi
use cmpe220fall.Mulhi.{magnitude}

-- `/` and `%` of C on `sreg_t`: the quotient is rounded towards zero, and the remainder has the
-- sign of the dividend.
unfoldable pub sdiv64 : ℕ → ℕ → ℕ
unfolding bool_xor magnitude
sdiv64 a b =
    let q = magnitude a / magnitude b in if bool_xor (is_neg a) (is_neg b) then neg64 q else q

unfoldable pub srem64 : ℕ → ℕ → ℕ
unfolding magnitude
srem64 a b = let r = magnitude a % magnitude b in if is_neg a then neg64 r else r

-- The values that the four divisions write, on operands of the width.
unfoldable pub div_value : ℕ → ℕ → ℕ → ℕ
div_value xlen lhs rhs =
    if rhs == 0
    then uint64_max
    else if lhs == int64_min && rhs == uint64_max
    then lhs
    else sext_xlen xlen (sdiv64 lhs rhs)

unfoldable pub rem_value : ℕ → ℕ → ℕ → ℕ
rem_value xlen lhs rhs =
    if rhs == 0
    then lhs
    else if lhs == int64_min && rhs == uint64_max
    then 0
    else sext_xlen xlen (srem64 lhs rhs)

module _ (c : Context) where
  unfoldable pub mul : Action (Unit {0})
  mul = do
    require_extension ext_m
    write_rd c (sext_xlen c.xlen (mul64 (← get_rs1 c) (← get_rs2 c)))

  unfoldable pub mulh : Action (Unit {0})
  mulh = do
    require_extension ext_m
    a ← get_rs1 c
    b ← get_rs2 c
    write_rd c
        (if c.xlen == 64 then Mulhi.mulh a b else sext32 (sra64 (mul64 (sext32 a) (sext32 b)) 32))

  unfoldable pub mulhsu : Action (Unit {0})
  mulhsu = do
    require_extension ext_m
    a ← get_rs1 c
    b ← get_rs2 c
    write_rd c
        (if c.xlen == 64 then Mulhi.mulhsu a b else sext32 (shr64 (mul64 (sext32 a) (u32 b)) 32))

  unfoldable pub mulhu : Action (Unit {0})
  mulhu = do
    require_extension ext_m
    a ← get_rs1 c
    b ← get_rs2 c
    write_rd c (if c.xlen == 64 then Mulhi.mulhu a b else sext32 (shr64 (mul64 (u32 a) (u32 b)) 32))

  unfoldable pub mulw : Action (Unit {0})
  mulw = do
    require_extension ext_m
    require_rv64 c
    write_rd c (sext32 (mul64 (← get_rs1 c) (← get_rs2 c)))

  unfoldable pub div : Action (Unit {0})
  div = do
    require_extension ext_m
    a ← get_rs1 c
    b ← get_rs2 c
    let lhs = sext_xlen c.xlen a
    let rhs = sext_xlen c.xlen b
    write_rd c (div_value c.xlen lhs rhs)

  unfoldable pub divu : Action (Unit {0})
  divu = do
    require_extension ext_m
    a ← get_rs1 c
    b ← get_rs2 c
    let lhs = zext_xlen c.xlen a
    let rhs = zext_xlen c.xlen b
    write_rd c (if rhs == 0 then uint64_max else sext_xlen c.xlen (lhs / rhs))

  unfoldable pub divw : Action (Unit {0})
  divw = do
    require_extension ext_m
    require_rv64 c
    a ← get_rs1 c
    b ← get_rs2 c
    let lhs = sext32 a
    let rhs = sext32 b
    write_rd c (if rhs == 0 then uint64_max else sext32 (sdiv64 lhs rhs))

  unfoldable pub divuw : Action (Unit {0})
  divuw = do
    require_extension ext_m
    require_rv64 c
    a ← get_rs1 c
    b ← get_rs2 c
    let lhs = zext32 a
    let rhs = zext32 b
    write_rd c (if rhs == 0 then uint64_max else sext32 (lhs / rhs))

  unfoldable pub rem : Action (Unit {0})
  rem = do
    require_extension ext_m
    a ← get_rs1 c
    b ← get_rs2 c
    let lhs = sext_xlen c.xlen a
    let rhs = sext_xlen c.xlen b
    write_rd c (rem_value c.xlen lhs rhs)

  unfoldable pub remu : Action (Unit {0})
  remu = do
    require_extension ext_m
    a ← get_rs1 c
    b ← get_rs2 c
    let lhs = zext_xlen c.xlen a
    let rhs = zext_xlen c.xlen b
    write_rd c (if rhs == 0 then sext_xlen c.xlen a else sext_xlen c.xlen (lhs % rhs))

  unfoldable pub remw : Action (Unit {0})
  remw = do
    require_extension ext_m
    require_rv64 c
    a ← get_rs1 c
    b ← get_rs2 c
    let lhs = sext32 a
    let rhs = sext32 b
    write_rd c (if rhs == 0 then lhs else sext32 (srem64 lhs rhs))

  unfoldable pub remuw : Action (Unit {0})
  remuw = do
    require_extension ext_m
    require_rv64 c
    a ← get_rs1 c
    b ← get_rs2 c
    let lhs = zext32 a
    let rhs = zext32 b
    write_rd c (if rhs == 0 then sext32 lhs else sext32 (lhs % rhs))
