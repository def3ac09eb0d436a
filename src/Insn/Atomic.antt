-- ===== src/Insn/Atomic.antt =====
-- Atomic memory operations, and the reservation of load-reserved: riscv-isa-sim/riscv/insns/.
use cmpe220fall.Base.{bit_and, bit_or, bit_xor, ltb, ◌==◌, if◌then◌else◌}
use cmpe220fall.Base.Word.{add64, slt64, u32}
use cmpe220fall.Machine.{Action, Bus, ◌>>=◌, ◌>>◌, gets_state, modify_state}
use cmpe220fall.Insn.Context.{
  Context, sext32, get_rs1, get_rs2, write_rd, require_rv64, require_extension, ext_a,
}
use cmpe220fall.Mmu.Access.{load_uint, load_int, store_uint}

module _ (bus : Bus) (c : Context) where
  unfoldable pub amoadd_w : Action (Unit {0})
  amoadd_w = do
    require_extension ext_a
    addr ← get_rs1 c
    b ← get_rs2 c
    v ← load_int bus 4 addr
    store_uint bus 4 addr (add64 b v)
    write_rd c v

  unfoldable pub amoadd_d : Action (Unit {0})
  amoadd_d = do
    require_extension ext_a
    require_rv64 c
    addr ← get_rs1 c
    b ← get_rs2 c
    v ← load_uint bus 8 addr
    store_uint bus 8 addr (add64 b v)
    write_rd c v

  unfoldable pub amoand_w : Action (Unit {0})
  amoand_w = do
    require_extension ext_a
    addr ← get_rs1 c
    b ← get_rs2 c
    v ← load_int bus 4 addr
    store_uint bus 4 addr (bit_and b v)
    write_rd c v

  unfoldable pub amoand_d : Action (Unit {0})
  amoand_d = do
    require_extension ext_a
    require_rv64 c
    addr ← get_rs1 c
    b ← get_rs2 c
    v ← load_uint bus 8 addr
    store_uint bus 8 addr (bit_and b v)
    write_rd c v

  unfoldable pub amoor_w : Action (Unit {0})
  amoor_w = do
    require_extension ext_a
    addr ← get_rs1 c
    b ← get_rs2 c
    v ← load_int bus 4 addr
    store_uint bus 4 addr (bit_or b v)
    write_rd c v

  unfoldable pub amoor_d : Action (Unit {0})
  amoor_d = do
    require_extension ext_a
    require_rv64 c
    addr ← get_rs1 c
    b ← get_rs2 c
    v ← load_uint bus 8 addr
    store_uint bus 8 addr (bit_or b v)
    write_rd c v

  unfoldable pub amoxor_w : Action (Unit {0})
  amoxor_w = do
    require_extension ext_a
    addr ← get_rs1 c
    b ← get_rs2 c
    v ← load_int bus 4 addr
    store_uint bus 4 addr (bit_xor b v)
    write_rd c v

  unfoldable pub amoxor_d : Action (Unit {0})
  amoxor_d = do
    require_extension ext_a
    require_rv64 c
    addr ← get_rs1 c
    b ← get_rs2 c
    v ← load_uint bus 8 addr
    store_uint bus 8 addr (bit_xor b v)
    write_rd c v

  unfoldable pub amoswap_w : Action (Unit {0})
  amoswap_w = do
    require_extension ext_a
    addr ← get_rs1 c
    b ← get_rs2 c
    v ← load_int bus 4 addr
    store_uint bus 4 addr (b)
    write_rd c v

  unfoldable pub amoswap_d : Action (Unit {0})
  amoswap_d = do
    require_extension ext_a
    require_rv64 c
    addr ← get_rs1 c
    b ← get_rs2 c
    v ← load_uint bus 8 addr
    store_uint bus 8 addr (b)
    write_rd c v

  unfoldable pub amomax_w : Action (Unit {0})
  amomax_w = do
    require_extension ext_a
    addr ← get_rs1 c
    b ← get_rs2 c
    v ← load_int bus 4 addr
    store_uint bus 4 addr (if slt64 (sext32 b) v then v else sext32 b)
    write_rd c v

  unfoldable pub amomax_d : Action (Unit {0})
  amomax_d = do
    require_extension ext_a
    require_rv64 c
    addr ← get_rs1 c
    b ← get_rs2 c
    v ← load_int bus 8 addr
    store_uint bus 8 addr (if slt64 b v then v else b)
    write_rd c v

  unfoldable pub amomaxu_w : Action (Unit {0})
  amomaxu_w = do
    require_extension ext_a
    addr ← get_rs1 c
    b ← get_rs2 c
    v ← load_int bus 4 addr
    store_uint bus 4 addr (if ltb (u32 b) (u32 v) then u32 v else u32 b)
    write_rd c (sext32 (u32 v))

  unfoldable pub amomaxu_d : Action (Unit {0})
  amomaxu_d = do
    require_extension ext_a
    require_rv64 c
    addr ← get_rs1 c
    b ← get_rs2 c
    v ← load_uint bus 8 addr
    store_uint bus 8 addr (if ltb b v then v else b)
    write_rd c v

  unfoldable pub amomin_w : Action (Unit {0})
  amomin_w = do
    require_extension ext_a
    addr ← get_rs1 c
    b ← get_rs2 c
    v ← load_int bus 4 addr
    store_uint bus 4 addr (if slt64 v (sext32 b) then v else sext32 b)
    write_rd c v

  unfoldable pub amomin_d : Action (Unit {0})
  amomin_d = do
    require_extension ext_a
    require_rv64 c
    addr ← get_rs1 c
    b ← get_rs2 c
    v ← load_int bus 8 addr
    store_uint bus 8 addr (if slt64 v b then v else b)
    write_rd c v

  unfoldable pub amominu_w : Action (Unit {0})
  amominu_w = do
    require_extension ext_a
    addr ← get_rs1 c
    b ← get_rs2 c
    v ← load_int bus 4 addr
    store_uint bus 4 addr (if ltb (u32 v) (u32 b) then u32 v else u32 b)
    write_rd c (sext32 (u32 v))

  unfoldable pub amominu_d : Action (Unit {0})
  amominu_d = do
    require_extension ext_a
    require_rv64 c
    addr ← get_rs1 c
    b ← get_rs2 c
    v ← load_uint bus 8 addr
    store_uint bus 8 addr (if ltb v b then v else b)
    write_rd c v

  unfoldable pub lr_w : Action (Unit {0})
  lr_w = do
    require_extension ext_a
    addr ← get_rs1 c
    modify_state (λ s. record s { load_reservation = addr })
    write_rd c (← load_int bus 4 addr)

  unfoldable pub sc_w : Action (Unit {0})
  sc_w = do
    require_extension ext_a
    addr ← get_rs1 c
    b ← get_rs2 c
    reserved ← gets_state (λ s. s.load_reservation)
    if addr == reserved then (store_uint bus 4 addr b >> write_rd c 0) else write_rd c 1

  unfoldable pub lr_d : Action (Unit {0})
  lr_d = do
    require_extension ext_a
    require_rv64 c
    addr ← get_rs1 c
    modify_state (λ s. record s { load_reservation = addr })
    write_rd c (← load_int bus 8 addr)

  unfoldable pub sc_d : Action (Unit {0})
  sc_d = do
    require_extension ext_a
    require_rv64 c
    addr ← get_rs1 c
    b ← get_rs2 c
    reserved ← gets_state (λ s. s.load_reservation)
    if addr == reserved then (store_uint bus 8 addr b >> write_rd c 0) else write_rd c 1
