-- ===== src/Insn/WideRegs.antt =====
-- Loads whose width the register can hold only as far as the bus keeps to it, the 64-bit atomic
-- operations and the reservation keep the register file.
use cmpe220fall.Base.{ℕ, refl, ◌*◌, ◌^◌, ◌<◌, arith}
use cmpe220fall.Base.Word.{sext}
use cmpe220fall.Machine.{
  Action, Bus, Outcome, ret, throw, early, aborted, gets_state, modify_state, ◌>>=◌,
}
use cmpe220fall.Machine.Keeps.{Keeps, Returns, Keeps-bind, Keeps-pure}
use cmpe220fall.Mmu.Access.{load_bytes, load_uint, load_int}
use cmpe220fall.Insn.Context.{Context}
use cmpe220fall.Insn.LoadStore
use cmpe220fall.Insn.Atomic
use cmpe220fall.Insn.Canonical.{IsCanonical, small-IsCanonical}
use cmpe220fall.Insn.Rules.{
  modify-KeepsRegs, gets-bind-Keeps, same_regs, word-IsCanonical, wide-bind-Keeps, if-KeepsRegs,
  require_rv64-bind-Keeps, narrow-IsCanonical,
}
use cmpe220fall.Insn.Registers.{IsContext, IsRegfile, KeepsRegs, regs_rules}
use cmpe220fall.Insn.MemoryRegs.{RegsBus, load_bytes-KeepsRegs, word-Keeps, store_uint-Keeps}

module _ (bus : Bus) (b : RegsBus bus) (c : Context) (k : IsContext c) where
  weaken : (Q R : ℕ → Type 0) (r : Outcome ℕ) → ((v : ℕ) → Q v → R v) → Returns Q r → Returns R r
  weaken Q R (ret v) f q = f v q
  weaken Q R (throw t) f q = tt
  weaken Q R (early n) f q = tt
  weaken Q R aborted f q = tt

  load_uint-Keeps :
      (R : ℕ → Type 0) (len addr : ℕ)
      → ((v : ℕ) → v < 2 ^ (8 * len) → R v)
      → Keeps (IsRegfile c.xlen) R (load_uint bus len addr)
  unfolding load_uint
  load_uint-Keeps R len addr f = record {
    at = λ h p.
        let r = (load_bytes-KeepsRegs bus b c k len addr).at h p in
        (r.0, weaken (λ v. v < 2 ^ (8 * len)) R (load_bytes bus len addr h).0 f r.1);
  }

  byte_unsigned-Keeps :
      (addr : ℕ) → Keeps (IsRegfile c.xlen) (IsCanonical c.xlen) (load_uint bus 1 addr)
  byte_unsigned-Keeps addr =
      load_uint-Keeps (IsCanonical c.xlen) 1 addr
        λ v h. small-IsCanonical c.xlen v k.width (omega arith)

  half_unsigned-Keeps :
      (addr : ℕ) → Keeps (IsRegfile c.xlen) (IsCanonical c.xlen) (load_uint bus 2 addr)
  half_unsigned-Keeps addr =
      load_uint-Keeps (IsCanonical c.xlen) 2 addr
        λ v h. small-IsCanonical c.xlen v k.width (omega arith)

  pub word_unsigned-Keeps :
      (addr : ℕ) → Keeps (IsRegfile c.xlen) (IsCanonical 64) (load_uint bus 4 addr)
  word_unsigned-Keeps addr =
      load_uint-Keeps (IsCanonical 64) 4 addr λ v h. word-IsCanonical v (omega arith)

  double_unsigned-Keeps :
      (addr : ℕ) → Keeps (IsRegfile c.xlen) (IsCanonical 64) (load_uint bus 8 addr)
  double_unsigned-Keeps addr =
      load_uint-Keeps (IsCanonical 64) 8 addr λ v h. word-IsCanonical v (omega arith)

  pub double-Keeps : (addr : ℕ) → Keeps (IsRegfile c.xlen) (IsCanonical 64) (load_int bus 8 addr)
  unfolding load_int
  double-Keeps addr =
      Keeps-bind (λ v. v < 2 ^ (8 * 8)) (IsCanonical 64) (load_bytes bus 8 addr) _
        (load_bytes-KeepsRegs bus b c k 8 addr)
        λ v _. Keeps-pure (IsCanonical 64) _ (word-IsCanonical (sext 64 v) (ground arith))

  reserve-Keeps :
      (addr : ℕ) → KeepsRegs c.xlen (modify_state (λ s. record s { load_reservation = addr }))
  reserve-Keeps addr = modify-KeepsRegs c.xlen _ λ h. same_regs refl refl refl refl

  reservation-Keeps :
      (f : ℕ → Action (Unit {0}))
      → ((a : ℕ) → KeepsRegs c.xlen (f a))
      → KeepsRegs c.xlen (gets_state (λ s. s.load_reservation) >>= f)
  reservation-Keeps f h = gets-bind-Keeps c.xlen _ f h

  success-IsCanonical : IsCanonical c.xlen 0
  success-IsCanonical = small-IsCanonical c.xlen 0 k.width (omega arith)

  failure-IsCanonical : IsCanonical c.xlen 1
  failure-IsCanonical = small-IsCanonical c.xlen 1 k.width (omega arith)

  ruleset wide_rules = (
    regs_rules, byte_unsigned-Keeps, half_unsigned-Keeps, word_unsigned-Keeps,
    double_unsigned-Keeps, double-Keeps, word-Keeps, store_uint-Keeps, wide-bind-Keeps,
    if-KeepsRegs, require_rv64-bind-Keeps, narrow-IsCanonical, reserve-Keeps, reservation-Keeps,
    success-IsCanonical, failure-IsCanonical,
  )

  pub lbu-KeepsRegs : KeepsRegs c.xlen (LoadStore.lbu bus c)
  unfolding LoadStore.lbu
  lbu-KeepsRegs = search wide_rules depth 14

  pub lhu-KeepsRegs : KeepsRegs c.xlen (LoadStore.lhu bus c)
  unfolding LoadStore.lhu
  lhu-KeepsRegs = search wide_rules depth 14

  pub lwu-KeepsRegs : KeepsRegs c.xlen (LoadStore.lwu bus c)
  unfolding LoadStore.lwu
  lwu-KeepsRegs = search wide_rules depth 14

  pub ld-KeepsRegs : KeepsRegs c.xlen (LoadStore.ld bus c)
  unfolding LoadStore.ld
  ld-KeepsRegs = search wide_rules depth 14

  pub amoadd_d-KeepsRegs : KeepsRegs c.xlen (Atomic.amoadd_d bus c)
  unfolding Atomic.amoadd_d
  amoadd_d-KeepsRegs = search wide_rules depth 14

  pub amoand_d-KeepsRegs : KeepsRegs c.xlen (Atomic.amoand_d bus c)
  unfolding Atomic.amoand_d
  amoand_d-KeepsRegs = search wide_rules depth 14

  pub amoor_d-KeepsRegs : KeepsRegs c.xlen (Atomic.amoor_d bus c)
  unfolding Atomic.amoor_d
  amoor_d-KeepsRegs = search wide_rules depth 14

  pub amoxor_d-KeepsRegs : KeepsRegs c.xlen (Atomic.amoxor_d bus c)
  unfolding Atomic.amoxor_d
  amoxor_d-KeepsRegs = search wide_rules depth 14

  pub amoswap_d-KeepsRegs : KeepsRegs c.xlen (Atomic.amoswap_d bus c)
  unfolding Atomic.amoswap_d
  amoswap_d-KeepsRegs = search wide_rules depth 14

  pub amomax_d-KeepsRegs : KeepsRegs c.xlen (Atomic.amomax_d bus c)
  unfolding Atomic.amomax_d
  amomax_d-KeepsRegs = search wide_rules depth 14

  pub amomaxu_d-KeepsRegs : KeepsRegs c.xlen (Atomic.amomaxu_d bus c)
  unfolding Atomic.amomaxu_d
  amomaxu_d-KeepsRegs = search wide_rules depth 14

  pub amomin_d-KeepsRegs : KeepsRegs c.xlen (Atomic.amomin_d bus c)
  unfolding Atomic.amomin_d
  amomin_d-KeepsRegs = search wide_rules depth 14

  pub amominu_d-KeepsRegs : KeepsRegs c.xlen (Atomic.amominu_d bus c)
  unfolding Atomic.amominu_d
  amominu_d-KeepsRegs = search wide_rules depth 14

  pub lr_w-KeepsRegs : KeepsRegs c.xlen (Atomic.lr_w bus c)
  unfolding Atomic.lr_w
  lr_w-KeepsRegs = search wide_rules depth 14

  pub lr_d-KeepsRegs : KeepsRegs c.xlen (Atomic.lr_d bus c)
  unfolding Atomic.lr_d
  lr_d-KeepsRegs = search wide_rules depth 14

  pub sc_w-KeepsRegs : KeepsRegs c.xlen (Atomic.sc_w bus c)
  unfolding Atomic.sc_w
  sc_w-KeepsRegs = search wide_rules depth 14

  pub sc_d-KeepsRegs : KeepsRegs c.xlen (Atomic.sc_d bus c)
  unfolding Atomic.sc_d
  sc_d-KeepsRegs = search wide_rules depth 14
