-- ===== src/Insn/MemoryRegs.antt =====
-- The instructions that access memory keep the register file, also when the access raises a trap.
use cmpe220fall.Base.{ℕ, ◌%◌, ◌^◌, ◌<◌, ◌*◌, ◌≡◌, arith, inl, inr, ◌⊎◌}
use cmpe220fall.Base.Word.{sext}
use cmpe220fall.Machine.{Bus}
use cmpe220fall.Machine.Keeps.{Keeps, Keeps-bind, Keeps-pure}
use cmpe220fall.Mmu.Access.{load_bytes, load_int, store_uint}
use cmpe220fall.Mmu.OnBus.{IsBus, load_bytes-Keeps, store_bytes-Keeps}
use cmpe220fall.Insn.Context.{Context}
use cmpe220fall.Insn.LoadStore
use cmpe220fall.Insn.Atomic
use cmpe220fall.Insn.Canonical.{IsWidth, IsCanonical, InRange-IsCanonical}
use cmpe220fall.Insn.Rules.{Untouched-IsRegfile}
use cmpe220fall.Insn.Registers.{IsContext, IsRegfile, KeepsRegs, regs_rules}

-- A signed number of 1, 2 or 4 bytes is in the form of either width.
abbrev pub IsNarrow : ℕ → Type 0
IsNarrow len = (len ≡ 1) ⊎ (len ≡ 2) ⊎ (len ≡ 4)

pub sext-IsCanonical :
    (xlen len v : ℕ) → IsWidth xlen → IsNarrow len → IsCanonical xlen (sext (8 * len) v)
sext-IsCanonical xlen len v w (inl e) =
    InRange-IsCanonical xlen _ w (rw e (ground arith, λ _. ground arith))
sext-IsCanonical xlen len v w (inr (inl e)) =
    InRange-IsCanonical xlen _ w (rw e (ground arith, λ _. ground arith))
sext-IsCanonical xlen len v w (inr (inr e)) =
    InRange-IsCanonical xlen _ w (rw e (ground arith, λ _. ground arith))

-- A bus whose devices keep well-formed register files and answer with as many bytes as were asked for.
abbrev pub RegsBus : Bus → Type 0
RegsBus bus = (xlen : ℕ) → IsBus (IsRegfile xlen) bus

module _ (bus : Bus) (b : RegsBus bus) (c : Context) (k : IsContext c) where
  pub load_bytes-KeepsRegs :
      (len addr : ℕ) → Keeps (IsRegfile c.xlen) (λ v. v < 2 ^ (8 * len)) (load_bytes bus len addr)
  load_bytes-KeepsRegs len addr =
      load_bytes-Keeps (IsRegfile c.xlen) (Untouched-IsRegfile c.xlen) bus (b c.xlen) len addr

  pub load_int-Keeps :
      (len addr : ℕ)
      → IsNarrow len
      → Keeps (IsRegfile c.xlen) (IsCanonical c.xlen) (load_int bus len addr)
  unfolding load_int
  load_int-Keeps len addr n =
      Keeps-bind (λ v. v < 2 ^ (8 * len)) (IsCanonical c.xlen) (load_bytes bus len addr) _
        (load_bytes-KeepsRegs len addr)
        λ v _. Keeps-pure (IsCanonical c.xlen) _ (sext-IsCanonical c.xlen len v k.width n)

  pub store_uint-Keeps : (len addr value : ℕ) → KeepsRegs c.xlen (store_uint bus len addr value)
  unfolding store_uint
  store_uint-Keeps len addr value =
      store_bytes-Keeps (IsRegfile c.xlen) (Untouched-IsRegfile c.xlen) bus (b c.xlen) len addr
        (value % 2 ^ (8 * len))

  pub byte-Keeps : (addr : ℕ) → Keeps (IsRegfile c.xlen) (IsCanonical c.xlen) (load_int bus 1 addr)
  byte-Keeps addr = load_int-Keeps 1 addr (omega arith)

  pub half-Keeps : (addr : ℕ) → Keeps (IsRegfile c.xlen) (IsCanonical c.xlen) (load_int bus 2 addr)
  half-Keeps addr = load_int-Keeps 2 addr (omega arith)

  pub word-Keeps : (addr : ℕ) → Keeps (IsRegfile c.xlen) (IsCanonical c.xlen) (load_int bus 4 addr)
  word-Keeps addr = load_int-Keeps 4 addr (omega arith)

  ruleset memory_rules = (regs_rules, byte-Keeps, half-Keeps, word-Keeps, store_uint-Keeps)

  pub lb-KeepsRegs : KeepsRegs c.xlen (LoadStore.lb bus c)
  unfolding LoadStore.lb
  lb-KeepsRegs = search memory_rules depth 9

  pub lh-KeepsRegs : KeepsRegs c.xlen (LoadStore.lh bus c)
  unfolding LoadStore.lh
  lh-KeepsRegs = search memory_rules depth 9

  pub lw-KeepsRegs : KeepsRegs c.xlen (LoadStore.lw bus c)
  unfolding LoadStore.lw
  lw-KeepsRegs = search memory_rules depth 9

  pub sb-KeepsRegs : KeepsRegs c.xlen (LoadStore.sb bus c)
  unfolding LoadStore.sb
  sb-KeepsRegs = search memory_rules depth 9

  pub sh-KeepsRegs : KeepsRegs c.xlen (LoadStore.sh bus c)
  unfolding LoadStore.sh
  sh-KeepsRegs = search memory_rules depth 9

  pub sw-KeepsRegs : KeepsRegs c.xlen (LoadStore.sw bus c)
  unfolding LoadStore.sw
  sw-KeepsRegs = search memory_rules depth 9

  pub sd-KeepsRegs : KeepsRegs c.xlen (LoadStore.sd bus c)
  unfolding LoadStore.sd
  sd-KeepsRegs = search memory_rules depth 9

  pub amoadd_w-KeepsRegs : KeepsRegs c.xlen (Atomic.amoadd_w bus c)
  unfolding Atomic.amoadd_w
  amoadd_w-KeepsRegs = search memory_rules depth 12

  pub amoand_w-KeepsRegs : KeepsRegs c.xlen (Atomic.amoand_w bus c)
  unfolding Atomic.amoand_w
  amoand_w-KeepsRegs = search memory_rules depth 12

  pub amoor_w-KeepsRegs : KeepsRegs c.xlen (Atomic.amoor_w bus c)
  unfolding Atomic.amoor_w
  amoor_w-KeepsRegs = search memory_rules depth 12

  pub amoxor_w-KeepsRegs : KeepsRegs c.xlen (Atomic.amoxor_w bus c)
  unfolding Atomic.amoxor_w
  amoxor_w-KeepsRegs = search memory_rules depth 12

  pub amoswap_w-KeepsRegs : KeepsRegs c.xlen (Atomic.amoswap_w bus c)
  unfolding Atomic.amoswap_w
  amoswap_w-KeepsRegs = search memory_rules depth 12

  pub amomax_w-KeepsRegs : KeepsRegs c.xlen (Atomic.amomax_w bus c)
  unfolding Atomic.amomax_w
  amomax_w-KeepsRegs = search memory_rules depth 12

  pub amomaxu_w-KeepsRegs : KeepsRegs c.xlen (Atomic.amomaxu_w bus c)
  unfolding Atomic.amomaxu_w
  amomaxu_w-KeepsRegs = search memory_rules depth 12

  pub amomin_w-KeepsRegs : KeepsRegs c.xlen (Atomic.amomin_w bus c)
  unfolding Atomic.amomin_w
  amomin_w-KeepsRegs = search memory_rules depth 12

  pub amominu_w-KeepsRegs : KeepsRegs c.xlen (Atomic.amominu_w bus c)
  unfolding Atomic.amominu_w
  amominu_w-KeepsRegs = search memory_rules depth 12
