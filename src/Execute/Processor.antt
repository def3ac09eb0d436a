-- ===== src/Execute/Processor.antt =====
-- A processor while `step` runs: riscv-isa-sim/riscv/processor.h, and the instruction cache of
-- riscv-isa-sim/riscv/mmu.h with the functions that its entries keep.
use cmpe220fall.Base.{ℕ, Bool, Option, none, some, ◌==◌, if◌then◌else◌}
use cmpe220fall.Machine.{Hart, Outcome, ret, throw, early, aborted, Action}
use cmpe220fall.Mmu.Memory.{update}
use cmpe220fall.Mmu.Fetch.{refill_entry, icache_index}
use cmpe220fall.Opcode.Names.{InsnFunc}
use cmpe220fall.Opcode.Decoder.{Decoder, decode_insn}

-- `icache_func` holds the function of each entry of the instruction cache.
pub record Processor : Type 0 where
  pub hart : Hart
  pub decoder : Decoder InsnFunc
  pub icache_func : ℕ → InsnFunc
  pub debug : Bool
  pub run : Bool

-- The variables of `step`: the processor, and its locals `pc` and `instret`, which the handler of
-- exceptions reads.
pub record Loop : Type 0 where
  pub processor : Processor
  pub pc : ℕ
  pub instret : ℕ

abbrev pub Task : Type 0 → Type 0
Task A = Loop → Outcome A × Loop

abbrev pub pure : {A : Type 0} → A → Task A
pure a l = (ret a, l)

abbrev pub gets : {A : Type 0} → (Loop → A) → Task A
gets f l = (ret (f l), l)

abbrev pub modify : (Loop → Loop) → Task (Unit {0})
modify f l = (ret tt, f l)

abbrev pub modify_processor : (Processor → Processor) → Task (Unit {0})
modify_processor f = modify (λ l. record l { processor = f l.processor })

abbrev pub go_on : {A B : Type 0} → Outcome A → (A → Task B) → Task B
go_on (ret a) f l = f a l
go_on (throw t) f l = (throw t, l)
go_on (early n) f l = (early n, l)
go_on aborted f l = (aborted, l)

infixl 5 ◌>>=◌ ◌>>◌
abbrev pub ◌>>=◌ : {A B : Type 0} → Task A → (A → Task B) → Task B
◌>>=◌ m f l = let (r, l') = m l in go_on r f l'

abbrev pub ◌>>◌ : {A B : Type 0} → Task A → Task B → Task B
m >> k = m >>= λ _. k

abbrev pub with_hart : Loop → Hart → Loop
with_hart l h = record l { processor = record l.processor { hart = h } }

-- An action on the hart of the processor.
abbrev pub on_hart : {A : Type 0} → Action A → Task A
on_hart m l = let (r, h) = m l.processor.hart in (r, with_hart l h)

-- What a fetch delivers, `insn_fetch_t`: the function and the word.
abbrev pub InsnFetch : Type 0
InsnFetch = InsnFunc × ℕ

-- A search past the end of the list, which is undefined in the source, stops the program.
abbrev pub answered : Option (InsnFunc × Decoder InsnFunc) → Task InsnFunc
answered none l = (aborted, l)
answered (some (f, d)) l = (ret f, record l { processor = record l.processor { decoder = d } })

abbrev pub decode : ℕ → Task InsnFunc
decode insn l = answered (decode_insn l.processor.hart.xlen insn l.processor.decoder) l

unfoldable pub refill_icache : ℕ → ℕ → Task InsnFetch
unfolding refill_entry decode_insn update
refill_icache addr entry = do
  insn ← on_hart (refill_entry addr entry)
  func ← decode insn
  modify_processor (λ p. record p { icache_func = update p.icache_func entry func })
  pure (func, insn)

unfoldable pub entry_data : ℕ → Loop → InsnFetch
entry_data i l = (l.processor.icache_func i, l.processor.hart.mmu.icache_insn i)

unfoldable pub entry_tag : ℕ → Loop → ℕ
entry_tag i l = l.processor.hart.mmu.icache_tag i

unfoldable pub access_icache : ℕ → Task InsnFetch
unfolding refill_icache icache_index entry_data entry_tag
access_icache addr = do
  tag ← gets (entry_tag (icache_index addr))
  if tag == addr
      then gets (entry_data (icache_index addr))
      else refill_icache addr (icache_index addr)
