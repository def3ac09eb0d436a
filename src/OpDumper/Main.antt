-- ===== src/OpDumper/Main.antt =====
-- The two loops of main: op_dumper/main.cpp. They run on fuel; `none` is fuel that ran out.
use cmpe220fall.Base.{ℕ, zero, suc, Bool, true, false, List, [], ◌∷◌, Option, none, some}
use cmpe220fall.OpDumper.Outcome.{Outcome, ok, ◌>>=◌, Unspecified}
use cmpe220fall.OpDumper.Operation.{Operation}
use cmpe220fall.OpDumper.Trace.{Dumper, add, get}
use cmpe220fall.OpDumper.Trace
use cmpe220fall.OpDumper.Sync.{Memsync, get_next}
use cmpe220fall.OpDumper.Sync

-- `while(syncer.hasNext()) { op = syncer.getNext(); dumper.add(op); }`
unfoldable pub write_loop : Unspecified → ℕ → Memsync → Dumper → Outcome (Option Dumper)
write_loop u zero m d = ok none
write_loop u (suc fuel) m d = elim (Sync.has_next m) [
  | false ↦ ok (some d)
  | true ↦ do (op, m') ← get_next m; d' ← add u op d; write_loop u fuel m' d'
]

abbrev pub prepend : {A : Type 0} → A → Option (List A) → Option (List A)
prepend x none = none
prepend x (some xs) = some (x ∷ xs)

abbrev pub branch : {A : Type 0} → Bool → A → A → A
branch true a b = a
branch false a b = b

-- `while(dumper.hasNext()) { op = dumper.get(); ... }`: the operations that are printed.
unfoldable pub read_loop : Unspecified → ℕ → Dumper → Outcome (Option (List Operation))
read_loop u zero d = ok none
read_loop u (suc fuel) d = do
  (more, d') ← Trace.has_next d
  let rest = do (op, d'') ← get u d'; ops ← read_loop u fuel d''; ok (prepend op ops)
  branch more rest (ok (some []))
