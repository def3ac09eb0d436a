-- ===== src/OpDumper/Closed.antt =====
-- A dumper after `close`: op_dumper/dumper.cpp.
use cmpe220fall.Base.{ℕ, List, [], some, ◌≡◌, false, refl, Bool-cases, inl, inr}
use cmpe220fall.OpDumper.Outcome.{
  ok, exited, Unspecified, error_dumper_mode_invalid, error_dumper_file_invalid,
}
use cmpe220fall.OpDumper.Operation.{Operation}
use cmpe220fall.OpDumper.Trace.{
  Disk, Dumper, mode_read, mode_uninit, add, get, has_next, close, open_to_read, open_file,
  file_open, check_mode, check_file_state,
}
use cmpe220fall.OpDumper.RoundTrip.{reading}

-- The file of a closed dumper.
close-is_open : (d : Dumper) → (close d).file.is_open ≡ false
unfolding close
close-is_open d = elim (Bool-cases d.file.is_open) [ inl e ↦ rw e refl | inr e ↦ rw e refl ]

closed_mode : (d : Dumper) → (close d).mode ≡ mode_uninit
unfolding close
closed_mode d = refl

-- After a close, whatever the dumper was, adding and getting exit with ERROR_DumperModeInvalid, and
-- asking for more exits with ERROR_DumperFileInvalid; and if the file system then opens a file for
-- reading, the dumper reads its bytes from the first one on.
pub close_lem :
    (u : Unspecified) (disk : Disk) (name bytes : List ℕ) (op : Operation) (d : Dumper)
    → disk name mode_read ≡ some bytes
    → (add u op (close d) ≡ exited error_dumper_mode_invalid)
      × (get u (close d) ≡ exited error_dumper_mode_invalid)
      × (has_next (close d) ≡ exited error_dumper_file_invalid)
      × (open_to_read disk name (close d) ≡ ok (reading [] bytes))
unfolding add get has_next open_to_read open_file file_open check_mode check_file_state
close_lem u disk name bytes op d e =
    let shut = close-is_open d in
    let mode : (close d).mode ≡ mode_uninit = closed_mode d in
    (rw mode, rw mode, rw shut, rw (shut, e))
