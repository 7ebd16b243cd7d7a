-- ===== src/ChildProcess/Examples.antt =====
-- Ends of child processes, on concrete inputs (crates/dv-core/src/child_process.rs).
use dv.Common.{◌≡◌, ◌≢◌, ◌↔◌, refl, none, some}
use dv.ChildProcess.{
  pos, preserve, ExitStatus, process_exit_code, classify_child_termination, exit_code_zero_iff,
}

-- killed by signal 9
abbrev killed : ExitStatus
killed = record { code = none; raw_signal = some (pos 9) }

failed : process_exit_code preserve (classify_child_termination killed) (pos 1) ≡ pos 1
unfolding process_exit_code classify_child_termination
failed = refl

one_not_zero : pos 1 ≢ pos 0
one_not_zero e = cc

exit_code_zero_iff_example :
    (process_exit_code preserve (classify_child_termination killed) (pos 1) ≡ pos 0)
    ↔ (killed.code ≡ some (pos 0))
exit_code_zero_iff_example = exit_code_zero_iff preserve killed (pos 1) one_not_zero
