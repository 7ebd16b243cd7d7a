-- ===== src/ChildProcess.antt =====
-- crates/dv-core/src/child_process.rs: how a child's end becomes the code of the command.
mod Examples
use dv.Common.{
  ℕ, ◌≤◌, ◌<◌, ◌≡◌, refl, ◌≢◌, sym, ap, ◌∙◌, Option, none, some, ◌↔◌, zero, suc, ◌⊎◌, inl, inr,
  Bool, true, false, leb, if◌then◌else◌, arith,
}

pub data ℤ : Type 0 where
  pos : ℕ → ℤ
  negsuc : ℕ → ℤ

pub data ChildExitPolicy : Type 0 where
  preserve : ChildExitPolicy
  map_to_command_failure : ChildExitPolicy

pub data ChildTermination : Type 0 where
  exited : ℤ → ChildTermination
  signalled : ℕ → ChildTermination
  unknown : ChildTermination

-- `process_exit_code`
unfoldable pub process_exit_code : ChildExitPolicy → ChildTermination → ℤ → ℤ
process_exit_code policy (exited (pos zero)) command_failure = pos 0
process_exit_code preserve (exited code) command_failure = code
process_exit_code policy termination command_failure = command_failure

abbrev pub exit_code : ChildTermination → Option ℤ
exit_code (exited code) = some code
exit_code t = none

abbrev pub signal : ChildTermination → Option ℕ
signal (signalled n) = some n
signal t = none

-- What the platform tells of a child: `ExitStatus::code` and `ExitStatusExt::signal`.
pub record ExitStatus : Type 0 where
  pub code : Option ℤ
  pub raw_signal : Option ℤ

-- `u8::try_from`
abbrev to_u8 : ℤ → Option ℕ
to_u8 (pos n) = if leb n 255 then some n else none
to_u8 (negsuc n) = none

abbrev by_signal : Option ℕ → ChildTermination
by_signal (some n) = signalled n
by_signal none = unknown

abbrev small_signal : Option ℤ → Option ℕ
small_signal none = none
small_signal (some n) = to_u8 n

abbrev by_code : Option ℤ → Option ℤ → ChildTermination
by_code (some code) raw = exited code
by_code none raw = by_signal (small_signal raw)

-- `classify_child_termination` on Unix
unfoldable pub classify_child_termination : ExitStatus → ChildTermination
classify_child_termination status = by_code status.code status.raw_signal

process_exit_code-exited :
    (policy : ChildExitPolicy) (code command_failure : ℤ)
    → command_failure ≢ pos 0
    → process_exit_code policy (exited code) command_failure ≡ pos 0
    → code ≡ pos 0
unfolding process_exit_code
process_exit_code-exited policy (pos zero) c h e = refl
process_exit_code-exited preserve (pos (suc n)) c h e = e
process_exit_code-exited preserve (negsuc n) c h e = e
process_exit_code-exited map_to_command_failure (pos (suc n)) c h e = absurd (h e)
process_exit_code-exited map_to_command_failure (negsuc n) c h e = absurd (h e)

process_exit_code-other :
    (policy : ChildExitPolicy) (raw : Option ℕ) (command_failure : ℤ)
    → process_exit_code policy (by_signal raw) command_failure ≡ command_failure
unfolding process_exit_code
process_exit_code-other preserve none c = refl
process_exit_code-other preserve (some n) c = refl
process_exit_code-other map_to_command_failure none c = refl
process_exit_code-other map_to_command_failure (some n) c = refl

by_code_iff :
    (policy : ChildExitPolicy) (code raw : Option ℤ) (command_failure : ℤ)
    → command_failure ≢ pos 0
    → (process_exit_code policy (by_code code raw) command_failure ≡ pos 0) ↔ (code ≡ some (pos 0))
unfolding process_exit_code
by_code_iff policy none raw c h =
    (λ e. absurd (h (sym (process_exit_code-other policy (small_signal raw) c) ∙ e)), λ e. cc)
by_code_iff policy (some code) raw c h =
    (λ e. ap some (process_exit_code-exited policy code c h e), λ e. zero_given policy code c e)
  where
    zero_given :
        (policy : ChildExitPolicy) (code c : ℤ)
        → some code ≡ some (pos 0)
        → process_exit_code policy (exited code) c ≡ pos 0
    zero_given policy (pos zero) c e = refl
    zero_given policy (pos (suc n)) c e = cc
    zero_given policy (negsuc n) c e = cc

-- Where the command's failure code is not zero, the command's code is zero exactly if the platform
-- gave the child's code as zero, whatever the policy.
pub exit_code_zero_iff :
    (policy : ChildExitPolicy) (status : ExitStatus) (command_failure : ℤ)
    → command_failure ≢ pos 0
    → (process_exit_code policy (classify_child_termination status) command_failure ≡ pos 0)
      ↔ (status.code ≡ some (pos 0))
unfolding classify_child_termination
exit_code_zero_iff policy status command_failure h =
    by_code_iff policy status.code status.raw_signal command_failure h
