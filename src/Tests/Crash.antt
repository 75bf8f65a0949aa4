-- ===== src/Tests/Crash.antt =====
-- Runs of the crash handler: a marker line, and a set-up that the system refuses.
use scratch_compositor.Base.{
  ◌<◌, true, false, not, ◌==◌, [], ◌∷◌, ◌++◌, none, some, ◌≡◌, refl, length, arith,
}
use scratch_compositor.Base.Text.{Bytes, codes}
use scratch_compositor.CrashHandler.{
  CrashHandler, Answers, crash_marker, stackcomp_crash_handler_install, install_opened,
  install_memory, install_stack, or_fini, stackcomp_crash_handler_fini, close_log, free_stack,
  happens, install_signals, opened, closed, allocated, freed, stack_set, stack_disabled, hooked,
  append_str, append_bytes, append_u64, append_hex_u64, append_address, low_digits, append_digits,
}
use scratch_compositor.CrashHandler.Marker.{IsAddress, ShowsProcess, ShowsAddress, crash_marker_lem}
use scratch_compositor.CrashHandler.Install.{
  IsSettled, IsIdle, in_use, held, stackcomp_crash_handler_install-IsSettled,
}

-- The line for a segmentation fault.
fault_line :
    crash_marker 11 4242 (some 48879) ≡ codes "stackcomp fatal signal 11 pid=4242 addr=0xbeef\n"
unfolding crash_marker append_str append_bytes append_u64 append_hex_u64 append_address low_digits
    append_digits
fault_line = refl

crash_marker_example :
    (process : Bytes) × (address : Bytes) × (crash_marker 11 4242 (some 48879)
      ≡ (process ++ address) ++ (10 ∷ []))
    × ShowsProcess 11 4242 process
    × ShowsAddress (some 48879) address
    × (length (crash_marker 11 4242 (some 48879)) < 256)
unfolding IsAddress
crash_marker_example =
    crash_marker_lem 11 4242 (some 48879) (omega arith) (omega arith) (omega arith)

-- Before the set-up.
abbrev idle : CrashHandler
idle = record {
  crash_log_fd = none;
  ss_sp = none;
  ss_size = 0;
  crash_handling = false;
  events = [];
}

-- A system that refuses the handler of SIGABRT.
abbrev refusing : Answers
refusing = record {
  open_fd = λ path. some 3;
  new_stack = some 4096;
  stack_accepted = true;
  signal_accepted = λ n. not (n == 6);
  stack_size = 8192;
}

idle-IsIdle : IsIdle idle
unfolding in_use held
idle-IsIdle = record {
  owned = record { files = refl; memory = refl };
  no_file = refl;
  no_stack = refl;
}

-- The refused set-up closes its file and frees its stack.
refused_run :
    (stackcomp_crash_handler_install refusing (codes "/tmp/log") idle).0.events
    ≡ opened 3
      ∷ allocated 4096
      ∷ stack_set 4096
      ∷ hooked 11
      ∷ closed 3
      ∷ stack_disabled
      ∷ freed 4096
      ∷ []
unfolding stackcomp_crash_handler_install install_opened install_memory install_stack or_fini
    stackcomp_crash_handler_fini close_log free_stack happens install_signals
refused_run = refl

stackcomp_crash_handler_install_example :
    IsSettled (stackcomp_crash_handler_install refusing (codes "/tmp/log") idle)
stackcomp_crash_handler_install_example =
    stackcomp_crash_handler_install-IsSettled refusing (codes "/tmp/log") idle idle-IsIdle
