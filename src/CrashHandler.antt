-- ===== src/CrashHandler.antt =====
-- src/crash_handler.c: the marker line of a fatal signal, and the set-up of the handler. What the
-- source does through system calls is a list of events; their answers are parameters.
pub mod Digits
pub mod Marker
pub mod Install
use scratch_compositor.Base.{
  ℕ, zero, suc, ◌+◌, ◌*◌, ◌/◌, ◌%◌, Bool, true, false, not, List, [], ◌∷◌, ◌++◌, Option, none, some,
  ◌==◌, ltb, leb, length, if◌then◌else◌,
}
use scratch_compositor.Base.Text.{Bytes, codes}

-- The loop of `append_str`. The text is the first `*off` bytes of the buffer.
unfoldable pub append_bytes : ℕ → Bytes → Bytes → Bytes
append_bytes cap out [] = out
append_bytes cap out (c ∷ s) =
    if ltb (length out + 1) cap then append_bytes cap (out ++ (c ∷ [])) s else out

-- `append_str`
unfoldable pub append_str : ℕ → Bytes → Bytes → Bytes
unfolding append_bytes
append_str cap out s = if leb cap (length out) then out else append_bytes cap out s

-- The first loop of `append_u64` and of `append_hex_u64`: the digits in `tmp`, the lowest first.
unfoldable pub low_digits : (ℕ → ℕ) → ℕ → ℕ → ℕ → Bytes
low_digits char base zero v = []
low_digits char base (suc n) v =
    if v == 0 then [] else char (v % base) ∷ low_digits char base n (v / base)

-- The second loop, from the highest digit down.
unfoldable pub append_digits : ℕ → Bytes → Bytes → Bytes
append_digits cap out [] = out
append_digits cap out (c ∷ low) = append_str cap (append_digits cap out low) (c ∷ [])

abbrev decimal_char : ℕ → ℕ
decimal_char d = b'0' + d

-- `hex[v & 0xfu]`
abbrev hex_char : ℕ → ℕ
hex_char d = if ltb d 10 then b'0' + d else 87 + d

-- `append_u64`
unfoldable pub append_u64 : ℕ → Bytes → ℕ → Bytes
unfolding append_digits low_digits
append_u64 cap out v =
    if v == 0
    then append_str cap out (codes "0")
    else append_digits cap out (low_digits decimal_char 10 32 v)

-- `append_hex_u64`
unfoldable pub append_hex_u64 : ℕ → Bytes → ℕ → Bytes
unfolding append_digits low_digits
append_hex_u64 cap out v =
    if v == 0
    then append_str cap out (codes "0")
    else append_digits cap out (low_digits hex_char 16 32 v)

-- What the handler does outside its memory; a signal and a descriptor are numbers.
pub data CrashEvent : Type 0 where
  opened closed : ℕ → CrashEvent
  allocated freed : ℕ → CrashEvent
  stack_set : ℕ → CrashEvent
  stack_disabled : CrashEvent
  hooked unhooked unblocked raised exited : ℕ → CrashEvent
  written : ℕ → Bytes → CrashEvent
  at_exit : CrashEvent

-- The file's static variables: `none` is a descriptor of -1, and a NULL `ss_sp`.
pub record CrashHandler : Type 0 where
  pub crash_log_fd : Option ℕ
  pub ss_sp : Option ℕ
  pub ss_size : ℕ
  pub crash_handling : Bool
  pub events : List CrashEvent

unfoldable pub happens : CrashEvent → CrashHandler → CrashHandler
happens e h = record h { events = h.events ++ (e ∷ []) }

unfoldable pub append_address : Option ℕ → Bytes → Bytes
append_address none out = out
append_address (some addr) out = append_hex_u64 256 (append_str 256 out (codes " addr=0x")) addr

-- The line that `crash_write_marker` builds. A signal and a process have positive numbers.
unfoldable pub crash_marker : ℕ → ℕ → Option ℕ → Bytes
unfolding append_address
crash_marker signo pid info =
    let signal = append_u64 256 (append_str 256 [] (codes "stackcomp fatal signal ")) signo in
    let process = append_u64 256 (append_str 256 signal (codes " pid=")) pid in
    append_str 256 (append_address info process) (10 ∷ [])

unfoldable write_log : Option ℕ → Bytes → CrashHandler → CrashHandler
write_log none msg h = h
write_log (some fd) msg h = happens (written fd msg) h

-- `crash_write_marker`
unfoldable crash_write_marker : ℕ → ℕ → Option ℕ → CrashHandler → CrashHandler
unfolding write_log
crash_write_marker signo pid info h =
    let msg = crash_marker signo pid info in
    write_log h.crash_log_fd msg (happens (written 2 msg) h)

-- `crash_signal_handler`
unfoldable crash_signal_handler : ℕ → ℕ → Option ℕ → CrashHandler → CrashHandler
unfolding crash_write_marker
crash_signal_handler signo pid info h =
    if h.crash_handling
    then happens (exited (128 + signo)) h
    else happens (exited (128 + signo)) (
        happens (raised signo) (
          happens (unblocked signo) (
            happens (unhooked signo)
              (crash_write_marker signo pid info (record h { crash_handling = true })))))

unfoldable pub close_log : Option ℕ → CrashHandler → CrashHandler
close_log none h = h
close_log (some fd) h = record (happens (closed fd) h) { crash_log_fd = none }

unfoldable pub free_stack : Option ℕ → CrashHandler → CrashHandler
free_stack none h = h
free_stack (some sp) h = record (happens (freed sp) (happens stack_disabled h)) {
  ss_sp = none;
  ss_size = 0;
}

-- `stackcomp_crash_handler_fini`
unfoldable pub stackcomp_crash_handler_fini : CrashHandler → CrashHandler
unfolding close_log free_stack
stackcomp_crash_handler_fini h = free_stack h.ss_sp (close_log h.crash_log_fd h)

-- The answers of the system: `open`, `malloc`, `sigaltstack` and `sigaction`.
pub record Answers : Type 0 where
  pub open_fd : Bytes → Option ℕ
  pub new_stack : Option ℕ
  pub stack_accepted : Bool
  pub signal_accepted : ℕ → Bool
  pub stack_size : ℕ

-- The chain of `install_one_signal`, up to the first failure.
unfoldable pub install_signals : Answers → List ℕ → CrashHandler → CrashHandler × Bool
install_signals sys [] h = (h, true)
install_signals sys (g ∷ signals) h =
    let rest = install_signals sys signals (happens (hooked g) h) in
    if sys.signal_accepted g then rest else (h, false)

-- SIGSEGV, SIGABRT, SIGBUS, SIGILL, SIGFPE, SIGTRAP, with their numbers on Linux.
abbrev fatal_signals : List ℕ
fatal_signals = 11 ∷ 6 ∷ 7 ∷ 4 ∷ 8 ∷ 5 ∷ []

-- `return false` after tearing down, or the registration of the end.
unfoldable pub or_fini : CrashHandler × Bool → CrashHandler × Bool
unfolding stackcomp_crash_handler_fini
or_fini (h, b) = if b then (happens at_exit h, true) else (stackcomp_crash_handler_fini h, false)

-- The part that follows a successful `malloc`.
unfoldable pub install_stack : Answers → ℕ → CrashHandler → CrashHandler × Bool
unfolding or_fini install_signals
install_stack sys sp h =
    let kept = record (happens (allocated sp) h) {
      ss_sp = some sp;
      ss_size = sys.stack_size * 4;
    } in
    let set = happens (stack_set sp) kept in
    let signals = install_signals sys fatal_signals set in
    or_fini (if sys.stack_accepted then signals else (kept, false))

unfoldable pub install_memory : Answers → Option ℕ → CrashHandler → CrashHandler × Bool
unfolding install_stack stackcomp_crash_handler_fini
install_memory sys none h = (stackcomp_crash_handler_fini h, false)
install_memory sys (some sp) h = install_stack sys sp h

unfoldable pub install_opened : Answers → Option ℕ → CrashHandler → CrashHandler × Bool
unfolding install_memory
install_opened sys none h = (h, false)
install_opened sys (some fd) h =
    install_memory sys sys.new_stack (record (happens (opened fd) h) { crash_log_fd = some fd })

-- `stackcomp_crash_handler_install`; a NULL path is the empty one, which is treated alike.
unfoldable pub stackcomp_crash_handler_install :
    Answers → Bytes → CrashHandler → CrashHandler × Bool
unfolding install_opened install_memory
stackcomp_crash_handler_install sys [] h = install_memory sys sys.new_stack h
stackcomp_crash_handler_install sys (c ∷ path) h = install_opened sys (sys.open_fd (c ∷ path)) h
