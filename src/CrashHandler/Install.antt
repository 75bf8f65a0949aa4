-- ===== src/CrashHandler/Install.antt =====
-- src/crash_handler.c, what the handler holds of the system after its set-up: files and memory.
use scratch_compositor.Base.{
  ℕ, ◌*◌, Bool, true, false, not, List, [], ◌∷◌, ◌++◌, Option, none, some, ◌≡◌, refl, ap, ◌∙◌, ◌==◌,
  keep, if_cases, arith,
}
use scratch_compositor.Base.Text.{Bytes}
use scratch_compositor.CrashHandler.{
  CrashEvent, opened, closed, allocated, freed, stack_set, stack_disabled, hooked, at_exit,
  CrashHandler, happens, close_log, free_stack, stackcomp_crash_handler_fini, Answers,
  install_signals, fatal_signals, or_fini, install_stack, install_memory, install_opened,
  stackcomp_crash_handler_install,
}

drop_from : ℕ → List ℕ → List ℕ
drop_from n l = keep (λ x. not (x == n)) l

-- The files and the memory in use after an event.
unfoldable pub files_after : CrashEvent → List ℕ → List ℕ
unfolding drop_from
files_after (opened fd) l = fd ∷ l
files_after (closed fd) l = drop_from fd l
files_after _ l = l

unfoldable pub memory_after : CrashEvent → List ℕ → List ℕ
unfolding drop_from
memory_after (allocated p) l = p ∷ l
memory_after (freed p) l = drop_from p l
memory_after _ l = l

unfoldable pub in_use : (CrashEvent → List ℕ → List ℕ) → List ℕ → List CrashEvent → List ℕ
in_use after l [] = l
in_use after l (e ∷ es) = in_use after (after e l) es

in_use-append :
    (after : CrashEvent → List ℕ → List ℕ) (l : List ℕ) (es : List CrashEvent) (e : CrashEvent)
    → in_use after l (es ++ (e ∷ [])) ≡ after e (in_use after l es)
unfolding in_use
in_use-append after l [] e = refl
in_use-append after l (x ∷ es) e = in_use-append after (after x l) es e

unfoldable pub held : Option ℕ → List ℕ
held none = []
held (some n) = n ∷ []

-- The files and the memory in use are those of the handler's variables.
pub record IsOwned (h : CrashHandler) : Type 0 where
  pub files : in_use files_after [] h.events ≡ held h.crash_log_fd
  pub memory : in_use memory_after [] h.events ≡ held h.ss_sp

-- Nothing is in use.
pub record IsIdle (h : CrashHandler) : Type 0 where
  pub owned : IsOwned h
  pub no_file : h.crash_log_fd ≡ none
  pub no_stack : h.ss_sp ≡ none

-- The outcome of the set-up: it holds what its variables say, and nothing after a failure.
pub IsSettled : CrashHandler × Bool → Type 0
IsSettled (h, true) = IsOwned h
IsSettled (h, false) = IsIdle h

-- An event that takes or gives nothing.
happens-IsOwned :
    (e : CrashEvent) (h : CrashHandler)
    → ((l : List ℕ) → files_after e l ≡ l)
    → ((l : List ℕ) → memory_after e l ≡ l)
    → IsOwned h
    → IsOwned (happens e h)
unfolding happens
happens-IsOwned e h f m w = record {
  files = in_use-append files_after [] h.events e ∙ f _ ∙ w.files;
  memory = in_use-append memory_after [] h.events e ∙ m _ ∙ w.memory;
}

drop_from-only : (n : ℕ) → drop_from n (n ∷ []) ≡ []
unfolding drop_from
drop_from-only n = ground arith

close_log-IsOwned :
    (o : Option ℕ) (h : CrashHandler)
    → h.crash_log_fd ≡ o
    → IsOwned h
    → IsOwned (close_log o h)
      × ((close_log o h).crash_log_fd ≡ none)
      × ((close_log o h).ss_sp ≡ h.ss_sp)
unfolding close_log happens files_after memory_after held
close_log-IsOwned none h e w = (w, e, refl)
close_log-IsOwned (some fd) h e w = (
  record {
    files =
        in_use-append files_after [] h.events (closed fd)
        ∙ ap (drop_from fd) (w.files ∙ ap held e)
        ∙ drop_from-only fd;
    memory = in_use-append memory_after [] h.events (closed fd) ∙ w.memory;
  },
  refl,
  refl,
)

free_stack-IsIdle :
    (o : Option ℕ) (h : CrashHandler)
    → h.ss_sp ≡ o
    → h.crash_log_fd ≡ none
    → IsOwned h
    → IsIdle (free_stack o h)
unfolding free_stack happens files_after memory_after held
free_stack-IsIdle none h e f w = record { owned = w; no_file = f; no_stack = e }
free_stack-IsIdle (some sp) h e f w =
    let w' = happens-IsOwned stack_disabled h (λ l. refl) (λ l. refl) w in
    let h' = happens stack_disabled h in
    record {
      owned = record {
        files = in_use-append files_after [] h'.events (freed sp) ∙ w'.files;
        memory =
            in_use-append memory_after [] h'.events (freed sp)
            ∙ ap (drop_from sp) (w'.memory ∙ ap held e)
            ∙ drop_from-only sp;
      };
      no_file = f;
      no_stack = refl;
    }

stackcomp_crash_handler_fini-IsIdle :
    (h : CrashHandler) → IsOwned h → IsIdle (stackcomp_crash_handler_fini h)
unfolding stackcomp_crash_handler_fini
stackcomp_crash_handler_fini-IsIdle h w =
    let (w', file, stack) = close_log-IsOwned h.crash_log_fd h refl w in
    free_stack-IsIdle h.ss_sp (close_log h.crash_log_fd h) stack file w'

install_signals-IsOwned :
    (sys : Answers) (signals : List ℕ) (h : CrashHandler)
    → IsOwned h
    → IsOwned (install_signals sys signals h).0
unfolding install_signals files_after memory_after
install_signals-IsOwned sys [] h w = w
install_signals-IsOwned sys (g ∷ signals) h w =
    if_cases (λ r. IsOwned r.0) (sys.signal_accepted g)
      (install_signals sys signals (happens (hooked g) h)) (h, false)
      (λ e.
        install_signals-IsOwned sys signals (happens (hooked g) h)
          (happens-IsOwned (hooked g) h (λ l. refl) (λ l. refl) w))
      (λ e. w)

or_fini-IsSettled : (r : CrashHandler × Bool) → IsOwned r.0 → IsSettled (or_fini r)
unfolding or_fini IsSettled files_after memory_after
or_fini-IsSettled (h, true) w = happens-IsOwned at_exit h (λ l. refl) (λ l. refl) w
or_fini-IsSettled (h, false) w = stackcomp_crash_handler_fini-IsIdle h w

install_memory-IsSettled :
    (sys : Answers) (o : Option ℕ) (h : CrashHandler)
    → h.ss_sp ≡ none
    → IsOwned h
    → IsSettled (install_memory sys o h)
unfolding install_memory install_stack IsSettled happens files_after memory_after held
install_memory-IsSettled sys none h e w = stackcomp_crash_handler_fini-IsIdle h w
install_memory-IsSettled sys (some sp) h e w =
    let taken = happens (allocated sp) h in
    let kept = record taken { ss_sp = some sp; ss_size = sys.stack_size * 4 } in
    let set = happens (stack_set sp) kept in
    let kept-IsOwned : IsOwned kept = record {
      files = in_use-append files_after [] h.events (allocated sp) ∙ w.files;
      memory =
          in_use-append memory_after [] h.events (allocated sp)
          ∙ ap (λ l. sp ∷ l) (w.memory ∙ ap held e);
    } in
    let set-IsOwned = happens-IsOwned (stack_set sp) kept (λ l. refl) (λ l. refl) kept-IsOwned in
    or_fini-IsSettled _ (
      if_cases (λ r. IsOwned r.0) sys.stack_accepted (install_signals sys fatal_signals set)
        (kept, false) (λ _. install_signals-IsOwned sys fatal_signals set set-IsOwned)
        (λ _. kept-IsOwned))

install_opened-IsSettled :
    (sys : Answers) (o : Option ℕ) (h : CrashHandler)
    → IsIdle h
    → IsSettled (install_opened sys o h)
unfolding install_opened IsSettled happens files_after memory_after held
install_opened-IsSettled sys none h w = w
install_opened-IsSettled sys (some fd) h w =
    install_memory-IsSettled sys sys.new_stack
      (record (happens (opened fd) h) { crash_log_fd = some fd }) w.no_stack
      (record {
        files =
            in_use-append files_after [] h.events (opened fd)
            ∙ ap (λ l. fd ∷ l) (w.owned.files ∙ ap held w.no_file);
        memory = in_use-append memory_after [] h.events (opened fd) ∙ w.owned.memory;
      })

-- Set up once, whatever the system answers at each step, the handler holds exactly the log file and
-- the stack that its variables name, and after a failure it holds neither.
pub stackcomp_crash_handler_install-IsSettled :
    (sys : Answers) (path : Bytes) (h : CrashHandler)
    → IsIdle h
    → IsSettled (stackcomp_crash_handler_install sys path h)
unfolding stackcomp_crash_handler_install
stackcomp_crash_handler_install-IsSettled sys [] h w =
    install_memory-IsSettled sys sys.new_stack h w.no_stack w.owned
stackcomp_crash_handler_install-IsSettled sys (c ∷ path) h w =
    install_opened-IsSettled sys (sys.open_fd (c ∷ path)) h w
