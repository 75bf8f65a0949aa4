-- ===== src/Tests/Config.antt =====
-- A small file, loaded, and a key press.
use scratch_compositor.Base.{
  true, false, [], ◌∷◌, none, some, ◌≡◌, ◌≢◌, refl, arith, if◌then◌else◌, find, ltb,
}
use scratch_compositor.Base.Text.{Bytes, codes, str_eq}
use scratch_compositor.Config.{Config, Keybind, close}
use scratch_compositor.Config.Library.{Library}
use scratch_compositor.Config.Load.{comp_config_load, fresh_config}
use scratch_compositor.Config.Flush.{flush_bind}
use scratch_compositor.Config.Flush.Valid.{Valid}
use scratch_compositor.Config.Load.Result.{comp_config_load-Valid}
use scratch_compositor.Server.{stack, sync_shell_env}
use scratch_compositor.Bindings.{bind_applies, comp_config_try_bindings, filter_mods}
use scratch_compositor.Bindings.First.{run_found, comp_config_try_bindings-find}
use scratch_compositor.Tests.{server_with}

-- Libraries that know the pattern of everything and the key q.
abbrev pub library : Library
library = record {
  regcomp = λ p. some (λ s. true);
  keysym_from_name = λ n. if str_eq n (codes "q") then 113 else 0;
  keysym_to_lower = λ k. k;
  strtod = λ s. record { value = 0; end = none; out_of_range = false };
  double_lt = ltb;
}

abbrev file : Bytes
file = codes "[bind]\nmods = Super\nkey = q\naction = close\n"

abbrev close_on_q : Keybind
close_on_q = record { mods = 64; keysym = 113; action = close; command = none; when_shell = none }

abbrev pub loaded : Config
loaded = record fresh_config { binds = close_on_q ∷ [] }

file_loads : comp_config_load library (some file) ≡ some loaded
unfolding comp_config_load flush_bind
file_loads = refl

comp_config_load-Valid_example : Valid loaded × (loaded.binds ≢ [])
comp_config_load-Valid_example = comp_config_load-Valid library (some file) loaded file_loads

comp_config_try_bindings_example :
    comp_config_try_bindings library (λ w. true) (some loaded) (server_with stack) true 64 113
    ≡ run_found
        (find (bind_applies library (λ w. true) (filter_mods 64) 113) loaded.binds)
        (sync_shell_env (server_with stack))
comp_config_try_bindings_example =
    comp_config_try_bindings-find library (λ w. true) loaded (server_with stack) 64 113 (λ e. cc e)
      (λ e. ground arith)
