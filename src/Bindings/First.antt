-- ===== src/Bindings/First.antt =====
-- About the search for a bind in `comp_config_try_bindings`.
use scratch_compositor.Base.{
  ℕ, ◌≡◌, ◌≢◌, refl, Bool, true, false, List, [], ◌∷◌, Option, none, some, if◌then◌else◌, find,
  ne→==,
}
use scratch_compositor.Base.Text.{Bytes}
use scratch_compositor.Config.{Config, Keybind}
use scratch_compositor.Config.Library.{Library}
use scratch_compositor.Server.{Server, sync_shell_env}
use scratch_compositor.Bindings.{
  bind_applies, run_action, handled, try_binds, filter_mods, no_binds, comp_config_try_bindings,
}

-- The outcome for the bind that a search finds.
abbrev pub run_found : Option Keybind → Server → Option (Server × Bool)
run_found none s = some (s, false)
run_found (some b) s = handled (run_action b s)

no_binds_nonempty : (bs : List Keybind) → bs ≢ [] → no_binds bs ≡ false
no_binds_nonempty [] h = absurd (h refl)
no_binds_nonempty (b ∷ bs) h = refl

try_binds-find :
    (lib : Library) (exits_zero : Bytes → Bool) (mods sym : ℕ) (bs : List Keybind) (s : Server)
    → try_binds lib exits_zero mods sym bs s
      ≡ run_found (find (bind_applies lib exits_zero mods sym) bs) s
unfolding try_binds
try_binds-find lib exits_zero mods sym [] s = refl
try_binds-find lib exits_zero mods sym (b ∷ bs) s =
    elim (bind_applies lib exits_zero mods sym b)
      as (λ c.
        (elim c [
          | true ↦ handled (run_action b s)
          | false ↦ try_binds lib exits_zero mods sym bs s
        ])
        ≡ run_found (if c then some b else find (bind_applies lib exits_zero mods sym) bs) s) [
          | true ↦ refl
          | false ↦ try_binds-find lib exits_zero mods sym bs s
        ]

-- A press of a key with a keysym, in a configuration with binds, exports the environment and then
-- does what the first bind that applies does, and nothing where none applies; the answer is
-- whether one applies.
pub comp_config_try_bindings-find :
    (lib : Library) (exits_zero : Bytes → Bool) (cfg : Config) (s : Server) (mods sym : ℕ)
    → cfg.binds ≢ []
    → sym ≢ 0
    → comp_config_try_bindings lib exits_zero (some cfg) s true mods sym
      ≡ run_found
          (find (bind_applies lib exits_zero (filter_mods mods) sym) cfg.binds)
          (sync_shell_env s)
unfolding comp_config_try_bindings
comp_config_try_bindings-find lib exits_zero cfg s mods sym some_binds h =
    let full = no_binds_nonempty cfg.binds some_binds in
    rw (full, ne→== sym 0 h)
      (try_binds-find lib exits_zero (filter_mods mods) sym cfg.binds (sync_shell_env s))
