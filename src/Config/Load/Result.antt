-- ===== src/Config/Load/Result.antt =====
-- About the result of `comp_config_load`.
use scratch_compositor.Base.{
  ℕ, ◌≡◌, ◌≢◌, refl, sym, true, List, [], ◌∷◌, ◌++◌, map, Option, none, some, arith, subst, not,
}
use scratch_compositor.Base.Text.{Bytes}
use scratch_compositor.Config.{Config, Keybind, KeybindAction, close, quit, layout_toggle}
use scratch_compositor.Config.Library.{Library}
use scratch_compositor.Config.Tokens.{modifier_logo}
use scratch_compositor.Config.Flush.{command_ok, append_bind}
use scratch_compositor.Config.Load.{
  load_defaults, fresh_config, default_bind, default_exec, flush_section, start, flush_as,
  load_lines, finish, comp_config_load, line_of, fgets_all, with_default_binds,
}
use scratch_compositor.Config.Load.Keys.{Loader}
use scratch_compositor.Config.Flush.Valid.{
  BindOk, Valid, some_injective, if_none, and_then-some, append_bind-Valid, flush_as-Valid,
}
use scratch_compositor.Config.Load.Valid.{load_lines-Valid}

exec_default-BindOk : BindOk default_exec
unfolding command_ok
exec_default-BindOk = (λ e. ground arith, refl)

-- A bind without a command.
plain-BindOk :
    (mods sym : ℕ) (a : KeybindAction)
    → sym ≢ 0
    → command_ok a none ≡ true
    → BindOk (default_bind mods sym a none)
plain-BindOk mods sym a h k = (h, k)

-- The built-in binds can run.
load_defaults-Valid : (cfg : Config) → Valid cfg → Valid (load_defaults cfg)
unfolding load_defaults command_ok
load_defaults-Valid cfg h =
    let close_bind = default_bind 65 81 close none in
    let quit_bind = default_bind modifier_logo 65307 quit none in
    let toggle_bind = default_bind modifier_logo 116 layout_toggle none in
    let one = append_bind default_exec cfg in
    let two = append_bind close_bind one in
    let three = append_bind quit_bind two in
    append_bind-Valid three toggle_bind
      (append_bind-Valid two quit_bind
        (append_bind-Valid one close_bind (append_bind-Valid cfg default_exec h exec_default-BindOk)
          (plain-BindOk 65 81 close (λ e. ground arith) refl))
        (plain-BindOk modifier_logo 65307 quit (λ e. ground arith) refl))
      (plain-BindOk modifier_logo 116 layout_toggle (λ e. ground arith) refl)

snoc_nonempty {ℓ} : {A : Type ℓ} → (xs : List A) (x : A) → xs ++ x ∷ [] ≢ []
snoc_nonempty [] x e = cc e
snoc_nonempty (y ∷ xs) x e = cc e

load_defaults-nonempty : (cfg : Config) → (load_defaults cfg).binds ≢ []
unfolding load_defaults append_bind
load_defaults-nonempty cfg = snoc_nonempty _ (default_bind modifier_logo 116 layout_toggle none)

abbrev Usable : Config → Type 0
Usable cfg = Valid cfg × (cfg.binds ≢ [])

with_default_binds-Usable :
    (bs : List Keybind) (cfg : Config)
    → Valid cfg
    → cfg.binds ≡ bs
    → Usable (with_default_binds bs cfg)
unfolding with_default_binds
with_default_binds-Usable [] cfg h e = (load_defaults-Valid cfg h, load_defaults-nonempty cfg)
with_default_binds-Usable (b ∷ bs) cfg h e = (h, λ q. cc (q, e))

finish-Usable :
    (lib : Library) (o : Option Loader) (cfg' : Config)
    → ((l : Loader) → o ≡ some l → Valid l.cfg)
    → finish lib o ≡ some cfg'
    → Usable cfg'
unfolding finish flush_section
finish-Usable lib none cfg' h e = cc
finish-Usable lib (some l) cfg' h e =
    let flushed = (if_none (not l.ok) _ cfg' e).1 in
    let (cfg, ended, done) = and_then-some (flush_as lib l.section l) _ cfg' flushed in
    subst Usable (some_injective done) (
      with_default_binds-Usable cfg.binds cfg (flush_as-Valid lib l.section l cfg (h l refl) ended)
        refl)

-- Every configuration that `comp_config_load` gives has at least one bind; each of its binds has a
-- keysym, an action, and a command that passes the tests of its action; and each of its input map
-- rules names an output and at least one type of device.
pub comp_config_load-Valid :
    (lib : Library) (file : Option Bytes) (cfg : Config)
    → comp_config_load lib file ≡ some cfg
    → Valid cfg × (cfg.binds ≢ [])
unfolding comp_config_load
comp_config_load-Valid lib none cfg e =
    subst Usable (some_injective e)
      (load_defaults-Valid fresh_config (tt, tt), load_defaults-nonempty fresh_config)
comp_config_load-Valid lib (some file) cfg e =
    finish-Usable lib (load_lines lib (map line_of (fgets_all file)) start) cfg
      (λ l read. load_lines-Valid lib (map line_of (fgets_all file)) start l (tt, tt) read) e
