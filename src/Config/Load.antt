-- ===== src/Config/Load.antt =====
-- src/config.c: `comp_config_load`. The flags `in_bind` to `in_input_map`, of which at most one is
-- set, are one value. `none` is a failure, which the loop leaves by `break`; an unknown section
-- fails as well, but only when the loop is over.
pub mod Keys
pub mod Valid
pub mod Result
use scratch_compositor.Base.{
  ℕ, zero, suc, Bool, true, false, List, [], ◌∷◌, map, Option, none, some, ◌==◌, not, ◌&&◌, ◌||◌,
  if◌then◌else◌,
}
use scratch_compositor.Base.Int.{pos}
use scratch_compositor.Base.Text.{Bytes, codes, is_space, is_named, trim, span}
use scratch_compositor.Config.{
  Config, Keybind, KeybindAction, no_action, exec, close, quit, layout_toggle,
}
use scratch_compositor.Config.Library.{Library}
use scratch_compositor.Config.Tokens.{modifier_shift, modifier_logo}
use scratch_compositor.Config.Flush.{
  append_bind, flush_bind, TileRuleParse, DecorationRuleParse, InputMapParse, flush_tile_rule,
  flush_decoration_rule, flush_input_map_rule,
}
use scratch_compositor.Config.Load.Keys.{
  Section, no_section, bind, tile_rule, hooks, layout_anim, decoration, decoration_rule, pointer,
  input_map, Loader, and_then, empty_bind, empty_tile_rule, empty_decoration_rule, empty_input_map,
  set_key,
}

abbrev pub default_bind : ℕ → ℕ → KeybindAction → Option Bytes → Keybind
default_bind mods keysym action command = record {
  mods = mods;
  keysym = keysym;
  action = action;
  command = command;
  when_shell = none;
}

abbrev pub default_exec : Keybind
default_exec = default_bind modifier_logo 65293 exec (some (codes "${TERMINAL:-foot}"))

-- `load_defaults`: Return, Q, Escape and t.
unfoldable pub load_defaults : Config → Config
unfolding append_bind
load_defaults cfg = append_bind (default_bind modifier_logo 116 layout_toggle none) (
    append_bind (default_bind modifier_logo 65307 quit none)
      (append_bind (default_bind 65 81 close none) (append_bind default_exec cfg)))

-- The zeroed configuration after `apply_layout_anim_defaults` (15.0 and 0.35) and
-- `apply_decoration_defaults`.
abbrev pub fresh_config : Config
fresh_config = record {
  binds = [];
  tile_rules = [];
  decoration_rules = [];
  input_map_rules = [];
  decoration_strip_default = true;
  hook_startup = none;
  hook_shutdown = none;
  hook_reload = none;
  layout_anim_enabled = true;
  layout_anim_lambda = 4624633867356078080;
  layout_anim_epsilon = 4599976659396224614;
}

-- The flush of the block at hand, at a section line and at the end.
unfoldable pub flush_as : Library → Section → Loader → Option Config
flush_as lib bind l = flush_bind l.cfg l.cur
flush_as lib tile_rule l = flush_tile_rule lib l.cfg l.cur_tile
flush_as lib decoration_rule l = flush_decoration_rule lib l.cfg l.cur_dec
flush_as lib input_map l = flush_input_map_rule lib l.cfg l.cur_imap
flush_as lib _ l = some l.cfg

unfoldable pub flush_section : Library → Loader → Option Config
unfolding flush_as
flush_section lib l = flush_as lib l.section l

-- The section that a line in brackets opens; `no_section` for an unknown one.
unfoldable pub section_of : Bytes → Section
unfolding is_named
section_of line =
    if is_named line ("[bind]" ∷ [])
    then bind
    else if is_named line ("[tile_rule]" ∷ "[tilerule]" ∷ [])
    then tile_rule
    else if is_named line ("[hooks]" ∷ [])
    then hooks
    else if is_named line ("[layout_anim]" ∷ "[layout_animation]" ∷ [])
    then layout_anim
    else if is_named line ("[decoration]" ∷ [])
    then decoration
    else if is_named line ("[decoration_rule]" ∷ [])
    then decoration_rule
    else if is_named line ("[pointer]" ∷ [])
    then pointer
    else if is_named line ("[input_map]" ∷ [])
    then input_map
    else no_section

abbrev pub is_no_section : Section → Bool
is_no_section no_section = true
is_no_section _ = false

-- The state with which a section begins. The input map block is always empty here, since its
-- flush resets it on every path.
unfoldable pub open_section : Section → Bool → Config → Loader
open_section sec ok cfg = record {
  cfg = cfg;
  cur = empty_bind;
  cur_tile = empty_tile_rule;
  cur_dec = empty_decoration_rule;
  cur_imap = empty_input_map;
  section = sec;
  ok = ok && not (is_no_section sec);
}

unfoldable pub section_line : Library → Bytes → Loader → Option Loader
unfolding flush_section section_of open_section
section_line lib line l =
    and_then (flush_section lib l) (λ cfg. some (open_section (section_of line) l.ok cfg))

-- The end of the loop's body, `if (!ok) break;`.
unfoldable pub break_unless_ok : Option Loader → Option Loader
break_unless_ok none = none
break_unless_ok (some l) = if l.ok then some l else none

-- `strchr(line, '=')` splits the line; both parts are trimmed.
unfoldable pub key_line : Library → Bytes × Bytes → Loader → Option Loader
unfolding set_key break_unless_ok trim is_space
key_line lib (key, []) l = none
key_line lib (key, eq ∷ value) l =
    if is_no_section l.section
    then none
    else break_unless_ok (set_key lib (trim is_space key) (trim is_space value) l)

-- One round of the loop, on a trimmed line.
unfoldable pub load_line : Library → Bytes → Loader → Option Loader
unfolding section_line key_line span
load_line lib [] l = some l
load_line lib (c ∷ line) l =
    if c == b'#'
    then some l
    else if c == b'['
    then section_line lib (c ∷ line) l
    else key_line lib (span (λ d. not (d == b'=')) (c ∷ line)) l

unfoldable pub load_lines : Library → List Bytes → Loader → Option Loader
unfolding load_line
load_lines lib [] l = some l
load_lines lib (line ∷ lines) l = and_then (load_line lib line l) (load_lines lib lines)

-- The chunks that `fgets` reads into a buffer of 4096 bytes: up to a newline, or 4095 bytes.
fgets_onto : ℕ → Bytes → Bytes → List Bytes
fgets_onto room [] [] = []
fgets_onto room (d ∷ cur) [] = mathlib.Core.List.reverse (d ∷ cur) ∷ []
fgets_onto room cur (c ∷ s) = elim (c == 10 || room == 1) [
  | true ↦ mathlib.Core.List.reverse (c ∷ cur) ∷ fgets_onto 4095 [] s
  | false ↦ fgets_onto (Prim.Native.Nat.pred room) (c ∷ cur) s
]

unfoldable pub fgets_all : Bytes → List Bytes
unfolding fgets_onto
fgets_all file = fgets_onto 4095 [] file

-- What the C string functions see of a chunk, up to its first zero byte, trimmed.
unfoldable pub line_of : Bytes → Bytes
unfolding trim is_space span
line_of chunk = trim is_space (span (λ c. not (c == 0)) chunk).0

-- The end of `comp_config_load`: the last block, and the default binds where there are none.
unfoldable pub with_default_binds : List Keybind → Config → Config
unfolding load_defaults
with_default_binds [] cfg = load_defaults cfg
with_default_binds (b ∷ bs) cfg = cfg

unfoldable pub finish : Library → Option Loader → Option Config
unfolding flush_section with_default_binds
finish lib none = none
finish lib (some l) =
    if not l.ok
    then none
    else and_then (flush_section lib l) (λ cfg. some (with_default_binds cfg.binds cfg))

-- The variables before the loop.
abbrev pub start : Loader
start = record {
  cfg = fresh_config;
  cur = empty_bind;
  cur_tile = empty_tile_rule;
  cur_dec = empty_decoration_rule;
  cur_imap = empty_input_map;
  section = no_section;
  ok = true;
}

-- `comp_config_load`, of the file's contents; `none` where there is no path or it does not open.
unfoldable pub comp_config_load : Library → Option Bytes → Option Config
unfolding finish load_lines fgets_all line_of load_defaults
comp_config_load lib none = some (load_defaults fresh_config)
comp_config_load lib (some file) = finish lib (load_lines lib (map line_of (fgets_all file)) start)
