-- ===== src/Config/Flush.antt =====
-- src/config.c: what ends a block of the file. Each of these checks the block at hand and appends
-- it to the configuration; `none` is a failure, which ends the load.
pub mod Valid
use scratch_compositor.Base.{
  ℕ, Bool, true, false, not, ◌&&◌, ◌||◌, List, [], ◌∷◌, ◌++◌, Option, none, some, ◌==◌,
  if◌then◌else◌,
}
use scratch_compositor.Base.Int.{ℤ, pos, ltb_ℤ}
use scratch_compositor.Base.Text.{Bytes, strtol_whole}
use scratch_compositor.Config.{
  Config, Keybind, KeybindAction, no_action, exec, tile_move, tile_grid_move, workspace_goto,
  workspace_move, Regex, TileRule, DecorationRule, InputMapRule, workspace_count,
}
use scratch_compositor.Config.Library.{Library}
use scratch_compositor.Config.Tokens.{parse_input_map_type_field}
use scratch_compositor.Config.Grid.{tile_grid_move_command_ok}

-- `cur->command ? cur->command : ""`; the tests `!p || !p[0]` ask whether this is empty.
abbrev pub text : Option Bytes → Bytes
text none = []
text (some s) = s

abbrev pub given : Option Bytes → Bool
given none = false
given (some []) = false
given (some (c ∷ s)) = true

abbrev pub is_some {ℓ} : {A : Type ℓ} → Option A → Bool
is_some none = false
is_some (some a) = true

-- `w >= 1 && w <= COMP_WORKSPACE_COUNT`, of a number that is the whole text.
abbrev pub in_workspaces : Option ℤ → Bool
in_workspaces none = false
in_workspaces (some w) = ltb_ℤ (pos 0) w && not (ltb_ℤ (pos workspace_count) w)

-- The tests of `flush_bind` on the command, by action.
unfoldable pub command_ok : KeybindAction → Option Bytes → Bool
unfolding strtol_whole tile_grid_move_command_ok
command_ok no_action c = false
command_ok exec c = given c
command_ok tile_move c = not (given c) || is_some (strtol_whole (text c))
command_ok tile_grid_move c = tile_grid_move_command_ok (text c)
command_ok workspace_goto c = given c && in_workspaces (strtol_whole (text c))
command_ok workspace_move c = given c && in_workspaces (strtol_whole (text c))
command_ok _ c = true

-- `append_bind`, without the reset of the block.
unfoldable pub append_bind : Keybind → Config → Config
append_bind b cfg = record cfg { binds = cfg.binds ++ b ∷ [] }

-- `flush_bind`
unfoldable pub flush_bind : Config → Keybind → Option Config
unfolding append_bind command_ok
flush_bind cfg cur =
    if cur.keysym == 0
    then (if not (cur.mods == 0) || (is_some cur.command || is_some cur.when_shell)
        then none
        else some cfg)
    else if command_ok cur.action cur.command
    then some (append_bind cur cfg)
    else none

-- `struct tile_rule_parse`
pub record TileRuleParse : Type 0 where
  pub app_id_pat : Option Bytes
  pub title_pat : Option Bytes
  pub float_in_tile : Bool
  pub order : ℤ

-- `struct decoration_rule_parse`; `strip_set` is the option's case.
pub record DecorationRuleParse : Type 0 where
  pub app_id_pat : Option Bytes
  pub title_pat : Option Bytes
  pub strip : Option Bool

-- `struct input_map_parse`
pub record InputMapParse : Type 0 where
  pub match_pat : Option Bytes
  pub output_name : Option Bytes
  pub type_str : Option Bytes

-- A pattern that is absent or empty is none; another must compile.
unfoldable pub compile : Library → Option Bytes → Option (Option Regex)
compile lib none = some none
compile lib (some []) = some none
compile lib (some (c ∷ p)) = elim (lib.regcomp (c ∷ p)) [ none ↦ none | some re ↦ some (some re) ]

unfoldable pub append_tile_rule :
    Config → TileRuleParse → Option (Option Regex) → Option (Option Regex) → Option Config
append_tile_rule cfg p (some a) (some t) =
    let rule : TileRule = record {
      app_id_re = a;
      title_re = t;
      float_in_tile = p.float_in_tile;
      order = p.order;
    } in
    some (record cfg { tile_rules = cfg.tile_rules ++ rule ∷ [] })
append_tile_rule cfg p _ _ = none

-- `flush_tile_rule`
unfoldable pub flush_tile_rule : Library → Config → TileRuleParse → Option Config
unfolding append_tile_rule compile
flush_tile_rule lib cfg p =
    if not (given p.app_id_pat) && not (given p.title_pat)
    then some cfg
    else append_tile_rule cfg p (compile lib p.app_id_pat) (compile lib p.title_pat)

strip_or_default : Option Bool → Bool
strip_or_default none = true
strip_or_default (some b) = b

unfoldable pub append_decoration_rule :
    Config → DecorationRuleParse → Option (Option Regex) → Option (Option Regex) → Option Config
unfolding strip_or_default
append_decoration_rule cfg p (some a) (some t) =
    let rule : DecorationRule = record {
      app_id_re = a;
      title_re = t;
      prefer_server_side = strip_or_default p.strip;
    } in
    some (record cfg { decoration_rules = cfg.decoration_rules ++ rule ∷ [] })
append_decoration_rule cfg p _ _ = none

-- `flush_decoration_rule`
unfoldable pub flush_decoration_rule : Library → Config → DecorationRuleParse → Option Config
unfolding append_decoration_rule compile
flush_decoration_rule lib cfg p =
    if not (given p.app_id_pat) && not (given p.title_pat)
    then some cfg
    else append_decoration_rule cfg p (compile lib p.app_id_pat) (compile lib p.title_pat)

unfoldable pub append_input_map_rule : Config → Bytes → Option ℕ → Option Regex → Option Config
append_input_map_rule cfg out (some types) (some re) =
    let rule : InputMapRule = record { name_re = re; types = types; output_name = out } in
    some (record cfg { input_map_rules = cfg.input_map_rules ++ rule ∷ [] })
append_input_map_rule cfg out _ _ = none

-- `flush_input_map_rule`
unfoldable pub flush_input_map_rule : Library → Config → InputMapParse → Option Config
unfolding append_input_map_rule parse_input_map_type_field
flush_input_map_rule lib cfg p =
    if not (given p.match_pat) && not (given p.output_name)
    then some cfg
    else if not (given p.match_pat) || not (given p.output_name)
    then none
    else append_input_map_rule cfg (text p.output_name) (parse_input_map_type_field p.type_str)
        (lib.regcomp (text p.match_pat))
