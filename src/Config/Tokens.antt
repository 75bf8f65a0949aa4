-- ===== src/Config/Tokens.antt =====
-- src/config.c, the values of single keys: modifiers, actions, truth values, modes, device types.
-- Allocation is taken to succeed, here and in the other modules of the configuration.
use scratch_compositor.Base.{
  ℕ, ◌+◌, ◌/◌, ◌%◌, Bool, true, false, ◌||◌, List, [], ◌∷◌, Option, none, some, ◌==◌, if◌then◌else◌,
}
use scratch_compositor.Base.Text.{Bytes, is_named, strtok_all}
use scratch_compositor.Config.{
  KeybindAction, quit, close, exec, layout_toggle, layout_tile, layout_stack, layout_scroll,
  tile_swap_prev, tile_swap_next, scroll_prev, scroll_next, tile_to_first, tile_to_last, tile_move,
  tile_grid_up, tile_grid_down, tile_to_column_top, tile_to_column_bottom, tile_grid_move,
  workspace_goto, workspace_next, workspace_prev, workspace_move,
}
use Prim.Native.String.{String}

-- WLR_MODIFIER_SHIFT, WLR_MODIFIER_CTRL, WLR_MODIFIER_ALT, WLR_MODIFIER_LOGO.
abbrev pub modifier_shift : ℕ
modifier_shift = 1

abbrev modifier_ctrl : ℕ
modifier_ctrl = 4

abbrev modifier_alt : ℕ
modifier_alt = 8

abbrev pub modifier_logo : ℕ
modifier_logo = 64

-- `parse_mod_token`; 0 is an unknown token.
unfoldable pub parse_mod_token : Bytes → ℕ
unfolding is_named
parse_mod_token tok =
    if is_named tok ("shift" ∷ [])
    then modifier_shift
    else if is_named tok ("ctrl" ∷ "control" ∷ [])
    then modifier_ctrl
    else if is_named tok ("alt" ∷ "meta" ∷ [])
    then modifier_alt
    else if is_named tok ("super" ∷ "mod" ∷ "logo" ∷ "win" ∷ "mod4" ∷ [])
    then modifier_logo
    else 0

-- `m |= bit`, for one bit.
unfoldable pub set_bit : ℕ → ℕ → ℕ
set_bit bit m = if (m / bit) % 2 == 1 then m else m + bit

-- The loop of `parse_mods_string` over the tokens.
unfoldable pub parse_mods : List Bytes → ℕ → Option ℕ
unfolding set_bit parse_mod_token
parse_mods [] out = some out
parse_mods (tok ∷ toks) out =
    let m = parse_mod_token tok in
    let rest = parse_mods toks (set_bit m out) in if m == 0 then none else rest

-- The delimiters "+, \t" of `mods=`, and ", \t" of `type=`.
unfoldable pub is_comma_or_blank : ℕ → Bool
is_comma_or_blank c = c == b',' || (c == b' ' || c == 9)

unfoldable pub is_mods_delimiter : ℕ → Bool
unfolding is_comma_or_blank
is_mods_delimiter c = c == b'+' || is_comma_or_blank c

-- `parse_mods_string`
unfoldable pub parse_mods_string : Bytes → Option ℕ
unfolding parse_mods strtok_all is_mods_delimiter
parse_mods_string value = parse_mods (strtok_all is_mods_delimiter value) 0

-- The chain of `parse_action`, in its order.
abbrev action_table : List (List String × KeybindAction)
action_table =
    ("quit" ∷ "exit" ∷ [], quit)
    ∷ ("close" ∷ "kill" ∷ [], close)
    ∷ ("exec" ∷ "spawn" ∷ [], exec)
    ∷ ("layout_toggle" ∷ "toggle_layout" ∷ [], layout_toggle)
    ∷ ("layout_tile" ∷ "tile" ∷ [], layout_tile)
    ∷ ("layout_stack" ∷ "stack" ∷ [], layout_stack)
    ∷ ("layout_scroll" ∷ "scroll" ∷ [], layout_scroll)
    ∷ ("tile_swap_prev" ∷ "tile_prev" ∷ "tile_left" ∷ [], tile_swap_prev)
    ∷ ("tile_swap_next" ∷ "tile_next" ∷ "tile_right" ∷ [], tile_swap_next)
    ∷ ("scroll_prev" ∷ "scroll_left" ∷ [], scroll_prev)
    ∷ ("scroll_next" ∷ "scroll_right" ∷ [], scroll_next)
    ∷ ("tile_to_first" ∷ "tile_first" ∷ "tile_begin" ∷ [], tile_to_first)
    ∷ ("tile_to_last" ∷ "tile_last" ∷ "tile_end" ∷ [], tile_to_last)
    ∷ ("tile_move" ∷ "tile_shift" ∷ [], tile_move)
    ∷ ("tile_grid_up" ∷ "tile_up" ∷ [], tile_grid_up)
    ∷ ("tile_grid_down" ∷ "tile_down" ∷ [], tile_grid_down)
    ∷ ("tile_column_top" ∷ "tile_col_top" ∷ "tile_grid_top" ∷ [], tile_to_column_top)
    ∷ ("tile_column_bottom" ∷ "tile_col_bottom" ∷ "tile_grid_bottom" ∷ [], tile_to_column_bottom)
    ∷ ("tile_grid_move" ∷ "tile_row_move" ∷ [], tile_grid_move)
    ∷ ("workspace" ∷ "workspace_goto" ∷ [], workspace_goto)
    ∷ ("workspace_next" ∷ "ws_next" ∷ [], workspace_next)
    ∷ ("workspace_prev" ∷ "ws_prev" ∷ [], workspace_prev)
    ∷ ("workspace_move" ∷ "ws_move" ∷ [], workspace_move)
    ∷ []

first_named : Bytes → List (List String × KeybindAction) → Option KeybindAction
unfolding is_named
first_named v [] = none
first_named v ((names, a) ∷ table) = if is_named v names then some a else first_named v table

-- `parse_action`
unfoldable pub parse_action : Bytes → Option KeybindAction
unfolding first_named
parse_action v = first_named v action_table

-- `parse_bool_yes_no`
unfoldable pub parse_bool_yes_no : Bytes → Option Bool
unfolding is_named
parse_bool_yes_no s =
    if is_named s ("1" ∷ "true" ∷ "yes" ∷ "on" ∷ [])
    then some true
    else if is_named s ("0" ∷ "false" ∷ "no" ∷ "off" ∷ [])
    then some false
    else none

-- `parse_tile_mode`: whether the window floats.
unfoldable pub parse_tile_mode : Bytes → Option Bool
unfolding is_named
parse_tile_mode v =
    if is_named v ("float" ∷ "floating" ∷ [])
    then some true
    else if is_named v ("tile" ∷ "tiled" ∷ [])
    then some false
    else none

-- The bits that one token of `type=` sets: touch 1, tablet 2, pointer 4.
unfoldable pub type_bits : Bytes → List ℕ
unfolding is_named
type_bits tok =
    if is_named tok ("touch" ∷ [])
    then 1 ∷ []
    else if is_named tok ("tablet" ∷ "stylus" ∷ "pen" ∷ [])
    then 2 ∷ []
    else if is_named tok ("pointer" ∷ "mouse" ∷ [])
    then 4 ∷ []
    else if is_named tok ("all" ∷ "both" ∷ [])
    then 1 ∷ 2 ∷ 4 ∷ []
    else []

set_bits : List ℕ → ℕ → ℕ
unfolding set_bit
set_bits [] m = m
set_bits (b ∷ bs) m = set_bits bs (set_bit b m)

no_bits : List ℕ → Bool
no_bits [] = true
no_bits _ = false

-- The loop of `parse_input_map_type_field` over the tokens.
unfoldable pub parse_types : List Bytes → ℕ → Option ℕ
unfolding type_bits set_bits no_bits
parse_types [] out = some out
parse_types (tok ∷ toks) out =
    let bits = type_bits tok in
    let rest = parse_types toks (set_bits bits out) in if no_bits bits then none else rest

abbrev pub non_zero : Option ℕ → Option ℕ
non_zero none = none
non_zero (some n) = if n == 0 then none else some n

-- `parse_input_map_type_field`
unfoldable pub parse_input_map_type_field : Option Bytes → Option ℕ
unfolding parse_types strtok_all is_comma_or_blank
parse_input_map_type_field none = some 3
parse_input_map_type_field (some []) = some 3
parse_input_map_type_field (some (c ∷ value)) =
    non_zero (parse_types (strtok_all is_comma_or_blank (c ∷ value)) 0)
