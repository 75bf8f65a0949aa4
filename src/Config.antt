-- ===== src/Config.antt =====
-- src/config.h: the data of a loaded configuration. A compiled `regex_t` is the test that
-- `regexec` makes with it; a `double` is its 64-bit pattern; a `NULL` text is `none`.
pub mod Rules
pub mod Tokens
pub mod Grid
pub mod Library
pub mod Flush
pub mod Load
use scratch_compositor.Base.{ℕ, Bool, List, Option}
use scratch_compositor.Base.Int.{ℤ}
use scratch_compositor.Base.Text.{Bytes}

-- `enum comp_keybind_action`; `no_action` is COMP_KEYBIND_NONE.
pub data KeybindAction : Type 0 where
  no_action quit close exec : KeybindAction
  layout_toggle layout_tile layout_stack layout_scroll : KeybindAction
  tile_swap_prev tile_swap_next scroll_prev scroll_next : KeybindAction
  tile_to_first tile_to_last tile_move tile_grid_up tile_grid_down : KeybindAction
  tile_to_column_top tile_to_column_bottom tile_grid_move : KeybindAction
  workspace_goto workspace_next workspace_prev workspace_move : KeybindAction

-- `struct comp_keybind`; the keysym 0 is XKB_KEY_NoSymbol.
pub record Keybind : Type 0 where
  pub mods : ℕ
  pub keysym : ℕ
  pub action : KeybindAction
  pub command : Option Bytes
  pub when_shell : Option Bytes

-- What `regexec(&re, s, ...) == 0` answers for the text `s`.
abbrev pub Regex : Type 0
Regex = Bytes → Bool

-- `struct comp_tile_rule`; `have_app_id` and `have_title` are the options' cases.
pub record TileRule : Type 0 where
  pub app_id_re : Option Regex
  pub title_re : Option Regex
  pub float_in_tile : Bool
  pub order : ℤ

-- `struct comp_decoration_rule`
pub record DecorationRule : Type 0 where
  pub app_id_re : Option Regex
  pub title_re : Option Regex
  pub prefer_server_side : Bool

-- `struct comp_input_map_rule`; `types` is a mask of touch 1, tablet 2, pointer 4.
pub record InputMapRule : Type 0 where
  pub name_re : Regex
  pub types : ℕ
  pub output_name : Bytes

-- `struct comp_config`
pub record Config : Type 0 where
  pub binds : List Keybind
  pub tile_rules : List TileRule
  pub decoration_rules : List DecorationRule
  pub input_map_rules : List InputMapRule
  pub decoration_strip_default : Bool
  pub hook_startup : Option Bytes
  pub hook_shutdown : Option Bytes
  pub hook_reload : Option Bytes
  pub layout_anim_enabled : Bool
  pub layout_anim_lambda : ℕ
  pub layout_anim_epsilon : ℕ

-- COMP_WORKSPACE_COUNT of src/server.h.
abbrev pub workspace_count : ℕ
workspace_count = 9
