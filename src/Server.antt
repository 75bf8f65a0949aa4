-- ===== src/Server.antt =====
-- src/server.h: the state of the compositor. A pointer to a toplevel or an output is its `id`.
-- What wlroots holds for a window (mapped, initialized, geometry, scene position, activation) are
-- fields of the window; what wlroots answers about outputs and layer surfaces is `Wlroots`.
use scratch_compositor.Base.{
  ℕ, ◌+◌, Bool, true, false, List, ◌∷◌, map, Option, none, some, ◌==◌, find, if◌then◌else◌,
}
use scratch_compositor.Base.Int.{ℤ}
use scratch_compositor.Base.Text.{Bytes}
use scratch_compositor.Config.{Config}

-- `enum comp_layout`
pub data Layout : Type 0 where
  stack tile scroll : Layout

-- `enum comp_grab`
pub data Grab : Type 0 where
  grab_none grab_move grab_resize : Grab

-- `struct wlr_box`
pub record Box : Type 0 where
  pub x : ℤ
  pub y : ℤ
  pub width : ℤ
  pub height : ℤ

-- The modes of xdg-decoration.
pub data DecorationMode : Type 0 where
  client_side server_side : DecorationMode

-- `struct comp_toplevel`, with the wlroots state of its surface that the code reads or sets.
pub record Toplevel : Type 0 where
  pub id : ℕ
  pub mapped : Bool
  pub initialized : Bool
  pub app_id : Bytes
  pub title : Bytes
  pub geo_x : ℤ
  pub geo_y : ℤ
  pub geo_width : ℤ
  pub geo_height : ℤ
  -- The size of the surface itself.
  pub surface_width : ℤ
  pub surface_height : ℤ
  pub node_x : ℤ
  pub node_y : ℤ
  pub node_enabled : Bool
  pub activated : Bool
  -- The size last sent by `wlr_xdg_toplevel_set_size`.
  pub configured_size : Option (ℤ × ℤ)
  -- The state that the client asks for and has (`requested`, `current`), and what was last sent.
  pub requested_maximized : Bool
  pub maximized : Bool
  pub sent_maximized : Bool
  pub sent_fullscreen : Bool
  -- The decoration object's current and scheduled modes, where the client has one.
  pub decoration : Option (DecorationMode × DecorationMode)
  pub tile_user_key : ℕ
  pub tile_float : Bool
  pub tile_order : ℤ
  pub layout_tgt_x : ℤ
  pub layout_tgt_y : ℤ
  pub layout_anim_x : ℤ
  pub layout_anim_y : ℤ
  pub layout_anim_tracked : Bool
  pub workspace : ℕ
  pub minimized : Bool
  pub restore_x : ℤ
  pub restore_y : ℤ
  pub restore_width : ℤ
  pub restore_height : ℤ
  pub has_restore : Bool

-- `struct comp_output`
pub record Output : Type 0 where
  pub id : ℕ
  pub layer_workarea : Box
  pub workspace_scroll_slot : List ℤ

-- The bits of an edge mask.
pub record Edges : Type 0 where
  pub top : Bool
  pub bottom : Bool
  pub left : Bool
  pub right : Bool

abbrev pub no_edges : Edges
no_edges = record { top = false; bottom = false; left = false; right = false }

-- One layer-shell surface: its output, its layers (0 background to 3 overlay) before and after the
-- first configure is acknowledged, and whether it has had its first commit.
pub record Layer : Type 0 where
  pub id : ℕ
  pub output : ℕ
  pub configured : Bool
  pub current_layer : ℕ
  pub pending_layer : ℕ
  pub initialized : Bool

-- What wlroots computes for the code: which output the cursor is over, an output's box in the
-- layout, whether a box contains a point (given in half pixels, as the code asks at centers), where
-- the cursor is (in 1/256 of a pixel, the resolution of the Wayland protocol), and
-- the usable area that configuring a layer surface leaves.
pub record Wlroots : Type 0 where
  pub output_at_cursor : Option ℕ
  pub cursor_x : ℤ
  pub cursor_y : ℤ
  pub output_box : ℕ → Box
  pub box_contains_halves : Box → ℤ → ℤ → Bool
  pub configure_layer : ℕ → Box → Box → Box

-- Calls that leave the compositor and that nothing reads back, newest first.
pub data Event : Type 0 where
  foreign_refresh raise_to_top send_close pointer_enter : ℕ → Event
  workspace_notify terminate apply_input_maps pointer_clear_focus pointer_button : Event
  layer_keyboard_click : Event
  spawn set_xcursor : Bytes → Event

-- `struct comp_server`
pub record Server : Type 0 where
  pub wlroots : Wlroots
  pub layers : List Layer
  pub outputs : List Output
  pub toplevels : List Toplevel
  pub layout : Layout
  pub focused_toplevel : Option ℕ
  pub current_workspace : ℕ
  -- The static counter of main.c, a 32-bit number.
  pub tile_user_key_gen : ℕ
  pub grab : Grab
  pub grabbed_toplevel : Option ℕ
  pub grab_cursor_x : ℤ
  pub grab_cursor_y : ℤ
  pub grab_view_x : ℤ
  pub grab_view_y : ℤ
  pub grab_view_width : ℤ
  pub grab_view_height : ℤ
  pub resize_edges : Edges
  pub swallow_left_release : Bool
  pub touch_pointer_emu : Bool
  pub touch_pointer_emu_id : ℤ
  pub layout_anim_last_ns : ℕ
  pub config : Option Config
  -- The seat's keyboard focus.
  pub keyboard_focus : Option ℕ
  -- STACKCOMP_LAYOUT and STACKCOMP_WORKSPACE in the environment, once they are set.
  pub shell_env : Option (Layout × ℕ)
  pub display_terminate_requested : Bool
  pub events : List Event

-- The test `layout == COMP_LAYOUT_TILE || layout == COMP_LAYOUT_SCROLL`.
abbrev pub is_tiling : Layout → Bool
is_tiling stack = false
is_tiling tile = true
is_tiling scroll = true

abbrev pub is_scroll : Layout → Bool
is_scroll scroll = true
is_scroll _ = false

abbrev pub is_tile : Layout → Bool
is_tile tile = true
is_tile _ = false

abbrev pub is_grab_move : Grab → Bool
is_grab_move grab_move = true
is_grab_move _ = false

-- Whether an optional pointer is the given one.
abbrev pub points_to : Option ℕ → ℕ → Bool
points_to none i = false
points_to (some j) i = j == i

-- The object behind a pointer; a pointer to what is not listed gives `none`.
unfoldable pub toplevel_by_id : List Toplevel → ℕ → Option Toplevel
toplevel_by_id ts i = find (λ t. t.id == i) ts

-- A change of the object behind a pointer.
unfoldable pub update_toplevel : ℕ → (Toplevel → Toplevel) → List Toplevel → List Toplevel
update_toplevel i f = map (λ t. if t.id == i then f t else t)

abbrev pub modify : ℕ → (Toplevel → Toplevel) → Server → Server
modify i f s = record s { toplevels = update_toplevel i f s.toplevels }

-- `wl_list_for_each` over the toplevels with a body that changes only the one at hand.
abbrev pub for_toplevels : (Toplevel → Toplevel) → Server → Server
for_toplevels f s = record s { toplevels = map f s.toplevels }

abbrev pub emit : Event → Server → Server
emit e s = record s { events = e ∷ s.events }

-- `wlr_seat_keyboard_notify_clear_focus`, and the reset of the focus pointer before it.
abbrev pub clear_focus : Server → Server
clear_focus s = record s { focused_toplevel = none; keyboard_focus = none }

-- `comp_config_sync_shell_env`: the workspace is exported from 1.
unfoldable pub sync_shell_env : Server → Server
sync_shell_env s = record s { shell_env = some (s.layout, s.current_workspace + 1) }
