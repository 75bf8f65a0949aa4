-- ===== src/Tests.antt =====
-- Concrete states and runs of the model.
pub mod Config
pub mod Windows
pub mod System
pub mod Protocol
pub mod Crash
pub mod Popups
use scratch_compositor.Base.{ℕ, Bool, true, false, List, [], ◌∷◌, Option, none, some}
use scratch_compositor.Base.Int.{ℤ, pos}
use scratch_compositor.Server.{
  Box, Toplevel, Output, Wlroots, Server, Layout, tile, scroll, stack, grab_none, no_edges,
}

abbrev pub screen : Box
screen = record { x = pos 0; y = pos 0; width = pos 300; height = pos 200 }

-- One output that holds every point.
abbrev pub wlroots_here : Wlroots
wlroots_here = record {
  output_at_cursor = some 7;
  cursor_x = pos 0;
  cursor_y = pos 0;
  output_box = λ i. screen;
  box_contains_halves = λ b x y. true;
  configure_layer = λ i full usable. usable;
}

abbrev pub output_here : Output
output_here = record {
  id = 7;
  layer_workarea = screen;
  workspace_scroll_slot =
      pos 0 ∷ pos 0 ∷ pos 0 ∷ pos 0 ∷ pos 0 ∷ pos 0 ∷ pos 0 ∷ pos 0 ∷ pos 0 ∷ [];
}

-- A mapped window with an identity, a user key and a workspace.
abbrev pub window : ℕ → ℕ → ℕ → Toplevel
window i key ws = record {
  id = i;
  mapped = true;
  initialized = true;
  app_id = [];
  title = [];
  geo_x = pos 0;
  geo_y = pos 0;
  geo_width = pos 10;
  geo_height = pos 10;
  surface_width = pos 10;
  surface_height = pos 10;
  node_x = pos 0;
  node_y = pos 0;
  node_enabled = true;
  activated = false;
  configured_size = none;
  requested_maximized = false;
  maximized = false;
  sent_maximized = false;
  sent_fullscreen = false;
  decoration = none;
  tile_user_key = key;
  tile_float = false;
  tile_order = pos 0;
  layout_tgt_x = pos 0;
  layout_tgt_y = pos 0;
  layout_anim_x = pos 0;
  layout_anim_y = pos 0;
  layout_anim_tracked = false;
  workspace = ws;
  minimized = false;
  restore_x = pos 0;
  restore_y = pos 0;
  restore_width = pos 0;
  restore_height = pos 0;
  has_restore = false;
}

-- Three windows on the first workspace and one on the fourth; the second has the focus.
abbrev pub server_with : Layout → Server
server_with layout = record {
  wlroots = wlroots_here;
  layers = [];
  outputs = output_here ∷ [];
  toplevels = window 1 10 0 ∷ window 2 20 0 ∷ window 3 30 0 ∷ window 4 40 3 ∷ [];
  layout = layout;
  focused_toplevel = some 2;
  current_workspace = 0;
  tile_user_key_gen = 40;
  grab = grab_none;
  grabbed_toplevel = none;
  grab_cursor_x = pos 0;
  grab_cursor_y = pos 0;
  grab_view_x = pos 0;
  grab_view_y = pos 0;
  grab_view_width = pos 0;
  grab_view_height = pos 0;
  resize_edges = no_edges;
  swallow_left_release = false;
  touch_pointer_emu = false;
  touch_pointer_emu_id = pos 0;
  layout_anim_last_ns = 0;
  config = none;
  keyboard_focus = some 2;
  shell_env = none;
  display_terminate_requested = false;
  events = [];
}
