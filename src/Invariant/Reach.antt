-- ===== src/Invariant/Reach.antt =====
-- About everything that happens to the server, in any order.
use scratch_compositor.Base.{
  ℕ, ◌+◌, ◌^◌, ◌<◌, ◌≡◌, ◌≢◌, Bool, true, Option, none, some, List, [], All,
}
use scratch_compositor.Base.Int.{ℤ}
use scratch_compositor.Base.Text.{Bytes}
use scratch_compositor.Config.{workspace_count}
use scratch_compositor.Config.Library.{Library}
use scratch_compositor.Server.{Edges, DecorationMode, Toplevel, Layer, Wlroots, Server, modify}
use scratch_compositor.Arrange.{layer_shell_arrange}
use scratch_compositor.Lifecycle.{
  xdg_shell_new_toplevel, toplevel_map, toplevel_unmap, toplevel_destroy,
}
use scratch_compositor.Bindings.{comp_config_try_bindings}
use scratch_compositor.Ipc.{ipc_process_line}
use scratch_compositor.Requests.{
  toplevel_handle_set_title, toplevel_handle_set_app_id, foreign_toplevel_handle_request_activate,
  foreign_toplevel_handle_request_close, toplevel_commit, toplevel_request_maximize,
  toplevel_request_minimize, request_fullscreen, xdg_new_toplevel_decoration,
  xdg_decoration_handle_request_mode, xdg_decoration_handle_destroy,
}
use scratch_compositor.Pointer.{toplevel_request_move, toplevel_request_resize}
use scratch_compositor.Pointer.Drag.{process_cursor_motion, server_cursor_button}
use scratch_compositor.Pointer.Touch.{
  server_cursor_touch_down, server_cursor_touch_up, server_cursor_touch_motion,
  server_cursor_touch_cancel, tablet_tool_position, server_cursor_tablet_tool_tip,
  server_cursor_tablet_tool_button,
}
use scratch_compositor.Workspace.{server_workspace_go}
use scratch_compositor.Outputs.{
  server_new_output, output_destroy, layer_shell_new_surface, comp_layer_commit, comp_layer_destroy,
}

-- The surface state that a client commits: wlroots initializes the surface and takes the sizes and
-- the maximized state over.
pub record Surface : Type 0 where
  pub width : ℤ
  pub height : ℤ
  pub maximized : Bool

abbrev pub committing : Surface → Toplevel → Toplevel
committing c t = record t {
  initialized = true;
  geo_width = c.width;
  geo_height = c.height;
  surface_width = c.width;
  surface_height = c.height;
  maximized = c.maximized;
}

-- What one event does to the server. A window appears at an address of its own, and is mapped after
-- its surface is initialized; a key press and an IPC line are there where they have a result.
pub data Step (s : Server) : Server → Type 0 where
  wlroots_moves : (w : Wlroots) → Step s (record s { wlroots = w })
  wlroots_sets_layers : (ls : List Layer) → Step s (record s { layers = ls })
  surface_commits : (i : ℕ) (c : Surface) → Step s (modify i (committing c) s)
  window_appears :
      (i : ℕ) → All (λ (t : Toplevel). t.id ≢ i) s.toplevels → Step s (xdg_shell_new_toplevel i s)
  window_maps :
      (i : ℕ) → All (λ t. t.id ≡ i → t.initialized ≡ true) s.toplevels → Step s (toplevel_map i s)
  window_unmaps : (i : ℕ) → Step s (toplevel_unmap i s)
  window_goes : (i : ℕ) → Step s (toplevel_destroy i s)
  commits : (i : ℕ) (initial : Bool) → Step s (toplevel_commit i initial s)
  sets_title : (i : ℕ) (title : Bytes) → Step s (toplevel_handle_set_title i title s)
  sets_app_id : (i : ℕ) (app_id : Bytes) → Step s (toplevel_handle_set_app_id i app_id s)
  asks_maximize : (i : ℕ) (want : Bool) → Step s (toplevel_request_maximize i want s)
  asks_minimize : (i : ℕ) (want : Bool) → Step s (toplevel_request_minimize i want s)
  asks_fullscreen :
      (i : ℕ) (want : Bool) (named : Option ℕ) → Step s (request_fullscreen i want named s)
  asks_move : (i : ℕ) → Step s (toplevel_request_move i s)
  asks_resize : (i : ℕ) (edges : Edges) → Step s (toplevel_request_resize i edges s)
  gets_decoration :
      (i : ℕ) (modes : DecorationMode × DecorationMode)
      → Step s (xdg_new_toplevel_decoration i modes s)
  asks_decoration : (i : ℕ) → Step s (xdg_decoration_handle_request_mode i s)
  drops_decoration : (i : ℕ) → Step s (xdg_decoration_handle_destroy i s)
  bar_activates : (i : ℕ) (here : Bool) → Step s (foreign_toplevel_handle_request_activate i here s)
  bar_closes : (i : ℕ) → Step s (foreign_toplevel_handle_request_close i s)
  bar_goes : (idx : ℤ) → Step s (server_workspace_go s idx)
  pointer_moves : (owner : Server → Option ℕ) → Step s (process_cursor_motion owner s)
  button :
      (owner : Server → Option ℕ) (pressed is_left logo : Bool)
      → Step s (server_cursor_button owner pressed is_left logo s)
  touches :
      (accepts : Bool) (at : Option ℕ) (owner : Server → Option ℕ) (w : Wlroots) (id : ℤ)
      → Step s (server_cursor_touch_down accepts at owner w id s)
  lets_go : (id : ℤ) → Step s (server_cursor_touch_up id s)
  touch_moves :
      (accepts : Bool) (owner : Server → Option ℕ) (w : Wlroots) (id : ℤ)
      → Step s (server_cursor_touch_motion accepts owner w id s)
  touch_ends : (id : ℤ) → Step s (server_cursor_touch_cancel id s)
  tablet_moves :
      (accepts moved : Bool) (owner : Server → Option ℕ) (w : Wlroots)
      → Step s (tablet_tool_position accepts moved owner w s)
  tablet_tip :
      (accepts up emulating : Bool) (owner : Server → Option ℕ)
      → Step s (server_cursor_tablet_tool_tip accepts up emulating owner s).0
  tablet_button :
      (accepts : Bool) (owner : Server → Option ℕ)
      → Step s (server_cursor_tablet_tool_button accepts owner s)
  output_comes : (i : ℕ) → Step s (server_new_output i s)
  output_changes : Step s (layer_shell_arrange s)
  output_goes : (nested : Bool) (i : ℕ) → Step s (output_destroy nested i s)
  layer_comes :
      (i : ℕ) (named : Option ℕ) (layer : ℕ) (allocated : Bool)
      → Step s (layer_shell_new_surface i named layer allocated s).0
  layer_commits : (initial pending : Bool) → Step s (comp_layer_commit initial pending s)
  layer_goes : (i : ℕ) → Step s (comp_layer_destroy i s)
  key :
      (lib : Library) (exits_zero : Bytes → Bool) (pressed : Bool) (mods sym : ℕ) {s' : Server}
      {b : Bool}
      → comp_config_try_bindings lib exits_zero s.config s pressed mods sym ≡ some (s', b)
      → Step s s'
  ipc :
      (lib : Library) (source : Option (Option Bytes)) (line : Bytes) {s' : Server}
      → ipc_process_line lib source s line ≡ some s'
      → Step s s'

-- A server without windows, on a workspace that exists.
pub record Started (s : Server) : Type 0 where
  pub no_windows : s.toplevels ≡ []
  pub no_focus : s.focused_toplevel ≡ none
  pub on_workspace : s.current_workspace < workspace_count

pub data Reach (s : Server) : Server → Type 0 where
  start : Reach s s
  later : {t u : Server} → Reach s t → Step t u → Reach s u

-- A window appears before the counter of sort keys wraps round.
unfoldable pub Counts : {s s' : Server} → Step s s' → Type 0
Counts {s} (window_appears i ids) = s.tile_user_key_gen + 1 < 2 ^ 32
Counts _ = Unit

-- The counter has not wrapped round: at most 2 ^ 32 - 1 windows have appeared.
unfoldable pub NoWrap : {s t : Server} → Reach s t → Type 0
NoWrap start = Unit
NoWrap (later r st) = NoWrap r × Counts st
