-- ===== src/Tests/System.antt =====
-- Runs of the server: windows that come and go, requests, the pointer, keys and IPC lines.
use scratch_compositor.Base.{
  ℕ, ◌≡◌, ◌≢◌, refl, Bool, true, false, [], ◌∷◌, Option, none, some, arith,
}
use scratch_compositor.Base.Int.{pos, ◌≤ℤ◌, ◌+ℤ◌}
use scratch_compositor.Base.Text.{Bytes, codes}
use scratch_compositor.Server.{
  Box, Toplevel, Server, Edges, tile, stack, modify, update_toplevel, toplevel_by_id,
}
use scratch_compositor.Lifecycle.{
  xdg_shell_new_toplevel, new_view, next_tile_user_key, toplevel_map,
}
use scratch_compositor.Bindings.{comp_config_try_bindings}
use scratch_compositor.Ipc.{ipc_process_line, server_reload_config}
use scratch_compositor.Maximize.{apply_maximize}
use scratch_compositor.Pointer.Drag.{resized_box, server_cursor_button}
use scratch_compositor.Invariant.Defs.{Inv}
use scratch_compositor.Invariant.Reach.{
  Surface, committing, surface_commits, window_appears, window_maps, Started, Reach, start, later,
  NoWrap, Counts,
}
use scratch_compositor.Invariant.System.{Reach-Inv, Reach-answers}
use scratch_compositor.Invariant.Bindings.{PressInv, comp_config_try_bindings-Inv}
use scratch_compositor.Base.Sort.{sort}
use scratch_compositor.Focus.{deref}
use scratch_compositor.Tiling.{
  tile_sorted_views_on_output, tile_sorted_views, is_tiled, comes_before, toplevel_tile_output,
  tile_sorted_index, tile_swap_sort_keys,
}
use scratch_compositor.Move.{
  server_tile_move_focused_edge, server_tile_move_focused_grid_vert_edge, movable, move_to_edge,
  move_round, sorted_on, pick_linear,
}
use scratch_compositor.Invariant.Move.{
  OutcomeInv, server_tile_move_focused_edge-Inv, server_tile_move_focused_grid_vert_edge-Inv,
}
use scratch_compositor.Invariant.Ipc.{ipc_process_line-Inv, server_reload_config_lem}
use scratch_compositor.Config.{Config, tile_to_last}
use scratch_compositor.Config.Load.{comp_config_load}
use scratch_compositor.Config.Flush.Valid.{Valid}
use scratch_compositor.Invariant.Maximize.{committed, asking, apply_maximize-restores}
use scratch_compositor.Invariant.Pointer.{server_cursor_button-Inv}
use scratch_compositor.Pointer.Resize.{resized_box_lem}
use scratch_compositor.Tests.{screen, window, server_with}
use scratch_compositor.Tests.Config.{library, loaded}
use scratch_compositor.Tests.Windows.{here, here-Inv}

-- A server that has just started.
abbrev empty : Server
empty = record (server_with tile) {
  toplevels = [];
  focused_toplevel = none;
  keyboard_focus = none;
  tile_user_key_gen = 0;
}

empty-Started : Started empty
empty-Started = record { no_windows = refl; no_focus = refl; on_workspace = omega arith }

abbrev small : Surface
small = record { width = pos 40; height = pos 30; maximized = false }

abbrev appeared : Server
appeared = xdg_shell_new_toplevel 1 empty

abbrev ready : Server
ready = modify 1 (committing small) appeared

ready-Reach : Reach empty ready
ready-Reach = later (later start (window_appears 1 tt)) (surface_commits 1 small)

mapped-Reach : Reach empty (toplevel_map 1 ready)
unfolding xdg_shell_new_toplevel new_view update_toplevel
mapped-Reach = later ready-Reach (window_maps 1 ((λ e. refl), tt))

mapped-NoWrap : NoWrap mapped-Reach
unfolding NoWrap Counts mapped-Reach ready-Reach
mapped-NoWrap = (((tt, omega arith), tt), tt)

Reach-Inv_example : Inv (toplevel_map 1 ready)
Reach-Inv_example = Reach-Inv empty-Started mapped-Reach mapped-NoWrap

Reach-answers_example :
    ((exits_zero : Bytes → Bool) (pressed : Bool) (mods sym : ℕ)
      → (u : Server) × (b : Bool) × (comp_config_try_bindings library exits_zero
            (toplevel_map 1 ready).config
            (toplevel_map 1 ready)
            pressed
            mods
            sym
          ≡ some (u, b)))
    × ((source : Option (Option Bytes)) (line : Bytes)
        → (u : Server) × (ipc_process_line library source (toplevel_map 1 ready) line ≡ some u))
Reach-answers_example = Reach-answers library empty-Started mapped-Reach mapped-NoWrap

-- Super and q move the focused window to the end.
abbrev moves_to_end : Config
moves_to_end = record loaded {
  binds =
      record { mods = 64; keysym = 113; action = tile_to_last; command = none; when_shell = none }
      ∷ [];
}

comp_config_try_bindings-Inv_example :
    PressInv (comp_config_try_bindings library (λ t. true) (some moves_to_end) here true 64 113)
comp_config_try_bindings-Inv_example =
    comp_config_try_bindings-Inv library (λ t. true) (some moves_to_end) here true 64 113 here-Inv

ipc_process_line-Inv_example :
    OutcomeInv (ipc_process_line library none here (codes "tile move last"))
ipc_process_line-Inv_example =
    ipc_process_line-Inv library none here (codes "tile move last") here-Inv

-- A window at (20, 30), 40 by 50 pixels.
abbrev free_window : Toplevel
free_window = record (window 1 10 0) {
  node_x = pos 20;
  node_y = pos 30;
  geo_width = pos 40;
  geo_height = pos 50;
}

abbrev maximized_once : Toplevel
maximized_once =
    committed (pos 300) (pos 200) (apply_maximize stack screen (asking true free_window))

abbrev normal_again : Toplevel
normal_again =
    apply_maximize stack screen (asking false (apply_maximize stack screen maximized_once))

apply_maximize-restores_example :
    (normal_again.node_x ≡ pos 20)
    × (normal_again.node_y ≡ pos 30)
    × (normal_again.configured_size ≡ some (pos 40, pos 50))
    × (normal_again.sent_maximized ≡ false)
apply_maximize-restores_example =
    apply_maximize-restores stack screen screen screen (pos 300) (pos 200) free_window refl refl
      refl refl

-- A drag of the left edge past the right one.
abbrev left_edge : Edges
left_edge = record { top = false; bottom = false; left = true; right = false }

abbrev dragged_box : Box
dragged_box = resized_box left_edge screen (pos 400) (pos 0)

resized_box_lem_example :
    (pos 1 ≤ℤ dragged_box.width)
    × (pos 1 ≤ℤ dragged_box.height)
    × (true ≡ true → dragged_box.x +ℤ dragged_box.width ≡ pos 0 +ℤ pos 300)
    × (true ≡ false → dragged_box.x ≡ pos 0)
    × (false ≡ true → dragged_box.y +ℤ dragged_box.height ≡ pos 0 +ℤ pos 200)
    × (false ≡ false → dragged_box.y ≡ pos 0)
resized_box_lem_example = resized_box_lem left_edge screen (pos 400) (pos 0)

server_cursor_button-Inv_example : Inv (server_cursor_button (λ s. some 3) true true true here)
server_cursor_button-Inv_example =
    server_cursor_button-Inv (λ s. some 3) true true true here here-Inv

server_reload_config_lem_example :
    (server_reload_config library none here ≡ (here, false))
    × (let r = server_reload_config library (some none) here in
        (r.1 ≡ false → r.0 ≡ here)
        × (r.1 ≡ true
            → (cfg : Config) × (r.0.config ≡ some cfg)
              × (comp_config_load library none ≡ some cfg)
              × Valid cfg
              × (cfg.binds ≢ [])))
server_reload_config_lem_example = server_reload_config_lem library none here

server_tile_move_focused_edge-Inv_example : OutcomeInv (server_tile_move_focused_edge here true)
server_tile_move_focused_edge-Inv_example = server_tile_move_focused_edge-Inv here true here-Inv

server_tile_move_focused_grid_vert_edge-Inv_example :
    OutcomeInv (server_tile_move_focused_grid_vert_edge here false)
server_tile_move_focused_grid_vert_edge-Inv_example =
    server_tile_move_focused_grid_vert_edge-Inv here false here-Inv

-- The window after the counter's last value gets the key 0.
wrapped :
    (xdg_shell_new_toplevel 9 (record empty { tile_user_key_gen = 4294967295 })).tile_user_key_gen
    ≡ 0
unfolding xdg_shell_new_toplevel next_tile_user_key
wrapped = refl

-- Two windows with one key, as after the counter has wrapped round: an exchange changes nothing, and
-- the move to the end goes on for ever.
abbrev twins : Server
twins = record here { toplevels = window 1 5 0 ∷ window 2 5 0 ∷ []; focused_toplevel = some 1 }

endless : server_tile_move_focused_edge twins false ≡ none
unfolding server_tile_move_focused_edge movable deref toplevel_by_id move_to_edge move_round
    sorted_on tile_sorted_views_on_output tile_sorted_views sort is_tiled comes_before
    toplevel_tile_output tile_sorted_index pick_linear tile_swap_sort_keys update_toplevel
endless = refl
