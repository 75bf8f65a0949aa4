-- ===== src/Tests/Windows.antt =====
-- The window operations on concrete servers.
use scratch_compositor.Base.{
  ◌≤◌, ◌<◌, ◌≡◌, ◌↔◌, none, ◌*◌, ◌-◌, refl, true, false, [], ◌∷◌, ◌++◌, some, arith,
}
use scratch_compositor.Base.Int.{pos, negsuc, ◌≤ℤ◌, pos_part, ◌+ℤ◌}
use scratch_compositor.Server.{Server, tile, toplevel_by_id}
use scratch_compositor.Base.Sort.{sort}
use scratch_compositor.Tiling.{
  tile_swap_sort_keys, with_keys_of, tile_sorted_views, tile_sorted_views_on_output,
  toplevel_tile_output, comes_before, cmp_toplevel_tile_order, is_tiled,
}
use scratch_compositor.Tiling.Grid.{tile_grid_cols, tile_grid_rows}
use scratch_compositor.Tiling.Dims.{tile_grid_dims_lem}
use scratch_compositor.Focus.{deref}
use scratch_compositor.Workspace.{
  server_workspace_go, server_workspace_move_focused, relative_index,
}
use scratch_compositor.Workspace.Index.{relative_index_left, relative_index_back}
use scratch_compositor.Arrange.{clamp_slot, tile_cell}
use scratch_compositor.Arrange.Columns.{tile_cell-next}
use scratch_compositor.Arrange.Cells.{clamp_slot-bounds, moved_slot-bounds}
use scratch_compositor.Move.{
  sorted_on, server_tile_move_focused_n, server_tile_move_focused_edge, moved_slot,
}
use scratch_compositor.Move.Exchange.{sorted_on-tile_swap_sort_keys}
use scratch_compositor.Move.Keys.{tile_swap_sort_keys-Wf}
use scratch_compositor.Move.Commands.{
  Movable, Ordered, server_tile_move_focused_n-Ordered, server_tile_move_focused_edge-Ordered,
}
use scratch_compositor.Invariant.Defs.{Wf, Inv}
use scratch_compositor.Invariant.Workspace.{
  server_workspace_go-Inv, server_workspace_move_focused-Inv,
}
use scratch_compositor.Lifecycle.{
  xdg_shell_new_toplevel, toplevel_map, toplevel_unmap, toplevel_destroy,
}
use scratch_compositor.Focus.{toplevel_set_minimized}
use scratch_compositor.Move.{
  server_tile_move_focused_grid_vert, server_tile_move_focused_grid_horiz, pick_vert, pick_horiz,
}
use scratch_compositor.Move.Places.{NextRow, NextColumn, pick_vert-NextRow, pick_horiz-NextColumn}
use scratch_compositor.Move.Steps.{
  server_tile_move_focused_grid_vert-Ordered, server_tile_move_focused_grid_horiz-Ordered,
}
use scratch_compositor.Invariant.Layout.{toplevel_set_minimized-focus}
use scratch_compositor.Invariant.Lifecycle.{
  xdg_shell_new_toplevel-Inv, toplevel_unmap-Inv, toplevel_destroy-Inv,
}
use scratch_compositor.Invariant.Map.{toplevel_map-Inv}
use scratch_compositor.Invariant.Move.{server_tile_move_focused_n-Inv}
use scratch_compositor.Tests.{screen, window, output_here, server_with}

abbrev pub here : Server
here = server_with tile

windows-Wf : Wf here
windows-Wf = record {
  ids = (
    ((λ e. ground arith), ((λ e. ground arith), ((λ e. ground arith), tt))),
    (((λ e. ground arith), ((λ e. ground arith), tt)), (((λ e. ground arith), tt), (tt, tt))),
  );
  keys = (
    ((λ e. ground arith), ((λ e. ground arith), ((λ e. ground arith), tt))),
    (((λ e. ground arith), ((λ e. ground arith), tt)), (((λ e. ground arith), tt), (tt, tt))),
  );
  given = (omega arith, (omega arith, (omega arith, (omega arith, tt))));
  current = omega arith;
  workspaces = (omega arith, (omega arith, (omega arith, (omega arith, tt))));
  surfaces = ((λ m. refl), ((λ m. refl), ((λ m. refl), ((λ m. refl), tt))));
}

pub here-Inv : Inv here
unfolding toplevel_by_id
here-Inv = record { wf = windows-Wf; focus = (window 2 20 0, refl, refl, refl) }

here-Movable : Movable here (window 2 20 0)
unfolding deref toplevel_by_id
here-Movable = record { focused = refl; placed = refl; mapped = refl; tiling = refl }

order_here :
    sorted_on (some output_here) here
    ≡ (window 1 10 0 ∷ []) ++ window 2 20 0 ∷ ((window 3 30 0 ∷ []) ++ [])
unfolding sorted_on tile_sorted_views_on_output tile_sorted_views sort comes_before is_tiled
    cmp_toplevel_tile_order toplevel_tile_output
order_here = refl

sorted_on-tile_swap_sort_keys_example :
    sorted_on (some output_here) (tile_swap_sort_keys (window 1 10 0) (window 3 30 0) here)
    ≡ []
      ++ with_keys_of (window 1 10 0) (window 3 30 0)
        ∷ ((window 2 20 0 ∷ []) ++ with_keys_of (window 3 30 0) (window 1 10 0) ∷ [])
sorted_on-tile_swap_sort_keys_example =
    sorted_on-tile_swap_sort_keys (some output_here) here [] (window 1 10 0) (window 2 20 0 ∷ [])
      (window 3 30 0) [] windows-Wf.keys windows-Wf.ids order_here

tile_swap_sort_keys-Wf_example : Wf (tile_swap_sort_keys (window 1 10 0) (window 3 30 0) here)
tile_swap_sort_keys-Wf_example =
    tile_swap_sort_keys-Wf (some output_here) here [] (window 1 10 0) (window 2 20 0 ∷ [])
      (window 3 30 0) [] windows-Wf order_here

focused_output : toplevel_tile_output here (window 2 20 0) ≡ some output_here
unfolding toplevel_tile_output
focused_output = refl

server_tile_move_focused_n_example :
    Ordered
      (toplevel_tile_output here (window 2 20 0))
      (1 ∷ 3 ∷ 2 ∷ [])
      (server_tile_move_focused_n here (pos 1))
unfolding toplevel_tile_output
server_tile_move_focused_n_example =
    server_tile_move_focused_n-Ordered here (window 1 10 0 ∷ []) (window 2 20 0)
      (window 3 30 0 ∷ []) [] here-Movable windows-Wf order_here (omega arith)

server_tile_move_focused_edge_example :
    (s' : Server) × (server_tile_move_focused_edge here false ≡ some s')
    × Ordered (toplevel_tile_output here (window 2 20 0)) (1 ∷ 3 ∷ 2 ∷ []) s'
unfolding toplevel_tile_output
server_tile_move_focused_edge_example =
    server_tile_move_focused_edge-Ordered here (window 1 10 0 ∷ []) (window 2 20 0)
      (window 3 30 0 ∷ []) here-Movable windows-Wf order_here (omega arith)

server_workspace_go_example : Inv (server_workspace_go here (pos 3))
server_workspace_go_example = server_workspace_go-Inv here (pos 3) here-Inv

server_workspace_move_focused_example : Inv (server_workspace_move_focused here (pos 3))
server_workspace_move_focused_example = server_workspace_move_focused-Inv here (pos 3) here-Inv

tile_grid_dims_example :
    (5 ≤ tile_grid_cols 5 * tile_grid_cols 5)
    × ((tile_grid_cols 5 - 1) * (tile_grid_cols 5 - 1) < 5)
    × (5 ≤ tile_grid_rows 5 * tile_grid_cols 5)
    × ((tile_grid_rows 5 - 1) * tile_grid_cols 5 < 5)
    × (tile_grid_rows 5 ≤ tile_grid_cols 5)
tile_grid_dims_example = tile_grid_dims_lem 5 (omega arith)

relative_index_left_example : relative_index 0 (negsuc 0) ≡ pos 8
relative_index_left_example = relative_index_left 0 0 (omega arith)

relative_index_back_example :
    relative_index (pos_part (relative_index 7 (pos 3))) (negsuc 2) ≡ pos 7
relative_index_back_example = relative_index_back 7 2 (omega arith)

moved_slot_example :
    (pos 0 ≤ℤ moved_slot (pos 2) (pos 5) 3) × (moved_slot (pos 2) (pos 5) 3 ≤ℤ pos 2)
moved_slot_example = moved_slot-bounds (pos 2) (pos 5) 3 (omega arith)

clamp_slot_example : (pos 0 ≤ℤ clamp_slot (pos 8) 3) × (clamp_slot (pos 8) 3 ≤ℤ pos 2)
clamp_slot_example = clamp_slot-bounds (pos 8) 3 (omega arith)

xdg_shell_new_toplevel_example : Inv (xdg_shell_new_toplevel 5 here)
xdg_shell_new_toplevel_example =
    xdg_shell_new_toplevel-Inv 5 here
      ((λ e. ground arith), ((λ e. ground arith), ((λ e. ground arith), ((λ e. ground arith), tt))))
      (omega arith) here-Inv

toplevel_map_example : Inv (toplevel_map 3 here)
toplevel_map_example =
    toplevel_map-Inv 3 here ((λ e. refl), ((λ e. refl), ((λ e. refl), ((λ e. refl), tt)))) here-Inv

toplevel_unmap_example : Inv (toplevel_unmap 2 here)
toplevel_unmap_example = toplevel_unmap-Inv 2 here here-Inv

toplevel_destroy_example : Inv (toplevel_destroy 2 here)
toplevel_destroy_example = toplevel_destroy-Inv 2 here here-Inv

toplevel_set_minimized_example :
    Inv (toplevel_set_minimized (window 2 20 0) true here)
    × ((toplevel_set_minimized (window 2 20 0) true here).focused_toplevel ≡ none)
    × ((toplevel_set_minimized (window 2 20 0) true here).keyboard_focus ≡ none)
toplevel_set_minimized_example = toplevel_set_minimized-focus (window 2 20 0) true here here-Inv

move_back_example : Inv (server_tile_move_focused_n here (negsuc 0))
move_back_example = server_tile_move_focused_n-Inv here (negsuc 0) here-Inv

tile_cell-next_example :
    (tile_cell screen 3 0).x +ℤ (tile_cell screen 3 0).width ≡ (tile_cell screen 3 1).x
unfolding tile_grid_cols
tile_cell-next_example = tile_cell-next screen 300 3 0 1 refl (omega arith) refl

-- The first window has the focus: the second stands to its right, the third below it.
abbrev corner : Server
corner = record here { focused_toplevel = some 1 }

corner-Movable : Movable corner (window 1 10 0)
unfolding deref toplevel_by_id
corner-Movable = record { focused = refl; placed = refl; mapped = refl; tiling = refl }

order_corner :
    sorted_on (toplevel_tile_output corner (window 1 10 0)) corner
    ≡ window 1 10 0 ∷ window 2 20 0 ∷ window 3 30 0 ∷ []
unfolding sorted_on tile_sorted_views_on_output tile_sorted_views sort comes_before is_tiled
    cmp_toplevel_tile_order toplevel_tile_output
order_corner = refl

move_down_example :
    Ordered
      (toplevel_tile_output corner (window 1 10 0))
      (3 ∷ 2 ∷ 1 ∷ [])
      (server_tile_move_focused_grid_vert corner (pos 1))
unfolding tile_grid_cols
move_down_example =
    server_tile_move_focused_grid_vert-Ordered corner [] (window 1 10 0) (window 2 20 0 ∷ [])
      (window 3 30 0) [] corner-Movable refl windows-Wf order_corner (refl, refl)

move_right_example :
    Ordered
      (toplevel_tile_output corner (window 1 10 0))
      (2 ∷ 1 ∷ 3 ∷ [])
      (server_tile_move_focused_grid_horiz corner (pos 1))
unfolding tile_grid_cols
move_right_example =
    server_tile_move_focused_grid_horiz-Ordered corner [] (window 1 10 0) [] (window 2 20 0)
      (window 3 30 0 ∷ []) corner-Movable refl windows-Wf order_corner (refl, refl)

pick_vert_example : (pick_vert true 5 1 ≡ some 4) ↔ ((4 < 5) × NextRow true (tile_grid_cols 5) 1 4)
pick_vert_example = pick_vert-NextRow true 5 1 4 (omega arith)

pick_horiz_example :
    (pick_horiz false 5 4 ≡ some 3) ↔ ((3 < 5) × NextColumn false (tile_grid_cols 5) 4 3)
pick_horiz_example = pick_horiz-NextColumn false 5 4 3 (omega arith)
