-- ===== src/Move/Ends.antt =====
-- About the fuel of `server_tile_move_focused_edge` and `server_tile_move_focused_grid_vert_edge`.
use scratch_compositor.Base.{
  ℕ, zero, suc, ◌*◌, ◌-◌, ◌≤◌, Bool, true, false, Option, none, some, arith, length, length-keep-le,
  leb, if◌then◌else◌,
}
use scratch_compositor.Server.{Toplevel, Output, Server}
use scratch_compositor.Tiling.Grid.{tile_grid_cols}
use scratch_compositor.Tiling.Dims.{tile_grid_dims_lem}
use scratch_compositor.Tiling.{tile_sorted_views, tile_sorted_views_on_output, toplevel_tile_output}
use scratch_compositor.Invariant.Defs.{Wf}
use scratch_compositor.Move.{pick_linear, pick_vert, sorted_on, move_edge}
use scratch_compositor.Move.Progress.{Nears, IsSome, move_to_edge-IsSome}

-- The places from one place to the end that the window moves towards.
abbrev pub places_left : Bool → ℕ → ℕ → ℕ
places_left forward n i = if forward then n - i else (if leb i n then i else n)

pick_linear-Nears : (forward : Bool) → Nears (pick_linear forward) (places_left forward)
unfolding pick_linear
pick_linear-Nears true n i j many inside e = ground arith
pick_linear-Nears false n i j many inside e = ground arith

pos_of_square : (c n : ℕ) → 2 ≤ n → n ≤ c * c → 1 ≤ c
pos_of_square zero n h k = absurd (ground (arith, h, k))
pos_of_square (suc c) n h k = omega arith

tile_grid_cols_pos : (n : ℕ) → 2 ≤ n → 1 ≤ tile_grid_cols n
tile_grid_cols_pos n h =
    pos_of_square (tile_grid_cols n) n h (tile_grid_dims_lem n (ground (arith, h))).0

pick_vert-Nears : (down : Bool) → Nears (pick_vert down) (places_left down)
unfolding pick_vert
pick_vert-Nears true n i j many inside e = ground (arith, tile_grid_cols_pos n many)
pick_vert-Nears false n i j many inside e = ground (arith, tile_grid_cols_pos n many)

places_left_le : (forward : Bool) (n i : ℕ) → places_left forward n i ≤ n
places_left_le true n i = omega arith
places_left_le false n i = ground arith

pub length-sorted_on :
    (out : Option Output) (s : Server) → length (sorted_on out s) ≤ length (tile_sorted_views s)
unfolding sorted_on tile_sorted_views_on_output
length-sorted_on out s = length-keep-le _ (tile_sorted_views s)

-- The loop of a move along the order ends within its fuel.
pub move_edge_linear-IsSome :
    (forward : Bool) (f : Option Toplevel) (s : Server)
    → Wf s
    → IsSome (move_edge (pick_linear forward) f s)
unfolding move_edge
move_edge_linear-IsSome forward none s w = tt
move_edge_linear-IsSome forward (some f) s w =
    move_to_edge-IsSome (pick_linear forward) (places_left forward) (toplevel_tile_output s f) f.id
      (length (tile_sorted_views s)) s (pick_linear-Nears forward) (places_left_le forward) w
      (length-sorted_on (toplevel_tile_output s f) s)

-- The loop of a move along a column ends within its fuel.
pub move_edge_vert-IsSome :
    (down : Bool) (f : Option Toplevel) (s : Server)
    → Wf s
    → IsSome (move_edge (pick_vert down) f s)
unfolding move_edge
move_edge_vert-IsSome down none s w = tt
move_edge_vert-IsSome down (some f) s w =
    move_to_edge-IsSome (pick_vert down) (places_left down) (toplevel_tile_output s f) f.id
      (length (tile_sorted_views s)) s (pick_vert-Nears down) (places_left_le down) w
      (length-sorted_on (toplevel_tile_output s f) s)
