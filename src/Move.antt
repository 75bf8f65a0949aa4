-- ===== src/Move.antt =====
-- src/main.c: the commands that move the focused window along the tile order, in the grid, and
-- the viewport of the scroll layout.
pub mod Exchange
pub mod Keys
pub mod Forward
pub mod Edge
pub mod Progress
pub mod Ends
pub mod Places
pub mod Commands
pub mod Steps
use scratch_compositor.Base.{
  ℕ, zero, suc, ◌+◌, ◌-◌, ◌/◌, Bool, true, false, not, ◌&&◌, ◌||◌, List, [], ◌∷◌, Option, none,
  some, ◌==◌, ltb, leb, length, get_elem?, get_or, if◌then◌else◌,
}
use scratch_compositor.Base.Int.{ℤ, pos, pos_part, neg_part, ◌+ℤ◌, ◌-ℤ◌, ◌==ℤ◌, ltb_ℤ}
use scratch_compositor.Server.{Toplevel, Output, Server, Layout, is_tiling, is_tile, is_scroll}
use scratch_compositor.Tiling.Grid.{tile_grid_cols}
use scratch_compositor.Tiling.{
  tile_swap_sort_keys, tile_sorted_views, tile_sorted_index, tile_sorted_views_on_output,
  toplevel_tile_output, comp_output_from_wlr, primary_wlr_output,
}
use scratch_compositor.Arrange.{server_arrange_toplevels, set_scroll_slot}
use scratch_compositor.Focus.{deref}

-- What one round of a loop does: the window is not in a list of two or more; there is no place to
-- move to; or it has changed places.
pub data Round : Type 0 where
  gone edge : Round
  swapped : Server → Round

-- Where a round sends the window at index i of n; `none` where the code finds no such place.
abbrev pub Pick : Type 0
Pick = ℕ → ℕ → Option ℕ

-- `j = i + 1` or `j = i - 1`, within 0 .. n - 1.
unfoldable pub pick_linear : Bool → Pick
pick_linear forward n i =
    if forward
    then (if ltb (i + 1) n then some (i + 1) else none)
    else (if ltb 0 i then some (i - 1) else none)

-- `j = i + cols` or `j = i - cols`, within 0 .. n - 1.
unfoldable pub pick_vert : Bool → Pick
pick_vert down n i =
    let cols = tile_grid_cols n in
    if down
    then (if ltb (i + cols) n then some (i + cols) else none)
    else (if leb cols i then some (i - cols) else none)

-- The neighbour index where it lies in the same row.
unfoldable pub pick_horiz : Bool → Pick
unfolding pick_linear
pick_horiz right n i = elim (pick_linear right n i) [
  | none ↦ none
  | some j ↦ if j / tile_grid_cols n == i / tile_grid_cols n then some j else none
]

-- The windows of the output that the loops work on, in tile order.
abbrev pub id_of : Option Output → Option ℕ
id_of none = none
id_of (some o) = some o.id

unfoldable pub sorted_on : Option Output → Server → List Toplevel
sorted_on out s = tile_sorted_views_on_output s (id_of out) (tile_sorted_views s)

unfoldable pub exchange_with : Option Toplevel → Option Toplevel → Server → Round
exchange_with (some a) (some b) s = swapped (tile_swap_sort_keys a b s)
exchange_with _ _ s = edge

unfoldable pub exchange_at : List Toplevel → ℕ → Option ℕ → Server → Round
unfolding exchange_with
exchange_at sorted i none s = edge
exchange_at sorted i (some j) s = exchange_with (get_elem? sorted i) (get_elem? sorted j) s

unfoldable pub round_at : Pick → List Toplevel → Option ℕ → Server → Round
unfolding exchange_at
round_at pick sorted none s = gone
round_at pick sorted (some i) s = exchange_at sorted i (pick (length sorted) i) s

-- The body that all these loops share: sort, look the window up, swap it with the place picked.
unfoldable pub move_round : Pick → Option Output → ℕ → Server → Round
unfolding round_at
move_round pick out f s =
    let sorted = sorted_on out s in
    if ltb (length sorted) 2 then gone else round_at pick sorted (tile_sorted_index sorted f) s

-- What the loops do with the outcome of a round, given the rest of the loop.
abbrev pub after_round {ℓ} : {A : Type ℓ} → Round → A → A → (Server → A) → A
after_round gone on_gone on_edge next = on_gone
after_round edge on_gone on_edge next = on_edge
after_round (swapped s) on_gone on_edge next = next s

-- `for (c = 0; c < nabs; c++)`: a round that finds no place returns from the whole function, so
-- that only a loop that makes all its rounds is followed by `server_arrange_toplevels`.
unfoldable pub move_rounds : Pick → Option Output → ℕ → ℕ → Server → Server
move_rounds pick out f zero s = server_arrange_toplevels s
move_rounds pick out f (suc c) s =
    after_round (move_round pick out f s) s s (move_rounds pick out f c)

-- `for (;;)`, which breaks at the edge and then arranges; `none` where the fuel runs out.
unfoldable pub move_to_edge : Pick → Option Output → ℕ → ℕ → Server → Option Server
move_to_edge pick out f zero s = none
move_to_edge pick out f (suc fuel) s =
    after_round (move_round pick out f s) (some s) (some (server_arrange_toplevels s))
      (move_to_edge pick out f fuel)

-- The guard that these functions share: a focused, mapped window that is not floating.
unfoldable pub movable_of : Option Toplevel → Option Toplevel
movable_of none = none
movable_of (some f) = if f.tile_float || not f.mapped then none else some f

unfoldable pub movable : Server → Option Toplevel
unfolding movable_of
movable s = movable_of (deref s.toplevels s.focused_toplevel)

unfoldable pub move_steps : Pick → ℕ → Option Toplevel → Server → Server
move_steps pick nabs none s = s
move_steps pick nabs (some f) s = move_rounds pick (toplevel_tile_output s f) f.id nabs s

unfoldable pub move_edge : Pick → Option Toplevel → Server → Option Server
move_edge pick none s = some s
move_edge pick (some f) s =
    move_to_edge pick (toplevel_tile_output s f) f.id (suc (length (tile_sorted_views s))) s

-- `steps > 0`, and the absolute value of `steps`.
abbrev pub is_positive : ℤ → Bool
is_positive = ltb_ℤ (pos 0)

abbrev pub magnitude : ℤ → ℕ
magnitude z = pos_part z + neg_part z

-- `server_tile_move_focused_n`
unfoldable pub server_tile_move_focused_n : Server → ℤ → Server
unfolding move_steps
server_tile_move_focused_n s steps =
    if not (is_tiling s.layout) || steps ==ℤ pos 0
    then s
    else move_steps (pick_linear (is_positive steps)) (magnitude steps) (movable s) s

-- `server_tile_move_focused_edge`
unfoldable pub server_tile_move_focused_edge : Server → Bool → Option Server
unfolding move_edge
server_tile_move_focused_edge s to_first =
    if not (is_tiling s.layout)
    then some s
    else move_edge (pick_linear (not to_first)) (movable s) s

-- `server_tile_move_focused_grid_vert`
unfoldable pub server_tile_move_focused_grid_vert : Server → ℤ → Server
unfolding move_steps
server_tile_move_focused_grid_vert s steps =
    if not (is_tile s.layout) || steps ==ℤ pos 0
    then s
    else move_steps (pick_vert (is_positive steps)) (magnitude steps) (movable s) s

-- `server_tile_move_focused_grid_vert_edge`
unfoldable pub server_tile_move_focused_grid_vert_edge : Server → Bool → Option Server
unfolding move_edge
server_tile_move_focused_grid_vert_edge s to_top =
    if not (is_tile s.layout) then some s else move_edge (pick_vert (not to_top)) (movable s) s

-- `server_tile_move_focused_grid_horiz`
unfoldable pub server_tile_move_focused_grid_horiz : Server → ℤ → Server
unfolding move_steps
server_tile_move_focused_grid_horiz s steps =
    if not (is_tile s.layout) || steps ==ℤ pos 0
    then s
    else move_steps (pick_horiz (is_positive steps)) (magnitude steps) (movable s) s

-- The output whose viewport `server_scroll_move` moves.
unfoldable pub scroll_output : Server → Option Output
scroll_output s = elim (movable s) [
  | none ↦ comp_output_from_wlr s.outputs (primary_wlr_output s)
  | some f ↦ toplevel_tile_output s f
]

-- The slot moved by `steps` and held within 0 .. n - 1.
unfoldable pub moved_slot : ℤ → ℤ → ℕ → ℤ
moved_slot slot steps n =
    let idx = slot +ℤ steps in
    if ltb_ℤ idx (pos 0) then pos 0 else if ltb_ℤ idx (pos n) then idx else pos n -ℤ pos 1

unfoldable pub scroll_on : Option Output → ℤ → Server → Server
scroll_on none steps s = s
scroll_on (some out) steps s =
    let n = length (sorted_on (some out) s) in
    let slot = get_or out.workspace_scroll_slot s.current_workspace (pos 0) in
    if n == 0
    then s
    else server_arrange_toplevels
        (set_scroll_slot out.id s.current_workspace (moved_slot slot steps n) s)

-- `server_scroll_move`
unfoldable pub server_scroll_move : Server → ℤ → Server
unfolding scroll_on
server_scroll_move s steps =
    if not (is_scroll s.layout) || steps ==ℤ pos 0 then s else scroll_on (scroll_output s) steps s
