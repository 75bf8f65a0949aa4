-- ===== src/Command.antt =====
-- src/main.c, `server_tile_grid_run_command`: the text of a tile_grid_move bind and of the IPC
-- command `tile grid`. Like the moves to an edge it gives `none` where a loop runs out of fuel.
use scratch_compositor.Base.{
  ℕ, Bool, true, false, not, ◌||◌, [], ◌∷◌, Option, none, some, ◌==◌, take, if◌then◌else◌,
}
use scratch_compositor.Base.Int.{ℤ, pos, negsuc, ◌-ℤ◌, ltb_ℤ, to_int}
use scratch_compositor.Base.Text.{Bytes, is_named, is_space, skip_while, trim, strtol, strtol_whole}
use scratch_compositor.Config.Grid.{scan_word, is_empty}
use scratch_compositor.Server.{Server}
use scratch_compositor.Move.{
  server_tile_move_focused_grid_vert, server_tile_move_focused_grid_vert_edge,
  server_tile_move_focused_grid_horiz,
}

-- The blanks that the source skips itself.
abbrev pub is_blank : ℕ → Bool
is_blank c = c == b' ' || c == 9

unfoldable pub is_blank_or_newline : ℕ → Bool
is_blank_or_newline c = is_blank c || (c == 13 || c == 10)

-- `sscanf(s, "%31s %d", dir, &steps)`, where it reads both (`n == 2`).
number_of : Bytes → Option (ℤ × Bytes) → Option (Bytes × ℤ)
number_of dir none = none
number_of dir (some (v, rest)) = some (dir, to_int v)

unfoldable pub scan_direction : Bytes → Option (Bytes × ℤ)
unfolding number_of strtol skip_while is_space
scan_direction s =
    let word = scan_word 31 (skip_while is_space s) in
    if is_empty word.0 then none else number_of word.0 (strtol word.1)

-- A direction with a count.
unfoldable pub run_direction : Bytes × ℤ → Server → Server
unfolding is_named
run_direction (dir, steps) s =
    if not (ltb_ℤ (pos 0) steps)
    then s
    else if is_named dir ("left" ∷ [])
    then server_tile_move_focused_grid_horiz s (pos 0 -ℤ steps)
    else if is_named dir ("right" ∷ [])
    then server_tile_move_focused_grid_horiz s steps
    else if is_named dir ("up" ∷ [])
    then server_tile_move_focused_grid_vert s (pos 0 -ℤ steps)
    else if is_named dir ("down" ∷ [])
    then server_tile_move_focused_grid_vert s steps
    else s

-- The bare signed integer.
unfoldable pub run_legacy : Option ℤ → Server → Server
run_legacy none s = s
run_legacy (some v) s = server_tile_move_focused_grid_vert s (to_int v)

unfoldable pub direction_or_legacy : Option (Bytes × ℤ) → Option ℤ → Server → Server
unfolding run_direction run_legacy
direction_or_legacy (some d) v s = run_direction d s
direction_or_legacy none v s = run_legacy v s

unfoldable pub run_word : Bytes → Server → Option Server
unfolding is_named direction_or_legacy scan_direction strtol_whole
run_word w s =
    if is_named w ("up" ∷ [])
    then some (server_tile_move_focused_grid_vert s (negsuc 0))
    else if is_named w ("down" ∷ [])
    then some (server_tile_move_focused_grid_vert s (pos 1))
    else if is_named w ("left" ∷ [])
    then some (server_tile_move_focused_grid_horiz s (negsuc 0))
    else if is_named w ("right" ∷ [])
    then some (server_tile_move_focused_grid_horiz s (pos 1))
    else if is_named w ("top" ∷ [])
    then server_tile_move_focused_grid_vert_edge s true
    else if is_named w ("bottom" ∷ [])
    then server_tile_move_focused_grid_vert_edge s false
    else some (direction_or_legacy (scan_direction w) (strtol_whole w) s)

-- `server_tile_grid_run_command`, whose buffer holds 255 bytes of the command.
unfoldable pub server_tile_grid_run_command : Server → Option Bytes → Option Server
unfolding run_word trim is_blank_or_newline
server_tile_grid_run_command s none = some s
server_tile_grid_run_command s (some cmd) =
    let w = trim is_blank_or_newline (take 255 cmd) in if is_empty w then some s else run_word w s
