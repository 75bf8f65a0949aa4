-- ===== src/Bindings.antt =====
-- src/config.c, the key bindings: `comp_config_try_bindings` and what it calls. `none` stands for a
-- loop out of fuel in a move to an edge.
pub mod First
use scratch_compositor.Base.{
  ℕ, ◌+◌, ◌/◌, ◌%◌, Bool, true, false, not, ◌&&◌, ◌||◌, List, [], ◌∷◌, Option, none, some, ◌==◌,
  if◌then◌else◌,
}
use scratch_compositor.Base.Int.{ℤ, pos, negsuc, ◌-ℤ◌, to_int}
use scratch_compositor.Base.Text.{Bytes, strtol}
use scratch_compositor.Config.{
  Config, Keybind, KeybindAction, no_action, quit, close, exec, layout_toggle, layout_tile,
  layout_stack, layout_scroll, tile_swap_prev, tile_swap_next, scroll_prev, scroll_next,
  tile_to_first, tile_to_last, tile_move, tile_grid_up, tile_grid_down, tile_to_column_top,
  tile_to_column_bottom, tile_grid_move, workspace_goto, workspace_next, workspace_prev,
  workspace_move,
}
use scratch_compositor.Config.Library.{Library}
use scratch_compositor.Config.Flush.{given, text, in_workspaces}
use scratch_compositor.Server.{
  Server, stack, tile, scroll, Event, spawn, terminate, send_close, emit, sync_shell_env,
}
use scratch_compositor.Move.{
  server_tile_move_focused_n, server_tile_move_focused_edge, server_tile_move_focused_grid_vert,
  server_tile_move_focused_grid_vert_edge, server_scroll_move,
}
use scratch_compositor.Switch.{server_set_layout, server_toggle_layout}
use scratch_compositor.Workspace.{
  server_workspace_go, server_workspace_relative, server_workspace_move_focused,
}
use scratch_compositor.Command.{server_tile_grid_run_command}

-- `keysym_matches_bind`
unfoldable pub keysym_matches_bind : Library → ℕ → ℕ → Bool
keysym_matches_bind lib want got =
    if want == got
    then true
    else if want == 0 || got == 0
    then false
    else lib.keysym_to_lower want == lib.keysym_to_lower got

bit_of : ℕ → ℕ → ℕ
bit_of bit m = if (m / bit) % 2 == 1 then bit else 0

-- `mods_filtered & COMP_BIND_MOD_FILTER`
unfoldable pub filter_mods : ℕ → ℕ
unfolding bit_of
filter_mods m = bit_of 1 m + bit_of 4 m + bit_of 8 m + bit_of 64 m

-- `comp_keybind_when_ok`, given whether `sh -c` of a text exits with status 0.
unfoldable pub when_ok : (Bytes → Bool) → Option Bytes → Bool
when_ok exits_zero w = if given w then exits_zero (text w) else true

-- `spawn_sh_c`
unfoldable pub spawn_sh_c : Option Bytes → Server → Server
spawn_sh_c cmd s = if given cmd then emit (spawn (text cmd)) s else s

-- `server_request_terminate`
unfoldable pub server_request_terminate : Server → Server
server_request_terminate s =
    if s.display_terminate_requested
    then s
    else emit terminate (record s { display_terminate_requested = true })

unfoldable pub send_close_to : Option ℕ → Server → Server
send_close_to none s = s
send_close_to (some i) s = emit (send_close i) s

-- The value of `strtol` where `end` is not asked for.
abbrev pub value_of : Option (ℤ × Bytes) → ℤ
value_of none = pos 0
value_of (some (v, rest)) = v

unfoldable pub steps_of : Option Bytes → ℤ
unfolding strtol to_int
steps_of c = if given c then to_int (value_of (strtol (text c))) else pos 1

-- A workspace command: without a number from 1 to the count nothing happens.
unfoldable pub with_workspace : Option Bytes → (ℤ → Server) → Server → Server
unfolding strtol
with_workspace c f s =
    let w = value_of (strtol (text c)) in
    if given c && in_workspaces (some w) then f (w -ℤ pos 1) else s

-- The branches of the `switch`; COMP_KEYBIND_NONE is left to the loop.
unfoldable pub run_as : KeybindAction → Option Bytes → Server → Option Server
unfolding spawn_sh_c server_request_terminate send_close_to steps_of with_workspace
run_as no_action c s = some s
run_as quit c s = some (server_request_terminate s)
run_as close c s = some (send_close_to s.focused_toplevel s)
run_as exec c s = some (spawn_sh_c c s)
run_as layout_toggle c s = some (server_toggle_layout s)
run_as layout_tile c s = some (server_set_layout s tile)
run_as layout_stack c s = some (server_set_layout s stack)
run_as layout_scroll c s = some (server_set_layout s scroll)
run_as tile_swap_prev c s = some (server_tile_move_focused_n s (negsuc 0))
run_as tile_swap_next c s = some (server_tile_move_focused_n s (pos 1))
run_as scroll_prev c s = some (server_scroll_move s (negsuc 0))
run_as scroll_next c s = some (server_scroll_move s (pos 1))
run_as tile_to_first c s = server_tile_move_focused_edge s true
run_as tile_to_last c s = server_tile_move_focused_edge s false
run_as tile_move c s = some (server_tile_move_focused_n s (steps_of c))
run_as tile_grid_up c s = some (server_tile_move_focused_grid_vert s (negsuc 0))
run_as tile_grid_down c s = some (server_tile_move_focused_grid_vert s (pos 1))
run_as tile_to_column_top c s = server_tile_move_focused_grid_vert_edge s true
run_as tile_to_column_bottom c s = server_tile_move_focused_grid_vert_edge s false
run_as tile_grid_move c s = server_tile_grid_run_command s c
run_as workspace_goto c s = some (with_workspace c (server_workspace_go s) s)
run_as workspace_next c s = some (server_workspace_relative s (pos 1))
run_as workspace_prev c s = some (server_workspace_relative s (negsuc 0))
run_as workspace_move c s = some (with_workspace c (server_workspace_move_focused s) s)

unfoldable pub run_action : Keybind → Server → Option Server
unfolding run_as
run_action b s = run_as b.action b.command s

abbrev pub is_no_action : KeybindAction → Bool
is_no_action no_action = true
is_no_action _ = false

-- Whether a bind is the one to run: key, modifiers and predicate match, and it has an action.
unfoldable pub bind_applies : Library → (Bytes → Bool) → ℕ → ℕ → Keybind → Bool
unfolding keysym_matches_bind when_ok
bind_applies lib exits_zero mods sym b =
    if not (keysym_matches_bind lib b.keysym sym) || not (b.mods == mods)
    then false
    else if not (when_ok exits_zero b.when_shell)
    then false
    else not (is_no_action b.action)

abbrev pub handled : Option Server → Option (Server × Bool)
handled none = none
handled (some s) = some (s, true)

-- The loop of `comp_config_try_bindings`.
unfoldable pub try_binds :
    Library → (Bytes → Bool) → ℕ → ℕ → List Keybind → Server → Option (Server × Bool)
unfolding bind_applies run_action
try_binds lib exits_zero mods sym [] s = some (s, false)
try_binds lib exits_zero mods sym (b ∷ bs) s = elim (bind_applies lib exits_zero mods sym b) [
  | true ↦ handled (run_action b s)
  | false ↦ try_binds lib exits_zero mods sym bs s
]

abbrev pub no_binds : List Keybind → Bool
no_binds [] = true
no_binds _ = false

-- `comp_config_try_bindings`: the server and whether a bind has run.
unfoldable pub comp_config_try_bindings :
    Library → (Bytes → Bool) → Option Config → Server → Bool → ℕ → ℕ → Option (Server × Bool)
unfolding try_binds filter_mods
comp_config_try_bindings lib exits_zero none s pressed mods sym = some (s, false)
comp_config_try_bindings lib exits_zero (some cfg) s pressed mods sym =
    if not pressed || (no_binds cfg.binds || sym == 0)
    then some (s, false)
    else try_binds lib exits_zero (filter_mods mods) sym cfg.binds (sync_shell_env s)
