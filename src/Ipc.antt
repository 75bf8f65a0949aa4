-- ===== src/Ipc.antt =====
-- src/main.c, the commands of the IPC socket: `ipc_process_line` and `server_reload_config`. A line
-- is the text up to its final zero. `none` stands for a loop out of fuel in a move to an edge.
use scratch_compositor.Base.{Bool, true, false, ◌||◌, [], ◌∷◌, Option, none, some, if◌then◌else◌}
use scratch_compositor.Base.Int.{ℤ, pos, negsuc, ◌-ℤ◌, to_int}
use scratch_compositor.Base.Text.{
  Bytes, codes, str_eq, is_named, strip_prefix, skip_while, trim, strtol_whole,
}
use scratch_compositor.Config.{Config}
use scratch_compositor.Config.Library.{Library}
use scratch_compositor.Config.Flush.{in_workspaces}
use scratch_compositor.Config.Grid.{is_empty}
use scratch_compositor.Config.Load.{comp_config_load}
use scratch_compositor.Server.{
  Server, stack, tile, scroll, apply_input_maps, is_tiling, emit, sync_shell_env,
}
use scratch_compositor.Arrange.{server_arrange_toplevels}
use scratch_compositor.Decoration.{server_refresh_all_tile_props, server_sync_xdg_decorations}
use scratch_compositor.Move.{
  server_tile_move_focused_n, server_tile_move_focused_edge, server_scroll_move,
}
use scratch_compositor.Switch.{server_set_layout, server_toggle_layout}
use scratch_compositor.Workspace.{
  server_workspace_go, server_workspace_relative, server_workspace_move_focused,
}
use scratch_compositor.Command.{is_blank, is_blank_or_newline, server_tile_grid_run_command}
use scratch_compositor.Bindings.{spawn_sh_c}
use Prim.Native.String.{String}

-- What the new configuration changes.
unfoldable pub adopt_config : Config → Server → Server
adopt_config cfg s =
    let here = record s { config = some cfg } in
    let laid =
      if is_tiling here.layout
      then server_arrange_toplevels (server_refresh_all_tile_props here)
      else here in
    let done = sync_shell_env (server_sync_xdg_decorations laid) in
    emit apply_input_maps (spawn_sh_c cfg.hook_reload done)

unfoldable pub adopt_loaded : Option Config → Server → Server × Bool
unfolding adopt_config
adopt_loaded none s = (s, false)
adopt_loaded (some cfg) s = (adopt_config cfg s, true)

-- `server_reload_config`. The path is the remembered or the default one: `none` where there is
-- neither, else the contents of the file, if it opens.
unfoldable pub server_reload_config : Library → Option (Option Bytes) → Server → Server × Bool
unfolding adopt_loaded
server_reload_config lib none s = (s, false)
server_reload_config lib (some file) s = adopt_loaded (comp_config_load lib file) s

-- One of the tests `!strncmp(line, "...", n)`, with what to do with the rest of the line.
abbrev pub on_prefix {ℓ} : {A : Type ℓ} → String → Bytes → (Bytes → A) → A → A
on_prefix p line f other = elim (strip_prefix (codes p) line) [ none ↦ other | some rest ↦ f rest ]

abbrev pub skip_blanks : Bytes → Bytes
skip_blanks = skip_while is_blank

abbrev pub is_word : Bytes → String → Bool
is_word rest w = str_eq rest (codes w)

unfoldable pub ipc_layout : Bytes → Server → Server
unfolding str_eq skip_while
ipc_layout rest s =
    let w = skip_blanks rest in
    if is_word w "toggle"
    then server_toggle_layout s
    else if is_word w "tile"
    then server_set_layout s tile
    else if is_word w "scroll"
    then server_set_layout s scroll
    else if is_word w "stack"
    then server_set_layout s stack
    else s

-- A number from 1 to the count of workspaces that is the whole text.
unfoldable pub go_to_number : Option ℤ → (ℤ → Server) → Server → Server
go_to_number none f s = s
go_to_number (some v) f s = if in_workspaces (some v) then f (v -ℤ pos 1) else s

unfoldable pub ipc_workspace_word : Bytes → Server → Server
unfolding str_eq go_to_number strtol_whole
ipc_workspace_word w s =
    if is_word w "next"
    then server_workspace_relative s (pos 1)
    else if is_word w "prev"
    then server_workspace_relative s (negsuc 0)
    else go_to_number (strtol_whole w) (server_workspace_go s) s

unfoldable pub ipc_workspace : Bytes → Server → Server
unfolding strip_prefix skip_while go_to_number strtol_whole ipc_workspace_word
ipc_workspace rest s =
    let w = skip_blanks rest in
    on_prefix "move " w
      (λ n. go_to_number (strtol_whole (skip_blanks n)) (server_workspace_move_focused s) s)
      (ipc_workspace_word w s)

unfoldable pub tile_move_number : Option ℤ → Server → Server
unfolding to_int
tile_move_number none s = s
tile_move_number (some v) s = server_tile_move_focused_n s (to_int v)

unfoldable pub ipc_tile_move : Bytes → Server → Option Server
unfolding str_eq skip_while tile_move_number strtol_whole
ipc_tile_move rest s =
    let w = skip_blanks rest in
    if is_word w "prev"
    then some (server_tile_move_focused_n s (negsuc 0))
    else if is_word w "next"
    then some (server_tile_move_focused_n s (pos 1))
    else if is_word w "first"
    then server_tile_move_focused_edge s true
    else if is_word w "last"
    then server_tile_move_focused_edge s false
    else some (tile_move_number (strtol_whole w) s)

unfoldable pub scroll_number : Option ℤ → Server → Server
unfolding to_int
scroll_number none s = s
scroll_number (some v) s = server_scroll_move s (to_int v)

unfoldable pub ipc_scroll_word : Bytes → Server → Server
unfolding str_eq scroll_number strtol_whole
ipc_scroll_word w s =
    if is_word w "prev" || is_word w "left"
    then server_scroll_move s (negsuc 0)
    else if is_word w "next" || is_word w "right"
    then server_scroll_move s (pos 1)
    else scroll_number (strtol_whole w) s

unfoldable pub ipc_scroll : Bytes → Server → Server
unfolding strip_prefix skip_while ipc_scroll_word
ipc_scroll rest s =
    let w = skip_blanks rest in
    on_prefix "move " w (λ n. ipc_scroll_word (skip_blanks n) s) (ipc_scroll_word w s)

-- The command of a trimmed line.
unfoldable pub ipc_command : Library → Option (Option Bytes) → Bytes → Server → Option Server
unfolding strip_prefix skip_while ipc_layout ipc_workspace ipc_tile_move ipc_scroll is_named
    server_reload_config
ipc_command lib source line s =
    on_prefix "layout " line (λ r. some (ipc_layout r s))
      (on_prefix "workspace " line (λ r. some (ipc_workspace r s))
        (on_prefix "tile move " line (λ r. ipc_tile_move r s)
          (on_prefix "tile grid " line (λ r. server_tile_grid_run_command s (some (skip_blanks r)))
            (on_prefix "scroll " line (λ r. some (ipc_scroll r s))
              (if is_named line ("reload config" ∷ "reload" ∷ [])
                then some (server_reload_config lib source s).0
                else some s)))))

-- `ipc_process_line`
unfoldable pub ipc_process_line : Library → Option (Option Bytes) → Server → Bytes → Option Server
unfolding ipc_command trim is_blank_or_newline
ipc_process_line lib source s line =
    let l = trim is_blank_or_newline line in
    if is_empty l then some s else ipc_command lib source l s
