-- ===== src/Invariant/Bindings.antt =====
-- About `comp_config_try_bindings` and the invariant.
use scratch_compositor.Base.{
  ℕ, Bool, true, false, not, ◌&&◌, ◌||◌, Option, none, some, ◌==◌, if_cases, List, [], ◌∷◌,
}
use scratch_compositor.Base.Int.{ℤ, pos, negsuc, ◌-ℤ◌}
use scratch_compositor.Base.Text.{Bytes, strtol}
use scratch_compositor.Config.{
  Config, Keybind, KeybindAction, no_action, quit, close, exec, layout_toggle, layout_tile,
  layout_stack, layout_scroll, tile_swap_prev, tile_swap_next, scroll_prev, scroll_next,
  tile_to_first, tile_to_last, tile_move, tile_grid_up, tile_grid_down, tile_to_column_top,
  tile_to_column_bottom, tile_grid_move, workspace_goto, workspace_next, workspace_prev,
  workspace_move,
}
use scratch_compositor.Config.Library.{Library}
use scratch_compositor.Config.Flush.{in_workspaces, given, text}
use scratch_compositor.Server.{Server, stack, tile, scroll, send_close, sync_shell_env}
use scratch_compositor.Workspace.{server_workspace_go, server_workspace_move_focused}
use scratch_compositor.Bindings.{
  bind_applies, run_action, run_as, handled, try_binds, filter_mods, no_binds,
  comp_config_try_bindings, server_request_terminate, send_close_to, with_workspace, steps_of,
  value_of,
}
use scratch_compositor.Frame.{Frame-emit}
use scratch_compositor.Invariant.Defs.{Inv, Inv-Frame}
use scratch_compositor.Invariant.Layout.{
  server_set_layout-Inv, server_toggle_layout-Inv, spawn_sh_c-Frame,
}
use scratch_compositor.Invariant.Workspace.{
  server_workspace_go-Inv, server_workspace_relative-Inv, server_workspace_move_focused-Inv,
  sync_shell_env-Frame,
}
use scratch_compositor.Invariant.Move.{
  OutcomeInv, server_tile_move_focused_n-Inv, server_tile_move_focused_grid_vert-Inv,
  server_tile_move_focused_edge-Inv, server_tile_move_focused_grid_vert_edge-Inv,
  server_scroll_move-Inv,
}
use scratch_compositor.Invariant.Commands.{server_tile_grid_run_command-Inv}

pub server_request_terminate-Inv : (s : Server) → Inv s → Inv (server_request_terminate s)
unfolding server_request_terminate
server_request_terminate-Inv s v =
    if_cases Inv s.display_terminate_requested s _ (λ e. v)
      (λ e. record { wf = v.wf; focus = v.focus })

send_close_to-Inv : (f : Option ℕ) (s : Server) → Inv s → Inv (send_close_to f s)
unfolding send_close_to
send_close_to-Inv none s v = v
send_close_to-Inv (some i) s v = Inv-Frame (Frame-emit (send_close i) s) v

with_workspace-Inv :
    (c : Option Bytes) (f : ℤ → Server) (s : Server)
    → ((z : ℤ) → Inv (f z))
    → Inv s
    → Inv (with_workspace c f s)
unfolding with_workspace
with_workspace-Inv c f s h v =
    let w = value_of (strtol (text c)) in
    if_cases Inv (given c && in_workspaces (some w)) (f (w -ℤ pos 1)) s (λ e. h (w -ℤ pos 1))
      (λ e. v)

-- Every action keeps the invariant.
run_as-Inv : (a : KeybindAction) (c : Option Bytes) (s : Server) → Inv s → OutcomeInv (run_as a c s)
unfolding run_as
run_as-Inv no_action c s v = v
run_as-Inv quit c s v = server_request_terminate-Inv s v
run_as-Inv close c s v = send_close_to-Inv s.focused_toplevel s v
run_as-Inv exec c s v = Inv-Frame (spawn_sh_c-Frame c s) v
run_as-Inv layout_toggle c s v = server_toggle_layout-Inv s v
run_as-Inv layout_tile c s v = server_set_layout-Inv s tile v
run_as-Inv layout_stack c s v = server_set_layout-Inv s stack v
run_as-Inv layout_scroll c s v = server_set_layout-Inv s scroll v
run_as-Inv tile_swap_prev c s v = server_tile_move_focused_n-Inv s (negsuc 0) v
run_as-Inv tile_swap_next c s v = server_tile_move_focused_n-Inv s (pos 1) v
run_as-Inv scroll_prev c s v = server_scroll_move-Inv s (negsuc 0) v
run_as-Inv scroll_next c s v = server_scroll_move-Inv s (pos 1) v
run_as-Inv tile_to_first c s v = server_tile_move_focused_edge-Inv s true v
run_as-Inv tile_to_last c s v = server_tile_move_focused_edge-Inv s false v
run_as-Inv tile_move c s v = server_tile_move_focused_n-Inv s (steps_of c) v
run_as-Inv tile_grid_up c s v = server_tile_move_focused_grid_vert-Inv s (negsuc 0) v
run_as-Inv tile_grid_down c s v = server_tile_move_focused_grid_vert-Inv s (pos 1) v
run_as-Inv tile_to_column_top c s v = server_tile_move_focused_grid_vert_edge-Inv s true v
run_as-Inv tile_to_column_bottom c s v = server_tile_move_focused_grid_vert_edge-Inv s false v
run_as-Inv tile_grid_move c s v = server_tile_grid_run_command-Inv s c v
run_as-Inv workspace_goto c s v =
    with_workspace-Inv c (server_workspace_go s) s (λ z. server_workspace_go-Inv s z v) v
run_as-Inv workspace_next c s v = server_workspace_relative-Inv s (pos 1) v
run_as-Inv workspace_prev c s v = server_workspace_relative-Inv s (negsuc 0) v
run_as-Inv workspace_move c s v =
    with_workspace-Inv c (server_workspace_move_focused s) s
      (λ z. server_workspace_move_focused-Inv s z v) v

-- A key press has a result, and the invariant holds of it.
abbrev pub PressInv : Option (Server × Bool) → Type 0
PressInv none = ⊥
PressInv (some (s, b)) = Inv s

handled-Inv : (o : Option Server) → OutcomeInv o → PressInv (handled o)
handled-Inv none h = h
handled-Inv (some s) h = h

try_binds-Inv :
    (lib : Library) (exits_zero : Bytes → Bool) (mods sym : ℕ) (bs : List Keybind) (s : Server)
    → Inv s
    → PressInv (try_binds lib exits_zero mods sym bs s)
unfolding try_binds run_action
try_binds-Inv lib exits_zero mods sym [] s v = v
try_binds-Inv lib exits_zero mods sym (b ∷ bs) s v =
    elim (bind_applies lib exits_zero mods sym b)
      as (λ c. PressInv (elim c [
        | true ↦ handled (run_action b s)
        | false ↦ try_binds lib exits_zero mods sym bs s
      ])) [
        | true ↦ handled-Inv (run_as b.action b.command s) (run_as-Inv b.action b.command s v)
        | false ↦ try_binds-Inv lib exits_zero mods sym bs s v
      ]

-- Whatever the configuration, the libraries, the shell and the key, a key press ends (every loop has
-- enough fuel), in a state in which the invariant of windows and focus holds.
pub comp_config_try_bindings-Inv :
    (lib : Library) (exits_zero : Bytes → Bool) (cfg : Option Config) (s : Server) (pressed : Bool)
    (mods sym : ℕ)
    → Inv s
    → PressInv (comp_config_try_bindings lib exits_zero cfg s pressed mods sym)
unfolding comp_config_try_bindings
comp_config_try_bindings-Inv lib exits_zero none s pressed mods sym v = v
comp_config_try_bindings-Inv lib exits_zero (some cfg) s pressed mods sym v =
    if_cases PressInv (not pressed || (no_binds cfg.binds || sym == 0)) (some (s, false)) _ (λ e. v)
      (λ e.
        try_binds-Inv lib exits_zero (filter_mods mods) sym cfg.binds (sync_shell_env s)
          (Inv-Frame (sync_shell_env-Frame s) v))
