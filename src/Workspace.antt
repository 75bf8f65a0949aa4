-- ===== src/Workspace.antt =====
-- src/main.c: switching between the workspaces and moving the focused window to another.
pub mod Index
use scratch_compositor.Base.{
  ℕ, ◌-◌, ◌+◌, ◌<◌, ◌%◌, Bool, true, false, not, ◌&&◌, ◌||◌, List, [], ◌∷◌, Option, none, some,
  ◌==◌, ltb, find, if◌then◌else◌,
}
use scratch_compositor.Base.Int.{ℤ, pos, pos_part, ◌+ℤ◌, ◌==ℤ◌, ltb_ℤ, mod_trunc}
use scratch_compositor.Config.{workspace_count}
use scratch_compositor.Server.{
  Toplevel, Event, foreign_refresh, workspace_notify, Server, is_tiling, toplevel_by_id, modify,
  for_toplevels, emit, clear_focus, sync_shell_env,
}
use scratch_compositor.Arrange.{untrack, server_workspace_apply_visibility, layer_shell_arrange}
use scratch_compositor.Focus.{deref, focus_view}
use scratch_compositor.Decoration.{server_sync_xdg_decorations}

-- The loop of `foreign_toplevel_sync_all`.
unfoldable pub refresh_all : List Toplevel → Server → Server
refresh_all [] s = s
refresh_all (t ∷ ts) s = refresh_all ts (emit (foreign_refresh t.id) s)

-- `foreign_toplevel_sync_all`
unfoldable pub foreign_toplevel_sync_all : Server → Server
unfolding refresh_all
foreign_toplevel_sync_all s = refresh_all s.toplevels s

-- The clamp of `server_workspace_go`.
unfoldable pub clamp_workspace : ℤ → ℕ
clamp_workspace idx =
    let raised = if ltb_ℤ idx (pos 0) then pos 0 else idx in
    pos_part (if ltb_ℤ raised (pos workspace_count) then raised else pos (workspace_count - 1))

-- A focused window of another workspace loses the focus.
unfoldable pub drop_stray_focus : Option Toplevel → Server → Server
drop_stray_focus none s = s
drop_stray_focus (some f) s = if not (f.workspace == s.current_workspace) then clear_focus s else s

-- The first window of the workspace that can be shown and focused.
unfoldable pub pick_focus : Server → Option Toplevel
pick_focus s =
    find
      (λ t. t.workspace == s.current_workspace && (t.mapped && (t.initialized && not t.minimized)))
      s.toplevels

unfoldable pub focus_picked : Option Toplevel → Server → Server
focus_picked none s = s
focus_picked (some t) s = focus_view s t

-- What `server_workspace_go` does to reach a workspace that is not the current one.
unfoldable pub enter_workspace : ℕ → Server → Server
unfolding drop_stray_focus focus_picked
enter_workspace idx s =
    let here = for_toplevels untrack (record s { current_workspace = idx }) in
    let cleared = drop_stray_focus (deref here.toplevels here.focused_toplevel) here in
    let focused = focus_picked (pick_focus cleared) cleared in
    let shown = server_workspace_apply_visibility focused in
    let laid = if is_tiling shown.layout then layer_shell_arrange shown else shown in
    foreign_toplevel_sync_all (emit workspace_notify (sync_shell_env laid))

-- `server_workspace_go`
unfoldable pub server_workspace_go : Server → ℤ → Server
server_workspace_go s idx =
    let target = clamp_workspace idx in
    if target == s.current_workspace then s else enter_workspace target s

-- The index that `server_workspace_relative` computes: C's remainder, raised if it is negative.
unfoldable pub relative_index : ℕ → ℤ → ℤ
relative_index current delta =
    let idx = mod_trunc (pos current +ℤ delta) workspace_count in
    if ltb_ℤ idx (pos 0) then idx +ℤ pos workspace_count else idx

-- `server_workspace_relative`
unfoldable pub server_workspace_relative : Server → ℤ → Server
server_workspace_relative s delta =
    if delta ==ℤ pos 0 then s else server_workspace_go s (relative_index s.current_workspace delta)

-- The window that `server_workspace_move_focused` hands the focus to. Unlike `pick_focus` it asks
-- neither for an initialized window nor for one that is not minimized.
unfoldable pub pick_other : ℕ → Server → Option Toplevel
pick_other f s =
    find (λ t. not (t.id == f) && (t.workspace == s.current_workspace && t.mapped)) s.toplevels

unfoldable pub hand_over_focus : Option Toplevel → Server → Server
hand_over_focus none s = clear_focus s
hand_over_focus (some t) s = focus_view s t

-- What `server_workspace_move_focused` does for a window that moves.
unfoldable pub move_view : Toplevel → ℕ → Server → Server
unfolding hand_over_focus
move_view f target s =
    let moved = modify f.id (λ t. record t { workspace = target; layout_anim_tracked = false }) s in
    let focused =
      if target == s.current_workspace
      then moved
      else hand_over_focus (pick_other f.id moved) moved in
    let shown = server_workspace_apply_visibility focused in
    let laid = if is_tiling shown.layout then layer_shell_arrange shown else shown in
    foreign_toplevel_sync_all (server_sync_xdg_decorations (sync_shell_env laid))

unfoldable pub move_focused_view : Option Toplevel → ℤ → Server → Server
move_focused_view none target s = s
move_focused_view (some f) target s =
    if not f.mapped
    then s
    else if ltb_ℤ target (pos 0)
        || (not (ltb_ℤ target (pos workspace_count)) || pos f.workspace ==ℤ target)
    then s
    else move_view f (pos_part target) s

-- `server_workspace_move_focused`
unfoldable pub server_workspace_move_focused : Server → ℤ → Server
unfolding move_focused_view
server_workspace_move_focused s target =
    move_focused_view (deref s.toplevels s.focused_toplevel) target s
