-- ===== src/Focus.antt =====
-- src/main.c: keyboard focus, minimizing, and the scroll slot that follows the focus.
use scratch_compositor.Base.{
  ℕ, Bool, true, false, not, ◌&&◌, ◌||◌, List, Option, none, some, ◌==◌, if◌then◌else◌,
}
use scratch_compositor.Base.Int.{pos}
use scratch_compositor.Server.{
  Layout, Toplevel, Output, foreign_refresh, raise_to_top, Server, is_tiling, is_scroll,
  is_grab_move, points_to, toplevel_by_id, modify, emit, clear_focus,
}
use scratch_compositor.Tiling.{
  tile_sorted_views, tile_sorted_index, tile_sorted_views_on_output, toplevel_tile_output,
}
use scratch_compositor.Arrange.{
  set_scroll_slot, server_arrange_toplevels, server_workspace_apply_visibility,
}

-- A NULL pointer, or the window behind one.
unfoldable pub deref : List Toplevel → Option ℕ → Option Toplevel
deref ts none = none
deref ts (some i) = toplevel_by_id ts i

-- `if (idx >= 0) slot = idx`
unfoldable pub set_slot_index : Option ℕ → Output → Server → Server
set_slot_index none out s = s
set_slot_index (some idx) out s = set_scroll_slot out.id s.current_workspace (pos idx) s

-- The slot of the focused window's output becomes the window's index there.
unfoldable pub scroll_sync_view : Toplevel → Option Output → Server → Server
unfolding set_slot_index
scroll_sync_view f none s = s
scroll_sync_view f (some out) s =
    let sub = tile_sorted_views_on_output s (some out.id) (tile_sorted_views s) in
    set_slot_index (tile_sorted_index sub f.id) out s

unfoldable pub scroll_sync_focused : Option Toplevel → Server → Server
unfolding scroll_sync_view
scroll_sync_focused none s = s
scroll_sync_focused (some f) s =
    if not (is_scroll s.layout) || f.tile_float || not f.mapped
    then s
    else scroll_sync_view f (toplevel_tile_output s f) s

-- `scroll_sync_to_focused`
unfoldable pub scroll_sync_to_focused : Server → Server
unfolding scroll_sync_focused
scroll_sync_to_focused s = scroll_sync_focused (deref s.toplevels s.focused_toplevel) s

-- The end of the previous window's activation.
unfoldable pub deactivate : Option Toplevel → Server → Server
deactivate none s = s
deactivate (some prev) s =
    if prev.initialized
    then emit (foreign_refresh prev.id) (modify prev.id (λ t. record t { activated = false }) s)
    else s

abbrev pub is_stack : Layout → Bool
is_stack l = not (is_tiling l)

-- The part of `focus_toplevel` that gives the focus, once the window may have it.
unfoldable pub take_focus : Toplevel → Server → Server
unfolding deactivate
take_focus t s =
    let quiet = deactivate (deref s.toplevels s.focused_toplevel) s in
    let active = modify t.id (λ v. record v { activated = true }) quiet in
    let raised =
      if is_stack s.layout || t.tile_float then emit (raise_to_top t.id) active else active in
    let focused = emit (foreign_refresh t.id) (record raised { focused_toplevel = some t.id }) in
    record (scroll_sync_to_focused focused) { keyboard_focus = some t.id }

-- `focus_toplevel`, for a pointer that is not NULL.
unfoldable pub focus_view : Server → Toplevel → Server
focus_view s t =
    if not t.mapped || not t.initialized
    then s
    else if not (t.workspace == s.current_workspace)
    then s
    else if points_to s.focused_toplevel t.id
    then s
    else take_focus t s

-- `toplevel_set_minimized`
unfoldable pub toplevel_set_minimized : Toplevel → Bool → Server → Server
toplevel_set_minimized view minimized s =
    let set = modify view.id (λ t. record t { minimized = minimized }) s in
    let cleared =
      if minimized && points_to s.focused_toplevel view.id then clear_focus set else set in
    let shown = server_workspace_apply_visibility cleared in
    let arranged =
      if is_tiling s.layout && not (is_grab_move s.grab)
      then server_arrange_toplevels shown
      else shown in
    if (if minimized then view.minimized else not view.minimized)
    then s
    else emit (foreign_refresh view.id) arranged
