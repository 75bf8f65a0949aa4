-- ===== src/Lifecycle.antt =====
-- src/main.c: a window appears, is mapped, is unmapped, goes away.
use scratch_compositor.Base.{
  ℕ, ◌+◌, ◌%◌, ◌^◌, true, false, not, ◌&&◌, [], ◌∷◌, ◌++◌, Option, none, some, ◌==◌, keep,
  if◌then◌else◌,
}
use scratch_compositor.Base.Int.{pos, ◌+ℤ◌, ◌-ℤ◌, div_trunc}
use scratch_compositor.Server.{
  Box, Toplevel, foreign_refresh, raise_to_top, Server, grab_none, is_tiling, is_grab_move,
  points_to, toplevel_by_id, modify, emit, clear_focus,
}
use scratch_compositor.Arrange.{server_arrange_toplevels, server_workspace_apply_visibility}
use scratch_compositor.Focus.{focus_view}
use scratch_compositor.Maximize.{map_box, toplevel_apply_requested_maximize}
use scratch_compositor.Decoration.{toplevel_refresh_tile_props, server_sync_xdg_decorations}

-- The record that `xdg_shell_new_toplevel` fills in, once the generator has been advanced.
unfoldable pub new_view : Server → ℕ → Toplevel
new_view s i = record {
  id = i;
  mapped = false;
  initialized = false;
  app_id = [];
  title = [];
  geo_x = pos 0;
  geo_y = pos 0;
  geo_width = pos 0;
  geo_height = pos 0;
  surface_width = pos 0;
  surface_height = pos 0;
  node_x = pos 0;
  node_y = pos 0;
  node_enabled = true;
  activated = false;
  configured_size = none;
  requested_maximized = false;
  maximized = false;
  sent_maximized = false;
  sent_fullscreen = false;
  decoration = none;
  tile_user_key = s.tile_user_key_gen;
  tile_float = false;
  tile_order = pos 0;
  layout_tgt_x = pos 0;
  layout_tgt_y = pos 0;
  layout_anim_x = pos 0;
  layout_anim_y = pos 0;
  layout_anim_tracked = false;
  workspace = s.current_workspace;
  minimized = false;
  restore_x = pos 0;
  restore_y = pos 0;
  restore_width = pos 0;
  restore_height = pos 0;
  has_restore = false;
}

-- `++tile_user_key_gen`, which wraps round at 32 bits.
unfoldable pub next_tile_user_key : Server → Server
next_tile_user_key s = record s { tile_user_key_gen = (s.tile_user_key_gen + 1) % 2 ^ 32 }

-- `xdg_shell_new_toplevel`: the window goes to the end of the list, on the current workspace.
unfoldable pub xdg_shell_new_toplevel : ℕ → Server → Server
unfolding next_tile_user_key
xdg_shell_new_toplevel i s =
    let next = next_tile_user_key s in
    emit (foreign_refresh i) (record next { toplevels = s.toplevels ++ new_view next i ∷ [] })

-- The end of a grab of the window.
unfoldable pub drop_grab : ℕ → Server → Server
drop_grab i s =
    if points_to s.grabbed_toplevel i
    then record s { grabbed_toplevel = none; grab = grab_none; swallow_left_release = false }
    else s

unfoldable pub rearrange : Server → Server
rearrange s =
    if is_tiling s.layout && not (is_grab_move s.grab) then server_arrange_toplevels s else s

-- `toplevel_unmap`, after wlroots has cleared the surface's `mapped`.
unfoldable pub toplevel_unmap : ℕ → Server → Server
unfolding drop_grab rearrange
toplevel_unmap i s =
    let unmapped = modify i (λ t. record t { mapped = false }) s in
    let cleared =
      if points_to unmapped.focused_toplevel i then clear_focus unmapped else unmapped in
    emit (foreign_refresh i) (rearrange (drop_grab i cleared))

-- `toplevel_destroy`: the window leaves the list, and no pointer to it stays.
unfoldable pub toplevel_destroy : ℕ → Server → Server
unfolding drop_grab rearrange
toplevel_destroy i s =
    let unlisted = record s { toplevels = keep (λ (t : Toplevel). not (t.id == i)) s.toplevels } in
    let cleared =
      if points_to unlisted.focused_toplevel i
      then record unlisted { focused_toplevel = none }
      else unlisted in
    rearrange (drop_grab i cleared)

abbrev pub center_in : Box → Toplevel → Toplevel
center_in b t = record t {
  node_x = b.x +ℤ div_trunc (b.width -ℤ t.geo_width) 2;
  node_y = b.y +ℤ div_trunc (b.height -ℤ t.geo_height) 2;
}

unfoldable pub focus_mapped : Option Toplevel → Server → Server
focus_mapped none s = s
focus_mapped (some t) s = focus_view s t

-- The rest of `toplevel_map`, on the window as its rules have set it.
unfoldable pub place_mapped : Toplevel → Server → Server
unfolding focus_mapped
place_mapped view s =
    let centered = emit (raise_to_top view.id) (modify view.id (center_in (map_box s)) s) in
    let placed = if is_tiling s.layout && not view.tile_float then s else centered in
    let focused = focus_mapped (toplevel_by_id placed.toplevels view.id) placed in
    let arranged = if is_tiling s.layout then server_arrange_toplevels focused else focused in
    server_sync_xdg_decorations (server_workspace_apply_visibility arranged)

-- What `toplevel_map` resets of its window.
abbrev pub reset_mapped : Toplevel → Toplevel
reset_mapped t = record t {
  mapped = true;
  minimized = false;
  has_restore = false;
  restore_width = pos 0;
  restore_height = pos 0;
}

-- `toplevel_map`, after wlroots has set the surface's `mapped`.
unfoldable pub toplevel_map : ℕ → Server → Server
unfolding place_mapped
toplevel_map i s =
    let mapped = modify i reset_mapped s in
    let propped =
      modify i (toplevel_refresh_tile_props s.config) (emit (foreign_refresh i) mapped) in
    elim (toplevel_by_id propped.toplevels i) [
      | none ↦ s
      | some view ↦
          let sized =
            if view.requested_maximized
            then toplevel_apply_requested_maximize view propped
            else propped in
          place_mapped view sized
    ]
