-- ===== src/Pointer/Drag.antt =====
-- src/main.c: `process_cursor_motion` and `server_cursor_button`.
use scratch_compositor.Base.{
  ℕ, Bool, true, false, not, ◌&&◌, Option, none, some, ◌==◌, if◌then◌else◌,
}
use scratch_compositor.Base.Int.{ℤ, pos, ◌+ℤ◌, ◌-ℤ◌, ltb_ℤ, div_trunc}
use scratch_compositor.Base.Text.{Bytes, codes}
use scratch_compositor.Server.{
  Box, Edges, no_edges, Grab, grab_none, grab_move, grab_resize, Toplevel, Server, is_tiling,
  is_grab_move, modify, emit, set_xcursor, pointer_enter, pointer_clear_focus, pointer_button,
  layer_keyboard_click,
}
use scratch_compositor.Tiling.{tile_swap_sort_keys}
use scratch_compositor.Arrange.{server_arrange_toplevels}
use scratch_compositor.Focus.{deref, focus_view}
use scratch_compositor.Maximize.{place_at}
use scratch_compositor.Pointer.{
  begin_move, toplevel_can_direct_resize, begin_resize, is_no_edges, toplevel_get_hit_box,
  point_in_box, edges_at_cursor, toplevel_at, toplevel_near_cursor_resize_edge,
  cursor_name_for_resize_edges,
}

-- `(int)dx` and `(int)dy`: whole pixels since the grab began, towards zero.
abbrev pub drag_x : Server → ℤ
drag_x s = div_trunc (s.wlroots.cursor_x -ℤ s.grab_cursor_x) 256

abbrev pub drag_y : Server → ℤ
drag_y s = div_trunc (s.wlroots.cursor_y -ℤ s.grab_cursor_y) 256

-- One axis of a resize: position and size after a drag by d of the near edge (left or top), of the
-- far edge, or of neither; a size below 1 is raised to 1, and the near edge gives way.
unfoldable pub resized_axis : Bool → Bool → ℤ → ℤ → ℤ → ℤ × ℤ
resized_axis near far from size d =
    let x = if near then from +ℤ d else from in
    let w = if near then size -ℤ d else if far then size +ℤ d else size in
    if ltb_ℤ w (pos 1) then (if near then x +ℤ (w -ℤ pos 1) else x, pos 1) else (x, w)

-- The box of a resize grab.
unfoldable pub resized_box : Edges → Box → ℤ → ℤ → Box
unfolding resized_axis
resized_box e b dx dy =
    let h = resized_axis e.left e.right b.x b.width dx in
    let v = resized_axis e.top e.bottom b.y b.height dy in
    record { x = h.0; y = v.0; width = h.1; height = v.1 }

-- The geometry at the start of the grab.
abbrev pub grab_box : Server → Box
grab_box s = record {
  x = s.grab_view_x;
  y = s.grab_view_y;
  width = s.grab_view_width;
  height = s.grab_view_height;
}

abbrev pub resize_to : Box → Toplevel → Toplevel
resize_to b t = record (place_at b.x b.y t) { configured_size = some (b.width, b.height) }

-- The first part of `process_cursor_motion`: what the grab does to its window.
unfoldable pub drag_view : Grab → Option ℕ → Server → Server
unfolding resized_box
drag_view grab_none v s = s
drag_view _ none s = s
drag_view grab_move (some i) s =
    modify i (place_at (s.grab_view_x +ℤ drag_x s) (s.grab_view_y +ℤ drag_y s)) s
drag_view grab_resize (some i) s =
    modify i (resize_to (resized_box s.resize_edges (grab_box s) (drag_x s) (drag_y s))) s

abbrev pub is_grab_resize : Grab → Bool
is_grab_resize grab_resize = true
is_grab_resize _ = false

abbrev pub is_grab_none : Grab → Bool
is_grab_none grab_none = true
is_grab_none _ = false

abbrev pub show_cursor : Option Bytes → Server → Server
show_cursor none s = s
show_cursor (some name) s = emit (set_xcursor name) s

-- Over no surface: a resize cursor near a window's edge, nothing inside its box, and the default
-- cursor elsewhere.
unfoldable pub point_at_edge : Option Toplevel → Server → Server
point_at_edge none s = emit pointer_clear_focus (emit (set_xcursor (codes "default")) s)
point_at_edge (some t) s =
    let inside : Bool = elim (toplevel_get_hit_box t) [
      | none ↦ false
      | some b ↦ point_in_box b s.wlroots.cursor_x s.wlroots.cursor_y
    ] in
    if not (toplevel_can_direct_resize s.layout t)
    then emit pointer_clear_focus (emit (set_xcursor (codes "default")) s)
    else if inside
    then s
    else emit pointer_clear_focus
        (show_cursor (cursor_name_for_resize_edges (edges_at_cursor s t)) s)

unfoldable pub point_at : Option ℕ → Server → Server
unfolding point_at_edge
point_at (some owner) s = emit (pointer_enter owner) s
point_at none s = point_at_edge (toplevel_near_cursor_resize_edge none s) s

-- `process_cursor_motion`, given the owner of the surface at the cursor in a state.
unfoldable pub process_cursor_motion : (Server → Option ℕ) → Server → Server
unfolding drag_view point_at
process_cursor_motion owner s =
    let dragged = drag_view s.grab s.grabbed_toplevel s in
    if s.display_terminate_requested
    then s
    else if is_grab_resize s.grab
    then emit pointer_clear_focus
        (show_cursor (cursor_name_for_resize_edges s.resize_edges) dragged)
    else point_at (owner dragged) dragged

-- The exchange of sort keys at the end of a move, with the window under the cursor.
unfoldable pub swap_dropped : Option Toplevel → Toplevel → Server → Server
swap_dropped none dragged s = s
swap_dropped (some drop) dragged s =
    if not (drop.id == dragged.id)
      && (not dragged.tile_float && (not drop.tile_float && dragged.workspace == drop.workspace))
    then tile_swap_sort_keys dragged drop s
    else s

-- A tracked animation goes on from where the window was dropped.
abbrev pub animate_from_drop : Toplevel → Toplevel
animate_from_drop t =
    if t.layout_anim_tracked
    then record t { layout_anim_x = t.node_x; layout_anim_y = t.node_y }
    else t

unfoldable pub drop_view : (Server → Option ℕ) → Option Toplevel → Server → Server
unfolding swap_dropped
drop_view owner none s = s
drop_view owner (some dragged) s =
    server_arrange_toplevels
      (modify dragged.id animate_from_drop (swap_dropped (toplevel_at (owner s) s) dragged s))

abbrev pub end_grab : Server → Server
end_grab s = record s { grab = grab_none; grabbed_toplevel = none; resize_edges = no_edges }

-- The release of a button during a grab.
unfoldable pub release_grab : (Server → Option ℕ) → Bool → Server → Server
unfolding drop_view process_cursor_motion
release_grab owner is_left s =
    let ended = end_grab s in
    let dropped =
      if is_grab_move s.grab && is_tiling s.layout
      then drop_view owner (deref s.toplevels s.grabbed_toplevel) ended
      else ended in
    if is_left && s.swallow_left_release
    then process_cursor_motion owner (record dropped { swallow_left_release = false })
    else process_cursor_motion owner (emit pointer_button dropped)

-- The press of the left button that no grab takes: the window under the cursor gets the focus, or
-- else a layer surface may (`layer_surface_try_keyboard_focus_click`).
unfoldable pub press_focus : Option Toplevel → Server → Server
press_focus none s = emit layer_keyboard_click s
press_focus (some t) s = focus_view s t

unfoldable pub press_edge : (Server → Option ℕ) → Option Toplevel → Server → Server
unfolding press_focus
press_edge owner none s = emit pointer_button (press_focus (toplevel_at (owner s) s) s)
press_edge owner (some t) s =
    if toplevel_can_direct_resize s.layout t && not (is_no_edges (edges_at_cursor s t))
    then record (begin_resize t (edges_at_cursor s t) (focus_view s t)) {
      swallow_left_release = true;
    }
    else emit pointer_button (press_focus (toplevel_at (owner s) s) s)

unfoldable pub press_logo : (Server → Option ℕ) → Bool → Option Toplevel → Server → Server
unfolding press_edge
press_logo owner true (some t) s = focus_view (begin_move t true s) t
press_logo owner _ _ s = press_edge owner (toplevel_near_cursor_resize_edge (owner s) s) s

-- `server_cursor_button`, given whether the button is pressed, whether it is the left one, and
-- whether the logo modifier is held.
unfoldable pub server_cursor_button : (Server → Option ℕ) → Bool → Bool → Bool → Server → Server
unfolding release_grab press_logo
server_cursor_button owner pressed is_left logo s =
    if s.display_terminate_requested
    then s
    else if not pressed && not (is_grab_none s.grab)
    then release_grab owner is_left s
    else if pressed && is_left
    then press_logo owner logo (toplevel_at (owner s) s) s
    else emit pointer_button s
