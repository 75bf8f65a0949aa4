-- ===== src/Pointer.antt =====
-- src/main.c: the pointer: moving and resizing windows, the resize edges around them, and buttons.
-- What the scene finds at the cursor is a parameter: the window, or other object, that owns the
-- surface there.
pub mod Drag
pub mod Touch
pub mod Resize
use scratch_compositor.Base.{
  ℕ, Bool, true, false, not, ◌&&◌, ◌||◌, List, [], ◌∷◌, Option, none, some, ◌==◌, find,
  if◌then◌else◌,
}
use scratch_compositor.Base.Int.{ℤ, pos, pos_part, ◌+ℤ◌, ◌-ℤ◌, ◌*ℤ◌, ltb_ℤ, div_trunc}
use scratch_compositor.Base.Text.{Bytes, codes}
use scratch_compositor.Server.{
  Box, Edges, no_edges, Layout, Toplevel, Server, Grab, grab_none, grab_move, grab_resize,
  is_tiling, is_grab_move, toplevel_by_id, modify, emit, set_xcursor, pointer_enter,
  pointer_clear_focus, pointer_button, layer_keyboard_click, points_to,
}
use scratch_compositor.Tiling.{tile_swap_sort_keys}
use scratch_compositor.Arrange.{server_arrange_toplevels}
use scratch_compositor.Focus.{deref, focus_view}
use scratch_compositor.Maximize.{place_at, not_positive}
use scratch_compositor.Requests.{with_view}

-- `begin_move`
unfoldable pub begin_move : Toplevel → Bool → Server → Server
begin_move view swallow s = record s {
  grab = grab_move;
  grabbed_toplevel = some view.id;
  swallow_left_release = swallow;
  grab_cursor_x = s.wlroots.cursor_x;
  grab_cursor_y = s.wlroots.cursor_y;
  grab_view_x = view.node_x;
  grab_view_y = view.node_y;
}

-- `toplevel_request_move`
unfoldable pub toplevel_request_move : ℕ → Server → Server
unfolding with_view begin_move
toplevel_request_move i = with_view i (λ view s. begin_move view false s)

-- `toplevel_can_direct_resize`
unfoldable pub toplevel_can_direct_resize : Layout → Toplevel → Bool
toplevel_can_direct_resize layout t =
    if not t.mapped then false else not (is_tiling layout && not t.tile_float)

-- `begin_resize`
unfoldable pub begin_resize : Toplevel → Edges → Server → Server
begin_resize view edges s = if not view.mapped then s else record s {
  grab = grab_resize;
  grabbed_toplevel = some view.id;
  grab_cursor_x = s.wlroots.cursor_x;
  grab_cursor_y = s.wlroots.cursor_y;
  resize_edges = edges;
  grab_view_x = view.node_x;
  grab_view_y = view.node_y;
  grab_view_width = view.geo_width;
  grab_view_height = view.geo_height;
  swallow_left_release = false;
}

-- `!edges`
abbrev pub is_no_edges : Edges → Bool
is_no_edges e = not (e.top || (e.bottom || (e.left || e.right)))

-- `toplevel_request_resize`
unfoldable pub toplevel_request_resize : ℕ → Edges → Server → Server
unfolding with_view begin_resize
toplevel_request_resize i edges = with_view i (λ view s.
    if not (toplevel_can_direct_resize s.layout view) || is_no_edges edges
    then s
    else begin_resize view edges (focus_view s view))

-- `toplevel_get_hit_box`
unfoldable pub toplevel_get_hit_box : Toplevel → Option Box
toplevel_get_hit_box t =
    let sized = ltb_ℤ (pos 0) t.surface_width && ltb_ℤ (pos 0) t.surface_height in
    let box : Box =
      (if sized
        then record {
          x = t.node_x;
          y = t.node_y;
          width = t.surface_width;
          height = t.surface_height;
        }
        else record {
          x = t.node_x +ℤ t.geo_x;
          y = t.node_y +ℤ t.geo_y;
          width = t.geo_width;
          height = t.geo_height;
        }) in
    if not_positive box.width || not_positive box.height then none else some box

-- The points of the cursor lie on a grid of 1/256 of a pixel.
abbrev pub in_points : ℤ → ℤ
in_points z = z *ℤ pos 256

abbrev pub leb_ℤ : ℤ → ℤ → Bool
leb_ℤ a b = not (ltb_ℤ b a)

-- `point_in_box`
unfoldable pub point_in_box : Box → ℤ → ℤ → Bool
point_in_box b x y =
    (leb_ℤ (in_points b.x) x && ltb_ℤ x (in_points (b.x +ℤ b.width)))
    && (leb_ℤ (in_points b.y) y && ltb_ℤ y (in_points (b.y +ℤ b.height)))

-- `toplevel_resize_edges_at`, on the hit box: a border of one pixel around it.
unfoldable pub edges_around : Box → ℤ → ℤ → Edges
edges_around b cx cy =
    let border = in_points (pos 1) in
    let left = in_points b.x in
    let top = in_points b.y in
    let right = left +ℤ in_points b.width in
    let bottom = top +ℤ in_points b.height in
    let within_y = leb_ℤ (top -ℤ border) cy && leb_ℤ cy (bottom +ℤ border) in
    let within_x = leb_ℤ (left -ℤ border) cx && leb_ℤ cx (right +ℤ border) in
    let on_left = within_y && (leb_ℤ (left -ℤ border) cx && ltb_ℤ cx left) in
    let on_top = within_x && (leb_ℤ (top -ℤ border) cy && ltb_ℤ cy top) in
    record {
      top = on_top;
      bottom = not on_top && (within_x && (ltb_ℤ bottom cy && leb_ℤ cy (bottom +ℤ border)));
      left = on_left;
      right = not on_left && (within_y && (ltb_ℤ right cx && leb_ℤ cx (right +ℤ border)));
    }

unfoldable pub toplevel_resize_edges_at : Toplevel → ℤ → ℤ → Edges
unfolding toplevel_get_hit_box edges_around
toplevel_resize_edges_at t cx cy = elim (toplevel_get_hit_box t) [
  | none ↦ no_edges
  | some b ↦ edges_around b cx cy
]

abbrev pub edges_at_cursor : Server → Toplevel → Edges
edges_at_cursor s t = toplevel_resize_edges_at t s.wlroots.cursor_x s.wlroots.cursor_y

-- `toplevel_at` at the cursor, given the owner of the surface there.
unfoldable pub toplevel_at : Option ℕ → Server → Option Toplevel
toplevel_at owner s = deref s.toplevels owner

-- The tests of the loop of `toplevel_near_cursor_resize_edge`.
unfoldable pub offers_edge : Server → Toplevel → Bool
offers_edge s t =
    if not (toplevel_can_direct_resize s.layout t)
      || (not (t.workspace == s.current_workspace) || t.minimized)
    then false
    else not (is_no_edges (edges_at_cursor s t))

-- `toplevel_near_cursor_resize_edge`
unfoldable pub toplevel_near_cursor_resize_edge : Option ℕ → Server → Option Toplevel
unfolding offers_edge toplevel_at
toplevel_near_cursor_resize_edge owner s = elim (toplevel_at owner s) [
  | none ↦ find (offers_edge s) s.toplevels
  | some hit ↦
      if toplevel_can_direct_resize s.layout hit && not (is_no_edges (edges_at_cursor s hit))
      then some hit
      else none
]

-- `cursor_name_for_resize_edges`
unfoldable pub cursor_name_for_resize_edges : Edges → Option Bytes
cursor_name_for_resize_edges e =
    if e.top && e.bottom || e.left && e.right
    then none
    else if e.top && e.left
    then some (codes "top_left_corner")
    else if e.top && e.right
    then some (codes "top_right_corner")
    else if e.bottom && e.left
    then some (codes "bottom_left_corner")
    else if e.bottom && e.right
    then some (codes "bottom_right_corner")
    else if e.left
    then some (codes "left_side")
    else if e.right
    then some (codes "right_side")
    else if e.top
    then some (codes "top_side")
    else if e.bottom
    then some (codes "bottom_side")
    else none
