-- ===== src/Maximize.antt =====
-- src/main.c: the maximize and the fullscreen request of a window.
use scratch_compositor.Base.{ℕ, Bool, true, not, ◌&&◌, ◌||◌, Option, none, some, if◌then◌else◌}
use scratch_compositor.Base.Int.{ℤ, pos, ltb_ℤ}
use scratch_compositor.Server.{Box, Layout, Toplevel, foreign_refresh, Server, modify, emit}
use scratch_compositor.Tiling.{comp_output_from_wlr}
use scratch_compositor.Focus.{is_stack}

-- The area that a new window is centered in, and that a maximized one fills: the work area of the output under the cursor, its
-- whole box where the output is not listed, and a fixed box where there is none.
unfoldable pub map_box : Server → Box
map_box s = elim (comp_output_from_wlr s.outputs s.wlroots.output_at_cursor) [
  | some co ↦ co.layer_workarea
  | none ↦ elim s.wlroots.output_at_cursor [
    | some out ↦ s.wlroots.output_box out
    | none ↦ record { x = pos 0; y = pos 0; width = pos 800; height = pos 600 }
  ]
]

-- `x <= 0`
abbrev pub not_positive : ℤ → Bool
not_positive z = not (ltb_ℤ (pos 0) z)

-- The geometry before the maximize request, for the restore.
unfoldable pub capture_restore : Toplevel → Toplevel
capture_restore t =
    let transient = not_positive t.geo_width || not_positive t.geo_height in
    record t {
      restore_x = t.node_x;
      restore_y = t.node_y;
      restore_width = if transient then t.surface_width else t.geo_width;
      restore_height = if transient then t.surface_height else t.geo_height;
      has_restore = true;
    }

-- `layout == COMP_LAYOUT_STACK || tile_float`
abbrev pub is_free : Layout → Toplevel → Bool
is_free layout t = is_stack layout || t.tile_float

abbrev pub place_at : ℤ → ℤ → Toplevel → Toplevel
place_at x y t = record t { node_x = x; node_y = y }

unfoldable pub maximize_in : Layout → Box → Toplevel → Toplevel
unfolding capture_restore
maximize_in layout box t =
    let kept = if t.maximized then t else capture_restore t in
    let sized = record kept { configured_size = some (box.width, box.height) } in
    if is_free layout t then place_at box.x box.y sized else sized

unfoldable pub normalize_in : Layout → Toplevel → Toplevel
normalize_in layout t =
    let sized =
      if t.has_restore && (ltb_ℤ (pos 0) t.restore_width && ltb_ℤ (pos 0) t.restore_height)
      then record t { configured_size = some (t.restore_width, t.restore_height) }
      else t in
    if t.has_restore && is_free layout t then place_at t.restore_x t.restore_y sized else sized

-- What `toplevel_apply_requested_maximize` does to the window, given the area to fill.
unfoldable pub apply_maximize : Layout → Box → Toplevel → Toplevel
unfolding maximize_in normalize_in
apply_maximize layout box t =
    let told = record t { sent_maximized = t.requested_maximized } in
    if t.requested_maximized then maximize_in layout box told else normalize_in layout told

-- `toplevel_apply_requested_maximize`
unfoldable pub toplevel_apply_requested_maximize : Toplevel → Server → Server
unfolding map_box apply_maximize
toplevel_apply_requested_maximize view s =
    if not view.initialized
    then s
    else emit (foreign_refresh view.id) (modify view.id (apply_maximize s.layout (map_box s)) s)

-- The box of the output that the request names, else of the one under the cursor.
unfoldable pub fullscreen_box : Option ℕ → Server → Box
fullscreen_box named s =
    let chosen : Option ℕ = elim named [ some o ↦ some o | none ↦ s.wlroots.output_at_cursor ] in
    elim chosen [
      | some o ↦ s.wlroots.output_box o
      | none ↦ record { x = pos 0; y = pos 0; width = pos 800; height = pos 600 }
    ]

unfoldable pub apply_fullscreen : Layout → Box → Bool → Toplevel → Toplevel
apply_fullscreen layout box want t =
    let told = record t { sent_fullscreen = want } in
    let sized = record told { configured_size = some (box.width, box.height) } in
    if not want
    then record told { configured_size = some (pos 0, pos 0) }
    else if is_free layout t
    then place_at box.x box.y sized
    else sized

-- `toplevel_request_fullscreen`, given the requested state and output.
unfoldable pub toplevel_request_fullscreen : Toplevel → Bool → Option ℕ → Server → Server
unfolding fullscreen_box apply_fullscreen
toplevel_request_fullscreen view want named s =
    if not view.initialized
    then s
    else emit (foreign_refresh view.id)
        (modify view.id (apply_fullscreen s.layout (fullscreen_box named s) want) s)
