-- ===== src/Arrange.antt =====
-- src/main.c, the placement of tiled windows: `server_arrange_toplevels`, visibility, and the
-- work areas of `layer_shell_arrange`. The repaint that `layout_anim_kick_outputs` schedules at
-- the end changes no state and is left out.
pub mod Cells
pub mod Columns
use scratch_compositor.Base.{
  ℕ, zero, suc, ◌+◌, ◌-◌, ◌/◌, ◌%◌, Bool, true, false, not, ◌&&◌, ◌||◌, List, [], ◌∷◌, map, Option,
  none, some, ◌==◌, length, set, get_or, keep, if◌then◌else◌,
}
use scratch_compositor.Base.Int.{ℤ, pos, ◌+ℤ◌, ◌-ℤ◌, ◌*ℤ◌, ltb_ℤ, div_trunc}
use scratch_compositor.Config.{Config}
use scratch_compositor.Server.{
  Layout, stack, tile, scroll, Box, Toplevel, Output, Layer, Wlroots, Server, is_tiling, is_scroll,
  is_grab_move, toplevel_by_id, modify, for_toplevels,
}
use scratch_compositor.Tiling.Grid.{tile_grid_cols, tile_grid_rows}
use scratch_compositor.Tiling.{
  tile_sorted_views, tile_sorted_views_on_output, is_output, toplevel_tile_output,
}

-- `layout_anim_effective`
unfoldable pub layout_anim_effective : Option Config → Bool
layout_anim_effective none = false
layout_anim_effective (some cfg) = cfg.layout_anim_enabled

-- The body of both placement loops for one window: its target, its requested size, and its scene
-- position unless an animation carries it there.
unfoldable pub place_view : Bool → Box → Toplevel → Toplevel
place_view anim_on cell v =
    let aimed = record v {
      layout_tgt_x = cell.x;
      layout_tgt_y = cell.y;
      configured_size = some (cell.width, cell.height);
    } in
    let moved = record aimed {
      layout_anim_x = cell.x;
      layout_anim_y = cell.y;
      node_x = cell.x;
      node_y = cell.y;
      layout_anim_tracked = true;
    } in
    if not v.initialized
    then v
    else if not anim_on || not v.layout_anim_tracked
    then moved
    else aimed

-- The j-th window of n in tile layout: cells of equal size, the last column and the last row
-- taking what division leaves over.
unfoldable pub tile_cell : Box → ℕ → ℕ → Box
tile_cell box n j =
    let cols = tile_grid_cols n in
    let rows = tile_grid_rows n in
    let cell_w = div_trunc box.width cols in
    let cell_h = div_trunc box.height rows in
    let col = j % cols in
    let row = j / cols in
    let x = box.x +ℤ pos col *ℤ cell_w in
    let y = box.y +ℤ pos row *ℤ cell_h in
    record {
      x = x;
      y = y;
      width = if col == cols - 1 then box.x +ℤ box.width -ℤ x else cell_w;
      height = if row == rows - 1 then box.y +ℤ box.height -ℤ y else cell_h;
    }

-- The j-th window in scroll layout: a strip of full-size columns, the slot's at the box.
unfoldable pub scroll_cell : Box → ℤ → ℕ → Box
scroll_cell box slot j = record {
  x = box.x +ℤ (pos j -ℤ slot) *ℤ box.width;
  y = box.y;
  width = box.width;
  height = box.height;
}

-- A placement loop over the windows of one output, from the j-th on.
unfoldable pub place_views : Bool → (ℕ → Box) → ℕ → List Toplevel → Server → Server
place_views anim_on cell j [] s = s
place_views anim_on cell j (v ∷ vs) s =
    place_views anim_on cell (suc j) vs (modify v.id (place_view anim_on (cell j)) s)

-- The clamp of the output's slot to 0 .. n - 1.
unfoldable pub clamp_slot : ℤ → ℕ → ℤ
clamp_slot slot n =
    let raised = if ltb_ℤ slot (pos 0) then pos 0 else slot in
    if ltb_ℤ raised (pos n) then raised else pos n -ℤ pos 1

-- A write to `workspace_scroll_slot` of one output.
unfoldable pub set_scroll_slot : ℕ → ℕ → ℤ → Server → Server
set_scroll_slot out ws v s = record s {
  outputs =
      map
        (λ (o : Output).
          if o.id == out
          then record o { workspace_scroll_slot = set o.workspace_scroll_slot ws v }
          else o)
        s.outputs;
}

-- The windows behind pointers, as they are now.
unfoldable pub views_of : Server → List ℕ → List Toplevel
views_of s [] = []
views_of s (i ∷ is) = elim (toplevel_by_id s.toplevels i) [
  | none ↦ views_of s is
  | some t ↦ t ∷ views_of s is
]

-- The body of the loop over the outputs. The windows of an output are found anew in the state that
-- the outputs before it left.
unfoldable pub arrange_output : Bool → List ℕ → Output → Server → Server
arrange_output anim_on full o s =
    let arr = tile_sorted_views_on_output s (some o.id) (views_of s full) in
    let box = o.layer_workarea in
    let n = length arr in
    let slot = clamp_slot (get_or o.workspace_scroll_slot s.current_workspace (pos 0)) n in
    if not (ltb_ℤ (pos 0) box.width) || not (ltb_ℤ (pos 0) box.height) || n == 0
    then s
    else if is_scroll s.layout
    then place_views anim_on (scroll_cell box slot) 0 arr
        (set_scroll_slot o.id s.current_workspace slot s)
    else place_views anim_on (tile_cell box n) 0 arr s

unfoldable pub arrange_outputs : Bool → List ℕ → List Output → Server → Server
arrange_outputs anim_on full [] s = s
arrange_outputs anim_on full (o ∷ os) s =
    arrange_outputs anim_on full os (arrange_output anim_on full o s)

abbrev pub untrack : Toplevel → Toplevel
untrack t = record t { layout_anim_tracked = false }

-- Floating and uninitialized windows are not animated.
abbrev pub untrack_unplaced : Toplevel → Toplevel
untrack_unplaced t =
    if not t.mapped then t else if t.tile_float || not t.initialized then untrack t else t

unfoldable pub arrange_views : List Toplevel → Server → Server
arrange_views [] s = for_toplevels untrack s
arrange_views (v ∷ vs) s =
    arrange_outputs (layout_anim_effective s.config) (map (λ (t : Toplevel). t.id) (v ∷ vs))
      s.outputs (for_toplevels untrack_unplaced s)

unfoldable pub arrange_if_outputs : List Output → Server → Server
arrange_if_outputs [] s = s
arrange_if_outputs (o ∷ os) s = arrange_views (tile_sorted_views s) s

-- `server_arrange_toplevels`
unfoldable pub server_arrange_toplevels : Server → Server
unfolding arrange_views arrange_if_outputs
server_arrange_toplevels s = if is_tiling s.layout then arrange_if_outputs s.outputs s else s

-- `server_workspace_apply_visibility`
unfoldable pub server_workspace_apply_visibility : Server → Server
server_workspace_apply_visibility s =
    for_toplevels
      (λ t. record t {
        node_enabled =
            if not t.mapped then false else t.workspace == s.current_workspace && not t.minimized;
      })
      s

-- `configured ? current.layer : pending.layer`
abbrev layer_in_use : Layer → ℕ
layer_in_use l = if l.configured then l.current_layer else l.pending_layer

-- The layer surfaces of one output and one layer, in list order, each shrinking the usable area.
unfoldable pub configure_layers : Wlroots → ℕ → ℕ → Box → List Layer → Box → Box
configure_layers w out kind full [] usable = usable
configure_layers w out kind full (l ∷ ls) usable = configure_layers w out kind full ls (
    if l.output == out && layer_in_use l == kind && l.initialized
    then w.configure_layer l.id full usable
    else usable)

-- The usable area of one output after its background, bottom, top and overlay layers.
unfoldable pub usable_area : Server → Output → Box
usable_area s o =
    let full = s.wlroots.output_box o.id in
    let pass = λ (kind : ℕ) (b : Box). configure_layers s.wlroots o.id kind full s.layers b in
    pass 3 (pass 2 (pass 1 (pass 0 full)))

-- `layer_shell_arrange`
unfoldable pub layer_shell_arrange : Server → Server
layer_shell_arrange s =
    let areas = record s {
      outputs = map (λ (o : Output). record o { layer_workarea = usable_area s o }) s.outputs;
    } in
    let shown = server_workspace_apply_visibility areas in
    if is_tiling s.layout && not (is_grab_move s.grab)
    then server_arrange_toplevels shown
    else shown
