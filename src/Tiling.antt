-- ===== src/Tiling.antt =====
-- src/main.c, the tile order: the comparison, the exchange of two windows' sort keys, the sorted
-- list of the tiled windows of the workspace, and its part on one output.
pub mod Grid
pub mod Dims
pub mod Order
pub mod Swap
use scratch_compositor.Base.{
  ℕ, zero, suc, ◌+◌, ◌*◌, Bool, true, false, not, ◌||◌, List, [], ◌∷◌, map, Option, none, some,
  ◌==◌, ltb, find, keep, if◌then◌else◌,
}
use scratch_compositor.Base.Int.{ℤ, pos, negsuc, ◌+ℤ◌, ltb_ℤ}
use scratch_compositor.Base.Sort.{sort}
use scratch_compositor.Server.{Toplevel, Output, Server, modify, points_to}

-- `cmp_toplevel_tile_order`
unfoldable pub cmp_toplevel_tile_order : Toplevel → Toplevel → ℤ
cmp_toplevel_tile_order a b =
    if ltb_ℤ a.tile_order b.tile_order
    then negsuc 0
    else if ltb_ℤ b.tile_order a.tile_order
    then pos 1
    else if ltb a.tile_user_key b.tile_user_key
    then negsuc 0
    else if ltb b.tile_user_key a.tile_user_key
    then pos 1
    else pos 0

-- What `qsort` asks of the comparison: whether the first comes strictly before the second.
unfoldable pub comes_before : Toplevel → Toplevel → Bool
unfolding cmp_toplevel_tile_order
comes_before a b = ltb_ℤ (cmp_toplevel_tile_order a b) (pos 0)

-- Another window's `tile_user_key` and `tile_order`.
abbrev pub with_keys_of : Toplevel → Toplevel → Toplevel
with_keys_of k t = record t { tile_user_key = k.tile_user_key; tile_order = k.tile_order }

-- `tile_swap_sort_keys`, on the windows behind the two pointers.
unfoldable pub tile_swap_sort_keys : Toplevel → Toplevel → Server → Server
tile_swap_sort_keys a b s = modify b.id (with_keys_of a) (modify a.id (with_keys_of b) s)

-- The two tests of the loops of `tile_sorted_views`.
unfoldable pub is_tiled : Server → Toplevel → Bool
is_tiled s t =
    if not t.mapped || t.tile_float || t.minimized
    then false
    else t.workspace == s.current_workspace

-- `tile_sorted_views`; the C array is NULL where the list is empty.
unfoldable pub tile_sorted_views : Server → List Toplevel
tile_sorted_views s = sort comes_before (keep (is_tiled s) s.toplevels)

-- `tile_sorted_index`; -1 is `none`.
unfoldable pub tile_sorted_index : List Toplevel → ℕ → Option ℕ
tile_sorted_index [] v = none
tile_sorted_index (t ∷ ts) v =
    if t.id == v
    then some 0
    else elim (tile_sorted_index ts v) [ none ↦ none | some i ↦ some (suc i) ]

-- `comp_output_from_wlr`
unfoldable pub comp_output_from_wlr : List Output → Option ℕ → Option Output
comp_output_from_wlr outs none = none
comp_output_from_wlr outs (some i) = find (λ o. o.id == i) outs

-- `primary_wlr_output`: the output under the cursor, else the first.
primary_of : List Output → Option ℕ → Option ℕ
primary_of [] at = none
primary_of (o ∷ os) (some i) = some i
primary_of (o ∷ os) none = some o.id

unfoldable pub primary_wlr_output : Server → Option ℕ
unfolding primary_of
primary_wlr_output s = primary_of s.outputs s.wlroots.output_at_cursor

-- `toplevel_tile_output`: the first output whose work area holds the window's center, which is
-- compared in half pixels; the primary output where there is none, or the window is unmapped.
unfoldable pub toplevel_tile_output : Server → Toplevel → Option Output
toplevel_tile_output s t =
    let main = comp_output_from_wlr s.outputs (primary_wlr_output s) in
    let cx = t.node_x +ℤ t.node_x +ℤ t.geo_width in
    let cy = t.node_y +ℤ t.node_y +ℤ t.geo_height in
    let here = find (λ o. s.wlroots.box_contains_halves o.layer_workarea cx cy) s.outputs in
    if not t.mapped then main else elim here [ none ↦ main | some o ↦ some o ]

abbrev pub is_output : Option ℕ → Option Output → Bool
is_output none none = true
is_output (some i) (some o) = o.id == i
is_output _ _ = false

-- `tile_sorted_views_on_output` of `tile_sorted_views`: the windows whose output is the given one.
unfoldable pub tile_sorted_views_on_output : Server → Option ℕ → List Toplevel → List Toplevel
tile_sorted_views_on_output s out full = keep (λ t. is_output out (toplevel_tile_output s t)) full
