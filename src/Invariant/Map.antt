-- ===== src/Invariant/Map.antt =====
-- About `toplevel_map` and the invariant.
use scratch_compositor.Base.{
  ℕ, ◌≤◌, ◌<◌, ◌≡◌, refl, sym, ◌∙◌, true, not, ◌&&◌, Option, none, some, arith, ◌==◌, if◌then◌else◌,
  List, [], ◌∷◌, subst, All, All-Pointwise, Apart-Pointwise, Pointwise-map,
}
use scratch_compositor.Config.{workspace_count}
use scratch_compositor.Server.{
  Box, Toplevel, Server, foreign_refresh, raise_to_top, is_tiling, modify, toplevel_by_id,
  update_toplevel,
}
use scratch_compositor.Decoration.{toplevel_refresh_tile_props}
use scratch_compositor.Tiling.Order.{KeysDiffer, IdsDiffer}
use scratch_compositor.Maximize.{map_box, toplevel_apply_requested_maximize}
use scratch_compositor.Lifecycle.{reset_mapped, center_in, focus_mapped, place_mapped, toplevel_map}
use scratch_compositor.Invariant.Maximize.{toplevel_apply_requested_maximize-Frame}
use scratch_compositor.Frame.{
  SameWindow, Frame-refl, Frame-trans, Frame-emit, Frame-modify, if-Frame,
  server_arrange_toplevels-Frame, server_workspace_apply_visibility-Frame,
  server_sync_xdg_decorations-Frame,
}
use scratch_compositor.Invariant.Defs.{Windows, FocusOn, Inv, Inv-Frame, id-toplevel_by_id}
use scratch_compositor.Invariant.Focus.{focus_view-Inv}
use scratch_compositor.Invariant.Layout.{toplevel_refresh_tile_props-SameWindow}

abbrev shown : Toplevel → Toplevel
shown = reset_mapped

record Placed (a b : Toplevel) : Type 0 where
  id : a.id ≡ b.id
  key : a.tile_user_key ≡ b.tile_user_key
  workspace : a.workspace ≡ b.workspace

Placed-refl : (a : Toplevel) → Placed a a
Placed-refl a = record { id = refl; key = refl; workspace = refl }

shown-Placed : (i : ℕ) (t : Toplevel) → Placed t (if t.id == i then shown t else t)
shown-Placed i t = record { id = ground arith; key = ground arith; workspace = ground arith }

shown-surfaces :
    (i : ℕ) (ts : List Toplevel)
    → All (λ t. t.id ≡ i → t.initialized ≡ true) ts
    → All (λ t. t.mapped ≡ true → t.initialized ≡ true) ts
    → All (λ t. t.mapped ≡ true → t.initialized ≡ true) (update_toplevel i shown ts)
unfolding update_toplevel
shown-surfaces i [] h k = tt
shown-surfaces i (t ∷ ts) h k = ((λ m. ground (arith, h.0, k.0, m)), shown-surfaces i ts h.1 k.1)

shown-Windows :
    (i : ℕ) (ts : List Toplevel) (current gen : ℕ)
    → All (λ t. t.id ≡ i → t.initialized ≡ true) ts
    → Windows ts current gen
    → Windows (update_toplevel i shown ts) current gen
unfolding update_toplevel
shown-Windows i ts current gen h w =
    let all = Pointwise-map Placed (λ t. if t.id == i then shown t else t) (shown-Placed i) ts in
    record {
      ids =
          Apart-Pointwise Placed IdsDiffer (λ a b c d k l e q. e (k.id ∙ q ∙ sym l.id)) Placed-refl
            ts _ all w.ids;
      keys =
          Apart-Pointwise Placed KeysDiffer (λ a b c d k l e q. e (k.key ∙ q ∙ sym l.key))
            Placed-refl ts _ all w.keys;
      given =
          All-Pointwise Placed (λ t. t.tile_user_key ≤ gen)
            (λ a b k h. subst (λ n. n ≤ gen) k.key h) ts _ all w.given;
      current = w.current;
      workspaces =
          All-Pointwise Placed (λ t. t.workspace < workspace_count)
            (λ a b k h. subst (λ n. n < workspace_count) k.workspace h) ts _ all w.workspaces;
      surfaces = shown-surfaces i ts h w.surfaces;
    }

toplevel_by_id-shown :
    (i j : ℕ) (ts : List Toplevel) (t : Toplevel)
    → toplevel_by_id ts j ≡ some t
    → toplevel_by_id (update_toplevel i shown ts) j ≡ some (if t.id == i then shown t else t)
unfolding toplevel_by_id update_toplevel
toplevel_by_id-shown i j [] t e = cc
toplevel_by_id-shown i j (x ∷ ts) t e = ground (arith, toplevel_by_id-shown i j ts t)

FocusOn-shown :
    (p : Option ℕ) (i ws : ℕ) (ts : List Toplevel)
    → FocusOn p ws ts
    → FocusOn p ws (update_toplevel i shown ts)
FocusOn-shown none i ws ts h = tt
FocusOn-shown (some j) i ws ts (t, e, w, m) = (
  if t.id == i then shown t else t,
  toplevel_by_id-shown i j ts t e,
  ground (arith, w),
  ground (arith, m),
)

center_in-SameWindow : (b : Box) (t : Toplevel) → SameWindow t (center_in b t)
center_in-SameWindow b t = ground arith

focus_mapped-Inv :
    (o : Option Toplevel) (i : ℕ) (s : Server)
    → toplevel_by_id s.toplevels i ≡ o
    → Inv s
    → Inv (focus_mapped o s)
unfolding focus_mapped
focus_mapped-Inv none i s e v = v
focus_mapped-Inv (some t) i s e v =
    focus_view-Inv s t
      (subst (λ k. toplevel_by_id s.toplevels k ≡ some t)
        (sym (id-toplevel_by_id i s.toplevels t e)) e)
      v

place_mapped-Inv : (view : Toplevel) (s : Server) → Inv s → Inv (place_mapped view s)
unfolding place_mapped
place_mapped-Inv view s v =
    let placed =
      Inv-Frame
        (if-Frame (is_tiling s.layout && not view.tile_float) s s _ (Frame-refl s) (
          Frame-trans (Frame-modify view.id _ s (center_in-SameWindow (map_box s)))
            (Frame-emit (raise_to_top view.id) _)))
        v in
    Inv-Frame
      (Frame-trans
        (if-Frame (is_tiling s.layout) _ _ _ (server_arrange_toplevels-Frame _) (Frame-refl _))
        (Frame-trans (server_workspace_apply_visibility-Frame _)
          (server_sync_xdg_decorations-Frame _)))
      (focus_mapped-Inv _ view.id _ refl placed)

-- Mapping a window whose surface is initialized keeps the invariant.
pub toplevel_map-Inv :
    (i : ℕ) (s : Server)
    → All (λ t. t.id ≡ i → t.initialized ≡ true) s.toplevels
    → Inv s
    → Inv (toplevel_map i s)
unfolding toplevel_map
toplevel_map-Inv i s initialized v =
    let mapped : Inv (modify i shown s) = record {
      wf = shown-Windows i s.toplevels s.current_workspace s.tile_user_key_gen initialized v.wf;
      focus = FocusOn-shown s.focused_toplevel i s.current_workspace s.toplevels v.focus;
    } in
    let propped =
      Inv-Frame
        (Frame-trans (Frame-emit (foreign_refresh i) (modify i shown s)) (
          Frame-modify i (toplevel_refresh_tile_props s.config) _
            (toplevel_refresh_tile_props-SameWindow s.config)))
        mapped in
    placed_or_same _ s _ v propped
  where
    placed_or_same :
        (o : Option Toplevel) (s p : Server)
        → Inv s
        → Inv p
        → Inv (elim o [
          | none ↦ s
          | some view ↦
              place_mapped view
                (if view.requested_maximized then toplevel_apply_requested_maximize view p else p)
        ])
    placed_or_same none s p h k = h
    placed_or_same (some view) s p h k = place_mapped-Inv view _ (
        Inv-Frame
          (if-Frame view.requested_maximized p (toplevel_apply_requested_maximize view p) p
            (toplevel_apply_requested_maximize-Frame view p) (Frame-refl p))
          k)
