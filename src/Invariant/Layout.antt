-- ===== src/Invariant/Layout.antt =====
-- About `server_set_layout`, `server_reload_config`, `toplevel_set_minimized` and the invariant.
use scratch_compositor.Base.{
  ℕ, ◌≡◌, refl, sym, ◌∙◌, Bool, true, false, not, ◌&&◌, Option, none, some, arith, if◌then◌else◌,
  if_cases,
}
use scratch_compositor.Base.Text.{Bytes}
use scratch_compositor.Config.{Config}
use scratch_compositor.Server.{
  Layout, stack, tile, scroll, Toplevel, Server, apply_input_maps, raise_to_top, foreign_refresh,
  is_tiling, is_grab_move, points_to, modify, emit, clear_focus,
}
use scratch_compositor.Arrange.{
  untrack, server_arrange_toplevels, server_workspace_apply_visibility,
}
use scratch_compositor.Focus.{toplevel_set_minimized}
use scratch_compositor.Decoration.{toplevel_refresh_tile_props, server_refresh_all_tile_props}
use scratch_compositor.Switch.{
  same_layout, reset_slots, raise_focused, enter_layout, server_set_layout, toggled,
  server_toggle_layout,
}
use scratch_compositor.Bindings.{spawn_sh_c}
use scratch_compositor.Ipc.{adopt_config}
use scratch_compositor.Frame.{
  SameWindow, Frame, Frame-refl, Frame-trans, Frame-emit, Frame-for_toplevels, Frame-modify,
  Frame-outputs, if-Frame, untrack-SameWindow, server_arrange_toplevels-Frame,
  server_workspace_apply_visibility-Frame, server_sync_xdg_decorations-Frame,
}
use scratch_compositor.Invariant.Defs.{Inv, Inv-Frame}
use scratch_compositor.Invariant.Focus.{scroll_sync_to_focused-Frame}
use scratch_compositor.Invariant.Workspace.{sync_shell_env-Frame}

pub toplevel_refresh_tile_props-SameWindow :
    (cfg : Option Config) (t : Toplevel) → SameWindow t (toplevel_refresh_tile_props cfg t)
unfolding toplevel_refresh_tile_props
toplevel_refresh_tile_props-SameWindow none t = ground arith
toplevel_refresh_tile_props-SameWindow (some cfg) t = ground arith

server_refresh_all_tile_props-Frame : (s : Server) → Frame s (server_refresh_all_tile_props s)
unfolding server_refresh_all_tile_props
server_refresh_all_tile_props-Frame s =
    Frame-for_toplevels _ s (toplevel_refresh_tile_props-SameWindow s.config)

reset_slots-Frame : (s : Server) → Frame s (reset_slots s)
unfolding reset_slots
reset_slots-Frame s = Frame-outputs _ s

raise_focused-Frame : (f : Option ℕ) (s : Server) → Frame s (raise_focused f s)
unfolding raise_focused
raise_focused-Frame none s = Frame-refl s
raise_focused-Frame (some i) s = Frame-emit (raise_to_top i) s

Frame-anim_clock : (n : ℕ) (s : Server) → Frame s (record s { layout_anim_last_ns = n })
Frame-anim_clock n s = ground (arith, Frame-refl s)

enter_layout-Frame : (l : Layout) (s : Server) → Frame s (enter_layout l s)
unfolding enter_layout
enter_layout-Frame stack s =
    Frame-trans (Frame-for_toplevels untrack s untrack-SameWindow)
      (Frame-trans (Frame-anim_clock 0 _) (raise_focused-Frame _ _))
enter_layout-Frame tile s =
    Frame-trans (server_refresh_all_tile_props-Frame s) (server_arrange_toplevels-Frame _)
enter_layout-Frame scroll s = Frame-trans (server_refresh_all_tile_props-Frame s) (
    Frame-trans (reset_slots-Frame _)
      (Frame-trans (scroll_sync_to_focused-Frame _) (server_arrange_toplevels-Frame _)))

Inv-layout : (l : Layout) (s : Server) → Inv s → Inv (record s { layout = l })
Inv-layout l s v = record { wf = v.wf; focus = v.focus }

-- Setting any layout keeps the invariant.
pub server_set_layout-Inv : (s : Server) (l : Layout) → Inv s → Inv (server_set_layout s l)
unfolding server_set_layout
server_set_layout-Inv s l v =
    if_cases Inv (same_layout s.layout l) s _ (λ e. v)
      (λ e.
        Inv-Frame
          (Frame-trans (enter_layout-Frame l _)
            (Frame-trans (server_sync_xdg_decorations-Frame _) (sync_shell_env-Frame _)))
          (Inv-layout l s v))

pub server_toggle_layout-Inv : (s : Server) → Inv s → Inv (server_toggle_layout s)
unfolding server_toggle_layout
server_toggle_layout-Inv s v = server_set_layout-Inv s (toggled s.layout) v

Inv-config : (c : Option Config) (s : Server) → Inv s → Inv (record s { config = c })
Inv-config c s v = record { wf = v.wf; focus = v.focus }

pub spawn_sh_c-Frame : (c : Option Bytes) (s : Server) → Frame s (spawn_sh_c c s)
unfolding spawn_sh_c
spawn_sh_c-Frame c s = if-Frame _ s _ _ (Frame-emit _ s) (Frame-refl s)

-- Up to the frame, the adoption of a configuration is the assignment of the pointer.
pub adopt_config-Frame :
    (cfg : Config) (s : Server) → Frame (record s { config = some cfg }) (adopt_config cfg s)
unfolding adopt_config
adopt_config-Frame cfg s =
    let here = record s { config = some cfg } in
    Frame-trans
      (if-Frame (is_tiling here.layout) here _ here
        (Frame-trans (server_refresh_all_tile_props-Frame here) (server_arrange_toplevels-Frame _))
        (Frame-refl here))
      (Frame-trans (server_sync_xdg_decorations-Frame _) (
        Frame-trans (sync_shell_env-Frame _)
          (Frame-trans (spawn_sh_c-Frame cfg.hook_reload _) (Frame-emit apply_input_maps _))))

-- The adoption of a loaded configuration keeps the invariant.
pub adopt_config-Inv : (cfg : Config) (s : Server) → Inv s → Inv (adopt_config cfg s)
adopt_config-Inv cfg s v = Inv-Frame (adopt_config-Frame cfg s) (Inv-config (some cfg) s v)

minimized-SameWindow : (b : Bool) (t : Toplevel) → SameWindow t (record t { minimized = b })
minimized-SameWindow b t = ground arith

pub Inv-clear_focus : (s : Server) → Inv s → Inv (clear_focus s)
Inv-clear_focus s v = record { wf = v.wf; focus = tt }

-- What follows the change of `minimized` and of the focus.
settle_minimized-Frame :
    (view : Toplevel) (s cleared : Server)
    → Frame cleared (
        emit (foreign_refresh view.id) (
          if is_tiling s.layout && not (is_grab_move s.grab)
          then server_arrange_toplevels (server_workspace_apply_visibility cleared)
          else server_workspace_apply_visibility cleared))
settle_minimized-Frame view s cleared = Frame-trans (server_workspace_apply_visibility-Frame _) (
    Frame-trans
      (if-Frame (is_tiling s.layout && not (is_grab_move s.grab)) _ _ _
        (server_arrange_toplevels-Frame _) (Frame-refl _))
      (Frame-emit (foreign_refresh view.id) _))

-- Minimizing and restoring a window keep the invariant.
pub toplevel_set_minimized-Inv :
    (view : Toplevel) (b : Bool) (s : Server) → Inv s → Inv (toplevel_set_minimized view b s)
unfolding toplevel_set_minimized
toplevel_set_minimized-Inv view b s v =
    let changed = modify view.id (λ (t : Toplevel). record t { minimized = b }) s in
    let here = Inv-Frame (Frame-modify view.id _ s (minimized-SameWindow b)) v in
    let cleared =
      if_cases Inv (b && points_to s.focused_toplevel view.id) (clear_focus changed) changed
        (λ e. Inv-clear_focus changed here) (λ e. here) in
    if_cases Inv (if b then view.minimized else not view.minimized) s _ (λ e. v)
      (λ e. Inv-Frame (settle_minimized-Frame view s _) cleared)

-- The pointers after a change that is skipped, or that ends in a frame.
minimized_focus :
    (b was here : Bool) (s set : Server) (rest : Server → Server)
    → ((c : Server) → Frame c (rest c))
    → Frame s set
    → let r =
        if (if b then was else not was)
        then s
        else rest (if b && here then clear_focus set else set) in
      (r.focused_toplevel ≡ (if (b && not was) && here then none else s.focused_toplevel))
      × (r.keyboard_focus ≡ (if (b && not was) && here then none else s.keyboard_focus))
minimized_focus true true here s set rest f g = (refl, refl)
minimized_focus true false true s set rest f g =
    (sym (f (clear_focus set)).focused, sym (f (clear_focus set)).keyboard)
minimized_focus true false false s set rest f g =
    (sym (g.focused ∙ (f set).focused), sym (g.keyboard ∙ (f set).keyboard))
minimized_focus false true here s set rest f g =
    (sym (g.focused ∙ (f set).focused), sym (g.keyboard ∙ (f set).keyboard))
minimized_focus false false here s set rest f g = (refl, refl)

-- Minimizing a window that is not minimized takes the window focus and the keyboard focus from it,
-- where it has the focus; any other call leaves both as they are. In every case the invariant of
-- windows and focus is kept.
pub toplevel_set_minimized-focus :
    (view : Toplevel) (b : Bool) (s : Server)
    → Inv s
    → Inv (toplevel_set_minimized view b s)
      × ((toplevel_set_minimized view b s).focused_toplevel ≡ (
          if (b && not view.minimized) && points_to s.focused_toplevel view.id
          then none
          else s.focused_toplevel))
      × ((toplevel_set_minimized view b s).keyboard_focus ≡ (
          if (b && not view.minimized) && points_to s.focused_toplevel view.id
          then none
          else s.keyboard_focus))
unfolding toplevel_set_minimized
toplevel_set_minimized-focus view b s v =
    let (window_focus, seat_focus) =
      minimized_focus b view.minimized (points_to s.focused_toplevel view.id) s
        (modify view.id (λ (t : Toplevel). record t { minimized = b }) s) _
        (settle_minimized-Frame view s) (Frame-modify view.id _ s (minimized-SameWindow b)) in
    (toplevel_set_minimized-Inv view b s v, window_focus, seat_focus)
