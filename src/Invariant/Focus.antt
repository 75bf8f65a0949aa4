-- ===== src/Invariant/Focus.antt =====
-- About `focus_toplevel` and the invariant.
use scratch_compositor.Base.{
  ℕ, ◌≡◌, refl, Bool, true, false, ◌||◌, ◌⊎◌, inl, inr, Option, none, some, arith, ==_iff,
}
use scratch_compositor.Server.{
  Toplevel, Output, foreign_refresh, raise_to_top, Server, toplevel_by_id, points_to,
}
use scratch_compositor.Tiling.{toplevel_tile_output}
use scratch_compositor.Focus.{
  deref, set_slot_index, scroll_sync_focused, is_stack, scroll_sync_view, scroll_sync_to_focused,
  deactivate, take_focus, focus_view,
}
use scratch_compositor.Frame.{
  SameWindow, Frame, Frame-refl, Frame-emit, Frame-trans, Frame-modify, if-Frame,
  set_scroll_slot-Frame,
}
use scratch_compositor.Invariant.Defs.{Wf, Inv, Inv-Frame}

abbrev pub assign_focus : Option ℕ → Server → Server
assign_focus f s = record s { focused_toplevel = f; keyboard_focus = f }

focus_pointer-Frame :
    (f : Option ℕ) {s s' : Server}
    → Frame s s'
    → Frame (record s { focused_toplevel = f }) (record s' { focused_toplevel = f })
focus_pointer-Frame f h = record {
  windows = h.windows;
  layout = h.layout;
  focused = refl;
  current = h.current;
  grab = h.grab;
  grabbed = h.grabbed;
  keyboard = h.keyboard;
  config = h.config;
  key_gen = h.key_gen;
}

keyboard_focus-Frame :
    (k : Option ℕ) {s s' : Server}
    → Frame s s'
    → Frame (record s { keyboard_focus = k }) (record s' { keyboard_focus = k })
keyboard_focus-Frame k h = record {
  windows = h.windows;
  layout = h.layout;
  focused = h.focused;
  current = h.current;
  grab = h.grab;
  grabbed = h.grabbed;
  keyboard = refl;
  config = h.config;
  key_gen = h.key_gen;
}

activate-SameWindow : (b : Bool) (t : Toplevel) → SameWindow t (record t { activated = b })
activate-SameWindow b t = ground arith

deactivate-Frame : (p : Option Toplevel) (s : Server) → Frame s (deactivate p s)
unfolding deactivate
deactivate-Frame none s = Frame-refl s
deactivate-Frame (some p) s =
    if-Frame p.initialized s _ _
      (Frame-trans (Frame-modify p.id _ s (activate-SameWindow false)) (Frame-emit _ _))
      (Frame-refl s)

set_slot_index-Frame : (i : Option ℕ) (out : Output) (s : Server) → Frame s (set_slot_index i out s)
unfolding set_slot_index
set_slot_index-Frame none out s = Frame-refl s
set_slot_index-Frame (some idx) out s = set_scroll_slot-Frame out.id s.current_workspace _ s

scroll_sync_view-Frame :
    (f : Toplevel) (out : Option Output) (s : Server) → Frame s (scroll_sync_view f out s)
unfolding scroll_sync_view
scroll_sync_view-Frame f none s = Frame-refl s
scroll_sync_view-Frame f (some out) s = set_slot_index-Frame _ out s

scroll_sync_focused-Frame : (f : Option Toplevel) (s : Server) → Frame s (scroll_sync_focused f s)
unfolding scroll_sync_focused
scroll_sync_focused-Frame none s = Frame-refl s
scroll_sync_focused-Frame (some f) s =
    if-Frame _ s _ _ (Frame-refl s) (scroll_sync_view-Frame f (toplevel_tile_output s f) s)

-- The scroll slot follows the focus, and nothing else changes.
pub scroll_sync_to_focused-Frame : (s : Server) → Frame s (scroll_sync_to_focused s)
unfolding scroll_sync_to_focused
scroll_sync_to_focused-Frame s = scroll_sync_focused-Frame _ s

-- Up to the frame, giving the focus is the assignment of the two focus pointers.
pub take_focus-Frame :
    (t : Toplevel) (s : Server) → Frame (assign_focus (some t.id) s) (take_focus t s)
unfolding take_focus
take_focus-Frame t s =
    let quiet = deactivate-Frame (deref s.toplevels s.focused_toplevel) s in
    let active = Frame-trans quiet (Frame-modify t.id _ _ (activate-SameWindow true)) in
    let raised =
      if-Frame (is_stack s.layout || t.tile_float) s _ _
        (Frame-trans active (Frame-emit (raise_to_top t.id) _)) active in
    keyboard_focus-Frame (some t.id) (
      Frame-trans
        (Frame-trans (focus_pointer-Frame (some t.id) raised) (Frame-emit (foreign_refresh t.id) _))
        (scroll_sync_to_focused-Frame _))

-- `focus_toplevel` either does nothing or gives the focus to the mapped window of the current
-- workspace that it was called for.
pub focus_view_cases :
    (s : Server) (t : Toplevel)
    → (focus_view s t ≡ s)
      ⊎ ((t.mapped ≡ true)
          × (t.workspace ≡ s.current_workspace)
          × (focus_view s t ≡ take_focus t s))
unfolding focus_view
focus_view_cases s t = ground arith

module _ (s : Server) (t : Toplevel) where
  pub focus_view_takes :
      t.mapped ≡ true
      → t.initialized ≡ true
      → t.workspace ≡ s.current_workspace
      → points_to s.focused_toplevel t.id ≡ false
      → focus_view s t ≡ take_focus t s
  unfolding focus_view
  focus_view_takes m i ws p = rw (m, i, (==_iff _ _).1 ws, p) refl

  pub take_focus-Inv :
      toplevel_by_id s.toplevels t.id ≡ some t
      → t.workspace ≡ s.current_workspace
      → t.mapped ≡ true
      → Wf s
      → Inv (take_focus t s)
  take_focus-Inv listed ws m w =
      Inv-Frame (take_focus-Frame t s) (record { wf = w; focus = (t, listed, ws, m) })

  -- Giving the focus keeps the invariant.
  pub focus_view-Inv : toplevel_by_id s.toplevels t.id ≡ some t → Inv s → Inv (focus_view s t)
  focus_view-Inv listed v = elim (focus_view_cases s t) [
    | inl e ↦ rw e v
    | inr (m, ws, e) ↦ rw e (take_focus-Inv listed ws m v.wf)
  ]
