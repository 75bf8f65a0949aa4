-- ===== src/Invariant/Pointer.antt =====
-- About the pointer and the invariant.
use scratch_compositor.Base.{
  ℕ, ◌≤◌, ◌≡◌, refl, sym, ◌∙◌, Bool, true, false, not, ◌&&◌, ◌||◌, Option, none, some, arith, List,
  ap, find, ◌==◌, if_cases, subst, if◌then◌else◌, All, All-find,
}
use scratch_compositor.Base.Int.{ℤ}
use scratch_compositor.Base.Text.{Bytes}
use scratch_compositor.Server.{
  Box, Edges, Grab, grab_none, grab_move, grab_resize, Toplevel, Server, is_tiling, is_grab_move,
  toplevel_by_id, emit, pointer_button, pointer_clear_focus, layer_keyboard_click, set_xcursor,
  pointer_enter,
}
use scratch_compositor.Tiling.{tile_swap_sort_keys}
use scratch_compositor.Tiling.Swap.{toplevels-swap}
use scratch_compositor.Focus.{deref, focus_view}
use scratch_compositor.Maximize.{place_at}
use scratch_compositor.Pointer.{
  begin_move, toplevel_request_move, toplevel_can_direct_resize, begin_resize, is_no_edges,
  toplevel_request_resize, edges_at_cursor, offers_edge, toplevel_at,
  toplevel_near_cursor_resize_edge,
}
use scratch_compositor.Pointer.Drag.{
  drag_view, resize_to, is_grab_resize, is_grab_none, show_cursor, point_at_edge, point_at,
  process_cursor_motion, swap_dropped, animate_from_drop, drop_view, end_grab, release_grab,
  press_focus, press_edge, press_logo, server_cursor_button,
}
use scratch_compositor.Move.Keys.{OneOrTwo, swap-Wf, windows-square}
use scratch_compositor.Frame.{
  SameWindow, Frame, Frame-refl, Frame-trans, Frame-emit, Frame-modify, if-Frame,
  server_arrange_toplevels-Frame,
}
use scratch_compositor.Invariant.Defs.{
  FocusOn, Inv, Inv-Frame, id-toplevel_by_id, toplevel_by_id-find,
}
use scratch_compositor.Invariant.Focus.{focus_view-Inv}
use scratch_compositor.Invariant.Move.{FocusOn-exchanged}
use scratch_compositor.Invariant.Requests.{with_view-Inv}

-- `begin_move` and `begin_resize` change the grab alone.
begin_move-Inv : (view : Toplevel) (b : Bool) (s : Server) → Inv s → Inv (begin_move view b s)
unfolding begin_move
begin_move-Inv view b s v = record { wf = v.wf; focus = v.focus }

begin_resize-Inv : (view : Toplevel) (e : Edges) (s : Server) → Inv s → Inv (begin_resize view e s)
unfolding begin_resize
begin_resize-Inv view e s v =
    if_cases Inv (not view.mapped) s _ (λ h. v) (λ h. record { wf = v.wf; focus = v.focus })

pub toplevel_request_move-Inv : (i : ℕ) (s : Server) → Inv s → Inv (toplevel_request_move i s)
unfolding toplevel_request_move
toplevel_request_move-Inv i s v =
    with_view-Inv i (λ view s. begin_move view false s) s (λ t e. begin_move-Inv t false s v) v

pub toplevel_request_resize-Inv :
    (i : ℕ) (edges : Edges) (s : Server) → Inv s → Inv (toplevel_request_resize i edges s)
unfolding toplevel_request_resize
toplevel_request_resize-Inv i edges s v =
    with_view-Inv i
      (λ view s.
        if not (toplevel_can_direct_resize s.layout view) || is_no_edges edges
        then s
        else begin_resize view edges (focus_view s view))
      s
      (λ t e.
        if_cases Inv (not (toplevel_can_direct_resize s.layout t) || is_no_edges edges) s _ (λ h. v)
          (λ h. begin_resize-Inv t edges _ (focus_view-Inv s t e v)))
      v

placed-SameWindow : (x y : ℤ) (t : Toplevel) → SameWindow t (place_at x y t)
placed-SameWindow x y t = ground arith

resized-SameWindow : (b : Box) (t : Toplevel) → SameWindow t (resize_to b t)
resized-SameWindow b t = ground arith

drag_view-Frame : (g : Grab) (o : Option ℕ) (s : Server) → Frame s (drag_view g o s)
unfolding drag_view
drag_view-Frame grab_none o s = Frame-refl s
drag_view-Frame grab_move none s = Frame-refl s
drag_view-Frame grab_resize none s = Frame-refl s
drag_view-Frame grab_move (some i) s = Frame-modify i _ s (placed-SameWindow _ _)
drag_view-Frame grab_resize (some i) s = Frame-modify i _ s (resized-SameWindow _)

show_cursor-Frame : (o : Option Bytes) (s : Server) → Frame s (show_cursor o s)
show_cursor-Frame none s = Frame-refl s
show_cursor-Frame (some name) s = Frame-emit (set_xcursor name) s

point_at_edge-Frame : (o : Option Toplevel) (s : Server) → Frame s (point_at_edge o s)
unfolding point_at_edge
point_at_edge-Frame none s = Frame-trans (Frame-emit _ s) (Frame-emit pointer_clear_focus _)
point_at_edge-Frame (some t) s =
    if-Frame (not (toplevel_can_direct_resize s.layout t)) s _ _
      (Frame-trans (Frame-emit _ s) (Frame-emit pointer_clear_focus _))
      (if-Frame _ s s _ (Frame-refl s)
        (Frame-trans (show_cursor-Frame _ s) (Frame-emit pointer_clear_focus _)))

point_at-Frame : (o : Option ℕ) (s : Server) → Frame s (point_at o s)
unfolding point_at
point_at-Frame none s = point_at_edge-Frame (toplevel_near_cursor_resize_edge none s) s
point_at-Frame (some i) s = Frame-emit (pointer_enter i) s

process_cursor_motion-Frame :
    (owner : Server → Option ℕ) (s : Server) → Frame s (process_cursor_motion owner s)
unfolding process_cursor_motion
process_cursor_motion-Frame owner s =
    let dragged = drag_view-Frame s.grab s.grabbed_toplevel s in
    if-Frame s.display_terminate_requested s s _ (Frame-refl s) (
      if-Frame (is_grab_resize s.grab) s _ _
        (Frame-trans dragged
          (Frame-trans (show_cursor-Frame _ _) (Frame-emit pointer_clear_focus _)))
        (Frame-trans dragged (point_at-Frame _ _)))

-- Any movement of the pointer keeps the invariant.
pub process_cursor_motion-Inv :
    (owner : Server → Option ℕ) (s : Server) → Inv s → Inv (process_cursor_motion owner s)
process_cursor_motion-Inv owner s v = Inv-Frame (process_cursor_motion-Frame owner s) v

toplevel_by_id-All :
    (P : Toplevel → Type 0) (i : ℕ) (ts : List Toplevel) (t : Toplevel)
    → All P ts
    → toplevel_by_id ts i ≡ some t
    → P t
unfolding toplevel_by_id
toplevel_by_id-All P i ts t h e = (All-find P (λ (u : Toplevel). u.id == i) ts t h e).0

-- The exchange of the keys of two listed windows.
swap_listed-Inv :
    (i j : ℕ) (a b : Toplevel) (s : Server)
    → toplevel_by_id s.toplevels i ≡ some a
    → toplevel_by_id s.toplevels j ≡ some b
    → Inv s
    → Inv (tile_swap_sort_keys a b s)
unfolding tile_swap_sort_keys
swap_listed-Inv i j a b s ea eb v =
    let square = windows-square s v.wf in
    let ha = toplevel_by_id-All (λ u. All (OneOrTwo u) s.toplevels) i s.toplevels a square ea in
    let hb = toplevel_by_id-All (λ u. All (OneOrTwo u) s.toplevels) j s.toplevels b square eb in
    let low : Toplevel → Type 0 = λ t. t.tile_user_key ≤ s.tile_user_key_gen in
    let below_a = toplevel_by_id-All low i s.toplevels a v.wf.given ea in
    let below_b = toplevel_by_id-All low j s.toplevels b v.wf.given eb in
    let ab = toplevel_by_id-All (OneOrTwo a) j s.toplevels b ha eb in
    record {
      wf = swap-Wf a b s ha hb ab below_a below_b v.wf;
      focus =
          subst (FocusOn s.focused_toplevel s.current_workspace) (sym (toplevels-swap a b s))
            (FocusOn-exchanged s.focused_toplevel s.current_workspace a b s.toplevels v.focus);
    }

swap_dropped-Inv :
    (o : Option ℕ) (d : Option Toplevel) (i : ℕ) (a : Toplevel) (s : Server)
    → toplevel_by_id s.toplevels i ≡ some a
    → deref s.toplevels o ≡ d
    → Inv s
    → Inv (swap_dropped d a s)
unfolding swap_dropped deref
swap_dropped-Inv o none i a s ea ed v = v
swap_dropped-Inv none (some b) i a s ea ed v = cc ed
swap_dropped-Inv (some j) (some b) i a s ea ed v =
    if_cases Inv
      (not (b.id == a.id) && (not a.tile_float && (not b.tile_float && a.workspace == b.workspace)))
      _ s (λ h. swap_listed-Inv i j a b s ea ed v) (λ h. v)

animated-SameWindow : (t : Toplevel) → SameWindow t (animate_from_drop t)
animated-SameWindow t = ground arith

drop_view-Inv :
    (owner : Server → Option ℕ) (o : Option ℕ) (d : Option Toplevel) (s : Server)
    → deref s.toplevels o ≡ d
    → Inv s
    → Inv (drop_view owner d s)
unfolding drop_view deref toplevel_at
drop_view-Inv owner o none s e v = v
drop_view-Inv owner none (some a) s e v = cc e
drop_view-Inv owner (some i) (some a) s e v =
    Inv-Frame
      (Frame-trans (Frame-modify a.id _ _ animated-SameWindow) (server_arrange_toplevels-Frame _))
      (swap_dropped-Inv (owner s) _ i a s e refl v)

release_grab-Inv :
    (owner : Server → Option ℕ) (is_left : Bool) (s : Server)
    → Inv s
    → Inv (release_grab owner is_left s)
unfolding release_grab
release_grab-Inv owner is_left s v =
    let ended : Inv (end_grab s) = record { wf = v.wf; focus = v.focus } in
    let dropped : Server =
      if is_grab_move s.grab && is_tiling s.layout
      then drop_view owner (deref s.toplevels s.grabbed_toplevel) (end_grab s)
      else end_grab s in
    let here : Inv dropped =
      if_cases Inv (is_grab_move s.grab && is_tiling s.layout)
        (drop_view owner (deref s.toplevels s.grabbed_toplevel) (end_grab s)) (end_grab s)
        (λ h. drop_view-Inv owner s.grabbed_toplevel _ (end_grab s) refl ended) (λ h. ended) in
    let kept : Inv (record dropped { swallow_left_release = false }) = record {
      wf = here.wf;
      focus = here.focus;
    } in
    if_cases Inv (is_left && s.swallow_left_release)
      (process_cursor_motion owner (record dropped { swallow_left_release = false }))
      (process_cursor_motion owner (emit pointer_button dropped))
      (λ h. process_cursor_motion-Inv owner _ kept)
      (λ h. process_cursor_motion-Inv owner _ (Inv-Frame (Frame-emit pointer_button dropped) here))

-- A window that a pointer names, found at that pointer.
deref-listed :
    (o : Option ℕ) (ts : List Toplevel) (t : Toplevel)
    → deref ts o ≡ some t
    → toplevel_by_id ts t.id ≡ some t
unfolding deref
deref-listed none ts t e = cc e
deref-listed (some i) ts t e =
    subst (λ k. toplevel_by_id ts k ≡ some t) (sym (id-toplevel_by_id i ts t e)) e

pub press_focus-Inv :
    (o : Option ℕ) (d : Option Toplevel) (s : Server)
    → deref s.toplevels o ≡ d
    → Inv s
    → Inv (press_focus d s)
unfolding press_focus
press_focus-Inv o none s e v = Inv-Frame (Frame-emit layer_keyboard_click s) v
press_focus-Inv o (some t) s e v = focus_view-Inv s t (deref-listed o s.toplevels t e) v

press_plain-Inv :
    (owner : Server → Option ℕ) (s : Server)
    → Inv s
    → Inv (emit pointer_button (press_focus (toplevel_at (owner s) s) s))
unfolding toplevel_at
press_plain-Inv owner s v =
    Inv-Frame (Frame-emit pointer_button _) (press_focus-Inv (owner s) _ s refl v)

some_of_if : (b : Bool) (a t : Toplevel) → (if b then some a else none) ≡ some t → a ≡ t
some_of_if true a t e = cc e
some_of_if false a t e = cc e

-- The window whose edge is near the cursor is a listed one.
near_edge-listed :
    (owner : Option ℕ) (hit : Option Toplevel) (s : Server) (t : Toplevel)
    → Inv s
    → deref s.toplevels owner ≡ hit
    → (elim hit [
      | none ↦ find (offers_edge s) s.toplevels
      | some h ↦
          if toplevel_can_direct_resize s.layout h && not (is_no_edges (edges_at_cursor s h))
          then some h
          else none
    ])
      ≡ some t
    → toplevel_by_id s.toplevels t.id ≡ some t
near_edge-listed owner none s t v e f = toplevel_by_id-find (offers_edge s) s.toplevels t v.wf.ids f
near_edge-listed owner (some h) s t v e f =
    let same : h ≡ t =
      some_of_if (toplevel_can_direct_resize s.layout h && not (is_no_edges (edges_at_cursor s h)))
        h t f in
    deref-listed owner s.toplevels t (e ∙ ap some same)

press_edge-Inv :
    (owner : Server → Option ℕ) (d : Option Toplevel) (s : Server)
    → toplevel_near_cursor_resize_edge (owner s) s ≡ d
    → Inv s
    → Inv (press_edge owner d s)
unfolding press_edge toplevel_near_cursor_resize_edge toplevel_at
press_edge-Inv owner none s e v = press_plain-Inv owner s v
press_edge-Inv owner (some t) s e v =
    let listed = near_edge-listed (owner s) _ s t v refl e in
    let grabbed = begin_resize-Inv t (edges_at_cursor s t) _ (focus_view-Inv s t listed v) in
    if_cases Inv (toplevel_can_direct_resize s.layout t && not (is_no_edges (edges_at_cursor s t)))
      (record (begin_resize t (edges_at_cursor s t) (focus_view s t)) {
        swallow_left_release = true;
      })
      (emit pointer_button (press_focus (toplevel_at (owner s) s) s))
      (λ h. record { wf = grabbed.wf; focus = grabbed.focus }) (λ h. press_plain-Inv owner s v)

press_logo-Inv :
    (owner : Server → Option ℕ) (logo : Bool) (d : Option Toplevel) (s : Server)
    → deref s.toplevels (owner s) ≡ d
    → Inv s
    → Inv (press_logo owner logo d s)
unfolding press_logo begin_move
press_logo-Inv owner true none s e v = press_edge-Inv owner _ s refl v
press_logo-Inv owner false none s e v = press_edge-Inv owner _ s refl v
press_logo-Inv owner false (some t) s e v = press_edge-Inv owner _ s refl v
press_logo-Inv owner true (some t) s e v =
    focus_view-Inv (begin_move t true s) t (deref-listed (owner s) s.toplevels t e)
      (begin_move-Inv t true s v)

-- Any button, pressed or released in any state of a grab, keeps the invariant.
pub server_cursor_button-Inv :
    (owner : Server → Option ℕ) (pressed is_left logo : Bool) (s : Server)
    → Inv s
    → Inv (server_cursor_button owner pressed is_left logo s)
unfolding server_cursor_button toplevel_at
server_cursor_button-Inv owner pressed is_left logo s v =
    if_cases Inv s.display_terminate_requested s _ (λ h. v)
      (λ h.
        if_cases Inv (not pressed && not (is_grab_none s.grab)) (release_grab owner is_left s) _
          (λ h. release_grab-Inv owner is_left s v)
          (λ h.
            if_cases Inv (pressed && is_left) (press_logo owner logo (toplevel_at (owner s) s) s)
              (emit pointer_button s) (λ h. press_logo-Inv owner logo _ s refl v)
              (λ h. Inv-Frame (Frame-emit pointer_button s) v)))
