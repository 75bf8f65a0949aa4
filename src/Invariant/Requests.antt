-- ===== src/Invariant/Requests.antt =====
-- About the requests of clients and task bars and the invariant.
use scratch_compositor.Base.{
  ℕ, ◌≡◌, refl, sym, Bool, false, not, ◌||◌, Option, none, some, arith, ◌==◌, if_cases, subst,
  if◌then◌else◌,
}
use scratch_compositor.Base.Int.{pos}
use scratch_compositor.Base.Text.{Bytes}
use scratch_compositor.Server.{
  DecorationMode, Toplevel, foreign_refresh, send_close, Server, toplevel_by_id,
}
use scratch_compositor.Focus.{focus_view, toplevel_set_minimized}
use scratch_compositor.Maximize.{toplevel_apply_requested_maximize, toplevel_request_fullscreen}
use scratch_compositor.Requests.{
  with_view, handle_metadata, toplevel_handle_set_title, toplevel_handle_set_app_id, show_minimized,
  activate_view, foreign_toplevel_handle_request_activate, foreign_toplevel_handle_request_close,
  ask_size, toplevel_commit, toplevel_request_maximize, toplevel_request_minimize,
  request_fullscreen, xdg_new_toplevel_decoration, xdg_decoration_handle_request_mode,
  xdg_decoration_handle_destroy,
}
use scratch_compositor.Frame.{
  SameWindow, Frame, Frame-trans, Frame-emit, Frame-modify, if-Frame,
  server_arrange_toplevels-Frame, server_sync_xdg_decorations-Frame,
  toplevel_apply_decoration_mode-SameWindow,
}
use scratch_compositor.Invariant.Defs.{Inv, Inv-Frame, id-toplevel_by_id}
use scratch_compositor.Invariant.Focus.{focus_view-Inv}
use scratch_compositor.Invariant.Layout.{
  toplevel_refresh_tile_props-SameWindow, toplevel_set_minimized-Inv,
}
use scratch_compositor.Invariant.Maximize.{
  toplevel_apply_requested_maximize-Frame, toplevel_request_fullscreen-Frame,
}
use scratch_compositor.Invariant.Workspace.{
  server_workspace_go-Inv, foreign_toplevel_sync_all-Frame,
}

-- A handler of a listed window, given what the lookup of the window says.
pub with_view-Inv :
    (i : ℕ) (f : Toplevel → Server → Server) (s : Server)
    → ((t : Toplevel) → toplevel_by_id s.toplevels t.id ≡ some t → Inv (f t s))
    → Inv s
    → Inv (with_view i f s)
unfolding with_view
with_view-Inv i f s h v = of_lookup (toplevel_by_id s.toplevels i) refl
  where
    of_lookup :
        (o : Option Toplevel)
        → toplevel_by_id s.toplevels i ≡ o
        → Inv (elim o [ none ↦ s | some view ↦ f view s ])
    of_lookup none e = v
    of_lookup (some t) e = h t (
        subst (λ k. toplevel_by_id s.toplevels k ≡ some t)
          (sym (id-toplevel_by_id i s.toplevels t e)) e)

handle_metadata-Frame : (i : ℕ) (s : Server) → Frame s (handle_metadata i s)
unfolding handle_metadata
handle_metadata-Frame i s =
    let propped = Frame-modify i _ s (toplevel_refresh_tile_props-SameWindow s.config) in
    Frame-trans (if-Frame _ s _ _ (Frame-trans propped (server_arrange_toplevels-Frame _)) propped)
      (Frame-trans (server_sync_xdg_decorations-Frame _) (Frame-emit (foreign_refresh i) _))

titled-SameWindow : (title : Bytes) (t : Toplevel) → SameWindow t (record t { title = title })
titled-SameWindow title t = ground arith

named-SameWindow : (app_id : Bytes) (t : Toplevel) → SameWindow t (record t { app_id = app_id })
named-SameWindow app_id t = ground arith

pub toplevel_handle_set_title-Inv :
    (i : ℕ) (title : Bytes) (s : Server) → Inv s → Inv (toplevel_handle_set_title i title s)
unfolding toplevel_handle_set_title
toplevel_handle_set_title-Inv i title s v =
    Inv-Frame
      (Frame-trans (Frame-modify i _ s (titled-SameWindow title)) (handle_metadata-Frame i _)) v

pub toplevel_handle_set_app_id-Inv :
    (i : ℕ) (app_id : Bytes) (s : Server) → Inv s → Inv (toplevel_handle_set_app_id i app_id s)
unfolding toplevel_handle_set_app_id
toplevel_handle_set_app_id-Inv i app_id s v =
    Inv-Frame
      (Frame-trans (Frame-modify i _ s (named-SameWindow app_id)) (handle_metadata-Frame i _)) v

show_minimized-Inv : (view : Toplevel) (s : Server) → Inv s → Inv (show_minimized view s)
unfolding show_minimized
show_minimized-Inv view s v =
    if_cases Inv view.minimized (toplevel_set_minimized view false s) s
      (λ e. toplevel_set_minimized-Inv view false s v) (λ e. v)

activate_view-Inv : (view : Toplevel) (s : Server) → Inv s → Inv (activate_view view s)
unfolding activate_view
activate_view-Inv view s v =
    let gone =
      if_cases Inv (view.workspace == s.current_workspace) s _ (λ e. v)
        (λ e. server_workspace_go-Inv s (pos view.workspace) v) in
    let shown = with_view-Inv view.id show_minimized _ (λ t e. show_minimized-Inv t _ gone) gone in
    Inv-Frame (foreign_toplevel_sync_all-Frame _)
      (with_view-Inv view.id (λ t u. focus_view u t) _ (λ t e. focus_view-Inv _ t e shown) shown)

-- A task bar's request to activate any window keeps the invariant.
pub foreign_toplevel_handle_request_activate-Inv :
    (i : ℕ) (here : Bool) (s : Server)
    → Inv s
    → Inv (foreign_toplevel_handle_request_activate i here s)
unfolding foreign_toplevel_handle_request_activate
foreign_toplevel_handle_request_activate-Inv i here s v =
    with_view-Inv i (λ view s. if not view.mapped || not here then s else activate_view view s) s
      (λ t e.
        if_cases Inv (not t.mapped || not here) s (activate_view t s) (λ h. v)
          (λ h. activate_view-Inv t s v))
      v

pub foreign_toplevel_handle_request_close-Inv :
    (i : ℕ) (s : Server) → Inv s → Inv (foreign_toplevel_handle_request_close i s)
unfolding foreign_toplevel_handle_request_close
foreign_toplevel_handle_request_close-Inv i s v = Inv-Frame (Frame-emit (send_close i) s) v

ask_size-SameWindow : (initial : Bool) (t : Toplevel) → SameWindow t (ask_size initial t)
ask_size-SameWindow initial t = ground arith

pub toplevel_commit-Inv :
    (i : ℕ) (initial : Bool) (s : Server) → Inv s → Inv (toplevel_commit i initial s)
unfolding toplevel_commit
toplevel_commit-Inv i initial s v =
    Inv-Frame
      (Frame-trans (Frame-modify i _ s (ask_size-SameWindow initial))
        (Frame-modify i _ _ (toplevel_apply_decoration_mode-SameWindow s.layout s.config)))
      v

asking-SameWindow :
    (want : Bool) (t : Toplevel) → SameWindow t (record t { requested_maximized = want })
asking-SameWindow want t = ground arith

pub toplevel_request_maximize-Inv :
    (i : ℕ) (want : Bool) (s : Server) → Inv s → Inv (toplevel_request_maximize i want s)
unfolding toplevel_request_maximize
toplevel_request_maximize-Inv i want s v =
    let asked = Inv-Frame (Frame-modify i _ s (asking-SameWindow want)) v in
    with_view-Inv i toplevel_apply_requested_maximize _
      (λ t e. Inv-Frame (toplevel_apply_requested_maximize-Frame t _) asked) asked

pub toplevel_request_minimize-Inv :
    (i : ℕ) (want : Bool) (s : Server) → Inv s → Inv (toplevel_request_minimize i want s)
unfolding toplevel_request_minimize
toplevel_request_minimize-Inv i want s v =
    with_view-Inv i (λ view s. toplevel_set_minimized view want s) s
      (λ t e. toplevel_set_minimized-Inv t want s v) v

pub request_fullscreen-Inv :
    (i : ℕ) (want : Bool) (named : Option ℕ) (s : Server)
    → Inv s
    → Inv (request_fullscreen i want named s)
unfolding request_fullscreen
request_fullscreen-Inv i want named s v =
    with_view-Inv i (λ view s. toplevel_request_fullscreen view want named s) s
      (λ t e. Inv-Frame (toplevel_request_fullscreen-Frame t want named s) v) v

decorated-SameWindow :
    (d : Option (DecorationMode × DecorationMode)) (t : Toplevel)
    → SameWindow t (record t { decoration = d })
decorated-SameWindow d t = ground arith

pub xdg_new_toplevel_decoration-Inv :
    (i : ℕ) (modes : DecorationMode × DecorationMode) (s : Server)
    → Inv s
    → Inv (xdg_new_toplevel_decoration i modes s)
unfolding xdg_new_toplevel_decoration
xdg_new_toplevel_decoration-Inv i modes s v =
    Inv-Frame
      (Frame-trans (Frame-modify i _ s (decorated-SameWindow (some modes)))
        (Frame-modify i _ _ (toplevel_apply_decoration_mode-SameWindow s.layout s.config)))
      v

pub xdg_decoration_handle_request_mode-Inv :
    (i : ℕ) (s : Server) → Inv s → Inv (xdg_decoration_handle_request_mode i s)
unfolding xdg_decoration_handle_request_mode
xdg_decoration_handle_request_mode-Inv i s v =
    Inv-Frame (Frame-modify i _ s (toplevel_apply_decoration_mode-SameWindow s.layout s.config)) v

pub xdg_decoration_handle_destroy-Inv :
    (i : ℕ) (s : Server) → Inv s → Inv (xdg_decoration_handle_destroy i s)
unfolding xdg_decoration_handle_destroy
xdg_decoration_handle_destroy-Inv i s v =
    Inv-Frame (Frame-modify i _ s (decorated-SameWindow none)) v
