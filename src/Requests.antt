-- ===== src/Requests.antt =====
-- src/main.c: what clients and task bars ask of a window. Each handler is for a listed window, after
-- wlroots has stored what the request brings.
use scratch_compositor.Base.{
  ℕ, Bool, false, not, ◌&&◌, ◌||◌, Option, none, some, ◌==◌, if◌then◌else◌,
}
use scratch_compositor.Base.Int.{pos}
use scratch_compositor.Base.Text.{Bytes}
use scratch_compositor.Server.{
  DecorationMode, Toplevel, foreign_refresh, send_close, Server, is_tiling, toplevel_by_id, modify,
  emit,
}
use scratch_compositor.Arrange.{server_arrange_toplevels}
use scratch_compositor.Focus.{focus_view, toplevel_set_minimized}
use scratch_compositor.Decoration.{
  toplevel_refresh_tile_props, toplevel_apply_decoration_mode, server_sync_xdg_decorations,
}
use scratch_compositor.Workspace.{foreign_toplevel_sync_all, server_workspace_go}
use scratch_compositor.Maximize.{
  not_positive, toplevel_apply_requested_maximize, toplevel_request_fullscreen,
}

-- The window behind the pointer of a listener.
unfoldable pub with_view : ℕ → (Toplevel → Server → Server) → Server → Server
with_view i f s = elim (toplevel_by_id s.toplevels i) [ none ↦ s | some view ↦ f view s ]

-- The common body of `toplevel_handle_set_title` and `toplevel_handle_set_app_id`.
unfoldable pub handle_metadata : ℕ → Server → Server
handle_metadata i s =
    let propped = modify i (toplevel_refresh_tile_props s.config) s in
    let mapped : Bool = elim (toplevel_by_id s.toplevels i) [
      | none ↦ false
      | some view ↦ view.mapped
    ] in
    let laid = if is_tiling s.layout && mapped then server_arrange_toplevels propped else propped in
    emit (foreign_refresh i) (server_sync_xdg_decorations laid)

-- `toplevel_handle_set_title`
unfoldable pub toplevel_handle_set_title : ℕ → Bytes → Server → Server
unfolding handle_metadata
toplevel_handle_set_title i title s =
    handle_metadata i (modify i (λ t. record t { title = title }) s)

-- `toplevel_handle_set_app_id`
unfoldable pub toplevel_handle_set_app_id : ℕ → Bytes → Server → Server
unfolding handle_metadata
toplevel_handle_set_app_id i app_id s =
    handle_metadata i (modify i (λ t. record t { app_id = app_id }) s)

-- The steps of `foreign_toplevel_handle_request_activate`, each on the window as the one before
-- has left it.
unfoldable pub show_minimized : Toplevel → Server → Server
show_minimized view s = if view.minimized then toplevel_set_minimized view false s else s

unfoldable pub activate_view : Toplevel → Server → Server
unfolding with_view show_minimized
activate_view view s =
    let gone =
      if view.workspace == s.current_workspace
      then s
      else server_workspace_go s (pos view.workspace) in
    let shown = with_view view.id show_minimized gone in
    foreign_toplevel_sync_all (with_view view.id (λ t u. focus_view u t) shown)

-- `foreign_toplevel_handle_request_activate`, given whether the request is for this seat.
unfoldable pub foreign_toplevel_handle_request_activate : ℕ → Bool → Server → Server
unfolding with_view activate_view
foreign_toplevel_handle_request_activate i here =
    with_view i (λ view s. if not view.mapped || not here then s else activate_view view s)

-- `foreign_toplevel_handle_request_close`
unfoldable pub foreign_toplevel_handle_request_close : ℕ → Server → Server
foreign_toplevel_handle_request_close i s = emit (send_close i) s

-- The size that the first commit asks for.
abbrev pub ask_size : Bool → Toplevel → Toplevel
ask_size initial t =
    if initial && (t.initialized && (not_positive t.geo_width || not_positive t.geo_height))
    then record t { configured_size = some (pos 0, pos 0) }
    else t

-- `toplevel_commit`, given `initial_commit`.
unfoldable pub toplevel_commit : ℕ → Bool → Server → Server
toplevel_commit i initial s =
    modify i (toplevel_apply_decoration_mode s.layout s.config) (modify i (ask_size initial) s)

-- `toplevel_request_maximize`
unfoldable pub toplevel_request_maximize : ℕ → Bool → Server → Server
unfolding with_view
toplevel_request_maximize i want s =
    with_view i toplevel_apply_requested_maximize
      (modify i (λ t. record t { requested_maximized = want }) s)

-- `toplevel_request_minimize`, given the requested state.
unfoldable pub toplevel_request_minimize : ℕ → Bool → Server → Server
unfolding with_view
toplevel_request_minimize i want = with_view i (λ view s. toplevel_set_minimized view want s)

-- `toplevel_request_fullscreen`
unfoldable pub request_fullscreen : ℕ → Bool → Option ℕ → Server → Server
unfolding with_view
request_fullscreen i want named =
    with_view i (λ view s. toplevel_request_fullscreen view want named s)

-- `xdg_new_toplevel_decoration`, given the modes of the new object.
unfoldable pub xdg_new_toplevel_decoration : ℕ → DecorationMode × DecorationMode → Server → Server
xdg_new_toplevel_decoration i modes s =
    modify i (toplevel_apply_decoration_mode s.layout s.config)
      (modify i (λ t. record t { decoration = some modes }) s)

-- `xdg_decoration_handle_request_mode`
unfoldable pub xdg_decoration_handle_request_mode : ℕ → Server → Server
xdg_decoration_handle_request_mode i s =
    modify i (toplevel_apply_decoration_mode s.layout s.config) s

-- `xdg_decoration_handle_destroy`
unfoldable pub xdg_decoration_handle_destroy : ℕ → Server → Server
xdg_decoration_handle_destroy i s = modify i (λ t. record t { decoration = none }) s
