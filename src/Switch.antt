-- ===== src/Switch.antt =====
-- src/main.c: `server_set_layout` and `server_toggle_layout`.
use scratch_compositor.Base.{ℕ, Bool, true, false, map, Option, none, some, set, if◌then◌else◌}
use scratch_compositor.Base.Int.{pos}
use scratch_compositor.Server.{
  Layout, stack, tile, scroll, Output, raise_to_top, Server, for_toplevels, emit, sync_shell_env,
}
use scratch_compositor.Arrange.{untrack, server_arrange_toplevels}
use scratch_compositor.Focus.{scroll_sync_to_focused}
use scratch_compositor.Decoration.{server_refresh_all_tile_props, server_sync_xdg_decorations}

abbrev pub same_layout : Layout → Layout → Bool
same_layout stack stack = true
same_layout tile tile = true
same_layout scroll scroll = true
same_layout _ _ = false

-- Every output's slot of the current workspace starts at the first column.
unfoldable pub reset_slots : Server → Server
reset_slots s = record s {
  outputs =
      map
        (λ (o : Output). record o {
          workspace_scroll_slot = set o.workspace_scroll_slot s.current_workspace (pos 0);
        })
        s.outputs;
}

unfoldable pub raise_focused : Option ℕ → Server → Server
raise_focused none s = s
raise_focused (some f) s = emit (raise_to_top f) s

-- The transition into each layout, once it is set.
unfoldable pub enter_layout : Layout → Server → Server
unfolding raise_focused reset_slots
enter_layout stack s =
    let rest = record (for_toplevels untrack s) { layout_anim_last_ns = 0 } in
    raise_focused rest.focused_toplevel rest
enter_layout tile s = server_arrange_toplevels (server_refresh_all_tile_props s)
enter_layout scroll s =
    server_arrange_toplevels
      (scroll_sync_to_focused (reset_slots (server_refresh_all_tile_props s)))

-- `server_set_layout`
unfoldable pub server_set_layout : Server → Layout → Server
unfolding enter_layout
server_set_layout s layout =
    if same_layout s.layout layout
    then s
    else sync_shell_env
        (server_sync_xdg_decorations (enter_layout layout (record s { layout = layout })))

-- The layout that `server_toggle_layout` asks for.
unfoldable pub toggled : Layout → Layout
toggled scroll = stack
toggled tile = stack
toggled stack = tile

-- `server_toggle_layout`
unfoldable pub server_toggle_layout : Server → Server
server_toggle_layout s = server_set_layout s (toggled s.layout)
