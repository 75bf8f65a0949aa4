-- ===== src/Decoration.antt =====
-- src/main.c: the rule results of a window, and the xdg-decoration mode that follows from them.
use scratch_compositor.Base.{Bool, true, false, ◌&&◌, Option, none, some, if◌then◌else◌}
use scratch_compositor.Base.Int.{pos}
use scratch_compositor.Config.{Config}
use scratch_compositor.Config.Rules.{tile_props_for_toplevel, prefer_server_side_tile_scroll}
use scratch_compositor.Server.{
  Layout, DecorationMode, client_side, server_side, Toplevel, Server, is_tiling, for_toplevels,
}

-- `toplevel_refresh_tile_props`
unfoldable pub toplevel_refresh_tile_props : Option Config → Toplevel → Toplevel
toplevel_refresh_tile_props none t = record t { tile_float = false; tile_order = pos 0 }
toplevel_refresh_tile_props (some cfg) t =
    let props = tile_props_for_toplevel (some cfg) (some t.app_id) (some t.title) in
    record t { tile_float = props.0; tile_order = props.1 }

-- `server_refresh_all_tile_props`
unfoldable pub server_refresh_all_tile_props : Server → Server
server_refresh_all_tile_props s = for_toplevels (toplevel_refresh_tile_props s.config) s

-- The mode that `toplevel_apply_decoration_mode` chooses.
unfoldable pub wanted_mode : Layout → Option Config → Toplevel → DecorationMode
wanted_mode layout cfg t =
    if is_tiling layout
    then (if t.tile_float
        then client_side
        else if prefer_server_side_tile_scroll cfg (some t.app_id) (some t.title)
        then server_side
        else client_side)
    else client_side

abbrev same_mode : DecorationMode → DecorationMode → Bool
same_mode client_side client_side = true
same_mode server_side server_side = true
same_mode _ _ = false

-- The mode to send: none where the current and the scheduled one are the wanted one already.
schedule_mode :
    DecorationMode
    → Option (DecorationMode × DecorationMode)
    → Option (DecorationMode × DecorationMode)
schedule_mode mode none = none
schedule_mode mode (some (current, scheduled)) =
    if same_mode current mode && same_mode scheduled mode
    then some (current, scheduled)
    else some (current, mode)

-- `toplevel_apply_decoration_mode`
unfoldable pub toplevel_apply_decoration_mode : Layout → Option Config → Toplevel → Toplevel
unfolding schedule_mode wanted_mode
toplevel_apply_decoration_mode layout cfg t =
    if t.initialized
    then record t { decoration = schedule_mode (wanted_mode layout cfg t) t.decoration }
    else t

-- `server_sync_xdg_decorations`
unfoldable pub server_sync_xdg_decorations : Server → Server
server_sync_xdg_decorations s = for_toplevels (toplevel_apply_decoration_mode s.layout s.config) s
