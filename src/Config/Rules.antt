-- ===== src/Config/Rules.antt =====
-- src/config.c, the lookups by window: the first rule in file order whose patterns all match.
use scratch_compositor.Base.{
  Bool, true, false, ◌&&◌, List, [], ◌∷◌, Option, none, some, if◌then◌else◌,
}
use scratch_compositor.Base.Int.{ℤ, pos}
use scratch_compositor.Base.Text.{Bytes}
use scratch_compositor.Config.{Regex, TileRule, DecorationRule, Config}

-- `(app_id && app_id[0]) ? app_id : ""`
unfoldable pub text_or_empty : Option Bytes → Bytes
text_or_empty none = []
text_or_empty (some s) = s

-- One of the tests `have && regexec(...) != 0`, negated.
unfoldable pub pattern_ok : Option Regex → Bytes → Bool
pattern_ok none s = true
pattern_ok (some re) s = re s

-- The loop of `comp_config_tile_props_for_toplevel`: `mode` and `order` of the first match.
unfoldable pub tile_props_of : List TileRule → Bytes → Bytes → Bool × ℤ
unfolding pattern_ok
tile_props_of [] a t = (false, pos 0)
tile_props_of (r ∷ rs) a t =
    if pattern_ok r.app_id_re a && pattern_ok r.title_re t
    then (r.float_in_tile, r.order)
    else tile_props_of rs a t

-- `comp_config_tile_props_for_toplevel`
unfoldable pub tile_props_for_toplevel : Option Config → Option Bytes → Option Bytes → Bool × ℤ
unfolding tile_props_of text_or_empty
tile_props_for_toplevel none app_id title = (false, pos 0)
tile_props_for_toplevel (some cfg) app_id title =
    tile_props_of cfg.tile_rules (text_or_empty app_id) (text_or_empty title)

-- The loop of `comp_config_decoration_prefer_server_side_tile_scroll`, with its default.
unfoldable pub prefer_server_side_of : Bool → List DecorationRule → Bytes → Bytes → Bool
unfolding pattern_ok
prefer_server_side_of default [] a t = default
prefer_server_side_of default (r ∷ rs) a t =
    if pattern_ok r.app_id_re a && pattern_ok r.title_re t
    then r.prefer_server_side
    else prefer_server_side_of default rs a t

-- `comp_config_decoration_prefer_server_side_tile_scroll`
unfoldable pub prefer_server_side_tile_scroll : Option Config → Option Bytes → Option Bytes → Bool
unfolding prefer_server_side_of text_or_empty
prefer_server_side_tile_scroll none app_id title = true
prefer_server_side_tile_scroll (some cfg) app_id title =
    prefer_server_side_of cfg.decoration_strip_default cfg.decoration_rules (text_or_empty app_id)
      (text_or_empty title)
