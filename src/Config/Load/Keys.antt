-- ===== src/Config/Load/Keys.antt =====
-- src/config.c: the lines `key=value` of each section in `comp_config_load`.
use scratch_compositor.Base.{
  ℕ, Bool, true, false, not, ◌||◌, [], ◌∷◌, Option, none, some, ◌==◌, if◌then◌else◌,
}
use scratch_compositor.Base.Int.{pos, to_int}
use scratch_compositor.Base.Text.{Bytes, is_named, strtol_whole}
use scratch_compositor.Config.{Config, Keybind, no_action}
use scratch_compositor.Config.Library.{Library}
use scratch_compositor.Config.Tokens.{
  parse_mods_string, parse_action, parse_bool_yes_no, parse_tile_mode,
}
use scratch_compositor.Config.Flush.{TileRuleParse, DecorationRuleParse, InputMapParse}

-- Which of the flags `in_bind` to `in_input_map` is set.
pub data Section : Type 0 where
  no_section bind tile_rule hooks layout_anim : Section
  decoration decoration_rule pointer input_map : Section

-- The variables of the loop.
pub record Loader : Type 0 where
  pub cfg : Config
  pub cur : Keybind
  pub cur_tile : TileRuleParse
  pub cur_dec : DecorationRuleParse
  pub cur_imap : InputMapParse
  pub section : Section
  pub ok : Bool

abbrev pub empty_bind : Keybind
empty_bind = record { mods = 0; keysym = 0; action = no_action; command = none; when_shell = none }

abbrev pub empty_tile_rule : TileRuleParse
empty_tile_rule = record {
  app_id_pat = none;
  title_pat = none;
  float_in_tile = false;
  order = pos 0;
}

abbrev pub empty_decoration_rule : DecorationRuleParse
empty_decoration_rule = record { app_id_pat = none; title_pat = none; strip = none }

abbrev pub empty_input_map : InputMapParse
empty_input_map = record { match_pat = none; output_name = none; type_str = none }

-- What follows a step that may fail.
abbrev pub and_then {ℓ κ} : {A : Type ℓ} → {B : Type κ} → Option A → (A → Option B) → Option B
and_then none f = none
and_then (some a) f = f a

-- An assignment where the value parses; otherwise `ok = false`, which ends the loop.
abbrev pub assign {ℓ κ} : {A : Type ℓ} → {B : Type κ} → Option A → (A → B) → Option B
assign none f = none
assign (some a) f = some (f a)

key_of_bind : Library → Bytes → Bytes → Keybind → Option Keybind
unfolding is_named parse_mods_string parse_action
key_of_bind lib key v b =
    let sym = lib.keysym_from_name v in
    if is_named key ("mods" ∷ [])
    then assign (parse_mods_string v) (λ m. record b { mods = m })
    else if is_named key ("key" ∷ [])
    then (if sym == 0 then none else some (record b { keysym = sym }))
    else if is_named key ("action" ∷ [])
    then assign (parse_action v) (λ a. record b { action = a })
    else if is_named key ("command" ∷ [])
    then some (record b { command = some v })
    else if is_named key ("when" ∷ [])
    then some (record b { when_shell = some v })
    else none

key_of_tile_rule : Bytes → Bytes → TileRuleParse → Option TileRuleParse
unfolding is_named parse_tile_mode strtol_whole to_int
key_of_tile_rule key v p =
    if is_named key ("app_id" ∷ "app-id" ∷ [])
    then some (record p { app_id_pat = some v })
    else if is_named key ("title" ∷ [])
    then some (record p { title_pat = some v })
    else if is_named key ("mode" ∷ [])
    then assign (parse_tile_mode v) (λ f. record p { float_in_tile = f })
    else if is_named key ("order" ∷ [])
    then assign (strtol_whole v) (λ n. record p { order = to_int n })
    else none

unfoldable pub key_of_hooks : Bytes → Bytes → Config → Option Config
unfolding is_named
key_of_hooks key v cfg =
    if is_named key ("startup" ∷ "on_startup" ∷ [])
    then some (record cfg { hook_startup = some v })
    else if is_named key ("shutdown" ∷ "on_shutdown" ∷ [])
    then some (record cfg { hook_shutdown = some v })
    else if is_named key ("reload" ∷ "on_reload" ∷ [])
    then some (record cfg { hook_reload = some v })
    else none

abbrev at_end : Option Bytes → Bool
at_end (some []) = true
at_end _ = false

-- `parse_layout_anim_double`
unfoldable pub parse_layout_anim_double : Library → Bytes → ℕ → ℕ → Option ℕ
parse_layout_anim_double lib v min max =
    let n = lib.strtod v in
    if not (at_end n.end)
      || (n.out_of_range || (lib.double_lt n.value min || lib.double_lt max n.value))
    then none
    else some n.value

-- The bounds are the doubles 0.5 and 120, 0.05 and 64.
unfoldable pub key_of_layout_anim : Library → Bytes → Bytes → Config → Option Config
unfolding is_named parse_bool_yes_no parse_layout_anim_double
key_of_layout_anim lib key v cfg =
    if is_named key ("enabled" ∷ "enable" ∷ [])
    then assign (parse_bool_yes_no v) (λ b. record cfg { layout_anim_enabled = b })
    else if is_named key ("lambda" ∷ "speed" ∷ [])
    then assign (parse_layout_anim_double lib v 4602678819172646912 4638144666238189568)
        (λ d. record cfg { layout_anim_lambda = d })
    else if is_named key ("epsilon" ∷ "snap" ∷ [])
    then assign (parse_layout_anim_double lib v 4587366580439587226 4634204016564240384)
        (λ d. record cfg { layout_anim_epsilon = d })
    else none

unfoldable pub key_of_decoration : Bytes → Bytes → Config → Option Config
unfolding is_named parse_bool_yes_no
key_of_decoration key v cfg =
    if is_named key ("strip_in_tile_scroll" ∷ "default_strip" ∷ "strip" ∷ [])
    then assign (parse_bool_yes_no v) (λ b. record cfg { decoration_strip_default = b })
    else none

key_of_decoration_rule : Bytes → Bytes → DecorationRuleParse → Option DecorationRuleParse
unfolding is_named parse_bool_yes_no
key_of_decoration_rule key v p =
    if is_named key ("app_id" ∷ "app-id" ∷ [])
    then some (record p { app_id_pat = some v })
    else if is_named key ("title" ∷ [])
    then some (record p { title_pat = some v })
    else if is_named key ("strip" ∷ [])
    then assign (parse_bool_yes_no v) (λ b. record p { strip = some b })
    else none

key_of_input_map : Bytes → Bytes → InputMapParse → Option InputMapParse
unfolding is_named
key_of_input_map key v p =
    if is_named key ("match" ∷ "name" ∷ [])
    then some (record p { match_pat = some v })
    else if is_named key ("output" ∷ [])
    then some (record p { output_name = some v })
    else if is_named key ("type" ∷ [])
    then some (record p { type_str = some v })
    else none

-- The keys of [pointer], which are read for old files and have no effect.
unfoldable pub key_of_pointer : Bytes → Bool
unfolding is_named
key_of_pointer key = is_named key ("resize_border_px" ∷ "resize_border" ∷ [])

-- The chain of the loop over the sections; `none` is `ok = false`.
unfoldable pub set_key_in : Library → Section → Bytes → Bytes → Loader → Option Loader
unfolding key_of_bind key_of_tile_rule key_of_decoration_rule key_of_input_map
set_key_in lib no_section key v l = none
set_key_in lib bind key v l = assign (key_of_bind lib key v l.cur) (λ b. record l { cur = b })
set_key_in lib tile_rule key v l =
    assign (key_of_tile_rule key v l.cur_tile) (λ p. record l { cur_tile = p })
set_key_in lib hooks key v l = assign (key_of_hooks key v l.cfg) (λ c. record l { cfg = c })
set_key_in lib layout_anim key v l =
    assign (key_of_layout_anim lib key v l.cfg) (λ c. record l { cfg = c })
set_key_in lib decoration key v l =
    assign (key_of_decoration key v l.cfg) (λ c. record l { cfg = c })
set_key_in lib decoration_rule key v l =
    assign (key_of_decoration_rule key v l.cur_dec) (λ p. record l { cur_dec = p })
set_key_in lib pointer key v l = if key_of_pointer key then some l else none
set_key_in lib input_map key v l =
    assign (key_of_input_map key v l.cur_imap) (λ p. record l { cur_imap = p })

unfoldable pub set_key : Library → Bytes → Bytes → Loader → Option Loader
unfolding set_key_in
set_key lib key v l = set_key_in lib l.section key v l
