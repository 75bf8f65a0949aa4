-- ===== src/Invariant/Ipc.antt =====
-- About `ipc_process_line`, `server_reload_config` and the invariant.
use Prim.Native.String.{String}
use scratch_compositor.Base.{
  ◌||◌, Option, none, some, if_cases, true, false, refl, sym, ◌≡◌, ◌≢◌, [], ◌∷◌,
}
use scratch_compositor.Base.Int.{ℤ, pos, negsuc, ◌-ℤ◌, to_int}
use scratch_compositor.Base.Text.{Bytes, codes, is_named, strip_prefix, trim, strtol_whole}
use scratch_compositor.Config.{Config}
use scratch_compositor.Config.Library.{Library}
use scratch_compositor.Config.Flush.{in_workspaces}
use scratch_compositor.Config.Grid.{is_empty}
use scratch_compositor.Config.Load.{comp_config_load}
use scratch_compositor.Config.Flush.Valid.{Valid}
use scratch_compositor.Config.Load.Result.{comp_config_load-Valid}
use scratch_compositor.Server.{Server, stack, tile, scroll}
use scratch_compositor.Workspace.{server_workspace_go, server_workspace_move_focused}
use scratch_compositor.Command.{is_blank_or_newline}
use scratch_compositor.Ipc.{
  adopt_loaded, server_reload_config, ipc_layout, go_to_number, ipc_workspace_word, ipc_workspace,
  tile_move_number, ipc_tile_move, scroll_number, ipc_scroll_word, ipc_scroll, ipc_command,
  ipc_process_line, skip_blanks, is_word, on_prefix,
}
use scratch_compositor.Invariant.Defs.{Inv}
use scratch_compositor.Invariant.Layout.{
  server_set_layout-Inv, server_toggle_layout-Inv, adopt_config-Inv, adopt_config-Frame,
}
use scratch_compositor.Invariant.Workspace.{
  server_workspace_go-Inv, server_workspace_relative-Inv, server_workspace_move_focused-Inv,
}
use scratch_compositor.Invariant.Move.{
  OutcomeInv, server_tile_move_focused_n-Inv, server_tile_move_focused_edge-Inv,
  server_scroll_move-Inv,
}
use scratch_compositor.Invariant.Commands.{server_tile_grid_run_command-Inv}

-- A prefix test, with what holds in either case.
on_prefix_cases {ℓ κ} :
    {A : Type ℓ} (P : A → Type κ) (p : String) (line : Bytes) (f : Bytes → A) (other : A)
    → ((rest : Bytes) → P (f rest))
    → P other
    → P (on_prefix p line f other)
on_prefix_cases P p line f other h k =
    elim (strip_prefix (codes p) line) as (λ o. P (elim o [ none ↦ other | some rest ↦ f rest ])) [
      | none ↦ k
      | some rest ↦ h rest
    ]

adopt_loaded-Inv : (o : Option Config) (s : Server) → Inv s → Inv (adopt_loaded o s).0
unfolding adopt_loaded
adopt_loaded-Inv none s v = v
adopt_loaded-Inv (some cfg) s v = adopt_config-Inv cfg s v

server_reload_config-Inv :
    (lib : Library) (source : Option (Option Bytes)) (s : Server)
    → Inv s
    → Inv (server_reload_config lib source s).0
unfolding server_reload_config
server_reload_config-Inv lib none s v = v
server_reload_config-Inv lib (some file) s v = adopt_loaded-Inv (comp_config_load lib file) s v

adopt_loaded_lem :
    (lib : Library) (file : Option Bytes) (o : Option Config) (s : Server)
    → comp_config_load lib file ≡ o
    → let r = adopt_loaded o s in
      (r.1 ≡ false → r.0 ≡ s)
      × (r.1 ≡ true
          → (cfg : Config) × (r.0.config ≡ some cfg)
            × (comp_config_load lib file ≡ some cfg)
            × Valid cfg
            × (cfg.binds ≢ []))
unfolding adopt_loaded
adopt_loaded_lem lib file none s e = ((λ h. refl), λ h. cc h)
adopt_loaded_lem lib file (some cfg) s e = (
  (λ h. cc h),
  λ h.
      let (valid, bound) = comp_config_load-Valid lib file cfg e in
      (cfg, sym (adopt_config-Frame cfg s).config, e, valid, bound),
)

-- A reload that fails, for want of a path or by an error in the file, leaves the server as it was.
-- One that succeeds has the server use the configuration of the file, which has a bind, and whose
-- binds and input maps are all complete.
pub server_reload_config_lem :
    (lib : Library) (source : Option Bytes) (s : Server)
    → (server_reload_config lib none s ≡ (s, false))
      × (let r = server_reload_config lib (some source) s in
          (r.1 ≡ false → r.0 ≡ s)
          × (r.1 ≡ true
              → (cfg : Config) × (r.0.config ≡ some cfg)
                × (comp_config_load lib source ≡ some cfg)
                × Valid cfg
                × (cfg.binds ≢ [])))
unfolding server_reload_config
server_reload_config_lem lib source s =
    (refl, adopt_loaded_lem lib source (comp_config_load lib source) s refl)

ipc_layout-Inv : (rest : Bytes) (s : Server) → Inv s → Inv (ipc_layout rest s)
unfolding ipc_layout
ipc_layout-Inv rest s v =
    let w = skip_blanks rest in
    if_cases Inv (is_word w "toggle") _ _ (λ e. server_toggle_layout-Inv s v)
      (λ e.
        if_cases Inv (is_word w "tile") _ _ (λ e. server_set_layout-Inv s tile v)
          (λ e.
            if_cases Inv (is_word w "scroll") _ _ (λ e. server_set_layout-Inv s scroll v)
              (λ e.
                if_cases Inv (is_word w "stack") _ _ (λ e. server_set_layout-Inv s stack v)
                  (λ e. v))))

go_to_number-Inv :
    (z : Option ℤ) (f : ℤ → Server) (s : Server)
    → ((w : ℤ) → Inv (f w))
    → Inv s
    → Inv (go_to_number z f s)
unfolding go_to_number
go_to_number-Inv none f s h v = v
go_to_number-Inv (some w) f s h v =
    if_cases Inv (in_workspaces (some w)) (f (w -ℤ pos 1)) s (λ e. h (w -ℤ pos 1)) (λ e. v)

ipc_workspace_word-Inv : (w : Bytes) (s : Server) → Inv s → Inv (ipc_workspace_word w s)
unfolding ipc_workspace_word
ipc_workspace_word-Inv w s v =
    if_cases Inv (is_word w "next") _ _ (λ e. server_workspace_relative-Inv s (pos 1) v)
      (λ e.
        if_cases Inv (is_word w "prev") _ _ (λ e. server_workspace_relative-Inv s (negsuc 0) v)
          (λ e.
            go_to_number-Inv (strtol_whole w) (server_workspace_go s) s
              (λ z. server_workspace_go-Inv s z v) v))

ipc_workspace-Inv : (rest : Bytes) (s : Server) → Inv s → Inv (ipc_workspace rest s)
unfolding ipc_workspace
ipc_workspace-Inv rest s v =
    on_prefix_cases Inv "move " (skip_blanks rest) _ _
      (λ n.
        go_to_number-Inv (strtol_whole (skip_blanks n)) (server_workspace_move_focused s) s
          (λ z. server_workspace_move_focused-Inv s z v) v)
      (ipc_workspace_word-Inv (skip_blanks rest) s v)

tile_move_number-Inv : (z : Option ℤ) (s : Server) → Inv s → Inv (tile_move_number z s)
unfolding tile_move_number
tile_move_number-Inv none s v = v
tile_move_number-Inv (some z) s v = server_tile_move_focused_n-Inv s (to_int z) v

ipc_tile_move-Inv : (rest : Bytes) (s : Server) → Inv s → OutcomeInv (ipc_tile_move rest s)
unfolding ipc_tile_move
ipc_tile_move-Inv rest s v =
    let w = skip_blanks rest in
    if_cases OutcomeInv (is_word w "prev") _ _ (λ e. server_tile_move_focused_n-Inv s (negsuc 0) v)
      (λ e.
        if_cases OutcomeInv (is_word w "next") _ _ (λ e. server_tile_move_focused_n-Inv s (pos 1) v)
          (λ e.
            if_cases OutcomeInv (is_word w "first") _ _
              (λ e. server_tile_move_focused_edge-Inv s true v)
              (λ e.
                if_cases OutcomeInv (is_word w "last") _ _
                  (λ e. server_tile_move_focused_edge-Inv s false v)
                  (λ e. tile_move_number-Inv (strtol_whole w) s v))))

scroll_number-Inv : (z : Option ℤ) (s : Server) → Inv s → Inv (scroll_number z s)
unfolding scroll_number
scroll_number-Inv none s v = v
scroll_number-Inv (some z) s v = server_scroll_move-Inv s (to_int z) v

ipc_scroll_word-Inv : (w : Bytes) (s : Server) → Inv s → Inv (ipc_scroll_word w s)
unfolding ipc_scroll_word
ipc_scroll_word-Inv w s v =
    if_cases Inv (is_word w "prev" || is_word w "left") _ _
      (λ e. server_scroll_move-Inv s (negsuc 0) v)
      (λ e.
        if_cases Inv (is_word w "next" || is_word w "right") _ _
          (λ e. server_scroll_move-Inv s (pos 1) v) (λ e. scroll_number-Inv (strtol_whole w) s v))

ipc_scroll-Inv : (rest : Bytes) (s : Server) → Inv s → Inv (ipc_scroll rest s)
unfolding ipc_scroll
ipc_scroll-Inv rest s v =
    on_prefix_cases Inv "move " (skip_blanks rest) _ _
      (λ n. ipc_scroll_word-Inv (skip_blanks n) s v) (ipc_scroll_word-Inv (skip_blanks rest) s v)

ipc_command-Inv :
    (lib : Library) (source : Option (Option Bytes)) (line : Bytes) (s : Server)
    → Inv s
    → OutcomeInv (ipc_command lib source line s)
unfolding ipc_command
ipc_command-Inv lib source line s v =
    on_prefix_cases OutcomeInv "layout " line _ _ (λ r. ipc_layout-Inv r s v)
      (on_prefix_cases OutcomeInv "workspace " line _ _ (λ r. ipc_workspace-Inv r s v)
        (on_prefix_cases OutcomeInv "tile move " line _ _ (λ r. ipc_tile_move-Inv r s v)
          (on_prefix_cases OutcomeInv "tile grid " line _ _
            (λ r. server_tile_grid_run_command-Inv s (some (skip_blanks r)) v)
            (on_prefix_cases OutcomeInv "scroll " line _ _ (λ r. ipc_scroll-Inv r s v)
              (if_cases OutcomeInv (is_named line ("reload config" ∷ "reload" ∷ [])) _ (some s)
                (λ e. server_reload_config-Inv lib source s v) (λ e. v))))))

-- Whatever the text of a line, and whatever a reload reads, an IPC command ends (every loop has
-- enough fuel), in a state in which the invariant of windows and focus holds.
pub ipc_process_line-Inv :
    (lib : Library) (source : Option (Option Bytes)) (s : Server) (line : Bytes)
    → Inv s
    → OutcomeInv (ipc_process_line lib source s line)
unfolding ipc_process_line
ipc_process_line-Inv lib source s line v =
    let l = trim is_blank_or_newline line in
    if_cases OutcomeInv (is_empty l) (some s) (ipc_command lib source l s) (λ e. v)
      (λ e. ipc_command-Inv lib source l s v)
