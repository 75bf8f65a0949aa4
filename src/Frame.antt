-- ===== src/Frame.antt =====
-- The frame of an operation: the windows with their identities, keys, workspaces and surfaces, the
-- focus, the layout, the grab, the configuration and the generator of keys stay as they are.
use scratch_compositor.Base.{
  ℕ, suc, ◌≡◌, refl, ◌∙◌, Bool, true, false, List, [], ◌∷◌, Option, arith, ◌==◌, Pointwise,
  Pointwise-refl, Pointwise-trans, Pointwise-map, if◌then◌else◌,
}
use scratch_compositor.Base.Int.{ℤ}
use scratch_compositor.Config.{Config}
use scratch_compositor.Server.{
  Box, Layout, Toplevel, Output, Event, Server, emit, modify, update_toplevel, for_toplevels,
}
use scratch_compositor.Arrange.{
  place_view, place_views, set_scroll_slot, arrange_output, arrange_outputs,
  server_arrange_toplevels, server_workspace_apply_visibility, layer_shell_arrange, untrack,
  untrack_unplaced, arrange_views, arrange_if_outputs,
}
use scratch_compositor.Tiling.{tile_sorted_views}
use scratch_compositor.Decoration.{toplevel_apply_decoration_mode, server_sync_xdg_decorations}

pub record SameWindow (a b : Toplevel) : Type 0 where
  pub id : a.id ≡ b.id
  pub mapped : a.mapped ≡ b.mapped
  pub initialized : a.initialized ≡ b.initialized
  pub key : a.tile_user_key ≡ b.tile_user_key
  pub workspace : a.workspace ≡ b.workspace

pub record Frame (s s' : Server) : Type 0 where
  pub windows : Pointwise SameWindow s.toplevels s'.toplevels
  pub layout : s.layout ≡ s'.layout
  pub focused : s.focused_toplevel ≡ s'.focused_toplevel
  pub current : s.current_workspace ≡ s'.current_workspace
  pub grab : s.grab ≡ s'.grab
  pub grabbed : s.grabbed_toplevel ≡ s'.grabbed_toplevel
  pub keyboard : s.keyboard_focus ≡ s'.keyboard_focus
  pub config : s.config ≡ s'.config
  pub key_gen : s.tile_user_key_gen ≡ s'.tile_user_key_gen

pub SameWindow-refl : (a : Toplevel) → SameWindow a a
SameWindow-refl a = ground arith

SameWindow-trans : (a b c : Toplevel) → SameWindow a b → SameWindow b c → SameWindow a c
SameWindow-trans a b c h k = ground arith

pub Frame-refl : (s : Server) → Frame s s
Frame-refl s = record {
  windows = Pointwise-refl SameWindow SameWindow-refl s.toplevels;
  layout = refl;
  focused = refl;
  current = refl;
  grab = refl;
  grabbed = refl;
  keyboard = refl;
  config = refl;
  key_gen = refl;
}

pub Frame-trans : {a b c : Server} → Frame a b → Frame b c → Frame a c
Frame-trans {a} {b} {c} h k = record {
  windows =
      Pointwise-trans SameWindow SameWindow-trans a.toplevels b.toplevels c.toplevels h.windows
        k.windows;
  layout = h.layout ∙ k.layout;
  focused = h.focused ∙ k.focused;
  current = h.current ∙ k.current;
  grab = h.grab ∙ k.grab;
  grabbed = h.grabbed ∙ k.grabbed;
  keyboard = h.keyboard ∙ k.keyboard;
  config = h.config ∙ k.config;
  key_gen = h.key_gen ∙ k.key_gen;
}

pub Frame-emit : (e : Event) (s : Server) → Frame s (emit e s)
Frame-emit e s = record {
  windows = Pointwise-refl SameWindow SameWindow-refl s.toplevels;
  layout = refl;
  focused = refl;
  current = refl;
  grab = refl;
  grabbed = refl;
  keyboard = refl;
  config = refl;
  key_gen = refl;
}

-- A pass over the windows that keeps each the same.
pub Frame-for_toplevels :
    (f : Toplevel → Toplevel) (s : Server)
    → ((t : Toplevel) → SameWindow t (f t))
    → Frame s (for_toplevels f s)
Frame-for_toplevels f s h = record {
  windows = Pointwise-map SameWindow f h s.toplevels;
  layout = refl;
  focused = refl;
  current = refl;
  grab = refl;
  grabbed = refl;
  keyboard = refl;
  config = refl;
  key_gen = refl;
}

pub Frame-modify :
    (i : ℕ) (f : Toplevel → Toplevel) (s : Server)
    → ((t : Toplevel) → SameWindow t (f t))
    → Frame s (modify i f s)
unfolding update_toplevel
Frame-modify i f s h = Frame-for_toplevels (λ t. if t.id == i then f t else t) s (λ t. one t)
  where
    one : (t : Toplevel) → SameWindow t (if t.id == i then f t else t)
    one t = elim (t.id == i) as (λ b. SameWindow t (if b then f t else t)) [
      | true ↦ h t
      | false ↦ SameWindow-refl t
    ]

-- A change of the outputs alone.
pub Frame-outputs : (os : List Output) (s : Server) → Frame s (record s { outputs = os })
Frame-outputs os s = record {
  windows = Pointwise-refl SameWindow SameWindow-refl s.toplevels;
  layout = refl;
  focused = refl;
  current = refl;
  grab = refl;
  grabbed = refl;
  keyboard = refl;
  config = refl;
  key_gen = refl;
}

place_view-SameWindow :
    (anim_on : Bool) (cell : Box) (t : Toplevel) → SameWindow t (place_view anim_on cell t)
unfolding place_view
place_view-SameWindow anim_on cell t = ground arith

place_views-Frame :
    (anim_on : Bool) (cell : ℕ → Box) (j : ℕ) (vs : List Toplevel) (s : Server)
    → Frame s (place_views anim_on cell j vs s)
unfolding place_views
place_views-Frame anim_on cell j [] s = Frame-refl s
place_views-Frame anim_on cell j (v ∷ vs) s =
    Frame-trans
      (Frame-modify v.id (place_view anim_on (cell j)) s (place_view-SameWindow anim_on (cell j)))
      (place_views-Frame anim_on cell (suc j) vs _)

pub set_scroll_slot-Frame : (out ws : ℕ) (v : ℤ) (s : Server) → Frame s (set_scroll_slot out ws v s)
unfolding set_scroll_slot
set_scroll_slot-Frame out ws v s = Frame-outputs _ s

pub if-Frame : (b : Bool) (s x y : Server) → Frame s x → Frame s y → Frame s (if b then x else y)
if-Frame true s x y h k = h
if-Frame false s x y h k = k

arrange_output-Frame :
    (anim_on : Bool) (full : List ℕ) (o : Output) (s : Server)
    → Frame s (arrange_output anim_on full o s)
unfolding arrange_output
arrange_output-Frame anim_on full o s = if-Frame _ s _ _ (Frame-refl s) (
    if-Frame _ s _ _
      (Frame-trans (set_scroll_slot-Frame o.id s.current_workspace _ s)
        (place_views-Frame _ _ 0 _ _))
      (place_views-Frame _ _ 0 _ s))

arrange_outputs-Frame :
    (anim_on : Bool) (full : List ℕ) (os : List Output) (s : Server)
    → Frame s (arrange_outputs anim_on full os s)
unfolding arrange_outputs
arrange_outputs-Frame anim_on full [] s = Frame-refl s
arrange_outputs-Frame anim_on full (o ∷ os) s =
    Frame-trans (arrange_output-Frame anim_on full o s) (arrange_outputs-Frame anim_on full os _)

pub untrack-SameWindow : (t : Toplevel) → SameWindow t (untrack t)
untrack-SameWindow t = ground arith

untrack_unplaced-SameWindow : (t : Toplevel) → SameWindow t (untrack_unplaced t)
untrack_unplaced-SameWindow t = ground arith

arrange_views-Frame : (vs : List Toplevel) (s : Server) → Frame s (arrange_views vs s)
unfolding arrange_views
arrange_views-Frame [] s = Frame-for_toplevels untrack s untrack-SameWindow
arrange_views-Frame (v ∷ vs) s =
    Frame-trans (Frame-for_toplevels untrack_unplaced s untrack_unplaced-SameWindow)
      (arrange_outputs-Frame _ _ _ _)

arrange_if_outputs-Frame : (os : List Output) (s : Server) → Frame s (arrange_if_outputs os s)
unfolding arrange_if_outputs
arrange_if_outputs-Frame [] s = Frame-refl s
arrange_if_outputs-Frame (o ∷ os) s = arrange_views-Frame (tile_sorted_views s) s

-- Arranging the windows changes no window's place in the tile order, no workspace, no surface and
-- no focus.
pub server_arrange_toplevels-Frame : (s : Server) → Frame s (server_arrange_toplevels s)
unfolding server_arrange_toplevels
server_arrange_toplevels-Frame s =
    if-Frame _ s _ _ (arrange_if_outputs-Frame s.outputs s) (Frame-refl s)

pub server_workspace_apply_visibility-Frame :
    (s : Server) → Frame s (server_workspace_apply_visibility s)
unfolding server_workspace_apply_visibility
server_workspace_apply_visibility-Frame s = Frame-for_toplevels _ s (λ t. shown t _)
  where
    shown : (t : Toplevel) (b : Bool) → SameWindow t (record t { node_enabled = b })
    shown t b = ground arith

pub layer_shell_arrange-Frame : (s : Server) → Frame s (layer_shell_arrange s)
unfolding layer_shell_arrange
layer_shell_arrange-Frame s =
    let areas = Frame-outputs _ s in
    let shown = Frame-trans areas (server_workspace_apply_visibility-Frame _) in
    if-Frame _ s _ _ (Frame-trans shown (server_arrange_toplevels-Frame _)) shown

pub toplevel_apply_decoration_mode-SameWindow :
    (layout : Layout) (cfg : Option Config) (t : Toplevel)
    → SameWindow t (toplevel_apply_decoration_mode layout cfg t)
unfolding toplevel_apply_decoration_mode
toplevel_apply_decoration_mode-SameWindow layout cfg t = ground arith

pub server_sync_xdg_decorations-Frame : (s : Server) → Frame s (server_sync_xdg_decorations s)
unfolding server_sync_xdg_decorations
server_sync_xdg_decorations-Frame s =
    Frame-for_toplevels _ s (toplevel_apply_decoration_mode-SameWindow s.layout s.config)
