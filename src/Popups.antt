-- ===== src/Popups.antt =====
-- src/main.c, the popups of windows and of layer surfaces, after wlroots has stored a commit. An
-- operation gives `none` where it would read through a NULL pointer.
use scratch_compositor.Base.{Bool, true, false, Option, none, some, if◌then◌else◌}
use scratch_compositor.Base.Int.{◌+ℤ◌, ◌-ℤ◌}
use scratch_compositor.Server.{Box, Toplevel, Layer, Server}
use scratch_compositor.Tiling.{comp_output_from_wlr, toplevel_tile_output}

-- `struct comp_popup` and `struct comp_layer_popup`: whether the popup's surface is initialized,
-- whether the listener of the first commit is attached, and the box it was last fitted in.
pub record Popup : Type 0 where
  pub initialized : Bool
  pub commit_attached : Bool
  pub unconstrained : Option Box

-- The box that the source passes to `wlr_xdg_popup_unconstrain_from_box`, relative to the window.
unfoldable pub popup_box : Toplevel → Box → Box
popup_box view usable = record {
  x = (usable.x -ℤ view.node_x) +ℤ view.geo_x;
  y = (usable.y -ℤ view.node_y) +ℤ view.geo_y;
  width = usable.width;
  height = usable.height;
}

unfoldable pub fit : Box → Popup → Popup
fit box popup = record popup { unconstrained = some box }

-- `popup_unconstrain`, which reads the output without a test.
unfoldable pub popup_unconstrain : Server → Toplevel → Popup → Option (Popup × Bool)
unfolding popup_box fit
popup_unconstrain s view popup =
    let ready : Option (Popup × Bool) = elim (toplevel_tile_output s view) [
      | none ↦ none
      | some out ↦ some (fit (popup_box view out.layer_workarea) popup, true)
    ] in
    if popup.initialized then ready else some (popup, false)

-- The listener of the first commit is detached once the popup has been fitted.
unfoldable pub after_commit : Popup × Bool → Popup
after_commit (popup, true) = record popup { commit_attached = false }
after_commit (popup, false) = popup

-- `popup_handle_commit`
unfoldable pub popup_handle_commit : Server → Toplevel → Popup → Option Popup
unfolding popup_unconstrain after_commit
popup_handle_commit s view popup = elim (popup_unconstrain s view popup) [
  | none ↦ none
  | some r ↦ some (after_commit r)
]

-- `popup_handle_reposition`
unfoldable popup_handle_reposition : Server → Toplevel → Popup → Option Popup
unfolding popup_unconstrain
popup_handle_reposition s view popup = elim (popup_unconstrain s view popup) [
  | none ↦ none
  | some r ↦ some r.0
]

-- `layer_popup_unconstrain`: the whole output where it is not listed.
unfoldable layer_popup_unconstrain : Server → Layer → Popup → Popup × Bool
unfolding fit
layer_popup_unconstrain s layer popup =
    let box : Box = elim (comp_output_from_wlr s.outputs (some layer.output)) [
      | none ↦ s.wlroots.output_box layer.output
      | some out ↦ out.layer_workarea
    ] in
    if popup.initialized then (fit box popup, true) else (popup, false)

-- `layer_popup_handle_commit`
unfoldable layer_popup_handle_commit : Server → Layer → Popup → Popup
unfolding layer_popup_unconstrain after_commit
layer_popup_handle_commit s layer popup = after_commit (layer_popup_unconstrain s layer popup)

-- `layer_popup_handle_reposition`
unfoldable layer_popup_handle_reposition : Server → Layer → Popup → Popup
unfolding layer_popup_unconstrain
layer_popup_handle_reposition s layer popup = (layer_popup_unconstrain s layer popup).0
