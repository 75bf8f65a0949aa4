-- ===== src/Tests/Popups.antt =====
-- Runs of the popups: one that is fitted, and one without an output.
use scratch_compositor.Base.{true, false, [], none, some, ◌≡◌, refl}
use scratch_compositor.Base.Int.{◌+ℤ◌, ◌-ℤ◌}
use scratch_compositor.Server.{tile}
use scratch_compositor.Popups.{
  Popup, popup_handle_commit, popup_unconstrain, popup_box, after_commit, fit,
}
use scratch_compositor.Tiling.{toplevel_tile_output, comp_output_from_wlr, primary_wlr_output}
use scratch_compositor.Tests.{screen, window, wlroots_here, server_with}

abbrev fresh_popup : Popup
fresh_popup = record { initialized = true; commit_attached = true; unconstrained = none }

-- The popup is fitted into the work area at its first commit.
fitted :
    popup_handle_commit (server_with tile) (window 1 10 0) fresh_popup
    ≡ some (record { initialized = true; commit_attached = false; unconstrained = some screen })
unfolding popup_handle_commit popup_unconstrain popup_box after_commit fit toplevel_tile_output ◌+ℤ◌
    ◌-ℤ◌
fitted = refl

-- No output is left: the commit reads the work area of a NULL output.
unplugged :
    popup_handle_commit
      (record (server_with tile) {
        outputs = [];
        wlroots = record wlroots_here { output_at_cursor = none };
      })
      (window 1 10 0)
      fresh_popup
    ≡ none
unfolding popup_handle_commit popup_unconstrain toplevel_tile_output primary_wlr_output
    comp_output_from_wlr
unplugged = refl
