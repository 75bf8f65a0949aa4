-- ===== src/Invariant/Commands.antt =====
-- About `server_tile_grid_run_command` and the invariant.
use scratch_compositor.Base.{true, false, not, Option, none, some, if_cases, [], ◌∷◌, take}
use scratch_compositor.Base.Int.{ℤ, pos, negsuc, ltb_ℤ}
use scratch_compositor.Base.Text.{Bytes, is_named, strtol_whole, trim}
use scratch_compositor.Config.Grid.{is_empty}
use scratch_compositor.Server.{Server}
use scratch_compositor.Command.{
  run_direction, run_legacy, direction_or_legacy, run_word, server_tile_grid_run_command,
  scan_direction, is_blank_or_newline,
}
use scratch_compositor.Invariant.Defs.{Inv}
use scratch_compositor.Invariant.Move.{
  OutcomeInv, server_tile_move_focused_grid_vert-Inv, server_tile_move_focused_grid_horiz-Inv,
  server_tile_move_focused_grid_vert_edge-Inv,
}

run_direction-Inv : (d : Bytes × ℤ) (s : Server) → Inv s → Inv (run_direction d s)
unfolding run_direction
run_direction-Inv (dir, steps) s v =
    if_cases Inv (not (ltb_ℤ (pos 0) steps)) s _ (λ e. v)
      (λ e.
        if_cases Inv (is_named dir ("left" ∷ [])) _ _
          (λ e. server_tile_move_focused_grid_horiz-Inv s _ v)
          (λ e.
            if_cases Inv (is_named dir ("right" ∷ [])) _ _
              (λ e. server_tile_move_focused_grid_horiz-Inv s steps v)
              (λ e.
                if_cases Inv (is_named dir ("up" ∷ [])) _ _
                  (λ e. server_tile_move_focused_grid_vert-Inv s _ v)
                  (λ e.
                    if_cases Inv (is_named dir ("down" ∷ [])) _ s
                      (λ e. server_tile_move_focused_grid_vert-Inv s steps v) (λ e. v)))))

run_legacy-Inv : (z : Option ℤ) (s : Server) → Inv s → Inv (run_legacy z s)
unfolding run_legacy
run_legacy-Inv none s v = v
run_legacy-Inv (some z) s v = server_tile_move_focused_grid_vert-Inv s _ v

direction_or_legacy-Inv :
    (d : Option (Bytes × ℤ)) (z : Option ℤ) (s : Server) → Inv s → Inv (direction_or_legacy d z s)
unfolding direction_or_legacy
direction_or_legacy-Inv (some d) z s v = run_direction-Inv d s v
direction_or_legacy-Inv none z s v = run_legacy-Inv z s v

run_word-Inv : (w : Bytes) (s : Server) → Inv s → OutcomeInv (run_word w s)
unfolding run_word
run_word-Inv w s v =
    if_cases OutcomeInv (is_named w ("up" ∷ [])) _ _
      (λ e. server_tile_move_focused_grid_vert-Inv s (negsuc 0) v)
      (λ e.
        if_cases OutcomeInv (is_named w ("down" ∷ [])) _ _
          (λ e. server_tile_move_focused_grid_vert-Inv s (pos 1) v)
          (λ e.
            if_cases OutcomeInv (is_named w ("left" ∷ [])) _ _
              (λ e. server_tile_move_focused_grid_horiz-Inv s (negsuc 0) v)
              (λ e.
                if_cases OutcomeInv (is_named w ("right" ∷ [])) _ _
                  (λ e. server_tile_move_focused_grid_horiz-Inv s (pos 1) v)
                  (λ e.
                    if_cases OutcomeInv (is_named w ("top" ∷ [])) _ _
                      (λ e. server_tile_move_focused_grid_vert_edge-Inv s true v)
                      (λ e.
                        if_cases OutcomeInv (is_named w ("bottom" ∷ [])) _ _
                          (λ e. server_tile_move_focused_grid_vert_edge-Inv s false v)
                          (λ e.
                            direction_or_legacy-Inv (scan_direction w) (strtol_whole w) s v))))))

pub server_tile_grid_run_command-Inv :
    (s : Server) (c : Option Bytes) → Inv s → OutcomeInv (server_tile_grid_run_command s c)
unfolding server_tile_grid_run_command
server_tile_grid_run_command-Inv s none v = v
server_tile_grid_run_command-Inv s (some c) v =
    let w = trim is_blank_or_newline (take 255 c) in
    if_cases OutcomeInv (is_empty w) (some s) (run_word w s) (λ e. v) (λ e. run_word-Inv w s v)
