-- ===== src/Invariant/System.antt =====
-- About the states that the server can reach.
use scratch_compositor.Base.{
  ℕ, ◌≡◌, refl, sym, Bool, Option, none, some, List, [], ◌∷◌, arith, subst, ◌==◌, if◌then◌else◌,
}
use scratch_compositor.Base.Text.{Bytes}
use scratch_compositor.Config.Library.{Library}
use scratch_compositor.Server.{Toplevel, Server, modify, update_toplevel, toplevel_by_id}
use scratch_compositor.Bindings.{comp_config_try_bindings}
use scratch_compositor.Ipc.{ipc_process_line}
use scratch_compositor.Invariant.Defs.{FocusOn, Windows, Inv, Keeps, Windows-modify}
use scratch_compositor.Invariant.Lifecycle.{
  xdg_shell_new_toplevel-Inv, toplevel_unmap-Inv, toplevel_destroy-Inv,
}
use scratch_compositor.Invariant.Map.{toplevel_map-Inv}
use scratch_compositor.Invariant.Bindings.{PressInv, comp_config_try_bindings-Inv}
use scratch_compositor.Invariant.Move.{OutcomeInv}
use scratch_compositor.Invariant.Ipc.{ipc_process_line-Inv}
use scratch_compositor.Invariant.Workspace.{server_workspace_go-Inv}
use scratch_compositor.Invariant.Requests.{
  toplevel_handle_set_title-Inv, toplevel_handle_set_app_id-Inv,
  foreign_toplevel_handle_request_activate-Inv, foreign_toplevel_handle_request_close-Inv,
  toplevel_commit-Inv, toplevel_request_maximize-Inv, toplevel_request_minimize-Inv,
  request_fullscreen-Inv, xdg_new_toplevel_decoration-Inv, xdg_decoration_handle_request_mode-Inv,
  xdg_decoration_handle_destroy-Inv,
}
use scratch_compositor.Invariant.Pointer.{
  toplevel_request_move-Inv, toplevel_request_resize-Inv, process_cursor_motion-Inv,
  server_cursor_button-Inv,
}
use scratch_compositor.Invariant.Touch.{
  server_cursor_touch_down-Inv, server_cursor_touch_up-Inv, server_cursor_touch_motion-Inv,
  server_cursor_touch_cancel-Inv, tablet_tool_position-Inv, server_cursor_tablet_tool_tip-Inv,
  server_cursor_tablet_tool_button-Inv,
}
use scratch_compositor.Invariant.Outputs.{
  server_new_output-Inv, layer_shell_arrange-Inv, output_destroy-Inv, layer_shell_new_surface-Inv,
  comp_layer_commit-Inv, comp_layer_destroy-Inv,
}
use scratch_compositor.Invariant.Reach.{
  Surface, committing, Step, wlroots_moves, wlroots_sets_layers, surface_commits, window_appears,
  window_maps, window_unmaps, window_goes, commits, sets_title, sets_app_id, asks_maximize,
  asks_minimize, asks_fullscreen, asks_move, asks_resize, gets_decoration, asks_decoration,
  drops_decoration, bar_activates, bar_closes, bar_goes, pointer_moves, button, touches, lets_go,
  touch_moves, touch_ends, tablet_moves, tablet_tip, tablet_button, output_comes, output_changes,
  output_goes, layer_comes, layer_commits, layer_goes, key, ipc, Started, Reach, start, later,
  Counts, NoWrap,
}

committing-Keeps : (c : Surface) (t : Toplevel) → Keeps t (committing c t)
committing-Keeps c t = record { id = refl; key = refl; workspace = λ h. h; surface = λ h m. refl }

toplevel_by_id-committing :
    (i j : ℕ) (c : Surface) (ts : List Toplevel) (t : Toplevel)
    → toplevel_by_id ts j ≡ some t
    → toplevel_by_id (update_toplevel i (committing c) ts) j
      ≡ some (if t.id == i then committing c t else t)
unfolding toplevel_by_id update_toplevel
toplevel_by_id-committing i j c [] t e = cc
toplevel_by_id-committing i j c (x ∷ ts) t e = ground (arith, toplevel_by_id-committing i j c ts t)

FocusOn-committing :
    (p : Option ℕ) (i ws : ℕ) (c : Surface) (ts : List Toplevel)
    → FocusOn p ws ts
    → FocusOn p ws (update_toplevel i (committing c) ts)
FocusOn-committing none i ws c ts h = tt
FocusOn-committing (some j) i ws c ts (t, e, w, m) = (
  if t.id == i then committing c t else t,
  toplevel_by_id-committing i j c ts t e,
  ground (arith, w),
  ground (arith, m),
)

surface_commits-Inv : (i : ℕ) (c : Surface) (s : Server) → Inv s → Inv (modify i (committing c) s)
surface_commits-Inv i c s v = record {
  wf =
      Windows-modify i (committing c) s.toplevels s.current_workspace s.tile_user_key_gen
        (committing-Keeps c) v.wf;
  focus = FocusOn-committing s.focused_toplevel i s.current_workspace c s.toplevels v.focus;
}

Step-Inv : (s : Server) (s' : Server) → Inv s → (st : Step s s') → Counts st → Inv s'
unfolding Counts
Step-Inv s _ v (wlroots_moves w) n = record { wf = v.wf; focus = v.focus }
Step-Inv s _ v (wlroots_sets_layers ls) n = record { wf = v.wf; focus = v.focus }
Step-Inv s _ v (surface_commits i c) n = surface_commits-Inv i c s v
Step-Inv s _ v (window_appears i ids) n = xdg_shell_new_toplevel-Inv i s ids n v
Step-Inv s _ v (window_maps i ready) n = toplevel_map-Inv i s ready v
Step-Inv s _ v (window_unmaps i) n = toplevel_unmap-Inv i s v
Step-Inv s _ v (window_goes i) n = toplevel_destroy-Inv i s v
Step-Inv s _ v (commits i initial) n = toplevel_commit-Inv i initial s v
Step-Inv s _ v (sets_title i title) n = toplevel_handle_set_title-Inv i title s v
Step-Inv s _ v (sets_app_id i app_id) n = toplevel_handle_set_app_id-Inv i app_id s v
Step-Inv s _ v (asks_maximize i want) n = toplevel_request_maximize-Inv i want s v
Step-Inv s _ v (asks_minimize i want) n = toplevel_request_minimize-Inv i want s v
Step-Inv s _ v (asks_fullscreen i want named) n = request_fullscreen-Inv i want named s v
Step-Inv s _ v (asks_move i) n = toplevel_request_move-Inv i s v
Step-Inv s _ v (asks_resize i edges) n = toplevel_request_resize-Inv i edges s v
Step-Inv s _ v (gets_decoration i modes) n = xdg_new_toplevel_decoration-Inv i modes s v
Step-Inv s _ v (asks_decoration i) n = xdg_decoration_handle_request_mode-Inv i s v
Step-Inv s _ v (drops_decoration i) n = xdg_decoration_handle_destroy-Inv i s v
Step-Inv s _ v (bar_activates i here) n = foreign_toplevel_handle_request_activate-Inv i here s v
Step-Inv s _ v (bar_closes i) n = foreign_toplevel_handle_request_close-Inv i s v
Step-Inv s _ v (bar_goes idx) n = server_workspace_go-Inv s idx v
Step-Inv s _ v (pointer_moves owner) n = process_cursor_motion-Inv owner s v
Step-Inv s _ v (button owner pressed is_left logo) n =
    server_cursor_button-Inv owner pressed is_left logo s v
Step-Inv s _ v (touches accepts at owner w id) n =
    server_cursor_touch_down-Inv accepts at owner w id s v
Step-Inv s _ v (lets_go id) n = server_cursor_touch_up-Inv id s v
Step-Inv s _ v (touch_moves accepts owner w id) n =
    server_cursor_touch_motion-Inv accepts owner w id s v
Step-Inv s _ v (touch_ends id) n = server_cursor_touch_cancel-Inv id s v
Step-Inv s _ v (tablet_moves accepts moved owner w) n =
    tablet_tool_position-Inv accepts moved owner w s v
Step-Inv s _ v (tablet_tip accepts up emulating owner) n =
    server_cursor_tablet_tool_tip-Inv accepts up emulating owner s v
Step-Inv s _ v (tablet_button accepts owner) n =
    server_cursor_tablet_tool_button-Inv accepts owner s v
Step-Inv s _ v (output_comes i) n = server_new_output-Inv i s v
Step-Inv s _ v output_changes n = layer_shell_arrange-Inv s v
Step-Inv s _ v (output_goes nested i) n = output_destroy-Inv nested i s v
Step-Inv s _ v (layer_comes i named layer allocated) n =
    layer_shell_new_surface-Inv i named layer allocated s v
Step-Inv s _ v (layer_commits initial pending) n = comp_layer_commit-Inv initial pending s v
Step-Inv s _ v (layer_goes i) n = comp_layer_destroy-Inv i s v
Step-Inv s s' v (key lib exits_zero pressed mods sym_ e) n =
    subst PressInv e (comp_config_try_bindings-Inv lib exits_zero s.config s pressed mods sym_ v)
Step-Inv s s' v (ipc lib source line e) n =
    subst OutcomeInv e (ipc_process_line-Inv lib source s line v)

Started-Inv : (s : Server) → Started s → Inv s
Started-Inv s h = record {
  wf =
      subst (λ ts. Windows ts s.current_workspace s.tile_user_key_gen) (sym h.no_windows)
        (record {
          ids = tt;
          keys = tt;
          given = tt;
          current = h.on_workspace;
          workspaces = tt;
          surfaces = tt;
        });
  focus = subst (λ p. FocusOn p s.current_workspace s.toplevels) (sym h.no_focus) tt;
}

-- In every state that a server without windows reaches, by any of the modelled events in any order,
-- as long as the 32-bit counter of sort keys has not wrapped round, the windows are distinct with
-- distinct sort keys and on existing workspaces, and the focus pointer is NULL or points to a
-- listed, mapped window of the current workspace.
pub Reach-Inv : {s t : Server} → Started s → (r : Reach s t) → NoWrap r → Inv t
unfolding NoWrap
Reach-Inv {s} h start n = Started-Inv s h
Reach-Inv h (later {t} {u} r st) n = Step-Inv t u (Reach-Inv h r n.0) st n.1

-- In every state that a server without windows reaches, as long as the 32-bit counter of sort keys
-- has not wrapped round, each key press and each IPC line ends with a result.
pub Reach-answers :
    {s t : Server} (lib : Library)
    → Started s
    → (r : Reach s t) → NoWrap r
    → ((exits_zero : Bytes → Bool) (pressed : Bool) (mods sym : ℕ)
        → (u : Server) × (b : Bool) × (comp_config_try_bindings lib exits_zero t.config t pressed
              mods sym
            ≡ some (u, b)))
      × ((source : Option (Option Bytes)) (line : Bytes)
          → (u : Server) × (ipc_process_line lib source t line ≡ some u))
Reach-answers {t} lib h r n =
    let v = Reach-Inv h r n in
    (
      λ exits_zero pressed mods sym_.
          pressed_result _
            (comp_config_try_bindings-Inv lib exits_zero t.config t pressed mods sym_ v),
      λ source line. line_result _ (ipc_process_line-Inv lib source t line v),
    )
  where
    pressed_result :
        (o : Option (Server × Bool)) → PressInv o → (u : Server) × (b : Bool) × (o ≡ some (u, b))
    pressed_result none h = absurd h
    pressed_result (some (u, b)) h = (u, b, refl)

    line_result : (o : Option Server) → OutcomeInv o → (u : Server) × (o ≡ some u)
    line_result none h = absurd h
    line_result (some u) h = (u, refl)
