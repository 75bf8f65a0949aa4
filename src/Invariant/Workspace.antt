-- ===== src/Invariant/Workspace.antt =====
-- About `server_workspace_go`, `_relative`, `_move_focused` and the invariant.
use scratch_compositor.Base.{
  ℕ, ◌<◌, ◌≡◌, refl, true, false, not, ◌&&◌, ◌||◌, List, [], ◌∷◌, Option, none, some, arith, ◌==◌,
  All-find, Bool-cases, Option-cases, if_cases, ==_iff, inl, inr, if◌then◌else◌, Pointwise-map,
}
use scratch_compositor.Base.Int.{ℤ, pos, pos_part, ltb_ℤ, ◌==ℤ◌}
use scratch_compositor.Config.{workspace_count}
use scratch_compositor.Server.{
  Toplevel, workspace_notify, foreign_refresh, Server, modify, for_toplevels, toplevel_by_id,
  sync_shell_env, is_tiling,
}
use scratch_compositor.Arrange.{untrack, server_workspace_apply_visibility, layer_shell_arrange}
use scratch_compositor.Focus.{deref}
use scratch_compositor.Workspace.{
  refresh_all, foreign_toplevel_sync_all, clamp_workspace, drop_stray_focus, pick_focus,
  focus_picked, enter_workspace, server_workspace_go, server_workspace_relative, pick_other,
  hand_over_focus, move_view, move_focused_view, server_workspace_move_focused,
}
use scratch_compositor.Frame.{
  SameWindow, Frame, Frame-refl, Frame-trans, Frame-emit, Frame-for_toplevels, if-Frame,
  untrack-SameWindow, server_workspace_apply_visibility-Frame, layer_shell_arrange-Frame,
  server_sync_xdg_decorations-Frame,
}
use scratch_compositor.Invariant.Defs.{
  Wf, deref-FocusOn, Windows-modify, Keeps, Wf-Frame, FocusOn, FocusOn-Frame, Inv, Inv-Frame,
  toplevel_by_id-find,
}
use scratch_compositor.Invariant.Focus.{focus_view-Inv, focus_view_takes, take_focus-Inv}

refresh_all-Frame : (ts : List Toplevel) (s : Server) → Frame s (refresh_all ts s)
unfolding refresh_all
refresh_all-Frame [] s = Frame-refl s
refresh_all-Frame (t ∷ ts) s =
    Frame-trans (Frame-emit (foreign_refresh t.id) s) (refresh_all-Frame ts _)

pub foreign_toplevel_sync_all-Frame : (s : Server) → Frame s (foreign_toplevel_sync_all s)
unfolding foreign_toplevel_sync_all
foreign_toplevel_sync_all-Frame s = refresh_all-Frame s.toplevels s

pub sync_shell_env-Frame : (s : Server) → Frame s (sync_shell_env s)
unfolding sync_shell_env
sync_shell_env-Frame s = ground (arith, Frame-refl s)

pub clamp_workspace-lt : (idx : ℤ) → clamp_workspace idx < workspace_count
unfolding clamp_workspace
clamp_workspace-lt idx = ground arith

-- Whatever workspace the focus was on, the focus that is left is on the current one.
drop_stray_focus-FocusOn :
    (f : Option ℕ) (s : Server) (ws : ℕ)
    → s.focused_toplevel ≡ f
    → FocusOn f ws s.toplevels
    → let s' = drop_stray_focus (deref s.toplevels f) s in
      FocusOn s'.focused_toplevel s'.current_workspace s'.toplevels
unfolding drop_stray_focus deref
drop_stray_focus-FocusOn none s ws e h = rw e tt
drop_stray_focus-FocusOn (some i) s ws e (t, listed, on, m) =
    rw listed (elim (Bool-cases (t.workspace == s.current_workspace)) [
      | inl here ↦ rw (here, e) (t, listed, (==_iff _ _).0 here, m)
      | inr away ↦ rw away tt
    ])

drop_stray_focus-Wf : (o : Option Toplevel) (s : Server) → Wf s → Wf (drop_stray_focus o s)
unfolding drop_stray_focus
drop_stray_focus-Wf none s w = w
drop_stray_focus-Wf (some t) s w = elim (Bool-cases (t.workspace == s.current_workspace)) [
  | inl here ↦ rw here w
  | inr away ↦ rw away w
]

focus_picked-Inv :
    (o : Option Toplevel) (s : Server)
    → ((t : Toplevel) → o ≡ some t → toplevel_by_id s.toplevels t.id ≡ some t)
    → Inv s
    → Inv (focus_picked o s)
unfolding focus_picked
focus_picked-Inv none s h v = v
focus_picked-Inv (some t) s h v = focus_view-Inv s t (h t refl) v

-- The passes at the end of both workspace operations.
pub settle-Frame :
    (s : Server)
    → Frame s (
        let shown = server_workspace_apply_visibility s in
        if is_tiling shown.layout then layer_shell_arrange shown else shown)
settle-Frame s =
    let shown = server_workspace_apply_visibility-Frame s in
    if-Frame _ s _ _ (Frame-trans shown (layer_shell_arrange-Frame _)) shown

pub enter_workspace-Inv :
    (idx : ℕ) (s : Server) → idx < workspace_count → Inv s → Inv (enter_workspace idx s)
unfolding enter_workspace pick_focus
enter_workspace-Inv idx s bound v =
    let w = v.wf in
    let there = record s { current_workspace = idx } in
    let here = for_toplevels untrack there in
    let there_wf : Wf there = record {
      ids = w.ids;
      keys = w.keys;
      given = w.given;
      current = bound;
      workspaces = w.workspaces;
      surfaces = w.surfaces;
    } in
    let here_wf : Wf here =
      Wf-Frame (Frame-for_toplevels untrack there untrack-SameWindow) there_wf in
    let kept =
      FocusOn-Frame s.focused_toplevel s.current_workspace s.toplevels here.toplevels
        (Pointwise-map SameWindow untrack untrack-SameWindow s.toplevels) v.focus in
    let cleared = drop_stray_focus (deref here.toplevels here.focused_toplevel) here in
    let cleared_inv : Inv cleared = record {
      wf = drop_stray_focus-Wf _ here here_wf;
      focus = drop_stray_focus-FocusOn s.focused_toplevel here s.current_workspace refl kept;
    } in
    let focused_inv =
      focus_picked-Inv (pick_focus cleared) cleared
        (λ t e. toplevel_by_id-find _ cleared.toplevels t cleared_inv.wf.ids e) cleared_inv in
    Inv-Frame
      (Frame-trans (settle-Frame _) (
        Frame-trans (sync_shell_env-Frame _)
          (Frame-trans (Frame-emit workspace_notify _) (foreign_toplevel_sync_all-Frame _))))
      focused_inv

-- Switching to any workspace number keeps the invariant of the windows and of the focus.
pub server_workspace_go-Inv : (s : Server) (idx : ℤ) → Inv s → Inv (server_workspace_go s idx)
unfolding server_workspace_go
server_workspace_go-Inv s idx v = elim (Bool-cases (clamp_workspace idx == s.current_workspace)) [
  | inl same ↦ rw same v
  | inr other ↦ rw other (enter_workspace-Inv _ s (clamp_workspace-lt idx) v)
]

-- Stepping through the workspaces by any distance keeps the invariant.
pub server_workspace_relative-Inv :
    (s : Server) (delta : ℤ) → Inv s → Inv (server_workspace_relative s delta)
unfolding server_workspace_relative
server_workspace_relative-Inv s delta v = elim (Bool-cases (delta ==ℤ pos 0)) [
  | inl zero_step ↦ rw zero_step v
  | inr step ↦ rw step (server_workspace_go-Inv s _ v)
]

-- What the search for another window asks of it.
pick_other_test :
    (f : ℕ) (s : Server) (t : Toplevel)
    → (not (t.id == f) && (t.workspace == s.current_workspace && t.mapped)) ≡ true
    → ((f == t.id) ≡ false) × (t.workspace ≡ s.current_workspace) × (t.mapped ≡ true)
pick_other_test f s t e = ground arith

-- The window that another one hands the focus to takes it.
hand_over_focus-Inv :
    (f : ℕ) (s : Server)
    → s.focused_toplevel ≡ some f
    → Wf s
    → Inv (hand_over_focus (pick_other f s) s)
unfolding hand_over_focus pick_other
hand_over_focus-Inv f s e w = elim (Option-cases (pick_other f s)) [
  | inl nobody ↦ rw nobody (record { wf = w; focus = tt })
  | inr (t, found) ↦
      let (surface, test) =
        All-find (λ (t : Toplevel). t.mapped ≡ true → t.initialized ≡ true) _ s.toplevels t
          w.surfaces found in
      let (other, ws, m) = pick_other_test f s t test in
      rw found (
        rw (focus_view_takes s t m (surface m) ws (rw e other))
          (take_focus-Inv s t (toplevel_by_id-find _ s.toplevels t w.ids found) ws m w))
]

send_to-Keeps :
    (target : ℕ)
    → target < workspace_count
    → (t : Toplevel) → Keeps t (record t { workspace = target; layout_anim_tracked = false })
send_to-Keeps target h t = record { id = refl; key = refl; workspace = λ _. h; surface = λ k. k }

move_view-Inv :
    (f : Toplevel) (target : ℕ) (s : Server)
    → target < workspace_count
    → (target == s.current_workspace) ≡ false
    → s.focused_toplevel ≡ some f.id
    → Wf s
    → Inv (move_view f target s)
unfolding move_view
move_view-Inv f target s bound away e w =
    let moved = modify f.id (λ t. record t { workspace = target; layout_anim_tracked = false }) s in
    let moved_wf : Wf moved =
      Windows-modify f.id _ s.toplevels s.current_workspace s.tile_user_key_gen
        (send_to-Keeps target bound) w in
    rw away (
      Inv-Frame
        (Frame-trans (settle-Frame _) (
          Frame-trans (sync_shell_env-Frame _) (
            Frame-trans (server_sync_xdg_decorations-Frame _) (foreign_toplevel_sync_all-Frame _))))
        (hand_over_focus-Inv f.id moved e moved_wf))

-- The guard of `server_workspace_move_focused`: what passes it is another workspace's number.
target_guard :
    (f : Toplevel) (cur : ℕ) (target : ℤ)
    → f.workspace ≡ cur
    → (ltb_ℤ target (pos 0)
        || (not (ltb_ℤ target (pos workspace_count)) || pos f.workspace ==ℤ target))
      ≡ false
    → (pos_part target < workspace_count) × ((pos_part target == cur) ≡ false)
target_guard f cur target e h = ground arith

move_focused_view-Inv :
    (o : Option Toplevel) (s : Server) (target : ℤ)
    → ((f : Toplevel)
        → o ≡ some f
        → (s.focused_toplevel ≡ some f.id) × (f.workspace ≡ s.current_workspace))
    → Inv s
    → Inv (move_focused_view o target s)
unfolding move_focused_view
move_focused_view-Inv none s target h v = v
move_focused_view-Inv (some f) s target h v =
    let (e, ws) = h f refl in
    if_cases Inv (not f.mapped) _ _ (λ _. v)
      (λ m.
        if_cases Inv _ _ _ (λ _. v)
          (λ passed.
            let (bound, away) = target_guard f s.current_workspace target ws passed in
            move_view-Inv f (pos_part target) s bound away e v.wf))

-- Moving the focused window to another workspace keeps the invariant: the focus goes to a window
-- of the current workspace or nowhere.
pub server_workspace_move_focused-Inv :
    (s : Server) (target : ℤ) → Inv s → Inv (server_workspace_move_focused s target)
unfolding server_workspace_move_focused
server_workspace_move_focused-Inv s target v =
    move_focused_view-Inv _ s target
      (λ f e.
        let (p, _, ws, _) =
          deref-FocusOn s.focused_toplevel s.current_workspace s.toplevels f v.focus e in
        (p, ws))
      v
