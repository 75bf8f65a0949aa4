-- ===== src/Invariant/Current.antt =====
-- About the current workspace after `server_workspace_go` and after a client's activate request.
use scratch_compositor.Base.{
  ℕ, ◌<◌, ◌≡◌, refl, sym, ap, ◌∙◌, Option, none, some, arith, ◌==◌, if_cases, inl, inr, subst,
}
use scratch_compositor.Base.Int.{ℤ, pos}
use scratch_compositor.Config.{workspace_count}
use scratch_compositor.Server.{Toplevel, Server, workspace_notify, for_toplevels}
use scratch_compositor.Arrange.{untrack}
use scratch_compositor.Focus.{deref, focus_view}
use scratch_compositor.Workspace.{
  clamp_workspace, drop_stray_focus, focus_picked, pick_focus, enter_workspace, server_workspace_go,
}
use scratch_compositor.ExtWorkspace.{
  handle, Resource, Ext, then_do-some, activate_index, handle_activate,
}
use scratch_compositor.ExtWorkspace.Safe.{IsRole, Safe}
use scratch_compositor.Frame.{Frame-trans, Frame-emit}
use scratch_compositor.Invariant.Defs.{Inv}
use scratch_compositor.Invariant.Focus.{take_focus-Frame, focus_view_cases}
use scratch_compositor.Invariant.Workspace.{
  sync_shell_env-Frame, settle-Frame, foreign_toplevel_sync_all-Frame, server_workspace_go-Inv,
}

drop_stray_focus-current :
    (o : Option Toplevel) (s : Server)
    → (drop_stray_focus o s).current_workspace ≡ s.current_workspace
unfolding drop_stray_focus
drop_stray_focus-current none s = refl
drop_stray_focus-current (some t) s = ground arith

focus_view-current :
    (s : Server) (t : Toplevel) → (focus_view s t).current_workspace ≡ s.current_workspace
focus_view-current s t = elim (focus_view_cases s t) [
  | inl same ↦ ap (λ (u : Server). u.current_workspace) same
  | inr (m, ws, taken) ↦
      ap (λ (u : Server). u.current_workspace) taken ∙ sym (take_focus-Frame t s).current
]

focus_picked-current :
    (o : Option Toplevel) (s : Server) → (focus_picked o s).current_workspace ≡ s.current_workspace
unfolding focus_picked
focus_picked-current none s = refl
focus_picked-current (some t) s = focus_view-current s t

enter_workspace-current : (idx : ℕ) (s : Server) → (enter_workspace idx s).current_workspace ≡ idx
unfolding enter_workspace
enter_workspace-current idx s =
    let here = for_toplevels untrack (record s { current_workspace = idx }) in
    let cleared = drop_stray_focus (deref here.toplevels here.focused_toplevel) here in
    let last = Frame-trans (settle-Frame (focus_picked (pick_focus cleared) cleared)) (
      Frame-trans (sync_shell_env-Frame _)
        (Frame-trans (Frame-emit workspace_notify _) (foreign_toplevel_sync_all-Frame _))) in
    sym last.current
    ∙ focus_picked-current (pick_focus cleared) cleared
    ∙ drop_stray_focus-current (deref here.toplevels here.focused_toplevel) here

server_workspace_go-current :
    (s : Server) (idx : ℤ) → (server_workspace_go s idx).current_workspace ≡ clamp_workspace idx
unfolding server_workspace_go
server_workspace_go-current s idx =
    if_cases (λ (u : Server). u.current_workspace ≡ clamp_workspace idx)
      (clamp_workspace idx == s.current_workspace) s (enter_workspace (clamp_workspace idx) s)
      (λ e. ground (arith, e)) (λ e. enter_workspace-current (clamp_workspace idx) s)

clamp_workspace_inside : (n : ℕ) → n < workspace_count → clamp_workspace (pos n) ≡ n
unfolding clamp_workspace
clamp_workspace_inside n h = ground (arith, h)

-- Where the memory of the sessions is safe, a client that activates a live handle makes its
-- workspace the current one: the request reads no freed memory, the handle's index is that of a
-- workspace, and the invariant of windows and focus holds afterwards.
pub handle_activate-Inv :
    (e : Ext) (k : ℕ) (r : Resource) (n : ℕ) (s : Server)
    → Safe e
    → e.resource_at k ≡ some r
    → r.role ≡ handle n
    → Inv s
    → (s' : Server) × (handle_activate k e s ≡ some s') × (s'.current_workspace ≡ n) × Inv s'
unfolding handle_activate activate_index
handle_activate-Inv e k r n s v there is i =
    let o = v.own k r there in
    let inside : n < workspace_count = subst IsRole is o.role in
    (
      server_workspace_go s (pos n),
      then_do-some (e.resource_at k) r _ there
          ∙ then_do-some (e.session_at r.session) o.owner _ o.allocated
          ∙ ap (λ q. some (activate_index q s)) is,
      server_workspace_go-current s (pos n) ∙ clamp_workspace_inside n inside,
      server_workspace_go-Inv s (pos n) i,
    )
