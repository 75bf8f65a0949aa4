-- ===== src/Invariant/Lifecycle.antt =====
-- About new, unmapped and destroyed windows and the invariant.
use scratch_compositor.Base.{
  ℕ, ◌+◌, ◌^◌, ◌≤◌, ◌<◌, ◌≡◌, ◌≢◌, refl, Bool, true, false, not, Option, none, some, arith, ◌==◌,
  if_cases, List, [], ◌∷◌, ◌++◌, All, All-append, All-keep, All-mono, Apart, Apart-keep, keep,
}
use scratch_compositor.Config.{workspace_count}
use scratch_compositor.Server.{
  Toplevel, Server, foreign_refresh, points_to, modify, clear_focus, toplevel_by_id,
  update_toplevel,
}
use scratch_compositor.Tiling.Order.{KeysDiffer, IdsDiffer}
use scratch_compositor.Lifecycle.{
  new_view, next_tile_user_key, xdg_shell_new_toplevel, drop_grab, rearrange, toplevel_unmap,
  toplevel_destroy,
}
use scratch_compositor.Frame.{
  Frame, Frame-refl, Frame-trans, Frame-emit, if-Frame, server_arrange_toplevels-Frame,
}
use scratch_compositor.Invariant.Defs.{Wf, FocusOn, Inv, Inv-Frame, Keeps, Windows-modify}

rearrange-Frame : (s : Server) → Frame s (rearrange s)
unfolding rearrange
rearrange-Frame s = if-Frame _ s _ _ (server_arrange_toplevels-Frame s) (Frame-refl s)

drop_grab-Inv : (i : ℕ) (s : Server) → Inv s → Inv (drop_grab i s)
unfolding drop_grab
drop_grab-Inv i s v =
    if_cases Inv (points_to s.grabbed_toplevel i) _ s (λ e. record { wf = v.wf; focus = v.focus })
      (λ e. v)

Apart-snoc :
    (R : Toplevel → Toplevel → Type 0) (ts : List Toplevel) (v : Toplevel)
    → Apart R ts
    → All (λ t. R t v) ts
    → Apart R (ts ++ v ∷ [])
Apart-snoc R [] v h k = (tt, tt)
Apart-snoc R (t ∷ ts) v h k =
    (All-append (R t) ts (v ∷ []) h.0 (k.0, tt), Apart-snoc R ts v h.1 k.1)

toplevel_by_id-append :
    (ts us : List Toplevel) (i : ℕ) (t : Toplevel)
    → toplevel_by_id ts i ≡ some t
    → toplevel_by_id (ts ++ us) i ≡ some t
unfolding toplevel_by_id
toplevel_by_id-append [] us i t e = cc
toplevel_by_id-append (x ∷ ts) us i t e = ground (arith, toplevel_by_id-append ts us i t)

FocusOn-append :
    (p : Option ℕ) (ws : ℕ) (ts us : List Toplevel) → FocusOn p ws ts → FocusOn p ws (ts ++ us)
FocusOn-append none ws ts us h = tt
FocusOn-append (some i) ws ts us (t, e, w, m) = (t, toplevel_by_id-append ts us i t e, w, m)

-- A key above all that the generator has given differs from each of them.
above-KeysDiffer :
    (view : Toplevel) (gen : ℕ) (ts : List Toplevel)
    → gen < view.tile_user_key
    → All (λ t. t.tile_user_key ≤ gen) ts
    → All (λ t. KeysDiffer t view) ts
above-KeysDiffer view gen [] h k = tt
above-KeysDiffer view gen (t ∷ ts) h k =
    ((λ e. omega (arith, h, k.0, e)), above-KeysDiffer view gen ts h k.1)

-- A new window with an identity of its own keeps the invariant, as long as the counter of keys does
-- not wrap round.
pub xdg_shell_new_toplevel-Inv :
    (i : ℕ) (s : Server)
    → All (λ (t : Toplevel). t.id ≢ i) s.toplevels
    → s.tile_user_key_gen + 1 < 2 ^ 32
    → Inv s
    → Inv (xdg_shell_new_toplevel i s)
unfolding xdg_shell_new_toplevel new_view next_tile_user_key
xdg_shell_new_toplevel-Inv i s fresh_id more v =
    let next = next_tile_user_key s in
    let view = new_view next i in
    let above : s.tile_user_key_gen < next.tile_user_key_gen = omega (arith, more) in
    record {
      wf = record {
        ids = Apart-snoc IdsDiffer s.toplevels view v.wf.ids fresh_id;
        keys =
            Apart-snoc KeysDiffer s.toplevels view v.wf.keys
              (above-KeysDiffer view s.tile_user_key_gen s.toplevels above v.wf.given);
        given =
            All-append (λ t. t.tile_user_key ≤ next.tile_user_key_gen) s.toplevels (view ∷ [])
              (All-mono (λ t low. omega (arith, low, above)) s.toplevels v.wf.given)
              (omega arith, tt);
        current = v.wf.current;
        workspaces =
            All-append (λ t. t.workspace < workspace_count) s.toplevels (view ∷ []) v.wf.workspaces
              (v.wf.current, tt);
        surfaces =
            All-append (λ t. t.mapped ≡ true → t.initialized ≡ true) s.toplevels (view ∷ [])
              v.wf.surfaces ((λ m. cc m), tt);
      };
      focus = FocusOn-append s.focused_toplevel s.current_workspace s.toplevels (view ∷ []) v.focus;
    }

toplevel_by_id-update_other :
    (ts : List Toplevel) (f : Toplevel → Toplevel) (i j : ℕ) (t : Toplevel)
    → ((u : Toplevel) → (f u).id ≡ u.id)
    → i ≢ j
    → toplevel_by_id ts j ≡ some t
    → toplevel_by_id (update_toplevel i f ts) j ≡ some t
unfolding toplevel_by_id update_toplevel
toplevel_by_id-update_other [] f i j t h n e = cc
toplevel_by_id-update_other (x ∷ ts) f i j t h n e =
    ground (arith, toplevel_by_id-update_other ts f i j t h n, h x)

toplevel_by_id-keep_other :
    (ts : List Toplevel) (i j : ℕ) (t : Toplevel)
    → i ≢ j
    → toplevel_by_id ts j ≡ some t
    → toplevel_by_id (keep (λ (u : Toplevel). not (u.id == i)) ts) j ≡ some t
unfolding toplevel_by_id
toplevel_by_id-keep_other [] i j t n e = cc
toplevel_by_id-keep_other (x ∷ ts) i j t n e = ground (arith, toplevel_by_id-keep_other ts i j t n)

-- A focus on another window survives a change or the removal of window i.
FocusOn-update :
    (p : Option ℕ) (ws : ℕ) (ts : List Toplevel) (i : ℕ) (f : Toplevel → Toplevel)
    → ((u : Toplevel) → (f u).id ≡ u.id)
    → points_to p i ≡ false
    → FocusOn p ws ts
    → FocusOn p ws (update_toplevel i f ts)
FocusOn-update none ws ts i f h n k = tt
FocusOn-update (some j) ws ts i f h n (t, e, w, m) =
    (t, toplevel_by_id-update_other ts f i j t h (ground (arith, n)) e, w, m)

FocusOn-keep :
    (p : Option ℕ) (ws : ℕ) (ts : List Toplevel) (i : ℕ)
    → points_to p i ≡ false
    → FocusOn p ws ts
    → FocusOn p ws (keep (λ (u : Toplevel). not (u.id == i)) ts)
FocusOn-keep none ws ts i n k = tt
FocusOn-keep (some j) ws ts i n (t, e, w, m) =
    (t, toplevel_by_id-keep_other ts i j t (ground (arith, n)) e, w, m)

unmapped-Keeps : (t : Toplevel) → Keeps t (record t { mapped = false })
unmapped-Keeps t = record { id = refl; key = refl; workspace = λ h. h; surface = λ h m. cc m }

-- Unmapping a window keeps the invariant: the focus does not stay on it.
pub toplevel_unmap-Inv : (i : ℕ) (s : Server) → Inv s → Inv (toplevel_unmap i s)
unfolding toplevel_unmap
toplevel_unmap-Inv i s v =
    let hide : Toplevel → Toplevel = λ t. record t { mapped = false } in
    let unmapped = modify i hide s in
    let wf =
      Windows-modify i hide s.toplevels s.current_workspace s.tile_user_key_gen unmapped-Keeps
        v.wf in
    let cleared =
      if_cases Inv (points_to s.focused_toplevel i) (clear_focus unmapped) unmapped
        (λ e. record { wf = wf; focus = tt })
        (λ e. record {
          wf = wf;
          focus =
              FocusOn-update s.focused_toplevel s.current_workspace s.toplevels i hide (λ u. refl) e
                v.focus;
        }) in
    Inv-Frame (Frame-trans (rearrange-Frame _) (Frame-emit (foreign_refresh i) _))
      (drop_grab-Inv i _ cleared)

-- The end of a window keeps the invariant: the focus does not stay on it.
pub toplevel_destroy-Inv : (i : ℕ) (s : Server) → Inv s → Inv (toplevel_destroy i s)
unfolding toplevel_destroy
toplevel_destroy-Inv i s v =
    let other : Toplevel → Bool = λ u. not (u.id == i) in
    let unlisted = record s { toplevels = keep other s.toplevels } in
    let wf : Wf unlisted = record {
      ids = Apart-keep IdsDiffer other s.toplevels v.wf.ids;
      keys = Apart-keep KeysDiffer other s.toplevels v.wf.keys;
      given = All-keep (λ t. t.tile_user_key ≤ s.tile_user_key_gen) other s.toplevels v.wf.given;
      current = v.wf.current;
      workspaces = All-keep (λ t. t.workspace < workspace_count) other s.toplevels v.wf.workspaces;
      surfaces =
          All-keep (λ t. t.mapped ≡ true → t.initialized ≡ true) other s.toplevels v.wf.surfaces;
    } in
    let cleared =
      if_cases Inv (points_to s.focused_toplevel i) (record unlisted { focused_toplevel = none })
        unlisted (λ e. record { wf = wf; focus = tt })
        (λ e. record {
          wf = wf;
          focus = FocusOn-keep s.focused_toplevel s.current_workspace s.toplevels i e v.focus;
        }) in
    Inv-Frame (rearrange-Frame _) (drop_grab-Inv i _ cleared)
