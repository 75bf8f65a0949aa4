-- ===== src/Invariant/Maximize.antt =====
-- About the maximize and fullscreen requests: the invariant, and the way back.
use scratch_compositor.Base.{
  ℕ, ◌≡◌, refl, sym, ◌∙◌, Bool, true, false, not, ◌&&◌, Option, some, arith, if◌then◌else◌,
  if_cases, ap, subst,
}
use scratch_compositor.Base.Int.{ℤ, pos, ltb_ℤ}
use scratch_compositor.Server.{Box, Layout, Toplevel, Server, foreign_refresh}
use scratch_compositor.Maximize.{
  map_box, capture_restore, is_free, place_at, maximize_in, normalize_in, apply_maximize,
  toplevel_apply_requested_maximize, fullscreen_box, apply_fullscreen, toplevel_request_fullscreen,
}
use scratch_compositor.Frame.{
  SameWindow, Frame, Frame-refl, Frame-trans, Frame-emit, Frame-modify, if-Frame,
}

maximize_in-SameWindow : (l : Layout) (b : Box) (t : Toplevel) → SameWindow t (maximize_in l b t)
unfolding maximize_in capture_restore
maximize_in-SameWindow l b t = ground arith

normalize_in-SameWindow : (l : Layout) (t : Toplevel) → SameWindow t (normalize_in l t)
unfolding normalize_in
normalize_in-SameWindow l t = ground arith

apply_maximize-SameWindow :
    (l : Layout) (b : Box) (t : Toplevel) → SameWindow t (apply_maximize l b t)
unfolding apply_maximize
apply_maximize-SameWindow l b t =
    let told = record t { sent_maximized = t.requested_maximized } in
    if_cases (SameWindow t) t.requested_maximized (maximize_in l b told) (normalize_in l told)
      (λ e. rewrap t _ (maximize_in-SameWindow l b told))
      (λ e. rewrap t _ (normalize_in-SameWindow l told))
  where
    rewrap :
        (t u : Toplevel)
        → SameWindow (record t { sent_maximized = t.requested_maximized }) u
        → SameWindow t u
    rewrap t u h = record {
      id = h.id;
      mapped = h.mapped;
      initialized = h.initialized;
      key = h.key;
      workspace = h.workspace;
    }

pub toplevel_apply_requested_maximize-Frame :
    (view : Toplevel) (s : Server) → Frame s (toplevel_apply_requested_maximize view s)
unfolding toplevel_apply_requested_maximize
toplevel_apply_requested_maximize-Frame view s =
    if-Frame (not view.initialized) s s _ (Frame-refl s) (
      Frame-trans (Frame-modify view.id _ s (apply_maximize-SameWindow s.layout (map_box s)))
        (Frame-emit (foreign_refresh view.id) _))

apply_fullscreen-SameWindow :
    (l : Layout) (b : Box) (want : Bool) (t : Toplevel) → SameWindow t (apply_fullscreen l b want t)
unfolding apply_fullscreen
apply_fullscreen-SameWindow l b want t = ground arith

pub toplevel_request_fullscreen-Frame :
    (view : Toplevel) (want : Bool) (named : Option ℕ) (s : Server)
    → Frame s (toplevel_request_fullscreen view want named s)
unfolding toplevel_request_fullscreen
toplevel_request_fullscreen-Frame view want named s =
    if-Frame (not view.initialized) s s _ (Frame-refl s) (
      Frame-trans
        (Frame-modify view.id _ s
          (apply_fullscreen-SameWindow s.layout (fullscreen_box named s) want))
        (Frame-emit (foreign_refresh view.id) _))

-- A window whose client has committed the maximized state, with the geometry it came to.
abbrev pub committed : ℤ → ℤ → Toplevel → Toplevel
committed w h t = record t { maximized = true; geo_width = w; geo_height = h }

abbrev pub asking : Bool → Toplevel → Toplevel
asking want t = record t { requested_maximized = want }

apply_maximize-asked :
    (l : Layout) (b : Box) (t : Toplevel)
    → (apply_maximize l b (asking true t)).requested_maximized ≡ true
unfolding apply_maximize maximize_in capture_restore
apply_maximize-asked l b t = ground arith

-- A freely placed window that keeps a geometry to go back to.
record Restorable (l : Layout) (x y w h : ℤ) (t : Toplevel) : Type 0 where
  free : is_free l t ≡ true
  has : t.has_restore ≡ true
  at_x : t.restore_x ≡ x
  at_y : t.restore_y ≡ y
  wide : t.restore_width ≡ w
  high : t.restore_height ≡ h

capture_restore-Restorable :
    (l : Layout) (t : Toplevel)
    → is_free l t ≡ true
    → ltb_ℤ (pos 0) t.geo_width ≡ true
    → ltb_ℤ (pos 0) t.geo_height ≡ true
    → Restorable l t.node_x t.node_y t.geo_width t.geo_height (capture_restore t)
unfolding capture_restore
capture_restore-Restorable l t free wide high = record {
  free = free;
  has = refl;
  at_x = refl;
  at_y = refl;
  wide = rw (wide, high) refl;
  high = rw (wide, high) refl;
}

sized-Restorable :
    (l : Layout) (x y w h : ℤ) (b : Box) (t u : Toplevel)
    → is_free l u ≡ true
    → Restorable l x y w h t
    → Restorable l x y w h (
        if is_free l u
        then place_at b.x b.y (record t { configured_size = some (b.width, b.height) })
        else record t { configured_size = some (b.width, b.height) })
sized-Restorable l x y w h b t u free r =
    subst
      (λ c. Restorable l x y w h (
        if c
        then place_at b.x b.y (record t { configured_size = some (b.width, b.height) })
        else record t { configured_size = some (b.width, b.height) }))
      (sym free)
      (record {
        free = r.free;
        has = r.has;
        at_x = r.at_x;
        at_y = r.at_y;
        wide = r.wide;
        high = r.high;
      })

first_request :
    (l : Layout) (b : Box) (t : Toplevel)
    → t.maximized ≡ false
    → is_free l t ≡ true
    → ltb_ℤ (pos 0) t.geo_width ≡ true
    → ltb_ℤ (pos 0) t.geo_height ≡ true
    → Restorable l t.node_x t.node_y t.geo_width t.geo_height (apply_maximize l b (asking true t))
unfolding apply_maximize maximize_in
first_request l b t unmaximized free wide high =
    let told = record (asking true t) { sent_maximized = true } in
    subst
      (λ c. Restorable l t.node_x t.node_y t.geo_width t.geo_height (
        let kept = (if c then told else capture_restore told) in
        let sized = record kept { configured_size = some (b.width, b.height) } in
        if is_free l told then place_at b.x b.y sized else sized))
      (sym unmaximized)
      (sized-Restorable l t.node_x t.node_y t.geo_width t.geo_height b (capture_restore told) told
        free (capture_restore-Restorable l told free wide high))

later_request :
    (l : Layout) (x y w h w' h' : ℤ) (b : Box) (t : Toplevel)
    → t.requested_maximized ≡ true
    → Restorable l x y w h t
    → Restorable l x y w h (apply_maximize l b (committed w' h' t))
unfolding apply_maximize maximize_in
later_request l x y w h w' h' b t asked r =
    let told = record (committed w' h' t) { sent_maximized = t.requested_maximized } in
    subst (λ c. Restorable l x y w h (if c then maximize_in l b told else normalize_in l told))
      (sym asked)
      (sized-Restorable l x y w h b told told r.free (record {
        free = r.free;
        has = r.has;
        at_x = r.at_x;
        at_y = r.at_y;
        wide = r.wide;
        high = r.high;
      }))

-- What the request to leave the maximized state gives such a window.
record Restored (x y w h : ℤ) (t : Toplevel) : Type 0 where
  back_x : t.node_x ≡ x
  back_y : t.node_y ≡ y
  size : t.configured_size ≡ some (w, h)
  told : t.sent_maximized ≡ false

placed_back :
    (l : Layout) (x y w h : ℤ) (t : Toplevel) (sized moves : Bool)
    → Restorable l x y w h t
    → sized ≡ true
    → moves ≡ true
    → Restored x y w h (
        let told = record (asking false t) { sent_maximized = false } in
        let u =
          (if sized
            then record told { configured_size = some (t.restore_width, t.restore_height) }
            else told) in
        if moves then place_at t.restore_x t.restore_y u else u)
placed_back l x y w h t false moves r e f = cc e
placed_back l x y w h t true false r e f = cc f
placed_back l x y w h t true true r e f = record {
  back_x = r.at_x;
  back_y = r.at_y;
  size = cc (r.wide, r.high);
  told = refl;
}

and3 : (a b c : Bool) → a ≡ true → b ≡ true → c ≡ true → (a && (b && c)) ≡ true
and3 a b c p q r = cc (p, q, r)

last_request :
    (l : Layout) (x y w h : ℤ) (b : Box) (t : Toplevel)
    → Restorable l x y w h t
    → ltb_ℤ (pos 0) w ≡ true
    → ltb_ℤ (pos 0) h ≡ true
    → Restored x y w h (apply_maximize l b (asking false t))
unfolding apply_maximize normalize_in
last_request l x y w h b t r wide high =
    placed_back l x y w h t
      (t.has_restore && (ltb_ℤ (pos 0) t.restore_width && ltb_ℤ (pos 0) t.restore_height))
      (t.has_restore && is_free l t) r
      (and3 t.has_restore _ _ r.has (ap (ltb_ℤ (pos 0)) r.wide ∙ wide)
        (ap (ltb_ℤ (pos 0)) r.high ∙ high))
      (cc (r.has, r.free))

-- For a window that is not maximized, has a positive geometry, and is placed freely (in the stack
-- layout, or floating): after a maximize request, its commit with any geometry, and a further
-- maximize request, whatever areas they fill, the request to leave the state gives it its old place
-- and asks for its old size.
pub apply_maximize-restores :
    (l : Layout) (b b' b'' : Box) (w h : ℤ) (t : Toplevel)
    → t.maximized ≡ false
    → is_free l t ≡ true
    → ltb_ℤ (pos 0) t.geo_width ≡ true
    → ltb_ℤ (pos 0) t.geo_height ≡ true
    → let held = committed w h (apply_maximize l b (asking true t)) in
      let back = apply_maximize l b'' (asking false (apply_maximize l b' held)) in
      (back.node_x ≡ t.node_x)
      × (back.node_y ≡ t.node_y)
      × (back.configured_size ≡ some (t.geo_width, t.geo_height))
      × (back.sent_maximized ≡ false)
apply_maximize-restores l b b' b'' w h t unmaximized free wide high =
    let first = first_request l b t unmaximized free wide high in
    let again =
      later_request l t.node_x t.node_y t.geo_width t.geo_height w h b' _
        (apply_maximize-asked l b t) first in
    let back = last_request l t.node_x t.node_y t.geo_width t.geo_height b'' _ again wide high in
    (back.back_x, back.back_y, back.size, back.told)
