-- ===== src/Invariant/Touch.antt =====
-- About touch contacts, tablet tools and the invariant.
use scratch_compositor.Base.{ℕ, Bool, false, not, ◌&&◌, ◌||◌, Option, refl, if_cases}
use scratch_compositor.Base.Int.{ℤ}
use scratch_compositor.Server.{Wlroots, Server, pointer_button, emit}
use scratch_compositor.Pointer.{toplevel_at}
use scratch_compositor.Pointer.Drag.{press_focus, is_grab_none}
use scratch_compositor.Pointer.Touch.{
  warped, move_and_focus, server_cursor_touch_down, is_emulated, server_cursor_touch_up,
  server_cursor_touch_motion, server_cursor_touch_cancel, tablet_tool_position,
  server_cursor_tablet_tool_tip, server_cursor_tablet_tool_button,
}
use scratch_compositor.Frame.{Frame-emit}
use scratch_compositor.Invariant.Defs.{Inv, Inv-Frame}
use scratch_compositor.Invariant.Pointer.{process_cursor_motion-Inv, press_focus-Inv}

button-Inv : (s : Server) → Inv s → Inv (emit pointer_button s)
button-Inv s v = Inv-Frame (Frame-emit pointer_button s) v

warped-Inv : (w : Wlroots) (s : Server) → Inv s → Inv (warped w s)
warped-Inv w s v = record { wf = v.wf; focus = v.focus }

focus_at-Inv : (at : Option ℕ) (s : Server) → Inv s → Inv (press_focus (toplevel_at at s) s)
unfolding toplevel_at
focus_at-Inv at s v = press_focus-Inv at _ s refl v

move_and_focus-Inv : (owner : Server → Option ℕ) (s : Server) → Inv s → Inv (move_and_focus owner s)
unfolding move_and_focus
move_and_focus-Inv owner s v = focus_at-Inv (owner _) _ (process_cursor_motion-Inv owner s v)

pub server_cursor_touch_down-Inv :
    (accepts : Bool) (at : Option ℕ) (owner : Server → Option ℕ) (w : Wlroots) (id : ℤ) (s : Server)
    → Inv s
    → Inv (server_cursor_touch_down accepts at owner w id s)
unfolding server_cursor_touch_down toplevel_at
server_cursor_touch_down-Inv accepts at owner w id s v =
    let pressed = move_and_focus-Inv owner (warped w s) (warped-Inv w s v) in
    if_cases Inv s.display_terminate_requested s _ (λ h. v)
      (λ h.
        if_cases Inv accepts _ _
          (λ h.
            focus_at-Inv at (record s { touch_pointer_emu = false })
              (record { wf = v.wf; focus = v.focus }))
          (λ h.
            if_cases Inv (is_grab_none (move_and_focus owner (warped w s)).grab) _ _
              (λ h. button-Inv _ (record { wf = pressed.wf; focus = pressed.focus }))
              (λ h. pressed)))

pub server_cursor_touch_up-Inv : (id : ℤ) (s : Server) → Inv s → Inv (server_cursor_touch_up id s)
unfolding server_cursor_touch_up
server_cursor_touch_up-Inv id s v =
    let released : Inv (record s { touch_pointer_emu = false }) = record {
      wf = v.wf;
      focus = v.focus;
    } in
    if_cases Inv (s.display_terminate_requested || not (is_emulated id s)) s _ (λ h. v)
      (λ h. if_cases Inv (is_grab_none s.grab) _ _ (λ h. button-Inv _ released) (λ h. released))

pub server_cursor_touch_motion-Inv :
    (accepts : Bool) (owner : Server → Option ℕ) (w : Wlroots) (id : ℤ) (s : Server)
    → Inv s
    → Inv (server_cursor_touch_motion accepts owner w id s)
unfolding server_cursor_touch_motion
server_cursor_touch_motion-Inv accepts owner w id s v =
    if_cases Inv (s.display_terminate_requested || (not (is_emulated id s) && accepts)) s _ (λ h. v)
      (λ h. process_cursor_motion-Inv owner _ (warped-Inv w s v))

pub server_cursor_touch_cancel-Inv :
    (id : ℤ) (s : Server) → Inv s → Inv (server_cursor_touch_cancel id s)
unfolding server_cursor_touch_cancel
server_cursor_touch_cancel-Inv id s v = server_cursor_touch_up-Inv id s v

pub tablet_tool_position-Inv :
    (accepts moved : Bool) (owner : Server → Option ℕ) (w : Wlroots) (s : Server)
    → Inv s
    → Inv (tablet_tool_position accepts moved owner w s)
unfolding tablet_tool_position
tablet_tool_position-Inv accepts moved owner w s v =
    let there = warped-Inv w s v in
    if_cases Inv (s.display_terminate_requested || not moved) s _ (λ h. v)
      (λ h. if_cases Inv accepts _ _ (λ h. there) (λ h. process_cursor_motion-Inv owner _ there))

pub server_cursor_tablet_tool_tip-Inv :
    (accepts up emulating : Bool) (owner : Server → Option ℕ) (s : Server)
    → Inv s
    → Inv (server_cursor_tablet_tool_tip accepts up emulating owner s).0
unfolding server_cursor_tablet_tool_tip
server_cursor_tablet_tool_tip-Inv accepts up emulating owner s v =
    if_cases (λ (r : Server × Bool). Inv r.0) s.display_terminate_requested _ _ (λ h. v)
      (λ h.
        if_cases (λ (r : Server × Bool). Inv r.0) up _ _
          (λ h. if_cases Inv emulating _ _ (λ h. button-Inv s v) (λ h. v))
          (λ h.
            if_cases (λ (r : Server × Bool). Inv r.0) accepts _ _ (λ h. focus_at-Inv (owner s) s v)
              (λ h. button-Inv _ (move_and_focus-Inv owner s v))))

pub server_cursor_tablet_tool_button-Inv :
    (accepts : Bool) (owner : Server → Option ℕ) (s : Server)
    → Inv s
    → Inv (server_cursor_tablet_tool_button accepts owner s)
unfolding server_cursor_tablet_tool_button
server_cursor_tablet_tool_button-Inv accepts owner s v =
    if_cases Inv (s.display_terminate_requested || accepts) s _ (λ h. v)
      (λ h. button-Inv _ (process_cursor_motion-Inv owner s v))
