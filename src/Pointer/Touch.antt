-- ===== src/Pointer/Touch.antt =====
-- src/main.c: touch contacts and tablet tools, for a tablet and a tool that are known. What wlroots
-- answers after the cursor has been warped is an argument, and so is whether the surface there takes
-- touch or tablet messages. The messages that such a surface is sent are left out.
use scratch_compositor.Base.{ℕ, Bool, true, false, not, ◌&&◌, ◌||◌, Option, if◌then◌else◌}
use scratch_compositor.Base.Int.{ℤ, ◌==ℤ◌}
use scratch_compositor.Server.{Wlroots, Server, pointer_button, emit}
use scratch_compositor.Pointer.{toplevel_at}
use scratch_compositor.Pointer.Drag.{process_cursor_motion, press_focus, is_grab_none}

-- `wlr_cursor_warp_closest` and `wlr_cursor_warp_absolute`
abbrev pub warped : Wlroots → Server → Server
warped w s = record s { wlroots = w }

-- A press at the cursor that follows its movement: the window there gets the focus.
unfoldable pub move_and_focus : (Server → Option ℕ) → Server → Server
unfolding process_cursor_motion press_focus
move_and_focus owner s =
    let moved = process_cursor_motion owner s in press_focus (toplevel_at (owner moved) moved) moved

-- `server_cursor_touch_down`, with the owner of the surface at the contact.
unfoldable pub server_cursor_touch_down :
    Bool → Option ℕ → (Server → Option ℕ) → Wlroots → ℤ → Server → Server
unfolding move_and_focus press_focus
server_cursor_touch_down accepts at owner w id s =
    let native = press_focus (toplevel_at at s) (record s { touch_pointer_emu = false }) in
    let pressed = move_and_focus owner (warped w s) in
    if s.display_terminate_requested
    then s
    else if accepts
    then native
    else if is_grab_none pressed.grab
    then emit pointer_button
        (record pressed { touch_pointer_emu = true; touch_pointer_emu_id = id })
    else pressed

-- The contact that stands for the pointer's left button.
abbrev pub is_emulated : ℤ → Server → Bool
is_emulated id s = s.touch_pointer_emu && id ==ℤ s.touch_pointer_emu_id

-- `server_cursor_touch_up`
unfoldable pub server_cursor_touch_up : ℤ → Server → Server
server_cursor_touch_up id s =
    let released = record s { touch_pointer_emu = false } in
    if s.display_terminate_requested || not (is_emulated id s)
    then s
    else if is_grab_none s.grab
    then emit pointer_button released
    else released

-- `server_cursor_touch_motion`
unfoldable pub server_cursor_touch_motion :
    Bool → (Server → Option ℕ) → Wlroots → ℤ → Server → Server
server_cursor_touch_motion accepts owner w id s =
    if s.display_terminate_requested || (not (is_emulated id s) && accepts)
    then s
    else process_cursor_motion owner (warped w s)

-- `server_cursor_touch_cancel`, which does to the server what the end of the contact does.
unfoldable pub server_cursor_touch_cancel : ℤ → Server → Server
unfolding server_cursor_touch_up
server_cursor_touch_cancel id s = server_cursor_touch_up id s

-- `tablet_tool_position`, given whether the surface takes the tool and whether x or y has changed.
unfoldable pub tablet_tool_position : Bool → Bool → (Server → Option ℕ) → Wlroots → Server → Server
tablet_tool_position accepts moved owner w s =
    if s.display_terminate_requested || not moved
    then s
    else if accepts
    then warped w s
    else process_cursor_motion owner (warped w s)

-- `server_cursor_tablet_tool_tip`, with the tool's `emulating_pointer_from_tip` before and after.
unfoldable pub server_cursor_tablet_tool_tip :
    Bool → Bool → Bool → (Server → Option ℕ) → Server → Server × Bool
unfolding move_and_focus press_focus
server_cursor_tablet_tool_tip accepts up emulating owner s =
    if s.display_terminate_requested
    then (s, emulating)
    else if up
    then (if emulating then emit pointer_button s else s, false)
    else if accepts
    then (press_focus (toplevel_at (owner s) s) s, emulating)
    else (emit pointer_button (move_and_focus owner s), true)

-- `server_cursor_tablet_tool_button`
unfoldable pub server_cursor_tablet_tool_button : Bool → (Server → Option ℕ) → Server → Server
server_cursor_tablet_tool_button accepts owner s =
    if s.display_terminate_requested || accepts
    then s
    else emit pointer_button (process_cursor_motion owner s)
