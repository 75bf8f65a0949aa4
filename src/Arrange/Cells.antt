-- ===== src/Arrange/Cells.antt =====
-- About the slot of the scroll layout, `clamp_slot` and `moved_slot`.
use scratch_compositor.Base.{ℕ, ◌-◌, ◌≤◌, ◌<◌, ◌≡◌, arith}
use scratch_compositor.Base.Int.{ℤ, pos, ◌-ℤ◌, ◌≤ℤ◌}
use scratch_compositor.Arrange.{clamp_slot}
use scratch_compositor.Move.{moved_slot}

-- With n windows, n at least 1, any slot is clamped to an index below n.
pub clamp_slot-bounds :
    (slot : ℤ) (n : ℕ) → 1 ≤ n → (pos 0 ≤ℤ clamp_slot slot n) × (clamp_slot slot n ≤ℤ pos (n - 1))
unfolding clamp_slot ◌-ℤ◌
clamp_slot-bounds slot n h = (ground (arith, h), ground (arith, h))

-- A slot within the windows of an output stays.
pub clamp_slot_id : (i n : ℕ) → i < n → clamp_slot (pos i) n ≡ pos i
unfolding clamp_slot
clamp_slot_id i n h = ground (arith, h)

-- With n windows, n at least 1, moving a slot by any distance gives an index below n.
pub moved_slot-bounds :
    (slot steps : ℤ) (n : ℕ)
    → 1 ≤ n
    → (pos 0 ≤ℤ moved_slot slot steps n) × (moved_slot slot steps n ≤ℤ pos (n - 1))
unfolding moved_slot ◌-ℤ◌
moved_slot-bounds slot steps n h = (ground (arith, h), ground (arith, h))
