-- ===== src/Pointer/Resize.antt =====
-- About the box of a resize grab.
use scratch_compositor.Base.{◌≡◌, sym, subst, Bool, true, false}
use scratch_compositor.Base.Int.{ℤ, pos, ◌+ℤ◌, ◌≤ℤ◌, int_laws}
use scratch_compositor.Server.{Box, Edges}
use scratch_compositor.Pointer.Drag.{resized_axis, resized_box}

resized_axis-size :
    (near far : Bool) (from size d : ℤ) → pos 1 ≤ℤ (resized_axis near far from size d).1
unfolding resized_axis
resized_axis-size near far from size d = grind int_laws

resized_axis-near :
    (far : Bool) (from size d : ℤ)
    → let r = resized_axis true far from size d in r.0 +ℤ r.1 ≡ from +ℤ size
unfolding resized_axis
resized_axis-near far from size d = grind int_laws

resized_axis-far : (far : Bool) (from size d : ℤ) → (resized_axis false far from size d).0 ≡ from
unfolding resized_axis
resized_axis-far far from size d = grind int_laws

-- For every edge mask, every starting geometry and every drag: the size stays at least one pixel; where the left or the top edge is dragged, the opposite
-- edge stays where it was; otherwise the position stays.
pub resized_box_lem :
    (e : Edges) (b : Box) (dx dy : ℤ)
    → let r = resized_box e b dx dy in
      (pos 1 ≤ℤ r.width)
      × (pos 1 ≤ℤ r.height)
      × (e.left ≡ true → r.x +ℤ r.width ≡ b.x +ℤ b.width)
      × (e.left ≡ false → r.x ≡ b.x)
      × (e.top ≡ true → r.y +ℤ r.height ≡ b.y +ℤ b.height)
      × (e.top ≡ false → r.y ≡ b.y)
unfolding resized_box
resized_box_lem e b dx dy = (
  resized_axis-size e.left e.right b.x b.width dx,
  resized_axis-size e.top e.bottom b.y b.height dy,
  λ on.
      subst (λ c. let r = resized_axis c e.right b.x b.width dx in r.0 +ℤ r.1 ≡ b.x +ℤ b.width)
        (sym on) (resized_axis-near e.right b.x b.width dx),
  λ off.
      subst (λ c. (resized_axis c e.right b.x b.width dx).0 ≡ b.x) (sym off)
        (resized_axis-far e.right b.x b.width dx),
  λ on.
      subst (λ c. let r = resized_axis c e.bottom b.y b.height dy in r.0 +ℤ r.1 ≡ b.y +ℤ b.height)
        (sym on) (resized_axis-near e.bottom b.y b.height dy),
  λ off.
      subst (λ c. (resized_axis c e.bottom b.y b.height dy).0 ≡ b.y) (sym off)
        (resized_axis-far e.bottom b.y b.height dy),
)
