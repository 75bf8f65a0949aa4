-- ===== src/Arrange/Columns.antt =====
-- About the columns of `tile_cell`.
use scratch_compositor.Base.{ℕ, suc, ◌+◌, ◌-◌, ◌*◌, ◌/◌, ◌%◌, ◌<◌, ◌≡◌, arith, ==_iff, ne→==}
use scratch_compositor.Base.Int.{
  ℤ, pos, ◌+ℤ◌, ◌-ℤ◌, ◌*ℤ◌, div_trunc, +ℤ_parts, -ℤ_parts, eq_of_parts,
}
use scratch_compositor.Server.{Box}
use scratch_compositor.Tiling.Grid.{tile_grid_cols}
use scratch_compositor.Arrange.{tile_cell}

mul_pos : (c k : ℕ) → pos c *ℤ pos k ≡ pos (c * k)
unfolding ◌*ℤ◌
mul_pos c k = ground arith

next_column : (x : ℤ) (c k : ℕ) → x +ℤ pos (c * k) +ℤ pos k ≡ x +ℤ pos (suc c * k)
next_column x c k =
    let grow : suc c * k ≡ c * k + k = grind arith in
    eq_of_parts _ _ (
      omega (
        arith,
        +ℤ_parts x (pos (c * k)),
        +ℤ_parts (x +ℤ pos (c * k)) (pos k),
        +ℤ_parts x (pos (suc c * k)),
        grow,
      ))

last_column : (x y w : ℤ) → x +ℤ (y +ℤ w -ℤ x) ≡ y +ℤ w
last_column x y w = eq_of_parts _ _ (omega (arith, +ℤ_parts x (y +ℤ w -ℤ x), -ℤ_parts (y +ℤ w) x))

-- In a work area that is w wide, a window that is not in the last column ends where any window of
-- the next column begins.
pub tile_cell-next :
    (box : Box) (w n j k : ℕ)
    → box.width ≡ pos w
    → suc (j % tile_grid_cols n) < tile_grid_cols n
    → k % tile_grid_cols n ≡ suc (j % tile_grid_cols n)
    → (tile_cell box n j).x +ℤ (tile_cell box n j).width ≡ (tile_cell box n k).x
unfolding tile_cell div_trunc
tile_cell-next box w n j k wide inside next =
    let cols = tile_grid_cols n in
    let inner = ne→== (j % cols) (cols - 1) (λ e. ground (arith, e, inside)) in
    rw (wide, inner, next, mul_pos (j % cols) (w / cols), mul_pos (suc (j % cols)) (w / cols))
      (next_column box.x (j % cols) (w / cols))

-- A window of the last column ends at the right edge of the work area.
pub tile_cell-last :
    (box : Box) (n j : ℕ)
    → j % tile_grid_cols n ≡ tile_grid_cols n - 1
    → (tile_cell box n j).x +ℤ (tile_cell box n j).width ≡ box.x +ℤ box.width
unfolding tile_cell
tile_cell-last box n j last =
    rw ((==_iff (j % tile_grid_cols n) (tile_grid_cols n - 1)).1 last)
      (last_column _ box.x box.width)
