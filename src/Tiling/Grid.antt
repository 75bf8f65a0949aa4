-- ===== src/Tiling/Grid.antt =====
-- src/main.c, `tile_grid_dims`: the near-square grid for n windows.
use scratch_compositor.Base.{ℕ, zero, suc, ◌+◌, ◌-◌, ◌*◌, ◌/◌, ltb, if◌then◌else◌}

-- `while (cols * cols < n) cols++`, with fuel for the rounds.
unfoldable pub grow_cols : ℕ → ℕ → ℕ → ℕ
grow_cols zero n cols = cols
grow_cols (suc fuel) n cols =
    let more = grow_cols fuel n (cols + 1) in if ltb (cols * cols) n then more else cols

unfoldable pub tile_grid_cols : ℕ → ℕ
unfolding grow_cols
tile_grid_cols n = grow_cols n n 1

unfoldable pub tile_grid_rows : ℕ → ℕ
tile_grid_rows n = (n + tile_grid_cols n - 1) / tile_grid_cols n
