-- ===== src/Tiling/Dims.antt =====
-- About `tile_grid_dims`.
use native.Mathlib.Numerals.{add-one}
use native.Mathlib.Nat.{lt-div-mul-add, div-mul-le_self, div-lt_iff_lt-mul}
use scratch_compositor.Base.{
  ℕ, zero, suc, ◌+◌, ◌-◌, ◌*◌, ◌/◌, ◌≤◌, ◌<◌, ◌≡◌, refl, sym, subst, arith, ltb, Bool-cases, inl,
  inr, ltb→lt,
}
use scratch_compositor.Tiling.Grid.{grow_cols, tile_grid_cols, tile_grid_rows}

-- The loop stops at the first count of columns whose square holds n windows.
grow_cols_lem :
    (fuel n k : ℕ)
    → k * k < n
    → n ≤ fuel + k
    → (c : ℕ) × (grow_cols fuel n (suc k) ≡ suc c) × (c * c < n) × (n ≤ suc c * suc c)
unfolding grow_cols
grow_cols_lem zero n k small enough = (k, refl, small, grind arith)
grow_cols_lem (suc fuel) n k small enough = elim (Bool-cases (ltb (suc k * suc k) n)) [
  | inl more ↦ rw (more, add-one) (grow_cols_lem fuel n (suc k) (ltb→lt _ _ more) (omega arith))
  | inr done ↦ (k, rw done, small, grind arith)
]

-- Division rounded up: the fewest rows of d places for n windows.
round_up :
    (n c r : ℕ) → r ≡ (n + suc c - 1) / suc c → 1 ≤ n → (n ≤ r * suc c) × ((r - 1) * suc c < n)
round_up n c r e h =
    let above : n + suc c - 1 < r * suc c + suc c =
      subst (λ q. n + suc c - 1 < q * suc c + suc c) (sym e) (lt-div-mul-add (omega arith)) in
    let below : r * suc c ≤ n + suc c - 1 =
      subst (λ q. q * suc c ≤ n + suc c - 1) (sym e) (div-mul-le_self (n + suc c - 1) (suc c)) in
    (
      omega arith,
      elim r as (λ r. r * suc c ≤ n + suc c - 1 → (r - 1) * suc c < n) [
        | zero ↦ λ b. grind arith
        | suc k ↦ λ b. grind arith
      ]
          below,
    )

-- The grid of `tile_grid_dims` for n windows, n at least 1: its columns are the fewest whose square
-- holds n windows, its rows the fewest that hold n windows in these columns, and there are not
-- more rows than columns.
pub tile_grid_dims_lem :
    (n : ℕ)
    → 1 ≤ n
    → (n ≤ tile_grid_cols n * tile_grid_cols n)
      × ((tile_grid_cols n - 1) * (tile_grid_cols n - 1) < n)
      × (n ≤ tile_grid_rows n * tile_grid_cols n)
      × ((tile_grid_rows n - 1) * tile_grid_cols n < n)
      × (tile_grid_rows n ≤ tile_grid_cols n)
unfolding tile_grid_cols tile_grid_rows
tile_grid_dims_lem n h =
    let (c, cols, small, large) = grow_cols_lem n n 0 (omega arith) (omega arith) in
    let (fits, tight) = round_up n c ((n + suc c - 1) / suc c) refl h in
    let few : (n + suc c - 1) / suc c < suc c + 1 =
      (div-lt_iff_lt-mul {k = suc c} {x = n + suc c - 1} {y = suc c + 1} (omega arith)).1
        (grind arith) in
    rw cols (large, grind arith, fits, tight, omega arith)
