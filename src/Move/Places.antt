-- ===== src/Move/Places.antt =====
-- About the places that the moves in the grid pick: rows and columns of an index.
use native.Mathlib.Nat.{add-div_right, add-mod_right, div-add-mod}
use scratch_compositor.Base.{
  ℕ, zero, suc, ◌+◌, ◌-◌, ◌*◌, ◌/◌, ◌%◌, ◌≤◌, ◌<◌, ◌≡◌, ◌↔◌, sym, ap, subst, ◌∙◌, Bool, true, false,
  Option, none, some, arith, ◌==◌, ltb, leb, if◌then◌else◌,
}
use scratch_compositor.Tiling.Grid.{tile_grid_cols}
use scratch_compositor.Tiling.Dims.{tile_grid_dims_lem}
use scratch_compositor.Move.{pick_linear, pick_vert, pick_horiz}

-- Index j stands in the same column of the next row, or of the row before.
abbrev pub NextRow : Bool → ℕ → ℕ → ℕ → Type 0
NextRow true c i j = (j / c ≡ i / c + 1) × (j % c ≡ i % c)
NextRow false c i j = (i / c ≡ j / c + 1) × (i % c ≡ j % c)

-- Index j stands in the same row, one column to the right, or to the left.
abbrev pub NextColumn : Bool → ℕ → ℕ → ℕ → Type 0
NextColumn true c i j = (j / c ≡ i / c) × (j % c ≡ i % c + 1)
NextColumn false c i j = (i / c ≡ j / c) × (i % c ≡ j % c + 1)

pos_of_square : (c n i : ℕ) → i < n → n ≤ c * c → 1 ≤ c
pos_of_square zero n i h k = absurd (ground (arith, h, k))
pos_of_square (suc c) n i h k = omega arith

cols_positive : (n i : ℕ) → i < n → 1 ≤ tile_grid_cols n
cols_positive n i h =
    pos_of_square (tile_grid_cols n) n i h (tile_grid_dims_lem n (omega (arith, h))).0

-- A row further is a grid's width further.
row_below : (c i : ℕ) → 1 ≤ c → NextRow true c i (i + c)
row_below c i h = (add-div_right i {k = c} h, add-mod_right i c)

below_only : (c i j : ℕ) → 1 ≤ c → NextRow true c i j → j ≡ i + c
below_only c i j h (row, column) =
    let (row', column') = row_below c i h in
    sym (div-add-mod j c)
    ∙ ap (λ q. c * q + j % c) (row ∙ sym row')
    ∙ ap (λ r. c * ((i + c) / c) + r) (column ∙ sym column')
    ∙ div-add-mod (i + c) c

-- In one row, a place further is a column further.
column_after : (c i : ℕ) → (i + 1) / c ≡ i / c → NextColumn true c i (i + 1)
column_after c i e = (e, omega (arith, div-add-mod i c, div-add-mod (i + 1) c, ap (λ q. c * q) e))

after_only : (c i j : ℕ) → NextColumn true c i j → j ≡ i + 1
after_only c i j (row, column) =
    sym (div-add-mod j c)
    ∙ ap (λ q. c * q + j % c) row
    ∙ ap (λ r. c * (i / c) + r) column
    ∙ omega (arith, div-add-mod i c)

-- A step of d places to the end of the list, and to its start.
step_on :
    (d n i j : ℕ)
    → ((if ltb (i + d) n then some (i + d) else none) ≡ some j) ↔ ((j < n) × (j ≡ i + d))
step_on d n i j = ground arith

step_back :
    (d n i j : ℕ)
    → i < n
    → ((if leb d i then some (i - d) else none) ≡ some j) ↔ ((j < n) × (i ≡ j + d))
step_back d n i j h = ((λ e. ground (arith, e)), λ k. ground (arith, k.0, k.1))

step_back_one :
    (n i j : ℕ)
    → i < n
    → ((if ltb 0 i then some (i - 1) else none) ≡ some j) ↔ ((j < n) × (i ≡ j + 1))
step_back_one n i j h = ((λ e. ground (arith, e)), λ k. ground (arith, k.0, k.1))

kept_if : (k j m r : ℕ) → ((if m == r then some k else none) ≡ some j) ↔ ((k ≡ j) × (m ≡ r))
kept_if k j m r = ground arith

-- The test that keeps a step in its row.
in_row :
    (o : Option ℕ) (c r j : ℕ)
    → (elim o as (λ x. Option ℕ) [ none ↦ none | some k ↦ if k / c == r then some k else none ]
        ≡ some j)
      ↔ ((o ≡ some j) × (j / c ≡ r))
in_row none c r j = ((λ e. cc e), λ k. cc k.0)
in_row (some k) c r j = (
  λ e.
      let (same, row) = (kept_if k j (k / c) r).0 e in
      (ap some same, ap (λ x. x / c) (sym same) ∙ row),
  λ h. let same : k ≡ j = cc h.0 in (kept_if k j (k / c) r).1 (same, ap (λ x. x / c) same ∙ h.1),
)

-- The place that a vertical step picks, for a window in the order, is the place in its column in the
-- next row, or in the row before, where there is one, and no other.
pub pick_vert-NextRow :
    (down : Bool) (n i j : ℕ)
    → i < n
    → (pick_vert down n i ≡ some j) ↔ ((j < n) × NextRow down (tile_grid_cols n) i j)
unfolding pick_vert
pick_vert-NextRow true n i j h =
    let c = tile_grid_cols n in
    (
      λ e.
          let (inside, same) = (step_on c n i j).0 e in
          (inside, subst (NextRow true c i) (sym same) (row_below c i (cols_positive n i h))),
      λ k. (step_on c n i j).1 (k.0, below_only c i j (cols_positive n i h) k.1),
    )
pick_vert-NextRow false n i j h =
    let c = tile_grid_cols n in
    (
      λ e.
          let (inside, same) = (step_back c n i j h).0 e in
          (inside, subst (NextRow true c j) (sym same) (row_below c j (cols_positive n i h))),
      λ k. (step_back c n i j h).1 (k.0, below_only c j i (cols_positive n i h) k.1),
    )

-- The place that a horizontal step picks, for a window in the order, is the neighbouring place in its
-- row, where there is one, and no other.
pub pick_horiz-NextColumn :
    (right : Bool) (n i j : ℕ)
    → i < n
    → (pick_horiz right n i ≡ some j) ↔ ((j < n) × NextColumn right (tile_grid_cols n) i j)
unfolding pick_horiz pick_linear
pick_horiz-NextColumn true n i j h =
    let c = tile_grid_cols n in
    (
      λ e.
          let (picked, row) = (in_row (pick_linear true n i) c (i / c) j).0 e in
          let (inside, same) = (step_on 1 n i j).0 picked in
          (
            inside,
            subst (NextColumn true c i) (sym same)
                (column_after c i (ap (λ k. k / c) (sym same) ∙ row)),
          ),
      λ k.
          (in_row (pick_linear true n i) c (i / c) j).1
            ((step_on 1 n i j).1 (k.0, after_only c i j k.1), k.1.0),
    )
pick_horiz-NextColumn false n i j h =
    let c = tile_grid_cols n in
    (
      λ e.
          let (picked, row) = (in_row (pick_linear false n i) c (i / c) j).0 e in
          let (inside, same) = (step_back_one n i j h).0 picked in
          (
            inside,
            subst (NextColumn true c j) (sym same)
                (column_after c j (ap (λ k. k / c) (sym same) ∙ sym row)),
          ),
      λ k.
          (in_row (pick_linear false n i) c (i / c) j).1
            ((step_back_one n i j h).1 (k.0, after_only c j i k.1), sym k.1.0),
    )
