-- ===== src/Config/Grid.antt =====
-- src/config.c: the check of the command= of a tile_grid_move bind.
use scratch_compositor.Base.{
  ℕ, zero, suc, Bool, true, false, ◌&&◌, [], ◌∷◌, Option, none, some, take, if◌then◌else◌,
}
use scratch_compositor.Base.Int.{ℤ, pos, ltb_ℤ}
use scratch_compositor.Base.Text.{Bytes, is_space, is_named, skip_while, trim, strtol, strtol_whole}

-- `tile_grid_dir_word`
unfoldable pub tile_grid_dir_word : Bytes → Bool
unfolding is_named
tile_grid_dir_word w = is_named w ("left" ∷ "right" ∷ "up" ∷ "down" ∷ "top" ∷ "bottom" ∷ [])

-- The word that `%31s` reads, with the number of bytes that may still be read, and the rest.
unfoldable pub scan_word : ℕ → Bytes → Bytes × Bytes
unfolding is_space
scan_word zero s = ([], s)
scan_word (suc room) [] = ([], [])
scan_word (suc room) (c ∷ s) =
    let rest = scan_word room s in if is_space c then ([], c ∷ s) else (c ∷ rest.0, rest.1)

abbrev pub is_empty : Bytes → Bool
is_empty [] = true
is_empty _ = false

-- A count of 1 or more, with nothing but blanks behind it.
is_count : Option (ℤ × Bytes) → Bool
unfolding skip_while is_space
is_count none = false
is_count (some (steps, rest)) = ltb_ℤ (pos 0) steps && is_empty (skip_while is_space rest)

-- A direction, alone or with a count.
unfoldable pub direction_ok : Bytes × Bytes → Bool
unfolding is_count skip_while is_space
direction_ok (dir, rest) =
    let r = skip_while is_space rest in
    tile_grid_dir_word dir && (if is_empty r then true else is_count (strtol r))

legacy_or_direction : Option ℤ → Bytes → Bool
unfolding direction_ok
legacy_or_direction (some v) s = true
legacy_or_direction none s = direction_ok (scan_word 31 s)

-- `tile_grid_move_command_ok`, whose buffer holds 255 bytes of the command.
unfoldable pub tile_grid_move_command_ok : Bytes → Bool
unfolding legacy_or_direction trim is_space
tile_grid_move_command_ok cmd =
    let s = trim is_space (take 255 cmd) in
    if is_empty s then false else legacy_or_direction (strtol_whole s) s
