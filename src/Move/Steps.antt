-- ===== src/Move/Steps.antt =====
-- About one step in the grid.
use mathlib.Core.List.{append_assoc, map-append}
use scratch_compositor.Base.{
  suc, ◌+◌, ◌<◌, ◌≡◌, refl, ap, ◌∙◌, subst, true, List, ◌∷◌, ◌++◌, Option, some, arith, length,
  length-append, get_elem?, Apart, Apart_at,
}
use scratch_compositor.Base.Int.{pos}
use scratch_compositor.Server.{Toplevel, Output, Server, is_tile}
use scratch_compositor.Tiling.{tile_swap_sort_keys, toplevel_tile_output}
use scratch_compositor.Tiling.Grid.{tile_grid_cols}
use scratch_compositor.Tiling.Order.{IdsDiffer}
use scratch_compositor.Invariant.Defs.{Wf}
use scratch_compositor.Move.{
  Pick, sorted_on, move_round, move_rounds, move_steps, swapped, pick_vert, pick_horiz,
  server_tile_move_focused_grid_vert, server_tile_move_focused_grid_horiz,
}
use scratch_compositor.Move.Keys.{sorted_on-ids, tile_swap_sort_keys-Wf}
use scratch_compositor.Move.Exchange.{sorted_on-tile_swap_sort_keys}
use scratch_compositor.Move.Forward.{
  ids, get_elem?_at, tile_sorted_index_at, move_round_of, round_at-swapped,
}
use scratch_compositor.Move.Places.{NextRow, NextColumn, pick_vert-NextRow, pick_horiz-NextColumn}
use scratch_compositor.Move.Commands.{Movable, movable-Movable, Ordered}

-- The window at a later place.
get_elem?_later :
    (p : List Toplevel) (a : Toplevel) (m : List Toplevel) (b : Toplevel) (q : List Toplevel)
    → get_elem? (p ++ a ∷ (m ++ b ∷ q)) (length p + suc (length m)) ≡ some b
get_elem?_later p a m b q =
    subst (λ xs. get_elem? xs (length p + suc (length m)) ≡ some b) (append_assoc p (a ∷ m) (b ∷ q))
      (subst (λ i. get_elem? ((p ++ a ∷ m) ++ b ∷ q) i ≡ some b) (length-append p (a ∷ m))
        (get_elem?_at (p ++ a ∷ m) b q))

-- A round that picks the place of b exchanges the window with b.
move_round_later :
    (pick : Pick) (out : Option Output) (s : Server) (p : List Toplevel) (a : Toplevel)
    (m : List Toplevel) (b : Toplevel) (q : List Toplevel)
    → Wf s
    → sorted_on out s ≡ p ++ a ∷ (m ++ b ∷ q)
    → pick (length (p ++ a ∷ (m ++ b ∷ q))) (length p) ≡ some (length p + suc (length m))
    → move_round pick out a.id s ≡ swapped (tile_swap_sort_keys a b s)
move_round_later pick out s p a m b q w e picked =
    let sorted = p ++ a ∷ (m ++ b ∷ q) in
    let apart =
      Apart_at IdsDiffer p a (m ++ b ∷ q) (subst (Apart IdsDiffer) e (sorted_on-ids out s w)) in
    move_round_of pick out a.id s sorted (length p) e
      (ground (arith, length-append p (a ∷ (m ++ b ∷ q)), length-append m (b ∷ q)))
      (tile_sorted_index_at p a (m ++ b ∷ q) apart.0)
    ∙ round_at-swapped pick sorted (length p) (length p + suc (length m)) a b s picked
        (get_elem?_at p a (m ++ b ∷ q)) (get_elem?_later p a m b q)

-- One round of a loop that picks the place of b leaves the two windows exchanged and arranged.
one_step-Ordered :
    (pick : Pick) (out : Option Output) (s : Server) (p : List Toplevel) (a : Toplevel)
    (m : List Toplevel) (b : Toplevel) (q : List Toplevel)
    → Wf s
    → sorted_on out s ≡ p ++ a ∷ (m ++ b ∷ q)
    → pick (length (p ++ a ∷ (m ++ b ∷ q))) (length p) ≡ some (length p + suc (length m))
    → Ordered out (ids p ++ b.id ∷ (ids m ++ a.id ∷ ids q)) (move_rounds pick out a.id 1 s)
unfolding move_rounds
one_step-Ordered pick out s p a m b q w e picked = record {
  before_arranging = tile_swap_sort_keys a b s;
  arranged = rw (move_round_later pick out s p a m b q w e picked) refl;
  order_there =
      ap ids (sorted_on-tile_swap_sort_keys out s p a m b q w.keys w.ids e)
      ∙ map-append _ p _
      ∙ ap (λ l. ids p ++ b.id ∷ l) (map-append _ m _);
  wf = tile_swap_sort_keys-Wf out s p a m b q w e;
}

inside_later :
    (p : List Toplevel) (a : Toplevel) (m : List Toplevel) (b : Toplevel) (q : List Toplevel)
    → (length p < length (p ++ a ∷ (m ++ b ∷ q)))
      × (length p + suc (length m) < length (p ++ a ∷ (m ++ b ∷ q)))
inside_later p a m b q = (
  omega (arith, length-append p (a ∷ (m ++ b ∷ q)), length-append m (b ∷ q)),
  omega (arith, length-append p (a ∷ (m ++ b ∷ q)), length-append m (b ∷ q)),
)

-- In the tile layout, where the focused window is mapped and does not float, and window b stands in
-- its column in the next row of its output's grid, one step down arranges a well-formed state in
-- which the two have exchanged their places and no other window has moved.
pub server_tile_move_focused_grid_vert-Ordered :
    (s : Server) (p : List Toplevel) (f : Toplevel) (m : List Toplevel) (b : Toplevel)
    (q : List Toplevel)
    → Movable s f
    → is_tile s.layout ≡ true
    → Wf s
    → sorted_on (toplevel_tile_output s f) s ≡ p ++ f ∷ (m ++ b ∷ q)
    → NextRow true
        (tile_grid_cols (length (p ++ f ∷ (m ++ b ∷ q))))
        (length p)
        (length p + suc (length m))
    → Ordered
        (toplevel_tile_output s f)
        (ids p ++ b.id ∷ (ids m ++ f.id ∷ ids q))
        (server_tile_move_focused_grid_vert s (pos 1))
unfolding server_tile_move_focused_grid_vert move_steps
server_tile_move_focused_grid_vert-Ordered s p f m b q h tile w e below =
    let (here, there) = inside_later p f m b q in
    rw (tile, movable-Movable s f h)
      (one_step-Ordered (pick_vert true) (toplevel_tile_output s f) s p f m b q w e
        ((pick_vert-NextRow true _ _ _ here).1 (there, below)))

-- In the tile layout, where the focused window is mapped and does not float, and window b stands in
-- the next column of its row of its output's grid, one step to the right arranges a well-formed
-- state in which the two have exchanged their places and no other window has moved.
pub server_tile_move_focused_grid_horiz-Ordered :
    (s : Server) (p : List Toplevel) (f : Toplevel) (m : List Toplevel) (b : Toplevel)
    (q : List Toplevel)
    → Movable s f
    → is_tile s.layout ≡ true
    → Wf s
    → sorted_on (toplevel_tile_output s f) s ≡ p ++ f ∷ (m ++ b ∷ q)
    → NextColumn true
        (tile_grid_cols (length (p ++ f ∷ (m ++ b ∷ q))))
        (length p)
        (length p + suc (length m))
    → Ordered
        (toplevel_tile_output s f)
        (ids p ++ b.id ∷ (ids m ++ f.id ∷ ids q))
        (server_tile_move_focused_grid_horiz s (pos 1))
unfolding server_tile_move_focused_grid_horiz move_steps
server_tile_move_focused_grid_horiz-Ordered s p f m b q h tile w e right =
    let (here, there) = inside_later p f m b q in
    rw (tile, movable-Movable s f h)
      (one_step-Ordered (pick_horiz true) (toplevel_tile_output s f) s p f m b q w e
        ((pick_horiz-NextColumn true _ _ _ here).1 (there, right)))
