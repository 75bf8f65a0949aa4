-- ===== src/Move/Commands.antt =====
-- What `server_tile_move_focused_n` and `server_tile_move_focused_edge` do to the order of the
-- windows on the focused window's output.
use scratch_compositor.Base.{
  ℕ, suc, ◌+◌, ◌<◌, ◌≤◌, ◌≡◌, refl, ap, ◌∙◌, true, false, List, [], ◌∷◌, ◌++◌, Option, some, arith,
  length, length-append,
}
use scratch_compositor.Base.Int.{pos, ◌==ℤ◌}
use scratch_compositor.Server.{Toplevel, Output, Server, is_tiling}
use scratch_compositor.Tiling.{tile_sorted_views, toplevel_tile_output}
use scratch_compositor.Arrange.{server_arrange_toplevels}
use scratch_compositor.Focus.{deref}
use scratch_compositor.Invariant.Defs.{Wf}
use scratch_compositor.Move.Ends.{length-sorted_on}
use scratch_compositor.Move.{
  sorted_on, movable, movable_of, is_positive, move_steps, move_edge, magnitude, pick_linear,
  move_rounds, server_tile_move_focused_n, server_tile_move_focused_edge,
}
use scratch_compositor.Move.Exchange.{order_on}
use scratch_compositor.Move.Forward.{ids, move_rounds-Forward}
use scratch_compositor.Move.Edge.{move_to_edge-Last}

-- The focused window is mapped and does not float, in a layout that tiles.
pub record Movable (s : Server) (f : Toplevel) : Type 0 where
  pub focused : deref s.toplevels s.focused_toplevel ≡ some f
  pub placed : f.tile_float ≡ false
  pub mapped : f.mapped ≡ true
  pub tiling : is_tiling s.layout ≡ true

pub movable-Movable : (s : Server) (f : Toplevel) → Movable s f → movable s ≡ some f
unfolding movable movable_of
movable-Movable s f h = rw (h.focused, h.placed, h.mapped) refl

steps_forward :
    (n : ℕ)
    → 1 ≤ n
    → ((pos n ==ℤ pos 0) ≡ false) × (is_positive (pos n) ≡ true) × (magnitude (pos n) ≡ n)
steps_forward n h = ground arith

-- The command is its loop, for a window that can move.
server_tile_move_focused_n_lem :
    (s : Server) (f : Toplevel) (n : ℕ)
    → Movable s f
    → 1 ≤ n
    → server_tile_move_focused_n s (pos n)
      ≡ move_rounds (pick_linear true) (toplevel_tile_output s f) f.id n s
unfolding server_tile_move_focused_n move_steps
server_tile_move_focused_n_lem s f n h many =
    let (nonzero, forward, size) = steps_forward n many in
    rw (h.tiling, nonzero, forward, size, movable-Movable s f h) refl

-- What a command leaves: an arrangement of a state with the given order.
pub record Ordered (out : Option Output) (order : List ℕ) (result : Server) : Type 0 where
  pub before_arranging : Server
  pub arranged : result ≡ server_arrange_toplevels before_arranging
  pub order_there : order_on out before_arranging ≡ order
  pub wf : Wf before_arranging

-- In the tile or the scroll layout, for a focused window that is mapped and does not float, where `m`
-- are the next windows in the order of its output, a move by as many steps, at least one, arranges a well-formed state in which the window comes behind them
-- and all others keep their order.
pub server_tile_move_focused_n-Ordered :
    (s : Server) (p : List Toplevel) (f : Toplevel) (m q : List Toplevel)
    → Movable s f
    → Wf s
    → sorted_on (toplevel_tile_output s f) s ≡ p ++ f ∷ (m ++ q)
    → 1 ≤ length m
    → Ordered
        (toplevel_tile_output s f)
        (ids p ++ (ids m ++ f.id ∷ ids q))
        (server_tile_move_focused_n s (pos (length m)))
server_tile_move_focused_n-Ordered s p f m q h w e many =
    let (s', done) = move_rounds-Forward (toplevel_tile_output s f) s p f m q w e in
    record {
      before_arranging = s';
      arranged = server_tile_move_focused_n_lem s f (length m) h many ∙ done.arranged;
      order_there = done.order;
      wf = done.wf;
    }

-- In the tile or the scroll layout, for a focused window that is mapped and does not float, on an
-- output with another window in its order, the move to the last place ends within its fuel; it arranges a well-formed state in which the window comes last and
-- all others keep their order.
pub server_tile_move_focused_edge-Ordered :
    (s : Server) (p : List Toplevel) (f : Toplevel) (m : List Toplevel)
    → Movable s f
    → Wf s
    → sorted_on (toplevel_tile_output s f) s ≡ p ++ f ∷ m
    → 1 ≤ length p + length m
    → (s' : Server) × (server_tile_move_focused_edge s false ≡ some s')
      × Ordered (toplevel_tile_output s f) (ids p ++ (ids m ++ f.id ∷ [])) s'
unfolding server_tile_move_focused_edge move_edge
server_tile_move_focused_edge-Ordered s p f m h w e many =
    let out = toplevel_tile_output s f in
    let fits : length m < suc (length (tile_sorted_views s)) =
      ground (arith, length-sorted_on out s, ap length e, length-append p (f ∷ m)) in
    let (s', done) =
      move_to_edge-Last out (suc (length (tile_sorted_views s))) s p f m w e many fits in
    (
      server_arrange_toplevels s',
      rw (h.tiling, movable-Movable s f h) done.arranged,
      record { before_arranging = s'; arranged = refl; order_there = done.order; wf = done.wf },
    )
