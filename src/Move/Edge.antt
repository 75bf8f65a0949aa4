-- ===== src/Move/Edge.antt =====
-- About the loop of `server_tile_move_focused_edge` towards the last place.
use mathlib.Core.List.{append_assoc, map-append}
use scratch_compositor.Base.{
  ℕ, zero, suc, ◌+◌, ◌<◌, ◌≤◌, ◌≡◌, refl, sym, ap, ◌∙◌, true, List, [], ◌∷◌, ◌++◌, Option, none,
  some, arith, length, length-append, Apart, Apart_at, subst,
}
use scratch_compositor.Server.{Toplevel, Output, Server}
use scratch_compositor.Tiling.Order.{IdsDiffer}
use scratch_compositor.Tiling.{with_keys_of, tile_swap_sort_keys}
use scratch_compositor.Arrange.{server_arrange_toplevels}
use scratch_compositor.Invariant.Defs.{Wf}
use scratch_compositor.Move.{
  edge, after_round, Pick, pick_linear, sorted_on, exchange_at, round_at, move_round, move_to_edge,
}
use scratch_compositor.Move.Exchange.{order_on, sorted_on-tile_swap_sort_keys}
use scratch_compositor.Move.Keys.{sorted_on-ids, tile_swap_sort_keys-Wf}
use scratch_compositor.Move.Forward.{ids, tile_sorted_index_at, move_round_of, move_round_next}

pick_linear_last : (n i : ℕ) → n ≡ suc i → pick_linear true n i ≡ none
unfolding pick_linear
pick_linear_last n i h = ground arith

round_at-edge :
    (pick : Pick) (sorted : List Toplevel) (i : ℕ) (s : Server)
    → pick (length sorted) i ≡ none
    → round_at pick sorted (some i) s ≡ edge
unfolding round_at exchange_at
round_at-edge pick sorted i s h = rw h refl

-- At the end of the order a round finds no place.
move_round_last :
    (out : Option Output) (s : Server) (p : List Toplevel) (a : Toplevel)
    → Wf s
    → sorted_on out s ≡ p ++ a ∷ []
    → 1 ≤ length p
    → move_round (pick_linear true) out a.id s ≡ edge
move_round_last out s p a w e many =
    let apart = Apart_at IdsDiffer p a [] (subst (Apart IdsDiffer) e (sorted_on-ids out s w)) in
    let count : length (p ++ a ∷ []) ≡ length p + 1 = length-append p (a ∷ []) in
    move_round_of (pick_linear true) out a.id s (p ++ a ∷ []) (length p) e
      (ground (arith, count, many)) (tile_sorted_index_at p a [] apart.0)
    ∙ round_at-edge (pick_linear true) (p ++ a ∷ []) (length p) s
        (pick_linear_last _ (length p) (ground (arith, count)))

-- What moving to the end does to the order of an output.
pub record Last (out : Option Output) (f fuel : ℕ) (before after : List Toplevel) (s s' : Server)
    : Type 0 where
  pub arranged : move_to_edge (pick_linear true) out f fuel s ≡ some (server_arrange_toplevels s')
  pub order : order_on out s' ≡ ids before ++ (ids after ++ f ∷ [])
  pub wf : Wf s'

-- With more fuel than windows stand behind it, the window comes to the end of an order of two or
-- more; all others keep their order and the windows their invariant, and they are arranged.
pub move_to_edge-Last :
    (out : Option Output) (fuel : ℕ) (s : Server) (p : List Toplevel) (a : Toplevel)
    (m : List Toplevel)
    → Wf s
    → sorted_on out s ≡ p ++ a ∷ m
    → 1 ≤ length p + length m
    → length m < fuel
    → (s' : Server) × Last out a.id fuel p m s s'
unfolding move_to_edge
move_to_edge-Last out zero s p a m w e many enough = absurd (ground (arith, enough))
move_to_edge-Last out (suc fuel) s p a [] w e many enough = (
  s,
  record {
    arranged =
        ap
          (λ r.
            after_round r (some s) (some (server_arrange_toplevels s))
              (move_to_edge (pick_linear true) out a.id fuel))
          (move_round_last out s p a w e (ground (arith, many)));
    order = ap ids e ∙ map-append _ p (a ∷ []);
    wf = w;
  },
)
move_to_edge-Last out (suc fuel) s p a (b ∷ m) w e many enough =
    let s1 = tile_swap_sort_keys a b s in
    let b' = with_keys_of a b in
    let a' = with_keys_of b a in
    let swap = sorted_on-tile_swap_sort_keys out s p a [] b m w.keys w.ids e in
    let regroup = append_assoc p (b' ∷ []) (a' ∷ m) in
    let (s', f) =
      move_to_edge-Last out fuel s1 (p ++ b' ∷ []) a' m
        (tile_swap_sort_keys-Wf out s p a [] b m w e) (swap ∙ sym regroup)
        (ground (arith, length-append p (b' ∷ []))) (ground (arith, enough)) in
    (
      s',
      record {
        arranged =
            ap
              (λ r.
                after_round r (some s) (some (server_arrange_toplevels s))
                  (move_to_edge (pick_linear true) out a.id fuel))
              (move_round_next out s p a b m w e)
            ∙ f.arranged;
        order =
            f.order
            ∙ ap (λ l. l ++ (ids m ++ a.id ∷ [])) (map-append _ p (b' ∷ []))
            ∙ append_assoc (ids p) (b.id ∷ []) (ids m ++ a.id ∷ []);
        wf = f.wf;
      },
    )
