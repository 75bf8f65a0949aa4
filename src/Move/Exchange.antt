-- ===== src/Move/Exchange.antt =====
-- About one exchange of sort keys, seen on one output.
use scratch_compositor.Base.{
  ℕ, ◌≡◌, refl, ap, ◌∙◌, fun_ext, Bool, true, List, ◌∷◌, ◌++◌, map, Option, keep, keep_at,
  keep-split, Apart,
}
use scratch_compositor.Server.{Toplevel, Output, Server}
use scratch_compositor.Tiling.Order.{KeysDiffer, IdsDiffer}
use scratch_compositor.Tiling.Swap.{tile_sorted_views-tile_swap_sort_keys}
use scratch_compositor.Tiling.{
  with_keys_of, tile_swap_sort_keys, tile_sorted_views, tile_sorted_views_on_output, is_output,
  toplevel_tile_output, primary_wlr_output,
}
use scratch_compositor.Move.{id_of, sorted_on}

-- The order of the windows on an output, as pointers.
abbrev pub order_on : Option Output → Server → List ℕ
order_on out s = map (λ (t : Toplevel). t.id) (sorted_on out s)

abbrev on : Option Output → Server → Toplevel → Bool
on out s t = is_output (id_of out) (toplevel_tile_output s t)

-- Sort keys do not decide which output a window is on.
on-with_keys_of :
    (out : Option Output) (k t : Toplevel) (s : Server)
    → on out s t ≡ true
    → on out s (with_keys_of k t) ≡ true
unfolding toplevel_tile_output
on-with_keys_of out k t s h = h

toplevel_tile_output-swap :
    (a b t : Toplevel) (s : Server)
    → toplevel_tile_output (tile_swap_sort_keys a b s) t ≡ toplevel_tile_output s t
unfolding toplevel_tile_output tile_swap_sort_keys primary_wlr_output
toplevel_tile_output-swap a b t s = refl

keep-on :
    (out : Option Output) (a b : Toplevel) (s : Server) (ts : List Toplevel)
    → keep (on out (tile_swap_sort_keys a b s)) ts ≡ keep (on out s) ts
keep-on out a b s ts =
    ap (λ f. keep f ts)
      (fun_ext (λ t. ap (is_output (id_of out)) (toplevel_tile_output-swap a b t s)))

-- For distinct windows with distinct user keys: where two of them stand in an output's order,
-- exchanging their keys exchanges their places there, and all others keep theirs.
pub sorted_on-tile_swap_sort_keys :
    (out : Option Output) (s : Server) (p : List Toplevel) (a : Toplevel) (m : List Toplevel)
    (b : Toplevel) (q : List Toplevel)
    → Apart KeysDiffer s.toplevels
    → Apart IdsDiffer s.toplevels
    → sorted_on out s ≡ p ++ a ∷ (m ++ b ∷ q)
    → sorted_on out (tile_swap_sort_keys a b s)
      ≡ p ++ with_keys_of a b ∷ (m ++ with_keys_of b a ∷ q)
unfolding sorted_on tile_sorted_views_on_output
sorted_on-tile_swap_sort_keys out s p a m b q keys ids e =
    let g = on out s in
    let (us, vs, split, left, right, on_a) =
      keep-split g (tile_sorted_views s) p a (m ++ b ∷ q) e in
    let (ms, qs, split', middle, last, on_b) = keep-split g vs m b q right in
    let placed = split ∙ ap (λ v. us ++ a ∷ v) split' in
    ap (keep (on out (tile_swap_sort_keys a b s)))
      (tile_sorted_views-tile_swap_sort_keys s us a ms b qs keys ids placed)
    ∙ keep-on out a b s _
    ∙ keep_at g us (with_keys_of a b) (ms ++ with_keys_of b a ∷ qs) (on-with_keys_of out a b s on_b)
    ∙ ap (λ v. keep g us ++ with_keys_of a b ∷ v)
        (keep_at g ms (with_keys_of b a) qs (on-with_keys_of out b a s on_a))
    ∙ cc (left, middle, last)
