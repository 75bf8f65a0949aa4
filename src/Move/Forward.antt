-- ===== src/Move/Forward.antt =====
-- About the loop of `server_tile_move_focused_n` for a move forward, as a change of the order of
-- the windows on an output.
use mathlib.Core.List.{append_assoc, map-append}
use scratch_compositor.Base.{
  ℕ, suc, ◌+◌, ◌<◌, ◌≤◌, ◌≡◌, refl, sym, ap, ◌∙◌, true, false, List, [], ◌∷◌, ◌++◌, map, Option,
  some, arith, ltb, length, length-append, get_elem?, All, Apart, Apart_at, subst, ==_iff, ne→==,
}
use scratch_compositor.Server.{Toplevel, Output, Server}
use scratch_compositor.Tiling.Order.{IdsDiffer}
use scratch_compositor.Tiling.{with_keys_of, tile_swap_sort_keys, tile_sorted_index}
use scratch_compositor.Arrange.{server_arrange_toplevels}
use scratch_compositor.Invariant.Defs.{Wf}
use scratch_compositor.Move.{
  swapped, after_round, Pick, pick_linear, sorted_on, exchange_with, exchange_at, round_at,
  move_round, move_rounds,
}
use scratch_compositor.Move.Exchange.{order_on, sorted_on-tile_swap_sort_keys}
use scratch_compositor.Move.Keys.{sorted_on-ids, tile_swap_sort_keys-Wf}

pub get_elem?_at {ℓ} :
    {A : Type ℓ} (xs : List A) (y : A) (ys : List A) → get_elem? (xs ++ y ∷ ys) (length xs) ≡ some y
get_elem?_at [] y ys = refl
get_elem?_at (x ∷ xs) y ys = get_elem?_at xs y ys

get_elem?_next {ℓ} :
    {A : Type ℓ} (xs : List A) (x y : A) (ys : List A)
    → get_elem? (xs ++ x ∷ y ∷ ys) (suc (length xs)) ≡ some y
get_elem?_next [] x y ys = refl
get_elem?_next (z ∷ xs) x y ys = get_elem?_next xs x y ys

-- A window is found at its place in a list of distinct windows.
pub tile_sorted_index_at :
    (xs : List Toplevel) (a : Toplevel) (ys : List Toplevel)
    → All (λ x. IdsDiffer x a) xs
    → tile_sorted_index (xs ++ a ∷ ys) a.id ≡ some (length xs)
unfolding tile_sorted_index
tile_sorted_index_at [] a ys h = rw ((==_iff a.id a.id).1 refl) refl
tile_sorted_index_at (x ∷ xs) a ys h =
    rw (ne→== x.id a.id h.0, tile_sorted_index_at xs a ys h.1) refl

pick_linear_next : (n i : ℕ) → suc i < n → pick_linear true n i ≡ some (suc i)
unfolding pick_linear
pick_linear_next n i h = ground arith

-- A round that finds both windows exchanges them.
pub round_at-swapped :
    (pick : Pick) (sorted : List Toplevel) (i j : ℕ) (a b : Toplevel) (s : Server)
    → pick (length sorted) i ≡ some j
    → get_elem? sorted i ≡ some a
    → get_elem? sorted j ≡ some b
    → round_at pick sorted (some i) s ≡ swapped (tile_swap_sort_keys a b s)
unfolding round_at exchange_at exchange_with
round_at-swapped pick sorted i j a b s h k l = rw (h, k, l) refl

pub move_round_of :
    (pick : Pick) (out : Option Output) (f : ℕ) (s : Server) (sorted : List Toplevel) (i : ℕ)
    → sorted_on out s ≡ sorted
    → 2 ≤ length sorted
    → tile_sorted_index sorted f ≡ some i
    → move_round pick out f s ≡ round_at pick sorted (some i) s
unfolding move_round
move_round_of pick out f s sorted i e many found =
    let enough : ltb (length sorted) 2 ≡ false = ground (arith, many) in rw (e, enough, found) refl

-- One round exchanges the window with the next one.
pub move_round_next :
    (out : Option Output) (s : Server) (p : List Toplevel) (a b : Toplevel) (q : List Toplevel)
    → Wf s
    → sorted_on out s ≡ p ++ a ∷ b ∷ q
    → move_round (pick_linear true) out a.id s ≡ swapped (tile_swap_sort_keys a b s)
move_round_next out s p a b q w e =
    let apart =
      Apart_at IdsDiffer p a (b ∷ q) (subst (Apart IdsDiffer) e (sorted_on-ids out s w)) in
    let count : length (p ++ a ∷ b ∷ q) ≡ length p + suc (suc (length q)) =
      length-append p (a ∷ b ∷ q) in
    move_round_of (pick_linear true) out a.id s (p ++ a ∷ b ∷ q) (length p) e
      (ground (arith, count)) (tile_sorted_index_at p a (b ∷ q) apart.0)
    ∙ round_at-swapped (pick_linear true) (p ++ a ∷ b ∷ q) (length p) (suc (length p)) a b s
        (pick_linear_next _ (length p) (ground (arith, count))) (get_elem?_at p a (b ∷ q))
        (get_elem?_next p a b q)

abbrev pub ids : List Toplevel → List ℕ
ids = map (λ (t : Toplevel). t.id)

-- What moving forward by k places does to the order of an output.
pub record Forward (out : Option Output) (f : ℕ) (before moved after : List Toplevel)
    (s s' : Server) : Type 0 where
  pub arranged : move_rounds (pick_linear true) out f (length moved) s ≡ server_arrange_toplevels s'
  pub order : order_on out s' ≡ ids before ++ (ids moved ++ f ∷ ids after)
  pub wf : Wf s'

-- Where `moved` stands between the window and the rest of the order, as many rounds as it has
-- windows put it before the window, keep the order of all others and the invariant of the windows,
-- and end in an arrangement.
pub move_rounds-Forward :
    (out : Option Output) (s : Server) (p : List Toplevel) (a : Toplevel) (m q : List Toplevel)
    → Wf s
    → sorted_on out s ≡ p ++ a ∷ (m ++ q)
    → (s' : Server) × Forward out a.id p m q s s'
unfolding move_rounds
move_rounds-Forward out s p a [] q w e = (
  s,
  record {
    arranged = refl;
    order = ap (map (λ (t : Toplevel). t.id)) e ∙ map-append _ p (a ∷ q);
    wf = w;
  },
)
move_rounds-Forward out s p a (b ∷ m) q w e =
    let s1 = tile_swap_sort_keys a b s in
    let b' = with_keys_of a b in
    let a' = with_keys_of b a in
    let swap = sorted_on-tile_swap_sort_keys out s p a [] b (m ++ q) w.keys w.ids e in
    let regroup = append_assoc p (b' ∷ []) (a' ∷ (m ++ q)) in
    let (s', f) =
      move_rounds-Forward out s1 (p ++ b' ∷ []) a' m q
        (tile_swap_sort_keys-Wf out s p a [] b (m ++ q) w e) (swap ∙ sym regroup) in
    (
      s',
      record {
        arranged =
            ap (λ r. after_round r s s (move_rounds (pick_linear true) out a.id (length m)))
              (move_round_next out s p a b (m ++ q) w e)
            ∙ f.arranged;
        order =
            f.order
            ∙ ap (λ l. l ++ (ids m ++ a.id ∷ ids q)) (map-append _ p (b' ∷ []))
            ∙ append_assoc (ids p) (b.id ∷ []) (ids m ++ a.id ∷ ids q);
        wf = f.wf;
      },
    )
