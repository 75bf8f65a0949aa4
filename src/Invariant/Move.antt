-- ===== src/Invariant/Move.antt =====
-- About the `server_tile_move_focused` family, `server_scroll_move` and the invariant.
use scratch_compositor.Base.{
  ℕ, zero, suc, ◌≤◌, ◌≡◌, refl, sym, Bool, not, ◌||◌, Option, none, some, arith, ◌==◌, if_cases,
  List, [], ◌∷◌, map, subst, All, get_elem?, length, ltb,
}
use scratch_compositor.Base.Int.{ℤ, pos, ◌==ℤ◌}
use scratch_compositor.Server.{
  Toplevel, Output, Server, is_tiling, is_tile, is_scroll, toplevel_by_id,
}
use scratch_compositor.Tiling.{tile_swap_sort_keys}
use scratch_compositor.Tiling.Swap.{exchanged, toplevels-swap}
use scratch_compositor.Move.{
  Round, gone, edge, swapped, Pick, sorted_on, exchange_with, exchange_at, round_at, move_round,
  after_round, move_rounds, move_to_edge, movable, move_steps, move_edge,
  server_tile_move_focused_n, server_tile_move_focused_edge, server_tile_move_focused_grid_vert,
  server_tile_move_focused_grid_vert_edge, server_tile_move_focused_grid_horiz, scroll_on,
  scroll_output, server_scroll_move,
}
use scratch_compositor.Move.Keys.{OneOrTwo, sorted_on-square, All-sorted_on, swap-Wf}
use scratch_compositor.Move.Progress.{IsSome}
use scratch_compositor.Move.Ends.{move_edge_linear-IsSome, move_edge_vert-IsSome}
use scratch_compositor.Frame.{Frame-trans, set_scroll_slot-Frame, server_arrange_toplevels-Frame}
use scratch_compositor.Invariant.Defs.{FocusOn, Inv, Inv-Frame}

All-get {ℓ} :
    (P : Toplevel → Type ℓ) (xs : List Toplevel) (i : ℕ) (a : Toplevel)
    → All P xs
    → get_elem? xs i ≡ some a
    → P a
All-get P [] i a h e = cc
All-get P (x ∷ xs) zero a h e = subst P (cc e) h.0
All-get P (x ∷ xs) (suc i) a h e = All-get P xs i a h.1 e

toplevel_by_id-exchanged :
    (a b : Toplevel) (j : ℕ) (ts : List Toplevel) (t : Toplevel)
    → toplevel_by_id ts j ≡ some t
    → toplevel_by_id (map (exchanged a b) ts) j ≡ some (exchanged a b t)
unfolding toplevel_by_id
toplevel_by_id-exchanged a b j [] t e = cc
toplevel_by_id-exchanged a b j (x ∷ ts) t e = ground (arith, toplevel_by_id-exchanged a b j ts t)

pub FocusOn-exchanged :
    (p : Option ℕ) (ws : ℕ) (a b : Toplevel) (ts : List Toplevel)
    → FocusOn p ws ts
    → FocusOn p ws (map (exchanged a b) ts)
FocusOn-exchanged none ws a b ts h = tt
FocusOn-exchanged (some j) ws a b ts (t, e, w, m) =
    (exchanged a b t, toplevel_by_id-exchanged a b j ts t e, ground (arith, w), ground (arith, m))

-- The exchange of two windows of an output, wherever they stand.
swap-Inv :
    (out : Option Output) (s : Server) (i j : ℕ) (a b : Toplevel)
    → get_elem? (sorted_on out s) i ≡ some a
    → get_elem? (sorted_on out s) j ≡ some b
    → Inv s
    → Inv (tile_swap_sort_keys a b s)
unfolding tile_swap_sort_keys
swap-Inv out s i j a b ea eb v =
    let every : Toplevel → Type 0 = λ u. All (OneOrTwo u) s.toplevels in
    let square = sorted_on-square out s v.wf in
    let ha = All-get every (sorted_on out s) i a square ea in
    let hb = All-get every (sorted_on out s) j b square eb in
    let low : Toplevel → Type 0 = λ t. t.tile_user_key ≤ s.tile_user_key_gen in
    let below = All-sorted_on low out s v.wf.given in
    let below_a = All-get low (sorted_on out s) i a below ea in
    let below_b = All-get low (sorted_on out s) j b below eb in
    let ab = All-get (OneOrTwo a) (sorted_on out s) j b (All-sorted_on (OneOrTwo a) out s ha) eb in
    record {
      wf = swap-Wf a b s ha hb ab below_a below_b v.wf;
      focus =
          subst (FocusOn s.focused_toplevel s.current_workspace) (sym (toplevels-swap a b s))
            (FocusOn-exchanged s.focused_toplevel s.current_workspace a b s.toplevels v.focus);
    }

-- What a round leaves.
abbrev RoundInv : Round → Type 0
RoundInv gone = Unit
RoundInv edge = Unit
RoundInv (swapped s) = Inv s

exchange_with-Inv :
    (out : Option Output) (s : Server) (i j : ℕ) (a b : Option Toplevel)
    → get_elem? (sorted_on out s) i ≡ a
    → get_elem? (sorted_on out s) j ≡ b
    → Inv s
    → RoundInv (exchange_with a b s)
unfolding exchange_with
exchange_with-Inv out s i j none b ea eb v = tt
exchange_with-Inv out s i j (some a) none ea eb v = tt
exchange_with-Inv out s i j (some a) (some b) ea eb v = swap-Inv out s i j a b ea eb v

exchange_at-Inv :
    (out : Option Output) (s : Server) (i : ℕ) (j : Option ℕ)
    → Inv s
    → RoundInv (exchange_at (sorted_on out s) i j s)
unfolding exchange_at
exchange_at-Inv out s i none v = tt
exchange_at-Inv out s i (some j) v = exchange_with-Inv out s i j _ _ refl refl v

round_at-Inv :
    (pick : Pick) (out : Option Output) (s : Server) (i : Option ℕ)
    → Inv s
    → RoundInv (round_at pick (sorted_on out s) i s)
unfolding round_at
round_at-Inv pick out s none v = tt
round_at-Inv pick out s (some i) v = exchange_at-Inv out s i _ v

move_round-Inv :
    (pick : Pick) (out : Option Output) (f : ℕ) (s : Server)
    → Inv s
    → RoundInv (move_round pick out f s)
unfolding move_round
move_round-Inv pick out f s v =
    if_cases RoundInv (ltb (length (sorted_on out s)) 2) gone _ (λ e. tt)
      (λ e. round_at-Inv pick out s _ v)

after_round-Inv {ℓ κ} :
    {A : Type ℓ}
    → (P : A → Type κ) (r : Round) (x y : A) (next : Server → A) → RoundInv r
    → P x
    → P y
    → ((s : Server) → Inv s → P (next s))
    → P (after_round r x y next)
after_round-Inv P gone x y next r px py pn = px
after_round-Inv P edge x y next r px py pn = py
after_round-Inv P (swapped s) x y next r px py pn = pn s r

move_rounds-Inv :
    (pick : Pick) (out : Option Output) (f n : ℕ) (s : Server)
    → Inv s
    → Inv (move_rounds pick out f n s)
unfolding move_rounds
move_rounds-Inv pick out f zero s v = Inv-Frame (server_arrange_toplevels-Frame s) v
move_rounds-Inv pick out f (suc n) s v =
    after_round-Inv Inv (move_round pick out f s) s s _ (move_round-Inv pick out f s v) v v
      (λ s' v'. move_rounds-Inv pick out f n s' v')

-- A loop that has not run out of fuel leaves the invariant.
abbrev Unfinished : Option Server → Type 0
Unfinished none = Unit
Unfinished (some s) = Inv s

move_to_edge-Unfinished :
    (pick : Pick) (out : Option Output) (f fuel : ℕ) (s : Server)
    → Inv s
    → Unfinished (move_to_edge pick out f fuel s)
unfolding move_to_edge
move_to_edge-Unfinished pick out f zero s v = tt
move_to_edge-Unfinished pick out f (suc fuel) s v =
    after_round-Inv Unfinished (move_round pick out f s) _ _ _ (move_round-Inv pick out f s v) v
      (Inv-Frame (server_arrange_toplevels-Frame s) v)
      (λ s' v'. move_to_edge-Unfinished pick out f fuel s' v')

-- There is a result, and the invariant holds of it.
abbrev pub OutcomeInv : Option Server → Type 0
OutcomeInv none = ⊥
OutcomeInv (some s) = Inv s

finished : (o : Option Server) → IsSome o → Unfinished o → OutcomeInv o
finished none h v = h
finished (some s) h v = v

move_steps-Inv :
    (pick : Pick) (n : ℕ) (f : Option Toplevel) (s : Server) → Inv s → Inv (move_steps pick n f s)
unfolding move_steps
move_steps-Inv pick n none s v = v
move_steps-Inv pick n (some f) s v = move_rounds-Inv pick _ f.id n s v

move_edge-Unfinished :
    (pick : Pick) (f : Option Toplevel) (s : Server) → Inv s → Unfinished (move_edge pick f s)
unfolding move_edge
move_edge-Unfinished pick none s v = v
move_edge-Unfinished pick (some f) s v = move_to_edge-Unfinished pick _ f.id _ s v

-- A move by any number of steps keeps the invariant.
pub server_tile_move_focused_n-Inv :
    (s : Server) (steps : ℤ) → Inv s → Inv (server_tile_move_focused_n s steps)
unfolding server_tile_move_focused_n
server_tile_move_focused_n-Inv s steps v =
    if_cases Inv (not (is_tiling s.layout) || steps ==ℤ pos 0) s _ (λ e. v)
      (λ e. move_steps-Inv _ _ (movable s) s v)

-- A move by any number of rows keeps the invariant.
pub server_tile_move_focused_grid_vert-Inv :
    (s : Server) (steps : ℤ) → Inv s → Inv (server_tile_move_focused_grid_vert s steps)
unfolding server_tile_move_focused_grid_vert
server_tile_move_focused_grid_vert-Inv s steps v =
    if_cases Inv (not (is_tile s.layout) || steps ==ℤ pos 0) s _ (λ e. v)
      (λ e. move_steps-Inv _ _ (movable s) s v)

-- A move by any number of columns keeps the invariant.
pub server_tile_move_focused_grid_horiz-Inv :
    (s : Server) (steps : ℤ) → Inv s → Inv (server_tile_move_focused_grid_horiz s steps)
unfolding server_tile_move_focused_grid_horiz
server_tile_move_focused_grid_horiz-Inv s steps v =
    if_cases Inv (not (is_tile s.layout) || steps ==ℤ pos 0) s _ (λ e. v)
      (λ e. move_steps-Inv _ _ (movable s) s v)

-- A move to either end of the order has a result, in which the invariant holds.
pub server_tile_move_focused_edge-Inv :
    (s : Server) (first : Bool) → Inv s → OutcomeInv (server_tile_move_focused_edge s first)
unfolding server_tile_move_focused_edge
server_tile_move_focused_edge-Inv s first v =
    if_cases OutcomeInv (not (is_tiling s.layout)) (some s) _ (λ e. v)
      (λ e.
        finished _ (move_edge_linear-IsSome (not first) (movable s) s v.wf)
          (move_edge-Unfinished _ (movable s) s v))

-- A move to either end of a column has a result, in which the invariant holds.
pub server_tile_move_focused_grid_vert_edge-Inv :
    (s : Server) (top : Bool) → Inv s → OutcomeInv (server_tile_move_focused_grid_vert_edge s top)
unfolding server_tile_move_focused_grid_vert_edge
server_tile_move_focused_grid_vert_edge-Inv s top v =
    if_cases OutcomeInv (not (is_tile s.layout)) (some s) _ (λ e. v)
      (λ e.
        finished _ (move_edge_vert-IsSome (not top) (movable s) s v.wf)
          (move_edge-Unfinished _ (movable s) s v))

scroll_on-Inv : (o : Option Output) (steps : ℤ) (s : Server) → Inv s → Inv (scroll_on o steps s)
unfolding scroll_on
scroll_on-Inv none steps s v = v
scroll_on-Inv (some out) steps s v =
    if_cases Inv (length (sorted_on (some out) s) == 0) s _ (λ e. v)
      (λ e.
        Inv-Frame
          (Frame-trans (set_scroll_slot-Frame out.id s.current_workspace _ s)
            (server_arrange_toplevels-Frame _))
          v)

-- Moving the viewport of the scroll layout keeps the invariant.
pub server_scroll_move-Inv : (s : Server) (steps : ℤ) → Inv s → Inv (server_scroll_move s steps)
unfolding server_scroll_move
server_scroll_move-Inv s steps v =
    if_cases Inv (not (is_scroll s.layout) || steps ==ℤ pos 0) s _ (λ e. v)
      (λ e. scroll_on-Inv (scroll_output s) steps s v)
