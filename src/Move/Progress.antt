-- ===== src/Move/Progress.antt =====
-- About the loops of `server_tile_move_focused_edge` and `server_tile_move_focused_grid_vert_edge`
-- with every choice of the next place.
use mathlib.Core.List.{append_assoc}
use scratch_compositor.Base.{
  ℕ, zero, suc, ◌+◌, ◌<◌, ◌≤◌, ◌≡◌, ◌≢◌, refl, sym, ap, ◌∙◌, fun_ext, List, [], ◌∷◌, ◌++◌, map,
  Option, none, some, arith, ltb, length, length-append, get_elem?, All-append_right, Apart,
  Apart_at, subst, inl, inr, ◌==◌, ==_iff, Bool-cases, Option-cases, if_cases,
}
use scratch_compositor.Server.{Toplevel, Output, Server}
use scratch_compositor.Tiling.Order.{IdsDiffer}
use scratch_compositor.Tiling.Swap.{exchanged, toplevels-swap}
use scratch_compositor.Tiling.{with_keys_of, tile_swap_sort_keys, tile_sorted_index}
use scratch_compositor.Invariant.Defs.{Wf}
use scratch_compositor.Move.{
  Round, gone, edge, swapped, Pick, sorted_on, exchange_with, exchange_at, round_at, move_round,
  after_round, move_to_edge,
}
use scratch_compositor.Move.Exchange.{sorted_on-tile_swap_sort_keys}
use scratch_compositor.Move.Keys.{sorted_on-ids, tile_swap_sort_keys-Wf}
use scratch_compositor.Move.Forward.{tile_sorted_index_at}

-- The window that stands at a place.
record Standing (ts : List Toplevel) (i f : ℕ) : Type 0 where
  at : Toplevel
  placed : get_elem? ts i ≡ some at
  named : at.id ≡ f

tile_sorted_index-get :
    (ts : List Toplevel) (f i : ℕ) → tile_sorted_index ts f ≡ some i → Standing ts i f
unfolding tile_sorted_index
tile_sorted_index-get [] f i e = cc
tile_sorted_index-get (t ∷ ts) f i e = elim (Bool-cases (t.id == f)) [
  | inl hit ↦
      let found : some 0 ≡ some i = rw hit at e in
      let same : 0 ≡ i = cc found in
      subst (λ k. Standing (t ∷ ts) k f) same
        (record { at = t; placed = refl; named = (==_iff t.id f).0 hit })
  | inr miss ↦ elim (Option-cases (tile_sorted_index ts f)) [
    | inl missing ↦ let found : none ≡ some i = rw (miss, missing) at e in cc found
    | inr (k, seen) ↦
        let found : some (suc k) ≡ some i = rw (miss, seen) at e in
        let same : suc k ≡ i = cc found in
        let r = tile_sorted_index-get ts f k seen in
        subst (λ k. Standing (t ∷ ts) k f) same
          (record { at = r.at; placed = r.placed; named = r.named })
  ]
]

-- Two places of a list, the first before the second.
record Between (ts : List Toplevel) (i j : ℕ) (a b : Toplevel) : Type 0 where
  before : List Toplevel
  middle : List Toplevel
  after : List Toplevel
  split : ts ≡ before ++ a ∷ (middle ++ b ∷ after)
  first : length before ≡ i
  second : length before + suc (length middle) ≡ j

get-After :
    (ts : List Toplevel) (j : ℕ) (b : Toplevel)
    → get_elem? ts j ≡ some b
    → (m : List Toplevel) × (q : List Toplevel) × (ts ≡ m ++ b ∷ q) × (length m ≡ j)
get-After [] j b e = cc
get-After (t ∷ ts) zero b e = ([], ts, cc e, refl)
get-After (t ∷ ts) (suc j) b e =
    let (m, q, s, l) = get-After ts j b e in (t ∷ m, q, ap (λ r. t ∷ r) s, ap suc l)

get-Between :
    (ts : List Toplevel) (i j : ℕ) (a b : Toplevel)
    → i < j
    → get_elem? ts i ≡ some a
    → get_elem? ts j ≡ some b
    → Between ts i j a b
get-Between [] i j a b lt ea eb = cc
get-Between (t ∷ ts) i zero a b lt ea eb = absurd (ground (arith, lt))
get-Between (t ∷ ts) zero (suc j) a b lt ea eb =
    let (m, q, s, l) = get-After ts j b eb in
    record {
      before = [];
      middle = m;
      after = q;
      split = cc (ea, s);
      first = refl;
      second = omega (arith, l);
    }
get-Between (t ∷ ts) (suc i) (suc j) a b lt ea eb =
    let r = get-Between ts i j a b (ground (arith, lt)) ea eb in
    record {
      before = t ∷ r.before;
      middle = r.middle;
      after = r.after;
      split = ap (λ l. t ∷ l) r.split;
      first = ap suc r.first;
      second = omega (arith, r.second);
    }

exchanged_comm : (a b t : Toplevel) → a.id ≢ b.id → exchanged a b t ≡ exchanged b a t
exchanged_comm a b t d = ground arith

-- For two windows the exchange does not depend on which is named first.
tile_swap_sort_keys_comm :
    (a b : Toplevel) (s : Server)
    → a.id ≢ b.id
    → tile_swap_sort_keys a b s ≡ tile_swap_sort_keys b a s
unfolding tile_swap_sort_keys
tile_swap_sort_keys_comm a b s d =
    ap (λ ts. record s { toplevels = ts })
      (toplevels-swap a b s
        ∙ ap (λ f. map f s.toplevels) (fun_ext (λ t. exchanged_comm a b t d))
        ∙ sym (toplevels-swap b a s))

get_elem?_below {ℓ} :
    {A : Type ℓ} (xs : List A) (i : ℕ) (a : A) → get_elem? xs i ≡ some a → i < length xs
get_elem?_below [] i a e = cc
get_elem?_below (x ∷ xs) zero a e = omega arith
get_elem?_below (x ∷ xs) (suc i) a e = omega (arith, get_elem?_below xs i a e)

get_elem?_lt {ℓ} :
    {A : Type ℓ} (xs : List A) (i : ℕ) → i < length xs → (a : A) × (get_elem? xs i ≡ some a)
get_elem?_lt [] i h = absurd (ground (arith, h))
get_elem?_lt (x ∷ xs) zero h = (x, refl)
get_elem?_lt (x ∷ xs) (suc i) h = get_elem?_lt xs i (ground (arith, h))

-- A window's place among the n windows of an output.
record At (out : Option Output) (n i f : ℕ) (s : Server) : Type 0 where
  wf : Wf s
  count : length (sorted_on out s) ≡ n
  found : tile_sorted_index (sorted_on out s) f ≡ some i

length-two {ℓ} :
    {A : Type ℓ} (p : List A) (x : A) (m : List A) (y : A) (q : List A)
    → length (p ++ x ∷ (m ++ y ∷ q)) ≡ length p + suc (length m + suc (length q))
length-two p x m y q =
    length-append p (x ∷ (m ++ y ∷ q)) ∙ ap (λ k. length p + suc k) (length-append m (y ∷ q))

-- After the exchange each of the two windows stands where the other one stood.
swap-At :
    (out : Option Output) (s : Server) (n i j : ℕ) (a b : Toplevel)
    → Wf s
    → length (sorted_on out s) ≡ n
    → Between (sorted_on out s) i j a b
    → At out n j a.id (tile_swap_sort_keys a b s) × At out n i b.id (tile_swap_sort_keys a b s)
swap-At out s n i j a b w c r =
    let p = r.before in
    let m = r.middle in
    let q = r.after in
    let b' = with_keys_of a b in
    let a' = with_keys_of b a in
    let s' = tile_swap_sort_keys a b s in
    let order = sorted_on-tile_swap_sort_keys out s p a m b q w.keys w.ids r.split in
    let later = order ∙ sym (append_assoc p (b' ∷ m) (a' ∷ q)) in
    let wf = tile_swap_sort_keys-Wf out s p a m b q w r.split in
    let apart = sorted_on-ids out s' wf in
    let left = Apart_at IdsDiffer p b' (m ++ a' ∷ q) (subst (Apart IdsDiffer) order apart) in
    let right = Apart_at IdsDiffer (p ++ b' ∷ m) a' q (subst (Apart IdsDiffer) later apart) in
    let count : length (sorted_on out s') ≡ n =
      ap length order
      ∙ length-two p b' m a' q
      ∙ sym (length-two p a m b q)
      ∙ sym (ap length r.split)
      ∙ c in
    (
      record {
        wf = wf;
        count = count;
        found =
            ap (λ l. tile_sorted_index l a.id) later
            ∙ tile_sorted_index_at (p ++ b' ∷ m) a' q right.0
            ∙ ap some (length-append p (b' ∷ m) ∙ r.second);
      },
      record {
        wf = wf;
        count = count;
        found =
            ap (λ l. tile_sorted_index l b.id) order
            ∙ tile_sorted_index_at p b' (m ++ a' ∷ q) left.0
            ∙ ap some r.first;
      },
    )

Between-IdsDiffer :
    (out : Option Output) (s : Server) (i j : ℕ) (a b : Toplevel)
    → Wf s
    → Between (sorted_on out s) i j a b
    → a.id ≢ b.id
Between-IdsDiffer out s i j a b w r =
    let apart = subst (Apart IdsDiffer) r.split (sorted_on-ids out s w) in
    let rest = Apart_at IdsDiffer r.before a (r.middle ++ b ∷ r.after) apart in
    (All-append_right (IdsDiffer a) r.middle (b ∷ r.after) rest.1).0

-- A choice of places that comes nearer to an end with every round.
abbrev pub Nears : Pick → (ℕ → ℕ → ℕ) → Type 0
Nears pick left = (n i j : ℕ) → 2 ≤ n → i < n → pick n i ≡ some j → (j < n) × (left n j < left n i)

-- What a round does to a window at place i of n.
data Outcome (left : ℕ → ℕ → ℕ) (out : Option Output) (f n i : ℕ) : Round → Type 0 where
  ends_gone : Outcome left out f n i gone
  ends_edge : Outcome left out f n i edge
  moves :
      (j : ℕ) (s : Server)
      → left n j < left n i
      → At out n j f s
      → Outcome left out f n i (swapped s)

exchange-Outcome :
    (left : ℕ → ℕ → ℕ) (out : Option Output) (s : Server) (n i j : ℕ) (a b : Toplevel)
    → At out n i a.id s
    → get_elem? (sorted_on out s) i ≡ some a
    → get_elem? (sorted_on out s) j ≡ some b
    → left n j < left n i
    → i ≢ j
    → Outcome left out a.id n i (swapped (tile_swap_sort_keys a b s))
exchange-Outcome left out s n i j a b h ea eb e d = elim (Bool-cases (ltb i j)) [
  | inl up ↦
      let r = get-Between (sorted_on out s) i j a b (ground arith) ea eb in
      moves j _ e (swap-At out s n i j a b h.wf h.count r).0
  | inr down ↦
      let r = get-Between (sorted_on out s) j i b a (ground arith) eb ea in
      let differ = Between-IdsDiffer out s j i b a h.wf r in
      moves j _ e (
        subst (At out n j a.id) (tile_swap_sort_keys_comm b a s differ)
          (swap-At out s n j i b a h.wf h.count r).1)
]

exchange_at-Outcome :
    (pick : Pick) (left : ℕ → ℕ → ℕ) (out : Option Output) (s : Server) (n i f : ℕ) (to : Option ℕ)
    → Nears pick left
    → 2 ≤ n
    → At out n i f s
    → pick n i ≡ to
    → Outcome left out f n i (exchange_at (sorted_on out s) i to s)
unfolding exchange_at exchange_with
exchange_at-Outcome pick left out s n i f none near many h e = ends_edge
exchange_at-Outcome pick left out s n i f (some j) near many h e =
    let here = tile_sorted_index-get (sorted_on out s) f i h.found in
    let inside =
      subst (λ k. i < k) h.count (get_elem?_below (sorted_on out s) i here.at here.placed) in
    let (below, closer) = near n i j many inside e in
    let (b, there) = get_elem?_lt (sorted_on out s) j (subst (λ k. j < k) (sym h.count) below) in
    let differ : i ≢ j = λ same. absurd (ground (arith, ap (left n) same, closer)) in
    let moved =
      exchange-Outcome left out s n i j here.at b (subst (λ g. At out n i g s) (sym here.named) h)
        here.placed there closer differ in
    rw (here.placed, there)
      (subst (λ g. Outcome left out g n i (swapped (tile_swap_sort_keys here.at b s))) here.named
        moved)

round_at-Outcome :
    (pick : Pick) (left : ℕ → ℕ → ℕ) (out : Option Output) (s : Server) (n i f : ℕ)
    → Nears pick left
    → 2 ≤ n
    → At out n i f s
    → Outcome left out f n i (round_at pick (sorted_on out s) (some i) s)
unfolding round_at
round_at-Outcome pick left out s n i f near many h =
    exchange_at-Outcome pick left out s n i f (pick (length (sorted_on out s)) i) near many h
      (ap (λ k. pick k i) (sym h.count))

move_round-Outcome :
    (pick : Pick) (left : ℕ → ℕ → ℕ) (out : Option Output) (s : Server) (n i f : ℕ)
    → Nears pick left
    → At out n i f s
    → Outcome left out f n i (move_round pick out f s)
unfolding move_round
move_round-Outcome pick left out s n i f near h =
    if_cases (Outcome left out f n i) (ltb (length (sorted_on out s)) 2) gone _ (λ e. ends_gone)
      (λ e.
        subst (λ k. Outcome left out f n i (round_at pick (sorted_on out s) k s)) (sym h.found)
          (round_at-Outcome pick left out s n i f near (ground (arith, h.count)) h))

-- A result is there.
abbrev pub IsSome {ℓ} : {A : Type ℓ} → Option A → Type 0
IsSome none = ⊥
IsSome (some a) = Unit

after_round-IsSome :
    (left : ℕ → ℕ → ℕ) (out : Option Output) (f n i : ℕ) (r : Round) (x y : Server)
    (next : Server → Option Server)
    → Outcome left out f n i r
    → ((j : ℕ) (s : Server) → left n j < left n i → At out n j f s → IsSome (next s))
    → IsSome (after_round r (some x) (some y) next)
after_round-IsSome left out f n i gone x y next h k = tt
after_round-IsSome left out f n i edge x y next h k = tt
after_round-IsSome left out f n i (swapped s) x y next (moves j _ closer at) k = k j s closer at

-- More fuel than places left to the end is enough.
move_to_edge-At :
    (pick : Pick) (left : ℕ → ℕ → ℕ) (out : Option Output) (f fuel n i : ℕ) (s : Server)
    → Nears pick left
    → At out n i f s
    → left n i < fuel
    → IsSome (move_to_edge pick out f fuel s)
unfolding move_to_edge
move_to_edge-At pick left out f zero n i s near h enough = absurd (ground (arith, enough))
move_to_edge-At pick left out f (suc fuel) n i s near h enough =
    after_round-IsSome left out f n i (move_round pick out f s) _ _ _
      (move_round-Outcome pick left out s n i f near h)
      (λ j s' closer at.
        move_to_edge-At pick left out f fuel n j s' near at (ground (arith, closer, enough)))

move_round-missing :
    (pick : Pick) (out : Option Output) (f : ℕ) (s : Server)
    → tile_sorted_index (sorted_on out s) f ≡ none
    → move_round pick out f s ≡ gone
unfolding move_round round_at
move_round-missing pick out f s e = ground (arith, e)

-- Fuel for the number of windows in an output's order and one more round is enough.
pub move_to_edge-IsSome :
    (pick : Pick) (left : ℕ → ℕ → ℕ) (out : Option Output) (f fuel : ℕ) (s : Server)
    → Nears pick left
    → ((n i : ℕ) → left n i ≤ n)
    → Wf s
    → length (sorted_on out s) ≤ fuel
    → IsSome (move_to_edge pick out f (suc fuel) s)
unfolding move_to_edge
move_to_edge-IsSome pick left out f fuel s near bound w enough =
    elim (Option-cases (tile_sorted_index (sorted_on out s) f)) [
      | inl missing ↦ rw (move_round-missing pick out f s missing) tt
      | inr (i, found) ↦
          move_to_edge-At pick left out f (suc fuel) (length (sorted_on out s)) i s near
            (record { wf = w; count = refl; found = found })
            (ground (arith, bound (length (sorted_on out s)) i, enough))
    ]
