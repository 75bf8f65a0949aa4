-- ===== src/Move/Keys.antt =====
-- About one exchange of sort keys and the invariant of the windows.

use mathlib.Core.List.{append_assoc}
use scratch_compositor.Base.{
  ℕ, ◌≤◌, ◌<◌, ◌≡◌, ◌≢◌, refl, sym, ◌∙◌, true, List, [], ◌∷◌, ◌++◌, map, Option, arith, keep, All,
  All-mono, All-zip, All-keep, All-append_right, Apart, Apart-keep, Pointwise-map, All-Pointwise,
  Apart-Pointwise, subst,
}
use scratch_compositor.Base.Sort.{sort-perm, All-perm, Apart-perm}
use scratch_compositor.Config.{workspace_count}
use scratch_compositor.Server.{Toplevel, Output, Server}
use scratch_compositor.Tiling.Order.{KeysDiffer, IdsDiffer}
use scratch_compositor.Tiling.Swap.{exchanged, toplevels-swap}
use scratch_compositor.Tiling.{
  comes_before, is_tiled, tile_swap_sort_keys, tile_sorted_views, tile_sorted_views_on_output,
}
use scratch_compositor.Invariant.Defs.{Windows, Wf}
use scratch_compositor.Move.{sorted_on}

-- Two windows are one object with one key, or two objects with two keys.
abbrev pub OneOrTwo : Toplevel → Toplevel → Type 0
OneOrTwo a b =
    (a.id ≡ b.id → a.tile_user_key ≡ b.tile_user_key)
    × (a.id ≢ b.id → a.tile_user_key ≢ b.tile_user_key)

-- A relation between any two entries and of each to itself holds on the whole square.
All-square :
    {R : Toplevel → Toplevel → Type 0}
    → ((a : Toplevel) → R a a)
    → ((a b : Toplevel) → R a b → R b a)
    → (ts : List Toplevel) → Apart R ts
    → All (λ u. All (R u) ts) ts
All-square r s [] h = tt
All-square {R} r s (t ∷ ts) h = (
  (r t, h.0),
  All-mono (λ u both. (s t u both.0, both.1)) ts
      (All-zip (R t) (λ u. All (R u) ts) ts h.0 (All-square r s ts h.1)),
)

Apart-zip : (ts : List Toplevel) → Apart IdsDiffer ts → Apart KeysDiffer ts → Apart OneOrTwo ts
Apart-zip [] h k = tt
Apart-zip (t ∷ ts) h k = (
  All-mono (λ u both. ((λ e. absurd (both.0 e)), λ _. both.1)) ts
      (All-zip (IdsDiffer t) (KeysDiffer t) ts h.0 k.0),
  Apart-zip ts h.1 k.1,
)

-- Every property of all listed windows holds of a window in an output's order.
pub All-sorted_on :
    (P : Toplevel → Type 0) (out : Option Output) (s : Server)
    → All P s.toplevels
    → All P (sorted_on out s)
unfolding sorted_on tile_sorted_views_on_output tile_sorted_views
All-sorted_on P out s h = All-keep P _ (tile_sorted_views s) (
    All-perm P (sort-perm comes_before (keep (is_tiled s) s.toplevels))
      (All-keep P (is_tiled s) s.toplevels h))

-- Any two listed windows.
pub windows-square : (s : Server) → Wf s → All (λ u. All (OneOrTwo u) s.toplevels) s.toplevels
windows-square s w =
    All-square {R = OneOrTwo} (λ a. ((λ _. refl), λ n. absurd (n refl)))
      (λ a b h. ((λ i. sym (h.0 (sym i))), λ n k. h.1 (λ i. n (sym i)) (sym k))) s.toplevels
      (Apart-zip s.toplevels w.ids w.keys)

-- A window in an output's order, against all listed windows.
pub sorted_on-square :
    (out : Option Output) (s : Server)
    → Wf s
    → All (λ u. All (OneOrTwo u) s.toplevels) (sorted_on out s)
sorted_on-square out s w =
    All-sorted_on (λ u. All (OneOrTwo u) s.toplevels) out s (windows-square s w)

pub sorted_on-OneOrTwo :
    (out : Option Output) (s : Server) (p : List Toplevel) (a : Toplevel) (q : List Toplevel)
    → Wf s
    → sorted_on out s ≡ p ++ a ∷ q
    → All (OneOrTwo a) s.toplevels
sorted_on-OneOrTwo out s p a q w e =
    (All-append_right (λ u. All (OneOrTwo u) s.toplevels) p (a ∷ q)
      (subst (All (λ u. All (OneOrTwo u) s.toplevels)) e (sorted_on-square out s w))).0

exchanged-KeysDiffer :
    (a b x y : Toplevel)
    → OneOrTwo a x
    → OneOrTwo a y
    → OneOrTwo b x
    → OneOrTwo b y
    → OneOrTwo a b
    → IdsDiffer x y
    → KeysDiffer x y
    → KeysDiffer (exchanged a b x) (exchanged a b y)
exchanged-KeysDiffer a b x y ax ay bx by ab i k = ground arith

Apart-exchanged_one :
    (a b x : Toplevel) (ts : List Toplevel)
    → OneOrTwo a b
    → OneOrTwo a x
    → OneOrTwo b x
    → All (OneOrTwo a) ts
    → All (OneOrTwo b) ts
    → All (IdsDiffer x) ts
    → All (KeysDiffer x) ts
    → All (KeysDiffer (exchanged a b x)) (map (exchanged a b) ts)
Apart-exchanged_one a b x [] ab ax bx ha hb i k = tt
Apart-exchanged_one a b x (y ∷ ts) ab ax bx ha hb i k = (
  exchanged-KeysDiffer a b x y ax ha.0 bx hb.0 ab i.0 k.0,
  Apart-exchanged_one a b x ts ab ax bx ha.1 hb.1 i.1 k.1,
)

Apart-exchanged :
    (a b : Toplevel) (ts : List Toplevel)
    → OneOrTwo a b
    → All (OneOrTwo a) ts
    → All (OneOrTwo b) ts
    → Apart IdsDiffer ts
    → Apart KeysDiffer ts
    → Apart KeysDiffer (map (exchanged a b) ts)
Apart-exchanged a b [] ab ha hb i k = tt
Apart-exchanged a b (x ∷ ts) ab ha hb i k = (
  Apart-exchanged_one a b x ts ab ha.0 hb.0 ha.1 hb.1 i.0 k.0,
  Apart-exchanged a b ts ab ha.1 hb.1 i.1 k.1,
)

-- The windows in an output's order are distinct.
pub sorted_on-ids : (out : Option Output) (s : Server) → Wf s → Apart IdsDiffer (sorted_on out s)
unfolding sorted_on tile_sorted_views_on_output tile_sorted_views
sorted_on-ids out s w = Apart-keep IdsDiffer _ (tile_sorted_views s) (
    Apart-perm (λ x y d e. d (sym e)) (sort-perm comes_before (keep (is_tiled s) s.toplevels))
      (Apart-keep IdsDiffer (is_tiled s) s.toplevels w.ids))

exchanged-key :
    (a b : Toplevel) (P : ℕ → Type 0) (x : Toplevel)
    → P a.tile_user_key
    → P b.tile_user_key
    → P x.tile_user_key
    → P (exchanged a b x).tile_user_key
exchanged-key a b P x ha hb h = ground (arith, ha, hb, h)

-- Both windows' keys have the property, and so has every key after the exchange.
All-exchanged :
    (a b : Toplevel) (P : ℕ → Type 0) (ts : List Toplevel)
    → P a.tile_user_key
    → P b.tile_user_key
    → All (λ t. P t.tile_user_key) ts
    → All (λ t. P t.tile_user_key) (map (exchanged a b) ts)
All-exchanged a b P [] ha hb h = tt
All-exchanged a b P (x ∷ ts) ha hb h =
    (exchanged-key a b P x ha hb h.0, All-exchanged a b P ts ha hb h.1)

-- What an exchange leaves as it is of a window.
record Rekeyed (t u : Toplevel) : Type 0 where
  id : t.id ≡ u.id
  workspace : t.workspace ≡ u.workspace
  mapped : t.mapped ≡ u.mapped
  initialized : t.initialized ≡ u.initialized

Rekeyed-refl : (t : Toplevel) → Rekeyed t t
Rekeyed-refl t = record { id = refl; workspace = refl; mapped = refl; initialized = refl }

exchanged-Rekeyed : (a b t : Toplevel) → Rekeyed t (exchanged a b t)
exchanged-Rekeyed a b t = record {
  id = ground arith;
  workspace = ground arith;
  mapped = ground arith;
  initialized = ground arith;
}

-- Exchanging the keys of two windows that each list with distinct keys.
pub swap-Wf :
    (a b : Toplevel) (s : Server)
    → All (OneOrTwo a) s.toplevels
    → All (OneOrTwo b) s.toplevels
    → OneOrTwo a b
    → a.tile_user_key ≤ s.tile_user_key_gen
    → b.tile_user_key ≤ s.tile_user_key_gen
    → Wf s
    → Wf (tile_swap_sort_keys a b s)
unfolding tile_swap_sort_keys
swap-Wf a b s ha hb ab below_a below_b w =
    let all = Pointwise-map Rekeyed (exchanged a b) (exchanged-Rekeyed a b) s.toplevels in
    subst (λ ts. Windows ts s.current_workspace s.tile_user_key_gen) (sym (toplevels-swap a b s))
      (record {
        ids =
            Apart-Pointwise Rekeyed IdsDiffer (λ x y u v k l f g. f (k.id ∙ g ∙ sym l.id))
              Rekeyed-refl s.toplevels _ all w.ids;
        keys = Apart-exchanged a b s.toplevels ab ha hb w.ids w.keys;
        given =
            All-exchanged a b (λ k. k ≤ s.tile_user_key_gen) s.toplevels below_a below_b w.given;
        current = w.current;
        workspaces =
            All-Pointwise Rekeyed (λ t. t.workspace < workspace_count)
              (λ x y k h. subst (λ i. i < workspace_count) k.workspace h) s.toplevels _ all
              w.workspaces;
        surfaces =
            All-Pointwise Rekeyed (λ t. t.mapped ≡ true → t.initialized ≡ true)
              (λ x y k h m. sym k.initialized ∙ h (k.mapped ∙ m)) s.toplevels _ all w.surfaces;
      })

-- Exchanging the keys of two windows of an output keeps the invariant of the windows.
pub tile_swap_sort_keys-Wf :
    (out : Option Output) (s : Server) (p : List Toplevel) (a : Toplevel) (m : List Toplevel)
    (b : Toplevel) (q : List Toplevel)
    → Wf s
    → sorted_on out s ≡ p ++ a ∷ (m ++ b ∷ q)
    → Wf (tile_swap_sort_keys a b s)
tile_swap_sort_keys-Wf out s p a m b q w e =
    let ha = sorted_on-OneOrTwo out s p a (m ++ b ∷ q) w e in
    let hb =
      sorted_on-OneOrTwo out s (p ++ a ∷ m) b q w (e ∙ sym (append_assoc p (a ∷ m) (b ∷ q))) in
    let all_a = subst (All (OneOrTwo a)) e (All-sorted_on (OneOrTwo a) out s ha) in
    let ab =
      (All-append_right (OneOrTwo a) m (b ∷ q)
        (All-append_right (OneOrTwo a) p (a ∷ (m ++ b ∷ q)) all_a).1).0 in
    let below = All-sorted_on (λ t. t.tile_user_key ≤ s.tile_user_key_gen) out s w.given in
    let below_at = subst (All (λ t. t.tile_user_key ≤ s.tile_user_key_gen)) e below in
    let from_a =
      All-append_right (λ t. t.tile_user_key ≤ s.tile_user_key_gen) p (a ∷ (m ++ b ∷ q)) below_at in
    let from_b = All-append_right (λ t. t.tile_user_key ≤ s.tile_user_key_gen) m (b ∷ q) from_a.1 in
    swap-Wf a b s ha hb ab from_a.0 from_b.0 w
