-- ===== src/Tiling/Swap.antt =====
-- About the effect of `tile_swap_sort_keys` on the sorted list.
use mathlib.Core.List.Permᴰ
use mathlib.Core.List.{Permᴰ, append_assoc, map-append}
use scratch_compositor.Base.{
  ◌≡◌, ◌≢◌, refl, sym, ap, ◌∙◌, true, List, [], ◌∷◌, ◌++◌, map, arith, ◌==◌, keep, All, Apart,
  Pointwise, Pointwise-refl, Pointwise-append, Apart-Pointwise, Apart-keep, Apart_at, keep-map,
  map-map, All-mono, All-append_left, All-append_right, if◌then◌else◌, subst,
}
use scratch_compositor.Base.Sort.{
  sort, sort-perm, sort-eq_of_perm, sort-Ascends, sort_id, Apart-perm, Ascends,
}
use scratch_compositor.Server.{Toplevel, Server, update_toplevel}
use scratch_compositor.Tiling.Order.{KeysDiffer, IdsDiffer, comes_before-Separates}
use scratch_compositor.Tiling.{
  comes_before, with_keys_of, tile_swap_sort_keys, is_tiled, tile_sorted_views,
}

-- What the exchange does to one window.
abbrev pub exchanged : Toplevel → Toplevel → Toplevel → Toplevel
exchanged a b t =
    let u = (if t.id == a.id then with_keys_of b t else t) in
    if u.id == b.id then with_keys_of a u else u

pub toplevels-swap :
    (a b : Toplevel) (s : Server)
    → (tile_swap_sort_keys a b s).toplevels ≡ map (exchanged a b) s.toplevels
unfolding tile_swap_sort_keys update_toplevel
toplevels-swap a b s = map-map _ _ s.toplevels

is_tiled-exchanged :
    (a b t : Toplevel) (s : Server)
    → is_tiled (tile_swap_sort_keys a b s) (exchanged a b t) ≡ is_tiled s t
unfolding is_tiled tile_swap_sort_keys
is_tiled-exchanged a b t s = ground arith

-- A window that is neither of the two stays as it is.
exchanged_other : (a b t : Toplevel) → a.id ≢ t.id → b.id ≢ t.id → exchanged a b t ≡ t
exchanged_other a b t p q = ground arith

map-exchanged_other :
    (a b : Toplevel) (ts : List Toplevel)
    → All (IdsDiffer a) ts
    → All (IdsDiffer b) ts
    → map (exchanged a b) ts ≡ ts
map-exchanged_other a b [] h k = refl
map-exchanged_other a b (t ∷ ts) h k =
    cc (exchanged_other a b t h.0 k.0, map-exchanged_other a b ts h.1 k.1)

exchanged_first : (a b : Toplevel) → a.id ≢ b.id → exchanged a b a ≡ with_keys_of b a
exchanged_first a b h = ground arith

exchanged_second : (a b : Toplevel) → a.id ≢ b.id → exchanged a b b ≡ with_keys_of a b
exchanged_second a b h = ground arith

-- The two arrangements of one list: `a` before `b`, and `b` before `a`.
exchange-perm {ℓ} :
    {A : Type ℓ} (p : List A) (a : A) (m : List A) (b : A) (q : List A)
    → Permᴰ (p ++ a ∷ (m ++ b ∷ q)) (p ++ b ∷ (m ++ a ∷ q))
exchange-perm p a m b q = Permᴰ.append_left p (
    Permᴰ.trans (Permᴰ.cons refl (Permᴰ.middle b m q))
      (Permᴰ.trans (Permᴰ.swap refl refl) (Permᴰ.cons refl (Permᴰ.symm (Permᴰ.middle a m q)))))

abbrev SameKeys : Toplevel → Toplevel → Type 0
SameKeys a b = (a.tile_order ≡ b.tile_order) × (a.tile_user_key ≡ b.tile_user_key)

SameKeys-refl : (a : Toplevel) → SameKeys a a
SameKeys-refl a = (refl, refl)

-- The places keep their keys.
SameKeys-exchange :
    (p : List Toplevel) (a : Toplevel) (m : List Toplevel) (b : Toplevel) (q : List Toplevel)
    → Pointwise SameKeys
        (p ++ a ∷ (m ++ b ∷ q))
        (p ++ with_keys_of a b ∷ (m ++ with_keys_of b a ∷ q))
SameKeys-exchange p a m b q =
    Pointwise-append SameKeys p p _ _ (Pointwise-refl SameKeys SameKeys-refl p) (
      SameKeys-refl a,
      Pointwise-append SameKeys m m _ _ (Pointwise-refl SameKeys SameKeys-refl m)
          (SameKeys-refl b, Pointwise-refl SameKeys SameKeys-refl q),
    )

comes_before-SameKeys :
    (a b c d : Toplevel)
    → SameKeys a c
    → SameKeys b d
    → comes_before a b ≡ true
    → comes_before c d ≡ true
unfolding comes_before
comes_before-SameKeys a b c d h k e = ground arith

-- On a list that holds both, the exchange moves the keys and leaves the places.
map-exchanged :
    (p : List Toplevel) (a : Toplevel) (m : List Toplevel) (b : Toplevel) (q : List Toplevel)
    → Apart IdsDiffer (p ++ a ∷ (m ++ b ∷ q))
    → map (exchanged a b) (p ++ a ∷ (m ++ b ∷ q))
      ≡ p ++ with_keys_of b a ∷ (m ++ with_keys_of a b ∷ q)
map-exchanged p a m b q h =
    let (before_a, behind_a) = Apart_at IdsDiffer p a (m ++ b ∷ q) h in
    let (before_b, behind_b) =
      Apart_at IdsDiffer (p ++ a ∷ m) b q
        (subst (Apart IdsDiffer) (sym (append_assoc p (a ∷ m) (b ∷ q))) h) in
    let flip = λ (x y : Toplevel) (d : IdsDiffer x y) (e : y.id ≡ x.id). d (sym e) in
    let am = All-append_left (IdsDiffer a) m (b ∷ q) behind_a in
    let abq = All-append_right (IdsDiffer a) m (b ∷ q) behind_a in
    let bp = All-append_left (λ x. IdsDiffer x b) p (a ∷ m) before_b in
    let bam = All-append_right (λ x. IdsDiffer x b) p (a ∷ m) before_b in
    cc (
      map-append (exchanged a b) p (a ∷ (m ++ b ∷ q)),
      map-append (exchanged a b) m (b ∷ q),
      map-exchanged_other a b p (All-mono (λ x. flip x a) p before_a)
          (All-mono (λ x. flip x b) p bp),
      map-exchanged_other a b m am (All-mono (λ x. flip x b) m bam.1),
      map-exchanged_other a b q abq.1 behind_b,
      exchanged_first a b abq.0,
      exchanged_second a b abq.0,
    )

KeysDiffer-SameKeys :
    (a b c d : Toplevel) → SameKeys a c → SameKeys b d → KeysDiffer a b → KeysDiffer c d
KeysDiffer-SameKeys a b c d h k e f = e (h.1 ∙ f ∙ sym k.1)

-- What the sort gives after the exchange is the sort of the exchanged windows.
tile_sorted_views-exchanged :
    (a b : Toplevel) (s : Server)
    → tile_sorted_views (tile_swap_sort_keys a b s)
      ≡ sort comes_before (map (exchanged a b) (keep (is_tiled s) s.toplevels))
unfolding tile_sorted_views
tile_sorted_views-exchanged a b s =
    ap (λ l. sort comes_before (keep (is_tiled (tile_swap_sort_keys a b s)) l))
      (toplevels-swap a b s)
    ∙ ap (sort comes_before) (
        keep-map (is_tiled s) (is_tiled (tile_swap_sort_keys a b s)) (exchanged a b)
          (λ t. is_tiled-exchanged a b t s) s.toplevels)

module _ (s : Server) (p : List Toplevel) (a : Toplevel) (m : List Toplevel) (b : Toplevel)
    (q : List Toplevel) (keys : Apart KeysDiffer s.toplevels) (ids : Apart IdsDiffer s.toplevels)
    (placed : tile_sorted_views s ≡ p ++ a ∷ (m ++ b ∷ q)) where
  abbrev changed : List Toplevel
  changed = p ++ with_keys_of a b ∷ (m ++ with_keys_of b a ∷ q)

  views-perm : Permᴰ (keep (is_tiled s) s.toplevels) (p ++ a ∷ (m ++ b ∷ q))
  unfolding tile_sorted_views
  views-perm =
      subst (Permᴰ (keep (is_tiled s) s.toplevels)) placed
        (sort-perm comes_before (keep (is_tiled s) s.toplevels))

  views_ids : Apart IdsDiffer (p ++ a ∷ (m ++ b ∷ q))
  views_ids =
      Apart-perm (λ x y d e. d (sym e)) views-perm
        (Apart-keep IdsDiffer (is_tiled s) s.toplevels ids)

  views_keys : Apart KeysDiffer (p ++ a ∷ (m ++ b ∷ q))
  views_keys =
      Apart-perm (λ x y d e. d (sym e)) views-perm
        (Apart-keep KeysDiffer (is_tiled s) s.toplevels keys)

  views-Ascends : Ascends comes_before (p ++ a ∷ (m ++ b ∷ q))
  unfolding tile_sorted_views
  views-Ascends = subst (Ascends comes_before) placed (
      sort-Ascends comes_before-Separates (keep (is_tiled s) s.toplevels)
        (Apart-keep KeysDiffer (is_tiled s) s.toplevels keys))

  changed-perm : Permᴰ changed (map (exchanged a b) (keep (is_tiled s) s.toplevels))
  changed-perm = Permᴰ.trans (exchange-perm p (with_keys_of a b) m (with_keys_of b a) q) (
      Permᴰ.symm (
        subst (Permᴰ (map (exchanged a b) (keep (is_tiled s) s.toplevels)))
          (map-exchanged p a m b q views_ids) (Permᴰ.map (exchanged a b) views-perm)))

  -- Where two windows stand in the sorted list, exchanging their keys exchanges them, and all
  -- others keep their places.
  pub tile_sorted_views-tile_swap_sort_keys :
      tile_sorted_views (tile_swap_sort_keys a b s) ≡ changed
  tile_sorted_views-tile_swap_sort_keys =
      let same = SameKeys-exchange p a m b q in
      tile_sorted_views-exchanged a b s
      ∙ sym (
          sort-eq_of_perm comes_before-Separates changed-perm (
            Apart-Pointwise SameKeys KeysDiffer KeysDiffer-SameKeys SameKeys-refl _ _ same
              views_keys))
      ∙ sort_id comes_before-Separates changed (
          Apart-Pointwise SameKeys (λ x y. comes_before x y ≡ true) comes_before-SameKeys
            SameKeys-refl _ _ same views-Ascends)
