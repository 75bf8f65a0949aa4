-- ===== src/Base/Lists.antt =====
-- Lists measured and indexed by native numbers, under the library's names, and folds of tests.
use Prim.Native.Nat.{ℕ, zero, suc, ◌+◌, ◌≤◌}
use mathlib.Core.Path.{◌≡◌, refl, ap, subst}
use mathlib.Core.Logic.{inl, inr}
use mathlib.Core.Bool.{Bool, true, false, ◌||◌}
use mathlib.Core.List.{List, [], ◌∷◌, ◌++◌, map}
use mathlib.Core.Option.{Option, none, some}
use native.Mathlib.Omega.{arith}
use scratch_compositor.Base.Tests.{if◌then◌else◌, Bool-cases}

module _ {ℓ} {A : Type ℓ} where
  abbrev pub length : List A → ℕ
  length [] = 0
  length (x ∷ xs) = suc (length xs)

  abbrev pub get_elem? : List A → ℕ → Option A
  get_elem? [] i = none
  get_elem? (x ∷ xs) zero = some x
  get_elem? (x ∷ xs) (suc i) = get_elem? xs i

  -- A write out of bounds changes nothing.
  abbrev pub set : List A → ℕ → A → List A
  set [] i v = []
  set (x ∷ xs) zero v = v ∷ xs
  set (x ∷ xs) (suc i) v = x ∷ set xs i v

  abbrev pub get_or : List A → ℕ → A → A
  get_or [] i d = d
  get_or (x ∷ xs) zero d = x
  get_or (x ∷ xs) (suc i) d = get_or xs i d

  abbrev pub take : ℕ → List A → List A
  take zero xs = []
  take (suc n) [] = []
  take (suc n) (x ∷ xs) = x ∷ take n xs

  abbrev pub drop : ℕ → List A → List A
  drop zero xs = xs
  drop (suc n) [] = []
  drop (suc n) (x ∷ xs) = drop n xs

  -- The elements that pass a Boolean test, in order.
  abbrev pub keep : (A → Bool) → List A → List A
  keep p [] = []
  keep p (x ∷ xs) = if p x then x ∷ keep p xs else keep p xs

  -- The first element that passes a Boolean test.
  abbrev pub find : (A → Bool) → List A → Option A
  find p [] = none
  find p (x ∷ xs) = if p x then some x else find p xs

  abbrev pub any : (A → Bool) → List A → Bool
  any p [] = false
  any p (x ∷ xs) = p x || any p xs

  -- A predicate at every element, as a tuple.
  abbrev pub All {κ} : (A → Type κ) → List A → Type κ
  All P [] = Unit
  All P (x ∷ xs) = P x × All P xs

  pub length-append : (xs ys : List A) → length (xs ++ ys) ≡ length xs + length ys
  length-append [] ys = omega arith
  length-append (x ∷ xs) ys = omega (arith, length-append xs ys)

  pub length-set : (xs : List A) (i : ℕ) (v : A) → length (set xs i v) ≡ length xs
  length-set [] i v = refl
  length-set (x ∷ xs) zero v = refl
  length-set (x ∷ xs) (suc i) v = ap suc (length-set xs i v)

module _ {ℓ κ} {A : Type ℓ} (P : A → Type κ) where
  pub All-append : (xs ys : List A) → All P xs → All P ys → All P (xs ++ ys)
  All-append [] ys hx hy = hy
  All-append (x ∷ xs) ys hx hy = (hx.0, All-append xs ys hx.1 hy)

  -- What `find` returns passes the test and satisfies what all elements do.
  pub All-find :
      (p : A → Bool) (xs : List A) (a : A) → All P xs → find p xs ≡ some a → P a × (p a ≡ true)
  All-find p [] a h e = cc
  All-find p (x ∷ xs) a h e = ground (arith, All-find p xs a h.1)

  pub All-keep : (p : A → Bool) (xs : List A) → All P xs → All P (keep p xs)
  All-keep p [] h = tt
  All-keep p (x ∷ xs) h = ground (arith, All-keep p xs h.1)

  pub All-append_left : (xs ys : List A) → All P (xs ++ ys) → All P xs
  All-append_left [] ys h = tt
  All-append_left (x ∷ xs) ys h = (h.0, All-append_left xs ys h.1)

  pub All-append_right : (xs ys : List A) → All P (xs ++ ys) → All P ys
  All-append_right [] ys h = h
  All-append_right (x ∷ xs) ys h = All-append_right xs ys h.1

module _ {ℓ κ κ'} {A : Type ℓ} {P : A → Type κ} {Q : A → Type κ'} where
  pub All-mono : ((a : A) → P a → Q a) → (xs : List A) → All P xs → All Q xs
  All-mono f [] h = tt
  All-mono f (x ∷ xs) h = (f x h.0, All-mono f xs h.1)

module _ {ℓ} {A : Type ℓ} where
  pub keep-append : (p : A → Bool) (xs ys : List A) → keep p (xs ++ ys) ≡ keep p xs ++ keep p ys
  keep-append p [] ys = refl
  keep-append p (x ∷ xs) ys = ground (arith, keep-append p xs ys)

  pub keep_at :
      (p : A → Bool) (us : List A) (a : A) (vs : List A)
      → p a ≡ true
      → keep p (us ++ a ∷ vs) ≡ keep p us ++ a ∷ keep p vs
  keep_at p [] a vs h = rw h
  keep_at p (u ∷ us) a vs h = ground (arith, keep_at p us a vs h)

  pub length-keep-le : (p : A → Bool) (xs : List A) → length (keep p xs) ≤ length xs
  length-keep-le p [] = omega arith
  length-keep-le p (x ∷ xs) = ground (arith, length-keep-le p xs)

  -- Any two entries at different places are related.
  abbrev pub Apart {κ} : (A → A → Type κ) → List A → Type κ
  Apart R [] = Unit
  Apart R (x ∷ xs) = All (R x) xs × Apart R xs

  pub Apart-keep {κ} :
      (R : A → A → Type κ) (p : A → Bool) (xs : List A) → Apart R xs → Apart R (keep p xs)
  Apart-keep R p [] h = tt
  Apart-keep R p (x ∷ xs) h = ground (arith, All-keep (R x) p xs h.0, Apart-keep R p xs h.1)

  pub Apart-append_right {κ} :
      (R : A → A → Type κ) (xs ys : List A) → Apart R (xs ++ ys) → Apart R ys
  Apart-append_right R [] ys h = h
  Apart-append_right R (x ∷ xs) ys h = Apart-append_right R xs ys h.1

  -- An entry is related to those before it and to those behind it.
  pub Apart_at {κ} :
      (R : A → A → Type κ) (xs : List A) (a : A) (ys : List A)
      → Apart R (xs ++ a ∷ ys)
      → All (λ x. R x a) xs × All (R a) ys
  Apart_at R [] a ys h = (tt, h.0)
  Apart_at R (x ∷ xs) a ys h =
      let rest = Apart_at R xs a ys h.1 in
      (((All-append_right (R x) xs (a ∷ ys) h.0).0, rest.0), rest.1)

  keep-split_hit :
      (p : A → Bool) (x : A) (xs ys : List A) (a : A) (zs : List A)
      → p x ≡ true
      → ((ys : List A) (a : A) (zs : List A)
          → keep p xs ≡ ys ++ a ∷ zs
          → (us : List A) × (vs : List A) × (xs ≡ us ++ a ∷ vs)
            × (keep p us ≡ ys)
            × (keep p vs ≡ zs)
            × (p a ≡ true))
      → x ∷ keep p xs ≡ ys ++ a ∷ zs
      → (us : List A) × (vs : List A) × (x ∷ xs ≡ us ++ a ∷ vs)
        × (keep p us ≡ ys)
        × (keep p vs ≡ zs)
        × (p a ≡ true)
  keep-split_hit p x xs [] a zs hit later e =
      let same : x ≡ a = cc e in
      let rest : keep p xs ≡ zs = cc e in
      ([], xs, cc same, refl, rest, subst (λ y. p y ≡ true) same hit)
  keep-split_hit p x xs (y ∷ ys) a zs hit later e =
      let same : x ≡ y = cc e in
      let rest : keep p xs ≡ ys ++ a ∷ zs = cc e in
      let (us, vs, split, left, right, found) = later ys a zs rest in
      (x ∷ us, vs, cc split, rw hit (cc (same, left)), right, found)

  pub keep-map {κ} :
      {B : Type κ} (p : A → Bool) (q : B → Bool) (f : A → B)
      → ((a : A) → q (f a) ≡ p a)
      → (xs : List A) → keep q (map f xs) ≡ map f (keep p xs)
  keep-map p q f e [] = refl
  keep-map p q f e (x ∷ xs) = ground (arith, e x, keep-map p q f e xs)

  pub map-map {κ μ} :
      {B : Type κ} {C : Type μ} (g : B → C) (f : A → B) (xs : List A)
      → map g (map f xs) ≡ map (λ x. g (f x)) xs
  map-map g f [] = refl
  map-map g f (x ∷ xs) = rw (map-map g f xs)

  -- Where an entry stands in the list of what passes a test, it stands in the whole list too.
  pub keep-split :
      (p : A → Bool) (xs ys : List A) (a : A) (zs : List A)
      → keep p xs ≡ ys ++ a ∷ zs
      → (us : List A) × (vs : List A) × (xs ≡ us ++ a ∷ vs)
        × (keep p us ≡ ys)
        × (keep p vs ≡ zs)
        × (p a ≡ true)
  keep-split p [] [] a zs e = cc
  keep-split p [] (y ∷ ys) a zs e = cc
  keep-split p (x ∷ xs) ys a zs e = elim (Bool-cases (p x)) [
    | inr miss ↦
        let (us, vs, split, left, right, hit) = keep-split p xs ys a zs (rw miss at e) in
        (x ∷ us, vs, cc split, rw miss left, right, hit)
    | inl hit ↦ keep-split_hit p x xs ys a zs hit (keep-split p xs) (rw hit at e)
  ]

  pub All-zip {κ} : (P Q : A → Type κ) (xs : List A) → All P xs → All Q xs → All (λ x. P x × Q x) xs
  All-zip P Q [] h k = tt
  All-zip P Q (x ∷ xs) h k = ((h.0, k.0), All-zip P Q xs h.1 k.1)
