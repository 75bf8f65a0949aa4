-- ===== src/Base/Related.antt =====
-- Two lists related entry by entry, and what the relation carries over.
use mathlib.Core.List.{List, [], ◌∷◌, ◌++◌, map}
use scratch_compositor.Base.Lists.{All, All-mono, Apart}

-- Two lists of one length, related entry by entry.
abbrev pub Pointwise {ℓ} : {A : Type ℓ} → (A → A → Type 0) → List A → List A → Type 0
Pointwise Q [] [] = Unit
Pointwise Q (x ∷ xs) (y ∷ ys) = Q x y × Pointwise Q xs ys
Pointwise Q _ _ = ⊥

module _ {ℓ} {A : Type ℓ} (Q : A → A → Type 0) where
  pub Pointwise-refl : ((a : A) → Q a a) → (xs : List A) → Pointwise Q xs xs
  Pointwise-refl r [] = tt
  Pointwise-refl r (x ∷ xs) = (r x, Pointwise-refl r xs)

  pub Pointwise-append :
      (xs xs' ys ys' : List A)
      → Pointwise Q xs xs'
      → Pointwise Q ys ys'
      → Pointwise Q (xs ++ ys) (xs' ++ ys')
  Pointwise-append [] [] ys ys' h k = k
  Pointwise-append [] (x ∷ xs') ys ys' h k = elim h [ ]
  Pointwise-append (x ∷ xs) [] ys ys' h k = elim h [ ]
  Pointwise-append (x ∷ xs) (x' ∷ xs') ys ys' h k = (h.0, Pointwise-append xs xs' ys ys' h.1 k)

  pub Pointwise-trans :
      ((a b c : A) → Q a b → Q b c → Q a c)
      → (xs ys zs : List A) → Pointwise Q xs ys
      → Pointwise Q ys zs
      → Pointwise Q xs zs
  Pointwise-trans t [] [] zs h k = k
  Pointwise-trans t [] (y ∷ ys) zs h k = elim h [ ]
  Pointwise-trans t (x ∷ xs) [] zs h k = elim h [ ]
  Pointwise-trans t (x ∷ xs) (y ∷ ys) [] h k = elim k [ ]
  Pointwise-trans t (x ∷ xs) (y ∷ ys) (z ∷ zs) h k =
      (t x y z h.0 k.0, Pointwise-trans t xs ys zs h.1 k.1)

  pub Pointwise-map :
      (f : A → A) → ((a : A) → Q a (f a)) → (xs : List A) → Pointwise Q xs (map f xs)
  Pointwise-map f h [] = tt
  Pointwise-map f h (x ∷ xs) = (h x, Pointwise-map f h xs)

  pub All-Pointwise :
      (P : A → Type 0)
      → ((a a' : A) → Q a a' → P a → P a')
      → (xs xs' : List A) → Pointwise Q xs xs'
      → All P xs
      → All P xs'
  All-Pointwise P r [] [] q h = tt
  All-Pointwise P r [] (x ∷ xs') q h = elim q [ ]
  All-Pointwise P r (x ∷ xs) [] q h = elim q [ ]
  All-Pointwise P r (x ∷ xs) (x' ∷ xs') q h = (r x x' q.0 h.0, All-Pointwise P r xs xs' q.1 h.1)

  -- A relation that cannot tell related entries apart holds of both lists or of neither.
  pub Apart-Pointwise :
      (R : A → A → Type 0)
      → ((a b c d : A) → Q a c → Q b d → R a b → R c d)
      → ((a : A) → Q a a)
      → (xs xs' : List A) → Pointwise Q xs xs'
      → Apart R xs
      → Apart R xs'
  Apart-Pointwise R r s [] [] q h = tt
  Apart-Pointwise R r s [] (x ∷ xs') q h = elim q [ ]
  Apart-Pointwise R r s (x ∷ xs) [] q h = elim q [ ]
  Apart-Pointwise R r s (x ∷ xs) (x' ∷ xs') q h = (
    All-Pointwise (R x') (λ a a' p. r x' a x' a' (s x') p) xs xs' q.1
        (All-mono (λ a. r x a x' a q.0 (s a)) xs h.0),
    Apart-Pointwise R r s xs xs' q.1 h.1,
  )
