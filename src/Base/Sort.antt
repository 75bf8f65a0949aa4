-- ===== src/Base/Sort.antt =====
-- `qsort` by a strict test, as insertion sort. Where the test separates any two entries there is
-- one sorted arrangement, so the result does not depend on how the C library sorts.
use mathlib.Core.List.Permᴰ
use mathlib.Core.List.{Permᴰ}
use scratch_compositor.Base.{
  Bool, true, false, ◌≡◌, refl, ◌∙◌, subst, List, [], ◌∷◌, arith, All, All-mono, Apart, inl, inr,
  if◌then◌else◌, Bool-cases,
}

module _ {ℓ} {A : Type ℓ} (before : A → A → Bool) where
  unfoldable pub insert : A → List A → List A
  insert x [] = x ∷ []
  insert x (y ∷ ys) = if before y x then y ∷ insert x ys else x ∷ y ∷ ys

  unfoldable pub sort : List A → List A
  unfolding insert
  sort [] = []
  sort (x ∷ xs) = insert x (sort xs)

  -- Each entry comes before all that follow it.
  abbrev pub Ascends : List A → Type 0
  Ascends = Apart (λ a b. before a b ≡ true)

-- A strict order that separates the entries related by `Differ`.
pub record Separates {ℓ κ} {A : Type ℓ} (before : A → A → Bool) (Differ : A → A → Type κ)
    : Type (ℓ ⊔ κ) where
  pub trans : (a b c : A) → before a b ≡ true → before b c ≡ true → before a c ≡ true
  pub asym : (a b : A) → before a b ≡ true → before b a ≡ false
  pub total : (a b : A) → Differ a b → before b a ≡ false → before a b ≡ true
  pub swap : (a b : A) → Differ a b → Differ b a

module _ {ℓ κ} {A : Type ℓ} (P : A → Type κ) where
  pub All-perm : {xs ys : List A} → Permᴰ xs ys → All P xs → All P ys
  All-perm Permᴰ.nil h = tt
  All-perm (Permᴰ.cons e p) h = (subst P e h.0, All-perm p h.1)
  All-perm (Permᴰ.swap e f) h = (subst P f h.1.0, (subst P e h.0, h.1.1))
  All-perm (Permᴰ.trans p q) h = All-perm q (All-perm p h)

module _ {ℓ} {A : Type ℓ} (before : A → A → Bool) where
  pub insert-perm : (x : A) (ys : List A) → Permᴰ (x ∷ ys) (insert before x ys)
  unfolding insert
  insert-perm x [] = Permᴰ.refl (x ∷ [])
  insert-perm x (y ∷ ys) =
      elim (before y x)
        as (λ b. Permᴰ (x ∷ y ∷ ys) (if b then y ∷ insert before x ys else x ∷ y ∷ ys)) [
          | true ↦ Permᴰ.trans (Permᴰ.swap refl refl) (Permᴰ.cons refl (insert-perm x ys))
          | false ↦ Permᴰ.refl (x ∷ y ∷ ys)
        ]

  pub sort-perm : (xs : List A) → Permᴰ xs (sort before xs)
  unfolding sort
  sort-perm [] = Permᴰ.nil
  sort-perm (x ∷ xs) = Permᴰ.trans (Permᴰ.cons refl (sort-perm xs)) (insert-perm x (sort before xs))

-- A symmetric relation between all entries does not depend on their order.
module _ {ℓ κ} {A : Type ℓ} {Differ : A → A → Type κ}
    (swap : (a b : A) → Differ a b → Differ b a) where
  abbrev Pairs : A → A → List A → Type κ
  Pairs a b l = (Differ a b × All (Differ a) l) × (All (Differ b) l × Apart Differ l)

  pub Apart-perm : {xs ys : List A} → Permᴰ xs ys → Apart Differ xs → Apart Differ ys
  Apart-perm Permᴰ.nil h = tt
  Apart-perm (Permᴰ.cons {l₂ = l₂} e p) h =
      (subst (λ a. All (Differ a) l₂) e (All-perm (Differ _) p h.0), Apart-perm p h.1)
  Apart-perm (Permᴰ.swap {a = a} {b = b} {b' = b'} {l = l} e f) h =
      subst (λ x. Pairs x b' l) f
        (subst (λ y. Pairs b y l) e ((swap a b h.0.0, h.1.0), (h.0.1, h.1.1)))
  Apart-perm (Permᴰ.trans p q) h = Apart-perm q (Apart-perm p h)

module _ {ℓ κ} {A : Type ℓ} {before : A → A → Bool} {Differ : A → A → Type κ}
    (s : Separates before Differ) where
  insert_comm :
      (a b : A) (l : List A)
      → Differ a b
      → insert before a (insert before b l) ≡ insert before b (insert before a l)
  unfolding insert
  insert_comm a b [] d = ground (arith, s.asym a b, s.total a b d)
  insert_comm a b (y ∷ ys) d = ground (
    arith,
    s.asym a b,
    s.asym b a,
    s.total a b d,
    s.trans y a b,
    s.trans y b a,
    insert_comm a b ys d,
  )

  -- The order in which the entries are given does not matter.
  pub sort-eq_of_perm :
      {xs ys : List A} → Permᴰ xs ys → Apart Differ xs → sort before xs ≡ sort before ys
  unfolding sort
  sort-eq_of_perm Permᴰ.nil h = refl
  sort-eq_of_perm (Permᴰ.cons e p) h = cc (sort-eq_of_perm p h.1)
  sort-eq_of_perm (Permᴰ.swap {a = a} {b = b} {l = l} e f) h =
      cc (insert_comm a b (sort before l) h.0.0)
  sort-eq_of_perm (Permᴰ.trans p q) h =
      sort-eq_of_perm p h ∙ sort-eq_of_perm q (Apart-perm s.swap p h)

  insert-Ascends :
      (x : A) (ys : List A)
      → All (Differ x) ys
      → Ascends before ys
      → Ascends before (insert before x ys)
  unfolding insert
  insert-Ascends x [] d h = (tt, tt)
  insert-Ascends x (y ∷ ys) d h = elim (Bool-cases (before y x)) [
    | inl e ↦ rw e (
      All-perm (λ z. before y z ≡ true) (insert-perm before x ys) (e, h.0),
      insert-Ascends x ys d.1 h.1,
    )
    | inr e ↦
        let first = s.total x y d.0 e in
        rw e ((first, All-mono (λ z. s.trans x y z first) ys h.0), h)
  ]

  -- The result is in order.
  pub sort-Ascends : (xs : List A) → Apart Differ xs → Ascends before (sort before xs)
  unfolding sort
  sort-Ascends [] h = tt
  sort-Ascends (x ∷ xs) h =
      insert-Ascends x (sort before xs) (All-perm (Differ x) (sort-perm before xs) h.0)
        (sort-Ascends xs h.1)

  insert_least :
      (x : A) (ys : List A) → All (λ y. before x y ≡ true) ys → insert before x ys ≡ x ∷ ys
  unfolding insert
  insert_least x [] h = refl
  insert_least x (y ∷ ys) h = rw (s.asym x y h.0)

  -- What is in order stays as it is.
  pub sort_id : (xs : List A) → Ascends before xs → sort before xs ≡ xs
  unfolding sort
  sort_id [] h = refl
  sort_id (x ∷ xs) h = rw (sort_id xs h.1) (insert_least x xs h.0)
