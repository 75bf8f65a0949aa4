-- ===== src/Devices/Match.antt =====
-- src/main.c, which rule maps a device.
use scratch_compositor.Base.{
  ℕ, ◌/◌, ◌%◌, Bool, true, false, ◌&&◌, ◌||◌, List, [], ◌∷◌, Option, none, some, ◌≡◌, refl, ap,
  ◌==◌, any, find, Bool-cases, inl, inr, arith, if◌then◌else◌,
}
use scratch_compositor.Base.Text.{Bytes, str_eq}
use scratch_compositor.Config.{InputMapRule}
use scratch_compositor.Server.{Output}
use scratch_compositor.Devices.{output_by_name, mapped_output}

find-passes : (p : Output → Bool) (l : List Output) (o : Output) → find p l ≡ some o → p o ≡ true
find-passes p [] o e = ground arith
find-passes p (x ∷ l) o e = elim (Bool-cases (p x)) [
  | inl h ↦ ground arith
  | inr h ↦ ground (arith, find-passes p l o)
]

output_by_name-str_eq :
    (name_of : ℕ → Bytes) (outputs : List Output) (name : Bytes) (o : Output)
    → output_by_name name_of outputs name ≡ some o
    → str_eq (name_of o.id) name ≡ true
unfolding output_by_name
output_by_name-str_eq name_of outputs [] o e = ground arith
output_by_name-str_eq name_of outputs (c ∷ name) o e =
    find-passes (λ x. str_eq (name_of x.id) (c ∷ name)) outputs o e

or_right : (s t : Bool) → t ≡ true → s || t ≡ true
or_right true t e = refl
or_right false t e = e

-- The rule's output is taken where it passes and has one, and the others' otherwise.
pick_cases :
    (m n : Bool) (here rest : Option Output) (o : Output) (s t : Bool)
    → (here ≡ some o → s ≡ true)
    → (rest ≡ some o → t ≡ true)
    → (if m && n then elim here [ none ↦ rest | some a ↦ some a ] else rest) ≡ some o
    → m && (n && s) || t ≡ true
pick_cases true true none rest o s t h k e = or_right s t (k e)
pick_cases true true (some a) rest o s t h k e = ap (λ b. b || t) (h e)
pick_cases true false here rest o s t h k e = k e
pick_cases false n here rest o s t h k e = k e

-- The output that a device is mapped to bears the name that some rule for the device gives.
mapped_output-any :
    (name_of : ℕ → Bytes) (outputs : List Output) (want : ℕ) (name : Bytes)
    (rules : List InputMapRule) (o : Output)
    → mapped_output name_of outputs want name rules ≡ some o
    → any
        (λ r. (r.types / want) % 2 == 1 && (r.name_re name && str_eq (name_of o.id) r.output_name))
        rules
      ≡ true
unfolding mapped_output
mapped_output-any name_of outputs want name [] o e = ground arith
mapped_output-any name_of outputs want name (r ∷ rules) o e =
    pick_cases ((r.types / want) % 2 == 1) (r.name_re name)
      (output_by_name name_of outputs r.output_name) (mapped_output name_of outputs want name rules)
      o (str_eq (name_of o.id) r.output_name)
      (any
        (λ r. (r.types / want) % 2 == 1 && (r.name_re name && str_eq (name_of o.id) r.output_name))
        rules)
      (output_by_name-str_eq name_of outputs r.output_name o)
      (mapped_output-any name_of outputs want name rules o) e
