-- ===== src/Invariant/Defs.antt =====
-- What holds of the windows and of the focus between two events.
use scratch_compositor.Base.{
  ℕ, ◌≤◌, ◌<◌, ◌≡◌, refl, sym, ◌∙◌, Bool, true, false, List, [], ◌∷◌, Option, none, some, arith,
  ◌==◌, find, All, Apart, Pointwise, Pointwise-map, if◌then◌else◌, All-Pointwise, Apart-Pointwise,
  All-find, Bool-cases, ==_iff, ne→==, inl, inr, subst,
}
use scratch_compositor.Config.{workspace_count}
use scratch_compositor.Server.{Toplevel, Server, toplevel_by_id, update_toplevel}
use scratch_compositor.Focus.{deref}
use scratch_compositor.Tiling.Order.{KeysDiffer, IdsDiffer}
use scratch_compositor.Frame.{SameWindow, SameWindow-refl, Frame}

-- The windows are distinct objects with distinct user keys that the generator has given, all workspaces exist, and, as wlroots
-- guarantees, a mapped surface is initialized.
pub record Windows (ts : List Toplevel) (current_workspace key_gen : ℕ) : Type 0 where
  pub ids : Apart IdsDiffer ts
  pub keys : Apart KeysDiffer ts
  pub given : All (λ t. t.tile_user_key ≤ key_gen) ts
  pub current : current_workspace < workspace_count
  pub workspaces : All (λ t. t.workspace < workspace_count) ts
  pub surfaces : All (λ t. t.mapped ≡ true → t.initialized ≡ true) ts

abbrev pub Wf : Server → Type 0
Wf s = Windows s.toplevels s.current_workspace s.tile_user_key_gen

-- The focus pointer is NULL or points to a listed, mapped window of the given workspace.
abbrev pub FocusOn : Option ℕ → ℕ → List Toplevel → Type 0
FocusOn none ws ts = Unit
FocusOn (some i) ws ts =
    (t : Toplevel) × (toplevel_by_id ts i ≡ some t) × (t.workspace ≡ ws) × (t.mapped ≡ true)

pub record Inv (s : Server) : Type 0 where
  pub wf : Wf s
  pub focus : FocusOn s.focused_toplevel s.current_workspace s.toplevels

IdsDiffer-SameWindow :
    (a b c d : Toplevel) → SameWindow a c → SameWindow b d → IdsDiffer a b → IdsDiffer c d
IdsDiffer-SameWindow a b c d h k e f = e (h.id ∙ f ∙ sym k.id)

KeysDiffer-SameWindow :
    (a b c d : Toplevel) → SameWindow a c → SameWindow b d → KeysDiffer a b → KeysDiffer c d
KeysDiffer-SameWindow a b c d h k e f = e (h.key ∙ f ∙ sym k.key)

surface-SameWindow :
    (a b : Toplevel)
    → SameWindow a b
    → (a.mapped ≡ true → a.initialized ≡ true)
    → b.mapped ≡ true
    → b.initialized ≡ true
surface-SameWindow a b h k m = sym h.initialized ∙ k (h.mapped ∙ m)

pub Wf-Frame : {s s' : Server} → Frame s s' → Wf s → Wf s'
Wf-Frame {s} {s'} f w = record {
  ids =
      Apart-Pointwise SameWindow IdsDiffer IdsDiffer-SameWindow SameWindow-refl s.toplevels
        s'.toplevels f.windows w.ids;
  keys =
      Apart-Pointwise SameWindow KeysDiffer KeysDiffer-SameWindow SameWindow-refl s.toplevels
        s'.toplevels f.windows w.keys;
  given =
      subst (λ g. All (λ t. t.tile_user_key ≤ g) s'.toplevels) f.key_gen
        (All-Pointwise SameWindow (λ t. t.tile_user_key ≤ s.tile_user_key_gen)
          (λ a b h k. subst (λ n. n ≤ s.tile_user_key_gen) h.key k) s.toplevels s'.toplevels
          f.windows w.given);
  current = subst (λ n. n < workspace_count) f.current w.current;
  workspaces =
      All-Pointwise SameWindow (λ t. t.workspace < workspace_count)
        (λ a b h k. subst (λ n. n < workspace_count) h.workspace k) s.toplevels s'.toplevels
        f.windows w.workspaces;
  surfaces =
      All-Pointwise SameWindow (λ t. t.mapped ≡ true → t.initialized ≡ true) surface-SameWindow
        s.toplevels s'.toplevels f.windows w.surfaces;
}

-- The window behind a pointer is there on both sides of a frame.
pub toplevel_by_id-Pointwise :
    (i : ℕ) (ts ts' : List Toplevel) (t : Toplevel)
    → Pointwise SameWindow ts ts'
    → toplevel_by_id ts i ≡ some t
    → (t' : Toplevel) × (toplevel_by_id ts' i ≡ some t') × SameWindow t t'
unfolding toplevel_by_id
toplevel_by_id-Pointwise i [] ts' t h e = cc
toplevel_by_id-Pointwise i (x ∷ ts) [] t h e = elim h [ ]
toplevel_by_id-Pointwise i (x ∷ ts) (x' ∷ ts') t h e = elim (Bool-cases (x.id == i)) [
  | inl hit ↦
      let found : some x ≡ some t = rw hit at e in
      let same : x ≡ t = cc found in
      (x', rw (subst (λ k. (k == i) ≡ true) h.0.id hit) refl, subst (λ y. SameWindow y x') same h.0)
  | inr miss ↦
      rw (subst (λ k. (k == i) ≡ false) h.0.id miss)
        (toplevel_by_id-Pointwise i ts ts' t h.1 (rw miss at e))
]

pub FocusOn-Frame :
    (f : Option ℕ) (ws : ℕ) (ts ts' : List Toplevel)
    → Pointwise SameWindow ts ts'
    → FocusOn f ws ts
    → FocusOn f ws ts'
FocusOn-Frame none ws ts ts' p h = tt
FocusOn-Frame (some i) ws ts ts' p (t, e, w, m) =
    let (t', e', same) = toplevel_by_id-Pointwise i ts ts' t p e in
    (t', e', sym same.workspace ∙ w, sym same.mapped ∙ m)

pub Inv-Frame : {s s' : Server} → Frame s s' → Inv s → Inv s'
Inv-Frame {s} {s'} f v = record {
  wf = Wf-Frame f v.wf;
  focus =
      subst (λ p. FocusOn p s'.current_workspace s'.toplevels) f.focused
        (subst (λ n. FocusOn s.focused_toplevel n s'.toplevels) f.current
          (FocusOn-Frame s.focused_toplevel s.current_workspace s.toplevels s'.toplevels f.windows
            v.focus));
}

-- In a list of distinct windows, a window that a search finds is the one behind its pointer.
pub toplevel_by_id-find :
    (p : Toplevel → Bool) (ts : List Toplevel) (t : Toplevel)
    → Apart IdsDiffer ts
    → find p ts ≡ some t
    → toplevel_by_id ts t.id ≡ some t
unfolding toplevel_by_id
toplevel_by_id-find p [] t h e = cc
toplevel_by_id-find p (x ∷ ts) t h e = elim (Bool-cases (p x)) [
  | inl hit ↦
      let found : some x ≡ some t = rw hit at e in
      let same : x ≡ t = cc found in
      subst (λ y. find (λ u. u.id == y.id) (x ∷ ts) ≡ some y) same
        (rw ((==_iff x.id x.id).1 refl) refl)
  | inr miss ↦
      let found : find p ts ≡ some t = rw miss at e in
      let other = All-find (IdsDiffer x) p ts t h.0 found in
      rw (ne→== x.id t.id other.0) (toplevel_by_id-find p ts t h.1 found)
]

-- A change of one window that keeps its identity and key, a workspace that exists, and what
-- wlroots guarantees of its surface.
pub record Keeps (a b : Toplevel) : Type 0 where
  pub id : a.id ≡ b.id
  pub key : a.tile_user_key ≡ b.tile_user_key
  pub workspace : a.workspace < workspace_count → b.workspace < workspace_count
  pub surface : (a.mapped ≡ true → a.initialized ≡ true) → b.mapped ≡ true → b.initialized ≡ true

Keeps-refl : (a : Toplevel) → Keeps a a
Keeps-refl a = record { id = refl; key = refl; workspace = λ h. h; surface = λ h. h }

pub Windows-modify :
    (i : ℕ) (f : Toplevel → Toplevel) (ts : List Toplevel) (cur gen : ℕ)
    → ((t : Toplevel) → Keeps t (f t))
    → Windows ts cur gen
    → Windows (update_toplevel i f ts) cur gen
unfolding update_toplevel
Windows-modify i f ts cur gen h w =
    let one : (t : Toplevel) → Keeps t (if t.id == i then f t else t) = λ t.
      elim (t.id == i) as (λ b. Keeps t (if b then f t else t)) [
        | true ↦ h t
        | false ↦ Keeps-refl t
      ] in
    let all = Pointwise-map Keeps (λ t. if t.id == i then f t else t) one ts in
    record {
      ids =
          Apart-Pointwise Keeps IdsDiffer (λ a b c d k l e q. e (k.id ∙ q ∙ sym l.id)) Keeps-refl ts
            _ all w.ids;
      keys =
          Apart-Pointwise Keeps KeysDiffer (λ a b c d k l e q. e (k.key ∙ q ∙ sym l.key)) Keeps-refl
            ts _ all w.keys;
      given =
          All-Pointwise Keeps (λ t. t.tile_user_key ≤ gen) (λ a b k. subst (λ n. n ≤ gen) k.key) ts
            _ all w.given;
      current = w.current;
      workspaces =
          All-Pointwise Keeps (λ t. t.workspace < workspace_count) (λ a b k. k.workspace) ts _ all
            w.workspaces;
      surfaces =
          All-Pointwise Keeps (λ t. t.mapped ≡ true → t.initialized ≡ true) (λ a b k. k.surface) ts
            _ all w.surfaces;
    }

-- A window found behind a pointer has the pointer for its identity.
pub id-toplevel_by_id :
    (i : ℕ) (ts : List Toplevel) (t : Toplevel) → toplevel_by_id ts i ≡ some t → t.id ≡ i
unfolding toplevel_by_id
id-toplevel_by_id i [] t e = cc
id-toplevel_by_id i (x ∷ ts) t e = ground (arith, id-toplevel_by_id i ts t)

-- The window behind the focus pointer, where there is one.
pub deref-FocusOn :
    (p : Option ℕ) (ws : ℕ) (ts : List Toplevel) (f : Toplevel)
    → FocusOn p ws ts
    → deref ts p ≡ some f
    → (p ≡ some f.id) × (toplevel_by_id ts f.id ≡ some f) × (f.workspace ≡ ws) × (f.mapped ≡ true)
unfolding deref
deref-FocusOn none ws ts f h e = cc
deref-FocusOn (some i) ws ts f (t, listed, on, m) e =
    let same : t ≡ f = cc (listed, e) in
    let named = id-toplevel_by_id i ts f e in
    (
      cc named,
      subst (λ k. toplevel_by_id ts k ≡ some f) (sym named) e,
      subst (λ u. u.workspace ≡ ws) same on,
      subst (λ u. u.mapped ≡ true) same m,
    )
