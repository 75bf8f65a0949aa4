-- ===== src/ExtWorkspace/Safe.antt =====
-- About the memory of the ext-workspace sessions.
use scratch_compositor.Base.{
  ℕ, ◌<◌, ◌≤◌, ◌≡◌, ◌≢◌, refl, sym, ap, ◌∙◌, true, Option, none, some, arith, All, subst,
  ℕ_discrete,
}
use scratch_compositor.Config.{workspace_count}
use scratch_compositor.ExtWorkspace.{
  Role, manager, group, handle, Session, Resource, Ext, slot, with_slot,
}

pub Role-discrete : Discrete Role
Role-discrete = hlevel (ℕ_discrete)

-- A handle's index is one of the array's.
abbrev pub IsRole : Role → Type 0
IsRole (handle i) = i < workspace_count
IsRole _ = Unit

pub slot-with_slot : (r : Role) (v : Option ℕ) (s : Session) → slot (with_slot r v s) r ≡ v
slot-with_slot manager v s = refl
slot-with_slot group v s = refl
slot-with_slot (handle i) v s = ground arith

pub slot-with_slot_other :
    (r r' : Role) (v : Option ℕ) (s : Session) → r' ≢ r → slot (with_slot r v s) r' ≡ slot s r'
slot-with_slot_other manager manager v s d = absurd (d refl)
slot-with_slot_other manager group v s d = refl
slot-with_slot_other manager (handle i) v s d = refl
slot-with_slot_other group manager v s d = refl
slot-with_slot_other group group v s d = absurd (d refl)
slot-with_slot_other group (handle i) v s d = refl
slot-with_slot_other (handle i) manager v s d = refl
slot-with_slot_other (handle i) group v s d = refl
slot-with_slot_other (handle i) (handle j) v s d =
    let differ : j ≢ i = λ e. d (ap handle e) in ground (arith, differ)

-- The session that a resource belongs to is allocated and points to it.
pub record Owned (e : Ext) (k : ℕ) (r : Resource) : Type 0 where
  pub owner : Session
  pub allocated : e.session_at r.session ≡ some owner
  pub points : slot owner r.role ≡ some k
  pub role : IsRole r.role

-- A session's pointer for a role points to a live resource of that session and role.
pub record Live (e : Ext) (i : ℕ) (r : Role) (k : ℕ) : Type 0 where
  pub resource : Resource
  pub there : e.resource_at k ≡ some resource
  pub session : resource.session ≡ i
  pub role : resource.role ≡ r

abbrev pub HasSlot : Session → Role → Type 0
HasSlot s r = (k : ℕ) × (slot s r ≡ some k)

-- A session on the list is allocated, marked as listed, and has its manager.
abbrev pub Linked : Ext → ℕ → Type 0
Linked e i =
    (s : Session) × (e.session_at i ≡ some s) × (s.on_sessions_list ≡ true) × HasSlot s manager

-- No live resource and no session points to freed memory.
pub record Safe (e : Ext) : Type 0 where
  pub own : (k : ℕ) (r : Resource) → e.resource_at k ≡ some r → Owned e k r
  pub live :
      (i : ℕ) (s : Session) (role : Role) (k : ℕ)
      → e.session_at i ≡ some s
      → IsRole role
      → slot s role ≡ some k
      → Live e i role k
  pub linked : All (Linked e) e.sessions
  pub new_resource : (k : ℕ) → e.next ≤ k → e.resource_at k ≡ none
  pub new_session : (i : ℕ) → e.next ≤ i → e.session_at i ≡ none

-- One session's pointer for a role, and one resource, are changed and nothing else.
pub record Changed (e e' : Ext) (i : ℕ) (s s' : Session) (role : Role) (k : ℕ) : Type 0 where
  pub before : e.session_at i ≡ some s
  pub after : e'.session_at i ≡ some s'
  pub flag : s'.on_sessions_list ≡ s.on_sessions_list
  pub other_slots : (r : Role) → r ≢ role → slot s' r ≡ slot s r
  pub other_sessions : (j : ℕ) → j ≢ i → e'.session_at j ≡ e.session_at j
  pub other_resources : (j : ℕ) → j ≢ k → e'.resource_at j ≡ e.resource_at j
  pub sessions : e'.sessions ≡ e.sessions
  pub managed : HasSlot s manager → HasSlot s' manager

pub Linked-Changed :
    {e e' : Ext} {i k : ℕ} {s s' : Session} {role : Role}
    → Changed e e' i s s' role k
    → (j : ℕ) → Linked e j
    → Linked e' j
Linked-Changed {e} {e'} {i} {k} {s} {s'} {role} c j (t, there, flag, set) = elim (ℕ_discrete j i) [
  | yes same ↦
      let stored : e.session_at i ≡ some t = subst (λ n. e.session_at n ≡ some t) same there in
      let this : s ≡ t = cc (c.before, stored) in
      (
        s',
        subst (λ n. e'.session_at n ≡ some s') (sym same) c.after,
        c.flag ∙ ap (λ (u : Session). u.on_sessions_list) this ∙ flag,
        c.managed (subst (λ u. HasSlot u manager) (sym this) set),
      )
  | no differ ↦ (t, c.other_sessions j differ ∙ there, flag, set)
]

pub Owned-keep :
    {e e' : Ext} {i k : ℕ} {s s' : Session} {role : Role}
    → Changed e e' i s s' role k
    → (j : ℕ) (r : Resource) → (r.session ≡ i → r.role ≢ role)
    → Owned e j r
    → Owned e' j r
Owned-keep {e} {e'} {i} {k} {s} {s'} {role} c j r apart o = elim (ℕ_discrete r.session i) [
  | yes same ↦
      let stored : e.session_at i ≡ some o.owner =
        subst (λ n. e.session_at n ≡ some o.owner) same o.allocated in
      let this : o.owner ≡ s = cc (c.before, stored) in
      record {
        owner = s';
        allocated = subst (λ n. e'.session_at n ≡ some s') (sym same) c.after;
        points =
            c.other_slots r.role (apart same) ∙ subst (λ u. slot u r.role ≡ some j) this o.points;
        role = o.role;
      }
  | no differ ↦ record {
    owner = o.owner;
    allocated = c.other_sessions r.session differ ∙ o.allocated;
    points = o.points;
    role = o.role;
  }
]

pub Live-keep :
    {e e' : Ext} {i k : ℕ} {s s' : Session} {role : Role}
    → Changed e e' i s s' role k
    → (j : ℕ) (r : Role) (l : ℕ) → l ≢ k
    → Live e j r l
    → Live e' j r l
Live-keep c j r l differ h = record {
  resource = h.resource;
  there = c.other_resources l differ ∙ h.there;
  session = h.session;
  role = h.role;
}

-- The session behind a pointer after the change, and its slots before it.
pub Slot-before :
    {e e' : Ext} {i k : ℕ} {s s' : Session} {role : Role}
    → Changed e e' i s s' role k
    → (j : ℕ) (t : Session) (r : Role) → e'.session_at j ≡ some t
    → (j ≡ i → r ≢ role)
    → (u : Session) × (e.session_at j ≡ some u) × (slot t r ≡ slot u r)
Slot-before {e} {e'} {i} {k} {s} {s'} {role} c j t r there apart = elim (ℕ_discrete j i) [
  | yes same ↦
      let stored : e'.session_at i ≡ some t = subst (λ n. e'.session_at n ≡ some t) same there in
      let this : s' ≡ t = cc (c.after, stored) in
      (
        s,
        subst (λ n. e.session_at n ≡ some s) (sym same) c.before,
        ap (λ u. slot u r) (sym this) ∙ c.other_slots r (apart same),
      )
  | no differ ↦ (t, sym (c.other_sessions j differ) ∙ there, refl)
]
