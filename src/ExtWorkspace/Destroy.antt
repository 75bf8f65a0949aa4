-- ===== src/ExtWorkspace/Destroy.antt =====
-- About the end of resources: `wl_resource_destroy` of handles, groups and managers.
use scratch_compositor.Base.{
  ℕ, ◌≡◌, ◌≢◌, refl, sym, ap, ◌∙◌, fun_ext, true, Option, none, some, arith, ltb, List, [], ◌∷◌,
  All, subst, ℕ_discrete, Option-cases, inl, inr,
}
use scratch_compositor.Config.{workspace_count}
use scratch_compositor.ExtWorkspace.{
  Role, manager, group, handle, Session, Resource, Ext, slot, put, with_slot, set_session,
  set_resource, finalize_part, handle_resource_destroy, group_resource_destroy, destroy_part,
  then_do-some, clear_pointer, clear_slot, clear_slots,
}
use scratch_compositor.ExtWorkspace.Safe.{
  Role-discrete, IsRole, HasSlot, slot-with_slot, slot-with_slot_other, Safe, Changed,
}
use scratch_compositor.ExtWorkspace.Change.{Safe-vacate}

pub put_at {ℓ} : {A : Type ℓ} (i : ℕ) (v : A) (f : ℕ → A) → put i v f i ≡ v
put_at i v f = ground arith

pub put_other {ℓ} : {A : Type ℓ} (i j : ℕ) (v : A) (f : ℕ → A) → j ≢ i → put i v f j ≡ f j
put_other i j v f d = ground arith

put_id {ℓ} : {A : Type ℓ} (i : ℕ) (v : A) (f : ℕ → A) → f i ≡ v → put i v f ≡ f
put_id i v f e = fun_ext (λ j. elim (ℕ_discrete j i) [
  | yes same ↦ ap (put i v f) same ∙ put_at i v f ∙ sym e ∙ ap f (sym same)
  | no differ ↦ put_other i j v f differ
])

pub flag-with_slot :
    (r : Role) (v : Option ℕ) (s : Session)
    → (with_slot r v s).on_sessions_list ≡ s.on_sessions_list
flag-with_slot manager v s = refl
flag-with_slot group v s = refl
flag-with_slot (handle i) v s = refl

-- Writing what is there already changes nothing.
with_slot_id : (r : Role) (v : Option ℕ) (s : Session) → slot s r ≡ v → with_slot r v s ≡ s
with_slot_id manager v s e = ap (λ w. record s { manager_slot = w }) (sym e)
with_slot_id group v s e = ap (λ w. record s { group_slot = w }) (sym e)
with_slot_id (handle i) v s e = ap (λ h. record s { handles = h }) (put_id i v s.handles e)

set_session_id : (i : ℕ) (v : Option Session) (e : Ext) → e.session_at i ≡ v → set_session i v e ≡ e
set_session_id i v e h = ap (λ f. record e { session_at = f }) (put_id i v e.session_at h)

-- The change that a new pointer and a new entry of the resources make together.
pub Changed-set :
    (e : Ext) (i : ℕ) (s : Session) (role : Role) (v : Option ℕ) (k : ℕ) (r : Option Resource)
    → e.session_at i ≡ some s
    → (HasSlot s manager → HasSlot (with_slot role v s) manager)
    → Changed e
        (set_resource k r (set_session i (some (with_slot role v s)) e))
        i
        s
        (with_slot role v s)
        role
        k
Changed-set e i s role v k r h keeps = record {
  managed = keeps;
  before = h;
  after = put_at i (some (with_slot role v s)) e.session_at;
  flag = flag-with_slot role v s;
  other_slots = λ q d. slot-with_slot_other role q v s d;
  other_sessions = λ j d. put_other i j (some (with_slot role v s)) e.session_at d;
  other_resources = λ j d. put_other k j r e.resource_at d;
  sessions = refl;
}

finalize_part_lem :
    (e : Ext) (r : Resource) (role : Role) (s : Session)
    → r.role ≡ role
    → role ≢ manager
    → IsRole role
    → e.session_at r.session ≡ some s
    → finalize_part r e ≡ some (set_session r.session (some (with_slot role none s)) e)
unfolding finalize_part handle_resource_destroy group_resource_destroy
finalize_part_lem e r manager s is other ok h = absurd (other refl)
finalize_part_lem e r group s is other ok h = rw (is, h) refl
finalize_part_lem e r (handle i) s is other ok h =
    let inside : ltb i workspace_count ≡ true = ground (arith, ok) in rw (is, h, inside) refl

-- What is left once a session's pointer and its resource are gone.
pub record Vacated (e : Ext) (i : ℕ) (s : Session) (role : Role) (e' : Ext) : Type 0 where
  pub session : Session
  pub safe : Safe e'
  pub after : e'.session_at i ≡ some session
  pub empty : slot session role ≡ none
  pub others : (r : Role) → r ≢ role → slot session r ≡ slot s r
  pub flag : session.on_sessions_list ≡ s.on_sessions_list
  pub sessions : e'.sessions ≡ e.sessions

-- Destroying a live handle or group reads no freed memory, and unsets its session's pointer to it.
pub destroy_part-Vacated :
    (e : Ext) (k : ℕ) (r : Resource)
    → Safe e
    → e.resource_at k ≡ some r
    → r.role ≢ manager
    → (s : Session) × (e' : Ext) × (e.session_at r.session ≡ some s)
      × (destroy_part k e ≡ some e')
      × Vacated e r.session s r.role e'
unfolding destroy_part
destroy_part-Vacated e k r v there other =
    let o = v.own k r there in
    let s = o.owner in
    let e' = set_resource k none (set_session r.session (some (with_slot r.role none s)) e) in
    let c =
      Changed-set e r.session s r.role none k none o.allocated
        (λ set. (set.0, slot-with_slot_other r.role manager none s (λ q. other (sym q)) ∙ set.1)) in
    let gone = put_at k none e.resource_at in
    let empty = slot-with_slot r.role none s in
    (
      s,
      e',
      o.allocated,
      rw (there, finalize_part_lem e r r.role s refl other o.role o.allocated) refl,
      record {
        session = with_slot r.role none s;
        safe = Safe-vacate v c o.role o.points empty gone refl;
        after = c.after;
        empty = empty;
        others = c.other_slots;
        flag = c.flag;
        sessions = refl;
      },
    )

-- The same, for the resource that a session's pointer points to.
destroy_slot-Vacated :
    (e : Ext) (i : ℕ) (s : Session) (role : Role) (k : ℕ) (r : Resource)
    → Safe e
    → e.session_at i ≡ some s
    → e.resource_at k ≡ some r
    → r.session ≡ i
    → r.role ≡ role
    → role ≢ manager
    → (e' : Ext) × (destroy_part k e ≡ some e') × Vacated e i s role e'
destroy_slot-Vacated e i s role k r v here there at is other =
    let (s', e', here', done, x) = destroy_part-Vacated e k r v there (λ q. other (sym is ∙ q)) in
    let same : s' ≡ s = cc (here, here', at) in
    (
      e',
      done,
      subst (λ q. Vacated e i s q e') is
          (subst (λ j. Vacated e j s r.role e') at
            (subst (λ t. Vacated e r.session t r.role e') same x)),
    )

rewrite_slot :
    (e : Ext) (i : ℕ) (role : Role) (s : Session)
    → e.session_at i ≡ some s
    → slot s role ≡ none
    → set_session i (some (with_slot role none s)) e ≡ e
rewrite_slot e i role s here empty =
    ap (λ t. set_session i (some t) e) (with_slot_id role none s empty)
    ∙ set_session_id i (some s) e here

-- Clearing a session's pointer, whether or not it is set.
pub clear_slot-Vacated :
    (e : Ext) (i : ℕ) (s : Session) (role : Role)
    → Safe e
    → e.session_at i ≡ some s
    → IsRole role
    → role ≢ manager
    → (e' : Ext) × (clear_slot i role e ≡ some e') × Vacated e i s role e'
unfolding clear_slot clear_pointer
clear_slot-Vacated e i s role v here ok other = elim (Option-cases (slot s role)) [
  | inl unset ↦ (
    e,
    then_do-some (e.session_at i) s _ here ∙ ap (λ o. clear_pointer i role o e) unset,
    record {
      session = s;
      safe = v;
      after = here;
      empty = unset;
      others = λ r d. refl;
      flag = refl;
      sessions = refl;
    },
  )
  | inr (k, set) ↦
      let h = v.live i s role k here ok set in
      let (e', done, x) =
        destroy_slot-Vacated e i s role k h.resource v here h.there h.session h.role other in
      (
        e',
        then_do-some (e.session_at i) s _ here
            ∙ ap (λ o. clear_pointer i role o e) set
            ∙ then_do-some (destroy_part k e) e' _ done
            ∙ then_do-some (e'.session_at i) x.session _ x.after
            ∙ ap some (rewrite_slot e' i role x.session x.after x.empty),
        x,
      )
]

-- Clearing the pointers of several roles: they are unset, and those that were not set stay so.
pub record Emptied (i : ℕ) (s : Session) (rs : List Role) (e e' : Ext) : Type 0 where
  pub session : Session
  pub safe : Safe e'
  pub after : e'.session_at i ≡ some session
  pub empty : All (λ r. slot session r ≡ none) rs
  pub still : (r : Role) → slot s r ≡ none → slot session r ≡ none
  pub manager_kept : slot session manager ≡ slot s manager
  pub flag : session.on_sessions_list ≡ s.on_sessions_list
  pub sessions : e'.sessions ≡ e.sessions

abbrev pub IsPart : Role → Type 0
IsPart r = IsRole r × (r ≢ manager)

Vacated-still :
    {e e' : Ext} {i : ℕ} {s : Session} {role : Role} (r : Role)
    → (x : Vacated e i s role e') → slot s r ≡ none
    → slot x.session r ≡ none
Vacated-still {role} r x unset = elim (Role-discrete r role) [
  | yes same ↦ subst (λ q. slot x.session q ≡ none) (sym same) x.empty
  | no differ ↦ x.others r differ ∙ unset
]

pub clear_slots-Emptied :
    (e : Ext) (i : ℕ) (s : Session) (rs : List Role)
    → Safe e
    → e.session_at i ≡ some s
    → All IsPart rs
    → (e' : Ext) × (clear_slots i rs e ≡ some e') × Emptied i s rs e e'
unfolding clear_slots
clear_slots-Emptied e i s [] v here ok = (
  e,
  refl,
  record {
    session = s;
    safe = v;
    after = here;
    empty = tt;
    still = λ r h. h;
    manager_kept = refl;
    flag = refl;
    sessions = refl;
  },
)
clear_slots-Emptied e i s (r ∷ rs) v here ok =
    let (e1, done, x) = clear_slot-Vacated e i s r v here ok.0.0 ok.0.1 in
    let (e2, rest, y) = clear_slots-Emptied e1 i x.session rs x.safe x.after ok.1 in
    (
      e2,
      rw done rest,
      record {
        session = y.session;
        safe = y.safe;
        after = y.after;
        empty = (y.still r x.empty, y.empty);
        still = λ q h. y.still q (Vacated-still q x h);
        manager_kept = y.manager_kept ∙ x.others manager (λ e. ok.0.1 (sym e));
        flag = y.flag ∙ x.flag;
        sessions = y.sessions ∙ x.sessions;
      },
    )
