-- ===== src/ExtWorkspace/Opening.antt =====
-- About `ext_workspace_bind` and the memory of the sessions.
use scratch_compositor.Base.{
  ℕ, suc, ◌<◌, ◌≤◌, ◌≡◌, ◌≢◌, refl, sym, ap, ◌∙◌, Bool, true, not, Option, none, some, arith, List,
  [], ◌∷◌, All, All-mono, All-zip, Apart, if_cases, subst,
}
use scratch_compositor.Config.{workspace_count}
use scratch_compositor.ExtWorkspace.{
  Role, manager, handle, Session, Message, Ext, slot, with_slot, set_session, set_resource, then_do,
  then_do-some,
}
use scratch_compositor.ExtWorkspace.Safe.{
  Role-discrete, IsRole, HasSlot, slot-with_slot, slot-with_slot_other, Linked, Safe, Changed,
}
use scratch_compositor.ExtWorkspace.Change.{Safe-occupy}
use scratch_compositor.ExtWorkspace.Destroy.{put_at, Changed-set}
use scratch_compositor.ExtWorkspace.Bind.{
  Alloc, create, refused, part_of, name_handle, show_handle, create_handles,
}

-- Messages, and pointers passed over, change no memory.
pub Safe-sent :
    (e : Ext) (l : List Message) (n : ℕ)
    → e.next ≤ n
    → Safe e
    → Safe (record e { sent = l; next = n })
Safe-sent e l n later v = record {
  own = λ k r h.
      let o = v.own k r h in
      record { owner = o.owner; allocated = o.allocated; points = o.points; role = o.role };
  live = λ i s r k h ok full.
      let m = v.live i s r k h ok full in
      record { resource = m.resource; there = m.there; session = m.session; role = m.role };
  linked = linked e.sessions v.linked;
  new_resource = λ k h. v.new_resource k (omega (arith, later, h));
  new_session = λ i h. v.new_session i (omega (arith, later, h));
}
  where
    linked : (js : List ℕ) → All (Linked e) js → All (Linked (record e { sent = l; next = n })) js
    linked js h = h

pub HasSlot-with_slot :
    (r q : Role) (k : ℕ) (s : Session) → HasSlot s q → HasSlot (with_slot r (some k) s) q
HasSlot-with_slot r q k s (l, h) = elim (Role-discrete q r) [
  | yes same ↦ (k, ap (slot (with_slot r (some k) s)) same ∙ slot-with_slot r (some k) s)
  | no differ ↦ (l, slot-with_slot_other r q (some k) s differ ∙ h)
]

-- The state after a resource is made, messages are sent and the session points to it.
abbrev pub opened : ℕ → ℕ → Session → Role → List Message → Ext → Ext
opened client i s role l e =
    record (set_session i (some (with_slot role (some e.next) s))
      (set_resource e.next (some (part_of client i role)) e)) { next = suc e.next; sent = l }

pub Safe-opened :
    (client i : ℕ) (s : Session) (role : Role) (l : List Message) (e : Ext)
    → Safe e
    → e.session_at i ≡ some s
    → IsRole role
    → slot s role ≡ none
    → Safe (opened client i s role l e)
Safe-opened client i s role l e v here ok unset =
    let c =
      Changed-set e i s role (some e.next) e.next (some (part_of client i role)) here
        (HasSlot-with_slot role manager e.next s) in
    let c' : Changed e (opened client i s role l e) i s (with_slot role (some e.next) s) role
        e.next =
      record {
        before = c.before;
        after = c.after;
        flag = c.flag;
        other_slots = c.other_slots;
        other_sessions = c.other_sessions;
        other_resources = c.other_resources;
        sessions = c.sessions;
        managed = c.managed;
      } in
    Safe-occupy (part_of client i role) v c' ok unset (slot-with_slot role (some e.next) s)
      (put_at e.next (some (part_of client i role)) e.resource_at) refl refl
      (v.new_resource e.next (omega arith)) (omega arith) (omega arith)

index_of : Role → ℕ
index_of (handle n) = n
index_of _ = 0

handle_injective : (n m : ℕ) → handle n ≡ handle m → n ≡ m
unfolding index_of
handle_injective n m e = ap index_of e

-- What a part of a bind leaves of the new session.
pub record Opened (i : ℕ) (s : Session) (e e' : Ext) : Type 0 where
  pub session : Session
  pub safe : Safe e'
  pub after : e'.session_at i ≡ some session
  pub managed : slot session manager ≡ slot s manager
  pub still : (r : Role) → HasSlot s r → HasSlot session r
  pub flag : session.on_sessions_list ≡ s.on_sessions_list
  pub sessions : e'.sessions ≡ e.sessions

-- Every allocation of a bind succeeds.
pub record Granted (a : Alloc) : Type 0 where
  pub session : a.session ≡ true
  pub manager_resource : a.manager_resource ≡ true
  pub group_resource : a.group_resource ≡ true
  pub handle_resource : (n : ℕ) → a.handle_resource n ≡ true
  pub user_data : (n : ℕ) → a.user_data n ≡ true

-- The loop over the workspaces, where every coordinate is allocated: it reads no freed memory,
-- whichever other allocation fails; where none fails, all its handles are set.
pub record Handles (a : Alloc) (i : ℕ) (s : Session) (is : List ℕ) (e e' : Ext) (b : Bool)
    : Type 0 where
  pub opened_ : Opened i s e e'
  pub complete : Granted a → b ≡ true
  pub filled : b ≡ true → All (λ n. HasSlot opened_.session (handle n)) is

abbrev pub HandlesOf : Alloc → ℕ → Session → List ℕ → Ext → Option (Ext × Bool) → Type 0
HandlesOf a i s is e none = ⊥
HandlesOf a i s is e (some (e', b)) = Handles a i s is e e' b

Handles-refused :
    (a : Alloc) (client i n : ℕ) (s : Session) (is : List ℕ) (e : Ext)
    → (Granted a → ⊥)
    → e.next ≤ n
    → Safe e
    → e.session_at i ≡ some s
    → HandlesOf a i s is e (some (refused client (record e { next = n })))
Handles-refused a client i n s is e refused_ later v here = record {
  opened_ = record {
    session = s;
    safe = Safe-sent e _ n later v;
    after = here;
    managed = refl;
    still = λ r h. h;
    flag = refl;
    sessions = refl;
  };
  complete = λ g. absurd (refused_ g);
  filled = λ b. cc b;
}

-- The rest of the loop, after the handle of a workspace is in place.
HandlesOf-step :
    (a : Alloc) (i n : ℕ) (s : Session) (is : List ℕ) (e e1 : Ext) (k : ℕ) (o : Option (Ext × Bool))
    → e1.sessions ≡ e.sessions
    → HandlesOf a i (with_slot (handle n) (some k) s) is e1 o
    → HandlesOf a i s (n ∷ is) e o
HandlesOf-step a i n s is e e1 k none same h = h
HandlesOf-step a i n s is e e1 k (some (e', b)) same h =
    let x = h.opened_ in
    record {
      opened_ = record {
        session = x.session;
        safe = x.safe;
        after = x.after;
        managed = x.managed;
        still = λ r set. x.still r (HasSlot-with_slot (handle n) r k s set);
        flag = x.flag;
        sessions = x.sessions ∙ same;
      };
      complete = h.complete;
      filled =
          λ done. (x.still (handle n) (k, slot-with_slot (handle n) (some k) s), h.filled done);
    }

pub create_handles-Handles :
    (a : Alloc) (current client i man grp : ℕ) (is : List ℕ) (s : Session) (e : Ext)
    → ((n : ℕ) → a.coordinate n ≡ true)
    → All (λ n. n < workspace_count) is
    → Apart (λ n m. m ≢ n) is
    → All (λ n. slot s (handle n) ≡ none) is
    → Safe e
    → e.session_at i ≡ some s
    → HandlesOf a i s is e (create_handles a current client i man grp is e)
unfolding create_handles
create_handles-Handles a current client i man grp [] s e coords small apart unset v here = record {
  opened_ = record {
    session = s;
    safe = v;
    after = here;
    managed = refl;
    still = λ r h. h;
    flag = refl;
    sessions = refl;
  };
  complete = λ g. refl;
  filled = λ _. tt;
}
create_handles-Handles a current client i man grp (n ∷ is) s e coords small apart unset v here =
    let wsr = e.next in
    let s' = with_slot (handle n) (some wsr) s in
    let shown =
      show_handle current grp wsr n
        (name_handle man wsr n (create (part_of client i (handle n)) e)) in
    let e1 = opened client i s (handle n) shown.sent e in
    let next_unset : All (λ m. slot s' (handle m) ≡ none) is =
      All-mono
        (λ m both.
          slot-with_slot_other (handle n) (handle m) (some wsr) s
            (λ e. both.0 (handle_injective m n e))
          ∙ both.1)
        is (All-zip (λ m. m ≢ n) (λ m. slot s (handle m) ≡ none) is apart.0 unset.1) in
    let rest =
      create_handles-Handles a current client i man grp is s' e1 coords small.1 apart.1 next_unset
        (Safe-opened client i s (handle n) shown.sent e v here small.0 unset.0)
        (put_at i (some s') e.session_at) in
    let P = HandlesOf a i s (n ∷ is) e in
    if_cases P (not (a.handle_resource n)) (some (refused client e)) _
      (λ h.
        Handles-refused a client i e.next s (n ∷ is) e (λ g. cc (h, g.handle_resource n))
          (omega arith) v here)
      (λ h.
        if_cases P (not (a.user_data n)) (some (refused client (record e { next = suc e.next }))) _
          (λ h.
            Handles-refused a client i (suc e.next) s (n ∷ is) e (λ g. cc (h, g.user_data n))
              (omega arith) v here)
          (λ h.
            if_cases P (not (a.coordinate n)) _ _ (λ h. absurd (cc (h, coords n)))
              (λ h.
                subst P
                  (sym (
                    ap (λ o. then_do o (create_handles a current client i man grp is))
                      (then_do-some (e.session_at i) s _ here)))
                  (HandlesOf-step a i n s is e e1 wsr _ refl rest))))
