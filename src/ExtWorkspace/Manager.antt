-- ===== src/ExtWorkspace/Manager.antt =====
-- About the end of a manager resource, which takes its session with it.
use scratch_compositor.Base.{
  ℕ, zero, suc, ◌<◌, ◌≤◌, ◌≡◌, ◌≢◌, refl, sym, ap, ◌∙◌, Bool, false, not, none, some, arith, ◌==◌,
  List, [], ◌∷◌, All, All-mono, keep, if_cases, ℕ_discrete,
}
use scratch_compositor.Config.{workspace_count}
use scratch_compositor.ExtWorkspace.{
  Role, manager, group, handle, Session, Resource, Ext, slot, put, set_session, set_resource, parts,
  unlink_session,
}
use scratch_compositor.ExtWorkspace.Safe.{IsRole, Owned, Live, Linked, Safe}
use scratch_compositor.ExtWorkspace.Destroy.{put_at, put_other, IsPart}

abbrev pub relisted : ℕ → Session → List ℕ → Ext → Ext
relisted i s l e = record (set_session i (some s) e) { sessions = l }

-- A session that changes but for its slots, and another list of sessions.
pub Safe-relist :
    (e : Ext) (i : ℕ) (s s' : Session) (l : List ℕ)
    → Safe e
    → e.session_at i ≡ some s
    → ((r : Role) → slot s' r ≡ slot s r)
    → All (Linked (set_session i (some s') e)) l
    → Safe (relisted i s' l e)
Safe-relist e i s s' l v here same linked = record {
  own = own;
  live = live;
  linked = linked_all l linked;
  new_resource = v.new_resource;
  new_session = new_session;
}
  where
    linked_all :
        (js : List ℕ)
        → All (Linked (set_session i (some s') e)) js
        → All (Linked (relisted i s' l e)) js
    linked_all js h = h

    own :
        (k : ℕ) (r : Resource)
        → (relisted i s' l e).resource_at k ≡ some r
        → Owned (relisted i s' l e) k r
    own k r there =
        let o = v.own k r there in
        elim (ℕ_discrete r.session i) [
          | yes at ↦
              let this : s ≡ o.owner = cc (here, o.allocated, at) in
              record {
                owner = s';
                allocated = ap (put i (some s') e.session_at) at ∙ put_at i (some s') e.session_at;
                points = same r.role ∙ ap (λ u. slot u r.role) this ∙ o.points;
                role = o.role;
              }
          | no differ ↦ record {
            owner = o.owner;
            allocated = put_other i r.session (some s') e.session_at differ ∙ o.allocated;
            points = o.points;
            role = o.role;
          }
        ]

    live :
        (j : ℕ) (t : Session) (r : Role) (k : ℕ)
        → (relisted i s' l e).session_at j ≡ some t
        → IsRole r
        → slot t r ≡ some k
        → Live (relisted i s' l e) j r k
    live j t r k there ok full =
        let make : (u : Session)
            → e.session_at j ≡ some u
            → slot u r ≡ some k
            → Live (relisted i s' l e) j r k =
          λ u old pointed.
            let h = v.live j u r k old ok pointed in
            record { resource = h.resource; there = h.there; session = h.session; role = h.role } in
        elim (ℕ_discrete j i) [
          | yes at ↦
              let stored =
                sym (ap (put i (some s') e.session_at) at ∙ put_at i (some s') e.session_at) in
              let this : s' ≡ t = cc (stored, there) in
              make s (cc (here, at)) (sym (same r) ∙ ap (λ u. slot u r) this ∙ full)
          | no differ ↦ make t (sym (put_other i j (some s') e.session_at differ) ∙ there) full
        ]

    new_session : (j : ℕ) → (relisted i s' l e).next ≤ j → (relisted i s' l e).session_at j ≡ none
    new_session j h = elim (ℕ_discrete j i) [
      | yes at ↦ cc (here, v.new_session j h, at)
      | no differ ↦ put_other i j (some s') e.session_at differ ∙ v.new_session j h
    ]

-- The members of a filtered list are not the one left out.
All-others :
    (P Q : ℕ → Type 0) (i : ℕ) (js : List ℕ)
    → ((j : ℕ) → j ≢ i → P j → Q j)
    → All P js
    → All Q (keep (λ j. not (j == i)) js)
All-others P Q i [] f h = tt
All-others P Q i (j ∷ js) f h =
    if_cases (All Q) (not (j == i)) (j ∷ keep (λ j. not (j == i)) js) _
      (λ e. (f j (ground (arith, e)) h.0, All-others P Q i js f h.1))
      (λ e. All-others P Q i js f h.1)

-- After the unlinking, a session is on no list.
pub record Unlinked (i : ℕ) (s : Session) (e e' : Ext) : Type 0 where
  pub session : Session
  pub safe : Safe e'
  pub after : e'.session_at i ≡ some session
  pub kept : (r : Role) → slot session r ≡ slot s r
  pub flag : session.on_sessions_list ≡ false

pub slot-flag :
    (b : Bool) (r : Role) (s : Session) → slot (record s { on_sessions_list = b }) r ≡ slot s r
slot-flag b manager s = refl
slot-flag b group s = refl
slot-flag b (handle i) s = refl

pub unlink_session-Unlinked :
    (e : Ext) (i : ℕ) (s : Session)
    → Safe e
    → e.session_at i ≡ some s
    → Unlinked i s e (unlink_session i s e)
unfolding unlink_session
unlink_session-Unlinked e i s v here =
    let s' = record s { on_sessions_list = false } in
    let rest = keep (λ j. not (j == i)) e.sessions in
    if_cases (Unlinked i s e) s.on_sessions_list (relisted i s' rest e) e
      (λ flag. record {
        session = s';
        safe =
            Safe-relist e i s s' rest v here (λ r. slot-flag false r s)
              (All-others (Linked e) (Linked (set_session i (some s') e)) i e.sessions
                (λ j d h. (h.0, put_other i j (some s') e.session_at d ∙ h.1, h.2, h.3)) v.linked);
        after = put_at i (some s') e.session_at;
        kept = λ r. slot-flag false r s;
        flag = refl;
      })
      (λ flag. record { session = s; safe = v; after = here; kept = λ r. refl; flag = flag })

pub parts-IsPart : All IsPart parts
parts-IsPart = ground arith

handle_empty :
    (s : Session) (n : ℕ)
    → n < workspace_count
    → All (λ r. slot s r ≡ none) parts
    → s.handles n ≡ none
handle_empty s zero lt h = h.0
handle_empty s (suc zero) lt h = h.1.0
handle_empty s (suc (suc zero)) lt h = h.1.1.0
handle_empty s (suc (suc (suc zero))) lt h = h.1.1.1.0
handle_empty s (suc (suc (suc (suc zero)))) lt h = h.1.1.1.1.0
handle_empty s (suc (suc (suc (suc (suc zero))))) lt h = h.1.1.1.1.1.0
handle_empty s (suc (suc (suc (suc (suc (suc zero)))))) lt h = h.1.1.1.1.1.1.0
handle_empty s (suc (suc (suc (suc (suc (suc (suc zero))))))) lt h = h.1.1.1.1.1.1.1.0
handle_empty s (suc (suc (suc (suc (suc (suc (suc (suc zero)))))))) lt h = h.1.1.1.1.1.1.1.1.0
handle_empty s (suc (suc (suc (suc (suc (suc (suc (suc (suc n))))))))) lt h =
    absurd (omega (arith, lt))

-- A session whose pointers are all NULL but the one to its manager is freed, and the manager goes.
pub Safe-free :
    (e : Ext) (i : ℕ) (s : Session) (k : ℕ)
    → Safe e
    → e.session_at i ≡ some s
    → s.on_sessions_list ≡ false
    → s.manager_slot ≡ some k
    → All (λ r. slot s r ≡ none) parts
    → Safe (set_resource k none (set_session i none e))
Safe-free e i s k v here flag managed empty = record {
  own = own;
  live = live;
  linked = All-mono linked e.sessions v.linked;
  new_resource = new_resource;
  new_session = new_session;
}
  where
    linked : (j : ℕ) → Linked e j → Linked (set_resource k none (set_session i none e)) j
    linked j h =
        let differ : j ≢ i = λ at. cc (h.1, here, h.2, flag, at) in
        (h.0, put_other i j none e.session_at differ ∙ h.1, h.2, h.3)

    only_manager : (r : Role) (l : ℕ) → IsRole r → slot s r ≡ some l → l ≡ k
    only_manager manager l ok full = cc (managed, full)
    only_manager group l ok full = cc (empty.1.1.1.1.1.1.1.1.1.0, full)
    only_manager (handle n) l ok full = cc (handle_empty s n ok empty, full)

    own :
        (l : ℕ) (r : Resource)
        → put k none e.resource_at l ≡ some r
        → Owned (set_resource k none (set_session i none e)) l r
    own l r there = elim (ℕ_discrete l k) [
      | yes at ↦ cc (put_at k none e.resource_at, there, at)
      | no differ ↦
          let o = v.own l r (sym (put_other k l none e.resource_at differ) ∙ there) in
          let apart : r.session ≢ i = λ at.
            let this : o.owner ≡ s = cc (o.allocated, here, at) in
            differ (only_manager r.role l o.role (ap (λ u. slot u r.role) (sym this) ∙ o.points)) in
          record {
            owner = o.owner;
            allocated = put_other i r.session none e.session_at apart ∙ o.allocated;
            points = o.points;
            role = o.role;
          }
    ]

    live :
        (j : ℕ) (t : Session) (r : Role) (l : ℕ)
        → put i none e.session_at j ≡ some t
        → IsRole r
        → slot t r ≡ some l
        → Live (set_resource k none (set_session i none e)) j r l
    live j t r l there ok full =
        let apart : j ≢ i = λ at. cc (put_at i none e.session_at, there, at) in
        let h = v.live j t r l (sym (put_other i j none e.session_at apart) ∙ there) ok full in
        let m = v.live i s manager k here tt managed in
        record {
          resource = h.resource;
          there =
              put_other k l none e.resource_at
                (λ at. apart (cc (h.there, m.there, h.session, m.session, at)))
              ∙ h.there;
          session = h.session;
          role = h.role;
        }

    new_resource : (l : ℕ) → e.next ≤ l → put k none e.resource_at l ≡ none
    new_resource l h = elim (ℕ_discrete l k) [
      | yes at ↦ ap (put k none e.resource_at) at ∙ put_at k none e.resource_at
      | no differ ↦ put_other k l none e.resource_at differ ∙ v.new_resource l h
    ]

    new_session : (j : ℕ) → e.next ≤ j → put i none e.session_at j ≡ none
    new_session j h = elim (ℕ_discrete j i) [
      | yes at ↦ ap (put i none e.session_at) at ∙ put_at i none e.session_at
      | no differ ↦ put_other i j none e.session_at differ ∙ v.new_session j h
    ]
