-- ===== src/ExtWorkspace/Change.antt =====
-- About a session's pointer and the resource it points to, when both go and when both come.
use scratch_compositor.Base.{
  ℕ, ◌<◌, ◌≤◌, ◌≡◌, ◌≢◌, sym, ◌∙◌, none, some, arith, All, All-mono, subst, ℕ_discrete,
}
use scratch_compositor.ExtWorkspace.{Role, Session, Resource, Ext, slot}
use scratch_compositor.ExtWorkspace.Safe.{
  Role-discrete, IsRole, Owned, Live, Linked, Safe, Changed, Linked-Changed, Owned-keep, Live-keep,
  Slot-before,
}

New-session :
    {e e' : Ext} {i k : ℕ} {s s' : Session} {role : Role}
    → Safe e
    → Changed e e' i s s' role k
    → e.next ≤ e'.next
    → (j : ℕ) → e'.next ≤ j
    → e'.session_at j ≡ none
New-session {e} {e'} {i} v c grows j h = elim (ℕ_discrete j i) [
  | yes same ↦
      let old = v.new_session j (omega (arith, grows, h)) in
      let stored : e.session_at i ≡ none = subst (λ n. e.session_at n ≡ none) same old in
      cc (stored, c.before)
  | no differ ↦ c.other_sessions j differ ∙ v.new_session j (omega (arith, grows, h))
]

Linked-all :
    {e e' : Ext} {i k : ℕ} {s s' : Session} {role : Role}
    → Safe e
    → Changed e e' i s s' role k
    → All (Linked e') e'.sessions
Linked-all {e} {e'} v c =
    subst (All (Linked e')) (sym c.sessions) (All-mono (Linked-Changed c) e.sessions v.linked)

-- Two pointers of one session for one role are the same pointer.
same_slot :
    (e : Ext) (i j k l : ℕ) (s t : Session) (r r' : Role)
    → e.session_at i ≡ some s
    → e.session_at j ≡ some t
    → slot s r ≡ some k
    → slot t r' ≡ some l
    → j ≡ i
    → r' ≡ r
    → l ≡ k
same_slot e i j k l s t r r' es et ek el same role = cc (es, et, ek, el, same, role)

-- A session's pointer that was set and is NULL now, its resource being gone.
pub Safe-vacate :
    {e e' : Ext} {i k : ℕ} {s s' : Session} {role : Role}
    → Safe e
    → Changed e e' i s s' role k
    → IsRole role
    → slot s role ≡ some k
    → slot s' role ≡ none
    → e'.resource_at k ≡ none
    → e'.next ≡ e.next
    → Safe e'
Safe-vacate {e} {e'} {i} {k} {s} {s'} {role} v c ok full empty gone next = record {
  own = own;
  live = live;
  linked = Linked-all v c;
  new_resource = new_resource;
  new_session = New-session v c (omega (arith, next));
}
  where
    own : (j : ℕ) (r : Resource) → e'.resource_at j ≡ some r → Owned e' j r
    own j r there = elim (ℕ_discrete j k) [
      | yes same ↦
          let kept : e'.resource_at k ≡ some r =
            subst (λ n. e'.resource_at n ≡ some r) same there in
          cc (kept, gone)
      | no differ ↦
          let o = v.own j r (sym (c.other_resources j differ) ∙ there) in
          Owned-keep c j r
            (λ there role_is. differ (
              same_slot e i r.session k j s o.owner role r.role c.before o.allocated full o.points
                there role_is))
            o
    ]

    live :
        (j : ℕ) (t : Session) (r : Role) (l : ℕ)
        → e'.session_at j ≡ some t
        → IsRole r
        → slot t r ≡ some l
        → Live e' j r l
    live j t r l there ok' full' =
        let other : j ≡ i → r ≢ role = λ here same. cc (there, c.after, full', empty, here, same) in
        let (u, old, kept) = Slot-before c j t r there other in
        let h = v.live j u r l old ok' (sym kept ∙ full') in
        let this = v.live i s role k c.before ok full in
        Live-keep c j r l
          (λ same.
            other (cc (h.there, this.there, h.session, this.session, same))
              (cc (h.there, this.there, h.role, this.role, same)))
          h

    new_resource : (j : ℕ) → e'.next ≤ j → e'.resource_at j ≡ none
    new_resource j h = elim (ℕ_discrete j k) [
      | yes same ↦ subst (λ n. e'.resource_at n ≡ none) (sym same) gone
      | no differ ↦ c.other_resources j differ ∙ v.new_resource j (subst (λ n. n ≤ j) next h)
    ]

-- A session's pointer that was NULL and points to a new resource now.
pub Safe-occupy :
    {e e' : Ext} {i k : ℕ} {s s' : Session} {role : Role} (r : Resource)
    → Safe e
    → Changed e e' i s s' role k
    → IsRole role
    → slot s role ≡ none
    → slot s' role ≡ some k
    → e'.resource_at k ≡ some r
    → r.session ≡ i
    → r.role ≡ role
    → e.resource_at k ≡ none
    → e.next ≤ e'.next
    → k < e'.next
    → Safe e'
Safe-occupy {e} {e'} {i} {k} {s} {s'} {role} made v c ok empty full there of as_role unused grows
      new =
    record {
      own = own;
      live = live;
      linked = Linked-all v c;
      new_resource = new_resource;
      new_session = New-session v c grows;
    }
  where
    own : (j : ℕ) (r : Resource) → e'.resource_at j ≡ some r → Owned e' j r
    own j r here = elim (ℕ_discrete j k) [
      | yes same ↦
          let this : made ≡ r = cc (here, there, same) in
          subst (λ u. Owned e' j u) this
            (subst (λ n. Owned e' n made) (sym same)
              (record {
                owner = s';
                allocated = subst (λ n. e'.session_at n ≡ some s') (sym of) c.after;
                points = subst (λ q. slot s' q ≡ some k) (sym as_role) full;
                role = subst IsRole (sym as_role) ok;
              }))
      | no differ ↦
          let o = v.own j r (sym (c.other_resources j differ) ∙ here) in
          Owned-keep c j r (λ at role_is. cc (o.allocated, c.before, o.points, empty, at, role_is))
            o
    ]

    live :
        (j : ℕ) (t : Session) (r : Role) (l : ℕ)
        → e'.session_at j ≡ some t
        → IsRole r
        → slot t r ≡ some l
        → Live e' j r l
    live j t r l here ok' full' =
        let old : (j ≡ i → r ≢ role) → Live e' j r l = λ other.
          let (u, before, kept) = Slot-before c j t r here other in
          let h = v.live j u r l before ok' (sym kept ∙ full') in
          Live-keep c j r l (λ same. cc (h.there, unused, same)) h in
        elim (ℕ_discrete j i) [
          | no differ ↦ old (λ at. absurd (differ at))
          | yes at ↦ elim (Role-discrete r role) [
            | no differ ↦ old (λ at' is. differ is)
            | yes is ↦ record {
              resource = made;
              there = cc (here, c.after, full', full, there, at, is);
              session = of ∙ sym at;
              role = as_role ∙ sym is;
            }
          ]
        ]

    new_resource : (j : ℕ) → e'.next ≤ j → e'.resource_at j ≡ none
    new_resource j h =
        c.other_resources j (λ same. absurd (omega (arith, same, h, new)))
        ∙ v.new_resource j (omega (arith, grows, h))
