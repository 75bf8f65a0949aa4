-- ===== src/ExtWorkspace/Notify.antt =====
-- About the messages that go to all sessions.
use scratch_compositor.Base.{
  ℕ, ◌≡◌, refl, sym, ap, ◌∙◌, Bool, true, false, not, any, Option, none, some, arith, ◌==◌, List,
  [], ◌∷◌, All, if_cases, if◌then◌else◌, subst,
}
use scratch_compositor.ExtWorkspace.{
  manager, Session, Message, send_state, send_done, send_output_enter, send_output_leave, Ext,
  then_do, then_do-some, send, send_states, send_done_to, indices, session_send_workspace_states,
  for_sessions, ext_workspace_notify, output_resource_for_client,
}
use scratch_compositor.ExtWorkspace.Safe.{HasSlot, Linked, Safe}
use scratch_compositor.ExtWorkspace.Opening.{Safe-sent}
use scratch_compositor.ExtWorkspace.Requests.{SafeResult}
use scratch_compositor.ExtWorkspace.Bind.{
  tell_group, client_of, tell_session, output_bind_notify, ext_workspace_on_output_new,
  ext_workspace_on_output_remove, without,
}

-- The step for one session only sends.
abbrev SendsOnly : (Session → Ext → Option Ext) → Type 0
SendsOnly f =
    (i : ℕ) (s : Session) (e : Ext)
    → Safe e
    → e.session_at i ≡ some s
    → HasSlot s manager
    → (l : List Message) × (f s e ≡ some (record e { sent = l }))

for_sessions-sent :
    (f : Session → Ext → Option Ext) (is : List ℕ) (e : Ext)
    → SendsOnly f
    → Safe e
    → All (Linked e) is
    → (l : List Message) × (for_sessions f is e ≡ some (record e { sent = l }))
unfolding for_sessions
for_sessions-sent f [] e only v linked = (e.sent, refl)
for_sessions-sent f (i ∷ is) e only v linked =
    let (s, here, flag, managed) = linked.0 in
    let (l, done) = only i s e v here managed in
    let (l', rest) =
      for_sessions-sent f is (record e { sent = l }) only (Safe-sent e l e.next (omega arith) v)
        linked.1 in
    (l', then_do-some (e.session_at i) s _ here ∙ then_do-some (f s e) _ _ done ∙ rest)

-- Such a loop over the sessions on the list reads no freed memory.
for_sessions-Safe :
    (f : Session → Ext → Option Ext) (e : Ext)
    → SendsOnly f
    → Safe e
    → SafeResult (for_sessions f e.sessions e)
for_sessions-Safe f e only v =
    let (l, done) = for_sessions-sent f e.sessions e only v v.linked in
    subst SafeResult (sym done) (Safe-sent e l e.next (omega arith) v)

send_states-sent :
    (s : Session) (current : ℕ) (is : List ℕ) (e : Ext)
    → (l : List Message) × (send_states s current is e ≡ record e { sent = l })
unfolding send_states
send_states-sent s current [] e = (e.sent, refl)
send_states-sent s current (i ∷ is) e =
    elim (s.handles i)
      as (λ o.
        (l : List Message) × ((elim o [
          | none ↦ send_states s current is e
          | some wsr ↦ send_states s current is (send (send_state wsr (current == i)) e)
        ])
          ≡ record e { sent = l })) [
            | none ↦ send_states-sent s current is e
            | some wsr ↦ send_states-sent s current is (send (send_state wsr (current == i)) e)
          ]

send_done_to-sent :
    (m : Option ℕ) (e : Ext) → (l : List Message) × (send_done_to m e ≡ record e { sent = l })
unfolding send_done_to
send_done_to-sent none e = (e.sent, refl)
send_done_to-sent (some m) e = (send_done m ∷ e.sent, refl)

session_send_workspace_states-sent :
    (current : ℕ) (s : Session) (e : Ext)
    → (l : List Message) × (session_send_workspace_states current s e ≡ record e { sent = l })
unfolding session_send_workspace_states
session_send_workspace_states-sent current s e =
    let (l, states) = send_states-sent s current indices e in
    let (l', done) = send_done_to-sent s.manager_slot (record e { sent = l }) in
    (l', ap (send_done_to s.manager_slot) states ∙ done)

-- A notification of the workspace.
pub ext_workspace_notify-Safe :
    (current : ℕ) (e : Ext) → Safe e → SafeResult (ext_workspace_notify current e)
unfolding ext_workspace_notify
ext_workspace_notify-Safe current e v =
    for_sessions-Safe _ e
      (λ i s e' v' here managed.
        let (l, done) = session_send_workspace_states-sent current s e' in (l, ap some done))
      v

tell_group-sent :
    (m : ℕ → ℕ → Message) (g r : Option ℕ) (e : Ext)
    → (l : List Message) × (tell_group m g r e ≡ record e { sent = l })
tell_group-sent m none r e = (e.sent, refl)
tell_group-sent m (some g) none e = (e.sent, refl)
tell_group-sent m (some g) (some r) e = (m g r ∷ e.sent, refl)

-- The manager of a session on the list is live, and so has a client.
client_of-some :
    (i : ℕ) (s : Session) (e : Ext)
    → Safe e
    → e.session_at i ≡ some s
    → HasSlot s manager
    → (c : ℕ) × (client_of s e ≡ some c)
client_of-some i s e v here (m, set) =
    let h = v.live i s manager m here tt set in
    (
      h.resource.client,
      then_do-some s.manager_slot m _ set ∙ then_do-some (e.resource_at m) h.resource _ h.there,
    )

tell_session-SendsOnly :
    (m : ℕ → ℕ → Message) (resources : List (ℕ × ℕ)) → SendsOnly (tell_session m resources)
unfolding tell_session
tell_session-SendsOnly m resources i s e v here managed =
    let (c, known) = client_of-some i s e v here managed in
    let (l, told) = tell_group-sent m s.group_slot (output_resource_for_client resources c) e in
    (l, then_do-some (client_of s e) c _ known ∙ ap some told)

tell_if-sent :
    (b : Bool) (m : ℕ → ℕ → Message) (g r : Option ℕ) (e : Ext)
    → (l : List Message) × ((if b then tell_group m g r e else e) ≡ record e { sent = l })
tell_if-sent true m g r e = tell_group-sent m g r e
tell_if-sent false m g r e = (e.sent, refl)

-- A client binds an output.
pub output_bind_notify-Safe :
    (resource client : ℕ) (e : Ext) → Safe e → SafeResult (output_bind_notify resource client e)
unfolding output_bind_notify
output_bind_notify-Safe resource client e v =
    for_sessions-Safe _ e
      (λ i s e' v' here managed.
        let (c, known) = client_of-some i s e' v' here managed in
        let (l, told) =
          tell_if-sent (c == client) send_output_enter s.group_slot (some resource) e' in
        (l, then_do-some (client_of s e') c _ known ∙ ap some told))
      v

-- The trackers of outputs are no memory of the sessions.
Safe-tracks : (e : Ext) (l : List ℕ) → Safe e → Safe (record e { output_tracks = l })
Safe-tracks e l v = record {
  own = λ k r h.
      let o = v.own k r h in
      record { owner = o.owner; allocated = o.allocated; points = o.points; role = o.role };
  live = λ i s r k h ok full.
      let m = v.live i s r k h ok full in
      record { resource = m.resource; there = m.there; session = m.session; role = m.role };
  linked = linked e.sessions v.linked;
  new_resource = v.new_resource;
  new_session = v.new_session;
}
  where
    linked : (js : List ℕ) → All (Linked e) js → All (Linked (record e { output_tracks = l })) js
    linked js h = h

-- A new output.
pub ext_workspace_on_output_new-Safe :
    (allocated : Bool) (out : ℕ) (resources : List (ℕ × ℕ)) (e : Ext)
    → Safe e
    → SafeResult (ext_workspace_on_output_new allocated out resources e)
unfolding ext_workspace_on_output_new
ext_workspace_on_output_new-Safe allocated out resources e v =
    if_cases SafeResult (not allocated) (some e) _ (λ h. v)
      (λ h.
        for_sessions-Safe _ (record e { output_tracks = out ∷ e.output_tracks })
          (tell_session-SendsOnly send_output_enter resources) (Safe-tracks e _ v))

Safe-then_tracks :
    (o : Option Ext) (f : List ℕ → List ℕ)
    → SafeResult o
    → SafeResult (then_do o (λ e. some (record e { output_tracks = f e.output_tracks })))
Safe-then_tracks none f h = h
Safe-then_tracks (some e) f v = Safe-tracks e _ v

-- An output that goes.
pub ext_workspace_on_output_remove-Safe :
    (out : ℕ) (resources : List (ℕ × ℕ)) (e : Ext)
    → Safe e
    → SafeResult (ext_workspace_on_output_remove out resources e)
unfolding ext_workspace_on_output_remove
ext_workspace_on_output_remove-Safe out resources e v =
    if_cases SafeResult (any (λ o. o == out) e.output_tracks) _ (some e)
      (λ h.
        Safe-then_tracks _ (without out)
          (for_sessions-Safe _ e (tell_session-SendsOnly send_output_leave resources) v))
      (λ h. v)
