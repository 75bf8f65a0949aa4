-- ===== src/ExtWorkspace/Connect.antt =====
-- About `ext_workspace_bind` and the order of its steps.
use scratch_compositor.Base.{
  ℕ, suc, ◌≡◌, ◌≢◌, refl, sym, ap, ◌∙◌, Bool, true, false, not, Option, none, some, arith, List,
  ◌∷◌, All-mono, if_cases, subst, ℕ_discrete, fun_ext,
}
use scratch_compositor.ExtWorkspace.{
  Role, manager, group, handle, Session, Ext, slot, put, with_slot, set_session, then_do,
  then_do-some, send, post_no_memory,
}
use scratch_compositor.ExtWorkspace.Safe.{HasSlot, Linked, Safe}
use scratch_compositor.ExtWorkspace.Destroy.{put_at, put_other}
use scratch_compositor.ExtWorkspace.Manager.{Safe-relist, slot-flag}
use scratch_compositor.ExtWorkspace.Requests.{SafeResult, wl_resource_destroy-Safe}
use scratch_compositor.ExtWorkspace.Bind.{
  Alloc, create, point, part_of, fresh_session, settle, ext_workspace_bind,
}
use scratch_compositor.ExtWorkspace.Opening.{Safe-sent, opened, Safe-opened}
use scratch_compositor.ExtWorkspace.Burst.{Safe-alloc, BurstOf, send_session_initial-BurstOf}

-- A session comes on the list.
Linked-listed :
    (e : Ext) (i : ℕ) (s : Session)
    → HasSlot s manager
    → (j : ℕ) → Linked e j
    → Linked (set_session i (some (record s { on_sessions_list = true })) e) j
Linked-listed e i s managed j (t, h, flag, set) =
    let s' = record s { on_sessions_list = true } in
    elim (ℕ_discrete j i) [
      | yes at ↦ (
        s',
        ap (put i (some s') e.session_at) at ∙ put_at i (some s') e.session_at,
        refl,
        managed,
      )
      | no differ ↦ (t, put_other i j (some s') e.session_at differ ∙ h, flag, set)
    ]

settle-Safe :
    (a : Alloc) (i man : ℕ) (s : Session) (e : Ext) (o : Option (Ext × Bool))
    → slot s manager ≡ some man
    → BurstOf a i s e o
    → SafeResult (then_do o (settle i man))
unfolding settle
settle-Safe a i man s e none managed h = h
settle-Safe a i man s e (some (e', false)) managed (x, complete, full) =
    let m = x.safe.live i x.session manager man x.after tt (x.managed ∙ managed) in
    wl_resource_destroy-Safe e' man m.resource x.safe m.there
settle-Safe a i man s e (some (e', true)) managed (x, complete, full) =
    let s' = record x.session { on_sessions_list = true } in
    subst SafeResult (sym (then_do-some (e'.session_at i) x.session _ x.after)) (
      Safe-relist e' i x.session s' (i ∷ e'.sessions) x.safe x.after
        (λ r. slot-flag true r x.session)
        (
          (s', put_at i (some s') e'.session_at, refl, (man, x.managed ∙ managed)),
          All-mono (Linked-listed e' i x.session (man, x.managed ∙ managed)) e'.sessions
              x.safe.linked,
        ))

-- Memory that is allocated and freed again.
put_back :
    (i : ℕ) (s : Session) (f : ℕ → Option Session) → f i ≡ none → put i none (put i (some s) f) ≡ f
put_back i s f unused = fun_ext (λ j. elim (ℕ_discrete j i) [
  | yes at ↦
      ap (put i none (put i (some s) f)) at
      ∙ put_at i none (put i (some s) f)
      ∙ sym unused
      ∙ ap f (sym at)
  | no differ ↦ put_other i j none (put i (some s) f) differ ∙ put_other i j (some s) f differ
])

pub no_slot :
    (man : ℕ) (r : Role) → r ≢ manager → slot (with_slot manager (some man) fresh_session) r ≡ none
no_slot man manager other = absurd (other refl)
no_slot man group other = refl
no_slot man (handle n) other = refl

-- Where memory is safe and every coordinate is allocated, a client that binds the global leaves the
-- memory safe: no freed memory is read, and no live resource is left without its session, whichever
-- other allocation fails.
pub ext_workspace_bind-Safe :
    (a : Alloc) (current : ℕ) (outputs : List (List (ℕ × ℕ))) (client : ℕ) (e : Ext)
    → ((n : ℕ) → a.coordinate n ≡ true)
    → Safe e
    → SafeResult (ext_workspace_bind a current outputs client e)
unfolding ext_workspace_bind
ext_workspace_bind-Safe a current outputs client e coords v =
    let sess = e.next in
    let e1 = record (set_session sess (some fresh_session) e) { next = suc e.next } in
    let man = e1.next in
    let v1 = Safe-alloc e v in
    let here = put_at sess (some fresh_session) e.session_at in
    let s = with_slot manager (some man) fresh_session in
    let e3 = opened client sess fresh_session manager e1.sent e1 in
    let v3 = Safe-opened client sess fresh_session manager e1.sent e1 v1 here tt refl in
    let P = SafeResult in
    if_cases P (not a.session) (some (send (post_no_memory client) e)) _
      (λ h. Safe-sent e _ e.next (omega arith) v)
      (λ h.
        if_cases P (not a.manager_resource)
          (some (send (post_no_memory client) (set_session sess none e1))) _
          (λ h.
            subst
              (λ f. Safe (record e {
                session_at = f;
                next = suc e.next;
                sent = post_no_memory client ∷ e.sent;
              }))
              (sym (put_back sess fresh_session e.session_at (v.new_session sess (omega arith))))
              (Safe-sent e _ (suc e.next) (omega arith) v))
          (λ h.
            subst P
              (sym (
                then_do-some (point sess manager man (create (part_of client sess manager) e1)) e3 _
                  (then_do-some (put sess (some fresh_session) e.session_at sess) fresh_session _
                    here)))
              (settle-Safe a sess man s e3 _ refl (
                send_session_initial-BurstOf a current outputs sess client man s e3 coords
                  (no_slot man) v3
                  (put_at sess (some s) (put sess (some fresh_session) e.session_at))))))
