-- ===== src/ExtWorkspace/Burst.antt =====
-- About `send_session_initial` and `ext_workspace_bind` as a whole.
use scratch_compositor.Base.{
  ℕ, suc, ◌<◌, ◌≡◌, ◌≢◌, refl, sym, ap, ◌∙◌, Bool, true, false, not, Option, none, some, arith,
  List, [], ◌∷◌, All, All-mono, Apart, if_cases, subst, ℕ_discrete,
}
use scratch_compositor.Config.{workspace_count}
use scratch_compositor.ExtWorkspace.{
  Role, manager, group, handle, Session, Message, Ext, slot, put, with_slot, set_session, then_do,
  then_do-some, send, send_workspace_group, send_group_capabilities, indices,
  output_resource_for_client, send_output_enter,
}
use scratch_compositor.ExtWorkspace.Safe.{IsRole, HasSlot, Live, Linked, Safe}
use scratch_compositor.ExtWorkspace.Destroy.{put_at, put_other}
use scratch_compositor.ExtWorkspace.Bind.{
  Alloc, create, refused, point, part_of, create_handles, enter_outputs, end_burst,
  send_session_initial, fresh_session,
}
use scratch_compositor.ExtWorkspace.Opening.{
  Safe-sent, opened, Safe-opened, HasSlot-with_slot, Opened, Granted, HandlesOf,
  create_handles-Handles,
}

enter_outputs-sent :
    (grp client : ℕ) (os : List (List (ℕ × ℕ))) (e : Ext)
    → (l : List Message) × (enter_outputs grp client os e ≡ record e { sent = l })
unfolding enter_outputs
enter_outputs-sent grp client [] e = (e.sent, refl)
enter_outputs-sent grp client (o ∷ os) e =
    elim (output_resource_for_client o client)
      as (λ x.
        (l : List Message) × ((elim x [
          | none ↦ enter_outputs grp client os e
          | some r ↦ enter_outputs grp client os (send (send_output_enter grp r) e)
        ])
          ≡ record e { sent = l })) [
            | none ↦ enter_outputs-sent grp client os e
            | some r ↦ enter_outputs-sent grp client os (send (send_output_enter grp r) e)
          ]

-- What the initial burst leaves; where it succeeds, the group and all nine handles are set.
abbrev pub BurstOf : Alloc → ℕ → Session → Ext → Option (Ext × Bool) → Type 0
BurstOf a i s e none = ⊥
BurstOf a i s e (some (e', b)) =
    (x : Opened i s e e') × (Granted a → b ≡ true)
    × (b ≡ true → HasSlot x.session group × All (λ n. HasSlot x.session (handle n)) indices)

indices_apart : Apart (λ n m. m ≢ n) indices
indices_apart = ground arith

end_burst-BurstOf :
    (a : Alloc) (i man grp : ℕ) (s : Session) (e e1 : Ext) (o : Option (Ext × Bool))
    → e1.sessions ≡ e.sessions
    → HandlesOf a i (with_slot group (some grp) s) indices e1 o
    → BurstOf a i s e (then_do o (end_burst man))
end_burst-BurstOf a i man grp s e e1 none same h = h
end_burst-BurstOf a i man grp s e e1 (some (e', true)) same h =
    let x = h.opened_ in
    (
      record {
        session = x.session;
        safe = Safe-sent e' _ e'.next (omega arith) x.safe;
        after = x.after;
        managed = x.managed;
        still = λ r set. x.still r (HasSlot-with_slot group r grp s set);
        flag = x.flag;
        sessions = x.sessions ∙ same;
      },
      h.complete,
      λ done. (x.still group (grp, refl), h.filled refl),
    )
end_burst-BurstOf a i man grp s e e1 (some (e', false)) same h =
    let x = h.opened_ in
    (
      record {
        session = x.session;
        safe = x.safe;
        after = x.after;
        managed = x.managed;
        still = λ r set. x.still r (HasSlot-with_slot group r grp s set);
        flag = x.flag;
        sessions = x.sessions ∙ same;
      },
      h.complete,
      λ done. cc done,
    )

pub indices_small : All (λ n. n < workspace_count) indices
indices_small = ground arith

handles_unset :
    (s : Session) (is : List ℕ)
    → ((r : Role) → r ≢ manager → slot s r ≡ none)
    → All (λ n. s.handles n ≡ none) is
handles_unset s [] unset = tt
handles_unset s (n ∷ is) unset = (unset (handle n) (λ q. cc q), handles_unset s is unset)

pub send_session_initial-BurstOf :
    (a : Alloc) (current : ℕ) (outputs : List (List (ℕ × ℕ))) (i client man : ℕ) (s : Session)
    (e : Ext)
    → ((n : ℕ) → a.coordinate n ≡ true)
    → ((r : Role) → r ≢ manager → slot s r ≡ none)
    → Safe e
    → e.session_at i ≡ some s
    → BurstOf a i s e (send_session_initial a current outputs i client man e)
unfolding send_session_initial
send_session_initial-BurstOf a current outputs i client man s e coords unset v here =
    let grp = e.next in
    let told =
      send (send_group_capabilities grp)
        (send (send_workspace_group man grp) (create (part_of client i group) e)) in
    let s' = with_slot group (some grp) s in
    let e1 = opened client i s group told.sent e in
    let (l, entered) = enter_outputs-sent grp client outputs e1 in
    let e2 = record e1 { sent = l } in
    let safe =
      Safe-sent e1 l e1.next (omega arith)
        (Safe-opened client i s group told.sent e v here tt (unset group (λ q. cc q))) in
    let handles =
      create_handles-Handles a current client i man grp indices s' e2 coords indices_small
        indices_apart (handles_unset s indices unset) safe (put_at i (some s') e.session_at) in
    let P = BurstOf a i s e in
    if_cases P (not a.group_resource) (some (refused client e)) _
      (λ h. (
        record {
          session = s;
          safe = Safe-sent e _ e.next (omega arith) v;
          after = here;
          managed = refl;
          still = λ r set. set;
          flag = refl;
          sessions = refl;
        },
        λ g. cc (h, g.group_resource),
        λ done. cc done,
      ))
      (λ h.
        subst P
          (sym (
            then_do-some (point i group grp told) e1 _ (then_do-some (e.session_at i) s _ here)
            ∙ ap
                (λ x. then_do (create_handles a current client i man grp indices x) (end_burst man))
                entered))
          (end_burst-BurstOf a i man grp s e e2 _ refl handles))

-- A session is allocated, with no pointer set.
pub Safe-alloc :
    (e : Ext)
    → Safe e
    → Safe (record (set_session e.next (some fresh_session) e) { next = suc e.next })
Safe-alloc e v = record {
  own = λ k r h.
      let o = v.own k r h in
      let differ : r.session ≢ e.next =
        λ at. cc (o.allocated, v.new_session e.next (omega arith), at) in
      record {
        owner = o.owner;
        allocated =
            put_other e.next r.session (some fresh_session) e.session_at differ ∙ o.allocated;
        points = o.points;
        role = o.role;
      };
  live = live;
  linked = All-mono linked e.sessions v.linked;
  new_resource = λ k h. v.new_resource k (omega (arith, h));
  new_session = λ j h.
      put_other e.next j (some fresh_session) e.session_at (λ at. absurd (omega (arith, h, at)))
      ∙ v.new_session j (omega (arith, h));
}
  where
    no_slot : (r : Role) → slot fresh_session r ≡ none
    no_slot manager = refl
    no_slot group = refl
    no_slot (handle n) = refl

    linked :
        (j : ℕ)
        → Linked e j
        → Linked (record (set_session e.next (some fresh_session) e) { next = suc e.next }) j
    linked j (s, h, flag, set) =
        let differ : j ≢ e.next = λ at. cc (h, v.new_session e.next (omega arith), at) in
        (s, put_other e.next j (some fresh_session) e.session_at differ ∙ h, flag, set)

    live :
        (j : ℕ) (t : Session) (r : Role) (k : ℕ)
        → put e.next (some fresh_session) e.session_at j ≡ some t
        → IsRole r
        → slot t r ≡ some k
        → Live (record (set_session e.next (some fresh_session) e) { next = suc e.next }) j r k
    live j t r k there ok full = elim (ℕ_discrete j e.next) [
      | yes at ↦
          let this : fresh_session ≡ t =
            cc (put_at e.next (some fresh_session) e.session_at, there, at) in
          cc (no_slot r, ap (λ u. slot u r) this ∙ full)
      | no differ ↦
          let h =
            v.live j t r k
              (sym (put_other e.next j (some fresh_session) e.session_at differ) ∙ there) ok full in
          record { resource = h.resource; there = h.there; session = h.session; role = h.role }
    ]
