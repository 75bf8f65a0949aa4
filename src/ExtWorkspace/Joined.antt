-- ===== src/ExtWorkspace/Joined.antt =====
-- About a bind whose allocations all succeed.
use scratch_compositor.Base.{
  ℕ, zero, suc, ◌<◌, ◌≡◌, refl, sym, ap, Bool, true, false, Option, none, some, arith, List, [],
  ◌∷◌, All, subst,
}
use scratch_compositor.Config.{workspace_count}
use scratch_compositor.ExtWorkspace.{
  manager, group, handle, Session, Ext, put, with_slot, then_do, then_do-some, indices, set_session,
}
use scratch_compositor.ExtWorkspace.Safe.{HasSlot, Live, Safe}
use scratch_compositor.ExtWorkspace.Destroy.{put_at}
use scratch_compositor.ExtWorkspace.Requests.{SafeResult}
use scratch_compositor.ExtWorkspace.Bind.{
  Alloc, create, point, part_of, send_session_initial, fresh_session, settle, ext_workspace_bind,
}
use scratch_compositor.ExtWorkspace.Opening.{opened, Safe-opened, Granted}
use scratch_compositor.ExtWorkspace.Burst.{Safe-alloc, BurstOf, send_session_initial-BurstOf}
use scratch_compositor.ExtWorkspace.Connect.{ext_workspace_bind-Safe, no_slot}

-- A session on top of the list, with its group and all its handles.
record Listed (i : ℕ) (l : List ℕ) (e : Ext) : Type 0 where
  session : Session
  there : e.session_at i ≡ some session
  on_list : e.sessions ≡ i ∷ l
  marked : session.on_sessions_list ≡ true
  has_group : HasSlot session group
  has_handles : All (λ n. HasSlot session (handle n)) indices

abbrev ListedResult : ℕ → List ℕ → Option Ext → Type 0
ListedResult i l none = ⊥
ListedResult i l (some e) = Listed i l e

handles-flag :
    (b : Bool) (s : Session) (is : List ℕ)
    → All (λ n. HasSlot s (handle n)) is
    → All (λ n. HasSlot (record s { on_sessions_list = b }) (handle n)) is
handles-flag b s [] h = tt
handles-flag b s (n ∷ is) h = (h.0, handles-flag b s is h.1)

settle-Listed :
    (a : Alloc) (i man : ℕ) (s : Session) (e : Ext) (o : Option (Ext × Bool))
    → Granted a
    → BurstOf a i s e o
    → ListedResult i e.sessions (then_do o (settle i man))
unfolding settle
settle-Listed a i man s e none g h = h
settle-Listed a i man s e (some (e', false)) g (x, complete, full) = cc (complete g)
settle-Listed a i man s e (some (e', true)) g (x, complete, full) =
    let s' = record x.session { on_sessions_list = true } in
    subst (ListedResult i e.sessions) (sym (then_do-some (e'.session_at i) x.session _ x.after))
      (record {
        session = s';
        there = put_at i (some s') e'.session_at;
        on_list = ap (λ l. i ∷ l) x.sessions;
        marked = refl;
        has_group = (full refl).0;
        has_handles = handles-flag true x.session indices (full refl).1;
      })

-- What a client gets: a listed session, a live group, and for every workspace a live handle of it.
pub record Joined (i : ℕ) (l : List ℕ) (e : Ext) : Type 0 where
  pub session : Session
  pub there : e.session_at i ≡ some session
  pub on_list : e.sessions ≡ i ∷ l
  pub marked : session.on_sessions_list ≡ true
  pub live_group : (k : ℕ) × Live e i group k
  pub live_handles :
      (n : ℕ) → n < workspace_count → (k : ℕ) × (session.handles n ≡ some k) × Live e i (handle n) k

handle_set :
    (s : Session) (n : ℕ)
    → n < workspace_count
    → All (λ n. HasSlot s (handle n)) indices
    → HasSlot s (handle n)
handle_set s zero lt h = h.0
handle_set s (suc zero) lt h = h.1.0
handle_set s (suc (suc zero)) lt h = h.1.1.0
handle_set s (suc (suc (suc zero))) lt h = h.1.1.1.0
handle_set s (suc (suc (suc (suc zero)))) lt h = h.1.1.1.1.0
handle_set s (suc (suc (suc (suc (suc zero))))) lt h = h.1.1.1.1.1.0
handle_set s (suc (suc (suc (suc (suc (suc zero)))))) lt h = h.1.1.1.1.1.1.0
handle_set s (suc (suc (suc (suc (suc (suc (suc zero))))))) lt h = h.1.1.1.1.1.1.1.0
handle_set s (suc (suc (suc (suc (suc (suc (suc (suc zero)))))))) lt h = h.1.1.1.1.1.1.1.1.0
handle_set s (suc (suc (suc (suc (suc (suc (suc (suc (suc n))))))))) lt h =
    absurd (omega (arith, lt))

Joined-Listed : (i : ℕ) (l : List ℕ) (e : Ext) → Safe e → Listed i l e → Joined i l e
Joined-Listed i l e v x = record {
  session = x.session;
  there = x.there;
  on_list = x.on_list;
  marked = x.marked;
  live_group = let (k, set) = x.has_group in (k, v.live i x.session group k x.there tt set);
  live_handles = λ n lt.
      let (k, set) = handle_set x.session n lt x.has_handles in
      (k, set, v.live i x.session (handle n) k x.there lt set);
}

JoinedResult :
    (i : ℕ) (l : List ℕ) (o : Option Ext)
    → SafeResult o
    → ListedResult i l o
    → (e' : Ext) × (o ≡ some e') × Joined i l e'
JoinedResult i l none v h = absurd h
JoinedResult i l (some e) v h = (e, refl, Joined-Listed i l e v h)

-- Where memory is safe and all allocations succeed, a bind puts the new session first on the list;
-- its group is live, and each of the nine workspaces has a live handle in the session.
pub ext_workspace_bind-Joined :
    (a : Alloc) (current : ℕ) (outputs : List (List (ℕ × ℕ))) (client : ℕ) (e : Ext)
    → Granted a
    → ((n : ℕ) → a.coordinate n ≡ true)
    → Safe e
    → (e' : Ext) × (ext_workspace_bind a current outputs client e ≡ some e')
      × Joined e.next e.sessions e'
unfolding ext_workspace_bind
ext_workspace_bind-Joined a current outputs client e g coords v =
    let sess = e.next in
    let e1 = record (set_session sess (some fresh_session) e) { next = suc e.next } in
    let man = e1.next in
    let here = put_at sess (some fresh_session) e.session_at in
    let s = with_slot manager (some man) fresh_session in
    let e3 = opened client sess fresh_session manager e1.sent e1 in
    let v3 =
      Safe-opened client sess fresh_session manager e1.sent e1 (Safe-alloc e v) here tt refl in
    let made =
      then_do-some (point sess manager man (create (part_of client sess manager) e1)) e3
        (λ e'.
          then_do (send_session_initial a current outputs sess client man e') (settle sess man))
        (then_do-some (put sess (some fresh_session) e.session_at sess) fresh_session _ here) in
    let burst =
      send_session_initial-BurstOf a current outputs sess client man s e3 coords (no_slot man) v3
        (put_at sess (some s) (put sess (some fresh_session) e.session_at)) in
    JoinedResult sess e.sessions (ext_workspace_bind a current outputs client e)
      (ext_workspace_bind-Safe a current outputs client e coords v)
      (rw (g.session, g.manager_resource, made) (settle-Listed a sess man s e3 _ g burst))
