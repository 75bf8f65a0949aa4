-- ===== src/ExtWorkspace/Bind.antt =====
-- src/ext_workspace.c: `ext_workspace_bind`, with `send_session_initial`, and the output trackers.
use scratch_compositor.Base.{
  ℕ, suc, ◌+◌, Bool, true, false, not, List, [], ◌∷◌, Option, none, some, ◌==◌, any, if◌then◌else◌,
}
use scratch_compositor.ExtWorkspace.{
  Role, manager, group, handle, Session, Resource, Message, send_workspace_group, send_workspace,
  send_output_enter, send_output_leave, send_group_capabilities, send_capabilities, send_id,
  send_name, send_coordinates, send_state, send_workspace_enter, send_done, post_no_memory, Ext,
  with_slot, set_session, set_resource, send, then_do, output_resource_for_client, indices,
  for_sessions, wl_resource_destroy,
}

-- What the allocations of a bind give: the session, the manager, the group, and for each workspace
-- its resource, its user data and its coordinate.
pub record Alloc : Type 0 where
  pub session : Bool
  pub manager_resource : Bool
  pub group_resource : Bool
  pub handle_resource : ℕ → Bool
  pub user_data : ℕ → Bool
  pub coordinate : ℕ → Bool

-- `wl_resource_create` and `wl_resource_set_implementation`: a new pointer and its resource.
abbrev pub create : Resource → Ext → Ext
create r e = record (set_resource e.next (some r) e) { next = suc e.next }

-- What a bind has come to: the memory, and whether `send_session_initial` returned true.
abbrev pub refused : ℕ → Ext → Ext × Bool
refused client e = (send (post_no_memory client) e, false)

-- `sess->manager = man`, `sess->group = grp` and `sess->handles[i] = wsr`.
abbrev pub point : ℕ → Role → ℕ → Ext → Option Ext
point sess role k e =
    then_do (e.session_at sess) (λ s. some (set_session sess (some (with_slot role (some k) s)) e))

abbrev pub part_of : ℕ → ℕ → Role → Resource
part_of client sess role = record { client = client; session = sess; role = role }

-- What a workspace's client is told before and after its coordinate is allocated.
abbrev pub name_handle : ℕ → ℕ → ℕ → Ext → Ext
name_handle man wsr i e =
    send (send_name wsr (i + 1)) (send (send_id wsr i) (send (send_workspace man wsr) e))

abbrev pub show_handle : ℕ → ℕ → ℕ → ℕ → Ext → Ext
show_handle current grp wsr i e = send (send_workspace_enter grp wsr) (
    send (send_capabilities wsr)
      (send (send_state wsr (current == i)) (send (send_coordinates wsr (i + 1)) e)))

-- The loop of `send_session_initial` over the workspaces.
unfoldable pub create_handles : Alloc → ℕ → ℕ → ℕ → ℕ → ℕ → List ℕ → Ext → Option (Ext × Bool)
create_handles a current client sess man grp [] e = some (e, true)
create_handles a current client sess man grp (i ∷ is) e =
    let wsr = e.next in
    let named = name_handle man wsr i (create (part_of client sess (handle i)) e) in
    let rest =
      then_do (point sess (handle i) wsr (show_handle current grp wsr i named))
        (create_handles a current client sess man grp is) in
    if not (a.handle_resource i)
    then some (refused client e)
    else if not (a.user_data i)
    then some (refused client (record e { next = suc e.next }))
    else if not (a.coordinate i)
    then some (refused client named)
    else rest

-- The loop over the outputs; an output is given by its resources.
unfoldable pub enter_outputs : ℕ → ℕ → List (List (ℕ × ℕ)) → Ext → Ext
unfolding output_resource_for_client
enter_outputs grp client [] e = e
enter_outputs grp client (o ∷ os) e = elim (output_resource_for_client o client) [
  | none ↦ enter_outputs grp client os e
  | some r ↦ enter_outputs grp client os (send (send_output_enter grp r) e)
]

-- `ext_workspace_manager_v1_send_done` and the return from `send_session_initial`.
abbrev pub end_burst : ℕ → Ext × Bool → Option (Ext × Bool)
end_burst man (e, true) = some (send (send_done man) e, true)
end_burst man (e, false) = some (e, false)

-- `send_session_initial`
unfoldable pub send_session_initial :
    Alloc → ℕ → List (List (ℕ × ℕ)) → ℕ → ℕ → ℕ → Ext → Option (Ext × Bool)
unfolding create_handles enter_outputs
send_session_initial a current outputs sess client man e =
    let grp = e.next in
    let made = create (part_of client sess group) e in
    let told = send (send_group_capabilities grp) (send (send_workspace_group man grp) made) in
    if not a.group_resource
    then some (refused client e)
    else then_do (point sess group grp told) (λ e'.
      then_do
        (create_handles a current client sess man grp indices (enter_outputs grp client outputs e'))
        (end_burst man))

abbrev pub fresh_session : Session
fresh_session = record {
  manager_slot = none;
  group_slot = none;
  handles = λ i. none;
  on_sessions_list = false;
}

-- What `ext_workspace_bind` does with the result: tear down, or put the session on the list.
unfoldable pub settle : ℕ → ℕ → Ext × Bool → Option Ext
unfolding wl_resource_destroy
settle sess man (e, false) = wl_resource_destroy man e
settle sess man (e, true) = then_do (e.session_at sess) (λ s. some (
    set_session sess (some (record s { on_sessions_list = true }))
      (record e { sessions = sess ∷ e.sessions })))

-- `ext_workspace_bind`
unfoldable pub ext_workspace_bind : Alloc → ℕ → List (List (ℕ × ℕ)) → ℕ → Ext → Option Ext
unfolding send_session_initial settle
ext_workspace_bind a current outputs client e =
    let sess = e.next in
    let e1 = record (set_session sess (some fresh_session) e) { next = suc e.next } in
    let man = e1.next in
    let e2 = create (part_of client sess manager) e1 in
    if not a.session
    then some (send (post_no_memory client) e)
    else if not a.manager_resource
    then some (send (post_no_memory client) (set_session sess none e1))
    else then_do (point sess manager man e2) (λ e3.
      then_do (send_session_initial a current outputs sess client man e3) (settle sess man))

-- The messages to one session about an output: entering, where it is given its resource there.
abbrev pub tell_group : (ℕ → ℕ → Message) → Option ℕ → Option ℕ → Ext → Ext
tell_group m (some g) (some r) e = send (m g r) e
tell_group m _ _ e = e

-- The client of a session's manager resource.
abbrev pub client_of : Session → Ext → Option ℕ
client_of s e = then_do s.manager_slot (λ m. then_do (e.resource_at m) (λ r. some r.client))

-- The body of the loops of `ext_workspace_on_output_new` and `ext_workspace_on_output_remove`.
unfoldable pub tell_session : (ℕ → ℕ → Message) → List (ℕ × ℕ) → Session → Ext → Option Ext
unfolding output_resource_for_client
tell_session m resources s e =
    then_do (client_of s e)
      (λ c. some (tell_group m s.group_slot (output_resource_for_client resources c) e))

-- `output_bind_notify`, for a new resource of a client.
unfoldable pub output_bind_notify : ℕ → ℕ → Ext → Option Ext
unfolding for_sessions
output_bind_notify resource client e =
    for_sessions
      (λ s e. then_do (client_of s e) (λ c.
        some
          (if c == client then tell_group send_output_enter s.group_slot (some resource) e else e)))
      e.sessions e

-- `ext_workspace_on_output_new`, given whether the tracker is allocated.
unfoldable pub ext_workspace_on_output_new : Bool → ℕ → List (ℕ × ℕ) → Ext → Option Ext
unfolding for_sessions tell_session
ext_workspace_on_output_new allocated out resources e =
    if not allocated
    then some e
    else for_sessions (tell_session send_output_enter resources) e.sessions
        (record e { output_tracks = out ∷ e.output_tracks })

-- The list without the first entry for an output.
abbrev pub without : ℕ → List ℕ → List ℕ
without out [] = []
without out (o ∷ os) = if o == out then os else o ∷ without out os

-- `ext_workspace_on_output_remove`
unfoldable pub ext_workspace_on_output_remove : ℕ → List (ℕ × ℕ) → Ext → Option Ext
unfolding for_sessions tell_session
ext_workspace_on_output_remove out resources e =
    if any (λ o. o == out) e.output_tracks
    then then_do (for_sessions (tell_session send_output_leave resources) e.sessions e)
        (λ e'. some (record e' { output_tracks = without out e'.output_tracks }))
    else some e

-- `output_track_destroy`, of one tracker.
unfoldable pub output_track_destroy : ℕ → Ext → Ext
output_track_destroy out e = record e { output_tracks = without out e.output_tracks }

-- `ext_workspace_init`, given whether the global is created.
unfoldable pub ext_workspace_init : Bool → Ext → Ext
ext_workspace_init created e = record e { global = created; sessions = []; output_tracks = [] }

-- `ext_workspace_fini`
unfoldable pub ext_workspace_fini : Ext → Ext
ext_workspace_fini e = record e { global = false; output_tracks = [] }
