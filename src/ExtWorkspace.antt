-- ===== src/ExtWorkspace.antt =====
-- src/ext_workspace.c: the sessions of ext-workspace-v1, their resources, and the messages that
-- clients are sent. A pointer is a number; a table gives `none` for memory that is not allocated,
-- so that an operation that would read freed memory gives `none`.
pub mod Bind
pub mod Safe
pub mod Change
pub mod Destroy
pub mod Manager
pub mod Requests
pub mod Opening
pub mod Burst
pub mod Connect
pub mod Joined
pub mod Notify
pub mod Reach
use scratch_compositor.Base.{
  ℕ, suc, ◌+◌, Bool, true, false, not, ◌&&◌, List, [], ◌∷◌, ◌++◌, map, Option, none, some, ◌==◌,
  ltb, keep, ◌≡◌, ap, if◌then◌else◌,
}
use scratch_compositor.Base.Int.{pos}
use scratch_compositor.Config.{workspace_count}
use scratch_compositor.Server.{Server}
use scratch_compositor.Workspace.{server_workspace_go}

-- The pointers that a session keeps to its resources.
pub data Role : Type 0 where
  manager group : Role
  handle : ℕ → Role

-- `struct comp_ext_workspace_session`; NULL is `none`, and `handles` is the array.
pub record Session : Type 0 where
  pub manager_slot : Option ℕ
  pub group_slot : Option ℕ
  pub handles : ℕ → Option ℕ
  pub on_sessions_list : Bool

-- A live resource: its client and its user data, the session and, for a handle, the index.
pub record Resource : Type 0 where
  pub client : ℕ
  pub session : ℕ
  pub role : Role

pub data Message : Type 0 where
  send_workspace_group send_workspace : ℕ → ℕ → Message
  send_output_enter send_output_leave : ℕ → ℕ → Message
  send_group_capabilities send_capabilities : ℕ → Message
  send_id send_name send_coordinates : ℕ → ℕ → Message
  send_state : ℕ → Bool → Message
  send_workspace_enter : ℕ → ℕ → Message
  send_done send_finished : ℕ → Message
  post_no_memory : ℕ → Message

-- The statics of the file, what is allocated, and what has been sent, newest first.
pub record Ext : Type 0 where
  pub global : Bool
  pub sessions : List ℕ
  pub output_tracks : List ℕ
  pub session_at : ℕ → Option Session
  pub resource_at : ℕ → Option Resource
  pub next : ℕ
  pub sent : List Message

-- A session's pointer for a role, and the session with another one.
abbrev pub slot : Session → Role → Option ℕ
slot s manager = s.manager_slot
slot s group = s.group_slot
slot s (handle i) = s.handles i

-- A table with another entry.
abbrev pub put {ℓ} : {A : Type ℓ} → ℕ → A → (ℕ → A) → ℕ → A
put i v f j = if j == i then v else f j

abbrev pub with_slot : Role → Option ℕ → Session → Session
with_slot manager v s = record s { manager_slot = v }
with_slot group v s = record s { group_slot = v }
with_slot (handle i) v s = record s { handles = put i v s.handles }

abbrev pub set_session : ℕ → Option Session → Ext → Ext
set_session i v e = record e { session_at = put i v e.session_at }

abbrev pub set_resource : ℕ → Option Resource → Ext → Ext
set_resource k v e = record e { resource_at = put k v e.resource_at }

abbrev pub send : Message → Ext → Ext
send m e = record e { sent = m ∷ e.sent }

-- The next step of a computation that may have read freed memory.
abbrev pub then_do {ℓ κ} : {A : Type ℓ} {B : Type κ} → Option A → (A → Option B) → Option B
then_do none f = none
then_do (some a) f = f a

pub then_do-some {ℓ κ} :
    {A : Type ℓ} {B : Type κ} (o : Option A) (a : A) (f : A → Option B)
    → o ≡ some a
    → then_do o f ≡ f a
then_do-some o a f e = ap (λ x. then_do x f) e

-- `output_resource_for_client`, given the output's resources with their clients.
unfoldable pub output_resource_for_client : List (ℕ × ℕ) → ℕ → Option ℕ
output_resource_for_client [] c = none
output_resource_for_client ((r, owner) ∷ rs) c =
    if owner == c then some r else output_resource_for_client rs c

-- The loop of `session_send_workspace_states` over the handles.
unfoldable pub send_states : Session → ℕ → List ℕ → Ext → Ext
send_states s current [] e = e
send_states s current (i ∷ is) e = elim (s.handles i) [
  | none ↦ send_states s current is e
  | some wsr ↦ send_states s current is (send (send_state wsr (current == i)) e)
]

-- The indices of the workspaces, in the order of the loops.
abbrev pub indices : List ℕ
indices = 0 ∷ 1 ∷ 2 ∷ 3 ∷ 4 ∷ 5 ∷ 6 ∷ 7 ∷ 8 ∷ []

unfoldable pub send_done_to : Option ℕ → Ext → Ext
send_done_to none e = e
send_done_to (some m) e = send (send_done m) e

-- `session_send_workspace_states`
unfoldable pub session_send_workspace_states : ℕ → Session → Ext → Ext
unfolding send_states send_done_to
session_send_workspace_states current s e =
    send_done_to s.manager_slot (send_states s current indices e)

-- `wl_list_for_each` over the sessions of a list, each read when its turn comes.
unfoldable pub for_sessions : (Session → Ext → Option Ext) → List ℕ → Ext → Option Ext
for_sessions f [] e = some e
for_sessions f (i ∷ is) e =
    then_do (e.session_at i) (λ s. then_do (f s e) (λ e'. for_sessions f is e'))

-- `ext_workspace_notify`
unfoldable pub ext_workspace_notify : ℕ → Ext → Option Ext
unfolding for_sessions session_send_workspace_states
ext_workspace_notify current e =
    for_sessions (λ s e. some (session_send_workspace_states current s e)) e.sessions e

-- `handle_resource_destroy` and `group_resource_destroy`, on the user data.
unfoldable pub handle_resource_destroy : ℕ → ℕ → Ext → Option Ext
handle_resource_destroy session index e = then_do (e.session_at session) (λ s. some (
    if ltb index workspace_count
    then set_session session (some (with_slot (handle index) none s)) e
    else e))

unfoldable pub group_resource_destroy : ℕ → Ext → Option Ext
group_resource_destroy session e =
    then_do (e.session_at session)
      (λ s. some (set_session session (some (with_slot group none s)) e))

-- `wl_resource_destroy` of a handle or of a group: its finalizer runs, then it is gone.
unfoldable pub finalize_part : Resource → Ext → Option Ext
unfolding handle_resource_destroy group_resource_destroy
finalize_part r e = elim r.role [
  | manager ↦ none
  | group ↦ group_resource_destroy r.session e
  | handle i ↦ handle_resource_destroy r.session i e
]

unfoldable pub destroy_part : ℕ → Ext → Option Ext
unfolding finalize_part
destroy_part k e =
    then_do (e.resource_at k)
      (λ r. then_do (finalize_part r e) (λ e'. some (set_resource k none e')))

-- `if (slot) { wl_resource_destroy(slot); slot = NULL; }`
unfoldable pub clear_pointer : ℕ → Role → Option ℕ → Ext → Option Ext
unfolding destroy_part
clear_pointer session role none e = some e
clear_pointer session role (some k) e = then_do (destroy_part k e) (λ e'.
    then_do (e'.session_at session)
      (λ s'. some (set_session session (some (with_slot role none s')) e')))

unfoldable pub clear_slot : ℕ → Role → Ext → Option Ext
unfolding clear_pointer
clear_slot session role e =
    then_do (e.session_at session) (λ s. clear_pointer session role (slot s role) e)

unfoldable pub clear_slots : ℕ → List Role → Ext → Option Ext
unfolding clear_slot
clear_slots session [] e = some e
clear_slots session (r ∷ rs) e = then_do (clear_slot session r e) (λ e'. clear_slots session rs e')

-- A session's resources but the manager, in the order of `manager_destroy`.
abbrev pub parts : List Role
parts = map handle indices ++ group ∷ []

unfoldable pub unlink_session : ℕ → Session → Ext → Ext
unlink_session i s e =
    if s.on_sessions_list
    then set_session i (some (record s { on_sessions_list = false }))
        (record e { sessions = keep (λ j. not (j == i)) e.sessions })
    else e

-- `manager_destroy`, on the user data.
unfoldable pub manager_destroy : ℕ → Ext → Option Ext
unfolding clear_slots unlink_session
manager_destroy session e = then_do (e.session_at session) (λ s.
    then_do (clear_slots session parts (unlink_session session s e))
      (λ e'. some (set_session session none e')))

-- `wl_resource_destroy`
unfoldable pub finalize : Resource → Ext → Option Ext
unfolding manager_destroy finalize_part
finalize r e = elim r.role [ manager ↦ manager_destroy r.session e | _ ↦ finalize_part r e ]

unfoldable pub wl_resource_destroy : ℕ → Ext → Option Ext
unfolding finalize
wl_resource_destroy k e =
    then_do (e.resource_at k) (λ r. then_do (finalize r e) (λ e'. some (set_resource k none e')))

-- `manager_stop`
unfoldable pub manager_stop : ℕ → Ext → Option Ext
unfolding wl_resource_destroy
manager_stop k e = wl_resource_destroy k (send (send_finished k) e)

-- `handle_activate`
unfoldable pub activate_index : Role → Server → Server
activate_index (handle i) srv = server_workspace_go srv (pos i)
activate_index _ srv = srv

unfoldable pub handle_activate : ℕ → Ext → Server → Option Server
unfolding activate_index
handle_activate k e srv =
    then_do (e.resource_at k)
      (λ r. then_do (e.session_at r.session) (λ s. some (activate_index r.role srv)))
