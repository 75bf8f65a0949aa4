-- ===== src/Tests/Protocol.antt =====
-- Runs of the ext-workspace protocol: a client that connects, activates a workspace and leaves, and
-- one whose connection fails.
use scratch_compositor.Base.{◌≡◌, refl, true, false, [], Option, none, some}
use scratch_compositor.Server.{Server}
use scratch_compositor.ExtWorkspace.{
  handle, Resource, Ext, wl_resource_destroy, handle_activate, finalize, manager_destroy,
  finalize_part, handle_resource_destroy, group_resource_destroy, clear_slots, clear_slot,
  clear_pointer, destroy_part, unlink_session,
}
use scratch_compositor.ExtWorkspace.Safe.{Safe}
use scratch_compositor.ExtWorkspace.Requests.{SafeResult}
use scratch_compositor.ExtWorkspace.Opening.{Granted}
use scratch_compositor.ExtWorkspace.Bind.{
  Alloc, ext_workspace_bind, ext_workspace_init, send_session_initial, create_handles,
  enter_outputs, settle,
}
use scratch_compositor.ExtWorkspace.Joined.{Joined, ext_workspace_bind-Joined}
use scratch_compositor.ExtWorkspace.Reach.{
  nothing, Reach, start, later, bind, Reach-Safe, Reach-Step-Safe,
}
use scratch_compositor.Invariant.Defs.{Inv}
use scratch_compositor.Invariant.Current.{handle_activate-Inv}
use scratch_compositor.Tests.Windows.{here, here-Inv}

abbrev plenty : Alloc
plenty = record {
  session = true;
  manager_resource = true;
  group_resource = true;
  handle_resource = λ n. true;
  user_data = λ n. true;
  coordinate = λ n. true;
}

plenty-Granted : Granted plenty
plenty-Granted = record {
  session = refl;
  manager_resource = refl;
  group_resource = refl;
  handle_resource = λ n. refl;
  user_data = λ n. refl;
}

abbrev initial : Ext
initial = ext_workspace_init true nothing

initial-Safe : Safe initial
initial-Safe = Reach-Safe (start true)

ext_workspace_bind-Joined_example :
    (e' : Ext) × (ext_workspace_bind plenty 2 [] 5 initial ≡ some e')
    × Joined initial.next initial.sessions e'
ext_workspace_bind-Joined_example =
    ext_workspace_bind-Joined plenty 2 [] 5 initial plenty-Granted (λ n. refl) initial-Safe

Reach-Step-Safe_example : SafeResult (ext_workspace_bind plenty 2 [] 5 initial)
Reach-Step-Safe_example =
    Reach-Step-Safe (ext_workspace_bind plenty 2 [] 5 initial) (start true)
      (bind plenty 2 [] 5 (λ n. refl))

-- The memory after the first client has connected, and a default where there is none.
abbrev or_initial : Option Ext → Ext
or_initial none = initial
or_initial (some e) = e

abbrev connected : Ext
connected = or_initial (ext_workspace_bind plenty 2 [] 5 initial)

connected-Reach : Reach connected
unfolding ext_workspace_init ext_workspace_bind send_session_initial create_handles enter_outputs
    settle
connected-Reach = later (start true) (bind plenty 2 [] 5 (λ n. refl))

abbrev fourth_handle : Resource
fourth_handle = record { client = 5; session = 0; role = handle 3 }

handle_activate-Inv_example :
    (s' : Server) × (handle_activate 6 connected here ≡ some s')
    × (s'.current_workspace ≡ 3)
    × Inv s'
unfolding ext_workspace_init ext_workspace_bind send_session_initial create_handles enter_outputs
    settle
handle_activate-Inv_example =
    handle_activate-Inv connected 6 fourth_handle 3 here (Reach-Safe connected-Reach) refl refl
      here-Inv

-- A client whose first coordinate is not allocated: its session is freed, and its first handle stays
-- behind, so that the end of that handle reads freed memory.
abbrev short_of_memory : Alloc
short_of_memory = record plenty { coordinate = λ n. false }

abbrev failed : Ext
failed = or_initial (ext_workspace_bind short_of_memory 2 [] 5 initial)

handle_left_behind :
    (failed.session_at 0 ≡ none)
    × (failed.resource_at 3 ≡ some (record { client = 5; session = 0; role = handle 0 }))
    × (wl_resource_destroy 3 failed ≡ none)
unfolding ext_workspace_init ext_workspace_bind send_session_initial create_handles enter_outputs
    settle wl_resource_destroy finalize manager_destroy finalize_part handle_resource_destroy
    group_resource_destroy clear_slots clear_slot clear_pointer destroy_part unlink_session
handle_left_behind = (refl, refl, refl)
