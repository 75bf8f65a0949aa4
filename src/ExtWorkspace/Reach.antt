-- ===== src/ExtWorkspace/Reach.antt =====
-- About all that clients and outputs make the protocol do, in any order.
use scratch_compositor.Base.{ℕ, ◌≡◌, refl, Bool, true, false, Option, none, some, List, [], arith}
use scratch_compositor.ExtWorkspace.{
  Resource, Ext, wl_resource_destroy, manager_stop, ext_workspace_notify, send, send_finished,
}
use scratch_compositor.ExtWorkspace.Safe.{Safe}
use scratch_compositor.ExtWorkspace.Opening.{Safe-sent}
use scratch_compositor.ExtWorkspace.Requests.{SafeResult, wl_resource_destroy-Safe}
use scratch_compositor.ExtWorkspace.Connect.{ext_workspace_bind-Safe}
use scratch_compositor.ExtWorkspace.Notify.{
  ext_workspace_notify-Safe, output_bind_notify-Safe, ext_workspace_on_output_new-Safe,
  ext_workspace_on_output_remove-Safe,
}
use scratch_compositor.ExtWorkspace.Bind.{
  Alloc, ext_workspace_bind, output_bind_notify, ext_workspace_on_output_new,
  ext_workspace_on_output_remove, ext_workspace_init,
}

-- Before the compositor starts.
abbrev pub nothing : Ext
nothing = record {
  global = false;
  sessions = [];
  output_tracks = [];
  session_at = λ i. none;
  resource_at = λ k. none;
  next = 0;
  sent = [];
}

-- What the code does for one event, where every coordinate of a bind is allocated: the outcome is
-- the memory, or `none` where it reads freed memory.
pub data Step (e : Ext) : Option Ext → Type 0 where
  bind :
      (a : Alloc) (current : ℕ) (outputs : List (List (ℕ × ℕ))) (client : ℕ)
      → ((n : ℕ) → a.coordinate n ≡ true)
      → Step e (ext_workspace_bind a current outputs client e)
  destroy : (k : ℕ) (r : Resource) → e.resource_at k ≡ some r → Step e (wl_resource_destroy k e)
  stop : (k : ℕ) (r : Resource) → e.resource_at k ≡ some r → Step e (manager_stop k e)
  notify : (current : ℕ) → Step e (ext_workspace_notify current e)
  bind_output : (resource client : ℕ) → Step e (output_bind_notify resource client e)
  new_output :
      (allocated : Bool) (out : ℕ) (resources : List (ℕ × ℕ))
      → Step e (ext_workspace_on_output_new allocated out resources e)
  remove_output :
      (out : ℕ) (resources : List (ℕ × ℕ)) → Step e (ext_workspace_on_output_remove out resources e)

pub data Reach : Ext → Type 0 where
  start : (created : Bool) → Reach (ext_workspace_init created nothing)
  later : {e e' : Ext} → Reach e → Step e (some e') → Reach e'

nothing-Safe : (created : Bool) → Safe (ext_workspace_init created nothing)
unfolding ext_workspace_init
nothing-Safe created = record {
  own = λ k r h. cc h;
  live = λ i s r k h ok full. cc h;
  linked = tt;
  new_resource = λ k h. refl;
  new_session = λ i h. refl;
}

manager_stop-Safe :
    (e : Ext) (k : ℕ) (r : Resource)
    → Safe e
    → e.resource_at k ≡ some r
    → SafeResult (manager_stop k e)
unfolding manager_stop
manager_stop-Safe e k r v there =
    wl_resource_destroy-Safe (send (send_finished k) e) k r (Safe-sent e _ e.next (omega arith) v)
      there

Step-Safe : (e : Ext) (o : Option Ext) → Safe e → Step e o → SafeResult o
Step-Safe e _ v (bind a current outputs client coords) =
    ext_workspace_bind-Safe a current outputs client e coords v
Step-Safe e _ v (destroy k r there) = wl_resource_destroy-Safe e k r v there
Step-Safe e _ v (stop k r there) = manager_stop-Safe e k r v there
Step-Safe e _ v (notify current) = ext_workspace_notify-Safe current e v
Step-Safe e _ v (bind_output resource client) = output_bind_notify-Safe resource client e v
Step-Safe e _ v (new_output allocated out resources) =
    ext_workspace_on_output_new-Safe allocated out resources e v
Step-Safe e _ v (remove_output out resources) =
    ext_workspace_on_output_remove-Safe out resources e v

pub Reach-Safe : {e : Ext} → Reach e → Safe e
Reach-Safe (start created) = nothing-Safe created
Reach-Safe (later {e} {e'} r st) = Step-Safe e (some e') (Reach-Safe r) st

-- Whatever clients and outputs have done since the start, in any order, the next event reads no
-- freed memory, as long as each bind could allocate its coordinates; and in the memory that it
-- leaves every live resource has its session, and every session on the list its manager.
pub Reach-Step-Safe : {e : Ext} (o : Option Ext) → Reach e → Step e o → SafeResult o
Reach-Step-Safe {e} o r st = Step-Safe e o (Reach-Safe r) st
