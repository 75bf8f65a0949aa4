-- ===== src/ExtWorkspace/Requests.antt =====
-- About the requests on resources, and the messages to all sessions.
use scratch_compositor.Base.{ℕ, ◌≡◌, ◌≢◌, refl, sym, ap, ◌∙◌, Option, none, some, subst}
use scratch_compositor.ExtWorkspace.{
  Role, manager, group, handle, Resource, Ext, slot, set_session, set_resource, parts, then_do,
  then_do-some, unlink_session, manager_destroy, finalize, finalize_part, wl_resource_destroy,
  destroy_part,
}
use scratch_compositor.ExtWorkspace.Safe.{Safe}
use scratch_compositor.ExtWorkspace.Destroy.{destroy_part-Vacated, clear_slots-Emptied}
use scratch_compositor.ExtWorkspace.Manager.{unlink_session-Unlinked, parts-IsPart, Safe-free}

-- Every operation gives a result, in which the memory is safe again.
abbrev pub SafeResult : Option Ext → Type 0
SafeResult none = ⊥
SafeResult (some e) = Safe e

pub SafeResult-some : (o : Option Ext) (e : Ext) → o ≡ some e → Safe e → SafeResult o
SafeResult-some o e h v = subst SafeResult (sym h) v

finalize-manager :
    (e : Ext) (r : Resource) → r.role ≡ manager → finalize r e ≡ manager_destroy r.session e
unfolding finalize
finalize-manager e r is = rw is refl

finalize_manager :
    (e : Ext) (k : ℕ) (r : Resource)
    → Safe e
    → e.resource_at k ≡ some r
    → r.role ≡ manager
    → (e' : Ext) × (finalize r e ≡ some e') × Safe (set_resource k none e')
unfolding manager_destroy
finalize_manager e k r v there is =
    let i = r.session in
    let o = v.own k r there in
    let s = o.owner in
    let u = unlink_session-Unlinked e i s v o.allocated in
    let (e2, done, x) =
      clear_slots-Emptied (unlink_session i s e) i u.session parts u.safe u.after parts-IsPart in
    let managed : slot s manager ≡ some k = subst (λ q. slot s q ≡ some k) is o.points in
    (
      set_session i none e2,
      finalize-manager e r is
          ∙ then_do-some (e.session_at i) s _ o.allocated
          ∙ ap (λ w. then_do w (λ e'. some (set_session i none e'))) done,
      Safe-free e2 i x.session k x.safe x.after (x.flag ∙ u.flag)
          (x.manager_kept ∙ u.kept manager ∙ managed) x.empty,
    )

finalize-part :
    (e : Ext) (r : Resource) (role : Role)
    → r.role ≡ role
    → role ≢ manager
    → finalize r e ≡ finalize_part r e
unfolding finalize
finalize-part e r manager is other = absurd (other refl)
finalize-part e r group is other = rw is refl
finalize-part e r (handle i) is other = rw is refl

destroy_of_part :
    (e : Ext) (k : ℕ) (r : Resource)
    → Safe e
    → e.resource_at k ≡ some r
    → r.role ≢ manager
    → SafeResult (wl_resource_destroy k e)
unfolding wl_resource_destroy destroy_part
destroy_of_part e k r v there other =
    let (s, e', here, done, x) = destroy_part-Vacated e k r v there other in
    SafeResult-some (wl_resource_destroy k e) e'
      (then_do-some (e.resource_at k) r _ there
        ∙ ap (λ o. then_do o (λ e'. some (set_resource k none e')))
            (finalize-part e r r.role refl other)
        ∙ sym (then_do-some (e.resource_at k) r _ there)
        ∙ done)
      x.safe

destroy_as :
    (e : Ext) (k : ℕ) (r : Resource) (role : Role)
    → Safe e
    → e.resource_at k ≡ some r
    → r.role ≡ role
    → SafeResult (wl_resource_destroy k e)
unfolding wl_resource_destroy
destroy_as e k r manager v there is =
    let (e', done, safe) = finalize_manager e k r v there is in
    SafeResult-some (wl_resource_destroy k e) (set_resource k none e')
      (then_do-some (e.resource_at k) r _ there ∙ then_do-some (finalize r e) e' _ done) safe
destroy_as e k r group v there is = destroy_of_part e k r v there (λ m. cc (is, m))
destroy_as e k r (handle i) v there is = destroy_of_part e k r v there (λ m. cc (is, m))

-- Whatever live resource a client destroys.
pub wl_resource_destroy-Safe :
    (e : Ext) (k : ℕ) (r : Resource)
    → Safe e
    → e.resource_at k ≡ some r
    → SafeResult (wl_resource_destroy k e)
wl_resource_destroy-Safe e k r v there = destroy_as e k r r.role v there refl
