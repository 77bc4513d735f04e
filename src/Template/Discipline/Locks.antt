-- ===== src/Template/Discipline/Locks.antt =====
-- The lock of the MRT controller, which drops a handler's error for that of the release.
use quorum_based_manifests_g.Common.{String, Result, ok, err}
use quorum_based_manifests_g.Api.Template.{ActionState, RevisionState}
use quorum_based_manifests_g.Kube.{CtrlResult, no_requeue, requeue_now}
use quorum_based_manifests_g.Exec.{Triple, both, Triple-bind, Triple-pure, Triple-both}
use quorum_based_manifests_g.Controller.{modify, status_update}
use quorum_based_manifests_g.Controller.Lock.{release_lock_with_failure}
use quorum_based_manifests_g.Controller.Triples.{
  HostLaws, Free, Released, status_update-Free, modify-Free,
}
use quorum_based_manifests_g.Controller.Keeps.{Reading}
use quorum_based_manifests_g.Controller.Discipline
use quorum_based_manifests_g.Controller.Discipline.{
  Working, release_failure_lem, release_and_lem, under_lock_lem,
}
use quorum_based_manifests_g.Template.World.{World, Action, host}
use quorum_based_manifests_g.Template.Locking.{
  set_revision_state, swallow, finish, with_lock, finish_revision, after_revision_handler,
  with_revision_lock,
}
use quorum_based_manifests_g.Template.Discipline.Handlers.{Permit}

module _ (w : World) (laws : HostLaws (host w)) where
  abbrev Frees : Action w CtrlResult → Type 0
  Frees m = Triple (Free (host w) Permit) m (λ _. Released (host w) Permit) (Free (host w) Permit)

  swallow_lem : (state : ActionState) (cause : String) → Frees (swallow w state cause)
  unfolding swallow
  swallow_lem state cause =
      Triple-bind (release_lock_with_failure (host w) state cause) _
        (release_failure_lem (host w) Permit laws state cause) λ _. Triple-pure no_requeue

  finish_lem : (state : ActionState) (next : Result ActionState) → Frees (finish w state next)
  unfolding finish
  finish_lem state (ok next) = release_and_lem (host w) Permit laws requeue_now next
  finish_lem state (err e) = swallow_lem state e

  pub with_lock_lem :
      (state : ActionState) (message : String) (handler : Action w ActionState)
      → Working (host w) Permit handler
      → Reading (host w) Permit (with_lock w state message handler)
  unfolding with_lock
  with_lock_lem state message handler t =
      under_lock_lem (host w) Permit laws state message _
        (Triple-bind (both handler) (finish w state) (Triple-both handler t) (finish_lem state))

  finish_revision_lem :
      (parent next : ActionState) (saved : Result (Unit {0}))
      → Frees (finish_revision w parent next saved)
  unfolding finish_revision
  finish_revision_lem parent next (ok _) = release_and_lem (host w) Permit laws requeue_now next
  finish_revision_lem parent next (err e) = swallow_lem parent _

  after_revision_lem :
      (parent next : ActionState) (found : Result RevisionState)
      → Frees (after_revision_handler w parent next found)
  unfolding after_revision_handler
  after_revision_lem parent next (ok sub) =
      Triple-bind (modify (host w) (set_revision_state sub)) _
        (modify-Free (host w) Permit (set_revision_state sub))
        λ _.
          Triple-bind (both (status_update (host w))) _
            (Triple-both (status_update (host w)) (status_update-Free (host w) Permit))
            (finish_revision_lem parent next)
  after_revision_lem parent next (err e) = swallow_lem parent e

  pub with_revision_lock_lem :
      (parent next : ActionState) (handler : Action w RevisionState)
      → Working (host w) Permit handler
      → Discipline.Releasing (host w) Permit (with_revision_lock w parent next handler)
  unfolding with_revision_lock
  with_revision_lock_lem parent next handler t =
      Triple-bind (both handler) _ (Triple-both handler t) (after_revision_lem parent next)
