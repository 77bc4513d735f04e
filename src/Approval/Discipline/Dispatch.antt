-- ===== src/Approval/Discipline/Dispatch.antt =====
-- The dispatch of the MCA controller between its paths.
use quorum_based_manifests_g.Common.{not}
use quorum_based_manifests_g.Api.{ManifestRef}
use quorum_based_manifests_g.Api.Approval.{ActionState, ManifestChangeApproval}
use quorum_based_manifests_g.Kube.{governance_finalizer, no_requeue, requeue_now}
use quorum_based_manifests_g.Exec.{Triple, Triple-bind, Triple-pure, Triple-return, Triple-if}
use quorum_based_manifests_g.Controller.{current, fetch, time_now}
use quorum_based_manifests_g.Controller.Lock.{release_lock_with_failure, is_lock_for_more_than}
use quorum_based_manifests_g.Controller.Triples.{
  HostLaws, Free, Released, fetch-Released, time_now-Released,
}
use quorum_based_manifests_g.Controller.Keeps.{Reading-current}
use quorum_based_manifests_g.Controller.Discipline.{polled_lem, Reading-any, release_failure_lem}
use quorum_based_manifests_g.Approval.World.{World, host}
use quorum_based_manifests_g.Approval.Create.{reconcile_create}
use quorum_based_manifests_g.Approval.Normal.{
  reconcile_normal, reconcile_delete, is_some, release_stale, reconcile_live, reconcile,
}
use quorum_based_manifests_g.Approval.Discipline.Handlers.{Permit}
use quorum_based_manifests_g.Approval.Discipline.Paths.{
  Ends, reconcile_create_lem, reconcile_normal_lem, reconcile_delete_lem,
}

module _ (w : World) (laws : HostLaws (host w)) where
  release_stale_lem : (state : ActionState) → Ends w laws (release_stale w state)
  unfolding release_stale
  release_stale_lem state = Reading-any (host w) Permit (release_stale w state) (
      Triple-bind (release_lock_with_failure (host w) state "lock acquired for too long") _
        (release_failure_lem (host w) Permit laws state "lock acquired for too long")
        λ _. Triple-pure requeue_now)

  reconcile_live_lem : (mca : ManifestChangeApproval) → Ends w laws (reconcile_live w mca)
  unfolding reconcile_live
  reconcile_live_lem mca =
      Triple-bind (time_now (host w)) _ (time_now-Released (host w) Permit) λ now.
        Triple-if (is_lock_for_more_than (host w) mca 30 now) _ _
          (release_stale_lem mca.status.action_state)
          (Triple-if (not (w.kube.contains_finalizer mca.metadata governance_finalizer)) _ _
            (polled_lem (host w) Permit (reconcile_create w) (reconcile_create_lem w laws))
            (polled_lem (host w) Permit (reconcile_normal w) (reconcile_normal_lem w laws)))

  -- A reconciliation that starts without the lock, whatever the request is and however the
  -- cluster, the repository and the notifier answer, pushes to the repository, patches the
  -- Application and notifies only after it has itself written the lock to the object and before
  -- it has written its release; one that ends without an error has released the lock it wrote.
  pub reconcile-Released :
      (key : ManifestRef)
      → Triple
          (Released (host w) Permit)
          (reconcile w key)
          (λ _. Released (host w) Permit)
          (Free (host w) Permit)
  unfolding reconcile
  reconcile-Released key =
      Triple-bind (fetch (host w) key) _ (fetch-Released (host w) Permit key) λ found.
        Triple-if (not found) _ _ (Triple-return no_requeue (λ r p. p)) (
          Triple-bind (current (host w)) _ (Reading-current (host w) Permit) λ mca.
            Triple-if (is_some mca.metadata.deletion_timestamp) _ _
              (polled_lem (host w) Permit (reconcile_delete w) (reconcile_delete_lem w laws))
              (reconcile_live_lem mca))
