-- ===== src/Signing/Discipline/Dispatch.antt =====
-- The check of the signatures, the deletion and the dispatch of the MSR controller.
use quorum_based_manifests_g.Common.{not, inl, Option, some, none, Result, ok, err}
use quorum_based_manifests_g.Api.{ManifestRef}
use quorum_based_manifests_g.Api.Signing.{ActionState, FulfillmentState, ManifestSigningRequest}
use quorum_based_manifests_g.Kube.{
  CtrlResult, progressing, governance_finalizer, no_requeue, requeue_now, requeue_in,
}
use quorum_based_manifests_g.Exec.{
  Triple, both, ignore, Triple-bind, Triple-pure, Triple-return, Triple-if, Triple-both,
  Triple-weaken,
}
use quorum_based_manifests_g.Controller.{
  Run, call, effect, current, modify, update, fetch, time_now, polled, handle_result,
}
use quorum_based_manifests_g.Controller.Lock.{
  release_lock_with_failure, release_lock_and_set_next_state, is_lock_for_more_than, fail_with,
}
use quorum_based_manifests_g.Controller.Triples.{
  HostLaws, Triple-current, modify-Free, modify-Released, update-Free, Free, Held, Released,
  fetch-Released, time_now-Released,
}
use quorum_based_manifests_g.Controller.Keeps.{Reading-current}
use quorum_based_manifests_g.Controller.Discipline.{
  Settled, Reading-any, Keeps-Working, release_failure_lem, release_and_lem, fail_with_lem,
  release_ignored_lem, under_lock_any, with_sub_lock_lem,
}
use quorum_based_manifests_g.Signing.World.{World, Action, host}
use quorum_based_manifests_g.Signing.Locking.{set_fulfillment_state}
use quorum_based_manifests_g.Signing.Save.{repository_with_error}
use quorum_based_manifests_g.Signing.Create.{reconcile_create}
use quorum_based_manifests_g.Signing.Fulfillment.{
  checking_signatures, handle_check_signatures, handle_update_mca_spec, abort_check,
  fulfillment_step, fulfillment_with_repository, handle_reconcile_msr_rules_fulfillment,
}
use quorum_based_manifests_g.Approval.Normal.{is_some}
use quorum_based_manifests_g.Signing.Normal.{
  next_action, normal_step, act, reconcile_normal, without_finalizer, after_removal,
  handle_state_deletion, reconcile_delete, release_stale, reconcile_live, reconcile,
}
use quorum_based_manifests_g.Signing.Discipline.Handlers.{
  Permit, repository_with_error-Keeps, check_signatures-Keeps, update_mca-Keeps,
}
use quorum_based_manifests_g.Signing.Discipline.Paths.{
  Ends, Releases, released, fail_lem, reconcile_create_lem, new_msr_spec_lem,
}

module _ (w : World) (laws : HostLaws (host w)) where
  -- From the lock, and from no lock: the run settles.
  abbrev Settling : Action w CtrlResult → Type 0
  Settling m =
      Triple (Held (host w) (Permit w)) m (λ _. Settled (host w) (Permit w))
        (Free (host w) (Permit w))

  abbrev Settles : Action w CtrlResult → Type 0
  Settles m =
      Triple (Released (host w) (Permit w)) m (λ _. Settled (host w) (Permit w))
        (Free (host w) (Permit w))

  releases : (m : Action w CtrlResult) → Releases w laws m → Settling m
  releases m t = Triple-weaken m t (λ r p. p) (λ a r p. (p.0, inl p.1)) (λ r p. p)

  pub ends : (m : Action w CtrlResult) → Ends w laws m → Settles m
  ends m t = Triple-weaken m t (λ r p. p) (λ a r p. (p.0, inl p.1)) (λ r p. p)

  polled-Settles : (m : Action w CtrlResult) → Settles m → Settles (polled m)
  polled-Settles m t = Triple-bind m _ t λ result. Triple-pure (handle_result result)

  check_lem : Releases w laws (handle_check_signatures w)
  unfolding handle_check_signatures checking_signatures
  check_lem =
      with_sub_lock_lem (host w) (Permit w) laws set_fulfillment_state "RulesFulfillmentState"
        ActionState.msr_rules_fulfillment ActionState.msr_rules_fulfillment _
        (Keeps-Working (host w) (Permit w) _ (check_signatures-Keeps w laws))

  update_mca_lem : Releases w laws (handle_update_mca_spec w)
  unfolding handle_update_mca_spec
  update_mca_lem =
      with_sub_lock_lem (host w) (Permit w) laws set_fulfillment_state "RulesFulfillmentState"
        ActionState.msr_rules_fulfillment ActionState.empty _
        (Keeps-Working (host w) (Permit w) _ (update_mca-Keeps w))

  abort_lem : Settling (abort_check w)
  unfolding abort_check
  abort_lem =
      Triple-bind (modify (host w) (set_fulfillment_state FulfillmentState.empty)) _
        (Triple-weaken (modify (host w) (set_fulfillment_state FulfillmentState.empty))
          (modify-Free (host w) (Permit w) (set_fulfillment_state FulfillmentState.empty))
          (λ r p. p.0) (λ a r p. p) (λ r p. p))
        λ _.
          Triple-bind (ignore (release_lock_and_set_next_state (host w) ActionState.empty)) _
            (release_ignored_lem (host w) (Permit w) laws ActionState.empty)
            λ _. Triple-pure no_requeue

  fulfillment_step_lem : (state : FulfillmentState) → Settling (fulfillment_step w state)
  unfolding fulfillment_step
  fulfillment_step_lem FulfillmentState.empty = releases (handle_check_signatures w) check_lem
  fulfillment_step_lem FulfillmentState.check_signatures =
      releases (handle_check_signatures w) check_lem
  fulfillment_step_lem FulfillmentState.update_mca_spec =
      releases (handle_update_mca_spec w) update_mca_lem
  fulfillment_step_lem FulfillmentState.abort = abort_lem
  fulfillment_step_lem (FulfillmentState.unknown s) =
      releases _ (fail_lem w laws ActionState.empty _ _)

  checked_lem :
      (found : Result (Option w.Repository)) → Settling (fulfillment_with_repository w found)
  unfolding fulfillment_with_repository
  checked_lem (ok found) =
      Triple-bind (current (host w)) _ (Triple-current (host w) (Permit w))
        λ msr. fulfillment_step_lem msr.status.rules_fulfillment_state
  checked_lem (err e) = releases _ (fail_lem w laws ActionState.msr_rules_fulfillment _ _)

  fulfillment_lem : Settles (handle_reconcile_msr_rules_fulfillment w)
  unfolding handle_reconcile_msr_rules_fulfillment
  fulfillment_lem =
      under_lock_any (host w) (Permit w) laws (λ r p. (p.0, inl p.1))
        ActionState.msr_rules_fulfillment _ _
        (Triple-bind (both (repository_with_error w)) _
          (Triple-both (repository_with_error w) (repository_with_error-Keeps w)) checked_lem)

  reset :
      Settles
        (quorum_based_manifests_g.Controller.Lock.release_and (host w) no_requeue ActionState.empty)
  reset = ends _ (released w laws no_requeue ActionState.empty)

  normal_step_lem : (state : ActionState) → Settles (normal_step w state)
  unfolding normal_step
  normal_step_lem ActionState.new_msr_spec = ends _ (new_msr_spec_lem w laws)
  normal_step_lem ActionState.msr_rules_fulfillment = fulfillment_lem
  normal_step_lem ActionState.empty = reset
  normal_step_lem ActionState.git_push_msr = reset
  normal_step_lem ActionState.governor_qubmango_signature = reset
  normal_step_lem ActionState.update_after_git_push = reset
  normal_step_lem ActionState.init_set_finalizer = reset
  normal_step_lem ActionState.deletion = reset
  normal_step_lem (ActionState.unknown s) = reset

  act_lem : (msr : ManifestSigningRequest) (next : Option ActionState) → Settles (act w msr next)
  unfolding act
  act_lem msr (some state) = ends _ (released w laws requeue_now state)
  act_lem msr none = normal_step_lem msr.status.action_state

  reconcile_normal_lem : Settles (reconcile_normal w)
  unfolding reconcile_normal
  reconcile_normal_lem =
      Triple-bind (current (host w)) _ (Reading-current (host w) (Permit w)) λ msr.
        Triple-if (w.kube.is_status_condition_true msr.status.conditions progressing) _ _
          (Triple-return (requeue_in 15) (λ r p. (p.0, inl p.1))) (act_lem msr (next_action msr))

  after_removal_lem :
      (removed : Result (Unit {0}))
      → Triple
          (Free (host w) (Permit w))
          (after_removal w removed)
          (λ _. Released (host w) (Permit w))
          (Free (host w) (Permit w))
  unfolding after_removal
  after_removal_lem (ok _) = release_and_lem (host w) (Permit w) laws no_requeue ActionState.empty
  after_removal_lem (err e) = fail_with_lem (host w) (Permit w) laws ActionState.deletion e _

  deletion_lem : Ends w laws (handle_state_deletion w)
  unfolding handle_state_deletion
  deletion_lem =
      Triple-bind (modify (host w) (without_finalizer w)) _
        (modify-Released (host w) (Permit w) (without_finalizer w))
        λ _.
          Triple-bind (both (update (host w))) _
            (Triple-both (update (host w)) (
              Triple-weaken (update (host w)) (update-Free (host w) (Permit w) (λ b. tt))
                (λ r p. p.0) (λ a r p. p) (λ r p. p)))
            after_removal_lem

  reconcile_delete_lem : Ends w laws (reconcile_delete w)
  unfolding reconcile_delete
  reconcile_delete_lem =
      Triple-bind (current (host w)) _ (Reading-current (host w) (Permit w)) λ msr.
        Triple-if (not (w.kube.contains_finalizer msr.metadata governance_finalizer)) _ _
          (Triple-return no_requeue (λ r p. p)) deletion_lem

  release_stale_lem : (state : ActionState) → Ends w laws (release_stale w state)
  unfolding release_stale
  release_stale_lem state = Reading-any (host w) (Permit w) (release_stale w state) (
      Triple-bind (release_lock_with_failure (host w) state "lock acquired for too long") _
        (release_failure_lem (host w) (Permit w) laws state "lock acquired for too long")
        λ _. Triple-pure requeue_now)

  reconcile_live_lem : (msr : ManifestSigningRequest) → Settles (reconcile_live w msr)
  unfolding reconcile_live
  reconcile_live_lem msr =
      Triple-bind (time_now (host w)) _ (time_now-Released (host w) (Permit w)) λ now.
        Triple-if (is_lock_for_more_than (host w) msr 30 now) _ _
          (ends (release_stale w msr.status.action_state)
            (release_stale_lem msr.status.action_state))
          (Triple-if (not (w.kube.contains_finalizer msr.metadata governance_finalizer)) _ _
            (polled-Settles (reconcile_create w)
              (ends (reconcile_create w) (reconcile_create_lem w laws)))
            (polled-Settles (reconcile_normal w) reconcile_normal_lem))

  -- A reconciliation of a signing request that starts without the lock, however the cluster, the
  -- repository and the notifier answer, pushes to the repository, notifies and writes the change
  -- approval only after it has itself written the lock to the request and before it has written its
  -- release. A run that ends without an error has released the lock, or leaves an object in memory
  -- whose condition reads as released.
  pub reconcile-Settled :
      (key : ManifestRef)
      → Triple
          (Released (host w) (Permit w))
          (reconcile w key)
          (λ _. Settled (host w) (Permit w))
          (Free (host w) (Permit w))
  unfolding reconcile
  reconcile-Settled key =
      Triple-bind (fetch (host w) key) _ (fetch-Released (host w) (Permit w) key) λ found.
        Triple-if (not found) _ _ (Triple-return no_requeue (λ r p. (p.0, inl p.1))) (
          Triple-bind (current (host w)) _ (Reading-current (host w) (Permit w)) λ msr.
            Triple-if (is_some msr.metadata.deletion_timestamp) _ _
              (polled-Settles (reconcile_delete w) (ends (reconcile_delete w) reconcile_delete_lem))
              (reconcile_live_lem msr))
