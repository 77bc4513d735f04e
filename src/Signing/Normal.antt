-- ===== src/Signing/Normal.antt =====
-- The reconciliation of an initialized MSR, its deletion, and the dispatch between the paths.
use quorum_based_manifests_g.Common.{
  ℤ, negsuc, ltb_ℤ, not, Option, none, some, Result, ok, err, with_context, last, if◌then◌else◌,
}
use quorum_based_manifests_g.Api.{ManifestRef}
use quorum_based_manifests_g.Api.Signing.{
  ActionState, ManifestSigningRequest, HistoryRecord, same_state, is_in_progress,
}
use quorum_based_manifests_g.Kube.{
  progressing, governance_finalizer, CtrlResult, no_requeue, requeue_now, requeue_in,
}
use quorum_based_manifests_g.Exec.{pure, ◌>>=◌, ◌>>◌, both}
use quorum_based_manifests_g.Controller.{
  current, modify, update, fetch, time_now, handle_result, polled,
}
use quorum_based_manifests_g.Controller.Lock.{release_and, fail_with}
use quorum_based_manifests_g.Signing.Locking.{is_lock_for_more_than, release_lock_with_failure}
use quorum_based_manifests_g.Approval.Normal.{is_some}
use quorum_based_manifests_g.Signing.World.{World, Action, host}
use quorum_based_manifests_g.Signing.Create.{reconcile_create}
use quorum_based_manifests_g.Signing.NewSpec.{handle_reconcile_new_msr_spec}
use quorum_based_manifests_g.Signing.Fulfillment.{handle_reconcile_msr_rules_fulfillment}

-- `history[len(history)-1].Version`, or -1
abbrev pub version_of : Option HistoryRecord → ℤ
version_of none = negsuc 0
version_of (some r) = r.version

unfoldable pub latest_history_version : ManifestSigningRequest → ℤ
latest_history_version msr = version_of (last msr.status.request_history)

-- What an idle request goes on with, if anything.
unfoldable pub next_action : ManifestSigningRequest → Option ActionState
unfolding latest_history_version
next_action msr =
    if not (same_state msr.status.action_state ActionState.empty)
    then none
    else (if ltb_ℤ (latest_history_version msr) msr.spec.version
        then some ActionState.new_msr_spec
        else (if is_in_progress msr.status.status
            then some ActionState.msr_rules_fulfillment
            else none))

module _ (w : World) where
  -- The `switch` on the state, `default` in the last clause.
  unfoldable pub normal_step : ActionState → Action w CtrlResult
  unfolding handle_reconcile_new_msr_spec handle_reconcile_msr_rules_fulfillment release_and
  normal_step ActionState.new_msr_spec = handle_reconcile_new_msr_spec w
  normal_step ActionState.msr_rules_fulfillment = handle_reconcile_msr_rules_fulfillment w
  normal_step _ = release_and (host w) no_requeue ActionState.empty

  -- The state that an idle request starts is written, or the state that it is in is worked on.
  unfoldable pub act : ManifestSigningRequest → Option ActionState → Action w CtrlResult
  unfolding release_and normal_step
  act msr (some state) = release_and (host w) requeue_now state
  act msr none = normal_step msr.status.action_state

  unfoldable pub reconcile_normal : Action w CtrlResult
  unfolding ◌>>=◌ current next_action act
  reconcile_normal = do
    msr ← current (host w)
    if w.kube.is_status_condition_true msr.status.conditions progressing
        then pure (requeue_in 15)
        else act msr (next_action msr)

  abbrev pub without_finalizer : ManifestSigningRequest → ManifestSigningRequest
  without_finalizer msr = record msr {
    metadata = w.kube.remove_finalizer msr.metadata governance_finalizer;
  }

  -- From the answer of the update without the finalizer.
  unfoldable pub after_removal : Result (Unit {0}) → Action w CtrlResult
  unfolding fail_with release_and
  after_removal (ok _) = release_and (host w) no_requeue ActionState.empty
  after_removal (err e) =
      fail_with (host w) ActionState.deletion e
        (with_context "remove finalizer from MSRStateDeletionInProgress" e)

  unfoldable pub handle_state_deletion : Action w CtrlResult
  unfolding ◌>>=◌ both modify update after_removal
  handle_state_deletion = do
    modify (host w) without_finalizer
    removed ← both (update (host w))
    after_removal removed

  unfoldable pub reconcile_delete : Action w CtrlResult
  unfolding ◌>>=◌ current handle_state_deletion
  reconcile_delete = do
    msr ← current (host w)
    if not (w.kube.contains_finalizer msr.metadata governance_finalizer)
        then pure no_requeue
        else handle_state_deletion

  unfoldable pub release_stale : ActionState → Action w CtrlResult
  unfolding ◌>>=◌
  release_stale state = do
    release_lock_with_failure w state "lock acquired for too long"
    pure requeue_now

  -- The object is not marked for deletion.
  unfoldable pub reconcile_live : ManifestSigningRequest → Action w CtrlResult
  unfolding ◌>>=◌ time_now handle_result release_stale reconcile_create reconcile_normal
  reconcile_live msr = do
    now ← time_now (host w)
    if is_lock_for_more_than w msr 30 now
        then release_stale msr.status.action_state
        else (if not (w.kube.contains_finalizer msr.metadata governance_finalizer)
            then polled (reconcile_create w)
            else polled reconcile_normal)

  unfoldable pub reconcile : ManifestRef → Action w CtrlResult
  unfolding ◌>>=◌ current fetch handle_result reconcile_delete reconcile_live
  reconcile key = do
    found ← fetch (host w) key
    if not found then pure no_requeue else do
      msr ← current (host w)
      if is_some msr.metadata.deletion_timestamp
          then polled reconcile_delete
          else reconcile_live msr
