-- ===== src/Approval/Normal.antt =====
-- The reconciliation of an initialized MCA, its deletion, and the dispatch between the paths.
use quorum_based_manifests_g.Common.{
  ℤ, negsuc, ltb_ℤ, Bool, true, false, not, ◌&&◌, Option, some, none, Result, ok, err, with_context,
  last, if◌then◌else◌,
}
use quorum_based_manifests_g.Api.{ManifestRef}
use quorum_based_manifests_g.Api.Approval.{
  ActionState, ReconcileState, ManifestChangeApproval, HistoryRecord, same_state,
}
use quorum_based_manifests_g.Kube.{
  progressing, governance_finalizer, CtrlResult, no_requeue, requeue_now, requeue_in,
}
use quorum_based_manifests_g.Exec.{pure, ◌>>=◌, ◌>>◌, wrapped, both}
use quorum_based_manifests_g.Controller.{
  effect, current, modify, update, fetch, time_now, handle_result, polled,
}
use quorum_based_manifests_g.Controller.Lock.{
  is_lock_for_more_than, release_lock_with_failure, release_and, fail_with, under_lock,
  with_sub_lock,
}
use quorum_based_manifests_g.Approval.World.{World, Action, notified, host}
use quorum_based_manifests_g.Approval.Save.{
  repository_with_error, save_in_repository, save_summary_changes, save_new_history_record,
}
use quorum_based_manifests_g.Approval.Create.{patch_target_revision, reconcile_create}

-- `history[len(history)-1].Version`, or -1
abbrev pub version_of : Option HistoryRecord → ℤ
version_of none = negsuc 0
version_of (some r) = r.version

unfoldable pub latest_history_version : ManifestChangeApproval → ℤ
latest_history_version mca = version_of (last mca.status.approval_history)

abbrev pub set_reconcile_state : ReconcileState → ManifestChangeApproval → ManifestChangeApproval
set_reconcile_state state mca = record mca {
  status = record mca.status { reconcile_state = state };
}

abbrev pub is_some {ℓ} : {A : Type ℓ} → Option A → Bool
is_some none = false
is_some (some a) = true

module _ (w : World) where
  unfoldable pub handle_mca_reconcile_state_git_commit : Action w CtrlResult
  unfolding ◌>>=◌ wrapped save_in_repository with_sub_lock
  handle_mca_reconcile_state_git_commit =
      with_sub_lock (host w) set_reconcile_state "ReconcileState" ActionState.new_mca_spec
        ActionState.new_mca_spec
        do
          wrapped "save MCA in Git repository" (save_in_repository w)
          pure ReconcileState.push_summary_files

  unfoldable pub handle_mca_reconcile_state_push_summary_files : Action w CtrlResult
  unfolding ◌>>=◌ wrapped save_summary_changes with_sub_lock
  handle_mca_reconcile_state_push_summary_files =
      with_sub_lock (host w) set_reconcile_state "ReconcileState" ActionState.new_mca_spec
        ActionState.new_mca_spec
        do
          wrapped "save summary changes" (save_summary_changes w)
          pure ReconcileState.update_after_git_push

  unfoldable pub handle_mca_reconcile_state_update_after_git_push : Action w CtrlResult
  unfolding ◌>>=◌ save_new_history_record with_sub_lock
  handle_mca_reconcile_state_update_after_git_push =
      with_sub_lock (host w) set_reconcile_state "ReconcileState" ActionState.new_mca_spec
        ActionState.new_mca_spec
        do
          save_new_history_record w "update MCA information after Git push"
          pure ReconcileState.update_argocd

  unfoldable pub handle_reconcile_state_update_argocd : Action w CtrlResult
  unfolding ◌>>=◌ patch_target_revision with_sub_lock
  handle_reconcile_state_update_argocd =
      with_sub_lock (host w) set_reconcile_state "ReconcileState" ActionState.new_mca_spec
        ActionState.new_mca_spec do patch_target_revision w; pure ReconcileState.notify_governors

  unfoldable pub handle_reconcile_state_notify_governors : Action w CtrlResult
  unfolding ◌>>=◌ wrapped current effect with_sub_lock
  handle_reconcile_state_notify_governors =
      with_sub_lock (host w) set_reconcile_state "ReconcileState" ActionState.new_mca_spec
        ActionState.empty
        do
          mca ← current (host w)
          wrapped "send notification to governors"
              (effect (host w) notified (w.notify_governors_mca mca))
          pure ReconcileState.empty

  -- The `switch` on the sub-state.
  unfoldable pub reconcile_step : ReconcileState → Action w CtrlResult
  unfolding fail_with handle_mca_reconcile_state_git_commit
      handle_mca_reconcile_state_push_summary_files handle_mca_reconcile_state_update_after_git_push
      handle_reconcile_state_update_argocd handle_reconcile_state_notify_governors
  reconcile_step ReconcileState.empty = handle_mca_reconcile_state_git_commit
  reconcile_step ReconcileState.git_push_mca = handle_mca_reconcile_state_git_commit
  reconcile_step ReconcileState.push_summary_files = handle_mca_reconcile_state_push_summary_files
  reconcile_step ReconcileState.update_after_git_push =
      handle_mca_reconcile_state_update_after_git_push
  reconcile_step ReconcileState.update_argocd = handle_reconcile_state_update_argocd
  reconcile_step ReconcileState.notify_governors = handle_reconcile_state_notify_governors
  reconcile_step (ReconcileState.unknown s) =
      let e = with_context "unknown ReconcileState" s in
      fail_with (host w) ActionState.new_mca_spec e e

  -- Under the lock, from the check of the repository.
  unfoldable pub with_repository : Result (Option w.Repository) → Action w CtrlResult
  unfolding ◌>>=◌ current fail_with reconcile_step
  with_repository (ok _) = do mca ← current (host w); reconcile_step mca.status.reconcile_state
  with_repository (err e) =
      fail_with (host w) ActionState.new_mca_spec (with_context "check repository" e) e

  unfoldable pub handle_reconcile_new_mca_spec : Action w CtrlResult
  unfolding ◌>>=◌ both under_lock repository_with_error with_repository
  handle_reconcile_new_mca_spec =
      under_lock (host w) ActionState.new_mca_spec "Processing new MCA Spec"
        do found ← both (repository_with_error w); with_repository found

  -- The `switch` on the state, `default` in the last two clauses.
  unfoldable pub normal_step : ActionState → Action w CtrlResult
  unfolding handle_reconcile_new_mca_spec release_and
  normal_step ActionState.new_mca_spec = handle_reconcile_new_mca_spec
  normal_step ActionState.empty = release_and (host w) no_requeue ActionState.empty
  normal_step _ = release_and (host w) no_requeue ActionState.empty

  unfoldable pub reconcile_normal : Action w CtrlResult
  unfolding ◌>>=◌ current latest_history_version release_and normal_step
  reconcile_normal = do
    mca ← current (host w)
    let is_new =
        same_state mca.status.action_state ActionState.empty
        && ltb_ℤ (latest_history_version mca) mca.spec.version
    if w.kube.is_status_condition_true mca.status.conditions progressing
        then pure (requeue_in 15)
        else (if is_new
            then release_and (host w) requeue_now ActionState.new_mca_spec
            else normal_step mca.status.action_state)

  abbrev pub without_finalizer : ManifestChangeApproval → ManifestChangeApproval
  without_finalizer mca = record mca {
    metadata = w.kube.remove_finalizer mca.metadata governance_finalizer;
  }

  unfoldable pub reconcile_delete : Action w CtrlResult
  unfolding ◌>>=◌ wrapped current modify update
  reconcile_delete = do
    mca ← current (host w)
    if not (w.kube.contains_finalizer mca.metadata governance_finalizer)
        then pure no_requeue
        else do
          modify (host w) without_finalizer
          wrapped "remove finalizer governance.nazar.grynko.com/finalizer" (update (host w))
          pure no_requeue

  unfoldable pub release_stale : ActionState → Action w CtrlResult
  unfolding ◌>>=◌ release_lock_with_failure
  release_stale state = do
    release_lock_with_failure (host w) state "lock acquired for too long"
    pure requeue_now

  -- The object is not marked for deletion.
  unfoldable pub reconcile_live : ManifestChangeApproval → Action w CtrlResult
  unfolding ◌>>=◌ time_now handle_result is_lock_for_more_than release_stale reconcile_create
      reconcile_normal
  reconcile_live mca = do
    now ← time_now (host w)
    if is_lock_for_more_than (host w) mca 30 now
        then release_stale mca.status.action_state
        else (if not (w.kube.contains_finalizer mca.metadata governance_finalizer)
            then polled (reconcile_create w)
            else polled reconcile_normal)

  unfoldable pub reconcile : ManifestRef → Action w CtrlResult
  unfolding ◌>>=◌ current fetch handle_result reconcile_delete reconcile_live
  reconcile key = do
    found ← fetch (host w) key
    if not found then pure no_requeue else do
      mca ← current (host w)
      if is_some mca.metadata.deletion_timestamp
          then polled reconcile_delete
          else reconcile_live mca
