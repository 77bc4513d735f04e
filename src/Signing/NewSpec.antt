-- ===== src/Signing/NewSpec.antt =====
-- The reconciliation of a new version of an MSR: three steps under one lock.
use quorum_based_manifests_g.Common.{Option, Result, ok, err, with_context}
use quorum_based_manifests_g.Api.Signing.{
  ActionState, ReconcileState, SigningRequestStatus, ManifestSigningRequest,
}
use quorum_based_manifests_g.Kube.{CtrlResult}
use quorum_based_manifests_g.Exec.{pure, ◌>>=◌, ◌>>◌, wrapped, both}
use quorum_based_manifests_g.Controller.{effect, current}
use quorum_based_manifests_g.Controller.Lock.{fail_with, under_lock}
use quorum_based_manifests_g.Signing.World.{World, Action, notified, host}
use quorum_based_manifests_g.Signing.Locking.{with_reconcile_lock}
use quorum_based_manifests_g.Signing.Save.{
  repository_with_error, save_in_repository, save_history_record,
}

-- `msr.Status.Status = InProgress`
abbrev pub start_progress : ManifestSigningRequest → ManifestSigningRequest
start_progress msr = record msr {
  status = record msr.status { status = SigningRequestStatus.in_progress };
}

module _ (w : World) where
  unfoldable pub handle_msr_reconcile_state_git_commit : Action w CtrlResult
  unfolding ◌>>=◌ wrapped save_in_repository
  handle_msr_reconcile_state_git_commit =
      with_reconcile_lock w ActionState.new_msr_spec ActionState.new_msr_spec do
        wrapped "save MSR in Git repository" (save_in_repository w)
        pure ReconcileState.update_after_git_push

  unfoldable pub handle_msr_reconcile_state_update_after_git_push : Action w CtrlResult
  unfolding ◌>>=◌ save_history_record
  handle_msr_reconcile_state_update_after_git_push =
      with_reconcile_lock w ActionState.new_msr_spec ActionState.new_msr_spec
        do save_history_record w start_progress; pure ReconcileState.notify_governors

  unfoldable pub handle_msr_reconcile_state_notify_governors : Action w CtrlResult
  unfolding ◌>>=◌ wrapped current effect
  handle_msr_reconcile_state_notify_governors =
      with_reconcile_lock w ActionState.new_msr_spec ActionState.empty do
        msr ← current (host w)
        wrapped "send notification to governors"
            (effect (host w) notified (w.notify_governors_msr msr))
        pure ReconcileState.empty

  -- The `switch` on the sub-state.
  unfoldable pub reconcile_step : ReconcileState → Action w CtrlResult
  unfolding fail_with handle_msr_reconcile_state_git_commit
      handle_msr_reconcile_state_update_after_git_push handle_msr_reconcile_state_notify_governors
  reconcile_step ReconcileState.empty = handle_msr_reconcile_state_git_commit
  reconcile_step ReconcileState.git_push_msr = handle_msr_reconcile_state_git_commit
  reconcile_step ReconcileState.update_after_git_push =
      handle_msr_reconcile_state_update_after_git_push
  reconcile_step ReconcileState.notify_governors = handle_msr_reconcile_state_notify_governors
  reconcile_step (ReconcileState.unknown s) =
      let e = with_context "unknown ReconcileState" s in
      fail_with (host w) ActionState.new_msr_spec e e

  -- Under the lock, from the check of the repository.
  unfoldable pub with_repository : Result (Option w.Repository) → Action w CtrlResult
  unfolding ◌>>=◌ current fail_with reconcile_step
  with_repository (ok _) = do msr ← current (host w); reconcile_step msr.status.reconcile_state
  with_repository (err e) =
      fail_with (host w) ActionState.new_msr_spec (with_context "check repository" e) e

  unfoldable pub handle_reconcile_new_msr_spec : Action w CtrlResult
  unfolding ◌>>=◌ both under_lock repository_with_error with_repository
  handle_reconcile_new_msr_spec =
      under_lock (host w) ActionState.new_msr_spec "Processing new MSR Spec"
        do found ← both (repository_with_error w); with_repository found
