-- ===== src/Approval/Create.antt =====
-- The initialization of an MCA: five steps under the lock, each of which names the next.
use quorum_based_manifests_g.Common.{with_context}
use quorum_based_manifests_g.Api.Approval.{ActionState, ManifestChangeApproval, text}
use quorum_based_manifests_g.Kube.{CtrlResult, governance_finalizer}
use quorum_based_manifests_g.Exec.{pure, raise, ◌>>=◌, ◌>>◌, wrapped}
use quorum_based_manifests_g.Approval.World.{World, Action, patched, host}
use quorum_based_manifests_g.Controller.{effect, current, modify, update}
use quorum_based_manifests_g.Controller.Lock.{with_lock}
use quorum_based_manifests_g.Approval.Save.{
  repository_with_error, get_application_for_mca, save_in_repository, save_summary_changes,
  save_new_history_record,
}

module _ (w : World) where
  unfoldable pub handle_state_git_commit : Action w CtrlResult
  unfolding ◌>>=◌ wrapped save_in_repository with_lock
  handle_state_git_commit =
      with_lock (host w) ActionState.git_push_mca "Pushing MCA manifest to Git repository" do
        wrapped "save MCA in Git repository" (save_in_repository w)
        pure ActionState.push_summary_files

  unfoldable pub handle_state_push_summary_files : Action w CtrlResult
  unfolding ◌>>=◌ wrapped save_summary_changes with_lock
  handle_state_push_summary_files =
      with_lock (host w) ActionState.push_summary_files
        "Creating and pushing summary files to repository"
        do
          wrapped "save summary changes" (save_summary_changes w)
          pure ActionState.update_after_git_push

  unfoldable pub handle_update_after_git_push : Action w CtrlResult
  unfolding ◌>>=◌ save_new_history_record with_lock
  handle_update_after_git_push =
      with_lock (host w) ActionState.update_after_git_push
        "Updating in-cluster MCA information after Git push"
        do
          save_new_history_record w "update MCA information after Git push"
          pure ActionState.update_argocd

  -- `app.Spec.Source.TargetRevision = mca.Spec.CommitSHA`, and the patch against the old object.
  unfoldable pub patch_target_revision : Action w (Unit {0})
  unfolding ◌>>=◌ wrapped effect current get_application_for_mca
  patch_target_revision = do
    app ← wrapped "fetch Application for MCA" (get_application_for_mca w)
    mca ← current (host w)
    wrapped "patch ArgoCD Application targetRevision" (
        effect (host w) (patched mca.spec.commit_sha)
          (w.patch_application app (record app { target_revision = mca.spec.commit_sha })))

  unfoldable pub handle_state_update_argocd : Action w CtrlResult
  unfolding ◌>>=◌ patch_target_revision with_lock
  handle_state_update_argocd =
      with_lock (host w) ActionState.update_argocd "Updating ArgoCD Application target revision"
        do patch_target_revision; pure ActionState.init_set_finalizer

  abbrev pub with_finalizer : ManifestChangeApproval → ManifestChangeApproval
  with_finalizer mca = record mca {
    metadata = w.kube.add_finalizer mca.metadata governance_finalizer;
  }

  unfoldable pub handle_state_finalizer : Action w CtrlResult
  unfolding ◌>>=◌ wrapped modify update with_lock
  handle_state_finalizer =
      with_lock (host w) ActionState.init_set_finalizer "Setting the GovernanceFinalizer on MCA" do
        modify (host w) with_finalizer
        wrapped "add finalizer in initialization" (update (host w))
        pure ActionState.empty

  -- The `switch` on the state.
  unfoldable pub create_step : ActionState → Action w CtrlResult
  unfolding handle_state_git_commit handle_state_push_summary_files handle_update_after_git_push
      handle_state_update_argocd handle_state_finalizer raise
  create_step ActionState.empty = handle_state_git_commit
  create_step ActionState.git_push_mca = handle_state_git_commit
  create_step ActionState.push_summary_files = handle_state_push_summary_files
  create_step ActionState.update_after_git_push = handle_update_after_git_push
  create_step ActionState.update_argocd = handle_state_update_argocd
  create_step ActionState.init_set_finalizer = handle_state_finalizer
  create_step ActionState.deletion =
      raise (with_context "unknown initialization state" (text ActionState.deletion))
  create_step ActionState.new_mca_spec =
      raise (with_context "unknown initialization state" (text ActionState.new_mca_spec))
  create_step (ActionState.unknown s) = raise (with_context "unknown initialization state" s)

  unfoldable pub reconcile_create : Action w CtrlResult
  unfolding ◌>>=◌ wrapped current repository_with_error create_step
  reconcile_create = do
    wrapped "init repo for ManifestChangeApproval" (repository_with_error w)
    mca ← current (host w)
    create_step mca.status.action_state
