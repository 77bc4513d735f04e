-- ===== src/Signing/Create.antt =====
-- The initialization of an MSR: four steps under the lock, each of which names the next.
use quorum_based_manifests_g.Common.{with_context}
use quorum_based_manifests_g.Api.Signing.{ActionState, ManifestSigningRequest, text}
use quorum_based_manifests_g.Kube.{CtrlResult, governance_finalizer}
use quorum_based_manifests_g.Exec.{pure, raise, ◌>>=◌, ◌>>◌, wrapped}
use quorum_based_manifests_g.Controller.{current, modify, update}
use quorum_based_manifests_g.Signing.World.{World, Action, host}
use quorum_based_manifests_g.Signing.Locking.{with_lock}
use quorum_based_manifests_g.Signing.Save.{
  repository_with_error, save_in_repository, save_signature, save_history_record,
}

module _ (w : World) where
  unfoldable pub handle_state_git_commit : Action w CtrlResult
  unfolding ◌>>=◌ wrapped save_in_repository
  handle_state_git_commit =
      with_lock w ActionState.git_push_msr "Pushing MSR manifest to Git repository" do
        wrapped "save MSR to Git repository" (save_in_repository w)
        pure ActionState.governor_qubmango_signature

  unfoldable pub handle_state_governor_qubmango_signature : Action w CtrlResult
  unfolding ◌>>=◌ save_signature
  handle_state_governor_qubmango_signature =
      with_lock w ActionState.governor_qubmango_signature
        "Pushing qubmango governor MSR signature to Git repository"
        do save_signature w; pure ActionState.update_after_git_push

  unfoldable pub handle_update_after_git_push : Action w CtrlResult
  unfolding ◌>>=◌ save_history_record
  handle_update_after_git_push =
      with_lock w ActionState.update_after_git_push
        "Updating in-cluster MSR information after Git push"
        do save_history_record w (λ msr. msr); pure ActionState.init_set_finalizer

  abbrev pub with_finalizer : ManifestSigningRequest → ManifestSigningRequest
  with_finalizer msr = record msr {
    metadata = w.kube.add_finalizer msr.metadata governance_finalizer;
  }

  unfoldable pub handle_state_finalizing : Action w CtrlResult
  unfolding ◌>>=◌ wrapped modify update
  handle_state_finalizing =
      with_lock w ActionState.init_set_finalizer "Setting the GovernanceFinalizer on MSR" do
        modify (host w) with_finalizer
        wrapped "add finalizer in initialization" (update (host w))
        pure ActionState.empty

  -- The `switch` on the state.
  unfoldable pub create_step : ActionState → Action w CtrlResult
  unfolding handle_state_git_commit handle_state_governor_qubmango_signature
      handle_update_after_git_push handle_state_finalizing raise
  create_step ActionState.empty = handle_state_git_commit
  create_step ActionState.git_push_msr = handle_state_git_commit
  create_step ActionState.governor_qubmango_signature = handle_state_governor_qubmango_signature
  create_step ActionState.update_after_git_push = handle_update_after_git_push
  create_step ActionState.init_set_finalizer = handle_state_finalizing
  create_step state = raise (with_context "unknown initialization state" (text state))

  unfoldable pub reconcile_create : Action w CtrlResult
  unfolding ◌>>=◌ wrapped current repository_with_error create_step
  reconcile_create = do
    wrapped "init repo for ManifestSigningRequest" (repository_with_error w)
    msr ← current (host w)
    create_step msr.status.action_state
