-- ===== src/Template/Normal.antt =====
-- The reconciliation of an initialized MRT, its deletion, and the dispatch between the paths.
use quorum_based_manifests_g.Common.{
  ℕ, length, ltb, Bool, not, Option, none, some, String, ◌==◌, Result, ok, err, with_context,
  if◌then◌else◌,
}
use quorum_based_manifests_g.Api.{ManifestRef}
use quorum_based_manifests_g.Api.Template.{ActionState, RevisionState, ManifestRequestTemplate}
use quorum_based_manifests_g.Api.Governance.{NewRevisionPayload}
use quorum_based_manifests_g.Kube.{
  progressing, governance_finalizer, CtrlResult, no_requeue, requeue_now, requeue_in,
}
use quorum_based_manifests_g.Exec.{pure, raise, ◌>>=◌, ◌>>◌, wrapped, both, ignore}
use quorum_based_manifests_g.Controller.{
  call, effect, current, modify, update, fetch, time_now, handle_result, polled,
}
use quorum_based_manifests_g.Controller.Git.{with_git_repository}
use quorum_based_manifests_g.Controller.Lock.{
  release_lock_with_failure, release_lock_and_set_next_state, release_and, fail_with, under_lock,
}
use quorum_based_manifests_g.Approval.Normal.{is_some}
use quorum_based_manifests_g.Template.World.{World, Action, restored, deleted_folder, host}
use quorum_based_manifests_g.Template.Compare.{governance_path}
use quorum_based_manifests_g.Template.Queue.{
  queue_contains_revision, revisions_queue_head, create_new_revision_event,
}
use quorum_based_manifests_g.Template.Locking.{set_revision_state, is_lock_for_more_than}
use quorum_based_manifests_g.Template.Create.{
  get_application, repository_with_error, reconcile_create,
}
use quorum_based_manifests_g.Template.Revision.{
  handle_sub_state_preflight_check, handle_sub_state_update_msr, handle_substate_finish,
}

-- `GitPollInterval`, one minute
abbrev pub git_poll_interval : ℕ
git_poll_interval = 60

module _ (w : World) where
  unfoldable pub any_revision_events : Action w Bool
  unfolding ◌>>=◌ wrapped current call
  any_revision_events = do
    mrt ← current (host w)
    queue ←
        wrapped "get GovernanceQueue for ManifestRequestTemplate"
          (call (host w) (w.get_queue mrt.status.revision_queue_ref))
    pure (ltb 0 (length queue.queue))

  -- An error that is replaced by a message.
  abbrev pub replaced_error : {A : Type 0} → String → Result A → Action w A
  replaced_error e (ok a) = pure a
  replaced_error e (err e') = raise e

  unfoldable pub check_dependencies : Action w (Unit {0})
  unfolding ◌>>=◌ wrapped both current call raise
  check_dependencies = do
    mrt ← current (host w)
    app ← both (call (host w) (w.get_application mrt.spec.application))
    replaced_error "couldn't find linked Application" app
    wrapped "couldn't find linked ManifestSigningRequest" (call (host w) (w.get_msr mrt.spec.msr))
    wrapped "couldn't find linked ManifestChangeApproval" (call (host w) (w.get_mca mrt.spec.mca))
    wrapped "couldn't find linked GovernanceQueue"
        (call (host w) (w.get_queue mrt.status.revision_queue_ref))
    pure tt

  unfoldable pub abort_revision : Action w CtrlResult
  unfolding ◌>>=◌ modify ignore release_lock_and_set_next_state
  abort_revision = do
    modify (host w) (set_revision_state RevisionState.empty)
    ignore (release_lock_and_set_next_state (host w) ActionState.empty)
    pure no_requeue

  -- The `switch` on the sub-state.
  unfoldable pub revision_step : String → RevisionState → Action w CtrlResult
  unfolding handle_sub_state_preflight_check handle_sub_state_update_msr handle_substate_finish
      abort_revision fail_with
  revision_step revision RevisionState.empty = handle_sub_state_preflight_check w revision
  revision_step revision RevisionState.preflight_check = handle_sub_state_preflight_check w revision
  revision_step revision RevisionState.update_msr_spec = handle_sub_state_update_msr w revision
  revision_step revision RevisionState.after_msr_update = handle_substate_finish w revision
  revision_step revision RevisionState.abort = abort_revision
  revision_step revision (RevisionState.unknown s) =
      let e = with_context "unknown RevisionProcessingState state" s in
      fail_with (host w) ActionState.new_revision e e

  -- `event.Spec.NewRevision.CommitSHA`: without a payload the code panics, which ends the run with an
  -- error and leaves the lock as it is.
  abbrev pub on_payload :
      Option NewRevisionPayload → (String → Action w CtrlResult) → Action w CtrlResult
  on_payload none go_on = raise "panic: nil pointer dereference"
  on_payload (some payload) go_on = go_on payload.commit_sha

  -- An error here leaves the lock as it is.
  unfoldable pub work_on_head : Action w CtrlResult
  unfolding ◌>>=◌ wrapped current raise revisions_queue_head revision_step
  work_on_head = do
    mrt ← current (host w)
    event ←
        wrapped "get head of the revision queue"
          (revisions_queue_head w mrt.status.revision_queue_ref)
    on_payload event.spec.new_revision
        λ revision. revision_step revision mrt.status.revision_processing_state

  abbrev pub stop :
      {A : Type 0} → String → Result A → (A → Action w CtrlResult) → Action w CtrlResult
  stop context (ok a) go_on = go_on a
  stop context (err e) go_on =
      fail_with (host w) ActionState.new_revision e (with_context context e)

  unfoldable pub after_any : Bool → Action w CtrlResult
  unfolding release_and work_on_head
  after_any new_revision =
      if not new_revision then release_and (host w) requeue_now ActionState.empty else work_on_head

  unfoldable pub after_repository : Option w.Repository → Action w CtrlResult
  unfolding ◌>>=◌ both any_revision_events after_any fail_with
  after_repository repo = do
    new_revision ← both any_revision_events
    stop "is any revision event present" new_revision after_any

  unfoldable pub after_dependencies : Unit {0} → Action w CtrlResult
  unfolding ◌>>=◌ both repository_with_error after_repository fail_with
  after_dependencies checked = do
    repo ← both (repository_with_error w)
    stop "check repository" repo after_repository

  unfoldable pub handle_state_processing_revision : Action w CtrlResult
  unfolding ◌>>=◌ both under_lock check_dependencies after_dependencies fail_with
  handle_state_processing_revision =
      under_lock (host w) ActionState.new_revision "Processing new Git revision"
        do checked ← both check_dependencies; stop "check dependency" checked after_dependencies

  -- The head of the repository, if it is new and has no event yet.
  unfoldable pub check_for_new_commits : Action w (Option String)
  unfolding ◌>>=◌ current call with_git_repository repository_with_error queue_contains_revision
  check_for_new_commits = do
    remote_head ←
        with_git_repository (host w) (repository_with_error w)
          λ repo. call (host w) (w.get_latest_revision repo)
    mrt ← current (host w)
    if remote_head == mrt.status.last_observed_commit_hash then pure none else do
      is_pending ← queue_contains_revision w remote_head mrt.metadata.uid
      pure (if is_pending then none else some remote_head)

  unfoldable pub process_commit : Result (Option String) → Action w CtrlResult
  unfolding ◌>>=◌ wrapped current create_new_revision_event release_and
  process_commit (err e) = pure (requeue_in git_poll_interval)
  process_commit (ok none) = pure (requeue_in git_poll_interval)
  process_commit (ok (some new_commit)) = do
    mrt ← current (host w)
    wrapped "failed to create revision event" (
        create_new_revision_event w new_commit
          (record { name = mrt.metadata.name; namespace = mrt.metadata.namespace })
          mrt.metadata.uid)
    release_and (host w) requeue_now ActionState.new_revision

  unfoldable pub decide : Bool → Action w CtrlResult
  unfolding ◌>>=◌ both release_and check_for_new_commits process_commit
  decide new_revision =
      if new_revision
      then release_and (host w) requeue_now ActionState.new_revision
      else do found ← both check_for_new_commits; process_commit found

  -- The `switch` on the state.
  unfoldable pub normal_step : ActionState → Action w CtrlResult
  unfolding ◌>>=◌ wrapped any_revision_events decide handle_state_processing_revision release_and
  normal_step ActionState.empty = do
    new_revision ← wrapped "is any revision event present" any_revision_events
    decide new_revision
  normal_step ActionState.new_revision = handle_state_processing_revision
  normal_step _ = release_and (host w) no_requeue ActionState.empty

  unfoldable pub reconcile_normal : Action w CtrlResult
  unfolding ◌>>=◌ current normal_step
  reconcile_normal = do
    mrt ← current (host w)
    if w.kube.is_status_condition_true mrt.status.conditions progressing
        then pure (requeue_in 15)
        else normal_step mrt.status.action_state

  unfoldable pub handle_state_delete_restore_argocd : Action w (Unit {0})
  unfolding ◌>>=◌ wrapped current effect get_application
  handle_state_delete_restore_argocd = do
    app ← wrapped "fetch Application for MRT" (get_application w)
    mrt ← current (host w)
    let target = mrt.status.application_init_target_revision
    wrapped "patch ArgoCD Application targetRevision" (
        effect (host w) (restored target)
          (w.patch_application app (record app { target_revision = target })))

  unfoldable pub delete_governance_folder_from_repository :
      String → w.Repository → Action w (Unit {0})
  unfolding wrapped effect
  delete_governance_folder_from_repository path repository =
      wrapped "failed to delete governance folder from repository"
        (effect (host w) (deleted_folder path) (w.delete_folder repository path))

  unfoldable pub handle_state_delete_remove_governance_folder : Action w (Unit {0})
  unfolding ◌>>=◌ wrapped current governance_path with_git_repository repository_with_error
      delete_governance_folder_from_repository
  handle_state_delete_remove_governance_folder = do
    mrt ← current (host w)
    wrapped "delete governance folder from repository" (
        with_git_repository (host w) (repository_with_error w)
          (delete_governance_folder_from_repository (governance_path mrt)))

  abbrev pub without_finalizer : ManifestRequestTemplate → ManifestRequestTemplate
  without_finalizer mrt = record mrt {
    metadata = w.kube.remove_finalizer mrt.metadata governance_finalizer;
  }

  unfoldable pub handle_state_delete_remove_finalizer : Action w CtrlResult
  unfolding ◌>>=◌ wrapped modify update
  handle_state_delete_remove_finalizer = do
    modify (host w) without_finalizer
    wrapped "remove finalizer from ManifestRequestTemplate" (update (host w))
    pure no_requeue

  unfoldable pub clean_up : Action w CtrlResult
  unfolding ◌>>=◌ wrapped ignore handle_state_delete_restore_argocd
      handle_state_delete_remove_governance_folder handle_state_delete_remove_finalizer
  clean_up = do
    wrapped "failed to restore ArgoCD Application during deletion"
        handle_state_delete_restore_argocd
    ignore handle_state_delete_remove_governance_folder
    handle_state_delete_remove_finalizer

  unfoldable pub reconcile_delete : Action w CtrlResult
  unfolding ◌>>=◌ current clean_up
  reconcile_delete = do
    mrt ← current (host w)
    if not (w.kube.contains_finalizer mrt.metadata governance_finalizer)
        then pure no_requeue
        else clean_up

  unfoldable pub release_stale : ActionState → Action w CtrlResult
  unfolding ◌>>=◌ release_lock_with_failure
  release_stale state = do
    release_lock_with_failure (host w) state "lock acquired for too long"
    pure requeue_now

  unfoldable pub dispatch : ManifestRequestTemplate → Action w CtrlResult
  unfolding reconcile_delete reconcile_create reconcile_normal handle_result ◌>>=◌
  dispatch mrt =
      if is_some mrt.metadata.deletion_timestamp
      then polled reconcile_delete
      else (if not (w.kube.contains_finalizer mrt.metadata governance_finalizer)
          then polled (reconcile_create w)
          else polled reconcile_normal)

  unfoldable pub reconcile : ManifestRef → Action w CtrlResult
  unfolding ◌>>=◌ current fetch time_now release_stale dispatch
  reconcile key = do
    found ← fetch (host w) key
    if not found then pure no_requeue else do
      mrt ← current (host w)
      now ← time_now (host w)
      if is_lock_for_more_than w mrt 30 now
          then release_stale mrt.status.action_state
          else dispatch mrt
