-- ===== src/Approval/Discipline/Paths.antt =====
-- The initialization and the reconciliation of the MCA controller, from the handlers and the lock.
use quorum_based_manifests_g.Common.{not, ◌&&◌, Option, Result, ok, err, String, ltb_ℤ}
use quorum_based_manifests_g.Api.Approval.{ActionState, ReconcileState, same_state}
use quorum_based_manifests_g.Kube.{
  CtrlResult, progressing, governance_finalizer, no_requeue, requeue_now, requeue_in,
}
use quorum_based_manifests_g.Exec.{
  pure, ◌>>=◌, wrapped, both, Triple-bind, Triple-pure, Triple-return, Triple-if, Triple-wrapped,
  Triple-both,
}
use quorum_based_manifests_g.Controller.{effect, current, modify, update}
use quorum_based_manifests_g.Controller.Lock.{with_lock, with_sub_lock}
use quorum_based_manifests_g.Controller.Triples.{
  HostLaws, Triple-current, modify-Released, update-Free, update-Released, modify-Free,
}
use quorum_based_manifests_g.Controller.Keeps.{
  Reading, Reading-current, Reading-raise, Reading-wrapped, Keeps-wrapped,
}
use quorum_based_manifests_g.Controller.Discipline
use quorum_based_manifests_g.Controller.Discipline.{
  Working, then_pure, Reading-any, Releasing-any, release_and_lem, fail_with_lem, with_lock_lem,
  with_sub_lock_lem, under_lock_lem, Keeps-Working,
}
use quorum_based_manifests_g.Approval.World.{World, Action, notified, host}
use quorum_based_manifests_g.Approval.Save.{
  repository_with_error, save_in_repository, save_summary_changes, save_new_history_record,
}
use quorum_based_manifests_g.Approval.Create.{
  handle_state_git_commit, handle_state_push_summary_files, handle_update_after_git_push,
  patch_target_revision, handle_state_update_argocd, with_finalizer, handle_state_finalizer,
  create_step, reconcile_create,
}
use quorum_based_manifests_g.Approval.Normal.{
  set_reconcile_state, handle_mca_reconcile_state_git_commit,
  handle_mca_reconcile_state_push_summary_files, handle_mca_reconcile_state_update_after_git_push,
  handle_reconcile_state_update_argocd, handle_reconcile_state_notify_governors, reconcile_step,
  with_repository, handle_reconcile_new_mca_spec, normal_step, reconcile_normal,
  latest_history_version, without_finalizer, reconcile_delete,
}
use quorum_based_manifests_g.Approval.Discipline.Handlers.{
  Permit, permitted, repository_with_error-Keeps, repository_with_error-Reading,
  save_in_repository-Keeps, save_summary_changes-Keeps, patch_target_revision-Keeps,
  save_new_history_record-Keeps,
}

module _ (w : World) (laws : HostLaws (host w)) where
  abbrev pub Ends : Action w CtrlResult → Type 0
  Ends m = Reading (host w) Permit m

  abbrev Releases : Action w CtrlResult → Type 0
  Releases m = Discipline.Releasing (host w) Permit m

  locked :
      (state : ActionState) (message : String) (handler : Action w ActionState)
      → Working (host w) Permit handler
      → Ends (with_lock (host w) state message handler)
  locked = with_lock_lem (host w) Permit laws

  sub_locked :
      (next : ActionState) (handler : Action w ReconcileState)
      → Working (host w) Permit handler
      → Releases (
          with_sub_lock
            (host w)
            set_reconcile_state
            "ReconcileState"
            ActionState.new_mca_spec
            next
            handler)
  sub_locked =
      with_sub_lock_lem (host w) Permit laws set_reconcile_state "ReconcileState"
        ActionState.new_mca_spec

  module _ {A : Type 0} (next : A) where
    git_commit :
        Working
          (host w)
          Permit
          (wrapped "save MCA in Git repository" (save_in_repository w) >>= λ _. pure next)
    git_commit =
        then_pure (host w) Permit (wrapped "save MCA in Git repository" (save_in_repository w)) next
          (Keeps-wrapped (host w) Permit _ (save_in_repository w) (save_in_repository-Keeps w))

    push_summary_files :
        Working
          (host w)
          Permit
          (wrapped "save summary changes" (save_summary_changes w) >>= λ _. pure next)
    push_summary_files =
        then_pure (host w) Permit (wrapped "save summary changes" (save_summary_changes w)) next
          (Keeps-wrapped (host w) Permit _ (save_summary_changes w) (save_summary_changes-Keeps w))

    after_git_push :
        Working
          (host w)
          Permit
          (save_new_history_record w "update MCA information after Git push" >>= λ _. pure next)
    after_git_push =
        then_pure (host w) Permit
          (save_new_history_record w "update MCA information after Git push") next
          (save_new_history_record-Keeps w laws _)

    update_argocd : Working (host w) Permit (patch_target_revision w >>= λ _. pure next)
    update_argocd =
        then_pure (host w) Permit (patch_target_revision w) next (patch_target_revision-Keeps w)

  finalizer_lem : Ends (handle_state_finalizer w)
  unfolding handle_state_finalizer
  finalizer_lem = locked ActionState.init_set_finalizer _ _ (
      Triple-bind (modify (host w) (with_finalizer w)) _
        (Discipline.Free-Working (host w) Permit (modify (host w) (with_finalizer w))
          (modify-Free (host w) Permit (with_finalizer w)))
        λ _.
          Triple-bind (wrapped "add finalizer in initialization" (update (host w))) _
            (Triple-wrapped "add finalizer in initialization" (update (host w))
              (update-Free (host w) Permit (λ b. tt)))
            λ _. Triple-pure ActionState.empty)

  create_step_lem : (state : ActionState) → Ends (create_step w state)
  unfolding create_step handle_state_git_commit handle_state_push_summary_files
      handle_update_after_git_push handle_state_update_argocd
  create_step_lem ActionState.empty = locked ActionState.git_push_mca _ _ (git_commit _)
  create_step_lem ActionState.git_push_mca = locked ActionState.git_push_mca _ _ (git_commit _)
  create_step_lem ActionState.push_summary_files =
      locked ActionState.push_summary_files _ _ (push_summary_files _)
  create_step_lem ActionState.update_after_git_push =
      locked ActionState.update_after_git_push _ _ (after_git_push _)
  create_step_lem ActionState.update_argocd = locked ActionState.update_argocd _ _ (update_argocd _)
  create_step_lem ActionState.init_set_finalizer = finalizer_lem
  create_step_lem ActionState.deletion = Reading-raise (host w) Permit _
  create_step_lem ActionState.new_mca_spec = Reading-raise (host w) Permit _
  create_step_lem (ActionState.unknown s) = Reading-raise (host w) Permit _

  pub reconcile_create_lem : Ends (reconcile_create w)
  unfolding reconcile_create
  reconcile_create_lem =
      Triple-bind (wrapped "init repo for ManifestChangeApproval" (repository_with_error w)) _
        (Reading-wrapped (host w) Permit _ (repository_with_error w)
          (repository_with_error-Reading w))
        λ _.
          Triple-bind (current (host w)) _ (Reading-current (host w) Permit)
            λ mca. create_step_lem mca.status.action_state

  notify_lem : Releases (handle_reconcile_state_notify_governors w)
  unfolding handle_reconcile_state_notify_governors
  notify_lem = sub_locked ActionState.empty _ (
      Triple-bind (current (host w)) _ (Triple-current (host w) Permit) λ mca.
        let send = effect (host w) notified (w.notify_governors_mca mca) in
        then_pure (host w) Permit (wrapped "send notification to governors" send) _ (
          Keeps-wrapped (host w) Permit _ send (permitted w notified (w.notify_governors_mca mca))))

  fail_lem :
      (cause e : String)
      → Releases (
          quorum_based_manifests_g.Controller.Lock.fail_with
            (host w)
            ActionState.new_mca_spec
            cause
            e)
  fail_lem cause e =
      Releasing-any (host w) Permit _
        (fail_with_lem (host w) Permit laws ActionState.new_mca_spec cause e)

  reconcile_step_lem : (state : ReconcileState) → Releases (reconcile_step w state)
  unfolding reconcile_step handle_mca_reconcile_state_git_commit
      handle_mca_reconcile_state_push_summary_files handle_mca_reconcile_state_update_after_git_push
      handle_reconcile_state_update_argocd
  reconcile_step_lem ReconcileState.empty = sub_locked ActionState.new_mca_spec _ (git_commit _)
  reconcile_step_lem ReconcileState.git_push_mca =
      sub_locked ActionState.new_mca_spec _ (git_commit _)
  reconcile_step_lem ReconcileState.push_summary_files =
      sub_locked ActionState.new_mca_spec _ (push_summary_files _)
  reconcile_step_lem ReconcileState.update_after_git_push =
      sub_locked ActionState.new_mca_spec _ (after_git_push _)
  reconcile_step_lem ReconcileState.update_argocd =
      sub_locked ActionState.new_mca_spec _ (update_argocd _)
  reconcile_step_lem ReconcileState.notify_governors = notify_lem
  reconcile_step_lem (ReconcileState.unknown s) = fail_lem _ _

  with_repository_lem : (found : Result (Option w.Repository)) → Releases (with_repository w found)
  unfolding with_repository
  with_repository_lem (ok found) =
      Triple-bind (current (host w)) _ (Triple-current (host w) Permit)
        λ mca. reconcile_step_lem mca.status.reconcile_state
  with_repository_lem (err e) = fail_lem _ _

  new_mca_spec_lem : Ends (handle_reconcile_new_mca_spec w)
  unfolding handle_reconcile_new_mca_spec
  new_mca_spec_lem =
      under_lock_lem (host w) Permit laws ActionState.new_mca_spec "Processing new MCA Spec" _ (
        Triple-bind (both (repository_with_error w)) _
          (Triple-both (repository_with_error w) (repository_with_error-Keeps w))
          with_repository_lem)

  released :
      (result : CtrlResult) (state : ActionState)
      → Ends (quorum_based_manifests_g.Controller.Lock.release_and (host w) result state)
  released result state =
      Reading-any (host w) Permit _ (release_and_lem (host w) Permit laws result state)

  normal_step_lem : (state : ActionState) → Ends (normal_step w state)
  unfolding normal_step
  normal_step_lem ActionState.new_mca_spec = new_mca_spec_lem
  normal_step_lem ActionState.empty = released no_requeue ActionState.empty
  normal_step_lem ActionState.git_push_mca = released no_requeue ActionState.empty
  normal_step_lem ActionState.push_summary_files = released no_requeue ActionState.empty
  normal_step_lem ActionState.update_after_git_push = released no_requeue ActionState.empty
  normal_step_lem ActionState.update_argocd = released no_requeue ActionState.empty
  normal_step_lem ActionState.init_set_finalizer = released no_requeue ActionState.empty
  normal_step_lem ActionState.deletion = released no_requeue ActionState.empty
  normal_step_lem (ActionState.unknown s) = released no_requeue ActionState.empty

  pub reconcile_normal_lem : Ends (reconcile_normal w)
  unfolding reconcile_normal
  reconcile_normal_lem = Triple-bind (current (host w)) _ (Reading-current (host w) Permit) λ mca.
      Triple-if (w.kube.is_status_condition_true mca.status.conditions progressing) _ _
        (Triple-return (requeue_in 15) (λ r p. p))
        (Triple-if
          (same_state mca.status.action_state ActionState.empty
            && ltb_ℤ (latest_history_version mca) mca.spec.version)
          _ _ (released requeue_now ActionState.new_mca_spec)
          (normal_step_lem mca.status.action_state))

  pub reconcile_delete_lem : Ends (reconcile_delete w)
  unfolding reconcile_delete
  reconcile_delete_lem = Triple-bind (current (host w)) _ (Reading-current (host w) Permit) λ mca.
      Triple-if (not (w.kube.contains_finalizer mca.metadata governance_finalizer)) _ _
        (Triple-return no_requeue (λ r p. p))
        (Triple-bind (modify (host w) (without_finalizer w)) _
          (modify-Released (host w) Permit (without_finalizer w))
          λ _.
            Triple-bind
              (wrapped "remove finalizer governance.nazar.grynko.com/finalizer" (update (host w))) _
              (Triple-wrapped "remove finalizer governance.nazar.grynko.com/finalizer"
                (update (host w)) (update-Released (host w) Permit (λ b. tt)))
              λ _. Triple-pure no_requeue)
