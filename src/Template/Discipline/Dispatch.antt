-- ===== src/Template/Discipline/Dispatch.antt =====
-- The idle template, the deletion and the dispatch of the MRT controller.
use quorum_based_manifests_g.Common.{not, inl, Option, some, none, Result, ok, err, String, Bool}
use quorum_based_manifests_g.Api.{ManifestRef}
use quorum_based_manifests_g.Api.Template.{ActionState, ManifestRequestTemplate}
use quorum_based_manifests_g.Kube.{
  CtrlResult, progressing, governance_finalizer, no_requeue, requeue_now, requeue_in,
}
use quorum_based_manifests_g.Exec.{
  Triple, wrapped, both, ignore, Triple-bind, Triple-pure, Triple-return, Triple-if, Triple-wrapped,
  Triple-both, Triple-ignore, Triple-weaken,
}
use quorum_based_manifests_g.Controller.{
  effect, current, modify, update, fetch, time_now, polled, handle_result,
}
use quorum_based_manifests_g.Controller.Git.{provided, with_git_repository}
use quorum_based_manifests_g.Controller.Lock.{
  release_and, release_lock_with_failure, is_lock_for_more_than,
}
use quorum_based_manifests_g.Controller.Triples.{
  HostLaws, effect_free, effect-Released, modify-Released, update-Released, Free, Released,
  fetch-Released, time_now-Released,
}
use quorum_based_manifests_g.Controller.Keeps.{
  Reading, reading_rules, Quiet, quiet_rules, Quiet-raise, Quiet-pure, Reading-pure,
  Reading-wrapped, Reading-current,
}
use quorum_based_manifests_g.Controller.Discipline.{
  Settled, Reading-any, release_and_lem, release_failure_lem,
}
use quorum_based_manifests_g.Approval.Normal.{is_some}
use quorum_based_manifests_g.Template.World.{
  World, Action, restored, deleted_folder, created_event, host,
}
use quorum_based_manifests_g.Template.Queue.{queue_contains_revision, create_new_revision_event}
use quorum_based_manifests_g.Template.Create.{
  get_application, repository_with_error, reconcile_create,
}
use quorum_based_manifests_g.Template.Normal.{
  any_revision_events, check_for_new_commits, process_commit, decide, normal_step, reconcile_normal,
  handle_state_delete_restore_argocd, delete_governance_folder_from_repository,
  handle_state_delete_remove_governance_folder, without_finalizer,
  handle_state_delete_remove_finalizer, clean_up, reconcile_delete, release_stale, dispatch,
  reconcile,
}
use quorum_based_manifests_g.Template.Discipline.Handlers.{Permit}
use quorum_based_manifests_g.Template.Discipline.Initial.{reconcile_create_lem}
use quorum_based_manifests_g.Template.Discipline.Work.{Settles, processing_revision_lem}

module _ (w : World) where
  abbrev Reads : {A : Type 0} → Action w A → Type 0
  Reads m = Reading (host w) Permit m

  abbrev Still : {A : Type 0} → Action w A → Type 0
  Still m = Quiet (host w) Permit m

  provider-Still : Still (repository_with_error w)
  unfolding repository_with_error
  provider-Still = search quiet_rules

  provided-Still : (found : Option w.Repository) → Still (provided (host w) found)
  unfolding provided
  provided-Still none = Quiet-raise (host w) Permit _
  provided-Still (some repo) = Quiet-pure (host w) Permit repo

  git-Still :
      {A : Type 0} (op : w.Repository → Action w A)
      → ((repo : w.Repository) → Still (op repo))
      → Still (with_git_repository (host w) (repository_with_error w) op)
  unfolding with_git_repository
  git-Still op k = search (quiet_rules, provider-Still, provided-Still, k)

  contains-Still : (revision uid : String) → Still (queue_contains_revision w revision uid)
  unfolding queue_contains_revision
  contains-Still revision uid = search quiet_rules depth 7

  new_commits-Still : Still (check_for_new_commits w)
  unfolding check_for_new_commits
  new_commits-Still = search (quiet_rules, git-Still, contains-Still) depth 9

  create_event-Reading :
      (revision : String) (ref : ManifestRef) (uid : String)
      → Reads (create_new_revision_event w revision ref uid)
  unfolding create_new_revision_event
  create_event-Reading revision ref uid =
      Reading-wrapped (host w) Permit _ _
        (effect-Released (host w) Permit (created_event _) _ (λ b. tt))

  any_events-Reading : Reads (any_revision_events w)
  unfolding any_revision_events
  any_events-Reading = search reading_rules depth 7

  restored-Reading :
      (revision : String) (op : w.State → Result (Unit {0}) × w.State)
      → Reads (effect (host w) (restored revision) op)
  restored-Reading revision op = effect-Released (host w) Permit (restored revision) op (λ b. tt)

  application-Reading : Reads (get_application w)
  unfolding get_application
  application-Reading = search reading_rules

  restore-Reading : Reads (handle_state_delete_restore_argocd w)
  unfolding handle_state_delete_restore_argocd
  restore-Reading = search (reading_rules, application-Reading, restored-Reading) depth 9

  deleted-Still :
      (path : String) (op : w.State → Result (Unit {0}) × w.State)
      → Still (effect (host w) (deleted_folder path) op)
  deleted-Still path op = effect_free (host w) Permit (deleted_folder path) op (λ b. tt)

  delete_folder-Still :
      (path : String) (repo : w.Repository)
      → Still (delete_governance_folder_from_repository w path repo)
  unfolding delete_governance_folder_from_repository
  delete_folder-Still path repo = search (quiet_rules, deleted-Still)

  remove_folder-Still : Still (handle_state_delete_remove_governance_folder w)
  unfolding handle_state_delete_remove_governance_folder
  remove_folder-Still = search (quiet_rules, git-Still, delete_folder-Still) depth 9

  remove_finalizer-Reading : Reads (handle_state_delete_remove_finalizer w)
  unfolding handle_state_delete_remove_finalizer
  remove_finalizer-Reading =
      Triple-bind (modify (host w) (without_finalizer w)) _
        (modify-Released (host w) Permit (without_finalizer w))
        λ _.
          Triple-bind (wrapped "remove finalizer from ManifestRequestTemplate" (update (host w))) _
            (Triple-wrapped "remove finalizer from ManifestRequestTemplate" (update (host w))
              (update-Released (host w) Permit (λ b. tt)))
            λ _. Triple-pure no_requeue

  reconcile_delete-Reading : Reads (reconcile_delete w)
  unfolding reconcile_delete clean_up
  reconcile_delete-Reading =
      Triple-bind (current (host w)) _ (Reading-current (host w) Permit) λ mrt.
        Triple-if (not (w.kube.contains_finalizer mrt.metadata governance_finalizer)) _ _
          (Triple-return no_requeue (λ r p. p))
          (Triple-bind
            (wrapped "failed to restore ArgoCD Application during deletion"
              (handle_state_delete_restore_argocd w))
            _ (Reading-wrapped (host w) Permit _ _ restore-Reading)
            λ _.
              Triple-bind (ignore (handle_state_delete_remove_governance_folder w)) _
                (Triple-ignore (handle_state_delete_remove_governance_folder w) remove_folder-Still)
                λ _. remove_finalizer-Reading)

  module _ (laws : HostLaws (host w)) where
    ends : (m : Action w CtrlResult) → Reads m → Settles w laws m
    ends m t = Triple-weaken m t (λ r p. p) (λ a r p. (p.0, inl p.1)) (λ r p. p)

    released :
        (result : CtrlResult) (state : ActionState) → Reads (release_and (host w) result state)
    released result state =
        Reading-any (host w) Permit _ (release_and_lem (host w) Permit laws result state)

    process_commit-Reading : (found : Result (Option String)) → Reads (process_commit w found)
    unfolding process_commit
    process_commit-Reading (err e) = Reading-pure (host w) Permit _
    process_commit-Reading (ok none) = Reading-pure (host w) Permit _
    process_commit-Reading (ok (some new_commit)) =
        search (reading_rules, create_event-Reading, released) depth 7

    -- What was read before an error is as it was.
    decide-Reading : (new_revision : Bool) → Reads (decide w new_revision)
    unfolding decide
    decide-Reading new_revision =
        Triple-if new_revision (release_and (host w) requeue_now ActionState.new_revision) _
          (released requeue_now ActionState.new_revision)
          (Triple-bind (both (check_for_new_commits w)) (process_commit w)
            (Triple-both (check_for_new_commits w) new_commits-Still) process_commit-Reading)

    reset : Settles w laws (release_and (host w) no_requeue ActionState.empty)
    reset = ends _ (released no_requeue ActionState.empty)

    normal_step_lem : (state : ActionState) → Settles w laws (normal_step w state)
    unfolding normal_step
    normal_step_lem ActionState.empty = ends _ (
        Triple-bind (wrapped "is any revision event present" (any_revision_events w)) (decide w)
          (Reading-wrapped (host w) Permit _ (any_revision_events w) any_events-Reading)
          decide-Reading)
    normal_step_lem ActionState.new_revision = processing_revision_lem w laws
    normal_step_lem ActionState.save_argocd_target_revision = reset
    normal_step_lem ActionState.check_governance_path_empty = reset
    normal_step_lem ActionState.create_default_cluster_resources = reset
    normal_step_lem ActionState.init_set_finalizer = reset
    normal_step_lem ActionState.delete_restore_argocd = reset
    normal_step_lem ActionState.delete_remove_governance_folder = reset
    normal_step_lem ActionState.delete_remove_finalizer = reset
    normal_step_lem ActionState.checking_dependencies = reset
    normal_step_lem (ActionState.unknown s) = reset

    reconcile_normal_lem : Settles w laws (reconcile_normal w)
    unfolding reconcile_normal
    reconcile_normal_lem = Triple-bind (current (host w)) _ (Reading-current (host w) Permit) λ mrt.
        Triple-if (w.kube.is_status_condition_true mrt.status.conditions progressing) _ _
          (Triple-return (requeue_in 15) (λ r p. (p.0, inl p.1)))
          (normal_step_lem mrt.status.action_state)

    polled-Settles : (m : Action w CtrlResult) → Settles w laws m → Settles w laws (polled m)
    polled-Settles m t = Triple-bind m _ t λ result. Triple-pure (handle_result result)

    release_stale_lem : (state : ActionState) → Reads (release_stale w state)
    unfolding release_stale
    release_stale_lem state = Reading-any (host w) Permit (release_stale w state) (
        Triple-bind (release_lock_with_failure (host w) state "lock acquired for too long") _
          (release_failure_lem (host w) Permit laws state "lock acquired for too long")
          λ _. Triple-pure requeue_now)

    dispatch_lem : (mrt : ManifestRequestTemplate) → Settles w laws (dispatch w mrt)
    unfolding dispatch
    dispatch_lem mrt =
        Triple-if (is_some mrt.metadata.deletion_timestamp) _ _
          (polled-Settles (reconcile_delete w) (ends (reconcile_delete w) reconcile_delete-Reading))
          (Triple-if (not (w.kube.contains_finalizer mrt.metadata governance_finalizer)) _ _
            (polled-Settles (reconcile_create w)
              (ends (reconcile_create w) (reconcile_create_lem w laws)))
            (polled-Settles (reconcile_normal w) reconcile_normal_lem))

    -- A reconciliation of a template that starts without the lock, however the cluster, the
    -- repository and the notifier answer, creates the request, the approval and the queue, gives the
    -- request a new version, takes a revision from the queue and tells the governors of an error
    -- only after it has itself written the lock to the template and before it has written its
    -- release. A run that ends without an error has released the lock, or leaves an object in
    -- memory whose condition reads as released.
    pub reconcile_template-Settled :
        (key : ManifestRef)
        → Triple
            (Released (host w) Permit)
            (reconcile w key)
            (λ _. Settled (host w) Permit)
            (Free (host w) Permit)
    unfolding reconcile
    reconcile_template-Settled key =
        Triple-bind (fetch (host w) key) _ (fetch-Released (host w) Permit key) λ found.
          Triple-if (not found) _ _ (Triple-return no_requeue (λ r p. (p.0, inl p.1))) (
            Triple-bind (current (host w)) _ (Reading-current (host w) Permit) λ mrt.
              Triple-bind (time_now (host w)) _ (time_now-Released (host w) Permit) λ now.
                Triple-if (is_lock_for_more_than (host w) mrt 30 now) _ _
                  (ends (release_stale w mrt.status.action_state)
                    (release_stale_lem mrt.status.action_state))
                  (dispatch_lem mrt))
