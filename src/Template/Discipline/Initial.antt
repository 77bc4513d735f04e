-- ===== src/Template/Discipline/Initial.antt =====
-- The initialization of the MRT controller, from its handlers and the lock.
use quorum_based_manifests_g.Common.{List, String, Result, ok, err, refl}
use quorum_based_manifests_g.Api.{FileChange, ManifestRef, ObjectMeta}
use quorum_based_manifests_g.Api.Template.{ActionState, Application}
use quorum_based_manifests_g.Exec.{wrapped, Triple-bind, Triple-pure, Triple-wrapped}
use quorum_based_manifests_g.Controller.{current, modify, update, status_update}
use quorum_based_manifests_g.Controller.Triples.{HostLaws, modify-Free, update-Free}
use quorum_based_manifests_g.Controller.Keeps.{
  Keeps-pure, Keeps-modify, Keeps-status_update, Reading, Reading-current, Reading-raise,
  Reading-wrapped, reading_rules,
}
use quorum_based_manifests_g.Controller.Discipline.{Free-Working, Keeps-Working}
use quorum_based_manifests_g.Template.World.{World, Action, Effect, host}
use quorum_based_manifests_g.Template.Create.{
  repository_with_error, set_target_revision, set_queue_ref, save_target_revision, check_path,
  create_resources, handle_state_save_argocd_target_revision, check_empty, files_at_head,
  handle_state_check_governance_path_empty, created, create, owned, create_defaults, files_before,
  create_linked_default_resources, handle_init_state_create_cluster_resources, with_finalizer,
  handle_state_finalizing, create_step, reconcile_create,
}
use quorum_based_manifests_g.Template.Discipline.Handlers.{Permit, Keeps, rules, git_rules}
use quorum_based_manifests_g.Template.Discipline.Locks.{with_lock_lem}

module _ (w : World) where
  files_at_head-Keeps : (path : String) (repo : w.Repository) → Keeps w (files_at_head w path repo)
  unfolding files_at_head
  files_at_head-Keeps path repo = search (rules) depth 8

  check_empty-Keeps : (path : String) (files : List FileChange) → Keeps w (check_empty w path files)
  unfolding check_empty
  check_empty-Keeps path files = search rules

  created-Keeps : (kind : String) (answer : Result (Unit {0})) → Keeps w (created w kind answer)
  unfolding created
  created-Keeps kind (ok _) = Keeps-pure (host w) Permit tt
  created-Keeps kind (err e) = search rules

  create-Keeps :
      (kind : String) (e : Effect) (op : w.State → Result (Unit {0}) × w.State)
      → Keeps w (create w kind e op)
  unfolding create
  create-Keeps kind e op = search (rules, created-Keeps)

  owned-Keeps : (kind : String) (m : ObjectMeta) → Keeps w (owned w kind m)
  unfolding owned
  owned-Keeps kind m = search rules

  files_before-Keeps :
      (revision : String) (application : Application) (repo : w.Repository)
      → Keeps w (files_before w revision application repo)
  unfolding files_before
  files_before-Keeps revision application repo = search rules

  module _ (laws : HostLaws (host w)) where
    queue_ref-Keeps : (ref : ManifestRef) → Keeps w (modify (host w) (set_queue_ref ref))
    queue_ref-Keeps ref = Keeps-modify (host w) Permit (set_queue_ref ref) (λ m. refl)

    target-Keeps : (revision : String) → Keeps w (modify (host w) (set_target_revision revision))
    target-Keeps revision = Keeps-modify (host w) Permit (set_target_revision revision) (λ m. refl)

    status-Keeps : Keeps w (status_update (host w))
    status-Keeps = Keeps-status_update (host w) Permit laws

    create_defaults-Keeps :
        (application : Application) (revision : String) (files : List FileChange)
        → Keeps w (create_defaults w application revision files)
    unfolding create_defaults
    create_defaults-Keeps application revision files =
        search (rules, owned-Keeps, create-Keeps, queue_ref-Keeps, status-Keeps) depth 20

    resources-Keeps : Keeps w (create_linked_default_resources w)
    unfolding create_linked_default_resources
    resources-Keeps = search (git_rules, files_before-Keeps, create_defaults-Keeps) depth 12

    locked :
        (state : ActionState) (message : String) (handler : Action w ActionState)
        → Keeps w handler
        → Reading
            (host w)
            Permit
            (quorum_based_manifests_g.Template.Locking.with_lock w state message handler)
    locked state message handler k =
        with_lock_lem w laws state message handler (Keeps-Working (host w) Permit handler k)

    save_target-Keeps : Keeps w (save_target_revision w)
    unfolding save_target_revision
    save_target-Keeps = search (git_rules, target-Keeps, status-Keeps) depth 9

    save_target_lem : Reading (host w) Permit (handle_state_save_argocd_target_revision w)
    unfolding handle_state_save_argocd_target_revision
    save_target_lem = locked ActionState.save_argocd_target_revision _ _ save_target-Keeps

    check_path-Keeps : Keeps w (check_path w)
    unfolding check_path
    check_path-Keeps = search (git_rules, files_at_head-Keeps, check_empty-Keeps) depth 9

    check_path_lem : Reading (host w) Permit (handle_state_check_governance_path_empty w)
    unfolding handle_state_check_governance_path_empty
    check_path_lem = locked ActionState.check_governance_path_empty _ _ check_path-Keeps

    create_resources-Keeps : Keeps w (create_resources w)
    unfolding create_resources
    create_resources-Keeps = search (rules, resources-Keeps)

    resources_lem : Reading (host w) Permit (handle_init_state_create_cluster_resources w)
    unfolding handle_init_state_create_cluster_resources
    resources_lem = locked ActionState.create_default_cluster_resources _ _ create_resources-Keeps

    finalizing_lem : Reading (host w) Permit (handle_state_finalizing w)
    unfolding handle_state_finalizing
    finalizing_lem = with_lock_lem w laws ActionState.init_set_finalizer _ _ (
        Triple-bind (modify (host w) (with_finalizer w)) _
          (Free-Working (host w) Permit (modify (host w) (with_finalizer w))
            (modify-Free (host w) Permit (with_finalizer w)))
          λ _.
            Triple-bind (wrapped "add finalizer in initialization" (update (host w))) _
              (Triple-wrapped "add finalizer in initialization" (update (host w))
                (update-Free (host w) Permit (λ b. tt)))
              λ _. Triple-pure ActionState.empty)

    create_step_lem : (state : ActionState) → Reading (host w) Permit (create_step w state)
    unfolding create_step
    create_step_lem ActionState.empty = save_target_lem
    create_step_lem ActionState.save_argocd_target_revision = save_target_lem
    create_step_lem ActionState.check_governance_path_empty = check_path_lem
    create_step_lem ActionState.create_default_cluster_resources = resources_lem
    create_step_lem ActionState.init_set_finalizer = finalizing_lem
    create_step_lem ActionState.delete_restore_argocd = Reading-raise (host w) Permit _
    create_step_lem ActionState.delete_remove_governance_folder = Reading-raise (host w) Permit _
    create_step_lem ActionState.delete_remove_finalizer = Reading-raise (host w) Permit _
    create_step_lem ActionState.checking_dependencies = Reading-raise (host w) Permit _
    create_step_lem ActionState.new_revision = Reading-raise (host w) Permit _
    create_step_lem (ActionState.unknown s) = Reading-raise (host w) Permit _

    provider-Reading : Reading (host w) Permit (repository_with_error w)
    unfolding repository_with_error
    provider-Reading = search reading_rules

    pub reconcile_create_lem : Reading (host w) Permit (reconcile_create w)
    unfolding reconcile_create
    reconcile_create_lem =
        Triple-bind (wrapped "init repo for ManifestRequestTemplate" (repository_with_error w)) _
          (Reading-wrapped (host w) Permit _ (repository_with_error w) provider-Reading)
          λ _.
            Triple-bind (current (host w)) _ (Reading-current (host w) Permit)
              λ mrt. create_step_lem mrt.status.action_state
