-- ===== src/Template/Create.antt =====
-- The initialization of an MRT: four steps under the lock, each of which names the next.
use quorum_based_manifests_g.Common.{
  length, ltb, List, Option, none, some, String, ◌==◌, ◌+++◌, Result, ok, err, with_context, lookup,
  if◌then◌else◌,
}
use quorum_based_manifests_g.Api.{FileChange, ManifestRef, ObjectMeta}
use quorum_based_manifests_g.Api.Template.{ActionState, ManifestRequestTemplate, Application, text}
use quorum_based_manifests_g.Kube.{CtrlResult, governance_finalizer}
use quorum_based_manifests_g.Exec.{pure, raise, ◌>>=◌, ◌>>◌, wrapped, both}
use quorum_based_manifests_g.Controller.{call, effect, current, modify, update, status_update}
use quorum_based_manifests_g.Controller.Git.{with_git_repository}
use quorum_based_manifests_g.Template.World.{
  World, Action, Effect, created_msr, created_mca, created_queue, host,
}
use quorum_based_manifests_g.Template.Compare.{governance_path}
use quorum_based_manifests_g.Template.Build.{
  build_initial_msr, build_initial_mca, build_initial_governance_queue,
}
use quorum_based_manifests_g.Template.Locking.{with_lock}

abbrev pub set_target_revision : String → ManifestRequestTemplate → ManifestRequestTemplate
set_target_revision revision mrt = record mrt {
  status = record mrt.status { application_init_target_revision = revision };
}

abbrev pub set_queue_ref : ManifestRef → ManifestRequestTemplate → ManifestRequestTemplate
set_queue_ref ref mrt = record mrt { status = record mrt.status { revision_queue_ref = ref } }

-- `mrt.GetAnnotations()[QubmangoMRTCreationCommitAnnotation]`, empty if it is missing
abbrev pub annotation_of : Option String → String
annotation_of none = ""
annotation_of (some revision) = revision

module _ (w : World) where
  unfoldable pub get_application : Action w Application
  unfolding ◌>>=◌ wrapped current call
  get_application = do
    mrt ← current (host w)
    wrapped "fetch Application associated with ManifestRequestTemplate"
        (call (host w) (w.get_application mrt.spec.application))

  -- `repositoryWithError`, and the provider for `withGitRepository`.
  unfoldable pub repository_with_error : Action w (Option w.Repository)
  unfolding ◌>>=◌ current call
  repository_with_error = do mrt ← current (host w); call (host w) (w.get_provider_for_mrt mrt)

  -- The handler of the next function.
  unfoldable pub save_target_revision : Action w ActionState
  unfolding ◌>>=◌ wrapped modify status_update get_application
  save_target_revision = do
    application ←
        wrapped "fetch Application associated with ManifestRequestTemplate" get_application
    modify (host w) (set_target_revision application.target_revision)
    wrapped "update MRT ApplicationInitTargetRevision" (status_update (host w))
    pure ActionState.check_governance_path_empty

  unfoldable pub handle_state_save_argocd_target_revision : Action w CtrlResult
  unfolding save_target_revision with_lock
  handle_state_save_argocd_target_revision =
      with_lock w ActionState.save_argocd_target_revision "Save Application initial targetRevision"
        save_target_revision

  -- The number of files is left out of the message.
  unfoldable pub check_empty : String → List FileChange → Action w ActionState
  unfolding raise
  check_empty path changed_files =
      if ltb 0 (length changed_files)
      then raise ("governance path is not empty, found files at path " +++ path)
      else pure ActionState.create_default_cluster_resources

  unfoldable pub files_at_head : String → w.Repository → Action w (List FileChange)
  unfolding ◌>>=◌ wrapped call
  files_at_head path repository = do
    latest_revision ←
        wrapped "get latest revision from repository"
          (call (host w) (w.get_latest_revision repository))
    found ←
        wrapped "get files from governance path"
          (call (host w) (w.get_changed_files repository "" latest_revision path))
    pure found.0

  -- The handler of the next function.
  unfoldable pub check_path : Action w ActionState
  unfolding ◌>>=◌ current governance_path with_git_repository repository_with_error files_at_head
      check_empty
  check_path = do
    mrt ← current (host w)
    let path = governance_path mrt
    changed_files ← with_git_repository (host w) repository_with_error (files_at_head path)
    check_empty path changed_files

  unfoldable pub handle_state_check_governance_path_empty : Action w CtrlResult
  unfolding check_path with_lock
  handle_state_check_governance_path_empty =
      with_lock w ActionState.check_governance_path_empty "Checking governance path is empty"
        check_path

  -- `r.Create(ctx, object)`, where an object that is there already is no error.
  unfoldable pub created : String → Result (Unit {0}) → Action w (Unit {0})
  unfolding raise
  created kind (ok _) = pure tt
  created kind (err e) =
      if w.is_already_exists e
      then pure tt
      else raise (with_context ("while creating default " +++ kind) e)

  unfoldable pub create :
      String → Effect → (w.State → Result (Unit {0}) × w.State) → Action w (Unit {0})
  unfolding ◌>>=◌ both effect created
  create kind e op = do answer ← both (effect (host w) e op); created kind answer

  -- `ctrl.SetControllerReference(mrt, object, r.Scheme)`
  unfoldable pub owned : String → ObjectMeta → Action w ObjectMeta
  unfolding ◌>>=◌ wrapped current call
  owned kind metadata = do
    mrt ← current (host w)
    wrapped ("while setting controllerReference for " +++ kind)
        (call (host w) (λ s. (w.set_controller_reference mrt.metadata metadata, s)))

  -- The objects, from the files that were there before the template.
  unfoldable pub create_defaults : Application → String → List FileChange → Action w (Unit {0})
  unfolding ◌>>=◌ wrapped current modify status_update owned create build_initial_msr
      build_initial_mca build_initial_governance_queue
  create_defaults application revision file_changes = do
    mrt ← current (host w)
    let initial_msr = build_initial_msr mrt application file_changes revision
    msr_meta ← owned "ManifestSigningRequest" initial_msr.metadata
    let msr = record initial_msr { metadata = msr_meta }
    create "ManifestSigningRequest" (created_msr msr) (w.create_msr msr)
    let initial_mca = build_initial_mca mrt msr application file_changes revision
    mca_meta ← owned "ManifestChangeApproval" initial_mca.metadata
    let mca = record initial_mca { metadata = mca_meta }
    create "ManifestChangeApproval" (created_mca mca) (w.create_mca mca)
    let initial_queue = build_initial_governance_queue mrt
    queue_meta ← owned "GovernanceQueue" initial_queue.metadata
    let queue = record initial_queue { metadata = queue_meta }
    create "GovernanceQueue" (created_queue queue) (w.create_queue queue)
    modify (host w)
        (set_queue_ref (record { name = queue_meta.name; namespace = queue_meta.namespace }))
    wrapped "update MRT RevisionQueueRef" (status_update (host w))

  unfoldable pub files_before : String → Application → w.Repository → Action w (List FileChange)
  unfolding ◌>>=◌ call
  files_before revision application repo = do
    found ← call (host w) (w.get_changed_files repo "" revision application.source_path)
    pure found.0

  unfoldable pub create_linked_default_resources : Action w (Unit {0})
  unfolding ◌>>=◌ wrapped current raise lookup get_application with_git_repository
      repository_with_error files_before create_defaults
  create_linked_default_resources = do
    application ←
        wrapped "fetch Application associated with ManifestRequestTemplate" get_application
    mrt ← current (host w)
    let revision =
        annotation_of
          (lookup "governance.nazar.grynko.com/mrt-creation-commit-sha" mrt.metadata.annotations)
    if revision == "" then raise "missing creation commit annotation on MRT during creation" else do
      file_changes ←
          wrapped ("fetch changes between init commit and " +++ revision)
            (with_git_repository (host w) repository_with_error (files_before revision application))
      create_defaults application revision file_changes

  -- The handler of the next function.
  unfoldable pub create_resources : Action w ActionState
  unfolding ◌>>=◌ wrapped create_linked_default_resources
  create_resources = do
    wrapped "create linked default resources" create_linked_default_resources
    pure ActionState.init_set_finalizer

  unfoldable pub handle_init_state_create_cluster_resources : Action w CtrlResult
  unfolding create_resources with_lock
  handle_init_state_create_cluster_resources =
      with_lock w ActionState.create_default_cluster_resources
        "Creating MSR/MCA/GovernanceQueue in cluster" create_resources

  abbrev pub with_finalizer : ManifestRequestTemplate → ManifestRequestTemplate
  with_finalizer mrt = record mrt {
    metadata = w.kube.add_finalizer mrt.metadata governance_finalizer;
  }

  unfoldable pub handle_state_finalizing : Action w CtrlResult
  unfolding ◌>>=◌ wrapped modify update with_lock
  handle_state_finalizing =
      with_lock w ActionState.init_set_finalizer "Setting the GovernanceFinalizer on MRT" do
        modify (host w) with_finalizer
        wrapped "add finalizer in initialization" (update (host w))
        pure ActionState.empty

  -- The `switch` on the state.
  unfoldable pub create_step : ActionState → Action w CtrlResult
  unfolding handle_state_save_argocd_target_revision handle_state_check_governance_path_empty
      handle_init_state_create_cluster_resources handle_state_finalizing raise
  create_step ActionState.empty = handle_state_save_argocd_target_revision
  create_step ActionState.save_argocd_target_revision = handle_state_save_argocd_target_revision
  create_step ActionState.check_governance_path_empty = handle_state_check_governance_path_empty
  create_step ActionState.create_default_cluster_resources =
      handle_init_state_create_cluster_resources
  create_step ActionState.init_set_finalizer = handle_state_finalizing
  create_step state = raise (with_context "unknown initialization state" (text state))

  unfoldable pub reconcile_create : Action w CtrlResult
  unfolding ◌>>=◌ wrapped current repository_with_error create_step
  reconcile_create = do
    wrapped "init repo for ManifestRequestTemplate" repository_with_error
    mrt ← current (host w)
    create_step mrt.status.action_state
