-- ===== src/Template/Revision.antt =====
-- The work on a revision of the queue: whether it is skipped, and the next version of the request.
use quorum_based_manifests_g.Common.{
  length, nat_eq, Bool, true, false, not, ◌&&◌, List, [], ◌∷◌, Option, none, some, String, ◌==◌,
  ◌+++◌, Result, ok, err, wrap, lookup, if◌then◌else◌,
}
use quorum_based_manifests_g.Api.{FileChange}
use quorum_based_manifests_g.Api.Signing.{ManifestSigningRequest}
use quorum_based_manifests_g.Api.Approval.{ManifestChangeApproval, HistoryRecord}
use quorum_based_manifests_g.Api.Template.{
  ActionState, RevisionState, ManifestRequestTemplate, Application,
}
use quorum_based_manifests_g.Kube.{CtrlResult}
use quorum_based_manifests_g.Exec.{pure, raise, ◌>>=◌, ◌>>◌, wrapped, ignore}
use quorum_based_manifests_g.Controller.{call, effect, current, modify}
use quorum_based_manifests_g.Controller.Git.{with_git_repository}
use quorum_based_manifests_g.Template.World.{World, Action, updated_msr, notified, host}
use quorum_based_manifests_g.Template.Compare.{
  FieldError, status_text, validate_version_updated, validate_immutable_fields, has_no_new_updates,
  filter_non_manifest_files,
}
use quorum_based_manifests_g.Template.Build.{get_msr_with_new_version}
use quorum_based_manifests_g.Template.Queue.{remove_revisions_queue_head}
use quorum_based_manifests_g.Template.Locking.{with_revision_lock}
use quorum_based_manifests_g.Template.Create.{get_application, repository_with_error}

-- `slices.IndexFunc(...) != -1`
unfoldable pub has_record : String → List HistoryRecord → Bool
has_record revision [] = false
has_record revision (r ∷ history) =
    let rest = has_record revision history in if r.commit_sha == revision then true else rest

abbrev pub set_observed : String → ManifestRequestTemplate → ManifestRequestTemplate
set_observed revision mrt = record mrt {
  status = record mrt.status { last_observed_commit_hash = revision };
}

-- The path of the template itself among the changed files, the last one, or "".
unfoldable pub updated_path : ManifestRequestTemplate → List FileChange → String → String
updated_path mrt [] path = path
updated_path mrt (f ∷ files) path = updated_path mrt files (
    if f.kind == mrt.metadata.kind
      && f.namespace == mrt.metadata.namespace
      && f.name == mrt.metadata.name
      && status_text f.status == "Updated"
    then f.path
    else path)

module _ (w : World) where
  abbrev pub unmarshalled : Option String → Result (Option ManifestRequestTemplate)
  unmarshalled none = err "updated MRT exists in changedFiles but is missing in contentMap"
  unmarshalled (some content) = wrap "unmarshal updated MRT" (w.unmarshal_mrt content)

  unfoldable pub get_mrt_from_changed_files :
      ManifestRequestTemplate
      → List FileChange
      → List (String × String)
      → Result (Option ManifestRequestTemplate)
  unfolding updated_path lookup
  get_mrt_from_changed_files mrt changed_files content_map =
      let path = updated_path mrt changed_files "" in
      if path == "" then ok none else unmarshalled (lookup path content_map)

  -- The message for the errors, if there are any.
  abbrev pub complaint : ManifestRequestTemplate → List FieldError → Option String
  complaint updated_mrt [] = none
  complaint updated_mrt (e ∷ all_errs) = some (w.invalid_error updated_mrt (e ∷ all_errs))

  abbrev pub validated :
      (ManifestRequestTemplate → List FieldError)
      → Result (Option ManifestRequestTemplate)
      → Result (Option String)
  validated validate (err e) = wrap "get updated MRT from changedFiles" (err e)
  validated validate (ok none) = ok none
  validated validate (ok (some updated_mrt)) = ok (complaint updated_mrt (validate updated_mrt))

  unfoldable pub has_mrt_with_old_version :
      ManifestRequestTemplate → List FileChange → List (String × String) → Result (Option String)
  unfolding get_mrt_from_changed_files validate_version_updated
  has_mrt_with_old_version mrt changed_files content_map =
      validated (λ updated_mrt. validate_version_updated mrt updated_mrt [])
        (get_mrt_from_changed_files mrt changed_files content_map)

  unfoldable pub immutable_fields_changed :
      ManifestRequestTemplate → List FileChange → List (String × String) → Result (Option String)
  unfolding get_mrt_from_changed_files validate_immutable_fields
  immutable_fields_changed mrt changed_files content_map =
      validated (λ updated_mrt. validate_immutable_fields mrt updated_mrt [])
        (get_mrt_from_changed_files mrt changed_files content_map)

  unfoldable pub get_msr : Action w ManifestSigningRequest
  unfolding ◌>>=◌ wrapped current call
  get_msr = do
    mrt ← current (host w)
    wrapped "fetch ManifestSigningRequest associated with ManifestRequestTemplate"
        (call (host w) (w.get_msr mrt.spec.msr))

  unfoldable pub get_mca : Action w ManifestChangeApproval
  unfolding ◌>>=◌ wrapped current call
  get_mca = do
    mrt ← current (host w)
    wrapped "fetch ManifestChangeApproval associated with ManifestRequestTemplate"
        (call (host w) (w.get_mca mrt.spec.mca))

  abbrev pub lift : {A : Type 0} → Result A → Action w A
  lift (ok a) = pure a
  lift (err e) = raise e

  -- The comparison with the repository: the revision is not in it, or not after the last request's.
  unfoldable pub skips_in_repository : String → Action w Bool
  unfolding ◌>>=◌ wrapped call with_git_repository repository_with_error get_msr
  skips_in_repository revision = do
    has_revision ← wrapped ("check repository has revision " +++ revision) (
        with_git_repository (host w) (repository_with_error w)
          λ repo. call (host w) (w.has_revision repo revision))
    if not has_revision then pure true else do
      msr ← wrapped "get MSR for MRT" get_msr
      wrapped ("check if revision " +++ revision +++ " is not after " +++ msr.spec.commit_sha) (
          with_git_repository (host w) (repository_with_error w)
            λ repo. call (host w) (w.is_not_after repo msr.spec.commit_sha revision))

  -- Whether the revision is skipped; the reason is only logged.
  unfoldable pub should_skip_revision : String → Action w Bool
  unfolding ◌>>=◌ wrapped current get_mca has_record skips_in_repository
  should_skip_revision revision = do
    mca ← wrapped "get MCA for MRT" get_mca
    mrt ← current (host w)
    if has_record revision mca.status.approval_history
        then pure true
        else (if revision == mrt.status.last_observed_commit_hash
            then pure true
            else skips_in_repository revision)

  -- The revision is taken from the queue.
  unfoldable pub pop_and : RevisionState → Action w RevisionState
  unfolding ◌>>=◌ current remove_revisions_queue_head
  pop_and next = do
    mrt ← current (host w)
    remove_revisions_queue_head w mrt.status.revision_queue_ref
    pure next

  unfoldable pub after_preflight : Bool → Action w RevisionState
  unfolding pop_and
  after_preflight should_skip =
      if should_skip then pop_and RevisionState.abort else pure RevisionState.update_msr_spec

  unfoldable pub handle_sub_state_preflight_check : String → Action w CtrlResult
  unfolding ◌>>=◌ wrapped should_skip_revision after_preflight with_revision_lock
  handle_sub_state_preflight_check revision =
      with_revision_lock w ActionState.new_revision ActionState.new_revision do
        should_skip ←
            wrapped "evaluate new revision from revision queue" (should_skip_revision revision)
        after_preflight should_skip

  -- The revision counts as observed, and the request is left as it is.
  unfoldable pub observed : String → Action w Bool
  unfolding ◌>>=◌ modify
  observed revision = do modify (host w) (set_observed revision); pure false

  unfoldable pub refused : String → String → Action w Bool
  unfolding ◌>>=◌ current modify ignore effect
  refused revision message = do
    modify (host w) (set_observed revision)
    mrt ← current (host w)
    ignore (
        effect (host w) (notified message)
          (w.notify_error mrt mrt.spec.governors.notification_channels message))
    pure false

  unfoldable pub save_new_version :
      ManifestSigningRequest
      → ManifestChangeApproval
      → Application
      → String
      → List FileChange
      → Action w Bool
  unfolding ◌>>=◌ wrapped current effect get_msr_with_new_version
  save_new_version msr mca application revision changed_files = do
    mrt ← current (host w)
    let new_msr =
        get_msr_with_new_version mrt msr application revision mca.spec.commit_sha changed_files
    wrapped "after successful MSR revision processed"
        (effect (host w) (updated_msr new_msr) (w.update_msr new_msr))
    pure true

  -- `go_on` unless there is something to complain about.
  abbrev pub unless_refused : String → Option String → Action w Bool → Action w Bool
  unless_refused revision none go_on = go_on
  unless_refused revision (some message) go_on = refused revision message

  -- From the governed files of the revision.
  unfoldable pub update_with :
      ManifestSigningRequest
      → ManifestChangeApproval
      → Application
      → String
      → List FileChange
      → List (String × String)
      → Action w Bool
  unfolding ◌>>=◌ wrapped current has_no_new_updates has_mrt_with_old_version
      immutable_fields_changed observed refused save_new_version
  update_with msr mca application revision changed_files content_map =
      if nat_eq (length changed_files) 0
      then observed revision
      else (if has_no_new_updates msr changed_files then observed revision else do
        mrt ← current (host w)
        old_version ←
            wrapped "compare version of old and new MRT"
              (lift (has_mrt_with_old_version mrt changed_files content_map))
        unless_refused revision old_version do
          immutable ←
              wrapped "compare immutable fields of old and new MRT"
                (lift (immutable_fields_changed mrt changed_files content_map))
          unless_refused revision immutable
              (save_new_version msr mca application revision changed_files))

  -- Whether the request has a new version.
  unfoldable pub perform_msr_update : String → Action w Bool
  unfolding ◌>>=◌ wrapped current call with_git_repository repository_with_error get_application
      get_mca get_msr filter_non_manifest_files update_with
  perform_msr_update revision = do
    application ←
        wrapped "fetch Application associated with ManifestRequestTemplate" (get_application w)
    mca ← wrapped "get ManifestChangeApproval for ManifestRequestTemplate" get_mca
    msr ← wrapped "get ManifestSigningRequest for ManifestRequestTemplate" get_msr
    res ← wrapped "get changed files" (
        with_git_repository (host w) (repository_with_error w) λ repo.
          call (host w)
            (w.get_changed_files repo mca.spec.commit_sha revision application.source_path))
    mrt ← current (host w)
    update_with msr mca application revision (filter_non_manifest_files res.0 mrt) res.1

  unfoldable pub after_update : Bool → Action w RevisionState
  unfolding pop_and
  after_update continue_msr =
      if not continue_msr then pop_and RevisionState.abort else pure RevisionState.after_msr_update

  unfoldable pub handle_sub_state_update_msr : String → Action w CtrlResult
  unfolding ◌>>=◌ wrapped perform_msr_update after_update with_revision_lock
  handle_sub_state_update_msr revision =
      with_revision_lock w ActionState.new_revision ActionState.new_revision do
        continue_msr ← wrapped "perform ManifestSigningRequest update" (perform_msr_update revision)
        after_update continue_msr

  unfoldable pub handle_substate_finish : String → Action w CtrlResult
  unfolding ◌>>=◌ modify pop_and with_revision_lock
  handle_substate_finish revision =
      with_revision_lock w ActionState.new_revision ActionState.empty
        do modify (host w) (set_observed revision); pop_and RevisionState.empty
