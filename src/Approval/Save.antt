-- ===== src/Approval/Save.antt =====
-- What the MCA controller stores: the object and the summaries of a version in Git, and the record
-- of a version in the history. The 30-second timeout of the Git calls is left to the interface.
use quorum_based_manifests_g.Common.{
  ℕ, Bool, true, false, not, List, [], ◌∷◌, ◌++◌, Option, some, none, String, ◌+++◌, ◌==◌, lookup,
  if◌then◌else◌,
}
use quorum_based_manifests_g.Api.{ManifestRef, FileChange, FileChangeStatus}
use quorum_based_manifests_g.Api
use quorum_based_manifests_g.Api.Approval.{ManifestChangeApproval, ManifestObject, HistoryRecord}
use quorum_based_manifests_g.Api.Template.{ManifestRequestTemplate, Application}
use quorum_based_manifests_g.Exec.{pure, ◌>>=◌, ◌>>◌, wrapped}
use quorum_based_manifests_g.Controller.{call, effect, current, modify, status_update, time_now}
use quorum_based_manifests_g.Controller.Git.{with_git_repository}
use quorum_based_manifests_g.Approval.World.{World, Action, pushed_mca, pushed_summary, host}

unfoldable pub create_repository_mca : ManifestChangeApproval → ManifestObject
create_repository_mca mca = record {
  kind = mca.metadata.kind;
  api_version = mca.metadata.api_version;
  metadata = record { name = mca.metadata.name; namespace = mca.metadata.namespace };
  spec = mca.spec;
}

unfoldable pub create_new_mca_history_record_from_spec : ManifestChangeApproval → ℕ → HistoryRecord
create_new_mca_history_record_from_spec mca now = record {
  commit_sha = mca.spec.commit_sha;
  previous_commit_sha = mca.spec.previous_commit_sha;
  time = now;
  version = mca.spec.version;
  changes = mca.spec.changes;
  governors = mca.spec.governors;
  require = mca.spec.require;
  collected_signatures = mca.spec.collected_signatures;
}

abbrev pub is_deleted : FileChangeStatus → Bool
is_deleted Api.deleted = true
is_deleted Api.new = false
is_deleted Api.updated = false
is_deleted (Api.unknown s) = false

-- `content[f.Path]`, empty for a missing path
abbrev pub text_at : Option String → String
text_at none = ""
text_at (some t) = t

-- The contents of the files whose change is a deletion, or is none.
unfoldable pub select_manifests : Bool → List FileChange → List (String × String) → List String
select_manifests deleted [] content = []
select_manifests deleted (f ∷ file_changes) content =
    let rest = select_manifests deleted file_changes content in
    if (if is_deleted f.status then deleted else not deleted)
    then text_at (lookup f.path content) ∷ rest
    else rest

-- strings.Join
unfoldable pub join : List String → String → String
join [] sep = ""
join (s ∷ []) sep = s
join (s ∷ t ∷ rest) sep = s +++ sep +++ join (t ∷ rest) sep

abbrev pub with_header : String → List String → String
with_header header [] = ""
with_header header (m ∷ manifests) = header +++ "\n" +++ join (m ∷ manifests) "---\n"

unfoldable pub create_apply_manifest : List FileChange → List (String × String) → String
unfolding select_manifests join
create_apply_manifest file_changes content =
    with_header "# Summary of NEW and MODIFIED resources"
      (select_manifests false file_changes content)

unfoldable pub create_delete_manifest : List FileChange → List (String × String) → String
unfolding select_manifests join
create_delete_manifest file_changes content =
    with_header "# Summary of DELETED resources" (select_manifests true file_changes content)

module _ (w : World) where
  unfoldable pub get_existing_mrt_for_mca : Action w ManifestRequestTemplate
  unfolding ◌>>=◌ wrapped call current
  get_existing_mrt_for_mca = do
    mca ← current (host w)
    wrapped "fetch ManifestRequestTemplate for ManifestChangeApproval" (
        call (host w)
          (w.get_mrt (record { name = mca.spec.mrt.name; namespace = mca.spec.mrt.namespace })))

  unfoldable pub repository_with_error : Action w (Option w.Repository)
  unfolding ◌>>=◌ wrapped call get_existing_mrt_for_mca
  repository_with_error = do
    mrt ← wrapped "get ManifestRequestTemplate for repository" get_existing_mrt_for_mca
    call (host w) (w.get_provider_for_mrt mrt)

  unfoldable pub get_application_for_mca : Action w Application
  unfolding ◌>>=◌ wrapped call get_existing_mrt_for_mca
  get_application_for_mca = do
    mrt ←
        wrapped "fetch ManifestRequestTemplate to use it for Application fetch"
          get_existing_mrt_for_mca
    wrapped "fetch Application for ManifestChangeApproval"
        (call (host w) (w.get_application mrt.spec.application))

  -- The function that yields the provider for `withGitRepository`.
  unfoldable pub provider_for_mca : Action w (Option w.Repository)
  unfolding ◌>>=◌ call get_existing_mrt_for_mca
  provider_for_mca = do mrt ← get_existing_mrt_for_mca; call (host w) (w.get_provider_for_mrt mrt)

  unfoldable pub save_in_repository : Action w (Unit {0})
  unfolding ◌>>=◌ wrapped effect current provider_for_mca with_git_repository create_repository_mca
  save_in_repository = do
    mca ← current (host w)
    let repository_mca = create_repository_mca mca
    wrapped "push initial ManifestChangeApproval to repository" (
        with_git_repository (host w) provider_for_mca
          λ repo. effect (host w) (pushed_mca repository_mca) (w.push_mca repo repository_mca))
    pure tt

  -- One summary file, pushed unless it is empty.
  unfoldable pub push_summary : String → String → String → Action w (Unit {0})
  unfolding ◌>>=◌ wrapped effect current provider_for_mca with_git_repository
  push_summary context file_name content = if content == "" then pure tt else do
    mca ← current (host w)
    wrapped context (
        with_git_repository (host w) provider_for_mca λ repo.
          effect (host w) (pushed_summary file_name mca.spec.version) (
            w.push_summary_file repo content file_name mca.spec.locations.governance_path
              mca.spec.version))
    pure tt

  unfoldable pub save_summary_changes : Action w (Unit {0})
  unfolding ◌>>=◌ wrapped call current provider_for_mca with_git_repository create_apply_manifest
      create_delete_manifest push_summary
  save_summary_changes = do
    mca ← current (host w)
    res ← wrapped "get changed files" (
        with_git_repository (host w) provider_for_mca λ repo. call (host w) (
          w.get_changed_files repo mca.spec.previous_commit_sha mca.spec.commit_sha
            mca.spec.locations.source_path))
    push_summary "push apply summary manifest" "apply-summary.yaml"
        (create_apply_manifest res.0 res.1)
    push_summary "push delete summary manifest" "delete-summary.yaml"
        (create_delete_manifest res.0 res.1)

  abbrev pub add_record : HistoryRecord → ManifestChangeApproval → ManifestChangeApproval
  add_record r mca = record mca {
    status = record mca.status { approval_history = mca.status.approval_history ++ r ∷ [] };
  }

  -- The record of the version is appended and the status is saved.
  unfoldable pub save_new_history_record : String → Action w (Unit {0})
  unfolding ◌>>=◌ wrapped current modify status_update time_now
      create_new_mca_history_record_from_spec
  save_new_history_record context = do
    now ← time_now (host w)
    mca ← current (host w)
    let new_record = create_new_mca_history_record_from_spec mca now
    modify (host w) (add_record new_record)
    wrapped context (status_update (host w))
