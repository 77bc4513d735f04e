-- ===== src/Signing/Save.antt =====
-- What the MSR controller stores: the request and the operator's signature in Git, and the record
-- of a version in the history.
use quorum_based_manifests_g.Common.{[], ◌∷◌, ◌++◌, Option}
use quorum_based_manifests_g.Api.Signing.{
  ManifestSigningRequest, ManifestObject, HistoryRecord, SigningRequestStatus,
}
use quorum_based_manifests_g.Api.Template.{ManifestRequestTemplate}
use quorum_based_manifests_g.Exec.{pure, ◌>>=◌, ◌>>◌, wrapped}
use quorum_based_manifests_g.Controller.{call, effect, current, modify, status_update}
use quorum_based_manifests_g.Controller.Git.{with_git_repository}
use quorum_based_manifests_g.Signing.World.{World, Action, pushed_msr, pushed_signature, host}

unfoldable pub create_repository_msr : ManifestSigningRequest → ManifestObject
create_repository_msr msr = record {
  kind = msr.metadata.kind;
  api_version = msr.metadata.api_version;
  metadata = record { name = msr.metadata.name; namespace = msr.metadata.namespace };
  spec = msr.spec;
}

-- The fields that the code leaves out are empty.
unfoldable pub create_new_msr_history_record_from_spec : ManifestSigningRequest → HistoryRecord
create_new_msr_history_record_from_spec msr = record {
  commit_sha = msr.spec.commit_sha;
  previous_commit_sha = msr.spec.previous_commit_sha;
  version = msr.spec.version;
  changes = msr.spec.changes;
  governors = msr.spec.governors;
  require = msr.spec.require;
  collected_signatures = [];
  status = SigningRequestStatus.unknown "";
}

-- `msr.Status.RequestHistory = append(msr.Status.RequestHistory, newRecord)`
abbrev pub add_new_record : ManifestSigningRequest → ManifestSigningRequest
add_new_record msr = record msr {
  status = record msr.status {
    request_history =
        msr.status.request_history ++ create_new_msr_history_record_from_spec msr ∷ [];
  };
}

module _ (w : World) where
  unfoldable pub get_existing_mrt_for_msr : Action w ManifestRequestTemplate
  unfolding ◌>>=◌ wrapped call current
  get_existing_mrt_for_msr = do
    msr ← current (host w)
    wrapped "fetch ManifestRequestTemplate for ManifestSigningRequest" (
        call (host w)
          (w.get_mrt (record { name = msr.spec.mrt.name; namespace = msr.spec.mrt.namespace })))

  unfoldable pub repository_with_error : Action w (Option w.Repository)
  unfolding ◌>>=◌ wrapped call get_existing_mrt_for_msr
  repository_with_error = do
    mrt ← wrapped "get ManifestRequestTemplate for repository" get_existing_mrt_for_msr
    call (host w) (w.get_provider_for_mrt mrt)

  -- The function that yields the provider for `withGitRepository`.
  unfoldable pub provider_for_msr : Action w (Option w.Repository)
  unfolding ◌>>=◌ call get_existing_mrt_for_msr
  provider_for_msr = do mrt ← get_existing_mrt_for_msr; call (host w) (w.get_provider_for_mrt mrt)

  unfoldable pub save_in_repository : Action w (Unit {0})
  unfolding ◌>>=◌ wrapped effect current with_git_repository provider_for_msr create_repository_msr
  save_in_repository = do
    msr ← current (host w)
    let repository_msr = create_repository_msr msr
    wrapped "push initial ManifestSigningRequest to repository" (
        with_git_repository (host w) provider_for_msr
          λ repo. effect (host w) (pushed_msr repository_msr) (w.push_msr repo repository_msr))
    pure tt

  -- The operator's signature, in the handler of that state.
  unfoldable pub save_signature : Action w (Unit {0})
  unfolding ◌>>=◌ wrapped effect current with_git_repository provider_for_msr create_repository_msr
  save_signature = do
    msr ← current (host w)
    let repository_msr = create_repository_msr msr
    wrapped "save qubmango governor MSR signature to Git repository" (
        with_git_repository (host w) provider_for_msr λ repo.
          effect (host w) (pushed_signature repository_msr)
            (w.push_governor_signature repo repository_msr))
    pure tt

  -- The record of the version is appended, with `also` for what else changes, and saved.
  unfoldable pub save_history_record :
      (ManifestSigningRequest → ManifestSigningRequest) → Action w (Unit {0})
  unfolding ◌>>=◌ wrapped modify status_update create_new_msr_history_record_from_spec
  save_history_record also = do
    modify (host w) (λ msr. also (add_new_record msr))
    wrapped "update MSR information after Git push" (status_update (host w))
