-- ===== src/Repository/GovernorSignature.antt =====
-- kubernetes/internal/repository/base.go: PushGovernorSignature, with which the operator signs as a
-- governor, and DeleteFolder.
use quorum_based_manifests_g.Common.{
  Bool, false, ℤ, [], ◌∷◌, String, ◌+++◌, Result, ok, err, with_context, if◌then◌else◌,
}
use quorum_based_manifests_g.Api
use quorum_based_manifests_g.Exec.{pure, ◌>>=◌, ◌>>◌, wrapped, both, ignore}
use quorum_based_manifests_g.Repository.Folders.{decimal, version_folder, join_all}
use quorum_based_manifests_g.Repository.World.{
  Git, Action, removed, call, effect, provider, from_result,
}
use quorum_based_manifests_g.Repository.Keys.{Key}
use quorum_based_manifests_g.Repository.Push.{
  Session, in_session, or_rollback, create_file_and_add_to_worktree, creating, commit_and_push,
}

module _ (g : Git) where
  -- `convertPublicKeyToHash`
  abbrev pub key_hash : Result String → Result String
  key_hash (ok bytes) = ok (g.trees.sha256_hex bytes)
  key_hash (err e) = err (with_context "failed to serialize public key" e)

  -- The folder's creation may fail unseen.
  unfoldable pub create_file_governor_signature_and_attach :
      g.Worktree → Key g → Result String → String → String → ℤ → Action g (Unit {0})
  unfolding ◌>>=◌ provider ignore wrapped call from_result create_file_and_add_to_worktree join_all
      version_folder
  create_file_governor_signature_and_attach w entity file file_name in_repo_folder_path version = do
    p ← provider g
    let folder = join_all (in_repo_folder_path ∷ version_folder version ∷ "signatures" ∷ [])
    ignore (call g (g.mkdir_all (join_all (p.local_path ∷ folder ∷ []))))
    pub_key_hash ←
        wrapped "convert public key into hash" (from_result g (key_hash entity.primary_key))
    let sig_file_name = file_name +++ ".yaml.sig." +++ pub_key_hash
    file_bytes ← wrapped "failed to marshal file to YAML" (from_result g file)
    signature ←
        wrapped "failed to create detached signature for MSR"
          (from_result g (g.detach_sign entity file_bytes))
    wrapped (creating g sig_file_name)
        (create_file_and_add_to_worktree g w folder sig_file_name signature)

  unfoldable pub push_governor_signature : Api.Signing.ManifestObject → Action g String
  unfolding ◌>>=◌ in_session or_rollback create_file_governor_signature_and_attach commit_and_push
      decimal
  push_governor_signature msr = in_session g λ session. do
    or_rollback g session "stage governor signature" (
        create_file_governor_signature_and_attach session.worktree session.entity
          (g.marshal_msr msr) msr.metadata.name msr.spec.locations.governance_path msr.spec.version)
    or_rollback g session "commit and push" (
        commit_and_push g session.worktree
          ("Qubmango as governor signature for ManifestSigningRequest: create manifest signing request "
            +++ msr.metadata.name
            +++ " with version "
            +++ decimal msr.spec.version)
          session.entity)

  -- `errors.Is(err, os.ErrNotExist)`
  abbrev pub is_missing : Result (Unit {0}) → Bool
  is_missing (ok _) = false
  is_missing (err e) = g.not_exist e

  -- The deletion of a folder that is there.
  unfoldable pub remove_and_push : Session g → String → String → Action g (Unit {0})
  unfolding ◌>>=◌ or_rollback effect commit_and_push pure join_all
  remove_and_push session folder_path local_folder_path = do
    or_rollback g session "failed to stage folder deletion in git" (
        effect g (removed folder_path)
          (g.remove_glob session.worktree (join_all (folder_path ∷ "**" ∷ []))))
    or_rollback g session "failed to remove folder from local path"
        (effect g (removed folder_path) (g.remove_all local_folder_path))
    or_rollback g session "commit and push" (
        commit_and_push g session.worktree ("Delete governance folder: " +++ folder_path)
          session.entity)
    pure tt

  unfoldable pub delete_folder : String → Action g (Unit {0})
  unfolding ◌>>=◌ provider in_session both call remove_and_push pure join_all
  delete_folder folder_path = in_session g λ session. do
    p ← provider g
    let local_folder_path = join_all (p.local_path ∷ folder_path ∷ [])
    there ← both (call g (g.stat local_folder_path))
    if is_missing there then pure tt else remove_and_push session folder_path local_folder_path
