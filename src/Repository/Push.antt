-- ===== src/Repository/Push.antt =====
-- kubernetes/internal/repository/base.go: the methods that write to the repository. Each
-- synchronizes, takes the mutex, stages files, and commits and pushes them; an error in between is
-- followed by a reset to the head that was read at the start (but see PushSummaryFile).
use quorum_based_manifests_g.Common.{
  ℤ, List, [], ◌∷◌, String, ◌+++◌, Result, ok, err, with_context, if◌then◌else◌,
}
use quorum_based_manifests_g.Api
use quorum_based_manifests_g.Exec.{pure, raise, ◌>>=◌, ◌>>◌, wrapped, both}
use quorum_based_manifests_g.Repository.Folders.{decimal, version_folder, join_all}
use quorum_based_manifests_g.Repository.World.{
  Git, Action, Event, opened, wrote, staged, committed, pushed, reset, not_reset, call, note,
  effect, provider, from_result, the_repo, lock, unlock, deferring_unlock,
}
use quorum_based_manifests_g.Repository.Sync.{sync}
use quorum_based_manifests_g.Repository.Keys.{Key, get_pgp_entity}

-- fileToPush, with the object in YAML or the error of the marshalling
pub record FileToPush : Type 0 where
  pub object : Result String
  pub name : String
  pub folder : String
  pub version : ℤ

module _ (g : Git) where
  -- What syncAndLock answers; `original` is the hash that its rollback closes over.
  pub record Session : Type 0 where
    pub worktree : g.Worktree
    pub original : g.Hash
    pub entity : Key g

  -- An error behind the lock unlocks before it is returned.
  abbrev pub unlocking : {A : Type 0} → String → Result A → Action g A
  unlocking context (ok a) = pure a
  unlocking context (err e) = do unlock g; raise (with_context context e)

  unfoldable pub or_unlock : {A : Type 0} → String → Action g A → Action g A
  unfolding ◌>>=◌ both unlock raise pure
  or_unlock context m = do r ← both m; unlocking context r

  unfoldable pub sync_and_lock : Action g Session
  unfolding ◌>>=◌ wrapped lock sync the_repo or_unlock call get_pgp_entity note pure
  sync_and_lock = do
    wrapped "failed to sync repository before push" (sync g)
    lock g
    repo ← the_repo g
    w ← or_unlock "could not get repository worktree" (call g (g.worktree repo))
    entity ← or_unlock "failed to load GPG signing key" (get_pgp_entity g)
    head ← or_unlock "could not get current HEAD before commit" (call g (g.head repo))
    note g (opened head)
    pure (record { worktree = w; original = head; entity = entity })

  -- `worktree.Reset(...)`, whose error is dropped
  abbrev pub reset_event : g.Hash → Result (Unit {0}) → Event g.Hash
  reset_event h (ok _) = reset h
  reset_event h (err e) = not_reset h

  unfoldable pub rollback : Session → Action g (Unit {0})
  unfolding ◌>>=◌ both call note
  rollback session = do
    answer ← both (call g (g.reset_hard session.worktree session.original))
    note g (reset_event session.original answer)

  abbrev pub rolling_back : {A : Type 0} → Session → String → Result A → Action g A
  rolling_back session context (ok a) = pure a
  rolling_back session context (err e) = do rollback session; raise (with_context context e)

  unfoldable pub or_rollback : {A : Type 0} → Session → String → Action g A → Action g A
  unfolding ◌>>=◌ both rollback raise pure
  or_rollback session context m = do r ← both m; rolling_back session context r

  -- A method behind syncAndLock, with the deferred unlock.
  unfoldable pub in_session : {A : Type 0} → (Session → Action g A) → Action g A
  unfolding ◌>>=◌ wrapped sync_and_lock deferring_unlock
  in_session work = do
    session ← wrapped "sync and lock" sync_and_lock
    deferring_unlock g (work session)

  unfoldable pub create_file_and_add_to_worktree :
      g.Worktree → String → String → String → Action g (Unit {0})
  unfolding ◌>>=◌ provider wrapped effect join_all
  create_file_and_add_to_worktree w folder file_name file = do
    p ← provider g
    let file_path = join_all (p.local_path ∷ folder ∷ file_name ∷ [])
    let repo_path = join_all (folder ∷ file_name ∷ [])
    wrapped ("failed to write " +++ file_name +++ " file")
        (effect g (wrote repo_path) (g.write_file file_path file))
    wrapped ("failed to git add file " +++ file_name +++ " to the staging area")
        (effect g (staged repo_path) (g.add w repo_path))

  abbrev pub creating : String → String
  creating file_name = "create " +++ file_name +++ " file and add to worktree"

  unfoldable pub create_yaml_file_with_signature_and_attach :
      g.Worktree → Key g → String → String → String → ℤ → Action g (Unit {0})
  unfolding ◌>>=◌ provider wrapped call from_result create_file_and_add_to_worktree join_all
      version_folder
  create_yaml_file_with_signature_and_attach w entity file_bytes file_name governance_folder
        version =
      do
        p ← provider g
        let folder = join_all (governance_folder ∷ version_folder version ∷ [])
        wrapped "create governance folder"
            (call g (g.mkdir_all (join_all (p.local_path ∷ folder ∷ []))))
        signature ←
            wrapped "failed to create detached signature for MSR"
              (from_result g (g.detach_sign entity file_bytes))
        wrapped (creating (file_name +++ ".yaml"))
            (create_file_and_add_to_worktree w folder (file_name +++ ".yaml") file_bytes)
        wrapped (creating (file_name +++ ".yaml.sig"))
            (create_file_and_add_to_worktree w folder (file_name +++ ".yaml.sig") signature)

  unfoldable pub stage_governance_files : g.Worktree → Key g → List FileToPush → Action g (Unit {0})
  unfolding ◌>>=◌ wrapped from_result pure create_yaml_file_with_signature_and_attach
  stage_governance_files w entity [] = pure tt
  stage_governance_files w entity (f ∷ files) = do
    file_bytes ← wrapped "failed to marshal file to YAML" (from_result g f.object)
    wrapped ("add file " +++ f.name +++ " to worktree")
        (create_yaml_file_with_signature_and_attach w entity file_bytes f.name f.folder f.version)
    stage_governance_files w entity files

  -- An error that says that there is nothing new is none.
  unfoldable pub unless_pushed : Result (Unit {0}) → Action g (Unit {0})
  unfolding raise note
  unless_pushed (ok _) = note g pushed
  unless_pushed (err e) =
      if g.already_up_to_date e
      then note g pushed
      else raise (with_context "failed to push commit" e)

  unfoldable pub commit_and_push : g.Worktree → String → Key g → Action g String
  unfolding ◌>>=◌ wrapped effect provider the_repo both call unless_pushed pure
  commit_and_push w commit_msg entity = do
    commit_hash ← wrapped "failed to commit" (effect g committed (g.commit w commit_msg entity))
    p ← provider g
    repo ← the_repo g
    answer ← both (call g (g.push repo p.auth))
    unless_pushed answer
    pure (g.hash_text commit_hash)

  unfoldable pub push_workflow : List FileToPush → String → Action g String
  unfolding ◌>>=◌ in_session or_rollback stage_governance_files commit_and_push
  push_workflow files commit_msg = in_session λ session. do
    or_rollback session "stage governance files"
        (stage_governance_files session.worktree session.entity files)
    or_rollback session "commit and push"
        (commit_and_push session.worktree commit_msg session.entity)

  unfoldable pub push_msr : Api.Signing.ManifestObject → Action g String
  unfolding push_workflow decimal
  push_msr msr =
      push_workflow
        (record {
          object = g.marshal_msr msr;
          name = msr.metadata.name;
          folder = msr.spec.locations.governance_path;
          version = msr.spec.version;
        }
          ∷ [])
        ("New ManifestSigningRequest: create manifest signing request "
          +++ msr.metadata.name
          +++ " with version "
          +++ decimal msr.spec.version)

  unfoldable pub push_mca : Api.Approval.ManifestObject → Action g String
  unfolding push_workflow decimal
  push_mca mca =
      push_workflow
        (record {
          object = g.marshal_mca mca;
          name = mca.metadata.name;
          folder = mca.spec.locations.governance_path;
          version = mca.spec.version;
        }
          ∷ [])
        ("New ManifestChangeApproval: create manifest change approval "
          +++ mca.metadata.name
          +++ " with version "
          +++ decimal mca.spec.version)

  -- An error of the first step is returned with no rollback.
  unfoldable pub push_summary_file : String → String → String → ℤ → Action g String
  unfolding ◌>>=◌ in_session wrapped or_rollback create_yaml_file_with_signature_and_attach
      commit_and_push decimal
  push_summary_file content file_name governance_folder version = in_session λ session. do
    wrapped ("add file " +++ file_name +++ " to worktree") (
        create_yaml_file_with_signature_and_attach session.worktree session.entity content file_name
          governance_folder version)
    or_rollback session "commit and push" (
        commit_and_push session.worktree
          ("Add summary file: " +++ file_name +++ " version " +++ decimal version) session.entity)
