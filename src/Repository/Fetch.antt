-- ===== src/Repository/Fetch.antt =====
-- kubernetes/internal/repository/base.go, FetchMSRByVersion: a version of a request with its
-- signature and those of the governors.
use quorum_based_manifests_g.Common.{
  not, ◌&&◌, List, [], ◌∷◌, String, ◌+++◌, Result, ok, err, with_context, if◌then◌else◌,
}
use quorum_based_manifests_g.Dto
use quorum_based_manifests_g.Api
use quorum_based_manifests_g.Exec.{pure, raise, ◌>>=◌, wrapped, both}
use quorum_based_manifests_g.Repository.Folders.{version_folder, join_all}
use quorum_based_manifests_g.Repository.World.{DirEntry, Git, Action, call, from_result, the_repo}
use quorum_based_manifests_g.Repository.Sync.{synced}

-- What FetchMSRByVersion returns.
pub record Fetched : Type 0 where
  pub msr : Dto.ManifestSigningRequestManifestObject
  pub content : String
  pub signature : String
  pub governor_signatures : List String

module _ (g : Git) where
  unfoldable pub read_file : g.Worktree → String → String → String → Action g String
  unfolding ◌>>=◌ wrapped call
  read_file w opening reading path = do
    file ← wrapped opening (call g (g.open_file w path))
    wrapped reading (call g (g.read_all file))

  -- A file that cannot be read is skipped.
  abbrev pub add_signature : Result String → List String → List String
  add_signature (ok content) rest = content ∷ rest
  add_signature (err e) rest = rest

  -- The pattern of the regular expression, with the name as it is.
  abbrev pub signature_pattern : String → String
  signature_pattern name = "^" +++ name +++ "\\.yaml\\.sig\\..+$"

  unfoldable pub read_signatures :
      g.Worktree → String → String → List DirEntry → Action g (List String)
  unfolding ◌>>=◌ pure both read_file
  read_signatures w folder name [] = pure []
  read_signatures w folder name (f ∷ files) =
      let others = read_signatures w folder name files in
      if not f.is_dir && g.matches (signature_pattern name) f.name
      then (do
        content ← both (read_file w "" "" (join_all (folder ∷ f.name ∷ [])))
        rest ← others
        pure (add_signature content rest))
      else others

  -- Without the folder there are no signatures yet.
  unfoldable pub signatures_in :
      g.Worktree → String → String → Result (List DirEntry) → Action g (List String)
  unfolding pure raise read_signatures
  signatures_in w folder name (ok files) = read_signatures w folder name files
  signatures_in w folder name (err e) =
      if g.not_exist e then pure [] else raise (with_context "read signatures folder" e)

  unfoldable pub fetch_locked : Api.Signing.ManifestSigningRequest → Action g Fetched
  unfolding ◌>>=◌ wrapped the_repo call from_result read_file both signatures_in pure version_folder
      join_all
  fetch_locked msr = do
    repo ← the_repo g
    w ← wrapped "get repository worktree" (call g (g.worktree repo))
    let folder =
        join_all (msr.spec.locations.governance_path ∷ version_folder msr.spec.version ∷ [])
    let msr_file_path = join_all (folder ∷ (msr.metadata.name +++ ".yaml") ∷ [])
    content ← read_file w ("open msr file " +++ msr_file_path) "read msr file content" msr_file_path
    fetched_msr ← wrapped "unmarshal msr file content" (from_result g (g.unmarshal_msr content))
    let sig_path = join_all (folder ∷ (msr.metadata.name +++ ".yaml.sig") ∷ [])
    signature ← read_file w "open msr signature file" "read msr signature" sig_path
    let signatures_folder = join_all (folder ∷ "signatures" ∷ [])
    listing ← both (call g (g.read_dir w signatures_folder))
    signatures ← signatures_in w signatures_folder msr.metadata.name listing
    pure (record {
      msr = fetched_msr;
      content = content;
      signature = signature;
      governor_signatures = signatures;
    })

  unfoldable pub fetch_msr_by_version : Api.Signing.ManifestSigningRequest → Action g Fetched
  unfolding synced fetch_locked
  fetch_msr_by_version msr = synced g "sync repository" (fetch_locked msr)
