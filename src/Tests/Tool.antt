-- ===== src/Tests/Tool.antt =====
-- The listings of the operator and of the tool at a concrete patch, and the versions' folders.
use mathlib.Core.List.{Memᴰ}
use quorum_based_manifests_g.Common.{
  ℕ, ◌≤◌, nat_eq, length, lookup, pos, true, false, List, [], ◌∷◌, none, some, String, ◌+++◌, ◌≡◌,
  refl, ok, err, arith, if◌then◌else◌, with_context,
}
use quorum_based_manifests_g.Api
use quorum_based_manifests_g.Template.Paths.{clean, has_prefix}
use quorum_based_manifests_g.Repository.Files.{FilePatch}
use quorum_based_manifests_g.Repository.Changes.{patch_to_file_change_list}
use quorum_based_manifests_g.Repository.Root.{root_lists_nothing}
use quorum_based_manifests_g.Repository.Folders.{version_folder}
use quorum_based_manifests_g.Repository.World.{DirEntry, Git, Provider, opened, wrote}
use quorum_based_manifests_g.Repository.Push.{
  Session, sync_and_lock, create_yaml_file_with_signature_and_attach, push_summary_file,
}
use quorum_based_manifests_g.Repository.Rollback.{HasEntities}
use quorum_based_manifests_g.Repository.Summary.{summary_not_rolled_back}
use quorum_based_manifests_g.ChangedFiles.{
  ChangedFiles, accepted, different_length, verify_changed_files,
}
use quorum_based_manifests_g.Cli.Changes as Tool
use quorum_based_manifests_g.Cli.Verdict.{requested, request_verdict}
use quorum_based_manifests_g.Cli.Folders.{folder_number, active_msr_folder}
use quorum_based_manifests_g.Cli.Versions.{folder_number-version_folder}
use quorum_based_manifests_g.Cli.Latest.{IsFolderOf, active_msr_folder-ge}
use quorum_based_manifests_g.Dto
use quorum_based_manifests_g.Tests.Approval.{mrt_example}
use quorum_based_manifests_g.Tests.Repository.{trees_example, git_example}

abbrev patches_example : List FilePatch
patches_example = record { from = none; to = some "src/a.yaml" } ∷ []

abbrev tree_example : List (String × String)
tree_example = ("src/a.yaml", "a") ∷ []

abbrev changes_example : List Api.FileChange
changes_example =
    record {
      kind = "ConfigMap";
      status = Api.FileChangeStatus.new;
      name = "a";
      namespace = "ns";
      sha256 = "hash of a";
      path = "src/a.yaml";
    }
    ∷ []

abbrev files_example : ChangedFiles
files_example =
    ("src/a.yaml", record { content = "a"; status = Dto.FileChangeStatus.new; path = "src/a.yaml" })
    ∷ []

request_verdict_example :
    verify_changed_files trees_example.sha256_hex
      (requested changes_example mrt_example)
      files_example
    ≡ (if nat_eq (length (requested changes_example mrt_example)) (length files_example)
        then accepted
        else different_length
            (length (requested changes_example mrt_example))
            (length files_example))
unfolding lookup patch_to_file_change_list Tool.patch_to_file_change_list
request_verdict_example =
    request_verdict trees_example [] tree_example "src" patches_example changes_example
      (("src/a.yaml", "a") ∷ []) files_example mrt_example (tt, tt) refl refl

root_lists_nothing_example :
    (◌≡◌ {A = List Api.FileChange} [] []) × (◌≡◌ {A = List (String × String)} [] [])
unfolding clean has_prefix patch_to_file_change_list lookup
root_lists_nothing_example =
    root_lists_nothing trees_example [] tree_example patches_example "" [] [] refl (refl, tt) refl

folder_number-version_folder_example : folder_number (version_folder (pos 12)) ≡ some 12
folder_number-version_folder_example = folder_number-version_folder 12 (omega arith)

abbrev entries_example : List DirEntry
entries_example =
    record { name = "v_2"; is_dir = true } ∷ record { name = "v_10"; is_dir = true } ∷ []

active_msr_folder-ge_example :
    (m : ℕ) × (path : String) × (active_msr_folder "gov" entries_example ≡ some (m, path))
    × (2 ≤ m)
    × IsFolderOf "gov" entries_example m path
active_msr_folder-ge_example =
    active_msr_folder-ge "gov" entries_example (record { name = "v_2"; is_dir = true }) 2
      (Memᴰ.head refl) refl (unfold folder_number in refl)

-- A disk on which no file can be written.
abbrev full_disk : Git
full_disk = record git_example { write_file = λ p c s. (err "disk full", s) }

full_disk-HasEntities : HasEntities full_disk
full_disk-HasEntities text h = cc

abbrev provider_example : Provider full_disk
provider_example = record {
  state = "head";
  remote_url = "git";
  local_path = "/tmp";
  repo = some tt;
  auth = tt;
  pgp_secrets = record { private_key = "P"; passphrase = "S" };
  locked = false;
  faulty = false;
  log = [];
}

abbrev full_disk_session : Session full_disk
full_disk_session = record {
  worktree = tt;
  original = "head";
  entity = record {
    primary_key = ok "key";
    private_key = some false;
    subkeys = some false ∷ none ∷ [];
  };
}

abbrev full_disk_locked : Provider full_disk
full_disk_locked = record provider_example { locked = true; log = opened "head" ∷ [] }

abbrev full_disk_error : String
full_disk_error =
    "create summary.yaml file and add to worktree: failed to write summary.yaml file: disk full"

summary_not_rolled_back_example :
    push_summary_file full_disk "text" "summary" "gov" (pos 1) provider_example ≡ (
      err (with_context ("add file " +++ "summary" +++ " to worktree") full_disk_error),
      record provider_example { log = wrote "gov/v_1/summary.yaml" ∷ opened "head" ∷ [] },
    )
unfolding sync_and_lock create_yaml_file_with_signature_and_attach version_folder clean
summary_not_rolled_back_example =
    summary_not_rolled_back full_disk full_disk-HasEntities provider_example full_disk_locked
      (record full_disk_locked { log = wrote "gov/v_1/summary.yaml" ∷ opened "head" ∷ [] })
      full_disk_session "text" "summary" "gov" (pos 1) full_disk_error (refl, refl, tt, tt) refl
      refl
