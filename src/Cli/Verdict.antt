-- ===== src/Cli/Verdict.antt =====
-- VerifyChangedFiles, run by the tool on its own listing of a revision, for a request whose changes
-- the operator took from the same revision.
use quorum_based_manifests_g.Common.{
  List, [], ◌∷◌, String, ◌≡◌, ok, length, nat_eq, Bool-cases, inl, inr, if◌then◌else◌,
}
use quorum_based_manifests_g.Api
use quorum_based_manifests_g.Api.Template.{ManifestRequestTemplate}
use quorum_based_manifests_g.Dto
use quorum_based_manifests_g.Converter.{k8s_changes_to_dto}
use quorum_based_manifests_g.Template.Paths.{clean}
use quorum_based_manifests_g.Template.Compare.{
  is_governed, keep_governed, governance_path, filter_non_manifest_files,
}
use quorum_based_manifests_g.ChangedFiles.{
  ChangedFiles, accepted, different_length, verify_changed_files,
}
use quorum_based_manifests_g.ChangedFiles.Accepted.{AllMatch, matching_verdict}
use quorum_based_manifests_g.Repository.Files.{FilePatch, Trees}
use quorum_based_manifests_g.Repository.Changes.{Contents}
use quorum_based_manifests_g.Repository.Changes as Operator
use quorum_based_manifests_g.Cli.Changes as Tool
use quorum_based_manifests_g.Cli.Agreement.{Distinct, collect-AllListed}

-- The changes that a request lists, as the tool reads them back from Git: the operator's, filtered,
-- with the fields that both forms have.
abbrev pub requested : List Api.FileChange → ManifestRequestTemplate → List Dto.FileChange
requested changes mrt = k8s_changes_to_dto (filter_non_manifest_files changes mrt)

module _ (t : Trees) where
  kept-AllMatch :
      (folder : String) (files : ChangedFiles) (changes : List Api.FileChange)
      → AllMatch t.sha256_hex files (k8s_changes_to_dto changes)
      → AllMatch t.sha256_hex files (k8s_changes_to_dto (keep_governed folder changes))
  unfolding keep_governed k8s_changes_to_dto
  kept-AllMatch folder files [] m = tt
  kept-AllMatch folder files (c ∷ changes) (m, ms) = elim (Bool-cases (is_governed folder c)) [
    | inl e ↦ rw e (m, kept-AllMatch folder files changes ms)
    | inr e ↦ rw e (kept-AllMatch folder files changes ms)
  ]

  -- If a patch has every path once, and both the operator and the tool list its files under a
  -- folder, then the tool accepts the changes of the request (the operator's, filtered) or
  -- complains of their number only: it accepts them exactly if they are as many as its own files.
  pub request_verdict :
      (from_tree to_tree : t.Tree) (folder : String) (patches : List FilePatch)
      (changes : List Api.FileChange) (contents : Contents) (files : ChangedFiles)
      (mrt : ManifestRequestTemplate)
      → Distinct patches
      → Operator.patch_to_file_change_list t from_tree to_tree patches folder
        ≡ ok (changes, contents)
      → Tool.patch_to_file_change_list t from_tree to_tree patches folder ≡ ok files
      → verify_changed_files t.sha256_hex (requested changes mrt) files ≡ (
          if nat_eq (length (requested changes mrt)) (length files)
          then accepted
          else different_length (length (requested changes mrt)) (length files))
  unfolding Operator.patch_to_file_change_list Tool.patch_to_file_change_list k8s_changes_to_dto
      filter_non_manifest_files
  request_verdict from_tree to_tree folder patches changes contents files mrt distinct h k =
      let all_listed =
        collect-AllListed t from_tree to_tree folder changes contents files patches distinct [] []
          [] tt tt h k in
      let match = kept-AllMatch (clean (governance_path mrt)) files changes all_listed in
      matching_verdict t.sha256_hex files (requested changes mrt) match
