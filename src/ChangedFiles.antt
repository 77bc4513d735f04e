-- ===== src/ChangedFiles.antt =====
-- pkg/validation/msr/msr.go, `VerifyChangedFiles`: the changes of a signing request against the
-- files that Git shows. The sorted lists of the message are output only and are left out; the
-- message on different hashes keeps its paths and hashes. SHA-256 in hexadecimal is an argument.
pub mod Accepted
use quorum_based_manifests_g.Common.{
  ℕ, Bool, true, false, not, ◌&&◌, List, [], ◌∷◌, Option, none, some, String, ◌==◌, length, lookup,
  nat_eq, if◌then◌else◌,
}
use quorum_based_manifests_g.Dto.{
  FileChangeStatus, new, updated, deleted, unknown, FileChange, FileBytesWithStatus,
}

-- map[string]dto.FileBytesWithStatus
abbrev pub ChangedFiles : Type 0
ChangedFiles = List (String × FileBytesWithStatus)

pub data Verdict : Type 0 where
  accepted : Verdict
  different_length : ℕ → ℕ → Verdict
  different_sets : Verdict
  different_hashes : List (String × String × String) → Verdict

abbrev pub status_eq : FileChangeStatus → FileChangeStatus → Bool
status_eq new new = true
status_eq updated updated = true
status_eq deleted deleted = true
status_eq (unknown s) (unknown t) = s == t
status_eq _ _ = false

-- `ok && cfGit.Status == cf.Status`
abbrev pub same_status : FileChange → Option FileBytesWithStatus → Bool
same_status cf none = false
same_status cf (some cf_git) = status_eq cf_git.status cf.status

-- The loop over the paths and statuses: no change sets `err`.
unfoldable pub same_sets : List FileChange → ChangedFiles → Bool
same_sets [] changed_files = true
same_sets (cf ∷ changes) changed_files =
    same_status cf (lookup cf.path changed_files) && same_sets changes changed_files

-- A missing key reads as a file with no content.
abbrev pub content_of : Option FileBytesWithStatus → String
content_of none = ""
content_of (some cf_git) = cf_git.content

module _ (sha256_hex : String → String) where
  unfoldable pub collect_different_hashes :
      List FileChange → ChangedFiles → List (String × String × String)
  collect_different_hashes [] changed_files = []
  collect_different_hashes (cf ∷ changes) changed_files =
      let rest = collect_different_hashes changes changed_files in
      let hash = sha256_hex (content_of (lookup cf.path changed_files)) in
      if hash == cf.sha256 then rest else (cf.path, hash, cf.sha256) ∷ rest

  abbrev pub hash_verdict : List (String × String × String) → Verdict
  hash_verdict [] = accepted
  hash_verdict (d ∷ ds) = different_hashes (d ∷ ds)

  unfoldable pub verify_changed_files : List FileChange → ChangedFiles → Verdict
  unfolding same_sets collect_different_hashes
  verify_changed_files msr_changes changed_files =
      if not (nat_eq (length msr_changes) (length changed_files))
      then different_length (length msr_changes) (length changed_files)
      else (if not (same_sets msr_changes changed_files)
          then different_sets
          else hash_verdict (collect_different_hashes msr_changes changed_files))
