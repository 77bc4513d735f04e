-- ===== src/Cli/Changes.antt =====
-- cli/internal/repository/base.go, `patchToFileChangeList` with `getFileMetaInfoForPath`: the files
-- of a patch with their status and content, by path.
use quorum_based_manifests_g.Common.{
  List, [], ◌∷◌, String, ◌+++◌, Result, ok, err, with_context, insert, if◌then◌else◌,
}
use quorum_based_manifests_g.Dto
use quorum_based_manifests_g.Dto.{FileChangeStatus, new, updated, deleted, FileBytesWithStatus}
use quorum_based_manifests_g.ChangedFiles.{ChangedFiles}
use quorum_based_manifests_g.Repository.Files.{
  FilePatch, Trees, Change, added, removed, modified, neither, change_of, is_inside,
}

pub data Entry : Type 0 where
  skipped : Entry
  failed : String → Entry
  read : FileBytesWithStatus → Entry

module _ (t : Trees) where
  abbrev pub with_content : String → FileChangeStatus → Result String → Entry
  with_content path status (err e) =
      failed (with_context ("could not read file contents for " +++ path) e)
  with_content path status (ok content) =
      read (record { content = content; status = status; path = path })

  abbrev pub with_file : String → String → FileChangeStatus → Result t.File → Entry
  with_file from_folder path status (err e) =
      failed (with_context ("could not get file object for path " +++ path) e)
  with_file from_folder path status (ok file) =
      if is_inside from_folder path then with_content path status (t.contents file) else skipped

  -- getFileMetaInfoForPath, and the body of the loop
  unfoldable pub entry : t.Tree → t.Tree → String → Change → Entry
  unfolding is_inside
  entry from_tree to_tree from_folder (added path) =
      with_file from_folder path new (t.file to_tree path)
  entry from_tree to_tree from_folder (removed path) =
      with_file from_folder path deleted (t.file from_tree path)
  entry from_tree to_tree from_folder (modified path) =
      with_file from_folder path updated (t.file to_tree path)
  entry from_tree to_tree from_folder neither =
      with_file from_folder "" (Dto.unknown "")
        (err "unsupported patch state: from and to are both nil")

  abbrev pub add_entry :
      Entry → (ChangedFiles → Result ChangedFiles) → ChangedFiles → Result ChangedFiles
  add_entry skipped rest result = rest result
  add_entry (failed e) rest result = err e
  add_entry (read file) rest result = rest (insert file.path file result)

  unfoldable pub collect_files :
      t.Tree → t.Tree → String → List FilePatch → ChangedFiles → Result ChangedFiles
  unfolding entry insert
  collect_files from_tree to_tree from_folder [] result = ok result
  collect_files from_tree to_tree from_folder (patch ∷ patches) result =
      add_entry (entry from_tree to_tree from_folder (change_of patch.from patch.to))
        (collect_files from_tree to_tree from_folder patches) result

  unfoldable pub patch_to_file_change_list :
      t.Tree → t.Tree → List FilePatch → String → Result ChangedFiles
  unfolding collect_files
  patch_to_file_change_list from_tree to_tree patches from_folder =
      collect_files from_tree to_tree from_folder patches []
