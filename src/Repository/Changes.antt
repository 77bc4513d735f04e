-- ===== src/Repository/Changes.antt =====
-- kubernetes/internal/repository/base.go, `patchToFileChangeList`: the changed files of a patch,
-- as a signing request lists them, and their contents.
use quorum_based_manifests_g.Common.{
  List, [], ◌∷◌, ◌++◌, String, ◌+++◌, Result, ok, err, with_context, insert, if◌then◌else◌,
}
use quorum_based_manifests_g.Api.{FileChangeStatus, new, updated, deleted, FileChange}
use quorum_based_manifests_g.Repository.Files.{
  ObjectMetadata, FilePatch, Trees, Change, added, removed, modified, neither, change_of, is_inside,
}

-- What the loop does for a patch: it continues, returns an error, or lists a file with its content.
pub data Entry : Type 0 where
  skipped : Entry
  failed : String → Entry
  listed : FileChange → String → Entry

-- map[string]string
abbrev pub Contents : Type 0
Contents = List (String × String)

module _ (t : Trees) where
  -- A file that is not YAML is skipped.
  abbrev pub with_metadata : String → FileChangeStatus → String → Result ObjectMetadata → Entry
  with_metadata path status content (err e) = skipped
  with_metadata path status content (ok meta) =
      listed
        (record {
          kind = meta.kind;
          status = status;
          name = meta.name;
          namespace = meta.namespace;
          sha256 = t.sha256_hex content;
          path = path;
        })
        content

  abbrev pub with_content : String → FileChangeStatus → Result String → Entry
  with_content path status (err e) =
      failed (with_context ("could not read file contents for " +++ path) e)
  with_content path status (ok content) = with_metadata path status content (t.unmarshal content)

  abbrev pub with_file : String → String → FileChangeStatus → Result t.File → Entry
  with_file from_folder path status (err e) =
      failed (with_context ("could not get file object for path " +++ path) e)
  with_file from_folder path status (ok file) =
      if is_inside from_folder path then with_content path status (t.contents file) else skipped

  unfoldable pub entry : t.Tree → t.Tree → String → Change → Entry
  unfolding is_inside
  entry from_tree to_tree from_folder (added path) =
      with_file from_folder path new (t.file to_tree path)
  entry from_tree to_tree from_folder (removed path) =
      with_file from_folder path deleted (t.file from_tree path)
  entry from_tree to_tree from_folder (modified path) =
      with_file from_folder path updated (t.file to_tree path)
  entry from_tree to_tree from_folder neither = skipped

  -- The rest of the loop after an entry.
  abbrev pub add_entry :
      Entry
      → (List FileChange → Contents → Result (List FileChange × Contents))
      → List FileChange
      → Contents
      → Result (List FileChange × Contents)
  add_entry skipped rest changes content_map = rest changes content_map
  add_entry (failed e) rest changes content_map = err e
  add_entry (listed change content) rest changes content_map =
      rest (changes ++ change ∷ []) (insert change.path content content_map)

  unfoldable pub collect_changes :
      t.Tree
      → t.Tree
      → String
      → List FilePatch
      → List FileChange
      → Contents
      → Result (List FileChange × Contents)
  unfolding entry insert
  collect_changes from_tree to_tree from_folder [] changes content_map = ok (changes, content_map)
  collect_changes from_tree to_tree from_folder (patch ∷ patches) changes content_map =
      add_entry (entry from_tree to_tree from_folder (change_of patch.from patch.to))
        (collect_changes from_tree to_tree from_folder patches) changes content_map

  unfoldable pub patch_to_file_change_list :
      t.Tree → t.Tree → List FilePatch → String → Result (List FileChange × Contents)
  unfolding collect_changes
  patch_to_file_change_list from_tree to_tree patches from_folder =
      collect_changes from_tree to_tree from_folder patches [] []
