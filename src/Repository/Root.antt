-- ===== src/Repository/Root.antt =====
-- A source path that is the repository's root.
use quorum_based_manifests_g.Common.{false, List, [], ◌∷◌, String, ◌≡◌, ok, err, Result, arith}
use quorum_based_manifests_g.Api.{FileChange, FileChangeStatus}
use quorum_based_manifests_g.Template.Paths.{clean, has_prefix}
use quorum_based_manifests_g.Repository.Files.{
  FilePatch, Trees, Change, added, removed, modified, neither, change_of, is_inside,
}
use quorum_based_manifests_g.Repository.Changes.{
  Entry, skipped, failed, listed, Contents, with_file, entry, add_entry, collect_changes,
  patch_to_file_change_list,
}

-- No path of the patch is written with a leading `./`; Git writes none so.
abbrev pub IsPlain : Change → Type 0
IsPlain (added path) = has_prefix path "./" ≡ false
IsPlain (removed path) = has_prefix path "./" ≡ false
IsPlain (modified path) = has_prefix path "./" ≡ false
IsPlain neither = Unit

abbrev pub ArePlain : List FilePatch → Type 0
ArePlain [] = Unit
ArePlain (p ∷ ps) = IsPlain (change_of p.from p.to) × ArePlain ps

-- The entry lists nothing.
abbrev IsSilent : Entry → Type 0
IsSilent (listed change content) = ⊥
IsSilent _ = Unit

module _ (t : Trees) where
  file-IsSilent :
      (folder path : String) (status : FileChangeStatus) (r : Result t.File)
      → is_inside folder path ≡ false
      → IsSilent (with_file t folder path status r)
  file-IsSilent folder path status (ok file) h = rw h tt
  file-IsSilent folder path status (err e) h = tt

  module _ (folder : String) (root : clean folder ≡ ".") where
    outside : (path : String) → has_prefix path "./" ≡ false → is_inside folder path ≡ false
    unfolding is_inside
    outside path h = rw root h

    entry-IsSilent :
        (from_tree to_tree : t.Tree) (c : Change)
        → IsPlain c
        → IsSilent (entry t from_tree to_tree folder c)
    unfolding entry
    entry-IsSilent from_tree to_tree (added path) h =
        file-IsSilent folder path FileChangeStatus.new (t.file to_tree path) (outside path h)
    entry-IsSilent from_tree to_tree (removed path) h =
        file-IsSilent folder path FileChangeStatus.deleted (t.file from_tree path) (outside path h)
    entry-IsSilent from_tree to_tree (modified path) h =
        file-IsSilent folder path FileChangeStatus.updated (t.file to_tree path) (outside path h)
    entry-IsSilent from_tree to_tree neither h = tt

    add-Nil :
        (e : Entry) (rest : List FileChange → Contents → Result (List FileChange × Contents))
        (changes : List FileChange) (contents : Contents)
        → IsSilent e
        → (rest [] [] ≡ ok (changes, contents) → (changes ≡ []) × (contents ≡ []))
        → add_entry t e rest [] [] ≡ ok (changes, contents)
        → (changes ≡ []) × (contents ≡ [])
    add-Nil skipped rest changes contents silent ih h = ih h
    add-Nil (failed e) rest changes contents silent ih h = absurd (cc)
    add-Nil (listed c s) rest changes contents silent ih h = absurd silent

    collect-Nil :
        (from_tree to_tree : t.Tree) (patches : List FilePatch) (changes : List FileChange)
        (contents : Contents)
        → ArePlain patches
        → collect_changes t from_tree to_tree folder patches [] [] ≡ ok (changes, contents)
        → (changes ≡ []) × (contents ≡ [])
    unfolding collect_changes
    collect-Nil from_tree to_tree [] changes contents plain h = (ground arith, ground arith)
    collect-Nil from_tree to_tree (p ∷ ps) changes contents plain h =
        add-Nil (entry t from_tree to_tree folder (change_of p.from p.to))
          (collect_changes t from_tree to_tree folder ps) changes contents
          (entry-IsSilent from_tree to_tree (change_of p.from p.to) plain.0)
          (collect-Nil from_tree to_tree ps changes contents plain.1) h

  -- For a source path that is cleaned to `.`, the repository's root, no change of any revision is
  -- listed, if Git's paths have no leading `./`.
  pub root_lists_nothing :
      (from_tree to_tree : t.Tree) (patches : List FilePatch) (folder : String)
      (changes : List FileChange) (contents : Contents)
      → clean folder ≡ "."
      → ArePlain patches
      → patch_to_file_change_list t from_tree to_tree patches folder ≡ ok (changes, contents)
      → (changes ≡ []) × (contents ≡ [])
  unfolding patch_to_file_change_list
  root_lists_nothing from_tree to_tree patches folder changes contents root plain h =
      collect-Nil folder root from_tree to_tree patches changes contents plain h
