-- ===== src/Repository/Files.antt =====
-- What the providers of the operator and of the command line tool read of Git's trees, and the
-- file that a file patch speaks of.
use quorum_based_manifests_g.Common.{Option, none, some, Bool, String, ◌+++◌, Result}
use quorum_based_manifests_g.Template.Paths.{clean, has_prefix}

-- k8sObjectMetadata, without the version, which is not read
pub record ObjectMetadata : Type 0 where
  pub kind : String
  pub name : String
  pub namespace : String

-- The paths of `filePatch.Files()`, where they are not nil.
pub record FilePatch : Type 0 where
  pub from : Option String
  pub to : Option String

-- go-git's trees and files, the YAML decoder, and SHA-256 in hexadecimal.
pub record Trees : Type 1 where
  pub Tree : Type 0
  pub File : Type 0
  pub empty_tree : Tree
  pub file : Tree → String → Result File
  pub contents : File → Result String
  pub unmarshal : String → Result ObjectMetadata
  pub sha256_hex : String → String

-- `strings.HasPrefix(path, filepath.Clean(fromFolder)+"/")`
unfoldable pub is_inside : String → String → Bool
unfolding has_prefix clean
is_inside from_folder path = has_prefix path (clean from_folder +++ "/")

-- Which of the three changes a patch is, with its path; a patch with two nil files is none.
pub data Change : Type 0 where
  added removed modified : String → Change
  neither : Change

abbrev pub change_of : Option String → Option String → Change
change_of none (some to) = added to
change_of (some from) none = removed from
change_of (some from) (some to) = modified to
change_of none none = neither
