-- ===== src/Cli/Folders.antt =====
-- cli/internal/repository/base.go: the folders of the versions in the governance folder, sorted
-- (getGovernanceVersionedFolders, getGovernanceVersionedFoldersSortedList), and the last of them.
use Prim.Native.Char.{code}
use Prim.Native.Nat.{◌*◌}
use quorum_based_manifests_g.Common.{
  ℕ, max_int, ◌+◌, ◌-◌, ltb, leb, nat_eq, Bool, true, false, ◌&&◌, List, [], ◌∷◌, Option, none,
  some, String, last, if◌then◌else◌,
}
use quorum_based_manifests_g.Repository.World.{DirEntry}
use quorum_based_manifests_g.Repository.Folders.{join_all}

abbrev pub is_digit : ℕ → Bool
is_digit c = leb 48 c && leb c 57

-- The digits of a text behind the value `v`; `none` if there is anything else.
unfoldable pub read_digits : String → ℕ → Option ℕ
read_digits String.[] v = some v
read_digits (String.◌∷◌ c s) v =
    let rest = read_digits s (v * 10 + (code c - 48)) in if is_digit (code c) then rest else none

-- strconv.Atoi without its error: a number that is too large becomes the largest.
abbrev pub saturated : Option ℕ → Option ℕ
saturated none = none
saturated (some n) = some (if ltb max_int n then max_int else n)

-- `(\d+)$`
abbrev pub number_of : String → Option ℕ
number_of String.[] = none
number_of (String.◌∷◌ c s) = saturated (read_digits (String.◌∷◌ c s) 0)

-- `^v_(\d+)$`, with the number
unfoldable pub folder_number : String → Option ℕ
unfolding read_digits
folder_number (String.◌∷◌ c (String.◌∷◌ d s)) =
    if nat_eq (code c) 118 && nat_eq (code d) 95 then number_of s else none
folder_number _ = none

-- map[int]string, in the order of `sort.Ints` on its keys
abbrev pub VersionedFolders : Type 0
VersionedFolders = List (ℕ × String)

unfoldable pub set_folder : ℕ → String → VersionedFolders → VersionedFolders
set_folder n path [] = (n, path) ∷ []
set_folder n path ((m, other) ∷ folders) =
    let rest = set_folder n path folders in
    if ltb n m
    then (n, path) ∷ (m, other) ∷ folders
    else (if nat_eq n m then (n, path) ∷ folders else (m, other) ∷ rest)

-- The loop's body for an entry, from its number.
abbrev pub add_folder : String → Bool → Option ℕ → VersionedFolders → VersionedFolders
add_folder path false number folders = folders
add_folder path true none folders = folders
add_folder path true (some n) folders = set_folder n path folders

unfoldable pub versioned_folders : String → List DirEntry → VersionedFolders → VersionedFolders
unfolding set_folder folder_number join_all
versioned_folders governance_path [] folders = folders
versioned_folders governance_path (f ∷ files) folders =
    versioned_folders governance_path files (
      add_folder (join_all (governance_path ∷ f.name ∷ [])) f.is_dir (folder_number f.name) folders)

-- `folders[len(folders)-1]` of the sorted list
unfoldable pub active_msr_folder : String → List DirEntry → Option (ℕ × String)
unfolding versioned_folders
active_msr_folder governance_path files = last (versioned_folders governance_path files [])
