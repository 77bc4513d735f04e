-- ===== src/Template/Paths.antt =====
-- What the MRT controller uses of Go's `strings` and `path/filepath`, on slash-separated paths.
use Prim.Native.Char.{code}
use quorum_based_manifests_g.Common.{
  nat_eq, Bool, true, false, List, [], ◌∷◌, String, ◌==◌, ◌+++◌, if◌then◌else◌,
}

-- strings.HasPrefix
unfoldable pub has_prefix : String → String → Bool
has_prefix s String.[] = true
has_prefix String.[] (String.◌∷◌ d prefix) = false
has_prefix (String.◌∷◌ c s) (String.◌∷◌ d prefix) =
    let rest = has_prefix s prefix in if nat_eq (code c) (code d) then rest else false

-- strings.HasSuffix
unfoldable pub has_suffix : String → String → Bool
has_suffix String.[] suffix = suffix == ""
has_suffix (String.◌∷◌ c s) suffix =
    let rest = has_suffix s suffix in if String.◌∷◌ c s == suffix then true else rest

-- The first part gets one more character.
abbrev pub prepend : String → List String → List String
prepend c [] = c ∷ []
prepend c (part ∷ parts) = (c +++ part) ∷ parts

-- The parts between the slashes.
unfoldable pub split : String → List String
split String.[] = "" ∷ []
split (String.◌∷◌ c s) =
    let rest = split s in if nat_eq (code c) 47 then "" ∷ rest else prepend (String.◌∷◌ c "") rest

-- `..` takes back the part before it, if there is one that is not itself `..`; at the root it is
-- dropped. `taken` holds the parts so far, the last one first.
abbrev pub take_back : Bool → List String → List String
take_back rooted [] = if rooted then [] else ".." ∷ []
take_back rooted (part ∷ taken) = if part == ".." then ".." ∷ part ∷ taken else taken

unfoldable pub clean_parts : Bool → List String → List String → List String
clean_parts rooted taken [] = taken
clean_parts rooted taken (part ∷ parts) =
    if part == ""
    then clean_parts rooted taken parts
    else (if part == "."
        then clean_parts rooted taken parts
        else (if part == ".."
            then clean_parts rooted (take_back rooted taken) parts
            else clean_parts rooted (part ∷ taken) parts))

-- The parts, the last one first, with slashes between them.
unfoldable pub join_back : List String → String → String
join_back [] after = after
join_back (part ∷ parts) after =
    join_back parts (if after == "" then part else part +++ "/" +++ after)

-- filepath.Clean
unfoldable pub clean : String → String
unfolding has_prefix split clean_parts join_back
clean path =
    let rooted = has_prefix path "/" in
    let cleaned = join_back (clean_parts rooted [] (split path)) "" in
    if rooted then "/" +++ cleaned else (if cleaned == "" then "." else cleaned)

-- filepath.Join of two elements: empty ones are left out.
unfoldable pub join : String → String → String
unfolding clean
join a b =
    if a == ""
    then (if b == "" then "" else clean b)
    else (if b == "" then clean a else clean (a +++ "/" +++ b))
