-- ===== src/Repository/Folders.antt =====
-- The folders and files of a version in the repository: `v_N` with Go's `%d`, and filepath.Join.
use Prim.Native.Char.{Char}
use Prim.Native.Nat.{◌/◌, ◌%◌}
use quorum_based_manifests_g.Common.{
  ℕ, zero, suc, ltb, ℤ, pos, negsuc, List, [], ◌∷◌, String, ◌==◌, ◌+++◌, if◌then◌else◌,
}
use quorum_based_manifests_g.Template.Paths.{clean}

-- The character of a digit; above nine, which the code does not reach, that of nine.
abbrev pub digit : ℕ → Char
digit zero = "0"
digit (suc zero) = "1"
digit (suc (suc zero)) = "2"
digit (suc (suc (suc zero))) = "3"
digit (suc (suc (suc (suc zero)))) = "4"
digit (suc (suc (suc (suc (suc zero))))) = "5"
digit (suc (suc (suc (suc (suc (suc zero)))))) = "6"
digit (suc (suc (suc (suc (suc (suc (suc zero))))))) = "7"
digit (suc (suc (suc (suc (suc (suc (suc (suc zero)))))))) = "8"
digit (suc (suc (suc (suc (suc (suc (suc (suc (suc n))))))))) = "9"

-- The digits of `n` in front of a text. The fuel is more than the number of digits if it is more
-- than `n`.
unfoldable pub digits : ℕ → ℕ → String → String
digits zero n after = after
digits (suc fuel) n after =
    let rest = digits fuel (n / 10) (String.◌∷◌ (digit (n % 10)) after) in
    if ltb n 10 then String.◌∷◌ (digit (n % 10)) after else rest

-- `%d`
unfoldable pub decimal : ℤ → String
unfolding digits
decimal (pos n) = digits (suc n) n ""
decimal (negsuc n) = "-" +++ digits (suc (suc n)) (suc n) ""

-- `fmt.Sprintf("v_%d", version)`
unfoldable pub version_folder : ℤ → String
unfolding decimal
version_folder version = "v_" +++ decimal version

-- strings.Join with slashes; an empty element adds nothing to the cleaned path.
abbrev slashed_with : String → String → String
slashed_with part rest =
    if part == "" then rest else (if rest == "" then part else part +++ "/" +++ rest)

slashed : List String → String
slashed [] = ""
slashed (part ∷ parts) = slashed_with part (slashed parts)

-- filepath.Join
unfoldable pub join_all : List String → String
unfolding slashed clean
join_all parts = let path = slashed parts in if path == "" then "" else clean path
