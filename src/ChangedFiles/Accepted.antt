-- ===== src/ChangedFiles/Accepted.antt =====
-- The changes of a signing request that VerifyChangedFiles accepts.
use mathlib.Core.List
use mathlib.Core.List.Nodup
use mathlib.Core.List.Subperm
use mathlib.Core.List.Perm
use mathlib.Core.Logic.Or
use native.Mathlib.Bridge.{from_ℕ, from_le⁻¹}
use mathlib.Core.List.{Mem, Nodup, Subset, mem-cons, mem-cons_self, not-mem-nil, Mem-prop}
use quorum_based_manifests_g.Common.{
  suc, ap, true, List, [], ◌∷◌, some, String, ◌≡◌, ◌↔◌, refl, inl, inr, length, lookup, arith,
  nat_eq, if◌then◌else◌, eq_iff, String-cases, Option-cases,
}
use quorum_based_manifests_g.Dto.{FileChangeStatus, unknown, FileChange, FileBytesWithStatus}
use quorum_based_manifests_g.ChangedFiles.{
  ChangedFiles, accepted, different_length, status_eq, same_sets, collect_different_hashes,
  verify_changed_files,
}

-- The change is in Git with its status, and its hash is that of the content there.
abbrev pub Matches : (String → String) → ChangedFiles → FileChange → Type 0
Matches sha256_hex files cf =
    (f : FileBytesWithStatus) × (lookup cf.path files ≡ some f)
    × (f.status ≡ cf.status)
    × (sha256_hex f.content ≡ cf.sha256)

abbrev pub AllMatch : (String → String) → ChangedFiles → List FileChange → Type 0
AllMatch sha256_hex files [] = Unit
AllMatch sha256_hex files (cf ∷ cs) = Matches sha256_hex files cf × AllMatch sha256_hex files cs

status_eq_iff : (a b : FileChangeStatus) → (status_eq a b ≡ true) ↔ (a ≡ b)
status_eq_iff (unknown s) (unknown t) =
    (λ h. ground (arith, eq_iff s t), λ h. ground (arith, eq_iff s t))
status_eq_iff _ _ = (λ h. ground arith, λ h. ground arith)

module _ (sha256_hex : String → String) (files : ChangedFiles) where
  change_Matches :
      (cf : FileChange) (cs : List FileChange)
      → same_sets (cf ∷ cs) files ≡ true
      → collect_different_hashes sha256_hex (cf ∷ cs) files ≡ []
      → Matches sha256_hex files cf
  unfolding same_sets collect_different_hashes
  change_Matches cf cs h e = elim (Option-cases (lookup cf.path files)) [
    | inl missing ↦ absurd (ground arith)
    | inr (f, found) ↦ (
      f,
      found,
      ground (arith, status_eq_iff f.status cf.status),
      ground (arith, eq_iff (sha256_hex f.content) cf.sha256),
    )
  ]

  all_Match :
      (cs : List FileChange)
      → same_sets cs files ≡ true
      → collect_different_hashes sha256_hex cs files ≡ []
      → AllMatch sha256_hex files cs
  unfolding same_sets collect_different_hashes
  all_Match [] h e = tt
  all_Match (cf ∷ cs) h e = (change_Matches cf cs h e, all_Match cs (ground arith) (ground arith))

  Matches_all :
      (cs : List FileChange)
      → AllMatch sha256_hex files cs
      → (same_sets cs files ≡ true) × (collect_different_hashes sha256_hex cs files ≡ [])
  unfolding same_sets collect_different_hashes
  Matches_all [] m = (refl, refl)
  Matches_all (cf ∷ cs) ((f, found, st, hash), m) =
      let (sets, hashes) = Matches_all cs m in
      (
        ground (arith, status_eq_iff f.status cf.status),
        ground (arith, eq_iff (sha256_hex f.content) cf.sha256),
      )

  -- The changes are accepted exactly when they are as many as Git's files and each has a file in
  -- Git with its path, its status and its hash.
  pub verify-accepted_iff :
      (cs : List FileChange)
      → (verify_changed_files sha256_hex cs files ≡ accepted)
        ↔ ((length cs ≡ length files) × AllMatch sha256_hex files cs)
  unfolding verify_changed_files
  verify-accepted_iff cs = (
    λ h. (ground arith, all_Match cs (ground arith) (ground arith)),
    λ h. let (sets, hashes) = Matches_all cs h.1 in ground arith,
  )

  -- Changes that match have one possible complaint, their number.
  pub matching_verdict :
      (cs : List FileChange)
      → AllMatch sha256_hex files cs
      → verify_changed_files sha256_hex cs files ≡ (
          if nat_eq (length cs) (length files)
          then accepted
          else different_length (length cs) (length files))
  unfolding verify_changed_files
  matching_verdict cs m = let (sets, hashes) = Matches_all cs m in ground arith

module _ {ℓ} {V : Type ℓ} where
  abbrev pub keys : List (String × V) → List String
  keys [] = []
  keys ((k, v) ∷ m) = k ∷ keys m

  lookup-mem : (k : String) (m : List (String × V)) {v : V} → lookup k m ≡ some v → Mem k (keys m)
  unfolding lookup
  lookup-mem k [] h = cc
  lookup-mem k ((j, w) ∷ m) h = elim (String-cases j k) [
    | inl (e, t) ↦ rw e mem-cons_self
    | inr (e, t) ↦ mem-cons.1 (Or.inr (lookup-mem k m (rw t at h)))
  ]

  length-keys : (m : List (String × V)) → from_ℕ (List.length (keys m)) ≡ length m
  length-keys [] = refl
  length-keys ((k, v) ∷ m) = ap suc (length-keys m)

abbrev pub paths : List FileChange → List String
paths [] = []
paths (cf ∷ cs) = cf.path ∷ paths cs

length-paths : (cs : List FileChange) → from_ℕ (List.length (paths cs)) ≡ length cs
length-paths [] = refl
length-paths (cf ∷ cs) = ap suc (length-paths cs)

module _ (sha256_hex : String → String) (files : ChangedFiles) where
  paths-subset :
      (cs : List FileChange) → AllMatch sha256_hex files cs → Subset (paths cs) (keys files)
  paths-subset [] m a h = absurd (not-mem-nil h)
  paths-subset (cf ∷ cs) ((f, found, st, hash), m) a h =
      Or.elim Mem-prop (mem-cons.0 h) (λ e. rw e (lookup-mem cf.path files found))
        (paths-subset cs m a)

  -- If the request lists no path twice, a file that Git shows as changed is among the changes that
  -- are accepted: no changed file escapes the governors.
  pub accepted_complete :
      (cs : List FileChange) (path : String)
      → Nodup (paths cs)
      → verify_changed_files sha256_hex cs files ≡ accepted
      → Mem path (keys files)
      → Mem path (paths cs)
  accepted_complete cs path distinct h m =
      let (len, match) = (verify-accepted_iff sha256_hex files cs).0 h in
      let sub = Nodup.subperm distinct (paths-subset cs match) in
      let shorter = from_le⁻¹ _ _ (omega (arith, length-paths cs, length-keys files)) in
      (Perm.mem_iff (Subperm.perm_of_length_le sub shorter)).1 m
