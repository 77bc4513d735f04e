-- ===== src/Cli/Agreement.antt =====
-- What the command line tool says of the changes that the operator lists: the two listings of one
-- patch, and VerifyChangedFiles on them.
use quorum_based_manifests_g.Common.{
  Bool, true, false, List, [], ◌∷◌, ◌++◌, String, ◌≡◌, ◌≢◌, refl, sym, subst, Result, ok, err,
  insert, lookup-insert, arith, eq_iff, String-cases, inl, inr, if◌then◌else◌,
}
use quorum_based_manifests_g.Api
use quorum_based_manifests_g.Dto.{FileBytesWithStatus}
use quorum_based_manifests_g.Converter.{file_change, file_change_status, k8s_changes_to_dto}
use quorum_based_manifests_g.ChangedFiles.{ChangedFiles}
use quorum_based_manifests_g.ChangedFiles.Accepted.{Matches, AllMatch}
use quorum_based_manifests_g.Repository.Files.{
  ObjectMetadata, FilePatch, Trees, Change, added, removed, modified, neither, change_of, is_inside,
}
use quorum_based_manifests_g.Repository.Changes.{Entry, skipped, failed, listed, Contents}
use quorum_based_manifests_g.Repository.Changes as Operator
use quorum_based_manifests_g.Cli.Changes as Tool

-- The path that a change is listed under.
abbrev pub path_of : Change → String
path_of (added path) = path
path_of (removed path) = path
path_of (modified path) = path
path_of neither = ""

abbrev pub patch_path : FilePatch → String
patch_path patch = path_of (change_of patch.from patch.to)

-- No patch of the list is listed under the path.
abbrev pub Fresh : String → List FilePatch → Type 0
Fresh path [] = Unit
Fresh path (p ∷ ps) = (path ≢ patch_path p) × Fresh path ps

-- A patch has every path once.
abbrev pub Distinct : List FilePatch → Type 0
Distinct [] = Unit
Distinct (p ∷ ps) = Fresh (patch_path p) ps × Distinct ps

abbrev pub AllFresh : List Api.FileChange → List FilePatch → Type 0
AllFresh [] ps = Unit
AllFresh (c ∷ cs) ps = Fresh c.path ps × AllFresh cs ps

module _ (t : Trees) where
  abbrev Same : String → Api.FileChange → FileBytesWithStatus → Type 0
  Same path change f =
      (change.path ≡ path)
      × (f.path ≡ path)
      × (f.status ≡ file_change_status change.status)
      × (t.sha256_hex f.content ≡ change.sha256)

  -- What the tool does for a patch, given what the operator does.
  abbrev Agrees : String → Entry → Tool.Entry → Type 0
  Agrees path (listed change content) (Tool.read f) = Same path change f
  Agrees path (listed change content) Tool.skipped = ⊥
  Agrees path (listed change content) (Tool.failed e) = ⊥
  Agrees path skipped (Tool.read f) = f.path ≡ path
  Agrees path skipped Tool.skipped = Unit
  Agrees path skipped (Tool.failed e) = Unit
  Agrees path (failed e) x = Unit

  module _ (path : String) (status : Api.FileChangeStatus) where
    metadata-Agrees :
        (content : String) (meta : Result ObjectMetadata)
        → Agrees path
            (Operator.with_metadata t path status content meta)
            (Tool.with_content t path (file_change_status status) (ok content))
    metadata-Agrees content (ok meta) = (refl, refl, refl, refl)
    metadata-Agrees content (err e) = refl

    content-Agrees :
        (r : Result String)
        → Agrees path
            (Operator.with_content t path status r)
            (Tool.with_content t path (file_change_status status) r)
    content-Agrees (ok content) = metadata-Agrees content (t.unmarshal content)
    content-Agrees (err e) = tt

    inside-Agrees :
        (b : Bool) (r : Result String)
        → Agrees path
            (if b then Operator.with_content t path status r else skipped)
            (if b then Tool.with_content t path (file_change_status status) r else Tool.skipped)
    inside-Agrees true r = content-Agrees r
    inside-Agrees false r = tt

    file-Agrees :
        (folder : String) (r : Result t.File)
        → Agrees path
            (Operator.with_file t folder path status r)
            (Tool.with_file t folder path (file_change_status status) r)
    file-Agrees folder (ok file) = inside-Agrees (is_inside folder path) (t.contents file)
    file-Agrees folder (err e) = tt

  entry-Agrees :
      (from_tree to_tree : t.Tree) (folder : String) (c : Change)
      → Agrees
          (path_of c)
          (Operator.entry t from_tree to_tree folder c)
          (Tool.entry t from_tree to_tree folder c)
  unfolding Operator.entry Tool.entry file_change_status
  entry-Agrees from_tree to_tree folder (added path) =
      file-Agrees path Api.new folder (t.file to_tree path)
  entry-Agrees from_tree to_tree folder (removed path) =
      file-Agrees path Api.deleted folder (t.file from_tree path)
  entry-Agrees from_tree to_tree folder (modified path) =
      file-Agrees path Api.updated folder (t.file to_tree path)
  entry-Agrees from_tree to_tree folder neither = tt

  abbrev pub AllListed : ChangedFiles → List Api.FileChange → Type 0
  AllListed files changes = AllMatch t.sha256_hex files (k8s_changes_to_dto changes)

  Matches-insert :
      (path : String) (f : FileBytesWithStatus) (files : ChangedFiles) (c : Api.FileChange)
      → c.path ≢ path
      → Matches t.sha256_hex files (file_change c)
      → Matches t.sha256_hex (insert path f files) (file_change c)
  unfolding file_change
  Matches-insert path f files c apart (g, found, status, hash) = elim (String-cases path c.path) [
    | inl (same, e) ↦ absurd (apart (sym same))
    | inr (differ, e) ↦ (g, rw (lookup-insert path c.path f files) (rw e found), status, hash)
  ]

  Matches-inserted :
      (path : String) (f : FileBytesWithStatus) (files : ChangedFiles) (c : Api.FileChange)
      → Same path c f
      → Matches t.sha256_hex (insert path f files) (file_change c)
  unfolding file_change
  Matches-inserted path f files c (at, _, status, hash) =
      (f, rw (lookup-insert path c.path f files) (ground (arith, eq_iff path c.path)), status, hash)

  AllListed-insert :
      (p : FilePatch) (ps : List FilePatch) (f : FileBytesWithStatus) (files : ChangedFiles)
      (changes : List Api.FileChange)
      → AllFresh changes (p ∷ ps)
      → AllListed files changes
      → AllListed (insert (patch_path p) f files) changes
  unfolding k8s_changes_to_dto
  AllListed-insert p ps f files [] fresh m = tt
  AllListed-insert p ps f files (c ∷ changes) (fresh, rest) (m, ms) = (
    Matches-insert (patch_path p) f files c fresh.0 m,
    AllListed-insert p ps f files changes rest ms,
  )

  AllListed-snoc :
      (files : ChangedFiles) (changes : List Api.FileChange) (c : Api.FileChange)
      → AllListed files changes
      → Matches t.sha256_hex files (file_change c)
      → AllListed files (changes ++ c ∷ [])
  unfolding k8s_changes_to_dto
  AllListed-snoc files [] c m n = (n, tt)
  AllListed-snoc files (d ∷ changes) c (m, ms) n = (m, AllListed-snoc files changes c ms n)

  AllFresh-tail :
      (p : FilePatch) (ps : List FilePatch) (changes : List Api.FileChange)
      → AllFresh changes (p ∷ ps)
      → AllFresh changes ps
  AllFresh-tail p ps [] fresh = tt
  AllFresh-tail p ps (c ∷ changes) (fresh, rest) = (fresh.1, AllFresh-tail p ps changes rest)

  AllFresh-snoc :
      (ps : List FilePatch) (changes : List Api.FileChange) (c : Api.FileChange)
      → AllFresh changes ps
      → Fresh c.path ps
      → AllFresh (changes ++ c ∷ []) ps
  AllFresh-snoc ps [] c fresh new = (new, tt)
  AllFresh-snoc ps (d ∷ changes) c (fresh, rest) new = (fresh, AllFresh-snoc ps changes c rest new)

  module _ (from_tree to_tree : t.Tree) (folder : String) (changes' : List Api.FileChange)
      (contents' : Contents) (files' : ChangedFiles) where
    abbrev pub Continues : List FilePatch → Type 0
    Continues ps =
        (changes : List Api.FileChange) (contents : Contents) (files : ChangedFiles)
        → AllFresh changes ps
        → AllListed files changes
        → Operator.collect_changes t from_tree to_tree folder ps changes contents
          ≡ ok (changes', contents')
        → Tool.collect_files t from_tree to_tree folder ps files ≡ ok files'
        → AllListed files' changes'

    step-AllListed :
        (p : FilePatch) (ps : List FilePatch) (e : Entry) (x : Tool.Entry)
        → Agrees (patch_path p) e x
        → Fresh (patch_path p) ps
        → Continues ps
        → (changes : List Api.FileChange) (contents : Contents) (files : ChangedFiles)
        → AllFresh changes (p ∷ ps)
        → AllListed files changes
        → Operator.add_entry t e
            (Operator.collect_changes t from_tree to_tree folder ps)
            changes
            contents
          ≡ ok (changes', contents')
        → Tool.add_entry t x (Tool.collect_files t from_tree to_tree folder ps) files ≡ ok files'
        → AllListed files' changes'
    step-AllListed p ps (failed e) x agrees new ih changes contents files fresh m h k = absurd (cc)
    step-AllListed p ps skipped (Tool.failed e) agrees new ih changes contents files fresh m h k =
        absurd (cc)
    step-AllListed p ps skipped Tool.skipped agrees new ih changes contents files fresh m h k =
        ih changes contents files (AllFresh-tail p ps changes fresh) m h k
    step-AllListed p ps skipped (Tool.read f) agrees new ih changes contents files fresh m h k =
        ih changes contents (insert f.path f files) (AllFresh-tail p ps changes fresh)
          (subst (λ path. AllListed (insert path f files) changes) (sym agrees)
            (AllListed-insert p ps f files changes fresh m))
          h k
    step-AllListed p ps (listed c content) (Tool.read f) agrees new ih changes contents files fresh
          m h k =
        ih (changes ++ c ∷ []) (insert c.path content contents) (insert f.path f files)
          (AllFresh-snoc ps changes c (AllFresh-tail p ps changes fresh)
            (subst (λ path. Fresh path ps) (sym agrees.0) new))
          (subst (λ path. AllListed (insert path f files) (changes ++ c ∷ [])) (sym agrees.1)
            (AllListed-snoc (insert (patch_path p) f files) changes c
              (AllListed-insert p ps f files changes fresh m)
              (Matches-inserted (patch_path p) f files c agrees)))
          h k
    step-AllListed p ps (listed c content) Tool.skipped agrees new ih changes contents files fresh m
          h k =
        absurd agrees
    step-AllListed p ps (listed c content) (Tool.failed e) agrees new ih changes contents files
          fresh m h k =
        absurd agrees

    pub collect-AllListed : (ps : List FilePatch) → Distinct ps → Continues ps
    unfolding Operator.collect_changes Tool.collect_files
    collect-AllListed [] distinct changes contents files fresh m h k =
        let same_files : files ≡ files' = cc in
        let same_changes : changes ≡ changes' = ground arith in
        subst (λ cs. AllListed files' cs) same_changes
          (subst (λ fs. AllListed fs changes) same_files m)
    collect-AllListed (p ∷ ps) (new, distinct) changes contents files fresh m h k =
        step-AllListed p ps (Operator.entry t from_tree to_tree folder (change_of p.from p.to))
          (Tool.entry t from_tree to_tree folder (change_of p.from p.to))
          (entry-Agrees from_tree to_tree folder (change_of p.from p.to)) new
          (collect-AllListed ps distinct) changes contents files fresh m h k
