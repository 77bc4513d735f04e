-- ===== src/Cli/Latest.antt =====
-- The folder that the tool takes for the current request.
use mathlib.Core.List.{Memᴰ}
use quorum_based_manifests_g.Common.{
  ℕ, suc, ◌≤◌, ltb, nat_eq, Bool, true, false, List, [], ◌∷◌, Option, none, some, String, ◌≡◌, ◌⊎◌,
  refl, ap, sym, ◌∙◌, subst, arith, last, Bool-cases, inl, inr,
}
use quorum_based_manifests_g.Repository.World.{DirEntry}
use quorum_based_manifests_g.Repository.Folders.{join_all}
use quorum_based_manifests_g.Cli.Folders.{
  folder_number, VersionedFolders, set_folder, add_folder, versioned_folders, active_msr_folder,
}

-- The versions ascend, from `low` on.
abbrev IsSortedFrom : ℕ → VersionedFolders → Type 0
IsSortedFrom low [] = Unit
IsSortedFrom low ((m, path) ∷ folders) = (low ≤ m) × IsSortedFrom (suc m) folders

abbrev Holds : ℕ → VersionedFolders → Type 0
Holds n [] = ⊥
Holds n ((m, path) ∷ folders) = (n ≡ m) ⊎ Holds n folders

set-IsSorted :
    (low n : ℕ) (path : String) (folders : VersionedFolders)
    → low ≤ n
    → IsSortedFrom low folders
    → IsSortedFrom low (set_folder n path folders)
unfolding set_folder
set-IsSorted low n path [] h s = (h, tt)
set-IsSorted low n path ((m, p) ∷ folders) h (b, s) = elim (Bool-cases (ltb n m)) [
  | inl lt ↦ rw lt (h, (ltb_lt n m lt, s))
  | inr ge ↦ elim (Bool-cases (nat_eq n m)) [
    | inl same ↦ rw ge (rw same (h, subst (λ k. IsSortedFrom (suc k) folders) (ground arith) s))
    | inr differ ↦ rw ge (rw differ (b, set-IsSorted (suc m) n path folders (ground arith) s))
  ]
]
  where
    ltb_lt : (a c : ℕ) → ltb a c ≡ true → suc a ≤ c
    ltb_lt a c e = ground arith

set-Holds :
    (n : ℕ) (path : String) (folders : VersionedFolders) → Holds n (set_folder n path folders)
unfolding set_folder
set-Holds n path [] = inl refl
set-Holds n path ((m, p) ∷ folders) = elim (Bool-cases (ltb n m)) [
  | inl lt ↦ rw lt (inl refl)
  | inr ge ↦ elim (Bool-cases (nat_eq n m)) [
    | inl same ↦ rw ge (rw same (inl refl))
    | inr differ ↦ rw ge (rw differ (inr (set-Holds n path folders)))
  ]
]

keeps-Holds :
    (k n : ℕ) (path : String) (folders : VersionedFolders)
    → Holds k folders
    → Holds k (set_folder n path folders)
unfolding set_folder
keeps-Holds k n path [] h = absurd h
keeps-Holds k n path ((m, p) ∷ folders) h = elim (Bool-cases (ltb n m)) [
  | inl lt ↦ rw lt (inr h)
  | inr ge ↦ elim (Bool-cases (nat_eq n m)) [
    | inl same ↦ rw ge (rw same (replaced (ground arith) h))
    | inr differ ↦ rw ge (rw differ (kept (keeps-Holds k n path folders) h))
  ]
]
  where
    replaced : n ≡ m → (k ≡ m) ⊎ Holds k folders → (k ≡ n) ⊎ Holds k folders
    replaced e (inl q) = inl (omega arith)
    replaced e (inr q) = inr q

    kept :
        (Holds k folders → Holds k (set_folder n path folders))
        → (k ≡ m) ⊎ Holds k folders
        → (k ≡ m) ⊎ Holds k (set_folder n path folders)
    kept ih (inl q) = inl q
    kept ih (inr q) = inr (ih q)

-- The last of the folders has a version that is not below any other.
last-ge :
    (n low : ℕ) (folders : VersionedFolders)
    → IsSortedFrom low folders
    → Holds n folders
    → (m : ℕ) × (path : String) × (last folders ≡ some (m, path)) × (n ≤ m)
last-ge n low [] s h = absurd h
last-ge n low ((m, p) ∷ []) s (inl e) = (m, p, refl, omega arith)
last-ge n low ((m, p) ∷ []) s (inr h) = absurd h
last-ge n low ((m, p) ∷ (m', p') ∷ folders) s (inl e) =
    let (top, path, found, le) = last-ge m' (suc m) ((m', p') ∷ folders) s.1 (inl refl) in
    (top, path, found, omega (arith, s.1.0))
last-ge n low ((m, p) ∷ (m', p') ∷ folders) s (inr h) = last-ge n (suc m) ((m', p') ∷ folders) s.1 h

add-IsSorted :
    (path : String) (is_dir : Bool) (number : Option ℕ) (folders : VersionedFolders)
    → IsSortedFrom 0 folders
    → IsSortedFrom 0 (add_folder path is_dir number folders)
add-IsSorted path false number folders s = s
add-IsSorted path true none folders s = s
add-IsSorted path true (some n) folders s = set-IsSorted 0 n path folders (omega arith) s

add-Holds :
    (k : ℕ) (path : String) (is_dir : Bool) (number : Option ℕ) (folders : VersionedFolders)
    → Holds k folders
    → Holds k (add_folder path is_dir number folders)
add-Holds k path false number folders h = h
add-Holds k path true none folders h = h
add-Holds k path true (some n) folders h = keeps-Holds k n path folders h

versioned-IsSorted :
    (root : String) (files : List DirEntry) (folders : VersionedFolders)
    → IsSortedFrom 0 folders
    → IsSortedFrom 0 (versioned_folders root files folders)
unfolding versioned_folders
versioned-IsSorted root [] folders s = s
versioned-IsSorted root (f ∷ files) folders s =
    versioned-IsSorted root files _ (add-IsSorted _ f.is_dir (folder_number f.name) folders s)

versioned-keeps :
    (k : ℕ) (root : String) (files : List DirEntry) (folders : VersionedFolders)
    → Holds k folders
    → Holds k (versioned_folders root files folders)
unfolding versioned_folders
versioned-keeps k root [] folders h = h
versioned-keeps k root (f ∷ files) folders h =
    versioned-keeps k root files _ (add-Holds k _ f.is_dir (folder_number f.name) folders h)

versioned-Holds :
    (n : ℕ) (root : String) (f : DirEntry) (files : List DirEntry) (folders : VersionedFolders)
    → Memᴰ f files
    → f.is_dir ≡ true
    → folder_number f.name ≡ some n
    → Holds n (versioned_folders root files folders)
unfolding versioned_folders
versioned-Holds n root f [] folders m d e = elim m [ ]
versioned-Holds n root f (g ∷ files) folders (Memᴰ.tail m) d e =
    versioned-Holds n root f files _ m d e
versioned-Holds n root f (g ∷ files) folders (Memᴰ.head same) d e = versioned-keeps n root files _ (
    added g.is_dir (folder_number g.name) (ap (λ x. DirEntry.is_dir x) (sym same) ∙ d)
      (ap (λ x. folder_number (DirEntry.name x)) (sym same) ∙ e))
  where
    added :
        (b : Bool) (number : Option ℕ)
        → b ≡ true
        → number ≡ some n
        → Holds n (add_folder (join_all (root ∷ g.name ∷ [])) b number folders)
    added true (some k) d' e' =
        let same_n : k ≡ n = ground arith in
        subst (λ i. Holds i (set_folder k (join_all (root ∷ g.name ∷ [])) folders)) same_n
          (set-Holds k (join_all (root ∷ g.name ∷ [])) folders)
    added true none d' e' = absurd (cc)
    added false number d' e' = absurd (cc)

-- The path of a version is that of a folder in the governance folder with its name.
abbrev pub IsFolderOf : String → List DirEntry → ℕ → String → Type 0
IsFolderOf root files m path =
    (f : DirEntry) × Memᴰ f files
    × (f.is_dir ≡ true)
    × (folder_number f.name ≡ some m)
    × (path ≡ join_all (root ∷ f.name ∷ []))

AllFolders : String → List DirEntry → VersionedFolders → Type 0
AllFolders root files [] = Unit
AllFolders root files ((m, path) ∷ folders) =
    IsFolderOf root files m path × AllFolders root files folders

module _ (root : String) (files : List DirEntry) where
  set-AllFolders :
      (n : ℕ) (path : String) (folders : VersionedFolders)
      → IsFolderOf root files n path
      → AllFolders root files folders
      → AllFolders root files (set_folder n path folders)
  unfolding set_folder AllFolders
  set-AllFolders n path [] h a = (h, tt)
  set-AllFolders n path ((m, p) ∷ folders) h (b, a) = elim (Bool-cases (ltb n m)) [
    | inl lt ↦ rw lt (h, (b, a))
    | inr ge ↦ elim (Bool-cases (nat_eq n m)) [
      | inl same ↦ rw ge (rw same (h, a))
      | inr differ ↦ rw ge (rw differ (b, set-AllFolders n path folders h a))
    ]
  ]

  add-AllFolders :
      (f : DirEntry) (is_dir : Bool) (number : Option ℕ) (folders : VersionedFolders)
      → Memᴰ f files
      → f.is_dir ≡ is_dir
      → folder_number f.name ≡ number
      → AllFolders root files folders
      → AllFolders root files (add_folder (join_all (root ∷ f.name ∷ [])) is_dir number folders)
  add-AllFolders f false number folders m d e a = a
  add-AllFolders f true none folders m d e a = a
  add-AllFolders f true (some n) folders m d e a =
      set-AllFolders n (join_all (root ∷ f.name ∷ [])) folders (f, m, d, e, refl) a

  versioned-AllFolders :
      (rest : List DirEntry) (folders : VersionedFolders)
      → ((f : DirEntry) → Memᴰ f rest → Memᴰ f files)
      → AllFolders root files folders
      → AllFolders root files (versioned_folders root rest folders)
  unfolding versioned_folders
  versioned-AllFolders [] folders within a = a
  versioned-AllFolders (f ∷ rest) folders within a =
      versioned-AllFolders rest _ (λ g m. within g (Memᴰ.tail m))
        (add-AllFolders f f.is_dir (folder_number f.name) folders (within f (Memᴰ.head refl)) refl
          refl a)

  last-IsFolderOf :
      (folders : VersionedFolders) (m : ℕ) (path : String)
      → AllFolders root files folders
      → last folders ≡ some (m, path)
      → IsFolderOf root files m path
  unfolding AllFolders
  last-IsFolderOf [] m path a h = absurd (cc)
  last-IsFolderOf ((n, p) ∷ []) m path a h =
      subst {A = ℕ × String} (λ e. IsFolderOf root files e.0 e.1)
        (ap (λ o. elim o [ none ↦ (n, p) | some e ↦ e ]) h) a.0
  last-IsFolderOf ((n, p) ∷ (n', p') ∷ folders) m path a h =
      last-IsFolderOf ((n', p') ∷ folders) m path a.1 h

-- The tool works on a folder of the highest version: if the governance folder has a folder of a
-- version, then a folder is found, whose version is that or a later one, and its path is the
-- governance folder's with the name of a folder of that version in it.
pub active_msr_folder-ge :
    (root : String) (files : List DirEntry) (f : DirEntry) (n : ℕ)
    → Memᴰ f files
    → f.is_dir ≡ true
    → folder_number f.name ≡ some n
    → (m : ℕ) × (path : String) × (active_msr_folder root files ≡ some (m, path))
      × (n ≤ m)
      × IsFolderOf root files m path
unfolding active_msr_folder AllFolders
active_msr_folder-ge root files f n m d e =
    let folders = versioned_folders root files [] in
    let (top, path, found, le) =
      last-ge n 0 folders (versioned-IsSorted root files [] tt)
        (versioned-Holds n root f files [] m d e) in
    (
      top,
      path,
      found,
      le,
      last-IsFolderOf root files folders top path
          (versioned-AllFolders root files files [] (λ g k. k) tt) found,
    )
