-- ===== src/Repository/Reading.antt =====
-- The methods that read the repository, and the mutex.
use quorum_based_manifests_g.Common.{
  not, ◌&&◌, List, [], ◌∷◌, Option, none, some, String, Result, ok, err, ◌≡◌, refl,
}
use quorum_based_manifests_g.Api
use quorum_based_manifests_g.Exec.{Triple, Triple-bind, Triple-weaken, Triple-raise, raise}
use quorum_based_manifests_g.Repository.World.{
  DirEntry, PgpSecrets, Git, call, provider, under_mutex,
}
use quorum_based_manifests_g.Repository.Sync.{
  set_secrets, update_secrets, sync, get_remote_head_commit, local_head, get_local_head_commit,
  find_commit, found_commit, contains_target, has_revision, compare_commits, with_ancestor,
  is_not_after, head_text, get_latest_revision, get_tree_for_commit, from_tree, get_changed_files,
}
use quorum_based_manifests_g.Repository.Fetch.{
  add_signature, signature_pattern, read_file, read_signatures, signatures_in, fetch_locked,
  fetch_msr_by_version,
}
use quorum_based_manifests_g.Repository.Folders.{join_all}
use quorum_based_manifests_g.Repository.Keeps.{
  Any, Open, Free, keeps_rules, Triple-call, Settles, Keeps, Keeps-if, Keeps-bind, Keeps-both,
  Keeps-pure,
}
use quorum_based_manifests_g.Repository.Mutex.{
  open_rules, Cloned, under_mutex-Free, synced-Settles, sync_lem,
}

module _ (g : Git) where
  found_commit-Keeps : (c : String) (r : Result g.Commit) → Keeps g (Cloned g) (found_commit g c r)
  unfolding found_commit
  found_commit-Keeps c (ok a) = search open_rules
  found_commit-Keeps c (err e) = search open_rules

  find_commit-Keeps : (c commit : String) → Keeps g (Cloned g) (find_commit g c commit)
  unfolding find_commit
  find_commit-Keeps c commit = search (open_rules, found_commit-Keeps)

  contains_target-Keeps :
      (commit : String) (head : g.Commit) (target : Option g.Commit)
      → Keeps g (Cloned g) (contains_target g commit head target)
  unfolding contains_target
  contains_target-Keeps commit head none = search open_rules
  contains_target-Keeps commit head (some c) = search open_rules

  has_revision-Settles : (commit : String) → Settles g (has_revision g commit)
  unfolding has_revision
  has_revision-Settles commit =
      search (synced-Settles, open_rules, find_commit-Keeps, contains_target-Keeps) depth 12

  compare_commits-Keeps :
      (a b : String) (c : g.Commit) (d : Option g.Commit)
      → Keeps g (Cloned g) (compare_commits g a b c d)
  unfolding compare_commits
  compare_commits-Keeps a b c none = search open_rules
  compare_commits-Keeps a b c (some d) = search open_rules

  with_ancestor-Keeps :
      (a b : String) (c : Option g.Commit) → Keeps g (Cloned g) (with_ancestor g a b c)
  unfolding with_ancestor
  with_ancestor-Keeps a b none = search open_rules
  with_ancestor-Keeps a b (some c) = search (open_rules, find_commit-Keeps, compare_commits-Keeps)

  is_not_after-Settles : (a b : String) → Settles g (is_not_after g a b)
  unfolding is_not_after
  is_not_after-Settles a b =
      search (synced-Settles, open_rules, find_commit-Keeps, with_ancestor-Keeps) depth 12

  head_text-Keeps : (c : String) → Keeps g (Cloned g) (head_text g c)
  unfolding head_text
  head_text-Keeps c = search open_rules

  get_latest_revision-Settles : Settles g (get_latest_revision g)
  unfolding get_latest_revision
  get_latest_revision-Settles = synced-Settles g _ _ (head_text-Keeps _)

  get_tree-Keeps : (hash : String) → Keeps g (Cloned g) (get_tree_for_commit g hash)
  unfolding get_tree_for_commit
  get_tree-Keeps hash = search open_rules

  from_tree-Keeps : (hash : String) → Keeps g (Cloned g) (from_tree g hash)
  unfolding from_tree
  from_tree-Keeps hash = search (open_rules, get_tree-Keeps)

  get_changed_files-Settles : (a b folder : String) → Settles g (get_changed_files g a b folder)
  unfolding get_changed_files
  get_changed_files-Settles a b folder =
      search (synced-Settles, open_rules, get_tree-Keeps, from_tree-Keeps) depth 12

  read_file-Keeps :
      (w : g.Worktree) (a b path : String) → Keeps g (Cloned g) (read_file g w a b path)
  unfolding read_file
  read_file-Keeps w a b path = search open_rules

  read_signatures-Keeps :
      (w : g.Worktree) (folder name : String) (files : List DirEntry)
      → Keeps g (Cloned g) (read_signatures g w folder name files)
  unfolding read_signatures
  read_signatures-Keeps w folder name [] = search open_rules
  read_signatures-Keeps w folder name (f ∷ files) =
      Keeps-if g (Cloned g) (not f.is_dir && g.matches (signature_pattern g name) f.name) _ _
        (Keeps-bind g (Cloned g) _ _
          (Keeps-both g (Cloned g) _ (read_file-Keeps w "" "" (join_all (folder ∷ f.name ∷ []))))
          λ content.
            Keeps-bind g (Cloned g) _ _ (read_signatures-Keeps w folder name files)
              λ rest. Keeps-pure g (Cloned g) (add_signature g content rest))
        (read_signatures-Keeps w folder name files)

  signatures_in-Keeps :
      (w : g.Worktree) (folder name : String) (r : Result (List DirEntry))
      → Keeps g (Cloned g) (signatures_in g w folder name r)
  unfolding signatures_in
  signatures_in-Keeps w folder name (ok files) = read_signatures-Keeps w folder name files
  signatures_in-Keeps w folder name (err e) = search open_rules

  fetch-Settles :
      (msr : Api.Signing.ManifestSigningRequest) → Settles g (fetch_msr_by_version g msr)
  unfolding fetch_msr_by_version fetch_locked
  fetch-Settles msr =
      search (synced-Settles, open_rules, read_file-Keeps, signatures_in-Keeps) depth 12

  update_secrets-Settles : (auth : g.Auth) (s : PgpSecrets) → Settles g (update_secrets g auth s)
  unfolding update_secrets set_secrets
  update_secrets-Settles auth s =
      under_mutex-Free g (Any g) (Any g) (set_secrets g auth s) (record { at = λ q h. h })

  sync-Settles : Settles g (sync g)
  sync-Settles =
      Triple-weaken (sync g) (sync_lem g) (λ q h. h) (λ a q h. (h.0, h.1, tt, h.3)) (λ q h. h)

  free_call :
      {A : Type 0} (op : g.State → Result A × g.State) → Keeps g (Free g (Any g)) (call g op)
  free_call op = Triple-call g (Free g (Any g)) op (λ p s h. h)

  remote-Settles : Settles g (get_remote_head_commit g)
  unfolding get_remote_head_commit
  remote-Settles = search (keeps_rules, free_call) depth 8

  -- The repository is the one that the test has seen.
  local_head-Settles :
      (r : Option g.Repo)
      → Triple
          (λ q. Free g (Any g) q × (q.repo ≡ r))
          (local_head g r)
          (λ _. Free g (Any g))
          (Free g (Any g))
  unfolding local_head
  local_head-Settles none =
      Triple-weaken (raise _) (Triple-raise _) (λ q h. h.0) (λ a q h. h) (λ q h. h)
  local_head-Settles (some repo) =
      Triple-weaken (under_mutex g (head_text g _))
        (under_mutex-Free g (Open g) (Open g) (head_text g _) (
          Triple-weaken (head_text g _) (head_text-Keeps _) (λ q h. h) (λ a q h. h)
            (λ q h. (h.0, h.1, tt, h.3))))
        (λ q (h, e). (h.0, h.1, (repo, e), h.3)) (λ a q h. (h.0, h.1, tt, h.3)) (λ q h. h)

  local-Settles : Settles g (get_local_head_commit g)
  unfolding get_local_head_commit provider
  local-Settles =
      Triple-bind {R = λ p q. Free g (Any g) q × (q.repo ≡ p.repo)} (provider g) _
        (record { at = λ q h. (h, refl) }) (λ p. local_head-Settles p.repo)

  -- Sync, the methods that read, and UpdateSecrets: from a free mutex, a settled clone and no fault,
  -- each leaves the mutex free, the clone settled and no fault, whether or not it fails. So it never
  -- locks the mutex twice, unlocks it on every path, and does not use a repository that is not there.
  pub readers-Settle :
      Settles g (sync g)
      × ((commit : String) → Settles g (has_revision g commit))
      × ((ancestor child : String) → Settles g (is_not_after g ancestor child))
      × Settles g (get_remote_head_commit g)
      × Settles g (get_local_head_commit g)
      × Settles g (get_latest_revision g)
      × ((from_commit to_commit folder : String)
          → Settles g (get_changed_files g from_commit to_commit folder))
      × ((msr : Api.Signing.ManifestSigningRequest) → Settles g (fetch_msr_by_version g msr))
      × ((auth : g.Auth) (s : PgpSecrets) → Settles g (update_secrets g auth s))
  readers-Settle = (
    sync-Settles, has_revision-Settles, is_not_after-Settles, remote-Settles, local-Settles,
    get_latest_revision-Settles, get_changed_files-Settles, fetch-Settles, update_secrets-Settles,
  )
