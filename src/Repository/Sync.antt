-- ===== src/Repository/Sync.antt =====
-- kubernetes/internal/repository/base.go: the methods that read the repository, each after a Sync.
use quorum_based_manifests_g.Common.{
  Bool, false, not, ◌||◌, List, [], ◌∷◌, Option, none, some, String, ◌==◌, ◌+++◌, Result, ok, err,
  insert, lookup, with_context, if◌then◌else◌,
}
use quorum_based_manifests_g.Api.{FileChange}
use quorum_based_manifests_g.Exec.{pure, raise, ◌>>=◌, ◌>>◌, wrapped, both}
use quorum_based_manifests_g.Repository.Changes.{Contents, patch_to_file_change_list}
use quorum_based_manifests_g.Repository.World.{
  PgpSecrets, Reference, Git, Action, call, provider, from_result, the_repo, under_mutex,
}

module _ (g : Git) where
  unfoldable pub set_secrets : g.Auth → PgpSecrets → Action g (Unit {0})
  set_secrets auth pgp_secrets p = (ok tt, record p { auth = auth; pgp_secrets = pgp_secrets })

  unfoldable pub update_secrets : g.Auth → PgpSecrets → Action g (Unit {0})
  unfolding under_mutex set_secrets
  update_secrets auth pgp_secrets = under_mutex g (set_secrets auth pgp_secrets)

  -- Without a clone on disk from a run before, the repository is cloned.
  unfoldable pub open_or_clone : Result g.Repo → Action g g.Repo
  unfolding ◌>>=◌ provider call pure
  open_or_clone (ok repo) = pure repo
  open_or_clone (err e) = do p ← provider g; call g (g.plain_clone p.local_path p.remote_url p.auth)

  -- `if p.repo == nil`
  unfoldable pub ensure_repo : Option g.Repo → Action g (Unit {0})
  unfolding ◌>>=◌ provider call both open_or_clone pure
  ensure_repo (some repo) = pure tt
  ensure_repo none = do
    p ← provider g
    found ← both (call g (g.plain_open p.local_path))
    repo ← open_or_clone found
    λ q. (ok tt, record q { repo = some repo })

  -- An error that says that there is nothing new is none.
  unfoldable pub unless_up_to_date : Result (Unit {0}) → Action g (Unit {0})
  unfolding pure raise
  unless_up_to_date (ok _) = pure tt
  unless_up_to_date (err e) = if g.already_up_to_date e then pure tt else raise e

  unfoldable pub sync_locked : Action g (Unit {0})
  unfolding ◌>>=◌ provider call the_repo both ensure_repo unless_up_to_date
  sync_locked = do
    p ← provider g
    ensure_repo p.repo
    repo ← the_repo g
    w ← call g (g.worktree repo)
    pulled ← both (call g (g.pull w p.auth))
    unless_up_to_date pulled

  unfoldable pub sync : Action g (Unit {0})
  unfolding under_mutex sync_locked
  sync = under_mutex g sync_locked

  -- A method that first synchronizes and then holds the mutex.
  unfoldable pub synced : {A : Type 0} → String → Action g A → Action g A
  unfolding ◌>>=◌ wrapped sync under_mutex
  synced context m = do wrapped context sync; under_mutex g m

  -- The commit, or `none` if the error says that there is no such object.
  unfoldable pub found_commit : String → Result g.Commit → Action g (Option g.Commit)
  unfolding pure raise
  found_commit context (ok c) = pure (some c)
  found_commit context (err e) =
      if g.object_not_found e then pure none else raise (with_context context e)

  unfoldable pub find_commit : String → String → Action g (Option g.Commit)
  unfolding ◌>>=◌ the_repo call both found_commit
  find_commit context commit = do
    repo ← the_repo g
    c ← both (call g (g.commit_object repo (g.new_hash commit)))
    found_commit context c

  unfoldable pub contains_target : String → g.Commit → Option g.Commit → Action g Bool
  unfolding ◌>>=◌ wrapped call pure
  contains_target commit head_commit none = pure false
  contains_target commit head_commit (some target_commit) = do
    is_ancestor ←
        wrapped ("error checking ancestry for commit " +++ commit)
          (call g (g.is_ancestor target_commit head_commit))
    pure (is_ancestor || g.hash_text (g.commit_hash head_commit) == g.hash_text (g.new_hash commit))

  unfoldable pub has_revision : String → Action g Bool
  unfolding ◌>>=◌ wrapped call synced the_repo find_commit contains_target
  has_revision commit = synced "failed to sync repository before checking for revision" do
    repo ← the_repo g
    head ← wrapped "could not get HEAD reference" (call g (g.head repo))
    head_commit ← wrapped "could not get HEAD commit object" (call g (g.commit_object repo head))
    target ← find_commit ("could not get target commit object " +++ commit) commit
    contains_target commit head_commit target

  unfoldable pub compare_commits : String → String → g.Commit → Option g.Commit → Action g Bool
  unfolding ◌>>=◌ wrapped call pure
  compare_commits ancestor child ancestor_commit none = pure false
  compare_commits ancestor child ancestor_commit (some child_commit) = do
    is_child ←
        wrapped ("error checking ancestry for " +++ ancestor +++ " and " +++ child)
          (call g (g.is_ancestor ancestor_commit child_commit))
    pure (
        not is_child
        || g.hash_text (g.commit_hash ancestor_commit) == g.hash_text (g.commit_hash child_commit))

  unfoldable pub with_ancestor : String → String → Option g.Commit → Action g Bool
  unfolding ◌>>=◌ find_commit compare_commits pure
  with_ancestor ancestor child none = pure false
  with_ancestor ancestor child (some ancestor_commit) = do
    found ← find_commit ("could not get child commit object " +++ child) child
    compare_commits ancestor child ancestor_commit found

  unfoldable pub is_not_after : String → String → Action g Bool
  unfolding ◌>>=◌ synced find_commit with_ancestor
  is_not_after ancestor child = synced "failed to sync repository before checking for revision" do
    found ← find_commit ("could not get ancestor commit object " +++ ancestor) ancestor
    with_ancestor ancestor child found

  unfoldable pub reference_map :
      List Reference → List (String × Reference) → List (String × Reference)
  unfolding insert
  reference_map [] refs = refs
  reference_map (r ∷ rest) refs = reference_map rest (insert r.name r refs)

  abbrev pub target_hash : String → Option Reference → Result String
  target_hash name none = err ("HEAD targets " +++ name +++ ", but it was not found in refs")
  target_hash name (some r) = ok r.hash

  abbrev pub resolved : List (String × Reference) → Reference → Option String → Result String
  resolved refs head none = ok head.hash
  resolved refs head (some name) = target_hash name (lookup name refs)

  abbrev pub head_hash : List (String × Reference) → Option Reference → Result String
  head_hash refs none = err "HEAD reference not found"
  head_hash refs (some head) = resolved refs head head.target

  unfoldable pub get_remote_head_commit : Action g String
  unfolding ◌>>=◌ provider wrapped call from_result reference_map lookup
  get_remote_head_commit = do
    p ← provider g
    refs ← wrapped "list remotes" (call g (g.list_remote p.remote_url p.auth))
    let ref_map = reference_map refs []
    from_result g (head_hash ref_map (lookup "HEAD" ref_map))

  unfoldable pub head_text : String → Action g String
  unfolding ◌>>=◌ the_repo wrapped call pure
  head_text context = do
    repo ← the_repo g
    head ← wrapped context (call g (g.head repo))
    pure (g.hash_text head)

  unfoldable pub local_head : Option g.Repo → Action g String
  unfolding under_mutex head_text raise
  local_head none = raise "repository has not been initialized; call Sync() first"
  local_head (some _) =
      under_mutex g (head_text "failed to get HEAD reference from local repository")

  unfoldable pub get_local_head_commit : Action g String
  unfolding ◌>>=◌ provider local_head
  get_local_head_commit = do p ← provider g; local_head p.repo

  unfoldable pub get_latest_revision : Action g String
  unfolding synced head_text
  get_latest_revision =
      synced "failed to sync repository before getting latest revision"
        (head_text "failed to get HEAD reference")

  unfoldable pub get_tree_for_commit : String → Action g g.trees.Tree
  unfolding ◌>>=◌ the_repo wrapped call
  get_tree_for_commit hash = do
    repo ← the_repo g
    commit ←
        wrapped ("could not find commit " +++ hash)
          (call g (g.commit_object repo (g.new_hash hash)))
    wrapped ("could not get tree for commit " +++ hash) (call g (g.tree commit))

  unfoldable pub from_tree : String → Action g g.trees.Tree
  unfolding get_tree_for_commit pure
  from_tree from_commit =
      if from_commit == "" then pure g.trees.empty_tree else get_tree_for_commit from_commit

  unfoldable pub get_changed_files :
      String → String → String → Action g (List FileChange × Contents)
  unfolding ◌>>=◌ synced wrapped call from_result get_tree_for_commit from_tree
  get_changed_files from_commit to_commit from_folder =
      synced "failed to sync repository before getting changed files" do
        new_tree ← get_tree_for_commit to_commit
        old_tree ← from_tree from_commit
        patches ←
            wrapped "could not compute patch between commits" (call g (g.patch old_tree new_tree))
        from_result g (patch_to_file_change_list g.trees old_tree new_tree patches from_folder)
