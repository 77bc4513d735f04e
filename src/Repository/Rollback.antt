-- ===== src/Repository/Rollback.antt =====
-- The methods that write to the repository: the mutex, and the rollback after an error.
use quorum_based_manifests_g.Common.{
  ℤ, List, [], ◌∷◌, ◌==◌, some, String, ◌≡◌, ◌≢◌, refl, Result, ok, err,
}
use quorum_based_manifests_g.Exec.{
  Triple, Triple-bind, Triple-weaken, Triple-wrapped, Triple-raise, Triple-return, Triple-if,
  Triple-both, wrapped, both, raise, ◌>>=◌,
}
use quorum_based_manifests_g.Repository.World.{
  Git, Provider, Action, Event, opened, wrote, staged, removed, committed, pushed, reset, not_reset,
  call, note, effect, provider, from_result, the_repo, lock, unlock,
}
use quorum_based_manifests_g.Repository.Sync.{sync}
use quorum_based_manifests_g.Repository.Keys.{Key, unlock_entity, first_entity, get_pgp_entity}
use quorum_based_manifests_g.Repository.Push.{
  FileToPush, unlocking, or_unlock, sync_and_lock, create_file_and_add_to_worktree,
  create_yaml_file_with_signature_and_attach, stage_governance_files, unless_pushed,
  commit_and_push,
}
use quorum_based_manifests_g.Repository.Keeps.{
  head_read, Settled, IsEdit, Any, Open, Locked, Free, Keeps, Keeps-call, Keeps-edit,
  Keeps-the_repo, the_repo_lem, Keeps-from_result, Keeps-provider, keeps_rules,
}
use quorum_based_manifests_g.Repository.Mutex.{Cloned, lock_lem, unlock_lem, sync_lem, open_call}

-- A key ring that could be read has an entity.
abbrev pub HasEntities : Git → Type 0
HasEntities g = (text : String) → g.read_armored_key_ring text ≢ ok []

module _ (g : Git) where
  -- The head was read; something may be staged.
  abbrev pub Dirty : g.Hash → Provider g → Type 0
  Dirty h = Locked g (Open g) (λ log. head_read log ≡ some h)

  -- Nothing is staged yet.
  abbrev pub Begun : g.Hash → Provider g → Type 0
  Begun h = Locked g (Open g) (λ log. Settled log × (head_read log ≡ some h))

  pub Begun-Dirty : (h : g.Hash) (p : Provider g) → Begun h p → Dirty h p
  Begun-Dirty h p b = (b.0, b.1, b.2, b.3.1)

  unlocking_lem :
      {A : Type 0} (c : String) (r : Result A)
      → Triple (Cloned g) (unlocking g c r) (λ _. Cloned g) (Free g (Any g))
  unlocking_lem c (ok a) = Triple-return a (λ p h. h)
  unlocking_lem c (err e) = Triple-bind (unlock g) _ (unlock_lem g (Open g)) λ _.
      Triple-weaken (raise _) (Triple-raise _) (λ p h. h) (λ a p h. h) (λ p h. (h.0, h.1, tt, h.3))

  or_unlock_lem :
      {A : Type 0} (c : String) (m : Action g A)
      → Keeps g (Cloned g) m
      → Triple (Cloned g) (or_unlock g c m) (λ _. Cloned g) (Free g (Any g))
  unfolding or_unlock
  or_unlock_lem c m k = Triple-bind (both m) _ (Triple-both m k) (unlocking_lem c)

  module _ (ring : HasEntities g) where
    first_entity-Keeps :
        (text passphrase : String) (r : Result (List (Key g)))
        → g.read_armored_key_ring text ≡ r
        → Keeps g (Cloned g) (from_result g r >>= first_entity g passphrase)
    unfolding ◌>>=◌ from_result
    first_entity-Keeps text passphrase (ok []) e = absurd (ring text e)
    first_entity-Keeps text passphrase (ok (entity ∷ _)) e = record {
      at = λ p h. (Keeps-from_result g (Cloned g) (unlock_entity g passphrase entity)).at p h;
    }
    first_entity-Keeps text passphrase (err x) e = record { at = λ p h. h }

    get_pgp_entity-Keeps : Keeps g (Cloned g) (get_pgp_entity g)
    unfolding get_pgp_entity
    get_pgp_entity-Keeps = Triple-bind (provider g) _ (Keeps-provider g (Cloned g)) λ p.
        Triple-if (p.pgp_secrets.private_key == "") _ _ (Triple-raise _) (
          first_entity-Keeps p.pgp_secrets.private_key p.pgp_secrets.passphrase
            (g.read_armored_key_ring p.pgp_secrets.private_key) refl)

    opened_lem :
        (h : g.Hash) {E : Provider g → Type 0}
        → Triple (Cloned g) (note g (opened h)) (λ _. Begun h) E
    unfolding note
    opened_lem h = record { at = λ p c. (c.0, c.1, c.2, (c.3, refl)) }

    pub sync_and_lock_lem :
        Triple
          (Free g (Any g))
          (sync_and_lock g)
          (λ session. Begun session.original)
          (Free g (Any g))
    unfolding sync_and_lock
    sync_and_lock_lem =
        Triple-bind (wrapped _ (sync g)) _ (Triple-wrapped _ (sync g) (sync_lem g)) λ _.
          Triple-bind (lock g) _ (lock_lem g (Open g)) λ _.
            Triple-bind (the_repo g) _ (the_repo_lem g Settled (Free g (Any g))) λ repo.
              Triple-bind (or_unlock g _ (call g (g.worktree repo))) _
                (or_unlock_lem _ _ (open_call g _))
                λ w.
                  Triple-bind (or_unlock g _ (get_pgp_entity g)) _
                    (or_unlock_lem _ _ get_pgp_entity-Keeps)
                    λ entity.
                      Triple-bind (or_unlock g _ (call g (g.head repo))) _
                        (or_unlock_lem _ _ (open_call g _))
                        λ head. Triple-bind (note g (opened head)) _ (opened_lem head) λ _.
                          Triple-return (record { worktree = w; original = head; entity = entity })
                            (λ p b. b)

  -- Edits of the clone keep the head that was read.
  module _ (h : g.Hash) where
    pub edit-Dirty :
        {A : Type 0} (e : Event g.Hash) (op : g.State → Result A × g.State)
        → IsEdit e
        → Keeps g (Dirty h) (effect g e op)
    edit-Dirty (wrote path) op i =
        Keeps-edit g (λ log. head_read log ≡ some h) (wrote path) op (λ log k. k)
    edit-Dirty (staged path) op i =
        Keeps-edit g (λ log. head_read log ≡ some h) (staged path) op (λ log k. k)
    edit-Dirty (removed path) op i =
        Keeps-edit g (λ log. head_read log ≡ some h) (removed path) op (λ log k. k)
    edit-Dirty committed op i =
        Keeps-edit g (λ log. head_read log ≡ some h) committed op (λ log k. k)
    edit-Dirty (opened _) op i = absurd i
    edit-Dirty pushed op i = absurd i
    edit-Dirty (reset _) op i = absurd i
    edit-Dirty (not_reset _) op i = absurd i

    pub call-Dirty :
        {A : Type 0} (op : g.State → Result A × g.State) → Keeps g (Dirty h) (call g op)
    call-Dirty op = Keeps-call g (λ log. head_read log ≡ some h) (Open g) op

    pub create_file-Dirty :
        (w : g.Worktree) (folder name file : String)
        → Keeps g (Dirty h) (create_file_and_add_to_worktree g w folder name file)
    unfolding create_file_and_add_to_worktree
    create_file-Dirty w folder name file = search (keeps_rules, edit-Dirty) depth 12

    pub create_yaml-Dirty :
        (w : g.Worktree) (entity : Key g) (bytes name folder : String) (version : ℤ)
        → Keeps g
            (Dirty h)
            (create_yaml_file_with_signature_and_attach g w entity bytes name folder version)
    unfolding create_yaml_file_with_signature_and_attach
    create_yaml-Dirty w entity bytes name folder version =
        search (keeps_rules, call-Dirty, create_file-Dirty) depth 12

    pub stage-Dirty :
        (w : g.Worktree) (entity : Key g) (files : List FileToPush)
        → Keeps g (Dirty h) (stage_governance_files g w entity files)
    unfolding stage_governance_files
    stage-Dirty w entity [] = search keeps_rules
    stage-Dirty w entity (f ∷ files) =
        Triple-bind (wrapped _ (from_result g f.object)) _
          (Triple-wrapped _ _ (Keeps-from_result g (Dirty h) f.object))
          λ bytes.
            Triple-bind (wrapped _ _) _
              (Triple-wrapped _ _ (create_yaml-Dirty w entity bytes f.name f.folder f.version))
              λ _. stage-Dirty w entity files

    pushed_lem : {E : Provider g → Type 0} → Triple (Dirty h) (note g pushed) (λ _. Cloned g) E
    unfolding note
    pushed_lem = record { at = λ p d. (d.0, d.1, d.2, tt) }

    unless_pushed_lem :
        (r : Result (Unit {0})) → Triple (Dirty h) (unless_pushed g r) (λ _. Cloned g) (Dirty h)
    unfolding unless_pushed
    unless_pushed_lem (ok _) = pushed_lem
    unless_pushed_lem (err e) = Triple-if (g.already_up_to_date e) _ _ pushed_lem (Triple-raise _)

    pub commit_and_push_lem :
        (w : g.Worktree) (message : String) (entity : Key g)
        → Triple (Dirty h) (commit_and_push g w message entity) (λ _. Cloned g) (Dirty h)
    unfolding commit_and_push
    commit_and_push_lem w message entity =
        Triple-bind (wrapped _ (effect g committed (g.commit w message entity))) _
          (Triple-wrapped _ _ (edit-Dirty committed _ tt))
          λ hash. Triple-bind (provider g) _ (Keeps-provider g (Dirty h)) λ p.
            Triple-bind (the_repo g) _ (Keeps-the_repo g (λ log. head_read log ≡ some h)) λ repo.
              Triple-bind (both (call g (g.push repo p.auth))) _
                (Triple-both (call g (g.push repo p.auth)) (call-Dirty (g.push repo p.auth)))
                λ answer.
                  Triple-bind (unless_pushed g answer) _ (unless_pushed_lem answer)
                    λ _. Triple-return (g.hash_text hash) (λ q c. c)
