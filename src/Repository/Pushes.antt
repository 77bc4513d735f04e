-- ===== src/Repository/Pushes.antt =====
-- About PushMSR, PushMCA, PushGovernorSignature, PushSummaryFile and DeleteFolder of
-- kubernetes/internal/repository/base.go: the mutex, and the clone after an error.
use quorum_based_manifests_g.Common.{
  true, false, ℤ, List, [], ◌∷◌, some, String, ◌+++◌, ◌≡◌, refl, Result, ok, err,
}
use quorum_based_manifests_g.Api
use quorum_based_manifests_g.Exec.{
  Post, Triple, Triple-bind, Triple-weaken, Triple-wrapped, Triple-raise, Triple-return,
  Triple-both, Triple-if, wrapped, both, pure, ◌>>=◌, ◌>>◌, continue, caught,
}
use quorum_based_manifests_g.Repository.World.{
  Git, Provider, Action, removed, call, note, effect, provider, deferring_unlock, unlock,
  from_result,
}
use quorum_based_manifests_g.Repository.Folders.{join_all}
use quorum_based_manifests_g.Repository.Keys.{Key}
use quorum_based_manifests_g.Repository.Push.{
  Session, FileToPush, sync_and_lock, reset_event, rollback, push_summary_file, rolling_back,
  or_rollback, in_session, commit_and_push, push_workflow, push_msr, push_mca,
}
use quorum_based_manifests_g.Repository.GovernorSignature.{
  is_missing, create_file_governor_signature_and_attach, push_governor_signature, remove_and_push,
  delete_folder,
}
use quorum_based_manifests_g.Repository.Keeps.{
  Settled, Any, Open, Free, Unlocked, Settles, Keeps, Keeps-call, head_read, keeps_rules,
}
use quorum_based_manifests_g.Repository.Mutex.{Cloned, released, deferring_unlock-Free}
use quorum_based_manifests_g.Repository.Rollback.{
  HasEntities, Dirty, Begun, Begun-Dirty, sync_and_lock_lem, edit-Dirty, call-Dirty,
  create_file-Dirty, create_yaml-Dirty, stage-Dirty, commit_and_push_lem,
}

module _ (g : Git) where
  reset_event_lem :
      (h : g.Hash) (answer : Result (Unit {0})) {E : Provider g → Type 0}
      → Triple (Dirty g h) (note g (reset_event g h answer)) (λ _. Cloned g) E
  unfolding note
  reset_event_lem h (ok _) = record { at = λ p d. (d.0, d.1, d.2, d.3) }
  reset_event_lem h (err e) = record { at = λ p d. (d.0, d.1, d.2, d.3) }

  rollback_lem :
      (s : Session g) {E : Provider g → Type 0}
      → Triple (Dirty g s.original) (rollback g s) (λ _. Cloned g) E
  unfolding rollback
  rollback_lem s =
      Triple-bind (both (call g (g.reset_hard s.worktree s.original))) _
        (Triple-both (call g (g.reset_hard s.worktree s.original)) (call-Dirty g s.original _))
        (λ answer. reset_event_lem s.original answer)

  rolling_back_lem :
      {A : Type 0} (s : Session g) (c : String) (Q : A → Provider g → Type 0)
      (p : Result A × Provider g)
      → Post Q (Dirty g s.original) p
      → Post Q (Cloned g) (continue (caught p) (rolling_back g s c))
  unfolding pure
  rolling_back_lem s c Q (ok a, p) h = h
  rolling_back_lem s c Q (err e, p) h =
      (Triple-bind (rollback g s) _ (rollback_lem s) (λ _. Triple-raise _)).at p h

  -- An error of the step leaves the clone as the session found it.
  or_rollback_lem :
      {A : Type 0} (s : Session g) (c : String) (m : Action g A) (P : Provider g → Type 0)
      (Q : A → Provider g → Type 0)
      → Triple P m Q (Dirty g s.original)
      → Triple P (or_rollback g s c m) Q (Cloned g)
  unfolding or_rollback ◌>>=◌ both
  or_rollback_lem s c m P Q t = record { at = λ p h. rolling_back_lem s c Q (m p) (t.at p h) }

  module _ (ring : HasEntities g) where
    in_session_lem :
        {A : Type 0} (work : Session g → Action g A)
        → ((s : Session g) → Triple (Begun g s.original) (work s) (λ _. Cloned g) (Cloned g))
        → Settles g (in_session g work)
    unfolding in_session
    in_session_lem work t =
        Triple-bind (wrapped _ (sync_and_lock g)) _ (Triple-wrapped _ _ (sync_and_lock_lem g ring))
          λ s. deferring_unlock-Free g (Any g) (Begun g s.original) (work s) (
            Triple-weaken (work s) (t s) (λ p h. h) (λ a p h. (h.0, h.1, tt, h.3))
              (λ p h. (h.0, h.1, tt, h.3)))

    -- Work that only edits, then the commit and the push.
    edit_and_push :
        (s : Session g) (c message : String) (edits : Action g (Unit {0}))
        → Keeps g (Dirty g s.original) edits
        → Triple
            (Begun g s.original)
            (or_rollback g s c edits
              >> or_rollback g s "commit and push" (commit_and_push g s.worktree message s.entity))
            (λ _. Cloned g)
            (Cloned g)
    edit_and_push s c message edits k =
        Triple-bind {R = λ _. Dirty g s.original} (or_rollback g s c edits) _
          (Triple-weaken (or_rollback g s c edits)
            (or_rollback_lem s c edits (Dirty g s.original) (λ _. Dirty g s.original) k)
            (Begun-Dirty g s.original) (λ a p h. h) (λ p h. h))
          λ _.
            or_rollback_lem s "commit and push" _ _ _
              (commit_and_push_lem g s.original s.worktree message s.entity)

    push_workflow-Settles :
        (files : List FileToPush) (message : String) → Settles g (push_workflow g files message)
    unfolding push_workflow
    push_workflow-Settles files message =
        in_session_lem _
          λ s. edit_and_push s _ message _ (stage-Dirty g s.original s.worktree s.entity files)

    push_msr-Settles : (msr : Api.Signing.ManifestObject) → Settles g (push_msr g msr)
    unfolding push_msr
    push_msr-Settles msr = search push_workflow-Settles

    push_mca-Settles : (mca : Api.Approval.ManifestObject) → Settles g (push_mca g mca)
    unfolding push_mca
    push_mca-Settles mca = search push_workflow-Settles

    signature-Dirty :
        (h : g.Hash) (w : g.Worktree) (entity : Key g) (file : Result String) (name folder : String)
        (version : ℤ)
        → Keeps g
            (Dirty g h)
            (create_file_governor_signature_and_attach g w entity file name folder version)
    unfolding create_file_governor_signature_and_attach
    signature-Dirty h w entity file name folder version =
        search (keeps_rules, call-Dirty g h, create_file-Dirty g h) depth 12

    push_governor_signature-Settles :
        (msr : Api.Signing.ManifestObject) → Settles g (push_governor_signature g msr)
    unfolding push_governor_signature
    push_governor_signature-Settles msr =
        search (in_session_lem, edit_and_push, signature-Dirty) depth 12

    removal-Dirty :
        (s : Session g) (c : String) (path : String) (op : g.State → Result (Unit {0}) × g.State)
        → Triple
            (Dirty g s.original)
            (or_rollback g s c (effect g (removed path) op))
            (λ _. Dirty g s.original)
            (Cloned g)
    removal-Dirty s c path op =
        or_rollback_lem s c _ _ _ (edit-Dirty g s.original (removed path) op tt)

    remove_and_push_lem :
        (s : Session g) (path local_path : String)
        → Triple
            (Begun g s.original)
            (remove_and_push g s path local_path)
            (λ _. Cloned g)
            (Cloned g)
    unfolding remove_and_push
    remove_and_push_lem s path local_path =
        let glob = g.remove_glob s.worktree (join_all (path ∷ "**" ∷ [])) in
        let stage : Action g (Unit {0}) =
          or_rollback g s "failed to stage folder deletion in git" (effect g (removed path) glob) in
        let message = "Delete governance folder: " +++ path in
        Triple-bind {R = λ _. Dirty g s.original} stage _
          (Triple-weaken stage (removal-Dirty s "failed to stage folder deletion in git" path glob)
            (Begun-Dirty g s.original) (λ a p h. h) (λ p h. h))
          λ _.
            Triple-bind
              (or_rollback g s "failed to remove folder from local path"
                (effect g (removed path) (g.remove_all local_path)))
              _
              (removal-Dirty s "failed to remove folder from local path" path
                (g.remove_all local_path))
              λ _.
                Triple-bind
                  (or_rollback g s "commit and push"
                    (commit_and_push g s.worktree message s.entity))
                  _
                  (or_rollback_lem s "commit and push" _ _ _
                    (commit_and_push_lem g s.original s.worktree message s.entity))
                  λ _. Triple-return tt (λ p h. h)

    Begun-Cloned : (s : Session g) (p : Provider g) → Begun g s.original p → Cloned g p
    Begun-Cloned s p b = (b.0, b.1, b.2, b.3.0)

    delete_folder-Settles : (path : String) → Settles g (delete_folder g path)
    unfolding delete_folder provider
    delete_folder-Settles path = in_session_lem _ λ s.
        Triple-bind {R = λ _. Begun g s.original} (provider g) _ (record { at = λ p b. b })
          λ p.
            Triple-bind (both (call g (g.stat (join_all (p.local_path ∷ path ∷ []))))) _
              (Triple-both (call g (g.stat (join_all (p.local_path ∷ path ∷ [])))) (
                Keeps-call g (λ log. Settled log × (head_read log ≡ some s.original)) (Open g)
                  (g.stat (join_all (p.local_path ∷ path ∷ [])))))
              λ there.
                Triple-if (is_missing g there) _ _ (Triple-return tt (Begun-Cloned s))
                  (remove_and_push_lem s path (join_all (p.local_path ∷ path ∷ [])))

    -- A session whose work may fail with something staged: the mutex is freed all the same.
    unlocked_lem :
        {A : Type 0} (P : Provider g → Type 0) (m : Action g A)
        → Triple P m (λ _. Cloned g) (λ p. (p.locked ≡ true) × (p.faulty ≡ false))
        → Triple P (deferring_unlock g m) (λ _. Free g (Any g)) (Unlocked g)
    unfolding deferring_unlock ◌>>=◌ both
    unlocked_lem {A} P m t = record { at = λ p i. freed (m p).0 (m p).1 (t.at p i) }
      where
        freed :
            (r : Result A) (p : Provider g)
            → Post (λ _. Cloned g) (λ q. (q.locked ≡ true) × (q.faulty ≡ false)) (r, p)
            → Post (λ _. Free g (Any g)) (Unlocked g) ((unlock g >>= λ _. from_result g r) p)
        freed (ok a) p h = rw (released g (Any g) (ok a) p h.0) (refl, h.1, tt, h.3)
        freed (err e) p h = rw (released g (Any g) (err e) p h.0) (refl, h.1)

    push_summary_file-Unlocked :
        (content name folder : String) (version : ℤ)
        → Triple
            (Free g (Any g))
            (push_summary_file g content name folder version)
            (λ _. Free g (Any g))
            (Unlocked g)
    unfolding push_summary_file in_session
    push_summary_file-Unlocked content name folder version =
        Triple-bind (wrapped _ (sync_and_lock g)) _
          (Triple-weaken (wrapped _ (sync_and_lock g))
            (Triple-wrapped _ _ (sync_and_lock_lem g ring)) (λ p h. h) (λ a p h. h)
            (λ p h. (h.0, h.1)))
          λ s. unlocked_lem (Begun g s.original) _ (
            Triple-bind {R = λ _. Dirty g s.original} (wrapped _ _) _
              (Triple-weaken (wrapped _ _)
                (Triple-wrapped _ _
                  (create_yaml-Dirty g s.original s.worktree s.entity content name folder version))
                (Begun-Dirty g s.original) (λ a p h. h) (λ p h. (h.0, h.1)))
              λ _.
                Triple-weaken
                  (or_rollback g s "commit and push" (commit_and_push g s.worktree _ s.entity))
                  (or_rollback_lem s "commit and push" _ _ _
                    (commit_and_push_lem g s.original s.worktree _ s.entity))
                  (λ p h. h) (λ a p h. h) (λ p h. (h.0, h.1)))

    -- If a key ring that is read has an entity, and the method starts from a free mutex, a settled
    -- clone and no fault: PushMSR, PushMCA, PushGovernorSignature and DeleteFolder leave the mutex
    -- free, on every path, and what they have written, staged or committed is pushed, or the clone
    -- was reset to the head that was read at the start, or that reset was attempted and has failed.
    -- PushSummaryFile does so when it succeeds; when it fails, it leaves the mutex free.
    pub writers-Settle :
        ((msr : Api.Signing.ManifestObject) → Settles g (push_msr g msr))
        × ((mca : Api.Approval.ManifestObject) → Settles g (push_mca g mca))
        × ((msr : Api.Signing.ManifestObject) → Settles g (push_governor_signature g msr))
        × ((path : String) → Settles g (delete_folder g path))
        × ((content name folder : String) (version : ℤ)
            → Triple
                (Free g (Any g))
                (push_summary_file g content name folder version)
                (λ _. Free g (Any g))
                (Unlocked g))
    writers-Settle = (
      push_msr-Settles, push_mca-Settles, push_governor_signature-Settles, delete_folder-Settles,
      push_summary_file-Unlocked,
    )
