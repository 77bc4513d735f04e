-- ===== src/Repository/Summary.antt =====
-- PushSummaryFile after a failed step.
use quorum_based_manifests_g.Common.{
  true, false, ℤ, String, ◌+++◌, ◌≡◌, refl, subst, ok, err, with_context,
}
use quorum_based_manifests_g.Exec.{Post, ◌>>=◌, wrapped, both}
use quorum_based_manifests_g.Repository.World.{Git, Provider, unlock, from_result, deferring_unlock}
use quorum_based_manifests_g.Repository.Push.{
  Session, sync_and_lock, in_session, create_yaml_file_with_signature_and_attach, push_summary_file,
}
use quorum_based_manifests_g.Repository.Keeps.{Any, Free}
use quorum_based_manifests_g.Repository.Rollback.{
  HasEntities, Dirty, Begun, Begun-Dirty, sync_and_lock_lem, create_yaml-Dirty,
}

module _ (g : Git) (ring : HasEntities g) where
  still_locked :
      (s : Session g) (p p' : Provider g) (content name folder : String) (version : ℤ) (e : String)
      → Begun g s.original p
      → create_yaml_file_with_signature_and_attach g s.worktree s.entity content name folder version
          p
        ≡ (err e, p')
      → p'.locked ≡ true
  still_locked s p p' content name folder version e b h =
      (subst (λ r. Post (λ _. Dirty g s.original) (Dirty g s.original) r) h
        ((create_yaml-Dirty g s.original s.worktree s.entity content name folder version).at p
          (Begun-Dirty g s.original p b))).0

  -- When PushSummaryFile fails while it writes and stages its two files, it frees the mutex and
  -- returns, and the clone stays as the failed step has left it: there is no rollback.
  pub summary_not_rolled_back :
      (p p1 p2 : Provider g) (s : Session g) (content name folder : String) (version : ℤ)
      (e : String)
      → Free g (Any g) p
      → sync_and_lock g p ≡ (ok s, p1)
      → create_yaml_file_with_signature_and_attach g s.worktree s.entity content name folder version
          p1
        ≡ (err e, p2)
      → push_summary_file g content name folder version p ≡ (
        err (with_context ("add file " +++ name +++ " to worktree") e),
        record p2 { locked = false },
      )
  unfolding push_summary_file in_session ◌>>=◌ wrapped deferring_unlock both unlock from_result
  summary_not_rolled_back p p1 p2 s content name folder version e free h k =
      let begun : Begun g s.original p1 =
        subst (λ r. Post (λ session. Begun g session.original) (Free g (Any g)) r) h
          ((sync_and_lock_lem g ring).at p free) in
      let held = still_locked s p1 p2 content name folder version e begun k in
      rw h (rw k (rw held refl))
