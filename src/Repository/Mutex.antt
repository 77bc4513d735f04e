-- ===== src/Repository/Mutex.antt =====
-- The mutex of a provider in the methods that read the repository.
use quorum_based_manifests_g.Common.{
  true, false, Option, none, some, String, ◌≡◌, refl, Result, ok, err,
}
use quorum_based_manifests_g.Exec.{
  Post, Triple, ◌>>=◌, wrapped, both, Triple-bind, Triple-wrapped, Triple-weaken, Triple-return,
}
use quorum_based_manifests_g.Repository.World.{
  Git, Provider, Action, call, provider, from_result, the_repo, lock, unlock, deferring_unlock,
  under_mutex,
}
use quorum_based_manifests_g.Repository.Sync.{
  open_or_clone, ensure_repo, unless_up_to_date, sync_locked, sync, synced,
}
use quorum_based_manifests_g.Repository.Keeps.{
  Settled, Any, Open, Locked, Free, Settles, Keeps, Keeps-bind, Keeps-call, Keeps-the_repo,
  Keeps-provider, keeps_rules,
}

module _ (g : Git) where
  pub lock_lem :
      (R : Option g.Repo → Type 0) {E : Provider g → Type 0}
      → Triple (Free g R) (lock g) (λ _. Locked g R Settled) E
  unfolding lock
  lock_lem R = record { at = λ p h. rw h.0 (refl, h.1, h.2, h.3) }

  pub unlock_lem :
      (R : Option g.Repo → Type 0) {E : Provider g → Type 0}
      → Triple (Locked g R Settled) (unlock g) (λ _. Free g R) E
  unfolding unlock
  unlock_lem R = record { at = λ p h. rw h.0 (refl, h.1, h.2, h.3) }

  module _ {A : Type 0} (R : Option g.Repo → Type 0) where
    pub released :
        (r : Result A) (p : Provider g)
        → p.locked ≡ true
        → (unlock g >>= λ _. from_result g r) p ≡ (r, record p { locked = false })
    unfolding unlock ◌>>=◌ from_result
    released r p h = rw h refl

    released-Post :
        (r : Result A) (p : Provider g)
        → Post (λ _. Locked g R Settled) (Locked g (Any g) Settled) (r, p)
        → Post (λ _. Free g R) (Free g (Any g)) ((unlock g >>= λ _. from_result g r) p)
    released-Post (ok a) p h = rw (released (ok a) p h.0) (refl, h.1, h.2, h.3)
    released-Post (err e) p h = rw (released (err e) p h.0) (refl, h.1, h.2, h.3)

    -- A method behind the mutex leaves it free, after an error too.
    pub deferring_unlock-Free :
        (P : Provider g → Type 0) (m : Action g A)
        → Triple P m (λ _. Locked g R Settled) (Locked g (Any g) Settled)
        → Triple P (deferring_unlock g m) (λ _. Free g R) (Free g (Any g))
    unfolding deferring_unlock ◌>>=◌ both
    deferring_unlock-Free P m t = record { at = λ p h. released-Post (m p).0 (m p).1 (t.at p h) }

    pub under_mutex-Free :
        (R' : Option g.Repo → Type 0) (m : Action g A)
        → Triple (Locked g R' Settled) m (λ _. Locked g R Settled) (Locked g (Any g) Settled)
        → Triple (Free g R') (under_mutex g m) (λ _. Free g R) (Free g (Any g))
    unfolding under_mutex
    under_mutex-Free R' m t =
        Triple-bind (lock g) _ (lock_lem R') (λ _. deferring_unlock-Free (Locked g R' Settled) m t)

  abbrev Working : Provider g → Type 0
  Working = Locked g (Any g) Settled

  abbrev pub Cloned : Provider g → Type 0
  Cloned = Locked g (Open g) Settled

  open_or_clone-Keeps : (r : Result g.Repo) → Keeps g Working (open_or_clone g r)
  unfolding open_or_clone
  open_or_clone-Keeps (ok repo) = search keeps_rules
  open_or_clone-Keeps (err e) = search (keeps_rules, Keeps-call g Settled (Any g))

  -- The rules for a call and for the repository, while it is open.
  pub open_call : {A : Type 0} (op : g.State → Result A × g.State) → Keeps g (Cloned) (call g op)
  open_call op = Keeps-call g Settled (Open g) op

  pub open_repo : Keeps g (Cloned) (the_repo g)
  open_repo = Keeps-the_repo g Settled

  pub ruleset open_rules = (keeps_rules, open_call, open_repo)

  set_repo-Cloned :
      (repo : g.Repo)
      → Triple {A = Unit {0}} Working
          (λ q. (ok tt, record q { repo = some repo }))
          (λ _. Cloned)
          Working
  set_repo-Cloned repo = record { at = λ q h. (h.0, h.1, (repo, refl), h.3) }

  ensure_repo_lem :
      (r : Option g.Repo)
      → Triple (λ q. Working q × (q.repo ≡ r)) (ensure_repo g r) (λ _. Cloned) Working
  unfolding ensure_repo
  ensure_repo_lem (some repo) = Triple-return tt (λ q (h, e). (h.0, h.1, (repo, e), h.3))
  ensure_repo_lem none =
      Triple-weaken (ensure_repo g none)
        (Triple-bind (provider g) _ (Keeps-provider g Working) λ p.
          Triple-bind (both (call g (g.plain_open p.local_path))) _
            (search (keeps_rules, Keeps-call g Settled (Any g)))
            λ found.
              Triple-bind (open_or_clone g found) _ (open_or_clone-Keeps found) set_repo-Cloned)
        (λ q h. h.0) (λ a q h. h) (λ q h. h)

  unless_up_to_date-Keeps : (r : Result (Unit {0})) → Keeps g Cloned (unless_up_to_date g r)
  unfolding unless_up_to_date
  unless_up_to_date-Keeps (ok _) = search keeps_rules
  unless_up_to_date-Keeps (err e) = search keeps_rules

  -- After an error the repository may still be there.
  forget : {A : Type 0} (m : Action g A) → Keeps g Cloned m → Triple Cloned m (λ _. Cloned) Working
  forget m k = Triple-weaken m k (λ q h. h) (λ a q h. h) (λ q h. (h.0, h.1, tt, h.3))

  sync_locked_lem : Triple Working (sync_locked g) (λ _. Cloned) Working
  unfolding sync_locked provider
  sync_locked_lem =
      Triple-bind {R = λ p q. Working q × (q.repo ≡ p.repo)} (provider g) _
        (record { at = λ q h. (h, refl) })
        λ p.
          Triple-bind (ensure_repo g p.repo) _ (ensure_repo_lem p.repo)
            λ _. forget _ (search (open_rules, unless_up_to_date-Keeps))

  -- A sync that succeeds leaves an open repository.
  pub sync_lem : Triple (Free g (Any g)) (sync g) (λ _. Free g (Open g)) (Free g (Any g))
  unfolding sync
  sync_lem = under_mutex-Free (Open g) (Any g) (sync_locked g) sync_locked_lem

  -- A method that keeps the open repository while it holds the mutex, after a sync.
  pub synced-Settles :
      {A : Type 0} (context : String) (m : Action g A)
      → Keeps g Cloned m
      → Settles g (synced g context m)
  unfolding synced
  synced-Settles context m k =
      Triple-weaken (synced g context m)
        (Triple-bind (wrapped context (sync g)) _ (Triple-wrapped context (sync g) sync_lem)
          λ _. under_mutex-Free (Open g) (Open g) m (forget m k))
        (λ q h. h) (λ a q h. (h.0, h.1, tt, h.3)) (λ q h. h)
